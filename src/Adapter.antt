-- ===== src/Adapter.antt =====
-- The receive adapter: pkg/receiveadapter/receiveadapter.go, the HTTP handler of the service that
-- the reconciler deploys. It forwards what Cloud Scheduler sends as one CloudEvent to the sink.
-- `Web` is what it uses of net/http, of uuid and of cloudevents; `Network` is what its calls are
-- answered. The log lines are not modelled.
pub mod Laws
pub mod Delivery
use csr.Base.{
  String, ℕ, ◌==◌, Bool, not, Option, some, none, List, [], ◌∷◌, Result, ok, err, Exec, Eq, pure,
  fail, lift, ◌>>=◌, ◌>>◌, if◌then◌else◌, nat_eq, string_eq,
}

-- `cloudevents.EventContext`, with the time of the clock as a number.
pub record EventContext : Type 0 where
  pub cloud_events_version : String
  pub event_type : String
  pub event_id : String
  pub event_time : ℕ
  pub content_type : String
  pub source : String

pub record Web : Type 1 where
  pub Error : Type 0
  pub Body : Type 0
  pub OutgoingRequest : Type 0
  pub Client : Type 0
  -- `http.StatusOK`
  pub status_ok : ℕ
  -- `&http.Client{}`
  pub new_client : Client
  pub cloud_events_version : String
  -- `cloudevents.Binary.NewRequest`, of the broker, the data and the context
  pub new_request : String → String → EventContext → Result Error OutgoingRequest

pub record Response (W : Web) : Type 0 where
  pub status_code : ℕ
  pub body : W.Body

-- The header is Go's map from canonical names to lists of values.
pub record Request (W : Web) : Type 0 where
  pub header : List (String × List String)
  pub body : W.Body

-- What the handler does to the world, with the answers.
pub data Action (W : Web) : Type 0 where
  wrote_header : ℕ → Action W
  read_body : Result W.Error String → Action W
  drew_uuid : Result W.Error String → Action W
  read_clock : ℕ → Action W
  posted : W.Client → W.OutgoingRequest → Result W.Error (Response W) → Action W
  read_answer : Result W.Error String → Action W
  closed_answer : Action W

-- The last action comes first.
abbrev pub Trace : Web → Type 0
Trace W = List (Action W)

pub record Network (W : Web) : Type 0 where
  pub read_all : Trace W → W.Body → Result W.Error String
  -- `uuid.NewRandom`, as a string
  pub new_random : Trace W → Result W.Error String
  pub now : Trace W → ℕ
  pub do_request : Trace W → W.Client → W.OutgoingRequest → Result W.Error (Response W)

-- `eventIDHeaders[0]` of a list without values.
pub data Panic : Type 0 where
  index_out_of_range : Panic

pub record CloudSchedulerReceiveAdapter (W : Web) : Type 0 where
  pub sink : String
  pub client : Option W.Client

abbrev pub event_type : String
event_type = "GoogleCloudScheduler"

abbrev pub event_source : String
event_source = "GCPCloudScheduler"

abbrev pub request_id_header : String
request_id_header = "X-Request-Id"

-- Go's read of a map.
unfoldable pub values_of : List (String × List String) → String → Option (List String)
values_of [] name = none
values_of ((key, values) ∷ header) name = if key == name then some values else values_of header name

-- The uuid's text, and "" where none could be drawn.
pub uuid_or_empty : {E : Type 0} → Result E String → String
uuid_or_empty (ok uuid) = uuid
uuid_or_empty (err e) = ""

module _ {W : Web} (net : Network W) where
  abbrev Steps : Type 0 → Type 0 → Type 0
  Steps E A = Exec E (Trace W) A

  -- The answer to a call as a value, so that a failure is no failure of the method yet.
  abbrev answered : {E A : Type 0} → (Trace W → A) → (A → Action W) → Steps E A
  answered ask note t = let a = ask t in (ok a, note a ∷ t)

  abbrev done : {E : Type 0} → Action W → Steps E (Unit {0})
  done action t = (ok tt, action ∷ t)

  -- `string(eventIDHeaders[0])` where the header is there, else a fresh identifier.
  id_of_header : Option (List String) → Steps Panic String
  id_of_header (some []) = fail index_out_of_range
  id_of_header (some (first ∷ rest)) = pure first
  id_of_header none = do drawn ← answered net.new_random drew_uuid; pure (uuid_or_empty drawn)

  unfoldable pub extract_event_id : Request W → Steps Panic String
  unfolding id_of_header
  extract_event_id r = id_of_header (values_of r.header request_id_header)

  abbrev pub client_of : CloudSchedulerReceiveAdapter W → W.Client
  client_of ra = elim ra.client [ none ↦ W.new_client | some client ↦ client ]

  -- The deferred `Close` comes after the read of a body that is only logged.
  after_post : Result W.Error (Response W) → Steps W.Error (Unit {0})
  after_post (err e) = fail e
  after_post (ok response) =
      if not (response.status_code == W.status_ok)
      then (do body ← answered (λ t. net.read_all t response.body) read_answer; done closed_answer)
      else done closed_answer

  send : CloudSchedulerReceiveAdapter W → W.OutgoingRequest → Steps W.Error (Unit {0})
  unfolding after_post
  send ra request = do
    answer ← answered (λ t. net.do_request t (client_of ra) request) (posted (client_of ra) request)
    after_post answer

  abbrev pub context_at : String → ℕ → EventContext
  context_at event_id time = record {
    cloud_events_version = W.cloud_events_version;
    event_type = event_type;
    event_id = event_id;
    event_time = time;
    content_type = "application/json";
    source = event_source;
  }

  unfoldable pub post_message :
      CloudSchedulerReceiveAdapter W → String → String → Steps W.Error (Unit {0})
  unfolding send
  post_message ra payload event_id = do
    time ← answered net.now read_clock
    request ← lift (W.new_request ra.sink payload (context_at event_id time))
    send ra request

  -- The error of `postMessage` is dropped.
  abbrev ignoring_error : Steps W.Error (Unit {0}) → Steps Panic (Unit {0})
  ignoring_error m t = (ok tt, (m t).1)

  after_read :
      CloudSchedulerReceiveAdapter W → Request W → Result W.Error String → Steps Panic (Unit {0})
  after_read ra r (err e) = pure tt
  after_read ra r (ok bytes) = do
    event_id ← extract_event_id r
    ignoring_error (post_message ra bytes event_id)

  unfoldable pub serve_http : CloudSchedulerReceiveAdapter W → Request W → Steps Panic (Unit {0})
  unfolding after_read
  serve_http ra r = do
    done (wrote_header W.status_ok)
    read ← answered (λ t. net.read_all t r.body) read_body
    after_read ra r read
