-- ===== src/Tests/Deliveries.antt =====
-- The receive adapter and the programs at work.
use csr.Base.{
  String, ap, sym, ◌∙◌, ◌<>◌, ℕ, ◌⊎◌, ◌≡◌, refl, none, some, Option, [], ◌∷◌, arith, ok, err,
  string_eq, nat_eq, String-discrete, if◌then◌else◌, ◌==◌,
}
use Prim.Native.Char.{code}
use text.Mathlib.TextLemmas.{nil-append, cons-append, append_assoc}
use csr.Adapter.{
  Web, Network, Request, EventContext, CloudSchedulerReceiveAdapter, index_out_of_range, serve_http,
  post_message, extract_event_id, values_of, request_id_header,
}
use csr.Adapter.Laws.{PostRun, ServeRun, post_message-PostRun, serve_http-ServeRun}
use csr.Adapter.Delivery.{statuses, serve_http-statuses}
use csr.Commands.{FlagParser, ReadsFlag}
use csr.Commands.ReceiveAdapter
use csr.Commands.ReceiveAdapter.{main-make_service, failed, serving}
use csr.Reconciler.Services.{make_service}
use csr.Tests.Vendor.{sample}
use csr.Tests.Cluster.{clock, settled}
use csr.Api.Meta.{nil_slice}

abbrev pub plain_web : Web
plain_web = record {
  Error = String;
  Body = String;
  OutgoingRequest = String × (String × EventContext);
  Client = ℕ;
  status_ok = 200;
  new_client = 0;
  cloud_events_version = "0.1";
  new_request = λ sink payload context. ok (sink, (payload, context));
}

-- A network with a sink that answers every event with the status 500.
abbrev pub plain_net : Network plain_web
plain_net = record {
  read_all = λ t body. ok body;
  new_random = λ t. ok "uuid";
  now = λ t. 7;
  do_request = λ t client request. ok (record { status_code = 500; body = "full" });
}

abbrev to_sink : CloudSchedulerReceiveAdapter plain_web
to_sink = record { sink = "http://sink/"; client = none }

abbrev pub tick : Request plain_web
tick = record { header = ("X-Request-Id", "42" ∷ []) ∷ []; body = "tick" }

abbrev bare : Request plain_web
bare = record { header = ("X-Request-Id", []) ∷ []; body = "tick" }

-- A header without a value makes the handler panic, after the 200.
bare_panics : (serve_http plain_net to_sink bare []).0 ≡ err index_out_of_range
unfolding serve_http extract_event_id values_of string_eq String-discrete
bare_panics = refl

serve_http-ServeRun_example :
    ServeRun plain_net to_sink bare [] (serve_http plain_net to_sink bare [])
serve_http-ServeRun_example = serve_http-ServeRun plain_net to_sink bare []

post_message-PostRun_example :
    PostRun plain_net to_sink "tick" "42" [] (post_message plain_net to_sink "tick" "42" [])
post_message-PostRun_example = post_message-PostRun plain_net to_sink "tick" "42" []

serve_http-statuses_example :
    (statuses (serve_http plain_net to_sink tick []).1 ≡ 200 ∷ [])
    × (((serve_http plain_net to_sink tick []).0 ≡ ok tt)
        ⊎ (values_of tick.header request_id_header ≡ some []))
serve_http-statuses_example = serve_http-statuses plain_net to_sink tick []

pub named_42 : values_of tick.header "X-Request-Id" ≡ some ("42" ∷ [])
unfolding values_of string_eq String-discrete
named_42 = refl

-- What follows a prefix.
after_prefix : String → String → Option String
after_prefix String.[] s = some s
after_prefix (String.◌∷◌ c p) String.[] = none
after_prefix (String.◌∷◌ c p) (String.◌∷◌ d s) =
    let rest = after_prefix p s in if code c == code d then rest else none

after_prefix-append : (p s : String) → after_prefix p (p <> s) ≡ some s
unfolding after_prefix
after_prefix-append String.[] s = rw (nil-append s) refl
after_prefix-append (String.◌∷◌ c p) s =
    rw (cons-append c p s) (ground (arith, after_prefix-append p s))

-- Every flag has the value that the one argument gives.
the_same : Option String → Option (String → String)
the_same none = none
the_same (some value) = some (λ name. value)

-- A parser of one flag and one argument.
pub parse_one : FlagParser
unfolding after_prefix the_same
parse_one ((name, default) ∷ []) (argument ∷ []) =
    the_same (after_prefix ("--" <> (name <> "=")) argument)
parse_one [] _ = none
parse_one ((name, default) ∷ []) [] = none
parse_one ((name, default) ∷ []) (a ∷ (b ∷ rest)) = none
parse_one (f ∷ (g ∷ rest)) _ = none

pub parse_one-ReadsFlag : (name : String) → ReadsFlag parse_one name
unfolding parse_one the_same
parse_one-ReadsFlag name default value = (
  (λ _. value),
  ap the_same (
      ap (after_prefix ("--" <> (name <> "="))) (sym spelled)
      ∙ after_prefix-append ("--" <> (name <> "=")) value),
  refl,
)
  where
    spelled : ("--" <> (name <> "=")) <> value ≡ "--" <> (name <> ("=" <> value))
    spelled =
        append_assoc "--" (name <> "=") value ∙ ap (λ x. "--" <> x) (append_assoc name "=" value)

main-make_service_example :
    ReceiveAdapter.main plain_web parse_one
      (λ name. "9090")
      (make_service sample (clock none nil_slice settled) "image").run_latest.container.args
    ≡ (if (clock none nil_slice settled).status.sink_uri == ""
        then failed "No sink given"
        else serving ":8080" (record { sink = "http://sink.example.com/"; client = none }))
main-make_service_example =
    main-make_service plain_web parse_one (λ name. "9090") sample (clock none nil_slice settled)
      "image" (parse_one-ReadsFlag "sink")
