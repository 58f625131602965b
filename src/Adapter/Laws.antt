-- ===== src/Adapter/Laws.antt =====
-- The ways through `postMessage` and `ServeHTTP` of pkg/receiveadapter/receiveadapter.go.
use csr.Base.{
  String, ◌⊎◌, ◌≡◌, refl, true, false, none, some, [], ◌∷◌, Result, ok, err, inl, inr, List, Option,
  Result-cases, Bool-cases, ◌==◌, nat_eq,
}
use csr.Adapter.{
  Web, Network, Response, Request, Trace, CloudSchedulerReceiveAdapter, Panic, index_out_of_range,
  wrote_header, read_body, drew_uuid, read_clock, posted, read_answer, closed_answer, values_of,
  request_id_header, client_of, context_at, uuid_or_empty, id_of_header, extract_event_id,
  after_post, send, post_message, after_read, serve_http,
}

abbrev pub Posted : Web → Type 0
Posted W = Result W.Error (Unit {0}) × Trace W

abbrev pub Served : Web → Type 0
Served W = Result Panic (Unit {0}) × Trace W

-- The trace once `time.Now` is read.
abbrev pub timed : {W : Web} → Network W → Trace W → Trace W
timed net t = read_clock (net.now t) ∷ t

-- The runs `out` of `postMessage` for a payload and an identifier.
pub data PostRun {W : Web} (net : Network W) (ra : CloudSchedulerReceiveAdapter W)
    (payload event_id : String) (t : Trace W) (out : Posted W) : Type 0 where
  unbuilt :
      (e : W.Error)
      → W.new_request ra.sink payload (context_at net event_id (net.now t)) ≡ err e
      → out ≡ (err e, timed net t)
      → PostRun net ra payload event_id t out
  unsent :
      (q : W.OutgoingRequest) (e : W.Error)
      → W.new_request ra.sink payload (context_at net event_id (net.now t)) ≡ ok q
      → net.do_request (timed net t) (client_of net ra) q ≡ err e
      → out ≡ (err e, posted (client_of net ra) q (err e) ∷ timed net t)
      → PostRun net ra payload event_id t out
  accepted :
      (q : W.OutgoingRequest) (response : Response W)
      → W.new_request ra.sink payload (context_at net event_id (net.now t)) ≡ ok q
      → net.do_request (timed net t) (client_of net ra) q ≡ ok response
      → (response.status_code == W.status_ok) ≡ true
      → out ≡ (ok tt, closed_answer ∷ posted (client_of net ra) q (ok response) ∷ timed net t)
      → PostRun net ra payload event_id t out
  refused :
      (q : W.OutgoingRequest) (response : Response W) (body : Result W.Error String)
      → W.new_request ra.sink payload (context_at net event_id (net.now t)) ≡ ok q
      → net.do_request (timed net t) (client_of net ra) q ≡ ok response
      → (response.status_code == W.status_ok) ≡ false
      → out ≡ (
        ok tt,
        closed_answer ∷ read_answer body ∷ posted (client_of net ra) q (ok response) ∷ timed net t,
      )
      → PostRun net ra payload event_id t out

module _ {W : Web} (net : Network W) (ra : CloudSchedulerReceiveAdapter W) where
  module _ (payload event_id : String) (t : Trace W) where
    after_send :
        (q : W.OutgoingRequest)
        → W.new_request ra.sink payload (context_at net event_id (net.now t)) ≡ ok q
        → PostRun net ra payload event_id t (send net ra q (timed net t))
    unfolding send after_post
    after_send q built = elim (Result-cases (net.do_request (timed net t) (client_of net ra) q)) [
      | inr (e, failed) ↦ unsent q e built failed (rw failed)
      | inl (response, done) ↦ elim (Bool-cases (response.status_code == W.status_ok)) [
        | inl same ↦ accepted q response built done same (rw (done, same))
        | inr other ↦
            refused q response
              (net.read_all (posted (client_of net ra) q (ok response) ∷ timed net t) response.body)
              built done other (rw (done, other))
      ]
    ]

    -- Every run of `postMessage` is one of these: one clock reading, one event built of it, at most
    -- one post, and an answer of any status is read where it is not 200 and closed once.
    pub post_message-PostRun :
        PostRun net ra payload event_id t (post_message net ra payload event_id t)
    unfolding post_message
    post_message-PostRun =
        elim (Result-cases (W.new_request ra.sink payload (context_at net event_id (net.now t)))) [
          | inr (e, failed) ↦ unbuilt e failed (rw failed)
          | inl (q, built) ↦ rw built (after_send q built)
        ]

-- The trace once the header is written and the body read.
abbrev pub body_read : {W : Web} → Network W → Request W → Trace W → Trace W
body_read {W} net r t =
    read_body (net.read_all (wrote_header W.status_ok ∷ t) r.body) ∷ wrote_header W.status_ok ∷ t

-- The runs `out` of `ServeHTTP`.
pub data ServeRun {W : Web} (net : Network W) (ra : CloudSchedulerReceiveAdapter W) (r : Request W)
    (t : Trace W) (out : Served W) : Type 0 where
  unread :
      (e : W.Error)
      → net.read_all (wrote_header W.status_ok ∷ t) r.body ≡ err e
      → out ≡ (ok tt, body_read net r t)
      → ServeRun net ra r t out
  panicked :
      (bytes : String)
      → net.read_all (wrote_header W.status_ok ∷ t) r.body ≡ ok bytes
      → values_of r.header request_id_header ≡ some []
      → out ≡ (err index_out_of_range, body_read net r t)
      → ServeRun net ra r t out
  identified :
      (bytes first : String) (rest : List String) (post : Posted W)
      → net.read_all (wrote_header W.status_ok ∷ t) r.body ≡ ok bytes
      → values_of r.header request_id_header ≡ some (first ∷ rest)
      → PostRun net ra bytes first (body_read net r t) post
      → out ≡ (ok tt, post.1)
      → ServeRun net ra r t out
  drawn :
      (bytes : String) (uuid : Result W.Error String) (post : Posted W)
      → net.read_all (wrote_header W.status_ok ∷ t) r.body ≡ ok bytes
      → values_of r.header request_id_header ≡ none
      → net.new_random (body_read net r t) ≡ uuid
      → PostRun net ra bytes (uuid_or_empty uuid) (drew_uuid uuid ∷ body_read net r t) post
      → out ≡ (ok tt, post.1)
      → ServeRun net ra r t out

Header-cases :
    (x : Option (List String))
    → (x ≡ none)
      ⊎ (x ≡ some [])
      ⊎ ((first : String) × (rest : List String) × (x ≡ some (first ∷ rest)))
Header-cases none = inl refl
Header-cases (some []) = inr (inl refl)
Header-cases (some (first ∷ rest)) = inr (inr (first, rest, refl))

module _ {W : Web} (net : Network W) (ra : CloudSchedulerReceiveAdapter W) (r : Request W)
    (t : Trace W) where
  after_read-ServeRun :
      (bytes : Result W.Error String)
      → net.read_all (wrote_header W.status_ok ∷ t) r.body ≡ bytes
      → ServeRun net ra r t (after_read net ra r bytes (body_read net r t))
  unfolding after_read extract_event_id id_of_header
  after_read-ServeRun (err e) failed = unread e failed refl
  after_read-ServeRun (ok bytes) read = elim (Header-cases (values_of r.header request_id_header)) [
    | inl absent ↦
        drawn bytes _ _ read absent refl (post_message-PostRun net ra bytes _ _) (rw absent)
    | inr (inl bare) ↦ panicked bytes read bare (rw bare)
    | inr (inr (first, rest, present)) ↦
        identified bytes first rest _ read present (post_message-PostRun net ra bytes first _)
          (rw present)
  ]

  -- Every run of `ServeHTTP` is one of these, whatever the network answers: it panics only where
  -- the body can be read and the identifier's header is there without a value.
  pub serve_http-ServeRun : ServeRun net ra r t (serve_http net ra r t)
  unfolding serve_http
  serve_http-ServeRun = after_read-ServeRun _ refl
