-- ===== src/Adapter/Delivery.antt =====
-- What the receive adapter's handler writes and posts in all, of
-- pkg/receiveadapter/receiveadapter.go.
use csr.Base.{
  String, ℕ, suc, ◌≡◌, ◌∙◌, ◌+◌, ◌↔◌, ◌⊎◌, inl, inr, refl, some, [], ◌∷◌, ok, err, List, arith,
}
use mathlib.Core.Path.{ap₂}
use csr.Adapter.{
  Web, Network, Request, Trace, CloudSchedulerReceiveAdapter, wrote_header, read_body, drew_uuid,
  read_clock, posted, read_answer, closed_answer, values_of, request_id_header, context_at,
  post_message, serve_http,
}
use csr.Adapter.Laws.{
  Posted, Served, PostRun, unbuilt, unsent, accepted, refused, ServeRun, unread, panicked,
  identified, drawn, body_read, post_message-PostRun, serve_http-ServeRun,
}

-- The status codes written to the sender.
abbrev pub statuses : {W : Web} → Trace W → List ℕ
statuses [] = []
statuses (wrote_header status ∷ t) = status ∷ statuses t
statuses (read_body _ ∷ t) = statuses t
statuses (drew_uuid _ ∷ t) = statuses t
statuses (read_clock _ ∷ t) = statuses t
statuses (posted _ _ _ ∷ t) = statuses t
statuses (read_answer _ ∷ t) = statuses t
statuses (closed_answer ∷ t) = statuses t

-- The requests handed to the HTTP client.
abbrev pub sent : {W : Web} → Trace W → List W.OutgoingRequest
sent [] = []
sent (wrote_header _ ∷ t) = sent t
sent (read_body _ ∷ t) = sent t
sent (drew_uuid _ ∷ t) = sent t
sent (read_clock _ ∷ t) = sent t
sent (posted _ q _ ∷ t) = q ∷ sent t
sent (read_answer _ ∷ t) = sent t
sent (closed_answer ∷ t) = sent t

-- The posts that some response came back for, and the responses closed.
abbrev pub answers : {W : Web} → Trace W → ℕ
answers [] = 0
answers (wrote_header _ ∷ t) = answers t
answers (read_body _ ∷ t) = answers t
answers (drew_uuid _ ∷ t) = answers t
answers (read_clock _ ∷ t) = answers t
answers (posted _ _ (ok _) ∷ t) = suc (answers t)
answers (posted _ _ (err _) ∷ t) = answers t
answers (read_answer _ ∷ t) = answers t
answers (closed_answer ∷ t) = answers t

abbrev pub closures : {W : Web} → Trace W → ℕ
closures [] = 0
closures (wrote_header _ ∷ t) = closures t
closures (read_body _ ∷ t) = closures t
closures (drew_uuid _ ∷ t) = closures t
closures (read_clock _ ∷ t) = closures t
closures (posted _ _ _ ∷ t) = closures t
closures (read_answer _ ∷ t) = closures t
closures (closed_answer ∷ t) = suc (closures t)

module _ {W : Web} (net : Network W) (ra : CloudSchedulerReceiveAdapter W) where
  PostRun-statuses :
      (payload event_id : String) (t : Trace W) (out : Posted W)
      → PostRun net ra payload event_id t out
      → statuses out.1 ≡ statuses t
  PostRun-statuses payload event_id t out (unbuilt _ _ r) = rw r refl
  PostRun-statuses payload event_id t out (unsent _ _ _ _ r) = rw r refl
  PostRun-statuses payload event_id t out (accepted _ _ _ _ _ r) = rw r refl
  PostRun-statuses payload event_id t out (refused _ _ _ _ _ _ r) = rw r refl

  ServeRun-statuses :
      (r : Request W) (t : Trace W) (out : Served W)
      → ServeRun net ra r t out
      → statuses out.1 ≡ W.status_ok ∷ statuses t
  ServeRun-statuses r t out (unread _ _ e) = rw e refl
  ServeRun-statuses r t out (panicked _ _ _ e) = rw e refl
  ServeRun-statuses r t out (identified bytes first _ post _ _ run e) =
      rw e (PostRun-statuses bytes first (body_read net r t) post run)
  ServeRun-statuses r t out (drawn bytes _ post _ _ _ run e) =
      rw e (PostRun-statuses bytes _ _ post run)

  ServeRun-returns :
      (r : Request W) (t : Trace W) (out : Served W)
      → ServeRun net ra r t out
      → (out.0 ≡ ok tt) ⊎ (values_of r.header request_id_header ≡ some [])
  ServeRun-returns r t out (unread _ _ e) = inl (rw e refl)
  ServeRun-returns r t out (panicked _ _ bare e) = inr bare
  ServeRun-returns r t out (identified _ _ _ _ _ _ _ e) = inl (rw e refl)
  ServeRun-returns r t out (drawn _ _ _ _ _ _ _ e) = inl (rw e refl)

  -- Whatever fails, the handler writes the status 200 exactly once and no other status; and it returns
  -- normally, so that this status is what the sender gets, also where the body cannot be read or the
  -- event is lost, unless the header of the identifier is there without a value.
  pub serve_http-statuses :
      (r : Request W) (t : Trace W)
      → (statuses (serve_http net ra r t).1 ≡ W.status_ok ∷ statuses t)
        × (((serve_http net ra r t).0 ≡ ok tt) ⊎ (values_of r.header request_id_header ≡ some []))
  serve_http-statuses r t = (
    ServeRun-statuses r t _ (serve_http-ServeRun net ra r t),
    ServeRun-returns r t _ (serve_http-ServeRun net ra r t),
  )

  PostRun-sent :
      (payload event_id : String) (t : Trace W) (out : Posted W) (q : W.OutgoingRequest)
      → W.new_request ra.sink payload (context_at net event_id (net.now t)) ≡ ok q
      → PostRun net ra payload event_id t out
      → sent out.1 ≡ q ∷ sent t
  PostRun-sent payload event_id t out q built (unbuilt _ p r) = cc
  PostRun-sent payload event_id t out q built (unsent _ _ p _ r) = rw r (cc)
  PostRun-sent payload event_id t out q built (accepted _ _ p _ _ r) = rw r (cc)
  PostRun-sent payload event_id t out q built (refused _ _ _ p _ _ r) = rw r (cc)

  -- Where the body reads as `bytes` and the header names an identifier, the one request posted is
  -- the event of that payload and identifier to the sink, provided that it can be built.
  pub serve_http-sent :
      (r : Request W) (t : Trace W) (bytes first : String) (rest : List String)
      (q : W.OutgoingRequest)
      → net.read_all (wrote_header W.status_ok ∷ t) r.body ≡ ok bytes
      → values_of r.header request_id_header ≡ some (first ∷ rest)
      → W.new_request ra.sink bytes (context_at net first (net.now (body_read net r t))) ≡ ok q
      → sent (serve_http net ra r t).1 ≡ q ∷ sent t
  serve_http-sent r t bytes first rest q read named built =
      ServeRun-sent _ (serve_http-ServeRun net ra r t)
    where
      ServeRun-sent : (out : Served W) → ServeRun net ra r t out → sent out.1 ≡ q ∷ sent t
      ServeRun-sent out (unread _ failed _) = cc
      ServeRun-sent out (panicked _ _ bare _) = cc
      ServeRun-sent out (identified bytes' first' _ post read' named' run e) = rw e (
          PostRun-sent bytes' first' _ post q
            (ap₂ (λ x y. W.new_request ra.sink x (context_at net y (net.now (body_read net r t))))
                same_bytes same_first
              ∙ built)
            run)
        where
          same_bytes : bytes' ≡ bytes
          same_bytes = cc

          same_first : first' ≡ first
          same_first = cc
      ServeRun-sent out (drawn _ _ _ _ absent _ _ _) = cc

  PostRun-answers :
      (payload event_id : String) (t : Trace W) (out : Posted W)
      → PostRun net ra payload event_id t out
      → ((out.0 ≡ ok tt) ↔ (answers out.1 ≡ suc (answers t)))
        × (closures out.1 + answers t ≡ closures t + answers out.1)
  PostRun-answers payload event_id t out (unbuilt _ _ r) =
      rw r (((λ p. cc), (λ p. ground arith)), refl)
  PostRun-answers payload event_id t out (unsent _ _ _ _ r) =
      rw r (((λ p. cc), (λ p. ground arith)), refl)
  PostRun-answers payload event_id t out (accepted _ _ _ _ _ r) =
      rw r (((λ p. refl), (λ p. refl)), omega arith)
  PostRun-answers payload event_id t out (refused _ _ _ _ _ _ r) =
      rw r (((λ p. refl), (λ p. refl)), omega arith)

  -- `postMessage` succeeds exactly where the sink has answered, whatever the status of the answer,
  -- and it closes the body of every answer.
  pub post_message-answers :
      (payload event_id : String) (t : Trace W)
      → (((post_message net ra payload event_id t).0 ≡ ok tt)
          ↔ (answers (post_message net ra payload event_id t).1 ≡ suc (answers t)))
        × (closures (post_message net ra payload event_id t).1 + answers t
            ≡ closures t + answers (post_message net ra payload event_id t).1)
  post_message-answers payload event_id t =
      PostRun-answers payload event_id t _ (post_message-PostRun net ra payload event_id t)
