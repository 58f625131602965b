-- ===== src/Commands/Samples.antt =====
-- The sample programs that a sink may be: cmd/eventdumper/dumper.go, which logs an event, and
-- cmd/filter/filter.go, which answers with it. `Mux` is what they use of knative's cloudevents.
use csr.Base.{String, ℕ, ◌<>◌, ◌≡◌, refl, ap, Option, none, some, List, [], ◌∷◌, Result, ok, err}
use csr.Adapter.{Web, Network, EventContext, context_at}

pub record Mux : Type 1 where
  pub Context : Type 0
  pub from_context : Context → Option EventContext
  -- `%+v` of a pointer to a context, nil or not, and `%+v` and `%q` of a text
  pub pointer_text : Option EventContext → String
  pub context_text : EventContext → String
  pub quoted : String → String
  -- the error of `Handle`, for an event type
  pub handle : String → Option String
  -- what the mux does with an event, given the one function handled for a type
  pub serve : {A : Type 0} → String → (Context → String → A) → EventContext → String → Option A

-- The mux gives an event of the handled type to the function, with its context.
pub record IsDispatching (X : Mux) : Type 1 where
  pub context : EventContext → X.Context
  pub from_context_lem : (e : EventContext) → X.from_context (context e) ≡ some e
  pub serve_lem :
      {A : Type 0} (t : String) (f : X.Context → String → A) (e : EventContext) (payload : String)
      → e.event_type ≡ t
      → X.serve t f e payload ≡ some (f (context e) payload)

pub data Started : Type 0 where
  failed : String → Started
  serving : String → String → Started

-- The dereference of a nil pointer.
pub data NilPointer : Type 0 where
  nil_pointer : NilPointer

abbrev pub handled_type : String
handled_type = "GoogleCloudScheduler"

-- Both programs: the function is handled for one type of event, or the program stops.
abbrev pub started : Option String → Started
started none = serving ":8080" handled_type
started (some e) = failed ("Failed to create handler " <> e)

module _ (X : Mux) where
  abbrev pub main : Started
  main = started (X.handle handled_type)

  -- `myFunc` of the dumper: its log lines, the first one first, and its error, which is nil.
  abbrev context_line : Option EventContext → String
  context_line none = "No Cloud Event Context found"
  context_line (some ec) = "Received Cloud Event Context as: " <> X.context_text ec

  unfoldable pub dump : X.Context → String → List String × Option String
  dump ctx e = (context_line (X.from_context ctx) ∷ ("Received event data as: " <> e) ∷ [], none)

  -- `myFunc` of the filter: its log lines, and the event and the context, or the panic.
  abbrev echoed : String → Option EventContext → Result NilPointer (String × EventContext)
  echoed e none = err nil_pointer
  echoed e (some ec) = ok (e, ec)

  unfoldable pub filter :
      X.Context → String → List String × Result NilPointer (String × EventContext)
  filter ctx e = (
    ("Received Context: " <> X.pointer_text (X.from_context ctx))
        ∷ ("Received event as: " <> X.quoted e)
        ∷ [],
    echoed e (X.from_context ctx),
  )

  -- An event as the receive adapter builds it, for whatever payload and identifier, is given to the
  -- function of either program; the filter answers with the same payload and context, and the
  -- dumper without an error.
  pub adapter-samples :
      (D : IsDispatching X) {W : Web} (net : Network W) (payload event_id : String) (time : ℕ)
      → (X.serve handled_type filter (context_at net event_id time) payload
          ≡ some (filter (D.context (context_at net event_id time)) payload))
        × ((filter (D.context (context_at net event_id time)) payload).1
            ≡ ok (payload, context_at net event_id time))
        × (X.serve handled_type dump (context_at net event_id time) payload
            ≡ some (dump (D.context (context_at net event_id time)) payload))
        × ((dump (D.context (context_at net event_id time)) payload).1 ≡ none)
  unfolding filter dump
  adapter-samples D net payload event_id time =
      let e = context_at net event_id time in
      (
        D.serve_lem handled_type filter e payload refl,
        ap (echoed payload) (D.from_context_lem e),
        D.serve_lem handled_type dump e payload refl,
        refl,
      )

  -- The filter panics exactly on a context that carries no event.
  pub filter-panics :
      (ctx : X.Context) (e : String)
      → X.from_context ctx ≡ none
      → (filter ctx e).1 ≡ err nil_pointer
  unfolding filter
  filter-panics ctx e p = ap (echoed e) p
