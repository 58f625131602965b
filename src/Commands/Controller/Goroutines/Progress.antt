-- ===== src/Commands/Controller/Goroutines/Progress.antt =====
-- What the goroutines of cmd/controller/main.go can still come to from where they stand.
use csr.Base.{
  Bool-cases, ◌⊎◌, false, ◌≡◌, ◌≢◌, refl, inl, inr, true, false, none, some, List, ok, String,
}
use csr.Informers.{Machinery, lookup, start}
use csr.Informers.Running.{start-runs}
use csr.Informers.Sources.{Caching, Held, informer, resource_access}
use csr.Reconciler.Controller.{Tooling, Impl, Registration}
use csr.Commands.Controller
use csr.Commands.Controller.{source_informers, serving_informers}
use csr.Commands.Controller.Goroutines.{
  Awaited, sources_cache, services_cache, Phase, collecting, waiting, launching, blocked, absent,
  spawned, Ending, returned, exited, lost_message, Process, set_up,
}
use csr.Commands.Controller.Goroutines.Turns.{
  Turn, starting, filled, collected, waited, launched, signalled, released, source_kind, take,
  Reached,
}
use csr.Commands.Controller.Goroutines.Sound.{SourcesPart, ServicesPart, IsSound}
use csr.Commands.Controller.Goroutines.Orderly.{source_informer-eq, spawned-absent, Stands-at}
use csr.Commands.Controller.Goroutines.Wired.{set_up-IsSound}

module _ {M : Machinery} (C : Caching M) (S : Controller.Setup) where
  -- Some turns lead from the one process to the other.
  pub data Leads : Process C → Process C → Type 0 where
    here : {p : Process C} → Leads p p
    by : {p q r : Process C} → (t : Turn S) → take C S t p ≡ some q → Leads q r → Leads p r

  -- Some turns lead to a controller that is there.
  abbrev pub Works : Process C → Type 0
  Works p = (q : Process C) × Leads p q × (q.worker ≢ absent)

  -- Some turns lead to the end of the process.
  abbrev pub Stops : Process C → Type 0
  Stops p = (q : Process C) × Leads p q × (q.ended ≢ none)

  then-Works : (t : Turn S) (p q : Process C) → take C S t p ≡ some q → Works q → Works p
  then-Works t p q taken (r, leads, there) = (r, by t taken leads, there)

  then-Stops : (t : Turn S) (p q : Process C) → take C S t p ≡ some q → Stops q → Stops p
  then-Stops t p q taken (r, leads, there) = (r, by t taken leads, there)

  module _ (p : Process C) (live : p.ended ≡ none) where
    launching-Works : p.phase ≡ launching → Works p
    launching-Works at =
        then-Works launched p (record p { phase = blocked; worker = spawned }) (rw (live, at) refl)
          (_, here, spawned-absent)

  services_fed-Works :
      (p : Process C)
      → p.ended ≡ none
      → p.stop ≡ false
      → p.phase ≡ waiting services_cache
      → p.serving_run ≡ true
      → Works p
  services_fed-Works p live going at run =
      let q : Process C = record p { serving_synced = true } in
      then-Works (filled services_cache) p q (rw (live, going, run) refl) (
        then-Works (waited true) q (record q { phase = launching }) (rw (live, at) refl)
          (launching-Works (record q { phase = launching }) live refl))

  module _ (i : M.Informer) where
    services-Works :
        (p : Process C)
        → p.ended ≡ none
        → p.stop ≡ false
        → p.phase ≡ waiting services_cache
        → ServicesPart C S i p.serving_run p.serving_due p.serving_synced
        → Works p
    services-Works p live going at (inr done) = services_fed-Works p live going at done.1
    services-Works p live going at (inl due) =
        let q : Process C = record p { serving_run = true; serving_due = false } in
        then-Works (starting serving_informers) p q (rw (live, due.0) refl)
          (services_fed-Works q live going at refl)

    sources_fed-Works :
        (p : Process C)
        → p.ended ≡ none
        → p.stop ≡ false
        → p.phase ≡ waiting sources_cache
        → lookup ⦃e = M.kind_eq⦄ p.run (source_kind C) ≡ some i
        → ServicesPart C S i p.serving_run p.serving_due p.serving_synced
        → Works p
    sources_fed-Works p live going at run services =
        let q : Process C = record p { source_synced = true } in
        then-Works (filled sources_cache) p q (rw (live, going, run) refl) (
          then-Works (waited true) q (record q { phase = waiting services_cache })
            (rw (live, at) refl)
            (services-Works (record q { phase = waiting services_cache }) live going refl services))

    sources-Works :
        (p : Process C)
        → p.ended ≡ none
        → p.stop ≡ false
        → p.phase ≡ waiting sources_cache
        → lookup ⦃e = M.kind_eq⦄ p.held.0.informers (source_kind C) ≡ some i
        → SourcesPart C S i p.held.0 p.run p.source_due p.source_synced
        → ServicesPart C S i p.serving_run p.serving_due p.serving_synced
        → Works p
    sources-Works p live going at asked (inr done) services =
        sources_fed-Works p live going at done.1 services
    sources-Works p live going at asked (inl due) services =
        let (f, run) = start M (p.held.0, p.run) in
        let q : Process C = record p { held = (f, p.held.1); run = run; source_due = false } in
        then-Works (starting source_informers) p q (rw (live, due.0) refl) (
          sources_fed-Works q live going at
            (start-runs M p.held.0 p.run (source_kind C) i due.1 asked) services)

    phase-Works :
        (p : Process C)
        → IsSound C S i p
        → p.ended ≡ none
        → p.stop ≡ false
        → (phase : Phase) → p.phase ≡ phase
        → Works p
    phase-Works p good live going collecting at =
        let q : Process C = record p { phase = waiting sources_cache } in
        then-Works collected p q (rw (live, at, source_informer-eq C S i p good live) refl)
          (sources-Works q live going refl good.asked good.sources good.services)
    phase-Works p good live going (waiting sources_cache) at =
        sources-Works p live going at good.asked good.sources good.services
    phase-Works p good live going (waiting services_cache) at =
        services-Works p live going at good.services
    phase-Works p good live going launching at = launching-Works p live at
    phase-Works p good live going blocked at = (p, here, (Stands-at C S i p good live blocked at).0)

  some-ended : (e : Ending) → some e ≢ none
  some-ended e = cc

  -- With the signal the main goroutine comes to its end, wherever it is.
  waiting-Stops :
      (p : Process C) (cache : Awaited)
      → p.ended ≡ none
      → p.stop ≡ true
      → p.phase ≡ waiting cache
      → Stops p
  waiting-Stops p cache live stop at =
      let e = exited (lost_message S cache) in
      then-Stops (waited false) p (record p { ended = some e }) (rw (live, at, stop) refl)
        (_, here, some-ended e)

  blocked-Stops : (p : Process C) → p.ended ≡ none → p.stop ≡ true → p.phase ≡ blocked → Stops p
  blocked-Stops p live stop at =
      then-Stops released p (record p { ended = some returned }) (rw (live, at, stop) refl)
        (_, here, some-ended returned)

  phase-Stops :
      (p : Process C) → p.ended ≡ none → p.stop ≡ true → (phase : Phase) → p.phase ≡ phase → Stops p
  phase-Stops p live stop collecting at =
      let held = (informer C (resource_access C p.held.0) p.held).1 in
      let q : Process C = record p { held = held; phase = waiting sources_cache } in
      then-Stops collected p q (rw (live, at) refl) (waiting-Stops q sources_cache live stop refl)
  phase-Stops p live stop (waiting cache) at = waiting-Stops p cache live stop at
  phase-Stops p live stop launching at =
      let q : Process C = record p { phase = blocked; worker = spawned } in
      then-Stops launched p q (rw (live, at) refl) (blocked-Stops q live stop refl)
  phase-Stops p live stop blocked at = blocked-Stops p live stop at

  signalled-Stops : (p : Process C) → p.ended ≡ none → Stops p
  signalled-Stops p live =
      let q : Process C = record p { stop = true } in
      then-Stops signalled p q (rw live refl) (phase-Stops q live refl q.phase refl)

-- Wherever the goroutines of the program stand before the process ends: some turns lead to the end of
-- the process, and, unless the signal has been given, some lead to the controller's goroutine.
pub Reached-goes_on :
    {M : Machinery} {C : Caching M} (T : Tooling M C) (logger : T.Logger) (kube : T.KubeClient)
    (dynamic : T.DynamicClient) (client : M.Client) (serving : T.ServingClient)
    (services : T.ServingInformer) (image : String) (heap : M.Heap) (impl : Impl T) (held : Held C)
    (registered : List (Registration T))
    → set_up T logger kube dynamic client serving services image heap
      ≡ (ok impl, (held, registered))
    → (S : Controller.Setup) (p : Process C) → Reached C S held p
    → p.ended ≡ none
    → Stops C S p × ((p.stop ≡ true) ⊎ Works C S p)
Reached-goes_on {M} {C} T logger kube dynamic client serving services image heap impl held
      registered made S p reached live =
    (
      signalled-Stops C S p live,
      elim (Bool-cases p.stop) [
        | inl stopped ↦ inl stopped
        | inr going ↦ inr (
            phase-Works C S _ p
              (set_up-IsSound T logger kube dynamic client serving services image heap impl held
                registered made S p reached)
              live going p.phase refl)
      ],
    )
