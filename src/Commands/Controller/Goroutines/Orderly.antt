-- ===== src/Commands/Controller/Goroutines/Orderly.antt =====
-- The turns of the main goroutine and of the controller, of cmd/controller/main.go, and what holds
-- after any turns.
use csr.Base.{
  ◌≡◌, ◌≢◌, refl, subst, Bool, true, false, Option, none, some, [], Result, ok, err, inl, inr,
}
use csr.Informers.{Machinery, lookup}
use csr.Informers.Shared.{informer_for-of_held}
use csr.Informers.Sources
use csr.Informers.Sources.{Caching, Held, resource_access, default_informer}
use csr.Commands.Controller
use csr.Commands.Controller.Goroutines.{
  sources_cache, services_cache, Phase, collecting, waiting, launching, blocked, Worker, absent,
  spawned, at_work, finished, Ending, Process, begun,
}
use csr.Commands.Controller.Goroutines.Turns.{
  Turn, starting, filled, collected, waited, launched, began, ran, signalled, released, source_kind,
  collected_in, waited_in, launched_in, began_in, ran_in, released_in, take_live, take_in, Reached,
  at_first, next,
}
use csr.Commands.Controller.Goroutines.Sound.{
  Stands, Ends, IsSound, After, Stands-of_worker, Stands-absent, Stands-synced, when-After,
  started_by-After, filled_in-After,
}

pub spawned-absent : spawned ≢ absent
spawned-absent = cc

at_work-absent : at_work ≢ absent
at_work-absent = cc

finished-absent : finished ≢ absent
finished-absent = cc

module _ {M : Machinery} (C : Caching M) (S : Controller.Setup) (i : M.Informer) (p : Process C)
    (good : IsSound C S i p) (live : p.ended ≡ none) where
  abbrev source_informer : M.Informer × Held C
  source_informer = Sources.informer C (resource_access C p.held.0) p.held

  -- The informer is there already, and asking for it again changes nothing.
  pub source_informer-eq : source_informer ≡ (i, p.held)
  source_informer-eq =
      informer_for-of_held M C.empty_source (default_informer C (resource_access C p.held.0)) p.held
        i good.asked

  -- A turn of the main goroutine, of the controller or of the signal leaves factories and caches.
  moved :
      (phase : Phase) (worker : Worker) (stop : Bool) (ended : Option Ending)
      → Stands phase worker p.source_synced p.serving_synced
      → Ends S ended phase worker stop
      → IsSound C S i (record p { phase = phase; worker = worker; stop = stop; ended = ended })
  moved phase worker stop ended stands ends = record {
    asked = good.asked;
    sources = good.sources;
    services = good.services;
    stands = stands;
    ends = ends;
  }

  pub Stands-at :
      (phase : Phase) → p.phase ≡ phase → Stands phase p.worker p.source_synced p.serving_synced
  Stands-at phase at =
      subst (λ x. Stands x p.worker p.source_synced p.serving_synced) at good.stands

  collected_in-After : (phase : Phase) → p.phase ≡ phase → After C S i (collected_in C phase p)
  collected_in-After collecting at =
      rw source_informer-eq (moved _ _ _ _ (Stands-at collecting at) (rw live tt))
  collected_in-After (waiting cache) at = tt
  collected_in-After launching at = tt
  collected_in-After blocked at = tt

  waited_in-After :
      (phase : Phase) (answer : Bool) → p.phase ≡ phase → After C S i (waited_in C S phase answer p)
  waited_in-After (waiting sources_cache) true at =
      when-After C S i _ _ (λ synced. moved _ _ _ _ (Stands-at _ at, synced) (rw live tt))
  waited_in-After (waiting services_cache) true at =
      let stands = Stands-at (waiting services_cache) at in
      when-After C S i _ _ (λ synced. moved _ _ _ _ (stands.0, (stands.1, synced)) (rw live tt))
  waited_in-After (waiting cache) false at = when-After C S i _ _ (λ stop.
      moved _ _ _ _ good.stands
        (inl (cache, refl, at, Stands-absent cache _ _ _ (Stands-at _ at), stop)))
  waited_in-After collecting answer at = tt
  waited_in-After launching answer at = tt
  waited_in-After blocked answer at = tt

  launched_in-After : (phase : Phase) → p.phase ≡ phase → After C S i (launched_in C phase p)
  launched_in-After launching at =
      moved _ _ _ _ (spawned-absent, (Stands-at launching at).1) (rw live tt)
  launched_in-After collecting at = tt
  launched_in-After (waiting cache) at = tt
  launched_in-After blocked at = tt

  -- Where the controller is there, it may go from one state to another.
  works_on :
      (worker worker' : Worker)
      → p.worker ≡ worker
      → worker ≢ absent
      → worker' ≢ absent
      → Stands p.phase worker' p.source_synced p.serving_synced
  works_on worker worker' at there there' =
      Stands-of_worker p.phase p.worker worker' _ _ (λ gone. there (cc (at, gone))) there'
        good.stands

  began_in-After : (worker : Worker) → p.worker ≡ worker → After C S i (began_in C worker p)
  began_in-After spawned at =
      moved _ _ _ _ (works_on spawned at_work at spawned-absent at_work-absent) (rw live tt)
  began_in-After absent at = tt
  began_in-After at_work at = tt
  began_in-After finished at = tt

  ran_in-After :
      (worker : Worker) (result : Result S.Error (Unit {0}))
      → p.worker ≡ worker
      → After C S i (ran_in C S worker result p)
  ran_in-After at_work (ok _) at = when-After C S i _ _ (λ stop.
      moved _ _ _ _ (works_on at_work finished at at_work-absent finished-absent) (rw live tt))
  ran_in-After at_work (err e) at = moved _ _ _ _ good.stands (inr (e, refl, at))
  ran_in-After absent result at = tt
  ran_in-After spawned result at = tt
  ran_in-After finished result at = tt

  released_in-After : (phase : Phase) → p.phase ≡ phase → After C S i (released_in C phase p)
  released_in-After blocked at = when-After C S i _ _ (λ stop. moved _ _ _ _ good.stands (at, stop))
  released_in-After collecting at = tt
  released_in-After (waiting cache) at = tt
  released_in-After launching at = tt

  take_live-After : (t : Turn S) → After C S i (take_live C S t p)
  take_live-After (starting kind) = started_by-After C S i p good live kind
  take_live-After (filled cache) = filled_in-After C S i p good live cache
  take_live-After collected = collected_in-After p.phase refl
  take_live-After (waited answer) = waited_in-After p.phase answer refl
  take_live-After launched = launched_in-After p.phase refl
  take_live-After began = began_in-After p.worker refl
  take_live-After (ran result) = ran_in-After p.worker result refl
  take_live-After signalled = moved _ _ _ _ good.stands (rw live tt)
  take_live-After released = released_in-After p.phase refl

module _ {M : Machinery} (C : Caching M) (S : Controller.Setup) (i : M.Informer) where
  taken-After :
      (p : Process C) (ended : Option Ending) (t : Turn S)
      → p.ended ≡ ended
      → IsSound C S i p
      → After C S i (take_in C S ended t p)
  taken-After p none t at good = take_live-After C S i p good at t
  taken-After p (some ending) t at good = tt

  begun-IsSound :
      (held : Held C)
      → held.0.started_informers ≡ []
      → lookup ⦃e = M.kind_eq⦄ held.0.informers (source_kind C) ≡ some i
      → IsSound C S i (begun C held)
  begun-IsSound held fresh asked = record {
    asked = asked;
    sources = inl (refl, rw fresh refl, refl, refl);
    services = inl (refl, refl, refl);
    stands = refl;
    ends = tt;
  }

  pub Reached-IsSound :
      (held : Held C) (p : Process C)
      → held.0.started_informers ≡ []
      → lookup ⦃e = M.kind_eq⦄ held.0.informers (source_kind C) ≡ some i
      → Reached C S held p
      → IsSound C S i p
  Reached-IsSound held _ fresh asked at_first = begun-IsSound held fresh asked
  Reached-IsSound held p' fresh asked (next {p} t reached taken) =
      subst (After C S i) taken
        (taken-After p p.ended t refl (Reached-IsSound held p fresh asked reached))

  pub running-of_IsSound :
      (p : Process C)
      → IsSound C S i p
      → p.worker ≢ absent
      → (lookup ⦃e = M.kind_eq⦄ p.run (source_kind C) ≡ some i)
        × (p.serving_run ≡ true)
        × (p.source_synced ≡ true)
        × (p.serving_synced ≡ true)
  running-of_IsSound p good there =
      let (sources, services) = Stands-synced p.phase _ _ _ there good.stands in
      (
        elim good.sources [ inl due ↦ cc (due.3, sources) | inr done ↦ done.1 ],
        elim good.services [ inl due ↦ cc (due.2, services) | inr done ↦ done.1 ],
        sources,
        services,
      )
