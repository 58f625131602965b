-- ===== src/Commands/Controller/Goroutines/Sound.antt =====
-- The invariant of the goroutines of cmd/controller/main.go, and the turns of the factories and caches.
use csr.Base.{◌≡◌, ◌≢◌, refl, ap, Bool, ◌&&◌, true, false, Option, none, some, List, ◌⊎◌, inl, inr}
use csr.Informers.{Machinery, SharedInformerFactory, lookup, start, is_started}
use csr.Informers.Running.{start-runs}
use csr.Informers.Sources.{Caching}
use csr.Commands.Controller
use csr.Commands.Controller.{FactoryKind, kube_informers, source_informers, serving_informers}
use csr.Commands.Controller.Goroutines.{
  Awaited, sources_cache, services_cache, Phase, collecting, waiting, launching, blocked, Worker,
  absent, at_work, Ending, returned, exited, Process, lost_message, failed_message,
}
use csr.Commands.Controller.Goroutines.Turns.{source_kind, when, started_by, filled_in, is_run}

-- What the caches and the worker have to be where the main goroutine stands
abbrev pub Stands : Phase → Worker → Bool → Bool → Type 0
Stands collecting worker sources services = worker ≡ absent
Stands (waiting sources_cache) worker sources services = worker ≡ absent
Stands (waiting services_cache) worker sources services = (worker ≡ absent) × (sources ≡ true)
Stands launching worker sources services =
    (worker ≡ absent) × ((sources ≡ true) × (services ≡ true))
Stands blocked worker sources services = (worker ≢ absent) × ((sources ≡ true) × (services ≡ true))

-- A main goroutine that returns was blocked and had the signal; a fatal end is that of a wait for a
-- cache after the signal, with no controller yet, or that of a controller that fails at its work.
abbrev pub Ends : Controller.Setup → Option Ending → Phase → Worker → Bool → Type 0
Ends S none phase worker stop = Unit
Ends S (some returned) phase worker stop = (phase ≡ blocked) × (stop ≡ true)
Ends S (some (exited message)) phase worker stop =
    ((cache : Awaited) × (message ≡ lost_message S cache)
      × (phase ≡ waiting cache)
      × (worker ≡ absent)
      × (stop ≡ true))
    ⊎ ((e : S.Error) × (message ≡ failed_message S e) × (worker ≡ at_work))

Stands-of_sources :
    (phase : Phase) (worker : Worker) (sources services : Bool)
    → Stands phase worker sources services
    → Stands phase worker true services
Stands-of_sources collecting worker sources services stands = stands
Stands-of_sources (waiting sources_cache) worker sources services stands = stands
Stands-of_sources (waiting services_cache) worker sources services stands = (stands.0, refl)
Stands-of_sources launching worker sources services stands = (stands.0, (refl, stands.1.1))
Stands-of_sources blocked worker sources services stands = (stands.0, (refl, stands.1.1))

Stands-of_services :
    (phase : Phase) (worker : Worker) (sources services : Bool)
    → Stands phase worker sources services
    → Stands phase worker sources true
Stands-of_services collecting worker sources services stands = stands
Stands-of_services (waiting sources_cache) worker sources services stands = stands
Stands-of_services (waiting services_cache) worker sources services stands = stands
Stands-of_services launching worker sources services stands = (stands.0, (stands.1.0, refl))
Stands-of_services blocked worker sources services stands = (stands.0, (stands.1.0, refl))

-- A controller is there only beside a blocked main goroutine.
pub Stands-of_worker :
    (phase : Phase) (worker worker' : Worker) (sources services : Bool)
    → worker ≢ absent
    → worker' ≢ absent
    → Stands phase worker sources services
    → Stands phase worker' sources services
Stands-of_worker collecting worker worker' sources services there k stands = absurd (there stands)
Stands-of_worker (waiting sources_cache) worker worker' sources services there k stands =
    absurd (there stands)
Stands-of_worker (waiting services_cache) worker worker' sources services there k stands =
    absurd (there stands.0)
Stands-of_worker launching worker worker' sources services there k stands = absurd (there stands.0)
Stands-of_worker blocked worker worker' sources services there k stands = (k, stands.1)

pub Stands-absent :
    (cache : Awaited) (worker : Worker) (sources services : Bool)
    → Stands (waiting cache) worker sources services
    → worker ≡ absent
Stands-absent sources_cache worker sources services stands = stands
Stands-absent services_cache worker sources services stands = stands.0

pub Stands-synced :
    (phase : Phase) (worker : Worker) (sources services : Bool)
    → worker ≢ absent
    → Stands phase worker sources services
    → (sources ≡ true) × (services ≡ true)
Stands-synced collecting worker sources services there stands = absurd (there stands)
Stands-synced (waiting sources_cache) worker sources services there stands = absurd (there stands)
Stands-synced (waiting services_cache) worker sources services there stands =
    absurd (there stands.0)
Stands-synced launching worker sources services there stands = absurd (there stands.0)
Stands-synced blocked worker sources services there stands = stands.1

&&-right : (a b : Bool) → a && b ≡ true → b ≡ true
&&-right true b p = p
&&-right false b p = cc

module _ {M : Machinery} (C : Caching M) (S : Controller.Setup) (i : M.Informer) where
  abbrev pub SourcesPart :
      SharedInformerFactory M → List (M.Kind × M.Informer) → Bool → Bool → Type 0
  SourcesPart f run due synced =
      ((due ≡ true)
        × (is_started M f.started_informers (source_kind C) ≡ false)
        × (lookup ⦃e = M.kind_eq⦄ run (source_kind C) ≡ none)
        × (synced ≡ false))
      ⊎ ((due ≡ false) × (lookup ⦃e = M.kind_eq⦄ run (source_kind C) ≡ some i))

  abbrev pub ServicesPart : Bool → Bool → Bool → Type 0
  ServicesPart run due synced =
      ((due ≡ true) × (run ≡ false) × (synced ≡ false)) ⊎ ((due ≡ false) × (run ≡ true))

  pub record IsSound (p : Process C) : Type 0 where
    pub asked : lookup ⦃e = M.kind_eq⦄ p.held.0.informers (source_kind C) ≡ some i
    pub sources : SourcesPart p.held.0 p.run p.source_due p.source_synced
    pub services : ServicesPart p.serving_run p.serving_due p.serving_synced
    pub stands : Stands p.phase p.worker p.source_synced p.serving_synced
    pub ends : Ends S p.ended p.phase p.worker p.stop

  -- What holds of the process after a turn, if the turn can be taken
  abbrev pub After : Option (Process C) → Type 0
  After none = Unit
  After (some p) = IsSound p

  pub when-After : (able : Bool) (p : Process C) → (able ≡ true → IsSound p) → After (when C able p)
  when-After true p sound = sound refl
  when-After false p sound = tt

  module _ (p : Process C) (good : IsSound p) (live : p.ended ≡ none) where
    sources-after_start :
        p.source_due ≡ true
        → let (f, run) = start M (p.held.0, p.run) in SourcesPart f run false p.source_synced
    sources-after_start h = inr (refl, started good.sources h)
      where
        started :
            SourcesPart p.held.0 p.run p.source_due p.source_synced
            → p.source_due ≡ true
            → lookup ⦃e = M.kind_eq⦄ (start M (p.held.0, p.run)).1 (source_kind C) ≡ some i
        started (inl due) h = start-runs M p.held.0 p.run (source_kind C) i due.1 good.asked
        started (inr done) h = cc (h, done.0)

    pub started_by-After : (kind : FactoryKind) → After (started_by C kind p)
    unfolding start
    started_by-After kube_informers = when-After _ _ (λ due. record {
      asked = good.asked;
      sources = good.sources;
      services = good.services;
      stands = good.stands;
      ends = rw live tt;
    })
    started_by-After source_informers = when-After _ _ (λ due. record {
      asked = good.asked;
      sources = sources-after_start due;
      services = good.services;
      stands = good.stands;
      ends = rw live tt;
    })
    started_by-After serving_informers = when-After _ _ (λ due. record {
      asked = good.asked;
      sources = good.sources;
      services = inr (refl, refl);
      stands = good.stands;
      ends = rw live tt;
    })

    sources_synced :
        is_run C (lookup ⦃e = M.kind_eq⦄ p.run (source_kind C)) ≡ true
        → SourcesPart p.held.0 p.run p.source_due p.source_synced
        → SourcesPart p.held.0 p.run p.source_due true
    sources_synced running (inl due) = absurd (cc (running, ap (is_run C) due.2))
    sources_synced running (inr done) = inr done

    services_synced :
        p.serving_run ≡ true
        → ServicesPart p.serving_run p.serving_due p.serving_synced
        → ServicesPart p.serving_run p.serving_due true
    services_synced running (inl due) = cc (running, due.1)
    services_synced running (inr done) = inr done

    pub filled_in-After : (cache : Awaited) → After (filled_in C cache p)
    filled_in-After sources_cache = when-After _ _ (λ running. record {
      asked = good.asked;
      sources = sources_synced (&&-right _ _ running) good.sources;
      services = good.services;
      stands = Stands-of_sources p.phase _ _ _ good.stands;
      ends = rw live tt;
    })
    filled_in-After services_cache = when-After _ _ (λ running. record {
      asked = good.asked;
      sources = good.sources;
      services = services_synced (&&-right _ _ running) good.services;
      stands = Stands-of_services p.phase _ _ _ good.stands;
      ends = rw live tt;
    })
