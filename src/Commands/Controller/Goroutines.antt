-- ===== src/Commands/Controller/Goroutines.antt =====
-- The goroutines of cmd/controller/main.go from its first `go` statement on: the starts of the
-- informer factories, the caches that fill, the main goroutine and the controller's. `take` of Turns is
-- one turn of one of them; the scheduler, the caches and the signal pick the turns in any order.
pub mod Turns
pub mod Sound
pub mod Orderly
pub mod Wired
pub mod Progress
use csr.Base.{
  String, ◌<>◌, ℕ, ◌≡◌, Bool, true, false, Option, none, some, List, [], ◌∷◌, Result, ok, err,
  if◌then◌else◌,
}
use csr.Informers.{Machinery, lookup, start, new_shared_informer_factory}
use csr.Informers.Sources
use csr.Informers.Sources.{Caching, Held, resource_access}
use csr.Reconciler.Controller.{Tooling, Impl, Setup, new_controller}
use csr.Commands.Controller
use csr.Commands.Controller.{FactoryKind, kube_informers, source_informers, serving_informers}

-- The caches that the main goroutine waits for, in the order of its loop
pub data Awaited : Type 0 where
  sources_cache : Awaited
  services_cache : Awaited

abbrev pub index_of : Awaited → ℕ
index_of sources_cache = 0
index_of services_cache = 1

abbrev pub lost_message : Controller.Setup → Awaited → String
lost_message S cache =
    "failed to wait for cache at index " <> (S.index_text (index_of cache) <> " to sync")

abbrev pub failed_message : (S : Controller.Setup) → S.Error → String
failed_message S e = "Error running controller: " <> S.error_text e

-- Where the main goroutine stands: before it asks for the informers to wait for, in the wait for a
-- cache, at the loop over the controllers, or at `<-stopCh`.
pub data Phase : Type 0 where
  collecting : Phase
  waiting : Awaited → Phase
  launching : Phase
  blocked : Phase

-- The goroutine of the controller
pub data Worker : Type 0 where
  absent : Worker
  spawned : Worker
  at_work : Worker
  finished : Worker

pub data Ending : Type 0 where
  returned : Ending
  exited : String → Ending

-- `resync` of all three factories, in nanoseconds
abbrev pub resync : ℕ
resync = 30000000000

module _ {M : Machinery} (C : Caching M) where
  -- A factory is due until the goroutine of its `Start` has done it. `run` holds the informers that
  -- the source factory has run; `serving_run` says whether the vendored serving factory has run its.
  pub record Process : Type 0 where
    pub held : Held C
    pub run : List (M.Kind × M.Informer)
    pub serving_run : Bool
    pub kube_due : Bool
    pub source_due : Bool
    pub serving_due : Bool
    pub source_synced : Bool
    pub serving_synced : Bool
    pub phase : Phase
    pub worker : Worker
    pub stop : Bool
    pub ended : Option Ending

  -- The process at the first `go` statement; the other two are taken with it.
  abbrev pub begun : Held C → Process
  begun held = record {
    held = held;
    run = [];
    serving_run = false;
    kube_due = true;
    source_due = true;
    serving_due = true;
    source_synced = false;
    serving_synced = false;
    phase = collecting;
    worker = absent;
    stop = false;
    ended = none;
  }

-- The source factory, and the controller made of it
abbrev pub set_up :
    {M : Machinery} {C : Caching M} (T : Tooling M C)
    → T.Logger
    → T.KubeClient
    → T.DynamicClient
    → M.Client
    → T.ServingClient
    → T.ServingInformer
    → String
    → M.Heap
    → Result String (Impl T) × Setup T
set_up {M} {C} T logger kube dynamic client serving services image heap =
    let f = new_shared_informer_factory M client resync in
    new_controller T logger kube dynamic client (resource_access C f) serving services image
      ((f, heap), [])
