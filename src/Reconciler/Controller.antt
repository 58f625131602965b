-- ===== src/Reconciler/Controller.antt =====
-- `NewController` of pkg/reconciler/cloudschedulersource/cloudschedulersource.go: the `Reconciler`
-- that it fills and the event handlers that it adds to the informers. `Tooling` is what it uses of
-- knative's controller package and of the clients; the informer factory is that of Informers.
pub mod Events
pub mod Wiring
use csr.Base.{
  String, ◌<>◌, Option, none, some, List, [], ◌∷◌, Result, ok, err, Exec, pure, fail, ◌>>=◌, ◌>>◌,
}
use csr.Api.{CloudSchedulerSource}
use csr.Api.Serving.{Service}
use csr.Client.Schemes
use csr.Client.Schemes.{Registry}
use csr.Informers.{Machinery}
use csr.Informers.Sources
use csr.Informers.Sources.{Caching, Access, Held, informer}
use csr.Reconciler.Finalizers.{controller_agent_name}

pub record Tooling (M : Machinery) (C : Caching M) : Type 1 where
  pub KubeClient : Type 0
  pub DynamicClient : Type 0
  pub ServingClient : Type 0
  pub ServingInformer : Type 0
  pub Logger : Type 0
  pub Stats : Type 0
  -- `logger.Named(name).With(...)`
  pub enriched : Logger → String → Logger
  -- `controller.NewStatsReporter`, with the text of its error
  pub new_stats_reporter : String → Result String Stats
  -- `Enqueue` and `EnqueueControllerOf` of an implementation: the keys put on its queue
  pub enqueue : CloudSchedulerSource → List String
  pub enqueue_controller_of : Service → List String
  -- `controller.PassNew`
  pub pass_new : {O : Type 0} → (O → List String) → O → O → List String

-- `cache.ResourceEventHandlerFuncs`: a nil function does nothing.
pub record Handlers (O : Type 0) : Type 0 where
  pub add_func : Option (O → List String)
  pub update_func : Option (O → O → List String)
  pub delete_func : Option (O → List String)

module _ {M : Machinery} {C : Caching M} (T : Tooling M C) where
  pub record Reconciler : Type 0 where
    pub kubeclientset : T.KubeClient
    pub cloudschedulersourceclientset : M.Client
    pub cloudschedulersources_lister : C.Lister
    pub dynamic_client : T.DynamicClient
    pub serving_client : T.ServingClient
    pub serving_informer : Option T.ServingInformer
    pub ra_image : String
    pub logger : T.Logger

  -- `controller.NewImpl`
  pub record Impl : Type 0 where
    pub reconciler : Reconciler
    pub logger : T.Logger
    pub work_queue_name : String
    pub stats : T.Stats

  -- The calls of `AddEventHandler`.
  pub data Registration : Type 0 where
    on_sources : M.Informer → Handlers CloudSchedulerSource → Registration
    on_services : T.ServingInformer → Handlers Service → Registration

  -- The factory with its heap, and the handlers added so far, the last ones first.
  abbrev pub Setup : Type 0
  Setup = Held C × List Registration

  abbrev pub Setting : Type 0 → Type 0
  Setting A = Exec String Setup A

  abbrev pub source_handlers : Handlers CloudSchedulerSource
  source_handlers = record {
    add_func = some T.enqueue;
    update_func = some (T.pass_new T.enqueue);
    delete_func = none;
  }

  abbrev pub service_handlers : Handlers Service
  service_handlers = record {
    add_func = some T.enqueue_controller_of;
    update_func = some (T.pass_new T.enqueue_controller_of);
    delete_func = some T.enqueue_controller_of;
  }

  abbrev asking : {A : Type 0} → (Held C → A × Held C) → Setting A
  asking f (held, registered) = let (a, held') = f held in (ok a, (held', registered))

  abbrev add_event_handler : Registration → Setting (Unit {0})
  add_event_handler r (held, registered) = (ok tt, (held, r ∷ registered))

  abbrev or_fatal : Result String T.Stats → Setting T.Stats
  or_fatal (ok stats) = pure stats
  or_fatal (err e) = fail ("Couldn't create stats exporter: " <> e)

  unfoldable pub new_controller :
      T.Logger
      → T.KubeClient
      → T.DynamicClient
      → M.Client
      → Access M
      → T.ServingClient
      → T.ServingInformer
      → String
      → Setting Impl
  new_controller logger kube dynamic client sources serving services image = do
    lister ← asking (Sources.lister C sources)
    stats ← or_fatal (T.new_stats_reporter controller_agent_name)
    i ← asking (informer C sources)
    add_event_handler (on_sources i source_handlers)
    add_event_handler (on_services services service_handlers)
    pure (record {
      reconciler = record {
        kubeclientset = kube;
        cloudschedulersourceclientset = client;
        cloudschedulersources_lister = lister;
        dynamic_client = dynamic;
        serving_client = serving;
        serving_informer = none;
        ra_image = image;
        logger = T.enriched logger controller_agent_name;
      };
      logger = T.enriched logger controller_agent_name;
      work_queue_name = "CloudSchedulerSources";
      stats = stats;
    })

-- `init`, on the scheme of client-go, so that events about sources can be logged
abbrev pub init : (S : Registry) → Schemes.Registering S (Unit {0})
init S = Schemes.add_to_scheme S
