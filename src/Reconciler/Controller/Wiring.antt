-- ===== src/Reconciler/Controller/Wiring.antt =====
-- How `NewController` of pkg/reconciler/cloudschedulersource/cloudschedulersource.go hangs together
-- with the informer factory of pkg/client/informers/externalversions/factory.go.
use csr.Base.{String, ◌<>◌, ◌≡◌, refl, false, none, some, List, ◌∷◌, ok, err}
use csr.Informers.{Machinery, lookup, start, is_started}
use csr.Informers.Shared.{informer_for-held, informer_for-shared, informer_for-started}
use csr.Informers.Running.{start-runs}
use csr.Informers.Sources.{Caching, Access, Held, informer, default_informer}
use csr.Reconciler.Finalizers.{controller_agent_name}
use csr.Reconciler.Controller.{
  Tooling, Impl, Registration, on_sources, on_services, source_handlers, service_handlers,
  new_controller,
}

module _ {M : Machinery} {C : Caching M} (T : Tooling M C) (logger : T.Logger) (kube : T.KubeClient)
    (dynamic : T.DynamicClient) (client : M.Client) (sources : Access M) (serving : T.ServingClient)
    (services : T.ServingInformer) (image : String) (s : Held C)
    (registered : List (Registration T)) where
  -- What `NewController` gives, with the statistics reporter.
  abbrev pub made_impl : T.Stats → Impl T
  made_impl stats = record {
    reconciler = record {
      kubeclientset = kube;
      cloudschedulersourceclientset = client;
      cloudschedulersources_lister = C.new_lister (informer C sources s).0;
      dynamic_client = dynamic;
      serving_client = serving;
      serving_informer = none;
      ra_image = image;
      logger = T.enriched logger controller_agent_name;
    };
    logger = T.enriched logger controller_agent_name;
    work_queue_name = "CloudSchedulerSources";
    stats = stats;
  }

  informer-again : informer C sources (informer C sources s).1 ≡ informer C sources s
  informer-again =
      informer_for-shared M C.empty_source C.empty_source (default_informer C sources)
        (default_informer C sources) s refl

  pub new_controller-fields :
      (stats : T.Stats)
      → T.new_stats_reporter controller_agent_name ≡ ok stats
      → new_controller T logger kube dynamic client sources serving services image (s, registered)
        ≡ (
          ok (made_impl stats),
          (
            (informer C sources s).1,
            on_services services (service_handlers T)
                ∷ on_sources (informer C sources s).0 (source_handlers T)
                ∷ registered,
          ),
        )
  unfolding new_controller
  new_controller-fields stats reporting = rw (reporting, informer-again) refl

  -- With a statistics reporter, and a factory that has not started the resource's informer, the lister
  -- of the reconciler reads from the one informer to which the handlers are added, and the next
  -- `Start` of the factory runs that very informer; the informer of the services is in no field.
  pub new_controller-made :
      (stats : T.Stats) (run : List (M.Kind × M.Informer))
      → T.new_stats_reporter controller_agent_name ≡ ok stats
      → is_started M s.0.started_informers (M.type_of C.empty_source) ≡ false
      → (new_controller T logger kube dynamic client sources serving services image (s, registered)
          ≡ (
            ok (made_impl stats),
            (
              (informer C sources s).1,
              on_services services (service_handlers T)
                  ∷ on_sources (informer C sources s).0 (source_handlers T)
                  ∷ registered,
            ),
          ))
        × (lookup ⦃e = M.kind_eq⦄
              (start M ((informer C sources s).1.0, run)).1
              (M.type_of C.empty_source)
            ≡ some (informer C sources s).0)
  new_controller-made stats run reporting fresh = (
    new_controller-fields stats reporting,
    start-runs M (informer C sources s).1.0 run (M.type_of C.empty_source) (informer C sources s).0
        (rw (informer_for-started M C.empty_source (default_informer C sources) s.0 s.1) fresh)
        (informer_for-held M C.empty_source (default_informer C sources) s.0 s.1),
  )

  -- Without one, the program ends, and no handler has been added.
  pub new_controller-of_unreported :
      (text : String)
      → T.new_stats_reporter controller_agent_name ≡ err text
      → new_controller T logger kube dynamic client sources serving services image (s, registered)
        ≡ (err ("Couldn't create stats exporter: " <> text), ((informer C sources s).1, registered))
  unfolding new_controller
  new_controller-of_unreported text failed = rw failed refl
