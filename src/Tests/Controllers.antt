-- ===== src/Tests/Controllers.antt =====
-- The controller at work: its wiring, and the events that lead to a `Reconcile`.
use csr.Base.{String, ◌<>◌, ◌≡◌, refl, false, some, [], ◌∷◌, ok}
use csr.Informers.{start, lookup, is_started, new_shared_informer_factory_with_options}
use csr.Api.Serving.{Service}
use csr.Informers.Sources.{resource_access, informer}
use csr.Reconciler.Services.{make_service}
use csr.Reconciler.Loop.{reconcile}
use csr.Reconciler.Loop.Key.{FoundRun, looked}
use csr.Reconciler.Controller.{
  Tooling, on_sources, on_services, source_handlers, service_handlers, new_controller,
}
use csr.Reconciler.Controller.Wiring.{made_impl, new_controller-made}
use csr.Reconciler.Controller.Events.{
  updated, notify, IsAdapterOf, controller_of, key_of_owner, IsQueueing, notify-service-FoundRun,
}
use csr.Lister.{cache_key}
use csr.Tests.Vendor.{sample}
use csr.Tests.Cluster.{cluster_env}
use csr.Tests.Runs.{new_source, fresh, key_splits, fresh_is_cached}
use csr.Tests.Factories.{numbered, caching, new_factory}

abbrev pub tooling : Tooling numbered caching
tooling = record {
  KubeClient = String;
  DynamicClient = String;
  ServingClient = String;
  ServingInformer = String;
  Logger = String;
  Stats = String;
  enriched = λ logger name. logger <> name;
  new_stats_reporter = λ name. ok name;
  enqueue = λ source. cache_key source.object_meta.namespace source.object_meta.name ∷ [];
  enqueue_controller_of = λ service.
      key_of_owner service.object_meta.namespace
        (controller_of service.object_meta.owner_references);
  pass_new = λ f old new. f new;
}

tooling-IsQueueing : IsQueueing tooling sample
tooling-IsQueueing = record {
  enqueue_lem = λ source named. refl;
  enqueue_controller_of_lem = λ service. refl;
  pass_new_lem = λ f old new. refl;
  owner_lem = λ source. (refl, refl);
}

-- The service of the source as it is stored later, with its domain
abbrev reported : Service
reported =
    let made = make_service sample new_source "old image" in
    record made {
      object_meta = record made.object_meta { uid = "u2"; resource_version = "9" };
      domain = "clock.example.com";
    }

reported-IsAdapterOf : IsAdapterOf tooling tooling-IsQueueing reported new_source
unfolding make_service
reported-IsAdapterOf = record {
  then_state = new_source;
  same_namespace = refl;
  same_name = refl;
  image = "old image";
  in_namespace = refl;
  owned = refl;
}

notify-service-FoundRun_example :
    (key : String) × (notify
        (service_handlers tooling)
        (updated (make_service sample new_source "image") reported)
      ≡ key ∷ [])
    × FoundRun
        (cluster_env fresh)
        "image"
        new_source
        (looked (cluster_env fresh) "default" "clock" [])
        (reconcile (cluster_env fresh) "image" key [])
notify-service-FoundRun_example =
    notify-service-FoundRun tooling tooling-IsQueueing (cluster_env fresh) "image" new_source
      (updated (make_service sample new_source "image") reported) [] reported-IsAdapterOf key_splits
      fresh_is_cached

not_started : is_started numbered new_factory.started_informers "source" ≡ false
unfolding new_shared_informer_factory_with_options
not_started = refl

new_controller-made_example :
    (new_controller tooling "log" "kube" "dynamic" "client"
        (resource_access caching new_factory)
        "serving"
        "services"
        "image"
        ((new_factory, 5), [])
      ≡ (
        ok (
            made_impl tooling "log" "kube" "dynamic" "client"
              (resource_access caching new_factory)
              "serving"
              "services"
              "image"
              (new_factory, 5)
              []
              "cloudschedulersource-controller"),
        (
          (informer caching (resource_access caching new_factory) (new_factory, 5)).1,
          on_services "services" (service_handlers tooling)
              ∷ on_sources
                  (informer caching (resource_access caching new_factory) (new_factory, 5)).0
                  (source_handlers tooling)
              ∷ [],
        ),
      ))
    × (lookup ⦃e = numbered.kind_eq⦄
          (start numbered
            ((informer caching (resource_access caching new_factory) (new_factory, 5)).1.0, [])).1
          "source"
        ≡ some (informer caching (resource_access caching new_factory) (new_factory, 5)).0)
new_controller-made_example =
    new_controller-made tooling "log" "kube" "dynamic" "client"
      (resource_access caching new_factory) "serving" "services" "image" (new_factory, 5) []
      "cloudschedulersource-controller" [] refl not_started
