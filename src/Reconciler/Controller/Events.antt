-- ===== src/Reconciler/Controller/Events.antt =====
-- From a change in the cluster to a `Reconcile`: the handlers that `NewController` of
-- pkg/reconciler/cloudschedulersource/cloudschedulersource.go adds, the keys that they put on the
-- queue, and the source that `Reconcile` then processes.
use csr.Base.{
  String, ◌≡◌, ◌≢◌, refl, ◌∙◌, true, none, some, Option, List, [], ◌∷◌, ok, if◌then◌else◌,
}
use mathlib.Core.Path.{ap₂}
use csr.Api.{CloudSchedulerSource, get_group_version_kind}
use csr.Api.Meta.{OwnerReference}
use csr.Api.Serving.{Service}
use csr.Informers.{Machinery}
use csr.Informers.Sources.{Caching}
use csr.Lister.{cache_key}
use csr.Lister.Laws.{cached}
use csr.Platform.{Vendor, Env, History}
use csr.Reconciler.Services.{make_service}
use csr.Reconciler.Loop.{reconcile}
use csr.Reconciler.Loop.Key.{FoundRun, looked, reconcile-FoundRun}
use csr.Reconciler.Controller.{Tooling, Handlers, source_handlers, service_handlers}

-- What happens to an object: it is there, it changes, it goes.
pub data Change (O : Type 0) : Type 0 where
  added : O → Change O
  updated : O → O → Change O
  deleted : O → Change O

abbrev pub calls : {A : Type 0} → Option A → (A → List String) → List String
calls none f = []
calls (some g) f = f g

module _ {O : Type 0} where
  -- The keys that a change puts on the queue.
  abbrev pub notify : Handlers O → Change O → List String
  notify handlers (added o) = calls handlers.add_func λ f. f o
  notify handlers (updated old new) = calls handlers.update_func λ f. f old new
  notify handlers (deleted o) = calls handlers.delete_func λ f. f o

  -- The object as the change leaves it, or as it was last seen.
  abbrev pub latest : Change O → O
  latest (added o) = o
  latest (updated old new) = new
  latest (deleted o) = o

-- The controller among the owners, as `metav1.GetControllerOf` finds it.
abbrev pub controller_of : List OwnerReference → Option OwnerReference
controller_of [] = none
controller_of (owner ∷ owners) = if owner.controller then some owner else controller_of owners

abbrev pub key_of_owner : String → Option OwnerReference → List String
key_of_owner namespace none = []
key_of_owner namespace (some owner) = cache_key namespace owner.name ∷ []

-- The keys of namespaced objects, and the owner that `kmeta.NewControllerRef` writes.
pub record IsQueueing {M : Machinery} {C : Caching M} (T : Tooling M C) (V : Vendor) : Type 1 where
  pub enqueue_lem :
      (source : CloudSchedulerSource)
      → source.object_meta.namespace ≢ ""
      → T.enqueue source ≡ cache_key source.object_meta.namespace source.object_meta.name ∷ []
  pub enqueue_controller_of_lem :
      (service : Service)
      → T.enqueue_controller_of service
        ≡ key_of_owner service.object_meta.namespace
            (controller_of service.object_meta.owner_references)
  pub pass_new_lem : {O : Type 0} (f : O → List String) (old new : O) → T.pass_new f old new ≡ f new
  pub owner_lem :
      (source : CloudSchedulerSource)
      → ((V.new_controller_ref source.object_meta (get_group_version_kind source)).name
          ≡ source.object_meta.name)
        × ((V.new_controller_ref source.object_meta (get_group_version_kind source)).controller
            ≡ true)

module _ {M : Machinery} {C : Caching M} (T : Tooling M C) {V : Vendor} (Q : IsQueueing T V) where
  notify-service :
      (change : Change Service)
      → notify (service_handlers T) change ≡ T.enqueue_controller_of (latest change)
  notify-service (added service) = refl
  notify-service (updated old new) = Q.pass_new_lem T.enqueue_controller_of old new
  notify-service (deleted service) = refl

  -- A service that is stored for the source: whatever the server and other controllers have written
  -- into it, it has the namespace and the owners of the service that `MakeService` makes for some
  -- state of the source.
  pub record IsAdapterOf (service : Service) (source : CloudSchedulerSource) : Type 0 where
    pub then_state : CloudSchedulerSource
    pub same_namespace : then_state.object_meta.namespace ≡ source.object_meta.namespace
    pub same_name : then_state.object_meta.name ≡ source.object_meta.name
    pub image : String
    pub in_namespace :
        service.object_meta.namespace ≡ (make_service V then_state image).object_meta.namespace
    pub owned :
        service.object_meta.owner_references
        ≡ (make_service V then_state image).object_meta.owner_references

  made-key :
      (source : CloudSchedulerSource) (image : String)
      → key_of_owner
          (make_service V source image).object_meta.namespace
          (controller_of (make_service V source image).object_meta.owner_references)
        ≡ cache_key source.object_meta.namespace source.object_meta.name ∷ []
  unfolding make_service
  made-key source image = rw ((Q.owner_lem source).1, (Q.owner_lem source).0) refl

  -- Such a service names the source as its controller.
  owned-key :
      (source : CloudSchedulerSource) (service : Service)
      → IsAdapterOf service source
      → T.enqueue_controller_of service
        ≡ cache_key source.object_meta.namespace source.object_meta.name ∷ []
  owned-key source service is =
      Q.enqueue_controller_of_lem service
      ∙ ap₂ (λ ns owners. key_of_owner ns (controller_of owners)) is.in_namespace is.owned
      ∙ made-key is.then_state is.image
      ∙ ap₂ (λ ns name. cache_key ns name ∷ []) is.same_namespace is.same_name

  -- When a service in the source's namespace that has the owners of the one made for the source is
  -- added, changed in any of its other fields, or deleted, one key is put on the queue, and
  -- `Reconcile` of that key processes the source, if the cache holds it.
  pub notify-service-FoundRun :
      (env : Env V) (image : String) (source : CloudSchedulerSource) (change : Change Service)
      (h : History V)
      → IsAdapterOf (latest change) source
      → V.split_meta_namespace_key (cache_key source.object_meta.namespace source.object_meta.name)
        ≡ ok (source.object_meta.namespace, source.object_meta.name)
      → cached V source.object_meta.name
          (env.get_by_key h (cache_key source.object_meta.namespace source.object_meta.name))
        ≡ ok source
      → (key : String) × (notify (service_handlers T) change ≡ key ∷ [])
        × FoundRun env image source
            (looked env source.object_meta.namespace source.object_meta.name h)
            (reconcile env image key h)
  notify-service-FoundRun env image source change h made split held = (
    cache_key source.object_meta.namespace source.object_meta.name,
    notify-service change ∙ owned-key source (latest change) made,
    reconcile-FoundRun env image (cache_key source.object_meta.namespace source.object_meta.name)
        source.object_meta.namespace source.object_meta.name source h split held,
  )

  -- The keys that follow from a change of a source.
  abbrev pub expected : Change CloudSchedulerSource → List String
  expected (added source) = cache_key source.object_meta.namespace source.object_meta.name ∷ []
  expected (updated old new) = cache_key new.object_meta.namespace new.object_meta.name ∷ []
  expected (deleted source) = []

  -- A source that is created or changed puts its own key on the queue, as it is after the change,
  -- and one that is gone puts none.
  pub notify-source :
      (change : Change CloudSchedulerSource)
      → (latest change).object_meta.namespace ≢ ""
      → notify (source_handlers T) change ≡ expected change
  notify-source (added source) named = Q.enqueue_lem source named
  notify-source (updated old new) named = Q.pass_new_lem T.enqueue old new ∙ Q.enqueue_lem new named
  notify-source (deleted source) named = refl
