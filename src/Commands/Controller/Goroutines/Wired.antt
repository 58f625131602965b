-- ===== src/Commands/Controller/Goroutines/Wired.antt =====
-- The goroutines of cmd/controller/main.go over the controller that `NewController` makes: when the
-- controller works, and how the process ends.
use csr.Base.{String, ◌≡◌, ◌≢◌, ◌∙◌, ap, true, some, List, [], ok, inl, inr, Result-cases}
use csr.Informers.{Machinery, lookup, new_shared_informer_factory}
use csr.Informers.Shared.{informer_for-held, informer_for-started}
use csr.Informers.Running.{started-new_shared_informer_factory}
use csr.Informers.Sources
use csr.Informers.Sources.{Caching, Held, resource_access, default_informer}
use csr.Reconciler.Finalizers.{controller_agent_name}
use csr.Reconciler.Controller.{Tooling, Impl, Registration}
use csr.Reconciler.Controller.Wiring.{
  made_impl, new_controller-fields, new_controller-of_unreported,
}
use csr.Commands.Controller
use csr.Commands.Controller.Goroutines.{absent, Process, resync, set_up}
use csr.Commands.Controller.Goroutines.Turns.{source_kind, Reached}
use csr.Commands.Controller.Goroutines.Sound.{Ends, IsSound}
use csr.Commands.Controller.Goroutines.Orderly.{Reached-IsSound, running-of_IsSound}

module _ {M : Machinery} {C : Caching M} (T : Tooling M C) (S : Controller.Setup) where
  -- The controller's goroutine is there only once the informer that its lister reads from is run,
  -- and the vendored one of the services, and both caches are synced.
  pub record IsOrderly (impl : Impl T) (p : Process C) : Type 0 where
    pub informer : M.Informer
    pub listed : impl.reconciler.cloudschedulersources_lister ≡ C.new_lister informer
    pub running :
        p.worker ≢ absent
        → (lookup ⦃e = M.kind_eq⦄ p.run (source_kind C) ≡ some informer)
          × (p.serving_run ≡ true)
          × (p.source_synced ≡ true)
          × (p.serving_synced ≡ true)
    pub ends : Ends S p.ended p.phase p.worker p.stop

module _ {M : Machinery} {C : Caching M} (T : Tooling M C) (logger : T.Logger) (kube : T.KubeClient)
    (dynamic : T.DynamicClient) (client : M.Client) (serving : T.ServingClient)
    (services : T.ServingInformer) (image : String) (heap : M.Heap) (impl : Impl T) (held : Held C)
    (registered : List (Registration T))
    (made : set_up T logger kube dynamic client serving services image heap
      ≡ (ok impl, (held, registered))) where
  abbrev first : Held C
  first = (new_shared_informer_factory M client resync, heap)

  abbrev asked : M.Informer × Held C
  asked = Sources.informer C (resource_access C first.0) first

  -- What the controller and the factory have of each other
  pub Wired : Type 0
  Wired = (impl.reconciler.cloudschedulersources_lister ≡ C.new_lister asked.0) × (held ≡ asked.1)

  set_up-Wired : Wired
  unfolding Wired
  set_up-Wired = elim (Result-cases (T.new_stats_reporter controller_agent_name)) [
    | inl (stats, p) ↦
        let whole =
          new_controller-fields T logger kube dynamic client (resource_access C first.0) serving
            services image first [] stats p in
        let same : impl
            ≡ made_impl T logger kube dynamic client (resource_access C first.0) serving services
                image first [] stats =
          cc in
        (ap (λ m. m.reconciler.cloudschedulersources_lister) same, cc)
    | inr (e, p) ↦
        let none_made =
          new_controller-of_unreported T logger kube dynamic client (resource_access C first.0)
            serving services image first [] e p in
        cc
  ]

  held-fresh : held.0.started_informers ≡ []
  unfolding Wired
  held-fresh =
      ap (λ h. h.0.started_informers) set_up-Wired.1
      ∙ informer_for-started M C.empty_source (default_informer C (resource_access C first.0))
          first.0 heap
      ∙ started-new_shared_informer_factory M client resync

  held-asked : lookup ⦃e = M.kind_eq⦄ held.0.informers (source_kind C) ≡ some asked.0
  unfolding Wired
  held-asked =
      ap (λ h. lookup ⦃e = M.kind_eq⦄ h.0.informers (source_kind C)) set_up-Wired.1
      ∙ informer_for-held M C.empty_source (default_informer C (resource_access C first.0)) first.0
          heap

  pub set_up-IsSound :
      (S : Controller.Setup) (p : Process C) → Reached C S held p → IsSound C S asked.0 p
  set_up-IsSound S p reached = Reached-IsSound C S asked.0 held p held-fresh held-asked reached

  -- Whatever turns the goroutines, the caches and the signal take: the controller that has been made
  -- works only once the very informer that its lister reads from has been run by the factory and
  -- both caches are synced; and the process ends only by the signal or the controller's failure.
  pub Reached-IsOrderly :
      (S : Controller.Setup) (p : Process C) → Reached C S held p → IsOrderly T S impl p
  unfolding Wired
  Reached-IsOrderly S p reached =
      let good = set_up-IsSound S p reached in
      record {
        informer = asked.0;
        listed = set_up-Wired.0;
        running = running-of_IsSound C S asked.0 p good;
        ends = good.ends;
      }
