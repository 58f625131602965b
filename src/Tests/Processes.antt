-- ===== src/Tests/Processes.antt =====
-- The goroutines of the controller's program, in one order of their turns.
use csr.Base.{◌⊎◌, true, String, ◌≡◌, refl, Option, none, some, List, [], Result, ok, string_eq}
use csr.Informers.{
  SharedInformerFactory, start, informer_for, new_shared_informer_factory,
  new_shared_informer_factory_with_options,
}
use csr.Informers.Sources.{Held, resource_access}
use csr.Reconciler.Controller.{Impl, Registration, new_controller}
use csr.Reconciler.Controller.Wiring.{made_impl}
use csr.Commands.Controller.{source_informers, serving_informers}
use csr.Commands.Controller.Goroutines.{
  Process, begun, sources_cache, services_cache, set_up, resync, at_work,
}
use csr.Commands.Controller.Goroutines.Turns.{
  Turn, starting, filled, collected, waited, launched, began, take, Reached, at_first, next,
}
use csr.Commands.Controller.Goroutines.Wired.{IsOrderly, Reached-IsOrderly}
use csr.Commands.Controller.Goroutines.Progress.{Works, Stops, Reached-goes_on}
use csr.Tests.Factories.{numbered, caching, setup}
use csr.Tests.Controllers.{tooling}

abbrev or_same : Process caching → Option (Process caching) → Process caching
or_same p none = p
or_same p (some q) = q

abbrev turned : Turn setup → Process caching → Process caching
turned t p = or_same p (take caching setup t p)

abbrev outcome : Result String (Impl tooling) × (Held caching × List (Registration tooling))
outcome = set_up tooling "log" "kube" "dynamic" "client" "serving" "services" "image" 5

abbrev factory : SharedInformerFactory numbered
factory = new_shared_informer_factory numbered "client" resync

abbrev impl : Impl tooling
impl =
    made_impl tooling "log" "kube" "dynamic" "client" (resource_access caching factory) "serving"
      "services" "image" (factory, 5) [] "cloudschedulersource-controller"

abbrev first : Process caching
first = begun caching outcome.1.0

abbrev p1 : Process caching
p1 = turned collected first

abbrev p2 : Process caching
p2 = turned (starting source_informers) p1

abbrev p3 : Process caching
p3 = turned (filled sources_cache) p2

abbrev p4 : Process caching
p4 = turned (waited true) p3

abbrev p5 : Process caching
p5 = turned (starting serving_informers) p4

abbrev p6 : Process caching
p6 = turned (filled services_cache) p5

abbrev p7 : Process caching
p7 = turned (waited true) p6

abbrev p8 : Process caching
p8 = turned launched p7

abbrev p9 : Process caching
p9 = turned began p8

p4_Reached : Reached caching setup outcome.1.0 p4
unfolding new_controller start informer_for new_shared_informer_factory_with_options string_eq
p4_Reached =
    next (waited true)
      (next (filled sources_cache)
        (next (starting source_informers) (next collected at_first refl) refl) refl)
      refl

p9_Reached : Reached caching setup outcome.1.0 p9
unfolding new_controller start informer_for new_shared_informer_factory_with_options string_eq
p9_Reached =
    next began
      (next launched
        (next (waited true)
          (next (filled services_cache) (next (starting serving_informers) p4_Reached refl) refl)
          refl)
        refl)
      refl

p9_at_work : p9.worker ≡ at_work
unfolding new_controller start informer_for new_shared_informer_factory_with_options string_eq
p9_at_work = refl

p4_live : p4.ended ≡ none
unfolding new_controller start informer_for new_shared_informer_factory_with_options string_eq
p4_live = refl

made : outcome ≡ (ok impl, (outcome.1.0, outcome.1.1))
unfolding new_controller start informer_for new_shared_informer_factory_with_options string_eq
made = refl

Reached-IsOrderly_example : IsOrderly tooling setup impl p9
Reached-IsOrderly_example =
    Reached-IsOrderly tooling "log" "kube" "dynamic" "client" "serving" "services" "image" 5 impl
      outcome.1.0 outcome.1.1 made setup p9 p9_Reached

Reached-goes_on_example : Stops caching setup p4 × ((p4.stop ≡ true) ⊎ Works caching setup p4)
Reached-goes_on_example =
    Reached-goes_on tooling "log" "kube" "dynamic" "client" "serving" "services" "image" 5 impl
      outcome.1.0 outcome.1.1 made setup p4 p4_Reached p4_live
