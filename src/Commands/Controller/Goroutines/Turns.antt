-- ===== src/Commands/Controller/Goroutines/Turns.antt =====
-- One turn of a goroutine of cmd/controller/main.go, of a cache or of the signal, and the processes
-- that turns lead to.
use csr.Base.{◌≡◌, Bool, not, ◌&&◌, true, false, Option, none, some, Result, ok, err, if◌then◌else◌}
use csr.Informers.{Machinery, lookup, start}
use csr.Informers.Sources
use csr.Informers.Sources.{Caching, Held, resource_access}
use csr.Commands.Controller
use csr.Commands.Controller.{FactoryKind, kube_informers, source_informers, serving_informers}
use csr.Commands.Controller.Goroutines.{
  Awaited, sources_cache, services_cache, Phase, collecting, waiting, launching, blocked, Worker,
  absent, spawned, at_work, finished, Ending, returned, exited, lost_message, failed_message,
  Process, begun,
}

-- One turn: a factory's `Start`; a cache that is filled, which client-go does only for an informer
-- that runs, and not after the signal; a step of the main goroutine, with the answer of `WaitForCacheSync`, true only of a
-- cache that is synced and false only after the signal; the controller's goroutine that begins, and
-- the return of its `Run`, without an error only after the signal; and the signal itself.
pub data Turn (S : Controller.Setup) : Type 0 where
  starting : FactoryKind → Turn S
  filled : Awaited → Turn S
  collected : Turn S
  waited : Bool → Turn S
  launched : Turn S
  began : Turn S
  ran : Result S.Error (Unit {0}) → Turn S
  signalled : Turn S
  released : Turn S

module _ {M : Machinery} (C : Caching M) where
  abbrev pub source_kind : M.Kind
  source_kind = M.type_of C.empty_source

  abbrev pub is_run : Option M.Informer → Bool
  is_run none = false
  is_run (some _) = true

  -- A step that some condition holds back
  abbrev pub when : Bool → Process C → Option (Process C)
  when able p = if able then some p else none

  abbrev pub started_by : FactoryKind → Process C → Option (Process C)
  started_by kube_informers p = when p.kube_due (record p { kube_due = false })
  started_by source_informers p =
      let (f, run) = start M (p.held.0, p.run) in
      when p.source_due (record p { held = (f, p.held.1); run = run; source_due = false })
  started_by serving_informers p =
      when p.serving_due (record p { serving_run = true; serving_due = false })

  abbrev pub filled_in : Awaited → Process C → Option (Process C)
  filled_in sources_cache p =
      when (not p.stop && is_run (lookup ⦃e = M.kind_eq⦄ p.run source_kind))
        (record p { source_synced = true })
  filled_in services_cache p =
      when (not p.stop && p.serving_run) (record p { serving_synced = true })

  -- `cloudSchedulerSourceInformer.Informer()` in the list of the loop
  abbrev pub collected_in : Phase → Process C → Option (Process C)
  collected_in collecting p =
      let held = (Sources.informer C (resource_access C p.held.0) p.held).1 in
      some (record p { held = held; phase = waiting sources_cache })
  collected_in (waiting _) p = none
  collected_in launching p = none
  collected_in blocked p = none

  abbrev pub has_synced : Awaited → Process C → Bool
  has_synced sources_cache p = p.source_synced
  has_synced services_cache p = p.serving_synced

  abbrev pub after_wait : Awaited → Phase
  after_wait sources_cache = waiting services_cache
  after_wait services_cache = launching

  abbrev pub waited_in : Controller.Setup → Phase → Bool → Process C → Option (Process C)
  waited_in S (waiting cache) true p =
      when (has_synced cache p) (record p { phase = after_wait cache })
  waited_in S (waiting cache) false p =
      when p.stop (record p { ended = some (exited (lost_message S cache)) })
  waited_in S collecting _ p = none
  waited_in S launching _ p = none
  waited_in S blocked _ p = none

  -- The loop over the controllers, of which there is one
  abbrev pub launched_in : Phase → Process C → Option (Process C)
  launched_in launching p = some (record p { phase = blocked; worker = spawned })
  launched_in collecting p = none
  launched_in (waiting _) p = none
  launched_in blocked p = none

  abbrev pub began_in : Worker → Process C → Option (Process C)
  began_in spawned p = some (record p { worker = at_work })
  began_in absent p = none
  began_in at_work p = none
  began_in finished p = none

  abbrev pub ran_in :
      (S : Controller.Setup) → Worker → Result S.Error (Unit {0}) → Process C → Option (Process C)
  ran_in S at_work (ok _) p = when p.stop (record p { worker = finished })
  ran_in S at_work (err e) p = some (record p { ended = some (exited (failed_message S e)) })
  ran_in S absent _ p = none
  ran_in S spawned _ p = none
  ran_in S finished _ p = none

  abbrev pub released_in : Phase → Process C → Option (Process C)
  released_in blocked p = when p.stop (record p { ended = some returned })
  released_in collecting p = none
  released_in (waiting _) p = none
  released_in launching p = none

  abbrev pub take_live : (S : Controller.Setup) → Turn S → Process C → Option (Process C)
  take_live S (starting kind) p = started_by kind p
  take_live S (filled cache) p = filled_in cache p
  take_live S collected p = collected_in p.phase p
  take_live S (waited answer) p = waited_in S p.phase answer p
  take_live S launched p = launched_in p.phase p
  take_live S began p = began_in p.worker p
  take_live S (ran result) p = ran_in S p.worker result p
  take_live S signalled p = some (record p { stop = true })
  take_live S released p = released_in p.phase p

  abbrev pub take_in :
      (S : Controller.Setup) → Option Ending → Turn S → Process C → Option (Process C)
  take_in S none t p = take_live S t p
  take_in S (some _) t p = none

  -- The process after a turn, if it can be taken; none can after the process has ended.
  abbrev pub take : (S : Controller.Setup) → Turn S → Process C → Option (Process C)
  take S t p = take_in S p.ended t p

  -- The processes that any turns lead to.
  pub data Reached (S : Controller.Setup) (held : Held C) : Process C → Type 0 where
    at_first : Reached S held (begun C held)
    next :
        {p p' : Process C}
        → (t : Turn S) → Reached S held p
        → take S t p ≡ some p'
        → Reached S held p'
