-- ===== src/Reconciler/Lifecycle.antt =====
-- The life of one source: the object that the API server stores, the calls that were made, and the
-- moves of users, of the server and of the controller, whose move is a whole `Reconcile` of
-- pkg/reconciler/cloudschedulersource/cloudschedulersource.go. The server keeps an object that is
-- being deleted until nobody's finalizer is left on it.
pub mod Leaves
pub mod Kept
pub mod Ends
pub mod Leak
use csr.Base.{
  String, ◌≡◌, ◌≢◌, true, false, Option, none, some, Result, ok, err, [], ◌∷◌, contains, string_eq,
}
use csr.Api.{CloudSchedulerSource}
use csr.Lister.{cache_key}
use csr.Platform.{
  Vendor, Env, Event, History, created_job, updated_job, deleted_job, handled, looked_up, fetched,
  got_service, created_service, dialled, got_job, updated_source,
}
use csr.Platform.Jobs.{JobTable, jobs, IsFaithful}
use csr.Reconciler.Finalizers.{finalizer_name}
use csr.Reconciler.Finalizers.Laws.{finalizers}
use csr.Reconciler.Jobs.Removal.{job_name}
use csr.Reconciler.Loop.{reconcile}
use csr.Reconciler.Loop.Events.{IsAbout}

-- The source that the last call has written, if that call was an update that was accepted
abbrev pub newly : {V : Vendor} → History V → Option CloudSchedulerSource
newly [] = none
newly (updated_source _ _ (ok s) ∷ h) = some s
newly (updated_source _ _ (err _) ∷ h) = none
newly (created_job _ _ _ ∷ h) = none
newly (updated_job _ _ ∷ h) = none
newly (deleted_job _ _ ∷ h) = none
newly (handled _ ∷ h) = none
newly (looked_up _ _ ∷ h) = none
newly (fetched _ _ _ _ ∷ h) = none
newly (got_service _ _ _ ∷ h) = none
newly (created_service _ _ _ ∷ h) = none
newly (dialled _ ∷ h) = none
newly (got_job _ _ ∷ h) = none

abbrev pub or_stored :
    Option CloudSchedulerSource → Option CloudSchedulerSource → Option CloudSchedulerSource
or_stored none stored = stored
or_stored (some s) stored = some s

abbrev pub HasFinalizer : CloudSchedulerSource → Type 0
HasFinalizer s = contains (finalizers s) finalizer_name ≡ true

pub record World (V : Vendor) : Type 0 where
  pub stored : Option CloudSchedulerSource
  pub calls : History V

-- The source of this namespace and name, whose job has the name `n`: nobody moves it to another
-- project or location.
pub record IsPlaced (namespace name n : String) (s : CloudSchedulerSource) : Type 0 where
  pub in_namespace : s.object_meta.namespace ≡ namespace
  pub named : s.object_meta.name ≡ name
  pub has_job : job_name s ≡ n

-- What the services answer while a `Reconcile` runs: the cache has the stored source, and the server
-- accepts an update, of which it keeps the finalizers and the place.
pub record Answers {V : Vendor} (env : Env V) (namespace name n : String)
    (stored : Option CloudSchedulerSource) : Type 0 where
  pub caches : (h : History V) → env.get_by_key h (cache_key namespace name) ≡ ok stored
  pub accepts :
      (h : History V) (ns : String) (s : CloudSchedulerSource) (e : V.Error)
      → env.update_source h ns s ≢ err e
  pub keeps :
      (h : History V) (ns : String) (s s' : CloudSchedulerSource)
      → env.update_source h ns s ≡ ok s'
      → finalizers s' ≡ finalizers s
  pub places :
      (h : History V) (ns : String) (s s' : CloudSchedulerSource)
      → env.update_source h ns s ≡ ok s'
      → IsPlaced namespace name n s
      → IsPlaced namespace name n s'

-- The stored source has the finalizer, if there is a source.
abbrev pub IsHeld : Option CloudSchedulerSource → Type 0
IsHeld none = ⊥
IsHeld (some s) = HasFinalizer s

-- The same, where the server may also refuse an update, as long as the stored source has the
-- controller's finalizer already.
pub record Serves {V : Vendor} (env : Env V) (namespace name n : String)
    (stored : Option CloudSchedulerSource) : Type 0 where
  pub caches : (h : History V) → env.get_by_key h (cache_key namespace name) ≡ ok stored
  pub refuses :
      (h : History V) (ns : String) (s : CloudSchedulerSource) (e : V.Error)
      → env.update_source h ns s ≡ err e
      → IsHeld stored
  pub keeps :
      (h : History V) (ns : String) (s s' : CloudSchedulerSource)
      → env.update_source h ns s ≡ ok s'
      → finalizers s' ≡ finalizers s
  pub places :
      (h : History V) (ns : String) (s s' : CloudSchedulerSource)
      → env.update_source h ns s ≡ ok s'
      → IsPlaced namespace name n s
      → IsPlaced namespace name n s'

-- The world after a `Reconcile` of the key.
abbrev pub reconcile_world : {V : Vendor} → Env V → String → String → World V → World V
reconcile_world env ra key w =
    let calls = (reconcile env ra key w.calls).1 in
    record { stored = or_stored (newly calls) w.stored; calls = calls }

module _ {V : Vendor} (ra : String) (initial : JobTable) (key namespace name n : String) where
  -- One move: somebody creates the source or changes it, which includes the request to delete it and
  -- leaves the controller's finalizer on it; the server drops it once that finalizer is off; a
  -- call is made about another job; or the controller reconciles, with services of its own.
  pub data Move (w w' : World V) : Type 0 where
    created :
        (s : CloudSchedulerSource)
        → IsPlaced namespace name n s
        → w.stored ≡ none
        → w' ≡ record w { stored = some s }
        → Move w w'
    changed :
        (s s' : CloudSchedulerSource)
        → IsPlaced namespace name n s'
        → (HasFinalizer s → HasFinalizer s')
        → w.stored ≡ some s
        → w' ≡ record w { stored = some s' }
        → Move w w'
    dropped :
        (s : CloudSchedulerSource)
        → contains (finalizers s) finalizer_name ≡ false
        → w.stored ≡ some s
        → w' ≡ record w { stored = none }
        → Move w w'
    elsewhere :
        (e : Event V) (other : String)
        → n ≢ other
        → IsAbout other e
        → w' ≡ record w { calls = e ∷ w.calls }
        → Move w w'
    reconciled :
        (env : Env V)
        → IsFaithful initial env
        → Serves env namespace name n w.stored
        → w' ≡ reconcile_world env ra key w
        → Move w w'

  pub data Lived : World V → Type 0 where
    unborn : Lived (record { stored = none; calls = [] })
    later : {w w' : World V} → Lived w → Move w w' → Lived w'
