-- ===== src/Reconciler/Loop.antt =====
-- `reconcileCloudSchedulerSource` and `Reconcile` of
-- pkg/reconciler/cloudschedulersource/cloudschedulersource.go.
pub mod Source
pub mod Jobs
pub mod Writes
pub mod Steady
pub mod Twice
pub mod Guard
pub mod Reach
pub mod Works
pub mod Permits
pub mod Events
pub mod Isolation
pub mod Refusals
pub mod Workers
pub mod Bounds
pub mod Key
use csr.Base.{
  String, ◌<>◌, ◌&&◌, Option, none, some, Result, ok, err, Exec, fail, attempt, lift, ◌>>=◌, ◌>>◌,
  if◌then◌else◌, ◌==◌, string_eq,
}
use csr.Api.{CloudSchedulerSource}
use csr.DeepCopy.{deep_copy}
use csr.Lister
use csr.Platform.{Vendor, Env, Run, History, handle_error}
use csr.Reconciler.Finalizers.{add_finalizer, remove_finalizer}
use csr.Reconciler.Sinks.{get_sink_uri, http_uri}
use csr.Reconciler.Services.{reconcile_service}
use csr.Reconciler.Jobs.{reconcile_job, remove_job}
use csr.Reconciler.Updates.{update}

-- A method that also changes the object that `csr` points to.
abbrev pub Work : Vendor → Type 0 → Type 0
Work V A = Exec V.Error (CloudSchedulerSource × History V) A

abbrev call : {V : Vendor} {A : Type 0} → Run V A → Work V A
call m (csr, h) = let (r, h') = m h in (r, (csr, h'))

abbrev current : {V : Vendor} → Work V CloudSchedulerSource
current (csr, h) = (ok csr, (csr, h))

abbrev modify : {V : Vendor} → (CloudSchedulerSource → CloudSchedulerSource) → Work V (Unit {0})
modify f (csr, h) = (ok tt, (f csr, h))

abbrev pub set_sink_uri : String → CloudSchedulerSource → CloudSchedulerSource
set_sink_uri uri csr = record csr { status = record csr.status { sink_uri = uri } }

abbrev pub set_job : String → CloudSchedulerSource → CloudSchedulerSource
set_job name csr = record csr { status = record csr.status { job = name } }

module _ {V : Vendor} (env : Env V) (ra_image : String) where
  -- The branch of a source that is being deleted.
  reconcile_deleted : Work V (Unit {0})
  reconcile_deleted = do csr ← current; call (remove_job env csr); modify (remove_finalizer V)

  -- From `addFinalizer` on.
  reconcile_live : String → Work V (Unit {0})
  reconcile_live uri = do
    modify (add_finalizer V)
    modify (set_sink_uri uri)
    csr ← current
    ksvc ← call (reconcile_service env ra_image csr)
    if ksvc.domain == "" then fail (V.errorf "no domain configured for service") else do
      job ← call (reconcile_job env csr.object_meta.name csr.spec (http_uri ksvc.domain))
      modify (set_job job.name)

  -- The error of `GetSinkURI` matters only to a source that is not being deleted.
  dispatch : Option String → Result V.Error String → Work V (Unit {0})
  unfolding reconcile_live reconcile_deleted
  dispatch none (ok uri) = reconcile_live uri
  dispatch none (err e) = fail e
  dispatch (some _) _ = reconcile_deleted

  unfoldable pub reconcile_cloud_scheduler_source : Work V (Unit {0})
  unfolding dispatch
  reconcile_cloud_scheduler_source = do
    csr ← current
    uri ← attempt (call (get_sink_uri env csr.spec.sink csr.object_meta.namespace))
    dispatch csr.object_meta.deletion_timestamp uri

  -- The end of `Reconcile`: an update if something changed, whose error comes first.
  write_back :
      CloudSchedulerSource → CloudSchedulerSource → Result V.Error (Unit {0}) → Run V (Unit {0})
  write_back original csr outcome =
      if V.status_equal original.status csr.status
        && V.meta_equal original.object_meta csr.object_meta
      then lift outcome
      else do update env csr; lift outcome

  reconcile_original : CloudSchedulerSource → Run V (Unit {0})
  unfolding write_back
  reconcile_original original h =
      let (outcome, (csr, h')) = reconcile_cloud_scheduler_source (deep_copy original, h) in
      write_back original csr outcome h'

  after_lookup : String → Result V.Error CloudSchedulerSource → Run V (Unit {0})
  unfolding reconcile_original
  after_lookup key (ok original) = reconcile_original original
  after_lookup key (err e) =
      if V.is_not_found e
      then handle_error ("cloudschedulersource '" <> (key <> "' in work queue no longer exists"))
      else fail e

  after_split : String → Result V.Error (String × String) → Run V (Unit {0})
  unfolding after_lookup
  after_split key (err _) = handle_error ("invalid resource key: " <> key)
  after_split key (ok (namespace, name)) = do
    original ← attempt (Lister.get env namespace name)
    after_lookup key original

  unfoldable pub reconcile : String → Run V (Unit {0})
  unfolding after_split
  reconcile key = after_split key (V.split_meta_namespace_key key)
