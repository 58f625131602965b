-- ===== src/Reconciler/Loop/Bounds.antt =====
-- How many calls a `Reconcile` makes, and how many of them write.
use csr.Base.{
  String, ℕ, suc, ◌+◌, ◌≤◌, inl, inr, Option, none, some, Result, [], ◌∷◌, length, arith,
}
use csr.Api.{CloudSchedulerSource}
use csr.Api.Meta.{ObjectReference}
use csr.Api.Job.{Job}
use csr.Api.Serving.{Service}
use csr.Platform.{
  Vendor, Env, History, created_job, updated_job, deleted_job, handled, looked_up, fetched,
  got_service, created_service, dialled, got_job, updated_source,
}
use csr.Reconciler.Sinks.{get_sink_uri}
use csr.Reconciler.Sinks.Laws.{get_sink_uri-history}
use csr.Reconciler.Services.Laws.{ServiceRun, reconcile_service-ServiceRun}
use csr.Reconciler.Jobs.Calls.{JobRun, reconcile_job-JobRun}
use csr.Reconciler.Jobs.Removal.{RemovalRun, remove_job-RemovalRun}
use csr.Reconciler.Updates.Laws.{UpdateRun, update-UpdateRun}
use csr.Reconciler.Loop.{reconcile}
use csr.Reconciler.Loop.Source
use csr.Reconciler.Loop.Source.{
  SourceRun, sunk, marked, served, scheduled, removal, reconcile_source-SourceRun,
}
use csr.Reconciler.Loop.Key
use csr.Reconciler.Loop.Key.{KeyRun, FoundRun, processed, updating, looked, reconcile-KeyRun}

-- The calls that ask for a change of something outside
abbrev pub writes : {V : Vendor} → History V → ℕ
writes [] = 0
writes (created_service _ _ _ ∷ h) = suc (writes h)
writes (created_job _ _ _ ∷ h) = suc (writes h)
writes (updated_job _ _ ∷ h) = suc (writes h)
writes (deleted_job _ _ ∷ h) = suc (writes h)
writes (updated_source _ _ _ ∷ h) = suc (writes h)
writes (handled _ ∷ h) = writes h
writes (looked_up _ _ ∷ h) = writes h
writes (fetched _ _ _ _ ∷ h) = writes h
writes (got_service _ _ _ ∷ h) = writes h
writes (dialled _ ∷ h) = writes h
writes (got_job _ _ ∷ h) = writes h

-- From `h` to `h'` there are at most `c` calls, of which `d` write.
abbrev pub Within : {V : Vendor} → ℕ → ℕ → History V → History V → Type 0
Within c d h h' = (length h' ≤ c + length h) × (writes h' ≤ d + writes h)

module _ {V : Vendor} (env : Env V) where
  sink-Within :
      (sink : Option ObjectReference) (namespace : String) (h : History V)
      → Within 1 0 h (get_sink_uri env sink namespace h).1
  unfolding get_sink_uri
  sink-Within none namespace h = omega arith
  sink-Within (some sink) namespace h =
      elim (get_sink_uri-history env (λ _. none) sink namespace h) [
        | inl p ↦ rw p (omega arith)
        | inr p ↦ rw p (omega arith)
      ]

  ServiceRun-Within :
      (ra : String) (csr : CloudSchedulerSource) (h : History V)
      (out : Result V.Error Service × History V)
      → ServiceRun env ra csr h out
      → Within 2 1 h out.1
  ServiceRun-Within ra csr h out (ServiceRun.existing _ _ p) = rw p (omega arith)
  ServiceRun-Within ra csr h out (ServiceRun.created _ _ _ p) = rw p (omega arith)
  ServiceRun-Within ra csr h out (ServiceRun.failed _ _ _ p) = rw p (omega arith)

  JobRun-Within :
      (parent n : String) (wanted : Job) (h : History V) (out : Result V.Error Job × History V)
      → JobRun env parent n wanted h out
      → Within 3 1 h out.1
  JobRun-Within parent n wanted h out (JobRun.undialled _ _ p) = rw p (omega arith)
  JobRun-Within parent n wanted h out (JobRun.unread _ _ _ p) = rw p (omega arith)
  JobRun-Within parent n wanted h out (JobRun.created _ _ _ _ _ p) = rw p (omega arith)
  JobRun-Within parent n wanted h out (JobRun.untargeted _ _ _ p) = rw p (omega arith)
  JobRun-Within parent n wanted h out (JobRun.kept _ _ _ _ _ _ _ p) = rw p (omega arith)
  JobRun-Within parent n wanted h out (JobRun.updated _ _ _ _ _ _ _ _ _ p) = rw p (omega arith)

  RemovalRun-Within :
      (n : String) (h : History V) (out : Result V.Error (Unit {0}) × History V)
      → RemovalRun env n h out
      → Within 2 1 h out.1
  RemovalRun-Within n h out (RemovalRun.undialled _ _ p) = rw p (omega arith)
  RemovalRun-Within n h out (RemovalRun.removed _ p) = rw p (omega arith)
  RemovalRun-Within n h out (RemovalRun.absent _ _ _ p) = rw p (omega arith)
  RemovalRun-Within n h out (RemovalRun.refused _ _ _ p) = rw p (omega arith)

  UpdateRun-Within :
      (desired : CloudSchedulerSource) (h : History V)
      (out : Result V.Error CloudSchedulerSource × History V)
      → UpdateRun env desired h out
      → Within 2 1 h out.1
  UpdateRun-Within desired h out (UpdateRun.uncached _ _ p) = rw p (omega arith)
  UpdateRun-Within desired h out (UpdateRun.same _ _ _ _ p) = rw p (omega arith)
  UpdateRun-Within desired h out (UpdateRun.sent_merged _ _ _ p) = rw p (omega arith)

module _ {V : Vendor} (env : Env V) (ra : String) (csr : CloudSchedulerSource) (h : History V) where
  sunk-Within : Within 1 0 h (sunk env ra csr h).1
  sunk-Within = sink-Within env csr.spec.sink csr.object_meta.namespace h

  served-Within : (uri : String) → Within 3 1 h (served env ra csr h uri).1
  served-Within uri = omega (
    arith,
    sunk-Within,
    ServiceRun-Within env ra (marked env ra csr h uri) _ _
        (reconcile_service-ServiceRun env ra _ _),
  )

  scheduled-Within :
      (uri : String) (ksvc : Service) → Within 6 2 h (scheduled env ra csr h uri ksvc).1
  scheduled-Within uri ksvc =
      omega
        (arith, served-Within uri, JobRun-Within env _ _ _ _ _ (reconcile_job-JobRun env _ _ _ _))

  removal-Within : Within 3 1 h (removal env ra csr h).1
  removal-Within = omega (
    arith,
    sunk-Within,
    RemovalRun-Within env _ _ _ (remove_job-RemovalRun env csr (sunk env ra csr h).1),
  )

  SourceRun-Within : (out : Source.Outcome V) → SourceRun env ra csr h out → Within 6 2 h out.1.1
  SourceRun-Within out (SourceRun.unresolved _ _ _ p) = rw p (omega (arith, sunk-Within))
  SourceRun-Within out (SourceRun.unserved uri _ _ _ _ p) = rw p (omega (arith, served-Within uri))
  SourceRun-Within out (SourceRun.undomained uri _ _ _ _ _ p) =
      rw p (omega (arith, served-Within uri))
  SourceRun-Within out (SourceRun.unscheduled uri ksvc _ _ _ _ _ _ p) =
      rw p (scheduled-Within uri ksvc)
  SourceRun-Within out (SourceRun.done uri ksvc _ _ _ _ _ _ p) = rw p (scheduled-Within uri ksvc)
  SourceRun-Within out (SourceRun.unremoved _ _ _ _ p) = rw p (omega (arith, removal-Within))
  SourceRun-Within out (SourceRun.removed _ _ _ p) = rw p (omega (arith, removal-Within))

  processed-Within : Within 6 2 h (processed env ra csr h).1.1
  processed-Within = SourceRun-Within _ (reconcile_source-SourceRun env ra csr h)

  updating-Within : Within 8 3 h (updating env ra csr h).1
  updating-Within = omega (
    arith,
    processed-Within,
    UpdateRun-Within env (processed env ra csr h).1.0 _ _
        (update-UpdateRun env (processed env ra csr h).1.0 (processed env ra csr h).1.1),
  )

  FoundRun-Within : (out : Key.Outcome V) → FoundRun env ra csr h out → Within 8 3 h out.1
  FoundRun-Within out (FoundRun.unchanged _ p) = rw p (omega (arith, processed-Within))
  FoundRun-Within out (FoundRun.unwritten _ _ _ p) = rw p updating-Within
  FoundRun-Within out (FoundRun.written _ _ _ p) = rw p updating-Within

module _ {V : Vendor} (env : Env V) (ra : String) where
  KeyRun-Within :
      (key : String) (h : History V) (out : Key.Outcome V)
      → KeyRun env ra key h out
      → Within 9 3 h out.1
  KeyRun-Within key h out (KeyRun.malformed _ _ p) = rw p (omega arith)
  KeyRun-Within key h out (KeyRun.vanished _ _ _ _ _ _ p) = rw p (omega arith)
  KeyRun-Within key h out (KeyRun.uncached _ _ _ _ _ _ p) = rw p (omega arith)
  KeyRun-Within key h out (KeyRun.found namespace name original _ _ found) =
      omega (arith, FoundRun-Within env ra original (looked env namespace name h) out found)

  -- Every `Reconcile` makes at most nine calls, of which at most three write, whatever the services
  -- answer: it retries nothing and leaves that to the work queue.
  pub reconcile-Within : (key : String) (h : History V) → Within 9 3 h (reconcile env ra key h).1
  reconcile-Within key h = KeyRun-Within key h _ (reconcile-KeyRun env ra key h)
