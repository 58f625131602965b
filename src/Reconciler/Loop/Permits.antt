-- ===== src/Reconciler/Loop/Permits.antt =====
-- The calls that a `Reconcile` of one source makes, one by one: a predicate that permits each of them
-- holds of the whole history.
use csr.Base.{String, ◌≡◌, refl, inl, inr, Result, ok, All, Option, none, some}
use csr.Api.{CloudSchedulerSource}
use csr.Api.Job.{Job}
use csr.Api.Serving.{Service}
use csr.Reconciler.Services.{make_service}
use csr.Api.Meta.{ObjectReference}
use csr.Platform.{
  Vendor, Env, Event, History, created_job, updated_job, deleted_job, looked_up, fetched,
  got_service, created_service, dialled, got_job, updated_source,
}
use csr.Reconciler.Finalizers.{add_finalizer}
use csr.Reconciler.Sinks.{get_sink_uri}
use csr.Reconciler.Sinks.Laws.{resource_of, get_sink_uri-history}
use csr.Reconciler.Services.Laws.{ServiceRun, reconcile_service-ServiceRun}
use csr.Reconciler.Jobs.{create_job_proto}
use csr.Reconciler.Jobs.Calls.{JobRun, reconcile_job-JobRun}
use csr.Reconciler.Jobs.Removal.{RemovalRun, remove_job-RemovalRun, job_name}
use csr.Reconciler.Updates.{merged}
use csr.Reconciler.Updates.Laws.{UpdateRun, update-UpdateRun}
use csr.Reconciler.Loop.Reach.{SourceRun-name}
use csr.Reconciler.Loop.Source
use csr.Reconciler.Loop.Source.{
  SourceRun, sunk, marked, served, scheduled, removal, reconcile_source-SourceRun,
}
use csr.Reconciler.Loop.Key
use csr.Reconciler.Loop.Key.{FoundRun, processed, updating}
use csr.Lister.{cache_key}
use csr.Lister.Laws.{cached}

-- `P` permits the calls about this source: those in its namespace, about its own service, and about
-- the job of its name, and the update of what the cache holds under its key.
pub record Permits {V : Vendor} (P : Event V → Type 0) (env : Env V) (csr : CloudSchedulerSource)
    : Type 0 where
  pub fetches :
      (sink : ObjectReference) (r : Result V.Error V.Object)
      → csr.spec.sink ≡ some sink
      → P (fetched (resource_of V sink) csr.object_meta.namespace sink.name r)
  pub looks :
      (r : Result V.Error (Option CloudSchedulerSource))
      → P (looked_up (cache_key csr.object_meta.namespace csr.object_meta.name) r)
  pub gets_service :
      (r : Result V.Error Service)
      → P (got_service csr.object_meta.namespace csr.object_meta.name r)
  pub creates_service :
      (service : Service) (r : Result V.Error Service)
      → service.object_meta.namespace ≡ csr.object_meta.namespace
      → service.object_meta.name ≡ csr.object_meta.name
      → P (created_service csr.object_meta.namespace service r)
  pub dials : (r : Result V.Error (Unit {0})) → P (dialled r)
  pub gets_job : (r : Result V.Error Job) → P (got_job (job_name csr) r)
  pub creates_job :
      (parent : String) (job : Job) (r : Result V.Error Job)
      → job.name ≡ job_name csr
      → P (created_job parent job r)
  pub updates_job :
      (job : Job) (r : Result V.Error Job) → job.name ≡ job_name csr → P (updated_job job r)
  pub deletes_job : (r : Result V.Error (Unit {0})) → P (deleted_job (job_name csr) r)
  pub updates :
      (h : History V) (existing desired : CloudSchedulerSource)
      (r : Result V.Error CloudSchedulerSource)
      → cached V csr.object_meta.name
          (env.get_by_key h (cache_key csr.object_meta.namespace csr.object_meta.name))
        ≡ ok existing
      → P (updated_source csr.object_meta.namespace (merged existing desired) r)

module _ {V : Vendor} (P : Event V → Type 0) (env : Env V) (ra : String)
    (csr : CloudSchedulerSource) (permits : Permits P env csr) where
  JobRun-All :
      (parent : String) (wanted : Job) (h : History V) (out : Result V.Error Job × History V)
      → wanted.name ≡ job_name csr
      → All P h
      → JobRun env parent (job_name csr) wanted h out
      → All P out.1
  JobRun-All parent wanted h out named a (JobRun.undialled _ _ p) = rw p (permits.dials _, a)
  JobRun-All parent wanted h out named a (JobRun.unread _ _ _ p) =
      rw p (permits.gets_job _, (permits.dials _, a))
  JobRun-All parent wanted h out named a (JobRun.created _ _ _ _ _ p) =
      rw p (permits.creates_job parent wanted _ named, (permits.gets_job _, (permits.dials _, a)))
  JobRun-All parent wanted h out named a (JobRun.untargeted _ _ _ p) =
      rw p (permits.gets_job _, (permits.dials _, a))
  JobRun-All parent wanted h out named a (JobRun.kept _ _ _ _ _ _ _ p) =
      rw p (permits.gets_job _, (permits.dials _, a))
  JobRun-All parent wanted h out named a (JobRun.updated _ _ _ _ _ _ _ _ _ p) =
      rw p (permits.updates_job wanted _ named, (permits.gets_job _, (permits.dials _, a)))

  RemovalRun-All :
      (h : History V) (out : Result V.Error (Unit {0}) × History V)
      → All P h
      → RemovalRun env (job_name csr) h out
      → All P out.1
  RemovalRun-All h out a (RemovalRun.undialled _ _ p) = rw p (permits.dials _, a)
  RemovalRun-All h out a (RemovalRun.removed _ p) =
      rw p (permits.deletes_job _, (permits.dials _, a))
  RemovalRun-All h out a (RemovalRun.absent _ _ _ p) =
      rw p (permits.deletes_job _, (permits.dials _, a))
  RemovalRun-All h out a (RemovalRun.refused _ _ _ p) =
      rw p (permits.deletes_job _, (permits.dials _, a))

  UpdateRun-All :
      (desired : CloudSchedulerSource) (h : History V)
      (out : Result V.Error CloudSchedulerSource × History V)
      → desired.object_meta.namespace ≡ csr.object_meta.namespace
      → desired.object_meta.name ≡ csr.object_meta.name
      → All P h
      → UpdateRun env desired h out
      → All P out.1
  UpdateRun-All desired h out here named a (UpdateRun.uncached _ _ p) =
      rw (p, here, named) (permits.looks _, a)
  UpdateRun-All desired h out here named a (UpdateRun.same _ _ _ _ p) =
      rw (p, here, named) (permits.looks _, a)
  UpdateRun-All desired h out here named a (UpdateRun.sent_merged existing held _ p) =
      rw (p, here, named)
        (permits.updates h existing desired _ (rw (← here, ← named) held), (permits.looks _, a))

  sink-All :
      (sink : Option ObjectReference) (h : History V)
      → csr.spec.sink ≡ sink
      → All P h
      → All P (get_sink_uri env sink csr.object_meta.namespace h).1
  unfolding get_sink_uri
  sink-All none h is a = a
  sink-All (some sink) h is a =
      elim (get_sink_uri-history env (λ _. none) sink csr.object_meta.namespace h) [
        | inl p ↦ rw p a
        | inr p ↦ rw p (permits.fetches sink _ is, a)
      ]

  module _ (h : History V) (a : All P h) where
    sunk-All : All P (sunk env ra csr h).1
    sunk-All = sink-All csr.spec.sink h refl a

    served_run-All :
        (uri : String) (out : Result V.Error Service × History V)
        → ServiceRun env ra (marked env ra csr h uri) (sunk env ra csr h).1 out
        → All P out.1
    unfolding make_service add_finalizer
    served_run-All uri out (ServiceRun.existing _ _ p) = rw p (permits.gets_service _, sunk-All)
    served_run-All uri out (ServiceRun.created _ _ _ p) = rw p (
      permits.creates_service (make_service V (marked env ra csr h uri) ra) _ refl refl,
      (permits.gets_service _, sunk-All),
    )
    served_run-All uri out (ServiceRun.failed _ _ _ p) = rw p (permits.gets_service _, sunk-All)

    served-All : (uri : String) → All P (served env ra csr h uri).1
    served-All uri =
        served_run-All uri _
          (reconcile_service-ServiceRun env ra (marked env ra csr h uri) (sunk env ra csr h).1)

    scheduled-All : (uri : String) (ksvc : Service) → All P (scheduled env ra csr h uri ksvc).1
    unfolding add_finalizer create_job_proto
    scheduled-All uri ksvc =
        JobRun-All _ _ _ _ refl (served-All uri) (reconcile_job-JobRun env _ _ _ _)

    removal-All : All P (removal env ra csr h).1
    removal-All = RemovalRun-All _ _ sunk-All (remove_job-RemovalRun env csr (sunk env ra csr h).1)

    SourceRun-All : (out : Source.Outcome V) → SourceRun env ra csr h out → All P out.1.1
    SourceRun-All out (SourceRun.unresolved _ _ _ p) = rw p sunk-All
    SourceRun-All out (SourceRun.unserved uri _ _ _ _ p) = rw p (served-All uri)
    SourceRun-All out (SourceRun.undomained uri _ _ _ _ _ p) = rw p (served-All uri)
    SourceRun-All out (SourceRun.unscheduled uri ksvc _ _ _ _ _ _ p) = rw p (scheduled-All uri ksvc)
    SourceRun-All out (SourceRun.done uri ksvc _ _ _ _ _ _ p) = rw p (scheduled-All uri ksvc)
    SourceRun-All out (SourceRun.unremoved _ _ _ _ p) = rw p removal-All
    SourceRun-All out (SourceRun.removed _ _ _ p) = rw p removal-All

    abbrev ran : SourceRun env ra csr h (processed env ra csr h)
    ran = reconcile_source-SourceRun env ra csr h

    processed-All : All P (processed env ra csr h).1.1
    processed-All = SourceRun-All _ ran

    updating-All : All P (updating env ra csr h).1
    updating-All =
        let (here, named) = SourceRun-name env ra csr h _ ran in
        UpdateRun-All (processed env ra csr h).1.0 _ _ here named processed-All
          (update-UpdateRun env (processed env ra csr h).1.0 (processed env ra csr h).1.1)

    -- What is permitted holds of every call from the answer of the cache on.
    pub FoundRun-All : (out : Key.Outcome V) → FoundRun env ra csr h out → All P out.1
    FoundRun-All out (FoundRun.unchanged _ p) = rw p processed-All
    FoundRun-All out (FoundRun.unwritten _ _ _ p) = rw p updating-All
    FoundRun-All out (FoundRun.written _ _ _ p) = rw p updating-All
