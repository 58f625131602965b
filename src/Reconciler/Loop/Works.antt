-- ===== src/Reconciler/Loop/Works.antt =====
-- Services under which `Reconcile` succeeds.
use csr.Base.{
  String, ◌≡◌, ◌≢◌, sym, ap, ◌∙◌, true, none, some, inl, inr, Result-cases, Result, ok, err,
}
use csr.Api.{CloudSchedulerSource}
use csr.Api.Meta.{ObjectReference}
use csr.Api.Job.{Job, get_http_target}
use csr.Api.Serving.{Service}
use csr.Lister.{cache_key}
use csr.Lister.Laws.{cached}
use csr.Platform.{Vendor, Env, History}
use csr.Reconciler.Finalizers.{add_finalizer}
use csr.Reconciler.Sinks.{get_sink_uri}
use csr.Reconciler.Sinks.Laws.{Resolves, get_sink_uri-of_Resolves}
use csr.Reconciler.Services.Laws.{reconcile_service-of_existing}
use csr.Reconciler.Jobs.{is_missing}
use csr.Reconciler.Jobs.Calls.{JobRun, reconcile_job-JobRun}
use csr.Reconciler.Jobs.Removal.{RemovalRun, remove_job-RemovalRun}
use csr.Reconciler.Updates.Laws.{UpdateRun, update-UpdateRun}
use csr.Reconciler.Loop.{reconcile}
use csr.Reconciler.Loop.Source
use csr.Reconciler.Loop.Source.{SourceRun, sunk, served, marked, reconcile_source-SourceRun}
use csr.Reconciler.Loop.Key
use csr.Reconciler.Loop.Key.{FoundRun, processed, updating, looked, reconcile-FoundRun}
use csr.Reconciler.Loop.Reach.{SourceRun-name}

-- The cache keeps the source, the sink has an address, the adapter's service is there with a domain,
-- and Cloud Scheduler and the server of our own resource refuse nothing. A job may be missing, and
-- one that is there has an HTTP target.
pub record IsWorking {V : Vendor} (env : Env V) (csr : CloudSchedulerSource) : Type 0 where
  pub caches :
      (h : History V)
      → cached V csr.object_meta.name
          (env.get_by_key h (cache_key csr.object_meta.namespace csr.object_meta.name))
        ≡ ok csr
  pub sink : ObjectReference
  pub host : String
  pub has_sink : csr.spec.sink ≡ some sink
  pub resolves : (h : History V) → Resolves env sink csr.object_meta.namespace h host
  pub service : Service
  pub serves :
      (h : History V)
      → env.get_service h csr.object_meta.namespace csr.object_meta.name ≡ ok service
  pub has_domain : service.domain ≢ ""
  pub dials : (h : History V) (e : V.Error) → env.new_scheduler_client h ≢ err e
  pub reads :
      (h : History V) (n : String) (e : V.Error) → env.get_job h n ≡ err e → is_missing V e ≡ true
  pub targets :
      (h : History V) (n : String) (job : Job)
      → env.get_job h n ≡ ok job
      → get_http_target job ≢ none
  pub creates :
      (h : History V) (parent : String) (job : Job) (e : V.Error)
      → env.create_job h parent job ≢ err e
  pub updates : (h : History V) (job : Job) (e : V.Error) → env.update_job h job ≢ err e
  pub deletes :
      (h : History V) (n : String) (e : V.Error)
      → env.delete_job h n ≡ err e
      → is_missing V e ≡ true
  pub writes :
      (h : History V) (namespace : String) (s : CloudSchedulerSource) (e : V.Error)
      → env.update_source h namespace s ≢ err e

module _ {V : Vendor} (env : Env V) (ra : String) (csr : CloudSchedulerSource)
    (W : IsWorking env csr) where
  JobRun-works :
      (parent n : String) (wanted : Job) (h : History V) (out : Result V.Error Job × History V)
      (e : V.Error)
      → JobRun env parent n wanted h out
      → out.0 ≢ err e
  JobRun-works parent n wanted h out e (JobRun.undialled e' p q) = λ r. W.dials h e' p
  JobRun-works parent n wanted h out e (JobRun.unread e' p other q) =
      λ r. absurd (cc (W.reads _ n e' p))
  JobRun-works parent n wanted h out e (JobRun.created e' answer _ _ p q) =
      λ r. W.creates _ parent wanted e (p ∙ sym (ap (λ x. x.0) q) ∙ r)
  JobRun-works parent n wanted h out e (JobRun.untargeted job p none_there q) =
      λ r. W.targets _ n job p none_there
  JobRun-works parent n wanted h out e (JobRun.kept _ _ _ _ _ _ _ q) = λ r. cc
  JobRun-works parent n wanted h out e (JobRun.updated _ _ _ answer _ _ _ _ p q) =
      λ r. W.updates _ wanted e (p ∙ sym (ap (λ x. x.0) q) ∙ r)

  RemovalRun-works :
      (n : String) (h : History V) (out : Result V.Error (Unit {0}) × History V) (e : V.Error)
      → RemovalRun env n h out
      → out.0 ≢ err e
  RemovalRun-works n h out e (RemovalRun.undialled e' p q) = λ r. W.dials h e' p
  RemovalRun-works n h out e (RemovalRun.removed _ q) = λ r. cc
  RemovalRun-works n h out e (RemovalRun.absent _ _ _ q) = λ r. cc
  RemovalRun-works n h out e (RemovalRun.refused e' p other q) =
      λ r. absurd (cc (W.deletes _ n e' p))

  UpdateRun-works :
      (desired : CloudSchedulerSource) (h : History V)
      (out : Result V.Error CloudSchedulerSource × History V) (e : V.Error)
      → desired.object_meta.namespace ≡ csr.object_meta.namespace
      → desired.object_meta.name ≡ csr.object_meta.name
      → UpdateRun env desired h out
      → out.0 ≢ err e
  UpdateRun-works desired h out e same_ns same_name (UpdateRun.uncached e' p q) =
      λ r. absurd (cc (W.caches h, rw (same_ns, same_name) at p))
  UpdateRun-works desired h out e same_ns same_name (UpdateRun.same _ _ _ _ q) = λ r. cc
  UpdateRun-works desired h out e same_ns same_name (UpdateRun.sent_merged _ _ _ q) =
      λ r. W.writes _ _ _ e (sym (ap (λ x. x.0) q) ∙ r)

  served-works : (uri : String) (h : History V) → (served env ra csr h uri).0 ≡ ok W.service
  unfolding add_finalizer
  served-works uri h =
      ap (λ x. x.0)
        (reconcile_service-of_existing env ra (marked env ra csr h uri) (sunk env ra csr h).1
          W.service (W.serves _))

  SourceRun-works :
      (h : History V) (out : Source.Outcome V) (e : V.Error)
      → SourceRun env ra csr h out
      → out.0 ≢ err e
  SourceRun-works h out e (SourceRun.unresolved e' _ p q) = λ r. absurd (
      cc (
        p,
        ap (λ s. (get_sink_uri env s csr.object_meta.namespace h).0) W.has_sink,
        ap (λ x. x.0)
            (get_sink_uri-of_Resolves env W.sink csr.object_meta.namespace h W.host (W.resolves h)),
      ))
  SourceRun-works h out e (SourceRun.unserved uri e' _ _ p q) =
      λ r. absurd (cc (served-works uri h))
  SourceRun-works h out e (SourceRun.undomained uri ksvc _ _ p blank q) =
      λ r. W.has_domain (cc (served-works uri h, p, blank))
  SourceRun-works h out e (SourceRun.unscheduled uri ksvc e' _ _ _ _ p q) =
      λ r. JobRun-works _ _ _ _ _ e' (reconcile_job-JobRun env _ _ _ _) p
  SourceRun-works h out e (SourceRun.done _ _ _ _ _ _ _ _ q) = λ r. cc
  SourceRun-works h out e (SourceRun.unremoved _ e' _ p q) =
      λ r. RemovalRun-works _ _ _ e' (remove_job-RemovalRun env csr _) p
  SourceRun-works h out e (SourceRun.removed _ _ _ q) = λ r. cc

  FoundRun-works :
      (k : History V) (out : Key.Outcome V) (e : V.Error)
      → FoundRun env ra csr k out
      → out.0 ≢ err e
  FoundRun-works k out e (FoundRun.unchanged _ p) = λ r.
      SourceRun-works k _ e (reconcile_source-SourceRun env ra csr k) (sym (ap (λ x. x.0) p) ∙ r)
  FoundRun-works k out e (FoundRun.unwritten e' _ q p) =
      let (same_ns, same_name) =
        SourceRun-name env ra csr k _ (reconcile_source-SourceRun env ra csr k) in
      λ r. UpdateRun-works _ _ _ e' same_ns same_name (update-UpdateRun env _ _) q
  FoundRun-works k out e (FoundRun.written _ _ _ p) = λ r.
      SourceRun-works k _ e (reconcile_source-SourceRun env ra csr k) (sym (ap (λ x. x.0) p) ∙ r)

  -- If the source refers to a sink that has an address, its service is there with a domain, a job
  -- that is there has an HTTP target, the cache keeps the source, and no call about it fails but the
  -- lookup or the deletion of a job that is missing, then `Reconcile` of its key returns no error,
  -- whether the source is to be scheduled or removed.
  pub reconcile-works :
      (key : String) (h : History V)
      → V.split_meta_namespace_key key ≡ ok (csr.object_meta.namespace, csr.object_meta.name)
      → (reconcile env ra key h).0 ≡ ok tt
  reconcile-works key h split = elim (Result-cases (reconcile env ra key h).0) [
    | inl (_, p) ↦ p
    | inr (e, p) ↦ absurd (
        FoundRun-works _ _ e
          (reconcile-FoundRun env ra key csr.object_meta.namespace csr.object_meta.name csr h split
            (W.caches h))
          p)
  ]
