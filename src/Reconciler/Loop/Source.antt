-- ===== src/Reconciler/Loop/Source.antt =====
-- The ways through `reconcileCloudSchedulerSource`: what it returns, what it makes of the source,
-- and which calls it has made, errors included.
use csr.Base.{
  String, ◌≡◌, refl, Option, none, some, Result, ok, err, inl, inr, Result-cases, arith, string_eq,
  String-discrete, ◌≢◌,
}
use csr.Api.{CloudSchedulerSource}
use csr.Api.Job.{Job}
use csr.Api.Serving.{Service}
use csr.Platform.{Vendor, Env, History}
use csr.Reconciler.Finalizers.{add_finalizer, remove_finalizer}
use csr.Reconciler.Sinks.{get_sink_uri, http_uri}
use csr.Reconciler.Services.{reconcile_service}
use csr.Reconciler.Jobs.{reconcile_job, remove_job}
use csr.Reconciler.Loop.{
  set_sink_uri, set_job, reconcile_cloud_scheduler_source, dispatch, reconcile_live,
  reconcile_deleted,
}

abbrev pub Outcome : Vendor → Type 0
Outcome V = Result V.Error (Unit {0}) × (CloudSchedulerSource × History V)

module _ {V : Vendor} (env : Env V) (ra_image : String) (csr : CloudSchedulerSource)
    (h : History V) where
  -- The answer about the sink, with the history after it.
  abbrev pub sunk : Result V.Error String × History V
  sunk = get_sink_uri env csr.spec.sink csr.object_meta.namespace h

  -- The source with the finalizer and the sink's URI.
  abbrev pub marked : String → CloudSchedulerSource
  marked uri = set_sink_uri uri (add_finalizer V csr)

  abbrev pub served : String → Result V.Error Service × History V
  served uri = reconcile_service env ra_image (marked uri) sunk.1

  abbrev pub scheduled : String → Service → Result V.Error Job × History V
  scheduled uri ksvc =
      reconcile_job env (marked uri).object_meta.name (marked uri).spec (http_uri ksvc.domain)
        (served uri).1

  abbrev pub removal : Result V.Error (Unit {0}) × History V
  removal = remove_job env csr sunk.1

pub data SourceRun {V : Vendor} (env : Env V) (ra : String) (csr : CloudSchedulerSource)
    (h : History V) (out : Outcome V) : Type 0 where
  unresolved :
      (e : V.Error)
      → csr.object_meta.deletion_timestamp ≡ none
      → (sunk env ra csr h).0 ≡ err e
      → out ≡ (err e, (csr, (sunk env ra csr h).1))
      → SourceRun env ra csr h out
  unserved :
      (uri : String) (e : V.Error)
      → csr.object_meta.deletion_timestamp ≡ none
      → (sunk env ra csr h).0 ≡ ok uri
      → (served env ra csr h uri).0 ≡ err e
      → out ≡ (err e, (marked env ra csr h uri, (served env ra csr h uri).1))
      → SourceRun env ra csr h out
  undomained :
      (uri : String) (ksvc : Service)
      → csr.object_meta.deletion_timestamp ≡ none
      → (sunk env ra csr h).0 ≡ ok uri
      → (served env ra csr h uri).0 ≡ ok ksvc
      → ksvc.domain ≡ ""
      → out ≡ (
        err (V.errorf "no domain configured for service"),
        (marked env ra csr h uri, (served env ra csr h uri).1),
      )
      → SourceRun env ra csr h out
  unscheduled :
      (uri : String) (ksvc : Service) (e : V.Error)
      → csr.object_meta.deletion_timestamp ≡ none
      → (sunk env ra csr h).0 ≡ ok uri
      → (served env ra csr h uri).0 ≡ ok ksvc
      → ksvc.domain ≢ ""
      → (scheduled env ra csr h uri ksvc).0 ≡ err e
      → out ≡ (err e, (marked env ra csr h uri, (scheduled env ra csr h uri ksvc).1))
      → SourceRun env ra csr h out
  done :
      (uri : String) (ksvc : Service) (job : Job)
      → csr.object_meta.deletion_timestamp ≡ none
      → (sunk env ra csr h).0 ≡ ok uri
      → (served env ra csr h uri).0 ≡ ok ksvc
      → ksvc.domain ≢ ""
      → (scheduled env ra csr h uri ksvc).0 ≡ ok job
      → out
        ≡ (ok tt, (set_job job.name (marked env ra csr h uri), (scheduled env ra csr h uri ksvc).1))
      → SourceRun env ra csr h out
  unremoved :
      (time : String) (e : V.Error)
      → csr.object_meta.deletion_timestamp ≡ some time
      → (removal env ra csr h).0 ≡ err e
      → out ≡ (err e, (csr, (removal env ra csr h).1))
      → SourceRun env ra csr h out
  removed :
      (time : String)
      → csr.object_meta.deletion_timestamp ≡ some time
      → (removal env ra csr h).0 ≡ ok tt
      → out ≡ (ok tt, (remove_finalizer V csr, (removal env ra csr h).1))
      → SourceRun env ra csr h out

module _ {V : Vendor} (env : Env V) (ra : String) (csr : CloudSchedulerSource) (h : History V) where
  live-SourceRun :
      (uri : String)
      → csr.object_meta.deletion_timestamp ≡ none
      → (sunk env ra csr h).0 ≡ ok uri
      → SourceRun env ra csr h (reconcile_live env ra uri (csr, (sunk env ra csr h).1))
  unfolding reconcile_live
  live-SourceRun uri live p = elim (Result-cases (served env ra csr h uri).0) [
    | inr (e, q) ↦ unserved uri e live p q (rw q)
    | inl (ksvc, q) ↦ elim (String-discrete ksvc.domain "") [
      | yes blank ↦ undomained uri ksvc live p q blank (rw q (ground arith))
      | no named ↦ elim (Result-cases (scheduled env ra csr h uri ksvc).0) [
        | inr (e, r) ↦ unscheduled uri ksvc e live p q named r (rw q (ground arith))
        | inl (job, r) ↦ done uri ksvc job live p q named r (rw q (ground arith))
      ]
    ]
  ]

  deleted-SourceRun :
      (time : String)
      → csr.object_meta.deletion_timestamp ≡ some time
      → SourceRun env ra csr h (reconcile_deleted env ra (csr, (sunk env ra csr h).1))
  unfolding reconcile_deleted
  deleted-SourceRun time gone = elim (Result-cases (removal env ra csr h).0) [
    | inr (e, q) ↦ unremoved time e gone q (rw q)
    | inl (_, q) ↦ removed time gone q (rw q)
  ]

  dispatch-SourceRun :
      (deletion : Option String) (r : Result V.Error String)
      → csr.object_meta.deletion_timestamp ≡ deletion
      → (sunk env ra csr h).0 ≡ r
      → SourceRun env ra csr h (dispatch env ra deletion r (csr, (sunk env ra csr h).1))
  unfolding dispatch
  dispatch-SourceRun none (ok uri) d p = live-SourceRun uri d p
  dispatch-SourceRun none (err e) d p = unresolved e d p refl
  dispatch-SourceRun (some time) r d p = deleted-SourceRun time d

  -- Every run of `reconcileCloudSchedulerSource` is one of these, whatever the services answer. A
  -- source whose deletion has begun is only ever removed, and needs no sink.
  pub reconcile_source-SourceRun :
      SourceRun env ra csr h (reconcile_cloud_scheduler_source env ra (csr, h))
  unfolding reconcile_cloud_scheduler_source
  reconcile_source-SourceRun = dispatch-SourceRun _ _ refl refl
