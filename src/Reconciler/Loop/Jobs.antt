-- ===== src/Reconciler/Loop/Jobs.antt =====
-- What a whole `Reconcile` leaves in Cloud Scheduler.
use csr.Base.{String, ◌≡◌, ◌≢◌, ap, ◌∙◌, none, some, ok}
use csr.Api.{CloudSchedulerSource}
use csr.Api.Job.{Job}
use csr.Api.Serving.{Service}
use csr.Lister.Laws.{cached}
use csr.Lister.{cache_key}
use csr.Platform.{Vendor, Env, History}
use csr.Platform.Jobs.{JobTable, jobs, IsFaithful}
use csr.Reconciler.Finalizers.{add_finalizer}
use csr.Reconciler.Sinks.{http_uri}
use csr.Reconciler.Sinks.Laws.{get_sink_uri-jobs}
use csr.Reconciler.Services.Laws.{reconcile_service-jobs}
use csr.Reconciler.Jobs.{create_job_proto}
use csr.Reconciler.Jobs.Outcome.{Agrees, reconcile_job-outcome}
use csr.Reconciler.Jobs.Frame.{reconcile_job-frame}
use csr.Reconciler.Jobs.Removal.{job_name, remove_job-frame, remove_job-outcome}
use csr.Reconciler.Updates.Laws.{update-jobs}
use csr.Reconciler.Loop.{reconcile}
use csr.Reconciler.Loop.Source
use csr.Reconciler.Loop.Source.{
  SourceRun, unresolved, unserved, undomained, unscheduled, done, unremoved, removed, sunk, marked,
  served, scheduled, removal, reconcile_source-SourceRun,
}
use csr.Reconciler.Loop.Key
use csr.Reconciler.Loop.Key.{
  FoundRun, unchanged, unwritten, written, processed, looked, reconcile-FoundRun,
}

module _ {V : Vendor} (env : Env V) (ra : String) (initial : JobTable) (csr : CloudSchedulerSource)
    (h : History V) where
  pub sunk-jobs : jobs initial (sunk env ra csr h).1 ≡ jobs initial h
  sunk-jobs = get_sink_uri-jobs env initial csr.spec.sink csr.object_meta.namespace h

  pub served-jobs : (uri : String) → jobs initial (served env ra csr h uri).1 ≡ jobs initial h
  served-jobs uri =
      reconcile_service-jobs env ra (marked env ra csr h uri) (sunk env ra csr h).1 initial
      ∙ sunk-jobs

  module _ (other : String) (differs : other ≢ job_name csr) where
    scheduled-frame :
        (uri : String) (ksvc : Service)
        → jobs initial (scheduled env ra csr h uri ksvc).1 other ≡ jobs initial h other
    unfolding add_finalizer
    scheduled-frame uri ksvc =
        reconcile_job-frame env initial csr.object_meta.name csr.spec (http_uri ksvc.domain) _ other
          differs
        ∙ ap (λ t. t other) (served-jobs uri)

    removal-frame : jobs initial (removal env ra csr h).1 other ≡ jobs initial h other
    removal-frame = remove_job-frame env initial csr _ other differs ∙ ap (λ t. t other) sunk-jobs

    SourceRun-frame :
        (out : Source.Outcome V)
        → SourceRun env ra csr h out
        → jobs initial out.1.1 other ≡ jobs initial h other
    SourceRun-frame out (unresolved _ _ _ p) = rw p (ap (λ t. t other) sunk-jobs)
    SourceRun-frame out (unserved uri _ _ _ _ p) = rw p (ap (λ t. t other) (served-jobs uri))
    SourceRun-frame out (undomained uri _ _ _ _ _ p) = rw p (ap (λ t. t other) (served-jobs uri))
    SourceRun-frame out (unscheduled uri ksvc _ _ _ _ _ _ p) = rw p (scheduled-frame uri ksvc)
    SourceRun-frame out (done uri ksvc _ _ _ _ _ _ p) = rw p (scheduled-frame uri ksvc)
    SourceRun-frame out (unremoved _ _ _ _ p) = rw p removal-frame
    SourceRun-frame out (removed _ _ _ p) = rw p removal-frame

module _ {V : Vendor} (env : Env V) (ra : String) (initial : JobTable)
    (original : CloudSchedulerSource) (k : History V) where
  -- The update at the end touches no job, so the jobs are those that processing leaves.
  FoundRun-jobs :
      (out : Key.Outcome V)
      → FoundRun env ra original k out
      → jobs initial out.1 ≡ jobs initial (processed env ra original k).1.1
  FoundRun-jobs out (unchanged _ p) = rw p
  FoundRun-jobs out (unwritten _ _ _ p) =
      rw p (
        update-jobs env (processed env ra original k).1.0 (processed env ra original k).1.1 initial)
  FoundRun-jobs out (written _ _ _ p) =
      rw p (
        update-jobs env (processed env ra original k).1.0 (processed env ra original k).1.1 initial)

module _ {V : Vendor} (env : Env V) (ra : String) (initial : JobTable) (key namespace name : String)
    (original : CloudSchedulerSource) (h : History V)
    (split : V.split_meta_namespace_key key ≡ ok (namespace, name))
    (held : cached V name (env.get_by_key h (cache_key namespace name)) ≡ ok original) where
  abbrev k : History V
  k = looked env namespace name h

  pub reconcile-jobs :
      jobs initial (reconcile env ra key h).1 ≡ jobs initial (processed env ra original k).1.1
  reconcile-jobs =
      FoundRun-jobs env ra initial original k _
        (reconcile-FoundRun env ra key namespace name original h split held)

  -- `Reconcile` of a source that the cache holds leaves every job with another name than the
  -- source's as it was, whatever the services answer and whether or not it fails.
  pub reconcile-frame :
      (other : String)
      → other ≢ job_name original
      → jobs initial (reconcile env ra key h).1 other ≡ jobs initial h other
  reconcile-frame other differs =
      ap (λ t. t other) reconcile-jobs
      ∙ SourceRun-frame env ra initial original k other differs _
          (reconcile_source-SourceRun env ra original k)

-- Cloud Scheduler holds a job of the source that agrees with its spec.
pub record IsScheduled {V : Vendor} (initial : JobTable) (csr : CloudSchedulerSource)
    (h : History V) : Type 0 where
  pub job : Job
  pub uri : String
  pub held : jobs initial h (job_name csr) ≡ some job
  pub agrees : Agrees (create_job_proto V (job_name csr) csr.spec uri) job

module _ {V : Vendor} (env : Env V) (ra : String) (initial : JobTable) (F : IsFaithful initial env)
    (csr : CloudSchedulerSource) (h : History V) where
  scheduled-IsScheduled :
      (uri : String) (ksvc : Service) (job : Job)
      → (scheduled env ra csr h uri ksvc).0 ≡ ok job
      → IsScheduled initial csr (scheduled env ra csr h uri ksvc).1
  unfolding add_finalizer
  scheduled-IsScheduled uri ksvc job p =
      let (held, agrees) =
        reconcile_job-outcome env initial F csr.object_meta.name csr.spec (http_uri ksvc.domain)
          (served env ra csr h uri).1 p in
      record { job = job; uri = http_uri ksvc.domain; held = held; agrees = agrees }

  pub SourceRun-IsScheduled :
      (out : Source.Outcome V)
      → csr.object_meta.deletion_timestamp ≡ none
      → SourceRun env ra csr h out
      → out.0 ≡ ok tt
      → IsScheduled initial csr out.1.1
  SourceRun-IsScheduled out live (unresolved _ _ _ p) = rw p λ r. cc
  SourceRun-IsScheduled out live (unserved _ _ _ _ _ p) = rw p λ r. cc
  SourceRun-IsScheduled out live (undomained _ _ _ _ _ _ p) = rw p λ r. cc
  SourceRun-IsScheduled out live (unscheduled _ _ _ _ _ _ _ _ p) = rw p λ r. cc
  SourceRun-IsScheduled out live (done uri ksvc job _ _ _ _ q p) =
      rw p λ _. scheduled-IsScheduled uri ksvc job q
  SourceRun-IsScheduled out live (unremoved _ _ gone _ _) = absurd (cc)
  SourceRun-IsScheduled out live (removed _ gone _ _) = absurd (cc)

  SourceRun-removed :
      (time : String) (out : Source.Outcome V)
      → csr.object_meta.deletion_timestamp ≡ some time
      → SourceRun env ra csr h out
      → out.0 ≡ ok tt
      → jobs initial out.1.1 (job_name csr) ≡ none
  SourceRun-removed time out gone (unresolved _ live _ _) = absurd (cc)
  SourceRun-removed time out gone (unserved _ _ live _ _ _) = absurd (cc)
  SourceRun-removed time out gone (undomained _ _ live _ _ _ _) = absurd (cc)
  SourceRun-removed time out gone (unscheduled _ _ _ live _ _ _ _ _) = absurd (cc)
  SourceRun-removed time out gone (done _ _ _ live _ _ _ _ _) = absurd (cc)
  SourceRun-removed time out gone (unremoved _ _ _ _ p) = rw p λ r. cc
  SourceRun-removed time out gone (removed _ _ q p) =
      rw p λ _. remove_job-outcome env initial F csr (sunk env ra csr h).1 q

FoundRun-ok :
    {V : Vendor} (env : Env V) (ra : String) (original : CloudSchedulerSource) (k : History V)
    (out : Key.Outcome V)
    → FoundRun env ra original k out
    → out.0 ≡ ok tt
    → (processed env ra original k).0 ≡ ok tt
FoundRun-ok env ra original k out (unchanged _ p) = rw p λ r. r
FoundRun-ok env ra original k out (unwritten _ _ _ p) = rw p λ r. cc
FoundRun-ok env ra original k out (written _ _ _ p) = rw p λ r. r

module _ {V : Vendor} (env : Env V) (ra : String) (initial : JobTable) (F : IsFaithful initial env)
    (key namespace name : String) (original : CloudSchedulerSource) (h : History V)
    (split : V.split_meta_namespace_key key ≡ ok (namespace, name))
    (held : cached V name (env.get_by_key h (cache_key namespace name)) ≡ ok original) where
  pub succeeded :
      (reconcile env ra key h).0 ≡ ok tt
      → (processed env ra original (looked env namespace name h)).0 ≡ ok tt
  succeeded =
      FoundRun-ok env ra original (looked env namespace name h) _
        (reconcile-FoundRun env ra key namespace name original h split held)

  -- When `Reconcile` returns no error for a source that is not being deleted, Cloud Scheduler holds
  -- a job under the name made of the source's project, location and name, with the schedule, the
  -- time zone, the body and the method that the source's spec describes.
  pub reconcile-IsScheduled :
      original.object_meta.deletion_timestamp ≡ none
      → (reconcile env ra key h).0 ≡ ok tt
      → IsScheduled initial original (reconcile env ra key h).1
  reconcile-IsScheduled live success =
      let s =
        SourceRun-IsScheduled env ra initial F original (looked env namespace name h) _ live
          (reconcile_source-SourceRun env ra original (looked env namespace name h))
          (succeeded success) in
      record {
        job = s.job;
        uri = s.uri;
        held =
            ap (λ t. t (job_name original))
              (reconcile-jobs env ra initial key namespace name original h split held)
            ∙ s.held;
        agrees = s.agrees;
      }

  -- When `Reconcile` returns no error for a source that is being deleted, Cloud Scheduler holds no
  -- job of the source.
  pub reconcile-removed :
      (time : String)
      → original.object_meta.deletion_timestamp ≡ some time
      → (reconcile env ra key h).0 ≡ ok tt
      → jobs initial (reconcile env ra key h).1 (job_name original) ≡ none
  reconcile-removed time gone success =
      ap (λ t. t (job_name original))
        (reconcile-jobs env ra initial key namespace name original h split held)
      ∙ SourceRun-removed env ra initial F original (looked env namespace name h) time _ gone
          (reconcile_source-SourceRun env ra original (looked env namespace name h))
          (succeeded success)
