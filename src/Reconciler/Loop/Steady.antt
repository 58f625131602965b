-- ===== src/Reconciler/Loop/Steady.antt =====
-- A `Reconcile` at which nothing is left to do.
use csr.Base.{String, ◌≡◌, ◌≢◌, sym, ap, ◌∙◌, none, some, ok, ◌∷◌}
use csr.Api.{CloudSchedulerSource, CloudSchedulerSourceStatus}
use csr.Api.Job.{Job}
use csr.Api.Serving.{Service}
use csr.Lister.{cache_key}
use csr.Lister.Laws.{cached}
use csr.Platform.{Vendor, Env, History, got_job, got_service}
use csr.Platform.Semantic.{IsSemantic}
use csr.Platform.Jobs.{JobTable, jobs, IsFaithful}
use csr.Reconciler.Finalizers.{add_finalizer}
use csr.Reconciler.Jobs.{create_job_proto}
use csr.Reconciler.Jobs.Calls.{dialled_on}
use csr.Reconciler.Jobs.Outcome.{Agrees}
use csr.Reconciler.Jobs.Again.{reconcile_job-keeps}
use csr.Reconciler.Jobs.Removal.{job_name}
use csr.Reconciler.Sinks.{http_uri}
use csr.Reconciler.Loop.{reconcile, set_job, set_sink_uri}
use csr.Reconciler.Loop.Source.{sunk, marked, served, scheduled}
use csr.Reconciler.Loop.Key.{looked, reconcile-FoundRun}
use csr.Reconciler.Loop.Writes.{source-of_done, FoundRun-of_same}

marked-settled :
    {V : Vendor} (env : Env V) (ra : String) (csr : CloudSchedulerSource) (h : History V)
    (job uri : String)
    → add_finalizer V csr ≡ csr
    → csr.status ≡ record { job = job; sink_uri = uri }
    → set_job job (marked env ra csr h uri) ≡ csr
marked-settled env ra csr h job uri already recorded =
    ap (λ c. set_job job (set_sink_uri uri c)) already
    ∙ ap (λ (s : CloudSchedulerSourceStatus). record csr { status = s }) (sym recorded)

module _ {V : Vendor} (env : Env V) (ra : String) (S : IsSemantic V) (key namespace name : String)
    (original : CloudSchedulerSource) (h : History V)
    (split : V.split_meta_namespace_key key ≡ ok (namespace, name))
    (held : cached V name (env.get_by_key h (cache_key namespace name)) ≡ ok original) where
  abbrev k : History V
  k = looked env namespace name h

  -- `Reconcile` only reads if all is as it should be: the service has a domain, Cloud Scheduler
  -- holds a job that agrees with the source, and the source has the finalizer and records the job
  -- and the sink's URI. It then returns no error, provided that the last lookup of the job works.
  pub reconcile_steady :
      (initial : JobTable) (F : IsFaithful initial env) (uri : String) (ksvc : Service)
      {job last : Job}
      → original.object_meta.deletion_timestamp ≡ none
      → (sunk env ra original k).0 ≡ ok uri
      → served env ra original k uri ≡ (
        ok ksvc,
        got_service original.object_meta.namespace original.object_meta.name (ok ksvc)
            ∷ (sunk env ra original k).1,
      )
      → ksvc.domain ≢ ""
      → jobs initial (served env ra original k uri).1 (job_name original) ≡ some job
      → Agrees (create_job_proto V (job_name original) original.spec (http_uri ksvc.domain)) job
      → add_finalizer V original ≡ original
      → original.status ≡ record { job = job.name; sink_uri = uri }
      → (scheduled env ra original k uri ksvc).0 ≡ ok last
      → reconcile env ra key h ≡ (
        ok tt,
        got_job (job_name original) (ok job)
            ∷ dialled_on (
                got_service original.object_meta.namespace original.object_meta.name (ok ksvc)
                ∷ (sunk env ra original k).1),
      )
  unfolding add_finalizer
  reconcile_steady initial F uri ksvc {job} {last} live p q named there agrees marked_already
        recorded r =
      let kept : scheduled env ra original k uri ksvc ≡ (
        ok job,
        got_job (job_name original) (ok job) ∷ dialled_on (served env ra original k uri).1,
      ) =
        reconcile_job-keeps env initial F original.object_meta.name original.spec
          (http_uri ksvc.domain) (served env ra original k uri).1 there agrees r in
      FoundRun-of_same env ra original k S _ _ _
        (source-of_done env ra original k uri ksvc job live p (ap (λ x. x.0) q) named
            (ap (λ x. x.0) kept)
          ∙ rw (marked-settled env ra original k job.name uri marked_already recorded, kept, q))
        (reconcile-FoundRun env ra key namespace name original h split held)
