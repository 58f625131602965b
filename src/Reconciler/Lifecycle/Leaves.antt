-- ===== src/Reconciler/Lifecycle/Leaves.antt =====
-- What `reconcileCloudSchedulerSource` leaves of the source and of its job, and that it sends no
-- update.
use csr.Base.{
  String, ◌≡◌, refl, ap, ◌∙◌, ◌⊎◌, inl, inr, Option, none, some, Result, ok, true, arith, string_eq,
}
use csr.Api.{CloudSchedulerSource}
use csr.Api.Meta.{ObjectReference}
use csr.Api.Job.{Job}
use csr.Api.Serving.{Service}
use csr.Platform.{Vendor, Env, History}
use csr.Platform.Jobs.{JobTable, jobs, IsFaithful}
use csr.Platform.Semantic.{IsSemantic}
use csr.Platform.Sets.{AreSets}
use csr.Reconciler.Finalizers.{finalizer_name}
use csr.Reconciler.Finalizers.Laws.{finalizers, contains-add_finalizer}
use csr.Reconciler.Sinks.{get_sink_uri}
use csr.Reconciler.Sinks.Laws.{get_sink_uri-history}
use csr.Reconciler.Services.Laws.{ServiceRun, reconcile_service-ServiceRun}
use csr.Reconciler.Jobs.Calls.{JobRun, reconcile_job-JobRun}
use csr.Reconciler.Jobs.Removal.{
  RemovalRun, job_name, remove_job-RemovalRun, remove_job-outcome, remove_job-error,
}
use csr.Reconciler.Loop.Source
use csr.Reconciler.Loop.Key.{processed, is_unchanged}
use csr.Reconciler.Loop.Reach.{SourceRun-name}
use csr.Lister.{cache_key}
use csr.Lister.Laws.{cached, cached-eq-ok}
use csr.Reconciler.Loop.Source.{
  reconcile_source-SourceRun, SourceRun, sunk, marked, served, scheduled, removal,
}
use csr.Reconciler.Loop.Jobs.{sunk-jobs}
use csr.Reconciler.Lifecycle.{newly, HasFinalizer, IsPlaced}

module _ {V : Vendor} (env : Env V) where
  sink-newly :
      (sink : Option ObjectReference) (namespace : String) (h : History V)
      → newly h ≡ none
      → newly (get_sink_uri env sink namespace h).1 ≡ none
  unfolding get_sink_uri
  sink-newly none namespace h quiet = quiet
  sink-newly (some sink) namespace h quiet =
      elim (get_sink_uri-history env (λ _. none) sink namespace h) [
        | inl p ↦ rw p quiet
        | inr p ↦ rw p
      ]

  ServiceRun-newly :
      (ra : String) (csr : CloudSchedulerSource) (h : History V)
      (out : Result V.Error Service × History V)
      → ServiceRun env ra csr h out
      → newly out.1 ≡ none
  ServiceRun-newly ra csr h out (ServiceRun.existing _ _ p) = rw p
  ServiceRun-newly ra csr h out (ServiceRun.created _ _ _ p) = rw p
  ServiceRun-newly ra csr h out (ServiceRun.failed _ _ _ p) = rw p

  JobRun-newly :
      (parent n : String) (wanted : Job) (h : History V) (out : Result V.Error Job × History V)
      → JobRun env parent n wanted h out
      → newly out.1 ≡ none
  JobRun-newly parent n wanted h out (JobRun.undialled _ _ p) = rw p
  JobRun-newly parent n wanted h out (JobRun.unread _ _ _ p) = rw p
  JobRun-newly parent n wanted h out (JobRun.created _ _ _ _ _ p) = rw p
  JobRun-newly parent n wanted h out (JobRun.untargeted _ _ _ p) = rw p
  JobRun-newly parent n wanted h out (JobRun.kept _ _ _ _ _ _ _ p) = rw p
  JobRun-newly parent n wanted h out (JobRun.updated _ _ _ _ _ _ _ _ _ p) = rw p

  RemovalRun-newly :
      (n : String) (h : History V) (out : Result V.Error (Unit {0}) × History V)
      → RemovalRun env n h out
      → newly out.1 ≡ none
  RemovalRun-newly n h out (RemovalRun.undialled _ _ p) = rw p
  RemovalRun-newly n h out (RemovalRun.removed _ p) = rw p
  RemovalRun-newly n h out (RemovalRun.absent _ _ _ p) = rw p
  RemovalRun-newly n h out (RemovalRun.refused _ _ _ p) = rw p

module _ {V : Vendor} (env : Env V) (ra : String) (csr : CloudSchedulerSource) (h : History V)
    (quiet : newly h ≡ none) where
  sunk-newly : newly (sunk env ra csr h).1 ≡ none
  sunk-newly = sink-newly env csr.spec.sink csr.object_meta.namespace h quiet

  served-newly : (uri : String) → newly (served env ra csr h uri).1 ≡ none
  served-newly uri =
      ServiceRun-newly env ra (marked env ra csr h uri) _ _
        (reconcile_service-ServiceRun env ra _ _)

  scheduled-newly :
      (uri : String) (ksvc : Service) → newly (scheduled env ra csr h uri ksvc).1 ≡ none
  scheduled-newly uri ksvc = JobRun-newly env _ _ _ _ _ (reconcile_job-JobRun env _ _ _ _)

  removal-newly : newly (removal env ra csr h).1 ≡ none
  removal-newly = RemovalRun-newly env _ _ _ (remove_job-RemovalRun env csr _)

  pub SourceRun-newly : (out : Source.Outcome V) → SourceRun env ra csr h out → newly out.1.1 ≡ none
  SourceRun-newly out (SourceRun.unresolved _ _ _ p) = rw p sunk-newly
  SourceRun-newly out (SourceRun.unserved uri _ _ _ _ p) = rw p (served-newly uri)
  SourceRun-newly out (SourceRun.undomained uri _ _ _ _ _ p) = rw p (served-newly uri)
  SourceRun-newly out (SourceRun.unscheduled uri ksvc _ _ _ _ _ _ p) =
      rw p (scheduled-newly uri ksvc)
  SourceRun-newly out (SourceRun.done uri ksvc _ _ _ _ _ _ p) = rw p (scheduled-newly uri ksvc)
  SourceRun-newly out (SourceRun.unremoved _ _ _ _ p) = rw p removal-newly
  SourceRun-newly out (SourceRun.removed _ _ _ p) = rw p removal-newly

-- What processing leaves: the source and its job as they were, or a source with the finalizer, or
-- no job.
abbrev pub Leaves :
    {V : Vendor} → JobTable → CloudSchedulerSource → History V → Source.Outcome V → Type 0
Leaves initial csr h out =
    ((out.1.0 ≡ csr) × (jobs initial out.1.1 (job_name csr) ≡ jobs initial h (job_name csr)))
    ⊎ HasFinalizer out.1.0
    ⊎ (jobs initial out.1.1 (job_name csr) ≡ none)

module _ {V : Vendor} (env : Env V) (ra : String) (initial : JobTable) (F : IsFaithful initial env)
    (A : AreSets V) (csr : CloudSchedulerSource) (h : History V) where
  marked-HasFinalizer : (uri : String) → HasFinalizer (marked env ra csr h uri)
  marked-HasFinalizer uri = ground (arith, contains-add_finalizer V A csr finalizer_name)

  pub SourceRun-Leaves :
      (out : Source.Outcome V) → SourceRun env ra csr h out → Leaves initial csr h out
  SourceRun-Leaves out (SourceRun.unresolved _ _ _ p) =
      rw p (inl (refl, ap (λ t. t (job_name csr)) (sunk-jobs env ra initial csr h)))
  SourceRun-Leaves out (SourceRun.unserved uri _ _ _ _ p) =
      rw p (inr (inl (marked-HasFinalizer uri)))
  SourceRun-Leaves out (SourceRun.undomained uri _ _ _ _ _ p) =
      rw p (inr (inl (marked-HasFinalizer uri)))
  SourceRun-Leaves out (SourceRun.unscheduled uri _ _ _ _ _ _ _ p) =
      rw p (inr (inl (marked-HasFinalizer uri)))
  SourceRun-Leaves out (SourceRun.done uri _ _ _ _ _ _ _ p) =
      rw p (inr (inl (marked-HasFinalizer uri)))
  SourceRun-Leaves out (SourceRun.unremoved _ e _ q p) = rw p (
      inl (
        refl,
        remove_job-error env initial csr (sunk env ra csr h).1 e (job_name csr) q
            ∙ ap (λ t. t (job_name csr)) (sunk-jobs env ra initial csr h),
      ))
  SourceRun-Leaves out (SourceRun.removed _ _ q p) =
      rw p (inr (inr (remove_job-outcome env initial F csr (sunk env ra csr h).1 q)))

pub unchanged-finalizers :
    {V : Vendor} (env : Env V) (ra : String) (S : IsSemantic V) (s : CloudSchedulerSource)
    (k : History V)
    → is_unchanged V s (processed env ra s k).1.0 ≡ true
    → finalizers s ≡ finalizers (processed env ra s k).1.0
unchanged-finalizers env ra S s k same =
    S.meta_equal_finalizers s.object_meta (processed env ra s k).1.0.object_meta (ground arith)

module _ {V : Vendor} (env : Env V) (ra : String) (namespace name n : String)
    (s : CloudSchedulerSource)
    (caches : (h : History V) → env.get_by_key h (cache_key namespace name) ≡ ok (some s))
    (P : IsPlaced namespace name n s) (k : History V) where
  abbrev done : Source.Outcome V
  done = processed env ra s k

  -- What `update` finds is the stored source.
  pub in_cache :
      env.get_by_key done.1.1 (cache_key done.1.0.object_meta.namespace done.1.0.object_meta.name)
      ≡ ok (some s)
  in_cache =
      let (ns_same, name_same) =
        SourceRun-name env ra s k done (reconcile_source-SourceRun env ra s k) in
      ap (λ ns. env.get_by_key done.1.1 (cache_key ns done.1.0.object_meta.name))
        (ns_same ∙ P.in_namespace)
      ∙ ap (λ nm. env.get_by_key done.1.1 (cache_key namespace nm)) (name_same ∙ P.named)
      ∙ caches done.1.1

  pub read-eq :
      {c : CloudSchedulerSource} (nm : String)
      → cached V nm (
          env.get_by_key done.1.1
            (cache_key done.1.0.object_meta.namespace done.1.0.object_meta.name))
        ≡ ok c
      → s ≡ c
  read-eq nm p = let q = cached-eq-ok V nm _ p in cc (in_cache)
