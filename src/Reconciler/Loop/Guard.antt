-- ===== src/Reconciler/Loop/Guard.antt =====
-- The finalizer guards the job: over any sequence of calls of `Reconcile`, no update that lacks the
-- finalizer is sent while Cloud Scheduler holds the job of the source that is sent.
use csr.Base.{
  String, ◌≡◌, refl, true, ◌⊎◌, inl, inr, Option, none, some, Result, ok, [], ◌∷◌, Result-cases,
  Bool-cases, contains, arith, string_eq,
}
use csr.Api.{CloudSchedulerSource}
use csr.Api.Meta.{ObjectReference}
use csr.Api.Job.{Job}
use csr.Api.Serving.{Service}
use csr.Lister.{cache_key}
use csr.Platform.{Vendor, Env, History, Event, updated_source}
use csr.Platform.Jobs.{JobTable, jobs, IsFaithful}
use csr.Platform.Sets.{AreSets}
use csr.Reconciler.Finalizers.{finalizer_name}
use csr.Reconciler.Finalizers.Laws.{finalizers, contains-add_finalizer}
use csr.Reconciler.Sinks.{get_sink_uri}
use csr.Reconciler.Sinks.Laws.{get_sink_uri-history}
use csr.Reconciler.Services.{reconcile_service}
use csr.Reconciler.Jobs.Calls.{JobRun, reconcile_job-JobRun}
use csr.Reconciler.Jobs.Removal.{RemovalRun, job_name, remove_job-RemovalRun, remove_job-outcome}
use csr.Reconciler.Sinks.{http_uri}
use csr.Reconciler.Loop.Source
use csr.Reconciler.Loop.Source.{SourceRun, sunk, marked, served, scheduled, removal}

module _ {V : Vendor} (initial : JobTable) where
  -- The update at the head of a history keeps the finalizer, or the job is gone.
  abbrev pub HeadIsSafe : Event V → History V → Type 0
  HeadIsSafe (updated_source _ s _) k =
      (contains (finalizers s) finalizer_name ≡ true) ⊎ (jobs initial k (job_name s) ≡ none)
  HeadIsSafe _ k = Unit

  abbrev pub IsGuarded : History V → Type 0
  IsGuarded [] = Unit
  IsGuarded (e ∷ k) = HeadIsSafe e k × IsGuarded k

module _ {V : Vendor} (env : Env V) (ra : String) (initial : JobTable) where
  pub get_sink_uri-IsGuarded :
      (sink : Option ObjectReference) (namespace : String) (h : History V)
      → IsGuarded initial h
      → IsGuarded initial (get_sink_uri env sink namespace h).1
  get_sink_uri-IsGuarded none namespace h g = unfold get_sink_uri in g
  get_sink_uri-IsGuarded (some sink) namespace h g =
      elim (get_sink_uri-history env initial sink namespace h) [
        | inl p ↦ rw p g
        | inr p ↦ rw p (tt, g)
      ]

  reconcile_service-IsGuarded :
      (csr : CloudSchedulerSource) (h : History V)
      → IsGuarded initial h
      → IsGuarded initial (reconcile_service env ra csr h).1
  unfolding reconcile_service
  reconcile_service-IsGuarded csr h g =
      elim (Result-cases (env.get_service h csr.object_meta.namespace csr.object_meta.name)) [
        | inl (existing, p) ↦ rw p (tt, g)
        | inr (e, p) ↦ elim (Bool-cases (V.is_not_found e)) [
          | inl missing ↦ rw (p, missing) (tt, (tt, g))
          | inr other ↦ rw (p, other) (tt, g)
        ]
      ]

  JobRun-IsGuarded :
      (parent n : String) (wanted : Job) (h : History V) (out : Result V.Error Job × History V)
      → IsGuarded initial h
      → JobRun env parent n wanted h out
      → IsGuarded initial out.1
  JobRun-IsGuarded parent n wanted h out g (JobRun.undialled _ _ p) = rw p (tt, g)
  JobRun-IsGuarded parent n wanted h out g (JobRun.unread _ _ _ p) = rw p (tt, (tt, g))
  JobRun-IsGuarded parent n wanted h out g (JobRun.created _ _ _ _ _ p) = rw p (tt, (tt, (tt, g)))
  JobRun-IsGuarded parent n wanted h out g (JobRun.untargeted _ _ _ p) = rw p (tt, (tt, g))
  JobRun-IsGuarded parent n wanted h out g (JobRun.kept _ _ _ _ _ _ _ p) = rw p (tt, (tt, g))
  JobRun-IsGuarded parent n wanted h out g (JobRun.updated _ _ _ _ _ _ _ _ _ p) =
      rw p (tt, (tt, (tt, g)))

  RemovalRun-IsGuarded :
      (n : String) (h : History V) (out : Result V.Error (Unit {0}) × History V)
      → IsGuarded initial h
      → RemovalRun env n h out
      → IsGuarded initial out.1
  RemovalRun-IsGuarded n h out g (RemovalRun.undialled _ _ p) = rw p (tt, g)
  RemovalRun-IsGuarded n h out g (RemovalRun.removed _ p) = rw p (tt, (tt, g))
  RemovalRun-IsGuarded n h out g (RemovalRun.absent _ _ _ p) = rw p (tt, (tt, g))
  RemovalRun-IsGuarded n h out g (RemovalRun.refused _ _ _ p) = rw p (tt, (tt, g))

-- Objects stand in the cache under their own keys, and the source of a key keeps its job name: nobody
-- moves a source to another project or location.
pub record IsSteady {V : Vendor} (env : Env V) (job_of : String → String) : Type 0 where
  pub cached_as :
      (h : History V) (key : String) (csr : CloudSchedulerSource)
      → env.get_by_key h key ≡ ok (some csr)
      → (cache_key csr.object_meta.namespace csr.object_meta.name ≡ key)
        × (job_name csr ≡ job_of key)

module _ {V : Vendor} (env : Env V) (ra : String) (initial : JobTable) (F : IsFaithful initial env)
    (A : AreSets V) (csr : CloudSchedulerSource) (h : History V) (g : IsGuarded initial h) where
  sunk-IsGuarded : IsGuarded initial (sunk env ra csr h).1
  sunk-IsGuarded = get_sink_uri-IsGuarded env ra initial csr.spec.sink csr.object_meta.namespace h g

  served-IsGuarded : (uri : String) → IsGuarded initial (served env ra csr h uri).1
  served-IsGuarded uri =
      reconcile_service-IsGuarded env ra initial (marked env ra csr h uri) _ sunk-IsGuarded

  scheduled-IsGuarded :
      (uri : String) (ksvc : Service) → IsGuarded initial (scheduled env ra csr h uri ksvc).1
  scheduled-IsGuarded uri ksvc = JobRun-IsGuarded env ra initial _ _ _ _ _ (served-IsGuarded uri) (
      reconcile_job-JobRun env _ (marked env ra csr h uri).spec (http_uri ksvc.domain)
        (served env ra csr h uri).1)

  removal-IsGuarded : IsGuarded initial (removal env ra csr h).1
  removal-IsGuarded =
      RemovalRun-IsGuarded env ra initial _ _ _ sunk-IsGuarded
        (remove_job-RemovalRun env csr (sunk env ra csr h).1)

  -- What processing makes of a source: nothing, or a source with the finalizer, or one whose job is
  -- gone.
  abbrev pub MayWrite : Source.Outcome V → Type 0
  MayWrite out =
      (out.1.0 ≡ csr)
      ⊎ (contains (finalizers out.1.0) finalizer_name ≡ true)
      ⊎ (jobs initial out.1.1 (job_name csr) ≡ none)

  marked-has_finalizer :
      (uri : String) → contains (finalizers (marked env ra csr h uri)) finalizer_name ≡ true
  marked-has_finalizer uri = ground (arith, contains-add_finalizer V A csr finalizer_name)

  pub SourceRun-IsGuarded :
      (out : Source.Outcome V)
      → SourceRun env ra csr h out
      → IsGuarded initial out.1.1 × MayWrite out
  SourceRun-IsGuarded out (SourceRun.unresolved _ _ _ p) = rw p (sunk-IsGuarded, inl refl)
  SourceRun-IsGuarded out (SourceRun.unserved uri _ _ _ _ p) =
      rw p (served-IsGuarded uri, inr (inl (marked-has_finalizer uri)))
  SourceRun-IsGuarded out (SourceRun.undomained uri _ _ _ _ _ p) =
      rw p (served-IsGuarded uri, inr (inl (marked-has_finalizer uri)))
  SourceRun-IsGuarded out (SourceRun.unscheduled uri ksvc _ _ _ _ _ _ p) =
      rw p (scheduled-IsGuarded uri ksvc, inr (inl (marked-has_finalizer uri)))
  SourceRun-IsGuarded out (SourceRun.done uri ksvc _ _ _ _ _ _ p) =
      rw p (scheduled-IsGuarded uri ksvc, inr (inl (marked-has_finalizer uri)))
  SourceRun-IsGuarded out (SourceRun.unremoved _ _ _ _ p) = rw p (removal-IsGuarded, inl refl)
  SourceRun-IsGuarded out (SourceRun.removed _ _ q p) =
      rw p (
        removal-IsGuarded,
        inr (inr (remove_job-outcome env initial F csr (sunk env ra csr h).1 q)),
      )
