-- ===== src/Tests/Life.antt =====
-- The life of a source: it is made, reconciled, deleted, reconciled again, and dropped.
use csr.Base.{String, ◌≡◌, refl, Option, none, some, [], ◌∷◌, ok, err, false, contains, string_eq}
use csr.Api.{CloudSchedulerSource, CloudSchedulerSourceStatus}
use csr.Api.Meta.{Slice, slice}
use csr.Platform.{Env}
use csr.Platform.Jobs.{IsFaithful, jobs}
use csr.Reconciler.Finalizers.{finalizer_name}
use csr.Reconciler.Finalizers.Laws.{finalizers}
use csr.Reconciler.Lifecycle.{
  World, newly, reconcile_world, IsPlaced, Answers, Serves, HasFinalizer, Move, created, changed,
  dropped, reconciled, Lived, unborn, later,
}
use csr.Reconciler.Lifecycle.Kept.{IsKept, Lived-IsKept}
use csr.Reconciler.Lifecycle.Ends.{reconcile-frees}
use csr.Reconciler.Lifecycle.Leak.{Refuses, reconcile-unguarded}
use csr.Reconciler.Loop.{reconcile}
use csr.Reconciler.Loop.Key.{processed, looked}
use csr.Reconciler.Loop.Jobs.{IsScheduled}
use csr.Tests.Vendor.{sample, SampleError, plain, sample-AreSets, sample-IsSemantic}
use csr.Tests.Cluster.{cluster_env, cluster-IsFaithful, clock, settled, no_jobs, clock_job}
use csr.Tests.Runs.{run, new_source, calm_source, fresh, key_splits}

-- The cluster while the server stores this
abbrev storing : Option CloudSchedulerSource → Env sample
storing stored = record (cluster_env fresh) { get_by_key = λ h key. ok stored }

storing-IsFaithful : (stored : Option CloudSchedulerSource) → IsFaithful no_jobs (storing stored)
storing-IsFaithful stored =
    let f = cluster-IsFaithful fresh in
    record {
      get_found = f.get_found;
      get_missing = f.get_missing;
      create_stores = f.create_stores;
      update_stores = f.update_stores;
      delete_missing = f.delete_missing;
    }

accepted-IsPlaced :
    (s s' : CloudSchedulerSource)
    → (storing (some s)).update_source [] "default" s ≡ ok s'
    → IsPlaced "default" "clock" clock_job s
    → IsPlaced "default" "clock" clock_job s'
accepted-IsPlaced s s' p placed = let same : s ≡ s' = cc in rw (← same) placed

storing-Answers :
    (stored : Option CloudSchedulerSource)
    → Answers (storing stored) "default" "clock" clock_job stored
storing-Answers stored = record {
  caches = λ h. refl;
  accepts = λ h ns s e p. cc;
  keeps = λ h ns s s' p. cc;
  places = λ h ns s s' p placed. accepted-IsPlaced s s' p placed;
}

storing-Serves :
    (stored : Option CloudSchedulerSource)
    → Serves (storing stored) "default" "clock" clock_job stored
storing-Serves stored = record {
  caches = λ h. refl;
  refuses = λ h ns s e p. absurd (cc);
  keeps = λ h ns s s' p. cc;
  places = λ h ns s s' p placed. accepted-IsPlaced s s' p placed;
}

abbrev reconcile_once : World sample → World sample
reconcile_once w = reconcile_world (storing w.stored) "image" "default/clock" w

abbrev Life : World sample → Type 0
Life w = Lived "image" no_jobs "default/clock" "default" "clock" clock_job w

abbrev born : World sample
born = record { stored = some new_source; calls = [] }

abbrev scheduled : World sample
scheduled = reconcile_once born

abbrev doomed_source : CloudSchedulerSource
doomed_source = clock (some "now") (slice (finalizer_name ∷ [])) settled

abbrev doomed : World sample
doomed = record scheduled { stored = some doomed_source }

abbrev freed : World sample
freed = reconcile_once doomed

abbrev freed_source : CloudSchedulerSource
freed_source = clock (some "now") (slice []) settled

abbrev gone : World sample
gone = record freed { stored = none }

scheduled_stored : scheduled.stored ≡ some calm_source
unfolding run
scheduled_stored = refl

freed_stored : freed.stored ≡ some freed_source
unfolding run
freed_stored = refl

off : contains (finalizers freed_source) finalizer_name ≡ false
off = refl

doomed-HasFinalizer : HasFinalizer doomed_source
unfolding string_eq
doomed-HasFinalizer = refl

clock-IsPlaced :
    (deletion : Option String) (names : Slice String) (reported : CloudSchedulerSourceStatus)
    → IsPlaced "default" "clock" clock_job (clock deletion names reported)
clock-IsPlaced deletion names reported = record {
  in_namespace = refl;
  named = refl;
  has_job = refl;
}

reconciling :
    (w : World sample)
    → Move "image" no_jobs "default/clock" "default" "clock" clock_job w (reconcile_once w)
reconciling w = reconciled (storing w.stored) (storing-IsFaithful _) (storing-Serves _) refl

life : Life gone
life =
    later
      (later
        (later
          (later (later unborn (created new_source (clock-IsPlaced _ _ _) refl refl))
            (reconciling born))
          (changed calm_source doomed_source (clock-IsPlaced _ _ _) (λ _. doomed-HasFinalizer)
            scheduled_stored refl))
        (reconciling doomed))
      (dropped freed_source off freed_stored refl)

Lived-IsKept_example : IsKept no_jobs "default" "clock" clock_job gone
Lived-IsKept_example =
    Lived-IsKept "image" no_jobs sample-AreSets sample-IsSemantic "default/clock" "default" "clock"
      clock_job key_splits refl life

doomed_succeeds :
    (reconcile (storing (some doomed_source)) "image" "default/clock" doomed.calls).0 ≡ ok tt
unfolding run
doomed_succeeds = refl

reconcile-frees_example :
    (jobs no_jobs freed.calls clock_job ≡ none)
    × ((s' : CloudSchedulerSource) × (freed.stored ≡ some s')
        × (contains (finalizers s') finalizer_name ≡ false))
reconcile-frees_example =
    reconcile-frees (storing (some doomed_source)) "image" no_jobs (storing-IsFaithful _)
      sample-AreSets sample-IsSemantic "default/clock" "default" "clock" clock_job doomed_source
      doomed.calls key_splits (storing-Answers _) (clock-IsPlaced _ _ _) "now" refl
      doomed-HasFinalizer doomed_succeeds

-- The cluster while the server refuses every update
abbrev refusing : Env sample
refusing = record (storing (some new_source)) {
  update_source = λ h ns source. err (plain "conflict");
}

refusing-IsFaithful : IsFaithful no_jobs refusing
refusing-IsFaithful =
    let f = cluster-IsFaithful fresh in
    record {
      get_found = f.get_found;
      get_missing = f.get_missing;
      create_stores = f.create_stores;
      update_stores = f.update_stores;
      delete_missing = f.delete_missing;
    }

refusing-Refuses : Refuses refusing new_source
refusing-Refuses = record { caches = λ h. refl; refuses = λ h ns c s' p. cc }

processing_succeeds :
    (processed refusing "image" new_source (looked refusing "default" "clock" [])).0 ≡ ok tt
unfolding run
processing_succeeds = refl

reconcile-unguarded_example :
    ((e : SampleError) × ((reconcile refusing "image" "default/clock" []).0 ≡ err e))
    × IsScheduled no_jobs new_source (reconcile refusing "image" "default/clock" []).1
    × (newly (reconcile refusing "image" "default/clock" []).1 ≡ none)
reconcile-unguarded_example =
    reconcile-unguarded refusing "image" no_jobs refusing-IsFaithful sample-AreSets
      sample-IsSemantic "default/clock" new_source [] key_splits refusing-Refuses refl refl
      processing_succeeds
