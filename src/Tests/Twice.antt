-- ===== src/Tests/Twice.antt =====
-- A cluster whose cache follows the updates, and two calls of `Reconcile` in it.
use csr.Base.{◌≡◌, refl, none, some, [], ◌∷◌, ok, err, ◌==◌, string_eq, if◌then◌else◌}
use csr.Api.{CloudSchedulerSource}
use csr.Api.Job.{Job}
use csr.Lister
use csr.Lister.Laws.{cached}
use csr.Platform.{
  Env, History, created_job, updated_job, deleted_job, handled, looked_up, fetched, got_service,
  created_service, dialled, got_job, updated_source,
}
use csr.Platform.Jobs.{jobs, IsFaithful}
use csr.Reconciler.Jobs.Calls.{dialled_on}
use csr.Reconciler.Jobs.Removal.{job_name}
use csr.Reconciler.Loop.{reconcile}
use csr.Reconciler.Loop.Source.{sunk}
use csr.Reconciler.Loop.Twice.{IsWritten, reconcile_twice, again}
use csr.Reconciler.Loop.Key.{looked, processed}
use csr.Tests.Vendor.{sample, sample-AreSets, sample-IsSemantic}
use csr.Tests.Cluster.{cluster_env, cluster-IsFaithful, adapter, no_jobs, job_to}
use csr.Tests.Runs.{run, new_source, calm_source, fresh, key_splits, has_domain}

-- The source as the last update that was answered has left it
abbrev latest : CloudSchedulerSource → History sample → CloudSchedulerSource
latest s [] = s
latest s (updated_source _ _ (ok written) ∷ h) = written
latest s (updated_source _ _ (err _) ∷ h) = latest s h
latest s (created_job _ _ _ ∷ h) = latest s h
latest s (updated_job _ _ ∷ h) = latest s h
latest s (deleted_job _ _ ∷ h) = latest s h
latest s (handled _ ∷ h) = latest s h
latest s (looked_up _ _ ∷ h) = latest s h
latest s (fetched _ _ _ _ ∷ h) = latest s h
latest s (got_service _ _ _ ∷ h) = latest s h
latest s (created_service _ _ _ ∷ h) = latest s h
latest s (dialled _ ∷ h) = latest s h
latest s (got_job _ _ ∷ h) = latest s h

abbrev versioned : CloudSchedulerSource → CloudSchedulerSource
versioned s = record s { object_meta = record s.object_meta { resource_version = "8" } }

abbrev following : Env sample
following = record (cluster_env fresh) {
  get_by_key = λ h key. if key == "default/clock" then ok (some (latest new_source h)) else ok none;
  update_source = λ h ns source. ok (versioned source);
}

following-IsFaithful : IsFaithful no_jobs following
following-IsFaithful =
    let f = cluster-IsFaithful fresh in
    record {
      get_found = f.get_found;
      get_missing = f.get_missing;
      create_stores = f.create_stores;
      update_stores = f.update_stores;
      delete_missing = f.delete_missing;
    }

first_is_cached :
    cached sample "clock" (following.get_by_key [] (Lister.cache_key "default" "clock"))
    ≡ ok new_source
unfolding run
first_is_cached = refl

first_succeeds : (reconcile following "image" "default/clock" []).0 ≡ ok tt
unfolding run
first_succeeds = refl

abbrev next : CloudSchedulerSource
next = versioned calm_source

abbrev first_after : History sample
first_after = (reconcile following "image" "default/clock" []).1

then_cached :
    cached sample "clock" (following.get_by_key first_after (Lister.cache_key "default" "clock"))
    ≡ ok next
unfolding run
then_cached = refl

abbrev then_again : History sample
then_again = again following "image" "default/clock" "default" "clock" []

next-IsWritten :
    IsWritten next
      (processed following "image" new_source (looked following "default" "clock" [])).1.0
unfolding run
next-IsWritten = record {
  name = refl;
  namespace = refl;
  live = refl;
  finalizers = refl;
  spec = refl;
  status = refl;
}

reconcile_twice_example :
    (job : Job) × (jobs no_jobs first_after (job_name new_source) ≡ some job)
    × (reconcile following "image" "default/clock" first_after ≡ (
      ok tt,
      got_job (job_name next) (ok job)
          ∷ dialled_on (
              got_service "default" "clock" (ok adapter)
              ∷ (sunk following "image" next then_again).1),
    ))
unfolding run
reconcile_twice_example =
    reconcile_twice following "image" no_jobs following-IsFaithful sample-AreSets sample-IsSemantic
      "default/clock" "default" "clock" new_source [] key_splits first_is_cached refl first_succeeds
      next next-IsWritten adapter then_cached refl refl has_domain
      {answer = job_to "http://clock.example.com/"} refl refl
