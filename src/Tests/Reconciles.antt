-- ===== src/Tests/Reconciles.antt =====
-- The theorems about whole runs of `Reconcile`, at work in the sample cluster.
use csr.Base.{inl, All, ◌≡◌, refl, none, [], err, string_eq, length}
use csr.Platform.{Env}
use csr.Platform.Jobs.{jobs}
use csr.Reconciler.Loop.{reconcile, reconcile_cloud_scheduler_source}
use csr.Reconciler.Loop.Source.{SourceRun, reconcile_source-SourceRun}
use csr.Reconciler.Loop.Key.{KeyRun, reconcile-KeyRun}
use csr.Reconciler.Loop.Jobs.{
  IsScheduled, reconcile-frame, reconcile-IsScheduled, reconcile-removed,
}
use csr.Reconciler.Loop.Isolation.{IsConfined, IsKeyed, reconcile-IsConfined}
use csr.Reconciler.Loop.Bounds.{Within, writes, reconcile-Within}
use csr.Reconciler.Loop.Refusals.{Unwritten, reconcile-withheld}
use csr.Reconciler.Loop.Guard.{IsGuarded}
use csr.Reconciler.Loop.Reach.{start, then_reconcile, Reached-IsGuarded}
use csr.Tests.Vendor.{sample, plain, gone, sample-AreSets, sample-IsSemantic}
use csr.Tests.Cluster.{cluster_env, cluster-IsFaithful, no_jobs, one_job, clock_job}
use csr.Tests.Runs.{
  run, new_source, fresh, old_source, doomed, key_splits, fresh_is_cached, doomed_is_cached,
  fresh_succeeds, doomed_succeeds, undialled, other_job, doomed-IsSteady,
}

reconcile-IsScheduled_example : IsScheduled no_jobs new_source (run (cluster_env fresh) []).1
unfolding run
reconcile-IsScheduled_example =
    reconcile-IsScheduled (cluster_env fresh) "image" no_jobs (cluster-IsFaithful fresh)
      "default/clock" "default" "clock" new_source [] key_splits fresh_is_cached refl fresh_succeeds

reconcile-removed_example :
    jobs (one_job "http://a/") (run (cluster_env doomed) []).1 clock_job ≡ none
unfolding run
reconcile-removed_example =
    reconcile-removed (cluster_env doomed) "image" (one_job "http://a/") (cluster-IsFaithful doomed)
      "default/clock" "default" "clock" old_source [] key_splits doomed_is_cached "now" refl
      doomed_succeeds

reconcile-frame_example :
    jobs (one_job "http://a/") (run (cluster_env doomed) []).1 "projects/p/locations/l/jobs/other"
    ≡ none
unfolding run
reconcile-frame_example =
    reconcile-frame (cluster_env doomed) "image" (one_job "http://a/") "default/clock" "default"
      "clock" old_source [] key_splits doomed_is_cached "projects/p/locations/l/jobs/other"
      other_job

reconcile-KeyRun_example :
    KeyRun (cluster_env fresh) "image" "bad" [] (reconcile (cluster_env fresh) "image" "bad" [])
reconcile-KeyRun_example = reconcile-KeyRun (cluster_env fresh) "image" "bad" []

reconcile_source-SourceRun_example :
    SourceRun
      (cluster_env doomed)
      "image"
      old_source
      []
      (reconcile_cloud_scheduler_source (cluster_env doomed) "image" (old_source, []))
reconcile_source-SourceRun_example =
    reconcile_source-SourceRun (cluster_env doomed) "image" old_source []

reconcile-withheld_example :
    ((run undialled []).0 ≡ err (plain "no credentials"))
    × Unwritten undialled (one_job "http://a/") [] (run undialled []).1
unfolding run
reconcile-withheld_example =
    reconcile-withheld undialled "image" sample-IsSemantic (one_job "http://a/") "default/clock"
      "default" "clock" old_source [] key_splits doomed_is_cached "now" (plain "no credentials")
      refl (inl refl)

reconcile-Within_example : Within 9 3 [] (run (cluster_env fresh) []).1
unfolding run
reconcile-Within_example = reconcile-Within (cluster_env fresh) "image" "default/clock" []

-- The cluster while the receive adapter of the source is not there yet
abbrev unserving : Env sample
unserving = cluster_env (record fresh { service = err gone })

-- A new source takes all nine calls, and all three writes.
calls_of_new : length (run unserving []).1 ≡ 9
unfolding run
calls_of_new = refl

writes_of_new : writes (run unserving []).1 ≡ 3
unfolding run
writes_of_new = refl

Reached-IsGuarded_example : IsGuarded (one_job "http://a/") (run (cluster_env doomed) []).1
unfolding run
Reached-IsGuarded_example =
    Reached-IsGuarded (cluster_env doomed) "image" (one_job "http://a/") (λ key. clock_job)
      (cluster-IsFaithful doomed) sample-AreSets sample-IsSemantic doomed-IsSteady
      (then_reconcile "default/clock" start)

cluster-IsKeyed : IsKeyed (cluster_env fresh) "default" "clock"
unfolding string_eq
cluster-IsKeyed h s p = let same : s ≡ new_source = cc in rw same (refl, refl)

reconcile-IsConfined_example :
    All (IsConfined new_source.spec.sink "default" "clock" clock_job) (run (cluster_env fresh) []).1
unfolding run
reconcile-IsConfined_example =
    reconcile-IsConfined (cluster_env fresh) "image" "default/clock" "default" "clock" new_source []
      key_splits fresh_is_cached cluster-IsKeyed tt
