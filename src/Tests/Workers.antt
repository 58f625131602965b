-- ===== src/Tests/Workers.antt =====
-- Two workers, one that schedules a source and one that removes another, and the theorem about them.
use mathlib.Core.Bool.{false≢true}
use text.Mathlib.TextEquality.{eq_iff}
use csr.Base.{◌≡◌, ◌≢◌, refl, none, some, [], ◌∷◌, ok, ◌==◌, string_eq, if◌then◌else◌}
use csr.Lister
use csr.Lister.Laws.{cached}
use csr.Platform.{Env, History, Vendor}
use csr.Platform.Jobs.{jobs}
use csr.Reconciler.Jobs.Removal.{job_name}
use csr.Reconciler.Loop.{reconcile}
use csr.Reconciler.Loop.Workers.{Interleaving, start, then_left, then_right, reconcile-interleaved}
use csr.Tests.Vendor.{sample}
use csr.Tests.Cluster.{cluster_env, no_jobs}
use csr.Tests.Runs.{run, new_source, bell, fresh, doomed, key_splits, fresh_is_cached}

-- The calls of the two in turn, from the last ones on.
abbrev alternate : {V : Vendor} (l r : History V) → (m : History V) × Interleaving l r m
alternate [] [] = ([], start)
alternate [] (e ∷ r) = let (m, i) = alternate [] r in (e ∷ m, then_right e i)
alternate (d ∷ l) [] = let (m, i) = alternate l [] in (d ∷ m, then_left d i)
alternate (d ∷ l) (e ∷ r) = let (m, i) = alternate l r in (d ∷ e ∷ m, then_left d (then_right e i))

abbrev bell_env : Env sample
bell_env = record (cluster_env doomed) {
  get_by_key = λ h key. if key == "default/bell" then ok (some bell) else ok none;
}

bell_splits : sample.split_meta_namespace_key "default/bell" ≡ ok ("default", "bell")
unfolding run
bell_splits = refl

bell_is_cached :
    cached sample "bell" (bell_env.get_by_key [] (Lister.cache_key "default" "bell")) ≡ ok bell
unfolding run
bell_is_cached = refl

differ : job_name new_source ≢ job_name bell
differ p = false≢true ((eq_iff (job_name new_source) (job_name bell)).1 p)

abbrev both :
    (m : History sample) × Interleaving
      (reconcile (cluster_env fresh) "image" "default/clock" []).1
      (reconcile bell_env "image" "default/bell" []).1
      m
both =
    alternate (reconcile (cluster_env fresh) "image" "default/clock" []).1
      (reconcile bell_env "image" "default/bell" []).1

reconcile-interleaved_example :
    (jobs no_jobs both.0 (job_name new_source)
      ≡ jobs no_jobs
          (reconcile (cluster_env fresh) "image" "default/clock" []).1
          (job_name new_source))
    × (jobs no_jobs both.0 (job_name bell)
        ≡ jobs no_jobs (reconcile bell_env "image" "default/bell" []).1 (job_name bell))
reconcile-interleaved_example =
    reconcile-interleaved (cluster_env fresh) bell_env "image" no_jobs "default/clock" "default"
      "clock" new_source "default/bell" "default" "bell" bell both.0 key_splits fresh_is_cached
      bell_splits bell_is_cached both.1 differ
