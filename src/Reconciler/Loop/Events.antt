-- ===== src/Reconciler/Loop/Events.antt =====
-- The jobs that the calls of a `Reconcile` are about, one by one.
use csr.Base.{String, ◌≡◌, refl, ok, [], All}
use csr.Api.{CloudSchedulerSource}
use csr.Platform.{
  Vendor, Env, Event, created_job, updated_job, deleted_job, handled, looked_up, fetched,
  got_service, created_service, dialled, got_job, updated_source,
}
use csr.Reconciler.Jobs.Removal.{job_name}
use csr.Reconciler.Loop.{reconcile}
use csr.Reconciler.Loop.Permits.{Permits, FoundRun-All}
use csr.Reconciler.Loop.Key.{looked, reconcile-FoundRun}
use csr.Lister.{cache_key}
use csr.Lister.Laws.{cached}

-- A call that writes a job writes the one of this name.
abbrev pub IsAbout : {V : Vendor} → String → Event V → Type 0
IsAbout n (created_job _ job _) = job.name ≡ n
IsAbout n (updated_job job _) = job.name ≡ n
IsAbout n (deleted_job name _) = name ≡ n
IsAbout n (handled _) = Unit
IsAbout n (looked_up _ _) = Unit
IsAbout n (fetched _ _ _ _) = Unit
IsAbout n (got_service _ _ _) = Unit
IsAbout n (created_service _ _ _) = Unit
IsAbout n (dialled _) = Unit
IsAbout n (got_job _ _) = Unit
IsAbout n (updated_source _ _ _) = Unit

module _ {V : Vendor} (env : Env V) (ra : String) (csr : CloudSchedulerSource) where
  IsAbout-Permits : Permits (IsAbout (job_name csr)) env csr
  IsAbout-Permits = record {
    fetches = λ sink r is. tt;
    looks = λ r. tt;
    gets_service = λ r. tt;
    creates_service = λ service r p q. tt;
    dials = λ r. tt;
    gets_job = λ r. tt;
    creates_job = λ parent job r p. p;
    updates_job = λ job r p. p;
    deletes_job = λ r. refl;
    updates = λ h existing desired r p. tt;
  }

  pub reconcile-AreOwn :
      (key namespace name : String)
      → V.split_meta_namespace_key key ≡ ok (namespace, name)
      → cached V name (env.get_by_key [] (cache_key namespace name)) ≡ ok csr
      → All (IsAbout (job_name csr)) (reconcile env ra key []).1
  reconcile-AreOwn key namespace name split held =
      FoundRun-All (IsAbout (job_name csr)) env ra csr IsAbout-Permits
        (looked env namespace name []) (tt, tt) _
        (reconcile-FoundRun env ra key namespace name csr [] split held)
