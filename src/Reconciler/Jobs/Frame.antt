-- ===== src/Reconciler/Jobs/Frame.antt =====
-- Which jobs `reconcileJob` leaves alone.
use csr.Base.{String, ◌≡◌, ◌≢◌, refl, Result, ok, err, arith, string_eq}
use csr.Api.{CloudSchedulerSourceSpec}
use csr.Api.Job.{Job}
use csr.Platform.{Vendor, Env, History}
use csr.Platform.Jobs.{JobTable, if_stored, jobs}
use csr.Reconciler.Jobs.{parent_of, job_name_of, create_job_proto, reconcile_job}
use csr.Reconciler.Jobs.Calls.{
  JobRun, undialled, unread, created, untargeted, kept, updated, reconcile_job-JobRun,
}

pub if_stored-ne :
    {E : Type 0} (job : Job) (answer : Result E Job) (table : JobTable) (n : String)
    → n ≢ job.name
    → if_stored job answer table n ≡ table n
if_stored-ne job (ok _) table n differs = ground arith
if_stored-ne job (err _) table n differs = refl

module _ {V : Vendor} (env : Env V) (initial : JobTable) where
  JobRun-frame :
      (parent n : String) (wanted : Job) (h : History V) (out : Result V.Error Job × History V)
      (other : String)
      → other ≢ wanted.name
      → JobRun env parent n wanted h out
      → jobs initial out.1 other ≡ jobs initial h other
  JobRun-frame parent n wanted h out other d (undialled e _ p) = rw p
  JobRun-frame parent n wanted h out other d (unread e _ _ p) = rw p
  JobRun-frame parent n wanted h out other d (untargeted x _ _ p) = rw p
  JobRun-frame parent n wanted h out other d (kept x t u _ _ _ _ p) = rw p
  JobRun-frame parent n wanted h out other d (created e a _ _ _ p) =
      rw p (if_stored-ne wanted a (jobs initial h) other d)
  JobRun-frame parent n wanted h out other d (updated x t u a _ _ _ _ _ p) =
      rw p (if_stored-ne wanted a (jobs initial h) other d)

  -- Whatever `reconcileJob` returns, and whatever the services answer, every job with another name
  -- than the source's is as it was.
  pub reconcile_job-frame :
      (name : String) (spec : CloudSchedulerSourceSpec) (target : String) (h : History V)
      (other : String)
      → other ≢ job_name_of spec name
      → jobs initial (reconcile_job env name spec target h).1 other ≡ jobs initial h other
  unfolding create_job_proto
  reconcile_job-frame name spec target h other d =
      JobRun-frame (parent_of spec) _ _ h _ other d (reconcile_job-JobRun env name spec target h)
