-- ===== src/Reconciler/Jobs/Outcome.antt =====
-- What `reconcileJob` and `deleteJob` leave in Cloud Scheduler.
use csr.Base.{String, ◌≡◌, refl, sym, ◌∙◌, false, some, Result, ok, err, arith, string_eq, nat_eq}
use csr.Api.{CloudSchedulerSourceSpec}
use csr.Api.Job.{Job, HttpTarget, get_http_target}
use csr.Platform.{Vendor, Env, History}
use csr.Platform.Jobs.{JobTable, if_stored, jobs, IsFaithful}
use csr.Reconciler.Jobs.{
  parent_of, job_name_of, create_job_proto, needs_update, http_target, reconcile_job,
}
use csr.Reconciler.Jobs.Calls.{
  JobRun, undialled, unread, created, untargeted, kept, updated, dialled_on, reconcile_job-JobRun,
}

-- The job has the name, the schedule and the request of the other, whose URI may differ.
pub record Agrees (desired job : Job) : Type 0 where
  pub name : job.name ≡ desired.name
  pub schedule : job.schedule ≡ desired.schedule
  pub time_zone : job.time_zone ≡ desired.time_zone
  pub target : HttpTarget
  pub wanted : HttpTarget
  pub is_target : get_http_target job ≡ some target
  pub is_wanted : get_http_target desired ≡ some wanted
  pub body : target.body ≡ wanted.body
  pub http_method : target.http_method ≡ wanted.http_method

needs_update-Agrees :
    (V : Vendor) (desired job : Job) (t u : HttpTarget)
    → job.name ≡ desired.name
    → get_http_target job ≡ some t
    → get_http_target desired ≡ some u
    → needs_update V desired u job t ≡ false
    → Agrees desired job
unfolding needs_update
needs_update-Agrees V desired job t u named p q same = record {
  name = named;
  schedule = ground arith;
  time_zone = ground arith;
  target = t;
  wanted = u;
  is_target = p;
  is_wanted = q;
  body = ground arith;
  http_method = ground arith;
}

Agrees-refl : (job : Job) (t : HttpTarget) → get_http_target job ≡ some t → Agrees job job
Agrees-refl job t p = record {
  name = refl;
  schedule = refl;
  time_zone = refl;
  target = t;
  wanted = t;
  is_target = p;
  is_wanted = p;
  body = refl;
  http_method = refl;
}

module _ {V : Vendor} (env : Env V) (initial : JobTable) (F : IsFaithful initial env) (n : String)
    (wanted : Job) (sent : HttpTarget) (named : wanted.name ≡ n)
    (described : get_http_target wanted ≡ some sent) where
  stored-outcome :
      (table : JobTable) (answer : Result V.Error Job) {job : Job}
      → ((stored : Job) → answer ≡ ok stored → stored ≡ wanted)
      → answer ≡ ok job
      → (if_stored wanted answer table n ≡ some job) × Agrees wanted job
  stored-outcome table (ok stored) {job} as_sent p =
      let same : job ≡ wanted = cc (as_sent stored refl) in
      (ground (arith, as_sent stored refl), rw same (Agrees-refl wanted sent described))
  stored-outcome table (err e) as_sent p = cc

  JobRun-outcome :
      (parent : String) (h : History V) (out : Result V.Error Job × History V) {job : Job}
      → JobRun env parent n wanted h out
      → out.0 ≡ ok job
      → (jobs initial out.1 n ≡ some job) × Agrees wanted job
  JobRun-outcome parent h out (undialled e _ p) = rw p λ r. cc
  JobRun-outcome parent h out (unread e _ _ p) = rw p λ r. cc
  JobRun-outcome parent h out (untargeted x _ _ p) = rw p λ r. cc
  JobRun-outcome parent h out {job} (kept x t u found q s same p) = rw p λ r.
      let (held, x_named) = F.get_found (dialled_on h) n x found in
      let same_job : x ≡ job = ground arith in
      rw (← same_job) (held, needs_update-Agrees V wanted x t u (x_named ∙ sym named) q s same)
  JobRun-outcome parent h out (created e a failed missing answer p) = rw p (
      stored-outcome (jobs initial h) a
        (λ stored e'. F.create_stores _ parent wanted stored (answer ∙ e')))
  JobRun-outcome parent h out (updated x t u a found q s same answer p) = rw p (
      stored-outcome (jobs initial h) a
        (λ stored e'. F.update_stores _ wanted stored (answer ∙ e')))

module _ {V : Vendor} (env : Env V) (initial : JobTable) (F : IsFaithful initial env) where
  -- When `reconcileJob` returns a job, Cloud Scheduler holds that job under the name made of the
  -- source's project, location and name, and the job has the name, schedule, time zone, body and
  -- method that the source describes.
  pub reconcile_job-outcome :
      (name : String) (spec : CloudSchedulerSourceSpec) (target : String) (h : History V)
      {job : Job}
      → (reconcile_job env name spec target h).0 ≡ ok job
      → (jobs initial (reconcile_job env name spec target h).1 (job_name_of spec name) ≡ some job)
        × Agrees (create_job_proto V (job_name_of spec name) spec target) job
  unfolding create_job_proto
  reconcile_job-outcome name spec target h e =
      JobRun-outcome env initial F _ _ (http_target V spec target) refl refl (parent_of spec) h _
        (reconcile_job-JobRun env name spec target h) e
