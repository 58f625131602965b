-- ===== src/Reconciler/Jobs/Again.antt =====
-- When `reconcileJob` leaves the job as it is.
use csr.Base.{String, ◌≡◌, ap, true, false, some, Result, ok, ◌∷◌, arith, string_eq, nat_eq}
use csr.Api.{CloudSchedulerSourceSpec}
use csr.Api.Job.{Job, HttpTarget, get_http_target}
use csr.Platform.{Vendor, Env, History, got_job}
use csr.Platform.Jobs.{JobTable, jobs, IsFaithful}
use csr.Reconciler.Jobs.{
  parent_of, job_name_of, create_job_proto, needs_update, is_missing, reconcile_job,
}
use csr.Reconciler.Jobs.Calls.{
  JobRun, undialled, unread, created, untargeted, kept, updated, dialled_on, reconcile_job-JobRun,
}
use csr.Reconciler.Jobs.Outcome.{Agrees, reconcile_job-outcome}

Agrees-needs_update :
    (V : Vendor) (desired job : Job) (t u : HttpTarget)
    → Agrees desired job
    → get_http_target job ≡ some t
    → get_http_target desired ≡ some u
    → needs_update V desired u job t ≡ false
unfolding needs_update
Agrees-needs_update V desired job t u agreed p q = ground (
  arith, agreed.schedule, agreed.time_zone, agreed.is_target, agreed.is_wanted, agreed.body,
  agreed.http_method,
)

pub is_missing-from_error :
    (V : Vendor) (e : V.Error) → is_missing V e ≡ true → V.from_error e ≡ some V.not_found
unfolding is_missing
is_missing-from_error V e h = ground arith

module _ {V : Vendor} (env : Env V) (initial : JobTable) (F : IsFaithful initial env) where
  JobRun-keeps :
      (parent n : String) (wanted : Job) (h : History V) (out : Result V.Error Job × History V)
      {job last : Job}
      → jobs initial h n ≡ some job
      → Agrees wanted job
      → JobRun env parent n wanted h out
      → out.0 ≡ ok last
      → out ≡ (ok job, got_job n (ok job) ∷ dialled_on h)
  JobRun-keeps parent n wanted h out held agreed (undialled e _ p) = rw p λ r. cc
  JobRun-keeps parent n wanted h out held agreed (unread e _ _ p) = rw p λ r. cc
  JobRun-keeps parent n wanted h out held agreed (untargeted x _ _ p) = rw p λ r. cc
  JobRun-keeps parent n wanted h out {job} held agreed (kept x t u found _ _ _ p) =
      λ r. let same : x ≡ job = cc ((F.get_found (dialled_on h) n x found).0, held) in rw (p, same)
  JobRun-keeps parent n wanted h out held agreed (created e a failed missing _ p) = λ r.
      absurd
        (cc (F.get_missing (dialled_on h) n e failed (is_missing-from_error V e missing), held))
  JobRun-keeps parent n wanted h out {job} held agreed (updated x t u a found q s differs _ p) =
      λ r.
        let same : x ≡ job = cc ((F.get_found (dialled_on h) n x found).0, held) in
        absurd (cc (Agrees-needs_update V wanted x t u (rw same agreed) q s, differs))

  -- Where the client is made and the lookup is answered with a job, `reconcileJob` comes to the same
  -- end.
  JobRun-finds :
      (parent n : String) (wanted : Job) (h : History V) (out : Result V.Error Job × History V)
      {job found : Job}
      → jobs initial h n ≡ some job
      → Agrees wanted job
      → env.new_scheduler_client h ≡ ok tt
      → env.get_job (dialled_on h) n ≡ ok found
      → JobRun env parent n wanted h out
      → out.0 ≡ ok job
  JobRun-finds parent n wanted h out held agreed dials answer (undialled e p _) = cc (p, dials)
  JobRun-finds parent n wanted h out held agreed dials answer (unread e p _ _) = cc (p, answer)
  JobRun-finds parent n wanted h out held agreed dials answer (created e a p _ _ _) = cc (p, answer)
  JobRun-finds parent n wanted h out {job} held agreed dials answer (untargeted x found q p) =
      let same : x ≡ job = cc ((F.get_found (dialled_on h) n x found).0, held) in
      absurd (cc (ap get_http_target same, q, agreed.is_target))
  JobRun-finds parent n wanted h out {job} held agreed dials answer (kept x t u found _ _ _ p) =
      let same : x ≡ job = cc ((F.get_found (dialled_on h) n x found).0, held) in rw (p, same)
  JobRun-finds parent n wanted h out {job} held agreed dials answer
        (updated x t u a found q s differs _ p) =
      let same : x ≡ job = cc ((F.get_found (dialled_on h) n x found).0, held) in
      absurd (cc (Agrees-needs_update V wanted x t u (rw same agreed) q s, differs))

  pub reconcile_job-finds :
      (name : String) (spec : CloudSchedulerSourceSpec) (target : String) (h : History V)
      {job found : Job}
      → jobs initial h (job_name_of spec name) ≡ some job
      → Agrees (create_job_proto V (job_name_of spec name) spec target) job
      → env.new_scheduler_client h ≡ ok tt
      → env.get_job (dialled_on h) (job_name_of spec name) ≡ ok found
      → (reconcile_job env name spec target h).0 ≡ ok job
  reconcile_job-finds name spec target h held agreed dials answer =
      JobRun-finds (parent_of spec) _ _ h _ held agreed dials answer
        (reconcile_job-JobRun env name spec target h)

  -- If Cloud Scheduler holds a job that agrees with the source, to whatever URI it sends, then a
  -- `reconcileJob` that succeeds returns that job and writes nothing.
  pub reconcile_job-keeps :
      (name : String) (spec : CloudSchedulerSourceSpec) (target : String) (h : History V)
      {job last : Job}
      → jobs initial h (job_name_of spec name) ≡ some job
      → Agrees (create_job_proto V (job_name_of spec name) spec target) job
      → (reconcile_job env name spec target h).0 ≡ ok last
      → reconcile_job env name spec target h
        ≡ (ok job, got_job (job_name_of spec name) (ok job) ∷ dialled_on h)
  reconcile_job-keeps name spec target h held agreed =
      JobRun-keeps (parent_of spec) _ _ h _ held agreed
        (reconcile_job-JobRun env name spec target h)

  -- A second `reconcileJob` of the same source, if it succeeds too, returns the same job and writes
  -- nothing.
  reconcile_job_twice :
      (name : String) (spec : CloudSchedulerSourceSpec) (target : String) (h : History V)
      {job last : Job} {h' : History V}
      → reconcile_job env name spec target h ≡ (ok job, h')
      → (reconcile_job env name spec target h').0 ≡ ok last
      → reconcile_job env name spec target h'
        ≡ (ok job, got_job (job_name_of spec name) (ok job) ∷ dialled_on h')
  reconcile_job_twice name spec target h {job} {h'} first =
      let (held, agreed) =
        reconcile_job-outcome env initial F name spec target h (ap (λ r. r.0) first) in
      reconcile_job-keeps name spec target h' (rw first at held) agreed
