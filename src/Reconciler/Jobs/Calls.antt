-- ===== src/Reconciler/Jobs/Calls.antt =====
-- The calls that `reconcileJob` makes: a relation between the history before it and what it
-- returns, with one case for each way through the method.
use csr.Base.{
  String, ◌<>◌, ◌⊎◌, ◌≡◌, refl, true, false, none, some, Result, ok, err, ◌∷◌, inl, inr,
  Result-cases, Bool-cases,
}
use csr.Api.{CloudSchedulerSourceSpec}
use csr.Api.Job.{Job, HttpTarget, Target, unset, http, pubsub, app_engine, http_of, get_http_target}
use csr.Platform.{Vendor, Env, History, dialled, got_job, created_job, updated_job}
use csr.Reconciler.Jobs.{
  parent_of, job_name_of, create_job_proto, needs_update, is_missing, reconcile_job,
  existing_or_new, http_target,
}

abbrev Outcome : Vendor → Type 0
Outcome V = Result V.Error Job × History V

-- The error at a job whose target is no HTTP target.
abbrev pub no_http_target : (V : Vendor) → Job → V.Error
no_http_target V job =
    V.errorf ("missing http target in the existing scheduler proto: " <> V.job_text job)

-- The history once the client is there.
abbrev pub dialled_on : {V : Vendor} → History V → History V
dialled_on h = dialled (ok tt) ∷ h

Target-cases : (x : Target) → ((t : HttpTarget) × (http_of x ≡ some t)) ⊎ (http_of x ≡ none)
Target-cases unset = inr refl
Target-cases (http t) = inl (t, refl)
Target-cases (pubsub _) = inr refl
Target-cases (app_engine _) = inr refl

-- The run `out` of `reconcileJob` under the job's name `n`, where `wanted` with the HTTP target
-- `sent` is the job that the source describes.
pub data JobRun {V : Vendor} (env : Env V) (parent n : String) (wanted : Job) (h : History V)
    (out : Outcome V) : Type 0 where
  undialled :
      (e : V.Error)
      → env.new_scheduler_client h ≡ err e
      → out ≡ (err e, dialled (err e) ∷ h)
      → JobRun env parent n wanted h out
  unread :
      (e : V.Error)
      → env.get_job (dialled_on h) n ≡ err e
      → is_missing V e ≡ false
      → out ≡ (err e, got_job n (err e) ∷ dialled_on h)
      → JobRun env parent n wanted h out
  created :
      (e : V.Error) (answer : Result V.Error Job)
      → env.get_job (dialled_on h) n ≡ err e
      → is_missing V e ≡ true
      → env.create_job (got_job n (err e) ∷ dialled_on h) parent wanted ≡ answer
      → out ≡ (answer, created_job parent wanted answer ∷ got_job n (err e) ∷ dialled_on h)
      → JobRun env parent n wanted h out
  untargeted :
      (existing : Job)
      → env.get_job (dialled_on h) n ≡ ok existing
      → get_http_target existing ≡ none
      → out ≡ (err (no_http_target V existing), got_job n (ok existing) ∷ dialled_on h)
      → JobRun env parent n wanted h out
  kept :
      (existing : Job) (t sent : HttpTarget)
      → env.get_job (dialled_on h) n ≡ ok existing
      → get_http_target existing ≡ some t
      → get_http_target wanted ≡ some sent
      → needs_update V wanted sent existing t ≡ false
      → out ≡ (ok existing, got_job n (ok existing) ∷ dialled_on h)
      → JobRun env parent n wanted h out
  updated :
      (existing : Job) (t sent : HttpTarget) (answer : Result V.Error Job)
      → env.get_job (dialled_on h) n ≡ ok existing
      → get_http_target existing ≡ some t
      → get_http_target wanted ≡ some sent
      → needs_update V wanted sent existing t ≡ true
      → env.update_job (got_job n (ok existing) ∷ dialled_on h) wanted ≡ answer
      → out ≡ (answer, updated_job wanted answer ∷ got_job n (ok existing) ∷ dialled_on h)
      → JobRun env parent n wanted h out

module _ {V : Vendor} (env : Env V) (name : String) (spec : CloudSchedulerSourceSpec)
    (target : String) (h : History V) where
  abbrev n : String
  n = job_name_of spec name

  abbrev wanted : Job
  wanted = create_job_proto V n spec target

  abbrev IsRun : Outcome V → Type 0
  IsRun out = JobRun env (parent_of spec) n wanted h out

  after_get : Result V.Error Job → Outcome V
  after_get r = existing_or_new env (parent_of spec) n spec target r (got_job n r ∷ dialled_on h)

  existing-JobRun :
      (existing : Job)
      → env.get_job (dialled_on h) n ≡ ok existing
      → IsRun (after_get (ok existing))
  unfolding after_get existing_or_new
  existing-JobRun existing found = elim (Target-cases existing.target) [
    | inl (t, e) ↦ elim (Bool-cases (needs_update V wanted sent existing t)) [
      | inl differs ↦ updated existing t sent _ found e refl differs refl (rw (e, differs))
      | inr same ↦ kept existing t sent found e refl same (rw (e, same))
    ]
    | inr e ↦ untargeted existing found e (rw e)
  ]
    where
      sent : HttpTarget
      sent = http_target V spec target

  missing-JobRun : (e : V.Error) → env.get_job (dialled_on h) n ≡ err e → IsRun (after_get (err e))
  unfolding after_get existing_or_new
  missing-JobRun e failed = elim (Bool-cases (is_missing V e)) [
    | inl missing ↦ created e _ failed missing refl (rw missing)
    | inr other ↦ unread e failed other (rw other)
  ]

  after_get-JobRun :
      (r : Result V.Error Job) → env.get_job (dialled_on h) n ≡ r → IsRun (after_get r)
  after_get-JobRun (ok existing) found = existing-JobRun existing found
  after_get-JobRun (err e) failed = missing-JobRun e failed

  -- Every run of `reconcileJob` is one of these, whatever the services answer: the job is created
  -- only after an answer that there is none, and updated only where a field that counts differs.
  pub reconcile_job-JobRun : IsRun (reconcile_job env name spec target h)
  unfolding reconcile_job after_get
  reconcile_job-JobRun = elim (Result-cases (env.new_scheduler_client h)) [
    | inl (_, p) ↦ rw p (after_get-JobRun _ refl)
    | inr (e, p) ↦ undialled e p (rw p)
  ]
