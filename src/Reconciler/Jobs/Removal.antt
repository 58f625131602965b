-- ===== src/Reconciler/Jobs/Removal.antt =====
-- What `deleteJob` does, on each of its ways.
use csr.Base.{
  String, ◌≡◌, ◌≢◌, refl, true, false, none, Result, ok, err, ◌∷◌, inl, inr, Result-cases,
  Bool-cases, arith, string_eq,
}
use csr.Api.{CloudSchedulerSource}
use csr.Platform.{Vendor, Env, History, dialled, deleted_job}
use csr.Platform.Jobs.{JobTable, jobs, IsFaithful}
use csr.Reconciler.Jobs.{job_name_of, is_missing, remove_job, deleted_or_missing}
use csr.Reconciler.Jobs.Calls.{dialled_on}
use csr.Reconciler.Jobs.Again.{is_missing-from_error}

abbrev pub job_name : CloudSchedulerSource → String
job_name csr = job_name_of csr.spec csr.object_meta.name

abbrev Outcome : Vendor → Type 0
Outcome V = Result V.Error (Unit {0}) × History V

-- The run `out` of `deleteJob` of the job `n` from `h`.
pub data RemovalRun {V : Vendor} (env : Env V) (n : String) (h : History V) (out : Outcome V)
    : Type 0 where
  undialled :
      (e : V.Error)
      → env.new_scheduler_client h ≡ err e
      → out ≡ (err e, dialled (err e) ∷ h)
      → RemovalRun env n h out
  removed :
      env.delete_job (dialled_on h) n ≡ ok tt
      → out ≡ (ok tt, deleted_job n (ok tt) ∷ dialled_on h)
      → RemovalRun env n h out
  absent :
      (e : V.Error)
      → env.delete_job (dialled_on h) n ≡ err e
      → is_missing V e ≡ true
      → out ≡ (ok tt, deleted_job n (err e) ∷ dialled_on h)
      → RemovalRun env n h out
  refused :
      (e : V.Error)
      → env.delete_job (dialled_on h) n ≡ err e
      → is_missing V e ≡ false
      → out ≡ (err e, deleted_job n (err e) ∷ dialled_on h)
      → RemovalRun env n h out

module _ {V : Vendor} (env : Env V) (csr : CloudSchedulerSource) (h : History V) where
  after_delete : Result V.Error (Unit {0}) → Outcome V
  after_delete r = deleted_or_missing env r (deleted_job (job_name csr) r ∷ dialled_on h)

  after_delete-RemovalRun :
      (r : Result V.Error (Unit {0}))
      → env.delete_job (dialled_on h) (job_name csr) ≡ r
      → RemovalRun env (job_name csr) h (after_delete r)
  unfolding after_delete deleted_or_missing
  after_delete-RemovalRun (ok _) done = removed done refl
  after_delete-RemovalRun (err e) failed = elim (Bool-cases (is_missing V e)) [
    | inl missing ↦ absent e failed missing (rw missing)
    | inr other ↦ refused e failed other (rw other)
  ]

  pub remove_job-of_undialled :
      (e : V.Error)
      → env.new_scheduler_client h ≡ err e
      → remove_job env csr h ≡ (err e, dialled (err e) ∷ h)
  unfolding remove_job
  remove_job-of_undialled e p = rw p

  pub remove_job-of_refused :
      (e : V.Error)
      → env.new_scheduler_client h ≡ ok tt
      → env.delete_job (dialled_on h) (job_name csr) ≡ err e
      → is_missing V e ≡ false
      → remove_job env csr h ≡ (err e, deleted_job (job_name csr) (err e) ∷ dialled_on h)
  unfolding remove_job deleted_or_missing
  remove_job-of_refused e p q other = rw (p, q, other)

  -- Every run of `deleteJob` is one of these, whatever the services answer: it succeeds if the job
  -- was deleted or was not there, and in no other case.
  pub remove_job-RemovalRun : RemovalRun env (job_name csr) h (remove_job env csr h)
  unfolding remove_job after_delete
  remove_job-RemovalRun = elim (Result-cases (env.new_scheduler_client h)) [
    | inl (_, p) ↦ rw p (after_delete-RemovalRun _ refl)
    | inr (e, p) ↦ undialled e p (rw p)
  ]

module _ {V : Vendor} (env : Env V) (initial : JobTable) where
  RemovalRun-frame :
      (n : String) (h : History V) (out : Outcome V) (other : String)
      → other ≢ n
      → RemovalRun env n h out
      → jobs initial out.1 other ≡ jobs initial h other
  RemovalRun-frame n h out other d (undialled e _ p) = rw p
  RemovalRun-frame n h out other d (removed _ p) = rw p (ground arith)
  RemovalRun-frame n h out other d (absent e _ _ p) = rw p
  RemovalRun-frame n h out other d (refused e _ _ p) = rw p

  RemovalRun-error :
      (n : String) (h : History V) (out : Outcome V) (e : V.Error) (other : String)
      → RemovalRun env n h out
      → out.0 ≡ err e
      → jobs initial out.1 other ≡ jobs initial h other
  RemovalRun-error n h out e other (undialled _ _ p) = rw p (λ _. refl)
  RemovalRun-error n h out e other (removed _ p) = rw p (λ r. cc)
  RemovalRun-error n h out e other (absent _ _ _ p) = rw p (λ _. refl)
  RemovalRun-error n h out e other (refused _ _ _ p) = rw p (λ _. refl)

  -- Every job with another name than the source's is as it was, whatever the answers.
  pub remove_job-frame :
      (csr : CloudSchedulerSource) (h : History V) (other : String)
      → other ≢ job_name csr
      → jobs initial (remove_job env csr h).1 other ≡ jobs initial h other
  remove_job-frame csr h other d =
      RemovalRun-frame (job_name csr) h _ other d (remove_job-RemovalRun env csr h)

  -- A `deleteJob` that fails has left every job as it was.
  pub remove_job-error :
      (csr : CloudSchedulerSource) (h : History V) (e : V.Error) (other : String)
      → (remove_job env csr h).0 ≡ err e
      → jobs initial (remove_job env csr h).1 other ≡ jobs initial h other
  remove_job-error csr h e other =
      RemovalRun-error (job_name csr) h _ e other (remove_job-RemovalRun env csr h)

module _ {V : Vendor} (env : Env V) (initial : JobTable) (F : IsFaithful initial env) where
  RemovalRun-outcome :
      (n : String) (h : History V) (out : Outcome V)
      → RemovalRun env n h out
      → out.0 ≡ ok tt
      → jobs initial out.1 n ≡ none
  RemovalRun-outcome n h out (undialled _ _ p) = rw p (λ r. cc)
  RemovalRun-outcome n h out (removed _ p) = rw p (λ _. ground arith)
  RemovalRun-outcome n h out (absent e failed missing p) =
      rw p (λ _. F.delete_missing (dialled_on h) n e failed (is_missing-from_error V e missing))
  RemovalRun-outcome n h out (refused _ _ _ p) = rw p (λ r. cc)

  -- When `deleteJob` succeeds, Cloud Scheduler holds no job under the source's job name.
  pub remove_job-outcome :
      (csr : CloudSchedulerSource) (h : History V)
      → (remove_job env csr h).0 ≡ ok tt
      → jobs initial (remove_job env csr h).1 (job_name csr) ≡ none
  remove_job-outcome csr h = RemovalRun-outcome (job_name csr) h _ (remove_job-RemovalRun env csr h)
