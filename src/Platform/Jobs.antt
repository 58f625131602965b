-- ===== src/Platform/Jobs.antt =====
-- The jobs that Cloud Scheduler holds, as the calls answered so far have left them, and what is
-- assumed of its answers.
use csr.Base.{
  String, ◌≡◌, Option, none, some, [], ◌∷◌, Result, ok, err, ◌==◌, string_eq, if◌then◌else◌,
}
use csr.Api.Job.{Job}
use csr.Platform.{
  Vendor, Env, Event, History, created_job, updated_job, deleted_job, handled, looked_up, fetched,
  got_service, created_service, dialled, got_job, updated_source,
}

abbrev pub JobTable : Type 0
JobTable = String → Option Job

abbrev pub put : String → Option Job → JobTable → JobTable
put name job table n = if n == name then job else table n

-- The table after a job was sent, with the answer.
abbrev pub if_stored : {E : Type 0} → Job → Result E Job → JobTable → JobTable
if_stored job (ok stored) table = put job.name (some stored) table
if_stored job (err _) table = table

abbrev pub if_deleted : {E A : Type 0} → String → Result E A → JobTable → JobTable
if_deleted name (ok _) table = put name none table
if_deleted name (err _) table = table

-- A failed call is taken to have done nothing.
abbrev pub apply : {V : Vendor} → Event V → JobTable → JobTable
apply (created_job _ job answer) table = if_stored job answer table
apply (updated_job job answer) table = if_stored job answer table
apply (deleted_job name answer) table = if_deleted name answer table
apply (handled _) table = table
apply (looked_up _ _) table = table
apply (fetched _ _ _ _) table = table
apply (got_service _ _ _) table = table
apply (created_service _ _ _) table = table
apply (dialled _) table = table
apply (got_job _ _) table = table
apply (updated_source _ _ _) table = table

module _ {V : Vendor} (initial : JobTable) where
  abbrev pub jobs : History V → JobTable
  jobs [] = initial
  jobs (e ∷ h) = apply e (jobs h)

  -- The answers of Cloud Scheduler fit the jobs that it holds under their names, and a job is
  -- stored as it was sent.
  pub record IsFaithful (env : Env V) : Type 0 where
    pub get_found :
        (h : History V) (name : String) (job : Job)
        → env.get_job h name ≡ ok job
        → (jobs h name ≡ some job) × (job.name ≡ name)
    pub get_missing :
        (h : History V) (name : String) (e : V.Error)
        → env.get_job h name ≡ err e
        → V.from_error e ≡ some V.not_found
        → jobs h name ≡ none
    pub create_stores :
        (h : History V) (parent : String) (job stored : Job)
        → env.create_job h parent job ≡ ok stored
        → stored ≡ job
    pub update_stores :
        (h : History V) (job stored : Job) → env.update_job h job ≡ ok stored → stored ≡ job
    pub delete_missing :
        (h : History V) (name : String) (e : V.Error)
        → env.delete_job h name ≡ err e
        → V.from_error e ≡ some V.not_found
        → jobs h name ≡ none
