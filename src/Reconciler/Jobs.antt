-- ===== src/Reconciler/Jobs.antt =====
-- The Cloud Scheduler job: `createJobProto`, `reconcileJob` and `deleteJob` of
-- pkg/reconciler/cloudschedulersource/cloudschedulersource.go.
pub mod Outcome
pub mod Calls
pub mod Frame
pub mod Again
pub mod Removal
use csr.Base.{
  String, ◌<>◌, ℕ, Bool, false, not, ◌||◌, Option, none, some, Result, ok, err, pure, fail, attempt,
  ◌>>=◌, ◌>>◌, if◌then◌else◌, ◌==◌, string_eq, nat_eq,
}
use csr.Api.{CloudSchedulerSource, CloudSchedulerSourceSpec}
use csr.Api.Job.{Job, HttpTarget, http, get_http_target}
use csr.Platform.{
  Vendor, Env, Run, new_scheduler_client, get_job, create_job, update_job, delete_job,
}

abbrev pub parent_of : CloudSchedulerSourceSpec → String
parent_of spec = "projects/" <> (spec.google_cloud_project <> ("/locations/" <> spec.location))

abbrev pub job_name_of : CloudSchedulerSourceSpec → String → String
job_name_of spec name = parent_of spec <> ("/jobs/" <> name)

module _ (V : Vendor) where
  -- What the table gives for a method that is set; POST where it has nothing.
  looked_up_method : Option ℕ → ℕ
  looked_up_method (some m) = m
  looked_up_method none = V.http_method_post

  -- The target of the job: POST by default, and the body only if there is one.
  unfoldable pub http_target : CloudSchedulerSourceSpec → String → HttpTarget
  unfolding looked_up_method
  http_target spec target = record {
    uri = target;
    http_method =
        if spec.http_method == ""
        then V.http_method_post
        else looked_up_method (V.http_method_value spec.http_method);
    body = spec.body;
  }

  unfoldable pub create_job_proto : String → CloudSchedulerSourceSpec → String → Job
  create_job_proto job_name spec target = record {
    name = job_name;
    schedule = spec.schedule;
    time_zone = if spec.time_zone == "" then "UTC" else spec.time_zone;
    target = http (http_target spec target);
  }

  -- The test of `reconcileJob` for an update.
  unfoldable pub needs_update : Job → HttpTarget → Job → HttpTarget → Bool
  needs_update updated updated_target existing existing_target =
      not (updated.schedule == existing.schedule)
      || (not (updated.time_zone == existing.time_zone)
          || (not (updated_target.body == existing_target.body)
              || not (updated_target.http_method == existing_target.http_method)))

  -- The error is a status of the code NotFound.
  unfoldable pub is_missing : V.Error → Bool
  is_missing e = elim (V.from_error e) [ none ↦ false | some code ↦ code == V.not_found ]

module _ {V : Vendor} (env : Env V) where
  -- An existing job: both HTTP targets, then the test.
  with_targets : Job → Job → Option HttpTarget → Option HttpTarget → Run V Job
  unfolding needs_update
  with_targets existing updated none u =
      fail
        (V.errorf ("missing http target in the existing scheduler proto: " <> V.job_text existing))
  with_targets existing updated (some t) none =
      fail (V.errorf ("missing http target in the updated scheduler proto: " <> V.job_text updated))
  with_targets existing updated (some t) (some u) =
      if needs_update V updated u existing t then update_job env updated else pure existing

  existing_or_new :
      String → String → CloudSchedulerSourceSpec → String → Result V.Error Job → Run V Job
  unfolding with_targets create_job_proto is_missing
  existing_or_new parent job_name spec target (ok existing) =
      let updated = create_job_proto V job_name spec target in
      with_targets existing updated (get_http_target existing) (get_http_target updated)
  existing_or_new parent job_name spec target (err e) =
      if is_missing V e
      then create_job env parent (create_job_proto V job_name spec target)
      else fail e

  unfoldable pub reconcile_job : String → CloudSchedulerSourceSpec → String → Run V Job
  unfolding existing_or_new
  reconcile_job name spec target = do
    new_scheduler_client env
    found ← attempt (get_job env (job_name_of spec name))
    existing_or_new (parent_of spec) (job_name_of spec name) spec target found

  deleted_or_missing : Result V.Error (Unit {0}) → Run V (Unit {0})
  unfolding is_missing
  deleted_or_missing (ok _) = pure tt
  deleted_or_missing (err e) = if is_missing V e then pure tt else fail e

  -- `deleteJob`
  unfoldable pub remove_job : CloudSchedulerSource → Run V (Unit {0})
  unfolding deleted_or_missing
  remove_job csr = do
    new_scheduler_client env
    answer ← attempt (delete_job env (job_name_of csr.spec csr.object_meta.name))
    deleted_or_missing answer
