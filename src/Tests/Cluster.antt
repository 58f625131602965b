-- ===== src/Tests/Cluster.antt =====
-- A cluster that answers as it should: its cache, its sink and its service are given, and Cloud
-- Scheduler answers from the jobs that the calls so far have left.
use csr.Base.{
  String, ◌≡◌, refl, Option, none, some, [], Result, ok, err, ◌==◌, string_eq, if◌then◌else◌, arith,
}
use csr.Api.{CloudSchedulerSource, CloudSchedulerSourceSpec, CloudSchedulerSourceStatus}
use csr.Api.Meta.{Slice, nil_slice}
use csr.Reconciler.Services.{make_service}
use csr.Reconciler.Jobs.{create_job_proto}
use csr.Api.Job.{Job}
use csr.Api.Serving.{Service}
use csr.Platform.{Env}
use csr.Platform.Jobs.{JobTable, jobs, IsFaithful}
use csr.Lister.{cache_key}
use csr.Tests.Vendor.{sample, SampleError, status, plain}

pub record Cluster : Type 0 where
  pub source : Option CloudSchedulerSource
  pub service : Result SampleError Service
  pub initial : JobTable

-- A job under another name than its own is no answer.
unfoldable pub named_job : String → Option Job → Result SampleError Job
named_job n none = err (status 5)
named_job n (some job) = if job.name == n then ok job else err (plain "misplaced job")

unfoldable pub removal_of : Option Job → Result SampleError (Unit {0})
removal_of none = err (status 5)
removal_of (some _) = ok tt

abbrev pub cluster_env : Cluster → Env sample
cluster_env c = record {
  get_by_key = λ h key. if key == cache_key "default" "clock" then ok c.source else ok none;
  get_object = λ h gvr ns name. ok "sink.example.com";
  get_service = λ h ns name. c.service;
  create_service = λ h ns service. ok (record service { domain = "clock.example.com" });
  new_scheduler_client = λ h. ok tt;
  get_job = λ h name. named_job name (jobs c.initial h name);
  create_job = λ h parent job. ok job;
  update_job = λ h job. ok job;
  delete_job = λ h name. removal_of (jobs c.initial h name);
  update_source = λ h ns source. ok source;
}

named_job-ok :
    (n : String) (o : Option Job) (job : Job)
    → named_job n o ≡ ok job
    → (o ≡ some job) × (job.name ≡ n)
unfolding named_job
named_job-ok n none job h = cc
named_job-ok n (some j) job h = ground arith

named_job-missing :
    (n : String) (o : Option Job) (e : SampleError)
    → named_job n o ≡ err e
    → sample.from_error e ≡ some 5
    → o ≡ none
unfolding named_job
named_job-missing n none e h k = refl
named_job-missing n (some j) e h k = ground arith

removal_of-missing : (o : Option Job) (e : SampleError) → removal_of o ≡ err e → o ≡ none
unfolding removal_of
removal_of-missing none e h = refl
removal_of-missing (some j) e h = cc

pub cluster-IsFaithful : (c : Cluster) → IsFaithful c.initial (cluster_env c)
cluster-IsFaithful c = record {
  get_found = λ h name job p. named_job-ok name _ job p;
  get_missing = λ h name e p q. named_job-missing name _ e p q;
  create_stores = λ h parent job stored p. cc;
  update_stores = λ h job stored p. cc;
  delete_missing = λ h name e p q. removal_of-missing _ e p;
}

abbrev pub clock_spec : CloudSchedulerSourceSpec
clock_spec = record {
  service_account_name = "";
  google_cloud_project = "p";
  location = "l";
  schedule = "every 1 mins";
  time_zone = "";
  http_method = "";
  body = "tick";
  sink = some (record {
    kind = "Channel";
    namespace = "";
    name = "out";
    uid = "";
    api_version = "v1";
    resource_version = "";
    field_path = "";
  });
}

-- A source of the cluster, by its deletion timestamp, its finalizers and its status.
abbrev pub clock : Option String → Slice String → CloudSchedulerSourceStatus → CloudSchedulerSource
clock deletion names reported = record {
  type_meta = record { kind = "CloudSchedulerSource"; api_version = "sources.aikas.org/v1alpha1" };
  object_meta = record {
    name = "clock";
    namespace = "default";
    uid = "u1";
    resource_version = "7";
    deletion_timestamp = deletion;
    labels = [];
    annotations = [];
    owner_references = [];
    finalizers = names;
  };
  spec = clock_spec;
  status = reported;
}

abbrev pub clock_job : String
clock_job = "projects/p/locations/l/jobs/clock"

-- The status of a source that has been reconciled.
abbrev pub settled : CloudSchedulerSourceStatus
settled = record { job = clock_job; sink_uri = "http://sink.example.com/" }

abbrev pub blank : CloudSchedulerSourceStatus
blank = record { job = ""; sink_uri = "" }

abbrev pub adapter : Service
adapter = record (make_service sample (clock none nil_slice settled) "image") {
  domain = "clock.example.com";
}

abbrev pub no_jobs : JobTable
no_jobs n = none

-- The job of the source, with the URI that it sends to.
abbrev pub job_to : String → Job
job_to uri = create_job_proto sample clock_job clock_spec uri

abbrev pub one_job : String → JobTable
one_job uri n = if n == clock_job then some (job_to uri) else none
