-- ===== src/Tests/Runs.antt =====
-- Whole runs of `Reconcile` in the sample cluster.
use mathlib.Core.Bool.{false≢true}
use text.Mathlib.TextEquality.{eq_iff}
use native.Mathlib.Decide.{ℕ_discrete}
use csr.Base.{
  String, ◌≡◌, ◌≢◌, refl, none, some, [], ◌∷◌, Result, ok, err, string_eq, nat_eq, String-discrete,
  arith,
}
use csr.Base.Order.{before}
use csr.Api.{CloudSchedulerSource, CloudSchedulerSourceStatus-discrete}
use csr.Api.Meta.{ObjectMeta-discrete, OwnerReference-discrete, Bool_dec, nil_slice, slice}
use csr.Lister
use csr.Lister.Laws.{cached}
use csr.Platform.{Env, History}
use csr.Reconciler.Finalizers.{finalizer_name, add_finalizer, remove_finalizer}
use csr.Reconciler.Sinks.{get_sink_uri}
use csr.Reconciler.Services.{make_service, reconcile_service}
use csr.Reconciler.Jobs.{
  create_job_proto, http_target, needs_update, is_missing, reconcile_job, remove_job,
}
use csr.Reconciler.Jobs.Outcome.{Agrees}
use csr.Reconciler.Updates.{update}
use csr.Reconciler.Loop.{reconcile, reconcile_cloud_scheduler_source}
use csr.Reconciler.Loop.Guard.{IsSteady}
use csr.Tests.Vendor.{SampleError, gone, plain, sample, sort, without}
use csr.Tests.Cluster.{
  Cluster, cluster_env, clock, settled, blank, adapter, no_jobs, job_to, one_job, clock_job,
  clock_spec, named_job, removal_of,
}

abbrev pub Answer : Type 0
Answer = Result SampleError (Unit {0}) × History sample

-- `Reconcile` of the sample source; all that it calls unfolds with it.
unfoldable pub run : Env sample → History sample → Answer
unfolding reconcile reconcile_cloud_scheduler_source Lister.get add_finalizer remove_finalizer
    get_sink_uri reconcile_service make_service reconcile_job remove_job create_job_proto
    http_target needs_update is_missing update named_job removal_of String-discrete
    CloudSchedulerSourceStatus-discrete ObjectMeta-discrete OwnerReference-discrete Bool_dec
    string_eq nat_eq ℕ_discrete before sort without
run env h = reconcile env "image" "default/clock" h

-- A new source, whose job is not there yet.
abbrev pub new_source : CloudSchedulerSource
new_source = clock none nil_slice blank

abbrev pub fresh : Cluster
fresh = record { source = some new_source; service = ok adapter; initial = no_jobs }

-- A source that is being deleted, with its job.
abbrev pub old_source : CloudSchedulerSource
old_source = clock (some "now") (slice (finalizer_name ∷ "other" ∷ [])) settled

-- Another one that is being deleted
abbrev pub bell : CloudSchedulerSource
bell = record old_source { object_meta = record old_source.object_meta { name = "bell" } }

abbrev pub doomed : Cluster
doomed = record { source = some old_source; service = ok adapter; initial = one_job "http://a/" }

pub key_splits : sample.split_meta_namespace_key "default/clock" ≡ ok ("default", "clock")
unfolding run
key_splits = refl

pub fresh_is_cached :
    cached sample "clock" ((cluster_env fresh).get_by_key [] (Lister.cache_key "default" "clock"))
    ≡ ok new_source
unfolding run
fresh_is_cached = refl

pub doomed_is_cached :
    cached sample "clock" ((cluster_env doomed).get_by_key [] (Lister.cache_key "default" "clock"))
    ≡ ok old_source
unfolding run
doomed_is_cached = refl

pub fresh_succeeds : (run (cluster_env fresh) []).0 ≡ ok tt
unfolding run
fresh_succeeds = refl

pub doomed_succeeds : (run (cluster_env doomed) []).0 ≡ ok tt
unfolding run
doomed_succeeds = refl

-- The source once it has been reconciled
abbrev pub calm_source : CloudSchedulerSource
calm_source = clock none (slice (finalizer_name ∷ [])) settled

abbrev pub calm : Cluster
calm = record { source = some calm_source; service = ok adapter; initial = one_job "http://old/" }

-- The services at fault: no client of Cloud Scheduler, no sink, no service.
abbrev pub undialled : Env sample
undialled = record (cluster_env doomed) { new_scheduler_client = λ h. err (plain "no credentials") }

abbrev pub unresolved : Env sample
unresolved = record (cluster_env fresh) { get_object = λ h gvr ns name. err gone }

abbrev pub unserved : Env sample
unserved = record (cluster_env fresh) { get_service = λ h ns name. err (plain "down") }

pub other_job : ◌≢◌ {A = String} "projects/p/locations/l/jobs/other" clock_job
other_job p = false≢true ((eq_iff "projects/p/locations/l/jobs/other" clock_job).1 p)

only_cached :
    (h : History sample) (key : String) (csr : CloudSchedulerSource)
    → (cluster_env doomed).get_by_key h key ≡ ok (some csr)
    → (key ≡ "default/clock") × (csr ≡ old_source)
only_cached h key csr p = ground arith

pub doomed-IsSteady : IsSteady (cluster_env doomed) (λ key. clock_job)
doomed-IsSteady = record {
  cached_as = λ h key csr p. let (at, same) = only_cached h key csr p in rw (at, same) (refl, refl);
}

pub has_domain : ◌≢◌ {A = String} "clock.example.com" ""
has_domain p = false≢true ((eq_iff "clock.example.com" "").1 p)

-- A job of the source that sends to another URI agrees with it.
pub old-Agrees :
    Agrees
      (create_job_proto sample clock_job clock_spec "http://clock.example.com/")
      (job_to "http://old/")
unfolding create_job_proto
old-Agrees = record {
  name = refl;
  schedule = refl;
  time_zone = refl;
  target = http_target sample clock_spec "http://old/";
  wanted = http_target sample clock_spec "http://clock.example.com/";
  is_target = refl;
  is_wanted = refl;
  body = unfold http_target in refl;
  http_method = unfold http_target in refl;
}
