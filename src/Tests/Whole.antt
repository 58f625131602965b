-- ===== src/Tests/Whole.antt =====
-- One call of Cloud Scheduler on its way from the job of a new source to the source's sink.
use mathlib.Core.Bool.{false≢true}
use text.Mathlib.TextEquality.{eq_iff}
use csr.Base.{String, ◌≡◌, ◌≢◌, refl, ap, none, some, [], ◌∷◌, ok, err, string_eq}
use csr.Api.Meta.{ObjectReference}
use csr.Api.Serving.{Service}
use csr.Adapter.{CloudSchedulerReceiveAdapter, serve_http, context_at}
use csr.Adapter.Delivery.{sent}
use csr.Commands.ReceiveAdapter.{main, serving}
use csr.Delivery.{Deploys, reconcile-delivers}
use csr.Lister.{cache_key}
use csr.Lister.Laws.{cached}
use csr.Platform.{Env, History}
use csr.Platform.Jobs.{jobs}
use csr.Reconciler.Jobs.{create_job_proto}
use csr.Reconciler.Loop.{reconcile}
use csr.Reconciler.Loop.Key.{looked}
use csr.Reconciler.Loop.Source.{served, marked}
use csr.Reconciler.Services.{make_service}
use csr.Reconciler.Sinks.{http_uri}
use csr.Reconciler.Sinks.Laws.{Resolves}
use csr.Tests.Vendor.{sample, gone}
use csr.Tests.Cluster.{
  Cluster, adapter, cluster_env, cluster-IsFaithful, no_jobs, clock_job, clock_spec,
}
use csr.Tests.Runs.{run, new_source, fresh, key_splits}
use csr.Tests.Deliveries.{plain_web, plain_net, tick, named_42, parse_one, parse_one-ReadsFlag}

abbrev unserving : Cluster
unserving = record fresh { service = err gone }

abbrev env : Env sample
env = cluster_env fresh

-- The services at the time of the earlier Reconcile, when there was no service yet;
-- the server answers a creation with the service as it was sent.
abbrev earlier_env : Env sample
earlier_env = record (cluster_env unserving) { create_service = λ h ns service. ok service }

-- The service that the earlier Reconcile sent
abbrev sent_service : Service
sent_service =
    make_service sample (marked earlier_env "image" new_source [] (http_uri "sink.example.com"))
      "image"

abbrev asked : History sample
asked = looked env "default" "clock" []

fresh_caches :
    cached sample "clock" (env.get_by_key [] (cache_key "default" "clock")) ≡ ok new_source
unfolding run
fresh_caches = refl

fresh-Deploys : Deploys env "image" new_source asked (http_uri "sink.example.com")
unfolding run
fresh-Deploys = record {
  earlier = earlier_env;
  image = "image";
  source = new_source;
  before = [];
  error = gone;
  lacks = refl;
  missing = refl;
  created = sent_service;
  creates = refl;
  existing = adapter;
  found = refl;
  keeps = λ k ns service p. let same : sent_service ≡ service = cc in ap (λ s. s.run_latest) same;
}

abbrev channel : ObjectReference
channel = record {
  kind = "Channel";
  namespace = "";
  name = "out";
  uid = "";
  api_version = "v1";
  resource_version = "";
  field_path = "";
}

host-eq : ◌≢◌ {A = String} "sink.example.com" ""
host-eq p = false≢true ((eq_iff "sink.example.com" "").1 p)

channel-Resolves : Resolves env channel "default" asked "sink.example.com"
channel-Resolves = record {
  has_client = refl;
  object = "sink.example.com";
  answer = refl;
  address = refl;
  not_empty = host-eq;
}

succeeds : (reconcile env "image" "default/clock" []).0 ≡ ok tt
unfolding run
succeeds = refl

abbrev forwarding : CloudSchedulerReceiveAdapter plain_web
forwarding = record { sink = http_uri "sink.example.com"; client = none }

reconcile-delivers_example :
    (service : Service) × ((served env "image" new_source asked (http_uri "sink.example.com")).0
      ≡ ok service)
    × (jobs no_jobs (reconcile env "image" "default/clock" []).1 clock_job
        ≡ some (create_job_proto sample clock_job clock_spec (http_uri service.domain)))
    × (main plain_web parse_one (λ variable. "9090") service.run_latest.container.args
        ≡ serving ":8080" forwarding)
    × (sent (serve_http plain_net forwarding tick []).1
        ≡ (http_uri "sink.example.com", ("tick", context_at plain_net "42" 7)) ∷ [])
reconcile-delivers_example =
    reconcile-delivers env "image" no_jobs (cluster-IsFaithful fresh) "default/clock" "default"
      "clock" new_source [] key_splits fresh_caches refl refl channel "sink.example.com"
      fresh-Deploys refl channel-Resolves succeeds plain_web parse_one (λ variable. "9090")
      (parse_one-ReadsFlag "sink") plain_net tick "tick" "42" []
      (http_uri "sink.example.com", ("tick", context_at plain_net "42" 7)) refl named_42 refl
