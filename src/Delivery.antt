-- ===== src/Delivery.antt =====
-- The program's parts at work together: what becomes of a call that Cloud Scheduler makes under the
-- job of a new source. pkg/reconciler/cloudschedulersource/cloudschedulersource.go makes the job and
-- the service, cmd/receiveadapter/main.go runs in the service, and its handler is that of
-- pkg/receiveadapter/receiveadapter.go.
use text.Mathlib.TextEquality.{eq_iff}
use text.Mathlib.TextLemmas.{append-eq-nil_iff}
use mathlib.Core.Bool.{false≢true}
use csr.Base.{
  String, ◌<>◌, ◌≡◌, ◌≢◌, refl, sym, ap, ◌∙◌, true, false, none, some, List, [], ◌∷◌, Result, ok,
  err, ◌==◌, string_eq, arith,
}
use csr.Api.{CloudSchedulerSource}
use csr.Api.Job.{Job}
use csr.Api.Meta.{ObjectReference}
use csr.Api.Serving.{Service}
use csr.Lister.{cache_key}
use csr.Lister.Laws.{cached}
use csr.Platform.{Vendor, Env, History, got_service, created_service}
use csr.Platform.Jobs.{JobTable, jobs, IsFaithful}
use csr.Reconciler.Finalizers.{add_finalizer}
use csr.Reconciler.Sinks.{http_uri, get_sink_uri}
use csr.Reconciler.Sinks.Laws.{Resolves, get_sink_uri-of_Resolves}
use csr.Reconciler.Services.{make_service}
use csr.Reconciler.Services.Laws.{
  ServiceRun, after_creation, reconcile_service-of_missing, reconcile_service-ServiceRun,
}
use csr.Reconciler.Jobs.{create_job_proto}
use csr.Reconciler.Jobs.Calls.{JobRun, dialled_on, reconcile_job-JobRun}
use csr.Reconciler.Jobs.Outcome.{reconcile_job-outcome}
use csr.Reconciler.Jobs.Removal.{job_name}
use csr.Reconciler.Loop.{reconcile}
use csr.Reconciler.Loop.Jobs.{reconcile-jobs, served-jobs, succeeded}
use csr.Reconciler.Loop.Key.{looked, processed}
use csr.Reconciler.Loop.Source
use csr.Reconciler.Loop.Source.{
  SourceRun, sunk, marked, served, scheduled, reconcile_source-SourceRun,
}
use csr.Adapter.{
  Web, Network, Request, CloudSchedulerReceiveAdapter, wrote_header, values_of, request_id_header,
  context_at, serve_http,
}
use csr.Adapter.Laws.{body_read}
use csr.Adapter.Delivery.{sent, serve_http-sent}
use csr.Commands.{FlagParser, ReadsFlag}
use csr.Commands.ReceiveAdapter.{main, main-make_service, serving}

http_uri-eq : (host : String) → http_uri host ≢ ""
http_uri-eq host p = scheme-eq ((append-eq-nil_iff {p = "http://"} {q = host <> "/"}).0 p).0
  where
    scheme-eq : ◌≢◌ {A = String} "http://" ""
    scheme-eq q = false≢true ((eq_iff "http://" "").1 q)

http_uri-not_empty : (host : String) → http_uri host == "" ≡ false
http_uri-not_empty host = ground (arith, http_uri-eq host)

-- The service that is there was created by `reconcileService` at an earlier time, with an earlier
-- state of the source whose sink had the same URI, and with other services and maybe another image.
-- A service that is created has no domain yet: the server keeps the containers that were sent, and
-- may have reported anything else of it since.
pub record Deploys {V : Vendor} (env : Env V) (ra : String) (csr : CloudSchedulerSource)
    (h : History V) (uri : String) : Type 0 where
  pub earlier : Env V
  pub image : String
  pub source : CloudSchedulerSource
  pub before : History V
  pub error : V.Error
  pub lacks :
      earlier.get_service
        (sunk earlier image source before).1
        source.object_meta.namespace
        source.object_meta.name
      ≡ err error
  pub missing : V.is_not_found error ≡ true
  pub created : Service
  pub creates : (served earlier image source before uri).0 ≡ ok created
  pub existing : Service
  pub found :
      env.get_service (sunk env ra csr h).1 csr.object_meta.namespace csr.object_meta.name
      ≡ ok existing
  pub keeps :
      (k : History V) (namespace : String) (service : Service)
      → (served earlier image source before uri).1
        ≡ created_service namespace service (ok created) ∷ k
      → existing.run_latest ≡ service.run_latest

-- A job that was not there before is as the source describes it, with its URI.
JobRun-new :
    {V : Vendor} (env : Env V) (initial : JobTable) (F : IsFaithful initial env) (parent n : String)
    (wanted : Job) (h : History V) (out : Result V.Error Job × History V) {job : Job}
    → jobs initial h n ≡ none
    → JobRun env parent n wanted h out
    → out.0 ≡ ok job
    → job ≡ wanted
JobRun-new env initial F parent n wanted h out new (JobRun.undialled _ _ p) = rw p λ r. cc
JobRun-new env initial F parent n wanted h out new (JobRun.unread _ _ _ p) = rw p λ r. cc
JobRun-new env initial F parent n wanted h out {job} new (JobRun.created e a _ _ answer p) =
    rw p λ r. F.create_stores _ parent wanted job (answer ∙ r)
JobRun-new env initial F parent n wanted h out new (JobRun.untargeted x found _ p) =
    cc (new, (F.get_found (dialled_on h) n x found).0)
JobRun-new env initial F parent n wanted h out new (JobRun.kept x _ _ found _ _ _ p) =
    cc (new, (F.get_found (dialled_on h) n x found).0)
JobRun-new env initial F parent n wanted h out new (JobRun.updated x _ _ _ found _ _ _ _ p) =
    cc (new, (F.get_found (dialled_on h) n x found).0)

module _ {V : Vendor} (env : Env V) (ra : String) (csr : CloudSchedulerSource) (h : History V) where
  module _ (uri : String) (D : Deploys env ra csr h uri) where
    -- The source and the calls of that time
    abbrev then_marked : CloudSchedulerSource
    then_marked = marked D.earlier D.image D.source D.before uri

    abbrev then_sunk : History V
    then_sunk = (sunk D.earlier D.image D.source D.before).1

    -- The service that the earlier call sent
    abbrev pub deployed : Service
    deployed = make_service V then_marked D.image

    sends :
        served D.earlier D.image D.source D.before uri
        ≡ after_creation D.earlier D.image then_marked then_sunk D.error
    unfolding add_finalizer
    sends =
        reconcile_service-of_missing D.earlier D.image then_marked then_sunk D.error D.lacks
          D.missing

    existing-deployed : D.existing.run_latest ≡ deployed.run_latest
    existing-deployed =
        let answer = sym (ap (λ x. x.0) sends) ∙ D.creates in
        D.keeps _ _ deployed (
          ap (λ x. x.1) sends
          ∙ ap
              (λ a.
                created_service then_marked.object_meta.namespace deployed a
                ∷ got_service then_marked.object_meta.namespace then_marked.object_meta.name
                    (err D.error)
                ∷ then_sunk)
              answer)

    -- The service that is there in the end has its containers.
    ServiceRun-deployed :
        (out : Result V.Error Service × History V) {service : Service}
        → ServiceRun env ra (marked env ra csr h uri) (sunk env ra csr h).1 out
        → out.0 ≡ ok service
        → service.run_latest ≡ deployed.run_latest
    unfolding add_finalizer
    ServiceRun-deployed out {service} (ServiceRun.existing found p q) =
        rw q
          λ r. let same : D.existing ≡ service = cc (p, D.found, r) in rw (← same) existing-deployed
    ServiceRun-deployed out (ServiceRun.created e p _ q) = rw q λ r. cc (p, D.found)
    ServiceRun-deployed out (ServiceRun.failed e p _ q) = rw q λ r. cc

  -- A live source whose processing works has its sink resolved, a service and a job.
  pub record Made (out : Source.Outcome V) : Type 0 where
    pub uri : String
    pub service : Service
    pub job : Job
    pub sink : (sunk env ra csr h).0 ≡ ok uri
    pub serves : (served env ra csr h uri).0 ≡ ok service
    pub schedules : (scheduled env ra csr h uri service).0 ≡ ok job
    pub calls : out.1.1 ≡ (scheduled env ra csr h uri service).1

  SourceRun-Made :
      (out : Source.Outcome V)
      → csr.object_meta.deletion_timestamp ≡ none
      → SourceRun env ra csr h out
      → out.0 ≡ ok tt
      → Made out
  SourceRun-Made out live (SourceRun.unresolved _ _ _ p) = rw p λ r. cc
  SourceRun-Made out live (SourceRun.unserved _ _ _ _ _ p) = rw p λ r. cc
  SourceRun-Made out live (SourceRun.undomained _ _ _ _ _ _ p) = rw p λ r. cc
  SourceRun-Made out live (SourceRun.unscheduled _ _ _ _ _ _ _ _ p) = rw p λ r. cc
  SourceRun-Made out live (SourceRun.done uri ksvc job _ s q _ j p) = rw p λ r. record {
    uri = uri;
    service = ksvc;
    job = job;
    sink = s;
    serves = q;
    schedules = j;
    calls = refl;
  }
  SourceRun-Made out live (SourceRun.unremoved _ _ gone _ _) = absurd (cc)
  SourceRun-Made out live (SourceRun.removed _ gone _ _) = absurd (cc)

module _ {V : Vendor} (env : Env V) (ra : String) (initial : JobTable) (F : IsFaithful initial env)
    (key namespace name : String) (csr : CloudSchedulerSource) (h : History V)
    (split : V.split_meta_namespace_key key ≡ ok (namespace, name))
    (held : cached V name (env.get_by_key h (cache_key namespace name)) ≡ ok csr)
    (live : csr.object_meta.deletion_timestamp ≡ none) (new : jobs initial h (job_name csr) ≡ none)
    (sink : ObjectReference) (host : String)
    (D : Deploys env ra csr (looked env namespace name h) (http_uri host))
    (refers : csr.spec.sink ≡ some sink)
    (resolves : Resolves env sink csr.object_meta.namespace (looked env namespace name h) host)
    (success : (reconcile env ra key h).0 ≡ ok tt) where
  abbrev k : History V
  k = looked env namespace name h

  made : Made env ra csr k (processed env ra csr k)
  made =
      SourceRun-Made env ra csr k _ live (reconcile_source-SourceRun env ra csr k)
        (succeeded env ra initial F key namespace name csr h split held success)

  uri-eq : made.uri ≡ http_uri host
  uri-eq =
      let found : (sunk env ra csr k).0 ≡ ok (http_uri host) =
        ap (λ s. (get_sink_uri env s csr.object_meta.namespace k).0) refers
        ∙ ap (λ x. x.0)
            (get_sink_uri-of_Resolves env sink csr.object_meta.namespace k host resolves) in
      cc (found, made.sink)

  job-eq : made.job ≡ create_job_proto V (job_name csr) csr.spec (http_uri made.service.domain)
  unfolding add_finalizer
  job-eq =
      JobRun-new env initial F _ _ _ _ _
        (ap (λ t. t (job_name csr)) (served-jobs env ra initial csr k made.uri) ∙ new)
        (reconcile_job-JobRun env _ _ _ _) made.schedules

  job-held : jobs initial (reconcile env ra key h).1 (job_name csr) ≡ some made.job
  unfolding add_finalizer
  job-held =
      ap (λ t. t (job_name csr)) (reconcile-jobs env ra initial key namespace name csr h split held)
      ∙ ap (λ c. jobs initial c (job_name csr)) made.calls
      ∙ (reconcile_job-outcome env initial F csr.object_meta.name csr.spec
          (http_uri made.service.domain) (served env ra csr k made.uri).1 made.schedules).0

  module _ (W : Web) (parse : FlagParser) (get_env : String → String)
      (reads : ReadsFlag parse "sink") (net : Network W) where
    abbrev adapter : CloudSchedulerReceiveAdapter W
    adapter = record { sink = http_uri host; client = none }

    serves-adapter :
        main W parse get_env made.service.run_latest.container.args ≡ serving ":8080" adapter
    serves-adapter =
        ap (λ x. main W parse get_env x.container.args) same_containers
        ∙ main-make_service W parse get_env V
            (marked D.earlier D.image D.source D.before (http_uri host)) D.image reads
        ∙ rw (http_uri-not_empty host) refl
      where
        serves : (served env ra csr k (http_uri host)).0 ≡ ok made.service
        serves = ap (λ uri. (served env ra csr k uri).0) (sym uri-eq) ∙ made.serves

        same_containers :
            made.service.run_latest ≡ (deployed env ra csr k (http_uri host) D).run_latest
        same_containers =
            ServiceRun-deployed env ra csr k (http_uri host) D _
              (reconcile_service-ServiceRun env ra (marked env ra csr k (http_uri host)) _) serves

    -- A live source has no job yet, its sink resolves, and its service was created when an earlier
    -- Reconcile found none, for the same URI of the sink; the server keeps that service's containers.
    -- Then a `Reconcile` of it that returns no error takes that service and leaves a job that calls
    -- the service's domain. The receive adapter's program, with the arguments of that service, serves
    -- the sink; and a call whose body can be read and whose header names an identifier is posted to
    -- the sink as one event, if the event can be built. It is assumed that Cloud Scheduler answers
    -- faithfully and that the program's flag is parsed as documented.
    pub reconcile-delivers :
        (r : Request W) (bytes first : String) (rest : List String) (q : W.OutgoingRequest)
        → net.read_all (wrote_header W.status_ok ∷ []) r.body ≡ ok bytes
        → values_of r.header request_id_header ≡ some (first ∷ rest)
        → W.new_request (http_uri host) bytes (context_at net first (net.now (body_read net r [])))
          ≡ ok q
        → (service : Service) × ((served env ra csr k (http_uri host)).0 ≡ ok service)
          × (jobs initial (reconcile env ra key h).1 (job_name csr)
              ≡ some (create_job_proto V (job_name csr) csr.spec (http_uri service.domain)))
          × (main W parse get_env service.run_latest.container.args ≡ serving ":8080" adapter)
          × (sent (serve_http net adapter r []).1 ≡ q ∷ [])
    reconcile-delivers r bytes first rest q read named built = (
      made.service,
      ap (λ uri. (served env ra csr k uri).0) (sym uri-eq) ∙ made.serves,
      job-held ∙ ap some job-eq,
      serves-adapter,
      serve_http-sent net adapter r [] bytes first rest q read named built,
    )
