-- ===== src/Reconciler/Loop/Twice.antt =====
-- Two calls of `Reconcile` of a source, with the source written in between.
use csr.Base.{String, ◌≡◌, ◌≢◌, refl, sym, ap, ◌∙◌, none, some, ok, ◌∷◌}
use csr.Api.{CloudSchedulerSource, CloudSchedulerSourceSpec}
use csr.Api.Meta.{Slice, slice, items_of}
use csr.Api.Job.{Job}
use csr.Api.Serving.{Service}
use csr.Lister.{cache_key}
use csr.Lister.Laws.{cached}
use csr.Platform.{Vendor, Env, History, got_job, got_service}
use csr.Platform.Semantic.{IsSemantic}
use csr.Platform.Sets.{AreSets}
use csr.Platform.Jobs.{JobTable, jobs, IsFaithful}
use csr.Reconciler.Finalizers.{add_finalizer, finalizer_name}
use csr.Reconciler.Finalizers.Laws.{finalizers-add-add}
use csr.Reconciler.Services.Laws.{reconcile_service-of_existing}
use csr.Reconciler.Jobs.{create_job_proto, http_target, job_name_of}
use csr.Reconciler.Jobs.Calls.{dialled_on}
use csr.Reconciler.Jobs.Again.{reconcile_job-finds}
use csr.Reconciler.Jobs.Outcome.{Agrees, reconcile_job-outcome}
use csr.Reconciler.Jobs.Removal.{job_name}
use csr.Reconciler.Sinks.{http_uri}
use csr.Reconciler.Loop.{reconcile, set_job, set_sink_uri}
use csr.Reconciler.Loop.Source
use csr.Reconciler.Loop.Source.{
  SourceRun, sunk, marked, served, scheduled, reconcile_source-SourceRun,
}
use csr.Reconciler.Loop.Key.{looked, processed}
use csr.Reconciler.Loop.Jobs.{IsScheduled, reconcile-IsScheduled, succeeded, served-jobs}
use csr.Reconciler.Loop.Steady.{reconcile_steady}

-- The source as a `Reconcile` that succeeds leaves it.
abbrev pub settled : (V : Vendor) → CloudSchedulerSource → String → CloudSchedulerSource
settled V csr uri = set_job (job_name csr) (set_sink_uri uri (add_finalizer V csr))

-- What the server keeps of a source that is written: it may change the rest of the metadata, such
-- as the resource version.
pub record IsWritten (next written : CloudSchedulerSource) : Type 0 where
  pub name : next.object_meta.name ≡ written.object_meta.name
  pub namespace : next.object_meta.namespace ≡ written.object_meta.namespace
  pub live : next.object_meta.deletion_timestamp ≡ written.object_meta.deletion_timestamp
  pub finalizers : next.object_meta.finalizers ≡ written.object_meta.finalizers
  pub spec : next.spec ≡ written.spec
  pub status : next.status ≡ written.status

-- The URI does not count.
Agrees-any_uri :
    (V : Vendor) (n : String) (spec : CloudSchedulerSourceSpec) (uri uri' : String) (job : Job)
    → Agrees (create_job_proto V n spec uri) job
    → Agrees (create_job_proto V n spec uri') job
unfolding create_job_proto http_target
Agrees-any_uri V n spec uri uri' job a = record {
  name = a.name;
  schedule = a.schedule;
  time_zone = a.time_zone;
  target = a.target;
  wanted = http_target V spec uri';
  is_target = a.is_target;
  is_wanted = refl;
  body = cc (a.body, a.is_wanted);
  http_method = cc (a.http_method, a.is_wanted);
}

module _ {V : Vendor} (env : Env V) (ra : String) (initial : JobTable) (F : IsFaithful initial env)
    (csr : CloudSchedulerSource) (h : History V) where
  scheduled-name :
      (uri : String) (ksvc : Service) (job : Job)
      → (scheduled env ra csr h uri ksvc).0 ≡ ok job
      → job.name ≡ job_name csr
  unfolding add_finalizer create_job_proto
  scheduled-name uri ksvc job p =
      (reconcile_job-outcome env initial F csr.object_meta.name csr.spec (http_uri ksvc.domain)
        (served env ra csr h uri).1 p).1.name

  pub SourceRun-settled :
      (out : Source.Outcome V)
      → csr.object_meta.deletion_timestamp ≡ none
      → SourceRun env ra csr h out
      → out.0 ≡ ok tt
      → (uri : String) × (out.1.0 ≡ settled V csr uri)
  SourceRun-settled out live (SourceRun.unresolved _ _ _ p) = rw p λ r. cc
  SourceRun-settled out live (SourceRun.unserved _ _ _ _ _ p) = rw p λ r. cc
  SourceRun-settled out live (SourceRun.undomained _ _ _ _ _ _ p) = rw p λ r. cc
  SourceRun-settled out live (SourceRun.unscheduled _ _ _ _ _ _ _ _ p) = rw p λ r. cc
  SourceRun-settled out live (SourceRun.done uri ksvc job _ _ _ _ q p) =
      rw p λ _. (uri, ap (λ n. set_job n (marked env ra csr h uri)) (scheduled-name uri ksvc job q))
  SourceRun-settled out live (SourceRun.unremoved _ _ gone _ _) = absurd (cc)
  SourceRun-settled out live (SourceRun.removed _ gone _ _) = absurd (cc)

finalized :
    (V : Vendor) (A : AreSets V) (csr next : CloudSchedulerSource)
    → next.object_meta.finalizers ≡ (add_finalizer V csr).object_meta.finalizers
    → add_finalizer V next ≡ next
unfolding add_finalizer
finalized V A csr next same =
    ap (with_finalizers next) (ap added same ∙ ap slice (finalizers-add-add V A csr) ∙ sym same)
  where
    added : Slice String → Slice String
    added names = slice (V.list (V.insert (V.new_string (items_of names)) finalizer_name))

    with_finalizers : CloudSchedulerSource → Slice String → CloudSchedulerSource
    with_finalizers c names = record c { object_meta = record c.object_meta { finalizers = names } }

module _ {V : Vendor} (env : Env V) (ra : String) (key namespace name : String)
    (h : History V) where
  -- The history after a first call, and that of a second one once the cache has answered
  abbrev pub after : History V
  after = (reconcile env ra key h).1

  abbrev pub again : History V
  again = looked env namespace name after

module _ {V : Vendor} (env : Env V) (ra : String) (initial : JobTable) (F : IsFaithful initial env)
    (A : AreSets V) (S : IsSemantic V) (key namespace name : String) (csr : CloudSchedulerSource)
    (h : History V) (split : V.split_meta_namespace_key key ≡ ok (namespace, name))
    (held : cached V name (env.get_by_key h (cache_key namespace name)) ≡ ok csr)
    (live : csr.object_meta.deletion_timestamp ≡ none)
    (success : (reconcile env ra key h).0 ≡ ok tt) where
  -- The source that the first call has made
  abbrev pub left : CloudSchedulerSource
  left = (processed env ra csr (looked env namespace name h)).1.0

  abbrev h1 : History V
  h1 = after env ra key namespace name h

  abbrev k1 : History V
  k1 = again env ra key namespace name h

  left-settled : (uri : String) × (left ≡ settled V csr uri)
  left-settled =
      SourceRun-settled env ra initial F csr (looked env namespace name h) _ live
        (reconcile_source-SourceRun env ra csr (looked env namespace name h))
        (succeeded env ra initial F key namespace name csr h split held success)

  scheduled_before : IsScheduled initial csr h1
  scheduled_before =
      reconcile-IsScheduled env ra initial F key namespace name csr h split held live success

  module _ (next : CloudSchedulerSource) (W : IsWritten next left) (ksvc : Service)
      (caught_up : cached V name (env.get_by_key h1 (cache_key namespace name)) ≡ ok next)
      (resolves : (sunk env ra next k1).0 ≡ ok next.status.sink_uri)
      (serves : env.get_service
          (sunk env ra next k1).1
          next.object_meta.namespace
          next.object_meta.name
        ≡ ok ksvc)
      (named : ksvc.domain ≢ "") where
    same_job_name : job_name next ≡ job_name csr
    unfolding add_finalizer
    same_job_name =
        ap (λ spec. job_name_of spec next.object_meta.name) W.spec
        ∙ ap (λ n. job_name_of left.spec n) W.name
        ∙ ap job_name left-settled.1

    same_spec : next.spec ≡ csr.spec
    unfolding add_finalizer
    same_spec = W.spec ∙ ap (λ c. c.spec) left-settled.1

    live_again : next.object_meta.deletion_timestamp ≡ none
    unfolding add_finalizer
    live_again = W.live ∙ ap (λ c. c.object_meta.deletion_timestamp) left-settled.1 ∙ live

    has_finalizer : add_finalizer V next ≡ next
    has_finalizer =
        finalized V A csr next (W.finalizers ∙ ap (λ c. c.object_meta.finalizers) left-settled.1)

    Agrees-again :
        Agrees
          (create_job_proto V (job_name next) next.spec (http_uri ksvc.domain))
          scheduled_before.job
    Agrees-again =
        rw (same_job_name, same_spec)
          (Agrees-any_uri V (job_name csr) csr.spec scheduled_before.uri (http_uri ksvc.domain)
            scheduled_before.job scheduled_before.agrees)

    recorded :
        next.status ≡ record { job = scheduled_before.job.name; sink_uri = next.status.sink_uri }
    unfolding add_finalizer create_job_proto
    recorded =
        ap (λ n. record next.status { job = n })
          (ap (λ c. c.job) (W.status ∙ ap (λ c. c.status) left-settled.1)
            ∙ sym scheduled_before.agrees.name)

    served_again : served env ra next k1 next.status.sink_uri ≡ (
      ok ksvc,
      got_service next.object_meta.namespace next.object_meta.name (ok ksvc)
          ∷ (sunk env ra next k1).1,
    )
    unfolding add_finalizer
    served_again = reconcile_service-of_existing env ra _ _ ksvc serves

    held_again :
        jobs initial (served env ra next k1 next.status.sink_uri).1 (job_name next)
        ≡ some scheduled_before.job
    held_again =
        ap (λ t. t (job_name next)) (served-jobs env ra initial next k1 next.status.sink_uri)
        ∙ ap (jobs initial h1) same_job_name
        ∙ scheduled_before.held

    -- The calls before the job is looked up
    abbrev before_lookup : History V
    before_lookup = (served env ra next k1 next.status.sink_uri).1

    -- Let `Reconcile` of a live source have returned no error, and let at the next one the cache hold
    -- the source as it was written, the sink resolve to the recorded URI, the adapter's service be
    -- there with a domain, the client of Cloud Scheduler be made, and the lookup of the job be
    -- answered, by a Cloud Scheduler that answers faithfully. Then the next `Reconcile` only reads, finds the job that the first one left, and
    -- returns no error.
    pub reconcile_twice :
        {answer : Job}
        → env.new_scheduler_client before_lookup ≡ ok tt
        → env.get_job (dialled_on before_lookup) (job_name next) ≡ ok answer
        → (job : Job) × (jobs initial h1 (job_name csr) ≡ some job)
          × (reconcile env ra key h1 ≡ (
            ok tt,
            got_job (job_name next) (ok job)
                ∷ dialled_on (
                    got_service next.object_meta.namespace next.object_meta.name (ok ksvc)
                    ∷ (sunk env ra next k1).1),
          ))
    unfolding add_finalizer
    reconcile_twice dials answered = (
      scheduled_before.job,
      scheduled_before.held,
      reconcile_steady env ra S key namespace name next h1 split caught_up initial F
          next.status.sink_uri ksvc live_again resolves served_again named held_again Agrees-again
          has_finalizer recorded
          (reconcile_job-finds env initial F next.object_meta.name next.spec (http_uri ksvc.domain)
            before_lookup held_again Agrees-again dials answered),
    )
