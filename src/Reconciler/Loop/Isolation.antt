-- ===== src/Reconciler/Loop/Isolation.antt =====
-- What a `Reconcile` of one source can reach: whose objects its calls read and write.
use csr.Base.{String, ◌≡◌, refl, ◌∙◌, Option, none, some, ok, All}
use csr.Api.{CloudSchedulerSource}
use csr.Api.Meta.{ObjectReference, GroupVersionResource}
use csr.Reconciler.Sinks.Laws.{resource_of}
use csr.Platform.{
  Vendor, Env, Event, History, created_job, updated_job, deleted_job, handled, looked_up, fetched,
  got_service, created_service, dialled, got_job, updated_source,
}
use csr.Reconciler.Jobs.Removal.{job_name}
use csr.Reconciler.Loop.{reconcile}
use csr.Reconciler.Loop.Permits.{Permits, FoundRun-All}
use csr.Reconciler.Loop.Key.{looked, reconcile-FoundRun}
use csr.Lister.{cache_key}
use csr.Lister.Laws.{cached, cached-eq-ok}

-- What is fetched is the object that the reference, if there is one, names by kind and name.
abbrev pub IsSink : (V : Vendor) → Option ObjectReference → GroupVersionResource → String → Type 0
IsSink V none gvr name = ⊥
IsSink V (some sink) gvr name = (gvr ≡ resource_of V sink) × (name ≡ sink.name)

-- A call of Kubernetes is in the namespace, and is about the sink, the service or the source of this
-- name; a call about a job is about the one of the name `n`.
abbrev pub IsConfined :
    {V : Vendor} → Option ObjectReference → String → String → String → Event V → Type 0
IsConfined sink namespace name n (handled _) = Unit
IsConfined sink namespace name n (looked_up key _) = key ≡ cache_key namespace name
IsConfined {V} sink namespace name n (fetched gvr ns m _) = (ns ≡ namespace) × IsSink V sink gvr m
IsConfined sink namespace name n (got_service ns m _) = (ns ≡ namespace) × (m ≡ name)
IsConfined sink namespace name n (created_service ns service _) =
    (ns ≡ namespace)
    × (service.object_meta.namespace ≡ namespace)
    × (service.object_meta.name ≡ name)
IsConfined sink namespace name n (dialled _) = Unit
IsConfined sink namespace name n (got_job m _) = m ≡ n
IsConfined sink namespace name n (created_job _ job _) = job.name ≡ n
IsConfined sink namespace name n (updated_job job _) = job.name ≡ n
IsConfined sink namespace name n (deleted_job m _) = m ≡ n
IsConfined sink namespace name n (updated_source ns source _) =
    (ns ≡ namespace) × (source.object_meta.namespace ≡ namespace) × (source.object_meta.name ≡ name)

-- The cache keeps under the key of this namespace and name only objects that have them.
abbrev pub IsKeyed : {V : Vendor} → Env V → String → String → Type 0
IsKeyed {V} env namespace name =
    (h : History V) (s : CloudSchedulerSource)
    → env.get_by_key h (cache_key namespace name) ≡ ok (some s)
    → (s.object_meta.namespace ≡ namespace) × (s.object_meta.name ≡ name)

module _ {V : Vendor} (env : Env V) (namespace name : String) (csr : CloudSchedulerSource)
    (keyed : IsKeyed env namespace name) (here : csr.object_meta.namespace ≡ namespace)
    (named : csr.object_meta.name ≡ name) where
  updates-kept :
      (h : History V) (existing : CloudSchedulerSource)
      → cached V csr.object_meta.name
          (env.get_by_key h (cache_key csr.object_meta.namespace csr.object_meta.name))
        ≡ ok existing
      → (existing.object_meta.namespace ≡ namespace) × (existing.object_meta.name ≡ name)
  updates-kept h existing = rw (here, named) λ p. keyed h existing (cached-eq-ok V name _ p)

  fetched-IsSink :
      (sink : ObjectReference)
      → csr.spec.sink ≡ some sink
      → IsSink V csr.spec.sink (resource_of V sink) sink.name
  fetched-IsSink sink is = rw is (refl, refl)

  IsConfined-Permits : Permits (IsConfined csr.spec.sink namespace name (job_name csr)) env csr
  IsConfined-Permits = record {
    fetches = λ sink r is. (here, fetched-IsSink sink is);
    looks = λ r. rw (here, named) refl;
    gets_service = λ r. (here, named);
    creates_service = λ service r p q. (here, p ∙ here, q ∙ named);
    dials = λ r. tt;
    gets_job = λ r. refl;
    creates_job = λ parent job r p. p;
    updates_job = λ job r p. p;
    deletes_job = λ r. refl;
    updates =
        λ h existing desired r p. let kept = updates-kept h existing p in (here, kept.0, kept.1);
  }

module _ {V : Vendor} (env : Env V) (ra : String) (key namespace name : String)
    (csr : CloudSchedulerSource) (h : History V)
    (split : V.split_meta_namespace_key key ≡ ok (namespace, name))
    (held : cached V name (env.get_by_key h (cache_key namespace name)) ≡ ok csr)
    (keyed : IsKeyed env namespace name) where
  -- Every call that `Reconcile` makes for a cached source, whatever the services answer, stays in the
  -- source's namespace and reads and writes there only the object that its sink refers to, the
  -- service of the source's name and the source itself; in Cloud Scheduler it is about the source's own job.
  pub reconcile-IsConfined :
      All (IsConfined csr.spec.sink namespace name (job_name csr)) h
      → All (IsConfined csr.spec.sink namespace name (job_name csr)) (reconcile env ra key h).1
  reconcile-IsConfined before =
      let (here, named) = keyed h csr (cached-eq-ok V name _ held) in
      FoundRun-All (IsConfined csr.spec.sink namespace name (job_name csr)) env ra csr
        (IsConfined-Permits env namespace name csr keyed here named) (looked env namespace name h)
        (refl, before) _ (reconcile-FoundRun env ra key namespace name csr h split held)
