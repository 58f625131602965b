-- ===== src/Reconciler/Loop/Key.antt =====
-- The ways through `Reconcile`: the key, the cached source, and the update at the end.
use csr.Base.{
  String, Bool, ◌<>◌, ◌≡◌, true, false, ◌&&◌, Result, ok, err, ◌⊎◌, inl, inr, Result-cases,
  Bool-cases, ◌∷◌,
}
use csr.Api.{CloudSchedulerSource}
use csr.DeepCopy.Laws.{deep_copy-eq}
use csr.Lister.{cache_key}
use csr.Lister.Laws.{cached, get_lem}
use csr.Platform.{Vendor, Env, History, looked_up, handled}
use csr.Reconciler.Updates.{update}
use csr.Reconciler.Loop.{
  reconcile_cloud_scheduler_source, reconcile, after_lookup, reconcile_original,
}
use csr.Reconciler.Loop.Source

abbrev pub Outcome : Vendor → Type 0
Outcome V = Result V.Error (Unit {0}) × History V

abbrev pub vanished_message : String → String
vanished_message key = "cloudschedulersource '" <> (key <> "' in work queue no longer exists")

-- What `Reconcile` compares to tell whether anything changed.
abbrev pub is_unchanged : (V : Vendor) → CloudSchedulerSource → CloudSchedulerSource → Bool
is_unchanged V original csr =
    V.status_equal original.status csr.status && V.meta_equal original.object_meta csr.object_meta

-- The history once the cache has answered.
abbrev pub looked : {V : Vendor} (env : Env V) → String → String → History V → History V
looked env namespace name h =
    looked_up (cache_key namespace name) (env.get_by_key h (cache_key namespace name)) ∷ h

module _ {V : Vendor} (env : Env V) (ra : String) (original : CloudSchedulerSource)
    (k : History V) where
  -- What becomes of a cached source before the update.
  abbrev pub processed : Source.Outcome V
  processed = reconcile_cloud_scheduler_source env ra (original, k)

  -- The update of the processed source.
  abbrev pub updating : Result V.Error CloudSchedulerSource × History V
  updating = update env processed.1.0 processed.1.1

-- The run `out` of `Reconcile` from the history `k` at which the cache has given the source.
pub data FoundRun {V : Vendor} (env : Env V) (ra : String) (original : CloudSchedulerSource)
    (k : History V) (out : Outcome V) : Type 0 where
  unchanged :
      is_unchanged V original (processed env ra original k).1.0 ≡ true
      → out ≡ ((processed env ra original k).0, (processed env ra original k).1.1)
      → FoundRun env ra original k out
  unwritten :
      (e : V.Error)
      → is_unchanged V original (processed env ra original k).1.0 ≡ false
      → (updating env ra original k).0 ≡ err e
      → out ≡ (err e, (updating env ra original k).1)
      → FoundRun env ra original k out
  written :
      (s : CloudSchedulerSource)
      → is_unchanged V original (processed env ra original k).1.0 ≡ false
      → (updating env ra original k).0 ≡ ok s
      → out ≡ ((processed env ra original k).0, (updating env ra original k).1)
      → FoundRun env ra original k out

pub data KeyRun {V : Vendor} (env : Env V) (ra : String) (key : String) (h : History V)
    (out : Outcome V) : Type 0 where
  malformed :
      (e : V.Error)
      → V.split_meta_namespace_key key ≡ err e
      → out ≡ (ok tt, handled ("invalid resource key: " <> key) ∷ h)
      → KeyRun env ra key h out
  vanished :
      (namespace name : String) (e : V.Error)
      → V.split_meta_namespace_key key ≡ ok (namespace, name)
      → cached V name (env.get_by_key h (cache_key namespace name)) ≡ err e
      → V.is_not_found e ≡ true
      → out ≡ (ok tt, handled (vanished_message key) ∷ looked env namespace name h)
      → KeyRun env ra key h out
  uncached :
      (namespace name : String) (e : V.Error)
      → V.split_meta_namespace_key key ≡ ok (namespace, name)
      → cached V name (env.get_by_key h (cache_key namespace name)) ≡ err e
      → V.is_not_found e ≡ false
      → out ≡ (err e, looked env namespace name h)
      → KeyRun env ra key h out
  found :
      (namespace name : String) (original : CloudSchedulerSource)
      → V.split_meta_namespace_key key ≡ ok (namespace, name)
      → cached V name (env.get_by_key h (cache_key namespace name)) ≡ ok original
      → FoundRun env ra original (looked env namespace name h) out
      → KeyRun env ra key h out

module _ {V : Vendor} (env : Env V) (ra : String) where
  original-FoundRun :
      (original : CloudSchedulerSource) (k : History V)
      → FoundRun env ra original k (reconcile_original env ra original k)
  unfolding reconcile_original
  original-FoundRun original k =
      rw (deep_copy-eq original)
        (elim (Bool-cases (is_unchanged V original (processed env ra original k).1.0)) [
          | inl same ↦ unchanged same (rw same)
          | inr differs ↦ elim (Result-cases (updating env ra original k).0) [
            | inl (s, p) ↦ written s differs p (rw (differs, p))
            | inr (e, p) ↦ unwritten e differs p (rw (differs, p))
          ]
        ])

  -- A source that the cache holds under the key is processed and then updated exactly if its status
  -- or its metadata has changed; the error of the update comes before that of the processing.
  pub reconcile-FoundRun :
      (key namespace name : String) (original : CloudSchedulerSource) (h : History V)
      → V.split_meta_namespace_key key ≡ ok (namespace, name)
      → cached V name (env.get_by_key h (cache_key namespace name)) ≡ ok original
      → FoundRun env ra original (looked env namespace name h) (reconcile env ra key h)
  unfolding reconcile after_lookup
  reconcile-FoundRun key namespace name original h split held =
      rw (split, get_lem, held) (original-FoundRun original (looked env namespace name h))

  -- A source that the cache does not give is not processed.
  pub reconcile-of_uncached :
      (key namespace name : String) (h : History V) (e : V.Error)
      → V.split_meta_namespace_key key ≡ ok (namespace, name)
      → cached V name (env.get_by_key h (cache_key namespace name)) ≡ err e
      → ((reconcile env ra key h).1 ≡ handled (vanished_message key) ∷ looked env namespace name h)
        ⊎ ((reconcile env ra key h).1 ≡ looked env namespace name h)
  unfolding reconcile after_lookup
  reconcile-of_uncached key namespace name h e split failed = elim (Bool-cases (V.is_not_found e)) [
    | inl gone ↦ inl (rw (split, get_lem, failed, gone))
    | inr other ↦ inr (rw (split, get_lem, failed, other))
  ]

  lookup-KeyRun :
      (key namespace name : String) (h : History V)
      → V.split_meta_namespace_key key ≡ ok (namespace, name)
      → KeyRun env ra key h (reconcile env ra key h)
  lookup-KeyRun key namespace name h split =
      elim (Result-cases (cached V name (env.get_by_key h (cache_key namespace name)))) [
        | inl (original, held) ↦
            found namespace name original split held
              (reconcile-FoundRun key namespace name original h split held)
        | inr (e, failed) ↦ elim (Bool-cases (V.is_not_found e)) [
          | inl gone ↦
              vanished namespace name e split failed gone
                (unfold reconcile after_lookup in rw (split, get_lem, failed, gone))
          | inr other ↦
              uncached namespace name e split failed other
                (unfold reconcile after_lookup in rw (split, get_lem, failed, other))
        ]
      ]

  -- Every run of `Reconcile` is one of these, whatever the services answer: a key that is malformed
  -- or whose source is gone is dropped with no call but the lookup, and another error of the lookup
  -- is returned; otherwise the source is processed and updated.
  pub reconcile-KeyRun :
      (key : String) (h : History V) → KeyRun env ra key h (reconcile env ra key h)
  reconcile-KeyRun key h = elim (Result-cases (V.split_meta_namespace_key key)) [
    | inl ((namespace, name), split) ↦ lookup-KeyRun key namespace name h split
    | inr (e, failed) ↦ malformed e failed (unfold reconcile in rw failed)
  ]
