-- ===== src/Reconciler/Loop/Writes.antt =====
-- When `Reconcile` writes the source back, and when it only reads.
use mathlib.Core.Path.{ap₂}
use csr.Base.{
  String, ◌≡◌, ◌≢◌, refl, ap, ◌∙◌, true, false, Option, none, some, Result, ok, err, arith,
  contains, inl, inr, Bool-cases, string_eq,
}
use csr.Api.{CloudSchedulerSource}
use csr.Api.Meta.{items_of}
use csr.Api.Job.{Job}
use csr.Api.Serving.{Service}
use csr.Lister.{cache_key}
use csr.Lister.Laws.{cached}
use csr.Platform.{Vendor, Env, History}
use csr.Platform.Semantic.{IsSemantic}
use csr.Platform.Sets.{AreSets}
use csr.Reconciler.Finalizers.{finalizer_name, add_finalizer}
use csr.Reconciler.Finalizers.Laws.{finalizers, contains-add_finalizer}
use csr.Reconciler.Updates.{update}
use csr.Reconciler.Loop.{reconcile, reconcile_cloud_scheduler_source, dispatch, set_job}
use csr.Reconciler.Loop.Source.{sunk, marked, served, scheduled, removal}
use csr.Reconciler.Loop.Key
use csr.Reconciler.Loop.Key.{
  FoundRun, unchanged, unwritten, written, processed, updating, is_unchanged, looked,
  reconcile-FoundRun,
}

-- The error of the update, or else what processing returned.
abbrev pub outcome_of {ℓ} : {E A B : Type ℓ} → Result E A → Result E B → Result E A
outcome_of r (ok _) = r
outcome_of r (err e) = err e

module _ {V : Vendor} (env : Env V) (ra : String) (csr : CloudSchedulerSource) (h : History V) where
  source-eq-dispatch :
      {d : Option String} {r : Result V.Error String}
      → csr.object_meta.deletion_timestamp ≡ d
      → (sunk env ra csr h).0 ≡ r
      → reconcile_cloud_scheduler_source env ra (csr, h)
        ≡ dispatch env ra d r (csr, (sunk env ra csr h).1)
  unfolding reconcile_cloud_scheduler_source
  source-eq-dispatch p q = ap₂ (λ d r. dispatch env ra d r (csr, (sunk env ra csr h).1)) p q

  source-of_unremoved :
      (time : String) (e : V.Error)
      → csr.object_meta.deletion_timestamp ≡ some time
      → (removal env ra csr h).0 ≡ err e
      → reconcile_cloud_scheduler_source env ra (csr, h) ≡ (err e, (csr, (removal env ra csr h).1))
  unfolding dispatch
  source-of_unremoved time e gone q = rw (source-eq-dispatch gone refl) (rw q)

  source-of_unresolved :
      (e : V.Error)
      → csr.object_meta.deletion_timestamp ≡ none
      → (sunk env ra csr h).0 ≡ err e
      → reconcile_cloud_scheduler_source env ra (csr, h) ≡ (err e, (csr, (sunk env ra csr h).1))
  unfolding dispatch
  source-of_unresolved e live q = rw (source-eq-dispatch live q)

  source-of_unserved :
      (uri : String) (e : V.Error)
      → csr.object_meta.deletion_timestamp ≡ none
      → (sunk env ra csr h).0 ≡ ok uri
      → (served env ra csr h uri).0 ≡ err e
      → reconcile_cloud_scheduler_source env ra (csr, h)
        ≡ (err e, (marked env ra csr h uri, (served env ra csr h uri).1))
  unfolding dispatch
  source-of_unserved uri e live p q = rw (source-eq-dispatch live p) (rw q)

  pub source-of_done :
      (uri : String) (ksvc : Service) (job : Job)
      → csr.object_meta.deletion_timestamp ≡ none
      → (sunk env ra csr h).0 ≡ ok uri
      → (served env ra csr h uri).0 ≡ ok ksvc
      → ksvc.domain ≢ ""
      → (scheduled env ra csr h uri ksvc).0 ≡ ok job
      → reconcile_cloud_scheduler_source env ra (csr, h)
        ≡ (ok tt, (set_job job.name (marked env ra csr h uri), (scheduled env ra csr h uri ksvc).1))
  unfolding dispatch
  source-of_done uri ksvc job live p q named r =
      rw (source-eq-dispatch live p) (rw q (ground arith))

module _ {V : Vendor} (S : IsSemantic V) where
  pub is_unchanged_refl : (csr : CloudSchedulerSource) → is_unchanged V csr csr ≡ true
  is_unchanged_refl csr =
      rw ((S.status_equal_iff csr.status csr.status).1 refl, S.meta_equal_refl csr.object_meta)

module _ {V : Vendor} (env : Env V) (ra : String) (original : CloudSchedulerSource)
    (k : History V) where
  -- If processing leaves the source as it was, the run ends there.
  pub FoundRun-of_same :
      (S : IsSemantic V) (out : Key.Outcome V) (r : Result V.Error (Unit {0})) (k' : History V)
      → processed env ra original k ≡ (r, (original, k'))
      → FoundRun env ra original k out
      → out ≡ (r, k')
  FoundRun-of_same S out r k' e (unchanged _ p) = rw (p, e)
  FoundRun-of_same S out r k' e (unwritten _ differs _ _) =
      absurd (cc (is_unchanged_refl S original, ap (λ x. is_unchanged V original x.1.0) e))
  FoundRun-of_same S out r k' e (written _ differs _ _) =
      absurd (cc (is_unchanged_refl S original, ap (λ x. is_unchanged V original x.1.0) e))

  -- If processing changed the source, the run goes on with the update, and it succeeds only if both
  -- the processing and the update do.
  FoundRun-of_changed :
      (out : Key.Outcome V) (r : Result V.Error (Unit {0})) (csr : CloudSchedulerSource)
      (k' : History V)
      → processed env ra original k ≡ (r, (csr, k'))
      → is_unchanged V original csr ≡ false
      → FoundRun env ra original k out
      → (out.1 ≡ (update env csr k').1) × (out.0 ≡ outcome_of r (update env csr k').0)
  FoundRun-of_changed out r csr k' e changed (unchanged same _) =
      absurd (cc (ap (λ x. is_unchanged V original x.1.0) e))
  FoundRun-of_changed out r csr k' e changed (unwritten e' _ q p) =
      let at : updating env ra original k ≡ update env csr k' =
        ap (λ x. update env x.1.0 x.1.1) e in
      (ap (λ x. x.1) p ∙ ap (λ x. x.1) at, ap (λ x. x.0) p ∙ rw (← at, q))
  FoundRun-of_changed out r csr k' e changed (written s _ q p) =
      let at : updating env ra original k ≡ update env csr k' =
        ap (λ x. update env x.1.0 x.1.1) e in
      (ap (λ x. x.1) p ∙ ap (λ x. x.1) at, ap (λ x. x.0) p ∙ ap (λ x. x.0) e ∙ rw (← at, q))

module _ {V : Vendor} (S : IsSemantic V) (A : AreSets V) (csr : CloudSchedulerSource) where
  -- A source that lacks the finalizer is changed by marking it.
  is_unchanged-marked :
      (marked : CloudSchedulerSource)
      → marked.object_meta ≡ (add_finalizer V csr).object_meta
      → contains (finalizers csr) finalizer_name ≡ false
      → is_unchanged V csr marked ≡ false
  is_unchanged-marked marked p lacks =
      elim (Bool-cases (V.meta_equal csr.object_meta marked.object_meta)) [
        | inr differs ↦ rw differs (ground arith)
        | inl same ↦ absurd (
            ground (
              arith,
              S.meta_equal_finalizers csr.object_meta marked.object_meta same,
              ap (λ m. contains (items_of m.finalizers) finalizer_name) p,
              ap (λ xs. contains xs finalizer_name)
                  (S.meta_equal_finalizers csr.object_meta marked.object_meta same),
              contains-add_finalizer V A csr finalizer_name,
            ))
      ]

module _ {V : Vendor} (env : Env V) (ra : String) (S : IsSemantic V) (key namespace name : String)
    (original : CloudSchedulerSource) (h : History V)
    (split : V.split_meta_namespace_key key ≡ ok (namespace, name))
    (held : cached V name (env.get_by_key h (cache_key namespace name)) ≡ ok original) where
  abbrev k : History V
  k = looked env namespace name h

  run : FoundRun env ra original k (reconcile env ra key h)
  run = reconcile-FoundRun env ra key namespace name original h split held

  -- If the job of a source that is being deleted cannot be removed, `Reconcile` returns that error
  -- and ends there: the source, with its finalizer, is not written back.
  pub reconcile-of_unremoved :
      (time : String) (e : V.Error)
      → original.object_meta.deletion_timestamp ≡ some time
      → (removal env ra original k).0 ≡ err e
      → reconcile env ra key h ≡ (err e, (removal env ra original k).1)
  reconcile-of_unremoved time e gone q =
      FoundRun-of_same env ra original k S _ _ _
        (source-of_unremoved env ra original k time e gone q) run

  -- If the sink of a source that is not being deleted cannot be resolved, `Reconcile` returns that
  -- error after the calls for the sink, and writes nothing.
  pub reconcile-of_unresolved :
      (e : V.Error)
      → original.object_meta.deletion_timestamp ≡ none
      → (sunk env ra original k).0 ≡ err e
      → reconcile env ra key h ≡ (err e, (sunk env ra original k).1)
  reconcile-of_unresolved e live q =
      FoundRun-of_same env ra original k S _ _ _ (source-of_unresolved env ra original k e live q)
        run

  -- If the service of a source without the finalizer fails, `Reconcile` still ends with an update,
  -- which records the finalizer and the sink's URI, and returns the update's error or else the
  -- service's.
  reconcile-of_unserved :
      (A : AreSets V) (uri : String) (e : V.Error)
      → original.object_meta.deletion_timestamp ≡ none
      → contains (finalizers original) finalizer_name ≡ false
      → (sunk env ra original k).0 ≡ ok uri
      → (served env ra original k uri).0 ≡ err e
      → let written = update env (marked env ra original k uri) (served env ra original k uri).1 in
        ((reconcile env ra key h).1 ≡ written.1)
        × ((reconcile env ra key h).0 ≡ outcome_of (err e) written.0)
  reconcile-of_unserved A uri e live lacks p q =
      FoundRun-of_changed env ra original k _ _ _ _
        (source-of_unserved env ra original k uri e live p q)
        (is_unchanged-marked S A original (marked env ra original k uri) refl lacks) run
