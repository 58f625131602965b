-- ===== src/Reconciler/Loop/Refusals.antt =====
-- A source that is being deleted while Cloud Scheduler does not remove its job: what `Reconcile`
-- returns, and what it writes.
use csr.Base.{
  String, ℕ, suc, ◌≡◌, ◌⊎◌, inl, inr, refl, ◌∙◌, false, Option, none, some, ok, err, [], ◌∷◌,
}
use csr.Api.{CloudSchedulerSource}
use csr.Api.Meta.{ObjectReference}
use csr.Lister.{cache_key}
use csr.Lister.Laws.{cached}
use csr.Platform.{
  Vendor, Env, History, created_job, updated_job, deleted_job, handled, looked_up, fetched,
  got_service, created_service, dialled, got_job, updated_source,
}
use csr.Platform.Jobs.{JobTable, jobs}
use csr.Platform.Semantic.{IsSemantic}
use csr.Reconciler.Jobs.{is_missing, remove_job}
use csr.Reconciler.Jobs.Calls.{dialled_on}
use csr.Reconciler.Jobs.Removal.{job_name, remove_job-of_undialled, remove_job-of_refused}
use csr.Reconciler.Sinks.{get_sink_uri}
use csr.Reconciler.Sinks.Laws.{get_sink_uri-history}
use csr.Reconciler.Loop.{reconcile}
use csr.Reconciler.Loop.Source.{sunk}
use csr.Reconciler.Loop.Key.{looked}
use csr.Reconciler.Loop.Writes.{reconcile-of_unremoved}

-- The updates of sources that were asked for, accepted or not
abbrev pub source_updates : {V : Vendor} → History V → ℕ
source_updates [] = 0
source_updates (updated_source _ _ _ ∷ h) = suc (source_updates h)
source_updates (handled _ ∷ h) = source_updates h
source_updates (looked_up _ _ ∷ h) = source_updates h
source_updates (fetched _ _ _ _ ∷ h) = source_updates h
source_updates (got_service _ _ _ ∷ h) = source_updates h
source_updates (created_service _ _ _ ∷ h) = source_updates h
source_updates (dialled _ ∷ h) = source_updates h
source_updates (got_job _ _ ∷ h) = source_updates h
source_updates (created_job _ _ _ ∷ h) = source_updates h
source_updates (updated_job _ _ ∷ h) = source_updates h
source_updates (deleted_job _ _ ∷ h) = source_updates h

-- From the history `h`, Cloud Scheduler cannot be dialled, or refuses to delete the job for another
-- reason than that it is missing.
abbrev pub Withholds : {V : Vendor} → Env V → String → History V → V.Error → Type 0
Withholds {V} env n h e =
    (env.new_scheduler_client h ≡ err e)
    ⊎ ((env.new_scheduler_client h ≡ ok tt)
        × (env.delete_job (dialled_on h) n ≡ err e)
        × (is_missing V e ≡ false))

module _ {V : Vendor} (env : Env V) (initial : JobTable) where
  -- Neither a job nor a source has been written from the one history to the other.
  abbrev pub Unwritten : History V → History V → Type 0
  Unwritten h h' = (source_updates h' ≡ source_updates h) × (jobs initial h' ≡ jobs initial h)

  remove_job-withheld :
      (csr : CloudSchedulerSource) (h : History V) (e : V.Error)
      → Withholds env (job_name csr) h e
      → ((remove_job env csr h).0 ≡ err e) × Unwritten h (remove_job env csr h).1
  remove_job-withheld csr h e (inl p) =
      rw (remove_job-of_undialled env csr h e p) (refl, (refl, refl))
  remove_job-withheld csr h e (inr (p, q, other)) =
      rw (remove_job-of_refused env csr h e p q other) (refl, (refl, refl))

  sink-Unwritten :
      (sink : Option ObjectReference) (namespace : String) (h : History V)
      → Unwritten h (get_sink_uri env sink namespace h).1
  unfolding get_sink_uri
  sink-Unwritten none namespace h = (refl, refl)
  sink-Unwritten (some sink) namespace h =
      elim (get_sink_uri-history env initial sink namespace h) [
        | inl p ↦ rw p (refl, refl)
        | inr p ↦ rw p (refl, refl)
      ]

module _ {V : Vendor} (env : Env V) (ra : String) (S : IsSemantic V) (initial : JobTable)
    (key namespace name : String) (original : CloudSchedulerSource) (h : History V)
    (split : V.split_meta_namespace_key key ≡ ok (namespace, name))
    (held : cached V name (env.get_by_key h (cache_key namespace name)) ≡ ok original) where
  -- While Cloud Scheduler cannot be dialled, or refuses to delete the job of a cached source that is
  -- being deleted, `Reconcile` of that source returns the error, asks for no update of a source, so
  -- that the finalizer stays, and leaves every job as it was.
  pub reconcile-withheld :
      (time : String) (e : V.Error)
      → original.object_meta.deletion_timestamp ≡ some time
      → Withholds env (job_name original) (sunk env ra original (looked env namespace name h)).1 e
      → ((reconcile env ra key h).0 ≡ err e) × Unwritten env initial h (reconcile env ra key h).1
  reconcile-withheld time e gone w =
      let k = looked env namespace name h in
      let (failed, (updates, left)) =
        remove_job-withheld env initial original (sunk env ra original k).1 e w in
      let (updates', left') =
        sink-Unwritten env initial original.spec.sink original.object_meta.namespace k in
      rw
        (reconcile-of_unremoved env ra S key namespace name original h split held time e gone
          failed)
        (refl, (updates ∙ updates', left ∙ left'))
