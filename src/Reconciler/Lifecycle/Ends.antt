-- ===== src/Reconciler/Lifecycle/Ends.antt =====
-- How the life of a source ends: the `Reconcile` of a source that is being deleted.
use csr.Base.{
  String, ◌≡◌, ◌≢◌, refl, sym, ap, ◌∙◌, false, none, some, Result, ok, err, ◌∷◌, contains, arith,
  string_eq,
}
use csr.Api.{CloudSchedulerSource}
use csr.Api.Meta.{items_of}
use csr.Lister.{cache_key}
use csr.Lister.Laws.{cached}
use csr.Platform.{Vendor, Env, History, updated_source}
use csr.Platform.Jobs.{JobTable, jobs, IsFaithful}
use csr.Platform.Semantic.{IsSemantic}
use csr.Platform.Sets.{AreSets}
use csr.Reconciler.Finalizers.{finalizer_name, remove_finalizer}
use csr.Reconciler.Finalizers.Laws.{finalizers, contains-remove_finalizer}
use csr.Reconciler.Updates.{merged}
use csr.Reconciler.Updates.Laws as Updates
use csr.Reconciler.Updates.Laws.{UpdateRun, update-UpdateRun}
use csr.Reconciler.Loop.{reconcile}
use csr.Reconciler.Loop.Source
use csr.Reconciler.Loop.Source.{SourceRun, reconcile_source-SourceRun}
use csr.Reconciler.Loop.Key
use csr.Reconciler.Loop.Key.{
  FoundRun, processed, updating, is_unchanged, looked, reconcile-FoundRun,
}
use csr.Reconciler.Loop.Jobs.{succeeded, reconcile-removed}
use csr.Reconciler.Lifecycle.Leaves.{in_cache, read-eq, unchanged-finalizers}
use csr.Reconciler.Lifecycle.{
  newly, or_stored, HasFinalizer, World, reconcile_world, IsPlaced, Answers,
}

-- Nothing of the controller's is left on the source.
abbrev IsFree : CloudSchedulerSource → Type 0
IsFree s = contains (finalizers s) finalizer_name ≡ false

SourceRun-removed :
    {V : Vendor} (env : Env V) (ra : String) (csr : CloudSchedulerSource) (h : History V)
    (time : String) (out : Source.Outcome V)
    → csr.object_meta.deletion_timestamp ≡ some time
    → SourceRun env ra csr h out
    → out.0 ≡ ok tt
    → out.1.0 ≡ remove_finalizer V csr
SourceRun-removed env ra csr h time out gone (SourceRun.unresolved _ live _ _) = absurd (cc)
SourceRun-removed env ra csr h time out gone (SourceRun.unserved _ _ live _ _ _) = absurd (cc)
SourceRun-removed env ra csr h time out gone (SourceRun.undomained _ _ live _ _ _ _) = absurd (cc)
SourceRun-removed env ra csr h time out gone (SourceRun.unscheduled _ _ _ live _ _ _ _ _) =
    absurd (cc)
SourceRun-removed env ra csr h time out gone (SourceRun.done _ _ _ live _ _ _ _ _) = absurd (cc)
SourceRun-removed env ra csr h time out gone (SourceRun.unremoved _ _ _ _ p) = rw p λ r. cc
SourceRun-removed env ra csr h time out gone (SourceRun.removed _ _ _ p) = rw p λ _. refl

module _ {V : Vendor} (env : Env V) (ra : String) (A : AreSets V) (S : IsSemantic V)
    (namespace name n : String) (s : CloudSchedulerSource)
    (R : Answers env namespace name n (some s)) (has : HasFinalizer s) (k : History V)
    (freed : (processed env ra s k).1.0 ≡ remove_finalizer V s) where
  abbrev done : Source.Outcome V
  done = processed env ra s k

  done-IsFree : IsFree done.1.0
  done-IsFree = rw freed (ground (arith, contains-remove_finalizer V A s finalizer_name))

  differs : finalizers s ≢ finalizers done.1.0
  differs same = cc (has, done-IsFree, ap (λ names. contains names finalizer_name) same)

  abbrev Frees : History V → Type 0
  Frees h = (s' : CloudSchedulerSource) × (newly h ≡ some s') × IsFree s'

  abbrev looked_again : History V
  looked_again = Updates.looked env done.1.0 done.1.1

  module _ (P : IsPlaced namespace name n s) where
    sent-Frees :
        (c : CloudSchedulerSource) (r : Result V.Error CloudSchedulerSource)
        → env.update_source looked_again done.1.0.object_meta.namespace (merged c done.1.0) ≡ r
        → Frees (updated_source done.1.0.object_meta.namespace (merged c done.1.0) r ∷ looked_again)
    sent-Frees c (ok s') p = (
      s',
      refl,
      ap (λ names. contains names finalizer_name) (R.keeps _ _ (merged c done.1.0) s' p)
          ∙ done-IsFree,
    )
    sent-Frees c (err e) p = absurd (R.accepts _ _ (merged c done.1.0) e p)

    UpdateRun-Frees :
        (out : Result V.Error CloudSchedulerSource × History V)
        → UpdateRun env done.1.0 done.1.1 out
        → Frees out.1
    UpdateRun-Frees out (UpdateRun.uncached e p q) = absurd (
        cc (
          p,
          ap (cached V done.1.0.object_meta.name) (in_cache env ra namespace name n s R.caches P k),
        ))
    UpdateRun-Frees out (UpdateRun.same existing p _ meta q) = absurd (
        differs (
          ap finalizers (read-eq env ra namespace name n s R.caches P k _ p)
          ∙ ap (λ m. items_of m.finalizers) meta))
    UpdateRun-Frees out (UpdateRun.sent_merged existing p _ q) = rw q (sent-Frees existing _ refl)

    updating-Frees : Frees (updating env ra s k).1
    updating-Frees = UpdateRun-Frees _ (update-UpdateRun env done.1.0 done.1.1)

    FoundRun-Frees : (out : Key.Outcome V) → FoundRun env ra s k out → Frees out.1
    FoundRun-Frees out (FoundRun.unchanged same p) =
        absurd (differs (unchanged-finalizers env ra S s k same))
    FoundRun-Frees out (FoundRun.unwritten _ _ _ p) = rw p updating-Frees
    FoundRun-Frees out (FoundRun.written _ _ _ p) = rw p updating-Frees

module _ {V : Vendor} (env : Env V) (ra : String) (initial : JobTable) (F : IsFaithful initial env)
    (A : AreSets V) (S : IsSemantic V) (key namespace name n : String) (s : CloudSchedulerSource)
    (h : History V) (split : V.split_meta_namespace_key key ≡ ok (namespace, name))
    (R : Answers env namespace name n (some s)) (P : IsPlaced namespace name n s) where
  held : cached V name (env.get_by_key h (cache_key namespace name)) ≡ ok s
  held = ap (cached V name) (R.caches h)

  abbrev world : World V
  world = reconcile_world env ra key (record { stored = some s; calls = h })

  -- The last `Reconcile` of a source: when it returns no error for a source that is being deleted
  -- and has the controller's finalizer, with the server accepting the update, then Cloud Scheduler
  -- holds no job of the source, and the server stores it without the finalizer, so that it can be
  -- dropped.
  pub reconcile-frees :
      (time : String)
      → s.object_meta.deletion_timestamp ≡ some time
      → HasFinalizer s
      → (reconcile env ra key h).0 ≡ ok tt
      → (jobs initial world.calls n ≡ none)
        × ((s' : CloudSchedulerSource) × (world.stored ≡ some s') × IsFree s')
  reconcile-frees time gone has success =
      let (s', written, free) =
        FoundRun-Frees env ra A S namespace name n s R has (looked env namespace name h) freed P _
          (reconcile-FoundRun env ra key namespace name s h split held) in
      (
        ap (jobs initial world.calls) (sym P.has_job)
            ∙ reconcile-removed env ra initial F key namespace name s h split held time gone
                success,
        (s', ap (λ o. or_stored o (some s)) written, free),
      )
    where
      freed : (processed env ra s (looked env namespace name h)).1.0 ≡ remove_finalizer V s
      freed =
          SourceRun-removed env ra s (looked env namespace name h) time _ gone
            (reconcile_source-SourceRun env ra s (looked env namespace name h))
            (succeeded env ra initial F key namespace name s h split held success)
