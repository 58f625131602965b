-- ===== src/Reconciler/Lifecycle/Leak.antt =====
-- A `Reconcile` whose update the server refuses: the finalizer is written after the job is made.
use csr.Base.{
  String, ◌≡◌, ◌≢◌, refl, ap, ◌∙◌, false, none, some, Result, ok, err, ◌∷◌, contains, arith,
  string_eq,
}
use csr.Api.{CloudSchedulerSource}
use csr.Api.Meta.{items_of}
use csr.Lister.{cache_key}
use csr.Lister.Laws.{cached, cached-eq-ok}
use csr.Platform.{Vendor, Env, History, updated_source}
use csr.Platform.Jobs.{JobTable, IsFaithful}
use csr.Platform.Semantic.{IsSemantic}
use csr.Platform.Sets.{AreSets}
use csr.Reconciler.Finalizers.{finalizer_name, add_finalizer}
use csr.Reconciler.Finalizers.Laws.{finalizers, contains-add_finalizer}
use csr.Reconciler.Jobs.Removal.{job_name}
use csr.Reconciler.Updates.{merged}
use csr.Reconciler.Updates.Laws as Updates
use csr.Reconciler.Updates.Laws.{UpdateRun, update-UpdateRun}
use csr.Reconciler.Loop.{reconcile}
use csr.Reconciler.Loop.Source.{reconcile_source-SourceRun}
use csr.Reconciler.Loop.Key
use csr.Reconciler.Loop.Key.{FoundRun, processed, updating, looked, reconcile-FoundRun}
use csr.Reconciler.Loop.Jobs.{IsScheduled, SourceRun-IsScheduled, reconcile-jobs}
use csr.Reconciler.Loop.Twice.{settled, SourceRun-settled}
use csr.Reconciler.Lifecycle.{newly, HasFinalizer}
use csr.Reconciler.Lifecycle.Leaves.{unchanged-finalizers}

-- The cache gives the source whenever it is asked, and every update is refused.
pub record Refuses {V : Vendor} (env : Env V) (s : CloudSchedulerSource) : Type 0 where
  pub caches :
      (h : History V)
      → env.get_by_key h (cache_key s.object_meta.namespace s.object_meta.name) ≡ ok (some s)
  pub refuses :
      (h : History V) (ns : String) (c s' : CloudSchedulerSource) → env.update_source h ns c ≢ ok s'

module _ {V : Vendor} (env : Env V) (ra : String) (initial : JobTable) (F : IsFaithful initial env)
    (A : AreSets V) (S : IsSemantic V) (s : CloudSchedulerSource) (R : Refuses env s)
    (bare : contains (finalizers s) finalizer_name ≡ false)
    (live : s.object_meta.deletion_timestamp ≡ none) (k : History V)
    (success : (processed env ra s k).0 ≡ ok tt) where
  done-settled : (uri : String) × ((processed env ra s k).1.0 ≡ settled V s uri)
  done-settled =
      SourceRun-settled env ra initial F s k _ live (reconcile_source-SourceRun env ra s k) success

  done-HasFinalizer : HasFinalizer (processed env ra s k).1.0
  done-HasFinalizer =
      ap (λ c. contains (finalizers c) finalizer_name) done-settled.1
      ∙ ground (arith, contains-add_finalizer V A s finalizer_name)

  differs : finalizers s ≢ finalizers (processed env ra s k).1.0
  differs same = cc (bare, done-HasFinalizer, ap (λ names. contains names finalizer_name) same)

  in_place :
      cache_key
        (processed env ra s k).1.0.object_meta.namespace
        (processed env ra s k).1.0.object_meta.name
      ≡ cache_key s.object_meta.namespace s.object_meta.name
  unfolding add_finalizer
  in_place = ap (λ c. cache_key c.object_meta.namespace c.object_meta.name) done-settled.1

  in_cache :
      env.get_by_key (processed env ra s k).1.1 (
        cache_key
          (processed env ra s k).1.0.object_meta.namespace
          (processed env ra s k).1.0.object_meta.name)
      ≡ ok (some s)
  in_cache = ap (env.get_by_key (processed env ra s k).1.1) in_place ∙ R.caches _

  -- The update leaves the server's source as it is, and fails.
  abbrev Fails : Key.Outcome V → Type 0
  Fails out = ((e : V.Error) × (out.0 ≡ err e)) × (newly out.1 ≡ none)

  abbrev again : History V
  again = Updates.looked env (processed env ra s k).1.0 (processed env ra s k).1.1

  abbrev written_at : String
  written_at = (processed env ra s k).1.0.object_meta.namespace

  sent-Refused :
      (c : CloudSchedulerSource) (r : Result V.Error CloudSchedulerSource)
      → env.update_source again written_at (merged c (processed env ra s k).1.0) ≡ r
      → ((e : V.Error) × (r ≡ err e))
        × (newly (updated_source written_at (merged c (processed env ra s k).1.0) r ∷ again) ≡ none)
  sent-Refused c (ok s') p =
      absurd (R.refuses again written_at (merged c (processed env ra s k).1.0) s' p)
  sent-Refused c (err e) p = ((e, refl), refl)

  UpdateRun-Refused :
      (out : Result V.Error CloudSchedulerSource × History V)
      → UpdateRun env (processed env ra s k).1.0 (processed env ra s k).1.1 out
      → ((e : V.Error) × (out.0 ≡ err e)) × (newly out.1 ≡ none)
  UpdateRun-Refused out (UpdateRun.uncached e p q) =
      absurd (cc (p, ap (cached V (processed env ra s k).1.0.object_meta.name) in_cache))
  UpdateRun-Refused out (UpdateRun.same existing p _ meta q) =
      let found = cached-eq-ok V (processed env ra s k).1.0.object_meta.name _ p in
      let same : s ≡ existing = cc (in_cache) in
      absurd (differs (ap finalizers same ∙ ap (λ m. items_of m.finalizers) meta))
  UpdateRun-Refused out (UpdateRun.sent_merged existing p _ q) = rw q (sent-Refused existing _ refl)

  updating-Refused :
      ((e : V.Error) × ((updating env ra s k).0 ≡ err e)) × (newly (updating env ra s k).1 ≡ none)
  updating-Refused =
      UpdateRun-Refused _
        (update-UpdateRun env (processed env ra s k).1.0 (processed env ra s k).1.1)

  FoundRun-Fails : (out : Key.Outcome V) → FoundRun env ra s k out → Fails out
  FoundRun-Fails out (FoundRun.unchanged same p) =
      absurd (differs (unchanged-finalizers env ra S s k same))
  FoundRun-Fails out (FoundRun.unwritten e _ _ p) = rw p ((e, refl), updating-Refused.1)
  FoundRun-Fails out (FoundRun.written c _ written p) = absurd (cc (written, updating-Refused.0.1))

module _ {V : Vendor} (env : Env V) (ra : String) (initial : JobTable) (F : IsFaithful initial env)
    (A : AreSets V) (S : IsSemantic V) (key : String) (s : CloudSchedulerSource) (h : History V)
    (split : V.split_meta_namespace_key key ≡ ok (s.object_meta.namespace, s.object_meta.name))
    (R : Refuses env s) where
  held :
      cached V s.object_meta.name
        (env.get_by_key h (cache_key s.object_meta.namespace s.object_meta.name))
      ≡ ok s
  held = ap (cached V s.object_meta.name) (R.caches h)

  abbrev k : History V
  k = looked env s.object_meta.namespace s.object_meta.name h

  -- When the server refuses the update of a new source, whose processing has worked, `Reconcile`
  -- fails, Cloud Scheduler holds the job of the source, and the server stores the source without
  -- the finalizer that would guard the job.
  pub reconcile-unguarded :
      contains (finalizers s) finalizer_name ≡ false
      → s.object_meta.deletion_timestamp ≡ none
      → (processed env ra s k).0 ≡ ok tt
      → ((e : V.Error) × ((reconcile env ra key h).0 ≡ err e))
        × IsScheduled initial s (reconcile env ra key h).1
        × (newly (reconcile env ra key h).1 ≡ none)
  reconcile-unguarded bare live success =
      let (failed, quiet) =
        FoundRun-Fails env ra initial F A S s R bare live k success _
          (reconcile-FoundRun env ra key _ _ s h split held) in
      let there =
        SourceRun-IsScheduled env ra initial F s k _ live (reconcile_source-SourceRun env ra s k)
          success in
      (
        failed,
        record {
          job = there.job;
          uri = there.uri;
          held =
              ap (λ t. t (job_name s)) (reconcile-jobs env ra initial key _ _ s h split held)
              ∙ there.held;
          agrees = there.agrees;
        },
        quiet,
      )
