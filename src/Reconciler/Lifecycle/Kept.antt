-- ===== src/Reconciler/Lifecycle/Kept.antt =====
-- What a job requires of its source and the finalizer, through the moves of the source's life.
use csr.Base.{
  String, ◌≡◌, refl, sym, ap, ◌∙◌, ◌⊎◌, inl, inr, Option, none, some, Result, ok, err, ◌∷◌,
  contains, string_eq,
}
use csr.Api.{CloudSchedulerSource}
use csr.Api.Meta.{items_of}
use csr.Lister.Laws.{cached}
use csr.Platform.{Vendor, Env, History, updated_source}
use csr.Platform.Jobs.{JobTable, jobs, IsFaithful}
use csr.Platform.Semantic.{IsSemantic}
use csr.Platform.Sets.{AreSets}
use csr.Reconciler.Finalizers.{finalizer_name}
use csr.Reconciler.Finalizers.Laws.{finalizers}
use csr.Reconciler.Jobs.Removal.{job_name}
use csr.Reconciler.Updates.{merged}
use csr.Reconciler.Updates.Laws as Updates
use csr.Reconciler.Updates.Laws.{UpdateRun, update-UpdateRun}
use csr.Reconciler.Loop.Source
use csr.Reconciler.Loop.Source.{SourceRun, reconcile_source-SourceRun}
use csr.Reconciler.Loop.Key
use csr.Reconciler.Loop.Key.{
  FoundRun, processed, updating, is_unchanged, looked, reconcile-FoundRun, reconcile-of_uncached,
}
use csr.Reconciler.Loop.Workers.{apply-other}
use csr.Reconciler.Lifecycle.{
  newly, or_stored, HasFinalizer, World, reconcile_world, IsPlaced, Serves, IsHeld, Move, created,
  changed, dropped, elsewhere, reconciled, Lived, unborn, later,
}
use csr.Reconciler.Lifecycle.Leaves.{
  SourceRun-Leaves, SourceRun-newly, in_cache, read-eq, unchanged-finalizers,
}

abbrev pub ArePlaced : String → String → String → Option CloudSchedulerSource → Type 0
ArePlaced namespace name n none = Unit
ArePlaced namespace name n (some s) = IsPlaced namespace name n s

-- Where a job of the source is there, so is the source, with the finalizer.
pub record IsKept {V : Vendor} (initial : JobTable) (namespace name n : String) (w : World V)
    : Type 0 where
  pub placed : ArePlaced namespace name n w.stored
  pub held : (jobs initial w.calls n ≡ none) ⊎ IsHeld w.stored

module _ {V : Vendor} (env : Env V) (ra : String) (initial : JobTable) (F : IsFaithful initial env)
    (A : AreSets V) (S : IsSemantic V) (namespace name n : String) (s : CloudSchedulerSource)
    (R : Serves env namespace name n (some s)) (P : IsPlaced namespace name n s) (k : History V)
    (quiet : newly k ≡ none) (held : (jobs initial k n ≡ none) ⊎ HasFinalizer s) where
  abbrev done : Source.Outcome V
  done = processed env ra s k

  abbrev ran : SourceRun env ra s k done
  ran = reconcile_source-SourceRun env ra s k

  -- What a source with these finalizers has to do with the jobs that processing leaves
  abbrev Holds : CloudSchedulerSource → Type 0
  Holds c = (jobs initial done.1.1 n ≡ none) ⊎ HasFinalizer c

  Holds-processed : Holds done.1.0
  Holds-processed = elim (SourceRun-Leaves env ra initial F A s k done ran) [
    | inr (inl has) ↦ inr has
    | inr (inr gone) ↦ inl (ap (jobs initial done.1.1) (sym P.has_job) ∙ gone)
    | inl (same, jobs_same) ↦ elim held [
      | inl gone ↦ inl (
          ap (jobs initial done.1.1) (sym P.has_job)
          ∙ jobs_same
          ∙ ap (jobs initial k) P.has_job
          ∙ gone)
      | inr has ↦ inr (ap (λ c. contains (finalizers c) finalizer_name) same ∙ has)
    ]
  ]

  Holds-of_same : (c : CloudSchedulerSource) → finalizers c ≡ finalizers done.1.0 → Holds c
  Holds-of_same c same = elim Holds-processed [
    | inl gone ↦ inl gone
    | inr has ↦ inr (ap (λ names. contains names finalizer_name) same ∙ has)
  ]

  abbrev Keeps : History V → Type 0
  Keeps h =
      IsKept initial namespace name n (record { stored = or_stored (newly h) (some s); calls = h })

  merged-IsPlaced :
      (c : CloudSchedulerSource) → s ≡ c → IsPlaced namespace name n (merged c done.1.0)
  merged-IsPlaced c same = record {
    in_namespace = ap (λ x. x.object_meta.namespace) (sym same) ∙ P.in_namespace;
    named = ap (λ x. x.object_meta.name) (sym same) ∙ P.named;
    has_job = ap job_name (sym same) ∙ P.has_job;
  }

  abbrev looked_again : History V
  looked_again = Updates.looked env done.1.0 done.1.1

  sent-Keeps :
      (c : CloudSchedulerSource) (r : Result V.Error CloudSchedulerSource)
      → s ≡ c
      → env.update_source looked_again done.1.0.object_meta.namespace (merged c done.1.0) ≡ r
      → Keeps (updated_source done.1.0.object_meta.namespace (merged c done.1.0) r ∷ looked_again)
  sent-Keeps c (ok s') same p = record {
    placed = R.places _ _ (merged c done.1.0) s' p (merged-IsPlaced c same);
    held = Holds-of_same s' (R.keeps _ _ (merged c done.1.0) s' p);
  }
  sent-Keeps c (err e) same p = record {
    placed = P;
    held = inr (R.refuses _ _ (merged c done.1.0) e p);
  }

  UpdateRun-Keeps :
      (out : Result V.Error CloudSchedulerSource × History V)
      → UpdateRun env done.1.0 done.1.1 out
      → Keeps out.1
  UpdateRun-Keeps out (UpdateRun.uncached e p q) = absurd (
      cc (
        p,
        ap (cached V done.1.0.object_meta.name) (in_cache env ra namespace name n s R.caches P k),
      ))
  UpdateRun-Keeps out (UpdateRun.same existing p _ meta q) =
      let same : s ≡ existing = read-eq env ra namespace name n s R.caches P k _ p in
      rw q (record {
        placed = P;
        held = Holds-of_same s (ap finalizers same ∙ ap (λ m. items_of m.finalizers) meta);
      })
  UpdateRun-Keeps out (UpdateRun.sent_merged existing p _ q) =
      rw q (sent-Keeps existing _ (read-eq env ra namespace name n s R.caches P k _ p) refl)

  updating-Keeps : Keeps (updating env ra s k).1
  updating-Keeps = UpdateRun-Keeps _ (update-UpdateRun env done.1.0 done.1.1)

  FoundRun-Keeps : (out : Key.Outcome V) → FoundRun env ra s k out → Keeps out.1
  FoundRun-Keeps out (FoundRun.unchanged same p) =
      rw (p, SourceRun-newly env ra s k quiet done ran)
        (record { placed = P; held = Holds-of_same s (unchanged-finalizers env ra S s k same) })
  FoundRun-Keeps out (FoundRun.unwritten _ _ _ p) = rw p updating-Keeps
  FoundRun-Keeps out (FoundRun.written _ _ _ p) = rw p updating-Keeps

module _ {V : Vendor} (ra : String) (initial : JobTable) (A : AreSets V) (S : IsSemantic V)
    (key namespace name n : String)
    (split : V.split_meta_namespace_key key ≡ ok (namespace, name)) where
  reconciled-IsKept :
      (env : Env V) (stored : Option CloudSchedulerSource) (h : History V)
      → IsFaithful initial env
      → Serves env namespace name n stored
      → IsKept initial namespace name n (record { stored = stored; calls = h })
      → IsKept initial namespace name n
          (reconcile_world env ra key (record { stored = stored; calls = h }))
  reconciled-IsKept env none h F R k =
      elim (reconcile-of_uncached env ra key namespace name h _ split
        (ap (cached V name) (R.caches h))) [
          | inl p ↦ rw p (record { placed = tt; held = k.held })
          | inr p ↦ rw p (record { placed = tt; held = k.held })
        ]
  reconciled-IsKept env (some s) h F R k =
      FoundRun-Keeps env ra initial F A S namespace name n s R k.placed
        (looked env namespace name h) refl k.held _
        (reconcile-FoundRun env ra key namespace name s h split (ap (cached V name) (R.caches h)))

  -- The invariant at a world whose stored object is known.
  IsHeld-of_stored :
      (w : World V) (stored : Option CloudSchedulerSource)
      → w.stored ≡ stored
      → IsKept initial namespace name n w
      → (jobs initial w.calls n ≡ none) ⊎ IsHeld stored
  IsHeld-of_stored w stored there k = rw (← there) k.held

  Move-IsKept :
      {w w' : World V}
      → Move ra initial key namespace name n w w'
      → IsKept initial namespace name n w
      → IsKept initial namespace name n w'
  Move-IsKept {w} (created s placed fresh p) k = rw p (record {
    placed = placed;
    held = elim (IsHeld-of_stored w none fresh k) [ inl gone ↦ inl gone | inr h ↦ absurd h ];
  })
  Move-IsKept {w} (changed s s' placed keeps there p) k = rw p (record {
    placed = placed;
    held = elim (IsHeld-of_stored w (some s) there k) [
      | inl gone ↦ inl gone
      | inr h ↦ inr (keeps h)
    ];
  })
  Move-IsKept {w} (dropped s off there p) k = rw p (record {
    placed = tt;
    held = elim (IsHeld-of_stored w (some s) there k) [ inl gone ↦ inl gone | inr h ↦ absurd (cc) ];
  })
  Move-IsKept {w} (elsewhere e other differs about p) k = rw p (record {
    placed = k.placed;
    held = elim k.held [
      | inl gone ↦ inl (apply-other e (jobs initial w.calls) n other differs about ∙ gone)
      | inr h ↦ inr h
    ];
  })
  Move-IsKept (reconciled env F R p) k = rw p (reconciled-IsKept env _ _ F R k)

  -- From a world with no source and no job of the name `n`, through moves of which these conditions
  -- hold: users keep the controller's finalizer on the source and its job's name `n`; the server
  -- drops a source only without that finalizer; whenever the controller reconciles, its cache has
  -- the stored source, the server keeps the finalizers and the place of an update that it accepts,
  -- and it refuses one only where the stored source has the finalizer already; Cloud Scheduler
  -- answers faithfully, and nobody else's calls are about the job. Then, as long as Cloud Scheduler
  -- holds the job, the server stores the source with the controller's finalizer.
  pub Lived-IsKept :
      {w : World V}
      → initial n ≡ none
      → Lived ra initial key namespace name n w
      → IsKept initial namespace name n w
  Lived-IsKept fresh unborn = record { placed = tt; held = inl fresh }
  Lived-IsKept fresh (later l m) = Move-IsKept m (Lived-IsKept fresh l)
