-- ===== src/Reconciler/Loop/Reach.antt =====
-- Sequences of calls of `Reconcile`, and what holds after every one of them.
use csr.Base.{
  String, ◌≡◌, refl, ap, true, false, ◌⊎◌, inl, inr, none, Result, [], contains, string_eq,
}
use csr.Api.{CloudSchedulerSource}
use csr.Lister.{cache_key}
use csr.Lister.Laws.{cached-eq-ok}
use csr.Platform.{Vendor, Env, History}
use csr.Platform.Jobs.{JobTable, jobs, IsFaithful}
use csr.Platform.Semantic.{IsSemantic}
use csr.Platform.Sets.{AreSets}
use csr.Reconciler.Finalizers.{finalizer_name, add_finalizer, remove_finalizer}
use csr.Reconciler.Finalizers.Laws.{finalizers}
use csr.Reconciler.Jobs.Removal.{job_name}
use csr.Reconciler.Updates.Laws.{UpdateRun, update-UpdateRun}
use csr.Reconciler.Loop.{reconcile}
use csr.Reconciler.Loop.Source
use csr.Reconciler.Loop.Source.{SourceRun, reconcile_source-SourceRun}
use csr.Reconciler.Loop.Key
use csr.Reconciler.Loop.Key.{
  KeyRun, FoundRun, processed, updating, is_unchanged, looked, reconcile-KeyRun,
}
use csr.Reconciler.Loop.Writes.{is_unchanged_refl}
use csr.Reconciler.Loop.Guard.{IsGuarded, IsSteady, MayWrite, SourceRun-IsGuarded}

-- Processing renames nothing.
pub SourceRun-name :
    {V : Vendor} (env : Env V) (ra : String) (csr : CloudSchedulerSource) (h : History V)
    (out : Source.Outcome V)
    → SourceRun env ra csr h out
    → (out.1.0.object_meta.namespace ≡ csr.object_meta.namespace)
      × (out.1.0.object_meta.name ≡ csr.object_meta.name)
unfolding add_finalizer remove_finalizer
SourceRun-name env ra csr h out (SourceRun.unresolved _ _ _ p) = rw p (refl, refl)
SourceRun-name env ra csr h out (SourceRun.unserved _ _ _ _ _ p) = rw p (refl, refl)
SourceRun-name env ra csr h out (SourceRun.undomained _ _ _ _ _ _ p) = rw p (refl, refl)
SourceRun-name env ra csr h out (SourceRun.unscheduled _ _ _ _ _ _ _ _ p) = rw p (refl, refl)
SourceRun-name env ra csr h out (SourceRun.done _ _ _ _ _ _ _ _ p) = rw p (refl, refl)
SourceRun-name env ra csr h out (SourceRun.unremoved _ _ _ _ p) = rw p (refl, refl)
SourceRun-name env ra csr h out (SourceRun.removed _ _ _ p) = rw p (refl, refl)

module _ {V : Vendor} (env : Env V) (ra : String) (initial : JobTable) (job_of : String → String)
    (F : IsFaithful initial env) (A : AreSets V) (S : IsSemantic V) (T : IsSteady env job_of) where
  UpdateRun-IsGuarded :
      (desired : CloudSchedulerSource) (h : History V)
      (out : Result V.Error CloudSchedulerSource × History V)
      → IsGuarded initial h
      → (contains (finalizers desired) finalizer_name ≡ true)
        ⊎ (jobs initial h
              (job_of (cache_key desired.object_meta.namespace desired.object_meta.name))
            ≡ none)
      → UpdateRun env desired h out
      → IsGuarded initial out.1
  UpdateRun-IsGuarded desired h out g safe (UpdateRun.uncached _ _ p) = rw p (tt, g)
  UpdateRun-IsGuarded desired h out g safe (UpdateRun.same _ _ _ _ p) = rw p (tt, g)
  UpdateRun-IsGuarded desired h out g safe (UpdateRun.sent_merged existing held _ p) =
      rw p (at_head safe, (tt, g))
    where
      moved :
          job_name existing
          ≡ job_of (cache_key desired.object_meta.namespace desired.object_meta.name)
      moved = (T.cached_as h _ existing (cached-eq-ok V _ _ held)).1

      at_head :
          (contains (finalizers desired) finalizer_name ≡ true)
            ⊎ (jobs initial h
                  (job_of (cache_key desired.object_meta.namespace desired.object_meta.name))
                ≡ none)
          → (contains (finalizers desired) finalizer_name ≡ true)
            ⊎ (jobs initial h (job_name existing) ≡ none)
      at_head (inl has) = inl has
      at_head (inr gone) = inr (rw moved gone)

  module _ (key : String) (original : CloudSchedulerSource) (k : History V)
      (g : IsGuarded initial k)
      (keyed : cache_key original.object_meta.namespace original.object_meta.name ≡ key)
      (placed : job_name original ≡ job_of key) where
    abbrev out : Source.Outcome V
    out = processed env ra original k

    abbrev ran : SourceRun env ra original k out
    ran = reconcile_source-SourceRun env ra original k

    safe_to_update :
        is_unchanged V original out.1.0 ≡ false
        → MayWrite env ra initial F A original k g out
        → (contains (finalizers out.1.0) finalizer_name ≡ true)
          ⊎ (jobs initial out.1.1
                (job_of (cache_key out.1.0.object_meta.namespace out.1.0.object_meta.name))
              ≡ none)
    safe_to_update changed (inl same) =
        absurd (cc (is_unchanged_refl S original, ap (λ c. is_unchanged V original c) same))
    safe_to_update changed (inr (inl has)) = inl has
    safe_to_update changed (inr (inr gone)) =
        let (ns, n) = SourceRun-name env ra original k out ran in
        inr (rw (ns, n, keyed, ← placed) gone)

    after_update :
        is_unchanged V original out.1.0 ≡ false → IsGuarded initial (updating env ra original k).1
    after_update changed =
        let (guarded, may) = SourceRun-IsGuarded env ra initial F A original k g out ran in
        UpdateRun-IsGuarded out.1.0 out.1.1 _ guarded (safe_to_update changed may)
          (update-UpdateRun env out.1.0 out.1.1)

    FoundRun-IsGuarded :
        (end : Key.Outcome V) → FoundRun env ra original k end → IsGuarded initial end.1
    FoundRun-IsGuarded end (FoundRun.unchanged _ p) =
        rw p (SourceRun-IsGuarded env ra initial F A original k g out ran).0
    FoundRun-IsGuarded end (FoundRun.unwritten _ changed _ p) = rw p (after_update changed)
    FoundRun-IsGuarded end (FoundRun.written _ changed _ p) = rw p (after_update changed)

  KeyRun-IsGuarded :
      (key : String) (h : History V) (end : Key.Outcome V)
      → IsGuarded initial h
      → KeyRun env ra key h end
      → IsGuarded initial end.1
  KeyRun-IsGuarded key h end g (KeyRun.malformed _ _ p) = rw p (tt, g)
  KeyRun-IsGuarded key h end g (KeyRun.vanished _ _ _ _ _ _ p) = rw p (tt, (tt, g))
  KeyRun-IsGuarded key h end g (KeyRun.uncached _ _ _ _ _ _ p) = rw p (tt, g)
  KeyRun-IsGuarded key h end g (KeyRun.found namespace name original _ held found) =
      let (keyed, placed) = T.cached_as h _ original (cached-eq-ok V _ _ held) in
      FoundRun-IsGuarded (cache_key namespace name) original (looked env namespace name h) (tt, g)
        keyed placed end found

  -- `Reconcile` keeps the guard.
  pub reconcile-IsGuarded :
      (key : String) (h : History V)
      → IsGuarded initial h
      → IsGuarded initial (reconcile env ra key h).1
  reconcile-IsGuarded key h g = KeyRun-IsGuarded key h _ g (reconcile-KeyRun env ra key h)

-- The histories that calls of `Reconcile` lead to, one after another, for any keys.
pub data Reached {V : Vendor} (env : Env V) (ra : String) : History V → Type 0 where
  start : Reached env ra []
  then_reconcile :
      {h : History V} (key : String) → Reached env ra h → Reached env ra (reconcile env ra key h).1

-- After any calls of `Reconcile`, whatever the services answered, every update that was sent carried
-- the finalizer or was sent when Cloud Scheduler held no job of the source. The specs of sources
-- keep their project and location, and Cloud Scheduler answers as it should.
pub Reached-IsGuarded :
    {V : Vendor} (env : Env V) (ra : String) (initial : JobTable) (job_of : String → String)
    → IsFaithful initial env
    → AreSets V
    → IsSemantic V
    → IsSteady env job_of
    → {h : History V} → Reached env ra h
    → IsGuarded initial h
Reached-IsGuarded env ra initial job_of F A S T start = tt
Reached-IsGuarded env ra initial job_of F A S T (then_reconcile {h} key r) =
    reconcile-IsGuarded env ra initial job_of F A S T key h
      (Reached-IsGuarded env ra initial job_of F A S T r)
