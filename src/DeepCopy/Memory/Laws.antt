-- ===== src/DeepCopy/Memory/Laws.antt =====
-- What a value with pointers reads as, where its addresses lie, and which addresses a copy writes.
use mathlib.Core.Option.{map}
use csr.Base.{
  ℕ, ◌≡◌, ◌≤◌, ◌<◌, nat_eq, refl, ap, ◌∙◌, Option, none, some, List, [], ◌∷◌, arith, All,
}
use csr.Api.{CloudSchedulerSource, CloudSchedulerSourceSpec}
use csr.DeepCopy.Memory.{Pointed, Memory, SpecCell, SourceCell, sink_into}

-- What the vendored `DeepCopyInto` promises: it writes new addresses only, and its copy reads as
-- the original and lies in them.
pub record IsMetaCopying (P : Pointed) : Type 0 where
  pub widen :
      (lo hi lo' hi' : ℕ) (meta : P.Meta)
      → lo' ≤ lo
      → hi ≤ hi'
      → P.Within lo hi meta
      → P.Within lo' hi' meta
  pub reads :
      (lo hi : ℕ) (b b' : ℕ → P.Block) (meta : P.Meta)
      → P.Within lo hi meta
      → ((a : ℕ) → lo ≤ a → a < hi → b a ≡ b' a)
      → P.view b meta ≡ P.view b' meta
  pub grows : (meta : P.Meta) (n : ℕ) (b : ℕ → P.Block) → n ≤ (P.deep_copy_into meta n b).1.0
  pub keeps :
      (meta : P.Meta) (n : ℕ) (b : ℕ → P.Block) (a : ℕ)
      → a < n
      → b a ≡ (P.deep_copy_into meta n b).1.1 a
  pub fresh :
      (meta : P.Meta) (n : ℕ) (b : ℕ → P.Block)
      → P.Within n (P.deep_copy_into meta n b).1.0 (P.deep_copy_into meta n b).0
  pub same :
      (meta : P.Meta) (n : ℕ) (b : ℕ → P.Block)
      → P.Within 0 n meta
      → P.view (P.deep_copy_into meta n b).1.1 (P.deep_copy_into meta n b).0 ≡ P.view b meta

abbrev pub IsWithin : ℕ → ℕ → Option ℕ → Type 0
IsWithin lo hi none = Unit
IsWithin lo hi (some p) = (lo ≤ p) × (p < hi)

module _ (P : Pointed) where
  -- The two memories agree on the addresses from `lo` on and below `hi`.
  abbrev pub SameOn : ℕ → ℕ → Memory P → Memory P → Type 0
  SameOn lo hi m m' =
      (a : ℕ)
      → lo ≤ a
      → a < hi
      → (m.blocks a ≡ m'.blocks a)
        × (m.references a ≡ m'.references a)
        × (m.sources a ≡ m'.sources a)
        × (m.arrays a ≡ m'.arrays a)
        × (m.lists a ≡ m'.lists a)
        × (m.specs a ≡ m'.specs a)
        × (m.statuses a ≡ m'.statuses a)

  abbrev pub view_spec : Memory P → SpecCell → CloudSchedulerSourceSpec
  view_spec m spec = record {
    service_account_name = spec.service_account_name;
    google_cloud_project = spec.google_cloud_project;
    location = spec.location;
    schedule = spec.schedule;
    time_zone = spec.time_zone;
    http_method = spec.http_method;
    body = spec.body;
    sink = map m.references spec.sink;
  }

  abbrev pub view_source : Memory P → SourceCell P → CloudSchedulerSource
  view_source m source = record {
    type_meta = source.type_meta;
    object_meta = P.view m.blocks source.object_meta;
    spec = view_spec m source.spec;
    status = source.status;
  }

  abbrev pub view_items : Memory P → List (SourceCell P) → List CloudSchedulerSource
  view_items m [] = []
  view_items m (source ∷ sources) = view_source m source ∷ view_items m sources

  abbrev pub IsSourceWithin : ℕ → ℕ → SourceCell P → Type 0
  IsSourceWithin lo hi source = P.Within lo hi source.object_meta × IsWithin lo hi source.spec.sink

  abbrev pub AreWithin : ℕ → ℕ → List (SourceCell P) → Type 0
  AreWithin lo hi sources = All (IsSourceWithin lo hi) sources

  -- One copy: from the memory `m`, `out` is the copy of what reads as `original`.
  pub record IsCopy {V C : Type 0} (view : Memory P → C → V)
      (Inside : Memory P → ℕ → ℕ → C → Type 0) (m : Memory P) (original : V) (out : C × Memory P)
      : Type 0 where
    pub grows : m.next ≤ out.1.next
    pub keeps : SameOn 0 m.next m out.1
    pub fresh : Inside out.1 m.next out.1.next out.0
    pub same : view out.1 out.0 ≡ original

  pub SameOn-trans :
      (lo hi lo' hi' : ℕ) (a b c : Memory P)
      → lo' ≤ lo
      → hi ≤ hi'
      → SameOn lo hi a b
      → SameOn lo' hi' b c
      → SameOn lo hi a c
  SameOn-trans lo hi lo' hi' a b c l h s t x p q =
      let s' = s x p q in
      let t' = t x (omega arith) (omega arith) in
      (s'.0 ∙ t'.0, s'.1 ∙ t'.1, s'.2 ∙ t'.2, s'.3 ∙ t'.3, s'.4 ∙ t'.4, s'.5 ∙ t'.5, s'.6 ∙ t'.6)

  pub view_sink-SameOn :
      (lo hi : ℕ) (m m' : Memory P) (sink : Option ℕ)
      → IsWithin lo hi sink
      → SameOn lo hi m m'
      → map m.references sink ≡ map m'.references sink
  view_sink-SameOn lo hi m m' none w s = refl
  view_sink-SameOn lo hi m m' (some r) w s = ap some (s r w.0 w.1).1

  pub sink_into-IsCopy :
      (m : Memory P) (sink : Option ℕ)
      → IsCopy
          (λ m' (s : Option ℕ). map m'.references s)
          (λ m'. IsWithin)
          m
          (map m.references sink)
          (sink_into P sink m)
  unfolding sink_into
  sink_into-IsCopy m none = record {
    grows = omega arith;
    keeps = λ a p q. (refl, refl, refl, refl, refl, refl, refl);
    fresh = tt;
    same = refl;
  }
  sink_into-IsCopy m (some r) = record {
    grows = omega arith;
    keeps = λ a p q. (refl, ground arith, refl, refl, refl, refl, refl);
    fresh = (omega arith, omega arith);
    same = ground arith;
  }
