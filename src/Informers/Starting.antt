-- ===== src/Informers/Starting.antt =====
-- What `Start` and `WaitForCacheSync` of pkg/client/informers/externalversions/factory.go do over
-- a sequence of calls.
use mathlib.Core.Option.{map}
use csr.Base.{
  ◌≡◌, refl, Bool, true, false, none, List, [], ◌∷◌, arith, ◌⊎◌, inl, inr, Bool-cases, ap, ◌∙◌,
  if◌then◌else◌,
}
use csr.Informers.{
  Machinery, SharedInformerFactory, NewInformerFunc, lookup, is_started, start_one, start_all,
  start, informer_for, started_of, wait_for_all, wait_for_cache_sync,
}
use csr.Informers.Shared.{informer_of, informer_for-started}

module _ (M : Machinery) where
  abbrev Entries : Type 0
  Entries = List (M.Kind × M.Informer)

  abbrev pub has : {A : Type 0} → List (M.Kind × A) → M.Kind → Bool
  has [] kind = false
  has ((key, a) ∷ m) kind = elim (M.kind_eq.dec kind key) [ yes _ ↦ true | no _ ↦ has m kind ]

  -- No kind stands in the list twice.
  abbrev pub IsUnique : {A : Type 0} → List (M.Kind × A) → Type 0
  IsUnique [] = Unit
  IsUnique ((key, a) ∷ m) = (has m key ≡ false) × IsUnique m

  -- The informers run are of the kinds that count as started, each kind once.
  pub IsTracked : List M.Kind × Entries → Type 0
  IsTracked (started, run) =
      IsUnique run × ((kind : M.Kind) → has run kind ≡ is_started M started kind)

  start_one-IsTracked :
      (kind : M.Kind) (informer : M.Informer) (s : List M.Kind × Entries)
      → IsTracked s
      → IsTracked (start_one M kind informer s)
  unfolding start_one IsTracked
  start_one-IsTracked kind informer (started, run) (unique, agree) =
      elim (Bool-cases (is_started M started kind)) [
        | inl old ↦ rw old (unique, agree)
        | inr new ↦ rw new ((agree kind ∙ new, unique), λ j. ground (arith, agree j))
      ]

  start_all-IsTracked :
      (informers : Entries) (s : List M.Kind × Entries)
      → IsTracked s
      → IsTracked (start_all M informers s)
  unfolding start_all
  start_all-IsTracked [] s t = t
  start_all-IsTracked ((kind, informer) ∷ informers) s t =
      start_all-IsTracked informers _ (start_one-IsTracked kind informer s t)

  abbrev State : Type 0
  State = SharedInformerFactory M × (Entries × M.Heap)

  -- A factory that has been made and used: any calls of `InformerFor` and `Start`, in any order.
  pub data Used (initial : SharedInformerFactory M) (heap : M.Heap) : State → Type 0 where
    made : Used initial heap (initial, ([], heap))
    asked :
        (obj : M.Object) (new_func : NewInformerFunc M) (f : SharedInformerFactory M)
        (run : Entries) (h : M.Heap)
        → Used initial heap (f, (run, h))
        → Used initial heap (
          (informer_for M obj new_func (f, h)).1.0,
          (run, (informer_for M obj new_func (f, h)).1.1),
        )
    launched :
        (f : SharedInformerFactory M) (run : Entries) (h : M.Heap)
        → Used initial heap (f, (run, h))
        → Used initial heap ((start M (f, run)).0, ((start M (f, run)).1, h))

  Used-IsTracked :
      (initial : SharedInformerFactory M) (heap : M.Heap) (s : State)
      → initial.started_informers ≡ []
      → Used initial heap s
      → IsTracked (s.0.started_informers, s.1.0)
  unfolding start IsTracked
  Used-IsTracked initial heap _ fresh made = (tt, λ kind. rw fresh refl)
  Used-IsTracked initial heap _ fresh (asked obj new_func f run h used) =
      rw (informer_for-started M obj new_func f h) (Used-IsTracked initial heap _ fresh used)
  Used-IsTracked initial heap _ fresh (launched f run h used) =
      start_all-IsTracked f.informers _ (Used-IsTracked initial heap _ fresh used)

  -- Over any calls of `InformerFor` and `Start` on a new factory, in any order, no informer is run
  -- for a kind that one has been run for.
  pub Used-IsUnique :
      (initial : SharedInformerFactory M) (heap : M.Heap) (s : State)
      → initial.started_informers ≡ []
      → Used initial heap s
      → IsUnique s.1.0
  unfolding IsTracked
  Used-IsUnique initial heap s fresh used = (Used-IsTracked initial heap s fresh used).0

  pub start_one-is_started :
      (kind : M.Kind) (informer : M.Informer) (s : List M.Kind × Entries) (j : M.Kind)
      → (is_started M s.0 j ≡ true) ⊎ (j ≡ kind)
      → is_started M (start_one M kind informer s).0 j ≡ true
  unfolding start_one
  start_one-is_started kind informer (started, run) j (inl old) = ground arith
  start_one-is_started kind informer (started, run) j (inr same) = ground arith

  start_all-keeps :
      (informers : Entries) (s : List M.Kind × Entries) (j : M.Kind)
      → is_started M s.0 j ≡ true
      → is_started M (start_all M informers s).0 j ≡ true
  unfolding start_all
  start_all-keeps [] s j h = h
  start_all-keeps ((kind, informer) ∷ informers) s j h =
      start_all-keeps informers _ j (start_one-is_started kind informer s j (inl h))

  start_all-covers :
      (informers : Entries) (s : List M.Kind × Entries) (j : M.Kind)
      → has informers j ≡ true
      → is_started M (start_all M informers s).0 j ≡ true
  unfolding start_all
  start_all-covers [] s j h = cc
  start_all-covers ((kind, informer) ∷ informers) s j h = elim (M.kind_eq.dec j kind) [
    | yes same ↦ start_all-keeps informers _ j (start_one-is_started kind informer s j (inr same))
    | no differ ↦ start_all-covers informers _ j (ground arith)
  ]

  -- After `Start` every informer that the factory holds counts as started.
  pub start-covers :
      (f : SharedInformerFactory M) (run : Entries) (kind : M.Kind)
      → has f.informers kind ≡ true
      → is_started M (start M (f, run)).0.started_informers kind ≡ true
  unfolding start
  start-covers f run kind held = start_all-covers f.informers (f.started_informers, run) kind held

  AllStarted : Entries → List M.Kind → Type 0
  AllStarted informers kinds =
      (kind : M.Kind) → has informers kind ≡ true → is_started M kinds kind ≡ true

  start_all-of_AllStarted :
      (informers : Entries) (s : List M.Kind × Entries)
      → AllStarted informers s.0
      → start_all M informers s ≡ s
  unfolding start_all start_one AllStarted
  start_all-of_AllStarted [] s all = refl
  start_all-of_AllStarted ((kind, informer) ∷ informers) (kinds, run) all =
      rw (all kind (ground arith))
        (start_all-of_AllStarted informers (kinds, run) (λ j held. all j (ground arith)))

  -- A second `Start` runs nothing and changes nothing.
  pub start_twice : (s : SharedInformerFactory M × Entries) → start M (start M s) ≡ start M s
  unfolding start AllStarted
  start_twice (f, run) =
      ap (λ x. (record f { started_informers = x.0 }, x.1))
        (start_all-of_AllStarted f.informers _
          (λ kind held. start_all-covers f.informers (f.started_informers, run) kind held))

  lookup-waited :
      (wait : M.Informer → Bool) (kinds : List M.Kind) (informers : Entries) (kind : M.Kind)
      → lookup ⦃e = M.kind_eq⦄ (wait_for_all M wait (started_of M kinds informers)) kind ≡ (
          if is_started M kinds kind
          then map wait (lookup ⦃e = M.kind_eq⦄ informers kind)
          else none)
  unfolding wait_for_all started_of
  lookup-waited wait kinds [] kind = ground arith
  lookup-waited wait kinds ((key, informer) ∷ informers) kind =
      ground (arith, lookup-waited wait kinds informers kind)

  -- The wait covers the started informers and no others, each with its own answer.
  lookup-wait_for_cache_sync :
      (wait : M.Informer → Bool) (f : SharedInformerFactory M) (kind : M.Kind)
      → lookup ⦃e = M.kind_eq⦄ (wait_for_cache_sync M wait f) kind
        ≡ (if is_started M f.started_informers kind then map wait (informer_of M f kind) else none)
  unfolding wait_for_cache_sync
  lookup-wait_for_cache_sync wait f kind = lookup-waited wait f.started_informers f.informers kind
