-- ===== src/Informers/Running.antt =====
-- Which informer `Start` of pkg/client/informers/externalversions/factory.go runs for a type.
use csr.Base.{ℕ, ◌≡◌, refl, true, false, some, List, [], ◌∷◌, arith, ◌∙◌, inl, inr}
use csr.Informers.{
  Machinery, SharedInformerFactory, lookup, is_started, start_one, start_all, start, apply_options,
  new_shared_informer_factory, new_shared_informer_factory_with_options,
}
use csr.Informers.Starting.{start_one-is_started}

module _ (M : Machinery) where
  abbrev Entries : Type 0
  Entries = List (M.Kind × M.Informer)

  -- A new factory has started nothing.
  pub started-new_shared_informer_factory :
      (client : M.Client) (resync : ℕ)
      → (new_shared_informer_factory M client resync).started_informers ≡ []
  unfolding new_shared_informer_factory_with_options apply_options
  started-new_shared_informer_factory client resync = refl

  -- A type that is started already keeps its informer.
  start_one-kept :
      (kind : M.Kind) (informer : M.Informer) (s : List M.Kind × Entries) (j : M.Kind)
      → is_started M s.0 j ≡ true
      → lookup ⦃e = M.kind_eq⦄ (start_one M kind informer s).1 j ≡ lookup ⦃e = M.kind_eq⦄ s.1 j
  unfolding start_one
  start_one-kept kind informer (started, run) j old = ground arith

  start_all-kept :
      (informers : Entries) (s : List M.Kind × Entries) (j : M.Kind)
      → is_started M s.0 j ≡ true
      → lookup ⦃e = M.kind_eq⦄ (start_all M informers s).1 j ≡ lookup ⦃e = M.kind_eq⦄ s.1 j
  unfolding start_all
  start_all-kept [] s j old = refl
  start_all-kept ((kind, informer) ∷ informers) s j old =
      start_all-kept informers _ j (start_one-is_started M kind informer s j (inl old))
      ∙ start_one-kept kind informer s j old

  start_one-runs :
      (kind : M.Kind) (informer : M.Informer) (s : List M.Kind × Entries)
      → is_started M s.0 kind ≡ false
      → lookup ⦃e = M.kind_eq⦄ (start_one M kind informer s).1 kind ≡ some informer
  unfolding start_one
  start_one-runs kind informer (started, run) new = ground arith

  start_one-other :
      (kind : M.Kind) (informer : M.Informer) (s : List M.Kind × Entries) (j : M.Kind)
      → ¬ (j ≡ kind)
      → is_started M s.0 j ≡ false
      → is_started M (start_one M kind informer s).0 j ≡ false
  unfolding start_one
  start_one-other kind informer (started, run) j differ new = ground arith

  start_all-runs :
      (informers : Entries) (s : List M.Kind × Entries) (j : M.Kind) (i : M.Informer)
      → is_started M s.0 j ≡ false
      → lookup ⦃e = M.kind_eq⦄ informers j ≡ some i
      → lookup ⦃e = M.kind_eq⦄ (start_all M informers s).1 j ≡ some i
  unfolding start_all
  start_all-runs [] s j i new held = cc
  start_all-runs ((kind, informer) ∷ informers) s j i new held = elim (M.kind_eq.dec j kind) [
    | yes same ↦
        start_all-kept informers _ j (start_one-is_started M kind informer s j (inr same))
        ∙ rw same (start_one-runs kind informer s (rw (← same) new))
        ∙ held_first same
    | no differ ↦
        start_all-runs informers _ j i (start_one-other kind informer s j differ new) (ground arith)
  ]
    where
      held_first : j ≡ kind → some informer ≡ some i
      held_first same = ground arith

  -- The first `Start` after a type's informer has been asked for runs that informer.
  pub start-runs :
      (f : SharedInformerFactory M) (run : Entries) (j : M.Kind) (i : M.Informer)
      → is_started M f.started_informers j ≡ false
      → lookup ⦃e = M.kind_eq⦄ f.informers j ≡ some i
      → lookup ⦃e = M.kind_eq⦄ (start M (f, run)).1 j ≡ some i
  unfolding start
  start-runs f run j i new held = start_all-runs f.informers (f.started_informers, run) j i new held
