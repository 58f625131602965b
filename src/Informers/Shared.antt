-- ===== src/Informers/Shared.antt =====
-- What `InformerFor` of pkg/client/informers/externalversions/factory.go keeps shared.
use csr.Base.{◌≡◌, ◌≢◌, refl, Option, none, some, List, [], ◌∷◌, Eq, arith, ◌⊎◌, inl, inr}
use csr.Informers.{
  Machinery, SharedInformerFactory, NewInformerFunc, lookup, assign, existing_or_made, informer_for,
}

module _ {ℓ} {K A : Type ℓ} ⦃e : Eq K⦄ where
  pub lookup-assign : (m : List (K × A)) (k : K) (a : A) → lookup (assign m k a) k ≡ some a
  lookup-assign [] k a = ground arith
  lookup-assign ((key, b) ∷ m) k a = ground (arith, lookup-assign m k a)

  pub lookup-assign_other :
      (m : List (K × A)) (k j : K) (a : A) → j ≢ k → lookup (assign m k a) j ≡ lookup m j
  lookup-assign_other [] k j a differ = ground arith
  lookup-assign_other ((key, b) ∷ m) k j a differ =
      ground (arith, lookup-assign_other m k j a differ)

Option-cases {ℓ} : {A : Type ℓ} (x : Option A) → ((a : A) × (x ≡ some a)) ⊎ (x ≡ none)
Option-cases (some a) = inl (a, refl)
Option-cases none = inr refl

module _ (M : Machinery) where
  abbrev pub informer_of : SharedInformerFactory M → M.Kind → Option M.Informer
  informer_of f kind = lookup ⦃e = M.kind_eq⦄ f.informers kind

  -- `InformerFor` gives the informer that the factory holds for the kind from then on.
  pub informer_for-held :
      (obj : M.Object) (new_func : NewInformerFunc M) (f : SharedInformerFactory M) (heap : M.Heap)
      → informer_of (informer_for M obj new_func (f, heap)).1.0 (M.type_of obj)
        ≡ some (informer_for M obj new_func (f, heap)).0
  unfolding informer_for existing_or_made
  informer_for-held obj new_func f heap = elim (Option-cases (informer_of f (M.type_of obj))) [
    | inl (informer, p) ↦ rw p p
    | inr p ↦ rw p (lookup-assign ⦃e = M.kind_eq⦄ f.informers (M.type_of obj) _)
  ]

  pub informer_for-of_held :
      (obj : M.Object) (new_func : NewInformerFunc M) (s : SharedInformerFactory M × M.Heap)
      (informer : M.Informer)
      → informer_of s.0 (M.type_of obj) ≡ some informer
      → informer_for M obj new_func s ≡ (informer, s)
  unfolding informer_for existing_or_made
  informer_for-of_held obj new_func (f, heap) informer held = rw held refl

  pub informer_for-started :
      (obj : M.Object) (new_func : NewInformerFunc M) (f : SharedInformerFactory M) (heap : M.Heap)
      → (informer_for M obj new_func (f, heap)).1.0.started_informers ≡ f.started_informers
  unfolding informer_for existing_or_made
  informer_for-started obj new_func f heap = elim (Option-cases (informer_of f (M.type_of obj))) [
    | inl (informer, p) ↦ rw p refl
    | inr p ↦ rw p refl
  ]

  -- A later call for an object of the same type, with whatever constructor, gives the informer of
  -- the earlier call, allocates nothing and leaves the factory as it is.
  pub informer_for-shared :
      (obj other : M.Object) (new_func new_func' : NewInformerFunc M)
      (s : SharedInformerFactory M × M.Heap)
      → M.type_of other ≡ M.type_of obj
      → informer_for M other new_func' (informer_for M obj new_func s).1
        ≡ informer_for M obj new_func s
  informer_for-shared obj other new_func new_func' (f, heap) same =
      informer_for-of_held other new_func' (informer_for M obj new_func (f, heap)).1
        (informer_for M obj new_func (f, heap)).0 (rw same (informer_for-held obj new_func f heap))

  -- A call changes neither the informers of other types nor what has been started.
  pub informer_for-frame :
      (obj : M.Object) (new_func : NewInformerFunc M) (f : SharedInformerFactory M) (heap : M.Heap)
      (kind : M.Kind)
      → kind ≢ M.type_of obj
      → (informer_of (informer_for M obj new_func (f, heap)).1.0 kind ≡ informer_of f kind)
        × ((informer_for M obj new_func (f, heap)).1.0.started_informers ≡ f.started_informers)
  unfolding informer_for existing_or_made
  informer_for-frame obj new_func f heap kind differ =
      elim (Option-cases (informer_of f (M.type_of obj))) [
        | inl (informer, p) ↦ rw p (refl, refl)
        | inr p ↦
            rw p
              (lookup-assign_other ⦃e = M.kind_eq⦄ f.informers (M.type_of obj) kind _ differ, refl)
      ]
