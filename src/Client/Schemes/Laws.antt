-- ===== src/Client/Schemes/Laws.antt =====
-- The kinds under which the scheme knows the resource's types.
use csr.Base.{
  String, ◌≡◌, ◌∙◌, refl, ap, sym, Option, none, List, [], ◌∷◌, Result, ok, err, Exec, pure,
  continue, ◌>>=◌,
}
use csr.Api.{scheme_group_version}
use csr.Api.Meta.{GroupVersion, GroupVersionKind, with_kind}
use csr.Client.Schemes
use csr.Client.Schemes.{
  KnownType, source_type, list_type, Registry, SchemeVars, scheme_vars, init, add_to_scheme,
  vars_of, add_types_to_scheme, scheme_builder,
}

-- The name of the Go type, which reflection gives.
abbrev pub type_name : KnownType → String
type_name source_type = "CloudSchedulerSource"
type_name list_type = "CloudSchedulerSourceList"

-- What the scheme does, where its calls return: it knows each type under its own name in the group
-- that the types were added to, and the library's own types change nothing of that. `kinds` is what
-- `ObjectKinds` gives.
pub record Registers (S : Registry) (kinds : S.Scheme → KnownType → List GroupVersionKind)
    : Type 0 where
  pub new_has_no_kinds : (t : KnownType) → kinds S.new_scheme t ≡ []
  pub adds_kinds :
      (gv : GroupVersion) (s s' : S.Scheme) (t : KnownType)
      → S.add_known_types gv (source_type ∷ list_type ∷ []) s ≡ (ok tt, s')
      → kinds s t ≡ []
      → kinds s' t ≡ with_kind gv (type_name t) ∷ []
  pub meta_kinds :
      (gv : GroupVersion) (s s' : S.Scheme) (t : KnownType)
      → S.add_to_group_version gv s ≡ (ok tt, s')
      → kinds s' t ≡ kinds s t
  -- a builder calls its functions in order
  pub builds :
      (f : Exec S.Panic S.Scheme (Option S.Error)) (s : S.Scheme)
      → S.build (S.new_scheme_builder (f ∷ [])) s ≡ f s

>>=-ok :
    {E S A B : Type 0} (m : Exec E S A) (f : A → Exec E S B) (s s' : S) (b : B)
    → (m >>= f) s ≡ (ok b, s')
    → (a : A) × (mid : S) × (m s ≡ (ok a, mid)) × (f a mid ≡ (ok b, s'))
>>=-ok {E} {S} {A} {B} m f s s' b = go (m s)
  where
    go :
        (out : Result E A × S)
        → continue out.0 f out.1 ≡ (ok b, s')
        → (a : A) × (mid : S) × (out ≡ (ok a, mid)) × (f a mid ≡ (ok b, s'))
    go (ok a, mid) p = (a, mid, refl, p)
    go (err e, mid) p = absurd (cc)

module _ (S : Registry) (kinds : S.Scheme → KnownType → List GroupVersionKind)
    (R : Registers S kinds) (t : KnownType) where
  -- The rest of `addKnownTypes`, after the types are added.
  abbrev grouping : Exec S.Panic S.Scheme (Option S.Error)
  grouping = S.add_to_group_version scheme_group_version >>= λ _. pure none

  added-kinds :
      (s1 s2 s' : S.Scheme) (e : Option S.Error)
      → S.add_to_group_version scheme_group_version s1 ≡ (ok tt, s2)
      → pure {E = S.Panic} {A = Option S.Error} none s2 ≡ (ok e, s')
      → kinds s' t ≡ kinds s1 t
  added-kinds s1 s2 s' e grouped same =
      ap (λ out. kinds out.1 t) (sym same) ∙ R.meta_kinds scheme_group_version s1 s2 t grouped

  add_known_types-kinds :
      (s s' : S.Scheme) (e : Option S.Error)
      → Schemes.add_known_types S s ≡ (ok e, s')
      → kinds s t ≡ []
      → kinds s' t ≡ with_kind scheme_group_version (type_name t) ∷ []
  unfolding Schemes.add_known_types
  add_known_types-kinds s s' e p fresh =
      let (_, s1, added, q) =
        >>=-ok (S.add_known_types scheme_group_version (source_type ∷ list_type ∷ []))
          (λ _. grouping) s s' e p in
      let (_, s2, grouped, same) =
        >>=-ok (S.add_to_group_version scheme_group_version) (λ _. pure none) s1 s' e q in
      added-kinds s1 s2 s' e grouped same ∙ R.adds_kinds scheme_group_version s s1 t added fresh

  -- A scheme that does not know a type of the resource, such as client-go's own to which the
  -- reconciler's `init` adds it, knows it under that one kind afterwards, unless the call panics.
  add_to_scheme-kinds :
      (s s' : S.Scheme)
      → add_to_scheme S s ≡ (ok tt, s')
      → kinds s t ≡ []
      → kinds s' t ≡ with_kind scheme_group_version (type_name t) ∷ []
  unfolding add_to_scheme
  add_to_scheme-kinds s s' p fresh =
      let (e, mid, added, same) = >>=-ok (add_types_to_scheme S) (λ _. pure tt) s s' tt p in
      ap (λ out. kinds out.1 t) (sym same)
      ∙ add_known_types-kinds s mid e (sym (R.builds (Schemes.add_known_types S) s) ∙ added) fresh

  pub init-kinds :
      (s' : S.Scheme)
      → init S S.new_scheme ≡ (ok tt, s')
      → kinds s' t ≡ with_kind scheme_group_version (type_name t) ∷ []
  unfolding init
  init-kinds s' p =
      let (_, s1, grouped, q) =
        >>=-ok (S.add_to_group_version (record { group = ""; version = "v1" }))
          (λ _. add_to_scheme S) S.new_scheme s' tt p in
      add_to_scheme-kinds s1 s' q (R.meta_kinds _ S.new_scheme s1 t grouped ∙ R.new_has_no_kinds t)

  scheme-of_ok :
      (w v : SchemeVars S)
      → ◌≡◌ {A = Result S.Panic (SchemeVars S)} (ok w) (ok v)
      → v.scheme ≡ w.scheme
  scheme-of_ok w v q = cc

  vars_of-kinds :
      (out : Result S.Panic (Unit {0}) × S.Scheme) (v : SchemeVars S)
      → out ≡ init S S.new_scheme
      → vars_of S out ≡ ok v
      → kinds v.scheme t ≡ with_kind scheme_group_version (type_name t) ∷ []
  vars_of-kinds (ok _, s) v from p =
      ap (λ scheme. kinds scheme t) (scheme-of_ok _ v p) ∙ init-kinds s (sym from)
  vars_of-kinds (err e, s) v from p = absurd (cc)

  -- Once the package is initialised, which panics if a call does, the scheme of the clientset knows
  -- each of the resource's types under its own name in the group version `sources.aikas.org/v1alpha1`,
  -- and under no other.
  pub scheme_vars-kinds :
      (v : SchemeVars S)
      → scheme_vars S ≡ ok v
      → kinds v.scheme t ≡ with_kind scheme_group_version (type_name t) ∷ []
  unfolding scheme_vars
  scheme_vars-kinds v p = vars_of-kinds (init S S.new_scheme) v refl p
