-- ===== src/Client/Fake/Clientsets/Gets.antt =====
-- The fake clientset serves the objects that it is made with.
use csr.Base.{
  String, false, string_eq, ◌≡◌, ◌∙◌, refl, ap, sym, Option, none, some, List, [], ◌∷◌, All, Result,
  ok,
}
use csr.Api.{CloudSchedulerSource}
use csr.Api.Meta.{GroupVersionKind, GroupVersionResource}
use csr.Client.{Rest, zero_source}
use csr.Client.Schemes.{Registry, SchemeVars, KnownType, source_type}
use csr.Client.Schemes.Laws.{Registers, scheme_vars-kinds}
use csr.Client.Fake
use csr.Client.Fake.{
  Object, source_object, Action, get_action, Reply, replied, cloudschedulersources_resource,
}
use csr.Client.Fake.Clientsets.{
  scheme_vars, Tracking, with_reactors, add_all, sources, cloud_scheduler_sources, faking,
  new_simple_clientset, watch_reaction,
}
use csr.Client.Fake.Clientsets.Laws.{
  key_is, source_kind, Tracks, AreDistinct, IsNamed, objects_of, scheme_vars-eq, key_is_sym,
  key_is_refl,
}

module _ {R : Rest} {S : Registry} (T : Tracking R S) where
  -- What the clientset's client answers while the tracker is in the state `t`
  abbrev pub Gets : R.GetOptions → T.Tracker → CloudSchedulerSource → Type 0
  Gets options t s =
      (Fake.get (faking T (with_reactors T).fake t)
        (cloud_scheduler_sources T (sources T (with_reactors T)) t s.object_meta.namespace)
        s.object_meta.name options).0
      ≡ replied (some s) none

module _ {R : Rest} {S : Registry} (T : Tracking R S)
    (kinds : S.Scheme → KnownType → List GroupVersionKind) (scheme_of : T.Tracker → S.Scheme)
    (found : T.Tracker → GroupVersionResource → String → String → Option (Object T.Other))
    (guess : GroupVersionKind → GroupVersionResource)
    (L : Tracks T kinds scheme_of found guess) where
  abbrev Knows : T.Tracker → Type 0
  Knows t = kinds (scheme_of t) source_type ≡ source_kind ∷ []

  abbrev stored : T.Tracker → String → String → Option (Object T.Other)
  stored t = found t (guess source_kind)

  abbrev IsStored : T.Tracker → CloudSchedulerSource → Type 0
  IsStored t s = stored t s.object_meta.namespace s.object_meta.name ≡ some (source_object s)

  abbrev IsFree : T.Tracker → CloudSchedulerSource → Type 0
  IsFree t s = stored t s.object_meta.namespace s.object_meta.name ≡ none

  add_all-step :
      (o : Object T.Other) (os : List (Object T.Other)) (t : T.Tracker)
      → (T.add o t).0 ≡ ok tt
      → add_all T (o ∷ os) t ≡ add_all T os (T.add o t).1
  unfolding add_all
  add_all-step o os t added = rw added

  -- The sources that are still to be added have no namesake after `s` has been.
  IsFree-after :
      (s : CloudSchedulerSource) (ss : List CloudSchedulerSource) (t : T.Tracker)
      → Knows t
      → IsFree t s
      → All (λ x. key_is x s.object_meta.namespace s.object_meta.name ≡ false) ss
      → All (IsFree t) ss
      → All (IsFree (T.add (source_object s) t).1) ss
  IsFree-after s [] t knows free distinct frees = tt
  IsFree-after s (x ∷ ss) t knows free (differs, distinct) (free_x, frees) = (
    (L.adds s source_kind t knows free).1 x.object_meta.namespace x.object_meta.name
        ∙ rw (key_is_sym x s differs) free_x,
    IsFree-after s ss t knows free distinct frees,
  )

  record Added (ss : List CloudSchedulerSource) (t : T.Tracker)
      (out : Result R.Error (Unit {0}) × T.Tracker) : Type 0 where
    succeeds : out.0 ≡ ok tt
    stores : All (IsStored out.1) ss
    keeps :
        (ns name : String)
        → All (λ x. key_is x ns name ≡ false) ss
        → stored out.1 ns name ≡ stored t ns name

  add_all-Added :
      (ss : List CloudSchedulerSource) (t : T.Tracker)
      → Knows t
      → AreDistinct ss
      → All (IsFree t) ss
      → Added ss t (add_all T (objects_of ss) t)
  unfolding add_all
  add_all-Added [] t knows distinct frees = record {
    succeeds = refl;
    stores = tt;
    keeps = λ ns name others. refl;
  }
  add_all-Added (s ∷ ss) t knows (differ, distinct) (free, frees) =
      let (added, changed) = L.adds s source_kind t knows free in
      let t1 = (T.add (source_object s) t).1 in
      let rest =
        add_all-Added ss t1 (ap (λ scheme. kinds scheme source_type) (L.keeps_scheme _ t) ∙ knows)
          distinct (IsFree-after s ss t knows free differ frees) in
      rw (add_all-step (source_object s) (objects_of ss) t added) (record {
        succeeds = rest.succeeds;
        stores = (rest.keeps _ _ differ ∙ changed _ _ ∙ rw (key_is_refl s) refl, rest.stores);
        keeps = λ ns name others. rest.keeps ns name others.1 ∙ changed ns name ∙ rw others.0 refl;
      })

  All-IsFree :
      (ss : List CloudSchedulerSource) (scheme : S.Scheme) (d : S.Decoder)
      → All (IsFree (T.new_object_tracker scheme d)) ss
  All-IsFree [] scheme d = tt
  All-IsFree (s ∷ ss) scheme d = (L.made_empty scheme d _ _ _, All-IsFree ss scheme d)

  get-of_stored :
      (s : CloudSchedulerSource) (options : R.GetOptions) (t : T.Tracker)
      → IsNamed s
      → IsStored t s
      → Gets T options t s
  unfolding Fake.get
  get-of_stored s options t (in_namespace, named) held =
      rw
        (L.invokes_handled T.object_reaction (watch_reaction T) _ (source_object zero_source)
          (some (source_object s)) none t t
          (L.reacts_to_get cloudschedulersources_resource s.object_meta.namespace s.object_meta.name
            (source_object s) t t read))
        refl
    where
      read :
          T.get cloudschedulersources_resource s.object_meta.namespace s.object_meta.name t
          ≡ (ok (source_object s), t)
      read =
          L.gets _ _ _ s t in_namespace named (
            ap (λ gvr. found t gvr s.object_meta.namespace s.object_meta.name) (sym L.plural)
            ∙ held)

  All-Gets :
      (ss : List CloudSchedulerSource) (options : R.GetOptions) (t : T.Tracker)
      → All IsNamed ss
      → All (IsStored t) ss
      → All (Gets T options t) ss
  All-Gets [] options t named held = tt
  All-Gets (s ∷ ss) options t (name, named) (hold, held) =
      (get-of_stored s options t name hold, All-Gets ss options t named held)

  module _ (registers : Registers S kinds) (vars : SchemeVars S)
      (filled : scheme_vars S ≡ ok vars) where
    abbrev made : T.Tracker
    made = T.new_object_tracker vars.scheme (S.universal_decoder vars.codecs)

    made-Knows : Knows made
    made-Knows =
        ap (λ scheme. kinds scheme source_type) (L.made_of _ _)
        ∙ scheme_vars-kinds S kinds registers source_type vars (sym (scheme_vars-eq S) ∙ filled)

    -- `NewSimpleClientset` of sources of which no two have the same namespace and name, and none
    -- lacks either, does not panic, and the client of the clientset that it returns gets each of
    -- them by its namespace and name.
    pub new_simple_clientset-Gets :
        (ss : List CloudSchedulerSource) (options : R.GetOptions)
        → AreDistinct ss
        → All IsNamed ss
        → ((new_simple_clientset T vars (objects_of ss)).0 ≡ ok (with_reactors T))
          × All (Gets T options (new_simple_clientset T vars (objects_of ss)).1) ss
    unfolding new_simple_clientset
    new_simple_clientset-Gets ss options distinct named =
        let added = add_all-Added ss made made-Knows distinct (All-IsFree ss _ _) in
        rw added.succeeds (refl, All-Gets ss options _ named added.stores)
