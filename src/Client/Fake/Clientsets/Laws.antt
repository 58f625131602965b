-- ===== src/Client/Fake/Clientsets/Laws.antt =====
-- What client-go's tracker does, which the fake clientset relies on.
use csr.Base.{
  String, Bool, true, false, ◌&&◌, ◌==◌, string_eq, if◌then◌else◌, ◌≡◌, ◌≢◌, refl, Option, none,
  some, List, [], ◌∷◌, All, ok, arith,
}
use csr.Api.{CloudSchedulerSource, scheme_group_version}
use csr.Api.Meta.{GroupVersionKind, GroupVersionResource, with_kind}
use csr.Client.{Rest}
use csr.Client.Schemes
use csr.Client.Schemes.{Registry, SchemeVars, KnownType, source_type}
use csr.Client.Fake.{Object, source_object, Action, get_action, cloudschedulersources_resource}
use csr.Client.Fake.Clientsets.{init, add_to_scheme, scheme_vars, Tracking, Reaction}

abbrev pub key_is : CloudSchedulerSource → String → String → Bool
key_is s ns name = (s.object_meta.namespace == ns) && (s.object_meta.name == name)

abbrev pub source_kind : GroupVersionKind
source_kind = with_kind scheme_group_version "CloudSchedulerSource"

-- What client-go's tracker and `Fake` do. `found` are the objects that a tracker stores under their
-- resource, namespace and name, and `guess` is `UnsafeGuessKindToResource`.
pub record Tracks {R : Rest} {S : Registry} (T : Tracking R S)
    (kinds : S.Scheme → KnownType → List GroupVersionKind) (scheme_of : T.Tracker → S.Scheme)
    (found : T.Tracker → GroupVersionResource → String → String → Option (Object T.Other))
    (guess : GroupVersionKind → GroupVersionResource) : Type 0 where
  pub made_of :
      (scheme : S.Scheme) (d : S.Decoder) → scheme_of (T.new_object_tracker scheme d) ≡ scheme
  pub made_empty :
      (scheme : S.Scheme) (d : S.Decoder) (gvr : GroupVersionResource) (ns name : String)
      → found (T.new_object_tracker scheme d) gvr ns name ≡ none
  pub keeps_scheme : (o : Object T.Other) (t : T.Tracker) → scheme_of (T.add o t).1 ≡ scheme_of t
  -- an object of a registered kind is added unless there is one with its name
  pub adds :
      (s : CloudSchedulerSource) (k : GroupVersionKind) (t : T.Tracker)
      → kinds (scheme_of t) source_type ≡ k ∷ []
      → found t (guess k) s.object_meta.namespace s.object_meta.name ≡ none
      → ((T.add (source_object s) t).0 ≡ ok tt)
        × ((ns name : String)
            → found (T.add (source_object s) t).1 (guess k) ns name
              ≡ (if key_is s ns name then some (source_object s) else found t (guess k) ns name))
  -- an empty namespace or name would match any
  pub gets :
      (gvr : GroupVersionResource) (ns name : String) (s : CloudSchedulerSource) (t : T.Tracker)
      → ns ≢ ""
      → name ≢ ""
      → found t gvr ns name ≡ some (source_object s)
      → T.get gvr ns name t ≡ (ok (source_object s), t)
  pub reacts_to_get :
      (gvr : GroupVersionResource) (ns name : String) (o : Object T.Other) (t t' : T.Tracker)
      → T.get gvr ns name t ≡ (ok o, t')
      → T.object_reaction (get_action gvr ns name) t
        ≡ (record { handled = true; result = some o; error = none }, t')
  -- a reactor for all verbs and resources is asked, and watch reactors are not
  pub invokes_handled :
      (r : Action R → T.Tracker → Reaction R.Error (Object T.Other) × T.Tracker)
      (w : Action R → T.Tracker → Reaction R.Error R.Watcher × T.Tracker) (action : Action R)
      (default : Object T.Other) (result : Option (Object T.Other)) (error : Option R.Error)
      (t t' : T.Tracker)
      → r action t ≡ (record { handled = true; result = result; error = error }, t')
      → T.invokes (T.add_watch_reactor "*" w (T.add_reactor "*" "*" r T.zero_fake)) action default t
        ≡ ((result, error), t')
  pub plural : guess source_kind ≡ cloudschedulersources_resource

-- No two have the same namespace and name.
abbrev pub AreDistinct : List CloudSchedulerSource → Type 0
AreDistinct [] = Unit
AreDistinct (s ∷ ss) =
    All (λ x. key_is x s.object_meta.namespace s.object_meta.name ≡ false) ss × AreDistinct ss

abbrev pub IsNamed : CloudSchedulerSource → Type 0
IsNamed s = (s.object_meta.namespace ≢ "") × (s.object_meta.name ≢ "")

abbrev pub objects_of : {O : Type 0} → List CloudSchedulerSource → List (Object O)
objects_of [] = []
objects_of (s ∷ ss) = source_object s ∷ objects_of ss

-- The package's scheme is filled as that of the clientset is.
pub scheme_vars-eq : (S : Registry) → scheme_vars S ≡ Schemes.scheme_vars S
unfolding scheme_vars Schemes.scheme_vars init Schemes.init add_to_scheme Schemes.add_to_scheme
scheme_vars-eq S = refl

pub key_is_sym :
    (a b : CloudSchedulerSource)
    → key_is a b.object_meta.namespace b.object_meta.name ≡ false
    → key_is b a.object_meta.namespace a.object_meta.name ≡ false
key_is_sym a b p = ground arith

pub key_is_refl :
    (a : CloudSchedulerSource) → key_is a a.object_meta.namespace a.object_meta.name ≡ true
key_is_refl a = ground arith
