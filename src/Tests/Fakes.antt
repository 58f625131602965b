-- ===== src/Tests/Fakes.antt =====
-- A scheme, a tracker and a `Fake` that do what is assumed of them, and the theorems at work there.
use mathlib.Core.Bool.{false≢true}
use text.Mathlib.TextEquality.{eq_iff}
use csr.Base.{
  String, ◌≡◌, ◌≢◌, refl, ap, sym, ◌∙◌, Option, none, some, List, [], ◌∷◌, ◌++◌, true, false, ok,
  err, Exec, ◌>>◌, pure, string_eq, if◌then◌else◌, All, Result,
}
use csr.Api.{CloudSchedulerSource, scheme_group_version}
use csr.Api.Meta.{GroupVersion, GroupVersionKind, GroupVersionResource, with_kind}
use csr.Client.Schemes
use csr.Client.Schemes.{Registry, KnownType, source_type, list_type, SchemeVars, scheme_vars}
use csr.Client.Schemes.Laws.{Registers, type_name}
use csr.Client.Fake.{Object, source_object, list_object, other_object, Action, get_action}
use csr.Client.Fake.Clientsets
use csr.Client.Fake.Clientsets.{Tracking, Reaction, with_reactors, new_simple_clientset}
use csr.Client.Fake.Clientsets.Laws.{key_is, Tracks, AreDistinct, objects_of}
use csr.Client.Fake.Clientsets.Gets.{Gets, new_simple_clientset-Gets}
use csr.Tests.Clients.{rest}
use csr.Tests.Runs.{new_source, bell}

abbrev Entries : Type 0
Entries = List (KnownType × GroupVersionKind)

abbrev with_all : GroupVersion → List KnownType → Entries → Entries
with_all gv [] s = s
with_all gv (t ∷ ts) s = (t, with_kind gv (type_name t)) ∷ with_all gv ts s

abbrev pick :
    KnownType → KnownType → GroupVersionKind → List GroupVersionKind → List GroupVersionKind
pick source_type source_type k ks = k ∷ ks
pick source_type list_type k ks = ks
pick list_type source_type k ks = ks
pick list_type list_type k ks = k ∷ ks

abbrev kinds : Entries → KnownType → List GroupVersionKind
kinds [] t = []
kinds ((t', k) ∷ s) t = pick t' t k (kinds s t)

abbrev run_all : List (Exec String Entries (Option String)) → Exec String Entries (Option String)
run_all [] = pure none
run_all (f ∷ []) = f
run_all (f ∷ g ∷ fs) = f >> run_all (g ∷ fs)

abbrev registry : Registry
registry = record {
  Scheme = Entries;
  Error = String;
  Panic = String;
  Builder = List (Exec String Entries (Option String));
  CodecFactory = Entries;
  ParameterCodec = Entries;
  Decoder = Entries;
  new_scheme = [];
  add_known_types = λ gv ts s. (ok tt, with_all gv ts s);
  add_to_group_version = λ gv s. (ok tt, s);
  new_scheme_builder = λ fs. fs;
  build = run_all;
  new_codec_factory = λ s. s;
  new_parameter_codec = λ s. s;
  universal_decoder = λ s. s;
}

added :
    (gv : GroupVersion) (s : Entries) (t : KnownType)
    → kinds s t ≡ []
    → kinds (with_all gv (source_type ∷ list_type ∷ []) s) t ≡ with_kind gv (type_name t) ∷ []
added gv s source_type fresh = ap (λ ks. with_kind gv "CloudSchedulerSource" ∷ ks) fresh
added gv s list_type fresh = ap (λ ks. with_kind gv "CloudSchedulerSourceList" ∷ ks) fresh

registry-Registers : Registers registry kinds
registry-Registers = record {
  new_has_no_kinds = λ t. refl;
  adds_kinds = λ gv s s' t p fresh. ap (λ out. kinds out.1 t) (sym p) ∙ added gv s t fresh;
  meta_kinds = λ gv s s' t p. ap (λ out. kinds out.1 t) (sym p);
  builds = λ f s. refl;
}

abbrev filled : Entries
filled = with_all scheme_group_version (source_type ∷ list_type ∷ []) []

abbrev vars : SchemeVars registry
vars = record { scheme = filled; codecs = filled; parameter_codec = filled }

fake_registered : Clientsets.scheme_vars registry ≡ ok vars
unfolding Clientsets.scheme_vars Clientsets.init Clientsets.add_to_scheme Schemes.add_known_types
fake_registered = refl

abbrev Held : Type 0
Held = Entries × List CloudSchedulerSource

abbrev Obj : Type 0
Obj = Object String

abbrev lookup : List CloudSchedulerSource → String → String → Option Obj
lookup [] ns name = none
lookup (s ∷ ss) ns name = if key_is s ns name then some (source_object s) else lookup ss ns name

abbrev found : Held → GroupVersionResource → String → String → Option Obj
found t gvr ns name = lookup t.1 ns name

abbrev add_source :
    List GroupVersionKind → Option Obj → CloudSchedulerSource → Exec String Held (Unit {0})
add_source [] o s t = (err "no registered kinds", t)
add_source (k ∷ ks) (some _) s t = (err "already exists", t)
add_source (k ∷ ks) none s t = (ok tt, (t.0, s ∷ t.1))

abbrev add : Obj → Exec String Held (Unit {0})
add (source_object s) t =
    add_source (kinds t.0 source_type) (lookup t.1 s.object_meta.namespace s.object_meta.name) s t
add (list_object l) t = (ok tt, t)
add (other_object o) t = (err "no registered kinds", t)

abbrev read : Option Obj → Exec String Held Obj
read none t = (err "not found", t)
read (some o) t = (ok o, t)

abbrev React : Type 0
React = Action rest → Held → Reaction String Obj × Held

abbrev answered : Result String Obj × Held → Reaction String Obj × Held
answered (ok o, t) = (record { handled = true; result = some o; error = none }, t)
answered (err e, t) = (record { handled = true; result = none; error = some e }, t)

abbrev unhandled : Held → Reaction String Obj × Held
unhandled t = (record { handled = false; result = none; error = some "no reaction" }, t)

abbrev react : React
react (get_action gvr ns name) t = answered (read (lookup t.1 ns name) t)
react (Action.list_action _ _ _ _) t = unhandled t
react (Action.watch_action _ _ _) t = unhandled t
react (Action.create_action _ _ _) t = unhandled t
react (Action.update_action _ _ _) t = unhandled t
react (Action.delete_action _ _ _) t = unhandled t
react (Action.delete_collection_action _ _ _) t = unhandled t
react (Action.patch_subresource_action _ _ _ _ _) t = unhandled t

abbrev settled : Obj → Reaction String Obj × Held → (Option Obj × Option String) × Held
settled default (r, t) = (if r.handled then (r.result, r.error) else (some default, none), t)

abbrev invokes : List React → Action rest → Obj → Held → (Option Obj × Option String) × Held
invokes [] action default t = ((some default, none), t)
invokes (r ∷ rs) action default t = settled default (r action t)

abbrev tracking : Tracking rest registry
tracking = record {
  Other = String;
  Tracker = Held;
  Fake = List React;
  Selector = Unit {0};
  everything = tt;
  matches = λ selector labels. true;
  extract_label = λ opts. none;
  new_object_tracker = λ s d. (s, []);
  add = add;
  watch = λ gvr ns t. (ok "watch", t);
  get = λ gvr ns name t. read (lookup t.1 ns name) t;
  object_reaction = react;
  zero_fake = [];
  add_reactor = λ verb resource r fake. fake ++ (r ∷ []);
  add_watch_reactor = λ resource w fake. fake;
  invokes = invokes;
  invokes_watch = λ fake action t. (ok "watch", t);
}

abbrev guess : GroupVersionKind → GroupVersionResource
guess k = record { group = k.group; version = k.version; resource = "cloudschedulersources" }

add_source-keeps :
    (ks : List GroupVersionKind) (o : Option Obj) (s : CloudSchedulerSource) (t : Held)
    → (add_source ks o s t).1.0 ≡ t.0
add_source-keeps [] o s t = refl
add_source-keeps (k ∷ ks) (some _) s t = refl
add_source-keeps (k ∷ ks) none s t = refl

add-keeps : (o : Obj) (t : Held) → (add o t).1.0 ≡ t.0
add-keeps (source_object s) t = add_source-keeps _ _ s t
add-keeps (list_object l) t = refl
add-keeps (other_object o) t = refl

tracking-Tracks : Tracks tracking kinds (λ t. t.0) found guess
tracking-Tracks = record {
  made_of = λ s d. refl;
  made_empty = λ s d gvr ns name. refl;
  keeps_scheme = add-keeps;
  adds = λ s k t known free. rw (known, free) (refl, λ ns name. refl);
  gets = λ gvr ns name s t p q held. rw held refl;
  reacts_to_get = λ gvr ns name o t t' p. rw p refl;
  invokes_handled = λ r w action default result error t t' p. rw p refl;
  plural = refl;
}

two-AreDistinct : AreDistinct (new_source ∷ bell ∷ [])
unfolding string_eq
two-AreDistinct = ((refl, tt), (tt, tt))

default_ns : ◌≢◌ {A = String} "default" ""
default_ns p = false≢true ((eq_iff "default" "").1 p)

clock_name : ◌≢◌ {A = String} "clock" ""
clock_name p = false≢true ((eq_iff "clock" "").1 p)

bell_name : ◌≢◌ {A = String} "bell" ""
bell_name p = false≢true ((eq_iff "bell" "").1 p)

new_simple_clientset-Gets_example :
    ((new_simple_clientset tracking vars (objects_of (new_source ∷ bell ∷ []))).0
      ≡ ok (with_reactors tracking))
    × All
        (Gets tracking tt
          (new_simple_clientset tracking vars (objects_of (new_source ∷ bell ∷ []))).1)
        (new_source ∷ bell ∷ [])
new_simple_clientset-Gets_example =
    new_simple_clientset-Gets tracking kinds (λ t. t.0) found guess tracking-Tracks
      registry-Registers vars fake_registered (new_source ∷ bell ∷ []) tt two-AreDistinct
      ((default_ns, clock_name), ((default_ns, bell_name), tt))
