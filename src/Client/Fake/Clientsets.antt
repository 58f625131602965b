-- ===== src/Client/Fake/Clientsets.antt =====
-- The test double of the clientset, pkg/client/clientset/versioned/fake/clientset_generated.go and
-- register.go, and its accessors in
-- pkg/client/clientset/versioned/typed/cloudschedulersource/v1alpha1/fake/fake_cloudschedulersource_client.go.
pub mod Laws
pub mod Gets
use csr.Base.{
  String, Bool, true, false, Option, none, some, List, [], ◌∷◌, Result, ok, err, Exec, pure, fail,
  attempt, ◌>>=◌, ◌>>◌,
}
use csr.Api.Meta.{GroupVersionResource}
use csr.Client.{Rest, ListOptions}
use csr.Client.Schemes
use csr.Client.Schemes.{Registry, SchemeVars, vars_of, add_types_to_scheme}
use csr.Client.Fake.{Object, Action, Faking, FakeCloudSchedulerSources}

module _ (S : Registry) where
  -- `AddToScheme`
  unfoldable pub add_to_scheme : Schemes.Registering S (Unit {0})
  add_to_scheme = do ignored ← add_types_to_scheme S; pure tt

  -- `init`
  unfoldable pub init : Schemes.Registering S (Unit {0})
  unfolding add_to_scheme
  init = do S.add_to_group_version (record { group = ""; version = "v1" }); add_to_scheme

  unfoldable pub scheme_vars : Result S.Panic (SchemeVars S)
  unfolding init
  scheme_vars = vars_of S (init S.new_scheme)

-- A reactor tells whether it handles the action, and answers with an object and an error, each of
-- which may be nil.
pub record Reaction (E A : Type 0) : Type 0 where
  pub handled : Bool
  pub result : Option A
  pub error : Option E

-- What the clientset uses of k8s.io/client-go/testing. `Tracker` is the state of the one tracker that
-- the clientset's reactors share, and `Fake` the reactors that a `testing.Fake` has.
pub record Tracking (R : Rest) (S : Registry) : Type 1 where
  pub Other : Type 0
  pub Tracker : Type 0
  pub Fake : Type 0
  pub Selector : Type 0
  -- the selectors of labels, as in `Faking`
  pub everything : Selector
  pub matches : Selector → List (String × String) → Bool
  pub extract_label : ListOptions R → Option Selector
  pub new_object_tracker : S.Scheme → S.Decoder → Tracker
  -- methods of the tracker
  pub add : Object Other → Exec R.Error Tracker (Unit {0})
  pub watch : GroupVersionResource → String → Exec R.Error Tracker R.Watcher
  pub get : GroupVersionResource → String → String → Exec R.Error Tracker (Object Other)
  pub object_reaction : Action R → Tracker → Reaction R.Error (Object Other) × Tracker
  -- methods of the `Fake`
  pub zero_fake : Fake
  pub add_reactor :
      String
      → String
      → (Action R → Tracker → Reaction R.Error (Object Other) × Tracker)
      → Fake
      → Fake
  pub add_watch_reactor :
      String → (Action R → Tracker → Reaction R.Error R.Watcher × Tracker) → Fake → Fake
  pub invokes :
      Fake → Action R → Object Other → Tracker → (Option (Object Other) × Option R.Error) × Tracker
  pub invokes_watch : Fake → Action R → Exec R.Error Tracker R.Watcher

-- The resource and the namespace of an action
abbrev pub resource_of : {R : Rest} → Action R → GroupVersionResource
resource_of (Action.get_action gvr ns name) = gvr
resource_of (Action.list_action gvr gvk ns opts) = gvr
resource_of (Action.watch_action gvr ns opts) = gvr
resource_of (Action.create_action gvr ns source) = gvr
resource_of (Action.update_action gvr ns source) = gvr
resource_of (Action.delete_action gvr ns name) = gvr
resource_of (Action.delete_collection_action gvr ns opts) = gvr
resource_of (Action.patch_subresource_action gvr ns name bytes subresources) = gvr

abbrev pub namespace_of : {R : Rest} → Action R → String
namespace_of (Action.get_action gvr ns name) = ns
namespace_of (Action.list_action gvr gvk ns opts) = ns
namespace_of (Action.watch_action gvr ns opts) = ns
namespace_of (Action.create_action gvr ns source) = ns
namespace_of (Action.update_action gvr ns source) = ns
namespace_of (Action.delete_action gvr ns name) = ns
namespace_of (Action.delete_collection_action gvr ns opts) = ns
namespace_of (Action.patch_subresource_action gvr ns name bytes subresources) = ns

module _ {R : Rest} {S : Registry} (T : Tracking R S) where
  -- Its discovery client has the same `Fake`, by its address.
  pub record Clientset : Type 0 where
    pub fake : T.Fake

  -- `FakeSourcesV1alpha1`, and the fake discovery client
  pub record FakeSources : Type 0 where
    pub fake : T.Fake

  pub record FakeDiscovery : Type 0 where
    pub fake : T.Fake

  abbrev pub discovery : Clientset → FakeDiscovery
  discovery c = record { fake = c.fake }

  abbrev pub sources_v1alpha1 : Clientset → FakeSources
  sources_v1alpha1 c = record { fake = c.fake }

  abbrev pub sources : Clientset → FakeSources
  sources c = record { fake = c.fake }

  -- What a client over this `Fake` is answered while the tracker is in the state `t`
  abbrev pub faking : T.Fake → T.Tracker → Faking R
  faking fake t = record {
    Other = T.Other;
    Selector = T.Selector;
    everything = T.everything;
    matches = T.matches;
    extract_label = T.extract_label;
    invokes = λ action obj. (T.invokes fake action obj t).0;
    invokes_watch = λ action. (T.invokes_watch fake action t).0;
  }

  -- `CloudSchedulerSources`
  abbrev pub cloud_scheduler_sources :
      (c : FakeSources) (t : T.Tracker) → String → FakeCloudSchedulerSources (faking c.fake t)
  cloud_scheduler_sources c t namespace = record { ns = namespace }

  -- The loop over the objects; the first error is the argument of a panic.
  pub add_all : List (Object T.Other) → Exec R.Error T.Tracker (Unit {0})
  add_all [] = pure tt
  add_all (obj ∷ objects) = do T.add obj; add_all objects

  abbrev answer_watch :
      Result R.Error R.Watcher × T.Tracker → Reaction R.Error R.Watcher × T.Tracker
  answer_watch (ok w, t) = (record { handled = true; result = some w; error = none }, t)
  answer_watch (err e, t) = (record { handled = false; result = none; error = some e }, t)

  -- The function that `NewSimpleClientset` gives to `AddWatchReactor`
  abbrev pub watch_reaction : Action R → T.Tracker → Reaction R.Error R.Watcher × T.Tracker
  watch_reaction action t = answer_watch (T.watch (resource_of action) (namespace_of action) t)

  abbrev pub with_reactors : Clientset
  with_reactors = record {
    fake =
        T.add_watch_reactor "*" watch_reaction
          (T.add_reactor "*" "*" T.object_reaction T.zero_fake);
  }

  -- `NewSimpleClientset`, with the clientset and its tracker
  unfoldable pub new_simple_clientset :
      SchemeVars S → List (Object T.Other) → Result R.Error Clientset × T.Tracker
  unfolding add_all
  new_simple_clientset vars objects =
      (do add_all objects; pure with_reactors)
        (T.new_object_tracker vars.scheme (S.universal_decoder vars.codecs))
