-- ===== src/Client/Fake.antt =====
-- The test double of the typed client,
-- pkg/client/clientset/versioned/typed/cloudschedulersource/v1alpha1/fake/fake_cloudschedulersource.go,
-- and of the clientset, pkg/client/clientset/versioned/fake/clientset_generated.go, over client-go's
-- `testing.Fake` and its object tracker.
pub mod Laws
pub mod Clientsets
use csr.Base.{String, Bool, Option, none, some, List, [], ◌∷◌, ◌++◌, Result, ok, err, if◌then◌else◌}
use csr.Api.{CloudSchedulerSource, CloudSchedulerSourceList}
use csr.Api.Meta.{GroupVersionResource, GroupVersionKind, Slice, nil_slice, slice, items_of}
use csr.Client.{Rest, ListOptions, zero_source, zero_list}

-- A `runtime.Object`, with the dynamic types that a cast tells apart.
pub data Object (O : Type 0) : Type 0 where
  source_object : CloudSchedulerSource → Object O
  list_object : CloudSchedulerSourceList → Object O
  other_object : O → Object O

pub data Action (R : Rest) : Type 0 where
  get_action : GroupVersionResource → String → String → Action R
  list_action : GroupVersionResource → GroupVersionKind → String → ListOptions R → Action R
  watch_action : GroupVersionResource → String → ListOptions R → Action R
  create_action : GroupVersionResource → String → CloudSchedulerSource → Action R
  update_action : GroupVersionResource → String → CloudSchedulerSource → Action R
  delete_action : GroupVersionResource → String → String → Action R
  delete_collection_action : GroupVersionResource → String → ListOptions R → Action R
  patch_subresource_action :
      GroupVersionResource → String → String → String → List String → Action R

-- `testing.Fake`, and the selectors of labels.
pub record Faking (R : Rest) : Type 1 where
  pub Other : Type 0
  pub Selector : Type 0
  pub everything : Selector
  pub matches : Selector → List (String × String) → Bool
  -- the label selector of `testing.ExtractFromListOptions`
  pub extract_label : ListOptions R → Option Selector
  pub invokes : Action R → Object Other → Option (Object Other) × Option R.Error
  pub invokes_watch : Action R → Result R.Error R.Watcher

-- A result that may be nil and an error that may be nil, or the panic of a failed cast.
pub data Reply (E A : Type 0) : Type 0 where
  replied : Option A → Option E → Reply E A
  wrong_type : Reply E A

abbrev pub cloudschedulersources_resource : GroupVersionResource
cloudschedulersources_resource = record {
  group = "sources.aikas.org";
  version = "v1alpha1";
  resource = "cloudschedulersources";
}

abbrev pub cloudschedulersources_kind : GroupVersionKind
cloudschedulersources_kind = record {
  group = "sources.aikas.org";
  version = "v1alpha1";
  kind = "CloudSchedulerSource";
}

-- `FakeCloudSchedulerSources`
pub record FakeCloudSchedulerSources {R : Rest} (F : Faking R) : Type 0 where
  pub ns : String

module _ {R : Rest} (F : Faking R) where
  -- The end of the methods that return a source.
  abbrev as_source : Option (Object F.Other) × Option R.Error → Reply R.Error CloudSchedulerSource
  as_source (none, e) = replied none e
  as_source (some (source_object s), e) = replied (some s) e
  as_source (some (list_object _), e) = wrong_type
  as_source (some (other_object _), e) = wrong_type

  abbrev Doing : Type 0 → Type 0
  Doing A = A × Action R

  abbrev invoking : Action R → Doing (Reply R.Error CloudSchedulerSource)
  invoking action = (as_source (F.invokes action (source_object zero_source)), action)

  unfoldable pub get :
      FakeCloudSchedulerSources F
      → String
      → R.GetOptions
      → Doing (Reply R.Error CloudSchedulerSource)
  get c name options = invoking (get_action cloudschedulersources_resource c.ns name)

  abbrev append : {A : Type 0} → Slice A → A → Slice A
  append items a = slice (items_of items ++ (a ∷ []))

  -- The loop over the items, with what has been appended so far.
  matching :
      F.Selector
      → Slice CloudSchedulerSource
      → List CloudSchedulerSource
      → Slice CloudSchedulerSource
  matching label kept [] = kept
  matching label kept (item ∷ items) =
      matching label (if F.matches label item.object_meta.labels then append kept item else kept)
        items

  pub label_of : Option F.Selector → F.Selector
  label_of none = F.everything
  label_of (some label) = label

  listed :
      ListOptions R
      → Option (Object F.Other) × Option R.Error
      → Reply R.Error CloudSchedulerSourceList
  unfolding matching label_of
  listed opts (none, e) = replied none e
  listed opts (some (list_object l), e) =
      replied
        (some (record zero_list {
          items = matching (label_of (F.extract_label opts)) nil_slice (items_of l.items);
        }))
        e
  listed opts (some (source_object _), e) = wrong_type
  listed opts (some (other_object _), e) = wrong_type

  unfoldable pub list :
      FakeCloudSchedulerSources F → ListOptions R → Doing (Reply R.Error CloudSchedulerSourceList)
  unfolding listed
  list c opts =
      let action =
        list_action cloudschedulersources_resource cloudschedulersources_kind c.ns opts in
      (listed opts (F.invokes action (list_object zero_list)), action)

  unfoldable pub watch :
      FakeCloudSchedulerSources F → ListOptions R → Doing (Result R.Error R.Watcher)
  watch c opts =
      let action = watch_action cloudschedulersources_resource c.ns opts in
      (F.invokes_watch action, action)

  unfoldable pub create :
      FakeCloudSchedulerSources F
      → CloudSchedulerSource
      → Doing (Reply R.Error CloudSchedulerSource)
  create c source = invoking (create_action cloudschedulersources_resource c.ns source)

  unfoldable pub update :
      FakeCloudSchedulerSources F
      → CloudSchedulerSource
      → Doing (Reply R.Error CloudSchedulerSource)
  update c source = invoking (update_action cloudschedulersources_resource c.ns source)

  unfoldable pub delete :
      FakeCloudSchedulerSources F → String → R.DeleteOptions → Doing (Option R.Error)
  delete c name options =
      let action = delete_action cloudschedulersources_resource c.ns name in
      ((F.invokes action (source_object zero_source)).1, action)

  unfoldable pub delete_collection :
      FakeCloudSchedulerSources F → R.DeleteOptions → ListOptions R → Doing (Option R.Error)
  delete_collection c options list_options =
      let action = delete_collection_action cloudschedulersources_resource c.ns list_options in
      ((F.invokes action (list_object zero_list)).1, action)

  unfoldable pub patch :
      FakeCloudSchedulerSources F
      → String
      → R.PatchType
      → String
      → List String
      → Doing (Reply R.Error CloudSchedulerSource)
  patch c name pt bytes subresources =
      invoking
        (patch_subresource_action cloudschedulersources_resource c.ns name bytes subresources)
