-- ===== src/Client/Fake/Laws.antt =====
-- What the fake client of
-- pkg/client/clientset/versioned/typed/cloudschedulersource/v1alpha1/fake/fake_cloudschedulersource.go
-- lists, and how its actions compare with the requests of the typed client.
use mathlib.Core.List.{append-nil, append_assoc}
use csr.Base.{
  String, false, ◌≡◌, refl, sym, ◌∙◌, Option, some, List, [], ◌∷◌, ◌++◌, if◌then◌else◌, Bool-cases,
  inl, inr,
}
use csr.Api.{CloudSchedulerSource, CloudSchedulerSourceList}
use csr.Api.Meta.{Slice, nil_slice, slice, items_of}
use mathlib.Core.Option.{map}
use csr.Client.{Rest, zero_list, ListOptions}
use csr.Client.Routes.{
  Operation, getting, listing, watching, creating, updating, deleting, deleting_all, patching,
}
use csr.Client.Fake
use csr.Client.Fake.{
  Faking, Action, get_action, list_action, watch_action, create_action, update_action,
  delete_action, delete_collection_action, patch_subresource_action, Reply, replied,
  FakeCloudSchedulerSources, list_object, matching, label_of, listed,
  cloudschedulersources_resource, cloudschedulersources_kind,
}

module _ {R : Rest} (F : Faking R) where
  -- The items whose labels the selector matches, in their order.
  abbrev pub selected : F.Selector → List CloudSchedulerSource → List CloudSchedulerSource
  selected label [] = []
  selected label (item ∷ items) =
      if F.matches label item.object_meta.labels
      then item ∷ selected label items
      else selected label items

  matching-selected :
      (label : F.Selector) (kept : Slice CloudSchedulerSource) (items : List CloudSchedulerSource)
      → items_of (matching F label kept items) ≡ items_of kept ++ selected label items
  unfolding matching
  matching-selected label kept [] = sym (append-nil (items_of kept))
  matching-selected label kept (item ∷ items) =
      elim (Bool-cases (F.matches label item.object_meta.labels)) [
        | inl p ↦ rw p (
            matching-selected label (slice (items_of kept ++ (item ∷ []))) items
            ∙ append_assoc (items_of kept) (item ∷ []) (selected label items))
        | inr p ↦ rw p (matching-selected label kept items)
      ]

  -- `List` gives the items of the tracker's answer whose labels match the selector of the options,
  -- or all that everything matches where the options have none, in their order and with the answer's
  -- error; and it loses the resource version of the answer.
  pub list-selected :
      (c : FakeCloudSchedulerSources F) (opts : ListOptions R) (l : CloudSchedulerSourceList)
      (e : Option R.Error)
      → F.invokes
          (list_action cloudschedulersources_resource cloudschedulersources_kind c.ns opts)
          (list_object zero_list)
        ≡ (some (list_object l), e)
      → (result : CloudSchedulerSourceList) × ((Fake.list F c opts).0 ≡ replied (some result) e)
        × (items_of result.items ≡ selected (label_of F (F.extract_label opts)) (items_of l.items))
        × (result.resource_version ≡ "")
  unfolding Fake.list listed
  list-selected c opts l e answered = (
    record zero_list {
      items = matching F (label_of F (F.extract_label opts)) nil_slice (items_of l.items);
    },
    rw answered refl,
    matching-selected (label_of F (F.extract_label opts)) nil_slice (items_of l.items),
    refl,
  )

-- What an operation does, with all that the fake client's action carries: the options of a get and of
-- a deletion, and the type of a patch, are not in it.
pub data Deed (R : Rest) : Type 0 where
  gets : String → Deed R
  lists : R.Options → Deed R
  watches : R.Options → Deed R
  creates : CloudSchedulerSource → Deed R
  updates : CloudSchedulerSource → Deed R
  deletes : String → Deed R
  deletes_all : ListOptions R → Deed R
  patches : String → List String → String → Deed R

abbrev pub acted : {R : Rest} → String × (String × Deed R) → String × (String × Option (Deed R))
acted (ns, (r, d)) = (ns, (r, some d))

module _ {R : Rest} where
  abbrev pub deed : Operation R → Deed R
  deed (getting n _) = gets n
  deed (listing o) = lists o
  deed (watching o) = watches o
  deed (creating s) = creates s
  deed (updating _ s) = updates s
  deed (deleting n _) = deletes n
  deed (deleting_all _ l) = deletes_all l
  deed (patching n s _ b) = patches n s b

  -- Namespace, resource and deed of an action.
  abbrev pub deed_of_action : Action R → String × (String × Deed R)
  deed_of_action (get_action gvr ns n) = (ns, (gvr.resource, gets n))
  deed_of_action (list_action gvr _ ns o) = (ns, (gvr.resource, lists o.options))
  deed_of_action (watch_action gvr ns o) = (ns, (gvr.resource, watches o.options))
  deed_of_action (create_action gvr ns s) = (ns, (gvr.resource, creates s))
  deed_of_action (update_action gvr ns s) = (ns, (gvr.resource, updates s))
  deed_of_action (delete_action gvr ns n) = (ns, (gvr.resource, deletes n))
  deed_of_action (delete_collection_action gvr ns l) = (ns, (gvr.resource, deletes_all l))
  deed_of_action (patch_subresource_action gvr ns n b s) = (ns, (gvr.resource, patches n s b))

  abbrev pub read_deed :
      String × (String × Option (Operation R)) → String × (String × Option (Deed R))
  read_deed (ns, (r, op)) = (ns, (r, map deed op))

  module _ (F : Faking R) where
    -- The action of the fake client's method for an operation.
    abbrev pub act : FakeCloudSchedulerSources F → Operation R → Action R
    act c (getting n o) = (Fake.get F c n o).1
    act c (listing o) = (Fake.list F c (record { options = o; watch = false })).1
    act c (watching o) = (Fake.watch F c (record { options = o; watch = false })).1
    act c (creating s) = (Fake.create F c s).1
    act c (updating _ s) = (Fake.update F c s).1
    act c (deleting n o) = (Fake.delete F c n o).1
    act c (deleting_all o l) = (Fake.delete_collection F c o l).1
    act c (patching n s t b) = (Fake.patch F c n t b s).1
