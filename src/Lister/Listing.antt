-- ===== src/Lister/Listing.antt =====
-- The listing methods of pkg/client/listers/cloudschedulersource/v1alpha1/cloudschedulersource.go:
-- `List` of the lister of all namespaces and of the lister of one.
pub mod Laws
use csr.Base.{
  String, ◌==◌, string_eq, Option, none, some, List, [], ◌∷◌, ◌++◌, Result, ok, if◌then◌else◌,
}
use csr.Api.{CloudSchedulerSource}
use csr.Api.Meta.{Slice, nil_slice, slice, items_of}

-- What the cache holds, as a cast tells it apart.
pub data Entry (O : Type 0) : Type 0 where
  source_entry : CloudSchedulerSource → Entry O
  other_entry : O → Entry O

-- client-go's `cache.ListAll` and `cache.ListAllByNamespace`: the entries for which they call the
-- function that they are given, in order, and their error.
pub record Cache : Type 1 where
  pub Error : Type 0
  pub Other : Type 0
  pub Indexer : Type 0
  pub Selector : Type 0
  pub list_all : Indexer → Selector → List (Entry Other) × Option Error
  pub list_all_by_namespace : Indexer → String → Selector → List (Entry Other) × Option Error

-- `cloudSchedulerSourceLister` and `cloudSchedulerSourceNamespaceLister`
pub record Lister (K : Cache) : Type 0 where
  pub indexer : K.Indexer

pub record NamespaceLister (K : Cache) : Type 0 where
  pub indexer : K.Indexer
  pub namespace : String

-- Both results, or the panic of the cast.
pub data Listed (E : Type 0) : Type 0 where
  listed : Slice CloudSchedulerSource → Option E → Listed E
  wrong_type : Listed E

abbrev pub new_cloud_scheduler_source_lister : {K : Cache} → K.Indexer → Lister K
new_cloud_scheduler_source_lister indexer = record { indexer = indexer }

abbrev pub cloud_scheduler_sources : {K : Cache} → Lister K → String → NamespaceLister K
cloud_scheduler_sources s namespace = record { indexer = s.indexer; namespace = namespace }

-- The calls of the function that appends to `ret`.
abbrev pub append_all :
    {O : Type 0} → Slice CloudSchedulerSource → List (Entry O) → Option (Slice CloudSchedulerSource)
append_all ret [] = some ret
append_all ret (source_entry m ∷ entries) = append_all (slice (items_of ret ++ (m ∷ []))) entries
append_all ret (other_entry _ ∷ entries) = none

abbrev pub returned : {E : Type 0} → Option (Slice CloudSchedulerSource) → Option E → Listed E
returned none e = wrong_type
returned (some ret) e = listed ret e

module _ {K : Cache} where
  unfoldable pub list : Lister K → K.Selector → Listed K.Error
  list s selector =
      let (entries, e) = K.list_all s.indexer selector in returned (append_all nil_slice entries) e

  unfoldable pub list_namespace : NamespaceLister K → K.Selector → Listed K.Error
  list_namespace s selector =
      let (entries, e) = K.list_all_by_namespace s.indexer s.namespace selector in
      returned (append_all nil_slice entries) e
