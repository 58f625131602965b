-- ===== src/Lister/Listing/Laws.antt =====
-- What the listers of pkg/client/listers/cloudschedulersource/v1alpha1/cloudschedulersource.go list.
use mathlib.Core.List.{append-nil, append_assoc}
use csr.Base.{
  String, ◌==◌, string_eq, ◌≡◌, refl, ap, sym, ◌∙◌, Option, some, List, [], ◌∷◌, ◌++◌,
  if◌then◌else◌,
}
use csr.Api.{CloudSchedulerSource}
use csr.Api.Meta.{Slice, nil_slice, slice, items_of}
use csr.Lister.Listing.{
  Entry, source_entry, Cache, Lister, listed, cloud_scheduler_sources, append_all, list,
  list_namespace,
}

abbrev pub entries_of : {O : Type 0} → List CloudSchedulerSource → List (Entry O)
entries_of [] = []
entries_of (source ∷ sources) = source_entry source ∷ entries_of sources

-- The sources of a namespace, in their order.
abbrev pub in_namespace : String → List CloudSchedulerSource → List CloudSchedulerSource
in_namespace namespace [] = []
in_namespace namespace (source ∷ sources) =
    if source.object_meta.namespace == namespace
    then source ∷ in_namespace namespace sources
    else in_namespace namespace sources

append_all-entries :
    (O : Type 0) (ret : Slice CloudSchedulerSource) (sources : List CloudSchedulerSource)
    → (kept : Slice CloudSchedulerSource) × (append_all {O = O} ret (entries_of sources)
        ≡ some kept)
      × (items_of kept ≡ items_of ret ++ sources)
append_all-entries O ret [] = (ret, refl, sym (append-nil (items_of ret)))
append_all-entries O ret (source ∷ sources) =
    let (kept, p, q) = append_all-entries O (slice (items_of ret ++ (source ∷ []))) sources in
    (kept, p, q ∙ append_assoc (items_of ret) (source ∷ []) sources)

module _ {K : Cache} (s : Lister K) (selector : K.Selector) (sources : List CloudSchedulerSource)
    (e : Option K.Error) where
  -- In a cache of sources alone, whose index by namespace agrees with it, the lister gives all the
  -- sources that the selector matches, and the lister of a namespace those of them that are in that
  -- namespace, both in the order of the cache and with its error.
  pub list-in_namespace :
      (namespace : String)
      → K.list_all s.indexer selector ≡ (entries_of sources, e)
      → K.list_all_by_namespace s.indexer namespace selector
        ≡ (entries_of (in_namespace namespace sources), e)
      → (all : Slice CloudSchedulerSource) × (some_of : Slice CloudSchedulerSource) × (list s
            selector
          ≡ listed all e)
        × (list_namespace (cloud_scheduler_sources s namespace) selector ≡ listed some_of e)
        × (items_of all ≡ sources)
        × (items_of some_of ≡ in_namespace namespace (items_of all))
  unfolding list list_namespace
  list-in_namespace namespace p q =
      let (all, a, b) = append_all-entries K.Other nil_slice sources in
      let (some_of, c, d) = append_all-entries K.Other nil_slice (in_namespace namespace sources) in
      (all, some_of, rw p (rw a refl), rw q (rw c refl), b, d ∙ ap (in_namespace namespace) (sym b))
