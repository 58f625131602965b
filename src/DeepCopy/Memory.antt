-- ===== src/DeepCopy/Memory.antt =====
-- pkg/apis/cloudschedulersource/v1alpha1/zz_generated.deepcopy.go, with pointers: cells at
-- addresses, handed out in ascending order. A `DeepCopyInto` gives what it writes into `out`, with
-- the memory after it; a slice is the address of its array, and nil is `none`.
pub mod Laws
pub mod Sources
pub mod Pointers
pub mod Independence
use csr.Base.{
  String, ℕ, suc, ◌≡◌, ◌≤◌, ◌<◌, ◌==◌, nat_eq, Option, none, some, List, [], ◌∷◌, if◌then◌else◌,
}
use csr.Api.{
  CloudSchedulerSource, CloudSchedulerSourceSpec, CloudSchedulerSourceStatus,
  CloudSchedulerSourceList,
}
use csr.Api.Meta.{TypeMeta, ObjectMeta, ObjectReference, Slice, nil_slice, slice}

-- The vendored `ObjectMeta`, whose pointers lead to blocks, and its `DeepCopyInto`, which takes and
-- gives the next free address and the blocks.
pub record Pointed : Type 1 where
  pub Meta : Type 0
  pub Block : Type 0
  -- All addresses in it are from the first on and below the second.
  pub Within : ℕ → ℕ → Meta → Type 0
  -- What it reads as.
  pub view : (ℕ → Block) → Meta → ObjectMeta
  pub deep_copy_into : Meta → ℕ → (ℕ → Block) → Meta × (ℕ × (ℕ → Block))

pub record SpecCell : Type 0 where
  pub service_account_name : String
  pub google_cloud_project : String
  pub location : String
  pub schedule : String
  pub time_zone : String
  pub http_method : String
  pub body : String
  pub sink : Option ℕ

pub record SourceCell (P : Pointed) : Type 0 where
  pub type_meta : TypeMeta
  pub object_meta : P.Meta
  pub spec : SpecCell
  pub status : CloudSchedulerSourceStatus

pub record ListCell : Type 0 where
  pub type_meta : TypeMeta
  pub resource_version : String
  pub items : Option ℕ

pub record Memory (P : Pointed) : Type 0 where
  pub next : ℕ
  pub blocks : ℕ → P.Block
  pub references : ℕ → ObjectReference
  pub sources : ℕ → SourceCell P
  pub arrays : ℕ → List (SourceCell P)
  pub lists : ℕ → ListCell
  pub specs : ℕ → SpecCell
  pub statuses : ℕ → CloudSchedulerSourceStatus

abbrev pub put {ℓ} : {A : Type ℓ} → (ℕ → A) → ℕ → A → ℕ → A
put f p v q = if p == q then v else f q

module _ (P : Pointed) where
  abbrev Copying : Type 0 → Type 0
  Copying A = Memory P → A × Memory P

  -- `*out = new(v1.ObjectReference); **out = **in` where there is a reference.
  pub sink_into : Option ℕ → Copying (Option ℕ)
  sink_into none m = (none, m)
  sink_into (some r) m = (
    some m.next,
    record m { next = suc m.next; references = put m.references m.next (m.references r) },
  )

  unfoldable pub spec_into : SpecCell → Copying SpecCell
  unfolding sink_into
  spec_into spec m = let (sink, m') = sink_into spec.sink m in (record spec { sink = sink }, m')

  abbrev pub status_into : CloudSchedulerSourceStatus → Copying CloudSchedulerSourceStatus
  status_into status m = (status, m)

  pub meta_into : P.Meta → Copying P.Meta
  meta_into meta m =
      let (meta', (next, blocks)) = P.deep_copy_into meta m.next m.blocks in
      (meta', record m { next = next; blocks = blocks })

  unfoldable pub source_into : SourceCell P → Copying (SourceCell P)
  unfolding meta_into spec_into
  source_into source m =
      let (meta, m1) = meta_into source.object_meta m in
      let (spec, m2) = spec_into source.spec m1 in
      (
        record {
          type_meta = source.type_meta;
          object_meta = meta;
          spec = spec;
          status = source.status;
        },
        m2,
      )

  -- The loop over the items.
  unfoldable pub items_into : List (SourceCell P) → Copying (List (SourceCell P))
  unfolding source_into
  items_into [] m = ([], m)
  items_into (source ∷ sources) m =
      let (source', m1) = source_into source m in
      let (sources', m2) = items_into sources m1 in (source' ∷ sources', m2)

  -- The array is made before the items are copied into it.
  unfoldable pub array_into : Option ℕ → Copying (Option ℕ)
  unfolding items_into
  array_into none m = (none, m)
  array_into (some array) m =
      let (items, m') = items_into (m.arrays array) (record m { next = suc m.next }) in
      (some m.next, record m' { arrays = put m'.arrays m.next items })

  unfoldable pub list_into : ListCell → Copying ListCell
  unfolding array_into
  list_into list m =
      let (items, m') = array_into list.items m in (record list { items = items }, m')

  -- `DeepCopy` of a pointer to a source: a fresh cell, filled by `DeepCopyInto`.
  unfoldable pub copy_source : Option ℕ → Copying (Option ℕ)
  unfolding source_into
  copy_source none m = (none, m)
  copy_source (some p) m =
      let (source, m') = source_into (m.sources p) (record m { next = suc m.next }) in
      (some m.next, record m' { sources = put m'.sources m.next source })

  unfoldable pub copy_list : Option ℕ → Copying (Option ℕ)
  unfolding list_into
  copy_list none m = (none, m)
  copy_list (some p) m =
      let (list, m') = list_into (m.lists p) (record m { next = suc m.next }) in
      (some m.next, record m' { lists = put m'.lists m.next list })

  unfoldable pub copy_spec : Option ℕ → Copying (Option ℕ)
  unfolding spec_into
  copy_spec none m = (none, m)
  copy_spec (some p) m =
      let (spec, m') = spec_into (m.specs p) (record m { next = suc m.next }) in
      (some m.next, record m' { specs = put m'.specs m.next spec })

  unfoldable pub copy_status : Option ℕ → Copying (Option ℕ)
  copy_status none m = (none, m)
  copy_status (some p) m =
      (some m.next, record m { next = suc m.next; statuses = put m.statuses m.next (m.statuses p) })

  -- `DeepCopyObject`: the nil pointer becomes the nil interface.
  abbrev pub as_object : Option ℕ × Memory P → Option ℕ × Memory P
  as_object (none, m) = (none, m)
  as_object (some c, m) = (some c, m)

  abbrev pub copy_source_object : Option ℕ → Copying (Option ℕ)
  copy_source_object p m = as_object (copy_source p m)

  abbrev pub copy_list_object : Option ℕ → Copying (Option ℕ)
  copy_list_object p m = as_object (copy_list p m)
