-- ===== src/Api/Meta.antt =====
-- The Kubernetes types that the resource is made of, by the fields that this repository reads or
-- writes. A pointer that is only read is an `Option`. A Go slice tells nil from empty.
use csr.Base.{String, Bool, Option, List, [], Eq, String-discrete}

pub data Slice {ℓ} (A : Type ℓ) : Type ℓ where
  nil_slice : Slice A
  slice : List A → Slice A

-- What `range` and `...` see.
abbrev pub items_of {ℓ} : {A : Type ℓ} → Slice A → List A
items_of nil_slice = []
items_of (slice xs) = xs

pub record TypeMeta : Type 0 where
  pub kind : String
  pub api_version : String

pub record OwnerReference : Type 0 where
  pub api_version : String
  pub kind : String
  pub name : String
  pub uid : String
  pub controller : Bool
  pub block_owner_deletion : Bool

pub record ObjectMeta : Type 0 where
  pub name : String
  pub namespace : String
  pub uid : String
  pub resource_version : String
  pub deletion_timestamp : Option String
  pub labels : List (String × String)
  pub annotations : List (String × String)
  pub owner_references : List OwnerReference
  pub finalizers : Slice String

pub record ObjectReference : Type 0 where
  pub kind : String
  pub namespace : String
  pub name : String
  pub uid : String
  pub api_version : String
  pub resource_version : String
  pub field_path : String

pub record GroupVersion : Type 0 where
  pub group : String
  pub version : String

pub record GroupVersionKind : Type 0 where
  pub group : String
  pub version : String
  pub kind : String

pub record GroupVersionResource : Type 0 where
  pub group : String
  pub version : String
  pub resource : String

pub record GroupKind : Type 0 where
  pub group : String
  pub kind : String

pub record GroupResource : Type 0 where
  pub group : String
  pub resource : String

-- The conversions between these, which only rearrange fields.
abbrev pub with_kind : GroupVersion → String → GroupVersionKind
with_kind gv k = record { group = gv.group; version = gv.version; kind = k }

abbrev pub with_resource : GroupVersion → String → GroupVersionResource
with_resource gv r = record { group = gv.group; version = gv.version; resource = r }

abbrev pub group_kind : GroupVersionKind → GroupKind
group_kind gvk = record { group = gvk.group; kind = gvk.kind }

abbrev pub group_resource : GroupVersionResource → GroupResource
group_resource gvr = record { group = gvr.group; resource = gvr.resource }

unfoldable pub Bool_dec : Discrete Bool
Bool_dec = hlevel

unfoldable pub OwnerReference-discrete : Discrete OwnerReference
OwnerReference-discrete = hlevel (String-discrete, Bool_dec)

unfoldable pub ObjectMeta-discrete : Discrete ObjectMeta
ObjectMeta-discrete = hlevel (String-discrete, OwnerReference-discrete)

-- `reflect.DeepEqual` on two metadata: it tells a nil slice from an empty one.
instance abbrev pub meta_eq : Eq ObjectMeta
meta_eq = record { dec = ObjectMeta-discrete }
