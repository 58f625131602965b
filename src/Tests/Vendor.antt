-- ===== src/Tests/Vendor.antt =====
-- Concrete stand-ins for the vendored libraries, and proofs that they meet what is assumed of them.
use csr.Base.{
  String, ℕ, ◌≡◌, ◌∙◌, refl, ap, Bool, true, false, not, ◌&&◌, ◌||◌, Option, none, some, List, [],
  ◌∷◌, ◌==◌, string_eq, nat_eq, if◌then◌else◌, ok, err, contains, All, arith,
}
use csr.Base.Order.{before, IsSorted, before_trans, before_total}
use csr.Api.{status_eq}
use csr.Api.Meta.{Slice, ObjectMeta, meta_eq, items_of}
use csr.Platform.{Vendor}
use csr.Platform.Sets.{AreSets}
use csr.Platform.Semantic.{IsSemantic}

insert_sorted : String → List String → List String
insert_sorted a [] = a ∷ []
insert_sorted a (x ∷ xs) =
    let rest = insert_sorted a xs in
    if a == x then x ∷ xs else if before a x then a ∷ x ∷ xs else x ∷ rest

unfoldable pub sort : List String → List String
unfolding insert_sorted
sort [] = []
sort (x ∷ xs) = insert_sorted x (sort xs)

unfoldable pub without : List String → String → List String
without [] a = []
without (x ∷ xs) a = let rest = without xs a in if x == a then rest else x ∷ rest

contains-insert_sorted :
    (a x : String) (xs : List String) → contains (insert_sorted a xs) x ≡ (x == a || contains xs x)
unfolding insert_sorted
contains-insert_sorted a x [] = refl
contains-insert_sorted a x (y ∷ xs) = ground (arith, contains-insert_sorted a x xs)

contains-sort : (xs : List String) (x : String) → contains (sort xs) x ≡ contains xs x
unfolding sort
contains-sort [] x = refl
contains-sort (y ∷ xs) x = ground (arith, contains-insert_sorted y x (sort xs), contains-sort xs x)

contains-without :
    (xs : List String) (a x : String) → contains (without xs a) x ≡ (not (x == a) && contains xs x)
unfolding without
contains-without [] a x = ground arith
contains-without (y ∷ xs) a x = ground (arith, contains-without xs a x)

All-before :
    (a b : String) (xs : List String)
    → before a b ≡ true
    → All (λ y. before b y ≡ true) xs
    → All (λ y. before a y ≡ true) xs
All-before a b [] h k = tt
All-before a b (x ∷ xs) h (p, k) = (before_trans a b x h p, All-before a b xs h k)

All-insert_sorted :
    (b a : String) (xs : List String)
    → before b a ≡ true
    → All (λ y. before b y ≡ true) xs
    → All (λ y. before b y ≡ true) (insert_sorted a xs)
unfolding insert_sorted
All-insert_sorted b a [] h k = (h, tt)
All-insert_sorted b a (x ∷ xs) h (p, k) = ground (arith, All-insert_sorted b a xs h k)

insert_sorted-IsSorted :
    (a : String) (xs : List String) → IsSorted xs → IsSorted (insert_sorted a xs)
unfolding insert_sorted
insert_sorted-IsSorted a [] s = (tt, tt)
insert_sorted-IsSorted a (x ∷ xs) (p, s) = ground (
  arith,
  insert_sorted-IsSorted a xs s,
  All-before a x xs,
  All-insert_sorted x a xs,
  before_total a x,
)

sort-IsSorted : (xs : List String) → IsSorted (sort xs)
unfolding sort
sort-IsSorted [] = tt
sort-IsSorted (x ∷ xs) = insert_sorted-IsSorted x (sort xs) (sort-IsSorted xs)

pub data SampleError : Type 0 where
  gone : SampleError
  status : ℕ → SampleError
  plain : String → SampleError

abbrev is_gone : SampleError → Bool
is_gone gone = true
is_gone (status _) = false
is_gone (plain _) = false

abbrev code_of : SampleError → Option ℕ
code_of gone = none
code_of (status c) = some c
code_of (plain _) = none

-- The metadata with an empty list of finalizers in place of none.
abbrev filled : ObjectMeta → ObjectMeta
filled m = record m { finalizers = Slice.slice (items_of m.finalizers) }

-- An object of the dynamic client is its host name.
abbrev pub sample : Vendor
sample = record {
  Error = SampleError;
  errorf = plain;
  error_text = λ e. "an error";
  is_not_found = is_gone;
  new_not_found = λ r name. gone;
  from_error = code_of;
  not_found = 5;
  split_meta_namespace_key = λ key.
      if key == "default/clock"
      then ok ("default", "clock")
      else if key == "default/bell"
      then ok ("default", "bell")
      else err (plain "unexpected key");
  status_equal = λ a b. a == b;
  meta_equal = λ a b. filled a == filled b;
  StringSet = List String;
  new_string = λ xs. xs;
  insert = λ s a. a ∷ s;
  delete = without;
  list = sort;
  http_method_value = λ m. if m == "POST" then some 1 else if m == "GET" then some 2 else none;
  http_method_post = 1;
  job_text = λ job. job.name;
  Object = String;
  group_version_kind = λ ref. record { group = ""; version = "v1"; kind = ref.kind };
  kind_to_resource =
      λ gvk. record { group = gvk.group; version = gvk.version; resource = "channels" };
  has_client = λ gvr. true;
  from_unstructured = λ host. ok (some host);
  new_controller_ref = λ m gvk. record {
    api_version = "sources.aikas.org/v1alpha1";
    kind = gvk.kind;
    name = m.name;
    uid = m.uid;
    controller = true;
    block_owner_deletion = true;
  };
}

pub sample-AreSets : AreSets sample
sample-AreSets = record {
  contains-new_string = contains-sort;
  contains-insert = λ s a x. contains-sort (a ∷ s) x ∙ rw contains-sort;
  contains-delete =
      λ s a x. contains-sort (without s a) x ∙ contains-without s a x ∙ rw contains-sort;
  list-IsSorted = sort-IsSorted;
}

pub sample-IsSemantic : IsSemantic sample
sample-IsSemantic = record {
  status_equal_iff = λ a b. ground arith;
  meta_equal_finalizers = λ a b h. ap (λ m. items_of m.finalizers) (filled_eq a b h);
  meta_equal_refl = λ a. ground arith;
}
  where
    filled_eq : (a b : ObjectMeta) → (filled a == filled b) ≡ true → filled a ≡ filled b
    filled_eq a b h = ground arith
