-- ===== src/Tests/Copies.antt =====
-- Deep copies in a memory, with a write through the original and one through the copy.
use csr.Base.{String, ℕ, suc, ◌≡◌, ◌≤◌, ◌<◌, nat_eq, refl, ap, none, some, [], ◌∷◌, arith}
use csr.Api.{CloudSchedulerSourceStatus}
use csr.Api.Meta.{ObjectMeta, Slice, nil_slice, slice}
use csr.DeepCopy.Memory.{Pointed, Memory, SourceCell, put, copy_source}
use csr.DeepCopy.Memory.Laws.{IsMetaCopying}
use csr.DeepCopy.Memory.Pointers.{view_pointer}
use csr.DeepCopy.Memory.Independence.{copy_source-independent}
use csr.Reconciler.Finalizers.{finalizer_name}
use csr.Tests.Cluster.{clock, blank, settled}
use csr.Tests.Works.{channel}

-- The finalizers stand in a block of their own.
abbrev blocked : Pointed
blocked = record {
  Meta = ObjectMeta × ℕ;
  Block = Slice String;
  Within = λ lo hi meta. (lo ≤ meta.1) × (meta.1 < hi);
  view = λ b meta. record meta.0 { finalizers = b meta.1 };
  deep_copy_into = λ meta n b. ((meta.0, n), (suc n, put b n (b meta.1)));
}

blocked-IsMetaCopying : IsMetaCopying blocked
blocked-IsMetaCopying = record {
  widen = λ lo hi lo' hi' meta l h w. (omega (arith, w.0, w.1), omega (arith, w.0, w.1));
  reads = λ lo hi b b' meta w s. ap (λ f. record meta.0 { finalizers = f }) (s meta.1 w.0 w.1);
  grows = λ meta n b. omega arith;
  keeps = λ meta n b a h. ground arith;
  fresh = λ meta n b. (omega arith, omega arith);
  same = λ meta n b w. ap (λ f. record meta.0 { finalizers = f }) (ground arith);
}

abbrev cell : CloudSchedulerSourceStatus → SourceCell blocked
cell status = record {
  type_meta = (clock none nil_slice blank).type_meta;
  object_meta = ((clock none nil_slice blank).object_meta, 1);
  spec = record {
    service_account_name = "";
    google_cloud_project = "p";
    location = "l";
    schedule = "every 1 mins";
    time_zone = "";
    http_method = "";
    body = "tick";
    sink = some 2;
  };
  status = status;
}

-- A source at 0, with its finalizers at 1 and its sink at 2; a list at 3, with its array at 4.
abbrev memory : Memory blocked
memory = record {
  next = 5;
  blocks = λ a. slice (finalizer_name ∷ []);
  references = λ a. channel;
  sources = λ a. cell blank;
  arrays = λ a. cell blank ∷ cell settled ∷ [];
  lists = λ a. record {
    type_meta = (clock none nil_slice blank).type_meta;
    resource_version = "7";
    items = some 4;
  };
  specs = λ a. (cell blank).spec;
  statuses = λ a. blank;
}

abbrev copied : Memory blocked
copied = (copy_source blocked (some 0) memory).1

copy_source-independent_example :
    (view_pointer blocked
        (record copied { sources = put copied.sources 0 (cell settled) })
        (copy_source blocked (some 0) memory).0
      ≡ view_pointer blocked memory (some 0))
    × (view_pointer blocked
          (record copied { sources = put copied.sources 5 (cell settled) })
          (some 0)
        ≡ view_pointer blocked memory (some 0))
copy_source-independent_example =
    copy_source-independent blocked blocked-IsMetaCopying memory (some 0)
      (record copied { sources = put copied.sources 0 (cell settled) })
      (record copied { sources = put copied.sources 5 (cell settled) })
      ((omega arith, omega arith), ((omega arith, omega arith), (omega arith, omega arith)))
      (λ a l h. (refl, refl, ground arith, refl, refl, refl, refl))
      (λ a l h. (refl, refl, ground arith, refl, refl, refl, refl))
