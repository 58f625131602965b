-- ===== src/Platform/Semantic.antt =====
-- What is assumed of `equality.Semantic.DeepEqual`: statuses are equal as they are, metadata up to
-- a nil slice in place of an empty one.
use csr.Base.{◌≡◌, true, ◌↔◌}
use csr.Api.{CloudSchedulerSourceStatus}
use csr.Api.Meta.{ObjectMeta, items_of}
use csr.Platform.{Vendor}

pub record IsSemantic (V : Vendor) : Type 0 where
  pub status_equal_iff : (a b : CloudSchedulerSourceStatus) → (V.status_equal a b ≡ true) ↔ (a ≡ b)
  pub meta_equal_finalizers :
      (a b : ObjectMeta) → V.meta_equal a b ≡ true → items_of a.finalizers ≡ items_of b.finalizers
  pub meta_equal_refl : (a : ObjectMeta) → V.meta_equal a a ≡ true
