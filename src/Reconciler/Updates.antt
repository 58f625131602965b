-- ===== src/Reconciler/Updates.antt =====
-- `update` of pkg/reconciler/cloudschedulersource/cloudschedulersource.go, which writes status and
-- finalizers back.
pub mod Laws
use csr.Base.{not, ◌||◌, if◌then◌else◌, ◌==◌, pure, ◌>>=◌}
use csr.Api.{CloudSchedulerSource, status_eq}
use csr.Api.Meta.{meta_eq}
use csr.DeepCopy.{deep_copy}
use csr.Lister
use csr.Platform.{Vendor, Env, Run, update_source}

-- A copy of the cached object with the status and the finalizers of the desired one.
abbrev pub merged : CloudSchedulerSource → CloudSchedulerSource → CloudSchedulerSource
merged csr desired =
    let existing = deep_copy csr in
    record existing {
      object_meta = record existing.object_meta { finalizers = desired.object_meta.finalizers };
      status = desired.status;
    }

module _ {V : Vendor} (env : Env V) where
  unfoldable pub update : CloudSchedulerSource → Run V CloudSchedulerSource
  unfolding Lister.get
  update desired = do
    csr ← Lister.get env desired.object_meta.namespace desired.object_meta.name
    if not (csr.status == desired.status) || not (csr.object_meta == desired.object_meta)
        then update_source env desired.object_meta.namespace (merged csr desired)
        else pure csr
