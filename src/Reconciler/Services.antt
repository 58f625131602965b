-- ===== src/Reconciler/Services.antt =====
-- The receive adapter's service: `MakeService` of
-- pkg/reconciler/cloudschedulersource/resources/service.go and `reconcileService` of
-- pkg/reconciler/cloudschedulersource/cloudschedulersource.go.
pub mod Laws
use csr.Base.{
  String, ◌<>◌, none, [], ◌∷◌, Result, ok, err, pure, fail, attempt, ◌>>=◌, if◌then◌else◌,
}
use csr.Api.{CloudSchedulerSource, get_group_version_kind}
use csr.Api.Meta.{nil_slice}
use csr.Api.Serving.{Service}
use csr.Platform.{Vendor, Env, Run, get_service, create_service}

module _ (V : Vendor) where
  unfoldable pub make_service : CloudSchedulerSource → String → Service
  make_service source receive_adapter_image =
      let sink_uri = source.status.sink_uri in
      record {
        object_meta = record {
          name = source.object_meta.name;
          namespace = source.object_meta.namespace;
          uid = "";
          resource_version = "";
          deletion_timestamp = none;
          labels = ("receive-adapter", "cloudschedulersource") ∷ [];
          annotations = [];
          owner_references =
              V.new_controller_ref source.object_meta (get_group_version_kind source) ∷ [];
          finalizers = nil_slice;
        };
        run_latest = record {
          service_account_name = source.spec.service_account_name;
          container = record {
            image = receive_adapter_image;
            env = record { name = "SINK"; value = sink_uri } ∷ [];
            args = ("--sink=" <> sink_uri) ∷ [];
          };
        };
        domain = "";
      }

module _ {V : Vendor} (env : Env V) (ra_image : String) where
  -- What follows the `Get`.
  existing_or_new : CloudSchedulerSource → Result V.Error Service → Run V Service
  existing_or_new csr (ok existing) = pure existing
  existing_or_new csr (err e) =
      if V.is_not_found e
      then create_service env csr.object_meta.namespace (make_service V csr ra_image)
      else fail e

  unfoldable pub reconcile_service : CloudSchedulerSource → Run V Service
  unfolding existing_or_new
  reconcile_service csr = do
    found ← attempt (get_service env csr.object_meta.namespace csr.object_meta.name)
    existing_or_new csr found
