-- ===== src/Reconciler/Finalizers.antt =====
-- `addFinalizer` and `removeFinalizer` of pkg/reconciler/cloudschedulersource/cloudschedulersource.go.
pub mod Laws
use csr.Base.{String, List}
use csr.Api.{CloudSchedulerSource}
use csr.Api.Meta.{slice, items_of}
use csr.Platform.{Vendor}

abbrev pub controller_agent_name : String
controller_agent_name = "cloudschedulersource-controller"

abbrev pub finalizer_name : String
finalizer_name = controller_agent_name

abbrev set_finalizers : CloudSchedulerSource → List String → CloudSchedulerSource
set_finalizers csr names = record csr {
  object_meta = record csr.object_meta { finalizers = slice names };
}

module _ (V : Vendor) where
  unfoldable pub add_finalizer : CloudSchedulerSource → CloudSchedulerSource
  add_finalizer csr =
      let finalizers = V.new_string (items_of csr.object_meta.finalizers) in
      set_finalizers csr (V.list (V.insert finalizers finalizer_name))

  unfoldable pub remove_finalizer : CloudSchedulerSource → CloudSchedulerSource
  remove_finalizer csr =
      let finalizers = V.new_string (items_of csr.object_meta.finalizers) in
      set_finalizers csr (V.list (V.delete finalizers finalizer_name))
