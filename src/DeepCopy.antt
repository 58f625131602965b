-- ===== src/DeepCopy.antt =====
-- pkg/apis/cloudschedulersource/v1alpha1/zz_generated.deepcopy.go, on values: a pointer is what it
-- points to, so that a copy holds what the original holds.
pub mod Laws
pub mod Memory
use csr.Base.{Option, none, some}
use csr.Api.{CloudSchedulerSource, CloudSchedulerSourceSpec, CloudSchedulerSourceStatus}
use csr.Api.Meta.{ObjectReference}

-- The reference is copied field by field, `**out = **in`.
abbrev copy_sink : Option ObjectReference → Option ObjectReference
copy_sink none = none
copy_sink (some r) = some r

abbrev pub deep_copy_spec : CloudSchedulerSourceSpec → CloudSchedulerSourceSpec
deep_copy_spec spec = record spec { sink = copy_sink spec.sink }

abbrev pub deep_copy_status : CloudSchedulerSourceStatus → CloudSchedulerSourceStatus
deep_copy_status status = status

abbrev pub deep_copy : CloudSchedulerSource → CloudSchedulerSource
deep_copy csr = record {
  type_meta = csr.type_meta;
  object_meta = csr.object_meta;
  spec = deep_copy_spec csr.spec;
  status = deep_copy_status csr.status;
}
