-- ===== src/DeepCopy/Laws.antt =====
-- A copy holds what the original holds.
use csr.Base.{◌≡◌, refl, ap, Option, none, some}
use csr.Api.{CloudSchedulerSource}
use csr.Api.Meta.{ObjectReference}
use csr.DeepCopy.{deep_copy, copy_sink}

copy_sink-eq : (sink : Option ObjectReference) → copy_sink sink ≡ sink
copy_sink-eq none = refl
copy_sink-eq (some r) = refl

pub deep_copy-eq : (csr : CloudSchedulerSource) → deep_copy csr ≡ csr
deep_copy-eq csr =
    ap (λ s. record csr { spec = record csr.spec { sink = s } }) (copy_sink-eq csr.spec.sink)
