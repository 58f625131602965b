-- ===== src/Api/Job.antt =====
-- The Cloud Scheduler job of the scheduler's protobuf package, by the fields that this repository
-- reads or writes. A nil `[]byte` body is the empty text: `bytes.Compare` does not tell them apart.
use csr.Base.{String, ℕ, Option, none, some}

pub record HttpTarget : Type 0 where
  pub uri : String
  pub http_method : ℕ
  pub body : String

-- The `oneof` of a job: not set, or one of three kinds. Of two kinds only the presence matters.
pub data Target : Type 0 where
  unset : Target
  http : HttpTarget → Target
  pubsub : String → Target
  app_engine : String → Target

pub record Job : Type 0 where
  pub name : String
  pub schedule : String
  pub time_zone : String
  pub target : Target

abbrev pub http_of : Target → Option HttpTarget
http_of (http t) = some t
http_of unset = none
http_of (pubsub _) = none
http_of (app_engine _) = none

-- `GetHttpTarget`: nil unless the target is an HTTP target.
abbrev pub get_http_target : Job → Option HttpTarget
get_http_target job = http_of job.target
