-- ===== src/Api.antt =====
-- The CloudSchedulerSource custom resource: pkg/apis/cloudschedulersource/v1alpha1/types.go and
-- register.go, and pkg/apis/cloudschedulersource/register.go.
pub mod Meta
pub mod Job
pub mod Serving
use csr.Base.{String, Option, List, Eq, String-discrete}
use csr.Api.Meta.{TypeMeta, ObjectMeta, ObjectReference, GroupVersion, GroupVersionKind, Slice}
use csr.Api.Meta.{GroupKind, GroupResource, with_kind, group_kind, with_resource, group_resource}

abbrev pub group_name : String
group_name = "sources.aikas.org"

abbrev pub scheme_group_version : GroupVersion
scheme_group_version = record { group = group_name; version = "v1alpha1" }

pub record CloudSchedulerSourceSpec : Type 0 where
  pub service_account_name : String
  pub google_cloud_project : String
  pub location : String
  pub schedule : String
  pub time_zone : String
  pub http_method : String
  pub body : String
  pub sink : Option ObjectReference

pub record CloudSchedulerSourceStatus : Type 0 where
  pub job : String
  pub sink_uri : String

pub record CloudSchedulerSource : Type 0 where
  pub type_meta : TypeMeta
  pub object_meta : ObjectMeta
  pub spec : CloudSchedulerSourceSpec
  pub status : CloudSchedulerSourceStatus

pub record CloudSchedulerSourceList : Type 0 where
  pub type_meta : TypeMeta
  pub resource_version : String
  pub items : Slice CloudSchedulerSource

abbrev pub get_group_version_kind : CloudSchedulerSource → GroupVersionKind
get_group_version_kind csr = with_kind scheme_group_version "CloudSchedulerSource"

-- `Kind` and `Resource` of register.go.
abbrev pub kind : String → GroupKind
kind k = group_kind (with_kind scheme_group_version k)

abbrev pub resource : String → GroupResource
resource r = group_resource (with_resource scheme_group_version r)

unfoldable pub CloudSchedulerSourceStatus-discrete : Discrete CloudSchedulerSourceStatus
CloudSchedulerSourceStatus-discrete = hlevel String-discrete

-- `reflect.DeepEqual` on two statuses.
instance abbrev pub status_eq : Eq CloudSchedulerSourceStatus
status_eq = record { dec = CloudSchedulerSourceStatus-discrete }
