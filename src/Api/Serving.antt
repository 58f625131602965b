-- ===== src/Api/Serving.antt =====
-- The Knative service, by the fields that this repository reads or writes.
use csr.Base.{String, List}
use csr.Api.Meta.{ObjectMeta}

pub record EnvVar : Type 0 where
  pub name : String
  pub value : String

pub record Container : Type 0 where
  pub image : String
  pub env : List EnvVar
  pub args : List String

-- `RunLatest.Configuration.RevisionTemplate.Spec`
pub record RevisionSpec : Type 0 where
  pub service_account_name : String
  pub container : Container

-- `Status.Domain` is what the service's controller has reported so far.
pub record Service : Type 0 where
  pub object_meta : ObjectMeta
  pub run_latest : RevisionSpec
  pub domain : String
