-- ===== src/Client.antt =====
-- The typed client of the resource,
-- pkg/client/clientset/versioned/typed/cloudschedulersource/v1alpha1/cloudschedulersource.go. A
-- request is the chain of the builder's calls; the child modules hold the clientset and the fakes.
pub mod Routes
pub mod Configs
pub mod Schemes
pub mod Fake
use csr.Base.{String, Bool, true, Option, none, some, List, [], ◌∷◌, Result, ok, err}
use csr.Api.{CloudSchedulerSource, CloudSchedulerSourceList}
use csr.Api.Meta.{nil_slice}

-- What the client uses of client-go. `Options` are list options without their field `Watch`.
pub record Rest : Type 1 where
  pub Error : Type 0
  pub GetOptions : Type 0
  pub Options : Type 0
  pub DeleteOptions : Type 0
  pub PatchType : Type 0
  pub Watcher : Type 0

-- `&v1alpha1.CloudSchedulerSource{}` and `&v1alpha1.CloudSchedulerSourceList{}`
abbrev pub zero_source : CloudSchedulerSource
zero_source = record {
  type_meta = record { kind = ""; api_version = "" };
  object_meta = record {
    name = "";
    namespace = "";
    uid = "";
    resource_version = "";
    deletion_timestamp = none;
    labels = [];
    annotations = [];
    owner_references = [];
    finalizers = nil_slice;
  };
  spec = record {
    service_account_name = "";
    google_cloud_project = "";
    location = "";
    schedule = "";
    time_zone = "";
    http_method = "";
    body = "";
    sink = none;
  };
  status = record { job = ""; sink_uri = "" };
}

abbrev pub zero_list : CloudSchedulerSourceList
zero_list = record {
  type_meta = record { kind = ""; api_version = "" };
  resource_version = "";
  items = nil_slice;
}

pub record ListOptions (R : Rest) : Type 0 where
  pub options : R.Options
  pub watch : Bool

pub data Verb (R : Rest) : Type 0 where
  get_verb : Verb R
  post : Verb R
  put : Verb R
  delete_verb : Verb R
  patch_verb : R.PatchType → Verb R

pub data Params (R : Rest) : Type 0 where
  get_params : R.GetOptions → Params R
  list_params : ListOptions R → Params R

pub data Body (R : Rest) : Type 0 where
  source_body : CloudSchedulerSource → Body R
  delete_body : R.DeleteOptions → Body R
  patch_body : String → Body R

-- One call of the builder `rest.Request`.
pub data Call (R : Rest) : Type 0 where
  namespace : String → Call R
  resource : String → Call R
  name : String → Call R
  sub_resource : List String → Call R
  versioned_params : Params R → Call R
  body : Body R → Call R

pub record Request (R : Rest) : Type 0 where
  pub verb : Verb R
  pub calls : List (Call R)

-- What the server's answer does to `result`, for `Do().Into(result)`; a result comes with an error
-- or without one.
pub record Server (R : Rest) : Type 0 where
  pub into_source : Request R → CloudSchedulerSource → CloudSchedulerSource × Option R.Error
  pub into_list : Request R → CloudSchedulerSourceList → CloudSchedulerSourceList × Option R.Error
  pub error_of : Request R → Option R.Error
  pub watch_of : Request R → Result R.Error R.Watcher

-- `cloudSchedulerSources`
pub record CloudSchedulerSources (R : Rest) : Type 0 where
  pub client : Server R
  pub ns : String

abbrev pub resource_name : String
resource_name = "cloudschedulersources"

-- The value of a method with the one request that it sends.
abbrev pub Sent : Rest → Type 0 → Type 0
Sent R A = A × Request R

module _ {R : Rest} where
  abbrev pub new_cloud_scheduler_sources : Server R → String → CloudSchedulerSources R
  new_cloud_scheduler_sources client ns = record { client = client; ns = ns }

  abbrev into : CloudSchedulerSources R → Request R → Sent R (CloudSchedulerSource × Option R.Error)
  into c request = (c.client.into_source request zero_source, request)

  unfoldable pub get :
      CloudSchedulerSources R
      → String
      → R.GetOptions
      → Sent R (CloudSchedulerSource × Option R.Error)
  get c n options = into c (record {
    verb = get_verb;
    calls =
        namespace c.ns
        ∷ resource resource_name
        ∷ name n
        ∷ versioned_params (get_params options)
        ∷ [];
  })

  unfoldable pub list :
      CloudSchedulerSources R → ListOptions R → Sent R (CloudSchedulerSourceList × Option R.Error)
  list c opts =
      let request : Request R = record {
        verb = get_verb;
        calls = namespace c.ns ∷ resource resource_name ∷ versioned_params (list_params opts) ∷ [];
      } in
      (c.client.into_list request zero_list, request)

  unfoldable pub watch : CloudSchedulerSources R → ListOptions R → Sent R (Result R.Error R.Watcher)
  watch c opts =
      let opts' = record opts { watch = true } in
      let request : Request R = record {
        verb = get_verb;
        calls = namespace c.ns ∷ resource resource_name ∷ versioned_params (list_params opts') ∷ [];
      } in
      (c.client.watch_of request, request)

  unfoldable pub create :
      CloudSchedulerSources R
      → CloudSchedulerSource
      → Sent R (CloudSchedulerSource × Option R.Error)
  create c source = into c (record {
    verb = post;
    calls = namespace c.ns ∷ resource resource_name ∷ body (source_body source) ∷ [];
  })

  unfoldable pub update :
      CloudSchedulerSources R
      → CloudSchedulerSource
      → Sent R (CloudSchedulerSource × Option R.Error)
  update c source = into c (record {
    verb = put;
    calls =
        namespace c.ns
        ∷ resource resource_name
        ∷ name source.object_meta.name
        ∷ body (source_body source)
        ∷ [];
  })

  unfoldable pub delete :
      CloudSchedulerSources R → String → R.DeleteOptions → Sent R (Option R.Error)
  delete c n options =
      let request : Request R = record {
        verb = delete_verb;
        calls = namespace c.ns ∷ resource resource_name ∷ name n ∷ body (delete_body options) ∷ [];
      } in
      (c.client.error_of request, request)

  unfoldable pub delete_collection :
      CloudSchedulerSources R → R.DeleteOptions → ListOptions R → Sent R (Option R.Error)
  delete_collection c options list_options =
      let request : Request R = record {
        verb = delete_verb;
        calls =
            namespace c.ns
            ∷ resource resource_name
            ∷ versioned_params (list_params list_options)
            ∷ body (delete_body options)
            ∷ [];
      } in
      (c.client.error_of request, request)

  unfoldable pub patch :
      CloudSchedulerSources R
      → String
      → R.PatchType
      → String
      → List String
      → Sent R (CloudSchedulerSource × Option R.Error)
  patch c n pt bytes subresources = into c (record {
    verb = patch_verb pt;
    calls =
        namespace c.ns
        ∷ resource resource_name
        ∷ sub_resource subresources
        ∷ name n
        ∷ body (patch_body bytes)
        ∷ [];
  })
