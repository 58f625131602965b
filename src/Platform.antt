-- ===== src/Platform.antt =====
-- What the program stands on and does not implement: the vendored libraries that only compute
-- (`Vendor`), the services that answer its calls (`Env`), and the calls as methods that keep a
-- history. The children hold the laws that some theorems assume.
pub mod Sets
pub mod Semantic
pub mod Jobs
use csr.Base.{String, ℕ, Bool, Option, List, [], ◌∷◌, Result, Exec, ok}
use csr.Api.{CloudSchedulerSource, CloudSchedulerSourceStatus}
use csr.Api.Meta.{
  ObjectMeta, ObjectReference, OwnerReference, GroupVersionKind, GroupVersionResource,
  GroupResource,
}
use csr.Api.Job.{Job}
use csr.Api.Serving.{Service}

pub record Vendor : Type 1 where
  -- Go's `error`, `fmt.Errorf` with the text that it is given, and `err.Error()`
  pub Error : Type 0
  pub errorf : String → Error
  pub error_text : Error → String
  -- k8s.io/apimachinery/pkg/api/errors
  pub is_not_found : Error → Bool
  pub new_not_found : GroupResource → String → Error
  -- `status.FromError` with the status's code, and `codes.NotFound`
  pub from_error : Error → Option ℕ
  pub not_found : ℕ
  -- k8s.io/client-go/tools/cache: namespace and name of a key
  pub split_meta_namespace_key : String → Result Error (String × String)
  pub status_equal : CloudSchedulerSourceStatus → CloudSchedulerSourceStatus → Bool
  pub meta_equal : ObjectMeta → ObjectMeta → Bool
  -- k8s.io/apimachinery/pkg/util/sets
  pub StringSet : Type 0
  pub new_string : List String → StringSet
  pub insert : StringSet → String → StringSet
  pub delete : StringSet → String → StringSet
  pub list : StringSet → List String
  -- `schedulerpb.HttpMethod_value`, `schedulerpb.HttpMethod_POST`, and `%+v` of a job
  pub http_method_value : String → Option ℕ
  pub http_method_post : ℕ
  pub job_text : Job → String
  -- `ObjectReference.GroupVersionKind`, `duckapis.KindToResource`, whether `dc.Resource` gives a
  -- client, and `duck.FromUnstructured` into an `AddressableType`, of which the address's host name
  -- is kept
  pub Object : Type 0
  pub group_version_kind : ObjectReference → GroupVersionKind
  pub kind_to_resource : GroupVersionKind → GroupVersionResource
  pub has_client : GroupVersionResource → Bool
  pub from_unstructured : Object → Result Error (Option String)
  -- `kmeta.NewControllerRef`, of the metadata and the kind of the owner
  pub new_controller_ref : ObjectMeta → GroupVersionKind → OwnerReference

-- A call that leaves the process, with its answer. `handled` is `runtime.HandleError`.
pub data Event (V : Vendor) : Type 0 where
  handled : String → Event V
  looked_up : String → Result V.Error (Option CloudSchedulerSource) → Event V
  fetched : GroupVersionResource → String → String → Result V.Error V.Object → Event V
  got_service : String → String → Result V.Error Service → Event V
  created_service : String → Service → Result V.Error Service → Event V
  dialled : Result V.Error (Unit {0}) → Event V
  got_job : String → Result V.Error Job → Event V
  created_job : String → Job → Result V.Error Job → Event V
  updated_job : Job → Result V.Error Job → Event V
  deleted_job : String → Result V.Error (Unit {0}) → Event V
  updated_source : String → CloudSchedulerSource → Result V.Error CloudSchedulerSource → Event V

-- The last call comes first.
abbrev pub History : Vendor → Type 0
History V = List (Event V)

-- The services: what each call is answered, which may depend on all that happened before, on other
-- clients and on chance, and so is any function of the history.
pub record Env (V : Vendor) : Type 0 where
  pub get_by_key : History V → String → Result V.Error (Option CloudSchedulerSource)
  pub get_object : History V → GroupVersionResource → String → String → Result V.Error V.Object
  pub get_service : History V → String → String → Result V.Error Service
  pub create_service : History V → String → Service → Result V.Error Service
  pub new_scheduler_client : History V → Result V.Error (Unit {0})
  pub get_job : History V → String → Result V.Error Job
  pub create_job : History V → String → Job → Result V.Error Job
  pub update_job : History V → Job → Result V.Error Job
  pub delete_job : History V → String → Result V.Error (Unit {0})
  pub update_source :
      History V → String → CloudSchedulerSource → Result V.Error CloudSchedulerSource

abbrev pub Run : Vendor → Type 0 → Type 0
Run V A = Exec V.Error (History V) A

abbrev record_event : {V : Vendor} {A : Type 0} → Result V.Error A → Event V → Run V A
record_event r e h = (r, e ∷ h)

-- `runtime.HandleError`
abbrev pub handle_error : {V : Vendor} → String → Run V (Unit {0})
handle_error message h = (ok tt, handled message ∷ h)

module _ {V : Vendor} (env : Env V) where
  -- The informer's `GetByKey`: nothing, or the object.
  abbrev pub get_by_key : String → Run V (Option CloudSchedulerSource)
  get_by_key key h = let r = env.get_by_key h key in record_event r (looked_up key r) h

  -- `Get` of the dynamic client of a resource and a namespace.
  abbrev pub get_object : GroupVersionResource → String → String → Run V V.Object
  get_object gvr ns name h =
      let r = env.get_object h gvr ns name in record_event r (fetched gvr ns name r) h

  abbrev pub get_service : String → String → Run V Service
  get_service ns name h =
      let r = env.get_service h ns name in record_event r (got_service ns name r) h

  abbrev pub create_service : String → Service → Run V Service
  create_service ns service h =
      let r = env.create_service h ns service in record_event r (created_service ns service r) h

  -- `scheduler.NewCloudSchedulerClient`
  abbrev pub new_scheduler_client : Run V (Unit {0})
  new_scheduler_client h = let r = env.new_scheduler_client h in record_event r (dialled r) h

  abbrev pub get_job : String → Run V Job
  get_job name h = let r = env.get_job h name in record_event r (got_job name r) h

  abbrev pub create_job : String → Job → Run V Job
  create_job parent job h =
      let r = env.create_job h parent job in record_event r (created_job parent job r) h

  abbrev pub update_job : Job → Run V Job
  update_job job h = let r = env.update_job h job in record_event r (updated_job job r) h

  abbrev pub delete_job : String → Run V (Unit {0})
  delete_job name h = let r = env.delete_job h name in record_event r (deleted_job name r) h

  -- `Update` of the clientset for our own resource.
  abbrev pub update_source : String → CloudSchedulerSource → Run V CloudSchedulerSource
  update_source ns source h =
      let r = env.update_source h ns source in record_event r (updated_source ns source r) h
