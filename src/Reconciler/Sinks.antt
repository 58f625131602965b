-- ===== src/Reconciler/Sinks.antt =====
-- pkg/reconciler/cloudschedulersource/sinks.go: the URI of the sink that a source refers to.
pub mod Laws
use csr.Base.{String, ◌<>◌, Option, none, some, Result, ok, err, if◌then◌else◌, ◌==◌, string_eq}
use csr.Base.{pure, fail, ◌>>=◌}
use csr.Api.Meta.{ObjectReference, GroupVersionResource}
use csr.Platform.{Vendor, Env, Run, get_object}

-- `http://host/`
abbrev pub http_uri : String → String
http_uri host = "http://" <> (host <> "/")

module _ {V : Vendor} (env : Env V) where
  -- The client of the resource of the reference, in the namespace: its arguments.
  unfoldable pub create_resource_interface :
      ObjectReference → String → Run V (GroupVersionResource × String)
  create_resource_interface ref namespace =
      let gvr = V.kind_to_resource (V.group_version_kind ref) in
      if V.has_client gvr
      then pure (gvr, namespace)
      else fail (V.errorf "failed to create dynamic client resource")

  unfoldable pub fetch_object_reference : ObjectReference → String → Run V V.Object
  unfolding create_resource_interface
  fetch_object_reference ref namespace = do
    (gvr, ns) ← create_resource_interface ref namespace
    get_object env gvr ns ref.name

  deserialized : Result V.Error (Option String) → Run V (Option String)
  deserialized (ok t) = pure t
  deserialized (err e) = fail (V.errorf ("failed to deserialize sink: " <> V.error_text e))

  uri_of_address : Option String → Run V String
  uri_of_address none = fail (V.errorf "sink does not contain address")
  uri_of_address (some hostname) =
      if hostname == ""
      then fail (V.errorf "sink contains an empty hostname")
      else pure (http_uri hostname)

  unfoldable pub get_sink_uri : Option ObjectReference → String → Run V String
  unfolding fetch_object_reference deserialized uri_of_address
  get_sink_uri none namespace = fail (V.errorf "sink ref is nil")
  get_sink_uri (some sink) namespace = do
    obj ← fetch_object_reference sink namespace
    t ← deserialized (V.from_unstructured obj)
    uri_of_address t
