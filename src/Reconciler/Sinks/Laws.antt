-- ===== src/Reconciler/Sinks/Laws.antt =====
-- When a sink has a URI, and what it is.
use csr.Base.{
  String, ◌↔◌, ap, sym, ◌∙◌, ◌⊎◌, ◌≡◌, ◌≢◌, refl, true, none, some, ok, ◌∷◌, inl, inr, Result-cases,
  Bool-cases, arith, string_eq, Option, ◌>>=◌, String-discrete,
}
use csr.Api.Meta.{ObjectReference, GroupVersionResource}
use csr.Platform.{Vendor, Env, Run, History, fetched}
use csr.Platform.Jobs.{JobTable, jobs}
use csr.Reconciler.Sinks.{
  http_uri, get_sink_uri, create_resource_interface, deserialized, uri_of_address,
}

-- The resource of a reference.
abbrev pub resource_of : (V : Vendor) → ObjectReference → GroupVersionResource
resource_of V sink = V.kind_to_resource (V.group_version_kind sink)

-- The sink's object was fetched by this call, from the source's namespace, and has the address.
pub record Resolves {V : Vendor} (env : Env V) (sink : ObjectReference) (namespace : String)
    (h : History V) (host : String) : Type 0 where
  pub has_client : V.has_client (resource_of V sink) ≡ true
  pub object : V.Object
  pub answer : env.get_object h (resource_of V sink) namespace sink.name ≡ ok object
  pub address : V.from_unstructured object ≡ ok (some host)
  pub not_empty : host ≢ ""

module _ {V : Vendor} (env : Env V) (sink : ObjectReference) (namespace : String)
    (h : History V) where
  abbrev gvr : GroupVersionResource
  gvr = resource_of V sink

  -- A sink whose object has an address with a host name resolves to `http://host/`, by one call.
  pub get_sink_uri-of_Resolves :
      (host : String)
      → (r : Resolves env sink namespace h host)
      → get_sink_uri env (some sink) namespace h
        ≡ (ok (http_uri host), fetched gvr namespace sink.name (ok r.object) ∷ h)
  unfolding get_sink_uri create_resource_interface
  get_sink_uri-of_Resolves host r = rw (r.has_client, r.answer, r.address) (ground arith)

  -- What `GetSinkURI` does once it has the object.
  after_fetch : V.Object → Run V String
  unfolding deserialized uri_of_address
  after_fetch object = do t ← deserialized env (V.from_unstructured object); uri_of_address env t

  after_fetch-Resolves :
      (object : V.Object) (k : History V) {uri : String}
      → V.has_client gvr ≡ true
      → env.get_object h gvr namespace sink.name ≡ ok object
      → (after_fetch object k).0 ≡ ok uri
      → (host : String) × Resolves env sink namespace h host × (uri ≡ http_uri host)
  unfolding after_fetch
  after_fetch-Resolves object k client found = elim (Result-cases (V.from_unstructured object)) [
    | inr (e, p) ↦ rw p λ q. cc
    | inl (none, p) ↦ rw p λ q. cc
    | inl (some host, p) ↦ elim (String-discrete host "") [
      | yes blank ↦ rw (p, blank) (ground arith)
      | no named ↦ rw p λ q. (
        host,
        record {
          has_client = client;
          object = object;
          answer = found;
          address = p;
          not_empty = named;
        },
        ground arith,
      )
    ]
  ]

  -- Conversely, where `GetSinkURI` succeeds the sink resolves to a host, and the URI is `http://host/`.
  pub get_sink_uri-Resolves :
      {uri : String}
      → (get_sink_uri env (some sink) namespace h).0 ≡ ok uri
      → (host : String) × Resolves env sink namespace h host × (uri ≡ http_uri host)
  unfolding get_sink_uri create_resource_interface after_fetch
  get_sink_uri-Resolves = elim (Bool-cases (V.has_client gvr)) [
    | inr absent ↦ rw absent λ q. cc
    | inl client ↦ elim (Result-cases (env.get_object h gvr namespace sink.name)) [
      | inr (e, p) ↦ rw (client, p) λ q. cc
      | inl (object, p) ↦ rw (client, p) (after_fetch-Resolves object _ client p)
    ]
  ]

  -- `GetSinkURI` of a sink succeeds exactly where the sink's object, fetched by one call, has an
  -- address with a host name, and the URI is then `http://host/`.
  pub get_sink_uri-ok_iff :
      (uri : String)
      → ((get_sink_uri env (some sink) namespace h).0 ≡ ok uri)
        ↔ ((host : String) × Resolves env sink namespace h host × (uri ≡ http_uri host))
  get_sink_uri-ok_iff uri = (
    get_sink_uri-Resolves,
    λ x. ap (λ y. y.0) (get_sink_uri-of_Resolves x.0 x.1) ∙ ap ok (sym x.2),
  )

module _ {V : Vendor} (env : Env V) (initial : JobTable) where
  -- Resolving a sink touches no job.
  pub get_sink_uri-jobs :
      (sink : Option ObjectReference) (namespace : String) (h : History V)
      → jobs initial (get_sink_uri env sink namespace h).1 ≡ jobs initial h
  unfolding get_sink_uri
  get_sink_uri-jobs none namespace h = refl
  get_sink_uri-jobs (some sink) namespace h = ground arith

  -- Resolving a sink makes no call but the fetch of the sink.
  pub get_sink_uri-history :
      (sink : ObjectReference) (namespace : String) (h : History V)
      → let answer = env.get_object h (resource_of V sink) namespace sink.name in
        ((get_sink_uri env (some sink) namespace h).1 ≡ h)
        ⊎ ((get_sink_uri env (some sink) namespace h).1
            ≡ fetched (resource_of V sink) namespace sink.name answer ∷ h)
  unfolding get_sink_uri
  get_sink_uri-history sink namespace h = ground arith
