-- ===== src/Client/Configs.antt =====
-- The clients made of a configuration: NewForConfig and its defaults, of
-- pkg/client/clientset/versioned/typed/cloudschedulersource/v1alpha1/cloudschedulersource_client.go,
-- and the clientset over it, of pkg/client/clientset/versioned/clientset.go.
pub mod Laws
use csr.Base.{
  String, ℕ, Bool, ◌&&◌, true, false, ◌==◌, string_eq, Option, none, some, Result, ok, err, Exec,
  pure, fail, ◌>>=◌, if◌then◌else◌,
}
use csr.Api.{scheme_group_version}
use csr.Api.Meta.{GroupVersion}

-- What the constructors use of client-go. `Heap` holds the rate limiters, which have an identity.
pub record Transport : Type 1 where
  pub Error : Type 0
  pub Serializer : Type 0
  pub Limiter : Type 0
  pub Qps : Type 0
  pub Rest : Type 0
  pub RestClient : Type 0
  pub DiscoveryClient : Type 0
  pub Heap : Type 0
  -- `serializer.DirectCodecFactory{CodecFactory: scheme.Codecs}`
  pub direct_codecs : Serializer
  pub default_kubernetes_user_agent : String
  -- `QPS > 0`, of a floating-point number
  pub is_positive : Qps → Bool
  pub new_token_bucket_rate_limiter : Qps → ℕ → Heap → Limiter × Heap

-- `rest.Config`; `rest` is its other fields.
pub record Config (T : Transport) : Type 0 where
  pub group_version : Option GroupVersion
  pub api_path : String
  pub negotiated_serializer : Option T.Serializer
  pub user_agent : String
  pub rate_limiter : Option T.Limiter
  pub qps : T.Qps
  pub burst : ℕ
  pub rest : T.Rest

-- `panic(err)`, which is no returned error
pub data Panic (T : Transport) : Type 0 where
  panicked : T.Error → Panic T

-- The constructors of client-go, which may refuse a configuration, and may allocate.
pub record Makers (T : Transport) : Type 0 where
  pub rest_client_for : Config T → T.Heap → Result T.Error T.RestClient × T.Heap
  pub new_discovery_client_for_config :
      Config T → T.Heap → Result T.Error T.DiscoveryClient × T.Heap
  pub new_discovery_client_for_config_or_die :
      Config T → T.Heap → Result (Panic T) T.DiscoveryClient × T.Heap
  -- `discovery.NewDiscoveryClient`
  pub new_discovery_client : T.RestClient → T.DiscoveryClient

pub record SourcesV1alpha1Client (T : Transport) : Type 0 where
  pub rest_client : T.RestClient

pub record Clientset (T : Transport) : Type 0 where
  pub discovery_client : T.DiscoveryClient
  pub sources_v1alpha1 : SourcesV1alpha1Client T

abbrev pub panicking : {T : Transport} {A : Type 0} → Result T.Error A → Result (Panic T) A
panicking (ok a) = ok a
panicking (err e) = err (panicked e)

abbrev pub is_nil : {A : Type 0} → Option A → Bool
is_nil none = true
is_nil (some _) = false

module _ {T : Transport} where
  abbrev pub set_config_defaults : Config T → Config T
  set_config_defaults config = record config {
    group_version = some scheme_group_version;
    api_path = "/apis";
    negotiated_serializer = some T.direct_codecs;
    user_agent =
        if config.user_agent == "" then T.default_kubernetes_user_agent else config.user_agent;
  }

  -- Whether the clientset adds a limiter.
  abbrev pub needs_limiter : Config T → Bool
  needs_limiter c = is_nil c.rate_limiter && T.is_positive c.qps

  -- The copy of the clientset's configuration, with a limiter for both clients where the caller
  -- wants one and has none.
  pub with_limiter : Config T → T.Heap → Config T × T.Heap
  with_limiter c heap =
      if needs_limiter c
      then (let (limiter, heap') = T.new_token_bucket_rate_limiter c.qps c.burst heap in
          (record c { rate_limiter = some limiter }, heap'))
      else (c, heap)

module _ {T : Transport} (mk : Makers T) where
  abbrev Making : Type 0 → Type 0
  Making A = Exec T.Error T.Heap A

  -- `NewForConfig` of the group's version
  unfoldable pub new_sources_for_config : Config T → Making (SourcesV1alpha1Client T)
  new_sources_for_config c = do
    client ← mk.rest_client_for (set_config_defaults c)
    pure (record { rest_client = client })

  abbrev pub new_sources : T.RestClient → SourcesV1alpha1Client T
  new_sources c = record { rest_client = c }

  make_both : Config T → Making (Clientset T)
  make_both c = do
    sources ← new_sources_for_config c
    discovery ← mk.new_discovery_client_for_config c
    pure (record { discovery_client = discovery; sources_v1alpha1 = sources })

  -- `NewForConfig` of the clientset
  unfoldable pub new_for_config : Config T → Making (Clientset T)
  unfolding make_both with_limiter
  new_for_config c heap = let (copy, heap') = with_limiter c heap in make_both copy heap'

  abbrev Panicking : Type 0 → Type 0
  Panicking A = Exec (Panic T) T.Heap A

  -- `NewForConfigOrDie` of the group's version
  unfoldable pub new_sources_for_config_or_die : Config T → Panicking (SourcesV1alpha1Client T)
  new_sources_for_config_or_die c heap =
      let (r, heap') = new_sources_for_config c heap in (panicking r, heap')

  -- `NewForConfigOrDie` of the clientset: each client's own `OrDie`, of the configuration as it is
  unfoldable pub new_for_config_or_die : Config T → Panicking (Clientset T)
  unfolding new_sources_for_config_or_die
  new_for_config_or_die c = do
    sources ← new_sources_for_config_or_die c
    discovery ← mk.new_discovery_client_for_config_or_die c
    pure (record { discovery_client = discovery; sources_v1alpha1 = sources })

  -- `New`
  abbrev pub new : T.RestClient → Clientset T
  new c = record { discovery_client = mk.new_discovery_client c; sources_v1alpha1 = new_sources c }

-- The accessors, of which two look whether their receiver is nil.
module _ {T : Transport} where
  abbrev pub rest_client : Option (SourcesV1alpha1Client T) → Option T.RestClient
  rest_client none = none
  rest_client (some c) = some c.rest_client

  abbrev pub discovery : Option (Clientset T) → Option T.DiscoveryClient
  discovery none = none
  discovery (some c) = some c.discovery_client

  abbrev pub sources_v1alpha1 : Clientset T → SourcesV1alpha1Client T
  sources_v1alpha1 c = c.sources_v1alpha1

  abbrev pub sources : Clientset T → SourcesV1alpha1Client T
  sources c = c.sources_v1alpha1
