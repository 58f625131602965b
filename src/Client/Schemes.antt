-- ===== src/Client/Schemes.antt =====
-- The registration of the resource's types with a scheme: `SchemeBuilder` and `addKnownTypes` of
-- pkg/apis/cloudschedulersource/v1alpha1/register.go, and the scheme of the clientset,
-- pkg/client/clientset/versioned/scheme/register.go.
pub mod Laws
use csr.Base.{String, Option, none, List, [], ◌∷◌, Result, ok, Exec, pure, ◌>>=◌, ◌>>◌}
use csr.Api.{scheme_group_version}
use csr.Api.Meta.{GroupVersion, GroupVersionKind}

-- The types that the code registers.
pub data KnownType : Type 0 where
  source_type : KnownType
  list_type : KnownType

-- What the code uses of k8s.io/apimachinery. A call may panic, and changes the scheme behind its
-- pointer; an error is the value that the call returns.
pub record Registry : Type 1 where
  pub Scheme : Type 0
  pub Error : Type 0
  pub Panic : Type 0
  pub Builder : Type 0
  pub CodecFactory : Type 0
  pub ParameterCodec : Type 0
  pub Decoder : Type 0
  pub new_scheme : Scheme
  pub add_known_types : GroupVersion → List KnownType → Exec Panic Scheme (Unit {0})
  -- `metav1.AddToGroupVersion`
  pub add_to_group_version : GroupVersion → Exec Panic Scheme (Unit {0})
  pub new_scheme_builder : List (Exec Panic Scheme (Option Error)) → Builder
  -- `AddToScheme` of a builder
  pub build : Builder → Exec Panic Scheme (Option Error)
  pub new_codec_factory : Scheme → CodecFactory
  pub new_parameter_codec : Scheme → ParameterCodec
  pub universal_decoder : CodecFactory → Decoder

-- The variables of a package with a scheme.
pub record SchemeVars (S : Registry) : Type 0 where
  pub scheme : S.Scheme
  pub codecs : S.CodecFactory
  pub parameter_codec : S.ParameterCodec

module _ (S : Registry) where
  abbrev pub Registering : Type 0 → Type 0
  Registering A = Exec S.Panic S.Scheme A

  unfoldable pub add_known_types : Registering (Option S.Error)
  add_known_types = do
    S.add_known_types scheme_group_version (source_type ∷ list_type ∷ [])
    S.add_to_group_version scheme_group_version
    pure none

  abbrev pub scheme_builder : S.Builder
  scheme_builder = S.new_scheme_builder (add_known_types ∷ [])

  -- `AddToScheme` of the types' package
  abbrev pub add_types_to_scheme : Registering (Option S.Error)
  add_types_to_scheme = S.build scheme_builder

  -- `AddToScheme` of the clientset, which drops the error
  unfoldable pub add_to_scheme : Registering (Unit {0})
  add_to_scheme = do ignored ← add_types_to_scheme; pure tt

  -- `init`
  unfoldable pub init : Registering (Unit {0})
  unfolding add_to_scheme
  init = do S.add_to_group_version (record { group = ""; version = "v1" }); add_to_scheme

  -- The package's variables, once `init` has filled the scheme that they all share.
  abbrev pub vars_of : Result S.Panic (Unit {0}) × S.Scheme → Result S.Panic (SchemeVars S)
  vars_of (ok _, s) = ok (record {
    scheme = s;
    codecs = S.new_codec_factory s;
    parameter_codec = S.new_parameter_codec s;
  })
  vars_of (Result.err panic, s) = Result.err panic

  unfoldable pub scheme_vars : Result S.Panic (SchemeVars S)
  unfolding init
  scheme_vars = vars_of (init S.new_scheme)
