-- ===== src/Informers.antt =====
-- The shared informer factory: pkg/client/informers/externalversions/factory.go and generic.go.
-- An informer is what its constructor allocates; a map is an association list, in the order in
-- which a loop over it runs. The lock makes every method one step.
pub mod Shared
pub mod Starting
pub mod Running
pub mod Sources
use csr.Base.{
  String, ℕ, ◌==◌, Bool, not, ◌||◌, true, false, Option, none, some, List, [], ◌∷◌, Eq, contains,
  if◌then◌else◌,
}

-- What the factory uses of client-go. `Kind` is `reflect.Type`, `Heap` holds the informers.
pub record Machinery : Type 1 where
  pub Client : Type 0
  pub Tweak : Type 0
  pub Object : Type 0
  pub Kind : Type 0
  pub kind_eq : Eq Kind
  pub type_of : Object → Kind
  pub Informer : Type 0
  pub Heap : Type 0

module _ {ℓ} {K A : Type ℓ} ⦃e : Eq K⦄ where
  -- Go's read and write of a map.
  abbrev pub lookup : List (K × A) → K → Option A
  lookup [] k = none
  lookup ((key, a) ∷ m) k = if k == key then some a else lookup m k

  abbrev pub assign : List (K × A) → K → A → List (K × A)
  assign [] k a = (k, a) ∷ []
  assign ((key, b) ∷ m) k a = if k == key then (key, a) ∷ m else (key, b) ∷ assign m k a

abbrev pub or_else {ℓ} : {A : Type ℓ} → Option A → A → A
or_else none a = a
or_else (some b) a = b

abbrev pub namespace_all : String
namespace_all = ""

-- `startedInformers` keeps the kinds that are mapped to `true`; no other value is ever stored.
pub record SharedInformerFactory (M : Machinery) : Type 0 where
  pub client : M.Client
  pub namespace : String
  pub tweak_list_options : Option M.Tweak
  pub default_resync : ℕ
  pub custom_resync : List (M.Kind × ℕ)
  pub informers : List (M.Kind × M.Informer)
  pub started_informers : List M.Kind

abbrev pub NewInformerFunc : Machinery → Type 0
NewInformerFunc M = M.Client → ℕ → M.Heap → M.Informer × M.Heap

module _ (M : Machinery) where
  abbrev Factory : Type 0
  Factory = SharedInformerFactory M

  abbrev pub SharedInformerOption : Type 0
  SharedInformerOption = Factory → Factory

  -- The loop over the configuration, whose keys are objects.
  pub set_resyncs : List (M.Object × ℕ) → List (M.Kind × ℕ) → List (M.Kind × ℕ)
  set_resyncs [] resync = resync
  set_resyncs ((k, v) ∷ config) resync =
      set_resyncs config (assign ⦃e = M.kind_eq⦄ resync (M.type_of k) v)

  abbrev pub with_custom_resync_config : List (M.Object × ℕ) → SharedInformerOption
  with_custom_resync_config resync_config factory = record factory {
    custom_resync = set_resyncs resync_config factory.custom_resync;
  }

  abbrev pub with_tweak_list_options : M.Tweak → SharedInformerOption
  with_tweak_list_options tweak factory = record factory { tweak_list_options = some tweak }

  abbrev pub with_namespace : String → SharedInformerOption
  with_namespace namespace factory = record factory { namespace = namespace }

  apply_options : List SharedInformerOption → Factory → Factory
  apply_options [] factory = factory
  apply_options (opt ∷ options) factory = apply_options options (opt factory)

  unfoldable pub new_shared_informer_factory_with_options :
      M.Client → ℕ → List SharedInformerOption → Factory
  unfolding apply_options
  new_shared_informer_factory_with_options client default_resync options =
      apply_options options (record {
        client = client;
        namespace = namespace_all;
        tweak_list_options = none;
        default_resync = default_resync;
        custom_resync = [];
        informers = [];
        started_informers = [];
      })

  abbrev pub new_shared_informer_factory : M.Client → ℕ → Factory
  new_shared_informer_factory client default_resync =
      new_shared_informer_factory_with_options client default_resync []

  abbrev pub new_filtered_shared_informer_factory : M.Client → ℕ → String → M.Tweak → Factory
  new_filtered_shared_informer_factory client default_resync namespace tweak =
      new_shared_informer_factory_with_options client default_resync
        (with_namespace namespace ∷ with_tweak_list_options tweak ∷ [])

  abbrev pub is_started : List M.Kind → M.Kind → Bool
  is_started started kind = contains ⦃e = M.kind_eq⦄ started kind

  -- One turn of the loop in `Start`; the second list holds the informers run, the last one first.
  pub start_one :
      M.Kind
      → M.Informer
      → List M.Kind × List (M.Kind × M.Informer)
      → List M.Kind × List (M.Kind × M.Informer)
  start_one kind informer (started, run) =
      if not (is_started started kind)
      then (kind ∷ started, (kind, informer) ∷ run)
      else (started, run)

  start_all :
      List (M.Kind × M.Informer)
      → List M.Kind × List (M.Kind × M.Informer)
      → List M.Kind × List (M.Kind × M.Informer)
  unfolding start_one
  start_all [] s = s
  start_all ((kind, informer) ∷ informers) s = start_all informers (start_one kind informer s)

  -- `Start`: the factory after it, and the informers run before and by it.
  unfoldable pub start : Factory × List (M.Kind × M.Informer) → Factory × List (M.Kind × M.Informer)
  unfolding start_all
  start (f, run) =
      let (started, run') = start_all f.informers (f.started_informers, run) in
      (record f { started_informers = started }, run')

  -- `WaitForCacheSync`: the copy of the started informers, then the wait for each.
  started_of : List M.Kind → List (M.Kind × M.Informer) → List (M.Kind × M.Informer)
  started_of started [] = []
  started_of started ((kind, informer) ∷ informers) =
      let rest = started_of started informers in
      if is_started started kind then (kind, informer) ∷ rest else rest

  wait_for_all : (M.Informer → Bool) → List (M.Kind × M.Informer) → List (M.Kind × Bool)
  wait_for_all wait [] = []
  wait_for_all wait ((kind, informer) ∷ informers) =
      (kind, wait informer) ∷ wait_for_all wait informers

  unfoldable pub wait_for_cache_sync : (M.Informer → Bool) → Factory → List (M.Kind × Bool)
  unfolding started_of wait_for_all
  wait_for_cache_sync wait f = wait_for_all wait (started_of f.started_informers f.informers)

  abbrev pub resync_of : Factory → M.Kind → ℕ
  resync_of f kind = or_else (lookup ⦃e = M.kind_eq⦄ f.custom_resync kind) f.default_resync

  existing_or_made :
      Option M.Informer
      → M.Kind
      → NewInformerFunc M
      → Factory × M.Heap
      → M.Informer × (Factory × M.Heap)
  existing_or_made (some informer) kind new_func (f, heap) = (informer, (f, heap))
  existing_or_made none kind new_func (f, heap) =
      let (informer, heap') = new_func f.client (resync_of f kind) heap in
      (informer, (record f { informers = assign ⦃e = M.kind_eq⦄ f.informers kind informer }, heap'))

  unfoldable pub informer_for :
      M.Object → NewInformerFunc M → Factory × M.Heap → M.Informer × (Factory × M.Heap)
  unfolding existing_or_made
  informer_for obj new_func (f, heap) =
      let kind = M.type_of obj in
      existing_or_made (lookup ⦃e = M.kind_eq⦄ f.informers kind) kind new_func (f, heap)
