-- ===== src/Informers/Sources.antt =====
-- The informer of the resource: pkg/client/informers/externalversions/cloudschedulersource (the
-- group, interface.go, and its version, v1alpha1) and `ForResource` of generic.go.
use csr.Base.{
  String, ℕ, ◌<>◌, ◌≡◌, ◌≢◌, refl, Option, none, some, Result, ok, err, String-discrete, arith,
}
use csr.Api.{scheme_group_version}
use csr.Api.Meta.{GroupVersionResource, GroupResource, with_resource, group_resource}
use csr.Informers.{
  Machinery, SharedInformerFactory, NewInformerFunc, informer_for,
  new_filtered_shared_informer_factory, new_shared_informer_factory_with_options, apply_options,
  existing_or_made,
}
use csr.Informers.Shared.{informer_for-shared}

-- What the informer's constructor uses: the typed client's calls, with a pointer's mutation of the
-- options as a function, and client-go's informers and listers.
pub record Caching (M : Machinery) : Type 1 where
  pub ListOptions : Type 0
  pub Listing : Type 0
  pub Watching : Type 0
  pub Indexers : Type 0
  pub Lister : Type 0
  pub GenericLister : Type 0
  pub tweaked : M.Tweak → ListOptions → ListOptions
  -- `client.SourcesV1alpha1().CloudSchedulerSources(namespace)`, its `List` and `Watch`
  pub list : M.Client → String → ListOptions → Listing
  pub watch : M.Client → String → ListOptions → Watching
  -- `&CloudSchedulerSource{}`
  pub empty_source : M.Object
  -- `cache.Indexers{cache.NamespaceIndex: cache.MetaNamespaceIndexFunc}`
  pub namespace_indexers : Indexers
  pub new_shared_index_informer :
      (ListOptions → Listing) × (ListOptions → Watching)
      → M.Object
      → ℕ
      → Indexers
      → M.Heap
      → M.Informer × M.Heap
  -- `NewCloudSchedulerSourceLister` of the informer's indexer
  pub new_lister : M.Informer → Lister
  -- `cache.NewGenericLister` of the informer's indexer
  pub new_generic_lister : M.Informer → GroupResource → GenericLister
  pub resource_text : GroupVersionResource → String

module _ (M : Machinery) where
  -- `genericInformer`
  pub record GenericInformer : Type 0 where
    pub informer : M.Informer
    pub resource : GroupResource

  -- The three structures, of the group, the version and the resource, carry the same fields.
  pub record Access : Type 0 where
    pub namespace : String
    pub tweak_list_options : Option M.Tweak

  abbrev pub sources : SharedInformerFactory M → Access
  sources f = record { namespace = f.namespace; tweak_list_options = f.tweak_list_options }

  abbrev pub v1alpha1 : Access → Access
  v1alpha1 g = record { namespace = g.namespace; tweak_list_options = g.tweak_list_options }

  abbrev pub cloud_scheduler_sources : Access → Access
  cloud_scheduler_sources v = record {
    namespace = v.namespace;
    tweak_list_options = v.tweak_list_options;
  }

module _ {M : Machinery} (C : Caching M) where
  abbrev pub tweaked_options : Option M.Tweak → C.ListOptions → C.ListOptions
  tweaked_options none options = options
  tweaked_options (some tweak) options = C.tweaked tweak options

  abbrev pub new_filtered_cloud_scheduler_source_informer :
      M.Client → String → ℕ → C.Indexers → Option M.Tweak → M.Heap → M.Informer × M.Heap
  new_filtered_cloud_scheduler_source_informer client namespace resync_period indexers tweak =
      C.new_shared_index_informer
        (
          (λ options. C.list client namespace (tweaked_options tweak options)),
          (λ options. C.watch client namespace (tweaked_options tweak options)),
        )
        C.empty_source resync_period indexers

  abbrev pub new_cloud_scheduler_source_informer :
      M.Client → String → ℕ → C.Indexers → M.Heap → M.Informer × M.Heap
  new_cloud_scheduler_source_informer client namespace resync_period indexers =
      new_filtered_cloud_scheduler_source_informer client namespace resync_period indexers none

  abbrev pub default_informer : Access M → NewInformerFunc M
  default_informer f client resync_period =
      new_filtered_cloud_scheduler_source_informer client f.namespace resync_period
        C.namespace_indexers f.tweak_list_options

  abbrev pub Held : Type 0
  Held = SharedInformerFactory M × M.Heap

  -- `Informer` of the resource's access; the factory that it holds is the state.
  abbrev pub informer : Access M → Held → M.Informer × Held
  informer f s = informer_for M C.empty_source (default_informer f) s

  abbrev pub lister : Access M → Held → C.Lister × Held
  lister f s = let (i, s') = informer f s in (C.new_lister i, s')

  abbrev pub resource_access : SharedInformerFactory M → Access M
  resource_access f = cloud_scheduler_sources M (v1alpha1 M (sources M f))

  abbrev pub source_resource : GroupVersionResource
  source_resource = with_resource scheme_group_version "cloudschedulersources"

  pub GroupVersionResource-discrete : Discrete GroupVersionResource
  GroupVersionResource-discrete = hlevel String-discrete

  -- `Lister` of the generic informer
  abbrev pub generic_lister : GenericInformer M → C.GenericLister
  generic_lister f = C.new_generic_lister f.informer f.resource

  unfoldable pub for_resource :
      GroupVersionResource → Held → Result String (GenericInformer M) × Held
  for_resource resource (f, heap) = elim (GroupVersionResource-discrete resource source_resource) [
    | yes _ ↦
        (let (i, s) = informer (resource_access f) (f, heap) in
          (ok (record { informer = i; resource = group_resource resource }), s))
    | no _ ↦ (err ("no informer found for " <> C.resource_text resource), (f, heap))
  ]

  for_resource-of_source :
      (s : Held)
      → for_resource source_resource s ≡ (
        ok (record {
          informer = (informer (resource_access s.0) s).0;
          resource = group_resource source_resource;
        }),
        (informer (resource_access s.0) s).1,
      )
  unfolding for_resource
  for_resource-of_source (f, heap) = ground arith

  -- Generic access to the resource gives an informer, and typed access then gives the same one and
  -- allocates nothing more.
  for_resource-shared :
      (s : Held)
      → ((for_resource source_resource s).0
          ≡ ok (record {
            informer = (informer (resource_access s.0) s).0;
            resource = group_resource source_resource;
          }))
        × (informer (resource_access s.0) (for_resource source_resource s).1
            ≡ ((informer (resource_access s.0) s).0, (for_resource source_resource s).1))
  for_resource-shared s = rw (for_resource-of_source s) (
    refl,
    informer_for-shared M C.empty_source C.empty_source (default_informer (resource_access s.0))
        (default_informer (resource_access s.0)) s refl,
  )

  -- Any other resource has no informer, and none is made.
  pub for_resource-of_other :
      (resource : GroupVersionResource) (s : Held)
      → resource ≢ source_resource
      → for_resource resource s ≡ (err ("no informer found for " <> C.resource_text resource), s)
  unfolding for_resource
  for_resource-of_other resource (f, heap) differ = ground arith

  -- The first informer of a filtered factory lists and watches the sources of the factory's
  -- namespace alone, with its tweak applied to the options, and resyncs at the factory's period.
  pub informer-of_filtered :
      (client : M.Client) (resync : ℕ) (namespace : String) (tweak : M.Tweak) (heap : M.Heap)
      → (informer
          (resource_access (new_filtered_shared_informer_factory M client resync namespace tweak))
          (new_filtered_shared_informer_factory M client resync namespace tweak, heap)).0
        ≡ (C.new_shared_index_informer
            (
              (λ options. C.list client namespace (C.tweaked tweak options)),
              (λ options. C.watch client namespace (C.tweaked tweak options)),
            )
            C.empty_source
            resync
            C.namespace_indexers
            heap).0
  unfolding new_shared_informer_factory_with_options apply_options informer_for existing_or_made
  informer-of_filtered client resync namespace tweak heap = refl
