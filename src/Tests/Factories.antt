-- ===== src/Tests/Factories.antt =====
-- The informer factory and the controller's start at work.
use csr.Base.{err, String, ℕ, suc, ◌≡◌, refl, true, some, [], ok, String-discrete, ◌<>◌}
use csr.Api.Meta.{GroupResource}
use csr.Commands.{FlagParser}
use csr.Commands.Controller
use csr.Commands.Controller.{Setup, World}
use csr.Commands.Controller.Order.{StartRun, main-StartRun}
use csr.Informers.{
  Machinery, SharedInformerFactory, NewInformerFunc, informer_for, start,
  new_shared_informer_factory, new_shared_informer_factory_with_options,
}
use csr.Informers.Starting.{made, asked, launched, IsUnique, Used-IsUnique}
use csr.Informers.Sources.{Caching}

-- Informers are numbered as they are made.
abbrev pub numbered : Machinery
numbered = record {
  Client = String;
  Tweak = String;
  Object = String;
  Kind = String;
  kind_eq = record { dec = String-discrete };
  type_of = λ obj. obj;
  Informer = ℕ;
  Heap = ℕ;
}

abbrev make : NewInformerFunc numbered
make client resync heap = (heap, suc heap)

abbrev pub new_factory : SharedInformerFactory numbered
new_factory = new_shared_informer_factory numbered "client" 30

abbrev asked_once : SharedInformerFactory numbered
asked_once = (informer_for numbered "source" make (new_factory, 5)).1.0

fresh_factory : new_factory.started_informers ≡ []
unfolding new_shared_informer_factory_with_options
fresh_factory = refl

Used-IsUnique_example : IsUnique numbered (start numbered (start numbered (asked_once, []))).1
Used-IsUnique_example =
    Used-IsUnique numbered new_factory 5
      (
        (start numbered (start numbered (asked_once, []))).0,
        (
          (start numbered (start numbered (asked_once, []))).1,
          (informer_for numbered "source" make (new_factory, 5)).1.1,
        ),
      )
      fresh_factory (launched _ _ _ (launched _ _ _ (asked "source" make new_factory [] 5 made)))

abbrev pub caching : Caching numbered
caching = record {
  ListOptions = String;
  Listing = String;
  Watching = String;
  Indexers = ℕ;
  Lister = ℕ;
  tweaked = λ tweak options. tweak <> options;
  list = λ client namespace options. namespace <> options;
  watch = λ client namespace options. namespace <> options;
  empty_source = "source";
  namespace_indexers = 1;
  new_shared_index_informer = λ calls obj resync indexers heap. (heap, suc heap);
  new_lister = λ i. i;
  GenericLister = ℕ × GroupResource;
  new_generic_lister = λ i r. (i, r);
  resource_text = λ r. r.resource;
}

abbrev pub setup : Setup
setup = record {
  Error = String;
  Config = String × String;
  error_text = λ e. e;
  index_text = λ i. "0";
}

abbrev working : World setup
working = record {
  build_config_from_flags = λ h master_url kubeconfig. ok (master_url, kubeconfig);
  new_for_config = λ h kind cfg. ok tt;
  new_stats_reporter = λ h name. ok tt;
  wait_for_cache_sync = λ h i. true;
  awaited = λ h. err "shut down";
}

-- Every flag keeps its own name as its value.
abbrev named_flags : FlagParser
named_flags flags args = some (λ name. name)

main-StartRun_example :
    StartRun {S = setup}
      (named_flags Controller.flags [])
      (Controller.main working named_flags [] [])
main-StartRun_example = main-StartRun working named_flags []
