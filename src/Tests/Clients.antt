-- ===== src/Tests/Clients.antt =====
-- The typed client, the fake client and the clientset at work.
use csr.Base.{String, ℕ, suc, Bool, true, false, ◌≡◌, refl, none, some, [], ◌∷◌, ok, err, inl}
use csr.Api.{CloudSchedulerSourceList}
use csr.Api.Meta.{slice, items_of}
use csr.Client.{Rest, ListOptions, Server, CloudSchedulerSources, resource_name, zero_list}
use csr.Client.Routes.{updating, route, perform, route-perform}
use csr.Client.Configs.{
  Transport, Config, Makers, with_limiter, new_for_config, new_for_config_or_die, panicked,
  panicking,
}
use csr.Client.Configs.Laws.{LimitRun, BothRun, new_for_config-BothRun, new_for_config_or_die-eq}
use csr.Client.Fake
use csr.Client.Fake.{Faking, FakeCloudSchedulerSources, Reply, replied, list_object, label_of}
use csr.Client.Fake.Laws.{selected, list-selected}
use csr.Tests.Runs.{new_source}

abbrev pub rest : Rest
rest = record {
  Error = String;
  GetOptions = Unit {0};
  Options = String;
  DeleteOptions = Unit {0};
  PatchType = String;
  Watcher = String;
}

abbrev server : Server rest
server = record {
  into_source = λ request source. (source, none);
  into_list = λ request l. (l, none);
  error_of = λ request. none;
  watch_of = λ request. ok "watch";
}

abbrev typed : CloudSchedulerSources rest
typed = record { client = server; ns = "default" }

route-perform_example :
    route (perform typed (updating "clock" new_source))
    ≡ ("default", (resource_name, some (updating "clock" new_source)))
route-perform_example = route-perform typed (updating "clock" new_source) refl

-- A fake whose tracker holds two sources, and whose selectors are labels.
abbrev held_list : CloudSchedulerSourceList
held_list = record zero_list {
  resource_version = "9";
  items = slice (new_source ∷ new_source ∷ []);
}

abbrev faking : Faking rest
faking = record {
  Other = Unit {0};
  Selector = Bool;
  everything = true;
  matches = λ selector labels. selector;
  extract_label = λ opts. none;
  invokes = λ action default. (some (list_object held_list), none);
  invokes_watch = λ action. ok "watch";
}

abbrev fake : FakeCloudSchedulerSources faking
fake = record { ns = "default" }

abbrev all_options : ListOptions rest
all_options = record { options = ""; watch = false }

list-selected_example :
    (result : CloudSchedulerSourceList) × ((Fake.list faking fake all_options).0
      ≡ replied (some result) none)
    × (items_of result.items
        ≡ selected faking (label_of faking none) (new_source ∷ new_source ∷ []))
    × (result.resource_version ≡ "")
list-selected_example = list-selected faking fake all_options held_list none refl

-- Limiters are numbered, and the discovery client is refused.
abbrev transport : Transport
transport = record {
  Error = String;
  Serializer = String;
  Limiter = ℕ;
  Qps = Bool;
  Rest = Unit {0};
  RestClient = String;
  DiscoveryClient = String;
  Heap = ℕ;
  direct_codecs = "codecs";
  default_kubernetes_user_agent = "agent";
  is_positive = λ qps. qps;
  new_token_bucket_rate_limiter = λ qps burst heap. (heap, suc heap);
}

abbrev makers : Makers transport
makers = record {
  rest_client_for = λ c heap. (ok c.api_path, heap);
  new_discovery_client_for_config = λ c heap. (err "refused", heap);
  new_discovery_client_for_config_or_die = λ c heap. (err (panicked "refused"), heap);
  new_discovery_client = λ client. client;
}

abbrev config : Config transport
config = record {
  group_version = none;
  api_path = "";
  negotiated_serializer = none;
  user_agent = "";
  rate_limiter = none;
  qps = true;
  burst = 5;
  rest = tt;
}

new_for_config-BothRun_example :
    LimitRun config 3 (with_limiter config 3)
    × BothRun makers
        (with_limiter config 3).0
        (with_limiter config 3).1
        (new_for_config makers config 3)
new_for_config-BothRun_example = new_for_config-BothRun makers config 3

abbrev unlimited : Config transport
unlimited = record config { qps = false }

new_for_config_or_die-eq_example :
    new_for_config_or_die makers unlimited 3
    ≡ (panicking (new_for_config makers unlimited 3).0, (new_for_config makers unlimited 3).1)
new_for_config_or_die-eq_example =
    new_for_config_or_die-eq makers unlimited 3 (λ c heap. refl) (inl refl)
