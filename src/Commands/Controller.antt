-- ===== src/Commands/Controller.antt =====
-- The controller's program, cmd/controller/main.go: the clients, the informer factories, the wait
-- for their caches, and the controllers' start. Goroutines is what runs at once from then on; left out
-- are the log lines, apart from the message of a fatal one.
pub mod Goroutines
pub mod Order
use csr.Base.{
  String, ◌<>◌, ℕ, Bool, not, Option, none, some, List, [], ◌∷◌, Result, ok, err, Exec, pure, fail,
  ◌>>=◌, ◌>>◌, if◌then◌else◌,
}
use csr.Commands.{FlagParser}
use csr.Reconciler.Finalizers.{controller_agent_name}

-- client-go's errors and configurations
pub record Setup : Type 1 where
  pub Error : Type 0
  pub Config : Type 0
  pub error_text : Error → String
  pub index_text : ℕ → String

-- The clients, in the order in which they are made, and the informer factories.
pub data ClientKind : Type 0 where
  kubernetes : ClientKind
  dynamic_client : ClientKind
  cloud_scheduler_source : ClientKind
  serving : ClientKind

pub data FactoryKind : Type 0 where
  kube_informers : FactoryKind
  source_informers : FactoryKind
  serving_informers : FactoryKind

-- `built_config` has the arguments of `BuildConfigFromFlags`, the server's address first;
-- `made_controller` is the call of `NewController` with the adapter's image, and with the answer about
-- its statistics reporter; `waited` has an index and the answer; and `ended` is the signal, or the error with which
-- the controller's `Run` came back before it.
pub data Step (S : Setup) : Type 0 where
  built_config : String → String → Result S.Error S.Config → Step S
  made_client : ClientKind → S.Config → Result S.Error (Unit {0}) → Step S
  made_controller : String → Result String (Unit {0}) → Step S
  started : FactoryKind → Step S
  waited : ℕ → Bool → Step S
  running : ℕ → Step S
  ended : Result S.Error (Unit {0}) → Step S

abbrev pub Steps : Setup → Type 0
Steps S = List (Step S)

pub record World (S : Setup) : Type 0 where
  pub build_config_from_flags : Steps S → String → String → Result S.Error S.Config
  pub new_for_config : Steps S → ClientKind → S.Config → Result S.Error (Unit {0})
  -- `NewStatsReporter`, which `NewController` calls, and without which it ends the process
  pub new_stats_reporter : Steps S → String → Result String (Unit {0})
  pub wait_for_cache_sync : Steps S → ℕ → Bool
  -- What comes first once the controllers run: the signal, or a `Run` that fails
  pub awaited : Steps S → Result S.Error (Unit {0})

-- How the process ends early: `flag.Parse` exits, or `Fatalf` with its message.
pub data Exit : Type 0 where
  usage : Exit
  fatal : String → Exit

abbrev pub threads_per_controller : ℕ
threads_per_controller = 2

-- The flags with their defaults, as the variables declare them.
abbrev pub flags : List (String × String)
flags = ("kubeconfig", "") ∷ ("master", "") ∷ ("raimage", "") ∷ []

-- The flag whose value the variable `masterURL` holds, and the one of `kubeconfig`.
abbrev pub master_url_flag : String
master_url_flag = "kubeconfig"

abbrev pub kubeconfig_flag : String
kubeconfig_flag = "master"

module _ {S : Setup} (world : World S) where
  abbrev Starting : Type 0 → Type 0
  Starting A = Exec Exit (Steps S) A

  abbrev act : Step S → Starting (Unit {0})
  act step h = pure tt (step ∷ h)

  abbrev or_fatal : {A : Type 0} → String → Result S.Error A → Starting A
  or_fatal message (ok a) = pure a
  or_fatal message (err e) = fail (fatal (message <> S.error_text e))

  abbrev or_exit : Result String (Unit {0}) → Starting (Unit {0})
  or_exit (ok _) = pure tt
  or_exit (err message) = fail (fatal ("Couldn't create stats exporter: " <> message))

  build_config : String → String → Starting S.Config
  build_config master_url kubeconfig h =
      let r = world.build_config_from_flags h master_url kubeconfig in
      or_fatal "Error building kubeconfig: " r (built_config master_url kubeconfig r ∷ h)

  make_client : ClientKind → String → S.Config → Starting (Unit {0})
  make_client kind message cfg h =
      let r = world.new_for_config h kind cfg in or_fatal message r (made_client kind cfg r ∷ h)

  wait_for : ℕ → Starting (Unit {0})
  wait_for i h =
      let r = world.wait_for_cache_sync h i in
      if not r
      then fail (fatal ("failed to wait for cache at index " <> (S.index_text i <> " to sync")))
          (waited i r ∷ h)
      else pure tt (waited i r ∷ h)

  make_clients : S.Config → Starting (Unit {0})
  unfolding make_client
  make_clients cfg = do
    make_client kubernetes "Error building kubernetes clientset: " cfg
    make_client dynamic_client "Error building dynamic client: " cfg
    make_client cloud_scheduler_source "Error building cloudSchedulerSource clientset: " cfg
    make_client serving "Error building serving clientset: " cfg

  -- `NewController`, whose fields and handlers are those of Reconciler.Controller
  make_controller : String → Starting (Unit {0})
  make_controller ra_image h =
      let r = world.new_stats_reporter h controller_agent_name in
      or_exit r (made_controller ra_image r ∷ h)

  -- The controller is made with the image, and the factories start on goroutines of their own.
  start_informers : String → Starting (Unit {0})
  unfolding make_controller
  start_informers ra_image = do
    make_controller ra_image
    act (started kube_informers)
    act (started source_informers)
    act (started serving_informers)

  -- `<-stopCh`, unless the goroutine of the controller ends the process before
  wait_for_end : Starting (Unit {0})
  wait_for_end h = let r = world.awaited h in or_fatal "Error running controller: " r (ended r ∷ h)

  run_controllers : Starting (Unit {0})
  unfolding wait_for wait_for_end
  run_controllers = do wait_for 0; wait_for 1; act (running threads_per_controller); wait_for_end

  with_flags : Option (String → String) → Starting (Unit {0})
  unfolding build_config make_clients start_informers run_controllers
  with_flags none = fail usage
  with_flags (some values) = do
    cfg ← build_config (values master_url_flag) (values kubeconfig_flag)
    make_clients cfg
    start_informers (values "raimage")
    run_controllers

  unfoldable pub main : FlagParser → List String → Starting (Unit {0})
  unfolding with_flags
  main parse args = with_flags (parse flags args)
