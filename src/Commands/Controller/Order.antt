-- ===== src/Commands/Controller/Order.antt =====
-- The order of the controller's start, of cmd/controller/main.go.
use csr.Base.{
  String, ◌<>◌, ◌≡◌, refl, Bool, true, false, none, some, List, [], ◌∷◌, Result, ok, err, inl, inr,
  Option, ◌>>◌, Result-cases, Bool-cases,
}
use csr.Commands.{FlagParser}
use csr.Reconciler.Finalizers.{controller_agent_name}
use csr.Commands.Controller.{
  Setup, Steps, World, Exit, usage, built_config, made_client, made_controller, started, waited,
  running, ended, fatal, make_controller, wait_for_end, kubernetes, dynamic_client,
  cloud_scheduler_source, serving, kube_informers, source_informers, serving_informers, flags,
  master_url_flag, kubeconfig_flag, threads_per_controller, build_config, make_client, wait_for,
  make_clients, start_informers, Starting, run_controllers, with_flags, main,
}

-- Whether some controller runs.
pub is_running : {S : Setup} → Steps S → Bool
is_running [] = false
is_running (built_config _ _ _ ∷ h) = is_running h
is_running (made_client _ _ _ ∷ h) = is_running h
is_running (made_controller _ _ ∷ h) = is_running h
is_running (started _ ∷ h) = is_running h
is_running (waited _ _ ∷ h) = is_running h
is_running (running _ ∷ h) = true
is_running (ended _ ∷ h) = is_running h

abbrev pub Started : Setup → Type 0
Started S = Result Exit (Unit {0}) × Steps S

-- All the steps of a start that comes to its controllers, the last one first.
abbrev pub whole_start : {S : Setup} → S.Config → (String → String) → Steps S
whole_start cfg values =
    running threads_per_controller
    ∷ waited 1 true
    ∷ waited 0 true
    ∷ started serving_informers
    ∷ started source_informers
    ∷ started kube_informers
    ∷ made_controller (values "raimage") (ok tt)
    ∷ made_client serving cfg (ok tt)
    ∷ made_client cloud_scheduler_source cfg (ok tt)
    ∷ made_client dynamic_client cfg (ok tt)
    ∷ made_client kubernetes cfg (ok tt)
    ∷ built_config (values master_url_flag) (values kubeconfig_flag) (ok cfg)
    ∷ []

-- The runs `out` of the program whose flags are read as `parsed`.
pub data StartRun {S : Setup} (parsed : Option (String → String)) (out : Started S) : Type 0 where
  down : (exit : Exit) → out.0 ≡ err exit → is_running out.1 ≡ false → StartRun parsed out
  up :
      (values : String → String) (cfg : S.Config)
      → parsed ≡ some values
      → out ≡ (ok tt, ended (ok tt) ∷ whole_start cfg values)
      → StartRun parsed out
  broken :
      (values : String → String) (cfg : S.Config) (e : S.Error)
      → parsed ≡ some values
      → out ≡ (
        err (fatal ("Error running controller: " <> S.error_text e)),
        ended (err e) ∷ whole_start cfg values,
      )
      → StartRun parsed out

module _ {S : Setup} (world : World S) (values : String → String) where
  abbrev IsStart : Started S → Type 0
  IsStart out = StartRun (some values) out

  abbrev configured : S.Config → Steps S
  configured cfg = built_config (values master_url_flag) (values kubeconfig_flag) (ok cfg) ∷ []

  abbrev connected : S.Config → Steps S
  connected cfg =
      made_client serving cfg (ok tt)
      ∷ made_client cloud_scheduler_source cfg (ok tt)
      ∷ made_client dynamic_client cfg (ok tt)
      ∷ made_client kubernetes cfg (ok tt)
      ∷ configured cfg

  abbrev informed : S.Config → Steps S
  informed cfg =
      started serving_informers
      ∷ started source_informers
      ∷ started kube_informers
      ∷ made_controller (values "raimage") (ok tt)
      ∷ connected cfg

  run_controllers-IsStart : (cfg : S.Config) → IsStart (run_controllers world (informed cfg))
  unfolding run_controllers wait_for wait_for_end is_running
  run_controllers-IsStart cfg = elim (Bool-cases (world.wait_for_cache_sync (informed cfg) 0)) [
    | inr lost ↦ rw lost (down _ refl refl)
    | inl synced ↦ elim (Bool-cases (world.wait_for_cache_sync (waited 0 true ∷ informed cfg) 1)) [
      | inr lost ↦ rw (synced, lost) (down _ refl refl)
      | inl synced' ↦ elim (Result-cases (world.awaited (whole_start cfg values))) [
        | inl (_, p) ↦ rw (synced, synced', p) (up values cfg refl refl)
        | inr (e, p) ↦ rw (synced, synced', p) (broken values cfg e refl refl)
      ]
    ]
  ]

  abbrev rest : Starting world (Unit {0})
  rest = start_informers world (values "raimage") >> run_controllers world

  rest-IsStart : (cfg : S.Config) → IsStart (rest (connected cfg))
  unfolding start_informers make_controller is_running
  rest-IsStart cfg =
      elim (Result-cases (world.new_stats_reporter (connected cfg) controller_agent_name)) [
        | inr (message, p) ↦ rw p (down _ refl refl)
        | inl (_, p) ↦ rw p (run_controllers-IsStart cfg)
      ]

  -- The steps from the clients on.
  clients-IsStart : (cfg : S.Config) → IsStart ((make_clients world cfg >> rest) (configured cfg))
  unfolding make_clients make_client is_running
  clients-IsStart cfg = elim (Result-cases (world.new_for_config h1 kubernetes cfg)) [
    | inr (e, p) ↦ rw p (down _ refl refl)
    | inl (_, p) ↦ elim (Result-cases (world.new_for_config h2 dynamic_client cfg)) [
      | inr (e, q) ↦ rw (p, q) (down _ refl refl)
      | inl (_, q) ↦ elim (Result-cases (world.new_for_config h3 cloud_scheduler_source cfg)) [
        | inr (e, r) ↦ rw (p, q, r) (down _ refl refl)
        | inl (_, r) ↦ elim (Result-cases (world.new_for_config h4 serving cfg)) [
          | inr (e, s) ↦ rw (p, q, r, s) (down _ refl refl)
          | inl (_, s) ↦ rw (p, q, r, s) (rest-IsStart cfg)
        ]
      ]
    ]
  ]
    where
      h1 : Steps S
      h1 = configured cfg

      h2 : Steps S
      h2 = made_client kubernetes cfg (ok tt) ∷ h1

      h3 : Steps S
      h3 = made_client dynamic_client cfg (ok tt) ∷ h2

      h4 : Steps S
      h4 = made_client cloud_scheduler_source cfg (ok tt) ∷ h3

  with_values-IsStart : IsStart (with_flags world (some values) [])
  unfolding with_flags build_config is_running
  with_values-IsStart =
      elim (Result-cases
        (world.build_config_from_flags [] (values master_url_flag) (values kubeconfig_flag))) [
          | inr (e, p) ↦ rw p (down _ refl refl)
          | inl (cfg, p) ↦ rw p (clients-IsStart cfg)
        ]

module _ {S : Setup} (world : World S) (parse : FlagParser) (args : List String) where
  of_parsed : (parsed : Option (String → String)) → StartRun parsed (with_flags world parsed [])
  unfolding with_flags is_running
  of_parsed none = down usage refl refl
  of_parsed (some values) = with_values-IsStart world values

  -- The program either ends early, with no controller running, be it that `NewController` ends it; or
  -- it has made its configuration, all clients and the controller, started the factories, seen both
  -- caches synced, and only then started the controllers with two threads. After that it returns at
  -- the signal, or ends fatally with the error of a controller.
  pub main-StartRun : StartRun (parse flags args) (main world parse args [])
  unfolding main
  main-StartRun = of_parsed (parse flags args)
