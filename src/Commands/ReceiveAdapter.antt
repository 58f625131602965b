-- ===== src/Commands/ReceiveAdapter.antt =====
-- The receive adapter's program, cmd/receiveadapter/main.go, and the arguments that `MakeService`
-- of pkg/reconciler/cloudschedulersource/resources/service.go writes for it.
use text.Mathlib.TextLemmas.{append_assoc}
use csr.Base.{
  sym, String, ◌<>◌, ◌≡◌, ◌==◌, string_eq, Option, none, some, List, [], ◌∷◌, if◌then◌else◌, ap,
  ◌∙◌,
}
use csr.Api.{CloudSchedulerSource}
use csr.Platform.{Vendor}
use csr.Reconciler.Services.{make_service}
use csr.Adapter.{Web, CloudSchedulerReceiveAdapter}
use csr.Commands.{FlagParser, ReadsFlag}

-- How the program ends up: it exits on its arguments, fails with a message, or serves the adapter
-- at an address.
pub data Outcome (W : Web) : Type 0 where
  exited : Outcome W
  failed : String → Outcome W
  serving : String → CloudSchedulerReceiveAdapter W → Outcome W

abbrev env_port : String
env_port = "PORT"

module _ (W : Web) (parse : FlagParser) (get_env : String → String) where
  -- The port is computed and the address is fixed, as in the source.
  serve_with : String → Outcome W
  serve_with sink =
      if sink == ""
      then failed "No sink given"
      else (let port = if get_env env_port == "" then "8080" else get_env env_port in
          serving ":8080" (record { sink = sink; client = none }))

  with_flags : Option (String → String) → Outcome W
  unfolding serve_with
  with_flags none = exited
  with_flags (some values) = serve_with (values "sink")

  unfoldable pub main : List String → Outcome W
  unfolding with_flags
  main args = with_flags (parse (("sink", "") ∷ []) args)

  spelling : (sink : String) → "--" <> ("sink" <> ("=" <> sink)) ≡ "--sink=" <> sink
  spelling sink =
      sym (append_assoc "--" "sink" ("=" <> sink)) ∙ sym (append_assoc "--sink" "=" sink)

  -- The flag as the controller writes it.
  main-of_sink :
      (sink : String) → ReadsFlag parse "sink" → main (("--sink=" <> sink) ∷ []) ≡ serve_with sink
  unfolding main
  main-of_sink sink reads =
      let (values, parsed, read) = reads "" sink in
      ap (λ argument. with_flags (parse (("sink", "") ∷ []) (argument ∷ []))) (sym (spelling sink))
      ∙ ap with_flags parsed
      ∙ ap serve_with read

  -- The program, given the arguments of the service that the controller makes for a source, serves
  -- an adapter whose sink is the source's sink if that is known, and stops without it. The address
  -- is `:8080`, whatever the environment says.
  pub main-make_service :
      (V : Vendor) (source : CloudSchedulerSource) (image : String)
      → ReadsFlag parse "sink"
      → main (make_service V source image).run_latest.container.args ≡ (
          if source.status.sink_uri == ""
          then failed "No sink given"
          else serving ":8080" (record { sink = source.status.sink_uri; client = none }))
  unfolding make_service serve_with
  main-make_service V source image reads = main-of_sink source.status.sink_uri reads
