-- ===== src/Entry/Settings.antt =====
-- The proxy settings of macOS around a run of the program (`run` of main.go).
use spoof_dpi_turkiye.Prelude.{
  ℕ, ◌%◌, ◌^◌, ◌<◌, ◌≡◌, refl, ap, sym, ◌∙◌, bind_succeeds, Bool, true, false, List, ◌∷◌, Option,
  none, some, ok, arith, Bytes,
}
use spoof_dpi_turkiye.System.{
  Action, runs, World, SystemError, network_command, get_proxy_types, set_args, set_os_proxy,
}
use spoof_dpi_turkiye.System.Commands.{commands, localhost}
use spoof_dpi_turkiye.Args.{Args}
use spoof_dpi_turkiye.Args.Command.{parse_args}
use spoof_dpi_turkiye.Args.Bounds.{parse_args-Bounded}
use spoof_dpi_turkiye.Config.{Config, config_of, compile_allowed_patterns, load}
use spoof_dpi_turkiye.Entry.{Ending, serve_proxied, greet, run_config, run_args, run_loaded, run}

-- The commands that set both proxies to a port, behind the one that asks for the network.
abbrev pub set_commands : Bytes → ℕ → List Action
set_commands network port =
    runs network_command ∷ commands (set_args network localhost port) get_proxy_types

run_config-failed :
    (is_darwin : Bool) (ending : Ending) (c : Config) (w : World) {e : SystemError}
    → c.system_proxy ≡ true
    → c.port < 2 ^ 16
    → (set_os_proxy is_darwin c.port (greet c w)).1 ≡ some e
    → run_config is_darwin ending c w ≡ ((set_os_proxy is_darwin c.port (greet c w)).0, 1)
unfolding run_config serve_proxied
run_config-failed is_darwin ending c w {e = e} proxied small failed =
    let exact : c.port % 2 ^ 16 ≡ c.port = ground (arith, small) in
    rw (proxied, exact) (stopped (set_os_proxy is_darwin c.port (greet c w)) failed)
  where
    stopped :
        (s : World × Option SystemError)
        → s.1 ≡ some e
        → serve_proxied is_darwin ending s ≡ (s.0, 1)
    stopped (w', none) f = absurd (cc f)
    stopped (w', some e') f = refl

module _ (compile : Bytes → Option (Bytes → Bool)) where
  load-config :
      (args : Args) (c : Config)
      → load compile args ≡ ok c
      → (c.port ≡ args.port) × (c.system_proxy ≡ args.system_proxy)
  unfolding load
  load-config args c loaded =
      let (patterns, compiled, made) =
        bind_succeeds (compile_allowed_patterns compile args.allowed_pattern) _ loaded in
      let same : config_of args patterns ≡ c = cc made in
      (sym (ap (λ c. c.port) same), sym (ap (λ c. c.system_proxy) same))

  -- A command line that is good and does not ask for the version.
  run-run_config :
      (is_darwin : Bool) (ending : Ending) (words : List Bytes) (w : World) (args : Args)
      (c : Config)
      → parse_args is_darwin words ≡ ok args
      → args.version ≡ false
      → load compile args ≡ ok c
      → (run compile is_darwin ending words w ≡ run_config is_darwin ending c w)
        × (c.port < 2 ^ 16)
        × (c.system_proxy ≡ args.system_proxy)
  unfolding run run_args run_loaded
  run-run_config is_darwin ending words w args c parsed plain loaded =
      let (port, proxied) = load-config args c loaded in
      let bound = (parse_args-Bounded is_darwin words parsed).0.port in
      (rw (parsed, loaded, plain) refl, ground (arith, port, bound), proxied)

  -- If the proxies of the system are to be set and that fails, a run ends with exit code 1 and
  -- starts nothing, and what it has done to the settings until then stays as it is.
  pub run-set_os_proxy_failed :
      (is_darwin : Bool) (ending : Ending) (words : List Bytes) (w : World) (args : Args)
      (c : Config) (e : SystemError)
      → parse_args is_darwin words ≡ ok args
      → args.version ≡ false
      → load compile args ≡ ok c
      → args.system_proxy ≡ true
      → (set_os_proxy is_darwin c.port (greet c w)).1 ≡ some e
      → run compile is_darwin ending words w ≡ ((set_os_proxy is_darwin c.port (greet c w)).0, 1)
  run-set_os_proxy_failed is_darwin ending words w args c e parsed plain loaded wanted failed =
      let (same, small, proxied) =
        run-run_config is_darwin ending words w args c parsed plain loaded in
      same ∙ run_config-failed is_darwin ending c w (proxied ∙ wanted) small failed
