-- ===== src/Entry.antt =====
-- `run` of main.go: from the command line to the exit code.
pub mod Settings
pub mod Shutdown
mod Tests
use spoof_dpi_turkiye.Prelude.{
  ℕ, ◌%◌, ◌^◌, Bool, true, false, List, Option, none, some, Result, ok, err, Bytes, if◌then◌else◌,
}
use spoof_dpi_turkiye.Args.{Args}
use spoof_dpi_turkiye.Args.Command.{CommandError, help, parse_args}
use spoof_dpi_turkiye.Config.{Config, ConfigError, load}
use spoof_dpi_turkiye.System.{
  Action, version, banner, starts, stops, World, act, SystemError, set_os_proxy, unset_os_proxy,
}

-- An error of `Proxy.Start` that is a `context.Canceled`, or another.
pub data StartError : Type 0 where
  canceled failed : StartError

-- What the `select` at the end receives first: a signal, or what `Proxy.Start` returns.
pub data Ending : Type 0 where
  signalled : Ending
  returned : Option StartError → Ending

unfoldable pub exit_code : Ending → ℕ
exit_code signalled = 0
exit_code (returned none) = 0
exit_code (returned (some canceled)) = 0
exit_code (returned (some failed)) = 1

-- The proxy at work. After a signal too, `run` waits until `Start` has returned.
unfoldable pub serve : World → World
serve w = act (act w starts) stops

-- The deferred call of `UnsetOsProxy`, whose error is logged.
unfoldable pub unset_deferred : Bool → World → World
unset_deferred is_darwin w = (unset_os_proxy is_darwin w).0

-- From the test of the error of `SetOsProxy` on.
unfoldable pub serve_proxied : Bool → Ending → World × Option SystemError → World × ℕ
unfolding serve exit_code unset_deferred
serve_proxied is_darwin ending (w, some e) = (w, 1)
serve_proxied is_darwin ending (w, none) = (unset_deferred is_darwin (serve w), exit_code ending)

abbrev pub greet : Config → World → World
greet c w = if c.silent then w else act w banner

-- From `log.InitLogger` on.
unfoldable pub run_config : Bool → Ending → Config → World → World × ℕ
unfolding serve_proxied
run_config is_darwin ending c w =
    if c.system_proxy
    then serve_proxied is_darwin ending (set_os_proxy is_darwin (c.port % 2 ^ 16) (greet c w))
    else (serve (greet c w), exit_code ending)

module _ (compile : Bytes → Option (Bytes → Bool)) (is_darwin : Bool) (ending : Ending) where
  unfoldable pub run_loaded : Result ConfigError Config → World → World × ℕ
  unfolding run_config
  run_loaded (err e) w = (w, 2)
  run_loaded (ok c) w = run_config is_darwin ending c w

  -- Package flag ends the program itself on an error and for its help.
  unfoldable pub run_args : Result CommandError Args → World → World × ℕ
  unfolding run_loaded
  run_args (err help) w = (w, 0)
  run_args (err e) w = (w, 2)
  run_args (ok args) w =
      if args.version then (act w version, 0) else run_loaded (load compile args) w

  unfoldable pub run : List Bytes → World → World × ℕ
  unfolding run_args
  run words w = run_args (parse_args is_darwin words) w
