-- ===== src/System/Tests.antt =====
-- A run of the theorem on the proxy settings (util/os.go).
use spoof_dpi_turkiye.Prelude.{true, [], ◌∷◌, none, some, bytes}
use spoof_dpi_turkiye.System.{World, setting, set_args, set_os_proxy}
use spoof_dpi_turkiye.System.Commands.{localhost}
use spoof_dpi_turkiye.System.Outcomes.{Follows, set_os_proxy-Follows}

-- A network, a command that succeeds and one that lacks the permission.
abbrev world : World
world = record {
  log = [];
  outcomes =
      record { output = bytes "Wi-Fi"; failure = none }
      ∷ record { output = []; failure = none }
      ∷ record { output = bytes "denied"; failure = some (some 14) }
      ∷ [];
}

set_os_proxy-Follows_example :
    Follows
      (λ network. set_args network localhost 8080)
      setting
      world
      (set_os_proxy true 8080 world)
set_os_proxy-Follows_example = set_os_proxy-Follows 8080 world
