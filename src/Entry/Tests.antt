-- ===== src/Entry/Tests.antt =====
-- Runs of the theorems on the entry point (main.go).
use spoof_dpi_turkiye.Prelude.{
  Bool, true, List, [], ◌∷◌, Option, none, some, Bytes, bytes, bytes_eq,
}
use spoof_dpi_turkiye.Args.{Args, defaults}
use spoof_dpi_turkiye.Args.Command.{default_fallback}
use spoof_dpi_turkiye.Config.{Config, config_of}
use spoof_dpi_turkiye.System.{World}

abbrev compile : Bytes → Option (Bytes → Bool)
compile pattern = some (bytes_eq pattern)

abbrev words : List Bytes
words = bytes "-silent" ∷ []

abbrev args : Args
args = record (defaults true) { silent = true; dns_fallback = default_fallback }

abbrev config : Config
config = config_of args none

abbrev network : World
network = record { log = []; outcomes = record { output = bytes "Wi-Fi"; failure = none } ∷ [] }
