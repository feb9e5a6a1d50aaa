-- ===== src/Config/Tests.antt =====
-- A run of the theorem on the configuration (util/config.go).
use spoof_dpi_turkiye.Prelude.{
  bytes, ◌≡◌, refl, Bool, true, false, [], ◌∷◌, Option, some, ok, Bytes, bytes_eq,
}
use spoof_dpi_turkiye.Proxy.{pattern_matches}
use spoof_dpi_turkiye.Args.{Args}
use spoof_dpi_turkiye.Config.{
  config_of, compile_one, compile_all, compile_allowed_patterns, load, new_proxy,
}
use spoof_dpi_turkiye.Config.Patterns.{is_bypassed, load-pattern_matches}

-- Patterns that match themselves alone.
abbrev compile : Bytes → Option (Bytes → Bool)
compile pattern = some (bytes_eq pattern)

abbrev args : Args
args = record {
  addr = bytes "127.0.0.1";
  port = 8080;
  dns_addr = bytes "1.1.1.1";
  dns_port = 53;
  dns_fallback = bytes "8.8.8.8" ∷ bytes "9.9.9.9" ∷ [];
  dns_ipv4_only = false;
  enable_doh = true;
  doh_url = bytes "https://cloudflare-dns.com/dns-query";
  doh_bootstrap_ip = bytes "1.1.1.1";
  debug = false;
  silent = false;
  system_proxy = false;
  timeout = 0;
  allowed_pattern = bytes "discord.com" ∷ [];
  window_size = 5;
  version = false;
}

loaded : load compile args ≡ ok (config_of args (some (bytes_eq (bytes "discord.com") ∷ [])))
unfolding load compile_allowed_patterns compile_all compile_one
loaded = refl

load-pattern_matches_example :
    pattern_matches
      (new_proxy (config_of args (some (bytes_eq (bytes "discord.com") ∷ []))))
      (bytes "x.com")
    ≡ is_bypassed compile (bytes "discord.com" ∷ []) (bytes "x.com")
load-pattern_matches_example =
    load-pattern_matches compile args (config_of args (some (bytes_eq (bytes "discord.com") ∷ [])))
      (bytes "x.com") loaded
