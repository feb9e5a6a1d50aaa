-- ===== src/Config.antt =====
-- The configuration that `Load` makes of the arguments (util/config.go), and the proxy that `New`
-- of proxy/proxy.go makes of it.
pub mod Patterns
mod Tests
use spoof_dpi_turkiye.Prelude.{
  ℕ, ◌+◌, ◌^◌, ◌%◌, Bool, true, false, List, [], ◌∷◌, Option, none, some, Result, ok, err, ◌>>=◌,
  Bytes, if◌then◌else◌,
}
use spoof_dpi_turkiye.Args.{Args}
use spoof_dpi_turkiye.Dns.{DnsConfig}
use spoof_dpi_turkiye.Proxy.{Proxy}

-- A compiled pattern is what `Match` says of a text.
pub record Config : Type 0 where
  pub addr : Bytes
  pub port : ℕ
  pub dns_addr : Bytes
  pub dns_port : ℕ
  pub dns_fallback : List Bytes
  pub dns_ipv4_only : Bool
  pub enable_doh : Bool
  pub doh_url : Bytes
  pub doh_bootstrap_ip : Bytes
  pub debug : Bool
  pub silent : Bool
  pub system_proxy : Bool
  pub timeout : ℕ
  pub window_size : ℕ
  pub allowed_patterns : Option (List (Bytes → Bool))

-- The error names the pattern.
pub data ConfigError : Type 0 where
  invalid_pattern : Bytes → ConfigError

abbrev pub config_of : Args → Option (List (Bytes → Bool)) → Config
config_of args patterns = record {
  addr = args.addr;
  port = args.port;
  dns_addr = args.dns_addr;
  dns_port = args.dns_port;
  dns_fallback = args.dns_fallback;
  dns_ipv4_only = args.dns_ipv4_only;
  enable_doh = args.enable_doh;
  doh_url = args.doh_url;
  doh_bootstrap_ip = args.doh_bootstrap_ip;
  debug = args.debug;
  silent = args.silent;
  system_proxy = args.system_proxy;
  timeout = args.timeout;
  window_size = args.window_size;
  allowed_patterns = patterns;
}

-- `regexp.Compile` is a parameter; its `none` is an error.
module _ (compile : Bytes → Option (Bytes → Bool)) where
  -- A round of the loop, by what the rest of it gives.
  unfoldable pub compile_one :
      Bytes
      → Option (Bytes → Bool)
      → Result ConfigError (List (Bytes → Bool))
      → Result ConfigError (List (Bytes → Bool))
  compile_one pattern none rest = err (invalid_pattern pattern)
  compile_one pattern (some re) (err e) = err e
  compile_one pattern (some re) (ok out) = ok (re ∷ out)

  unfoldable pub compile_all : List Bytes → Result ConfigError (List (Bytes → Bool))
  unfolding compile_one
  compile_all [] = ok []
  compile_all (pattern ∷ patterns) = compile_one pattern (compile pattern) (compile_all patterns)

  unfoldable pub compile_allowed_patterns :
      List Bytes → Result ConfigError (Option (List (Bytes → Bool)))
  unfolding compile_all
  compile_allowed_patterns [] = ok none
  compile_allowed_patterns (pattern ∷ patterns) = do
    out ← compile_all (pattern ∷ patterns)
    ok (some out)

  unfoldable pub load : Args → Result ConfigError Config
  load args = do
    patterns ← compile_allowed_patterns args.allowed_pattern
    ok (config_of args patterns)

unfoldable pub new_proxy : Config → Proxy
new_proxy c = record {
  addr = c.addr;
  port = c.port;
  timeout = c.timeout;
  window_size = c.window_size;
  allowed_pattern = c.allowed_patterns;
}

-- What `NewDns` reads of the configuration that `New` hands to it.
unfoldable pub dns_config : Config → DnsConfig
dns_config c = record {
  dns_addr = c.dns_addr;
  dns_port = c.dns_port;
  dns_fallback = c.dns_fallback;
  dns_ipv4_only = c.dns_ipv4_only;
  enable_doh = c.enable_doh;
  doh_url = c.doh_url;
  doh_bootstrap_ip = c.doh_bootstrap_ip;
}
