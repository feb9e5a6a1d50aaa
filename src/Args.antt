-- ===== src/Args.antt =====
-- The command line (util/args.go): the arguments, their defaults and the flags that set them.
pub mod Uint
pub mod Command
pub mod Keeping
pub mod Bounds
pub mod Printing
mod Tests
use spoof_dpi_turkiye.Prelude.{ℕ, Bool, true, false, List, [], ◌∷◌, ◌++◌, Bytes, bytes}

pub record Args : Type 0 where
  pub addr : Bytes
  pub port : ℕ
  pub dns_addr : Bytes
  pub dns_port : ℕ
  pub dns_fallback : List Bytes
  pub dns_ipv4_only : Bool
  pub enable_doh : Bool
  pub doh_url : Bytes
  pub doh_bootstrap_ip : Bytes
  pub debug : Bool
  pub silent : Bool
  pub system_proxy : Bool
  pub timeout : ℕ
  pub allowed_pattern : List Bytes
  pub window_size : ℕ
  pub version : Bool

-- What a flag sets: a string or an element of a `StringArray`, a uint16, or a bool.
pub data Setter : Type 0 where
  string_var : (Bytes → Args → Args) → Setter
  uint_var : (ℕ → Args → Args) → Setter
  bool_var : (Bool → Args → Args) → Setter

-- `StringArray.Set`
unfoldable pub string_array_set : List Bytes → Bytes → List Bytes
string_array_set arr value = arr ++ value ∷ []

-- The fields before `flag.Parse`, by whether the system is macOS.
abbrev pub defaults : Bool → Args
defaults is_darwin = record {
  addr = bytes "127.0.0.1";
  port = 8080;
  dns_addr = bytes "1.1.1.1";
  dns_port = 53;
  dns_fallback = [];
  dns_ipv4_only = false;
  enable_doh = true;
  doh_url = bytes "https://cloudflare-dns.com/dns-query";
  doh_bootstrap_ip = bytes "1.1.1.1";
  debug = false;
  silent = false;
  system_proxy = is_darwin;
  timeout = 0;
  allowed_pattern = [];
  window_size = 5;
  version = false;
}

-- The flags, in the order of their definitions.
unfoldable pub flags : List (Bytes × Setter)
unfolding string_array_set
flags =
    (bytes "addr", string_var (λ s a. record a { addr = s }))
    ∷ (bytes "port", uint_var (λ n a. record a { port = n }))
    ∷ (bytes "dns-addr", string_var (λ s a. record a { dns_addr = s }))
    ∷ (bytes "dns-port", uint_var (λ n a. record a { dns_port = n }))
    ∷ (
      bytes "dns-fallback",
      string_var (λ s a. record a { dns_fallback = string_array_set a.dns_fallback s }),
    )
    ∷ (bytes "enable-doh", bool_var (λ b a. record a { enable_doh = b }))
    ∷ (bytes "doh-url", string_var (λ s a. record a { doh_url = s }))
    ∷ (bytes "doh-bootstrap-ip", string_var (λ s a. record a { doh_bootstrap_ip = s }))
    ∷ (bytes "debug", bool_var (λ b a. record a { debug = b }))
    ∷ (bytes "silent", bool_var (λ b a. record a { silent = b }))
    ∷ (bytes "system-proxy", bool_var (λ b a. record a { system_proxy = b }))
    ∷ (bytes "timeout", uint_var (λ n a. record a { timeout = n }))
    ∷ (bytes "window-size", uint_var (λ n a. record a { window_size = n }))
    ∷ (bytes "v", bool_var (λ b a. record a { version = b }))
    ∷ (
      bytes "pattern",
      string_var (λ s a. record a { allowed_pattern = string_array_set a.allowed_pattern s }),
    )
    ∷ (bytes "dns-ipv4-only", bool_var (λ b a. record a { dns_ipv4_only = b }))
    ∷ []
