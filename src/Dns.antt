-- ===== src/Dns.antt =====
-- Package dns: the configuration's upstreams, and the address of a host (dns/dns.go). Strings are
-- sequences of code points.
pub mod Upstreams
pub mod Cached
pub mod Clients
pub mod Provenance
pub mod Racing
pub mod Resolve
use spoof_dpi_turkiye.Prelude.{
  ℕ, ◌*◌, itoa, join_host_port, Bool, true, false, not, ◌&&◌, ◌||◌, List, [], ◌∷◌, ◌++◌, map,
  Option, none, some, Result, ok, err, Bytes, bytes_eq, ◌==◌, leb, if◌then◌else◌,
}
use mathlib.Core.List.{reverse}
use spoof_dpi_turkiye.AddrSelect.Ip.{IpAddr}
use spoof_dpi_turkiye.Resolver.Answer.{Error, no_addresses, wrap, Answer, is_empty}
use spoof_dpi_turkiye.Resolver.Lookup.{type_a, type_aaaa}

-- The fields of `util.Config` that `NewDns` reads.
pub record DnsConfig : Type 0 where
  pub dns_addr : Bytes
  pub dns_port : ℕ
  pub dns_fallback : List Bytes
  pub dns_ipv4_only : Bool
  pub enable_doh : Bool
  pub doh_url : Bytes
  pub doh_bootstrap_ip : Bytes

-- `unicode.IsSpace`
unfoldable pub is_space : ℕ → Bool
is_space c =
    leb 9 c && leb c 13
    || (c == 0x20
        || (c == 0x85
            || (c == 0xa0
                || (c == 0x1680
                    || (leb 0x2000 c && leb c 0x200a
                        || (c == 0x2028
                            || (c == 0x2029 || (c == 0x202f || (c == 0x205f || c == 0x3000)))))))))

unfoldable pub trim_left : Bytes → Bytes
trim_left [] = []
trim_left (c ∷ s) = let rest = trim_left s in if is_space c then rest else c ∷ s

-- `strings.TrimSpace`
unfoldable pub trim_space : Bytes → Bytes
unfolding trim_left is_space
trim_space s = reverse (trim_left (reverse (trim_left s)))

-- The resolvers that `NewDns` makes.
pub data Upstream : Type 0 where
  general : Bytes → Upstream
  doh : Bytes → Bytes → Upstream
  system : Upstream

abbrev pub seen_in : Bytes → List Bytes → Bool
seen_in s [] = false
seen_in s (x ∷ xs) = bytes_eq x s || seen_in s xs

-- The keys of `seen`, in the order in which they were put in, are the servers of the chain.
unfoldable pub add_plain : Bytes → List Bytes → Bytes → List Bytes
add_plain port seen addr =
    let trimmed = trim_space addr in
    let server = join_host_port trimmed port in
    if is_empty trimmed then seen else if seen_in server seen then seen else seen ++ server ∷ []

unfoldable pub add_all : Bytes → List Bytes → List Bytes → List Bytes
add_all port seen [] = seen
add_all port seen (addr ∷ addrs) = add_all port (add_plain port seen addr) addrs

unfoldable pub servers : DnsConfig → List Bytes
servers c = add_all (itoa c.dns_port) (add_plain (itoa c.dns_port) [] c.dns_addr) c.dns_fallback

unfoldable pub bypass_chain : DnsConfig → List Upstream
bypass_chain c =
    let plain = map general (servers c) in
    if c.enable_doh && not (is_empty c.doh_url)
    then plain ++ doh c.doh_url c.doh_bootstrap_ip ∷ []
    else plain

unfoldable pub q_types : DnsConfig → List ℕ
q_types c = if c.dns_ipv4_only then type_a ∷ [] else type_aaaa ∷ type_a ∷ []

-- Durations in nanoseconds.
abbrev pub millisecond : ℕ
millisecond = 1000000

abbrev pub second : ℕ
second = 1000000000

pub record Dns : Type 0 where
  pub system_client : Upstream
  pub bypass_chain : List Upstream
  pub per_try : ℕ
  pub pos_ttl : ℕ
  pub neg_ttl : ℕ
  pub max_size : ℕ
  pub q_types : List ℕ
  pub total_budget : ℕ

unfoldable pub new_dns : DnsConfig → Dns
unfolding bypass_chain q_types
new_dns c = record {
  system_client = system;
  bypass_chain = bypass_chain c;
  per_try = 1500 * millisecond;
  pos_ttl = 5 * (60 * second);
  neg_ttl = 10 * second;
  max_size = 4096;
  q_types = q_types c;
  total_budget = 3 * second;
}

-- What `ResolveHost` returns: the text of an address, or an error.
module _ (parse_ip : Bytes → Option Bytes) (ip_string : Bytes → Bytes)
    (addr_string : IpAddr → Bytes) where
  -- The reply of the client that was chosen, with the client's name.
  unfoldable pub first_address : Bytes → Bytes → Answer → Result Error Bytes
  first_address name host r = elim r.error [
    | some e ↦ err (wrap name e)
    | none ↦ elim r.addrs [ [] ↦ err (no_addresses name host) | a ∷ rest ↦ ok (addr_string a) ]
  ]

  -- The two clients reply to a host and query types; each has a name. An address needs no client.
  unfoldable pub resolve_host :
      Dns
      → Bytes × (Bytes → List ℕ → Answer)
      → Bytes × (Bytes → List ℕ → Answer)
      → Bytes
      → Bool
      → Result Error Bytes
  resolve_host d bypass_client system_client host use_system_dns =
      let (name, resolve) = if use_system_dns then system_client else bypass_client in
      elim (parse_ip host) [
        | some ip ↦ ok (ip_string ip)
        | none ↦ first_address name host (resolve host d.q_types)
      ]
