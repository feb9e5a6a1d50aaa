-- ===== src/Proxy/Configured.antt =====
-- The addresses that are dialled under a configuration: `New` and `handle` of proxy/proxy.go with
-- `NewDns` of dns/dns.go.
mod Tests
use mathlib.Core.Logic.{∥∥₁_prop, ∥∥₁_elim, ∥∥₁_map}
use mathlib.Core.Logic.Or
use mathlib.Core.List.{not-mem-nil, eq-or-mem_of_mem-cons}
use spoof_dpi_turkiye.Prelude.{
  ℕ, ◌≡◌, true, List, [], ◌∷◌, Option, none, some, Result, ok, Bytes, All, All-map, Mem, length,
  subst, sym,
}
use spoof_dpi_turkiye.AddrSelect.Ip.{IpAddr}
use spoof_dpi_turkiye.AddrSelect.Rules.{SrcInfo}
use spoof_dpi_turkiye.Resolver.Answer.{Error, Answer}
use spoof_dpi_turkiye.Resolver.Lookup.{Msg, Query, new_msg, parse_addrs_from_msg}
use spoof_dpi_turkiye.Resolver.Cache.{MapRange}
use spoof_dpi_turkiye.Resolver.Cache.Machine.{Machine, start, Reach}
use spoof_dpi_turkiye.Config.{Config, dns_config, new_proxy}
use spoof_dpi_turkiye.Dns.{Upstream, DnsConfig, q_types, bypass_chain, Dns, new_dns}
use spoof_dpi_turkiye.Dns.Clients.{Wire, exchange_of}
use spoof_dpi_turkiye.Dns.Provenance.{From}
use spoof_dpi_turkiye.Dns.Upstreams.{Configured, bypass_chain-Configured, q_types-small}
use spoof_dpi_turkiye.Dns.Cached.{Raced, Returns, resolve-From}
use spoof_dpi_turkiye.Packet.Http.{HttpError, ParsedRequest, HttpRequest, read_http_request}
use spoof_dpi_turkiye.Handler.Serve.{Network}
use spoof_dpi_turkiye.Proxy.{pattern_matches, handle}
use spoof_dpi_turkiye.Proxy.Origin.{AllDials, handle-answered}

-- The address is in a reply to a query for the host, and the upstream that gave it is one that the
-- configuration names.
abbrev pub RepliedBy : Wire → DnsConfig → Bytes → IpAddr → Type 0
RepliedBy w c host x =
    (u : Upstream) × (ex : Query → Result Error (Option Msg)) × (q : ℕ) × (m : Option Msg)
    × Configured c u
    × (exchange_of w u ≡ some ex)
    × Mem q (q_types c)
    × (ex (new_msg w.fqdn host q) ≡ ok m)
    × Mem x (parse_addrs_from_msg m)

module _ {ℓ κ} {A : Type ℓ} (P : A → Type κ) where
  All-member : (xs : List A) {x : A} → All P xs → Mem x xs → ∥ P x ∥₁
  All-member [] h m = absurd (not-mem-nil m)
  All-member (y ∷ xs) h m =
      Or.elim ∥∥₁_prop (eq-or-mem_of_mem-cons m) (λ e. ∣ subst P (sym e) h.0 ∣₁)
        (λ later. All-member xs h.1 later)

From-RepliedBy :
    (w : Wire) (src_addrs : List IpAddr → List SrcInfo) (c : DnsConfig) (host : Bytes) (x : IpAddr)
    → ∥ From w src_addrs (new_dns c) host x ∥₁
    → ∥ RepliedBy w c host x ∥₁
unfolding new_dns
From-RepliedBy w src_addrs c host x from =
    ∥∥₁_elim from ∥∥₁_prop (λ (u, ex, q, m, member, own, wanted, heard, within).
      ∥∥₁_map (All-member (Configured c) (bypass_chain c) (bypass_chain-Configured c) member)
        (λ named. (u, ex, q, m, named, own, wanted, heard, within)))

module _ (parse : Bytes → Result HttpError ParsedRequest)
    (split_host_port : Bytes → Option (Bytes × Bytes)) (parse_ip : Bytes → Option Bytes)
    (ip_string : Bytes → Bytes) (addr_string : IpAddr → Bytes)
    (interface_addrs : Option (List Bytes)) (c : Config)
    (bypass : Bytes × (Bytes → List ℕ → Answer)) (w : Wire)
    (src_addrs : List IpAddr → List SrcInfo) where
  abbrev resolver : Dns
  resolver = new_dns (dns_config c)

  -- Suppose that `src_addrs` gives one source for each address, and that the lookups behind the
  -- cache are races of the configured upstreams for the host of their key. Then, under any
  -- configuration, after any interleaving of connections that use the cache and any passage of
  -- time, `handle` of a request whose host is a name that matches an allowed pattern dials nothing
  -- but addresses from replies to queries for this very name, for one of the types that `NewDns`
  -- asks for, and each reply is from a server that the DNS address or a fallback of the configuration
  -- stands for, or from its DNS-over-HTTPS service, if that is switched on. This is so in whichever
  -- way the cache returns to the connection, and whatever the system resolver would reply.
  pub handle-configured :
      (system : Bytes × (Bytes → List ℕ → Answer)) (net : Network) (pkt : HttpRequest)
      (rest : Bytes) (range : MapRange) {s : Machine}
      → ((xs : List IpAddr) → length (src_addrs xs) ≡ length xs)
      → Reach range (start resolver.pos_ttl resolver.neg_ttl resolver.max_size) s
      → All (Raced w src_addrs resolver) s.log
      → read_http_request parse split_host_port net.stream ≡ ok (pkt, rest)
      → pattern_matches (new_proxy c) pkt.domain ≡ true
      → parse_ip pkt.domain ≡ none
      → Returns w src_addrs resolver s pkt.domain (bypass.1 pkt.domain resolver.q_types)
      → AllDials
          (λ ip. (x : IpAddr) × ∥ RepliedBy w (dns_config c) pkt.domain x ∥₁ × (ip ≡ addr_string x))
          (handle parse split_host_port parse_ip ip_string addr_string interface_addrs
            (new_proxy c)
            resolver
            bypass
            system
            net)
  unfolding new_dns
  handle-configured system net pkt rest range sized reach raced read matches named returns =
      handle-answered parse split_host_port parse_ip ip_string addr_string interface_addrs
        (new_proxy c) resolver bypass (λ x. ∥ RepliedBy w (dns_config c) pkt.domain x ∥₁) system net
        pkt rest read matches named
        (All-map (From-RepliedBy w src_addrs (dns_config c) pkt.domain)
          (bypass.1 pkt.domain resolver.q_types).addrs
          (resolve-From w src_addrs resolver range pkt.domain sized (q_types-small (dns_config c))
            reach raced (bypass.1 pkt.domain resolver.q_types) returns))
