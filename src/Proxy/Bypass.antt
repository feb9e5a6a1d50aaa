-- ===== src/Proxy/Bypass.antt =====
-- Bypassed hosts and the system resolver (proxy/proxy.go and dns/dns.go).
use spoof_dpi_turkiye.Prelude.{
  ℕ, ◌≡◌, refl, ap, Bool, true, false, not, List, [], ◌∷◌, Option, Result, ok, Bytes, if◌then◌else◌,
}
use spoof_dpi_turkiye.AddrSelect.Ip.{IpAddr}
use spoof_dpi_turkiye.Resolver.Answer.{Answer}
use spoof_dpi_turkiye.Dns.{Dns, resolve_host}
use spoof_dpi_turkiye.Packet.Http.{
  HttpError, ParsedRequest, HttpRequest, read_http_request, tidy, is_valid_method,
}
use spoof_dpi_turkiye.Handler.Serve.{Network, served, close_client}
use spoof_dpi_turkiye.Proxy.{Proxy, pattern_matches, handle_found, handle_request, handle}

module _ (parse : Bytes → Result HttpError ParsedRequest)
    (split_host_port : Bytes → Option (Bytes × Bytes)) (parse_ip : Bytes → Option Bytes)
    (ip_string : Bytes → Bytes) (addr_string : IpAddr → Bytes)
    (interface_addrs : Option (List Bytes)) (pxy : Proxy) (d : Dns)
    (bypass : Bytes × (Bytes → List ℕ → Answer)) where
  resolve_host-bypass :
      (system system' : Bytes × (Bytes → List ℕ → Answer)) (host : Bytes) (use_system : Bool)
      → use_system ≡ false
      → resolve_host parse_ip ip_string addr_string d bypass system host use_system
        ≡ resolve_host parse_ip ip_string addr_string d bypass system' host use_system
  unfolding resolve_host
  resolve_host-bypass system system' host use_system e = rw e refl

  handle_request-bypass :
      (system system' : Bytes × (Bytes → List ℕ → Answer)) (net : Network) (pkt : HttpRequest)
      → pattern_matches pxy pkt.domain ≡ true
      → handle_request parse split_host_port parse_ip ip_string addr_string interface_addrs pxy d
          bypass system net pkt
        ≡ handle_request parse split_host_port parse_ip ip_string addr_string interface_addrs pxy d
            bypass system' net pkt
  unfolding handle_request
  handle_request-bypass system system' net pkt matches =
      ap
        (λ found.
          if not (is_valid_method pkt)
          then served net.server (close_client ∷ [])
          else handle_found parse split_host_port parse_ip ip_string addr_string interface_addrs pxy
              d bypass net pkt found)
        (resolve_host-bypass system system' pkt.domain _ (ap not matches))

  -- When the request's domain matches an allowed pattern, or there are no patterns, what
  -- `handle` does is the same for any two system resolvers: it does not depend on what the
  -- system resolver would reply.
  pub handle-bypass :
      (system system' : Bytes × (Bytes → List ℕ → Answer)) (net : Network) (pkt : HttpRequest)
      (rest : Bytes)
      → read_http_request parse split_host_port net.stream ≡ ok (pkt, rest)
      → pattern_matches pxy pkt.domain ≡ true
      → handle parse split_host_port parse_ip ip_string addr_string interface_addrs pxy d bypass
          system net
        ≡ handle parse split_host_port parse_ip ip_string addr_string interface_addrs pxy d bypass
            system' net
  unfolding handle tidy
  handle-bypass system system' net pkt rest read matches =
      rw (read, handle)
        (handle_request-bypass system system' (record net { stream = rest }) (tidy pkt) matches)
