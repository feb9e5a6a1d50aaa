-- ===== src/Proxy/Loops.antt =====
-- The test for a request that comes back to the proxy (proxy/proxy.go).
use spoof_dpi_turkiye.Prelude.{
  ℕ, ◌≡◌, refl, true, false, List, [], ◌∷◌, Option, Result, Bytes, itoa, bytes_eq,
}
use spoof_dpi_turkiye.AddrSelect.Ip.{IpAddr}
use spoof_dpi_turkiye.Resolver.Answer.{Answer}
use spoof_dpi_turkiye.Dns.{Dns}
use spoof_dpi_turkiye.Packet.Http.{HttpError, ParsedRequest, HttpRequest, is_connect_method}
use spoof_dpi_turkiye.Handler.Port.{port_of}
use spoof_dpi_turkiye.Handler.Serve.{Network, Event, dial, serve_http, http_dial}
use spoof_dpi_turkiye.Proxy.{Proxy, handle_ip}

-- The first thing done is to dial an address and a port.
abbrev pub Dials : Bytes → ℕ → List Event → Type 0
Dials ip port events = (rest : List Event) × (events ≡ dial ip port ∷ rest)

serve_http-Dials :
    (net : Network) (pkt : HttpRequest) (ip : Bytes)
    → pkt.port ≡ []
    → net.dials ≡ true
    → Dials ip 80 (serve_http net pkt ip).events
unfolding serve_http http_dial port_of
serve_http-Dials net pkt ip no_port dials = rw (no_port, dials) (_, refl)

module _ (parse : Bytes → Result HttpError ParsedRequest)
    (split_host_port : Bytes → Option (Bytes × Bytes)) (parse_ip : Bytes → Option Bytes)
    (ip_string : Bytes → Bytes) (addr_string : IpAddr → Bytes)
    (interface_addrs : Option (List Bytes)) (pxy : Proxy) (d : Dns)
    (bypass : Bytes × (Bytes → List ℕ → Answer)) where
  -- If the proxy listens on port 80, a request other than CONNECT whose host has no port makes
  -- it dial the host's address at port 80 before anything else, whatever that address is, its
  -- own included, when that dial succeeds.
  pub handle_ip-own_port :
      (net : Network) (pkt : HttpRequest) (ip : Bytes)
      → pxy.port ≡ 80
      → pkt.port ≡ []
      → is_connect_method pkt ≡ false
      → net.dials ≡ true
      → Dials ip 80
          (handle_ip parse split_host_port parse_ip ip_string addr_string interface_addrs pxy d
            bypass net pkt ip).events
  unfolding handle_ip itoa
  handle_ip-own_port net pkt ip own no_port other dials =
      let text : bytes_eq pkt.port (itoa pxy.port) ≡ false = rw (own, no_port) refl in
      rw (text, other) (serve_http-Dials net pkt ip no_port dials)
