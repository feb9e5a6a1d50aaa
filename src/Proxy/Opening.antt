-- ===== src/Proxy/Opening.antt =====
-- A CONNECT request from the accept loop to the tunnel (proxy/proxy.go and proxy/handler/https.go).
mod Tests
use spoof_dpi_turkiye.Prelude.{
  ℕ, ◌≡◌, refl, ap, sym, ◌∙◌, Bool, true, false, not, ◌&&◌, List, [], ◌∷◌, ◌++◌, Option, some,
  Result, ok, Bytes, bytes, bytes_eq, bytes_eq→eq, drop, itoa, if◌then◌else◌,
}
use spoof_dpi_turkiye.AddrSelect.Ip.{IpAddr}
use spoof_dpi_turkiye.Resolver.Answer.{Answer}
use spoof_dpi_turkiye.Dns.{Dns, resolve_host}
use spoof_dpi_turkiye.Packet.Tls.{TlsMessage, read_tls_message, is_client_hello}
use spoof_dpi_turkiye.Packet.Http.{
  HttpError, ParsedRequest, HttpRequest, read_http_request, tidy, valid_methods, listed,
  is_valid_method, is_connect_method,
}
use spoof_dpi_turkiye.Handler.Port.{port_of}
use spoof_dpi_turkiye.Handler.Serve.{Network, Served, HttpsHandler, new_https_handler, serve_https}
use spoof_dpi_turkiye.Handler.Serve.Opening.{session, serve_https-opens}
use spoof_dpi_turkiye.Handler.Serve.Writes.{Steady, hello_writes}
use spoof_dpi_turkiye.Proxy.{
  Proxy, pattern_matches, is_looped_request, handle_ip, handle_found, handle_request, handle,
}

is_connect_method-is_valid_method :
    (pkt : HttpRequest) → is_connect_method pkt ≡ true → is_valid_method pkt ≡ true
unfolding is_connect_method is_valid_method
is_connect_method-is_valid_method pkt connect =
    ap (λ s. listed s valid_methods) (bytes_eq→eq pkt.method (bytes "CONNECT") connect)

-- The handler that is made for a domain.
abbrev pub handler_for : Proxy → Bytes → HttpsHandler
handler_for pxy domain = new_https_handler pxy.timeout pxy.window_size (pattern_matches pxy domain)

-- The events of a session, with the ClientHello sent behind what the server had been sent before, in
-- the number of writes that the handler takes for it.
abbrev pub Opens : Network → HttpRequest → Bytes → ℕ → TlsMessage → HttpsHandler → Served → Type 0
Opens net pkt ip port m h s =
    (s.events ≡ session pkt ip port)
    × (s.server.sent ≡ net.server.sent ++ m.raw)
    × (s.server.faults ≡ drop (hello_writes h m.raw) net.server.faults)

-- The request names the proxy's own port, and the address is one of its own.
abbrev pub comes_back : Proxy → Option (List Bytes) → Option Bytes → HttpRequest → Bool
comes_back pxy interface_addrs ip pkt =
    bytes_eq pkt.port (itoa pxy.port) && is_looped_request interface_addrs ip

module _ (parse : Bytes → Result HttpError ParsedRequest)
    (split_host_port : Bytes → Option (Bytes × Bytes)) (parse_ip : Bytes → Option Bytes)
    (ip_string : Bytes → Bytes) (addr_string : IpAddr → Bytes)
    (interface_addrs : Option (List Bytes)) (pxy : Proxy) (d : Dns)
    (bypass system : Bytes × (Bytes → List ℕ → Answer)) where
  handle_request-connect :
      (net : Network) (pkt : HttpRequest) (ip : Bytes)
      → is_connect_method pkt ≡ true
      → resolve_host parse_ip ip_string addr_string d bypass system pkt.domain
          (not (pattern_matches pxy pkt.domain))
        ≡ ok ip
      → comes_back pxy interface_addrs (parse_ip ip) pkt ≡ false
      → handle_request parse split_host_port parse_ip ip_string addr_string interface_addrs pxy d
          bypass system net pkt
        ≡ serve_https (handler_for pxy pkt.domain) net pkt ip
  unfolding handle_request handle_found handle_ip
  handle_request-connect net pkt ip connect found apart =
      rw (is_connect_method-is_valid_method pkt connect, handle_request, found, apart, connect) refl

  -- For a CONNECT request whose host is resolved to an address that is not the proxy's own at its
  -- own port: when the request names a port to dial, the dial succeeds, the client takes the reply
  -- and sends a ClientHello, and no write fails, `handle` dials this address at this port, replies,
  -- opens the tunnel and closes both connections, and the server has been sent the ClientHello, in
  -- one write, or in as many as it has chunks if the domain is to be bypassed.
  pub handle-Opens :
      (net : Network) (pkt : HttpRequest) (rest ip : Bytes) (port : ℕ) (m : TlsMessage)
      (later : Bytes)
      → read_http_request parse split_host_port net.stream ≡ ok (pkt, rest)
      → is_connect_method pkt ≡ true
      → resolve_host parse_ip ip_string addr_string d bypass system pkt.domain
          (not (pattern_matches pxy pkt.domain))
        ≡ ok ip
      → comes_back pxy interface_addrs (parse_ip ip) pkt ≡ false
      → port_of 443 pkt.port ≡ some port
      → net.dials ≡ true
      → net.takes_reply ≡ true
      → read_tls_message rest ≡ ok (m, later)
      → is_client_hello m ≡ true
      → Steady net.server.faults
      → Opens net pkt ip port m (handler_for pxy pkt.domain) (
          handle parse split_host_port parse_ip ip_string addr_string interface_addrs pxy d bypass
            system net)
  unfolding handle tidy is_connect_method
  handle-Opens net pkt rest ip port m later request connect found apart at dials takes read client
        steady =
      rw
        (
          request,
          handle,
          handle_request-connect (record net { stream = rest }) (tidy pkt) ip connect found apart,
        )
        (serve_https-opens (handler_for pxy pkt.domain) (record net { stream = rest }) (tidy pkt) ip
          port m later at dials takes read client steady)
