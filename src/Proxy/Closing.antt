-- ===== src/Proxy/Closing.antt =====
-- How often `handle` closes a connection (proxy/proxy.go).
use spoof_dpi_turkiye.Prelude.{
  ℕ, ◌≤◌, ◌≡◌, List, Option, Result, ok, err, Bytes, arith, refl, [], ◌∷◌, if_both,
}
use spoof_dpi_turkiye.AddrSelect.Ip.{IpAddr}
use spoof_dpi_turkiye.Resolver.Answer.{Error, Answer}
use spoof_dpi_turkiye.Dns.{Dns}
use spoof_dpi_turkiye.Packet.Http.{HttpError, ParsedRequest, HttpRequest, read_http_request, tidy}
use spoof_dpi_turkiye.Handler.Chunks.{Conn}
use spoof_dpi_turkiye.Handler.Serve.{
  Network, Served, served, serve_http, serve_https, close_client, new_https_handler,
}
use spoof_dpi_turkiye.Handler.Serve.Closing.{
  client_closes, server_closes, dialled, serve_http-closes, serve_https-closes,
}
use spoof_dpi_turkiye.Proxy.{
  Proxy, pattern_matches, handle_ip, handle_found, handle_request, handle,
}

dialled-le : (n : ℕ) (net : Network) (pkt : HttpRequest) → dialled n net pkt ≤ 1
dialled-le n net pkt = ground arith

-- The client's connection is closed once, and the server's at most once.
abbrev pub Closes : Served → Type 0
Closes s = (client_closes s.events ≡ 1) × (server_closes s.events ≤ 1)

refused-Closes : (c : Conn) → Closes (served c (close_client ∷ []))
refused-Closes c = (refl, omega arith)

module _ (parse : Bytes → Result HttpError ParsedRequest)
    (split_host_port : Bytes → Option (Bytes × Bytes)) (parse_ip : Bytes → Option Bytes)
    (ip_string : Bytes → Bytes) (addr_string : IpAddr → Bytes)
    (interface_addrs : Option (List Bytes)) (pxy : Proxy) (d : Dns)
    (bypass : Bytes × (Bytes → List ℕ → Answer)) where
  handle_ip-Closes :
      (net : Network) (pkt : HttpRequest) (ip : Bytes)
      → Closes (
          handle_ip parse split_host_port parse_ip ip_string addr_string interface_addrs pxy d
            bypass net pkt ip)
  unfolding handle_ip
  handle_ip-Closes net pkt ip =
      let h = new_https_handler pxy.timeout pxy.window_size (pattern_matches pxy pkt.domain) in
      let (client, server) = serve_https-closes h net pkt ip in
      let (client', server') = serve_http-closes net pkt ip in
      let open_80 = dialled-le 80 net pkt in
      let open_443 = dialled-le 443 net pkt in
      let https : Closes (serve_https h net pkt ip) = (client, omega arith) in
      let http : Closes (serve_http net pkt ip) = (client', omega arith) in
      search (if_both Closes, refused-Closes, https, http)

  handle_found-Closes :
      (net : Network) (pkt : HttpRequest) (r : Result Error Bytes)
      → Closes (
          handle_found parse split_host_port parse_ip ip_string addr_string interface_addrs pxy d
            bypass net pkt r)
  unfolding handle_found
  handle_found-Closes net pkt (err e) = (refl, omega arith)
  handle_found-Closes net pkt (ok ip) = handle_ip-Closes net pkt ip

  handle_request-Closes :
      (system : Bytes × (Bytes → List ℕ → Answer)) (net : Network) (pkt : HttpRequest)
      → Closes (
          handle_request parse split_host_port parse_ip ip_string addr_string interface_addrs pxy d
            bypass system net pkt)
  unfolding handle_request
  handle_request-Closes system net pkt =
      search (if_both Closes, refused-Closes, handle_found-Closes net pkt)

  -- Whatever the client sends, the lookup gives and the network does, `handle` closes the
  -- client's connection exactly once and a server's at most once.
  pub handle-Closes :
      (system : Bytes × (Bytes → List ℕ → Answer)) (net : Network)
      → Closes (
          handle parse split_host_port parse_ip ip_string addr_string interface_addrs pxy d bypass
            system net)
  unfolding handle
  handle-Closes system net = go (read_http_request parse split_host_port net.stream)
    where
      go :
          (r : Result HttpError (HttpRequest × Bytes))
          → Closes (elim r [
            | err e ↦ served net.server (close_client ∷ [])
            | ok (pkt, rest) ↦
                handle_request parse split_host_port parse_ip ip_string addr_string interface_addrs
                  pxy d bypass system
                  (record net { stream = rest })
                  (tidy pkt)
          ])
      go (err e) = (refl, omega arith)
      go (ok (pkt, rest)) = handle_request-Closes system (record net { stream = rest }) (tidy pkt)
