-- ===== src/Proxy/Literal.antt =====
-- Requests for an IPv4 address, with the functions of package net that the code calls
-- (proxy/proxy.go, packet/http.go and dns/dns.go).
mod Tests
use spoof_dpi_turkiye.Prelude.{
  ℕ, ◌+◌, ◌<◌, ◌≤◌, ◌≡◌, refl, ap, sym, ◌∙◌, Bool, not, List, [], ◌∷◌, ◌++◌, Option, some, Result,
  ok, Bytes, if◌then◌else◌, itoa, read-itoa, is_plain, join_host_port, split_host_port,
  split_host_port-join_host_port, arith, ◌==◌, false,
}
use spoof_dpi_turkiye.AddrSelect.Ip.{mapped_prefix}
use spoof_dpi_turkiye.Resolver.Answer.{Answer}
use spoof_dpi_turkiye.Net.{parse_ip}
use spoof_dpi_turkiye.Net.Text.{ip_string, addr_string}
use spoof_dpi_turkiye.Net.Literal.{parse_ip-ip_string, ip_string-mapped, contains-ip_string}
use spoof_dpi_turkiye.Dns.{Dns, resolve_host}
use spoof_dpi_turkiye.Dns.Resolve.{resolve_host-parsed}
use spoof_dpi_turkiye.Packet.Http.{
  HttpError, ParsedRequest, HttpRequest, read_headers, path_of, host_parts, read_http_request, tidy,
  is_valid_method,
}
use spoof_dpi_turkiye.Handler.Port.{port_of}
use spoof_dpi_turkiye.Handler.Port.Decimal.{port_of-itoa, is_plain_digit}
use spoof_dpi_turkiye.Handler.Serve.{Network, served, close_client}
use spoof_dpi_turkiye.Proxy.{
  Proxy, pattern_matches, handle_ip, handle_found, handle_request, handle,
}
use spoof_dpi_turkiye.Proxy.Origin.{AllDialsAt, handle_request-AllDialsAt}

-- A name and its resolver.
abbrev pub Client : Type 0
Client = Bytes × (Bytes → List ℕ → Answer)

module _ (a b c e n : ℕ) (la : a < 256) (lb : b < 256) (lc : c < 256) (le : e < 256) (lo : 1 ≤ n)
    (hi : n ≤ 65535) where
  abbrev pub address : Bytes
  address = ip_string (a ∷ b ∷ c ∷ e ∷ [])

  resolve_host-literal :
      (d : Dns) (bypass system : Client) (use_system : Bool)
      → resolve_host parse_ip ip_string addr_string d bypass system address use_system ≡ ok address
  resolve_host-literal d bypass system use_system =
      resolve_host-parsed parse_ip ip_string addr_string d bypass system address use_system
        (mapped_prefix ++ a ∷ b ∷ c ∷ e ∷ []) (parse_ip-ip_string a b c e la lb lc le)
      ∙ ap ok (ip_string-mapped a b c e)

  split_host_port-literal :
      split_host_port (join_host_port address (itoa n)) ≡ some (address, itoa n)
  split_host_port-literal =
      split_host_port-join_host_port address (itoa n)
        (contains-ip_string b'[' a b c e la lb lc le (λ k lt. ground arith) refl)
        (contains-ip_string b']' a b c e la lb lc le (λ k lt. ground arith) refl)
        (read-itoa (λ acc. is_plain) is_plain_digit n)

  -- The request that is read.
  abbrev request_to : Bytes → ParsedRequest → HttpRequest
  request_to raw q = record {
    raw = raw;
    method = q.method;
    domain = address;
    port = itoa n;
    path = path_of q;
    version = q.proto;
  }

  module _ (parse : Bytes → Result HttpError ParsedRequest) where
    read_http_request-literal :
        (stream raw rest : Bytes) (q : ParsedRequest)
        → read_headers [] [] stream ≡ ok (raw, rest)
        → parse raw ≡ ok q
        → q.host ≡ join_host_port address (itoa n)
        → read_http_request parse split_host_port stream ≡ ok (request_to raw q, rest)
    unfolding read_http_request
    read_http_request-literal stream raw rest q read parsed is_host =
        let parts : host_parts (split_host_port q.host) q.host ≡ (address, itoa n) =
          ap (λ o. host_parts o q.host) (ap split_host_port is_host ∙ split_host_port-literal) in
        rw (read, read_http_request, parsed, parts) refl

    module _ (interface_addrs : Option (List Bytes)) (pxy : Proxy) (d : Dns) where
      handle_request-literal :
          (bypass system bypass' system' : Client) (net : Network) (pkt : HttpRequest)
          → pkt.domain ≡ address
          → handle_request parse split_host_port parse_ip ip_string addr_string interface_addrs pxy
              d bypass system net pkt
            ≡ handle_request parse split_host_port parse_ip ip_string addr_string interface_addrs
                pxy d bypass' system' net pkt
      unfolding handle_request handle_found handle_ip
      handle_request-literal bypass system bypass' system' net pkt is_address =
          let use_system = not (pattern_matches pxy pkt.domain) in
          ap
            (λ found.
              if not (is_valid_method pkt)
              then served net.server (close_client ∷ [])
              else handle_found parse split_host_port parse_ip ip_string addr_string interface_addrs
                  pxy d bypass net pkt found)
            (ap
                (λ name.
                  resolve_host parse_ip ip_string addr_string d bypass system name use_system)
                is_address
              ∙ resolve_host-literal d bypass system use_system
              ∙ sym (resolve_host-literal d bypass' system' use_system)
              ∙ ap
                  (λ name.
                    resolve_host parse_ip ip_string addr_string d bypass' system' name use_system)
                  (sym is_address))

      -- For a request whose host is the text of an IPv4 address with a port from 1 to 65535,
      -- `handle` with the functions of package net dials nothing but that address at that port, and
      -- does the same whatever the resolvers would reply, whether or not a pattern matches the
      -- address.
      pub handle-literal :
          (bypass system bypass' system' : Client) (net : Network) (raw rest : Bytes)
          (q : ParsedRequest)
          → read_headers [] [] net.stream ≡ ok (raw, rest)
          → parse raw ≡ ok q
          → q.host ≡ join_host_port address (itoa n)
          → AllDialsAt
              (λ ip port. (ip ≡ address) × (port ≡ n))
              (handle parse split_host_port parse_ip ip_string addr_string interface_addrs pxy d
                bypass system net)
            × (handle parse split_host_port parse_ip ip_string addr_string interface_addrs pxy d
                  bypass system net
                ≡ handle parse split_host_port parse_ip ip_string addr_string interface_addrs pxy d
                    bypass' system' net)
      unfolding handle tidy
      handle-literal bypass system bypass' system' net raw rest q read parsed is_host =
          let net' = record net { stream = rest } in
          let pkt = request_to raw q in
          let request = read_http_request-literal net.stream raw rest q read parsed is_host in
          rw (request, handle)
            (
              handle_request-AllDialsAt parse split_host_port parse_ip ip_string addr_string
                  interface_addrs pxy d bypass (λ ip port. (ip ≡ address) × (port ≡ n)) system net'
                  (tidy pkt)
                  (λ ip found default port at.
                    let own =
                      resolve_host-literal d bypass system (not (pattern_matches pxy address)) in
                    let wanted = port_of-itoa default n lo hi in
                    (cc (found, own), cc (at, wanted))),
              handle_request-literal bypass system bypass' system' net' (tidy pkt) refl,
            )
