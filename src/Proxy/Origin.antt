-- ===== src/Proxy/Origin.antt =====
-- The addresses that are dialled for a host that is bypassed (proxy/proxy.go).
use spoof_dpi_turkiye.Prelude.{
  ℕ, ◌≡◌, refl, ap, sym, ◌∙◌, Bool, true, false, not, List, [], ◌∷◌, Option, none, some, Result, ok,
  err, Bytes, All, length, if_both,
}
use spoof_dpi_turkiye.AddrSelect.Ip.{IpAddr}
use spoof_dpi_turkiye.AddrSelect.Rules.{SrcInfo}
use spoof_dpi_turkiye.Resolver.Answer.{Error, Answer}
use spoof_dpi_turkiye.Resolver.Chain.{Signal, chain_resolve}
use spoof_dpi_turkiye.Dns.{Dns, resolve_host}
use spoof_dpi_turkiye.Dns.Clients.{Wire}
use spoof_dpi_turkiye.Dns.Provenance.{From, ReportedSignal, chain_resolve-From}
use spoof_dpi_turkiye.Dns.Resolve.{resolve_host-All}
use spoof_dpi_turkiye.Packet.Tls.{TlsMessage, TlsError, is_client_hello, read_tls_message}
use spoof_dpi_turkiye.Packet.Http.{HttpError, ParsedRequest, HttpRequest, read_http_request, tidy}
use spoof_dpi_turkiye.Handler.Chunks.{Conn}
use spoof_dpi_turkiye.Handler.Port.{port_of}
use spoof_dpi_turkiye.Handler.Serve.{
  Network, Event, dial, reply, tunnel, close_client, close_server, Served, served, close_both,
  send_hello, HttpsHandler, new_https_handler, finish, http_dial, serve_http, client_hello,
  https_hello, https_dial, serve_https,
}
use spoof_dpi_turkiye.Proxy.{
  Proxy, pattern_matches, handle_ip, handle_found, handle_request, handle,
}

module _ (P : Bytes → ℕ → Type 0) where
  abbrev pub DialsTo : Event → Type 0
  DialsTo (dial ip port) = P ip port
  DialsTo (reply text) = Unit
  DialsTo tunnel = Unit
  DialsTo close_client = Unit
  DialsTo close_server = Unit

  -- Every address and port that is dialled has the property.
  abbrev pub AllDialsAt : Served → Type 0
  AllDialsAt s = All DialsTo s.events

  finish-AllDialsAt : (c : Conn) (b : Bool) → All DialsTo (finish c b)
  unfolding finish
  finish-AllDialsAt c true = (tt, (tt, tt))
  finish-AllDialsAt c false = (tt, (tt, (tt, tt)))

  refused-AllDialsAt : (c : Conn) → AllDialsAt (served c (close_client ∷ []))
  refused-AllDialsAt c = (tt, tt)

  serve_http-AllDialsAt :
      (net : Network) (pkt : HttpRequest) (ip : Bytes)
      → ((n : ℕ) → port_of 80 pkt.port ≡ some n → P ip n)
      → AllDialsAt (serve_http net pkt ip)
  unfolding serve_http http_dial
  serve_http-AllDialsAt net pkt ip p = go (port_of 80 pkt.port) p
    where
      go :
          (port : Option ℕ)
          → ((n : ℕ) → port ≡ some n → P ip n)
          → AllDialsAt (elim port [
            | none ↦ served net.server (close_client ∷ [])
            | some n ↦ http_dial net pkt ip n
          ])
      go none q = (tt, tt)
      go (some n) q =
          if_both AllDialsAt net.dials _ _ (q n refl, finish-AllDialsAt _ _) (q n refl, (tt, tt))

  client_hello-AllDialsAt :
      (h : HttpsHandler) (server : Conn) (r : Result TlsError (TlsMessage × Bytes))
      → AllDialsAt (client_hello h server r)
  unfolding client_hello
  client_hello-AllDialsAt h server (err e) = (tt, (tt, tt))
  client_hello-AllDialsAt h server (ok (m, rest)) =
      let (server', failed) = send_hello h server m.raw in
      if_both AllDialsAt (not (is_client_hello m)) (served server close_both)
        (served server' (finish server' failed)) (tt, (tt, tt)) (finish-AllDialsAt server' failed)

  serve_https-AllDialsAt :
      (h : HttpsHandler) (net : Network) (pkt : HttpRequest) (ip : Bytes)
      → ((n : ℕ) → port_of 443 pkt.port ≡ some n → P ip n)
      → AllDialsAt (serve_https h net pkt ip)
  unfolding serve_https https_dial https_hello
  serve_https-AllDialsAt h net pkt ip p = go (port_of 443 pkt.port) p
    where
      hello : AllDialsAt (client_hello h net.server (read_tls_message net.stream))
      hello = client_hello-AllDialsAt h net.server (read_tls_message net.stream)

      go :
          (port : Option ℕ)
          → ((n : ℕ) → port ≡ some n → P ip n)
          → AllDialsAt (elim port [
            | none ↦ served net.server (close_client ∷ [])
            | some n ↦ https_dial h net pkt ip n
          ])
      go none q = (tt, tt)
      go (some n) q =
          if_both AllDialsAt (not net.dials) _ _ (q n refl, (tt, tt))
            (if_both AllDialsAt (not net.takes_reply) _ _ (q n refl, (tt, (tt, (tt, tt))))
              (q n refl, (tt, hello)))

-- Every address that is dialled has the property.
abbrev pub AllDials : (Bytes → Type 0) → Served → Type 0
AllDials P = AllDialsAt (λ ip port. P ip)

module _ (parse : Bytes → Result HttpError ParsedRequest)
    (split_host_port : Bytes → Option (Bytes × Bytes)) (parse_ip : Bytes → Option Bytes)
    (ip_string : Bytes → Bytes) (addr_string : IpAddr → Bytes)
    (interface_addrs : Option (List Bytes)) (pxy : Proxy) (d : Dns)
    (bypass : Bytes × (Bytes → List ℕ → Answer)) where
  module _ (P : Bytes → ℕ → Type 0) where
    handle_ip-AllDialsAt :
        (net : Network) (pkt : HttpRequest) (ip : Bytes)
        → ((default n : ℕ) → port_of default pkt.port ≡ some n → P ip n)
        → AllDialsAt P (
            handle_ip parse split_host_port parse_ip ip_string addr_string interface_addrs pxy d
              bypass net pkt ip)
    unfolding handle_ip
    handle_ip-AllDialsAt net pkt ip p =
        let h = new_https_handler pxy.timeout pxy.window_size (pattern_matches pxy pkt.domain) in
        let https = serve_https-AllDialsAt P h net pkt ip (p 443) in
        let http = serve_http-AllDialsAt P net pkt ip (p 80) in
        search (if_both (AllDialsAt P), refused-AllDialsAt P, https, http)

    handle_found-AllDialsAt :
        (net : Network) (pkt : HttpRequest) (r : Result Error Bytes)
        → ((ip : Bytes) → r ≡ ok ip → (default n : ℕ) → port_of default pkt.port ≡ some n → P ip n)
        → AllDialsAt P (
            handle_found parse split_host_port parse_ip ip_string addr_string interface_addrs pxy d
              bypass net pkt r)
    unfolding handle_found
    handle_found-AllDialsAt net pkt (err e) p = (tt, (tt, tt))
    handle_found-AllDialsAt net pkt (ok ip) p = handle_ip-AllDialsAt net pkt ip (p ip refl)

    pub handle_request-AllDialsAt :
        (system : Bytes × (Bytes → List ℕ → Answer)) (net : Network) (pkt : HttpRequest)
        → ((ip : Bytes)
            → resolve_host parse_ip ip_string addr_string d bypass system pkt.domain
                (not (pattern_matches pxy pkt.domain))
              ≡ ok ip
            → (default n : ℕ) → port_of default pkt.port ≡ some n
            → P ip n)
        → AllDialsAt P (
            handle_request parse split_host_port parse_ip ip_string addr_string interface_addrs pxy
              d bypass system net pkt)
    unfolding handle_request
    handle_request-AllDialsAt system net pkt p =
        let found =
          resolve_host parse_ip ip_string addr_string d bypass system pkt.domain
            (not (pattern_matches pxy pkt.domain)) in
        search
          (if_both (AllDialsAt P), refused-AllDialsAt P, handle_found-AllDialsAt net pkt found p)

  -- The texts of the addresses that have the property.
  abbrev pub TextOf {κ} : (IpAddr → Type κ) → Bytes → Type κ
  TextOf P ip = (x : IpAddr) × P x × (ip ≡ addr_string x)

  pub handle-answered :
      (P : IpAddr → Type 0) (system : Bytes × (Bytes → List ℕ → Answer)) (net : Network)
      (pkt : HttpRequest) (rest : Bytes)
      → read_http_request parse split_host_port net.stream ≡ ok (pkt, rest)
      → pattern_matches pxy pkt.domain ≡ true
      → parse_ip pkt.domain ≡ none
      → All P (bypass.1 pkt.domain d.q_types).addrs
      → AllDials (TextOf P) (
          handle parse split_host_port parse_ip ip_string addr_string interface_addrs pxy d bypass
            system net)
  unfolding handle tidy
  handle-answered P system net pkt rest read matches named all =
      rw (read, handle)
        (handle_request-AllDialsAt (λ ip port. TextOf P ip) system (record net { stream = rest })
          (tidy pkt)
          (λ ip found default n at.
            resolve_host-All parse_ip ip_string addr_string d bypass system pkt.domain P ip named
              all
              (ap (λ b. resolve_host parse_ip ip_string addr_string d bypass system pkt.domain b)
                  (sym (ap not matches))
                ∙ found)))

  -- For a request whose host is a name that matches an allowed pattern, `handle` dials nothing but
  -- addresses that a configured upstream has put into a reply to a query for this very name and one
  -- of the wanted types, if the answer of the race comes from results of those upstreams: whatever
  -- the system resolver would reply, its addresses are not dialled.
  pub handle-From :
      (w : Wire) (src_addrs : List IpAddr → List SrcInfo)
      (system : Bytes × (Bytes → List ℕ → Answer)) (net : Network) (pkt : HttpRequest)
      (rest : Bytes) (names : List Bytes) (signals : List Signal)
      → ((xs : List IpAddr) → length (src_addrs xs) ≡ length xs)
      → read_http_request parse split_host_port net.stream ≡ ok (pkt, rest)
      → pattern_matches pxy pkt.domain ≡ true
      → parse_ip pkt.domain ≡ none
      → All (ReportedSignal w src_addrs d pkt.domain) signals
      → chain_resolve names signals ≡ some (bypass.1 pkt.domain d.q_types)
      → AllDials
          (λ ip. (x : IpAddr) × ∥ From w src_addrs d pkt.domain x ∥₁ × (ip ≡ addr_string x))
          (handle parse split_host_port parse_ip ip_string addr_string interface_addrs pxy d bypass
            system net)
  handle-From w src_addrs system net pkt rest names signals sized read matches named reports raced =
      handle-answered (λ x. ∥ From w src_addrs d pkt.domain x ∥₁) system net pkt rest read matches
        named
        (chain_resolve-From w src_addrs d pkt.domain sized names signals
          (bypass.1 pkt.domain d.q_types) reports raced)
