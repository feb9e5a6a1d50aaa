-- ===== src/Proxy.antt =====
-- Package proxy: the accept loop and what is done with a connection (proxy/proxy.go). Log lines are
-- left out, and so is the recovery from a panic.
pub mod Backoff
pub mod Closing
pub mod Configured
pub mod Bypass
pub mod Loops
pub mod Literal
pub mod Opening
pub mod Origin
pub mod Tests
use spoof_dpi_turkiye.Prelude.{
  bytes, ℕ, ◌+◌, ◌*◌, Bool, true, false, not, ◌&&◌, ◌||◌, List, [], ◌∷◌, ◌++◌, Option, none, some,
  Result, ok, err, Bytes, bytes_eq, itoa, get_or, length, ltb, ◌==◌, if◌then◌else◌,
}
use spoof_dpi_turkiye.AddrSelect.Ip.{IpAddr, to4, loopback6, mapped_prefix}
use spoof_dpi_turkiye.Resolver.Answer.{Error, Answer}
use spoof_dpi_turkiye.Dns.{Dns, resolve_host}
use spoof_dpi_turkiye.Packet.Http.{
  cr, lf, HttpError, ParsedRequest, HttpRequest, read_http_request, tidy, is_valid_method,
  is_connect_method,
}
use spoof_dpi_turkiye.Handler.Serve.{
  Network, reply, close_client, Served, served, new_https_handler, serve_http, serve_https,
}

-- What `l.Accept` returns: a connection, a timeout, `net.ErrClosed` or another error.
pub data Accept : Type 0 where
  conn timeout closed failed : Accept

-- What `Start` does: it listens, with no address for all of them, starts `handle`, sleeps for a
-- number of milliseconds, or returns without or with an error.
pub data Started : Type 0 where
  listens : Option Bytes → ℕ → Started
  handles : Started
  sleeps : ℕ → Started
  returns fails : Started

unfoldable pub next_delay : ℕ → ℕ
next_delay temp_delay =
    let delay = if temp_delay == 0 then 5 else temp_delay * 2 in
    if ltb 1000 delay then 1000 else delay

-- The accept loop, by what `Accept` returns from now on.
unfoldable pub accept_loop : ℕ → List Accept → List Started
accept_loop temp_delay [] = []
accept_loop temp_delay (conn ∷ es) = handles ∷ accept_loop 0 es
accept_loop temp_delay (timeout ∷ es) =
    sleeps (next_delay temp_delay) ∷ accept_loop (next_delay temp_delay) es
accept_loop temp_delay (closed ∷ es) = returns ∷ []
accept_loop temp_delay (failed ∷ es) = fails ∷ []

-- An allowed pattern is what `Match` says of a text; `none` is the nil slice.
pub record Proxy : Type 0 where
  pub addr : Bytes
  pub port : ℕ
  pub timeout : ℕ
  pub window_size : ℕ
  pub allowed_pattern : Option (List (Bytes → Bool))

-- `Start`, by whether the listener can be had; `net.ParseIP` gives the nil address for a text that is
-- none.
unfoldable pub start : (Bytes → Option Bytes) → Proxy → Bool → List Accept → List Started
unfolding accept_loop
start parse_ip pxy listening es =
    listens (parse_ip pxy.addr) pxy.port ∷ (if listening then accept_loop 0 es else fails ∷ [])

unfoldable pub any_match : List (Bytes → Bool) → Bytes → Bool
any_match [] b = false
any_match (pattern ∷ patterns) b = pattern b || any_match patterns b

unfoldable pub pattern_matches : Proxy → Bytes → Bool
pattern_matches pxy b = elim pxy.allowed_pattern [
  | none ↦ true
  | some patterns ↦ any_match patterns b
]

-- `net.IP.IsLoopback`
abbrev pub ip_is_loopback : Bytes → Bool
ip_is_loopback ip = elim (to4 ip) [ none ↦ bytes_eq ip loopback6 | some b ↦ get_or b 0 0 == 127 ]

-- `net.IP.Equal`
abbrev pub ip_equal : Bytes → Bytes → Bool
ip_equal ip x =
    if length ip == length x
    then bytes_eq ip x
    else if length ip == 4 && length x == 16
    then bytes_eq (mapped_prefix ++ ip) x
    else if length ip == 16 && length x == 4
    then bytes_eq ip (mapped_prefix ++ x)
    else false

abbrev pub any_equal : List Bytes → Bytes → Bool
any_equal [] ip = false
any_equal (a ∷ addrs) ip = ip_equal a ip || any_equal addrs ip

-- By what `net.InterfaceAddrs` returns, its addresses that are an `IPNet`.
unfoldable pub is_looped_request : Option (List Bytes) → Option Bytes → Bool
is_looped_request addrs none = false
is_looped_request none (some ip) = ip_is_loopback ip
is_looped_request (some addrs) (some ip) = ip_is_loopback ip || any_equal addrs ip

abbrev pub bad_gateway : HttpRequest → Bytes
bad_gateway pkt = pkt.version ++ bytes " 502 Bad Gateway" ++ (cr ∷ lf ∷ cr ∷ lf ∷ [])

module _ (parse : Bytes → Result HttpError ParsedRequest)
    (split_host_port : Bytes → Option (Bytes × Bytes)) (parse_ip : Bytes → Option Bytes)
    (ip_string : Bytes → Bytes) (addr_string : IpAddr → Bytes)
    (interface_addrs : Option (List Bytes)) (pxy : Proxy) (d : Dns)
    (bypass : Bytes × (Bytes → List ℕ → Answer)) where
  -- From the test for a loop on.
  unfoldable pub handle_ip : Network → HttpRequest → Bytes → Served
  handle_ip net pkt ip =
      if bytes_eq pkt.port (itoa pxy.port) && is_looped_request interface_addrs (parse_ip ip)
      then served net.server (close_client ∷ [])
      else if is_connect_method pkt
      then serve_https
          (new_https_handler pxy.timeout pxy.window_size (pattern_matches pxy pkt.domain)) net pkt
          ip
      else serve_http net pkt ip

  -- From the test of `err` on, by what `ResolveHost` returns.
  unfoldable pub handle_found : Network → HttpRequest → Result Error Bytes → Served
  handle_found net pkt (err e) = served net.server (reply (bad_gateway pkt) ∷ close_client ∷ [])
  handle_found net pkt (ok ip) = handle_ip net pkt ip

  -- From the test of the method on, for a request that is tidy.
  unfoldable pub handle_request : Bytes × (Bytes → List ℕ → Answer) → Network → HttpRequest → Served
  unfolding handle_found
  handle_request system_client net pkt =
      let use_system_dns = not (pattern_matches pxy pkt.domain) in
      let found =
        resolve_host parse_ip ip_string addr_string d bypass system_client pkt.domain
          use_system_dns in
      if not (is_valid_method pkt)
      then served net.server (close_client ∷ [])
      else handle_found net pkt found

  -- `handle` reads the request from the client's stream and leaves the rest to the handler.
  unfoldable pub handle : Bytes × (Bytes → List ℕ → Answer) → Network → Served
  handle system_client net = elim (read_http_request parse split_host_port net.stream) [
    | err e ↦ served net.server (close_client ∷ [])
    | ok (pkt, rest) ↦ handle_request system_client (record net { stream = rest }) (tidy pkt)
  ]
