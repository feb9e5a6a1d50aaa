-- ===== src/Dns/Clients.antt =====
-- The upstreams that `NewDns` makes as clients (dns/dns.go, dns/resolver/general.go and
-- dns/resolver/doh.go). What goes over the wire is a parameter.
use spoof_dpi_turkiye.Prelude.{List, [], ◌∷◌, ◌++◌, map, Option, none, some, Result, Bytes, bytes}
use spoof_dpi_turkiye.Resolver.Answer.{Error}
use spoof_dpi_turkiye.Resolver.Lookup.{Msg, Query, exchange}
use spoof_dpi_turkiye.Resolver.Doh.{HttpResponse, Unpacked, doh_exchange}
use spoof_dpi_turkiye.Resolver.Doh.Client.{Url, DohResolver, new_doh_resolver}
use spoof_dpi_turkiye.Dns.{Upstream, general, doh, system}

-- The exchanges of the DNS library with a server, the requests that a DNS-over-HTTPS client makes,
-- the packing of messages, and URLs.
pub record Wire : Type 0 where
  pub udp : Bytes → Query → Result Error (Option Msg)
  pub tcp : Bytes → Query → Result Error (Option Msg)
  pub get : DohResolver → Bytes → Result Error HttpResponse
  pub pack : Query → Result Error Bytes
  pub unpack : Bytes → Result Error Unpacked
  pub parse_url : Bytes → Option Url
  pub url_string : Url → Bytes
  pub hostname : Url → Bytes
  pub fqdn : Bytes → Bytes

-- The method `exchange` of the resolver; the system's has none.
unfoldable pub exchange_of : Wire → Upstream → Option (Query → Result Error (Option Msg))
unfolding exchange doh_exchange new_doh_resolver
exchange_of w (general server) = some (exchange (w.udp server) (w.tcp server))
exchange_of w (doh url bootstrap_ip) =
    let r = new_doh_resolver w.parse_url w.url_string w.hostname url bootstrap_ip in
    some (doh_exchange w.pack (w.get r) w.unpack r.upstream)
exchange_of w system = none

-- The methods `String`, which name a client in errors.
unfoldable pub upstream_string : Wire → Upstream → Bytes
unfolding new_doh_resolver
upstream_string w (general server) = bytes "general(" ++ (server ++ bytes ")")
upstream_string w (doh url bootstrap_ip) =
    let r = new_doh_resolver w.parse_url w.url_string w.hostname url bootstrap_ip in
    bytes "doh(" ++ (r.upstream ++ bytes ")")
upstream_string w system = bytes "system"

-- `strings.Join` of the names
unfoldable pub join_names : List Bytes → Bytes
join_names [] = []
join_names (name ∷ []) = name
join_names (name ∷ next ∷ names) = name ++ b'|' ∷ join_names (next ∷ names)

unfoldable pub chain_string : Wire → List Upstream → Bytes
unfolding upstream_string join_names
chain_string w resolvers =
    bytes "chain[" ++ (join_names (map (upstream_string w) resolvers) ++ bytes "]")

unfoldable pub cache_string : Bytes → Bytes
cache_string inner = bytes "cache(" ++ (inner ++ bytes ")")
