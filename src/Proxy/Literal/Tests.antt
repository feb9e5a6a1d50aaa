-- ===== src/Proxy/Literal/Tests.antt =====
-- A run of the theorem on requests for an IPv4 address (proxy/proxy.go).
use spoof_dpi_turkiye.Prelude.{
  bytes, ◌≡◌, refl, arith, ◌∷◌, [], none, Result, ok, Bytes, split_host_port, join_host_port, itoa,
  digits_from,
}
use spoof_dpi_turkiye.AddrSelect.Ip.{to4}
use spoof_dpi_turkiye.Net.{parse_ip}
use spoof_dpi_turkiye.Net.Text.{ip_string, dotted, addr_string}
use spoof_dpi_turkiye.Packet.Http.{HttpError, ParsedRequest, read_headers}
use spoof_dpi_turkiye.Proxy.{handle}
use spoof_dpi_turkiye.Proxy.Origin.{AllDialsAt}
use spoof_dpi_turkiye.Proxy.Literal.{handle-literal}
use spoof_dpi_turkiye.Proxy.Tests.{pxy, resolvers, found, forged, network}

abbrev connect : ParsedRequest
connect = record {
  method = bytes "CONNECT";
  proto = bytes "HTTP/1.1";
  host = bytes "1.20.3.254:443";
  url_path = [];
  raw_query = [];
  raw_fragment = [];
}

abbrev parse_connect : Bytes → Result HttpError ParsedRequest
parse_connect raw = ok connect

network-read : read_headers [] [] network.stream ≡ ok (network.stream, [])
unfolding read_headers
network-read = refl

handle-literal_example :
    AllDialsAt
      (λ ip port. (ip ≡ ip_string (1 ∷ 20 ∷ 3 ∷ 254 ∷ [])) × (port ≡ 443))
      (handle parse_connect split_host_port parse_ip ip_string addr_string none pxy resolvers found
        forged network)
    × (handle parse_connect split_host_port parse_ip ip_string addr_string none pxy resolvers found
          forged network
        ≡ handle parse_connect split_host_port parse_ip ip_string addr_string none pxy resolvers
            forged found network)
unfolding ip_string to4 dotted join_host_port itoa digits_from
handle-literal_example =
    handle-literal 1 20 3 254 443 (ground arith) (ground arith) (ground arith) (ground arith)
      (ground arith) (ground arith) parse_connect none pxy resolvers found forged forged found
      network network.stream [] connect network-read refl refl
