-- ===== src/Proxy/Opening/Tests.antt =====
-- A run of the theorem on CONNECT requests (proxy/proxy.go).
use spoof_dpi_turkiye.Prelude.{
  bytes, ◌≡◌, refl, [], ◌∷◌, ◌++◌, none, Result, ok, Bytes, take, drop, itoa,
}
use spoof_dpi_turkiye.Packet.Tls.{
  TlsMessage, read_tls_message, read_full, read_payload, header_of, is_client_hello,
}
use spoof_dpi_turkiye.Packet.Http.{
  HttpError, ParsedRequest, HttpRequest, read_headers, read_http_request, is_connect_method,
}
use spoof_dpi_turkiye.Handler.Port.{port_of}
use spoof_dpi_turkiye.Handler.Serve.{Network}
use spoof_dpi_turkiye.Dns.{resolve_host, first_address}
use spoof_dpi_turkiye.Proxy.{pattern_matches, handle}
use spoof_dpi_turkiye.Proxy.Opening.{Opens, handler_for, handle-Opens}
use spoof_dpi_turkiye.Proxy.Tests.{
  no_port, no_ip, same, text_of, pxy, resolvers, found, forged, network, request,
}

abbrev parse_connect : Bytes → Result HttpError ParsedRequest
parse_connect raw = ok record {
  method = bytes "CONNECT";
  proto = bytes "HTTP/1.1";
  host = bytes "a";
  url_path = bytes "/";
  raw_query = [];
  raw_fragment = [];
}

abbrev record_sent : Bytes
record_sent = 0x16 ∷ 3 ∷ 1 ∷ 0 ∷ 7 ∷ 1 ∷ 0 ∷ 0 ∷ 3 ∷ 3 ∷ 3 ∷ 9 ∷ []

-- The request, a ClientHello of three chunks, and a server that takes four writes.
abbrev opened : Network
opened = record network {
  stream = network.stream ++ record_sent;
  server = record { sent = []; faults = none ∷ none ∷ none ∷ none ∷ [] };
}

abbrev connect : HttpRequest
connect = record request { method = bytes "CONNECT" }

abbrev hello : TlsMessage
hello = record {
  header = header_of record_sent;
  raw = record_sent;
  raw_header = take 5 record_sent;
  raw_payload = drop 5 record_sent;
}

connect-read : read_http_request parse_connect no_port opened.stream ≡ ok (connect, record_sent)
unfolding read_http_request read_headers
connect-read = refl

hello-read : read_tls_message record_sent ≡ ok (hello, [])
unfolding read_tls_message read_full read_payload
hello-read = refl

handle-Opens_example :
    Opens opened connect
      (bytes "5.6.7.8")
      443
      hello
      (handler_for pxy (bytes "a"))
      (handle parse_connect no_port no_ip same text_of none pxy resolvers found forged opened)
unfolding is_connect_method is_client_hello resolve_host first_address pattern_matches port_of itoa
handle-Opens_example =
    handle-Opens parse_connect no_port no_ip same text_of none pxy resolvers found forged opened
      connect record_sent (bytes "5.6.7.8") 443 hello [] connect-read refl refl refl refl refl refl
      hello-read refl (refl, (refl, (refl, (refl, tt))))
