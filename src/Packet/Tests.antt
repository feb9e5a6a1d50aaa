-- ===== src/Packet/Tests.antt =====
-- Runs of the theorems on package packet.
use spoof_dpi_turkiye.Prelude.{
  bytes, has_prefix, ◌+◌, ◌≤◌, ◌≡◌, refl, true, ◌&&◌, [], ◌∷◌, ◌++◌, ok, arith, Bytes, length, ◌==◌,
  Bool, not,
}
use spoof_dpi_turkiye.Packet.Tls.{header_of, read_tls_message, is_client_hello}
use spoof_dpi_turkiye.Packet.Tls.Exact.{read_tls_message-exact}
use spoof_dpi_turkiye.Packet.Tls.RoundTrip.{record_header, message_of, read_tls_message-record}
use spoof_dpi_turkiye.Packet.Http.{HttpRequest, cr, lf, read_headers, tidy}
use spoof_dpi_turkiye.Packet.Http.Headers.{IsHeader, read_headers-exact}
use spoof_dpi_turkiye.Packet.Http.Tidying.{NoCr, joined, ended, tidy-joined, tidy-bare_lf}

abbrev crlf : Bytes
crlf = cr ∷ lf ∷ []

abbrev payload : Bytes
payload = 1 ∷ 0 ∷ 0 ∷ 2 ∷ 3 ∷ 3 ∷ []

abbrev stream : Bytes
stream = record_header 22 769 6 ++ (payload ++ 23 ∷ [])

read_tls_message-record_example :
    (read_tls_message stream ≡ ok (message_of 22 769 payload, 23 ∷ []))
    × (is_client_hello (message_of 22 769 payload) ≡ true)
read_tls_message-record_example = read_tls_message-record 22 769 payload (23 ∷ []) (omega arith)

stream-read : read_tls_message stream ≡ ok (message_of 22 769 payload, 23 ∷ [])
stream-read = (read_tls_message-record 22 769 payload (23 ∷ []) (omega arith)).0

read_tls_message-exact_example :
    ((message_of 22 769 payload).raw ++ 23 ∷ [] ≡ stream)
    × ((message_of 22 769 payload).raw ≡ record_header 22 769 6 ++ payload)
    × ((message_of 22 769 payload).header ≡ header_of (record_header 22 769 6))
    × (length (message_of 22 769 payload).raw ≡ 6 + 5)
    × (6 ≤ 16384)
read_tls_message-exact_example = read_tls_message-exact stream stream-read

abbrev host_line : Bytes
host_line = bytes "Host: a"

abbrev request_text : Bytes
request_text = bytes "GET http://a/ HTTP/1.1" ++ crlf ++ host_line ++ crlf ++ crlf

read_headers-exact_example : IsHeader (request_text ++ bytes "body") request_text (bytes "body")
unfolding read_headers
read_headers-exact_example =
    read_headers-exact (request_text ++ bytes "body") request_text (bytes "body") refl

abbrev first_line : Bytes
first_line = bytes "GET http://a/ HTTP/1.1"

abbrev proxy_line : Bytes
proxy_line = bytes "Proxy-Connection: x"

abbrev request : HttpRequest
request = record {
  raw = joined first_line (proxy_line ∷ host_line ∷ []) ++ cr ∷ lf ∷ cr ∷ lf ∷ [];
  method = bytes "GET";
  domain = bytes "a";
  port = [];
  path = bytes "/";
  version = bytes "HTTP/1.1";
}

abbrev has_no_cr : Bytes → Bool
has_no_cr [] = true
has_no_cr (c ∷ s) = not (c == cr) && has_no_cr s

has_no_cr-NoCr : (s : Bytes) → has_no_cr s ≡ true → NoCr s
has_no_cr-NoCr [] h = tt
has_no_cr-NoCr (c ∷ s) h = (ground arith, has_no_cr-NoCr s (ground arith))

tidy-joined_example :
    (tidy request).raw ≡ ended (bytes "GET / HTTP/1.1" ∷ host_line ∷ []) ++ cr ∷ lf ∷ []
unfolding has_prefix
tidy-joined_example =
    tidy-joined request first_line (proxy_line ∷ host_line ∷ []) [] refl
      (has_no_cr-NoCr first_line refl)
      ((has_no_cr-NoCr proxy_line refl, λ e. cc), ((has_no_cr-NoCr host_line refl, λ e. cc), tt))

abbrev bare_request : HttpRequest
bare_request = record request { raw = first_line ++ lf ∷ host_line ++ lf ∷ lf ∷ [] }

tidy-bare_lf_example : (tidy bare_request).raw ≡ ended (bytes "GET / HTTP/1.1" ∷ []) ++ cr ∷ lf ∷ []
unfolding has_prefix
tidy-bare_lf_example = tidy-bare_lf bare_request (has_no_cr-NoCr bare_request.raw refl)
