-- ===== src/Proxy/Tests.antt =====
-- Runs of the theorems on package proxy (proxy/proxy.go).
use spoof_dpi_turkiye.Prelude.{
  bytes, ℕ, ◌≡◌, refl, true, false, List, [], ◌∷◌, ◌++◌, Option, none, some, Result, ok, err, Bytes,
}
use spoof_dpi_turkiye.AddrSelect.Ip.{IpAddr}
use spoof_dpi_turkiye.Resolver.Answer.{Answer, answer, upstream}
use spoof_dpi_turkiye.Dns.{Dns, general, system}
use spoof_dpi_turkiye.Packet.Http.{
  HttpError, ParsedRequest, HttpRequest, cr, lf, read_headers, read_http_request,
}
use spoof_dpi_turkiye.Handler.Serve.{Network}
use spoof_dpi_turkiye.Proxy.{conn, timeout, closed, accept_loop, Proxy, pattern_matches, handle}
use spoof_dpi_turkiye.Proxy.Backoff.{backoff, accept_loop-backoff}
use spoof_dpi_turkiye.Proxy.Closing.{Closes, handle-Closes}
use spoof_dpi_turkiye.Prelude.{map}
use spoof_dpi_turkiye.AddrSelect.Rules.{SrcInfo}
use spoof_dpi_turkiye.AddrSelect.Sources.{no_source}
use spoof_dpi_turkiye.Resolver.Lookup.{Msg, a}
use spoof_dpi_turkiye.Dns.Clients.{Wire}

accept_loop-backoff_example :
    accept_loop 0 (timeout ∷ timeout ∷ conn ∷ timeout ∷ closed ∷ [])
    ≡ backoff 0 (timeout ∷ timeout ∷ conn ∷ timeout ∷ closed ∷ [])
accept_loop-backoff_example = accept_loop-backoff (timeout ∷ timeout ∷ conn ∷ timeout ∷ closed ∷ [])

abbrev parsed : ParsedRequest
parsed = record {
  method = bytes "GET";
  proto = bytes "HTTP/1.1";
  host = bytes "a";
  url_path = bytes "/";
  raw_query = [];
  raw_fragment = [];
}

abbrev pub parse : Bytes → Result HttpError ParsedRequest
parse raw = ok parsed

abbrev pub no_port : Bytes → Option (Bytes × Bytes)
no_port host = none

abbrev pub no_ip : Bytes → Option Bytes
no_ip s = none

abbrev loopback : Bytes → Option Bytes
loopback s = some (127 ∷ 0 ∷ 0 ∷ 1 ∷ [])

abbrev pub same : Bytes → Bytes
same s = s

abbrev pub text_of : IpAddr → Bytes
text_of x = x.ip

abbrev pub pxy : Proxy
pxy = record {
  addr = bytes "127.0.0.1";
  port = 80;
  timeout = 0;
  window_size = 5;
  allowed_pattern = none;
}

abbrev pub resolvers : Dns
resolvers = record {
  system_client = system;
  bypass_chain = general (bytes "1.1.1.1:53") ∷ [];
  per_try = 1500000000;
  pos_ttl = 300000000000;
  neg_ttl = 10000000000;
  max_size = 4096;
  q_types = 1 ∷ [];
  total_budget = 3000000000;
}

abbrev pub found : Bytes × (Bytes → List ℕ → Answer)
found =
    (bytes "cache", λ host q_types. answer (record { ip = bytes "5.6.7.8"; zone = [] } ∷ []) none)

abbrev pub forged : Bytes × (Bytes → List ℕ → Answer)
forged =
    (bytes "system", λ host q_types. answer (record { ip = bytes "9.9.9.9"; zone = [] } ∷ []) none)

abbrev text : Bytes
text = bytes "GET / HTTP/1.1" ++ cr ∷ lf ∷ bytes "Host: a" ++ cr ∷ lf ∷ cr ∷ lf ∷ []

abbrev pub network : Network
network = record {
  dials = true;
  takes_reply = true;
  stream = text;
  server = record { sent = []; faults = [] };
}

abbrev pub request : HttpRequest
request = record {
  raw = text;
  method = bytes "GET";
  domain = bytes "a";
  port = [];
  path = bytes "/";
  version = bytes "HTTP/1.1";
}

handle-Closes_example :
    Closes (handle parse no_port no_ip same text_of none pxy resolvers found forged network)
handle-Closes_example =
    handle-Closes parse no_port no_ip same text_of none pxy resolvers found forged network

pub request-read : read_http_request parse no_port text ≡ ok (request, [])
unfolding read_http_request read_headers
request-read = refl

pub request-matches : pattern_matches pxy (bytes "a") ≡ true
unfolding pattern_matches
request-matches = refl

abbrev replied : Msg
replied = record { answers = a (bytes "5.6.7.8") ∷ []; truncated = false }

abbrev pub wire : Wire
wire = record {
  udp = λ server q. ok (some replied);
  tcp = λ server q. err (upstream 1);
  get = λ r url. err (upstream 2);
  pack = λ q. ok q.name;
  unpack = λ body. err (upstream 3);
  parse_url = λ s. none;
  url_string = λ u. u.host;
  hostname = λ u. u.host;
  fqdn = λ host. host;
}

abbrev pub no_srcs : List IpAddr → List SrcInfo
no_srcs xs = map (λ x. no_source) xs
