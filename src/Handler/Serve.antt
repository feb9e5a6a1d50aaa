-- ===== src/Handler/Serve.antt =====
-- `Serve` of the two handlers: proxy/handler/http.go and proxy/handler/https.go. What the network
-- does in the meantime is given, and what `Serve` does is a list of events beside what the server
-- has been sent. Log lines are left out.
pub mod Closing
pub mod Hello
pub mod Opening
pub mod Writes
use spoof_dpi_turkiye.Prelude.{
  bytes, ℕ, Bool, true, false, List, [], ◌∷◌, ◌++◌, Option, none, some, Result, ok, err, Bytes,
  if◌then◌else◌, not,
}
use spoof_dpi_turkiye.Packet.Tls.{TlsMessage, TlsError, read_tls_message, is_client_hello}
use spoof_dpi_turkiye.Packet.Http.{HttpRequest, cr, lf}
use spoof_dpi_turkiye.Handler.Chunks.{Conn, write, write_chunks, split_in_chunks}
use spoof_dpi_turkiye.Handler.Port.{port_of}

-- Whether the dial succeeds, whether the client takes the reply, what comes from the client, and
-- the connection to the server.
pub record Network : Type 0 where
  pub dials : Bool
  pub takes_reply : Bool
  pub stream : Bytes
  pub server : Conn

-- `tunnel` is `pipe`, up to the end of both directions.
pub data Event : Type 0 where
  dial : Bytes → ℕ → Event
  reply : Bytes → Event
  tunnel : Event
  close_client : Event
  close_server : Event

pub record Served : Type 0 where
  pub server : Conn
  pub events : List Event

pub record HttpsHandler : Type 0 where
  pub buffer_size : ℕ
  pub timeout : ℕ
  pub window_size : ℕ
  pub exploit : Bool

unfoldable pub new_https_handler : ℕ → ℕ → Bool → HttpsHandler
new_https_handler timeout window_size exploit = record {
  buffer_size = 4096;
  timeout = timeout;
  window_size = window_size;
  exploit = exploit;
}

abbrev pub served : Conn → List Event → Served
served server events = record { server = server; events = events }

-- `pipe` closes both connections at its end, as a failure does.
abbrev pub close_both : List Event
close_both = close_client ∷ close_server ∷ []

-- The end of `Serve`, by whether the first message failed.
unfoldable pub finish : Conn → Bool → List Event
finish server failed = if failed then close_both else tunnel ∷ close_both

-- From the dial on, in proxy/handler/http.go.
unfoldable pub http_dial : Network → HttpRequest → Bytes → ℕ → Served
http_dial net pkt ip port =
    let (server, n, failed) = write net.server pkt.raw in
    if net.dials
    then served server (dial ip port ∷ finish server failed)
    else served net.server (dial ip port ∷ close_client ∷ [])

unfoldable pub serve_http : Network → HttpRequest → Bytes → Served
serve_http net pkt ip = elim (port_of 80 pkt.port) [
  | none ↦ served net.server (close_client ∷ [])
  | some port ↦ http_dial net pkt ip port
]

abbrev pub established : HttpRequest → Bytes
established pkt = pkt.version ++ bytes " 200 Connection Established" ++ (cr ∷ lf ∷ cr ∷ lf ∷ [])

abbrev pub is_some : Option ℕ → Bool
is_some none = false
is_some (some n) = true

-- The ClientHello goes out in chunks or in one write: the server after, and whether that failed.
unfoldable pub send_hello : HttpsHandler → Conn → Bytes → Conn × Bool
send_hello h server hello =
    let (chunked, total, failed_at) = write_chunks server (split_in_chunks hello h.window_size) in
    let (plain, n, failed) = write server hello in
    if h.exploit then (chunked, is_some failed_at) else (plain, failed)

-- From `ReadTLSMessage` on, in proxy/handler/https.go, by what it returns.
unfoldable pub client_hello : HttpsHandler → Conn → Result TlsError (TlsMessage × Bytes) → Served
client_hello h server (err e) = served server close_both
client_hello h server (ok (m, rest)) =
    let (server', failed) = send_hello h server m.raw in
    if not (is_client_hello m)
    then served server close_both
    else served server' (finish server' failed)

unfoldable pub https_hello : HttpsHandler → Network → Served
unfolding client_hello
https_hello h net = client_hello h net.server (read_tls_message net.stream)

-- From the dial on.
unfoldable pub https_dial : HttpsHandler → Network → HttpRequest → Bytes → ℕ → Served
https_dial h net pkt ip port =
    let hello = https_hello h net in
    if not net.dials
    then served net.server (dial ip port ∷ close_client ∷ [])
    else if not net.takes_reply
    then served net.server (dial ip port ∷ reply (established pkt) ∷ close_both)
    else served hello.server (dial ip port ∷ reply (established pkt) ∷ hello.events)

unfoldable pub serve_https : HttpsHandler → Network → HttpRequest → Bytes → Served
serve_https h net pkt ip = elim (port_of 443 pkt.port) [
  | none ↦ served net.server (close_client ∷ [])
  | some port ↦ https_dial h net pkt ip port
]
