-- ===== src/Handler/Serve/Opening.antt =====
-- When the HTTPS handler opens a tunnel (proxy/handler/https.go).
use spoof_dpi_turkiye.Prelude.{
  ℕ, ◌+◌, ◌≡◌, refl, ap, sym, ◌∙◌, subst, true, false, List, [], ◌∷◌, ◌++◌, none, some, Bytes, ok,
  drop, Bool-cases, inl, inr,
}
use spoof_dpi_turkiye.Packet.Tls.{TlsMessage, read_tls_message, is_client_hello}
use spoof_dpi_turkiye.Packet.Http.{HttpRequest}
use spoof_dpi_turkiye.Handler.Chunks.{Conn, write, write_from, write_chunks, split_in_chunks}
use spoof_dpi_turkiye.Handler.Port.{port_of}
use spoof_dpi_turkiye.Handler.Serve.{
  Network, Event, dial, reply, tunnel, HttpsHandler, established, close_both, finish, is_some,
  send_hello, client_hello, https_hello, https_dial, serve_https,
}
use spoof_dpi_turkiye.Handler.Serve.Hello.{tunnels, serve_https-hello}
use spoof_dpi_turkiye.Handler.Serve.Writes.{
  Steady, later-Steady, write-Steady, hello_writes, serve_https-hello_writes,
}

write_from-Steady :
    (c : Conn) (total i : ℕ) (chunks : List Bytes)
    → Steady c.faults
    → (write_from c total i chunks).2 ≡ none
unfolding write_from
write_from-Steady c total i [] steady = refl
write_from-Steady c total i (b ∷ chunks) steady =
    let (later, good) = write-Steady c b steady in
    let (c', n, failed) = write c b in
    rw good (
      write_from-Steady c' (total + n) (i + 1) chunks
        (subst Steady (sym later) (later-Steady c.faults steady)))

send_hello-Steady :
    (h : HttpsHandler) (server : Conn) (hello : Bytes)
    → Steady server.faults
    → (send_hello h server hello).1 ≡ false
unfolding send_hello write_chunks
send_hello-Steady h server hello steady = elim (Bool-cases h.exploit) [
  | inl chunked ↦
      rw chunked
        (ap is_some (write_from-Steady server 0 0 (split_in_chunks hello h.window_size) steady))
  | inr plain ↦ rw plain ((write-Steady server hello steady).1)
]

-- What `Serve` does when all goes well.
abbrev pub session : HttpRequest → Bytes → ℕ → List Event
session pkt ip port = dial ip port ∷ reply (established pkt) ∷ tunnel ∷ close_both

-- Behind the ClientHello, when no write fails.
client_hello-opens :
    (h : HttpsHandler) (server : Conn) (m : TlsMessage) (rest : Bytes)
    → Steady server.faults
    → is_client_hello m ≡ true
    → (client_hello h server (ok (m, rest))).events ≡ tunnel ∷ close_both
unfolding client_hello finish
client_hello-opens h server m rest steady client =
    rw (client, client_hello, send_hello-Steady h server m.raw steady) refl

-- When the dial succeeds, the client takes the reply and sends a ClientHello, and no write fails,
-- the HTTPS handler opens the tunnel, and the server has been sent the ClientHello.
pub serve_https-opens :
    (h : HttpsHandler) (net : Network) (pkt : HttpRequest) (ip : Bytes) (port : ℕ) (m : TlsMessage)
    (rest : Bytes)
    → port_of 443 pkt.port ≡ some port
    → net.dials ≡ true
    → net.takes_reply ≡ true
    → read_tls_message net.stream ≡ ok (m, rest)
    → is_client_hello m ≡ true
    → Steady net.server.faults
    → ((serve_https h net pkt ip).events ≡ session pkt ip port)
      × ((serve_https h net pkt ip).server.sent ≡ net.server.sent ++ m.raw)
      × ((serve_https h net pkt ip).server.faults ≡ drop (hello_writes h m.raw) net.server.faults)
unfolding serve_https https_dial https_hello
serve_https-opens h net pkt ip port m rest at dials takes read client steady =
    let (m', rest', read', client', sent) = serve_https-hello h net pkt ip opened in
    let (m'', rest'', read'', faults) = serve_https-hello_writes h net pkt ip steady opened in
    let same : m' ≡ m = cc (read, read') in
    let same' : m'' ≡ m = cc (read, read'') in
    (
      events,
      sent ∙ ap (λ x. net.server.sent ++ x.raw) same,
      faults ∙ ap (λ x. drop (hello_writes h x.raw) net.server.faults) same',
    )
  where
    events : (serve_https h net pkt ip).events ≡ session pkt ip port
    events =
        rw (at, serve_https, dials, takes, read)
          (ap (λ es. dial ip port ∷ reply (established pkt) ∷ es)
            (client_hello-opens h net.server m rest steady client))

    opened : tunnels (serve_https h net pkt ip).events ≡ true
    opened = ap tunnels events
