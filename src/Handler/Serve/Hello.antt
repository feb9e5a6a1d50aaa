-- ===== src/Handler/Serve/Hello.antt =====
-- What the server has got when the tunnel opens (proxy/handler/https.go).
use mathlib.Core.List.{append-nil}
use spoof_dpi_turkiye.Prelude.{
  ℕ, ◌≡◌, refl, ap, sym, ◌∙◌, Bool, true, false, not, List, [], ◌∷◌, ◌++◌, arith, Bytes, Result, ok,
  err, inl, inr, if◌then◌else◌,
}
use spoof_dpi_turkiye.Packet.Tls.{TlsMessage, TlsError, read_tls_message, is_client_hello}
use spoof_dpi_turkiye.Packet.Http.{HttpRequest}
use spoof_dpi_turkiye.Handler.Chunks.{Conn, write, write_chunks, split_in_chunks}
use spoof_dpi_turkiye.Handler.Chunks.Sending.{write-prefix, write_chunks-Sends}
use spoof_dpi_turkiye.Handler.Serve.{
  Network, Event, tunnel, HttpsHandler, finish, send_hello, client_hello, served, close_both,
  https_hello, https_dial, serve_https, is_some,
}

abbrev pub tunnels : List Event → Bool
tunnels [] = false
tunnels (tunnel ∷ es) = true
tunnels (e ∷ es) = tunnels es

sent_whole : (a p q b : Bytes) → p ++ q ≡ b → q ≡ [] → a ++ p ≡ a ++ b
sent_whole a p q b split all = ap (◌++◌ a) (sym (append-nil p) ∙ ap (◌++◌ p) (sym all) ∙ split)

pub write-whole : (c : Conn) (b : Bytes) → (write c b).2 ≡ false → (write c b).0.sent ≡ c.sent ++ b
write-whole c b good =
    let (p, q, split, wire, n, ended) = write-prefix c b in
    elim ended [
      | inl failed ↦ absurd (cc (failed, good))
      | inr (e, all) ↦ wire ∙ sent_whole c.sent p q b split all
    ]

write_chunks-whole :
    (c : Conn) (raw : Bytes) (size : ℕ)
    → is_some (write_chunks c (split_in_chunks raw size)).2 ≡ false
    → (write_chunks c (split_in_chunks raw size)).0.sent ≡ c.sent ++ raw
write_chunks-whole c raw size good =
    let s = write_chunks-Sends c raw size in
    elim s.ends [
      | inl (e, all) ↦ s.wire ∙ sent_whole c.sent s.prefix s.left raw s.splits all
      | inr (k, e, lo, hi) ↦ absurd (cc (ap is_some e, good))
    ]

-- Chunked or plain: what has been sent is the whole if nothing failed.
send_hello-whole :
    (h : HttpsHandler) (server : Conn) (hello : Bytes)
    → (send_hello h server hello).1 ≡ false
    → (send_hello h server hello).0.sent ≡ server.sent ++ hello
unfolding send_hello
send_hello-whole h server hello =
    either _ _ _ h.exploit (write_chunks-whole server hello h.window_size)
      (write-whole server hello)
  where
    either :
        (x y : Conn × Bool) (sent : Bytes) (b : Bool)
        → (x.1 ≡ false → x.0.sent ≡ sent)
        → (y.1 ≡ false → y.0.sent ≡ sent)
        → (if b then x else y).1 ≡ false
        → (if b then x else y).0.sent ≡ sent
    either x y sent true f g = f
    either x y sent false f g = g

pub finish-tunnels : (c : Conn) (b : Bool) → tunnels (finish c b) ≡ true → b ≡ false
unfolding finish
finish-tunnels c true t = sym t
finish-tunnels c false t = refl

client_hello-whole :
    (h : HttpsHandler) (server : Conn) (r : Result TlsError (TlsMessage × Bytes))
    → tunnels (client_hello h server r).events ≡ true
    → (m : TlsMessage) × (rest : Bytes) × (r ≡ ok (m, rest))
      × (is_client_hello m ≡ true)
      × ((client_hello h server r).server.sent ≡ server.sent ++ m.raw)
unfolding client_hello
client_hello-whole h server (err e) t = absurd (cc t)
client_hello-whole h server (ok (m, rest)) t =
    let (client, whole) = go (is_client_hello m) refl t in (m, rest, refl, client, whole)
  where
    go :
        (b : Bool)
        → is_client_hello m ≡ b
        → tunnels
            (if not b
              then served server close_both
              else served
                  (send_hello h server m.raw).0
                  (finish (send_hello h server m.raw).0 (send_hello h server m.raw).1)).events
          ≡ true
        → (is_client_hello m ≡ true)
          × ((if not b
                then served server close_both
                else served (send_hello h server m.raw).0 (
                    finish (send_hello h server m.raw).0 (send_hello h server m.raw).1)).server.sent
              ≡ server.sent ++ m.raw)
    go true e t' = (e, send_hello-whole h server m.raw (finish-tunnels _ _ t'))
    go false e t' = absurd (cc t')

pub serve_https-tunnels :
    (h : HttpsHandler) (net : Network) (pkt : HttpRequest) (ip : Bytes)
    → tunnels (serve_https h net pkt ip).events ≡ true
    → (tunnels (https_hello h net).events ≡ true)
      × ((serve_https h net pkt ip).server ≡ (https_hello h net).server)
unfolding serve_https https_dial
serve_https-tunnels h net pkt ip t = ground arith

-- If the HTTPS handler opens a tunnel, the client's first TLS record is a ClientHello, and
-- behind what the server had been sent before it has been sent exactly that record: its bytes
-- are the same whether it goes out in one write or, for a bypassed host, in chunks of any
-- window.
pub serve_https-hello :
    (h : HttpsHandler) (net : Network) (pkt : HttpRequest) (ip : Bytes)
    → tunnels (serve_https h net pkt ip).events ≡ true
    → (m : TlsMessage) × (rest : Bytes) × (read_tls_message net.stream ≡ ok (m, rest))
      × (is_client_hello m ≡ true)
      × ((serve_https h net pkt ip).server.sent ≡ net.server.sent ++ m.raw)
unfolding client_hello https_hello
serve_https-hello h net pkt ip t =
    let (t', same) = serve_https-tunnels h net pkt ip t in
    let (m, rest, read, client, sent) =
      client_hello-whole h net.server (read_tls_message net.stream) t' in
    (m, rest, read, client, ap (λ c. c.sent) same ∙ sent)
