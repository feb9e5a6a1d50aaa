-- ===== src/Handler/Pipe/Session.antt =====
-- A connection through the HTTPS handler and its tunnel (`Serve` and `pipe` of
-- proxy/handler/https.go).
use mathlib.Core.List.{append_assoc}
use spoof_dpi_turkiye.Prelude.{
  ◌≡◌, ◌⊎◌, inl, inr, ap, sym, ◌∙◌, true, List, ◌++◌, Bytes, Result, ok,
}
use spoof_dpi_turkiye.Packet.Tls.{TlsMessage, TlsError, read_tls_message}
use spoof_dpi_turkiye.Packet.Tls.Exact.{read_tls_message-exact}
use spoof_dpi_turkiye.Packet.Http.{HttpRequest}
use spoof_dpi_turkiye.Handler.Chunks.{Conn}
use spoof_dpi_turkiye.Handler.Copy.{Round}
use spoof_dpi_turkiye.Handler.Copy.Order.{received, copy_with_timeout-Delivers}
use spoof_dpi_turkiye.Handler.Copy.Whole.{Faulty, Undated, copy_with_timeout-Whole}
use spoof_dpi_turkiye.Handler.Serve.{Network, HttpsHandler, serve_https}
use spoof_dpi_turkiye.Handler.Serve.Hello.{tunnels, serve_https-hello}
use spoof_dpi_turkiye.Handler.Pipe.{Pipe, Thread, is_finished, run, pipe}
use spoof_dpi_turkiye.Handler.Pipe.Ends.{pipe_up}

same_message :
    {r : Result TlsError (TlsMessage × Bytes)} {m m' : TlsMessage} {rest rest' : Bytes}
    → r ≡ ok (m, rest)
    → r ≡ ok (m', rest')
    → m ≡ m'
same_message e e' = cc (e, e')

-- If the HTTPS handler opens a tunnel and the reads of the tunnel return what the client has sent
-- behind its first TLS record, then by the end of the copying to the server, in whatever order the
-- two directions take their steps, the server has been sent the first bytes of the client's stream,
-- as they came and behind what it had been sent before: that record, whether chunked or not, and
-- some of what follows it. It has been sent the whole stream, unless one of the writes to the server
-- fails, or there is a timeout and one of the read deadlines cannot be set.
pub pipe-serve_https :
    (h : HttpsHandler) (net : Network) (pkt : HttpRequest) (ip : Bytes) (ths : List Thread)
    (client : Conn) (up_rounds down_rounds : List Round) (p : Pipe) (m : TlsMessage)
    → tunnels (serve_https h net pkt ip).events ≡ true
    → read_tls_message net.stream ≡ ok (m, received up_rounds)
    → run h.timeout ths (pipe client (serve_https h net pkt ip).server up_rounds down_rounds) ≡ p
    → is_finished p.up ≡ true
    → (q : Bytes) × (r : Bytes) × ((m.raw ++ q) ++ r ≡ net.stream)
      × (p.server.conn.sent ≡ net.server.sent ++ (m.raw ++ q))
      × ((p.server.conn.sent ≡ net.server.sent ++ net.stream)
          ⊎ Faulty (serve_https h net pkt ip).server.faults
          ⊎ Undated h.timeout up_rounds)
pipe-serve_https h net pkt ip ths client up_rounds down_rounds p m opens read ran end =
    let server = (serve_https h net pkt ip).server in
    let (m', rest', read', hello, sent) = serve_https-hello h net pkt ip opens in
    let alone = pipe_up h.timeout ths client server up_rounds down_rounds p ran end in
    let (q, r, split, wire) = copy_with_timeout-Delivers h.timeout up_rounds server in
    let same = same_message read' read in
    let whole = (read_tls_message-exact net.stream read).0 in
    let before : server.sent ≡ net.server.sent ++ m.raw =
      sent ∙ ap (λ n. net.server.sent ++ n.raw) same in
    (
      q,
      r,
      append_assoc m.raw q r ∙ ap (◌++◌ m.raw) split ∙ whole,
      sym (ap (λ c. c.0.sent) alone)
          ∙ wire
          ∙ ap (λ s. s ++ q) before
          ∙ append_assoc net.server.sent m.raw q,
      elim (copy_with_timeout-Whole h.timeout up_rounds server) [
        | inl all ↦ inl (
            sym (ap (λ c. c.0.sent) alone)
            ∙ all
            ∙ ap (λ s. s ++ received up_rounds) before
            ∙ append_assoc net.server.sent m.raw (received up_rounds)
            ∙ ap (◌++◌ net.server.sent) whole)
        | inr why ↦ inr why
      ],
    )
