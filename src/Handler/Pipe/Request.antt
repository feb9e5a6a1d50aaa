-- ===== src/Handler/Pipe/Request.antt =====
-- A connection through the HTTP handler and its tunnel (`Serve` of proxy/handler/http.go).
use mathlib.Core.List.{append_assoc}
use spoof_dpi_turkiye.Prelude.{
  ℕ, ◌≡◌, ◌⊎◌, inl, inr, refl, arith, length, length-append, Result, ok, ap, sym, ◌∙◌, Bool, true,
  false, List, [], ◌∷◌, ◌++◌, Option, none, some, Bytes, if◌then◌else◌,
}
use spoof_dpi_turkiye.Packet.Http.{HttpError, ParsedRequest, HttpRequest, read_http_request, tidy}
use spoof_dpi_turkiye.Packet.Http.Headers.{read_http_request-stream}
use spoof_dpi_turkiye.Handler.Copy.Whole.{Faulty, Undated, copy_with_timeout-Whole}
use spoof_dpi_turkiye.Handler.Chunks.{Conn, write}
use spoof_dpi_turkiye.Handler.Copy.{Round}
use spoof_dpi_turkiye.Handler.Copy.Order.{received, copy_with_timeout-Delivers}
use spoof_dpi_turkiye.Handler.Port.{port_of}
use spoof_dpi_turkiye.Handler.Serve.{
  Network, Served, finish, served, dial, close_client, http_dial, serve_http,
}
use spoof_dpi_turkiye.Handler.Serve.Hello.{tunnels, write-whole, finish-tunnels}
use spoof_dpi_turkiye.Handler.Pipe.{Pipe, Thread, is_finished, run, pipe}
use spoof_dpi_turkiye.Handler.Pipe.Ends.{pipe_up}

http_dial-raw :
    (net : Network) (pkt : HttpRequest) (ip : Bytes) (port : ℕ)
    → tunnels (http_dial net pkt ip port).events ≡ true
    → (http_dial net pkt ip port).server.sent ≡ net.server.sent ++ pkt.raw
unfolding http_dial
http_dial-raw net pkt ip port = go net.dials
  where
    sent : Conn
    sent = (write net.server pkt.raw).0

    failed : Bool
    failed = (write net.server pkt.raw).2

    go :
        (b : Bool)
        → tunnels
            (if b
              then served sent (dial ip port ∷ finish sent failed)
              else served net.server (dial ip port ∷ close_client ∷ [])).events
          ≡ true
        → (if b
            then served sent (dial ip port ∷ finish sent failed)
            else served net.server (dial ip port ∷ close_client ∷ [])).server.sent
          ≡ net.server.sent ++ pkt.raw
    go true t = write-whole net.server pkt.raw (finish-tunnels sent failed t)
    go false t = absurd (cc t)

serve_http-raw :
    (net : Network) (pkt : HttpRequest) (ip : Bytes)
    → tunnels (serve_http net pkt ip).events ≡ true
    → (serve_http net pkt ip).server.sent ≡ net.server.sent ++ pkt.raw
unfolding serve_http
serve_http-raw net pkt ip = go (port_of 80 pkt.port)
  where
    by_port : Option ℕ → Served
    by_port port = elim port [
      | none ↦ served net.server (close_client ∷ [])
      | some n ↦ http_dial net pkt ip n
    ]

    go :
        (port : Option ℕ)
        → tunnels (by_port port).events ≡ true
        → (by_port port).server.sent ≡ net.server.sent ++ pkt.raw
    go none t = absurd (cc t)
    go (some n) t = http_dial-raw net pkt ip n t

-- Of a text that has been sent whole nothing is left.
nothing_left : (before q r text : Bytes) → q ++ r ≡ text → before ++ q ≡ before ++ text → r ≡ []
nothing_left before q r text split whole = length-zero r (
    omega (
      arith,
      ap length split,
      ap length whole,
      length-append q r,
      length-append before q,
      length-append before text,
    ))
  where
    length-zero : (xs : Bytes) → length xs ≡ 0 → xs ≡ []
    length-zero [] e = refl
    length-zero (x ∷ xs) e = absurd (omega arith)

module _ (parse : Bytes → Result HttpError ParsedRequest)
    (split_host_port : Bytes → Option (Bytes × Bytes)) where
  -- If the first request of a connection goes through `Tidy` and the HTTP handler to a tunnel whose
  -- reads return what the client has sent behind it, then by the end of the copying to the server, in
  -- whatever order the two directions take their steps, the server of the first request has been
  -- sent, behind what it had been sent before, that request as `Tidy` leaves it and then the first
  -- bytes of all that follows it in the client's stream, as they are, whatever they ask for; and all
  -- of them, unless one of the writes to the server fails, or there is a timeout and one of the read
  -- deadlines cannot be set.
  pub pipe-serve_http :
      (t : ℕ) (stream : Bytes) (net : Network) (pkt : HttpRequest) (ip : Bytes) (ths : List Thread)
      (client : Conn) (up_rounds down_rounds : List Round) (p : Pipe)
      → read_http_request parse split_host_port stream ≡ ok (pkt, received up_rounds)
      → tunnels (serve_http net (tidy pkt) ip).events ≡ true
      → run t ths (pipe client (serve_http net (tidy pkt) ip).server up_rounds down_rounds) ≡ p
      → is_finished p.up ≡ true
      → (q : Bytes) × (r : Bytes) × (pkt.raw ++ (q ++ r) ≡ stream)
        × (p.server.conn.sent ≡ net.server.sent ++ ((tidy pkt).raw ++ q))
        × ((r ≡ []) ⊎ Faulty (serve_http net (tidy pkt) ip).server.faults ⊎ Undated t up_rounds)
  pipe-serve_http t stream net pkt ip ths client up_rounds down_rounds p read opens ran end =
      let server = (serve_http net (tidy pkt) ip).server in
      let alone = pipe_up t ths client server up_rounds down_rounds p ran end in
      let (q, r, split, wire) = copy_with_timeout-Delivers t up_rounds server in
      (
        q,
        r,
        ap (◌++◌ pkt.raw) split
            ∙ read_http_request-stream parse split_host_port stream pkt (received up_rounds) read,
        sym (ap (λ c. c.0.sent) alone)
            ∙ wire
            ∙ ap (λ s. s ++ q) (serve_http-raw net (tidy pkt) ip opens)
            ∙ append_assoc net.server.sent (tidy pkt).raw q,
        elim (copy_with_timeout-Whole t up_rounds server) [
          | inl all ↦ inl (nothing_left server.sent q r (received up_rounds) split (sym wire ∙ all))
          | inr why ↦ inr why
        ],
      )
