-- ===== src/Handler/Serve/Writes.antt =====
-- In how many writes the ClientHello leaves (proxy/handler/https.go). A write takes one of the
-- outcomes that a connection has in store.
use spoof_dpi_turkiye.Prelude.{
  ℕ, zero, suc, ◌+◌, ◌≡◌, refl, ap, sym, ◌∙◌, subst, Bool, true, false, not, List, [], ◌∷◌, Option,
  none, some, Bytes, Result, ok, err, All, drop, length, if◌then◌else◌, Bool-cases, inl, inr,
}
use spoof_dpi_turkiye.Packet.Tls.{TlsMessage, TlsError, read_tls_message, is_client_hello}
use spoof_dpi_turkiye.Packet.Http.{HttpRequest}
use spoof_dpi_turkiye.Handler.Chunks.{
  Conn, later_faults, write, write_from, write_chunks, split_in_chunks,
}
use spoof_dpi_turkiye.Handler.Serve.{
  Network, Served, HttpsHandler, finish, send_hello, client_hello, served, close_both, https_hello,
  serve_https,
}
use spoof_dpi_turkiye.Handler.Serve.Hello.{tunnels, serve_https-tunnels}

-- No write to come fails.
abbrev pub Steady : List (Option ℕ) → Type 0
Steady faults = All (λ f. f ≡ none) faults

pub later-Steady : (faults : List (Option ℕ)) → Steady faults → Steady (later_faults faults)
later-Steady [] steady = tt
later-Steady (f ∷ faults) steady = steady.1

drop_later : (n : ℕ) (faults : List (Option ℕ)) → drop n (later_faults faults) ≡ drop (suc n) faults
drop_later zero [] = refl
drop_later (suc n) [] = refl
drop_later n (f ∷ faults) = refl

pub write-Steady :
    (c : Conn) (b : Bytes)
    → Steady c.faults
    → ((write c b).0.faults ≡ later_faults c.faults) × ((write c b).2 ≡ false)
unfolding write
write-Steady c b steady = go c.faults steady
  where
    go :
        (faults : List (Option ℕ))
        → Steady faults
        → ((write (record c { faults = faults }) b).0.faults ≡ later_faults faults)
          × ((write (record c { faults = faults }) b).2 ≡ false)
    go [] steady' = (refl, refl)
    go (none ∷ faults) steady' = (refl, refl)
    go (some k ∷ faults) steady' = absurd (cc (steady'.0))

pub write_from-faults :
    (c : Conn) (total i : ℕ) (chunks : List Bytes)
    → Steady c.faults
    → (write_from c total i chunks).0.faults ≡ drop (length chunks) c.faults
unfolding write_from
write_from-faults c total i [] steady = refl
write_from-faults c total i (b ∷ chunks) steady =
    let (later, good) = write-Steady c b steady in
    let (c', n, failed) = write c b in
    let rest =
      write_from-faults c' (total + n) (i + 1) chunks
        (subst Steady (sym later) (later-Steady c.faults steady)) in
    rw good (rest ∙ ap (drop (length chunks)) later ∙ drop_later (length chunks) c.faults)

-- One write for a host that is not bypassed, and one for each chunk for one that is.
abbrev pub hello_writes : HttpsHandler → Bytes → ℕ
hello_writes h hello = if h.exploit then length (split_in_chunks hello h.window_size) else 1

send_hello-faults :
    (h : HttpsHandler) (server : Conn) (hello : Bytes)
    → Steady server.faults
    → (send_hello h server hello).0.faults ≡ drop (hello_writes h hello) server.faults
unfolding send_hello write_chunks
send_hello-faults h server hello steady = elim (Bool-cases h.exploit) [
  | inl chunked ↦
      rw chunked (write_from-faults server 0 0 (split_in_chunks hello h.window_size) steady)
  | inr plain ↦ rw plain ((write-Steady server hello steady).0 ∙ drop_later 0 server.faults)
]

-- A handler that opens the tunnel behind the ClientHello that it has read.
client_hello-faults :
    (h : HttpsHandler) (server : Conn) (r : Result TlsError (TlsMessage × Bytes))
    → Steady server.faults
    → tunnels (client_hello h server r).events ≡ true
    → (m : TlsMessage) × (rest : Bytes) × (r ≡ ok (m, rest))
      × ((client_hello h server r).server.faults ≡ drop (hello_writes h m.raw) server.faults)
unfolding client_hello
client_hello-faults h server (err e) steady t = absurd (cc t)
client_hello-faults h server (ok (m, rest)) steady t = go (is_client_hello m) t
  where
    sent : Conn × Bool
    sent = send_hello h server m.raw

    by_kind : Bool → Served
    by_kind b = if not b then served server close_both else served sent.0 (finish sent.0 sent.1)

    go :
        (b : Bool)
        → tunnels (by_kind b).events ≡ true
        → (m' : TlsMessage) × (rest' : Bytes) × (◌≡◌ {A = Result TlsError (TlsMessage × Bytes)}
            (ok (m, rest))
            (ok (m', rest')))
          × ((by_kind b).server.faults ≡ drop (hello_writes h m'.raw) server.faults)
    go true t' = (m, rest, refl, send_hello-faults h server m.raw steady)
    go false t' = absurd (cc t')

-- If no write fails and the HTTPS handler opens a tunnel, the ClientHello has left in one write for
-- a host that is not bypassed, and in as many writes as it has chunks for one that is: they are not
-- put together again.
pub serve_https-hello_writes :
    (h : HttpsHandler) (net : Network) (pkt : HttpRequest) (ip : Bytes)
    → Steady net.server.faults
    → tunnels (serve_https h net pkt ip).events ≡ true
    → (m : TlsMessage) × (rest : Bytes) × (read_tls_message net.stream ≡ ok (m, rest))
      × ((serve_https h net pkt ip).server.faults ≡ drop (hello_writes h m.raw) net.server.faults)
unfolding https_hello
serve_https-hello_writes h net pkt ip steady t =
    let (t', same) = serve_https-tunnels h net pkt ip t in
    let (m, rest, read, faults) =
      client_hello-faults h net.server (read_tls_message net.stream) steady t' in
    (m, rest, read, ap (λ c. c.faults) same ∙ faults)
