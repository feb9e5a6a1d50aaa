-- ===== src/Handler/Pipe/Ends.antt =====
-- The two directions of the tunnel against one after the other (`pipe` and `copyWithTimeout` of
-- proxy/handler/https.go).
use spoof_dpi_turkiye.Prelude.{
  ℕ, ◌≡◌, refl, ap, sym, ◌∙◌, subst, Bool, true, List, [], ◌∷◌, arith, inl, inr,
}
use spoof_dpi_turkiye.Handler.Chunks.{Conn}
use spoof_dpi_turkiye.Handler.Copy.{Round, copy_with_timeout}
use spoof_dpi_turkiye.Handler.Pipe.{
  Phase, copying, close_write, close_read, finished, Main, waiting, closing, returned, Pipe, Thread,
  upward, downward, caller, is_finished, after_wait, step, run, pipe,
}
use spoof_dpi_turkiye.Handler.Pipe.Directions.{outcome, advance-outcome}
use spoof_dpi_turkiye.Handler.Pipe.Order.{
  advance-Frame, TornDown, TornDown-CanCopy, step-TornDown, start-TornDown, pipe-TornDown,
}

-- What the two directions come to when each goes on alone.
abbrev pub up_outcome : ℕ → Pipe → Conn × Bool
up_outcome t p = outcome t p.up p.server.conn

abbrev pub down_outcome : ℕ → Pipe → Conn × Bool
down_outcome t p = outcome t p.down p.client.conn

pub after_wait-keeps :
    (m : Main) (p : Pipe)
    → ((after_wait m p).up ≡ p.up)
      × ((after_wait m p).down ≡ p.down)
      × ((after_wait m p).client.conn ≡ p.client.conn)
      × ((after_wait m p).server.conn ≡ p.server.conn)
unfolding after_wait
after_wait-keeps waiting p = ground arith
after_wait-keeps closing p = ground arith
after_wait-keeps returned p = ground arith

pub step-outcomes :
    (t : ℕ) (th : Thread) (p : Pipe)
    → TornDown p
    → (up_outcome t (step t th p) ≡ up_outcome t p)
      × (down_outcome t (step t th p) ≡ down_outcome t p)
unfolding step
step-outcomes t upward p torn =
    let f = advance-Frame t p.up p.client p.server in
    (
      advance-outcome t p.up p.client p.server (TornDown-CanCopy p torn).0,
      ap (outcome t p.down) f.from_conn,
    )
step-outcomes t downward p torn =
    let f = advance-Frame t p.down p.server p.client in
    (
      ap (outcome t p.up) f.from_conn,
      advance-outcome t p.down p.server p.client (TornDown-CanCopy p torn).1,
    )
step-outcomes t caller p torn =
    let (up, down, client, server) = after_wait-keeps p.main p in
    (ground (arith, up, server), ground (arith, down, client))

run-outcomes :
    (t : ℕ) (ths : List Thread) (p : Pipe)
    → TornDown p
    → (up_outcome t (run t ths p) ≡ up_outcome t p)
      × (down_outcome t (run t ths p) ≡ down_outcome t p)
unfolding run
run-outcomes t [] p torn = (refl, refl)
run-outcomes t (th ∷ ths) p torn =
    let (up, down) = step-outcomes t th p torn in
    let (ups, downs) = run-outcomes t ths (step t th p) (step-TornDown t th p torn) in
    (ups ∙ up, downs ∙ down)

outcome-finished :
    (t : ℕ) (ph : Phase) (c : Conn) → is_finished ph ≡ true → outcome t ph c ≡ (c, true)
outcome-finished t (copying rounds) c h = absurd (ground (arith, h))
outcome-finished t close_write c h = absurd (ground (arith, h))
outcome-finished t close_read c h = absurd (ground (arith, h))
outcome-finished t finished c h = refl

-- A direction that is through has done what its loop does alone.
pub pipe_up :
    (t : ℕ) (ths : List Thread) (client server : Conn) (up_rounds down_rounds : List Round)
    (p : Pipe)
    → run t ths (pipe client server up_rounds down_rounds) ≡ p
    → is_finished p.up ≡ true
    → copy_with_timeout t up_rounds server ≡ (p.server.conn, true)
unfolding pipe
pipe_up t ths client server up_rounds down_rounds p e end =
    let (up, down) =
      run-outcomes t ths (pipe client server up_rounds down_rounds)
        (start-TornDown client server up_rounds down_rounds) in
    sym up ∙ ap (up_outcome t) e ∙ outcome-finished t p.up p.server.conn end

pipe_down :
    (t : ℕ) (ths : List Thread) (client server : Conn) (up_rounds down_rounds : List Round)
    (p : Pipe)
    → run t ths (pipe client server up_rounds down_rounds) ≡ p
    → is_finished p.down ≡ true
    → copy_with_timeout t down_rounds client ≡ (p.client.conn, true)
unfolding pipe
pipe_down t ths client server up_rounds down_rounds p e end =
    let (up, down) =
      run-outcomes t ths (pipe client server up_rounds down_rounds)
        (start-TornDown client server up_rounds down_rounds) in
    sym down ∙ ap (down_outcome t) e ∙ outcome-finished t p.down p.client.conn end

-- In whatever order the two directions take their steps, when `pipe` has returned either connection
-- has been sent what one direction after the other would have sent it, and both loops have
-- returned: each direction runs to its own end, and no call of `CloseWrite`, `CloseRead` or `Close`
-- takes a read or a write from the other.
pub pipe-sequential :
    (t : ℕ) (ths : List Thread) (client server : Conn) (up_rounds down_rounds : List Round)
    (p : Pipe)
    → run t ths (pipe client server up_rounds down_rounds) ≡ p
    → p.main ≡ returned
    → (copy_with_timeout t up_rounds server ≡ (p.server.conn, true))
      × (copy_with_timeout t down_rounds client ≡ (p.client.conn, true))
pipe-sequential t ths client server up_rounds down_rounds p e end =
    let torn : TornDown p =
      subst TornDown e (pipe-TornDown t ths client server up_rounds down_rounds) in
    elim torn.waited [
      | inl early ↦ absurd (cc (end, early))
      | inr (up, down) ↦ (
        pipe_up t ths client server up_rounds down_rounds p e up,
        pipe_down t ths client server up_rounds down_rounds p e down,
      )
    ]
