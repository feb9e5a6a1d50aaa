-- ===== src/Handler/Pipe/Returning.antt =====
-- How many steps the tunnel takes to its end (`pipe` of proxy/handler/https.go).
use spoof_dpi_turkiye.Prelude.{
  ℕ, suc, ◌+◌, ◌-◌, ◌≤◌, ◌≡◌, refl, ap, ◌∙◌, true, List, [], ◌∷◌, arith, length,
}
use spoof_dpi_turkiye.Handler.Chunks.{Conn}
use spoof_dpi_turkiye.Handler.Copy.{Round, copy_with_timeout}
use spoof_dpi_turkiye.Handler.Pipe.{
  Phase, copying, close_write, close_read, finished, Main, waiting, closing, returned, Side, Pipe,
  Thread, upward, downward, caller, is_finished, copy_round, after_wait, advance, step, run, pipe,
}
use spoof_dpi_turkiye.Handler.Pipe.Directions.{outcome, CanCopy, advance-copying}
use spoof_dpi_turkiye.Handler.Pipe.Order.{TornDown, TornDown-CanCopy, step-TornDown, start-TornDown}
use spoof_dpi_turkiye.Handler.Pipe.Ends.{up_outcome, down_outcome, step-outcomes, after_wait-keeps}

-- The steps that a direction has before it.
abbrev pub left : Phase → ℕ
left (copying rounds) = length rounds + 2
left close_write = 2
left close_read = 1
left finished = 0

copy_round-left :
    (t : ℕ) (r : Round) (rounds : List Round) (c : Conn)
    → left (copy_round t r rounds c).1 ≤ length rounds + 2
unfolding copy_round
copy_round-left t r rounds c = ground arith

advance-left :
    (t : ℕ) (ph : Phase) (from to : Side)
    → CanCopy ph from to
    → (outcome t ph to.conn).1 ≡ true
    → left (advance t ph from to).0 ≤ left ph - 1
unfolding advance copy_with_timeout
advance-left t (copying []) from to can h = absurd (ground (arith, h))
advance-left t (copying (r ∷ rounds)) from to can h =
    let moves = ap (λ x. left x.0) (advance-copying t r rounds from to can) in
    omega (arith, moves, copy_round-left t r rounds to.conn)
advance-left t close_write from to can h = omega arith
advance-left t close_read from to can h = omega arith
advance-left t finished from to can h = omega arith

-- How often each goroutine gets to run.
abbrev pub up_turns : List Thread → ℕ
up_turns [] = 0
up_turns (upward ∷ ths) = suc (up_turns ths)
up_turns (downward ∷ ths) = up_turns ths
up_turns (caller ∷ ths) = up_turns ths

abbrev pub down_turns : List Thread → ℕ
down_turns [] = 0
down_turns (upward ∷ ths) = down_turns ths
down_turns (downward ∷ ths) = suc (down_turns ths)
down_turns (caller ∷ ths) = down_turns ths

-- Neither loop is blocked for good.
abbrev Returns : ℕ → Pipe → Type 0
Returns t p = ((up_outcome t p).1 ≡ true) × ((down_outcome t p).1 ≡ true)

step-Returns : (t : ℕ) (th : Thread) (p : Pipe) → TornDown p → Returns t p → Returns t (step t th p)
step-Returns t th p torn h =
    let (up, down) = step-outcomes t th p torn in (ap (λ c. c.1) up ∙ h.0, ap (λ c. c.1) down ∙ h.1)

run-left :
    (t : ℕ) (ths : List Thread) (p : Pipe)
    → TornDown p
    → Returns t p
    → (left (run t ths p).up ≤ left p.up - up_turns ths)
      × (left (run t ths p).down ≤ left p.down - down_turns ths)
unfolding run step
run-left t [] p torn h = (omega arith, omega arith)
run-left t (upward ∷ ths) p torn h =
    let fewer = advance-left t p.up p.client p.server (TornDown-CanCopy p torn).0 h.0 in
    let rest =
      run-left t ths (step t upward p) (step-TornDown t upward p torn)
        (step-Returns t upward p torn h) in
    (omega (arith, fewer, rest.0), omega (arith, rest.1))
run-left t (downward ∷ ths) p torn h =
    let fewer = advance-left t p.down p.server p.client (TornDown-CanCopy p torn).1 h.1 in
    let rest =
      run-left t ths (step t downward p) (step-TornDown t downward p torn)
        (step-Returns t downward p torn h) in
    (omega (arith, rest.0), omega (arith, fewer, rest.1))
run-left t (caller ∷ ths) p torn h =
    let (up, down, client, server) = after_wait-keeps p.main p in
    let rest =
      run-left t ths (step t caller p) (step-TornDown t caller p torn)
        (step-Returns t caller p torn h) in
    (ground (arith, ap left up, rest.0), ground (arith, ap left down, rest.1))

left-finished : (ph : Phase) → left ph ≡ 0 → is_finished ph ≡ true
left-finished (copying rounds) h = absurd (omega arith)
left-finished close_write h = absurd (omega arith)
left-finished close_read h = absurd (omega arith)
left-finished finished h = refl

caller-returned :
    (t : ℕ) (m : Main) (p : Pipe)
    → p.main ≡ m
    → is_finished p.up ≡ true
    → is_finished p.down ≡ true
    → (step t caller (after_wait m p)).main ≡ returned
unfolding step after_wait
caller-returned t waiting p e up down = ground (arith, up, down)
caller-returned t closing p e up down = ground arith
caller-returned t returned p e up down = ground (arith, e)

-- If the loops of both directions return, `pipe` returns: once each goroutine has run as often as
-- it has rounds and twice more, in any order, two more steps of the caller are the end.
pub pipe_returns :
    (t : ℕ) (ths : List Thread) (client server : Conn) (up_rounds down_rounds : List Round)
    → (copy_with_timeout t up_rounds server).1 ≡ true
    → (copy_with_timeout t down_rounds client).1 ≡ true
    → length up_rounds + 2 ≤ up_turns ths
    → length down_rounds + 2 ≤ down_turns ths
    → (run t (caller ∷ caller ∷ []) (run t ths (pipe client server up_rounds down_rounds))).main
      ≡ returned
unfolding run pipe step
pipe_returns t ths client server up_rounds down_rounds up down up_many down_many =
    let start = pipe client server up_rounds down_rounds in
    let p = run t ths start in
    let (up_left, down_left) =
      run-left t ths start (start-TornDown client server up_rounds down_rounds) (up, down) in
    caller-returned t p.main p refl (left-finished p.up (omega arith))
      (left-finished p.down (omega arith))
