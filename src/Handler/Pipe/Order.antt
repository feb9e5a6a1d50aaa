-- ===== src/Handler/Pipe/Order.antt =====
-- What the sides of the tunnel have in every order of the steps (`pipe` of proxy/handler/https.go).
use spoof_dpi_turkiye.Prelude.{
  ℕ, ◌≡◌, refl, Bool, true, false, not, List, [], ◌∷◌, arith, ◌&&◌, &&_true, Bool-cases, ◌⊎◌, inl,
  inr, ◌∙◌, ap,
}
use spoof_dpi_turkiye.Handler.Chunks.{Conn}
use spoof_dpi_turkiye.Handler.Copy.{Round}
use spoof_dpi_turkiye.Handler.Pipe.{
  Phase, copying, close_write, close_read, finished, Main, waiting, closing, returned, Side, Pipe,
  Thread, upward, downward, caller, is_finished, after_wait, advance, step, run, pipe, copy_round,
  copy_between,
}
use spoof_dpi_turkiye.Handler.Pipe.Directions.{CanCopy}

abbrev pub may_write : Phase → Bool
may_write (copying rounds) = true
may_write close_write = true
may_write close_read = false
may_write finished = false

abbrev pub client_closed : Main → ℕ
client_closed waiting = 0
client_closed closing = 1
client_closed returned = 1

abbrev pub server_closed : Main → ℕ
server_closed waiting = 0
server_closed closing = 0
server_closed returned = 1

abbrev pub Both : Phase → Phase → Type 0
Both up down = (is_finished up ≡ true) × (is_finished down ≡ true)

-- A direction and its two sides.
pub record Halves (ph : Phase) (from to : Side) : Type 0 where
  pub writes : to.write_open ≡ may_write ph
  pub reads : from.read_open ≡ not (is_finished ph)

pub record TornDown (p : Pipe) : Type 0 where
  pub up_halves : Halves p.up p.client p.server
  pub down_halves : Halves p.down p.server p.client
  pub client_closes : p.client.closes ≡ client_closed p.main
  pub server_closes : p.server.closes ≡ server_closed p.main
  pub waited : (p.main ≡ waiting) ⊎ Both p.up p.down

copy_round_runs :
    (t : ℕ) (r : Round) (rounds : List Round) (c : Conn)
    → (may_write (copy_round t r rounds c).1 ≡ true)
      × (is_finished (copy_round t r rounds c).1 ≡ false)
unfolding copy_round
copy_round_runs t r rounds c = ground arith

-- A step of a direction from one state of it to another: it keeps to its halves.
pub record Frame (ph : Phase) (from to : Side) (ph' : Phase) (from' to' : Side) : Type 0 where
  pub halves : Halves ph from to → Halves ph' from' to'
  pub from_write : from'.write_open ≡ from.write_open
  pub from_conn : from'.conn ≡ from.conn
  pub from_closes : from'.closes ≡ from.closes
  pub to_read : to'.read_open ≡ to.read_open
  pub to_closes : to'.closes ≡ to.closes
  pub stays : is_finished ph ≡ true → is_finished ph' ≡ true

pub advance-Frame :
    (t : ℕ) (ph : Phase) (from to : Side)
    → Frame ph from to (advance t ph from to).0 (advance t ph from to).1 (advance t ph from to).2
unfolding advance copy_between
advance-Frame t (copying []) from to = ground arith
advance-Frame t (copying (r ∷ rounds)) from to = ground (arith, copy_round_runs t r rounds to.conn)
advance-Frame t close_write from to = ground arith
advance-Frame t close_read from to = ground arith
advance-Frame t finished from to = ground arith

after_wait-TornDown : (m : Main) (p : Pipe) → p.main ≡ m → TornDown p → TornDown (after_wait m p)
unfolding after_wait
after_wait-TornDown waiting p e h = elim (Bool-cases (is_finished p.up && is_finished p.down)) [
  | inl done ↦ rw done record {
    up_halves = record { writes = h.up_halves.writes; reads = h.up_halves.reads };
    down_halves = record { writes = h.down_halves.writes; reads = h.down_halves.reads };
    client_closes = ground (arith, h.client_closes);
    server_closes = ground (arith, h.server_closes);
    waited = inr (&&_true _ _ done);
  }
  | inr busy ↦ rw busy h
]
after_wait-TornDown closing p e h = record {
  up_halves = record { writes = h.up_halves.writes; reads = h.up_halves.reads };
  down_halves = record { writes = h.down_halves.writes; reads = h.down_halves.reads };
  client_closes = ground (arith, h.client_closes);
  server_closes = ground (arith, h.server_closes);
  waited = elim h.waited [ inl early ↦ absurd (cc (e, early)) | inr both ↦ inr both ];
}
after_wait-TornDown returned p e h = h

pub step-TornDown : (t : ℕ) (th : Thread) (p : Pipe) → TornDown p → TornDown (step t th p)
unfolding step
step-TornDown t upward p h =
    let f = advance-Frame t p.up p.client p.server in
    record {
      up_halves = f.halves h.up_halves;
      down_halves = record {
        writes = f.from_write ∙ h.down_halves.writes;
        reads = f.to_read ∙ h.down_halves.reads;
      };
      client_closes = f.from_closes ∙ h.client_closes;
      server_closes = f.to_closes ∙ h.server_closes;
      waited = elim h.waited [ inl early ↦ inl early | inr both ↦ inr (f.stays both.0, both.1) ];
    }
step-TornDown t downward p h =
    let f = advance-Frame t p.down p.server p.client in
    record {
      down_halves = f.halves h.down_halves;
      up_halves = record {
        writes = f.from_write ∙ h.up_halves.writes;
        reads = f.to_read ∙ h.up_halves.reads;
      };
      server_closes = f.from_closes ∙ h.server_closes;
      client_closes = f.to_closes ∙ h.client_closes;
      waited = elim h.waited [ inl early ↦ inl early | inr both ↦ inr (both.0, f.stays both.1) ];
    }
step-TornDown t caller p h = after_wait-TornDown p.main p refl h

pub run-TornDown : (t : ℕ) (ths : List Thread) (p : Pipe) → TornDown p → TornDown (run t ths p)
unfolding run
run-TornDown t [] p h = h
run-TornDown t (th ∷ ths) p h = run-TornDown t ths (step t th p) (step-TornDown t th p h)

pub start-TornDown :
    (client server : Conn) (up_rounds down_rounds : List Round)
    → TornDown (pipe client server up_rounds down_rounds)
unfolding pipe
start-TornDown client server up_rounds down_rounds = record {
  up_halves = record { writes = refl; reads = refl };
  down_halves = record { writes = refl; reads = refl };
  client_closes = refl;
  server_closes = refl;
  waited = inl refl;
}

-- In every order of the steps, each half of a connection is open as long as the direction that
-- uses it is in its loop, `CloseWrite` comes after the last write of its direction, `CloseRead` after
-- that, and no connection is closed before both directions are through; then each is closed once,
-- the client's first.
pub pipe-TornDown :
    (t : ℕ) (ths : List Thread) (client server : Conn) (up_rounds down_rounds : List Round)
    → TornDown (run t ths (pipe client server up_rounds down_rounds))
pipe-TornDown t ths client server up_rounds down_rounds =
    run-TornDown t ths (pipe client server up_rounds down_rounds)
      (start-TornDown client server up_rounds down_rounds)

Halves-CanCopy :
    (ph : Phase) (from to : Side)
    → Halves ph from to
    → (is_finished ph ≡ false → (from.closes ≡ 0) × (to.closes ≡ 0))
    → CanCopy ph from to
Halves-CanCopy (copying rounds) from to h unclosed =
    let (from_zero, to_zero) = unclosed refl in
    (rw (h.reads, from_zero) refl, rw (h.writes, to_zero) refl)
Halves-CanCopy close_write from to h unclosed = tt
Halves-CanCopy close_read from to h unclosed = tt
Halves-CanCopy finished from to h unclosed = tt

-- While a direction copies, what it reads and writes is open.
pub TornDown-CanCopy :
    (p : Pipe) → TornDown p → CanCopy p.up p.client p.server × CanCopy p.down p.server p.client
TornDown-CanCopy p h = elim h.waited [
  | inl early ↦
      let client = h.client_closes ∙ ap client_closed early in
      let server = h.server_closes ∙ ap server_closed early in
      (
        Halves-CanCopy p.up p.client p.server h.up_halves (λ busy. (client, server)),
        Halves-CanCopy p.down p.server p.client h.down_halves (λ busy. (server, client)),
      )
  | inr (up, down) ↦ (
    Halves-CanCopy p.up p.client p.server h.up_halves (λ busy. absurd (cc (up, busy))),
    Halves-CanCopy p.down p.server p.client h.down_halves (λ busy. absurd (cc (down, busy))),
  )
]
