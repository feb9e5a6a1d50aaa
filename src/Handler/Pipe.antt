-- ===== src/Handler/Pipe.antt =====
-- `pipe` of proxy/handler/https.go: the two directions of the tunnel, each in a goroutine, and the
-- function that waits for both. Any order of their steps is a list of threads. A step is a round of
-- `copyWithTimeout` or a call of `CloseWrite`, `CloseRead` or `Close`; errors of the last are dropped.
pub mod Directions
pub mod Order
pub mod Ends
pub mod Returning
pub mod Session
pub mod Request
use spoof_dpi_turkiye.Prelude.{
  ℕ, suc, Bool, true, false, not, ◌&&◌, ◌||◌, ◌==◌, length, List, [], ◌∷◌, Bytes, ltb,
  if◌then◌else◌,
}
use spoof_dpi_turkiye.Handler.Chunks.{Conn}
use spoof_dpi_turkiye.Handler.Copy.{Round, forward}

-- Where a goroutine is: in the loop with the rounds to come, before `CloseWrite`, before
-- `CloseRead`, or past `wg.Done`.
pub data Phase : Type 0 where
  copying : List Round → Phase
  close_write close_read finished : Phase

-- Where `pipe` is: in `wg.Wait`, before the second `Close`, or at its end.
pub data Main : Type 0 where
  waiting closing returned : Main

-- A `net.TCPConn`: what is written to it, its halves, and how often `Close` is called.
pub record Side : Type 0 where
  pub conn : Conn
  pub write_open : Bool
  pub read_open : Bool
  pub closes : ℕ

-- `up` copies from the client to the server, `down` back.
pub record Pipe : Type 0 where
  pub client : Side
  pub server : Side
  pub up : Phase
  pub down : Phase
  pub main : Main

pub data Thread : Type 0 where
  upward downward caller : Thread

-- One round of the loop of `copyWithTimeout`, with the rounds behind it.
unfoldable pub copy_round : ℕ → Round → List Round → Conn → Conn × Phase
copy_round timeout_ms r rounds to =
    let (after, write_failed) = forward to r.bytes in
    if ltb 0 timeout_ms && not r.deadline_set
    then (to, close_write)
    else if write_failed
    then (after, close_write)
    else if r.read_failed
    then (after, close_write)
    else (after, copying rounds)

-- A read of a side that `CloseRead` or `Close` was called on returns at once, without bytes, and a
-- write to one that `CloseWrite` or `Close` was called on fails.
abbrev pub is_readable : Side → Bool
is_readable s = s.read_open && s.closes == 0

abbrev pub is_writable : Side → Bool
is_writable s = s.write_open && s.closes == 0

-- A round between two sides, the first of which can be read. Without a round to come, its read blocks.
unfoldable pub copy_between : ℕ → List Round → Side → Side → Phase × Side × Side
copy_between timeout_ms [] from to = (copying [], from, to)
copy_between timeout_ms (r ∷ rounds) from to =
    let (conn, phase) = copy_round timeout_ms r rounds to.conn in
    let copied : Phase × Side × Side = (phase, from, record to { conn = conn }) in
    if is_writable to || length r.bytes == 0 then copied else (close_write, from, to)

-- A step of a goroutine, from one side to the other.
unfoldable pub advance : ℕ → Phase → Side → Side → Phase × Side × Side
unfolding copy_between
advance timeout_ms (copying rounds) from to =
    let copied = copy_between timeout_ms rounds from to in
    if is_readable from then copied else (close_write, from, to)
advance timeout_ms close_write from to = (close_read, from, record to { write_open = false })
advance timeout_ms close_read from to = (finished, record from { read_open = false }, to)
advance timeout_ms finished from to = (finished, from, to)

abbrev pub is_finished : Phase → Bool
is_finished finished = true
is_finished (copying rounds) = false
is_finished close_write = false
is_finished close_read = false

abbrev close : Side → Side
close s = record s { closes = suc s.closes }

-- From `wg.Wait` on.
unfoldable pub after_wait : Main → Pipe → Pipe
after_wait waiting p =
    if is_finished p.up && is_finished p.down
    then record p { client = close p.client; main = closing }
    else p
after_wait closing p = record p { server = close p.server; main = returned }
after_wait returned p = p

unfoldable pub step : ℕ → Thread → Pipe → Pipe
step timeout_ms upward p =
    let (phase, client, server) = advance timeout_ms p.up p.client p.server in
    record p { up = phase; client = client; server = server }
step timeout_ms downward p =
    let (phase, server, client) = advance timeout_ms p.down p.server p.client in
    record p { down = phase; client = client; server = server }
step timeout_ms caller p = after_wait p.main p

unfoldable pub run : ℕ → List Thread → Pipe → Pipe
run timeout_ms [] p = p
run timeout_ms (thread ∷ threads) p = run timeout_ms threads (step timeout_ms thread p)

abbrev pub open_side : Conn → Side
open_side conn = record { conn = conn; write_open = true; read_open = true; closes = 0 }

-- `pipe` at its start, with what the reads of either direction will return.
unfoldable pub pipe : Conn → Conn → List Round → List Round → Pipe
pipe client server up_rounds down_rounds = record {
  client = open_side client;
  server = open_side server;
  up = copying up_rounds;
  down = copying down_rounds;
  main = waiting;
}
