-- ===== src/Handler/Chunks.antt =====
-- `splitInChunks` and `writeChunks` of proxy/handler/https.go. The window is not negative, since
-- `Config.Load` takes it from a uint16.
pub mod Split
pub mod Unique
pub mod Sending
use spoof_dpi_turkiye.Prelude.{
  ℕ, zero, suc, ◌+◌, List, [], ◌∷◌, ◌++◌, Option, none, some, Bool, true, false, Bytes, length,
  take, drop, min, ◌==◌, ltb, if◌then◌else◌,
}

-- The loop of `slices.Chunk`, on fuel.
unfoldable pub chunk_from : ℕ → ℕ → Bytes → List Bytes
chunk_from zero n s = []
chunk_from (suc fuel) n [] = []
chunk_from (suc fuel) n (x ∷ s) = take n (x ∷ s) ∷ chunk_from fuel n (drop n (x ∷ s))

-- `slices.Chunk`: a round consumes a byte at least, so the length is fuel enough.
unfoldable pub chunk : Bytes → ℕ → List Bytes
unfolding chunk_from
chunk s n = chunk_from (length s) n s

unfoldable pub split_in_chunks : Bytes → ℕ → List Bytes
unfolding chunk
split_in_chunks raw size =
    if size == 0
    then if length raw == 0
      then []
      else if ltb (length raw) 2
      then raw ∷ []
      else take 1 raw ∷ drop 1 raw ∷ []
    else chunk raw size

-- A connection to write to: what has been sent, and how the writes to come end. `some k` is an
-- error after `k` bytes, `none` and the end of the list are writes that succeed.
pub record Conn : Type 0 where
  pub sent : Bytes
  pub faults : List (Option ℕ)

unfoldable pub next_fault : List (Option ℕ) → Option ℕ
next_fault [] = none
next_fault (f ∷ fs) = f

abbrev pub later_faults : List (Option ℕ) → List (Option ℕ)
later_faults [] = []
later_faults (f ∷ fs) = fs

-- `net.TCPConn.Write`: the connection after, the number of bytes, and whether there is an error.
unfoldable pub write : Conn → Bytes → Conn × ℕ × Bool
unfolding next_fault
write c b = elim (next_fault c.faults) [
  | none ↦ (record { sent = c.sent ++ b; faults = later_faults c.faults }, length b, false)
  | some k ↦
      (record { sent = c.sent ++ take k b; faults = later_faults c.faults }, min k (length b), true)
]

-- The loop of `writeChunks`: what is returned is the total and, on an error, the number of the
-- chunk that it names.
unfoldable pub write_from : Conn → ℕ → ℕ → List Bytes → Conn × ℕ × Option ℕ
write_from c total i [] = (c, total, none)
write_from c total i (b ∷ chunks) =
    let (c', n, failed) = write c b in
    let rest = write_from c' (total + n) (i + 1) chunks in
    if failed then (c', total + n, some (i + 1)) else rest

unfoldable pub write_chunks : Conn → List Bytes → Conn × ℕ × Option ℕ
unfolding write_from
write_chunks c chunks = write_from c 0 0 chunks
