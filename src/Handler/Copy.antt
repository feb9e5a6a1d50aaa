-- ===== src/Handler/Copy.antt =====
-- `copyWithTimeout` of proxy/handler/https.go: one direction of the tunnel.
pub mod Order
pub mod Whole
use spoof_dpi_turkiye.Prelude.{
  ℕ, Bool, true, false, not, ◌&&◌, List, [], ◌∷◌, Bytes, ltb, length, if◌then◌else◌,
}
use spoof_dpi_turkiye.Handler.Chunks.{Conn, write}

-- How a round of the loop goes: whether the read deadline is set, the bytes that the read returns,
-- and whether it returns an error, EOF included, beside them.
pub record Round : Type 0 where
  pub deadline_set : Bool
  pub bytes : Bytes
  pub read_failed : Bool

-- `if n > 0 { to.Write(buf[:n]) }`: the connection after, and whether the write failed.
unfoldable pub forward : Conn → Bytes → Conn × Bool
forward to bytes =
    let (sent, n, failed) = write to bytes in
    if ltb 0 (length bytes) then (sent, failed) else (to, false)

-- The loop over the rounds that the environment gives, each after another for as long as it does
-- not return. `true` is a loop that has returned.
unfoldable pub copy_with_timeout : ℕ → List Round → Conn → Conn × Bool
copy_with_timeout timeout_ms [] to = (to, false)
copy_with_timeout timeout_ms (r ∷ rounds) to =
    let (after, write_failed) = forward to r.bytes in
    let again = copy_with_timeout timeout_ms rounds after in
    let read = if r.read_failed then (after, true) else again in
    if ltb 0 timeout_ms && not r.deadline_set
    then (to, true)
    else if write_failed
    then (after, true)
    else read
