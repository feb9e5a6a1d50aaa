-- ===== src/Handler/Copy/Whole.antt =====
-- That one direction of the tunnel delivers all (proxy/handler/https.go).
use mathlib.Core.List.{append-nil, append_assoc}
use spoof_dpi_turkiye.Prelude.{
  ℕ, ◌≡◌, refl, ap, sym, ◌∙◌, true, false, not, ◌&&◌, List, [], ◌∷◌, ◌++◌, ◌⊎◌, inl, inr, Option,
  none, some, arith, Bytes, length, ltb, Bool-cases,
}
use spoof_dpi_turkiye.Handler.Chunks.{Conn, write}
use spoof_dpi_turkiye.Handler.Copy.{Round, forward, copy_with_timeout}
use spoof_dpi_turkiye.Handler.Copy.Order.{received}

-- One of the writes to come fails.
abbrev pub Faulty : List (Option ℕ) → Type 0
Faulty [] = ⊥
Faulty (none ∷ faults) = Faulty faults
Faulty (some k ∷ faults) = Unit

-- There is a timeout, and one of the read deadlines cannot be set.
abbrev pub Undated : ℕ → List Round → Type 0
Undated timeout_ms [] = ⊥
Undated timeout_ms (r ∷ rounds) =
    ((ltb 0 timeout_ms && not r.deadline_set) ≡ true) ⊎ Undated timeout_ms rounds

-- A text has been delivered whole, but for a write or a deadline that fails.
abbrev pub Whole : ℕ → List Round → Conn → Bytes → Conn → Type 0
Whole timeout_ms rounds to text to' =
    (to'.sent ≡ to.sent ++ text) ⊎ Faulty to.faults ⊎ Undated timeout_ms rounds

-- A write is whole, or it fails.
write-Faulty :
    (c : Conn) (b : Bytes)
    → ((((write c b).0.sent ≡ c.sent ++ b) × ((write c b).2 ≡ false)) ⊎ Faulty c.faults)
      × (Faulty (write c b).0.faults → Faulty c.faults)
unfolding write
write-Faulty c b = go c.faults
  where
    go :
        (faults : List (Option ℕ))
        → ((((write (record c { faults = faults }) b).0.sent ≡ c.sent ++ b)
              × ((write (record c { faults = faults }) b).2 ≡ false))
            ⊎ Faulty faults)
          × (Faulty (write (record c { faults = faults }) b).0.faults → Faulty faults)
    go [] = (inl (refl, refl), (λ h. h))
    go (none ∷ faults) = (inl (refl, refl), (λ h. h))
    go (some k ∷ faults) = (inr tt, (λ h. tt))

forward-Faulty :
    (c : Conn) (b : Bytes)
    → ((((forward c b).0.sent ≡ c.sent ++ b) × ((forward c b).1 ≡ false)) ⊎ Faulty c.faults)
      × (Faulty (forward c b).0.faults → Faulty c.faults)
unfolding forward
forward-Faulty c [] = (inl (sym (append-nil c.sent), refl), (λ h. h))
forward-Faulty c (x ∷ b) =
    let some_bytes : ltb 0 (length (x ∷ b)) ≡ true = ground arith in
    rw some_bytes (write-Faulty c (x ∷ b))

-- Unless a write fails or a deadline cannot be set, all that was read is delivered, with the bytes
-- that came with an error.
pub copy_with_timeout-Whole :
    (timeout_ms : ℕ) (rounds : List Round) (to : Conn)
    → Whole timeout_ms rounds to (received rounds) (copy_with_timeout timeout_ms rounds to).0
unfolding copy_with_timeout
copy_with_timeout-Whole timeout_ms [] to = inl (sym (append-nil to.sent))
copy_with_timeout-Whole timeout_ms (r ∷ rounds) to =
    let (step, later) = forward-Faulty to r.bytes in
    let after = (forward to r.bytes).0 in
    elim (Bool-cases (ltb 0 timeout_ms && not r.deadline_set)) [
      | inl unset ↦ inr (inr (inl unset))
      | inr set ↦ elim step [
        | inr faulty ↦ inr (inl faulty)
        | inl (sent, good) ↦ elim (Bool-cases r.read_failed) [
          | inl end ↦
              inl (rw (set, good, end) (sent ∙ ap (λ b. to.sent ++ b) (sym (append-nil r.bytes))))
          | inr on ↦ elim (copy_with_timeout-Whole timeout_ms rounds after) [
            | inl whole ↦ inl (
                rw (set, good, on)
                  (whole
                    ∙ ap (λ t. t ++ received rounds) sent
                    ∙ append_assoc to.sent r.bytes (received rounds)))
            | inr (inl faulty) ↦ inr (inl (later faulty))
            | inr (inr undated) ↦ inr (inr (inr undated))
          ]
        ]
      ]
    ]
