-- ===== src/Handler/Copy/Order.antt =====
-- What one direction of the tunnel delivers (proxy/handler/https.go).
use mathlib.Core.List.{append-nil, append_assoc}
use spoof_dpi_turkiye.Prelude.{
  ℕ, ◌≡◌, refl, ap, sym, ◌∙◌, Bool, true, false, not, ◌&&◌, ◌||◌, lt→ltb, List, [], ◌∷◌, ◌++◌, ◌⊎◌,
  inl, inr, arith, Bytes, length, ltb, All, Bool-cases, if◌then◌else◌,
}
use spoof_dpi_turkiye.Handler.Chunks.{Conn, write}
use spoof_dpi_turkiye.Handler.Chunks.Sending.{write-prefix}
use spoof_dpi_turkiye.Handler.Copy.{Round, forward, copy_with_timeout}

-- The bytes that the reads return, up to the first error and with what comes beside it.
abbrev pub received : List Round → Bytes
received [] = []
received (r ∷ rounds) =
    let rest = received rounds in r.bytes ++ (if r.read_failed then [] else rest)

-- The bytes that a connection has got, as the first part of some text.
abbrev pub Delivers : Conn → Bytes → Conn → Type 0
Delivers to text to' = (p : Bytes) × (q : Bytes) × (p ++ q ≡ text) × (to'.sent ≡ to.sent ++ p)

nothing : (to : Conn) (text : Bytes) → Delivers to text to
nothing to text = ([], text, refl, sym (append-nil to.sent))

forward-Delivers :
    (to : Conn) (b : Bytes)
    → (p : Bytes) × (q : Bytes) × (p ++ q ≡ b)
      × ((forward to b).0.sent ≡ to.sent ++ p)
      × (((forward to b).1 ≡ true) ⊎ (((forward to b).1 ≡ false) × (q ≡ [])))
unfolding forward
forward-Delivers to [] = ([], [], refl, sym (append-nil to.sent), inr (refl, refl))
forward-Delivers to (x ∷ b) =
    let (p, q, split, wire, n, ended) = write-prefix to (x ∷ b) in
    let some_bytes : ltb 0 (length (x ∷ b)) ≡ true = lt→ltb _ _ (omega arith) in
    rw some_bytes (p, q, split, wire, ended)

-- A stop behind the bytes of one round.
stopped :
    (to to' : Conn) (p q b more : Bytes)
    → p ++ q ≡ b
    → to'.sent ≡ to.sent ++ p
    → Delivers to (b ++ more) to'
stopped to to' p q b more split wire =
    (p, q ++ more, sym (append_assoc p q more) ∙ ap (λ t. t ++ more) split, wire)

-- However reads, writes and deadlines fail, the other side gets the first bytes that were read, in
-- order, with nothing lost among them and nothing added.
pub copy_with_timeout-Delivers :
    (timeout_ms : ℕ) (rounds : List Round) (to : Conn)
    → Delivers to (received rounds) (copy_with_timeout timeout_ms rounds to).0
unfolding copy_with_timeout
copy_with_timeout-Delivers timeout_ms [] to = nothing to []
copy_with_timeout-Delivers timeout_ms (r ∷ rounds) to =
    let (p, q, split, wire, ended) = forward-Delivers to r.bytes in
    let after = (forward to r.bytes).0 in
    let more = if r.read_failed then [] else received rounds in
    elim (Bool-cases (ltb 0 timeout_ms && not r.deadline_set)) [
      | inl unset ↦ rw unset (nothing to (r.bytes ++ more))
      | inr set ↦ elim ended [
        | inl failed ↦ rw (set, failed) (stopped to after p q r.bytes more split wire)
        | inr (good, all) ↦ elim (Bool-cases r.read_failed) [
          | inl end ↦ rw (set, good, end) (stopped to after p q r.bytes [] split wire)
          | inr on ↦
              let (p', q', split', wire') = copy_with_timeout-Delivers timeout_ms rounds after in
              let whole : p ≡ r.bytes = sym (append-nil p) ∙ ap (◌++◌ p) (sym all) ∙ split in
              rw (set, good, on)
                (
                  p ++ p',
                  q',
                  append_assoc p p' q' ∙ ap (◌++◌ p) split' ∙ ap (λ t. t ++ received rounds) whole,
                  wire' ∙ ap (λ t. t ++ p') wire ∙ append_assoc to.sent p p',
                )
        ]
      ]
    ]

abbrev pub any_failed : List Round → Bool
any_failed [] = false
any_failed (r ∷ rounds) = r.read_failed || any_failed rounds

forward_clean :
    (to : Conn) (b : Bytes)
    → to.faults ≡ []
    → forward to b ≡ (record { sent = to.sent ++ b; faults = [] }, false)
unfolding forward write
forward_clean to [] clean = ground (arith, append-nil to.sent)
forward_clean to (x ∷ b) clean = ground arith

-- If no write and no deadline fails, all that was read is delivered, the bytes that came with the
-- error included, and the loop returns exactly when a read has failed.
copy_with_timeout-received :
    (timeout_ms : ℕ) (rounds : List Round) (to : Conn)
    → to.faults ≡ []
    → All (λ r. r.deadline_set ≡ true) rounds
    → ((copy_with_timeout timeout_ms rounds to).0.sent ≡ to.sent ++ received rounds)
      × ((copy_with_timeout timeout_ms rounds to).1 ≡ any_failed rounds)
unfolding copy_with_timeout
copy_with_timeout-received timeout_ms [] to clean set = (sym (append-nil to.sent), refl)
copy_with_timeout-received timeout_ms (r ∷ rounds) to clean set = elim (Bool-cases r.read_failed) [
  | inl end ↦ rw (forward_clean to r.bytes clean) (ground (arith, append-nil r.bytes))
  | inr on ↦
      let rest =
        copy_with_timeout-received timeout_ms rounds
          (record { sent = to.sent ++ r.bytes; faults = [] }) refl set.1 in
      rw (forward_clean to r.bytes clean)
        (ground (arith, rest.0, rest.1, append_assoc to.sent r.bytes (received rounds)))
]
