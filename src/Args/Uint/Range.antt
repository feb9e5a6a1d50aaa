-- ===== src/Args/Uint/Range.antt =====
-- The range of a uint16 flag (util/args.go).
use spoof_dpi_turkiye.Prelude.{
  ℕ, ◌+◌, ◌*◌, ◌≤◌, Bool, [], ◌∷◌, Option, none, some, arith, Bytes, ltb, Bool-cases, inl, inr,
}
use spoof_dpi_turkiye.Args.Uint.{
  NumError, max_uint16, digit_value, parse_digits, base_of, has_underscore, checked, parse_uint,
  uint_set,
}

parse_digits-le : (base n : ℕ) (s : Bytes) → n ≤ max_uint16 → (parse_digits base n s).0 ≤ max_uint16
unfolding parse_digits
parse_digits-le base n [] le = le
parse_digits-le base n (c ∷ s) le =
    let n1 = n * base + digit_value c in
    let skipped = parse_digits-le base n s le in
    elim (Bool-cases (ltb max_uint16 n1)) [
      | inl large ↦ rw large (ground (arith, skipped))
      | inr fits ↦
          let next = parse_digits-le base n1 s (ground arith) in
          rw fits (ground (arith, skipped, next))
    ]

checked-le :
    (s : Bytes) (underscores : Bool) (r : ℕ × Option NumError)
    → r.0 ≤ max_uint16
    → (checked s underscores r).0 ≤ max_uint16
unfolding checked
checked-le s underscores (n, some e) le = le
checked-le s underscores (n, none) le = ground arith

-- Whatever the text of a uint16 flag, what is stored is at most 65535, on an error too.
pub uint_set-le : (s : Bytes) → (uint_set s).0 ≤ max_uint16
unfolding uint_set parse_uint
uint_set-le [] = omega arith
uint_set-le (c ∷ s) =
    let (base, digits) = base_of (c ∷ s) in
    checked-le (c ∷ s) (has_underscore digits) (parse_digits base 0 digits)
      (parse_digits-le base 0 digits (omega arith))
