-- ===== src/Args/Uint/Decimal.antt =====
-- uint16 flags in decimal (util/args.go).
use mathlib.Core.List.{reverse, reverse-cons, append_assoc, append-nil}
use spoof_dpi_turkiye.Prelude.{
  ℕ, zero, suc, ◌+◌, ◌*◌, ◌/◌, ◌%◌, ◌<◌, ◌≡◌, refl, sym, ◌∙◌, ap, false, [], ◌∷◌, ◌++◌, Option,
  none, some, arith, Bytes, itoa, digits_from, read-itoa, ltb, ◌==◌, if◌then◌else◌, Bool-cases, inl,
  inr,
}
use spoof_dpi_turkiye.Args.Uint.{
  NumError, range, FlagError, out_of_range, max_uint16, digit_value, parse_digits, has_underscore,
  checked, parse_uint, num_error, uint_set, uint_string,
}

-- Some digits, the first of which is not 0.
abbrev Leads : Bytes → Type 0
Leads u = (c : ℕ) × (s : Bytes) × (u ≡ c ∷ s) × ((c == b'0') ≡ false)

digits_from-Leads :
    (fuel n : ℕ) (t : Bytes) → 0 < n → n < fuel → Leads (reverse (digits_from fuel n) ++ t)
unfolding digits_from
digits_from-Leads zero n t some_digit lt = absurd (omega arith)
digits_from-Leads (suc fuel) n t some_digit lt = elim (Bool-cases (n / 10 == 0)) [
  | inl small ↦ rw small (b'0' + n % 10, t, refl, ground arith)
  | inr large ↦
      let rest = digits_from fuel (n / 10) in
      let digit = b'0' + n % 10 in
      let (c, s, split, lead) =
        digits_from-Leads fuel (n / 10) (digit ∷ t) (ground arith) (omega arith) in
      rw large (
        c,
        s,
        ap (λ u. u ++ t) (reverse-cons digit rest)
            ∙ append_assoc (reverse rest) (digit ∷ []) t
            ∙ split,
        lead,
      )
]

itoa-Leads : (n : ℕ) → 0 < n → Leads (itoa n)
unfolding itoa
itoa-Leads n some_digit =
    let (c, s, split, lead) = digits_from-Leads (suc n) n [] some_digit (omega arith) in
    (c, s, sym (append-nil (itoa n)) ∙ split, lead)

-- The loop in base 10, behind what may be too large already.
abbrev reading : ℕ → Bytes → ℕ × Option NumError
reading n t = if ltb max_uint16 n then (max_uint16, some range) else parse_digits 10 n t

digit_value_digit : (d : ℕ) → d < 10 → digit_value (b'0' + d) ≡ d
unfolding digit_value
digit_value_digit d lt = ground arith

reading_digit :
    (acc d : ℕ) (t : Bytes) → d < 10 → reading acc ((b'0' + d) ∷ t) ≡ reading (acc * 10 + d) t
unfolding parse_digits
reading_digit acc d t lt = rw (digit_value_digit d lt) (ground arith)

has_underscore_digit :
    (acc d : ℕ) (t : Bytes) → d < 10 → has_underscore ((b'0' + d) ∷ t) ≡ has_underscore t
has_underscore_digit acc d t lt = ground arith

parse_uint_decimal :
    (u : Bytes) → Leads u → has_underscore u ≡ false → parse_uint u ≡ parse_digits 10 0 u
unfolding parse_uint checked
parse_uint_decimal [] (c, s, split, lead) plain = absurd (cc split)
parse_uint_decimal (x ∷ u) (c, s, split, lead) plain =
    let lead' : (x == b'0') ≡ false = ground (arith, split, lead) in
    rw (lead', plain) (checked_plain (x ∷ u) (parse_digits 10 0 (x ∷ u)))
  where
    checked_plain : (u : Bytes) (r : ℕ × Option NumError) → checked u false r ≡ r
    checked_plain u (n, some e) = refl
    checked_plain u (n, none) = refl

-- What a uint16 flag makes of a number.
abbrev pub stored : ℕ → ℕ × Option FlagError
stored n = if ltb max_uint16 n then (max_uint16, some out_of_range) else (n, none)

uint_set_zero : uint_set (uint_string 0) ≡ (0, none)
unfolding uint_set uint_string parse_uint parse_digits checked itoa digits_from digit_value
uint_set_zero = refl

-- A number in decimal, as `String` prints a flag's value, is set as it is up to 65535; a larger one is
-- an error that says so, with 65535 stored.
pub uint_set-uint_string : (n : ℕ) → uint_set (uint_string n) ≡ stored n
unfolding uint_set uint_string num_error
uint_set-uint_string zero = uint_set_zero
uint_set-uint_string (suc n) =
    let plain = read-itoa (λ acc. has_underscore) has_underscore_digit (suc n) in
    let whole = parse_uint_decimal (itoa (suc n)) (itoa-Leads (suc n) (omega arith)) plain in
    let value = read-itoa reading reading_digit (suc n) in rw (whole, value) (ground arith)
