-- ===== src/Log/TraceId.antt =====
-- The text of a trace id (util/log/context.go).
use spoof_dpi_turkiye.Prelude.{
  ℕ, zero, suc, ◌/◌, ◌%◌, ◌<◌, ◌≡◌, refl, Bool, true, ◌&&◌, ◌||◌, List, [], ◌∷◌, ◌++◌, Bytes, leb,
  arith, length, All, All-append, ap, ◌==◌,
}
use spoof_dpi_turkiye.Log.{hex_char, trace_from, generate_trace_id}

-- The number without its last hexadecimal digits.
abbrev pub shifted : ℕ → ℕ → ℕ
shifted zero q = q
shifted (suc n) q = shifted n (q / 16)

-- That many hexadecimal digits of a number, the last first.
abbrev pub hex_run : ℕ → ℕ → Bytes
hex_run zero q = []
hex_run (suc n) q = hex_char (q % 16) ∷ hex_run n (q / 16)

-- A digit, a letter from a to f, or a dash.
abbrev is_trace_char : ℕ → Bool
is_trace_char c = leb b'0' c && leb c b'9' || leb b'a' c && leb c b'f' || c == b'-'

abbrev pub TraceChars : Bytes → Type 0
TraceChars s = All (λ c. is_trace_char c ≡ true) s

hex_char_lem : (r : ℕ) → r < 16 → is_trace_char (hex_char r) ≡ true
unfolding hex_char
hex_char_lem r lt = ground arith

hex_run-TraceChars : (n q : ℕ) → TraceChars (hex_run n q) × (length (hex_run n q) ≡ n)
hex_run-TraceChars zero q = (tt, refl)
hex_run-TraceChars (suc n) q =
    let (chars, len) = hex_run-TraceChars n (q / 16) in
    ((hex_char_lem (q % 16) (omega arith), chars), ap suc len)

-- A group of digits behind a dash.
abbrev dashed : Bytes → Bytes → Bytes
dashed group rest = group ++ b'-' ∷ rest

abbrev pub groups : ℕ → ℕ → ℕ → Bytes
groups q0 q1 q2 = dashed (hex_run 8 q0) (
    dashed (hex_run 7 (shifted 8 q0) ++ hex_run 1 q1)
      (dashed (hex_run 8 (shifted 1 q1)) (hex_run 6 (shifted 9 q1) ++ hex_run 2 q2)))

append-TraceChars : (g h : Bytes) → TraceChars g → TraceChars h → TraceChars (g ++ h)
append-TraceChars g h = All-append (λ c. is_trace_char c ≡ true) g h

dashed-TraceChars : (g h : Bytes) → TraceChars g → TraceChars h → TraceChars (dashed g h)
dashed-TraceChars g h left right = append-TraceChars g (b'-' ∷ h) left (refl, right)

chars : (n q : ℕ) → TraceChars (hex_run n q)
chars n q = (hex_run-TraceChars n q).0

-- A trace id is 35 characters, lower-case hexadecimal digits and dashes: four groups of eight
-- digits, of which the first 15 are the last 60 bits of the first random number, the next 15 those of
-- the second, and the last two the last byte of the third.
pub generate_trace_id_lem :
    (q0 q1 q2 : ℕ) (more : List ℕ)
    → (generate_trace_id (q0 ∷ q1 ∷ q2 ∷ more) ≡ groups q0 q1 q2)
      × (length (groups q0 q1 q2) ≡ 35)
      × TraceChars (groups q0 q1 q2)
unfolding generate_trace_id trace_from
generate_trace_id_lem q0 q1 q2 more =
    (refl, refl, search (dashed-TraceChars, append-TraceChars, chars))
