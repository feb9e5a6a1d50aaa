-- ===== src/Handler/Port.antt =====
-- The port of a request, as both handlers read it: the start of `Serve` in proxy/handler/http.go
-- and proxy/handler/https.go.
pub mod Decimal
use spoof_dpi_turkiye.Prelude.{
  ℕ, ◌+◌, ◌-◌, ◌*◌, ◌≤◌, ◌≡◌, Bool, ◌&&◌, ◌||◌, [], ◌∷◌, Option, none, some, arith, Bytes, itoa,
  join_host_port, ltb, leb, ◌==◌, if◌then◌else◌,
}

abbrev is_digit : ℕ → Bool
is_digit c = leb b'0' c && leb c b'9'

-- The value of decimal digits behind those that make up `n`.
unfoldable pub digits_value : ℕ → Bytes → Option ℕ
digits_value n [] = some n
digits_value n (c ∷ s) =
    let rest = digits_value (n * 10 + (c - b'0')) s in if is_digit c then rest else none

unfoldable pub unsigned : Bytes → Option ℕ
unfolding digits_value
unsigned [] = none
unsigned (c ∷ s) = digits_value 0 (c ∷ s)

-- `strconv.Atoi`, with `none` for its errors and for the negative numbers, which `Serve` treats
-- alike. A number past the range of int is an error there, and is past 65535 here.
unfoldable pub atoi : Bytes → Option ℕ
unfolding unsigned
atoi [] = none
atoi (c ∷ s) = if c == b'-' then none else if c == b'+' then unsigned s else unsigned (c ∷ s)

in_range : Option ℕ → Option ℕ
in_range none = none
in_range (some parsed) = if parsed == 0 || ltb 65535 parsed then none else some parsed

-- The port to dial, or `none` for a port on which the handler gives up.
unfoldable pub port_of : ℕ → Bytes → Option ℕ
unfolding atoi in_range
port_of default [] = some default
port_of default (c ∷ s) = in_range (atoi (c ∷ s))

-- The address that `dialTCP` dials.
unfoldable pub dial_tcp_addr : Bytes → ℕ → Bytes
dial_tcp_addr ip port = join_host_port ip (itoa port)
