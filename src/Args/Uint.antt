-- ===== src/Args/Uint.antt =====
-- `uintNValue` of util/args.go, which the program has for uint16 alone, and `strconv.ParseUint` in
-- base 0, which it calls. The tests for an overflow of uint64 are left out: no number past 65535 is
-- kept.
pub mod Decimal
pub mod Range
use spoof_dpi_turkiye.Prelude.{
  ℕ, zero, suc, ◌+◌, ◌-◌, ◌*◌, ◌/◌, ◌%◌, ◌≤◌, ◌≡◌, Bool, true, false, not, ◌&&◌, ◌||◌, [], ◌∷◌,
  Option, none, some, arith, Bytes, itoa, get_or, length, drop, ltb, leb, ◌==◌, if◌then◌else◌,
}

pub data NumError : Type 0 where
  syntax range : NumError

-- `errParse` and `errRange`
pub data FlagError : Type 0 where
  parse_error out_of_range : FlagError

-- `c | 0x20`
abbrev pub lower : ℕ → ℕ
lower c = if c / 32 % 2 == 0 then c + 32 else c

-- The value of a digit or a letter; 36, which no base has, for all else.
unfoldable pub digit_value : ℕ → ℕ
digit_value c =
    if leb b'0' c && leb c b'9'
    then c - b'0'
    else if leb b'a' (lower c) && leb (lower c) b'z'
    then lower c - b'a' + 10
    else 36

abbrev pub max_uint16 : ℕ
max_uint16 = 65535

-- The loop over the digits, behind those that make up `n`.
unfoldable pub parse_digits : ℕ → ℕ → Bytes → ℕ × Option NumError
parse_digits base n [] = (n, none)
parse_digits base n (c ∷ s) =
    let skipped = parse_digits base n s in
    let n1 = n * base + digit_value c in
    let next = parse_digits base n1 s in
    if c == b'_'
    then skipped
    else if leb base (digit_value c)
    then (0, some syntax)
    else if ltb max_uint16 n1
    then (max_uint16, some range)
    else next

-- The base that a prefix names, and what is behind the prefix.
abbrev pub base_of : Bytes → ℕ × Bytes
base_of s =
    let mark = lower (get_or s 1 0) in
    if not (get_or s 0 0 == b'0')
    then (10, s)
    else if leb 3 (length s) && mark == b'b'
    then (2, drop 2 s)
    else if leb 3 (length s) && mark == b'o'
    then (8, drop 2 s)
    else if leb 3 (length s) && mark == b'x'
    then (16, drop 2 s)
    else (8, drop 1 s)

-- The loop of `underscoreOK`: `seen` is '0' behind a digit, '_' behind an underscore, '!' behind
-- another character, and '^' at the start.
unfoldable pub underscore_from : Bool → ℕ → Bytes → Bool
underscore_from hex seen [] = not (seen == b'_')
underscore_from hex seen (c ∷ s) =
    let digit = underscore_from hex b'0' s in
    let underscore = underscore_from hex b'_' s in
    let letter = underscore_from hex b'!' s in
    if leb b'0' c && leb c b'9' || hex && leb b'a' (lower c) && leb (lower c) b'f'
    then digit
    else if c == b'_'
    then if seen == b'0' then underscore else false
    else if seen == b'_'
    then false
    else letter

abbrev sign_cut : Bytes → Bytes
sign_cut [] = []
sign_cut (c ∷ s) = if c == b'-' || c == b'+' then s else c ∷ s

unfoldable pub underscore_ok : Bytes → Bool
unfolding underscore_from
underscore_ok s =
    let t = sign_cut s in
    let mark = lower (get_or t 1 0) in
    if leb 2 (length t) && get_or t 0 0 == b'0' && (mark == b'b' || mark == b'o' || mark == b'x')
    then underscore_from (mark == b'x') b'0' (drop 2 t)
    else underscore_from false b'^' t

abbrev pub has_underscore : Bytes → Bool
has_underscore [] = false
has_underscore (c ∷ s) = c == b'_' || has_underscore s

-- The end of `ParseUint`, by what the loop gives.
unfoldable pub checked : Bytes → Bool → ℕ × Option NumError → ℕ × Option NumError
unfolding underscore_ok
checked s underscores (n, some e) = (n, some e)
checked s underscores (n, none) =
    if underscores && not (underscore_ok s) then (0, some syntax) else (n, none)

-- `strconv.ParseUint(s, 0, 16)`
unfoldable pub parse_uint : Bytes → ℕ × Option NumError
unfolding parse_digits checked
parse_uint [] = (0, some syntax)
parse_uint (c ∷ s) =
    let (base, digits) = base_of (c ∷ s) in
    checked (c ∷ s) (has_underscore digits) (parse_digits base 0 digits)

unfoldable pub num_error : NumError → FlagError
num_error syntax = parse_error
num_error range = out_of_range

abbrev map_error : Option NumError → Option FlagError
map_error none = none
map_error (some e) = some (num_error e)

-- `uintNValue.Set`: the value that is stored, on an error too, and the error.
unfoldable pub uint_set : Bytes → ℕ × Option FlagError
unfolding parse_uint num_error
uint_set s = let (v, e) = parse_uint s in (v, map_error e)

-- `uintNValue.String`
unfoldable pub uint_string : ℕ → Bytes
uint_string v = itoa v
