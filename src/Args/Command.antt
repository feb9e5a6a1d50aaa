-- ===== src/Args/Command.antt =====
-- `ParseArgs` of util/args.go, with what package flag does of it. The command line is the words
-- behind the program's name; an error, or a request for help, ends the program.
use spoof_dpi_turkiye.Prelude.{
  ℕ, Bool, true, false, not, ◌||◌, List, [], ◌∷◌, Option, none, some, Result, ok, err, ◌>>=◌, Bytes,
  bytes, bytes_eq, get_or, length, drop, ltb, ◌==◌, if◌then◌else◌,
}
use spoof_dpi_turkiye.Args.{Args, Setter, string_var, uint_var, bool_var, defaults, flags}
use spoof_dpi_turkiye.Args.Uint.{FlagError, uint_set}

-- The errors of `FlagSet.parseOne`, by the word, the name or the value.
pub data CommandError : Type 0 where
  bad_syntax undefined needs_argument invalid_value : Bytes → CommandError
  help : CommandError

-- What a word comes to: the end of the flags, an error, a flag that is set, or one whose value is
-- the next word.
pub data Word : Type 0 where
  ends : Word
  fails : CommandError → Word
  done : Args → Word
  wants : Bytes → Setter → Word

abbrev pub any_of : List Bytes → Bytes → Bool
any_of [] s = false
any_of (x ∷ xs) s = bytes_eq x s || any_of xs s

-- `strconv.ParseBool`
unfoldable pub parse_bool : Bytes → Option Bool
parse_bool s =
    if any_of (bytes "1" ∷ bytes "t" ∷ bytes "T" ∷ bytes "true" ∷ bytes "TRUE" ∷ bytes "True" ∷ [])
      s
    then some true
    else if any_of
        (bytes "0" ∷ bytes "f" ∷ bytes "F" ∷ bytes "false" ∷ bytes "FALSE" ∷ bytes "False" ∷ []) s
    then some false
    else none

abbrev pub uint_result :
    Bytes → (ℕ → Args → Args) → Args → ℕ × Option FlagError → Result CommandError Args
uint_result s set st (n, none) = ok (set n st)
uint_result s set st (n, some e) = err (invalid_value s)

abbrev pub bool_result :
    Bytes → (Bool → Args → Args) → Args → Option Bool → Result CommandError Args
bool_result s set st none = err (invalid_value s)
bool_result s set st (some b) = ok (set b st)

-- `flag.Value.Set`
unfoldable pub set_value : Setter → Bytes → Args → Result CommandError Args
set_value (string_var set) s st = ok (set s st)
set_value (uint_var set) s st = uint_result s set st (uint_set s)
set_value (bool_var set) s st = bool_result s set st (parse_bool s)

unfoldable pub lookup : List (Bytes × Setter) → Bytes → Option Setter
lookup [] name = none
lookup ((x, setter) ∷ formal) name = if bytes_eq x name then some setter else lookup formal name

-- A name up to its first '=', and the value behind that.
unfoldable pub cut : Bytes → Bytes × Option Bytes
cut [] = ([], none)
cut (c ∷ s) = let (name, value) = cut s in if c == b'=' then ([], some s) else (c ∷ name, value)

abbrev pub word_of : Result CommandError Args → Word
word_of (ok st) = done st
word_of (err e) = fails e

-- From the lookup of the name on.
unfoldable pub by_setter : Args → Bytes → Option Bytes → Option Setter → Word
unfolding set_value
by_setter st name value none =
    if bytes_eq name (bytes "help") || bytes_eq name (bytes "h")
    then fails help
    else fails (undefined name)
by_setter st name none (some (bool_var set)) = done (set true st)
by_setter st name none (some setter) = wants name setter
by_setter st name (some s) (some setter) = word_of (set_value setter s st)

-- From the test of the name on, for a word without its dashes.
unfoldable pub by_name : Args → Bytes → Word
unfolding lookup cut by_setter
by_name st s =
    let (name, value) = cut s in
    if length s == 0 || get_or s 0 0 == b'-' || get_or s 0 0 == b'='
    then fails (bad_syntax s)
    else by_setter st name value (lookup flags name)

-- `FlagSet.parseOne`
unfoldable pub parse_one : Args → Bytes → Word
unfolding by_name
parse_one st s =
    if ltb (length s) 2 || not (get_or s 0 0 == b'-')
    then ends
    else if not (get_or s 1 0 == b'-')
    then by_name st (drop 1 s)
    else if length s == 2
    then ends
    else by_name st (drop 2 s)

abbrev pub last_word : Args → Word → Result CommandError Args
last_word st ends = ok st
last_word st (fails e) = err e
last_word st (done st') = ok st'
last_word st (wants name setter) = err (needs_argument name)

-- `FlagSet.Parse`
unfoldable pub parse_flags : Args → List Bytes → Result CommandError Args
parse_flags st [] = ok st
parse_flags st (s ∷ []) = last_word st (parse_one st s)
parse_flags st (s ∷ value ∷ words) = elim (parse_one st s) [
  | ends ↦ ok st
  | fails e ↦ err e
  | done st' ↦ parse_flags st' (value ∷ words)
  | wants name setter ↦ elim (set_value setter value st) [
    | err e ↦ err e
    | ok st' ↦ parse_flags st' words
  ]
]

abbrev pub default_fallback : List Bytes
default_fallback = bytes "8.8.8.8" ∷ bytes "9.9.9.9" ∷ []

-- What follows `flag.Parse`.
unfoldable pub fill_fallback : Args → Args
fill_fallback a =
    if length a.dns_fallback == 0 then record a { dns_fallback = default_fallback } else a

unfoldable pub parse_args : Bool → List Bytes → Result CommandError Args
unfolding parse_flags fill_fallback
parse_args is_darwin words = do a ← parse_flags (defaults is_darwin) words; ok (fill_fallback a)
