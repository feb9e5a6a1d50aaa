-- ===== src/Args/Keeping.antt =====
-- Flags and words that keep the numbers of the arguments in bounds (util/args.go).
use spoof_dpi_turkiye.Prelude.{
  ℕ, ◌≤◌, Bool, true, ◌||◌, List, [], ◌∷◌, Option, none, some, Result, ok, err, arith, Bytes,
  bytes_eq, All, get_or, length, drop, ◌==◌, Bool-cases, inl, inr,
}
use spoof_dpi_turkiye.Args.{Args, Setter, string_var, uint_var, bool_var, flags}
use spoof_dpi_turkiye.Args.Uint.{FlagError, max_uint16, uint_set}
use spoof_dpi_turkiye.Args.Uint.Range.{uint_set-le}
use spoof_dpi_turkiye.Args.Command.{
  CommandError, Word, ends, fails, done, wants, parse_bool, uint_result, bool_result, set_value,
  lookup, cut, word_of, by_setter, by_name, parse_one,
}

-- The numbers are those of a uint16.
pub record Bounded (a : Args) : Type 0 where
  pub port : a.port ≤ max_uint16
  pub dns_port : a.dns_port ≤ max_uint16
  pub timeout : a.timeout ≤ max_uint16
  pub window_size : a.window_size ≤ max_uint16

-- A flag that keeps the numbers in bounds.
abbrev pub KeepsSetter : Setter → Type 0
KeepsSetter (string_var set) = (s : Bytes) (a : Args) → Bounded a → Bounded (set s a)
KeepsSetter (uint_var set) = (n : ℕ) (a : Args) → n ≤ max_uint16 → Bounded a → Bounded (set n a)
KeepsSetter (bool_var set) = (b : Bool) (a : Args) → Bounded a → Bounded (set b a)

abbrev pub BoundedResult : Result CommandError Args → Type 0
BoundedResult (ok a) = Bounded a
BoundedResult (err e) = Unit

abbrev pub BoundedWord : Word → Type 0
BoundedWord ends = Unit
BoundedWord (fails e) = Unit
BoundedWord (done a) = Bounded a
BoundedWord (wants name setter) = KeepsSetter setter

abbrev KeepsFlag : Option Setter → Type 0
KeepsFlag none = Unit
KeepsFlag (some setter) = KeepsSetter setter

flags-KeepsSetter : All (λ f. KeepsSetter f.1) flags
unfolding flags
flags-KeepsSetter = (
  λ s a h. ground (arith, h),
  (
    λ n a le h. ground (arith, le, h),
    (
      λ s a h. ground (arith, h),
      (
        λ n a le h. ground (arith, le, h),
        (
          λ s a h. ground (arith, h),
          (
            λ b a h. ground (arith, h),
            (
              λ s a h. ground (arith, h),
              (
                λ s a h. ground (arith, h),
                (
                  λ b a h. ground (arith, h),
                  (
                    λ b a h. ground (arith, h),
                    (
                      λ b a h. ground (arith, h),
                      (
                        λ n a le h. ground (arith, le, h),
                        (
                          λ n a le h. ground (arith, le, h),
                          (
                            λ b a h. ground (arith, h),
                            (λ s a h. ground (arith, h), (λ b a h. ground (arith, h), tt)),
                          ),
                        ),
                      ),
                    ),
                  ),
                ),
              ),
            ),
          ),
        ),
      ),
    ),
  ),
)

lookup-KeepsFlag :
    (formal : List (Bytes × Setter)) (name : Bytes)
    → All (λ f. KeepsSetter f.1) formal
    → KeepsFlag (lookup formal name)
unfolding lookup
lookup-KeepsFlag [] name keeps = tt
lookup-KeepsFlag ((x, setter) ∷ formal) name keeps = elim (Bool-cases (bytes_eq x name)) [
  | inl same ↦ rw same keeps.0
  | inr other_name ↦ rw other_name (lookup-KeepsFlag formal name keeps.1)
]

pub set_value-Bounded :
    (setter : Setter) (s : Bytes) (a : Args)
    → KeepsSetter setter
    → Bounded a
    → BoundedResult (set_value setter s a)
unfolding set_value
set_value-Bounded (string_var set) s a keeps h = keeps s a h
set_value-Bounded (uint_var set) s a keeps h = go (uint_set s) (uint_set-le s)
  where
    go : (r : ℕ × Option FlagError) → r.0 ≤ max_uint16 → BoundedResult (uint_result s set a r)
    go (n, none) le = keeps n a le h
    go (n, some e) le = tt
set_value-Bounded (bool_var set) s a keeps h = go (parse_bool s)
  where
    go : (r : Option Bool) → BoundedResult (bool_result s set a r)
    go none = tt
    go (some b) = keeps b a h

word_of-Bounded : (r : Result CommandError Args) → BoundedResult r → BoundedWord (word_of r)
word_of-Bounded (ok a) h = h
word_of-Bounded (err e) h = tt

by_setter-Bounded :
    (a : Args) (name : Bytes) (value : Option Bytes) (f : Option Setter)
    → KeepsFlag f
    → Bounded a
    → BoundedWord (by_setter a name value f)
unfolding by_setter
by_setter-Bounded a name value none keeps h = ground arith
by_setter-Bounded a name none (some (string_var set)) keeps h = keeps
by_setter-Bounded a name none (some (uint_var set)) keeps h = keeps
by_setter-Bounded a name none (some (bool_var set)) keeps h = keeps true a h
by_setter-Bounded a name (some s) (some setter) keeps h =
    word_of-Bounded (set_value setter s a) (set_value-Bounded setter s a keeps h)

by_name-Bounded : (a : Args) (s : Bytes) → Bounded a → BoundedWord (by_name a s)
unfolding by_name
by_name-Bounded a s h =
    let (name, value) = cut s in
    let found = lookup-KeepsFlag flags name flags-KeepsSetter in
    let set = by_setter-Bounded a name value (lookup flags name) found h in
    elim (Bool-cases (length s == 0 || get_or s 0 0 == b'-' || get_or s 0 0 == b'=')) [
      | inl bad ↦ rw bad tt
      | inr good ↦ rw good set
    ]

pub parse_one-Bounded : (a : Args) (s : Bytes) → Bounded a → BoundedWord (parse_one a s)
unfolding parse_one
parse_one-Bounded a s h =
    let short = by_name-Bounded a (drop 1 s) h in
    let long = by_name-Bounded a (drop 2 s) h in ground (arith, short, long)
