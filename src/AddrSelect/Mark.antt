-- ===== src/AddrSelect/Mark.antt =====
-- Lexicographic comparison of lists of marks, the order that the rules of `Less` are measured
-- against.
use spoof_dpi_turkiye.Prelude.{
  ℕ, ◌≡◌, refl, Bool, true, false, List, [], ◌∷◌, Option, none, some, arith, length, ltb,
  if◌then◌else◌,
}
use spoof_dpi_turkiye.AddrSelect.Rules.{decide}

-- A quantity of which more is better, or of which less is better.
pub data Mark : Type 0 where
  more : ℕ → Mark
  fewer : ℕ → Mark

abbrev pub beats : Mark → Mark → Bool
beats (more m) (more n) = ltb n m
beats (more m) (fewer n) = true
beats (fewer m) (more n) = false
beats (fewer m) (fewer n) = ltb m n

abbrev pub versus : Mark → Mark → Option Bool
versus m n = if beats m n then some true else if beats n m then some false else none

-- The first marks that differ decide.
unfoldable pub lex : List Mark → List Mark → Bool
lex [] ys = false
lex (x ∷ xs) [] = false
lex (x ∷ xs) (y ∷ ys) =
    let rest = lex xs ys in if beats x y then true else if beats y x then false else rest

abbrev pub contests : List Mark → List Mark → List (Option Bool)
contests [] ys = []
contests (x ∷ xs) [] = []
contests (x ∷ xs) (y ∷ ys) = versus x y ∷ contests xs ys

pub decide-contests : (xs ys : List Mark) → decide (contests xs ys) ≡ lex xs ys
unfolding decide lex
decide-contests [] ys = refl
decide-contests (x ∷ xs) [] = refl
decide-contests (x ∷ xs) (y ∷ ys) = ground (arith, decide-contests xs ys)

pub beats_irrefl : (x : Mark) → beats x x ≡ false
beats_irrefl (more m) = ground arith
beats_irrefl (fewer m) = ground arith

beats-eq : (x y : Mark) → beats x y ≡ false → beats y x ≡ false → x ≡ y
beats-eq (more m) (more n) h k = ground arith
beats-eq (more m) (fewer n) h k = ground arith
beats-eq (fewer m) (more n) h k = ground arith
beats-eq (fewer m) (fewer n) h k = ground arith

beats_asymm : (x y : Mark) → beats x y ≡ true → beats y x ≡ false
beats_asymm (more m) (more n) h = ground arith
beats_asymm (more m) (fewer n) h = ground arith
beats_asymm (fewer m) (more n) h = ground arith
beats_asymm (fewer m) (fewer n) h = ground arith

beats_trans : (x y z : Mark) → beats x y ≡ true → beats y z ≡ true → beats x z ≡ true
beats_trans (more l) (more m) (more n) h k = ground arith
beats_trans (more l) (more m) (fewer n) h k = ground arith
beats_trans (more l) (fewer m) (more n) h k = ground arith
beats_trans (more l) (fewer m) (fewer n) h k = ground arith
beats_trans (fewer l) (more m) z h k = ground arith
beats_trans (fewer l) (fewer m) (more n) h k = ground arith
beats_trans (fewer l) (fewer m) (fewer n) h k = ground arith

pub lex_irrefl : (xs : List Mark) → lex xs xs ≡ false
unfolding lex
lex_irrefl [] = refl
lex_irrefl (x ∷ xs) = ground (arith, beats_irrefl x, lex_irrefl xs)

pub lex_asymm : (xs ys : List Mark) → lex xs ys ≡ true → lex ys xs ≡ false
unfolding lex
lex_asymm [] ys h = ground arith
lex_asymm (x ∷ xs) [] h = ground arith
lex_asymm (x ∷ xs) (y ∷ ys) h = ground (arith, beats_asymm x y, lex_asymm xs ys)

-- Marks that do not decide are the same marks.
pub lex-eq :
    (xs ys : List Mark) → length xs ≡ length ys → lex xs ys ≡ false → lex ys xs ≡ false → xs ≡ ys
unfolding lex
lex-eq [] [] e h k = refl
lex-eq [] (y ∷ ys) e h k = absurd (omega arith)
lex-eq (x ∷ xs) [] e h k = absurd (omega arith)
lex-eq (x ∷ xs) (y ∷ ys) e h k = ground (arith, beats-eq x y, lex-eq xs ys)

pub lex_trans : (xs ys zs : List Mark) → lex xs ys ≡ true → lex ys zs ≡ true → lex xs zs ≡ true
unfolding lex
lex_trans [] ys zs h k = ground arith
lex_trans (x ∷ xs) [] zs h k = ground arith
lex_trans (x ∷ xs) (y ∷ ys) [] h k = ground arith
lex_trans (x ∷ xs) (y ∷ ys) (z ∷ zs) h k = ground (
  arith,
  beats_trans x y z,
  beats-eq x y,
  beats-eq y z,
  beats_asymm x y,
  beats_asymm y z,
  beats_asymm x z,
  lex_trans xs ys zs,
)
