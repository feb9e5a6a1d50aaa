-- ===== src/Prelude/Decimal.antt =====
-- Decimal text of a number.
use Prim.Native.Nat.{ℕ, zero, suc, ◌+◌, ◌*◌, ◌/◌, ◌%◌, ◌<◌}
use mathlib.Core.Path.{◌≡◌, ap, sym, ◌∙◌}
use mathlib.Core.Logic.{inl, inr}
use mathlib.Core.List.{[], ◌∷◌, ◌++◌, reverse, reverse-cons, append_assoc, append-nil}
use native.Mathlib.Omega.{arith}
use spoof_dpi_turkiye.Prelude.Tests.{◌==◌, if◌then◌else◌, Bool-cases}
use spoof_dpi_turkiye.Prelude.ByteList.{Bytes}

-- The digits of a number, the last first; the number itself is fuel enough.
unfoldable pub digits_from : ℕ → ℕ → Bytes
digits_from zero n = []
digits_from (suc fuel) n =
    let rest = digits_from fuel (n / 10) in
    if n / 10 == 0 then (b'0' + n % 10) ∷ [] else (b'0' + n % 10) ∷ rest

-- `strconv.Itoa` of a number that is not negative
unfoldable pub itoa : ℕ → Bytes
unfolding digits_from
itoa n = reverse (digits_from (suc n) n)

-- What reads a digit by adding it to ten times what it has read reads the number.
module _ {ℓ} {A : Type ℓ} (f : ℕ → Bytes → A)
    (reads : (acc d : ℕ) (t : Bytes) → d < 10 → f acc ((b'0' + d) ∷ t) ≡ f (acc * 10 + d) t) where
  read-digits_from :
      (fuel n : ℕ) (t : Bytes) → n < fuel → f 0 (reverse (digits_from fuel n) ++ t) ≡ f n t
  unfolding digits_from
  read-digits_from zero n t lt = absurd (omega arith)
  read-digits_from (suc fuel) n t lt = elim (Bool-cases (n / 10 == 0)) [
    | inl small ↦
        let low : 0 * 10 + n % 10 ≡ n = ground arith in
        rw small (reads 0 (n % 10) t (omega arith) ∙ ap (λ k. f k t) low)
    | inr large ↦
        let rest = digits_from fuel (n / 10) in
        let digit = b'0' + n % 10 in
        let whole : n / 10 * 10 + n % 10 ≡ n = omega arith in
        rw large (
          ap (λ u. f 0 (u ++ t)) (reverse-cons digit rest)
          ∙ ap (f 0) (append_assoc (reverse rest) (digit ∷ []) t)
          ∙ read-digits_from fuel (n / 10) (digit ∷ t) (ground arith)
          ∙ reads (n / 10) (n % 10) t (omega arith)
          ∙ ap (λ k. f k t) whole)
  ]

  pub read-itoa : (n : ℕ) → f 0 (itoa n) ≡ f n []
  unfolding itoa
  read-itoa n = ap (f 0) (sym (append-nil (itoa n))) ∙ read-digits_from (suc n) n [] (omega arith)
