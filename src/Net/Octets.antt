-- ===== src/Net/Octets.antt =====
-- The decimal text of a byte, printed and read (`strconv.Itoa` and net.ParseIP).
use spoof_dpi_turkiye.Resolver.Answer.{is_empty}
use spoof_dpi_turkiye.Prelude.{
  ℕ, zero, suc, ◌+◌, ◌*◌, ◌-◌, ◌/◌, ◌%◌, ◌<◌, ◌≡◌, refl, ap, ◌∙◌, Bool, true, false, ◌&&◌, [], ◌∷◌,
  ◌++◌, Bytes, itoa, ltb, ◌==◌, if◌then◌else◌, bytes_eq, bytes_eq→eq, arith, Bool-cases, inl, inr,
}
use spoof_dpi_turkiye.Net.{by_mark, is_digit, ipv4_fields, has_zone}

all_below : (ℕ → Bool) → ℕ → Bool
all_below f zero = true
all_below f (suc k) = f k && all_below f k

all_below_holds : (f : ℕ → Bool) (k n : ℕ) → all_below f k ≡ true → n < k → f n ≡ true
unfolding all_below
all_below_holds f zero n h lt = absurd (omega arith)
all_below_holds f (suc k) n h lt = elim (Bool-cases (n == k)) [
  | inl same ↦ ground (arith, h)
  | inr other ↦ all_below_holds f k n (ground (arith, h)) (ground arith)
]

-- The decimal text of a byte.
abbrev pub octet : ℕ → Bytes
octet n =
    if ltb n 10
    then (b'0' + n) ∷ []
    else if ltb n 100
    then (b'0' + n / 10) ∷ (b'0' + n % 10) ∷ []
    else (b'0' + n / 100) ∷ (b'0' + n / 10 % 10) ∷ (b'0' + n % 10) ∷ []

octets : all_below (λ n. bytes_eq (itoa n) (octet n)) 256 ≡ true
unfolding all_below itoa
octets = refl

pub itoa-octet : (n : ℕ) → n < 256 → itoa n ≡ octet n
itoa-octet n lt =
    bytes_eq→eq (itoa n) (octet n)
      (all_below_holds (λ n. bytes_eq (itoa n) (octet n)) 256 n octets lt)

ipv4_fields-digit :
    (fresh : Bool) (val dig_len d : ℕ) (before s : Bytes)
    → d < 10
    → (dig_len == 1 && val == 0) ≡ false
    → val * 10 + d < 256
    → ipv4_fields fresh val dig_len before ((b'0' + d) ∷ s)
      ≡ ipv4_fields false (val * 10 + d) (dig_len + 1) before s
unfolding ipv4_fields
ipv4_fields-digit fresh val dig_len d before s small whole fits =
    let digit : is_digit (b'0' + d) ≡ true = ground arith in
    let value : val * 10 + (b'0' + d - b'0') ≡ val * 10 + d = omega arith in
    let room : ltb 255 (val * 10 + d) ≡ false = ground arith in rw (digit, whole, value, room) refl

-- The parser reads a byte's text.
pub ipv4_fields-octet :
    (n : ℕ) (before s : Bytes)
    → n < 256
    → (k : ℕ) × (ipv4_fields true 0 0 before (octet n ++ s) ≡ ipv4_fields false n k before s)
ipv4_fields-octet n before s lt = elim (Bool-cases (ltb n 10)) [
  | inl one ↦ (
    1,
    rw one (
        ipv4_fields-digit true 0 0 n before s (ground arith) refl (omega arith)
        ∙ ap (λ v. ipv4_fields false v 1 before s) (omega arith)),
  )
  | inr more ↦ elim (Bool-cases (ltb n 100)) [
    | inl two ↦ (
      2,
      rw (more, two)
          (ipv4_fields-digit true 0 0 (n / 10) before ((b'0' + n % 10) ∷ s) (ground arith) refl
              (omega arith)
            ∙ ipv4_fields-digit false (0 * 10 + n / 10) 1 (n % 10) before s (omega arith)
                (ground arith) (omega arith)
            ∙ ap (λ v. ipv4_fields false v 2 before s) (omega arith)),
    )
    | inr three ↦ (
      3,
      rw (more, three)
          (ipv4_fields-digit true 0 0 (n / 100) before ((b'0' + n / 10 % 10) ∷ (b'0' + n % 10) ∷ s)
              (omega arith) refl (omega arith)
            ∙ ipv4_fields-digit false (0 * 10 + n / 100) 1 (n / 10 % 10) before
                ((b'0' + n % 10) ∷ s) (omega arith) (ground arith) (omega arith)
            ∙ ipv4_fields-digit false ((0 * 10 + n / 100) * 10 + n / 10 % 10) 2 (n % 10) before s
                (omega arith) refl (omega arith)
            ∙ ap (λ v. ipv4_fields false v 3 before s) (omega arith)),
    )
  ]
]

-- The digits of a byte are passed over by what looks for marks.
module _ {ℓ} {A : Type ℓ} (f : Bytes → A)
    (skips : (d : ℕ) (t : Bytes) → d < 10 → f ((b'0' + d) ∷ t) ≡ f t) where
  pub skips-octet : (n : ℕ) (t : Bytes) → n < 256 → f (octet n ++ t) ≡ f t
  skips-octet n t lt = elim (Bool-cases (ltb n 10)) [
    | inl one ↦ rw one (skips n t (ground arith))
    | inr more ↦ elim (Bool-cases (ltb n 100)) [
      | inl two ↦
          rw (more, two)
            (skips (n / 10) ((b'0' + n % 10) ∷ t) (ground arith) ∙ skips (n % 10) t (omega arith))
      | inr three ↦
          rw (more, three)
            (skips (n / 100) ((b'0' + n / 10 % 10) ∷ (b'0' + n % 10) ∷ t) (omega arith)
              ∙ skips (n / 10 % 10) ((b'0' + n % 10) ∷ t) (omega arith)
              ∙ skips (n % 10) t (omega arith))
    ]
  ]

pub has_zone-octet : (n : ℕ) (t : Bytes) → n < 256 → has_zone (octet n ++ t) ≡ has_zone t
has_zone-octet =
    skips-octet has_zone
      (λ d t small. let other : (b'0' + d == b'%') ≡ false = ground arith in rw other refl)

pub by_mark-octet :
    (whole : Bytes) (n : ℕ) (t : Bytes) → n < 256 → by_mark whole (octet n ++ t) ≡ by_mark whole t
unfolding by_mark
by_mark-octet whole = skips-octet (by_mark whole) (λ d t small.
    let dot : (b'0' + d == b'.') ≡ false = ground arith in
    let colon : (b'0' + d == b':') ≡ false = ground arith in
    let percent : (b'0' + d == b'%') ≡ false = ground arith in rw (dot, colon, percent) refl)

pub octet-ne-nil : (n : ℕ) (t : Bytes) → is_empty (octet n ++ t) ≡ false
octet-ne-nil n t = elim (Bool-cases (ltb n 10)) [
  | inl one ↦ rw one refl
  | inr more ↦ elim (Bool-cases (ltb n 100)) [
    | inl two ↦ rw (more, two) refl
    | inr three ↦ rw (more, three) refl
  ]
]
