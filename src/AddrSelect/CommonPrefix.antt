-- ===== src/AddrSelect/CommonPrefix.antt =====
-- `commonPrefixLen` (dns/addrselect/addrselect.go) against the bits of the two addresses.
use Prim.Native.Nat.{bit_xor}
use spoof_dpi_turkiye.Prelude.{
  ℕ, zero, suc, ◌+◌, ◌*◌, ◌/◌, ◌%◌, ◌≤◌, ◌<◌, ◌≡◌, refl, Bool, true, false, ◌&&◌, List, [], ◌∷◌,
  ◌++◌, arith, Bytes, length, take, All, ◌⊎◌, subst, some, ◌==◌, if◌then◌else◌, min, ==_iff, sym,
  ap, none, drop, length-take, take-append-drop, ◌∙◌, ℕ_discrete, Bool-cases, inl, inr,
}
use spoof_dpi_turkiye.AddrSelect.Rules.{leading_zeros8, common_bits, common_prefix_len}
use spoof_dpi_turkiye.AddrSelect.Ip.{as_slice, Addr, undefined, ip4, ip6, to4, is_mapped}

-- The bits of a byte, the most significant first.
abbrev pub bits8 : ℕ → List ℕ
bits8 x =
    x / 128 % 2
    ∷ x / 64 % 2
    ∷ x / 32 % 2
    ∷ x / 16 % 2
    ∷ x / 8 % 2
    ∷ x / 4 % 2
    ∷ x / 2 % 2
    ∷ x % 2
    ∷ []

abbrev pub bits_of : Bytes → List ℕ
bits_of [] = []
bits_of (x ∷ b) = bits8 x ++ bits_of b

-- The length of the longest common prefix of two lists.
unfoldable pub common_len : List ℕ → List ℕ → ℕ
common_len [] b = 0
common_len (x ∷ a) [] = 0
common_len (x ∷ a) (y ∷ b) = let rest = common_len a b in if x == y then suc rest else 0

every : (ℕ → Bool) → ℕ → Bool
every test zero = true
every test (suc k) = every test k && test k

agree : ℕ → ℕ → Bool
agree x y =
    (if bit_xor x y == 0 then 8 else leading_zeros8 (bit_xor x y)) == common_len (bits8 x) (bits8 y)

agree_table : every (λ x. every (agree x) 256) 256 ≡ true
unfolding every agree common_len leading_zeros8
agree_table = refl

every-holds : (test : ℕ → Bool) (k : ℕ) (m : ℕ) → m < k → every test k ≡ true → test m ≡ true
unfolding every
every-holds test (suc k) m lt h = ground (arith, every-holds test k m)
every-holds test zero m lt h = absurd (omega arith)

agree_bytes :
    (x y : ℕ)
    → x < 256
    → y < 256
    → (if bit_xor x y == 0 then 8 else leading_zeros8 (bit_xor x y))
      ≡ common_len (bits8 x) (bits8 y)
unfolding agree
agree_bytes x y hx hy =
    (==_iff _ _).0
      (every-holds (agree x) 256 y hy (every-holds (λ z. every (agree z) 256) 256 x hx agree_table))

leading_zeros8-lt : (x : ℕ) → (x == 0) ≡ false → leading_zeros8 x < 8
unfolding leading_zeros8
leading_zeros8-lt x h = ground arith

common_len-le : (a b : List ℕ) → common_len a b ≤ length a
unfolding common_len
common_len-le [] b = omega arith
common_len-le (x ∷ a) [] = omega arith
common_len-le (x ∷ a) (y ∷ b) = ground (arith, common_len-le a b)

-- Behind lists that are the same the count goes on; behind lists that differ it has ended.
common_len-append_all :
    (a b r s : List ℕ)
    → length a ≡ length b
    → common_len a b ≡ length a
    → common_len (a ++ r) (b ++ s) ≡ length a + common_len r s
unfolding common_len
common_len-append_all [] [] r s e h = omega arith
common_len-append_all [] (y ∷ b) r s e h = absurd (omega arith)
common_len-append_all (x ∷ a) [] r s e h = absurd (omega arith)
common_len-append_all (x ∷ a) (y ∷ b) r s e h = ground (arith, common_len-append_all a b r s)

common_len-append_part :
    (a b r s : List ℕ)
    → length a ≡ length b
    → common_len a b < length a
    → common_len (a ++ r) (b ++ s) ≡ common_len a b
unfolding common_len
common_len-append_part [] b r s e h = absurd (omega arith)
common_len-append_part (x ∷ a) [] r s e h = absurd (omega arith)
common_len-append_part (x ∷ a) (y ∷ b) r s e h = ground (arith, common_len-append_part a b r s)

common_len-nil : (b : List ℕ) → common_len [] b ≡ 0
unfolding common_len
common_len-nil b = refl

common_bits-common_len :
    (a b : Bytes)
    → All (λ x. x < 256) a
    → All (λ x. x < 256) b
    → length a ≡ length b
    → common_bits a b ≡ common_len (bits_of a) (bits_of b)
unfolding common_bits
common_bits-common_len [] b ha hb e = sym (common_len-nil (bits_of b))
common_bits-common_len (x ∷ a) [] ha hb e = absurd (omega arith)
common_bits-common_len (x ∷ a) (y ∷ b) ha hb e =
    let byte = agree_bytes x y ha.0 hb.0 in
    let rest = common_bits-common_len a b ha.1 hb.1 (omega arith) in
    elim (Bool-cases (bit_xor x y == 0)) [
      | inl same ↦
          let whole : common_len (bits8 x) (bits8 y) ≡ 8 = ground arith in
          rw same (
            omega (
              arith,
              rest,
              common_len-append_all (bits8 x) (bits8 y) (bits_of a) (bits_of b) refl whole,
            ))
      | inr differ ↦
          let part : leading_zeros8 (bit_xor x y) ≡ common_len (bits8 x) (bits8 y) = ground arith in
          rw differ (
            part
            ∙ sym (
                common_len-append_part (bits8 x) (bits8 y) (bits_of a) (bits_of b) refl
                  (omega (arith, part, leading_zeros8-lt (bit_xor x y) differ))))
    ]

common_len-prefix :
    (a b r s : List ℕ)
    → length a ≡ length b
    → common_len a b ≡ min (length a) (common_len (a ++ r) (b ++ s))
common_len-prefix a b r s e = elim (ℕ_discrete (common_len a b) (length a)) [
  | yes h ↦ omega (arith, h, common_len-append_all a b r s e h)
  | no h ↦
      let lt : common_len a b < length a = omega (arith, h, common_len-le a b) in
      omega (arith, lt, common_len-append_part a b r s e lt)
]

bits_of-append : (a b : Bytes) → bits_of (a ++ b) ≡ bits_of a ++ bits_of b
bits_of-append [] b = refl
bits_of-append (x ∷ a) b = ap (◌++◌ (bits8 x)) (bits_of-append a b)

length-bits_of : (a : Bytes) → length (bits_of a) ≡ 8 * length a
length-bits_of [] = refl
length-bits_of (x ∷ a) = omega (arith, length-bits_of a)

All-take {κ} : (P : ℕ → Type κ) (n : ℕ) (b : Bytes) → All P b → All P (take n b)
All-take P zero b h = tt
All-take P (suc n) [] h = tt
All-take P (suc n) (x ∷ b) h = (h.0, All-take P n b h.1)

bits_split : (n : ℕ) (b : Bytes) → bits_of (take n b) ++ bits_of (drop n b) ≡ bits_of b
bits_split n b = sym (bits_of-append (take n b) (drop n b)) ∙ ap bits_of (take-append-drop n b)

prefix_of_take :
    (n : ℕ) (s d : Bytes)
    → All (λ x. x < 256) s
    → All (λ x. x < 256) d
    → n ≤ length s
    → length s ≡ length d
    → common_bits (take n s) (take n d) ≡ min (8 * n) (common_len (bits_of s) (bits_of d))
prefix_of_take n s d hs hd le e =
    let ls : length (take n s) ≡ n = omega (arith, length-take n s) in
    let ld : length (take n d) ≡ n = omega (arith, length-take n d) in
    let bs : length (bits_of (take n s)) ≡ 8 * n = omega (arith, ls, length-bits_of (take n s)) in
    let bd : length (bits_of (take n d)) ≡ 8 * n = omega (arith, ld, length-bits_of (take n d)) in
    common_bits-common_len (take n s) (take n d) (All-take _ n s hs) (All-take _ n d hd)
      (ls ∙ sym ld)
    ∙ common_len-prefix (bits_of (take n s)) (bits_of (take n d)) (bits_of (drop n s))
        (bits_of (drop n d)) (bs ∙ sym bd)
    ∙ rw (bs, bits_split n s, bits_split n d)

-- The bytes of an address, an IPv4 address in IPv6 form as its four.
abbrev pub unmapped : Bytes → Bytes
unmapped b = elim (to4 b) [ none ↦ b | some b4 ↦ b4 ]

-- The common leading bits of two addresses of one version, at most 64 of them for IPv6, and 0 for
-- different versions.
abbrev pub shared_bits : Bytes → Bytes → ℕ
shared_bits s t =
    let common = common_len (bits_of s) (bits_of t) in
    if length s == 4 && length t == 4
    then common
    else if length s == 16 && length t == 16
    then min 64 common
    else 0

-- The zero value, or an address that stands for none of the other version.
abbrev pub IsSource : Addr → Type 0
IsSource undefined = Unit
IsSource (ip4 b) = length b ≡ 4
IsSource (ip6 b) = (length b ≡ 16) × (to4 b ≡ none)

All-drop {κ} : (P : ℕ → Type κ) (n : ℕ) (b : Bytes) → All P b → All P (drop n b)
All-drop P zero b h = h
All-drop P (suc n) [] h = tt
All-drop P (suc n) (x ∷ b) h = All-drop P n b h.1

unmapped-cases : (b : Bytes) → (unmapped b ≡ b) ⊎ (unmapped b ≡ drop 12 b)
unfolding to4
unmapped-cases b = elim (Bool-cases (length b == 4)) [
  | inl short ↦ inl (rw (short, unmapped) refl)
  | inr other ↦ elim (Bool-cases (length b == 16 && is_mapped b)) [
    | inl mapped ↦ inr (rw (other, mapped, unmapped) refl)
    | inr plain ↦ inl (rw (other, plain, unmapped) refl)
  ]
]

All-unmapped {κ} : (P : ℕ → Type κ) (b : Bytes) → All P b → All P (unmapped b)
All-unmapped P b h = elim (unmapped-cases b) [
  | inl e ↦ subst (All P) (sym e) h
  | inr e ↦ subst (All P) (sym e) (All-drop P 12 b h)
]

module _ (d : Bytes) (hd : All (λ x. x < 256) d) where
  shared0 : common_prefix_len undefined d ≡ shared_bits [] (unmapped d)
  unfolding common_prefix_len common_bits
  shared0 = elim (ℕ_discrete (length (unmapped d)) 0) [
    | yes empty ↦ rw empty refl
    | no differ ↦ let apart : (0 == length (unmapped d)) ≡ false = ground arith in rw apart refl
  ]

  shared4 :
      (s : Bytes)
      → All (λ x. x < 256) s
      → length s ≡ 4
      → common_prefix_len (ip4 s) d ≡ shared_bits s (unmapped d)
  unfolding common_prefix_len
  shared4 s hs ls = elim (ℕ_discrete (length (unmapped d)) 4) [
    | yes lt ↦
        let same = common_bits-common_len s (unmapped d) hs (All-unmapped _ d hd) (ls ∙ sym lt) in
        rw (ls, lt) same
    | no differ ↦
        let apart : (4 == length (unmapped d)) ≡ false = ground arith in
        let apart' : (length (unmapped d) == 4) ≡ false = ground arith in
        rw (ls, apart, apart') refl
  ]

  shared6 :
      (s : Bytes)
      → All (λ x. x < 256) s
      → length s ≡ 16
      → common_prefix_len (ip6 s) d ≡ shared_bits s (unmapped d)
  unfolding common_prefix_len
  shared6 s hs ls = elim (ℕ_discrete (length (unmapped d)) 16) [
    | yes lt ↦
        let same =
          prefix_of_take 8 s (unmapped d) hs (All-unmapped _ d hd) (omega arith) (ls ∙ sym lt) in
        rw (ls, lt) same
    | no differ ↦
        let apart : (16 == length (unmapped d)) ≡ false = ground arith in
        let apart' : (length (unmapped d) == 16) ≡ false = ground arith in
        rw (ls, apart, apart') refl
  ]

-- For a source that is no IPv4 address in IPv6 form, as all sources are behind `Unmap`,
-- `commonPrefixLen` is the number of leading bits that it has in common with the destination, which
-- counts as IPv4 when it is such an address: of 32 bits for IPv4, at most 64 for IPv6, and 0 for
-- addresses of different versions.
pub common_prefix_len_lem :
    (a : Addr) (d : Bytes)
    → IsSource a
    → All (λ x. x < 256) (as_slice a)
    → All (λ x. x < 256) d
    → common_prefix_len a d ≡ shared_bits (unmapped (as_slice a)) (unmapped d)
unfolding common_prefix_len to4
common_prefix_len_lem undefined d source hs hd = shared0 d hd
common_prefix_len_lem (ip4 s) d source hs hd =
    let own : unmapped s ≡ s = rw (source, unmapped) refl in
    shared4 d hd s hs source ∙ ap (λ t. shared_bits t (unmapped d)) (sym own)
common_prefix_len_lem (ip6 s) d (size, plain) hs hd =
    let own : unmapped s ≡ s = rw (plain, unmapped) refl in
    shared6 d hd s hs size ∙ ap (λ t. shared_bits t (unmapped d)) (sym own)
