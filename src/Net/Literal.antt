-- ===== src/Net/Literal.antt =====
-- The texts of IPv4 addresses, read back (net.ParseIP and net.IP.String).
use mathlib.Core.List.{append-nil}
use spoof_dpi_turkiye.Prelude.{
  ℕ, ◌+◌, ◌<◌, ◌≡◌, refl, ap, ◌∙◌, true, false, [], ◌∷◌, ◌++◌, some, Bytes, length, ◌==◌, contains,
}
use spoof_dpi_turkiye.AddrSelect.Ip.{mapped_prefix, to4}
use spoof_dpi_turkiye.Net.{parse_ip, by_mark, parse_ipv4, ipv4_fields, has_zone}
use spoof_dpi_turkiye.Net.Text.{dotted, ip_string}
use spoof_dpi_turkiye.Net.Octets.{
  octet, itoa-octet, ipv4_fields-octet, skips-octet, has_zone-octet, by_mark-octet, octet-ne-nil,
}

-- A byte that another follows.
ipv4_fields_next :
    (a b : ℕ) (before t : Bytes)
    → a < 256
    → (length before == 3) ≡ false
    → ipv4_fields true 0 0 before (octet a ++ b'.' ∷ (octet b ++ t))
      ≡ ipv4_fields true 0 0 (before ++ a ∷ []) (octet b ++ t)
unfolding ipv4_fields
ipv4_fields_next a b before t lt few =
    let (k, reads) = ipv4_fields-octet a before (b'.' ∷ (octet b ++ t)) lt in
    reads ∙ rw (octet-ne-nil b t, few) refl

text4 : ℕ → ℕ → ℕ → ℕ → Bytes
text4 a b c d = octet a ++ b'.' ∷ (octet b ++ b'.' ∷ (octet c ++ b'.' ∷ (octet d ++ [])))

parse_ipv4-text4 :
    (a b c d : ℕ)
    → a < 256
    → b < 256
    → c < 256
    → d < 256
    → parse_ipv4 (text4 a b c d) ≡ some (a ∷ b ∷ c ∷ d ∷ [])
unfolding parse_ipv4 ipv4_fields text4
parse_ipv4-text4 a b c d la lb lc ld =
    ipv4_fields_next a b [] _ la refl
    ∙ ipv4_fields_next b c (a ∷ []) _ lb refl
    ∙ ipv4_fields_next c d (a ∷ b ∷ []) _ lc refl
    ∙ (ipv4_fields-octet d (a ∷ b ∷ c ∷ []) [] ld).1

dotted-text4 :
    (a b c d : ℕ)
    → a < 256
    → b < 256
    → c < 256
    → d < 256
    → dotted (a ∷ b ∷ c ∷ d ∷ []) ≡ text4 a b c d
unfolding dotted text4
dotted-text4 a b c d la lb lc ld =
    rw (itoa-octet a la, itoa-octet b lb, itoa-octet c lc, itoa-octet d ld, append-nil (octet d))
      refl

parse_ip-text4 :
    (a b c d : ℕ)
    → a < 256
    → b < 256
    → c < 256
    → d < 256
    → parse_ip (text4 a b c d) ≡ some (mapped_prefix ++ a ∷ b ∷ c ∷ d ∷ [])
unfolding parse_ip text4 by_mark
parse_ip-text4 a b c d la lb lc ld =
    let plain : has_zone (text4 a b c d) ≡ false =
      has_zone-octet a _ la
      ∙ has_zone-octet b _ lb
      ∙ has_zone-octet c _ lc
      ∙ has_zone-octet d [] ld in
    rw plain (
      by_mark-octet (text4 a b c d) a
        (b'.' ∷ (octet b ++ b'.' ∷ (octet c ++ b'.' ∷ (octet d ++ [])))) la
      ∙ rw (parse_ipv4-text4 a b c d la lb lc ld) refl)

-- The text of an IPv4 address is read as that address.
pub parse_ip-ip_string :
    (a b c d : ℕ)
    → a < 256
    → b < 256
    → c < 256
    → d < 256
    → parse_ip (ip_string (a ∷ b ∷ c ∷ d ∷ [])) ≡ some (mapped_prefix ++ a ∷ b ∷ c ∷ d ∷ [])
unfolding ip_string to4
parse_ip-ip_string a b c d la lb lc ld =
    ap parse_ip (dotted-text4 a b c d la lb lc ld) ∙ parse_ip-text4 a b c d la lb lc ld

-- The sixteen bytes of an IPv4 address have the text of its four bytes.
pub ip_string-mapped :
    (a b c d : ℕ) → ip_string (mapped_prefix ++ a ∷ b ∷ c ∷ d ∷ []) ≡ ip_string (a ∷ b ∷ c ∷ d ∷ [])
unfolding ip_string to4
ip_string-mapped a b c d = refl

-- A mark that is neither a digit nor a dot is not in the text.
pub contains-ip_string :
    (mark a b c d : ℕ)
    → a < 256
    → b < 256
    → c < 256
    → d < 256
    → ((k : ℕ) → k < 10 → (b'0' + k == mark) ≡ false)
    → (b'.' == mark) ≡ false
    → contains mark (ip_string (a ∷ b ∷ c ∷ d ∷ [])) ≡ false
unfolding ip_string to4 text4
contains-ip_string mark a b c d la lb lc ld digit dot =
    let skip : (n : ℕ) (t : Bytes) → n < 256 → contains mark (octet n ++ t) ≡ contains mark t =
      skips-octet (contains mark) (λ k t lt. let other = digit k lt in rw other refl) in
    let over : (t : Bytes) → contains mark (b'.' ∷ t) ≡ contains mark t = λ t. rw dot refl in
    let third = octet c ++ b'.' ∷ (octet d ++ []) in
    let second = octet b ++ b'.' ∷ third in
    ap (contains mark) (dotted-text4 a b c d la lb lc ld)
    ∙ skip a (b'.' ∷ second) la
    ∙ over second
    ∙ skip b (b'.' ∷ third) lb
    ∙ over third
    ∙ skip c (b'.' ∷ (octet d ++ [])) lc
    ∙ over (octet d ++ [])
    ∙ skip d [] ld
