-- ===== src/Net/Text.antt =====
-- The texts of addresses: `net.IP.String` and `net.IPAddr.String`, which dns/dns.go calls.
use spoof_dpi_turkiye.Prelude.{
  ℕ, suc, ◌+◌, ◌*◌, ◌/◌, ◌%◌, ◌&&◌, ◌||◌, List, [], ◌∷◌, ◌++◌, map, none, some, Bytes, bytes, itoa,
  length, take, drop, ltb, leb, ◌==◌, if◌then◌else◌,
}
use spoof_dpi_turkiye.AddrSelect.Ip.{IpAddr, to4}
use spoof_dpi_turkiye.Log.{hex_char}
use spoof_dpi_turkiye.Resolver.Answer.{is_empty}

-- Numbers with marks between them.
abbrev pub separated : ℕ → List Bytes → Bytes
separated mark [] = []
separated mark (x ∷ []) = x
separated mark (x ∷ y ∷ xs) = x ++ mark ∷ separated mark (y ∷ xs)

-- The hexadecimal text of a group, without zeros in front.
abbrev pub hex_of_group : ℕ → Bytes
hex_of_group n =
    let one = hex_char (n % 16) ∷ [] in
    let two = hex_char (n / 16 % 16) ∷ one in
    let three = hex_char (n / 256 % 16) ∷ two in
    if ltb n 16
    then one
    else if ltb n 256
    then two
    else if ltb n 4096
    then three
    else hex_char (n / 4096 % 16) ∷ three

abbrev pub groups : Bytes → List ℕ
groups [] = []
groups (x ∷ []) = []
groups (x ∷ y ∷ b) = (x * 256 + y) ∷ groups b

abbrev pub leading_zeros : List ℕ → ℕ
leading_zeros [] = 0
leading_zeros (g ∷ gs) = if g == 0 then suc (leading_zeros gs) else 0

-- Where the first of the longest runs of two zeros or more begins, and how long it is.
unfoldable pub longest_run : ℕ → ℕ × ℕ → List ℕ → ℕ × ℕ
longest_run i best [] = best
longest_run i best (g ∷ gs) =
    let l = leading_zeros (g ∷ gs) in
    longest_run (suc i) (if leb 2 l && ltb best.1 l then (i, l) else best) gs

unfoldable pub string6 : Bytes → Bytes
unfolding longest_run hex_char
string6 b =
    let (start, l) = longest_run 0 (0, 0) (groups b) in
    let text : List ℕ → Bytes = λ gs. separated b':' (map hex_of_group gs) in
    if l == 0
    then text (groups b)
    else text (take start (groups b)) ++ b':' ∷ b':' ∷ text (drop (start + l) (groups b))

abbrev pub hex_string : Bytes → Bytes
hex_string [] = []
hex_string (x ∷ b) = hex_char (x / 16 % 16) ∷ hex_char (x % 16) ∷ hex_string b

unfoldable pub dotted : Bytes → Bytes
unfolding itoa
dotted b = separated b'.' (map itoa b)

-- `net.IP.String`
unfoldable pub ip_string : Bytes → Bytes
unfolding string6 dotted hex_char
ip_string ip =
    let text : Bytes = elim (to4 ip) [ none ↦ string6 ip | some b ↦ dotted b ] in
    if is_empty ip
    then bytes "<nil>"
    else if length ip == 4 || length ip == 16
    then text
    else b'?' ∷ hex_string ip

-- `net.IPAddr.String`
unfoldable pub addr_string : IpAddr → Bytes
unfolding ip_string
addr_string x =
    let text = if is_empty x.ip then [] else ip_string x.ip in
    if is_empty x.zone then text else text ++ b'%' ∷ x.zone
