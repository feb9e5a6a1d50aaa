-- ===== src/Handler/Port/Decimal.antt =====
-- Ports in decimal (proxy/handler/https.go and proxy/handler/http.go).
use spoof_dpi_turkiye.Prelude.{
  ℕ, ◌+◌, ◌-◌, ◌*◌, ◌<◌, ◌≤◌, ◌≡◌, ap, [], ◌∷◌, some, arith, Bytes, itoa, read-itoa, is_plain,
  contains, split_host_port, split_host_port-join_host_port, false,
}
use spoof_dpi_turkiye.Handler.Port.{dial_tcp_addr, port_of, atoi, unsigned, in_range, digits_value}

digits_value_digit :
    (acc d : ℕ) (t : Bytes)
    → d < 10
    → digits_value acc ((b'0' + d) ∷ t) ≡ digits_value (acc * 10 + d) t
unfolding digits_value
digits_value_digit acc d t lt =
    let back : b'0' + d - b'0' ≡ d = omega arith in
    ground (arith, ap (λ k. digits_value (acc * 10 + k) t) back)

port_of-digits :
    (default n : ℕ) (s : Bytes)
    → 1 ≤ n
    → n ≤ 65535
    → digits_value 0 s ≡ some n
    → port_of default s ≡ some n
unfolding port_of atoi unsigned in_range digits_value
port_of-digits default n [] lo hi h = absurd (ground arith)
port_of-digits default n (c ∷ s) lo hi h = ground arith

-- A request that names a port from 1 to 65535 in decimal is dialled at that port, whatever the
-- default.
pub port_of-itoa : (default n : ℕ) → 1 ≤ n → n ≤ 65535 → port_of default (itoa n) ≡ some n
unfolding digits_value
port_of-itoa default n lo hi =
    port_of-digits default n (itoa n) lo hi (read-itoa digits_value digits_value_digit n)

pub is_plain_digit : (acc d : ℕ) (t : Bytes) → d < 10 → is_plain ((b'0' + d) ∷ t) ≡ is_plain t
is_plain_digit acc d t lt = ground arith

-- The dialer finds the address and the port again in the text that it is given, for an address
-- without brackets, one of version 6 included.
pub split_host_port-dial_tcp_addr :
    (ip : Bytes) (port : ℕ)
    → contains b'[' ip ≡ false
    → contains b']' ip ≡ false
    → split_host_port (dial_tcp_addr ip port) ≡ some (ip, itoa port)
unfolding dial_tcp_addr
split_host_port-dial_tcp_addr ip port left right =
    split_host_port-join_host_port ip (itoa port) left right
      (read-itoa (λ acc. is_plain) is_plain_digit port)
