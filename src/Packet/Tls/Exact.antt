-- ===== src/Packet/Tls/Exact.antt =====
-- When `ReadTLSMessage` (packet/https.go) returns a message, and which.
use spoof_dpi_turkiye.Prelude.{
  ℕ, ◌+◌, ◌-◌, ◌%◌, ◌^◌, ◌≤◌, ◌≡◌, sym, ap, ◌∙◌, ◌++◌, Bytes, ok, err, arith, length, take, drop,
  length-take, length-append, take-append-drop, leb, ltb, ◌==◌, ◌⊎◌, inl, inr, tests, leb→le,
  Bool-cases,
}
use mathlib.Core.List.{append_assoc}
use spoof_dpi_turkiye.Packet.Tls.{
  TlsMessage, TlsError, header_of, read_full, read_payload, read_tls_message,
}

-- A read of `n` bytes splits the stream, or fails.
read_full-cases :
    (n : ℕ) (r : Bytes)
    → ((a : Bytes) × (b : Bytes) × (read_full n r ≡ ok (a, b)) × (a ++ b ≡ r) × (length a ≡ n))
      ⊎ ((e : TlsError) × (read_full n r ≡ err e))
unfolding read_full
read_full-cases n r = elim (Bool-cases (leb n (length r))) [
  | inl enough ↦ inl (
    take n r,
    drop n r,
    rw enough,
    take-append-drop n r,
    omega (tests, length-take n r, leb→le n (length r) enough),
  )
  | inr short ↦ elim (Bool-cases (length r == 0)) [
    | inl e ↦ inr (TlsError.eof, rw (short, e))
    | inr e ↦ inr (TlsError.unexpected_eof, rw (short, e))
  ]
]

read_payload-exact :
    (header r : Bytes) {m : TlsMessage} {rest : Bytes}
    → length header ≡ 5
    → read_payload header r ≡ ok (m, rest)
    → (m.raw ≡ m.raw_header ++ m.raw_payload)
      × (m.raw_payload ++ rest ≡ r)
      × (m.raw_header ≡ header)
      × (m.header ≡ header_of header)
      × (length m.raw ≡ m.header.payload_len + 5)
      × (m.header.payload_len ≤ 16384)
unfolding read_payload
read_payload-exact header r {m} {rest} len h = elim (Bool-cases (ltb 16384 plen)) [
  | inl long ↦ absurd (ground arith)
  | inr fits ↦ elim (read_full-cases ((plen + 5) % 2 ^ 16 - 5) r) [
    | inr (e, failed) ↦ absurd (ground arith)
    | inl (payload, r1, read, join, size) ↦
        let small : plen ≤ 16384 = ground arith in
        let whole : length payload ≡ plen = omega (arith, small, size) in
        let long : length (header ++ payload) ≡ plen + 5 =
          omega (arith, length-append header payload, whole, len) in
        (
          ground arith,
          ground arith,
          ground arith,
          ground arith,
          ground (arith, long),
          ground (arith, small),
        )
  ]
]
  where
    plen : ℕ
    plen = (header_of header).payload_len

-- A message that `ReadTLSMessage` returns is, followed by what is left in the reader, the
-- stream that was read. It is its header and its payload, its fields are those of the header's
-- bytes, its length is that of a header and of the payload that the header announces, and that
-- payload has at most 16384 bytes.
pub read_tls_message-exact :
    (r : Bytes) {m : TlsMessage} {rest : Bytes}
    → read_tls_message r ≡ ok (m, rest)
    → (m.raw ++ rest ≡ r)
      × (m.raw ≡ m.raw_header ++ m.raw_payload)
      × (m.header ≡ header_of m.raw_header)
      × (length m.raw ≡ m.header.payload_len + 5)
      × (m.header.payload_len ≤ 16384)
unfolding read_tls_message
read_tls_message-exact r {m} {rest} h = elim (read_full-cases 5 r) [
  | inr (e, failed) ↦ absurd (ground arith)
  | inl (header, r1, read, join, len) ↦
      let part = read_payload-exact header r1 {m = m} {rest = rest} len (ground arith) in
      (
        ap (λ t. t ++ rest) part.0
            ∙ append_assoc m.raw_header m.raw_payload rest
            ∙ ap (λ t. t ++ (m.raw_payload ++ rest)) part.2
            ∙ ap (◌++◌ header) part.1
            ∙ join,
        part.0,
        part.3 ∙ ap header_of (sym part.2),
        part.4,
        part.5,
      )
]
