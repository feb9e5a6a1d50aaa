-- ===== src/Packet/Tls/RoundTrip.antt =====
-- Reading a record that was sent (`ReadTLSMessage` of packet/https.go).
use spoof_dpi_turkiye.Prelude.{
  ℕ, ◌+◌, ◌-◌, ◌/◌, ◌%◌, ◌^◌, ◌≤◌, ◌≡◌, refl, [], ◌∷◌, ◌++◌, Bytes, ok, arith, true, length,
  take-append, drop-append, length-append, leb, ltb, ◌==◌, ◌&&◌, subst, get_or, le→leb,
}
use spoof_dpi_turkiye.Packet.Tls.{
  TlsMessage, header_of, read_full, read_payload, read_tls_message, is_client_hello,
}

-- The bytes of a record of a type and a version.
abbrev pub record_header : ℕ → ℕ → ℕ → Bytes
record_header type version len =
    type ∷ (version / 256) ∷ (version % 256) ∷ (len / 256) ∷ (len % 256) ∷ []

read_full-append : (n : ℕ) (a b : Bytes) → length a ≡ n → read_full n (a ++ b) ≡ ok (a, b)
unfolding read_full
read_full-append n a b e = subst (λ k. read_full k (a ++ b) ≡ ok (a, b)) e whole
  where
    fits : leb (length a) (length (a ++ b)) ≡ true
    fits = le→leb _ _ (omega (arith, length-append a b))

    whole : read_full (length a) (a ++ b) ≡ ok (a, b)
    whole = rw (fits, take-append a b, drop-append a b)

header_of-record :
    (type version len : ℕ)
    → header_of (record_header type version len)
      ≡ record { type = type; proto_version = version; payload_len = len }
header_of-record type version len = ground arith

abbrev pub message_of : ℕ → ℕ → Bytes → TlsMessage
message_of type version payload = record {
  header = record { type = type; proto_version = version; payload_len = length payload };
  raw = record_header type version (length payload) ++ payload;
  raw_header = record_header type version (length payload);
  raw_payload = payload;
}

-- A record with a payload of at most 16384 bytes, of any type and version, is read back from the
-- front of the stream, and is a client hello exactly when its type is 22 and its first payload
-- byte 1.
pub read_tls_message-record :
    (type version : ℕ) (payload rest : Bytes)
    → length payload ≤ 16384
    → (read_tls_message (record_header type version (length payload) ++ (payload ++ rest))
        ≡ ok (message_of type version payload, rest))
      × (is_client_hello (message_of type version payload)
          ≡ (ltb 0 (length payload) && (type == 22 && get_or payload 0 0 == 1)))
unfolding read_tls_message read_payload is_client_hello
read_tls_message-record type version payload rest small = (
  rw (read_full-append 5 header (payload ++ rest) refl)
      (rw (header_of-record type version (length payload)) (ground (arith, fits, body))),
  ground arith,
)
  where
    header : Bytes
    header = record_header type version (length payload)

    fits : (length payload + 5) % 2 ^ 16 - 5 ≡ length payload
    fits = omega arith

    body : read_full (length payload) (payload ++ rest) ≡ ok (payload, rest)
    body = read_full-append (length payload) payload rest refl
