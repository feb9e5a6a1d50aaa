-- ===== src/Packet/Tls.antt =====
-- `ReadTLSMessage` and `IsClientHello` of packet/https.go. A reader is the bytes that are still to
-- come before the end of the stream.
pub mod Exact
pub mod RoundTrip
use spoof_dpi_turkiye.Prelude.{
  ℕ, ◌+◌, ◌-◌, ◌*◌, ◌%◌, ◌^◌, Bool, ◌&&◌, ◌++◌, Bytes, Result, ok, err, ◌>>=◌, length, take, drop,
  get_or, leb, ltb, ◌==◌, if◌then◌else◌,
}

abbrev pub tls_max_payload_len : ℕ
tls_max_payload_len = 16384

abbrev pub tls_header_len : ℕ
tls_header_len = 5

abbrev pub tls_handshake : ℕ
tls_handshake = 0x16

pub record TlsHeader : Type 0 where
  pub type : ℕ
  pub proto_version : ℕ
  pub payload_len : ℕ

pub record TlsMessage : Type 0 where
  pub header : TlsHeader
  pub raw : Bytes
  pub raw_header : Bytes
  pub raw_payload : Bytes

pub data TlsError : Type 0 where
  eof unexpected_eof : TlsError
  invalid_header : TlsHeader → TlsError

-- `io.ReadFull`: the bytes read, and those left.
unfoldable pub read_full : ℕ → Bytes → Result TlsError (Bytes × Bytes)
read_full n r =
    if leb n (length r)
    then ok (take n r, drop n r)
    else if length r == 0
    then err eof
    else err unexpected_eof

-- `binary.BigEndian.Uint16` of the two bytes at an index
abbrev pub uint16_at : Bytes → ℕ → ℕ
uint16_at b i = get_or b i 0 * 256 + get_or b (i + 1) 0

abbrev pub header_of : Bytes → TlsHeader
header_of b = record {
  type = get_or b 0 0;
  proto_version = uint16_at b 1;
  payload_len = uint16_at b 3;
}

-- `header.PayloadLen + TLSHeaderLen` is a uint16.
abbrev pub raw_len : TlsHeader → ℕ
raw_len h = (h.payload_len + tls_header_len) % 2 ^ 16

-- From the check of the length on: the payload is read into `raw[TLSHeaderLen:]`.
unfoldable pub read_payload : Bytes → Bytes → Result TlsError (TlsMessage × Bytes)
read_payload raw_header r =
    let header = header_of raw_header in
    if ltb tls_max_payload_len header.payload_len then err (invalid_header header) else do
      (payload, rest) ← read_full (raw_len header - tls_header_len) r
      ok (
        record {
          header = header;
          raw = raw_header ++ payload;
          raw_header = raw_header;
          raw_payload = payload;
        },
        rest,
      )

unfoldable pub read_tls_message : Bytes → Result TlsError (TlsMessage × Bytes)
read_tls_message r = do
  (raw_header, rest) ← read_full tls_header_len r
  read_payload raw_header rest

unfoldable pub is_client_hello : TlsMessage → Bool
is_client_hello m =
    ltb tls_header_len (length m.raw)
    && (m.header.type == tls_handshake && get_or m.raw 5 0 == 0x01)
