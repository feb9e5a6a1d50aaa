-- ===== src/Resolver/Doh.antt =====
-- `DOHResolver.exchange` of dns/resolver/doh.go. The DNS library's packing and the HTTP client are
-- parameters.
pub mod Client
pub mod Success
mod Tests
use spoof_dpi_turkiye.Prelude.{
  ℕ, ◌+◌, ◌-◌, ◌*◌, ◌/◌, ◌%◌, Bool, not, List, [], ◌∷◌, ◌++◌, Option, some, Result, ok, err, ◌>>=◌,
  Bytes, bytes, take, ltb, ◌==◌, if◌then◌else◌,
}
use spoof_dpi_turkiye.Resolver.Answer.{Error, nxdomain, doh_http, doh_rcode}
use spoof_dpi_turkiye.Resolver.Lookup.{Msg, Query}

-- The alphabet of `base64.RawURLEncoding`.
abbrev url_char : ℕ → ℕ
url_char d =
    if ltb d 26
    then b'A' + d
    else if ltb d 52
    then b'a' + (d - 26)
    else if ltb d 62
    then b'0' + (d - 52)
    else if d == 62
    then b'-'
    else b'_'

-- `base64.RawURLEncoding.EncodeToString`
unfoldable pub encode_to_string : Bytes → Bytes
encode_to_string [] = []
encode_to_string (a ∷ []) = url_char (a / 4) ∷ url_char (a % 4 * 16) ∷ []
encode_to_string (a ∷ b ∷ []) =
    url_char (a / 4) ∷ url_char (a % 4 * 16 + b / 16) ∷ url_char (b % 16 * 4) ∷ []
encode_to_string (a ∷ b ∷ c ∷ s) =
    url_char (a / 4)
    ∷ url_char (a % 4 * 16 + b / 16)
    ∷ url_char (b % 16 * 4 + c / 64)
    ∷ url_char (c % 64)
    ∷ encode_to_string s

-- `http.Response`, as far as it is read; the body, or the error of reading it.
pub record HttpResponse : Type 0 where
  pub status_code : ℕ
  pub body : Result Error Bytes

-- An unpacked message with its response code.
pub record Unpacked : Type 0 where
  pub rcode : ℕ
  pub msg : Msg

abbrev pub status_ok : ℕ
status_ok = 200

abbrev pub rcode_success : ℕ
rcode_success = 0

abbrev pub rcode_name_error : ℕ
rcode_name_error = 3

-- The size that `io.LimitReader` lets through.
abbrev pub body_limit : ℕ
body_limit = 64 * 1024

unfoldable pub body_of : HttpResponse → Result Error Bytes
body_of resp =
    if not (resp.status_code == status_ok) then err (doh_http resp.status_code) else resp.body

-- The switch on the response code.
unfoldable pub by_rcode : Unpacked → Result Error (Option Msg)
by_rcode out =
    if out.rcode == rcode_success
    then ok (some out.msg)
    else if out.rcode == rcode_name_error
    then err nxdomain
    else err (doh_rcode out.rcode)

module _ (pack : Query → Result Error Bytes) (get : Bytes → Result Error HttpResponse)
    (unpack : Bytes → Result Error Unpacked) where
  unfoldable pub doh_exchange : Bytes → Query → Result Error (Option Msg)
  doh_exchange upstream msg = do
    packed ← pack msg
    resp ← get (upstream ++ bytes "?dns=" ++ encode_to_string packed)
    body ← body_of resp
    out ← unpack (take body_limit body)
    by_rcode out
