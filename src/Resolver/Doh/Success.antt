-- ===== src/Resolver/Doh/Success.antt =====
-- When DNS-over-HTTPS gives a message (dns/resolver/doh.go).
use spoof_dpi_turkiye.Prelude.{
  ◌≡◌, ◌++◌, Option, some, Result, ok, arith, Bytes, bytes, take, bind_succeeds,
}
use spoof_dpi_turkiye.Resolver.Answer.{Error}
use spoof_dpi_turkiye.Resolver.Lookup.{Msg, Query}
use spoof_dpi_turkiye.Resolver.Doh.{
  HttpResponse, Unpacked, encode_to_string, body_limit, body_of, by_rcode, doh_exchange,
}

body_of-ok :
    (resp : HttpResponse) (body : Bytes)
    → body_of resp ≡ ok body
    → (resp.status_code ≡ 200) × (resp.body ≡ ok body)
unfolding body_of
body_of-ok resp body h = (ground arith, ground arith)

by_rcode-ok :
    (out : Unpacked) (r : Option Msg) → by_rcode out ≡ ok r → (out.rcode ≡ 0) × (r ≡ some out.msg)
unfolding by_rcode
by_rcode-ok out r h = (ground arith, ground arith)

module _ (pack : Query → Result Error Bytes) (get : Bytes → Result Error HttpResponse)
    (unpack : Bytes → Result Error Unpacked) where
  -- If the exchange succeeds, the server has answered the packed query with status 200, and the
  -- result is what the first 64 KiB of the body unpack to, a message without an error code.
  pub doh_exchange-ok :
      (upstream : Bytes) (msg : Query) (r : Option Msg)
      → doh_exchange pack get unpack upstream msg ≡ ok r
      → (packed : Bytes) × (resp : HttpResponse) × (body : Bytes) × (out : Unpacked) × (pack msg
          ≡ ok packed)
        × (get (upstream ++ bytes "?dns=" ++ encode_to_string packed) ≡ ok resp)
        × (resp.status_code ≡ 200)
        × (resp.body ≡ ok body)
        × (unpack (take body_limit body) ≡ ok out)
        × (out.rcode ≡ 0)
        × (r ≡ some out.msg)
  unfolding doh_exchange
  doh_exchange-ok upstream msg r h =
      let (packed, packs, h1) = bind_succeeds (pack msg) _ h in
      let (resp, gets, h2) =
        bind_succeeds (get (upstream ++ bytes "?dns=" ++ encode_to_string packed)) _ h1 in
      let (body, bodies, h3) = bind_succeeds (body_of resp) _ h2 in
      let (out, unpacks, h4) = bind_succeeds (unpack (take body_limit body)) _ h3 in
      let (status, reads) = body_of-ok resp body bodies in
      let (rcode, made) = by_rcode-ok out r h4 in
      (packed, resp, body, out, packs, gets, status, reads, unpacks, rcode, made)
