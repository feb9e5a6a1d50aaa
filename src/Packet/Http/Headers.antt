-- ===== src/Packet/Http/Headers.antt =====
-- The header loop of `ReadHttpRequest` (packet/http.go).
use mathlib.Core.List.{append_assoc, append-nil}
use spoof_dpi_turkiye.Prelude.{
  ℕ, ◌+◌, ◌≤◌, ◌≡◌, refl, ap, sym, ◌∙◌, true, false, List, [], ◌∷◌, ◌++◌, ok, err, Result, Option,
  ◌⊎◌, arith, Bytes, length, length-append, ltb, ◌==◌, All, Bool-cases, inl, inr,
}
use spoof_dpi_turkiye.Packet.Http.{
  HttpError, ParsedRequest, HttpRequest, is_blank, lf, read_headers, read_http_request,
}

-- No line feed among the bytes.
abbrev pub IsUnbroken : Bytes → Type 0
IsUnbroken text = All (λ c. (c == lf) ≡ false) text

-- A line with its line feed, which is the only one.
abbrev pub IsLine : Bytes → Type 0
IsLine line = (text : Bytes) × (line ≡ text ++ lf ∷ []) × IsUnbroken text

-- A line of the headers, not the blank one that ends them.
abbrev pub IsField : Bytes → Type 0
IsField line = IsLine line × (is_blank line ≡ false)

abbrev pub joined : List Bytes → Bytes
joined [] = []
joined (l ∷ lines) = l ++ joined lines

-- The headers are lines up to the first that is blank, stand at the front of the stream, which is
-- left at the byte behind them, and are within the limit.
abbrev pub IsHeader : Bytes → Bytes → Bytes → Type 0
IsHeader stream headers rest =
    (fields : List Bytes) × (blank : Bytes) × (headers ≡ joined fields ++ blank)
    × All IsField fields
    × IsLine blank
    × (is_blank blank ≡ true)
    × (headers ++ rest ≡ stream)
    × (length headers ≤ 65536)

IsUnbroken-snoc :
    (text : Bytes) (c : ℕ) → IsUnbroken text → (c == lf) ≡ false → IsUnbroken (text ++ c ∷ [])
IsUnbroken-snoc [] c h inside = (inside, tt)
IsUnbroken-snoc (x ∷ text) c h inside = (h.0, IsUnbroken-snoc text c h.1 inside)

All-snoc {κ} :
    (P : Bytes → Type κ) (fields : List Bytes) (l : Bytes)
    → All P fields
    → P l
    → All P (fields ++ l ∷ [])
All-snoc P [] l h p = (p, tt)
All-snoc P (f ∷ fields) l h p = (h.0, All-snoc P fields l h.1 p)

joined-snoc : (fields : List Bytes) (l : Bytes) → joined (fields ++ l ∷ []) ≡ joined fields ++ l
joined-snoc [] l = append-nil l
joined-snoc (f ∷ fields) l =
    ap (λ t. f ++ t) (joined-snoc fields l) ∙ sym (append_assoc f (joined fields) l)

-- From any point of the loop: `buf` has the fields so far, and `line` the line so far.
read_headers-IsHeader :
    (fields : List Bytes) (buf line r : Bytes) {headers rest stream : Bytes}
    → buf ≡ joined fields
    → All IsField fields
    → IsUnbroken line
    → (buf ++ line) ++ r ≡ stream
    → read_headers buf line r ≡ ok (headers, rest)
    → IsHeader stream headers rest
unfolding read_headers
read_headers-IsHeader fields buf line [] held lines unbroken front h = absurd (ground arith)
read_headers-IsHeader fields buf line (c ∷ r) {headers} {rest} {stream} held lines unbroken front
      h =
    elim (Bool-cases (c == lf)) [
      | inr inside ↦
          read_headers-IsHeader fields buf whole r {headers = headers} {rest = rest}
            {stream = stream} held lines (IsUnbroken-snoc line c unbroken inside) (longer ∙ front)
            (ground arith)
      | inl end ↦ elim (Bool-cases (ltb 65536 (length buf + length whole))) [
        | inl large ↦ absurd (ground arith)
        | inr fits ↦ elim (Bool-cases (is_blank whole)) [
          | inl blank ↦
              let made : headers ≡ buf ++ whole = ground arith in
              let left : rest ≡ r = ground arith in
              (
                fields,
                whole,
                made ∙ ap (λ t. t ++ whole) held,
                lines,
                is_line end,
                blank,
                ap (λ t. t ++ rest) made ∙ ap (◌++◌ (buf ++ whole)) left ∙ longer ∙ front,
                ground (arith, made, length-append buf whole),
              )
          | inr more ↦
              read_headers-IsHeader (fields ++ whole ∷ []) (buf ++ whole) [] r {headers = headers}
                {rest = rest} {stream = stream}
                (ap (λ t. t ++ whole) held ∙ sym (joined-snoc fields whole))
                (All-snoc IsField fields whole lines (is_line end, more)) tt
                (ap (λ t. t ++ r) (append-nil (buf ++ whole)) ∙ longer ∙ front) (ground arith)
        ]
      ]
    ]
  where
    whole : Bytes
    whole = line ++ c ∷ []

    is_line : (c == lf) ≡ true → IsLine whole
    is_line end = (line, ap (λ b. line ++ b ∷ []) (ground arith), unbroken)

    longer : (buf ++ whole) ++ r ≡ (buf ++ line) ++ c ∷ r
    longer =
        append_assoc buf whole r
        ∙ ap (◌++◌ buf) (append_assoc line (c ∷ []) r)
        ∙ sym (append_assoc buf line (c ∷ r))

-- What `ReadHttpRequest` takes for the headers of a request are the lines of the stream up to the
-- first blank one, which is the last of them; they have at most 65536 bytes and are, followed by
-- what is left in the reader, the stream that was read.
pub read_headers-exact :
    (r : Bytes) (headers rest : Bytes)
    → read_headers [] [] r ≡ ok (headers, rest)
    → IsHeader r headers rest
read_headers-exact r headers rest h =
    read_headers-IsHeader [] [] [] r {headers = headers} {rest = rest} {stream = r} refl tt tt refl
      h

Result-cases : {E A : Type 0} (x : Result E A) → ((a : A) × (x ≡ ok a)) ⊎ ((e : E) × (x ≡ err e))
Result-cases (ok a) = inl (a, refl)
Result-cases (err e) = inr (e, refl)

-- A request that is read, as the reader gives it, and what is left are the stream.
pub read_http_request-stream :
    (parse : Bytes → Result HttpError ParsedRequest)
    (split_host_port : Bytes → Option (Bytes × Bytes)) (r : Bytes) (pkt : HttpRequest)
    (rest : Bytes)
    → read_http_request parse split_host_port r ≡ ok (pkt, rest)
    → pkt.raw ++ rest ≡ r
unfolding read_http_request
read_http_request-stream parse split_host_port r pkt rest h =
    elim (Result-cases (read_headers [] [] r)) [
      | inr (e, failed) ↦ absurd (ground arith)
      | inl ((raw, left), read) ↦ elim (Result-cases (parse raw)) [
        | inr (e, failed) ↦ absurd (ground arith)
        | inl (q, parsed) ↦
            let same : pkt.raw ≡ raw = ground arith in
            let same' : rest ≡ left = ground arith in
            let (fields, blank, made, lines, last_one, is_end, front, small) =
              read_headers-exact r raw left read in
            ap (λ t. t ++ rest) same ∙ ap (λ t. raw ++ t) same' ∙ front
      ]
    ]
