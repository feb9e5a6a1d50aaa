-- ===== src/Packet/Http/Tidying.antt =====
-- What `Tidy` (packet/http.go) makes of the headers.
use mathlib.Core.List.{append_assoc, append-nil}
use spoof_dpi_turkiye.Prelude.{
  has_prefix, ℕ, ◌≡◌, ◌≢◌, refl, ap, sym, ◌∙◌, false, List, [], ◌∷◌, ◌++◌, arith, Bytes, All, ◌==◌,
  if◌then◌else◌,
}
use spoof_dpi_turkiye.Packet.Http.{
  HttpRequest, cr, lf, cut_head, split_crlf, proxy_connection, write_lines, request_line, tidy,
}

-- No carriage return.
abbrev pub NoCr : Bytes → Type 0
NoCr = All (λ c. (c == cr) ≡ false)

-- Lines with CRLF between them, and with CRLF behind each.
abbrev pub joined : Bytes → List Bytes → Bytes
joined l [] = l
joined l (m ∷ ms) = l ++ cr ∷ lf ∷ joined m ms

abbrev pub ended : List Bytes → Bytes
ended [] = []
ended (m ∷ ms) = m ++ cr ∷ lf ∷ ended ms

-- The lines that do not begin with `Proxy-Connection`, in order.
abbrev pub kept : List Bytes → List Bytes
kept [] = []
kept (m ∷ ms) = let rest = kept ms in if has_prefix m proxy_connection then rest else m ∷ rest

cut_head-line : (l s : Bytes) → NoCr l → cut_head (l ++ s) ≡ l ++ cut_head s
unfolding cut_head has_prefix
cut_head-line [] s h = refl
cut_head-line (c ∷ l) s h = rw h.0 (ap (◌∷◌ c) (cut_head-line l s h.1))

cut_head-nil : cut_head [] ≡ []
unfolding cut_head
cut_head-nil = refl

-- A line that stands behind another is not empty and has no carriage return.
abbrev pub IsLine : Bytes → Type 0
IsLine l = NoCr l × (l ≢ [])

cut_head-crlf :
    (c : ℕ) (s : Bytes)
    → (c == cr) ≡ false
    → cut_head (cr ∷ lf ∷ c ∷ s) ≡ cr ∷ lf ∷ cut_head (c ∷ s)
unfolding cut_head has_prefix
cut_head-crlf c s h = ground (arith, h)

joined_head : (c : ℕ) (m : Bytes) (ms : List Bytes) → (t : Bytes) × (joined (c ∷ m) ms ≡ c ∷ t)
joined_head c m [] = (m, refl)
joined_head c m (n ∷ ms) = (m ++ cr ∷ lf ∷ joined n ms, refl)

cut_head-next :
    (m : Bytes) (ms : List Bytes) (s : Bytes)
    → IsLine m
    → cut_head (cr ∷ lf ∷ (joined m ms ++ s)) ≡ cr ∷ lf ∷ cut_head (joined m ms ++ s)
cut_head-next [] ms s h = absurd (h.1 refl)
cut_head-next (c ∷ m) ms s h =
    let (t, e) = joined_head c m ms in rw e (cut_head-crlf c (t ++ s) h.0.0)

cut_head-joined :
    (l : Bytes) (ms : List Bytes) (body : Bytes)
    → NoCr l
    → All IsLine ms
    → cut_head (joined l ms ++ cr ∷ lf ∷ cr ∷ lf ∷ body) ≡ joined l ms
unfolding cut_head has_prefix
cut_head-joined l [] body hl hs = cut_head-line l _ hl ∙ append-nil l
cut_head-joined l (m ∷ ms) body hl hs =
    let rest = joined m ms ++ cr ∷ lf ∷ cr ∷ lf ∷ body in
    ap cut_head (append_assoc l (cr ∷ lf ∷ joined m ms) (cr ∷ lf ∷ cr ∷ lf ∷ body))
    ∙ cut_head-line l (cr ∷ lf ∷ rest) hl
    ∙ ap (◌++◌ l) (
        cut_head-next m ms (cr ∷ lf ∷ cr ∷ lf ∷ body) hs.0
        ∙ ap (λ t. cr ∷ lf ∷ t) (cut_head-joined m ms body hs.0.0 hs.1))

split_crlf-last : (line l : Bytes) → NoCr l → split_crlf line l ≡ (line ++ l) ∷ []
unfolding split_crlf
split_crlf-last line [] h = rw (append-nil line)
split_crlf-last line (c ∷ []) h = refl
split_crlf-last line (c ∷ d ∷ l) h =
    rw h.0 (split_crlf-last (line ++ c ∷ []) (d ∷ l) h.1 ∙ rw (append_assoc line (c ∷ []) (d ∷ l)))

split_crlf-line :
    (line l s : Bytes) → NoCr l → split_crlf line (l ++ cr ∷ lf ∷ s) ≡ (line ++ l) ∷ split_crlf [] s
unfolding split_crlf
split_crlf-line line [] s h = rw (append-nil line)
split_crlf-line line (c ∷ []) s h = rw h.0
split_crlf-line line (c ∷ d ∷ l) s h =
    rw h.0
      (split_crlf-line (line ++ c ∷ []) (d ∷ l) s h.1 ∙ rw (append_assoc line (c ∷ []) (d ∷ l)))

split_crlf-joined :
    (l : Bytes) (ms : List Bytes) → NoCr l → All IsLine ms → split_crlf [] (joined l ms) ≡ l ∷ ms
split_crlf-joined l [] hl hs = split_crlf-last [] l hl
split_crlf-joined l (m ∷ ms) hl hs =
    split_crlf-line [] l (joined m ms) hl ∙ ap (◌∷◌ l) (split_crlf-joined m ms hs.0.0 hs.1)

write_lines-kept : (ms : List Bytes) → write_lines ms ≡ ended (kept ms)
unfolding write_lines
write_lines-kept [] = refl
write_lines-kept (m ∷ ms) = ground (arith, write_lines-kept ms)

-- Of lines with CRLF between them and an empty line behind them, none with a carriage return
-- and none but the first empty, `Tidy` makes the rewritten request line and the other lines in
-- their order, each with CRLF, without those that begin with `Proxy-Connection`, and an empty
-- line; what stood behind the empty line is gone.
pub tidy-joined :
    (p : HttpRequest) (l : Bytes) (ms : List Bytes) (body : Bytes)
    → p.raw ≡ joined l ms ++ cr ∷ lf ∷ cr ∷ lf ∷ body
    → NoCr l
    → All IsLine ms
    → (tidy p).raw ≡ ended (kept (request_line p ∷ ms)) ++ cr ∷ lf ∷ []
unfolding tidy
tidy-joined p l ms body e hl hs =
    let head : cut_head p.raw ≡ joined l ms = ap cut_head e ∙ cut_head-joined l ms body hl hs in
    rw (head, split_crlf-joined l ms hl hs)
      (ap (λ t. t ++ cr ∷ lf ∷ []) (write_lines-kept (request_line p ∷ ms)))

-- Of headers without a carriage return, as a request with bare line feeds has them, `Tidy`
-- makes the request line alone, with nothing if that begins with `Proxy-Connection`, and an
-- empty line: no header of the request is kept.
pub tidy-bare_lf :
    (p : HttpRequest)
    → NoCr p.raw
    → (tidy p).raw ≡ ended (kept (request_line p ∷ [])) ++ cr ∷ lf ∷ []
unfolding tidy
tidy-bare_lf p h =
    let head : cut_head p.raw ≡ p.raw =
      ap cut_head (sym (append-nil p.raw))
      ∙ cut_head-line p.raw [] h
      ∙ ap (◌++◌ p.raw) cut_head-nil
      ∙ append-nil p.raw in
    rw (head, split_crlf-last [] p.raw h)
      (ap (λ t. t ++ cr ∷ lf ∷ []) (write_lines-kept (request_line p ∷ [])))
