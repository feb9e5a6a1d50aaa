-- ===== src/Args/Bounds.antt =====
-- The arguments that the program starts with (util/args.go).
use spoof_dpi_turkiye.Prelude.{
  ◌≡◌, ◌≢◌, Bool, List, [], ◌∷◌, Result, ok, err, arith, Bytes, length, ◌==◌, bind_succeeds, subst,
  Bool-cases, inl, inr,
}
use spoof_dpi_turkiye.Args.{Args, defaults}
use spoof_dpi_turkiye.Args.Command.{
  CommandError, Word, ends, fails, done, wants, set_value, parse_one, last_word, parse_flags,
  fill_fallback, parse_args,
}
use spoof_dpi_turkiye.Args.Keeping.{
  Bounded, BoundedResult, BoundedWord, set_value-Bounded, parse_one-Bounded,
}

last_word-Bounded :
    (a : Args) (w : Word) → Bounded a → BoundedWord w → BoundedResult (last_word a w)
last_word-Bounded a ends h kept = h
last_word-Bounded a (fails e) h kept = tt
last_word-Bounded a (done b) h kept = kept
last_word-Bounded a (wants name setter) h kept = tt

parse_flags-Bounded :
    (a : Args) (words : List Bytes) → Bounded a → BoundedResult (parse_flags a words)
unfolding parse_flags
parse_flags-Bounded a [] h = h
parse_flags-Bounded a (s ∷ []) h = last_word-Bounded a (parse_one a s) h (parse_one-Bounded a s h)
parse_flags-Bounded a (s ∷ value ∷ words) h =
    go (λ b. parse_flags-Bounded b (value ∷ words)) (λ b. parse_flags-Bounded b words)
      (parse_one a s) (parse_one-Bounded a s h)
  where
    Kept : List Bytes → Type 0
    Kept rest = (b : Args) → Bounded b → BoundedResult (parse_flags b rest)

    taken :
        Kept words
        → (r : Result CommandError Args) → BoundedResult r
        → BoundedResult (elim r [ err e ↦ err e | ok b ↦ parse_flags b words ])
    taken later (ok b) kept = later b kept
    taken later (err e) kept = tt

    go :
        Kept (value ∷ words)
        → Kept words
        → (w : Word) → BoundedWord w
        → BoundedResult (elim w [
          | ends ↦ ok a
          | fails e ↦ err e
          | done b ↦ parse_flags b (value ∷ words)
          | wants name setter ↦ elim (set_value setter value a) [
            | err e ↦ err e
            | ok b ↦ parse_flags b words
          ]
        ])
    go next later ends kept = h
    go next later (fails e) kept = tt
    go next later (done b) kept = next b kept
    go next later (wants name setter) kept =
        taken later (set_value setter value a) (set_value-Bounded setter value a kept h)

fill_fallback-Bounded :
    (a : Args) → Bounded a → Bounded (fill_fallback a) × ((fill_fallback a).dns_fallback ≢ [])
unfolding fill_fallback
fill_fallback-Bounded a h = elim (Bool-cases (length a.dns_fallback == 0)) [
  | inl none_given ↦ rw none_given (
    record {
      port = h.port;
      dns_port = h.dns_port;
      timeout = h.timeout;
      window_size = h.window_size;
    },
    λ e. cc e,
  )
  | inr given ↦ rw given (h, λ e. ground (arith, e, given))
]

abbrev FilledResult : Result CommandError Args → Type 0
FilledResult (ok a) = Bounded a × (a.dns_fallback ≢ [])
FilledResult (err e) = Unit

-- If the command line is accepted, the ports, the timeout and the window are at most 65535, and
-- there is a fallback server.
pub parse_args-Bounded :
    (is_darwin : Bool) (words : List Bytes) {a : Args}
    → parse_args is_darwin words ≡ ok a
    → Bounded a × (a.dns_fallback ≢ [])
unfolding parse_args
parse_args-Bounded is_darwin words h =
    let (b, parsed, filled) = bind_succeeds (parse_flags (defaults is_darwin) words) _ h in
    let kept : Bounded b =
      subst BoundedResult parsed (parse_flags-Bounded (defaults is_darwin) words (ground arith)) in
    subst (λ r. FilledResult r) filled (fill_fallback-Bounded b kept)
