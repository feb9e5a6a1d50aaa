-- ===== src/Handler/Chunks/Split.antt =====
-- What `splitInChunks` (proxy/handler/https.go) yields.
use spoof_dpi_turkiye.Prelude.{
  ℕ, zero, suc, ◌≤◌, ◌<◌, ◌≡◌, false, ◌≢◌, ltb→lt, refl, ap, ◌∙◌, List, [], ◌∷◌, ◌++◌, arith, Bytes,
  length, take, drop, concat, take-append-drop, length-take, length-drop, ltb, ◌==◌, Bool-cases,
  inl, inr, tests, if◌then◌else◌, drop_of_length-le,
}
use mathlib.Core.List.{append-nil}
use native.Mathlib.Nat.{le_refl}
use spoof_dpi_turkiye.Handler.Chunks.{chunk_from, chunk, split_in_chunks}

-- Chunks of one size, but for a last one that may be shorter and is not empty.
abbrev pub Full : ℕ → List Bytes → Type 0
Full n [] = Unit
Full n (b ∷ []) = (0 < length b) × (length b ≤ n)
Full n (b ∷ c ∷ r) = (length b ≡ n) × Full n (c ∷ r)

concat-chunk_from :
    (fuel n : ℕ) (s : Bytes) → 0 < n → length s ≤ fuel → concat (chunk_from fuel n s) ≡ s
unfolding chunk_from
concat-chunk_from zero n [] pos h = refl
concat-chunk_from zero n (x ∷ s) pos h = absurd (omega arith)
concat-chunk_from (suc fuel) n [] pos h = refl
concat-chunk_from (suc fuel) n (x ∷ s) pos h =
    ap (◌++◌ (take n (x ∷ s)))
      (concat-chunk_from fuel n (drop n (x ∷ s)) pos (omega (arith, length-drop n (x ∷ s))))
    ∙ take-append-drop n (x ∷ s)

Full-cons :
    (n : ℕ) (b : Bytes) (r : List Bytes)
    → 0 < length b
    → length b ≤ n
    → (r ≢ [] → length b ≡ n)
    → Full n r
    → Full n (b ∷ r)
Full-cons n b [] pos le whole f = (pos, le)
Full-cons n b (c ∷ r) pos le whole f = (whole (λ e. cc), f)

chunk_from-nil : (fuel n : ℕ) → chunk_from fuel n [] ≡ []
unfolding chunk_from
chunk_from-nil zero n = refl
chunk_from-nil (suc fuel) n = refl

chunk_from-Full : (fuel n : ℕ) (s : Bytes) → 0 < n → Full n (chunk_from fuel n s)
unfolding chunk_from
chunk_from-Full zero n s pos = tt
chunk_from-Full (suc fuel) n [] pos = tt
chunk_from-Full (suc fuel) n (x ∷ s) pos =
    Full-cons n (take n (x ∷ s)) (chunk_from fuel n (drop n (x ∷ s)))
      (omega (arith, length-take n (x ∷ s))) (omega (arith, length-take n (x ∷ s))) whole
      (chunk_from-Full fuel n (drop n (x ∷ s)) pos)
  where
    whole : chunk_from fuel n (drop n (x ∷ s)) ≢ [] → length (take n (x ∷ s)) ≡ n
    whole h = elim (Bool-cases (ltb (length (x ∷ s)) n)) [
      | inl short ↦
          let end : drop n (x ∷ s) ≡ [] =
            drop_of_length-le n (x ∷ s) (omega (tests, ltb→lt _ _ short)) in
          absurd (h (ap (chunk_from fuel n) end ∙ chunk_from-nil fuel n))
      | inr long ↦ ground (arith, length-take n (x ∷ s))
    ]

-- With a positive window the ClientHello is cut into chunks of exactly that size, but for a
-- shorter last one, and none is empty; in order they are the ClientHello.
pub split_in_chunks-Full :
    (raw : Bytes) (size : ℕ)
    → 0 < size
    → Full size (split_in_chunks raw size) × (concat (split_in_chunks raw size) ≡ raw)
unfolding split_in_chunks chunk
split_in_chunks-Full raw size pos =
    let zero_window : (size == 0) ≡ false = ground arith in
    rw zero_window (
      chunk_from-Full (length raw) size raw pos,
      concat-chunk_from (length raw) size raw pos (le_refl _),
    )

concat-legacy :
    (raw : Bytes)
    → concat (
        if length raw == 0
        then []
        else if ltb (length raw) 2
        then raw ∷ []
        else take 1 raw ∷ drop 1 raw ∷ [])
      ≡ raw
concat-legacy [] = refl
concat-legacy (x ∷ []) = refl
concat-legacy (x ∷ y ∷ raw) = ground (arith, append-nil raw)

-- For every window, zero included, the chunks in order are the ClientHello.
pub concat-split_in_chunks : (raw : Bytes) (size : ℕ) → concat (split_in_chunks raw size) ≡ raw
unfolding split_in_chunks chunk
concat-split_in_chunks raw size = elim (Bool-cases (size == 0)) [
  | inl none_given ↦ rw none_given (concat-legacy raw)
  | inr given ↦ rw given (concat-chunk_from (length raw) size raw (ground arith) (le_refl _))
]
