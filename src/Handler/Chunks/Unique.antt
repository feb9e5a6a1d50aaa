-- ===== src/Handler/Chunks/Unique.antt =====
-- The only way to cut a ClientHello into chunks of one size (proxy/handler/https.go).
use mathlib.Core.HLevel.{Σ_prop_path, ×_prop}
use native.Mathlib.Bridge.{le_prop}
use spoof_dpi_turkiye.Prelude.{
  ℕ, ◌<◌, ◌≡◌, refl, ap, sym, ◌∙◌, List, [], ◌∷◌, ◌++◌, Bytes, length, length-append, take, drop,
  take-append, drop-append, concat, min, arith,
}
use spoof_dpi_turkiye.Handler.Chunks.{split_in_chunks}
use spoof_dpi_turkiye.Handler.Chunks.Split.{Full, split_in_chunks-Full}

module _ (n : ℕ) (pos : 0 < n) where
  Full-positive : (b : Bytes) (cs : List Bytes) → Full n (b ∷ cs) → 0 < length b
  Full-positive b [] f = f.0
  Full-positive b (c ∷ cs) f = omega (arith, f.0, pos)

  Full-tail : (b : Bytes) (cs : List Bytes) → Full n (b ∷ cs) → Full n cs
  Full-tail b [] f = tt
  Full-tail b (c ∷ cs) f = f.1

  -- How long the first chunk is follows from the length of the whole.
  Full-length :
      (b : Bytes) (cs : List Bytes) → Full n (b ∷ cs) → length b ≡ min n (length (concat (b ∷ cs)))
  Full-length b [] f = omega (arith, f, length-append b [])
  Full-length b (c ∷ cs) f = omega (arith, f.0, length-append b (concat (c ∷ cs)))

  concat-Full_injective :
      (cs ds : List Bytes) → Full n cs → Full n ds → concat cs ≡ concat ds → cs ≡ ds
  concat-Full_injective [] [] f g e = refl
  concat-Full_injective [] (d ∷ ds) f g e =
      absurd (omega (arith, Full-positive d ds g, length-append d (concat ds), ap length e))
  concat-Full_injective (b ∷ cs) [] f g e =
      absurd (omega (arith, Full-positive b cs f, length-append b (concat cs), ap length e))
  concat-Full_injective (b ∷ cs) (d ∷ ds) f g e =
      let same : length b ≡ length d =
        Full-length b cs f ∙ ap (λ s. min n (length s)) e ∙ sym (Full-length d ds g) in
      let heads : b ≡ d =
        sym (take-append b (concat cs))
        ∙ ap (take (length b)) e
        ∙ ap (λ k. take k (d ++ concat ds)) same
        ∙ take-append d (concat ds) in
      let tails : concat cs ≡ concat ds =
        sym (drop-append b (concat cs))
        ∙ ap (drop (length b)) e
        ∙ ap (λ k. drop k (d ++ concat ds)) same
        ∙ drop-append d (concat ds) in
      rw heads
        (ap (◌∷◌ d) (concat-Full_injective cs ds (Full-tail b cs f) (Full-tail d ds g) tails))

Full-prop : (n : ℕ) (cs : List Bytes) → IsProp (Full n cs)
Full-prop n [] = hlevel
Full-prop n (b ∷ []) = hlevel le_prop
Full-prop n (b ∷ c ∷ cs) = hlevel (Full-prop n (c ∷ cs))

bytes_set : (a b : Bytes) → IsProp (a ≡ b)
bytes_set a b = hlevel

-- A ClientHello cut into chunks of the size, with the evidence.
abbrev pub Chunking : ℕ → Bytes → Type 0
Chunking n raw = (cs : List Bytes) × (Full n cs × (concat cs ≡ raw))

-- With a positive window the type of the ways to cut a ClientHello into chunks of exactly that
-- size, but for a shorter last one that is not empty, is contractible, and its centre is what
-- `splitInChunks` yields: there is this one way and no other.
pub split_in_chunks_unique :
    (raw : Bytes) (size : ℕ)
    → 0 < size
    → (c : Chunking size raw) × (c.0 ≡ split_in_chunks raw size)
      × ((other : Chunking size raw) → c ≡ other)
split_in_chunks_unique raw size pos =
    let (full, whole) = split_in_chunks-Full raw size pos in
    let centre : Chunking size raw = (split_in_chunks raw size, (full, whole)) in
    (
      centre,
      refl,
      λ other.
          Σ_prop_path {B = λ cs. Full size cs × (concat cs ≡ raw)}
            (λ cs. ×_prop (Full-prop size cs) (bytes_set (concat cs) raw))
            (concat-Full_injective size pos (split_in_chunks raw size) other.0 full other.1.0
              (whole ∙ sym other.1.1)),
    )
