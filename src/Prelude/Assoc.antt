-- ===== src/Prelude/Assoc.antt =====
-- A Go map with string keys, as an association list.
use Prim.Native.Nat.{◌≤◌, ◌<◌}
use mathlib.Core.Path.{◌≡◌, refl, ◌∙◌, ap, subst}
use mathlib.Core.Logic.{◌≢◌, inl, inr}
use mathlib.Core.Bool.{true, false}
use mathlib.Core.List.{List, [], ◌∷◌}
use mathlib.Core.Option.{Option, none, some}
use native.Mathlib.Omega.{arith}
use spoof_dpi_turkiye.Prelude.Tests.{if◌then◌else◌, Bool-cases}
use spoof_dpi_turkiye.Prelude.Lists.{length, All}
use spoof_dpi_turkiye.Prelude.ByteList.{Bytes, bytes_eq, bytes_eq→eq}

-- The test on a key with another in its place.
bytes_eq_moved : (i j k : Bytes) → bytes_eq i j ≡ true → bytes_eq j k ≡ false → bytes_eq i k ≡ false
bytes_eq_moved i j k h e = ap (λ t. bytes_eq t k) (bytes_eq→eq i j h) ∙ e

module _ {ℓ} {V : Type ℓ} where
  -- `v, ok := m[k]`
  unfoldable pub find : Bytes → List (Bytes × V) → Option V
  find k [] = none
  find k ((j, v) ∷ m) = if bytes_eq j k then some v else find k m

  -- `delete(m, k)`
  unfoldable pub delete : Bytes → List (Bytes × V) → List (Bytes × V)
  delete k [] = []
  delete k ((j, v) ∷ m) = let rest = delete k m in if bytes_eq j k then rest else (j, v) ∷ rest

  -- `m[k] = v`
  abbrev pub put : Bytes → V → List (Bytes × V) → List (Bytes × V)
  put k v m = (k, v) ∷ delete k m

  -- No key stands twice.
  abbrev pub Distinct : List (Bytes × V) → Type ℓ
  Distinct [] = Unit
  Distinct ((k, v) ∷ m) = (find k m ≡ none) × Distinct m

  pub find-delete_self : (k : Bytes) (m : List (Bytes × V)) → find k (delete k m) ≡ none
  unfolding find delete
  find-delete_self k [] = refl
  find-delete_self k ((j, v) ∷ m) = ground (arith, find-delete_self k m)

  pub find-delete_ne :
      (k j : Bytes) (m : List (Bytes × V)) → bytes_eq k j ≡ false → find j (delete k m) ≡ find j m
  unfolding find delete
  find-delete_ne k j [] h = refl
  find-delete_ne k j ((i, v) ∷ m) h = elim (Bool-cases (bytes_eq i k)) [
    | inl e ↦ rw (e, bytes_eq_moved i k j e h) (find-delete_ne k j m h)
    | inr e ↦ rw e (ground (arith, find-delete_ne k j m h))
  ]

  pub delete_absent : (k : Bytes) (m : List (Bytes × V)) → find k m ≡ none → delete k m ≡ m
  unfolding find delete
  delete_absent k [] h = refl
  delete_absent k ((j, v) ∷ m) h = ground (arith, delete_absent k m)

  pub length-delete-le : (k : Bytes) (m : List (Bytes × V)) → length (delete k m) ≤ length m
  unfolding delete
  length-delete-le k [] = omega arith
  length-delete-le k ((j, v) ∷ m) = ground (arith, length-delete-le k m)

  pub length-delete-lt :
      (k : Bytes) (m : List (Bytes × V)) → find k m ≢ none → length (delete k m) < length m
  unfolding find delete
  length-delete-lt k [] h = absurd (h refl)
  length-delete-lt k ((j, v) ∷ m) h = ground (arith, length-delete-lt k m, length-delete-le k m)

  find-delete-none :
      (k j : Bytes) (m : List (Bytes × V)) → find j m ≡ none → find j (delete k m) ≡ none
  unfolding find delete
  find-delete-none k j [] h = refl
  find-delete-none k j ((i, v) ∷ m) h = ground (arith, find-delete-none k j m)

  pub delete-Distinct : (k : Bytes) (m : List (Bytes × V)) → Distinct m → Distinct (delete k m)
  unfolding delete
  delete-Distinct k [] d = tt
  delete-Distinct k ((j, v) ∷ m) d =
      ground (arith, delete-Distinct k m d.1, find-delete-none k j m d.0)

  pub put-Distinct : (k : Bytes) (v : V) (m : List (Bytes × V)) → Distinct m → Distinct (put k v m)
  put-Distinct k v m d = (find-delete_self k m, delete-Distinct k m d)

  pub delete-All {κ} :
      (P : Bytes × V → Type κ) (k : Bytes) (m : List (Bytes × V)) → All P m → All P (delete k m)
  unfolding delete
  delete-All P k [] h = tt
  delete-All P k ((j, v) ∷ m) h = elim (Bool-cases (bytes_eq j k)) [
    | inl e ↦ rw e (delete-All P k m h.1)
    | inr e ↦ rw e (h.0, delete-All P k m h.1)
  ]

  pub All-find {κ} :
      (P : Bytes × V → Type κ) (k : Bytes) (m : List (Bytes × V)) {v : V}
      → All P m
      → find k m ≡ some v
      → P (k, v)
  unfolding find
  All-find P k [] h e = cc
  All-find P k ((j, w) ∷ m) {v} h e = elim (Bool-cases (bytes_eq j k)) [
    | inl same ↦ subst P (moved same (ground arith)) h.0
    | inr other ↦ All-find P k m h.1 (ground arith)
  ]
    where
      moved : bytes_eq j k ≡ true → w ≡ v → ◌≡◌ {A = Bytes × V} (j, w) (k, v)
      moved same h = λ i. (bytes_eq→eq j k same i, h i)
