-- ===== src/Resolver/Cache/Machine/Pending.antt =====
-- The map of the pending lookups and the list of those that run (dns/resolver/cache.go).
use spoof_dpi_turkiye.Prelude.{
  ℕ, ◌≡◌, sym, ◌∙◌, subst, false, List, [], ◌∷◌, ◌++◌, none, arith, Bytes, bytes_eq, bytes_eq→eq,
  bytes_eq_symm, find, delete, put, Distinct, find-delete_ne, find-delete_self, Bool-cases, inl,
  inr,
}

module _ (key : Bytes) (p : ℕ) where
  pub find-put : (k : Bytes) (m : List (Bytes × ℕ)) → find k (put key p m) ≡ find k ((key, p) ∷ m)
  unfolding find
  find-put k m = elim (Bool-cases (bytes_eq key k)) [
    | inl e ↦ rw e
    | inr e ↦ rw e (find-delete_ne key k m e)
  ]

  pub find-cons :
      (k : Bytes) (m n : List (Bytes × ℕ))
      → find k m ≡ find k n
      → find k ((key, p) ∷ m) ≡ find k ((key, p) ∷ n)
  unfolding find
  find-cons k m n h = rw h

  -- A lookup in the middle of the list of those that run, and the list without it.
  pub find-removed_ne :
      (k : Bytes) (before after : List (Bytes × ℕ))
      → bytes_eq key k ≡ false
      → find k (before ++ (key, p) ∷ after) ≡ find k (before ++ after)
  unfolding find
  find-removed_ne k [] after h = rw h
  find-removed_ne k ((j, q) ∷ before) after h = ground (arith, find-removed_ne k before after h)

  removed-none :
      (k : Bytes) (before after : List (Bytes × ℕ))
      → find k (before ++ (key, p) ∷ after) ≡ none
      → (find k (before ++ after) ≡ none) × (bytes_eq key k ≡ false)
  unfolding find
  removed-none k [] after h = ground arith
  removed-none k ((j, q) ∷ before) after h = ground (arith, removed-none k before after)

  find-removed_self :
      (before after : List (Bytes × ℕ))
      → Distinct (before ++ (key, p) ∷ after)
      → find key (before ++ after) ≡ none
  unfolding find
  find-removed_self [] after d = d.0
  find-removed_self ((j, q) ∷ before) after d =
      rw (bytes_eq_symm j key ∙ (removed-none j before after d.0).1)
        (find-removed_self before after d.1)

  pub removed-Distinct :
      (before after : List (Bytes × ℕ))
      → Distinct (before ++ (key, p) ∷ after)
      → Distinct (before ++ after)
  removed-Distinct [] after d = d.1
  removed-Distinct ((j, q) ∷ before) after d =
      ((removed-none j before after d.0).0, removed-Distinct before after d.1)

  -- Deleting the key from the map is removing the lookup from those that run.
  pub find-delete_removed :
      (pending before after : List (Bytes × ℕ))
      → ((k : Bytes) → find k pending ≡ find k (before ++ (key, p) ∷ after))
      → Distinct (before ++ (key, p) ∷ after)
      → (k : Bytes) → find k (delete key pending) ≡ find k (before ++ after)
  find-delete_removed pending before after h d k = elim (Bool-cases (bytes_eq key k)) [
    | inl e ↦
        subst (λ j. find j (delete key pending) ≡ find j (before ++ after)) (bytes_eq→eq key k e)
          (find-delete_self key pending ∙ sym (find-removed_self before after d))
    | inr e ↦ find-delete_ne key k pending e ∙ h k ∙ find-removed_ne k before after e
  ]
