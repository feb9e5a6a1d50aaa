-- ===== src/Resolver/Cache/Slices/View.antt =====
-- The slices of the cache and their addresses (dns/resolver/cache.go).
use spoof_dpi_turkiye.Prelude.{
  ℕ, zero, suc, ◌-◌, ◌≡◌, refl, ap, ap₂, ◌∙◌, List, [], ◌∷◌, none, some, Bytes, length, find, put,
  delete, leb, bytes_eq, All, arith, Bool-cases, inl, inr,
}
use spoof_dpi_turkiye.Resolver.Cache.{MapRange, drop_expired, drop_excess, evict}
use spoof_dpi_turkiye.Resolver.Cache.Slices.{
  Heap, SliceEntry, contents, view_entry, view_entries, drop_expired_slices, evict_slices,
}

module _ (h : Heap) where
  pub find-view :
      (key : Bytes) (m : List (Bytes × SliceEntry))
      → find key (view_entries h m)
        ≡ elim (find key m) [ none ↦ none | some e ↦ some (view_entry h e) ]
  unfolding find view_entries
  find-view key [] = refl
  find-view key ((k, x) ∷ m) = elim (Bool-cases (bytes_eq k key)) [
    | inl same ↦ rw same refl
    | inr other ↦ rw other (find-view key m)
  ]

  pub find-view_none :
      (key : Bytes) (m : List (Bytes × SliceEntry))
      → find key m ≡ none
      → find key (view_entries h m) ≡ none
  find-view_none key m e = find-view key m ∙ rw e refl

  pub find-view_some :
      (key : Bytes) (m : List (Bytes × SliceEntry)) (x : SliceEntry)
      → find key m ≡ some x
      → find key (view_entries h m) ≡ some (view_entry h x)
  find-view_some key m x e = find-view key m ∙ rw e refl

  delete-view :
      (key : Bytes) (m : List (Bytes × SliceEntry))
      → delete key (view_entries h m) ≡ view_entries h (delete key m)
  unfolding delete view_entries
  delete-view key [] = refl
  delete-view key ((k, x) ∷ m) = ground (arith, delete-view key m)

  pub put-view :
      (key : Bytes) (x : SliceEntry) (m : List (Bytes × SliceEntry))
      → put key (view_entry h x) (view_entries h m) ≡ view_entries h (put key x m)
  unfolding view_entries
  put-view key x m = ap (λ rest. (key, view_entry h x) ∷ rest) (delete-view key m)

  length-view_entries : (m : List (Bytes × SliceEntry)) → length (view_entries h m) ≡ length m
  unfolding view_entries
  length-view_entries [] = refl
  length-view_entries ((k, x) ∷ m) = ap suc (length-view_entries m)

  drop_expired-view :
      (now : ℕ) (m : List (Bytes × SliceEntry))
      → drop_expired now (view_entries h m) ≡ view_entries h (drop_expired_slices now m)
  unfolding drop_expired drop_expired_slices view_entries
  drop_expired-view now [] = refl
  drop_expired-view now ((k, x) ∷ m) = ground (arith, drop_expired-view now m)

  drop_excess-view :
      (n : ℕ) (keys : List Bytes) (m : List (Bytes × SliceEntry))
      → drop_excess n keys (view_entries h m) ≡ view_entries h (drop_excess n keys m)
  unfolding drop_excess
  drop_excess-view zero keys m = refl
  drop_excess-view (suc n) [] m = refl
  drop_excess-view (suc n) (k ∷ keys) m =
      ap (drop_excess n keys) (delete-view k m) ∙ drop_excess-view n keys (delete k m)

  pub evict-view :
      (range : MapRange) (max_size now : ℕ) (m : List (Bytes × SliceEntry))
      → evict range max_size now (view_entries h m)
        ≡ view_entries h (evict_slices range h max_size now m)
  unfolding evict evict_slices
  evict-view range max_size now m =
      let live = drop_expired_slices now m in
      rw (length-view_entries m, drop_expired-view now m, length-view_entries live)
        (elim (Bool-cases (leb (length m) max_size)) [
          | inl fits ↦ rw fits refl
          | inr full ↦ elim (Bool-cases (leb (length live) max_size)) [
            | inl fits ↦ rw (full, fits) refl
            | inr still ↦
                rw (full, still)
                  (drop_excess-view (length live - max_size) (range.keys (view_entries h live))
                    live)
          ]
        ])

-- Entries whose arrays are the same have the same addresses.
pub view_entries-agree :
    (h h' : Heap) (m : List (Bytes × SliceEntry))
    → All (λ (k, e). contents h e.addrs ≡ contents h' e.addrs) m
    → view_entries h m ≡ view_entries h' m
unfolding view_entries
view_entries-agree h h' [] same = refl
view_entries-agree h h' ((k, x) ∷ m) same =
    ap₂ (λ xs rest. (k, record { addrs = xs; error = x.error; expires = x.expires }) ∷ rest) same.0
      (view_entries-agree h h' m same.1)
