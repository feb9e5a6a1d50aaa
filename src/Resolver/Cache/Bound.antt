-- ===== src/Resolver/Cache/Bound.antt =====
-- The eviction and the size of the cache (`evictLocked` of dns/resolver/cache.go).
use spoof_dpi_turkiye.Prelude.{
  ℕ, zero, suc, ◌+◌, ◌-◌, ◌≤◌, ◌≡◌, ◌≢◌, refl, List, [], ◌∷◌, none, arith, Bytes, length, All, find,
  delete, Distinct, delete-Distinct, find-delete_ne, length-delete-lt,
}
use spoof_dpi_turkiye.Resolver.Cache.{
  CacheEntry, MapRange, Absent, DistinctKeys, drop_expired, drop_excess, evict,
}

abbrev Entries : Type 0
Entries = List (Bytes × CacheEntry)

find-drop_expired-none :
    (now : ℕ) (k : Bytes) (m : Entries) → find k m ≡ none → find k (drop_expired now m) ≡ none
unfolding find drop_expired
find-drop_expired-none now k [] h = refl
find-drop_expired-none now k ((j, e) ∷ m) h = ground (arith, find-drop_expired-none now k m)

drop_expired-Distinct : (now : ℕ) (m : Entries) → Distinct m → Distinct (drop_expired now m)
unfolding drop_expired
drop_expired-Distinct now [] d = tt
drop_expired-Distinct now ((k, e) ∷ m) d =
    ground (arith, drop_expired-Distinct now m d.1, find-drop_expired-none now k m d.0)

-- The keys behind the first are still there once it is deleted.
present-delete :
    (k : Bytes) (ks : List Bytes) (m : Entries)
    → Absent k ks
    → All (λ j. find j m ≢ none) ks
    → All (λ j. find j (delete k m) ≢ none) ks
present-delete k [] m h p = tt
present-delete k (j ∷ ks) m h p = (rw (find-delete_ne k j m h.0) p.0, present-delete k ks m h.1 p.1)

drop_excess-Distinct :
    (n : ℕ) (ks : List Bytes) (m : Entries) → Distinct m → Distinct (drop_excess n ks m)
unfolding drop_excess
drop_excess-Distinct zero ks m d = d
drop_excess-Distinct (suc n) [] m d = d
drop_excess-Distinct (suc n) (k ∷ ks) m d =
    drop_excess-Distinct n ks (delete k m) (delete-Distinct k m d)

-- Each round drops an entry.
length-drop_excess :
    (n : ℕ) (ks : List Bytes) (m : Entries)
    → DistinctKeys ks
    → All (λ k. find k m ≢ none) ks
    → n ≤ length ks
    → length (drop_excess n ks m) + n ≤ length m
unfolding drop_excess
length-drop_excess zero ks m d p le = omega arith
length-drop_excess (suc n) [] m d p le = absurd (omega arith)
length-drop_excess (suc n) (k ∷ ks) m d p le = omega (
  arith,
  length-delete-lt k m p.0,
  length-drop_excess n ks (delete k m) d.1 (present-delete k ks m d.0 p.1) (omega arith),
)

module _ (range : MapRange) where
  pub evict-Distinct : (size now : ℕ) (m : Entries) → Distinct m → Distinct (evict range size now m)
  unfolding evict
  evict-Distinct size now m d = ground (
    arith,
    drop_expired-Distinct now m d,
    drop_excess-Distinct (length (drop_expired now m) - size) (range.keys (drop_expired now m))
        (drop_expired now m) (drop_expired-Distinct now m d),
  )

  -- Of a map, which has no key twice, an eviction leaves at most the maximum number of
  -- entries, whatever order the runtime iterates in.
  pub length-evict-le :
      (size now : ℕ) (m : Entries) → Distinct m → length (evict range size now m) ≤ size
  unfolding evict
  length-evict-le size now m d =
      let live = drop_expired now m in
      let dl = drop_expired-Distinct now m d in
      let all = range.all live dl in
      let excess = length live - size in
      ground (
        arith,
        all,
        length-drop_excess excess (range.keys live) live (range.once live dl)
            (range.present live dl) (omega (arith, all)),
      )
