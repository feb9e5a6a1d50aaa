-- ===== src/Resolver/Cache/Machine/Served.antt =====
-- What the cache serves (dns/resolver/cache.go).
use spoof_dpi_turkiye.Prelude.{
  ℕ, zero, suc, ◌+◌, ◌-◌, ◌<◌, ◌≡◌, ◌⊎◌, refl, List, [], ◌∷◌, ◌++◌, arith, Bytes, length, All,
  All-map, All-find, delete, put, delete-All, Bool-cases, inl, inr, ltb, leb,
}
use spoof_dpi_turkiye.Resolver.Answer.{Answer}
use spoof_dpi_turkiye.Resolver.Cache.{
  Cache, CacheEntry, MapRange, hit, new_cache, is_fresh, answer_of, ttl_of, entry_of, drop_expired,
  drop_excess, evict, begin, finish,
}
use spoof_dpi_turkiye.Resolver.Cache.Machine.Coalesce.{begin-Begins}
use spoof_dpi_turkiye.Resolver.Cache.Machine.{
  Finished, Machine, start, arrive, complete, Step, arrives, completes, gives_up, ticks, Reach,
  here, next,
}

pub drop_excess-All {κ} :
    {V : Type 0} (P : Bytes × V → Type κ) (n : ℕ) (ks : List Bytes) (m : List (Bytes × V))
    → All P m
    → All P (drop_excess n ks m)
unfolding drop_excess
drop_excess-All P zero ks m h = h
drop_excess-All P (suc n) [] m h = h
drop_excess-All P (suc n) (k ∷ ks) m h = drop_excess-All P n ks (delete k m) (delete-All P k m h)

module _ {κ} (P : Bytes × CacheEntry → Type κ) where
  drop_expired-All :
      (now : ℕ) (m : List (Bytes × CacheEntry)) → All P m → All P (drop_expired now m)
  unfolding drop_expired
  drop_expired-All now [] h = tt
  drop_expired-All now ((k, e) ∷ m) h = elim (Bool-cases (is_fresh now e)) [
    | inl f ↦ rw f (h.0, drop_expired-All now m h.1)
    | inr f ↦ rw f (drop_expired-All now m h.1)
  ]

  evict-All :
      (range : MapRange) (size now : ℕ) (m : List (Bytes × CacheEntry))
      → All P m
      → All P (evict range size now m)
  unfolding evict
  evict-All range size now m h =
      let live = drop_expired now m in
      elim (Bool-cases (leb (length m) size)) [
        | inl f ↦ rw f h
        | inr f ↦ elim (Bool-cases (leb (length live) size)) [
          | inl g ↦ rw (f, g) (drop_expired-All now m h)
          | inr g ↦
              rw (f, g)
                (drop_excess-All P (length live - size) (range.keys live) live
                  (drop_expired-All now m h))
        ]
      ]

abbrev pub In : Finished → List Finished → Type 0
In d [] = ⊥
In d (x ∷ xs) = (d ≡ x) ⊎ In d xs

module _ (pos neg size : ℕ) where
  -- The entry is the answer of a finished lookup for its key, with the term that such an answer has.
  abbrev pub Comes : List Finished → Bytes × CacheEntry → Type 0
  Comes log (k, e) =
      (d : Finished) × In d log
      × (d.key ≡ k)
      × (e ≡ entry_of (new_cache pos neg size) d.answer d.time)

  record Sourced (s : Machine) : Type 0 where
    pos_kept : s.cache.pos_ttl ≡ (new_cache pos neg size).pos_ttl
    neg_kept : s.cache.neg_ttl ≡ (new_cache pos neg size).neg_ttl
    comes : All (Comes s.log) s.cache.entries

  Comes-later :
      (x : Finished) (log : List Finished) (m : List (Bytes × CacheEntry))
      → All (Comes log) m
      → All (Comes (x ∷ log)) m
  Comes-later x log = All-map (λ ke h. (h.0, inr h.1, h.2, h.3))

  start-Sourced : Sourced (start pos neg size)
  unfolding start new_cache
  start-Sourced = record { pos_kept = refl; neg_kept = refl; comes = tt }

  arrive-Sourced : (s : Machine) (key : Bytes) → Sourced s → Sourced (arrive s key)
  unfolding arrive
  arrive-Sourced s key v = elim (begin-Begins s.cache s.clock key s.next) [
    | inl (e, found, fresh, eq) ↦ rw eq v
    | inr (inl (q, found, eq)) ↦
        rw eq (record { pos_kept = v.pos_kept; neg_kept = v.neg_kept; comes = v.comes })
    | inr (inr (new, eq)) ↦
        rw eq (record { pos_kept = v.pos_kept; neg_kept = v.neg_kept; comes = v.comes })
  ]

  complete-Sourced :
      (range : MapRange) (s : Machine) (key : Bytes) (p : ℕ) (r : Answer) (delay : ℕ)
      (running : List (Bytes × ℕ))
      → Sourced s
      → Sourced (complete range s key p r delay running)
  unfolding complete finish
  complete-Sourced range s key p r delay running v = elim (Bool-cases (ltb 0 (ttl_of s.cache r))) [
    | inl ttl ↦ rw ttl (record {
      pos_kept = v.pos_kept;
      neg_kept = v.neg_kept;
      comes =
          evict-All (Comes (d ∷ s.log)) range s.cache.max_size (s.clock + delay)
            (put key (entry_of s.cache r s.clock) s.cache.entries)
            (made, delete-All (Comes (d ∷ s.log)) key s.cache.entries older);
    })
    | inr kept ↦ rw kept (record { pos_kept = v.pos_kept; neg_kept = v.neg_kept; comes = older })
  ]
    where
      d : Finished
      d = record { key = key; answer = r; time = s.clock }

      older : All (Comes (d ∷ s.log)) s.cache.entries
      older = Comes-later d s.log s.cache.entries v.comes

      made : Comes (d ∷ s.log) (key, entry_of s.cache r s.clock)
      made = (d, inl refl, refl, rw (v.pos_kept, v.neg_kept))

  Step-Sourced : {range : MapRange} {s t : Machine} → Step range s t → Sourced s → Sourced t
  Step-Sourced {s = s} (arrives key) v = arrive-Sourced s key v
  Step-Sourced {range} {s} (completes key p r delay before after e) v =
      complete-Sourced range s key p r delay (before ++ after) v
  Step-Sourced (gives_up w before after e) v = record {
    pos_kept = v.pos_kept;
    neg_kept = v.neg_kept;
    comes = v.comes;
  }
  Step-Sourced (ticks d) v = record {
    pos_kept = v.pos_kept;
    neg_kept = v.neg_kept;
    comes = v.comes;
  }

  Reach-Sourced : {range : MapRange} {s t : Machine} → Sourced s → Reach range s t → Sourced t
  Reach-Sourced v here = v
  Reach-Sourced v (next r st) = Step-Sourced st (Reach-Sourced v r)

-- Whatever callers, upstream and time have done from an empty cache on, an answer that is served
-- from the cache is that of an upstream lookup for the same key, which ended less than its term ago:
-- the positive one for addresses, the negative one for an error or none.
pub Reach-hit :
    (range : MapRange) (pos neg size : ℕ) {s : Machine} (key : Bytes) {c : Cache} (a : Answer)
    → Reach range (start pos neg size) s
    → begin s.cache s.clock key s.next ≡ (c, hit a)
    → (d : Finished) × In d s.log
      × (d.key ≡ key)
      × (a ≡ answer_of (entry_of (new_cache pos neg size) d.answer d.time))
      × (s.clock < d.time + ttl_of (new_cache pos neg size) d.answer)
Reach-hit range pos neg size {s} key {c} a r h = elim (begin-Begins s.cache s.clock key s.next) [
  | inr (inl (p, found, eq)) ↦ absurd (ground arith)
  | inr (inr (new, eq)) ↦ absurd (ground arith)
  | inl (e, found, fresh, eq) ↦
      let all = (Reach-Sourced pos neg size (start-Sourced pos neg size) r).comes in
      let (d, logged, same, made) =
        All-find (Comes pos neg size s.log) key s.cache.entries all found in
      (d, logged, same, ground arith, ground arith)
]
