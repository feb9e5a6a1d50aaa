-- ===== src/Resolver/Cache/Machine/Coalesce.antt =====
-- The pending lookups and the size of the cache in any interleaving (dns/resolver/cache.go).
use spoof_dpi_turkiye.Prelude.{
  ℕ, ◌+◌, ◌≤◌, ◌≡◌, ◌⊎◌, refl, ap, sym, ◌∙◌, subst, true, List, ◌∷◌, ◌++◌, none, some, arith, Bytes,
  length, find, delete, put, Distinct, put-Distinct, Bool-cases, Option-cases, inl, inr, ltb,
}
use spoof_dpi_turkiye.Resolver.Answer.{Answer}
use spoof_dpi_turkiye.Resolver.Cache.{
  Cache, CacheEntry, MapRange, Begun, hit, joins, leads, new_cache, is_fresh, answer_of, ttl_of,
  entry_of, evict, begin, join_or_lead, finish,
}
use spoof_dpi_turkiye.Resolver.Cache.Machine.Pending.{
  find-put, find-cons, removed-Distinct, find-delete_removed,
}
use spoof_dpi_turkiye.Resolver.Cache.Bound.{evict-Distinct, length-evict-le}
use spoof_dpi_turkiye.Resolver.Cache.Machine.{
  Machine, start, arrive, complete, Step, arrives, completes, gives_up, ticks, Reach, here, next,
}

-- The pending lookups are those that run, no key runs twice, and the entries are within bounds.
pub record Inv (limit : ℕ) (s : Machine) : Type 0 where
  pub tracked : (k : Bytes) → find k s.cache.pending ≡ find k s.running
  pub single : Distinct s.running
  pub distinct : Distinct s.cache.entries
  pub bounded : length s.cache.entries ≤ limit
  pub sized : s.cache.max_size ≡ limit

pub start-Inv : (pos neg size : ℕ) → Inv (new_cache pos neg size).max_size (start pos neg size)
unfolding start find
start-Inv pos neg size = record {
  tracked = λ k. refl;
  single = tt;
  distinct = tt;
  bounded = omega arith;
  sized = refl;
}

module _ (c : Cache) (now : ℕ) (key : Bytes) (p : ℕ) where
  -- A caller hits, joins the lookup that is pending, or leads a new one.
  abbrev pub Begins : Cache × Begun → Type 0
  Begins r =
      ((e : CacheEntry) × (find key c.entries ≡ some e)
        × (is_fresh now e ≡ true)
        × (r ≡ (c, hit (answer_of e))))
      ⊎ ((q : ℕ) × (find key c.pending ≡ some q) × (r ≡ (c, joins q)))
      ⊎ ((find key c.pending ≡ none) × (r ≡ (record c { pending = put key p c.pending }, leads p)))

  join_or_lead-Begins : Begins (join_or_lead c key p)
  unfolding join_or_lead
  join_or_lead-Begins = elim (Option-cases (find key c.pending)) [
    | inl e ↦ inr (inr (e, rw (e, join_or_lead)))
    | inr (q, e) ↦ inr (inl (q, e, rw (e, join_or_lead)))
  ]

  pub begin-Begins : Begins (begin c now key p)
  unfolding begin
  begin-Begins = elim (Option-cases (find key c.entries)) [
    | inl e ↦ subst Begins (sym (rw (e, begin))) join_or_lead-Begins
    | inr (x, e) ↦ elim (Bool-cases (is_fresh now x)) [
      | inl f ↦ inl (x, e, f, rw (e, begin) (rw f))
      | inr f ↦ subst Begins (sym (rw (e, begin) (rw f))) join_or_lead-Begins
    ]
  ]

-- The clock and the waiting callers do not count.
same_lookups :
    {limit : ℕ} {s : Machine} {clock : ℕ} {waiting : List (Bytes × ℕ)}
    → Inv limit s
    → Inv limit (record s { clock = clock; waiting = waiting })
same_lookups v = record {
  tracked = v.tracked;
  single = v.single;
  distinct = v.distinct;
  bounded = v.bounded;
  sized = v.sized;
}

arrive-Inv : (limit : ℕ) (s : Machine) (key : Bytes) → Inv limit s → Inv limit (arrive s key)
unfolding arrive
arrive-Inv limit s key v = elim (begin-Begins s.cache s.clock key s.next) [
  | inl (e, found, fresh, eq) ↦ rw eq v
  | inr (inl (q, found, eq)) ↦ rw eq (same_lookups v)
  | inr (inr (new, eq)) ↦ rw eq (record {
    tracked = λ k. find-put key s.next k _ ∙ find-cons key s.next k _ _ (v.tracked k);
    single = (sym (v.tracked key) ∙ new, v.single);
    distinct = v.distinct;
    bounded = v.bounded;
    sized = v.sized;
  })
]

complete-Inv :
    (range : MapRange) (limit : ℕ) (s : Machine) (key : Bytes) (p : ℕ) (r : Answer) (delay : ℕ)
    (before after : List (Bytes × ℕ))
    → s.running ≡ before ++ (key, p) ∷ after
    → Inv limit s
    → Inv limit (complete range s key p r delay (before ++ after))
unfolding complete finish
complete-Inv range limit s key p r delay before after e v =
    elim (Bool-cases (ltb 0 (ttl_of s.cache r))) [
      | inl ttl ↦ rw ttl (record {
        tracked = removed;
        single = single;
        distinct =
            evict-Distinct range s.cache.max_size (s.clock + delay) stored
              (put-Distinct key (entry_of s.cache r s.clock) s.cache.entries v.distinct);
        bounded = omega (arith, v.sized, evicted);
        sized = v.sized;
      })
      | inr kept ↦ rw kept (record {
        tracked = removed;
        single = single;
        distinct = v.distinct;
        bounded = v.bounded;
        sized = v.sized;
      })
    ]
  where
    stored : List (Bytes × CacheEntry)
    stored = put key (entry_of s.cache r s.clock) s.cache.entries

    evicted : length (evict range s.cache.max_size (s.clock + delay) stored) ≤ s.cache.max_size
    evicted =
        length-evict-le range s.cache.max_size (s.clock + delay) stored
          (put-Distinct key (entry_of s.cache r s.clock) s.cache.entries v.distinct)

    all : Distinct (before ++ (key, p) ∷ after)
    all = subst Distinct e v.single

    single : Distinct (before ++ after)
    single = removed-Distinct key p before after all

    removed : (k : Bytes) → find k (delete key s.cache.pending) ≡ find k (before ++ after)
    removed =
        find-delete_removed key p s.cache.pending before after (λ k. v.tracked k ∙ ap (find k) e)
          all

Step-Inv :
    {range : MapRange} {limit : ℕ} {s t : Machine} → Step range s t → Inv limit s → Inv limit t
Step-Inv {limit = limit} {s = s} (arrives key) v = arrive-Inv limit s key v
Step-Inv {range} {limit} {s} (completes key p r delay before after e) v =
    complete-Inv range limit s key p r delay before after e v
Step-Inv (gives_up w before after e) v = same_lookups v
Step-Inv (ticks d) v = same_lookups v

pub Reach-Inv :
    {range : MapRange} {limit : ℕ} {s t : Machine} → Inv limit s → Reach range s t → Inv limit t
Reach-Inv v here = v
Reach-Inv v (next r st) = Step-Inv st (Reach-Inv v r)

-- In whatever order callers arrive, lookups end and time passes, from an empty cache on no key
-- is looked up twice at the same time.
pub Reach-single :
    (range : MapRange) (pos neg size : ℕ) {s : Machine}
    → Reach range (start pos neg size) s
    → Distinct s.running
Reach-single range pos neg size r = (Reach-Inv (start-Inv pos neg size) r).single

-- In whatever order callers arrive, lookups end and time passes, from an empty cache on the
-- cache never holds more entries than its maximum size.
pub Reach-bounded :
    (range : MapRange) (pos neg size : ℕ) {s : Machine}
    → Reach range (start pos neg size) s
    → length s.cache.entries ≤ (new_cache pos neg size).max_size
Reach-bounded range pos neg size r = (Reach-Inv (start-Inv pos neg size) r).bounded
