-- ===== src/Resolver/Cache.antt =====
-- The cache of dns/resolver/cache.go: its two critical sections, in front of the upstream and behind
-- it, and the eviction. Times and durations are numbers of nanoseconds; a pointer to a pending
-- lookup is its number.
pub mod Key
pub mod Bound
pub mod Machine
pub mod Slices
pub mod Stored
pub mod Tests
use spoof_dpi_turkiye.Prelude.{
  ℕ, zero, suc, ◌+◌, ◌-◌, ◌/◌, ◌%◌, ◌^◌, ◌≡◌, ◌≢◌, bytes_eq, Bool, true, false, List, [], ◌∷◌, ◌++◌,
  Option, none, some, Bytes, length, All, find, delete, put, Distinct, ltb, leb, ◌==◌,
  if◌then◌else◌,
}
use spoof_dpi_turkiye.AddrSelect.Ip.{IpAddr}
use spoof_dpi_turkiye.Resolver.Answer.{Error, Answer, answer, is_empty}

pub record CacheEntry : Type 0 where
  pub addrs : List IpAddr
  pub error : Option Error
  pub expires : ℕ

pub record Cache : Type 0 where
  pub pos_ttl : ℕ
  pub neg_ttl : ℕ
  pub max_size : ℕ
  pub entries : List (Bytes × CacheEntry)
  pub pending : List (Bytes × ℕ)

-- `NewCache`
unfoldable pub new_cache : ℕ → ℕ → ℕ → Cache
new_cache pos_ttl neg_ttl max_size = record {
  pos_ttl = pos_ttl;
  neg_ttl = neg_ttl;
  max_size = if max_size == 0 then 1024 else max_size;
  entries = [];
  pending = [];
}

-- `byte(q >> 8)` and `byte(q)` for each query type
unfoldable pub type_bytes : List ℕ → Bytes
type_bytes [] = []
type_bytes (q ∷ qs) = (q / 256 % 256) ∷ (q % 256) ∷ type_bytes qs

unfoldable pub cache_key : Bytes → List ℕ → Bytes
unfolding type_bytes
cache_key host q_types = host ++ type_bytes q_types

-- `e.expires.After(now)`
abbrev pub is_fresh : ℕ → CacheEntry → Bool
is_fresh now e = ltb now e.expires

abbrev pub answer_of : CacheEntry → Answer
answer_of e = elim e.error [ none ↦ answer e.addrs none | some x ↦ answer [] (some x) ]

-- How the first critical section of `Resolve` ends: with a cached answer, by joining the lookup that
-- is pending, or by leading a new one.
pub data Begun : Type 0 where
  hit : Answer → Begun
  joins : ℕ → Begun
  leads : ℕ → Begun

-- Behind the check of the entries; `p` is the new `pendingLookup`.
unfoldable pub join_or_lead : Cache → Bytes → ℕ → Cache × Begun
join_or_lead c key p = elim (find key c.pending) [
  | some q ↦ (c, joins q)
  | none ↦ (record c { pending = put key p c.pending }, leads p)
]

unfoldable pub begin : Cache → ℕ → Bytes → ℕ → Cache × Begun
begin c now key p = elim (find key c.entries) [
  | none ↦ join_or_lead c key p
  | some e ↦ if is_fresh now e then (c, hit (answer_of e)) else join_or_lead c key p
]

-- The first loop of `evictLocked` drops what has expired.
unfoldable pub drop_expired : ℕ → List (Bytes × CacheEntry) → List (Bytes × CacheEntry)
drop_expired now [] = []
drop_expired now ((k, e) ∷ m) =
    let rest = drop_expired now m in if is_fresh now e then (k, e) ∷ rest else rest

-- Its second loop, over the keys in the order of the iteration.
unfoldable pub drop_excess : {V : Type 0} → ℕ → List Bytes → List (Bytes × V) → List (Bytes × V)
drop_excess zero keys m = m
drop_excess (suc excess) [] m = m
drop_excess (suc excess) (k ∷ keys) m = drop_excess excess keys (delete k m)

-- The order in which Go iterates over a map: each key once. Which order, the runtime chooses.
abbrev pub Absent : Bytes → List Bytes → Type 0
Absent k [] = Unit
Absent k (j ∷ js) = (bytes_eq k j ≡ false) × Absent k js

abbrev pub DistinctKeys : List Bytes → Type 0
DistinctKeys [] = Unit
DistinctKeys (k ∷ ks) = Absent k ks × DistinctKeys ks

pub record MapRange : Type 0 where
  pub keys : List (Bytes × CacheEntry) → List Bytes
  pub once : (m : List (Bytes × CacheEntry)) → Distinct m → DistinctKeys (keys m)
  pub present : (m : List (Bytes × CacheEntry)) → Distinct m → All (λ k. find k m ≢ none) (keys m)
  pub all : (m : List (Bytes × CacheEntry)) → Distinct m → length (keys m) ≡ length m

abbrev pub ttl_of : Cache → Answer → ℕ
ttl_of c r = elim r.error [
  | some e ↦ c.neg_ttl
  | none ↦ if is_empty r.addrs then c.neg_ttl else c.pos_ttl
]

-- `&cacheEntry{…}`, made at the time `now`
abbrev pub entry_of : Cache → Answer → ℕ → CacheEntry
entry_of c r now = record { addrs = r.addrs; error = r.error; expires = now + ttl_of c r }

module _ (range : MapRange) where
  unfoldable pub evict : ℕ → ℕ → List (Bytes × CacheEntry) → List (Bytes × CacheEntry)
  unfolding drop_expired drop_excess
  evict max_size now m =
      let live = drop_expired now m in
      if leb (length m) max_size
      then m
      else if leb (length live) max_size
      then live
      else drop_excess (length live - max_size) (range.keys live) live

  -- The second critical section of `Resolve`, at the time `now`; `evictLocked` reads the clock
  -- again, at `later`.
  unfoldable pub finish : Cache → Bytes → Answer → ℕ → ℕ → Cache
  finish c key r now later =
      let ttl = ttl_of c r in
      let stored = evict c.max_size later (put key (entry_of c r now) c.entries) in
      if ltb 0 ttl
      then record c { pending = delete key c.pending; entries = stored }
      else record c { pending = delete key c.pending }
