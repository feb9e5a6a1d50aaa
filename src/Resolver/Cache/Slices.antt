-- ===== src/Resolver/Cache/Slices.antt =====
-- The cache of dns/resolver/cache.go with its slices as pointers: what it stores, what its callers
-- are given, and which of them share an array. An address is a value: that copies share the bytes of
-- an address, which `cloneAddrs` does not copy, is left out.
pub mod Isolated
pub mod Kept
pub mod Refinement
pub mod Served
pub mod Steps
mod Tests
pub mod View
use spoof_dpi_turkiye.Prelude.{
  ℕ, suc, ◌+◌, ◌-◌, ◌≡◌, Bool, List, [], ◌∷◌, ◌++◌, Option, none, some, Bytes, length, find, put,
  delete, ltb, leb, ◌==◌, if◌then◌else◌,
}
use spoof_dpi_turkiye.AddrSelect.Ip.{IpAddr}
use spoof_dpi_turkiye.Resolver.Answer.{Error, Answer, answer, is_empty}
use spoof_dpi_turkiye.Resolver.Cache.{CacheEntry, Cache, MapRange, drop_excess}
use spoof_dpi_turkiye.Resolver.Cache.Machine.{Finished, still_waiting}

-- A `[]net.IPAddr`: nil, or an array by its number.
abbrev pub Slice : Type 0
Slice = Option ℕ

-- The first `used` arrays have been made.
pub record Heap : Type 0 where
  pub used : ℕ
  pub arrays : ℕ → List IpAddr

abbrev pub contents : Heap → Slice → List IpAddr
contents h none = []
contents h (some r) = h.arrays r

abbrev pub write_array : Heap → ℕ → List IpAddr → Heap
write_array h r xs = record h { arrays = λ q. if q == r then xs else h.arrays q }

abbrev pub allocate : Heap → List IpAddr → Heap × Slice
allocate h xs =
    (record { used = suc h.used; arrays = (write_array h h.used xs).arrays }, some h.used)

unfoldable pub clone_addrs : Heap → Slice → Heap × Slice
clone_addrs h none = (h, none)
clone_addrs h (some r) = allocate h (h.arrays r)

-- What the upstream returns is nil when there is no address.
abbrev pub upstream_slice : Heap → List IpAddr → Heap × Slice
upstream_slice h [] = (h, none)
upstream_slice h (x ∷ xs) = allocate h (x ∷ xs)

pub record SliceEntry : Type 0 where
  pub addrs : Slice
  pub error : Option Error
  pub expires : ℕ

-- A `pendingLookup` that is done, and its number.
pub record DoneLookup : Type 0 where
  pub number : ℕ
  pub addrs : Slice
  pub error : Option Error

-- The cache and its callers; `held` has the arrays of the slices that callers were given.
pub record Memory : Type 0 where
  pub heap : Heap
  pub pos_ttl : ℕ
  pub neg_ttl : ℕ
  pub max_size : ℕ
  pub entries : List (Bytes × SliceEntry)
  pub pending : List (Bytes × ℕ)
  pub clock : ℕ
  pub next : ℕ
  pub running : List (Bytes × ℕ)
  pub waiting : List (Bytes × ℕ)
  pub done : List DoneLookup
  pub held : List ℕ
  pub log : List Finished

-- `NewCache`
unfoldable pub new_memory : ℕ → ℕ → ℕ → Memory
new_memory pos_ttl neg_ttl max_size = record {
  heap = record { used = 0; arrays = λ r. [] };
  pos_ttl = pos_ttl;
  neg_ttl = neg_ttl;
  max_size = if max_size == 0 then 1024 else max_size;
  entries = [];
  pending = [];
  clock = 0;
  next = 0;
  running = [];
  waiting = [];
  done = [];
  held = [];
  log = [];
}

-- A caller is given a slice.
abbrev pub hold : Slice → List ℕ → List ℕ
hold none held = held
hold (some r) held = r ∷ held

-- A caller is given a copy.
abbrev pub give_clone : Memory → Slice → Memory × Slice
give_clone s a =
    let (h, copy) = clone_addrs s.heap a in (record s { heap = h; held = hold copy s.held }, copy)

-- A slice and an error, as `Resolve` returns them
abbrev pub Returned : Type 0
Returned = Slice × Option Error

abbrev pub give : Memory → Slice → Option Error → Memory × Returned
give s a (some e) = (s, (none, some e))
give s a none = let (t, copy) = give_clone s a in (t, (copy, none))

abbrev pub wait_or_lead : Memory → Bytes → Memory
wait_or_lead s key = elim (find key s.pending) [
  | some p ↦ record s { waiting = (key, p) ∷ s.waiting }
  | none ↦ record s {
    pending = put key s.next s.pending;
    next = suc s.next;
    running = (key, s.next) ∷ s.running;
  }
]

-- The first critical section of `Resolve`, and what it returns when an entry is there.
unfoldable pub enter : Memory → Bytes → Memory × Option Returned
unfolding clone_addrs
enter s key =
    let rest : Memory × Option Returned = (wait_or_lead s key, none) in
    elim (find key s.entries) [
      | none ↦ rest
      | some e ↦
          let (t, r) = give s e.addrs e.error in if ltb s.clock e.expires then (t, some r) else rest
    ]

unfoldable pub drop_expired_slices : ℕ → List (Bytes × SliceEntry) → List (Bytes × SliceEntry)
drop_expired_slices now [] = []
drop_expired_slices now ((k, e) ∷ m) =
    let rest = drop_expired_slices now m in if ltb now e.expires then (k, e) ∷ rest else rest

-- The entries with their addresses in place of the slices
abbrev pub view_entry : Heap → SliceEntry → CacheEntry
view_entry h e = record { addrs = contents h e.addrs; error = e.error; expires = e.expires }

unfoldable pub view_entries : Heap → List (Bytes × SliceEntry) → List (Bytes × CacheEntry)
view_entries h [] = []
view_entries h ((k, e) ∷ m) = (k, view_entry h e) ∷ view_entries h m

-- `evictLocked`; the order of the iteration is any.
unfoldable pub evict_slices :
    MapRange → Heap → ℕ → ℕ → List (Bytes × SliceEntry) → List (Bytes × SliceEntry)
unfolding drop_expired_slices view_entries drop_excess
evict_slices range h max_size now m =
    let live = drop_expired_slices now m in
    if leb (length m) max_size
    then m
    else if leb (length live) max_size
    then live
    else drop_excess (length live - max_size) (range.keys (view_entries h live)) live

abbrev pub term_of : Memory → Answer → ℕ
term_of s r = elim r.error [
  | some e ↦ s.neg_ttl
  | none ↦ if is_empty r.addrs then s.neg_ttl else s.pos_ttl
]

-- The second critical section of `Resolve`: the entry is given a copy, the lookup and the caller that
-- leads it the slice that the upstream has returned.
unfoldable pub settle : MapRange → Memory → Bytes → ℕ → Answer → ℕ → List (Bytes × ℕ) → Memory
unfolding clone_addrs evict_slices still_waiting
settle range s key p r delay running =
    let (h, addrs) = upstream_slice s.heap r.addrs in
    let (cloned, copy) = clone_addrs h addrs in
    let entry : SliceEntry = record {
      addrs = copy;
      error = r.error;
      expires = s.clock + term_of s r;
    } in
    let released = record s {
      heap = h;
      pending = delete key s.pending;
      clock = s.clock + delay;
      running = running;
      waiting = still_waiting p s.waiting;
      done = record { number = p; addrs = addrs; error = r.error } ∷ s.done;
      held = hold addrs s.held;
      log = record { key = key; answer = r; time = s.clock } ∷ s.log;
    } in
    let stored = record released {
      heap = cloned;
      entries = evict_slices range cloned s.max_size (s.clock + delay) (put key entry s.entries);
    } in
    if ltb 0 (term_of s r) then stored else released
