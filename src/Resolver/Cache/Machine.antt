-- ===== src/Resolver/Cache/Machine.antt =====
-- The callers of one cache (dns/resolver/cache.go) in any interleaving: a step is one critical
-- section of `Resolve`, run at the clock of the machine, or the passing of time. `running` and `log`
-- record what the upstream does, for the statements to speak of.
pub mod Coalesce
pub mod Pending
pub mod Served
pub mod Waiting
pub mod Woken
use spoof_dpi_turkiye.Prelude.{
  ◌==◌, if◌then◌else◌, ℕ, suc, ◌+◌, ◌≤◌, ◌≡◌, List, [], ◌∷◌, ◌++◌, Bytes, find, none, some,
}
use spoof_dpi_turkiye.Resolver.Answer.{Answer, answer}
use spoof_dpi_turkiye.Resolver.Cache.{
  Cache, MapRange, Begun, hit, joins, leads, new_cache, begin, finish, ttl_of,
}

-- A lookup that the upstream has answered, and when.
pub record Finished : Type 0 where
  pub key : Bytes
  pub answer : Answer
  pub time : ℕ

pub record Machine : Type 0 where
  pub cache : Cache
  pub clock : ℕ
  pub next : ℕ
  pub running : List (Bytes × ℕ)
  pub waiting : List (Bytes × ℕ)
  pub log : List Finished

unfoldable pub start : ℕ → ℕ → ℕ → Machine
unfolding new_cache
start pos_ttl neg_ttl max_size = record {
  cache = new_cache pos_ttl neg_ttl max_size;
  clock = 0;
  next = 0;
  running = [];
  waiting = [];
  log = [];
}

-- A caller runs the first critical section. One that joins waits from here on for the lookup of that
-- number, and one that leads has its lookup running.
abbrev pub after_begin : Machine → Bytes → Cache × Begun → Machine
after_begin s key (c, hit a) = record s { cache = c }
after_begin s key (c, joins p) = record s { cache = c; waiting = (key, p) ∷ s.waiting }
after_begin s key (c, leads p) = record s {
  cache = c;
  next = suc s.next;
  running = (key, p) ∷ s.running;
}

unfoldable pub arrive : Machine → Bytes → Machine
arrive s key = after_begin s key (begin s.cache s.clock key s.next)

-- `close(p.done)` wakes those that wait for the lookup.
unfoldable pub still_waiting : ℕ → List (Bytes × ℕ) → List (Bytes × ℕ)
still_waiting p [] = []
still_waiting p ((k, q) ∷ waiting) =
    let rest = still_waiting p waiting in if q == p then rest else (k, q) ∷ rest

-- What a caller that has joined returns when it is woken.
abbrev pub joined_answer : Answer → Answer
joined_answer r = elim r.error [ none ↦ answer r.addrs none | some e ↦ answer [] (some e) ]

-- The callers that `close(p.done)` wakes, by their keys, with what they return.
unfoldable pub wake : ℕ → Answer → List (Bytes × ℕ) → List (Bytes × Answer)
wake p r [] = []
wake p r ((k, q) ∷ waiting) =
    let rest = wake p r waiting in if q == p then (k, joined_answer r) ∷ rest else rest

-- The leader of a lookup runs the second, with the upstream's answer; the eviction reads the clock
-- `delay` later.
unfoldable pub complete : MapRange → Machine → Bytes → ℕ → Answer → ℕ → List (Bytes × ℕ) → Machine
unfolding still_waiting
complete range s key p r delay running = record s {
  cache = finish range s.cache key r s.clock (s.clock + delay);
  clock = s.clock + delay;
  running = running;
  waiting = still_waiting p s.waiting;
  log = record { key = key; answer = r; time = s.clock } ∷ s.log;
}

-- Upstream answers, callers, the lookup that ends next, and the waiting caller whose context ends are
-- the environment's choice.
pub data Step (range : MapRange) (s : Machine) : Machine → Type 0 where
  arrives : (key : Bytes) → Step range s (arrive s key)
  completes :
      (key : Bytes) (p : ℕ) (r : Answer) (delay : ℕ) (before after : List (Bytes × ℕ))
      → s.running ≡ before ++ (key, p) ∷ after
      → Step range s (complete range s key p r delay (before ++ after))
  gives_up :
      (w : Bytes × ℕ) (before after : List (Bytes × ℕ))
      → s.waiting ≡ before ++ w ∷ after
      → Step range s (record s { waiting = before ++ after })
  ticks : (d : ℕ) → Step range s (record s { clock = s.clock + d })

pub data Reach (range : MapRange) (s : Machine) : Machine → Type 0 where
  here : Reach range s s
  next : {t u : Machine} → Reach range s t → Step range t u → Reach range s u
