-- ===== src/Resolver/Cache/Slices/Steps.antt =====
-- The callers of a cache with its slices (dns/resolver/cache.go): the steps of Machine, and the
-- writes of callers into the slices that they were given.
use spoof_dpi_turkiye.Prelude.{ℕ, ◌+◌, ◌≡◌, List, ◌∷◌, ◌++◌, Bytes}
use spoof_dpi_turkiye.AddrSelect.Ip.{IpAddr}
use spoof_dpi_turkiye.Resolver.Answer.{Answer}
use spoof_dpi_turkiye.Resolver.Cache.{MapRange}
use spoof_dpi_turkiye.Resolver.Cache.Machine.{Machine}
use spoof_dpi_turkiye.Resolver.Cache.Slices.{
  DoneLookup, Memory, write_array, give, enter, settle, view_entries,
}

-- A step is one critical section, a caller that reads a lookup that is done, as those that wait for
-- it do, a caller that puts addresses into what it holds, or what the environment does.
pub data SliceStep (range : MapRange) (s : Memory) : Memory → Type 0 where
  enters : (key : Bytes) → SliceStep range s (enter s key).0
  settles :
      (key : Bytes) (p : ℕ) (r : Answer) (delay : ℕ) (before after : List (Bytes × ℕ))
      → s.running ≡ before ++ (key, p) ∷ after
      → SliceStep range s (settle range s key p r delay (before ++ after))
  wakes :
      (d : DoneLookup) (before after : List DoneLookup)
      → s.done ≡ before ++ d ∷ after
      → SliceStep range s (give s d.addrs d.error).0
  writes :
      (r : ℕ) (xs : List IpAddr) (before after : List ℕ)
      → s.held ≡ before ++ r ∷ after
      → SliceStep range s (record s { heap = write_array s.heap r xs })
  leaves :
      (w : Bytes × ℕ) (before after : List (Bytes × ℕ))
      → s.waiting ≡ before ++ w ∷ after
      → SliceStep range s (record s { waiting = before ++ after })
  passes : (d : ℕ) → SliceStep range s (record s { clock = s.clock + d })

pub data SliceReach (range : MapRange) (s : Memory) : Memory → Type 0 where
  begins : SliceReach range s s
  then_step : {t u : Memory} → SliceReach range s t → SliceStep range t u → SliceReach range s u

-- The machine whose slices are their addresses.
abbrev pub view : Memory → Machine
view s = record {
  cache = record {
    pos_ttl = s.pos_ttl;
    neg_ttl = s.neg_ttl;
    max_size = s.max_size;
    entries = view_entries s.heap s.entries;
    pending = s.pending;
  };
  clock = s.clock;
  next = s.next;
  running = s.running;
  waiting = s.waiting;
  log = s.log;
}
