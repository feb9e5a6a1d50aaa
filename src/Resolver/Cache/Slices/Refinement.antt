-- ===== src/Resolver/Cache/Slices/Refinement.antt =====
-- The cache with its slices does what the cache of addresses does (dns/resolver/cache.go).
use spoof_dpi_turkiye.Prelude.{
  ℕ, ◌+◌, ◌≡◌, refl, ap, ap₂, ◌∙◌, sym, subst, false, List, ◌∷◌, ◌++◌, Option, none, some, Bytes,
  put, find, delete, ltb, ◌==◌, All, All-map, All-at, Bool-cases, Option-cases, inl, inr,
}
use spoof_dpi_turkiye.AddrSelect.Ip.{IpAddr}
use spoof_dpi_turkiye.Resolver.Answer.{Error, Answer}
use spoof_dpi_turkiye.Resolver.Cache.{
  CacheEntry, MapRange, entry_of, begin, join_or_lead, evict, finish,
}
use spoof_dpi_turkiye.Resolver.Cache.Machine.{Machine, after_begin, arrive, complete, still_waiting}
use spoof_dpi_turkiye.Resolver.Cache.Slices.{
  Slice, Heap, contents, write_array, clone_addrs, upstream_slice, SliceEntry, Memory, give,
  wait_or_lead, enter, evict_slices, term_of, settle, view_entry, view_entries,
}
use spoof_dpi_turkiye.Resolver.Cache.Slices.Steps.{view}
use spoof_dpi_turkiye.Resolver.Cache.Slices.View.{
  find-view_none, find-view_some, put-view, evict-view, view_entries-agree,
}
use spoof_dpi_turkiye.Resolver.Cache.Slices.Isolated.{
  Private, Isolated, Extends, Extends-trans, clone_addrs-Extends, upstream_slice-Extends,
  contents-clone_addrs, contents-upstream_slice, view_entries-Extends,
}

-- A machine with other entries.
abbrev with_entries : Machine → List (Bytes × CacheEntry) → Machine
with_entries s m = record s { cache = record s.cache { entries = m } }

pub view-give :
    (s : Memory) (a : Slice) (e : Option Error) → Isolated s → view (give s a e).0 ≡ view s
view-give s a (some e) v = refl
view-give s a none v =
    ap (with_entries (view s))
      (sym (view_entries-Extends (clone_addrs-Extends s.heap a) s.held s.entries v.own))

-- Where no fresh entry is there, a caller waits or leads.
view-wait_or_lead :
    (s : Memory) (key : Bytes)
    → view (wait_or_lead s key) ≡ after_begin (view s) key (join_or_lead (view s).cache key s.next)
unfolding join_or_lead
view-wait_or_lead s key = elim (Option-cases (find key s.pending)) [
  | inl e ↦ rw (e, wait_or_lead, join_or_lead) refl
  | inr (p, e) ↦ rw (e, wait_or_lead, join_or_lead) refl
]

pub view-enter :
    (s : Memory) (key : Bytes) → Isolated s → view (enter s key).0 ≡ arrive (view s) key
unfolding enter arrive begin
view-enter s key v = elim (Option-cases (find key s.entries)) [
  | inl e ↦
      rw (e, find-view_none s.heap key s.entries e, enter, arrive, begin) (view-wait_or_lead s key)
  | inr (x, e) ↦ elim (Bool-cases (ltb s.clock x.expires)) [
    | inl f ↦
        rw (e, find-view_some s.heap key s.entries x e, enter, arrive, begin, f)
          (view-give s x.addrs x.error v)
    | inr f ↦
        rw (e, find-view_some s.heap key s.entries x e, enter, arrive, begin, f)
          (view-wait_or_lead s key)
  ]
]

-- A caller writes into an array that it holds.
pub view-write_array :
    (s : Memory) (r : ℕ) (xs : List IpAddr) (before after : List ℕ)
    → Isolated s
    → s.held ≡ before ++ r ∷ after
    → view (record s { heap = write_array s.heap r xs }) ≡ view s
view-write_array s r xs before after v e = ap (with_entries (view s)) (
    view_entries-agree (write_array s.heap r xs) s.heap s.entries
      (All-map (λ (k, x) p. apart x.addrs p) s.entries v.own))
  where
    apart :
        (a : Slice)
        → Private s.heap s.held a
        → contents (write_array s.heap r xs) a ≡ contents s.heap a
    apart none p = refl
    apart (some q) p =
        let other : (q == r) ≡ false =
          All-at (λ j. (q == j) ≡ false) r before after
            (subst (All (λ j. (q == j) ≡ false)) e p.1) in
        rw other refl

pub view-settle :
    (range : MapRange) (s : Memory) (key : Bytes) (p : ℕ) (r : Answer) (delay : ℕ)
    (running : List (Bytes × ℕ))
    → Isolated s
    → view (settle range s key p r delay running) ≡ complete range (view s) key p r delay running
unfolding settle complete finish
view-settle range s key p r delay running v = elim (Bool-cases (ltb 0 (term_of s r))) [
  | inl stored ↦ rw stored (ap ended entries)
  | inr dropped ↦ rw dropped (ap ended (sym (view_entries-Extends grown s.held s.entries v.own)))
]
  where
    h : Heap
    h = (upstream_slice s.heap r.addrs).0

    addrs : Slice
    addrs = (upstream_slice s.heap r.addrs).1

    cloned : Heap
    cloned = (clone_addrs h addrs).0

    entry : SliceEntry
    entry = record {
      addrs = (clone_addrs h addrs).1;
      error = r.error;
      expires = s.clock + term_of s r;
    }

    grown : Extends s.heap h
    grown = upstream_slice-Extends s.heap r.addrs

    both : Extends s.heap cloned
    both = Extends-trans s.heap h cloned grown (clone_addrs-Extends h addrs)

    ended : List (Bytes × CacheEntry) → Machine
    ended m = record {
      cache = record {
        pos_ttl = s.pos_ttl;
        neg_ttl = s.neg_ttl;
        max_size = s.max_size;
        entries = m;
        pending = delete key s.pending;
      };
      clock = s.clock + delay;
      next = s.next;
      running = running;
      waiting = still_waiting p s.waiting;
      log = record { key = key; answer = r; time = s.clock } ∷ s.log;
    }

    -- The entry that is made has the addresses of the answer.
    copy : contents cloned entry.addrs ≡ r.addrs
    copy = contents-clone_addrs h addrs ∙ contents-upstream_slice s.heap r.addrs

    made : view_entry cloned entry ≡ entry_of (view s).cache r s.clock
    made = ap (λ xs. record { addrs = xs; error = r.error; expires = s.clock + term_of s r }) copy

    entries :
        view_entries cloned
          (evict_slices range cloned s.max_size (s.clock + delay) (put key entry s.entries))
        ≡ evict range s.max_size
            (s.clock + delay)
            (put key (entry_of (view s).cache r s.clock) (view_entries s.heap s.entries))
    entries =
        sym (evict-view cloned range s.max_size (s.clock + delay) (put key entry s.entries))
        ∙ ap (evict range s.max_size (s.clock + delay)) (
            sym (put-view cloned key entry s.entries)
            ∙ ap₂ (put key) made (sym (view_entries-Extends both s.held s.entries v.own)))
