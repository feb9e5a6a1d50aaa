-- ===== src/Dns/Cached.antt =====
-- The cache in front of the race (`NewDns` of dns/dns.go, with dns/resolver/cache.go and chain.go).
pub mod Tests
use mathlib.Core.Logic.{∥∥₁_prop}
use spoof_dpi_turkiye.Prelude.{
  ℕ, ◌<◌, ◌≡◌, ◌⊎◌, refl, sym, ap, ◌∙◌, subst, List, [], ◌∷◌, ◌++◌, Option, none, some, Bytes, All,
  All-at, All-map, length, inl, inr,
}
use spoof_dpi_turkiye.AddrSelect.Ip.{IpAddr}
use spoof_dpi_turkiye.AddrSelect.Rules.{SrcInfo}
use spoof_dpi_turkiye.Resolver.Answer.{Error, ctx_error, Answer, answer}
use spoof_dpi_turkiye.Resolver.Chain.{Signal, chain_resolve}
use spoof_dpi_turkiye.Resolver.Origin.{chain_resolve-All}
use spoof_dpi_turkiye.Resolver.Cache.{Cache, MapRange, cache_key, hit, begin}
use spoof_dpi_turkiye.Resolver.Cache.Key.{cache_key_injective}
use spoof_dpi_turkiye.Resolver.Cache.Machine.{Finished, Machine, joined_answer, wake, start, Reach}
use spoof_dpi_turkiye.Resolver.Cache.Machine.Served.{In, Reach-hit}
use spoof_dpi_turkiye.Resolver.Cache.Machine.Woken.{Reach-woken}
use spoof_dpi_turkiye.Dns.{Dns}
use spoof_dpi_turkiye.Dns.Clients.{Wire}
use spoof_dpi_turkiye.Dns.Provenance.{From}
use spoof_dpi_turkiye.Dns.Racing.{Resolved, racers, Reach-From}
use spoof_dpi_turkiye.Resolver.Chain.Machine as Racer

module _ {κ} (P : Finished → Type κ) where
  All-In : (d : Finished) (log : List Finished) → All P log → In d log → P d
  All-In d [] h logged = absurd logged
  All-In d (x ∷ log) h (inl same) = subst P (sym same) h.0
  All-In d (x ∷ log) h (inr later) = All-In d log h.1 later

module _ {κ} (P : IpAddr → Type κ) where
  joined_answer-All : (r : Answer) → All P r.addrs → All P (joined_answer r).addrs
  joined_answer-All r h = go r.error
    where
      by_error : Option Error → Answer
      by_error e = elim e [ none ↦ answer r.addrs none | some x ↦ answer [] (some x) ]

      go : (e : Option Error) → All P (by_error e).addrs
      go none = h
      go (some x) = tt

module _ (w : Wire) (src_addrs : List IpAddr → List SrcInfo) (d : Dns) where
  -- The race of the upstreams for the host, in an interleaving of its goroutines and of those of
  -- its upstreams, returns this answer.
  abbrev pub Race : Bytes → Answer → Type 0
  Race host r =
      (s : Racer.Race) × Racer.Reach (Resolved w src_addrs d host) d.per_try (racers w d)
        (Racer.start (racers w d)) s
      × (s.phase ≡ Racer.returned r)

  -- An answer of the upstream of the cache for a key is that of a race for the host of the key.
  abbrev pub RaceOf : Bytes → Answer → Type 0
  RaceOf key r = (host : Bytes) × (key ≡ cache_key host d.q_types) × Race host r

  abbrev pub Raced : Finished → Type 0
  Raced f = RaceOf f.key f.answer

  -- How `Resolve` of the cache returns for a host: from the entries, from the lookup that it has
  -- joined, by the end of its own context, or from the lookup that it leads.
  pub data Returns (s : Machine) (host : Bytes) (a : Answer) : Type 0 where
    cached :
        {c : Cache}
        → begin s.cache s.clock (cache_key host d.q_types) s.next ≡ (c, hit a)
        → Returns s host a
    woken :
        (key : Bytes) (p : ℕ) (r : Answer) (before after : List (Bytes × ℕ))
        (front back : List (Bytes × Answer))
        → s.running ≡ before ++ (key, p) ∷ after
        → RaceOf key r
        → wake p r s.waiting ≡ front ++ (cache_key host d.q_types, a) ∷ back
        → Returns s host a
    given_up : a ≡ answer [] (some ctx_error) → Returns s host a
    led : Race host a → Returns s host a

  module _ (range : MapRange) {s : Machine} (host : Bytes)
      (sized : (xs : List IpAddr) → length (src_addrs xs) ≡ length xs)
      (small : All (λ q. q < 65536) d.q_types)
      (reach : Reach range (start d.pos_ttl d.neg_ttl d.max_size) s) (raced : All Raced s.log) where
    abbrev Own : IpAddr → Type 0
    Own x = ∥ From w src_addrs d host x ∥₁

    Race-Own : (r : Answer) → Race host r → All Own r.addrs
    Race-Own r (t, ran, over) = Reach-From w src_addrs d host t r sized ran over

    RaceOf-Own :
        (key : Bytes) (r : Answer) → RaceOf key r → key ≡ cache_key host d.q_types → All Own r.addrs
    RaceOf-Own key r (other, made, race) keyed = Race-Own r (
        subst (λ h. Race h r)
          (cache_key_injective other host d.q_types d.q_types small small refl (sym made ∙ keyed)).0
          race)

    -- Suppose that `src_addrs` gives one source for each address, that the query types fit 16 bits,
    -- and that the lookups behind the cache are races of the configured upstreams for the host of
    -- their key. Then, after any interleaving of callers and any passage of time, and in whichever
    -- way `Resolve` of the cache returns to a caller, every address that it returns for a host is
    -- one that an upstream has put into a reply to a query for this very host.
    pub resolve-From :
        (a : Answer) → Returns s host a → All (λ x. ∥ From w src_addrs d host x ∥₁) a.addrs
    resolve-From a (cached served) =
        let (f, logged, keyed, made, fresh) =
          Reach-hit range d.pos_ttl d.neg_ttl d.max_size (cache_key host d.q_types) a reach
            served in
        subst (λ r. All Own r.addrs) (sym made)
          (joined_answer-All Own f.answer
            (RaceOf-Own f.key f.answer (All-In Raced f s.log raced logged) keyed))
    resolve-From a (woken key p r before after front back runs race wakes) =
        let same =
          All-at (λ g. g ≡ (key, joined_answer r)) (cache_key host d.q_types, a) front back
            (subst (All (λ g. g ≡ (key, joined_answer r))) wakes
              (Reach-woken range d.pos_ttl d.neg_ttl d.max_size key p r before after reach runs)) in
        subst (λ x. All Own x.addrs) (sym (ap (λ g. g.1) same))
          (joined_answer-All Own r (RaceOf-Own key r race (sym (ap (λ g. g.0) same))))
    resolve-From a (given_up ended) = subst (λ r. All Own r.addrs) (sym ended) tt
    resolve-From a (led race) = Race-Own a race
