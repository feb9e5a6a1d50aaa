-- ===== src/Dns/Upstreams.antt =====
-- The upstreams that race for the bypass (`NewDns` of dns/dns.go).
use spoof_dpi_turkiye.Prelude.{
  All-map, bytes_eq_refl, sym, ◌∙◌, ◌<◌, join_host_port, ◌≡◌, ◌≢◌, refl, Bool, true, false, not,
  ◌&&◌, ◌||◌, List, [], ◌∷◌, ◌++◌, map, arith, Bytes, bytes_eq, itoa, bytes_eq_symm, bytes_eq→eq,
  subst, All, All-append, Bool-cases, inl, inr,
}
use spoof_dpi_turkiye.Resolver.Answer.{is_empty}
use spoof_dpi_turkiye.Dns.{
  DnsConfig, Upstream, doh, q_types, general, system, trim_space, seen_in, add_plain, add_all,
  servers, bypass_chain,
}

general-All : (xs : List Bytes) → All (λ u. u ≢ system) (map general xs)
general-All [] = tt
general-All (x ∷ xs) = ((λ e. cc), general-All xs)

-- No configuration puts the system's resolver among the upstreams that race.
pub bypass_chain-no_system : (c : DnsConfig) → All (λ u. u ≢ system) (bypass_chain c)
unfolding bypass_chain
bypass_chain-no_system c = elim (Bool-cases (c.enable_doh && not (is_empty c.doh_url))) [
  | inl e ↦ rw e (
      All-append (λ u. u ≢ system) (map general (servers c)) _ (general-All (servers c))
        ((λ e. cc), tt))
  | inr e ↦ rw e (general-All (servers c))
]

-- No server stands twice.
abbrev pub Unique : List Bytes → Type 0
Unique [] = Unit
Unique (x ∷ xs) = (seen_in x xs ≡ false) × Unique xs

-- The server that an address of the configuration stands for, if it is not blank.
abbrev pub stands_for : Bytes → Bytes → Bytes → Bool
stands_for port s addr =
    not (is_empty (trim_space addr)) && bytes_eq (join_host_port (trim_space addr) port) s

abbrev pub wanted : Bytes → Bytes → List Bytes → Bool
wanted port s [] = false
wanted port s (addr ∷ addrs) = stands_for port s addr || wanted port s addrs

seen_in-snoc :
    (s x : Bytes) (xs : List Bytes) → seen_in s (xs ++ x ∷ []) ≡ (seen_in s xs || bytes_eq x s)
seen_in-snoc s x [] = ground arith
seen_in-snoc s x (y ∷ xs) = ground (arith, seen_in-snoc s x xs)

Unique-snoc :
    (x : Bytes) (xs : List Bytes) → Unique xs → seen_in x xs ≡ false → Unique (xs ++ x ∷ [])
Unique-snoc x [] u h = (refl, tt)
Unique-snoc x (y ∷ xs) u h =
    (ground (arith, seen_in-snoc y x xs, bytes_eq_symm x y), Unique-snoc x xs u.1 (ground arith))

add_plain-Unique :
    (port : Bytes) (seen : List Bytes) (addr : Bytes)
    → Unique seen
    → Unique (add_plain port seen addr)
unfolding add_plain
add_plain-Unique port seen addr u =
    ground (arith, Unique-snoc (join_host_port (trim_space addr) port) seen u)

seen_in_moved :
    (x s : Bytes) (xs : List Bytes)
    → seen_in x xs ≡ true
    → bytes_eq x s ≡ true
    → seen_in s xs ≡ true
seen_in_moved x s xs h e = subst (λ y. seen_in y xs ≡ true) (bytes_eq→eq x s e) h

seen_in-add_plain :
    (port : Bytes) (seen : List Bytes) (addr s : Bytes)
    → seen_in s (add_plain port seen addr) ≡ (seen_in s seen || stands_for port s addr)
unfolding add_plain
seen_in-add_plain port seen addr s = ground (
  arith,
  seen_in-snoc s (join_host_port (trim_space addr) port) seen,
  seen_in_moved (join_host_port (trim_space addr) port) s seen,
)

add_all-lists :
    (port : Bytes) (addrs seen : List Bytes) (s : Bytes)
    → Unique seen
    → Unique (add_all port seen addrs)
      × (seen_in s (add_all port seen addrs) ≡ (seen_in s seen || wanted port s addrs))
unfolding add_all
add_all-lists port [] seen s u = (u, ground arith)
add_all-lists port (addr ∷ addrs) seen s u =
    let rest =
      add_all-lists port addrs (add_plain port seen addr) s (add_plain-Unique port seen addr u) in
    (rest.0, ground (arith, rest.1, seen_in-add_plain port seen addr s))

-- The plain servers of the race are distinct, and are exactly those that the primary address and
-- the fallbacks stand for, blank ones left out.
pub servers-wanted :
    (c : DnsConfig) (s : Bytes)
    → Unique (servers c)
      × (seen_in s (servers c) ≡ wanted (itoa c.dns_port) s (c.dns_addr ∷ c.dns_fallback))
unfolding servers
servers-wanted c s =
    let port = itoa c.dns_port in
    let first = add_plain port [] c.dns_addr in
    let rest = add_all-lists port c.dns_fallback first s (add_plain-Unique port [] c.dns_addr tt) in
    (rest.0, ground (arith, rest.1, seen_in-add_plain port [] c.dns_addr s))

-- The upstreams that the configuration names: a server that one of its addresses stands for, and
-- its DNS-over-HTTPS service if that is switched on.
abbrev pub Configured : DnsConfig → Upstream → Type 0
Configured c (general s) = wanted (itoa c.dns_port) s (c.dns_addr ∷ c.dns_fallback) ≡ true
Configured c (doh url bootstrap_ip) =
    (c.enable_doh ≡ true) × (url ≡ c.doh_url) × (bootstrap_ip ≡ c.doh_bootstrap_ip)
Configured c system = ⊥

members-seen : (xs : List Bytes) → All (λ s. seen_in s xs ≡ true) xs
members-seen [] = tt
members-seen (x ∷ xs) =
    (ground (arith, bytes_eq_refl x), All-map (λ s h. ground (arith, h)) xs (members-seen xs))

general-Configured :
    (c : DnsConfig) (xs : List Bytes)
    → All (λ s. seen_in s (servers c) ≡ true) xs
    → All (Configured c) (map general xs)
general-Configured c [] h = tt
general-Configured c (x ∷ xs) h = (sym (servers-wanted c x).1 ∙ h.0, general-Configured c xs h.1)

pub bypass_chain-Configured : (c : DnsConfig) → All (Configured c) (bypass_chain c)
unfolding bypass_chain
bypass_chain-Configured c =
    let plain = general-Configured c (servers c) (members-seen (servers c)) in
    elim (Bool-cases (c.enable_doh && not (is_empty c.doh_url))) [
      | inl e ↦ rw e (
          All-append (Configured c) (map general (servers c)) _ plain
            ((ground arith, refl, refl), tt))
      | inr e ↦ rw e plain
    ]

-- The query types that `NewDns` asks for fit 16 bits.
pub q_types-small : (c : DnsConfig) → All (λ q. q < 65536) (q_types c)
unfolding q_types
q_types-small c = elim (Bool-cases c.dns_ipv4_only) [
  | inl e ↦ rw e (omega arith, tt)
  | inr e ↦ rw e (omega arith, (omega arith, tt))
]
