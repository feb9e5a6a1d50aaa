-- ===== src/Dns/Resolve.antt =====
-- The client that `ResolveHost` asks (dns/dns.go).
use spoof_dpi_turkiye.Prelude.{
  List-cases, All, refl, subst, false, ℕ, ◌≡◌, Bool, List, ◌∷◌, Option, none, some, ok, arith,
  Bytes, if◌then◌else◌, Option-cases, inl, inr, ◌⊎◌,
}
use spoof_dpi_turkiye.AddrSelect.Ip.{IpAddr}
use spoof_dpi_turkiye.Resolver.Answer.{Answer}
use spoof_dpi_turkiye.Dns.{Dns, first_address, resolve_host}

-- The first address of a reply without an error.
abbrev pub Gives : (IpAddr → Bytes) → Answer → Bytes → Type 0
Gives addr_string r text =
    (a : IpAddr) × (rest : List IpAddr) × (r.error ≡ none)
    × (r.addrs ≡ a ∷ rest)
    × (text ≡ addr_string a)

module _ (parse_ip : Bytes → Option Bytes) (ip_string : Bytes → Bytes)
    (addr_string : IpAddr → Bytes) (d : Dns) (bypass system : Bytes × (Bytes → List ℕ → Answer))
    (host : Bytes) where
  -- The text of an address comes back as the text of what was read, whoever would be asked.
  pub resolve_host-parsed :
      (use_system : Bool) (ip : Bytes)
      → parse_ip host ≡ some ip
      → resolve_host parse_ip ip_string addr_string d bypass system host use_system
        ≡ ok (ip_string ip)
  unfolding resolve_host
  resolve_host-parsed use_system ip e = rw (e, resolve_host) refl

  first_address-ok :
      (name : Bytes) (r : Answer) (text : Bytes)
      → first_address parse_ip ip_string addr_string name host r ≡ ok text
      → Gives addr_string r text
  unfolding first_address
  first_address-ok name r text h = elim (Option-cases r.error) [
    | inr (x, e) ↦ absurd (ground arith)
    | inl e ↦ elim (List-cases r.addrs) [
      | inl f ↦ absurd (ground arith)
      | inr (a, rest, f) ↦ (a, rest, e, f, ground arith)
    ]
  ]

  -- A host that `ResolveHost` resolves is an address itself, whose text comes back, or the result
  -- is the first address of the client that was asked for, which reported no error.
  pub resolve_host-ok :
      (use_system : Bool) (text : Bytes)
      → resolve_host parse_ip ip_string addr_string d bypass system host use_system ≡ ok text
      → ((ip : Bytes) × (parse_ip host ≡ some ip) × (text ≡ ip_string ip))
        ⊎ Gives addr_string ((if use_system then system else bypass).1 host d.q_types) text
  unfolding resolve_host
  resolve_host-ok use_system text h = elim (Option-cases (parse_ip host)) [
    | inr (ip, e) ↦ inl (ip, e, ground arith)
    | inl e ↦ inr (
        first_address-ok (chosen use_system).0 ((chosen use_system).1 host d.q_types) text
          (ground arith))
  ]
    where
      chosen : Bool → Bytes × (Bytes → List ℕ → Answer)
      chosen b = if b then system else bypass

  -- For a host that is no address and does not go to the system resolver, the result is the text of
  -- an address that the race has given.
  pub resolve_host-All {κ} :
      (P : IpAddr → Type κ) (text : Bytes)
      → parse_ip host ≡ none
      → All P (bypass.1 host d.q_types).addrs
      → resolve_host parse_ip ip_string addr_string d bypass system host false ≡ ok text
      → (x : IpAddr) × P x × (text ≡ addr_string x)
  resolve_host-All P text named all found = elim (resolve_host-ok false text found) [
    | inl (ip, is_ip, own) ↦ absurd (cc (named, is_ip))
    | inr (x, rest, fine, first, own) ↦ (x, (subst (All P) first all).0, own)
  ]
