-- ===== src/Resolver/Lookup.antt =====
-- One upstream: dns/resolver/resolver.go, and `exchange` and `Resolve` of general.go and system.go.
-- Of the DNS library's messages the model has what the code reads.
pub mod Results
pub mod Machine
pub mod Arrival
use spoof_dpi_turkiye.Prelude.{
  ℕ, itoa, bytes, Bool, true, false, not, ◌&&◌, ◌||◌, List, [], ◌∷◌, ◌++◌, map, Option, none, some,
  Result, ok, err, Bytes, length, ltb, ◌==◌, if◌then◌else◌,
}
use spoof_dpi_turkiye.AddrSelect.Ip.{IpAddr}
use spoof_dpi_turkiye.AddrSelect.Rules.{SrcInfo}
use spoof_dpi_turkiye.AddrSelect.Sort.{sort_by_rfc6724}
use spoof_dpi_turkiye.Resolver.Answer.{
  Error, ctx_error, lookup_failed, Answer, answer, join, is_empty,
}

-- `dns.RR`, by the cases of the type switch
pub data Record : Type 0 where
  a : Bytes → Record
  aaaa : Bytes → Record
  other : Record

pub record Msg : Type 0 where
  pub answers : List Record
  pub truncated : Bool

-- `dns.TypeA` and `dns.TypeAAAA`
abbrev pub type_a : ℕ
type_a = 1

abbrev pub type_aaaa : ℕ
type_aaaa = 28

abbrev addr_of_ip : Bytes → IpAddr
addr_of_ip ip = record { ip = ip; zone = [] }

-- The loop of `parseAddrsFromMsg`.
unfoldable pub parse_records : List Record → List IpAddr
parse_records [] = []
parse_records (a ip ∷ rest) = addr_of_ip ip ∷ parse_records rest
parse_records (aaaa ip ∷ rest) = addr_of_ip ip ∷ parse_records rest
parse_records (other ∷ rest) = parse_records rest

unfoldable pub parse_addrs_from_msg : Option Msg → List IpAddr
unfolding parse_records
parse_addrs_from_msg none = []
parse_addrs_from_msg (some m) = parse_records m.answers

unfoldable pub record_type_id_to_name : ℕ → Bytes
record_type_id_to_name id =
    if id == type_a then bytes "A" else if id == type_aaaa then bytes "AAAA" else itoa id

-- The question that `newMsg` sets, its name through the library's `Fqdn`.
pub record Query : Type 0 where
  pub name : Bytes
  pub q_type : ℕ
  pub recursion_desired : Bool

unfoldable pub new_msg : (Bytes → Bytes) → Bytes → ℕ → Query
new_msg fqdn host q_type = record { name = fqdn host; q_type = q_type; recursion_desired = true }

-- `DNSResult`: a message, which may be nil, or an error.
abbrev pub DnsResult : Type 0
DnsResult = Result Error (Option Msg)

unfoldable pub lookup_type :
    (Bytes → Bytes) → (Query → Result Error (Option Msg)) → Bytes → ℕ → DnsResult
unfolding new_msg record_type_id_to_name
lookup_type fqdn exchange host q_type = elim (exchange (new_msg fqdn host q_type)) [
  | ok resp ↦ ok resp
  | err e ↦ err (lookup_failed (record_type_id_to_name q_type) host e)
]

-- `lookupAllTypes`: a result for each query type. They arrive in any order, while the context lasts.
unfoldable pub lookup_all_types :
    (Bytes → Bytes) → (Query → Result Error (Option Msg)) → Bytes → List ℕ → List DnsResult
unfolding lookup_type
lookup_all_types fqdn exchange host q_types = map (lookup_type fqdn exchange host) q_types

-- `GeneralResolver.exchange` over its two clients.
unfoldable pub exchange :
    (Query → Result Error (Option Msg))
    → (Query → Result Error (Option Msg))
    → Query
    → Result Error (Option Msg)
exchange udp tcp msg = elim (udp msg) [
  | err e ↦ err e
  | ok none ↦ ok none
  | ok (some resp) ↦ if resp.truncated then tcp msg else ok (some resp)
]

-- What the loop of `processResults` sees: a result, the end of the channel, or that of the context.
pub data Event : Type 0 where
  result : DnsResult → Event
  closed : Event
  done : Event

pub data Outcome : Type 0 where
  waiting : Outcome
  panicked : Outcome
  returned : Answer → Outcome

module _ (src_addrs : List IpAddr → List SrcInfo) where
  -- `sortAddrs` if there is more than one address, and the return.
  unfoldable pub return_sorted : List IpAddr → Outcome
  return_sorted addrs =
      if ltb 1 (length addrs)
      then elim (sort_by_rfc6724 src_addrs addrs) [
        | none ↦ panicked
        | some sorted ↦ returned (answer sorted none)
      ]
      else returned (answer addrs none)

  -- The loop of `processResults`, with `errs` and `addrs` so far.
  unfoldable pub process : List Error → List IpAddr → List Event → Outcome
  process errs addrs [] = waiting
  process errs addrs (closed ∷ events) =
      if is_empty addrs then returned (answer [] (join errs)) else return_sorted addrs
  process errs addrs (done ∷ events) =
      if is_empty addrs then returned (answer [] (some ctx_error)) else return_sorted addrs
  process errs addrs (result (err e) ∷ events) = process (errs ++ e ∷ []) addrs events
  process errs addrs (result (ok msg) ∷ events) =
      process errs (addrs ++ parse_addrs_from_msg msg) events

  unfoldable pub process_results : List Event → Outcome
  unfolding process
  process_results events = process [] [] events

-- The names of networks that `LookupIP` knows.
pub data Network : Type 0 where
  ip ip4 ip6 : Network

abbrev pub has : ℕ → List ℕ → Bool
has q [] = false
has q (p ∷ ps) = q == p || has q ps

-- The loop of `networkForQTypes` sets `has4` and `has6`.
unfoldable pub network_for_qtypes : List ℕ → Network
network_for_qtypes q_types =
    let has4 = has type_a q_types in
    let has6 = has type_aaaa q_types in
    if has4 && not has6 then ip4 else if has6 && not has4 then ip6 else ip

-- `SystemResolver.Resolve` over the system's `LookupIP`.
unfoldable pub system_resolve :
    (List IpAddr → List SrcInfo)
    → (Network → Bytes → Result Error (List Bytes))
    → Bytes
    → List ℕ
    → Outcome
unfolding network_for_qtypes
system_resolve src_addrs lookup_ip host q_types =
    elim (lookup_ip (network_for_qtypes q_types) host) [
      | err e ↦ returned (answer [] (some e))
      | ok ips ↦ return_sorted src_addrs (map addr_of_ip ips)
    ]
