-- ===== src/Resolver/Lookup/Machine.antt =====
-- The goroutines of `lookupAllTypes`, the one that closes the channel, and the loop of
-- `processResults` (dns/resolver/resolver.go), in any interleaving. `heard` records what the loop has
-- received, for the statements to speak of.
pub mod Answers
pub mod Arrived
pub mod Kept
pub mod Origins
mod Tests
use spoof_dpi_turkiye.Prelude.{
  ℕ, ◌<◌, ◌≡◌, Bool, true, false, List, [], ◌∷◌, ◌++◌, Bytes, length, ok, err,
}
use spoof_dpi_turkiye.AddrSelect.Ip.{IpAddr}
use spoof_dpi_turkiye.AddrSelect.Rules.{SrcInfo}
use spoof_dpi_turkiye.Resolver.Answer.{Error}
use spoof_dpi_turkiye.Resolver.Lookup
use spoof_dpi_turkiye.Resolver.Lookup.{
  parse_addrs_from_msg, DnsResult, Event, result, closed, Outcome, process,
}

-- The loop with `errs` and `addrs`, or what has become of it.
pub data Phase : Type 0 where
  collecting : List Error → List IpAddr → Phase
  ended : Outcome → Phase

-- `running` has the query types whose goroutines have not ended, `capacity`, `channel` and
-- `is_closed` are `resCh`, and `over` says that the context has ended.
pub record Collecting : Type 0 where
  pub running : List ℕ
  pub capacity : ℕ
  pub channel : List DnsResult
  pub is_closed : Bool
  pub over : Bool
  pub phase : Phase
  pub heard : List Event

unfoldable pub start : List ℕ → Collecting
start q_types = record {
  running = q_types;
  capacity = length q_types;
  channel = [];
  is_closed = false;
  over = false;
  phase = collecting [] [];
  heard = [];
}

-- A goroutine puts its result into the channel and ends; `running` are the others.
unfoldable pub report : Collecting → DnsResult → List ℕ → Collecting
report s r running = record s { running = running; channel = s.channel ++ r ∷ [] }

-- A round of the loop that gets a result.
abbrev pub collect : List Error → List IpAddr → DnsResult → Phase
collect errs addrs (err e) = collecting (errs ++ e ∷ []) addrs
collect errs addrs (ok msg) = collecting errs (addrs ++ parse_addrs_from_msg msg)

unfoldable pub take_result :
    Collecting → List Error → List IpAddr → DnsResult → List DnsResult → Collecting
take_result s errs addrs r channel = record s {
  channel = channel;
  phase = collect errs addrs r;
  heard = s.heard ++ result r ∷ [];
}

module _ (src_addrs : List IpAddr → List SrcInfo) where
  -- A round that ends the loop: by the closed channel, or by the end of the context.
  unfoldable pub leave : Collecting → List Error → List IpAddr → Event → Collecting
  leave s errs addrs e = record s {
    phase = ended (process src_addrs errs addrs (e ∷ []));
    heard = s.heard ++ e ∷ [];
  }

  -- `f` is what `lookupType` gives for a query type. Which goroutine goes on and when the context
  -- ends are the environment's choice. A send waits while the channel is full; one to a closed
  -- channel, which panics, is no step. `wg.Wait` returns when all have ended.
  pub data Step (f : ℕ → DnsResult) (q_types : List ℕ) (s : Collecting) : Collecting → Type 0 where
    reports :
        (q : ℕ) (before after : List ℕ)
        → s.running ≡ before ++ q ∷ after
        → s.is_closed ≡ false
        → length s.channel < s.capacity
        → Step f q_types s (report s (f q) (before ++ after))
    abandons :
        (q : ℕ) (before after : List ℕ)
        → s.running ≡ before ++ q ∷ after
        → s.over ≡ true
        → Step f q_types s (record s { running = before ++ after })
    closes : s.running ≡ [] → s.is_closed ≡ false → Step f q_types s (record s { is_closed = true })
    receives :
        (errs : List Error) (addrs : List IpAddr) (r : DnsResult) (rest : List DnsResult)
        → s.phase ≡ collecting errs addrs
        → s.channel ≡ r ∷ rest
        → Step f q_types s (take_result s errs addrs r rest)
    drained :
        (errs : List Error) (addrs : List IpAddr)
        → s.phase ≡ collecting errs addrs
        → s.channel ≡ []
        → s.is_closed ≡ true
        → Step f q_types s (leave s errs addrs closed)
    stops :
        (errs : List Error) (addrs : List IpAddr)
        → s.phase ≡ collecting errs addrs
        → s.over ≡ true
        → Step f q_types s (leave s errs addrs Lookup.Event.done)
    expires : Step f q_types s (record s { over = true })

  pub data Reach (f : ℕ → DnsResult) (q_types : List ℕ) (s : Collecting) : Collecting → Type 0 where
    here : Reach f q_types s s
    next : {t u : Collecting} → Reach f q_types s t → Step f q_types t u → Reach f q_types s u
