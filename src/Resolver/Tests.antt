-- ===== src/Resolver/Tests.antt =====
-- Runs of the theorems on the resolvers (dns/resolver).
use spoof_dpi_turkiye.Prelude.{
  Option, Result, ◌==◌, if◌then◌else◌, bytes, ◌≡◌, refl, true, false, List, [], ◌∷◌, map, none,
  some, ok, err, Bytes,
}
use spoof_dpi_turkiye.AddrSelect.Ip.{IpAddr, ip4}
use spoof_dpi_turkiye.AddrSelect.Rules.{SrcInfo}
use spoof_dpi_turkiye.Resolver.Answer.{Error, upstream}
use spoof_dpi_turkiye.Resolver.Chain.{ChainResult, got, chain_resolve}
use spoof_dpi_turkiye.Resolver.Chain.Race.{expected, errors, chain_resolve-expected}
use spoof_dpi_turkiye.AddrSelect.Sources.{System}
use spoof_dpi_turkiye.Resolver.Lookup.{Query, Msg, a, other, DnsResult}

abbrev pub one : IpAddr
one = record { ip = 1 ∷ 1 ∷ 1 ∷ 1 ∷ []; zone = [] }

abbrev pub two : IpAddr
two = record { ip = 8 ∷ 8 ∷ 8 ∷ 8 ∷ []; zone = [] }

abbrev source : SrcInfo
source = record {
  addr = ip4 (192 ∷ 168 ∷ 1 ∷ 2 ∷ []);
  is_native = true;
  is_deprecated = false;
  is_home = false;
}

abbrev sources : List IpAddr → List SrcInfo
sources [] = []
sources (x ∷ addrs) = source ∷ sources addrs

abbrev names : List Bytes
names = bytes "1.1.1.1" ∷ bytes "8.8.8.8" ∷ bytes "doh" ∷ []

abbrev failing : ChainResult
failing = record { addrs = []; error = some (upstream 1); from = bytes "doh" }

abbrev good : ChainResult
good = record { addrs = one ∷ []; error = none; from = bytes "1.1.1.1" }

abbrev late : ChainResult
late = record { addrs = two ∷ []; error = none; from = bytes "8.8.8.8" }

chain_resolve-expected_example :
    chain_resolve names (map got (failing ∷ good ∷ late ∷ []))
    ≡ some (expected (failing ∷ good ∷ late ∷ []) (errors (failing ∷ good ∷ late ∷ [])))
chain_resolve-expected_example =
    chain_resolve-expected names (failing ∷ good ∷ late ∷ []) refl (λ e. cc)

abbrev pub reply : Msg
reply = record {
  answers = a (1 ∷ 1 ∷ 1 ∷ 1 ∷ []) ∷ other ∷ a (8 ∷ 8 ∷ 8 ∷ 8 ∷ []) ∷ [];
  truncated = false;
}

abbrev replies : List DnsResult
replies = err (upstream 2) ∷ ok (some reply) ∷ []

abbrev pub machine : System
machine = record {
  local_addr = λ dst. some (192 ∷ 168 ∷ 1 ∷ 2 ∷ []);
  interfaces = [];
  addr_flags = none;
}

abbrev pub same : Bytes → Bytes
same s = s

-- Replies to type A over UDP in full, and to type AAAA with an error.
abbrev pub udp : Query → Result Error (Option Msg)
udp q = if q.q_type == 1 then ok (some reply) else err (upstream 2)
