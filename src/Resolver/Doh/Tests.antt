-- ===== src/Resolver/Doh/Tests.antt =====
-- Runs of the definitions and of the theorem on DNS-over-HTTPS (dns/resolver/doh.go).
use spoof_dpi_turkiye.Prelude.{
  join_host_port, split_host_port, ◌≡◌, true, false, refl, [], ◌∷◌, some, Result, ok, Bytes, bytes,
}
use spoof_dpi_turkiye.Resolver.Answer.{Error}
use spoof_dpi_turkiye.Resolver.Lookup.{Msg, Query, a}
use spoof_dpi_turkiye.Resolver.Doh.{HttpResponse, Unpacked, body_of, by_rcode, doh_exchange}
use spoof_dpi_turkiye.Resolver.Doh.Client.{DohResolver, redirect, dial_addr}

abbrev query : Query
query = record { name = bytes "x.com."; q_type = 1; recursion_desired = true }

abbrev reply : Msg
reply = record { answers = a (1 ∷ 1 ∷ 1 ∷ 1 ∷ []) ∷ []; truncated = false }

-- The name is the packed form; every request has the same answer.
abbrev pack : Query → Result Error Bytes
pack q = ok q.name

abbrev get : Bytes → Result Error HttpResponse
get url = ok (record { status_code = 200; body = ok (bytes "reply") })

abbrev unpack : Bytes → Result Error Unpacked
unpack body = ok (record { rcode = 0; msg = reply })

exchanged : doh_exchange pack get unpack (bytes "https://d/q") query ≡ ok (some reply)
unfolding doh_exchange body_of by_rcode
exchanged = refl

abbrev endpoint : DohResolver
endpoint = record {
  upstream = bytes "https://cloudflare-dns.com/dns-query";
  host = bytes "cloudflare-dns.com";
  bootstrap_ip = bytes "2606:4700::1111";
}

dialled :
    dial_addr endpoint (join_host_port (bytes "cloudflare-dns.com") (bytes "443"))
    ≡ bytes "[2606:4700::1111]:443"
unfolding dial_addr redirect join_host_port split_host_port
dialled = refl
