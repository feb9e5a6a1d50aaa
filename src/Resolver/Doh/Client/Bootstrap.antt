-- ===== src/Resolver/Doh/Client/Bootstrap.antt =====
-- How a DNS-over-HTTPS endpoint is dialled (dns/resolver/doh.go).
use spoof_dpi_turkiye.Prelude.{
  ◌≡◌, true, false, not, ◌&&◌, Bytes, bytes_eq, join_host_port, contains, is_plain,
  split_host_port-join_host_port, arith, if◌then◌else◌,
}
use spoof_dpi_turkiye.Resolver.Answer.{is_empty}
use spoof_dpi_turkiye.Resolver.Doh.Client.{DohResolver, redirect, dial_addr}

-- The address for a request to a host.
abbrev pub dialled : DohResolver → Bytes → Bytes → Bytes
dialled r host port =
    if not (is_empty r.bootstrap_ip) && bytes_eq host r.host
    then join_host_port r.bootstrap_ip port
    else join_host_port host port

-- A request to the endpoint's own host is dialled at the bootstrap address, if there is one, so
-- that its name is not looked up; a request to another host, as behind a redirect, is dialled at
-- that host. The port is the request's.
pub dial_addr-join_host_port :
    (r : DohResolver) (host port : Bytes)
    → contains b'[' host ≡ false
    → contains b']' host ≡ false
    → is_plain port ≡ true
    → dial_addr r (join_host_port host port) ≡ dialled r host port
unfolding dial_addr redirect
dial_addr-join_host_port r host port left right plain =
    rw (split_host_port-join_host_port host port left right plain) (ground arith)
