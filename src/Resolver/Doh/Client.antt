-- ===== src/Resolver/Doh/Client.antt =====
-- `NewDOHResolver` of dns/resolver/doh.go: the endpoint, and the address that its transport dials.
-- `url.Parse` and the methods of `url.URL` are parameters; timeouts and pool sizes are left out.
pub mod Bootstrap
use spoof_dpi_turkiye.Prelude.{
  Bool, true, false, List, [], ◌∷◌, Option, none, some, Bytes, bytes, bytes_eq, join_host_port,
  split_host_port, if◌then◌else◌,
}
use spoof_dpi_turkiye.Resolver.Answer.{is_empty}

-- `url.URL`; `other_parts` are the fields that the code leaves alone, in the empty URL none.
pub record Url : Type 0 where
  pub scheme : Bytes
  pub host : Bytes
  pub path : Bytes
  pub other_parts : Bytes

pub record DohResolver : Type 0 where
  pub upstream : Bytes
  pub host : Bytes
  pub bootstrap_ip : Bytes

abbrev pub dns_query : Bytes
dns_query = bytes "/dns-query"

abbrev pub single_host : Bytes → Url
single_host upstream = record {
  scheme = bytes "https";
  host = upstream;
  path = dns_query;
  other_parts = [];
}

-- By what `url.Parse` returns, with `none` for an error.
unfoldable pub url_of : Bytes → Option Url → Url
url_of upstream none = single_host upstream
url_of upstream (some u) = if is_empty u.host then single_host upstream else u

unfoldable pub with_path : Url → Url
with_path u = if is_empty u.path then record u { path = dns_query } else u

module _ (parse_url : Bytes → Option Url) (url_string hostname : Url → Bytes) where
  unfoldable pub new_doh_resolver : Bytes → Bytes → DohResolver
  unfolding url_of with_path
  new_doh_resolver upstream bootstrap_ip =
      let u = with_path (url_of upstream (parse_url upstream)) in
      record { upstream = url_string u; host = hostname u; bootstrap_ip = bootstrap_ip }

-- From the test of `splitErr` on.
unfoldable pub redirect : DohResolver → Bytes → Option (Bytes × Bytes) → Bytes
redirect r addr none = addr
redirect r addr (some (req_host, req_port)) =
    if bytes_eq req_host r.host then join_host_port r.bootstrap_ip req_port else addr

-- `DialContext` of the transport: the address that the dialer gets.
unfoldable pub dial_addr : DohResolver → Bytes → Bytes
unfolding redirect
dial_addr r addr = if is_empty r.bootstrap_ip then addr else redirect r addr (split_host_port addr)
