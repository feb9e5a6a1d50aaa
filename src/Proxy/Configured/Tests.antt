-- ===== src/Proxy/Configured/Tests.antt =====
-- A run of the theorem on a configured proxy (proxy/proxy.go, dns/dns.go).
use spoof_dpi_turkiye.Prelude.{
  bytes, ◌≡◌, refl, true, false, [], none, length-map, join_host_port, itoa,
}
use spoof_dpi_turkiye.AddrSelect.Ip.{IpAddr}
use spoof_dpi_turkiye.AddrSelect.Sources.{no_source}
use spoof_dpi_turkiye.Resolver.Cache.Tests.{in_order}
use spoof_dpi_turkiye.Config.{Config, dns_config, new_proxy}
use spoof_dpi_turkiye.Dns.{new_dns, bypass_chain, q_types, servers, add_all, add_plain, trim_space}
use spoof_dpi_turkiye.Dns.Cached.{cached}
use spoof_dpi_turkiye.Dns.Cached.Tests.{filled-Reach, filled-Raced, served}
use spoof_dpi_turkiye.Proxy.{handle}
use spoof_dpi_turkiye.Proxy.Origin.{AllDials}
use spoof_dpi_turkiye.Proxy.Configured.{RepliedBy, handle-configured}
use spoof_dpi_turkiye.Proxy.Tests.{
  parse, no_port, no_ip, same, text_of, forged, network, request, request-read, request-matches,
  wire, no_srcs, found,
}

abbrev config : Config
config = record {
  addr = bytes "127.0.0.1";
  port = 80;
  dns_addr = bytes "1.1.1.1";
  dns_port = 53;
  dns_fallback = [];
  dns_ipv4_only = true;
  enable_doh = false;
  doh_url = [];
  doh_bootstrap_ip = [];
  debug = false;
  silent = true;
  system_proxy = false;
  timeout = 0;
  window_size = 5;
  allowed_patterns = none;
}

handle-configured_example :
    AllDials
      (λ ip.
        (x : IpAddr) × ∥ RepliedBy wire (dns_config config) (bytes "a") x ∥₁ × (ip ≡ text_of x))
      (handle parse no_port no_ip same text_of none
        (new_proxy config)
        (new_dns (dns_config config))
        found
        forged
        network)
unfolding new_proxy new_dns dns_config bypass_chain q_types servers add_all add_plain trim_space
    join_host_port itoa
handle-configured_example =
    handle-configured parse no_port no_ip same text_of none config found wire no_srcs forged network
      request [] in_order (λ xs. length-map xs (λ x. no_source)) filled-Reach filled-Raced
      request-read request-matches refl (cached served)
