-- ===== src/Handler/Serve/Closing.antt =====
-- How often `Serve` closes a connection (proxy/handler/http.go and proxy/handler/https.go).
use spoof_dpi_turkiye.Prelude.{ℕ, suc, ◌≡◌, List, [], ◌∷◌, none, some, arith, Bytes, if◌then◌else◌}
use spoof_dpi_turkiye.Packet.Http.{HttpRequest}
use spoof_dpi_turkiye.Handler.Port.{port_of}
use spoof_dpi_turkiye.Handler.Serve.{
  Network, Event, close_client, close_server, HttpsHandler, finish, http_dial, serve_http,
  https_hello, https_dial, serve_https,
}

abbrev pub client_closes : List Event → ℕ
client_closes [] = 0
client_closes (close_client ∷ es) = suc (client_closes es)
client_closes (e ∷ es) = client_closes es

abbrev pub server_closes : List Event → ℕ
server_closes [] = 0
server_closes (close_server ∷ es) = suc (server_closes es)
server_closes (e ∷ es) = server_closes es

-- The port is good and the dial succeeds.
abbrev pub dialled : ℕ → Network → HttpRequest → ℕ
dialled default net pkt = elim (port_of default pkt.port) [
  | none ↦ 0
  | some n ↦ if net.dials then 1 else 0
]

-- On every path, failures included, the HTTP handler closes the client's connection exactly
-- once, and the server's exactly once if the port is valid and the dial succeeds, otherwise
-- never.
pub serve_http-closes :
    (net : Network) (pkt : HttpRequest) (ip : Bytes)
    → (client_closes (serve_http net pkt ip).events ≡ 1)
      × (server_closes (serve_http net pkt ip).events ≡ dialled 80 net pkt)
unfolding serve_http http_dial finish
serve_http-closes net pkt ip = ground arith

hello-closes :
    (h : HttpsHandler) (net : Network)
    → (client_closes (https_hello h net).events ≡ 1)
      × (server_closes (https_hello h net).events ≡ 1)
unfolding https_hello finish
hello-closes h net = ground arith

-- On every path, failures included, the HTTPS handler closes the client's connection exactly
-- once, and the server's exactly once if the port is valid and the dial succeeds, otherwise
-- never.
pub serve_https-closes :
    (h : HttpsHandler) (net : Network) (pkt : HttpRequest) (ip : Bytes)
    → (client_closes (serve_https h net pkt ip).events ≡ 1)
      × (server_closes (serve_https h net pkt ip).events ≡ dialled 443 net pkt)
unfolding serve_https https_dial
serve_https-closes h net pkt ip = ground (arith, hello-closes h net)
