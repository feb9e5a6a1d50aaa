-- ===== src/Handler/Tests.antt =====
-- Runs of the theorems on package proxy/handler.
use spoof_dpi_turkiye.Prelude.{
  bytes, ◌≡◌, refl, true, false, List, [], ◌∷◌, ◌++◌, none, some, ok, Option, Result, ◌⊎◌, arith,
  Bytes, length,
}
use spoof_dpi_turkiye.Packet.Http.{
  HttpError, ParsedRequest, HttpRequest, read_headers, read_http_request, tidy,
}
use spoof_dpi_turkiye.Handler.Copy.Whole.{Faulty, Undated}
use spoof_dpi_turkiye.Packet.Tls.{
  TlsMessage, read_tls_message, read_payload, read_full, is_client_hello,
}
use spoof_dpi_turkiye.Packet.Tls.RoundTrip.{record_header}
use spoof_dpi_turkiye.Handler.Chunks.{Conn, split_in_chunks, write, write_chunks}
use spoof_dpi_turkiye.Handler.Chunks.Unique.{Chunking, split_in_chunks_unique}
use spoof_dpi_turkiye.Handler.Chunks.Sending.{Sends, write_chunks-Sends}
use spoof_dpi_turkiye.Handler.Copy.{Round, copy_with_timeout}
use spoof_dpi_turkiye.Handler.Port.{port_of}
use spoof_dpi_turkiye.Handler.Serve.{
  serve_http, http_dial, Network, new_https_handler, finish, serve_https, https_dial, https_hello,
  send_hello,
}
use spoof_dpi_turkiye.Handler.Serve.Hello.{tunnels, serve_https-hello}
use spoof_dpi_turkiye.Handler.Pipe.{
  Thread, upward, downward, caller, Pipe, is_finished, returned, run, pipe, step, advance,
  after_wait, copy_round, copy_between,
}
use spoof_dpi_turkiye.Handler.Copy.{forward}
use spoof_dpi_turkiye.Handler.Pipe.Order.{TornDown, pipe-TornDown}
use spoof_dpi_turkiye.Handler.Pipe.Ends.{pipe-sequential}
use spoof_dpi_turkiye.Handler.Pipe.Returning.{pipe_returns}
use spoof_dpi_turkiye.Handler.Pipe.Request.{pipe-serve_http}
use spoof_dpi_turkiye.Handler.Pipe.Session.{pipe-serve_https}

abbrev hello : Bytes
hello = 1 ∷ 0 ∷ 0 ∷ 7 ∷ 3 ∷ 3 ∷ 9 ∷ []

-- The second write fails after one byte.
abbrev flaky : Conn
flaky = record { sent = []; faults = none ∷ some 1 ∷ [] }

abbrev steady : Conn
steady = record { sent = []; faults = [] }

split_in_chunks_unique_example :
    (c : Chunking 3 hello) × (c.0 ≡ split_in_chunks hello 3)
    × ((other : Chunking 3 hello) → c ≡ other)
split_in_chunks_unique_example = split_in_chunks_unique hello 3 (omega arith)

write_chunks-Sends_example :
    Sends hello 0 0
      (length (split_in_chunks hello 3))
      flaky
      (write_chunks flaky (split_in_chunks hello 3))
write_chunks-Sends_example = write_chunks-Sends flaky hello 3

abbrev rounds : List Round
rounds =
    record { deadline_set = true; bytes = 1 ∷ 2 ∷ []; read_failed = false }
    ∷ record { deadline_set = true; bytes = 3 ∷ []; read_failed = true }
    ∷ []

abbrev request : HttpRequest
request = record {
  raw = bytes "CONNECT a:443 HTTP/1.1";
  method = bytes "CONNECT";
  domain = bytes "a";
  port = [];
  path = bytes "/";
  version = bytes "HTTP/1.1";
}

abbrev network : Network
network = record {
  dials = true;
  takes_reply = true;
  stream = record_header 22 769 7 ++ (hello ++ 23 ∷ []);
  server = steady;
}

abbrev address : Bytes
address = bytes "5.6.7.8"

opened : tunnels (serve_https (new_https_handler 0 5 true) network request address).events ≡ true
unfolding serve_https port_of https_dial https_hello read_tls_message read_full read_payload
    is_client_hello finish send_hello new_https_handler write_chunks split_in_chunks write
opened = refl

serve_https-hello_example :
    (m : TlsMessage) × (rest : Bytes) × (read_tls_message network.stream ≡ ok (m, rest))
    × (is_client_hello m ≡ true)
    × ((serve_https (new_https_handler 0 5 true) network request address).server.sent ≡ m.raw)
serve_https-hello_example =
    serve_https-hello (new_https_handler 0 5 true) network request address opened

-- What the reads of the tunnel return behind the ClientHello of `network`.
abbrev up_rounds : List Round
up_rounds = record { deadline_set = true; bytes = 23 ∷ []; read_failed = true } ∷ []

-- The two directions by turns, then the caller.
abbrev turns : List Thread
turns =
    upward ∷ downward ∷ caller ∷ upward ∷ downward ∷ upward ∷ downward ∷ downward ∷ caller ∷ caller
    ∷ []

abbrev tunnelled : Pipe
tunnelled = run 0 turns (pipe steady steady up_rounds rounds)

pipe-TornDown_example : TornDown tunnelled
pipe-TornDown_example = pipe-TornDown 0 turns steady steady up_rounds rounds

ended : tunnelled.main ≡ returned
unfolding run pipe step advance copy_between after_wait copy_round forward write
ended = refl

pipe-sequential_example :
    (copy_with_timeout 0 up_rounds steady ≡ (tunnelled.server.conn, true))
    × (copy_with_timeout 0 rounds steady ≡ (tunnelled.client.conn, true))
pipe-sequential_example =
    pipe-sequential 0 turns steady steady up_rounds rounds tunnelled refl ended

up_returns : (copy_with_timeout 0 up_rounds steady).1 ≡ true
unfolding copy_with_timeout forward write
up_returns = refl

down_returns : (copy_with_timeout 0 rounds steady).1 ≡ true
unfolding copy_with_timeout forward write
down_returns = refl

pipe_returns_example :
    (run 0 (caller ∷ caller ∷ []) (run 0 turns (pipe steady steady up_rounds rounds))).main
    ≡ returned
pipe_returns_example =
    pipe_returns 0 turns steady steady up_rounds rounds up_returns down_returns (omega arith)
      (omega arith)

abbrev session : Pipe
session = run 0 turns (
    pipe steady (serve_https (new_https_handler 0 5 true) network request address).server up_rounds
      rounds)

session_up : is_finished session.up ≡ true
unfolding run pipe step advance copy_between after_wait copy_round forward write serve_https port_of
    https_dial https_hello read_tls_message read_full read_payload is_client_hello send_hello
    new_https_handler write_chunks split_in_chunks
session_up = refl

abbrev hello_message : TlsMessage
hello_message = record {
  header = record { type = 22; proto_version = 769; payload_len = 7 };
  raw = record_header 22 769 7 ++ hello;
  raw_header = record_header 22 769 7;
  raw_payload = hello;
}

hello_read : read_tls_message network.stream ≡ ok (hello_message, 23 ∷ [])
unfolding read_tls_message read_full read_payload
hello_read = refl

pipe-serve_https_example :
    (q : Bytes) × (r : Bytes) × ((hello_message.raw ++ q) ++ r ≡ network.stream)
    × (session.server.conn.sent ≡ [] ++ (hello_message.raw ++ q))
    × ((session.server.conn.sent ≡ network.stream)
        ⊎ Faulty (serve_https (new_https_handler 0 5 true) network request address).server.faults
        ⊎ Undated 0 up_rounds)
unfolding new_https_handler
pipe-serve_https_example =
    pipe-serve_https (new_https_handler 0 5 true) network request address turns steady up_rounds
      rounds session hello_message opened hello_read refl session_up

abbrev get : Bytes
get = bytes "GET / HTTP/1.1" ++ 13 ∷ 10 ∷ 13 ∷ 10 ∷ []

abbrev parse_get : Bytes → Result HttpError ParsedRequest
parse_get raw = ok record {
  method = bytes "GET";
  proto = bytes "HTTP/1.1";
  host = bytes "a";
  url_path = bytes "/";
  raw_query = [];
  raw_fragment = [];
}

abbrev no_port : Bytes → Option (Bytes × Bytes)
no_port host = none

abbrev get_request : HttpRequest
get_request = record {
  raw = get;
  method = bytes "GET";
  domain = bytes "a";
  port = [];
  path = bytes "/";
  version = bytes "HTTP/1.1";
}

get_read : read_http_request parse_get no_port (get ++ 23 ∷ []) ≡ ok (get_request, 23 ∷ [])
unfolding read_http_request read_headers
get_read = refl

opened_http : tunnels (serve_http network (tidy get_request) address).events ≡ true
unfolding serve_http port_of http_dial finish write tidy
opened_http = refl

abbrev exchanged : Pipe
exchanged =
    run 0 turns
      (pipe steady (serve_http network (tidy get_request) address).server up_rounds rounds)

exchanged_up : is_finished exchanged.up ≡ true
unfolding run pipe step advance copy_between after_wait copy_round forward write serve_http port_of
    http_dial tidy
exchanged_up = refl

pipe-serve_http_example :
    (q : Bytes) × (r : Bytes) × (get ++ (q ++ r) ≡ get ++ 23 ∷ [])
    × (exchanged.server.conn.sent ≡ [] ++ ((tidy get_request).raw ++ q))
    × ((r ≡ [])
        ⊎ Faulty (serve_http network (tidy get_request) address).server.faults
        ⊎ Undated 0 up_rounds)
pipe-serve_http_example =
    pipe-serve_http parse_get no_port 0 (get ++ 23 ∷ []) network get_request address turns steady
      up_rounds rounds exchanged get_read opened_http refl exchanged_up
