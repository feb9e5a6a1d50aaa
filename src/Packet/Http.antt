-- ===== src/Packet/Http.antt =====
-- `ReadHttpRequest`, `Tidy` and the tests of the method: packet/http.go. The parser
-- `http.ReadRequest` and `net.SplitHostPort` are parameters.
pub mod Headers
pub mod Tidying
use spoof_dpi_turkiye.Prelude.{
  bytes, has_prefix, ℕ, ◌+◌, ◌*◌, Bool, true, false, ◌&&◌, ◌||◌, List, [], ◌∷◌, ◌++◌, Option, none,
  some, Result, ok, err, ◌>>=◌, Bytes, bytes_eq, length, ltb, ◌==◌, if◌then◌else◌,
}

abbrev pub cr : ℕ
cr = 13

abbrev pub lf : ℕ
lf = 10

abbrev pub max_header_size : ℕ
max_header_size = 64 * 1024

pub data HttpError : Type 0 where
  eof headers_too_large : HttpError
  bad_request : ℕ → HttpError

-- What a round of the header loop does with a whole line: the buffer after, and whether it ends.
abbrev pub is_blank : Bytes → Bool
is_blank line = bytes_eq line (cr ∷ lf ∷ []) || bytes_eq line (lf ∷ [])

-- The header loop with `br.ReadString('\n')` in it: `buf` is `headerBuf`, `line` what has been read
-- of the line. The result is the headers and what is left in the reader.
unfoldable pub read_headers : Bytes → Bytes → Bytes → Result HttpError (Bytes × Bytes)
read_headers buf line [] = err eof
read_headers buf line (c ∷ r) =
    let whole = line ++ c ∷ [] in
    let more = read_headers buf whole r in
    let next = read_headers (buf ++ whole) [] r in
    if c == lf
    then if ltb max_header_size (length buf + length whole)
      then err headers_too_large
      else if is_blank whole
      then ok (buf ++ whole, r)
      else next
    else more

-- The fields of `http.Request` that are read.
pub record ParsedRequest : Type 0 where
  pub method : Bytes
  pub proto : Bytes
  pub host : Bytes
  pub url_path : Bytes
  pub raw_query : Bytes
  pub raw_fragment : Bytes

pub record HttpRequest : Type 0 where
  pub raw : Bytes
  pub method : Bytes
  pub domain : Bytes
  pub port : Bytes
  pub path : Bytes
  pub version : Bytes

abbrev suffix_of : ℕ → Bytes → Bytes
suffix_of mark [] = []
suffix_of mark (c ∷ s) = mark ∷ c ∷ s

abbrev pub path_of : ParsedRequest → Bytes
path_of q =
    let path = (q.url_path ++ suffix_of b'?' q.raw_query) ++ suffix_of b'#' q.raw_fragment in
    if bytes_eq path [] then b'/' ∷ [] else path

-- `none` of `split_host_port` is its error.
abbrev pub host_parts : Option (Bytes × Bytes) → Bytes → Bytes × Bytes
host_parts none host = (host, [])
host_parts (some parts) host = parts

module _ (parse : Bytes → Result HttpError ParsedRequest)
    (split_host_port : Bytes → Option (Bytes × Bytes)) where
  unfoldable pub read_http_request : Bytes → Result HttpError (HttpRequest × Bytes)
  read_http_request r = do
    (raw_headers, rest) ← read_headers [] [] r
    q ← parse raw_headers
    let parts = host_parts (split_host_port q.host) q.host
    ok (
      record {
        raw = raw_headers;
        method = q.method;
        domain = parts.0;
        port = parts.1;
        path = path_of q;
        version = q.proto;
      },
      rest,
    )

-- Up to the first empty line, or all of it.
unfoldable pub cut_head : Bytes → Bytes
unfolding has_prefix
cut_head [] = []
cut_head (c ∷ s) =
    let rest = cut_head s in if has_prefix (c ∷ s) (cr ∷ lf ∷ cr ∷ lf ∷ []) then [] else c ∷ rest

-- `strings.Split(s, "\r\n")`, with the line so far.
unfoldable pub split_crlf : Bytes → Bytes → List Bytes
split_crlf line [] = line ∷ []
split_crlf line (c ∷ []) = (line ++ c ∷ []) ∷ []
split_crlf line (c ∷ d ∷ s) =
    let next = split_crlf [] s in
    let more = split_crlf (line ++ c ∷ []) (d ∷ s) in
    if c == cr && d == lf then line ∷ next else more

abbrev pub proxy_connection : Bytes
proxy_connection = bytes "Proxy-Connection"

-- The loop that writes the lines.
unfoldable pub write_lines : List Bytes → Bytes
write_lines [] = []
write_lines (m ∷ meta) =
    let rest = write_lines meta in
    if has_prefix m proxy_connection then rest else m ++ cr ∷ lf ∷ rest

abbrev pub request_line : HttpRequest → Bytes
request_line p = p.method ++ (b' ' ∷ p.path) ++ (b' ' ∷ p.version)

-- `meta[0] = …`
abbrev pub set_first : Bytes → List Bytes → List Bytes
set_first l [] = l ∷ []
set_first l (m ∷ meta) = l ∷ meta

unfoldable pub tidy : HttpRequest → HttpRequest
unfolding write_lines
tidy p = record p {
  raw = write_lines (set_first (request_line p) (split_crlf [] (cut_head p.raw))) ++ cr ∷ lf ∷ [];
}

abbrev pub valid_methods : List Bytes
valid_methods =
    bytes "DELETE"
    ∷ bytes "GET"
    ∷ bytes "HEAD"
    ∷ bytes "POST"
    ∷ bytes "PUT"
    ∷ bytes "CONNECT"
    ∷ bytes "OPTIONS"
    ∷ bytes "TRACE"
    ∷ bytes "COPY"
    ∷ bytes "LOCK"
    ∷ bytes "MKCOL"
    ∷ bytes "MOVE"
    ∷ bytes "PROPFIND"
    ∷ bytes "PROPPATCH"
    ∷ bytes "SEARCH"
    ∷ bytes "UNLOCK"
    ∷ bytes "BIND"
    ∷ bytes "REBIND"
    ∷ bytes "UNBIND"
    ∷ bytes "ACL"
    ∷ bytes "REPORT"
    ∷ bytes "MKACTIVITY"
    ∷ bytes "CHECKOUT"
    ∷ bytes "MERGE"
    ∷ bytes "M-SEARCH"
    ∷ bytes "NOTIFY"
    ∷ bytes "SUBSCRIBE"
    ∷ bytes "UNSUBSCRIBE"
    ∷ bytes "PATCH"
    ∷ bytes "PURGE"
    ∷ bytes "MKCALENDAR"
    ∷ bytes "LINK"
    ∷ bytes "UNLINK"
    ∷ []

abbrev pub listed : Bytes → List Bytes → Bool
listed s [] = false
listed s (x ∷ xs) = bytes_eq s x || listed s xs

unfoldable pub is_valid_method : HttpRequest → Bool
is_valid_method p = listed p.method valid_methods

unfoldable pub is_connect_method : HttpRequest → Bool
is_connect_method p = bytes_eq p.method (bytes "CONNECT")
