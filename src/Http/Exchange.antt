-- ===== src/Http/Exchange.antt =====
-- panelapi/minhttp.go: the writing of a request, and `do` as a whole.
--
-- `parse_url` is net/url's `Parse`. `connect` is the network: a stream with TLS or without it to an
-- address, for a server's name, that takes the bytes of the request and answers with those that
-- arrive before the other side closes, `none` for an error or a timeout.
use mini_sb_agent.Base.{
  Bool, not, ◌&&◌, Option, [], ◌∷◌, ◌++◌, if◌then◌else◌, is_some, length, is_empty, Result, ◌>>=◌,
  ◌>>◌, reject_if, ◌==◌, nat_eq, list_eq, pair_eq, Map, Text, codes,
}
use mini_sb_agent.Http.Reading.{cut_at}
use mini_sb_agent.Http.Client.{
  HttpError, bad_url, unsupported_scheme, no_connection, MinHttpResponse, or_error, read_response,
}
use mini_sb_agent.Http.Digits.{print_number}

-- What `do` reads of a `url.URL`.
pub record Url : Type 0 where
  pub scheme : Text
  pub host : Text
  pub hostname : Text
  pub port : Text
  pub request_uri : Text

-- `net.JoinHostPort`
unfoldable pub join_host_port : Text → Text → Text
unfolding cut_at
join_host_port host port =
    if is_some (cut_at b':' host)
    then codes "[" ++ host ++ codes "]:" ++ port
    else host ++ codes ":" ++ port

abbrev pub is_https : Url → Bool
is_https u = u.scheme == codes "https"

-- The port that is dialed.
abbrev pub port_of : Url → Text
port_of u = if not (is_empty u.port) then u.port else if is_https u then codes "443" else codes "80"

-- `hostHeader`
abbrev pub host_header : Url → Text
host_header u = if is_empty u.port then u.host else join_host_port u.hostname u.port

abbrev pub header_line : Text → Text → Text
header_line name value = name ++ codes ": " ++ value ++ codes "\r\n"

-- The loop over the headers.
unfoldable pub header_lines : Map Text Text → Text
header_lines [] = []
header_lines ((name, value) ∷ headers) = header_line name value ++ header_lines headers

-- `Content-Length`, which a request without a body has not.
unfoldable pub length_line : Text → Text
unfolding print_number
length_line content =
    if is_empty content
    then []
    else header_line (codes "Content-Length") (print_number 10 (length content))

-- What `do` writes.
unfoldable pub request_text : Text → Url → Map Text Text → Text → Text
unfolding join_host_port header_lines length_line
request_text method u headers content =
    method
    ++ codes " "
    ++ u.request_uri
    ++ codes " HTTP/1.1\r\n"
    ++ header_line (codes "Host") (host_header u)
    ++ header_lines headers
    ++ length_line content
    ++ codes "Connection: close\r\n\r\n"
    ++ content

module _ (parse_url : Text → Option Url) (connect : Bool → Text → Text → Text → Option Text) where
  -- `minHTTPClient.do`
  unfoldable pub do_request : Text → Text → Map Text Text → Text → Result HttpError MinHttpResponse
  unfolding request_text read_response
  do_request method raw_url headers content = do
    u ← or_error bad_url (parse_url raw_url)
    reject_if (not (u.scheme == codes "http") && not (is_https u)) unsupported_scheme
    stream ← or_error no_connection (
        connect (is_https u) (join_host_port u.hostname (port_of u)) u.hostname
          (request_text method u headers content))
    read_response stream
