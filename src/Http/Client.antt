-- ===== src/Http/Client.antt =====
-- panelapi/minhttp.go: the client, from the URL to the answer.
use mini_sb_agent.Base.{
  ℕ, zero, suc, ◌+◌, ◌*◌, ◌^◌, not, ◌||◌, Option, none, some, List, [], ◌∷◌, ◌++◌, ltb,
  if◌then◌else◌, length, is_empty, Result, ok, err, ◌>>=◌, ◌==◌, nat_eq, list_eq, pair_eq, Map,
  lookup, insert, Text, codes, trim_space, to_lower, has_prefix, contains, ℤ, pos, negsuc, take,
}
use mini_sb_agent.Http.Reading.{
  read_line, read_full, read_block, cut_at, fields_from, join_words, parse_int,
}

pub data HttpError : Type 0 where
  bad_url unsupported_scheme no_connection cut_short malformed_status malformed_status_code :
      HttpError
  malformed_length negative_length too_large malformed_chunk_size negative_chunk_size : HttpError
  out_of_fuel : HttpError

-- `minHTTPResponse`
pub record MinHttpResponse : Type 0 where
  pub status_code : ℤ
  pub status : Text
  pub body : Text

-- `minHTTPMaxBody`
abbrev pub min_http_max_body : ℕ
min_http_max_body = 16 * 2 ^ 20

abbrev pub or_error : {A : Type 0} → HttpError → Option A → Result HttpError A
or_error e none = err e
or_error e (some a) = ok a

-- The part of a chunk's size line that holds the size.
unfoldable pub size_text : Text → Text
unfolding trim_space cut_at
size_text line = elim (cut_at b';' (trim_space line)) [
  | none ↦ trim_space line
  | some (before, after) ↦ before
]

abbrev pub size_of : Option ℤ → Result HttpError ℕ
size_of none = err malformed_chunk_size
size_of (some (negsuc n)) = err negative_chunk_size
size_of (some (pos n)) = ok n

-- A turn of the loop of `readChunkedBody`: it returns, or goes on with the bytes read so far and the
-- stream behind them.
pub data Turn : Type 0 where
  returns : Result HttpError (Text × Text) → Turn
  goes_on : Text → Text → Turn

abbrev pub take_crlf : Text → Text → Option (Text × Text) → Turn
take_crlf out chunk none = returns (err cut_short)
take_crlf out chunk (some (crlf, s)) = goes_on (out ++ chunk) s

abbrev pub take_chunk : Text → Option (Text × Text) → Turn
take_chunk out none = returns (err cut_short)
take_chunk out (some (chunk, s)) = take_crlf out chunk (read_full 2 s)

abbrev pub end_chunks : Text → Option (List Text × Text) → Turn
end_chunks out none = returns (err cut_short)
end_chunks out (some (trailers, s)) = returns (ok (out, s))

abbrev pub sized_turn : Text → Text → Result HttpError ℕ → Turn
sized_turn out s (err e) = returns (err e)
sized_turn out s (ok size) =
    if size == 0
    then end_chunks out (read_block [] s)
    else if ltb min_http_max_body size || ltb min_http_max_body (length out + size)
    then returns (err too_large)
    else take_chunk out (read_full size s)

abbrev pub line_turn : Text → Option (Text × Text) → Turn
line_turn out none = returns (err cut_short)
line_turn out (some (line, s)) = sized_turn out s (size_of (parse_int 16 (size_text line)))

unfoldable pub chunk_turn : Text → Text → Turn
unfolding read_line read_full read_block size_text parse_int
chunk_turn out s = line_turn out (read_line s)

-- `readChunkedBody`, of at most as many turns as the fuel: the body and the rest of the stream.
unfoldable pub read_chunked_body : ℕ → Text → Text → Result HttpError (Text × Text)
unfolding chunk_turn
read_chunked_body zero out s = err out_of_fuel
read_chunked_body (suc fuel) out s = elim (chunk_turn out s) [
  | returns r ↦ r
  | goes_on out' s' ↦ read_chunked_body fuel out' s'
]

abbrev add_line : Map Text Text → Option (Text × Text) → Map Text Text
add_line headers none = headers
add_line headers (some ([], value)) = headers
add_line headers (some (c ∷ name, value)) =
    insert (to_lower (trim_space (c ∷ name))) (trim_space value) headers

-- The loop that fills `respHeaders`.
unfoldable pub header_map : Map Text Text → List Text → Map Text Text
unfolding cut_at to_lower trim_space
header_map headers [] = headers
header_map headers (line ∷ lines) = header_map (add_line headers (cut_at b':' line)) lines

abbrev pub value_of : Option Text → Text
value_of none = []
value_of (some v) = v

abbrev pub all_of : Option (Text × Text) → Result HttpError Text
all_of none = err cut_short
all_of (some (body, rest)) = ok body

abbrev pub sized_body : Text → Option ℤ → Result HttpError Text
sized_body s none = err malformed_length
sized_body s (some (negsuc n)) = err negative_length
sized_body s (some (pos n)) =
    if ltb min_http_max_body n then err too_large else all_of (read_full n s)

abbrev pub without_rest : Result HttpError (Text × Text) → Result HttpError Text
without_rest (err e) = err e
without_rest (ok (body, rest)) = ok body

-- The body behind the headers.
unfoldable pub read_body : Map Text Text → Text → Result HttpError Text
unfolding contains read_chunked_body parse_int
read_body headers s =
    let length_header = value_of (lookup (codes "content-length") headers) in
    if contains (value_of (lookup (codes "transfer-encoding") headers)) (codes "chunked")
    then without_rest (read_chunked_body (suc (length s)) [] s)
    else if not (is_empty length_header)
    then sized_body s (parse_int 10 length_header)
    else ok (take min_http_max_body s)

-- The words of a status line, the code and the text of the status.
abbrev pub status_of : List Text → Result HttpError (ℤ × Text)
status_of (protocol ∷ code ∷ words) =
    if has_prefix protocol (codes "HTTP/")
    then or_error malformed_status_code (parse_int 10 code)
      >>= (λ n. ok (n, join_words (code ∷ words)))
    else err malformed_status
status_of _ = err malformed_status

-- The part of `do` that reads the answer.
unfoldable pub read_response : Text → Result HttpError MinHttpResponse
unfolding header_map read_body fields_from read_line
read_response stream = do
  (status_line, s) ← or_error cut_short (read_line stream)
  (code, status) ← status_of (fields_from [] (trim_space status_line))
  (lines, s') ← or_error cut_short (read_block [] s)
  body ← read_body (header_map [] lines) s'
  ok (record { status_code = code; status = status; body = body })
