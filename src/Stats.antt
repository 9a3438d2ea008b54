-- ===== src/Stats.antt =====
-- The local statistics API of cmd/mini-sb-agent/main.go: `readHTTPRequest` and `serveStats`.
--
-- A stream is what arrives before the other side closes or the deadline passes.
pub mod Bounds
use mini_sb_agent.Base.{
  ℕ, zero, suc, ◌+◌, ◌-◌, ◌*◌, ◌/◌, ◌%◌, ◌^◌, ◌≤◌, ◌<◌, String, ◌≡◌, refl, sym, ap, ◌∙◌, ◌≢◌, ◌↔◌,
  ◌⊎◌, inl, inr, Bool, true, false, not, ◌&&◌, ◌||◌, Option, none, some, List, [], ◌∷◌, ◌++◌, map,
  append-nil, append_assoc, arith, ltb, leb, nat_beq, nat_beq_iff, if◌then◌else◌, Bool-cases,
  Option-cases, is_some, length, is_empty, all, any, keep, All, length-append, All-append, Result,
  ok, err, ◌>>=◌, ◌>>◌, reject_if, >>=-eq-ok, is_ok, Eq, ◌==◌, nat_eq, list_eq, pair_eq, list_beq,
  list_beq_iff, pair_beq, pair_beq_iff, Map, lookup, has, insert, delete, IsMap, lookup-insert,
  lookup-delete, beq_refl, insert-IsMap, delete-IsMap, select, answer, lookup-select, select-IsMap,
  word, half_word, add64, sub64, mul64, is_neg, is_pos, div64, lt64, Text, codes, is_space,
  drop_while, trim, trim_space, lower, to_lower, has_prefix, contains, ℤ, pos, negsuc, pos_part,
  neg_part, diff, ◌+ℤ◌, ◌-ℤ◌, ◌≤ℤ◌, ltb_ℤ, +ℤ_parts, -ℤ_parts, take, drop, length-take, length-drop,
  take-append-take-drop, take-take, take_all, trim_prefix, trim_right,
}
use mini_sb_agent.Counter.{Snapshot}
use mini_sb_agent.Hook.{Hook, snapshots, snapshot_deltas}
use mini_sb_agent.Http.Reading.{fields_from}
use mini_sb_agent.Http.Digits.{print_number}

pub data RequestError : Type 0 where
  line_too_long cut_short request_too_large malformed_request out_of_fuel : RequestError

abbrev pub one_longer : ℕ → Result RequestError (Text × Text) → Result RequestError (Text × Text)
one_longer c (err e) = err e
one_longer c (ok (line, s)) = ok (c ∷ line, s)

-- `ReadSlice('\n')` with a buffer of `n` bytes.
unfoldable pub read_slice : ℕ → Text → Result RequestError (Text × Text)
read_slice zero s = err line_too_long
read_slice (suc n) [] = err cut_short
read_slice (suc n) (c ∷ s) =
    let rest = read_slice n s in if c == b'\n' then ok (c ∷ [], s) else one_longer c rest

abbrev pub line_buffer : ℕ
line_buffer = 4096

abbrev pub max_request : ℕ
max_request = 16 * 2 ^ 10

abbrev pub first_of : Text → Text → Text
first_of line chunk = if is_empty line then chunk else line

-- The loop of `readHTTPRequest`, of at most as many turns as the fuel: the first line.
unfoldable pub request_line : ℕ → Text → ℕ → Text → Result RequestError Text
unfolding read_slice trim_space
request_line zero line total s = err out_of_fuel
request_line (suc fuel) line total s = elim (read_slice line_buffer s) [
  | err e ↦ err e
  | ok (chunk, s') ↦
      let rest = request_line fuel (first_of line chunk) (total + length chunk) s' in
      if ltb max_request (total + length chunk)
      then err request_too_large
      else if is_empty (trim_space chunk)
      then ok (first_of line chunk)
      else rest
]

abbrev pub target_of : List Text → Result RequestError Text
target_of (method ∷ target ∷ words) = ok target
target_of _ = err malformed_request

-- `readHTTPRequest`: the target of the request. Each turn reads a byte at least, of `max_request`.
unfoldable pub read_http_request : Text → Result RequestError Text
unfolding request_line fields_from
read_http_request s =
    request_line (suc max_request) [] 0 s >>= (λ line. target_of (fields_from [] (trim_space line)))

pub record Page : Type 0 where
  pub status : Text
  pub content_type : Text
  pub body : Text

abbrev pub json_page : Result Text Text → Page
json_page (ok data_text) = record {
  status = codes "200 OK";
  content_type = codes "application/json";
  body = data_text;
}
json_page (err message) = record {
  status = codes "500 Internal Server Error";
  content_type = codes "text/plain";
  body = message;
}

abbrev text_page : Text → Text → Page
text_page status body = record { status = status; content_type = codes "text/plain"; body = body }

-- The switch of `serveStats` on the target; `encode` is `json.Marshal`.
unfoldable pub page_of : (Map Text Snapshot → Result Text Text) → Hook → Text → Page
unfolding contains has_prefix snapshot_deltas
page_of encode h target =
    if has_prefix target (codes "/stats")
    then (if contains target (codes "delta=1")
        then json_page (encode (snapshot_deltas h))
        else json_page (encode (snapshots (contains target (codes "reset=1")) h)))
    else if has_prefix target (codes "/health")
    then text_page (codes "200 OK") (codes "ok")
    else text_page (codes "404 Not Found") (codes "not found")

-- `response`
unfoldable pub page_text : Page → Text
unfolding print_number
page_text p =
    codes "HTTP/1.1 "
    ++ p.status
    ++ codes "\r\nContent-Type: "
    ++ p.content_type
    ++ codes "\r\nContent-Length: "
    ++ print_number 10 (length p.body)
    ++ codes "\r\nConnection: close\r\n\r\n"
    ++ p.body

-- What `serveStats` writes on a connection, `none` if it closes it at once.
unfoldable pub serve_stats : (Map Text Snapshot → Result Text Text) → Hook → Text → Option Text
unfolding read_http_request page_of page_text
serve_stats encode h stream = elim (read_http_request stream) [
  | err e ↦ none
  | ok target ↦ some (page_text (page_of encode h target))
]
