-- ===== src/Http/Bounds.antt =====
-- What `readChunkedBody` and the reader of an answer of panelapi/minhttp.go return on any stream.
use mini_sb_agent.Base.{
  ℕ, zero, suc, ◌+◌, ◌≤◌, ◌<◌, ◌≡◌, refl, ◌≢◌, ◌⊎◌, inl, inr, Bool, true, false, not, ◌&&◌, ◌||◌,
  Option, none, some, List, [], ◌∷◌, arith, ltb, leb, Bool-cases, length, is_empty, length-append,
  Result, ok, err, ◌>>=◌, ◌>>◌, reject_if, ◌==◌, nat_eq, list_eq, pair_eq, Map, lookup, answer,
  Text, codes, trim_space, has_prefix, contains, ℤ, pos, negsuc, length-take, length-drop,
}
use mini_sb_agent.Http.Reading.{fields_from, read_line, read_full, read_block, parse_int, longer}
use mini_sb_agent.Http.Exchange.{Url, is_https, port_of, join_host_port, request_text, do_request}
use mini_sb_agent.Http.Client.{
  bad_url, unsupported_scheme, no_connection, or_error, malformed_status_code, status_of, all_of,
  HttpError, out_of_fuel, cut_short, MinHttpResponse, min_http_max_body, size_text, size_of, Turn,
  goes_on, returns, line_turn, sized_turn, end_chunks, take_chunk, take_crlf, chunk_turn,
  read_chunked_body, read_body, read_response, header_map, without_rest, sized_body, value_of,
}

-- A result with the property, or an error that is not a lack of fuel.
abbrev pub Fine : {A : Type 0} → (A → Type 0) → Result HttpError A → Type 0
Fine P (ok a) = P a
Fine P (err e) = e ≢ out_of_fuel

bind-Fine :
    {A B : Type 0} (P : A → Type 0) (Q : B → Type 0) (r : Result HttpError A)
    (next : A → Result HttpError B)
    → Fine P r
    → ((a : A) → P a → Fine Q (next a))
    → Fine Q (r >>= next)
bind-Fine P Q (ok a) next h k = k a h
bind-Fine P Q (err e) next h k = h

or_error-Fine :
    {A : Type 0} (e : HttpError) (o : Option A)
    → e ≢ out_of_fuel
    → Fine (λ a. Unit {0}) (or_error e o)
or_error-Fine e none h = h
or_error-Fine e (some a) h = tt

-- A body within the bound, or an error that is not a lack of fuel.
abbrev pub Within : Result HttpError (Text × Text) → Type 0
Within r = Fine (λ x. length x.0 ≤ min_http_max_body) r

-- A turn that goes on has read something, and keeps within the bound.
abbrev Shrinks : Text → Turn → Type 0
Shrinks s (returns r) = Within r
Shrinks s (goes_on out s') = (length s' < length s) × (length out ≤ min_http_max_body)

cut_short-fuel : cut_short ≢ out_of_fuel
cut_short-fuel e = cc

-- What is left of the stream is shorter.
abbrev LeavesLess : Text → Option (Text × Text) → Type 0
LeavesLess s none = Unit
LeavesLess s (some (line, t)) = length t < length s

longer-LeavesLess :
    (c : ℕ) (s : Text) (o : Option (Text × Text)) → LeavesLess s o → LeavesLess (c ∷ s) (longer c o)
longer-LeavesLess c s none h = tt
longer-LeavesLess c s (some (line, t)) h = omega (arith, h)

read_line-LeavesLess : (s : Text) → LeavesLess s (read_line s)
unfolding read_line
read_line-LeavesLess [] = tt
read_line-LeavesLess (c ∷ s) = elim (Bool-cases (c == b'\n')) [
  | inl ends ↦ rw ends (omega arith)
  | inr goes ↦ rw goes (longer-LeavesLess c s (read_line s) (read_line-LeavesLess s))
]

-- Exactly `n` bytes are taken.
abbrev Takes : ℕ → Text → Option (Text × Text) → Type 0
Takes n s none = Unit
Takes n s (some (b, t)) = (length b ≡ n) × (length t ≤ length s)

read_full-Takes : (n : ℕ) (s : Text) → Takes n s (read_full n s)
unfolding read_full
read_full-Takes n s = elim (Bool-cases (leb n (length s))) [
  | inl fits ↦ rw fits (ground (arith, length-take n s, fits), omega (arith, length-drop n s))
  | inr short ↦ rw short tt
]

module _ (out s : Text) where
  take_crlf-Shrinks :
      (chunk t : Text) (o : Option (Text × Text))
      → length out + length chunk ≤ min_http_max_body
      → length t < length s
      → Takes 2 t o
      → Shrinks s (take_crlf out chunk o)
  take_crlf-Shrinks chunk t none small less h = cut_short-fuel
  take_crlf-Shrinks chunk t (some (crlf, t')) small less h =
      (omega (arith, less, h.1), omega (arith, small, length-append out chunk))

  take_chunk-Shrinks :
      (n : ℕ) (t : Text) (o : Option (Text × Text))
      → length out + n ≤ min_http_max_body
      → length t < length s
      → Takes n t o
      → Shrinks s (take_chunk out o)
  take_chunk-Shrinks n t none small less h = cut_short-fuel
  take_chunk-Shrinks n t (some (chunk, t')) small less h =
      take_crlf-Shrinks chunk t' (read_full 2 t') (omega (arith, small, h.0))
        (omega (arith, less, h.1)) (read_full-Takes 2 t')

  end_chunks-Within :
      (o : Option (List Text × Text))
      → length out ≤ min_http_max_body
      → Shrinks s (end_chunks out o)
  end_chunks-Within none h = cut_short-fuel
  end_chunks-Within (some (trailers, t)) h = h

  sized_turn-Shrinks :
      (t : Text) (o : Option ℤ)
      → length out ≤ min_http_max_body
      → length t < length s
      → Shrinks s (sized_turn out t (size_of o))
  sized_turn-Shrinks t none h less = λ e. cc
  sized_turn-Shrinks t (some (negsuc n)) h less = λ e. cc
  sized_turn-Shrinks t (some (pos n)) h less = elim (Bool-cases (n == 0)) [
    | inl last ↦ rw last (end_chunks-Within (read_block [] t) h)
    | inr some_bytes ↦
        elim (Bool-cases (ltb min_http_max_body n || ltb min_http_max_body (length out + n))) [
          | inl large ↦ rw (some_bytes, large) (λ e. cc)
          | inr small ↦
              rw (some_bytes, small)
                (take_chunk-Shrinks n t (read_full n t) (ground (arith, small)) less
                  (read_full-Takes n t))
        ]
  ]

  line_turn-Shrinks :
      (o : Option (Text × Text))
      → length out ≤ min_http_max_body
      → LeavesLess s o
      → Shrinks s (line_turn out o)
  line_turn-Shrinks none h less = cut_short-fuel
  line_turn-Shrinks (some (line, t)) h less =
      sized_turn-Shrinks t (parse_int 16 (size_text line)) h less

  chunk_turn-Shrinks : length out ≤ min_http_max_body → Shrinks s (chunk_turn out s)
  unfolding chunk_turn
  chunk_turn-Shrinks h = line_turn-Shrinks (read_line s) h (read_line-LeavesLess s)

Turn-cases :
    (t : Turn)
    → ((r : Result HttpError (Text × Text)) × (t ≡ returns r))
      ⊎ ((out : Text) × ((s : Text) × (t ≡ goes_on out s)))
Turn-cases (returns r) = inl (r, refl)
Turn-cases (goes_on out s) = inr (out, (s, refl))

-- On any stream, as many turns as it has bytes and one more are enough: the loop returns a body of at
-- most 16 MiB or an error of its own, never a lack of fuel.
pub read_chunked_body-Within :
    (fuel : ℕ) (out s : Text)
    → length s < fuel
    → length out ≤ min_http_max_body
    → Within (read_chunked_body fuel out s)
unfolding read_chunked_body
read_chunked_body-Within zero out s enough h = absurd (omega (arith, enough))
read_chunked_body-Within (suc fuel) out s enough h =
    let turn = chunk_turn-Shrinks out s h in
    elim (Turn-cases (chunk_turn out s)) [
      | inl (r, last) ↦ rw (read_chunked_body, last) (rw last at turn)
      | inr (out', (s', more)) ↦
          let left : (length s' < length s) × (length out' ≤ min_http_max_body) = rw more at turn in
          rw (read_chunked_body, more)
            (read_chunked_body-Within fuel out' s' (omega (arith, left.0, enough)) left.1)
    ]

abbrev pub IsBody : Text → Type 0
IsBody body = length body ≤ min_http_max_body

without_rest-Fine : (r : Result HttpError (Text × Text)) → Within r → Fine IsBody (without_rest r)
without_rest-Fine (ok (body, s)) h = h
without_rest-Fine (err e) h = h

all_of-Fine :
    (n : ℕ) (s : Text) (o : Option (Text × Text))
    → n ≤ min_http_max_body
    → Takes n s o
    → Fine IsBody (all_of o)
all_of-Fine n s none small h = cut_short-fuel
all_of-Fine n s (some (b, t)) small h = omega (arith, small, h.0)

sized_body-Fine : (s : Text) (o : Option ℤ) → Fine IsBody (sized_body s o)
sized_body-Fine s none = λ e. cc
sized_body-Fine s (some (negsuc n)) = λ e. cc
sized_body-Fine s (some (pos n)) = elim (Bool-cases (ltb min_http_max_body n)) [
  | inl large ↦ rw large (λ e. cc)
  | inr small ↦
      rw small (all_of-Fine n s (read_full n s) (ground (arith, small)) (read_full-Takes n s))
]

read_body-Fine : (headers : Map Text Text) (s : Text) → Fine IsBody (read_body headers s)
unfolding read_body
read_body-Fine headers s =
    let length_header = value_of (lookup (codes "content-length") headers) in
    elim (Bool-cases
      (contains (value_of (lookup (codes "transfer-encoding") headers)) (codes "chunked"))) [
        | inl chunked ↦ rw chunked (
            without_rest-Fine (read_chunked_body (suc (length s)) [] s)
              (read_chunked_body-Within (suc (length s)) [] s (omega arith) (omega arith)))
        | inr whole ↦ elim (Bool-cases (not (is_empty length_header))) [
          | inl sized ↦ rw (whole, sized) (sized_body-Fine s (parse_int 10 length_header))
          | inr closed ↦ rw (whole, closed) (omega (arith, length-take min_http_max_body s))
        ]
      ]

status_of-Fine : (words : List Text) → Fine (λ x. Unit {0}) (status_of words)
status_of-Fine [] = λ e. cc
status_of-Fine (protocol ∷ []) = λ e. cc
status_of-Fine (protocol ∷ code ∷ words) = elim (Bool-cases (has_prefix protocol (codes "HTTP/"))) [
  | inl http ↦ rw http (
      bind-Fine (λ n. Unit {0}) (λ x. Unit {0}) (or_error malformed_status_code (parse_int 10 code))
        _ (or_error-Fine malformed_status_code (parse_int 10 code) (λ e. cc)) (λ n u. tt))
  | inr other ↦ rw other (λ e. cc)
]

abbrev pub Small : MinHttpResponse → Type 0
Small r = IsBody r.body

read_response-Fine : (stream : Text) → Fine Small (read_response stream)
unfolding read_response
read_response-Fine stream =
    bind-Fine _ Small (or_error cut_short (read_line stream)) _
      (or_error-Fine cut_short (read_line stream) cut_short-fuel)
      (λ (status_line, s) u.
        bind-Fine _ Small (status_of (fields_from [] (trim_space status_line))) _
          (status_of-Fine (fields_from [] (trim_space status_line)))
          (λ (code, status) u'.
            bind-Fine _ Small (or_error cut_short (read_block [] s)) _
              (or_error-Fine cut_short (read_block [] s) cut_short-fuel)
              (λ (lines, s') u''.
                bind-Fine IsBody Small (read_body (header_map [] lines) s') _
                  (read_body-Fine (header_map [] lines) s') (λ body h. h))))

read_answer-Fine :
    (refused : Bool) (answer : Option Text)
    → Fine Small
        (reject_if refused unsupported_scheme >> (or_error no_connection answer >>= read_response))
read_answer-Fine true answer = λ e. cc
read_answer-Fine false answer =
    bind-Fine _ Small (or_error no_connection answer) _
      (or_error-Fine no_connection answer (λ e. cc)) (λ stream t. read_response-Fine stream)

-- Whatever a URL leads to and whatever a server sends, a request ends with a body of at most 16 MiB or
-- with an error of its own: the fuel of the chunks never runs out.
pub do_request_bounded :
    (parse_url : Text → Option Url) (connect : Bool → Text → Text → Text → Option Text)
    (method raw_url : Text) (headers : Map Text Text) (content : Text)
    → Fine Small (do_request parse_url connect method raw_url headers content)
unfolding do_request
do_request_bounded parse_url connect method raw_url headers content =
    bind-Fine _ Small (or_error bad_url (parse_url raw_url)) _
      (or_error-Fine bad_url (parse_url raw_url) (λ e. cc))
      (λ u t. read_answer-Fine (not (u.scheme == codes "http") && not (is_https u)) (
        connect (is_https u) (join_host_port u.hostname (port_of u)) u.hostname
          (request_text method u headers content)))
