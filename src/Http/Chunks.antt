-- ===== src/Http/Chunks.antt =====
-- `readChunkedBody` of panelapi/minhttp.go reads what a server writes in chunks.
use mini_sb_agent.Base.{
  ℕ, zero, suc, ◌+◌, ◌≤◌, ◌<◌, ◌≡◌, refl, sym, ap, ◌∙◌, true, false, ◌||◌, none, some, List, [],
  ◌∷◌, ◌++◌, append-nil, append_assoc, arith, ltb, leb, length, is_empty, All, length-append,
  Result, ok, ◌==◌, nat_eq, list_eq, pair_eq, list_beq, lookup, insert, Text, codes, is_space,
  drop_while, trim, trim_space, lower, to_lower, has_prefix, contains, pos, take, drop, trim_right,
}
use mathlib.Core.List.{reverse, reverse_aux, reverse-append, reverse-reverse}
use mini_sb_agent.Http.Reading.{
  read_line, read_full, read_block, cut_at, parse_int, fields_from, join_words, digit_value,
  read_digits,
}
use mini_sb_agent.Http.Client.{
  HttpError, min_http_max_body, size_text, goes_on, returns, chunk_turn, read_chunked_body,
  read_body, read_response, header_map,
}
use mini_sb_agent.Http.Digits.{IsDigit, print_number, print_number-IsDigit, parse_int-print_number}

-- A chunk as RFC 9112 writes it, in front of what follows it.
abbrev pub encode_chunk : Text → Text → Text
encode_chunk chunk t =
    (print_number 16 (length chunk) ++ b'\r' ∷ []) ++ b'\n' ∷ (chunk ++ b'\r' ∷ b'\n' ∷ t)

-- A body in chunks, in front of what follows it.
unfoldable pub encode_chunks : List Text → Text → Text
encode_chunks [] t = codes "0\r\n\r\n" ++ t
encode_chunks (c ∷ cs) t = encode_chunk c (encode_chunks cs t)

unfoldable pub joined : List Text → Text
joined [] = []
joined (c ∷ cs) = c ++ joined cs

drop_while-none : (s : Text) → All IsDigit s → drop_while is_space s ≡ s
unfolding drop_while
drop_while-none [] h = refl
drop_while-none (c ∷ s) h = rw h.0.no_space refl

All-reverse_aux : (s t : Text) → All IsDigit s → All IsDigit t → All IsDigit (reverse_aux s t)
All-reverse_aux [] t h k = k
All-reverse_aux (c ∷ s) t h k = All-reverse_aux s (c ∷ t) h.1 (h.0, k)

trim_space-line : (s : Text) → All IsDigit s → trim_space (s ++ codes "\r\n") ≡ s
unfolding trim_space trim drop_while is_space
trim_space-line [] h = refl
trim_space-line (c ∷ s) h =
    let kept : drop_while is_space (c ∷ s ++ codes "\r\n") ≡ c ∷ s ++ codes "\r\n" =
      rw (drop_while, h.0.no_space) refl in
    rw
      (
        kept,
        reverse-append (c ∷ s) (codes "\r\n"),
        drop_while-none (reverse (c ∷ s)) (All-reverse_aux (c ∷ s) [] h tt),
      )
      (reverse-reverse (c ∷ s))

cut_at-none : (s : Text) → All IsDigit s → cut_at b';' s ≡ none
unfolding cut_at
cut_at-none [] h = refl
cut_at-none (c ∷ s) h = rw (h.0.no_semicolon, cut_at-none s h.1) refl

size_text-line : (s : Text) → All IsDigit s → size_text (s ++ codes "\r\n") ≡ s
unfolding size_text
size_text-line s h = rw (size_text, trim_space-line s h, cut_at-none s h) (trim_space-line s h)

read_line-append :
    (s t : Text)
    → All IsDigit s
    → read_line ((s ++ b'\r' ∷ []) ++ b'\n' ∷ t) ≡ some (s ++ codes "\r\n", t)
unfolding read_line
read_line-append [] t h = refl
read_line-append (c ∷ s) t h = rw (h.0.no_line_end, read_line-append s t h.1) refl

take_append : (s t : Text) → take (length s) (s ++ t) ≡ s
unfolding take
take_append [] t = refl
take_append (c ∷ s) t = ap (◌∷◌ c) (take_append s t)

drop_append : (s t : Text) → drop (length s) (s ++ t) ≡ t
unfolding drop
drop_append [] t = refl
drop_append (c ∷ s) t = drop_append s t

read_full-append : (s t : Text) → read_full (length s) (s ++ t) ≡ some (s, t)
unfolding read_full
read_full-append s t =
    let fits : leb (length s) (length (s ++ t)) ≡ true = ground (arith, length-append s t) in
    rw (fits, take_append s t, drop_append s t) refl

length-positive : (s : Text) → is_empty s ≡ false → (length s == 0) ≡ false
length-positive [] e = cc
length-positive (c ∷ s) e = ground arith

chunk_turn-encode_chunk :
    (out chunk t : Text)
    → is_empty chunk ≡ false
    → length out + length chunk ≤ min_http_max_body
    → chunk_turn out (encode_chunk chunk t) ≡ goes_on (out ++ chunk) t
unfolding chunk_turn
chunk_turn-encode_chunk out chunk t some_bytes small =
    let digits = print_number 16 (length chunk) in
    let are_digits = print_number-IsDigit (length chunk) in
    let line = read_line-append digits (chunk ++ b'\r' ∷ b'\n' ∷ t) are_digits in
    let size = parse_int-print_number (length chunk) (omega (arith, small)) in
    let positive : (length chunk == 0) ≡ false = length-positive chunk some_bytes in
    let fits : (ltb min_http_max_body (length chunk)
          || ltb min_http_max_body (length out + length chunk))
        ≡ false =
      ground (arith, small) in
    rw
      (
        line,
        size_text-line digits are_digits,
        size,
        positive,
        fits,
        read_full-append chunk (b'\r' ∷ b'\n' ∷ t),
        read_full-append (codes "\r\n") t,
      )
      refl

chunk_turn-end : (out t : Text) → chunk_turn out (codes "0\r\n\r\n" ++ t) ≡ returns (ok (out, t))
unfolding chunk_turn read_line read_block size_text parse_int read_digits digit_value cut_at
    trim_space trim drop_while is_space trim_right
chunk_turn-end out t = refl

read_chunked_body-returns :
    (fuel : ℕ) (out s : Text) (r : Result HttpError (Text × Text))
    → chunk_turn out s ≡ returns r
    → read_chunked_body (suc fuel) out s ≡ r
unfolding read_chunked_body
read_chunked_body-returns fuel out s r e = rw (read_chunked_body, e) refl

-- What a server writes in chunks is read back whole, whatever follows it, if no chunk is empty and
-- they hold at most 16 MiB together; a turn for each chunk and one for the end are enough.
pub read_chunked_body-encode_chunks :
    (fuel : ℕ) (out : Text) (cs : List Text) (t : Text)
    → length cs < fuel
    → All (λ c. is_empty c ≡ false) cs
    → length out + length (joined cs) ≤ min_http_max_body
    → read_chunked_body fuel out (encode_chunks cs t) ≡ ok (out ++ joined cs, t)
unfolding read_chunked_body encode_chunks joined
read_chunked_body-encode_chunks zero out cs t enough h small = absurd (omega (arith, enough))
read_chunked_body-encode_chunks (suc fuel) out [] t enough h small =
    let done =
      read_chunked_body-returns fuel out (codes "0\r\n\r\n" ++ t) (ok (out, t))
        (chunk_turn-end out t) in
    done ∙ ap (λ b. ok (b, t)) (sym (append-nil out))
read_chunked_body-encode_chunks (suc fuel) out (c ∷ cs) t enough h small =
    let sum = length-append c (joined cs) in
    let one = chunk_turn-encode_chunk out c (encode_chunks cs t) h.0 (omega (arith, sum, small)) in
    let rest =
      read_chunked_body-encode_chunks fuel (out ++ c) cs t (omega (arith, enough)) h.1
        (omega (arith, length-append out c, sum, small)) in
    rw (read_chunked_body, one) (rest ∙ ap (λ b. ok (b, t)) (append_assoc out c (joined cs)))

length-encode_chunks : (cs : List Text) (t : Text) → length cs ≤ length (encode_chunks cs t)
unfolding encode_chunks
length-encode_chunks [] t = omega arith
length-encode_chunks (c ∷ cs) t =
    let digits = print_number 16 (length c) ++ b'\r' ∷ [] in
    let rest = encode_chunks cs t in
    omega (
      arith,
      length-encode_chunks cs t,
      length-append digits (b'\n' ∷ (c ++ b'\r' ∷ b'\n' ∷ rest)),
      length-append c (b'\r' ∷ b'\n' ∷ rest),
    )

abbrev pub chunked_head : Text
chunked_head = codes "HTTP/1.1 200 OK\r\nTransfer-Encoding: chunked\r\n\r\n"

-- An answer of status 200 with a body in chunks, none of them empty and at most 16 MiB together, is
-- read as that status and the chunks joined.
pub read_response-encode_chunks :
    (cs : List Text) (t : Text)
    → All (λ c. is_empty c ≡ false) cs
    → length (joined cs) ≤ min_http_max_body
    → read_response (chunked_head ++ encode_chunks cs t)
      ≡ ok (record { status_code = pos 200; status = codes "200 OK"; body = joined cs })
unfolding read_response read_line read_block fields_from trim_space trim trim_right drop_while
    is_space parse_int read_digits digit_value header_map cut_at to_lower lower insert lookup
    list_beq read_body contains has_prefix join_words
read_response-encode_chunks cs t h small =
    let s = encode_chunks cs t in
    let body =
      read_chunked_body-encode_chunks (suc (length s)) [] cs t
        (omega (arith, length-encode_chunks cs t)) h (omega (arith, small)) in
    rw body refl
