-- ===== src/Tests/Https.antt =====
-- Inputs for panelapi/minhttp.go and the statistics API.
use mini_sb_agent.Base.{
  ℕ, zero, suc, ◌+◌, ◌≤◌, ◌≡◌, refl, ◌≢◌, Bool, Option, some, List, [], ◌∷◌, ◌++◌, arith, length,
  ok, err, nat_eq, list_eq, pair_eq, Text, codes, pos,
}
use mini_sb_agent.Http.Client.{min_http_max_body, read_response}
use mini_sb_agent.Http.Chunks.{encode_chunks, joined, chunked_head, read_response-encode_chunks}
use mini_sb_agent.Http.Exchange.{Url, do_request}
use mini_sb_agent.Http.Bounds.{Fine, Small, do_request_bounded}
use mini_sb_agent.Stats.{out_of_fuel, max_request, line_buffer, read_http_request}
use mini_sb_agent.Stats.Bounds.{read_http_request_bounded}

abbrev chunks : List Text
chunks = codes "{\"users\":" ∷ codes "[]}" ∷ []

chunks_small : length (joined chunks) ≤ min_http_max_body
unfolding joined
chunks_small = omega arith

read_response-encode_chunks_example :
    read_response (chunked_head ++ encode_chunks chunks [])
    ≡ ok (record { status_code = pos 200; status = codes "200 OK"; body = joined chunks })
read_response-encode_chunks_example =
    read_response-encode_chunks chunks [] (refl, (refl, tt)) chunks_small

abbrev parse_url : Text → Option Url
parse_url u = some (record {
  scheme = codes "http";
  host = codes "panel";
  hostname = codes "panel";
  port = [];
  request_uri = codes "/x";
})

abbrev connect : Bool → Text → Text → Text → Option Text
connect tls address server_name request = some (codes "HTTP/1.1 200 OK\r\n\r\n{}")

do_request_bounded_example :
    Fine Small (do_request parse_url connect (codes "GET") (codes "http://panel/x") [] [])
do_request_bounded_example =
    do_request_bounded parse_url connect (codes "GET") (codes "http://panel/x") [] []

endless : ℕ → Text
endless zero = []
endless (suc n) = b'A' ∷ endless n

length-endless : (n : ℕ) → length (endless n) ≡ n
unfolding endless
length-endless zero = refl
length-endless (suc n) = omega (arith, length-endless n)

endless_long : max_request + line_buffer ≤ length (endless 20480)
endless_long = omega (arith, length-endless 20480)

read_http_request_bounded_example :
    (read_http_request (endless 20480 ++ []) ≡ read_http_request (endless 20480 ++ codes "\n"))
    × (read_http_request (endless 20480 ++ []) ≢ err out_of_fuel)
read_http_request_bounded_example =
    read_http_request_bounded (endless 20480) [] (codes "\n") endless_long
