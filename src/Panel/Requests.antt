-- ===== src/Panel/Requests.antt =====
-- The request that a node's client makes of a report: `Client.PushTraffic` of panelapi/client.go.
use mini_sb_agent.Base.{
  ℕ, ◌%◌, ◌≡◌, refl, ap, ◌∙◌, ◌≢◌, true, false, Option, none, some, [], ◌∷◌, is_some, is_empty, Eq,
  nat_eq, list_eq, pair_eq, Map, lookup, word, Text, codes,
}
use mini_sb_agent.Topology.{NodeSpec, inbound_tag}
use mini_sb_agent.Panel.{
  Delta, Acked, PushResult, Http, Url, Client, is_numeric_user, atoi, payload_from, new_node_client,
  collect, endpoint, push_failed, posted, send, push_client,
}
use mini_sb_agent.Panel.Commit.{entry, IsDelta}
use mini_sb_agent.Panel.Payload.{sent, new_node_client-sends}
use mini_sb_agent.Panel.Posted.{IsOnlyName, body-new_node_client, body-absent}

-- One POST of the body, judged by its status; without a URL nothing is sent.
abbrev pub request : Http → Option Url → Map ℕ (ℕ × ℕ) → Acked → PushResult
request http none body acked = push_failed
request http (some url) body acked = posted (http.post url body) acked

send-request :
    (http : Http) (url : Option Url) (body : Map ℕ (ℕ × ℕ)) (acked : Acked)
    → is_empty body ≡ false
    → send http url body acked ≡ request http url body acked
send-request http none body acked e = refl
send-request http (some url) body acked e = rw e refl

found-nonempty :
    {K V : Type 0} ⦃q : Eq K⦄ (key : K) (v : V) (m : Map K V)
    → lookup key m ≡ some v
    → is_empty m ≡ false
unfolding lookup
found-nonempty key v [] e = cc
found-nonempty key v (x ∷ m) e = refl

push_client-request :
    (http : Http) (c : Client) (delta : Delta)
    → is_empty (collect c delta [] []).0 ≡ false
    → is_empty (payload_from (collect c delta [] []).0 []) ≡ false
    → push_client http c delta
      ≡ request http
          (endpoint http c (codes "/api/v1/server/UniProxy/push"))
          (payload_from (collect c delta [] []).0 [])
          (collect c delta [] []).1
unfolding push_client
push_client-request http c delta some_flat some_body =
    rw some_flat (send-request http _ _ _ some_body)

-- A node's client with a report in which its inbound has bytes of a numeric user makes one request,
-- whose body does not depend on the panel, and goes by the status of the answer. The body has under
-- the user's number the bytes up and down that the inbound counted (as 64-bit patterns), if no other
-- name of the report has this number, and nothing for a number that no numeric user of the inbound
-- has, whatever other inbounds have.
pub new_node_client-posts :
    (base_url token : Text) (n : NodeSpec) (delta : Delta) (user : Text) (uid : ℕ) (v : ℕ × ℕ)
    (other : ℕ)
    → IsDelta delta
    → is_numeric_user user ≡ true
    → atoi user ≡ some uid
    → IsOnlyName (inbound_tag n) user uid delta
    → entry (inbound_tag n) user delta ≡ some v
    → ((w : Text)
        → is_some (entry (inbound_tag n) w delta) ≡ true
        → is_numeric_user w ≡ true
        → atoi w ≢ some other)
    → (body : Map ℕ (ℕ × ℕ)) × (acked : Acked) × ((http : Http)
        → push_client http (new_node_client base_url token n) delta
          ≡ request http
              (endpoint http
                (new_node_client base_url token n)
                (codes "/api/v1/server/UniProxy/push"))
              body
              acked)
      × (lookup uid body ≡ some (v.0 % word, v.1 % word))
      × (lookup other body ≡ none)
new_node_client-posts base_url token n delta user uid v other is_delta numeric number only there
      absent =
    let c = new_node_client base_url token n in
    let flat = (collect c delta [] []).0 in
    let found =
      body-new_node_client base_url token n delta is_delta user uid numeric number only
      ∙ ap sent there in
    let sends = new_node_client-sends base_url token n delta user is_delta in
    let there' : lookup user flat ≡ some (v.0 % word, v.1 % word) =
      sends ∙ rw (numeric, there) refl in
    (
      payload_from flat [],
      (collect c delta [] []).1,
      λ http.
          push_client-request http c delta (found-nonempty user _ flat there')
            (found-nonempty uid _ (payload_from flat []) found),
      found,
      body-absent base_url token n delta is_delta user other absent,
    )
