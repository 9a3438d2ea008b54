-- ===== src/Panel.antt =====
-- panelapi/sync.go, client.go, multi.go and cmd/mini-sb-agent/topology_panel.go: how the traffic of
-- the inbounds goes to the panel.
pub mod Commit
pub mod Push
pub mod Payload
pub mod Posted
pub mod Requests
pub mod Flushed
use mini_sb_agent.Base.{
  ℕ, zero, suc, ◌+◌, ◌-◌, ◌*◌, ◌/◌, ◌%◌, ◌^◌, ◌≤◌, ◌<◌, String, ◌≡◌, refl, sym, ap, ◌∙◌, ◌≢◌, ◌↔◌,
  ◌⊎◌, inl, inr, Bool, true, false, not, ◌&&◌, ◌||◌, Option, none, some, List, [], ◌∷◌, ◌++◌, map,
  append-nil, append_assoc, arith, ltb, leb, nat_beq, nat_beq_iff, if◌then◌else◌, Bool-cases,
  Option-cases, is_some, length, is_empty, all, any, keep, All, length-append, All-append, Result,
  ok, err, ◌>>=◌, ◌>>◌, reject_if, >>=-eq-ok, is_ok, Eq, ◌==◌, nat_eq, list_eq, pair_eq, list_beq,
  list_beq_iff, pair_beq, pair_beq_iff, Map, lookup, has, insert, delete, IsMap, lookup-insert,
  lookup-delete, beq_refl, insert-IsMap, delete-IsMap, select, answer, lookup-select, select-IsMap,
  word, half_word, add64, sub64, mul64, is_neg, is_pos, div64, lt64, Text, codes, is_space,
  drop_while, trim, trim_space, lower, to_lower, has_prefix, contains, ℤ, pos, negsuc, pos_part,
  neg_part, diff, ◌+ℤ◌, ◌-ℤ◌, ◌≤ℤ◌, ltb_ℤ, +ℤ_parts, -ℤ_parts, take, drop, length-take, length-drop,
  take-append-take-drop, take-take, take_all, trim_prefix, trim_right,
}
use mini_sb_agent.Topology.{
  NodeSpec, inbound_tag, panel_node_type, one_of, vless_names, hysteria_names,
}

-- `map[string]map[string][2]int64`: tags, users and bytes up and down.
abbrev pub Delta : Type 0
Delta = Map Text (Map Text (ℕ × ℕ))

-- `map[string]bool`, every value of which is true.
abbrev pub Acked : Type 0
Acked = Map Text (Unit {0})

abbrev pub is_digit : ℕ → Bool
is_digit c = leb b'0' c && leb c b'9'

-- `isNumericUser`
unfoldable pub is_numeric_user : Text → Bool
is_numeric_user user = not (is_empty user) && all is_digit user

-- The inner loop of `commitDelta`.
unfoldable pub numeric_users : Map Text (ℕ × ℕ) → Map Text (ℕ × ℕ)
numeric_users users = select (λ user v. if is_numeric_user user then some v else none) users

-- `only != nil && !only[inbound]` skips the tag.
abbrev pub is_allowed : Option Acked → Text → Bool
is_allowed none tag = true
is_allowed (some only) tag = has tag only

abbrev pub committed_users : Option Acked → Text → Map Text (ℕ × ℕ) → Option (Map Text (ℕ × ℕ))
committed_users only tag users =
    if is_allowed only tag && not (is_empty (numeric_users users))
    then some (numeric_users users)
    else none

-- `commitDelta`
unfoldable pub commit_delta : Delta → Option Acked → Delta
commit_delta delta only = select (committed_users only) delta

-- What `PushTraffic` returns: the tags that the panel took, and whether there was an error.
pub record PushResult : Type 0 where
  pub acked : Acked
  pub failed : Bool

-- The test of `flush` before it pushes.
unfoldable pub has_traffic : Delta → Bool
unfolding is_numeric_user
has_traffic delta = any (λ e. any (λ f. is_numeric_user f.0) e.1) delta

-- What `flush` commits once the push has returned; `none` if it commits nothing.
unfoldable pub flushed : Delta → PushResult → Option Delta
unfolding commit_delta
flushed delta r =
    if r.failed
    then if is_empty r.acked then none else some (commit_delta delta (some r.acked))
    else some (commit_delta delta none)

-- `flush` from the snapshot to the argument of `Commit`, with the panel's `PushTraffic`.
unfoldable pub flush : (Delta → PushResult) → Delta → Option Delta
unfolding has_traffic flushed
flush push delta = if has_traffic delta then flushed delta (push delta) else none

abbrev pub add_amounts : Option (ℕ × ℕ) → ℕ × ℕ → ℕ × ℕ
add_amounts none v = (add64 0 v.0, add64 0 v.1)
add_amounts (some old) v = (add64 old.0 v.0, add64 old.1 v.1)

-- The inner loop of `flatten`, which is also that of `Client.PushTraffic`.
unfoldable pub flatten_users : Map Text (ℕ × ℕ) → Map Text (ℕ × ℕ) → Map Text (ℕ × ℕ)
unfolding is_numeric_user
flatten_users [] flat = flat
flatten_users ((user, v) ∷ users) flat =
    flatten_users users
      (if is_numeric_user user then insert user (add_amounts (lookup user flat) v) flat else flat)

unfoldable pub flatten_from : Delta → Map Text (ℕ × ℕ) → Map Text (ℕ × ℕ)
unfolding flatten_users
flatten_from [] flat = flat
flatten_from ((tag, users) ∷ delta) flat = flatten_from delta (flatten_users users flat)

-- `flatten`
abbrev pub flatten : Delta → Map Text (ℕ × ℕ)
flatten delta = flatten_from delta []

-- `strconv.Atoi` on a text of digits: an `int` has 64 bits.
unfoldable pub atoi_from : ℕ → Text → ℕ
atoi_from n [] = n
atoi_from n (c ∷ s) = atoi_from (n * 10 + (c - b'0')) s

unfoldable pub atoi : Text → Option ℕ
unfolding atoi_from
atoi s = if ltb (atoi_from 0 s) half_word then some (atoi_from 0 s) else none

-- `payload` of `Client.PushTraffic`; a user whose number overflows is left out.
unfoldable pub payload_from : Map Text (ℕ × ℕ) → Map ℕ (ℕ × ℕ) → Map ℕ (ℕ × ℕ)
unfolding atoi
payload_from [] p = p
payload_from ((user, v) ∷ flat) p =
    payload_from flat (elim (atoi user) [ none ↦ p | some uid ↦ insert uid v p ])

-- `Client`; the fields of the HTTP client are in `Http`.
pub record Client : Type 0 where
  pub base_url : Text
  pub token : Text
  pub node_id : Text
  pub node_type : Text
  pub client_tag : Text

abbrev pub Url : Type 0
Url = Text × Map Text Text

-- The network, which the source reaches by net/url and its own HTTP client: whether a URL can be
-- read, and the status of the answer to a POST, `none` for an error.
pub record Http : Type 0 where
  pub is_url : Text → Bool
  pub post : Url → Map ℕ (ℕ × ℕ) → Option ℕ

-- `NewNodeClient`, with `NewClient`
unfoldable pub new_node_client : Text → Text → NodeSpec → Client
unfolding trim_right
new_node_client base_url token n = record {
  base_url = trim_right (λ c. nat_beq c b'/') base_url;
  token = token;
  node_id = n.node_id;
  node_type = panel_node_type n;
  client_tag = inbound_tag n;
}

-- `newTopologyPanel`: a client for each node, with its node.
unfoldable pub new_topology_panel : Text → Text → List NodeSpec → List (Client × NodeSpec)
unfolding new_node_client
new_topology_panel base_url token nodes = map (λ n. (new_node_client base_url token n, n)) nodes

abbrev pub set_query : Text → Text → Map Text Text → Map Text Text
set_query name value q = if is_empty value then q else insert name value q

-- `Client.endpoint`
unfoldable pub endpoint : Http → Client → Text → Option Url
endpoint http c path =
    if is_empty c.base_url || not (http.is_url (c.base_url ++ path))
    then none
    else some (
      c.base_url ++ path,
      set_query (codes "node_type") c.node_type
          (set_query (codes "node_id") c.node_id (set_query (codes "token") c.token [])),
    )

-- `Client.matchesInbound`
unfoldable pub matches_inbound : Client → Text → Bool
matches_inbound c tag =
    let node_type = to_lower c.node_type in
    if not (is_empty c.client_tag)
    then tag == c.client_tag
    else if one_of node_type vless_names
    then tag == codes "vless-in"
    else if one_of node_type hysteria_names
    then tag == codes "hy2-in"
    else contains (to_lower tag) node_type

-- The first loop of `Client.PushTraffic`: the matching tags and their users' bytes.
unfoldable pub collect : Client → Delta → Map Text (ℕ × ℕ) → Acked → Map Text (ℕ × ℕ) × Acked
unfolding matches_inbound flatten_users
collect c [] flat acked = (flat, acked)
collect c ((tag, users) ∷ delta) flat acked =
    if matches_inbound c tag
    then collect c delta (flatten_users users flat) (insert tag tt acked)
    else collect c delta flat acked

abbrev pub push_failed : PushResult
push_failed = record { acked = []; failed = true }

abbrev pub push_accepted : Acked → PushResult
push_accepted acked = record { acked = acked; failed = false }

-- `resp.StatusCode/100 != 2`
abbrev pub posted : Option ℕ → Acked → PushResult
posted none acked = push_failed
posted (some status) acked = if status / 100 == 2 then push_accepted acked else push_failed

abbrev pub send : Http → Option Url → Map ℕ (ℕ × ℕ) → Acked → PushResult
send http none payload acked = push_failed
send http (some url) payload acked =
    if is_empty payload then push_accepted acked else posted (http.post url payload) acked

-- `Client.PushTraffic`
unfoldable pub push_client : Http → Client → Delta → PushResult
unfolding collect payload_from endpoint
push_client http c delta =
    let (flat, acked) = collect c delta [] [] in
    if is_empty flat
    then push_accepted acked
    else send http (endpoint http c (codes "/api/v1/server/UniProxy/push")) (payload_from flat [])
        acked

-- `topologyPanel.PushTraffic`: one push for each client with its node.
unfoldable pub push_topology : Http → List (Client × NodeSpec) → Delta → PushResult → PushResult
unfolding push_client
push_topology http [] delta r = r
push_topology http ((c, n) ∷ cs) delta r = push_topology http cs delta (
    if (push_client http c delta).failed
    then record { acked = r.acked; failed = true }
    else record { acked = insert (inbound_tag n) tt r.acked; failed = r.failed })

-- `for tag := range panelAcked { acked[tag] = true }`
unfoldable pub merge_acked : Acked → Acked → Acked
merge_acked [] acked = acked
merge_acked ((tag, _) ∷ more) acked = merge_acked more (insert tag tt acked)

-- `MultiPanel.PushTraffic` over the results of its panels' pushes; `nil` panels are left out.
unfoldable pub push_multi : List (Delta → PushResult) → Delta → PushResult → PushResult
push_multi [] delta r = r
push_multi (push ∷ pushes) delta r =
    let one = push delta in
    push_multi pushes delta
      (record { acked = merge_acked one.acked r.acked; failed = one.failed || r.failed })
