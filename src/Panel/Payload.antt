-- ===== src/Panel/Payload.antt =====
-- What a node's client sends: the loops of `Client.PushTraffic` in panelapi/client.go.
use mini_sb_agent.Base.{
  ℕ, ◌%◌, ◌≡◌, refl, inl, inr, false, Option, none, some, [], ◌∷◌, ◌++◌, arith, if◌then◌else◌,
  Option-cases, is_empty, nat_eq, list_eq, pair_eq, list_beq_iff, Map, lookup, insert, IsMap,
  lookup-insert, word, add64, Text, codes,
}
use mini_sb_agent.Topology.{NodeSpec, inbound_tag, tag_protocol, safe_tag_part}
use mini_sb_agent.Panel.{
  Delta, Acked, is_numeric_user, add_amounts, flatten_users, Client, new_node_client,
  matches_inbound, collect,
}
use mini_sb_agent.Panel.Commit.{entry, IsDelta}

-- The bytes of a user that are sent, as the sums of the source make them.
abbrev pub sent : Option (ℕ × ℕ) → Option (ℕ × ℕ)
sent none = none
sent (some v) = some (v.0 % word, v.1 % word)

abbrev added : Option (ℕ × ℕ) → Option (ℕ × ℕ) → Option (ℕ × ℕ)
added old none = old
added old (some v) = some (add_amounts old v)

lookup-flatten_users :
    (user : Text) (users flat : Map Text (ℕ × ℕ))
    → IsMap users
    → lookup user (flatten_users users flat) ≡ (
        if is_numeric_user user
        then added (lookup user flat) (lookup user users)
        else lookup user flat)
unfolding flatten_users lookup
lookup-flatten_users user [] flat h = ground arith
lookup-flatten_users user ((u, v) ∷ users) flat h =
    let flat' = if is_numeric_user u then insert u (add_amounts (lookup u flat) v) flat else flat in
    ground (
      arith,
      list_beq_iff u user,
      lookup-insert u user (add_amounts (lookup u flat) v) flat,
      lookup-flatten_users user users flat' h.1,
    )

abbrev pub own_users : Option (Map Text (ℕ × ℕ)) → Map Text (ℕ × ℕ) → Map Text (ℕ × ℕ)
own_users none flat = flat
own_users (some users) flat = flatten_users users flat

-- A client with a tag takes the users of this tag only.
pub collect-own :
    (c : Client) (delta : Delta) (flat : Map Text (ℕ × ℕ)) (acked : Acked)
    → is_empty c.client_tag ≡ false
    → IsMap delta
    → (collect c delta flat acked).0 ≡ own_users (lookup c.client_tag delta) flat
unfolding collect lookup matches_inbound
collect-own c [] flat acked e h = refl
collect-own c ((tag, users) ∷ delta) flat acked e h = ground (
  arith,
  list_beq_iff tag c.client_tag,
  h.0,
  collect-own c delta flat acked e h.1,
  collect-own c delta (flatten_users users flat) (insert tag tt acked) e h.1,
)

is_empty-append : (s t : Text) → is_empty t ≡ false → is_empty (s ++ t) ≡ false
is_empty-append [] t e = e
is_empty-append (c ∷ s) t e = refl

-- A tag is never empty: it is the cleaned tag of the node, or it has a dash.
pub inbound_tag-nonempty : (n : NodeSpec) → is_empty (inbound_tag n) ≡ false
unfolding inbound_tag
inbound_tag-nonempty n =
    let rest = codes "-" ++ (safe_tag_part n.node_id ++ codes "-in") in
    ground (arith, is_empty-append (tag_protocol n.node_type) rest refl)

add64-zero : (x : ℕ) → add64 0 x ≡ x % word
add64-zero x = omega arith

-- Of the traffic of all inbounds, the client of a node collects the bytes of the numeric users of the
-- node's own inbound, each user's as they are (as 64-bit patterns), and nothing of another inbound.
pub new_node_client-sends :
    (base_url token : Text) (n : NodeSpec) (delta : Delta) (user : Text)
    → IsDelta delta
    → lookup user (collect (new_node_client base_url token n) delta [] []).0
      ≡ (if is_numeric_user user then sent (entry (inbound_tag n) user delta) else none)
unfolding new_node_client lookup
new_node_client-sends base_url token n delta user (h, inner) =
    let c = new_node_client base_url token n in
    let own = collect-own c delta [] [] (inbound_tag-nonempty n) h in
    elim (Option-cases (lookup (inbound_tag n) delta)) [
      | inl missing ↦ ground (arith, own, missing)
      | inr (users, there) ↦ ground (
        arith,
        own,
        there,
        lookup-flatten_users user users [] (inner (inbound_tag n) users there),
      )
    ]
