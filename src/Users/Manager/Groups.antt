-- ===== src/Users/Manager/Groups.antt =====
-- `groupNodeUsers` of cmd/mini-sb-agent/node_runtime.go.
use mini_sb_agent.Base.{
  ◌≡◌, refl, ◌∙◌, ◌≢◌, ◌⊎◌, inl, inr, false, some, List, [], ◌∷◌, map, arith, All, ok, ◌==◌, nat_eq,
  list_eq, pair_eq, list_beq_iff, Map, lookup, insert, lookup-insert, beq_refl, Text,
}
use mini_sb_agent.Topology.{NodeSpec, Topology, key, inbound_tag, validate}
use mini_sb_agent.Topology.Valid.{Distinct, validate_iff}
use mini_sb_agent.Users.{User}
use mini_sb_agent.Users.Manager.Inbounds.{found_users, group_node_users}

-- The node is in the list.
abbrev pub Runs : NodeSpec → List NodeSpec → Type 0
Runs n [] = ⊥
Runs n (m ∷ ns) = (m ≡ n) ⊎ Runs n ns

lookup-group_node_users :
    (ns : List NodeSpec) (by_node out : Map Text (List User)) (tag : Text)
    → All (λ t. tag ≢ t) (map inbound_tag ns)
    → lookup tag (group_node_users ns by_node out) ≡ lookup tag out
unfolding group_node_users
lookup-group_node_users [] by_node out tag h = refl
lookup-group_node_users (n ∷ ns) by_node out tag h =
    let us = found_users (lookup (key n) by_node) in
    let differs : (inbound_tag n == tag) ≡ false =
      ground (arith, h.0, list_beq_iff (inbound_tag n) tag) in
    lookup-group_node_users ns by_node (insert (inbound_tag n) us out) tag h.1
    ∙ (lookup-insert (inbound_tag n) tag us out ∙ rw differs refl)

group_node_users-own :
    (ns : List NodeSpec) (by_node out : Map Text (List User)) (n : NodeSpec)
    → Distinct (map inbound_tag ns)
    → Runs n ns
    → lookup (inbound_tag n) (group_node_users ns by_node out)
      ≡ some (found_users (lookup (key n) by_node))
unfolding group_node_users
group_node_users-own [] by_node out n d r = absurd r
group_node_users-own (m ∷ ns) by_node out n d (inr later) =
    group_node_users-own ns by_node
      (insert (inbound_tag m) (found_users (lookup (key m) by_node)) out) n d.1 later
group_node_users-own (m ∷ ns) by_node out n d (inl here) =
    let us = found_users (lookup (key m) by_node) in
    let kept =
      lookup-group_node_users ns by_node (insert (inbound_tag m) us out) (inbound_tag m) d.0 in
    let own : lookup (inbound_tag m) (group_node_users (m ∷ ns) by_node out) ≡ some us =
      kept
      ∙ (lookup-insert (inbound_tag m) (inbound_tag m) us out
          ∙ rw (beq_refl (inbound_tag m)) refl) in
    rw (← here) own

-- The inbound of each node of a topology that `Validate` accepts gets the users that the panel has
-- for this node, and no other node's.
pub group_node_users-validate :
    (t : Topology) (by_node : Map Text (List User)) (n : NodeSpec)
    → validate t ≡ ok tt
    → Runs n t.nodes
    → lookup (inbound_tag n) (group_node_users t.nodes by_node [])
      ≡ some (found_users (lookup (key n) by_node))
group_node_users-validate t by_node n e r =
    group_node_users-own t.nodes by_node [] n ((validate_iff t).0 e).tags_distinct r
