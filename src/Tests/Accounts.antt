-- ===== src/Tests/Accounts.antt =====
-- Inputs for the users of cmd/mini-sb-agent: a user whose password changes, and one who leaves.
use mini_sb_agent.Base.{
  arith, nat_beq_iff, to_lower, ℕ, ◌≡◌, refl, inl, true, none, some, List, [], ◌∷◌, if◌then◌else◌,
  ok, nat_eq, list_eq, pair_eq, list_beq, Map, lookup, has, insert, Text, codes,
}
use mini_sb_agent.Topology.{
  outbound_tag, safe_tag_part, node_key, check_outbound, normalize_node_type, one_of,
  is_valid_node_id, NodeSpec, validate, key, inbound_tag,
}
use mini_sb_agent.Users.Manager.Groups.{group_node_users-validate}
use mini_sb_agent.Tests.Topologies.{node, direct, two_nodes}
use mini_sb_agent.Users.{users_by_id_from, mbps_to_bytes, User}
use mini_sb_agent.Users.Manager.{UserManager, no_limiter, LimiterPair, new_user_manager}
use mini_sb_agent.Users.Manager.Inbounds.{found_users, group_node_users, commit_users}
use mini_sb_agent.Users.Manager.Limits.{old_or, limiters-commit_users}
use mini_sb_agent.Users.Manager.Rates.{IsSound, RunsAt, commit_users-RunsAt}

abbrev user : ℕ → Text → ℕ → User
user id password speed_limit = record {
  id = id;
  uuid = codes "u";
  password = password;
  name = [];
  speed_limit = speed_limit;
}

abbrev old_users : Map ℕ User
old_users = (7, user 7 (codes "p") 0) ∷ (8, user 8 (codes "q") 0) ∷ []

abbrev next_users : List User
next_users = user 7 (codes "new") 5 ∷ []

abbrev by_inbound : Map Text (List User)
by_inbound = (codes "vless-in", next_users) ∷ []

limiters-commit_users_example :
    (p : LimiterPair) × (lookup 7 (commit_users true 3 by_inbound (new_user_manager 100 1)).limiters
      ≡ (if has 7 (commit_users true 3 by_inbound (new_user_manager 100 1)).users
          then some (old_or p (lookup 7 (new_user_manager 100 1).limiters))
          else none))
limiters-commit_users_example = limiters-commit_users 3 by_inbound (new_user_manager 100 1) 7

abbrev by_node : Map Text (List User)
by_node =
    (codes "vless:1", user 7 (codes "p") 0 ∷ [])
    ∷ (codes "hysteria:2", user 7 (codes "p") 0 ∷ [])
    ∷ []

abbrev first_node : NodeSpec
first_node = node "21" " VLESS-Reality" direct

two_nodes_valid : validate two_nodes ≡ ok tt
unfolding validate is_valid_node_id one_of list_beq normalize_node_type to_lower lookup
    check_outbound insert node_key inbound_tag safe_tag_part outbound_tag
two_nodes_valid = refl

group_node_users-validate_example :
    lookup (inbound_tag first_node) (group_node_users two_nodes.nodes by_node [])
    ≡ some (found_users (lookup (key first_node) by_node))
group_node_users-validate_example =
    group_node_users-validate two_nodes by_node first_node two_nodes_valid (inl refl)

-- A manager with one user, whose limiters lie at 0 and 1.
abbrev manager : UserManager
manager = record {
  users = (7, user 7 (codes "p") 0) ∷ [];
  by_secret = [];
  by_inbound = [];
  node_limit = none;
  limiters = (7, record { rx = 0; tx = 1 }) ∷ [];
  heap = λ a. no_limiter;
  next = 2;
}

manager-IsSound : IsSound manager
unfolding lookup
manager-IsSound = record {
  below = λ id p e. ground arith;
  apart = λ i j a p q e f x y. ground (arith, nat_beq_iff 7 i, nat_beq_iff 7 j);
  opens = λ id p e. (refl, refl);
}

user_after : lookup 7 (commit_users true 3 by_inbound manager).users ≡ some (user 7 (codes "new") 5)
unfolding commit_users lookup users_by_id_from insert
user_after = refl

commit_users-RunsAt_example :
    IsSound (commit_users true 3 by_inbound manager)
    × RunsAt (commit_users true 3 by_inbound manager) 7 (mbps_to_bytes 5)
commit_users-RunsAt_example =
    commit_users-RunsAt 3 by_inbound manager 7 (user 7 (codes "new") 5) manager-IsSound user_after
