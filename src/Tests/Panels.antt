-- ===== src/Tests/Panels.antt =====
-- Inputs for panelapi/sync.go and client.go: two nodes, and a panel that takes the traffic of one.
use mini_sb_agent.Base.{
  ℕ, ◌≡◌, refl, ◌≢◌, true, false, ◌&&◌, ◌||◌, none, some, List, [], ◌∷◌, arith, if◌then◌else◌,
  is_some, all, any, nat_eq, list_eq, pair_eq, list_beq, list_beq_iff, Map, lookup, has, insert,
  IsMap, select, Text, codes, to_lower,
}
use mini_sb_agent.Counter.{snapshot_delta, TrafficCounter}
use mini_sb_agent.Topology.{one_of, normalize_node_type, safe_tag_part, NodeSpec, inbound_tag}
use mini_sb_agent.Panel.{
  Delta, Acked, Client, Http, is_numeric_user, atoi, atoi_from, endpoint, flush, new_node_client,
  push_topology, push_accepted, push_client,
}
use mini_sb_agent.Panel.Commit.{entry, IsDelta}
use mini_sb_agent.Panel.Push.{all_accepted, is_accepted, entry_of, flush-push_topology}
use mini_sb_agent.Panel.Requests.{request, new_node_client-posts}
use mathlib.Core.Path.{subst}
use mini_sb_agent.Hook.{Hook, flush_hook, flush_hook-keeps, snapshot_deltas}
use mini_sb_agent.Tests.Topologies.{node, direct}

abbrev pub first : NodeSpec
first = node "21" "vless" direct

abbrev pub second_node : NodeSpec
second_node = node "22" "vless" direct

abbrev pub url : Text
url = codes "http://panel"

abbrev clients : List (Client × NodeSpec)
clients =
    (new_node_client url (codes "t") first, first)
    ∷ (new_node_client url (codes "t") second_node, second_node)
    ∷ []

-- The panel takes the traffic of user 7 only.
abbrev pub panel : Http
panel = record { is_url = λ u. true; post = λ u p. some (if has 7 p then 200 else 500) }

abbrev delta : Delta
delta =
    (codes "vless-21-in", (codes "7", (10, 20)) ∷ (codes "x", (1, 1)) ∷ [])
    ∷ (codes "vless-22-in", (codes "8", (3, 4)) ∷ [])
    ∷ []

delta-IsDelta : IsDelta delta
unfolding lookup list_beq
delta-IsDelta = ((refl, (refl, tt)), λ tag users e. ground arith)

flush-push_topology_example :
    entry_of
      (codes "vless-22-in")
      (codes "8")
      (flush (λ d. push_topology panel clients d (push_accepted [])) delta)
    ≡ (if is_numeric_user (codes "8")
          && (all_accepted panel delta clients
              || is_accepted panel delta clients (codes "vless-22-in"))
        then entry (codes "vless-22-in") (codes "8") delta
        else none)
flush-push_topology_example =
    flush-push_topology panel clients delta (codes "vless-22-in") (codes "8") delta-IsDelta

first_tag : inbound_tag first ≡ codes "vless-21-in"
unfolding inbound_tag safe_tag_part normalize_node_type one_of to_lower list_beq any
first_tag = refl

pub seven_numeric : is_numeric_user (codes "7") ≡ true
unfolding is_numeric_user all
seven_numeric = refl

x_other : is_numeric_user (codes "x") ≡ false
unfolding is_numeric_user all
x_other = refl

pub seven_number : atoi (codes "7") ≡ some 7
unfolding atoi atoi_from
seven_number = refl

eight_other : atoi (codes "7") ≢ some 8
eight_other e = ground (arith, seven_number, e)

-- The only numeric user of the first inbound is 7.
numeric_entry :
    (w : Text)
    → is_some (entry (codes "vless-21-in") w delta) ≡ true
    → is_numeric_user w ≡ true
    → w ≡ codes "7"
unfolding lookup list_beq
numeric_entry w present numeric =
    ground
      (arith, present, numeric, list_beq_iff (codes "7") w, list_beq_iff (codes "x") w, x_other)

seven_there : entry (codes "vless-21-in") (codes "7") delta ≡ some (10, 20)
unfolding lookup list_beq
seven_there = refl

new_node_client-posts_example :
    (body : Map ℕ (ℕ × ℕ)) × (acked : Acked) × ((http : Http)
      → push_client http (new_node_client url (codes "t") first) delta
        ≡ request http
            (endpoint http
              (new_node_client url (codes "t") first)
              (codes "/api/v1/server/UniProxy/push"))
            body
            acked)
    × (lookup 7 body ≡ some (10, 20))
    × (lookup 8 body ≡ none)
new_node_client-posts_example =
    new_node_client-posts url (codes "t") first delta (codes "7") 7 (10, 20) 8 delta-IsDelta
      seven_numeric seven_number
      (λ w present numeric number.
        numeric_entry w (subst (λ t. is_some (entry t w delta) ≡ true) first_tag present) numeric)
      (rw first_tag seven_there)
      (λ w present numeric number. eight_other (
        subst (λ u. atoi u ≡ some 8)
          (numeric_entry w (subst (λ t. is_some (entry t w delta) ≡ true) first_tag present)
            numeric)
          number))

-- A counter with one user, who has sent 10 bytes.
abbrev pub counter_of : Text → TrafficCounter
counter_of user = record {
  counters = (user, 0) ∷ [];
  storages =
      λ a. record { up_counter = 10; down_counter = 0; committed_up = 0; committed_down = 0 };
  next = 1;
}

abbrev pub hook : Hook
hook =
    (codes "vless-21-in", counter_of (codes "7"))
    ∷ (codes "vless-22-in", counter_of (codes "8"))
    ∷ []

pub hook-IsMap : IsMap hook
unfolding lookup list_beq
hook-IsMap = (refl, (refl, tt))

some_failed : all_accepted panel (snapshot_deltas hook) clients ≡ false
unfolding snapshot_deltas push_client lookup list_beq select all snapshot_delta new_node_client
    inbound_tag safe_tag_part normalize_node_type one_of to_lower insert
some_failed = refl

second_failed : is_accepted panel (snapshot_deltas hook) clients (codes "vless-22-in") ≡ false
unfolding snapshot_deltas push_client lookup list_beq select any snapshot_delta new_node_client
    inbound_tag safe_tag_part normalize_node_type one_of to_lower all insert
second_failed = refl

flush_hook-keeps_example :
    lookup
      (codes "vless-22-in")
      (flush_hook (λ d. push_topology panel clients d (push_accepted [])) hook)
    ≡ lookup (codes "vless-22-in") hook
flush_hook-keeps_example =
    flush_hook-keeps panel clients hook (codes "vless-22-in") hook-IsMap some_failed second_failed
