-- ===== src/PanelServer/Store.antt =====
-- panelserver/store.go. Each method runs under the store's lock. What the methods draw from outside,
-- the time and a random revision, is an argument; times are numbers and the zero time is `none`.
pub mod Accounts
pub mod History
pub mod Effects
pub mod Published
use mini_sb_agent.Base.{
  ℕ, zero, suc, ◌+◌, ◌-◌, ◌*◌, ◌/◌, ◌%◌, ◌^◌, ◌≤◌, ◌<◌, String, ◌≡◌, refl, sym, ap, ◌∙◌, ◌≢◌, ◌↔◌,
  ◌⊎◌, inl, inr, Bool, true, false, not, ◌&&◌, ◌||◌, Option, none, some, List, [], ◌∷◌, ◌++◌, map,
  append-nil, append_assoc, arith, ltb, leb, nat_beq, nat_beq_iff, if◌then◌else◌, Bool-cases,
  Option-cases, is_some, length, is_empty, all, any, keep, All, length-append, All-append, Result,
  ok, err, ◌>>=◌, ◌>>◌, reject_if, >>=-eq-ok, is_ok, Eq, ◌==◌, nat_eq, list_eq, pair_eq, list_beq,
  list_beq_iff, pair_beq, pair_beq_iff, Map, lookup, has, insert, delete, IsMap, lookup-insert,
  lookup-delete, beq_refl, insert-IsMap, delete-IsMap, select, answer, lookup-select, select-IsMap,
  word, half_word, add64, sub64, mul64, is_neg, is_pos, div64, lt64, Text, codes, is_space,
  drop_while, trim, trim_space, lower, to_lower, has_prefix, contains, ℤ, pos, negsuc, pos_part,
  neg_part, diff, ◌+ℤ◌, ◌-ℤ◌, ◌≤ℤ◌, ltb_ℤ, +ℤ_parts, -ℤ_parts, take, drop, length-take, length-drop,
  take-append-take-drop, take-take, take_all,
}
use mini_sb_agent.Topology.{Topology, TopologyError, NodeSpec, key, node_key, validate}

pub record Agent : Type 0 where
  pub id : Text
  pub name : Text
  pub secret : Text
  pub created_at : Option ℕ
  pub seen_at : Option ℕ

pub record TopologyRecord : Type 0 where
  pub revision : Text
  pub etag : Text
  pub topology : Topology
  pub updated_at : ℕ

-- `int64` patterns
pub record Usage : Type 0 where
  pub upload : ℕ
  pub download : ℕ

-- agentID, nodeKey, userID
abbrev pub UsageKey : Type 0
UsageKey = Text × (Text × ℕ)

-- agentID, batchID
abbrev pub BatchKey : Type 0
BatchKey = Text × Text

pub record Store : Type 0 where
  pub agents : Map Text Agent
  pub topologies : Map Text TopologyRecord
  pub usage : Map UsageKey Usage
  pub batches : Map BatchKey (Unit {0})

-- `TrafficItem` and `TrafficPushRequest` of panelapi/control_plane.go
pub record TrafficItem : Type 0 where
  pub node_id : Text
  pub node_type : Text
  pub user_id : ℕ
  pub upload : ℕ
  pub download : ℕ

pub record TrafficPushRequest : Type 0 where
  pub batch_id : Text
  pub items : List TrafficItem

pub data StoreError : Type 0 where
  credentials_required agent_not_found batch_id_required no_assigned_topology : StoreError
  invalid_traffic_item node_not_assigned : StoreError
  invalid_topology : TopologyError → StoreError

-- `NewStore`
abbrev pub new_store : Store
new_store = record { agents = []; topologies = []; usage = []; batches = [] }

abbrev or_now : ℕ → Option ℕ → Option ℕ
or_now now none = some now
or_now now (some t) = some t

abbrev pub stamped : ℕ → Agent → Agent
stamped now agent = record agent { created_at = or_now now agent.created_at }

-- `PutAgent`
unfoldable pub put_agent : ℕ → Agent → Store → Result StoreError Unit × Store
put_agent now agent s =
    if is_empty agent.id || is_empty agent.secret
    then (err credentials_required, s)
    else (ok tt, record s { agents = insert agent.id (stamped now agent) s.agents })

-- The loop of `AgentBySecret`.
unfoldable pub find_secret : Text → Map Text Agent → Option Agent
find_secret secret [] = none
find_secret secret ((id, agent) ∷ agents) =
    if agent.secret == secret then some agent else find_secret secret agents

-- `AgentBySecret`
abbrev pub agent_by_secret : Text → Store → Option Agent
agent_by_secret secret s = find_secret secret s.agents

-- `publicAgent`
unfoldable pub public_agent : Agent → Agent
public_agent agent = record agent { secret = [] }

-- `Agents`
unfoldable pub agents_of : Store → List Agent
unfolding public_agent
agents_of s = map (λ e. public_agent e.1) s.agents

-- `PutTopology`, with the digest that makes the entity tag of a revision.
unfoldable pub put_topology :
    (Text → Text) → Text → ℕ → Text → Topology → Store → Result StoreError Unit × Store
put_topology digest revision now agent_id topology s = elim (validate topology) [
  | err e ↦ (err (invalid_topology e), s)
  | ok _ ↦ if not (has agent_id s.agents) then (err agent_not_found, s) else (
    ok tt,
    record s {
      topologies =
          insert agent_id
            (record {
              revision = revision;
              etag = codes "\"" ++ (digest revision ++ codes "\"");
              topology = topology;
              updated_at = now;
            })
            s.topologies;
    },
  )
]

-- `Topology`
abbrev pub topology_of : Text → Store → Option TopologyRecord
topology_of agent_id s = lookup agent_id s.topologies

abbrev pub no_usage : Usage
no_usage = record { upload = 0; download = 0 }

abbrev pub usage_or_none : Option Usage → Usage
usage_or_none none = no_usage
usage_or_none (some u) = u

-- The value of the map `usage` at a key: the zero `Usage` if there is none.
abbrev pub usage_at : UsageKey → Map UsageKey Usage → Usage
usage_at k m = usage_or_none (lookup k m)

-- `Usage`
unfoldable pub usage_of : Text → Text → Text → ℕ → Store → Usage
usage_of agent_id node_type node_id user_id s =
    usage_at (agent_id, (node_key node_type node_id, user_id)) s.usage

-- The keys of the nodes that the agent runs.
unfoldable pub owned_keys : List NodeSpec → Map Text (Unit {0})
owned_keys [] = []
owned_keys (n ∷ ns) = insert (key n) tt (owned_keys ns)

-- The checks of one item.
unfoldable pub check_item : Map Text (Unit {0}) → TrafficItem → Result StoreError Unit
check_item owned item = do
  reject_if
      (is_empty item.node_id
        || is_empty item.node_type
        || not (is_pos item.user_id)
        || is_neg item.upload
        || is_neg item.download)
      invalid_traffic_item
  reject_if (not (has (node_key item.node_type item.node_id) owned)) node_not_assigned

unfoldable pub check_items : Map Text (Unit {0}) → List TrafficItem → Result StoreError Unit
unfolding check_item
check_items owned [] = ok tt
check_items owned (item ∷ items) = check_item owned item >> check_items owned items

unfoldable pub add_usage : Usage → TrafficItem → Usage
add_usage u item = record {
  upload = add64 u.upload item.upload;
  download = add64 u.download item.download;
}

abbrev pub item_key : Text → TrafficItem → UsageKey
item_key agent_id item = (agent_id, (node_key item.node_type item.node_id, item.user_id))

-- The loop that books the items.
unfoldable pub book_items : Text → List TrafficItem → Map UsageKey Usage → Map UsageKey Usage
unfolding add_usage
book_items agent_id [] m = m
book_items agent_id (item ∷ items) m =
    let k = item_key agent_id item in
    book_items agent_id items (insert k (add_usage (usage_at k m) item) m)

abbrev pub touch : ℕ → Option Agent → Agent
touch now (some a) = record a { seen_at = some now }
touch now none = record { id = []; name = []; secret = []; created_at = none; seen_at = some now }

unfoldable pub book_batch : ℕ → Text → TrafficPushRequest → Store → Store
unfolding book_items
book_batch now agent_id payload s = record s {
  usage = book_items agent_id payload.items s.usage;
  batches = insert (agent_id, payload.batch_id) tt s.batches;
  agents = insert agent_id (touch now (lookup agent_id s.agents)) s.agents;
}

abbrev pub if_checked : Result StoreError Unit → Store → Store → Result StoreError Bool × Store
if_checked (err e) s s' = (err e, s)
if_checked (ok _) s s' = (ok true, s')

-- `ApplyTraffic` for an agent with the topology that is given.
unfoldable pub apply_assigned :
    ℕ → Text → TrafficPushRequest → Store → Option TopologyRecord → Result StoreError Bool × Store
unfolding check_items owned_keys book_batch
apply_assigned now agent_id payload s none = (err no_assigned_topology, s)
apply_assigned now agent_id payload s (some r) =
    if_checked (check_items (owned_keys r.topology.nodes) payload.items) s
      (book_batch now agent_id payload s)

-- `ApplyTraffic`: whether the batch was applied, or an error.
unfoldable pub apply_traffic :
    ℕ → Text → TrafficPushRequest → Store → Result StoreError Bool × Store
unfolding apply_assigned
apply_traffic now agent_id payload s =
    if is_empty payload.batch_id
    then (err batch_id_required, s)
    else if not (has agent_id s.agents)
    then (err agent_not_found, s)
    else if has (agent_id, payload.batch_id) s.batches
    then (ok false, s)
    else apply_assigned now agent_id payload s (lookup agent_id s.topologies)
