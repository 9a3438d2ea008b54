-- ===== src/PanelServer/Store/Accounts.antt =====
-- What `ApplyTraffic` of panelserver/store.go books, and when.
use mini_sb_agent.Base.{
  ℕ, ◌+◌, ◌%◌, ◌≡◌, refl, ap, ◌⊎◌, inl, inr, Bool, true, false, Option, none, some, List, [], ◌∷◌,
  map, arith, if◌then◌else◌, Bool-cases, is_empty, All, Result, ok, err, >>=-eq-ok, ◌==◌, nat_eq,
  list_eq, pair_eq, list_beq_iff, pair_beq_iff, Map, lookup, has, insert, lookup-insert, word,
  is_neg, is_pos, Text,
}
use mini_sb_agent.Topology.{NodeSpec, key, node_key}
use mini_sb_agent.PanelServer.Store.{
  Store, Usage, UsageKey, TrafficItem, TrafficPushRequest, StoreError, usage_at, owned_keys,
  check_item, check_items, add_usage, item_key, book_items, book_batch, if_checked, apply_assigned,
  apply_traffic, TopologyRecord,
}

-- `u'` is `u` with amounts added, modulo `2 ^ 64`.
abbrev pub Adds : ℕ × ℕ → Usage → Usage → Type 0
Adds d u u' =
    (u'.upload % word ≡ (u.upload + d.0) % word) × (u'.download % word ≡ (u.download + d.1) % word)

-- What an item puts on an account, up and down, and what a list of items does.
pub amount : UsageKey → Text → TrafficItem → ℕ × ℕ
amount k agent_id item =
    if item_key agent_id item == k then (item.upload, item.download) else (0, 0)

pub booked : UsageKey → Text → List TrafficItem → ℕ × ℕ
unfolding amount
booked k agent_id [] = (0, 0)
booked k agent_id (item ∷ items) =
    let rest = booked k agent_id items in
    let d = amount k agent_id item in (d.0 + rest.0, d.1 + rest.1)

module _ (k : UsageKey) (a : Text) where
  book_item : TrafficItem → Map UsageKey Usage → Map UsageKey Usage
  book_item item m = insert (item_key a item) (add_usage (usage_at (item_key a item) m) item) m

  book_item-Adds :
      (item : TrafficItem) (m : Map UsageKey Usage)
      → Adds (amount k a item) (usage_at k m) (usage_at k (book_item item m))
  unfolding book_item amount add_usage
  book_item-Adds item m =
      let j = item_key a item in
      let at = lookup-insert j k (add_usage (usage_at j m) item) m in
      elim (Bool-cases (j == k)) [
        | inl same ↦
            let e : j ≡ k = (pair_beq_iff j k).0 same in
            let l : lookup j m ≡ lookup k m = ap (λ x. lookup x m) e in
            rw (at, same, l) (omega arith)
        | inr other ↦ rw (at, other) (omega arith)
      ]

  pub book_items-Adds :
      (items : List TrafficItem) (m : Map UsageKey Usage)
      → Adds (booked k a items) (usage_at k m) (usage_at k (book_items a items m))
  unfolding booked book_items book_item
  book_items-Adds [] m = omega arith
  book_items-Adds (item ∷ items) m =
      let first = book_item-Adds item m in
      let ih = book_items-Adds items (book_item item m) in omega (arith, first, ih)

-- `x` is one of the entries.
abbrev pub In : Text → List Text → Type 0
In x [] = ⊥
In x (y ∷ ys) = (y ≡ x) ⊎ In x ys

has-owned_keys : (k : Text) (ns : List NodeSpec) → has k (owned_keys ns) ≡ true → In k (map key ns)
unfolding owned_keys lookup
has-owned_keys k [] h = cc
has-owned_keys k (n ∷ ns) h =
    ground (
      arith,
      lookup-insert (key n) k tt (owned_keys ns),
      list_beq_iff (key n) k,
      has-owned_keys k ns,
    )

-- The item names a node of the list, by protocol and id, and a user, and its amounts are not
-- negative.
abbrev pub IsBookable : List NodeSpec → TrafficItem → Type 0
IsBookable ns item =
    In (node_key item.node_type item.node_id) (map key ns)
    × (is_pos item.user_id ≡ true)
    × (is_neg item.upload ≡ false)
    × (is_neg item.download ≡ false)

check_item_sound :
    (ns : List NodeSpec) (item : TrafficItem)
    → check_item (owned_keys ns) item ≡ ok tt
    → IsBookable ns item
unfolding check_item
check_item_sound ns item h =
    ground (arith, has-owned_keys (node_key item.node_type item.node_id) ns)

check_items_sound :
    (ns : List NodeSpec) (items : List TrafficItem)
    → check_items (owned_keys ns) items ≡ ok tt
    → All (IsBookable ns) items
unfolding check_items
check_items_sound ns [] h = tt
check_items_sound ns (item ∷ items) h =
    let (u, p, q) = >>=-eq-ok (check_item (owned_keys ns) item) _ h in
    (check_item_sound ns item p, check_items_sound ns items q)

abbrev pub nodes_of : Option TopologyRecord → List NodeSpec
nodes_of none = []
nodes_of (some r) = r.topology.nodes

-- What `ApplyTraffic` may have done to a store, by its answer. An error, or `false` for a batch seen
-- before, leaves the store as it was. `true` means that the batch was new and now counts as seen,
-- that each item names a node of the agent's topology, and that every account has grown by what the
-- items put on it.
abbrev pub Outcome : Text → TrafficPushRequest → Store → Result StoreError Bool × Store → Type 0
Outcome a p s (err e, s') = s' ≡ s
Outcome a p s (ok false, s') = (s' ≡ s) × (has (a, p.batch_id) s.batches ≡ true)
Outcome a p s (ok true, s') =
    (has (a, p.batch_id) s.batches ≡ false)
    × (s'.batches ≡ insert (a, p.batch_id) tt s.batches)
    × (s'.topologies ≡ s.topologies)
    × All (IsBookable (nodes_of (lookup a s.topologies))) p.items
    × ((k : UsageKey) → Adds (booked k a p.items) (usage_at k s.usage) (usage_at k s'.usage))

module _ (now : ℕ) (a : Text) (p : TrafficPushRequest) (s : Store) where
  if_checked-Outcome :
      (r : TopologyRecord) (c : Result StoreError Unit)
      → check_items (owned_keys r.topology.nodes) p.items ≡ c
      → lookup a s.topologies ≡ some r
      → has (a, p.batch_id) s.batches ≡ false
      → Outcome a p s (if_checked c s (book_batch now a p s))
  unfolding book_batch
  if_checked-Outcome r (err e) h q new = refl
  if_checked-Outcome r (ok _) h q new = (
    new,
    refl,
    refl,
    rw q (check_items_sound r.topology.nodes p.items h),
    λ k. book_items-Adds k a p.items s.usage,
  )

  apply_assigned-Outcome :
      (o : Option TopologyRecord)
      → lookup a s.topologies ≡ o
      → has (a, p.batch_id) s.batches ≡ false
      → Outcome a p s (apply_assigned now a p s o)
  unfolding apply_assigned
  apply_assigned-Outcome none q new = refl
  apply_assigned-Outcome (some r) q new = if_checked-Outcome r _ refl q new

  -- `ApplyTraffic` applies a batch whole or not at all. An error, or the answer `false` for a batch
  -- seen before, leaves the store as it was. With the answer `true` the batch was new and now counts
  -- as seen, each item names a node of the agent's topology, and every account has grown by what the
  -- items put on it, modulo `2 ^ 64`.
  pub apply_traffic-Outcome : Outcome a p s (apply_traffic now a p s)
  unfolding apply_traffic
  apply_traffic-Outcome = elim (Bool-cases (is_empty p.batch_id)) [
    | inl empty ↦ rw empty refl
    | inr named ↦ elim (Bool-cases (has a s.agents)) [
      | inr unknown ↦ rw (named, unknown) refl
      | inl known ↦ elim (Bool-cases (has (a, p.batch_id) s.batches)) [
        | inl seen ↦ rw (named, known, seen) (refl, seen)
        | inr new ↦ rw (named, known, new) (apply_assigned-Outcome _ refl new)
      ]
    ]
  ]
