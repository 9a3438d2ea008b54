-- ===== src/Topology/Valid.antt =====
-- What `Validate` of panelapi/topology.go accepts, said without its loop.
use mini_sb_agent.Base.{
  ℕ, ◌+◌, ◌≡◌, refl, ◌≢◌, ◌↔◌, ◌⊎◌, true, false, List, [], ◌∷◌, map, arith, All, ok, >>=-eq-ok,
  nat_eq, list_eq, pair_eq, list_beq_iff, Map, lookup, has, insert, lookup-insert, Text, codes,
}
use mini_sb_agent.Topology.{
  NodeSpec, OutboundSpec, Topology, Seen, key, inbound_tag, outbound_tag, is_valid_node_id,
  is_supported_type, check_outbound, check_node, check_nodes, validate, outbound_type, one_of,
  shadowsocks_names, has_shadowsocks_fields,
}

-- No entry equals another.
abbrev pub Distinct {ℓ} : {A : Type ℓ} → List A → Type ℓ
Distinct [] = Unit
Distinct (x ∷ xs) = All (λ y. x ≢ y) xs × Distinct xs

-- The conditions on an outbound.
abbrev pub IsOutbound : OutboundSpec → Type 0
IsOutbound o =
    (outbound_type o ≡ codes "direct")
    ⊎ ((one_of (outbound_type o) shadowsocks_names ≡ true) × (has_shadowsocks_fields o ≡ true))

-- The conditions on one node by itself.
pub record IsNode (n : NodeSpec) : Type 0 where
  pub id_safe : is_valid_node_id n.node_id ≡ true
  pub type_supported : is_supported_type n.node_type ≡ true
  pub outbound_valid : IsOutbound n.outbound

pub record IsTopology (t : Topology) : Type 0 where
  pub nonempty : t.nodes ≢ []
  pub nodes_valid : All IsNode t.nodes
  pub keys_distinct : Distinct (map key t.nodes)
  pub tags_distinct : Distinct (map inbound_tag t.nodes)
  pub outbound_tags_distinct : Distinct (map outbound_tag t.nodes)

abbrev Absent : Map Text (Unit {0}) → List Text → Type 0
Absent m = All (λ x. has x m ≡ false)

-- No name is in the set, or comes twice.
abbrev Unseen : Map Text (Unit {0}) → List Text → Type 0
Unseen m [] = Unit
Unseen m (x ∷ xs) = (has x m ≡ false) × Unseen (insert x tt m) xs

Absent-insert :
    (m : Map Text (Unit {0})) (k : Text) (xs : List Text)
    → Absent (insert k tt m) xs
    → Absent m xs × All (λ y. k ≢ y) xs
Absent-insert m k [] h = (tt, tt)
Absent-insert m k (x ∷ xs) h =
    let (p, q) = Absent-insert m k xs h.1 in
    (
      (ground (arith, lookup-insert k x tt m, h.0), p),
      (λ e. ground (arith, lookup-insert k x tt m, h.0, list_beq_iff k x), q),
    )

insert-Absent :
    (m : Map Text (Unit {0})) (k : Text) (xs : List Text)
    → Absent m xs
    → All (λ y. k ≢ y) xs
    → Absent (insert k tt m) xs
insert-Absent m k [] h d = tt
insert-Absent m k (x ∷ xs) h d = (
  ground (arith, lookup-insert k x tt m, h.0, d.0, list_beq_iff k x),
  insert-Absent m k xs h.1 d.1,
)

Unseen-Distinct :
    (m : Map Text (Unit {0})) (xs : List Text) → Unseen m xs → Absent m xs × Distinct xs
Unseen-Distinct m [] h = (tt, tt)
Unseen-Distinct m (x ∷ xs) h =
    let (p, q) = Unseen-Distinct (insert x tt m) xs h.1 in
    let (a, b) = Absent-insert m x xs p in ((h.0, a), (b, q))

Distinct-Unseen :
    (m : Map Text (Unit {0})) (xs : List Text) → Absent m xs → Distinct xs → Unseen m xs
Distinct-Unseen m [] h d = tt
Distinct-Unseen m (x ∷ xs) h d =
    (h.0, Distinct-Unseen (insert x tt m) xs (insert-Absent m x xs h.1 d.0) d.1)

Absent-empty : (xs : List Text) → Absent [] xs
unfolding lookup
Absent-empty [] = tt
Absent-empty (x ∷ xs) = (refl, Absent-empty xs)

check_outbound_sound : (i : ℕ) (o : OutboundSpec) → check_outbound i o ≡ ok tt → IsOutbound o
unfolding check_outbound
check_outbound_sound i o h = ground (arith, list_beq_iff (outbound_type o) (codes "direct"))

check_outbound_complete : (i : ℕ) (o : OutboundSpec) → IsOutbound o → check_outbound i o ≡ ok tt
unfolding check_outbound
check_outbound_complete i o h = ground (arith, list_beq_iff (outbound_type o) (codes "direct"))

abbrev with_node : NodeSpec → Seen → Seen
with_node n seen = record {
  keys = insert (key n) tt seen.keys;
  tags = insert (inbound_tag n) tt seen.tags;
  outbound_tags = insert (outbound_tag n) tt seen.outbound_tags;
}

abbrev IsNew : NodeSpec → Seen → Type 0
IsNew n seen =
    (has (key n) seen.keys ≡ false)
    × (has (inbound_tag n) seen.tags ≡ false)
    × (has (outbound_tag n) seen.outbound_tags ≡ false)

check_node_sound :
    (i : ℕ) (n : NodeSpec) (seen seen' : Seen)
    → check_node i n seen ≡ ok seen'
    → IsNode n × IsNew n seen × (seen' ≡ with_node n seen)
unfolding check_node
check_node_sound i n seen seen' h = ground (arith, check_outbound_sound i n.outbound)

check_node_complete :
    (i : ℕ) (n : NodeSpec) (seen : Seen)
    → IsNode n
    → IsNew n seen
    → check_node i n seen ≡ ok (with_node n seen)
unfolding check_node
check_node_complete i n seen v new =
    rw
      (
        v.id_safe,
        v.type_supported,
        new.0,
        new.1,
        new.2,
        check_outbound_complete i n.outbound v.outbound_valid,
      )
      refl

abbrev Accepts : Seen → List NodeSpec → Type 0
Accepts seen ns =
    All IsNode ns
    × Unseen seen.keys (map key ns)
    × Unseen seen.tags (map inbound_tag ns)
    × Unseen seen.outbound_tags (map outbound_tag ns)

check_nodes_sound :
    (i : ℕ) (ns : List NodeSpec) (seen : Seen) → check_nodes i ns seen ≡ ok tt → Accepts seen ns
unfolding check_nodes
check_nodes_sound i [] seen h = (tt, tt, tt, tt)
check_nodes_sound i (n ∷ ns) seen h =
    let (seen', p, q) = >>=-eq-ok (check_node i n seen) (check_nodes (i + 1) ns) h in
    let (v, new, e) = check_node_sound i n seen seen' p in
    let (a, b, c, d) = check_nodes_sound (i + 1) ns (with_node n seen) (rw e at q) in
    ((v, a), (new.0, b), (new.1, c), (new.2, d))

check_nodes_complete :
    (i : ℕ) (ns : List NodeSpec) (seen : Seen) → Accepts seen ns → check_nodes i ns seen ≡ ok tt
unfolding check_nodes
check_nodes_complete i [] seen h = refl
check_nodes_complete i (n ∷ ns) seen ((v, a), (x, b), (y, c), (z, d)) =
    rw (check_node_complete i n seen v (x, y, z))
      (check_nodes_complete (i + 1) ns (with_node n seen) (a, b, c, d))

-- The conditions on a list of nodes that is not empty.
abbrev Fits : List NodeSpec → Type 0
Fits ns =
    All IsNode ns
    × Distinct (map key ns)
    × Distinct (map inbound_tag ns)
    × Distinct (map outbound_tag ns)

no_names : Seen
no_names = record { keys = []; tags = []; outbound_tags = [] }

Accepts-Fits : (ns : List NodeSpec) → Accepts no_names ns ↔ Fits ns
unfolding no_names
Accepts-Fits ns = (
  λ h. (
    h.0,
    (Unseen-Distinct [] (map key ns) h.1).1,
    (Unseen-Distinct [] (map inbound_tag ns) h.2).1,
    (Unseen-Distinct [] (map outbound_tag ns) h.3).1,
  ),
  λ h. (
    h.0,
    Distinct-Unseen [] (map key ns) (Absent-empty (map key ns)) h.1,
    Distinct-Unseen [] (map inbound_tag ns) (Absent-empty (map inbound_tag ns)) h.2,
    Distinct-Unseen [] (map outbound_tag ns) (Absent-empty (map outbound_tag ns)) h.3,
  ),
)

validate_nodes_sound :
    (ns : List NodeSpec)
    → validate (record { nodes = ns }) ≡ ok tt
    → IsTopology (record { nodes = ns })
unfolding validate no_names
validate_nodes_sound [] h = cc
validate_nodes_sound (n ∷ ns) h =
    let (a, b, c, d) = (Accepts-Fits (n ∷ ns)).0 (check_nodes_sound 0 (n ∷ ns) no_names h) in
    record {
      nonempty = λ e. cc;
      nodes_valid = a;
      keys_distinct = b;
      tags_distinct = c;
      outbound_tags_distinct = d;
    }

validate_nodes_complete :
    (ns : List NodeSpec)
    → IsTopology (record { nodes = ns })
    → validate (record { nodes = ns }) ≡ ok tt
unfolding validate no_names
validate_nodes_complete [] h = absurd (h.nonempty refl)
validate_nodes_complete (n ∷ ns) h = check_nodes_complete 0 (n ∷ ns) no_names (
    (Accepts-Fits (n ∷ ns)).1
      (h.nodes_valid, h.keys_distinct, h.tags_distinct, h.outbound_tags_distinct))

-- `Validate` accepts a topology exactly if it has a node, each node is well formed by itself, and
-- no two nodes share a key, an inbound tag or an outbound tag.
pub validate_iff : (t : Topology) → (validate t ≡ ok tt) ↔ IsTopology t
validate_iff t = (validate_nodes_sound t.nodes, validate_nodes_complete t.nodes)
