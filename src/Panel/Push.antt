-- ===== src/Panel/Push.antt =====
-- What the pushes of panelapi/client.go and topology_panel.go send and acknowledge, and what `flush`
-- commits of it.
use mini_sb_agent.Base.{
  ℕ, ◌≡◌, inl, inr, Bool, true, not, ◌&&◌, ◌||◌, Option, none, some, List, [], ◌∷◌, arith,
  if◌then◌else◌, Bool-cases, Option-cases, all, any, ◌==◌, nat_eq, list_eq, pair_eq, list_beq_iff,
  Map, lookup, has, insert, lookup-insert, Text,
}
use mini_sb_agent.Topology.{NodeSpec, inbound_tag}
use mini_sb_agent.Panel.{
  Delta, is_numeric_user, PushResult, has_traffic, flushed, flush, Client, Http, push_client,
  push_topology, push_accepted,
}
use mini_sb_agent.Panel.Commit.{entry, IsDelta, entry-commit_delta}

-- The push of a client went through.
abbrev pub accepted : Http → Delta → Client → Bool
accepted http delta c = not (push_client http c delta).failed

-- Some client of the inbound got its push through.
abbrev pub is_accepted : Http → Delta → List (Client × NodeSpec) → Text → Bool
is_accepted http delta cs tag = any (λ cn. accepted http delta cn.0 && inbound_tag cn.1 == tag) cs

abbrev pub all_accepted : Http → Delta → List (Client × NodeSpec) → Bool
all_accepted http delta cs = all (λ cn. accepted http delta cn.0) cs

pub push_topology-acked :
    (http : Http) (cs : List (Client × NodeSpec)) (delta : Delta) (r : PushResult) (tag : Text)
    → has tag (push_topology http cs delta r).acked
      ≡ (has tag r.acked || is_accepted http delta cs tag)
unfolding push_topology any
push_topology-acked http [] delta r tag = ground arith
push_topology-acked http ((c, n) ∷ cs) delta r tag =
    elim (Bool-cases (push_client http c delta).failed) [
      | inl bad ↦
          ground (
            arith,
            push_topology-acked http cs delta (record { acked = r.acked; failed = true }) tag,
          )
      | inr good ↦ ground (
        arith,
        lookup-insert (inbound_tag n) tag tt r.acked,
        push_topology-acked http cs delta
            (record { acked = insert (inbound_tag n) tt r.acked; failed = r.failed }) tag,
      )
    ]

pub push_topology-failed :
    (http : Http) (cs : List (Client × NodeSpec)) (delta : Delta) (r : PushResult)
    → (push_topology http cs delta r).failed ≡ (r.failed || not (all_accepted http delta cs))
unfolding push_topology all
push_topology-failed http [] delta r = ground arith
push_topology-failed http ((c, n) ∷ cs) delta r =
    elim (Bool-cases (push_client http c delta).failed) [
      | inl bad ↦
          ground
            (arith, push_topology-failed http cs delta (record { acked = r.acked; failed = true }))
      | inr good ↦ ground (
        arith,
        push_topology-failed http cs delta
            (record { acked = insert (inbound_tag n) tt r.acked; failed = r.failed }),
      )
    ]

-- The bytes of a user that `flush` commits.
abbrev pub entry_of : Text → Text → Option Delta → Option (ℕ × ℕ)
entry_of tag user none = none
entry_of tag user (some delta) = entry tag user delta

numeric_entry :
    (user : Text) (users : Map Text (ℕ × ℕ)) (v : ℕ × ℕ)
    → lookup user users ≡ some v
    → is_numeric_user user ≡ true
    → any (λ f. is_numeric_user f.0) users ≡ true
unfolding lookup any
numeric_entry user [] v e n = cc
numeric_entry user ((u, w) ∷ users) v e n =
    ground (arith, list_beq_iff u user, numeric_entry user users v)

has_traffic-entry :
    (tag user : Text) (delta : Delta) (v : ℕ × ℕ)
    → entry tag user delta ≡ some v
    → is_numeric_user user ≡ true
    → has_traffic delta ≡ true
unfolding has_traffic any lookup
has_traffic-entry tag user [] v e n = cc
has_traffic-entry tag user ((t, users) ∷ delta) v e n =
    ground
      (arith, list_beq_iff t tag, numeric_entry user users v, has_traffic-entry tag user delta v)

-- What `flush` commits for a panel with one client for each node: the bytes of the numeric users of
-- each inbound whose node's push went through, and no other byte as long as some push failed. When
-- all pushes go through, the bytes of the inbounds that belong to no node are committed as well.
pub flush-push_topology :
    (http : Http) (cs : List (Client × NodeSpec)) (delta : Delta) (tag user : Text)
    → IsDelta delta
    → entry_of tag user (flush (λ d. push_topology http cs d (push_accepted [])) delta) ≡ (
        if is_numeric_user user && (all_accepted http delta cs || is_accepted http delta cs tag)
        then entry tag user delta
        else none)
unfolding flush flushed lookup
flush-push_topology http cs delta tag user h =
    let r = push_topology http cs delta (push_accepted []) in
    let allowed = entry-commit_delta tag user delta (some r.acked) h in
    let every = entry-commit_delta tag user delta none h in
    let acked = push_topology-acked http cs delta (push_accepted []) tag in
    let failed = push_topology-failed http cs delta (push_accepted []) in
    elim (Option-cases (entry tag user delta)) [
      | inl missing ↦ ground (arith, allowed, every, missing)
      | inr (v, there) ↦ elim (Bool-cases (is_numeric_user user)) [
        | inl numeric ↦
            let traffic = has_traffic-entry tag user delta v there numeric in
            ground (arith, allowed, every, there, numeric, traffic, acked, failed)
        | inr other ↦ ground (arith, allowed, every, other)
      ]
    ]
