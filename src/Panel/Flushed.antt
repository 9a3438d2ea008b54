-- ===== src/Panel/Flushed.antt =====
-- What `flush` of panelapi/sync.go commits in topology mode is what the node's client posted.
use mini_sb_agent.Base.{
  ℕ, ◌≡◌, refl, sym, ap, ◌∙◌, inl, inr, true, Option, none, some, List, [], map, arith,
  if◌then◌else◌, Bool-cases, Option-cases, nat_eq, list_eq, pair_eq, Map, lookup, IsMap, answer,
  lookup-select, select-IsMap, Text,
}
use mathlib.Core.Path.{subst}
use mini_sb_agent.Topology.{NodeSpec, inbound_tag}
use mini_sb_agent.Topology.Valid.{Distinct}
use mini_sb_agent.Users.Manager.Groups.{Runs}
use mini_sb_agent.Counter.Rounds.{amount}
use mini_sb_agent.Panel.{
  Delta, Acked, PushResult, Http, is_numeric_user, numeric_users, atoi, committed_users,
  commit_delta, flushed, flush, new_node_client, new_topology_panel, push_topology, push_accepted,
}
use mini_sb_agent.Panel.Commit.{entry, IsDelta}
use mini_sb_agent.Panel.Push.{accepted, entry_of, flush-push_topology}
use mini_sb_agent.Panel.Payload.{sent}
use mini_sb_agent.Panel.Posted.{
  posted, IsOnlyName, posted-new_node_client, is_accepted-own, all_accepted-own,
}

numeric_users-IsMap : (users : Map Text (ℕ × ℕ)) → IsMap users → IsMap (numeric_users users)
unfolding numeric_users
numeric_users-IsMap users m =
    select-IsMap (λ v d. if is_numeric_user v then some d else none) users m

committed_users-IsMap :
    (only : Option Acked) (tag : Text) (users kept : Map Text (ℕ × ℕ))
    → IsMap users
    → committed_users only tag users ≡ some kept
    → IsMap kept
committed_users-IsMap only tag users kept m e =
    let whole = numeric_users-IsMap users m in
    let same : numeric_users users ≡ kept = ground (arith, e) in subst IsMap same whole

commit_delta-IsDelta :
    (delta : Delta) (only : Option Acked) → IsDelta delta → IsDelta (commit_delta delta only)
unfolding commit_delta
commit_delta-IsDelta delta only (m, inner) = (
  select-IsMap (committed_users only) delta m,
  λ tag kept e.
      let at = lookup-select (committed_users only) tag delta m in
      elim (Option-cases (lookup tag delta)) [
        | inl missing ↦ absurd (ground (arith, at, missing, e))
        | inr (users, there) ↦
            committed_users-IsMap only tag users kept (inner tag users there)
              (sym (at ∙ ap (answer (committed_users only) tag) there) ∙ e)
      ],
)

flushed-IsDelta :
    (delta : Delta) (r : PushResult) (d : Delta)
    → IsDelta delta
    → flushed delta r ≡ some d
    → IsDelta d
unfolding flushed
flushed-IsDelta delta r d h e =
    let part = commit_delta-IsDelta delta (some r.acked) h in
    let whole = commit_delta-IsDelta delta none h in
    elim (Bool-cases r.failed) [
      | inr taken ↦
          let same : commit_delta delta none ≡ d = ground (arith, taken, e) in
          subst IsDelta same whole
      | inl failed ↦
          let same : commit_delta delta (some r.acked) ≡ d = ground (arith, failed, e) in
          subst IsDelta same part
    ]

-- What is committed is a map of maps.
pub flush-IsDelta :
    (push : Delta → PushResult) (delta d : Delta)
    → IsDelta delta
    → flush push delta ≡ some d
    → IsDelta d
unfolding flush
flush-IsDelta push delta d h e =
    let now : flushed delta (push delta) ≡ some d = ground (arith, e) in
    flushed-IsDelta delta (push delta) d h now

module _ (http : Http) (base_url token : Text) (nodes : List NodeSpec) (n : NodeSpec)
    (distinct : Distinct (map inbound_tag nodes)) (runs : Runs n nodes) (delta : Delta)
    (is_delta : IsDelta delta) (user : Text) (uid : ℕ) (numeric : is_numeric_user user ≡ true)
    (number : atoi user ≡ some uid) (only : IsOnlyName (inbound_tag n) user uid delta)
    (patterns : sent (entry (inbound_tag n) user delta) ≡ entry (inbound_tag n) user delta) where
  -- The bytes of the user that are committed are those of the account that the client has posted.
  pub flush-posted :
      amount (
        entry_of (inbound_tag n) user (
          flush
            (λ d. push_topology http (new_topology_panel base_url token nodes) d (push_accepted []))
            delta))
      ≡ posted http delta (new_node_client base_url token n) uid
  flush-posted =
      let cs = new_topology_panel base_url token nodes in
      let committed =
        entry_of (inbound_tag n) user
          (flush (λ d. push_topology http cs d (push_accepted [])) delta) in
      let kept = flush-push_topology http cs delta (inbound_tag n) user is_delta in
      let own = is_accepted-own http base_url token delta nodes n distinct runs in
      let paid =
        posted-new_node_client http base_url token n delta is_delta user uid numeric number only in
      elim (Bool-cases (accepted http delta (new_node_client base_url token n))) [
        | inl taken ↦
            let now : committed ≡ entry (inbound_tag n) user delta =
              kept ∙ rw (numeric, own, taken) (ground arith) in
            ap amount now ∙ sym (paid ∙ rw taken (ap amount patterns))
        | inr refused ↦
            let rest = all_accepted-own http base_url token delta nodes n runs refused in
            let now : committed ≡ none = kept ∙ rw (numeric, own, refused, rest) (ground arith) in
            ap amount now ∙ sym (paid ∙ rw refused refl)
      ]
