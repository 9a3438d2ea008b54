-- ===== src/Sync/Pruned.antt =====
-- What the update of the users in `syncOnce` of panelapi/sync.go leaves of the counters.
use mini_sb_agent.Base.{
  ℕ, ◌%◌, ◌≡◌, refl, sym, ap, ◌∙◌, inl, inr, Bool, true, false, ◌||◌, Option, none, some, List,
  arith, Bool-cases, Option-cases, nat_eq, list_eq, pair_eq, Map, lookup, IsMap, answer,
  lookup-select, select-IsMap, word, is_pos, Text,
}
use mathlib.Core.Path.{subst}
use mini_sb_agent.Users.{User}
use mini_sb_agent.Users.Manager.{active_ids}
use mini_sb_agent.Users.Manager.Inbounds.{InboundMethods, apply_box}
use mini_sb_agent.Counter.{
  TrafficCounter, TrafficStorage, snapshot_delta, delta_entry, up_delta, down_delta, remove_absent,
}
use mini_sb_agent.Counter.Accounts.{IsValid}
use mini_sb_agent.Counter.Pruning.{remove_absent-IsValid}
use mini_sb_agent.Panel.Commit.{entry, IsDelta}
use mini_sb_agent.Panel.Payload.{sent}
use mini_sb_agent.Hook.{Hook, remove_absents, snapshot_deltas, delta_or_none, snapshot_deltas-IsMap}
use mini_sb_agent.Sync.{
  AgentState, Fetched, is_topology, with_users, fetch_users, prune_if, new_panel_users_callback,
  users_applied, sync_users,
}
use mini_sb_agent.Sync.Report.{IsHook, delta_of, entry-snapshot_deltas, fetch_users-hook}
use mini_sb_agent.Sync.Settled.{IsRanged, AllRanged}

-- A property of the counters that pruning keeps.
abbrev pub KeptByPruning : (Hook → Type 0) → Type 0
KeptByPruning P = (active : Map Text (Unit {0})) (h : Hook) → P h → P (remove_absents active h)

module _ {I : Type 0} (methods : InboundMethods I) (enabled : Bool) (now : ℕ) (P : Hook → Type 0)
    (kept : KeptByPruning P) where
  prune_if-keeps :
      (r : AgentState I × Bool) → P r.0.hook → P (prune_if methods enabled now r).0.hook
  prune_if-keeps (s, true) h = kept (active_ids s.manager) s.hook h
  prune_if-keeps (s, false) h = h

  users_applied-keeps :
      (topology_mode : Bool) (s : AgentState I) (o : Option (List User))
      → P s.hook
      → P (users_applied methods enabled now topology_mode (s, o)).hook
  unfolding new_panel_users_callback
  users_applied-keeps topology_mode s none h = h
  users_applied-keeps true s (some us) h = kept (active_ids s.manager) s.hook h
  users_applied-keeps false s (some us) h =
      prune_if-keeps
        (with_users methods enabled now s (apply_box methods enabled now s.inbounds us s.manager)) h

  -- The update of the users does nothing to the counters but prune them.
  pub sync_users-keeps :
      (fetched : Fetched) (s : AgentState I)
      → P s.hook
      → P (sync_users methods enabled now fetched s).hook
  unfolding sync_users
  sync_users-keeps fetched s h =
      let same = fetch_users-hook methods enabled now fetched s in
      let (s', o) = fetch_users methods enabled now fetched s in
      users_applied-keeps (is_topology fetched) s' o (subst P (sym same) h)

lookup-remove_absents :
    (active : Map Text (Unit {0})) (tag : Text) (h : Hook)
    → IsMap h
    → lookup tag (remove_absents active h)
      ≡ answer (λ t c. some (remove_absent active c)) tag (lookup tag h)
unfolding remove_absents
lookup-remove_absents active tag h m = lookup-select (λ t c. some (remove_absent active c)) tag h m

-- A counter after the pruning is that of its inbound, pruned.
pruned :
    (active : Map Text (Unit {0})) (tag : Text) (h : Hook) (c' : TrafficCounter)
    → IsMap h
    → lookup tag (remove_absents active h) ≡ some c'
    → (c : TrafficCounter) × (lookup tag h ≡ some c) × (remove_absent active c ≡ c')
pruned active tag h c' m e = elim (Option-cases (lookup tag h)) [
  | inl missing ↦ absurd (ground (arith, lookup-remove_absents active tag h m, missing, e))
  | inr (c, there) ↦ (c, there, ground (arith, lookup-remove_absents active tag h m, there, e))
]

-- The counters are well formed and hold 64-bit patterns.
abbrev pub IsSound : Hook → Type 0
IsSound h = IsHook h × AllRanged h

pub remove_absents-IsMap :
    (active : Map Text (Unit {0})) (h : Hook) → IsMap h → IsMap (remove_absents active h)
unfolding remove_absents
remove_absents-IsMap active h m = select-IsMap (λ t c. some (remove_absent active c)) h m

storages-remove_absent :
    (active : Map Text (Unit {0})) (c : TrafficCounter)
    → (remove_absent active c).storages ≡ c.storages
unfolding remove_absent
storages-remove_absent active c = refl

remove_absents-IsSound : KeptByPruning IsSound
remove_absents-IsSound active h (k, ranged) = (
  record {
    is_map = remove_absents-IsMap active h k.is_map;
    valid = λ tag c' e.
        let (c, there, same) = pruned active tag h c' k.is_map e in
        subst IsValid same (remove_absent-IsValid active c (k.valid tag c there));
  },
  λ tag c' e a.
      let (c, there, same) = pruned active tag h c' k.is_map e in
      subst (λ d. IsRanged (d.storages a)) same
        (subst (λ heap. IsRanged (heap a)) (sym (storages-remove_absent active c))
          (ranged tag c there a)),
)

pub sync_users-IsSound :
    {I : Type 0} (methods : InboundMethods I) (enabled : Bool) (now : ℕ) (fetched : Fetched)
    (s : AgentState I)
    → IsSound s.hook
    → IsSound (sync_users methods enabled now fetched s).hook
sync_users-IsSound methods enabled now fetched s h =
    sync_users-keeps methods enabled now IsSound remove_absents-IsSound fetched s h

-- A report is a map of maps.
pub snapshot_deltas-IsDelta : (h : Hook) → IsHook h → IsDelta (snapshot_deltas h)
unfolding snapshot_deltas snapshot_delta
snapshot_deltas-IsDelta h k = (
  snapshot_deltas-IsMap h k.is_map,
  λ tag users e.
      let at = lookup-select (λ t c. delta_or_none (snapshot_delta c)) tag h k.is_map in
      elim (Option-cases (lookup tag h)) [
        | inl missing ↦ absurd (ground (arith, at, missing, e))
        | inr (c, there) ↦
            let found : delta_or_none (snapshot_delta c) ≡ some users =
              sym (at ∙ ap (answer (λ t c. delta_or_none (snapshot_delta c)) tag) there) ∙ e in
            let same : snapshot_delta c ≡ users = ground (arith, found) in
            subst IsMap same (
              select-IsMap (λ v a. delta_entry (c.storages a)) c.counters
                (k.valid tag c there).is_map)
      ],
)

sent-delta_entry : (s : TrafficStorage) → sent (delta_entry s) ≡ delta_entry s
sent-delta_entry s = elim (Bool-cases (is_pos (up_delta s) || is_pos (down_delta s))) [
  | inl reports ↦ rw reports (
      ap some (
        ap (λ u. (u, down_delta s % word)) (omega arith) ∙ ap (λ d. (up_delta s, d)) (omega arith)))
  | inr settled ↦ rw settled refl
]

sent-snapshot_delta :
    (user : Text) (c : TrafficCounter)
    → IsValid c
    → sent (lookup user (snapshot_delta c)) ≡ lookup user (snapshot_delta c)
unfolding snapshot_delta
sent-snapshot_delta user c h =
    let at = lookup-select (λ v a. delta_entry (c.storages a)) user c.counters h.is_map in
    ap sent at ∙ (of_account (lookup user c.counters) ∙ sym at)
  where
    of_account :
        (o : Option ℕ)
        → sent (answer (λ v a. delta_entry (c.storages a)) user o)
          ≡ answer (λ v a. delta_entry (c.storages a)) user o
    of_account none = refl
    of_account (some a) = sent-delta_entry (c.storages a)

-- The bytes of a report are 64-bit patterns, which the sums of a client leave as they are.
pub sent-snapshot_deltas :
    (tag user : Text) (h : Hook)
    → IsHook h
    → sent (entry tag user (snapshot_deltas h)) ≡ entry tag user (snapshot_deltas h)
sent-snapshot_deltas tag user h k =
    let report = entry-snapshot_deltas tag user h k.is_map in
    ap sent report ∙ (of_counter (lookup tag h) refl ∙ sym report)
  where
    of_counter :
        (o : Option TrafficCounter) → lookup tag h ≡ o → sent (delta_of user o) ≡ delta_of user o
    of_counter none e = refl
    of_counter (some c) e = sent-snapshot_delta user c (k.valid tag c e)
