-- ===== src/Sync/Settled.antt =====
-- What a commit of panelapi/sync.go leaves to report in the counters of cmd/mini-sb-agent/main.go.
use mini_sb_agent.Base.{
  ℕ, ◌<◌, ◌≡◌, refl, sym, ap, ◌∙◌, inl, inr, true, false, ◌||◌, Option, none, some, [], ◌∷◌, arith,
  if◌then◌else◌, Bool-cases, Option-cases, is_empty, any, ◌==◌, nat_eq, list_eq, pair_eq,
  list_beq_iff, Map, lookup, IsMap, insert-IsMap, answer, lookup-select, select-IsMap, word, add64,
  sub64, is_pos, Text,
}
use mini_sb_agent.Panel.{
  Acked, is_allowed, Delta, is_numeric_user, numeric_users, has_traffic, commit_delta,
  committed_users,
}
use mini_sb_agent.Panel.Commit.{entry, lookup-numeric_users, lookup-empty}
use mini_sb_agent.Counter.{
  TrafficStorage, TrafficCounter, Snapshot, snapshot_delta, commit_snapshot, delta_entry, up_delta,
  down_delta,
}
use mini_sb_agent.Counter.Accounts.{
  IsValid, committed, commit_snapshot-IsValid, storages-commit_snapshot, counters-commit_snapshot,
}
use mini_sb_agent.Hook.{
  Hook, snapshot_deltas, delta_or_none, commit_snapshots, with_commit, lookup-commit_snapshots,
  snapshot_deltas-IsMap, commit_delta-IsMap,
}
use mini_sb_agent.Sync.Report.{IsHook, delta_of, entry-snapshot_deltas}

-- The four counters are 64-bit patterns.
abbrev pub IsRanged : TrafficStorage → Type 0
IsRanged s =
    (s.up_counter < word)
    × (s.down_counter < word)
    × (s.committed_up < word)
    × (s.committed_down < word)

sub64-add64 : (x k : ℕ) → x < word → k < word → sub64 x (add64 k (sub64 x k)) ≡ 0
sub64-add64 x k hx hk = omega (arith, hx, hk)

-- A storage whose delta is booked has nothing to report.
delta_entry-committed :
    (s : TrafficStorage) → IsRanged s → delta_entry (committed (delta_entry s) s) ≡ none
delta_entry-committed s (u, d, cu, cd) =
    elim (Bool-cases (is_pos (up_delta s) || is_pos (down_delta s))) [
      | inl reports ↦
          rw
            (
              reports,
              sub64-add64 s.up_counter s.committed_up u cu,
              sub64-add64 s.down_counter s.committed_down d cd,
            )
            refl
      | inr settled ↦ rw (settled, settled) refl
    ]

module _ (c : TrafficCounter) (h : IsValid c) (user : Text)
    (numeric : is_numeric_user user ≡ true) where
  snapshot_delta-IsMap : IsMap (snapshot_delta c)
  unfolding snapshot_delta
  snapshot_delta-IsMap = select-IsMap (λ v a. delta_entry (c.storages a)) c.counters h.is_map

  numeric_users-IsMap : IsMap (numeric_users (snapshot_delta c))
  unfolding numeric_users
  numeric_users-IsMap =
      select-IsMap (λ v d. if is_numeric_user v then some d else none) (snapshot_delta c)
        snapshot_delta-IsMap

  lookup-snapshot_delta :
      lookup user (snapshot_delta c)
      ≡ answer (λ v a. delta_entry (c.storages a)) user (lookup user c.counters)
  unfolding snapshot_delta
  lookup-snapshot_delta = lookup-select (λ v a. delta_entry (c.storages a)) user c.counters h.is_map

  lookup-numeric : lookup user (numeric_users (snapshot_delta c)) ≡ lookup user (snapshot_delta c)
  lookup-numeric =
      lookup-numeric_users (snapshot_delta c) user snapshot_delta-IsMap ∙ rw numeric refl

module _ (c : TrafficCounter) (h : IsValid c) (ranged : (a : ℕ) → IsRanged (c.storages a))
    (user : Text) (numeric : is_numeric_user user ≡ true) where
  -- The user has nothing to report after a commit of the numeric users.
  commit_numeric-settles :
      lookup user (snapshot_delta (commit_snapshot (numeric_users (snapshot_delta c)) c)) ≡ none
  commit_numeric-settles =
      let snap = numeric_users (snapshot_delta c) in
      let c' = commit_snapshot snap c in
      let after = lookup-snapshot_delta c' (commit_snapshot-IsValid snap c h) user numeric in
      let same = counters-commit_snapshot snap c in
      after
      ∙ (ap (λ m. answer (λ v a. delta_entry (c'.storages a)) user (lookup user m)) same
          ∙ settled (lookup user c.counters) refl)
    where
      settled :
          (o : Option ℕ)
          → lookup user c.counters ≡ o
          → answer
              (λ v a.
                delta_entry ((commit_snapshot (numeric_users (snapshot_delta c)) c).storages a))
              user
              o
            ≡ none
      settled none e = refl
      settled (some a) e =
          let snap = numeric_users (snapshot_delta c) in
          let booked =
            storages-commit_snapshot user a snap c (numeric_users-IsMap c h user numeric) h e in
          let own : lookup user snap ≡ delta_entry (c.storages a) =
            lookup-numeric c h user numeric
            ∙ (lookup-snapshot_delta c h user numeric
                ∙ ap (answer (λ v b. delta_entry (c.storages b)) user) e) in
          rw (booked, own) (delta_entry-committed (c.storages a) (ranged a))

abbrev committed_users_of : Option Acked → Text → Snapshot → Option Snapshot
committed_users_of only tag d = answer (committed_users only) tag (delta_or_none d)

-- The counters of the hook hold 64-bit patterns.
abbrev pub AllRanged : Hook → Type 0
AllRanged h =
    (tag : Text) (c : TrafficCounter) → lookup tag h ≡ some c → (a : ℕ) → IsRanged (c.storages a)

no_numeric_user :
    (user : Text) (users : Map Text (ℕ × ℕ))
    → is_numeric_user user ≡ true
    → any (λ f. is_numeric_user f.0) users ≡ false
    → lookup user users ≡ none
unfolding any lookup
no_numeric_user user [] numeric idle = refl
no_numeric_user user ((v, d) ∷ users) numeric idle =
    ground (arith, list_beq_iff v user, no_numeric_user user users numeric)

pub commit_snapshots-IsMap : (snap : Delta) (h : Hook) → IsMap h → IsMap (commit_snapshots snap h)
unfolding commit_snapshots
commit_snapshots-IsMap [] h m = m
commit_snapshots-IsMap ((t, users) ∷ snap) h m = elim (Option-cases (lookup t h)) [
  | inl missing ↦ rw (missing, commit_snapshots) (commit_snapshots-IsMap snap h m)
  | inr (c, there) ↦
      rw (there, commit_snapshots)
        (commit_snapshots-IsMap snap _ (insert-IsMap t (commit_snapshot users c) h m))
]

pub has_no_traffic :
    (tag user : Text) (delta : Delta)
    → is_numeric_user user ≡ true
    → has_traffic delta ≡ false
    → entry tag user delta ≡ none
unfolding has_traffic any lookup
has_no_traffic tag user [] numeric idle = refl
has_no_traffic tag user ((t, users) ∷ delta) numeric idle =
    let first : any (λ f. is_numeric_user f.0) users ≡ false = ground (arith, idle) in
    let rest : has_traffic delta ≡ false = ground (arith, idle) in
    elim (Bool-cases (t == tag)) [
      | inl here ↦ rw here (no_numeric_user user users numeric first)
      | inr later ↦ rw later (has_no_traffic tag user delta numeric rest)
    ]

module _ (h : Hook) (k : IsHook h) (ranged : AllRanged h) (tag user : Text)
    (numeric : is_numeric_user user ≡ true) (only : Option Acked)
    (allowed : is_allowed only tag ≡ true) where
  -- The counter of an inbound after the commit of its part of the report.
  committed_counter-settles :
      (c : TrafficCounter)
      → lookup tag h ≡ some c
      → delta_of user (with_commit (committed_users_of only tag (snapshot_delta c)) (some c)) ≡ none
  committed_counter-settles c e =
      let d = snapshot_delta c in
      let valid = k.valid tag c e in
      elim (Bool-cases (is_empty d)) [
        | inl nothing_counted ↦ rw nothing_counted (lookup-empty d user nothing_counted)
        | inr counted ↦ elim (Bool-cases (is_empty (numeric_users d))) [
          | inl none_numeric ↦
              rw (counted, allowed, none_numeric)
                (sym (lookup-numeric c valid user numeric)
                  ∙ lookup-empty (numeric_users d) user none_numeric)
          | inr some_numeric ↦
              rw (counted, allowed, some_numeric)
                (commit_numeric-settles c valid (ranged tag c e) user numeric)
        ]
      ]

  -- Nothing is left to report of a numeric user of an inbound whose part was committed.
  pub commit_snapshots-settles :
      entry tag user (snapshot_deltas (commit_snapshots (commit_delta (snapshot_deltas h) only) h))
      ≡ none
  unfolding commit_delta snapshot_deltas
  commit_snapshots-settles =
      let delta = snapshot_deltas h in
      let delta_map = snapshot_deltas-IsMap h k.is_map in
      let snap = commit_delta delta only in
      let report =
        entry-snapshot_deltas tag user (commit_snapshots snap h)
          (commit_snapshots-IsMap snap h k.is_map) in
      let of_snap : lookup tag snap
          ≡ answer (committed_users only) tag
              (answer (λ t c. delta_or_none (snapshot_delta c)) tag (lookup tag h)) =
        lookup-select (committed_users only) tag delta delta_map
        ∙ ap (answer (committed_users only) tag)
            (lookup-select (λ t c. delta_or_none (snapshot_delta c)) tag h k.is_map) in
      report
      ∙ (ap (delta_of user)
            (lookup-commit_snapshots tag snap h (commit_delta-IsMap delta only delta_map))
          ∙ (ap (λ o. delta_of user (with_commit o (lookup tag h))) of_snap
              ∙ settled (lookup tag h) refl))
    where
      settled :
          (o : Option TrafficCounter)
          → lookup tag h ≡ o
          → delta_of user (
              with_commit
                (answer
                  (committed_users only)
                  tag
                  (answer (λ t c. delta_or_none (snapshot_delta c)) tag o))
                o)
            ≡ none
      settled none e = refl
      settled (some c) e = committed_counter-settles c e
