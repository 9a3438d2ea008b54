-- ===== src/Counter/Pruning.antt =====
-- `RemoveAbsent` of counter/counter.go.
use mini_sb_agent.Base.{
  ℕ, ◌<◌, ◌≡◌, ◌≢◌, ◌↔◌, false, not, ◌||◌, none, some, arith, nat_beq, if◌then◌else◌, nat_eq,
  list_eq, pair_eq, Map, lookup, has, IsMap, answer, lookup-select, select-IsMap, Text,
}
use mini_sb_agent.Counter.{
  TrafficCounter, snapshot_delta, delta_entry, is_settled, remove_absent, TrafficStorage,
}
use mini_sb_agent.Counter.Accounts.{IsValid, get_counter-IsValid}
use mini_sb_agent.Counter.Conn.{
  Event, opened, reads, writes, reads_buffer, writes_buffer, reads_packet, writes_packet, step,
}

module _ (active : Map Text (Unit {0})) (c : TrafficCounter) (h : IsValid c) where
  -- Exactly the users that are absent and have nothing left to report lose their entry.
  pub lookup-remove_absent :
      (u : Text)
      → lookup u (remove_absent active c).counters
        ≡ answer
            (λ v a. if has v active || not (is_settled (c.storages a)) then some a else none)
            u
            (lookup u c.counters)
  unfolding remove_absent
  lookup-remove_absent u =
      lookup-select
        (λ v a. if has v active || not (is_settled (c.storages a)) then some a else none) u
        c.counters h.is_map

  remove_absent-IsMap : IsMap (remove_absent active c).counters
  unfolding remove_absent
  remove_absent-IsMap =
      select-IsMap (λ v a. if has v active || not (is_settled (c.storages a)) then some a else none)
        c.counters h.is_map

  pub remove_absent-IsValid : IsValid (remove_absent active c)
  unfolding remove_absent
  remove_absent-IsValid = record {
    is_map = remove_absent-IsMap;
    below = λ u a e. ground (arith, lookup-remove_absent u, h.below u a);
    injective = λ u v a p q.
        ground (arith, lookup-remove_absent u, lookup-remove_absent v, h.injective u v a);
  }

  -- Removing absent users changes no report: the next snapshot says the same of every user.
  pub snapshot_delta-remove_absent :
      (u : Text) → lookup u (snapshot_delta (remove_absent active c)) ≡ lookup u (snapshot_delta c)
  unfolding snapshot_delta remove_absent
  snapshot_delta-remove_absent u = ground (
    arith,
    lookup-remove_absent u,
    lookup-select (λ v a. delta_entry (c.storages a)) u c.counters h.is_map,
    lookup-select (λ v a. delta_entry (c.storages a)) u (remove_absent active c).counters
        remove_absent-IsMap,
  )

-- No user's entry leads to the storage at `a`, and `a` is not given out again.
abbrev IsOrphan : ℕ → TrafficCounter → Type 0
IsOrphan a c = ((u : Text) → lookup u c.counters ≢ some a) × (a < c.next)

pub step-IsValid : (ev : Event) (c : TrafficCounter) → IsValid c → IsValid (step ev c)
unfolding step
step-IsValid (opened v) c h = get_counter-IsValid v c h
step-IsValid (reads b n x) c h = ground arith
step-IsValid (writes b n x) c h = ground arith
step-IsValid (reads_buffer b n x) c h = ground arith
step-IsValid (writes_buffer b n x) c h = ground arith
step-IsValid (reads_packet b n x) c h = ground arith
step-IsValid (writes_packet b n x) c h = ground arith

-- The counters with other contents of the storage at `a`.
abbrev pub with_storage : ℕ → TrafficStorage → TrafficCounter → TrafficCounter
with_storage a s c = record c { storages = λ b. if nat_beq b a then s else c.storages b }

-- `RemoveAbsent` deletes the entry of a user exactly if the user is not active and both counters
-- equal what was committed of them, and the next report says the same of the user as without it.
pub remove_absent-exact :
    (active : Map Text (Unit {0})) (c : TrafficCounter) (u : Text) (a : ℕ)
    → IsValid c
    → lookup u c.counters ≡ some a
    → ((lookup u (remove_absent active c).counters ≡ none) ↔ (
        (has u active ≡ false)
        × ((c.storages a).up_counter ≡ (c.storages a).committed_up)
        × ((c.storages a).down_counter ≡ (c.storages a).committed_down)))
      × (lookup u (snapshot_delta (remove_absent active c)) ≡ lookup u (snapshot_delta c))
remove_absent-exact active c u a h e =
    let kept = lookup-remove_absent active c h u in
    (
      (
        λ gone. (
          ground (arith, kept, e, gone),
          ground (arith, kept, e, gone),
          ground (arith, kept, e, gone),
        ),
        λ settled. ground (arith, kept, e, settled),
      ),
      snapshot_delta-remove_absent active c h u,
    )
