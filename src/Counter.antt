-- ===== src/Counter.antt =====
-- counter/counter.go: traffic counters. Connections hold pointers to the storages, which outlive
-- their entries in the map, so the storages lie in a heap of addresses.
pub mod Accounts
pub mod Conn
pub mod Rounds
pub mod Pruning
pub mod Moved
use mini_sb_agent.Base.{
  ℕ, zero, suc, ◌+◌, ◌-◌, ◌*◌, ◌/◌, ◌%◌, ◌^◌, ◌≤◌, ◌<◌, String, ◌≡◌, refl, sym, ap, ◌∙◌, ◌≢◌, ◌↔◌,
  ◌⊎◌, inl, inr, Bool, true, false, not, ◌&&◌, ◌||◌, Option, none, some, List, [], ◌∷◌, ◌++◌, map,
  append-nil, append_assoc, arith, ltb, leb, nat_beq, nat_beq_iff, if◌then◌else◌, Bool-cases,
  Option-cases, is_some, length, is_empty, all, any, keep, All, length-append, All-append, Result,
  ok, err, ◌>>=◌, ◌>>◌, reject_if, >>=-eq-ok, is_ok, Eq, ◌==◌, nat_eq, list_eq, pair_eq, list_beq,
  list_beq_iff, pair_beq, pair_beq_iff, Map, lookup, has, insert, delete, IsMap, lookup-insert,
  lookup-delete, beq_refl, insert-IsMap, delete-IsMap, select, answer, lookup-select, select-IsMap,
  word, half_word, add64, sub64, mul64, is_neg, is_pos, div64, lt64, Text, codes, is_space,
  drop_while, trim, trim_space, lower, to_lower, has_prefix, contains,
}

pub record TrafficStorage : Type 0 where
  pub up_counter : ℕ
  pub down_counter : ℕ
  pub committed_up : ℕ
  pub committed_down : ℕ

abbrev pub fresh_storage : TrafficStorage
fresh_storage = record { up_counter = 0; down_counter = 0; committed_up = 0; committed_down = 0 }

-- `counters` is the `sync.Map` from users to storages; `next` is an address not yet used.
pub record TrafficCounter : Type 0 where
  pub counters : Map Text ℕ
  pub storages : ℕ → TrafficStorage
  pub next : ℕ

abbrev pub Snapshot : Type 0
Snapshot = Map Text (ℕ × ℕ)

-- `NewTrafficCounter`
abbrev pub new_traffic_counter : TrafficCounter
new_traffic_counter = record { counters = []; storages = λ a. fresh_storage; next = 0 }

-- A write to one address.
abbrev pub update : (ℕ → TrafficStorage) → ℕ → TrafficStorage → ℕ → TrafficStorage
update heap a s b = if nat_beq a b then s else heap b

abbrev pub add_up : ℕ → ℕ → TrafficCounter → TrafficCounter
add_up a n c =
    let s = c.storages a in
    record c { storages = update c.storages a (record s { up_counter = add64 s.up_counter n }) }

abbrev pub add_down : ℕ → ℕ → TrafficCounter → TrafficCounter
add_down a n c =
    let s = c.storages a in
    record c { storages = update c.storages a (record s { down_counter = add64 s.down_counter n }) }

-- `GetCounter`: the address of the user's storage, made on the first call.
unfoldable pub get_counter : Text → TrafficCounter → ℕ × TrafficCounter
get_counter user c = elim (lookup user c.counters) [
  | some a ↦ (a, c)
  | none ↦ (
    c.next,
    record {
      counters = insert user c.next c.counters;
      storages = update c.storages c.next fresh_storage;
      next = c.next + 1;
    },
  )
]

abbrev pub up_delta : TrafficStorage → ℕ
up_delta s = sub64 s.up_counter s.committed_up

abbrev pub down_delta : TrafficStorage → ℕ
down_delta s = sub64 s.down_counter s.committed_down

-- `Snapshot`; the argument `reset` is not read.
unfoldable pub snapshot : Bool → TrafficCounter → Snapshot
snapshot reset c =
    select (λ user a. some ((c.storages a).up_counter, (c.storages a).down_counter)) c.counters

abbrev pub delta_entry : TrafficStorage → Option (ℕ × ℕ)
delta_entry s =
    if is_pos (up_delta s) || is_pos (down_delta s) then some (up_delta s, down_delta s) else none

-- `SnapshotDelta`
unfoldable pub snapshot_delta : TrafficCounter → Snapshot
snapshot_delta c = select (λ user a. delta_entry (c.storages a)) c.counters

abbrev pub commit_amounts : ℕ × ℕ → TrafficStorage → TrafficStorage
commit_amounts d s = record s {
  committed_up = add64 s.committed_up d.0;
  committed_down = add64 s.committed_down d.1;
}

unfoldable pub commit_entry : Text → ℕ × ℕ → TrafficCounter → TrafficCounter
commit_entry user d c = elim (lookup user c.counters) [
  | none ↦ c
  | some a ↦ record c { storages = update c.storages a (commit_amounts d (c.storages a)) }
]

-- `CommitSnapshot`
unfoldable pub commit_snapshot : Snapshot → TrafficCounter → TrafficCounter
unfolding commit_entry
commit_snapshot [] c = c
commit_snapshot ((user, d) ∷ snap) c = commit_snapshot snap (commit_entry user d c)

abbrev pub is_settled : TrafficStorage → Bool
is_settled s = s.up_counter == s.committed_up && s.down_counter == s.committed_down

-- `RemoveAbsent`
unfoldable pub remove_absent : Map Text (Unit {0}) → TrafficCounter → TrafficCounter
remove_absent active c = record c {
  counters =
      select (λ user a. if has user active || not (is_settled (c.storages a)) then some a else none)
        c.counters;
}
