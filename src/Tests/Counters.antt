-- ===== src/Tests/Counters.antt =====
-- Inputs for counter/counter.go: one user with a connection.
use mini_sb_agent.Base.{
  ◌≡◌, refl, ◌↔◌, true, false, none, some, List, [], ◌∷◌, arith, nat_eq, list_eq, pair_eq, list_beq,
  list_beq_iff, lookup, has, Text, codes,
}
use mini_sb_agent.Counter.{TrafficCounter, fresh_storage, remove_absent, snapshot_delta}
use mini_sb_agent.Counter.Accounts.{IsValid}
use mini_sb_agent.Counter.Conn.{Event, opened, reads, writes, writes_packet, uploaded, downloaded}
use mini_sb_agent.Counter.Rounds.{
  Round, Owns, Conserves, after_rounds, billed_sum, rounds_total, billed-add-pending,
}
use mini_sb_agent.Counter.Pruning.{remove_absent-exact}

abbrev pub alice : Text
alice = codes "7"

abbrev pub start : TrafficCounter
start = record { counters = (alice, 0) ∷ []; storages = λ a. fresh_storage; next = 1 }

pub start-IsValid : IsValid start
unfolding lookup
start-IsValid = record {
  is_map = (refl, tt);
  below = λ u a e. ground arith;
  injective = λ u v a p q. ground (arith, list_beq_iff alice u, list_beq_iff alice v);
}

start-Owns : Owns alice 0 start
unfolding lookup list_beq
start-Owns = (
  start-IsValid,
  refl,
  record { up = omega arith; down = omega arith; was_up = omega arith; was_down = omega arith },
)

-- A push that fails, and one that goes through while traffic flows.
abbrev two_rounds : List Round
two_rounds =
    record {
      before = opened alice ∷ reads 0 100 none ∷ [];
      during = writes 0 30 none ∷ [];
      pushed = false;
    }
    ∷ record { before = []; during = writes_packet 0 5 none ∷ []; pushed = true }
    ∷ []

billed-add-pending_example :
    Conserves alice 0
      (billed_sum alice two_rounds start)
      (start.storages 0)
      ((after_rounds two_rounds start).storages 0)
      (rounds_total (uploaded 0) two_rounds)
      (rounds_total (downloaded 0) two_rounds)
billed-add-pending_example = billed-add-pending alice 0 two_rounds start start-Owns

start_there : lookup alice start.counters ≡ some 0
unfolding lookup list_beq
start_there = refl

-- A connection that the user opened goes on after the user was removed, and the user comes back.
abbrev late : List Event
late = reads 0 9 none ∷ opened alice ∷ reads 0 5 none ∷ []

remove_absent-exact_example :
    ((lookup alice (remove_absent [] start).counters ≡ none) ↔ (
      (has {V = Unit {0}} alice [] ≡ false)
      × ((start.storages 0).up_counter ≡ (start.storages 0).committed_up)
      × ((start.storages 0).down_counter ≡ (start.storages 0).committed_down)))
    × (lookup alice (snapshot_delta (remove_absent [] start)) ≡ lookup alice (snapshot_delta start))
remove_absent-exact_example = remove_absent-exact [] start alice 0 start-IsValid start_there
