-- ===== src/Users/Manager.antt =====
-- cmd/mini-sb-agent/user_manager.go: the users of the inbounds and their limiters.
--
-- Live connections hold pointers to the limiters, so these lie in a heap of addresses. The lock and
-- the clock's reading `now` are arguments where the source takes them itself: each function is one
-- critical section, in which the clock is read once.
pub mod Inbounds
pub mod Limits
pub mod Secrets
pub mod Groups
pub mod Rates
pub mod Logins
pub mod Accepts
pub mod InStep
pub mod Rounds
use mini_sb_agent.Base.{
  ℕ, zero, suc, ◌+◌, ◌-◌, ◌*◌, ◌/◌, ◌%◌, ◌^◌, ◌≤◌, ◌<◌, String, ◌≡◌, refl, sym, ap, ◌∙◌, ◌≢◌, ◌↔◌,
  ◌⊎◌, inl, inr, Bool, true, false, not, ◌&&◌, ◌||◌, Option, none, some, List, [], ◌∷◌, ◌++◌, map,
  append-nil, append_assoc, arith, ltb, leb, nat_beq, nat_beq_iff, if◌then◌else◌, Bool-cases,
  Option-cases, is_some, length, is_empty, all, any, keep, All, length-append, All-append, Result,
  ok, err, ◌>>=◌, ◌>>◌, reject_if, >>=-eq-ok, is_ok, Eq, ◌==◌, nat_eq, list_eq, pair_eq, list_beq,
  list_beq_iff, pair_beq, pair_beq_iff, Map, lookup, has, insert, delete, IsMap, lookup-insert,
  lookup-delete, beq_refl, insert-IsMap, delete-IsMap, select, answer, lookup-select, select-IsMap,
  word, half_word, add64, sub64, mul64, is_neg, is_pos, div64, lt64, Text, codes, is_space,
  drop_while, trim, trim_space, lower, to_lower, has_prefix, contains, ℤ, pos, negsuc, pos_part,
  neg_part, diff, ◌+ℤ◌, ◌-ℤ◌, ◌≤ℤ◌, ltb_ℤ, +ℤ_parts, -ℤ_parts, take, drop, length-take, length-drop,
  take-append-take-drop, take-take, take_all, trim_prefix, trim_right,
}
use mini_sb_agent.RateLimit.{RateLimiter, new_rate_limiter, set_rate, close}
use mini_sb_agent.Users.{User, users_by_id, mbps_to_bytes, secrets_from}

-- `limiterPair`: the addresses of its two limiters.
pub record LimiterPair : Type 0 where
  pub rx : ℕ
  pub tx : ℕ

pub record UserManager : Type 0 where
  pub users : Map ℕ User
  pub by_secret : Map Text ℕ
  pub by_inbound : Map Text (Map ℕ User)
  pub node_limit : Option LimiterPair
  pub limiters : Map ℕ LimiterPair
  pub heap : ℕ → RateLimiter
  pub next : ℕ

-- A write to one address of the heap.
abbrev pub put : ℕ → RateLimiter → (ℕ → RateLimiter) → ℕ → RateLimiter
put a l heap b = if nat_beq a b then l else heap b

-- `newLimiterPair`: two fresh limiters, and the heap that has them.
unfoldable pub new_limiter_pair : ℕ → ℕ → UserManager → LimiterPair × UserManager
new_limiter_pair bytes_per_second now m =
    let l = new_rate_limiter bytes_per_second now in
    (
      record { rx = m.next; tx = m.next + 1 },
      record m { heap = put (m.next + 1) l (put m.next l m.heap); next = m.next + 2 },
    )

-- `limiterPair.SetRate`
unfoldable pub set_pair_rate : LimiterPair → ℕ → ℕ → UserManager → UserManager
set_pair_rate p bytes_per_second now m =
    let heap' = put p.rx (set_rate bytes_per_second now (m.heap p.rx)) m.heap in
    record m { heap = put p.tx (set_rate bytes_per_second now (heap' p.tx)) heap' }

-- `limiterPair.Close`
unfoldable pub close_pair : LimiterPair → UserManager → UserManager
close_pair p m =
    let heap' = put p.rx (close (m.heap p.rx)) m.heap in
    record m { heap = put p.tx (close (heap' p.tx)) heap' }

abbrev pub no_limiter : RateLimiter
no_limiter = record {
  rate = 0;
  burst = 0;
  tokens = pos 0;
  last = none;
  disabled = false;
  closed = false;
}

abbrev empty_manager : UserManager
empty_manager = record {
  users = [];
  by_secret = [];
  by_inbound = [];
  node_limit = none;
  limiters = [];
  heap = λ a. no_limiter;
  next = 0;
}

-- `NewUserManager`
unfoldable pub new_user_manager : ℕ → ℕ → UserManager
unfolding new_limiter_pair
new_user_manager node_mbps now =
    let (p, m) = new_limiter_pair (mbps_to_bytes node_mbps) now empty_manager in
    if is_pos node_mbps then record m { node_limit = some p } else empty_manager

-- `closeLimiterLocked`
unfoldable pub close_limiter : ℕ → UserManager → UserManager
unfolding close_pair
close_limiter id m = elim (lookup id m.limiters) [
  | none ↦ m
  | some p ↦ record (close_pair p m) { limiters = delete id m.limiters }
]

-- `for id := range m.limiters`: closes the limiters of those that are not users any more. The first
-- argument holds the entries that the loop visits.
unfoldable pub close_absent : Map ℕ LimiterPair → Map ℕ User → UserManager → UserManager
unfolding close_limiter
close_absent [] users m = m
close_absent ((id, p) ∷ ps) users m =
    close_absent ps users (if has id users then m else close_limiter id m)

-- `fmt.Sprint` of a positive `int`, which has at most 19 digits: the digits before those of `s`.
unfoldable pub sprint_before : ℕ → ℕ → Text → Text
sprint_before zero n s = s
sprint_before (suc fuel) n s =
    let rest = sprint_before fuel (n / 10) ((b'0' + n % 10) ∷ s) in
    if ltb n 10 then (b'0' + n % 10) ∷ s else rest

abbrev pub sprint : ℕ → Text
sprint n = sprint_before 19 n []

-- `strconv.Itoa`
unfoldable pub itoa : ℕ → Text
unfolding sprint_before
itoa n = if is_neg n then b'-' ∷ sprint (word - n) else sprint n

-- `Resolve`
unfoldable pub resolve : Text → UserManager → Text
unfolding sprint_before
resolve user m =
    if is_empty user
    then user
    else elim (lookup user m.by_secret) [ none ↦ user | some id ↦ sprint id ]

unfoldable pub active_from : Map ℕ User → Map Text (Unit {0}) → Map Text (Unit {0})
unfolding sprint_before
active_from [] out = out
active_from ((id, u) ∷ us) out = active_from us (insert (sprint id) tt out)

-- `ActiveIDs`
abbrev pub active_ids : UserManager → Map Text (Unit {0})
active_ids m = active_from m.users []

abbrev pub users_or_none : Option (Map ℕ User) → Map ℕ User
users_or_none none = []
users_or_none (some us) = us

-- `InboundSnapshot`
unfoldable pub inbound_snapshot : Text → UserManager → Map ℕ User
inbound_snapshot tag m = users_or_none (lookup tag m.by_inbound)

-- `userRateLimitBuildEnabled`, which the build tags set.
module _ (enabled : Bool) where
  -- `updateLimiterLocked`
  unfoldable pub update_limiter : ℕ → User → UserManager → UserManager
  unfolding set_pair_rate new_limiter_pair
  update_limiter now u m = if not enabled then m else elim (lookup u.id m.limiters) [
    | some p ↦ set_pair_rate p (mbps_to_bytes u.speed_limit) now m
    | none ↦
        let (p, m') = new_limiter_pair (mbps_to_bytes u.speed_limit) now m in
        record m' { limiters = insert u.id p m'.limiters }
  ]

  unfoldable pub update_limiters : ℕ → Map ℕ User → UserManager → UserManager
  unfolding update_limiter
  update_limiters now [] m = m
  update_limiters now ((id, u) ∷ us) m = update_limiters now us (update_limiter now u m)

  -- `applyGlobal`
  unfoldable pub apply_global : ℕ → List User → UserManager → UserManager
  unfolding close_absent update_limiters
  apply_global now users m =
      let next = users_by_id users in
      let m' = update_limiters now next (close_absent m.limiters next m) in
      record m' { users = next; by_secret = secrets_from next }

  -- The node's and the user's limiters of `DirectionalLimiters`: the pairs are its four results.
  unfoldable pub directional_limiters : Text → UserManager → Option LimiterPair × Option LimiterPair
  directional_limiters user m = (
    m.node_limit,
    (if enabled
        then elim (lookup user m.by_secret) [ none ↦ none | some id ↦ lookup id m.limiters ]
        else none),
  )

  abbrev rx_of : Option LimiterPair → Option ℕ
  rx_of none = none
  rx_of (some p) = some p.rx

  -- `Limiters`: the read limiters of the node and of the user.
  unfoldable pub read_limiters : Text → UserManager → Option ℕ × Option ℕ
  read_limiters user m = (
    rx_of m.node_limit,
    (if enabled
        then elim (lookup user m.by_secret) [ none ↦ none | some id ↦ rx_of (lookup id m.limiters) ]
        else none),
  )

  -- `Limiters` shows the read limiters that `DirectionalLimiters` hands out.
  read_limiters-directional_limiters :
      (user : Text) (m : UserManager)
      → read_limiters user m
        ≡ (rx_of (directional_limiters user m).0, rx_of (directional_limiters user m).1)
  unfolding read_limiters directional_limiters
  read_limiters-directional_limiters user m = elim (Option-cases (lookup user m.by_secret)) [
    | inl unknown ↦ ground (arith, unknown)
    | inr (id, known) ↦ ground (arith, known)
  ]
