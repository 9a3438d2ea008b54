-- ===== src/Users/Manager/Limits.antt =====
-- The limiters of cmd/mini-sb-agent/user_manager.go after an update of the users.
use mini_sb_agent.Base.{
  ℕ, ◌≡◌, refl, inl, inr, true, not, ◌&&◌, Option, none, some, List, [], ◌∷◌, arith, nat_beq,
  nat_beq_iff, if◌then◌else◌, Bool-cases, Option-cases, All, nat_eq, list_eq, pair_eq, Map, lookup,
  has, insert, lookup-insert, lookup-delete, select, is_pos, Text,
}
use mini_sb_agent.Users.{User, users_by_id, users_by_id_from, mbps_to_bytes, secrets_from}
use mini_sb_agent.Users.Manager.{
  LimiterPair, UserManager, close_limiter, close_absent, update_limiter, update_limiters,
  close_pair, set_pair_rate, new_limiter_pair,
}
use mini_sb_agent.Users.Manager.Inbounds.{union_into, union_of, commit_users}

limiters-close_limiter :
    (id j : ℕ) (m : UserManager)
    → lookup j (close_limiter id m).limiters ≡ (if nat_beq id j then none else lookup j m.limiters)
unfolding close_limiter close_pair
limiters-close_limiter id j m = elim (Option-cases (lookup id m.limiters)) [
  | inl missing ↦ ground (arith, nat_beq_iff id j)
  | inr (p, there) ↦ ground (arith, lookup-delete id j m.limiters)
]

limiters-close_absent :
    (ps : Map ℕ LimiterPair) (us : Map ℕ User) (j : ℕ) (m : UserManager)
    → lookup j (close_absent ps us m).limiters
      ≡ (if has j ps && not (has j us) then none else lookup j m.limiters)
unfolding close_absent lookup
limiters-close_absent [] us j m = ground arith
limiters-close_absent ((id, p) ∷ ps) us j m = ground (
  arith,
  nat_beq_iff id j,
  limiters-close_limiter id j m,
  limiters-close_absent ps us j (if has id us then m else close_limiter id m),
)

abbrev pub old_or : LimiterPair → Option LimiterPair → LimiterPair
old_or p none = p
old_or p (some q) = q

-- What the update of a user makes of the limiters of each.
limiters-update_limiter :
    (now : ℕ) (u : User) (m : UserManager) (j : ℕ)
    → (p : LimiterPair) × (lookup j (update_limiter true now u m).limiters
        ≡ (if nat_beq u.id j then some (old_or p (lookup j m.limiters)) else lookup j m.limiters))
unfolding update_limiter set_pair_rate new_limiter_pair
limiters-update_limiter now u m j =
    let p = (new_limiter_pair (mbps_to_bytes u.speed_limit) now m).0 in
    (
      p,
      elim (Option-cases (lookup u.id m.limiters)) [
        | inl missing ↦ ground (arith, nat_beq_iff u.id j, lookup-insert u.id j p m.limiters)
        | inr (q, there) ↦ ground (arith, nat_beq_iff u.id j)
      ],
    )

-- The keys of a list of users are their ids.
abbrev pub KeysMatch : Map ℕ User → Type 0
KeysMatch us = All (λ e. e.1.id ≡ e.0) us

limiters-update_limiters :
    (now : ℕ) (us : Map ℕ User) (m : UserManager) (j : ℕ)
    → KeysMatch us
    → (p : LimiterPair) × (lookup j (update_limiters true now us m).limiters
        ≡ (if has j us then some (old_or p (lookup j m.limiters)) else lookup j m.limiters))
unfolding update_limiters lookup
limiters-update_limiters now [] m j k = (record { rx = 0; tx = 0 }, refl)
limiters-update_limiters now ((id, u) ∷ us) m j k =
    let (p, one) = limiters-update_limiter now u m j in
    let (q, rest) = limiters-update_limiters now us (update_limiter true now u m) j k.1 in
    elim (Bool-cases (nat_beq id j)) [
      | inl here ↦ (p, ground (arith, k.0))
      | inr other ↦ (q, ground (arith, k.0))
    ]

insert-KeysMatch :
    (id : ℕ) (u : User) (us : Map ℕ User) → u.id ≡ id → KeysMatch us → KeysMatch (insert id u us)
unfolding insert
insert-KeysMatch id u [] e k = (e, tt)
insert-KeysMatch id u ((j, v) ∷ us) e k = elim (Bool-cases (nat_beq j id)) [
  | inl here ↦ rw here (ground (arith, e, nat_beq_iff j id), k.1)
  | inr other ↦ rw other (k.0, insert-KeysMatch id u us e k.1)
]

users_by_id_from-KeysMatch :
    (us : List User) (m : Map ℕ User) → KeysMatch m → KeysMatch (users_by_id_from us m)
unfolding users_by_id_from
users_by_id_from-KeysMatch [] m k = k
users_by_id_from-KeysMatch (u ∷ us) m k = elim (Bool-cases (is_pos u.id)) [
  | inl real ↦ rw real (users_by_id_from-KeysMatch us _ (insert-KeysMatch u.id u m refl k))
  | inr none_such ↦ rw none_such (users_by_id_from-KeysMatch us m k)
]

union_into-KeysMatch :
    (us union : Map ℕ User) → KeysMatch us → KeysMatch union → KeysMatch (union_into us union)
unfolding union_into
union_into-KeysMatch [] union h k = k
union_into-KeysMatch ((id, u) ∷ us) union h k =
    union_into-KeysMatch us _ h.1 (insert-KeysMatch id u union h.0 k)

pub union_of-KeysMatch :
    (by_inbound : Map Text (List User)) (union : Map ℕ User)
    → KeysMatch union
    → KeysMatch (union_of by_inbound union)
unfolding union_of
union_of-KeysMatch [] union k = k
union_of-KeysMatch ((tag, us) ∷ more) union k =
    union_of-KeysMatch more _
      (union_into-KeysMatch (users_by_id us) union (users_by_id_from-KeysMatch us [] tt) k)

users-close_limiter : (id : ℕ) (m : UserManager) → (close_limiter id m).users ≡ m.users
unfolding close_limiter close_pair
users-close_limiter id m = ground arith

pub users-close_absent :
    (ps : Map ℕ LimiterPair) (us : Map ℕ User) (m : UserManager)
    → (close_absent ps us m).users ≡ m.users
unfolding close_absent
users-close_absent [] us m = refl
users-close_absent ((id, p) ∷ ps) us m = ground (
  arith,
  users-close_limiter id m,
  users-close_absent ps us (if has id us then m else close_limiter id m),
)

pub users-update_limiters :
    (now : ℕ) (us : Map ℕ User) (m : UserManager) → (update_limiters true now us m).users ≡ m.users
unfolding update_limiters update_limiter set_pair_rate new_limiter_pair
users-update_limiters now [] m = refl
users-update_limiters now ((id, u) ∷ us) m =
    ground (arith, users-update_limiters now us (update_limiter true now u m))

abbrev pub ready : Map Text (List User) → UserManager → UserManager
ready by_inbound m = record m {
  by_inbound = select (λ tag us. some (users_by_id us)) by_inbound;
  users = union_of by_inbound [];
  by_secret = secrets_from (union_of by_inbound []);
}

-- After an update of the users in a build with user limits, exactly the active users have a pair of
-- limiters, and a user that had a pair before keeps that pair, whatever became of its limit: the
-- connections that hold it go on with it.
pub limiters-commit_users :
    (now : ℕ) (by_inbound : Map Text (List User)) (m : UserManager) (id : ℕ)
    → (p : LimiterPair) × (lookup id (commit_users true now by_inbound m).limiters ≡ (
        if has id (commit_users true now by_inbound m).users
        then some (old_or p (lookup id m.limiters))
        else none))
unfolding commit_users
limiters-commit_users now by_inbound m id =
    let union = union_of by_inbound [] in
    let m' = ready by_inbound m in
    let (p, e) =
      limiters-update_limiters now union (close_absent m.limiters union m') id
        (union_of-KeysMatch by_inbound [] tt) in
    (
      p,
      ground (
        arith,
        e,
        limiters-close_absent m.limiters union id m',
        users-update_limiters now union (close_absent m.limiters union m'),
        users-close_absent m.limiters union m',
      ),
    )
