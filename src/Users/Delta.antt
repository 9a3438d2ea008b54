-- ===== src/Users/Delta.antt =====
-- What cmd/mini-sb-agent/user_delta.go selects.
use mini_sb_agent.Base.{
  ℕ, ◌≡◌, ◌↔◌, ◌⊎◌, inl, inr, false, some, List, [], ◌∷◌, arith, Bool-cases, nat_eq, list_eq,
  pair_eq, Map, lookup, insert, IsMap, lookup-insert, insert-IsMap, is_pos,
}
use mini_sb_agent.Users.{
  User, users_by_id_from, users_by_id, is_unchanged, changed_from, user_changes,
}

-- Each user stands under its own id.
abbrev pub IsKeyed : Map ℕ User → Type 0
IsKeyed m = (id : ℕ) (u : User) → lookup id m ≡ some u → u.id ≡ id

pub users_by_id_from-IsMap :
    (us : List User) (m : Map ℕ User) → IsMap m → IsMap (users_by_id_from us m)
unfolding users_by_id_from
users_by_id_from-IsMap [] m h = h
users_by_id_from-IsMap (u ∷ us) m h = elim (Bool-cases (is_pos u.id)) [
  | inl real ↦ rw real (users_by_id_from-IsMap us _ (insert-IsMap u.id u m h))
  | inr none_such ↦ rw none_such (users_by_id_from-IsMap us m h)
]

pub users_by_id_from-IsKeyed :
    (us : List User) (m : Map ℕ User) → IsKeyed m → IsKeyed (users_by_id_from us m)
unfolding users_by_id_from
users_by_id_from-IsKeyed [] m h = h
users_by_id_from-IsKeyed (u ∷ us) m h = elim (Bool-cases (is_pos u.id)) [
  | inl real ↦ rw real (
      users_by_id_from-IsKeyed us (insert u.id u m)
        (λ id v e. ground (arith, lookup-insert u.id id u m, h id v)))
  | inr none_such ↦ rw none_such (users_by_id_from-IsKeyed us m h)
]

pub no_user-IsKeyed : IsKeyed []
unfolding lookup
no_user-IsKeyed id u e = cc

-- The user is in the list.
abbrev pub Listed : User → List User → Type 0
Listed u [] = ⊥
Listed u (v ∷ us) = (v ≡ u) ⊎ Listed u us

changed_from_sound :
    (other m : Map ℕ User) (u : User)
    → IsMap m
    → Listed u (changed_from other m)
    → (id : ℕ) × (lookup id m ≡ some u) × (is_unchanged (lookup id other) u ≡ false)
unfolding changed_from lookup
changed_from_sound other [] u h l = absurd l
changed_from_sound other ((j, v) ∷ m) u h l = elim (Bool-cases (is_unchanged (lookup j other) v)) [
  | inl same ↦
      let (id, p, q) = changed_from_sound other m u h.1 (rw same at l) in
      (id, ground (arith, h.0), q)
  | inr changed ↦ elim (rw changed at l) [
    | inl here ↦ (j, ground arith, rw (← here) changed)
    | inr later ↦
        let (id, p, q) = changed_from_sound other m u h.1 later in (id, ground (arith, h.0), q)
  ]
]

changed_from_complete :
    (other m : Map ℕ User) (id : ℕ) (u : User)
    → lookup id m ≡ some u
    → is_unchanged (lookup id other) u ≡ false
    → Listed u (changed_from other m)
unfolding changed_from lookup
changed_from_complete other [] id u e c = cc
changed_from_complete other ((j, v) ∷ m) id u e c =
    ground (arith, changed_from_complete other m id u)

pub user_changes-exact :
    (old : Map ℕ User) (next : List User) (u : User)
    → IsMap old
    → let (removed, added) = user_changes old next in
      (Listed u removed ↔ (
        (id : ℕ) × (lookup id old ≡ some u)
        × (is_unchanged (lookup id (users_by_id next)) u ≡ false)))
      × (Listed u added ↔ (
          (id : ℕ) × (lookup id (users_by_id next) ≡ some u)
          × (is_unchanged (lookup id old) u ≡ false)))
unfolding user_changes
user_changes-exact old next u h =
    let m = users_by_id next in
    (
      (changed_from_sound m old u h, λ c. changed_from_complete m old c.0 u c.1 c.2),
      (
        changed_from_sound old m u (users_by_id_from-IsMap next [] tt),
        λ c. changed_from_complete old m c.0 u c.1 c.2,
      ),
    )
