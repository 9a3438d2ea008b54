-- ===== src/Users.antt =====
-- The users of the agent: panelapi/types.go, cmd/mini-sb-agent/user_delta.go and user_manager.go.
pub mod Delta
pub mod Manager
pub mod Merge
pub mod Fetch
use mini_sb_agent.Base.{
  ℕ, zero, suc, ◌+◌, ◌-◌, ◌*◌, ◌/◌, ◌%◌, ◌^◌, ◌≤◌, ◌<◌, String, ◌≡◌, refl, sym, ap, ◌∙◌, ◌≢◌, ◌↔◌,
  ◌⊎◌, inl, inr, Bool, true, false, not, ◌&&◌, ◌||◌, Option, none, some, List, [], ◌∷◌, ◌++◌, map,
  append-nil, append_assoc, arith, ltb, leb, nat_beq, nat_beq_iff, if◌then◌else◌, Bool-cases,
  Option-cases, is_some, length, is_empty, all, any, keep, All, length-append, All-append, Result,
  ok, err, ◌>>=◌, ◌>>◌, reject_if, >>=-eq-ok, is_ok, Eq, ◌==◌, nat_eq, list_eq, pair_eq, list_beq,
  list_beq_iff, pair_beq, pair_beq_iff, Map, lookup, has, insert, delete, IsMap, lookup-insert,
  lookup-delete, beq_refl, insert-IsMap, delete-IsMap, select, answer, lookup-select, select-IsMap,
  word, half_word, add64, sub64, mul64, is_neg, is_pos, div64, lt64, Text, codes, is_space,
  drop_while, trim, trim_space, lower, to_lower, has_prefix, contains, ℤ, pos, negsuc, pos_part,
  neg_part, diff, ◌+ℤ◌, ◌-ℤ◌, ◌≤ℤ◌, ltb_ℤ, +ℤ_parts, -ℤ_parts, take, drop, length-take, length-drop,
  take-append-take-drop, take-take, take_all, trim_prefix,
}

-- `User` of panelapi/types.go; `id` and `speed_limit` are `int` patterns.
pub record User : Type 0 where
  pub id : ℕ
  pub uuid : Text
  pub password : Text
  pub name : Text
  pub speed_limit : ℕ

-- `usersByID`: a later user of the same id replaces an earlier one. The loop fills `m`.
unfoldable pub users_by_id_from : List User → Map ℕ User → Map ℕ User
users_by_id_from [] m = m
users_by_id_from (u ∷ us) m = users_by_id_from us (if is_pos u.id then insert u.id u m else m)

abbrev pub users_by_id : List User → Map ℕ User
users_by_id us = users_by_id_from us []

-- A user's credentials are the same: the test of `userChanges`.
unfoldable pub same_credentials : User → User → Bool
same_credentials u v = u.uuid == v.uuid && u.password == v.password && u.name == v.name

abbrev pub is_unchanged : Option User → User → Bool
is_unchanged none u = false
is_unchanged (some v) u = same_credentials u v

-- The users of a map that another map does not have with the same credentials.
unfoldable pub changed_from : Map ℕ User → Map ℕ User → List User
unfolding same_credentials
changed_from other [] = []
changed_from other ((id, u) ∷ m) =
    let rest = changed_from other m in if is_unchanged (lookup id other) u then rest else u ∷ rest

-- `userChanges`: the users to remove and those to add.
unfoldable pub user_changes : Map ℕ User → List User → List User × List User
unfolding changed_from
user_changes old next =
    let next_by_id = users_by_id next in (changed_from next_by_id old, changed_from old next_by_id)

-- `mbpsToBytes`
unfoldable pub mbps_to_bytes : ℕ → ℕ
mbps_to_bytes mbps = if is_pos mbps then div64 (mul64 (mul64 mbps 1000) 1000) 8 else 0

-- The loop of `secretsFrom` over the three secrets of a user, and that over the users.
unfoldable pub add_secrets : ℕ → List Text → Map Text ℕ → Map Text ℕ
add_secrets id [] m = m
add_secrets id (s ∷ ss) m = add_secrets id ss (if is_empty s then m else insert s id m)

abbrev pub secrets_of : User → List Text
secrets_of u = u.uuid ∷ u.password ∷ u.name ∷ []

unfoldable pub secrets_into : Map ℕ User → Map Text ℕ → Map Text ℕ
unfolding add_secrets
secrets_into [] m = m
secrets_into ((id, u) ∷ us) m = secrets_into us (add_secrets id (secrets_of u) m)

-- `secretsFrom`
abbrev pub secrets_from : Map ℕ User → Map Text ℕ
secrets_from us = secrets_into us []
