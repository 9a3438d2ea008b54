-- ===== src/Counter/Accounts.antt =====
-- The invariant of the counters of counter/counter.go, and what a commit does to each storage.
use mini_sb_agent.Base.{
  ℕ, ◌<◌, ◌≡◌, refl, ◌∙◌, inl, inr, Option, none, some, [], ◌∷◌, arith, if◌then◌else◌, Option-cases,
  ◌==◌, nat_eq, list_eq, pair_eq, list_beq_iff, lookup, IsMap, lookup-insert, insert-IsMap, Text,
}
use mini_sb_agent.Counter.{
  TrafficStorage, TrafficCounter, Snapshot, get_counter, commit_amounts, commit_entry,
  commit_snapshot,
}

-- Each user has one storage, and no two users share one.
pub record IsValid (c : TrafficCounter) : Type 0 where
  pub is_map : IsMap c.counters
  pub below : (u : Text) (a : ℕ) → lookup u c.counters ≡ some a → a < c.next
  pub injective :
      (u v : Text) (a : ℕ) → lookup u c.counters ≡ some a → lookup v c.counters ≡ some a → u ≡ v

pub get_counter-IsValid : (u : Text) (c : TrafficCounter) → IsValid c → IsValid (get_counter u c).1
unfolding get_counter
get_counter-IsValid u c h = elim (Option-cases (lookup u c.counters)) [
  | inl new ↦
      rw (new, get_counter)
        (record {
          is_map = insert-IsMap u c.next c.counters h.is_map;
          below = λ v a e. ground (arith, lookup-insert u v c.next c.counters, h.below v a);
          injective = λ v w a p q. ground (
            arith,
            lookup-insert u v c.next c.counters,
            lookup-insert u w c.next c.counters,
            list_beq_iff u v,
            list_beq_iff u w,
            h.below v a,
            h.below w a,
            h.injective v w a,
          );
        })
  | inr (a, old) ↦ rw (old, get_counter) h
]

abbrev pub committed : Option (ℕ × ℕ) → TrafficStorage → TrafficStorage
committed none s = s
committed (some d) s = commit_amounts d s

storages-commit_entry :
    (user : Text) (a : ℕ) (v : Text) (d : ℕ × ℕ) (c : TrafficCounter)
    → IsValid c
    → lookup user c.counters ≡ some a
    → (commit_entry v d c).storages a
      ≡ (if v == user then commit_amounts d (c.storages a) else c.storages a)
unfolding commit_entry
storages-commit_entry user a v d c h e = elim (Option-cases (lookup v c.counters)) [
  | inl new ↦ ground (arith, list_beq_iff v user)
  | inr (b, old) ↦ ground (arith, list_beq_iff v user, h.injective v user a)
]

counters-commit_entry :
    (v : Text) (d : ℕ × ℕ) (c : TrafficCounter) → (commit_entry v d c).counters ≡ c.counters
unfolding commit_entry
counters-commit_entry v d c = ground arith

pub commit_entry-IsValid :
    (v : Text) (d : ℕ × ℕ) (c : TrafficCounter) → IsValid c → IsValid (commit_entry v d c)
unfolding commit_entry
commit_entry-IsValid v d c h = elim (Option-cases (lookup v c.counters)) [
  | inl new ↦ rw (new, commit_entry) h
  | inr (b, old) ↦
      rw (old, commit_entry)
        (record { is_map = h.is_map; below = h.below; injective = h.injective })
]

pub commit_snapshot-IsValid :
    (snap : Snapshot) (c : TrafficCounter) → IsValid c → IsValid (commit_snapshot snap c)
unfolding commit_snapshot
commit_snapshot-IsValid [] c h = h
commit_snapshot-IsValid ((v, d) ∷ snap) c h =
    commit_snapshot-IsValid snap (commit_entry v d c) (commit_entry-IsValid v d c h)

pub counters-commit_snapshot :
    (snap : Snapshot) (c : TrafficCounter) → (commit_snapshot snap c).counters ≡ c.counters
unfolding commit_snapshot
counters-commit_snapshot [] c = refl
counters-commit_snapshot ((v, d) ∷ snap) c =
    counters-commit_snapshot snap (commit_entry v d c) ∙ counters-commit_entry v d c

-- A commit books to a storage what the snapshot says of its user, and nothing else.
pub storages-commit_snapshot :
    (user : Text) (a : ℕ) (snap : Snapshot) (c : TrafficCounter)
    → IsMap snap
    → IsValid c
    → lookup user c.counters ≡ some a
    → (commit_snapshot snap c).storages a ≡ committed (lookup user snap) (c.storages a)
unfolding commit_snapshot lookup
storages-commit_snapshot user a [] c m h e = refl
storages-commit_snapshot user a ((v, d) ∷ snap) c m h e =
    let c' = commit_entry v d c in
    ground (
      arith,
      list_beq_iff v user,
      commit_entry-IsValid v d c h,
      counters-commit_entry v d c,
      storages-commit_entry user a v d c h e,
      storages-commit_snapshot user a snap c' m.1 (commit_entry-IsValid v d c h),
    )
