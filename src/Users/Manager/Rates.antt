-- ===== src/Users/Manager/Rates.antt =====
-- The rates of the users' limiters of cmd/mini-sb-agent/user_manager.go after an update.
use mini_sb_agent.Base.{
  ℕ, ◌+◌, ◌<◌, ◌≡◌, refl, ◌≢◌, ◌⊎◌, inl, inr, true, false, not, none, some, List, [], ◌∷◌, arith,
  nat_beq, nat_beq_iff, Bool-cases, Option-cases, nat_eq, list_eq, pair_eq, Map, lookup, has, IsMap,
  lookup-insert, lookup-delete, insert-IsMap, is_pos, Text,
}
use mini_sb_agent.RateLimit.{RateLimiter, set_rate, new_rate_limiter}
use mathlib.Core.Path.{subst}
use mini_sb_agent.Users.{User, users_by_id, mbps_to_bytes}
use mini_sb_agent.Users.Manager.Inbounds.{union_into, union_of, commit_users}
use mini_sb_agent.Users.Manager.Limits.{
  KeysMatch, union_of-KeysMatch, users-update_limiters, users-close_absent, ready,
}
use mini_sb_agent.Users.Manager.{
  LimiterPair, UserManager, close_limiter, close_absent, update_limiter, update_limiters,
  close_pair, set_pair_rate, new_limiter_pair,
}

-- One of the two limiters of the pair lies at the address.
abbrev LiesAt : LimiterPair → ℕ → Type 0
LiesAt p a = (p.rx ≡ a) ⊎ (p.tx ≡ a)

-- No two users share a limiter, none of theirs is closed, and the next address is free.
pub record IsSound (m : UserManager) : Type 0 where
  pub below :
      (id : ℕ) (p : LimiterPair) → lookup id m.limiters ≡ some p → (p.rx < m.next) × (p.tx < m.next)
  pub apart :
      (i j a : ℕ) (p q : LimiterPair)
      → lookup i m.limiters ≡ some p
      → lookup j m.limiters ≡ some q
      → LiesAt p a
      → LiesAt q a
      → i ≡ j
  pub opens :
      (id : ℕ) (p : LimiterPair)
      → lookup id m.limiters ≡ some p
      → ((m.heap p.rx).closed ≡ false) × ((m.heap p.tx).closed ≡ false)

-- The limiter is open, and limits to the rate exactly if this is positive.
abbrev pub Runs : ℕ → RateLimiter → Type 0
Runs r l = (l.rate ≡ r) × (l.disabled ≡ not (is_pos r)) × (l.closed ≡ false)

set_rate-Runs : (r now : ℕ) (l : RateLimiter) → l.closed ≡ false → Runs r (set_rate r now l)
unfolding set_rate
set_rate-Runs r now l h = (ground arith, ground arith, ground arith)

new_rate_limiter-Runs : (r now : ℕ) → Runs r (new_rate_limiter r now)
unfolding new_rate_limiter set_rate
new_rate_limiter-Runs r now = (ground arith, ground arith, ground arith)

set_pair_rate-opens :
    (o : LimiterPair) (r now : ℕ) (m : UserManager) (a : ℕ)
    → (m.heap a).closed ≡ false
    → (m.heap o.rx).closed ≡ false
    → (m.heap o.tx).closed ≡ false
    → ((set_pair_rate o r now m).heap a).closed ≡ false
unfolding set_pair_rate
set_pair_rate-opens o r now m a h rx tx =
    let once = set_rate-Runs r now (m.heap o.rx) rx in
    ground (
      arith,
      h,
      once,
      set_rate-Runs r now (m.heap o.tx) tx,
      set_rate-Runs r now (set_rate r now (m.heap o.rx)) once.2,
    )

-- Distinct pairs of limiters of a sound manager have no address in common.
module _ (m : UserManager) (h : IsSound m) (i j : ℕ) (p q : LimiterPair)
    (at_i : lookup i m.limiters ≡ some p) (at_j : lookup j m.limiters ≡ some q) (ne : i ≢ j) where
  pairs_apart : (p.rx ≢ q.rx) × (p.tx ≢ q.rx) × (p.rx ≢ q.tx) × (p.tx ≢ q.tx)
  pairs_apart = (
    λ c. ne (h.apart i j q.rx p q at_i at_j (inl c) (inl refl)),
    λ c. ne (h.apart i j q.rx p q at_i at_j (inr c) (inl refl)),
    λ c. ne (h.apart i j q.tx p q at_i at_j (inl c) (inr refl)),
    λ c. ne (h.apart i j q.tx p q at_i at_j (inr c) (inr refl)),
  )

close_limiter-IsSound : (id : ℕ) (m : UserManager) → IsSound m → IsSound (close_limiter id m)
unfolding close_limiter close_pair
close_limiter-IsSound id m h = elim (Option-cases (lookup id m.limiters)) [
  | inl missing ↦ rw (missing, close_limiter) h
  | inr (o, there) ↦
      rw (there, close_limiter)
        (record {
          below = λ j p e. ground (arith, lookup-delete id j m.limiters, h.below j p);
          apart = λ i j a p q e f x y. ground (
            arith,
            lookup-delete id i m.limiters,
            lookup-delete id j m.limiters,
            h.apart i j a p q,
          );
          opens = λ j p e.
              let other : id ≢ j =
                ground (arith, lookup-delete id j m.limiters, e, nat_beq_iff id j) in
              let kept : lookup j m.limiters ≡ some p =
                ground (arith, lookup-delete id j m.limiters, e) in
              let far = pairs_apart m h id j o p there kept other in
              (ground (arith, far, h.opens j p kept), ground (arith, far, h.opens j p kept));
        })
]

update_limiter-IsSound :
    (now : ℕ) (u : User) (m : UserManager) → IsSound m → IsSound (update_limiter true now u m)
unfolding update_limiter set_pair_rate new_limiter_pair
update_limiter-IsSound now u m h = elim (Option-cases (lookup u.id m.limiters)) [
  | inr (o, there) ↦
      rw (there, update_limiter)
        (record {
          below = h.below;
          apart = h.apart;
          opens = λ j p e.
              let own = h.opens u.id o there in
              let old = h.opens j p e in
              let r = mbps_to_bytes u.speed_limit in
              (
                set_pair_rate-opens o r now m p.rx old.0 own.0 own.1,
                set_pair_rate-opens o r now m p.tx old.1 own.0 own.1,
              );
        })
  | inl missing ↦
      let p' : LimiterPair = record { rx = m.next; tx = m.next + 1 } in
      rw (missing, update_limiter)
        (record {
          below = λ j p e. ground (arith, lookup-insert u.id j p' m.limiters, h.below j p);
          apart = λ i j a p q e f x y. ground (
            arith,
            lookup-insert u.id i p' m.limiters,
            lookup-insert u.id j p' m.limiters,
            nat_beq_iff u.id i,
            nat_beq_iff u.id j,
            h.below i p,
            h.below j q,
            h.apart i j a p q,
          );
          opens = λ j p e.
              let fresh = new_rate_limiter-Runs (mbps_to_bytes u.speed_limit) now in
              let put = lookup-insert u.id j p' m.limiters in
              (
                ground (arith, put, e, fresh, h.opens j p),
                ground (arith, put, e, fresh, h.opens j p),
              );
        })
]

-- The user has a pair of limiters that run at the rate.
abbrev pub RunsAt : UserManager → ℕ → ℕ → Type 0
RunsAt m id r =
    (p : LimiterPair) × (lookup id m.limiters ≡ some p)
    × Runs r (m.heap p.rx)
    × Runs r (m.heap p.tx)

set_pair_rate-Runs :
    (o : LimiterPair) (r now : ℕ) (m : UserManager)
    → (m.heap o.rx).closed ≡ false
    → (m.heap o.tx).closed ≡ false
    → Runs r ((set_pair_rate o r now m).heap o.rx) × Runs r ((set_pair_rate o r now m).heap o.tx)
unfolding set_pair_rate
set_pair_rate-Runs o r now m rx tx =
    let once = set_rate-Runs r now (m.heap o.rx) rx in
    let other = set_rate-Runs r now (m.heap o.tx) tx in
    let twice = set_rate-Runs r now (set_rate r now (m.heap o.rx)) once.2 in
    (
      (
        ground (arith, once, other, twice),
        ground (arith, once, other, twice),
        ground (arith, once, other, twice),
      ),
      (
        ground (arith, once, other, twice),
        ground (arith, once, other, twice),
        ground (arith, once, other, twice),
      ),
    )

update_limiter-RunsAt :
    (now : ℕ) (u : User) (m : UserManager)
    → IsSound m
    → RunsAt (update_limiter true now u m) u.id (mbps_to_bytes u.speed_limit)
unfolding update_limiter new_limiter_pair set_pair_rate
update_limiter-RunsAt now u m h =
    let r = mbps_to_bytes u.speed_limit in
    elim (Option-cases (lookup u.id m.limiters)) [
      | inr (o, there) ↦
          let own = h.opens u.id o there in
          rw (there, update_limiter)
            (
              o,
              ground (arith, there),
              (set_pair_rate-Runs o r now m own.0 own.1).0,
              (set_pair_rate-Runs o r now m own.0 own.1).1,
            )
      | inl missing ↦
          let p' : LimiterPair = record { rx = m.next; tx = m.next + 1 } in
          let fresh = new_rate_limiter-Runs r now in
          rw (missing, update_limiter)
            (
              p',
              ground (arith, lookup-insert u.id u.id p' m.limiters),
              (ground (arith, fresh), ground (arith, fresh), ground (arith, fresh)),
              (ground (arith, fresh), ground (arith, fresh), ground (arith, fresh)),
            )
    ]

update_limiter-keeps :
    (now : ℕ) (u : User) (m : UserManager) (id r : ℕ)
    → IsSound m
    → u.id ≢ id
    → RunsAt m id r
    → RunsAt (update_limiter true now u m) id r
unfolding update_limiter set_pair_rate new_limiter_pair
update_limiter-keeps now u m id r h ne (p, e, x, y) = elim (Option-cases (lookup u.id m.limiters)) [
  | inr (o, there) ↦
      let far = pairs_apart m h u.id id o p there e ne in
      rw (there, update_limiter)
        (
          p,
          e,
          (ground (arith, x, far), ground (arith, x, far), ground (arith, x, far)),
          (ground (arith, y, far), ground (arith, y, far), ground (arith, y, far)),
        )
  | inl missing ↦
      let p' : LimiterPair = record { rx = m.next; tx = m.next + 1 } in
      let low = h.below id p e in
      rw (missing, update_limiter)
        (
          p,
          ground (arith, lookup-insert u.id id p' m.limiters, e, ne),
          (ground (arith, x, low), ground (arith, x, low), ground (arith, x, low)),
          (ground (arith, y, low), ground (arith, y, low), ground (arith, y, low)),
        )
]

close_absent-IsSound :
    (ps : Map ℕ LimiterPair) (us : Map ℕ User) (m : UserManager)
    → IsSound m
    → IsSound (close_absent ps us m)
unfolding close_absent
close_absent-IsSound [] us m h = h
close_absent-IsSound ((id, p) ∷ ps) us m h = elim (Bool-cases (has id us)) [
  | inl active ↦ rw active (close_absent-IsSound ps us m h)
  | inr gone ↦ rw gone (close_absent-IsSound ps us _ (close_limiter-IsSound id m h))
]

update_limiters-IsSound :
    (now : ℕ) (us : Map ℕ User) (m : UserManager)
    → IsSound m
    → IsSound (update_limiters true now us m)
unfolding update_limiters
update_limiters-IsSound now [] m h = h
update_limiters-IsSound now ((id, u) ∷ us) m h =
    update_limiters-IsSound now us _ (update_limiter-IsSound now u m h)

update_limiters-keeps :
    (now : ℕ) (us : Map ℕ User) (m : UserManager) (id r : ℕ)
    → KeysMatch us
    → lookup id us ≡ none
    → IsSound m
    → RunsAt m id r
    → RunsAt (update_limiters true now us m) id r
unfolding update_limiters lookup
update_limiters-keeps now [] m id r k e h x = x
update_limiters-keeps now ((j, v) ∷ us) m id r k e h x = elim (Bool-cases (nat_beq j id)) [
  | inl here ↦ absurd (ground (arith, here, e))
  | inr other ↦
      let ne : v.id ≢ id = λ c. ground (arith, other, c, k.0, nat_beq_iff j id) in
      update_limiters-keeps now us (update_limiter true now v m) id r k.1 (rw other at e)
        (update_limiter-IsSound now v m h) (update_limiter-keeps now v m id r h ne x)
]

update_limiters-RunsAt :
    (now : ℕ) (us : Map ℕ User) (m : UserManager) (id : ℕ) (u : User)
    → KeysMatch us
    → IsMap us
    → lookup id us ≡ some u
    → IsSound m
    → RunsAt (update_limiters true now us m) id (mbps_to_bytes u.speed_limit)
unfolding update_limiters lookup
update_limiters-RunsAt now [] m id u k q e h = cc
update_limiters-RunsAt now ((j, v) ∷ us) m id u k q e h = elim (Bool-cases (nat_beq j id)) [
  | inl here ↦
      let same : v ≡ u = ground (arith, here, e) in
      let at : v.id ≡ id = ground (arith, here, k.0, nat_beq_iff j id) in
      let absent : lookup id us ≡ none = ground (arith, here, q.0, nat_beq_iff j id) in
      let own = update_limiter-RunsAt now v m h in
      update_limiters-keeps now us (update_limiter true now v m) id (mbps_to_bytes u.speed_limit)
        k.1 absent (update_limiter-IsSound now v m h)
        (subst (λ i. RunsAt (update_limiter true now v m) i (mbps_to_bytes u.speed_limit)) at
          (subst (λ w. RunsAt (update_limiter true now v m) v.id (mbps_to_bytes w.speed_limit)) same
            own))
  | inr other ↦
      update_limiters-RunsAt now us (update_limiter true now v m) id u k.1 q.1 (rw other at e)
        (update_limiter-IsSound now v m h)
]

union_into-IsMap : (us union : Map ℕ User) → IsMap union → IsMap (union_into us union)
unfolding union_into
union_into-IsMap [] union q = q
union_into-IsMap ((id, u) ∷ us) union q = union_into-IsMap us _ (insert-IsMap id u union q)

union_of-IsMap :
    (by_inbound : Map Text (List User)) (union : Map ℕ User)
    → IsMap union
    → IsMap (union_of by_inbound union)
unfolding union_of
union_of-IsMap [] union q = q
union_of-IsMap ((tag, us) ∷ more) union q =
    union_of-IsMap more _ (union_into-IsMap (users_by_id us) union q)

-- After an update of the users in a build with user limits, no two users share a limiter, and both
-- limiters of each active user are open and set to the user's own speed limit: they limit to it if it
-- is positive, and let all pass otherwise, whatever the limit was before. The condition is that no
-- two users shared a limiter before and none of theirs was closed; the update keeps this.
pub commit_users-RunsAt :
    (now : ℕ) (by_inbound : Map Text (List User)) (m : UserManager) (id : ℕ) (u : User)
    → IsSound m
    → lookup id (commit_users true now by_inbound m).users ≡ some u
    → IsSound (commit_users true now by_inbound m)
      × RunsAt (commit_users true now by_inbound m) id (mbps_to_bytes u.speed_limit)
unfolding commit_users
commit_users-RunsAt now by_inbound m id u h e =
    let union = union_of by_inbound [] in
    let m' = ready by_inbound m in
    let closed = close_absent m.limiters union m' in
    let h' : IsSound m' = record { below = h.below; apart = h.apart; opens = h.opens } in
    let apart = close_absent-IsSound m.limiters union m' h' in
    let there : lookup id union ≡ some u =
      rw (users-update_limiters now union closed, users-close_absent m.limiters union m') at e in
    (
      update_limiters-IsSound now union closed apart,
      update_limiters-RunsAt now union closed id u (union_of-KeysMatch by_inbound [] tt)
          (union_of-IsMap by_inbound [] tt) there apart,
    )
