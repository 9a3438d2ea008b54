-- ===== src/Base/Maps.antt =====
-- Go's maps as association lists. The order of the entries is the order in which `range` visits
-- them; Go leaves it open, so the statements are about every list.
use mathlib.Core.Path.{◌≡◌, refl}
use mathlib.Core.Bool.{Bool, true}
use mathlib.Core.Option.{Option, none, some}
use mathlib.Core.List.{List, [], ◌∷◌}
use native.Mathlib.Omega.{arith}
use mini_sb_agent.Base.Tests.{if◌then◌else◌, is_some}
use mini_sb_agent.Base.Keys.{Eq, ◌==◌}

abbrev pub Map {ℓ} : Type ℓ → Type ℓ → Type ℓ
Map K V = List (K × V)

pub beq_refl {ℓ} : {K : Type ℓ} ⦃e : Eq K⦄ (k : K) → (k == k) ≡ true
beq_refl ⦃e⦄ k = (e.beq_iff k k).1 refl

module _ {ℓ} {K V : Type ℓ} ⦃e : Eq K⦄ where
  -- `m[k]`, with `none` for a missing key
  unfoldable pub lookup : K → Map K V → Option V
  lookup k [] = none
  lookup k ((i, u) ∷ m) = if i == k then some u else lookup k m

  -- `_, ok := m[k]`
  abbrev pub has : K → Map K V → Bool
  has k m = is_some (lookup k m)

  -- `m[k] = v`
  unfoldable pub insert : K → V → Map K V → Map K V
  insert k v [] = (k, v) ∷ []
  insert k v ((i, u) ∷ m) = if i == k then (i, v) ∷ m else (i, u) ∷ insert k v m

  -- `delete(m, k)`
  unfoldable pub delete : K → Map K V → Map K V
  delete k [] = []
  delete k ((j, v) ∷ m) = let rest = delete k m in if j == k then rest else (j, v) ∷ rest

  -- No key stands twice, as in every Go map.
  abbrev pub IsMap : Map K V → Type ℓ
  IsMap [] = Unit
  IsMap ((k, v) ∷ m) = (lookup k m ≡ none) × IsMap m

  -- What a key leads to after an assignment.
  pub lookup-insert :
      (a b : K) (v : V) (m : Map K V)
      → lookup b (insert a v m) ≡ (if a == b then some v else lookup b m)
  unfolding lookup insert
  lookup-insert a b v [] = refl
  lookup-insert a b v ((i, u) ∷ m) =
      ground (arith, lookup-insert a b v m, e.beq_iff a b, e.beq_iff i a, e.beq_iff i b)

  pub lookup-delete :
      (k j : K) (m : Map K V) → lookup j (delete k m) ≡ (if k == j then none else lookup j m)
  unfolding lookup delete
  lookup-delete k j [] = ground arith
  lookup-delete k j ((i, w) ∷ m) =
      ground (arith, e.beq_iff k j, e.beq_iff i k, e.beq_iff i j, lookup-delete k j m)

  pub insert-IsMap : (k : K) (v : V) (m : Map K V) → IsMap m → IsMap (insert k v m)
  unfolding insert lookup
  insert-IsMap k v [] h = (refl, tt)
  insert-IsMap k v ((j, w) ∷ m) h =
      ground (arith, e.beq_iff j k, e.beq_iff k j, lookup-insert k j v m, insert-IsMap k v m h.1)

  pub delete-IsMap : (k : K) (m : Map K V) → IsMap m → IsMap (delete k m)
  unfolding delete lookup
  delete-IsMap k [] h = tt
  delete-IsMap k ((j, w) ∷ m) h = ground (arith, lookup-delete k j m, delete-IsMap k m h.1)

-- The entries that `f` answers for, with its answer for the value: a `range` loop that fills a new
-- map, or deletes from the map that it visits.
module _ {ℓ} {K V W : Type ℓ} ⦃e : Eq K⦄ (f : K → V → Option W) where
  unfoldable pub select : Map K V → Map K W
  select [] = []
  select ((k, v) ∷ m) = let rest = select m in elim (f k v) [ none ↦ rest | some w ↦ (k, w) ∷ rest ]

  abbrev pub answer : K → Option V → Option W
  answer k none = none
  answer k (some v) = f k v

  pub lookup-select : (j : K) (m : Map K V) → IsMap m → lookup j (select m) ≡ answer j (lookup j m)
  unfolding lookup select
  lookup-select j [] h = refl
  lookup-select j ((i, v) ∷ m) h = ground (arith, e.beq_iff i j, lookup-select j m h.1)

  pub select-IsMap : (m : Map K V) → IsMap m → IsMap (select m)
  unfolding select
  select-IsMap [] h = tt
  select-IsMap ((i, v) ∷ m) h = ground (arith, lookup-select i m h.1, select-IsMap m h.1)
