-- ===== src/Users/Manager/Secrets.antt =====
-- `secretsFrom` of cmd/mini-sb-agent/user_manager.go: which account a secret stands for.
use mini_sb_agent.Base.{
  ℕ, ◌≡◌, ◌⊎◌, Option, some, none, List, [], ◌∷◌, nat_eq, list_eq, pair_eq, Map, lookup, Text,
}
use mini_sb_agent.Users.{User, secrets_of}

abbrev In : Text → List Text → Type 0
In s [] = ⊥
In s (t ∷ ts) = (t ≡ s) ⊎ In s ts

-- The UUID, the password or the name of the user.
abbrev pub HasSecret : User → Text → Type 0
HasSecret u s = In s (secrets_of u)

-- A user of the id has the secret, or, for none, no user has it.
abbrev pub IsOwner : Map ℕ User → Text → Option ℕ → Type 0
IsOwner us s (some id) = (u : User) × (lookup id us ≡ some u) × HasSecret u s
IsOwner us s none = ¬ ((id : ℕ) × ((u : User) × (lookup id us ≡ some u) × HasSecret u s))
