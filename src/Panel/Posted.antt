-- ===== src/Panel/Posted.antt =====
-- What the clients of panelapi/client.go post to the panel for each account, by its number.
use mini_sb_agent.Base.{
  ℕ, ◌≡◌, refl, sym, ap, ◌∙◌, ◌≢◌, inl, inr, Bool, true, false, ◌&&◌, ◌||◌, Option, none, some,
  List, [], ◌∷◌, map, arith, if◌then◌else◌, Bool-cases, Option-cases, is_some, all, any, All, ◌==◌,
  nat_eq, list_eq, pair_eq, list_beq_iff, Map, lookup, has, insert, IsMap, lookup-insert, beq_refl,
  insert-IsMap, Text,
}
use mathlib.Core.Path.{subst}
use mini_sb_agent.Topology.{NodeSpec, inbound_tag}
use mini_sb_agent.Topology.Valid.{Distinct}
use mini_sb_agent.Users.Manager.Groups.{Runs}
use mini_sb_agent.Counter.Rounds.{amount}
use mini_sb_agent.Panel.{
  Delta, Http, Client, is_numeric_user, flatten_users, add_amounts, atoi, payload_from,
  new_node_client, new_topology_panel, collect,
}
use mini_sb_agent.Panel.Commit.{entry, IsDelta}
use mini_sb_agent.Panel.Push.{accepted, is_accepted, all_accepted}
use mini_sb_agent.Panel.Payload.{
  sent, own_users, collect-own, inbound_tag-nonempty, new_node_client-sends,
}

-- The bytes of an account in the body that the client posts, if the panel takes it.
abbrev pub posted : Http → Delta → Client → ℕ → ℕ × ℕ
posted http delta c uid =
    if accepted http delta c
    then amount (lookup uid (payload_from (collect c delta [] []).0 []))
    else (0, 0)

-- Of the names in the map, only `user` stands for the number.
abbrev IsOnly : Text → ℕ → Map Text (ℕ × ℕ) → Type 0
IsOnly user uid flat = (v : Text) → has v flat ≡ true → atoi v ≡ some uid → v ≡ user

abbrev or_else : Option (ℕ × ℕ) → Option (ℕ × ℕ) → Option (ℕ × ℕ)
or_else none b = b
or_else (some v) b = some v

differs_by_number :
    (u user : Text) (uid : ℕ) → atoi user ≡ some uid → atoi u ≢ some uid → (u == user) ≡ false
differs_by_number u user uid number other = elim (Bool-cases (u == user)) [
  | inr differs ↦ differs
  | inl same ↦ absurd (other (ap atoi ((list_beq_iff u user).0 same) ∙ number))
]

IsOnly-rest :
    (user : Text) (uid : ℕ) (u : Text) (d : ℕ × ℕ) (flat : Map Text (ℕ × ℕ))
    → IsOnly user uid ((u, d) ∷ flat)
    → IsOnly user uid flat
unfolding lookup
IsOnly-rest user uid u d flat only v h = only v (ground (arith, h, list_beq_iff u v))

lookup-payload_from :
    (user : Text) (uid : ℕ) (flat : Map Text (ℕ × ℕ)) (p : Map ℕ (ℕ × ℕ))
    → atoi user ≡ some uid
    → IsMap flat
    → IsOnly user uid flat
    → lookup uid (payload_from flat p) ≡ or_else (lookup user flat) (lookup uid p)
unfolding payload_from lookup
lookup-payload_from user uid [] p number is_map only = refl
lookup-payload_from user uid ((u, d) ∷ flat) p number is_map only =
    let rest = IsOnly-rest user uid u d flat only in
    elim (Option-cases (atoi u)) [
      | inl overflow ↦
          let differs =
            differs_by_number u user uid number (λ e. absurd (ground (arith, overflow, e))) in
          rw (overflow, payload_from, differs)
            (lookup-payload_from user uid flat p number is_map.1 rest)
      | inr (w, at) ↦ elim (Bool-cases (w == uid)) [
        | inl own ↦
            let same : u ≡ user =
              only u (ground (arith, list_beq_iff u u)) (ground (arith, at, own)) in
            let here : (u == user) ≡ true = (list_beq_iff u user).1 same in
            let gone : lookup user flat ≡ none = ap (λ v. lookup v flat) (sym same) ∙ is_map.0 in
            let put = lookup-insert w uid d p in
            rw (at, payload_from, here)
              (lookup-payload_from user uid flat (insert w d p) number is_map.1 rest
                ∙ rw (gone, put, own) refl)
        | inr other ↦
            let differs = differs_by_number u user uid number (λ e. ground (arith, at, e, other)) in
            let put = lookup-insert w uid d p in
            rw (at, payload_from, differs)
              (lookup-payload_from user uid flat (insert w d p) number is_map.1 rest
                ∙ rw (put, other) refl)
      ]
    ]

lookup-payload_absent :
    (uid : ℕ) (flat : Map Text (ℕ × ℕ)) (p : Map ℕ (ℕ × ℕ))
    → ((v : Text) → has v flat ≡ true → atoi v ≢ some uid)
    → lookup uid (payload_from flat p) ≡ lookup uid p
unfolding payload_from lookup
lookup-payload_absent uid [] p absent = refl
lookup-payload_absent uid ((u, d) ∷ flat) p absent =
    let rest : (v : Text) → has v flat ≡ true → atoi v ≢ some uid =
      λ v h. absent v (ground (arith, h, list_beq_iff u v)) in
    elim (Option-cases (atoi u)) [
      | inl overflow ↦ rw (overflow, payload_from) (lookup-payload_absent uid flat p rest)
      | inr (w, at) ↦
          let differs : (w == uid) ≡ false =
            ground (arith, at, absent u (ground (arith, list_beq_iff u u))) in
          rw (at, payload_from)
            (lookup-payload_absent uid flat (insert w d p) rest
              ∙ rw (lookup-insert w uid d p, differs) refl)
    ]

flatten_users-IsMap :
    (users flat : Map Text (ℕ × ℕ)) → IsMap flat → IsMap (flatten_users users flat)
unfolding flatten_users
flatten_users-IsMap [] flat h = h
flatten_users-IsMap ((u, v) ∷ users) flat h = elim (Bool-cases (is_numeric_user u)) [
  | inl numeric ↦
      rw (numeric, flatten_users)
        (flatten_users-IsMap users _ (insert-IsMap u (add_amounts (lookup u flat) v) flat h))
  | inr other ↦ rw (other, flatten_users) (flatten_users-IsMap users flat h)
]

own_users-IsMap : (o : Option (Map Text (ℕ × ℕ))) → IsMap (own_users o [])
own_users-IsMap none = tt
own_users-IsMap (some users) = flatten_users-IsMap users [] tt

-- Of the users of the inbound that the report has, only `user` stands for the number.
abbrev pub IsOnlyName : Text → Text → ℕ → Delta → Type 0
IsOnlyName tag user uid delta =
    (v : Text)
    → is_some (entry tag v delta) ≡ true
    → is_numeric_user v ≡ true
    → atoi v ≡ some uid
    → v ≡ user

or_else-none : (d : Option (ℕ × ℕ)) → or_else d none ≡ d
or_else-none none = refl
or_else-none (some v) = refl

module _ (base_url token : Text) (n : NodeSpec) (delta : Delta) (is_delta : IsDelta delta)
    (user : Text) (uid : ℕ) where
  collected-IsMap : IsMap (collect (new_node_client base_url token n) delta [] []).0
  unfolding new_node_client
  collected-IsMap =
      let own =
        collect-own (new_node_client base_url token n) delta [] [] (inbound_tag-nonempty n)
          is_delta.0 in
      subst IsMap (sym own) (own_users-IsMap (lookup (inbound_tag n) delta))

  -- A user whose bytes are sent is a numeric user of the node's inbound.
  pub collected-entry :
      (v : Text)
      → has v (collect (new_node_client base_url token n) delta [] []).0 ≡ true
      → (is_some (entry (inbound_tag n) v delta) ≡ true) × (is_numeric_user v ≡ true)
  collected-entry v present =
      let sends = new_node_client-sends base_url token n delta v is_delta in
      elim (Bool-cases (is_numeric_user v)) [
        | inr other ↦ absurd (ground (arith, present, sends, other))
        | inl numeric ↦ elim (Option-cases (entry (inbound_tag n) v delta)) [
          | inl missing ↦ absurd (ground (arith, present, sends, numeric, missing))
          | inr (d, there) ↦ (rw there refl, numeric)
        ]
      ]

  -- The body has the user's bytes under the number of the account.
  pub body-new_node_client :
      is_numeric_user user ≡ true
      → atoi user ≡ some uid
      → IsOnlyName (inbound_tag n) user uid delta
      → lookup uid (payload_from (collect (new_node_client base_url token n) delta [] []).0 [])
        ≡ sent (entry (inbound_tag n) user delta)
  unfolding lookup
  body-new_node_client numeric number only =
      let flat = (collect (new_node_client base_url token n) delta [] []).0 in
      let only' : IsOnly user uid flat =
        λ v present at. only v (collected-entry v present).0 (collected-entry v present).1 at in
      let paid = lookup-payload_from user uid flat [] number collected-IsMap only' in
      let sends = new_node_client-sends base_url token n delta user is_delta in
      let as_sent : (if is_numeric_user user then sent (entry (inbound_tag n) user delta) else none)
          ≡ sent (entry (inbound_tag n) user delta) =
        rw numeric refl in
      paid
      ∙ (ap (λ d. or_else d none) (sends ∙ as_sent)
          ∙ or_else-none (sent (entry (inbound_tag n) user delta)))

  -- An account that no numeric user of the node's inbound stands for is not in the body.
  pub body-absent :
      ((w : Text)
        → is_some (entry (inbound_tag n) w delta) ≡ true
        → is_numeric_user w ≡ true
        → atoi w ≢ some uid)
      → lookup uid (payload_from (collect (new_node_client base_url token n) delta [] []).0 [])
        ≡ none
  unfolding lookup
  body-absent absent =
      lookup-payload_absent uid (collect (new_node_client base_url token n) delta [] []).0 []
        (λ w present. absent w (collected-entry w present).0 (collected-entry w present).1)

module _ (http : Http) (base_url token : Text) (n : NodeSpec) (delta : Delta)
    (is_delta : IsDelta delta) (user : Text) (uid : ℕ) where
  -- The bytes that the client of a node posts for an account are those that its inbound counted for
  -- the user.
  pub posted-new_node_client :
      is_numeric_user user ≡ true
      → atoi user ≡ some uid
      → IsOnlyName (inbound_tag n) user uid delta
      → posted http delta (new_node_client base_url token n) uid ≡ (
          if accepted http delta (new_node_client base_url token n)
          then amount (sent (entry (inbound_tag n) user delta))
          else (0, 0))
  posted-new_node_client numeric number only =
      ap (λ d. if accepted http delta (new_node_client base_url token n) then amount d else (0, 0))
        (body-new_node_client base_url token n delta is_delta user uid numeric number only)

differs-Runs :
    (tag : Text) (ns : List NodeSpec) (n : NodeSpec)
    → All (λ t. tag ≢ t) (map inbound_tag ns)
    → Runs n ns
    → tag ≢ inbound_tag n
differs-Runs tag [] n all_differ runs e = absurd runs
differs-Runs tag (m ∷ ns) n all_differ (inl here) e = all_differ.0 (e ∙ ap inbound_tag (sym here))
differs-Runs tag (m ∷ ns) n all_differ (inr later) e = differs-Runs tag ns n all_differ.1 later e

and_true-or_false : (b : Bool) → (b && true || false) ≡ b
and_true-or_false b = ground arith

and_false-or : (b d : Bool) → (b && false || d) ≡ d
and_false-or b d = ground arith

module _ (http : Http) (base_url token : Text) (delta : Delta) where
  is_accepted-cons :
      (m : NodeSpec) (ns : List NodeSpec) (tag : Text)
      → is_accepted http delta (new_topology_panel base_url token (m ∷ ns)) tag ≡ (
          (accepted http delta (new_node_client base_url token m) && inbound_tag m == tag)
          || is_accepted http delta (new_topology_panel base_url token ns) tag)
  unfolding new_topology_panel any
  is_accepted-cons m ns tag = refl

  is_accepted-foreign :
      (ns : List NodeSpec) (tag : Text)
      → All (λ t. tag ≢ t) (map inbound_tag ns)
      → is_accepted http delta (new_topology_panel base_url token ns) tag ≡ false
  unfolding new_topology_panel any
  is_accepted-foreign [] tag h = refl
  is_accepted-foreign (m ∷ ns) tag h =
      let differs : (inbound_tag m == tag) ≡ false =
        ground (arith, h.0, list_beq_iff (inbound_tag m) tag) in
      let rest = is_accepted-foreign ns tag h.1 in
      is_accepted-cons m ns tag ∙ rw (differs, rest) (and_false-or _ false)

  -- The tag of a node is taken exactly if the push of the node's client went through.
  pub is_accepted-own :
      (ns : List NodeSpec) (n : NodeSpec)
      → Distinct (map inbound_tag ns)
      → Runs n ns
      → is_accepted http delta (new_topology_panel base_url token ns) (inbound_tag n)
        ≡ accepted http delta (new_node_client base_url token n)
  is_accepted-own [] n d runs = absurd runs
  is_accepted-own (m ∷ ns) n d (inl here) =
      let rest = is_accepted-foreign ns (inbound_tag m) d.0 in
      let own : is_accepted http delta (new_topology_panel base_url token (m ∷ ns)) (inbound_tag m)
          ≡ accepted http delta (new_node_client base_url token m) =
        is_accepted-cons m ns (inbound_tag m)
        ∙ rw (rest, beq_refl (inbound_tag m)) (and_true-or_false _) in
      subst
        (λ k.
          is_accepted http delta (new_topology_panel base_url token (m ∷ ns)) (inbound_tag k)
          ≡ accepted http delta (new_node_client base_url token k))
        here own
  is_accepted-own (m ∷ ns) n d (inr later) =
      let differs : (inbound_tag m == inbound_tag n) ≡ false = ground (
        arith,
        differs-Runs (inbound_tag m) ns n d.0 later,
        list_beq_iff (inbound_tag m) (inbound_tag n),
      ) in
      let rest = is_accepted-own ns n d.1 later in
      is_accepted-cons m ns (inbound_tag n) ∙ rw (differs, rest) (and_false-or _ _)

  pub all_accepted-own :
      (ns : List NodeSpec) (n : NodeSpec)
      → Runs n ns
      → accepted http delta (new_node_client base_url token n) ≡ false
      → all_accepted http delta (new_topology_panel base_url token ns) ≡ false
  unfolding new_topology_panel all
  all_accepted-own [] n runs e = absurd runs
  all_accepted-own (m ∷ ns) n (inl here) e =
      let own : accepted http delta (new_node_client base_url token m) ≡ false = rw here e in
      ground (arith, own)
  all_accepted-own (m ∷ ns) n (inr later) e = ground (arith, all_accepted-own ns n later e)
