-- ===== src/MemberConfig/Roles.antt =====
-- membership/src/config.rs and config/joint_config.rs: the roles that are set on the nodes of a config,
-- and the voters that a change demotes.
use openraft.Prelude.{
  ℕ, ◌≡◌, ◌⊎◌, ◌∙◌, ap, sym, subst, refl, Bool, true, false, Option, none, some, List, [], ◌∷◌,
  if◌then◌else◌, ◌==◌, arith, inl, inr, Bool-cases, Option-cases,
}
use openraft.Prelude.Maps.{lookup, has_key, keys, change_at, lookup-change_at}
use openraft.Membership.{NodeRole}
use openraft.MemberConfig.{
  RuleIds, ConfigNode, Config, ok, node_not_found, role_or, default_role, is_voter, first_missing,
  stored_role, set_each, set_roles, same_role, same_bool,
}

-- no key twice, as in a `BTreeMap`
abbrev pub IsMap : {A : Type 0} → List (ℕ × A) → Type 0
IsMap [] = Unit
IsMap ((k, a) ∷ m) = (has_key k m ≡ false) × IsMap m

same_bool_eq : (a b : Bool) → same_bool a b ≡ true → a ≡ b
same_bool_eq true b h = sym h
same_bool_eq false true h = cc
same_bool_eq false false h = refl

same_role_eq : (a b : NodeRole) → same_role a b ≡ true → a ≡ b
same_role_eq a b h = λ j. record {
  campaigner = same_bool_eq a.campaigner b.campaigner (ground arith) j;
  receive_logs = same_bool_eq a.receive_logs b.receive_logs (ground arith) j;
}

same_key : (k : ℕ) → (k == k) ≡ true
same_key k = ground arith

no_key : {A : Type 0} (k : ℕ) (m : List (ℕ × A)) → has_key k m ≡ false → lookup k m ≡ none
no_key k m h = ground arith

-- the id of the error is no key of the one map, and a key of the other
first_missing_lem :
    {A B : Type 0} (nodes : List (ℕ × A)) (m : List (ℕ × B)) (id : ℕ)
    → first_missing nodes (keys m) ≡ some id
    → (lookup id nodes ≡ none) × (has_key id m ≡ true)
unfolding first_missing
first_missing_lem nodes [] id h = cc
first_missing_lem nodes ((k, b) ∷ m) id h = elim (Bool-cases (has_key k nodes)) [
  | inl e ↦ (
    (first_missing_lem nodes m id (ground (arith, h, e))).0,
    ground (arith, first_missing_lem nodes m id (ground (arith, h, e))),
  )
  | inr e ↦
      let p : k ≡ id = ground (arith, h, e) in
      (subst (λ z. lookup z nodes ≡ none) p (no_key k nodes e), ground (arith, p))
]

-- the role that is set last on a node, or the present one
abbrev pub role_after : Option NodeRole → Option NodeRole → Option NodeRole
role_after none old = old
role_after (some role) none = none
role_after (some role) (some old) = some role

module _ {N Q : Type 0} ⦃i : RuleIds Q⦄ where
  -- the role of a node in one config
  abbrev pub role_in : Config N Q → Option (ConfigNode N) → ℕ → Option NodeRole
  role_in c none node_id = none
  role_in c (some ent) node_id = some (role_or (default_role (is_voter c node_id)) ent.set_role)

  -- the stored role reads as the role that is set
  role_or-stored_role :
      (c : Config N Q) (node_id : ℕ) (role : NodeRole)
      → role_or (default_role (is_voter c node_id)) (stored_role c node_id role) ≡ role
  unfolding stored_role
  role_or-stored_role c node_id role =
      elim (Bool-cases (same_role role (default_role (is_voter c node_id)))) [
        | inl e ↦ rw e (sym (same_role_eq role (default_role (is_voter c node_id)) e))
        | inr e ↦ rw e refl
      ]

  -- the node at a key that is changed has the role that is set
  role_in-change_at :
      (c : Config N Q) (k : ℕ) (role : NodeRole) (nodes : List (ℕ × ConfigNode N))
      → role_in c
          (lookup k (change_at k (λ ent. record ent { set_role = stored_role c k role }) nodes))
          k
        ≡ role_after (some role) (role_in c (lookup k nodes) k)
  role_in-change_at c k role nodes =
      ap (λ o. role_in c o k)
        (lookup-change_at k (λ ent. record ent { set_role = stored_role c k role }) nodes k)
      ∙ at_self (lookup k nodes)
    where
      changed : Option (ConfigNode N) → Option (ConfigNode N)
      changed none = none
      changed (some ent) = some (record ent { set_role = stored_role c k role })

      at_self :
          (o : Option (ConfigNode N))
          → role_in c
              (if k == k
                then (elim o as (λ p. Option (ConfigNode N)) [
                  | none ↦ none
                  | some ent ↦ some (record ent { set_role = stored_role c k role })
                ])
                else lookup k nodes)
              k
            ≡ role_after (some role) (role_in c o k)
      at_self none = rw (same_key k) refl
      at_self (some ent) = rw (same_key k) (ap some (role_or-stored_role c k role))

  role_in-set_each :
      (c : Config N Q) (roles : List (ℕ × NodeRole)) (nodes : List (ℕ × ConfigNode N)) (x : ℕ)
      → IsMap roles
      → role_in c (lookup x (set_each c roles nodes)) x
        ≡ role_after (lookup x roles) (role_in c (lookup x nodes) x)
  unfolding set_each
  role_in-set_each c [] nodes x m = refl
  role_in-set_each c ((k, role) ∷ roles) nodes x m =
      role_in-set_each c roles (change_at k set nodes) x m.1 ∙ elim (Bool-cases (k == x)) [
        | inl e ↦
            subst
              (λ z.
                role_after (lookup z roles) (role_in c (lookup z (change_at k set nodes)) z)
                ≡ role_after (if k == z then some role else lookup z roles)
                    (role_in c (lookup z nodes) z))
              (key_eq e) at_key
        | inr e ↦ rw (lookup-change_at k set nodes x, e) refl
      ]
    where
      set : ConfigNode N → ConfigNode N
      set ent = record ent { set_role = stored_role c k role }

      key_eq : (k == x) ≡ true → k ≡ x
      key_eq e = ground arith

      at_key :
          role_after (lookup k roles) (role_in c (lookup k (change_at k set nodes)) k)
          ≡ role_after (if k == k then some role else lookup k roles) (role_in c (lookup k nodes) k)
      at_key = rw (same_key k, no_key k roles m.0) (role_in-change_at c k role nodes)

  -- Setting roles names a node that the config does not have, or leaves each node that is given a role
  -- with that role, and each other node with the one that it had.
  pub set_roles_lem :
      (c : Config N Q) (roles : List (ℕ × NodeRole))
      → IsMap roles
      → ((id : ℕ) × (set_roles c roles ≡ node_not_found id)
          × (lookup id c.nodes ≡ none)
          × (has_key id roles ≡ true))
        ⊎ ((c_new : Config N Q) × (set_roles c roles ≡ ok c_new)
            × (c_new.read ≡ c.read)
            × (c_new.write ≡ c.write)
            × ((x : ℕ)
                → role_in c_new (lookup x c_new.nodes) x
                  ≡ role_after (lookup x roles) (role_in c (lookup x c.nodes) x)))
  unfolding set_roles is_voter
  set_roles_lem c roles m = elim (Option-cases (first_missing c.nodes (keys roles))) [
    | inr (id, e) ↦ inl (
      id,
      rw (set_roles, e) refl,
      (first_missing_lem c.nodes roles id e).0,
      (first_missing_lem c.nodes roles id e).1,
    )
    | inl e ↦ inr (
      record c { nodes = set_each c roles c.nodes },
      rw (set_roles, e) refl,
      refl,
      refl,
      λ x. role_in-set_each c roles c.nodes x m,
    )
  ]
