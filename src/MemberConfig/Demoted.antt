-- ===== src/MemberConfig/Demoted.antt =====
-- membership/src/config/joint_config.rs: the voters that a change demotes to learners, and drops.
use openraft.Prelude.{
  true-false, none-some, some-injective, ℕ, ◌⊎◌, ◌↔◌, ◌||◌, some, List, sym, arith, Option-cases,
  ◌≡◌, ◌∙◌, ap, refl, Bool, true, false, none, [], ◌∷◌, if◌then◌else◌, not, ◌&&◌, inl, inr,
  Bool-cases,
}
use openraft.Prelude.Ord.{nat_ord}
use openraft.Prelude.Maps.{lookup, retain, lookup-retain}
use openraft.Quorum.{contains}
use openraft.Quorum.Joint.{Joint}
use openraft.MemberConfig.{
  RuleIds, Config, ConfigNode, is_voter, no_role, voters, role_or, default_role,
}
use openraft.MemberConfig.Active.{contains-insert_ids, contains-voters}
use openraft.MemberConfig.Roles.{role_in}
use openraft.Membership.{NodeRole}
use openraft.MemberConfig.Joined.{
  Seen, get_node, node_ref, count_configs, count_config, any_read, any_write,
}
use openraft.MemberConfig.Edits.{
  drop_voters_demoted_to_learners, is_demoted, all_voters, retain_each,
}

parts_of :
    (receive_logs campaigner voter : Bool)
    → (receive_logs && not (campaigner || voter)) ≡ true
    → (receive_logs ≡ true) × (campaigner ≡ false) × (voter ≡ false)
parts_of true false false h = (refl, refl, refl)
parts_of true true voter h = cc
parts_of true false true h = cc
parts_of false campaigner voter h = cc

learner_of :
    (role other : NodeRole) (voter : Bool)
    → role ≡ other
    → other.receive_logs ≡ true
    → other.campaigner ≡ false
    → voter ≡ false
    → (role.receive_logs && not (role.campaigner || voter)) ≡ true
learner_of role other voter e h k l = ground arith

module _ {N Q : Type 0} ⦃i : RuleIds Q⦄ where
  -- a membership of one config
  abbrev pub one : Config N Q → Joint (Config N Q)
  one c = record { parts = c ∷ [] }

  -- the entry of the node, as the loop of `get_node` counts it
  count_config-retain :
      (c : Config N Q) (keep : ℕ → Bool) (x : ℕ) (seen : Seen N)
      → count_config true (record c { nodes = retain keep c.nodes }) x seen
        ≡ (if keep x then count_config true c x seen else seen)
  unfolding count_config is_voter
  count_config-retain c keep x (found, role) = elim (Bool-cases (keep x)) [
    | inl e ↦ rw (count_config, lookup-retain keep c.nodes x, e) refl
    | inr e ↦ rw (count_config, lookup-retain keep c.nodes x, e) refl
  ]

  get_node-retain :
      (c : Config N Q) (keep : ℕ → Bool) (x : ℕ)
      → get_node (one (record c { nodes = retain keep c.nodes })) x
        ≡ (if keep x then get_node (one c) x else none)
  unfolding get_node count_configs node_ref any_read any_write
  get_node-retain c keep x =
      ap (node_ref (c ∷ []) x) (count_config-retain c keep x (none, no_role)) ∙ by_test (keep x)
    where
      by_test :
          (b : Bool)
          → node_ref
              (c ∷ [])
              x
              (if b then count_config true c x (none, no_role) else (none, no_role))
            ≡ (if b then get_node (one c) x else none)
      by_test true = refl
      by_test false = refl

  -- a voter of a config of a membership
  abbrev pub IsVoterOf : List (Config N Q) → ℕ → Type 0
  IsVoterOf cs x = (any_read cs x || any_write cs x) ≡ true

  -- a node that the config has, which receives logs, but neither campaigns nor votes there
  abbrev pub IsLearner : Config N Q → ℕ → Type 0
  IsLearner c x =
      (role : NodeRole) × (role_in c (lookup x c.nodes) x ≡ some role)
      × (role.receive_logs ≡ true)
      × (role.campaigner ≡ false)
      × (is_voter c x ≡ false)

  contains-all_voters :
      (cs : List (Config N Q)) (x : ℕ)
      → contains (all_voters cs) x ≡ (any_read cs x || any_write cs x)
  unfolding all_voters any_read any_write is_voter contains
  contains-all_voters [] x = refl
  contains-all_voters (c ∷ cs) x = ground (
    arith,
    contains-insert_ids (voters c) (all_voters cs) x,
    contains-voters c x,
    contains-all_voters cs x,
  )

  is_demoted-none :
      (c : Config N Q) (x : ℕ) → lookup x c.nodes ≡ none → is_demoted (one c) x ≡ false
  unfolding is_demoted get_node count_configs count_config node_ref
  is_demoted-none c x e = rw (is_demoted, get_node, count_configs, count_config, e) refl

  is_demoted-some :
      (c : Config N Q) (x : ℕ) (ent : ConfigNode N) (role : NodeRole)
      → lookup x c.nodes ≡ some ent
      → role_or (default_role (is_voter c x)) ent.set_role ≡ role
      → is_demoted (one c) x ≡ (role.receive_logs && not (role.campaigner || is_voter c x))
  unfolding is_demoted get_node count_configs count_config node_ref any_read any_write
  is_demoted-some c x ent role e f =
      rw (is_demoted, get_node, count_configs, count_config, e)
        (unfold is_voter in ground (arith, f))

  is_demoted-IsLearner : (c : Config N Q) (x : ℕ) → (is_demoted (one c) x ≡ true) ↔ IsLearner c x
  is_demoted-IsLearner c x = elim (Option-cases (lookup x c.nodes)) [
    | inl e ↦ (
      λ h. absurd (true-false (sym h ∙ is_demoted-none c x e)),
      λ l. absurd (none-some (sym (ap (λ ent. role_in c ent x) e) ∙ l.1)),
    )
    | inr (ent, e) ↦
        let role = role_or (default_role (is_voter c x)) ent.set_role in
        let demoted = is_demoted-some c x ent role e refl in
        let same : role_in c (lookup x c.nodes) x ≡ some role = ap (λ ent. role_in c ent x) e in
        (
          λ h.
              let parts =
                parts_of role.receive_logs role.campaigner (is_voter c x) (sym demoted ∙ h) in
              (role, same, parts.0, parts.1, parts.2),
          λ l.
              demoted
              ∙ learner_of role l.0 (is_voter c x) (some-injective (sym same ∙ l.1)) l.2 l.3 l.4,
        )
  ]

  -- a voter of the membership that is a mere learner in the config
  abbrev pub IsDropped : Joint (Config N Q) → Config N Q → ℕ → Type 0
  IsDropped m c x = IsVoterOf m.parts x × IsLearner c x

  -- When a membership changes to one config, exactly the voters of it that receive logs there, but
  -- neither campaign nor vote, are dropped; every other node is as the config has it.
  pub get_node-drop_voters :
      (m : Joint (Config N Q)) (c : Config N Q) (x : ℕ)
      → (IsDropped m c x × (get_node (drop_voters_demoted_to_learners m (one c)) x ≡ none))
        ⊎ ((¬ IsDropped m c x)
            × (get_node (drop_voters_demoted_to_learners m (one c)) x ≡ get_node (one c) x))
  unfolding drop_voters_demoted_to_learners retain_each
  get_node-drop_voters m c x =
      by_tests (contains (all_voters m.parts) x) (is_demoted (one c) x) refl refl
    where
      dropped : get_node (drop_voters_demoted_to_learners m (one c)) x ≡ (
          if not (contains (all_voters m.parts) x && is_demoted (one c) x)
          then get_node (one c) x
          else none)
      dropped =
          get_node-retain c
            (λ node_id. not (contains (all_voters m.parts) node_id && is_demoted (one c) node_id)) x

      under :
          {a b : Bool}
          → contains (all_voters m.parts) x ≡ a
          → is_demoted (one c) x ≡ b
          → get_node (drop_voters_demoted_to_learners m (one c)) x
            ≡ (if not (a && b) then get_node (one c) x else none)
      under {a} e f =
          dropped
          ∙ (ap (λ b. if not (b && is_demoted (one c) x) then get_node (one c) x else none) e
              ∙ ap (λ b. if not (a && b) then get_node (one c) x else none) f)

      by_tests :
          (a b : Bool)
          → contains (all_voters m.parts) x ≡ a
          → is_demoted (one c) x ≡ b
          → (IsDropped m c x × (get_node (drop_voters_demoted_to_learners m (one c)) x ≡ none))
            ⊎ ((¬ IsDropped m c x)
                × (get_node (drop_voters_demoted_to_learners m (one c)) x ≡ get_node (one c) x))
      by_tests true true e f =
          inl ((sym (contains-all_voters m.parts x) ∙ e, (is_demoted-IsLearner c x).0 f), under e f)
      by_tests true false e f =
          inr (λ d. true-false (sym ((is_demoted-IsLearner c x).1 d.1) ∙ f), under e f)
      by_tests false b e f =
          inr (λ d. true-false (sym d.0 ∙ (sym (contains-all_voters m.parts x) ∙ e)), under e f)
