-- ===== src/MemberConfig/Edits.antt =====
-- membership/src/config/joint_config.rs: how a membership replaces its config, and how it is joined with
-- the membership that it changes to.
use openraft.Prelude.{
  ℕ, Bool, false, Option, none, some, List, [], ◌∷◌, if◌then◌else◌, not, ◌&&◌, last?, ◌>>=◌,
}
use openraft.Prelude.Ord.{nat_ord}
use openraft.Prelude.Maps.{lookup, insert, retain, insert_ids}
use openraft.Membership.{NodeRole, node_is_learner}
use openraft.Quorum.{contains}
use openraft.Quorum.Joint as Joints
use openraft.Quorum.Joint.{Joint}
use openraft.MemberConfig.{
  RuleIds, ConfigNode, Config, NodeChange, Checked, ok, node_not_found, voters, new_config,
  set_roles, keep_roles, edit_nodes,
}
use openraft.MemberConfig.Joined.{get_node, node_ids}

module _ {N Q : Type 0} ⦃i : RuleIds Q⦄ where
  -- `self.get_node(&node_id).unwrap()`, of each active node; `none` is the panic
  unfoldable pub node_data : Joint (Config N Q) → List ℕ → Option (List (ℕ × N))
  unfolding get_node insert
  node_data m [] = some []
  node_data m (node_id ∷ ids) = do
    known ← get_node m node_id
    rest ← node_data m ids
    some (insert node_id known.0 rest)

  -- the voters that the goal knows, but as learners
  unfoldable pub is_demoted : Joint (Config N Q) → ℕ → Bool
  unfolding get_node
  is_demoted goal node_id = elim (get_node goal node_id) [
    | none ↦ false
    | some known ↦ node_is_learner known.1
  ]

  unfoldable pub all_voters : List (Config N Q) → List ℕ
  unfolding insert_ids voters
  all_voters [] = []
  all_voters (c ∷ cs) = insert_ids (voters c) (all_voters cs)

  unfoldable pub retain_each : (ℕ → Bool) → List (Config N Q) → List (Config N Q)
  unfolding retain
  retain_each keep [] = []
  retain_each keep (c ∷ cs) = record c { nodes = retain keep c.nodes } ∷ retain_each keep cs

  -- `demoted` is a set of voters; a node stays unless it is in the set
  unfoldable pub drop_voters_demoted_to_learners :
      Joint (Config N Q) → Joint (Config N Q) → Joint (Config N Q)
  unfolding is_demoted all_voters retain_each contains
  drop_voters_demoted_to_learners m goal = record {
    parts =
        retain_each
          (λ node_id. not (contains (all_voters m.parts) node_id && is_demoted goal node_id))
          goal.parts;
  }

  -- the roles that the last config sets stay
  unfoldable pub keep_last : List (Config N Q) → Config N Q → Config N Q
  unfolding keep_roles
  keep_last cs config = elim (last? cs) [ none ↦ config | some last ↦ keep_roles config last ]

  -- the new config, once the nodes are edited
  unfoldable pub with_change :
      Joint (Config N Q)
      → List (ℕ × NodeRole)
      → Bool
      → Checked (Config N Q)
      → Checked (Joint (Config N Q))
  unfolding keep_last set_roles drop_voters_demoted_to_learners
  with_change m roles retain_learners (node_not_found node_id) = node_not_found node_id
  with_change m roles retain_learners (ok config) =
      elim (set_roles (keep_last m.parts config) roles) [
        | node_not_found node_id ↦ node_not_found node_id
        | ok set ↦
            let target : Joint (Config N Q) = record { parts = set ∷ [] } in
            ok (if retain_learners then target else drop_voters_demoted_to_learners m target)
      ]

  -- the outer `none` is a panic
  unfoldable pub replace_config :
      Joint (Config N Q) → Q → Q → NodeChange N → Bool → Option (Checked (Joint (Config N Q)))
  unfolding node_ids node_data edit_nodes new_config with_change
  replace_config m read write change retain_learners = do
    nodes ← node_data m (node_ids m)
    some (
        with_change m change.roles retain_learners
          (new_config read write (edit_nodes change nodes)))

  -- the data of the nodes of a joint: the goal's, or else that of `self`; `none` is the panic
  unfoldable pub resolved : Joint (Config N Q) → Joint (Config N Q) → ℕ → Option N
  unfolding get_node
  resolved m goal node_id = elim (get_node goal node_id) [
    | some known ↦ some known.0
    | none ↦ elim (get_node m node_id) [ none ↦ none | some known ↦ some known.0 ]
  ]

  unfoldable pub metadata : Joint (Config N Q) → Joint (Config N Q) → List ℕ → Option (List (ℕ × N))
  unfolding resolved insert
  metadata m goal [] = some []
  metadata m goal (node_id ∷ ids) = do
    node ← resolved m goal node_id
    rest ← metadata m goal ids
    some (insert node_id node rest)

module _ {N : Type 0} where
  abbrev pub with_data : Option N → ConfigNode N → ConfigNode N
  with_data none ent = ent
  with_data (some node) ent = record ent { node = node }

  unfoldable pub resolve_nodes : List (ℕ × N) → List (ℕ × ConfigNode N) → List (ℕ × ConfigNode N)
  resolve_nodes data_of [] = []
  resolve_nodes data_of ((node_id, ent) ∷ nodes) =
      (node_id, with_data (lookup node_id data_of) ent) ∷ resolve_nodes data_of nodes

module _ {N Q : Type 0} where
  unfoldable pub resolve_each : List (ℕ × N) → List (Config N Q) → List (Config N Q)
  unfolding resolve_nodes
  resolve_each data_of [] = []
  resolve_each data_of (c ∷ cs) =
      record c { nodes = resolve_nodes data_of c.nodes } ∷ resolve_each data_of cs

module _ {N Q : Type 0} ⦃i : RuleIds Q⦄ where
  unfoldable pub joint_with : Joint (Config N Q) → Joint (Config N Q) → Option (Joint (Config N Q))
  unfolding Joints.joint_with node_ids metadata resolve_each
  joint_with m goal = do
    let joint = Joints.joint_with m goal
    data_of ← metadata m goal (node_ids joint)
    some (record { parts = resolve_each data_of joint.parts })

module _ {N Q : Type 0} ⦃i : RuleIds Q⦄ where
  -- the roles of the last config are set; without a config, no role can be
  unfoldable pub set_last : List (Config N Q) → List (ℕ × NodeRole) → Checked (List (Config N Q))
  unfolding set_roles
  set_last [] [] = ok []
  set_last [] ((node_id, role) ∷ roles) = node_not_found node_id
  set_last (c ∷ []) roles = elim (set_roles c roles) [
    | ok set ↦ ok (set ∷ [])
    | node_not_found node_id ↦ node_not_found node_id
  ]
  set_last (c ∷ d ∷ cs) roles = elim (set_last (d ∷ cs) roles) [
    | ok set ↦ ok (c ∷ set)
    | node_not_found node_id ↦ node_not_found node_id
  ]

  unfoldable pub with_roles :
      Joint (Config N Q) → List (ℕ × NodeRole) → Checked (Joint (Config N Q))
  unfolding set_last
  with_roles m roles = elim (set_last m.parts roles) [
    | ok parts ↦ ok (record { parts = parts })
    | node_not_found node_id ↦ node_not_found node_id
  ]
