-- ===== src/Membership.antt =====
-- openraft/src/membership/{node_ref,raft_membership_ext}.rs: a node's roles in a membership, and
-- what a membership answers by `get_node`. The node's own data is left out, and a node id is an
-- unsigned integer without a bound.
use openraft.Prelude.{ℕ, Bool, true, false, Option, none, some, not, ◌||◌}

-- `NodeRole`: its two flags
pub record NodeRole : Type 0 where
  pub campaigner : Bool
  pub receive_logs : Bool

pub record NodeRef : Type 0 where
  pub role : NodeRole
  pub is_read_voter : Bool
  pub is_write_voter : Bool

abbrev pub node_is_learner : NodeRef → Bool
node_is_learner node = elim node.role.receive_logs [
  | false ↦ false
  | true ↦ not (node.role.campaigner || (node.is_read_voter || node.is_write_voter))
]

-- The trait `RaftMembership` (an application may implement it), by its method `get_node`.
pub record RaftMembership (Mem : Type 0) : Type 0 where
  pub get_node : Mem → ℕ → Option NodeRef

module _ {Mem : Type 0} ⦃m : RaftMembership Mem⦄ where
  unfoldable pub contains : Mem → ℕ → Bool
  contains mem node_id = elim (m.get_node mem node_id) [ none ↦ false | some node ↦ true ]

  unfoldable pub is_campaigner : Mem → ℕ → Bool
  is_campaigner mem node_id = elim (m.get_node mem node_id) [
    | none ↦ false
    | some node ↦ node.role.campaigner
  ]

  unfoldable pub receives_logs : Mem → ℕ → Bool
  receives_logs mem node_id = elim (m.get_node mem node_id) [
    | none ↦ false
    | some node ↦ node.role.receive_logs
  ]

  unfoldable pub is_write_voter : Mem → ℕ → Bool
  is_write_voter mem node_id = elim (m.get_node mem node_id) [
    | none ↦ false
    | some node ↦ node.is_write_voter
  ]

  unfoldable pub is_learner : Mem → ℕ → Bool
  is_learner mem node_id = elim (m.get_node mem node_id) [
    | none ↦ false
    | some node ↦ node_is_learner node
  ]
