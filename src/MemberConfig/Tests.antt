-- ===== src/MemberConfig/Tests.antt =====
-- Two memberships, of one config each: nodes 1 to 3 vote in the first one, and nodes 2 to 4 in the
-- other, each with the weight 1, and two of them make a quorum.
use openraft.Prelude.{ℕ, ◌≡◌, ◌⊎◌, refl, Bool, true, false, none, some, List, [], ◌∷◌}
use openraft.Prelude.Ord.{nat_ord}
use openraft.Prelude.Maps.{lookup, has_key}
use openraft.LogId.{cmp_log_id}
use openraft.Quorum.{contains}
use openraft.Quorum.Joint as Joints
use openraft.Quorum.Joint.{Joint}
use openraft.Quorum.Weighted.{
  WeightedQuorumSet, weighted_quorum_set, weighted_intersection, intersects_with, is_quorum,
}
use openraft.Membership.{NodeRole}
use openraft.MembershipState.{MembershipState, is_committed}
use openraft.MembershipState.Checks.{ChangeableMembership}
use openraft.MembershipState.Next.{Answer, success, next_membership, validate_append_membership}
use openraft.MembershipState.Steps.{
  IsChangeAnswer, IsSafeStep, next_membership-IsChangeAnswer, validate_append_membership-IsSafeStep,
}
use openraft.MemberConfig.{RuleIds, ConfigNode, Config, ok, node_not_found, set_roles}
use openraft.MemberConfig.Joined.{
  get_node, node_ids, joint_membership, read_write_quorums_intersect, supports_direct_transition_to,
}
use openraft.MemberConfig.Edits.{joint_with, drop_voters_demoted_to_learners}
use openraft.MemberConfig.Demoted.{one, IsDropped, get_node-drop_voters}
use openraft.MemberConfig.Roles.{role_in, role_after, set_roles_lem}
use openraft.MemberConfig.Active.{is_known, get_node-node_ids}
use openraft.MemberConfig.Change.{IsJointOf, joint_with-IsJointOf}
use openraft.MemberConfig.Interface as Interfaces
use openraft.Leader.{QuorumMembership}
use openraft.RaftState.Fixtures.{id}

abbrev first_ids : List (ℕ × ℕ) → List ℕ
first_ids [] = []
first_ids ((k, weight) ∷ ws) = k ∷ first_ids ws

instance abbrev weighted_ids : RuleIds (WeightedQuorumSet ℕ)
weighted_ids = record { ids = λ q. first_ids q.weights }

abbrev plain : ConfigNode ℕ
plain = record { node = 0; set_role = none }

abbrev config_of : ℕ → ℕ → ℕ → Config ℕ (WeightedQuorumSet ℕ)
config_of a b c = record {
  read = record { weights = (a, 1) ∷ (b, 1) ∷ (c, 1) ∷ []; threshold = 2 };
  write = record { weights = (a, 1) ∷ (b, 1) ∷ (c, 1) ∷ []; threshold = 2 };
  nodes = (a, plain) ∷ (b, plain) ∷ (c, plain) ∷ [];
}

abbrev before : Joint (Config ℕ (WeightedQuorumSet ℕ))
before = record { parts = config_of 1 2 3 ∷ [] }

abbrev goal : Joint (Config ℕ (WeightedQuorumSet ℕ))
goal = record { parts = config_of 2 3 4 ∷ [] }

instance abbrev quorums : QuorumMembership (Joint (Config ℕ (WeightedQuorumSet ℕ)))
quorums = Interfaces.joint_quorums ⦃s = weighted_quorum_set⦄

abbrev changes : ChangeableMembership (Joint (Config ℕ (WeightedQuorumSet ℕ)))
changes = Interfaces.joint_changes ⦃s = weighted_quorum_set⦄ weighted_intersection (λ a b. true)

-- nodes 2 to 4 vote, and node 1 is known
abbrev later : Config ℕ (WeightedQuorumSet ℕ)
later = record (config_of 2 3 4) { nodes = (1, plain) ∷ (config_of 2 3 4).nodes }

get_node-node_ids_example : is_known (get_node before 3) ≡ contains (node_ids before) 3
get_node-node_ids_example = get_node-node_ids before 3

joint_with-IsJointOf_example :
    (joint : Joint (Config ℕ (WeightedQuorumSet ℕ))) × (joint_with before goal ≡ some joint)
    × IsJointOf before goal joint
joint_with-IsJointOf_example = joint_with-IsJointOf before goal

-- node 3 is to receive logs only
abbrev roles : List (ℕ × NodeRole)
roles = (3, record { campaigner = false; receive_logs = true }) ∷ []

set_roles_lem_example :
    ((k : ℕ) × (set_roles (config_of 1 2 3) roles ≡ node_not_found k)
      × (lookup k (config_of 1 2 3).nodes ≡ none)
      × (has_key k roles ≡ true))
    ⊎ ((c_new : Config ℕ (WeightedQuorumSet ℕ)) × (set_roles (config_of 1 2 3) roles ≡ ok c_new)
        × (c_new.read ≡ (config_of 1 2 3).read)
        × (c_new.write ≡ (config_of 1 2 3).write)
        × ((x : ℕ)
            → role_in c_new (lookup x c_new.nodes) x
              ≡ role_after
                  (lookup x roles)
                  (role_in (config_of 1 2 3) (lookup x (config_of 1 2 3).nodes) x)))
set_roles_lem_example = set_roles_lem (config_of 1 2 3) roles (refl, tt)

-- the first membership is committed, at log 0
abbrev state : MembershipState ℕ (Joint (Config ℕ (WeightedQuorumSet ℕ)))
state = record {
  committed = record { log_id = some (id 1 0); membership = before };
  effective = record { log_id = some (id 1 0); membership = before };
}

abbrev edited :
    Joint (Config ℕ (WeightedQuorumSet ℕ))
    → Bool
    → Answer ℕ (Joint (Config ℕ (WeightedQuorumSet ℕ)))
edited m retain = success goal

next_membership-IsChangeAnswer_example :
    IsChangeAnswer ⦃h = changes⦄ state
      (edited before true)
      (next_membership ⦃h = changes⦄ state edited true)
unfolding read_write_quorums_intersect intersects_with
next_membership-IsChangeAnswer_example =
    next_membership-IsChangeAnswer ⦃h = changes⦄ state edited true refl

-- the membership itself may be appended again
accepted : validate_append_membership {E = ℕ} ⦃h = changes⦄ state before ≡ none
unfolding read_write_quorums_intersect intersects_with validate_append_membership cmp_log_id
    Joints.is_quorum is_quorum Interfaces.joint_ids get_node node_ids supports_direct_transition_to
accepted = refl

validate_append_membership-IsSafeStep_example :
    (is_committed state ≡ true) × IsSafeStep ⦃h = changes⦄ before before
validate_append_membership-IsSafeStep_example =
    validate_append_membership-IsSafeStep ⦃h = changes⦄ state before accepted

get_node-drop_voters_example :
    (IsDropped before later 1
      × (get_node (drop_voters_demoted_to_learners before (one later)) 1 ≡ none))
    ⊎ ((¬ IsDropped before later 1)
        × (get_node (drop_voters_demoted_to_learners before (one later)) 1
            ≡ get_node (one later) 1))
get_node-drop_voters_example = get_node-drop_voters before later 1
