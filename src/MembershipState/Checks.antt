-- ===== src/MembershipState/Checks.antt =====
-- openraft/src/membership/raft_membership_ext.rs: the checks of a membership that an application
-- supplies. An error is the id that it names, if it names one.
use openraft.Prelude.{
  ℕ, ◌≡◌, Bool, true, false, Option, none, some, List, [], ◌∷◌, if◌then◌else◌, not, ◌&&◌,
}
use openraft.Prelude.Ord.{nat_ord}
use openraft.Prelude.Maps.{insert_ids}
use openraft.Membership.{RaftMembership, contains, receives_logs}
use openraft.Quorum.{shares}
use openraft.VecProgress.{QuorumRule}
use openraft.Leader.{QuorumMembership}

-- The other methods of the trait `RaftMembership`, with what its documentation demands of them.
-- `same_node` tells whether two memberships have equal data for a node that both know; the text of
-- a membership is left out.
pub record ChangeableMembership (Mem : Type 0) ⦃n : QuorumMembership Mem⦄ : Type 0 where
  pub read_write_quorums_intersect : Mem → Option Bool
  pub supports_direct_transition_to : Mem → Mem → Bool
  pub joint_with : Mem → Mem → Mem
  pub same_node : Mem → Mem → ℕ → Bool
  pub shares-read_write :
      (m : Mem) (xs ys : List ℕ)
      → read_write_quorums_intersect m ≡ some true
      → (n.read_quorum_set m).is_quorum xs ≡ true
      → (n.write_quorum_set m).is_quorum ys ≡ true
      → shares xs ys ≡ true
  pub shares-direct_read :
      (m other : Mem) (xs ys : List ℕ)
      → supports_direct_transition_to m other ≡ true
      → (n.read_quorum_set m).is_quorum xs ≡ true
      → (n.write_quorum_set other).is_quorum ys ≡ true
      → shares xs ys ≡ true
  pub shares-direct_write :
      (m other : Mem) (xs ys : List ℕ)
      → supports_direct_transition_to m other ≡ true
      → (n.write_quorum_set m).is_quorum xs ≡ true
      → (n.read_quorum_set other).is_quorum ys ≡ true
      → shares xs ys ≡ true
  pub read-joint_with :
      (m goal : Mem) (xs : List ℕ)
      → (n.read_quorum_set (joint_with m goal)).is_quorum xs ≡ true
      → ((n.read_quorum_set m).is_quorum xs ≡ true) × ((n.read_quorum_set goal).is_quorum xs ≡ true)
  pub write-joint_with :
      (m goal : Mem) (xs : List ℕ)
      → (n.write_quorum_set (joint_with m goal)).is_quorum xs ≡ true
      → ((n.write_quorum_set m).is_quorum xs ≡ true)
        × ((n.write_quorum_set goal).is_quorum xs ≡ true)

-- `quorum_set.is_quorum(empty())` and `quorum_set.is_quorum(ids.iter())`, for one rule
unfoldable pub is_usable : QuorumRule → Bool
is_usable rule = if rule.is_quorum [] then false else rule.is_quorum rule.ids

module _ {Mem : Type 0} ⦃m : RaftMembership Mem⦄ ⦃n : QuorumMembership Mem⦄ where
  unfoldable pub voter_ids : Mem → List ℕ
  unfolding insert_ids
  voter_ids mem =
      insert_ids (n.write_quorum_set mem).ids (insert_ids (n.read_quorum_set mem).ids [])

  -- whether it returns `Ok`
  unfoldable pub ensure_non_empty_config : Mem → Bool
  unfolding is_usable
  ensure_non_empty_config mem =
      is_usable (n.read_quorum_set mem) && is_usable (n.write_quorum_set mem)

  unfoldable pub first_unknown : Mem → List ℕ → Option ℕ
  unfolding contains
  first_unknown mem [] = none
  first_unknown mem (voter_id ∷ ids) =
      let rest = first_unknown mem ids in if contains mem voter_id then rest else some voter_id

  unfoldable pub ensure_voters_have_nodes : Mem → Option ℕ
  unfolding voter_ids first_unknown
  ensure_voters_have_nodes mem = first_unknown mem (voter_ids mem)

  unfoldable pub first_without_logs : Mem → List ℕ → Option ℕ
  unfolding receives_logs
  first_without_logs mem [] = none
  first_without_logs mem (voter_id ∷ ids) =
      let rest = first_without_logs mem ids in
      if receives_logs mem voter_id then rest else some voter_id

  unfoldable pub ensure_write_voters_receive_logs : Mem → Option ℕ
  unfolding first_without_logs
  ensure_write_voters_receive_logs mem = first_without_logs mem (n.write_quorum_set mem).ids

module _ {Mem : Type 0} ⦃m : RaftMembership Mem⦄ ⦃n : QuorumMembership Mem⦄
    ⦃h : ChangeableMembership Mem⦄ where
  -- `intersects == Some(true)`
  unfoldable pub ensure_read_write_quorums_intersect : Mem → Bool
  ensure_read_write_quorums_intersect mem = elim (h.read_write_quorums_intersect mem) [
    | none ↦ false
    | some b ↦ b
  ]

  unfoldable pub allows_direct_transition_to : Mem → Mem → Bool
  unfolding ensure_non_empty_config
  allows_direct_transition_to mem other =
      if not (ensure_non_empty_config mem)
      then false
      else if not (ensure_non_empty_config other)
      then false
      else h.supports_direct_transition_to mem other

  unfoldable pub first_changed : Mem → Mem → List ℕ → Option ℕ
  unfolding contains
  first_changed mem other [] = none
  first_changed mem other (node_id ∷ ids) =
      let rest = first_changed mem other ids in
      if not (contains mem node_id)
      then rest
      else if not (contains other node_id)
      then rest
      else if not (h.same_node mem other node_id)
      then some node_id
      else rest

  unfoldable pub ensure_node_metadata_unchanged : Mem → Mem → Option ℕ
  unfolding first_changed
  ensure_node_metadata_unchanged mem other = first_changed mem other (n.node_ids mem)
