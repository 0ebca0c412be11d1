-- ===== src/MembershipState/Next.antt =====
-- openraft/src/raft_state/membership_state/mod.rs: the next membership of a change, and the check of a
-- membership that is appended directly. `change.apply` is an argument, with an error `E` of its own.
use openraft.Prelude.{ℕ, Bool, true, false, Option, none, some, if◌then◌else◌}
use openraft.Prelude.Ord.{Ord}
use openraft.Membership.{RaftMembership}
use openraft.Leader.{QuorumMembership}
use openraft.MembershipState.{MembershipState, is_committed}
use openraft.MembershipState.Checks.{
  ChangeableMembership, ensure_non_empty_config, ensure_voters_have_nodes,
  ensure_write_voters_receive_logs, ensure_read_write_quorums_intersect,
  ensure_node_metadata_unchanged, allows_direct_transition_to,
}

-- `ChangeMembershipError`: the variants that these functions give, and the error of the edit
pub data ChangeError (E : Type 0) : Type 0 where
  in_progress : ChangeError E
  edit_error : E → ChangeError E
  empty_membership : ChangeError E
  node_not_found : ℕ → ChangeError E
  write_voter_without_receive_logs : ℕ → ChangeError E
  unproven_intersection : ChangeError E
  node_metadata_changed : ℕ → ChangeError E
  unsupported_transition : ChangeError E

-- a `Result`
pub data Answer (E A : Type 0) : Type 0 where
  success : A → Answer E A
  failure : E → Answer E A

-- the error of a check that names an id, if there is one
abbrev pub named_error : {E : Type 0} → (ℕ → E) → Option ℕ → Option E
named_error error none = none
named_error error (some id) = some (error id)

-- `?` on a check, and then the rest
abbrev pub or_error : {E : Type 0} → Option E → Option E → Option E
or_error none rest = rest
or_error (some error) rest = some error

abbrev pub unless : {E : Type 0} → Bool → E → Option E
unless true error = none
unless false error = some error

module _ {E Mem : Type 0} ⦃m : RaftMembership Mem⦄ ⦃n : QuorumMembership Mem⦄
    ⦃h : ChangeableMembership Mem⦄ where
  -- the four checks of a membership by itself, in this order
  unfoldable pub check_membership : Mem → Option (ChangeError E)
  unfolding ensure_non_empty_config ensure_voters_have_nodes ensure_write_voters_receive_logs
      ensure_read_write_quorums_intersect
  check_membership mem = or_error (unless (ensure_non_empty_config mem) empty_membership) (
      or_error (named_error node_not_found (ensure_voters_have_nodes mem)) (
        or_error
          (named_error write_voter_without_receive_logs (ensure_write_voters_receive_logs mem))
          (unless (ensure_read_write_quorums_intersect mem) unproven_intersection)))

  -- the goal, or the joint membership, which is marked
  unfoldable pub next_of_goal : Mem → Mem → Answer (ChangeError E) (Mem × Bool)
  unfolding check_membership allows_direct_transition_to
  next_of_goal effective goal = elim (check_membership goal) [
    | some error ↦ failure error
    | none ↦
        if allows_direct_transition_to effective goal
        then success (goal, false)
        else success (h.joint_with effective goal, true)
  ]

  unfoldable pub next_of_edited : Mem → Answer E Mem → Answer (ChangeError E) (Mem × Bool)
  unfolding next_of_goal
  next_of_edited effective (failure error) = failure (edit_error error)
  next_of_edited effective (success goal) = next_of_goal effective goal

module _ {CLID E Mem : Type 0} ⦃o : Ord CLID⦄ ⦃m : RaftMembership Mem⦄ ⦃n : QuorumMembership Mem⦄
    ⦃h : ChangeableMembership Mem⦄ where
  unfoldable pub next_membership :
      MembershipState CLID Mem
      → (Mem → Bool → Answer E Mem)
      → Bool
      → Answer (ChangeError E) (Mem × Bool)
  unfolding is_committed next_of_edited
  next_membership s apply retain =
      let effective = s.effective.membership in
      if is_committed s
      then next_of_edited effective (apply effective retain)
      else failure in_progress

  unfoldable pub validate_append_membership :
      MembershipState CLID Mem → Mem → Option (ChangeError E)
  unfolding is_committed check_membership ensure_node_metadata_unchanged allows_direct_transition_to
  validate_append_membership s proposed =
      let effective = s.effective.membership in
      or_error (unless (is_committed s) in_progress) (
        or_error (check_membership proposed) (
          or_error
            (named_error node_metadata_changed (ensure_node_metadata_unchanged effective proposed))
            (unless (allows_direct_transition_to effective proposed) unsupported_transition)))
