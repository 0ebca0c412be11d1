-- ===== src/MembershipState/Steps.antt =====
-- openraft/src/raft_state/membership_state/mod.rs: why each step of a membership change is safe.
use openraft.Prelude.{
  ℕ, ◌≡◌, ◌⊎◌, refl, Bool, true, false, Option, none, some, List, [], ◌∷◌, arith, inl, inr,
  Bool-cases, Option-cases,
}
use openraft.Prelude.Ord.{Ord, nat_ord}
use openraft.Quorum.{contains, shares}
use openraft.Quorum.Count.{shares_intro}
use openraft.Membership.{RaftMembership}
use openraft.Leader.{QuorumMembership}
use openraft.MembershipState.{MembershipState, is_committed}
use openraft.MembershipState.Checks.{
  ChangeableMembership, ensure_non_empty_config, ensure_voters_have_nodes,
  ensure_write_voters_receive_logs, ensure_read_write_quorums_intersect,
  ensure_node_metadata_unchanged, allows_direct_transition_to,
}
use openraft.MembershipState.Next.{
  ChangeError, Answer, success, failure, next_membership, next_of_edited, next_of_goal,
  check_membership, validate_append_membership, in_progress, edit_error, empty_membership,
  node_not_found, write_voter_without_receive_logs, unproven_intersection, node_metadata_changed,
  unsupported_transition, or_error, unless, named_error,
}

common_id :
    (xs ys : List ℕ)
    → shares xs ys ≡ true
    → (z : ℕ) × (contains xs z ≡ true) × (contains ys z ≡ true)
unfolding shares contains
common_id [] ys h = absurd (ground (arith, h))
common_id (x ∷ xs) ys h = elim (Bool-cases (contains ys x)) [
  | inl e ↦ (x, ground arith, e)
  | inr e ↦
      let rest : (z : ℕ) × (contains xs z ≡ true) × (contains ys z ≡ true) =
        common_id xs ys (ground (arith, h, e)) in
      (rest.0, ground (arith, rest.1), rest.2)
]

shares_sym : (xs ys : List ℕ) → shares xs ys ≡ true → shares ys xs ≡ true
shares_sym xs ys h =
    shares_intro ys xs (common_id xs ys h).0 (common_id xs ys h).2 (common_id xs ys h).1

module _ {Mem : Type 0} ⦃m : RaftMembership Mem⦄ ⦃n : QuorumMembership Mem⦄
    ⦃h : ChangeableMembership Mem⦄ where
  -- A step from one membership to the next: what the old one commits, every later election of the new
  -- one sees, the other way round, and within the new one.
  pub record IsSafeStep (old new : Mem) : Type 0 where
    pub read_write :
        (xs ys : List ℕ)
        → (n.read_quorum_set old).is_quorum xs ≡ true
        → (n.write_quorum_set new).is_quorum ys ≡ true
        → shares xs ys ≡ true
    pub write_read :
        (xs ys : List ℕ)
        → (n.write_quorum_set old).is_quorum xs ≡ true
        → (n.read_quorum_set new).is_quorum ys ≡ true
        → shares xs ys ≡ true
    pub self :
        (xs ys : List ℕ)
        → (n.read_quorum_set new).is_quorum xs ≡ true
        → (n.write_quorum_set new).is_quorum ys ≡ true
        → shares xs ys ≡ true

  intersects_of_ensure :
      (mem : Mem)
      → ensure_read_write_quorums_intersect mem ≡ true
      → h.read_write_quorums_intersect mem ≡ some true
  unfolding ensure_read_write_quorums_intersect
  intersects_of_ensure mem e = ground (arith, e)

  direct-IsSafeStep :
      (old new : Mem)
      → h.read_write_quorums_intersect new ≡ some true
      → allows_direct_transition_to old new ≡ true
      → IsSafeStep old new
  unfolding allows_direct_transition_to
  direct-IsSafeStep old new i a = record {
    read_write = λ xs ys. h.shares-direct_read old new xs ys supported;
    write_read = λ xs ys. h.shares-direct_write old new xs ys supported;
    self = λ xs ys. h.shares-read_write new xs ys i;
  }
    where
      supported : h.supports_direct_transition_to old new ≡ true
      supported = ground (arith, a)

  joint-IsSafeStep :
      (old goal : Mem)
      → h.read_write_quorums_intersect old ≡ some true
      → h.read_write_quorums_intersect goal ≡ some true
      → IsSafeStep old (h.joint_with old goal) × IsSafeStep (h.joint_with old goal) goal
  joint-IsSafeStep old goal i j = (
    record {
      read_write =
          λ xs ys r w. h.shares-read_write old xs ys i r (h.write-joint_with old goal ys w).0;
      write_read = λ xs ys w r.
          shares_sym ys xs (h.shares-read_write old ys xs i (h.read-joint_with old goal ys r).0 w);
      self = λ xs ys r w.
          h.shares-read_write old xs ys i (h.read-joint_with old goal xs r).0
            (h.write-joint_with old goal ys w).0;
    },
    record {
      read_write =
          λ xs ys r w. h.shares-read_write goal xs ys j (h.read-joint_with old goal xs r).1 w;
      write_read = λ xs ys w r.
          shares_sym ys xs
            (h.shares-read_write goal ys xs j r (h.write-joint_with old goal xs w).1);
      self = λ xs ys. h.shares-read_write goal xs ys j;
    },
  )

  intersects_of_check :
      {E : Type 0} (mem : Mem)
      → check_membership {E = E} mem ≡ none
      → h.read_write_quorums_intersect mem ≡ some true
  unfolding check_membership
  intersects_of_check {E} mem e = intersects_of_ensure mem (
      last_of_checks (ensure_non_empty_config mem) (ensure_voters_have_nodes mem)
        (ensure_write_voters_receive_logs mem) (ensure_read_write_quorums_intersect mem) e)
    where
      last_of_checks :
          (a : Bool) (b c : Option ℕ) (d : Bool)
          → or_error (unless {E = ChangeError E} a empty_membership) (
              or_error (named_error node_not_found b) (
                or_error
                  (named_error write_voter_without_receive_logs c)
                  (unless d unproven_intersection)))
            ≡ none
          → d ≡ true
      last_of_checks true none none true e = refl
      last_of_checks true none none false e = cc
      last_of_checks true none (some x) d e = cc
      last_of_checks true (some x) c d e = cc
      last_of_checks false b c d e = cc

  -- The next membership of a goal: its own error, or the goal itself, or the joint with the goal; the
  -- step to it is safe, and so is the one from the joint to the goal.
  abbrev pub IsGoalAnswer : {E : Type 0} → Mem → Mem → Answer (ChangeError E) (Mem × Bool) → Type 0
  IsGoalAnswer {E} old goal answer =
      ((error : ChangeError E) × (check_membership goal ≡ some error) × (answer ≡ failure error))
      ⊎ (((answer ≡ success (goal, false)) × IsSafeStep old goal)
          ⊎ ((answer ≡ success (h.joint_with old goal, true))
              × IsSafeStep old (h.joint_with old goal)
              × IsSafeStep (h.joint_with old goal) goal))

  next_of_goal-IsGoalAnswer :
      {E : Type 0} (old goal : Mem)
      → h.read_write_quorums_intersect old ≡ some true
      → IsGoalAnswer {E = E} old goal (next_of_goal old goal)
  unfolding next_of_goal
  next_of_goal-IsGoalAnswer {E} old goal i = elim (Option-cases (check_membership {E = E} goal)) [
    | inr (error, e) ↦ inl (error, e, rw (next_of_goal, e) refl)
    | inl e ↦ elim (Bool-cases (allows_direct_transition_to old goal)) [
      | inl a ↦ inr (
          inl (
            rw (next_of_goal, e, a) refl,
            direct-IsSafeStep old goal (intersects_of_check goal e) a,
          ))
      | inr a ↦ inr (
          inr (
            rw (next_of_goal, e, a) refl,
            (joint-IsSafeStep old goal i (intersects_of_check goal e)).0,
            (joint-IsSafeStep old goal i (intersects_of_check goal e)).1,
          ))
    ]
  ]

module _ {CLID E Mem : Type 0} ⦃o : Ord CLID⦄ ⦃m : RaftMembership Mem⦄ ⦃n : QuorumMembership Mem⦄
    ⦃h : ChangeableMembership Mem⦄ where
  -- the answers of a change
  abbrev pub IsChangeAnswer :
      MembershipState CLID Mem → Answer E Mem → Answer (ChangeError E) (Mem × Bool) → Type 0
  IsChangeAnswer s edited answer =
      ((is_committed s ≡ false) × (answer ≡ failure in_progress))
      ⊎ ((is_committed s ≡ true)
          × (((error : E) × (edited ≡ failure error) × (answer ≡ failure (edit_error error)))
              ⊎ ((goal : Mem) × (edited ≡ success goal)
                  × IsGoalAnswer s.effective.membership goal answer)))

  -- A change is rejected if the last membership is not committed, the edit fails, or its goal does not
  -- pass the checks. Otherwise the next membership is the goal or the joint of both, as it is marked,
  -- and every step is safe, into the joint and out of it: each read quorum of one side shares a node
  -- with each write quorum of the other, and with those of its own. This is so if the quorums of the
  -- effective membership are known to intersect.
  pub next_membership-IsChangeAnswer :
      (s : MembershipState CLID Mem) (apply : Mem → Bool → Answer E Mem) (retain : Bool)
      → h.read_write_quorums_intersect s.effective.membership ≡ some true
      → IsChangeAnswer s (apply s.effective.membership retain) (next_membership s apply retain)
  unfolding next_membership
  next_membership-IsChangeAnswer s apply retain i = elim (Bool-cases (is_committed s)) [
    | inr e ↦ inl (e, rw e refl)
    | inl e ↦ inr (e, rw e (of_edited (apply s.effective.membership retain)))
  ]
    where
      of_edited :
          (edited : Answer E Mem)
          → ((error : E) × (edited ≡ failure error)
              × (next_of_edited s.effective.membership edited ≡ failure (edit_error error)))
            ⊎ ((goal : Mem) × (edited ≡ success goal)
                × IsGoalAnswer s.effective.membership goal
                    (next_of_edited s.effective.membership edited))
      of_edited (failure error) = inl (error, refl, unfold next_of_edited in refl)
      of_edited (success goal) = inr (
        goal,
        refl,
        unfold next_of_edited in next_of_goal-IsGoalAnswer s.effective.membership goal i,
      )

  -- A membership that is appended directly passes only if the last one is committed; the step to it is
  -- then safe.
  pub validate_append_membership-IsSafeStep :
      (s : MembershipState CLID Mem) (proposed : Mem)
      → validate_append_membership {E = E} s proposed ≡ none
      → (is_committed s ≡ true) × IsSafeStep s.effective.membership proposed
  unfolding validate_append_membership
  validate_append_membership-IsSafeStep s proposed e = (
    checked.0,
    direct-IsSafeStep s.effective.membership proposed (intersects_of_check proposed checked.1)
        checked.2,
  )
    where
      all_of_checks :
          (a : Bool) (b : Option (ChangeError E)) (c : Option ℕ) (d : Bool)
          → or_error (unless a in_progress) (
              or_error b
                (or_error (named_error node_metadata_changed c) (unless d unsupported_transition)))
            ≡ none
          → (a ≡ true) × (b ≡ none) × (d ≡ true)
      all_of_checks true none none true e = (refl, refl, refl)
      all_of_checks true none none false e = cc
      all_of_checks true none (some x) d e = cc
      all_of_checks true (some x) c d e = cc
      all_of_checks false b c d e = cc

      checked :
          (is_committed s ≡ true)
          × (check_membership {E = E} proposed ≡ none)
          × (allows_direct_transition_to s.effective.membership proposed ≡ true)
      checked =
          all_of_checks (is_committed s) (check_membership proposed)
            (ensure_node_metadata_unchanged s.effective.membership proposed)
            (allows_direct_transition_to s.effective.membership proposed) e
