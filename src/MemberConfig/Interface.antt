-- ===== src/MemberConfig/Interface.antt =====
-- membership/src/config/joint_config.rs: a joint of configs implements the trait `RaftMembership`, with
-- what the trait's documentation demands. A value of the type `Q` is a rule that its constructor has
-- checked.
use openraft.Prelude.{
  ℕ, ◌≡◌, refl, subst, Bool, true, false, Option, none, some, List, [], ◌∷◌, ◌&&◌, arith, All,
}
use openraft.Prelude.Ord.{nat_ord}
use openraft.Prelude.Maps.{insert_ids}
use openraft.Quorum.{QuorumSet, QuorumIntersection, shares}
use openraft.Quorum.Joint as Joints
use openraft.Quorum.Joint.{Joint, is_some_true, joint_intersects_sound, is_quorum-joint_with}
use openraft.VecProgress.{QuorumRule}
use openraft.Leader.{QuorumMembership}
use openraft.MembershipState.Checks.{ChangeableMembership}
use openraft.MemberConfig.{RuleIds, Config}
use openraft.MemberConfig.Joined.{
  read_quorum_set, write_quorum_set, read_write_quorums_intersect, supports_direct_transition_to,
  get_node, node_ids,
}
use openraft.MemberConfig.Change.{joint_with-IsJointOf}

-- `Joint::ids`
unfoldable pub joint_ids : {Q : Type 0} ⦃i : RuleIds Q⦄ → List Q → List ℕ
unfolding insert_ids
joint_ids [] = []
joint_ids ⦃i⦄ (q ∷ qs) = insert_ids (i.ids q) (joint_ids qs)

All-units : {Q : Type 0} (qs : List Q) → All (λ q. Unit {0}) qs
All-units [] = tt
All-units (q ∷ qs) = (tt, All-units qs)

some-true_eq : (o : Option Bool) → is_some_true o ≡ true → o ≡ some true
some-true_eq (some true) h = refl
some-true_eq (some false) h = cc
some-true_eq none h = cc

-- a joint of rules as a rule
abbrev pub rule_of : {Q : Type 0} ⦃i : RuleIds Q⦄ ⦃s : QuorumSet Q ℕ⦄ → Joint Q → QuorumRule
rule_of j = record { ids = joint_ids j.parts; is_quorum = Joints.is_quorum j }

module _ {N Q : Type 0} ⦃i : RuleIds Q⦄ ⦃s : QuorumSet Q ℕ⦄ where
  instance abbrev pub joint_quorums : QuorumMembership (Joint (Config N Q))
  joint_quorums = record {
    read_quorum_set = λ m. rule_of (read_quorum_set m);
    write_quorum_set = λ m. rule_of (write_quorum_set m);
    node_ids = node_ids;
  }

module _ {Q : Type 0} ⦃s : QuorumSet Q ℕ⦄ where
  pub both_quorums :
      (j a b : Joint Q) (xs : List ℕ)
      → j ≡ Joints.joint_with a b
      → Joints.is_quorum j xs ≡ true
      → (Joints.is_quorum a xs ≡ true) × (Joints.is_quorum b xs ≡ true)
  both_quorums j a b xs e h = split (subst (λ k. Joints.is_quorum k xs ≡ true) e h)
    where
      split :
          Joints.is_quorum (Joints.joint_with a b) xs ≡ true
          → (Joints.is_quorum a xs ≡ true) × (Joints.is_quorum b xs ≡ true)
      split k =
          (ground (arith, is_quorum-joint_with a b xs), ground (arith, is_quorum-joint_with a b xs))

module _ {Q : Type 0} ⦃s : QuorumSet Q ℕ⦄ (t : QuorumIntersection Q ℕ (λ q. Unit {0})) where
  pub intersects_sound :
      (j k : Joint Q) (xs ys : List ℕ)
      → Joints.intersects_with t.intersects_with j k ≡ some true
      → Joints.is_quorum j xs ≡ true
      → Joints.is_quorum k ys ≡ true
      → shares xs ys ≡ true
  intersects_sound j k xs ys =
      joint_intersects_sound t j k xs ys (All-units j.parts) (All-units k.parts)

module _ {N Q : Type 0} ⦃i : RuleIds Q⦄ ⦃s : QuorumSet Q ℕ⦄
    (t : QuorumIntersection Q ℕ (λ q. Unit {0})) where
  pub shares-read_write :
      (m : Joint (Config N Q)) (xs ys : List ℕ)
      → read_write_quorums_intersect t.intersects_with m ≡ some true
      → Joints.is_quorum (read_quorum_set m) xs ≡ true
      → Joints.is_quorum (write_quorum_set m) ys ≡ true
      → shares xs ys ≡ true
  unfolding read_write_quorums_intersect
  shares-read_write m xs ys = intersects_sound t (read_quorum_set m) (write_quorum_set m) xs ys

  -- If a direct transition is supported, every read quorum of the one membership shares a node with
  -- every write quorum of the other, both ways.
  pub supports_direct_transition_to_lem :
      (m other : Joint (Config N Q))
      → supports_direct_transition_to t.intersects_with m other ≡ true
      → ((xs ys : List ℕ)
          → Joints.is_quorum (read_quorum_set m) xs ≡ true
          → Joints.is_quorum (write_quorum_set other) ys ≡ true
          → shares xs ys ≡ true)
        × ((xs ys : List ℕ)
            → Joints.is_quorum (write_quorum_set m) xs ≡ true
            → Joints.is_quorum (read_quorum_set other) ys ≡ true
            → shares xs ys ≡ true)
  unfolding supports_direct_transition_to
  supports_direct_transition_to_lem m other h = (
    λ xs ys.
        intersects_sound t (read_quorum_set m) (write_quorum_set other) xs ys
          (some-true_eq _ (both _ _ h).0),
    λ xs ys.
        intersects_sound t (write_quorum_set m) (read_quorum_set other) xs ys
          (some-true_eq _ (both _ _ h).1),
  )
    where
      both : (a b : Bool) → (a && b) ≡ true → (a ≡ true) × (b ≡ true)
      both a b e = (ground arith, ground arith)

  -- the trait's other methods; `same_data` is the equality of two nodes' data
  abbrev pub joint_changes : (N → N → Bool) → ChangeableMembership (Joint (Config N Q))
  joint_changes same_data = record {
    read_write_quorums_intersect = read_write_quorums_intersect t.intersects_with;
    supports_direct_transition_to = supports_direct_transition_to t.intersects_with;
    joint_with = λ m goal. (joint_with-IsJointOf m goal).0;
    same_node = λ m other node_id. elim (get_node m node_id) [
      | none ↦ true
      | some a ↦ elim (get_node other node_id) [ none ↦ true | some b ↦ same_data a.0 b.0 ]
    ];
    shares-read_write = shares-read_write;
    shares-direct_read = λ m other xs ys h. (supports_direct_transition_to_lem m other h).0 xs ys;
    shares-direct_write = λ m other xs ys h. (supports_direct_transition_to_lem m other h).1 xs ys;
    read-joint_with = λ m goal xs.
        both_quorums (read_quorum_set (joint_with-IsJointOf m goal).0) (read_quorum_set m)
          (read_quorum_set goal) xs (joint_with-IsJointOf m goal).2.read;
    write-joint_with = λ m goal xs.
        both_quorums (write_quorum_set (joint_with-IsJointOf m goal).0) (write_quorum_set m)
          (write_quorum_set goal) xs (joint_with-IsJointOf m goal).2.write;
  }
