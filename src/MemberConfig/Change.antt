-- ===== src/MemberConfig/Change.antt =====
-- membership/src/config/joint_config.rs: the joint membership of a change, from one membership to
-- another.
use openraft.Prelude.{
  ℕ, ◌≡◌, ◌∙◌, ap, refl, true, some, List, [], ◌∷◌, ◌++◌, map, ◌||◌, arith, inl, inr, All,
  Option-cases,
}
use openraft.Prelude.Ord.{nat_ord}
use openraft.Prelude.Maps.{keys, insert}
use openraft.Quorum.{contains}
use openraft.Quorum.Joint as Joints
use openraft.Quorum.Joint.{Joint, is_empty}
use openraft.MemberConfig.{RuleIds, Config, voters}
use openraft.MemberConfig.Joined.{read_quorum_set, write_quorum_set, active_ids, node_ids}
use openraft.MemberConfig.Edits.{resolved, metadata, resolve_each, joint_with}
use openraft.MemberConfig.Active.{
  is_known, contains-insert_known, contains-insert_ids, contains-keys, get_node-node_ids,
}

All-of_contains :
    (P : ℕ → Type 0) (ids : List ℕ) → ((y : ℕ) → contains ids y ≡ true → P y) → All P ids
unfolding contains
All-of_contains P [] h = tt
All-of_contains P (x ∷ xs) h =
    (h x (ground arith), All-of_contains P xs (λ y k. h y (ground (arith, k))))

module _ {N Q : Type 0} ⦃i : RuleIds Q⦄ where
  contains-active_ids-append :
      (cs : List (Config N Q)) (d : Config N Q) (ds : List (Config N Q)) (y : ℕ)
      → contains (active_ids (cs ++ d ∷ ds)) y ≡ true
      → (contains (active_ids cs) y || contains (active_ids (d ∷ ds)) y) ≡ true
  unfolding active_ids contains
  contains-active_ids-append [] d ds y h = h
  contains-active_ids-append (c ∷ []) d ds y h = ground (
    arith,
    h,
    contains-insert_known c.nodes (voters c) (active_ids (d ∷ ds)) y,
    contains-insert_ids (keys c.nodes) [] y,
    contains-keys c.nodes y,
  )
  contains-active_ids-append (c ∷ b ∷ cs) d ds y h = ground (
    arith,
    h,
    contains-insert_known c.nodes (voters c) (active_ids (b ∷ (cs ++ d ∷ ds))) y,
    contains-insert_known c.nodes (voters c) (active_ids (b ∷ cs)) y,
    contains-active_ids-append (b ∷ cs) d ds y,
  )

  -- an active node of the joint is one of the goal or of the membership before it
  active-joint_with :
      (m goal : Joint (Config N Q)) (y : ℕ)
      → contains (node_ids (Joints.joint_with m goal)) y ≡ true
      → (contains (node_ids m) y || contains (node_ids goal) y) ≡ true
  active-joint_with m goal y = by_parts m.parts goal.parts
    where
      by_parts :
          (cs ds : List (Config N Q))
          → contains
              (node_ids (Joints.joint_with (record { parts = cs }) (record { parts = ds })))
              y
            ≡ true
          → (contains (node_ids (record { parts = cs })) y
              || contains (node_ids (record { parts = ds })) y)
            ≡ true
      by_parts [] ds h =
          unfold node_ids Joints.joint_with active_ids contains in absurd (ground (arith, h))
      by_parts (c ∷ cs) [] h =
          unfold node_ids Joints.joint_with active_ids contains in absurd (ground (arith, h))
      by_parts (c ∷ cs) (d ∷ ds) h =
          unfold node_ids Joints.joint_with in contains-active_ids-append (c ∷ cs) d ds y h

  is_known-resolved :
      (m goal : Joint (Config N Q)) (y : ℕ)
      → (contains (node_ids m) y || contains (node_ids goal) y) ≡ true
      → is_known (resolved m goal y) ≡ true
  unfolding resolved
  is_known-resolved m goal y h = ground (arith, h, get_node-node_ids m y, get_node-node_ids goal y)

  metadata-known :
      (m goal : Joint (Config N Q)) (ids : List ℕ)
      → All (λ y. is_known (resolved m goal y) ≡ true) ids
      → (found : List (ℕ × N)) × (metadata m goal ids ≡ some found)
  unfolding metadata
  metadata-known m goal [] h = ([], refl)
  metadata-known m goal (y ∷ ids) h = elim (Option-cases (resolved m goal y)) [
    | inl e ↦ absurd (ground (arith, h.0))
    | inr (node, e) ↦
        let rest : (found : List (ℕ × N)) × (metadata m goal ids ≡ some found) =
          metadata-known m goal ids h.1 in
        (insert y node rest.0, rw (e, rest.1) refl)
  ]

module _ {N Q : Type 0} where
  read-resolve_each :
      (found : List (ℕ × N)) (cs : List (Config N Q))
      → map (λ c. c.read) (resolve_each found cs) ≡ map (λ c. c.read) cs
  unfolding resolve_each
  read-resolve_each found [] = refl
  read-resolve_each found (c ∷ cs) = ap (λ r. c.read ∷ r) (read-resolve_each found cs)

  write-resolve_each :
      (found : List (ℕ × N)) (cs : List (Config N Q))
      → map (λ c. c.write) (resolve_each found cs) ≡ map (λ c. c.write) cs
  unfolding resolve_each
  write-resolve_each found [] = refl
  write-resolve_each found (c ∷ cs) = ap (λ r. c.write ∷ r) (write-resolve_each found cs)

  map-append :
      (f : Config N Q → Q) (cs ds : List (Config N Q)) → map f (cs ++ ds) ≡ map f cs ++ map f ds
  map-append f [] ds = refl
  map-append f (c ∷ cs) ds = ap (λ r. f c ∷ r) (map-append f cs ds)

  -- the rules of a joint are the joint of the rules
  map-joint_with :
      (f : Config N Q → Q) (cs ds : List (Config N Q))
      → map f (Joints.joint_with (record { parts = cs }) (record { parts = ds })).parts
        ≡ (Joints.joint_with (record { parts = map f cs }) (record { parts = map f ds })).parts
  unfolding Joints.joint_with
  map-joint_with f [] ds = refl
  map-joint_with f (c ∷ cs) [] = refl
  map-joint_with f (c ∷ cs) (d ∷ ds) = ap (λ r. f c ∷ r) (map-append f cs (d ∷ ds))

module _ {N Q : Type 0} ⦃i : RuleIds Q⦄ where
  -- a joint whose rules are those of both memberships
  pub record IsJointOf (m goal joint : Joint (Config N Q)) : Type 0 where
    pub read : read_quorum_set joint ≡ Joints.joint_with (read_quorum_set m) (read_quorum_set goal)
    pub write :
        write_quorum_set joint ≡ Joints.joint_with (write_quorum_set m) (write_quorum_set goal)

  -- Two memberships always have a joint: every active node of it has its data in one of them, so that
  -- no `unwrap` panics. The rules of the joint are the joint of the rules.
  pub joint_with-IsJointOf :
      (m goal : Joint (Config N Q))
      → (joint : Joint (Config N Q)) × (joint_with m goal ≡ some joint) × IsJointOf m goal joint
  unfolding joint_with read_quorum_set write_quorum_set
  joint_with-IsJointOf m goal = (
    record { parts = resolve_each found.0 both.parts },
    rw found.1 refl,
    record {
      read =
          ap (λ ps. record { parts = ps })
            (read-resolve_each found.0 both.parts
              ∙ map-joint_with (λ c. c.read) m.parts goal.parts);
      write =
          ap (λ ps. record { parts = ps })
            (write-resolve_each found.0 both.parts
              ∙ map-joint_with (λ c. c.write) m.parts goal.parts);
    },
  )
    where
      both : Joint (Config N Q)
      both = Joints.joint_with m goal

      found : (found : List (ℕ × N)) × (metadata m goal (node_ids both) ≡ some found)
      found = metadata-known m goal (node_ids both) (
          All-of_contains (λ y. is_known (resolved m goal y) ≡ true) (node_ids both)
            (λ y h. is_known-resolved m goal y (active-joint_with m goal y h)))
