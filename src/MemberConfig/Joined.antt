-- ===== src/MemberConfig/Joined.antt =====
-- membership/src/config/joint_config.rs: configs that apply together, the last of which is the newest.
-- A reference to a node is the node's own data beside the `NodeRef` of Membership.
use openraft.Prelude.{
  ℕ, Bool, true, false, Option, none, some, List, [], ◌∷◌, map, if◌then◌else◌, not, ◌&&◌, ◌||◌,
}
use openraft.Prelude.Ord.{nat_ord}
use openraft.Prelude.Maps.{lookup, has_key, keys, insert_id, insert_ids}
use openraft.Membership.{NodeRole, NodeRef, RaftMembership}
use openraft.Quorum.Joint as Joints
use openraft.Quorum.Joint.{Joint, is_some_true}
use openraft.MemberConfig.{
  RuleIds, ConfigNode, Config, no_role, union, role_or, default_role, has_id, voters, is_voter,
}

module _ {N Q : Type 0} where
  unfoldable pub read_quorum_set : Joint (Config N Q) → Joint Q
  read_quorum_set m = record { parts = map (λ c. c.read) m.parts }

  unfoldable pub write_quorum_set : Joint (Config N Q) → Joint Q
  write_quorum_set m = record { parts = map (λ c. c.write) m.parts }

  -- `rule_intersects` is the check of two rules of the type `Q`
  unfoldable pub read_write_quorums_intersect :
      (Q → Q → Option Bool) → Joint (Config N Q) → Option Bool
  unfolding read_quorum_set write_quorum_set Joints.intersects_with
  read_write_quorums_intersect rule_intersects m =
      Joints.intersects_with rule_intersects (read_quorum_set m) (write_quorum_set m)

  unfoldable pub supports_direct_transition_to :
      (Q → Q → Option Bool) → Joint (Config N Q) → Joint (Config N Q) → Bool
  unfolding read_quorum_set write_quorum_set Joints.intersects_with
  supports_direct_transition_to rule_intersects m other =
      let read_meets_write =
        Joints.intersects_with rule_intersects (read_quorum_set m) (write_quorum_set other) in
      let write_meets_read =
        Joints.intersects_with rule_intersects (write_quorum_set m) (read_quorum_set other) in
      is_some_true read_meets_write && is_some_true write_meets_read

-- what the loop of `get_node` has: the node's data, and its role
abbrev pub Seen : Type 0 → Type 0
Seen N = Option N × NodeRole

abbrev pub or_else : {N : Type 0} → Option N → N → N
or_else none node = node
or_else (some known) node = known

module _ {N : Type 0} where
  -- the voters of an earlier config that have a node in it
  unfoldable pub insert_known : List (ℕ × ConfigNode N) → List ℕ → List ℕ → List ℕ
  unfolding insert_id
  insert_known nodes [] ids = ids
  insert_known nodes (node_id ∷ rest) ids =
      insert_known nodes rest (if has_key node_id nodes then insert_id node_id ids else ids)

module _ {N Q : Type 0} ⦃i : RuleIds Q⦄ where
  -- one round of the loop of `get_node`
  unfoldable pub count_config : Bool → Config N Q → ℕ → Seen N → Seen N
  unfolding is_voter default_role
  count_config is_last c node_id (node, role) = elim (lookup node_id c.nodes) [
    | none ↦ (node, role)
    | some ent ↦ if not is_last && not (is_voter c node_id) then (node, role) else (
      some (or_else node ent.node),
      union role (role_or (default_role (is_voter c node_id)) ent.set_role),
    )
  ]

  -- the loop, which begins with the last config
  unfoldable pub count_configs : List (Config N Q) → ℕ → Seen N
  unfolding count_config
  count_configs [] node_id = (none, no_role)
  count_configs (c ∷ []) node_id = count_config true c node_id (none, no_role)
  count_configs (c ∷ d ∷ cs) node_id = count_config false c node_id (count_configs (d ∷ cs) node_id)

  unfoldable pub any_read : List (Config N Q) → ℕ → Bool
  unfolding has_id
  any_read [] node_id = false
  any_read (c ∷ cs) node_id = has_id c.read node_id || any_read cs node_id

  unfoldable pub any_write : List (Config N Q) → ℕ → Bool
  unfolding has_id
  any_write [] node_id = false
  any_write (c ∷ cs) node_id = has_id c.write node_id || any_write cs node_id

  -- the reference to a node that is seen
  unfoldable pub node_ref : List (Config N Q) → ℕ → Seen N → Option (N × NodeRef)
  unfolding any_read any_write
  node_ref cs node_id (none, role) = none
  node_ref cs node_id (some node, role) = some (
    node,
    record {
      role = role;
      is_read_voter = any_read cs node_id;
      is_write_voter = any_write cs node_id;
    },
  )

  unfoldable pub get_node : Joint (Config N Q) → ℕ → Option (N × NodeRef)
  unfolding count_configs node_ref
  get_node m node_id = node_ref m.parts node_id (count_configs m.parts node_id)

  -- The ids of the last config, and of the voters of each earlier one. The earlier configs are
  -- taken from the last to the first; the order leaves no trace in a set.
  unfoldable pub active_ids : List (Config N Q) → List ℕ
  unfolding insert_ids insert_known voters
  active_ids [] = []
  active_ids (c ∷ []) = insert_ids (keys c.nodes) []
  active_ids (c ∷ d ∷ cs) = insert_known c.nodes (voters c) (active_ids (d ∷ cs))

  unfoldable pub node_ids : Joint (Config N Q) → List ℕ
  unfolding active_ids
  node_ids m = active_ids m.parts

  -- `RaftMembership`, by `get_node`
  instance abbrev pub joint_membership : RaftMembership (Joint (Config N Q))
  joint_membership = record {
    get_node = λ m node_id. elim (get_node m node_id) [ none ↦ none | some r ↦ some r.1 ];
  }
