-- ===== src/MemberConfig.antt =====
-- membership/src/config.rs and node_change.rs: one config of a membership, that is a read rule, a
-- write rule, and the nodes by their ids, with the roles that are set. A node id is a number.
pub mod Joined
pub mod Edits
pub mod Roles
pub mod Active
pub mod Change
pub mod Interface
pub mod Demoted
mod Tests
use openraft.Prelude.{
  ℕ, Bool, true, false, Option, none, some, List, [], ◌∷◌, if◌then◌else◌, not, ◌&&◌, ◌||◌, ◌==◌,
}
use openraft.Prelude.Ord.{nat_ord}
use openraft.Prelude.Maps.{lookup, has_key, keys, insert, change_at, retain, insert_ids}
use openraft.Membership.{NodeRole}
use openraft.Quorum.{contains}

-- the method `ids` of a rule
pub record RuleIds (Q : Type 0) : Type 0 where
  pub ids : Q → List ℕ

-- a node, and its role if one is set
pub record ConfigNode (N : Type 0) : Type 0 where
  pub node : N
  pub set_role : Option NodeRole

pub record Config (N Q : Type 0) : Type 0 where
  pub read : Q
  pub write : Q
  pub nodes : List (ℕ × ConfigNode N)

pub record NodeChange (N : Type 0) : Type 0 where
  pub add_nodes : List (ℕ × N)
  pub remove_nodes : List ℕ
  pub roles : List (ℕ × NodeRole)

-- `Result<A, NodeNotFound>`
pub data Checked (A : Type 0) : Type 0 where
  ok : A → Checked A
  node_not_found : ℕ → Checked A

-- `NodeRole::Empty`, `|` and `==`
abbrev pub no_role : NodeRole
no_role = record { campaigner = false; receive_logs = false }

abbrev pub union : NodeRole → NodeRole → NodeRole
union a b = record {
  campaigner = a.campaigner || b.campaigner;
  receive_logs = a.receive_logs || b.receive_logs;
}

abbrev pub same_bool : Bool → Bool → Bool
same_bool true b = b
same_bool false b = not b

abbrev pub same_role : NodeRole → NodeRole → Bool
same_role a b = same_bool a.campaigner b.campaigner && same_bool a.receive_logs b.receive_logs

unfoldable pub default_role : Bool → NodeRole
default_role is_voter = record { campaigner = is_voter; receive_logs = true }

-- `unwrap_or(default)`
abbrev pub role_or : NodeRole → Option NodeRole → NodeRole
role_or default none = default
role_or default (some role) = role

-- the first id that is no key: the loop that returns `NodeNotFound`
unfoldable pub first_missing : {A : Type 0} → List (ℕ × A) → List ℕ → Option ℕ
first_missing nodes [] = none
first_missing nodes (id ∷ ids) =
    let rest = first_missing nodes ids in if has_key id nodes then rest else some id

module _ {Q : Type 0} ⦃i : RuleIds Q⦄ where
  unfoldable pub has_id : Q → ℕ → Bool
  unfolding contains
  has_id rule node_id = contains (i.ids rule) node_id

module _ {N : Type 0} where
  -- the nodes with no role set
  unfoldable pub without_roles : List (ℕ × N) → List (ℕ × ConfigNode N)
  without_roles [] = []
  without_roles ((node_id, node) ∷ nodes) =
      (node_id, record { node = node; set_role = none }) ∷ without_roles nodes

  -- the role that another config sets for the node, or else the present one
  abbrev pub kept_role : List (ℕ × ConfigNode N) → ℕ → Option NodeRole → Option NodeRole
  kept_role other node_id role = elim (lookup node_id other) [
    | none ↦ role
    | some ent ↦ elim ent.set_role [ none ↦ role | some r ↦ some r ]
  ]

  unfoldable pub keep_each :
      List (ℕ × ConfigNode N) → List (ℕ × ConfigNode N) → List (ℕ × ConfigNode N)
  keep_each other [] = []
  keep_each other ((node_id, ent) ∷ nodes) =
      (node_id, record ent { set_role = kept_role other node_id ent.set_role })
      ∷ keep_each other nodes

module _ {N Q : Type 0} ⦃i : RuleIds Q⦄ where
  unfoldable pub voters : Config N Q → List ℕ
  unfolding insert_ids
  voters c = insert_ids (i.ids c.write) (insert_ids (i.ids c.read) [])

  unfoldable pub is_voter : Config N Q → ℕ → Bool
  unfolding has_id
  is_voter c node_id = has_id c.read node_id || has_id c.write node_id

  -- `ensure_voters_have_nodes`: the id of the error
  unfoldable pub ensure_voters_have_nodes : Config N Q → Option ℕ
  unfolding first_missing voters
  ensure_voters_have_nodes c = first_missing c.nodes (voters c)

  unfoldable pub new_config : Q → Q → List (ℕ × N) → Checked (Config N Q)
  unfolding without_roles ensure_voters_have_nodes
  new_config read write nodes =
      let config : Config N Q = record {
        read = read;
        write = write;
        nodes = without_roles nodes;
      } in
      elim (ensure_voters_have_nodes config) [
        | none ↦ ok config
        | some node_id ↦ node_not_found node_id
      ]

  -- a role is stored if it is not the default one
  unfoldable pub stored_role : Config N Q → ℕ → NodeRole → Option NodeRole
  unfolding is_voter default_role
  stored_role c node_id role =
      if same_role role (default_role (is_voter c node_id)) then none else some role

  -- the loop that sets each role, on the nodes of the config
  unfoldable pub set_each :
      Config N Q → List (ℕ × NodeRole) → List (ℕ × ConfigNode N) → List (ℕ × ConfigNode N)
  unfolding stored_role change_at
  set_each c [] nodes = nodes
  set_each c ((node_id, role) ∷ roles) nodes =
      set_each c roles
        (change_at node_id (λ ent. record ent { set_role = stored_role c node_id role }) nodes)

  unfoldable pub set_roles : Config N Q → List (ℕ × NodeRole) → Checked (Config N Q)
  unfolding first_missing set_each
  set_roles c roles = elim (first_missing c.nodes (keys roles)) [
    | none ↦ ok (record c { nodes = set_each c roles c.nodes })
    | some node_id ↦ node_not_found node_id
  ]

  unfoldable pub keep_roles : Config N Q → Config N Q → Config N Q
  unfolding keep_each
  keep_roles c other = record c { nodes = keep_each other.nodes c.nodes }

module _ {N : Type 0} where
  unfoldable pub add_each : List (ℕ × N) → List (ℕ × N) → List (ℕ × N)
  unfolding insert
  add_each [] nodes = nodes
  add_each ((node_id, node) ∷ add) nodes =
      add_each add (if has_key node_id nodes then nodes else insert node_id node nodes)

  unfoldable pub remove_each : List ℕ → List (ℕ × N) → List (ℕ × N)
  unfolding retain
  remove_each [] nodes = nodes
  remove_each (node_id ∷ ids) nodes = remove_each ids (retain (λ k. not (k == node_id)) nodes)

  unfoldable pub edit_nodes : NodeChange N → List (ℕ × N) → List (ℕ × N)
  unfolding add_each remove_each
  edit_nodes change nodes = remove_each change.remove_nodes (add_each change.add_nodes nodes)
