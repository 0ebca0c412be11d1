-- ===== src/MemberConfig/Active.antt =====
-- membership/src/config/joint_config.rs: the active nodes of a membership, which `node_ids` lists and
-- `get_node` finds.
use openraft.Prelude.{
  ℕ, ◌≡◌, ◌∙◌, refl, subst, Bool, true, false, Option, none, some, List, [], ◌∷◌, ◌&&◌, ◌||◌, arith,
  inl, inr, Bool-cases,
}
use openraft.Prelude.Ord.{nat_ord}
use openraft.Prelude.Maps.{has_key, keys, insert_id, insert_ids}
use openraft.Membership.{NodeRole}
use openraft.Quorum.{contains, same_id}
use openraft.Quorum.Joint.{Joint}
use openraft.MemberConfig.{RuleIds, ConfigNode, Config, has_id, voters, is_voter, no_role}
use openraft.MemberConfig.Joined.{
  Seen, count_config, count_configs, node_ref, get_node, insert_known, active_ids, node_ids,
}

contains-insert_id :
    (x : ℕ) (ids : List ℕ) (y : ℕ) → contains (insert_id x ids) y ≡ (same_id x y || contains ids y)
unfolding contains insert_id
contains-insert_id x [] y = refl
contains-insert_id x (k ∷ ks) y = ground (arith, contains-insert_id x ks y)

pub contains-insert_ids :
    (xs ids : List ℕ) (y : ℕ) → contains (insert_ids xs ids) y ≡ (contains xs y || contains ids y)
unfolding contains insert_ids
contains-insert_ids [] ids y = refl
contains-insert_ids (x ∷ xs) ids y =
    ground (arith, contains-insert_ids xs (insert_id x ids) y, contains-insert_id x ids y)

pub contains-keys : {A : Type 0} (m : List (ℕ × A)) (y : ℕ) → contains (keys m) y ≡ has_key y m
unfolding contains
contains-keys [] y = refl
contains-keys ((k, a) ∷ m) y = ground (arith, contains-keys m y)

same_id_eq : (x y : ℕ) → same_id x y ≡ true → x ≡ y
same_id_eq x y h = ground arith

has_key-same :
    {A : Type 0} (x y : ℕ) (m : List (ℕ × A))
    → has_key x m ≡ true
    → same_id x y ≡ true
    → has_key y m ≡ true
has_key-same x y m h e = subst (λ z. has_key z m ≡ true) (same_id_eq x y e) h

has_key-missing :
    {A : Type 0} (x y : ℕ) (m : List (ℕ × A))
    → has_key x m ≡ false
    → same_id x y ≡ true
    → has_key y m ≡ false
has_key-missing x y m h e = subst (λ z. has_key z m ≡ false) (same_id_eq x y e) h

pub contains-insert_known :
    {N : Type 0} (nodes : List (ℕ × ConfigNode N)) (xs ids : List ℕ) (y : ℕ)
    → contains (insert_known nodes xs ids) y
      ≡ ((contains xs y && has_key y nodes) || contains ids y)
unfolding contains insert_known
contains-insert_known nodes [] ids y = refl
contains-insert_known nodes (x ∷ xs) ids y = elim (Bool-cases (has_key x nodes)) [
  | inl e ↦ rw e (
      ground (
        arith,
        contains-insert_known nodes xs (insert_id x ids) y,
        contains-insert_id x ids y,
        has_key-same x y nodes e,
      ))
  | inr e ↦ rw e (ground (arith, contains-insert_known nodes xs ids y, has_key-missing x y nodes e))
]

abbrev pub is_known : {A : Type 0} → Option A → Bool
is_known none = false
is_known (some x) = true

module _ {N Q : Type 0} ⦃i : RuleIds Q⦄ where
  pub contains-voters : (c : Config N Q) (y : ℕ) → contains (voters c) y ≡ is_voter c y
  unfolding voters is_voter has_id contains
  contains-voters c y = ground (
    arith,
    contains-insert_ids (i.ids c.write) (insert_ids (i.ids c.read) []) y,
    contains-insert_ids (i.ids c.read) [] y,
  )

  is_known-count_last :
      (c : Config N Q) (y : ℕ) (role : NodeRole)
      → is_known (count_config true c y (none, role)).0 ≡ has_key y c.nodes
  unfolding count_config
  is_known-count_last c y role = ground arith

  is_known-count_earlier :
      (c : Config N Q) (y : ℕ) (seen : Seen N)
      → is_known (count_config false c y seen).0
        ≡ ((is_voter c y && has_key y c.nodes) || is_known seen.0)
  unfolding count_config
  is_known-count_earlier c y (found, role) = ground arith

  is_known-count_configs :
      (cs : List (Config N Q)) (y : ℕ)
      → is_known (count_configs cs y).0 ≡ contains (active_ids cs) y
  unfolding count_configs active_ids contains
  is_known-count_configs [] y = refl
  is_known-count_configs (c ∷ []) y = ground (
    arith,
    is_known-count_last c y no_role,
    contains-insert_ids (keys c.nodes) [] y,
    contains-keys c.nodes y,
  )
  is_known-count_configs (c ∷ d ∷ cs) y = ground (
    arith,
    is_known-count_earlier c y (count_configs (d ∷ cs) y),
    contains-insert_known c.nodes (voters c) (active_ids (d ∷ cs)) y,
    contains-voters c y,
    is_known-count_configs (d ∷ cs) y,
  )

  -- A node is found by its id exactly if the id is one of the active ones.
  pub get_node-node_ids :
      (m : Joint (Config N Q)) (y : ℕ) → is_known (get_node m y) ≡ contains (node_ids m) y
  unfolding get_node node_ids
  get_node-node_ids m y =
      is_known-node_ref (count_configs m.parts y) ∙ is_known-count_configs m.parts y
    where
      is_known-node_ref : (seen : Seen N) → is_known (node_ref m.parts y seen) ≡ is_known seen.0
      is_known-node_ref (none, role) = unfold node_ref in refl
      is_known-node_ref (some found, role) = unfold node_ref in refl
