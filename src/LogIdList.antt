-- ===== src/LogIdList.antt =====
-- openraft/src/engine/log_id_list.rs: the last purged log id, and the last log id of each leader.
-- A `Vec` is a list, whose end is the end of the `Vec`.
pub mod Runs
pub mod Valid
pub mod View
pub mod Last
pub mod Ascending
pub mod Leaders
pub mod Full
pub mod Refines
pub mod Rebuild
pub mod Load
mod Tests
use openraft.Prelude.{
  ℕ, zero, suc, ◌+◌, ◌-◌, Bool, Option, none, some, Ordering, lt, eq, gt, List, [], ◌∷◌, ◌++◌,
  compare, ◌==◌, ltb, leb, length, get_elem?, take, drop, last?, first?, if◌then◌else◌,
}
use openraft.Prelude.Ord.{Ord, is_eq}
use openraft.LogId.{LogId, next_index}

pub record LogIdList (CLID : Type 0) : Type 0 where
  pub purged : Option (LogId CLID)
  pub key_log_ids : List (LogId CLID)

-- `Result<usize, usize>` of `slice::binary_search_by`
pub data Search : Type 0 where
  found : ℕ → Search
  missing : ℕ → Search

unfoldable pub shift : Search → Search
shift (found i) = found (suc i)
shift (missing i) = missing (suc i)

-- both arms of a match that treats `Ok(i)` and `Err(i)` alike
unfoldable pub position : Search → ℕ
position (found i) = i
position (missing i) = i

-- the number of entries at or below the target: `i + 1` for `Ok(i)`, `i` for `Err(i)`
unfoldable pub passed : Search → ℕ
passed (found i) = suc i
passed (missing i) = i

module _ {CLID : Type 0} where
  unfoldable pub empty : LogIdList CLID
  empty = record { purged = none; key_log_ids = [] }

  -- What `binary_search_by(|log_id| log_id.index().cmp(&at))` answers on a slice whose indexes
  -- increase: the position of the equal entry, or else of the first greater one.
  unfoldable pub binary_search : List (LogId CLID) → ℕ → Search
  unfolding shift
  binary_search [] at = missing 0
  binary_search (k ∷ ks) at = elim (compare k.index at) [
    | lt ↦ shift (binary_search ks at)
    | eq ↦ found 0
    | gt ↦ missing 0
  ]

  unfoldable pub last : LogIdList CLID → Option (LogId CLID)
  last l = elim (last? l.key_log_ids) [ none ↦ l.purged | some k ↦ some k ]

  unfoldable pub first_index : LogIdList CLID → ℕ
  first_index l = next_index l.purged

  -- The first index that entry `i` covers: `first_index` for the first entry, and else
  -- `key_log_ids[i - 1].index() + 1`. (Past the end, where the source would panic, no caller asks.)
  unfoldable pub range_start : ℕ → List (LogId CLID) → ℕ → ℕ
  range_start first ks zero = first
  range_start first [] (suc i) = first
  range_start first (k ∷ ks) (suc i) = range_start (suc k.index) ks i

  -- `Some(entry)` is the entry that the search stands at; `None` is `i == key_log_ids.len()`.
  unfoldable pub truncate_keys : ℕ → List (LogId CLID) → ℕ → List (LogId CLID)
  unfolding binary_search position range_start
  truncate_keys first ks at =
      let i = position (binary_search ks at) in
      elim (get_elem? ks i) [
        | none ↦ ks
        | some k ↦
            if ltb (range_start first ks i) at
            then take i ks ++ record { leader_id = k.leader_id; index = at - 1 } ∷ []
            else take i ks
      ]

  unfoldable pub truncate : LogIdList CLID → ℕ → LogIdList CLID
  unfolding first_index truncate_keys
  truncate l at =
      if at == 0
      then record l { key_log_ids = [] }
      else record l { key_log_ids = truncate_keys (first_index l) l.key_log_ids at }

  unfoldable pub purge : LogIdList CLID → LogId CLID → LogIdList CLID
  unfolding last first_index binary_search passed
  purge l upto =
      if leb (next_index (last l)) upto.index
      then record { purged = some upto; key_log_ids = [] }
      else if ltb upto.index (first_index l)
      then l
      else record {
        purged = some upto;
        key_log_ids = drop (passed (binary_search l.key_log_ids upto.index)) l.key_log_ids;
      }

  -- The entry that covers an index at or above `first`.
  unfoldable pub ref_in_keys : ℕ → List (LogId CLID) → ℕ → Option (LogId CLID)
  unfolding binary_search position range_start
  ref_in_keys first ks index =
      let i = position (binary_search ks index) in
      elim (get_elem? ks i) [
        | none ↦ none
        | some k ↦
            if ltb index (range_start first ks i)
            then none
            else some (record { leader_id = k.leader_id; index = index })
      ]

  -- `None` for `purged` cannot occur below `first_index`; the source unwraps it.
  unfoldable pub ref_in_purged : Option (LogId CLID) → ℕ → Option (LogId CLID)
  ref_in_purged none index = none
  ref_in_purged (some p) index = if index == p.index then some p else none

  unfoldable pub ref_at : LogIdList CLID → ℕ → Option (LogId CLID)
  unfolding first_index ref_in_keys ref_in_purged
  ref_at l index =
      if ltb index (first_index l)
      then ref_in_purged l.purged index
      else ref_in_keys (first_index l) l.key_log_ids index

  unfoldable pub get : LogIdList CLID → ℕ → Option (LogId CLID)
  unfolding ref_at
  get l index = ref_at l index

  unfoldable pub first : LogIdList CLID → Option (LogId CLID)
  unfolding first_index
  first l = elim (first? l.key_log_ids) [
    | none ↦ none
    | some k ↦ some (record { leader_id = k.leader_id; index = first_index l })
  ]

module _ {CLID : Type 0} ⦃o : Ord CLID⦄ where
  -- `committed_leader_id() == committed_leader_id()`
  abbrev pub same_leader : LogId CLID → LogId CLID → Bool
  same_leader a b = is_eq (o.cmp a.leader_id b.leader_id)

  -- An entry of the last entry's leader replaces it; any other is pushed.
  unfoldable pub push_key_log_id : List (LogId CLID) → LogId CLID → List (LogId CLID)
  push_key_log_id [] log_id = log_id ∷ []
  push_key_log_id (k ∷ []) log_id = if same_leader k log_id then log_id ∷ [] else k ∷ log_id ∷ []
  push_key_log_id (k ∷ j ∷ ks) log_id = k ∷ push_key_log_id (j ∷ ks) log_id

  unfoldable pub append : LogIdList CLID → LogId CLID → LogIdList CLID
  unfolding push_key_log_id
  append l new_log_id = record l { key_log_ids = push_key_log_id l.key_log_ids new_log_id }

  unfoldable pub extend : LogIdList CLID → List (LogId CLID) → LogIdList CLID
  unfolding append
  extend l [] = l
  extend l (x ∷ xs) = extend (append l x) xs
