-- ===== src/MembershipState.antt =====
-- openraft/src/raft_state/membership_state/mod.rs: the committed and the effective membership. A
-- membership is a parameter `Mem`, and an `Arc` of one is the membership itself. The debug
-- assertions are hypotheses of the theorems.
pub mod Valid
pub mod Recent
pub mod Checks
pub mod Next
pub mod Steps
mod Tests
use openraft.Prelude.{
  ℕ, suc, Bool, true, false, Option, none, some, Ordering, lt, eq, gt, ◌==◌, leb, compare,
  if◌then◌else◌, List, [], ◌∷◌,
}
use openraft.Prelude.Ord.{Ord, cmp_option, is_eq}
use openraft.LogId.{LogId, next_index, cmp_log_id}

pub record StoredMembership (CLID Mem : Type 0) : Type 0 where
  pub log_id : Option (LogId CLID)
  pub membership : Mem

pub record MembershipState (CLID Mem : Type 0) : Type 0 where
  pub committed : StoredMembership CLID Mem
  pub effective : StoredMembership CLID Mem

-- `log_id().index()`, and the order of two of them
abbrev pub index_of : {CLID : Type 0} → Option (LogId CLID) → Option ℕ
index_of none = none
index_of (some log_id) = some log_id.index

abbrev pub le_test : Ordering → Bool
le_test lt = true
le_test eq = true
le_test gt = false

abbrev pub lt_test : Ordering → Bool
lt_test lt = true
lt_test eq = false
lt_test gt = false

abbrev pub index_le : Option ℕ → Option ℕ → Bool
index_le a b = le_test (cmp_option compare a b)

module _ {CLID Mem : Type 0} where
  -- Openraft allows at most one membership that is not committed.
  unfoldable pub append :
      MembershipState CLID Mem → StoredMembership CLID Mem → MembershipState CLID Mem
  append s m = record { committed = s.effective; effective = m }

  -- the state, and the effective membership where it changed
  unfoldable pub truncate :
      MembershipState CLID Mem → ℕ → MembershipState CLID Mem × Option (StoredMembership CLID Mem)
  truncate s since =
      if index_le (some since) (index_of s.effective.log_id)
      then (record s { effective = s.committed }, some s.committed)
      else (s, none)

module _ {CLID : Type 0} ⦃o : Ord CLID⦄ where
  abbrev pub log_id_le : Option (LogId CLID) → Option (LogId CLID) → Bool
  log_id_le a b = le_test (cmp_option cmp_log_id a b)

  abbrev pub log_id_lt : Option (LogId CLID) → Option (LogId CLID) → Bool
  log_id_lt a b = lt_test (cmp_option cmp_log_id a b)

  abbrev pub log_id_eq : Option (LogId CLID) → Option (LogId CLID) → Bool
  log_id_eq a b = is_eq (cmp_option cmp_log_id a b)

module _ {CLID Mem : Type 0} ⦃o : Ord CLID⦄ where
  -- `ensure_committed`: whether it returns `Ok`
  unfoldable pub is_committed : MembershipState CLID Mem → Bool
  is_committed s = log_id_eq s.effective.log_id s.committed.log_id

  unfoldable pub commit : MembershipState CLID Mem → Option (LogId CLID) → MembershipState CLID Mem
  commit s committed_log_id =
      if log_id_le s.effective.log_id committed_log_id
      then (if log_id_lt s.committed.log_id s.effective.log_id
          then record s { committed = s.effective }
          else s)
      else s

  -- the effective membership lies in the log that the snapshot does not cover
  unfoldable pub install_beyond :
      MembershipState CLID Mem → StoredMembership CLID Mem → MembershipState CLID Mem
  install_beyond s snapshot = record {
    committed = if log_id_lt s.committed.log_id snapshot.log_id then snapshot else s.committed;
    effective =
        if index_le (index_of s.effective.log_id) (index_of snapshot.log_id)
        then snapshot
        else s.effective;
  }

  unfoldable pub install_membership_snapshot :
      MembershipState CLID Mem → StoredMembership CLID Mem → ℕ → MembershipState CLID Mem
  unfolding install_beyond
  install_membership_snapshot s snapshot snapshot_last_log_index =
      if index_le (index_of s.effective.log_id) (some snapshot_last_log_index)
      then record { committed = snapshot; effective = snapshot }
      else install_beyond s snapshot
