-- ===== src/RaftState.antt =====
-- openraft/src/raft_state/mod.rs, log_state_reader.rs and core/server_state.rs: the state of a Raft
-- node, and its operations. The times of the lease of the vote and the shared generator of progress
-- ids are left out.
pub mod Server
pub mod Log
pub mod Fixtures
mod Tests
use openraft.Prelude.{
  ℕ, zero, suc, ◌-◌, Bool, true, false, Option, none, some, List, [], ◌∷◌, ◌==◌, ltb, not,
  if◌then◌else◌, ◌&&◌, ◌||◌,
}
use openraft.Prelude.Ord.{Ord, is_eq}
use openraft.LogId.{LogId, next_index, cmp_log_id, log_id_ord}
use openraft.LogIdList.{LogIdList, ref_at, last, extend, purge}
use openraft.Vote.{Vote}
use openraft.Vote.LeaderId.{RaftLeaderId}
use openraft.IoState.{IoState}
use openraft.IoState.PartialOrd.{option_gt}
use openraft.IoState.Progress.{accept}
use openraft.IoState.Monotonic.{try_update}
use openraft.IoState.Ids.{IoId, LogIoId, io_id_order, log_io_id_order}
use openraft.IoState.Committed.{calculate_local_committed}
use openraft.Membership.{RaftMembership, is_learner}
use openraft.MembershipState.{MembershipState, StoredMembership, commit, log_id_lt}
use openraft.MembershipState.Recent.{Entry, entry_log_id}

pub data ServerState : Type 0 where
  learner follower candidate leader shutdown : ServerState

pub record SnapshotMeta (CLID Mem : Type 0) : Type 0 where
  pub last_log_id : Option (LogId CLID)
  pub last_membership : StoredMembership CLID Mem

pub record RaftState (LID CLID Mem : Type 0) : Type 0 where
  pub vote : Vote LID
  pub log_ids : LogIdList CLID
  pub membership_state : MembershipState CLID Mem
  pub snapshot_meta : SnapshotMeta CLID Mem
  pub last_inflight_id : ℕ
  pub server_state : ServerState
  pub io_state : IoState LID CLID
  pub purge_upto : Option (LogId CLID)

module _ {LID CLID Mem : Type 0} where
  -- `local_committed`, which `LogStateReader::committed` returns as well
  abbrev pub local_committed : RaftState LID CLID Mem → Option (LogId CLID)
  local_committed s = s.io_state.apply_progress.accepted

  unfoldable pub last_log_id : RaftState LID CLID Mem → Option (LogId CLID)
  unfolding last
  last_log_id s = last s.log_ids

  unfoldable pub get_log_id : RaftState LID CLID Mem → ℕ → Option (LogId CLID)
  unfolding ref_at
  get_log_id s index = ref_at s.log_ids index

  unfoldable pub prev_log_id : RaftState LID CLID Mem → ℕ → Option (LogId CLID)
  unfolding get_log_id
  prev_log_id s index = if index == 0 then none else get_log_id s (index - 1)

  unfoldable pub new_inflight_id : RaftState LID CLID Mem → RaftState LID CLID Mem × ℕ
  new_inflight_id s =
      (record s { last_inflight_id = suc s.last_inflight_id }, suc s.last_inflight_id)

  unfoldable pub set_apply_accepted : RaftState LID CLID Mem → LogId CLID → RaftState LID CLID Mem
  set_apply_accepted s c = record s {
    io_state = record s.io_state { apply_progress = accept s.io_state.apply_progress c };
  }

  unfoldable pub accept_purge : RaftState LID CLID Mem → LogId CLID → RaftState LID CLID Mem
  unfolding purge
  accept_purge s upto = record s {
    log_ids = purge s.log_ids upto;
    io_state = record s.io_state { purged = accept s.io_state.purged upto };
  }

module _ {CLID : Type 0} ⦃o : Ord CLID⦄ where
  -- `log_id.to_ref() == local`
  unfoldable pub has_local : LogId CLID → Option (LogId CLID) → Bool
  has_local log_id none = false
  has_local log_id (some local) = is_eq (cmp_log_id log_id local)

module _ {LID CLID Mem : Type 0} ⦃o : Ord CLID⦄ where
  unfoldable pub has_log_id : RaftState LID CLID Mem → LogId CLID → Bool
  unfolding has_local ref_at
  has_log_id s log_id =
      if ltb log_id.index (next_index (local_committed s))
      then true
      else has_local log_id (ref_at s.log_ids log_id.index)

  -- the position of the first entry that the state does not have, or the number of entries
  unfoldable pub first_conflicting_index : RaftState LID CLID Mem → List (Entry CLID Mem) → ℕ
  unfolding has_log_id
  first_conflicting_index s [] = zero
  first_conflicting_index s (ent ∷ entries) =
      let rest = first_conflicting_index s entries in
      if has_log_id s (entry_log_id ent) then suc rest else zero

  unfoldable pub extend_log_ids :
      RaftState LID CLID Mem → List (LogId CLID) → RaftState LID CLID Mem
  unfolding extend
  extend_log_ids s log_ids = record s { log_ids = extend s.log_ids log_ids }

  -- The unwrapped value exists, since `None` is never greater.
  unfoldable pub commit_to : RaftState LID CLID Mem → Option (LogId CLID) → RaftState LID CLID Mem
  unfolding set_apply_accepted commit
  commit_to s none = s
  commit_to s (some c) = record (set_apply_accepted s c) {
    membership_state = commit s.membership_state (some c);
  }

  unfoldable pub update_local_committed :
      RaftState LID CLID Mem → Option (LogId CLID) → RaftState LID CLID Mem
  unfolding commit_to
  update_local_committed s committed =
      if log_id_lt (local_committed s) committed then commit_to s committed else s

module _ {LID CLID Mem : Type 0} ⦃l : RaftLeaderId LID⦄ ⦃o : Ord CLID⦄ where
  -- the state, and the previously accepted log IO
  unfoldable pub accept_log_io :
      RaftState LID CLID Mem → IoId LID CLID → RaftState LID CLID Mem × Option (IoId LID CLID)
  accept_log_io s accepted =
      let curr_accepted = s.io_state.log_progress.accepted in
      if option_gt (some accepted) curr_accepted
      then (
        record s {
          io_state = record s.io_state { log_progress = accept s.io_state.log_progress accepted };
        },
        curr_accepted,
      )
      else (s, curr_accepted)

  unfoldable pub set_cluster_committed :
      RaftState LID CLID Mem → LogIoId LID CLID → RaftState LID CLID Mem
  unfolding try_update
  set_cluster_committed s cluster = record s {
    io_state = record s.io_state {
      cluster_committed = (try_update s.io_state.cluster_committed cluster).0;
    };
  }

  unfoldable pub update_committed :
      (LID → CLID) → RaftState LID CLID Mem → LogIoId LID CLID → RaftState LID CLID Mem
  unfolding set_cluster_committed calculate_local_committed update_local_committed
  update_committed to_committed s cluster =
      let updated = set_cluster_committed s cluster in
      update_local_committed updated (calculate_local_committed to_committed updated.io_state)
