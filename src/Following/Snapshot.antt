-- ===== src/Following/Snapshot.antt =====
-- openraft/src/engine/handler: `install_full_snapshot` of following_handler, with `update_snapshot`
-- of snapshot_handler and `purge_log` of log_handler.
use openraft.Prelude.{Bool, true, false, Option, none, some, ltb, if◌then◌else◌, ◌&&◌}
use openraft.Prelude.Ord.{Ord, is_eq}
use openraft.LogId.{LogId, next_index, cmp_log_id}
use openraft.Vote.LeaderId.{RaftLeaderId}
use openraft.IoState.Progress.{accept}
use openraft.IoState.Ids.{LogIoId, log_io}
use openraft.IoState.Committed.{at_most}
use openraft.Membership.{RaftMembership}
use openraft.MembershipState.{log_id_le, install_membership_snapshot}
use openraft.RaftState.{
  RaftState, SnapshotMeta, local_committed, get_log_id, accept_log_io, accept_purge,
  set_apply_accepted,
}
use openraft.Following.{
  Following, push_command, purge_log_to, install_snapshot, truncate_logs, update_server_state,
}

-- the second assertion: the index is above that of the committed log id
unfoldable pub is_above_committed : {CLID : Type 0} → LogId CLID → Option (LogId CLID) → Bool
is_above_committed snap_last none = true
is_above_committed snap_last (some committed) = ltb committed.index snap_last.index

unfoldable pub conflicts : {CLID : Type 0} ⦃o : Ord CLID⦄ → LogId CLID → Option (LogId CLID) → Bool
conflicts snap_last none = false
conflicts snap_last (some local) = elim (is_eq (cmp_log_id local snap_last)) [
  | true ↦ false
  | false ↦ true
]

module _ {LID CLID Mem : Type 0} ⦃o : Ord CLID⦄ where
  -- `SnapshotHandler::update_snapshot`: `None` is `false`
  unfoldable pub update_snapshot :
      RaftState LID CLID Mem → SnapshotMeta CLID Mem → Option (RaftState LID CLID Mem)
  update_snapshot s meta =
      if log_id_le meta.last_log_id s.snapshot_meta.last_log_id
      then none
      else some (record s { snapshot_meta = meta })

  -- `LogHandler::purge_log`; the unwrapped log id exists, since `None` is never greater.
  unfoldable pub purge_to : Following LID CLID Mem → Option (LogId CLID) → Following LID CLID Mem
  unfolding accept_purge
  purge_to h none = h
  purge_to h (some upto) =
      push_command (record h { state = accept_purge h.state upto }) (purge_log_to upto)

  unfoldable pub purge_log : Following LID CLID Mem → Following LID CLID Mem
  unfolding purge_to
  purge_log h =
      if log_id_le h.state.purge_upto h.state.log_ids.purged
      then h
      else purge_to h h.state.purge_upto

module _ {LID CLID Mem : Type 0} ⦃l : RaftLeaderId LID⦄ ⦃o : Ord CLID⦄
    ⦃m : RaftMembership Mem⦄ where
  unfoldable pub truncate_conflict : Following LID CLID Mem → LogId CLID → Following LID CLID Mem
  unfolding conflicts get_log_id truncate_logs
  truncate_conflict h snap_last =
      if conflicts snap_last (get_log_id h.state snap_last.index)
      then truncate_logs h (next_index (local_committed h.state))
      else h

  -- `apply_progress_mut().accept` and `snapshot_progress_mut().accept`
  unfoldable pub accept_snapshot : RaftState LID CLID Mem → LogId CLID → RaftState LID CLID Mem
  unfolding set_apply_accepted
  accept_snapshot s snap_last =
      let applied = set_apply_accepted s snap_last in
      record applied {
        io_state = record applied.io_state {
          snapshot = accept applied.io_state.snapshot snap_last;
        };
      }

  -- the leader's log IO and the three progresses are accepted, and the membership is taken
  unfoldable pub take_snapshot :
      Following LID CLID Mem → SnapshotMeta CLID Mem → LogId CLID → Following LID CLID Mem
  unfolding accept_log_io accept_snapshot install_membership_snapshot
  take_snapshot h meta snap_last =
      let io : LogIoId LID CLID = record {
        committed_vote = h.leader_vote;
        log_id = some snap_last;
      } in
      let state = accept_snapshot (accept_log_io h.state (log_io io)).0 snap_last in
      record h {
        state = record state {
          membership_state =
              install_membership_snapshot state.membership_state meta.last_membership
                snap_last.index;
        };
      }

  unfoldable pub push_install :
      Following LID CLID Mem → SnapshotMeta CLID Mem → LogId CLID → Following LID CLID Mem
  push_install h meta snap_last =
      push_command (record h { state = record h.state { purge_upto = some snap_last } })
        (install_snapshot meta (record { committed_vote = h.leader_vote; log_id = some snap_last }))

  -- from the comparison of the local log id on, when the metadata is updated
  unfoldable pub install_updated :
      Following LID CLID Mem → SnapshotMeta CLID Mem → LogId CLID → Following LID CLID Mem
  unfolding truncate_conflict take_snapshot update_server_state push_install purge_log
  install_updated h meta snap_last = purge_log (
      push_install
        (update_server_state (take_snapshot (truncate_conflict h snap_last) meta snap_last)) meta
        snap_last)

  -- The handler, and the log id of the condition. `none` as a whole is a failed assertion.
  unfoldable pub install_greater :
      CLID
      → Following LID CLID Mem
      → SnapshotMeta CLID Mem
      → LogId CLID
      → Option (Following LID CLID Mem × Option (LogId CLID))
  unfolding is_above_committed update_snapshot install_updated
  install_greater leader h meta snap_last =
      if at_most (o.cmp snap_last.leader_id leader)
        && is_above_committed snap_last (local_committed h.state)
      then (elim (update_snapshot h.state meta) [
        | none ↦ some (h, none)
        | some state ↦
            some (install_updated (record h { state = state }) meta snap_last, some snap_last)
      ])
      else none

  unfoldable pub install_last :
      CLID
      → Following LID CLID Mem
      → SnapshotMeta CLID Mem
      → Option (LogId CLID)
      → Option (Following LID CLID Mem × Option (LogId CLID))
  unfolding install_greater
  install_last leader h meta none = some (h, none)
  install_last leader h meta (some snap_last) = install_greater leader h meta snap_last

  -- `leader` is `leader_vote.committed_leader_id()`. `None` is never greater than the committed one.
  unfoldable pub install_full_snapshot :
      (LID → CLID)
      → Following LID CLID Mem
      → SnapshotMeta CLID Mem
      → Option (Following LID CLID Mem × Option (LogId CLID))
  unfolding install_last
  install_full_snapshot to_committed h meta =
      if log_id_le meta.last_log_id (local_committed h.state)
      then some (h, none)
      else install_last (to_committed h.leader_vote.leader_id) h meta meta.last_log_id
