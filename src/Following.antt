-- ===== src/Following.antt =====
-- openraft/src/engine/handler/following_handler/mod.rs and log_handler/mod.rs: how a follower takes
-- log entries and snapshots from its leader. The handlers share one state and one queue of commands;
-- the debug assertions are hypotheses of the theorems.
pub mod Truncate
pub mod Append
pub mod Holding
pub mod Matching
pub mod Snapshot
pub mod Sampling
pub mod Install
mod Tests
use openraft.Prelude.{
  ℕ, suc, Bool, true, false, Option, none, some, List, [], ◌∷◌, ◌++◌, map, length, drop, last?,
  get_elem?, ltb, not, if◌then◌else◌, ◌-◌, max, compare, lt, eq, gt,
}
use openraft.Prelude.Ord.{Ord, cmp_option, is_eq}
use openraft.LogId.{LogId, next_index, cmp_log_id}
use openraft.LogIdList as LogIdLists
use openraft.LogIdList.{LogIdList}
use openraft.Vote.LeaderId.{RaftLeaderId}
use openraft.IoState.PartialOrd.{option_le}
use openraft.IoState.Progress.{accept}
use openraft.IoState.Ids.{IoId, LogIoId, CommittedVote, log_io, io_id_order}
use openraft.IoState.Committed.{max_by}
use openraft.Membership.{RaftMembership}
use openraft.MembershipState.{
  MembershipState, StoredMembership, log_id_le, truncate, install_membership_snapshot,
}
use openraft.MembershipState.Recent.{Entry, entry_log_id, last_two_memberships, append_each}
use openraft.RaftState.{
  RaftState, SnapshotMeta, local_committed, get_log_id, prev_log_id, has_log_id, accept_log_io,
  first_conflicting_index, extend_log_ids, accept_purge, set_apply_accepted,
}
use openraft.RaftState.Server.{update_server_state_if_changed}

-- `Command`: the variants that these handlers push
pub data Command (LID CLID Mem : Type 0) : Type 0 where
  update_io_progress : Option (IoId LID CLID) → IoId LID CLID → Command LID CLID Mem
  append_command : CommittedVote LID → List (Entry CLID Mem) → Command LID CLID Mem
  purge_log_to : LogId CLID → Command LID CLID Mem
  truncate_log_after : Option (LogId CLID) → Command LID CLID Mem
  install_snapshot : SnapshotMeta CLID Mem → LogIoId LID CLID → Command LID CLID Mem

-- `ConflictingLogId`: the local log id, and the expected one
pub record ConflictingLogId (CLID : Type 0) : Type 0 where
  pub local : Option (LogId CLID)
  pub expect : LogId CLID

-- `entries.last().map(|ent| ent.log_id())`
abbrev pub last_entry_id : {CLID Mem : Type 0} → List (Entry CLID Mem) → Option (LogId CLID)
last_entry_id entries = elim (last? entries) [ none ↦ none | some ent ↦ some (entry_log_id ent) ]

-- `FollowingHandler`, with the node's own id of its `config`
pub record Following (LID CLID Mem : Type 0) : Type 0 where
  pub leader_vote : CommittedVote LID
  pub id : ℕ
  pub state : RaftState LID CLID Mem
  pub output : List (Command LID CLID Mem)

module _ {LID CLID Mem : Type 0} where
  abbrev pub push_command : Following LID CLID Mem → Command LID CLID Mem → Following LID CLID Mem
  push_command h command = record h { output = h.output ++ command ∷ [] }

module _ {LID CLID Mem : Type 0} ⦃l : RaftLeaderId LID⦄ ⦃m : RaftMembership Mem⦄ where
  unfoldable pub update_server_state : Following LID CLID Mem → Following LID CLID Mem
  unfolding update_server_state_if_changed
  update_server_state h = record h { state = update_server_state_if_changed h.state h.id }

  -- the log ids are truncated, and `TruncateLog` is pushed
  unfoldable pub truncate_log_ids : Following LID CLID Mem → ℕ → Following LID CLID Mem
  unfolding prev_log_id LogIdLists.truncate
  truncate_log_ids h since =
      push_command
        (record h {
          state = record h.state { log_ids = LogIdLists.truncate h.state.log_ids since };
        })
        (truncate_log_after (prev_log_id h.state since))

  unfoldable pub truncate_memberships : Following LID CLID Mem → ℕ → Following LID CLID Mem
  unfolding truncate update_server_state
  truncate_memberships h since =
      let (membership_state, changed) = truncate h.state.membership_state since in
      let truncated = record h { state = record h.state { membership_state = membership_state } } in
      elim changed [ none ↦ truncated | some c ↦ update_server_state truncated ]

  unfoldable pub truncate_logs : Following LID CLID Mem → ℕ → Following LID CLID Mem
  unfolding get_log_id truncate_log_ids truncate_memberships
  truncate_logs h since = elim (get_log_id h.state since) [
    | none ↦ h
    | some x ↦ truncate_memberships (truncate_log_ids h since) since
  ]

  -- `if memberships.is_empty() { return; }`
  unfoldable pub append_membership :
      Following LID CLID Mem → List (Entry CLID Mem) → Following LID CLID Mem
  unfolding last_two_memberships append_each update_server_state
  append_membership h entries = elim (last_two_memberships entries) [
    | [] ↦ h
    | (x ∷ xs) ↦ update_server_state (record h {
      state = record h.state { membership_state = append_each h.state.membership_state (x ∷ xs) };
    })
  ]

module _ {LID CLID Mem : Type 0} ⦃l : RaftLeaderId LID⦄ ⦃o : Ord CLID⦄
    ⦃m : RaftMembership Mem⦄ where
  unfoldable pub do_append_entries :
      Following LID CLID Mem → List (Entry CLID Mem) → Following LID CLID Mem
  unfolding extend_log_ids append_membership
  do_append_entries h entries =
      push_command
        (append_membership (record h { state = extend_log_ids h.state (map entry_log_id entries) })
          entries)
        (append_command h.leader_vote entries)

  -- `None` is `since == l`, when every entry is in the log.
  unfoldable pub append_new :
      Following LID CLID Mem
      → Option (Entry CLID Mem)
      → List (Entry CLID Mem)
      → Option (LogId CLID)
      → Option (IoId LID CLID)
      → Following LID CLID Mem
  unfolding truncate_logs do_append_entries
  append_new h (some ent) entries last prev_accepted =
      do_append_entries (truncate_logs h (entry_log_id ent).index) entries
  append_new h none entries last prev_accepted =
      let to_submit = log_io (record { committed_vote = h.leader_vote; log_id = last }) in
      if option_le (some to_submit) prev_accepted
      then h
      else push_command h (update_io_progress prev_accepted to_submit)

  unfoldable pub append_entries :
      Following LID CLID Mem → Option (LogId CLID) → List (Entry CLID Mem) → Following LID CLID Mem
  unfolding accept_log_io first_conflicting_index append_new
  append_entries h prev_log_id entries =
      let last = max_by (cmp_option cmp_log_id) prev_log_id (last_entry_id entries) in
      let (state, prev_accepted) =
        accept_log_io h.state (log_io (record { committed_vote = h.leader_vote; log_id = last })) in
      let since = first_conflicting_index state entries in
      append_new (record h { state = state }) (get_elem? entries since) (drop since entries) last
        prev_accepted

  -- the handler, and the error if the previous log id is not in the log
  unfoldable pub ensure_log_consecutive :
      Following LID CLID Mem
      → Option (LogId CLID)
      → Following LID CLID Mem × Option (ConflictingLogId CLID)
  unfolding has_log_id get_log_id truncate_logs
  ensure_log_consecutive h none = (h, none)
  ensure_log_consecutive h (some prev) = if has_log_id h.state prev then (h, none) else (
    truncate_logs h prev.index,
    some (record { local = get_log_id h.state prev.index; expect = prev }),
  )
