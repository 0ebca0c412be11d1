-- ===== src/Engine/Requests.antt =====
-- openraft/src/engine/engine_impl.rs: how a node takes the requests of a leader, to append entries and
-- to install a snapshot.
use openraft.Prelude.{Bool, true, false, Option, none, some, List, [], ◌++◌, map, if◌then◌else◌}
use openraft.Prelude.Ord.{Ord}
use openraft.LogId.{LogId}
use openraft.Vote.{Vote}
use openraft.Vote.LeaderId.{RaftLeaderId}
use openraft.IoState.Ids.{log_io, io_id_of_vote}
use openraft.Membership.{RaftMembership}
use openraft.MembershipState.Recent.{Entry}
use openraft.RaftState.{SnapshotMeta}
use openraft.Following.{
  Following, ConflictingLogId, append_entries, ensure_log_consecutive, last_entry_id,
}
use openraft.Following.Sampling.{conflict_hint}
use openraft.Following.Snapshot.{install_full_snapshot}
use openraft.Progress.Entry.{ProgressEntry}
use openraft.VecProgress.{VecProgress, ProgressItem, ClockProgress}
use openraft.Leader.{QuorumMembership}
use openraft.Candidate.{Env}
use openraft.Engine.{
  Engine, io_flushed, snapshot_built, matched, higher_vote, conflict, following, respond_append,
  respond_snapshot, push, update_vote, update_internal_server_state,
}

-- `Result<Option<LogId>, RejectAppendEntries>` of `append_entries`
pub data Appended (LID CLID : Type 0) : Type 0 where
  appended : Option (LogId CLID) → Appended LID CLID
  rejected_vote : Vote LID → Appended LID CLID
  conflicting : ConflictingLogId CLID → Appended LID CLID

-- `LogSegment::last`
abbrev pub last_of :
    {CLID Mem : Type 0} → Option (LogId CLID) → List (Entry CLID Mem) → Option (LogId CLID)
last_of prev entries = elim (last_entry_id entries) [ none ↦ prev | some x ↦ some x ]

module _ {LID CLID Mem P CP V : Type 0} where
  -- the handler that borrows the engine's state
  abbrev pub following_of : Engine LID CLID Mem P CP V → Following LID CLID Mem
  following_of e = record {
    leader_vote = record { leader_id = e.state.vote.leader_id };
    id = e.config.id;
    state = e.state;
    output = [];
  }

  -- what the handler leaves in the engine
  abbrev pub after_following :
      Engine LID CLID Mem P CP V → Following LID CLID Mem → Engine LID CLID Mem P CP V
  after_following e h = record e { state = h.state; output = e.output ++ map following h.output }

module _ {LID CLID Mem P CP V : Type 0} ⦃l : RaftLeaderId LID⦄ ⦃o : Ord CLID⦄
    ⦃m : RaftMembership Mem⦄ where
  -- the request, once the previous log id is looked for
  unfoldable pub append_consecutive :
      Engine LID CLID Mem P CP V
      → Option (LogId CLID)
      → List (Entry CLID Mem)
      → Following LID CLID Mem × Option (ConflictingLogId CLID)
      → Engine LID CLID Mem P CP V × Appended LID CLID
  unfolding append_entries
  append_consecutive e prev entries (h, none) =
      (after_following e (append_entries h prev entries), appended (last_of prev entries))
  append_consecutive e prev entries (h, some c) = (after_following e h, conflicting c)

  -- the request, once its vote is legal
  unfoldable pub append_voted :
      Engine LID CLID Mem P CP V
      → Option (LogId CLID)
      → List (Entry CLID Mem)
      → Engine LID CLID Mem P CP V × Appended LID CLID
  unfolding ensure_log_consecutive append_consecutive
  append_voted e prev entries =
      append_consecutive e prev entries (ensure_log_consecutive (following_of e) prev)

module _ {LID CLID Mem P CP V : Type 0} where
  -- the answer, and what it waits for
  unfoldable pub respond_appended :
      Engine LID CLID Mem P CP V → Appended LID CLID → Engine LID CLID Mem P CP V
  unfolding conflict_hint
  respond_appended e (appended last) = push e (
      respond_append
        (some (
          io_flushed (
            log_io (record {
              committed_vote = record { leader_id = e.state.vote.leader_id };
              log_id = last;
            }))))
        (matched last))
  respond_appended e (rejected_vote vote) = push e (respond_append none (higher_vote vote))
  respond_appended e (conflicting c) =
      push e (respond_append none (conflict c.expect (some (conflict_hint (following_of e)))))

module _ {LID CLID Mem P CP V : Type 0} ⦃l : RaftLeaderId LID⦄ ⦃o : Ord CLID⦄
    ⦃m : RaftMembership Mem⦄ ⦃n : QuorumMembership Mem⦄
    ⦃t : ProgressItem (ProgressEntry CLID) (Option (LogId CLID))⦄
    ⦃v : VecProgress P (ProgressEntry CLID) (Option (LogId CLID))⦄ ⦃c : ClockProgress CP⦄
    (env : Env LID CLID) where
  unfoldable pub append_request :
      Engine LID CLID Mem P CP V
      → Vote LID
      → Option (LogId CLID)
      → List (Entry CLID Mem)
      → Engine LID CLID Mem P CP V × Appended LID CLID
  unfolding update_vote append_voted
  append_request e vote prev entries =
      let (voted, accepted) = update_vote env e vote in
      if accepted then append_voted voted prev entries else (voted, rejected_vote voted.state.vote)

  unfoldable pub handle_append_entries :
      Engine LID CLID Mem P CP V
      → Vote LID
      → Option (LogId CLID)
      → List (Entry CLID Mem)
      → Engine LID CLID Mem P CP V
  unfolding append_request respond_appended
  handle_append_entries e vote prev entries =
      let (done, result) = append_request e vote prev entries in respond_appended done result

  -- `accept_vote` of a snapshot: the engine, and whether to go on
  unfoldable pub accept_vote :
      Engine LID CLID Mem P CP V → Vote LID → Engine LID CLID Mem P CP V × Bool
  unfolding update_vote io_id_of_vote
  accept_vote e vote =
      let (voted, accepted) = update_vote env e vote in
      if accepted then (voted, true) else (
        push voted (
            respond_snapshot (some (io_flushed (io_id_of_vote voted.state.vote))) voted.state.vote),
        false,
      )

  -- the answer of an installed snapshot
  unfoldable pub respond_installed :
      Engine LID CLID Mem P CP V
      → Option (Following LID CLID Mem × Option (LogId CLID))
      → Option (Engine LID CLID Mem P CP V)
  respond_installed e none = none
  respond_installed e (some (h, log_id)) =
      let done = after_following e h in
      some (
        push done (
          respond_snapshot (elim log_id [ none ↦ none | some x ↦ some (snapshot_built x) ])
            done.state.vote))

  -- `none` is a failed assertion of the handler
  unfoldable pub handle_install_full_snapshot :
      Engine LID CLID Mem P CP V
      → Vote LID
      → SnapshotMeta CLID Mem
      → Option (Engine LID CLID Mem P CP V)
  unfolding accept_vote install_full_snapshot respond_installed
  handle_install_full_snapshot e vote meta =
      let (voted, accepted) = accept_vote e vote in
      if accepted
      then respond_installed voted
          (install_full_snapshot env.to_committed (following_of voted) meta)
      else some voted

  unfoldable pub refresh_server_state : Engine LID CLID Mem P CP V → Engine LID CLID Mem P CP V
  unfolding update_internal_server_state
  refresh_server_state e = update_internal_server_state env e
