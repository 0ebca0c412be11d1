-- ===== src/Engine/Upkeep.antt =====
-- openraft/src/engine/engine_impl.rs, and what it calls of engine/handler/snapshot_handler and
-- leader_handler: what an engine does besides elections and requests, to snapshots, purges, the
-- transfer of leadership, the application of committed logs, and when the node starts.
use openraft.Prelude.{
  ℕ, Bool, true, false, Option, none, some, if◌then◌else◌, ltb, ◌&&◌, ◌||◌, ◌>>=◌,
}
use openraft.Prelude.Ord.{Ord, cmp_option}
use openraft.LogId.{LogId, next_index, cmp_log_id, log_id_ord}
use openraft.Vote.{new, new_committed}
use openraft.Vote.LeaderId.{RaftLeaderId}
use openraft.IoState.Progress.{try_update_all}
use openraft.IoState.PartialOrd.{total_partial_ord}
use openraft.IoState.Committed.{min_by}
use openraft.IoState.Ids as Ids
use openraft.IoState.Ids.{IoId, as_ref_vote}
use openraft.Membership.{RaftMembership, is_campaigner}
use openraft.RaftState.{RaftState, SnapshotMeta, get_log_id}
use openraft.RaftState.Server.{is_leader, calc_following_state}
use openraft.Following.Snapshot.{update_snapshot, purge_log}
use openraft.Progress.Entry.{ProgressEntry}
use openraft.VecProgress.{VecProgress, ProgressItem, ClockProgress}
use openraft.Lease.{updated, disable_lease}
use openraft.Leader.{Leader, QuorumMembership, mark_transfer}
use openraft.Candidate.{Tally, Env}
use openraft.Replication.{schedule_policy_based_purge, try_purge_log}
use openraft.Engine.{
  Engine, Command, push, save_committed_and_apply, build_snapshot, broadcast_transfer_leader,
  after_replication, replication_of,
}
use openraft.Engine.Elections.{elect, same_vote}
use openraft.Engine.Requests.{following_of, after_following}

module _ {LID CLID Mem P CP V : Type 0} where
  -- `SnapshotHandler::trigger_snapshot`
  unfoldable pub trigger_snapshot : Engine LID CLID Mem P CP V → Engine LID CLID Mem P CP V × Bool
  trigger_snapshot e = if e.state.io_state.building_snapshot then (e, false) else (
    push
        (record e {
          state = record e.state {
            io_state = record e.state.io_state { building_snapshot = true };
          };
        })
        build_snapshot,
    true,
  )

module _ {LID CLID Mem : Type 0} ⦃o : Ord CLID⦄ where
  unfoldable pub built_snapshot :
      RaftState LID CLID Mem → Option (LogId CLID) → RaftState LID CLID Mem
  unfolding try_update_all
  built_snapshot s none = s
  built_snapshot s (some last_log_id) = record s {
    io_state = record s.io_state {
      snapshot = try_update_all ⦃p = total_partial_ord⦄ s.io_state.snapshot last_log_id;
    };
  }

module _ {LID CLID Mem P CP V : Type 0} ⦃o : Ord CLID⦄
    ⦃t : ProgressItem (ProgressEntry CLID) (Option (LogId CLID))⦄
    ⦃v : VecProgress P (ProgressEntry CLID) (Option (LogId CLID))⦄ where
  -- `Engine::try_purge_log`
  unfoldable pub try_purge : Engine LID CLID Mem P CP V → Engine LID CLID Mem P CP V
  unfolding try_purge_log purge_log
  try_purge e = elim e.leader [
    | none ↦ after_following e (purge_log (following_of e))
    | some leader ↦ after_replication e (try_purge_log (replication_of e leader))
  ]

  -- the purge that a newer snapshot allows; `none` is the panic of `calc_purge_upto`
  unfoldable pub purge_by_policy :
      Engine LID CLID Mem P CP V
      → Option (RaftState LID CLID Mem)
      → Option (Engine LID CLID Mem P CP V)
  unfolding schedule_policy_based_purge try_purge
  purge_by_policy e none = some e
  purge_by_policy e (some s) = do
    scheduled ← schedule_policy_based_purge e.config s
    some (try_purge (record e { state = scheduled }))

  unfoldable pub on_building_snapshot_done :
      Engine LID CLID Mem P CP V
      → Option (SnapshotMeta CLID Mem)
      → Option (Engine LID CLID Mem P CP V)
  unfolding built_snapshot update_snapshot purge_by_policy
  on_building_snapshot_done e meta =
      let s = record e.state { io_state = record e.state.io_state { building_snapshot = false } } in
      elim meta [
        | none ↦ some (record e { state = s })
        | some meta ↦
            let built = built_snapshot s meta.last_log_id in
            purge_by_policy (record e { state = built }) (update_snapshot built meta)
      ]

  -- up to the log id at an index that is in the snapshot; `none` is the panic of `unwrap`
  unfoldable pub purge_at :
      Engine LID CLID Mem P CP V → Option (LogId CLID) → Option (Engine LID CLID Mem P CP V)
  unfolding try_purge
  purge_at e none = none
  purge_at e (some log_id) =
      some (try_purge (record e { state = record e.state { purge_upto = some log_id } }))

  -- the rest of `trigger_purge_log`, by the last log id of the snapshot
  unfoldable pub purge_in_snapshot :
      Engine LID CLID Mem P CP V → ℕ → Option (LogId CLID) → Option (Engine LID CLID Mem P CP V)
  unfolding get_log_id purge_at
  purge_in_snapshot e index none = some e
  purge_in_snapshot e index (some snapshot) =
      if ltb index (next_index e.state.purge_upto)
      then some e
      else purge_at e
          (get_log_id e.state (if ltb snapshot.index index then snapshot.index else index))

  unfoldable pub trigger_purge_log :
      Engine LID CLID Mem P CP V → ℕ → Option (Engine LID CLID Mem P CP V)
  unfolding purge_in_snapshot
  trigger_purge_log e index = purge_in_snapshot e index e.state.snapshot_meta.last_log_id

module _ {LID CLID Mem P CP V : Type 0} ⦃l : RaftLeaderId LID⦄ where
  -- `LeaderHandler::transfer_leader`
  unfoldable pub transfer_leader :
      Engine LID CLID Mem P CP V → Leader LID CLID P CP → ℕ → ℕ → Engine LID CLID Mem P CP V
  unfolding mark_transfer disable_lease new_committed
  transfer_leader e leader now to =
      push
        (record e {
          leader = some (mark_transfer leader now to e.election_timeout);
          vote_lease = disable_lease e.vote_lease;
        })
        (broadcast_transfer_leader (record {
          from_leader = new_committed leader.committed_vote.leader_id;
          to_node_id = to;
          last_log_id = leader.last_log_id;
        }))

  -- without a leader, it is ignored
  unfoldable pub trigger_transfer_leader :
      Engine LID CLID Mem P CP V → ℕ → ℕ → Engine LID CLID Mem P CP V
  unfolding transfer_leader
  trigger_transfer_leader e now to = elim e.leader [
    | none ↦ e
    | some leader ↦ transfer_leader e leader now to
  ]

-- the votes of two log IOs are equal, by their partial order
unfoldable pub same_io_vote :
    {LID CLID : Type 0} ⦃l : RaftLeaderId LID⦄ ⦃o : Ord CLID⦄
    → Option (IoId LID CLID)
    → Option (IoId LID CLID)
    → Bool
unfolding as_ref_vote
same_io_vote none none = true
same_io_vote none (some b) = false
same_io_vote (some a) none = false
same_io_vote (some a) (some b) = same_vote (as_ref_vote a) (as_ref_vote b)

abbrev pub io_log_id : {LID CLID : Type 0} → Option (IoId LID CLID) → Option (LogId CLID)
io_log_id io = elim io [ none ↦ none | some x ↦ Ids.last_log_id x ]

module _ {LID CLID Mem : Type 0} ⦃l : RaftLeaderId LID⦄ ⦃o : Ord CLID⦄ where
  -- `log_submitted.min(apply_accepted)`
  unfoldable pub applicable_upto : RaftState LID CLID Mem → Option (LogId CLID)
  unfolding Ids.last_log_id
  applicable_upto s =
      min_by (cmp_option cmp_log_id) (io_log_id s.io_state.log_progress.submitted)
        s.io_state.apply_progress.accepted

  -- The unwrapped log id exists, since the next index of `None` is 0.
  unfoldable pub apply_command :
      Option (LogId CLID) → Option (LogId CLID) → Option (Command LID CLID Mem)
  apply_command submitted none = none
  apply_command submitted (some upto) =
      if ltb (next_index submitted) (next_index (some upto))
      then some (save_committed_and_apply submitted upto)
      else none

  unfoldable pub next_progress_driven_command :
      RaftState LID CLID Mem → Option (Command LID CLID Mem)
  unfolding same_io_vote applicable_upto apply_command
  next_progress_driven_command s =
      let submitted = s.io_state.apply_progress.submitted in
      if same_io_vote s.io_state.log_progress.submitted s.io_state.log_progress.accepted
      then (if ltb (next_index submitted) (next_index s.io_state.snapshot.accepted)
          then none
          else apply_command submitted (applicable_upto s))
      else none

module _ {LID CLID Mem P CP V : Type 0} ⦃l : RaftLeaderId LID⦄ ⦃o : Ord CLID⦄
    ⦃m : RaftMembership Mem⦄ ⦃n : QuorumMembership Mem⦄
    ⦃t : ProgressItem (ProgressEntry CLID) (Option (LogId CLID))⦄
    ⦃v : VecProgress P (ProgressEntry CLID) (Option (LogId CLID))⦄ ⦃c : ClockProgress CP⦄
    ⦃y : Tally V⦄ (env : Env LID CLID) where
  -- `is_campaigner_in_effective_or_committed`
  unfoldable pub may_campaign : Engine LID CLID Mem P CP V → Bool
  unfolding is_campaigner
  may_campaign e =
      is_campaigner e.state.membership_state.effective.membership e.config.id
      || is_campaigner e.state.membership_state.committed.membership e.config.id

  -- the vote is no longer committed, in memory only
  unfoldable pub demoted : Engine LID CLID Mem P CP V → Engine LID CLID Mem P CP V
  unfolding new updated
  demoted e = record e {
    state = record e.state { vote = new e.state.vote.leader_id };
    vote_lease = updated env.now 0;
  }

  unfoldable pub start_following : Engine LID CLID Mem P CP V → Engine LID CLID Mem P CP V
  unfolding demoted is_leader calc_following_state
  start_following e =
      let d = if is_leader e.state e.config.id then demoted e else e in
      record d {
        state = record d.state { server_state = calc_following_state d.state d.config.id };
      }

  unfoldable pub startup : Engine LID CLID Mem P CP V → Engine LID CLID Mem P CP V
  unfolding is_leader start_following may_campaign elect
  startup e =
      let followed = start_following e in
      if (is_leader e.state e.config.id && e.enable_leader_restore) && may_campaign followed
      then elect env followed
      else followed
