-- ===== src/Replication/Streams.antt =====
-- openraft/src/engine/handler/{replication_handler,leader_handler}/mod.rs: how a leader appends entries
-- and sends logs to the other nodes. A payload is what the engine reads of it, its membership. The
-- address of a target is left out, with the unwrap that reads it.
use openraft.Prelude.{
  ℕ, Bool, false, Option, none, some, List, [], ◌∷◌, ◌++◌, if◌then◌else◌, not, ◌==◌, length,
}
use openraft.Prelude.Ord.{Ord}
use openraft.LogId.{LogId, next_index}
use openraft.LogIdList.Leaders.{extend_from_same_leader}
use openraft.LeaderLogIds.{LeaderLogIds, into_iter, collect}
use openraft.Vote.LeaderId.{RaftLeaderId}
use openraft.IoState.Ids.{CommittedVote, LogIoId, log_io}
use openraft.Membership.{RaftMembership, receives_logs}
use openraft.MembershipState as MembershipStates
use openraft.MembershipState.Recent.{Entry, entry}
use openraft.RaftState.{RaftState, last_log_id, accept_log_io}
use openraft.Progress.Inflight.{Inflight, nothing, probe, logs_since, snapshot}
use openraft.Progress.Entry.{ProgressEntry, empty, with_probe_start}
use openraft.Progress.Update.{set_inflight}
use openraft.Progress.Send.{next_send}
use openraft.VecProgress.{VecProgress, ClockProgress, ProgressItem}
use openraft.Leader.{
  Leader, QuorumMembership, non_write_voter_ids, update_self_quorum, assign_log_ids,
}
use openraft.Replication.{
  Replication, Command, replicate, replicate_snapshot, rebuild_replication_streams, append_command,
  probe_payload, logs_since_payload, push_command, set_progress, max_entries_per_probe,
}

module _ {LID CLID Mem : Type 0} where
  -- `Inflight::None` is `unreachable!`; no command stands for it
  unfoldable pub send_to_target :
      CommittedVote LID → ℕ → Inflight CLID → List (Command LID CLID Mem)
  send_to_target leader_vote target inflight = elim inflight [
    | nothing ↦ []
    | probe range id ↦ replicate target id (probe_payload range) ∷ []
    | snapshot id ↦ replicate_snapshot leader_vote target id ∷ []
    | logs_since prev id ↦ replicate target id (logs_since_payload prev) ∷ []
  ]

module _ {CLID Mem : Type 0} where
  -- `payloads.into_iter().zip(log_ids)`
  unfoldable pub zip_entries : List (Option Mem) → List (LogId CLID) → List (Entry CLID Mem)
  zip_entries [] log_ids = []
  zip_entries (payload ∷ payloads) [] = []
  zip_entries (payload ∷ payloads) (log_id ∷ log_ids) =
      entry log_id payload ∷ zip_entries payloads log_ids

  -- the last membership of the entries, with its log id
  unfoldable pub membership_entry : List (Entry CLID Mem) → Option (LogId CLID × Mem)
  membership_entry [] = none
  membership_entry (entry log_id payload ∷ entries) =
      let rest = membership_entry entries in
      elim rest [
        | some found ↦ some found
        | none ↦ elim payload [ none ↦ none | some m ↦ some (log_id, m) ]
      ]

-- The entries, as `rebuild_replication_streams` leaves them. The node that it looks up for each
-- target, and unwraps, is left out.
unfoldable pub close_streams :
    {CLID : Type 0} → ℕ → Bool → List (ProgressEntry CLID) → List (ProgressEntry CLID)
close_streams id close_old [] = []
close_streams id close_old (item ∷ items) =
    let rest = close_streams id close_old items in
    if item.id == id
    then item ∷ rest
    else if close_old
    then set_inflight item nothing ∷ rest
    else item ∷ rest

unfoldable pub other_nodes :
    {CLID : Type 0} → ℕ → List (ProgressEntry CLID) → List (ProgressEntry CLID)
other_nodes id [] = []
other_nodes id (item ∷ items) =
    let rest = other_nodes id items in if item.id == id then rest else item ∷ rest

module _ {LID CLID Mem : Type 0} ⦃o : Ord CLID⦄ ⦃m : RaftMembership Mem⦄ where
  -- the loop of `initiate_replication`: the state, the entries and the commands
  unfoldable pub send_each :
      ℕ
      → CommittedVote LID
      → Mem
      → RaftState LID CLID Mem
      → List (ProgressEntry CLID)
      → RaftState LID CLID Mem × List (ProgressEntry CLID) × List (Command LID CLID Mem)
  unfolding receives_logs next_send send_to_target
  send_each id leader_vote membership s [] = (s, [], [])
  send_each id leader_vote membership s (item ∷ items) =
      let skipped = send_each id leader_vote membership s items in
      let sent = next_send s item max_entries_per_probe in
      let rest = send_each id leader_vote membership sent.0 items in
      if item.id == id
      then (skipped.0, item ∷ skipped.1, skipped.2)
      else if not (receives_logs membership item.id)
      then (skipped.0, item ∷ skipped.1, skipped.2)
      else (
        rest.0,
        sent.1 ∷ rest.1,
        (if sent.2 then send_to_target leader_vote item.id sent.1.progress_data.inflight else [])
            ++ rest.2,
      )

module _ {LID CLID Mem P CP : Type 0} ⦃l : RaftLeaderId LID⦄ ⦃o : Ord CLID⦄ ⦃m : RaftMembership Mem⦄
    ⦃n : QuorumMembership Mem⦄ ⦃t : ProgressItem (ProgressEntry CLID) (Option (LogId CLID))⦄
    ⦃v : VecProgress P (ProgressEntry CLID) (Option (LogId CLID))⦄ ⦃c : ClockProgress CP⦄ where
  unfoldable pub rebuild_streams :
      Replication LID CLID Mem P CP → Bool → Replication LID CLID Mem P CP
  unfolding close_streams other_nodes
  rebuild_streams h close_old =
      let items = close_streams h.config.id close_old (v.iter h.leader.progress) in
      push_command (set_progress h (v.with_entries h.leader.progress items)) (
        rebuild_replication_streams h.leader.committed_vote (other_nodes h.config.id items)
          close_old)

  unfoldable pub initiate_replication :
      Replication LID CLID Mem P CP → Replication LID CLID Mem P CP
  unfolding send_each
  initiate_replication h =
      let (state, items, commands) =
        send_each h.config.id h.leader.committed_vote h.state.membership_state.effective.membership
          h.state (v.iter h.leader.progress) in
      set_progress (record h { state = state; output = h.output ++ commands })
        (v.with_entries h.leader.progress items)

  unfoldable pub rebuild_progresses :
      (ℕ → ℕ) → Replication LID CLID Mem P CP → Replication LID CLID Mem P CP
  unfolding non_write_voter_ids last_log_id empty with_probe_start update_self_quorum
  rebuild_progresses stream_ids h =
      let membership = h.state.membership_state.effective.membership in
      let end = next_index (last_log_id h.state) in
      record h {
        leader = update_self_quorum (record h.leader {
          progress =
              v.upgrade_quorum_set h.leader.progress (n.write_quorum_set membership)
                (non_write_voter_ids membership)
                (λ id. with_probe_start (empty id (stream_ids id) end) h.leader.noop_log_id.index);
          clock_progress =
              c.upgrade_quorum_set h.leader.clock_progress (n.write_quorum_set membership)
                (non_write_voter_ids membership);
        });
      }

  unfoldable pub append_membership :
      (ℕ → ℕ) → Replication LID CLID Mem P CP → LogId CLID × Mem → Replication LID CLID Mem P CP
  unfolding MembershipStates.append rebuild_progresses rebuild_streams initiate_replication
  append_membership stream_ids h appended =
      let state = record h.state {
        membership_state =
            MembershipStates.append h.state.membership_state
              (record { log_id = some appended.0; membership = appended.1 });
      } in
      initiate_replication
        (rebuild_streams (rebuild_progresses stream_ids (record h { state = state })) false)

  unfoldable pub append_found :
      (ℕ → ℕ)
      → Replication LID CLID Mem P CP
      → Option (LogId CLID × Mem)
      → Replication LID CLID Mem P CP
  unfolding append_membership
  append_found stream_ids h none = h
  append_found stream_ids h (some found) = append_membership stream_ids h found

  -- once the log ids are assigned: the log is extended and its IO accepted
  unfoldable pub append_assigned :
      (ℕ → ℕ)
      → Replication LID CLID Mem P CP
      → List (Option Mem)
      → LeaderLogIds CLID
      → Replication LID CLID Mem P CP
  unfolding extend_from_same_leader collect into_iter accept_log_io zip_entries membership_entry
      append_found initiate_replication
  append_assigned stream_ids h payloads ids =
      let log_ids = collect (into_iter ids) in
      let entries = zip_entries payloads log_ids in
      let extended = record h.state { log_ids = extend_from_same_leader h.state.log_ids log_ids } in
      let io : LogIoId LID CLID = record {
        committed_vote = h.leader.committed_vote;
        log_id = h.leader.last_log_id;
      } in
      initiate_replication (
        append_found stream_ids
          (push_command (record h { state = (accept_log_io extended (log_io io)).0 })
            (append_command h.leader.committed_vote entries))
          (membership_entry entries))

  -- the `?` on the assigned log ids
  unfoldable pub append_if_assigned :
      (ℕ → ℕ)
      → Replication LID CLID Mem P CP
      → List (Option Mem)
      → Leader LID CLID P CP × Option (LeaderLogIds CLID)
      → Replication LID CLID Mem P CP × Option (LeaderLogIds CLID)
  unfolding append_assigned
  append_if_assigned stream_ids h payloads (leader, none) = (record h { leader = leader }, none)
  append_if_assigned stream_ids h payloads (leader, some ids) =
      (append_assigned stream_ids (record h { leader = leader }) payloads ids, some ids)

  -- the handler, and the log ids of the entries
  unfoldable pub leader_append_entries :
      (LID → CLID)
      → (ℕ → ℕ)
      → Replication LID CLID Mem P CP
      → List (Option Mem)
      → Replication LID CLID Mem P CP × Option (LeaderLogIds CLID)
  unfolding assign_log_ids append_if_assigned
  leader_append_entries to_committed stream_ids h payloads =
      append_if_assigned stream_ids h payloads
        (assign_log_ids to_committed h.leader (length payloads))
