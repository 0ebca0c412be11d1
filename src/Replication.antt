-- ===== src/Replication.antt =====
-- openraft/src/engine/handler/{replication_handler,leader_handler,log_handler}/mod.rs: how a leader
-- appends, replicates, commits and purges logs. The handlers share one leader, one state and one
-- queue of commands. `to_committed` is the method of the leader id type, the stream id of a new entry
-- is an argument, and logging is left out.
pub mod Purge
pub mod Commit
pub mod Hint
pub mod Search
pub mod Streams
pub mod Ranges
pub mod Kept
pub mod Appended
mod Tests
use openraft.Prelude.{
  ℕ, zero, suc, ◌+◌, ◌-◌, Bool, true, false, Option, none, some, List, [], ◌∷◌, ◌++◌, map,
  if◌then◌else◌, not, ◌==◌, ◌&&◌, ◌||◌, leb, ltb, min, max, length, ◌>>=◌,
}
use openraft.Prelude.Ord.{Ord, nat_ord, is_eq}
use openraft.LogId.{LogId, next_index}
use openraft.LogIdList.{ref_at}
use openraft.LogIdList.Leaders.{extend_from_same_leader}
use openraft.LeaderLogIds.{LeaderLogIds, into_iter, collect}
use openraft.Vote.LeaderId.{RaftLeaderId}
use openraft.IoState.Ids.{CommittedVote, LogIoId, log_io, log_io_id_order}
use openraft.IoState.Monotonic.{try_update}
use openraft.Membership.{RaftMembership, receives_logs}
use openraft.MembershipState as MembershipStates
use openraft.MembershipState.{log_id_le, log_id_lt}
use openraft.MembershipState.Recent.{Entry, entry}
use openraft.RaftState.{
  RaftState, last_log_id, update_local_committed, accept_purge, accept_log_io,
  set_cluster_committed,
}
use openraft.Progress.Inflight.{
  Inflight, nothing, probe, logs_since, snapshot, LogIdRange, probe_range,
}
use openraft.Progress.Entry.{ProgressEntry, empty, with_probe_start, is_log_range_inflight}
use openraft.Progress.Update.{set_inflight}
use openraft.Progress.Update as Updates
use openraft.Progress.Send.{next_send}
use openraft.VecProgress.{VecProgress, ClockProgress, ProgressItem, SendStamp}
use openraft.Leader.{
  Leader, QuorumMembership, non_write_voter_ids, update_self_quorum, update_clock, assign_log_ids,
}

-- `u64::MAX`
unfoldable pub max_u64 : ℕ
max_u64 = 0xffff_ffff_ffff_ffff

-- `EngineConfig`: the fields that the handlers read
pub record Config : Type 0 where
  pub id : ℕ
  pub max_in_snapshot_log_to_keep : ℕ
  pub purge_batch_size : ℕ
  pub allow_log_reversion : Bool

-- `Payload` of a `Replicate` request
pub data Payload (CLID : Type 0) : Type 0 where
  probe_payload : LogIdRange CLID → Payload CLID
  logs_since_payload : Option (LogId CLID) → Payload CLID

-- `Command`: the variants that these handlers push
pub data Command (LID CLID Mem : Type 0) : Type 0 where
  replicate_committed : Option (LogId CLID) → Command LID CLID Mem
  replicate : ℕ → ℕ → Payload CLID → Command LID CLID Mem
  replicate_snapshot : CommittedVote LID → ℕ → ℕ → Command LID CLID Mem
  rebuild_replication_streams :
      CommittedVote LID → List (ProgressEntry CLID) → Bool → Command LID CLID Mem
  purge_log_to : LogId CLID → Command LID CLID Mem
  append_command : CommittedVote LID → List (Entry CLID Mem) → Command LID CLID Mem

-- `ReplicationHandler` and `LeaderHandler`
pub record Replication (LID CLID Mem P CP : Type 0) : Type 0 where
  pub config : Config
  pub leader : Leader LID CLID P CP
  pub state : RaftState LID CLID Mem
  pub output : List (Command LID CLID Mem)

-- `MAX_ENTRIES_PER_PROBE`
abbrev pub max_entries_per_probe : ℕ
max_entries_per_probe = 8

-- `Option<LogId>` of an `Option<LogIoId>`: `RaftState::cluster_committed`
abbrev pub cluster_committed :
    {LID CLID Mem : Type 0} → RaftState LID CLID Mem → Option (LogId CLID)
cluster_committed s = elim s.io_state.cluster_committed.value [ none ↦ none | some io ↦ io.log_id ]

abbrev pub last_purged : {LID CLID Mem : Type 0} → RaftState LID CLID Mem → Option (LogId CLID)
last_purged s = s.log_ids.purged

module _ {LID CLID Mem P CP : Type 0} where
  abbrev pub push_command :
      Replication LID CLID Mem P CP → Command LID CLID Mem → Replication LID CLID Mem P CP
  push_command h command = record h { output = h.output ++ command ∷ [] }

  abbrev pub set_progress : Replication LID CLID Mem P CP → P → Replication LID CLID Mem P CP
  set_progress h progress = record h { leader = record h.leader { progress = progress } }

  -- what an update of an entry leaves: `None` changes nothing
  abbrev pub set_updated : Replication LID CLID Mem P CP → Option P → Replication LID CLID Mem P CP
  set_updated h updated = elim updated [ none ↦ h | some progress ↦ set_progress h progress ]

module _ {LID CLID Mem P CP : Type 0} ⦃o : Ord CLID⦄ where
  -- `LogHandler::purge_log`; the unwrapped value exists, since `None` is never greater
  unfoldable pub purge_to :
      Replication LID CLID Mem P CP → Option (LogId CLID) → Replication LID CLID Mem P CP
  unfolding accept_purge
  purge_to h none = h
  purge_to h (some upto) =
      push_command (record h { state = accept_purge h.state upto }) (purge_log_to upto)

  unfoldable pub purge_log : Replication LID CLID Mem P CP → Replication LID CLID Mem P CP
  unfolding purge_to
  purge_log h =
      if log_id_le h.state.purge_upto (last_purged h.state)
      then h
      else purge_to h h.state.purge_upto

module _ {LID CLID Mem : Type 0} where
  -- `LogHandler::calc_purge_upto`, where arithmetic is checked: the outer `none` is a panic, when the
  -- sum is beyond a `u64`, or 1 is taken from 0
  unfoldable pub calc_purge_upto : Config → RaftState LID CLID Mem → Option (Option (LogId CLID))
  unfolding ref_at max_u64
  calc_purge_upto config s =
      let purge_end = next_index s.snapshot_meta.last_log_id - config.max_in_snapshot_log_to_keep in
      let batch_end = next_index (last_purged s) + config.purge_batch_size in
      if ltb max_u64 batch_end
      then none
      else if ltb purge_end batch_end
      then some none
      else if purge_end == 0
      then none
      else some (ref_at s.log_ids (purge_end - 1))

  -- `update_purge_upto`, if the log id is greater
  unfoldable pub raise_purge_upto :
      ⦃o : Ord CLID⦄ → RaftState LID CLID Mem → Option (LogId CLID) → RaftState LID CLID Mem
  raise_purge_upto s none = s
  raise_purge_upto s (some upto) =
      if log_id_lt s.purge_upto (some upto) then record s { purge_upto = some upto } else s

  -- `LogHandler::schedule_policy_based_purge`
  unfoldable pub schedule_policy_based_purge :
      ⦃o : Ord CLID⦄ → Config → RaftState LID CLID Mem → Option (RaftState LID CLID Mem)
  unfolding calc_purge_upto raise_purge_upto
  schedule_policy_based_purge config s = do
    upto ← calc_purge_upto config s
    some (raise_purge_upto s upto)

-- the loop that finds an entry whose request uses the logs to purge
unfoldable pub in_use :
    {CLID : Type 0} ⦃o : Ord CLID⦄ → LogId CLID → List (ProgressEntry CLID) → Bool
unfolding is_log_range_inflight
in_use upto [] = false
in_use upto (item ∷ items) = is_log_range_inflight item upto || in_use upto items

module _ {LID CLID Mem P CP : Type 0} ⦃o : Ord CLID⦄
    ⦃t : ProgressItem (ProgressEntry CLID) (Option (LogId CLID))⦄
    ⦃v : VecProgress P (ProgressEntry CLID) (Option (LogId CLID))⦄ where
  unfoldable pub purge_unused :
      Replication LID CLID Mem P CP → Option (LogId CLID) → Replication LID CLID Mem P CP
  unfolding in_use purge_log
  purge_unused h none = h
  purge_unused h (some upto) = if in_use upto (v.iter h.leader.progress) then h else purge_log h

  unfoldable pub try_purge_log : Replication LID CLID Mem P CP → Replication LID CLID Mem P CP
  unfolding purge_unused
  try_purge_log h =
      if log_id_le h.state.purge_upto (last_purged h.state)
      then h
      else purge_unused h h.state.purge_upto

-- `vote_ref().is_same_leader(c.committed_leader_id())`; it is not asked of `None`, which passes
unfoldable pub is_of_leader : {CLID : Type 0} ⦃o : Ord CLID⦄ → CLID → Option (LogId CLID) → Bool
is_of_leader leader none = true
is_of_leader ⦃o⦄ leader (some c) = is_eq (o.cmp leader c.leader_id)

module _ {LID CLID Mem P CP : Type 0} ⦃l : RaftLeaderId LID⦄ ⦃o : Ord CLID⦄ where
  -- the log id is committed, whose leader is the present one
  unfoldable pub commit_accepted :
      Replication LID CLID Mem P CP → Option (LogId CLID) → Replication LID CLID Mem P CP
  unfolding set_cluster_committed update_local_committed
  commit_accepted h granted =
      let committed : LogIoId LID CLID = record {
        committed_vote = record { leader_id = h.state.vote.leader_id };
        log_id = granted;
      } in
      let state = update_local_committed (set_cluster_committed h.state committed) granted in
      if log_id_lt (cluster_committed h.state) (cluster_committed state)
      then push_command (record h { state = state }) (replicate_committed (cluster_committed state))
      else record h { state = state }

module _ {LID CLID Mem P CP : Type 0} ⦃l : RaftLeaderId LID⦄ ⦃o : Ord CLID⦄
    ⦃t : ProgressItem (ProgressEntry CLID) (Option (LogId CLID))⦄
    ⦃v : VecProgress P (ProgressEntry CLID) (Option (LogId CLID))⦄ (to_committed : LID → CLID) where
  unfoldable pub try_commit_quorum_accepted :
      Replication LID CLID Mem P CP → Option (LogId CLID) → Replication LID CLID Mem P CP
  unfolding is_of_leader commit_accepted
  try_commit_quorum_accepted h granted =
      if is_of_leader (to_committed h.state.vote.leader_id) granted
      then commit_accepted h granted
      else h

  unfoldable pub update_matching :
      Replication LID CLID Mem P CP
      → ℕ
      → Option (LogId CLID)
      → Option ℕ
      → Replication LID CLID Mem P CP
  unfolding Updates.update_matching try_commit_quorum_accepted
  update_matching h node_id log_id inflight_id =
      elim (v.update_entry_with h.leader.progress node_id
        (λ entry. Updates.update_matching entry log_id inflight_id)) [
          | none ↦ h
          | some progress ↦
              try_commit_quorum_accepted (set_progress h progress) (v.quorum_accepted progress)
        ]
