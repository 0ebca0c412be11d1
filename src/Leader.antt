-- ===== src/Leader.antt =====
-- openraft/src/proposer/leader.rs: the state of a leader. Times are numbers, the present time is an
-- argument, and so is the stream id that the shared generator gives to each new entry. A number has
-- no bound, so a heartbeat round does not overflow.
use openraft.Prelude.{
  ℕ, suc, ◌+◌, ◌-◌, Bool, true, false, Option, none, some, List, [], ◌∷◌, if◌then◌else◌, not, ◌==◌,
  ◌&&◌, leb, ltb,
}
use openraft.Prelude.Ord.{Ord, nat_ord, is_eq}
use openraft.LogId.{LogId, next_index}
use openraft.LeaderLogIds.{LeaderLogIds, first_ref, last_ref}
use openraft.Vote.LeaderId.{RaftLeaderId}
use openraft.IoState.Ids.{CommittedVote}
use openraft.Membership.{RaftMembership, is_write_voter}
use openraft.Progress.Entry.{ProgressEntry, empty, with_probe_start}
use openraft.VecProgress.{VecProgress, ClockProgress, QuorumRule, ProgressItem, SendStamp}

-- The methods of the trait `RaftMembership` that the proposers use.
pub record QuorumMembership (Mem : Type 0) : Type 0 where
  pub read_quorum_set : Mem → QuorumRule
  pub write_quorum_set : Mem → QuorumRule
  pub node_ids : Mem → List ℕ

pub record Leader (LID CLID P CP : Type 0) : Type 0 where
  pub transfer_to : Option (ℕ × ℕ)
  pub committed_vote : CommittedVote LID
  pub next_heartbeat : ℕ
  pub heartbeat_round : ℕ
  pub last_log_id : Option (LogId CLID)
  pub noop_log_id : LogId CLID
  pub progress : P
  pub clock_progress : CP
  pub self_quorum : Bool

-- `RaftMembershipExt::non_write_voter_ids`: a filter of the node ids
unfoldable pub non_write_voters : {Mem : Type 0} ⦃m : RaftMembership Mem⦄ → Mem → List ℕ → List ℕ
unfolding is_write_voter
non_write_voters mem [] = []
non_write_voters mem (id ∷ ids) =
    let rest = non_write_voters mem ids in if is_write_voter mem id then rest else id ∷ rest

unfoldable pub non_write_voter_ids :
    {Mem : Type 0} ⦃m : RaftMembership Mem⦄ ⦃n : QuorumMembership Mem⦄ → Mem → List ℕ
unfolding non_write_voters
non_write_voter_ids ⦃n⦄ mem = non_write_voters mem (n.node_ids mem)

-- the log id of the blank log that the leader proposes first: that of its first log if it has one
-- already, and else the next one
unfoldable pub noop :
    {CLID : Type 0} ⦃o : Ord CLID⦄ → CLID → Option (LeaderLogIds CLID) → LogId CLID
noop cl_id none = record { leader_id = cl_id; index = 0 }
noop ⦃o⦄ cl_id (some ids) =
    if is_eq (o.cmp ids.committed_leader_id cl_id)
    then first_ref ids
    else record { leader_id = cl_id; index = suc ids.last }

abbrev pub last_of : {CLID : Type 0} → Option (LeaderLogIds CLID) → Option (LogId CLID)
last_of ids = elim ids [ none ↦ none | some ids ↦ some (last_ref ids) ]

module _ {LID CLID P CP : Type 0} ⦃l : RaftLeaderId LID⦄ ⦃c : ClockProgress CP⦄ where
  unfoldable pub calc_self_quorum : Leader LID CLID P CP → Bool
  calc_self_quorum leader =
      (c.quorum_set leader.clock_progress).is_quorum
        (l.node_id leader.committed_vote.leader_id ∷ [])

  unfoldable pub update_self_quorum : Leader LID CLID P CP → Leader LID CLID P CP
  unfolding calc_self_quorum
  update_self_quorum leader = record leader { self_quorum = calc_self_quorum leader }

  -- `leader_lease` after the quorum's last acknowledgment; a leader that is a quorum by itself keeps
  -- its lease, except in a transfer
  unfoldable pub is_lease_valid : Leader LID CLID P CP → ℕ → ℕ → Bool
  is_lease_valid leader now leader_lease =
      let transferring : Bool = elim leader.transfer_to [ none ↦ false | some to ↦ true ] in
      if leader.self_quorum && not transferring
      then true
      else elim (c.quorum_accepted leader.clock_progress) [
        | none ↦ false
        | some acked ↦ ltb now (acked.time + leader_lease)
      ]

  -- `None` is a panic: the target has no entry.
  unfoldable pub update_clock :
      Leader LID CLID P CP → ℕ → SendStamp → Option (Leader LID CLID P CP × Option SendStamp)
  update_clock leader target sending_time =
      let own =
        c.increase_to leader.clock_progress (l.node_id leader.committed_vote.leader_id)
          (some sending_time) in
      let clock : CP = elim own [ none ↦ leader.clock_progress | some clock ↦ clock ] in
      elim (c.increase_to clock target (some sending_time)) [
        | none ↦ none
        | some updated ↦
            some (record leader { clock_progress = updated }, c.quorum_accepted updated)
      ]

  unfoldable pub need_heartbeat : Leader LID CLID P CP → ℕ → ℕ → ℕ → Bool
  need_heartbeat leader target now min_interval = elim (c.try_get leader.clock_progress target) [
    | none ↦ true
    | some none ↦ true
    | some (some sending_time) ↦ leb (sending_time.time + min_interval) now
  ]

module _ {LID CLID P CP : Type 0} where
  unfoldable pub mark_transfer : Leader LID CLID P CP → ℕ → ℕ → ℕ → Leader LID CLID P CP
  mark_transfer leader now to timeout = record leader { transfer_to = some (to, now + timeout) }

  unfoldable pub get_transfer_to : Leader LID CLID P CP → Option ℕ
  get_transfer_to leader = elim leader.transfer_to [ none ↦ none | some to ↦ some to.0 ]

  unfoldable pub is_transfer_expired : Leader LID CLID P CP → ℕ → Bool
  is_transfer_expired leader now = elim leader.transfer_to [ none ↦ false | some to ↦ leb to.1 now ]

  unfoldable pub next_heartbeat_round : Leader LID CLID P CP → Leader LID CLID P CP × ℕ
  next_heartbeat_round leader =
      (record leader { heartbeat_round = leader.heartbeat_round + 1 }, leader.heartbeat_round + 1)

  -- `count` log ids after the last one, none for a count of 0
  unfoldable pub assign_log_ids :
      (LID → CLID) → Leader LID CLID P CP → ℕ → Leader LID CLID P CP × Option (LeaderLogIds CLID)
  assign_log_ids to_committed leader count =
      let cl_id = to_committed leader.committed_vote.leader_id in
      let first = next_index leader.last_log_id in
      let last = first + count - 1 in
      if count == 0 then (leader, none) else (
        record leader { last_log_id = some (record { leader_id = cl_id; index = last }) },
        some (record { committed_leader_id = cl_id; first = first; last = last }),
      )

module _ {LID CLID Mem P CP : Type 0} ⦃l : RaftLeaderId LID⦄ ⦃o : Ord CLID⦄ ⦃m : RaftMembership Mem⦄
    ⦃n : QuorumMembership Mem⦄ ⦃t : ProgressItem (ProgressEntry CLID) (Option (LogId CLID))⦄
    ⦃v : VecProgress P (ProgressEntry CLID) (Option (LogId CLID))⦄ ⦃c : ClockProgress CP⦄ where
  -- `Leader::new`, at the time `now`
  unfoldable pub new :
      (LID → CLID)
      → (ℕ → ℕ)
      → ℕ
      → CommittedVote LID
      → Mem
      → Option (LeaderLogIds CLID)
      → Leader LID CLID P CP
  unfolding non_write_voter_ids noop empty with_probe_start update_self_quorum
  new to_committed stream_ids now vote membership last_leader_log_ids =
      let noop_log_id = noop (to_committed vote.leader_id) last_leader_log_ids in
      let last_log_id = last_of last_leader_log_ids in
      let write_quorum_set = n.write_quorum_set membership in
      let others = non_write_voter_ids membership in
      let clock : CP = c.new write_quorum_set others in
      let started =
        c.increase_to clock (l.node_id vote.leader_id)
          (some (record { time = now; heartbeat_round = 0 })) in
      update_self_quorum (record {
        transfer_to = none;
        committed_vote = vote;
        next_heartbeat = now;
        heartbeat_round = 0;
        last_log_id = last_log_id;
        noop_log_id = noop_log_id;
        progress = v.new write_quorum_set others (λ id.
            with_probe_start (empty id (stream_ids id) (next_index last_log_id)) noop_log_id.index);
        clock_progress = elim started [ none ↦ clock | some clock ↦ clock ];
        self_quorum = false;
      })
