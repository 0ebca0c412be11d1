-- ===== src/Engine.antt =====
-- openraft/src/engine/engine_impl.rs and engine/handler/{vote_handler,establish_handler}: the engine of
-- a node, which takes votes, elects, and becomes a leader or a follower. A method that changes the
-- engine returns the new one. The times of the vote's lease stand beside the state, the election
-- timeout that is sampled anew for each election is left out, and so is logging.
pub mod Elections
pub mod Votes
pub mod Answers
pub mod Campaign
pub mod Moves
pub mod Safety
pub mod Fixtures
pub mod Requests
pub mod Appends
pub mod Upkeep
pub mod Initialize
pub mod Kept
pub mod Raises
pub mod Applies
pub mod Scheduled
pub mod Startup
mod Tests
mod RequestTests
use openraft.Prelude.{
  ℕ, suc, Bool, true, false, Option, none, some, List, [], ◌∷◌, ◌++◌, map, if◌then◌else◌, not,
  Ordering, ◌&&◌, ◌||◌,
}
use openraft.Prelude.Ord.{Ord}
use openraft.LogId.{LogId}
use openraft.LogIdList.Leaders.{by_last_leader}
use openraft.Vote.{Vote, partial_cmp, ge, is_gt, is_ge}
use openraft.Vote.LeaderId.{RaftLeaderId}
use openraft.IoState.Ids.{IoId, CommittedVote, log_io, io_id_of_vote}
use openraft.Membership.{RaftMembership}
use openraft.MembershipState.{log_id_le, log_id_lt}
use openraft.RaftState.{RaftState, last_log_id, accept_log_io}
use openraft.RaftState.Server.{is_leader, is_leading, update_server_state_if_changed}
use openraft.VoteHandler.{grant}
use openraft.Progress.Entry.{ProgressEntry}
use openraft.VecProgress.{VecProgress, ProgressItem, ClockProgress}
use openraft.Lease.{Lease, updated, touch, is_expired}
use openraft.Leader as Leaders
use openraft.Leader.{Leader, QuorumMembership, is_transfer_expired, is_lease_valid}
use openraft.Candidate.{Candidate, Tally, Env, grant_by, new_candidate, into_leader}
use openraft.Replication as Replications
use openraft.Following as Followings
use openraft.Replication.Hint.{ConflictHint}
use openraft.Replication.{Replication}
use openraft.Replication.Streams.{rebuild_streams, initiate_replication, leader_append_entries}

-- `VoteRequest` and `VoteResponse`
pub record VoteRequest (LID CLID : Type 0) : Type 0 where
  pub vote : Vote LID
  pub last_log_id : Option (LogId CLID)
  pub leadership_transfer_from : Option (Vote LID)

pub record VoteResponse (LID CLID : Type 0) : Type 0 where
  pub vote : Vote LID
  pub last_log_id : Option (LogId CLID)
  pub vote_granted : Bool

-- `Condition`: what a command or an answer waits for
pub data Condition (LID CLID : Type 0) : Type 0 where
  io_flushed : IoId LID CLID → Condition LID CLID
  log_flushed : LogId CLID → Condition LID CLID
  log_applied : LogId CLID → Condition LID CLID
  snapshot_built : LogId CLID → Condition LID CLID

-- `AppendResult`: the last log id of the request, or an `AppendError`
pub data AppendResult (LID CLID : Type 0) : Type 0 where
  matched : Option (LogId CLID) → AppendResult LID CLID
  higher_vote : Vote LID → AppendResult LID CLID
  conflict : LogId CLID → Option (ConflictHint CLID) → AppendResult LID CLID

pub record TransferLeaderRequest (LID CLID : Type 0) : Type 0 where
  pub from_leader : Vote LID
  pub to_node_id : ℕ
  pub last_log_id : Option (LogId CLID)

-- `Command`: the variants that the engine pushes itself, and those of the handlers. The channel of a
-- response is left out.
pub data Command (LID CLID Mem : Type 0) : Type 0 where
  save_vote : Vote LID → Command LID CLID Mem
  send_vote : VoteRequest LID CLID → Command LID CLID Mem
  send_pre_vote : VoteRequest LID CLID → Command LID CLID Mem
  fail_pending_reads : Command LID CLID Mem
  close_replication_streams : Command LID CLID Mem
  update_io_progress : Option (IoId LID CLID) → IoId LID CLID → Command LID CLID Mem
  replication : Replications.Command LID CLID Mem → Command LID CLID Mem
  following : Followings.Command LID CLID Mem → Command LID CLID Mem
  respond_append : Option (Condition LID CLID) → AppendResult LID CLID → Command LID CLID Mem
  respond_snapshot : Option (Condition LID CLID) → Vote LID → Command LID CLID Mem
  broadcast_transfer_leader : TransferLeaderRequest LID CLID → Command LID CLID Mem
  build_snapshot : Command LID CLID Mem
  save_committed_and_apply : Option (LogId CLID) → LogId CLID → Command LID CLID Mem

-- `leader_lease` and `election_timeout` are those of the timer configuration, and
-- `enable_leader_restore` is of the engine's configuration too.
pub record Engine (LID CLID Mem P CP V : Type 0) : Type 0 where
  pub config : Replications.Config
  pub leader_lease : ℕ
  pub election_timeout : ℕ
  pub enable_leader_restore : Bool
  pub state : RaftState LID CLID Mem
  pub vote_lease : Lease
  pub seen_greater_log : Option (LogId CLID)
  pub leader : Option (Leader LID CLID P CP)
  pub candidate : Option (Candidate LID CLID Mem V)
  pub pre_candidate : Option (Candidate LID CLID Mem V)
  pub output : List (Command LID CLID Mem)

abbrev pub is_some : {A : Type 0} → Option A → Bool
is_some none = false
is_some (some x) = true

module _ {LID CLID Mem P CP V : Type 0} where
  abbrev pub push : Engine LID CLID Mem P CP V → Command LID CLID Mem → Engine LID CLID Mem P CP V
  push e command = record e { output = e.output ++ command ∷ [] }

  abbrev pub prepend :
      Engine LID CLID Mem P CP V → Command LID CLID Mem → Engine LID CLID Mem P CP V
  prepend e command = record e { output = command ∷ e.output }

  -- what a handler of the leader leaves in the engine
  abbrev pub after_replication :
      Engine LID CLID Mem P CP V → Replication LID CLID Mem P CP → Engine LID CLID Mem P CP V
  after_replication e h = record e {
    leader = some h.leader;
    state = h.state;
    output = e.output ++ map replication h.output;
  }

  -- the handler that borrows the engine's leader and state
  abbrev pub replication_of :
      Engine LID CLID Mem P CP V → Leader LID CLID P CP → Replication LID CLID Mem P CP
  replication_of e leader = record {
    config = e.config;
    leader = leader;
    state = e.state;
    output = [];
  }

  unfoldable pub respond : Engine LID CLID Mem P CP V → Bool → VoteResponse LID CLID
  unfolding last_log_id
  respond e granted = record {
    vote = e.state.vote;
    last_log_id = last_log_id e.state;
    vote_granted = granted;
  }

module _ {LID CLID Mem P CP V : Type 0} ⦃l : RaftLeaderId LID⦄ ⦃m : RaftMembership Mem⦄ where
  unfoldable pub update_server_state : Engine LID CLID Mem P CP V → Engine LID CLID Mem P CP V
  unfolding update_server_state_if_changed
  update_server_state e = record e { state = update_server_state_if_changed e.state e.config.id }

  unfoldable pub become_following : Engine LID CLID Mem P CP V → Engine LID CLID Mem P CP V
  unfolding update_server_state
  become_following e =
      let had = is_some e.leader || (is_some e.candidate || is_some e.pre_candidate) in
      let cleared =
        prepend (record e { leader = none; candidate = none; pre_candidate = none })
          fail_pending_reads in
      update_server_state (if had then push cleared close_replication_streams else cleared)

module _ {LID CLID Mem P CP : Type 0} ⦃l : RaftLeaderId LID⦄ ⦃o : Ord CLID⦄ ⦃m : RaftMembership Mem⦄
    ⦃n : QuorumMembership Mem⦄ ⦃t : ProgressItem (ProgressEntry CLID) (Option (LogId CLID))⦄
    ⦃v : VecProgress P (ProgressEntry CLID) (Option (LogId CLID))⦄ ⦃c : ClockProgress CP⦄
    (env : Env LID CLID) where
  -- a blank log if the leader has proposed none yet, and replication in any case
  unfoldable pub propose_blank : Replication LID CLID Mem P CP → Replication LID CLID Mem P CP
  unfolding leader_append_entries initiate_replication
  propose_blank h =
      if log_id_lt h.leader.last_log_id (some h.leader.noop_log_id)
      then (leader_append_entries env.to_committed env.stream_ids h (none ∷ [])).0
      else initiate_replication h

  -- `RaftState::new_leader`
  unfoldable pub new_leader : RaftState LID CLID Mem → Leader LID CLID P CP
  unfolding Leaders.new by_last_leader
  new_leader s =
      Leaders.new env.to_committed env.stream_ids env.now (record { leader_id = s.vote.leader_id })
        s.membership_state.effective.membership (by_last_leader s.log_ids)

module _ {LID CLID Mem P CP V : Type 0} ⦃l : RaftLeaderId LID⦄ ⦃o : Ord CLID⦄
    ⦃m : RaftMembership Mem⦄ ⦃n : QuorumMembership Mem⦄
    ⦃t : ProgressItem (ProgressEntry CLID) (Option (LogId CLID))⦄
    ⦃v : VecProgress P (ProgressEntry CLID) (Option (LogId CLID))⦄ ⦃c : ClockProgress CP⦄
    (env : Env LID CLID) where
  -- a new leader for the present vote
  unfoldable pub start_leading :
      Engine LID CLID Mem P CP V → Leader LID CLID P CP → Engine LID CLID Mem P CP V
  unfolding accept_log_io update_server_state rebuild_streams propose_blank
  start_leading e leader =
      let io : IoId LID CLID =
        log_io (record { committed_vote = leader.committed_vote; log_id = leader.last_log_id }) in
      let accepted = accept_log_io e.state io in
      let pushed =
        push (record e { leader = some leader; state = accepted.0 })
          (update_io_progress accepted.1 io) in
      let ready = update_server_state pushed in
      after_replication ready
        (propose_blank env (rebuild_streams (replication_of ready leader) true))

  -- the present leader goes on if the vote is of its leader id
  unfoldable pub become_leader :
      Engine LID CLID Mem P CP V → Option (Leader LID CLID P CP) → Engine LID CLID Mem P CP V
  unfolding start_leading new_leader update_server_state
  become_leader e none = start_leading e (new_leader env e.state)
  become_leader e (some leader) =
      elim (l.partial_cmp leader.committed_vote.leader_id e.state.vote.leader_id) [
        | some Ordering.eq ↦ update_server_state (record e {
          leader =
              some
                (record leader { committed_vote = record { leader_id = e.state.vote.leader_id } });
        })
        | _ ↦ start_leading e (new_leader env e.state)
      ]

  unfoldable pub update_internal_server_state :
      Engine LID CLID Mem P CP V → Engine LID CLID Mem P CP V
  unfolding is_leader is_leading become_leader become_following
  update_internal_server_state e =
      if is_leader e.state e.config.id
      then become_leader e e.leader
      else if is_leading e.state e.config.id
      then e
      else become_following e

  -- the vote is taken, which is at least the node's own; a committed one has the leader's lease
  unfoldable pub take_vote : Engine LID CLID Mem P CP V → Vote LID → Engine LID CLID Mem P CP V
  unfolding partial_cmp grant updated touch
  take_vote e vote =
      let lease = if vote.committed then e.leader_lease else 0 in
      if is_gt (partial_cmp vote e.state.vote)
      then push (record e { state = grant e.state vote; vote_lease = updated env.now lease })
          (save_vote vote)
      else record e { vote_lease = touch e.vote_lease env.now lease }

  -- the engine, and whether the vote is accepted; the error carries the engine's own vote
  unfoldable pub update_vote :
      Engine LID CLID Mem P CP V → Vote LID → Engine LID CLID Mem P CP V × Bool
  unfolding ge take_vote update_internal_server_state
  update_vote e vote =
      if ge vote e.state.vote
      then (update_internal_server_state (take_vote e vote), true)
      else (e, false)
