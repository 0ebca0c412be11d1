-- ===== src/Engine/Elections.antt =====
-- openraft/src/engine/engine_impl.rs and engine/handler/establish_handler: how a node elects itself,
-- answers the requests of candidates, and counts their answers.
use openraft.Prelude.{
  ℕ, suc, Bool, true, false, Option, none, some, [], ◌∷◌, if◌then◌else◌, not, ◌&&◌,
}
use openraft.Prelude.Ord.{Ord}
use openraft.LogId.{LogId}
use openraft.Vote.{Vote, partial_cmp, ge, is_gt, new}
use openraft.Vote.LeaderId.{RaftLeaderId}
use openraft.IoState.Ids.{log_io}
use openraft.Membership.{RaftMembership}
use openraft.MembershipState.{log_id_le, log_id_lt}
use openraft.RaftState.{last_log_id, accept_log_io}
use openraft.Progress.Entry.{ProgressEntry}
use openraft.VecProgress.{VecProgress, ProgressItem, ClockProgress}
use openraft.Lease.{is_expired}
use openraft.Leader.{Leader, QuorumMembership, is_transfer_expired, is_lease_valid}
use openraft.Candidate.{Candidate, Tally, Env, grant_by, new_candidate, into_leader}
use openraft.Replication.Streams.{rebuild_streams, leader_append_entries}
use openraft.Engine.{
  Engine, VoteRequest, VoteResponse, respond, push, prepend, send_vote, send_pre_vote,
  fail_pending_reads, close_replication_streams, update_vote, update_server_state,
  after_replication, replication_of,
}

-- two votes are equal, by their partial order
abbrev pub same_vote : {LID : Type 0} ⦃l : RaftLeaderId LID⦄ → Vote LID → Vote LID → Bool
same_vote a b = ge a b && ge b a

abbrev pub same_vote_option :
    {LID : Type 0} ⦃l : RaftLeaderId LID⦄ → Option (Vote LID) → Vote LID → Bool
same_vote_option none b = false
same_vote_option (some a) b = same_vote a b

module _ {LID CLID Mem P CP V : Type 0} ⦃l : RaftLeaderId LID⦄ ⦃o : Ord CLID⦄
    ⦃m : RaftMembership Mem⦄ ⦃n : QuorumMembership Mem⦄
    ⦃t : ProgressItem (ProgressEntry CLID) (Option (LogId CLID))⦄
    ⦃v : VecProgress P (ProgressEntry CLID) (Option (LogId CLID))⦄ ⦃c : ClockProgress CP⦄
    ⦃y : Tally V⦄ (env : Env LID CLID) where
  -- the vote of the next term, for this node
  unfoldable pub next_vote : Engine LID CLID Mem P CP V → Vote LID
  unfolding new
  next_vote e = new (env.make (suc (l.term e.state.vote.leader_id)) e.config.id)

  unfoldable pub candidate_for : Engine LID CLID Mem P CP V → Vote LID → Candidate LID CLID Mem V
  unfolding new_candidate last_log_id
  candidate_for e vote =
      new_candidate env vote (last_log_id e.state) e.state.membership_state.effective.membership

  -- The election, once there is no leader: the vote of the candidate is taken, and asked for. The
  -- code unwraps the answer of `update_vote`; here an answer that rejects leaves the vote as it is.
  unfoldable pub campaign :
      Option (Vote LID) → Engine LID CLID Mem P CP V → Engine LID CLID Mem P CP V
  unfolding next_vote candidate_for update_vote update_server_state last_log_id
  campaign from e =
      let vote = next_vote e in
      let voted = (update_vote env (record e { candidate = some (candidate_for e vote) }) vote).0 in
      update_server_state (
        push voted (
          send_vote (record {
            vote = vote;
            last_log_id = last_log_id e.state;
            leadership_transfer_from = from;
          })))

  unfoldable pub elect_unless_leading :
      Option (Vote LID)
      → Engine LID CLID Mem P CP V
      → Option (Leader LID CLID P CP)
      → Engine LID CLID Mem P CP V
  unfolding is_transfer_expired campaign
  elect_unless_leading from e none = campaign from e
  elect_unless_leading from e (some leader) =
      if not (is_transfer_expired leader env.now)
      then e
      else campaign from
          (push (prepend (record e { leader = none }) fail_pending_reads) close_replication_streams)

  unfoldable pub do_elect :
      Option (Vote LID) → Engine LID CLID Mem P CP V → Engine LID CLID Mem P CP V
  unfolding elect_unless_leading
  do_elect from e = elect_unless_leading from (record e { pre_candidate = none }) e.leader

  unfoldable pub elect : Engine LID CLID Mem P CP V → Engine LID CLID Mem P CP V
  unfolding do_elect
  elect e = do_elect none e

  -- the lease of the leader that this node follows
  unfoldable pub follows_live_leader : Engine LID CLID Mem P CP V → Bool
  unfolding is_expired
  follows_live_leader e = e.state.vote.committed && not (is_expired e.vote_lease env.now 0)

  -- the lease that this node's own leader has from its quorum
  unfoldable pub leads_with_lease : Engine LID CLID Mem P CP V → Bool
  unfolding is_lease_valid
  leads_with_lease e = elim e.leader [
    | none ↦ false
    | some leader ↦ is_lease_valid leader env.now e.leader_lease
  ]

  unfoldable pub pre_elect : Engine LID CLID Mem P CP V → Engine LID CLID Mem P CP V
  unfolding follows_live_leader next_vote candidate_for grant_by elect last_log_id
  pre_elect e =
      let vote = next_vote e in
      let (granted_candidate, granted) = grant_by (candidate_for e vote) e.config.id in
      let started = record e { pre_candidate = some granted_candidate } in
      if follows_live_leader e
      then e
      else if granted
      then elect started
      else push started (
          send_pre_vote (record {
            vote = vote;
            last_log_id = last_log_id e.state;
            leadership_transfer_from = none;
          }))

  unfoldable pub handle_vote_req :
      Engine LID CLID Mem P CP V
      → VoteRequest LID CLID
      → Engine LID CLID Mem P CP V × VoteResponse LID CLID
  unfolding ge follows_live_leader leads_with_lease respond last_log_id update_vote
  handle_vote_req e req =
      let authorized = same_vote_option req.leadership_transfer_from e.state.vote in
      let (voted, granted) = update_vote env e req.vote in
      if not authorized && follows_live_leader e
      then (e, respond e false)
      else if not authorized && leads_with_lease e
      then (e, respond e false)
      else if log_id_le (last_log_id e.state) req.last_log_id
      then (voted, respond voted granted)
      else (e, respond e false)

  unfoldable pub handle_pre_vote_req :
      Engine LID CLID Mem P CP V → VoteRequest LID CLID → VoteResponse LID CLID
  unfolding ge follows_live_leader leads_with_lease respond last_log_id
  handle_pre_vote_req e req =
      if follows_live_leader e
      then respond e false
      else if leads_with_lease e
      then respond e false
      else if log_id_lt req.last_log_id (last_log_id e.state)
      then respond e false
      else respond e (ge req.vote e.state.vote)

  -- the candidate's leader, unless there is one of a vote that is not less
  unfoldable pub establish :
      Option (Leader LID CLID P CP) → Candidate LID CLID Mem V → Option (Leader LID CLID P CP)
  unfolding partial_cmp into_leader
  establish none candidate = some (into_leader env candidate)
  establish (some leader) candidate =
      if is_gt (
        partial_cmp candidate.vote
          (record { leader_id = leader.committed_vote.leader_id; committed = true }))
      then some (into_leader env candidate)
      else none

  -- Once the leader is established, its vote is taken, and it proposes a blank log. The code unwraps
  -- `try_leader_handler`; here nothing is proposed if there is no leader.
  unfoldable pub lead :
      Engine LID CLID Mem P CP V → Leader LID CLID P CP → Engine LID CLID Mem P CP V
  unfolding rebuild_streams update_vote accept_log_io leader_append_entries
  lead e leader =
      let cleared = record e { leader = some leader; pre_candidate = none } in
      let rebuilt =
        after_replication cleared (rebuild_streams (replication_of cleared leader) true) in
      let voted =
        (update_vote env rebuilt
          (record { leader_id = leader.committed_vote.leader_id; committed = true })).0 in
      let accepted = record voted {
        state =
            (accept_log_io voted.state (
              log_io (record {
                committed_vote = leader.committed_vote;
                log_id = leader.last_log_id;
              }))).0;
      } in
      elim accepted.leader [
        | none ↦ accepted
        | some present ↦
            after_replication accepted
              (leader_append_entries env.to_committed env.stream_ids
                (replication_of accepted present) (none ∷ [])).0
      ]

  unfoldable pub establish_leader :
      Engine LID CLID Mem P CP V → Candidate LID CLID Mem V → Engine LID CLID Mem P CP V
  unfolding establish lead
  establish_leader e candidate =
      let taken = record e { candidate = none } in
      elim (establish e.leader candidate) [ none ↦ taken | some leader ↦ lead taken leader ]

  unfoldable pub set_greater_log :
      Engine LID CLID Mem P CP V → Option (LogId CLID) → Engine LID CLID Mem P CP V
  set_greater_log e log_id =
      if log_id_lt e.seen_greater_log log_id then record e { seen_greater_log = log_id } else e

  unfoldable pub see_log :
      Engine LID CLID Mem P CP V → Option (LogId CLID) → Engine LID CLID Mem P CP V
  unfolding last_log_id set_greater_log
  see_log e log_id = if log_id_lt (last_log_id e.state) log_id then set_greater_log e log_id else e

  -- a rejected vote is only taken as one that is not committed
  unfoldable pub take_response :
      Engine LID CLID Mem P CP V
      → Candidate LID CLID Mem V
      → ℕ
      → VoteResponse LID CLID
      → Engine LID CLID Mem P CP V
  unfolding grant_by establish_leader see_log update_vote new ge
  take_response e candidate target resp =
      let (counted, granted) = grant_by candidate target in
      let updated = record e { candidate = some counted } in
      if resp.vote_granted && same_vote resp.vote candidate.vote
      then (if granted then establish_leader updated counted else updated)
      else (update_vote env (see_log e resp.last_log_id) (new resp.vote.leader_id)).0

  -- without a candidate, a delayed response is ignored
  unfoldable pub handle_vote_resp :
      Engine LID CLID Mem P CP V → ℕ → VoteResponse LID CLID → Engine LID CLID Mem P CP V
  unfolding take_response
  handle_vote_resp e target resp = elim e.candidate [
    | none ↦ e
    | some candidate ↦ take_response e candidate target resp
  ]

  unfoldable pub take_pre_response :
      Engine LID CLID Mem P CP V
      → Candidate LID CLID Mem V
      → ℕ
      → VoteResponse LID CLID
      → Engine LID CLID Mem P CP V
  unfolding grant_by elect see_log partial_cmp update_vote new
  take_pre_response e candidate target resp =
      let (counted, granted) = grant_by candidate target in
      let updated = record e { pre_candidate = some counted } in
      let seen = see_log e resp.last_log_id in
      if resp.vote_granted
      then (if granted then elect updated else updated)
      else if is_gt (partial_cmp resp.vote seen.state.vote)
      then (update_vote env seen (new resp.vote.leader_id)).0
      else seen

  unfoldable pub handle_pre_vote_resp :
      Engine LID CLID Mem P CP V → ℕ → VoteResponse LID CLID → Engine LID CLID Mem P CP V
  unfolding take_pre_response
  handle_pre_vote_resp e target resp = elim e.pre_candidate [
    | none ↦ e
    | some candidate ↦ take_pre_response e candidate target resp
  ]
