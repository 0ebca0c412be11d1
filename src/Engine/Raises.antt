-- ===== src/Engine/Raises.antt =====
-- openraft/src/engine/engine_impl.rs: the vote of a node before and after a request to append and
-- the moves of an election.
use openraft.Prelude.{
  List, ℕ, ◌≡◌, ap, subst, refl, true, Option, none, some, [], ◌∷◌, inl, inr, Bool-cases,
  Option-cases, ◌&&◌,
}
use openraft.Prelude.Ord.{Ord}
use openraft.LogId.{LogId}
use openraft.Vote.{Vote, ge, new, partial_cmp, is_gt}
use openraft.Vote.LeaderId.{RaftLeaderId}
use openraft.VoteHandler.{ge_self}
use openraft.IoState.Ids.{log_io, IoId}
use openraft.Membership.{RaftMembership}
use openraft.MembershipState.{log_id_lt}
use openraft.RaftState.{last_log_id, accept_log_io}
use openraft.Progress.Entry.{ProgressEntry}
use openraft.VecProgress.{VecProgress, ProgressItem, ClockProgress}
use openraft.Leader.{Leader, QuorumMembership, is_transfer_expired}
use openraft.Candidate.{Candidate, Tally, Env, grant_by}
use openraft.Replication.Streams.{rebuild_streams, leader_append_entries}
use openraft.Engine.{
  Engine, VoteRequest, VoteResponse, update_vote, push, prepend, fail_pending_reads,
  close_replication_streams, send_vote, after_replication, replication_of,
}
use openraft.Engine.Votes.{
  update_vote_lem, vote-update_server_state, vote-leader_append_entries, vote-accept_log_io,
}
use openraft.MembershipState.Recent.{Entry}
use openraft.Engine.Requests.{append_request}
use openraft.Engine.Kept.{vote-append_voted}
use openraft.Engine.Answers.{handle_vote_req_lem}
use openraft.Engine.Elections.{
  handle_vote_req, handle_vote_resp, handle_pre_vote_resp, do_elect, elect, pre_elect,
  follows_live_leader, elect_unless_leading, campaign, take_response, take_pre_response,
  establish_leader, establish, lead, see_log, set_greater_log, same_vote, next_vote, candidate_for,
}

module _ {LID CLID Mem P CP V : Type 0} ⦃l : RaftLeaderId LID⦄ ⦃o : Ord CLID⦄
    ⦃m : RaftMembership Mem⦄ ⦃n : QuorumMembership Mem⦄
    ⦃t : ProgressItem (ProgressEntry CLID) (Option (LogId CLID))⦄
    ⦃v : VecProgress P (ProgressEntry CLID) (Option (LogId CLID))⦄ ⦃c : ClockProgress CP⦄
    ⦃y : Tally V⦄ (env : Env LID CLID) where
  pub update_vote-ge :
      (e : Engine LID CLID Mem P CP V) (vote : Vote LID)
      → ge (update_vote env e vote).0.state.vote e.state.vote ≡ true
  update_vote-ge e vote = elim (update_vote_lem env e vote) [
    | inl (h, accepted, taken) ↦ rw taken h
    | inr (h, same) ↦ rw (ap (λ a. a.0.state.vote) same) (ge_self e.state.vote)
  ]

  pub append_request-ge :
      (e : Engine LID CLID Mem P CP V) (vote : Vote LID) (prev : Option (LogId CLID))
      (entries : List (Entry CLID Mem))
      → ge (append_request env e vote prev entries).0.state.vote e.state.vote ≡ true
  unfolding append_request
  append_request-ge e vote prev entries = elim (Bool-cases (update_vote env e vote).1) [
    | inl q ↦
        rw (append_request, q, vote-append_voted (update_vote env e vote).0 prev entries)
          (update_vote-ge e vote)
    | inr q ↦ rw (append_request, q) (update_vote-ge e vote)
  ]

  campaign-ge :
      (from : Option (Vote LID)) (e : Engine LID CLID Mem P CP V)
      → ge (campaign env from e).state.vote e.state.vote ≡ true
  unfolding campaign
  campaign-ge from e =
      rw
        (vote-update_server_state (
          push (update_vote env asked (next_vote env e)).0 (
            send_vote (record {
              vote = next_vote env e;
              last_log_id = last_log_id e.state;
              leadership_transfer_from = from;
            }))))
        (update_vote-ge asked (next_vote env e))
    where
      asked : Engine LID CLID Mem P CP V
      asked = record e { candidate = some (candidate_for env e (next_vote env e)) }

  pub do_elect-ge :
      (from : Option (Vote LID)) (e : Engine LID CLID Mem P CP V)
      → ge (do_elect env from e).state.vote e.state.vote ≡ true
  unfolding do_elect
  do_elect-ge from e = by_leader e.leader
    where
      by_leader :
          (leader : Option (Leader LID CLID P CP))
          → ge
              (elect_unless_leading env from (record e { pre_candidate = none }) leader).state.vote
              e.state.vote
            ≡ true
      by_leader none =
          unfold elect_unless_leading in campaign-ge from (record e { pre_candidate = none })
      by_leader (some leader) =
          unfold elect_unless_leading in
          elim (Bool-cases (is_transfer_expired leader env.now)) [
            | inl q ↦ rw q (
                campaign-ge from (
                  push
                    (prepend (record e { pre_candidate = none; leader = none }) fail_pending_reads)
                    close_replication_streams))
            | inr q ↦ rw q (ge_self e.state.vote)
          ]

  pub pre_elect-ge :
      (e : Engine LID CLID Mem P CP V) → ge (pre_elect env e).state.vote e.state.vote ≡ true
  unfolding pre_elect elect
  pre_elect-ge e = elim (Bool-cases (follows_live_leader env e)) [
    | inl q ↦ rw (pre_elect, q) (ge_self e.state.vote)
    | inr q ↦ elim (Bool-cases (grant_by asked e.config.id).1) [
      | inl r ↦
          rw (pre_elect, q, r)
            (do_elect-ge none (record e { pre_candidate = some (grant_by asked e.config.id).0 }))
      | inr r ↦ rw (pre_elect, q, r) (ge_self e.state.vote)
    ]
  ]
    where
      asked : Candidate LID CLID Mem V
      asked = candidate_for env e (next_vote env e)

  lead-ge :
      (e : Engine LID CLID Mem P CP V) (leader : Leader LID CLID P CP)
      → ge (lead env e leader).state.vote e.state.vote ≡ true
  unfolding lead
  lead-ge e leader = finish accepted.leader
    where
      cleared : Engine LID CLID Mem P CP V
      cleared = record e { leader = some leader; pre_candidate = none }

      rebuilt : Engine LID CLID Mem P CP V
      rebuilt = after_replication cleared (rebuild_streams (replication_of cleared leader) true)

      voted : Engine LID CLID Mem P CP V
      voted =
          (update_vote env rebuilt
            (record { leader_id = leader.committed_vote.leader_id; committed = true })).0

      io : IoId LID CLID
      io = log_io (record { committed_vote = leader.committed_vote; log_id = leader.last_log_id })

      accepted : Engine LID CLID Mem P CP V
      accepted = record voted { state = (accept_log_io voted.state io).0 }

      accepted-ge : ge accepted.state.vote e.state.vote ≡ true
      accepted-ge = rw (vote-accept_log_io voted.state io) (
          unfold rebuild_streams in
          update_vote-ge rebuilt
            (record { leader_id = leader.committed_vote.leader_id; committed = true }))

      proposed : Leader LID CLID P CP → Engine LID CLID Mem P CP V
      proposed present =
          after_replication accepted
            (leader_append_entries env.to_committed env.stream_ids (replication_of accepted present)
              (none ∷ [])).0

      finish :
          (present : Option (Leader LID CLID P CP))
          → ge
              (elim present as (λ p. Engine LID CLID Mem P CP V) [
                | none ↦ accepted
                | some present ↦ proposed present
              ]).state.vote
              e.state.vote
            ≡ true
      finish none = accepted-ge
      finish (some present) =
          rw
            (vote-leader_append_entries env.to_committed env.stream_ids
              (replication_of accepted present) (none ∷ []))
            accepted-ge

  establish_leader-ge :
      (e : Engine LID CLID Mem P CP V) (candidate : Candidate LID CLID Mem V)
      → ge (establish_leader env e candidate).state.vote e.state.vote ≡ true
  unfolding establish_leader
  establish_leader-ge e candidate = elim (Option-cases (establish env e.leader candidate)) [
    | inl q ↦ rw (establish_leader, q) (ge_self e.state.vote)
    | inr (leader, q) ↦ rw (establish_leader, q) (lead-ge (record e { candidate = none }) leader)
  ]

  vote-see_log :
      (e : Engine LID CLID Mem P CP V) (log_id : Option (LogId CLID))
      → (see_log env e log_id).state.vote ≡ e.state.vote
  unfolding see_log set_greater_log
  vote-see_log e log_id = elim (Bool-cases (log_id_lt (last_log_id e.state) log_id)) [
    | inl q ↦ elim (Bool-cases (log_id_lt e.seen_greater_log log_id)) [
      | inl r ↦ rw (q, r) refl
      | inr r ↦ rw (q, r) refl
    ]
    | inr q ↦ rw q refl
  ]

  seen-ge :
      (e : Engine LID CLID Mem P CP V) (log_id : Option (LogId CLID)) (vote : Vote LID)
      → ge (update_vote env (see_log env e log_id) vote).0.state.vote e.state.vote ≡ true
  seen-ge e log_id vote =
      subst (λ w. ge (update_vote env (see_log env e log_id) vote).0.state.vote w ≡ true)
        (vote-see_log e log_id) (update_vote-ge (see_log env e log_id) vote)

  take_response-ge :
      (e : Engine LID CLID Mem P CP V) (candidate : Candidate LID CLID Mem V) (target : ℕ)
      (resp : VoteResponse LID CLID)
      → ge (take_response env e candidate target resp).state.vote e.state.vote ≡ true
  unfolding take_response
  take_response-ge e candidate target resp =
      elim (Bool-cases (resp.vote_granted && same_vote resp.vote candidate.vote)) [
        | inl q ↦ elim (Bool-cases (grant_by candidate target).1) [
          | inl r ↦
              rw (q, r)
                (establish_leader-ge (record e { candidate = some (grant_by candidate target).0 })
                  (grant_by candidate target).0)
          | inr r ↦ rw (q, r) (ge_self e.state.vote)
        ]
        | inr q ↦ rw q (seen-ge e resp.last_log_id (new resp.vote.leader_id))
      ]

  take_pre_response-ge :
      (e : Engine LID CLID Mem P CP V) (candidate : Candidate LID CLID Mem V) (target : ℕ)
      (resp : VoteResponse LID CLID)
      → ge (take_pre_response env e candidate target resp).state.vote e.state.vote ≡ true
  unfolding take_pre_response elect
  take_pre_response-ge e candidate target resp = elim (Bool-cases resp.vote_granted) [
    | inl q ↦ elim (Bool-cases (grant_by candidate target).1) [
      | inl r ↦
          rw (q, r)
            (do_elect-ge none (record e { pre_candidate = some (grant_by candidate target).0 }))
      | inr r ↦ rw (q, r) (ge_self e.state.vote)
    ]
    | inr q ↦
        elim (Bool-cases
          (is_gt (partial_cmp resp.vote (see_log env e resp.last_log_id).state.vote))) [
            | inl r ↦ rw (q, r) (seen-ge e resp.last_log_id (new resp.vote.leader_id))
            | inr r ↦ rw (q, r) (rw (vote-see_log e resp.last_log_id) (ge_self e.state.vote))
          ]
  ]

  pub answer-ge :
      (e : Engine LID CLID Mem P CP V) (req : VoteRequest LID CLID)
      → ge (handle_vote_req env e req).0.state.vote e.state.vote ≡ true
  answer-ge e req = elim (handle_vote_req_lem env e req) [
    | inl (granted, may, log, h, taken, answered) ↦ rw taken h
    | inr (refused, same) ↦ rw (ap (λ e. e.state.vote) same) (ge_self e.state.vote)
  ]

  pub count-ge :
      (e : Engine LID CLID Mem P CP V) (target : ℕ) (resp : VoteResponse LID CLID)
      → ge (handle_vote_resp env e target resp).state.vote e.state.vote ≡ true
  unfolding handle_vote_resp
  count-ge e target resp = elim (Option-cases e.candidate) [
    | inl q ↦ rw (handle_vote_resp, q) (ge_self e.state.vote)
    | inr (candidate, q) ↦ rw (handle_vote_resp, q) (take_response-ge e candidate target resp)
  ]

  pub count_pre-ge :
      (e : Engine LID CLID Mem P CP V) (target : ℕ) (resp : VoteResponse LID CLID)
      → ge (handle_pre_vote_resp env e target resp).state.vote e.state.vote ≡ true
  unfolding handle_pre_vote_resp
  count_pre-ge e target resp = elim (Option-cases e.pre_candidate) [
    | inl q ↦ rw (handle_pre_vote_resp, q) (ge_self e.state.vote)
    | inr (candidate, q) ↦
        rw (handle_pre_vote_resp, q) (take_pre_response-ge e candidate target resp)
  ]
