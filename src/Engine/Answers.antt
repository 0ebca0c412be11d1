-- ===== src/Engine/Answers.antt =====
-- openraft/src/engine/engine_impl.rs: what a node answers to the candidates that ask for its vote.
use openraft.Prelude.{
  ◌≡◌, ◌⊎◌, refl, ap, sym, ◌∙◌, Bool, true, false, Option, none, inl, inr, Bool-cases, ◌&&◌, not,
}
use openraft.Prelude.Ord.{Ord}
use openraft.LogId.{LogId}
use openraft.Vote.{Vote, ge}
use openraft.Vote.LeaderId.{RaftLeaderId}
use openraft.Membership.{RaftMembership}
use openraft.MembershipState.{log_id_le, log_id_lt}
use openraft.MembershipState.Valid.{log_id_lt-not}
use openraft.RaftState.{last_log_id}
use openraft.Progress.Entry.{ProgressEntry}
use openraft.VecProgress.{VecProgress, ProgressItem, ClockProgress}
use openraft.Leader.{QuorumMembership}
use openraft.Candidate.{Tally, Env}
use openraft.Engine.{Engine, VoteRequest, respond, update_vote}
use openraft.Engine.Votes.{update_vote_lem}
use openraft.Engine.Elections.{
  handle_vote_req, handle_pre_vote_req, follows_live_leader, leads_with_lease, same_vote_option,
}

module _ {LID CLID Mem P CP V : Type 0} ⦃l : RaftLeaderId LID⦄ ⦃o : Ord CLID⦄
    ⦃m : RaftMembership Mem⦄ ⦃n : QuorumMembership Mem⦄
    ⦃t : ProgressItem (ProgressEntry CLID) (Option (LogId CLID))⦄
    ⦃v : VecProgress P (ProgressEntry CLID) (Option (LogId CLID))⦄ ⦃c : ClockProgress CP⦄
    ⦃y : Tally V⦄ (env : Env LID CLID) where
  -- no leader's lease stands against an election, or the leader that this node follows allows it
  abbrev pub MayVote : Engine LID CLID Mem P CP V → VoteRequest LID CLID → Type 0
  MayVote e req =
      (same_vote_option req.leadership_transfer_from e.state.vote ≡ true)
      ⊎ ((follows_live_leader env e ≡ false) × (leads_with_lease env e ≡ false))

  -- A node grants a vote only if it is at least its own, the candidate's log is at least its own,
  -- and no lease of a leader stands against it; the vote is then the node's own, and the answer
  -- carries it. Without a grant the node is as it was.
  pub handle_vote_req_lem :
      (e : Engine LID CLID Mem P CP V) (req : VoteRequest LID CLID)
      → (((handle_vote_req env e req).1.vote_granted ≡ true)
          × MayVote e req
          × (log_id_le (last_log_id e.state) req.last_log_id ≡ true)
          × (ge req.vote e.state.vote ≡ true)
          × ((handle_vote_req env e req).0.state.vote ≡ req.vote)
          × ((handle_vote_req env e req).1.vote ≡ req.vote))
        ⊎ (((handle_vote_req env e req).1.vote_granted ≡ false)
            × ((handle_vote_req env e req).0 ≡ e))
  unfolding handle_vote_req respond
  handle_vote_req_lem e req = elim (Bool-cases (not authorized && follows)) [
    | inl q ↦ inr (rw q refl, rw q refl)
    | inr q ↦ elim (Bool-cases (not authorized && leads)) [
      | inl r ↦ inr (rw (q, r) refl, rw (q, r) refl)
      | inr r ↦ elim (Bool-cases (log_id_le (last_log_id e.state) req.last_log_id)) [
        | inl k ↦ elim (update_vote_lem env e req.vote) [
          | inl (h, accepted, taken) ↦ inl (
            rw (q, r, k) accepted,
            may_vote authorized follows leads q r,
            k,
            h,
            rw (q, r, k) taken,
            rw (q, r, k) taken,
          )
          | inr (h, same) ↦
              inr (rw (q, r, k) (ap (λ a. a.1) same), rw (q, r, k) (ap (λ a. a.0) same))
        ]
        | inr k ↦ inr (rw (q, r, k) refl, rw (q, r, k) refl)
      ]
    ]
  ]
    where
      authorized : Bool
      authorized = same_vote_option req.leadership_transfer_from e.state.vote

      follows : Bool
      follows = follows_live_leader env e

      leads : Bool
      leads = leads_with_lease env e

      may_vote :
          (a f d : Bool)
          → (not a && f) ≡ false
          → (not a && d) ≡ false
          → (a ≡ true) ⊎ ((f ≡ false) × (d ≡ false))
      may_vote true f d q r = inl refl
      may_vote false f d q r = inr (q, r)

  granted-update_vote :
      (e : Engine LID CLID Mem P CP V) (vote : Vote LID)
      → (update_vote env e vote).1 ≡ ge vote e.state.vote
  granted-update_vote e vote = elim (update_vote_lem env e vote) [
    | inl (h, accepted, taken) ↦ accepted ∙ sym h
    | inr (h, same) ↦ ap (λ a. a.1) same ∙ sym h
  ]

  -- Without a transfer of leadership, a pre-vote is granted exactly if the vote would be.
  pub handle_pre_vote_req-eq-handle_vote_req :
      (e : Engine LID CLID Mem P CP V) (req : VoteRequest LID CLID)
      → req.leadership_transfer_from ≡ none
      → (handle_pre_vote_req env e req).vote_granted ≡ (handle_vote_req env e req).1.vote_granted
  unfolding handle_pre_vote_req handle_vote_req respond
  handle_pre_vote_req-eq-handle_vote_req e req h = elim (Bool-cases (follows_live_leader env e)) [
    | inl q ↦ rw (handle_pre_vote_req, handle_vote_req, respond, h, q) refl
    | inr q ↦ elim (Bool-cases (leads_with_lease env e)) [
      | inl r ↦ rw (handle_pre_vote_req, handle_vote_req, respond, h, q, r) refl
      | inr r ↦ elim (Bool-cases (log_id_le (last_log_id e.state) req.last_log_id)) [
        | inl k ↦
            rw (handle_pre_vote_req, handle_vote_req, respond, h, q, r, less, k)
              (sym (granted-update_vote e req.vote))
        | inr k ↦ rw (handle_pre_vote_req, handle_vote_req, respond, h, q, r, less, k) refl
      ]
    ]
  ]
    where
      less :
          log_id_lt req.last_log_id (last_log_id e.state)
          ≡ not (log_id_le (last_log_id e.state) req.last_log_id)
      less = log_id_lt-not req.last_log_id (last_log_id e.state)
