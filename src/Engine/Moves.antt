-- ===== src/Engine/Moves.antt =====
-- openraft/src/engine/engine_impl.rs: the votes that a node has had, through its moves in an election.
use openraft.Prelude.{ℕ, ◌≡◌, true, Option, List, [], ◌∷◌}
use openraft.Prelude.Ord.{Ord}
use openraft.LogId.{LogId}
use openraft.Vote.{Vote, ge}
use openraft.Vote.LeaderId.{RaftLeaderId}
use openraft.Vote.Order.{ge_trans}
use openraft.VoteHandler.{ge_self}
use openraft.Membership.{RaftMembership}
use openraft.Progress.Entry.{ProgressEntry}
use openraft.VecProgress.{VecProgress, ProgressItem, ClockProgress}
use openraft.Leader.{QuorumMembership}
use openraft.Candidate.{Tally, Env}
use openraft.Engine.{Engine, VoteRequest, VoteResponse, update_vote}
use openraft.Engine.Raises.{
  update_vote-ge, answer-ge, do_elect-ge, append_request-ge, pre_elect-ge, count-ge, count_pre-ge,
}
use openraft.MembershipState.Recent.{Entry}
use openraft.Engine.Requests.{append_request}
use openraft.Engine.Elections.{
  pre_elect, handle_vote_req, handle_vote_resp, handle_pre_vote_resp, do_elect,
}

module _ {LID CLID Mem P CP V : Type 0} ⦃l : RaftLeaderId LID⦄ ⦃o : Ord CLID⦄
    ⦃m : RaftMembership Mem⦄ ⦃n : QuorumMembership Mem⦄
    ⦃t : ProgressItem (ProgressEntry CLID) (Option (LogId CLID))⦄
    ⦃v : VecProgress P (ProgressEntry CLID) (Option (LogId CLID))⦄ ⦃c : ClockProgress CP⦄
    ⦃y : Tally V⦄ where
  -- a node takes the vote of a message, answers a candidate, takes a leader's request to append, starts a
  -- pre-vote or an election, or counts an answer to either
  pub data Move : Engine LID CLID Mem P CP V → Engine LID CLID Mem P CP V → Type 0 where
    takes :
        (env : Env LID CLID) (e : Engine LID CLID Mem P CP V) (vote : Vote LID)
        → Move e (update_vote env e vote).0
    answers :
        (env : Env LID CLID) (e : Engine LID CLID Mem P CP V) (req : VoteRequest LID CLID)
        → Move e (handle_vote_req env e req).0
    appends :
        (env : Env LID CLID) (e : Engine LID CLID Mem P CP V) (vote : Vote LID)
        (prev : Option (LogId CLID)) (entries : List (Entry CLID Mem))
        → Move e (append_request env e vote prev entries).0
    pre_elects : (env : Env LID CLID) (e : Engine LID CLID Mem P CP V) → Move e (pre_elect env e)
    elects :
        (env : Env LID CLID) (from : Option (Vote LID)) (e : Engine LID CLID Mem P CP V)
        → Move e (do_elect env from e)
    counts :
        (env : Env LID CLID) (e : Engine LID CLID Mem P CP V) (target : ℕ)
        (resp : VoteResponse LID CLID)
        → Move e (handle_vote_resp env e target resp)
    counts_pre :
        (env : Env LID CLID) (e : Engine LID CLID Mem P CP V) (target : ℕ)
        (resp : VoteResponse LID CLID)
        → Move e (handle_pre_vote_resp env e target resp)

  -- the votes that a node has had since `start`, the last one first
  pub data Run (start : Engine LID CLID Mem P CP V)
      : Engine LID CLID Mem P CP V → List (Vote LID) → Type 0 where
    here : Run start start (start.state.vote ∷ [])
    next :
        {e e' : Engine LID CLID Mem P CP V} {votes : List (Vote LID)}
        → Run start e votes
        → Move e e'
        → Run start e' (e'.state.vote ∷ votes)

-- each vote is at least the one before it
abbrev pub IsChain : {LID : Type 0} ⦃l : RaftLeaderId LID⦄ → Vote LID → List (Vote LID) → Type 0
IsChain top [] = Unit
IsChain top (vote ∷ votes) = (ge top vote ≡ true) × IsChain vote votes

IsChain-raise :
    {LID : Type 0} ⦃l : RaftLeaderId LID⦄ (a b : Vote LID) (votes : List (Vote LID))
    → ge a b ≡ true
    → IsChain b votes
    → IsChain a votes
IsChain-raise a b [] h k = tt
IsChain-raise a b (vote ∷ votes) h k = (ge_trans a b vote h k.0, k.1)

module _ {LID CLID Mem P CP V : Type 0} ⦃l : RaftLeaderId LID⦄ ⦃o : Ord CLID⦄
    ⦃m : RaftMembership Mem⦄ ⦃n : QuorumMembership Mem⦄
    ⦃t : ProgressItem (ProgressEntry CLID) (Option (LogId CLID))⦄
    ⦃v : VecProgress P (ProgressEntry CLID) (Option (LogId CLID))⦄ ⦃c : ClockProgress CP⦄
    ⦃y : Tally V⦄ where
  Move-ge : {e e' : Engine LID CLID Mem P CP V} → Move e e' → ge e'.state.vote e.state.vote ≡ true
  Move-ge (takes env e vote) = update_vote-ge env e vote
  Move-ge (answers env e req) = answer-ge env e req
  Move-ge (appends env e vote prev entries) = append_request-ge env e vote prev entries
  Move-ge (pre_elects env e) = pre_elect-ge env e
  Move-ge (elects env from e) = do_elect-ge env from e
  Move-ge (counts env e target resp) = count-ge env e target resp
  Move-ge (counts_pre env e target resp) = count_pre-ge env e target resp

  -- However often a node takes the vote of a message, answers a candidate, takes a leader's request to
  -- append, starts a pre-vote or an election, and counts the answers to either, the votes that it has
  -- had never decrease.
  pub Run-IsChain :
      {start e : Engine LID CLID Mem P CP V} {votes : List (Vote LID)}
      → Run start e votes
      → IsChain e.state.vote votes
  Run-IsChain {start} here = (ge_self start.state.vote, tt)
  Run-IsChain (next {e} {e'} r move) = (
    ge_self e'.state.vote,
    IsChain-raise e'.state.vote e.state.vote _ (Move-ge move) (Run-IsChain r),
  )
