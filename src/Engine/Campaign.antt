-- ===== src/Engine/Campaign.antt =====
-- openraft/src/engine/engine_impl.rs: the vote that a node takes when it starts an election.
use openraft.Prelude.{
  ℕ, suc, ◌≡◌, ◌∙◌, ap, sym, refl, true, false, Option, none, some, inl, inr, arith, lt, eq, gt,
  Ordering,
}
use openraft.Prelude.Ord.{Ord}
use openraft.LogId.{LogId}
use openraft.Vote.{Vote, partial_cmp, ge, new, cmp_committed}
use openraft.Vote.LeaderId.{RaftLeaderId}
use openraft.Membership.{RaftMembership}
use openraft.RaftState.{last_log_id}
use openraft.Progress.Entry.{ProgressEntry}
use openraft.VecProgress.{VecProgress, ProgressItem, ClockProgress}
use openraft.Leader.{Leader, QuorumMembership, is_transfer_expired}
use openraft.Candidate.{Tally, Env}
use openraft.Engine.{
  Engine, update_vote, push, prepend, send_vote, fail_pending_reads, close_replication_streams,
}
use openraft.Engine.Elections.{next_vote, candidate_for, campaign, elect_unless_leading, do_elect}
use openraft.Engine.Votes.{update_vote_lem, vote-update_server_state}

false-true : false ≡ true → ⊥
false-true h = cc

module _ {LID : Type 0} ⦃l : RaftLeaderId LID⦄ where
  -- a leader id of the next term is greater, so a vote of it is
  ge-next_term :
      (a : LID) (b : Vote LID) → l.term a ≡ suc (l.term b.leader_id) → ge (new a) b ≡ true
  unfolding ge partial_cmp new cmp_committed
  ge-next_term a b h = by_order (l.partial_cmp a b.leader_id) refl
    where
      by_order :
          (order : Option Ordering) → l.partial_cmp a b.leader_id ≡ order → ge (new a) b ≡ true
      by_order none q = absurd (omega (arith, l.incomparable_term a b.leader_id q))
      by_order (some lt) q = absurd (omega (arith, l.lt_term a b.leader_id q))
      by_order (some eq) q = absurd (omega (arith, ap l.term (l.eq_of_cmp a b.leader_id q)))
      by_order (some gt) q = unfold ge partial_cmp new cmp_committed in rw q refl

module _ {LID CLID Mem P CP V : Type 0} ⦃l : RaftLeaderId LID⦄ ⦃o : Ord CLID⦄
    ⦃m : RaftMembership Mem⦄ ⦃n : QuorumMembership Mem⦄
    ⦃t : ProgressItem (ProgressEntry CLID) (Option (LogId CLID))⦄
    ⦃v : VecProgress P (ProgressEntry CLID) (Option (LogId CLID))⦄ ⦃c : ClockProgress CP⦄
    ⦃y : Tally V⦄ (env : Env LID CLID) where
  vote-campaign :
      (from : Option (Vote LID)) (e : Engine LID CLID Mem P CP V)
      → ((term node_id : ℕ) → l.term (env.make term node_id) ≡ term)
      → (campaign env from e).state.vote ≡ next_vote env e
  unfolding campaign
  vote-campaign from e made =
      vote-update_server_state (
        push (update_vote env asked (next_vote env e)).0 (
          send_vote (record {
            vote = next_vote env e;
            last_log_id = last_log_id e.state;
            leadership_transfer_from = from;
          })))
      ∙ elim (update_vote_lem env asked (next_vote env e)) [
        | inl (h, accepted, taken) ↦ taken
        | inr (h, same) ↦ absurd (false-true (sym h ∙ greater))
      ]
    where
      greater : ge (next_vote env e) e.state.vote ≡ true
      greater =
          unfold next_vote in
          ge-next_term (env.make (suc (l.term e.state.vote.leader_id)) e.config.id) e.state.vote
            (made (suc (l.term e.state.vote.leader_id)) e.config.id)

      asked : Engine LID CLID Mem P CP V
      asked = record e { candidate = some (candidate_for env e (next_vote env e)) }

  -- A node with no leader of its own, or with one whose transfer of leadership is overdue, takes the
  -- vote of the next term when it starts an election: the vote is not rejected.
  pub do_elect-next_vote :
      (from : Option (Vote LID)) (e : Engine LID CLID Mem P CP V)
      → ((term node_id : ℕ) → l.term (env.make term node_id) ≡ term)
      → ((leader : Leader LID CLID P CP)
          → e.leader ≡ some leader
          → is_transfer_expired leader env.now ≡ true)
      → (do_elect env from e).state.vote ≡ next_vote env e
  unfolding do_elect
  do_elect-next_vote from e made overdue = by_leader e.leader refl
    where
      by_leader :
          (leader : Option (Leader LID CLID P CP))
          → e.leader ≡ leader
          → (elect_unless_leading env from (record e { pre_candidate = none }) leader).state.vote
            ≡ next_vote env e
      by_leader none q =
          unfold elect_unless_leading next_vote in
          vote-campaign from (record e { pre_candidate = none }) made
      by_leader (some leader) q =
          unfold elect_unless_leading next_vote in
          rw (overdue leader q) (
            vote-campaign from
              (push (prepend (record e { pre_candidate = none; leader = none }) fail_pending_reads)
                close_replication_streams)
              made)
