-- ===== src/Engine/Startup.antt =====
-- openraft/src/engine/engine_impl.rs: what a node is after `startup`.
use openraft.Prelude.{
  ℕ, ◌≡◌, ◌⊎◌, ◌∙◌, refl, sym, Bool, true, false, Option, none, some, arith, inl, inr, Bool-cases,
  ◌&&◌,
}
use openraft.Prelude.Ord.{Ord}
use openraft.LogId.{LogId}
use openraft.Vote.{new}
use openraft.Vote.LeaderId.{RaftLeaderId}
use openraft.Membership.{RaftMembership}
use openraft.RaftState.Server.{is_leader, is_leading, calc_following_state}
use openraft.Progress.Entry.{ProgressEntry}
use openraft.VecProgress.{VecProgress, ProgressItem, ClockProgress}
use openraft.Leader.{Leader, QuorumMembership}
use openraft.Candidate.{Tally, Env}
use openraft.Engine.{Engine}
use openraft.Engine.Elections.{elect, next_vote}
use openraft.Engine.Campaign.{do_elect-next_vote}
use openraft.Engine.Upkeep.{startup, start_following, demoted, may_campaign}

module _ {LID CLID Mem P CP V : Type 0} ⦃l : RaftLeaderId LID⦄ ⦃o : Ord CLID⦄
    ⦃m : RaftMembership Mem⦄ ⦃n : QuorumMembership Mem⦄
    ⦃t : ProgressItem (ProgressEntry CLID) (Option (LogId CLID))⦄
    ⦃v : VecProgress P (ProgressEntry CLID) (Option (LogId CLID))⦄ ⦃c : ClockProgress CP⦄
    ⦃y : Tally V⦄ (env : Env LID CLID) where
  -- the node was a leader, and is to restore its leadership
  abbrev pub restores : Engine LID CLID Mem P CP V → Bool
  restores e = (is_leader e.state e.config.id && e.enable_leader_restore) && may_campaign env e

  -- a node that only follows, with nothing to write
  pub record IsFollowing (e e_new : Engine LID CLID Mem P CP V) : Type 0 where
    pub output : e_new.output ≡ e.output
    pub not_leader : is_leader e_new.state e_new.config.id ≡ false
    pub same_leader_id : e_new.state.vote.leader_id ≡ e.state.vote.leader_id
    pub server_state : e_new.state.server_state ≡ calc_following_state e.state e.config.id
    pub same_leader : e_new.leader ≡ e.leader

  start_following-IsFollowing :
      (e : Engine LID CLID Mem P CP V) → IsFollowing e (start_following env e)
  unfolding start_following demoted is_leader is_leading calc_following_state new
  start_following-IsFollowing e = elim (Bool-cases (is_leader e.state e.config.id)) [
    | inl q ↦ record {
      output = rw q refl;
      not_leader = rw q (ground arith);
      same_leader_id = rw q refl;
      server_state = rw q refl;
      same_leader = rw q refl;
    }
    | inr q ↦ record {
      output = rw q refl;
      not_leader = rw q q;
      same_leader_id = rw q refl;
      server_state = rw q refl;
      same_leader = rw q refl;
    }
  ]

  next_vote-start_following :
      (e : Engine LID CLID Mem P CP V) → next_vote env (start_following env e) ≡ next_vote env e
  unfolding start_following demoted next_vote new
  next_vote-start_following e = elim (Bool-cases (is_leader e.state e.config.id)) [
    | inl q ↦ rw q refl
    | inr q ↦ rw q refl
  ]

  may_campaign-start_following :
      (e : Engine LID CLID Mem P CP V)
      → may_campaign env (start_following env e) ≡ may_campaign env e
  unfolding start_following demoted may_campaign
  may_campaign-start_following e = elim (Bool-cases (is_leader e.state e.config.id)) [
    | inl q ↦ rw q refl
    | inr q ↦ rw q refl
  ]

  -- A node starts with no leader of its own. If it was a leader, may campaign and is to restore its
  -- leadership, it takes the vote of the next term. Otherwise it does not lead, its server state is
  -- that of a follower or learner, it keeps the leader id of its vote, and it pushes no command.
  pub startup_lem :
      (e : Engine LID CLID Mem P CP V)
      → ((term node_id : ℕ) → l.term (env.make term node_id) ≡ term)
      → e.leader ≡ none
      → ((restores e ≡ false) × IsFollowing e (startup env e))
        ⊎ ((restores e ≡ true) × ((startup env e).state.vote ≡ next_vote env e))
  unfolding startup
  startup_lem e made h = elim (Bool-cases (restores e)) [
    | inl q ↦ inr (q, rw (may_campaign-start_following e, q) (voted ∙ next_vote-start_following e))
    | inr q ↦ inl (q, rw (may_campaign-start_following e, q) (start_following-IsFollowing e))
  ]
    where
      voted : (elect env (start_following env e)).state.vote ≡ next_vote env (start_following env e)
      voted =
          unfold elect in
          do_elect-next_vote env none (start_following env e) made
            (λ leader r. absurd (no_leader (sym h ∙ sym same ∙ r)))
        where
          same : (start_following env e).leader ≡ e.leader
          same = (start_following-IsFollowing e).same_leader

          no_leader : {leader : Leader LID CLID P CP} → none ≡ some leader → ⊥
          no_leader r = cc
