-- ===== src/VoteHandler.antt =====
-- openraft/src/engine/handler/vote_handler/mod.rs: what granting a vote does to the state of a node.
-- Engine has the method `update_vote` itself.
use openraft.Prelude.{◌≡◌, true, false, arith}
use openraft.Prelude.Ord.{Ord}
use openraft.Vote.LeaderId.{RaftLeaderId}
use openraft.Vote.{Vote, partial_cmp, ge, is_gt}
use openraft.Vote.Order.{partial_cmp_refl, partial_cmp-flip, ge_antisymm}
use openraft.IoState.Ids.{io_id_of_vote}
use openraft.RaftState.{RaftState, accept_log_io}

pub ge_self : {LID : Type 0} ⦃l : RaftLeaderId LID⦄ (a : Vote LID) → ge a a ≡ true
unfolding ge
ge_self a = ground (arith, partial_cmp_refl a)

pub eq_of_ge :
    {LID : Type 0} ⦃l : RaftLeaderId LID⦄ (a b : Vote LID)
    → ge a b ≡ true
    → is_gt (partial_cmp a b) ≡ false
    → a ≡ b
unfolding ge
eq_of_ge a b h k = ge_antisymm a b h (ground (arith, partial_cmp-flip a b))

module _ {LID CLID Mem : Type 0} ⦃l : RaftLeaderId LID⦄ ⦃o : Ord CLID⦄ where
  -- `state.vote.update`, whose times are in Lease, and `accept_log_io`
  unfoldable pub grant : RaftState LID CLID Mem → Vote LID → RaftState LID CLID Mem
  unfolding accept_log_io io_id_of_vote
  grant s vote = (accept_log_io (record s { vote = vote }) (io_id_of_vote vote)).0

  pub vote-grant : (s : RaftState LID CLID Mem) (vote : Vote LID) → (grant s vote).vote ≡ vote
  unfolding grant accept_log_io
  vote-grant s vote = ground arith
