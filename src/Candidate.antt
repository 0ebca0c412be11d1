-- ===== src/Candidate.antt =====
-- openraft/src/proposer/candidate.rs: a candidate, and the votes that it is granted. The progress of
-- the votes is the crate `quorum_set`'s `VecProgress<IdVal<_, bool>, _>`, an interface here; the
-- generator of stream ids is left to the leader that the candidate becomes.
use openraft.Prelude.{ℕ, ◌≡◌, Bool, true, false, Option, none, some, List, [], ◌∷◌, if◌then◌else◌}
use openraft.Prelude.Ord.{Ord, nat_ord}
use openraft.LogId.{LogId}
use openraft.LeaderLogIds.{new_single}
use openraft.Vote.{Vote}
use openraft.Vote.LeaderId.{RaftLeaderId}
use openraft.Membership.{RaftMembership}
use openraft.Quorum.{IsWithin}
use openraft.Progress.Entry.{ProgressEntry}
use openraft.VecProgress.{QuorumRule, VecProgress, ProgressItem, ClockProgress}
use openraft.Leader as Leaders
use openraft.Leader.{Leader, QuorumMembership}

-- The granted votes: `grant` is `update_progress(target, true)`, which answers `None` for a node that
-- is not of the quorum rule, and otherwise whether a quorum has granted. Only those that granted
-- are counted.
pub record Tally (V : Type 0) : Type 0 where
  pub new : QuorumRule → V
  pub grant : V → ℕ → Option (V × Bool)
  pub quorum_set : V → QuorumRule
  pub granters : V → List ℕ
  pub granters-new : (rule : QuorumRule) → granters (new rule) ≡ []
  pub quorum_set-new : (rule : QuorumRule) → quorum_set (new rule) ≡ rule
  pub granters-grant :
      (v : V) (id : ℕ) {v' : V} {granted : Bool}
      → grant v id ≡ some (v', granted)
      → IsWithin (granters v') (id ∷ granters v)
  pub quorum_set-grant :
      (v : V) (id : ℕ) {v' : V} {granted : Bool}
      → grant v id ≡ some (v', granted)
      → quorum_set v' ≡ quorum_set v
  pub granted_sound :
      (v : V) (id : ℕ) {v' : V}
      → grant v id ≡ some (v', true)
      → (quorum_set v').is_quorum (granters v') ≡ true

pub record Candidate (LID CLID Mem V : Type 0) : Type 0 where
  pub starting_time : ℕ
  pub vote : Vote LID
  pub last_log_id : Option (LogId CLID)
  pub progress : V
  pub membership : Mem

-- What the type configuration and its surroundings give to the engine: the methods and the constant
-- `TOTALLY_ORDERED` of the leader id type, `BothQuorums::new`, the stream ids, and the present time.
pub record Env (LID CLID : Type 0) : Type 0 where
  pub to_committed : LID → CLID
  pub make : ℕ → ℕ → LID
  pub totally_ordered : Bool
  pub both : QuorumRule → QuorumRule → QuorumRule
  pub stream_ids : ℕ → ℕ
  pub now : ℕ

module _ {LID CLID Mem V : Type 0} ⦃y : Tally V⦄ where
  -- the candidate, and whether a quorum has granted the vote
  unfoldable pub grant_by : Candidate LID CLID Mem V → ℕ → Candidate LID CLID Mem V × Bool
  grant_by c target = elim (y.grant c.progress target) [
    | none ↦ (c, false)
    | some (progress, granted) ↦ (record c { progress = progress }, granted)
  ]

-- the rule that an election is won by
unfoldable pub election_quorum_set :
    {LID CLID Mem : Type 0} ⦃n : QuorumMembership Mem⦄ → Env LID CLID → Mem → QuorumRule
election_quorum_set ⦃n⦄ env membership =
    if env.totally_ordered
    then n.read_quorum_set membership
    else env.both (n.read_quorum_set membership) (n.write_quorum_set membership)

-- `Candidate::new`, at the present time
unfoldable pub new_candidate :
    {LID CLID Mem V : Type 0} ⦃n : QuorumMembership Mem⦄ ⦃y : Tally V⦄
    → Env LID CLID
    → Vote LID
    → Option (LogId CLID)
    → Mem
    → Candidate LID CLID Mem V
unfolding election_quorum_set
new_candidate ⦃y⦄ env vote last_log_id membership = record {
  starting_time = env.now;
  vote = vote;
  last_log_id = last_log_id;
  progress = y.new (election_quorum_set env membership);
  membership = membership;
}

module _ {LID CLID Mem P CP V : Type 0} ⦃l : RaftLeaderId LID⦄ ⦃o : Ord CLID⦄
    ⦃m : RaftMembership Mem⦄ ⦃n : QuorumMembership Mem⦄
    ⦃t : ProgressItem (ProgressEntry CLID) (Option (LogId CLID))⦄
    ⦃v : VecProgress P (ProgressEntry CLID) (Option (LogId CLID))⦄ ⦃c : ClockProgress CP⦄ where
  -- the vote is committed, and the log ids of the last leader are its last one alone
  unfoldable pub into_leader : Env LID CLID → Candidate LID CLID Mem V → Leader LID CLID P CP
  unfolding Leaders.new new_single
  into_leader env candidate =
      Leaders.new env.to_committed env.stream_ids env.now
        (record { leader_id = candidate.vote.leader_id }) candidate.membership
        (elim candidate.last_log_id [ none ↦ none | some last ↦ some (new_single last) ])
