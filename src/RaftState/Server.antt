-- ===== src/RaftState/Server.antt =====
-- openraft/src/raft_state/mod.rs and engine/handler/server_state_handler: the server state that
-- follows from the vote and the memberships.
use openraft.Prelude.{
  ℕ, ◌≡◌, ap, ◌≢◌, ◌↔◌, Bool, true, false, ◌&&◌, ◌||◌, not, ◌==◌, if◌then◌else◌, arith, inl, inr,
  ==_iff, Bool-cases,
}
use openraft.Vote.LeaderId.{RaftLeaderId}
use openraft.Membership.{RaftMembership, contains, is_campaigner, is_learner}
use openraft.RaftState.{RaftState, ServerState, learner, follower, candidate, leader, shutdown}

-- the discriminants of the enum, whose `==` compares them
abbrev rank : ServerState → ℕ
rank learner = 0
rank follower = 1
rank candidate = 2
rank leader = 3
rank shutdown = 4

rank-injective : (a b : ServerState) → rank a ≡ rank b → a ≡ b
rank-injective a b h = ground arith

unchanged :
    {LID CLID Mem : Type 0} (s : RaftState LID CLID Mem) (x : ServerState)
    → s.server_state ≡ x
    → s ≡ record s { server_state = x }
unchanged s x e = ap (λ y. record s { server_state = y }) e

module _ {LID CLID Mem : Type 0} ⦃l : RaftLeaderId LID⦄ ⦃m : RaftMembership Mem⦄ where
  unfoldable pub is_leading : RaftState LID CLID Mem → ℕ → Bool
  unfolding contains is_campaigner
  is_leading s id =
      (contains s.membership_state.effective.membership id
        || is_campaigner s.membership_state.committed.membership id)
      && (l.node_id s.vote.leader_id == id)

  unfoldable pub is_leader : RaftState LID CLID Mem → ℕ → Bool
  unfolding is_leading
  is_leader s id = is_leading s id && s.vote.committed

  unfoldable pub calc_following_state : RaftState LID CLID Mem → ℕ → ServerState
  unfolding contains is_learner
  calc_following_state s id =
      let membership = s.membership_state.effective.membership in
      if not (contains membership id) || is_learner membership id then learner else follower

  unfoldable pub calc_server_state : RaftState LID CLID Mem → ℕ → ServerState
  unfolding is_leader is_leading calc_following_state
  calc_server_state s id =
      if is_leader s id
      then leader
      else if is_leading s id
      then candidate
      else calc_following_state s id

  -- `ServerStateHandler::update_server_state_if_changed`
  unfoldable pub update_server_state_if_changed :
      RaftState LID CLID Mem → ℕ → RaftState LID CLID Mem
  unfolding calc_server_state
  update_server_state_if_changed s id =
      if rank s.server_state == rank (calc_server_state s id)
      then s
      else record s { server_state = calc_server_state s id }

  -- Updating leaves the server state that the vote and the memberships determine.
  pub update_server_state_if_changed_lem :
      (s : RaftState LID CLID Mem) (id : ℕ)
      → update_server_state_if_changed s id ≡ record s { server_state = calc_server_state s id }
  unfolding update_server_state_if_changed
  update_server_state_if_changed_lem s id =
      elim (Bool-cases (rank s.server_state == rank (calc_server_state s id))) [
        | inl e ↦
            rw e (unchanged s (calc_server_state s id) (rank-injective _ _ ((==_iff _ _).0 e)))
        | inr e ↦ rw e
      ]

  -- A node is a leader exactly when it owns the vote, the vote is committed, and the node is in the
  -- effective membership or a campaigner of the committed one.
  pub calc_server_state-eq-leader :
      (s : RaftState LID CLID Mem) (id : ℕ)
      → (calc_server_state s id ≡ leader) ↔ (
          (l.node_id s.vote.leader_id ≡ id)
          × (s.vote.committed ≡ true)
          × ((contains s.membership_state.effective.membership id
                || is_campaigner s.membership_state.committed.membership id)
              ≡ true))
  unfolding calc_server_state is_leader is_leading calc_following_state contains is_campaigner
  calc_server_state-eq-leader s id = (λ h. ground arith, λ h. ground arith)

  -- A node that does not own the vote is a learner or a follower, and a follower takes part: it
  -- campaigns or votes, or does not receive logs.
  pub calc_server_state-eq-follower :
      (s : RaftState LID CLID Mem) (id : ℕ)
      → l.node_id s.vote.leader_id ≢ id
      → (calc_server_state s id ≡ follower) ↔ (
          (contains s.membership_state.effective.membership id ≡ true)
          × (is_learner s.membership_state.effective.membership id ≡ false))
  unfolding calc_server_state is_leader is_leading calc_following_state contains is_learner
  calc_server_state-eq-follower s id h = (
    λ e. ground (arith, ==_iff (l.node_id s.vote.leader_id) id),
    λ e. ground (arith, ==_iff (l.node_id s.vote.leader_id) id),
  )
