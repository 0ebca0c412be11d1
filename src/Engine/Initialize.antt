-- ===== src/Engine/Initialize.antt =====
-- openraft/src/engine/engine_impl.rs: `initialize` with its checks, and the greater log id that a peer
-- has reported.
use openraft.Prelude.{
  ℕ, ◌≡◌, ◌∙◌, ap, refl, Bool, true, Option, none, some, [], ◌∷◌, if◌then◌else◌, not, ◌==◌, arith,
  inl, inr, Option-cases, sym,
}
use openraft.Prelude.Ord.{Ord}
use openraft.LogId.{LogId}
use openraft.LogIdList.Last.{last-append}
use openraft.Vote.{Vote, new_committed}
use openraft.Vote.LeaderId.{RaftLeaderId}
use openraft.Membership.{RaftMembership, is_campaigner}
use openraft.MembershipState.{log_id_lt}
use openraft.MembershipState.Recent.{entry}
use openraft.MembershipState.Checks.{ChangeableMembership}
use openraft.MembershipState.Next.{Answer, success, failure, ChangeError, check_membership}
use openraft.RaftState.{RaftState, last_log_id}
use openraft.RaftState.Server.{update_server_state_if_changed_lem}
use openraft.Following.{do_append_entries}
use openraft.Lease.{updated}
use openraft.Leader.{QuorumMembership}
use openraft.Candidate.{Env}
use openraft.Engine.{Engine}
use openraft.Engine.Requests.{following_of, after_following}

-- `InitializeError`; the error of a membership is one of its four checks
pub data InitializeError (LID CLID E : Type 0) : Type 0 where
  not_allowed : Option (LogId CLID) → Vote LID → InitializeError LID CLID E
  not_in_members : ℕ → InitializeError LID CLID E
  invalid_membership : ChangeError E → InitializeError LID CLID E

module _ {E A : Type 0} where
  success-injective : {x y : A} → Path (Answer E A) (success x) (success y) → x ≡ y
  success-injective h = cc

  failure_success : {x : E} {y : A} → ¬ (failure x ≡ success y)
  failure_success h = cc

module _ {LID CLID Mem P CP V : Type 0} where
  unfoldable pub reset_greater_log : Engine LID CLID Mem P CP V → Engine LID CLID Mem P CP V
  reset_greater_log e = record e { seen_greater_log = none }

  unfoldable pub is_there_greater_log : ⦃o : Ord CLID⦄ → Engine LID CLID Mem P CP V → Bool
  unfolding last_log_id
  is_there_greater_log e = log_id_lt (last_log_id e.state) e.seen_greater_log

-- `RaftState::is_initialized`; the default term is 0
unfoldable pub is_initialized :
    {LID CLID Mem : Type 0} ⦃l : RaftLeaderId LID⦄ → RaftState LID CLID Mem → Bool
unfolding last_log_id
is_initialized ⦃l⦄ s = elim (last_log_id s) [
  | some log_id ↦ true
  | none ↦ not (l.term s.vote.leader_id == 0)
]

module _ {LID CLID Mem P CP V : Type 0} (env : Env LID CLID) where
  -- the log id of the first entry
  abbrev pub first_log_id : Engine LID CLID Mem P CP V → LogId CLID
  first_log_id e = record { leader_id = env.to_committed (env.make 0 e.config.id); index = 0 }

module _ {LID CLID Mem P CP V : Type 0} ⦃l : RaftLeaderId LID⦄ ⦃o : Ord CLID⦄
    ⦃m : RaftMembership Mem⦄ (env : Env LID CLID) where
  -- the vote of term 0 for this node is taken as committed, and the membership is appended
  unfoldable pub append_first : Engine LID CLID Mem P CP V → Mem → Engine LID CLID Mem P CP V
  unfolding new_committed updated do_append_entries
  append_first e membership =
      let voted = record e {
        state = record e.state { vote = new_committed (env.make 0 e.config.id) };
        vote_lease = updated env.now 0;
      } in
      after_following voted
        (do_append_entries (following_of voted) (entry (first_log_id env e) (some membership) ∷ []))

  vote-append_first :
      (e : Engine LID CLID Mem P CP V) (membership : Mem)
      → (append_first e membership).state.vote ≡ new_committed (env.make 0 e.config.id)
  unfolding append_first
  vote-append_first e membership = rw update_server_state_if_changed_lem

  last_log_id-append_first :
      (e : Engine LID CLID Mem P CP V) (membership : Mem)
      → last_log_id (append_first e membership).state ≡ some (first_log_id env e)
  unfolding append_first last_log_id
  last_log_id-append_first e membership =
      rw (update_server_state_if_changed_lem, last-append e.state.log_ids (first_log_id env e))

  effective-append_first :
      (e : Engine LID CLID Mem P CP V) (membership : Mem)
      → (append_first e membership).state.membership_state.effective
        ≡ record { log_id = some (first_log_id env e); membership = membership }
  unfolding append_first
  effective-append_first e membership = rw update_server_state_if_changed_lem

module _ {LID CLID Mem P CP V : Type 0} ⦃l : RaftLeaderId LID⦄ ⦃o : Ord CLID⦄
    ⦃m : RaftMembership Mem⦄ ⦃n : QuorumMembership Mem⦄ ⦃h : ChangeableMembership Mem⦄
    (E : Type 0) where
  -- the first error of the checks, in their order
  unfoldable pub check_first :
      Engine LID CLID Mem P CP V → Mem → Option (InitializeError LID CLID E)
  unfolding is_initialized last_log_id is_campaigner check_membership
  check_first e membership =
      if is_initialized e.state
      then some (not_allowed (last_log_id e.state) e.state.vote)
      else if not (is_campaigner membership e.config.id)
      then some (not_in_members e.config.id)
      else elim (check_membership {E = E} membership) [
        | none ↦ none
        | some error ↦ some (invalid_membership error)
      ]

  unfoldable pub initialize :
      Env LID CLID
      → Engine LID CLID Mem P CP V
      → Mem
      → Answer (InitializeError LID CLID E) (Engine LID CLID Mem P CP V)
  unfolding check_first append_first
  initialize env e membership = elim (check_first e membership) [
    | some error ↦ failure error
    | none ↦ success (append_first env e membership)
  ]

  -- what a node is before and after it is initialized
  abbrev pub IsFirst :
      Env LID CLID → Engine LID CLID Mem P CP V → Mem → Engine LID CLID Mem P CP V → Type 0
  IsFirst env e mem e' =
      (last_log_id e.state ≡ none)
      × (l.term e.state.vote.leader_id ≡ 0)
      × (is_campaigner mem e.config.id ≡ true)
      × (e'.state.vote ≡ new_committed (env.make 0 e.config.id))
      × (last_log_id e'.state ≡ some (first_log_id env e))
      × (e'.state.membership_state.effective
          ≡ record { log_id = some (first_log_id env e); membership = mem })

  check_first-none :
      (e : Engine LID CLID Mem P CP V) (mem : Mem)
      → check_first e mem ≡ none
      → (last_log_id e.state ≡ none)
        × (l.term e.state.vote.leader_id ≡ 0)
        × (is_campaigner mem e.config.id ≡ true)
  unfolding check_first is_initialized
  check_first-none e mem h = ground arith

  initialize-refused :
      (env : Env LID CLID) (e : Engine LID CLID Mem P CP V) (mem : Mem) (x : LogId CLID)
      → last_log_id e.state ≡ some x
      → initialize env e mem ≡ failure (not_allowed (some x) e.state.vote)
  unfolding initialize check_first is_initialized
  initialize-refused env e mem x h = rw (initialize, check_first, is_initialized, h) refl

  initialize-made :
      (env : Env LID CLID) (e e' : Engine LID CLID Mem P CP V) (mem : Mem)
      → initialize env e mem ≡ success e'
      → (check_first e mem ≡ none) × (append_first env e mem ≡ e')
  unfolding initialize
  initialize-made env e e' mem h = elim (Option-cases (check_first e mem)) [
    | inl k ↦ (k, success-injective (sym (rw (initialize, k) refl) ∙ h))
    | inr (error, k) ↦ absurd (failure_success {x = error} (sym (rw (initialize, k) refl) ∙ h))
  ]

  -- A node is initialized only if its log is empty, its vote is of term 0 and the membership has it
  -- as a campaigner. It then has the committed vote of term 0 for itself and the membership at
  -- log 0 as its last log, and any further attempt is refused with that log id and that vote.
  pub initialize_lem :
      (env : Env LID CLID) (e e' : Engine LID CLID Mem P CP V) (mem mem' : Mem)
      → initialize env e mem ≡ success e'
      → IsFirst env e mem e'
        × (initialize env e' mem'
            ≡ failure
                (not_allowed (some (first_log_id env e)) (new_committed (env.make 0 e.config.id))))
  initialize_lem env e e' mem mem' h =
      let (none_first, made) = initialize-made env e e' mem h in
      let (log, term, campaigner) = check_first-none e mem none_first in
      let voted = sym (ap (λ x. x.state.vote) made) ∙ vote-append_first env e mem in
      let logged = sym (ap (λ x. last_log_id x.state) made) ∙ last_log_id-append_first env e mem in
      let membership =
        sym (ap (λ x. x.state.membership_state.effective) made)
        ∙ effective-append_first env e mem in
      (
        (log, term, campaigner, voted, logged, membership),
        initialize-refused env e' mem' (first_log_id env e) logged
            ∙ ap (λ v. failure (not_allowed (some (first_log_id env e)) v)) voted,
      )
