-- ===== src/Following/Truncate.antt =====
-- openraft/src/engine/handler/following_handler/mod.rs: the log after it is truncated,
-- and after a request whose previous log id it may not have.
use openraft.Prelude.{
  ℕ, ◌≤◌, ◌<◌, ◌≡◌, ◌∙◌, refl, true, false, none, some, arith, inl, inr, Bool-cases, Option-cases,
  ltb, if◌then◌else◌, ◌⊎◌,
}
use openraft.Prelude.Ord.{Ord}
use openraft.LogId.{LogId}
use openraft.LogIdList.{LogIdList, get, first_index, truncate}
use openraft.LogIdList.Valid.{IsValid, truncate-IsValid}
use openraft.LogIdList.View.{get-truncate}
use openraft.Vote.LeaderId.{RaftLeaderId}
use openraft.Membership.{RaftMembership}
use openraft.MembershipState as MembershipStates
use openraft.MembershipState.{StoredMembership, index_le, index_of}
use openraft.RaftState.{get_log_id, has_log_id}
use openraft.Following.{
  Following, truncate_logs, truncate_log_ids, truncate_memberships, ensure_log_consecutive,
}
use openraft.Following.Append.{log_ids-update_server_state}

-- what truncation at an index does
pub record Truncates {CLID : Type 0} (old new : LogIdList CLID) (since : ℕ) : Type 0 where
  pub before : (i : ℕ) → i < since → get new i ≡ get old i
  pub at_since : get new since ≡ none

purged-truncate : {CLID : Type 0} (l : LogIdList CLID) (at : ℕ) → (truncate l at).purged ≡ l.purged
unfolding truncate
purged-truncate l at = ground arith

module _ {LID CLID Mem : Type 0} ⦃l : RaftLeaderId LID⦄ ⦃m : RaftMembership Mem⦄ where
  log_ids-truncate_memberships :
      (h : Following LID CLID Mem) (since : ℕ)
      → (truncate_memberships h since).state.log_ids ≡ h.state.log_ids
  unfolding truncate_memberships
  log_ids-truncate_memberships h since =
      elim (Bool-cases
        (index_le (some since) (index_of h.state.membership_state.effective.log_id))) [
          | inl e ↦
              rw (truncate_memberships, MembershipStates.truncate, e)
                (log_ids-update_server_state (record h {
                  state = record h.state {
                    membership_state = (MembershipStates.truncate h.state.membership_state since).0;
                  };
                }))
          | inr e ↦ rw (truncate_memberships, MembershipStates.truncate, e)
        ]

  log_ids-truncate_logs :
      (h : Following LID CLID Mem) (since : ℕ) (x : LogId CLID)
      → get_log_id h.state since ≡ some x
      → (truncate_logs h since).state.log_ids ≡ truncate h.state.log_ids since
  unfolding truncate_logs truncate_log_ids
  log_ids-truncate_logs h since x e =
      rw (truncate_logs, e) (log_ids-truncate_memberships (truncate_log_ids h since) since)

  pub purged-truncate_logs :
      (h : Following LID CLID Mem) (since : ℕ)
      → (truncate_logs h since).state.log_ids.purged ≡ h.state.log_ids.purged
  unfolding truncate_logs
  purged-truncate_logs h since = elim (Option-cases (get_log_id h.state since)) [
    | inl e ↦ rw (truncate_logs, e)
    | inr (x, e) ↦ rw (log_ids-truncate_logs h since x e) (purged-truncate h.state.log_ids since)
  ]

module _ {LID CLID Mem : Type 0} ⦃l : RaftLeaderId LID⦄ ⦃o : Ord CLID⦄
    ⦃m : RaftMembership Mem⦄ where
  -- Truncating the logs from an index on, which is not purged, keeps the log valid, keeps every log
  -- id before the index, and leaves none at it.
  pub truncate_logs-Truncates :
      (h : Following LID CLID Mem) (since : ℕ)
      → IsValid h.state.log_ids
      → first_index h.state.log_ids ≤ since
      → IsValid (truncate_logs h since).state.log_ids
        × Truncates h.state.log_ids (truncate_logs h since).state.log_ids since
  unfolding get_log_id get truncate_logs
  truncate_logs-Truncates h since v k = elim (Option-cases (get_log_id h.state since)) [
    | inl e ↦ rw (truncate_logs, e) (v, record { before = λ i below. refl; at_since = e })
    | inr (x, e) ↦ rw (log_ids-truncate_logs h since x e) (
      truncate-IsValid h.state.log_ids since v,
      record {
        before = λ i below. get-truncate h.state.log_ids since i v k ∙ kept i (ground arith);
        at_since = get-truncate h.state.log_ids since since v k ∙ gone;
      },
    )
  ]
    where
      kept :
          (i : ℕ)
          → i < since
          → (if ltb i since then get h.state.log_ids i else none) ≡ get h.state.log_ids i
      kept i below = ground arith

      gone : (if ltb since since then get h.state.log_ids since else none) ≡ none
      gone = ground arith

  -- A request whose previous log id the log does not have is answered by the local log id at that
  -- index, and what is left of the log is valid and has the log ids before that index; a request
  -- whose previous log id it has is accepted, and changes nothing.
  pub ensure_log_consecutive_lem :
      (h : Following LID CLID Mem) (prev : LogId CLID)
      → IsValid h.state.log_ids
      → first_index h.state.log_ids ≤ prev.index
      → ((has_log_id h.state prev ≡ true) × (ensure_log_consecutive h (some prev) ≡ (h, none)))
        ⊎ ((has_log_id h.state prev ≡ false)
            × ((ensure_log_consecutive h (some prev)).1
                ≡ some (record { local = get_log_id h.state prev.index; expect = prev }))
            × IsValid (ensure_log_consecutive h (some prev)).0.state.log_ids
            × Truncates h.state.log_ids
                (ensure_log_consecutive h (some prev)).0.state.log_ids
                prev.index)
  unfolding ensure_log_consecutive
  ensure_log_consecutive_lem h prev v k = elim (Bool-cases (has_log_id h.state prev)) [
    | inl e ↦ inl (e, rw e)
    | inr e ↦ inr (
        rw e (
          refl,
          refl,
          (truncate_logs-Truncates h prev.index v k).0,
          (truncate_logs-Truncates h prev.index v k).1,
        ))
  ]
