-- ===== src/Engine/Kept.antt =====
-- openraft/src/engine/handler/following_handler/mod.rs: the vote of a node before and after it
-- takes the entries of a request.
use openraft.Prelude.{
  ℕ, ◌≡◌, ◌∙◌, refl, Option, none, some, List, [], ◌∷◌, inl, inr, Bool-cases, Option-cases, arith,
  drop, get_elem?,
}
use openraft.Prelude.Ord.{Ord, cmp_option}
use openraft.LogId.{LogId, cmp_log_id}
use openraft.Vote.LeaderId.{RaftLeaderId}
use openraft.IoState.Ids.{IoId, log_io, io_id_order}
use openraft.IoState.Committed.{max_by}
use openraft.Membership.{RaftMembership}
use openraft.MembershipState as MembershipStates
use openraft.MembershipState.{StoredMembership, index_le, index_of}
use openraft.MembershipState.Recent.{Entry, entry_log_id, last_two_memberships, append_each}
use openraft.RaftState.{
  get_log_id, has_log_id, extend_log_ids, RaftState, accept_log_io, first_conflicting_index,
}
use openraft.RaftState.Server.{update_server_state_if_changed_lem}
use openraft.Following.{
  Following, ConflictingLogId, append_entries, append_new, append_membership, do_append_entries,
  ensure_log_consecutive, truncate_logs, truncate_log_ids, truncate_memberships,
  update_server_state, last_entry_id,
}
use openraft.Engine.{Engine}
use openraft.Engine.Requests.{append_voted, append_consecutive, following_of}
use openraft.Engine.Votes.{vote-accept_log_io}

module _ {LID CLID Mem : Type 0} ⦃l : RaftLeaderId LID⦄ ⦃m : RaftMembership Mem⦄ where
  vote-update_server_state :
      (h : Following LID CLID Mem) → (update_server_state h).state.vote ≡ h.state.vote
  unfolding update_server_state
  vote-update_server_state h = rw (update_server_state_if_changed_lem h.state h.id)

  vote-append_membership :
      (h : Following LID CLID Mem) (entries : List (Entry CLID Mem))
      → (append_membership h entries).state.vote ≡ h.state.vote
  unfolding append_membership
  vote-append_membership h entries = by_memberships (last_two_memberships entries) refl
    where
      by_memberships :
          (ms : List (StoredMembership CLID Mem))
          → last_two_memberships entries ≡ ms
          → (append_membership h entries).state.vote ≡ h.state.vote
      by_memberships [] e = rw (append_membership, e)
      by_memberships (x ∷ xs) e =
          rw (append_membership, e)
            (vote-update_server_state (record h {
              state = record h.state {
                membership_state = append_each h.state.membership_state (x ∷ xs);
              };
            }))

  vote-truncate_memberships :
      (h : Following LID CLID Mem) (since : ℕ)
      → (truncate_memberships h since).state.vote ≡ h.state.vote
  unfolding truncate_memberships
  vote-truncate_memberships h since =
      elim (Bool-cases
        (index_le (some since) (index_of h.state.membership_state.effective.log_id))) [
          | inl e ↦
              rw (truncate_memberships, MembershipStates.truncate, e)
                (vote-update_server_state (record h {
                  state = record h.state {
                    membership_state = (MembershipStates.truncate h.state.membership_state since).0;
                  };
                }))
          | inr e ↦ rw (truncate_memberships, MembershipStates.truncate, e)
        ]

  vote-truncate_logs :
      (h : Following LID CLID Mem) (since : ℕ) → (truncate_logs h since).state.vote ≡ h.state.vote
  unfolding truncate_logs truncate_log_ids
  vote-truncate_logs h since = elim (Option-cases (get_log_id h.state since)) [
    | inl e ↦ rw (truncate_logs, e) refl
    | inr (x, e) ↦
        rw (truncate_logs, e) (vote-truncate_memberships (truncate_log_ids h since) since)
  ]

module _ {LID CLID Mem : Type 0} ⦃l : RaftLeaderId LID⦄ ⦃o : Ord CLID⦄
    ⦃m : RaftMembership Mem⦄ where
  vote-do_append_entries :
      (h : Following LID CLID Mem) (entries : List (Entry CLID Mem))
      → (do_append_entries h entries).state.vote ≡ h.state.vote
  unfolding do_append_entries extend_log_ids
  vote-do_append_entries h entries = vote-append_membership _ entries

  vote-append_new :
      (h : Following LID CLID Mem) (ent : Option (Entry CLID Mem)) (entries : List (Entry CLID Mem))
      (last : Option (LogId CLID)) (prev_accepted : Option (IoId LID CLID))
      → (append_new h ent entries last prev_accepted).state.vote ≡ h.state.vote
  unfolding append_new
  vote-append_new h (some ent) entries last prev_accepted =
      vote-do_append_entries (truncate_logs h (entry_log_id ent).index) entries
      ∙ vote-truncate_logs h (entry_log_id ent).index
  vote-append_new h none entries last prev_accepted = ground arith

  vote-append_entries :
      (h : Following LID CLID Mem) (prev : Option (LogId CLID)) (entries : List (Entry CLID Mem))
      → (append_entries h prev entries).state.vote ≡ h.state.vote
  unfolding append_entries
  vote-append_entries h prev entries =
      vote-append_new (record h { state = accepted.0 })
        (get_elem? entries (first_conflicting_index accepted.0 entries))
        (drop (first_conflicting_index accepted.0 entries) entries) last accepted.1
      ∙ vote-accept_log_io h.state
          (log_io (record { committed_vote = h.leader_vote; log_id = last }))
    where
      last : Option (LogId CLID)
      last = max_by (cmp_option cmp_log_id) prev (last_entry_id entries)

      accepted : RaftState LID CLID Mem × Option (IoId LID CLID)
      accepted =
          accept_log_io h.state (log_io (record { committed_vote = h.leader_vote; log_id = last }))

  vote-ensure_log_consecutive :
      (h : Following LID CLID Mem) (prev : Option (LogId CLID))
      → (ensure_log_consecutive h prev).0.state.vote ≡ h.state.vote
  unfolding ensure_log_consecutive
  vote-ensure_log_consecutive h none = refl
  vote-ensure_log_consecutive h (some x) = elim (Bool-cases (has_log_id h.state x)) [
    | inl e ↦ rw e refl
    | inr e ↦ rw e (vote-truncate_logs h x.index)
  ]

module _ {LID CLID Mem P CP V : Type 0} ⦃l : RaftLeaderId LID⦄ ⦃o : Ord CLID⦄
    ⦃m : RaftMembership Mem⦄ where
  vote-append_consecutive :
      (e : Engine LID CLID Mem P CP V) (prev : Option (LogId CLID))
      (entries : List (Entry CLID Mem))
      (check : Following LID CLID Mem × Option (ConflictingLogId CLID))
      → (append_consecutive e prev entries check).0.state.vote ≡ check.0.state.vote
  unfolding append_consecutive
  vote-append_consecutive e prev entries (h, none) = vote-append_entries h prev entries
  vote-append_consecutive e prev entries (h, some x) = refl

  pub vote-append_voted :
      (e : Engine LID CLID Mem P CP V) (prev : Option (LogId CLID))
      (entries : List (Entry CLID Mem))
      → (append_voted e prev entries).0.state.vote ≡ e.state.vote
  unfolding append_voted
  vote-append_voted e prev entries =
      vote-append_consecutive e prev entries (ensure_log_consecutive (following_of e) prev)
      ∙ vote-ensure_log_consecutive (following_of e) prev
