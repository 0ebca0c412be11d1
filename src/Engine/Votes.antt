-- ===== src/Engine/Votes.antt =====
-- openraft/src/engine/engine_impl.rs and engine/handler/vote_handler/mod.rs: the vote of a node through
-- the methods of its engine.
use openraft.Prelude.{
  ℕ, ◌≡◌, ◌⊎◌, ◌∙◌, ap, sym, refl, Bool, true, false, Option, none, some, List, [], ◌∷◌, inl, inr,
  Bool-cases, if◌then◌else◌, ◌||◌, length, Ordering,
}
use openraft.Prelude.Ord.{Ord}
use openraft.LogId.{LogId}
use openraft.LeaderLogIds.{LeaderLogIds, into_iter, collect}
use openraft.LogIdList.Leaders.{extend_from_same_leader}
use openraft.Vote.{Vote, partial_cmp, ge, is_gt}
use openraft.Vote.LeaderId.{RaftLeaderId}
use openraft.IoState.Ids.{IoId, log_io, io_id_order}
use openraft.IoState.PartialOrd.{option_gt}
use openraft.Membership.{RaftMembership}
use openraft.MembershipState as MembershipStates
use openraft.MembershipState.{log_id_lt}
use openraft.MembershipState.Recent.{Entry}
use openraft.RaftState.{RaftState, accept_log_io}
use openraft.RaftState.Server.{update_server_state_if_changed_lem, is_leader, is_leading}
use openraft.VoteHandler.{vote-grant, eq_of_ge}
use openraft.Progress.Entry.{ProgressEntry}
use openraft.VecProgress.{VecProgress, ProgressItem, ClockProgress}
use openraft.Leader.{Leader, QuorumMembership, assign_log_ids}
use openraft.Candidate.{Env}
use openraft.Replication.{Replication, push_command, append_command}
use openraft.Replication.Streams.{
  initiate_replication, rebuild_streams, rebuild_progresses, append_found, append_assigned,
  append_if_assigned, leader_append_entries, zip_entries, membership_entry,
}
use openraft.Replication.Kept.{send_each-still}
use openraft.Engine.{
  Engine, update_vote, take_vote, update_internal_server_state, become_leader, become_following,
  start_leading, propose_blank, update_server_state, replication_of, new_leader, push,
  update_io_progress, is_some, prepend, fail_pending_reads, close_replication_streams,
}

module _ {LID CLID Mem : Type 0} ⦃l : RaftLeaderId LID⦄ ⦃o : Ord CLID⦄ where
  pub vote-accept_log_io :
      (s : RaftState LID CLID Mem) (x : IoId LID CLID) → (accept_log_io s x).0.vote ≡ s.vote
  unfolding accept_log_io
  vote-accept_log_io s x = elim (Bool-cases (option_gt (some x) s.io_state.log_progress.accepted)) [
    | inl e ↦ rw e refl
    | inr e ↦ rw e refl
  ]

module _ {LID CLID Mem P CP : Type 0} ⦃l : RaftLeaderId LID⦄ ⦃o : Ord CLID⦄ ⦃m : RaftMembership Mem⦄
    ⦃n : QuorumMembership Mem⦄ ⦃t : ProgressItem (ProgressEntry CLID) (Option (LogId CLID))⦄
    ⦃v : VecProgress P (ProgressEntry CLID) (Option (LogId CLID))⦄ ⦃c : ClockProgress CP⦄ where
  vote-initiate_replication :
      (h : Replication LID CLID Mem P CP) → (initiate_replication h).state.vote ≡ h.state.vote
  unfolding initiate_replication
  vote-initiate_replication h =
      send_each-still (λ s. s.vote) h.config.id h.leader.committed_vote
        h.state.membership_state.effective.membership h.state (v.iter h.leader.progress)
        (λ s id. refl)

  vote-append_found :
      (stream_ids : ℕ → ℕ) (h : Replication LID CLID Mem P CP) (found : Option (LogId CLID × Mem))
      → (append_found stream_ids h found).state.vote ≡ h.state.vote
  unfolding append_found rebuild_streams rebuild_progresses
  vote-append_found stream_ids h none = refl
  vote-append_found stream_ids h (some found) =
      vote-initiate_replication
        (rebuild_streams (rebuild_progresses stream_ids (record h { state = appended })) false)
    where
      appended : RaftState LID CLID Mem
      appended = record h.state {
        membership_state =
            MembershipStates.append h.state.membership_state
              (record { log_id = some found.0; membership = found.1 });
      }

  vote-append_assigned :
      (stream_ids : ℕ → ℕ) (h : Replication LID CLID Mem P CP) (payloads : List (Option Mem))
      (ids : LeaderLogIds CLID)
      → (append_assigned stream_ids h payloads ids).state.vote ≡ h.state.vote
  unfolding append_assigned accept_log_io
  vote-append_assigned stream_ids h payloads ids =
      vote-initiate_replication (append_found stream_ids pushed found)
      ∙ vote-append_found stream_ids pushed found
      ∙ vote-accept_log_io extended io
    where
      entries : List (Entry CLID Mem)
      entries = zip_entries payloads (collect (into_iter ids))

      found : Option (LogId CLID × Mem)
      found = membership_entry entries

      io : IoId LID CLID
      io =
          log_io
            (record { committed_vote = h.leader.committed_vote; log_id = h.leader.last_log_id })

      extended : RaftState LID CLID Mem
      extended = record h.state {
        log_ids = extend_from_same_leader h.state.log_ids (collect (into_iter ids));
      }

      pushed : Replication LID CLID Mem P CP
      pushed =
          push_command (record h { state = (accept_log_io extended io).0 })
            (append_command h.leader.committed_vote entries)

  vote-append_if_assigned :
      (stream_ids : ℕ → ℕ) (h : Replication LID CLID Mem P CP) (payloads : List (Option Mem))
      (assigned : Leader LID CLID P CP × Option (LeaderLogIds CLID))
      → (append_if_assigned stream_ids h payloads assigned).0.state.vote ≡ h.state.vote
  unfolding append_if_assigned
  vote-append_if_assigned stream_ids h payloads (leader, none) = refl
  vote-append_if_assigned stream_ids h payloads (leader, some ids) =
      vote-append_assigned stream_ids (record h { leader = leader }) payloads ids

  pub vote-leader_append_entries :
      (to_committed : LID → CLID) (stream_ids : ℕ → ℕ) (h : Replication LID CLID Mem P CP)
      (payloads : List (Option Mem))
      → (leader_append_entries to_committed stream_ids h payloads).0.state.vote ≡ h.state.vote
  unfolding leader_append_entries
  vote-leader_append_entries to_committed stream_ids h payloads =
      vote-append_if_assigned stream_ids h payloads
        (assign_log_ids to_committed h.leader (length payloads))

  vote-propose_blank :
      (env : Env LID CLID) (h : Replication LID CLID Mem P CP)
      → (propose_blank env h).state.vote ≡ h.state.vote
  unfolding propose_blank
  vote-propose_blank env h =
      elim (Bool-cases (log_id_lt h.leader.last_log_id (some h.leader.noop_log_id))) [
        | inl e ↦ rw e (vote-leader_append_entries env.to_committed env.stream_ids h (none ∷ []))
        | inr e ↦ rw e (vote-initiate_replication h)
      ]

module _ {LID CLID Mem P CP V : Type 0} ⦃l : RaftLeaderId LID⦄ ⦃m : RaftMembership Mem⦄ where
  pub vote-update_server_state :
      (e : Engine LID CLID Mem P CP V) → (update_server_state e).state.vote ≡ e.state.vote
  unfolding update_server_state
  vote-update_server_state e =
      ap (λ s. s.vote) (update_server_state_if_changed_lem e.state e.config.id)

  vote-become_following :
      (e : Engine LID CLID Mem P CP V) → (become_following e).state.vote ≡ e.state.vote
  unfolding become_following
  vote-become_following e =
      vote-update_server_state (
        if is_some e.leader || (is_some e.candidate || is_some e.pre_candidate)
        then push cleared close_replication_streams
        else cleared)
      ∙ same (is_some e.leader || (is_some e.candidate || is_some e.pre_candidate))
    where
      cleared : Engine LID CLID Mem P CP V
      cleared =
          prepend (record e { leader = none; candidate = none; pre_candidate = none })
            fail_pending_reads

      same :
          (had : Bool)
          → (if had then push cleared close_replication_streams else cleared).state.vote
            ≡ e.state.vote
      same true = refl
      same false = refl

module _ {LID CLID Mem P CP V : Type 0} ⦃l : RaftLeaderId LID⦄ ⦃o : Ord CLID⦄
    ⦃m : RaftMembership Mem⦄ ⦃n : QuorumMembership Mem⦄
    ⦃t : ProgressItem (ProgressEntry CLID) (Option (LogId CLID))⦄
    ⦃v : VecProgress P (ProgressEntry CLID) (Option (LogId CLID))⦄ ⦃c : ClockProgress CP⦄
    (env : Env LID CLID) where
  vote-start_leading :
      (e : Engine LID CLID Mem P CP V) (leader : Leader LID CLID P CP)
      → (start_leading env e leader).state.vote ≡ e.state.vote
  unfolding start_leading accept_log_io
  vote-start_leading e leader =
      vote-propose_blank env
        (rebuild_streams (replication_of (update_server_state pushed) leader) true)
      ∙ vote-update_server_state pushed
      ∙ vote-accept_log_io e.state io
    where
      io : IoId LID CLID
      io = log_io (record { committed_vote = leader.committed_vote; log_id = leader.last_log_id })

      pushed : Engine LID CLID Mem P CP V
      pushed =
          push (record e { leader = some leader; state = (accept_log_io e.state io).0 })
            (update_io_progress (accept_log_io e.state io).1 io)

  vote-become_leader :
      (e : Engine LID CLID Mem P CP V) (leader : Option (Leader LID CLID P CP))
      → (become_leader env e leader).state.vote ≡ e.state.vote
  unfolding become_leader
  vote-become_leader e none = vote-start_leading e (new_leader env e.state)
  vote-become_leader e (some leader) =
      by_order (l.partial_cmp leader.committed_vote.leader_id e.state.vote.leader_id) refl
    where
      by_order :
          (order : Option Ordering)
          → l.partial_cmp leader.committed_vote.leader_id e.state.vote.leader_id ≡ order
          → (become_leader env e (some leader)).state.vote ≡ e.state.vote
      by_order (some Ordering.eq) q =
          rw (become_leader, q)
            (vote-update_server_state (record e {
              leader = some (record leader {
                committed_vote = record { leader_id = e.state.vote.leader_id };
              });
            }))
      by_order (some Ordering.lt) q =
          rw (become_leader, q) (vote-start_leading e (new_leader env e.state))
      by_order (some Ordering.gt) q =
          rw (become_leader, q) (vote-start_leading e (new_leader env e.state))
      by_order none q = rw (become_leader, q) (vote-start_leading e (new_leader env e.state))

  vote-update_internal_server_state :
      (e : Engine LID CLID Mem P CP V)
      → (update_internal_server_state env e).state.vote ≡ e.state.vote
  unfolding update_internal_server_state
  vote-update_internal_server_state e = elim (Bool-cases (is_leader e.state e.config.id)) [
    | inl q ↦ rw q (vote-become_leader e e.leader)
    | inr q ↦ elim (Bool-cases (is_leading e.state e.config.id)) [
      | inl r ↦ rw (q, r) refl
      | inr r ↦ rw (q, r) (vote-become_following e)
    ]
  ]

  pub vote-take_vote :
      (e : Engine LID CLID Mem P CP V) (vote : Vote LID)
      → ge vote e.state.vote ≡ true
      → (take_vote env e vote).state.vote ≡ vote
  unfolding take_vote
  vote-take_vote e vote h = elim (Bool-cases (is_gt (partial_cmp vote e.state.vote))) [
    | inl q ↦ rw q (vote-grant e.state vote)
    | inr q ↦ rw q (sym (eq_of_ge vote e.state.vote h q))
  ]

  -- A vote that is at least the node's own is taken, and any other leaves the engine as it is.
  pub update_vote_lem :
      (e : Engine LID CLID Mem P CP V) (vote : Vote LID)
      → ((ge vote e.state.vote ≡ true)
          × ((update_vote env e vote).1 ≡ true)
          × ((update_vote env e vote).0.state.vote ≡ vote))
        ⊎ ((ge vote e.state.vote ≡ false) × (update_vote env e vote ≡ (e, false)))
  unfolding update_vote
  update_vote_lem e vote = elim (Bool-cases (ge vote e.state.vote)) [
    | inl q ↦ inl (
      q,
      rw q refl,
      rw q (vote-update_internal_server_state (take_vote env e vote) ∙ vote-take_vote e vote q),
    )
    | inr q ↦ inr (q, rw q refl)
  ]
