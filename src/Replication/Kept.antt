-- ===== src/Replication/Kept.antt =====
-- openraft/src/engine/handler/leader_handler/mod.rs: what replicating entries leaves of the log.
use openraft.Prelude.{
  ℕ, suc, ◌≡◌, ◌∙◌, refl, false, Option, none, some, List, [], ◌∷◌, Bool-cases, inl, inr, ◌==◌,
}
use openraft.Prelude.Ord.{Ord}
use openraft.LogId.{LogId}
use openraft.LogIdList.Leaders.{extend_from_same_leader}
use openraft.LeaderLogIds.{LeaderLogIds, into_iter, collect}
use openraft.Vote.LeaderId.{RaftLeaderId}
use openraft.IoState.Ids.{IoId, CommittedVote, log_io}
use openraft.MembershipState as MembershipStates
use openraft.MembershipState.Recent.{Entry}
use openraft.Membership.{RaftMembership, receives_logs}
use openraft.RaftState.{new_inflight_id, RaftState, accept_log_io}
use openraft.Progress.Entry.{ProgressEntry}
use openraft.Progress.Send.{next_send}
use openraft.Progress.Inflight.{is_none}
use openraft.VecProgress.{VecProgress, ClockProgress, ProgressItem}
use openraft.Leader.{QuorumMembership}
use openraft.Following.Matching.{accept_log_io_lem}
use openraft.Replication.{Replication, push_command, append_command, max_entries_per_probe}
use openraft.Replication.Streams.{
  send_each, initiate_replication, append_found, rebuild_progresses, rebuild_streams,
  append_assigned, zip_entries, membership_entry,
}

-- a part of the state that does not depend on the inflight id, which alone sending changes
abbrev pub IsStill : {LID CLID Mem A : Type 0} → (RaftState LID CLID Mem → A) → Type 0
IsStill {LID} {CLID} {Mem} part =
    (s : RaftState LID CLID Mem) (id : ℕ) → part (record s { last_inflight_id = id }) ≡ part s

next_send-still :
    {LID CLID Mem A : Type 0} ⦃o : Ord CLID⦄ (part : RaftState LID CLID Mem → A)
    (s : RaftState LID CLID Mem) (item : ProgressEntry CLID) (max_entries : ℕ)
    → IsStill part
    → part (next_send s item max_entries).0 ≡ part s
unfolding next_send new_inflight_id
next_send-still part s item max_entries still =
    elim (Bool-cases (is_none item.progress_data.inflight)) [
      | inl e ↦ rw e (still s (suc s.last_inflight_id))
      | inr e ↦ rw e refl
    ]

module _ {LID CLID Mem A : Type 0} ⦃o : Ord CLID⦄ ⦃m : RaftMembership Mem⦄
    (part : RaftState LID CLID Mem → A) where
  pub send_each-still :
      (id : ℕ) (leader_vote : CommittedVote LID) (membership : Mem) (s : RaftState LID CLID Mem)
      (items : List (ProgressEntry CLID))
      → IsStill part
      → part (send_each id leader_vote membership s items).0 ≡ part s
  unfolding send_each
  send_each-still id leader_vote membership s [] still = refl
  send_each-still id leader_vote membership s (item ∷ items) still =
      elim (Bool-cases (item.id == id)) [
        | inl e ↦ rw e (send_each-still id leader_vote membership s items still)
        | inr e ↦ elim (Bool-cases (receives_logs membership item.id)) [
          | inl f ↦
              rw (e, f)
                (send_each-still id leader_vote membership
                    (next_send s item max_entries_per_probe).0 items still
                  ∙ next_send-still part s item max_entries_per_probe still)
          | inr f ↦ rw (e, f) (send_each-still id leader_vote membership s items still)
        ]
      ]

module _ {LID CLID Mem P CP : Type 0} ⦃l : RaftLeaderId LID⦄ ⦃o : Ord CLID⦄ ⦃m : RaftMembership Mem⦄
    ⦃n : QuorumMembership Mem⦄ ⦃t : ProgressItem (ProgressEntry CLID) (Option (LogId CLID))⦄
    ⦃v : VecProgress P (ProgressEntry CLID) (Option (LogId CLID))⦄ ⦃c : ClockProgress CP⦄ where
  -- what the steps after the log is extended leave as it is
  abbrev KeepsLog : Replication LID CLID Mem P CP → Replication LID CLID Mem P CP → Type 0
  KeepsLog h h' =
      (h'.state.log_ids ≡ h.state.log_ids) × (h'.leader.last_log_id ≡ h.leader.last_log_id)

  initiate_replication-KeepsLog :
      (h : Replication LID CLID Mem P CP) → KeepsLog h (initiate_replication h)
  unfolding initiate_replication
  initiate_replication-KeepsLog h = (
    send_each-still (λ s. s.log_ids) h.config.id h.leader.committed_vote
        h.state.membership_state.effective.membership h.state (v.iter h.leader.progress)
        (λ s id. refl),
    refl,
  )

  append_found-KeepsLog :
      (stream_ids : ℕ → ℕ) (h : Replication LID CLID Mem P CP) (found : Option (LogId CLID × Mem))
      → KeepsLog h (append_found stream_ids h found)
  unfolding append_found rebuild_streams rebuild_progresses
  append_found-KeepsLog stream_ids h none = (refl, refl)
  append_found-KeepsLog stream_ids h (some found) =
      initiate_replication-KeepsLog
        (rebuild_streams (rebuild_progresses stream_ids (record h { state = appended })) false)
    where
      appended : RaftState LID CLID Mem
      appended = record h.state {
        membership_state =
            MembershipStates.append h.state.membership_state
              (record { log_id = some found.0; membership = found.1 });
      }

  pub append_assigned-KeepsLog :
      (stream_ids : ℕ → ℕ) (h : Replication LID CLID Mem P CP) (payloads : List (Option Mem))
      (ids : LeaderLogIds CLID)
      → ((append_assigned stream_ids h payloads ids).state.log_ids
          ≡ extend_from_same_leader h.state.log_ids (collect (into_iter ids)))
        × ((append_assigned stream_ids h payloads ids).leader.last_log_id ≡ h.leader.last_log_id)
  unfolding append_assigned accept_log_io
  append_assigned-KeepsLog stream_ids h payloads ids = (
    (initiate_replication-KeepsLog (append_found stream_ids pushed found)).0
        ∙ (append_found-KeepsLog stream_ids pushed found).0
        ∙ (accept_log_io_lem extended io).0,
    (append_found-KeepsLog stream_ids pushed found).1,
  )
    where
      entries : List (Entry CLID Mem)
      entries = zip_entries payloads (collect (into_iter ids))

      found : Option (LogId CLID × Mem)
      found = membership_entry entries

      io : IoId LID CLID
      io =
          log_io
            (record { committed_vote = h.leader.committed_vote; log_id = h.leader.last_log_id })

      extended : RaftState LID CLID Mem
      extended = record h.state {
        log_ids = extend_from_same_leader h.state.log_ids (collect (into_iter ids));
      }

      pushed : Replication LID CLID Mem P CP
      pushed =
          push_command (record h { state = (accept_log_io extended io).0 })
            (append_command h.leader.committed_vote entries)
