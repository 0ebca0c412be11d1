-- ===== src/Replication/Commit.antt =====
-- openraft/src/engine/handler/replication_handler/mod.rs: what a leader commits.
use openraft.Prelude.{
  ℕ, ◌≡◌, ◌⊎◌, ◌∙◌, ap, refl, true, Option, some, arith, inl, inr, Bool-cases, Option-cases,
}
use openraft.Prelude.Ord.{Ord}
use openraft.LogId.{LogId}
use openraft.Vote.LeaderId.{RaftLeaderId}
use openraft.IoState.Ids.{LogIoId, log_io_id_order}
use openraft.IoState.PartialOrd.{option_le, option_gt}
use openraft.IoState.Monotonic.{MonotonicIncrease, try_update, try_update_le}
use openraft.MembershipState.{log_id_le}
use openraft.RaftState.{RaftState, local_committed, set_cluster_committed, update_local_committed}
use openraft.RaftState.Log.{
  cluster_committed-update_local_committed, update_local_committed_le, update_local_committed-cases,
}
use openraft.Progress.Entry.{ProgressEntry}
use openraft.Progress.Update as Updates
use openraft.VecProgress.{VecProgress, ProgressItem, reached}
use openraft.Replication.{
  Replication, commit_accepted, try_commit_quorum_accepted, update_matching, is_of_leader,
  set_progress,
}

module _ {LID CLID : Type 0} ⦃l : RaftLeaderId LID⦄ ⦃o : Ord CLID⦄ where
  try_update-cases :
      (s : MonotonicIncrease (LogIoId LID CLID)) (x : LogIoId LID CLID)
      → ((try_update s x).0 ≡ s) ⊎ ((try_update s x).0.value ≡ some x)
  unfolding try_update
  try_update-cases s x = elim (Bool-cases (option_gt (some x) s.value)) [
    | inl e ↦ inr (rw e refl)
    | inr e ↦ inl (rw e refl)
  ]

module _ {LID CLID Mem P CP : Type 0} ⦃l : RaftLeaderId LID⦄ ⦃o : Ord CLID⦄ where
  -- what the present leader would report as committed
  abbrev io_of : Replication LID CLID Mem P CP → Option (LogId CLID) → LogIoId LID CLID
  io_of h granted = record {
    committed_vote = record { leader_id = h.state.vote.leader_id };
    log_id = granted;
  }

  -- Neither the cluster's nor the local committed log id goes back, and each becomes what is granted,
  -- the cluster's as of the present leader, or stays; the local one stays only if it is at least that.
  pub record Commits (h h' : Replication LID CLID Mem P CP) (granted : Option (LogId CLID))
      : Type 0 where
    pub local_le : log_id_le (local_committed h.state) (local_committed h'.state) ≡ true
    pub local :
        (local_committed h'.state ≡ granted)
        ⊎ ((log_id_le granted (local_committed h.state) ≡ true)
            × (local_committed h'.state ≡ local_committed h.state))
    pub cluster_le :
        option_le h.state.io_state.cluster_committed.value h'.state.io_state.cluster_committed.value
        ≡ true
    pub cluster :
        (h'.state.io_state.cluster_committed ≡ h.state.io_state.cluster_committed)
        ⊎ (h'.state.io_state.cluster_committed.value ≡ some (io_of h granted))

  commit_accepted-state :
      (h : Replication LID CLID Mem P CP) (granted : Option (LogId CLID))
      → (commit_accepted h granted).state
        ≡ update_local_committed (set_cluster_committed h.state (io_of h granted)) granted
  unfolding commit_accepted
  commit_accepted-state h granted = ground arith

  commit_accepted-leader :
      (h : Replication LID CLID Mem P CP) (granted : Option (LogId CLID))
      → (commit_accepted h granted).leader ≡ h.leader
  unfolding commit_accepted
  commit_accepted-leader h granted = ground arith

  commit_accepted-Commits :
      (h : Replication LID CLID Mem P CP) (granted : Option (LogId CLID))
      → Commits h (commit_accepted h granted) granted
  unfolding set_cluster_committed
  commit_accepted-Commits h granted = record {
    local_le = rw (commit_accepted-state h granted) (update_local_committed_le updated granted);
    local = rw (commit_accepted-state h granted) (update_local_committed-cases updated granted);
    cluster_le = rw same (try_update_le h.state.io_state.cluster_committed (io_of h granted));
    cluster = rw same (try_update-cases h.state.io_state.cluster_committed (io_of h granted));
  }
    where
      updated : RaftState LID CLID Mem
      updated = set_cluster_committed h.state (io_of h granted)

      same :
          (commit_accepted h granted).state.io_state.cluster_committed
          ≡ (try_update h.state.io_state.cluster_committed (io_of h granted)).0
      same =
          ap (λ s. s.io_state.cluster_committed) (commit_accepted-state h granted)
          ∙ cluster_committed-update_local_committed updated granted

-- `granted` is accepted by the progress `p`: it was before, or a quorum of its entries reach it
abbrev pub IsAccepted :
    {CLID P : Type 0} ⦃t : ProgressItem (ProgressEntry CLID) (Option (LogId CLID))⦄
    ⦃v : VecProgress P (ProgressEntry CLID) (Option (LogId CLID))⦄
    → P
    → P
    → Option (LogId CLID)
    → Type 0
IsAccepted ⦃t⦄ ⦃v⦄ old p granted =
    (v.quorum_accepted p ≡ granted)
    × ((granted ≡ v.quorum_accepted old)
        ⊎ ((v.quorum_set p).is_quorum (reached granted (v.iter p)) ≡ true))

module _ {LID CLID Mem P CP : Type 0} ⦃l : RaftLeaderId LID⦄ ⦃o : Ord CLID⦄
    ⦃t : ProgressItem (ProgressEntry CLID) (Option (LogId CLID))⦄
    ⦃v : VecProgress P (ProgressEntry CLID) (Option (LogId CLID))⦄ (to_committed : LID → CLID) where
  -- A response of a node leaves the committed log ids as they are, or they go up to a log id of the
  -- present leader that the progress accepts: one that a quorum of the nodes has reached with this
  -- response, or that the progress had accepted before it. The local one stays where it is at least
  -- that log id already.
  pub update_matching-Commits :
      (h : Replication LID CLID Mem P CP) (node_id : ℕ) (log_id : Option (LogId CLID))
      (inflight_id : Option ℕ)
      → ((update_matching to_committed h node_id log_id inflight_id).state ≡ h.state)
        ⊎ ((granted : Option (LogId CLID)) × IsAccepted h.leader.progress
              (update_matching to_committed h node_id log_id inflight_id).leader.progress
              granted
            × (is_of_leader (to_committed h.state.vote.leader_id) granted ≡ true)
            × Commits h (update_matching to_committed h node_id log_id inflight_id) granted)
  unfolding update_matching try_commit_quorum_accepted
  update_matching-Commits h node_id log_id inflight_id = elim (Option-cases updated) [
    | inl e ↦ inl (rw (update_matching, e) refl)
    | inr (p, e) ↦
        elim (Bool-cases
          (is_of_leader (to_committed h.state.vote.leader_id) (v.quorum_accepted p))) [
            | inl f ↦ inr (
              v.quorum_accepted p,
              rw
                  (
                    update_matching,
                    e,
                    f,
                    commit_accepted-leader (set_progress h p) (v.quorum_accepted p),
                  )
                  (refl, v.quorum_accepted-update h.leader.progress node_id update e),
              f,
              rw (update_matching, e, f) (unchanged p),
            )
            | inr f ↦ inl (rw (update_matching, e, f) refl)
          ]
  ]
    where
      update : ProgressEntry CLID → ProgressEntry CLID
      update entry = Updates.update_matching entry log_id inflight_id

      updated : Option P
      updated = v.update_entry_with h.leader.progress node_id update

      unchanged :
          (p : P)
          → Commits h
              (commit_accepted (set_progress h p) (v.quorum_accepted p))
              (v.quorum_accepted p)
      unchanged p =
          let c = commit_accepted-Commits (set_progress h p) (v.quorum_accepted p) in
          record {
            local_le = c.local_le;
            local = c.local;
            cluster_le = c.cluster_le;
            cluster = c.cluster;
          }
