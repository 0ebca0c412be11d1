-- ===== src/RaftState/Log.antt =====
-- openraft/src/raft_state/mod.rs: what the state answers of its log, and how commits move it on.
use openraft.Prelude.{
  ℕ, suc, ◌≡◌, ◌⊎◌, ap, refl, true, false, Option, none, some, List, [], ◌∷◌, arith, inl, inr,
  Bool-cases, take, length, get_elem?, All,
}
use openraft.Prelude.Ord.{Ord}
use openraft.LogId.{LogId}
use openraft.Vote.LeaderId.{RaftLeaderId}
use openraft.IoState.Ids.{LogIoId, log_io_id_order}
use openraft.MembershipState.{log_id_le, log_id_lt}
use openraft.IoState.PartialOrd.{option_le}
use openraft.IoState.Monotonic.{try_update_le}
use openraft.IoState.Committed.{calculate_local_committed}
use openraft.MembershipState.Valid
use openraft.MembershipState.Valid.{log_id_le_refl, log_id_lt-not}
use openraft.MembershipState.Recent.{Entry, entry_log_id}
use openraft.RaftState.{
  RaftState, first_conflicting_index, has_log_id, update_committed, update_local_committed,
  commit_to, local_committed, set_cluster_committed, set_apply_accepted,
}

module _ {LID CLID Mem : Type 0} ⦃o : Ord CLID⦄ where
  -- `i` is the position of the first of the entries that the state does not have
  abbrev pub IsFirst : RaftState LID CLID Mem → List (Entry CLID Mem) → ℕ → Type 0
  IsFirst s entries i =
      All (λ ent. has_log_id s (entry_log_id ent) ≡ true) (take i entries)
      × ((i ≡ length entries)
          ⊎ ((ent : Entry CLID Mem) × (get_elem? entries i ≡ some ent)
              × (has_log_id s (entry_log_id ent) ≡ false)))

  -- The state has every entry before the first conflicting one, and not that one; if there is
  -- none, it has all of them.
  pub first_conflicting_index_lem :
      (s : RaftState LID CLID Mem) (entries : List (Entry CLID Mem))
      → IsFirst s entries (first_conflicting_index s entries)
  unfolding first_conflicting_index
  first_conflicting_index_lem s [] = (tt, inl refl)
  first_conflicting_index_lem s (ent ∷ entries) =
      elim (Bool-cases (has_log_id s (entry_log_id ent))) [
        | inl e ↦ rw e (has e (first_conflicting_index_lem s entries))
        | inr e ↦ rw e (tt, inr (ent, refl, e))
      ]
    where
      has :
          has_log_id s (entry_log_id ent) ≡ true
          → IsFirst s entries (first_conflicting_index s entries)
          → IsFirst s (ent ∷ entries) (suc (first_conflicting_index s entries))
      has e (all, inl whole) = ((e, all), inl (ap suc whole))
      has e (all, inr more) = ((e, all), inr more)

  pub update_local_committed_le :
      (s : RaftState LID CLID Mem) (c : Option (LogId CLID))
      → log_id_le (local_committed s) (local_committed (update_local_committed s c)) ≡ true
  unfolding update_local_committed commit_to set_apply_accepted
  update_local_committed_le s none = ground (arith, log_id_le_refl (local_committed s))
  update_local_committed_le s (some c) = ground (arith, log_id_le_refl (local_committed s))

  -- a commit goes up to the log id that is given, or the local one is at least it
  pub update_local_committed-cases :
      (s : RaftState LID CLID Mem) (c : Option (LogId CLID))
      → (local_committed (update_local_committed s c) ≡ c)
        ⊎ ((log_id_le c (local_committed s) ≡ true)
            × (local_committed (update_local_committed s c) ≡ local_committed s))
  unfolding update_local_committed commit_to set_apply_accepted
  update_local_committed-cases s none = ground (arith, log_id_lt-not (local_committed s) none)
  update_local_committed-cases s (some c) =
      elim (Bool-cases (log_id_lt (local_committed s) (some c))) [
        | inl e ↦ inl (rw (update_local_committed, e) refl)
        | inr e ↦ inr (
          ground (arith, e, log_id_lt-not (local_committed s) (some c)),
          rw (update_local_committed, e) refl,
        )
      ]

  -- A commit leaves the membership state valid.
  update_local_committed-IsValid :
      (s : RaftState LID CLID Mem) (c : Option (LogId CLID))
      → Valid.IsValid s.membership_state
      → Valid.IsValid (update_local_committed s c).membership_state
  unfolding update_local_committed commit_to set_apply_accepted
  update_local_committed-IsValid s none h = ground (arith, h)
  update_local_committed-IsValid s (some c) h =
      elim (Bool-cases (log_id_lt (local_committed s) (some c))) [
        | inl e ↦ rw e (Valid.commit-IsValid s.membership_state (some c) h).0
        | inr e ↦ rw e h
      ]

  pub cluster_committed-update_local_committed :
      (s : RaftState LID CLID Mem) (c : Option (LogId CLID))
      → (update_local_committed s c).io_state.cluster_committed ≡ s.io_state.cluster_committed
  unfolding update_local_committed commit_to set_apply_accepted
  cluster_committed-update_local_committed s none =
      elim (Bool-cases (log_id_lt (local_committed s) none)) [ inl e ↦ rw e | inr e ↦ rw e ]
  cluster_committed-update_local_committed s (some c) =
      elim (Bool-cases (log_id_lt (local_committed s) (some c))) [ inl e ↦ rw e | inr e ↦ rw e ]

module _ {LID CLID Mem : Type 0} ⦃l : RaftLeaderId LID⦄ ⦃o : Ord CLID⦄
    (to_committed : LID → CLID) where
  -- Whatever the leader reports as committed, the local and the cluster's committed log ids never go
  -- back, and the membership state stays valid.
  pub update_committed_lem :
      (s : RaftState LID CLID Mem) (cluster : LogIoId LID CLID)
      → Valid.IsValid s.membership_state
      → (log_id_le (local_committed s) (local_committed (update_committed to_committed s cluster))
          ≡ true)
        × (option_le s.io_state.cluster_committed.value
              (update_committed to_committed s cluster).io_state.cluster_committed.value
            ≡ true)
        × Valid.IsValid (update_committed to_committed s cluster).membership_state
  unfolding update_committed set_cluster_committed
  update_committed_lem s cluster h = (
    update_local_committed_le _ _,
    rw
        (cluster_committed-update_local_committed (set_cluster_committed s cluster)
          (calculate_local_committed to_committed (set_cluster_committed s cluster).io_state))
        (try_update_le s.io_state.cluster_committed cluster),
    update_local_committed-IsValid _ _ h,
  )
