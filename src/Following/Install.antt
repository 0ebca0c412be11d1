-- ===== src/Following/Install.antt =====
-- openraft/src/engine/handler/following_handler/mod.rs: what `install_full_snapshot` does on each
-- branch.
use openraft.Prelude.{Bool, ◌≡◌, ◌⊎◌, true, false, Option, none, some, ◌&&◌}
use openraft.Prelude.Ord.{Ord}
use openraft.LogId.{LogId}
use openraft.Vote.LeaderId.{RaftLeaderId}
use openraft.IoState.Committed.{at_most}
use openraft.Membership.{RaftMembership}
use openraft.MembershipState.{log_id_le}
use openraft.RaftState.{SnapshotMeta, local_committed}
use openraft.Following.{Following}
use openraft.Following.Snapshot.{is_above_committed}

module _ {LID CLID Mem : Type 0} ⦃l : RaftLeaderId LID⦄ ⦃o : Ord CLID⦄
    ⦃m : RaftMembership Mem⦄ where
  -- what a snapshot that is installed up to `k` has done
  pub record IsInstalled (to_committed : LID → CLID) (h h_new : Following LID CLID Mem)
      (k : LogId CLID) : Type 0 where
    pub committed : local_committed h_new.state ≡ some k
    pub newer : log_id_le (some k) (local_committed h.state) ≡ false
    pub above : is_above_committed k (local_committed h.state) ≡ true
    pub by_leader : at_most (o.cmp k.leader_id (to_committed h.leader_vote.leader_id)) ≡ true

  -- the assertions about a snapshot up to `k`
  abbrev pub passes : (LID → CLID) → Following LID CLID Mem → LogId CLID → Bool
  passes to_committed h k =
      at_most (o.cmp k.leader_id (to_committed h.leader_vote.leader_id))
      && is_above_committed k (local_committed h.state)

  -- the answers, each under its condition: nothing newer to install, a failed assertion, a snapshot
  -- that the node has already, or an installed one
  abbrev pub IsAnswer :
      (LID → CLID)
      → Following LID CLID Mem
      → SnapshotMeta CLID Mem
      → Option (Following LID CLID Mem × Option (LogId CLID))
      → Type 0
  IsAnswer to_committed h meta answer =
      ((log_id_le meta.last_log_id (local_committed h.state) ≡ true) × (answer ≡ some (h, none)))
      ⊎ ((k : LogId CLID) × (meta.last_log_id ≡ some k)
          × (log_id_le (some k) (local_committed h.state) ≡ false)
          × (((passes to_committed h k ≡ false) × (answer ≡ none))
              ⊎ (((passes to_committed h k ≡ true)
                    × (log_id_le meta.last_log_id h.state.snapshot_meta.last_log_id ≡ true)
                    × (answer ≡ some (h, none)))
                  ⊎ ((log_id_le meta.last_log_id h.state.snapshot_meta.last_log_id ≡ false)
                      × ((h_new : Following LID CLID Mem) × (answer ≡ some (h_new, some k))
                          × IsInstalled to_committed h h_new k)))))
