-- ===== src/RaftState/Tests.antt =====
-- The follower of Fixtures: what it has, what commits do, and the server states of its nodes.
use openraft.Prelude.{ℕ, ◌≡◌, refl, true, none, some, List, [], ◌∷◌}
use openraft.Prelude.Ord.{nat_ord}
use openraft.LogId.{cmp_log_id}
use openraft.Vote.LeaderId.{std_leader_id}
use openraft.IoState.PartialOrd.{option_le}
use openraft.IoState.Ids.{log_io_id_order}
use openraft.MembershipState.{log_id_le}
use openraft.MembershipState.Valid as Valid
use openraft.MembershipState.Recent.{Entry, entry}
use openraft.RaftState.{first_conflicting_index, update_committed, local_committed}
use openraft.RaftState.Log.{update_committed_lem}
use openraft.RaftState.Fixtures.{id, node, log_io_id, term_of, memberships, numbered}

-- the second entry conflicts: the log at 4 is of the leader of term 2
abbrev entries : List (Entry ℕ ℕ)
entries = entry (id 2 3) none ∷ entry (id 3 4) none ∷ entry (id 3 5) none ∷ []

conflict_at : first_conflicting_index node entries ≡ 1
unfolding first_conflicting_index cmp_log_id
conflict_at = refl

update_committed_lem_example :
    (log_id_le
        (local_committed node)
        (local_committed (update_committed term_of node (log_io_id 2 1 (some (id 2 4)))))
      ≡ true)
    × (option_le node.io_state.cluster_committed.value
          (update_committed term_of node
            (log_io_id 2 1 (some (id 2 4)))).io_state.cluster_committed.value
        ≡ true)
    × Valid.IsValid (update_committed term_of node (log_io_id 2 1 (some (id 2 4)))).membership_state
update_committed_lem_example =
    update_committed_lem term_of node (log_io_id 2 1 (some (id 2 4))) valid
  where
    valid : Valid.IsValid memberships
    valid = unfold cmp_log_id in record { log_id_ordered = refl; index_ordered = refl }
