-- ===== src/Replication/Tests.antt =====
-- The leader of Engine/Fixtures.antt hears from its nodes, appends entries and purges its log.
use openraft.Prelude.{
  ℕ, ◌≡◌, ◌⊎◌, ◌↔◌, ◌+◌, ◌≤◌, ◌<◌, refl, true, false, Option, none, some, [], ◌∷◌,
}
use openraft.Prelude.Ord.{nat_ord}
use openraft.LogId.{LogId, next_index, cmp_log_id}
use openraft.LogIdList.{get, last}
use openraft.LeaderLogIds.{LeaderLogIds, collect, into_iter}
use openraft.Vote.LeaderId.{Std, std_leader_id}
use openraft.MembershipState.{log_id_le}
use openraft.RaftState.{RaftState}
use openraft.Replication.{
  max_u64, Config, last_purged, calc_purge_upto, try_purge_log, update_matching, is_of_leader,
}
use openraft.Replication.Purge.{
  calc_purge_upto-le, calc_purge_upto-eq-none, try_purge_log_lem, IsFree, MayNotPurge, Purges,
}
use openraft.Replication.Commit.{update_matching-Commits, IsAccepted, Commits}
use openraft.Replication.Hint.{ConflictHint}
use openraft.Replication.Streams.{leader_append_entries}
use openraft.Replication.Appended.{leader_append_entries-Appends, Appends}
use openraft.RaftState.Fixtures.{id, node, log, log-IsValid, stored, numbered, term_of}
use openraft.Engine.Fixtures.{config, leading, vec_progress, clock_progress, two_voters, entry_item}

-- the node with a snapshot up to log 3
abbrev with_snapshot : RaftState Std ℕ ℕ
with_snapshot = record node {
  snapshot_meta = record { last_log_id = some (id 2 3); last_membership = stored 1 0 2 };
}

calc_purge_upto-le_example : (get log 2 ≡ some (id 1 2)) × (0 + 1 ≤ 3) × (3 + 1 ≤ 4)
unfolding get calc_purge_upto
calc_purge_upto-le_example = calc_purge_upto-le config with_snapshot {x = id 1 2} log-IsValid refl

-- a batch of no logs
abbrev no_batch : Config
no_batch = record config { purge_batch_size = 0 }

calc_purge_upto-eq-none_example : (calc_purge_upto no_batch node ≡ none) ↔ (
    (max_u64 < 0)
    ⊎ ((no_batch.purge_batch_size ≡ 0) × (next_index (last_purged node) ≡ 0) × (0 ≤ 1)))
calc_purge_upto-eq-none_example = calc_purge_upto-eq-none no_batch node

try_purge_log_lem_example :
    (MayNotPurge leading × (try_purge_log leading ≡ leading))
    ⊎ ((upto : LogId ℕ) × (some (id 1 1) ≡ some upto)
        × (log_id_le (some upto) none ≡ false)
        × IsFree upto (vec_progress.iter leading.leader.progress)
        × Purges leading (try_purge_log leading) upto)
try_purge_log_lem_example = try_purge_log_lem leading log-IsValid

-- node 2 has the logs up to 3
update_matching-Commits_example :
    ((update_matching term_of leading 2 (some (id 2 3)) none).state ≡ leading.state)
    ⊎ ((granted : Option (LogId ℕ)) × IsAccepted leading.leader.progress
          (update_matching term_of leading 2 (some (id 2 3)) none).leader.progress
          granted
        × (is_of_leader 2 granted ≡ true)
        × Commits leading (update_matching term_of leading 2 (some (id 2 3)) none) granted)
update_matching-Commits_example = update_matching-Commits term_of leading 2 (some (id 2 3)) none

abbrev hint : ConflictHint ℕ
hint = record { log_ids = id 1 1 ∷ id 2 7 ∷ [] }

-- an entry of the application, and a membership
leader_append_entries-Appends_example :
    (ids : LeaderLogIds ℕ) × ((leader_append_entries term_of
        (λ k. k)
        leading
        (none ∷ some 2 ∷ [])).1
      ≡ some ids)
    × Appends term_of leading
        (leader_append_entries term_of (λ k. k) leading (none ∷ some 2 ∷ [])).0
        2
        (collect (into_iter ids))
unfolding last cmp_log_id
leader_append_entries-Appends_example =
    leader_append_entries-Appends term_of (λ k. k) leading none (some 2 ∷ []) log-IsValid refl refl
