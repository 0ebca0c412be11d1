-- ===== src/Following/Tests.antt =====
-- The follower of Fixtures follows the leader of term 3.
use openraft.Prelude.{ℕ, ◌≡◌, refl, none, some, List, [], ◌∷◌, arith, map}
use openraft.Prelude.Ord.{nat_ord}
use openraft.LogId.{cmp_log_id}
use openraft.LogIdList.{first_index, get}
use openraft.Vote.LeaderId.{Std, std_leader_id, compare_std}
use openraft.Vote.{partial_cmp}
use openraft.IoState.Ids.{partial_cmp_io}
use openraft.MembershipState.Recent.{Entry, entry, entry_log_id}
use openraft.RaftState.{SnapshotMeta}
use openraft.Following.{Following, append_entries}
use openraft.Following.Matching.{Matches, append_entries-Matches}
use openraft.RaftState.Fixtures.{id, node, log, log-IsValid, committed_vote, numbered, stored}

abbrev handler : Following Std ℕ ℕ
handler = record { leader_vote = committed_vote 3 2; id = 1; state = node; output = [] }

abbrev entries : List (Entry ℕ ℕ)
entries = entry (id 3 5) none ∷ entry (id 3 6) (some 4) ∷ []

append_entries-Matches_example :
    Matches log
      (append_entries handler (some (id 2 4)) entries).state.log_ids
      (some (id 2 4))
      (map entry_log_id entries)
unfolding get first_index cmp_log_id
append_entries-Matches_example =
    append_entries-Matches handler (some (id 2 4)) entries log-IsValid (ground arith) (λ h. refl)
      (refl, refl, (refl, refl, tt)) ((λ h. ground arith), ((λ h. ground arith), tt))

abbrev meta : SnapshotMeta ℕ ℕ
meta = record { last_log_id = some (id 3 9); last_membership = stored 3 8 4 }

appended :
    (append_entries handler (some (id 2 3)) (entry (id 3 4) none ∷ [])).state.log_ids.key_log_ids
    ≡ id 1 2 ∷ id 2 3 ∷ id 3 4 ∷ []
unfolding append_entries cmp_log_id partial_cmp_io partial_cmp std_leader_id compare_std
appended = refl
