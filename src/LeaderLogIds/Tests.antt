-- ===== src/LeaderLogIds/Tests.antt =====
-- Tests of the ranges of log ids.
use openraft.Prelude.{ℕ, ◌≡◌, refl, ◌∷◌, []}
use openraft.LeaderLogIds.{LeaderLogIds, into_iter, collect}
use openraft.RaftState.Fixtures.{id}

abbrev range : LeaderLogIds ℕ
range = record { committed_leader_id = 2; first = 3; last = 5 }

collect_range : collect (into_iter range) ≡ id 2 3 ∷ id 2 4 ∷ id 2 5 ∷ []
unfolding collect into_iter
collect_range = refl
