-- ===== src/Vote/Tests.antt =====
-- The order of votes at concrete votes of `leader_id_std`.
use openraft.Prelude.{ℕ, ◌≡◌, refl, true, false, none, some, gt}
use openraft.Vote.LeaderId.{Std, std_leader_id, compare_std}
use openraft.Vote.{Vote, partial_cmp}

abbrev vote : ℕ → ℕ → Vote Std
vote t n = record { leader_id = record { term = t; voted_for = n }; committed = false }

abbrev granted : ℕ → ℕ → Vote Std
granted t n = record { leader_id = record { term = t; voted_for = n }; committed = true }

-- `test_vote_partial_order`: a committed vote is above a candidate of its term.
committed_above : partial_cmp (granted 2 1) (vote 2 2) ≡ some gt
unfolding partial_cmp compare_std std_leader_id
committed_above = refl

candidates_incomparable : partial_cmp (vote 2 2) (vote 2 3) ≡ none
unfolding partial_cmp compare_std std_leader_id
candidates_incomparable = refl
