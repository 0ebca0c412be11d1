-- ===== src/Engine/Tests.antt =====
-- The node of Engine/Fixtures.antt answers node 2, which asks for the vote of term 3.
use openraft.Prelude.{
  ℕ, ap, ◌≡◌, ◌⊎◌, refl, true, false, some, List, [], ◌∷◌, none, arith, inl, inr, Bool-cases, subst,
  sym,
}
use openraft.Prelude.Ord.{nat_ord, is_eq}
use openraft.LogId.{cmp_log_id}
use openraft.IoState.Ids.{partial_cmp_io}
use openraft.Vote.{Vote, ge, new}
use openraft.Vote.LeaderId.{Std, std_leader_id, compare_std}
use openraft.Quorum.{contains, shares}
use openraft.MembershipState.{log_id_le}
use openraft.RaftState.{last_log_id}
use openraft.Candidate.{election_quorum_set, new_candidate}
use openraft.Engine.{Engine}
use openraft.Engine.Elections.{handle_vote_req, handle_pre_vote_req, do_elect, next_vote}
use openraft.Engine.Campaign.{do_elect-next_vote}
use openraft.Engine.Answers.{handle_vote_req_lem, handle_pre_vote_req-eq-handle_vote_req, MayVote}
use openraft.Engine.Moves.{Run, here, next, answers, IsChain, Run-IsChain}
use openraft.Engine.Safety.{count_all, HaveGranted, Intersect, one_winner_of_term}
use openraft.RaftState.Fixtures.{id, std, numbered}
use openraft.Engine.Fixtures.{
  vec_progress, clock_progress, entry_item, two_voters, tally, env, engine, request, Vec, Clock,
  Votes,
}

abbrev answered : Engine Std ℕ ℕ Vec Clock Votes
answered = (handle_vote_req env engine request).0

handle_vote_req_lem_example :
    (((handle_vote_req env engine request).1.vote_granted ≡ true)
      × MayVote env engine request
      × (log_id_le (last_log_id engine.state) (some (id 2 4)) ≡ true)
      × (ge request.vote engine.state.vote ≡ true)
      × (answered.state.vote ≡ request.vote)
      × ((handle_vote_req env engine request).1.vote ≡ request.vote))
    ⊎ (((handle_vote_req env engine request).1.vote_granted ≡ false) × (answered ≡ engine))
handle_vote_req_lem_example = handle_vote_req_lem env engine request

handle_pre_vote_req-eq-handle_vote_req_example :
    (handle_pre_vote_req env engine request).vote_granted
    ≡ (handle_vote_req env engine request).1.vote_granted
handle_pre_vote_req-eq-handle_vote_req_example =
    handle_pre_vote_req-eq-handle_vote_req env engine request refl

-- the node has granted the vote
abbrev votes : List (Vote Std)
votes = answered.state.vote ∷ engine.state.vote ∷ []

run : Run engine answered votes
run = next here (answers env engine request)

Run-IsChain_example : IsChain answered.state.vote votes
Run-IsChain_example = Run-IsChain run

is_granted : answered.state.vote ≡ new (std 3 2)
unfolding new handle_vote_req cmp_log_id std_leader_id compare_std partial_cmp_io
is_granted = refl

have_granted : HaveGranted (λ node_id. votes) (new (std 3 2)) (1 ∷ 2 ∷ [])
have_granted node_id h = (0, ap some is_granted)

contains_at : (ys : List ℕ) (x : ℕ) → contains ys 1 ≡ true → x ≡ 1 → contains ys x ≡ true
contains_at ys x h e = subst (λ k. contains ys k ≡ true) (sym e) h

both_share :
    (xs : List ℕ)
    → contains xs 1 ≡ true
    → (ys : List ℕ) → contains ys 1 ≡ true
    → shares xs ys ≡ true
unfolding contains shares
both_share [] h ys k = cc
both_share (x ∷ xs) h ys k = elim (Bool-cases (is_eq (nat_ord.cmp x 1))) [
  | inl q ↦ let e : x ≡ 1 = ground arith in ground (arith, contains_at ys x k e)
  | inr q ↦ ground (arith, both_share xs (ground arith) ys k)
]

meet : Intersect (election_quorum_set {Mem = ℕ} env 3) (election_quorum_set {Mem = ℕ} env 3)
unfolding election_quorum_set
meet xs ys h k = both_share xs (ground arith) ys (ground arith)

won :
    (count_all {Mem = ℕ}
      (new_candidate {Mem = ℕ} {V = Votes} env (new (std 3 2)) (some (id 2 4)) 3)
      (1 ∷ 2 ∷ [])).1
    ≡ true
unfolding count_all new_candidate election_quorum_set contains
won = refl

one_winner_of_term_example : std 3 2 ≡ std 3 2
one_winner_of_term_example =
    one_winner_of_term {Mem = ℕ} {start = λ node_id. engine} {node = λ node_id. answered}
      {votes = λ node_id. votes} (λ node_id. run) env env 3 3 (some (id 2 4)) (some (id 2 4))
      (std 3 2) (std 3 2) meet (1 ∷ 2 ∷ []) (1 ∷ 2 ∷ []) have_granted have_granted won won refl

do_elect-next_vote_example : (do_elect env none engine).state.vote ≡ next_vote env engine
unfolding std_leader_id
do_elect-next_vote_example =
    do_elect-next_vote env none engine (λ term node_id. refl) (λ leader h. cc)
