-- ===== src/Engine/Safety.antt =====
-- openraft/src/engine/engine_impl.rs and proposer/candidate.rs: the votes that candidates win.
use openraft.Prelude.{
  ℕ, zero, suc, ◌≡◌, ◌⊎◌, ◌∙◌, ap, sym, refl, Bool, true, false, Option, none, some, List, [], ◌∷◌,
  inl, inr, Bool-cases, Option-cases, get_elem?, arith,
}
use openraft.Prelude.Ord.{Ord, nat_ord}
use openraft.LogId.{LogId}
use openraft.Vote.{Vote, ge, partial_cmp, cmp_committed, new}
use openraft.Vote.LeaderId.{RaftLeaderId, Std, std_leader_id, compare_std}
use openraft.VoteHandler.{ge_self}
use openraft.Vote.Order.{ge_trans}
use openraft.Quorum.{contains, shares, IsWithin}
use openraft.Membership.{RaftMembership}
use openraft.Progress.Entry.{ProgressEntry}
use openraft.VecProgress.{VecProgress, ProgressItem, ClockProgress, QuorumRule}
use openraft.Leader.{QuorumMembership}
use openraft.Candidate.{Candidate, Tally, Env, grant_by, new_candidate, election_quorum_set}
use openraft.Engine.{Engine}
use openraft.Engine.Moves.{Run, Run-IsChain, IsChain}

false-true : false ≡ true → ⊥
false-true h = cc

-- a vote is one of those that a node has had
abbrev pub HadVote : {LID : Type 0} → Vote LID → List (Vote LID) → Type 0
HadVote vote votes = (k : ℕ) × (get_elem? votes k ≡ some vote)

module _ {LID : Type 0} ⦃l : RaftLeaderId LID⦄ where
  chain-get :
      (top vote : Vote LID) (votes : List (Vote LID)) (k : ℕ)
      → IsChain top votes
      → get_elem? votes k ≡ some vote
      → ge top vote ≡ true
  chain-get top vote [] k h e = cc
  chain-get top vote (x ∷ xs) zero h e = ground arith
  chain-get top vote (x ∷ xs) (suc k) h e = ge_trans top x vote h.0 (chain-get x vote xs k h.1 e)

  -- two votes of a chain are comparable
  chain-comparable :
      (top a b : Vote LID) (votes : List (Vote LID)) (i j : ℕ)
      → IsChain top votes
      → get_elem? votes i ≡ some a
      → get_elem? votes j ≡ some b
      → (ge a b ≡ true) ⊎ (ge b a ≡ true)
  chain-comparable top a b [] i j h e f = cc
  chain-comparable top a b (x ∷ xs) zero zero h e f = ground (arith, ge_self a)
  chain-comparable top a b (x ∷ xs) zero (suc j) h e f =
      inl (ground (arith, chain-get x b xs j h.1 f))
  chain-comparable top a b (x ∷ xs) (suc i) zero h e f =
      inr (ground (arith, chain-get x a xs i h.1 e))
  chain-comparable top a b (x ∷ xs) (suc i) (suc j) h e f = chain-comparable x a b xs i j h.1 e f

IsWithin-cons :
    (xs ys zs : List ℕ) (id : ℕ) → IsWithin xs (id ∷ ys) → IsWithin ys zs → IsWithin xs (id ∷ zs)
unfolding contains
IsWithin-cons xs ys zs id h k w e = ground (arith, h w e, k w)

IsWithin-later : (xs ys : List ℕ) (id : ℕ) → IsWithin xs ys → IsWithin xs (id ∷ ys)
unfolding contains
IsWithin-later xs ys id h w e = ground (arith, h w e)

shares-common :
    (xs ys : List ℕ)
    → shares xs ys ≡ true
    → (id : ℕ) × (contains xs id ≡ true) × (contains ys id ≡ true)
unfolding shares contains
shares-common [] ys h = cc
shares-common (x ∷ xs) ys h = elim (Bool-cases (contains ys x)) [
  | inl q ↦ (x, ground arith, q)
  | inr q ↦ let (id, r, k) = shares-common xs ys (ground arith) in (id, ground arith, k)
]

module _ {LID CLID Mem V : Type 0} ⦃y : Tally V⦄ where
  -- the grants that a candidate counts, the last one first, and whether the last made a quorum
  unfoldable pub count_all : Candidate LID CLID Mem V → List ℕ → Candidate LID CLID Mem V × Bool
  unfolding grant_by
  count_all c [] = (c, false)
  count_all c (target ∷ targets) = grant_by (count_all c targets).0 target

  -- what a candidate's progress knows of the grants that it counted
  record Counted (start c : Candidate LID CLID Mem V) (targets : List ℕ) : Type 0 where
    within : IsWithin (y.granters c.progress) targets
    same_rule : y.quorum_set c.progress ≡ y.quorum_set start.progress

  count_all-Counted :
      (start : Candidate LID CLID Mem V) (targets : List ℕ)
      → y.granters start.progress ≡ []
      → Counted start (count_all start targets).0 targets
  unfolding count_all
  count_all-Counted start [] h = record { within = rw h (λ id e. e); same_rule = refl }
  count_all-Counted start (target ∷ targets) h =
      let before = count_all-Counted start targets h in
      elim (Option-cases (y.grant (count_all start targets).0.progress target)) [
        | inl q ↦
            rw (grant_by, q)
              (record {
                within = IsWithin-later _ targets target before.within;
                same_rule = before.same_rule;
              })
        | inr ((progress, granted), q) ↦
            rw (grant_by, q)
              (record {
                within =
                    IsWithin-cons _ _ targets target
                      (y.granters-grant (count_all start targets).0.progress target q)
                      before.within;
                same_rule =
                    y.quorum_set-grant (count_all start targets).0.progress target q
                    ∙ before.same_rule;
              })
      ]

  grant_by-quorum :
      (c : Candidate LID CLID Mem V) (target : ℕ)
      → (grant_by c target).1 ≡ true
      → (y.quorum_set (grant_by c target).0.progress).is_quorum
          (y.granters (grant_by c target).0.progress)
        ≡ true
  grant_by-quorum c target h = by_answer (y.grant c.progress target) refl
    where
      by_answer :
          (answer : Option (V × Bool))
          → y.grant c.progress target ≡ answer
          → (y.quorum_set (grant_by c target).0.progress).is_quorum
              (y.granters (grant_by c target).0.progress)
            ≡ true
      by_answer none q = unfold grant_by in absurd (false-true (rw (grant_by, q) at h))
      by_answer (some (progress, true)) q =
          unfold grant_by in rw (grant_by, q) (y.granted_sound c.progress target q)
      by_answer (some (progress, false)) q =
          unfold grant_by in absurd (false-true (rw (grant_by, q) at h))

  -- a candidate that has counted a quorum
  count_all-quorum :
      (start : Candidate LID CLID Mem V) (targets : List ℕ)
      → (count_all start targets).1 ≡ true
      → (y.quorum_set (count_all start targets).0.progress).is_quorum
          (y.granters (count_all start targets).0.progress)
        ≡ true
  unfolding count_all
  count_all-quorum start [] h = cc
  count_all-quorum start (target ∷ targets) h = grant_by-quorum (count_all start targets).0 target h

-- every target is a node that has had the vote
abbrev pub HaveGranted : {LID : Type 0} → (ℕ → List (Vote LID)) → Vote LID → List ℕ → Type 0
HaveGranted votes vote targets = (id : ℕ) → contains targets id ≡ true → HadVote vote (votes id)

-- every quorum of the one rule has a node in common with every quorum of the other
abbrev pub Intersect : QuorumRule → QuorumRule → Type 0
Intersect p q =
    (xs ys : List ℕ) → p.is_quorum xs ≡ true → q.is_quorum ys ≡ true → shares xs ys ≡ true

module _ {LID CLID Mem P CP V : Type 0} ⦃l : RaftLeaderId LID⦄ ⦃o : Ord CLID⦄
    ⦃m : RaftMembership Mem⦄ ⦃n : QuorumMembership Mem⦄
    ⦃t : ProgressItem (ProgressEntry CLID) (Option (LogId CLID))⦄
    ⦃v : VecProgress P (ProgressEntry CLID) (Option (LogId CLID))⦄ ⦃c : ClockProgress CP⦄
    ⦃y : Tally V⦄ {start node : ℕ → Engine LID CLID Mem P CP V} {votes : ℕ → List (Vote LID)} where
  -- two winners, by rules whose quorums intersect, have comparable votes
  pub winners-comparable :
      ((id : ℕ) → Run (start id) (node id) (votes id))
      → (a b : Candidate LID CLID Mem V) → (as' bs : List ℕ) → y.granters a.progress ≡ []
      → y.granters b.progress ≡ []
      → Intersect (y.quorum_set a.progress) (y.quorum_set b.progress)
      → HaveGranted votes a.vote as'
      → HaveGranted votes b.vote bs
      → (count_all a as').1 ≡ true
      → (count_all b bs).1 ≡ true
      → (ge a.vote b.vote ≡ true) ⊎ (ge b.vote a.vote ≡ true)
  winners-comparable runs a b as' bs empty_a empty_b meet granted_a granted_b won_a won_b =
      let counted_a = count_all-Counted a as' empty_a in
      let counted_b = count_all-Counted b bs empty_b in
      let (id, in_a, in_b) =
        shares-common (y.granters (count_all a as').0.progress)
          (y.granters (count_all b bs).0.progress)
          (meet _ _ (rw (sym counted_a.same_rule) (count_all-quorum a as' won_a))
            (rw (sym counted_b.same_rule) (count_all-quorum b bs won_b))) in
      let (i, had_a) = granted_a id (counted_a.within id in_a) in
      let (j, had_b) = granted_b id (counted_b.within id in_b) in
      chain-comparable (node id).state.vote a.vote b.vote (votes id) i j (Run-IsChain (runs id))
        had_a had_b

-- votes of candidates with the ids of `leader_id_std`, in one term
same_term :
    (a b : Vote Std)
    → a.committed ≡ false
    → b.committed ≡ false
    → a.leader_id.term ≡ b.leader_id.term
    → (ge a b ≡ true) ⊎ (ge b a ≡ true)
    → a ≡ b
unfolding ge partial_cmp cmp_committed compare_std std_leader_id
same_term a b p q e (inl h) = ground arith
same_term a b p q e (inr h) = ground arith

module _ {CLID Mem P CP V : Type 0} ⦃o : Ord CLID⦄ ⦃m : RaftMembership Mem⦄
    ⦃n : QuorumMembership Mem⦄ ⦃t : ProgressItem (ProgressEntry CLID) (Option (LogId CLID))⦄
    ⦃v : VecProgress P (ProgressEntry CLID) (Option (LogId CLID))⦄ ⦃c : ClockProgress CP⦄
    ⦃y : Tally V⦄ {start node : ℕ → Engine Std CLID Mem P CP V} {votes : ℕ → List (Vote Std)} where
  -- With the leader ids of `leader_id_std`, a term has at most one winner: if two candidates of a
  -- term each count a quorum of grants, of nodes that have had their votes, by rules whose quorums
  -- intersect, then they have the same leader id. In between, the nodes may have taken the votes of
  -- messages, answered candidates, taken requests to append, started pre-votes and elections, and
  -- counted the answers to either.
  pub one_winner_of_term :
      ((id : ℕ) → Run (start id) (node id) (votes id))
      → (env env' : Env Std CLID) → (membership membership' : Mem)
      → (log log' : Option (LogId CLID)) → (leader leader' : Std)
      → Intersect (election_quorum_set env membership) (election_quorum_set env' membership')
      → (as' bs : List ℕ) → HaveGranted votes (new leader) as'
      → HaveGranted votes (new leader') bs
      → (count_all (new_candidate {V = V} env (new leader) log membership) as').1 ≡ true
      → (count_all (new_candidate {V = V} env' (new leader') log' membership') bs).1 ≡ true
      → leader.term ≡ leader'.term
      → leader ≡ leader'
  unfolding new_candidate new
  one_winner_of_term runs env env' membership membership' log log' leader leader' meet as' bs
        granted_a granted_b won_a won_b term =
      ap (λ a. a.leader_id)
        (same_term (new leader) (new leader') refl refl term (
          winners-comparable runs (new_candidate {V = V} env (new leader) log membership)
            (new_candidate {V = V} env' (new leader') log' membership') as' bs (y.granters-new _)
            (y.granters-new _)
            (rw (y.quorum_set-new (election_quorum_set env membership))
              (rw (y.quorum_set-new (election_quorum_set env' membership')) meet))
            granted_a granted_b won_a won_b))
