-- ===== src/Vote/Order.antt =====
-- The order of votes: its dual, its transitivity, and which votes are incomparable.
use openraft.Prelude.{◌≡◌, ◌↔◌, true, none, some, eq, arith}
use openraft.Vote.LeaderId.{RaftLeaderId, reverse}
use openraft.Vote.{Vote, partial_cmp, ge}

module _ {LID : Type 0} ⦃l : RaftLeaderId LID⦄ where
  -- Comparing two votes the other way round gives the reverse answer.
  pub partial_cmp-flip : (a b : Vote LID) → partial_cmp b a ≡ reverse (partial_cmp a b)
  unfolding partial_cmp
  partial_cmp-flip a b = ground (arith, l.cmp_flip a.leader_id b.leader_id)

  pub partial_cmp_refl : (a : Vote LID) → partial_cmp a a ≡ some eq
  unfolding partial_cmp
  partial_cmp_refl a = ground (arith, l.cmp_refl a.leader_id)

  -- Two votes are incomparable exactly when their leader ids are and both or neither of them is
  -- committed.
  pub partial_cmp-eq-none :
      (a b : Vote LID)
      → (partial_cmp a b ≡ none)
        ↔ ((l.partial_cmp a.leader_id b.leader_id ≡ none) × (a.committed ≡ b.committed))
  unfolding partial_cmp
  partial_cmp-eq-none a b = (λ h. ground arith, λ h. ground arith)

  -- The order is antisymmetric.
  pub ge_antisymm : (a b : Vote LID) → ge a b ≡ true → ge b a ≡ true → a ≡ b
  unfolding ge
  ge_antisymm a b h k =
      ground (arith, l.cmp_flip a.leader_id b.leader_id, l.eq_of_cmp a.leader_id b.leader_id)

  -- `>=` is transitive, although the order is partial.
  pub ge_trans : (a b c : Vote LID) → ge a b ≡ true → ge b c ≡ true → ge a c ≡ true
  unfolding ge
  ge_trans a b c h k = ground (
    arith,
    l.eq_of_cmp a.leader_id b.leader_id,
    l.eq_of_cmp b.leader_id c.leader_id,
    l.cmp_flip a.leader_id b.leader_id,
    l.cmp_flip b.leader_id c.leader_id,
    l.cmp_flip a.leader_id c.leader_id,
    l.lt_trans c.leader_id b.leader_id a.leader_id,
    l.incomparable_lt c.leader_id b.leader_id a.leader_id,
    l.lt_incomparable c.leader_id b.leader_id a.leader_id,
  )
