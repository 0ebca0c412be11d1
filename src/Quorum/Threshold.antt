-- ===== src/Quorum/Threshold.antt =====
-- membership/src/quorum/threshold_quorum_set.rs: a rule that accepts an id set which holds at
-- least `quorum_size` of its ids. `NonZeroU64` is a number, with `0 < quorum_size` in the invariant.
-- `Arc` shares the set; sharing leaves no trace. Sums are of set sizes and do not saturate.
pub mod Exact
use openraft.Prelude.{
  ℕ, zero, suc, ◌+◌, ◌-◌, ◌≤◌, ◌<◌, ◌≡◌, refl, Bool, true, false, Option, some, List, [], ◌∷◌, ltb,
  leb, not, if◌then◌else◌, arith,
}
use openraft.Prelude.Ord.{Ord}
use openraft.Quorum.{QuorumSet, contains, IsDistinct, IsWithin}
use openraft.Quorum.Count.{count, count-le}

pub record ThresholdQuorumSet (ID : Type 0) : Type 0 where
  pub ids : List ID
  pub quorum_size : ℕ

module _ {ID : Type 0} ⦃o : Ord ID⦄ where
  pub record IsValid (q : ThresholdQuorumSet ID) : Type 0 where
    pub distinct : IsDistinct q.ids
    pub positive : 0 < q.quorum_size

  -- the `for` loop of `is_quorum`, with its early return
  unfoldable pub reaches : List ID → List ID → ℕ → ℕ → Bool
  unfolding contains
  reaches [] candidates quorum_size n = false
  reaches (id ∷ ids) candidates quorum_size n =
      let found = reaches ids candidates quorum_size (suc n) in
      let missed = reaches ids candidates quorum_size n in
      if contains candidates id then (if leb quorum_size (suc n) then true else found) else missed

  unfoldable pub is_quorum : ThresholdQuorumSet ID → List ID → Bool
  unfolding reaches
  is_quorum q candidates = reaches q.ids candidates q.quorum_size 0

  -- `difference(..).count()` and `intersection(..).count()`
  unfoldable pub only_in : List ID → List ID → ℕ
  unfolding count contains
  only_in xs ys = count (λ id. not (contains ys id)) xs

  unfoldable pub in_both : List ID → List ID → ℕ
  unfolding count contains
  in_both xs ys = count (contains ys) xs

  -- `saturating_sub` is the subtraction of natural numbers.
  unfoldable pub intersects_with : ThresholdQuorumSet ID → ThresholdQuorumSet ID → Option Bool
  unfolding only_in in_both
  intersects_with p q =
      let need_self = p.quorum_size - only_in p.ids q.ids in
      let need_other = q.quorum_size - only_in q.ids p.ids in
      some (ltb (in_both p.ids q.ids) (need_self + need_other))

  -- The loop reaches the quorum size exactly when enough ids are among the candidates.
  reaches_lem :
      (ids candidates : List ID) (quorum_size n : ℕ)
      → n < quorum_size
      → reaches ids candidates quorum_size n ≡ leb quorum_size (n + count (contains candidates) ids)
  unfolding reaches count
  reaches_lem [] candidates quorum_size n h = ground arith
  reaches_lem (id ∷ ids) candidates quorum_size n h = ground (
    arith,
    reaches_lem ids candidates quorum_size (suc n),
    reaches_lem ids candidates quorum_size n,
  )

  pub is_quorum_lem :
      (q : ThresholdQuorumSet ID) (candidates : List ID)
      → 0 < q.quorum_size
      → is_quorum q candidates ≡ leb q.quorum_size (count (contains candidates) q.ids)
  unfolding is_quorum
  is_quorum_lem q candidates h = ground (arith, reaches_lem q.ids candidates q.quorum_size 0)

  -- More candidates, or more already counted, reach the quorum size again.
  reaches_mono :
      (ids xs ys : List ID) (quorum_size n m : ℕ)
      → IsWithin xs ys
      → n ≤ m
      → reaches ids xs quorum_size n ≡ true
      → reaches ids ys quorum_size m ≡ true
  unfolding reaches
  reaches_mono [] xs ys quorum_size n m w h e = cc
  reaches_mono (id ∷ ids) xs ys quorum_size n m w h e = ground (
    arith,
    w id,
    reaches_mono ids xs ys quorum_size (suc n) (suc m) w,
    reaches_mono ids xs ys quorum_size n (suc m) w,
    reaches_mono ids xs ys quorum_size n m w,
  )

  reaches-nil : (ids : List ID) (quorum_size n : ℕ) → reaches ids [] quorum_size n ≡ false
  unfolding reaches
  reaches-nil [] quorum_size n = refl
  reaches-nil (id ∷ ids) quorum_size n = reaches-nil ids quorum_size n

  pub is_quorum-nil : (q : ThresholdQuorumSet ID) → is_quorum q [] ≡ false
  unfolding is_quorum
  is_quorum-nil q = reaches-nil q.ids q.quorum_size 0

  pub is_quorum_mono :
      (q : ThresholdQuorumSet ID) (xs ys : List ID)
      → IsWithin xs ys
      → is_quorum q xs ≡ true
      → is_quorum q ys ≡ true
  unfolding is_quorum
  is_quorum_mono q xs ys w h = reaches_mono q.ids xs ys q.quorum_size 0 0 w (omega arith) h

  instance abbrev pub threshold_quorum_set : QuorumSet (ThresholdQuorumSet ID) ID
  threshold_quorum_set = record {
    is_quorum = is_quorum;
    is_quorum-nil = is_quorum-nil;
    is_quorum_mono = is_quorum_mono;
  }
