-- ===== src/Quorum/Weighted.antt =====
-- membership/src/weighted/weighted_quorum_set.rs: a rule that accepts an id set whose weights sum
-- to at least a threshold. A `BTreeMap` is a list of pairs with distinct keys; a weight is a `u64`.
-- The sum of `is_quorum` saturates at the greatest `u64`; that of `intersects_with` is a `u128`,
-- which no map that fits in memory overflows, and is unbounded here.
use openraft.Prelude.{
  ℕ, ◌+◌, ◌≤◌, ◌<◌, ◌≡◌, refl, Bool, true, false, Option, none, some, List, [], ◌∷◌, ltb, leb, not,
  min, if◌then◌else◌, arith, ◌==◌, ◌&&◌, Bool-cases, inl, inr,
}
use openraft.Prelude.Ord.{Ord}
use openraft.Quorum.{QuorumSet, QuorumIntersection, contains, same_id, shares, IsWithin}
use openraft.Quorum.Count.{not-shares}

pub record WeightedQuorumSet (ID : Type 0) : Type 0 where
  pub weights : List (ID × ℕ)
  pub threshold : ℕ

pub data InvalidWeights (ID : Type 0) : Type 0 where
  zero_weight : ID → InvalidWeights ID
  zero_threshold : InvalidWeights ID

pub data Built (ID : Type 0) : Type 0 where
  ok : WeightedQuorumSet ID → Built ID
  err : InvalidWeights ID → Built ID

-- `u64::MAX`
unfoldable pub max_weight : ℕ
max_weight = 0xffff_ffff_ffff_ffff

unfoldable pub saturating_add : ℕ → ℕ → ℕ
unfolding max_weight
saturating_add a b = min (a + b) max_weight

module _ {ID : Type 0} where
  -- the first node of weight 0
  unfoldable pub find_zero : List (ID × ℕ) → Option ID
  find_zero [] = none
  find_zero ((id, weight) ∷ rest) = if weight == 0 then some id else find_zero rest

  unfoldable pub new : ℕ → List (ID × ℕ) → Built ID
  unfolding find_zero
  new threshold weights = elim (find_zero weights) [
    | some id ↦ err (zero_weight id)
    | none ↦
        if threshold == 0
        then err zero_threshold
        else ok (record { weights = weights; threshold = threshold })
  ]

  unfoldable pub total : List (ID × ℕ) → ℕ
  total [] = 0
  total ((id, weight) ∷ rest) = weight + total rest

module _ {ID : Type 0} ⦃o : Ord ID⦄ where
  -- the `for` loop of `is_quorum`, with its early return
  unfoldable pub reaches : List (ID × ℕ) → List ID → ℕ → ℕ → Bool
  unfolding contains saturating_add
  reaches [] candidates threshold sum = false
  reaches ((id, weight) ∷ rest) candidates threshold sum =
      let sum' : ℕ = saturating_add sum weight in
      let found = reaches rest candidates threshold sum' in
      let missed = reaches rest candidates threshold sum in
      if contains candidates id then (if leb threshold sum' then true else found) else missed

  unfoldable pub is_quorum : WeightedQuorumSet ID → List ID → Bool
  unfolding reaches
  is_quorum q candidates = reaches q.weights candidates q.threshold 0

  -- `BTreeMap` equality, entry by entry in the order of the keys
  unfoldable pub same_weights : List (ID × ℕ) → List (ID × ℕ) → Bool
  same_weights [] [] = true
  same_weights [] (y ∷ ys) = false
  same_weights (x ∷ xs) [] = false
  same_weights ((a, v) ∷ xs) ((b, w) ∷ ys) = same_id a b && (v == w) && same_weights xs ys

  unfoldable pub intersects_with : WeightedQuorumSet ID → WeightedQuorumSet ID → Option Bool
  unfolding same_weights total
  intersects_with p q =
      if not (same_weights p.weights q.weights)
      then none
      else if ltb (total p.weights) (p.threshold + q.threshold)
      then some true
      else none

  -- the weight of those nodes that are among the candidates
  unfoldable pub weight_of : List (ID × ℕ) → List ID → ℕ
  unfolding contains
  weight_of [] candidates = 0
  weight_of ((id, weight) ∷ rest) candidates =
      (if contains candidates id then weight else 0) + weight_of rest candidates

  same_weights-eq : (xs ys : List (ID × ℕ)) → same_weights xs ys ≡ true → xs ≡ ys
  unfolding same_weights
  same_weights-eq [] [] h = refl
  same_weights-eq [] (y ∷ ys) h = cc
  same_weights-eq (x ∷ xs) [] h = cc
  same_weights-eq ((a, v) ∷ xs) ((b, w) ∷ ys) h =
      ground (arith, same_weights-eq xs ys, o.cmp_eq a b)

  -- A quorum has the weight; saturation never counts too much.
  reaches-le :
      (weights : List (ID × ℕ)) (candidates : List ID) (threshold sum : ℕ)
      → reaches weights candidates threshold sum ≡ true
      → threshold ≤ sum + weight_of weights candidates
  unfolding reaches weight_of
  reaches-le [] candidates threshold sum h = cc
  reaches-le ((id, weight) ∷ rest) candidates threshold sum h = ground (
    arith,
    reaches-le rest candidates threshold (saturating_add sum weight),
    reaches-le rest candidates threshold sum,
  )

  -- And it accepts every set that has it, for thresholds that a `u64` can hold.
  reaches-ge :
      (weights : List (ID × ℕ)) (candidates : List ID) (threshold sum : ℕ)
      → threshold ≤ max_weight
      → sum < threshold
      → threshold ≤ sum + weight_of weights candidates
      → reaches weights candidates threshold sum ≡ true
  unfolding reaches weight_of
  reaches-ge [] candidates threshold sum b l h = absurd (omega arith)
  reaches-ge ((id, weight) ∷ rest) candidates threshold sum b l h = ground (
    arith,
    reaches-ge rest candidates threshold (saturating_add sum weight),
    reaches-ge rest candidates threshold sum,
  )

  weight_of_apart :
      (weights : List (ID × ℕ)) (xs ys : List ID)
      → shares xs ys ≡ false
      → weight_of weights xs + weight_of weights ys ≤ total weights
  unfolding weight_of total
  weight_of_apart [] xs ys h = omega arith
  weight_of_apart ((id, weight) ∷ rest) xs ys h =
      ground (arith, weight_of_apart rest xs ys, not-shares xs ys id)

  -- The rule accepts exactly the sets whose nodes weigh at least the threshold.
  pub is_quorum-weight_of :
      (q : WeightedQuorumSet ID) (candidates : List ID)
      → 0 < q.threshold
      → q.threshold ≤ max_weight
      → is_quorum q candidates ≡ leb q.threshold (weight_of q.weights candidates)
  unfolding is_quorum
  is_quorum-weight_of q candidates h b = ground (
    arith,
    reaches-le q.weights candidates q.threshold 0,
    reaches-ge q.weights candidates q.threshold 0,
  )

  -- If the check says that two rules intersect, any two of their quorums share an id.
  pub weighted_intersects_sound :
      (p q : WeightedQuorumSet ID) (xs ys : List ID)
      → intersects_with p q ≡ some true
      → is_quorum p xs ≡ true
      → is_quorum q ys ≡ true
      → shares xs ys ≡ true
  unfolding intersects_with is_quorum
  weighted_intersects_sound p q xs ys h k l = elim (Bool-cases (shares xs ys)) [
    | inl e ↦ e
    | inr e ↦ ground (
      arith,
      same_weights-eq p.weights q.weights,
      reaches-le p.weights xs p.threshold 0,
      reaches-le q.weights ys q.threshold 0,
      weight_of_apart p.weights xs ys,
    )
  ]

  reaches_mono :
      (weights : List (ID × ℕ)) (xs ys : List ID) (threshold n m : ℕ)
      → IsWithin xs ys
      → n ≤ max_weight
      → n ≤ m
      → reaches weights xs threshold n ≡ true
      → reaches weights ys threshold m ≡ true
  unfolding reaches
  reaches_mono [] xs ys threshold n m w b h e = cc
  reaches_mono ((id, weight) ∷ rest) xs ys threshold n m w b h e = ground (
    arith,
    w id,
    reaches_mono rest xs ys threshold (saturating_add n weight) (saturating_add m weight) w,
    reaches_mono rest xs ys threshold n (saturating_add m weight) w,
    reaches_mono rest xs ys threshold n m w,
  )

  reaches-nil : (weights : List (ID × ℕ)) (threshold n : ℕ) → reaches weights [] threshold n ≡ false
  unfolding reaches
  reaches-nil [] threshold n = refl
  reaches-nil ((id, weight) ∷ rest) threshold n = reaches-nil rest threshold n

  pub is_quorum-nil : (q : WeightedQuorumSet ID) → is_quorum q [] ≡ false
  unfolding is_quorum
  is_quorum-nil q = reaches-nil q.weights q.threshold 0

  pub is_quorum_mono :
      (q : WeightedQuorumSet ID) (xs ys : List ID)
      → IsWithin xs ys
      → is_quorum q xs ≡ true
      → is_quorum q ys ≡ true
  unfolding is_quorum
  is_quorum_mono q xs ys w h =
      reaches_mono q.weights xs ys q.threshold 0 0 w (omega arith) (omega arith) h

  instance abbrev pub weighted_quorum_set : QuorumSet (WeightedQuorumSet ID) ID
  weighted_quorum_set = record {
    is_quorum = is_quorum;
    is_quorum-nil = is_quorum-nil;
    is_quorum_mono = is_quorum_mono;
  }

  instance abbrev pub weighted_intersection :
      QuorumIntersection (WeightedQuorumSet ID) ID (λ _. Unit)
  weighted_intersection = record {
    intersects_with = intersects_with;
    shares_of_intersects = λ p q xs ys v w. weighted_intersects_sound p q xs ys;
  }
