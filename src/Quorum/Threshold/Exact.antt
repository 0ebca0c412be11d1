-- ===== src/Quorum/Threshold/Exact.antt =====
-- The intersection check of two threshold rules is exact.
use openraft.Prelude.{
  ℕ, ◌+◌, ◌-◌, ◌≤◌, ◌≡◌, Bool, true, false, some, List, ◌++◌, take, drop, length-append,
  length-take, length-drop, not, ◌&&◌, arith, Bool-cases, inl, inr,
}
use openraft.Prelude.Ord.{Ord}
use openraft.Quorum.{QuorumIntersection, contains, shares, IsDistinct}
use openraft.Quorum.Count.{
  length-filter, contains-filter, contains-append, contains-take, contains-drop, contains-take-drop,
  take-IsDistinct, drop-IsDistinct, append-IsDistinct, filter-IsDistinct, shares_of,
  length-le-count, count, count-le_mem, count-disjoint, filter, count-le, count-split, count-within,
  not-shares,
}
use openraft.Quorum.Threshold.{
  ThresholdQuorumSet, IsValid, threshold_quorum_set, is_quorum, is_quorum_lem, intersects_with,
  only_in, in_both,
}

module _ {ID : Type 0} ⦃o : Ord ID⦄ where
  -- The ids of `xs` among the candidates: those that `ys` has, and at most all others.
  count-only_in :
      (xs ys candidates : List ID)
      → count (contains candidates) xs
        ≤ count (λ id. contains candidates id && contains ys id) xs + only_in xs ys
  unfolding only_in
  count-only_in xs ys candidates = omega (
    arith,
    count-split (contains candidates) (contains ys) xs,
    count-le (λ id. contains candidates id && not (contains ys id)) (λ id. not (contains ys id)) xs
        (λ a h. ground arith),
  )

  -- what the candidates hold of two sets' common ids can be counted in either set
  count-common :
      (xs ys candidates : List ID)
      → IsDistinct xs
      → count (λ id. contains candidates id && contains ys id) xs
        ≤ count (λ id. contains candidates id && contains xs id) ys
  count-common xs ys candidates d =
      let both : ID → Bool = λ id. contains candidates id && contains xs id && contains ys id in
      omega (
        arith,
        count-le_mem (λ id. contains candidates id && contains ys id) both xs
            (λ a m h. ground arith),
        count-within both xs ys d (λ a m h. ground arith),
        count-le both (λ id. contains candidates id && contains xs id) ys (λ a h. ground arith),
      )

  -- If the check says that two rules intersect, any two of their quorums share an id.
  pub threshold_intersects_sound :
      (p q : ThresholdQuorumSet ID) (xs ys : List ID)
      → IsValid p
      → IsValid q
      → intersects_with p q ≡ some true
      → is_quorum p xs ≡ true
      → is_quorum q ys ≡ true
      → shares xs ys ≡ true
  unfolding intersects_with in_both
  threshold_intersects_sound p q xs ys v w h k l = elim (Bool-cases (shares xs ys)) [
    | inl e ↦ e
    | inr e ↦
        let apart =
          count-disjoint (λ id. contains xs id && contains q.ids id)
            (λ id. contains ys id && contains q.ids id) (contains q.ids) p.ids (λ a m. ground arith)
            (λ a m. ground arith) (λ a m. ground (arith, not-shares xs ys a)) in
        absurd (
          ground (
            arith,
            apart,
            is_quorum_lem p xs v.positive,
            is_quorum_lem q ys w.positive,
            count-only_in p.ids q.ids xs,
            count-only_in q.ids p.ids ys,
            count-common q.ids p.ids ys w.distinct,
          ))
  ]

  -- Two disjoint quorums, when the check says that there are such: each takes the ids that only
  -- its own rule has, and they divide the common ones.
  first_half : ThresholdQuorumSet ID → ThresholdQuorumSet ID → List ID
  first_half p q =
      filter (λ id. not (contains q.ids id)) p.ids
      ++ take (p.quorum_size - only_in p.ids q.ids) (filter (contains q.ids) p.ids)

  second_half : ThresholdQuorumSet ID → ThresholdQuorumSet ID → List ID
  second_half p q =
      filter (λ id. not (contains p.ids id)) q.ids
      ++ drop (p.quorum_size - only_in p.ids q.ids) (filter (contains q.ids) p.ids)

  common-IsDistinct :
      (p q : ThresholdQuorumSet ID) → IsDistinct p.ids → IsDistinct (filter (contains q.ids) p.ids)
  common-IsDistinct p q d = filter-IsDistinct (contains q.ids) p.ids d

  first_half-quorum :
      (p q : ThresholdQuorumSet ID)
      → IsValid p
      → p.quorum_size - only_in p.ids q.ids ≤ in_both p.ids q.ids
      → is_quorum p (first_half p q) ≡ true
  unfolding first_half only_in in_both
  first_half-quorum p q v h =
      let n : ℕ = p.quorum_size - only_in p.ids q.ids in
      let alone : List ID = filter (λ id. not (contains q.ids id)) p.ids in
      let common : List ID = filter (contains q.ids) p.ids in
      let d =
        append-IsDistinct alone (take n common)
          (filter-IsDistinct (λ id. not (contains q.ids id)) p.ids v.distinct)
          (take-IsDistinct n common (common-IsDistinct p q v.distinct))
          (λ a m. ground (
            arith,
            contains-take n common a,
            contains-filter (contains q.ids) p.ids a,
            contains-filter (λ id. not (contains q.ids id)) p.ids a,
          )) in
      let size = length-le-count (alone ++ take n common) p.ids d (λ a m. ground (
        arith,
        contains-append alone (take n common) a,
        contains-take n common a,
        contains-filter (contains q.ids) p.ids a,
        contains-filter (λ id. not (contains q.ids id)) p.ids a,
      )) in
      ground (
        arith,
        is_quorum_lem p (alone ++ take n common) v.positive,
        size,
        length-append alone (take n common),
        length-take n common,
        length-filter (contains q.ids) p.ids,
        length-filter (λ id. not (contains q.ids id)) p.ids,
      )

  second_half-quorum :
      (p q : ThresholdQuorumSet ID)
      → IsValid p
      → IsValid q
      → (p.quorum_size - only_in p.ids q.ids) + (q.quorum_size - only_in q.ids p.ids)
        ≤ in_both p.ids q.ids
      → is_quorum q (second_half p q) ≡ true
  unfolding second_half only_in in_both
  second_half-quorum p q v w h =
      let n : ℕ = p.quorum_size - only_in p.ids q.ids in
      let alone : List ID = filter (λ id. not (contains p.ids id)) q.ids in
      let common : List ID = filter (contains q.ids) p.ids in
      let d =
        append-IsDistinct alone (drop n common)
          (filter-IsDistinct (λ id. not (contains p.ids id)) q.ids w.distinct)
          (drop-IsDistinct n common (common-IsDistinct p q v.distinct))
          (λ a m. ground (
            arith,
            contains-drop n common a,
            contains-filter (contains q.ids) p.ids a,
            contains-filter (λ id. not (contains p.ids id)) q.ids a,
          )) in
      let size = length-le-count (alone ++ drop n common) q.ids d (λ a m. ground (
        arith,
        contains-append alone (drop n common) a,
        contains-drop n common a,
        contains-filter (contains q.ids) p.ids a,
        contains-filter (λ id. not (contains p.ids id)) q.ids a,
      )) in
      ground (
        arith,
        is_quorum_lem q (alone ++ drop n common) w.positive,
        size,
        length-append alone (drop n common),
        length-drop n common,
        length-filter (contains q.ids) p.ids,
        length-filter (λ id. not (contains p.ids id)) q.ids,
      )

  halves_apart :
      (p q : ThresholdQuorumSet ID) → IsValid p → shares (first_half p q) (second_half p q) ≡ false
  unfolding first_half second_half
  halves_apart p q v = elim (Bool-cases (shares (first_half p q) (second_half p q))) [
    | inr e ↦ e
    | inl e ↦
        let n : ℕ = p.quorum_size - only_in p.ids q.ids in
        let common : List ID = filter (contains q.ids) p.ids in
        let t = shares_of (first_half p q) (second_half p q) e in
        let a : ID = t.0 in
        absurd (
          ground (
            arith,
            t.1,
            t.2,
            contains-append (filter (λ id. not (contains q.ids id)) p.ids) (take n common) a,
            contains-append (filter (λ id. not (contains p.ids id)) q.ids) (drop n common) a,
            contains-take-drop n common a (common-IsDistinct p q v.distinct),
            contains-take n common a,
            contains-drop n common a,
            contains-filter (contains q.ids) p.ids a,
            contains-filter (λ id. not (contains q.ids id)) p.ids a,
            contains-filter (λ id. not (contains p.ids id)) q.ids a,
          ))
  ]

  -- If the check says that two rules do not intersect, there are two quorums with no id in common.
  pub threshold_intersects_complete :
      (p q : ThresholdQuorumSet ID)
      → IsValid p
      → IsValid q
      → intersects_with p q ≡ some false
      → (xs : List ID) × (ys : List ID) × (is_quorum p xs ≡ true)
        × (is_quorum q ys ≡ true)
        × (shares xs ys ≡ false)
  unfolding intersects_with
  threshold_intersects_complete p q v w h = (
    first_half p q,
    second_half p q,
    first_half-quorum p q v (ground arith),
    second_half-quorum p q v w (ground arith),
    halves_apart p q v,
  )

  instance abbrev pub threshold_intersection : QuorumIntersection (ThresholdQuorumSet ID) ID IsValid
  threshold_intersection = record {
    intersects_with = intersects_with;
    shares_of_intersects = threshold_intersects_sound;
  }
