-- ===== src/LogIdList/Ascending.antt =====
-- The order of the log ids of a `LogIdList`, by their indexes.
use openraft.Prelude.{
  ℕ, suc, ◌≤◌, ◌<◌, ◌≡◌, ◌≢◌, refl, sym, ◌∙◌, subst, true, Option, none, some, List, [], ◌∷◌, lt,
  eq, gt, Ordering, ltb, arith, Option-cases, Bool-cases, inl, inr,
}
use openraft.Prelude.Ord.{Ord}
use openraft.LogId.{LogId, next_index, cmp_log_id}
use openraft.LogIdList.{LogIdList, last, get, first_index, ref_in_purged}
use openraft.LogIdList.Runs.{find_run}
use openraft.LogIdList.Valid.{IsValid, IsAbove, IsClimbing}
use openraft.LogIdList.View.{view, get_lem}
use openraft.LogIdList.Last.{get-below}

module _ {CLID : Type 0} ⦃o : Ord CLID⦄ where
  find_run-above :
      (c : CLID) (ks : List (LogId CLID)) (i : ℕ) (y : LogId CLID)
      → IsAbove c ks
      → find_run ks i ≡ some y
      → o.cmp c y.leader_id ≡ lt
  find_run-above c [] i y h e = cc
  find_run-above c (k ∷ ks) i y h e =
      ground (arith, find_run-above k.leader_id ks i y, o.cmp_lt c k.leader_id y.leader_id)

  IsClimbing-tail : (c : CLID) (ks : List (LogId CLID)) → IsAbove c ks → IsClimbing none ks
  IsClimbing-tail c [] h = tt
  IsClimbing-tail c (k ∷ ks) h = h.1

  find_run-lt :
      (ks : List (LogId CLID)) (i j : ℕ) (x y : LogId CLID)
      → IsClimbing none ks
      → i < j
      → find_run ks i ≡ some x
      → find_run ks j ≡ some y
      → cmp_log_id x y ≡ lt
  unfolding cmp_log_id
  find_run-lt [] i j x y h b e f = cc
  find_run-lt (k ∷ ks) i j x y h b e f = ground (
    arith,
    o.cmp_self k.leader_id,
    find_run-above k.leader_id ks j y,
    find_run-lt ks i j x y (IsClimbing-tail k.leader_id ks h),
  )

  not_gt-lt : (a b c : CLID) → o.cmp a b ≢ gt → o.cmp b c ≡ lt → o.cmp a c ≡ lt
  not_gt-lt a b c h k = by_order (o.cmp a b) refl
    where
      by_order : (r : Ordering) → o.cmp a b ≡ r → o.cmp a c ≡ lt
      by_order lt e = o.cmp_lt a b c e k
      by_order eq e = subst (λ z. o.cmp z c ≡ lt) (sym (o.cmp_eq a b e)) k
      by_order gt e = absurd (h e)

  find_run_index :
      (ks : List (LogId CLID)) (i : ℕ) (x : LogId CLID) → find_run ks i ≡ some x → x.index ≡ i
  find_run_index [] i x e = cc
  find_run_index (k ∷ ks) i x e = ground (arith, find_run_index ks i x)

  -- a run's log id is not of a leader before the purged one's
  find_run-purged :
      (p : LogId CLID) (ks : List (LogId CLID)) (i : ℕ) (y : LogId CLID)
      → IsClimbing (some p) ks
      → find_run ks i ≡ some y
      → o.cmp p.leader_id y.leader_id ≢ gt
  find_run-purged p [] i y h e = cc
  find_run-purged p (k ∷ ks) i y h e = ground (
    arith,
    h.0,
    find_run-above k.leader_id ks i y h.1,
    not_gt-lt p.leader_id k.leader_id y.leader_id h.0,
  )

  purged-lt :
      (p y : LogId CLID)
      → o.cmp p.leader_id y.leader_id ≢ gt
      → p.index < y.index
      → cmp_log_id p y ≡ lt
  unfolding cmp_log_id
  purged-lt p y h b = ground (arith, h)

  view-lt :
      (p : Option (LogId CLID)) (ks : List (LogId CLID)) (i j : ℕ) (x y : LogId CLID)
      → IsClimbing p ks
      → i < j
      → view p ks i ≡ some x
      → view p ks j ≡ some y
      → cmp_log_id x y ≡ lt
  unfolding ref_in_purged
  view-lt none ks i j x y h b e f = ground (arith, find_run-lt ks i j x y h b)
  view-lt (some p) ks i j x y h b e f = elim (Bool-cases (ltb i (suc p.index))) [
    | inl q ↦ ground (arith, find_run_index ks j y, find_run-purged p ks j y h, purged-lt p y)
    | inr q ↦ find_run-lt ks i j x y (climbs ks h) b (ground (arith, q)) (ground (arith, q))
  ]
    where
      climbs : (ks : List (LogId CLID)) → IsClimbing (some p) ks → IsClimbing none ks
      climbs [] h = tt
      climbs (k ∷ ks) h = h.1

  -- In a valid list, the log id at a greater index is greater.
  pub get-lt :
      (l : LogIdList CLID) (i j : ℕ) {x y : LogId CLID}
      → IsValid l
      → i < j
      → get l i ≡ some x
      → get l j ≡ some y
      → cmp_log_id x y ≡ lt
  get-lt l i j {x} {y} v b e f =
      view-lt l.purged l.key_log_ids i j x y v.climbing b (sym (get_lem l i) ∙ e)
        (sym (get_lem l j) ∙ f)

  purged_lem :
      (l : LogIdList CLID) (i : ℕ) (purged : Option (LogId CLID))
      → l.purged ≡ purged
      → first_index l ≤ suc i
      → ltb i (first_index l) ≡ true
      → view l.purged l.key_log_ids i ≡ none
      → ⊥
  unfolding first_index ref_in_purged
  purged_lem l i none p f r q = ground arith
  purged_lem l i (some x) p f r q = ground arith

  -- In a valid list, each index from the last purged one to the last one has a log id.
  pub get-some :
      (l : LogIdList CLID) (i : ℕ)
      → IsValid l
      → first_index l ≤ suc i
      → i < next_index (last l)
      → (x : LogId CLID) × (get l i ≡ some x)
  get-some l i v f b = elim (Option-cases (get l i)) [
    | inl q ↦ absurd (elim (Bool-cases (ltb i (first_index l))) [
      | inl r ↦ at_purged l.purged refl r q
      | inr r ↦ get-below l i v (ground (arith, r)) b q
    ])
    | inr (x, q) ↦ (x, q)
  ]
    where
      at_purged :
          (purged : Option (LogId CLID))
          → l.purged ≡ purged
          → ltb i (first_index l) ≡ true
          → get l i ≡ none
          → ⊥
      at_purged p e r q = purged_lem l i p e f r (sym (get_lem l i) ∙ q)
