-- ===== src/LogIdList/Full.antt =====
-- The log that a `LogIdList` stands for: every log id after the purged one.
use openraft.Prelude.{
  ℕ, zero, suc, ◌+◌, ◌-◌, ◌≤◌, ◌≡◌, ◌∙◌, ap, sym, refl, some, List, [], ◌∷◌, ◌++◌, ltb, leb, last?,
  take, drop, arith, Option-cases, Bool-cases, inl, inr, append-nil, append_assoc,
}
use openraft.Prelude.Ord.{Ord}
use openraft.LogId.{LogId}
use openraft.LogIdList.{push_key_log_id}
use openraft.LogIdList.Runs.{IsRising, cut, cut_front, end_of, last?-cons}

module _ {CLID : Type 0} where
  -- the log ids of one leader, from an index on
  abbrev pub run : CLID → ℕ → ℕ → List (LogId CLID)
  run c first zero = []
  run c first (suc n) = record { leader_id = c; index = first } ∷ run c (suc first) n

  -- the log ids of the runs, the first of which starts at `first`
  abbrev pub expand : ℕ → List (LogId CLID) → List (LogId CLID)
  expand first [] = []
  expand first (k ∷ ks) = run k.leader_id first (suc k.index - first) ++ expand (suc k.index) ks

  pub run-suc :
      (c : CLID) (first n : ℕ)
      → run c first (suc n) ≡ run c first n ++ record { leader_id = c; index = first + n } ∷ []
  run-suc c first zero = ground arith
  run-suc c first (suc n) = ground (arith, run-suc c (suc first) n)

  take-run_le :
      (c : CLID) (n first m : ℕ) (ys : List (LogId CLID))
      → n ≤ m
      → take n (run c first m ++ ys) ≡ run c first n
  take-run_le c zero first m ys h = refl
  take-run_le c (suc n) first zero ys h = absurd (omega arith)
  take-run_le c (suc n) first (suc m) ys h =
      ap (λ xs. record { leader_id = c; index = first } ∷ xs)
        (take-run_le c n (suc first) m ys (omega arith))

  take-run_ge :
      (c : CLID) (n first m k : ℕ) (ys : List (LogId CLID))
      → k ≡ m + n
      → take k (run c first m ++ ys) ≡ run c first m ++ take n ys
  take-run_ge c n first zero k ys e = ap (λ i. take i ys) (omega (arith, e))
  take-run_ge c n first (suc m) zero ys e = absurd (omega arith)
  take-run_ge c n first (suc m) (suc k) ys e =
      ap (λ xs. record { leader_id = c; index = first } ∷ xs)
        (take-run_ge c n (suc first) m k ys (omega arith))

  drop-run_le :
      (c : CLID) (n first m k : ℕ) (ys : List (LogId CLID))
      → k ≡ n + m
      → drop n (run c first k ++ ys) ≡ run c (first + n) m ++ ys
  drop-run_le c zero first m k ys e =
      ap (λ i. run c first i ++ ys) (omega (arith, e))
      ∙ ap (λ i. run c i m ++ ys) {x = first} {y = first + 0} (omega arith)
  drop-run_le c (suc n) first m zero ys e = absurd (omega arith)
  drop-run_le c (suc n) first m (suc k) ys e =
      drop-run_le c n (suc first) m k ys (omega arith)
      ∙ ap (λ i. run c i m ++ ys) {x = suc first + n} {y = first + suc n} (omega arith)

  drop-run_ge :
      (c : CLID) (n first m k : ℕ) (ys : List (LogId CLID))
      → k ≡ m + n
      → drop k (run c first m ++ ys) ≡ drop n ys
  drop-run_ge c n first zero k ys e = ap (λ i. drop i ys) (omega (arith, e))
  drop-run_ge c n first (suc m) zero ys e = absurd (omega arith)
  drop-run_ge c n first (suc m) (suc k) ys e = drop-run_ge c n (suc first) m k ys (omega arith)

  take_nil : (n : ℕ) → take {A = LogId CLID} n [] ≡ []
  take_nil zero = refl
  take_nil (suc n) = refl

  drop_nil : (n : ℕ) → drop {A = LogId CLID} n [] ≡ []
  drop_nil zero = refl
  drop_nil (suc n) = refl

  -- the run up to a log id ends with it
  run-upto :
      (first : ℕ) (k : LogId CLID)
      → first ≤ k.index
      → run k.leader_id first (suc k.index - first)
        ≡ run k.leader_id first (k.index - first) ++ k ∷ []
  run-upto first k h =
      ap (run k.leader_id first) {y = suc (k.index - first)} (omega arith)
      ∙ run-suc k.leader_id first (k.index - first)
      ∙ ap
          (λ i.
            run k.leader_id first (k.index - first)
            ++ record { leader_id = k.leader_id; index = i } ∷ [])
          {x = first + (k.index - first)} {y = k.index} (omega arith)

  pub expand-cut :
      (first : ℕ) (ks : List (LogId CLID)) (at : ℕ)
      → IsRising first ks
      → expand first (cut first ks at) ≡ take (at - first) (expand first ks)
  expand-cut first [] at r = sym (take_nil (at - first))
  expand-cut first (k ∷ ks) at r = elim (Bool-cases (leb at k.index)) [
    | inl q ↦ elim (Bool-cases (ltb first at)) [
      | inl f ↦
          rw (q, f)
            (append-nil (run k.leader_id first (suc (at - 1) - first))
              ∙ ap (run k.leader_id first) {y = at - first} (ground arith)
              ∙ sym (
                  take-run_le k.leader_id (at - first) first (suc k.index - first)
                    (expand (suc k.index) ks) (ground arith)))
      | inr f ↦
          rw (q, f)
            (ap (λ n. take n (expand first (k ∷ ks))) {x = 0} {y = at - first} (ground arith))
    ]
    | inr q ↦ rw q (
        ap (λ xs. run k.leader_id first (suc k.index - first) ++ xs)
          (expand-cut (suc k.index) ks at r.1)
        ∙ sym (
            take-run_ge k.leader_id (at - suc k.index) first (suc k.index - first) (at - first)
              (expand (suc k.index) ks) (ground arith)))
  ]

  pub expand-cut_front :
      (first : ℕ) (ks : List (LogId CLID)) (u : ℕ)
      → IsRising first ks
      → first ≤ suc u
      → expand (suc u) (cut_front ks u) ≡ drop (suc u - first) (expand first ks)
  expand-cut_front first [] u r h = sym (drop_nil (suc u - first))
  expand-cut_front first (k ∷ ks) u r h = elim (Bool-cases (leb k.index u)) [
    | inl q ↦ rw q (
        expand-cut_front (suc k.index) ks u r.1 (ground arith)
        ∙ sym (
            drop-run_ge k.leader_id (suc u - suc k.index) first (suc k.index - first)
              (suc u - first) (expand (suc k.index) ks) (ground arith)))
    | inr q ↦ rw q (
        ap (λ i. run k.leader_id i (suc k.index - suc u) ++ expand (suc k.index) ks) {x = suc u}
          {y = first + (suc u - first)} (ground arith)
        ∙ sym (
            drop-run_le k.leader_id (suc u - first) first (suc k.index - suc u)
              (suc k.index - first) (expand (suc k.index) ks) (ground arith)))
  ]

  last?-append_some :
      (xs ys : List (LogId CLID)) (y : LogId CLID) → last? ys ≡ some y → last? (xs ++ ys) ≡ some y
  last?-append_some [] ys y h = h
  last?-append_some (x ∷ []) [] y h = cc
  last?-append_some (x ∷ []) (z ∷ ys) y h = h
  last?-append_some (x ∷ w ∷ xs) ys y h = last?-append_some (w ∷ xs) ys y h

  pub last?-expand :
      (first : ℕ) (ks : List (LogId CLID)) → IsRising first ks → last? (expand first ks) ≡ last? ks
  last?-expand first [] r = refl
  last?-expand first (k ∷ []) r =
      ap last? (append-nil (run k.leader_id first (suc k.index - first)))
      ∙ ap last? (run-upto first k r.0)
      ∙ last?-append_some (run k.leader_id first (k.index - first)) (k ∷ []) k refl
  last?-expand first (k ∷ j ∷ ks) r = elim (Option-cases (last? (j ∷ ks))) [
    | inl e ↦ absurd (last?-cons j ks e)
    | inr (x, e) ↦
        last?-append_some (run k.leader_id first (suc k.index - first))
          (expand (suc k.index) (j ∷ ks)) x (last?-expand (suc k.index) (j ∷ ks) r.1 ∙ e)
        ∙ sym e
  ]

module _ {CLID : Type 0} ⦃o : Ord CLID⦄ where
  pub expand-push :
      (first : ℕ) (ks : List (LogId CLID)) (x : LogId CLID)
      → IsRising first ks
      → x.index ≡ end_of first ks
      → expand first (push_key_log_id ks x) ≡ expand first ks ++ x ∷ []
  unfolding push_key_log_id
  expand-push first [] x r e =
      ground (arith, append-nil (run x.leader_id first (suc x.index - first)), run-upto first x)
  expand-push first (k ∷ []) x r e = ground (
    arith,
    append-nil (run x.leader_id first (suc x.index - first)),
    append-nil (run k.leader_id first (suc k.index - first)),
    append-nil (run x.leader_id (suc k.index) (suc x.index - suc k.index)),
    o.cmp_eq k.leader_id x.leader_id,
    run-upto first x,
    run-upto first k,
  )
  expand-push first (k ∷ j ∷ ks) x r e = rw (expand-push (suc k.index) (j ∷ ks) x r.1 e) (
      sym (
        append_assoc (run k.leader_id first (suc k.index - first)) (expand (suc k.index) (j ∷ ks))
          (x ∷ [])))
