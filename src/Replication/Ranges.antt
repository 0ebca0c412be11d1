-- ===== src/Replication/Ranges.antt =====
-- openraft/src/engine/leader_log_ids.rs: ranges of log ids of one leader, as extensions of a log.
use openraft.Prelude.{
  ℕ, suc, ◌+◌, ◌≡◌, ◌∙◌, ap, sym, Option, some, List, [], ◌∷◌, lt, arith, All, length,
}
use openraft.Prelude.Ord.{Ord, cmp_option}
use openraft.LogId.{LogId, next_index, cmp_log_id}
use openraft.LogIdList.{LogIdList, last, extend}
use openraft.LogIdList.Last.{last-append}
use openraft.LogIdList.Leaders.{
  extend_from_same_leader, extend_from_same_leader-eq-extend, end_of_run, extend-run,
}
use openraft.LeaderLogIds.{IsRange}
use openraft.Following.Append.{Follows}

module _ {CLID : Type 0} ⦃o : Ord CLID⦄ where
  -- a range of one leader follows the log id before it
  pub Follows-range :
      (c : CLID) (start : ℕ) (xs : List (LogId CLID)) (p : Option (LogId CLID))
      → next_index p ≡ start
      → cmp_option cmp_log_id p (some (record { leader_id = c; index = start })) ≡ lt
      → IsRange c start xs
      → Follows p xs
  unfolding cmp_log_id
  Follows-range c start [] p e h r = tt
  Follows-range c start (x ∷ xs) p e h r = (
    r.1 ∙ sym e,
    rw (r.0, r.1) h,
    Follows-range c (suc start) xs (some x) (ap suc r.1)
        (rw (r.0, r.1) (ground (arith, o.cmp_self c))) r.2,
  )

  leaders-range :
      (c : CLID) (start : ℕ) (xs : List (LogId CLID))
      → IsRange c start xs
      → All (λ y. y.leader_id ≡ c) xs
  leaders-range c start [] r = tt
  leaders-range c start (x ∷ xs) r = (r.0, leaders-range c (suc start) xs r.2)

  end-range :
      (c : CLID) (start : ℕ) (x : LogId CLID) (xs : List (LogId CLID))
      → IsRange c start (x ∷ xs)
      → end_of_run x xs ≡ record { leader_id = c; index = start + length xs }
  end-range c start x [] r = ground arith
  end-range c start x (y ∷ ys) r = end-range c (suc start) y ys r.2 ∙ ground arith

  extend-range :
      (l : LogIdList CLID) (c : CLID) (start : ℕ) (x : LogId CLID) (xs : List (LogId CLID))
      → IsRange c start (x ∷ xs)
      → last (extend l (x ∷ xs)) ≡ some (record { leader_id = c; index = start + length xs })
  unfolding extend
  extend-range l c start x xs r =
      ap last (extend-run l x xs (rw r.0 (leaders-range c (suc start) xs r.2)))
      ∙ last-append l (end_of_run x xs)
      ∙ ap some (end-range c start x xs r)

-- a range that is not empty extends the log as a run, whose last log id is the last of the range
pub extend_from_same_leader-range :
    {CLID : Type 0} ⦃o : Ord CLID⦄ (l : LogIdList CLID) (c : CLID) (start k : ℕ)
    (xs : List (LogId CLID))
    → IsRange c start xs
    → length xs ≡ suc k
    → (extend_from_same_leader l xs ≡ extend l xs)
      × (last (extend l xs) ≡ some (record { leader_id = c; index = start + k }))
extend_from_same_leader-range l c start k [] r e = absurd (omega (arith, e))
extend_from_same_leader-range l c start k (x ∷ xs) r e = (
  extend_from_same_leader-eq-extend l x xs (rw r.0 (leaders-range c (suc start) xs r.2)),
  rw (sym count) (extend-range l c start x xs r),
)
  where
    count : length xs ≡ k
    count = omega (arith, e)
