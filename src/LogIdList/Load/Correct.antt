-- ===== src/LogIdList/Load/Correct.antt =====
-- What the bisection is to find: the runs of a log whose leaders never decrease.
use openraft.Prelude.{
  ℕ, suc, ◌≤◌, ◌<◌, ◌≡◌, ◌≢◌, refl, none, some, gt, List, [], ◌∷◌, ltb, if◌then◌else◌, arith, last?,
}
use openraft.Prelude.Ord.{Ord}
use openraft.LogId.{LogId}
use openraft.LogIdList.{push_key_log_id, last}
use openraft.LogIdList.Runs.{find_run, IsRising, end_of, end_of-last?, le-end_of}
use openraft.LogIdList.Valid.{IsClimbing, IsClimbing-push}

module _ {CLID : Type 0} ⦃o : Ord CLID⦄ where
  end_of-push :
      (start : ℕ) (keys : List (LogId CLID)) (x : LogId CLID)
      → end_of start (push_key_log_id keys x) ≡ suc x.index
  unfolding push_key_log_id
  end_of-push start [] x = refl
  end_of-push start (k ∷ []) x = ground arith
  end_of-push start (k ∷ j ∷ ks) x = end_of-push (suc k.index) (j ∷ ks) x

  find_run-last? :
      (start : ℕ) (keys : List (LogId CLID)) {k : LogId CLID}
      → IsRising start keys
      → last? keys ≡ some k
      → find_run keys k.index ≡ some k
  find_run-last? start [] r h = cc
  find_run-last? start (j ∷ []) r h = ground arith
  find_run-last? start (j ∷ i ∷ ks) {k} r h = ground (
    arith,
    find_run-last? (suc j.index) (i ∷ ks) {k = k},
    end_of-last? (suc j.index) (i ∷ ks) k,
    le-end_of (suc i.index) ks,
  )

  -- A push at or after the end: `x` may be the last log id once more.
  Repeats : List (LogId CLID) → LogId CLID → Type 0
  Repeats keys x =
      (k : LogId CLID) → last? keys ≡ some k → k.index ≡ x.index → k.leader_id ≡ x.leader_id

  push-IsRising_again :
      (start : ℕ) (keys : List (LogId CLID)) (x : LogId CLID)
      → IsRising start keys
      → end_of start keys ≤ suc x.index
      → start ≤ x.index
      → Repeats keys x
      → IsRising start (push_key_log_id keys x)
  unfolding push_key_log_id Repeats
  push-IsRising_again start [] x r e s h = ground arith
  push-IsRising_again start (k ∷ []) x r e s h = ground (arith, h k refl, o.cmp_self k.leader_id)
  push-IsRising_again start (k ∷ j ∷ ks) x r e s h = (
    r.0,
    push-IsRising_again (suc k.index) (j ∷ ks) x r.1 e (omega (arith, le-end_of (suc j.index) ks))
        h,
  )

  find_run-push_again :
      (start : ℕ) (keys : List (LogId CLID)) (x : LogId CLID) (i : ℕ)
      → IsRising start keys
      → end_of start keys ≤ suc x.index
      → Repeats keys x
      → start ≤ i
      → i ≤ x.index
      → find_run (push_key_log_id keys x) i ≡ (
          if ltb i (end_of start keys)
          then find_run keys i
          else some (record { leader_id = x.leader_id; index = i }))
  unfolding push_key_log_id Repeats
  find_run-push_again start [] x i r e h s t = ground arith
  find_run-push_again start (k ∷ []) x i r e h s t =
      ground (arith, h k refl, o.cmp_eq k.leader_id x.leader_id)
  find_run-push_again start (k ∷ j ∷ ks) x i r e h s t =
      let ih = find_run-push_again (suc k.index) (j ∷ ks) x i r.1 e h in
      ground (arith, ih, le-end_of (suc j.index) ks)

  le-last? :
      (start : ℕ) (keys : List (LogId CLID)) {k : LogId CLID}
      → IsRising start keys
      → last? keys ≡ some k
      → start ≤ k.index
  le-last? start [] r h = cc
  le-last? start (j ∷ []) r h = ground arith
  le-last? start (j ∷ i ∷ ks) {k} r h = ground (arith, le-last? (suc j.index) (i ∷ ks) {k = k})

  last-of_keys :
      (keys : List (LogId CLID)) → last (record { purged = none; key_log_ids = keys }) ≡ last? keys
  unfolding last
  last-of_keys keys = ground arith

  -- A log: the leader of each index.
  abbrev pub at : (ℕ → CLID) → ℕ → LogId CLID
  at leader i = record { leader_id = leader i; index = i }

  abbrev pub IsMonotone : (ℕ → CLID) → Type 0
  IsMonotone leader = (i j : ℕ) → i ≤ j → o.cmp (leader i) (leader j) ≢ gt

  -- `keys` are the runs of the log from `start` up to `end`, exclusive.
  pub record IsRunsOf (leader : ℕ → CLID) (start end : ℕ) (keys : List (LogId CLID)) : Type 0 where
    pub rising : IsRising start keys
    pub climbing : IsClimbing none keys
    pub ends : end_of start keys ≡ end
    pub finds : (i : ℕ) → start ≤ i → i < end → find_run keys i ≡ some (at leader i)

  module _ (leader : ℕ → CLID) (start : ℕ) where
    last-IsRunsOf :
        (end : ℕ) (keys : List (LogId CLID)) (k : LogId CLID)
        → IsRunsOf leader start end keys
        → last? keys ≡ some k
        → (suc k.index ≡ end) × (k.leader_id ≡ leader k.index)
    last-IsRunsOf end keys k r h = ground (
      arith,
      end_of-last? start keys k,
      find_run-last? start keys {k = k},
      le-last? start keys {k = k},
      r.finds k.index,
    )

    repeats :
        (end : ℕ) (keys : List (LogId CLID)) (i : ℕ)
        → IsRunsOf leader start end keys
        → Repeats keys (at leader i)
    unfolding Repeats
    repeats end keys i r k l q = rw (← q) (last-IsRunsOf end keys k r l).1

    follows :
        (end : ℕ) (keys : List (LogId CLID)) (i : ℕ)
        → IsMonotone leader
        → IsRunsOf leader start end keys
        → end ≤ suc i
        → (k : LogId CLID) → last (record { purged = none; key_log_ids = keys }) ≡ some k
        → o.cmp k.leader_id (leader i) ≢ gt
    follows end keys i m r h k l =
        let f = last-IsRunsOf end keys k r (rw last-of_keys at l) in
        rw (f.1) (m k.index i (omega (arith, f.0)))

    -- one more run, or a longer last run
    pub push-IsRunsOf :
        (end : ℕ) (keys : List (LogId CLID)) (i : ℕ)
        → IsMonotone leader
        → IsRunsOf leader start end keys
        → end ≤ suc i
        → start ≤ i
        → ((j : ℕ) → end ≤ j → j ≤ i → leader j ≡ leader i)
        → IsRunsOf leader start (suc i) (push_key_log_id keys (at leader i))
    push-IsRunsOf end keys i m r k s e = record {
      rising =
          push-IsRising_again start keys (at leader i) r.rising (rw r.ends k) s
            (repeats end keys i r);
      climbing = IsClimbing-push none keys (at leader i) r.climbing (follows end keys i m r k);
      ends = end_of-push start keys (at leader i);
      finds = λ j h g.
          rw
            (
              find_run-push_again start keys (at leader i) j r.rising (rw r.ends k)
                  (repeats end keys i r) h (omega arith),
              r.ends,
            )
            (ground (arith, r.finds j, e j));
    }
