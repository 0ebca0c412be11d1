-- ===== src/MembershipState/Valid.antt =====
-- The invariant of a `MembershipState`, which `validate` checks.
use openraft.Prelude.{
  not, Ordering, lt, eq, gt, ℕ, ◌≤◌, ◌≡◌, ◌⊎◌, refl, true, false, Option, none, some, arith,
}
use openraft.Prelude.Ord.{Ord, cmp_option, IsTotal, swap}
use openraft.LogId.{LogId, next_index, cmp_log_id, cmp_log_id-IsTotal}
use openraft.IoState.Ids.{log_ids-IsTotal}
use openraft.MembershipState.{
  MembershipState, StoredMembership, append, truncate, commit, log_id_le, log_id_lt, index_le,
  index_of, le_test, lt_test,
}

pub log_id_le_refl : {CLID : Type 0} ⦃o : Ord CLID⦄ (a : Option (LogId CLID)) → log_id_le a a ≡ true
log_id_le_refl {CLID} a = ground (arith, t.cmp_self a)
  where
    t : IsTotal (Option (LogId CLID)) (cmp_option cmp_log_id)
    t = log_ids-IsTotal

lt_test-swap : (c : Ordering) → lt_test c ≡ not (le_test (swap c))
lt_test-swap lt = refl
lt_test-swap eq = refl
lt_test-swap gt = refl

-- `<` of two options of log ids is the negation of `>=`
pub log_id_lt-not :
    {CLID : Type 0} ⦃o : Ord CLID⦄ (a b : Option (LogId CLID)) → log_id_lt a b ≡ not (log_id_le b a)
log_id_lt-not none none = refl
log_id_lt-not none (some y) = refl
log_id_lt-not (some x) none = refl
log_id_lt-not (some x) (some y) =
    rw (cmp_log_id-IsTotal.cmp_swap x y) (lt_test-swap (cmp_log_id x y))

index_le_refl : (a : Option ℕ) → index_le a a ≡ true
index_le_refl none = refl
index_le_refl (some i) = ground arith

module _ {CLID Mem : Type 0} ⦃o : Ord CLID⦄ where
  -- what `validate` checks
  pub record IsValid (s : MembershipState CLID Mem) : Type 0 where
    pub log_id_ordered : log_id_le s.committed.log_id s.effective.log_id ≡ true
    pub index_ordered : index_le (index_of s.committed.log_id) (index_of s.effective.log_id) ≡ true

  -- A membership with a greater log id and a greater index keeps the state valid, and the effective
  -- membership becomes the committed one.
  pub append-IsValid :
      (s : MembershipState CLID Mem) (m : StoredMembership CLID Mem)
      → log_id_lt s.effective.log_id m.log_id ≡ true
      → index_le (index_of s.effective.log_id) (index_of m.log_id) ≡ true
      → IsValid (append s m)
  unfolding append
  append-IsValid s m h k = record { log_id_ordered = ground arith; index_ordered = k }

  -- Whatever is committed, the state stays valid, and its committed membership never goes back.
  pub commit-IsValid :
      (s : MembershipState CLID Mem) (upto : Option (LogId CLID))
      → IsValid s
      → IsValid (commit s upto)
        × (log_id_le s.committed.log_id (commit s upto).committed.log_id ≡ true)
  unfolding commit
  commit-IsValid s upto h = (
    record {
      log_id_ordered = ground (
        arith,
        log_id_le_refl s.effective.log_id,
        index_le_refl (index_of s.effective.log_id),
        log_id_le_refl s.committed.log_id,
        index_le_refl (index_of s.committed.log_id),
      );
      index_ordered = ground (
        arith,
        log_id_le_refl s.effective.log_id,
        index_le_refl (index_of s.effective.log_id),
        log_id_le_refl s.committed.log_id,
        index_le_refl (index_of s.committed.log_id),
      );
    },
    ground (
      arith,
      log_id_le_refl s.effective.log_id,
      index_le_refl (index_of s.effective.log_id),
      log_id_le_refl s.committed.log_id,
      index_le_refl (index_of s.committed.log_id),
    ),
  )

  -- Truncation at any index keeps the state valid; unless it would remove the committed membership,
  -- the effective one that is left lies before it.
  pub truncate-IsValid :
      (s : MembershipState CLID Mem) (since : ℕ)
      → IsValid s
      → next_index s.committed.log_id ≤ since
      → IsValid (truncate s since).0 × (next_index (truncate s since).0.effective.log_id ≤ since)
  unfolding truncate
  truncate-IsValid s since h k = (
    record {
      log_id_ordered = ground (
        arith,
        log_id_le_refl s.effective.log_id,
        index_le_refl (index_of s.effective.log_id),
        log_id_le_refl s.committed.log_id,
        index_le_refl (index_of s.committed.log_id),
      );
      index_ordered = ground (
        arith,
        log_id_le_refl s.effective.log_id,
        index_le_refl (index_of s.effective.log_id),
        log_id_le_refl s.committed.log_id,
        index_le_refl (index_of s.committed.log_id),
      );
    },
    ground (
      arith,
      log_id_le_refl s.effective.log_id,
      index_le_refl (index_of s.effective.log_id),
      log_id_le_refl s.committed.log_id,
      index_le_refl (index_of s.committed.log_id),
    ),
  )

  -- what installing a snapshot's membership leaves: that membership alone, where the snapshot covers
  -- the effective one; otherwise the greater one is committed, and the effective one stays if its
  -- index is greater
  abbrev pub IsInstalled :
      MembershipState CLID Mem → StoredMembership CLID Mem → ℕ → MembershipState CLID Mem → Type 0
  IsInstalled s snapshot last_index s' =
      ((index_le (index_of s.effective.log_id) (some last_index) ≡ true)
        × (s' ≡ record { committed = snapshot; effective = snapshot }))
      ⊎ ((index_le (index_of s.effective.log_id) (some last_index) ≡ false)
          × (((log_id_lt s.committed.log_id snapshot.log_id ≡ true) × (s'.committed ≡ snapshot))
              ⊎ ((log_id_le snapshot.log_id s.committed.log_id ≡ true)
                  × (s'.committed ≡ s.committed)))
          × (log_id_le s.committed.log_id s'.committed.log_id ≡ true)
          × (s'.effective ≡ s.effective))
