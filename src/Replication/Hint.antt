-- ===== src/Replication/Hint.antt =====
-- openraft/src/raft/message/conflict_hint.rs: the hint of a follower whose log conflicts, compared with
-- the leader's log.
use openraft.Prelude.{
  ℕ, suc, ◌≤◌, ◌≡◌, Option, none, some, List, [], ◌∷◌, ltb, min, not, if◌then◌else◌, last?, arith,
  inl, inr, Option-cases,
}
use openraft.Prelude.Ord.{Ord, is_eq, cmp_option}
use openraft.LogId.{LogId, next_index, cmp_log_id}
use openraft.LogIdList.{LogIdList, get}
use openraft.LogIdList.Valid.{IsValid}
use openraft.LogIdList.Leaders.{get_at_or_before, get_at_or_before_sound}
use openraft.IoState.Committed.{max_by}

pub record ConflictHint (CLID : Type 0) : Type 0 where
  pub log_ids : List (LogId CLID)

module _ {CLID : Type 0} ⦃o : Ord CLID⦄ where
  -- the divergence index, after the log id that both share of the sample's leader
  unfoldable pub diverge_after_shared : LogId CLID → Option (LogId CLID) → ℕ → ℕ
  diverge_after_shared sample none divergence = divergence
  diverge_after_shared sample (some shared) divergence =
      if ltb shared.index sample.index then min divergence (suc shared.index) else divergence

  unfoldable pub raise_common : Option (LogId CLID) → Option (LogId CLID) → Option (LogId CLID)
  raise_common common none = common
  raise_common common (some shared) = max_by (cmp_option cmp_log_id) common (some shared)

  -- the divergence index, after the log id that the list has at the sampled index
  unfoldable pub diverge_at : LogId CLID → Option (LogId CLID) → ℕ → ℕ
  diverge_at sample none divergence = divergence
  diverge_at sample (some log_id) divergence =
      if not (is_eq (cmp_log_id log_id sample)) then min divergence sample.index else divergence

  -- the loop over the samples
  unfoldable pub compare_samples :
      LogIdList CLID → List (LogId CLID) → Option (LogId CLID) → ℕ → Option (LogId CLID) × ℕ
  unfolding diverge_after_shared raise_common diverge_at get_at_or_before get
  compare_samples l [] common divergence = (common, divergence)
  compare_samples l (sample ∷ samples) common divergence =
      let shared = get_at_or_before l sample.leader_id sample.index in
      compare_samples l samples (raise_common common shared)
        (diverge_at sample (get l sample.index) (diverge_after_shared sample shared divergence))

  unfoldable pub compare_hint : ConflictHint CLID → LogIdList CLID → Option (LogId CLID) × ℕ
  unfolding compare_samples
  compare_hint hint l = compare_samples l hint.log_ids none (next_index (last? hint.log_ids))

  -- a shared log id: none, or one that the list has
  abbrev pub IsHeld : LogIdList CLID → Option (LogId CLID) → Type 0
  IsHeld l none = Unit
  IsHeld l (some x) = get l x.index ≡ some x

  raise_common-IsHeld :
      (l : LogIdList CLID) (common shared : Option (LogId CLID))
      → IsHeld l common
      → IsHeld l shared
      → IsHeld l (raise_common common shared)
  unfolding raise_common
  raise_common-IsHeld l common none h k = h
  raise_common-IsHeld l none (some shared) h k = ground arith
  raise_common-IsHeld l (some common) (some shared) h k = ground arith

  diverge_le :
      (sample : LogId CLID) (at shared : Option (LogId CLID)) (divergence : ℕ)
      → diverge_at sample at (diverge_after_shared sample shared divergence) ≤ divergence
  unfolding diverge_at diverge_after_shared
  diverge_le sample none none divergence = ground arith
  diverge_le sample none (some x) divergence = ground arith
  diverge_le sample (some y) none divergence = ground arith
  diverge_le sample (some y) (some x) divergence = ground arith

  shared-IsHeld :
      (l : LogIdList CLID) (sample : LogId CLID)
      → IsValid l
      → IsHeld l (get_at_or_before l sample.leader_id sample.index)
  shared-IsHeld l sample v =
      elim (Option-cases (get_at_or_before l sample.leader_id sample.index)) [
        | inl e ↦ rw e tt
        | inr (x, e) ↦ rw e (get_at_or_before_sound l sample.leader_id sample.index v e).2
      ]

  compare_samples_lem :
      (l : LogIdList CLID) (samples : List (LogId CLID)) (common : Option (LogId CLID))
      (divergence : ℕ)
      → IsValid l
      → IsHeld l common
      → IsHeld l (compare_samples l samples common divergence).0
        × ((compare_samples l samples common divergence).1 ≤ divergence)
  unfolding compare_samples
  compare_samples_lem l [] common divergence v h = (h, omega arith)
  compare_samples_lem l (sample ∷ samples) common divergence v h =
      let shared : Option (LogId CLID) = get_at_or_before l sample.leader_id sample.index in
      let rest =
        compare_samples_lem l samples (raise_common common shared)
          (diverge_at sample (get l sample.index) (diverge_after_shared sample shared divergence)) v
          (raise_common-IsHeld l common shared h (shared-IsHeld l sample v)) in
      (rest.0, omega (arith, rest.1, diverge_le sample (get l sample.index) shared divergence))

  -- Whatever a hint samples, the log id that it is compared to share is in the leader's log, and the
  -- logs diverge at the latest after the last sample.
  pub compare_hint_lem :
      (hint : ConflictHint CLID) (l : LogIdList CLID)
      → IsValid l
      → IsHeld l (compare_hint hint l).0
        × ((compare_hint hint l).1 ≤ next_index (last? hint.log_ids))
  unfolding compare_hint
  compare_hint_lem hint l v = compare_samples_lem l hint.log_ids none _ v tt
