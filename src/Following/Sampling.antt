-- ===== src/Following/Sampling.antt =====
-- openraft/src/engine/handler/following_handler/mod.rs: the hint that a follower samples from its log
-- for a leader whose request conflicts.
use openraft.Prelude.{
  ℕ, zero, suc, ◌-◌, ◌≤◌, ◌<◌, ◌≡◌, ◌⊎◌, ◌∙◌, sym, refl, Option, none, some, List, [], ◌∷◌, max,
  length, drop, last?, first?, ltb, if◌then◌else◌, arith, All, inl, inr, length-drop, Option-cases,
}
use openraft.Prelude.Ord.{Ord}
use openraft.LogId.{LogId, next_index}
use openraft.LogIdList.{LogIdList, get, last, first_index}
use openraft.LogIdList.Runs.{IsRising, find_run, ref_in_keys_lem}
use openraft.LogIdList.Valid.{IsValid}
use openraft.LogIdList.Last.{last?-of_tail}
use openraft.RaftState.{local_committed}
use openraft.Following.{Following}
use openraft.Replication.Hint.{ConflictHint}

-- `MAX_CONFLICT_HINT_LOG_IDS`
abbrev pub max_conflict_hint_log_ids : ℕ
max_conflict_hint_log_ids = 8

-- `partition_point(|id| id.index() < committed_next)`, on a slice whose indexes increase
unfoldable pub partition_point : {CLID : Type 0} → List (LogId CLID) → ℕ → ℕ
partition_point [] committed_next = 0
partition_point (k ∷ ks) committed_next =
    let rest = partition_point ks committed_next in
    if ltb k.index committed_next then suc rest else 0

unfoldable pub samples :
    {CLID : Type 0} → Option (LogId CLID) → List (LogId CLID) → List (LogId CLID)
samples none boundaries = boundaries
samples (some committed) boundaries = committed ∷ boundaries

unfoldable pub conflict_hint : {LID CLID Mem : Type 0} → Following LID CLID Mem → ConflictHint CLID
unfolding partition_point samples
conflict_hint h =
    let committed = local_committed h.state in
    let boundaries = h.state.log_ids.key_log_ids in
    let committed_end = partition_point boundaries (next_index committed) in
    let recent_start = length boundaries - (max_conflict_hint_log_ids - 1) in
    record { log_ids = samples committed (drop (max committed_end recent_start) boundaries) }

module _ {CLID : Type 0} where
  -- runs that end at an index from `first` and from `committed_next` on, as the keys have them
  abbrev AreFound : ℕ → ℕ → List (LogId CLID) → List (LogId CLID) → Type 0
  AreFound first committed_next keys xs =
      All (λ x. (first ≤ x.index) × (committed_next ≤ x.index) × (find_run keys x.index ≡ some x))
        xs

  AreFound-cons :
      (first c : ℕ) (k : LogId CLID) (ks xs : List (LogId CLID))
      → first ≤ k.index
      → AreFound (suc k.index) c ks xs
      → AreFound first c (k ∷ ks) xs
  AreFound-cons first c k ks [] f h = tt
  AreFound-cons first c k ks (x ∷ xs) f h =
      ((ground (arith, h.0), h.0.1, ground (arith, h.0)), AreFound-cons first c k ks xs f h.1)

  partition_point-zero :
      (first c : ℕ) (ks : List (LogId CLID))
      → IsRising first ks
      → c ≤ first
      → partition_point ks c ≡ 0
  unfolding partition_point
  partition_point-zero first c [] r h = refl
  partition_point-zero first c (k ∷ ks) r h = ground arith

  drop-AreFound :
      (first c : ℕ) (ks : List (LogId CLID)) (n : ℕ)
      → IsRising first ks
      → partition_point ks c ≤ n
      → AreFound first c ks (drop n ks)
  unfolding partition_point
  drop-AreFound first c [] zero r h = tt
  drop-AreFound first c [] (suc n) r h = tt
  drop-AreFound first c (k ∷ ks) zero r h = (
    (r.0, ground arith, ground arith),
    AreFound-cons first c k ks ks r.0 (
        drop-AreFound (suc k.index) c ks zero r.1
          (ground (arith, partition_point-zero (suc k.index) c ks r.1))),
  )
  drop-AreFound first c (k ∷ ks) (suc n) r h = AreFound-cons first c k ks (drop n ks) r.0 (
      drop-AreFound (suc k.index) c ks n r.1
        (ground (arith, partition_point-zero (suc k.index) c ks r.1)))

  last?-drop : (ks : List (LogId CLID)) (n : ℕ) → n < length ks → last? (drop n ks) ≡ last? ks
  last?-drop [] n h = absurd (ground (arith, h))
  last?-drop (k ∷ ks) zero h = refl
  last?-drop (k ∷ []) (suc n) h = absurd (ground (arith, h))
  last?-drop (k ∷ j ∷ ks) (suc n) h = last?-drop (j ∷ ks) n (omega arith)

  partition_point-below :
      (ks : List (LogId CLID)) (c : ℕ) (k : LogId CLID)
      → last? ks ≡ some k
      → c ≤ k.index
      → partition_point ks c < length ks
  unfolding partition_point
  partition_point-below [] c k e h = cc
  partition_point-below (j ∷ []) c k e h = ground arith
  partition_point-below (j ∷ i ∷ ks) c k e h =
      ground (arith, partition_point-below (i ∷ ks) c k e h)

module _ {CLID : Type 0} where
  -- what a hint samples from a log, up to the last log id of it that is not committed yet
  pub record IsSampled (l : LogIdList CLID) (committed : Option (LogId CLID))
      (log_ids : List (LogId CLID)) : Type 0 where
    pub short : length log_ids ≤ max_conflict_hint_log_ids
    pub committed_first : (x : LogId CLID) → committed ≡ some x → first? log_ids ≡ some x
    pub held :
        All
          (λ x.
            (committed ≡ some x) ⊎ ((next_index committed ≤ x.index) × (get l x.index ≡ some x)))
          log_ids
    pub tail : next_index committed < next_index (last l) → last? log_ids ≡ last l

module _ {CLID : Type 0} ⦃o : Ord CLID⦄ where
  found-held :
      (l : LogIdList CLID) (committed : Option (LogId CLID)) (xs : List (LogId CLID))
      → AreFound (first_index l) (next_index committed) l.key_log_ids xs
      → All
          (λ x.
            (committed ≡ some x) ⊎ ((next_index committed ≤ x.index) × (get l x.index ≡ some x)))
          xs
  unfolding get first_index
  found-held l committed [] h = tt
  found-held l committed (x ∷ xs) h = (
    inr (h.0.1, ground (arith, ref_in_keys_lem (first_index l) l.key_log_ids x.index h.0.0, h.0)),
    found-held l committed xs h.1,
  )

  -- beyond what is committed, the last log id is the last key
  last-key :
      (l : LogIdList CLID) (c : ℕ)
      → first_index l ≤ c
      → c < next_index (last l)
      → (k : LogId CLID) × (last? l.key_log_ids ≡ some k) × (last l ≡ some k) × (c ≤ k.index)
  unfolding last first_index
  last-key l c f h = elim (Option-cases (last? l.key_log_ids)) [
    | inl e ↦ absurd (ground (arith, h))
    | inr (k, e) ↦ (k, e, rw (last, e) refl, ground (arith, h))
  ]

  last?-samples :
      (l : LogIdList CLID) (committed : Option (LogId CLID)) (start : ℕ)
      → first_index l ≤ next_index committed
      → start < length l.key_log_ids
      → next_index committed < next_index (last l)
      → last? (samples committed (drop start l.key_log_ids)) ≡ last l
  unfolding samples
  last?-samples l none start b t h =
      last?-drop l.key_log_ids start t ∙ (last-key l 0 b h).1 ∙ sym (last-key l 0 b h).2
  last?-samples l (some c) start b t h =
      last?-of_tail c (last-key l (suc c.index) b h).0 (drop start l.key_log_ids)
        (last?-drop l.key_log_ids start t ∙ (last-key l (suc c.index) b h).1)
      ∙ sym (last-key l (suc c.index) b h).2

  -- the samples from a position on, where the runs are not committed and at most seven
  samples-IsSampled :
      (l : LogIdList CLID) (committed : Option (LogId CLID)) (start : ℕ)
      → IsValid l
      → first_index l ≤ next_index committed
      → partition_point l.key_log_ids (next_index committed) ≤ start
      → length l.key_log_ids - (max_conflict_hint_log_ids - 1) ≤ start
      → (next_index committed < next_index (last l) → start < length l.key_log_ids)
      → IsSampled l committed (samples committed (drop start l.key_log_ids))
  unfolding samples first_index
  samples-IsSampled l none start v b p r t = record {
    short = omega (arith, length-drop start l.key_log_ids);
    committed_first = λ x e. absurd (none-some e);
    held =
        found-held l none (drop start l.key_log_ids)
          (drop-AreFound (first_index l) 0 l.key_log_ids start v.rising p);
    tail = λ h. last?-samples l none start b (t h) h;
  }
    where
      none-some : {x : LogId CLID} → none ≡ some x → ⊥
      none-some e = cc
  samples-IsSampled l (some c) start v b p r t = record {
    short = omega (arith, length-drop start l.key_log_ids);
    committed_first = λ x e. e;
    held = (
      inl refl,
      found-held l (some c) (drop start l.key_log_ids)
          (drop-AreFound (first_index l) (suc c.index) l.key_log_ids start v.rising p),
    );
    tail = λ h. last?-samples l (some c) start b (t h) h;
  }

  -- A hint of a valid log has at most eight log ids. The committed one comes first, if there is one,
  -- and each other is in the log, beyond what is committed; the last one is that of the log, if it has
  -- logs that are not committed. This is so if nothing is purged that is not committed.
  pub conflict_hint-IsSampled :
      {LID Mem : Type 0} (h : Following LID CLID Mem)
      → IsValid h.state.log_ids
      → first_index h.state.log_ids ≤ next_index (local_committed h.state)
      → IsSampled h.state.log_ids (local_committed h.state) (conflict_hint h).log_ids
  unfolding conflict_hint
  conflict_hint-IsSampled h v b =
      samples-IsSampled l (local_committed h.state) start v b (omega arith) (omega arith) (λ below.
        omega (
          arith,
          partition_point-below keys (next_index (local_committed h.state))
              (last-key l (next_index (local_committed h.state)) b below).0
              (last-key l (next_index (local_committed h.state)) b below).1
              (last-key l (next_index (local_committed h.state)) b below).3,
        ))
    where
      l : LogIdList CLID
      l = h.state.log_ids

      keys : List (LogId CLID)
      keys = l.key_log_ids

      start : ℕ
      start =
          max (partition_point keys (next_index (local_committed h.state)))
            (length keys - (max_conflict_hint_log_ids - 1))
