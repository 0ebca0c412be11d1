-- ===== src/LogIdList/View.antt =====
-- A `LogIdList` as a map from indexes to log ids: what `get` answers after each operation.
use openraft.Prelude.{
  ℕ, suc, ◌≤◌, ◌<◌, ◌≡◌, true, false, Option, none, some, List, [], ◌∷◌, ltb, leb, ◌==◌,
  if◌then◌else◌, arith, ap, Bool-cases, inl, inr,
}
use openraft.Prelude.Ord.{Ord}
use openraft.LogId.{LogId, next_index}
use openraft.LogIdList.{
  LogIdList, last, first_index, get, truncate, purge, append, push_key_log_id, ref_in_purged,
}
use openraft.LogIdList.Runs.{
  find_run, IsRising, cut_front, end_of, truncate_keys-eq-cut, drop-passed-eq-cut_front,
  ref_in_keys_lem, find_run-end, find_run-cut, find_run-cut_front, find_run-push, le-end_of,
}
use openraft.LogIdList.Valid.{IsValid, next_index-last}

module _ {CLID : Type 0} ⦃o : Ord CLID⦄ where
  -- the answer of `get`, with the walk along the runs in place of the binary search
  abbrev pub view : Option (LogId CLID) → List (LogId CLID) → ℕ → Option (LogId CLID)
  view p ks i = if ltb i (next_index p) then ref_in_purged p i else find_run ks i

  pub get_lem : (l : LogIdList CLID) (i : ℕ) → get l i ≡ view l.purged l.key_log_ids i
  unfolding get
  get_lem l i = elim (Bool-cases (ltb i (next_index l.purged))) [
    | inl e ↦ rw (e)
    | inr e ↦ rw (e) (ref_in_keys_lem (next_index l.purged) l.key_log_ids i (ground arith))
  ]

  find_run-index :
      (first : ℕ) (ks : List (LogId CLID)) (i : ℕ) {x : LogId CLID}
      → IsRising first ks
      → find_run ks i ≡ some x
      → (x.index ≡ i) × (i < end_of first ks)
  find_run-index first [] i r h = cc
  find_run-index first (k ∷ ks) i {x} r h =
      ground (arith, find_run-index (suc k.index) ks i {x = x}, le-end_of (suc k.index) ks)

  -- A valid list answers with a log id of the index asked for, and with none past its last log id.
  pub get-index :
      (l : LogIdList CLID) (i : ℕ) {x : LogId CLID}
      → IsValid l
      → get l i ≡ some x
      → (x.index ≡ i) × (i < next_index (last l))
  unfolding ref_in_purged first_index
  get-index l i {x} v h = ground (
    arith,
    get_lem l i,
    next_index-last l,
    le-end_of (next_index l.purged) l.key_log_ids,
    find_run-index (next_index l.purged) l.key_log_ids i {x = x},
  )

  -- Once a log id that follows the last one is appended, its index has it, and every other index
  -- answers as before.
  pub get-append :
      (l : LogIdList CLID) (x : LogId CLID) (i : ℕ)
      → IsValid l
      → x.index ≡ next_index (last l)
      → get (append l x) i ≡ (if i == x.index then some x else get l i)
  unfolding get append
  get-append l x i v e = ground (
    arith,
    next_index-last l,
    le-end_of (next_index l.purged) l.key_log_ids,
    ref_in_keys_lem (next_index l.purged) l.key_log_ids i,
    ref_in_keys_lem (next_index l.purged) (push_key_log_id l.key_log_ids x) i,
    find_run-push (next_index l.purged) l.key_log_ids x i,
  )

  -- Truncating above the purged log id keeps the log ids before `at` and removes all others.
  pub get-truncate :
      (l : LogIdList CLID) (at i : ℕ)
      → IsValid l
      → first_index l ≤ at
      → get (truncate l at) i ≡ (if ltb i at then get l i else none)
  get-truncate l at i v h = elim (Bool-cases (at == 0)) [
    | inl e ↦
        rw (get_lem (truncate l at) i, get_lem l i) (unfold truncate first_index in ground arith)
    | inr e ↦
        rw (get_lem (truncate l at) i, get_lem l i)
          (unfold truncate first_index in
            rw (e, truncate_keys-eq-cut)
              (ground (arith, find_run-cut (next_index l.purged) l.key_log_ids at i)))
  ]

  -- the three branches of `purge`
  pub purge_beyond :
      (l : LogIdList CLID) (u : LogId CLID)
      → leb (next_index (last l)) u.index ≡ true
      → purge l u ≡ record { purged = some u; key_log_ids = [] }
  unfolding purge
  purge_beyond l u e = rw e

  pub purge_again :
      (l : LogIdList CLID) (u : LogId CLID)
      → leb (next_index (last l)) u.index ≡ false
      → ltb u.index (next_index l.purged) ≡ true
      → purge l u ≡ l
  unfolding purge
  purge_again l u e f = rw (e, f)

  pub purge_within :
      (l : LogIdList CLID) (u : LogId CLID)
      → IsValid l
      → leb (next_index (last l)) u.index ≡ false
      → ltb u.index (next_index l.purged) ≡ false
      → purge l u ≡ record { purged = some u; key_log_ids = cut_front l.key_log_ids u.index }
  unfolding purge
  purge_within l u v e f =
      rw (e, f, drop-passed-eq-cut_front (next_index l.purged) l.key_log_ids u.index v.rising)

  -- Purging answers `upto` at its index, nothing before it, and as before after it. It changes
  -- nothing if `upto` is purged already.
  pub get-purge :
      (l : LogIdList CLID) (u : LogId CLID) (i : ℕ)
      → IsValid l
      → get (purge l u) i ≡ (
          if ltb u.index (first_index l)
          then get l i
          else if i == u.index
          then some u
          else if ltb i u.index
          then none
          else get l i)
  unfolding first_index ref_in_purged
  get-purge l u i v = elim (Bool-cases (leb (next_index (last l)) u.index)) [
    | inl e ↦ ground (
      arith,
      ap (λ (m : LogIdList CLID). get m i) (purge_beyond l u e),
      get_lem (record { purged = some u; key_log_ids = [] }) i,
      get_lem l i,
      next_index-last l,
      le-end_of (next_index l.purged) l.key_log_ids,
      find_run-end (next_index l.purged) l.key_log_ids i,
    )
    | inr e ↦ elim (Bool-cases (ltb u.index (next_index l.purged))) [
      | inl f ↦ rw (purge_again l u e f, f)
      | inr f ↦ ground (
        arith,
        ap (λ (m : LogIdList CLID). get m i) (purge_within l u v e f),
        get_lem (record { purged = some u; key_log_ids = cut_front l.key_log_ids u.index }) i,
        get_lem l i,
        find_run-cut_front l.key_log_ids u.index i,
      )
    ]
  ]
