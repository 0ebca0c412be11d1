-- ===== src/LogIdList/Last.antt =====
-- The last log id of a `LogIdList`, and what `get` answers at it and below it.
use openraft.Prelude.{
  ℕ, suc, ◌≤◌, ◌<◌, ◌≡◌, ◌≢◌, refl, none, some, List, [], ◌∷◌, last?, arith, Option-cases, inl, inr,
}
use openraft.Prelude.Ord.{Ord}
use openraft.LogId.{LogId, next_index}
use openraft.LogIdList.{LogIdList, push_key_log_id, append, last, get, first_index, ref_in_purged}
use openraft.LogIdList.Runs.{IsRising, find_run, end_of, ref_in_keys_lem}
use openraft.LogIdList.Valid.{IsValid, next_index-last}
use openraft.LogIdList.View.{get-index}

module _ {CLID : Type 0} where
  find_run-below :
      (first : ℕ) (ks : List (LogId CLID)) (i : ℕ)
      → IsRising first ks
      → i < end_of first ks
      → first ≤ i
      → find_run ks i ≢ none
  find_run-below first [] i r h f e = omega arith
  find_run-below first (k ∷ ks) i r h f e = ground (arith, find_run-below (suc k.index) ks i)

  find_run-last? :
      (first : ℕ) (ks : List (LogId CLID)) (k : LogId CLID)
      → IsRising first ks
      → last? ks ≡ some k
      → (find_run ks k.index ≡ some k) × (first ≤ k.index)
  find_run-last? first [] k r h = cc
  find_run-last? first (j ∷ []) k r h = ground arith
  find_run-last? first (j ∷ i ∷ ks) k r h = ground (arith, find_run-last? (suc j.index) (i ∷ ks) k)

module _ {CLID : Type 0} ⦃o : Ord CLID⦄ where
  pub last?-of_tail :
      (k x : LogId CLID) (ks : List (LogId CLID)) → last? ks ≡ some x → last? (k ∷ ks) ≡ some x
  last?-of_tail k x [] h = ground arith
  last?-of_tail k x (j ∷ ks) h = h

  pub last?-push : (ks : List (LogId CLID)) (x : LogId CLID) → last? (push_key_log_id ks x) ≡ some x
  unfolding push_key_log_id
  last?-push [] x = refl
  last?-push (k ∷ []) x = ground arith
  last?-push (k ∷ j ∷ ks) x = last?-of_tail k x (push_key_log_id (j ∷ ks) x) (last?-push (j ∷ ks) x)

  pub last-append : (l : LogIdList CLID) (x : LogId CLID) → last (append l x) ≡ some x
  unfolding last append
  last-append l x = rw (last, last?-push l.key_log_ids x)

  -- Every index from the first one on, up to the last, has a log id.
  pub get-below :
      (l : LogIdList CLID) (i : ℕ)
      → IsValid l
      → first_index l ≤ i
      → i < next_index (last l)
      → get l i ≢ none
  unfolding get first_index
  get-below l i v f h = ground (
    arith,
    ref_in_keys_lem (next_index l.purged) l.key_log_ids i,
    next_index-last l,
    find_run-below (next_index l.purged) l.key_log_ids i,
  )

  -- The log id at the index of the last one is the last one.
  pub get-last :
      (l : LogIdList CLID) (x : LogId CLID) → IsValid l → last l ≡ some x → get l x.index ≡ some x
  unfolding last get first_index ref_in_purged
  get-last l x v h = elim (Option-cases (last? l.key_log_ids)) [
    | inl e ↦ ground arith
    | inr (k, e) ↦ ground (
      arith,
      find_run-last? (next_index l.purged) l.key_log_ids k,
      ref_in_keys_lem (next_index l.purged) l.key_log_ids k.index,
    )
  ]

  get-purged :
      (l : LogIdList CLID) (i : ℕ) {x : LogId CLID} → get l i ≡ some x → first_index l ≤ suc i
  unfolding get first_index ref_in_purged
  get-purged l i h = ground arith

  last-next :
      (l : LogIdList CLID) (y : LogId CLID)
      → IsValid l
      → get l y.index ≡ some y
      → get l (suc y.index) ≡ none
      → next_index (last l) ≡ suc y.index
  last-next l y v h n = ground (
    arith,
    get-below l (suc y.index) v,
    get-index l y.index {x = y} v,
    get-purged l y.index {x = y},
  )

  -- A log id that the list has, and after which it has none, is its last one.
  pub last-get :
      (l : LogIdList CLID) (y : LogId CLID)
      → IsValid l
      → get l y.index ≡ some y
      → get l (suc y.index) ≡ none
      → last l ≡ some y
  last-get l y v h n = elim (Option-cases (last l)) [
    | inl e ↦ ground (arith, last-next l y v h n)
    | inr (x, e) ↦ ground (arith, last-next l y v h n, get-last l x v e)
  ]

  -- A list that starts at index 0 and has no log id there is empty.
  pub last-none :
      (l : LogIdList CLID) → IsValid l → first_index l ≤ 0 → get l 0 ≡ none → last l ≡ none
  last-none l v f h = elim (Option-cases (last l)) [
    | inl e ↦ e
    | inr (x, e) ↦ absurd (get-below l 0 v f (rw e (ground arith)) h)
  ]
