-- ===== src/LogIdList/Runs.antt =====
-- The key log ids as a sequence of runs: entry `i` stands for the log ids of one leader from the
-- index after entry `i - 1` up to its own. The binary searches of the source are proved equal to
-- a walk along the runs.
use openraft.Prelude.{
  ℕ, suc, ◌-◌, ◌≤◌, ◌<◌, ◌≡◌, ◌≢◌, refl, Option, none, some, List, [], ◌∷◌, ltb, leb, ◌==◌, drop,
  last?, if◌then◌else◌, arith,
}
use openraft.Prelude.Ord.{Ord}
use openraft.LogId.{LogId}
use openraft.LogIdList.{passed, shift, binary_search, ref_in_keys, truncate_keys, push_key_log_id}

module _ {CLID : Type 0} where
  -- The log id at an index, by a walk along the runs.
  abbrev pub find_run : List (LogId CLID) → ℕ → Option (LogId CLID)
  find_run [] i = none
  find_run (k ∷ ks) i =
      if leb i k.index then some (record { leader_id = k.leader_id; index = i }) else find_run ks i

  -- The runs up to an index, exclusive.
  abbrev pub cut : ℕ → List (LogId CLID) → ℕ → List (LogId CLID)
  cut first [] at = []
  cut first (k ∷ ks) at =
      if leb at k.index
      then (if ltb first at then record { leader_id = k.leader_id; index = at - 1 } ∷ [] else [])
      else k ∷ cut (suc k.index) ks at

  -- The runs that end after an index.
  abbrev pub cut_front : List (LogId CLID) → ℕ → List (LogId CLID)
  cut_front [] i = []
  cut_front (k ∷ ks) i = if leb k.index i then cut_front ks i else k ∷ ks

  -- Every run is not empty.
  abbrev pub IsRising : ℕ → List (LogId CLID) → Type 0
  IsRising first [] = Unit
  IsRising first (k ∷ ks) = (first ≤ k.index) × IsRising (suc k.index) ks

  pub ref_in_keys_lem :
      (first : ℕ) (ks : List (LogId CLID)) (i : ℕ)
      → first ≤ i
      → ref_in_keys first ks i ≡ find_run ks i
  unfolding ref_in_keys
  ref_in_keys_lem first [] i h = refl
  ref_in_keys_lem first (k ∷ ks) i h = ground (arith, ref_in_keys_lem (suc k.index) ks i)

  pub truncate_keys-eq-cut :
      (first : ℕ) (ks : List (LogId CLID)) (at : ℕ) → truncate_keys first ks at ≡ cut first ks at
  unfolding truncate_keys
  truncate_keys-eq-cut first [] at = refl
  truncate_keys-eq-cut first (k ∷ ks) at = ground (arith, truncate_keys-eq-cut (suc k.index) ks at)

  cut_front_rest :
      (first : ℕ) (ks : List (LogId CLID)) (i : ℕ)
      → IsRising first ks
      → i < first
      → cut_front ks i ≡ ks
  cut_front_rest first [] i r h = refl
  cut_front_rest first (k ∷ ks) i r h = ground (arith)

  pub drop-passed-eq-cut_front :
      (first : ℕ) (ks : List (LogId CLID)) (i : ℕ)
      → IsRising first ks
      → drop (passed (binary_search ks i)) ks ≡ cut_front ks i
  unfolding binary_search passed shift
  drop-passed-eq-cut_front first [] i r = refl
  drop-passed-eq-cut_front first (k ∷ ks) i r =
      ground (arith, drop-passed-eq-cut_front (suc k.index) ks i, cut_front_rest (suc k.index) ks i)

  -- The index after the last run.
  abbrev pub end_of : ℕ → List (LogId CLID) → ℕ
  end_of first [] = first
  end_of first (k ∷ ks) = end_of (suc k.index) ks

  pub end_of-last? :
      (first : ℕ) (ks : List (LogId CLID)) (k : LogId CLID)
      → last? ks ≡ some k
      → end_of first ks ≡ suc k.index
  end_of-last? first [] k h = cc
  end_of-last? first (j ∷ []) k h = cc
  end_of-last? first (j ∷ i ∷ ks) k h = end_of-last? (suc j.index) (i ∷ ks) k h

  pub last?-cons : (j : LogId CLID) (ks : List (LogId CLID)) → last? (j ∷ ks) ≢ none
  last?-cons j [] h = cc
  last?-cons j (i ∷ ks) h = last?-cons i ks h

  pub end_of-last?-none :
      (first : ℕ) (ks : List (LogId CLID)) → last? ks ≡ none → end_of first ks ≡ first
  end_of-last?-none first [] h = refl
  end_of-last?-none first (j ∷ ks) h = absurd (last?-cons j ks h)

  pub le-end_of : (first : ℕ) (ks : List (LogId CLID)) → IsRising first ks → first ≤ end_of first ks
  le-end_of first [] r = omega arith
  le-end_of first (k ∷ ks) r = omega (arith, le-end_of (suc k.index) ks r.1)

  pub find_run-end :
      (first : ℕ) (ks : List (LogId CLID)) (i : ℕ)
      → IsRising first ks
      → end_of first ks ≤ i
      → find_run ks i ≡ none
  find_run-end first [] i r h = refl
  find_run-end first (k ∷ ks) i r h =
      ground (arith, find_run-end (suc k.index) ks i, le-end_of (suc k.index) ks)

  pub find_run-cut :
      (first : ℕ) (ks : List (LogId CLID)) (at i : ℕ)
      → IsRising first ks
      → first ≤ i
      → find_run (cut first ks at) i ≡ (if ltb i at then find_run ks i else none)
  find_run-cut first [] at i r h = ground arith
  find_run-cut first (k ∷ ks) at i r h = ground (arith, find_run-cut (suc k.index) ks at i)

  pub find_run-cut_front :
      (ks : List (LogId CLID)) (u i : ℕ) → u < i → find_run (cut_front ks u) i ≡ find_run ks i
  find_run-cut_front [] u i h = refl
  find_run-cut_front (k ∷ ks) u i h = ground (arith, find_run-cut_front ks u i)

  pub cut-IsRising :
      (first : ℕ) (ks : List (LogId CLID)) (at : ℕ)
      → IsRising first ks
      → IsRising first (cut first ks at)
  cut-IsRising first [] at r = tt
  cut-IsRising first (k ∷ ks) at r = ground (arith, cut-IsRising (suc k.index) ks at)

  pub cut_front-IsRising :
      (first : ℕ) (ks : List (LogId CLID)) (u : ℕ)
      → IsRising first ks
      → first ≤ suc u
      → IsRising (suc u) (cut_front ks u)
  cut_front-IsRising first [] u r h = tt
  cut_front-IsRising first (k ∷ ks) u r h = ground (arith, cut_front-IsRising (suc k.index) ks u)

module _ {CLID : Type 0} ⦃o : Ord CLID⦄ where
  pub find_run-push :
      (first : ℕ) (ks : List (LogId CLID)) (x : LogId CLID) (i : ℕ)
      → IsRising first ks
      → x.index ≡ end_of first ks
      → first ≤ i
      → find_run (push_key_log_id ks x) i ≡ (if i == x.index then some x else find_run ks i)
  unfolding push_key_log_id
  find_run-push first [] x i r e h = ground arith
  find_run-push first (k ∷ []) x i r e h = ground (arith, o.cmp_eq k.leader_id x.leader_id)
  find_run-push first (k ∷ j ∷ ks) x i r e h =
      ground (arith, find_run-push (suc k.index) (j ∷ ks) x i, le-end_of (suc j.index) ks)

  pub push-IsRising :
      (first : ℕ) (ks : List (LogId CLID)) (x : LogId CLID)
      → IsRising first ks
      → end_of first ks ≤ x.index
      → IsRising first (push_key_log_id ks x)
  unfolding push_key_log_id
  push-IsRising first [] x r e = ground arith
  push-IsRising first (k ∷ []) x r e = ground arith
  push-IsRising first (k ∷ j ∷ ks) x r e = ground (arith, push-IsRising (suc k.index) (j ∷ ks) x)
