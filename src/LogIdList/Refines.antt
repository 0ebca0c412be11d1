-- ===== src/LogIdList/Refines.antt =====
-- A `LogIdList` implements a log of all its log ids: the log that it stands for takes each operation
-- as a list does.
use openraft.Prelude.{
  ℕ, zero, suc, ◌+◌, ◌-◌, ◌≤◌, ◌<◌, ◌≡◌, ◌∙◌, ap, sym, subst, refl, Option, none, some, lt, List,
  [], ◌∷◌, ◌++◌, ltb, leb, ◌==◌, last?, take, drop, get_elem?, if◌then◌else◌, arith, Bool-cases,
  inl, inr,
}
use openraft.Prelude.Ord.{Ord, cmp_option}
use openraft.LogId.{LogId, next_index, cmp_log_id}
use openraft.LogIdList.{LogIdList, last, get, first_index, append, truncate, purge}
use openraft.LogIdList.Runs.{IsRising, find_run, ref_in_keys_lem, truncate_keys-eq-cut}
use openraft.LogIdList.Valid.{
  IsValid, next_index-last, append-IsValid, truncate-IsValid, purge-IsValid,
}
use openraft.LogIdList.View.{purge_beyond, purge_again, purge_within}
use openraft.LogIdList.Full.{expand, run, expand-cut, expand-cut_front, last?-expand, expand-push}

-- the purged log id, and every log id after it
pub record FullLog (CLID : Type 0) : Type 0 where
  pub purged : Option (LogId CLID)
  pub ids : List (LogId CLID)

pub data Op (CLID : Type 0) : Type 0 where
  append_op : LogId CLID → Op CLID
  truncate_op : ℕ → Op CLID
  purge_op : LogId CLID → Op CLID

module _ {CLID : Type 0} where
  abbrev pub last_full : FullLog CLID → Option (LogId CLID)
  last_full f = elim (last? f.ids) [ none ↦ f.purged | some x ↦ some x ]

  abbrev pub purge_full : FullLog CLID → LogId CLID → FullLog CLID
  purge_full f u =
      if leb (next_index (last_full f)) u.index
      then record { purged = some u; ids = [] }
      else if ltb u.index (next_index f.purged)
      then f
      else record { purged = some u; ids = drop (suc u.index - next_index f.purged) f.ids }

  abbrev pub step_full : FullLog CLID → Op CLID → FullLog CLID
  step_full f (append_op x) = record f { ids = f.ids ++ x ∷ [] }
  step_full f (truncate_op at) = record f { ids = take (at - next_index f.purged) f.ids }
  step_full f (purge_op u) = purge_full f u

  abbrev pub full : LogIdList CLID → FullLog CLID
  full l = record { purged = l.purged; ids = expand (next_index l.purged) l.key_log_ids }

  abbrev pub replay : FullLog CLID → List (Op CLID) → FullLog CLID
  replay f [] = f
  replay f (op ∷ ops) = replay (step_full f op) ops

  get_elem?-run :
      (c : CLID) (n first m : ℕ) (ys : List (LogId CLID))
      → get_elem? (run c first m ++ ys) n ≡ (
          if ltb n m
          then some (record { leader_id = c; index = first + n })
          else get_elem? ys (n - m))
  get_elem?-run c n first zero ys = ground arith
  get_elem?-run c zero first (suc m) ys = ground arith
  get_elem?-run c (suc n) first (suc m) ys = ground (arith, get_elem?-run c n (suc first) m ys)

  get_elem?-expand :
      (first : ℕ) (ks : List (LogId CLID)) (i : ℕ)
      → IsRising first ks
      → first ≤ i
      → find_run ks i ≡ get_elem? (expand first ks) (i - first)
  get_elem?-expand first [] i r h = refl
  get_elem?-expand first (k ∷ ks) i r h = ground (
    arith,
    get_elem?-run k.leader_id (i - first) first (suc k.index - first) (expand (suc k.index) ks),
    get_elem?-expand (suc k.index) ks i,
  )

module _ {CLID : Type 0} ⦃o : Ord CLID⦄ where
  unfoldable pub step : LogIdList CLID → Op CLID → LogIdList CLID
  step l (append_op x) = append l x
  step l (truncate_op at) = truncate l at
  step l (purge_op u) = purge l u

  unfoldable pub run_ops : LogIdList CLID → List (Op CLID) → LogIdList CLID
  run_ops l [] = l
  run_ops l (op ∷ ops) = run_ops (step l op) ops

  -- what an operation asks of the log: an appended log id is the next one, and a purged log id is
  -- in the log or beyond its end
  abbrev pub IsAllowed : FullLog CLID → Op CLID → Type 0
  IsAllowed f (append_op x) =
      (x.index ≡ next_index (last_full f)) × (cmp_option cmp_log_id (last_full f) (some x) ≡ lt)
  IsAllowed f (truncate_op at) = Unit
  IsAllowed f (purge_op u) =
      next_index f.purged ≤ u.index
      → u.index < next_index (last_full f)
      → get_elem? f.ids (u.index - next_index f.purged) ≡ some u

  abbrev pub AreAllowed : FullLog CLID → List (Op CLID) → Type 0
  AreAllowed f [] = Unit
  AreAllowed f (op ∷ ops) = IsAllowed f op × AreAllowed (step_full f op) ops

  last-full : (l : LogIdList CLID) → IsValid l → last_full (full l) ≡ last l
  unfolding last
  last-full l v = ground (arith, last?-expand (next_index l.purged) l.key_log_ids v.rising)

  get-full :
      (l : LogIdList CLID) (i : ℕ)
      → IsValid l
      → first_index l ≤ i
      → get l i ≡ get_elem? (full l).ids (i - first_index l)
  unfolding get first_index
  get-full l i v h = ground (
    arith,
    ref_in_keys_lem (next_index l.purged) l.key_log_ids i,
    get_elem?-expand (next_index l.purged) l.key_log_ids i v.rising,
  )

  append_refines :
      (l : LogIdList CLID) (x : LogId CLID)
      → IsValid l
      → x.index ≡ next_index (last l)
      → cmp_option cmp_log_id (last l) (some x) ≡ lt
      → IsValid (append l x) × (full (append l x) ≡ step_full (full l) (append_op x))
  append_refines l x v e h = (
    append-IsValid l x v (omega (arith, e)) h,
    unfold append in
        ap (λ ids. record { purged = l.purged; ids = ids })
          (expand-push (next_index l.purged) l.key_log_ids x v.rising
            (e ∙ unfold first_index in next_index-last l)),
  )

  truncate_refines :
      (l : LogIdList CLID) (at : ℕ)
      → IsValid l
      → full (truncate l at) ≡ step_full (full l) (truncate_op at)
  unfolding truncate first_index
  truncate_refines l at v = elim (Bool-cases (at == 0)) [
    | inl q ↦ rw q (
        ap (λ n. record { purged = l.purged; ids = take n (full l).ids }) {x = 0}
          {y = at - next_index l.purged} (ground arith))
    | inr q ↦
        rw (q, truncate_keys-eq-cut)
          (ap (λ ids. record { purged = l.purged; ids = ids })
            (expand-cut (next_index l.purged) l.key_log_ids at v.rising))
  ]

  purge_refines :
      (l : LogIdList CLID) (u : LogId CLID) → IsValid l → full (purge l u) ≡ purge_full (full l) u
  purge_refines l u v = elim (Bool-cases (leb (next_index (last l)) u.index)) [
    | inl q ↦ rw (purge_beyond l u q, last-full l v, q) refl
    | inr q ↦ elim (Bool-cases (ltb u.index (next_index l.purged))) [
      | inl f ↦ rw (purge_again l u q f, last-full l v, q, f) refl
      | inr f ↦
          rw (purge_within l u v q f, last-full l v, q, f)
            (ap (λ ids. record { purged = some u; ids = ids })
              (expand-cut_front (next_index l.purged) l.key_log_ids u.index v.rising
                (ground arith)))
    ]
  ]

  step_refines :
      (l : LogIdList CLID) (op : Op CLID)
      → IsValid l
      → IsAllowed (full l) op
      → IsValid (step l op) × (full (step l op) ≡ step_full (full l) op)
  unfolding step
  step_refines l (append_op x) v h =
      append_refines l x v (h.0 ∙ ap next_index (last-full l v)) (rw (last-full l v) at h.1)
  step_refines l (truncate_op at) v h = (truncate-IsValid l at v, truncate_refines l at v)
  step_refines l (purge_op u) v h = (
    purge-IsValid l u v
        (λ p q. get-full l u.index v p ∙ unfold first_index in h p (rw (last-full l v) q)),
    purge_refines l u v,
  )

  -- From a valid list, any operations that the log allows keep the list valid and leave the log
  -- that a list of all log ids has after them, and `get` answers with its entries.
  pub run_refines :
      (ops : List (Op CLID)) (l : LogIdList CLID)
      → IsValid l
      → AreAllowed (full l) ops
      → IsValid (run_ops l ops)
        × (full (run_ops l ops) ≡ replay (full l) ops)
        × ((i : ℕ)
            → first_index (run_ops l ops) ≤ i
            → get (run_ops l ops) i
              ≡ get_elem? (replay (full l) ops).ids (i - first_index (run_ops l ops)))
  unfolding run_ops
  run_refines [] l v h = (v, refl, λ i k. get-full l i v k)
  run_refines (op ∷ ops) l v h =
      let (valid, e) = step_refines l op v h.0 in
      subst
        (λ f.
          IsValid (run_ops (step l op) ops)
          × (full (run_ops (step l op) ops) ≡ replay f ops)
          × ((i : ℕ)
              → first_index (run_ops (step l op) ops) ≤ i
              → get (run_ops (step l op) ops) i
                ≡ get_elem? (replay f ops).ids (i - first_index (run_ops (step l op) ops))))
        e (run_refines ops (step l op) valid (subst (λ f. AreAllowed f ops) (sym e) h.1))
