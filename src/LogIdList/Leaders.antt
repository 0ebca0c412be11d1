-- ===== src/LogIdList/Leaders.antt =====
-- openraft/src/engine/log_id_list.rs: log ids by their leaders.
use openraft.Prelude.{
  ℕ, suc, ◌≤◌, ◌≡◌, ◌∙◌, ap, refl, sym, Option, none, some, List, [], ◌∷◌, lt, eq, gt, last?, min,
  arith, All, if◌then◌else◌, ◌>>=◌, Bool-cases, Option-cases, inl, inr,
}
use openraft.Prelude.Ord.{Ord, is_eq}
use openraft.LogId.{LogId, cmp_log_id, cmp_log_id-IsTotal}
use openraft.LogIdList.{
  LogIdList, append, extend, push_key_log_id, get, first_index, last, same_leader,
}
use openraft.LogIdList.Valid.{IsValid}
use openraft.LogIdList.View.{get-index}
use openraft.LogIdList.Last.{last?-push}
use openraft.LeaderLogIds.{LeaderLogIds}

module _ {CLID : Type 0} ⦃o : Ord CLID⦄ where
  -- `it.next()`, then `it.next_back()` of what is left
  unfoldable pub extend_from_same_leader : LogIdList CLID → List (LogId CLID) → LogIdList CLID
  unfolding append
  extend_from_same_leader l [] = l
  extend_from_same_leader l (first ∷ rest) = elim (last? rest) [
    | none ↦ append l first
    | some last ↦
        if is_eq (cmp_log_id last first) then append l first else append (append l first) last
  ]

  -- What `binary_search_by(|id| id.committed_leader_id().cmp(leader_id))` finds on a slice whose
  -- leaders increase: `Some` is the entry at `Ok(i)`, `None` is `Err(_)`.
  unfoldable pub search_leader : List (LogId CLID) → CLID → Option (LogId CLID)
  search_leader [] leader_id = none
  search_leader (k ∷ ks) leader_id =
      let rest = search_leader ks leader_id in
      elim (o.cmp k.leader_id leader_id) [ lt ↦ rest | eq ↦ some k | gt ↦ none ]

  -- `if log_id.committed_leader_id() != leader_id { return None; }`
  unfoldable pub of_leader : CLID → LogId CLID → Option (LogId CLID)
  of_leader leader_id log_id =
      if is_eq (o.cmp log_id.leader_id leader_id) then some log_id else none

  unfoldable pub last_of_leader : LogIdList CLID → CLID → Option (LogId CLID)
  unfolding search_leader of_leader
  last_of_leader l leader_id = elim (search_leader l.key_log_ids leader_id) [
    | some k ↦ of_leader leader_id k
    | none ↦ l.purged >>= of_leader leader_id
  ]

  unfoldable pub get_at_or_before : LogIdList CLID → CLID → ℕ → Option (LogId CLID)
  unfolding last_of_leader get of_leader
  get_at_or_before l leader_id index = do
    last ← last_of_leader l leader_id
    log_id ← get l (min last.index index)
    of_leader leader_id log_id

  -- the index after the entry before the last, or `first` if there is none
  unfoldable pub last_run_start : ℕ → List (LogId CLID) → ℕ
  last_run_start first [] = first
  last_run_start first (k ∷ []) = first
  last_run_start first (k ∷ j ∷ ks) = last_run_start (suc k.index) (j ∷ ks)

  unfoldable pub by_last_leader : LogIdList CLID → Option (LeaderLogIds CLID)
  unfolding last first_index last_run_start
  by_last_leader l = elim (last l) [
    | none ↦ none
    | some x ↦ some (record {
      committed_leader_id = x.leader_id;
      first = elim l.key_log_ids [
        | [] ↦ x.index
        | (k ∷ ks) ↦ last_run_start (first_index l) (k ∷ ks)
      ];
      last = x.index;
    })
  ]

  push-cons :
      (k : LogId CLID) (ks : List (LogId CLID)) (z y : LogId CLID)
      → last? ks ≡ some z
      → push_key_log_id (k ∷ ks) y ≡ k ∷ push_key_log_id ks y
  unfolding push_key_log_id
  push-cons k [] z y h = cc
  push-cons k (j ∷ ks) z y h = refl

  push-push :
      (ks : List (LogId CLID)) (x y : LogId CLID)
      → x.leader_id ≡ y.leader_id
      → push_key_log_id (push_key_log_id ks x) y ≡ push_key_log_id ks y
  unfolding push_key_log_id
  push-push [] x y e = ground (arith, o.cmp_self y.leader_id)
  push-push (k ∷ []) x y e = elim (Bool-cases (same_leader k y)) [
    | inl q ↦ rw (e, q, o.cmp_self y.leader_id)
    | inr q ↦ rw (e, q, o.cmp_self y.leader_id)
  ]
  push-push (k ∷ j ∷ ks) x y e =
      push-cons k (push_key_log_id (j ∷ ks) x) x y (last?-push (j ∷ ks) x)
      ∙ ap (λ zs. k ∷ zs) (push-push (j ∷ ks) x y e)

  pub append-append :
      (l : LogIdList CLID) (x y : LogId CLID)
      → x.leader_id ≡ y.leader_id
      → append (append l x) y ≡ append l y
  unfolding append
  append-append l x y e = ap (λ ks. record l { key_log_ids = ks }) (push-push l.key_log_ids x y e)

  -- the last of a log id and those after it
  abbrev pub end_of_run : LogId CLID → List (LogId CLID) → LogId CLID
  end_of_run x [] = x
  end_of_run x (y ∷ ys) = end_of_run y ys

  last?-end_of_run :
      (x : LogId CLID) (xs : List (LogId CLID)) → last? (x ∷ xs) ≡ some (end_of_run x xs)
  last?-end_of_run x [] = refl
  last?-end_of_run x (y ∷ ys) = last?-end_of_run y ys

  pub extend-run :
      (l : LogIdList CLID) (x : LogId CLID) (xs : List (LogId CLID))
      → All (λ y. y.leader_id ≡ x.leader_id) xs
      → extend (append l x) xs ≡ append l (end_of_run x xs)
  unfolding extend
  extend-run l x [] h = refl
  extend-run l x (y ∷ ys) h = rw (append-append l x y (sym h.0)) (extend-run l y ys (rw h.0 h.1))

  leader-end_of_run :
      (c : CLID) (x : LogId CLID) (xs : List (LogId CLID))
      → x.leader_id ≡ c
      → All (λ y. y.leader_id ≡ c) xs
      → (end_of_run x xs).leader_id ≡ c
  leader-end_of_run c x [] e h = e
  leader-end_of_run c x (y ∷ ys) e h = leader-end_of_run c y ys h.0 h.1

  -- For log ids of one leader, appending the first and the last of them is appending them all.
  pub extend_from_same_leader-eq-extend :
      (l : LogIdList CLID) (x : LogId CLID) (xs : List (LogId CLID))
      → All (λ y. y.leader_id ≡ x.leader_id) xs
      → extend_from_same_leader l (x ∷ xs) ≡ extend l (x ∷ xs)
  unfolding extend_from_same_leader extend
  extend_from_same_leader-eq-extend l x [] h = refl
  extend_from_same_leader-eq-extend l x (y ∷ ys) h = elim (Bool-cases (is_eq (cmp_log_id last x))) [
    | inl q ↦
        rw (extend-run l x (y ∷ ys) h, extend_from_same_leader, last?-end_of_run y ys, q)
          (ap (append l) (sym (cmp_log_id-IsTotal.cmp_eq last x (ground arith))))
    | inr q ↦
        rw (extend-run l x (y ∷ ys) h, extend_from_same_leader, last?-end_of_run y ys, q)
          (append-append l x last (sym (leader-end_of_run x.leader_id y ys h.0 h.1)))
  ]
    where
      last : LogId CLID
      last = end_of_run y ys

  -- An answer is a log id of the list and of the leader, at the index or before it.
  pub get_at_or_before_sound :
      (l : LogIdList CLID) (leader_id : CLID) (index : ℕ) {x : LogId CLID}
      → IsValid l
      → get_at_or_before l leader_id index ≡ some x
      → (x.leader_id ≡ leader_id) × (x.index ≤ index) × (get l x.index ≡ some x)
  unfolding get_at_or_before of_leader
  get_at_or_before_sound l leader_id index {x} v h =
      elim (Option-cases (last_of_leader l leader_id)) [
        | inl e ↦ absurd (ground arith)
        | inr (k, e) ↦ elim (Option-cases (get l (min k.index index))) [
          | inl g ↦ ground arith
          | inr (y, g) ↦
              ground
                (arith, o.cmp_eq y.leader_id leader_id, get-index l (min k.index index) {x = y} v g)
        ]
      ]
