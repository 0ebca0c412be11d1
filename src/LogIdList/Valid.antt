-- ===== src/LogIdList/Valid.antt =====
-- The invariant of a `LogIdList`: the runs follow one another from the
-- purged log id on, none is empty, and their leaders increase.
use openraft.Prelude.{
  ℕ, suc, ◌≤◌, ◌<◌, ◌≡◌, ◌≢◌, refl, Option, none, some, lt, gt, List, [], ◌∷◌, ltb, leb, ◌==◌,
  last?, arith, Option-cases, Bool-cases, inl, inr,
}
use openraft.Prelude.Ord.{Ord, cmp_option}
use openraft.LogId.{LogId, next_index, cmp_log_id}
use openraft.LogIdList.{
  LogIdList, last, get, first_index, truncate, purge, append, push_key_log_id, empty,
}
use openraft.LogIdList.Runs.{
  last?-cons, IsRising, cut, cut_front, find_run, end_of, truncate_keys-eq-cut,
  drop-passed-eq-cut_front, end_of-last?, ref_in_keys_lem, end_of-last?-none, cut-IsRising,
  cut_front-IsRising, push-IsRising,
}

module _ {CLID : Type 0} ⦃o : Ord CLID⦄ where
  -- the leaders of the runs increase, from a leader on
  abbrev pub IsAbove : CLID → List (LogId CLID) → Type 0
  IsAbove c [] = Unit
  IsAbove c (k ∷ ks) = (o.cmp c k.leader_id ≡ lt) × IsAbove k.leader_id ks

  -- the first run may go on with the leader of the purged log id
  abbrev pub IsClimbing : Option (LogId CLID) → List (LogId CLID) → Type 0
  IsClimbing p [] = Unit
  IsClimbing none (k ∷ ks) = IsAbove k.leader_id ks
  IsClimbing (some p) (k ∷ ks) = (o.cmp p.leader_id k.leader_id ≢ gt) × IsAbove k.leader_id ks

  pub record IsValid (l : LogIdList CLID) : Type 0 where
    pub rising : IsRising (next_index l.purged) l.key_log_ids
    pub climbing : IsClimbing l.purged l.key_log_ids

  pub next_index-last :
      (l : LogIdList CLID) → next_index (last l) ≡ end_of (first_index l) l.key_log_ids
  unfolding last first_index
  next_index-last l = elim (Option-cases (last? l.key_log_ids)) [
    | inl e ↦ ground (arith, end_of-last?-none (next_index l.purged) l.key_log_ids)
    | inr (k, e) ↦ ground (arith, end_of-last? (next_index l.purged) l.key_log_ids k)
  ]

  IsAbove-cut :
      (c : CLID) (first : ℕ) (ks : List (LogId CLID)) (at : ℕ)
      → IsAbove c ks
      → IsAbove c (cut first ks at)
  IsAbove-cut c first [] at h = tt
  IsAbove-cut c first (k ∷ ks) at h = ground (arith, IsAbove-cut k.leader_id (suc k.index) ks at)

  IsAbove-trans :
      (c d : CLID) (ks : List (LogId CLID)) → o.cmp c d ≡ lt → IsAbove d ks → IsAbove c ks
  IsAbove-trans c d [] e h = tt
  IsAbove-trans c d (k ∷ ks) e h = (o.cmp_lt c d k.leader_id e h.0, h.1)

  IsAbove-cut_front :
      (c : CLID) (ks : List (LogId CLID)) (u : ℕ) → IsAbove c ks → IsAbove c (cut_front ks u)
  IsAbove-cut_front c [] u h = tt
  IsAbove-cut_front c (k ∷ ks) u h =
      ground (arith, IsAbove-cut_front c ks u, IsAbove-trans c k.leader_id ks)

  IsAbove-push :
      (c : CLID) (ks : List (LogId CLID)) (x : LogId CLID)
      → IsAbove c ks
      → (last? ks ≡ none → o.cmp c x.leader_id ≡ lt)
      → ((k : LogId CLID) → last? ks ≡ some k → o.cmp k.leader_id x.leader_id ≢ gt)
      → IsAbove c (push_key_log_id ks x)
  unfolding push_key_log_id
  IsAbove-push c [] x h n e = (n refl, tt)
  IsAbove-push c (k ∷ []) x h n e = ground (arith, e k, o.cmp_eq k.leader_id x.leader_id)
  IsAbove-push c (k ∷ j ∷ ks) x h n e =
      (h.0, IsAbove-push k.leader_id (j ∷ ks) x h.1 (λ m. absurd (last?-cons j ks m)) e)

  IsClimbing-cut :
      (p : Option (LogId CLID)) (first : ℕ) (ks : List (LogId CLID)) (at : ℕ)
      → IsClimbing p ks
      → IsClimbing p (cut first ks at)
  IsClimbing-cut p first [] at h = h
  IsClimbing-cut none first (k ∷ ks) at h =
      ground (arith, IsAbove-cut k.leader_id (suc k.index) ks at)
  IsClimbing-cut (some p) first (k ∷ ks) at h =
      ground (arith, IsAbove-cut k.leader_id (suc k.index) ks at)

  IsClimbing-of_above :
      (p : LogId CLID) (ks : List (LogId CLID)) → IsAbove p.leader_id ks → IsClimbing (some p) ks
  IsClimbing-of_above p [] h = tt
  IsClimbing-of_above p (k ∷ ks) h = ground (arith)

  -- the purged log id is that of a run
  IsAbove-purge :
      (c : CLID) (ks : List (LogId CLID)) (u : LogId CLID)
      → IsAbove c ks
      → find_run ks u.index ≡ some u
      → IsClimbing (some u) (cut_front ks u.index)
  IsAbove-purge c [] u h e = tt
  IsAbove-purge c (k ∷ ks) u h e = ground (
    arith,
    IsAbove-purge k.leader_id ks u,
    IsAbove-cut_front k.leader_id ks u.index,
    IsClimbing-of_above u (cut_front ks u.index),
    o.cmp_self k.leader_id,
  )

  pub IsClimbing-purge :
      (p : Option (LogId CLID)) (ks : List (LogId CLID)) (u : LogId CLID)
      → IsClimbing p ks
      → find_run ks u.index ≡ some u
      → IsClimbing (some u) (cut_front ks u.index)
  IsClimbing-purge p [] u h e = tt
  IsClimbing-purge none (k ∷ ks) u h e = ground (
    arith,
    IsAbove-purge k.leader_id ks u,
    IsAbove-cut_front k.leader_id ks u.index,
    IsClimbing-of_above u (cut_front ks u.index),
    o.cmp_self k.leader_id,
  )
  IsClimbing-purge (some p) (k ∷ ks) u h e = ground (
    arith,
    IsAbove-purge k.leader_id ks u,
    IsAbove-cut_front k.leader_id ks u.index,
    IsClimbing-of_above u (cut_front ks u.index),
    o.cmp_self k.leader_id,
  )

  leader-le : (a b : LogId CLID) → cmp_log_id a b ≡ lt → o.cmp a.leader_id b.leader_id ≢ gt
  unfolding cmp_log_id
  leader-le a b h k = ground arith

  push_above :
      (k : LogId CLID) (ks : List (LogId CLID)) (x : LogId CLID)
      → IsAbove k.leader_id ks
      → ((m : LogId CLID) → last? (k ∷ ks) ≡ some m → o.cmp m.leader_id x.leader_id ≢ gt)
      → IsClimbing none (push_key_log_id (k ∷ ks) x)
  unfolding push_key_log_id
  push_above k [] x h e = ground (arith, e k, o.cmp_eq k.leader_id x.leader_id)
  push_above k (j ∷ ks) x h e =
      IsAbove-push k.leader_id (j ∷ ks) x h (λ m. absurd (last?-cons j ks m)) e

  push-IsClimbing :
      (p k : LogId CLID) (ks : List (LogId CLID)) (x : LogId CLID)
      → IsClimbing (some p) (k ∷ ks)
      → ((m : LogId CLID) → last? (k ∷ ks) ≡ some m → o.cmp m.leader_id x.leader_id ≢ gt)
      → IsClimbing (some p) (push_key_log_id (k ∷ ks) x)
  unfolding push_key_log_id
  push-IsClimbing p k [] x h e = ground (arith, e k, o.cmp_eq k.leader_id x.leader_id)
  push-IsClimbing p k (j ∷ ks) x h e =
      (h.0, IsAbove-push k.leader_id (j ∷ ks) x h.1 (λ m. absurd (last?-cons j ks m)) e)

  pub IsClimbing-push :
      (p : Option (LogId CLID)) (ks : List (LogId CLID)) (x : LogId CLID)
      → IsClimbing p ks
      → ((m : LogId CLID)
          → last (record { purged = p; key_log_ids = ks }) ≡ some m
          → o.cmp m.leader_id x.leader_id ≢ gt)
      → IsClimbing p (push_key_log_id ks x)
  unfolding last
  IsClimbing-push none [] x h e = unfold push_key_log_id in tt
  IsClimbing-push (some p) [] x h e = unfold push_key_log_id in (e p refl, tt)
  IsClimbing-push none (k ∷ ks) x h e = push_above k ks x h (λ m q. e m (rw (last, q)))
  IsClimbing-push (some p) (k ∷ ks) x h e = push-IsClimbing p k ks x h (λ m q. e m (rw (last, q)))

  pub empty-IsValid : IsValid empty
  unfolding empty
  empty-IsValid = record { rising = tt; climbing = tt }

  -- Appending a log id after the last one, in index and in order, keeps the invariant.
  pub append-IsValid :
      (l : LogIdList CLID) (x : LogId CLID)
      → IsValid l
      → next_index (last l) ≤ x.index
      → cmp_option cmp_log_id (last l) (some x) ≡ lt
      → IsValid (append l x)
  unfolding append
  append-IsValid l x v h e = record {
    rising =
        push-IsRising (next_index l.purged) l.key_log_ids x v.rising
          (unfold first_index in omega (arith, next_index-last l));
    climbing =
        IsClimbing-push l.purged l.key_log_ids x v.climbing (λ m q. leader-le m x (rw q at e));
  }

  -- Truncating at any index keeps the invariant.
  pub truncate-IsValid : (l : LogIdList CLID) (at : ℕ) → IsValid l → IsValid (truncate l at)
  unfolding truncate first_index
  truncate-IsValid l at v = elim (Bool-cases (at == 0)) [
    | inl e ↦ rw e (record { rising = tt; climbing = tt })
    | inr e ↦
        rw (e, truncate_keys-eq-cut)
          (record {
            rising = cut-IsRising (next_index l.purged) l.key_log_ids at v.rising;
            climbing = IsClimbing-cut l.purged (next_index l.purged) l.key_log_ids at v.climbing;
          })
  ]

  -- Purging up to a log id of the list, or up to one beyond its end, keeps the invariant.
  pub purge-IsValid :
      (l : LogIdList CLID) (u : LogId CLID)
      → IsValid l
      → (first_index l ≤ u.index → u.index < next_index (last l) → get l u.index ≡ some u)
      → IsValid (purge l u)
  unfolding purge first_index get
  purge-IsValid l u v h = elim (Bool-cases (leb (next_index (last l)) u.index)) [
    | inl e ↦ rw e (record { rising = tt; climbing = tt })
    | inr e ↦ elim (Bool-cases (ltb u.index (next_index l.purged))) [
      | inl f ↦ rw (e, f) v
      | inr f ↦
          rw (e, f, drop-passed-eq-cut_front (next_index l.purged) l.key_log_ids u.index v.rising)
            (record {
              rising =
                  cut_front-IsRising (next_index l.purged) l.key_log_ids u.index v.rising
                    (ground arith);
              climbing =
                  IsClimbing-purge l.purged l.key_log_ids u v.climbing (
                    ground (arith, h, ref_in_keys_lem (next_index l.purged) l.key_log_ids u.index));
            })
    ]
  ]
