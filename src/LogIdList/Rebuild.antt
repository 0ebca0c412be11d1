-- ===== src/LogIdList/Rebuild.antt =====
-- The log of a `LogIdList`, compressed again by `extend`.
use openraft.Prelude.{
  ℕ, zero, suc, ◌+◌, ◌-◌, ◌≡◌, ◌∙◌, ap, sym, refl, Option, none, some, lt, List, [], ◌∷◌, ◌++◌,
  last?, arith, append_assoc, append-nil, subst,
}
use openraft.Prelude.Ord.{Ord}
use openraft.LogId.{LogId, next_index}
use openraft.LogIdList.{LogIdList, extend, append, push_key_log_id}
use openraft.LogIdList.Runs.{IsRising}
use openraft.LogIdList.Valid.{IsValid, IsAbove, IsClimbing}
use openraft.LogIdList.Leaders.{append-append}
use openraft.LogIdList.Full.{expand, run}
use openraft.LogIdList.Refines.{full}

module _ {CLID : Type 0} ⦃o : Ord CLID⦄ where
  extend-append :
      (l : LogIdList CLID) (xs ys : List (LogId CLID))
      → extend l (xs ++ ys) ≡ extend (extend l xs) ys
  unfolding extend
  extend-append l [] ys = refl
  extend-append l (x ∷ xs) ys = extend-append (append l x) xs ys

  extend-run_eq :
      (l : LogIdList CLID) (c : CLID) (first n : ℕ)
      → extend l (run c first (suc n)) ≡ append l (record { leader_id = c; index = first + n })
  unfolding extend
  extend-run_eq l c first zero =
      ap (λ i. append l (record { leader_id = c; index = i })) {x = first} {y = first + 0}
        (omega arith)
  extend-run_eq l c first (suc n) =
      extend-run_eq (append l (record { leader_id = c; index = first })) c (suc first) n
      ∙ append-append l (record { leader_id = c; index = first })
          (record { leader_id = c; index = suc first + n }) refl
      ∙ ap (λ i. append l (record { leader_id = c; index = i })) {x = suc first + n}
          {y = first + suc n} (omega arith)

  -- the leaders after `done` go on from it
  abbrev GoesOn : List (LogId CLID) → List (LogId CLID) → Type 0
  GoesOn done ks = (z : LogId CLID) → last? done ≡ some z → IsAbove z.leader_id ks

  push-new :
      (done : List (LogId CLID)) (k : LogId CLID)
      → ((z : LogId CLID) → last? done ≡ some z → o.cmp z.leader_id k.leader_id ≡ lt)
      → push_key_log_id done k ≡ done ++ k ∷ []
  unfolding push_key_log_id
  push-new [] k h = refl
  push-new (z ∷ []) k h = ground (arith, h z refl)
  push-new (z ∷ y ∷ done) k h = ap (λ ks. z ∷ ks) (push-new (y ∷ done) k h)

  last?-snoc : (done : List (LogId CLID)) (k : LogId CLID) → last? (done ++ k ∷ []) ≡ some k
  last?-snoc [] k = refl
  last?-snoc (z ∷ []) k = refl
  last?-snoc (z ∷ y ∷ done) k = last?-snoc (y ∷ done) k

  IsClimbing-rest : (c : CLID) (ks : List (LogId CLID)) → IsAbove c ks → IsClimbing none ks
  IsClimbing-rest c [] h = tt
  IsClimbing-rest c (k ∷ ks) h = h.1

  extend-expand :
      (p : Option (LogId CLID)) (first : ℕ) (done ks : List (LogId CLID))
      → IsRising first ks
      → IsClimbing none ks
      → GoesOn done ks
      → extend (record { purged = p; key_log_ids = done }) (expand first ks)
        ≡ record { purged = p; key_log_ids = done ++ ks }
  extend-expand p first done [] r c g =
      unfold extend in ap (λ ks. record { purged = p; key_log_ids = ks }) (sym (append-nil done))
  extend-expand p first done (k ∷ ks) r c g =
      extend-append (record { purged = p; key_log_ids = done })
        (run k.leader_id first (suc k.index - first)) (expand (suc k.index) ks)
      ∙ ap (λ l. extend l (expand (suc k.index) ks)) added
      ∙ extend-expand p (suc k.index) (done ++ k ∷ []) ks r.1 (IsClimbing-rest k.leader_id ks c)
          (λ z e. subst (λ (x : LogId CLID). IsAbove x.leader_id ks) (same_last z e) c)
      ∙ ap (λ ks. record { purged = p; key_log_ids = ks }) (append_assoc done (k ∷ []) ks)
    where
      added :
          extend
            (record { purged = p; key_log_ids = done })
            (run k.leader_id first (suc k.index - first))
          ≡ record { purged = p; key_log_ids = done ++ k ∷ [] }
      added =
          ap (λ n. extend (record { purged = p; key_log_ids = done }) (run k.leader_id first n))
            {y = suc (k.index - first)} (omega (arith, r.0))
          ∙ extend-run_eq (record { purged = p; key_log_ids = done }) k.leader_id first
              (k.index - first)
          ∙ ap
              (λ i.
                append (record { purged = p; key_log_ids = done })
                  (record { leader_id = k.leader_id; index = i }))
              {x = first + (k.index - first)} {y = k.index} (omega (arith, r.0))
          ∙ unfold append in
            ap (λ ks. record { purged = p; key_log_ids = ks }) (push-new done k (λ z e. (g z e).0))

      same_last : (z : LogId CLID) → last? (done ++ k ∷ []) ≡ some z → k ≡ z
      same_last z e = cc (last?-snoc done k)

  -- Compressing the log of a valid list, from its purged log id on, gives the list back.
  pub extend-full :
      (l : LogIdList CLID)
      → IsValid l
      → extend (record { purged = l.purged; key_log_ids = [] }) (full l).ids ≡ l
  extend-full l v =
      extend-expand l.purged (next_index l.purged) [] l.key_log_ids v.rising
        (climbs l.purged l.key_log_ids v.climbing) (λ z e. absurd (none-some e))
    where
      climbs :
          (p : Option (LogId CLID)) (ks : List (LogId CLID)) → IsClimbing p ks → IsClimbing none ks
      climbs p [] h = tt
      climbs none (k ∷ ks) h = h
      climbs (some p) (k ∷ ks) h = h.1

      none-some : {x : LogId CLID} → none ≡ some x → ⊥
      none-some h = cc
