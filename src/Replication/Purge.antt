-- ===== src/Replication/Purge.antt =====
-- openraft/src/engine/handler/{log_handler,replication_handler}/mod.rs: which logs a node may purge.
use openraft.Prelude.{
  ℕ, suc, ◌+◌, ◌-◌, ◌≤◌, ◌<◌, ◌≡◌, ◌⊎◌, ◌↔◌, refl, ap, ◌∙◌, true, false, Option, none, some, List,
  [], ◌∷◌, arith, inl, inr, All, Bool-cases, Option-cases, ◌++◌, ltb→lt, if_true, if_false, sym,
  subst, ltb, leb,
}
use openraft.Prelude.Ord.{Ord}
use openraft.LogId.{LogId, next_index}
use openraft.LogIdList.{LogIdList, get, purge, first_index, last}
use openraft.LogIdList.Valid.{IsValid, next_index-last}
use openraft.LogIdList.Runs.{le-end_of}
use openraft.LogIdList.View.{purge_again, purge_beyond, purge_within, get-index, get-purge}
use openraft.MembershipState.{log_id_le}
use openraft.RaftState.{RaftState, accept_purge}
use openraft.Progress.Entry.{ProgressEntry, is_log_range_inflight}
use openraft.VecProgress.{VecProgress, ProgressItem}
use openraft.Replication.{
  Config, Replication, calc_purge_upto, last_purged, in_use, try_purge_log, purge_log, purge_unused,
  purge_to, purge_log_to, max_u64,
}

module _ {LID CLID Mem : Type 0} ⦃o : Ord CLID⦄ where
  -- What the policy chooses to purge is in the log, a full batch beyond what is purged, and leaves
  -- the number of logs to keep in the snapshot.
  pub calc_purge_upto-le :
      (config : Config) (s : RaftState LID CLID Mem) {x : LogId CLID}
      → IsValid s.log_ids
      → calc_purge_upto config s ≡ some (some x)
      → (get s.log_ids x.index ≡ some x)
        × (next_index (last_purged s) + config.purge_batch_size ≤ suc x.index)
        × (suc x.index + config.max_in_snapshot_log_to_keep
            ≤ next_index s.snapshot_meta.last_log_id)
  unfolding calc_purge_upto get
  calc_purge_upto-le config s {x} v h = ground (
    arith,
    get-index s.log_ids
        (next_index s.snapshot_meta.last_log_id - config.max_in_snapshot_log_to_keep - 1) {x = x} v,
  )

  -- Where arithmetic is checked, choosing what to purge panics exactly if the sum of the first index
  -- that is not purged and the batch size is beyond a `u64`, or the batch size is 0, nothing is
  -- purged, and the snapshot has no more logs than are to be kept.
  pub calc_purge_upto-eq-none :
      (config : Config) (s : RaftState LID CLID Mem)
      → (calc_purge_upto config s ≡ none) ↔ (
          (max_u64 < next_index (last_purged s) + config.purge_batch_size)
          ⊎ ((config.purge_batch_size ≡ 0)
              × (next_index (last_purged s) ≡ 0)
              × (next_index s.snapshot_meta.last_log_id ≤ config.max_in_snapshot_log_to_keep)))
  unfolding calc_purge_upto
  calc_purge_upto-eq-none config s = (panics, is_panic)
    where
      panics :
          calc_purge_upto config s ≡ none
          → (max_u64 < next_index (last_purged s) + config.purge_batch_size)
            ⊎ ((config.purge_batch_size ≡ 0)
                × (next_index (last_purged s) ≡ 0)
                × (next_index s.snapshot_meta.last_log_id ≤ config.max_in_snapshot_log_to_keep))
      panics h =
          elim (Bool-cases (ltb max_u64 (next_index (last_purged s) + config.purge_batch_size))) [
            | inl e ↦ inl (ground (arith, e))
            | inr e ↦ inr (ground (arith, h, e))
          ]

      is_panic :
          (max_u64 < next_index (last_purged s) + config.purge_batch_size)
            ⊎ ((config.purge_batch_size ≡ 0)
                × (next_index (last_purged s) ≡ 0)
                × (next_index s.snapshot_meta.last_log_id ≤ config.max_in_snapshot_log_to_keep))
          → calc_purge_upto config s ≡ none
      is_panic (inl h) = ground (arith, h)
      is_panic (inr h) = ground (arith, h)

-- What purging up to a log id leaves: that log id is the last that is purged, and every later log id
-- stays; the log as it was, if the index is purged already.
abbrev pub IsPurgedTo : {CLID : Type 0} → LogIdList CLID → LogIdList CLID → LogId CLID → Type 0
IsPurgedTo l l' upto =
    ((upto.index < first_index l) × (l' ≡ l))
    ⊎ ((first_index l ≤ upto.index)
        × (l'.purged ≡ some upto)
        × ((i : ℕ) → upto.index < i → get l' i ≡ get l i))

pub purge-IsPurgedTo :
    {CLID : Type 0} ⦃o : Ord CLID⦄ (l : LogIdList CLID) (upto : LogId CLID)
    → IsValid l
    → IsPurgedTo l (purge l upto) upto
unfolding first_index
purge-IsPurgedTo l upto valid = elim (Bool-cases (ltb upto.index (first_index l))) [
  | inl e ↦ inl (ltb→lt _ _ e, purge_again l upto (not_beyond e) e)
  | inr e ↦ inr (ground (arith, e), purged e, λ i above. kept e i above)
]
  where
    not_beyond :
        ltb upto.index (first_index l) ≡ true → leb (next_index (last l)) upto.index ≡ false
    not_beyond e =
        ground
          (arith, e, next_index-last l, le-end_of (next_index l.purged) l.key_log_ids valid.rising)

    purged : ltb upto.index (first_index l) ≡ false → (purge l upto).purged ≡ some upto
    purged e = elim (Bool-cases (leb (next_index (last l)) upto.index)) [
      | inl b ↦ ap (λ m. m.purged) (purge_beyond l upto b)
      | inr b ↦ ap (λ m. m.purged) (purge_within l upto valid b e)
    ]

    kept :
        ltb upto.index (first_index l) ≡ false
        → (i : ℕ) → upto.index < i
        → get (purge l upto) i ≡ get l i
    kept e i above = ground (arith, get-purge l upto i valid, e)

module _ {CLID : Type 0} ⦃o : Ord CLID⦄ where
  -- no request in flight uses the log id
  abbrev pub IsFree : LogId CLID → List (ProgressEntry CLID) → Type 0
  IsFree upto items = All (λ item. is_log_range_inflight item upto ≡ false) items

  in_use-IsFree :
      (upto : LogId CLID) (items : List (ProgressEntry CLID))
      → in_use upto items ≡ false
      → IsFree upto items
  unfolding in_use
  in_use-IsFree upto [] h = tt
  in_use-IsFree upto (item ∷ items) h = ground (arith, in_use-IsFree upto items)

  in_use-not-IsFree :
      (upto : LogId CLID) (items : List (ProgressEntry CLID))
      → in_use upto items ≡ true
      → ¬ IsFree upto items
  unfolding in_use
  in_use-not-IsFree upto [] h k = cc
  in_use-not-IsFree upto (item ∷ items) h k = ground (arith, in_use-not-IsFree upto items, k.1)

module _ {LID CLID Mem P CP : Type 0} ⦃o : Ord CLID⦄ where
  -- what purging does to a leader
  abbrev pub Purges :
      Replication LID CLID Mem P CP → Replication LID CLID Mem P CP → LogId CLID → Type 0
  Purges h h' upto =
      IsPurgedTo h.state.log_ids h'.state.log_ids upto
      × (h'.state.purge_upto ≡ h.state.purge_upto)
      × (h'.output ≡ h.output ++ purge_log_to upto ∷ [])

  -- `purge_log` past its first return
  purge_log-Purges :
      (h : Replication LID CLID Mem P CP) (upto : LogId CLID)
      → IsValid h.state.log_ids
      → log_id_le h.state.purge_upto (last_purged h.state) ≡ false
      → h.state.purge_upto ≡ some upto
      → Purges h (purge_log h) upto
  unfolding purge_log purge_to accept_purge
  purge_log-Purges h upto valid e f =
      rw (purge_log, e, f) (purge-IsPurgedTo h.state.log_ids upto valid, refl, refl)

module _ {LID CLID Mem P CP : Type 0} ⦃o : Ord CLID⦄
    ⦃t : ProgressItem (ProgressEntry CLID) (Option (LogId CLID))⦄
    ⦃v : VecProgress P (ProgressEntry CLID) (Option (LogId CLID))⦄ where
  -- what keeps a leader from purging: the scheduled log id is purged, or a request in flight uses it
  abbrev pub MayNotPurge : Replication LID CLID Mem P CP → Type 0
  MayNotPurge h =
      (log_id_le h.state.purge_upto (last_purged h.state) ≡ true)
      ⊎ ((upto : LogId CLID) × (h.state.purge_upto ≡ some upto)
          × (¬ IsFree upto (v.iter h.leader.progress)))

  -- A leader that tries to purge changes nothing exactly where the scheduled log id is purged or a
  -- request in flight uses it. Otherwise it purges up to the scheduled log id, and pushes the command
  -- for it: every later log id stays, and that one is the last that is purged, unless its index was
  -- purged already.
  pub try_purge_log_lem :
      (h : Replication LID CLID Mem P CP)
      → IsValid h.state.log_ids
      → (MayNotPurge h × (try_purge_log h ≡ h))
        ⊎ ((upto : LogId CLID) × (h.state.purge_upto ≡ some upto)
            × (log_id_le (some upto) (last_purged h.state) ≡ false)
            × IsFree upto (v.iter h.leader.progress)
            × Purges h (try_purge_log h) upto)
  unfolding try_purge_log purge_unused
  try_purge_log_lem h valid =
      elim (Bool-cases (log_id_le h.state.purge_upto (last_purged h.state))) [
        | inl e ↦ inl (inl e, rw (try_purge_log, e) refl)
        | inr e ↦ elim (Option-cases h.state.purge_upto) [
          | inl f ↦ absurd (ground arith)
          | inr (upto, f) ↦ elim (Bool-cases (in_use upto (v.iter h.leader.progress))) [
            | inl g ↦ inl (
              inr (upto, f, in_use-not-IsFree upto (v.iter h.leader.progress) g),
              unused upto e f ∙ if_true _ _ _ g,
            )
            | inr g ↦ inr (
              upto,
              f,
              rw f at e,
              in_use-IsFree upto (v.iter h.leader.progress) g,
              subst (λ h'. Purges h h' upto) (sym (unused upto e f ∙ if_false _ _ _ g))
                  (purge_log-Purges h upto valid e f),
            )
          ]
        ]
      ]
    where
      unused :
          (upto : LogId CLID)
          → log_id_le h.state.purge_upto (last_purged h.state) ≡ false
          → h.state.purge_upto ≡ some upto
          → try_purge_log h ≡ purge_unused h (some upto)
      unused upto e f = if_false _ _ _ e ∙ ap (purge_unused h) f
