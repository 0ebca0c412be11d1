-- ===== src/Engine/Scheduled.antt =====
-- openraft/src/engine/engine_impl.rs: what `trigger_purge_log` schedules and purges.
use openraft.Prelude.{
  some-injective, none-some, ℕ, suc, ◌≤◌, ◌<◌, ◌≡◌, ◌⊎◌, refl, true, false, Option, none, some,
  arith, inl, inr, Bool-cases, sym, subst, Bool, if_true, if_false, ap, ◌∙◌, ltb, min,
  if◌then◌else◌,
}
use openraft.Prelude.Ord.{Ord}
use openraft.LogId.{LogId, next_index}
use openraft.LogIdList.{first_index, last, get}
use openraft.LogIdList.Valid.{IsValid}
use openraft.LogIdList.Ascending.{get-some}
use openraft.Progress.Entry.{ProgressEntry}
use openraft.VecProgress.{VecProgress, ProgressItem}
use openraft.RaftState.{get_log_id}
use openraft.Engine.{Engine, replication_of, after_replication}
use openraft.Leader.{Leader}
use openraft.MembershipState.{log_id_le}
use openraft.Replication.Purge.{IsFree, IsPurgedTo, purge-IsPurgedTo, try_purge_log_lem}
use openraft.Replication.Purge as Purge
use openraft.Replication.{try_purge_log}
use openraft.RaftState.{accept_purge}
use openraft.Following.Snapshot.{purge_log, purge_to}
use openraft.Engine.Requests.{following_of, after_following}
use openraft.Engine.Upkeep.{trigger_purge_log, purge_in_snapshot, try_purge, purge_at}

lower : (index snapshot : ℕ) → (if ltb snapshot index then snapshot else index) ≡ min index snapshot
lower index snapshot = ground arith

module _ {LID CLID Mem P CP V : Type 0} ⦃o : Ord CLID⦄
    ⦃t : ProgressItem (ProgressEntry CLID) (Option (LogId CLID))⦄
    ⦃v : VecProgress P (ProgressEntry CLID) (Option (LogId CLID))⦄ where
  -- what keeps a node from purging up to `x`: it is purged, or a leader's request in flight uses it
  abbrev pub MayNotPurge : Engine LID CLID Mem P CP V → LogId CLID → Type 0
  MayNotPurge e x =
      (log_id_le (some x) e.state.log_ids.purged ≡ true)
      ⊎ ((leader : Leader LID CLID P CP) × (e.leader ≡ some leader)
          × (¬ IsFree x (v.iter leader.progress)))

  -- what a purge up to `x` leaves: `x` is scheduled, and purged unless something keeps it
  abbrev pub IsTried : Engine LID CLID Mem P CP V → LogId CLID → Engine LID CLID Mem P CP V → Type 0
  IsTried e x e' =
      (e'.state.purge_upto ≡ some x)
      × ((MayNotPurge e x × (e'.state.log_ids ≡ e.state.log_ids))
          ⊎ ((¬ MayNotPurge e x) × IsPurgedTo e.state.log_ids e'.state.log_ids x))

  not_free :
      (e : Engine LID CLID Mem P CP V) (x : LogId CLID)
      → log_id_le (some x) e.state.log_ids.purged ≡ false
      → ((leader : Leader LID CLID P CP)
          → e.leader ≡ some leader
          → IsFree x (v.iter leader.progress))
      → ¬ MayNotPurge e x
  not_free e x h f (inl k) = cc
  not_free e x h f (inr (leader, q, k)) = k (f leader q)

  leader_tries :
      (e : Engine LID CLID Mem P CP V) (x : LogId CLID) (leader : Leader LID CLID P CP)
      → IsValid e.state.log_ids
      → e.state.purge_upto ≡ some x
      → e.leader ≡ some leader
      → IsTried e x (after_replication e (try_purge_log (replication_of e leader)))
  leader_tries e x leader valid q f = elim (try_purge_log_lem (replication_of e leader) valid) [
    | inl (may_not, same) ↦ (
      ap (λ h. h.state.purge_upto) same ∙ q,
      inl (kept_by may_not, ap (λ h. h.state.log_ids) same),
    )
    | inr (upto, k, above, free, purges) ↦
        let x_upto : x ≡ upto = cc in
        (
          purges.1 ∙ q,
          inr (
            not_free e x (rw x_upto above) (λ other g.
                subst (λ p. IsFree x (v.iter p.progress)) (some-injective (sym f ∙ g))
                  (rw x_upto free)),
            rw x_upto purges.0,
          ),
        )
  ]
    where
      kept_by : Purge.MayNotPurge (replication_of e leader) → MayNotPurge e x
      kept_by (inl k) = inl (rw (sym q) k)
      kept_by (inr (upto, k, used)) = inr (leader, f, rw (some-injective (sym q ∙ k)) used)

  other_tries :
      (e : Engine LID CLID Mem P CP V) (x : LogId CLID)
      → IsValid e.state.log_ids
      → e.state.purge_upto ≡ some x
      → e.leader ≡ none
      → IsTried e x (after_following e (purge_log (following_of e)))
  unfolding purge_log purge_to accept_purge
  other_tries e x valid q f = elim (Bool-cases (log_id_le (some x) e.state.log_ids.purged)) [
    | inl k ↦
        subst (λ h. IsTried e x (after_following e h)) (sym (if_true _ _ _ (purged k)))
          (q, inl (inl k, refl))
    | inr k ↦
        subst (λ h. IsTried e x (after_following e h))
          (sym (if_false _ _ _ (purged k) ∙ ap (purge_to (following_of e)) q))
          (
            q,
            inr (
              not_free e x k (λ leader g. absurd (none-some (sym f ∙ g))),
              purge-IsPurgedTo e.state.log_ids x valid,
            ),
          )
  ]
    where
      purged :
          {b : Bool}
          → log_id_le (some x) e.state.log_ids.purged ≡ b
          → log_id_le e.state.purge_upto e.state.log_ids.purged ≡ b
      purged k = ap (λ u. log_id_le u e.state.log_ids.purged) q ∙ k

  try_purge-IsTried :
      (e : Engine LID CLID Mem P CP V) (x : LogId CLID)
      → IsValid e.state.log_ids
      → e.state.purge_upto ≡ some x
      → IsTried e x (try_purge e)
  unfolding try_purge
  try_purge-IsTried e x valid q = by_leader e.leader refl
    where
      by_leader :
          (leader : Option (Leader LID CLID P CP))
          → e.leader ≡ leader
          → IsTried e x (elim leader as (λ p. Engine LID CLID Mem P CP V) [
            | none ↦ after_following e (purge_log (following_of e))
            | some leader ↦ after_replication e (try_purge_log (replication_of e leader))
          ])
      by_leader none f = other_tries e x valid q f
      by_leader (some leader) f = leader_tries e x leader valid q f

  -- nothing to schedule, or the log id that is scheduled and then purged as far as possible
  abbrev pub IsPurgeAnswer :
      Engine LID CLID Mem P CP V → ℕ → Option (Engine LID CLID Mem P CP V) → Type 0
  IsPurgeAnswer e index answer =
      ((answer ≡ some e)
        × ((e.state.snapshot_meta.last_log_id ≡ none) ⊎ (index < next_index e.state.purge_upto)))
      ⊎ ((x : LogId CLID) × (snapshot : LogId CLID) × (e.state.snapshot_meta.last_log_id
            ≡ some snapshot)
          × (next_index e.state.purge_upto ≤ index)
          × (get_log_id e.state (min index snapshot.index) ≡ some x)
          × ((e' : Engine LID CLID Mem P CP V) × (answer ≡ some e') × IsTried e x e'))

  found :
      (e : Engine LID CLID Mem P CP V) (index : ℕ)
      → IsValid e.state.log_ids
      → first_index e.state.log_ids ≤ suc index
      → index < next_index (last e.state.log_ids)
      → (x : LogId CLID) × (get_log_id e.state index ≡ some x)
  unfolding get_log_id get
  found e index h f b = get-some e.state.log_ids index h f b

  purge_in_snapshot_lem :
      (e : Engine LID CLID Mem P CP V) (index : ℕ) (snapshot : Option (LogId CLID))
      → IsValid e.state.log_ids
      → first_index e.state.log_ids ≤ next_index e.state.purge_upto
      → next_index e.state.purge_upto ≤ next_index snapshot
      → next_index snapshot ≤ next_index (last e.state.log_ids)
      → e.state.snapshot_meta.last_log_id ≡ snapshot
      → IsPurgeAnswer e index (purge_in_snapshot e index snapshot)
  unfolding purge_in_snapshot purge_at
  purge_in_snapshot_lem e index none h f p b q = inl (refl, inl q)
  purge_in_snapshot_lem e index (some snapshot) h f p b q =
      elim (Bool-cases (ltb index (next_index e.state.purge_upto))) [
        | inl r ↦ inl (rw r refl, inr (ground (arith, r)))
        | inr r ↦ inr (
          (at_index r).0,
          snapshot,
          q,
          ground (arith, r),
          (at_index r).1,
          (
            tried (at_index r).0,
            rw (r, lower index snapshot.index, (at_index r).1) refl,
            try_purge-IsTried (scheduled (at_index r).0) (at_index r).0 h refl,
          ),
        )
      ]
    where
      scheduled : LogId CLID → Engine LID CLID Mem P CP V
      scheduled x = record e { state = record e.state { purge_upto = some x } }

      tried : LogId CLID → Engine LID CLID Mem P CP V
      tried x = try_purge (scheduled x)

      at_index :
          ltb index (next_index e.state.purge_upto) ≡ false
          → (x : LogId CLID) × (get_log_id e.state (min index snapshot.index) ≡ some x)
      at_index r = found e (min index snapshot.index) h (ground (arith, r)) (ground arith)

  -- If the log is valid, what is purged was scheduled, and the snapshot ends neither before what is
  -- scheduled nor after the last log, a node that is asked to purge up to an index does not panic. It
  -- does nothing if it has no snapshot or has scheduled the index already. Otherwise it schedules the
  -- log id at the index, or at the end of the snapshot if that comes first. That log id is purged, or,
  -- if it is purged already or a request in flight of the node as a leader uses it, the log stays.
  pub trigger_purge_log_lem :
      (e : Engine LID CLID Mem P CP V) (index : ℕ)
      → IsValid e.state.log_ids
      → first_index e.state.log_ids ≤ next_index e.state.purge_upto
      → next_index e.state.purge_upto ≤ next_index e.state.snapshot_meta.last_log_id
      → next_index e.state.snapshot_meta.last_log_id ≤ next_index (last e.state.log_ids)
      → IsPurgeAnswer e index (trigger_purge_log e index)
  unfolding trigger_purge_log
  trigger_purge_log_lem e index h f p b =
      purge_in_snapshot_lem e index e.state.snapshot_meta.last_log_id h f p b refl
