-- ===== src/Progress/Response.antt =====
-- openraft/src/progress/entry/update.rs: what responses do to the progress of a node.
use openraft.Prelude.{
  ℕ, ◌≤◌, ◌<◌, ◌||◌, ◌≡◌, ap, ==_iff, ◌∙◌, ◌≢◌, refl, Bool, true, false, Option, none, some, arith,
  Bool-cases, inl, inr, leb, ltb, ◌==◌,
}
use openraft.Prelude.Ord.{Ord, cmp_option, IsTotal}
use openraft.LogId.{LogId, next_index, cmp_log_id}
use openraft.IoState.Ids.{log_ids-IsTotal}
use openraft.MembershipState.{log_id_le}
use openraft.MembershipState.Valid.{log_id_le_refl}
use openraft.Progress.Inflight.{
  Inflight, nothing, probe, logs_since, snapshot, ack, conflict, IsOrdered, inflight_id, ack_iff,
}
use openraft.Progress.Entry.{ProgressEntry, IsValid, IsWithin}
use openraft.Progress.Update.{
  update_matching, update_conflicting, raise_matching, lower_searching_end, set_inflight,
}

module _ {CLID : Type 0} ⦃o : Ord CLID⦄ where
  raise_matching_le :
      (e : ProgressEntry CLID) (m : Option (LogId CLID))
      → (log_id_le e.matching (raise_matching e m).matching ≡ true)
        × (e.progress_data.searching_end ≤ (raise_matching e m).progress_data.searching_end)
  unfolding raise_matching
  raise_matching_le e m = elim (Bool-cases (log_id_le m e.matching)) [
    | inl q ↦ rw q (log_id_le_refl e.matching, ground arith)
    | inr q ↦ rw q (ground (arith, t.cmp_swap m e.matching), ground arith)
  ]
    where
      t : IsTotal (Option (LogId CLID)) (cmp_option cmp_log_id)
      t = log_ids-IsTotal

  -- No acknowledgement moves the matching log or the end of the search back, and a stale one, whose
  -- id is not that of the request in flight, changes nothing.
  pub update_matching_lem :
      (e : ProgressEntry CLID) (m : Option (LogId CLID)) (id : Option ℕ)
      → (log_id_le e.matching (update_matching e m id).matching ≡ true)
        × (e.progress_data.searching_end ≤ (update_matching e m id).progress_data.searching_end)
        × ((i : ℕ)
            → id ≡ some i
            → inflight_id e.progress_data.inflight ≢ some i
            → update_matching e m id ≡ e)
  unfolding update_matching
  update_matching_lem e m none =
      ((raise_matching_le e m).0, (raise_matching_le e m).1, λ i q stale. absurd (ground arith))
  update_matching_lem e m (some id) = elim (Bool-cases (ack e.progress_data.inflight m id).1) [
    | inl q ↦ rw q (
      (raise_matching_le (set_inflight e (ack e.progress_data.inflight m id).0) m).0,
      (raise_matching_le (set_inflight e (ack e.progress_data.inflight m id).0) m).1,
      λ i r stale. absurd (stale ((ack_iff e.progress_data.inflight m id).0.0 q ∙ r)),
    )
    | inr q ↦ rw q (log_id_le_refl e.matching, ground arith, λ i r stale. refl)
  ]

  abbrev IsNoProbe : Inflight CLID → Type 0
  IsNoProbe nothing = Unit
  IsNoProbe (probe range id) = ⊥
  IsNoProbe (logs_since prev id) = Unit
  IsNoProbe (snapshot id) = Unit

  valid_without_probe :
      (e : ProgressEntry CLID)
      → IsNoProbe e.progress_data.inflight
      → next_index e.matching ≤ e.progress_data.searching_end
      → IsValid e
  valid_without_probe e n below = record {
    matching_below = below;
    inflight_ordered = ordered e.progress_data.inflight n;
    inflight_within = within e.progress_data.inflight n;
  }
    where
      ordered : (s : Inflight CLID) → IsNoProbe s → IsOrdered s
      ordered nothing k = tt
      ordered (probe range id) k = absurd k
      ordered (logs_since prev id) k = tt
      ordered (snapshot id) k = tt

      within : (s : Inflight CLID) → IsNoProbe s → IsWithin e s
      within nothing k = tt
      within (probe range id) k = absurd k
      within (logs_since prev id) k = tt
      within (snapshot id) k = tt

  raise_matching-IsValid :
      (e : ProgressEntry CLID) (m : Option (LogId CLID))
      → IsNoProbe e.progress_data.inflight
      → next_index e.matching ≤ e.progress_data.searching_end
      → IsValid (raise_matching e m)
  unfolding raise_matching
  raise_matching-IsValid e m n below = elim (Bool-cases (log_id_le m e.matching)) [
    | inl q ↦ rw q (valid_without_probe e n below)
    | inr q ↦ rw q (valid_without_probe _ n (ground arith))
  ]

  -- what the assertion of `ack` says: an acknowledgement reaches the start of the probe
  abbrev pub Reaches : Option (LogId CLID) → Inflight CLID → Type 0
  Reaches m nothing = Unit
  Reaches m (probe range id) = log_id_le range.prev m ≡ true
  Reaches m (logs_since prev id) = Unit
  Reaches m (snapshot id) = Unit

  IsNoProbe-ack :
      (s : Inflight CLID) (m : Option (LogId CLID)) (id : ℕ)
      → Reaches m s
      → (ack s m id).1 ≡ true
      → IsNoProbe (ack s m id).0
  unfolding ack
  IsNoProbe-ack nothing m id r q = tt
  IsNoProbe-ack (probe range i) m id r q = elim (Bool-cases (i == id)) [
    | inl w ↦ rw (w, r) tt
    | inr w ↦ absurd (ground arith)
  ]
  IsNoProbe-ack (logs_since prev i) m id r q = elim (Bool-cases (i == id)) [
    | inl w ↦ rw w tt
    | inr w ↦ rw w tt
  ]
  IsNoProbe-ack (snapshot i) m id r q = elim (Bool-cases (i == id)) [
    | inl w ↦ rw w tt
    | inr w ↦ rw w tt
  ]

  -- The response to a request, which reaches the start of the probe where one is in flight, leaves
  -- the progress valid.
  pub update_matching-IsValid :
      (e : ProgressEntry CLID) (m : Option (LogId CLID)) (id : ℕ)
      → IsValid e
      → Reaches m e.progress_data.inflight
      → IsValid (update_matching e m (some id))
  unfolding update_matching
  update_matching-IsValid e m id v k = elim (Bool-cases (ack e.progress_data.inflight m id).1) [
    | inl q ↦ rw q (
        raise_matching-IsValid (set_inflight e (ack e.progress_data.inflight m id).0) m
          (IsNoProbe-ack e.progress_data.inflight m id k q) v.matching_below)
    | inr q ↦ rw q v
  ]

  -- A conflict at the start of a probe, which is not below the matching log, ends the probe and
  -- narrows the search to the logs below it: the end of the search strictly decreases, and the
  -- matching log stays.
  pub update_conflicting-probe :
      (config_allows : Bool) (e : ProgressEntry CLID) (p : LogId CLID) (last : Option (LogId CLID))
      (id : ℕ)
      → e.progress_data.inflight ≡ probe (record { prev = some p; last = last }) id
      → IsValid e
      → next_index e.matching ≤ p.index
      → (narrowed : ProgressEntry CLID) × (update_conflicting config_allows e p.index (some id)
          ≡ some (narrowed, true))
        × IsValid narrowed
        × (narrowed.matching ≡ e.matching)
        × (narrowed.progress_data.searching_end ≡ p.index)
        × (p.index < e.progress_data.searching_end)
  unfolding update_conflicting conflict lower_searching_end
  update_conflicting-probe config_allows e p last id q v k = (
    record e {
      progress_data = record e.progress_data { inflight = nothing; searching_end = p.index };
    },
    rw (q, (==_iff id id).1 refl) (ap (λ x. some (x, true)) lowered),
    valid_without_probe _ tt k,
    refl,
    refl,
    below,
  )
    where
      below : p.index < e.progress_data.searching_end
      below = (rw q at v.inflight_within).1

      lower : leb e.progress_data.searching_end p.index ≡ false
      lower = ground (arith, below)

      kept : ltb p.index (next_index e.matching) ≡ false
      kept = ground (arith, k)

      lowered : lower_searching_end config_allows (set_inflight e nothing) p.index ≡ record e {
        progress_data = record e.progress_data { inflight = nothing; searching_end = p.index };
      }
      lowered = elim (Bool-cases (e.progress_data.allow_log_reversion || config_allows)) [
        | inl w ↦ rw (lower, w, kept)
        | inr w ↦ rw (lower, w)
      ]
