-- ===== src/Progress/Inflight.antt =====
-- openraft/src/progress/inflight/mod.rs and log_id_range.rs: the request that is being sent to a
-- node, and the responses that it takes. An `InflightId` is its number.
use openraft.Prelude.{
  ℕ, ◌≡◌, ◌≢◌, ◌↔◌, ◌⊎◌, inl, refl, Bool, true, false, Option, none, some, if◌then◌else◌, ◌==◌,
  arith,
}
use openraft.Prelude.Ord.{Ord}
use openraft.LogId.{LogId}
use openraft.MembershipState.{log_id_le, log_id_lt}

pub record LogIdRange (CLID : Type 0) : Type 0 where
  pub prev : Option (LogId CLID)
  pub last : Option (LogId CLID)

pub data Inflight (CLID : Type 0) : Type 0 where
  nothing : Inflight CLID
  probe : LogIdRange CLID → ℕ → Inflight CLID
  logs_since : Option (LogId CLID) → ℕ → Inflight CLID
  snapshot : ℕ → Inflight CLID

module _ {CLID : Type 0} where
  abbrev pub is_none : Inflight CLID → Bool
  is_none nothing = true
  is_none (probe range id) = false
  is_none (logs_since prev id) = false
  is_none (snapshot id) = false

  abbrev pub is_logs_since : Inflight CLID → Bool
  is_logs_since nothing = false
  is_logs_since (probe range id) = false
  is_logs_since (logs_since prev id) = true
  is_logs_since (snapshot id) = false

  abbrev pub is_snapshot : Inflight CLID → Bool
  is_snapshot nothing = false
  is_snapshot (probe range id) = false
  is_snapshot (logs_since prev id) = false
  is_snapshot (snapshot id) = true

  -- the id of the request in flight
  abbrev pub inflight_id : Inflight CLID → Option ℕ
  inflight_id nothing = none
  inflight_id (probe range id) = some id
  inflight_id (logs_since prev id) = some id
  inflight_id (snapshot id) = some id

  -- The request after the conflict, and whether it was applied; `none` is the `unreachable!` of a
  -- conflict with a snapshot.
  unfoldable pub conflict : Inflight CLID → ℕ → Option (Inflight CLID × Bool)
  conflict nothing from_inflight_id = some (nothing, false)
  conflict (probe range id) from_inflight_id =
      if id == from_inflight_id then some (nothing, true) else some (probe range id, false)
  conflict (snapshot id) from_inflight_id =
      if id == from_inflight_id then none else some (snapshot id, false)
  conflict (logs_since prev id) from_inflight_id =
      if id == from_inflight_id then some (nothing, true) else some (logs_since prev id, false)

module _ {CLID : Type 0} ⦃o : Ord CLID⦄ where
  -- `Inflight::probe`: an empty range is no request
  unfoldable pub probe_range : Option (LogId CLID) → Option (LogId CLID) → ℕ → Inflight CLID
  probe_range prev last id =
      if log_id_lt prev last then probe (record { prev = prev; last = last }) id else nothing

  -- the request after the acknowledgement, and whether it was applied
  unfoldable pub ack : Inflight CLID → Option (LogId CLID) → ℕ → Inflight CLID × Bool
  ack nothing upto from_inflight_id = (nothing, false)
  ack (probe range id) upto from_inflight_id =
      if id == from_inflight_id
      then (if log_id_le range.prev upto then nothing else probe range id, true)
      else (probe range id, false)
  ack (snapshot id) upto from_inflight_id =
      if id == from_inflight_id then (nothing, true) else (snapshot id, false)
  ack (logs_since prev id) upto from_inflight_id =
      if id == from_inflight_id then (logs_since upto id, true) else (logs_since prev id, false)

  -- `validate`: a probe's range is in order
  abbrev pub IsOrdered : Inflight CLID → Type 0
  IsOrdered (probe range id) = log_id_le range.prev range.last ≡ true
  IsOrdered nothing = Unit
  IsOrdered (logs_since prev id) = Unit
  IsOrdered (snapshot id) = Unit

  -- An acknowledgement is applied exactly when it carries the id of the request in flight; a stale
  -- one changes nothing, and the request that is left has the same id, if any is left.
  pub ack_iff :
      (s : Inflight CLID) (upto : Option (LogId CLID)) (id : ℕ)
      → (((ack s upto id).1 ≡ true) ↔ (inflight_id s ≡ some id))
        × (((ack s upto id).1 ≡ false) → (ack s upto id).0 ≡ s)
        × (((ack s upto id).0 ≡ nothing) ⊎ (inflight_id (ack s upto id).0 ≡ inflight_id s))
  unfolding ack
  ack_iff nothing upto id = ((λ e. ground arith, λ e. ground arith), λ e. refl, inl refl)
  ack_iff (probe range i) upto id =
      ((λ e. ground arith, λ e. ground arith), λ e. ground arith, ground arith)
  ack_iff (snapshot i) upto id =
      ((λ e. ground arith, λ e. ground arith), λ e. ground arith, ground arith)
  ack_iff (logs_since prev i) upto id =
      ((λ e. ground arith, λ e. ground arith), λ e. ground arith, ground arith)

-- A conflict is applied exactly when it carries the id of the request in flight, and clears it; a
-- stale one changes nothing. It panics exactly at a snapshot's own id.
pub conflict_iff :
    {CLID : Type 0} (s : Inflight CLID) (id : ℕ)
    → ((conflict s id ≡ some (nothing, true))
        ↔ ((inflight_id s ≡ some id) × (is_snapshot s ≡ false)))
      × ((conflict s id ≡ some (s, false)) ↔ (inflight_id s ≢ some id))
      × ((conflict s id ≡ none) ↔ (s ≡ snapshot id))
unfolding conflict
conflict_iff nothing id = (
  (λ e. ground arith, λ e. ground arith),
  (λ e. ground arith, λ e. refl),
  (λ e. ground arith, λ e. ground arith),
)
conflict_iff (probe range i) id = (
  (λ e. ground arith, λ e. ground arith),
  (λ e. ground arith, λ e. ground arith),
  (λ e. ground arith, λ e. ground arith),
)
conflict_iff (snapshot i) id = (
  (λ e. ground arith, λ e. ground arith),
  (λ e. ground arith, λ e. ground arith),
  (λ e. ground arith, λ e. ground arith),
)
conflict_iff (logs_since prev i) id = (
  (λ e. ground arith, λ e. ground arith),
  (λ e. ground arith, λ e. ground arith),
  (λ e. ground arith, λ e. ground arith),
)
