-- ===== src/Progress/Entry.antt =====
-- openraft/src/progress/entry/mod.rs: the progress of one target node.
use openraft.Prelude.{ℕ, ◌+◌, ◌-◌, ◌*◌, ◌/◌, ◌≤◌, ◌≡◌, Bool, true, false, Option, none, some, arith}
use openraft.Prelude.Ord.{Ord}
use openraft.LogId.{LogId, next_index}
use openraft.MembershipState.{log_id_le, log_id_lt}
use openraft.Progress.Inflight.{Inflight, nothing, probe, logs_since, snapshot, IsOrdered}

pub record ProgressData (CLID : Type 0) : Type 0 where
  pub stream_id : ℕ
  pub inflight : Inflight CLID
  pub searching_end : ℕ
  pub probe_start : Option ℕ
  pub allow_log_reversion : Bool

pub record ProgressEntry (CLID : Type 0) : Type 0 where
  pub id : ℕ
  pub matching : Option (LogId CLID)
  pub progress_data : ProgressData CLID

module _ {CLID : Type 0} where
  unfoldable pub new_data : ℕ → ℕ → ProgressData CLID
  new_data stream_id searching_end = record {
    stream_id = stream_id;
    inflight = nothing;
    searching_end = searching_end;
    probe_start = none;
    allow_log_reversion = false;
  }

  unfoldable pub empty : ℕ → ℕ → ℕ → ProgressEntry CLID
  unfolding new_data
  empty id stream_id end = record {
    id = id;
    matching = none;
    progress_data = new_data stream_id end;
  }

  unfoldable pub with_probe_start : ProgressEntry CLID → ℕ → ProgressEntry CLID
  with_probe_start e start = record e {
    progress_data = record e.progress_data { probe_start = some start };
  }

-- the binary search's midpoint, at multiples of eight from the matching log on
unfoldable pub calc_mid : ℕ → ℕ → ℕ
calc_mid matching_next end = matching_next + (end - matching_next) / 16 * 8

module _ {CLID : Type 0} ⦃o : Ord CLID⦄ where
  unfoldable pub is_log_range_inflight : ProgressEntry CLID → LogId CLID → Bool
  is_log_range_inflight e upto = elim e.progress_data.inflight [
    | nothing ↦ false
    | probe range id ↦ log_id_lt range.prev (some upto)
    | snapshot id ↦ false
    | logs_since prev id ↦ log_id_lt prev (some upto)
  ]

  -- a probe begins between the matching log and the end of the search
  abbrev pub IsWithin : ProgressEntry CLID → Inflight CLID → Type 0
  IsWithin e (probe range id) =
      (log_id_le e.matching range.prev ≡ true)
      × (next_index range.prev ≤ e.progress_data.searching_end)
  IsWithin e nothing = Unit
  IsWithin e (logs_since prev id) = Unit
  IsWithin e (snapshot id) = Unit

  -- what `validate` checks
  pub record IsValid (e : ProgressEntry CLID) : Type 0 where
    pub matching_below : next_index e.matching ≤ e.progress_data.searching_end
    pub inflight_ordered : IsOrdered e.progress_data.inflight
    pub inflight_within : IsWithin e e.progress_data.inflight

  -- A progress entry that knows of no matching log is valid.
  pub empty-IsValid : (id stream_id end : ℕ) → IsValid (empty id stream_id end)
  unfolding empty
  empty-IsValid id stream_id end = record {
    matching_below = ground arith;
    inflight_ordered = tt;
    inflight_within = tt;
  }
