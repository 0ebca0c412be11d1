-- ===== src/Replication/Search.antt =====
-- openraft/src/engine/handler/replication_handler/mod.rs: how a leader searches for the log that it
-- shares with a node, and takes the response of a node.
use openraft.Prelude.{
  ℕ, suc, ◌≤◌, ◌≡◌, Bool, true, false, Option, none, some, [], ◌∷◌, leb, min, max, ◌&&◌, ◌==◌,
  if◌then◌else◌, arith, refl, Bool-cases, inl, inr,
}
use openraft.Prelude.Ord.{Ord}
use openraft.LogId.{LogId, next_index}
use openraft.Vote.LeaderId.{RaftLeaderId}
use openraft.MembershipState.{log_id_le}
use openraft.Progress.Inflight.{nothing, probe_range}
use openraft.Progress.Entry.{ProgressEntry}
use openraft.Progress.Update as Updates
use openraft.Progress.Update.{set_inflight}
use openraft.VecProgress.{VecProgress, ProgressItem}
use openraft.Replication.{Replication, set_progress, set_updated, update_matching, try_purge_log}
use openraft.Replication.Hint.{ConflictHint, compare_hint}

-- what the response of a node says: the matching log id or the conflicting one, or an error
pub data Outcome (CLID : Type 0) : Type 0 where
  matched : Option (LogId CLID) → Outcome CLID
  conflicted : LogId CLID → Option (ConflictHint CLID) → Outcome CLID
  failed : Outcome CLID

-- `probe.filter(..)`
unfoldable pub keep_within : ℕ → ℕ → Option ℕ → Option ℕ
keep_within low high none = none
keep_within low high (some index) = if leb low index && leb index high then some index else none

module _ {CLID : Type 0} where
  -- `common`, or index 0 for an empty hint
  unfoldable pub probe_of_hint : ConflictHint CLID → Option (LogId CLID) → Option ℕ
  probe_of_hint hint (some log_id) = some (suc log_id.index)
  probe_of_hint hint none = elim hint.log_ids [ [] ↦ some 0 | (x ∷ xs) ↦ none ]

  -- the entry with the narrowed search, for the result of the comparison
  unfoldable pub narrow :
      ConflictHint CLID → Option (LogId CLID) × ℕ → ProgressEntry CLID → ProgressEntry CLID
  unfolding probe_of_hint keep_within
  narrow hint compared e =
      let matching_next = next_index e.matching in
      let end = max (min compared.1 e.progress_data.searching_end) matching_next in
      record e {
        progress_data = record e.progress_data {
          searching_end = end;
          probe_start = keep_within matching_next end (probe_of_hint hint compared.0);
        };
      }

module _ {LID CLID Mem P CP : Type 0} ⦃o : Ord CLID⦄
    ⦃t : ProgressItem (ProgressEntry CLID) (Option (LogId CLID))⦄
    ⦃v : VecProgress P (ProgressEntry CLID) (Option (LogId CLID))⦄ where
  unfoldable pub is_replication_stream_valid : Replication LID CLID Mem P CP → ℕ → ℕ → Bool
  is_replication_stream_valid h target stream_id = elim (v.try_get h.leader.progress target) [
    | none ↦ false
    | some e ↦ e.progress_data.stream_id == stream_id
  ]

  -- the handler, and whether the response was applied; the outer `none` is a panic
  unfoldable pub update_conflicting :
      Replication LID CLID Mem P CP
      → ℕ
      → LogId CLID
      → Option ℕ
      → Option (Replication LID CLID Mem P CP × Bool)
  unfolding Updates.update_conflicting
  update_conflicting h target conflict inflight_id = elim (v.try_get h.leader.progress target) [
    | none ↦ some (h, false)
    | some e ↦
        elim (Updates.update_conflicting h.config.allow_log_reversion e conflict.index
          inflight_id) [
            | none ↦ none
            | some (updated, applied) ↦ some (
              set_updated h (v.reset_entry_with h.leader.progress target (λ entry. updated)),
              applied,
            )
          ]
  ]

  unfoldable pub update_search_from_hint :
      Replication LID CLID Mem P CP → ℕ → ConflictHint CLID → Replication LID CLID Mem P CP
  unfolding compare_hint narrow
  update_search_from_hint h target hint = elim (v.try_get h.leader.progress target) [
    | none ↦ h
    | some e ↦ set_updated h (
        v.update_data_with h.leader.progress target
          (narrow hint (compare_hint hint h.state.log_ids)))
  ]

  -- the handler, or `none` for the error that the node has no entry
  unfoldable pub allow_next_revert :
      Replication LID CLID Mem P CP → ℕ → Bool → Option (Replication LID CLID Mem P CP)
  allow_next_revert h target allow =
      elim (v.update_data_with h.leader.progress target (λ e. record e {
        progress_data = record e.progress_data { allow_log_reversion = allow };
      })) [ none ↦ none | some progress ↦ some (set_progress h progress) ]

  -- `inflight_id.is_some()` and a hint are needed to use it
  unfoldable pub use_hint :
      Replication LID CLID Mem P CP × Bool
      → ℕ
      → Option ℕ
      → Option (ConflictHint CLID)
      → Replication LID CLID Mem P CP
  unfolding update_search_from_hint
  use_hint (h, true) target (some id) (some hint) = update_search_from_hint h target hint
  use_hint (h, true) target (some id) none = h
  use_hint (h, true) target none hint = h
  use_hint (h, false) target inflight_id hint = h

module _ {LID CLID Mem P CP : Type 0} ⦃l : RaftLeaderId LID⦄ ⦃o : Ord CLID⦄
    ⦃t : ProgressItem (ProgressEntry CLID) (Option (LogId CLID))⦄
    ⦃v : VecProgress P (ProgressEntry CLID) (Option (LogId CLID))⦄ (to_committed : LID → CLID) where
  unfoldable pub take_outcome :
      Replication LID CLID Mem P CP
      → ℕ
      → Outcome CLID
      → Option ℕ
      → Option (Replication LID CLID Mem P CP)
  unfolding update_matching update_conflicting use_hint
  take_outcome h target (matched log_id) inflight_id =
      some (update_matching to_committed h target log_id inflight_id)
  take_outcome h target (conflicted conflict hint) inflight_id =
      elim (update_conflicting h target conflict inflight_id) [
        | none ↦ none
        | some answer ↦ some (use_hint answer target inflight_id hint)
      ]
  take_outcome h target failed inflight_id =
      some
        (set_updated h (v.update_data_with h.leader.progress target (λ e. set_inflight e nothing)))

  -- a delayed response of another stream is ignored
  unfoldable pub update_progress :
      Replication LID CLID Mem P CP
      → ℕ
      → ℕ
      → Outcome CLID
      → Option ℕ
      → Option (Replication LID CLID Mem P CP)
  unfolding is_replication_stream_valid take_outcome try_purge_log
  update_progress h stream_id target outcome inflight_id =
      if is_replication_stream_valid h target stream_id
      then elim (take_outcome h target outcome inflight_id) [
        | none ↦ none
        | some taken ↦ some (try_purge_log taken)
      ]
      else some h

  -- the progress of the leader's own log, for a request that is acknowledged at once
  unfoldable pub update_own :
      Replication LID CLID Mem P CP → Option (LogId CLID) → Replication LID CLID Mem P CP
  unfolding probe_range update_matching
  update_own h upto =
      elim (v.update_data_with h.leader.progress h.config.id
        (λ e. set_inflight e (probe_range none upto 0))) [
          | none ↦ h
          | some progress ↦
              update_matching to_committed (set_progress h progress) h.config.id upto (some 0)
        ]

  -- nothing to do for no log id, and for one that the entry has reached
  unfoldable pub update_local_progress :
      Replication LID CLID Mem P CP → Option (LogId CLID) → Replication LID CLID Mem P CP
  unfolding update_own
  update_local_progress h none = h
  update_local_progress h (some upto) = elim (v.try_get h.leader.progress h.config.id) [
    | none ↦ update_own h (some upto)
    | some e ↦ if log_id_le (some upto) e.matching then h else update_own h (some upto)
  ]

module _ {CLID : Type 0} ⦃o : Ord CLID⦄ where
  -- a probe starts within the search range
  abbrev pub StartsWithin : ProgressEntry CLID → Option ℕ → Type 0
  StartsWithin e none = Unit
  StartsWithin e (some start) =
      (next_index e.matching ≤ start) × (start ≤ e.progress_data.searching_end)

  keep_within-StartsWithin :
      (e : ProgressEntry CLID) (probe : Option ℕ)
      → StartsWithin e (keep_within (next_index e.matching) e.progress_data.searching_end probe)
  unfolding keep_within
  keep_within-StartsWithin e none = tt
  keep_within-StartsWithin e (some start) =
      elim (Bool-cases
        (leb (next_index e.matching) start && leb start e.progress_data.searching_end)) [
          | inl q ↦ rw q (ground arith)
          | inr q ↦ rw q tt
        ]

  -- A hint only narrows the search: its end goes down, but never below the matching log, which
  -- stays, and a probe that it asks for starts within what is left.
  pub narrow_lem :
      (hint : ConflictHint CLID) (compared : Option (LogId CLID) × ℕ) (e : ProgressEntry CLID)
      → next_index e.matching ≤ e.progress_data.searching_end
      → ((narrow hint compared e).matching ≡ e.matching)
        × (next_index e.matching ≤ (narrow hint compared e).progress_data.searching_end)
        × ((narrow hint compared e).progress_data.searching_end ≤ e.progress_data.searching_end)
        × StartsWithin (narrow hint compared e) (narrow hint compared e).progress_data.probe_start
  unfolding narrow
  narrow_lem hint compared e h = (
    refl,
    omega arith,
    omega arith,
    keep_within-StartsWithin (narrow hint compared e) (probe_of_hint hint compared.0),
  )
