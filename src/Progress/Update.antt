-- ===== src/Progress/Update.antt =====
-- openraft/src/progress/entry/update.rs: how responses move the progress of a node.
use openraft.Prelude.{
  ℕ, Bool, true, false, Option, none, some, if◌then◌else◌, ◌||◌, ltb, leb, max, ◌>>=◌,
}
use openraft.Prelude.Ord.{Ord}
use openraft.LogId.{LogId, next_index}
use openraft.MembershipState.{log_id_le}
use openraft.Progress.Inflight.{Inflight, nothing, ack, conflict, is_logs_since}
use openraft.Progress.Entry.{ProgressEntry}

module _ {CLID : Type 0} where
  -- An already matching log id is found lost: the search starts again from the beginning.
  unfoldable pub reset : ProgressEntry CLID → ProgressEntry CLID
  reset e = record e {
    matching = none;
    progress_data = record e.progress_data {
      allow_log_reversion = false;
      inflight =
          if is_logs_since e.progress_data.inflight then nothing else e.progress_data.inflight;
    };
  }

  -- from the comparison with `searching_end` on
  unfoldable pub lower_searching_end : Bool → ProgressEntry CLID → ℕ → ProgressEntry CLID
  unfolding reset
  lower_searching_end config_allows e conflict_index =
      let lowered = record e {
        progress_data = record e.progress_data { searching_end = conflict_index };
      } in
      if leb e.progress_data.searching_end conflict_index
      then e
      else if e.progress_data.allow_log_reversion || config_allows
      then (if ltb conflict_index (next_index e.matching) then reset lowered else lowered)
      else lowered

  abbrev pub set_inflight : ProgressEntry CLID → Inflight CLID → ProgressEntry CLID
  set_inflight e inflight = record e {
    progress_data = record e.progress_data { inflight = inflight };
  }

  -- The entry, and whether the response was applied; `none` is a panic. `config_allows` is
  -- `EngineConfig::allow_log_reversion`.
  unfoldable pub update_conflicting :
      Bool → ProgressEntry CLID → ℕ → Option ℕ → Option (ProgressEntry CLID × Bool)
  unfolding conflict lower_searching_end
  update_conflicting config_allows e conflict_index none =
      some (lower_searching_end config_allows e conflict_index, true)
  update_conflicting config_allows e conflict_index (some id) = do
    answer ← conflict e.progress_data.inflight id
    (if answer.1
        then some (lower_searching_end config_allows (set_inflight e answer.0) conflict_index, true)
        else some (e, false))

module _ {CLID : Type 0} ⦃o : Ord CLID⦄ where
  -- from the comparison with the current `matching` on
  unfoldable pub raise_matching : ProgressEntry CLID → Option (LogId CLID) → ProgressEntry CLID
  raise_matching e matching = if log_id_le matching e.matching then e else record e {
    matching = matching;
    progress_data = record e.progress_data {
      searching_end = max e.progress_data.searching_end (next_index matching);
    };
  }

  unfoldable pub update_matching :
      ProgressEntry CLID → Option (LogId CLID) → Option ℕ → ProgressEntry CLID
  unfolding ack raise_matching
  update_matching e matching none = raise_matching e matching
  update_matching e matching (some id) =
      let answer = ack e.progress_data.inflight matching id in
      if answer.1 then raise_matching (set_inflight e answer.0) matching else e
