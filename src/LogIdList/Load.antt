-- ===== src/LogIdList/Load.antt =====
-- `LogIdList::get_key_log_ids`: the last log id of each leader, read from the log store by
-- bisection. The store is a parameter: the answer of `get_log_id` at each index, `none` for an
-- error. The loop runs on fuel; `Load/Correct` shows that twice the length of the range is enough.
pub mod Correct
pub mod Segments
use openraft.Prelude.{
  ℕ, zero, suc, ◌+◌, ◌/◌, Option, none, some, List, [], ◌∷◌, ◌==◌, if◌then◌else◌,
}
use openraft.Prelude.Ord.{Ord}
use openraft.LogId.{LogId}
use openraft.LogIdList.{same_leader, push_key_log_id}

pub data Outcome (CLID : Type 0) : Type 0 where
  done : List (LogId CLID) → Outcome CLID
  storage_error : Outcome CLID
  out_of_fuel : Outcome CLID

-- what one round of the loop comes to
pub data Round (CLID : Type 0) : Type 0 where
  stop : List (LogId CLID) → Round CLID
  fail : Round CLID
  go : List (LogId CLID × LogId CLID) → List (LogId CLID) → Round CLID

module _ {CLID : Type 0} ⦃o : Ord CLID⦄ where
  -- The head of the list is the top of the stack.
  unfoldable pub round :
      (ℕ → Option (LogId CLID)) → List (LogId CLID × LogId CLID) → List (LogId CLID) → Round CLID
  unfolding push_key_log_id
  round get_log_id [] res = stop res
  round get_log_id ((first, last) ∷ stack) res =
      if same_leader first last
      then go stack (push_key_log_id res last)
      else if suc first.index == last.index
      then go stack (push_key_log_id (push_key_log_id res first) last)
      else elim (get_log_id ((first.index + last.index) / 2)) [
        | none ↦ fail
        | some mid ↦
            if same_leader first mid
            then go ((mid, last) ∷ stack) res
            else go ((first, mid) ∷ (mid, last) ∷ stack) res
      ]

  unfoldable pub rounds :
      ℕ
      → (ℕ → Option (LogId CLID))
      → List (LogId CLID × LogId CLID)
      → List (LogId CLID)
      → Outcome CLID
  unfolding round
  rounds zero get_log_id stack res = out_of_fuel
  rounds (suc fuel) get_log_id stack res = elim (round get_log_id stack res) [
    | stop keys ↦ done keys
    | fail ↦ storage_error
    | go stack' res' ↦ rounds fuel get_log_id stack' res'
  ]

  unfoldable pub get_key_log_ids :
      ℕ → (ℕ → Option (LogId CLID)) → LogId CLID → LogId CLID → Outcome CLID
  unfolding rounds
  get_key_log_ids fuel get_log_id first last = rounds fuel get_log_id ((first, last) ∷ []) []
