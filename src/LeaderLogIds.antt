-- ===== src/LeaderLogIds.antt =====
-- openraft/src/engine/{leader_log_ids,leader_log_ids_iter}.rs: a range of log ids of one leader, and
-- the iterator over it. An index is an unsigned integer without a bound.
mod Tests
use openraft.Prelude.{
  ℕ, zero, suc, ◌+◌, ◌-◌, ◌≤◌, ◌<◌, ◌≡◌, refl, Bool, true, false, Option, none, some, List, [], ◌∷◌,
  ◌++◌, leb, ltb, if◌then◌else◌, arith, length, get_elem?, last?, All,
}
use openraft.LogId.{LogId, next_index}

-- both ends are inclusive
pub record LeaderLogIds (CLID : Type 0) : Type 0 where
  pub committed_leader_id : CLID
  pub first : ℕ
  pub last : ℕ

-- the range `[start, end)`
pub record LeaderLogIdsIter (CLID : Type 0) : Type 0 where
  pub committed_leader_id : CLID
  pub start : ℕ
  pub end : ℕ

module _ {CLID : Type 0} where
  unfoldable pub new_single : LogId CLID → LeaderLogIds CLID
  new_single log_id = record {
    committed_leader_id = log_id.leader_id;
    first = log_id.index;
    last = log_id.index;
  }

  abbrev pub first_ref : LeaderLogIds CLID → LogId CLID
  first_ref ids = record { leader_id = ids.committed_leader_id; index = ids.first }

  abbrev pub last_ref : LeaderLogIds CLID → LogId CLID
  last_ref ids = record { leader_id = ids.committed_leader_id; index = ids.last }

  unfoldable pub len : LeaderLogIds CLID → ℕ
  len ids = if ltb ids.last ids.first then 0 else ids.last - ids.first + 1

  unfoldable pub into_iter : LeaderLogIds CLID → LeaderLogIdsIter CLID
  into_iter ids = record {
    committed_leader_id = ids.committed_leader_id;
    start = ids.first;
    end = ids.last + 1;
  }

  unfoldable pub next : LeaderLogIdsIter CLID → LeaderLogIdsIter CLID × Option (LogId CLID)
  next it = if leb it.end it.start then (it, none) else (
    record it { start = it.start + 1 },
    some (record { leader_id = it.committed_leader_id; index = it.start }),
  )

  unfoldable pub next_back : LeaderLogIdsIter CLID → LeaderLogIdsIter CLID × Option (LogId CLID)
  next_back it = if leb it.end it.start then (it, none) else (
    record it { end = it.end - 1 },
    some (record { leader_id = it.committed_leader_id; index = it.end - 1 }),
  )

  -- `Iterator::collect`, with as much fuel as there are items: it stops at the first `None`
  unfoldable pub collect_fuel : ℕ → LeaderLogIdsIter CLID → List (LogId CLID)
  unfolding next
  collect_fuel zero it = []
  collect_fuel (suc fuel) it =
      let rest = collect_fuel fuel (next it).0 in
      elim (next it).1 [ none ↦ [] | some log_id ↦ log_id ∷ rest ]

  unfoldable pub collect : LeaderLogIdsIter CLID → List (LogId CLID)
  unfolding collect_fuel
  collect it = collect_fuel (it.end - it.start) it

  -- the log ids of one leader from an index on, in order and without a gap
  abbrev pub IsRange : CLID → ℕ → List (LogId CLID) → Type 0
  IsRange leader start [] = Unit
  IsRange leader start (x ∷ xs) =
      (x.leader_id ≡ leader) × (x.index ≡ start) × IsRange leader (suc start) xs

  collect_fuel_lem :
      (fuel : ℕ) (it : LeaderLogIdsIter CLID)
      → it.start + fuel ≡ it.end
      → IsRange it.committed_leader_id it.start (collect_fuel fuel it)
        × (length (collect_fuel fuel it) ≡ fuel)
        × (collect_fuel (suc fuel) it ≡ collect_fuel fuel it)
  unfolding collect_fuel
  collect_fuel_lem zero it h = ground arith
  collect_fuel_lem (suc fuel) it h =
      ground (arith, collect_fuel_lem fuel (record it { start = it.start + 1 }))

  len_lem : (ids : LeaderLogIds CLID) → ids.first ≤ ids.last → len ids ≡ ids.last + 1 - ids.first
  unfolding len
  len_lem ids h = ground arith

  -- Iterating over a range gives one log id of the leader for each index from the first one to the
  -- last, in order, and no more however often it is asked.
  pub collect-IsRange :
      (ids : LeaderLogIds CLID)
      → ids.first ≤ ids.last
      → IsRange ids.committed_leader_id ids.first (collect (into_iter ids))
        × (length (collect (into_iter ids)) ≡ len ids)
        × (collect_fuel (suc (len ids)) (into_iter ids) ≡ collect (into_iter ids))
  unfolding collect into_iter
  collect-IsRange ids h =
      rw (len_lem ids h) (collect_fuel_lem (ids.last + 1 - ids.first) (into_iter ids) (omega arith))
