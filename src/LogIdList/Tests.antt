-- ===== src/LogIdList/Tests.antt =====
-- A log of three leaders: 1 wrote the logs up to 3, 2 those up to 6 and 3 those up to 8.
use openraft.Prelude.{
  ◌≤◌, ◌-◌, get_elem?, ℕ, ◌≡◌, refl, some, List, [], ◌∷◌, arith, leb, if◌then◌else◌,
}
use openraft.Prelude.Ord.{nat_ord}
use openraft.LogId.{LogId, cmp_log_id}
use openraft.LogIdList.{LogIdList, first_index, get, truncate, purge, extend}
use openraft.LogIdList.Valid.{IsValid}
use openraft.LogIdList.Refines.{
  Op, append_op, truncate_op, purge_op, run_ops, full, replay, run_refines,
}
use openraft.LogIdList.Rebuild.{extend-full}
use openraft.LogIdList.Leaders.{extend_from_same_leader, extend_from_same_leader-eq-extend}
use openraft.LogIdList.Load.{get_key_log_ids, done}
use openraft.LogIdList.Load.Correct.{IsMonotone, IsRunsOf, at}
use openraft.LogIdList.Load.Segments.{get_key_log_ids-IsRunsOf}

abbrev id : ℕ → ℕ → LogId ℕ
id leader index = record { leader_id = leader; index = index }

abbrev three : LogIdList ℕ
three = record { purged = some (id 1 0); key_log_ids = id 1 3 ∷ id 2 6 ∷ id 3 8 ∷ [] }

three-IsValid : IsValid three
three-IsValid = ground arith

truncated : truncate three 5 ≡ record { purged = some (id 1 0); key_log_ids = id 1 3 ∷ id 2 4 ∷ [] }
unfolding truncate
truncated = refl

purged :
    purge three (id 2 4) ≡ record { purged = some (id 2 4); key_log_ids = id 2 6 ∷ id 3 8 ∷ [] }
unfolding purge
purged = refl

-- `get_key_log_ids` on the logs 1 to 8
abbrev leader : ℕ → ℕ
leader i = if leb i 3 then 1 else if leb i 6 then 2 else 3

leader-IsMonotone : IsMonotone leader
leader-IsMonotone i j h = ground arith

loaded :
    get_key_log_ids 16 (λ i. some (at leader i)) (at leader 1) (at leader 8)
    ≡ done (id 1 3 ∷ id 2 6 ∷ id 3 8 ∷ [])
unfolding get_key_log_ids
loaded = refl

get_key_log_ids-IsRunsOf_example :
    (keys : List (LogId ℕ)) × (get_key_log_ids 16
        (λ i. some (at leader i))
        (at leader 1)
        (at leader 8)
      ≡ done keys)
    × IsRunsOf leader 1 9 keys
get_key_log_ids-IsRunsOf_example =
    get_key_log_ids-IsRunsOf (λ i. some (at leader i)) leader 1 8 leader-IsMonotone (λ i _ _. refl)
      16 (omega arith) (omega arith)

abbrev of_one_leader : List (LogId ℕ)
of_one_leader = id 4 10 ∷ id 4 11 ∷ []

extend_from_same_leader-eq-extend_example :
    extend_from_same_leader three (id 4 9 ∷ of_one_leader) ≡ extend three (id 4 9 ∷ of_one_leader)
extend_from_same_leader-eq-extend_example =
    extend_from_same_leader-eq-extend three (id 4 9) of_one_leader (refl, (refl, tt))

abbrev ops : List (Op ℕ)
ops = append_op (id 3 9) ∷ truncate_op 8 ∷ purge_op (id 2 4) ∷ []

run_refines_example :
    IsValid (run_ops three ops)
    × (full (run_ops three ops) ≡ replay (full three) ops)
    × ((i : ℕ)
        → first_index (run_ops three ops) ≤ i
        → get (run_ops three ops) i
          ≡ get_elem? (replay (full three) ops).ids (i - first_index (run_ops three ops)))
unfolding cmp_log_id
run_refines_example = run_refines ops three three-IsValid ((refl, refl), (tt, ((λ h k. refl), tt)))

extend-full_example :
    extend (record { purged = some (id 1 0); key_log_ids = [] }) (full three).ids ≡ three
extend-full_example = extend-full three three-IsValid
