-- ===== src/Quorum/Grid.antt =====
-- membership/src/grid/grid_quorum_set.rs: the voters in rows; a quorum holds a whole row, or one
-- voter of every row. A row's `candidates` are a list of ids.
pub mod Exact
use openraft.Prelude.{
  ℕ, suc, ◌≡◌, refl, Bool, true, false, Option, none, some, List, [], ◌∷◌, ◌++◌, not, if◌then◌else◌,
  arith, ◌==◌, length,
}
use openraft.Prelude.Ord.{Ord}
use openraft.Quorum.{QuorumSet, contains, IsWithin}

pub data GridRule : Type 0 where
  full_row : GridRule
  one_per_row : GridRule

pub record GridQuorumSet (ID : Type 0) : Type 0 where
  pub grid : List (List ID)
  pub rule : GridRule

pub data InvalidGrid (ID : Type 0) : Type 0 where
  no_row : InvalidGrid ID
  no_column : InvalidGrid ID
  ragged_row : ℕ → ℕ → ℕ → InvalidGrid ID
  duplicate_voter : ID → InvalidGrid ID

-- the rule whose sets meet every quorum of a rule
unfoldable pub meeting_rule : GridRule → GridRule
meeting_rule full_row = one_per_row
meeting_rule one_per_row = full_row

module _ {ID : Type 0} ⦃o : Ord ID⦄ where
  -- `row.iter().all(..)` and `row.iter().any(..)`
  unfoldable pub all_in : List ID → List ID → Bool
  unfolding contains
  all_in [] candidates = true
  all_in (id ∷ row) candidates = if contains candidates id then all_in row candidates else false

  unfoldable pub any_in : List ID → List ID → Bool
  unfolding contains
  any_in [] candidates = false
  any_in (id ∷ row) candidates = if contains candidates id then true else any_in row candidates

  -- the loops of `accepts`, one for each rule
  unfoldable pub holds_row : List (List ID) → List ID → Bool
  unfolding all_in
  holds_row [] candidates = false
  holds_row (row ∷ grid) candidates =
      if all_in row candidates then true else holds_row grid candidates

  unfoldable pub meets_rows : List (List ID) → List ID → Bool
  unfolding any_in
  meets_rows [] candidates = true
  meets_rows (row ∷ grid) candidates =
      if not (any_in row candidates) then false else meets_rows grid candidates

  unfoldable pub accepts : List (List ID) → GridRule → List ID → Bool
  unfolding holds_row meets_rows
  accepts grid full_row candidates = holds_row grid candidates
  accepts grid one_per_row candidates = meets_rows grid candidates

  unfoldable pub is_quorum : GridQuorumSet ID → List ID → Bool
  unfolding accepts
  is_quorum q ids = accepts q.grid q.rule ids

  -- `intersects_with` once the full-row side is told from the compared one
  unfoldable pub rows_meet : List (List ID) → List (List ID) → GridRule → Option Bool
  unfolding accepts meeting_rule
  rows_meet [] compared rule = some true
  rows_meet (row ∷ rows) compared rule =
      if not (accepts compared (meeting_rule rule) row)
      then some false
      else rows_meet rows compared rule

  unfoldable pub compare_rules : List (List ID) → GridRule → List (List ID) → GridRule → Option Bool
  unfolding rows_meet
  compare_rules g full_row h r = rows_meet g h r
  compare_rules g one_per_row h full_row = rows_meet h g one_per_row
  compare_rules g one_per_row h one_per_row = none

  unfoldable pub intersects_with : GridQuorumSet ID → GridQuorumSet ID → Option Bool
  unfolding compare_rules
  intersects_with p q = compare_rules p.grid p.rule q.grid q.rule

  -- the loops of `check_grid`: the first row of another length, and the first voter met before
  unfoldable pub find_ragged : ℕ → ℕ → List (List ID) → Option (InvalidGrid ID)
  find_ragged row columns [] = none
  find_ragged row columns (cells ∷ rest) =
      if length cells == columns
      then find_ragged (suc row) columns rest
      else some (ragged_row row (length cells) columns)

  unfoldable pub find_duplicate : List ID → List ID → Option (InvalidGrid ID)
  unfolding contains
  find_duplicate voters [] = none
  find_duplicate voters (voter ∷ rest) =
      if contains voters voter
      then some (duplicate_voter voter)
      else find_duplicate (voter ∷ voters) rest

  unfoldable pub flatten : List (List ID) → List ID
  flatten [] = []
  flatten (row ∷ rows) = row ++ flatten rows

  -- `None` is `Ok(())`.
  unfoldable pub check_grid : List (List ID) → Option (InvalidGrid ID)
  unfolding find_ragged find_duplicate flatten
  check_grid [] = some no_row
  check_grid (first_row ∷ rows) =
      if length first_row == 0
      then some no_column
      else elim (find_ragged 0 (length first_row) (first_row ∷ rows)) [
        | some e ↦ some e
        | none ↦ find_duplicate [] (flatten (first_row ∷ rows))
      ]

  all_in_mono : (row xs ys : List ID) → IsWithin xs ys → all_in row xs ≡ true → all_in row ys ≡ true
  unfolding all_in
  all_in_mono [] xs ys w h = refl
  all_in_mono (id ∷ row) xs ys w h = ground (arith, w id, all_in_mono row xs ys w)

  any_in_mono : (row xs ys : List ID) → IsWithin xs ys → any_in row xs ≡ true → any_in row ys ≡ true
  unfolding any_in
  any_in_mono [] xs ys w h = cc
  any_in_mono (id ∷ row) xs ys w h = ground (arith, w id, any_in_mono row xs ys w)

  accepts_mono :
      (grid : List (List ID)) (rule : GridRule) (xs ys : List ID)
      → IsWithin xs ys
      → accepts grid rule xs ≡ true
      → accepts grid rule ys ≡ true
  unfolding accepts
  accepts_mono [] full_row xs ys w h = cc
  accepts_mono [] one_per_row xs ys w h = refl
  accepts_mono (row ∷ grid) full_row xs ys w h =
      ground (arith, all_in_mono row xs ys w, accepts_mono grid full_row xs ys w)
  accepts_mono (row ∷ grid) one_per_row xs ys w h =
      ground (arith, any_in_mono row xs ys w, accepts_mono grid one_per_row xs ys w)

  -- Adding ids to a quorum leaves it one.
  pub is_quorum_mono :
      (q : GridQuorumSet ID) (xs ys : List ID)
      → IsWithin xs ys
      → is_quorum q xs ≡ true
      → is_quorum q ys ≡ true
  unfolding is_quorum
  is_quorum_mono q = accepts_mono q.grid q.rule
