-- ===== src/Quorum/Grid/Exact.antt =====
-- The intersection check of two grid rules is exact where it answers.
use openraft.Prelude.{
  ◌≡◌, refl, true, false, Option, none, some, List, [], ◌∷◌, if◌then◌else◌, arith, Bool-cases, inl,
  inr, Option-cases,
}
use openraft.Prelude.Ord.{Ord}
use openraft.Quorum.{contains, shares, IsWithin}
use openraft.Quorum.Count.{shares_intro, shares_of}
use openraft.Quorum.Grid.{
  GridRule, full_row, one_per_row, GridQuorumSet, all_in, any_in, holds_row, meets_rows, accepts,
  is_quorum, rows_meet, compare_rules, intersects_with, meeting_rule, accepts_mono,
}

module _ {ID : Type 0} ⦃o : Ord ID⦄ where
  any_in-shares : (row xs : List ID) → any_in row xs ≡ shares row xs
  unfolding any_in shares
  any_in-shares [] xs = refl
  any_in-shares (id ∷ row) xs = ground (arith, any_in-shares row xs)

  all_in-IsWithin : (row xs : List ID) → all_in row xs ≡ true → IsWithin row xs
  unfolding all_in contains
  all_in-IsWithin [] xs h a m = cc
  all_in-IsWithin (id ∷ row) xs h a m =
      ground (arith, all_in-IsWithin row xs (ground arith) a, o.cmp_eq id a)

  shares_comm : (xs ys : List ID) → shares xs ys ≡ true → shares ys xs ≡ true
  shares_comm xs ys h = let t = shares_of xs ys h in shares_intro ys xs t.0 t.2 t.1

  shares_mono : (row xs ys : List ID) → IsWithin row xs → shares row ys ≡ true → shares xs ys ≡ true
  shares_mono row xs ys w h = let t = shares_of row ys h in shares_intro xs ys t.0 (w t.0 t.1) t.2

  -- a row, and a set that meets all rows
  holds-meets :
      (grid : List (List ID)) (xs ys : List ID)
      → holds_row grid xs ≡ true
      → meets_rows grid ys ≡ true
      → shares xs ys ≡ true
  unfolding holds_row meets_rows
  holds-meets [] xs ys h k = cc
  holds-meets (row ∷ grid) xs ys h k = elim (Bool-cases (all_in row xs)) [
    | inl e ↦
        shares_mono row xs ys (all_in-IsWithin row xs e) (ground (arith, any_in-shares row ys))
    | inr e ↦ holds-meets grid xs ys (ground arith) (ground arith)
  ]

  meeting_sound :
      (grid : List (List ID)) (rule : GridRule) (row ys : List ID)
      → accepts grid (meeting_rule rule) row ≡ true
      → accepts grid rule ys ≡ true
      → shares row ys ≡ true
  unfolding accepts meeting_rule
  meeting_sound grid full_row row ys h k = shares_comm ys row (holds-meets grid ys row k h)
  meeting_sound grid one_per_row row ys h k = holds-meets grid row ys h k

  rows_meet_sound :
      (rows compared : List (List ID)) (rule : GridRule) (xs ys : List ID)
      → rows_meet rows compared rule ≡ some true
      → holds_row rows xs ≡ true
      → accepts compared rule ys ≡ true
      → shares xs ys ≡ true
  unfolding rows_meet holds_row
  rows_meet_sound [] compared rule xs ys h k l = cc
  rows_meet_sound (row ∷ rows) compared rule xs ys h k l = elim (Bool-cases (all_in row xs)) [
    | inl e ↦
        shares_mono row xs ys (all_in-IsWithin row xs e)
          (meeting_sound compared rule row ys (ground arith) l)
    | inr e ↦ rows_meet_sound rows compared rule xs ys (ground arith) (ground arith) l
  ]

  rules_sound :
      (g h : List (List ID)) (r r' : GridRule) (xs ys : List ID)
      → compare_rules g r h r' ≡ some true
      → accepts g r xs ≡ true
      → accepts h r' ys ≡ true
      → shares xs ys ≡ true
  unfolding compare_rules
  rules_sound g h full_row r' xs ys e k l = rows_meet_sound g h r' xs ys e (unfold accepts in k) l
  rules_sound g h one_per_row full_row xs ys e k l =
      shares_comm ys xs (rows_meet_sound h g one_per_row ys xs e (unfold accepts in l) k)
  rules_sound g h one_per_row one_per_row xs ys e k l = cc

  -- If the check says that two rules intersect, any two of their quorums share an id.
  pub grid_intersects_sound :
      (p q : GridQuorumSet ID) (xs ys : List ID)
      → intersects_with p q ≡ some true
      → is_quorum p xs ≡ true
      → is_quorum q ys ≡ true
      → shares xs ys ≡ true
  unfolding intersects_with is_quorum
  grid_intersects_sound p q xs ys = rules_sound p.grid q.grid p.rule q.rule xs ys

  -- an id of the one set that the other lacks
  first_out : List ID → List ID → Option ID
  first_out [] row = none
  first_out (id ∷ cells) row = if contains row id then first_out cells row else some id

  -- one id of each row outside `row`
  others : List (List ID) → List ID → List ID
  others [] row = []
  others (cells ∷ grid) row = elim (first_out cells row) [
    | none ↦ others grid row
    | some id ↦ id ∷ others grid row
  ]

  first_out-none : (cells row : List ID) → first_out cells row ≡ none → all_in cells row ≡ true
  unfolding first_out all_in
  first_out-none [] row h = refl
  first_out-none (id ∷ cells) row h = ground (arith, first_out-none cells row)

  first_out-some :
      (cells row : List ID) (a : ID)
      → first_out cells row ≡ some a
      → (contains cells a ≡ true) × (contains row a ≡ false)
  unfolding first_out contains
  first_out-some [] row a h = cc
  first_out-some (id ∷ cells) row a h = ground (arith, first_out-some cells row a, o.cmp_self id)

  others-some :
      (cells : List ID) (grid : List (List ID)) (row : List ID) (a : ID)
      → first_out cells row ≡ some a
      → others (cells ∷ grid) row ≡ a ∷ others grid row
  unfolding others
  others-some cells grid row a e = ground arith

  others-none :
      (cells : List ID) (grid : List (List ID)) (row : List ID)
      → first_out cells row ≡ none
      → others (cells ∷ grid) row ≡ others grid row
  unfolding others
  others-none cells grid row e = ground arith

  others_apart : (grid : List (List ID)) (row : List ID) → shares (others grid row) row ≡ false
  unfolding shares
  others_apart [] row = unfold others in refl
  others_apart (cells ∷ grid) row =
      let ih = others_apart grid row in
      elim (Option-cases (first_out cells row)) [
        | inl e ↦ rw (others-none cells grid row e) ih
        | inr (a, e) ↦
            rw (others-some cells grid row a e) (ground (arith, ih, first_out-some cells row a e))
      ]

  meets_rows_mono :
      (grid : List (List ID)) (xs ys : List ID)
      → IsWithin xs ys
      → meets_rows grid xs ≡ true
      → meets_rows grid ys ≡ true
  unfolding accepts
  meets_rows_mono grid xs ys = accepts_mono grid one_per_row xs ys

  IsWithin-cons : (a : ID) (xs : List ID) → IsWithin xs (a ∷ xs)
  unfolding contains
  IsWithin-cons a xs id m = ground arith

  others-meets :
      (grid : List (List ID)) (row : List ID)
      → holds_row grid row ≡ false
      → meets_rows grid (others grid row) ≡ true
  unfolding meets_rows holds_row contains
  others-meets [] row h = refl
  others-meets (cells ∷ grid) row h =
      let ih = others-meets grid row in
      elim (Option-cases (first_out cells row)) [
        | inl e ↦ rw (others-none cells grid row e) (ground (arith, first_out-none cells row e))
        | inr (a, e) ↦ rw (others-some cells grid row a e) (
            ground (
              arith,
              ih,
              meets_rows_mono grid (others grid row) (a ∷ others grid row)
                  (IsWithin-cons a (others grid row)),
              any_in-shares cells (a ∷ others grid row),
              shares_intro cells (a ∷ others grid row) a,
              first_out-some cells row a e,
              o.cmp_self a,
            ))
      ]

  -- the first row that a set does not meet
  unmet : List (List ID) → List ID → List ID
  unmet [] xs = []
  unmet (row ∷ grid) xs = if any_in row xs then unmet grid xs else row

  all_in_of : (cells xs : List ID) → IsWithin cells xs → all_in cells xs ≡ true
  unfolding all_in contains
  all_in_of [] xs w = refl
  all_in_of (c ∷ cells) xs w =
      let rest : IsWithin cells xs = λ a m. w a (ground arith) in
      ground (arith, w c, o.cmp_self c, all_in_of cells xs rest)

  unmet_lem :
      (grid : List (List ID)) (xs : List ID)
      → meets_rows grid xs ≡ false
      → (holds_row grid (unmet grid xs) ≡ true) × (shares (unmet grid xs) xs ≡ false)
  unfolding unmet meets_rows holds_row
  unmet_lem [] xs h = cc
  unmet_lem (row ∷ grid) xs h =
      ground (arith, unmet_lem grid xs, all_in_of row row (λ a m. m), any_in-shares row xs)

  -- A full row of the one rule, and a quorum of the other that it does not meet.
  missed_row : List (List ID) → List (List ID) → GridRule → List ID
  missed_row [] compared rule = []
  missed_row (row ∷ rows) compared rule =
      if accepts compared (meeting_rule rule) row then missed_row rows compared rule else row

  unmet_quorum : List (List ID) → GridRule → List ID → List ID
  unmet_quorum compared full_row row = unmet compared row
  unmet_quorum compared one_per_row row = others compared row

  unmet_quorum_lem :
      (compared : List (List ID)) (rule : GridRule) (row : List ID)
      → accepts compared (meeting_rule rule) row ≡ false
      → (accepts compared rule (unmet_quorum compared rule row) ≡ true)
        × (shares (unmet_quorum compared rule row) row ≡ false)
  unfolding accepts meeting_rule unmet_quorum
  unmet_quorum_lem compared full_row row h = unmet_lem compared row h
  unmet_quorum_lem compared one_per_row row h =
      (others-meets compared row h, others_apart compared row)

  missed_row_lem :
      (rows compared : List (List ID)) (rule : GridRule)
      → rows_meet rows compared rule ≡ some false
      → (holds_row rows (missed_row rows compared rule) ≡ true)
        × (accepts compared (meeting_rule rule) (missed_row rows compared rule) ≡ false)
  unfolding rows_meet holds_row missed_row
  missed_row_lem [] compared rule h = cc
  missed_row_lem (row ∷ rows) compared rule h =
      ground (arith, missed_row_lem rows compared rule, all_in_of row row (λ a m. m))

  not-shares_comm : (xs ys : List ID) → shares xs ys ≡ false → shares ys xs ≡ false
  not-shares_comm xs ys h = ground (arith, shares_comm ys xs)

  rules_complete :
      (g h : List (List ID)) (r r' : GridRule)
      → compare_rules g r h r' ≡ some false
      → (xs : List ID) × (ys : List ID) × (accepts g r xs ≡ true)
        × (accepts h r' ys ≡ true)
        × (shares xs ys ≡ false)
  unfolding compare_rules
  rules_complete g h full_row r' e =
      let xs : List ID = missed_row g h r' in
      let m = missed_row_lem g h r' e in
      let u = unmet_quorum_lem h r' xs m.1 in
      (
        xs,
        unmet_quorum h r' xs,
        unfold accepts in m.0,
        u.0,
        not-shares_comm (unmet_quorum h r' xs) xs u.1,
      )
  rules_complete g h one_per_row full_row e =
      let ys : List ID = missed_row h g one_per_row in
      let m = missed_row_lem h g one_per_row e in
      let u = unmet_quorum_lem g one_per_row ys m.1 in
      (unmet_quorum g one_per_row ys, ys, u.0, unfold accepts in m.0, u.1)
  rules_complete g h one_per_row one_per_row e = cc

  -- If the check says that two rules do not intersect, there are two quorums with no id in common.
  pub grid_intersects_complete :
      (p q : GridQuorumSet ID)
      → intersects_with p q ≡ some false
      → (xs : List ID) × (ys : List ID) × (is_quorum p xs ≡ true)
        × (is_quorum q ys ≡ true)
        × (shares xs ys ≡ false)
  unfolding intersects_with is_quorum
  grid_intersects_complete p q = rules_complete p.grid q.grid p.rule q.rule
