-- ===== src/Quorum.antt =====
-- membership/src/quorum: quorum rules. The trait `QuorumSet` is of the crate `quorum_set`; it is an
-- interface here, with the contract that membership/src/quorum/testing.rs asks of a rule. An
-- iterator of ids is a list, which may hold an id twice; a `BTreeSet` is a list of distinct ids.
pub mod Count
pub mod Threshold
pub mod Weighted
pub mod Joint
pub mod Grid
mod Tests
use openraft.Prelude.{ℕ, ◌≡◌, ◌≢◌, Bool, true, false, Option, some, List, [], ◌∷◌, ◌||◌, eq}
use openraft.Prelude.Ord.{Ord, is_eq}

module _ {ID : Type 0} ⦃o : Ord ID⦄ where
  abbrev pub same_id : ID → ID → Bool
  same_id a b = is_eq (o.cmp a b)

  -- `ids.any(|candidate| candidate == id)`, and `BTreeSet::contains`
  unfoldable pub contains : List ID → ID → Bool
  contains [] id = false
  contains (candidate ∷ ids) id = same_id candidate id || contains ids id

  -- two sets have an id in common: the negation of `BTreeSet::is_disjoint`
  unfoldable pub shares : List ID → List ID → Bool
  unfolding contains
  shares [] ys = false
  shares (x ∷ xs) ys = contains ys x || shares xs ys

  -- the ids of a `BTreeSet` are distinct
  abbrev pub IsDistinct : List ID → Type 0
  IsDistinct [] = Unit
  IsDistinct (x ∷ xs) = (contains xs x ≡ false) × IsDistinct xs

  -- every id of the one list is in the other
  abbrev pub IsWithin : List ID → List ID → Type 0
  IsWithin xs ys = (id : ID) → contains xs id ≡ true → contains ys id ≡ true

-- `quorum_set::QuorumSet`: what is a quorum stays one when ids are added, repeated or reordered,
-- and no id at all is no quorum.
pub record QuorumSet (Q ID : Type 0) ⦃o : Ord ID⦄ : Type 0 where
  pub is_quorum : Q → List ID → Bool
  pub is_quorum-nil : (q : Q) → is_quorum q [] ≡ false
  pub is_quorum_mono :
      (q : Q) (xs ys : List ID) → IsWithin xs ys → is_quorum q xs ≡ true → is_quorum q ys ≡ true

-- `quorum_set::QuorumIntersection`: the answer `Some(true)` says that every quorum of the one
-- rule shares an id with every quorum of the other, `Valid` being what the constructors check.
pub record QuorumIntersection (Q ID : Type 0) (Valid : Q → Type 0) ⦃o : Ord ID⦄ ⦃s : QuorumSet Q ID⦄
    : Type 0 where
  pub intersects_with : Q → Q → Option Bool
  pub shares_of_intersects :
      (p q : Q) (xs ys : List ID)
      → Valid p
      → Valid q
      → intersects_with p q ≡ some true
      → s.is_quorum p xs ≡ true
      → s.is_quorum q ys ≡ true
      → shares xs ys ≡ true
