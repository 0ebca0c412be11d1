-- ===== src/Prelude/Maps.antt =====
-- A `BTreeMap` with numbers as keys, as the list of its pairs by rising keys, and what the models use
-- of `BTreeMap` and `BTreeSet`.
use Prim.Native.Nat.{ℕ, compare, Ordering}
use mathlib.Core.Path.{◌≡◌, refl, ap}
use mathlib.Core.Logic.{inl, inr}
use mathlib.Core.Bool.{Bool, true, false}
use mathlib.Core.List.{List, [], ◌∷◌}
use mathlib.Core.Option.{Option, none, some}
use native.Mathlib.Omega.{arith}
use openraft.Prelude.Tests.{◌==◌, Bool-cases, if◌then◌else◌}

-- `BTreeSet::insert`
unfoldable pub insert_id : ℕ → List ℕ → List ℕ
insert_id id [] = id ∷ []
insert_id id (k ∷ ks) = elim (compare id k) [
  | Ordering.lt ↦ id ∷ k ∷ ks
  | Ordering.eq ↦ k ∷ ks
  | Ordering.gt ↦ k ∷ insert_id id ks
]

-- `BTreeSet::extend`
unfoldable pub insert_ids : List ℕ → List ℕ → List ℕ
unfolding insert_id
insert_ids [] ids = ids
insert_ids (x ∷ xs) ids = insert_ids xs (insert_id x ids)

eq_of_test : (k x : ℕ) → (k == x) ≡ true → k ≡ x
eq_of_test k x e = ground arith

module _ {A : Type 0} where
  abbrev pub lookup : ℕ → List (ℕ × A) → Option A
  lookup id [] = none
  lookup id ((k, a) ∷ m) = if k == id then some a else lookup id m

  abbrev pub has_key : ℕ → List (ℕ × A) → Bool
  has_key id m = elim (lookup id m) [ none ↦ false | some a ↦ true ]

  abbrev pub keys : List (ℕ × A) → List ℕ
  keys [] = []
  keys ((k, a) ∷ m) = k ∷ keys m

  -- `BTreeMap::insert`
  unfoldable pub insert : ℕ → A → List (ℕ × A) → List (ℕ × A)
  insert id a [] = (id, a) ∷ []
  insert id a ((k, b) ∷ m) = elim (compare id k) [
    | Ordering.lt ↦ (id, a) ∷ (k, b) ∷ m
    | Ordering.eq ↦ (id, a) ∷ m
    | Ordering.gt ↦ (k, b) ∷ insert id a m
  ]

  -- a change of the value of a key, by `get_mut`
  unfoldable pub change_at : ℕ → (A → A) → List (ℕ × A) → List (ℕ × A)
  change_at id f [] = []
  change_at id f ((k, a) ∷ m) = if k == id then (k, f a) ∷ m else (k, a) ∷ change_at id f m

  -- `BTreeMap::retain`, by a test of the keys
  unfoldable pub retain : (ℕ → Bool) → List (ℕ × A) → List (ℕ × A)
  retain keep [] = []
  retain keep ((k, a) ∷ m) = let rest = retain keep m in if keep k then (k, a) ∷ rest else rest

  pub lookup-insert :
      (id : ℕ) (a : A) (m : List (ℕ × A)) (x : ℕ)
      → lookup x (insert id a m) ≡ (if id == x then some a else lookup x m)
  unfolding insert
  lookup-insert id a [] x = refl
  lookup-insert id a ((k, b) ∷ m) x = ground (arith, lookup-insert id a m x)

  pub lookup-change_at :
      (id : ℕ) (f : A → A) (m : List (ℕ × A)) (x : ℕ)
      → lookup x (change_at id f m) ≡ (
          if id == x
          then (elim (lookup x m) as (λ o. Option A) [ none ↦ none | some a ↦ some (f a) ])
          else lookup x m)
  unfolding change_at
  lookup-change_at id f [] x = ground arith
  lookup-change_at id f ((k, a) ∷ m) x = ground (arith, lookup-change_at id f m x)

  pub lookup-retain :
      (keep : ℕ → Bool) (m : List (ℕ × A)) (x : ℕ)
      → lookup x (retain keep m) ≡ (if keep x then lookup x m else none)
  unfolding retain
  lookup-retain keep [] x = ground arith
  lookup-retain keep ((k, a) ∷ m) x = elim (Bool-cases (k == x)) [
    | inl e ↦ ground (arith, ap keep (eq_of_test k x e), lookup-retain keep m x)
    | inr e ↦ ground (arith, lookup-retain keep m x)
  ]
