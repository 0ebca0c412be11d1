-- ===== src/IoState/PartialOrd.antt =====
-- Rust's trait `PartialOrd` as an interface, and the partial order of `Option`, where `None` is
-- least. `<` and `<=` answer false on incomparable values.
use openraft.Prelude.{◌≡◌, refl, Bool, true, false, Option, none, some, Ordering, lt, eq, gt, arith}
use openraft.Prelude.Ord.{Ord}
use openraft.Vote.LeaderId.{reverse}
use openraft.Vote.{is_le, is_gt}

abbrev pub is_lt : Option Ordering → Bool
is_lt none = false
is_lt (some lt) = true
is_lt (some eq) = false
is_lt (some gt) = false

-- What the documentation of `PartialOrd` demands: duality, and transitivity of `<=`.
pub record IsPartialOrder (A : Type 0) (partial_cmp : A → A → Option Ordering) : Type 0 where
  pub cmp_refl : (a : A) → partial_cmp a a ≡ some eq
  pub cmp_flip : (a b : A) → partial_cmp b a ≡ reverse (partial_cmp a b)
  pub le_trans :
      (a b c : A)
      → is_le (partial_cmp a b) ≡ true
      → is_le (partial_cmp b c) ≡ true
      → is_le (partial_cmp a c) ≡ true

pub record PartialOrd (A : Type 0) : Type 0 where
  pub partial_cmp : A → A → Option Ordering
  pub order : IsPartialOrder A partial_cmp
  pub open order use *

-- `impl PartialOrd for Option<T>`
abbrev pub partial_cmp_option :
    {A : Type 0} → (A → A → Option Ordering) → Option A → Option A → Option Ordering
partial_cmp_option cmp none none = some eq
partial_cmp_option cmp none (some b) = some lt
partial_cmp_option cmp (some a) none = some gt
partial_cmp_option cmp (some a) (some b) = cmp a b

module _ {A : Type 0} ⦃p : PartialOrd A⦄ where
  -- `a <= b` and `a < b` on two options
  abbrev pub option_le : Option A → Option A → Bool
  option_le a b = is_le (partial_cmp_option p.partial_cmp a b)

  abbrev pub option_lt : Option A → Option A → Bool
  option_lt a b = is_lt (partial_cmp_option p.partial_cmp a b)

  abbrev pub option_gt : Option A → Option A → Bool
  option_gt a b = is_gt (partial_cmp_option p.partial_cmp a b)

  pub option_le_refl : (a : Option A) → option_le a a ≡ true
  option_le_refl none = refl
  option_le_refl (some a) = ground (arith, p.cmp_refl a)

  pub option_le_trans :
      (a b c : Option A) → option_le a b ≡ true → option_le b c ≡ true → option_le a c ≡ true
  option_le_trans none b none h k = refl
  option_le_trans none b (some z) h k = refl
  option_le_trans (some x) (some y) (some z) h k = p.le_trans x y z h k
  option_le_trans (some x) none c h k = ground arith
  option_le_trans (some x) (some y) none h k = ground arith

  pub option_lt→le : (a b : Option A) → option_lt a b ≡ true → option_le a b ≡ true
  option_lt→le a b h = ground arith

  pub option_gt→le : (a b : Option A) → option_gt a b ≡ true → option_le b a ≡ true
  option_gt→le none none h = ground arith
  option_gt→le none (some y) h = ground arith
  option_gt→le (some x) none h = refl
  option_gt→le (some x) (some y) h = ground (arith, p.cmp_flip x y)

-- the partial order of a total one
pub Ord-IsPartialOrder : {A : Type 0} ⦃o : Ord A⦄ → IsPartialOrder A (λ a b. some (o.cmp a b))
Ord-IsPartialOrder ⦃o⦄ = record {
  cmp_refl = λ a. ground (arith, o.cmp_self a);
  cmp_flip = λ a b. ground (arith, o.cmp_swap a b);
  le_trans = λ a b c. ground (arith, o.cmp_eq a b, o.cmp_eq b c, o.cmp_lt a b c);
}

abbrev pub total_partial_ord : {A : Type 0} ⦃o : Ord A⦄ → PartialOrd A
total_partial_ord ⦃o⦄ = record { partial_cmp = λ a b. some (o.cmp a b); order = Ord-IsPartialOrder }
