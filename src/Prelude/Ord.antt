-- ===== src/Prelude/Ord.antt =====
-- Rust's trait `Ord` as an interface, the order of pairs, and that of `Option`, where `None` is least.
use Prim.Native.Nat.{ℕ, compare, Ordering}
use Prim.Native.Nat.Ordering.{lt, eq, gt}
use mathlib.Core.Path.{◌≡◌, refl}
use mathlib.Core.Bool.{Bool, true, false}
use mathlib.Core.Option.{Option, none, some}
use native.Mathlib.Omega.{arith}

-- `Ordering::reverse`
abbrev pub swap : Ordering → Ordering
swap lt = gt
swap eq = eq
swap gt = lt

-- What the documentation of `Ord` demands: antisymmetry by `swap`, agreement with equality (which
-- is read as `≡`), and transitivity.
pub record IsTotal (A : Type 0) (cmp : A → A → Ordering) : Type 0 where
  pub cmp_swap : (x y : A) → cmp y x ≡ swap (cmp x y)
  pub cmp_self : (x : A) → cmp x x ≡ eq
  pub cmp_eq : (x y : A) → cmp x y ≡ eq → x ≡ y
  pub cmp_lt : (x y z : A) → cmp x y ≡ lt → cmp y z ≡ lt → cmp x z ≡ lt

pub record Ord (A : Type 0) : Type 0 where
  pub cmp : A → A → Ordering
  pub total : IsTotal A cmp
  pub open total use *

pub compare-IsTotal : IsTotal ℕ compare
compare-IsTotal = record {
  cmp_swap = λ x y. ground arith;
  cmp_self = λ x. ground arith;
  cmp_eq = λ x y. ground arith;
  cmp_lt = λ x y z. ground arith;
}

instance abbrev pub nat_ord : Ord ℕ
nat_ord = record { cmp = compare; total = compare-IsTotal }

abbrev pub is_eq : Ordering → Bool
is_eq eq = true
is_eq lt = false
is_eq gt = false

-- the order of a pair: by the first component, then by the second
abbrev pub then_cmp : Ordering → Ordering → Ordering
then_cmp eq second = second
then_cmp lt second = lt
then_cmp gt second = gt

-- `impl Ord for Option<T>`
abbrev pub cmp_option : {A : Type 0} → (A → A → Ordering) → Option A → Option A → Ordering
cmp_option cmp none none = eq
cmp_option cmp none (some y) = lt
cmp_option cmp (some x) none = gt
cmp_option cmp (some x) (some y) = cmp x y

module _ {A : Type 0} ⦃o : Ord A⦄ where
  cmp_option-swap : (x y : Option A) → cmp_option o.cmp y x ≡ swap (cmp_option o.cmp x y)
  cmp_option-swap none none = refl
  cmp_option-swap none (some y) = refl
  cmp_option-swap (some x) none = refl
  cmp_option-swap (some x) (some y) = o.cmp_swap x y

  cmp_option-eq : (x y : Option A) → cmp_option o.cmp x y ≡ eq → x ≡ y
  cmp_option-eq none none h = refl
  cmp_option-eq (some x) (some y) h = ground (arith, o.cmp_eq x y)
  cmp_option-eq _ _ h = cc

  cmp_option-lt :
      (x y z : Option A)
      → cmp_option o.cmp x y ≡ lt
      → cmp_option o.cmp y z ≡ lt
      → cmp_option o.cmp x z ≡ lt
  cmp_option-lt (some x) (some y) (some z) h k = o.cmp_lt x y z h k
  cmp_option-lt _ _ _ h k = ground arith

  cmp_option_self : (x : Option A) → cmp_option o.cmp x x ≡ eq
  cmp_option_self none = refl
  cmp_option_self (some x) = o.cmp_self x

  pub cmp_option-IsTotal : IsTotal (Option A) (cmp_option o.cmp)
  cmp_option-IsTotal = record {
    cmp_swap = cmp_option-swap;
    cmp_self = cmp_option_self;
    cmp_eq = cmp_option-eq;
    cmp_lt = cmp_option-lt;
  }
