-- ===== src/Quorum/Count.antt =====
-- Counting in sets of ids.
use openraft.Prelude.{
  ℕ, zero, suc, ◌+◌, ◌≤◌, ◌≡◌, refl, Bool, true, false, List, [], ◌∷◌, ◌++◌, ◌||◌, ◌&&◌, not, arith,
  length, take, drop, ap, Bool-cases, inl, inr, if◌then◌else◌,
}
use openraft.Prelude.Ord.{Ord}
use openraft.Quorum.{same_id, contains, shares, IsDistinct, IsWithin}

-- how many pass a test
unfoldable pub count {ℓ} : {A : Type ℓ} → (A → Bool) → List A → ℕ
count p [] = 0
count p (x ∷ xs) = if p x then suc (count p xs) else count p xs

unfoldable pub filter {ℓ} : {A : Type ℓ} → (A → Bool) → List A → List A
filter p [] = []
filter p (x ∷ xs) = let rest = filter p xs in if p x then x ∷ rest else rest

module _ {ID : Type 0} ⦃o : Ord ID⦄ where
  pub contains-transport :
      (xs : List ID) (a b : ID) → same_id a b ≡ true → contains xs a ≡ contains xs b
  contains-transport xs a b e = ground (arith, o.cmp_eq a b)

  pub contains-append :
      (xs ys : List ID) (a : ID) → contains (xs ++ ys) a ≡ (contains xs a || contains ys a)
  unfolding contains
  contains-append [] ys a = refl
  contains-append (x ∷ xs) ys a = ground (arith, contains-append xs ys a)

  pub contains-filter :
      (p : ID → Bool) (xs : List ID) (a : ID) → contains (filter p xs) a ≡ (contains xs a && p a)
  unfolding contains filter
  contains-filter p [] a = refl
  contains-filter p (x ∷ xs) a = ground (arith, contains-filter p xs a, o.cmp_eq x a)

  pub shares_intro :
      (xs ys : List ID) (a : ID) → contains xs a ≡ true → contains ys a ≡ true → shares xs ys ≡ true
  unfolding shares
  shares_intro [] ys a h k = cc
  shares_intro (x ∷ xs) ys a h k = ground (arith, shares_intro xs ys a, o.cmp_eq x a)

  pub not-shares :
      (xs ys : List ID) (a : ID)
      → shares xs ys ≡ false
      → contains xs a ≡ true
      → contains ys a ≡ false
  not-shares xs ys a h k = ground (arith, shares_intro xs ys a)

  pub filter-IsDistinct : (p : ID → Bool) (xs : List ID) → IsDistinct xs → IsDistinct (filter p xs)
  unfolding filter
  filter-IsDistinct p [] d = tt
  filter-IsDistinct p (x ∷ xs) d = ground (arith, filter-IsDistinct p xs, contains-filter p xs x)

pub count-filter {ℓ} :
    {A : Type ℓ} (p q : A → Bool) (xs : List A) → count p (filter q xs) ≡ count (λ a. p a && q a) xs
unfolding count filter
count-filter p q [] = refl
count-filter p q (x ∷ xs) = ground (arith, count-filter p q xs)

-- a set is counted in two parts
pub count-split {ℓ} :
    {A : Type ℓ} (p q : A → Bool) (xs : List A)
    → count p xs ≡ count (λ a. p a && q a) xs + count (λ a. p a && not (q a)) xs
unfolding count
count-split p q [] = omega arith
count-split p q (x ∷ xs) = ground (arith, count-split p q xs)

pub count-le {ℓ} :
    {A : Type ℓ} (p q : A → Bool) (xs : List A)
    → ((a : A) → p a ≡ true → q a ≡ true)
    → count p xs ≤ count q xs
unfolding count
count-le p q [] h = omega arith
count-le p q (x ∷ xs) h = ground (arith, count-le p q xs, h x)

module _ {ID : Type 0} ⦃o : Ord ID⦄ where
  -- one element less
  abbrev but : (ID → Bool) → ID → ID → Bool
  but p x a = p a && not (same_id x a)

  count-but :
      (p : ID → Bool) (x : ID) (xs : List ID)
      → p x ≡ true
      → contains xs x ≡ true
      → suc (count (but p x) xs) ≤ count p xs
  unfolding count contains
  count-but p x [] e h = cc
  count-but p x (y ∷ ys) e h = ground (
    arith,
    count-but p x ys,
    count-le (but p x) p ys (λ a k. ground arith),
    o.cmp_eq y x,
    o.cmp_self y,
  )

  count-but_new :
      (p : ID → Bool) (x : ID) (xs : List ID)
      → contains xs x ≡ false
      → count p xs ≤ count (but p x) xs
  unfolding count contains
  count-but_new p x [] h = omega arith
  count-but_new p x (y ∷ ys) h = ground (arith, count-but_new p x ys, o.cmp_eq x y, o.cmp_self x)

  -- A set of distinct ids has no more ids that pass a test than a set that holds all of these.
  pub count-within :
      (p : ID → Bool) (xs ys : List ID)
      → IsDistinct xs
      → ((a : ID) → contains xs a ≡ true → p a ≡ true → contains ys a ≡ true)
      → count p xs ≤ count p ys
  unfolding contains count
  count-within p [] ys d h = omega arith
  count-within p (x ∷ xs) ys d h = elim (Bool-cases (p x)) [
    | inl e ↦
        let fewer : (a : ID) → contains xs a ≡ true → but p x a ≡ true → contains ys a ≡ true =
          λ a m b. ground (arith, h a) in
        rw e (
          omega (
            arith,
            count-but p x ys e (h x (ground (arith, o.cmp_self x)) e),
            count-but_new p x xs d.0,
            count-within (but p x) xs ys d.1 fewer,
          ))
    | inr e ↦
        let same : (a : ID) → contains xs a ≡ true → p a ≡ true → contains ys a ≡ true =
          λ a m b. ground (arith, h a) in
        rw e (count-within p xs ys d.1 same)
  ]

  pub count-le_mem :
      (p q : ID → Bool) (xs : List ID)
      → ((a : ID) → contains xs a ≡ true → p a ≡ true → q a ≡ true)
      → count p xs ≤ count q xs
  unfolding contains count
  count-le_mem p q [] h = omega arith
  count-le_mem p q (x ∷ xs) h =
      let rest : (a : ID) → contains xs a ≡ true → p a ≡ true → q a ≡ true =
        λ a m b. ground (arith, h a) in
      ground (arith, count-le_mem p q xs rest, h x, o.cmp_self x)

pub count-disjoint {ℓ} :
    {A : Type ℓ} (p q r : A → Bool) (xs : List A)
    → ((a : A) → p a ≡ true → r a ≡ true)
    → ((a : A) → q a ≡ true → r a ≡ true)
    → ((a : A) → p a ≡ true → q a ≡ false)
    → count p xs + count q xs ≤ count r xs
unfolding count
count-disjoint p q r [] h k l = omega arith
count-disjoint p q r (x ∷ xs) h k l = ground (arith, count-disjoint p q r xs h k l, h x, k x, l x)

pub length-filter {ℓ} :
    {A : Type ℓ} (p : A → Bool) (xs : List A) → length (filter p xs) ≡ count p xs
unfolding filter count
length-filter p [] = refl
length-filter p (x ∷ xs) = ground (arith, length-filter p xs)

length-count {ℓ} : {A : Type ℓ} (xs : List A) → length xs ≡ count (λ _. true) xs
unfolding count
length-count [] = refl
length-count (x ∷ xs) = ap suc (length-count xs)

module _ {ID : Type 0} ⦃o : Ord ID⦄ where
  pub contains-take :
      (n : ℕ) (xs : List ID) (a : ID) → contains (take n xs) a ≡ true → contains xs a ≡ true
  unfolding contains
  contains-take zero xs a h = cc
  contains-take (suc n) [] a h = cc
  contains-take (suc n) (x ∷ xs) a h = ground (arith, contains-take n xs a)

  pub contains-drop :
      (n : ℕ) (xs : List ID) (a : ID) → contains (drop n xs) a ≡ true → contains xs a ≡ true
  unfolding contains
  contains-drop zero xs a h = h
  contains-drop (suc n) [] a h = cc
  contains-drop (suc n) (x ∷ xs) a h = ground (arith, contains-drop n xs a)

  pub contains-take-drop :
      (n : ℕ) (xs : List ID) (a : ID)
      → IsDistinct xs
      → contains (take n xs) a ≡ true
      → contains (drop n xs) a ≡ false
  unfolding contains
  contains-take-drop zero xs a d h = cc
  contains-take-drop (suc n) [] a d h = cc
  contains-take-drop (suc n) (x ∷ xs) a d h =
      ground (arith, contains-take-drop n xs a, contains-drop n xs a, o.cmp_eq x a)

  pub take-IsDistinct : (n : ℕ) (xs : List ID) → IsDistinct xs → IsDistinct (take n xs)
  take-IsDistinct zero xs d = tt
  take-IsDistinct (suc n) [] d = tt
  take-IsDistinct (suc n) (x ∷ xs) d = ground (arith, take-IsDistinct n xs, contains-take n xs x)

  pub drop-IsDistinct : (n : ℕ) (xs : List ID) → IsDistinct xs → IsDistinct (drop n xs)
  drop-IsDistinct zero xs d = d
  drop-IsDistinct (suc n) [] d = tt
  drop-IsDistinct (suc n) (x ∷ xs) d = drop-IsDistinct n xs d.1

  pub append-IsDistinct :
      (xs ys : List ID)
      → IsDistinct xs
      → IsDistinct ys
      → ((a : ID) → contains xs a ≡ true → contains ys a ≡ false)
      → IsDistinct (xs ++ ys)
  unfolding contains
  append-IsDistinct [] ys d e h = e
  append-IsDistinct (x ∷ xs) ys d e h =
      let rest : (a : ID) → contains xs a ≡ true → contains ys a ≡ false =
        λ a m. ground (arith, h a) in
      ground (arith, append-IsDistinct xs ys d.1 e rest, contains-append xs ys x, h x, o.cmp_self x)

  pub shares_of :
      (xs ys : List ID)
      → shares xs ys ≡ true
      → (a : ID) × (contains xs a ≡ true) × (contains ys a ≡ true)
  unfolding shares contains
  shares_of [] ys h = cc
  shares_of (x ∷ xs) ys h = elim (Bool-cases (contains ys x)) [
    | inl e ↦ (x, ground (arith, o.cmp_self x), e)
    | inr e ↦ let t = shares_of xs ys (ground arith) in (t.0, ground (arith, t.1), t.2)
  ]

  -- the size of a set of distinct ids that are all in another
  pub length-le-count :
      (xs ys : List ID) → IsDistinct xs → IsWithin xs ys → length xs ≤ count (contains xs) ys
  length-le-count xs ys d h = omega (
    arith,
    length-count xs,
    count-le_mem (λ _. true) (contains xs) xs (λ a m _. m),
    count-within (contains xs) xs ys d (λ a m _. h a m),
  )
