-- ===== src/Quorum/Joint.antt =====
-- membership/src/quorum/joint.rs: rules that apply together. A joint of rules is a rule itself,
-- and its intersection check rests on that of its parts.
use openraft.Prelude.{
  ◌≡◌, refl, Bool, true, false, Option, none, some, List, [], ◌∷◌, ◌++◌, ◌&&◌, ◌||◌, not,
  if◌then◌else◌, arith, All,
}
use openraft.Prelude.Ord.{Ord}
use openraft.Quorum.{QuorumSet, QuorumIntersection, shares, IsWithin}

pub record Joint (Q : Type 0) : Type 0 where
  pub parts : List Q

unfoldable pub is_empty : {Q : Type 0} → List Q → Bool
is_empty [] = true
is_empty (q ∷ qs) = false

module _ {Q : Type 0} where
  unfoldable pub joint_with : Joint Q → Joint Q → Joint Q
  unfolding is_empty
  joint_with j k =
      if is_empty j.parts
      then record { parts = [] }
      else if is_empty k.parts
      then record { parts = [] }
      else record { parts = j.parts ++ k.parts }

module _ {Q ID : Type 0} ⦃o : Ord ID⦄ ⦃s : QuorumSet Q ID⦄ where
  -- the `for` loop over the rules
  unfoldable pub all_accept : List Q → List ID → Bool
  all_accept [] ids = true
  all_accept (q ∷ qs) ids = if not (s.is_quorum q ids) then false else all_accept qs ids

  unfoldable pub is_quorum : Joint Q → List ID → Bool
  unfolding all_accept is_empty
  is_quorum j ids = if is_empty j.parts then false else all_accept j.parts ids

  all_accept-append :
      (ps qs : List Q) (ids : List ID)
      → all_accept (ps ++ qs) ids ≡ (all_accept ps ids && all_accept qs ids)
  unfolding all_accept
  all_accept-append [] qs ids = refl
  all_accept-append (p ∷ ps) qs ids = ground (arith, all_accept-append ps qs ids)

  -- A joint of two joints accepts exactly the id sets that both of them accept.
  pub is_quorum-joint_with :
      (j k : Joint Q) (ids : List ID)
      → is_quorum (joint_with j k) ids ≡ (is_quorum j ids && is_quorum k ids)
  is_quorum-joint_with j k ids = split j.parts k.parts
    where
      split :
          (ps qs : List Q)
          → is_quorum (joint_with (record { parts = ps }) (record { parts = qs })) ids
            ≡ (is_quorum (record { parts = ps }) ids && is_quorum (record { parts = qs }) ids)
      split [] qs = unfold is_quorum joint_with in refl
      split (p ∷ ps) [] = unfold is_quorum joint_with in ground arith
      split (p ∷ ps) (q ∷ qs) =
          unfold is_quorum joint_with in ground (arith, all_accept-append ps (q ∷ qs) ids)

  all_accept_mono :
      (qs : List Q) (xs ys : List ID)
      → IsWithin xs ys
      → all_accept qs xs ≡ true
      → all_accept qs ys ≡ true
  unfolding all_accept
  all_accept_mono [] xs ys w h = refl
  all_accept_mono (q ∷ qs) xs ys w h =
      ground (arith, all_accept_mono qs xs ys w, s.is_quorum_mono q xs ys w)

  pub is_quorum_mono :
      (j : Joint Q) (xs ys : List ID)
      → IsWithin xs ys
      → is_quorum j xs ≡ true
      → is_quorum j ys ≡ true
  unfolding is_quorum
  is_quorum_mono j xs ys w h = ground (arith, all_accept_mono j.parts xs ys w)

module _ {Q : Type 0} (ID : Type 0) ⦃o : Ord ID⦄ ⦃s : QuorumSet Q ID⦄ where
  parts_nil : (qs : List Q) → is_quorum {ID = ID} (record { parts = qs }) [] ≡ false
  unfolding is_quorum
  parts_nil [] = refl
  parts_nil (q ∷ qs) = ground (arith, s.is_quorum-nil q)

  pub is_quorum-nil : (j : Joint Q) → is_quorum {ID = ID} j [] ≡ false
  is_quorum-nil j = parts_nil j.parts

module _ {Q ID : Type 0} ⦃o : Ord ID⦄ ⦃s : QuorumSet Q ID⦄ where
  instance abbrev pub joint_quorum_set : QuorumSet (Joint Q) ID
  joint_quorum_set = record {
    is_quorum = is_quorum;
    is_quorum-nil = is_quorum-nil ID;
    is_quorum_mono = is_quorum_mono;
  }

-- `intersects == Some(true)`
abbrev pub is_some_true : Option Bool → Bool
is_some_true (some true) = true
is_some_true (some false) = false
is_some_true none = false

-- The check of two parts is that of their type.
module _ {Q : Type 0} (part_intersects : Q → Q → Option Bool) where
  -- the inner and the outer `for` loop of `intersects_with`
  unfoldable pub meets_some : Q → List Q → Bool
  meets_some a [] = false
  meets_some a (b ∷ bs) = if is_some_true (part_intersects a b) then true else meets_some a bs

  unfoldable pub some_meet : List Q → List Q → Bool
  unfolding meets_some
  some_meet [] bs = false
  some_meet (a ∷ rest) bs = if meets_some a bs then true else some_meet rest bs

  -- `len() == 1` on both sides is the case of one rule each.
  unfoldable pub joint_intersects : List Q → List Q → Option Bool
  unfolding some_meet
  joint_intersects [] bs = some true
  joint_intersects (a ∷ rest) [] = some true
  joint_intersects (a ∷ []) (b ∷ []) = part_intersects a b
  joint_intersects (a ∷ []) (b ∷ c ∷ bs) =
      if some_meet (a ∷ []) (b ∷ c ∷ bs) then some true else none
  joint_intersects (a ∷ d ∷ rest) (b ∷ bs) =
      if some_meet (a ∷ d ∷ rest) (b ∷ bs) then some true else none

  unfoldable pub intersects_with : Joint Q → Joint Q → Option Bool
  unfolding joint_intersects
  intersects_with j k = joint_intersects j.parts k.parts

module _ {Q ID : Type 0} {Valid : Q → Type 0} ⦃o : Ord ID⦄ ⦃s : QuorumSet Q ID⦄
    (t : QuorumIntersection Q ID Valid) where
  meets_some_sound :
      (a : Q) (bs : List Q) (xs ys : List ID)
      → Valid a
      → All Valid bs
      → meets_some t.intersects_with a bs ≡ true
      → s.is_quorum a xs ≡ true
      → all_accept bs ys ≡ true
      → shares xs ys ≡ true
  unfolding meets_some all_accept
  meets_some_sound a [] xs ys v w h k l = cc
  meets_some_sound a (b ∷ bs) xs ys v w h k l =
      ground (arith, meets_some_sound a bs xs ys, t.shares_of_intersects a b xs ys)

  some_meet_sound :
      (as' bs : List Q) (xs ys : List ID)
      → All Valid as'
      → All Valid bs
      → some_meet t.intersects_with as' bs ≡ true
      → all_accept as' xs ≡ true
      → all_accept bs ys ≡ true
      → shares xs ys ≡ true
  unfolding some_meet all_accept
  some_meet_sound [] bs xs ys v w h k l = cc
  some_meet_sound (a ∷ rest) bs xs ys v w h k l =
      ground (arith, meets_some_sound a bs xs ys, some_meet_sound rest bs xs ys)

  parts_intersect_sound :
      (as' bs : List Q) (xs ys : List ID)
      → All Valid as'
      → All Valid bs
      → joint_intersects t.intersects_with as' bs ≡ some true
      → is_quorum (record { parts = as' }) xs ≡ true
      → is_quorum (record { parts = bs }) ys ≡ true
      → shares xs ys ≡ true
  unfolding joint_intersects is_quorum
  parts_intersect_sound [] bs xs ys v w h k l = cc
  parts_intersect_sound (a ∷ rest) [] xs ys v w h k l = cc
  parts_intersect_sound (a ∷ []) (b ∷ []) xs ys v w h k l =
      ground (arith, t.shares_of_intersects a b xs ys)
  parts_intersect_sound (a ∷ []) (b ∷ c ∷ bs) xs ys v w h k l =
      ground (arith, some_meet_sound (a ∷ []) (b ∷ c ∷ bs) xs ys)
  parts_intersect_sound (a ∷ d ∷ rest) (b ∷ bs) xs ys v w h k l =
      ground (arith, some_meet_sound (a ∷ d ∷ rest) (b ∷ bs) xs ys)

  -- If the check says that two joints intersect, any two of their quorums share an id, provided
  -- that this holds of the check of their parts.
  pub joint_intersects_sound :
      (j k : Joint Q) (xs ys : List ID)
      → All Valid j.parts
      → All Valid k.parts
      → intersects_with t.intersects_with j k ≡ some true
      → is_quorum j xs ≡ true
      → is_quorum k ys ≡ true
      → shares xs ys ≡ true
  unfolding intersects_with
  joint_intersects_sound j k xs ys = parts_intersect_sound j.parts k.parts xs ys

  -- During a change of rule from `old` to `new`, a quorum of the joint shares an id with every
  -- quorum of `old`, and with every quorum of `new`, if each of these rules intersects itself.
  change-shares :
      (old new : Joint Q) (xs ys : List ID)
      → All Valid old.parts
      → All Valid new.parts
      → intersects_with t.intersects_with old old ≡ some true
      → intersects_with t.intersects_with new new ≡ some true
      → is_quorum (joint_with old new) xs ≡ true
      → (is_quorum old ys || is_quorum new ys) ≡ true
      → shares xs ys ≡ true
  change-shares old new xs ys v w h k l m = ground (
    arith,
    is_quorum-joint_with old new xs,
    joint_intersects_sound old old xs ys,
    joint_intersects_sound new new xs ys,
  )
