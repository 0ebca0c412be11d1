-- ===== src/Vote.antt =====
-- openraft/src/vote: votes over leader ids. `Vote<LID>` and the borrowed `RefVote` are one record
-- here (borrowing leaves no trace); `partial_cmp` is the order that both implement.
pub mod LeaderId
pub mod Order
mod Tests
use openraft.Prelude.{Bool, true, false, Option, none, some, Ordering, lt, eq, gt}
use openraft.Vote.LeaderId.{RaftLeaderId}

pub record Vote (LID : Type 0) : Type 0 where
  pub leader_id : LID
  pub committed : Bool

-- `bool::partial_cmp`: false is less than true
unfoldable pub cmp_bool : Bool → Bool → Ordering
cmp_bool false false = eq
cmp_bool false true = lt
cmp_bool true false = gt
cmp_bool true true = eq

-- the match on `(self.committed, other.committed)` for incomparable leader ids
unfoldable pub cmp_incomparable : Bool → Bool → Option Ordering
cmp_incomparable false false = none
cmp_incomparable true false = some gt
cmp_incomparable false true = some lt
cmp_incomparable true true = none

-- the match on the order of the two leader ids
unfoldable pub cmp_committed : Option Ordering → Bool → Bool → Option Ordering
unfolding cmp_bool cmp_incomparable
cmp_committed (some eq) a b = some (cmp_bool a b)
cmp_committed none a b = cmp_incomparable a b
cmp_committed (some lt) a b = some lt
cmp_committed (some gt) a b = some gt

-- `a >= b`, `a > b` and `a <= b` of a type with `PartialOrd`: false on incomparable values
abbrev pub is_ge : Option Ordering → Bool
is_ge none = false
is_ge (some lt) = false
is_ge (some eq) = true
is_ge (some gt) = true

abbrev pub is_gt : Option Ordering → Bool
is_gt none = false
is_gt (some lt) = false
is_gt (some eq) = false
is_gt (some gt) = true

abbrev pub is_le : Option Ordering → Bool
is_le none = false
is_le (some lt) = true
is_le (some eq) = true
is_le (some gt) = false

module _ {LID : Type 0} ⦃l : RaftLeaderId LID⦄ where
  unfoldable pub partial_cmp : Vote LID → Vote LID → Option Ordering
  unfolding cmp_committed
  partial_cmp a b = cmp_committed (l.partial_cmp a.leader_id b.leader_id) a.committed b.committed

  unfoldable pub ge : Vote LID → Vote LID → Bool
  unfolding partial_cmp
  ge a b = is_ge (partial_cmp a b)

  -- `Vote::new` and `Vote::new_committed`, over the leader id that `LID::new` builds
  unfoldable pub new : LID → Vote LID
  new leader_id = record { leader_id = leader_id; committed = false }

  unfoldable pub new_committed : LID → Vote LID
  new_committed leader_id = record { leader_id = leader_id; committed = true }
