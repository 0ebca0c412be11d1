-- ===== src/Vote/LeaderId.antt =====
-- openraft/src/vote/leader_id: the trait `RaftLeaderId` as an interface, and its two
-- implementations, `leader_id_std` (at most one leader in a term) and `leader_id_adv` (several).
-- `Term` and `NodeId` are read as unsigned integers without a bound.
use openraft.Prelude.{
  ℕ, ◌≤◌, ◌≡◌, Option, none, some, Ordering, lt, eq, gt, arith, compare, ◌==◌, if◌then◌else◌,
}
use openraft.Prelude.Ord.{then_cmp}

abbrev pub reverse : Option Ordering → Option Ordering
reverse none = none
reverse (some lt) = some gt
reverse (some eq) = some eq
reverse (some gt) = some lt

-- What the trait's documentation asks of the partial order: ids that are not comparable have one
-- term and different nodes, and compare alike with every third id.
pub record IsLeaderOrder {LID : Type 0} (term : LID → ℕ) (partial_cmp : LID → LID → Option Ordering)
    : Type 0 where
  pub cmp_refl : (a : LID) → partial_cmp a a ≡ some eq
  pub eq_of_cmp : (a b : LID) → partial_cmp a b ≡ some eq → a ≡ b
  pub cmp_flip : (a b : LID) → partial_cmp b a ≡ reverse (partial_cmp a b)
  pub lt_trans :
      (a b c : LID)
      → partial_cmp a b ≡ some lt
      → partial_cmp b c ≡ some lt
      → partial_cmp a c ≡ some lt
  pub incomparable_lt :
      (a b c : LID) → partial_cmp a b ≡ none → partial_cmp b c ≡ some lt → partial_cmp a c ≡ some lt
  pub lt_incomparable :
      (a b c : LID) → partial_cmp a b ≡ some lt → partial_cmp b c ≡ none → partial_cmp a c ≡ some lt
  pub incomparable_term : (a b : LID) → partial_cmp a b ≡ none → term a ≡ term b
  pub lt_term : (a b : LID) → partial_cmp a b ≡ some lt → term a ≤ term b

pub record RaftLeaderId (LID : Type 0) : Type 0 where
  pub term : LID → ℕ
  pub node_id : LID → ℕ
  pub partial_cmp : LID → LID → Option Ordering
  pub order : IsLeaderOrder term partial_cmp
  pub open order use *

-- `leader_id_std::LeaderId` names its node `voted_for`, `leader_id_adv::LeaderId` names it `node_id`.
pub record Std : Type 0 where
  pub term : ℕ
  pub voted_for : ℕ

pub record Adv : Type 0 where
  pub term : ℕ
  pub node_id : ℕ

-- `LeaderIdCompare::std`
std_tie : Ordering → ℕ → ℕ → Option Ordering
std_tie eq n m = if n == m then some eq else none
std_tie lt n m = some lt
std_tie gt n m = some gt

unfoldable pub compare_std : Std → Std → Option Ordering
unfolding std_tie
compare_std a b = std_tie (compare a.term b.term) a.voted_for b.voted_for

-- `LeaderIdCompare::adv`: the pairs `(term, node_id)` in lexicographic order
unfoldable pub compare_adv : Adv → Adv → Option Ordering
compare_adv a b = some (then_cmp (compare a.term b.term) (compare a.node_id b.node_id))

pub Std-IsLeaderOrder : IsLeaderOrder (λ a. a.term) compare_std
unfolding compare_std
Std-IsLeaderOrder = record {
  cmp_refl = λ a. ground arith;
  eq_of_cmp = λ a b. ground arith;
  cmp_flip = λ a b. ground arith;
  lt_trans = λ a b c. ground arith;
  incomparable_lt = λ a b c. ground arith;
  lt_incomparable = λ a b c. ground arith;
  incomparable_term = λ a b. ground arith;
  lt_term = λ a b. ground arith;
}

pub Adv-IsLeaderOrder : IsLeaderOrder (λ a. a.term) compare_adv
unfolding compare_adv
Adv-IsLeaderOrder = record {
  cmp_refl = λ a. ground arith;
  eq_of_cmp = λ a b. ground arith;
  cmp_flip = λ a b. ground arith;
  lt_trans = λ a b c. ground arith;
  incomparable_lt = λ a b c. ground arith;
  lt_incomparable = λ a b c. ground arith;
  incomparable_term = λ a b. ground arith;
  lt_term = λ a b. ground arith;
}

instance unfoldable pub std_leader_id : RaftLeaderId Std
std_leader_id = record {
  term = λ a. a.term;
  node_id = λ a. a.voted_for;
  partial_cmp = compare_std;
  order = Std-IsLeaderOrder;
}

instance unfoldable pub adv_leader_id : RaftLeaderId Adv
adv_leader_id = record {
  term = λ a. a.term;
  node_id = λ a. a.node_id;
  partial_cmp = compare_adv;
  order = Adv-IsLeaderOrder;
}
