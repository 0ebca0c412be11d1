-- ===== src/LogId.antt =====
-- openraft/src/log_id: log ids, their order, and the extension traits of `Option<LogId>`.
-- `RefLogId` borrows the leader id of a `LogId`; borrowing leaves no trace, so it is the same
-- record here. An index is an unsigned integer without a bound.
use openraft.Prelude.{ℕ, suc, Option, none, some, Ordering, arith, compare}
use openraft.Prelude.Ord.{Ord, IsTotal, then_cmp}

pub record LogId (CLID : Type 0) : Type 0 where
  pub leader_id : CLID
  pub index : ℕ

module _ {CLID : Type 0} where
  -- `Option<LogId>::next_index`
  abbrev pub next_index : Option (LogId CLID) → ℕ
  next_index none = 0
  next_index (some log_id) = suc log_id.index

module _ {CLID : Type 0} ⦃o : Ord CLID⦄ where
  -- `derive(Ord)`: the fields in the order of their declaration
  unfoldable pub cmp_log_id : LogId CLID → LogId CLID → Ordering
  cmp_log_id a b = then_cmp (o.cmp a.leader_id b.leader_id) (compare a.index b.index)

  pub cmp_log_id-IsTotal : IsTotal (LogId CLID) cmp_log_id
  unfolding cmp_log_id
  cmp_log_id-IsTotal = record {
    cmp_swap = λ a b. ground (arith, o.cmp_swap a.leader_id b.leader_id);
    cmp_self = λ a. ground (arith, o.cmp_self a.leader_id);
    cmp_eq = λ a b. ground (arith, o.cmp_eq a.leader_id b.leader_id);
    cmp_lt = λ a b c. ground (
      arith,
      o.cmp_eq a.leader_id b.leader_id,
      o.cmp_eq b.leader_id c.leader_id,
      o.cmp_lt a.leader_id b.leader_id c.leader_id,
    );
  }

  instance unfoldable pub log_id_ord : Ord (LogId CLID)
  log_id_ord = record { cmp = cmp_log_id; total = cmp_log_id-IsTotal }
