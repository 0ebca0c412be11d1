-- ===== src/IoState/Ids.antt =====
-- openraft/src/raft_state/io_state/{io_id,log_io_id}.rs and vote/committed.rs: what an IO of the
-- log store has written, and its order: by the vote, then by the last log id.
use openraft.Prelude.{true, false, Option, none, some, Ordering, lt, eq, gt, arith}
use openraft.Prelude.Ord.{Ord, cmp_option, cmp_option-IsTotal, IsTotal}
use openraft.LogId.{LogId, cmp_log_id, log_id_ord}
use openraft.Vote.LeaderId.{RaftLeaderId}
use openraft.Vote.{Vote, partial_cmp, ge, new, new_committed}
use openraft.Vote.Order.{partial_cmp_refl, partial_cmp-flip, ge_trans}
use openraft.IoState.PartialOrd.{PartialOrd, IsPartialOrder}

-- `CommittedVote<LID>`: its `committed` is always true
pub record CommittedVote (LID : Type 0) : Type 0 where
  pub leader_id : LID

pub record LogIoId (LID CLID : Type 0) : Type 0 where
  pub committed_vote : CommittedVote LID
  pub log_id : Option (LogId CLID)

-- `Vote` holds an `UncommittedVote`, which is its leader id
pub data IoId (LID CLID : Type 0) : Type 0 where
  vote_io : LID → IoId LID CLID
  log_io : LogIoId LID CLID → IoId LID CLID

module _ {LID CLID : Type 0} where
  -- `IOId::new`, by `Vote::is_committed`
  unfoldable pub io_id_of_vote : Vote LID → IoId LID CLID
  io_id_of_vote vote = elim vote.committed [
    | true ↦
        log_io (record { committed_vote = record { leader_id = vote.leader_id }; log_id = none })
    | false ↦ vote_io vote.leader_id
  ]

  unfoldable pub to_committed_vote : IoId LID CLID → Option (CommittedVote LID)
  to_committed_vote (vote_io leader_id) = none
  to_committed_vote (log_io io) = some io.committed_vote

  unfoldable pub last_log_id : IoId LID CLID → Option (LogId CLID)
  last_log_id (vote_io leader_id) = none
  last_log_id (log_io io) = io.log_id

-- The vote first; equal votes leave it to the last log ids.
unfoldable pub then_log_id : Option Ordering → Ordering → Option Ordering
then_log_id none log = none
then_log_id (some lt) log = some lt
then_log_id (some eq) log = some log
then_log_id (some gt) log = some gt

-- A partial order that a total one refines on equal elements is a partial order.
then_log_id-IsPartialOrder :
    {A B : Type 0} (p : A → A → Option Ordering) (q : B → B → Ordering)
    → IsPartialOrder A p
    → IsTotal B q
    → IsPartialOrder (A × B) (λ x y. then_log_id (p x.0 y.0) (q x.1 y.1))
unfolding then_log_id
then_log_id-IsPartialOrder p q s t = record {
  cmp_refl = λ x. ground (arith, s.cmp_refl x.0, t.cmp_self x.1);
  cmp_flip = λ x y. ground (arith, s.cmp_flip x.0 y.0, t.cmp_swap x.1 y.1);
  le_trans = λ x y z h k. ground (
    arith,
    s.cmp_flip x.0 y.0,
    s.cmp_flip y.0 z.0,
    s.cmp_flip x.0 z.0,
    s.le_trans x.0 y.0 z.0,
    s.le_trans z.0 y.0 x.0,
    s.le_trans y.0 z.0 x.0,
    s.le_trans z.0 x.0 y.0,
    t.cmp_eq x.1 y.1,
    t.cmp_eq y.1 z.1,
    t.cmp_lt x.1 y.1 z.1,
  );
}

-- the partial order that a function pulls back
pull :
    {A B : Type 0} (p : B → B → Option Ordering) (f : A → B)
    → IsPartialOrder B p
    → IsPartialOrder A (λ x y. p (f x) (f y))
pull p f s = record {
  cmp_refl = λ x. s.cmp_refl (f x);
  cmp_flip = λ x y. s.cmp_flip (f x) (f y);
  le_trans = λ x y z. s.le_trans (f x) (f y) (f z);
}

Vote-IsPartialOrder : {LID : Type 0} ⦃l : RaftLeaderId LID⦄ → IsPartialOrder (Vote LID) partial_cmp
unfolding ge
Vote-IsPartialOrder = record {
  cmp_refl = partial_cmp_refl;
  cmp_flip = partial_cmp-flip;
  le_trans = λ a b c h k.
      ground
        (arith, ge_trans c b a, partial_cmp-flip a b, partial_cmp-flip b c, partial_cmp-flip a c);
}

LeaderId-IsPartialOrder : {LID : Type 0} ⦃l : RaftLeaderId LID⦄ → IsPartialOrder LID l.partial_cmp
LeaderId-IsPartialOrder ⦃l⦄ = record {
  cmp_refl = l.cmp_refl;
  cmp_flip = l.cmp_flip;
  le_trans = λ a b c h k. ground (arith, l.eq_of_cmp a b, l.eq_of_cmp b c, l.lt_trans a b c);
}

pub log_ids-IsTotal :
    {CLID : Type 0} ⦃o : Ord CLID⦄ → IsTotal (Option (LogId CLID)) (cmp_option cmp_log_id)
unfolding log_id_ord
log_ids-IsTotal ⦃o⦄ = cmp_option-IsTotal ⦃o = log_id_ord ⦃o = o⦄⦄

module _ {LID CLID : Type 0} ⦃l : RaftLeaderId LID⦄ ⦃o : Ord CLID⦄ where
  unfoldable pub as_ref_vote : IoId LID CLID → Vote LID
  unfolding new new_committed
  as_ref_vote (vote_io leader_id) = new leader_id
  as_ref_vote (log_io io) = new_committed io.committed_vote.leader_id

  unfoldable pub partial_cmp_io : IoId LID CLID → IoId LID CLID → Option Ordering
  unfolding as_ref_vote last_log_id then_log_id
  partial_cmp_io a b =
      then_log_id (partial_cmp (as_ref_vote a) (as_ref_vote b))
        (cmp_option cmp_log_id (last_log_id a) (last_log_id b))

  -- `derive(PartialOrd)` of `LogIOId` over that of `CommittedVote`: the leader id, then the log id
  unfoldable pub partial_cmp_log_io : LogIoId LID CLID → LogIoId LID CLID → Option Ordering
  unfolding then_log_id
  partial_cmp_log_io a b =
      then_log_id (l.partial_cmp a.committed_vote.leader_id b.committed_vote.leader_id)
        (cmp_option cmp_log_id a.log_id b.log_id)

  -- The order of `IOId` is a partial order: dual, and transitive.
  pub partial_cmp_io-IsPartialOrder : IsPartialOrder (IoId LID CLID) partial_cmp_io
  unfolding partial_cmp_io
  partial_cmp_io-IsPartialOrder =
      pull (λ x y. then_log_id (partial_cmp x.0 y.0) (cmp_option cmp_log_id x.1 y.1))
        (λ a. (as_ref_vote a, last_log_id a))
        (then_log_id-IsPartialOrder partial_cmp (cmp_option cmp_log_id) Vote-IsPartialOrder
          log_ids-IsTotal)

  pub LogIoId-IsPartialOrder : IsPartialOrder (LogIoId LID CLID) partial_cmp_log_io
  unfolding partial_cmp_log_io
  LogIoId-IsPartialOrder =
      pull (λ x y. then_log_id (l.partial_cmp x.0 y.0) (cmp_option cmp_log_id x.1 y.1))
        (λ a. (a.committed_vote.leader_id, a.log_id))
        (then_log_id-IsPartialOrder l.partial_cmp (cmp_option cmp_log_id) LeaderId-IsPartialOrder
          log_ids-IsTotal)

  instance abbrev pub io_id_order : PartialOrd (IoId LID CLID)
  io_id_order = record { partial_cmp = partial_cmp_io; order = partial_cmp_io-IsPartialOrder }

  instance abbrev pub log_io_id_order : PartialOrd (LogIoId LID CLID)
  log_io_id_order = record { partial_cmp = partial_cmp_log_io; order = LogIoId-IsPartialOrder }
