-- ===== src/Following/Holding.antt =====
-- openraft/src/engine/handler/following_handler/mod.rs: what a request asks of the log before its
-- entries are appended.
use openraft.Prelude.{
  ℕ, suc, ◌≤◌, ◌<◌, ◌≡◌, ap, sym, refl, true, false, Option, none, some, List, [], ◌∷◌, arith, inl,
  inr, All, Bool-cases, ltb,
}
use openraft.Prelude.Ord.{Ord}
use openraft.LogId.{LogId, next_index, cmp_log_id-IsTotal}
use openraft.LogIdList.{LogIdList, last, get, first_index}
use openraft.LogIdList.Valid.{IsValid}
use openraft.LogIdList.Last.{last-get, last-none}
use openraft.IoState.Ids.{io_id_order}
use openraft.RaftState.{RaftState, local_committed, has_log_id, has_local}

-- A log id that is committed here, and not before the end of the purged logs, is in the log.
abbrev pub Agrees : {LID CLID Mem : Type 0} → RaftState LID CLID Mem → LogId CLID → Type 0
Agrees s x =
    x.index < next_index (local_committed s)
    → first_index s.log_ids ≤ suc x.index
    → get s.log_ids x.index ≡ some x

-- what a request asks of the log before its entries: nothing, or that the previous log id is in it
abbrev pub Holds : {LID CLID Mem : Type 0} → RaftState LID CLID Mem → Option (LogId CLID) → Type 0
Holds s none = Unit
Holds s (some x) = first_index s.log_ids ≤ suc x.index → get s.log_ids x.index ≡ some x

pub has_local_eq :
    {CLID : Type 0} ⦃o : Ord CLID⦄ (x : LogId CLID) (local : Option (LogId CLID))
    → has_local x local ≡ true
    → local ≡ some x
unfolding has_local
has_local_eq x none h = cc
has_local_eq x (some y) h = ap some (sym (cmp_log_id-IsTotal.cmp_eq x y (ground arith)))

pub last-Holds :
    {CLID : Type 0} ⦃o : Ord CLID⦄ (l : LogIdList CLID) (p : Option (LogId CLID))
    → IsValid l
    → first_index l ≤ next_index p
    → ((x : LogId CLID) → p ≡ some x → get l x.index ≡ some x)
    → get l (next_index p) ≡ none
    → last l ≡ p
last-Holds l none v f h n = last-none l v f n
last-Holds l (some x) v f h n = last-get l x v (h x refl) n

pub get-All :
    {CLID : Type 0} (l : LogIdList CLID) (start : ℕ) (xs : List (LogId CLID))
    → All (λ x. get l x.index ≡ some x) xs
    → All (λ x. start ≤ suc x.index → get l x.index ≡ some x) xs
get-All l start [] h = tt
get-All l start (x ∷ xs) h = (λ above. h.0, get-All l start xs h.1)

module _ {LID CLID Mem : Type 0} ⦃o : Ord CLID⦄ where
  -- A log id that the state has is in its log, unless it is purged.
  pub has-Holds :
      (s : RaftState LID CLID Mem) (x : LogId CLID)
      → Agrees s x
      → has_log_id s x ≡ true
      → Holds s (some x)
  unfolding has_log_id get
  has-Holds s x a h f = elim (Bool-cases (ltb x.index (next_index (local_committed s)))) [
    | inl e ↦ a (ground arith) f
    | inr e ↦ has_local_eq x (get s.log_ids x.index) (ground arith)
  ]

  pub Holds-get :
      (s : RaftState LID CLID Mem) (p : Option (LogId CLID)) (x : LogId CLID)
      → Holds s p
      → first_index s.log_ids ≤ next_index p
      → p ≡ some x
      → get s.log_ids x.index ≡ some x
  Holds-get s none x h f e = cc
  Holds-get s (some y) x h f e = ground arith

  pub committed-below :
      (s : RaftState LID CLID Mem) (x : LogId CLID)
      → has_log_id s x ≡ false
      → next_index (local_committed s) ≤ x.index
  unfolding has_log_id
  committed-below s x h = ground arith
