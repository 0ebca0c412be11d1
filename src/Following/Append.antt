-- ===== src/Following/Append.antt =====
-- openraft/src/engine/handler/following_handler/mod.rs: the log after entries are
-- appended.
use openraft.Prelude.{
  ℕ, ◌<◌, ◌≡◌, ◌∙◌, refl, Option, some, List, [], ◌∷◌, map, arith, lt, All, if◌then◌else◌, ◌==◌,
}
use openraft.Prelude.Ord.{Ord, cmp_option}
use openraft.LogId.{LogId, next_index, cmp_log_id}
use openraft.LogIdList.{LogIdList, last, get, append, extend}
use openraft.LogIdList.Valid.{IsValid, append-IsValid}
use openraft.LogIdList.View.{get-append}
use openraft.LogIdList.Last.{last-append}
use openraft.Vote.LeaderId.{RaftLeaderId}
use openraft.Membership.{RaftMembership}
use openraft.MembershipState.{StoredMembership}
use openraft.MembershipState.Recent.{Entry, entry_log_id, last_two_memberships, append_each}
use openraft.RaftState.{extend_log_ids}
use openraft.RaftState.Server.{update_server_state_if_changed_lem}
use openraft.Following.{Following, do_append_entries, append_membership, update_server_state}

module _ {CLID : Type 0} ⦃o : Ord CLID⦄ where
  -- log ids that follow one another, from a last one on: indexes without a gap, and greater log ids
  abbrev pub Follows : Option (LogId CLID) → List (LogId CLID) → Type 0
  Follows p [] = Unit
  Follows p (x ∷ xs) =
      (x.index ≡ next_index p) × (cmp_option cmp_log_id p (some x) ≡ lt) × Follows (some x) xs

  -- what extending a log with log ids that follow it does
  pub record Extends (l l' : LogIdList CLID) (xs : List (LogId CLID)) : Type 0 where
    pub valid : IsValid l'
    pub before : (i : ℕ) → i < next_index (last l) → get l' i ≡ get l i
    pub at_new : All (λ x. get l' x.index ≡ some x) xs

  Extends-append :
      (l l' : LogIdList CLID) (x : LogId CLID) (xs : List (LogId CLID))
      → IsValid l
      → x.index ≡ next_index (last l)
      → Extends (append l x) l' xs
      → Extends l l' (x ∷ xs)
  Extends-append l l' x xs v e rest = record {
    valid = rest.valid;
    before = λ i below.
        rest.before i (rw end (ground arith)) ∙ get-append l x i v e ∙ unchanged i (ground arith);
    at_new = (
      rest.before x.index (rw end (ground arith)) ∙ get-append l x x.index v e ∙ here,
      rest.at_new,
    );
  }
    where
      end : last (append l x) ≡ some x
      end = last-append l x

      unchanged : (i : ℕ) → i < x.index → (if i == x.index then some x else get l i) ≡ get l i
      unchanged i below = ground arith

      here : (if x.index == x.index then some x else get l x.index) ≡ some x
      here = ground arith

  -- Extending a log with log ids that follow its last one keeps it valid, keeps what it has, and
  -- adds each of them at its index.
  pub extend-Extends :
      (l : LogIdList CLID) (xs : List (LogId CLID))
      → IsValid l
      → Follows (last l) xs
      → Extends l (extend l xs) xs
  unfolding extend
  extend-Extends l [] v h = record { valid = v; before = λ i below. refl; at_new = tt }
  extend-Extends l (x ∷ xs) v h = Extends-append l (extend (append l x) xs) x xs v h.0 (
      extend-Extends (append l x) xs (append-IsValid l x v (ground arith) h.1)
        (rw (last-append l x) h.2))

module _ {LID CLID Mem : Type 0} ⦃l : RaftLeaderId LID⦄ ⦃m : RaftMembership Mem⦄ where
  pub log_ids-update_server_state :
      (h : Following LID CLID Mem) → (update_server_state h).state.log_ids ≡ h.state.log_ids
  unfolding update_server_state
  log_ids-update_server_state h = rw (update_server_state_if_changed_lem h.state h.id)

  log_ids-append_membership :
      (h : Following LID CLID Mem) (entries : List (Entry CLID Mem))
      → (append_membership h entries).state.log_ids ≡ h.state.log_ids
  unfolding append_membership
  log_ids-append_membership h entries = by_memberships (last_two_memberships entries) refl
    where
      by_memberships :
          (ms : List (StoredMembership CLID Mem))
          → last_two_memberships entries ≡ ms
          → (append_membership h entries).state.log_ids ≡ h.state.log_ids
      by_memberships [] e = rw (append_membership, e)
      by_memberships (x ∷ xs) e =
          rw (append_membership, e)
            (log_ids-update_server_state (record h {
              state = record h.state {
                membership_state = append_each h.state.membership_state (x ∷ xs);
              };
            }))

module _ {LID CLID Mem : Type 0} ⦃l : RaftLeaderId LID⦄ ⦃o : Ord CLID⦄
    ⦃m : RaftMembership Mem⦄ where
  -- Appending entries that follow the last log id keeps the log valid, keeps every log id that it
  -- has, and adds the log id of each entry at its index.
  pub do_append_entries-Extends :
      (h : Following LID CLID Mem) (entries : List (Entry CLID Mem))
      → IsValid h.state.log_ids
      → Follows (last h.state.log_ids) (map entry_log_id entries)
      → Extends h.state.log_ids
          (do_append_entries h entries).state.log_ids
          (map entry_log_id entries)
  unfolding do_append_entries extend_log_ids
  do_append_entries-Extends h entries v f =
      rw
        (log_ids-append_membership
          (record h { state = extend_log_ids h.state (map entry_log_id entries) }) entries)
        (extend-Extends h.state.log_ids (map entry_log_id entries) v f)
