-- ===== src/Following/Matching.antt =====
-- openraft/src/engine/handler/following_handler/mod.rs: the log after a request of the leader, whose
-- entries may be new, known already, or in conflict with the log.
use openraft.Following.Holding.{
  Agrees, Holds, last-Holds, get-All, Holds-get, has-Holds, committed-below,
}
use openraft.Prelude.{
  ℕ, suc, ◌≤◌, ◌<◌, ◌≡◌, ◌∙◌, sym, refl, false, Option, none, some, List, [], ◌∷◌, map, arith, inl,
  inr, All, Bool-cases, drop, get_elem?,
}
use openraft.Prelude.Ord.{Ord, cmp_option}
use openraft.LogId.{LogId, next_index, cmp_log_id}
use openraft.LogIdList.{LogIdList, last, get, first_index}
use openraft.LogIdList.Valid.{IsValid}
use openraft.Vote.LeaderId.{RaftLeaderId}
use openraft.IoState.Ids.{IoId, log_io, io_id_order}
use openraft.IoState.PartialOrd.{option_gt}
use openraft.IoState.Committed.{max_by}
use openraft.Membership.{RaftMembership}
use openraft.MembershipState.Recent.{Entry, entry_log_id}
use openraft.RaftState.{
  RaftState, local_committed, has_log_id, accept_log_io, first_conflicting_index,
}
use openraft.Following.{
  Following, append_entries, append_new, do_append_entries, truncate_logs, last_entry_id,
}
use openraft.Following.Append.{Follows, Extends, do_append_entries-Extends}
use openraft.Following.Truncate.{Truncates, truncate_logs-Truncates, purged-truncate_logs}

-- What a request does to the log that holds its previous log id `p`: the log stays valid, keeps what
-- it has up to that log id, and has every log id `xs` of the request, the purged ones apart.
pub record Matches {CLID : Type 0} ⦃o : Ord CLID⦄ (old new : LogIdList CLID)
    (p : Option (LogId CLID)) (xs : List (LogId CLID)) : Type 0 where
  pub valid : IsValid new
  pub before : (i : ℕ) → i < next_index p → get new i ≡ get old i
  pub at_entries : All (λ x. first_index old ≤ suc x.index → get new x.index ≡ some x) xs

-- a log id that the log holds already
Matches-cons :
    {CLID : Type 0} ⦃o : Ord CLID⦄ (old new : LogIdList CLID) (p : Option (LogId CLID))
    (x : LogId CLID) (xs : List (LogId CLID))
    → x.index ≡ next_index p
    → (first_index old ≤ suc x.index → get old x.index ≡ some x)
    → Matches old new (some x) xs
    → Matches old new p (x ∷ xs)
Matches-cons old new p x xs e g rest = record {
  valid = rest.valid;
  before = λ i below. rest.before i (ground arith);
  at_entries = (λ above. rest.before x.index (ground arith) ∙ g above, rest.at_entries);
}

module _ {LID CLID Mem : Type 0} ⦃l : RaftLeaderId LID⦄ ⦃o : Ord CLID⦄ where
  -- accepting log IO changes neither the log ids nor what is committed
  pub accept_log_io_lem :
      (s : RaftState LID CLID Mem) (x : IoId LID CLID)
      → ((accept_log_io s x).0.log_ids ≡ s.log_ids)
        × (local_committed (accept_log_io s x).0 ≡ local_committed s)
  unfolding accept_log_io
  accept_log_io_lem s x = elim (Bool-cases (option_gt (some x) s.io_state.log_progress.accepted)) [
    | inl e ↦ rw e (refl, refl)
    | inr e ↦ rw e (refl, refl)
  ]

module _ {LID CLID Mem : Type 0} ⦃l : RaftLeaderId LID⦄ ⦃o : Ord CLID⦄
    ⦃m : RaftMembership Mem⦄ where
  log_ids-append_new-none :
      (h : Following LID CLID Mem) (entries : List (Entry CLID Mem)) (last : Option (LogId CLID))
      (accepted : Option (IoId LID CLID))
      → (append_new h none entries last accepted).state.log_ids ≡ h.state.log_ids
  unfolding append_new
  log_ids-append_new-none h entries last accepted = ground arith

  -- the case of an entry that the log does not have
  append-Matches :
      (h : Following LID CLID Mem) (p : Option (LogId CLID)) (ent : Entry CLID Mem)
      (entries : List (Entry CLID Mem))
      → IsValid h.state.log_ids
      → first_index h.state.log_ids ≤ next_index (local_committed h.state)
      → Holds h.state p
      → Follows p (map entry_log_id (ent ∷ entries))
      → has_log_id h.state (entry_log_id ent) ≡ false
      → Matches h.state.log_ids
          (do_append_entries
            (truncate_logs h (entry_log_id ent).index)
            (ent ∷ entries)).state.log_ids
          p
          (map entry_log_id (ent ∷ entries))
  append-Matches h p ent entries v b hp f e = record {
    valid = extends.valid;
    before = λ i below. extends.before i (rw end (ground arith)) ∙ cut.before i (ground arith);
    at_entries = get-All _ _ (map entry_log_id (ent ∷ entries)) extends.at_new;
  }
    where
      first_le : first_index h.state.log_ids ≤ (entry_log_id ent).index
      first_le = ground (arith, committed-below h.state (entry_log_id ent) e)

      cut :
          Truncates h.state.log_ids
            (truncate_logs h (entry_log_id ent).index).state.log_ids
            (entry_log_id ent).index
      cut = (truncate_logs-Truncates h (entry_log_id ent).index v first_le).1

      rest_valid : IsValid (truncate_logs h (entry_log_id ent).index).state.log_ids
      rest_valid = (truncate_logs-Truncates h (entry_log_id ent).index v first_le).0

      end : last (truncate_logs h (entry_log_id ent).index).state.log_ids ≡ p
      end =
          last-Holds (truncate_logs h (entry_log_id ent).index).state.log_ids p rest_valid
            (unfold first_index in
              rw (purged-truncate_logs h (entry_log_id ent).index)
                (unfold first_index in ground (arith, first_le)))
            (λ x q.
              cut.before x.index (ground arith)
              ∙ Holds-get h.state p x hp (ground (arith, first_le)) q)
            (rw (sym f.0) cut.at_since)

      extends :
          Extends
            (truncate_logs h (entry_log_id ent).index).state.log_ids
            (do_append_entries
              (truncate_logs h (entry_log_id ent).index)
              (ent ∷ entries)).state.log_ids
            (map entry_log_id (ent ∷ entries))
      extends =
          do_append_entries-Extends (truncate_logs h (entry_log_id ent).index) (ent ∷ entries)
            rest_valid (rw end f)

  -- the entries from the first one on that the log does not have
  append_from-Matches :
      (h : Following LID CLID Mem) (p : Option (LogId CLID)) (entries : List (Entry CLID Mem))
      (last : Option (LogId CLID)) (accepted : Option (IoId LID CLID))
      → IsValid h.state.log_ids
      → first_index h.state.log_ids ≤ next_index (local_committed h.state)
      → Holds h.state p
      → Follows p (map entry_log_id entries)
      → All (Agrees h.state) (map entry_log_id entries)
      → Matches h.state.log_ids
          (append_new h
            (get_elem? entries (first_conflicting_index h.state entries))
            (drop (first_conflicting_index h.state entries) entries)
            last
            accepted).state.log_ids
          p
          (map entry_log_id entries)
  unfolding first_conflicting_index append_new
  append_from-Matches h p [] last accepted v b hp f a =
      rw (log_ids-append_new-none h [] last accepted)
        (record { valid = v; before = λ i below. refl; at_entries = tt })
  append_from-Matches h p (ent ∷ entries) last accepted v b hp f a =
      elim (Bool-cases (has_log_id h.state (entry_log_id ent))) [
        | inl e ↦
            rw (first_conflicting_index, e)
              (Matches-cons _ _ p (entry_log_id ent) (map entry_log_id entries) f.0
                (has-Holds h.state (entry_log_id ent) a.0 e)
                (append_from-Matches h (some (entry_log_id ent)) entries last accepted v b
                  (has-Holds h.state (entry_log_id ent) a.0 e) f.2 a.1))
        | inr e ↦ rw (first_conflicting_index, e) (append-Matches h p ent entries v b hp f e)
      ]

  -- the request, once its log IO is accepted or not
  append_accepted-Matches :
      (h : Following LID CLID Mem) (accepted : RaftState LID CLID Mem × Option (IoId LID CLID))
      (p : Option (LogId CLID)) (entries : List (Entry CLID Mem)) (last : Option (LogId CLID))
      → (accepted.0.log_ids ≡ h.state.log_ids)
        × (local_committed accepted.0 ≡ local_committed h.state)
      → IsValid h.state.log_ids
      → first_index h.state.log_ids ≤ next_index (local_committed h.state)
      → Holds h.state p
      → Follows p (map entry_log_id entries)
      → All (Agrees h.state) (map entry_log_id entries)
      → Matches h.state.log_ids
          (append_new
            (record h { state = accepted.0 })
            (get_elem? entries (first_conflicting_index accepted.0 entries))
            (drop (first_conflicting_index accepted.0 entries) entries)
            last
            accepted.1).state.log_ids
          p
          (map entry_log_id entries)
  append_accepted-Matches h accepted p entries last same v b hp f a = rw (sym same.0) (
      append_from-Matches (record h { state = accepted.0 }) p entries last accepted.1 (rw same.0 v)
        (rw (same.0, same.1) b) (held p hp) f (agreed (map entry_log_id entries) a))
    where
      held : (p : Option (LogId CLID)) → Holds h.state p → Holds accepted.0 p
      held none hp = tt
      held (some x) hp = rw same.0 hp

      agreed : (xs : List (LogId CLID)) → All (Agrees h.state) xs → All (Agrees accepted.0) xs
      agreed [] a = tt
      agreed (x ∷ xs) a = (rw (same.0, same.1) a.0, agreed xs a.1)

  -- If the log holds the previous log id of a request, and the committed logs are those of the
  -- leader, then after the request the log is valid, it has every entry of the request that is not
  -- purged, and up to the previous log id it is as before.
  pub append_entries-Matches :
      (h : Following LID CLID Mem) (p : Option (LogId CLID)) (entries : List (Entry CLID Mem))
      → IsValid h.state.log_ids
      → first_index h.state.log_ids ≤ next_index (local_committed h.state)
      → Holds h.state p
      → Follows p (map entry_log_id entries)
      → All (Agrees h.state) (map entry_log_id entries)
      → Matches h.state.log_ids
          (append_entries h p entries).state.log_ids
          p
          (map entry_log_id entries)
  unfolding append_entries accept_log_io
  append_entries-Matches h p entries =
      append_accepted-Matches h (accept_log_io h.state io) p entries
        (max_by (cmp_option cmp_log_id) p (last_entry_id entries)) (accept_log_io_lem h.state io)
    where
      io : IoId LID CLID
      io = log_io (record {
        committed_vote = h.leader_vote;
        log_id = max_by (cmp_option cmp_log_id) p (last_entry_id entries);
      })
