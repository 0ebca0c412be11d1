-- ===== src/Replication/Appended.antt =====
-- openraft/src/engine/handler/leader_handler/mod.rs: the log after a leader appends entries.
use openraft.Replication.Kept.{append_assigned-KeepsLog}
use openraft.Prelude.{
  ℕ, suc, ◌+◌, ◌-◌, ◌≡◌, ◌∙◌, ap, sym, subst, refl, false, Option, some, List, ◌∷◌, lt, arith,
  length, ◌==◌,
}
use openraft.Prelude.Ord.{Ord, cmp_option}
use openraft.LogId.{LogId, next_index, cmp_log_id}
use openraft.LogIdList.{last, extend}
use openraft.LogIdList.Valid.{IsValid}
use openraft.LogIdList.Leaders.{extend_from_same_leader}
use openraft.LeaderLogIds.{
  LeaderLogIds, last_ref, into_iter, collect, IsRange, collect-IsRange, collect_fuel, len,
}
use openraft.Following.Append.{Extends, extend-Extends}
use openraft.Vote.LeaderId.{RaftLeaderId}
use openraft.Membership.{RaftMembership}
use openraft.Progress.Entry.{ProgressEntry}
use openraft.VecProgress.{VecProgress, ClockProgress, ProgressItem}
use openraft.Leader.{QuorumMembership, assign_log_ids}
use openraft.Replication.Ranges.{Follows-range, extend_from_same_leader-range}
use openraft.Replication.{Replication}
use openraft.Replication.Streams.{append_assigned, append_if_assigned, leader_append_entries}

suc-not-zero : (n : ℕ) → (suc n == 0) ≡ false
suc-not-zero n = ground arith

module _ {LID CLID Mem P CP : Type 0} ⦃l : RaftLeaderId LID⦄ ⦃o : Ord CLID⦄ ⦃m : RaftMembership Mem⦄
    ⦃n : QuorumMembership Mem⦄ ⦃t : ProgressItem (ProgressEntry CLID) (Option (LogId CLID))⦄
    ⦃v : VecProgress P (ProgressEntry CLID) (Option (LogId CLID))⦄ ⦃c : ClockProgress CP⦄ where
  -- What a leader's appending does: the entries get the log ids `xs`, which are of the leader, from
  -- the index after the last log id on, one for each payload; the log is extended by them, and the
  -- leader knows the new last log id.
  pub record Appends (to_committed : LID → CLID) (h h' : Replication LID CLID Mem P CP) (count : ℕ)
      (xs : List (LogId CLID)) : Type 0 where
    pub range :
        IsRange
          (to_committed h.leader.committed_vote.leader_id)
          (next_index (last h.state.log_ids))
          xs
    pub count_of : length xs ≡ count
    pub extends : Extends h.state.log_ids h'.state.log_ids xs
    pub last_known : h'.leader.last_log_id ≡ last h'.state.log_ids

  -- the log ids of `suc k` entries, and the leader that has assigned them
  abbrev next_ids : (LID → CLID) → Replication LID CLID Mem P CP → ℕ → LeaderLogIds CLID
  next_ids to_committed h k = record {
    committed_leader_id = to_committed h.leader.committed_vote.leader_id;
    first = next_index h.leader.last_log_id;
    last = next_index h.leader.last_log_id + suc k - 1;
  }

  abbrev assigned : (LID → CLID) → Replication LID CLID Mem P CP → ℕ → Replication LID CLID Mem P CP
  assigned to_committed h k = record h {
    leader = record h.leader { last_log_id = some (last_ref (next_ids to_committed h k)) };
  }

  leader_append_entries_eq :
      (to_committed : LID → CLID) (stream_ids : ℕ → ℕ) (h : Replication LID CLID Mem P CP)
      (payload : Option Mem) (payloads : List (Option Mem))
      → leader_append_entries to_committed stream_ids h (payload ∷ payloads) ≡ (
        append_assigned stream_ids
            (assigned to_committed h (length payloads))
            (payload ∷ payloads)
            (next_ids to_committed h (length payloads)),
        some (next_ids to_committed h (length payloads)),
      )
  unfolding leader_append_entries assign_log_ids
  leader_append_entries_eq to_committed stream_ids h payload payloads =
      ap (append_if_assigned stream_ids h (payload ∷ payloads)) same
    where
      same : assign_log_ids to_committed h.leader (suc (length payloads)) ≡ (
        (assigned to_committed h (length payloads)).leader,
        some (next_ids to_committed h (length payloads)),
      )
      same = rw (suc-not-zero (length payloads)) refl

  append_assigned-Appends :
      (to_committed : LID → CLID) (stream_ids : ℕ → ℕ) (h : Replication LID CLID Mem P CP)
      (payloads : List (Option Mem)) (k : ℕ)
      → IsValid h.state.log_ids
      → h.leader.last_log_id ≡ last h.state.log_ids
      → cmp_option cmp_log_id (last h.state.log_ids) (
          some (record {
            leader_id = to_committed h.leader.committed_vote.leader_id;
            index = next_index (last h.state.log_ids);
          }))
        ≡ lt
      → Appends to_committed h
          (append_assigned stream_ids
            (assigned to_committed h k)
            payloads
            (next_ids to_committed h k))
          (suc k)
          (collect (into_iter (next_ids to_committed h k)))
  append_assigned-Appends to_committed stream_ids h payloads k valid known above = record {
    range = ranged;
    count_of = count;
    extends = rw (kept.0 ∙ ran.0) (
        extend-Extends h.state.log_ids (collect (into_iter ids)) valid (
          Follows-range cl_id (next_index (last h.state.log_ids)) (collect (into_iter ids))
            (last h.state.log_ids) refl above ranged));
    last_known = kept.1 ∙ index ∙ sym (ap last (kept.0 ∙ ran.0) ∙ ran.1);
  }
    where
      cl_id : CLID
      cl_id = to_committed h.leader.committed_vote.leader_id

      ids : LeaderLogIds CLID
      ids = next_ids to_committed h k

      collected :
          IsRange cl_id (next_index h.leader.last_log_id) (collect (into_iter ids))
          × (length (collect (into_iter ids)) ≡ len ids)
          × (collect_fuel (suc (len ids)) (into_iter ids) ≡ collect (into_iter ids))
      collected = collect-IsRange ids (omega arith)

      range : IsRange cl_id (next_index h.leader.last_log_id) (collect (into_iter ids))
      range = collected.0

      ranged : IsRange cl_id (next_index (last h.state.log_ids)) (collect (into_iter ids))
      ranged = subst (λ p. IsRange cl_id (next_index p) (collect (into_iter ids))) known range

      index :
          some (last_ref ids)
          ≡ some (record { leader_id = cl_id; index = next_index h.leader.last_log_id + k })
      index = ap (λ i. some (record { leader_id = cl_id; index = i })) (omega arith)

      count : length (collect (into_iter ids)) ≡ suc k
      count = collected.1 ∙ unfold len in ground arith

      ran :
          (extend_from_same_leader h.state.log_ids (collect (into_iter ids))
            ≡ extend h.state.log_ids (collect (into_iter ids)))
          × (last (extend h.state.log_ids (collect (into_iter ids)))
              ≡ some (record { leader_id = cl_id; index = next_index h.leader.last_log_id + k }))
      ran =
          extend_from_same_leader-range h.state.log_ids cl_id (next_index h.leader.last_log_id) k
            (collect (into_iter ids)) range count

      kept :
          ((append_assigned stream_ids (assigned to_committed h k) payloads ids).state.log_ids
            ≡ extend_from_same_leader h.state.log_ids (collect (into_iter ids)))
          × ((append_assigned stream_ids
                (assigned to_committed h k)
                payloads
                ids).leader.last_log_id
              ≡ some (last_ref ids))
      kept = append_assigned-KeepsLog stream_ids (assigned to_committed h k) payloads ids

  -- A leader whose log is valid, and which knows its last log id, appends entries: each gets a log id
  -- of the leader, with the indexes after the last one in order, the log has them all and is valid,
  -- what it had stays, and the leader knows the new last log id.
  pub leader_append_entries-Appends :
      (to_committed : LID → CLID) (stream_ids : ℕ → ℕ) (h : Replication LID CLID Mem P CP)
      (payload : Option Mem) (payloads : List (Option Mem))
      → IsValid h.state.log_ids
      → h.leader.last_log_id ≡ last h.state.log_ids
      → cmp_option cmp_log_id (last h.state.log_ids) (
          some (record {
            leader_id = to_committed h.leader.committed_vote.leader_id;
            index = next_index (last h.state.log_ids);
          }))
        ≡ lt
      → (ids : LeaderLogIds CLID) × ((leader_append_entries to_committed stream_ids h
            (payload ∷ payloads)).1
          ≡ some ids)
        × Appends to_committed h
            (leader_append_entries to_committed stream_ids h (payload ∷ payloads)).0
            (suc (length payloads))
            (collect (into_iter ids))
  leader_append_entries-Appends to_committed stream_ids h payload payloads valid known above =
      rw (leader_append_entries_eq to_committed stream_ids h payload payloads) (
        next_ids to_committed h (length payloads),
        refl,
        append_assigned-Appends to_committed stream_ids h (payload ∷ payloads) (length payloads)
            valid known above,
      )
