-- ===== src/Engine/Appends.antt =====
-- openraft/src/engine/engine_impl.rs: what a request to append entries does to a node.
use openraft.Prelude.{
  ◌≤◌, ◌≡◌, ◌≢◌, ◌⊎◌, ◌∙◌, ap, sym, refl, Bool, true, false, Option, none, some, List, [], ◌∷◌, map,
  arith, inl, inr, All, Bool-cases, if◌then◌else◌, ◌||◌, ◌==◌, ==_iff,
}
use openraft.Prelude.Ord.{Ord}
use openraft.LogId.{LogId, next_index}
use openraft.LogIdList.{first_index}
use openraft.LogIdList.Valid.{IsValid}
use openraft.Vote.{Vote, partial_cmp, ge, is_gt}
use openraft.Vote.LeaderId.{RaftLeaderId}
use openraft.IoState.Ids.{io_id_of_vote}
use openraft.Membership.{RaftMembership}
use openraft.MembershipState.Recent.{Entry, entry_log_id}
use openraft.RaftState.{RaftState, local_committed, get_log_id, has_log_id}
use openraft.RaftState.Server.{update_server_state_if_changed_lem, is_leader, is_leading}
use openraft.VoteHandler.{grant}
use openraft.Following.{Following, ConflictingLogId, ensure_log_consecutive}
use openraft.Following.Append.{Follows}
use openraft.Following.Truncate.{Truncates, truncate_logs-Truncates}
use openraft.Following.Holding.{Agrees, has-Holds, committed-below}
use openraft.Following.Matching.{Matches, accept_log_io_lem, append_entries-Matches}
use openraft.Progress.Entry.{ProgressEntry}
use openraft.VecProgress.{VecProgress, ProgressItem, ClockProgress}
use openraft.Leader.{QuorumMembership}
use openraft.Candidate.{Env}
use openraft.Engine.{
  Engine, update_vote, take_vote, update_internal_server_state, become_following, is_some, prepend,
  push, fail_pending_reads, close_replication_streams, update_server_state,
}
use openraft.Engine.Votes.{update_vote_lem, vote-take_vote}
use openraft.Engine.Requests.{
  Appended, appended, rejected_vote, conflicting, last_of, following_of, append_request,
  append_voted, append_consecutive,
}

-- the log ids are those of another state, and so is what is committed
abbrev pub Keeps :
    {LID CLID Mem : Type 0} → RaftState LID CLID Mem → RaftState LID CLID Mem → Type 0
Keeps s s_new = (s_new.log_ids ≡ s.log_ids) × (local_committed s_new ≡ local_committed s)

module _ {LID CLID Mem P CP V : Type 0} ⦃l : RaftLeaderId LID⦄ ⦃m : RaftMembership Mem⦄ where
  become_following_lem :
      (e : Engine LID CLID Mem P CP V)
      → Keeps e.state (become_following e).state × ((become_following e).leader ≡ none)
  unfolding become_following update_server_state
  become_following_lem e =
      same (is_some e.leader || (is_some e.candidate || is_some e.pre_candidate))
    where
      cleared : Engine LID CLID Mem P CP V
      cleared =
          prepend (record e { leader = none; candidate = none; pre_candidate = none })
            fail_pending_reads

      same :
          (had : Bool)
          → Keeps e.state
              (update_server_state
                (if had then push cleared close_replication_streams else cleared)).state
            × ((update_server_state
                  (if had then push cleared close_replication_streams else cleared)).leader
                ≡ none)
      same true = rw (update_server_state_if_changed_lem e.state e.config.id) ((refl, refl), refl)
      same false = rw (update_server_state_if_changed_lem e.state e.config.id) ((refl, refl), refl)

module _ {LID CLID Mem P CP V : Type 0} ⦃l : RaftLeaderId LID⦄ ⦃o : Ord CLID⦄
    ⦃m : RaftMembership Mem⦄ ⦃n : QuorumMembership Mem⦄
    ⦃t : ProgressItem (ProgressEntry CLID) (Option (LogId CLID))⦄
    ⦃v : VecProgress P (ProgressEntry CLID) (Option (LogId CLID))⦄ ⦃c : ClockProgress CP⦄
    (env : Env LID CLID) where
  -- a node follows the vote of another node
  update_internal_server_state-follows :
      (e : Engine LID CLID Mem P CP V)
      → l.node_id e.state.vote.leader_id ≢ e.config.id
      → Keeps e.state (update_internal_server_state env e).state
        × ((update_internal_server_state env e).leader ≡ none)
  unfolding update_internal_server_state is_leader is_leading
  update_internal_server_state-follows e h =
      elim (Bool-cases (l.node_id e.state.vote.leader_id == e.config.id)) [
        | inl q ↦ absurd (h ((==_iff _ _).0 q))
        | inr q ↦ rw (is_leading_false q) (become_following_lem e)
      ]
    where
      is_leading_false :
          (l.node_id e.state.vote.leader_id == e.config.id) ≡ false
          → is_leading e.state e.config.id ≡ false
      is_leading_false q = ground arith

  take_vote_lem :
      (e : Engine LID CLID Mem P CP V) (vote : Vote LID)
      → Keeps e.state (take_vote env e vote).state
        × ((take_vote env e vote).config.id ≡ e.config.id)
  unfolding take_vote grant
  take_vote_lem e vote = elim (Bool-cases (is_gt (partial_cmp vote e.state.vote))) [
    | inl q ↦ rw q (accept_log_io_lem (record e.state { vote = vote }) (io_id_of_vote vote), refl)
    | inr q ↦ rw q ((refl, refl), refl)
  ]

  -- the vote of another node leaves the log as it is, and no leader
  update_vote-follows :
      (e : Engine LID CLID Mem P CP V) (vote : Vote LID)
      → l.node_id vote.leader_id ≢ e.config.id
      → (update_vote env e vote).1 ≡ true
      → Keeps e.state (update_vote env e vote).0.state
        × ((update_vote env e vote).0.leader ≡ none)
        × ((update_vote env e vote).0.state.vote ≡ vote)
  unfolding update_vote
  update_vote-follows e vote h a = elim (update_vote_lem env e vote) [
    | inl (q, accepted, taken) ↦ ((followed q taken).0, (followed q taken).1, taken)
    | inr (q, same) ↦ absurd (rejected (ap (λ r. r.1) same))
  ]
    where
      rejected : (update_vote env e vote).1 ≡ false → ⊥
      rejected r = cc

      followed :
          ge vote e.state.vote ≡ true
          → (update_vote env e vote).0.state.vote ≡ vote
          → Keeps e.state (update_vote env e vote).0.state
            × ((update_vote env e vote).0.leader ≡ none)
      followed q taken =
          rw (update_vote, q)
            (
              (after.0.0 ∙ (take_vote_lem e vote).0.0, after.0.1 ∙ (take_vote_lem e vote).0.1),
              after.1,
            )
        where
          after :
              Keeps
                (take_vote env e vote).state
                (update_internal_server_state env (take_vote env e vote)).state
              × ((update_internal_server_state env (take_vote env e vote)).leader ≡ none)
          after =
              update_internal_server_state-follows (take_vote env e vote)
                (rw (vote-take_vote env e vote q, (take_vote_lem e vote).1) h)

module _ {LID CLID Mem : Type 0} ⦃o : Ord CLID⦄ where
  -- what a request asks of the previous log id: it is the leader's, if it is committed here
  abbrev pub AgreesWith : RaftState LID CLID Mem → Option (LogId CLID) → Type 0
  AgreesWith s none = Unit
  AgreesWith s (some x) = Agrees s x

  -- The answers to a request whose vote is legal. The log has the previous log id, and every entry
  -- afterwards; or it does not have it, and is cut there.
  abbrev pub IsVotedAnswer :
      {P CP V : Type 0}
      → RaftState LID CLID Mem
      → Option (LogId CLID)
      → List (Entry CLID Mem)
      → Engine LID CLID Mem P CP V × Appended LID CLID
      → Type 0
  IsVotedAnswer s prev entries r =
      ((r.1 ≡ appended (last_of prev entries))
        × Matches s.log_ids r.0.state.log_ids prev (map entry_log_id entries))
      ⊎ ((p : LogId CLID) × (prev ≡ some p)
          × (has_log_id s p ≡ false)
          × (r.1 ≡ conflicting (record { local = get_log_id s p.index; expect = p }))
          × IsValid r.0.state.log_ids
          × Truncates s.log_ids r.0.state.log_ids p.index)

module _ {LID CLID Mem P CP V : Type 0} ⦃l : RaftLeaderId LID⦄ ⦃o : Ord CLID⦄
    ⦃m : RaftMembership Mem⦄ where
  append_voted_lem :
      (e : Engine LID CLID Mem P CP V) (prev : Option (LogId CLID))
      (entries : List (Entry CLID Mem))
      → IsValid e.state.log_ids
      → first_index e.state.log_ids ≤ next_index (local_committed e.state)
      → AgreesWith e.state prev
      → Follows prev (map entry_log_id entries)
      → All (Agrees e.state) (map entry_log_id entries)
      → IsVotedAnswer e.state prev entries (append_voted e prev entries)
  unfolding append_voted append_consecutive ensure_log_consecutive
  append_voted_lem e none entries v b w f a =
      inl (refl, append_entries-Matches (following_of e) none entries v b tt f a)
  append_voted_lem e (some p) entries v b w f a = elim (Bool-cases (has_log_id e.state p)) [
    | inl q ↦ inl (
      rw q refl,
      rw q (
          append_entries-Matches (following_of e) (some p) entries v b (has-Holds e.state p w q) f
            a),
    )
    | inr q ↦ inr (
      p,
      refl,
      q,
      rw q refl,
      rw q (truncate_logs-Truncates (following_of e) p.index v (first_le q)).0,
      rw q (truncate_logs-Truncates (following_of e) p.index v (first_le q)).1,
    )
  ]
    where
      first_le : has_log_id e.state p ≡ false → first_index e.state.log_ids ≤ p.index
      first_le q = ground (arith, committed-below e.state p q)

  -- the same, from a state with the same log and the same committed log id
  append_voted-Keeps :
      (s : RaftState LID CLID Mem) (e : Engine LID CLID Mem P CP V) (prev : Option (LogId CLID))
      (entries : List (Entry CLID Mem))
      → Keeps s e.state
      → IsValid s.log_ids
      → first_index s.log_ids ≤ next_index (local_committed s)
      → AgreesWith s prev
      → Follows prev (map entry_log_id entries)
      → All (Agrees s) (map entry_log_id entries)
      → IsVotedAnswer s prev entries (append_voted e prev entries)
  unfolding has_log_id get_log_id
  append_voted-Keeps s e prev entries same v b w f a =
      rw (sym same.0, sym same.1)
        (append_voted_lem e prev entries (rw same.0 v) (rw (same.0, same.1) b) (agreed_with prev w)
          f (agreed (map entry_log_id entries) a))
    where
      agreed_with : (p : Option (LogId CLID)) → AgreesWith s p → AgreesWith e.state p
      agreed_with none w = tt
      agreed_with (some x) w = rw (same.0, same.1) w

      agreed : (xs : List (LogId CLID)) → All (Agrees s) xs → All (Agrees e.state) xs
      agreed [] a = tt
      agreed (x ∷ xs) a = (rw (same.0, same.1) a.0, agreed xs a.1)

  leader-append_voted :
      (e : Engine LID CLID Mem P CP V) (prev : Option (LogId CLID))
      (entries : List (Entry CLID Mem))
      → (append_voted e prev entries).0.leader ≡ e.leader
  unfolding append_voted append_consecutive
  leader-append_voted e prev entries = by_check (ensure_log_consecutive (following_of e) prev)
    where
      by_check :
          (check : Following LID CLID Mem × Option (ConflictingLogId CLID))
          → (append_consecutive e prev entries check).0.leader ≡ e.leader
      by_check (h, none) = refl
      by_check (h, some k) = refl

module _ {LID CLID Mem P CP V : Type 0} ⦃l : RaftLeaderId LID⦄ ⦃o : Ord CLID⦄
    ⦃m : RaftMembership Mem⦄ ⦃n : QuorumMembership Mem⦄
    ⦃t : ProgressItem (ProgressEntry CLID) (Option (LogId CLID))⦄
    ⦃v : VecProgress P (ProgressEntry CLID) (Option (LogId CLID))⦄ ⦃c : ClockProgress CP⦄
    (env : Env LID CLID) where
  -- A request of another node is rejected exactly if its vote is not at least the node's own, and the
  -- node is then as it was. Otherwise the node has no leader of its own. If its log has the previous
  -- log id, it then has every entry of the request that is not purged, and is as before up to the
  -- previous log id; if it has not, the answer names the log id that it has there, and the log is cut
  -- from there on. The log stays valid. This is so if it was valid, nothing is purged that is not
  -- committed, the entries follow one another, and the log ids of the request are those that the node
  -- has committed at their indexes.
  pub append_request_lem :
      (e : Engine LID CLID Mem P CP V) (vote : Vote LID) (prev : Option (LogId CLID))
      (entries : List (Entry CLID Mem))
      → l.node_id vote.leader_id ≢ e.config.id
      → IsValid e.state.log_ids
      → first_index e.state.log_ids ≤ next_index (local_committed e.state)
      → AgreesWith e.state prev
      → Follows prev (map entry_log_id entries)
      → All (Agrees e.state) (map entry_log_id entries)
      → ((ge vote e.state.vote ≡ false)
          × (append_request env e vote prev entries ≡ (e, rejected_vote e.state.vote)))
        ⊎ ((ge vote e.state.vote ≡ true)
            × ((append_request env e vote prev entries).0.leader ≡ none)
            × IsVotedAnswer e.state prev entries (append_request env e vote prev entries))
  unfolding append_request
  append_request_lem e vote prev entries h valid b w f a = elim (update_vote_lem env e vote) [
    | inl (q, accepted, taken) ↦ inr (
      q,
      rw accepted (
          leader-append_voted (update_vote env e vote).0 prev entries
          ∙ (update_vote-follows env e vote h accepted).1),
      rw accepted (
          append_voted-Keeps e.state (update_vote env e vote).0 prev entries
            (update_vote-follows env e vote h accepted).0 valid b w f a),
    )
    | inr (q, same) ↦ inl (q, rw same refl)
  ]
