-- ===== src/Progress/Send.antt =====
-- openraft/src/progress/entry/mod.rs: `next_send`, which chooses what to send to a node: entries
-- from a probe on, a stream of entries, or a snapshot.
use openraft.Prelude.{
  ℕ, zero, suc, ap, sym, subst, ◌∙◌, refl, if_true, ◌+◌, ◌-◌, ◌≤◌, ◌<◌, ◌≡◌, ◌⊎◌, Bool, true, false,
  Option, none, some, if◌then◌else◌, ltb, leb, ◌==◌, ◌&&◌, max, min, arith, inl, inr, Bool-cases,
  ltb→lt,
}
use openraft.Prelude.Ord.{Ord}
use openraft.LogId.{LogId, next_index}
use openraft.LogIdList.{get, first_index}
use openraft.LogIdList.Valid.{IsValid}
use openraft.LogIdList.View.{get-index}
use openraft.LogIdList.Ascending.{get-lt, get-some}
use openraft.MembershipState.{log_id_lt, lt_test}
use openraft.RaftState.{RaftState, last_log_id, prev_log_id, new_inflight_id}
use openraft.Progress.Inflight.{Inflight, logs_since, snapshot, probe, probe_range, is_none}
use openraft.Progress.Entry.{ProgressEntry, calc_mid}

module _ {LID CLID Mem : Type 0} ⦃o : Ord CLID⦄ where
  -- the entries `start .. start + max_entries` of the log, as far as it goes
  unfoldable pub send_end : RaftState LID CLID Mem → ℕ → ℕ → ℕ
  unfolding last_log_id
  send_end s start max_entries = min (start + max_entries) (next_index (last_log_id s))

  unfoldable pub probe_from : RaftState LID CLID Mem → ℕ → ℕ → ℕ → Inflight CLID
  unfolding probe_range prev_log_id send_end
  probe_from s start max_entries id =
      probe_range (prev_log_id s start) (prev_log_id s (send_end s start max_entries)) id

  -- after the pending probe: a probe at the midpoint, or the stream after the matching log
  unfoldable pub send_regime : RaftState LID CLID Mem → ProgressEntry CLID → ℕ → ℕ → Inflight CLID
  unfolding calc_mid send_end probe_from
  send_regime s e max_entries id =
      let matching_next = next_index e.matching in
      let mid = calc_mid matching_next e.progress_data.searching_end in
      let start = max mid (next_index s.purge_upto) in
      if ltb matching_next e.progress_data.searching_end
      then (if start == send_end s start max_entries
          then snapshot id
          else probe_from s start max_entries id)
      else logs_since e.matching id

  unfoldable pub send_pending :
      RaftState LID CLID Mem → ProgressEntry CLID → ℕ → ℕ → Option ℕ → Inflight CLID
  unfolding send_end probe_from send_regime
  send_pending s e max_entries id none = send_regime s e max_entries id
  send_pending s e max_entries id (some probe_start) =
      let start = max probe_start (next_index s.purge_upto) in
      if (leb (next_index e.matching) start && leb start e.progress_data.searching_end)
        && ltb start (send_end s start max_entries)
      then probe_from s start max_entries id
      else send_regime s e max_entries id

  -- the request to send, with the probe that is pending
  unfoldable pub choose : RaftState LID CLID Mem → ProgressEntry CLID → ℕ → ℕ → Inflight CLID
  unfolding send_pending
  choose s e max_entries id =
      if ltb e.progress_data.searching_end (next_index s.purge_upto)
      then snapshot id
      else send_pending s e max_entries id e.progress_data.probe_start

  -- The states of the leader and of the progress, and whether something new is sent.
  unfoldable pub next_send :
      RaftState LID CLID Mem
      → ProgressEntry CLID
      → ℕ
      → RaftState LID CLID Mem × ProgressEntry CLID × Bool
  unfolding new_inflight_id choose
  next_send s e max_entries =
      let (state, id) = new_inflight_id s in
      if is_none e.progress_data.inflight
      then (
        state,
        record e {
          progress_data = record e.progress_data {
            probe_start = none;
            inflight = choose state e max_entries id;
          };
        },
        true,
      )
      else (s, e, false)

  -- the log id before an index: none before index 0, and otherwise that of the index before it
  abbrev pub IsPrev : RaftState LID CLID Mem → ℕ → Option (LogId CLID) → Type 0
  IsPrev s index none = index ≡ 0
  IsPrev s index (some x) = (suc x.index ≡ index) × (get s.log_ids x.index ≡ some x)

  -- what may be sent: a probe of logs that are not purged, which begins in the search range and has
  -- entries, with the log id before the first and that of the last; a stream from the matching log
  -- on; or a snapshot
  pub data Choice (s : RaftState LID CLID Mem) (e : ProgressEntry CLID) (max_entries id : ℕ)
      : Inflight CLID → Type 0 where
    by_probe :
        (start end : ℕ) (prev last : Option (LogId CLID))
        → next_index e.matching ≤ start
        → start ≤ e.progress_data.searching_end
        → next_index s.purge_upto ≤ start
        → start < end
        → end ≤ start + max_entries
        → end ≤ next_index (last_log_id s)
        → IsPrev s start prev
        → IsPrev s end last
        → Choice s e max_entries id (probe (record { prev = prev; last = last }) id)
    by_stream :
        next_index e.matching ≡ e.progress_data.searching_end
        → next_index s.purge_upto ≤ next_index e.matching
        → Choice s e max_entries id (logs_since e.matching id)
    by_snapshot :
        (e.progress_data.searching_end < next_index s.purge_upto)
          ⊎ ((next_index e.matching < e.progress_data.searching_end)
              × (next_index (last_log_id s) ≤ next_index s.purge_upto))
        → Choice s e max_entries id (snapshot id)

calc_mid_lem : (n end : ℕ) → n < end → (n ≤ calc_mid n end) × (calc_mid n end < end)
unfolding calc_mid
calc_mid_lem n end h = (omega arith, omega arith)

module _ {LID CLID Mem : Type 0} ⦃o : Ord CLID⦄ where
  prev_log_id-suc : (s : RaftState LID CLID Mem) (i : ℕ) → prev_log_id s (suc i) ≡ get s.log_ids i
  unfolding prev_log_id get
  prev_log_id-suc s i =
      let e : (suc i == 0) ≡ false = ground arith in
      rw e (ap (get s.log_ids) {x = suc i - 1} {y = i} (omega arith))

  prev_log_id-IsPrev :
      (s : RaftState LID CLID Mem) (index : ℕ)
      → IsValid s.log_ids
      → first_index s.log_ids ≤ index
      → index ≤ next_index (last_log_id s)
      → IsPrev s index (prev_log_id s index)
  unfolding prev_log_id last_log_id
  prev_log_id-IsPrev s zero v f b = refl
  prev_log_id-IsPrev s (suc i) v f b =
      let (x, e) = get-some s.log_ids i v f (ground arith) in
      let at = (get-index s.log_ids i v e).0 in
      subst (IsPrev s (suc i)) (sym (prev_log_id-suc s i ∙ e))
        (ap suc at, ap (get s.log_ids) at ∙ e)

  -- the range between the log ids before two indexes is not empty
  IsPrev-lt :
      (s : RaftState LID CLID Mem) (start end : ℕ) (prev last : Option (LogId CLID))
      → IsValid s.log_ids
      → start < end
      → IsPrev s start prev
      → IsPrev s end last
      → log_id_lt prev last ≡ true
  IsPrev-lt s start end prev none v b p q = absurd (omega arith)
  IsPrev-lt s start end none (some y) v b p q = refl
  IsPrev-lt s start end (some x) (some y) v b p q =
      ap lt_test (get-lt s.log_ids x.index y.index v (omega arith) p.1 q.1)

  -- a probe with entries is a request
  probe_from-Choice :
      (s : RaftState LID CLID Mem) (e : ProgressEntry CLID) (max_entries id start : ℕ)
      → IsValid s.log_ids
      → first_index s.log_ids ≤ next_index s.purge_upto
      → next_index e.matching ≤ start
      → start ≤ e.progress_data.searching_end
      → next_index s.purge_upto ≤ start
      → start < send_end s start max_entries
      → Choice s e max_entries id (probe_from s start max_entries id)
  unfolding probe_from probe_range send_end
  probe_from-Choice s e max_entries id start v known above within unpurged room =
      subst (Choice s e max_entries id)
        (sym (if_true _ _ _ (IsPrev-lt s start end _ _ v room before upto)))
        (by_probe start end _ _ above within unpurged room (ground arith) (ground arith) before
          upto)
    where
      end : ℕ
      end = send_end s start max_entries

      before : IsPrev s start (prev_log_id s start)
      before = prev_log_id-IsPrev s start v (ground arith) (ground arith)

      upto : IsPrev s end (prev_log_id s end)
      upto = prev_log_id-IsPrev s end v (ground arith) (ground arith)

module _ {LID CLID Mem : Type 0} ⦃o : Ord CLID⦄ (s : RaftState LID CLID Mem)
    (e : ProgressEntry CLID) (max_entries id : ℕ) (v : IsValid s.log_ids)
    (purged : first_index s.log_ids ≤ next_index s.purge_upto) where
  send_regime-Choice :
      0 < max_entries
      → next_index e.matching ≤ e.progress_data.searching_end
      → e.progress_data.searching_end ≤ next_index (last_log_id s)
      → next_index s.purge_upto ≤ e.progress_data.searching_end
      → Choice s e max_entries id (send_regime s e max_entries id)
  unfolding send_regime send_end
  send_regime-Choice some_entries valid bound known =
      elim (Bool-cases (ltb (next_index e.matching) e.progress_data.searching_end)) [
        | inl q ↦ elim (Bool-cases (start == send_end s start max_entries)) [
          | inl full ↦
              rw (q, full) (by_snapshot (inr (ground arith, ground (arith, mid (ground arith)))))
          | inr room ↦
              rw (q, room)
                (probe_from-Choice s e max_entries id start v purged
                  (ground (arith, mid (ground arith))) (ground (arith, mid (ground arith)))
                  (ground arith) (ground (arith, mid (ground arith))))
        ]
        | inr q ↦ rw q (by_stream (ground arith) (ground arith))
      ]
    where
      start : ℕ
      start =
          max (calc_mid (next_index e.matching) e.progress_data.searching_end)
            (next_index s.purge_upto)

      mid :
          next_index e.matching < e.progress_data.searching_end
          → (next_index e.matching ≤ calc_mid (next_index e.matching) e.progress_data.searching_end)
            × (calc_mid (next_index e.matching) e.progress_data.searching_end
                < e.progress_data.searching_end)
      mid = calc_mid_lem (next_index e.matching) e.progress_data.searching_end

  send_pending-Choice :
      (pending : Option ℕ)
      → 0 < max_entries
      → next_index e.matching ≤ e.progress_data.searching_end
      → e.progress_data.searching_end ≤ next_index (last_log_id s)
      → next_index s.purge_upto ≤ e.progress_data.searching_end
      → Choice s e max_entries id (send_pending s e max_entries id pending)
  unfolding send_pending send_end
  send_pending-Choice none some_entries valid bound known =
      send_regime-Choice some_entries valid bound known
  send_pending-Choice (some probe_start) some_entries valid bound known =
      elim (Bool-cases (is_used)) [
        | inl q ↦ rw q (
            probe_from-Choice s e max_entries id start v purged (ground arith) (ground arith)
              (ground arith) (ground arith))
        | inr q ↦ rw q (send_regime-Choice some_entries valid bound known)
      ]
    where
      start : ℕ
      start = max probe_start (next_index s.purge_upto)

      is_used : Bool
      is_used =
          (leb (next_index e.matching) start && leb start e.progress_data.searching_end)
          && ltb start (send_end s start max_entries)

  choose-Choice :
      0 < max_entries
      → next_index e.matching ≤ e.progress_data.searching_end
      → e.progress_data.searching_end ≤ next_index (last_log_id s)
      → Choice s e max_entries id (choose s e max_entries id)
  unfolding choose
  choose-Choice some_entries valid bound =
      elim (Bool-cases (ltb e.progress_data.searching_end (next_index s.purge_upto))) [
        | inl q ↦ rw q (by_snapshot (inl (ltb→lt _ _ q)))
        | inr q ↦ rw q (
            send_pending-Choice e.progress_data.probe_start some_entries valid bound (ground arith))
      ]

module _ {LID CLID Mem : Type 0} ⦃o : Ord CLID⦄ where
  -- A node with nothing in flight is sent something that can be sent. A probe begins in the range
  -- that is searched and above the purged logs, and carries between one and `max_entries` entries of
  -- the log; a stream begins at the matching log where that is known exactly, and no log that it
  -- needs is purged; and a snapshot is sent only where every place that may match is purged, or the
  -- leader has no log left to send. The request has a new id. The leader's log is valid, and what is
  -- purged was scheduled.
  pub next_send-Choice :
      (s : RaftState LID CLID Mem) (e : ProgressEntry CLID) (max_entries : ℕ)
      → IsValid s.log_ids
      → first_index s.log_ids ≤ next_index s.purge_upto
      → is_none e.progress_data.inflight ≡ true
      → 0 < max_entries
      → next_index e.matching ≤ e.progress_data.searching_end
      → e.progress_data.searching_end ≤ next_index (last_log_id s)
      → Choice
          (new_inflight_id s).0
          e
          max_entries
          (suc s.last_inflight_id)
          (next_send s e max_entries).1.progress_data.inflight
  unfolding next_send new_inflight_id last_log_id
  next_send-Choice s e max_entries v purged q some_entries valid bound = rw q (
      choose-Choice (record s { last_inflight_id = suc s.last_inflight_id }) e max_entries
        (suc s.last_inflight_id) v purged some_entries valid bound)
