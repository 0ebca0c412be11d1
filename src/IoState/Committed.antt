-- ===== src/IoState/Committed.antt =====
-- openraft/src/raft_state/io_state.rs: `do_calculate_local_committed`, the log id up to which this
-- node may apply. `to_committed` is `RaftLeaderIdExt::to_committed`, a method of the leader id type.
use openraft.Prelude.{
  ◌≡◌, ◌≢◌, refl, Bool, true, false, Option, none, some, Ordering, lt, eq, gt, arith, if◌then◌else◌,
  inl, inr, Bool-cases, Option-cases, ◌>>=◌,
}
use openraft.Prelude.Ord.{Ord, cmp_option, IsTotal}
use openraft.LogId.{LogId, cmp_log_id, log_id_ord}
use openraft.IoState.{IoState}
use openraft.IoState.Ids.{
  log_ids-IsTotal, IoId, LogIoId, last_log_id, to_committed_vote, vote_io, log_io,
}

-- `a >= b`, `a <= b` of a type with `Ord`
abbrev pub at_least : Ordering → Bool
at_least lt = false
at_least eq = true
at_least gt = true

abbrev pub at_most : Ordering → Bool
at_most lt = true
at_most eq = true
at_most gt = false

-- `std::cmp::max` and `std::cmp::min`: on equal values `max` is the second, `min` the first
abbrev pub max_by : {A : Type 0} → (A → A → Ordering) → A → A → A
max_by cmp a b = if at_most (cmp a b) then b else a

abbrev pub min_by : {A : Type 0} → (A → A → Ordering) → A → A → A
min_by cmp a b = if at_most (cmp a b) then a else b

module _ {LID CLID : Type 0} ⦃o : Ord CLID⦄ (to_committed : LID → CLID) where
  -- from the `max` of the two leaders on
  unfoldable pub committed_under :
      CLID → CLID → Option (LogId CLID) → LogId CLID → Option (LogId CLID)
  committed_under cluster_vote accepted_vote accepted committed_log_id =
      let required = max_by o.cmp cluster_vote committed_log_id.leader_id in
      if at_least (o.cmp accepted_vote required)
      then min_by (cmp_option cmp_log_id) accepted (some committed_log_id)
      else none

  unfoldable pub calculate_from : LogIoId LID CLID → IoId LID CLID → Option (LogId CLID)
  unfolding last_log_id to_committed_vote committed_under
  calculate_from cluster accepted = do
    committed_log_id ← cluster.log_id
    accepted_vote ← to_committed_vote accepted
    committed_under (to_committed cluster.committed_vote.leader_id)
        (to_committed accepted_vote.leader_id) (last_log_id accepted) committed_log_id

  unfoldable pub calculate_local_committed : IoState LID CLID → Option (LogId CLID)
  unfolding calculate_from
  calculate_local_committed s = do
    cluster_committed ← s.cluster_committed.value
    accepted ← s.log_progress.accepted
    calculate_from cluster_committed accepted

  -- `a` is at most `b`, by `Option<LogId>`'s order
  abbrev pub IsUpTo : Option (LogId CLID) → Option (LogId CLID) → Type 0
  IsUpTo a b = cmp_option cmp_log_id a b ≢ gt

  -- what makes a log id safe to apply, with the accepted and the cluster-committed IO in hand
  pub record IsSafe (r : LogId CLID) (cluster accepted : LogIoId LID CLID) : Type 0 where
    pub within_accepted : IsUpTo (some r) accepted.log_id
    pub within_cluster : IsUpTo (some r) cluster.log_id
    pub vote_reached :
        o.cmp
          (to_committed accepted.committed_vote.leader_id)
          (to_committed cluster.committed_vote.leader_id)
        ≢ lt
    pub leader_reached : o.cmp (to_committed accepted.committed_vote.leader_id) r.leader_id ≢ lt

  max_by-reached :
      (x a b : CLID)
      → at_least (o.cmp x (max_by o.cmp a b)) ≡ true
      → (o.cmp x a ≢ lt) × (o.cmp x b ≢ lt)
  max_by-reached x a b h = ground (
    arith,
    o.cmp_swap x a,
    o.cmp_swap x b,
    o.cmp_swap a b,
    o.cmp_eq a b,
    o.cmp_eq x a,
    o.cmp_eq x b,
    o.cmp_lt x a b,
    o.cmp_lt x b a,
    o.cmp_lt b x a,
    o.cmp_lt a x b,
  )

  min_by-bounded :
      (a b c : Option (LogId CLID))
      → min_by (cmp_option cmp_log_id) a b ≡ c
      → IsUpTo c a × IsUpTo c b
  min_by-bounded a b c h = ground (arith, t.cmp_swap a b, t.cmp_self a, t.cmp_self b)
    where
      t : IsTotal (Option (LogId CLID)) (cmp_option cmp_log_id)
      t = log_ids-IsTotal

  min_by-eq-second :
      (a b : Option (LogId CLID)) → IsUpTo b a → min_by (cmp_option cmp_log_id) a b ≡ b
  min_by-eq-second a b up = ground (arith, t.cmp_swap a b, t.cmp_eq a b)
    where
      t : IsTotal (Option (LogId CLID)) (cmp_option cmp_log_id)
      t = log_ids-IsTotal

  reaches_leader :
      (x : CLID) (r k : LogId CLID)
      → o.cmp x k.leader_id ≢ lt
      → IsUpTo (some r) (some k)
      → o.cmp x r.leader_id ≢ lt
  unfolding cmp_log_id
  reaches_leader x r k h u =
      ground (arith, o.cmp_eq r.leader_id k.leader_id, o.cmp_lt x r.leader_id k.leader_id)

  committed_under_lem :
      (c a : CLID) (accepted : Option (LogId CLID)) (k r : LogId CLID)
      → committed_under c a accepted k ≡ some r
      → ((o.cmp a c ≢ lt) × (o.cmp a k.leader_id ≢ lt))
        × (IsUpTo (some r) accepted × IsUpTo (some r) (some k))
  unfolding committed_under
  committed_under_lem c a accepted k r h =
      elim (Bool-cases (at_least (o.cmp a (max_by o.cmp c k.leader_id)))) [
        | inl e ↦ (
          max_by-reached a c k.leader_id e,
          min_by-bounded accepted (some k) (some r) (ground arith),
        )
        | inr e ↦ absurd (ground arith)
      ]

  committed_under-IsSafe :
      (r : LogId CLID) (cluster accepted : LogIoId LID CLID) (k : LogId CLID)
      → cluster.log_id ≡ some k
      → committed_under
          (to_committed cluster.committed_vote.leader_id)
          (to_committed accepted.committed_vote.leader_id)
          accepted.log_id
          k
        ≡ some r
      → IsSafe r cluster accepted
  unfolding committed_under
  committed_under-IsSafe r cluster accepted k e h =
      let (at, bounded) =
        committed_under_lem (to_committed cluster.committed_vote.leader_id)
          (to_committed accepted.committed_vote.leader_id) accepted.log_id k r h in
      let (to_vote, to_log) = at in
      record {
        within_accepted = bounded.0;
        within_cluster = λ q. bounded.1 (ground arith);
        vote_reached = to_vote;
        leader_reached =
            reaches_leader (to_committed accepted.committed_vote.leader_id) r k to_log bounded.1;
      }

  -- The locally committed log id is up to both the accepted log and the cluster's committed log,
  -- and the leader whose log was accepted is at least the one that committed, and at least the
  -- leader of the log id itself; without such an accepted log nothing is committed.
  pub calculate_local_committed-IsSafe :
      (s : IoState LID CLID) (r : LogId CLID)
      → calculate_local_committed s ≡ some r
      → (cluster : LogIoId LID CLID) × (accepted : LogIoId LID CLID) × (s.cluster_committed.value
          ≡ some cluster)
        × (s.log_progress.accepted ≡ some (log_io accepted))
        × IsSafe r cluster accepted
  unfolding calculate_local_committed calculate_from last_log_id to_committed_vote
  calculate_local_committed-IsSafe s r h =
      from s.cluster_committed.value s.log_progress.accepted refl refl h
    where
      none_committed : Option (LogId CLID)
      none_committed = none

      from_vote : (log_id : Option (LogId CLID)) → (log_id >>= λ k. none_committed) ≡ some r → ⊥
      from_vote none e = ground arith
      from_vote (some k) e = ground (arith, none_committed)

      from :
          (value : Option (LogIoId LID CLID)) (io : Option (IoId LID CLID))
          → s.cluster_committed.value ≡ value
          → s.log_progress.accepted ≡ io
          → (value >>= λ cluster. io >>= λ accepted. calculate_from cluster accepted) ≡ some r
          → (cluster : LogIoId LID CLID) × (accepted : LogIoId LID CLID)
            × (s.cluster_committed.value ≡ some cluster)
            × (s.log_progress.accepted ≡ some (log_io accepted))
            × IsSafe r cluster accepted
      from none io p q e = absurd (ground arith)
      from (some cluster) none p q e = absurd (ground arith)
      from (some cluster) (some (vote_io c)) p q e = absurd (from_vote cluster.log_id e)
      from (some cluster) (some (log_io accepted)) p q e = (
        cluster,
        accepted,
        p,
        q,
        elim (Option-cases cluster.log_id) [
          | inl n ↦ absurd (ground arith)
          | inr (k, w) ↦ committed_under-IsSafe r cluster accepted k w (ground arith)
        ],
      )

  -- A log id that the cluster has committed is committed locally, once a log up to it is accepted
  -- from a leader at least as great as the one that committed and as the leader of the log id.
  pub calculate_local_committed-eq-some :
      (s : IoState LID CLID) (cluster accepted : LogIoId LID CLID) (k : LogId CLID)
      → s.cluster_committed.value ≡ some cluster
      → s.log_progress.accepted ≡ some (log_io accepted)
      → cluster.log_id ≡ some k
      → IsUpTo (some k) accepted.log_id
      → o.cmp
          (to_committed accepted.committed_vote.leader_id)
          (to_committed cluster.committed_vote.leader_id)
        ≢ lt
      → o.cmp (to_committed accepted.committed_vote.leader_id) k.leader_id ≢ lt
      → calculate_local_committed s ≡ some k
  unfolding calculate_local_committed calculate_from committed_under last_log_id to_committed_vote
  calculate_local_committed-eq-some s cluster accepted k p q e up v w = rw (p, q, e) finish
    where
      finish :
          committed_under
            (to_committed cluster.committed_vote.leader_id)
            (to_committed accepted.committed_vote.leader_id)
            accepted.log_id
            k
          ≡ some k
      finish = ground (arith, v, w, min_by-eq-second accepted.log_id (some k) up)
