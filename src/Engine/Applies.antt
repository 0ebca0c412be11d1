-- ===== src/Engine/Applies.antt =====
-- openraft/src/engine/engine_impl.rs: which committed logs `next_progress_driven_command` applies.
use openraft.Prelude.{
  suc, ◌≤◌, ◌<◌, ◌≡◌, ◌⊎◌, refl, sym, subst, true, false, Option, none, some, arith, inl, inr,
  Bool-cases, ltb, ltb→lt,
}
use openraft.Prelude.Ord.{Ord, IsTotal, cmp_option}
use openraft.LogId.{LogId, next_index, cmp_log_id}
use openraft.Vote.LeaderId.{RaftLeaderId}
use openraft.IoState.Committed.{min_by}
use openraft.IoState.Ids.{log_ids-IsTotal}
use openraft.MembershipState.{log_id_le}
use openraft.RaftState.{RaftState}
use openraft.Engine.{Command, save_committed_and_apply}
use openraft.Engine.Upkeep.{
  next_progress_driven_command, applicable_upto, apply_command, same_io_vote, io_log_id,
}

module _ {CLID : Type 0} ⦃o : Ord CLID⦄ where
  min_by-le :
      (a b c : Option (LogId CLID))
      → min_by (cmp_option cmp_log_id) a b ≡ c
      → (log_id_le c a ≡ true) × (log_id_le c b ≡ true)
  min_by-le a b c h = ground (arith, t.cmp_swap a b, t.cmp_self a, t.cmp_self b)
    where
      t : IsTotal (Option (LogId CLID)) (cmp_option cmp_log_id)
      t = log_ids-IsTotal

module _ {LID CLID Mem : Type 0} ⦃l : RaftLeaderId LID⦄ ⦃o : Ord CLID⦄ where
  -- the logs up to `upto` may be applied after those that are submitted
  pub record IsApplicable (s : RaftState LID CLID Mem) (upto : LogId CLID) : Type 0 where
    pub same_leader :
        same_io_vote s.io_state.log_progress.submitted s.io_state.log_progress.accepted ≡ true
    pub after_snapshot :
        next_index s.io_state.snapshot.accepted ≤ next_index s.io_state.apply_progress.submitted
    pub beyond : next_index s.io_state.apply_progress.submitted ≤ upto.index
    pub committed : log_id_le (some upto) s.io_state.apply_progress.accepted ≡ true
    pub submitted : log_id_le (some upto) (io_log_id s.io_state.log_progress.submitted) ≡ true

  -- no logs may be applied
  abbrev pub IsBlocked : RaftState LID CLID Mem → Type 0
  IsBlocked s =
      (same_io_vote s.io_state.log_progress.submitted s.io_state.log_progress.accepted ≡ false)
      ⊎ ((next_index s.io_state.apply_progress.submitted < next_index s.io_state.snapshot.accepted)
          ⊎ (next_index (applicable_upto s) ≤ next_index s.io_state.apply_progress.submitted))

  abbrev pub IsNext : RaftState LID CLID Mem → Option (Command LID CLID Mem) → Type 0
  IsNext s command =
      ((command ≡ none) × IsBlocked s)
      ⊎ ((upto : LogId CLID) × (command
            ≡ some (save_committed_and_apply s.io_state.apply_progress.submitted upto))
          × IsApplicable s upto)

  apply_command-IsNext :
      (s : RaftState LID CLID Mem) (found : Option (LogId CLID))
      → same_io_vote s.io_state.log_progress.submitted s.io_state.log_progress.accepted ≡ true
      → next_index s.io_state.snapshot.accepted ≤ next_index s.io_state.apply_progress.submitted
      → applicable_upto s ≡ found
      → IsNext s (apply_command s.io_state.apply_progress.submitted found)
  unfolding apply_command applicable_upto
  apply_command-IsNext s none same after q = inl (refl, inr (inr (rw q (omega arith))))
  apply_command-IsNext s (some upto) same after q =
      elim (Bool-cases (ltb (next_index s.io_state.apply_progress.submitted) (suc upto.index))) [
        | inl e ↦ inr (
          upto,
          rw e refl,
          record {
            same_leader = same;
            after_snapshot = after;
            beyond = ground (arith, e);
            committed = (min_by-le _ _ (some upto) q).1;
            submitted = (min_by-le _ _ (some upto) q).0;
          },
        )
        | inr e ↦ inl (rw e refl, inr (inr (rw q (ground (arith, e)))))
      ]

  -- The command applies logs that come after the submitted ones and after the accepted snapshot, up
  -- to a log id that is committed and is written by the leader of the accepted log IO. There is no
  -- command exactly if the submitted log IO is of another vote than the accepted one, a newer
  -- snapshot is accepted, or no such log is left.
  pub next_progress_driven_command-IsNext :
      (s : RaftState LID CLID Mem) → IsNext s (next_progress_driven_command s)
  unfolding next_progress_driven_command
  next_progress_driven_command-IsNext s =
      elim (Bool-cases
        (same_io_vote s.io_state.log_progress.submitted s.io_state.log_progress.accepted)) [
          | inr e ↦ inl (rw e refl, inl e)
          | inl e ↦
              elim (Bool-cases (
                ltb (next_index s.io_state.apply_progress.submitted)
                  (next_index s.io_state.snapshot.accepted))) [
                    | inl q ↦ inl (rw (e, q) refl, inr (inl (ltb→lt _ _ q)))
                    | inr q ↦
                        subst (IsNext s) (sym (rw (next_progress_driven_command, e, q) refl))
                          (apply_command-IsNext s (applicable_upto s) e (ground (arith, q)) refl)
                  ]
        ]
