-- ===== src/Progress/Tests.antt =====
-- The progress of a node whose log the leader searches: the matching log is known to lie at or after
-- log 1 and before log 4, and the leader has the logs 0 to 4.
use openraft.Prelude.{ℕ, ◌≡◌, ◌<◌, refl, true, false, none, some, arith}
use openraft.Prelude.Ord.{nat_ord}
use openraft.LogId.{cmp_log_id}
use openraft.LogIdList.{last, first_index}
use openraft.RaftState.{last_log_id, new_inflight_id}
use openraft.Progress.Inflight.{Inflight, nothing, probe}
use openraft.Progress.Entry.{ProgressEntry, IsValid}
use openraft.Progress.Update.{update_matching, update_conflicting}
use openraft.Progress.Send.{Choice, next_send, next_send-Choice}
use openraft.Progress.Response.{update_matching-IsValid, update_conflicting-probe}
use openraft.RaftState.Fixtures.{id, node, log-IsValid}

abbrev sending : Inflight ℕ → ProgressEntry ℕ
sending inflight = record {
  id = 2;
  matching = some (id 1 1);
  progress_data = record {
    stream_id = 1;
    inflight = inflight;
    searching_end = 4;
    probe_start = none;
    allow_log_reversion = false;
  };
}

abbrev probing : Inflight ℕ
probing = probe (record { prev = some (id 1 2); last = some (id 2 4) }) 7

probing-IsValid : IsValid (sending probing)
unfolding cmp_log_id
probing-IsValid = record {
  matching_below = ground arith;
  inflight_ordered = refl;
  inflight_within = (refl, ground arith);
}

next_send-Choice_example :
    Choice
      (new_inflight_id node).0
      (sending nothing)
      16
      1
      (next_send node (sending nothing) 16).1.progress_data.inflight
next_send-Choice_example =
    next_send-Choice node (sending nothing) 16 log-IsValid (unfold first_index in omega arith) refl
      (ground arith) (ground arith) (unfold last_log_id last in ground arith)

update_matching-IsValid_example :
    IsValid (update_matching (sending probing) (some (id 2 4)) (some 7))
update_matching-IsValid_example =
    update_matching-IsValid (sending probing) (some (id 2 4)) 7 probing-IsValid
      (unfold cmp_log_id in refl)

update_conflicting-probe_example :
    (narrowed : ProgressEntry ℕ) × (update_conflicting false (sending probing) 2 (some 7)
      ≡ some (narrowed, true))
    × IsValid narrowed
    × (narrowed.matching ≡ some (id 1 1))
    × (narrowed.progress_data.searching_end ≡ 2)
    × (2 < 4)
update_conflicting-probe_example =
    update_conflicting-probe false (sending probing) (id 1 2) (some (id 2 4)) 7 refl probing-IsValid
      (ground arith)
