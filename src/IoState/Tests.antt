-- ===== src/IoState/Tests.antt =====
-- The IO state at concrete values: the leader of term 2 commits while its logs are accepted.
use openraft.Prelude.{ℕ, ◌≡◌, refl, some, arith}
use openraft.Prelude.Ord.{nat_ord}
use openraft.LogId.{cmp_log_id}
use openraft.Vote.LeaderId.{Std, std_leader_id}
use openraft.IoState.PartialOrd.{PartialOrd, total_partial_ord}
use openraft.IoState.Progress as Progresses
use openraft.IoState.Progress.{IoProgress, stages-IsValid, accept, submit, flush}
use openraft.IoState.Ids.{LogIoId, log_io}
use openraft.IoState.Committed.{
  calculate_local_committed, calculate_local_committed-IsSafe, calculate_local_committed-eq-some,
  IsSafe,
}
use openraft.RaftState.Fixtures.{id, io, log_io_id, term_of}

local : calculate_local_committed term_of io ≡ some (id 2 3)
unfolding calculate_local_committed cmp_log_id
local = refl

calculate_local_committed-IsSafe_example :
    (cluster : LogIoId Std ℕ) × (accepted : LogIoId Std ℕ) × (io.cluster_committed.value
      ≡ some cluster)
    × (io.log_progress.accepted ≡ some (log_io accepted))
    × IsSafe term_of (id 2 3) cluster accepted
calculate_local_committed-IsSafe_example =
    calculate_local_committed-IsSafe term_of io (id 2 3) local

calculate_local_committed-eq-some_example : calculate_local_committed term_of io ≡ some (id 2 3)
calculate_local_committed-eq-some_example =
    calculate_local_committed-eq-some term_of io (log_io_id 2 1 (some (id 2 3)))
      (log_io_id 2 1 (some (id 2 4))) (id 2 3) refl refl refl (unfold cmp_log_id in ground arith)
      (ground arith) (ground arith)

instance abbrev numbers : PartialOrd ℕ
numbers = total_partial_ord

abbrev synchronized : IoProgress ℕ
synchronized = record { accepted = some 3; submitted = some 2; flushed = some 1 }

synchronized-IsValid : Progresses.IsValid synchronized
synchronized-IsValid = record { flushed_le = refl; submitted_le = refl }
