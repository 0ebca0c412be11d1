-- ===== src/IoState.antt =====
-- openraft/src/raft_state/io_state.rs and io_state/: how far each kind of IO has come, and the
-- locally committed log id. The name and the id that an `IOProgress` prints are left out.
pub mod PartialOrd
pub mod Progress
pub mod Monotonic
pub mod Ids
pub mod Committed
mod Tests
use openraft.Prelude.{Bool, true, false, Option, none, some}
use openraft.Prelude.Ord.{Ord}
use openraft.LogId.{LogId}
use openraft.Vote.LeaderId.{RaftLeaderId}
use openraft.Vote.{Vote}
use openraft.IoState.Progress.{IoProgress, new_synchronized}
use openraft.IoState.Monotonic.{MonotonicIncrease}
use openraft.IoState.Ids.{IoId, LogIoId, io_id_of_vote}

pub record IoState (LID CLID : Type 0) : Type 0 where
  pub building_snapshot : Bool
  pub log_progress : IoProgress (IoId LID CLID)
  pub apply_progress : IoProgress (LogId CLID)
  pub snapshot : IoProgress (LogId CLID)
  pub cluster_committed : MonotonicIncrease (LogIoId LID CLID)
  pub purged : IoProgress (LogId CLID)

-- `IOState::new`
unfoldable pub new_io_state :
    {LID CLID : Type 0}
    → Vote LID
    → Option (LogId CLID)
    → Option (LogId CLID)
    → Option (LogId CLID)
    → IoState LID CLID
unfolding new_synchronized io_id_of_vote
new_io_state vote applied snapshot purged = record {
  building_snapshot = false;
  log_progress = new_synchronized (some (io_id_of_vote vote));
  apply_progress = new_synchronized applied;
  snapshot = new_synchronized snapshot;
  cluster_committed = record { value = none };
  purged = new_synchronized purged;
}
