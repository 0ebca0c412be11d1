-- ===== src/RaftState/Fixtures.antt =====
-- A follower of three nodes, where node 3 is a learner. Its log has the logs 0 to 2 of the leader of
-- term 1 and the logs 3 to 4 of that of term 2; the logs up to 1 are committed.
use openraft.Prelude.{ℕ, true, false, Option, none, some, [], ◌∷◌, arith, leb}
use openraft.Prelude.Ord.{nat_ord}
use openraft.LogId.{LogId}
use openraft.LogIdList.{LogIdList}
use openraft.LogIdList.Valid.{IsValid}
use openraft.Vote.{Vote}
use openraft.Vote.LeaderId.{Std}
use openraft.IoState.{IoState}
use openraft.IoState.Progress.{IoProgress}
use openraft.IoState.Ids.{LogIoId, CommittedVote, log_io}
use openraft.Membership.{RaftMembership}
use openraft.MembershipState.{MembershipState, StoredMembership}
use openraft.RaftState.{RaftState, follower}

abbrev pub id : ℕ → ℕ → LogId ℕ
id leader index = record { leader_id = leader; index = index }

abbrev pub log : LogIdList ℕ
log = record { purged = none; key_log_ids = id 1 2 ∷ id 2 4 ∷ [] }

pub log-IsValid : IsValid log
log-IsValid = ground arith

abbrev pub std : ℕ → ℕ → Std
std term node = record { term = term; voted_for = node }

abbrev pub term_of : Std → ℕ
term_of leader = leader.term

abbrev pub granted : ℕ → ℕ → Vote Std
granted term node = record { leader_id = std term node; committed = true }

abbrev pub committed_vote : ℕ → ℕ → CommittedVote Std
committed_vote term node = record { leader_id = std term node }

abbrev pub log_io_id : ℕ → ℕ → Option (LogId ℕ) → LogIoId Std ℕ
log_io_id term node log_id = record { committed_vote = committed_vote term node; log_id = log_id }

-- a membership is the number of its nodes, whose first two vote
instance abbrev pub numbered : RaftMembership ℕ
numbered = record {
  get_node = λ nodes node. elim (leb node nodes) [
    | false ↦ none
    | true ↦ some (record {
      role = record { campaigner = leb node 2; receive_logs = true };
      is_read_voter = leb node 2;
      is_write_voter = leb node 2;
    })
  ];
}

abbrev pub stored : ℕ → ℕ → ℕ → StoredMembership ℕ ℕ
stored leader index nodes = record { log_id = some (id leader index); membership = nodes }

abbrev pub memberships : MembershipState ℕ ℕ
memberships = record { committed = stored 1 0 2; effective = stored 1 2 3 }

abbrev progress : ℕ → ℕ → IoProgress (LogId ℕ)
progress leader index = record {
  accepted = some (id leader index);
  submitted = none;
  flushed = none;
}

abbrev pub io : IoState Std ℕ
io = record {
  building_snapshot = false;
  log_progress = record {
    accepted = some (log_io (log_io_id 2 1 (some (id 2 4))));
    submitted = none;
    flushed = none;
  };
  apply_progress = progress 1 1;
  snapshot = record { accepted = none; submitted = none; flushed = none };
  cluster_committed = record { value = some (log_io_id 2 1 (some (id 2 3))) };
  purged = record { accepted = none; submitted = none; flushed = none };
}

abbrev pub node : RaftState Std ℕ ℕ
node = record {
  vote = granted 2 1;
  log_ids = log;
  membership_state = memberships;
  snapshot_meta = record { last_log_id = none; last_membership = stored 1 0 2 };
  last_inflight_id = 0;
  server_state = follower;
  io_state = io;
  purge_upto = none;
}
