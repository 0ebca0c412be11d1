-- ===== src/Engine/RequestTests.antt =====
-- The node of Engine/Fixtures.antt takes the requests of node 2, which leads in term 3, and does what
-- it does besides requests and elections.
use openraft.Prelude.{ℕ, ◌≡◌, ◌⊎◌, refl, true, false, none, some, List, [], ◌∷◌, arith}
use openraft.Prelude.Ord.{nat_ord}
use openraft.LogId.{cmp_log_id}
use openraft.LogIdList.{first_index, get, last}
use openraft.Vote.{ge, partial_cmp}
use openraft.Vote.LeaderId.{Std, std_leader_id, compare_std}
use openraft.MembershipState.Recent.{Entry, entry}
use openraft.RaftState.{RaftState}
use openraft.Following.{Following}
use openraft.Following.Sampling.{IsSampled, conflict_hint, conflict_hint-IsSampled}
use openraft.Engine.{Engine, save_committed_and_apply}
use openraft.Engine.Elections.{next_vote}
use openraft.Engine.Requests.{append_request, rejected_vote}
use openraft.Engine.Appends.{IsVotedAnswer, append_request_lem}
use openraft.Engine.Upkeep.{next_progress_driven_command, trigger_purge_log, startup}
use openraft.Engine.Applies.{IsNext, next_progress_driven_command-IsNext}
use openraft.Engine.Scheduled.{IsPurgeAnswer, trigger_purge_log_lem}
use openraft.Engine.Startup.{restores, IsFollowing, startup_lem}
use openraft.Engine.Initialize.{IsFirst, not_allowed, append_first, initialize, initialize_lem}
use openraft.MembershipState.Checks.{ChangeableMembership}
use openraft.MembershipState.Next.{failure}
use openraft.Quorum.{shares, contains}
use openraft.Quorum.Count.{shares_intro}
use openraft.RaftState.Fixtures.{
  id, numbered, log, log-IsValid, node, committed_vote, granted, stored,
}
use openraft.Engine.Fixtures.{
  vec_progress, clock_progress, entry_item, both_voters, two_voters, tally, env, engine, Vec, Clock,
  Votes,
}

abbrev entries : List (Entry ℕ ℕ)
entries = entry (id 3 5) none ∷ entry (id 3 6) none ∷ []

append_request_lem_example :
    ((ge (granted 3 2) engine.state.vote ≡ false)
      × (append_request env engine (granted 3 2) (some (id 2 4)) entries
          ≡ (engine, rejected_vote engine.state.vote)))
    ⊎ ((ge (granted 3 2) engine.state.vote ≡ true)
        × ((append_request env engine (granted 3 2) (some (id 2 4)) entries).0.leader ≡ none)
        × IsVotedAnswer node
            (some (id 2 4))
            entries
            (append_request env engine (granted 3 2) (some (id 2 4)) entries))
unfolding get first_index cmp_log_id std_leader_id
append_request_lem_example =
    append_request_lem env engine (granted 3 2) (some (id 2 4)) entries (λ h. cc) log-IsValid
      (ground arith) (λ h. ground arith) (refl, refl, (refl, refl, tt))
      ((λ h. ground arith), ((λ h. ground arith), tt))

abbrev follower_handler : Following Std ℕ ℕ
follower_handler = record { leader_vote = committed_vote 3 2; id = 1; state = node; output = [] }

conflict_hint-IsSampled_example :
    IsSampled log (some (id 1 1)) (conflict_hint follower_handler).log_ids
conflict_hint-IsSampled_example =
    conflict_hint-IsSampled follower_handler log-IsValid (unfold first_index in ground arith)

hinted : (conflict_hint follower_handler).log_ids ≡ id 1 1 ∷ id 1 2 ∷ id 2 4 ∷ []
unfolding conflict_hint
hinted = refl

-- the log IO of term 2 is submitted, up to log 4
abbrev submitting : RaftState Std ℕ ℕ
submitting = record node {
  io_state = record node.io_state {
    log_progress = record node.io_state.log_progress {
      submitted = node.io_state.log_progress.accepted;
    };
  };
}

next_progress_driven_command-IsNext_example :
    IsNext submitting (next_progress_driven_command submitting)
next_progress_driven_command-IsNext_example = next_progress_driven_command-IsNext submitting

applied : next_progress_driven_command submitting ≡ some (save_committed_and_apply none (id 1 1))
unfolding next_progress_driven_command cmp_log_id std_leader_id compare_std partial_cmp ge
applied = refl

-- a snapshot up to log 3
abbrev with_snapshot : Engine Std ℕ ℕ Vec Clock Votes
with_snapshot = record engine {
  state = record node {
    snapshot_meta = record { last_log_id = some (id 2 3); last_membership = stored 1 0 2 };
  };
}

trigger_purge_log_lem_example : IsPurgeAnswer with_snapshot 7 (trigger_purge_log with_snapshot 7)
trigger_purge_log_lem_example =
    trigger_purge_log_lem with_snapshot 7 log-IsValid (unfold first_index in omega arith)
      (omega arith) (unfold last in omega arith)

startup_lem_example :
    ((restores env engine ≡ false) × IsFollowing env engine (startup env engine))
    ⊎ ((restores env engine ≡ true) × ((startup env engine).state.vote ≡ next_vote env engine))
unfolding std_leader_id
startup_lem_example = startup_lem env engine (λ term node_id. refl) refl

-- whatever the membership, both voters make a quorum of it
both_shares :
    (xs ys : List ℕ)
    → both_voters.is_quorum xs ≡ true
    → both_voters.is_quorum ys ≡ true
    → shares xs ys ≡ true
both_shares xs ys h k = shares_intro xs ys 1 (ground arith) (ground arith)

abbrev changes : ChangeableMembership ℕ
changes = record {
  read_write_quorums_intersect = λ nodes. some true;
  supports_direct_transition_to = λ nodes other. true;
  joint_with = λ nodes goal. goal;
  same_node = λ nodes goal node. true;
  shares-read_write = λ nodes xs ys h. both_shares xs ys;
  shares-direct_read = λ nodes other xs ys h. both_shares xs ys;
  shares-direct_write = λ nodes other xs ys h. both_shares xs ys;
  read-joint_with = λ nodes goal xs h. (h, h);
  write-joint_with = λ nodes goal xs h. (h, h);
}

-- node 1 with neither a log nor a vote
abbrev pristine : Engine Std ℕ ℕ Vec Clock Votes
pristine = record engine {
  state = record node { vote = granted 0 0; log_ids = record { purged = none; key_log_ids = [] } };
}

initialize_lem_example :
    IsFirst ⦃h = changes⦄ ℕ env pristine 2 (append_first env pristine 2)
    × (initialize ⦃h = changes⦄ ℕ env (append_first env pristine 2) 3
        ≡ failure (not_allowed (some (id 0 0)) (granted 0 1)))
unfolding initialize std_leader_id contains
initialize_lem_example =
    initialize_lem ⦃h = changes⦄ ℕ env pristine (append_first env pristine 2) 2 3 refl
