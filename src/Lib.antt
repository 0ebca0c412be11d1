-- ===== src/Lib.antt =====
-- The core of openraft, a Raft library: the decisions that a node takes without doing any IO. The
-- engine (openraft/src/engine) keeps the state of a node (openraft/src/raft_state), changes it by
-- handlers, and leaves commands for the runtime; quorum rules (membership/src) decide which sets of
-- nodes may elect or commit. A follower takes votes and entries: the log ids of its log are kept in
-- a compressed list, and a commit waits until the log of a leader at least as great is accepted. A
-- leader keeps, for every node, a progress that searches where the logs match and says what to send
-- next.
--
-- The files, in the order of their dependence:
--   Prelude: names of the library that all files share, Boolean tests, lists, and `Ord`.
--   Vote (openraft/src/vote): the partial order of votes, over the interface `RaftLeaderId` that
--     `leader_id_std` (`Std`) and `leader_id_adv` (`Adv`) implement.
--   LogId (openraft/src/log_id): log ids and their order, `cmp_log_id`.
--   LogIdList (openraft/src/engine/log_id_list.rs): `append`, `truncate`, `purge`, `get`. Runs
--     has the lemmas on the runs of one leader, Valid the invariant, View what `get` sees after
--     each operation, Full and Refines the plain list of log ids that it stands for, Rebuild that it
--     is built from it again, Load the bisection `get_key_log_ids` that reads the list from a store, and
--     Leaders what it answers of one leader.
--   LeaderLogIds (openraft/src/engine/leader_log_ids.rs and leader_log_ids_iter.rs): a range of log
--     ids of one leader, and its iterator.
--   Quorum (membership/src): threshold, weighted, grid and joint rules, `is_quorum` and
--     `intersects_with`, over the interfaces `QuorumSet` and `QuorumIntersection`.
--   IoState (openraft/src/raft_state/io_state.rs and io_state/): the cursors of each IO, the
--     partial order of IO ids, and `calculate_local_committed`.
--   Membership (openraft/src/membership): the roles of a node, over the interface `RaftMembership`.
--   MembershipState (openraft/src/raft_state/membership_state): the committed and the effective
--     membership; Recent has `last_two_memberships`, Checks the checks of
--     openraft/src/membership/raft_membership_ext.rs over the interface `ChangeableMembership`, Next
--     the next membership of a change, and Steps what its steps give.
--   MemberConfig (membership/src/config.rs, config/joint_config.rs, node_change.rs): one config, and a
--     joint of configs (Joined, Edits), which implements that interface (Interface); Roles, Active,
--     Demoted and Change have the theorems.
--   RaftState (openraft/src/raft_state/mod.rs, log_state_reader.rs): the state of a node, its
--     server state (Server), and what it answers of its log (Log).
--   Following (openraft/src/engine/handler/following_handler, with server_state_handler,
--     snapshot_handler and log_handler): a follower appends (Append), truncates (Truncate) and
--     installs snapshots (Snapshot, Install); Matching is about a request as a whole (Holding
--     about its previous log id), and Sampling has the hint of a conflict.
--   VoteHandler (openraft/src/engine/handler/vote_handler): what granting a vote changes.
--   Progress (openraft/src/progress): the request in flight (Inflight), a node's progress (Entry),
--     how responses move it (Update, Response), and `next_send` (Send).
--   VecProgress: the progress of all nodes, an interface to the crate `quorum_set`.
--   Leader, Candidate (openraft/src/proposer): who proposes logs and who asks for votes; the counting
--     of votes is the interface `Tally`.
--   Lease (openraft/src/utime.rs): the lease beside a vote.
--   Replication (openraft/src/engine/handler: replication_handler, leader_handler, log_handler): a
--     leader commits (Commit), purges (Purge), searches the log of a node with the samples of its
--     conflict (Hint, from openraft/src/raft/message/conflict_hint.rs, and Search), rebuilds its
--     streams and appends (Streams, Kept, Appended).
--   Engine (openraft/src/engine/engine_impl.rs, vote_handler, establish_handler): the engine takes
--     votes (Votes), campaigns and answers (Elections, Campaign, Answers). Moves has the steps of a
--     node in elections, and at requests to append, as a relation (Raises and Kept compare their
--     votes), and Safety what it gives for the votes that win. Initialize has the first membership
--     of a node. Requests has the requests of a leader, and Appends what they do; Upkeep has purges,
--     snapshots, the transfer of leadership, the start and the application of logs, with Scheduled,
--     Startup and Applies.
--   Each Tests file runs the definitions and applies the theorems at concrete values.
--
-- How the code is read. A method that changes `self` is a function to the new value, with its
-- answer beside it; a handler's queue of commands is a list in its record; `Arc`, borrowing,
-- logging and display leave no trace. `assert!`, `unreachable!` and `panic!` are `none` of an
-- `Option`, but for an `unwrap` of what the code says is there, whose comment tells what the model
-- does, and for the `unreachable!` of `send_to_target`, where no command is pushed. Debug
-- assertions are not run, and are hypotheses where a theorem needs them. Indexes, terms and node
-- ids are unsigned integers without a bound, except where the code saturates (the weights of
-- Quorum/Weighted) and in the sum of `calc_purge_upto`, which is checked as in a debug build. The
-- committed leader id is a type with a total order `Ord`, and `to_committed` is a parameter that
-- takes a leader id to it; a membership is a type with `get_node`.
--
-- The crate `quorum_set`, whose source is not in the repository, is interfaces: `VecProgress`,
-- `ClockProgress` and `Tally`, and `QuorumMembership` for the rules of a membership, with what its
-- documentation says as laws; Engine/Fixtures has an implementation of each. The present time, the
-- stream ids and the leader id's constructor are the record `Env`, the same through one call of the
-- engine.
--
-- Loops are structural, except the bisection of LogIdList/Load, which runs on rounds: `2 * (stop -
-- start) + 2` of them are enough, as every round drops an interval or splits one in two, and the
-- iteration of LeaderLogIds, which runs on as many steps as the range is long.
--
-- Not modelled: the memberships of each rule and their edits (membership/src:
-- explicit, hierarchical, threshold, weighted, grid) and the majority-based membership; the runtime
-- (openraft/src/core, openraft/src/replication, openraft/src/raft), which is asynchronous IO; storage
-- and network, which are traits of the application; timers.
pub mod Prelude
pub mod Vote
pub mod LogId
pub mod LogIdList
pub mod LeaderLogIds
pub mod Quorum
pub mod IoState
pub mod MembershipState
pub mod Membership
pub mod MemberConfig
pub mod RaftState
pub mod Following
pub mod Progress
pub mod VoteHandler
pub mod VecProgress
pub mod Leader
pub mod Replication
pub mod Lease
pub mod Candidate
pub mod Engine
