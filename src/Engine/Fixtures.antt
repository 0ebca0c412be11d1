-- ===== src/Engine/Fixtures.antt =====
-- The node of RaftState/Fixtures.antt as a leader and as a voter, with concrete progresses: two voters,
-- 1 and 2, of which both make a quorum.
use openraft.Prelude.{
  ℕ, ◌≡◌, ◌⊎◌, refl, ap, subst, Bool, true, false, Option, none, some, List, [], ◌∷◌, ◌++◌, map,
  if◌then◌else◌, ◌==◌, ◌&&◌, inl, inr, Bool-cases, arith,
}
use openraft.Prelude.Ord.{nat_ord}
use openraft.LogId.{LogId}
use openraft.Vote.LeaderId.{Std}
use openraft.MembershipState.{log_id_le, log_id_lt}
use openraft.Quorum.{contains, IsWithin}
use openraft.Progress.Inflight.{nothing}
use openraft.Progress.Entry.{ProgressEntry}
use openraft.VecProgress.{QuorumRule, ProgressItem, VecProgress, ClockProgress, SendStamp, reached}
use openraft.Leader.{QuorumMembership}
use openraft.Candidate.{Tally, Env}
use openraft.Replication.{Config, Replication}
use openraft.Engine.{Engine, VoteRequest}
use openraft.RaftState.Fixtures.{id, std, committed_vote, term_of, node}

instance abbrev pub entry_item : ProgressItem (ProgressEntry ℕ) (Option (LogId ℕ))
entry_item = record {
  item_id = λ e. e.id;
  value = λ e. e.matching;
  at_least = λ a b. log_id_le b a;
}

-- a progress: its rule, its entries, and the accepted value
pub record Vec : Type 0 where
  pub rule : QuorumRule
  pub entries : List (ProgressEntry ℕ)
  pub accepted : Option (LogId ℕ)

abbrev find : ℕ → List (ProgressEntry ℕ) → Option (ProgressEntry ℕ)
find node_id [] = none
find node_id (e ∷ es) = if e.id == node_id then some e else find node_id es

abbrev replace :
    ℕ → (ProgressEntry ℕ → ProgressEntry ℕ) → List (ProgressEntry ℕ) → List (ProgressEntry ℕ)
replace node_id f [] = []
replace node_id f (e ∷ es) = if e.id == node_id then f e ∷ es else e ∷ replace node_id f es

abbrev replaced : Vec → ℕ → (ProgressEntry ℕ → ProgressEntry ℕ) → Vec
replaced p node_id f = record p { entries = replace node_id f p.entries }

-- the accepted value, once the value `v` is reached
abbrev accept_reached : Vec → Option (LogId ℕ) → Vec
accept_reached p v =
    if p.rule.is_quorum (reached v p.entries) && log_id_lt p.accepted v
    then record p { accepted = v }
    else p

abbrev update_found :
    Vec → ℕ → (ProgressEntry ℕ → ProgressEntry ℕ) → Option (ProgressEntry ℕ) → Option Vec
update_found p node_id f none = none
update_found p node_id f (some e) = some (accept_reached (replaced p node_id f) (f e).matching)

abbrev replace_found :
    Vec → ℕ → (ProgressEntry ℕ → ProgressEntry ℕ) → Option (ProgressEntry ℕ) → Option Vec
replace_found p node_id f none = none
replace_found p node_id f (some e) = some (replaced p node_id f)

accept_reached-lem :
    (p : Vec) (v : Option (LogId ℕ))
    → ((accept_reached p v).accepted ≡ p.accepted)
      ⊎ ((accept_reached p v).rule.is_quorum
            (reached (accept_reached p v).accepted (accept_reached p v).entries)
          ≡ true)
accept_reached-lem p v =
    elim (Bool-cases (p.rule.is_quorum (reached v p.entries) && log_id_lt p.accepted v)) [
      | inl q ↦ inr (rw q (ground arith))
      | inr q ↦ inl (rw q refl)
    ]

unwrapped : {A : Type 0} {x y : A} → some x ≡ some y → x ≡ y
unwrapped {A} {x} h = ap (λ o. elim o as (λ p. A) [ none ↦ x | some z ↦ z ]) h

pub update_found-lem :
    (p : Vec) (node_id : ℕ) (f : ProgressEntry ℕ → ProgressEntry ℕ)
    (found : Option (ProgressEntry ℕ)) {p' : Vec}
    → update_found p node_id f found ≡ some p'
    → (p'.accepted ≡ p.accepted) ⊎ (p'.rule.is_quorum (reached p'.accepted p'.entries) ≡ true)
update_found-lem p node_id f none h = cc
update_found-lem p node_id f (some e) h =
    subst
      (λ x. (x.accepted ≡ p.accepted) ⊎ (x.rule.is_quorum (reached x.accepted x.entries) ≡ true))
      (unwrapped h) (accept_reached-lem (replaced p node_id f) (f e).matching)

pub replace_found-lem :
    (p : Vec) (node_id : ℕ) (f : ProgressEntry ℕ → ProgressEntry ℕ)
    (found : Option (ProgressEntry ℕ)) {p' : Vec}
    → replace_found p node_id f found ≡ some p'
    → p'.accepted ≡ p.accepted
replace_found-lem p node_id f none h = cc
replace_found-lem p node_id f (some e) h = subst (λ x. x.accepted ≡ p.accepted) (unwrapped h) refl

instance abbrev pub vec_progress : VecProgress Vec (ProgressEntry ℕ) (Option (LogId ℕ))
vec_progress = record {
  new = λ rule others f. record {
    rule = rule;
    entries = map f (rule.ids ++ others);
    accepted = none;
  };
  upgrade_quorum_set = λ p rule others f. record {
    rule = rule;
    entries =
        map (λ node_id. elim (find node_id p.entries) [ none ↦ f node_id | some e ↦ e ])
          (rule.ids ++ others);
    accepted = p.accepted;
  };
  quorum_set = λ p. p.rule;
  quorum_accepted = λ p. p.accepted;
  try_get = λ p node_id. find node_id p.entries;
  iter = λ p. p.entries;
  with_entries = λ p es. record p { entries = es };
  update_entry_with = λ p node_id f. update_found p node_id f (find node_id p.entries);
  reset_entry_with = λ p node_id f. replace_found p node_id f (find node_id p.entries);
  update_data_with = λ p node_id f. replace_found p node_id f (find node_id p.entries);
  iter-with_entries = λ p es. refl;
  quorum_accepted-with_entries = λ p es. refl;
  quorum_accepted-reset =
      λ p node_id f {p'} h. replace_found-lem p node_id f (find node_id p.entries) h;
  quorum_accepted-update =
      λ p node_id f {p'} h. update_found-lem p node_id f (find node_id p.entries) h;
}

pub record Clock : Type 0 where
  pub rule : QuorumRule
  pub accepted : Option SendStamp

instance abbrev pub clock_progress : ClockProgress Clock
clock_progress = record {
  new = λ rule others. record { rule = rule; accepted = none };
  upgrade_quorum_set = λ p rule others. record p { rule = rule };
  quorum_set = λ p. p.rule;
  quorum_accepted = λ p. p.accepted;
  try_get = λ p node_id. if contains p.rule.ids node_id then some p.accepted else none;
  increase_to =
      λ p node_id v. if contains p.rule.ids node_id then some (record p { accepted = v }) else none;
}

-- the granted votes of a rule
pub record Votes : Type 0 where
  pub rule : QuorumRule
  pub granters : List ℕ

abbrev with_answer : Bool → Votes → Bool → Option (Votes × Bool)
with_answer false v granted = none
with_answer true v granted = some (v, granted)

abbrev granted_by : Votes → ℕ → Option (Votes × Bool)
granted_by v node_id =
    with_answer (contains v.rule.ids node_id) (record v { granters = node_id ∷ v.granters })
      (v.rule.is_quorum (node_id ∷ v.granters))

-- the answer of a grant, if there is one
answer_of :
    (known : Bool) {w v' : Votes} {b granted : Bool}
    → with_answer known w b ≡ some (v', granted)
    → (w ≡ v') × (b ≡ granted)
answer_of false h = cc
answer_of true {w} {v'} {b} {granted} h = (ap (λ a. a.0) pair, ap (λ a. a.1) pair)
  where
    pair : ◌≡◌ {A = Votes × Bool} (w, b) (v', granted)
    pair = unwrapped h

granted_by-lem :
    (v : Votes) (node_id : ℕ) {v' : Votes} {granted : Bool}
    → granted_by v node_id ≡ some (v', granted)
    → (record v { granters = node_id ∷ v.granters } ≡ v')
      × (v.rule.is_quorum (node_id ∷ v.granters) ≡ granted)
granted_by-lem v node_id h = answer_of (contains v.rule.ids node_id) h

pub granted_by-IsWithin :
    (v : Votes) (node_id : ℕ) {v' : Votes} {granted : Bool}
    → granted_by v node_id ≡ some (v', granted)
    → IsWithin v'.granters (node_id ∷ v.granters)
granted_by-IsWithin v node_id h =
    subst (λ (x : Votes). IsWithin x.granters (node_id ∷ v.granters)) (granted_by-lem v node_id h).0
      (λ w e. e)

pub granted_by-rule :
    (v : Votes) (node_id : ℕ) {v' : Votes} {granted : Bool}
    → granted_by v node_id ≡ some (v', granted)
    → v'.rule ≡ v.rule
granted_by-rule v node_id h =
    subst (λ (x : Votes). x.rule ≡ v.rule) (granted_by-lem v node_id h).0 refl

pub granted_by_sound :
    (v : Votes) (node_id : ℕ) {v' : Votes}
    → granted_by v node_id ≡ some (v', true)
    → v'.rule.is_quorum v'.granters ≡ true
granted_by_sound v node_id h =
    subst (λ (x : Votes). x.rule.is_quorum x.granters ≡ true) (granted_by-lem v node_id h).0
      (granted_by-lem v node_id h).1

instance abbrev pub tally : Tally Votes
tally = record {
  new = λ rule. record { rule = rule; granters = [] };
  grant = granted_by;
  quorum_set = λ v. v.rule;
  granters = λ v. v.granters;
  granters-new = λ rule. refl;
  quorum_set-new = λ rule. refl;
  granters-grant = λ v node_id {v'} {granted} h. granted_by-IsWithin v node_id h;
  quorum_set-grant = λ v node_id {v'} {granted} h. granted_by-rule v node_id h;
  granted_sound = λ v node_id {v'} h. granted_by_sound v node_id h;
}

-- both of the voters
abbrev pub both_voters : QuorumRule
both_voters = record { ids = 1 ∷ 2 ∷ []; is_quorum = λ ids. contains ids 1 && contains ids 2 }

instance abbrev pub two_voters : QuorumMembership ℕ
two_voters = record {
  read_quorum_set = λ nodes. both_voters;
  write_quorum_set = λ nodes. both_voters;
  node_ids = λ nodes. 1 ∷ 2 ∷ 3 ∷ [];
}

abbrev pub env : Env Std ℕ
env = record {
  to_committed = term_of;
  make = std;
  totally_ordered = false;
  both = λ p q. record { ids = p.ids; is_quorum = λ ids. p.is_quorum ids && q.is_quorum ids };
  stream_ids = λ node_id. node_id;
  now = 100;
}

abbrev pub config : Config
config = record {
  id = 1;
  max_in_snapshot_log_to_keep = 1;
  purge_batch_size = 1;
  allow_log_reversion = false;
}

abbrev pub engine : Engine Std ℕ ℕ Vec Clock Votes
engine = record {
  config = config;
  leader_lease = 10;
  election_timeout = 20;
  enable_leader_restore = true;
  state = node;
  vote_lease = record { last_update = none; lease = 0; lease_enabled = true };
  seen_greater_log = none;
  leader = none;
  candidate = none;
  pre_candidate = none;
  output = [];
}

-- node 2 asks for the vote of term 3
abbrev pub request : VoteRequest Std ℕ
request = record {
  vote = record { leader_id = std 3 2; committed = false };
  last_log_id = some (id 2 4);
  leadership_transfer_from = none;
}

-- an entry whose node matches up to a log id
abbrev pub entry_of : ℕ → Option (LogId ℕ) → ProgressEntry ℕ
entry_of node matching = record {
  id = node;
  matching = matching;
  progress_data = record {
    stream_id = node;
    inflight = nothing;
    searching_end = 5;
    probe_start = none;
    allow_log_reversion = false;
  };
}

-- the leader of term 2, whose own log is matched up to log 4, and whose log 1 is accepted
abbrev pub leading : Replication Std ℕ ℕ Vec Clock
leading = record {
  config = config;
  leader = record {
    transfer_to = none;
    committed_vote = committed_vote 2 1;
    next_heartbeat = 0;
    heartbeat_round = 0;
    last_log_id = some (id 2 4);
    noop_log_id = id 2 3;
    progress = record {
      rule = both_voters;
      entries = entry_of 1 (some (id 2 4)) ∷ entry_of 2 (some (id 1 1)) ∷ entry_of 3 none ∷ [];
      accepted = some (id 1 1);
    };
    clock_progress = record { rule = both_voters; accepted = none };
    self_quorum = false;
  };
  state = record node { purge_upto = some (id 1 1) };
  output = [];
}
