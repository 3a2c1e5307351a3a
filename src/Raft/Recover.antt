-- ===== src/Raft/Recover.antt =====
-- src/raft.cpp: the constructor of RaftNode, which checks the configuration and the recovered state and
-- replays the committed commands.
use det_log.Prelude.{
  ℕ, zero, suc, ◌+◌, Bool, true, false, ◌&&◌, ◌||◌, not, List, [], ◌∷◌, String, Option, none, some,
  if◌then◌else◌, sub64, ltb, leb, eqb, length, u64_max, is_some,
}
use det_log.Model.{HardState, LogEntry, ClientCommand}
use det_log.StateMachine.{KvStateMachine, empty_machine, apply}
use det_log.Raft.State.{RaftNode, RaftConfig, RaftRole, RecoveredState, Core}
use det_log.Raft.Log.{
  entry_overhead, append_rpc_overhead, optional_command_allowed, last_log_index, entry_at,
  entry_bytes,
}
use det_log.Raft.Step.{contains}

pub data Constructed : Type 0 where
  constructed : RaftNode → Constructed
  invalid_argument : String → Constructed

-- std::sort
unfoldable pub insert_sorted : ℕ → List ℕ → List ℕ
insert_sorted x [] = x ∷ []
insert_sorted x (y ∷ ys) = let rest = y ∷ insert_sorted x ys in if leb x y then x ∷ y ∷ ys else rest

unfoldable pub sort : List ℕ → List ℕ
sort [] = []
sort (x ∷ xs) = insert_sorted x (sort xs)

-- std::adjacent_find
unfoldable pub has_adjacent_equal : List ℕ → Bool
has_adjacent_equal [] = false
has_adjacent_equal (x ∷ []) = false
has_adjacent_equal (x ∷ y ∷ rest) = let more = has_adjacent_equal (y ∷ rest) in eqb x y || more

unfoldable pub membership_valid : RaftConfig → Bool
membership_valid c =
    (eqb (length c.members) 3 || eqb (length c.members) 5)
    && not (has_adjacent_equal c.members)
    && contains c.node_id c.members

unfoldable pub vote_valid : RaftConfig → HardState → Bool
vote_valid c hard = elim hard.voted_for [
  | none ↦ true
  | some voted ↦ not (eqb hard.current_term 0) && contains voted c.members
]

unfoldable pub bounds_valid : RaftConfig → Bool
bounds_valid c =
    ltb 0 c.election_timeout
    && ltb 0 c.heartbeat_interval
    && ltb 0 c.max_deferred_events
    && ltb 0 c.max_uncommitted_entries
    && leb entry_overhead c.max_uncommitted_bytes
    && ltb 0 c.max_command_bytes
    && ltb 0 c.max_key_bytes
    && ltb 0 c.max_append_entries_per_rpc
    && ltb append_rpc_overhead c.max_append_bytes_per_rpc
    && ltb 0 c.append_retry_heartbeats
    && ltb 0 c.max_waiters_per_request

unfoldable pub recovered_entry_valid : RaftConfig → ℕ → ℕ → LogEntry → Bool
recovered_entry_valid c term expected entry =
    eqb entry.index expected
    && ltb 0 entry.term
    && leb entry.term term
    && optional_command_allowed c entry.command
    && leb (entry_bytes entry) (sub64 c.max_append_bytes_per_rpc append_rpc_overhead)

unfoldable pub recovered_log_valid : RaftConfig → ℕ → ℕ → List LogEntry → Bool
recovered_log_valid c term expected [] = true
recovered_log_valid c term expected (entry ∷ rest) =
    recovered_entry_valid c term expected entry && recovered_log_valid c term (expected + 1) rest

unfoldable pub apply_optional : Option ClientCommand → KvStateMachine → KvStateMachine
apply_optional none m = m
apply_optional (some c) m = (apply c m).1

abbrev pub entry_command : Option LogEntry → Option ClientCommand
entry_command none = none
entry_command (some e) = e.command

-- `while (last_applied < commit_index)`; `rounds` is what is left.
unfoldable pub replay_rounds : List LogEntry → ℕ → ℕ → KvStateMachine → KvStateMachine
replay_rounds log zero last_applied m = m
replay_rounds log (suc rounds) last_applied m =
    replay_rounds log rounds (last_applied + 1)
      (apply_optional (entry_command (entry_at log (last_applied + 1))) m)

unfoldable pub initial_core : RecoveredState → Core
initial_core r = record {
  hard_state = r.hard_state;
  durable_hard_state = r.hard_state;
  log = r.log;
  durable_last_log_index = last_log_index r.log;
  commit_index = r.commit_index;
  durable_commit_index = r.commit_index;
  last_applied = r.commit_index;
  state_machine = replay_rounds r.log r.commit_index 0 empty_machine;
}

unfoldable pub initial_node : RaftConfig → RecoveredState → RaftNode
initial_node c r = record {
  config = c;
  core = initial_core r;
  role = RaftRole.follower;
  leader_hint = none;
  leader_ready = false;
  readiness_index = 0;
  votes_received = [];
  peers = [];
  pending_clients = [];
  pending_sessions = [];
  pending_storage = none;
  deferred_events = [];
  next_storage_op_id = 1;
  next_rpc_id = 1;
  election_generation = 0;
  heartbeat_generation = 0;
  started = false;
  thrown = false;
  effects = [];
}

unfoldable pub check_recovered : RaftConfig → RecoveredState → Option String
check_recovered c r =
    if not (membership_valid c)
    then some "Raft membership must contain this node and exactly 3 or 5 unique nodes"
    else if not (vote_valid c r.hard_state)
    then some "Recovered vote is not valid membership state"
    else if not (bounds_valid c)
    then some "Raft bounds and timer durations must be non-zero"
    else if ltb u64_max (last_log_index r.log)
    then some "Recovered log is too large"
    else if eqb r.hard_state.current_term 0 && is_some r.hard_state.voted_for
    then some "term-zero hard state cannot contain a vote"
    else if not (recovered_log_valid c r.hard_state.current_term 1 r.log)
    then some "Recovered log is not a valid consecutive Raft log"
    else if ltb (last_log_index r.log) r.commit_index
    then some "Recovered commit index is beyond the log"
    else none

unfoldable pub outcome : Option String → RaftNode → Constructed
outcome (some error) s = invalid_argument error
outcome none s = constructed s

unfoldable pub construct : RaftConfig → RecoveredState → Constructed
construct config r =
    let c = record config { members = sort config.members } in
    outcome (check_recovered c r) (initial_node c r)
