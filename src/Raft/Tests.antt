-- ===== src/Raft/Tests.antt =====
-- Runs of a three-node engine on concrete events, and the theorems at these inputs.
mod Gate
mod Queue
mod Follower
mod Elected
mod Leader
use det_log.Prelude.{◌≡◌, refl, ℕ, ◌≤◌, true, none, some, List, [], ◌∷◌, take, inc64, sub64}
use det_log.Prelude.Key.{list_beq, option_beq}
use det_log.Prelude.Map
use det_log.Model.{
  ClientCommand, CommandKind, Message, TimerKind, session_beq, command_beq, entry_beq, kind_code,
  batch_empty,
}
use det_log.StateMachine.{
  structurally_valid, command_digest, session_check, execute, execute_command, apply, session,
}
use det_log.Raft.State.{RaftNode, RaftConfig, RaftRole, RaftEvent, RecoveredState}
use det_log.Raft.Log.{
  command_allowed, optional_command_allowed, entry_at, term_at, candidate_is_up_to_date,
  command_bytes, entry_bytes, uncommitted_entry_count, bytes_from, uncommitted_bytes, can_append,
  can_append_client, last_index_of_term, first_index_loop, first_index_of_term,
}
use det_log.Raft.Emit
use det_log.Raft.Persist
use det_log.Raft.Replicate
use det_log.Raft.Election
use det_log.Raft.Append
use det_log.Raft.Response
use det_log.Raft.Client
use det_log.Raft.Step
use det_log.Raft.Step.{step, start}
use det_log.Raft.Recover
use det_log.Raft.Recover.{construct, constructed, initial_node}
use det_log.Raft.Safety.{WellFormed}
use det_log.Raft.Reachable.{
  Reachable, created, started, run, run-Reachable, Reachable-WellFormed, run_committed,
  step_vote_once,
}

-- Opens every definition that a run goes through.
unfoldable pub engine : Unit {0}
unfolding inc64 sub64 list_beq option_beq Map.find Map.put Map.erase session_beq command_beq
    entry_beq kind_code batch_empty structurally_valid command_digest session_check execute
    execute_command apply session command_allowed optional_command_allowed entry_at term_at
    candidate_is_up_to_date command_bytes entry_bytes uncommitted_entry_count bytes_from
    uncommitted_bytes can_append can_append_client last_index_of_term first_index_loop
    first_index_of_term Emit.emit Emit.trace Emit.emit_reply Emit.reply_all Emit.schedule_election
    Emit.schedule_heartbeat Emit.send_message Persist.fail_clients Persist.fail_deferred
    Persist.stop_serving Persist.fail_storage Persist.begin_persist Persist.step_down
    Persist.forget_pending Persist.finish_pending Persist.remove_pending_loop
    Persist.remove_pending_from Replicate.collect_entries Replicate.clamped_next
    Replicate.append_batch Replicate.send_entries Replicate.send_append Replicate.send_each
    Replicate.send_all_appends Replicate.count_matching Replicate.can_commit Replicate.commit_target
    Replicate.answer_pending Replicate.run_machine Replicate.apply_entry Replicate.apply_rounds
    Replicate.apply_committed Replicate.mark_ready Replicate.commit_stored Replicate.advance_commit
    Replicate.maybe_advance_commit Election.persist_then Election.send_others
    Election.election_stored Election.begin_election Election.vote_stored Election.can_vote
    Election.grants Election.decide_vote Election.on_request_vote Election.no_op_stored
    Election.fresh_peers Election.append_no_op Election.become_leader Election.observe_response_term
    Election.record_vote Election.count_votes Election.on_request_vote_response
    Append.entries_valid_from Append.entries_valid Append.skip_matching Append.reject_stored
    Append.accept_stored Append.reject_append Append.truncate_log Append.replace_suffix
    Append.learned_commit Append.finish_append Append.store_suffix Append.check_append
    Append.follow_leader Append.on_append_entries Response.send_next Response.acknowledge
    Response.hinted_next Response.backed_off Response.take_response Response.match_response
    Response.on_append_entries_response Client.client_stored Client.applied_reply
    Client.append_client Client.join_pending Client.admit_client Client.on_client_request
    Step.age_inflight Step.age_all Step.on_timer Step.contains Step.is_member
    Step.on_protocol_message Step.on_message Step.run_continuation Step.batch_durable
    Step.complete_storage Step.on_storage_complete Step.dispatch Step.entries_bounded_from
    Step.message_bounded Step.push_deferred Step.defer Step.refuse_event Step.drain
    Step.dispatch_all step start Recover.insert_sorted Recover.sort Recover.has_adjacent_equal
    Recover.membership_valid Recover.vote_valid Recover.bounds_valid Recover.recovered_entry_valid
    Recover.recovered_log_valid Recover.apply_optional Recover.replay_rounds Recover.initial_core
    initial_node Recover.check_recovered Recover.outcome construct run
engine = tt

abbrev pub config : RaftConfig
config = record {
  node_id = 1;
  members = 1 ∷ 2 ∷ 3 ∷ [];
  election_timeout = 10;
  heartbeat_interval = 2;
  max_deferred_events = 128;
  max_uncommitted_entries = 1024;
  max_uncommitted_bytes = 4194304;
  max_command_bytes = 65536;
  max_key_bytes = 4096;
  max_value_bytes = 65536;
  max_append_entries_per_rpc = 64;
  max_append_bytes_per_rpc = 524288;
  append_retry_heartbeats = 3;
  max_waiters_per_request = 8;
}

abbrev pub blank : RecoveredState
blank = record {
  hard_state = record { current_term = 0; voted_for = none };
  log = [];
  commit_index = 0;
}

abbrev pub fresh : RaftNode
fresh = initial_node config blank

abbrev pub from_peer : ℕ → Message → RaftEvent
from_peer peer message =
    RaftEvent.message_received (record { sender = peer; receiver = 1; message = message })

abbrev pub stored : ℕ → RaftEvent
stored op_id = RaftEvent.storage_complete op_id true ""

abbrev pub put_a : ClientCommand
put_a = record {
  session = record { high = 1; low = 2 };
  sequence = 1;
  kind = CommandKind.put;
  key = b'a' ∷ [];
  value = b'x' ∷ [];
}

abbrev pub granted : Message
granted = Message.request_vote_response (record { term = 1; vote_granted = true })

abbrev acked : ℕ → ℕ → Message
acked rpc_id index = Message.append_entries_response (record {
  term = 1;
  rpc_id = rpc_id;
  success = true;
  match_index = index;
  conflict_index = 0;
  conflict_term = 0;
})

-- An election that node 1 wins, its no-op, and a command, up to the command's commit.
abbrev pub election : List RaftEvent
election =
    RaftEvent.timer_fired TimerKind.election 1
    ∷ stored 1
    ∷ from_peer 2 granted
    ∷ stored 2
    ∷ from_peer 2 (acked 1 1)
    ∷ stored 3
    ∷ []

abbrev pub command : List RaftEvent
command =
    RaftEvent.client_request 7 put_a
    ∷ stored 4
    ∷ from_peer 2 (acked 3 1)
    ∷ from_peer 2 (acked 4 2)
    ∷ stored 5
    ∷ []

election_makes_leader : (run election (start fresh)).role ≡ RaftRole.leader
unfolding engine
election_makes_leader = refl

election_commits : (run election (start fresh)).last_applied ≡ 1
unfolding engine
election_commits = refl

pub fresh-Reachable : Reachable (start fresh)
unfolding engine
fresh-Reachable = started _ (created config blank fresh refl)

pub leader-Reachable : Reachable (run election (start fresh))
leader-Reachable = run-Reachable election (start fresh) fresh-Reachable

command_applies : (run command (run election (start fresh))).last_applied ≡ 2
unfolding engine
command_applies = refl

Reachable-WellFormed_example : WellFormed (run election (start fresh)).core
Reachable-WellFormed_example = Reachable-WellFormed (run election (start fresh)) leader-Reachable

run_committed_example :
    (take (run election (start fresh)).commit_index (run command (run election (start fresh))).log
      ≡ take (run election (start fresh)).commit_index (run election (start fresh)).log)
    × ((run election (start fresh)).commit_index
        ≤ (run command (run election (start fresh))).commit_index)
run_committed_example = run_committed (run election (start fresh)) command leader-Reachable

abbrev rival : RaftEvent
rival = from_peer 2 (
    Message.request_vote
      (record { term = 1; candidate_id = 2; last_log_index = 9; last_log_term = 1 }))

step_vote_once_example :
    ((run election (start fresh)).hard_state.current_term
      ≤ (step rival (run election (start fresh))).hard_state.current_term)
    × ((candidate : ℕ)
        → (step rival (run election (start fresh))).hard_state.current_term
          ≡ (run election (start fresh)).hard_state.current_term
        → (run election (start fresh)).hard_state.voted_for ≡ some candidate
        → (step rival (run election (start fresh))).hard_state.voted_for ≡ some candidate)
    × ((run election (start fresh)).commit_index
        ≤ (step rival (run election (start fresh))).commit_index)
    × ((run election (start fresh)).last_applied
        ≤ (step rival (run election (start fresh))).last_applied)
step_vote_once_example = step_vote_once (run election (start fresh)) rival leader-Reachable
