-- ===== src/Raft/Persist.antt =====
-- src/raft.cpp: begin_persist, fail_storage, step_down, and the clients that wait for an entry.
use det_log.Prelude.{
  ℕ, Bool, true, false, List, [], ◌∷◌, String, Option, none, some, if◌then◌else◌, inc64, ltb, eqb,
}
use det_log.Prelude.Key.{nat_key}
use det_log.Prelude.Map
use det_log.Prelude.Map.{Map}
use det_log.Model.{
  Bytes, ClientStatus, TraceKind, PersistBatch, batch_empty, session_key, SessionId,
}
use det_log.Raft.State.{
  RaftNode, RaftEffect, RaftEvent, RaftRole, PendingClientEntry, Continuation, is_follower,
}
use det_log.Raft.Emit.{emit, trace, emit_reply, reply_all, schedule_election, ◌▹◌}

-- The two loops of fail_storage.
unfoldable pub fail_clients : Map ℕ PendingClientEntry → RaftNode → RaftNode
fail_clients [] s = s
fail_clients ((index, pending) ∷ rest) s =
    fail_clients rest (reply_all pending.waiters ClientStatus.storage_error [] index s)

unfoldable pub fail_deferred : List RaftEvent → RaftNode → RaftNode
fail_deferred [] s = s
fail_deferred (RaftEvent.client_request token command ∷ rest) s =
    fail_deferred rest (emit_reply token ClientStatus.storage_error [] 0 s)
fail_deferred (_ ∷ rest) s = fail_deferred rest s

unfoldable pub stop_serving : RaftNode → RaftNode
stop_serving s = record s {
  role = RaftRole.unavailable;
  leader_hint = none;
  leader_ready = false;
  peers = [];
  votes_received = [];
  pending_storage = none;
  election_generation = inc64 s.election_generation;
  heartbeat_generation = inc64 s.heartbeat_generation;
}

abbrev drop_clients : RaftNode → RaftNode
drop_clients s = record s { pending_clients = []; pending_sessions = [] }

abbrev drop_deferred : RaftNode → RaftNode
drop_deferred s = record s { deferred_events = [] }

unfoldable pub fail_storage : String → RaftNode → RaftNode
fail_storage detail s =
    stop_serving s
    ▹ trace TraceKind.fault detail 0
    ▹ fail_clients s.pending_clients
    ▹ drop_clients
    ▹ fail_deferred s.deferred_events
    ▹ drop_deferred

-- `now` is what the continuation does, for the batch that has nothing to store.
unfoldable pub begin_persist :
    PersistBatch → Continuation → (RaftNode → RaftNode) → RaftNode → RaftNode
begin_persist batch after_success now s =
    if batch_empty batch then now s else elim s.pending_storage [
      | some pending ↦ record s { thrown = true }
      | none ↦
          if eqb s.next_storage_op_id 0
          then fail_storage "storage operation id overflow" s
          else (record s {
            next_storage_op_id = inc64 s.next_storage_op_id;
            pending_storage = some (record {
              op_id = s.next_storage_op_id;
              batch = batch;
              after_success = after_success;
            });
          }
              ▹ trace TraceKind.storage_begin "storage operation started" 0
              ▹ emit (RaftEffect.persist s.next_storage_op_id batch))
    ]

abbrev pub observe_term : ℕ → RaftNode → RaftNode
observe_term term s =
    if ltb s.hard_state.current_term term
    then trace TraceKind.term_change "observed a higher term" 0 (record s {
      core = record s.core { hard_state = record { current_term = term; voted_for = none } };
    })
    else s

abbrev pub become_follower : Option ℕ → RaftNode → RaftNode
become_follower hint s = record s {
  role = RaftRole.follower;
  leader_hint = hint;
  leader_ready = false;
  readiness_index = 0;
  votes_received = [];
  peers = [];
  heartbeat_generation = inc64 s.heartbeat_generation;
}

unfoldable pub step_down : ℕ → Option ℕ → Bool → RaftNode → RaftNode
step_down term hint emit_timer s =
    observe_term term s
    ▹ become_follower hint
    ▹ (λ t. if is_follower s.role then t else trace TraceKind.role_change "became follower" 0 t)
    ▹ (λ t. if emit_timer then schedule_election t else t)

-- The session's entry goes if it still names this index; then the pending entry itself.
unfoldable pub forget_pending : ℕ → SessionId → RaftNode → RaftNode
forget_pending index id s = elim (Map.find id s.pending_sessions) [
  | none ↦ record s { pending_clients = Map.erase index s.pending_clients }
  | some at ↦ record s {
    pending_sessions = if eqb at index then Map.erase id s.pending_sessions else s.pending_sessions;
    pending_clients = Map.erase index s.pending_clients;
  }
]

unfoldable pub finish_pending : ℕ → PendingClientEntry → ClientStatus → Bytes → RaftNode → RaftNode
finish_pending index pending status value s =
    reply_all pending.waiters status value index s ▹ forget_pending index pending.command.session

-- From lower_bound(index) on: the map is ordered, so the keys below `index` come first.
unfoldable pub remove_pending_loop : ℕ → Map ℕ PendingClientEntry → RaftNode → RaftNode
remove_pending_loop index [] s = s
remove_pending_loop index ((at, pending) ∷ rest) s =
    remove_pending_loop index rest
      (if ltb at index then s else finish_pending at pending ClientStatus.unavailable [] s)

unfoldable pub remove_pending_from : ℕ → RaftNode → RaftNode
remove_pending_from index s = remove_pending_loop index s.pending_clients s
