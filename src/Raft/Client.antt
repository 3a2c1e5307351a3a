-- ===== src/Raft/Client.antt =====
-- src/raft.cpp: on_client_request.
use det_log.Prelude.{
  ℕ, ◌+◌, [], ◌∷◌, ◌++◌, Option, none, some, if◌then◌else◌, ltb, leb, eqb, length, u64_max,
}
use det_log.Prelude.Key.{nat_key}
use det_log.Prelude.Map
use det_log.Model.{Bytes, ClientCommand, ClientStatus, TraceKind, LogEntry, session_key}
use det_log.StateMachine.{SessionRecord, command_digest, session}
use det_log.Raft.State.{RaftNode, PendingClientEntry, Continuation, is_leader, is_unavailable}
use det_log.Raft.Log.{command_allowed, last_log_index, can_append_client}
use det_log.Raft.Emit.{trace, emit_reply, ◌▹◌}
use det_log.Raft.Persist.{begin_persist}
use det_log.Raft.Replicate.{send_all_appends, maybe_advance_commit}
use det_log.Raft.Election.{entry_batch, append_log}

-- The continuation of a client's entry.
unfoldable pub client_stored : RaftNode → RaftNode
client_stored s = if is_leader s.role then (send_all_appends s ▹ maybe_advance_commit) else s

-- The replies that the applied session record alone decides: status, value and log index.
unfoldable pub applied_reply :
    ClientCommand → ℕ → ℕ → Option SessionRecord → Option (ClientStatus × Bytes × ℕ)
applied_reply c digest last_applied none =
    if eqb c.sequence 1 then none else some (ClientStatus.sequence_gap, [], 0)
applied_reply c digest last_applied (some r) =
    if ltb c.sequence r.sequence
    then some (ClientStatus.stale_sequence, [], 0)
    else if eqb c.sequence r.sequence
    then (if eqb digest r.command_digest
        then some (r.status, r.result, last_applied)
        else some (ClientStatus.request_id_conflict, [], 0))
    else if eqb r.sequence u64_max
    then some (ClientStatus.sequence_gap, [], 0)
    else if eqb c.sequence (r.sequence + 1)
    then none
    else some (ClientStatus.sequence_gap, [], 0)

abbrev pub client_entry : ClientCommand → RaftNode → LogEntry
client_entry c s = record {
  index = last_log_index s.log + 1;
  term = s.hard_state.current_term;
  command = some c;
}

abbrev pub register_client : ℕ → ClientCommand → ℕ → ℕ → RaftNode → RaftNode
register_client token c digest index s = record s {
  pending_sessions = Map.put c.session index s.pending_sessions;
  pending_clients =
      Map.put index (record { command = c; digest = digest; waiters = token ∷ [] })
        s.pending_clients;
}

-- Admission, and the append.
unfoldable pub append_client : ℕ → ClientCommand → ℕ → RaftNode → RaftNode
append_client token c digest s =
    if eqb (last_log_index s.log) u64_max
    then emit_reply token ClientStatus.busy [] 0 s
    else if can_append_client s.config s.log s.commit_index (client_entry c s)
    then (append_log (client_entry c s) s
        ▹ register_client token c digest (client_entry c s).index
        ▹ trace TraceKind.log_change "appended client command" (client_entry c s).index
        ▹ begin_persist (entry_batch (client_entry c s)) Continuation.after_client client_stored)
    else (trace TraceKind.queue_saturated "uncommitted log admission bound reached" 0 s
        ▹ emit_reply token ClientStatus.busy [] 0)

-- A retry of the session's unresolved command waits for the same entry.
unfoldable pub join_pending : ℕ → ClientCommand → ℕ → ℕ → PendingClientEntry → RaftNode → RaftNode
join_pending token c digest index pending s =
    if eqb pending.command.sequence c.sequence
    then (if eqb pending.digest digest
        then (if leb s.config.max_waiters_per_request (length pending.waiters)
            then emit_reply token ClientStatus.busy [] 0 s
            else record s {
              pending_clients =
                  Map.put index (record pending { waiters = pending.waiters ++ token ∷ [] })
                    s.pending_clients;
            })
        else emit_reply token ClientStatus.request_id_conflict [] 0 s)
    else emit_reply token ClientStatus.sequence_gap [] 0 s

unfoldable pub admit_client : ℕ → ClientCommand → ℕ → RaftNode → RaftNode
admit_client token c digest s = elim (Map.find c.session s.pending_sessions) [
  | none ↦ append_client token c digest s
  | some index ↦ elim (Map.find index s.pending_clients) [
    | some pending ↦ join_pending token c digest index pending s
    | none ↦
        append_client token c digest
          (record s { pending_sessions = Map.erase c.session s.pending_sessions })
  ]
]

unfoldable pub on_client_request : ℕ → ClientCommand → RaftNode → RaftNode
on_client_request token c s =
    if is_unavailable s.role
    then emit_reply token ClientStatus.unavailable [] 0 s
    else if is_leader s.role
    then (if s.leader_ready
        then (if command_allowed s.config c
            then (let digest = command_digest c in
                elim (applied_reply c digest s.last_applied (session c.session s.state_machine)) [
                  | some (status, value, index) ↦ emit_reply token status value index s
                  | none ↦ admit_client token c digest s
                ])
            else emit_reply token ClientStatus.invalid_request [] 0 s)
        else emit_reply token ClientStatus.leader_not_ready [] 0 s)
    else emit_reply token ClientStatus.not_leader [] 0 s
