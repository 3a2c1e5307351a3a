-- ===== src/Raft/Step.antt =====
-- src/raft.cpp: start, step, dispatch, and the handlers of timers, messages and storage
-- completions.
use det_log.Prelude.{
  ℕ, zero, suc, ◌+◌, ◌-◌, min, Bool, true, false, ◌&&◌, ◌||◌, not, List, [], ◌∷◌, ◌++◌, String,
  Option, none, some, if◌then◌else◌, inc64, ltb, leb, eqb, length, is_some,
}
use text.Mathlib.Text.{◌==◌ as text_eq}
use det_log.Prelude.Key.{nat_key}
use det_log.Prelude.Map.{Map}
use det_log.Model.{
  TimerKind, TraceKind, Message, MessageEnvelope, ClientStatus, PersistBatch, LogEntry, is_nil,
}
use det_log.StateMachine.{apply}
use det_log.Raft.State.{
  RaftNode, RaftConfig, RaftEvent, PeerProgress, PendingStorage, Continuation, Core, is_leader,
  is_unavailable, is_idle,
}
use det_log.Raft.Log.{
  append_rpc_overhead, command_allowed, optional_command_allowed, last_log_index, entry_bytes,
}
use det_log.Raft.Emit.{trace, emit_reply, schedule_election, schedule_heartbeat, ◌▹◌}
use det_log.Raft.Persist.{fail_storage}
use det_log.Raft.Replicate.{send_all_appends, commit_stored}
use det_log.Raft.Election.{
  begin_election, on_request_vote, on_request_vote_response, election_stored, vote_stored,
  no_op_stored,
}
use det_log.Raft.Append.{on_append_entries, reject_stored, accept_stored}
use det_log.Raft.Response.{on_append_entries_response}
use det_log.Raft.Client.{on_client_request, client_stored}

-- A request that has waited long enough may be sent again.
unfoldable pub age_inflight : ℕ → PeerProgress → PeerProgress
age_inflight limit progress =
    if is_some progress.inflight
    then (let age = inc64 progress.inflight_heartbeat_age in
        if leb limit age
        then record progress { inflight = none; inflight_heartbeat_age = 0 }
        else record progress { inflight_heartbeat_age = age })
    else progress

unfoldable pub age_all : ℕ → Map ℕ PeerProgress → Map ℕ PeerProgress
age_all limit [] = []
age_all limit ((peer, progress) ∷ rest) = (peer, age_inflight limit progress) ∷ age_all limit rest

unfoldable pub on_timer : TimerKind → ℕ → RaftNode → RaftNode
on_timer TimerKind.election generation s =
    if eqb generation s.election_generation && not (is_leader s.role) && not (is_unavailable s.role)
    then begin_election s
    else s
on_timer TimerKind.heartbeat generation s =
    if eqb generation s.heartbeat_generation && is_leader s.role
    then (record s { peers = age_all s.config.append_retry_heartbeats s.peers }
        ▹ send_all_appends
        ▹ schedule_heartbeat)
    else s

unfoldable pub contains : ℕ → List ℕ → Bool
contains x [] = false
contains x (y ∷ ys) = eqb x y || contains x ys

unfoldable pub is_member : RaftConfig → ℕ → Bool
is_member config id = contains id config.members

unfoldable pub on_protocol_message : ℕ → Message → RaftNode → RaftNode
on_protocol_message from (Message.request_vote r) s = on_request_vote from r s
on_protocol_message from (Message.request_vote_response r) s = on_request_vote_response from r s
on_protocol_message from (Message.append_entries r) s = on_append_entries from r s
on_protocol_message from (Message.append_entries_response r) s = on_append_entries_response from r s

unfoldable pub on_message : MessageEnvelope → RaftNode → RaftNode
on_message envelope s =
    if eqb envelope.receiver s.config.node_id
      && not (eqb envelope.sender s.config.node_id)
      && is_member s.config envelope.sender
    then (trace TraceKind.receive "protocol message received" 0 s
        ▹ on_protocol_message envelope.sender envelope.message)
    else s

-- `pending.after_success(effects)`
unfoldable pub run_continuation : Continuation → RaftNode → RaftNode
run_continuation Continuation.after_election s = election_stored s
run_continuation (Continuation.after_vote from grant was_leader) s =
    vote_stored from grant was_leader s
run_continuation Continuation.after_step_down s = schedule_election s
run_continuation Continuation.after_no_op s = no_op_stored s
run_continuation (Continuation.after_reject from rpc_id conflict_index conflict_term) s =
    reject_stored from rpc_id conflict_index conflict_term s
run_continuation (Continuation.after_accept from rpc_id match_index apply) s =
    accept_stored from rpc_id match_index apply s
run_continuation Continuation.after_client s = client_stored s
run_continuation Continuation.after_commit s = commit_stored s

abbrev pub or_value {ℓ} : {A : Type ℓ} → Option A → A → A
or_value none a = a
or_value (some b) a = b

unfoldable pub batch_durable : PersistBatch → Core → Core
batch_durable batch c = record c {
  durable_hard_state = or_value batch.hard_state c.durable_hard_state;
  durable_last_log_index =
      if is_some batch.truncate_from || not (is_nil batch.entries)
      then last_log_index c.log
      else c.durable_last_log_index;
  durable_commit_index = or_value batch.commit_index c.durable_commit_index;
}

abbrev pub storage_error_detail : String → String
storage_error_detail error = if text_eq error "" then "storage operation failed" else error

unfoldable pub complete_storage : PendingStorage → Bool → String → RaftNode → RaftNode
complete_storage pending success error s =
    let t = record s { pending_storage = none } in
    if success
    then (record t { core = batch_durable pending.batch t.core }
        ▹ trace TraceKind.storage_complete "storage operation completed" 0
        ▹ run_continuation pending.after_success)
    else fail_storage (storage_error_detail error) t

unfoldable pub on_storage_complete : ℕ → Bool → String → RaftNode → RaftNode
on_storage_complete op_id success error s = elim s.pending_storage [
  | none ↦ trace TraceKind.fault "unexpected storage completion" 0 s
  | some pending ↦
      if eqb pending.op_id op_id
      then complete_storage pending success error s
      else trace TraceKind.fault "unexpected storage completion" 0 s
]

unfoldable pub dispatch : RaftEvent → RaftNode → RaftNode
dispatch (RaftEvent.timer_fired kind generation) s = on_timer kind generation s
dispatch (RaftEvent.message_received envelope) s = on_message envelope s
dispatch (RaftEvent.storage_complete op_id success error) s =
    on_storage_complete op_id success error s
dispatch (RaftEvent.client_request token command) s = on_client_request token command s

-- The loop of `step` that bounds a deferred AppendEntries.
unfoldable pub entries_bounded_from : RaftConfig → ℕ → List LogEntry → Bool
entries_bounded_from config bytes [] = true
entries_bounded_from config bytes (entry ∷ rest) =
    let more = entries_bounded_from config (bytes + entry_bytes entry) rest in
    if ltb (config.max_append_bytes_per_rpc - min config.max_append_bytes_per_rpc bytes)
      (entry_bytes entry)
    then false
    else if optional_command_allowed config entry.command
    then more
    else false

unfoldable pub message_bounded : RaftConfig → Message → Bool
message_bounded config (Message.append_entries r) =
    leb (length r.entries) config.max_append_entries_per_rpc
    && entries_bounded_from config append_rpc_overhead r.entries
message_bounded config _ = true

unfoldable pub push_deferred : RaftEvent → RaftNode → RaftNode
push_deferred event s =
    if leb s.config.max_deferred_events (length s.deferred_events)
    then elim event [
      | RaftEvent.client_request token command ↦
          trace TraceKind.queue_saturated "deferred event queue is full" 0 s
          ▹ emit_reply token ClientStatus.busy [] 0
      | _ ↦ trace TraceKind.queue_saturated "deferred event queue is full" 0 s
    ]
    else record s { deferred_events = s.deferred_events ++ event ∷ [] }

-- What `step` does with an event that is no storage completion while storage is pending.
unfoldable pub defer : RaftEvent → RaftNode → RaftNode
defer (RaftEvent.client_request token command) s =
    if command_allowed s.config command
    then push_deferred (RaftEvent.client_request token command) s
    else emit_reply token ClientStatus.invalid_request [] 0 s
defer (RaftEvent.message_received envelope) s =
    if message_bounded s.config envelope.message
    then push_deferred (RaftEvent.message_received envelope) s
    else trace TraceKind.queue_saturated "rejected oversized deferred protocol event" 0 s
defer (RaftEvent.timer_fired kind generation) s =
    push_deferred (RaftEvent.timer_fired kind generation) s
defer (RaftEvent.storage_complete op_id success error) s =
    push_deferred (RaftEvent.storage_complete op_id success error) s

unfoldable pub refuse_event : RaftEvent → RaftNode → RaftNode
refuse_event (RaftEvent.client_request token command) s =
    emit_reply token ClientStatus.unavailable [] 0 s
refuse_event _ s = s

-- The loop that handles deferred events; each round takes one, and none is added meanwhile.
unfoldable pub drain : ℕ → RaftNode → RaftNode
drain zero s = s
drain (suc fuel) s = elim s.deferred_events [
  | [] ↦ s
  | event ∷ rest ↦ elim (is_idle s && not (is_unavailable s.role)) [
    | true ↦ drain fuel (dispatch event (record s { deferred_events = rest }))
    | false ↦ s
  ]
]

unfoldable pub dispatch_all : RaftEvent → RaftNode → RaftNode
dispatch_all event s = let t = dispatch event s in drain (length t.deferred_events) t

abbrev pub is_completion : RaftEvent → Bool
is_completion (RaftEvent.storage_complete op_id success error) = true
is_completion _ = false

-- `effects` starts empty and is what the C++ function returns.
unfoldable pub step : RaftEvent → RaftNode → RaftNode
step event s =
    let t = record s { effects = [] } in
    if is_completion event
    then dispatch_all event t
    else if is_idle t
    then (if is_unavailable t.role then refuse_event event t else dispatch_all event t)
    else defer event t

unfoldable pub start : RaftNode → RaftNode
start s =
    let t = record s { effects = [] } in
    if t.started || is_unavailable t.role
    then t
    else schedule_election (record t { started = true })
