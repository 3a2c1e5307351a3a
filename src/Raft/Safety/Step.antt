-- ===== src/Raft/Safety/Step.antt =====
-- Every step keeps the safety relation, whatever the event.
use det_log.Prelude.{
  refl, ℕ, zero, suc, Bool, true, false, ◌&&◌, not, none, List, [], ◌∷◌, inl, inr, Option-cases,
  Bool-cases, leb, ◌≡◌, eqb, String, length,
}
use det_log.Model.{Message, MessageEnvelope, TraceKind, ClientStatus}
use det_log.Raft.State.{RaftNode, RaftEvent, PendingStorage, Continuation, is_idle, is_unavailable}
use det_log.Raft.Log.{command_allowed}
use det_log.Raft.Emit.{trace, emit, emit_reply}
use det_log.Raft.Step.{
  on_protocol_message, on_message, run_continuation, complete_storage, on_storage_complete,
  dispatch, message_bounded, push_deferred, defer, refuse_event, drain, dispatch_all, step,
  is_completion, batch_durable, storage_error_detail,
}
use det_log.Raft.Quiet.{
  Quiet, Quiet-refl, trace-Quiet, emit_reply-Quiet, fail_storage-Quiet, schedule_election-Quiet,
}
use det_log.Raft.Quiet.Sends.{election_stored-Quiet, vote_stored-Quiet, reject_stored-Quiet}
use det_log.Raft.Safety.{Safe, Safe-refl, Safe-trans, Safe-Quiet, Safe-eq, Safe-if, Safe-durable}
use det_log.Raft.Safety.Commit.{commit_stored-Safe}
use det_log.Raft.Safety.Election.{
  on_request_vote-Safe, on_request_vote_response-Safe, no_op_stored-Safe,
}
use det_log.Raft.Safety.Append.{on_append_entries-Safe, accept_stored-Safe}
use det_log.Raft.Safety.Response.{
  on_append_entries_response-Safe, client_stored-Safe, on_client_request-Safe, on_timer-Safe,
}

on_protocol_message-Safe :
    (from : ℕ) (message : Message) (s : RaftNode)
    → Safe s.core (on_protocol_message from message s).core
unfolding on_protocol_message
on_protocol_message-Safe from (Message.request_vote r) s = on_request_vote-Safe from r s
on_protocol_message-Safe from (Message.request_vote_response r) s =
    on_request_vote_response-Safe from r s
on_protocol_message-Safe from (Message.append_entries r) s = on_append_entries-Safe from r s
on_protocol_message-Safe from (Message.append_entries_response r) s =
    on_append_entries_response-Safe from r s

on_message-Safe :
    (envelope : MessageEnvelope) (s : RaftNode) → Safe s.core (on_message envelope s).core
unfolding on_message
on_message-Safe envelope s =
    let t = trace TraceKind.receive "protocol message received" 0 s in
    Safe-if _ s.core (on_protocol_message envelope.sender envelope.message t) s
      (λ _.
        Safe-trans s.core t.core _ (Safe-Quiet (trace-Quiet TraceKind.receive _ 0 s))
          (on_protocol_message-Safe envelope.sender envelope.message t))
      (λ _. Safe-refl s.core)

run_continuation-Safe : (k : Continuation) (s : RaftNode) → Safe s.core (run_continuation k s).core
unfolding run_continuation
run_continuation-Safe Continuation.after_election s = Safe-Quiet (election_stored-Quiet s)
run_continuation-Safe (Continuation.after_vote from grant was_leader) s =
    Safe-Quiet (vote_stored-Quiet from grant was_leader s)
run_continuation-Safe Continuation.after_step_down s = Safe-Quiet (schedule_election-Quiet s)
run_continuation-Safe Continuation.after_no_op s = no_op_stored-Safe s
run_continuation-Safe (Continuation.after_reject from rpc_id conflict_index conflict_term) s =
    Safe-Quiet (reject_stored-Quiet from rpc_id conflict_index conflict_term s)
run_continuation-Safe (Continuation.after_accept from rpc_id match_index apply) s =
    accept_stored-Safe from rpc_id match_index apply s
run_continuation-Safe Continuation.after_client s = client_stored-Safe s
run_continuation-Safe Continuation.after_commit s = commit_stored-Safe s

complete_storage-Safe :
    (pending : PendingStorage) (success : Bool) (error : String) (s : RaftNode)
    → Safe s.core (complete_storage pending success error s).core
unfolding complete_storage
complete_storage-Safe pending success error s =
    let t = record s { pending_storage = none } in
    let stored = record t { core = batch_durable pending.batch t.core } in
    let u = trace TraceKind.storage_complete "storage operation completed" 0 stored in
    Safe-if success s.core (run_continuation pending.after_success u) _
      (λ _.
        Safe-trans s.core u.core _
          (Safe-trans s.core stored.core u.core (Safe-durable s.core pending.batch)
            (Safe-Quiet (trace-Quiet TraceKind.storage_complete _ 0 stored)))
          (run_continuation-Safe pending.after_success u))
      (λ _. Safe-Quiet (fail_storage-Quiet (storage_error_detail error) t))

on_storage_complete-Safe :
    (op_id : ℕ) (success : Bool) (error : String) (s : RaftNode)
    → Safe s.core (on_storage_complete op_id success error s).core
unfolding on_storage_complete
on_storage_complete-Safe op_id success error s =
    let unexpected = Safe-Quiet (trace-Quiet TraceKind.fault "unexpected storage completion" 0 s) in
    elim (Option-cases s.pending_storage) [
      | inl e ↦ rw (e, on_storage_complete) unexpected
      | inr (pending, e) ↦
          rw (e, on_storage_complete)
            (Safe-if (eqb pending.op_id op_id) s.core _ _
              (λ _. complete_storage-Safe pending success error s) (λ _. unexpected))
    ]

pub dispatch-Safe : (event : RaftEvent) (s : RaftNode) → Safe s.core (dispatch event s).core
unfolding dispatch
dispatch-Safe (RaftEvent.timer_fired kind generation) s = on_timer-Safe kind generation s
dispatch-Safe (RaftEvent.message_received envelope) s = on_message-Safe envelope s
dispatch-Safe (RaftEvent.storage_complete op_id success error) s =
    on_storage_complete-Safe op_id success error s
dispatch-Safe (RaftEvent.client_request token command) s = on_client_request-Safe token command s

drain-Safe : (fuel : ℕ) (s : RaftNode) → Safe s.core (drain fuel s).core
unfolding drain
drain-Safe zero s = Safe-refl s.core
drain-Safe (suc fuel) s =
    go s.deferred_events (is_idle s && not (is_unavailable s.role)) (drain-Safe fuel)
  where
    go :
        (events : List RaftEvent) (ready : Bool)
        → ((t : RaftNode) → Safe t.core (drain fuel t).core)
        → Safe s.core
            (elim events as (λ _. RaftNode) [
              | [] ↦ s
              | event ∷ rest ↦ elim ready as (λ _. RaftNode) [
                | true ↦ drain fuel (dispatch event (record s { deferred_events = rest }))
                | false ↦ s
              ]
            ]).core
    go [] ready ih = Safe-refl s.core
    go (event ∷ rest) false ih = Safe-refl s.core
    go (event ∷ rest) true ih =
        let t = record s { deferred_events = rest } in
        Safe-trans s.core (dispatch event t).core _ (dispatch-Safe event t) (ih (dispatch event t))

dispatch_all-Safe : (event : RaftEvent) (s : RaftNode) → Safe s.core (dispatch_all event s).core
unfolding dispatch_all
dispatch_all-Safe event s =
    Safe-trans s.core (dispatch event s).core _ (dispatch-Safe event s)
      (drain-Safe (length (dispatch event s).deferred_events) (dispatch event s))

-- Deferring an event leaves the protocol state alone.
push_deferred-core : (event : RaftEvent) (s : RaftNode) → (push_deferred event s).core ≡ s.core
unfolding push_deferred trace emit
push_deferred-core event s =
    elim (Bool-cases (leb s.config.max_deferred_events (length s.deferred_events))) [
      | inr e ↦ rw e refl
      | inl e ↦ rw e (full event)
    ]
  where
    full :
        (e : RaftEvent)
        → (elim e as (λ _. RaftNode) [
          | RaftEvent.client_request token command ↦
              emit_reply token ClientStatus.busy [] 0
                (trace TraceKind.queue_saturated "deferred event queue is full" 0 s)
          | _ ↦ trace TraceKind.queue_saturated "deferred event queue is full" 0 s
        ]).core
          ≡ s.core
    full (RaftEvent.client_request token command) =
        (emit_reply-Quiet token ClientStatus.busy [] 0
          (trace TraceKind.queue_saturated "deferred event queue is full" 0 s)).core
    full (RaftEvent.timer_fired kind generation) = refl
    full (RaftEvent.message_received envelope) = refl
    full (RaftEvent.storage_complete op_id success error) = refl

defer-Safe : (event : RaftEvent) (s : RaftNode) → Safe s.core (defer event s).core
unfolding defer
defer-Safe (RaftEvent.client_request token command) s =
    Safe-if (command_allowed s.config command) s.core _ _ (λ _. Safe-eq (push_deferred-core _ s))
      (λ _. Safe-Quiet (emit_reply-Quiet token ClientStatus.invalid_request [] 0 s))
defer-Safe (RaftEvent.message_received envelope) s =
    Safe-if (message_bounded s.config envelope.message) s.core _ _
      (λ _. Safe-eq (push_deferred-core _ s))
      (λ _. Safe-Quiet (trace-Quiet TraceKind.queue_saturated _ 0 s))
defer-Safe (RaftEvent.timer_fired kind generation) s = Safe-eq (push_deferred-core _ s)
defer-Safe (RaftEvent.storage_complete op_id success error) s = Safe-eq (push_deferred-core _ s)

pub refuse_event-Quiet : (event : RaftEvent) (s : RaftNode) → Quiet s (refuse_event event s)
unfolding refuse_event
refuse_event-Quiet (RaftEvent.client_request token command) s =
    emit_reply-Quiet token ClientStatus.unavailable [] 0 s
refuse_event-Quiet (RaftEvent.timer_fired kind generation) s = Quiet-refl s
refuse_event-Quiet (RaftEvent.message_received envelope) s = Quiet-refl s
refuse_event-Quiet (RaftEvent.storage_complete op_id success error) s = Quiet-refl s

pub step-Safe : (event : RaftEvent) (s : RaftNode) → Safe s.core (step event s).core
unfolding step
step-Safe event s =
    let t = record s { effects = [] } in
    Safe-if (is_completion event) s.core _ _ (λ _. dispatch_all-Safe event t)
      (λ _.
        Safe-if (is_idle t) s.core _ _
          (λ _.
            Safe-if (is_unavailable t.role) s.core _ _
              (λ _. Safe-Quiet (refuse_event-Quiet event t)) (λ _. dispatch_all-Safe event t))
          (λ _. defer-Safe event t))
