-- ===== src/Raft/Queue/Drain.antt =====
-- The loop of `step` over the deferred events ends, and what it leaves.
use det_log.Prelude.{
  ◌≡◌, refl, ap, ◌≤◌, ℕ, zero, suc, Bool, true, false, ◌&&◌, not, none, some, Option, List, [], ◌∷◌,
  inl, inr, Bool-cases, eqb, String, length, arith, if◌then◌else◌,
}
use det_log.Model.{Message, MessageEnvelope, TraceKind}
use det_log.Raft.State.{RaftNode, RaftEvent, PendingStorage, Continuation, is_idle, is_unavailable}
use det_log.Raft.Emit.{trace}
use det_log.Raft.Step.{
  on_protocol_message, on_message, run_continuation, complete_storage, on_storage_complete,
  dispatch, drain, dispatch_all, batch_durable, storage_error_detail,
}
use det_log.Raft.Quiet.{trace-Quiet, fail_storage-Quiet, schedule_election-Quiet}
use det_log.Raft.Quiet.Sends.{election_stored-Quiet, vote_stored-Quiet, reject_stored-Quiet}
use det_log.Raft.Queue.{
  Shrinks, Shrinks-refl, Shrinks-trans, Shrinks-Quiet, Shrinks-if, Shrinks-from,
}
use det_log.Raft.Queue.Store.{commit_stored-Shrinks}
use det_log.Raft.Queue.Vote.{
  on_request_vote-Shrinks, on_request_vote_response-Shrinks, no_op_stored-Shrinks,
}
use det_log.Raft.Queue.Entries.{on_append_entries-Shrinks, accept_stored-Shrinks}
use det_log.Raft.Queue.Serve.{
  on_append_entries_response-Shrinks, client_stored-Shrinks, on_client_request-Shrinks,
  on_timer-Shrinks,
}

on_protocol_message-Shrinks :
    (from : ℕ) (message : Message) (s : RaftNode) → Shrinks s (on_protocol_message from message s)
unfolding on_protocol_message
on_protocol_message-Shrinks from (Message.request_vote r) s = on_request_vote-Shrinks from r s
on_protocol_message-Shrinks from (Message.request_vote_response r) s =
    on_request_vote_response-Shrinks from r s
on_protocol_message-Shrinks from (Message.append_entries r) s = on_append_entries-Shrinks from r s
on_protocol_message-Shrinks from (Message.append_entries_response r) s =
    on_append_entries_response-Shrinks from r s

on_message-Shrinks : (envelope : MessageEnvelope) (s : RaftNode) → Shrinks s (on_message envelope s)
unfolding on_message
on_message-Shrinks envelope s =
    let t = trace TraceKind.receive "protocol message received" 0 s in
    Shrinks-if _ s (on_protocol_message envelope.sender envelope.message t) s
      (λ _.
        Shrinks-trans s t _ (Shrinks-Quiet (trace-Quiet TraceKind.receive _ 0 s))
          (on_protocol_message-Shrinks envelope.sender envelope.message t))
      (λ _. Shrinks-refl s)

run_continuation-Shrinks : (k : Continuation) (s : RaftNode) → Shrinks s (run_continuation k s)
unfolding run_continuation
run_continuation-Shrinks Continuation.after_election s = Shrinks-Quiet (election_stored-Quiet s)
run_continuation-Shrinks (Continuation.after_vote from grant was_leader) s =
    Shrinks-Quiet (vote_stored-Quiet from grant was_leader s)
run_continuation-Shrinks Continuation.after_step_down s = Shrinks-Quiet (schedule_election-Quiet s)
run_continuation-Shrinks Continuation.after_no_op s = no_op_stored-Shrinks s
run_continuation-Shrinks (Continuation.after_reject from rpc_id conflict_index conflict_term) s =
    Shrinks-Quiet (reject_stored-Quiet from rpc_id conflict_index conflict_term s)
run_continuation-Shrinks (Continuation.after_accept from rpc_id match_index apply) s =
    accept_stored-Shrinks from rpc_id match_index apply s
run_continuation-Shrinks Continuation.after_client s = client_stored-Shrinks s
run_continuation-Shrinks Continuation.after_commit s = commit_stored-Shrinks s

complete_storage-Shrinks :
    (pending : PendingStorage) (success : Bool) (error : String) (s : RaftNode)
    → Shrinks s (complete_storage pending success error s)
unfolding complete_storage
complete_storage-Shrinks pending success error s =
    let t = record s { pending_storage = none } in
    let stored = record t { core = batch_durable pending.batch t.core } in
    let u = trace TraceKind.storage_complete "storage operation completed" 0 stored in
    Shrinks-if success s (run_continuation pending.after_success u) _
      (λ _. Shrinks-from s stored refl (
        Shrinks-trans stored u _ (Shrinks-Quiet (trace-Quiet TraceKind.storage_complete _ 0 stored))
          (run_continuation-Shrinks pending.after_success u)))
      (λ _.
        Shrinks-from s t refl (Shrinks-Quiet (fail_storage-Quiet (storage_error_detail error) t)))

on_storage_complete-Shrinks :
    (op_id : ℕ) (success : Bool) (error : String) (s : RaftNode)
    → Shrinks s (on_storage_complete op_id success error s)
unfolding on_storage_complete
on_storage_complete-Shrinks op_id success error s = go s.pending_storage
  where
    unexpected : Shrinks s (trace TraceKind.fault "unexpected storage completion" 0 s)
    unexpected = Shrinks-Quiet (trace-Quiet TraceKind.fault "unexpected storage completion" 0 s)

    go :
        (o : Option PendingStorage)
        → Shrinks s (elim o as (λ _. RaftNode) [
          | none ↦ trace TraceKind.fault "unexpected storage completion" 0 s
          | some pending ↦
              if eqb pending.op_id op_id
              then complete_storage pending success error s
              else trace TraceKind.fault "unexpected storage completion" 0 s
        ])
    go none = unexpected
    go (some pending) =
        Shrinks-if (eqb pending.op_id op_id) s (complete_storage pending success error s) _
          (λ _. complete_storage-Shrinks pending success error s) (λ _. unexpected)

dispatch-Shrinks : (event : RaftEvent) (s : RaftNode) → Shrinks s (dispatch event s)
unfolding dispatch
dispatch-Shrinks (RaftEvent.timer_fired kind generation) s = on_timer-Shrinks kind generation s
dispatch-Shrinks (RaftEvent.message_received envelope) s = on_message-Shrinks envelope s
dispatch-Shrinks (RaftEvent.storage_complete op_id success error) s =
    on_storage_complete-Shrinks op_id success error s
dispatch-Shrinks (RaftEvent.client_request token command) s =
    on_client_request-Shrinks token command s

-- Events stay deferred only while storage is pending or the node is unavailable.
pub data Drained (s : RaftNode) : Type 0 where
  empty : s.deferred_events ≡ [] → Drained s
  busy : is_idle s ≡ false → Drained s
  gone : is_unavailable s.role ≡ true → Drained s

-- What the loop makes of a node: it ends with a drained one, whose queue is no longer.
pub record Drains (s t : RaftNode) : Type 0 where
  pub drained : Drained t
  pub shrinks : Shrinks s t

stuck : (s : RaftNode) → (is_idle s && not (is_unavailable s.role)) ≡ false → Drained s
stuck s h = elim (Bool-cases (is_idle s)) [
  | inr e ↦ busy e
  | inl e ↦ elim (Bool-cases (is_unavailable s.role)) [
    | inl away ↦ gone away
    | inr here ↦ absurd (cc (rw (e, here) at h))
  ]
]

drain-Drains : (fuel : ℕ) (s : RaftNode) → length s.deferred_events ≤ fuel → Drains s (drain fuel s)
unfolding drain
drain-Drains zero s h = record {
  drained = empty (none_left s.deferred_events h);
  shrinks = Shrinks-refl s;
}
  where
    none_left : (events : List RaftEvent) → length events ≤ 0 → events ≡ []
    none_left [] k = refl
    none_left (event ∷ rest) k = absurd (omega arith)
drain-Drains (suc fuel) s h =
    go s.deferred_events (is_idle s && not (is_unavailable s.role)) refl refl (drain-Drains fuel)
  where
    go :
        (events : List RaftEvent) (ready : Bool)
        → s.deferred_events ≡ events
        → (is_idle s && not (is_unavailable s.role)) ≡ ready
        → ((t : RaftNode) → length t.deferred_events ≤ fuel → Drains t (drain fuel t))
        → Drains s (elim events as (λ _. RaftNode) [
          | [] ↦ s
          | event ∷ rest ↦ elim ready as (λ _. RaftNode) [
            | true ↦ drain fuel (dispatch event (record s { deferred_events = rest }))
            | false ↦ s
          ]
        ])
    go [] ready at e ih = record { drained = empty at; shrinks = Shrinks-refl s }
    go (event ∷ rest) false at e ih = record { drained = stuck s e; shrinks = Shrinks-refl s }
    go (event ∷ rest) true at e ih =
        let t = record s { deferred_events = rest } in
        let handled = (dispatch-Shrinks event t).queue in
        let size = ap (length {A = RaftEvent}) at in
        let done = ih (dispatch event t) (omega (arith, h, handled, size)) in
        record {
          drained = done.drained;
          shrinks = record { queue = omega (arith, done.shrinks.queue, handled, size) };
        }

pub dispatch_all-Drains : (event : RaftEvent) (s : RaftNode) → Drains s (dispatch_all event s)
unfolding dispatch_all
dispatch_all-Drains event s =
    let t = dispatch event s in
    let done = drain-Drains (length t.deferred_events) t (omega arith) in
    record {
      drained = done.drained;
      shrinks = Shrinks-trans s t _ (dispatch-Shrinks event s) done.shrinks;
    }
