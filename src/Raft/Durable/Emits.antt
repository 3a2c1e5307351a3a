-- ===== src/Raft/Durable/Emits.antt =====
-- The methods that only emit, and the failing of the node: what they send is durable.
use det_log.Prelude.{
  ◌≡◌, refl, ◌∙◌, ℕ, Bool, true, false, none, List, [], ◌∷◌, String, inl, inr, if◌then◌else◌,
  Option-cases, ltb,
}
use det_log.Prelude.Map
use det_log.Prelude.Map.{Map}
use det_log.Model.{Bytes, ClientStatus, Message, TraceKind, SessionId, session_key}
use det_log.Raft.State.{RaftNode, RaftEvent, PendingClientEntry, RaftRole}
use det_log.Raft.Emit.{
  emit, trace, emit_reply, reply_all, schedule_election, schedule_heartbeat, send_message,
}
use det_log.Raft.Persist.{
  fail_clients, fail_deferred, stop_serving, fail_storage, forget_pending, finish_pending,
  remove_pending_loop, remove_pending_from,
}
use det_log.Raft.Quiet.{fail_storage-Quiet}
use det_log.Raft.Durable.{Sent, Post, failed, MessageDurable, emit-Sent}

pub Sent-if :
    (b : Bool) (s t : RaftNode)
    → (b ≡ true → Sent s)
    → (b ≡ false → Sent t)
    → Sent (if b then s else t)
Sent-if true s t p q = p refl
Sent-if false s t p q = q refl

pub trace-Sent :
    (kind : TraceKind) (detail : String) (index : ℕ) (s : RaftNode)
    → Sent s
    → Sent (trace kind detail index s)
unfolding trace
trace-Sent kind detail index s h = emit-Sent _ s tt h

pub emit_reply-Sent :
    (token : ℕ) (status : ClientStatus) (value : Bytes) (index : ℕ) (s : RaftNode)
    → Sent s
    → Sent (emit_reply token status value index s)
unfolding emit_reply emit
emit_reply-Sent token status value index s h = trace-Sent _ _ _ _ (emit-Sent _ s tt h)

pub reply_all-Sent :
    (tokens : List ℕ) (status : ClientStatus) (value : Bytes) (index : ℕ) (s : RaftNode)
    → Sent s
    → Sent (reply_all tokens status value index s)
unfolding reply_all
reply_all-Sent [] status value index s h = h
reply_all-Sent (token ∷ rest) status value index s h =
    reply_all-Sent rest status value index _ (emit_reply-Sent token status value index s h)

pub schedule_election-Sent : (s : RaftNode) → Sent s → Sent (schedule_election s)
unfolding schedule_election emit
schedule_election-Sent s h = emit-Sent _ s tt h

pub schedule_heartbeat-Sent : (s : RaftNode) → Sent s → Sent (schedule_heartbeat s)
unfolding schedule_heartbeat emit
schedule_heartbeat-Sent s h = emit-Sent _ s tt h

pub send_message-Sent :
    (to : ℕ) (message : Message) (s : RaftNode)
    → MessageDurable s.durable_hard_state s.durable_last_log_index
        (record { sender = s.config.node_id; receiver = to; message = message })
    → Sent s
    → Sent (send_message to message s)
unfolding send_message trace emit
send_message-Sent to message s d h =
    let t = trace TraceKind.send "protocol message emitted" 0 s in
    emit-Sent _ t d (trace-Sent TraceKind.send "protocol message emitted" 0 s h)

fail_clients-Sent : (m : Map ℕ PendingClientEntry) (s : RaftNode) → Sent s → Sent (fail_clients m s)
unfolding fail_clients
fail_clients-Sent [] s h = h
fail_clients-Sent ((index, pending) ∷ rest) s h =
    fail_clients-Sent rest _
      (reply_all-Sent pending.waiters ClientStatus.storage_error [] index s h)

fail_deferred-Sent :
    (events : List RaftEvent) (s : RaftNode) → Sent s → Sent (fail_deferred events s)
unfolding fail_deferred
fail_deferred-Sent [] s h = h
fail_deferred-Sent (RaftEvent.client_request token command ∷ rest) s h =
    fail_deferred-Sent rest _ (emit_reply-Sent token ClientStatus.storage_error [] 0 s h)
fail_deferred-Sent (RaftEvent.timer_fired kind generation ∷ rest) s h = fail_deferred-Sent rest s h
fail_deferred-Sent (RaftEvent.message_received envelope ∷ rest) s h = fail_deferred-Sent rest s h
fail_deferred-Sent (RaftEvent.storage_complete op_id success error ∷ rest) s h =
    fail_deferred-Sent rest s h

pub fail_storage-Sent : (detail : String) (s : RaftNode) → Sent s → Sent (fail_storage detail s)
unfolding fail_storage stop_serving
fail_storage-Sent detail s h =
    fail_deferred-Sent s.deferred_events _ (
      fail_clients-Sent s.pending_clients _
        (trace-Sent TraceKind.fault detail 0 (stop_serving s) h))

reply_all-role :
    (tokens : List ℕ) (status : ClientStatus) (value : Bytes) (index : ℕ) (s : RaftNode)
    → (reply_all tokens status value index s).role ≡ s.role
unfolding reply_all emit_reply trace emit
reply_all-role [] status value index s = refl
reply_all-role (token ∷ rest) status value index s = reply_all-role rest status value index _

fail_clients-role : (m : Map ℕ PendingClientEntry) (s : RaftNode) → (fail_clients m s).role ≡ s.role
unfolding fail_clients
fail_clients-role [] s = refl
fail_clients-role ((index, pending) ∷ rest) s =
    fail_clients-role rest _ ∙ reply_all-role pending.waiters ClientStatus.storage_error [] index s

fail_deferred-role :
    (events : List RaftEvent) (s : RaftNode) → (fail_deferred events s).role ≡ s.role
unfolding fail_deferred emit_reply trace emit
fail_deferred-role [] s = refl
fail_deferred-role (RaftEvent.client_request token command ∷ rest) s = fail_deferred-role rest _
fail_deferred-role (RaftEvent.timer_fired kind generation ∷ rest) s = fail_deferred-role rest s
fail_deferred-role (RaftEvent.message_received envelope ∷ rest) s = fail_deferred-role rest s
fail_deferred-role (RaftEvent.storage_complete op_id success error ∷ rest) s =
    fail_deferred-role rest s

pub fail_storage-role :
    (detail : String) (s : RaftNode) → (fail_storage detail s).role ≡ RaftRole.unavailable
unfolding fail_storage stop_serving trace emit
fail_storage-role detail s =
    fail_deferred-role s.deferred_events _ ∙ fail_clients-role s.pending_clients _

-- A node that fails is unavailable, with nothing pending.
pub fail_storage-Post :
    (detail : String) (s : RaftNode)
    → s.pending_storage ≡ none
    → s.thrown ≡ false
    → Sent s
    → Post (fail_storage detail s)
fail_storage-Post detail s idle thrown h =
    let q = fail_storage-Quiet detail s in
    record {
      outcome = failed (q.idle idle) (rw (fail_storage-role detail s));
      thrown = q.thrown ∙ thrown;
      sent = fail_storage-Sent detail s h;
    }

forget_pending-Sent :
    (index : ℕ) (id : SessionId) (s : RaftNode) → Sent s → Sent (forget_pending index id s)
unfolding forget_pending
forget_pending-Sent index id s h = elim (Option-cases (Map.find id s.pending_sessions)) [
  | inl e ↦ rw (e, forget_pending) h
  | inr (at, e) ↦ rw (e, forget_pending) h
]

pub finish_pending-Sent :
    (index : ℕ) (pending : PendingClientEntry) (status : ClientStatus) (value : Bytes)
    (s : RaftNode)
    → Sent s
    → Sent (finish_pending index pending status value s)
unfolding finish_pending
finish_pending-Sent index pending status value s h =
    forget_pending-Sent index pending.command.session _
      (reply_all-Sent pending.waiters status value index s h)

remove_pending_loop-Sent :
    (index : ℕ) (m : Map ℕ PendingClientEntry) (s : RaftNode)
    → Sent s
    → Sent (remove_pending_loop index m s)
unfolding remove_pending_loop
remove_pending_loop-Sent index [] s h = h
remove_pending_loop-Sent index ((at, pending) ∷ rest) s h = remove_pending_loop-Sent index rest _ (
    Sent-if (ltb at index) s _ (λ _. h)
      (λ _. finish_pending-Sent at pending ClientStatus.unavailable [] s h))

pub remove_pending_from-Sent :
    (index : ℕ) (s : RaftNode) → Sent s → Sent (remove_pending_from index s)
unfolding remove_pending_from
remove_pending_from-Sent index s h = remove_pending_loop-Sent index s.pending_clients s h
