-- ===== src/Raft/Quiet.antt =====
-- Methods that leave the protocol state alone: what only emits, sends or fails the node.
pub mod Sends
use det_log.Prelude.{
  ◌≤◌, length, ◌≡◌, refl, ◌∙◌, sym, ap, inl, inr, Bool, true, false, ◌&&◌, Option, none, some, ℕ,
  arith, if◌then◌else◌, List, [], ◌∷◌, Bool-cases, Option-cases, String, eqb, ltb, is_some, suc,
  zero,
}
use det_log.Prelude.Key.{nat_key}
use det_log.Prelude.Map
use det_log.Prelude.Map.{Map}
use det_log.Model.{Bytes, ClientStatus, TraceKind, Message, SessionId, session_key}
use det_log.Raft.State.{
  RaftNode, RaftConfig, RaftRole, RaftEffect, RaftEvent, PendingClientEntry, PeerProgress,
  is_leader, is_idle,
}
use det_log.Raft.Emit.{
  emit, trace, emit_reply, reply_all, schedule_election, schedule_heartbeat, send_message,
}
use det_log.Raft.Persist.{
  fail_clients, fail_deferred, stop_serving, fail_storage, forget_pending, finish_pending,
  remove_pending_loop, remove_pending_from,
}
use det_log.Raft.Replicate.{
  send_entries, send_append, send_each, send_all_appends, answer_pending, mark_ready, clamped_next,
}
use det_log.Raft.Election.{send_others, election_stored, vote_stored}
use det_log.Raft.Append.{reject_stored}
use det_log.Raft.Response.{send_next}

-- From `s` to `t` the protocol state, the configuration and the throw mark stay, no storage
-- operation begins, and no event is deferred.
pub record Quiet (s t : RaftNode) : Type 0 where
  pub core : t.core ≡ s.core
  pub config : t.config ≡ s.config
  pub thrown : t.thrown ≡ s.thrown
  pub idle : s.pending_storage ≡ none → t.pending_storage ≡ none
  pub queue : length t.deferred_events ≤ length s.deferred_events

pub Quiet-refl : (s : RaftNode) → Quiet s s
Quiet-refl s = record {
  core = refl;
  config = refl;
  thrown = refl;
  idle = λ h. h;
  queue = omega arith;
}

pub Quiet-trans : {s t u : RaftNode} → Quiet s t → Quiet t u → Quiet s u
Quiet-trans p q = record {
  core = q.core ∙ p.core;
  config = q.config ∙ p.config;
  thrown = q.thrown ∙ p.thrown;
  idle = λ h. q.idle (p.idle h);
  queue = omega (arith, p.queue, q.queue);
}

pub Quiet-if : (b : Bool) (s t u : RaftNode) → Quiet s t → Quiet s u → Quiet s (if b then t else u)
Quiet-if true s t u p q = p
Quiet-if false s t u p q = q

pub trace-Quiet :
    (kind : TraceKind) (detail : String) (index : ℕ) (s : RaftNode)
    → Quiet s (trace kind detail index s)
unfolding trace emit
trace-Quiet kind detail index s = record {
  core = refl;
  config = refl;
  thrown = refl;
  idle = λ h. h;
  queue = omega arith;
}

pub emit_reply-Quiet :
    (token : ℕ) (status : ClientStatus) (value : Bytes) (index : ℕ) (s : RaftNode)
    → Quiet s (emit_reply token status value index s)
unfolding emit_reply trace emit
emit_reply-Quiet token status value index s = record {
  core = refl;
  config = refl;
  thrown = refl;
  idle = λ h. h;
  queue = omega arith;
}

pub reply_all-Quiet :
    (tokens : List ℕ) (status : ClientStatus) (value : Bytes) (index : ℕ) (s : RaftNode)
    → Quiet s (reply_all tokens status value index s)
unfolding reply_all
reply_all-Quiet [] status value index s = Quiet-refl s
reply_all-Quiet (token ∷ rest) status value index s =
    Quiet-trans (emit_reply-Quiet token status value index s)
      (reply_all-Quiet rest status value index (emit_reply token status value index s))

pub schedule_election-Quiet : (s : RaftNode) → Quiet s (schedule_election s)
unfolding schedule_election emit
schedule_election-Quiet s = record {
  core = refl;
  config = refl;
  thrown = refl;
  idle = λ h. h;
  queue = omega arith;
}

pub schedule_heartbeat-Quiet : (s : RaftNode) → Quiet s (schedule_heartbeat s)
unfolding schedule_heartbeat emit
schedule_heartbeat-Quiet s = record {
  core = refl;
  config = refl;
  thrown = refl;
  idle = λ h. h;
  queue = omega arith;
}

pub send_message-Quiet :
    (to : ℕ) (message : Message) (s : RaftNode) → Quiet s (send_message to message s)
unfolding send_message trace emit
send_message-Quiet to message s = record {
  core = refl;
  config = refl;
  thrown = refl;
  idle = λ h. h;
  queue = omega arith;
}

fail_clients-Quiet : (m : Map ℕ PendingClientEntry) (s : RaftNode) → Quiet s (fail_clients m s)
unfolding fail_clients
fail_clients-Quiet [] s = Quiet-refl s
fail_clients-Quiet ((index, pending) ∷ rest) s =
    Quiet-trans (reply_all-Quiet pending.waiters ClientStatus.storage_error [] index s)
      (fail_clients-Quiet rest _)

fail_deferred-Quiet : (events : List RaftEvent) (s : RaftNode) → Quiet s (fail_deferred events s)
unfolding fail_deferred
fail_deferred-Quiet [] s = Quiet-refl s
fail_deferred-Quiet (RaftEvent.client_request token command ∷ rest) s =
    Quiet-trans (emit_reply-Quiet token ClientStatus.storage_error [] 0 s)
      (fail_deferred-Quiet rest _)
fail_deferred-Quiet (RaftEvent.timer_fired kind generation ∷ rest) s = fail_deferred-Quiet rest s
fail_deferred-Quiet (RaftEvent.message_received envelope ∷ rest) s = fail_deferred-Quiet rest s
fail_deferred-Quiet (RaftEvent.storage_complete op_id success error ∷ rest) s =
    fail_deferred-Quiet rest s

stop_serving-Quiet : (s : RaftNode) → Quiet s (stop_serving s)
unfolding stop_serving
stop_serving-Quiet s = record {
  core = refl;
  config = refl;
  thrown = refl;
  idle = λ h. refl;
  queue = omega arith;
}

-- Emptying the tables and the queue is no change that `Quiet` sees.
drop-Quiet :
    {s t u : RaftNode}
    → u.core ≡ t.core
    → u.config ≡ t.config
    → u.thrown ≡ t.thrown
    → u.pending_storage ≡ t.pending_storage
    → length u.deferred_events ≤ length t.deferred_events
    → Quiet s t
    → Quiet s u
drop-Quiet a b c d n q =
    Quiet-trans q (record { core = a; config = b; thrown = c; idle = λ h. d ∙ h; queue = n })

pub fail_storage-Quiet : (detail : String) (s : RaftNode) → Quiet s (fail_storage detail s)
unfolding fail_storage
fail_storage-Quiet detail s =
    let stopped = Quiet-trans (stop_serving-Quiet s) (trace-Quiet TraceKind.fault detail 0 _) in
    let clients = Quiet-trans stopped (fail_clients-Quiet s.pending_clients _) in
    let dropped = drop-Quiet refl refl refl refl (omega arith) clients in
    drop-Quiet refl refl refl refl (omega arith)
      (Quiet-trans dropped (fail_deferred-Quiet s.deferred_events _))

forget_pending-Quiet :
    (index : ℕ) (id : SessionId) (s : RaftNode) → Quiet s (forget_pending index id s)
unfolding forget_pending
forget_pending-Quiet index id s = elim (Option-cases (Map.find id s.pending_sessions)) [
  | inl e ↦
      rw (e, forget_pending)
        (record { core = refl; config = refl; thrown = refl; idle = λ h. h; queue = omega arith })
  | inr (at, e) ↦
      rw (e, forget_pending)
        (record { core = refl; config = refl; thrown = refl; idle = λ h. h; queue = omega arith })
]

pub finish_pending-Quiet :
    (index : ℕ) (pending : PendingClientEntry) (status : ClientStatus) (value : Bytes)
    (s : RaftNode)
    → Quiet s (finish_pending index pending status value s)
unfolding finish_pending
finish_pending-Quiet index pending status value s =
    Quiet-trans (reply_all-Quiet pending.waiters status value index s)
      (forget_pending-Quiet index pending.command.session _)

remove_pending_loop-Quiet :
    (index : ℕ) (m : Map ℕ PendingClientEntry) (s : RaftNode)
    → Quiet s (remove_pending_loop index m s)
unfolding remove_pending_loop
remove_pending_loop-Quiet index [] s = Quiet-refl s
remove_pending_loop-Quiet index ((at, pending) ∷ rest) s =
    Quiet-trans
      (Quiet-if (ltb at index) s _ _ (Quiet-refl s)
        (finish_pending-Quiet at pending ClientStatus.unavailable [] s))
      (remove_pending_loop-Quiet index rest _)

pub remove_pending_from-Quiet : (index : ℕ) (s : RaftNode) → Quiet s (remove_pending_from index s)
unfolding remove_pending_from
remove_pending_from-Quiet index s = remove_pending_loop-Quiet index s.pending_clients s
