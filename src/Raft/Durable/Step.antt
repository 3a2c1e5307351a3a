-- ===== src/Raft/Durable/Step.antt =====
-- Every step sends only what is durable, and never begins a second storage operation.
use det_log.Prelude.{
  ◌≡◌, refl, ◌∙◌, ap, ℕ, Bool, true, false, not, none, some, [], inl, inr, Option-cases, eqb,
  String,
}
use det_log.Model.{Message, MessageEnvelope, TraceKind, ClientStatus}
use det_log.Raft.State.{RaftNode, Core, RaftEvent, PendingStorage, Continuation}
use det_log.Raft.Emit.{trace, emit, emit_reply}
use det_log.Raft.Step.{
  on_protocol_message, on_message, run_continuation, complete_storage, on_storage_complete,
  dispatch, batch_durable, storage_error_detail,
}
use det_log.Raft.Durable.{
  Sent, Settled, Firm, Post, Outcome, failed, settled, waiting, Promise, Post-Firm, Post-if,
}
use det_log.Raft.Durable.Emits.{trace-Sent, emit_reply-Sent, fail_storage-Post}
use det_log.Raft.Durable.Sends.{trace-Firm, schedule_election-Firm}
use det_log.Raft.Durable.Votes.{election_stored-Firm, vote_stored-Firm, reject_stored-Firm}
use det_log.Raft.Durable.Begin.{Promise-same}
use det_log.Raft.Durable.Apply.{commit_stored-Firm}
use det_log.Raft.Durable.Vote.{on_request_vote-Post}
use det_log.Raft.Durable.Become.{on_request_vote_response-Post, no_op_stored-Post}
use det_log.Raft.Durable.Append.{accept_stored-Firm}
use det_log.Raft.Durable.Accept.{on_append_entries-Post}
use det_log.Raft.Durable.Leader.{on_append_entries_response-Post}
use det_log.Raft.Durable.Client.{client_stored-Post, on_client_request-Post, on_timer-Post}

-- A change that the outcome does not see.
pub Post-same :
    {s t : RaftNode}
    → t.core ≡ s.core
    → t.config ≡ s.config
    → t.role ≡ s.role
    → t.pending_storage ≡ s.pending_storage
    → t.thrown ≡ s.thrown
    → Sent t
    → Post s
    → Post t
Post-same {s} {t} c k r p h e q = record { outcome = go q.outcome; thrown = h ∙ q.thrown; sent = e }
  where
    go : Outcome s → Outcome t
    go (failed idle gone) = failed (p ∙ idle) (rw r gone)
    go (settled idle x) = settled (p ∙ idle) (rw c x)
    go (waiting w at x y) = waiting w (p ∙ at) (rw c x) (
        Promise-same w.after_success s t (ap (λ (d : Core). d.hard_state) c)
          (ap (λ (d : Core). d.log) c) k y)

pub trace-Post :
    (kind : TraceKind) (detail : String) (index : ℕ) (s : RaftNode)
    → Post s
    → Post (trace kind detail index s)
unfolding trace emit
trace-Post kind detail index s p =
    Post-same refl refl refl refl refl (trace-Sent kind detail index s p.sent) p

pub emit_reply-Post :
    (token : ℕ) (status : ClientStatus) (s : RaftNode)
    → Post s
    → Post (emit_reply token status [] 0 s)
unfolding emit_reply trace emit
emit_reply-Post token status s p =
    Post-same refl refl refl refl refl (emit_reply-Sent token status [] 0 s p.sent) p

on_protocol_message-Post :
    (from : ℕ) (message : Message) (s : RaftNode)
    → Firm s
    → Post (on_protocol_message from message s)
unfolding on_protocol_message
on_protocol_message-Post from (Message.request_vote r) s f = on_request_vote-Post from r s f
on_protocol_message-Post from (Message.request_vote_response r) s f =
    on_request_vote_response-Post from r s f
on_protocol_message-Post from (Message.append_entries r) s f = on_append_entries-Post from r s f
on_protocol_message-Post from (Message.append_entries_response r) s f =
    on_append_entries_response-Post from r s f

on_message-Post :
    (envelope : MessageEnvelope) (s : RaftNode) → Firm s → Post (on_message envelope s)
unfolding on_message
on_message-Post envelope s f =
    let t = trace TraceKind.receive "protocol message received" 0 s in
    Post-if _ (on_protocol_message envelope.sender envelope.message t) s
      (λ _.
        on_protocol_message-Post envelope.sender envelope.message t
          (trace-Firm TraceKind.receive _ 0 s f))
      (λ _. Post-Firm f)

run_continuation-Post :
    (k : Continuation) (s : RaftNode) → Promise k s → Firm s → Post (run_continuation k s)
unfolding run_continuation
run_continuation-Post Continuation.after_election s p f = Post-Firm (election_stored-Firm s p f)
run_continuation-Post (Continuation.after_vote from grant was_leader) s p f =
    Post-Firm (vote_stored-Firm from grant was_leader s p f)
run_continuation-Post Continuation.after_step_down s p f = Post-Firm (schedule_election-Firm s f)
run_continuation-Post Continuation.after_no_op s p f = no_op_stored-Post s f
run_continuation-Post (Continuation.after_reject from rpc_id conflict_index conflict_term) s p f =
    Post-Firm (reject_stored-Firm from rpc_id conflict_index conflict_term s f)
run_continuation-Post (Continuation.after_accept from rpc_id match_index apply) s p f =
    Post-Firm (accept_stored-Firm from rpc_id match_index apply s p f)
run_continuation-Post Continuation.after_client s p f = client_stored-Post s f
run_continuation-Post Continuation.after_commit s p f = Post-Firm (commit_stored-Firm s f)

-- The completion of the pending operation, before anything is sent in this step.
complete_storage-Post :
    (pending : PendingStorage) (success : Bool) (error : String) (s : RaftNode)
    → s.effects ≡ []
    → s.thrown ≡ false
    → Settled (batch_durable pending.batch s.core)
    → Promise pending.after_success s
    → Post (complete_storage pending success error s)
unfolding complete_storage trace emit batch_durable
complete_storage-Post pending success error s fresh thrown h p =
    let t = record s { pending_storage = none } in
    let stored = record t { core = batch_durable pending.batch t.core } in
    let u = trace TraceKind.storage_complete "storage operation completed" 0 stored in
    let f : Firm stored = record {
      idle = refl;
      settled = h;
      thrown = thrown;
      sent = rw fresh tt;
    } in
    Post-if success (run_continuation pending.after_success u) _
      (λ _.
        run_continuation-Post pending.after_success u
          (Promise-same pending.after_success s u refl refl refl p)
          (trace-Firm TraceKind.storage_complete _ 0 stored f))
      (λ _. fail_storage-Post (storage_error_detail error) t refl thrown (rw fresh tt))

pub on_storage_complete-Post :
    (op_id : ℕ) (success : Bool) (error : String) (s : RaftNode)
    → s.effects ≡ []
    → Post s
    → Post (on_storage_complete op_id success error s)
unfolding on_storage_complete
on_storage_complete-Post op_id success error s fresh p = elim (Option-cases s.pending_storage) [
  | inl e ↦ rw (e, on_storage_complete) (trace-Post TraceKind.fault _ 0 s p)
  | inr (pending, e) ↦
      rw (e, on_storage_complete)
        (Post-if (eqb pending.op_id op_id) (complete_storage pending success error s) _
          (λ _. completes p.outcome pending e) (λ _. trace-Post TraceKind.fault _ 0 s p))
]
  where
    completes :
        Outcome s
        → (pending : PendingStorage) → s.pending_storage ≡ some pending
        → Post (complete_storage pending success error s)
    completes (failed idle gone) pending e = absurd (cc)
    completes (settled idle h) pending e = absurd (cc)
    completes (waiting w at h k) pending e =
        let same : pending ≡ w = cc in
        rw same (complete_storage-Post w success error s fresh p.thrown h k)

-- A node whose disk is up to date handles any event; a stray completion changes nothing.
pub dispatch-Post : (event : RaftEvent) (s : RaftNode) → Firm s → Post (dispatch event s)
unfolding dispatch on_storage_complete
dispatch-Post (RaftEvent.timer_fired kind generation) s f = on_timer-Post kind generation s f
dispatch-Post (RaftEvent.message_received envelope) s f = on_message-Post envelope s f
dispatch-Post (RaftEvent.storage_complete op_id success error) s f =
    rw (f.idle, dispatch, on_storage_complete)
      (trace-Post TraceKind.fault "unexpected storage completion" 0 s (Post-Firm f))
dispatch-Post (RaftEvent.client_request token command) s f =
    on_client_request-Post token command s f

pub not-false : (b : Bool) → not b ≡ true → b ≡ false
not-false false h = refl
not-false true h = absurd (cc)
