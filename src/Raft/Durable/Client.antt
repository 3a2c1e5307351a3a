-- ===== src/Raft/Durable/Client.antt =====
-- Client requests and timers.
use det_log.Prelude.{
  refl, ℕ, ◌&&◌, not, Option, none, some, [], ◌∷◌, ◌++◌, inl, inr, Option-cases, eqb, leb, length,
  u64_max,
}
use det_log.Prelude.Key.{nat_key}
use det_log.Prelude.Map
use det_log.Model.{Bytes, ClientCommand, ClientStatus, TraceKind, TimerKind, session_key}
use det_log.StateMachine.{command_digest, session}
use det_log.Raft.State.{RaftNode, PendingClientEntry, Continuation, is_leader, is_unavailable}
use det_log.Raft.Log.{last_log_index, command_allowed, can_append_client}
use det_log.Raft.Emit.{trace, emit, emit_reply}
use det_log.Raft.Replicate.{send_all_appends}
use det_log.Raft.Election.{entry_batch, append_log}
use det_log.Raft.Client.{
  client_stored, applied_reply, client_entry, register_client, append_client, join_pending,
  admit_client, on_client_request,
}
use det_log.Raft.Step.{age_all, on_timer}
use det_log.Raft.Quiet.{emit_reply-Quiet}
use det_log.Raft.Durable.{Firm, Post, Post-Firm, Post-if, Firm-same, Firm-if, Firm-Quiet}
use det_log.Raft.Durable.Emits.{emit_reply-Sent}
use det_log.Raft.Durable.Sends.{trace-Firm, schedule_heartbeat-Firm, send_all_appends-Firm}
use det_log.Raft.Durable.Begin.{begin_persist-Post}
use det_log.Raft.Durable.Apply.{maybe_advance_commit-Post}
use det_log.Raft.Durable.Election.{trace-Calm, begin_election-Post}
use det_log.Raft.Durable.Become.{extended-Settled}

pub emit_reply-Firm :
    (token : ℕ) (status : ClientStatus) (value : Bytes) (index : ℕ) (s : RaftNode)
    → Firm s
    → Firm (emit_reply token status value index s)
emit_reply-Firm token status value index s f =
    Firm-Quiet (emit_reply-Quiet token status value index s)
      (emit_reply-Sent token status value index s) f

pub client_stored-Post : (s : RaftNode) → Firm s → Post (client_stored s)
unfolding client_stored
client_stored-Post s f =
    Post-if (is_leader s.role) _ s
      (λ _. maybe_advance_commit-Post (send_all_appends s) (send_all_appends-Firm s f))
      (λ _. Post-Firm f)

append_client-Post :
    (token : ℕ) (c : ClientCommand) (digest : ℕ) (s : RaftNode)
    → Firm s
    → Post (append_client token c digest s)
unfolding append_client trace emit
append_client-Post token c digest s f =
    let entry = client_entry c s in
    let appended = register_client token c digest entry.index (append_log entry s) in
    let t = trace TraceKind.log_change "appended client command" entry.index appended in
    let full = trace TraceKind.queue_saturated "uncommitted log admission bound reached" 0 s in
    Post-if (eqb (last_log_index s.log) u64_max) _ _
      (λ _. Post-Firm (emit_reply-Firm token ClientStatus.busy [] 0 s f))
      λ _.
        Post-if (can_append_client s.config s.log s.commit_index entry) _ _
          (λ _.
            begin_persist-Post (entry_batch entry) Continuation.after_client client_stored t
              (trace-Calm TraceKind.log_change _ _ appended
                (record { idle = f.idle; thrown = f.thrown; sent = f.sent }))
              (extended-Settled entry s.core f.settled) tt (client_stored-Post t))
          (λ _. Post-Firm (
            emit_reply-Firm token ClientStatus.busy [] 0 full
              (trace-Firm TraceKind.queue_saturated _ 0 s f)))

join_pending-Firm :
    (token : ℕ) (c : ClientCommand) (digest index : ℕ) (pending : PendingClientEntry) (s : RaftNode)
    → Firm s
    → Firm (join_pending token c digest index pending s)
unfolding join_pending
join_pending-Firm token c digest index pending s f =
    Firm-if (eqb pending.command.sequence c.sequence) _ _
      (λ _.
        Firm-if (eqb pending.digest digest) _ _
          (λ _.
            Firm-if (leb s.config.max_waiters_per_request (length pending.waiters)) _
              (record s {
                pending_clients =
                    Map.put index (record pending { waiters = pending.waiters ++ token ∷ [] })
                      s.pending_clients;
              })
              (λ _. emit_reply-Firm token ClientStatus.busy [] 0 s f)
              (λ _. Firm-same refl refl refl refl f))
          (λ _. emit_reply-Firm token ClientStatus.request_id_conflict [] 0 s f))
      (λ _. emit_reply-Firm token ClientStatus.sequence_gap [] 0 s f)

admit_client-Post :
    (token : ℕ) (c : ClientCommand) (digest : ℕ) (s : RaftNode)
    → Firm s
    → Post (admit_client token c digest s)
unfolding admit_client
admit_client-Post token c digest s f = elim (Option-cases (Map.find c.session s.pending_sessions)) [
  | inl e ↦ rw (e, admit_client) (append_client-Post token c digest s f)
  | inr (index, e) ↦ elim (Option-cases (Map.find index s.pending_clients)) [
    | inl gone ↦
        rw (e, gone, admit_client)
          (append_client-Post token c digest
            (record s { pending_sessions = Map.erase c.session s.pending_sessions })
            (Firm-same refl refl refl refl f))
    | inr (pending, there) ↦
        rw (e, there, admit_client) (Post-Firm (join_pending-Firm token c digest index pending s f))
  ]
]

answered-Post :
    (token : ℕ) (c : ClientCommand) (s : RaftNode) (o : Option (ClientStatus × Bytes × ℕ))
    → Firm s
    → Post (elim o as (λ _. RaftNode) [
      | some (status, value, index) ↦ emit_reply token status value index s
      | none ↦ admit_client token c (command_digest c) s
    ])
answered-Post token c s none f = admit_client-Post token c (command_digest c) s f
answered-Post token c s (some (status, value, index)) f =
    Post-Firm (emit_reply-Firm token status value index s f)

pub on_client_request-Post :
    (token : ℕ) (c : ClientCommand) (s : RaftNode) → Firm s → Post (on_client_request token c s)
unfolding on_client_request
on_client_request-Post token c s f =
    let refuse : (status : ClientStatus) → Post (emit_reply token status [] 0 s) =
      λ status. Post-Firm (emit_reply-Firm token status [] 0 s f) in
    Post-if (is_unavailable s.role) _ _ (λ _. refuse ClientStatus.unavailable)
      λ _.
        Post-if (is_leader s.role) _ _
          (λ _.
            Post-if s.leader_ready _ _
              (λ _.
                Post-if (command_allowed s.config c) _ _
                  (λ _.
                    answered-Post token c s
                      (applied_reply c (command_digest c) s.last_applied
                        (session c.session s.state_machine))
                      f)
                  (λ _. refuse ClientStatus.invalid_request))
              (λ _. refuse ClientStatus.leader_not_ready))
          (λ _. refuse ClientStatus.not_leader)

pub on_timer-Post :
    (kind : TimerKind) (generation : ℕ) (s : RaftNode) → Firm s → Post (on_timer kind generation s)
unfolding on_timer
on_timer-Post TimerKind.election generation s f =
    Post-if
      (eqb generation s.election_generation
        && not (is_leader s.role)
        && not (is_unavailable s.role))
      _ s (λ _. begin_election-Post s f) (λ _. Post-Firm f)
on_timer-Post TimerKind.heartbeat generation s f =
    let t = record s { peers = age_all s.config.append_retry_heartbeats s.peers } in
    Post-if (eqb generation s.heartbeat_generation && is_leader s.role) _ s
      (λ _. Post-Firm (
        schedule_heartbeat-Firm (send_all_appends t)
          (send_all_appends-Firm t (Firm-same refl refl refl refl f))))
      (λ _. Post-Firm f)
