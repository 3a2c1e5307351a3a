-- ===== src/Raft/Queue/Serve.antt =====
-- Responses, client requests and timers leave the queue.
use det_log.Prelude.{
  arith, refl, ℕ, ◌&&◌, Option, none, some, [], inl, inr, Option-cases, ltb, eqb, u64_max, inc64,
  max,
}
use det_log.Prelude.Key.{nat_key}
use det_log.Prelude.Map
use det_log.Model.{
  Bytes, AppendEntriesResponse, TraceKind, TimerKind, ClientCommand, ClientStatus, session_key,
}
use det_log.StateMachine.{command_digest, session}
use det_log.Raft.State.{RaftNode, InflightAppend, PeerProgress, is_leader, is_unavailable}
use det_log.Raft.Log.{command_allowed, last_log_index, can_append_client}
use det_log.Raft.Emit.{emit_reply, schedule_heartbeat}
use det_log.Raft.Replicate.{send_append, send_all_appends, maybe_advance_commit}
use det_log.Raft.Response.{
  acknowledge, take_response, match_response, on_append_entries_response, set_progress, backed_off,
}
use det_log.Raft.Client.{
  client_stored, applied_reply, client_entry, append_client, admit_client, on_client_request,
}
use det_log.Raft.Step.{on_timer, age_all}
use det_log.Raft.Election.{begin_election}
use det_log.Raft.Quiet.{Quiet-trans, trace-Quiet, emit_reply-Quiet, schedule_heartbeat-Quiet}
use det_log.Raft.Quiet.Sends.{send_append-Quiet, send_next-Quiet, send_all_appends-Quiet}
use det_log.Raft.Safety.Response.{set_progress-Quiet, join_pending-Quiet}
use det_log.Raft.Queue.{
  Shrinks-from, Shrinks, Shrinks-same, Shrinks-refl, Shrinks-trans, Shrinks-Quiet, Shrinks-if,
}
use det_log.Raft.Queue.Store.{maybe_advance_commit-Shrinks}
use det_log.Raft.Queue.Vote.{
  observe_response_term-Shrinks, append_entry-Shrinks, begin_election-Shrinks,
}

acknowledge-Shrinks :
    (from : ℕ) (sent : InflightAppend) (progress : PeerProgress) (s : RaftNode)
    → Shrinks s (acknowledge from sent progress s)
unfolding acknowledge
acknowledge-Shrinks from sent progress s =
    let matched = max progress.match_index sent.last_index in
    let t =
      set_progress from
        (record {
          next_index = inc64 matched;
          match_index = matched;
          inflight = none;
          inflight_heartbeat_age = 0;
        })
        s in
    Shrinks-from s t refl (
      Shrinks-trans t (maybe_advance_commit t) _ (maybe_advance_commit-Shrinks t)
        (Shrinks-Quiet (send_next-Quiet from (maybe_advance_commit t))))

take_response-Shrinks :
    (from : ℕ) (response : AppendEntriesResponse) (sent : InflightAppend) (progress : PeerProgress)
    (s : RaftNode)
    → Shrinks s (take_response from response sent progress s)
unfolding take_response
take_response-Shrinks from response sent progress s =
    let cleared = record progress { inflight = none; inflight_heartbeat_age = 0 } in
    let t = set_progress from cleared s in
    let u = set_progress from (record cleared { next_index = backed_off response progress s }) s in
    Shrinks-if response.success s _ (send_append from u)
      (λ _.
        Shrinks-if (ltb response.match_index sent.last_index) s t _ (λ _. Shrinks-same refl)
          (λ _. acknowledge-Shrinks from sent progress s))
      (λ _.
        Shrinks-Quiet
          (Quiet-trans {t = u} (set_progress-Quiet from _ s) (send_append-Quiet from u)))

match_response-Shrinks :
    (from : ℕ) (response : AppendEntriesResponse) (progress : Option PeerProgress) (s : RaftNode)
    → Shrinks s (match_response from response progress s)
unfolding match_response
match_response-Shrinks from response none s = Shrinks-refl s
match_response-Shrinks from response (some progress) s = elim (Option-cases progress.inflight) [
  | inl e ↦ rw (e, match_response) (Shrinks-refl s)
  | inr (sent, e) ↦
      rw (e, match_response)
        (Shrinks-if (eqb sent.rpc_id response.rpc_id) s _ s
          (λ _. take_response-Shrinks from response sent progress s) (λ _. Shrinks-refl s))
]

pub on_append_entries_response-Shrinks :
    (from : ℕ) (response : AppendEntriesResponse) (s : RaftNode)
    → Shrinks s (on_append_entries_response from response s)
unfolding on_append_entries_response
on_append_entries_response-Shrinks from response s =
    Shrinks-if (ltb s.hard_state.current_term response.term) s _ _
      (λ _. observe_response_term-Shrinks response.term s)
      (λ _.
        Shrinks-if (is_leader s.role && eqb response.term s.hard_state.current_term) s
          (match_response from response (Map.find from s.peers) s) s
          (λ _. match_response-Shrinks from response (Map.find from s.peers) s)
          (λ _. Shrinks-refl s))

pub client_stored-Shrinks : (s : RaftNode) → Shrinks s (client_stored s)
unfolding client_stored
client_stored-Shrinks s =
    Shrinks-if (is_leader s.role) s _ s
      (λ _.
        Shrinks-trans s (send_all_appends s) _ (Shrinks-Quiet (send_all_appends-Quiet s))
          (maybe_advance_commit-Shrinks (send_all_appends s)))
      (λ _. Shrinks-refl s)

append_client-Shrinks :
    (token : ℕ) (c : ClientCommand) (digest : ℕ) (s : RaftNode)
    → Shrinks s (append_client token c digest s)
unfolding append_client
append_client-Shrinks token c digest s =
    Shrinks-if (eqb (last_log_index s.log) u64_max) s _ _
      (λ _. Shrinks-Quiet (emit_reply-Quiet token ClientStatus.busy [] 0 s))
      (λ _.
        Shrinks-if (can_append_client s.config s.log s.commit_index (client_entry c s)) s _ _
          (λ _.
            append_entry-Shrinks (client_entry c s) _ _ _ s _
              (Quiet-trans
                (record {
                  core = refl;
                  config = refl;
                  thrown = refl;
                  idle = λ h. h;
                  queue = omega arith;
                })
                (trace-Quiet TraceKind.log_change _ _ _))
              (client_stored-Shrinks _))
          (λ _. Shrinks-Quiet (
            Quiet-trans (trace-Quiet TraceKind.queue_saturated _ 0 s)
              (emit_reply-Quiet token ClientStatus.busy [] 0 _))))

admit_client-Shrinks :
    (token : ℕ) (c : ClientCommand) (digest : ℕ) (s : RaftNode)
    → Shrinks s (admit_client token c digest s)
unfolding admit_client
admit_client-Shrinks token c digest s =
    elim (Option-cases (Map.find c.session s.pending_sessions)) [
      | inl e ↦ rw (e, admit_client) (append_client-Shrinks token c digest s)
      | inr (index, e) ↦ elim (Option-cases (Map.find index s.pending_clients)) [
        | inl gone ↦
            rw (e, gone, admit_client)
              (Shrinks-from s
                (record s { pending_sessions = Map.erase c.session s.pending_sessions }) refl
                (append_client-Shrinks token c digest
                  (record s { pending_sessions = Map.erase c.session s.pending_sessions })))
        | inr (pending, there) ↦
            rw (e, there, admit_client)
              (Shrinks-Quiet (join_pending-Quiet token c digest index pending s))
      ]
    ]

answered-Shrinks :
    (token : ℕ) (c : ClientCommand) (s : RaftNode) (o : Option (ClientStatus × Bytes × ℕ))
    → Shrinks s (elim o as (λ _. RaftNode) [
      | some (status, value, index) ↦ emit_reply token status value index s
      | none ↦ admit_client token c (command_digest c) s
    ])
answered-Shrinks token c s none = admit_client-Shrinks token c (command_digest c) s
answered-Shrinks token c s (some (status, value, index)) =
    Shrinks-Quiet (emit_reply-Quiet token status value index s)

pub on_client_request-Shrinks :
    (token : ℕ) (c : ClientCommand) (s : RaftNode) → Shrinks s (on_client_request token c s)
unfolding on_client_request
on_client_request-Shrinks token c s =
    Shrinks-if (is_unavailable s.role) s _ _
      (λ _. Shrinks-Quiet (emit_reply-Quiet token ClientStatus.unavailable [] 0 s))
      (λ _.
        Shrinks-if (is_leader s.role) s _ _
          (λ _.
            Shrinks-if s.leader_ready s _ _
              (λ _.
                Shrinks-if (command_allowed s.config c) s _ _
                  (λ _. answered-Shrinks token c s (
                    applied_reply c (command_digest c) s.last_applied
                      (session c.session s.state_machine)))
                  (λ _. Shrinks-Quiet (emit_reply-Quiet token ClientStatus.invalid_request [] 0 s)))
              (λ _. Shrinks-Quiet (emit_reply-Quiet token ClientStatus.leader_not_ready [] 0 s)))
          (λ _. Shrinks-Quiet (emit_reply-Quiet token ClientStatus.not_leader [] 0 s)))

pub on_timer-Shrinks :
    (kind : TimerKind) (generation : ℕ) (s : RaftNode) → Shrinks s (on_timer kind generation s)
unfolding on_timer
on_timer-Shrinks TimerKind.election generation s =
    Shrinks-if _ s (begin_election s) s (λ _. begin_election-Shrinks s) (λ _. Shrinks-refl s)
on_timer-Shrinks TimerKind.heartbeat generation s =
    let t = record s { peers = age_all s.config.append_retry_heartbeats s.peers } in
    Shrinks-if _ s (schedule_heartbeat (send_all_appends t)) s
      (λ _. Shrinks-from s t refl (
        Shrinks-Quiet
          (Quiet-trans (send_all_appends-Quiet t) (schedule_heartbeat-Quiet (send_all_appends t)))))
      (λ _. Shrinks-refl s)
