-- ===== src/Raft/Safety/Response.antt =====
-- AppendEntries responses, client requests and timers keep the safety relation.
use det_log.Prelude.{
  arith, refl, ℕ, ◌&&◌, Option, none, some, [], inl, inr, Option-cases, ltb, leb, eqb, u64_max,
  length, inc64, max,
}
use det_log.Prelude.Key.{nat_key}
use det_log.Prelude.Map
use det_log.Model.{
  Bytes, AppendEntriesResponse, TraceKind, TimerKind, ClientCommand, ClientStatus, session_key,
}
use det_log.StateMachine.{command_digest, session}
use det_log.Raft.State.{
  RaftNode, InflightAppend, PeerProgress, PendingClientEntry, is_leader, is_unavailable,
}
use det_log.Raft.Log.{command_allowed, last_log_index, can_append_client}
use det_log.Raft.Emit.{emit_reply, schedule_heartbeat}
use det_log.Raft.Replicate.{send_append, send_all_appends, maybe_advance_commit}
use det_log.Raft.Response.{
  acknowledge, take_response, match_response, on_append_entries_response, set_progress, backed_off,
}
use det_log.Raft.Client.{
  client_stored, applied_reply, client_entry, append_client, join_pending, admit_client,
  on_client_request,
}
use det_log.Raft.Step.{on_timer, age_all}
use det_log.Raft.Election.{begin_election}
use det_log.Raft.Quiet.{
  Quiet, Quiet-trans, Quiet-if, trace-Quiet, emit_reply-Quiet, schedule_heartbeat-Quiet,
}
use det_log.Raft.Quiet.Sends.{send_append-Quiet, send_next-Quiet, send_all_appends-Quiet}
use det_log.Raft.Safety.{Safe, Safe-refl, Safe-trans, Safe-Quiet, Safe-if}
use det_log.Raft.Safety.Commit.{maybe_advance_commit-Safe}
use det_log.Raft.Safety.Election.{
  observe_response_term-Safe, append_entry-Safe, begin_election-Safe,
}

pub set_progress-Quiet :
    (peer : ℕ) (progress : PeerProgress) (s : RaftNode) → Quiet s (set_progress peer progress s)
set_progress-Quiet peer progress s = record {
  core = refl;
  config = refl;
  thrown = refl;
  idle = λ h. h;
  queue = omega arith;
}

acknowledge-Safe :
    (from : ℕ) (sent : InflightAppend) (progress : PeerProgress) (s : RaftNode)
    → Safe s.core (acknowledge from sent progress s).core
unfolding acknowledge
acknowledge-Safe from sent progress s =
    let matched = max progress.match_index sent.last_index in
    let t =
      set_progress from
        (record {
          next_index = inc64 matched;
          match_index = matched;
          inflight = none;
          inflight_heartbeat_age = 0;
        })
        s in
    Safe-trans t.core (maybe_advance_commit t).core _ (maybe_advance_commit-Safe t)
      (Safe-Quiet (send_next-Quiet from (maybe_advance_commit t)))

take_response-Safe :
    (from : ℕ) (response : AppendEntriesResponse) (sent : InflightAppend) (progress : PeerProgress)
    (s : RaftNode)
    → Safe s.core (take_response from response sent progress s).core
unfolding take_response
take_response-Safe from response sent progress s =
    let cleared = record progress { inflight = none; inflight_heartbeat_age = 0 } in
    let t = set_progress from cleared s in
    let u = set_progress from (record cleared { next_index = backed_off response progress s }) s in
    Safe-if response.success s.core _ (send_append from u)
      (λ _.
        Safe-if (ltb response.match_index sent.last_index) s.core t _ (λ _. Safe-refl s.core)
          (λ _. acknowledge-Safe from sent progress s))
      (λ _.
        Safe-Quiet (Quiet-trans {t = u} (set_progress-Quiet from _ s) (send_append-Quiet from u)))

match_response-Safe :
    (from : ℕ) (response : AppendEntriesResponse) (progress : Option PeerProgress) (s : RaftNode)
    → Safe s.core (match_response from response progress s).core
unfolding match_response
match_response-Safe from response none s = Safe-refl s.core
match_response-Safe from response (some progress) s = elim (Option-cases progress.inflight) [
  | inl e ↦ rw (e, match_response) (Safe-refl s.core)
  | inr (sent, e) ↦
      rw (e, match_response)
        (Safe-if (eqb sent.rpc_id response.rpc_id) s.core _ s
          (λ _. take_response-Safe from response sent progress s) (λ _. Safe-refl s.core))
]

pub on_append_entries_response-Safe :
    (from : ℕ) (response : AppendEntriesResponse) (s : RaftNode)
    → Safe s.core (on_append_entries_response from response s).core
unfolding on_append_entries_response
on_append_entries_response-Safe from response s =
    Safe-if (ltb s.hard_state.current_term response.term) s.core _ _
      (λ _. observe_response_term-Safe response.term s)
      (λ _.
        Safe-if (is_leader s.role && eqb response.term s.hard_state.current_term) s.core
          (match_response from response (Map.find from s.peers) s) s
          (λ _. match_response-Safe from response (Map.find from s.peers) s)
          (λ _. Safe-refl s.core))

pub client_stored-Safe : (s : RaftNode) → Safe s.core (client_stored s).core
unfolding client_stored
client_stored-Safe s =
    Safe-if (is_leader s.role) s.core _ s
      (λ _.
        Safe-trans s.core (send_all_appends s).core _ (Safe-Quiet (send_all_appends-Quiet s))
          (maybe_advance_commit-Safe (send_all_appends s)))
      (λ _. Safe-refl s.core)

append_client-Safe :
    (token : ℕ) (c : ClientCommand) (digest : ℕ) (s : RaftNode)
    → Safe s.core (append_client token c digest s).core
unfolding append_client
append_client-Safe token c digest s =
    Safe-if (eqb (last_log_index s.log) u64_max) s.core _ _
      (λ _. Safe-Quiet (emit_reply-Quiet token ClientStatus.busy [] 0 s))
      (λ _.
        Safe-if (can_append_client s.config s.log s.commit_index (client_entry c s)) s.core _ _
          (λ _.
            append_entry-Safe (client_entry c s) _ _ _ s _
              (Quiet-trans
                (record {
                  core = refl;
                  config = refl;
                  thrown = refl;
                  idle = λ h. h;
                  queue = omega arith;
                })
                (trace-Quiet TraceKind.log_change _ _ _))
              (client_stored-Safe _))
          (λ _. Safe-Quiet (
            Quiet-trans (trace-Quiet TraceKind.queue_saturated _ 0 s)
              (emit_reply-Quiet token ClientStatus.busy [] 0 _))))

pub join_pending-Quiet :
    (token : ℕ) (c : ClientCommand) (digest index : ℕ) (pending : PendingClientEntry) (s : RaftNode)
    → Quiet s (join_pending token c digest index pending s)
unfolding join_pending
join_pending-Quiet token c digest index pending s =
    Quiet-if (eqb pending.command.sequence c.sequence) s _ _
      (Quiet-if (eqb pending.digest digest) s _ _
        (Quiet-if (leb s.config.max_waiters_per_request (length pending.waiters)) s _ _
          (emit_reply-Quiet token ClientStatus.busy [] 0 s)
          (record {
            core = refl;
            config = refl;
            thrown = refl;
            idle = λ h. h;
            queue = omega arith;
          }))
        (emit_reply-Quiet token ClientStatus.request_id_conflict [] 0 s))
      (emit_reply-Quiet token ClientStatus.sequence_gap [] 0 s)

admit_client-Safe :
    (token : ℕ) (c : ClientCommand) (digest : ℕ) (s : RaftNode)
    → Safe s.core (admit_client token c digest s).core
unfolding admit_client
admit_client-Safe token c digest s = elim (Option-cases (Map.find c.session s.pending_sessions)) [
  | inl e ↦ rw (e, admit_client) (append_client-Safe token c digest s)
  | inr (index, e) ↦ elim (Option-cases (Map.find index s.pending_clients)) [
    | inl gone ↦
        rw (e, gone, admit_client)
          (append_client-Safe token c digest
            (record s { pending_sessions = Map.erase c.session s.pending_sessions }))
    | inr (pending, there) ↦
        rw (e, there, admit_client) (Safe-Quiet (join_pending-Quiet token c digest index pending s))
  ]
]

answered-Safe :
    (token : ℕ) (c : ClientCommand) (s : RaftNode) (o : Option (ClientStatus × Bytes × ℕ))
    → Safe s.core
        (elim o as (λ _. RaftNode) [
          | some (status, value, index) ↦ emit_reply token status value index s
          | none ↦ admit_client token c (command_digest c) s
        ]).core
answered-Safe token c s none = admit_client-Safe token c (command_digest c) s
answered-Safe token c s (some (status, value, index)) =
    Safe-Quiet (emit_reply-Quiet token status value index s)

pub on_client_request-Safe :
    (token : ℕ) (c : ClientCommand) (s : RaftNode) → Safe s.core (on_client_request token c s).core
unfolding on_client_request
on_client_request-Safe token c s =
    Safe-if (is_unavailable s.role) s.core _ _
      (λ _. Safe-Quiet (emit_reply-Quiet token ClientStatus.unavailable [] 0 s))
      (λ _.
        Safe-if (is_leader s.role) s.core _ _
          (λ _.
            Safe-if s.leader_ready s.core _ _
              (λ _.
                Safe-if (command_allowed s.config c) s.core _ _
                  (λ _. answered-Safe token c s (
                    applied_reply c (command_digest c) s.last_applied
                      (session c.session s.state_machine)))
                  (λ _. Safe-Quiet (emit_reply-Quiet token ClientStatus.invalid_request [] 0 s)))
              (λ _. Safe-Quiet (emit_reply-Quiet token ClientStatus.leader_not_ready [] 0 s)))
          (λ _. Safe-Quiet (emit_reply-Quiet token ClientStatus.not_leader [] 0 s)))

pub on_timer-Safe :
    (kind : TimerKind) (generation : ℕ) (s : RaftNode)
    → Safe s.core (on_timer kind generation s).core
unfolding on_timer
on_timer-Safe TimerKind.election generation s =
    Safe-if _ s.core (begin_election s) s (λ _. begin_election-Safe s) (λ _. Safe-refl s.core)
on_timer-Safe TimerKind.heartbeat generation s =
    let t = record s { peers = age_all s.config.append_retry_heartbeats s.peers } in
    Safe-if _ s.core (schedule_heartbeat (send_all_appends t)) s
      (λ _.
        Safe-Quiet {s = t}
          (Quiet-trans (send_all_appends-Quiet t) (schedule_heartbeat-Quiet (send_all_appends t))))
      (λ _. Safe-refl s.core)
