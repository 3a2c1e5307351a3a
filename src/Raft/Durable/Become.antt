-- ===== src/Raft/Durable/Become.antt =====
-- Becoming leader, and the responses that count votes or show a higher term.
use det_log.Prelude.{refl, ℕ, false, none, [], ◌∷◌, ◌++◌, eqb, ltb, leb, length, u64_max}
use det_log.Model.{LogEntry, RequestVoteResponse, TraceKind}
use det_log.Raft.State.{Core, RaftNode, Continuation, is_leader, quorum_size}
use det_log.Raft.Log.{last_log_index, can_append}
use det_log.Raft.Emit.{trace, emit, schedule_election, schedule_heartbeat}
use det_log.Raft.Persist.{step_down}
use det_log.Raft.Step.{batch_durable}
use det_log.Raft.Replicate.{send_all_appends}
use det_log.Raft.Election.{
  hard_batch, no_op_stored, append_no_op, become_leader, lead, no_op, append_log, entry_batch,
  give_up_leading, observe_response_term, record_vote, count_votes, vote_counts,
  on_request_vote_response,
}
use det_log.Raft.Durable.{Settled, Firm, Post, Calm-Firm, Post-Firm, Post-if, Firm-same}
use det_log.Raft.Durable.Sends.{
  trace-Firm, schedule_election-Firm, schedule_heartbeat-Firm, fail_storage-Firm,
  send_all_appends-Firm, record_vote-Firm,
}
use det_log.Raft.Durable.Begin.{begin_persist-Post}
use det_log.Raft.Durable.Apply.{maybe_advance_commit-Post}
use det_log.Raft.Durable.Election.{Yielded-Settled, step_down-Yielded, trace-Calm}

pub no_op_stored-Post : (s : RaftNode) → Firm s → Post (no_op_stored s)
unfolding no_op_stored
no_op_stored-Post s f =
    Post-if (is_leader s.role) _ s
      (λ _.
        maybe_advance_commit-Post (schedule_heartbeat (send_all_appends s))
          (schedule_heartbeat-Firm (send_all_appends s) (send_all_appends-Firm s f)))
      (λ _. Post-Firm f)

-- A log with one more entry at its end is stored by the batch that has the entry.
pub extended-Settled :
    (entry : LogEntry) (c : Core)
    → Settled c
    → Settled (batch_durable (entry_batch entry) (record c { log = c.log ++ entry ∷ [] }))
unfolding batch_durable
extended-Settled entry c h = record { hard = h.hard; last = refl; commit = h.commit }

append_no_op-Post : (s : RaftNode) → Firm s → Post (append_no_op s)
unfolding append_no_op trace emit
append_no_op-Post s f =
    let appended = record (append_log (no_op s) s) { readiness_index = (no_op s).index } in
    let t = trace TraceKind.log_change "appended leader readiness no-op" (no_op s).index appended in
    let full = trace TraceKind.queue_saturated "no room for leader readiness entry" 0 s in
    Post-if (eqb (last_log_index s.log) u64_max) _ _
      (λ _. Post-Firm (fail_storage-Firm "log index overflow" s f))
      λ _.
        Post-if (can_append s.config s.log s.commit_index (no_op s)) _ _
          (λ _.
            begin_persist-Post (entry_batch (no_op s)) Continuation.after_no_op no_op_stored t
              (trace-Calm TraceKind.log_change _ _ appended
                (record { idle = f.idle; thrown = f.thrown; sent = f.sent }))
              (extended-Settled (no_op s) s.core f.settled) tt (no_op_stored-Post t))
          (λ _. Post-Firm (
            schedule_election-Firm (give_up_leading full)
              (Firm-same refl refl refl refl (trace-Firm TraceKind.queue_saturated _ 0 s f))))

become_leader-Post : (s : RaftNode) → Firm s → Post (become_leader s)
unfolding become_leader
become_leader-Post s f =
    append_no_op-Post (trace TraceKind.role_change "became leader" 0 (lead s)) (
      trace-Firm TraceKind.role_change "became leader" 0 (lead s) (Firm-same refl refl refl refl f))

pub observe_response_term-Post :
    (term : ℕ) (s : RaftNode) → Firm s → Post (observe_response_term term s)
unfolding observe_response_term
observe_response_term-Post term s f =
    let t = step_down term none false s in
    let y = step_down-Yielded term none s (Calm-Firm f) in
    begin_persist-Post (hard_batch t.hard_state) Continuation.after_step_down schedule_election t
      y.calm (Yielded-Settled s t f y) tt (λ g. Post-Firm (schedule_election-Firm t g))

count_votes-Post : (s : RaftNode) → Firm s → Post (count_votes s)
unfolding count_votes
count_votes-Post s f =
    Post-if (leb (quorum_size s.config) (length s.votes_received)) _ s (λ _. become_leader-Post s f)
      (λ _. Post-Firm f)

pub on_request_vote_response-Post :
    (from : ℕ) (response : RequestVoteResponse) (s : RaftNode)
    → Firm s
    → Post (on_request_vote_response from response s)
unfolding on_request_vote_response
on_request_vote_response-Post from response s f =
    Post-if (ltb s.hard_state.current_term response.term) _ _
      (λ _. observe_response_term-Post response.term s f)
      (λ _.
        Post-if (vote_counts response s) _ s
          (λ _. count_votes-Post (record_vote from s) (record_vote-Firm from s f))
          (λ _. Post-Firm f))
