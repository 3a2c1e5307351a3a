-- ===== src/Raft/Safety/Election.antt =====
-- Elections, votes and the readiness entry keep the safety relation.
use det_log.Prelude.{
  refl, ℕ, Bool, true, false, Option, none, arith, ltb, leb, eqb, is_some, is_some-none, u64_max,
  length,
}
use det_log.Model.{
  HardState, PersistBatch, RequestVote, RequestVoteResponse, TraceKind, batch_empty, LogEntry,
}
use det_log.Raft.State.{RaftNode, Continuation, is_leader, is_follower, quorum_size}
use det_log.Raft.Log.{can_append, last_log_index}
use det_log.Raft.Emit.{trace, schedule_election, schedule_heartbeat}
use det_log.Raft.Persist.{begin_persist, step_down, observe_term, become_follower}
use det_log.Raft.Replicate.{send_all_appends}
use det_log.Raft.Election.{
  persist_then, optional_hard, stand, begin_election, election_stored, vote_stored, grants,
  vote_for, decide_vote, on_request_vote, no_op_stored, no_op, append_no_op, append_log, lead,
  give_up_leading, become_leader, observe_response_term, record_vote, count_votes, vote_counts,
  on_request_vote_response,
}
use det_log.Raft.Quiet.{
  Quiet, Quiet-refl, Quiet-trans, Quiet-if, trace-Quiet, fail_storage-Quiet,
  schedule_election-Quiet, schedule_heartbeat-Quiet, send_message-Quiet,
}
use det_log.Raft.Quiet.Sends.{
  election_stored-Quiet, vote_stored-Quiet, send_all_appends-Quiet, record_vote-Quiet,
}
use det_log.Raft.Safety.{Safe, Safe-refl, Safe-trans, Safe-Quiet, Safe-if, Safe-hard, Safe-extend}
use det_log.Raft.Safety.Commit.{begin_persist-Safe, maybe_advance_commit-Safe}

pub persist_then-Safe :
    (batch : PersistBatch) (after : Continuation) (now : RaftNode → RaftNode) (s : RaftNode)
    → Safe s.core (now s).core
    → Safe s.core (persist_then batch after now s).core
unfolding persist_then
persist_then-Safe batch after now s h =
    Safe-if (batch_empty batch) s.core _ _ (λ _. h) (λ _. begin_persist-Safe batch after now s h)

observe_term-Safe : (term : ℕ) (s : RaftNode) → Safe s.core (observe_term term s).core
observe_term-Safe term s =
    Safe-if (ltb s.hard_state.current_term term) s.core _ s
      (λ higher.
        Safe-trans s.core
          (record s.core { hard_state = record { current_term = term; voted_for = none } }) _
          (Safe-hard s.core _ (ground arith) (λ e. absurd (ground arith)))
          (Safe-Quiet (trace-Quiet TraceKind.term_change _ 0 _)))
      (λ _. Safe-refl s.core)

-- What step_down does after the term.
pub step_down-Quiet :
    (term : ℕ) (hint : Option ℕ) (timer : Bool) (s : RaftNode)
    → Quiet (observe_term term s) (step_down term hint timer s)
unfolding step_down
step_down-Quiet term hint timer s =
    let u = become_follower hint (observe_term term s) in
    let follows : Quiet (observe_term term s) u = record {
      core = refl;
      config = refl;
      thrown = refl;
      idle = λ h. h;
      queue = omega arith;
    } in
    Quiet-trans follows (
      Quiet-trans
        (Quiet-if (is_follower s.role) u _ _ (Quiet-refl u)
          (trace-Quiet TraceKind.role_change _ 0 u))
        (Quiet-if timer _ _ _ (schedule_election-Quiet _) (Quiet-refl _)))

pub step_down-Safe :
    (term : ℕ) (hint : Option ℕ) (timer : Bool) (s : RaftNode)
    → Safe s.core (step_down term hint timer s).core
step_down-Safe term hint timer s =
    Safe-trans s.core (observe_term term s).core _ (observe_term-Safe term s)
      (Safe-Quiet (step_down-Quiet term hint timer s))

pub begin_election-Safe : (s : RaftNode) → Safe s.core (begin_election s).core
unfolding begin_election
begin_election-Safe s =
    Safe-if (eqb s.hard_state.current_term u64_max) s.core _ _
      (λ _. Safe-Quiet (fail_storage-Quiet "term counter overflow" s))
      λ _.
        let t0 = stand s in
        let t1 = trace TraceKind.term_change "started election" 0 t0 in
        let t2 = trace TraceKind.role_change "became candidate" 0 t1 in
        let t3 = trace TraceKind.vote "recorded self vote" 0 t2 in
        let traced = Quiet-trans (trace-Quiet TraceKind.term_change "started election" 0 t0) (
          Quiet-trans (trace-Quiet TraceKind.role_change "became candidate" 0 t1)
            (trace-Quiet TraceKind.vote "recorded self vote" 0 t2)) in
        Safe-trans s.core t0.core _ (Safe-hard s.core _ (omega arith) (λ e. absurd (omega arith))) (
          Safe-trans t0.core t3.core _ (Safe-Quiet traced)
            (begin_persist-Safe _ _ election_stored t3 (Safe-Quiet (election_stored-Quiet t3))))

vote-Safe :
    (from : ℕ) (grant was_leader : Bool) (stored : Option HardState) (s : RaftNode)
    → Safe s.core
        (persist_then
          (optional_hard stored)
          (Continuation.after_vote from grant was_leader)
          (vote_stored from grant was_leader)
          s).core
vote-Safe from grant was_leader stored s =
    persist_then-Safe _ _ _ s (Safe-Quiet (vote_stored-Quiet from grant was_leader s))

decide_vote-Safe :
    (from : ℕ) (request : RequestVote) (was_leader : Bool) (stored : Option HardState)
    (s : RaftNode)
    → Safe s.core (decide_vote from request was_leader stored s).core
unfolding decide_vote
decide_vote-Safe from request was_leader stored s =
    let first = record s {
      core = record s.core { hard_state = vote_for request.candidate_id s.hard_state };
    } in
    Safe-if (grants request s) s.core _ _
      (λ _.
        Safe-if (is_some s.hard_state.voted_for) s.core _ _
          (λ _. vote-Safe from true was_leader stored s)
          (λ free.
            Safe-trans s.core first.core _
              (Safe-hard s.core _ (omega arith) (λ _. is_some-none s.hard_state.voted_for free))
              (vote-Safe from true was_leader _ first)))
      (λ _. vote-Safe from false was_leader stored s)

pub on_request_vote-Safe :
    (from : ℕ) (request : RequestVote) (s : RaftNode)
    → Safe s.core (on_request_vote from request s).core
unfolding on_request_vote
on_request_vote-Safe from request s =
    Safe-if (eqb request.term 0) s.core s _ (λ _. Safe-refl s.core)
      λ _.
        Safe-if (eqb request.candidate_id from) s.core _ s
          (λ _.
            Safe-if (ltb request.term s.hard_state.current_term) s.core _ _
              (λ _. Safe-Quiet (send_message-Quiet from _ s))
              (λ _.
                Safe-if (ltb s.hard_state.current_term request.term) s.core _ _
                  (λ _.
                    Safe-trans s.core (step_down request.term none false s).core _
                      (step_down-Safe request.term none false s)
                      (decide_vote-Safe from request (is_leader s.role) _ _))
                  (λ _. decide_vote-Safe from request (is_leader s.role) none s)))
          (λ _. Safe-refl s.core)

pub no_op_stored-Safe : (s : RaftNode) → Safe s.core (no_op_stored s).core
unfolding no_op_stored
no_op_stored-Safe s =
    Safe-if (is_leader s.role) s.core _ s
      (λ _.
        let t = schedule_heartbeat (send_all_appends s) in
        Safe-trans s.core t.core _
          (Safe-Quiet (Quiet-trans (send_all_appends-Quiet s) (schedule_heartbeat-Quiet _)))
          (maybe_advance_commit-Safe t))
      (λ _. Safe-refl s.core)

-- An entry goes to the end of the log, and is stored.
pub append_entry-Safe :
    (entry : LogEntry) (batch : PersistBatch) (after : Continuation) (now : RaftNode → RaftNode)
    (s t : RaftNode)
    → Quiet (append_log entry s) t
    → Safe t.core (now t).core
    → Safe s.core (begin_persist batch after now t).core
append_entry-Safe entry batch after now s t q h =
    Safe-trans s.core (append_log entry s).core _ (Safe-extend s.core _) (
      Safe-trans (append_log entry s).core t.core _ (Safe-Quiet q)
        (begin_persist-Safe batch after now t h))

pub give_up-Quiet :
    (s : RaftNode)
    → Quiet s
        (give_up_leading (trace TraceKind.queue_saturated "no room for leader readiness entry" 0 s))
give_up-Quiet s =
    let t = trace TraceKind.queue_saturated "no room for leader readiness entry" 0 s in
    Quiet-trans {t = t} (trace-Quiet TraceKind.queue_saturated _ 0 s)
      (record { core = refl; config = refl; thrown = refl; idle = λ h. h; queue = omega arith })

append_no_op-Safe : (s : RaftNode) → Safe s.core (append_no_op s).core
unfolding append_no_op
append_no_op-Safe s =
    Safe-if (eqb (last_log_index s.log) u64_max) s.core _ _
      (λ _. Safe-Quiet (fail_storage-Quiet "log index overflow" s))
      λ _.
        Safe-if (can_append s.config s.log s.commit_index (no_op s)) s.core _ _
          (λ _.
            append_entry-Safe (no_op s) _ _ _ s _
              (Quiet-trans
                (record {
                  core = refl;
                  config = refl;
                  thrown = refl;
                  idle = λ h. h;
                  queue = omega arith;
                })
                (trace-Quiet TraceKind.log_change _ _ _))
              (no_op_stored-Safe _))
          (λ _. Safe-Quiet (Quiet-trans (give_up-Quiet s) (schedule_election-Quiet _)))

become_leader-Safe : (s : RaftNode) → Safe s.core (become_leader s).core
unfolding become_leader
become_leader-Safe s =
    let t = trace TraceKind.role_change "became leader" 0 (lead s) in
    Safe-trans s.core t.core _
      (Safe-Quiet {s = lead s} (trace-Quiet TraceKind.role_change "became leader" 0 (lead s)))
      (append_no_op-Safe t)

pub observe_response_term-Safe :
    (term : ℕ) (s : RaftNode) → Safe s.core (observe_response_term term s).core
unfolding observe_response_term
observe_response_term-Safe term s =
    Safe-trans s.core (step_down term none false s).core _ (step_down-Safe term none false s)
      (begin_persist-Safe _ _ schedule_election _ (Safe-Quiet (schedule_election-Quiet _)))

count_votes-Safe : (s : RaftNode) → Safe s.core (count_votes s).core
unfolding count_votes
count_votes-Safe s =
    Safe-if (leb (quorum_size s.config) (length s.votes_received)) s.core _ s
      (λ _. become_leader-Safe s) (λ _. Safe-refl s.core)

pub on_request_vote_response-Safe :
    (from : ℕ) (response : RequestVoteResponse) (s : RaftNode)
    → Safe s.core (on_request_vote_response from response s).core
unfolding on_request_vote_response
on_request_vote_response-Safe from response s =
    let t = record_vote from s in
    Safe-if (ltb s.hard_state.current_term response.term) s.core _ _
      (λ _. observe_response_term-Safe response.term s)
      (λ _.
        Safe-if (vote_counts response s) s.core (count_votes t) s
          (λ _.
            Safe-trans s.core t.core _ (Safe-Quiet (record_vote-Quiet from s)) (count_votes-Safe t))
          (λ _. Safe-refl s.core))
