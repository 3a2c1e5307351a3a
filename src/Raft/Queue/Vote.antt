-- ===== src/Raft/Queue/Vote.antt =====
-- Elections and votes leave the queue.
use det_log.Prelude.{
  refl, ℕ, Bool, true, false, Option, none, arith, ltb, leb, eqb, is_some, u64_max, length,
}
use det_log.Model.{
  HardState, PersistBatch, RequestVote, RequestVoteResponse, TraceKind, batch_empty, LogEntry,
}
use det_log.Raft.State.{RaftNode, Continuation, is_leader, quorum_size}
use det_log.Raft.Log.{can_append, last_log_index}
use det_log.Raft.Emit.{trace, schedule_election, schedule_heartbeat}
use det_log.Raft.Persist.{begin_persist, step_down, observe_term}
use det_log.Raft.Replicate.{send_all_appends}
use det_log.Raft.Election.{
  persist_then, optional_hard, stand, begin_election, election_stored, vote_stored, grants,
  vote_for, decide_vote, on_request_vote, no_op_stored, no_op, append_no_op, append_log, lead,
  become_leader, observe_response_term, record_vote, count_votes, vote_counts,
  on_request_vote_response,
}
use det_log.Raft.Quiet.{
  Quiet, Quiet-trans, trace-Quiet, fail_storage-Quiet, schedule_election-Quiet,
  schedule_heartbeat-Quiet, send_message-Quiet,
}
use det_log.Raft.Quiet.Sends.{
  election_stored-Quiet, vote_stored-Quiet, send_all_appends-Quiet, record_vote-Quiet,
}
use det_log.Raft.Safety.Election.{step_down-Quiet, give_up-Quiet}
use det_log.Raft.Queue.{
  Shrinks-from, Shrinks, Shrinks-same, Shrinks-refl, Shrinks-trans, Shrinks-Quiet, Shrinks-if,
}
use det_log.Raft.Queue.Store.{begin_persist-Shrinks, maybe_advance_commit-Shrinks}

pub persist_then-Shrinks :
    (batch : PersistBatch) (after : Continuation) (now : RaftNode → RaftNode) (s : RaftNode)
    → Shrinks s (now s)
    → Shrinks s (persist_then batch after now s)
unfolding persist_then
persist_then-Shrinks batch after now s h =
    Shrinks-if (batch_empty batch) s _ _ (λ _. h) (λ _. begin_persist-Shrinks batch after now s h)

observe_term-Shrinks : (term : ℕ) (s : RaftNode) → Shrinks s (observe_term term s)
observe_term-Shrinks term s =
    Shrinks-if (ltb s.hard_state.current_term term) s _ s
      (λ higher.
        let raised = record s {
          core = record s.core { hard_state = record { current_term = term; voted_for = none } };
        } in
        Shrinks-trans s raised _ (Shrinks-same refl)
          (Shrinks-Quiet (trace-Quiet TraceKind.term_change _ 0 raised)))
      (λ _. Shrinks-refl s)

pub step_down-Shrinks :
    (term : ℕ) (hint : Option ℕ) (timer : Bool) (s : RaftNode)
    → Shrinks s (step_down term hint timer s)
step_down-Shrinks term hint timer s =
    Shrinks-trans s (observe_term term s) _ (observe_term-Shrinks term s)
      (Shrinks-Quiet (step_down-Quiet term hint timer s))

pub begin_election-Shrinks : (s : RaftNode) → Shrinks s (begin_election s)
unfolding begin_election
begin_election-Shrinks s =
    Shrinks-if (eqb s.hard_state.current_term u64_max) s _ _
      (λ _. Shrinks-Quiet (fail_storage-Quiet "term counter overflow" s))
      λ _.
        let t0 = stand s in
        let t1 = trace TraceKind.term_change "started election" 0 t0 in
        let t2 = trace TraceKind.role_change "became candidate" 0 t1 in
        let t3 = trace TraceKind.vote "recorded self vote" 0 t2 in
        let traced = Quiet-trans (trace-Quiet TraceKind.term_change "started election" 0 t0) (
          Quiet-trans (trace-Quiet TraceKind.role_change "became candidate" 0 t1)
            (trace-Quiet TraceKind.vote "recorded self vote" 0 t2)) in
        Shrinks-trans s t0 _ (Shrinks-same refl) (
          Shrinks-trans t0 t3 _ (Shrinks-Quiet traced) (
            begin_persist-Shrinks _ _ election_stored t3
              (Shrinks-Quiet (election_stored-Quiet t3))))

vote-Shrinks :
    (from : ℕ) (grant was_leader : Bool) (stored : Option HardState) (s : RaftNode)
    → Shrinks s (
        persist_then
          (optional_hard stored)
          (Continuation.after_vote from grant was_leader)
          (vote_stored from grant was_leader)
          s)
vote-Shrinks from grant was_leader stored s =
    persist_then-Shrinks _ _ _ s (Shrinks-Quiet (vote_stored-Quiet from grant was_leader s))

decide_vote-Shrinks :
    (from : ℕ) (request : RequestVote) (was_leader : Bool) (stored : Option HardState)
    (s : RaftNode)
    → Shrinks s (decide_vote from request was_leader stored s)
unfolding decide_vote
decide_vote-Shrinks from request was_leader stored s =
    let first = record s {
      core = record s.core { hard_state = vote_for request.candidate_id s.hard_state };
    } in
    Shrinks-if (grants request s) s _ _
      (λ _.
        Shrinks-if (is_some s.hard_state.voted_for) s _ _
          (λ _. vote-Shrinks from true was_leader stored s)
          (λ free.
            Shrinks-trans s first _ (Shrinks-same refl)
              (vote-Shrinks from true was_leader _ first)))
      (λ _. vote-Shrinks from false was_leader stored s)

pub on_request_vote-Shrinks :
    (from : ℕ) (request : RequestVote) (s : RaftNode) → Shrinks s (on_request_vote from request s)
unfolding on_request_vote
on_request_vote-Shrinks from request s =
    Shrinks-if (eqb request.term 0) s s _ (λ _. Shrinks-refl s)
      λ _.
        Shrinks-if (eqb request.candidate_id from) s _ s
          (λ _.
            Shrinks-if (ltb request.term s.hard_state.current_term) s _ _
              (λ _. Shrinks-Quiet (send_message-Quiet from _ s))
              (λ _.
                Shrinks-if (ltb s.hard_state.current_term request.term) s _ _
                  (λ _.
                    Shrinks-trans s (step_down request.term none false s) _
                      (step_down-Shrinks request.term none false s)
                      (decide_vote-Shrinks from request (is_leader s.role) _ _))
                  (λ _. decide_vote-Shrinks from request (is_leader s.role) none s)))
          (λ _. Shrinks-refl s)

pub no_op_stored-Shrinks : (s : RaftNode) → Shrinks s (no_op_stored s)
unfolding no_op_stored
no_op_stored-Shrinks s =
    Shrinks-if (is_leader s.role) s _ s
      (λ _.
        let t = schedule_heartbeat (send_all_appends s) in
        Shrinks-trans s t _
          (Shrinks-Quiet (Quiet-trans (send_all_appends-Quiet s) (schedule_heartbeat-Quiet _)))
          (maybe_advance_commit-Shrinks t))
      (λ _. Shrinks-refl s)

-- An entry goes to the end of the log, and is stored.
pub append_entry-Shrinks :
    (entry : LogEntry) (batch : PersistBatch) (after : Continuation) (now : RaftNode → RaftNode)
    (s t : RaftNode)
    → Quiet (append_log entry s) t
    → Shrinks t (now t)
    → Shrinks s (begin_persist batch after now t)
append_entry-Shrinks entry batch after now s t q h =
    Shrinks-trans s (append_log entry s) _ (Shrinks-same refl) (
      Shrinks-trans (append_log entry s) t _ (Shrinks-Quiet q)
        (begin_persist-Shrinks batch after now t h))

append_no_op-Shrinks : (s : RaftNode) → Shrinks s (append_no_op s)
unfolding append_no_op
append_no_op-Shrinks s =
    Shrinks-if (eqb (last_log_index s.log) u64_max) s _ _
      (λ _. Shrinks-Quiet (fail_storage-Quiet "log index overflow" s))
      λ _.
        Shrinks-if (can_append s.config s.log s.commit_index (no_op s)) s _ _
          (λ _.
            append_entry-Shrinks (no_op s) _ _ _ s _
              (Quiet-trans
                (record {
                  core = refl;
                  config = refl;
                  thrown = refl;
                  idle = λ h. h;
                  queue = omega arith;
                })
                (trace-Quiet TraceKind.log_change _ _ _))
              (no_op_stored-Shrinks _))
          (λ _. Shrinks-Quiet (Quiet-trans (give_up-Quiet s) (schedule_election-Quiet _)))

become_leader-Shrinks : (s : RaftNode) → Shrinks s (become_leader s)
unfolding become_leader
become_leader-Shrinks s =
    let t = trace TraceKind.role_change "became leader" 0 (lead s) in
    Shrinks-from s (lead s) refl (
      Shrinks-trans (lead s) t _
        (Shrinks-Quiet (trace-Quiet TraceKind.role_change "became leader" 0 (lead s)))
        (append_no_op-Shrinks t))

pub observe_response_term-Shrinks :
    (term : ℕ) (s : RaftNode) → Shrinks s (observe_response_term term s)
unfolding observe_response_term
observe_response_term-Shrinks term s =
    Shrinks-trans s (step_down term none false s) _ (step_down-Shrinks term none false s)
      (begin_persist-Shrinks _ _ schedule_election _ (Shrinks-Quiet (schedule_election-Quiet _)))

count_votes-Shrinks : (s : RaftNode) → Shrinks s (count_votes s)
unfolding count_votes
count_votes-Shrinks s =
    Shrinks-if (leb (quorum_size s.config) (length s.votes_received)) s _ s
      (λ _. become_leader-Shrinks s) (λ _. Shrinks-refl s)

pub on_request_vote_response-Shrinks :
    (from : ℕ) (response : RequestVoteResponse) (s : RaftNode)
    → Shrinks s (on_request_vote_response from response s)
unfolding on_request_vote_response
on_request_vote_response-Shrinks from response s =
    let t = record_vote from s in
    Shrinks-if (ltb s.hard_state.current_term response.term) s _ _
      (λ _. observe_response_term-Shrinks response.term s)
      (λ _.
        Shrinks-if (vote_counts response s) s (count_votes t) s
          (λ _.
            Shrinks-trans s t _ (Shrinks-Quiet (record_vote-Quiet from s)) (count_votes-Shrinks t))
          (λ _. Shrinks-refl s))
