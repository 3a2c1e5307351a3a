-- ===== src/Raft/Election.antt =====
-- src/raft.cpp: elections, votes, and the new leader's readiness entry.
use det_log.Prelude.{
  ℕ, ◌+◌, Bool, true, false, ◌&&◌, ◌||◌, List, [], ◌∷◌, ◌++◌, Option, none, some, if◌then◌else◌,
  inc64, ltb, leb, eqb, length, u64_max, is_some,
}
use det_log.Prelude.Key.{nat_key}
use det_log.Prelude.Map
use det_log.Prelude.Map.{Map}
use det_log.Model.{
  HardState, TraceKind, PersistBatch, batch_empty, LogEntry, Message, RequestVote,
  RequestVoteResponse,
}
use det_log.Raft.State.{
  RaftNode, RaftRole, PeerProgress, Continuation, is_leader, is_candidate, quorum_size,
}
use det_log.Raft.Log.{last_log_index, term_at, candidate_is_up_to_date, can_append}
use det_log.Raft.Emit.{trace, send_message, schedule_election, schedule_heartbeat, ◌▹◌}
use det_log.Raft.Persist.{begin_persist, fail_storage, step_down}
use det_log.Raft.Replicate.{send_all_appends, maybe_advance_commit}

abbrev pub hard_batch : HardState → PersistBatch
hard_batch hard = record {
  hard_state = some hard;
  truncate_from = none;
  entries = [];
  commit_index = none;
}

-- `if (batch.empty()) f(effects); else begin_persist(batch, f, effects);`
unfoldable pub persist_then :
    PersistBatch → Continuation → (RaftNode → RaftNode) → RaftNode → RaftNode
persist_then batch after_success now s =
    if batch_empty batch then now s else begin_persist batch after_success now s

-- The loop over the members that sends each other member the message.
unfoldable pub send_others : List ℕ → Message → RaftNode → RaftNode
send_others [] message s = s
send_others (member ∷ rest) message s =
    send_others rest message
      (if eqb member s.config.node_id then s else send_message member message s)

abbrev pub vote_request : RaftNode → Message
vote_request s = Message.request_vote (record {
  term = s.hard_state.current_term;
  candidate_id = s.config.node_id;
  last_log_index = s.durable_last_log_index;
  last_log_term = term_at s.log s.durable_last_log_index;
})

-- The continuation of begin_election.
unfoldable pub election_stored : RaftNode → RaftNode
election_stored s =
    if is_candidate s.role
    then (schedule_election s ▹ send_others s.config.members (vote_request s))
    else s

abbrev pub stand : RaftNode → RaftNode
stand s = record s {
  core = record s.core {
    hard_state = record {
      current_term = s.hard_state.current_term + 1;
      voted_for = some s.config.node_id;
    };
  };
  role = RaftRole.candidate;
  leader_hint = none;
  leader_ready = false;
  readiness_index = 0;
  peers = [];
  votes_received = Map.put s.config.node_id tt [];
  heartbeat_generation = inc64 s.heartbeat_generation;
}

unfoldable pub begin_election : RaftNode → RaftNode
begin_election s =
    if eqb s.hard_state.current_term u64_max
    then fail_storage "term counter overflow" s
    else (stand s
        ▹ trace TraceKind.term_change "started election" 0
        ▹ trace TraceKind.role_change "became candidate" 0
        ▹ trace TraceKind.vote "recorded self vote" 0
        ▹ begin_persist (hard_batch (stand s).hard_state) Continuation.after_election
            election_stored)

-- The lambda `reply` of on_request_vote.
unfoldable pub vote_stored : ℕ → Bool → Bool → RaftNode → RaftNode
vote_stored from grant was_leader s =
    s
    ▹ (λ t. if grant then trace TraceKind.vote "granted vote" 0 t else t)
    ▹ (λ t. if grant || was_leader then schedule_election t else t)
    ▹ send_message from (
        Message.request_vote_response
          (record { term = s.hard_state.current_term; vote_granted = grant }))

-- `!voted_for || *voted_for == candidate`
unfoldable pub can_vote : Option ℕ → ℕ → Bool
can_vote none candidate = true
can_vote (some voted) candidate = eqb voted candidate

unfoldable pub grants : RequestVote → RaftNode → Bool
grants request s =
    can_vote s.hard_state.voted_for request.candidate_id
    && candidate_is_up_to_date s.log request.last_log_index request.last_log_term

abbrev pub optional_hard : Option HardState → PersistBatch
optional_hard hard = record {
  hard_state = hard;
  truncate_from = none;
  entries = [];
  commit_index = none;
}

abbrev pub vote_for : ℕ → HardState → HardState
vote_for candidate hard = record { current_term = hard.current_term; voted_for = some candidate }

-- After the terms are settled: `stored` is the batch's hard state so far.
unfoldable pub decide_vote : ℕ → RequestVote → Bool → Option HardState → RaftNode → RaftNode
decide_vote from request was_leader stored s =
    if grants request s
    then (if is_some s.hard_state.voted_for
        then persist_then (optional_hard stored) (Continuation.after_vote from true was_leader)
            (vote_stored from true was_leader) s
        else (let hard = vote_for request.candidate_id s.hard_state in
            persist_then (optional_hard (some hard)) (Continuation.after_vote from true was_leader)
              (vote_stored from true was_leader)
              (record s { core = record s.core { hard_state = hard } })))
    else persist_then (optional_hard stored) (Continuation.after_vote from false was_leader)
        (vote_stored from false was_leader) s

unfoldable pub on_request_vote : ℕ → RequestVote → RaftNode → RaftNode
on_request_vote from request s =
    if eqb request.term 0
    then s
    else if eqb request.candidate_id from
    then (if ltb request.term s.hard_state.current_term
        then send_message from
            (Message.request_vote_response
              (record { term = s.hard_state.current_term; vote_granted = false }))
            s
        else if ltb s.hard_state.current_term request.term
        then (let t = step_down request.term none false s in
            decide_vote from request (is_leader s.role) (some t.hard_state) t)
        else decide_vote from request (is_leader s.role) none s)
    else s

-- The continuation of becoming leader.
unfoldable pub no_op_stored : RaftNode → RaftNode
no_op_stored s =
    if is_leader s.role then (send_all_appends s ▹ schedule_heartbeat ▹ maybe_advance_commit) else s

-- One entry for each other member.
unfoldable pub fresh_peers : ℕ → ℕ → List ℕ → Map ℕ PeerProgress
fresh_peers self next [] = []
fresh_peers self next (member ∷ rest) =
    if eqb member self
    then fresh_peers self next rest
    else Map.put member
        (record { next_index = next; match_index = 0; inflight = none; inflight_heartbeat_age = 0 })
        (fresh_peers self next rest)

abbrev pub lead : RaftNode → RaftNode
lead s = record s {
  role = RaftRole.leader;
  leader_hint = some s.config.node_id;
  leader_ready = false;
  readiness_index = 0;
  votes_received = [];
  election_generation = inc64 s.election_generation;
  peers = fresh_peers s.config.node_id (inc64 s.durable_last_log_index) s.config.members;
}

abbrev pub give_up_leading : RaftNode → RaftNode
give_up_leading s = record s { role = RaftRole.follower; leader_hint = none; peers = [] }

abbrev pub entry_batch : LogEntry → PersistBatch
entry_batch entry = record {
  hard_state = none;
  truncate_from = none;
  entries = entry ∷ [];
  commit_index = none;
}

abbrev pub append_log : LogEntry → RaftNode → RaftNode
append_log entry s = record s { core = record s.core { log = s.log ++ entry ∷ [] } }

abbrev pub no_op : RaftNode → LogEntry
no_op s = record {
  index = last_log_index s.log + 1;
  term = s.hard_state.current_term;
  command = none;
}

-- The part of become_leader that follows its first trace.
unfoldable pub append_no_op : RaftNode → RaftNode
append_no_op s =
    if eqb (last_log_index s.log) u64_max
    then fail_storage "log index overflow" s
    else if can_append s.config s.log s.commit_index (no_op s)
    then (record (append_log (no_op s) s) { readiness_index = (no_op s).index }
        ▹ trace TraceKind.log_change "appended leader readiness no-op" (no_op s).index
        ▹ begin_persist (entry_batch (no_op s)) Continuation.after_no_op no_op_stored)
    else (trace TraceKind.queue_saturated "no room for leader readiness entry" 0 s
        ▹ give_up_leading
        ▹ schedule_election)

unfoldable pub become_leader : RaftNode → RaftNode
become_leader s = lead s ▹ trace TraceKind.role_change "became leader" 0 ▹ append_no_op

-- A higher term in a response: step down, and store the term.
unfoldable pub observe_response_term : ℕ → RaftNode → RaftNode
observe_response_term term s =
    let t = step_down term none false s in
    begin_persist (hard_batch t.hard_state) Continuation.after_step_down schedule_election t

unfoldable pub record_vote : ℕ → RaftNode → RaftNode
record_vote from s = elim (Map.find from s.votes_received) [
  | some _ ↦ s
  | none ↦
      trace TraceKind.vote "received vote" 0
        (record s { votes_received = Map.put from tt s.votes_received })
]

-- Enough votes make a leader.
unfoldable pub count_votes : RaftNode → RaftNode
count_votes s = if leb (quorum_size s.config) (length s.votes_received) then become_leader s else s

abbrev pub vote_counts : RequestVoteResponse → RaftNode → Bool
vote_counts response s =
    is_candidate s.role && eqb response.term s.hard_state.current_term && response.vote_granted

unfoldable pub on_request_vote_response : ℕ → RequestVoteResponse → RaftNode → RaftNode
on_request_vote_response from response s =
    if ltb s.hard_state.current_term response.term
    then observe_response_term response.term s
    else if vote_counts response s
    then count_votes (record_vote from s)
    else s
