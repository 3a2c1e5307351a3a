-- ===== src/Raft/Elected/Campaign.antt =====
-- A whole election of src/raft.cpp, from the timer to the leader's no-op.
use det_log.Prelude.{
  ◌≡◌, refl, sym, ◌∙◌, ap, subst, ℕ, ◌+◌, ◌<◌, true, false, List, [], ◌∷◌, ◌++◌, none, some, arith,
  eqb, inc64, length, map, u64_max,
}
use det_log.Prelude.Map
use det_log.Model.{HardState, LogEntry, Message, TimerKind}
use det_log.Raft.State.{RaftNode, RaftRole, RaftEvent, RaftEffect, Continuation, quorum_size}
use det_log.Raft.Log.{last_log_index, can_append, term_at}
use det_log.Raft.Emit.{trace, emit, schedule_election}
use det_log.Raft.Election.{vote_request, election_stored, entry_batch}
use det_log.Raft.Step.{
  run_continuation, batch_durable, complete_storage, on_storage_complete, dispatch, drain,
  dispatch_all, step,
}
use det_log.Raft.Reachable.{run}
use det_log.Raft.Elected.{NewVotes, grant, run_grants-Elected}
use det_log.Raft.Elected.Asking.{
  sends, envelopes, CanStand, campaign, timer-campaign, asking, send_others-effects,
}

-- The node that waits for votes, with the effects `sent` of the call.
abbrev waiting : RaftNode → List RaftEffect → RaftNode
waiting s sent = record (asking s) {
  election_generation = inc64 s.election_generation;
  effects = sent;
}

stored-waiting :
    (s : RaftNode)
    → CanStand s
    → (sent : List RaftEffect) × (step
          (RaftEvent.storage_complete s.next_storage_op_id true "")
          (campaign s)
        ≡ waiting s sent)
      × (sends sent ≡ envelopes s.config.node_id (vote_request (waiting s [])) s.config.members)
unfolding step dispatch_all drain dispatch on_storage_complete complete_storage run_continuation
    election_stored schedule_election trace emit
stored-waiting s c =
    let this : eqb s.next_storage_op_id s.next_storage_op_id ≡ true = ground arith in
    let (more, went, sent) =
      send_others-effects s.config.node_id s.config.members (vote_request (waiting s []))
        (schedule_election (asking s)) refl in
    ((schedule_election (asking s)).effects ++ more, rw (this, went, c.none_deferred) refl, sent)

abbrev pub next_term : RaftNode → HardState
next_term s = record {
  current_term = s.hard_state.current_term + 1;
  voted_for = some s.config.node_id;
}

abbrev pub next_no_op : RaftNode → LogEntry
next_no_op s = record {
  index = last_log_index s.log + 1;
  term = s.hard_state.current_term + 1;
  command = none;
}

abbrev pub request : RaftNode → Message
request s = Message.request_vote (record {
  term = s.hard_state.current_term + 1;
  candidate_id = s.config.node_id;
  last_log_index = s.durable_last_log_index;
  last_log_term = term_at s.log s.durable_last_log_index;
})

-- A node that could lead if it were elected.
pub record CanWin (s : RaftNode) : Type 0 where
  pub stands : CanStand s
  pub index : eqb (last_log_index s.log) u64_max ≡ false
  pub room : can_append s.config s.log s.commit_index (next_no_op s) ≡ true
  pub operation : eqb (inc64 s.next_storage_op_id) 0 ≡ false

-- `t` leads in the term behind that of `s`, and stores its no-op behind the log of `s`.
pub record Won (s t : RaftNode) : Type 0 where
  pub role : t.role ≡ RaftRole.leader
  pub term : t.hard_state ≡ next_term s
  pub log : t.log ≡ s.log ++ next_no_op s ∷ []
  pub storing :
      t.pending_storage
      ≡ some (record {
        op_id = inc64 s.next_storage_op_id;
        batch = entry_batch (next_no_op s);
        after_success = Continuation.after_no_op;
      })

-- The first two calls of an election: its timer, and the completion of what it stores.
abbrev pub opening : RaftNode → List RaftEvent
opening s =
    RaftEvent.timer_fired TimerKind.election s.election_generation
    ∷ RaftEvent.storage_complete s.next_storage_op_id true ""
    ∷ []

waiting-Won :
    (s : RaftNode) (sent : List RaftEffect) (voters : List ℕ)
    → CanWin s
    → NewVotes s.config ((s.config.node_id, tt) ∷ []) voters
    → 1 < quorum_size s.config
    → 1 + length voters ≡ quorum_size s.config
    → Won s
        (run (map (grant s.config.node_id (s.hard_state.current_term + 1)) voters) (waiting s sent))
unfolding batch_durable trace emit Map.put
waiting-Won s sent voters c new few enough =
    let elected =
      run_grants-Elected s.config.node_id (s.hard_state.current_term + 1) voters (waiting s sent)
        (record {
          node = refl;
          current = refl;
          candidate = refl;
          idle = refl;
          none_deferred = c.stands.none_deferred;
        })
        (record { index = c.index; room = c.room; operation = c.operation }) new few enough in
    record {
      role = elected.role;
      term = elected.term;
      log = elected.log;
      storing = elected.storing;
    }

-- An election that a quorum supports is won: let a node serve and be idle, with no event deferred, not
-- lead, and have a next term, room for a no-op behind its log, and two numbers for storage operations.
-- When its election timer fires and the new term is stored, it has asked each other member for a vote
-- in the next term, and it sends nothing else. When then enough other members grant their votes, one
-- message each and in any order, the node leads in that term and stores its no-op.
pub run-opening-Won :
    (s : RaftNode) (voters : List ℕ)
    → CanWin s
    → NewVotes s.config ((s.config.node_id, tt) ∷ []) voters
    → 1 < quorum_size s.config
    → 1 + length voters ≡ quorum_size s.config
    → (sends (run (opening s) s).effects ≡ envelopes s.config.node_id (request s) s.config.members)
      × Won s (
          run
            (map (grant s.config.node_id (s.hard_state.current_term + 1)) voters)
            (run (opening s) s))
unfolding run batch_durable trace emit
run-opening-Won s voters c new few enough =
    let (sent, waits, asks) = stored-waiting s c.stands in
    let opened : run (opening s) s ≡ waiting s sent =
      ap (step (RaftEvent.storage_complete s.next_storage_op_id true ""))
        (timer-campaign s c.stands)
      ∙ waits in
    subst
      (λ t.
        (sends t.effects ≡ envelopes s.config.node_id (request s) s.config.members)
        × Won s (run (map (grant s.config.node_id (s.hard_state.current_term + 1)) voters) t))
      (sym opened) (asks, waiting-Won s sent voters c new few enough)
