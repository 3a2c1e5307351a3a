-- ===== src/Raft/Durable/Vote.antt =====
-- Votes that are asked of the node: a grant is sent for a vote that is stored.
use det_log.Prelude.{
  ◌≡◌, refl, ◌∙◌, sym, ap, ℕ, Bool, true, false, Option, none, some, eqb, ltb, is_some, and_iff,
  arith,
}
use det_log.Model.{HardState, RequestVote, PersistBatch}
use det_log.Raft.State.{RaftNode, Continuation, is_leader}
use det_log.Raft.Persist.{step_down}
use det_log.Raft.Step.{batch_durable}
use det_log.Raft.Election.{
  optional_hard, persist_then, vote_for, vote_stored, can_vote, grants, decide_vote,
  on_request_vote,
}
use det_log.Raft.Durable.{Settled, Firm, Calm, Post, Calm-Firm, Post-Firm, Post-if}
use det_log.Raft.Durable.Sends.{send_message-Firm}
use det_log.Raft.Durable.Votes.{vote_stored-Firm}
use det_log.Raft.Durable.Begin.{persist_then-Post}
use det_log.Raft.Durable.Election.{Yielded-Settled, step_down-Yielded}

can_vote-voted :
    (voted : Option ℕ) (candidate : ℕ)
    → can_vote voted candidate ≡ true
    → is_some voted ≡ true
    → voted ≡ some candidate
unfolding can_vote
can_vote-voted none candidate h e = absurd (cc)
can_vote-voted (some v) candidate h e =
    let same : eqb v candidate ≡ true = h in ap some (ground arith)

vote-Post :
    (from : ℕ) (grant was_leader : Bool) (batch : PersistBatch) (s : RaftNode)
    → Calm s
    → Settled (batch_durable batch s.core)
    → (grant ≡ true → s.hard_state.voted_for ≡ some from)
    → Post (
        persist_then batch
          (Continuation.after_vote from grant was_leader)
          (vote_stored from grant was_leader)
          s)
vote-Post from grant was_leader batch s c h v =
    persist_then-Post batch _ _ s c h v
      (λ f. Post-Firm (vote_stored-Firm from grant was_leader s v f))

decide_vote-Post :
    (from : ℕ) (request : RequestVote) (was_leader : Bool) (stored : Option HardState)
    (s : RaftNode)
    → request.candidate_id ≡ from
    → Calm s
    → Settled (batch_durable (optional_hard stored) s.core)
    → Post (decide_vote from request was_leader stored s)
unfolding decide_vote grants batch_durable
decide_vote-Post from request was_leader stored s same c h =
    let first = record s {
      core = record s.core { hard_state = vote_for request.candidate_id s.hard_state };
    } in
    Post-if (grants request s) _ _
      (λ granted.
        Post-if (is_some s.hard_state.voted_for) _ _
          (λ voted. vote-Post from true was_leader _ s c h (λ _.
            can_vote-voted s.hard_state.voted_for request.candidate_id ((and_iff _ _).0 granted).0
              voted
            ∙ ap some same))
          (λ _.
            vote-Post from true was_leader _ first
              (record { idle = c.idle; thrown = c.thrown; sent = c.sent })
              (record { hard = refl; last = h.last; commit = h.commit }) (λ _. ap some same)))
      (λ _. vote-Post from false was_leader _ s c h (λ e. absurd (cc)))

pub on_request_vote-Post :
    (from : ℕ) (request : RequestVote) (s : RaftNode)
    → Firm s
    → Post (on_request_vote from request s)
unfolding on_request_vote batch_durable
on_request_vote-Post from request s f =
    let t = step_down request.term none false s in
    let y = step_down-Yielded request.term none s (Calm-Firm f) in
    Post-if (eqb request.term 0) s _ (λ _. Post-Firm f)
      λ _.
        Post-if (eqb request.candidate_id from) _ s
          (λ same.
            Post-if (ltb request.term s.hard_state.current_term) _ _
              (λ _. Post-Firm (
                send_message-Firm from _ s
                  (ap (λ (h : HardState). h.current_term) (sym f.settled.hard), (λ e. absurd (cc)))
                  f))
              (λ _.
                Post-if (ltb s.hard_state.current_term request.term) _ _
                  (λ _.
                    decide_vote-Post from request (is_leader s.role) (some t.hard_state) t
                      (ground arith) y.calm (Yielded-Settled s t f y))
                  (λ _.
                    decide_vote-Post from request (is_leader s.role) none s (ground arith)
                      (Calm-Firm f)
                      (record {
                        hard = f.settled.hard;
                        last = f.settled.last;
                        commit = f.settled.commit;
                      }))))
          (λ _. Post-Firm f)
