-- ===== src/Raft/Durable/Votes.antt =====
-- The continuations of elections, votes and rejections.
use det_log.Prelude.{
  ◌≡◌, refl, ◌∙◌, sym, ap, ℕ, Bool, true, false, some, List, [], ◌∷◌, inl, inr, eqb, Bool-cases,
}
use det_log.Prelude.Key.{nat_key}
use det_log.Model.{HardState, TraceKind}
use det_log.Raft.State.{Core, RaftNode, is_candidate}
use det_log.Raft.Emit.{trace, emit, schedule_election, send_message}
use det_log.Raft.Election.{send_others, election_stored, vote_stored, vote_request}
use det_log.Raft.Append.{reject_stored}
use det_log.Raft.Quiet.{schedule_election-Quiet, send_message-Quiet}
use det_log.Raft.Durable.{Firm, Firm-if}
use det_log.Raft.Durable.Sends.{schedule_election-Firm, send_message-Firm, trace-Firm}

-- The vote request says what is stored, whichever members it goes to.
send_others-Firm :
    (members : List ℕ) (asker s : RaftNode)
    → s.core ≡ asker.core
    → s.config ≡ asker.config
    → asker.hard_state.voted_for ≡ some asker.config.node_id
    → Firm s
    → Firm (send_others members (vote_request asker) s)
unfolding send_others
send_others-Firm [] asker s c k v f = f
send_others-Firm (member ∷ rest) asker s c k v f = elim (Bool-cases (eqb member s.config.node_id)) [
  | inl e ↦ rw e (send_others-Firm rest asker s c k v f)
  | inr e ↦
      let q = send_message-Quiet member (vote_request asker) s in
      let stored : s.durable_hard_state ≡ asker.hard_state =
        f.settled.hard ∙ ap (λ (d : Core). d.hard_state) c in
      rw e (
        send_others-Firm rest asker (send_message member (vote_request asker) s) (q.core ∙ c)
          (q.config ∙ k) v
          (send_message-Firm member (vote_request asker) s
            (
              ap (λ (h : HardState). h.current_term) (sym stored),
              ap (λ (h : HardState). h.voted_for) stored ∙ v,
              ap (λ (d : Core). d.durable_last_log_index) (sym c),
            )
            f))
]

pub election_stored-Firm :
    (s : RaftNode)
    → s.hard_state.voted_for ≡ some s.config.node_id
    → Firm s
    → Firm (election_stored s)
unfolding election_stored
election_stored-Firm s v f =
    let q = schedule_election-Quiet s in
    Firm-if (is_candidate s.role) _ s
      (λ _.
        send_others-Firm s.config.members s (schedule_election s) q.core q.config v
          (schedule_election-Firm s f))
      (λ _. f)

pub vote_stored-Firm :
    (from : ℕ) (grant was_leader : Bool) (s : RaftNode)
    → (grant ≡ true → s.hard_state.voted_for ≡ some from)
    → Firm s
    → Firm (vote_stored from grant was_leader s)
unfolding vote_stored trace schedule_election emit
vote_stored-Firm from true was_leader s v f =
    let t = trace TraceKind.vote "granted vote" 0 s in
    send_message-Firm from _ (schedule_election t)
      (
        ap (λ (h : HardState). h.current_term) (sym f.settled.hard),
        (λ _. ap (λ (h : HardState). h.voted_for) f.settled.hard ∙ v refl),
      )
      (schedule_election-Firm t (trace-Firm TraceKind.vote "granted vote" 0 s f))
vote_stored-Firm from false true s v f =
    send_message-Firm from _ (schedule_election s)
      (ap (λ (h : HardState). h.current_term) (sym f.settled.hard), (λ e. absurd (cc)))
      (schedule_election-Firm s f)
vote_stored-Firm from false false s v f =
    send_message-Firm from _ s
      (ap (λ (h : HardState). h.current_term) (sym f.settled.hard), (λ e. absurd (cc))) f

pub reject_stored-Firm :
    (from rpc_id conflict_index conflict_term : ℕ) (s : RaftNode)
    → Firm s
    → Firm (reject_stored from rpc_id conflict_index conflict_term s)
unfolding reject_stored schedule_election emit
reject_stored-Firm from rpc_id conflict_index conflict_term s f =
    send_message-Firm from _ (schedule_election s)
      (ap (λ (h : HardState). h.current_term) (sym f.settled.hard), (λ e. absurd (cc)))
      (schedule_election-Firm s f)
