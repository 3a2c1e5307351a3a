-- ===== src/Raft/Quiet/Sends.antt =====
-- The methods and continuations that send, seen as quiet.
use det_log.Prelude.{
  arith, refl, inl, inr, Bool, ◌&&◌, ◌||◌, Option, none, some, ℕ, if◌then◌else◌, List, [], ◌∷◌,
  Option-cases, eqb, ltb, is_some,
}
use det_log.Prelude.Key.{nat_key}
use det_log.Prelude.Map
use det_log.Model.{Message, TraceKind}
use det_log.StateMachine.{ApplyResult}
use det_log.Raft.State.{RaftNode, PeerProgress, is_leader, is_idle, is_candidate}
use det_log.Raft.Replicate.{
  send_entries, send_append, send_each, send_all_appends, answer_pending, mark_ready, clamped_next,
  keys,
}
use det_log.Raft.Election.{send_others, election_stored, vote_stored, vote_request, record_vote}
use det_log.Raft.Append.{reject_stored}
use det_log.Raft.Response.{send_next}
use det_log.Raft.Quiet.{
  Quiet, Quiet-refl, Quiet-trans, Quiet-if, trace-Quiet, schedule_election-Quiet,
  send_message-Quiet, fail_storage-Quiet, finish_pending-Quiet,
}

send_entries-Quiet :
    (peer : ℕ) (progress : PeerProgress) (next : ℕ) (s : RaftNode)
    → Quiet s (send_entries peer progress next s)
unfolding send_entries
send_entries-Quiet peer progress next s =
    Quiet-if (eqb s.next_rpc_id 0) s _ _ (fail_storage-Quiet "RPC id overflow" s) (
      Quiet-trans
        (record { core = refl; config = refl; thrown = refl; idle = λ h. h; queue = omega arith })
        (send_message-Quiet peer _ _))

pub send_append-Quiet : (peer : ℕ) (s : RaftNode) → Quiet s (send_append peer s)
unfolding send_append
send_append-Quiet peer s =
    Quiet-if (is_leader s.role && is_idle s) s _ _ (found (Map.find peer s.peers)) (Quiet-refl s)
  where
    found :
        (o : Option PeerProgress)
        → Quiet s (elim o [
          | none ↦ s
          | some progress ↦
              if is_some progress.inflight
              then s
              else send_entries peer progress (clamped_next s progress) s
        ])
    found none = Quiet-refl s
    found (some progress) =
        Quiet-if (is_some progress.inflight) s _ _ (Quiet-refl s)
          (send_entries-Quiet peer progress (clamped_next s progress) s)

send_each-Quiet : (peers : List ℕ) (s : RaftNode) → Quiet s (send_each peers s)
unfolding send_each
send_each-Quiet [] s = Quiet-refl s
send_each-Quiet (peer ∷ rest) s = Quiet-trans (send_append-Quiet peer s) (send_each-Quiet rest _)

pub send_all_appends-Quiet : (s : RaftNode) → Quiet s (send_all_appends s)
unfolding send_all_appends
send_all_appends-Quiet s =
    Quiet-if (is_leader s.role && is_idle s) s _ _ (send_each-Quiet (keys s.peers) s) (Quiet-refl s)

pub answer_pending-Quiet :
    (index : ℕ) (result : ApplyResult) (s : RaftNode) → Quiet s (answer_pending index result s)
unfolding answer_pending
answer_pending-Quiet index result s = elim (Option-cases (Map.find index s.pending_clients)) [
  | inl e ↦ rw (e, answer_pending) (Quiet-refl s)
  | inr (pending, e) ↦
      rw (e, answer_pending) (finish_pending-Quiet index pending result.status result.value s)
]

pub mark_ready-Quiet : (s : RaftNode) → Quiet s (mark_ready s)
unfolding mark_ready
mark_ready-Quiet s =
    Quiet-if _ s _ _
      (record { core = refl; config = refl; thrown = refl; idle = λ h. h; queue = omega arith })
      (Quiet-refl s)

pub send_others-Quiet :
    (members : List ℕ) (message : Message) (s : RaftNode) → Quiet s (send_others members message s)
unfolding send_others
send_others-Quiet [] message s = Quiet-refl s
send_others-Quiet (member ∷ rest) message s =
    Quiet-trans
      (Quiet-if (eqb member s.config.node_id) s _ _ (Quiet-refl s)
        (send_message-Quiet member message s))
      (send_others-Quiet rest message _)

pub election_stored-Quiet : (s : RaftNode) → Quiet s (election_stored s)
unfolding election_stored
election_stored-Quiet s =
    Quiet-if (is_candidate s.role) s _ _
      (Quiet-trans (schedule_election-Quiet s)
        (send_others-Quiet s.config.members (vote_request s) _))
      (Quiet-refl s)

pub vote_stored-Quiet :
    (from : ℕ) (grant was_leader : Bool) (s : RaftNode)
    → Quiet s (vote_stored from grant was_leader s)
unfolding vote_stored
vote_stored-Quiet from grant was_leader s =
    let traced =
      Quiet-if grant s _ _ (trace-Quiet TraceKind.vote "granted vote" 0 s) (Quiet-refl s) in
    let timed =
      Quiet-trans traced
        (Quiet-if (grant || was_leader) _ _ _ (schedule_election-Quiet _) (Quiet-refl _)) in
    Quiet-trans timed (send_message-Quiet from _ _)

pub reject_stored-Quiet :
    (from rpc_id conflict_index conflict_term : ℕ) (s : RaftNode)
    → Quiet s (reject_stored from rpc_id conflict_index conflict_term s)
unfolding reject_stored
reject_stored-Quiet from rpc_id conflict_index conflict_term s =
    Quiet-trans (schedule_election-Quiet s) (send_message-Quiet from _ _)

pub record_vote-Quiet : (from : ℕ) (s : RaftNode) → Quiet s (record_vote from s)
unfolding record_vote
record_vote-Quiet from s = elim (Option-cases (Map.find from s.votes_received)) [
  | inl e ↦
      rw (e, record_vote)
        (Quiet-trans
          (record { core = refl; config = refl; thrown = refl; idle = λ h. h; queue = omega arith })
          (trace-Quiet TraceKind.vote "received vote" 0 _))
  | inr (seen, e) ↦ rw (e, record_vote) (Quiet-refl s)
]

pub send_next-Quiet : (from : ℕ) (s : RaftNode) → Quiet s (send_next from s)
unfolding send_next
send_next-Quiet from s =
    Quiet-if (is_leader s.role && is_idle s) s _ _ (found (Map.find from s.peers)) (Quiet-refl s)
  where
    found :
        (o : Option PeerProgress)
        → Quiet s (elim o [
          | none ↦ s
          | some current ↦
              if ltb current.match_index s.durable_last_log_index then send_append from s else s
        ])
    found none = Quiet-refl s
    found (some current) = Quiet-if _ s _ _ (send_append-Quiet from s) (Quiet-refl s)
