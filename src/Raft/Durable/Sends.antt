-- ===== src/Raft/Durable/Sends.antt =====
-- The methods and continuations that send, on a node whose disk is up to date.
use det_log.Prelude.{
  refl, sym, ap, ◌≤◌, ◌+◌, ◌-◌, min, max, ℕ, suc, zero, true, ◌&&◌, Option, none, some, List, [],
  ◌∷◌, inl, inr, arith, if◌then◌else◌, Option-cases, length, eqb, ltb, leb, is_some, inc64,
  inc64-le, sub64, String,
}
use det_log.Prelude.Key.{nat_key}
use det_log.Prelude.Map
use det_log.Model.{HardState, Message, TraceKind, LogEntry}
use det_log.StateMachine.{ApplyResult}
use det_log.Raft.State.{RaftNode, RaftConfig, PeerProgress, is_leader, is_idle}
use det_log.Raft.Log.{entry_at, entry_bytes, append_rpc_overhead}
use det_log.Raft.Emit.{trace, schedule_election, schedule_heartbeat, send_message}
use det_log.Raft.Persist.{fail_storage}
use det_log.Raft.Replicate.{
  collect_entries, append_batch, clamped_next, send_entries, send_append, send_each,
  send_all_appends, answer_pending, mark_ready, keys,
}
use det_log.Raft.Election.{record_vote}
use det_log.Raft.Quiet.{
  trace-Quiet, schedule_election-Quiet, schedule_heartbeat-Quiet, send_message-Quiet,
  fail_storage-Quiet, finish_pending-Quiet,
}
use det_log.Raft.Durable.{MessageDurable, Firm, Firm-same, Firm-if, Firm-Quiet}
use det_log.Raft.Durable.Emits.{
  trace-Sent, schedule_election-Sent, schedule_heartbeat-Sent, send_message-Sent, fail_storage-Sent,
  finish_pending-Sent,
}

pub trace-Firm :
    (kind : TraceKind) (detail : String) (index : ℕ) (s : RaftNode)
    → Firm s
    → Firm (trace kind detail index s)
trace-Firm kind detail index s f =
    Firm-Quiet (trace-Quiet kind detail index s) (trace-Sent kind detail index s) f

pub schedule_election-Firm : (s : RaftNode) → Firm s → Firm (schedule_election s)
schedule_election-Firm s f = Firm-Quiet (schedule_election-Quiet s) (schedule_election-Sent s) f

pub schedule_heartbeat-Firm : (s : RaftNode) → Firm s → Firm (schedule_heartbeat s)
schedule_heartbeat-Firm s f = Firm-Quiet (schedule_heartbeat-Quiet s) (schedule_heartbeat-Sent s) f

pub fail_storage-Firm : (detail : String) (s : RaftNode) → Firm s → Firm (fail_storage detail s)
fail_storage-Firm detail s f =
    Firm-Quiet (fail_storage-Quiet detail s) (fail_storage-Sent detail s) f

pub send_message-Firm :
    (to : ℕ) (message : Message) (s : RaftNode)
    → MessageDurable s.durable_hard_state s.durable_last_log_index
        (record { sender = s.config.node_id; receiver = to; message = message })
    → Firm s
    → Firm (send_message to message s)
send_message-Firm to message s d f =
    Firm-Quiet (send_message-Quiet to message s) (send_message-Sent to message s d) f

length-collect_entries :
    (config : RaftConfig) (log : List LogEntry) (rounds index bytes : ℕ)
    → length (collect_entries config log rounds index bytes) ≤ rounds
unfolding collect_entries
length-collect_entries config log zero index bytes = omega arith
length-collect_entries config log (suc rounds) index bytes =
    go (entry_at log index) (λ b. length-collect_entries config log rounds (index + 1) b)
  where
    go :
        (o : Option LogEntry)
        → ((b : ℕ) → length (collect_entries config log rounds (index + 1) b) ≤ rounds)
        → length (elim o as (λ _. List LogEntry) [
          | none ↦ []
          | some entry ↦
              let rest =
                entry ∷ collect_entries config log rounds (index + 1) (bytes + entry_bytes entry) in
              if ltb (sub64 config.max_append_bytes_per_rpc bytes) (entry_bytes entry)
              then []
              else rest
        ])
          ≤ suc rounds
    go none ih = omega arith
    go (some entry) ih = ground (arith, ih (bytes + entry_bytes entry))

-- A batch stays within the durable log.
append_batch_durable :
    (s : RaftNode) (progress : PeerProgress)
    → (clamped_next s progress - 1) + length (append_batch s (clamped_next s progress - 1))
      ≤ s.durable_last_log_index
unfolding append_batch clamped_next
append_batch_durable s progress =
    let prev = min (max progress.next_index 1) (inc64 s.durable_last_log_index) - 1 in
    omega (
      arith,
      inc64-le s.durable_last_log_index,
      length-collect_entries s.config s.log
          (min (s.durable_last_log_index - prev) s.config.max_append_entries_per_rpc) (prev + 1)
          append_rpc_overhead,
    )

-- The node with the request on its books, before it is sent.
abbrev requested : ℕ → PeerProgress → RaftNode → RaftNode
requested peer progress s =
    let prev = clamped_next s progress - 1 in
    record s {
      next_rpc_id = inc64 s.next_rpc_id;
      peers =
          Map.put peer
            (record {
              next_index = clamped_next s progress;
              match_index = progress.match_index;
              inflight = some (record {
                rpc_id = s.next_rpc_id;
                prev_index = prev;
                last_index = prev + length (append_batch s prev);
              });
              inflight_heartbeat_age = 0;
            })
            s.peers;
    }

send_entries-Firm :
    (peer : ℕ) (progress : PeerProgress) (s : RaftNode)
    → Firm s
    → Firm (send_entries peer progress (clamped_next s progress) s)
unfolding send_entries
send_entries-Firm peer progress s f =
    Firm-if (eqb s.next_rpc_id 0) _ _ (λ _. fail_storage-Firm "RPC id overflow" s f)
      (λ _.
        let t = requested peer progress s in
        send_message-Firm peer _ t
          (
            ap (λ (h : HardState). h.current_term) (sym f.settled.hard),
            append_batch_durable s progress,
          )
          (Firm-same refl refl refl refl f))

pub send_append-Firm : (peer : ℕ) (s : RaftNode) → Firm s → Firm (send_append peer s)
unfolding send_append
send_append-Firm peer s f =
    Firm-if (is_leader s.role && is_idle s) _ s (λ _. found (Map.find peer s.peers)) (λ _. f)
  where
    found :
        (o : Option PeerProgress)
        → Firm (elim o as (λ _. RaftNode) [
          | none ↦ s
          | some progress ↦
              if is_some progress.inflight
              then s
              else send_entries peer progress (clamped_next s progress) s
        ])
    found none = f
    found (some progress) =
        Firm-if (is_some progress.inflight) s _ (λ _. f) (λ _. send_entries-Firm peer progress s f)

send_each-Firm : (peers : List ℕ) (s : RaftNode) → Firm s → Firm (send_each peers s)
unfolding send_each
send_each-Firm [] s f = f
send_each-Firm (peer ∷ rest) s f =
    send_each-Firm rest (send_append peer s) (send_append-Firm peer s f)

pub send_all_appends-Firm : (s : RaftNode) → Firm s → Firm (send_all_appends s)
unfolding send_all_appends
send_all_appends-Firm s f =
    Firm-if (is_leader s.role && is_idle s) _ s (λ _. send_each-Firm (keys s.peers) s f) (λ _. f)

pub answer_pending-Firm :
    (index : ℕ) (result : ApplyResult) (s : RaftNode)
    → Firm s
    → Firm (answer_pending index result s)
unfolding answer_pending
answer_pending-Firm index result s f = elim (Option-cases (Map.find index s.pending_clients)) [
  | inl e ↦ rw (e, answer_pending) f
  | inr (pending, e) ↦
      rw (e, answer_pending)
        (Firm-Quiet (finish_pending-Quiet index pending result.status result.value s)
          (finish_pending-Sent index pending result.status result.value s) f)
]

pub mark_ready-Firm : (s : RaftNode) → Firm s → Firm (mark_ready s)
unfolding mark_ready
mark_ready-Firm s f =
    Firm-if (is_leader s.role && ltb 0 s.readiness_index && leb s.readiness_index s.last_applied)
      (record s { leader_ready = true }) s (λ _. Firm-same refl refl refl refl f) (λ _. f)

pub record_vote-Firm : (from : ℕ) (s : RaftNode) → Firm s → Firm (record_vote from s)
unfolding record_vote
record_vote-Firm from s f = elim (Option-cases (Map.find from s.votes_received)) [
  | inl e ↦
      rw (e, record_vote)
        (trace-Firm TraceKind.vote "received vote" 0
          (record s { votes_received = Map.put from tt s.votes_received })
          (Firm-same refl refl refl refl f))
  | inr (seen, e) ↦ rw (e, record_vote) f
]
