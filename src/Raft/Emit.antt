-- ===== src/Raft/Emit.antt =====
-- src/raft.cpp: the methods that only emit effects: traces, replies, timers, messages.
use det_log.Prelude.{ℕ, List, [], ◌∷◌, ◌++◌, String, Option, some, if◌then◌else◌, inc64}
use det_log.Model.{Bytes, ClientStatus, Message, TraceKind, TimerKind}
use det_log.Raft.State.{RaftNode, RaftEffect, is_leader}

infixl 2 ◌▹◌
abbrev pub ◌▹◌ {ℓ κ} : {A : Type ℓ} {B : Type κ} → A → (A → B) → B
a ▹ f = f a

unfoldable pub emit : RaftEffect → RaftNode → RaftNode
emit effect s = record s { effects = s.effects ++ effect ∷ [] }

unfoldable pub trace : TraceKind → String → ℕ → RaftNode → RaftNode
trace kind detail index s =
    emit
      (RaftEffect.trace (record {
        kind = kind;
        node = s.config.node_id;
        term = s.hard_state.current_term;
        index = index;
        detail = detail;
      }))
      s

reply_hint : RaftNode → Option ℕ
reply_hint s = if is_leader s.role then some s.config.node_id else s.leader_hint

unfoldable pub emit_reply : ℕ → ClientStatus → Bytes → ℕ → RaftNode → RaftNode
unfolding reply_hint
emit_reply token status value index s =
    s
    ▹ emit (
        RaftEffect.client_reply (record {
          token = token;
          status = status;
          leader_hint = reply_hint s;
          log_index = index;
          value = value;
        }))
    ▹ trace TraceKind.client_reply "client reply emitted" index

unfoldable pub reply_all : List ℕ → ClientStatus → Bytes → ℕ → RaftNode → RaftNode
reply_all [] status value index s = s
reply_all (token ∷ rest) status value index s =
    reply_all rest status value index (emit_reply token status value index s)

unfoldable pub schedule_election : RaftNode → RaftNode
schedule_election s =
    let generation = inc64 s.election_generation in
    emit
      (RaftEffect.schedule_timer (record {
        kind = TimerKind.election;
        delay = s.config.election_timeout;
        generation = generation;
      }))
      (record s { election_generation = generation })

unfoldable pub schedule_heartbeat : RaftNode → RaftNode
schedule_heartbeat s =
    let generation = inc64 s.heartbeat_generation in
    emit
      (RaftEffect.schedule_timer (record {
        kind = TimerKind.heartbeat;
        delay = s.config.heartbeat_interval;
        generation = generation;
      }))
      (record s { heartbeat_generation = generation })

unfoldable pub send_message : ℕ → Message → RaftNode → RaftNode
send_message to message s =
    s
    ▹ trace TraceKind.send "protocol message emitted" 0
    ▹ emit
        (RaftEffect.send (record { sender = s.config.node_id; receiver = to; message = message }))
