-- ===== src/Raft/State.antt =====
-- include/detlog/raft.hpp: configuration, events, effects, and the members of RaftNode.
use det_log.Prelude.{ℕ, Bool, true, false, Option, none, some, List, String, ◌+◌, ◌/◌, length}
use det_log.Prelude.Map.{Map}
use det_log.Model.{
  LogEntry, HardState, PersistBatch, MessageEnvelope, TimerKind, TimerRequest, ClientCommand,
  ClientReply, TraceRecord, SessionId,
}
use det_log.StateMachine.{KvStateMachine}

pub data RaftRole : Type 0 where
  follower candidate leader unavailable : RaftRole

pub record RaftConfig : Type 0 where
  pub node_id : ℕ
  pub members : List ℕ
  pub election_timeout : ℕ
  pub heartbeat_interval : ℕ
  pub max_deferred_events : ℕ
  pub max_uncommitted_entries : ℕ
  pub max_uncommitted_bytes : ℕ
  pub max_command_bytes : ℕ
  pub max_key_bytes : ℕ
  pub max_value_bytes : ℕ
  pub max_append_entries_per_rpc : ℕ
  pub max_append_bytes_per_rpc : ℕ
  pub append_retry_heartbeats : ℕ
  pub max_waiters_per_request : ℕ

pub record RecoveredState : Type 0 where
  pub hard_state : HardState
  pub log : List LogEntry
  pub commit_index : ℕ

pub data RaftEffect : Type 0 where
  persist : ℕ → PersistBatch → RaftEffect
  send : MessageEnvelope → RaftEffect
  schedule_timer : TimerRequest → RaftEffect
  client_reply : ClientReply → RaftEffect
  trace : TraceRecord → RaftEffect

pub data RaftEvent : Type 0 where
  timer_fired : TimerKind → ℕ → RaftEvent
  message_received : MessageEnvelope → RaftEvent
  storage_complete : ℕ → Bool → String → RaftEvent
  client_request : ℕ → ClientCommand → RaftEvent

pub record InflightAppend : Type 0 where
  pub rpc_id : ℕ
  pub prev_index : ℕ
  pub last_index : ℕ

pub record PeerProgress : Type 0 where
  pub next_index : ℕ
  pub match_index : ℕ
  pub inflight : Option InflightAppend
  pub inflight_heartbeat_age : ℕ

pub record PendingClientEntry : Type 0 where
  pub command : ClientCommand
  pub digest : ℕ
  pub waiters : List ℕ

-- The lambdas that are handed to begin_persist, with the values that they capture.
pub data Continuation : Type 0 where
  after_election : Continuation
  after_vote : ℕ → Bool → Bool → Continuation
  after_step_down : Continuation
  after_no_op : Continuation
  after_reject : ℕ → ℕ → ℕ → ℕ → Continuation
  after_accept : ℕ → ℕ → ℕ → Bool → Continuation
  after_client : Continuation
  after_commit : Continuation

pub record PendingStorage : Type 0 where
  pub op_id : ℕ
  pub batch : PersistBatch
  pub after_success : Continuation

-- The members that the safety properties speak of.
pub record Core : Type 0 where
  pub hard_state : HardState
  pub durable_hard_state : HardState
  pub log : List LogEntry
  pub durable_last_log_index : ℕ
  pub commit_index : ℕ
  pub durable_commit_index : ℕ
  pub last_applied : ℕ
  pub state_machine : KvStateMachine

-- `effects` is the vector that every method appends to. `thrown` says that begin_persist has thrown
-- std::logic_error; what follows a throw is skipped here too, since storage is then pending.
pub record RaftNode : Type 0 where
  pub config : RaftConfig
  pub core : Core
  pub open core use *
  pub role : RaftRole
  pub leader_hint : Option ℕ
  pub leader_ready : Bool
  pub readiness_index : ℕ
  pub votes_received : Map ℕ (Unit {0})
  pub peers : Map ℕ PeerProgress
  pub pending_clients : Map ℕ PendingClientEntry
  pub pending_sessions : Map SessionId ℕ
  pub pending_storage : Option PendingStorage
  pub deferred_events : List RaftEvent
  pub next_storage_op_id : ℕ
  pub next_rpc_id : ℕ
  pub election_generation : ℕ
  pub heartbeat_generation : ℕ
  pub started : Bool
  pub thrown : Bool
  pub effects : List RaftEffect

abbrev pub is_leader : RaftRole → Bool
is_leader RaftRole.leader = true
is_leader _ = false

abbrev pub is_candidate : RaftRole → Bool
is_candidate RaftRole.candidate = true
is_candidate _ = false

abbrev pub is_follower : RaftRole → Bool
is_follower RaftRole.follower = true
is_follower _ = false

abbrev pub is_unavailable : RaftRole → Bool
is_unavailable RaftRole.unavailable = true
is_unavailable _ = false

abbrev pub quorum_size : RaftConfig → ℕ
quorum_size config = length config.members / 2 + 1

abbrev pub set_core : Core → RaftNode → RaftNode
set_core c s = record s { core = c }

-- !pending_storage_
abbrev pub is_idle : RaftNode → Bool
is_idle s = elim s.pending_storage [ none ↦ true | some p ↦ false ]
