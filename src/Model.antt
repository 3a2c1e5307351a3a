-- ===== src/Model.antt =====
-- include/detlog/model.hpp: identifiers, commands, log entries, protocol messages, client replies.
use det_log.Prelude.{
  ℕ, Bool, true, false, ◌&&◌, ◌||◌, Option, none, List, [], ◌∷◌, String, ◌≡◌, ◌↔◌, ltb, eqb,
  eqb_iff, arith, is_some,
}
use det_log.Prelude.Key.{
  Equality, Key, list_beq, list_beq_iff, option_beq, option_beq_iff, nat_equality,
}

-- std::string as its bytes
abbrev pub Bytes : Type 0
Bytes = List ℕ

pub record SessionId : Type 0 where
  pub high : ℕ
  pub low : ℕ

unfoldable pub session_beq : SessionId → SessionId → Bool
session_beq a b = eqb a.high b.high && eqb a.low b.low

unfoldable pub session_blt : SessionId → SessionId → Bool
session_blt a b = ltb a.high b.high || (eqb a.high b.high && ltb a.low b.low)

pub session_beq_iff : (a b : SessionId) → (session_beq a b ≡ true) ↔ (a ≡ b)
unfolding session_beq
session_beq_iff a b = ground arith

instance abbrev pub session_eq : Equality SessionId
session_eq = record { equal = session_beq; equal_iff = session_beq_iff }

instance abbrev pub session_key : Key SessionId
session_key = record { eq = session_eq; blt = session_blt }

pub data CommandKind : Type 0 where
  put erase get : CommandKind

-- static_cast<std::uint8_t>(kind)
unfoldable pub kind_code : CommandKind → ℕ
kind_code CommandKind.put = 1
kind_code CommandKind.erase = 2
kind_code CommandKind.get = 3

pub kind_code_injective : (a b : CommandKind) → kind_code a ≡ kind_code b → a ≡ b
unfolding kind_code
kind_code_injective a b h = ground arith

pub record ClientCommand : Type 0 where
  pub session : SessionId
  pub sequence : ℕ
  pub kind : CommandKind
  pub key : Bytes
  pub value : Bytes

unfoldable pub command_beq : ClientCommand → ClientCommand → Bool
command_beq a b =
    session_beq a.session b.session
    && eqb a.sequence b.sequence
    && eqb (kind_code a.kind) (kind_code b.kind)
    && list_beq a.key b.key
    && list_beq a.value b.value

pub command_beq_iff : (a b : ClientCommand) → (command_beq a b ≡ true) ↔ (a ≡ b)
unfolding command_beq
command_beq_iff a b = ground (
  arith,
  session_beq_iff a.session b.session,
  eqb_iff a.sequence b.sequence,
  kind_code_injective a.kind b.kind,
  list_beq_iff a.key b.key,
  list_beq_iff a.value b.value,
)

instance abbrev pub command_eq : Equality ClientCommand
command_eq = record { equal = command_beq; equal_iff = command_beq_iff }

-- `command` is none for the leader's readiness no-op.
pub record LogEntry : Type 0 where
  pub index : ℕ
  pub term : ℕ
  pub command : Option ClientCommand

unfoldable pub entry_beq : LogEntry → LogEntry → Bool
entry_beq a b = eqb a.index b.index && eqb a.term b.term && option_beq a.command b.command

pub entry_beq_iff : (a b : LogEntry) → (entry_beq a b ≡ true) ↔ (a ≡ b)
unfolding entry_beq
entry_beq_iff a b = ground (arith, option_beq_iff a.command b.command)

instance abbrev pub entry_eq : Equality LogEntry
entry_eq = record { equal = entry_beq; equal_iff = entry_beq_iff }

pub record HardState : Type 0 where
  pub current_term : ℕ
  pub voted_for : Option ℕ

pub record PersistBatch : Type 0 where
  pub hard_state : Option HardState
  pub truncate_from : Option ℕ
  pub entries : List LogEntry
  pub commit_index : Option ℕ

abbrev pub empty_batch : PersistBatch
empty_batch = record { hard_state = none; truncate_from = none; entries = []; commit_index = none }

abbrev pub is_nil {ℓ} : {A : Type ℓ} → List A → Bool
is_nil [] = true
is_nil (x ∷ xs) = false

abbrev pub negate : Bool → Bool
negate true = false
negate false = true

unfoldable pub batch_empty : PersistBatch → Bool
batch_empty b =
    negate (is_some b.hard_state)
    && negate (is_some b.truncate_from)
    && is_nil b.entries
    && negate (is_some b.commit_index)

pub record RequestVote : Type 0 where
  pub term : ℕ
  pub candidate_id : ℕ
  pub last_log_index : ℕ
  pub last_log_term : ℕ

pub record RequestVoteResponse : Type 0 where
  pub term : ℕ
  pub vote_granted : Bool

pub record AppendEntries : Type 0 where
  pub term : ℕ
  pub leader_id : ℕ
  pub rpc_id : ℕ
  pub prev_log_index : ℕ
  pub prev_log_term : ℕ
  pub entries : List LogEntry
  pub leader_commit : ℕ

pub record AppendEntriesResponse : Type 0 where
  pub term : ℕ
  pub rpc_id : ℕ
  pub success : Bool
  pub match_index : ℕ
  pub conflict_index : ℕ
  pub conflict_term : ℕ

pub data Message : Type 0 where
  request_vote : RequestVote → Message
  request_vote_response : RequestVoteResponse → Message
  append_entries : AppendEntries → Message
  append_entries_response : AppendEntriesResponse → Message

pub record MessageEnvelope : Type 0 where
  pub sender : ℕ
  pub receiver : ℕ
  pub message : Message

pub data ClientStatus : Type 0 where
  ok not_leader leader_not_ready busy unavailable stale_sequence : ClientStatus
  sequence_gap request_id_conflict invalid_request storage_error : ClientStatus

pub record ClientReply : Type 0 where
  pub token : ℕ
  pub status : ClientStatus
  pub leader_hint : Option ℕ
  pub log_index : ℕ
  pub value : Bytes

pub data TimerKind : Type 0 where
  election heartbeat : TimerKind

pub record TimerRequest : Type 0 where
  pub kind : TimerKind
  pub delay : ℕ
  pub generation : ℕ

pub data TraceKind : Type 0 where
  role_change term_change vote send receive storage_begin storage_complete : TraceKind
  log_change commit apply client_reply queue_saturated fault : TraceKind

pub record TraceRecord : Type 0 where
  pub kind : TraceKind
  pub node : ℕ
  pub term : ℕ
  pub index : ℕ
  pub detail : String
