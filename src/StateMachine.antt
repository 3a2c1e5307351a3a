-- ===== src/StateMachine.antt =====
-- include/detlog/state_machine.hpp and src/state_machine.cpp: the replicated key-value map with its
-- session table. `apply` returns the result and the new machine.
pub mod Cases
pub mod Retry
pub mod Sequences
pub mod Values
mod Tests
use det_log.Prelude.{
  ℕ, ◌+◌, ◌*◌, ◌/◌, ◌%◌, zero, suc, Bool, true, false, Option, none, some, [], ◌∷◌, bit_xor, ltb,
  eqb, if◌then◌else◌, u64_mod, u64_max, length,
}
use det_log.Prelude.Key.{bytes_key}
use det_log.Prelude.Map
use det_log.Prelude.Map.{Map}
use det_log.Model.{
  Bytes, SessionId, ClientCommand, CommandKind, kind_code, ClientStatus, is_nil, session_key,
}

pub record SessionRecord : Type 0 where
  pub sequence : ℕ
  pub command_digest : ℕ
  pub status : ClientStatus
  pub result : Bytes

pub record ApplyResult : Type 0 where
  pub status : ClientStatus
  pub value : Bytes
  pub executed : Bool
  pub duplicate : Bool

pub record KvStateMachine : Type 0 where
  pub values : Map Bytes Bytes
  pub sessions : Map SessionId SessionRecord

abbrev pub empty_machine : KvStateMachine
empty_machine = record { values = []; sessions = [] }

abbrev fnv_offset : ℕ
fnv_offset = 14695981039346656037

abbrev fnv_prime : ℕ
fnv_prime = 1099511628211

hash_byte : ℕ → ℕ → ℕ
hash_byte hash byte = bit_xor hash byte * fnv_prime % u64_mod

-- The eight bytes of a 64-bit value, the least significant first: `rounds` counts them down.
hash_u64_bytes : ℕ → ℕ → ℕ → ℕ
unfolding hash_byte
hash_u64_bytes zero hash value = hash
hash_u64_bytes (suc rounds) hash value =
    hash_u64_bytes rounds (hash_byte hash (value % 256)) (value / 256)

hash_u64 : ℕ → ℕ → ℕ
unfolding hash_u64_bytes
hash_u64 hash value = hash_u64_bytes 8 hash value

hash_bytes : ℕ → Bytes → ℕ
unfolding hash_byte
hash_bytes hash [] = hash
hash_bytes hash (byte ∷ rest) = hash_bytes (hash_byte hash byte) rest

hash_string : ℕ → Bytes → ℕ
unfolding hash_u64 hash_bytes
hash_string hash value = hash_bytes (hash_u64 hash (length value % u64_mod)) value

unfoldable pub command_digest : ClientCommand → ℕ
unfolding hash_string hash_byte kind_code
command_digest c = hash_string (hash_string (hash_byte fnv_offset (kind_code c.kind)) c.key) c.value

-- put takes any value; erase and get none
unfoldable pub value_allowed : CommandKind → Bytes → Bool
value_allowed CommandKind.put value = true
value_allowed CommandKind.erase value = is_nil value
value_allowed CommandKind.get value = is_nil value

unfoldable pub structurally_valid : ClientCommand → Bool
unfolding value_allowed
structurally_valid c =
    if eqb c.sequence 0 then false else if is_nil c.key then false else value_allowed c.kind c.value

abbrev refused : ClientStatus → ApplyResult
refused status = record { status = status; value = []; executed = false; duplicate = false }

-- The early returns of `apply` after the structural test; `none` lets the command execute.
unfoldable pub session_check : ClientCommand → ℕ → Option SessionRecord → Option ApplyResult
session_check c digest none =
    if eqb c.sequence 1 then none else some (refused ClientStatus.sequence_gap)
session_check c digest (some r) =
    if ltb c.sequence r.sequence
    then some (refused ClientStatus.stale_sequence)
    else if eqb c.sequence r.sequence
    then (if eqb r.command_digest digest
        then some
            (record { status = r.status; value = r.result; executed = false; duplicate = true })
        else some (refused ClientStatus.request_id_conflict))
    else if eqb r.sequence u64_max
    then some (refused ClientStatus.sequence_gap)
    else if eqb c.sequence (r.sequence + 1)
    then none
    else some (refused ClientStatus.sequence_gap)

abbrev pub or_empty : Option Bytes → Bytes
or_empty none = []
or_empty (some v) = v

-- The switch on the kind: the result string and the new values.
unfoldable pub execute : CommandKind → Bytes → Bytes → Map Bytes Bytes → Bytes × Map Bytes Bytes
execute CommandKind.put key value values = (value, Map.put key value values)
execute CommandKind.erase key value values = (or_empty (Map.find key values), Map.erase key values)
execute CommandKind.get key value values = (or_empty (Map.find key values), values)

abbrev session_record : ClientCommand → ℕ → Bytes → SessionRecord
session_record c digest result = record {
  sequence = c.sequence;
  command_digest = digest;
  status = ClientStatus.ok;
  result = result;
}

-- What `apply` does once every test has passed.
unfoldable pub execute_command : ClientCommand → ℕ → KvStateMachine → ApplyResult × KvStateMachine
execute_command c digest m =
    let (result, values) = execute c.kind c.key c.value m.values in
    (
      record { status = ClientStatus.ok; value = result; executed = true; duplicate = false },
      record {
        values = values;
        sessions = Map.put c.session (session_record c digest result) m.sessions;
      },
    )

unfoldable pub session : SessionId → KvStateMachine → Option SessionRecord
session id m = Map.find id m.sessions

pub value_for_test : Bytes → KvStateMachine → Option Bytes
value_for_test key m = Map.find key m.values

unfoldable pub apply : ClientCommand → KvStateMachine → ApplyResult × KvStateMachine
apply c m =
    if structurally_valid c
    then (let digest = command_digest c in
        elim (session_check c digest (Map.find c.session m.sessions)) [
          | some early ↦ (early, m)
          | none ↦ execute_command c digest m
        ])
    else (refused ClientStatus.invalid_request, m)
