-- ===== src/Reference/Interpret.antt =====
-- src/reference_model.cpp: `interpret` and what it uses. It keeps whole commands, where the state
-- machine keeps digests.
use det_log.Prelude.{
  ℕ, ◌+◌, Bool, true, false, Option, none, some, List, [], ◌&&◌, ◌||◌, not, ltb, eqb, if◌then◌else◌,
  u64_max,
}
use det_log.Prelude.Key.{list_beq, nat_equality, nat_key, bytes_key}
use det_log.Prelude.Map
use det_log.Prelude.Map.{Map}
use det_log.Model.{
  Bytes, SessionId, ClientCommand, CommandKind, ClientStatus, LogEntry, kind_code, is_nil,
  session_beq, session_key,
}

pub record SessionState : Type 0 where
  pub command : ClientCommand
  pub status : ClientStatus
  pub result : Bytes

pub record AppliedOutcome : Type 0 where
  pub index : ℕ
  pub status : ClientStatus
  pub value : Bytes
  pub executed : Bool
  pub duplicate : Bool

pub record ReplicaState : Type 0 where
  pub id : ℕ
  pub alive : Bool
  pub active_leader : Bool
  pub current_term : ℕ
  pub voted_for : Option ℕ
  pub commit_index : ℕ
  pub last_applied : ℕ
  pub ready_term : ℕ
  pub log : List LogEntry
  pub values : Map Bytes Bytes
  pub sessions : Map SessionId SessionState
  pub outcomes : Map ℕ AppliedOutcome

-- The switch on the kind: put takes any value, erase and get none.
unfoldable pub value_fits : CommandKind → Bytes → Bool
value_fits CommandKind.put value = true
value_fits CommandKind.erase value = is_nil value
value_fits CommandKind.get value = is_nil value

unfoldable pub well_structured : ClientCommand → Bool
unfolding value_fits
well_structured c = if eqb c.sequence 0 || is_nil c.key then false else value_fits c.kind c.value

unfoldable pub same_request : ClientCommand → ClientCommand → Bool
same_request lhs rhs =
    session_beq lhs.session rhs.session
    && eqb lhs.sequence rhs.sequence
    && eqb (kind_code lhs.kind) (kind_code rhs.kind)
    && list_beq lhs.key rhs.key
    && list_beq lhs.value rhs.value

abbrev pub outcome : ℕ → ClientStatus → AppliedOutcome
outcome index status = record {
  index = index;
  status = status;
  value = [];
  executed = false;
  duplicate = false;
}

-- The early returns behind the structural test; `none` lets the command execute.
unfoldable pub existing_check : ℕ → ClientCommand → Option SessionState → Option AppliedOutcome
unfolding same_request
existing_check index c none =
    if not (eqb c.sequence 1) then some (outcome index ClientStatus.sequence_gap) else none
existing_check index c (some s) =
    if ltb c.sequence s.command.sequence
    then some (outcome index ClientStatus.stale_sequence)
    else if eqb c.sequence s.command.sequence
    then (if not (same_request c s.command)
        then some (outcome index ClientStatus.request_id_conflict)
        else some (record {
          index = index;
          status = s.status;
          value = s.result;
          executed = false;
          duplicate = true;
        }))
    else if eqb s.command.sequence u64_max
    then some (outcome index ClientStatus.sequence_gap)
    else if not (eqb c.sequence (s.command.sequence + 1))
    then some (outcome index ClientStatus.sequence_gap)
    else none

-- erase and get look the key up first
abbrev pub erase_found : Bytes → Option Bytes → Map Bytes Bytes → Bytes × Map Bytes Bytes
erase_found key none values = ([], values)
erase_found key (some value) values = (value, Map.erase key values)

abbrev pub get_found : Option Bytes → Bytes
get_found none = []
get_found (some value) = value

-- The switch on the kind: the result string and the new values.
unfoldable pub perform : CommandKind → Bytes → Bytes → Map Bytes Bytes → Bytes × Map Bytes Bytes
perform CommandKind.put key value values = (value, Map.put key value values)
perform CommandKind.erase key value values = erase_found key (Map.find key values) values
perform CommandKind.get key value values = (get_found (Map.find key values), values)

unfoldable pub perform_command : ReplicaState → ℕ → ClientCommand → AppliedOutcome × ReplicaState
perform_command replica index c =
    let (result, values) = perform c.kind c.key c.value replica.values in
    (
      record {
        index = index;
        status = ClientStatus.ok;
        value = result;
        executed = true;
        duplicate = false;
      },
      record replica {
        values = values;
        sessions =
            Map.put c.session (record { command = c; status = ClientStatus.ok; result = result })
              replica.sessions;
      },
    )

unfoldable pub interpret : ReplicaState → ℕ → ClientCommand → AppliedOutcome × ReplicaState
interpret replica index c =
    if not (well_structured c)
    then (outcome index ClientStatus.invalid_request, replica)
    else elim (existing_check index c (Map.find c.session replica.sessions)) [
      | some early ↦ (early, replica)
      | none ↦ perform_command replica index c
    ]
