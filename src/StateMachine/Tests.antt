-- ===== src/StateMachine/Tests.antt =====
-- Runs of the state machine on concrete commands, and the theorems at these inputs.
use det_log.Prelude.{◌≡◌, refl, true, if◌then◌else◌, List, [], ◌∷◌, length}
use det_log.Prelude.Key.{list_beq, nat_equality}
use det_log.Prelude.Map
use det_log.Model.{SessionId, ClientCommand, CommandKind, session_beq}
use det_log.StateMachine.{
  empty_machine, apply, command_digest, value_for_test, structurally_valid, session_check,
  execute_command, execute,
}
use det_log.StateMachine.Retry.{duplicate_of, apply_again}
use det_log.StateMachine.Sequences.{
  executed_sequences, runs_for, executed_sequences-run, consecutive, last_sequence, run,
}
use det_log.StateMachine.Values.{value_for_test-apply, stored, answered}

abbrev client : SessionId
client = record { high = 1; low = 2 }

abbrev put_a : ClientCommand
put_a = record {
  session = client;
  sequence = 1;
  kind = CommandKind.put;
  key = b'a' ∷ [];
  value = b'x' ∷ [];
}

abbrev erase_a : ClientCommand
erase_a = record {
  session = client;
  sequence = 2;
  kind = CommandKind.erase;
  key = b'a' ∷ [];
  value = [];
}

put_a_executes : (apply put_a empty_machine).0.executed ≡ true
unfolding apply structurally_valid session_check execute_command Map.find
put_a_executes = refl

-- The put, its retry, a skipped number, and the erase.
abbrev history : List ClientCommand
history = put_a ∷ put_a ∷ (record put_a { sequence = 3 }) ∷ erase_a ∷ []

history_sequences : executed_sequences client history empty_machine ≡ 1 ∷ 2 ∷ []
unfolding executed_sequences runs_for apply structurally_valid session_check execute_command execute
    command_digest Map.find Map.put session_beq list_beq
history_sequences = refl

apply_again_example :
    apply put_a (apply put_a empty_machine).1
    ≡ (duplicate_of (apply put_a empty_machine).0, (apply put_a empty_machine).1)
apply_again_example = apply_again put_a empty_machine put_a_executes

executed_sequences-run_example :
    (executed_sequences client history empty_machine
      ≡ consecutive 1 (last_sequence client (run history empty_machine)))
    × (last_sequence client (run history empty_machine)
        ≡ length (executed_sequences client history empty_machine))
executed_sequences-run_example = executed_sequences-run client history empty_machine refl

value_for_test-apply_example :
    (value_for_test (b'a' ∷ []) (apply put_a empty_machine).1 ≡ (
      if (apply put_a empty_machine).0.executed
      then (if list_beq put_a.key (b'a' ∷ [])
          then stored put_a.kind put_a.value (value_for_test put_a.key empty_machine)
          else value_for_test (b'a' ∷ []) empty_machine)
      else value_for_test (b'a' ∷ []) empty_machine))
    × ((apply put_a empty_machine).0.executed ≡ true
        → (apply put_a empty_machine).0.value
          ≡ answered put_a.kind put_a.value (value_for_test put_a.key empty_machine))
value_for_test-apply_example = value_for_test-apply put_a empty_machine (b'a' ∷ [])
