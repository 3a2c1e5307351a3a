-- ===== src/Reference/Tests.antt =====
-- The reference interpreter and the state machine on a put and a conflicting second one.
mod Histories
mod Conflict
mod Agreement
use det_log.Prelude.{◌≡◌, ◌≢◌, refl, arith, none, some, [], ◌∷◌, true, false, if◌then◌else◌}
use det_log.Prelude.Key.{list_beq}
use det_log.Prelude.Map
use det_log.Model.{SessionId, ClientCommand, ClientStatus, CommandKind, kind_code, session_beq}
use det_log.StateMachine.{apply, command_digest, empty_machine}
use det_log.Reference.Interpret.{
  ReplicaState, interpret, well_structured, value_fits, same_request, existing_check,
  perform_command, perform,
}
use det_log.Reference.Logs.{push, take_proposal}
use det_log.Reference.Proposals.{refused_outcome, take_proposal-interpret}
use det_log.Reference.Agrees.{Mirrors, Told, result_of, interpret-apply}

abbrev client : SessionId
client = record { high = 1; low = 2 }

abbrev put_a : ClientCommand
put_a = record {
  session = client;
  sequence = 1;
  kind = CommandKind.put;
  key = b'a' ∷ [];
  value = b'x' ∷ [];
}

abbrev conflicting : ClientCommand
conflicting = record put_a { value = b'y' ∷ [] }

abbrev replica : ReplicaState
replica = record {
  id = 1;
  alive = true;
  active_leader = false;
  current_term = 0;
  voted_for = none;
  commit_index = 0;
  last_applied = 0;
  ready_term = 0;
  log = [];
  values = [];
  sessions = [];
  outcomes = [];
}

replica-Mirrors : Mirrors replica empty_machine
unfolding Map.find
replica-Mirrors = record { values = λ key. refl; sessions = λ id. refl }

put_a-Told : Told replica put_a
unfolding Map.find
put_a-Told = λ s found same digest. cc

abbrev after_put : ReplicaState
after_put = (interpret replica 1 put_a).1

after_put-Mirrors : Mirrors after_put (apply put_a empty_machine).1
after_put-Mirrors = (interpret-apply replica empty_machine 1 put_a replica-Mirrors put_a-Told).1

digests_differ : command_digest put_a ≢ command_digest conflicting
unfolding command_digest
digests_differ = λ same. omega (arith, same)

conflicting-Told : Told after_put conflicting
unfolding interpret well_structured value_fits existing_check perform_command perform Map.find
    Map.put session_beq
conflicting-Told = λ s found same digest. ground (arith, found, digest, digests_differ)

conflict_reported : (interpret after_put 2 conflicting).0.status ≡ ClientStatus.request_id_conflict
unfolding interpret well_structured value_fits same_request kind_code existing_check perform_command
    perform Map.find Map.put session_beq list_beq
conflict_reported = refl

interpret-apply_example :
    (result_of (interpret after_put 2 conflicting).0
      ≡ (apply conflicting (apply put_a empty_machine).1).0)
    × Mirrors
        (interpret after_put 2 conflicting).1
        (apply conflicting (apply put_a empty_machine).1).1
interpret-apply_example =
    interpret-apply after_put (apply put_a empty_machine).1 2 conflicting after_put-Mirrors
      conflicting-Told

take_proposal-interpret_example :
    ((take_proposal conflicting after_put).0.appended
      ≡ (interpret after_put 2 conflicting).0.executed)
    × ((take_proposal conflicting after_put).1 ≡ (
        if (take_proposal conflicting after_put).0.appended
        then push after_put (some conflicting)
        else after_put))
    × (interpret after_put 2 conflicting ≡ (
        if (take_proposal conflicting after_put).0.appended
        then interpret after_put 2 conflicting
        else (refused_outcome 2 (take_proposal conflicting after_put).0, after_put)))
take_proposal-interpret_example = take_proposal-interpret conflicting after_put 2
