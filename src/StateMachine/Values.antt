-- ===== src/StateMachine/Values.antt =====
-- What a command does to the keys, seen through lookups.
use det_log.Prelude.{◌≡◌, refl, inl, inr, true, Option, none, some, arith, if◌then◌else◌}
use det_log.Prelude.Key.{list_beq, list_beq_iff, nat_equality, bytes_key}
use det_log.Prelude.Map
use det_log.Prelude.Map.{Map}
use det_log.Model.{Bytes, ClientCommand, CommandKind, session_key}
use det_log.StateMachine.{
  KvStateMachine, apply, command_digest, execute, execute_command, value_for_test, or_empty,
}
use det_log.StateMachine.Cases.{apply_cases, execute_command-executed}

-- The abstract map: what the kind makes of the value that the command's own key had.
abbrev pub stored : CommandKind → Bytes → Option Bytes → Option Bytes
stored CommandKind.put value old = some value
stored CommandKind.erase value old = none
stored CommandKind.get value old = old

abbrev pub answered : CommandKind → Bytes → Option Bytes → Bytes
answered CommandKind.put value old = value
answered CommandKind.erase value old = or_empty old
answered CommandKind.get value old = or_empty old

execute-find :
    (kind : CommandKind) (key value j : Bytes) (m : Map Bytes Bytes)
    → Map.find j (execute kind key value m).1
      ≡ (if list_beq key j then stored kind value (Map.find key m) else Map.find j m)
unfolding execute
execute-find CommandKind.put key value j m = Map.find-put key j value m
execute-find CommandKind.erase key value j m = Map.find-erase key j m
execute-find CommandKind.get key value j m = ground (arith, list_beq_iff key j)

execute-answer :
    (kind : CommandKind) (key value : Bytes) (m : Map Bytes Bytes)
    → (execute kind key value m).0 ≡ answered kind value (Map.find key m)
unfolding execute
execute-answer CommandKind.put key value m = refl
execute-answer CommandKind.erase key value m = refl
execute-answer CommandKind.get key value m = refl

-- An executed command gives its own key what its kind says (put its value, erase nothing, get what
-- was there), answers with the new value or the one that was there, and leaves every other key; a
-- command that does not execute leaves all keys.
pub value_for_test-apply :
    (c : ClientCommand) (m : KvStateMachine) (j : Bytes)
    → (value_for_test j (apply c m).1 ≡ (
        if (apply c m).0.executed
        then (if list_beq c.key j
            then stored c.kind c.value (value_for_test c.key m)
            else value_for_test j m)
        else value_for_test j m))
      × ((apply c m).0.executed ≡ true
          → (apply c m).0.value ≡ answered c.kind c.value (value_for_test c.key m))
unfolding value_for_test execute_command
value_for_test-apply c m j = elim (apply_cases c m) [
  | inl r ↦ (rw (r.unchanged, r.idle), (λ h. cc (h, r.idle)))
  | inr e ↦
      rw (e.outcome, execute_command-executed c (command_digest c) m)
        (unfold execute_command in
          (
            execute-find c.kind c.key c.value j m.values,
            (λ _. execute-answer c.kind c.key c.value m.values),
          ))
]
