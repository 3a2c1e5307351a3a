-- ===== src/StateMachine/Retry.antt =====
-- Retries: a command that has executed does not execute again, and its result comes back.
use det_log.Prelude.{◌≡◌, refl, ◌∙◌, inl, inr, true, false, some, ℕ, arith}
use det_log.Prelude.Map
use det_log.Model.{ClientCommand, ClientStatus, session_key, session_beq_iff}
use det_log.StateMachine.{
  KvStateMachine, ApplyResult, SessionRecord, apply, command_digest, structurally_valid,
  session_check, execute_command,
}
use det_log.StateMachine.Cases.{apply_cases}

-- The session's record after an execution.
pub session-execute_command :
    (c : ClientCommand) (digest : ℕ) (m : KvStateMachine)
    → Map.find c.session (execute_command c digest m).1.sessions
      ≡ some (record {
        sequence = c.sequence;
        command_digest = digest;
        status = ClientStatus.ok;
        result = (execute_command c digest m).0.value;
      })
unfolding execute_command
session-execute_command c digest m =
    rw Map.find-put (ground (arith, session_beq_iff c.session c.session))

pub duplicate_of : ApplyResult → ApplyResult
duplicate_of r = record { status = r.status; value = r.value; executed = false; duplicate = true }

-- The check finds the record that the execution has just written.
session_check_again :
    (c : ClientCommand) (digest : ℕ) (r : SessionRecord)
    → r.sequence ≡ c.sequence
    → r.command_digest ≡ digest
    → session_check c digest (some r)
      ≡ some (record { status = r.status; value = r.result; executed = false; duplicate = true })
unfolding session_check
session_check_again c digest r h k = ground arith

execute_command_status :
    (c : ClientCommand) (digest : ℕ) (m : KvStateMachine)
    → (execute_command c digest m).0.status ≡ ClientStatus.ok
unfolding execute_command
execute_command_status c digest m = refl

-- A machine that holds a record of the command answers from it.
apply-recorded :
    (c : ClientCommand) (m : KvStateMachine) (r : SessionRecord)
    → structurally_valid c ≡ true
    → Map.find c.session m.sessions ≡ some r
    → r.sequence ≡ c.sequence
    → r.command_digest ≡ command_digest c
    → apply c m
      ≡ (record { status = r.status; value = r.result; executed = false; duplicate = true }, m)
unfolding apply
apply-recorded c m r valid found h k =
    rw (valid, found, session_check_again c (command_digest c) r h k)

-- A retry of a command that has executed answers with the same status and value, is marked as a
-- duplicate, does not execute, and leaves the machine as it is.
pub apply_again :
    (c : ClientCommand) (m : KvStateMachine)
    → (apply c m).0.executed ≡ true
    → apply c (apply c m).1 ≡ (duplicate_of (apply c m).0, (apply c m).1)
unfolding duplicate_of
apply_again c m h = elim (apply_cases c m) [
  | inl refused ↦ cc (h, refused.idle)
  | inr e ↦
      let d = command_digest c in
      rw e.outcome (
        apply-recorded c _ _ e.valid (session-execute_command c d m) refl refl
        ∙ rw (execute_command_status c d m))
]
