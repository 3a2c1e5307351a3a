-- ===== src/StateMachine/Cases.antt =====
-- The two outcomes of `apply`: an early return, which leaves the machine as it was, or an execution.
use det_log.Prelude.{
  ◌≡◌, refl, ◌⊎◌, inl, inr, true, false, Option, none, some, ℕ, arith, Bool-cases, Option-cases,
}
use det_log.Prelude.Map
use det_log.Model.{ClientCommand, session_key}
use det_log.StateMachine.{
  KvStateMachine, ApplyResult, SessionRecord, apply, command_digest, structurally_valid,
  session_check, execute_command,
}

session_check-executed :
    (c : ClientCommand) (digest : ℕ) (o : Option SessionRecord) (r : ApplyResult)
    → session_check c digest o ≡ some r
    → r.executed ≡ false
unfolding session_check
session_check-executed c digest none r h = ground arith
session_check-executed c digest (some s) r h = ground arith

pub record Executed (c : ClientCommand) (m : KvStateMachine) : Type 0 where
  pub valid : structurally_valid c ≡ true
  pub admitted : session_check c (command_digest c) (Map.find c.session m.sessions) ≡ none
  pub outcome : apply c m ≡ execute_command c (command_digest c) m

pub record Refused (c : ClientCommand) (m : KvStateMachine) : Type 0 where
  pub unchanged : (apply c m).1 ≡ m
  pub idle : (apply c m).0.executed ≡ false

pub apply_cases : (c : ClientCommand) (m : KvStateMachine) → Refused c m ⊎ Executed c m
unfolding apply execute_command
apply_cases c m = elim (Bool-cases (structurally_valid c)) [
  | inr bad ↦ inl (record { unchanged = rw (bad, apply) refl; idle = rw (bad, apply) refl })
  | inl good ↦
      elim (Option-cases (session_check c (command_digest c) (Map.find c.session m.sessions))) [
        | inl e ↦ inr (record { valid = good; admitted = e; outcome = rw (good, e, apply) refl })
        | inr (r, e) ↦ inl (record {
          unchanged = rw (good, e, apply) refl;
          idle = rw (good, e, apply) (session_check-executed c _ _ r e);
        })
      ]
]

pub execute_command-executed :
    (c : ClientCommand) (digest : ℕ) (m : KvStateMachine)
    → (execute_command c digest m).0.executed ≡ true
unfolding execute_command
execute_command-executed c digest m = refl
