-- ===== src/Reference/Agrees.antt =====
-- The state machine against the reference interpreter.
use det_log.Prelude.{
  ◌≡◌, ◌↔◌, refl, sym, ◌∙◌, ap, ℕ, true, Option, none, some, arith, inl, inr, eqb, eqb_iff,
  Bool-cases, Option-cases,
}
use det_log.Prelude.Key.{list_beq_iff, nat_equality, bytes_key}
use det_log.Prelude.Map
use det_log.Prelude.Map.{Map}
use det_log.Model.{
  Bytes, SessionId, ClientCommand, CommandKind, command_beq, command_beq_iff, session_key,
  session_beq,
}
use det_log.StateMachine.{
  KvStateMachine, ApplyResult, SessionRecord, apply, command_digest, structurally_valid,
  value_allowed, session_check, execute_command, execute,
}
use det_log.Reference.Interpret.{
  SessionState, AppliedOutcome, ReplicaState, value_fits, well_structured, same_request,
  existing_check, perform, perform_command, interpret,
}

-- What the state machine keeps of a session.
abbrev pub recorded : SessionState → SessionRecord
recorded s = record {
  sequence = s.command.sequence;
  command_digest = command_digest s.command;
  status = s.status;
  result = s.result;
}

abbrev pub recorded_option : Option SessionState → Option SessionRecord
recorded_option none = none
recorded_option (some s) = some (recorded s)

-- An outcome without its index.
abbrev pub result_of : AppliedOutcome → ApplyResult
result_of o = record {
  status = o.status;
  value = o.value;
  executed = o.executed;
  duplicate = o.duplicate;
}

abbrev pub result_option : Option AppliedOutcome → Option ApplyResult
result_option none = none
result_option (some o) = some (result_of o)

-- The machine holds the replica's values, and of each session what `recorded` keeps.
pub record Mirrors (r : ReplicaState) (m : KvStateMachine) : Type 0 where
  pub values : (key : Bytes) → Map.find key m.values ≡ Map.find key r.values
  pub sessions :
      (id : SessionId) → Map.find id m.sessions ≡ recorded_option (Map.find id r.sessions)

-- The digest tells `c` from another command that its session executed under the same sequence number.
abbrev pub Told : ReplicaState → ClientCommand → Type 0
Told r c =
    (s : SessionState)
    → Map.find c.session r.sessions ≡ some s
    → c.sequence ≡ s.command.sequence
    → command_digest s.command ≡ command_digest c
    → s.command ≡ c

value_fits-eq :
    (kind : CommandKind) (value : Bytes) → value_fits kind value ≡ value_allowed kind value
unfolding value_fits value_allowed
value_fits-eq CommandKind.put value = refl
value_fits-eq CommandKind.erase value = refl
value_fits-eq CommandKind.get value = refl

well_structured-eq : (c : ClientCommand) → well_structured c ≡ structurally_valid c
unfolding well_structured structurally_valid
well_structured-eq c = ground (arith, value_fits-eq c.kind c.value)

same_request_iff : (a b : ClientCommand) → (same_request a b ≡ true) ↔ (a ≡ b)
unfolding same_request command_beq
same_request_iff a b = command_beq_iff a b

-- The stored digest agrees exactly where the whole command does.
digest-same :
    (c d : ClientCommand)
    → (command_digest d ≡ command_digest c → d ≡ c)
    → same_request c d ≡ eqb (command_digest d) (command_digest c)
digest-same c d told = elim (Bool-cases (same_request c d)) [
  | inl same ↦
      let equal = (same_request_iff c d).0 same in
      same ∙ sym ((eqb_iff (command_digest d) (command_digest c)).1 (ap command_digest (sym equal)))
  | inr other ↦ elim (Bool-cases (eqb (command_digest d) (command_digest c))) [
    | inl e ↦
        (same_request_iff c d).1 (sym (told ((eqb_iff (command_digest d) (command_digest c)).0 e)))
        ∙ sym e
    | inr e ↦ other ∙ sym e
  ]
]

existing_check-eq :
    (index : ℕ) (c : ClientCommand) (o : Option SessionState)
    → ((s : SessionState)
        → o ≡ some s
        → c.sequence ≡ s.command.sequence
        → command_digest s.command ≡ command_digest c
        → s.command ≡ c)
    → session_check c (command_digest c) (recorded_option o)
      ≡ result_option (existing_check index c o)
unfolding session_check existing_check
existing_check-eq index c none told = ground arith
existing_check-eq index c (some s) told = elim (Bool-cases (eqb c.sequence s.command.sequence)) [
  | inl e ↦
      let same = (eqb_iff c.sequence s.command.sequence).0 e in
      ground (arith, digest-same c s.command (told s refl same))
  | inr e ↦ ground arith
]

perform-result :
    (kind : CommandKind) (key value : Bytes) (a b : Map Bytes Bytes)
    → ((k : Bytes) → Map.find k a ≡ Map.find k b)
    → (execute kind key value a).0 ≡ (perform kind key value b).0
unfolding execute perform
perform-result CommandKind.put key value a b same = refl
perform-result CommandKind.erase key value a b same = elim (Option-cases (Map.find key b)) [
  | inl e ↦ rw (same key, e) refl
  | inr (v, e) ↦ rw (same key, e) refl
]
perform-result CommandKind.get key value a b same = elim (Option-cases (Map.find key b)) [
  | inl e ↦ rw (same key, e) refl
  | inr (v, e) ↦ rw (same key, e) refl
]

perform-find :
    (kind : CommandKind) (key value : Bytes) (a b : Map Bytes Bytes)
    → ((k : Bytes) → Map.find k a ≡ Map.find k b)
    → (k : Bytes)
    → Map.find k (execute kind key value a).1 ≡ Map.find k (perform kind key value b).1
unfolding execute perform
perform-find CommandKind.put key value a b same k =
    rw (Map.find-put key k value a, Map.find-put key k value b, same k) refl
perform-find CommandKind.erase key value a b same k = elim (Option-cases (Map.find key b)) [
  | inl e ↦ rw e (ground (arith, list_beq_iff key k, Map.find-erase key k a, same k, same key, e))
  | inr (v, e) ↦ rw (e, Map.find-erase key k a, Map.find-erase key k b, same k) refl
]
perform-find CommandKind.get key value a b same k = same k

-- An execution on both sides.
perform_command-Mirrors :
    (r : ReplicaState) (m : KvStateMachine) (index : ℕ) (c : ClientCommand)
    → Mirrors r m
    → (result_of (perform_command r index c).0 ≡ (execute_command c (command_digest c) m).0)
      × Mirrors (perform_command r index c).1 (execute_command c (command_digest c) m).1
unfolding perform_command execute_command
perform_command-Mirrors r m index c h =
    let answer = perform-result c.kind c.key c.value m.values r.values h.values in
    (
      rw answer refl,
      record {
        values = perform-find c.kind c.key c.value m.values r.values h.values;
        sessions = λ id.
            rw
              (
                answer,
                Map.find-put c.session id _ m.sessions,
                Map.find-put c.session id _ r.sessions,
              )
              (elim (Bool-cases (session_beq c.session id)) [
                | inl e ↦ rw e refl
                | inr e ↦ rw (e, h.sessions id) refl
              ]);
      },
    )

-- The state machine does what the reference interpreter does: on a machine that mirrors the replica it
-- answers with the same status, value and flags on every path, early returns included, and still
-- mirrors the replica afterwards. The digest must tell the command from another that its session
-- executed under the same sequence number.
pub interpret-apply :
    (r : ReplicaState) (m : KvStateMachine) (index : ℕ) (c : ClientCommand)
    → Mirrors r m
    → Told r c
    → (result_of (interpret r index c).0 ≡ (apply c m).0)
      × Mirrors (interpret r index c).1 (apply c m).1
unfolding interpret apply
interpret-apply r m index c h told = elim (Bool-cases (structurally_valid c)) [
  | inr bad ↦ rw (well_structured-eq c, bad) (refl, h)
  | inl good ↦
      let same =
        ap (session_check c (command_digest c)) (h.sessions c.session)
        ∙ existing_check-eq index c (Map.find c.session r.sessions) told in
      elim (Option-cases (existing_check index c (Map.find c.session r.sessions))) [
        | inl e ↦ rw (well_structured-eq c, good, same, e) (perform_command-Mirrors r m index c h)
        | inr (early, e) ↦ rw (well_structured-eq c, good, same, e) (refl, h)
      ]
]
