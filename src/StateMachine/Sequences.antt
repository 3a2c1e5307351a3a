-- ===== src/StateMachine/Sequences.antt =====
-- Session order: the commands of a session that execute have the sequence numbers 1, 2, 3 and on.
use det_log.Prelude.{
  ◌≡◌, refl, sym, ap, ap₂, ◌∙◌, inl, inr, Bool, true, ◌&&◌, Option, none, some, ℕ, zero, suc, arith,
  ◌+◌, if◌then◌else◌, List, [], ◌∷◌, length, Bool-cases,
}
use det_log.Prelude.Map
use det_log.Model.{ClientCommand, SessionId, session_key, session_beq, session_beq_iff}
use det_log.StateMachine.{
  KvStateMachine, SessionRecord, apply, command_digest, session_check, execute_command,
}
use det_log.StateMachine.Cases.{apply_cases, execute_command-executed}

abbrev record_sequence : Option SessionRecord → ℕ
record_sequence none = 0
record_sequence (some r) = r.sequence

-- The sequence number of the session's last command, 0 for a session that has none.
pub last_sequence : SessionId → KvStateMachine → ℕ
last_sequence id m = record_sequence (Map.find id m.sessions)

session_check_admits :
    (c : ClientCommand) (digest : ℕ) (o : Option SessionRecord)
    → session_check c digest o ≡ none
    → c.sequence ≡ record_sequence o + 1
unfolding session_check
session_check_admits c digest none h = ground arith
session_check_admits c digest (some r) h = ground arith

last_sequence-execute_command :
    (id : SessionId) (c : ClientCommand) (digest : ℕ) (m : KvStateMachine)
    → last_sequence id (execute_command c digest m).1
      ≡ (if session_beq c.session id then c.sequence else last_sequence id m)
unfolding last_sequence execute_command
last_sequence-execute_command id c digest m = rw Map.find-put (ground arith)

-- Whether this command of the history executes for this session.
unfoldable pub runs_for : SessionId → ClientCommand → KvStateMachine → Bool
runs_for id c m = (apply c m).0.executed && session_beq c.session id

-- One command: the session's number goes up by one, to the command's, if the command executes for
-- it, and stays otherwise.
pub last_sequence-apply :
    (id : SessionId) (c : ClientCommand) (m : KvStateMachine)
    → (last_sequence id (apply c m).1
        ≡ (if runs_for id c m then last_sequence id m + 1 else last_sequence id m))
      × (runs_for id c m ≡ true → c.sequence ≡ last_sequence id m + 1)
unfolding runs_for
last_sequence-apply id c m = elim (apply_cases c m) [
  | inl r ↦
      (rw (r.unchanged, r.idle) refl, (λ h. cc (h, ap (λ b. b && session_beq c.session id) r.idle)))
  | inr e ↦
      let admitted = session_check_admits c _ _ e.admitted in
      let wrote = last_sequence-execute_command id c (command_digest c) m in
      rw (e.outcome, execute_command-executed c (command_digest c) m, wrote)
        (unfold last_sequence in
          ground (
            arith,
            admitted,
            session_beq_iff c.session id,
            ap (λ i. record_sequence (Map.find i m.sessions)),
          ))
]

unfoldable pub run : List ClientCommand → KvStateMachine → KvStateMachine
run [] m = m
run (c ∷ cs) m = run cs (apply c m).1

-- The sequence numbers of the session's commands that execute, in order.
unfoldable pub executed_sequences : SessionId → List ClientCommand → KvStateMachine → List ℕ
executed_sequences id [] m = []
executed_sequences id (c ∷ cs) m =
    let rest = executed_sequences id cs (apply c m).1 in
    if runs_for id c m then c.sequence ∷ rest else rest

-- n, n + 1 and on, `count` of them.
abbrev pub consecutive : ℕ → ℕ → List ℕ
consecutive n zero = []
consecutive n (suc count) = n ∷ consecutive (suc n) count

executed_sequences_from :
    (id : SessionId) (cs : List ClientCommand) (m : KvStateMachine)
    → (executed_sequences id cs m
        ≡ consecutive (suc (last_sequence id m)) (length (executed_sequences id cs m)))
      × (last_sequence id (run cs m) ≡ last_sequence id m + length (executed_sequences id cs m))
unfolding executed_sequences run
executed_sequences_from id [] m = (refl, omega arith)
executed_sequences_from id (c ∷ cs) m =
    let ih = executed_sequences_from id cs (apply c m).1 in
    let one = last_sequence-apply id c m in
    elim (Bool-cases (runs_for id c m)) [
      | inl runs ↦
          let up : last_sequence id (apply c m).1 ≡ suc (last_sequence id m) =
            one.0 ∙ (rw runs (omega arith)) in
          rw runs (
            ap₂ ◌∷◌ (one.1 runs ∙ omega arith) (
                ih.0
                ∙ ap (λ n. consecutive (suc n) (length (executed_sequences id cs (apply c m).1)))
                    up),
            omega (arith, ih.1, up),
          )
      | inr waits ↦
          let same : last_sequence id (apply c m).1 ≡ last_sequence id m = one.0 ∙ (rw waits) in
          rw waits (rw same at ih)
    ]

-- Whatever commands a machine with no sessions is given, the sequence numbers of each session's
-- commands that execute are 1, 2, 3 and on, each once, and the last of them is the number that the
-- session's record holds afterwards.
pub executed_sequences-run :
    (id : SessionId) (cs : List ClientCommand) (m : KvStateMachine)
    → m.sessions ≡ []
    → (executed_sequences id cs m ≡ consecutive 1 (last_sequence id (run cs m)))
      × (last_sequence id (run cs m) ≡ length (executed_sequences id cs m))
executed_sequences-run id cs m h =
    let from = executed_sequences_from id cs m in
    let fresh : last_sequence id m ≡ 0 =
      unfold last_sequence Map.find in ap (λ s. record_sequence (Map.find id s)) h in
    let total : last_sequence id (run cs m) ≡ length (executed_sequences id cs m) =
      omega (arith, from.1, fresh) in
    (from.0 ∙ ap₂ consecutive (ap suc fresh) (sym total), total)
