-- ===== src/Reference/Proposals.antt =====
-- `propose` of src/reference_model.cpp against `interpret`: what a leader answers at once is what applying
-- the command would answer.
use det_log.Prelude.{
  if◌then◌else◌, ◌≡◌, refl, sym, inl, inr, ℕ, true, false, Option, none, some, arith, Bool-cases,
  Option-cases, not,
}
use det_log.Prelude.Map
use det_log.Model.{ClientCommand, session_key}
use det_log.Reference.Interpret.{
  SessionState, AppliedOutcome, ReplicaState, well_structured, existing_check, perform_command,
  interpret,
}
use det_log.Reference.Actions.{ProposalOutcome}
use det_log.Reference.Logs.{proposal_check, push, take_proposal}

-- An answer to a proposal, read as the outcome at `index` of a command that does not execute.
abbrev pub refused_outcome : ℕ → ProposalOutcome → AppliedOutcome
refused_outcome index o = record {
  index = index;
  status = o.status;
  value = o.value;
  executed = false;
  duplicate = o.duplicate;
}

abbrev refused_option : ℕ → Option ProposalOutcome → Option AppliedOutcome
refused_option index none = none
refused_option index (some o) = some (refused_outcome index o)

proposal_check-existing_check :
    (index : ℕ) (c : ClientCommand) (s : Option SessionState)
    → existing_check index c s ≡ refused_option index (proposal_check c s)
unfolding existing_check proposal_check
proposal_check-existing_check index c none = ground arith
proposal_check-existing_check index c (some s) = ground arith

proposal_check-appended :
    (c : ClientCommand) (s : Option SessionState) (o : ProposalOutcome)
    → proposal_check c s ≡ some o
    → o.appended ≡ false
unfolding proposal_check
proposal_check-appended c none o h = ground arith
proposal_check-appended c (some s) o h = ground arith

perform_command-executed :
    (r : ReplicaState) (index : ℕ) (c : ClientCommand)
    → (perform_command r index c).0.executed ≡ true
unfolding perform_command
perform_command-executed r index c = refl

-- A ready leader appends a command exactly where applying it to the leader's own state would execute it.
-- If it appends, the log then ends with the command, and nothing else of the replica changes; if not,
-- the replica is left alone, and applying would give the same answer and change nothing either.
pub take_proposal-interpret :
    (c : ClientCommand) (r : ReplicaState) (index : ℕ)
    → ((take_proposal c r).0.appended ≡ (interpret r index c).0.executed)
      × ((take_proposal c r).1 ≡ (if (take_proposal c r).0.appended then push r (some c) else r))
      × (interpret r index c ≡ (
          if (take_proposal c r).0.appended
          then interpret r index c
          else (refused_outcome index (take_proposal c r).0, r)))
unfolding take_proposal interpret
take_proposal-interpret c r index = elim (Bool-cases (not (well_structured c))) [
  | inl bad ↦ rw bad (refl, refl, refl)
  | inr good ↦
      let state = Map.find c.session r.sessions in
      let same = proposal_check-existing_check index c state in
      elim (Option-cases (proposal_check c state)) [
        | inl e ↦
            let e' : existing_check index c state ≡ none = rw e at same in
            rw (good, e, e') (sym (perform_command-executed r index c), refl, refl)
        | inr (early, e) ↦
            let e' : existing_check index c state ≡ some (refused_outcome index early) =
              rw e at same in
            let idle = proposal_check-appended c state early e in
            rw (good, e, e', idle) (refl, refl, refl)
      ]
]
