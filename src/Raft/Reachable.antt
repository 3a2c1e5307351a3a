-- ===== src/Raft/Reachable.antt =====
-- What holds of a node after any history of events since its construction.
use native.Mathlib.Numerals.{add-one}
use det_log.Prelude.{
  ◌≡◌, refl, sym, ◌∙◌, ap, ◌≤◌, ◌+◌, ℕ, zero, suc, true, Option, none, some, List, [], ◌∷◌, String,
  arith, length, take, take-suc, get_elem?-some,
}
use det_log.Model.{LogEntry}
use det_log.StateMachine.{KvStateMachine, empty_machine}
use det_log.Raft.State.{RaftNode, RaftConfig, RaftEvent, RecoveredState}
use det_log.Raft.Log.{entry_at}
use det_log.Raft.Emit.{schedule_election}
use det_log.Raft.Step.{step, start}
use det_log.Raft.Recover.{
  constructed, construct, check_recovered, initial_node, initial_core, replay_rounds,
  apply_optional, sort, outcome,
}
use det_log.Raft.Safety.{
  WellFormed, Safe, Safe-refl, Safe-trans, Safe-Quiet, Safe-if, replay, replay_from,
  replay_from-append,
}
use det_log.Raft.Safety.Step.{step-Safe}
use det_log.Raft.Quiet.{schedule_election-Quiet}

-- Some constructor call with any recovered state, then `start` and `step` calls with any events.
pub data Reachable : RaftNode → Type 0 where
  created :
      (config : RaftConfig) (r : RecoveredState) (s : RaftNode)
      → construct config r ≡ constructed s
      → Reachable s
  started : (s : RaftNode) → Reachable s → Reachable (start s)
  stepped : (s : RaftNode) (event : RaftEvent) → Reachable s → Reachable (step event s)

unfoldable pub run : List RaftEvent → RaftNode → RaftNode
run [] s = s
run (event ∷ rest) s = run rest (step event s)

-- The constructor's loop is a replay of the prefix that it goes through.
replay_rounds-replay :
    (log : List LogEntry) (rounds done : ℕ) (m : KvStateMachine)
    → done + rounds ≤ length log
    → m ≡ replay (take done log)
    → replay_rounds log rounds done m ≡ replay (take (done + rounds) log)
unfolding replay_rounds entry_at replay_from
replay_rounds-replay log zero done m h e = e ∙ ap (λ n. replay (take n log)) (omega arith)
replay_rounds-replay log (suc rounds) done m h e =
    let next : done + 1 ≡ suc done = add-one done in
    let total : suc done + rounds ≡ done + suc rounds = omega arith in
    let (entry, found) = get_elem?-some {A = LogEntry} done log (omega arith) in
    let more =
      ap (apply_optional entry.command) e
      ∙ sym (
          ap replay (take-suc done log found)
          ∙ replay_from-append empty_machine (take done log) (entry ∷ [])) in
    rw (next, found)
      (replay_rounds-replay log rounds (suc done) _ (omega arith) more
        ∙ ap (λ n. replay (take n log)) total)

pub outcome-constructed :
    (o : Option String) (t s : RaftNode) → outcome o t ≡ constructed s → (o ≡ none) × (s ≡ t)
unfolding outcome
outcome-constructed none t s h = (refl, cc)
outcome-constructed (some error) t s h = absurd (cc)

check_recovered-commit :
    (c : RaftConfig) (r : RecoveredState)
    → check_recovered c r ≡ none
    → r.commit_index ≤ length r.log
unfolding check_recovered
check_recovered-commit c r h = ground arith

initial_core-WellFormed :
    (r : RecoveredState) → r.commit_index ≤ length r.log → WellFormed (initial_core r)
unfolding initial_core replay_from
initial_core-WellFormed r h = record {
  applied_in = omega arith;
  commit_in = h;
  machine =
      replay_rounds-replay r.log r.commit_index 0 empty_machine (omega arith) refl
      ∙ ap (λ n. replay (take n r.log)) (omega arith);
}

construct-WellFormed :
    (config : RaftConfig) (r : RecoveredState) (s : RaftNode)
    → construct config r ≡ constructed s
    → WellFormed s.core
unfolding construct initial_node
construct-WellFormed config r s h =
    let c = record config { members = sort config.members } in
    let (checked, same) = outcome-constructed (check_recovered c r) (initial_node c r) s h in
    rw same (initial_core-WellFormed r (check_recovered-commit c r checked))

start-Safe : (s : RaftNode) → Safe s.core (start s).core
unfolding start
start-Safe s =
    let t = record s { effects = [] } in
    Safe-if _ s.core t (schedule_election (record t { started = true })) (λ _. Safe-refl s.core)
      (λ _. Safe-Quiet (schedule_election-Quiet (record t { started = true })))

-- After any history of events the commit index lies within the log, last_applied does not pass it,
-- and the state machine is what the commands of the log up to last_applied make of an empty one.
pub Reachable-WellFormed : (s : RaftNode) → Reachable s → WellFormed s.core
Reachable-WellFormed _ (created config r s h) = construct-WellFormed config r s h
Reachable-WellFormed _ (started s q) = (start-Safe s (Reachable-WellFormed s q)).0
Reachable-WellFormed _ (stepped s event q) = (step-Safe event s (Reachable-WellFormed s q)).0

-- An event lowers neither the term of a node nor its commit index nor its last_applied, and while
-- the term stays a vote that was cast stays with its candidate.
pub step_vote_once :
    (s : RaftNode) (event : RaftEvent)
    → Reachable s
    → (s.hard_state.current_term ≤ (step event s).hard_state.current_term)
      × ((candidate : ℕ)
          → (step event s).hard_state.current_term ≡ s.hard_state.current_term
          → s.hard_state.voted_for ≡ some candidate
          → (step event s).hard_state.voted_for ≡ some candidate)
      × (s.commit_index ≤ (step event s).commit_index)
      × (s.last_applied ≤ (step event s).last_applied)
step_vote_once s event q =
    let a = (step-Safe event s (Reachable-WellFormed s q)).1 in
    (a.term, (λ candidate e v. a.vote (sym e) candidate v), a.commit, a.applied)

run-Safe : (events : List RaftEvent) (s : RaftNode) → Safe s.core (run events s).core
unfolding run
run-Safe [] s = Safe-refl s.core
run-Safe (event ∷ rest) s =
    Safe-trans s.core (step event s).core _ (step-Safe event s) (run-Safe rest (step event s))

-- Whatever events follow, the entries up to the commit index stay as they are and where they are.
pub run_committed :
    (s : RaftNode) (events : List RaftEvent)
    → Reachable s
    → (take s.commit_index (run events s).log ≡ take s.commit_index s.log)
      × (s.commit_index ≤ (run events s).commit_index)
run_committed s events q =
    let a = (run-Safe events s (Reachable-WellFormed s q)).1 in (a.committed, a.commit)

pub run-Reachable :
    (events : List RaftEvent) (s : RaftNode) → Reachable s → Reachable (run events s)
unfolding run
run-Reachable [] s q = q
run-Reachable (event ∷ rest) s q = run-Reachable rest (step event s) (stepped s event q)
