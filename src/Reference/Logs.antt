-- ===== src/Reference/Logs.antt =====
-- src/reference_model.cpp: the actions that write logs, `append_noop`, `propose` and `replicate`.
use det_log.Prelude.{
  ℕ, zero, suc, ◌+◌, ◌-◌, true, false, ◌&&◌, ◌||◌, not, Option, none, some, List, [], ◌∷◌, ◌++◌,
  ltb, leb, eqb, if◌then◌else◌, length, take, drop, min, u64_max,
}
use det_log.Prelude.Map
use det_log.Model.{ClientCommand, ClientStatus, LogEntry, entry_beq, session_key}
use det_log.Reference.Interpret.{SessionState, ReplicaState, well_structured, same_request}
use det_log.Reference.Actions.{
  Propose, ReplicatePrefix, ProposalOutcome, ActionResult, Cluster, succeeded, reject,
  proposal_result, find, write,
}
use det_log.Reference.Elections.{leader}

unfoldable pub push : ReplicaState → Option ClientCommand → ReplicaState
push replica command = record replica {
  log =
      replica.log
      ++ record { index = length replica.log + 1; term = replica.current_term; command = command }
        ∷ [];
}

unfoldable pub append_noop : ℕ → Cluster → ActionResult × Cluster
append_noop node m = elim (find node m) [
  | none ↦ (reject "no-op leader is not a member", m)
  | some replica ↦
      if not replica.alive || not (leader m replica)
      then (reject "only a live elected leader may append a no-op", m)
      else (
        record succeeded { appended_index = some (length replica.log + 1) },
        write node (push replica none) m,
      )
]

abbrev pub declined : ClientStatus → ProposalOutcome
declined status = record {
  status = status;
  value = [];
  index = 0;
  appended = false;
  duplicate = false;
}

-- The early returns of `propose` on the session; `none` lets the command into the log.
unfoldable pub proposal_check : ClientCommand → Option SessionState → Option ProposalOutcome
unfolding same_request
proposal_check c none =
    if not (eqb c.sequence 1) then some (declined ClientStatus.sequence_gap) else none
proposal_check c (some s) =
    if ltb c.sequence s.command.sequence
    then some (declined ClientStatus.stale_sequence)
    else if eqb c.sequence s.command.sequence
    then (if not (same_request c s.command)
        then some (declined ClientStatus.request_id_conflict)
        else some (record {
          status = s.status;
          value = s.result;
          index = 0;
          appended = false;
          duplicate = true;
        }))
    else if eqb s.command.sequence u64_max || not (eqb c.sequence (s.command.sequence + 1))
    then some (declined ClientStatus.sequence_gap)
    else none

abbrev pub accepted : ℕ → ProposalOutcome
accepted index = record {
  status = ClientStatus.ok;
  value = [];
  index = index;
  appended = true;
  duplicate = false;
}

-- What a ready leader answers, and its log behind it.
unfoldable pub take_proposal : ClientCommand → ReplicaState → ProposalOutcome × ReplicaState
take_proposal c replica =
    if not (well_structured c)
    then (declined ClientStatus.invalid_request, replica)
    else elim (proposal_check c (Map.find c.session replica.sessions)) [
      | some early ↦ (early, replica)
      | none ↦ (accepted (length replica.log + 1), push replica (some c))
    ]

unfoldable pub propose : Propose → Cluster → ActionResult × Cluster
propose action m = elim (find action.leader m) [
  | none ↦ (reject "proposal target is not a member", m)
  | some replica ↦
      if not replica.alive || not (leader m replica)
      then (reject "proposal target is not a live elected leader", m)
      else if not (eqb replica.ready_term replica.current_term)
      then (reject "leader has not committed an entry in its current term", m)
      else (let (outcome, taken) = take_proposal action.command replica in
          (proposal_result outcome, write action.leader taken m))
]

-- The loop of `rounds` steps over both logs; `index` is that of the first entries. 0 is no divergence.
unfoldable pub divergence_from : ℕ → ℕ → List LogEntry → List LogEntry → ℕ
divergence_from zero index follower source = 0
divergence_from (suc rounds) index [] source = 0
divergence_from (suc rounds) index (entry ∷ follower) [] = 0
divergence_from (suc rounds) index (entry ∷ follower) (other ∷ source) =
    if not (entry_beq entry other)
    then index
    else divergence_from rounds (suc index) follower source

unfoldable pub divergence : ℕ → List LogEntry → List LogEntry → ℕ
unfolding divergence_from
divergence through follower source =
    let found = divergence_from (min through (length follower)) 1 follower source in
    if eqb found 0 && ltb (length follower) through then length follower + 1 else found

-- The entries of `source` from `index` through `through` behind the first `index - 1` of `follower`.
unfoldable pub splice : ℕ → ℕ → List LogEntry → List LogEntry → List LogEntry
splice index through follower source =
    take (index - 1) follower ++ take (through - (index - 1)) (drop (index - 1) source)

unfoldable pub adopt_term : ℕ → ReplicaState → ReplicaState
adopt_term term follower =
    if ltb follower.current_term term
    then record follower { active_leader = false; current_term = term; voted_for = none }
    else follower

-- The follower behind a replication, or `none` where it would overwrite a committed entry.
unfoldable pub copy_prefix : ℕ → ReplicaState → ReplicaState → Option ReplicaState
copy_prefix through source follower =
    let index = divergence through follower.log source.log in
    if not (eqb index 0)
    then (if leb index follower.commit_index
        then none
        else some (record follower { log = splice index through follower.log source.log }))
    else some follower

unfoldable pub replicate_between :
    ReplicatePrefix → Cluster → ReplicaState → ReplicaState → ActionResult × Cluster
replicate_between action m source follower =
    if eqb action.leader action.follower
    then (reject "replication endpoints must differ", m)
    else if not source.alive || not follower.alive || not (leader m source)
    then (reject "replication requires a live leader and follower", m)
    else if ltb source.current_term follower.current_term
    then (reject "higher-term follower rejects replication", m)
    else if ltb (length source.log) action.through
    then (reject "replication exceeds the leader log", m)
    else elim (copy_prefix action.through source follower) [
      | none ↦ (reject "replication would overwrite a committed entry", m)
      | some copied ↦ (succeeded, write action.follower (adopt_term source.current_term copied) m)
    ]

unfoldable pub replicate : ReplicatePrefix → Cluster → ActionResult × Cluster
unfolding replicate_between
replicate action m = elim (find action.leader m) [
  | none ↦ (reject "replication endpoint is not a member", m)
  | some source ↦ elim (find action.follower m) [
    | none ↦ (reject "replication endpoint is not a member", m)
    | some follower ↦ replicate_between action m source follower
  ]
]
