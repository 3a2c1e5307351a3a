-- ===== src/Reference/Elections.antt =====
-- src/reference_model.cpp: `leader` and `elect`.
use det_log.Prelude.{
  ℕ, ◌+◌, ◌/◌, Bool, true, false, ◌&&◌, ◌||◌, not, String, Option, none, some, List, [], ◌∷◌, ltb,
  leb, eqb, if◌then◌else◌, length, is_some,
}
use det_log.Prelude.Key.{nat_key}
use det_log.Prelude.Map
use det_log.Prelude.Map.{Map}
use det_log.Model.{LogEntry}
use det_log.Reference.Interpret.{ReplicaState}
use det_log.Reference.Actions.{Elect, ActionResult, Cluster, succeeded, reject, find, write}

unfoldable pub last_entry_term : ℕ → List LogEntry → ℕ
last_entry_term term [] = term
last_entry_term term (entry ∷ rest) = last_entry_term entry.term rest

-- log.back(), or 0 where the log is empty
unfoldable pub last_term : ReplicaState → ℕ
unfolding last_entry_term
last_term replica = last_entry_term 0 replica.log

unfoldable pub candidate_is_up_to_date : ReplicaState → ReplicaState → Bool
candidate_is_up_to_date candidate voter =
    let candidate_term = last_term candidate in
    let voter_term = last_term voter in
    if not (eqb candidate_term voter_term)
    then ltb voter_term candidate_term
    else leb (length voter.log) (length candidate.log)

unfoldable pub names : ℕ → Option ℕ → Bool
names node none = false
names node (some other) = eqb other node

unfoldable pub leader : Cluster → ReplicaState → Bool
unfolding names
leader m replica =
    replica.active_leader && names replica.id (Map.find replica.current_term m.leaders)

-- The tests of one voter, in order; `none` lets it vote.
unfoldable pub voter_error :
    ReplicaState → Elect → Map ℕ (Unit {0}) → ℕ → Option ReplicaState → Option String
unfolding names
voter_error candidate action unique voter_id none = some "election voter is not a member"
voter_error candidate action unique voter_id (some voter) =
    if is_some (Map.find voter_id unique)
    then some "election voter is duplicated"
    else if not voter.alive
    then some "crashed replica cannot vote"
    else if ltb action.term voter.current_term
    then some "voter has already observed a higher term"
    else if eqb voter.current_term action.term
        && is_some voter.voted_for
        && not (names action.candidate voter.voted_for)
    then some "voter already voted for another candidate"
    else if not (candidate_is_up_to_date candidate voter)
    then some "candidate log is not up to date for a voter"
    else none

pub data Checked : Type 0 where
  failed : String → Checked
  passed : Map ℕ (Unit {0}) → Checked

-- The loop over the voters collects the set of them.
unfoldable pub check_voters : ReplicaState → Elect → Cluster → Map ℕ (Unit {0}) → List ℕ → Checked
check_voters candidate action m unique [] = passed unique
check_voters candidate action m unique (voter_id ∷ rest) =
    elim (voter_error candidate action unique voter_id (find voter_id m)) [
      | some error ↦ failed error
      | none ↦ check_voters candidate action m (Map.put voter_id tt unique) rest
    ]

unfoldable pub quorum_size : Cluster → ℕ
quorum_size m = length m.members / 2 + 1

-- One voter adopts the term, forgetting an older vote, and votes.
unfoldable pub vote : Elect → ReplicaState → ReplicaState
vote action voter =
    let adopted =
      if ltb voter.current_term action.term
      then record voter { active_leader = false; current_term = action.term; voted_for = none }
      else voter in
    record adopted { voted_for = some action.candidate }

unfoldable pub vote_each : Elect → Map ℕ (Unit {0}) → Cluster → Cluster
unfolding vote
vote_each action [] m = m
vote_each action ((voter_id, _) ∷ rest) m = elim (find voter_id m) [
  | none ↦ vote_each action rest m
  | some voter ↦ vote_each action rest (write voter_id (vote action voter) m)
]

unfoldable pub install : Elect → ReplicaState → ReplicaState
install action candidate = record candidate {
  current_term = action.term;
  voted_for = some action.candidate;
  active_leader = true;
}

unfoldable pub install_leader : Elect → Cluster → Cluster
unfolding install
install_leader action m = elim (find action.candidate m) [
  | none ↦ m
  | some candidate ↦ record (write action.candidate (install action candidate) m) {
    leaders = Map.put action.term action.candidate m.leaders;
  }
]

-- What `elect` tests once the voters have passed.
unfoldable pub election_error : Elect → Cluster → Map ℕ (Unit {0}) → Option String
unfolding names
election_error action m unique =
    if not (is_some (Map.find action.candidate unique))
    then some "candidate's self-vote is missing"
    else if ltb (length unique) (quorum_size m)
    then some "election has no quorum"
    else if is_some (Map.find action.term m.leaders)
        && not (names action.candidate (Map.find action.term m.leaders))
    then some "term already has a different leader"
    else none

unfoldable pub finish_election : Elect → Cluster → Checked → ActionResult × Cluster
finish_election action m (failed error) = (reject error, m)
finish_election action m (passed unique) = elim (election_error action m unique) [
  | some error ↦ (reject error, m)
  | none ↦ (succeeded, install_leader action (vote_each action unique m))
]

unfoldable pub candidate_error : Elect → ReplicaState → Option String
candidate_error action candidate =
    if not candidate.alive
    then some "crashed candidate cannot be elected"
    else if eqb action.term 0 || leb action.term candidate.current_term
    then some "election term must advance the candidate term"
    else none

unfoldable pub elect : Elect → Cluster → ActionResult × Cluster
elect action m = elim (find action.candidate m) [
  | none ↦ (reject "election candidate is not a member", m)
  | some candidate ↦ elim (candidate_error action candidate) [
    | some error ↦ (reject error, m)
    | none ↦ finish_election action m (check_voters candidate action m [] action.voters)
  ]
]
