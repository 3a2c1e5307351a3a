-- ===== src/Reference/Tests/Histories.antt =====
-- Histories of a three-node cluster, and the theorems at these inputs.
use det_log.Reference.Observed.{replicas-members}
use det_log.Prelude.{◌≡◌, refl, ℕ, true, false, none, some, List, [], ◌∷◌, arith, ◌≤◌, map}
use det_log.Prelude.Key.{list_beq, option_beq, nat_key}
use det_log.Prelude.Map
use det_log.Model.{session_beq, kind_code, entry_beq}
use det_log.Reference.Interpret.{
  ReplicaState, interpret, well_structured, value_fits, same_request, existing_check,
  perform_command, perform,
}
use det_log.Reference.Actions
use det_log.Reference.Actions.{Action, Elect, Cluster, find, ReplicaView}
use det_log.Reference.Elections
use det_log.Reference.Elections.{passed, check_voters, quorum_size}
use det_log.Reference.Logs
use det_log.Reference.Commits
use det_log.Reference.Run
use det_log.Reference.Run.{apply_history, build, built, is_leader, members, replicas}
use det_log.Reference.Sound.{Kept}
use det_log.Reference.History.{
  Reachable, constructed, apply_history-Reachable, apply_history-Kept, elect-one_leader,
  is_leader_unique,
}

-- Opens every definition that a history goes through.
unfoldable pub model : Unit {0}
unfolding Map.find Map.put Map.erase session_beq kind_code entry_beq list_beq option_beq interpret
    well_structured value_fits same_request existing_check perform_command perform
    Actions.proposal_result Actions.find Actions.write Elections.last_term
    Elections.candidate_is_up_to_date Elections.names Elections.leader Elections.voter_error
    Elections.check_voters Elections.quorum_size Elections.vote Elections.vote_each
    Elections.install Elections.install_leader Elections.election_error Elections.finish_election
    Elections.candidate_error Elections.elect Logs.push Logs.append_noop Logs.proposal_check
    Logs.take_proposal Logs.propose Logs.divergence_from Logs.divergence Logs.splice Logs.adopt_term
    Logs.copy_prefix Logs.replicate_between Logs.replicate Commits.equal_entries
    Commits.equal_prefix Commits.interpret_entry Commits.apply_next Commits.apply_rounds
    Commits.apply_through Commits.acknowledger_error Commits.check_acknowledgers Commits.current_at
    Commits.commit_error Commits.mark_ready Commits.advance Commits.finish_commit Commits.commit
    Commits.learn_between Commits.learn Run.crash Run.restart Run.apply_action Run.apply_from
    Run.apply_history Run.new_replica Run.add_members Run.build Run.is_leader
model = tt

abbrev pub node_replica : ℕ → ReplicaState
node_replica id = record {
  id = id;
  alive = true;
  active_leader = false;
  current_term = 0;
  voted_for = none;
  commit_index = 0;
  last_applied = 0;
  ready_term = 0;
  log = [];
  values = [];
  sessions = [];
  outcomes = [];
}

abbrev pub fresh : Cluster
fresh = record {
  members = 1 ∷ 2 ∷ 3 ∷ [];
  replicas = (1, node_replica 1) ∷ (2, node_replica 2) ∷ (3, node_replica 3) ∷ [];
  leaders = [];
}

pub fresh_built : build (1 ∷ 2 ∷ 3 ∷ []) ≡ built fresh
unfolding model
fresh_built = refl

fresh-Reachable : Reachable fresh
fresh-Reachable = constructed (1 ∷ 2 ∷ 3 ∷ []) fresh_built

abbrev pub vote_for : ℕ → ℕ → List ℕ → Action
vote_for candidate term voters =
    Action.elect (record { candidate = candidate; term = term; voters = voters })

abbrev pub copy : ℕ → ℕ → ℕ → Action
copy leader follower through =
    Action.replicate_prefix (record { leader = leader; follower = follower; through = through })

abbrev pub commit_with : ℕ → ℕ → List ℕ → Action
commit_with leader through acknowledgers =
    Action.commit_prefix
      (record { leader = leader; through = through; acknowledgers = acknowledgers })

-- Node 1 leads, commits its no-op with node 2, and crashes.
abbrev first_term : List Action
first_term =
    vote_for 1 1 (1 ∷ 2 ∷ [])
    ∷ Action.append_no_op 1
    ∷ copy 1 2 1
    ∷ commit_with 1 1 (1 ∷ 2 ∷ [])
    ∷ []

abbrev pub led : Cluster
led = (apply_history first_term fresh).1

first_term_accepted : (apply_history first_term fresh).0.success ≡ true
unfolding model
first_term_accepted = refl

-- A second election, with the votes of nodes 2 and 3.
abbrev second_term : List Action
second_term = Action.crash 1 ∷ vote_for 2 2 (2 ∷ 3 ∷ []) ∷ []

second_term_accepted : (apply_history second_term led).0.success ≡ true
unfolding model
second_term_accepted = refl

pub led-Reachable : Reachable led
led-Reachable = apply_history-Reachable first_term fresh fresh-Reachable

abbrev pub voter : ReplicaState
voter = record (node_replica 2) {
  current_term = 1;
  voted_for = some 1;
  log = record { index = 1; term = 1; command = none } ∷ [];
}

pub voter_found : find 2 led ≡ some voter
unfolding model
voter_found = refl

apply_history-Kept_example :
    (s : ReplicaState) × (find 2 (apply_history second_term led).1 ≡ some s) × Kept voter s
apply_history-Kept_example = apply_history-Kept led second_term 2 voter led-Reachable voter_found

abbrev again : Elect
again = record { candidate = 1; term = 1; voters = 1 ∷ 2 ∷ [] }

-- Voters who have voted for node 1 would let it through again.
again_passes : check_voters voter again led [] again.voters ≡ passed ((1, tt) ∷ (2, tt) ∷ [])
unfolding model
again_passes = refl

led_leader : Map.find 1 led.leaders ≡ some 1
unfolding model
led_leader = refl

led_quorum : quorum_size led ≤ 2
unfolding model
led_quorum = omega arith

elect-one_leader_example : ◌≡◌ {A = ℕ} 1 again.candidate
elect-one_leader_example =
    elect-one_leader led again voter ((1, tt) ∷ (2, tt) ∷ []) 1 led-Reachable again_passes
      led_quorum led_leader

led_leads : is_leader 1 led ≡ true
unfolding model
led_leads = refl

abbrev head : ReplicaState
head = record voter {
  id = 1;
  active_leader = true;
  commit_index = 1;
  last_applied = 1;
  ready_term = 1;
}

head_found : find 1 led ≡ some head
unfolding model
head_found = refl

is_leader_unique_example : ◌≡◌ {A = ℕ} 1 1
is_leader_unique_example =
    is_leader_unique led 1 1 head head led-Reachable head_found head_found led_leads led_leads refl

replicas-members_example :
    (found : List ReplicaView) × (replicas led ≡ some found)
    × (map (λ (v : ReplicaView). v.id) found ≡ members led)
replicas-members_example = replicas-members led led-Reachable
