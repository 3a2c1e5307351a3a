-- ===== src/Reference/Run.antt =====
-- src/reference_model.cpp: `crash`, `restart`, the constructor, `apply` on an action and on a history,
-- and the observers.
use det_log.Prelude.{
  ℕ, suc, Bool, true, false, ◌&&◌, ◌||◌, not, String, Option, none, some, List, [], ◌∷◌, eqb,
  if◌then◌else◌, is_some,
}
use det_log.Prelude.Key.{nat_key, bytes_key}
use det_log.Prelude.Map
use det_log.Prelude.Map.{Map}
use det_log.Model.{Bytes}
use det_log.Reference.Interpret.{ReplicaState, AppliedOutcome}
use det_log.Reference.Actions.{
  Action, ActionResult, HistoryResult, ReplicaView, Cluster, succeeded, reject, find, write,
}
use det_log.Reference.Elections.{elect, leader}
use det_log.Reference.Logs.{append_noop, propose, replicate}
use det_log.Reference.Commits.{commit, learn}

unfoldable pub crash : ℕ → Cluster → ActionResult × Cluster
crash node m = elim (find node m) [
  | none ↦ (reject "crash target is not a member", m)
  | some replica ↦
      if not replica.alive
      then (reject "replica is already crashed", m)
      else (succeeded, write node (record replica { alive = false; active_leader = false }) m)
]

unfoldable pub restart : ℕ → Cluster → ActionResult × Cluster
restart node m = elim (find node m) [
  | none ↦ (reject "restart target is not a member", m)
  | some replica ↦
      if replica.alive
      then (reject "replica is already alive", m)
      else (succeeded, write node (record replica { alive = true; active_leader = false }) m)
]

-- Model::apply of an action
unfoldable pub apply_action : Action → Cluster → ActionResult × Cluster
unfolding crash restart
apply_action (Action.elect action) m = elect action m
apply_action (Action.append_no_op node) m = append_noop node m
apply_action (Action.propose action) m = propose action m
apply_action (Action.replicate_prefix action) m = replicate action m
apply_action (Action.commit_prefix action) m = commit action m
apply_action (Action.learn_commit action) m = learn action m
apply_action (Action.crash node) m = crash node m
apply_action (Action.restart node) m = restart node m

unfoldable pub apply_from : ℕ → List Action → Cluster → HistoryResult × Cluster
apply_from index [] m = (record { success = true; applied_actions = index; error = "" }, m)
apply_from index (action ∷ rest) m =
    let (result, next) = apply_action action m in
    elim result.success [
      | false ↦ (record { success = false; applied_actions = index; error = result.error }, next)
      | true ↦ apply_from (suc index) rest next
    ]

-- Model::apply of a history
unfoldable pub apply_history : List Action → Cluster → HistoryResult × Cluster
unfolding apply_from
apply_history history m = apply_from 0 history m

unfoldable pub new_replica : ℕ → ReplicaState
new_replica member = record {
  id = member;
  alive = true;
  active_leader = false;
  current_term = 0;
  voted_for = none;
  commit_index = 0;
  last_applied = 0;
  ready_term = 0;
  log = [];
  values = [];
  sessions = [];
  outcomes = [];
}

-- The constructor throws std::invalid_argument, or builds.
pub data Built : Type 0 where
  built : Cluster → Built
  invalid_argument : String → Built

unfoldable pub add_members : List ℕ → Map ℕ (Unit {0}) → Cluster → Built
unfolding new_replica
add_members [] unique m = built m
add_members (member ∷ rest) unique m = elim (eqb member 0 || is_some (Map.find member unique)) [
  | true ↦ invalid_argument "reference model members must be unique and nonzero"
  | false ↦ add_members rest (Map.put member tt unique) (write member (new_replica member) m)
]

unfoldable pub build : List ℕ → Built
unfolding add_members
build [] = invalid_argument "reference model requires members"
build (member ∷ rest) =
    add_members (member ∷ rest) [] (record { members = member ∷ rest; replicas = []; leaders = [] })

unfoldable pub view : Cluster → ReplicaState → ReplicaView
view m replica = record {
  id = replica.id;
  alive = replica.alive;
  current_term = replica.current_term;
  voted_for = replica.voted_for;
  commit_index = replica.commit_index;
  last_applied = replica.last_applied;
  leader_ready =
      leader m replica
      && not (eqb replica.ready_term 0)
      && eqb replica.ready_term replica.current_term;
  log = replica.log;
}

unfoldable pub replica : ℕ → Cluster → Option ReplicaView
unfolding view
replica node m = elim (find node m) [ none ↦ none | some r ↦ some (view m r) ]

unfoldable pub value : ℕ → Bytes → Cluster → Option Bytes
value node key m = elim (find node m) [ none ↦ none | some r ↦ Map.find key r.values ]

unfoldable pub applied_outcome : ℕ → ℕ → Cluster → Option AppliedOutcome
applied_outcome node index m = elim (find node m) [
  | none ↦ none
  | some r ↦ Map.find index r.outcomes
]

unfoldable pub is_leader : ℕ → Cluster → Bool
is_leader node m = elim (find node m) [ none ↦ false | some r ↦ r.alive && leader m r ]

abbrev pub members : Cluster → List ℕ
members m = m.members

-- The loop of `replicas`; `none` stands for `*` of an empty std::optional.
unfoldable pub views : List ℕ → Cluster → Option (List ReplicaView)
views [] m = some []
views (member ∷ rest) m =
    let more = views rest m in
    elim (replica member m) [
      | none ↦ none
      | some found ↦ elim more [ none ↦ none | some rest ↦ some (found ∷ rest) ]
    ]

unfoldable pub replicas : Cluster → Option (List ReplicaView)
unfolding views
replicas m = views m.members m
