-- ===== src/Reference/Tests/Conflict.antt =====
-- A history of five nodes in which a leader of an old term commits with acknowledgers that have moved to
-- a higher term.
use det_log.Prelude.{◌≡◌, refl, ℕ, true, none, some, List, [], ◌∷◌}
use det_log.Model.{LogEntry}
use det_log.Reference.Actions.{Action, Cluster}
use det_log.Reference.Run
use det_log.Reference.Run.{apply_history}
use det_log.Reference.Tests.Histories.{model, node_replica, vote_for, copy, commit_with}

abbrev five : Cluster
five = record {
  members = 1 ∷ 2 ∷ 3 ∷ 4 ∷ 5 ∷ [];
  replicas =
      (1, node_replica 1)
      ∷ (2, node_replica 2)
      ∷ (3, node_replica 3)
      ∷ (4, node_replica 4)
      ∷ (5, node_replica 5)
      ∷ [];
  leaders = [];
}

-- Node 1 appends in term 1 and reaches node 2; node 3 appends in term 2; node 2 leads term 3 and
-- copies node 1's entry to node 4. Then node 1, still in term 1, commits it with nodes 2 and 4.
-- Node 3 leads term 4, overwrites it on node 4, and commits its own entry at the same index.
abbrev conflict : List Action
conflict =
    vote_for 1 1 (1 ∷ 2 ∷ 5 ∷ [])
    ∷ Action.append_no_op 1
    ∷ copy 1 2 1
    ∷ vote_for 3 2 (3 ∷ 4 ∷ 5 ∷ [])
    ∷ Action.append_no_op 3
    ∷ vote_for 2 3 (2 ∷ 4 ∷ 5 ∷ [])
    ∷ copy 2 4 1
    ∷ commit_with 1 1 (1 ∷ 2 ∷ 4 ∷ [])
    ∷ vote_for 3 4 (3 ∷ 4 ∷ 5 ∷ [])
    ∷ copy 3 4 1
    ∷ copy 3 5 1
    ∷ Action.append_no_op 3
    ∷ copy 3 4 2
    ∷ copy 3 5 2
    ∷ commit_with 3 2 (3 ∷ 4 ∷ 5 ∷ [])
    ∷ []

conflict_accepted : (apply_history conflict five).0.success ≡ true
unfolding model
conflict_accepted = refl

abbrev entry : ℕ → ℕ → LogEntry
entry index term = record { index = index; term = term; command = none }

node_one :
    Run.replica 1 (apply_history conflict five).1
    ≡ some (record {
      id = 1;
      alive = true;
      current_term = 1;
      voted_for = some 1;
      commit_index = 1;
      last_applied = 1;
      leader_ready = true;
      log = entry 1 1 ∷ [];
    })
unfolding model Run.replica Run.view
node_one = refl

node_three :
    Run.replica 3 (apply_history conflict five).1
    ≡ some (record {
      id = 3;
      alive = true;
      current_term = 4;
      voted_for = some 3;
      commit_index = 2;
      last_applied = 2;
      leader_ready = true;
      log = entry 1 2 ∷ entry 2 4 ∷ [];
    })
unfolding model Run.replica Run.view
node_three = refl
