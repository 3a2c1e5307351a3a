-- ===== src/Reference/Commits.antt =====
-- src/reference_model.cpp: `apply_through`, and the actions that move the commit index, `commit` and
-- `learn`.
use det_log.Prelude.{
  ℕ, zero, suc, ◌+◌, ◌-◌, Bool, true, false, ◌&&◌, ◌||◌, not, String, Option, none, some, List, [],
  ◌∷◌, ltb, eqb, if◌then◌else◌, length, get_elem?, is_some,
}
use det_log.Prelude.Key.{nat_key}
use det_log.Prelude.Map
use det_log.Prelude.Map.{Map}
use det_log.Model.{LogEntry, ClientCommand, entry_beq}
use det_log.Reference.Interpret.{ReplicaState, interpret}
use det_log.Reference.Actions.{
  CommitPrefix, LearnCommit, ActionResult, Cluster, succeeded, reject, find, write,
}
use det_log.Reference.Elections.{leader, Checked, failed, passed, quorum_size}
use det_log.Reference.Logs.{adopt_term}

unfoldable pub equal_entries : ℕ → List LogEntry → List LogEntry → Bool
equal_entries zero xs ys = true
equal_entries (suc n) [] ys = false
equal_entries (suc n) (x ∷ xs) [] = false
equal_entries (suc n) (x ∷ xs) (y ∷ ys) =
    if not (entry_beq x y) then false else equal_entries n xs ys

unfoldable pub equal_prefix : ReplicaState → ReplicaState → ℕ → Bool
unfolding equal_entries
equal_prefix lhs rhs through =
    if ltb (length lhs.log) through || ltb (length rhs.log) through
    then false
    else equal_entries through lhs.log rhs.log

unfoldable pub interpret_entry : ℕ → Option ClientCommand → ReplicaState → ReplicaState
interpret_entry index none replica = replica
interpret_entry index (some command) replica =
    let (outcome, interpreted) = interpret replica index command in
    record interpreted { outcomes = Map.put index outcome interpreted.outcomes }

-- One round of the loop. No caller goes beyond the log, where the C++ code would read out of bounds.
unfoldable pub apply_next : ReplicaState → ReplicaState
unfolding interpret_entry
apply_next replica =
    let advanced = record replica { last_applied = replica.last_applied + 1 } in
    elim (get_elem? replica.log replica.last_applied) [
      | none ↦ advanced
      | some entry ↦ interpret_entry (replica.last_applied + 1) entry.command advanced
    ]

unfoldable pub apply_rounds : ℕ → ReplicaState → ReplicaState
apply_rounds zero replica = replica
apply_rounds (suc rounds) replica = apply_rounds rounds (apply_next replica)

-- The loop runs until last_applied is `through`.
unfoldable pub apply_through : ReplicaState → ℕ → ReplicaState
apply_through replica through = apply_rounds (through - replica.last_applied) replica

-- The tests of one acknowledger, in order.
unfoldable pub acknowledger_error :
    ReplicaState → ℕ → Map ℕ (Unit {0}) → ℕ → Option ReplicaState → Option String
acknowledger_error source through unique id none = some "commit acknowledger is not a member"
acknowledger_error source through unique id (some replica) =
    if is_some (Map.find id unique)
    then some "commit acknowledger is duplicated"
    else if not replica.alive
    then some "crashed replica cannot acknowledge a commit"
    else if not (equal_prefix source replica through)
    then some "commit acknowledger lacks the leader prefix"
    else none

unfoldable pub check_acknowledgers :
    ReplicaState → ℕ → Cluster → Map ℕ (Unit {0}) → List ℕ → Checked
check_acknowledgers source through m unique [] = passed unique
check_acknowledgers source through m unique (id ∷ rest) =
    elim (acknowledger_error source through unique id (find id m)) [
      | some error ↦ failed error
      | none ↦ check_acknowledgers source through m (Map.put id tt unique) rest
    ]

-- The entry at `through` is of the leader's term.
unfoldable pub current_at : ReplicaState → ℕ → Bool
current_at source through = elim (get_elem? source.log (through - 1)) [
  | none ↦ false
  | some entry ↦ eqb entry.term source.current_term
]

-- What `commit` tests once the acknowledgers have passed.
unfoldable pub commit_error :
    CommitPrefix → Cluster → ReplicaState → Map ℕ (Unit {0}) → Option String
commit_error action m source unique =
    if ltb (length unique) (quorum_size m)
    then some "commit has no quorum"
    else if not (is_some (Map.find action.leader unique))
    then some "commit certificate omits the leader's durable copy"
    else if ltb source.commit_index action.through
        && not (eqb action.through 0)
        && not (current_at source action.through)
    then some "leader may advance commit only through current-term entry"
    else none

unfoldable pub mark_ready : ℕ → ReplicaState → ReplicaState
mark_ready through source =
    if not (eqb through 0) && current_at source through
    then record source { ready_term = source.current_term }
    else source

unfoldable pub advance : ℕ → ReplicaState → ReplicaState
advance through replica = apply_through (record replica { commit_index = through }) through

unfoldable pub finish_commit :
    CommitPrefix → Cluster → ReplicaState → Checked → ActionResult × Cluster
finish_commit action m source (failed error) = (reject error, m)
finish_commit action m source (passed unique) = elim (commit_error action m source unique) [
  | some error ↦ (reject error, m)
  | none ↦
      (succeeded, write action.leader (mark_ready action.through (advance action.through source)) m)
]

unfoldable pub commit : CommitPrefix → Cluster → ActionResult × Cluster
commit action m = elim (find action.leader m) [
  | none ↦ (reject "commit leader is not a member", m)
  | some source ↦
      if not source.alive || not (leader m source)
      then (reject "only a live elected leader may commit", m)
      else if ltb action.through source.commit_index || ltb (length source.log) action.through
      then (reject "commit index is outside the leader's legal range", m)
      else finish_commit action m source
          (check_acknowledgers source action.through m [] action.acknowledgers)
]

unfoldable pub learn_between :
    LearnCommit → Cluster → ReplicaState → ReplicaState → ActionResult × Cluster
learn_between action m source follower =
    if not source.alive || not follower.alive || not (leader m source)
    then (reject "commit propagation requires a live leader and follower", m)
    else if ltb source.current_term follower.current_term
    then (reject "higher-term follower rejects commit propagation", m)
    else if ltb action.through follower.commit_index
        || ltb source.commit_index action.through
        || not (equal_prefix source follower action.through)
    then (reject "follower cannot learn the requested commit prefix", m)
    else (
      succeeded,
      write action.follower (adopt_term source.current_term (advance action.through follower)) m,
    )

unfoldable pub learn : LearnCommit → Cluster → ActionResult × Cluster
unfolding learn_between
learn action m = elim (find action.leader m) [
  | none ↦ (reject "commit propagation endpoint is not a member", m)
  | some source ↦ elim (find action.follower m) [
    | none ↦ (reject "commit propagation endpoint is not a member", m)
    | some follower ↦ learn_between action m source follower
  ]
]
