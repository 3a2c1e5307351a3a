-- ===== src/Reference/History.antt =====
-- Histories of src/reference_model.cpp: every cluster that a constructor and any sequence of actions reach.
use det_log.Prelude.{
  ◌≡◌, ◌≢◌, refl, sym, ◌∙◌, ap, subst, ◌⊎◌, inl, inr, ℕ, suc, ◌≤◌, true, ◌&&◌, ◌||◌, none, some,
  List, [], ◌∷◌, All, All-map, arith, Bool-cases, eqb, eqb_iff, length, is_some,
}
use det_log.Prelude.Key.{nat_key}
use det_log.Prelude.Map
use det_log.Prelude.Map.{Map}
use det_log.Reference.Interpret.{ReplicaState}
use det_log.Reference.Actions.{Action, Elect, Cluster, find, write}
use det_log.Reference.Elections.{names, leader, passed, check_voters, quorum_size}
use det_log.Reference.Run.{
  apply_action, apply_from, apply_history, new_replica, built, invalid_argument, add_members, build,
  is_leader,
}
use det_log.Reference.Sound.{Sound, Kept}
use det_log.Reference.Moves.{Moves, Moves-refl, Moves-trans, Moves-after, find-write}
use det_log.Reference.Moves.Handlers.{
  Quiet, crash-Quiet, restart-Quiet, append_noop-Quiet, propose-Quiet, replicate-Quiet,
  commit-Quiet, learn-Quiet,
}
use det_log.Reference.Counting.{Among}
use det_log.Reference.Elected.{check_voters-passed}
use det_log.Reference.Valid.{Valid, quorum_agrees, Quiet-Valid}
use det_log.Reference.Valid.Ballot.{elect-Valid, nobody}

quiet : (m n : Cluster) → Valid m → Quiet m n → Moves m n × Valid n
quiet m n v q = (q.moves, Quiet-Valid m n q v)

pub apply_action-Valid :
    (action : Action) (m : Cluster)
    → Valid m
    → Moves m (apply_action action m).1 × Valid (apply_action action m).1
unfolding apply_action
apply_action-Valid (Action.elect action) m v = elect-Valid action m v
apply_action-Valid (Action.append_no_op node) m v = quiet m _ v (append_noop-Quiet node m v.all)
apply_action-Valid (Action.propose action) m v = quiet m _ v (propose-Quiet action m v.all)
apply_action-Valid (Action.replicate_prefix action) m v =
    quiet m _ v (replicate-Quiet action m v.all)
apply_action-Valid (Action.commit_prefix action) m v = quiet m _ v (commit-Quiet action m v.all)
apply_action-Valid (Action.learn_commit action) m v = quiet m _ v (learn-Quiet action m v.all)
apply_action-Valid (Action.crash node) m v = quiet m _ v (crash-Quiet node m v.all)
apply_action-Valid (Action.restart node) m v = quiet m _ v (restart-Quiet node m v.all)

apply_from-Valid :
    (index : ℕ) (history : List Action) (m : Cluster)
    → Valid m
    → Moves m (apply_from index history m).1 × Valid (apply_from index history m).1
unfolding apply_from
apply_from-Valid index [] m v = (Moves-refl m v.all, v)
apply_from-Valid index (action ∷ rest) m v =
    let (moves, valid) = apply_action-Valid action m v in
    elim (Bool-cases (apply_action action m).0.success) [
      | inr stop ↦ rw (stop, apply_from) (moves, valid)
      | inl go ↦
          let next = (apply_action action m).1 in
          let (more, last) = apply_from-Valid (suc index) rest next valid in
          rw (go, apply_from) (Moves-trans m next _ moves more, last)
    ]

new_replica-Sound : (member : ℕ) → Sound (new_replica member)
unfolding new_replica
new_replica-Sound member = record { within = omega arith; applied = refl; lined = omega arith }

found-write :
    (member node : ℕ) (s r : ReplicaState) (m : Cluster)
    → find node (write member s m) ≡ some r
    → ((member ≡ node) × (s ≡ r)) ⊎ (find node m ≡ some r)
found-write member node s r m at = elim (Bool-cases (eqb member node)) [
  | inl same ↦
      let e : some s ≡ some r = rw (find-write member s m node, same) at at in
      inl ((eqb_iff member node).0 same, cc)
  | inr other ↦ inr (rw (find-write member s m node, other) at at)
]

no_leaders :
    (m : Cluster) (term candidate : ℕ) → m.leaders ≡ [] → Map.find term m.leaders ≢ some candidate
unfolding Map.find
no_leaders m term candidate l at =
    let e : none ≡ some candidate = subst (λ l. Map.find term l ≡ some candidate) l at in cc

-- The cluster while the constructor adds its members.
pub record Empty (all : List ℕ) (m : Cluster) : Type 0 where
  pub valid : Valid m
  pub leaders : m.leaders ≡ []
  pub members : m.members ≡ all
  pub unused :
      (node : ℕ) (r : ReplicaState) → find node m ≡ some r → (r.log ≡ []) × (r.commit_index ≡ 0)

write_new-Empty :
    (all : List ℕ) (member : ℕ) (m : Cluster)
    → Among member all
    → Empty all m
    → Empty all (write member (new_replica member) m)
unfolding write new_replica
write_new-Empty all member m a h =
    let new = new_replica member in
    record {
      valid = record {
        all = record {
          sound = λ node r at. elim (found-write member node new r m at) [
            | inl (_, same) ↦ subst Sound same (new_replica-Sound member)
            | inr before ↦ h.valid.all.sound node r before
          ];
          named = λ node r at. elim (found-write member node new r m at) [
            | inl (here, same) ↦ sym (ap (λ x. x.id) same) ∙ here
            | inr before ↦ h.valid.all.named node r before
          ];
        };
        members = λ node r at. elim (found-write member node new r m at) [
          | inl (here, same) ↦ subst (Among node) (sym h.members) (subst (λ x. Among x all) here a)
          | inr before ↦ h.valid.members node r before
        ];
        elected = λ term candidate at. absurd (no_leaders m term candidate h.leaders at);
      };
      unused = λ node r at. elim (found-write member node new r m at) [
        | inl (_, same) ↦ (sym (ap (λ x. x.log) same), sym (ap (λ x. x.commit_index) same))
        | inr before ↦ h.unused node r before
      ];
      leaders = h.leaders;
      members = h.members;
    }

add_members-Empty :
    (all rest : List ℕ) (unique : Map ℕ (Unit {0})) (m n : Cluster)
    → All (λ x. Among x all) rest
    → Empty all m
    → add_members rest unique m ≡ built n
    → Empty all n
unfolding add_members
add_members-Empty all [] unique m n a h e = let same : m ≡ n = cc in subst (Empty all) same h
add_members-Empty all (member ∷ rest) unique m n a h e =
    elim (Bool-cases (eqb member 0 || is_some (Map.find member unique))) [
      | inl bad ↦ let e' : invalid_argument _ ≡ built n = rw (bad, add_members) at e in absurd (cc)
      | inr good ↦
          let e' = rw (good, add_members) at e in
          add_members-Empty all rest (Map.put member tt unique) _ n a.1
            (write_new-Empty all member m a.0 h) e'
    ]

All-Among : (xs : List ℕ) → All (λ x. Among x xs) xs
All-Among [] = tt
All-Among (x ∷ xs) =
    (inl refl, All-map (λ y. Among y xs) (λ y. Among y (x ∷ xs)) xs (λ y m. inr m) (All-Among xs))

Empty-start :
    (members : List ℕ) → Empty members (record { members = members; replicas = []; leaders = [] })
unfolding find Map.find
Empty-start members = record {
  valid = record {
    all = record { sound = λ node r at. absurd (cc); named = λ node r at. absurd (cc) };
    members = λ node r at. absurd (cc);
    elected = λ term candidate at. absurd (cc);
  };
  leaders = refl;
  members = refl;
  unused = λ node r at. absurd (cc);
}

pub build-Empty : (members : List ℕ) (m : Cluster) → build members ≡ built m → Empty members m
unfolding build
build-Empty [] m e = absurd (cc)
build-Empty (member ∷ rest) m e =
    let members = member ∷ rest in
    add_members-Empty members members [] _ m (All-Among members) (Empty-start members) e

-- A cluster that the constructor built, behind any actions, accepted or rejected.
pub data Reachable : Cluster → Type 0 where
  constructed : {m : Cluster} (members : List ℕ) → build members ≡ built m → Reachable m
  acted : {m : Cluster} (action : Action) → Reachable m → Reachable (apply_action action m).1

pub Reachable-Valid : {m : Cluster} → Reachable m → Valid m
Reachable-Valid (constructed {m} members e) = (build-Empty members m e).valid
Reachable-Valid (acted {m} action r) = (apply_action-Valid action m (Reachable-Valid r)).1

-- Whatever a history does to a reachable cluster, each replica is still there, and sound: its
-- committed entries stand within its log, it has applied exactly them, and its entries are numbered
-- in order with terms that ascend up to its own. Its term and commit index have not decreased, a
-- vote stands while the term does, and the entries that were committed are still in its log.
pub apply_history-Kept :
    (m : Cluster) (history : List Action) (node : ℕ) (r : ReplicaState)
    → Reachable m
    → find node m ≡ some r
    → (s : ReplicaState) × (find node (apply_history history m).1 ≡ some s) × Kept r s
unfolding apply_history
apply_history-Kept m history node r h at =
    Moves-after m _ node r (apply_from-Valid 0 history m (Reachable-Valid h)).0 at

-- In a reachable cluster, a candidate whose voters all pass and make a quorum is the only leader that
-- its term can have: where the table of leaders holds one for the term, it is the candidate.
pub elect-one_leader :
    (m : Cluster) (action : Elect) (candidate : ReplicaState) (unique : Map ℕ (Unit {0}))
    (other : ℕ)
    → Reachable m
    → check_voters candidate action m [] action.voters ≡ passed unique
    → quorum_size m ≤ length unique
    → Map.find action.term m.leaders ≡ some other
    → other ≡ action.candidate
elect-one_leader m action candidate unique other h passes quorum at =
    let v = Reachable-Valid h in
    let (eligible, size) =
      check_voters-passed action candidate m [] unique action.voters v.members
        (λ x t. absurd (nobody x t)) (omega arith) passes in
    quorum_agrees m action unique other v eligible size quorum at

-- Two nodes of a reachable cluster that lead in the same term are one.
pub is_leader_unique :
    (m : Cluster) (a b : ℕ) (r s : ReplicaState)
    → Reachable m
    → find a m ≡ some r
    → find b m ≡ some s
    → is_leader a m ≡ true
    → is_leader b m ≡ true
    → r.current_term ≡ s.current_term
    → a ≡ b
unfolding is_leader leader names
is_leader_unique m a b r s h at_a at_b la lb same =
    let v = Reachable-Valid h in
    let one : (r.alive && leader m r) ≡ true = rw (at_a, is_leader) at la in
    let two : (s.alive && leader m s) ≡ true = rw (at_b, is_leader) at lb in
    let named_a = v.all.named a r at_a in
    let named_b = v.all.named b s at_b in
    let at = ap (λ t. Map.find t m.leaders) same in ground (arith, one, two, named_a, named_b, at)

apply_from-Reachable :
    (index : ℕ) (history : List Action) (m : Cluster)
    → Reachable m
    → Reachable (apply_from index history m).1
unfolding apply_from
apply_from-Reachable index [] m h = h
apply_from-Reachable index (action ∷ rest) m h =
    elim (Bool-cases (apply_action action m).0.success) [
      | inr stop ↦ rw (stop, apply_from) (acted action h)
      | inl go ↦
          rw (go, apply_from)
            (apply_from-Reachable (suc index) rest (apply_action action m).1 (acted action h))
    ]

pub apply_history-Reachable :
    (history : List Action) (m : Cluster) → Reachable m → Reachable (apply_history history m).1
unfolding apply_history
apply_history-Reachable history m h = apply_from-Reachable 0 history m h
