-- ===== src/Reference/Safety/Agreement.antt =====
-- Histories of src/reference_model.cpp whose commits rest on acknowledgers that have not gone beyond the
-- leader's term: what two replicas have committed agrees.
use det_log.Prelude.{
  ◌≡◌, ◌≢◌, refl, sym, ◌∙◌, ap, subst, inl, inr, ℕ, ◌≤◌, none, some, List, [], arith, Bool-cases,
  ltb, eqb, eqb_iff, length, take, get_elem?, take-take,
}
use det_log.Prelude.Key.{nat_key}
use det_log.Prelude.Map
use det_log.Model.{LogEntry}
use det_log.Reference.Interpret.{ReplicaState}
use det_log.Reference.Actions.{Action, Cluster, find}
use det_log.Reference.Elections.{names, leader}
use det_log.Reference.Run.{apply_action, built, build}
use det_log.Reference.History.{Empty, build-Empty}
use det_log.Reference.Safety.{History, Extends, Safe, Covered, Secure}
use det_log.Reference.Safety.Prefixes.{Extends-agree}
use det_log.Reference.Safety.Roles.{Secured, crash-Secured, restart-Secured}
use det_log.Reference.Safety.Logs.{append_noop-Secured, propose-Secured}
use det_log.Reference.Safety.Copies.{replicate-Secured}
use det_log.Reference.Safety.Commits.{Timely, commit-Secured}
use det_log.Reference.Safety.Learns.{learn-Secured}
use det_log.Reference.Safety.Ballots.{elect-Secured}

-- Every action is allowed but a commit with an acknowledger of a higher term.
abbrev pub Allowed : Cluster → Action → Type 0
Allowed m (Action.elect action) = Unit {0}
Allowed m (Action.append_no_op node) = Unit {0}
Allowed m (Action.propose action) = Unit {0}
Allowed m (Action.replicate_prefix action) = Unit {0}
Allowed m (Action.commit_prefix action) = Timely m action
Allowed m (Action.learn_commit action) = Unit {0}
Allowed m (Action.crash node) = Unit {0}
Allowed m (Action.restart node) = Unit {0}

apply_action-Secured :
    (action : Action) (m : Cluster) (history : History)
    → Secure m history
    → Allowed m action
    → Secured (apply_action action m).1
unfolding apply_action
apply_action-Secured (Action.elect action) m history h a = elect-Secured action m history h
apply_action-Secured (Action.append_no_op node) m history h a = append_noop-Secured node m history h
apply_action-Secured (Action.propose action) m history h a = propose-Secured action m history h
apply_action-Secured (Action.replicate_prefix action) m history h a =
    replicate-Secured action m history h
apply_action-Secured (Action.commit_prefix action) m history h a =
    commit-Secured action m history h a
apply_action-Secured (Action.learn_commit action) m history h a = learn-Secured action m history h
apply_action-Secured (Action.crash node) m history h a = crash-Secured node m history h
apply_action-Secured (Action.restart node) m history h a = restart-Secured node m history h

-- A cluster that the constructor built, behind any allowed actions, accepted or rejected.
pub data Disciplined : Cluster → Type 0 where
  constructed : {m : Cluster} (members : List ℕ) → build members ≡ built m → Disciplined m
  acted :
      {m : Cluster} (action : Action)
      → Allowed m action
      → Disciplined m
      → Disciplined (apply_action action m).1

-- Of two safe prefixes, the one of the later term tells what both begin with.
Safe-agree :
    (m : Cluster) (history : History) (k : ℕ) (p q : List LogEntry) (t u : ℕ)
    → Safe m history p t
    → Safe m history q u
    → k ≤ length p
    → k ≤ length q
    → take k p ≡ take k q
Safe-agree m history k p q t u s v a b = elim (Bool-cases (ltb t u)) [
  | inl less ↦
      let (c, led) = v.led in
      Extends-agree k p q (history u) (s.later u c (ground (arith, less)) led) v.own a b
  | inr more ↦ elim (Bool-cases (eqb t u)) [
    | inl same ↦
        let level = (eqb_iff t u).0 same in
        Extends-agree k p q (history u) (subst (λ z. Extends p (history z)) level s.own) v.own a b
    | inr apart ↦
        let (c, led) = s.led in
        Extends-agree k p q (history t) s.own (v.later t c (ground (arith, more, apart)) led) a b
  ]
]

Covered-agree :
    (m : Cluster) (history : History) (k : ℕ) (r s : ReplicaState)
    → Covered m history r
    → Covered m history s
    → k ≤ r.commit_index
    → k ≤ s.commit_index
    → take k r.log ≡ take k s.log
Covered-agree m history k r s (inl none_yet) c a b =
    let zero_k : k ≡ 0 = omega (arith, a, none_yet) in rw zero_k refl
Covered-agree m history k r s (inr h) (inl none_yet) a b =
    let zero_k : k ≡ 0 = omega (arith, b, none_yet) in rw zero_k refl
Covered-agree m history k r s (inr (p, t, safe, le, same)) (inr (q, u, safe', le', same')) a b =
    sym (take-take k r.commit_index r.log a)
    ∙ ap (take k) same
    ∙ take-take k r.commit_index p a
    ∙ Safe-agree m history k p q t u safe safe' (omega (arith, a, le)) (omega (arith, b, le'))
    ∙ sym (take-take k s.commit_index q b)
    ∙ ap (take k) (sym same')
    ∙ take-take k s.commit_index s.log b

nothing_found : (i : ℕ) (e : LogEntry) → get_elem? [] i ≢ some e
nothing_found i e at = cc

no_leader : (m : Cluster) (t c : ℕ) → m.leaders ≡ [] → Map.find t m.leaders ≢ some c
unfolding Map.find
no_leader m t c none_yet led =
    let e : none ≡ some c = subst (λ l. Map.find t l ≡ some c) none_yet led in cc

Empty-Secure : (members : List ℕ) (m : Cluster) → Empty members m → Secure m (λ term. [])
unfolding leader names
Empty-Secure members m h = record {
  valid = h.valid;
  within = λ x r at i e found.
      absurd (nothing_found i e (subst (λ l. get_elem? l i ≡ some e) (h.unused x r at).0 found));
  active = λ x r at leads. sym (h.unused x r at).0;
  reached = λ term c led. absurd (no_leader m term c h.leaders led);
  covered = λ x r at. inl (h.unused x r at).1;
}

Disciplined-Secured : {m : Cluster} → Disciplined m → Secured m
Disciplined-Secured (constructed {m} members e) =
    ((λ term. []), Empty-Secure members m (build-Empty members m e))
Disciplined-Secured (acted {m} action a d) =
    let (history, h) = Disciplined-Secured d in apply_action-Secured action m history h a

-- State machine safety of the reference model: in a cluster behind a history in which no commit counts
-- an acknowledger that has gone beyond the leader's term, any two replicas have the same entries as
-- far as both have committed.
pub commit-agreement :
    (m : Cluster) (a b : ℕ) (r s : ReplicaState) (k : ℕ)
    → Disciplined m
    → find a m ≡ some r
    → find b m ≡ some s
    → k ≤ r.commit_index
    → k ≤ s.commit_index
    → take k r.log ≡ take k s.log
commit-agreement m a b r s k d at_a at_b le le' =
    let (history, h) = Disciplined-Secured d in
    Covered-agree m history k r s (h.covered a r at_a) (h.covered b s at_b) le le'
