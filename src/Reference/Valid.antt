-- ===== src/Reference/Valid.antt =====
-- The invariant of src/reference_model.cpp: every replica is sound, and behind every elected leader stands
-- a quorum that voted for it.
pub mod Ballot
use det_log.Prelude.{
  ◌≡◌, refl, sym, ◌∙◌, ap, subst, inl, inr, ℕ, suc, ◌+◌, ◌/◌, ◌≤◌, ◌<◌, Bool, true, false, ◌&&◌,
  ◌||◌, not, Option, none, some, List, [], ◌∷◌, All, All-map, arith, Bool-cases, Option-cases, ltb,
  eqb, eqb_iff, if◌then◌else◌, length, is_some,
}
use det_log.Prelude.Key.{nat_key}
use det_log.Prelude.Map
use det_log.Prelude.Map.{Map}
use det_log.Reference.Interpret.{ReplicaState}
use det_log.Reference.Actions.{Elect, Cluster, find, write}
use det_log.Reference.Elections.{
  names, Checked, failed, passed, check_voters, vote_each, install, install_leader, quorum_size,
  election_error, finish_election, candidate_error, elect,
}
use det_log.Reference.Sound.{Sound, Kept}
use det_log.Reference.Sound.Advance.{Votable, install-Kept}
use det_log.Reference.Moves.{
  AllSound, Moves, Moves-refl, Moves-trans, Moves-AllSound, Moves-before, find-write, write-Moves,
  write-leaders, set_leaders-Moves,
}
use det_log.Reference.Moves.Handlers.{Quiet}
use det_log.Reference.Counting.{Among, count_if, count_if-le, quorums_meet, has}
use det_log.Reference.Elected.{
  binds, binds-Carried, AllMembers, Eligible, Granted, check_voters-passed, Voted, vote_each-Voted,
}

pub record Valid (m : Cluster) : Type 0 where
  pub all : AllSound m
  pub members : AllMembers m
  pub elected :
      (term candidate : ℕ)
      → Map.find term m.leaders ≡ some candidate
      → quorum_size m ≤ count_if (λ x. binds term candidate (find x m)) m.members

one_vote :
    (action : Elect) (other : ℕ) (r : ReplicaState)
    → Votable action.term action.candidate r
    → binds action.term other (some r) ≡ true
    → other ≡ action.candidate
unfolding binds
one_vote action other r may bound =
    let level : r.current_term ≡ action.term = ground (arith, may.reached, bound) in
    elim (may.free level) [
      | inl e ↦ absurd (ground (arith, e, level, bound))
      | inr e ↦ ground (arith, e, level, bound)
    ]

-- Two quorums share a member, and a member votes once in a term.
pub quorum_agrees :
    (m : Cluster) (action : Elect) (unique : Map ℕ (Unit {0})) (other : ℕ)
    → Valid m
    → ((x : ℕ) → has unique x ≡ true → Eligible action m x)
    → length unique ≤ count_if (has unique) m.members
    → quorum_size m ≤ length unique
    → Map.find action.term m.leaders ≡ some other
    → other ≡ action.candidate
unfolding quorum_size
quorum_agrees m action unique other v eligible size quorum at =
    let p = λ (x : ℕ). binds action.term other (find x m) in
    let (x, voted, bound) =
      quorums_meet (has unique) p m.members
        (omega (arith, size, quorum, v.elected action.term other at)) in
    let (r, found, may) = eligible x voted in
    let bound' : binds action.term other (some r) ≡ true = rw found at bound in
    one_vote action other r may bound'

members_stay : (m n : Cluster) → Moves m n → AllMembers m → AllMembers n
members_stay m n h a node s at =
    let (r, before, k) = Moves-before m n node s h at in
    subst (Among node) (sym h.members) (a node r before)

-- A move keeps every quorum that stands behind a leader.
elected_stay :
    (m n : Cluster) (term candidate : ℕ)
    → Moves m n
    → quorum_size m ≤ count_if (λ x. binds term candidate (find x m)) m.members
    → quorum_size n ≤ count_if (λ x. binds term candidate (find x n)) n.members
unfolding quorum_size
elected_stay m n term candidate h q =
    let more =
      count_if-le (λ x. binds term candidate (find x m)) (λ x. binds term candidate (find x n))
        m.members (λ x e. binds-Carried term candidate (h.carried x) e) in
    subst (λ l. length l / 2 + 1 ≤ count_if (λ x. binds term candidate (find x n)) l)
      (sym h.members) (omega (arith, more, q))

pub Quiet-Valid : (m n : Cluster) → Quiet m n → Valid m → Valid n
Quiet-Valid m n q v = record {
  all = Moves-AllSound m n q.moves v.all;
  members = members_stay m n q.moves v.members;
  elected = λ term candidate at.
      elected_stay m n term candidate q.moves
        (v.elected term candidate (subst (λ l. Map.find term l ≡ some candidate) q.leaders at));
}
