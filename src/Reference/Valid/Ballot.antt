-- ===== src/Reference/Valid/Ballot.antt =====
-- `elect` of src/reference_model.cpp keeps the invariant.
use det_log.Prelude.{
  ◌≡◌, ◌≢◌, refl, sym, ◌∙◌, ap, subst, inl, inr, ℕ, ◌+◌, ◌/◌, ◌≤◌, true, some, [], ◌∷◌, All, arith,
  Bool-cases, Option-cases, eqb, eqb_iff, if◌then◌else◌, length,
}
use det_log.Prelude.Key.{nat_key}
use det_log.Prelude.Map
use det_log.Prelude.Map.{Map}
use det_log.Reference.Actions.{Elect, Cluster, find}
use det_log.Reference.Elections.{
  names, Checked, failed, passed, check_voters, vote_each, install, install_leader, quorum_size,
  election_error, finish_election, candidate_error, elect,
}
use det_log.Reference.Sound.Advance.{Votable, install-Kept}
use det_log.Reference.Moves.{
  AllSound, Moves, Moves-refl, Moves-trans, Moves-AllSound, write-Moves, set_leaders-Moves,
}
use det_log.Reference.Counting.{count_if, count_if-le, has}
use det_log.Reference.Elected.{
  binds, binds-Carried, Eligible, Granted, check_voters-passed, vote_each-Voted,
}
use det_log.Reference.Valid.{Valid, members_stay, elected_stay}

has-cons : (k x : ℕ) (rest : Map ℕ (Unit {0})) → has rest x ≡ true → has ((k, tt) ∷ rest) x ≡ true
unfolding Map.find
has-cons k x rest h = ground (arith, h)

has_self : (k : ℕ) (rest : Map ℕ (Unit {0})) → has ((k, tt) ∷ rest) k ≡ true
unfolding Map.find
has_self k rest = ground arith

pub All-has {ℓ} :
    (P : ℕ → Type ℓ) (l : Map ℕ (Unit {0})) → ((x : ℕ) → has l x ≡ true → P x) → All (λ p. P p.0) l
All-has P [] h = tt
All-has P ((k, tt) ∷ rest) h =
    (h k (has_self k rest), All-has P rest (λ x t. h x (has-cons k x rest t)))

granted-binds :
    (action : Elect) (m : Cluster) (x : ℕ)
    → Granted action m x
    → binds action.term action.candidate (find x m) ≡ true
unfolding binds names
granted-binds action m x (r, at, term, voted) = rw at (ground (arith, term, voted))

record Installed (action : Elect) (m n : Cluster) : Type 0 where
  moves : Moves m n
  leaders : n.leaders ≡ Map.put action.term action.candidate m.leaders

install_leader-Installed :
    (action : Elect) (m : Cluster)
    → AllSound m
    → Granted action m action.candidate
    → Installed action m (install_leader action m)
unfolding install_leader
install_leader-Installed action m a (r, at, term, voted) =
    let may : Votable action.term action.candidate r = record {
      reached = omega (arith, term);
      free = λ _. inr voted;
    } in
    let w =
      write-Moves action.candidate r (install action r) m a at
        (install-Kept action r (a.sound action.candidate r at) may) in
    rw (at, install_leader) (record { moves = set_leaders-Moves m _ _ w; leaders = refl })

-- The voters are the quorum behind the new leader.
quorum_behind :
    (action : Elect) (m between after : Cluster) (unique : Map ℕ (Unit {0}))
    → Moves m after
    → Moves between after
    → ((x : ℕ) → has unique x ≡ true → Granted action between x)
    → length unique ≤ count_if (has unique) m.members
    → quorum_size m ≤ length unique
    → quorum_size after
      ≤ count_if (λ x. binds action.term action.candidate (find x after)) after.members
unfolding quorum_size
quorum_behind action m between after unique moves last granted size quorum =
    let test = λ (x : ℕ). binds action.term action.candidate (find x after) in
    let more = count_if-le (has unique) test m.members (λ x t.
      binds-Carried action.term action.candidate (last.carried x)
        (granted-binds action between x (granted x t))) in
    subst (λ l. length l / 2 + 1 ≤ count_if test l) (sym moves.members)
      (omega (arith, size, quorum, more))

-- An election with a quorum of eligible voters.
pub elected-Valid :
    (m : Cluster) (action : Elect) (unique : Map ℕ (Unit {0}))
    → Valid m
    → ((x : ℕ) → has unique x ≡ true → Eligible action m x)
    → length unique ≤ count_if (has unique) m.members
    → has unique action.candidate ≡ true
    → quorum_size m ≤ length unique
    → Moves m (install_leader action (vote_each action unique m))
      × Valid (install_leader action (vote_each action unique m))
unfolding quorum_size
elected-Valid m action unique v eligible size self quorum =
    let voted =
      vote_each-Voted action unique m v.all (All-has (Eligible action m) unique eligible) in
    let between = vote_each action unique m in
    let i =
      install_leader-Installed action between (Moves-AllSound m between voted.moves v.all)
        (voted.granted action.candidate self) in
    let after = install_leader action between in
    let moves = Moves-trans m between after voted.moves i.moves in
    (
      moves,
      record {
        all = Moves-AllSound m after moves v.all;
        members = members_stay m after moves v.members;
        elected = λ term candidate at.
            let at' : (if eqb action.term term
                  then some action.candidate
                  else Map.find term m.leaders)
                ≡ some candidate =
              sym (Map.find-put action.term term action.candidate m.leaders)
              ∙ ap (λ l. Map.find term (Map.put action.term action.candidate l)) (sym voted.leaders)
              ∙ ap (Map.find term) (sym i.leaders)
              ∙ at in
            elim (Bool-cases (eqb action.term term)) [
              | inr other ↦
                  elected_stay m after term candidate moves
                    (v.elected term candidate (rw other at at'))
              | inl same ↦
                  let new_leader : some action.candidate ≡ some candidate = rw same at at' in
                  let winner : action.candidate ≡ candidate = cc in
                  subst
                    (λ c.
                      quorum_size after ≤ count_if (λ x. binds term c (find x after)) after.members)
                    winner
                    (subst
                      (λ t.
                        quorum_size after
                        ≤ count_if (λ x. binds t action.candidate (find x after)) after.members)
                      ((eqb_iff action.term term).0 same)
                      (quorum_behind action m between after unique moves i.moves voted.granted size
                        quorum))
            ];
      },
    )

pub nobody : (x : ℕ) → has [] x ≢ true
unfolding Map.find
nobody x h = cc

finish_election-Valid :
    (m : Cluster) (action : Elect) (c : Checked)
    → Valid m
    → ((unique : Map ℕ (Unit {0}))
        → c ≡ passed unique
        → ((x : ℕ) → has unique x ≡ true → Eligible action m x)
          × (length unique ≤ count_if (has unique) m.members))
    → Moves m (finish_election action m c).1 × Valid (finish_election action m c).1
unfolding finish_election election_error
finish_election-Valid m action (failed error) v h = (Moves-refl m v.all, v)
finish_election-Valid m action (passed unique) v h =
    elim (Option-cases (election_error action m unique)) [
      | inr (error, e) ↦ rw (e, finish_election) (Moves-refl m v.all, v)
      | inl e ↦
          let (eligible, size) = h unique refl in
          let self : has unique action.candidate ≡ true = ground (arith, e) in
          let quorum : quorum_size m ≤ length unique = ground (arith, e) in
          rw (e, finish_election) (elected-Valid m action unique v eligible size self quorum)
    ]

pub elect-Valid :
    (action : Elect) (m : Cluster) → Valid m → Moves m (elect action m).1 × Valid (elect action m).1
unfolding elect
elect-Valid action m v = elim (Option-cases (find action.candidate m)) [
  | inl e ↦ rw (e, elect) (Moves-refl m v.all, v)
  | inr (candidate, e) ↦ elim (Option-cases (candidate_error action candidate)) [
    | inr (error, f) ↦ rw (e, f, elect) (Moves-refl m v.all, v)
    | inl f ↦
        rw (e, f, elect)
          (finish_election-Valid m action (check_voters candidate action m [] action.voters) v
            (λ unique passes.
              check_voters-passed action candidate m [] unique action.voters v.members
                (λ x t. absurd (nobody x t)) (omega arith) passes))
  ]
]
