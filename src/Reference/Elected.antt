-- ===== src/Reference/Elected.antt =====
-- `elect` of src/reference_model.cpp: the voters it lets through, and what the election does to them.
use det_log.Prelude.{
  ◌≡◌, refl, ◌∙◌, subst, inl, inr, ℕ, ◌≤◌, Bool, true, false, ◌&&◌, ◌||◌, Option, none, some, List,
  [], ◌∷◌, All, All-map, arith, Bool-cases, Option-cases, ltb, eqb, eqb_iff, length,
}
use det_log.Prelude.Key.{nat_key}
use det_log.Prelude.Map
use det_log.Prelude.Map.{Map}
use det_log.Reference.Interpret.{ReplicaState}
use det_log.Reference.Actions.{Elect, Cluster, find, write}
use det_log.Reference.Elections.{names, voter_error, failed, passed, check_voters, vote, vote_each}
use det_log.Reference.Sound.Advance.{Votable, vote-Kept, vote-Votable}
use det_log.Reference.Moves.{
  AllSound, Carried, absent, kept, Moves, Moves-refl, Moves-trans, Moves-AllSound, find-write,
  write-Moves, write-leaders,
}
use det_log.Reference.Counting.{count_if, Among, has, has-put, size-put}

-- The node has voted for the candidate in the term, or left the term.
unfoldable pub binds : ℕ → ℕ → Option ReplicaState → Bool
unfolding names
binds term candidate none = false
binds term candidate (some r) =
    ltb term r.current_term || (eqb r.current_term term && names candidate r.voted_for)

pub binds-Carried :
    {a b : Option ReplicaState} (term candidate : ℕ)
    → Carried a b
    → binds term candidate a ≡ true
    → binds term candidate b ≡ true
unfolding binds
binds-Carried term candidate absent h = h
binds-Carried term candidate (kept {r} {s} k) h =
    elim (Bool-cases (ltb r.current_term s.current_term)) [
      | inl e ↦ ground arith
      | inr e ↦
          let level : s.current_term ≡ r.current_term = ground (arith, e, k.term) in
          elim (k.vote level) [
            | inl none_yet ↦ ground (arith, level, none_yet)
            | inr same ↦ ground (arith, level, same)
          ]
    ]

-- Members of the cluster are what its replicas stand under.
abbrev pub AllMembers : Cluster → Type 0
AllMembers m = (node : ℕ) (r : ReplicaState) → find node m ≡ some r → Among node m.members

module _ (action : Elect) where
  abbrev pub Eligible : Cluster → ℕ → Type 0
  Eligible m x = (r : ReplicaState) × (find x m ≡ some r) × Votable action.term action.candidate r

  abbrev pub Granted : Cluster → ℕ → Type 0
  Granted m x =
      (r : ReplicaState) × (find x m ≡ some r)
      × (r.current_term ≡ action.term)
      × (r.voted_for ≡ some action.candidate)

  voter_error-Votable :
      (candidate r : ReplicaState) (set : Map ℕ (Unit {0})) (x : ℕ)
      → voter_error candidate action set x (some r) ≡ none
      → Votable action.term action.candidate r × (has set x ≡ false)
  unfolding voter_error names
  voter_error-Votable candidate r set x h =
      (record { reached = ground arith; free = λ e. ground arith }, ground arith)

  -- The voters that pass may all vote, and the set of them is no larger than their number among the
  -- members.
  pub check_voters-passed :
      (candidate : ReplicaState) (m : Cluster) (set found : Map ℕ (Unit {0})) (voters : List ℕ)
      → AllMembers m
      → ((x : ℕ) → has set x ≡ true → Eligible m x)
      → length set ≤ count_if (has set) m.members
      → check_voters candidate action m set voters ≡ passed found
      → ((x : ℕ) → has found x ≡ true → Eligible m x)
        × (length found ≤ count_if (has found) m.members)
  unfolding check_voters voter_error
  check_voters-passed candidate m set found [] members h size e =
      let same : set ≡ found = cc in
      subst
        (λ s. ((x : ℕ) → has s x ≡ true → Eligible m x) × (length s ≤ count_if (has s) m.members))
        same (h, size)
  check_voters-passed candidate m set found (x ∷ rest) members h size e =
      elim (Option-cases (find x m)) [
        | inl unknown ↦
            let e' : failed "election voter is not a member" ≡ passed found =
              rw (unknown, check_voters, voter_error) at e in
            absurd (cc)
        | inr (r, at) ↦ elim (Option-cases (voter_error candidate action set x (some r))) [
          | inr (error, bad) ↦
              let e' : failed error ≡ passed found = rw (at, bad, check_voters) at e in absurd (cc)
          | inl good ↦
              let (may, fresh) = voter_error-Votable candidate r set x good in
              let e' = rw (at, good, check_voters) at e in
              check_voters-passed candidate m (Map.put x tt set) found rest members
                (λ y t. elim (Bool-cases (eqb x y)) [
                  | inl same ↦ subst (Eligible m) ((eqb_iff x y).0 same) (r, at, may)
                  | inr other ↦ h y (ground (arith, has-put x y set, t, other))
                ])
                (size-put x set m.members fresh (members x r at) size) e'
        ]
      ]

  pub write_vote-Eligible :
      (m : Cluster) (y x : ℕ) (r : ReplicaState)
      → Votable action.term action.candidate r
      → Eligible m x
      → Eligible (write y (vote action r) m) x
  write_vote-Eligible m y x r may (s, at, free) = elim (Bool-cases (eqb y x)) [
    | inl same ↦
        let (reached, voted) = vote-Votable action r may in
        (
          vote action r,
          rw (find-write y (vote action r) m x, same) refl,
          record { reached = omega (arith, reached); free = λ _. inr voted },
        )
    | inr other ↦ (s, rw (find-write y (vote action r) m x, other) at, free)
  ]

  write_vote-Granted :
      (m : Cluster) (y x : ℕ) (r : ReplicaState)
      → Votable action.term action.candidate r
      → Granted m x
      → Granted (write y (vote action r) m) x
  write_vote-Granted m y x r may (s, at, term, voted) = elim (Bool-cases (eqb y x)) [
    | inl same ↦
        let (reached, granted) = vote-Votable action r may in
        (vote action r, rw (find-write y (vote action r) m x, same) refl, reached, granted)
    | inr other ↦ (s, rw (find-write y (vote action r) m x, other) at, term, voted)
  ]

  vote_each-Granted :
      (l : Map ℕ (Unit {0})) (m : Cluster) (x : ℕ)
      → All (λ p. Eligible m p.0) l
      → Granted m x
      → Granted (vote_each action l m) x
  unfolding vote_each
  vote_each-Granted [] m x h g = g
  vote_each-Granted ((y, _) ∷ rest) m x h g =
      let (r, at, may) = h.0 in
      rw (at, vote_each)
        (vote_each-Granted rest (write y (vote action r) m) x
          (All-map (λ p. Eligible m p.0) (λ p. Eligible (write y (vote action r) m) p.0) rest
            (λ p e. write_vote-Eligible m y p.0 r may e) h.1)
          (write_vote-Granted m y x r may g))

  pub record Voted (l : Map ℕ (Unit {0})) (m n : Cluster) : Type 0 where
    pub moves : Moves m n
    pub leaders : n.leaders ≡ m.leaders
    pub granted : (x : ℕ) → has l x ≡ true → Granted n x

  pub vote_each-Voted :
      (l : Map ℕ (Unit {0})) (m : Cluster)
      → AllSound m
      → All (λ p. Eligible m p.0) l
      → Voted l m (vote_each action l m)
  unfolding vote_each Map.find
  vote_each-Voted [] m a h = record {
    moves = Moves-refl m a;
    leaders = refl;
    granted = λ x t. absurd (cc);
  }
  vote_each-Voted ((y, _) ∷ rest) m a h =
      let (r, at, may) = h.0 in
      let next = write y (vote action r) m in
      let first =
        write-Moves y r (vote action r) m a at (vote-Kept action r (a.sound y r at) may) in
      let eligible =
        All-map (λ p. Eligible m p.0) (λ p. Eligible next p.0) rest
          (λ p e. write_vote-Eligible m y p.0 r may e) h.1 in
      let v = vote_each-Voted rest next (Moves-AllSound m next first a) eligible in
      rw (at, vote_each)
        (record {
          moves = Moves-trans m next _ first v.moves;
          leaders = v.leaders ∙ write-leaders y (vote action r) m;
          granted = λ x t. elim (Bool-cases (eqb y x)) [
            | inl same ↦
                let (reached, voted) = vote-Votable action r may in
                vote_each-Granted rest next x eligible
                  (vote action r, rw (find-write y (vote action r) m x, same) refl, reached, voted)
            | inr other ↦ v.granted x (rw other at t)
          ];
        })
