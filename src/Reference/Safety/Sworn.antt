-- ===== src/Reference/Safety/Sworn.antt =====
-- What an election of src/reference_model.cpp does to each replica: its log and commit index stay.
use det_log.Prelude.{
  ◌≡◌, ◌≢◌, refl, ◌∙◌, ap, subst, ◌⊎◌, inl, inr, ℕ, true, none, some, List, [], ◌∷◌, All, All-map,
  arith, Bool-cases, eqb, eqb_iff,
}
use det_log.Prelude.Key.{nat_key}
use det_log.Prelude.Map
use det_log.Prelude.Map.{Map}
use det_log.Model.{LogEntry}
use det_log.Reference.Interpret.{ReplicaState}
use det_log.Reference.Actions.{Elect, Cluster, find, write}
use det_log.Reference.Elections.{vote, vote_each, install, install_leader}
use det_log.Reference.Counting.{has}
use det_log.Reference.Sound.Advance.{vote-Votable}
use det_log.Reference.Moves.{find-write}
use det_log.Reference.Elected.{Eligible, Voted, write_vote-Eligible}
use det_log.Reference.Safety.{holds}

-- A replica is as it was, or in the election's term, with the log and the commit index that it had.
pub record Sworn (reached : ℕ) (r s : ReplicaState) : Type 0 where
  pub log : s.log ≡ r.log
  pub commit : s.commit_index ≡ r.commit_index
  pub term : (s ≡ r) ⊎ (s.current_term ≡ reached)

abbrev pub SwornAll : ℕ → Cluster → Cluster → Type 0
SwornAll term m n =
    (y : ℕ) (s : ReplicaState)
    → find y n ≡ some s
    → (r : ReplicaState) × (find y m ≡ some r) × Sworn term r s

pub Sworn-refl : (term : ℕ) (r : ReplicaState) → Sworn term r r
Sworn-refl term r = record { log = refl; commit = refl; term = inl refl }

pub Sworn-trans :
    (reached : ℕ) (a b c : ReplicaState) → Sworn reached a b → Sworn reached b c → Sworn reached a c
Sworn-trans reached a b c h k = record {
  log = k.log ∙ h.log;
  commit = k.commit ∙ h.commit;
  term = elim k.term [
    | inr e ↦ inr e
    | inl e ↦ elim h.term [ inl f ↦ inl (e ∙ f) | inr f ↦ inr (ap (λ z. z.current_term) e ∙ f) ]
  ];
}

pub SwornAll-trans :
    (term : ℕ) (a b c : Cluster) → SwornAll term a b → SwornAll term b c → SwornAll term a c
SwornAll-trans term a b c h k y t at =
    let (s, at_b, second) = k y t at in
    let (r, at_a, first) = h y s at_b in (r, at_a, Sworn-trans term r s t first second)

pub write-SwornAll :
    (term : ℕ) (m : Cluster) (x : ℕ) (r s : ReplicaState)
    → find x m ≡ some r
    → Sworn term r s
    → SwornAll term m (write x s m)
write-SwornAll term m x r s at h y t found = elim (Bool-cases (eqb x y)) [
  | inr other ↦ (t, rw (find-write x s m y, other) at found, Sworn-refl term t)
  | inl same ↦
      let e : some s ≡ some t = rw (find-write x s m y, same) at found in
      let one : s ≡ t = cc in
      (r, subst (λ z. find z m ≡ some r) ((eqb_iff x y).0 same) at, subst (Sworn term r) one h)
]

pub vote_log :
    (action : Elect) (r : ReplicaState)
    → ((vote action r).log ≡ r.log) × ((vote action r).commit_index ≡ r.commit_index)
unfolding vote
vote_log action r = ground arith

pub vote_each-Sworn :
    (action : Elect) (l : Map ℕ (Unit {0})) (m : Cluster)
    → All (λ p. Eligible action m p.0) l
    → SwornAll action.term m (vote_each action l m)
unfolding vote_each
vote_each-Sworn action [] m h = λ y s at. (s, at, Sworn-refl action.term s)
vote_each-Sworn action ((x, _) ∷ rest) m h =
    let (r, at, may) = h.0 in
    let next = write x (vote action r) m in
    let (log, commit) = vote_log action r in
    let sworn : Sworn action.term r (vote action r) = record {
      log = log;
      commit = commit;
      term = inr (vote-Votable action r may).0;
    } in
    let eligible =
      All-map (λ p. Eligible action m p.0) (λ p. Eligible action next p.0) rest
        (λ p e. write_vote-Eligible action m x p.0 r may e) h.1 in
    rw (at, vote_each)
      (SwornAll-trans action.term m next _
        (write-SwornAll action.term m x r (vote action r) at sworn)
        (vote_each-Sworn action rest next eligible))

-- The cluster behind an election.
pub record Elected (action : Elect) (m n : Cluster) : Type 0 where
  pub sworn : SwornAll action.term m n
  pub leaders : n.leaders ≡ Map.put action.term action.candidate m.leaders
  pub head :
      (r : ReplicaState) × (find action.candidate n ≡ some r) × (r.current_term ≡ action.term)

pub eqb_self : (x : ℕ) → eqb x x ≡ true
eqb_self x = ground arith

pub unheld :
    (prefix : List LogEntry) (x : ℕ) (m : Cluster)
    → find x m ≡ none
    → holds prefix (find x m) ≢ true
unfolding holds
unheld prefix x m unknown held = let none_held : holds prefix none ≡ true = rw unknown at held in cc

pub install_leader-Elected :
    (action : Elect) (m between : Cluster) (unique : Map ℕ (Unit {0}))
    → has unique action.candidate ≡ true
    → SwornAll action.term m between
    → Voted action unique m between
    → Elected action m (install_leader action between)
unfolding install_leader find write install
install_leader-Elected action m between unique self sworn v =
    let (r, at, term, voted) = v.granted action.candidate self in
    rw (at, install_leader)
      (record {
        sworn =
            SwornAll-trans action.term m between (write action.candidate (install action r) between)
              sworn
              (write-SwornAll action.term between action.candidate r (install action r) at
                (record { log = refl; commit = refl; term = inr refl }));
        leaders = ap (Map.put action.term action.candidate) v.leaders;
        head = (
          install action r,
          find-write action.candidate (install action r) between action.candidate
              ∙ rw (eqb_self action.candidate) refl,
          refl,
        );
      })
