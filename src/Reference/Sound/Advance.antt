-- ===== src/Reference/Sound/Advance.antt =====
-- `apply_through` and the moves of the commit index in src/reference_model.cpp, on one replica.
use det_log.Prelude.{
  ◌≡◌, refl, sym, ◌∙◌, ◌⊎◌, inl, inr, ℕ, zero, suc, ◌+◌, ◌-◌, ◌≤◌, none, some, arith, Bool-cases,
  Option-cases, ltb, eqb, not, ◌&&◌, length, get_elem?,
}
use det_log.Model.{ClientCommand, session_key}
use det_log.Reference.Interpret.{ReplicaState, perform_command, interpret}
use det_log.Reference.Actions.{Elect}
use det_log.Reference.Elections.{vote, install}
use det_log.Reference.Commits.{
  interpret_entry, apply_next, apply_rounds, apply_through, current_at, mark_ready, advance,
}
use det_log.Reference.Sound.{Sound, Kept, Lined-raise}

-- What applying commands leaves alone.
pub record Unmoved (r s : ReplicaState) : Type 0 where
  pub id : s.id ≡ r.id
  pub alive : s.alive ≡ r.alive
  pub active_leader : s.active_leader ≡ r.active_leader
  pub current_term : s.current_term ≡ r.current_term
  pub voted_for : s.voted_for ≡ r.voted_for
  pub commit_index : s.commit_index ≡ r.commit_index
  pub ready_term : s.ready_term ≡ r.ready_term
  pub log : s.log ≡ r.log

interpret-Unmoved :
    (r : ReplicaState) (index : ℕ) (c : ClientCommand)
    → Unmoved r (interpret r index c).1 × ((interpret r index c).1.last_applied ≡ r.last_applied)
unfolding interpret perform_command
interpret-Unmoved r index c = ground arith

apply_next-Unmoved :
    (r : ReplicaState)
    → Unmoved r (apply_next r) × ((apply_next r).last_applied ≡ r.last_applied + 1)
unfolding apply_next interpret_entry
apply_next-Unmoved r = elim (Option-cases (get_elem? r.log r.last_applied)) [
  | inl e ↦ rw (e, apply_next) (ground arith)
  | inr (entry, e) ↦ elim (Option-cases entry.command) [
    | inl n ↦ rw (e, n, apply_next) (ground arith)
    | inr (c, f) ↦
        let advanced = record r { last_applied = r.last_applied + 1 } in
        rw (e, f, apply_next) (ground (arith, interpret-Unmoved advanced (r.last_applied + 1) c))
  ]
]

pub apply_rounds-Unmoved :
    (n : ℕ) (r : ReplicaState)
    → Unmoved r (apply_rounds n r) × ((apply_rounds n r).last_applied ≡ r.last_applied + n)
unfolding apply_rounds
apply_rounds-Unmoved zero r = ground arith
apply_rounds-Unmoved (suc n) r =
    ground (arith, apply_next-Unmoved r, apply_rounds-Unmoved n (apply_next r))

-- Sound and Kept see nothing else.
pub Unmoved-Kept :
    (r s t : ReplicaState) → Unmoved s t → t.last_applied ≡ s.last_applied → Kept r s → Kept r t
Unmoved-Kept r s t u a k = record {
  sound = record {
    within = rw (u.commit_index, u.log) k.sound.within;
    applied = a ∙ k.sound.applied ∙ sym u.commit_index;
    lined = rw (u.current_term, u.log) k.sound.lined;
  };
  id = u.id ∙ k.id;
  term = omega (arith, k.term, u.current_term);
  vote = rw (u.current_term, u.voted_for) k.vote;
  commit = omega (arith, k.commit, u.commit_index);
  prefix = rw u.log k.prefix;
}

pub advance-Kept :
    (r : ReplicaState) (through : ℕ)
    → Sound r
    → r.commit_index ≤ through
    → through ≤ length r.log
    → Kept r (advance through r)
unfolding advance apply_through
advance-Kept r through h low high =
    let moved = record r { commit_index = through } in
    let n = through - r.last_applied in
    let u = apply_rounds-Unmoved n moved in
    let caught_up = record moved { last_applied = through } in
    let k : Kept r caught_up = record {
      sound = record { within = high; applied = refl; lined = h.lined };
      id = refl;
      term = omega arith;
      vote = λ _. inr refl;
      commit = low;
      prefix = refl;
    } in
    Unmoved-Kept r caught_up (apply_rounds n moved) (ground (arith, u.0))
      (omega (arith, u.1, h.applied)) k

pub advance-Unmoved :
    (r : ReplicaState) (through : ℕ)
    → Unmoved (record r { commit_index = through }) (advance through r)
unfolding advance apply_through
advance-Unmoved r through = (apply_rounds-Unmoved (through - r.last_applied) _).0

-- Readiness is no part of what Unmoved names beside the term that is ready.
pub mark_ready-log :
    (through : ℕ) (r : ReplicaState)
    → ((mark_ready through r).log ≡ r.log)
      × ((mark_ready through r).commit_index ≡ r.commit_index)
      × ((mark_ready through r).current_term ≡ r.current_term)
      × ((mark_ready through r).active_leader ≡ r.active_leader)
      × ((mark_ready through r).id ≡ r.id)
unfolding mark_ready
mark_ready-log through r = ground arith

pub mark_ready-Kept : (r s : ReplicaState) (through : ℕ) → Kept r s → Kept r (mark_ready through s)
unfolding mark_ready
mark_ready-Kept r s through k = elim (Bool-cases (not (eqb through 0) && current_at s through)) [
  | inr e ↦ rw e k
  | inl e ↦ rw e (record {
    sound = record { within = k.sound.within; applied = k.sound.applied; lined = k.sound.lined };
    id = k.id;
    term = k.term;
    vote = k.vote;
    commit = k.commit;
    prefix = k.prefix;
  })
]

-- A replica that may vote for the candidate in the term.
pub record Votable (term candidate : ℕ) (r : ReplicaState) : Type 0 where
  pub reached : r.current_term ≤ term
  pub free : r.current_term ≡ term → (r.voted_for ≡ none) ⊎ (r.voted_for ≡ some candidate)

voted-Kept :
    (r s : ReplicaState) (term candidate : ℕ)
    → Sound r
    → Votable term candidate r
    → s.id ≡ r.id
    → s.current_term ≡ term
    → s.voted_for ≡ some candidate
    → s.commit_index ≡ r.commit_index
    → s.last_applied ≡ r.last_applied
    → s.log ≡ r.log
    → Kept r s
voted-Kept r s term candidate h v i t f c a l = record {
  sound = record {
    within = rw (c, l) h.within;
    applied = a ∙ h.applied ∙ sym c;
    lined = rw (t, l) (Lined-raise 0 0 r.current_term term r.log v.reached h.lined);
  };
  id = i;
  term = omega (arith, t, v.reached);
  vote = λ same. elim (v.free (sym same ∙ t)) [ inl e ↦ inl e | inr e ↦ inr (f ∙ sym e) ];
  commit = omega (arith, c);
  prefix = rw l refl;
}

pub vote-Kept :
    (action : Elect) (r : ReplicaState)
    → Sound r
    → Votable action.term action.candidate r
    → Kept r (vote action r)
unfolding vote
vote-Kept action r h v = elim (Bool-cases (ltb r.current_term action.term)) [
  | inl e ↦ rw e (voted-Kept r _ action.term action.candidate h v refl refl refl refl refl refl)
  | inr e ↦
      let same : r.current_term ≡ action.term = ground (arith, e, v.reached) in
      rw e (voted-Kept r _ action.term action.candidate h v refl same refl refl refl refl)
]

pub vote-Votable :
    (action : Elect) (r : ReplicaState)
    → Votable action.term action.candidate r
    → ((vote action r).current_term ≡ action.term)
      × ((vote action r).voted_for ≡ some action.candidate)
unfolding vote
vote-Votable action r v = ground (arith, v.reached)

pub install-Kept :
    (action : Elect) (r : ReplicaState)
    → Sound r
    → Votable action.term action.candidate r
    → Kept r (install action r)
unfolding install
install-Kept action r h v =
    voted-Kept r _ action.term action.candidate h v refl refl refl refl refl refl
