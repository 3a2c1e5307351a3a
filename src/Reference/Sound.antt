-- ===== src/Reference/Sound.antt =====
-- Replicas of src/reference_model.cpp: what a sound replica is, and what no action takes back.
pub mod Divergence
pub mod Copy
pub mod Advance
use det_log.Prelude.{
  ◌≡◌, refl, sym, ◌∙◌, ap, ◌⊎◌, inl, inr, ℕ, zero, suc, ◌+◌, ◌-◌, ◌≤◌, ◌<◌, min, Bool, true, false,
  Option, none, some, List, [], ◌∷◌, ◌++◌, arith, Bool-cases, Option-cases, ltb, leb, eqb, not,
  if◌then◌else◌, length, take, drop, take-append, take-take, length-take, take-all, length-append,
}
use det_log.Model.{LogEntry, ClientCommand, entry_beq, entry_beq_iff}
use det_log.Reference.Interpret.{ReplicaState}
use det_log.Reference.Elections.{names}
use det_log.Reference.Logs.{divergence_from, divergence, splice, copy_prefix, adopt_term, push}

-- Entries behind index `i` are numbered in order, and their terms ascend from `lo` to `hi`.
abbrev pub Lined : ℕ → ℕ → ℕ → List LogEntry → Type 0
Lined i lo hi [] = lo ≤ hi
Lined i lo hi (entry ∷ rest) =
    (entry.index ≡ suc i) × (lo ≤ entry.term) × Lined (suc i) entry.term hi rest

pub Lined-le : (i lo hi : ℕ) (log : List LogEntry) → Lined i lo hi log → lo ≤ hi
Lined-le i lo hi [] h = h
Lined-le i lo hi (entry ∷ rest) h = omega (arith, Lined-le (suc i) entry.term hi rest h.2)

pub Lined-raise :
    (i lo hi top : ℕ) (log : List LogEntry) → hi ≤ top → Lined i lo hi log → Lined i lo top log
Lined-raise i lo hi top [] k h = omega arith
Lined-raise i lo hi top (entry ∷ rest) k h =
    (h.0, h.1, Lined-raise (suc i) entry.term hi top rest k h.2)

pub Lined-take :
    (n i lo hi : ℕ) (log : List LogEntry) → Lined i lo hi log → Lined i lo hi (take n log)
Lined-take zero i lo hi log h = Lined-le i lo hi log h
Lined-take (suc n) i lo hi [] h = h
Lined-take (suc n) i lo hi (entry ∷ rest) h =
    (h.0, h.1, Lined-take n (suc i) entry.term hi rest h.2)

pub Lined-push :
    (i lo hi : ℕ) (log : List LogEntry) (entry : LogEntry)
    → entry.index ≡ suc (i + length log)
    → hi ≤ entry.term
    → Lined i lo hi log
    → Lined i lo entry.term (log ++ entry ∷ [])
Lined-push i lo hi [] entry e t h = (omega (arith, e), omega arith, omega arith)
Lined-push i lo hi (first ∷ rest) entry e t h =
    (h.0, h.1, Lined-push (suc i) first.term hi rest entry (omega (arith, e)) t h.2)

pub record Sound (r : ReplicaState) : Type 0 where
  pub within : r.commit_index ≤ length r.log
  pub applied : r.last_applied ≡ r.commit_index
  pub lined : Lined 0 0 r.current_term r.log

-- A term that has been reached is not left for a lower one, a vote stands as long as its term does, and
-- committed entries stay. The replica after an action is sound again.
pub record Kept (r s : ReplicaState) : Type 0 where
  pub sound : Sound s
  pub id : s.id ≡ r.id
  pub term : r.current_term ≤ s.current_term
  pub vote : s.current_term ≡ r.current_term → (r.voted_for ≡ none) ⊎ (s.voted_for ≡ r.voted_for)
  pub commit : r.commit_index ≤ s.commit_index
  pub prefix : take r.commit_index s.log ≡ take r.commit_index r.log

pub Kept-refl : (r : ReplicaState) → Sound r → Kept r r
Kept-refl r h = record {
  sound = h;
  id = refl;
  term = omega arith;
  vote = λ _. inr refl;
  commit = omega arith;
  prefix = refl;
}

pub Kept-trans : (r s t : ReplicaState) → Kept r s → Kept s t → Kept r t
Kept-trans r s t h k = record {
  sound = k.sound;
  id = k.id ∙ h.id;
  term = omega (arith, h.term, k.term);
  vote = λ same.
      let first = h.vote (omega (arith, h.term, k.term)) in
      let second = k.vote (omega (arith, h.term, k.term)) in ground (arith, first, second);
  commit = omega (arith, h.commit, k.commit);
  prefix =
      sym (take-take r.commit_index s.commit_index t.log h.commit)
      ∙ ap (take r.commit_index) k.prefix
      ∙ take-take r.commit_index s.commit_index s.log h.commit
      ∙ h.prefix;
}

pub push-Kept :
    (r : ReplicaState) (command : Option ClientCommand) → Sound r → Kept r (push r command)
unfolding push
push-Kept r command h = record {
  sound = record {
    within = omega (arith, h.within, length-append {0} r.log (_ ∷ []));
    applied = h.applied;
    lined = Lined-push 0 0 r.current_term r.log _ (omega arith) (omega arith) h.lined;
  };
  id = refl;
  term = omega arith;
  vote = λ _. inr refl;
  commit = omega arith;
  prefix = take-append r.commit_index r.log _ h.within;
}

pub adopt_term-Kept : (r : ReplicaState) (t : ℕ) → Sound r → Kept r (adopt_term t r)
unfolding adopt_term
adopt_term-Kept r t h = elim (Bool-cases (ltb r.current_term t)) [
  | inr e ↦ rw e (Kept-refl r h)
  | inl e ↦ rw e (record {
    sound = record {
      within = h.within;
      applied = h.applied;
      lined = Lined-raise 0 0 r.current_term t r.log (ground (arith, e)) h.lined;
    };
    id = refl;
    term = ground (arith, e);
    vote = λ same. absurd (ground (arith, e, same));
    commit = omega arith;
    prefix = refl;
  })
]
