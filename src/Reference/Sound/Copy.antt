-- ===== src/Reference/Sound/Copy.antt =====
-- `replicate` of src/reference_model.cpp on one follower: where the logs diverge, and what the copy is.
use det_log.Prelude.{
  subst, ◌≡◌, ◌≢◌, ◌⊎◌, refl, sym, ◌∙◌, ap, inl, inr, ℕ, suc, ◌≤◌, true, none, some, List, arith,
  Bool-cases, ltb, leb, eqb, not, length, take, take-take, length-take,
}
use det_log.Model.{LogEntry}
use det_log.Reference.Interpret.{ReplicaState}
use det_log.Reference.Logs.{splice, copy_prefix, adopt_term}
use det_log.Reference.Sound.{Sound, Kept, Lined, Lined-take, Lined-raise}
use det_log.Reference.Sound.Divergence.{divergence-Copies, splice-eq, held, replaced}

-- What `replicate` does to a follower that it does not refuse: the follower then holds the leader's
-- prefix, and is a sound replica that keeps what it had committed.
pub record Copied (through term : ℕ) (source : List LogEntry) (before after : ReplicaState)
    : Type 0 where
  pub same : take through after.log ≡ take through source
  pub id : after.id ≡ before.id
  pub active_kept : after.active_leader ≡ before.active_leader
  pub term_kept : after.current_term ≡ before.current_term
  pub vote_kept : after.voted_for ≡ before.voted_for
  pub commit_kept : after.commit_index ≡ before.commit_index
  pub applied_kept : after.last_applied ≡ before.last_applied
  pub within : after.commit_index ≤ length after.log
  pub prefix : take before.commit_index after.log ≡ take before.commit_index before.log
  pub form : (after.log ≡ before.log) ⊎ (after.log ≡ take through source)
  pub keeps :
      (p : List LogEntry)
      → take (length p) before.log ≡ p
      → take (length p) source ≡ p
      → take (length p) after.log ≡ p
  pub lined : (before.current_term ≤ term) → Lined 0 0 term after.log

-- A prefix of both logs ends before they differ.
prefix-le :
    {through : ℕ} (k : ℕ) (p xs ys : List LogEntry)
    → take (length p) xs ≡ p
    → take (length p) ys ≡ p
    → take (suc k) xs ≢ take (suc k) ys
    → k ≤ through
    → length p ≤ through
prefix-le {through} k p xs ys a b next le = elim (Bool-cases (ltb k (length p))) [
  | inr short ↦ ground (arith, short)
  | inl long ↦
      let over : suc k ≤ length p = ground (arith, long) in
      let same : take (suc k) xs ≡ take (suc k) ys =
        sym (take-take (suc k) (length p) xs over)
        ∙ ap (take (suc k)) (a ∙ sym b)
        ∙ take-take (suc k) (length p) ys over in
      absurd (next same)
]

replaced-Copied :
    (k through : ℕ) (source follower : ReplicaState)
    → through ≤ length source.log
    → Sound source
    → k ≤ through
    → follower.commit_index ≤ k
    → take k follower.log ≡ take k source.log
    → take (suc k) follower.log ≢ take (suc k) source.log
    → Copied through source.current_term source.log follower
        (record follower { log = take through source.log })
replaced-Copied k through source follower h s le below same next =
    let c = follower.commit_index in
    record {
      same = take-take through through source.log (omega arith);
      id = refl;
      active_kept = refl;
      term_kept = refl;
      vote_kept = refl;
      commit_kept = refl;
      applied_kept = refl;
      within = omega (arith, length-take {0} through source.log);
      prefix =
          take-take c through source.log (omega arith)
          ∙ sym (take-take c k source.log below)
          ∙ ap (take c) (sym same)
          ∙ take-take c k follower.log below;
      form = inr refl;
      keeps = λ p a b.
          take-take (length p) through source.log
            (prefix-le k p follower.log source.log a b next le)
          ∙ b;
      lined = λ le'. Lined-take through 0 0 source.current_term source.log s.lined;
    }

pub copy_prefix-Copied :
    (through : ℕ) (source follower after : ReplicaState)
    → through ≤ length source.log
    → Sound source
    → Sound follower
    → copy_prefix through source follower ≡ some after
    → Copied through source.current_term source.log follower after
unfolding copy_prefix
copy_prefix-Copied through source follower after h s f e =
    elim (divergence-Copies through follower.log source.log h) [
      | held at same ↦
          let e' : some follower ≡ some after = rw at at e in
          let unchanged : follower ≡ after = cc in
          subst (Copied through source.current_term source.log follower) unchanged (record {
            same = same;
            id = refl;
            active_kept = refl;
            term_kept = refl;
            vote_kept = refl;
            commit_kept = refl;
            applied_kept = refl;
            within = f.within;
            prefix = refl;
            form = inl refl;
            keeps = λ p a b. a;
            lined = λ le.
                Lined-raise 0 0 follower.current_term source.current_term follower.log le f.lined;
          })
      | replaced k at le same next ↦
          let some_index : not (eqb (suc k) 0) ≡ true = ground arith in
          elim (Bool-cases (leb (suc k) follower.commit_index)) [
            | inl low ↦
                let none_left : none ≡ some after = rw (at, some_index, low) at e in absurd (cc)
            | inr high ↦
                let log = splice-eq k through follower.log source.log le same in
                let e' : some
                      (record follower { log = splice (suc k) through follower.log source.log })
                    ≡ some after =
                  rw (at, some_index, high) at e in
                let changed : record follower { log = take through source.log } ≡ after =
                  ap (λ l. record follower { log = l }) (sym log) ∙ cc in
                let below : follower.commit_index ≤ k = ground (arith, high) in
                subst (Copied through source.current_term source.log follower) changed
                  (replaced-Copied k through source follower h s le below same next)
          ]
    ]

pub Copied-Kept :
    (through : ℕ) (source before after : ReplicaState)
    → Sound before
    → before.current_term ≤ source.current_term
    → Copied through source.current_term source.log before after
    → Kept before (adopt_term source.current_term after)
unfolding adopt_term
Copied-Kept through source before after h le c =
    elim (Bool-cases (ltb after.current_term source.current_term)) [
      | inl e ↦ rw e (record {
        sound = record {
          within = c.within;
          applied = c.applied_kept ∙ h.applied ∙ sym c.commit_kept;
          lined = c.lined le;
        };
        id = c.id;
        term = le;
        vote = λ same. absurd (ground (arith, e, same, c.term_kept));
        commit = omega (arith, c.commit_kept);
        prefix = c.prefix;
      })
      | inr e ↦
          let same : source.current_term ≡ after.current_term =
            ground (arith, e, le, c.term_kept) in
          rw e (record {
            sound = record {
              within = c.within;
              applied = c.applied_kept ∙ h.applied ∙ sym c.commit_kept;
              lined = subst (λ t. Lined 0 0 t after.log) same (c.lined le);
            };
            id = c.id;
            term = omega (arith, c.term_kept);
            vote = λ _. inr c.vote_kept;
            commit = omega (arith, c.commit_kept);
            prefix = c.prefix;
          })
    ]
