-- ===== src/Reference/Safety/Write.antt =====
-- A change of one replica that keeps a cluster of src/reference_model.cpp secure.
use det_log.Prelude.{
  ◌≡◌, ◌≢◌, refl, sym, ◌∙◌, ap, subst, ◌⊎◌, inl, inr, ℕ, ◌+◌, ◌/◌, ◌≤◌, ◌<◌, true, some, List,
  arith, Bool-cases, eqb, eqb_iff, length,
}
use det_log.Prelude.Key.{nat_key}
use det_log.Prelude.Map
use det_log.Model.{LogEntry}
use det_log.Reference.Interpret.{ReplicaState}
use det_log.Reference.Actions.{Cluster, find, write}
use det_log.Reference.Elections.{leader, quorum_size}
use det_log.Reference.Counting.{count_if, count_if-le}
use det_log.Reference.Sound.{Kept}
use det_log.Reference.Moves.{find-write}
use det_log.Reference.Valid.{Valid}
use det_log.Reference.Safety.{History, Extends, Within, holds, Safe, Covered, Secure, Grows}
use det_log.Reference.Safety.Prefixes.{Extends-trans, holds_iff, Within-grow}

pub Safe-carry :
    (m n : Cluster) (history after : History) (prefix : List LogEntry) (term : ℕ)
    → Safe m history prefix term
    → n.members ≡ m.members
    → Grows m.leaders n.leaders history after
    → ((x : ℕ) → holds prefix (find x m) ≡ true → holds prefix (find x n) ≡ true)
    → ((u c : ℕ) → term < u → Map.find u n.leaders ≡ some c → Extends prefix (after u))
    → Safe n after prefix term
unfolding quorum_size
Safe-carry m n history after prefix term s members g hold later =
    let (c, led) = s.led in
    let more =
      count_if-le (λ x. holds prefix (find x m)) (λ x. holds prefix (find x n)) m.members hold in
    record {
      chosen =
          subst (λ l. length l / 2 + 1 ≤ count_if (λ x. holds prefix (find x n)) l) (sym members)
            (omega (arith, s.chosen, more));
      led = (c, g.leaders term c led);
      own = Extends-trans prefix (history term) (after term) s.own (g.logs term c led);
      later = later;
      bounded = s.bounded;
      reached = s.reached;
    }

pub record Change (m : Cluster) (history after : History) (x : ℕ) (r s : ReplicaState)
    : Type 0 where
  pub at : find x m ≡ some r
  pub kept : Kept r s
  pub grows : Grows m.leaders m.leaders history after
  pub within : Within after m.leaders s.log
  pub active : leader m s ≡ true → after s.current_term ≡ s.log
  pub others :
      (y : ℕ) (q : ReplicaState)
      → find y m ≡ some q
      → y ≢ x
      → leader m q ≡ true
      → after q.current_term ≡ history q.current_term
  pub keeps :
      (prefix : List LogEntry) (term : ℕ)
      → Safe m history prefix term
      → Extends prefix r.log
      → Extends prefix s.log
  pub covered : Covered m history s

module _ (m : Cluster) (history after : History) (x : ℕ) (r s : ReplicaState) where
  holds-write :
      Change m history after x r s
      → (prefix : List LogEntry) (term : ℕ) → Safe m history prefix term
      → (y : ℕ) → holds prefix (find y m) ≡ true
      → holds prefix (find y (write x s m)) ≡ true
  holds-write c prefix term safe y h = elim (Bool-cases (eqb x y)) [
    | inr other ↦ rw (find-write x s m y, other) h
    | inl same ↦
        let at : find y m ≡ some r = subst (λ z. find z m ≡ some r) ((eqb_iff x y).0 same) c.at in
        let h' : holds prefix (some r) ≡ true = rw at at h in
        rw (find-write x s m y, same)
          ((holds_iff prefix s).1 (c.keeps prefix term safe ((holds_iff prefix r).0 h')))
  ]

  Safe-write :
      Change m history after x r s
      → (prefix : List LogEntry) (term : ℕ) → Safe m history prefix term
      → Safe (write x s m) after prefix term
  unfolding write
  Safe-write c prefix term safe =
      Safe-carry m (write x s m) history after prefix term safe refl c.grows
        (holds-write c prefix term safe)
        (λ u l above led.
          Extends-trans prefix (history u) (after u) (safe.later u l above led)
            (c.grows.logs u l led))

  Covered-write :
      Change m history after x r s
      → (q : ReplicaState) → Covered m history q
      → Covered (write x s m) after q
  Covered-write c q (inl none_yet) = inl none_yet
  Covered-write c q (inr (prefix, term, safe, le, same)) =
      inr (prefix, term, Safe-write c prefix term safe, le, same)

  -- What is found after the write.
  found :
      (y : ℕ) (q : ReplicaState)
      → find y (write x s m) ≡ some q
      → ((x ≡ y) × (s ≡ q)) ⊎ ((y ≢ x) × (find y m ≡ some q))
  found y q at = elim (Bool-cases (eqb x y)) [
    | inl same ↦
        let e : some s ≡ some q = rw (find-write x s m y, same) at at in
        inl ((eqb_iff x y).0 same, cc)
    | inr other ↦
        inr ((λ e. absurd (ground (arith, e, other))), rw (find-write x s m y, other) at at)
  ]

  pub write-Secure :
      Secure m history
      → Valid (write x s m)
      → Change m history after x r s
      → Secure (write x s m) after
  unfolding write leader
  write-Secure h v c = record {
    valid = v;
    within = λ y q at. elim (found y q at) [
      | inl (_, same) ↦ subst (λ z. Within after m.leaders z.log) same c.within
      | inr (_, before) ↦
          Within-grow m.leaders m.leaders history after q.log c.grows (h.within y q before)
    ];
    active = λ y q at leads. elim (found y q at) [
      | inl (_, same) ↦
          subst (λ z. leader m z ≡ true → after z.current_term ≡ z.log) same c.active leads
      | inr (other, before) ↦ c.others y q before other leads ∙ h.active y q before leads
    ];
    reached = λ term l led.
        let (q, at, le) = h.reached term l led in
        elim (Bool-cases (eqb x l)) [
          | inr other ↦ (q, rw (find-write x s m l, other) at, le)
          | inl same ↦
              let here : find l m ≡ some r =
                subst (λ z. find z m ≡ some r) ((eqb_iff x l).0 same) c.at in
              let both : some q ≡ some r = sym at ∙ here in
              let one : q ≡ r = cc in
              (
                s,
                rw (find-write x s m l, same) refl,
                omega (arith, le, ap (λ z. z.current_term) one, c.kept.term),
              )
        ];
    covered = λ y q at. elim (found y q at) [
      | inl (_, same) ↦ subst (Covered (write x s m) after) same (Covered-write c s c.covered)
      | inr (_, before) ↦ Covered-write c q (h.covered y q before)
    ];
  }
