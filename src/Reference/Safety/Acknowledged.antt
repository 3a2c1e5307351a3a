-- ===== src/Reference/Safety/Acknowledged.antt =====
-- Who acknowledges a `commit` of src/reference_model.cpp, and that what they hold stays chosen.
use det_log.Prelude.{
  ◌≡◌, refl, sym, ◌∙◌, ap₂, subst, inl, inr, ℕ, zero, suc, ◌-◌, ◌≤◌, ◌<◌, true, false, some, List,
  [], ◌∷◌, All, arith, Bool-cases, Option-cases, eqb, eqb_iff, length, take, get_elem?, length-take,
  get_elem?-take,
}
use det_log.Prelude.Key.{nat_key}
use det_log.Prelude.Map
use det_log.Prelude.Map.{Map}
use det_log.Model.{LogEntry, entry_beq_iff}
use det_log.Reference.Interpret.{ReplicaState}
use det_log.Reference.Actions.{Cluster, find}
use det_log.Reference.Elections.{leader, failed, passed, quorum_size}
use det_log.Reference.Commits.{
  equal_entries, equal_prefix, acknowledger_error, check_acknowledgers, current_at,
}
use det_log.Reference.Counting.{count_if, count_if-le, quorums_meet, has, has-put, size-put}
use det_log.Reference.Elected.{binds, AllMembers}
use det_log.Reference.Safety.{History, Extends, holds, Safe, Secure}
use det_log.Reference.Safety.Prefixes.{Lined-bounded, All-take, holds_iff, take-Extends}
use det_log.Reference.Safety.Logs.{leader-named}

pub equal_entries-take :
    (n : ℕ) (xs ys : List LogEntry) → equal_entries n xs ys ≡ true → take n xs ≡ take n ys
unfolding equal_entries
equal_entries-take zero xs ys h = refl
equal_entries-take (suc n) [] ys h = absurd (cc)
equal_entries-take (suc n) (x ∷ xs) [] h = absurd (cc)
equal_entries-take (suc n) (x ∷ xs) (y ∷ ys) h =
    let both : (x ≡ y) × (equal_entries n xs ys ≡ true) = ground (arith, entry_beq_iff x y, h) in
    ap₂ ◌∷◌ both.0 (equal_entries-take n xs ys both.1)

pub equal_prefix-take :
    (a b : ReplicaState) (n : ℕ)
    → equal_prefix a b n ≡ true
    → (n ≤ length a.log) × (n ≤ length b.log) × (take n a.log ≡ take n b.log)
unfolding equal_prefix
equal_prefix-take a b n h =
    (ground arith, ground arith, equal_entries-take n a.log b.log (ground (arith, h)))

-- The acknowledgers that pass hold the leader's prefix, and the set of them is no larger than their
-- number among the members. What all that are named fulfil, they fulfil.
pub check_acknowledgers-passed :
    (source : ReplicaState) (through : ℕ) (m : Cluster) (Q : ℕ → Type 0)
    (set found : Map ℕ (Unit {0})) (ids : List ℕ)
    → AllMembers m
    → All Q ids
    → ((x : ℕ)
        → has set x ≡ true
        → (r : ReplicaState) × (find x m ≡ some r) × (equal_prefix source r through ≡ true) × Q x)
    → length set ≤ count_if (has set) m.members
    → check_acknowledgers source through m set ids ≡ passed found
    → ((x : ℕ)
        → has found x ≡ true
        → (r : ReplicaState) × (find x m ≡ some r) × (equal_prefix source r through ≡ true) × Q x)
      × (length found ≤ count_if (has found) m.members)
unfolding check_acknowledgers acknowledger_error
check_acknowledgers-passed source through m Q set found [] members q h size e =
    let same : set ≡ found = cc in
    subst
      (λ s.
        ((x : ℕ)
          → has s x ≡ true
          → (r : ReplicaState) × (find x m ≡ some r) × (equal_prefix source r through ≡ true) × Q x)
        × (length s ≤ count_if (has s) m.members))
      same (h, size)
check_acknowledgers-passed source through m Q set found (x ∷ rest) members q h size e =
    elim (Option-cases (find x m)) [
      | inl unknown ↦
          let e' : failed "commit acknowledger is not a member" ≡ passed found =
            rw (unknown, check_acknowledgers, acknowledger_error) at e in
          absurd (cc)
      | inr (r, at) ↦ elim (Option-cases (acknowledger_error source through set x (some r))) [
        | inr (error, bad) ↦
            let e' : failed error ≡ passed found = rw (at, bad, check_acknowledgers) at e in
            absurd (cc)
        | inl good ↦
            let fresh : has set x ≡ false = ground (arith, good) in
            let equal : equal_prefix source r through ≡ true = ground (arith, good) in
            let e' = rw (at, good, check_acknowledgers) at e in
            check_acknowledgers-passed source through m Q (Map.put x tt set) found rest members q.1
              (λ y t. elim (Bool-cases (eqb x y)) [
                | inl same ↦
                    subst
                      (λ z.
                        (s : ReplicaState) × (find z m ≡ some s)
                        × (equal_prefix source s through ≡ true)
                        × Q z)
                      ((eqb_iff x y).0 same) (r, at, equal, q.0)
                | inr other ↦ h y (ground (arith, has-put x y set, t, other))
              ])
              (size-put x set m.members fresh (members x r at) size) e'
      ]
    ]

-- The term of a replica that a later leader is bound by.
pub bound_above : (v c : ℕ) (r : ReplicaState) → binds v c (some r) ≡ true → v ≤ r.current_term
unfolding binds
bound_above v c r h = ground arith

abbrev pub InTerm : Cluster → ReplicaState → ℕ → Type 0
InTerm m source x = (r : ReplicaState) → find x m ≡ some r → r.current_term ≤ source.current_term

-- The leader's prefix is safe once a quorum of its term acknowledges it.
pub acknowledged-Safe :
    (m : Cluster) (history : History) (x through : ℕ) (source : ReplicaState)
    (unique : Map ℕ (Unit {0}))
    → Secure m history
    → find x m ≡ some source
    → leader m source ≡ true
    → through ≤ length source.log
    → 0 < through
    → current_at source through ≡ true
    → quorum_size m ≤ length unique
    → length unique ≤ count_if (has unique) m.members
    → ((y : ℕ)
        → has unique y ≡ true
        → (r : ReplicaState) × (find y m ≡ some r)
          × (equal_prefix source r through ≡ true)
          × InTerm m source y)
    → Safe m history (take through source.log) source.current_term
unfolding quorum_size current_at
acknowledged-Safe m history x through source unique h at l long some_entry current quorum size
      acks =
    let p = take through source.log in
    let count : length p ≡ through = omega (arith, length-take {0} through source.log) in
    let sound = h.valid.all.sound x source at in
    let holding =
      count_if-le (has unique) (λ y. holds p (find y m)) m.members
        (λ y t.
          let (r, found, equal, _) = acks y t in
          let (_, _, same) = equal_prefix-take source r through equal in
          rw found (
            (holds_iff p r).1
              (subst (λ k. take k r.log ≡ take through source.log) (sym count) (sym same)))) in
    record {
      chosen = omega (arith, quorum, size, holding);
      led = (source.id, leader-named m source l);
      own = subst (Extends p) (sym (h.active x source at l)) (take-Extends through source.log long);
      later = λ v c above led.
          let (y, acked, bound) =
            quorums_meet (has unique) (λ z. binds v c (find z m)) m.members
              (omega (arith, quorum, size, h.valid.elected v c led)) in
          let (r, found, _, in_term) = acks y acked in
          let bound' : binds v c (some r) ≡ true = rw found at bound in
          absurd (omega (arith, bound_above v c r bound', in_term r found));
      bounded =
          All-take (λ (e : LogEntry). e.term ≤ source.current_term) through source.log
            (Lined-bounded 0 0 source.current_term source.log sound.lined);
      reached = elim (Option-cases (get_elem? source.log (through - 1))) [
        | inl e ↦ absurd (ground (arith, e, current))
        | inr (entry, e) ↦ (
          through - 1,
          entry,
          get_elem?-take (through - 1) through source.log (omega arith) ∙ e,
          ground (arith, e, current),
        )
      ];
    }
