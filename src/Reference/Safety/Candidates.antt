-- ===== src/Reference/Safety/Candidates.antt =====
-- Why a candidate that wins an election of src/reference_model.cpp has every safe prefix.
use det_log.Prelude.{
  ◌≡◌, refl, sym, ◌∙◌, ap, subst, ◌⊎◌, inl, inr, ℕ, zero, suc, ◌≤◌, ◌<◌, true, some, List, [], ◌∷◌,
  All, arith, Bool-cases, Option-cases, ltb, eqb, eqb_iff, length, take, get_elem?, get_elem?-lt,
  get_elem?-take,
}
use det_log.Prelude.Key.{nat_key}
use det_log.Prelude.Map
use det_log.Prelude.Map.{Map}
use det_log.Model.{LogEntry}
use det_log.Reference.Interpret.{ReplicaState}
use det_log.Reference.Actions.{Elect, Cluster, find}
use det_log.Reference.Elections.{
  last_entry_term, last_term, candidate_is_up_to_date, voter_error, failed, passed, check_voters,
  quorum_size,
}
use det_log.Reference.Sound.{Lined}
use det_log.Reference.Counting.{count_if, quorums_meet, has, has-put}
use det_log.Reference.Safety.{History, Extends, Within, holds, Safe, Secure}
use det_log.Reference.Safety.Prefixes.{
  Extends-le, Extends-across, holds_iff, All-get, get_elem?-Extends,
}

last_entry_term-le :
    (i lo hi : ℕ) (log : List LogEntry) → Lined i lo hi log → lo ≤ last_entry_term lo log
unfolding last_entry_term
last_entry_term-le i lo hi [] h = omega arith
last_entry_term-le i lo hi (x ∷ rest) h =
    omega (arith, last_entry_term-le (suc i) x.term hi rest h.2, h.1)

-- In a log of ascending terms the last one is the highest.
last_entry_term-ge :
    (i lo hi k : ℕ) (log : List LogEntry) (e : LogEntry)
    → Lined i lo hi log
    → get_elem? log k ≡ some e
    → e.term ≤ last_entry_term lo log
unfolding last_entry_term
last_entry_term-ge i lo hi k [] e h at = absurd (cc)
last_entry_term-ge i lo hi zero (x ∷ rest) e h at =
    let same : x ≡ e = cc in
    subst (λ z. z.term ≤ last_entry_term x.term rest) same
      (last_entry_term-le (suc i) x.term hi rest h.2)
last_entry_term-ge i lo hi (suc k) (x ∷ rest) e h at =
    last_entry_term-ge (suc i) x.term hi k rest e h.2 at

-- The entry that last_term reads.
last_entry :
    (term : ℕ) (x : LogEntry) (rest : List LogEntry)
    → (e : LogEntry) × (get_elem? (x ∷ rest) (length rest) ≡ some e)
      × (e.term ≡ last_entry_term term (x ∷ rest))
unfolding last_entry_term
last_entry term x [] = (x, refl, refl)
last_entry term x (y ∷ rest) = last_entry x.term y rest

-- Every voter that passes finds the candidate's log up to date.
pub check_voters-up_to_date :
    (candidate : ReplicaState) (action : Elect) (m : Cluster) (set found : Map ℕ (Unit {0}))
    (voters : List ℕ)
    → ((x : ℕ)
        → has set x ≡ true
        → (r : ReplicaState) × (find x m ≡ some r) × (candidate_is_up_to_date candidate r ≡ true))
    → check_voters candidate action m set voters ≡ passed found
    → (x : ℕ) → has found x ≡ true
    → (r : ReplicaState) × (find x m ≡ some r) × (candidate_is_up_to_date candidate r ≡ true)
unfolding check_voters voter_error
check_voters-up_to_date candidate action m set found [] h e x t =
    let same : set ≡ found = cc in h x (subst (λ s. has s x ≡ true) (sym same) t)
check_voters-up_to_date candidate action m set found (y ∷ rest) h e x t =
    elim (Option-cases (find y m)) [
      | inl unknown ↦
          let e' : failed "election voter is not a member" ≡ passed found =
            rw (unknown, check_voters, voter_error) at e in
          absurd (cc)
      | inr (r, at) ↦ elim (Option-cases (voter_error candidate action set y (some r))) [
        | inr (error, bad) ↦
            let e' : failed error ≡ passed found = rw (at, bad, check_voters) at e in absurd (cc)
        | inl good ↦
            let up : candidate_is_up_to_date candidate r ≡ true = ground (arith, good) in
            let e' = rw (at, good, check_voters) at e in
            check_voters-up_to_date candidate action m (Map.put y tt set) found rest
              (λ z seen. elim (Bool-cases (eqb y z)) [
                | inl same ↦
                    subst
                      (λ w.
                        (s : ReplicaState) × (find w m ≡ some s)
                        × (candidate_is_up_to_date candidate s ≡ true))
                      ((eqb_iff y z).0 same) (r, at, up)
                | inr other ↦ h z (ground (arith, has-put y z set, seen, other))
              ])
              e' x t
      ]
    ]

-- What up to date means for a prefix that the voter holds.
newest :
    (candidate voter : ReplicaState) (prefix : List LogEntry) (term : ℕ)
    → candidate_is_up_to_date candidate voter ≡ true
    → length prefix ≤ length voter.log
    → term ≤ last_term voter
    → (term < last_term candidate)
      ⊎ ((term ≡ last_term candidate) × (length prefix ≤ length candidate.log))
unfolding candidate_is_up_to_date
newest candidate voter prefix term up long le =
    elim (Bool-cases (eqb (last_term candidate) (last_term voter))) [
      | inr apart ↦ inl (ground (arith, apart, up, le))
      | inl same ↦ elim (Bool-cases (ltb term (last_term candidate))) [
        | inl above ↦ inl (ground (arith, above))
        | inr level ↦ inr (ground (arith, same, level, le), ground (arith, same, up, long))
      ]
    ]

nothing_above : (term : ℕ) → term < last_entry_term 0 [] → ⊥
unfolding last_entry_term
nothing_above term h = omega arith

-- An entry above the prefix's terms cannot stand within the prefix.
too_new :
    (prefix log other : List LogEntry) (term k : ℕ) (e : LogEntry)
    → All (λ (z : LogEntry). z.term ≤ term) prefix
    → get_elem? log k ≡ some e
    → take (suc k) log ≡ take (suc k) other
    → Extends prefix other
    → k < length prefix
    → term < e.term
    → ⊥
too_new prefix log other term k e bounded at same extends below above =
    let in_other : get_elem? other k ≡ some e =
      sym (get_elem?-take k (suc k) other (omega arith))
      ∙ ap (λ l. get_elem? l k) (sym same)
      ∙ get_elem?-take k (suc k) log (omega arith)
      ∙ at in
    let in_prefix : get_elem? prefix k ≡ some e =
      ap (λ l. get_elem? l k) (sym extends)
      ∙ get_elem?-take k (length prefix) other below
      ∙ in_other in
    omega (arith, All-get (λ (z : LogEntry). z.term ≤ term) k prefix e bounded in_prefix, above)

-- A candidate whose last entry is as new as the prefix, by the rule above, holds it.
newest-Extends :
    (m : Cluster) (history : History) (prefix : List LogEntry) (term : ℕ) (log : List LogEntry)
    → Safe m history prefix term
    → Within history m.leaders log
    → (term < last_entry_term 0 log)
      ⊎ ((term ≡ last_entry_term 0 log) × (length prefix ≤ length log))
    → Extends prefix log
newest-Extends m history prefix term [] s w (inl above) = absurd (nothing_above term above)
newest-Extends m history prefix term [] s w (inr (level, short)) =
    let (i, e, at, _) = s.reached in absurd (omega (arith, get_elem?-lt {0} i prefix at, short))
newest-Extends m history prefix term (x ∷ rest) s w newer =
    let (e, at, last) = last_entry 0 x rest in
    let log = x ∷ rest in
    let ((c, led), same) = w (length rest) e at in
    elim newer [
      | inr (level, short) ↦
          let own : Extends prefix (history e.term) =
            subst (λ t. Extends prefix (history t)) (level ∙ sym last) s.own in
          Extends-across (suc (length rest)) prefix (history e.term) log short (sym same) own
      | inl above ↦
          let over : term < e.term = omega (arith, above, last) in
          let later = s.later e.term c over led in
          elim (Bool-cases (ltb (length rest) (length prefix))) [
            | inr short ↦
                Extends-across (suc (length rest)) prefix (history e.term) log
                  (ground (arith, short)) (sym same) later
            | inl long ↦ absurd (
                too_new prefix log (history e.term) term (length rest) e s.bounded at same later
                  (ground (arith, long)) over)
          ]
    ]

-- The candidate of an election that a quorum of up-to-date voters lets through.
pub winner-Extends :
    (m : Cluster) (history : History) (prefix : List LogEntry) (term : ℕ) (candidate : ReplicaState)
    (unique : Map ℕ (Unit {0})) (x : ℕ)
    → Secure m history
    → Safe m history prefix term
    → find x m ≡ some candidate
    → ((y : ℕ)
        → has unique y ≡ true
        → (r : ReplicaState) × (find y m ≡ some r) × (candidate_is_up_to_date candidate r ≡ true))
    → quorum_size m ≤ length unique
    → length unique ≤ count_if (has unique) m.members
    → Extends prefix candidate.log
unfolding quorum_size last_term
winner-Extends m history prefix term candidate unique x h s at up quorum size =
    let (y, voted, held) =
      quorums_meet (has unique) (λ z. holds prefix (find z m)) m.members
        (omega (arith, quorum, size, s.chosen)) in
    let (r, found, current) = up y voted in
    let held' : holds prefix (some r) ≡ true = rw found at held in
    let extends = (holds_iff prefix r).0 held' in
    let (i, e, in_prefix, same) = s.reached in
    let in_log = get_elem?-Extends prefix r.log i e extends in_prefix in
    let sound = h.valid.all.sound y r found in
    let reach = last_entry_term-ge 0 0 r.current_term i r.log e sound.lined in_log in
    newest-Extends m history prefix term candidate.log s (h.within x candidate at) (
      newest candidate r prefix term current (Extends-le prefix r.log extends)
        (omega (arith, reach, same)))
