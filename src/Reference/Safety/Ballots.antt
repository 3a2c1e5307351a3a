-- ===== src/Reference/Safety/Ballots.antt =====
-- `elect` of src/reference_model.cpp keeps a cluster secure.
use det_log.Prelude.{
  ◌≡◌, refl, sym, ◌∙◌, ap, subst, inl, inr, ℕ, ◌≤◌, true, false, none, some, List, [], arith,
  Bool-cases, Option-cases, eqb, eqb_iff, if◌then◌else◌, length, take, some-injective,
}
use det_log.Prelude.Key.{nat_key}
use det_log.Prelude.Map
use det_log.Prelude.Map.{Map}
use det_log.Model.{LogEntry}
use det_log.Reference.Interpret.{ReplicaState}
use det_log.Reference.Actions.{Elect, Cluster, find}
use det_log.Reference.Elections.{
  leader, candidate_is_up_to_date, Checked, failed, passed, check_voters, vote_each, install_leader,
  quorum_size, election_error, finish_election, candidate_error, elect,
}
use det_log.Reference.Counting.{count_if, has}
use det_log.Reference.Moves.{Moves, Moves-after}
use det_log.Reference.Elected.{Eligible, check_voters-passed, vote_each-Voted}
use det_log.Reference.Valid.{Valid, quorum_agrees}
use det_log.Reference.Valid.Ballot.{All-has, elected-Valid, nobody}
use det_log.Reference.Safety.{History, Extends, Within, holds, Safe, Secure, Grows}
use det_log.Reference.Safety.Prefixes.{Extends-self, Within-grow, holds_iff}
use det_log.Reference.Safety.Write.{Safe-carry}
use det_log.Reference.Safety.Roles.{Secured}
use det_log.Reference.Safety.Logs.{extended, leader-named}
use det_log.Reference.Safety.Candidates.{check_voters-up_to_date, winner-Extends}
use det_log.Reference.Safety.Sworn.{vote_each-Sworn, Elected, unheld, install_leader-Elected}

module _ (action : Elect) (m n : Cluster) (history : History) (candidate : ReplicaState)
    (h : Secure m history) (at : find action.candidate m ≡ some candidate)
    (fresh : Map.find action.term m.leaders ≡ none) (moves : Moves m n) (e : Elected action m n)
    (wins : (prefix : List LogEntry) (term : ℕ)
      → Safe m history prefix term
      → Extends prefix candidate.log) where
  abbrev after : History
  after = extended action.term candidate.log history

  leaders_after :
      (t : ℕ)
      → Map.find t n.leaders
        ≡ (if eqb action.term t then some action.candidate else Map.find t m.leaders)
  leaders_after t =
      ap (Map.find t) e.leaders ∙ Map.find-put action.term t action.candidate m.leaders

  apart : (t c : ℕ) → Map.find t m.leaders ≡ some c → eqb action.term t ≡ false
  apart t c led = elim (Bool-cases (eqb action.term t)) [
    | inr other ↦ other
    | inl same ↦
        let led' : Map.find action.term m.leaders ≡ some c =
          subst (λ z. Map.find z m.leaders ≡ some c) (sym ((eqb_iff action.term t).0 same)) led in
        absurd (cc)
  ]

  elect-Grows : Grows m.leaders n.leaders history after
  elect-Grows = record {
    leaders = λ t c led. leaders_after t ∙ rw (apart t c led) led;
    logs = λ t c led. rw (apart t c led) (Extends-self (history t));
  }

  elect-Safe :
      (prefix : List LogEntry) (term : ℕ) → Safe m history prefix term → Safe n after prefix term
  elect-Safe prefix term s =
      Safe-carry m n history after prefix term s moves.members elect-Grows
        (λ x held. elim (Option-cases (find x m)) [
          | inl unknown ↦ absurd (unheld prefix x m unknown held)
          | inr (r, found) ↦
              let (t, there, _) = Moves-after m n x r moves found in
              let (r', found', sworn) = e.sworn x t there in
              let one : r' ≡ r = some-injective _ _ (sym found' ∙ found) in
              let held' : holds prefix (some r) ≡ true = rw found at held in
              rw there (
                (holds_iff prefix t).1 (
                  ap (take (length prefix)) (sworn.log ∙ ap (λ z. z.log) one)
                  ∙ (holds_iff prefix r).0 held'))
        ])
        (λ u c above led. elim (Bool-cases (eqb action.term u)) [
          | inl same ↦ rw same (wins prefix term s)
          | inr other ↦
              let led' : Map.find u m.leaders ≡ some c =
                rw other at (sym (leaders_after u) ∙ led) in
              rw other (s.later u c above led')
        ])

  elect-active :
      (y : ℕ) (s : ReplicaState)
      → find y n ≡ some s
      → y ≡ s.id
      → leader n s ≡ true
      → after s.current_term ≡ s.log
  unfolding leader
  elect-active y s found named leads =
      let led = leader-named n s leads in
      let (r, before, sworn) = e.sworn y s found in
      elim (Bool-cases (eqb action.term s.current_term)) [
        | inl same ↦
            let mine : some action.candidate ≡ some s.id =
              rw same at (sym (leaders_after s.current_term) ∙ led) in
            let me : action.candidate ≡ y = some-injective _ _ mine ∙ sym named in
            let here : find y m ≡ some candidate = subst (λ z. find z m ≡ some candidate) me at in
            let one : candidate ≡ r = some-injective _ _ (sym here ∙ before) in
            rw same (ap (λ z. z.log) one ∙ sym sworn.log)
        | inr other ↦ elim sworn.term [
          | inr reached ↦ absurd (ground (arith, reached, other))
          | inl as_was ↦
              let led' : Map.find s.current_term m.leaders ≡ Map.find s.current_term n.leaders =
                sym (leaders_after s.current_term ∙ rw other refl) in
              let led_before : leader m s ≡ true = rw led' leads in
              let was : leader m r ≡ true = subst (λ z. leader m z ≡ true) as_was led_before in
              rw other
                (ap (λ z. history z.current_term) as_was ∙ h.active y r before was ∙ sym sworn.log)
        ]
      ]

  elect-Secure : Valid n → Secure n after
  elect-Secure v = record {
    valid = v;
    within = λ y s found.
        let (r, before, sworn) = e.sworn y s found in
        subst (Within after n.leaders) (sym sworn.log)
          (Within-grow m.leaders n.leaders history after r.log elect-Grows (h.within y r before));
    active = λ y s found leads. elect-active y s found (sym (v.all.named y s found)) leads;
    reached = λ t c led. elim (Bool-cases (eqb action.term t)) [
      | inl same ↦
          let mine : some action.candidate ≡ some c = rw same at (sym (leaders_after t) ∙ led) in
          let me : action.candidate ≡ c = some-injective _ _ mine in
          let (r, there, term) = e.head in
          (r, subst (λ z. find z n ≡ some r) me there, ground (arith, term, same))
      | inr other ↦
          let led' : Map.find t m.leaders ≡ some c = rw other at (sym (leaders_after t) ∙ led) in
          let (r, before, le) = h.reached t c led' in
          let (s, there, k) = Moves-after m n c r moves before in
          (s, there, omega (arith, le, k.term))
    ];
    covered = λ y s found.
        let (r, before, sworn) = e.sworn y s found in
        elim (h.covered y r before) [
          | inl none_yet ↦ inl (sworn.commit ∙ none_yet)
          | inr (prefix, term, safe, le, same) ↦ inr (
            prefix,
            term,
            elect-Safe prefix term safe,
            omega (arith, le, sworn.commit),
            ap (take s.commit_index) sworn.log
                ∙ subst (λ k. take k r.log ≡ take k prefix) (sym sworn.commit) same,
          )
        ];
  }

-- Nobody has led in the term of an election that passes.
no_leader_yet :
    (m : Cluster) (history : History) (action : Elect) (candidate : ReplicaState)
    (unique : Map ℕ (Unit {0}))
    → Secure m history
    → find action.candidate m ≡ some candidate
    → candidate_error action candidate ≡ none
    → ((x : ℕ) → has unique x ≡ true → Eligible action m x)
    → length unique ≤ count_if (has unique) m.members
    → quorum_size m ≤ length unique
    → Map.find action.term m.leaders ≡ none
unfolding candidate_error
no_leader_yet m history action candidate unique h at good eligible size quorum =
    elim (Option-cases (Map.find action.term m.leaders)) [
      | inl e ↦ e
      | inr (other, e) ↦
          let mine = quorum_agrees m action unique other h.valid eligible size quorum e in
          let (r, found, le) = h.reached action.term other e in
          let here : find action.candidate m ≡ some r = subst (λ z. find z m ≡ some r) mine found in
          let one : r ≡ candidate = some-injective _ _ (sym here ∙ at) in
          let le' : action.term ≤ candidate.current_term =
            subst (λ z. action.term ≤ z.current_term) one le in
          absurd (ground (arith, le', good))
    ]

finish_election-Secured :
    (m : Cluster) (history : History) (action : Elect) (candidate : ReplicaState) (c : Checked)
    → Secure m history
    → find action.candidate m ≡ some candidate
    → candidate_error action candidate ≡ none
    → ((unique : Map ℕ (Unit {0}))
        → c ≡ passed unique
        → ((x : ℕ) → has unique x ≡ true → Eligible action m x)
          × (length unique ≤ count_if (has unique) m.members)
          × ((x : ℕ)
              → has unique x ≡ true
              → (r : ReplicaState) × (find x m ≡ some r)
                × (candidate_is_up_to_date candidate r ≡ true)))
    → Secured (finish_election action m c).1
unfolding finish_election election_error
finish_election-Secured m history action candidate (failed error) h at good passes = (history, h)
finish_election-Secured m history action candidate (passed unique) h at good passes =
    elim (Option-cases (election_error action m unique)) [
      | inr (error, e) ↦ rw (e, finish_election) (history, h)
      | inl e ↦
          let (eligible, size, up) = passes unique refl in
          let self : has unique action.candidate ≡ true = ground (arith, e) in
          let quorum : quorum_size m ≤ length unique = ground (arith, e) in
          let fresh =
            no_leader_yet m history action candidate unique h at good eligible size quorum in
          let all = All-has (Eligible action m) unique eligible in
          let between = vote_each action unique m in
          let (moves, valid) = elected-Valid m action unique h.valid eligible size self quorum in
          let elected =
            install_leader-Elected action m between unique self
              (vote_each-Sworn action unique m all)
              (vote_each-Voted action unique m h.valid.all all) in
          rw (e, finish_election)
            (
              extended action.term candidate.log history,
              elect-Secure action m (install_leader action between) history candidate h at fresh
                  moves elected
                  (λ prefix term safe.
                    winner-Extends m history prefix term candidate unique action.candidate h safe at
                      up quorum size)
                  valid,
            )
    ]

pub elect-Secured :
    (action : Elect) (m : Cluster) (history : History)
    → Secure m history
    → Secured (elect action m).1
unfolding elect
elect-Secured action m history h = elim (Option-cases (find action.candidate m)) [
  | inl e ↦ rw (e, elect) (history, h)
  | inr (candidate, e) ↦ elim (Option-cases (candidate_error action candidate)) [
    | inr (error, f) ↦ rw (e, f, elect) (history, h)
    | inl f ↦
        rw (e, f, elect)
          (finish_election-Secured m history action candidate
            (check_voters candidate action m [] action.voters) h e f
            (λ unique passes.
              let (eligible, size) =
                check_voters-passed action candidate m [] unique action.voters h.valid.members
                  (λ x t. absurd (nobody x t)) (omega arith) passes in
              (
                eligible,
                size,
                check_voters-up_to_date candidate action m [] unique action.voters
                    (λ x t. absurd (nobody x t)) passes,
              )))
  ]
]
