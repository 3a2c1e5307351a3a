-- ===== src/Reference/Safety/Commits.antt =====
-- `commit` and `learn` of src/reference_model.cpp keep a cluster secure, where no acknowledger of a commit
-- has left the leader's term.
use det_log.Prelude.{
  ◌≡◌, refl, sym, ◌∙◌, ap, inl, inr, ℕ, ◌≤◌, ◌<◌, true, some, [], All, ◌||◌, not, arith, Bool-cases,
  Option-cases, ltb, length, take, take-take, length-take,
}
use det_log.Prelude.Key.{nat_key}
use det_log.Prelude.Map.{Map}
use det_log.Reference.Interpret.{ReplicaState}
use det_log.Reference.Actions.{CommitPrefix, Cluster, find, write}
use det_log.Reference.Elections.{leader, Checked, failed, passed, quorum_size}
use det_log.Reference.Commits.{
  equal_prefix, check_acknowledgers, commit_error, mark_ready, advance, finish_commit, commit,
}
use det_log.Reference.Counting.{count_if, has}
use det_log.Reference.Sound.Advance.{advance-Kept, advance-Unmoved, mark_ready-Kept, mark_ready-log}
use det_log.Reference.Valid.Ballot.{nobody}
use det_log.Reference.Safety.{History, Safe, Secure}
use det_log.Reference.Safety.Roles.{Secured, Secured-write, still-Change, Covered-Kept}
use det_log.Reference.Safety.Acknowledged.{check_acknowledgers-passed, InTerm, acknowledged-Safe}

commit-Change :
    (m : Cluster) (history : History) (x through : ℕ) (source : ReplicaState)
    → Secure m history
    → find x m ≡ some source
    → leader m source ≡ true
    → source.commit_index ≤ through
    → through ≤ length source.log
    → (source.commit_index < through → Safe m history (take through source.log) source.current_term)
    → Secured (write x (mark_ready through (advance through source)) m)
unfolding leader
commit-Change m history x through source h at l low high safe =
    let s = mark_ready through (advance through source) in
    let u = advance-Unmoved source through in
    let (log, commit, term, active, id) = mark_ready-log through (advance through source) in
    let k =
      mark_ready-Kept source (advance through source) through
        (advance-Kept source through (h.valid.all.sound x source at) low high) in
    let same_log : s.log ≡ source.log = log ∙ u.log in
    let moved : s.commit_index ≡ through = commit ∙ u.commit_index in
    Secured-write m history history x source s h (
      still-Change m history x source s h at k same_log (λ leads. (l, term ∙ u.current_term))
        (elim (Bool-cases (ltb source.commit_index through)) [
          | inr level ↦
              Covered-Kept m history source s k (moved ∙ ground (arith, level, low))
                (h.covered x source at)
          | inl more ↦ inr (
            take through source.log,
            source.current_term,
            safe (ground (arith, more)),
            omega (arith, moved, length-take {0} through source.log),
            ap (take s.commit_index) same_log
                ∙ sym (take-take s.commit_index through source.log (omega (arith, moved))),
          )
        ]))

finish_commit-Secured :
    (action : CommitPrefix) (m : Cluster) (history : History) (source : ReplicaState) (c : Checked)
    → Secure m history
    → find action.leader m ≡ some source
    → leader m source ≡ true
    → source.commit_index ≤ action.through
    → action.through ≤ length source.log
    → ((unique : Map ℕ (Unit {0}))
        → c ≡ passed unique
        → ((y : ℕ)
            → has unique y ≡ true
            → (r : ReplicaState) × (find y m ≡ some r)
              × (equal_prefix source r action.through ≡ true)
              × InTerm m source y)
          × (length unique ≤ count_if (has unique) m.members))
    → Secured (finish_commit action m source c).1
unfolding finish_commit commit_error
finish_commit-Secured action m history source (failed error) h at l low high acks = (history, h)
finish_commit-Secured action m history source (passed unique) h at l low high acks =
    elim (Option-cases (commit_error action m source unique)) [
      | inr (error, t) ↦ rw (t, finish_commit) (history, h)
      | inl t ↦
          let (holding, size) = acks unique refl in
          let quorum : quorum_size m ≤ length unique = ground (arith, t) in
          rw (t, finish_commit)
            (commit-Change m history action.leader action.through source h at l low high (λ more.
              acknowledged-Safe m history action.leader action.through source unique h at l high
                (omega (arith, more)) (ground (arith, t, more)) quorum size holding))
    ]

-- The discipline of a commit: the acknowledgers are still in the leader's term or below it.
abbrev pub Timely : Cluster → CommitPrefix → Type 0
Timely m action =
    (source : ReplicaState)
    → find action.leader m ≡ some source
    → All (InTerm m source) action.acknowledgers

pub commit-Secured :
    (action : CommitPrefix) (m : Cluster) (history : History)
    → Secure m history
    → Timely m action
    → Secured (commit action m).1
unfolding commit
commit-Secured action m history h timely = elim (Option-cases (find action.leader m)) [
  | inl e ↦ rw (e, commit) (history, h)
  | inr (source, e) ↦ elim (Bool-cases (not source.alive || not (leader m source))) [
    | inl t ↦ rw (e, t, commit) (history, h)
    | inr t ↦
        elim (Bool-cases
          (ltb action.through source.commit_index || ltb (length source.log) action.through)) [
            | inl u ↦ rw (e, t, u, commit) (history, h)
            | inr u ↦
                rw (e, t, u, commit)
                  (finish_commit-Secured action m history source
                    (check_acknowledgers source action.through m [] action.acknowledgers) h e
                    (ground (arith, t)) (ground (arith, u)) (ground (arith, u))
                    (λ unique passes.
                      check_acknowledgers-passed source action.through m (InTerm m source) [] unique
                        action.acknowledgers h.valid.members (timely source e)
                        (λ y t. absurd (nobody y t)) (omega arith) passes))
          ]
  ]
]
