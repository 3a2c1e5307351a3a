-- ===== src/Reference/Safety/Copies.antt =====
-- `replicate` of src/reference_model.cpp keeps a cluster secure.
use det_log.Prelude.{
  ◌≡◌, refl, sym, ◌∙◌, ap, subst, inl, inr, ℕ, ◌≤◌, ◌<◌, true, false, some, List, ◌||◌, not, arith,
  Bool-cases, Option-cases, ltb, eqb, eqb_iff, length, take,
}
use det_log.Prelude.Key.{nat_key}
use det_log.Model.{LogEntry}
use det_log.Reference.Interpret.{ReplicaState}
use det_log.Reference.Actions.{ReplicatePrefix, Cluster, find}
use det_log.Reference.Elections.{leader}
use det_log.Reference.Logs.{copy_prefix, adopt_term, replicate_between, replicate}
use det_log.Reference.Sound.{Sound}
use det_log.Reference.Sound.Copy.{Copied, copy_prefix-Copied, Copied-Kept}
use det_log.Reference.Safety.{History, Extends, Within, Safe, Secure}
use det_log.Reference.Safety.Prefixes.{Within-take, Lined-bounded, All-get, get_elem?-Extends}
use det_log.Reference.Safety.Write.{Change}
use det_log.Reference.Safety.Roles.{Secured, Secured-write, Grows-refl, Covered-Kept}
use det_log.Reference.Safety.Logs.{leader-named, one_leader}

pub adopt_term-log :
    (t : ℕ) (r : ReplicaState)
    → ((adopt_term t r).log ≡ r.log) × ((adopt_term t r).commit_index ≡ r.commit_index)
unfolding adopt_term
adopt_term-log t r = ground arith

-- Who leads behind a term that it was told had reached the term before.
pub adopt_term-leads :
    (m : Cluster) (t : ℕ) (r : ReplicaState)
    → leader m (adopt_term t r) ≡ true
    → (adopt_term t r ≡ r) × (t ≤ r.current_term)
unfolding adopt_term leader
adopt_term-leads m t r l = elim (Bool-cases (ltb r.current_term t)) [
  | inl e ↦ let idle : false ≡ true = rw (e, adopt_term, leader) at l in absurd (cc)
  | inr e ↦ (rw e refl, ground (arith, e))
]

-- A replica that holds a safe prefix has reached its term.
pub Safe-term :
    (m : Cluster) (history : History) (prefix : List LogEntry) (term : ℕ) (r : ReplicaState)
    → Safe m history prefix term
    → Sound r
    → Extends prefix r.log
    → term ≤ r.current_term
Safe-term m history prefix term r safe sound holds =
    let (i, e, at, same) = safe.reached in
    let in_log = get_elem?-Extends prefix r.log i e holds at in
    let bound =
      All-get (λ (z : LogEntry). z.term ≤ r.current_term) i r.log e
        (Lined-bounded 0 0 r.current_term r.log sound.lined) in_log in
    omega (arith, same, bound)

-- A leader of that term or a later one has the prefix.
pub Safe-leader :
    (m : Cluster) (history : History) (prefix : List LogEntry) (term x : ℕ) (source : ReplicaState)
    → Secure m history
    → Safe m history prefix term
    → find x m ≡ some source
    → leader m source ≡ true
    → term ≤ source.current_term
    → Extends prefix source.log
Safe-leader m history prefix term x source h safe at l le =
    let log = h.active x source at l in
    elim (Bool-cases (eqb term source.current_term)) [
      | inl same ↦
          subst (Extends prefix) (ap history ((eqb_iff term source.current_term).0 same) ∙ log)
            safe.own
      | inr apart ↦
          let above : term < source.current_term = ground (arith, apart, le) in
          subst (Extends prefix) log
            (safe.later source.current_term source.id above (leader-named m source l))
    ]

Change-copy :
    (m : Cluster) (history : History) (action : ReplicatePrefix)
    (source follower copied : ReplicaState)
    → Secure m history
    → find action.leader m ≡ some source
    → find action.follower m ≡ some follower
    → eqb action.leader action.follower ≡ false
    → leader m source ≡ true
    → follower.current_term ≤ source.current_term
    → Copied action.through source.current_term source.log follower copied
    → Change m history history action.follower follower (adopt_term source.current_term copied)
unfolding leader
Change-copy m history action source follower copied h s f apart l le c =
    let fs = h.valid.all.sound action.follower follower f in
    let k = Copied-Kept action.through source follower copied fs le c in
    let (log, commit) = adopt_term-log source.current_term copied in
    record {
      at = f;
      kept = k;
      grows = Grows-refl m.leaders history;
      within = subst (Within history m.leaders) (sym log) (elim c.form [
        | inl same ↦
            subst (Within history m.leaders) (sym same) (h.within action.follower follower f)
        | inr same ↦ subst (Within history m.leaders) (sym same) (
            Within-take history m.leaders action.through source.log
              (h.within action.leader source s))
      ]);
      active = λ leads.
          let (as_was, reached) = adopt_term-leads m source.current_term copied leads in
          let led : leader m copied ≡ true = subst (λ z. leader m z ≡ true) as_was leads in
          let before : leader m follower ≡ true =
            rw (sym c.active_kept, sym c.term_kept, sym c.id) led in
          let level : source.current_term ≡ follower.current_term =
            omega (arith, reached, le, c.term_kept) in
          let one =
            one_leader m history action.leader action.follower source follower h s f l before
              level in
          absurd (ground (arith, one, apart));
      others = λ y q a b d. refl;
      keeps = λ prefix term safe e.
          let term_le = Safe-term m history prefix term follower safe fs e in
          let has =
            Safe-leader m history prefix term action.leader source h safe s l
              (omega (arith, term_le, le)) in
          ap (take (length prefix)) log ∙ c.keeps prefix e has;
      covered =
          Covered-Kept m history follower (adopt_term source.current_term copied) k
            (commit ∙ c.commit_kept) (h.covered action.follower follower f);
    }

replicate_between-Secured :
    (action : ReplicatePrefix) (m : Cluster) (history : History) (source follower : ReplicaState)
    → Secure m history
    → find action.leader m ≡ some source
    → find action.follower m ≡ some follower
    → Secured (replicate_between action m source follower).1
unfolding replicate_between
replicate_between-Secured action m history source follower h s f =
    elim (Bool-cases (eqb action.leader action.follower)) [
      | inl t ↦ rw t (history, h)
      | inr t ↦
          elim (Bool-cases (not source.alive || not follower.alive || not (leader m source))) [
            | inl u ↦ rw (t, u) (history, h)
            | inr u ↦ elim (Bool-cases (ltb source.current_term follower.current_term)) [
              | inl v ↦ rw (t, u, v) (history, h)
              | inr v ↦ elim (Bool-cases (ltb (length source.log) action.through)) [
                | inl w ↦ rw (t, u, v, w) (history, h)
                | inr w ↦ elim (Option-cases (copy_prefix action.through source follower)) [
                  | inl e ↦ rw (t, u, v, w, e) (history, h)
                  | inr (copied, e) ↦
                      let c =
                        copy_prefix-Copied action.through source follower copied (ground (arith, w))
                          (h.valid.all.sound action.leader source s)
                          (h.valid.all.sound action.follower follower f) e in
                      rw (t, u, v, w, e)
                        (Secured-write m history history action.follower follower _ h (
                          Change-copy m history action source follower copied h s f t
                            (ground (arith, u)) (ground (arith, v)) c))
                ]
              ]
            ]
          ]
    ]

pub replicate-Secured :
    (action : ReplicatePrefix) (m : Cluster) (history : History)
    → Secure m history
    → Secured (replicate action m).1
unfolding replicate
replicate-Secured action m history h = elim (Option-cases (find action.leader m)) [
  | inl e ↦ rw (e, replicate) (history, h)
  | inr (source, e) ↦ elim (Option-cases (find action.follower m)) [
    | inl f ↦ rw (e, f, replicate) (history, h)
    | inr (follower, f) ↦
        rw (e, f, replicate) (replicate_between-Secured action m history source follower h e f)
  ]
]
