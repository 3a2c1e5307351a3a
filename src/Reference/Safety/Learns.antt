-- ===== src/Reference/Safety/Learns.antt =====
-- `learn` of src/reference_model.cpp keeps a cluster secure.
use det_log.Prelude.{
  ◌≡◌, sym, ◌∙◌, ap, subst, inl, inr, ℕ, ◌≤◌, true, some, ◌||◌, not, arith, Bool-cases,
  Option-cases, ltb, take, take-take,
}
use det_log.Reference.Interpret.{ReplicaState}
use det_log.Reference.Actions.{LearnCommit, Cluster, find, write}
use det_log.Reference.Elections.{leader}
use det_log.Reference.Logs.{adopt_term}
use det_log.Reference.Commits.{equal_prefix, advance, learn_between, learn}
use det_log.Reference.Sound.{Kept-trans, adopt_term-Kept}
use det_log.Reference.Sound.Advance.{advance-Kept, advance-Unmoved}
use det_log.Reference.Safety.{History, Covered, Secure}
use det_log.Reference.Safety.Roles.{Secured, Secured-write, still-Change}
use det_log.Reference.Safety.Copies.{adopt_term-log, adopt_term-leads}
use det_log.Reference.Safety.Acknowledged.{equal_prefix-take}

-- What the leader has committed covers the follower that holds the same prefix.
learnt-Covered :
    (m : Cluster) (history : History) (source s : ReplicaState) (through : ℕ)
    → Covered m history source
    → s.commit_index ≡ through
    → through ≤ source.commit_index
    → take through source.log ≡ take through s.log
    → Covered m history s
learnt-Covered m history source s through (inl none_yet) c le same =
    inl (omega (arith, c, le, none_yet))
learnt-Covered m history source s through (inr (prefix, term, safe, long, holds)) c le same = inr (
  prefix,
  term,
  safe,
  omega (arith, c, le, long),
  subst (λ k. take k s.log ≡ take k prefix) (sym c)
      (sym same
        ∙ sym (take-take through source.commit_index source.log le)
        ∙ ap (take through) holds
        ∙ take-take through source.commit_index prefix le),
)

leader_fields :
    (m : Cluster) (a b : ReplicaState)
    → b.active_leader ≡ a.active_leader
    → b.current_term ≡ a.current_term
    → b.id ≡ a.id
    → leader m b ≡ leader m a
unfolding leader
leader_fields m a b active term id = cc

learn-Change :
    (m : Cluster) (history : History) (x : ℕ) (source follower : ReplicaState) (through : ℕ)
    → Secure m history
    → find x m ≡ some follower
    → Covered m history source
    → follower.commit_index ≤ through
    → through ≤ source.commit_index
    → equal_prefix source follower through ≡ true
    → Secured (write x (adopt_term source.current_term (advance through follower)) m)
unfolding leader
learn-Change m history x source follower through h at covered low le equal =
    let (_, high, same) = equal_prefix-take source follower through equal in
    let k = advance-Kept follower through (h.valid.all.sound x follower at) low high in
    let all =
      Kept-trans follower (advance through follower) _ k
        (adopt_term-Kept (advance through follower) source.current_term k.sound) in
    let u = advance-Unmoved follower through in
    let s = adopt_term source.current_term (advance through follower) in
    let (log, commit) = adopt_term-log source.current_term (advance through follower) in
    let same_log : s.log ≡ follower.log = log ∙ u.log in
    Secured-write m history history x follower s h (
      still-Change m history x follower s h at all same_log
        (λ leads.
          let (as_was, _) =
            adopt_term-leads m source.current_term (advance through follower) leads in
          let led : leader m (advance through follower) ≡ true =
            subst (λ z. leader m z ≡ true) as_was leads in
          (
            sym (
                  leader_fields m follower (advance through follower) u.active_leader u.current_term
                    u.id)
                ∙ led,
            ap (λ z. z.current_term) as_was ∙ u.current_term,
          ))
        (learnt-Covered m history source s through covered (commit ∙ u.commit_index) le
          (same ∙ ap (take through) (sym same_log))))

learn_between-Secured :
    (action : LearnCommit) (m : Cluster) (history : History) (source follower : ReplicaState)
    → Secure m history
    → find action.leader m ≡ some source
    → find action.follower m ≡ some follower
    → Secured (learn_between action m source follower).1
unfolding learn_between
learn_between-Secured action m history source follower h s f =
    elim (Bool-cases (not source.alive || not follower.alive || not (leader m source))) [
      | inl t ↦ rw t (history, h)
      | inr t ↦ elim (Bool-cases (ltb source.current_term follower.current_term)) [
        | inl u ↦ rw (t, u) (history, h)
        | inr u ↦
            elim (Bool-cases (
              ltb action.through follower.commit_index
              || ltb source.commit_index action.through
              || not (equal_prefix source follower action.through))) [
                | inl v ↦ rw (t, u, v) (history, h)
                | inr v ↦
                    rw (t, u, v)
                      (learn-Change m history action.follower source follower action.through h f
                        (h.covered action.leader source s) (ground (arith, v)) (ground (arith, v))
                        (ground (arith, v)))
              ]
      ]
    ]

pub learn-Secured :
    (action : LearnCommit) (m : Cluster) (history : History)
    → Secure m history
    → Secured (learn action m).1
unfolding learn
learn-Secured action m history h = elim (Option-cases (find action.leader m)) [
  | inl e ↦ rw (e, learn) (history, h)
  | inr (source, e) ↦ elim (Option-cases (find action.follower m)) [
    | inl f ↦ rw (e, f, learn) (history, h)
    | inr (follower, f) ↦
        rw (e, f, learn) (learn_between-Secured action m history source follower h e f)
  ]
]
