-- ===== src/Reference/Moves/Handlers.antt =====
-- Every action of src/reference_model.cpp but `elect`: what it does to the replicas. The table of leaders
-- stays as it was.
use det_log.Prelude.{
  ◌≡◌, refl, inl, inr, ℕ, ◌≤◌, Bool, true, false, ◌||◌, not, none, some, arith, Bool-cases,
  Option-cases, ltb, eqb, [], length,
}
use det_log.Prelude.Map
use det_log.Model.{ClientCommand, session_key}
use det_log.Reference.Interpret.{ReplicaState, well_structured}
use det_log.Reference.Actions.{
  Propose, ReplicatePrefix, CommitPrefix, LearnCommit, Cluster, find, write,
}
use det_log.Reference.Elections.{leader, Checked, failed, passed}
use det_log.Reference.Logs.{
  proposal_check, append_noop, take_proposal, propose, copy_prefix, replicate_between, replicate,
}
use det_log.Reference.Commits.{
  equal_prefix, check_acknowledgers, commit_error, advance, finish_commit, commit, learn_between,
  learn,
}
use det_log.Reference.Run.{crash, restart}
use det_log.Reference.Sound.{Sound, Kept, Kept-refl, Kept-trans, push-Kept, adopt_term-Kept}
use det_log.Reference.Sound.Copy.{copy_prefix-Copied, Copied-Kept}
use det_log.Reference.Sound.Advance.{advance-Kept, mark_ready-Kept}
use det_log.Reference.Moves.{AllSound, Moves, Moves-refl, write-Moves, write-leaders}

-- A move that elects nobody.
pub record Quiet (m n : Cluster) : Type 0 where
  pub moves : Moves m n
  pub leaders : n.leaders ≡ m.leaders

same : (m : Cluster) → AllSound m → Quiet m m
same m h = record { moves = Moves-refl m h; leaders = refl }

written :
    (node : ℕ) (r s : ReplicaState) (m : Cluster)
    → AllSound m
    → find node m ≡ some r
    → Kept r s
    → Quiet m (write node s m)
written node r s m h at k = record {
  moves = write-Moves node r s m h at k;
  leaders = write-leaders node s m;
}

-- A flag of the role, which Sound and Kept do not see.
pub flags-Kept :
    (r : ReplicaState) (alive active : Bool)
    → Sound r
    → Kept r (record r { alive = alive; active_leader = active })
flags-Kept r alive active h = record {
  sound = record { within = h.within; applied = h.applied; lined = h.lined };
  id = refl;
  term = omega arith;
  vote = λ _. inr refl;
  commit = omega arith;
  prefix = refl;
}

pub crash-Quiet : (node : ℕ) (m : Cluster) → AllSound m → Quiet m (crash node m).1
unfolding crash
crash-Quiet node m h = elim (Option-cases (find node m)) [
  | inl e ↦ rw (e, crash) (same m h)
  | inr (r, e) ↦ elim (Bool-cases (not r.alive)) [
    | inl t ↦ rw (e, t, crash) (same m h)
    | inr t ↦
        rw (e, t, crash) (written node r _ m h e (flags-Kept r false false (h.sound node r e)))
  ]
]

pub restart-Quiet : (node : ℕ) (m : Cluster) → AllSound m → Quiet m (restart node m).1
unfolding restart
restart-Quiet node m h = elim (Option-cases (find node m)) [
  | inl e ↦ rw (e, restart) (same m h)
  | inr (r, e) ↦ elim (Bool-cases r.alive) [
    | inl t ↦ rw (e, t, restart) (same m h)
    | inr t ↦
        rw (e, t, restart) (written node r _ m h e (flags-Kept r true false (h.sound node r e)))
  ]
]

pub append_noop-Quiet : (node : ℕ) (m : Cluster) → AllSound m → Quiet m (append_noop node m).1
unfolding append_noop
append_noop-Quiet node m h = elim (Option-cases (find node m)) [
  | inl e ↦ rw (e, append_noop) (same m h)
  | inr (r, e) ↦ elim (Bool-cases (not r.alive || not (leader m r))) [
    | inl t ↦ rw (e, t, append_noop) (same m h)
    | inr t ↦ rw (e, t, append_noop) (written node r _ m h e (push-Kept r none (h.sound node r e)))
  ]
]

take_proposal-Kept : (c : ClientCommand) (r : ReplicaState) → Sound r → Kept r (take_proposal c r).1
unfolding take_proposal
take_proposal-Kept c r h = elim (Bool-cases (not (well_structured c))) [
  | inl t ↦ rw t (Kept-refl r h)
  | inr t ↦ elim (Option-cases (proposal_check c (Map.find c.session r.sessions))) [
    | inl e ↦ rw (t, e) (push-Kept r (some c) h)
    | inr (early, e) ↦ rw (t, e) (Kept-refl r h)
  ]
]

pub propose-Quiet : (action : Propose) (m : Cluster) → AllSound m → Quiet m (propose action m).1
unfolding propose
propose-Quiet action m h = elim (Option-cases (find action.leader m)) [
  | inl e ↦ rw (e, propose) (same m h)
  | inr (r, e) ↦ elim (Bool-cases (not r.alive || not (leader m r))) [
    | inl t ↦ rw (e, t, propose) (same m h)
    | inr t ↦ elim (Bool-cases (not (eqb r.ready_term r.current_term))) [
      | inl u ↦ rw (e, t, u, propose) (same m h)
      | inr u ↦
          rw (e, t, u, propose)
            (written action.leader r _ m h e
              (take_proposal-Kept action.command r (h.sound action.leader r e)))
    ]
  ]
]

replicate_between-Quiet :
    (action : ReplicatePrefix) (m : Cluster) (source follower : ReplicaState)
    → AllSound m
    → find action.leader m ≡ some source
    → find action.follower m ≡ some follower
    → Quiet m (replicate_between action m source follower).1
unfolding replicate_between
replicate_between-Quiet action m source follower h s f =
    elim (Bool-cases (eqb action.leader action.follower)) [
      | inl t ↦ rw t (same m h)
      | inr t ↦
          elim (Bool-cases (not source.alive || not follower.alive || not (leader m source))) [
            | inl u ↦ rw (t, u) (same m h)
            | inr u ↦ elim (Bool-cases (ltb source.current_term follower.current_term)) [
              | inl v ↦ rw (t, u, v) (same m h)
              | inr v ↦ elim (Bool-cases (ltb (length source.log) action.through)) [
                | inl w ↦ rw (t, u, v, w) (same m h)
                | inr w ↦ elim (Option-cases (copy_prefix action.through source follower)) [
                  | inl e ↦ rw (t, u, v, w, e) (same m h)
                  | inr (copied, e) ↦
                      let fs = h.sound action.follower follower f in
                      let c =
                        copy_prefix-Copied action.through source follower copied (ground (arith, w))
                          (h.sound action.leader source s) fs e in
                      rw (t, u, v, w, e)
                        (written action.follower follower _ m h f (
                          Copied-Kept action.through source follower copied fs (ground (arith, v))
                            c))
                ]
              ]
            ]
          ]
    ]

pub replicate-Quiet :
    (action : ReplicatePrefix) (m : Cluster) → AllSound m → Quiet m (replicate action m).1
unfolding replicate
replicate-Quiet action m h = elim (Option-cases (find action.leader m)) [
  | inl e ↦ rw (e, replicate) (same m h)
  | inr (source, e) ↦ elim (Option-cases (find action.follower m)) [
    | inl f ↦ rw (e, f, replicate) (same m h)
    | inr (follower, f) ↦
        rw (e, f, replicate) (replicate_between-Quiet action m source follower h e f)
  ]
]

finish_commit-Quiet :
    (action : CommitPrefix) (m : Cluster) (source : ReplicaState) (c : Checked)
    → AllSound m
    → find action.leader m ≡ some source
    → source.commit_index ≤ action.through
    → action.through ≤ length source.log
    → Quiet m (finish_commit action m source c).1
unfolding finish_commit
finish_commit-Quiet action m source (failed error) h e low high = same m h
finish_commit-Quiet action m source (passed unique) h e low high =
    elim (Option-cases (commit_error action m source unique)) [
      | inr (error, t) ↦ rw (t, finish_commit) (same m h)
      | inl t ↦
          rw (t, finish_commit)
            (written action.leader source _ m h e (
              mark_ready-Kept source (advance action.through source) action.through
                (advance-Kept source action.through (h.sound action.leader source e) low high)))
    ]

pub commit-Quiet : (action : CommitPrefix) (m : Cluster) → AllSound m → Quiet m (commit action m).1
unfolding commit
commit-Quiet action m h = elim (Option-cases (find action.leader m)) [
  | inl e ↦ rw (e, commit) (same m h)
  | inr (source, e) ↦ elim (Bool-cases (not source.alive || not (leader m source))) [
    | inl t ↦ rw (e, t, commit) (same m h)
    | inr t ↦
        elim (Bool-cases
          (ltb action.through source.commit_index || ltb (length source.log) action.through)) [
            | inl u ↦ rw (e, t, u, commit) (same m h)
            | inr u ↦
                rw (e, t, u, commit)
                  (finish_commit-Quiet action m source
                    (check_acknowledgers source action.through m [] action.acknowledgers) h e
                    (ground (arith, u)) (ground (arith, u)))
          ]
  ]
]

equal_prefix-le :
    (a b : ReplicaState) (through : ℕ) → equal_prefix a b through ≡ true → through ≤ length b.log
unfolding equal_prefix
equal_prefix-le a b through h = ground arith

learn_between-Quiet :
    (action : LearnCommit) (m : Cluster) (source follower : ReplicaState)
    → AllSound m
    → find action.follower m ≡ some follower
    → Quiet m (learn_between action m source follower).1
unfolding learn_between
learn_between-Quiet action m source follower h f =
    elim (Bool-cases (not source.alive || not follower.alive || not (leader m source))) [
      | inl t ↦ rw t (same m h)
      | inr t ↦ elim (Bool-cases (ltb source.current_term follower.current_term)) [
        | inl u ↦ rw (t, u) (same m h)
        | inr u ↦
            elim (Bool-cases (
              ltb action.through follower.commit_index
              || ltb source.commit_index action.through
              || not (equal_prefix source follower action.through))) [
                | inl v ↦ rw (t, u, v) (same m h)
                | inr v ↦
                    let k =
                      advance-Kept follower action.through (h.sound action.follower follower f)
                        (ground (arith, v))
                        (equal_prefix-le source follower action.through (ground (arith, v))) in
                    rw (t, u, v)
                      (written action.follower follower _ m h f (
                        Kept-trans follower (advance action.through follower) _ k (
                          adopt_term-Kept (advance action.through follower) source.current_term
                            k.sound)))
              ]
      ]
    ]

pub learn-Quiet : (action : LearnCommit) (m : Cluster) → AllSound m → Quiet m (learn action m).1
unfolding learn
learn-Quiet action m h = elim (Option-cases (find action.leader m)) [
  | inl e ↦ rw (e, learn) (same m h)
  | inr (source, e) ↦ elim (Option-cases (find action.follower m)) [
    | inl f ↦ rw (e, f, learn) (same m h)
    | inr (follower, f) ↦ rw (e, f, learn) (learn_between-Quiet action m source follower h f)
  ]
]
