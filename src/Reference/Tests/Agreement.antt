-- ===== src/Reference/Tests/Agreement.antt =====
-- A commit that its follower learns, and the agreement of the two.
use det_log.Prelude.{◌≡◌, refl, true, some, [], ◌∷◌, take, arith}
use det_log.Reference.Interpret.{ReplicaState}
use det_log.Reference.Actions.{Action, Cluster, find}
use det_log.Reference.Run.{apply_action}
use det_log.Reference.Safety.Agreement.{Allowed, Disciplined, constructed, acted, commit-agreement}
use det_log.Reference.Tests.Histories.{
  model, fresh, fresh_built, vote_for, copy, commit_with, voter,
}

abbrev copied : Cluster
copied =
    (apply_action (copy 1 2 1)
      (apply_action (Action.append_no_op 1) (apply_action (vote_for 1 1 (1 ∷ 2 ∷ [])) fresh).1).1).1

copied-Disciplined : Disciplined copied
copied-Disciplined = acted (copy 1 2 1) tt (
    acted (Action.append_no_op 1) tt
      (acted (vote_for 1 1 (1 ∷ 2 ∷ [])) tt (constructed (1 ∷ 2 ∷ 3 ∷ []) fresh_built)))

commit_timely : Allowed copied (commit_with 1 1 (1 ∷ 2 ∷ []))
unfolding model
commit_timely = λ source at.
    ((λ r found. ground (arith, at, found)), ((λ r found. ground (arith, at, found)), tt))

abbrev learnt : Cluster
learnt =
    (apply_action (Action.learn_commit (record { leader = 1; follower = 2; through = 1 }))
      (apply_action (commit_with 1 1 (1 ∷ 2 ∷ [])) copied).1).1

learnt-Disciplined : Disciplined learnt
learnt-Disciplined =
    acted (Action.learn_commit (record { leader = 1; follower = 2; through = 1 })) tt
      (acted (commit_with 1 1 (1 ∷ 2 ∷ [])) commit_timely copied-Disciplined)

abbrev follower : ReplicaState
follower = record voter { commit_index = 1; last_applied = 1 }

abbrev head : ReplicaState
head = record follower { id = 1; active_leader = true; ready_term = 1 }

head_found : find 1 learnt ≡ some head
unfolding model
head_found = refl

follower_found : find 2 learnt ≡ some follower
unfolding model
follower_found = refl

commit-agreement_example : take 1 head.log ≡ take 1 follower.log
commit-agreement_example =
    commit-agreement learnt 1 2 head follower 1 learnt-Disciplined head_found follower_found
      (omega arith) (omega arith)
