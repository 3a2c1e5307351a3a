-- ===== src/Raft/Tests/Gate.antt =====
-- The durability gate on the runs of the three-node engine.
use det_log.Prelude.{◌≡◌, false, none, [], ◌∷◌, All}
use det_log.Model.{TimerKind}
use det_log.Raft.State.{RaftNode, RaftEvent, is_unavailable}
use det_log.Raft.Step.{step, start}
use det_log.Raft.Reachable.{Reachable, run, run-Reachable}
use det_log.Raft.Durable.{EffectDurable, Settled}
use det_log.Raft.Durable.Gate.{step_sends_durable, Reachable-never_throws}
use det_log.Raft.Tests.{fresh, fresh-Reachable, leader-Reachable, stored, election}

-- A candidate whose vote is on its way to the disk.
abbrev standing : RaftNode
standing = run (RaftEvent.timer_fired TimerKind.election 1 ∷ []) (start fresh)

standing-Reachable : Reachable standing
standing-Reachable =
    run-Reachable (RaftEvent.timer_fired TimerKind.election 1 ∷ []) (start fresh) fresh-Reachable

-- The completion sends the vote requests.
step_sends_durable_example :
    All
      (EffectDurable
        (step (stored 1) standing).durable_hard_state
        (step (stored 1) standing).durable_last_log_index)
      (step (stored 1) standing).effects
step_sends_durable_example = step_sends_durable standing (stored 1) standing-Reachable

Reachable-never_throws_example :
    ((run election (start fresh)).thrown ≡ false)
    × ((run election (start fresh)).pending_storage ≡ none
        → is_unavailable (run election (start fresh)).role ≡ false
        → Settled (run election (start fresh)).core)
Reachable-never_throws_example =
    Reachable-never_throws (run election (start fresh)) leader-Reachable
