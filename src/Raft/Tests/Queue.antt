-- ===== src/Raft/Tests/Queue.antt =====
-- A request that arrives while storage is pending.
use det_log.Prelude.{◌≡◌, refl, ◌⊎◌, ◌≤◌, max, true, false, [], ◌∷◌, length}
use det_log.Model.{TimerKind}
use det_log.Raft.State.{RaftNode, RaftEvent, is_idle, is_unavailable}
use det_log.Raft.Step.{step, start}
use det_log.Raft.Reachable.{run}
use det_log.Raft.Queue.Bound.{step_drains}
use det_log.Raft.Tests.{fresh, put_a, stored, engine}

abbrev standing : RaftNode
standing = run (RaftEvent.timer_fired TimerKind.election 1 ∷ []) (start fresh)

abbrev request : RaftEvent
request = RaftEvent.client_request 7 put_a

request_waits : length (step request standing).deferred_events ≡ 1
unfolding engine
request_waits = refl

completion_drains : (step (stored 1) (step request standing)).deferred_events ≡ []
unfolding engine
completion_drains = refl

step_drains_example :
    (((step (stored 1) (step request standing)).deferred_events ≡ [])
      ⊎ ((is_idle (step (stored 1) (step request standing)) ≡ false)
          ⊎ (is_unavailable (step (stored 1) (step request standing)).role ≡ true)))
    × (length (step (stored 1) (step request standing)).deferred_events
        ≤ max
            (length (step request standing).deferred_events)
            (step request standing).config.max_deferred_events)
step_drains_example = step_drains (stored 1) (step request standing)
