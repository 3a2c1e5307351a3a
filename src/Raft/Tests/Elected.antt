-- ===== src/Raft/Tests/Elected.antt =====
-- An election of the three-node engine that nodes 1 and 3 support.
use det_log.Prelude.{◌≡◌, refl, [], ◌∷◌, arith, map}
use det_log.Raft.State.{RaftNode}
use det_log.Raft.Step.{start}
use det_log.Raft.Reachable.{run}
use det_log.Raft.Elected.{NewVotes, grant}
use det_log.Raft.Elected.Asking.{sends, envelopes, CanStand}
use det_log.Raft.Elected.Campaign.{request, opening, CanWin, Won, run-opening-Won}
use det_log.Raft.Tests.{fresh, engine}

abbrev waiter : RaftNode
waiter = start fresh

waiter_stands : CanStand waiter
unfolding engine
waiter_stands = record {
  follows = refl;
  serves = refl;
  idle = refl;
  none_deferred = refl;
  term = refl;
  operation = refl;
}

waiter_wins : CanWin waiter
unfolding engine
waiter_wins = record { stands = waiter_stands; index = refl; room = refl; operation = refl }

waiter_hears : NewVotes waiter.config ((1, tt) ∷ []) (3 ∷ [])
unfolding engine
waiter_hears = (refl, refl, refl, tt)

run-opening-Won_example :
    (sends (run (opening waiter) waiter).effects ≡ envelopes 1 (request waiter) (1 ∷ 2 ∷ 3 ∷ []))
    × Won waiter (run (map (grant 1 1) (3 ∷ [])) (run (opening waiter) waiter))
unfolding engine
run-opening-Won_example =
    run-opening-Won waiter (3 ∷ []) waiter_wins waiter_hears (omega arith) (omega arith)
