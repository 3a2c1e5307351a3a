-- ===== src/Raft/Durable/Gate.antt =====
-- The durability gate of a node that has seen any history of events.
use det_log.Prelude.{◌≡◌, refl, true, false, none, All, [], ◌||◌}
use det_log.Raft.State.{RaftNode, RaftConfig, RaftEvent, RecoveredState, is_unavailable}
use det_log.Raft.Emit.{schedule_election, emit}
use det_log.Raft.Step.{step, start}
use det_log.Raft.Recover.{construct, initial_node, initial_core, check_recovered, sort}
use det_log.Raft.Reachable.{Reachable, created, started, stepped, outcome-constructed}
use det_log.Raft.Durable.{Settled, Post, Post-if, settled, EffectDurable}
use det_log.Raft.Durable.Emits.{schedule_election-Sent}
use det_log.Raft.Durable.Leader.{idle-Firm}
use det_log.Raft.Durable.Step.{Post-same}
use det_log.Raft.Durable.Drain.{step-Post}

initial_node-Post : (config : RaftConfig) (r : RecoveredState) → Post (initial_node config r)
unfolding initial_node initial_core
initial_node-Post config r = record {
  outcome = settled refl (record { hard = refl; last = refl; commit = refl });
  thrown = refl;
  sent = tt;
}

start-Post : (s : RaftNode) → Post s → Post (start s)
unfolding start schedule_election emit
start-Post s p =
    let t = record s { effects = [] } in
    let u = record t { started = true } in
    Post-if (t.started || is_unavailable t.role) t (schedule_election u)
      (λ _. Post-same refl refl refl refl refl tt p)
      (λ _. Post-same refl refl refl refl refl (schedule_election-Sent u tt) p)

Reachable-Post : (s : RaftNode) → Reachable s → Post s
unfolding construct
Reachable-Post _ (created config r s h) =
    let c = record config { members = sort config.members } in
    let (checked, same) = outcome-constructed (check_recovered c r) (initial_node c r) s h in
    rw same (initial_node-Post c r)
Reachable-Post _ (started s q) = start-Post s (Reachable-Post s q)
Reachable-Post _ (stepped s event q) = step-Post event s (Reachable-Post s q)

-- Every message that an event makes a node send is backed by its disk: it carries the term of the
-- durable hard state; a vote request and a granted vote name the durable vote; the entries of an
-- AppendEntries and the match index of a success end within the durable log.
pub step_sends_durable :
    (s : RaftNode) (event : RaftEvent)
    → Reachable s
    → All
        (EffectDurable (step event s).durable_hard_state (step event s).durable_last_log_index)
        (step event s).effects
step_sends_durable s event q = (step-Post event s (Reachable-Post s q)).sent

-- After any history of events begin_persist has never been called while a storage operation was
-- pending, so its std::logic_error is never thrown; and whenever no operation is pending and the
-- node serves, the durable hard state, log end and commit index are those in memory.
pub Reachable-never_throws :
    (s : RaftNode)
    → Reachable s
    → (s.thrown ≡ false)
      × (s.pending_storage ≡ none → is_unavailable s.role ≡ false → Settled s.core)
Reachable-never_throws s q =
    let p = Reachable-Post s q in (p.thrown, λ idle serving. (idle-Firm s p idle serving).settled)
