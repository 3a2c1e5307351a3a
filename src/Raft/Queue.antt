-- ===== src/Raft/Queue.antt =====
-- No handler defers an event: the queue of deferred events never grows but in `defer`.
pub mod Store
pub mod Vote
pub mod Entries
pub mod Serve
pub mod Drain
pub mod Bound
use det_log.Prelude.{◌≡◌, refl, ap, ◌≤◌, Bool, true, false, if◌then◌else◌, length, arith}
use det_log.Raft.State.{RaftNode, RaftEvent}
use det_log.Raft.Quiet.{Quiet}

pub record Shrinks (s t : RaftNode) : Type 0 where
  pub queue : length t.deferred_events ≤ length s.deferred_events

pub Shrinks-refl : (s : RaftNode) → Shrinks s s
Shrinks-refl s = record { queue = omega arith }

-- A change of other fields.
pub Shrinks-same : {s t : RaftNode} → t.deferred_events ≡ s.deferred_events → Shrinks s t
Shrinks-same e = record { queue = omega (arith, ap (length {A = RaftEvent}) e) }

pub Shrinks-trans : (s t u : RaftNode) → Shrinks s t → Shrinks t u → Shrinks s u
Shrinks-trans s t u p q = record { queue = omega (arith, p.queue, q.queue) }

pub Shrinks-Quiet : {s t : RaftNode} → Quiet s t → Shrinks s t
Shrinks-Quiet q = record { queue = q.queue }

pub Shrinks-if :
    (b : Bool) (s t u : RaftNode)
    → (b ≡ true → Shrinks s t)
    → (b ≡ false → Shrinks s u)
    → Shrinks s (if b then t else u)
Shrinks-if true s t u p q = p refl
Shrinks-if false s t u p q = q refl

-- From a node with the same queue.
pub Shrinks-from :
    (s t : RaftNode) {u : RaftNode}
    → t.deferred_events ≡ s.deferred_events
    → Shrinks t u
    → Shrinks s u
Shrinks-from s t e p = record { queue = omega (arith, p.queue, ap (length {A = RaftEvent}) e) }
