-- ===== src/Raft/Queue/Bound.antt =====
-- What `step` leaves in the queue of deferred events, and how long the queue may grow.
use det_log.Prelude.{
  ◌≡◌, refl, ap, ◌≤◌, ℕ, max, Bool, true, false, none, some, Option, [], ◌∷◌, ◌++◌, inl, inr, ◌⊎◌,
  leb, length, length-append, arith, if◌then◌else◌, ◌∙◌, String,
}
use det_log.Model.{TraceKind, ClientStatus}
use det_log.Raft.State.{RaftNode, RaftEvent, PendingStorage, is_idle, is_unavailable}
use det_log.Raft.Log.{command_allowed}
use det_log.Raft.Emit.{trace, emit, emit_reply}
use det_log.Raft.Step.{
  dispatch_all, message_bounded, push_deferred, defer, refuse_event, step, is_completion,
}
use det_log.Raft.Queue.Drain.{Drained, empty, busy, gone, dispatch_all-Drains}

-- From `s` to `t` the queue grows at most to the bound, and storage stays pending or idle, and the
-- node in its role.
record Deferred (s t : RaftNode) : Type 0 where
  pub bound : length t.deferred_events ≤ max (length s.deferred_events) s.config.max_deferred_events
  pub pending : t.pending_storage ≡ s.pending_storage
  pub role : t.role ≡ s.role

Deferred-if :
    (b : Bool) (s t u : RaftNode)
    → (b ≡ true → Deferred s t)
    → (b ≡ false → Deferred s u)
    → Deferred s (if b then t else u)
Deferred-if true s t u p q = p refl
Deferred-if false s t u p q = q refl

trace-Deferred :
    (kind : TraceKind) (detail : String) (s : RaftNode) → Deferred s (trace kind detail 0 s)
unfolding trace emit
trace-Deferred kind detail s = record { bound = omega arith; pending = refl; role = refl }

reply-Deferred :
    (token : ℕ) (status : ClientStatus) (s : RaftNode) → Deferred s (emit_reply token status [] 0 s)
unfolding emit_reply trace emit
reply-Deferred token status s = record { bound = omega arith; pending = refl; role = refl }

push_deferred-Deferred : (event : RaftEvent) (s : RaftNode) → Deferred s (push_deferred event s)
unfolding push_deferred emit_reply trace emit
push_deferred-Deferred event s =
    Deferred-if (leb s.config.max_deferred_events (length s.deferred_events)) s _
      (record s { deferred_events = s.deferred_events ++ event ∷ [] }) (λ _. full event)
      (λ room. record {
        bound = ground (arith, room, length-append s.deferred_events (event ∷ []));
        pending = refl;
        role = refl;
      })
  where
    full :
        (e : RaftEvent)
        → Deferred s (elim e as (λ _. RaftNode) [
          | RaftEvent.client_request token command ↦
              emit_reply token ClientStatus.busy [] 0
                (trace TraceKind.queue_saturated "deferred event queue is full" 0 s)
          | _ ↦ trace TraceKind.queue_saturated "deferred event queue is full" 0 s
        ])
    full (RaftEvent.client_request token command) = record {
      bound = omega arith;
      pending = refl;
      role = refl;
    }
    full (RaftEvent.timer_fired kind generation) = trace-Deferred TraceKind.queue_saturated _ s
    full (RaftEvent.message_received envelope) = trace-Deferred TraceKind.queue_saturated _ s
    full (RaftEvent.storage_complete op_id success error) =
        trace-Deferred TraceKind.queue_saturated _ s

defer-Deferred : (event : RaftEvent) (s : RaftNode) → Deferred s (defer event s)
unfolding defer
defer-Deferred (RaftEvent.client_request token command) s =
    Deferred-if (command_allowed s.config command) s _ _ (λ _. push_deferred-Deferred _ s)
      (λ _. reply-Deferred token ClientStatus.invalid_request s)
defer-Deferred (RaftEvent.message_received envelope) s =
    Deferred-if (message_bounded s.config envelope.message) s _ _ (λ _. push_deferred-Deferred _ s)
      (λ _. trace-Deferred TraceKind.queue_saturated _ s)
defer-Deferred (RaftEvent.timer_fired kind generation) s = push_deferred-Deferred _ s
defer-Deferred (RaftEvent.storage_complete op_id success error) s = push_deferred-Deferred _ s

refuse_event-Deferred : (event : RaftEvent) (s : RaftNode) → Deferred s (refuse_event event s)
unfolding refuse_event
refuse_event-Deferred (RaftEvent.client_request token command) s =
    reply-Deferred token ClientStatus.unavailable s
refuse_event-Deferred (RaftEvent.timer_fired kind generation) s = record {
  bound = omega arith;
  pending = refl;
  role = refl;
}
refuse_event-Deferred (RaftEvent.message_received envelope) s = record {
  bound = omega arith;
  pending = refl;
  role = refl;
}
refuse_event-Deferred (RaftEvent.storage_complete op_id success error) s = record {
  bound = omega arith;
  pending = refl;
  role = refl;
}

-- What a step makes of the queue.
record Bounded (s t : RaftNode) : Type 0 where
  pub drained : Drained t
  pub bound : length t.deferred_events ≤ max (length s.deferred_events) s.config.max_deferred_events

Bounded-if :
    (b : Bool) (s t u : RaftNode)
    → (b ≡ true → Bounded s t)
    → (b ≡ false → Bounded s u)
    → Bounded s (if b then t else u)
Bounded-if true s t u p q = p refl
Bounded-if false s t u p q = q refl

dispatch_all-Bounded : (event : RaftEvent) (s : RaftNode) → Bounded s (dispatch_all event s)
dispatch_all-Bounded event s =
    let d = dispatch_all-Drains event s in
    record { drained = d.drained; bound = omega (arith, d.shrinks.queue) }

step-Bounded :
    (event : RaftEvent) (s : RaftNode) → Bounded (record s { effects = [] }) (step event s)
unfolding step
step-Bounded event s =
    let t = record s { effects = [] } in
    let refused = refuse_event-Deferred event t in
    let deferred = defer-Deferred event t in
    Bounded-if (is_completion event) t _ _ (λ _. dispatch_all-Bounded event t)
      (λ _.
        Bounded-if (is_idle t) t _ _
          (λ _.
            Bounded-if (is_unavailable t.role) t _ _
              (λ away. record {
                drained = gone (ap is_unavailable refused.role ∙ away);
                bound = refused.bound;
              })
              (λ _. dispatch_all-Bounded event t))
          (λ waiting. record {
            drained = busy (ap idle_of deferred.pending ∙ waiting);
            bound = deferred.bound;
          }))
  where
    idle_of : Option PendingStorage → Bool
    idle_of o = elim o [ none ↦ true | some p ↦ false ]

-- The loop of a step over the deferred events ends: after any step an event is left in the queue only
-- if a storage operation is pending or the node is unavailable. And no step makes the queue longer
-- than it was and than max_deferred_events.
pub step_drains :
    (event : RaftEvent) (s : RaftNode)
    → (((step event s).deferred_events ≡ [])
        ⊎ ((is_idle (step event s) ≡ false) ⊎ (is_unavailable (step event s).role ≡ true)))
      × (length (step event s).deferred_events
          ≤ max (length s.deferred_events) s.config.max_deferred_events)
step_drains event s = (spelled (step event s) b.drained, b.bound)
  where
    b : Bounded (record s { effects = [] }) (step event s)
    b = step-Bounded event s

    spelled :
        (t : RaftNode)
        → Drained t
        → (t.deferred_events ≡ []) ⊎ ((is_idle t ≡ false) ⊎ (is_unavailable t.role ≡ true))
    spelled t (empty e) = inl e
    spelled t (busy e) = inr (inl e)
    spelled t (gone e) = inr (inr e)
