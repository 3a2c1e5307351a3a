-- ===== src/Raft/Durable/Drain.antt =====
-- The deferred events, and the whole step.
use det_log.Prelude.{
  ◌≡◌, refl, ℕ, suc, zero, Bool, true, false, ◌&&◌, not, List, [], ◌∷◌, ◌++◌, length, and_iff,
}
use det_log.Model.{TraceKind, ClientStatus}
use det_log.Raft.State.{RaftNode, RaftEvent, is_idle, is_unavailable}
use det_log.Raft.Log.{command_allowed}
use det_log.Raft.Emit.{trace, emit, emit_reply}
use det_log.Raft.Step.{
  dispatch, message_bounded, push_deferred, defer, refuse_event, drain, dispatch_all, step,
  is_completion,
}
use det_log.Raft.Durable.{Post, Post-if, Firm-same}
use det_log.Raft.Durable.Leader.{idle-Firm, is_idle-none}
use det_log.Raft.Durable.Step.{
  Post-same, dispatch-Post, emit_reply-Post, not-false, on_storage_complete-Post, trace-Post,
}

drain-Post : (fuel : ℕ) (s : RaftNode) → Post s → Post (drain fuel s)
unfolding drain
drain-Post zero s p = p
drain-Post (suc fuel) s p =
    go s.deferred_events (is_idle s && not (is_unavailable s.role)) refl (drain-Post fuel)
  where
    go :
        (events : List RaftEvent) (ready : Bool)
        → (is_idle s && not (is_unavailable s.role)) ≡ ready
        → ((t : RaftNode) → Post t → Post (drain fuel t))
        → Post (elim events as (λ _. RaftNode) [
          | [] ↦ s
          | event ∷ rest ↦ elim ready as (λ _. RaftNode) [
            | true ↦ drain fuel (dispatch event (record s { deferred_events = rest }))
            | false ↦ s
          ]
        ])
    go [] ready e ih = p
    go (event ∷ rest) false e ih = p
    go (event ∷ rest) true e ih =
        let t = record s { deferred_events = rest } in
        let both = (and_iff _ _).0 e in
        let f = idle-Firm s p (is_idle-none s both.0) (not-false _ both.1) in
        ih (dispatch event t) (dispatch-Post event t (Firm-same refl refl refl refl f))

push_deferred-Post : (event : RaftEvent) (s : RaftNode) → Post s → Post (push_deferred event s)
unfolding push_deferred trace emit
push_deferred-Post event s p =
    Post-if _ _ (record s { deferred_events = s.deferred_events ++ event ∷ [] }) (λ _. full event)
      (λ _. Post-same refl refl refl refl refl p.sent p)
  where
    full :
        (e : RaftEvent)
        → Post (elim e as (λ _. RaftNode) [
          | RaftEvent.client_request token command ↦
              emit_reply token ClientStatus.busy [] 0
                (trace TraceKind.queue_saturated "deferred event queue is full" 0 s)
          | _ ↦ trace TraceKind.queue_saturated "deferred event queue is full" 0 s
        ])
    full (RaftEvent.client_request token command) =
        emit_reply-Post token ClientStatus.busy
          (trace TraceKind.queue_saturated "deferred event queue is full" 0 s)
          (trace-Post TraceKind.queue_saturated _ 0 s p)
    full (RaftEvent.timer_fired kind generation) = trace-Post TraceKind.queue_saturated _ 0 s p
    full (RaftEvent.message_received envelope) = trace-Post TraceKind.queue_saturated _ 0 s p
    full (RaftEvent.storage_complete op_id success error) =
        trace-Post TraceKind.queue_saturated _ 0 s p

defer-Post : (event : RaftEvent) (s : RaftNode) → Post s → Post (defer event s)
unfolding defer
defer-Post (RaftEvent.client_request token command) s p =
    Post-if (command_allowed s.config command) _ _ (λ _. push_deferred-Post _ s p)
      (λ _. emit_reply-Post token ClientStatus.invalid_request s p)
defer-Post (RaftEvent.message_received envelope) s p =
    Post-if (message_bounded s.config envelope.message) _ _ (λ _. push_deferred-Post _ s p)
      (λ _. trace-Post TraceKind.queue_saturated _ 0 s p)
defer-Post (RaftEvent.timer_fired kind generation) s p = push_deferred-Post _ s p
defer-Post (RaftEvent.storage_complete op_id success error) s p = push_deferred-Post _ s p

refuse_event-Post : (event : RaftEvent) (s : RaftNode) → Post s → Post (refuse_event event s)
unfolding refuse_event
refuse_event-Post (RaftEvent.client_request token command) s p =
    emit_reply-Post token ClientStatus.unavailable s p
refuse_event-Post (RaftEvent.timer_fired kind generation) s p = p
refuse_event-Post (RaftEvent.message_received envelope) s p = p
refuse_event-Post (RaftEvent.storage_complete op_id success error) s p = p

dispatch_all-Post :
    (event : RaftEvent) (s : RaftNode) → Post (dispatch event s) → Post (dispatch_all event s)
unfolding dispatch_all
dispatch_all-Post event s p =
    drain-Post (length (dispatch event s).deferred_events) (dispatch event s) p

completion-Post :
    (event : RaftEvent) (s : RaftNode)
    → is_completion event ≡ true
    → s.effects ≡ []
    → Post s
    → Post (dispatch event s)
unfolding dispatch
completion-Post (RaftEvent.storage_complete op_id success error) s e fresh p =
    on_storage_complete-Post op_id success error s fresh p
completion-Post (RaftEvent.timer_fired kind generation) s e fresh p = absurd (cc)
completion-Post (RaftEvent.message_received envelope) s e fresh p = absurd (cc)
completion-Post (RaftEvent.client_request token command) s e fresh p = absurd (cc)

pub step-Post : (event : RaftEvent) (s : RaftNode) → Post s → Post (step event s)
unfolding step
step-Post event s p =
    let t = record s { effects = [] } in
    let q : Post t = Post-same refl refl refl refl refl tt p in
    Post-if (is_completion event) _ _
      (λ e. dispatch_all-Post event t (completion-Post event t e refl q))
      (λ _.
        Post-if (is_idle t) _ _
          (λ idle.
            Post-if (is_unavailable t.role) _ _ (λ _. refuse_event-Post event t q)
              (λ serving.
                dispatch_all-Post event t
                  (dispatch-Post event t (idle-Firm t q (is_idle-none t idle) serving))))
          (λ _. defer-Post event t q))
