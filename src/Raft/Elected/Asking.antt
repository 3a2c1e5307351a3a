-- ===== src/Raft/Elected/Asking.antt =====
-- A node of src/raft.cpp stands for election and asks the others for their votes.
use det_log.Prelude.{
  ◌≡◌, refl, sym, ◌∙◌, ap, ℕ, true, false, List, [], ◌∷◌, ◌++◌, none, some, append_assoc,
  append_nil, arith, Bool-cases, inl, inr, if◌then◌else◌, eqb, inc64, u64_max,
}
use det_log.Model.{Message, MessageEnvelope, TimerKind, TraceKind, batch_empty}
use det_log.Raft.State.{RaftNode, RaftEvent, RaftEffect, Continuation, is_leader, is_unavailable}
use det_log.Raft.Emit.{◌▹◌, trace, emit, send_message}
use det_log.Raft.Persist.{begin_persist}
use det_log.Raft.Election.{stand, hard_batch, send_others, begin_election}
use det_log.Raft.Step.{on_timer, batch_durable, dispatch, drain, dispatch_all, step}
use det_log.Raft.Elected.{step-serves}

-- The messages among the effects, in their order.
abbrev pub sends : List RaftEffect → List MessageEnvelope
sends [] = []
sends (RaftEffect.send envelope ∷ rest) = envelope ∷ sends rest
sends (_ ∷ rest) = sends rest

-- The same message for each member other than `self`.
abbrev pub envelopes : ℕ → Message → List ℕ → List MessageEnvelope
envelopes self message [] = []
envelopes self message (member ∷ rest) =
    let more = envelopes self message rest in
    if eqb member self
    then more
    else record { sender = self; receiver = member; message = message } ∷ more

-- A node that serves, whose timer may start an election that can be stored.
pub record CanStand (s : RaftNode) : Type 0 where
  pub follows : is_leader s.role ≡ false
  pub serves : is_unavailable s.role ≡ false
  pub idle : s.pending_storage ≡ none
  pub none_deferred : s.deferred_events ≡ []
  pub term : eqb s.hard_state.current_term u64_max ≡ false
  pub operation : eqb s.next_storage_op_id 0 ≡ false

-- The batch of the new term and the vote, being stored.
abbrev pub campaign : RaftNode → RaftNode
campaign s =
    let t =
      stand (record s { effects = [] })
      ▹ trace TraceKind.term_change "started election" 0
      ▹ trace TraceKind.role_change "became candidate" 0
      ▹ trace TraceKind.vote "recorded self vote" 0 in
    record t {
      next_storage_op_id = inc64 s.next_storage_op_id;
      pending_storage = some (record {
        op_id = s.next_storage_op_id;
        batch = hard_batch (stand s).hard_state;
        after_success = Continuation.after_election;
      });
    }
    ▹ trace TraceKind.storage_begin "storage operation started" 0
    ▹ emit (RaftEffect.persist s.next_storage_op_id (hard_batch (stand s).hard_state))

pub begin_election-campaign :
    (s : RaftNode) → CanStand s → begin_election (record s { effects = [] }) ≡ campaign s
unfolding begin_election begin_persist batch_empty trace emit
begin_election-campaign s c = rw (c.term, c.idle, c.operation) refl

pub timer-campaign :
    (s : RaftNode)
    → CanStand s
    → step (RaftEvent.timer_fired TimerKind.election s.election_generation) s ≡ campaign s
unfolding dispatch_all drain dispatch on_timer trace emit
timer-campaign s c =
    let current : eqb s.election_generation s.election_generation ≡ true = ground arith in
    let begins = begin_election-campaign s c in
    step-serves (RaftEvent.timer_fired TimerKind.election s.election_generation) s refl c.idle
      c.serves
    ∙ rw (current, c.follows, c.serves, begins, c.none_deferred) refl

-- The new term is durable; the requests go out next.
abbrev pub asking : RaftNode → RaftNode
asking s =
    let t = campaign s in
    trace TraceKind.storage_complete "storage operation completed" 0 (record t {
      pending_storage = none;
      effects = [];
      core = batch_durable (hard_batch (stand s).hard_state) t.core;
    })

pub send_others-effects :
    (self : ℕ) (members : List ℕ) (message : Message) (s : RaftNode)
    → s.config.node_id ≡ self
    → (more : List RaftEffect) × (send_others members message s
        ≡ record s { effects = s.effects ++ more })
      × (sends more ≡ envelopes self message members)
unfolding send_others send_message trace emit
send_others-effects self [] message s h =
    ([], ap (λ effects. record s { effects = effects }) (sym (append_nil s.effects)), refl)
send_others-effects self (member ∷ rest) message s h = elim (Bool-cases (eqb member self)) [
  | inl same ↦
      let (more, went, sent) = send_others-effects self rest message s h in
      let own : eqb member s.config.node_id ≡ true = ap (eqb member) h ∙ same in
      rw (own, same) (more, went, sent)
  | inr other ↦
      let t = send_message member message s in
      let (more, went, sent) = send_others-effects self rest message t h in
      let others : eqb member s.config.node_id ≡ false = ap (eqb member) h ∙ other in
      let note : RaftEffect = RaftEffect.trace (record {
        kind = TraceKind.send;
        node = s.config.node_id;
        term = s.hard_state.current_term;
        index = 0;
        detail = "protocol message emitted";
      }) in
      let envelope : MessageEnvelope = record {
        sender = s.config.node_id;
        receiver = member;
        message = message;
      } in
      let grouped : ((s.effects ++ note ∷ []) ++ RaftEffect.send envelope ∷ []) ++ more
          ≡ s.effects ++ note ∷ RaftEffect.send envelope ∷ more =
        append_assoc (s.effects ++ note ∷ []) (RaftEffect.send envelope ∷ []) more
        ∙ append_assoc s.effects (note ∷ []) (RaftEffect.send envelope ∷ more) in
      rw (others, other)
        (
          note ∷ RaftEffect.send envelope ∷ more,
          went ∙ ap (λ effects. record s { effects = effects }) grouped,
          ap (λ node. record { sender = node; receiver = member; message = message } ∷ sends more) h
              ∙ ap (λ rest. record { sender = self; receiver = member; message = message } ∷ rest)
                  sent,
        )
]
