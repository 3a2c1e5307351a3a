-- ===== src/Raft/Durable.antt =====
-- What the node may send: only what its disk holds already. The predicates, and the methods that emit.
pub mod Emits
pub mod Sends
pub mod Votes
pub mod Begin
pub mod Apply
pub mod Election
pub mod Vote
pub mod Become
pub mod Append
pub mod Accept
pub mod Leader
pub mod Client
pub mod Step
pub mod Drain
pub mod Gate
use det_log.Prelude.{
  ◌≡◌, refl, ◌∙◌, ap, ◌≤◌, ◌+◌, ◌-◌, ℕ, suc, zero, Bool, true, false, Option, none, some, List, [],
  ◌∷◌, ◌++◌, inl, inr, arith, if◌then◌else◌, length, All, All-append, String, ltb, eqb,
  Option-cases,
}
use det_log.Prelude.Map
use det_log.Prelude.Map.{Map}
use det_log.Model.{
  Bytes, ClientStatus, HardState, PersistBatch, LogEntry, Message, MessageEnvelope, TraceKind,
  SessionId, session_key,
}
use det_log.Raft.State.{
  RaftNode, Core, RaftEffect, RaftEvent, PendingStorage, PendingClientEntry, Continuation,
  is_unavailable,
}
use det_log.Raft.Emit.{emit}
use det_log.Raft.Quiet.{Quiet}
use det_log.Raft.Step.{batch_durable}

-- What a message claims of its sender's disk, given the durable hard state and the last index of the
-- durable log: the term, the vote of a candidate and of a grant, and the entries behind an
-- AppendEntries or a success.
abbrev pub MessageDurable : HardState → ℕ → MessageEnvelope → Type 0
MessageDurable hard last envelope = Claim envelope.message
  where
    Claim : Message → Type 0
    Claim (Message.request_vote r) =
        (r.term ≡ hard.current_term)
        × (hard.voted_for ≡ some r.candidate_id)
        × (r.last_log_index ≡ last)
    Claim (Message.request_vote_response r) =
        (r.term ≡ hard.current_term)
        × (r.vote_granted ≡ true → hard.voted_for ≡ some envelope.receiver)
    Claim (Message.append_entries r) =
        (r.term ≡ hard.current_term) × (r.prev_log_index + length r.entries ≤ last)
    Claim (Message.append_entries_response r) =
        (r.term ≡ hard.current_term) × (r.success ≡ true → r.match_index ≤ last)

abbrev pub EffectDurable : HardState → ℕ → RaftEffect → Type 0
EffectDurable hard last (RaftEffect.send envelope) = MessageDurable hard last envelope
EffectDurable hard last _ = Unit {0}

abbrev pub Sent : RaftNode → Type 0
Sent s = All (EffectDurable s.durable_hard_state s.durable_last_log_index) s.effects

-- The disk holds the protocol state.
pub record Settled (c : Core) : Type 0 where
  pub hard : c.durable_hard_state ≡ c.hard_state
  pub last : c.durable_last_log_index ≡ length c.log
  pub commit : c.durable_commit_index ≡ c.commit_index

-- No storage operation is pending, the disk is up to date, and all that was sent is durable.
pub record Firm (s : RaftNode) : Type 0 where
  pub idle : s.pending_storage ≡ none
  pub settled : Settled s.core
  pub thrown : s.thrown ≡ false
  pub sent : Sent s

-- The same, before what has changed is stored.
pub record Calm (s : RaftNode) : Type 0 where
  pub idle : s.pending_storage ≡ none
  pub thrown : s.thrown ≡ false
  pub sent : Sent s

pub Calm-Firm : {s : RaftNode} → Firm s → Calm s
Calm-Firm f = record { idle = f.idle; thrown = f.thrown; sent = f.sent }

-- What a continuation relies on, from begin_persist until its completion.
abbrev pub Promise : Continuation → RaftNode → Type 0
Promise Continuation.after_election s = s.hard_state.voted_for ≡ some s.config.node_id
Promise (Continuation.after_vote from grant was_leader) s =
    grant ≡ true → s.hard_state.voted_for ≡ some from
Promise (Continuation.after_accept from rpc_id match_index apply) s = match_index ≤ length s.log
Promise _ s = Unit {0}

-- How a handler may leave the node: failed, with the disk up to date, or waiting for a batch that
-- brings the disk up to date.
pub data Outcome (s : RaftNode) : Type 0 where
  failed : s.pending_storage ≡ none → is_unavailable s.role ≡ true → Outcome s
  settled : s.pending_storage ≡ none → Settled s.core → Outcome s
  waiting :
      (p : PendingStorage)
      → s.pending_storage ≡ some p
      → Settled (batch_durable p.batch s.core)
      → Promise p.after_success s
      → Outcome s

pub record Post (s : RaftNode) : Type 0 where
  pub outcome : Outcome s
  pub thrown : s.thrown ≡ false
  pub sent : Sent s

pub Post-Firm : {s : RaftNode} → Firm s → Post s
Post-Firm f = record { outcome = settled f.idle f.settled; thrown = f.thrown; sent = f.sent }

-- A change of other fields.
pub Firm-same :
    {s t : RaftNode}
    → t.core ≡ s.core
    → t.pending_storage ≡ s.pending_storage
    → t.thrown ≡ s.thrown
    → t.effects ≡ s.effects
    → Firm s
    → Firm t
Firm-same c p h e f = record {
  idle = p ∙ f.idle;
  settled = rw c f.settled;
  thrown = h ∙ f.thrown;
  sent = rw (c, e) f.sent;
}

pub Firm-if :
    (b : Bool) (s t : RaftNode)
    → (b ≡ true → Firm s)
    → (b ≡ false → Firm t)
    → Firm (if b then s else t)
Firm-if true s t p q = p refl
Firm-if false s t p q = q refl

pub Post-if :
    (b : Bool) (s t : RaftNode)
    → (b ≡ true → Post s)
    → (b ≡ false → Post t)
    → Post (if b then s else t)
Post-if true s t p q = p refl
Post-if false s t p q = q refl

pub emit-Sent :
    (effect : RaftEffect) (s : RaftNode)
    → EffectDurable s.durable_hard_state s.durable_last_log_index effect
    → Sent s
    → Sent (emit effect s)
unfolding emit
emit-Sent effect s d h = All-append _ s.effects (effect ∷ []) h (d, tt)

-- A quiet method keeps a firm node firm if what it sends is durable.
pub Firm-Quiet : {s t : RaftNode} → Quiet s t → (Sent s → Sent t) → Firm s → Firm t
Firm-Quiet q k f = record {
  idle = q.idle f.idle;
  settled = rw q.core f.settled;
  thrown = q.thrown ∙ f.thrown;
  sent = k f.sent;
}
