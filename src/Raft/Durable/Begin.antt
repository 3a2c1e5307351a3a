-- ===== src/Raft/Durable/Begin.antt =====
-- begin_persist and its continuations that apply what is committed.
use det_log.Prelude.{
  ◌≡◌, refl, ℕ, true, Option, none, some, List, [], ◌∷◌, inl, inr, Bool-cases, eqb, ◌&&◌, ◌||◌, not,
  if◌then◌else◌, is_some, length, inc64,
}
use det_log.Model.{HardState, LogEntry, PersistBatch, TraceKind, batch_empty, is_nil, negate}
use det_log.Raft.State.{Core, RaftNode, RaftEffect, Continuation}
use det_log.Raft.Emit.{trace, emit}
use det_log.Raft.Persist.{begin_persist}
use det_log.Raft.Step.{batch_durable, or_value}
use det_log.Raft.Election.{persist_then}
use det_log.Raft.Durable.{Settled, Firm, Calm, Post, waiting, Promise, Post-if, emit-Sent}
use det_log.Raft.Durable.Emits.{trace-Sent, fail_storage-Post}

-- A batch that is empty makes nothing durable.
empty-Settled :
    (batch : PersistBatch) (c : Core)
    → batch_empty batch ≡ true
    → Settled (batch_durable batch c)
    → Settled c
unfolding batch_durable batch_empty
empty-Settled batch c e h =
    fields batch.hard_state batch.truncate_from batch.entries batch.commit_index e h.hard h.last
      h.commit
  where
    fields :
        (hard : Option HardState) (truncate_from : Option ℕ) (entries : List LogEntry)
        (commit : Option ℕ)
        → negate (is_some hard)
            && negate (is_some truncate_from)
            && is_nil entries
            && negate (is_some commit)
          ≡ true
        → or_value hard c.durable_hard_state ≡ c.hard_state
        → (if is_some truncate_from || not (is_nil entries)
            then length c.log
            else c.durable_last_log_index)
          ≡ length c.log
        → or_value commit c.durable_commit_index ≡ c.commit_index
        → Settled c
    fields none none [] none e a b d = record { hard = a; last = b; commit = d }
    fields (some x) truncate_from entries commit e a b d = absurd (cc)
    fields none (some x) entries commit e a b d = absurd (cc)
    fields none none (x ∷ xs) commit e a b d = absurd (cc)
    fields none none [] (some x) e a b d = absurd (cc)

-- The storage operation has begun.
abbrev begun_node : PersistBatch → Continuation → RaftNode → RaftNode
begun_node batch after s = record s {
  next_storage_op_id = inc64 s.next_storage_op_id;
  pending_storage =
      some (record { op_id = s.next_storage_op_id; batch = batch; after_success = after });
}

-- A promise is of the hard state, the log and the configuration.
pub Promise-same :
    (after : Continuation) (s t : RaftNode)
    → t.hard_state ≡ s.hard_state
    → t.log ≡ s.log
    → t.config ≡ s.config
    → Promise after s
    → Promise after t
Promise-same Continuation.after_election s t h l k p = rw (h, k) p
Promise-same (Continuation.after_vote from grant was_leader) s t h l k p = rw h p
Promise-same Continuation.after_step_down s t h l k p = tt
Promise-same Continuation.after_no_op s t h l k p = tt
Promise-same (Continuation.after_reject from rpc_id conflict_index conflict_term) s t h l k p = tt
Promise-same (Continuation.after_accept from rpc_id match_index apply) s t h l k p = rw l p
Promise-same Continuation.after_client s t h l k p = tt
Promise-same Continuation.after_commit s t h l k p = tt

begun :
    (batch : PersistBatch) (after : Continuation) (s : RaftNode)
    → Calm s
    → Settled (batch_durable batch s.core)
    → Promise after s
    → Post (
        emit
          (RaftEffect.persist s.next_storage_op_id batch)
          (trace TraceKind.storage_begin "storage operation started" 0 (begun_node batch after s)))
unfolding trace emit
begun batch after s c h p = record {
  outcome = waiting _ refl h (Promise-same after s _ refl refl refl p);
  thrown = c.thrown;
  sent =
      emit-Sent _
        (trace TraceKind.storage_begin "storage operation started" 0 (begun_node batch after s)) tt
        (trace-Sent TraceKind.storage_begin _ 0 (begun_node batch after s) c.sent);
}

pub begin_persist-Post :
    (batch : PersistBatch) (after : Continuation) (now : RaftNode → RaftNode) (s : RaftNode)
    → Calm s
    → Settled (batch_durable batch s.core)
    → Promise after s
    → (Firm s → Post (now s))
    → Post (begin_persist batch after now s)
unfolding begin_persist
begin_persist-Post batch after now s c h p k = elim (Bool-cases (batch_empty batch)) [
  | inl e ↦
      rw (e, begin_persist)
        (k (record {
          idle = c.idle;
          settled = empty-Settled batch s.core e h;
          thrown = c.thrown;
          sent = c.sent;
        }))
  | inr full ↦ elim (Bool-cases (eqb s.next_storage_op_id 0)) [
    | inl wrapped ↦
        rw (full, c.idle, wrapped, begin_persist)
          (fail_storage-Post "storage operation id overflow" s c.idle c.thrown c.sent)
    | inr fresh ↦ rw (full, c.idle, fresh, begin_persist) (begun batch after s c h p)
  ]
]

pub persist_then-Post :
    (batch : PersistBatch) (after : Continuation) (now : RaftNode → RaftNode) (s : RaftNode)
    → Calm s
    → Settled (batch_durable batch s.core)
    → Promise after s
    → (Firm s → Post (now s))
    → Post (persist_then batch after now s)
unfolding persist_then
persist_then-Post batch after now s c h p k =
    Post-if (batch_empty batch) (now s) (begin_persist batch after now s)
      (λ e. k (record {
        idle = c.idle;
        settled = empty-Settled batch s.core e h;
        thrown = c.thrown;
        sent = c.sent;
      }))
      (λ _. begin_persist-Post batch after now s c h p k)
