-- ===== src/Raft/Durable/Apply.antt =====
-- Applying what is committed, and advancing the commit index.
use det_log.Prelude.{
  ◌≡◌, refl, ◌∙◌, ap, ℕ, suc, zero, ◌+◌, ◌-◌, Option, none, some, inl, inr, Option-cases, eqb, ◌&&◌,
}
use det_log.Model.{LogEntry, ClientCommand, TraceKind}
use det_log.Raft.State.{Core, RaftNode, is_leader, is_idle, Continuation}
use det_log.Raft.Log.{entry_at}
use det_log.Raft.Emit.{trace}
use det_log.Raft.Step.{batch_durable}
use det_log.Raft.Replicate.{
  advance_applied, apply_detail, commit_batch, maybe_advance_commit, advance_commit, commit_target,
  run_machine, apply_entry, apply_rounds, apply_committed, commit_stored, mark_ready,
}
use det_log.Raft.Quiet.{fail_storage-Quiet}
use det_log.Raft.Safety.Commit.{apply_entry-core}
use det_log.Raft.Durable.{Firm, Post, Post-Firm, Post-if}
use det_log.Raft.Durable.Sends.{
  trace-Firm, fail_storage-Firm, answer_pending-Firm, mark_ready-Firm, send_all_appends-Firm,
}
use det_log.Raft.Durable.Begin.{begin_persist-Post}

-- The entry's command runs; of the protocol state only the state machine changes.
run_machine-Firm :
    (command : Option ClientCommand) (s : RaftNode) → Firm s → Firm (run_machine command s).1
unfolding run_machine
run_machine-Firm none s f = f
run_machine-Firm (some c) s f = record {
  idle = f.idle;
  settled = record { hard = f.settled.hard; last = f.settled.last; commit = f.settled.commit };
  thrown = f.thrown;
  sent = f.sent;
}

advance_applied-Firm : (s : RaftNode) → Firm s → Firm (advance_applied s)
advance_applied-Firm s f = record {
  idle = f.idle;
  settled = record { hard = f.settled.hard; last = f.settled.last; commit = f.settled.commit };
  thrown = f.thrown;
  sent = f.sent;
}

apply_entry-Firm : (entry : LogEntry) (s : RaftNode) → Firm s → Firm (apply_entry entry s)
unfolding apply_entry
apply_entry-Firm entry s f =
    let t = (run_machine entry.command s).1 in
    let traced = trace TraceKind.apply (apply_detail entry.command) s.last_applied t in
    answer_pending-Firm s.last_applied (run_machine entry.command s).0 traced (
      trace-Firm TraceKind.apply (apply_detail entry.command) s.last_applied t
        (run_machine-Firm entry.command s f))

apply_rounds-Firm : (rounds : ℕ) (s : RaftNode) → Firm s → Firm (apply_rounds rounds s)
unfolding apply_rounds
apply_rounds-Firm zero s f = f
apply_rounds-Firm (suc rounds) s f = elim (Option-cases (entry_at s.log (s.last_applied + 1))) [
  | inl e ↦
      rw (e, apply_rounds)
        (fail_storage-Firm "commit index references a missing log entry" (advance_applied s)
          (advance_applied-Firm s f))
  | inr (entry, e) ↦
      rw (e, apply_rounds)
        (apply_rounds-Firm rounds (apply_entry entry (advance_applied s))
          (apply_entry-Firm entry (advance_applied s) (advance_applied-Firm s f)))
]

pub apply_committed-Firm : (s : RaftNode) → Firm s → Firm (apply_committed s)
unfolding apply_committed
apply_committed-Firm s f = apply_rounds-Firm (s.commit_index - s.last_applied) s f

-- Applying changes neither the hard state nor the log.
pub record Kept (s t : RaftNode) : Type 0 where
  pub hard : t.hard_state ≡ s.hard_state
  pub log : t.log ≡ s.log

apply_entry-Kept : (entry : LogEntry) (s : RaftNode) → Kept s (apply_entry entry s)
apply_entry-Kept entry s =
    let same = apply_entry-core entry s in
    record { hard = ap (λ (c : Core). c.hard_state) same; log = ap (λ (c : Core). c.log) same }

apply_rounds-Kept : (rounds : ℕ) (s : RaftNode) → Kept s (apply_rounds rounds s)
unfolding apply_rounds
apply_rounds-Kept zero s = record { hard = refl; log = refl }
apply_rounds-Kept (suc rounds) s = elim (Option-cases (entry_at s.log (s.last_applied + 1))) [
  | inl e ↦
      let q =
        fail_storage-Quiet "commit index references a missing log entry" (advance_applied s) in
      rw (e, apply_rounds)
        (record {
          hard = ap (λ (c : Core). c.hard_state) q.core;
          log = ap (λ (c : Core). c.log) q.core;
        })
  | inr (entry, e) ↦
      let a = apply_entry-Kept entry (advance_applied s) in
      let b = apply_rounds-Kept rounds (apply_entry entry (advance_applied s)) in
      rw (e, apply_rounds) (record { hard = b.hard ∙ a.hard; log = b.log ∙ a.log })
]

pub apply_committed-Kept : (s : RaftNode) → Kept s (apply_committed s)
unfolding apply_committed
apply_committed-Kept s = apply_rounds-Kept (s.commit_index - s.last_applied) s

pub commit_stored-Firm : (s : RaftNode) → Firm s → Firm (commit_stored s)
unfolding commit_stored
commit_stored-Firm s f =
    let t = trace TraceKind.commit "leader durably advanced commit index" s.commit_index s in
    let u = apply_committed t in
    send_all_appends-Firm (mark_ready u) (
      mark_ready-Firm u (apply_committed-Firm t (trace-Firm TraceKind.commit _ s.commit_index s f)))

pub maybe_advance_commit-Post : (s : RaftNode) → Firm s → Post (maybe_advance_commit s)
unfolding maybe_advance_commit advance_commit batch_durable
maybe_advance_commit-Post s f =
    let target = commit_target s s.durable_last_log_index in
    let raised = record s { core = record s.core { commit_index = target } } in
    Post-if (is_leader s.role && is_idle s) _ s
      (λ _.
        Post-if (eqb target s.commit_index) s _ (λ _. Post-Firm f)
          (λ _.
            begin_persist-Post (commit_batch target) Continuation.after_commit commit_stored raised
              (record { idle = f.idle; thrown = f.thrown; sent = f.sent })
              (record { hard = f.settled.hard; last = f.settled.last; commit = refl }) tt
              (λ g. Post-Firm (commit_stored-Firm raised g))))
      (λ _. Post-Firm f)
