-- ===== src/Raft/Queue/Store.antt =====
-- Storing, applying and advancing the commit index leave the queue.
use det_log.Prelude.{
  refl, ◌+◌, ◌-◌, ℕ, suc, zero, ◌&&◌, Option, none, some, inl, inr, Option-cases, Bool-cases, eqb,
}
use det_log.Model.{LogEntry, PersistBatch, ClientCommand, TraceKind, batch_empty}
use det_log.Raft.State.{RaftNode, Continuation, is_leader, is_idle}
use det_log.Raft.Log.{entry_at}
use det_log.Raft.Emit.{trace, emit}
use det_log.Raft.Persist.{begin_persist}
use det_log.Raft.Replicate.{
  commit_target, advance_applied, apply_detail, run_machine, apply_entry, apply_rounds,
  apply_committed, commit_stored, advance_commit, maybe_advance_commit,
}
use det_log.Raft.Quiet.{Quiet-trans, trace-Quiet, fail_storage-Quiet}
use det_log.Raft.Quiet.Sends.{answer_pending-Quiet, mark_ready-Quiet, send_all_appends-Quiet}
use det_log.Raft.Queue.{
  Shrinks, Shrinks-same, Shrinks-refl, Shrinks-trans, Shrinks-Quiet, Shrinks-if,
}

pub begin_persist-Shrinks :
    (batch : PersistBatch) (after : Continuation) (now : RaftNode → RaftNode) (s : RaftNode)
    → Shrinks s (now s)
    → Shrinks s (begin_persist batch after now s)
unfolding begin_persist trace emit
begin_persist-Shrinks batch after now s h = elim (Bool-cases (batch_empty batch)) [
  | inl e ↦ rw (e, begin_persist) h
  | inr full ↦ elim (Option-cases s.pending_storage) [
    | inr (p, e) ↦ rw (full, e, begin_persist) (Shrinks-same refl)
    | inl e ↦ elim (Bool-cases (eqb s.next_storage_op_id 0)) [
      | inl wrapped ↦
          rw (full, e, wrapped, begin_persist)
            (record { queue = (fail_storage-Quiet "storage operation id overflow" s).queue })
      | inr fresh ↦ rw (full, e, fresh, begin_persist) (Shrinks-same refl)
    ]
  ]
]

apply_entry-Shrinks : (entry : LogEntry) (s : RaftNode) → Shrinks s (apply_entry entry s)
unfolding apply_entry run_machine
apply_entry-Shrinks entry s =
    let t = (run_machine entry.command s).1 in
    let traced = trace TraceKind.apply (apply_detail entry.command) s.last_applied t in
    Shrinks-trans s t _ (ran entry.command) (
      Shrinks-trans t traced _ (Shrinks-Quiet (trace-Quiet TraceKind.apply _ _ t)) (
        Shrinks-Quiet (answer_pending-Quiet s.last_applied (run_machine entry.command s).0 traced)))
  where
    ran : (command : Option ClientCommand) → Shrinks s (run_machine command s).1
    ran none = Shrinks-refl s
    ran (some c) = Shrinks-same refl

apply_rounds-Shrinks : (rounds : ℕ) (s : RaftNode) → Shrinks s (apply_rounds rounds s)
unfolding apply_rounds
apply_rounds-Shrinks zero s = Shrinks-refl s
apply_rounds-Shrinks (suc rounds) s = elim (Option-cases (entry_at s.log (s.last_applied + 1))) [
  | inl e ↦
      rw (e, apply_rounds)
        (Shrinks-trans s (advance_applied s) _ (Shrinks-same refl) (
          Shrinks-Quiet
            (fail_storage-Quiet "commit index references a missing log entry" (advance_applied s))))
  | inr (entry, e) ↦
      let next = apply_entry entry (advance_applied s) in
      rw (e, apply_rounds)
        (Shrinks-trans s (advance_applied s) _ (Shrinks-same refl) (
          Shrinks-trans (advance_applied s) next _ (apply_entry-Shrinks entry (advance_applied s))
            (apply_rounds-Shrinks rounds next)))
]

pub apply_committed-Shrinks : (s : RaftNode) → Shrinks s (apply_committed s)
unfolding apply_committed
apply_committed-Shrinks s = apply_rounds-Shrinks (s.commit_index - s.last_applied) s

pub commit_stored-Shrinks : (s : RaftNode) → Shrinks s (commit_stored s)
unfolding commit_stored
commit_stored-Shrinks s =
    let traced = trace TraceKind.commit "leader durably advanced commit index" s.commit_index s in
    Shrinks-trans s traced _ (Shrinks-Quiet (trace-Quiet TraceKind.commit _ s.commit_index s)) (
      Shrinks-trans traced (apply_committed traced) _ (apply_committed-Shrinks traced) (
        Shrinks-Quiet
          (Quiet-trans (mark_ready-Quiet (apply_committed traced)) (send_all_appends-Quiet _))))

pub maybe_advance_commit-Shrinks : (s : RaftNode) → Shrinks s (maybe_advance_commit s)
unfolding maybe_advance_commit advance_commit
maybe_advance_commit-Shrinks s =
    let target = commit_target s s.durable_last_log_index in
    let raised = record s { core = record s.core { commit_index = target } } in
    Shrinks-if (is_leader s.role && is_idle s) s _ s
      (λ _.
        Shrinks-if (eqb target s.commit_index) s s _ (λ _. Shrinks-refl s)
          (λ _.
            Shrinks-trans s raised _ (Shrinks-same refl)
              (begin_persist-Shrinks _ _ commit_stored raised (commit_stored-Shrinks raised))))
      (λ _. Shrinks-refl s)
