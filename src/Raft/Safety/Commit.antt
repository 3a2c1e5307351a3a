-- ===== src/Raft/Safety/Commit.antt =====
-- Storing, advancing the commit index and applying keep the safety relation.
use native.Mathlib.Numerals.{add-one}
use det_log.Prelude.{
  ◌≡◌, refl, ◌∙◌, ap, ◌≤◌, ◌<◌, ◌+◌, ◌-◌, ℕ, suc, zero, true, ◌&&◌, Option, none, some, arith, inl,
  inr, length, get_elem?, get_elem?-lt, get_elem?-some, Option-cases, Bool-cases, eqb,
}
use det_log.Model.{LogEntry, PersistBatch, ClientCommand, TraceKind, batch_empty}
use det_log.Raft.State.{Core, RaftNode, Continuation, is_leader, is_idle}
use det_log.Raft.Log.{entry_at}
use det_log.Raft.Emit.{trace, emit}
use det_log.Raft.Persist.{begin_persist}
use det_log.Raft.Replicate.{
  can_commit, commit_target, run_machine, apply_entry, apply_rounds, apply_committed, commit_stored,
  advance_commit, maybe_advance_commit,
}
use det_log.Raft.Recover.{apply_optional}
use det_log.Raft.Quiet.{Quiet-trans, trace-Quiet, fail_storage-Quiet}
use det_log.Raft.Quiet.Sends.{answer_pending-Quiet, mark_ready-Quiet, send_all_appends-Quiet}
use det_log.Raft.Safety.{
  WellFormed, Safe, Safe-refl, Safe-trans, Safe-Quiet, Safe-if, Safe-commit, Safe-apply,
}

-- The bookkeeping of begin_persist leaves the protocol state alone.
pub begin_persist-Safe :
    (batch : PersistBatch) (after : Continuation) (now : RaftNode → RaftNode) (s : RaftNode)
    → Safe s.core (now s).core
    → Safe s.core (begin_persist batch after now s).core
unfolding begin_persist trace emit
begin_persist-Safe batch after now s h = elim (Bool-cases (batch_empty batch)) [
  | inl e ↦ rw (e, begin_persist) h
  | inr full ↦ elim (Option-cases s.pending_storage) [
    | inr (p, e) ↦ rw (full, e, begin_persist) (Safe-refl s.core)
    | inl e ↦ elim (Bool-cases (eqb s.next_storage_op_id 0)) [
      | inl wrapped ↦
          rw (full, e, wrapped, begin_persist)
            (Safe-Quiet (fail_storage-Quiet "storage operation id overflow" s))
      | inr fresh ↦ rw (full, e, fresh, begin_persist) (Safe-refl s.core)
    ]
  ]
]

core-run_machine :
    (command : Option ClientCommand) (s : RaftNode)
    → (run_machine command s).1.core
      ≡ record s.core { state_machine = apply_optional command s.state_machine }
unfolding run_machine apply_optional
core-run_machine none s = refl
core-run_machine (some c) s = refl

pub apply_entry-core :
    (entry : LogEntry) (s : RaftNode)
    → (apply_entry entry s).core
      ≡ record s.core { state_machine = apply_optional entry.command s.state_machine }
unfolding apply_entry
apply_entry-core entry s =
    (Quiet-trans (trace-Quiet TraceKind.apply _ _ _) (answer_pending-Quiet _ _ _)).core
    ∙ core-run_machine entry.command s

apply_entry-Safe :
    (entry : LogEntry) (s : RaftNode)
    → s.last_applied < s.commit_index
    → entry_at s.log (s.last_applied + 1) ≡ some entry
    → Safe s.core
        (apply_entry entry
          (record s { core = record s.core { last_applied = s.last_applied + 1 } })).core
apply_entry-Safe entry s h found =
    let next : s.last_applied + 1 ≡ suc s.last_applied = omega arith in
    rw (apply_entry-core, next) (Safe-apply s.core entry h (rw next at found))

-- The entry that the next round applies.
next_entry :
    (s : RaftNode)
    → WellFormed s.core
    → s.last_applied < s.commit_index
    → (entry : LogEntry) × (entry_at s.log (s.last_applied + 1) ≡ some entry)
unfolding entry_at
next_entry s w h =
    let (entry, found) =
      get_elem?-some {A = LogEntry} s.last_applied s.log (omega (arith, w.commit_in)) in
    (entry, rw (add-one s.last_applied) found)

apply_rounds-Safe :
    (rounds : ℕ) (s : RaftNode)
    → s.last_applied + rounds ≤ s.commit_index
    → Safe s.core (apply_rounds rounds s).core
unfolding apply_rounds
apply_rounds-Safe zero s h w = Safe-refl s.core w
apply_rounds-Safe (suc rounds) s h w =
    let (entry, found) = next_entry s w (omega arith) in
    let next =
      apply_entry entry (record s { core = record s.core { last_applied = s.last_applied + 1 } }) in
    let same =
      apply_entry-core entry
        (record s { core = record s.core { last_applied = s.last_applied + 1 } }) in
    rw (found, apply_rounds)
      (Safe-trans s.core next.core _ (apply_entry-Safe entry s (omega arith) found)
        (apply_rounds-Safe rounds next (
          omega (
            arith,
            ap (λ (c : Core). c.last_applied) same,
            ap (λ (c : Core). c.commit_index) same,
          )))
        w)

pub apply_committed-Safe : (s : RaftNode) → Safe s.core (apply_committed s).core
unfolding apply_committed
apply_committed-Safe s w =
    apply_rounds-Safe (s.commit_index - s.last_applied) s (omega (arith, w.applied_in)) w

pub commit_stored-Safe : (s : RaftNode) → Safe s.core (commit_stored s).core
unfolding commit_stored
commit_stored-Safe s =
    let traced = trace TraceKind.commit "leader durably advanced commit index" s.commit_index s in
    Safe-trans s.core traced.core _ (Safe-Quiet (trace-Quiet TraceKind.commit _ s.commit_index s)) (
      Safe-trans traced.core (apply_committed traced).core _ (apply_committed-Safe traced) (
        Safe-Quiet
          (Quiet-trans (mark_ready-Quiet (apply_committed traced)) (send_all_appends-Quiet _))))

can_commit-in :
    (s : RaftNode) (below : ℕ) → can_commit s (suc below) ≡ true → suc below ≤ length s.log
unfolding can_commit entry_at
can_commit-in s below h = elim (Option-cases (get_elem? s.log below)) [
  | inl e ↦ cc (rw (e, can_commit) at h)
  | inr (entry, e) ↦ get_elem?-lt below s.log e
]

commit_target_bounds :
    (s : RaftNode) (from : ℕ)
    → s.commit_index ≤ length s.log
    → (s.commit_index ≤ commit_target s from) × (commit_target s from ≤ length s.log)
unfolding commit_target
commit_target_bounds s zero h = (omega arith, h)
commit_target_bounds s (suc below) h =
    ground (arith, commit_target_bounds s below h, can_commit-in s below)

advance_commit-Safe :
    (target : ℕ) (s : RaftNode)
    → s.commit_index ≤ target
    → target ≤ length s.log
    → Safe s.core (advance_commit target s).core
unfolding advance_commit
advance_commit-Safe target s h l =
    Safe-if (eqb target s.commit_index) s.core s _ (λ _. Safe-refl s.core)
      λ _.
        let raised = record s { core = record s.core { commit_index = target } } in
        Safe-trans s.core raised.core _ (Safe-commit s.core target h l)
          (begin_persist-Safe _ _ commit_stored raised (commit_stored-Safe raised))

pub maybe_advance_commit-Safe : (s : RaftNode) → Safe s.core (maybe_advance_commit s).core
unfolding maybe_advance_commit
maybe_advance_commit-Safe s w =
    let bounds = commit_target_bounds s s.durable_last_log_index w.commit_in in
    Safe-if (is_leader s.role && is_idle s) s.core _ s
      (λ _. advance_commit-Safe _ s bounds.0 bounds.1) (λ _. Safe-refl s.core) w
