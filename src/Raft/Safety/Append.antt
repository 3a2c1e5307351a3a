-- ===== src/Raft/Safety/Append.antt =====
-- AppendEntries at the follower, and its responses at the leader, keep the safety relation.
use det_log.Prelude.{
  ◌≡◌, ◌≤◌, ◌<◌, ◌+◌, ◌-◌, ℕ, suc, min, Bool, true, false, Option, none, some, List, [], ◌∷◌, arith,
  inl, inr, if◌then◌else◌, Bool-cases, ltb, leb, eqb, leb→lt, length, take, and_iff, tests,
  length-append, length-take,
}
use det_log.Prelude.Key.{nat_key}
use det_log.Model.{HardState, AppendEntries, TraceKind, LogEntry, entry_eq}
use det_log.Raft.State.{RaftNode, is_follower}
use det_log.Raft.Log.{append_rpc_overhead, last_log_index, term_at}
use det_log.Raft.Emit.{trace}
use det_log.Raft.Persist.{step_down}
use det_log.Raft.Replicate.{apply_committed}
use det_log.Raft.Append.{
  entries_valid, skip_matching, accept_stored, reject_append, truncate_log, replace_suffix,
  last_index_or, learned_commit, set_commit, finish_append, store_suffix, check_append,
  follow_leader, on_append_entries,
}
use det_log.Raft.Quiet.{
  Quiet-trans, trace-Quiet, fail_storage-Quiet, schedule_election-Quiet, send_message-Quiet,
  remove_pending_from-Quiet,
}
use det_log.Raft.Quiet.Sends.{reject_stored-Quiet}
use det_log.Raft.Entries.{
  Remaining, entries_valid_from-Consecutive, last_index_or-Consecutive, skip_matching-Remaining,
}
use det_log.Raft.Safety.{
  Safe, Safe-refl, Safe-trans, Safe-Quiet, Safe-if, Safe-extend, Safe-replace, Safe-commit,
}
use det_log.Raft.Safety.Commit.{apply_committed-Safe}
use det_log.Raft.Safety.Election.{persist_then-Safe, step_down-Safe}

pub accept_stored-Safe :
    (from rpc_id match_index : ℕ) (apply : Bool) (s : RaftNode)
    → Safe s.core (accept_stored from rpc_id match_index apply s).core
unfolding accept_stored
accept_stored-Safe from rpc_id match_index apply s =
    let t = trace TraceKind.commit "learned committed prefix from leader" s.commit_index s in
    let u = if apply then apply_committed t else s in
    Safe-trans s.core u.core _
      (Safe-if apply s.core (apply_committed t) s
        (λ _.
          Safe-trans s.core t.core _ (Safe-Quiet (trace-Quiet TraceKind.commit _ _ s))
            (apply_committed-Safe t))
        (λ _. Safe-refl s.core))
      (Safe-Quiet (Quiet-trans (schedule_election-Quiet u) (send_message-Quiet from _ _)))

set_commit-Safe :
    (request : AppendEntries) (match_index : ℕ) (s : RaftNode)
    → match_index ≤ length s.log
    → Safe s.core (set_commit (learned_commit request match_index s) s).core
unfolding learned_commit
set_commit-Safe request match_index s h =
    elim (Bool-cases (ltb s.commit_index (min request.leader_commit match_index))) [
      | inl e ↦ rw e (Safe-commit s.core _ (ground arith) (omega arith))
      | inr e ↦ rw e (Safe-refl s.core)
    ]

finish_append-Safe :
    (from : ℕ) (request : AppendEntries) (stored : Option HardState) (truncate_from : Option ℕ)
    (entries : List LogEntry) (s : RaftNode)
    → last_index_or request.prev_log_index request.entries ≤ length s.log
    → Safe s.core (finish_append from request stored truncate_from entries s).core
unfolding finish_append
finish_append-Safe from request stored truncate_from entries s h =
    let match_index = last_index_or request.prev_log_index request.entries in
    let t = set_commit (learned_commit request match_index s) s in
    Safe-trans s.core t.core _ (set_commit-Safe request match_index s h)
      (persist_then-Safe _ _ _ t (accept_stored-Safe from request.rpc_id match_index _ t))

-- What replace_suffix makes of the log, with the committed prefix before the index.
replace_suffix-Safe :
    (entry : LogEntry) (rest : List LogEntry) (s : RaftNode)
    → s.commit_index < entry.index
    → Safe s.core (replace_suffix entry.index (entry ∷ rest) s).core
unfolding replace_suffix truncate_log
replace_suffix-Safe entry rest s h = elim (Bool-cases (leb entry.index (last_log_index s.log))) [
  | inl e ↦
      let kept = (remove_pending_from-Quiet entry.index s).core in
      rw (e, (trace-Quiet TraceKind.log_change _ entry.index _).core, kept)
        (Safe-replace s.core (entry.index - 1) (entry ∷ rest) (omega arith))
  | inr e ↦
      rw (e, (trace-Quiet TraceKind.log_change _ entry.index _).core)
        (Safe-extend s.core (entry ∷ rest))
]

pub replace_suffix-length :
    (entry : LogEntry) (rest : List LogEntry) (s : RaftNode)
    → 0 < entry.index
    → entry.index ≤ suc (length s.log)
    → length (replace_suffix entry.index (entry ∷ rest) s).log ≡ entry.index + length rest
unfolding replace_suffix truncate_log
replace_suffix-length entry rest s pos h =
    elim (Bool-cases (leb entry.index (last_log_index s.log))) [
      | inl e ↦
          let kept = (remove_pending_from-Quiet entry.index s).core in
          rw (e, (trace-Quiet TraceKind.log_change _ entry.index _).core, kept)
            (omega (
              tests,
              e,
              length-append {0} (take (entry.index - 1) s.log) (entry ∷ rest),
              length-take {0} (entry.index - 1) s.log,
            ))
      | inr e ↦
          rw (e, (trace-Quiet TraceKind.log_change _ entry.index _).core)
            (omega (tests, e, length-append {0} s.log (entry ∷ rest)))
    ]

store_suffix-Safe :
    (from : ℕ) (request : AppendEntries) (stored : Option HardState) (rest : List LogEntry)
    (s : RaftNode)
    → Remaining s.log (last_index_or request.prev_log_index request.entries) rest
    → Safe s.core (store_suffix from request stored rest s).core
unfolding store_suffix
store_suffix-Safe from request stored [] s h = finish_append-Safe from request stored none [] s h
store_suffix-Safe from request stored (entry ∷ rest) s h =
    let t = replace_suffix entry.index (entry ∷ rest) s in
    Safe-if (leb entry.index s.commit_index) s.core _ _
      (λ _. Safe-Quiet (fail_storage-Quiet "leader attempted to overwrite a committed entry" s))
      λ above. Safe-trans s.core t.core _ (replace_suffix-Safe entry rest s (leb→lt _ _ above)) (
        finish_append-Safe from request stored _ (entry ∷ rest) t
          (omega (arith, h, replace_suffix-length entry rest s h.1 h.0)))

reject_append-Safe :
    (from rpc_id conflict_index conflict_term : ℕ) (stored : Option HardState) (s : RaftNode)
    → Safe s.core (reject_append from rpc_id conflict_index conflict_term stored s).core
unfolding reject_append
reject_append-Safe from rpc_id conflict_index conflict_term stored s =
    persist_then-Safe _ _ _ s
      (Safe-Quiet (reject_stored-Quiet from rpc_id conflict_index conflict_term s))

-- A request that is valid and starts inside the log leaves what `store_suffix` needs.
pub valid-Remaining :
    (request : AppendEntries) (s : RaftNode)
    → entries_valid s.config request ≡ true
    → request.prev_log_index ≤ length s.log
    → Remaining s.log
        (last_index_or request.prev_log_index request.entries)
        (skip_matching s.log request.entries)
unfolding entries_valid
valid-Remaining request s valid inside =
    let c =
      entries_valid_from-Consecutive s.config request.term request.prev_log_index
        append_rpc_overhead request.entries ((and_iff _ _).0 valid).1 in
    rw (last_index_or-Consecutive request.prev_log_index request.entries c)
      (skip_matching-Remaining s.log request.prev_log_index request.entries inside c)

check_append-Safe :
    (from : ℕ) (request : AppendEntries) (stored : Option HardState) (s : RaftNode)
    → Safe s.core (check_append from request stored s).core
unfolding check_append
check_append-Safe from request stored s =
    Safe-if (entries_valid s.config request) s.core _ _
      (λ valid.
        Safe-if (ltb (last_log_index s.log) request.prev_log_index) s.core _ _
          (λ _. reject_append-Safe from request.rpc_id _ 0 stored s)
          (λ inside.
            Safe-if (eqb (term_at s.log request.prev_log_index) request.prev_log_term) s.core _ _
              (λ _.
                store_suffix-Safe from request stored _ s
                  (valid-Remaining request s valid (ground arith)))
              (λ _. reject_append-Safe from request.rpc_id _ _ stored s)))
      (λ _. reject_append-Safe from request.rpc_id _ 0 stored s)

follow_leader-Safe : (from term : ℕ) (s : RaftNode) → Safe s.core (follow_leader from term s).core
unfolding follow_leader
follow_leader-Safe from term s =
    Safe-if (is_follower s.role) s.core (record s { leader_hint = some from }) _
      (λ _. Safe-refl s.core) (λ _. step_down-Safe term (some from) false s)

pub on_append_entries-Safe :
    (from : ℕ) (request : AppendEntries) (s : RaftNode)
    → Safe s.core (on_append_entries from request s).core
unfolding on_append_entries
on_append_entries-Safe from request s =
    let t = step_down request.term (some from) false s in
    let u = follow_leader from request.term s in
    Safe-if (eqb request.term 0) s.core s _ (λ _. Safe-refl s.core)
      λ _.
        Safe-if (eqb request.leader_id from) s.core _ s
          (λ _.
            Safe-if (ltb request.term s.hard_state.current_term) s.core _ _
              (λ _. Safe-Quiet (send_message-Quiet from _ s))
              (λ _.
                Safe-if (ltb s.hard_state.current_term request.term) s.core _ _
                  (λ _.
                    Safe-trans s.core t.core _ (step_down-Safe request.term (some from) false s)
                      (check_append-Safe from request (some t.hard_state) t))
                  (λ _.
                    Safe-trans s.core u.core _ (follow_leader-Safe from request.term s)
                      (check_append-Safe from request none u))))
          (λ _. Safe-refl s.core)
