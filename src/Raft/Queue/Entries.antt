-- ===== src/Raft/Queue/Entries.antt =====
-- AppendEntries at the follower leaves the queue, or empties it.
use det_log.Prelude.{
  refl, ℕ, Bool, false, Option, none, some, List, [], ◌∷◌, inl, inr, if◌then◌else◌, Bool-cases, ltb,
  leb, eqb,
}
use det_log.Prelude.Key.{nat_key}
use det_log.Model.{HardState, AppendEntries, TraceKind, LogEntry, entry_eq}
use det_log.Raft.State.{RaftNode, is_follower}
use det_log.Raft.Log.{last_log_index, term_at}
use det_log.Raft.Emit.{trace, emit}
use det_log.Raft.Persist.{step_down}
use det_log.Raft.Replicate.{apply_committed}
use det_log.Raft.Append.{
  entries_valid, accept_stored, reject_append, truncate_log, replace_suffix, last_index_or,
  learned_commit, set_commit, finish_append, store_suffix, check_append, follow_leader,
  on_append_entries,
}
use det_log.Raft.Quiet.{
  Quiet-trans, trace-Quiet, fail_storage-Quiet, schedule_election-Quiet, send_message-Quiet,
  remove_pending_from-Quiet,
}
use det_log.Raft.Quiet.Sends.{reject_stored-Quiet}
use det_log.Raft.Queue.{
  Shrinks, Shrinks-same, Shrinks-refl, Shrinks-trans, Shrinks-Quiet, Shrinks-if,
}
use det_log.Raft.Queue.Store.{apply_committed-Shrinks}
use det_log.Raft.Queue.Vote.{persist_then-Shrinks, step_down-Shrinks}

pub accept_stored-Shrinks :
    (from rpc_id match_index : ℕ) (apply : Bool) (s : RaftNode)
    → Shrinks s (accept_stored from rpc_id match_index apply s)
unfolding accept_stored
accept_stored-Shrinks from rpc_id match_index apply s =
    let t = trace TraceKind.commit "learned committed prefix from leader" s.commit_index s in
    let u = if apply then apply_committed t else s in
    Shrinks-trans s u _
      (Shrinks-if apply s (apply_committed t) s
        (λ _.
          Shrinks-trans s t _ (Shrinks-Quiet (trace-Quiet TraceKind.commit _ _ s))
            (apply_committed-Shrinks t))
        (λ _. Shrinks-refl s))
      (Shrinks-Quiet (Quiet-trans (schedule_election-Quiet u) (send_message-Quiet from _ _)))

set_commit-Shrinks : (commit : Option ℕ) (s : RaftNode) → Shrinks s (set_commit commit s)
set_commit-Shrinks none s = Shrinks-refl s
set_commit-Shrinks (some index) s = Shrinks-same refl

finish_append-Shrinks :
    (from : ℕ) (request : AppendEntries) (stored : Option HardState) (truncate_from : Option ℕ)
    (entries : List LogEntry) (s : RaftNode)
    → Shrinks s (finish_append from request stored truncate_from entries s)
unfolding finish_append
finish_append-Shrinks from request stored truncate_from entries s =
    let match_index = last_index_or request.prev_log_index request.entries in
    let commit = learned_commit request match_index s in
    let t = set_commit commit s in
    Shrinks-trans s t _ (set_commit-Shrinks commit s)
      (persist_then-Shrinks _ _ _ t (accept_stored-Shrinks from request.rpc_id match_index _ t))

replace_suffix-Shrinks :
    (index : ℕ) (entries : List LogEntry) (s : RaftNode)
    → Shrinks s (replace_suffix index entries s)
unfolding replace_suffix truncate_log trace emit
replace_suffix-Shrinks index entries s = elim (Bool-cases (leb index (last_log_index s.log))) [
  | inl e ↦ rw e (record { queue = (remove_pending_from-Quiet index s).queue })
  | inr e ↦ rw e (Shrinks-same refl)
]

store_suffix-Shrinks :
    (from : ℕ) (request : AppendEntries) (stored : Option HardState) (rest : List LogEntry)
    (s : RaftNode)
    → Shrinks s (store_suffix from request stored rest s)
unfolding store_suffix
store_suffix-Shrinks from request stored [] s = finish_append-Shrinks from request stored none [] s
store_suffix-Shrinks from request stored (entry ∷ rest) s =
    let t = replace_suffix entry.index (entry ∷ rest) s in
    Shrinks-if (leb entry.index s.commit_index) s _ _
      (λ _. Shrinks-Quiet (fail_storage-Quiet "leader attempted to overwrite a committed entry" s))
      (λ _.
        Shrinks-trans s t _ (replace_suffix-Shrinks entry.index (entry ∷ rest) s)
          (finish_append-Shrinks from request stored _ (entry ∷ rest) t))

reject_append-Shrinks :
    (from rpc_id conflict_index conflict_term : ℕ) (stored : Option HardState) (s : RaftNode)
    → Shrinks s (reject_append from rpc_id conflict_index conflict_term stored s)
unfolding reject_append
reject_append-Shrinks from rpc_id conflict_index conflict_term stored s =
    persist_then-Shrinks _ _ _ s
      (Shrinks-Quiet (reject_stored-Quiet from rpc_id conflict_index conflict_term s))

check_append-Shrinks :
    (from : ℕ) (request : AppendEntries) (stored : Option HardState) (s : RaftNode)
    → Shrinks s (check_append from request stored s)
unfolding check_append
check_append-Shrinks from request stored s =
    Shrinks-if (entries_valid s.config request) s _ _
      (λ _.
        Shrinks-if (ltb (last_log_index s.log) request.prev_log_index) s _ _
          (λ _. reject_append-Shrinks from request.rpc_id _ 0 stored s)
          (λ _.
            Shrinks-if (eqb (term_at s.log request.prev_log_index) request.prev_log_term) s _ _
              (λ _. store_suffix-Shrinks from request stored _ s)
              (λ _. reject_append-Shrinks from request.rpc_id _ _ stored s)))
      (λ _. reject_append-Shrinks from request.rpc_id _ 0 stored s)

follow_leader-Shrinks : (from term : ℕ) (s : RaftNode) → Shrinks s (follow_leader from term s)
unfolding follow_leader
follow_leader-Shrinks from term s =
    Shrinks-if (is_follower s.role) s (record s { leader_hint = some from }) _
      (λ _. Shrinks-same refl) (λ _. step_down-Shrinks term (some from) false s)

pub on_append_entries-Shrinks :
    (from : ℕ) (request : AppendEntries) (s : RaftNode)
    → Shrinks s (on_append_entries from request s)
unfolding on_append_entries
on_append_entries-Shrinks from request s =
    let t = step_down request.term (some from) false s in
    let u = follow_leader from request.term s in
    Shrinks-if (eqb request.term 0) s s _ (λ _. Shrinks-refl s)
      λ _.
        Shrinks-if (eqb request.leader_id from) s _ s
          (λ _.
            Shrinks-if (ltb request.term s.hard_state.current_term) s _ _
              (λ _. Shrinks-Quiet (send_message-Quiet from _ s))
              (λ _.
                Shrinks-if (ltb s.hard_state.current_term request.term) s _ _
                  (λ _.
                    Shrinks-trans s t _ (step_down-Shrinks request.term (some from) false s)
                      (check_append-Shrinks from request (some t.hard_state) t))
                  (λ _.
                    Shrinks-trans s u _ (follow_leader-Shrinks from request.term s)
                      (check_append-Shrinks from request none u))))
          (λ _. Shrinks-refl s)
