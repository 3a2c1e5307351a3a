-- ===== src/Raft/Append.antt =====
-- src/raft.cpp: on_append_entries, at the follower.
use det_log.Prelude.{
  ℕ, ◌+◌, ◌-◌, min, Bool, true, false, ◌&&◌, List, [], ◌∷◌, ◌++◌, Option, none, some, if◌then◌else◌,
  inc64, sub64, ltb, leb, eqb, length, take, u64_max, is_some,
}
use det_log.Prelude.Key.{nat_key, ◌==◌, option_eq}
use det_log.Model.{HardState, TraceKind, PersistBatch, LogEntry, Message, AppendEntries, entry_eq}
use det_log.Raft.State.{RaftNode, RaftConfig, Continuation, is_follower}
use det_log.Raft.Log.{
  append_rpc_overhead, optional_command_allowed, last_log_index, entry_at, term_at, entry_bytes,
  first_index_of_term,
}
use det_log.Raft.Emit.{trace, send_message, schedule_election, ◌▹◌}
use det_log.Raft.Persist.{fail_storage, step_down, remove_pending_from}
use det_log.Raft.Replicate.{apply_committed}
use det_log.Raft.Election.{persist_then, optional_hard}

-- The loop that validates the entries; `expected` is the index before the next one.
unfoldable pub entries_valid_from : RaftConfig → ℕ → ℕ → ℕ → List LogEntry → Bool
entries_valid_from config term expected bytes [] = true
entries_valid_from config term expected bytes (entry ∷ rest) =
    let more = entries_valid_from config term (expected + 1) (bytes + entry_bytes entry) rest in
    if eqb expected u64_max
    then false
    else if ltb (sub64 config.max_append_bytes_per_rpc bytes) (entry_bytes entry)
    then false
    else if eqb entry.index (expected + 1)
        && ltb 0 entry.term
        && leb entry.term term
        && optional_command_allowed config entry.command
    then more
    else false

unfoldable pub entries_valid : RaftConfig → AppendEntries → Bool
entries_valid config request =
    leb (length request.entries) config.max_append_entries_per_rpc
    && entries_valid_from config request.term request.prev_log_index append_rpc_overhead
        request.entries

-- `while (incoming < size && local entry equal)`: the entries that are left.
unfoldable pub skip_matching : List LogEntry → List LogEntry → List LogEntry
skip_matching log [] = []
skip_matching log (entry ∷ rest) =
    let more = skip_matching log rest in
    if entry_at log entry.index == some entry then more else entry ∷ rest

abbrev append_response : ℕ → ℕ → Bool → ℕ → ℕ → ℕ → Message
append_response term rpc_id success match_index conflict_index conflict_term =
    Message.append_entries_response (record {
      term = term;
      rpc_id = rpc_id;
      success = success;
      match_index = match_index;
      conflict_index = conflict_index;
      conflict_term = conflict_term;
    })

-- The lambdas `reject`, `missing` and `mismatch`.
unfoldable pub reject_stored : ℕ → ℕ → ℕ → ℕ → RaftNode → RaftNode
reject_stored from rpc_id conflict_index conflict_term s =
    schedule_election s
    ▹ send_message from
        (append_response s.hard_state.current_term rpc_id false 0 conflict_index conflict_term)

-- The lambda `accept`.
unfoldable pub accept_stored : ℕ → ℕ → ℕ → Bool → RaftNode → RaftNode
accept_stored from rpc_id match_index apply s =
    s
    ▹ (λ t.
        if apply
        then (trace TraceKind.commit "learned committed prefix from leader" t.commit_index t
            ▹ apply_committed)
        else t)
    ▹ schedule_election
    ▹ send_message from (append_response s.hard_state.current_term rpc_id true match_index 0 0)

unfoldable pub reject_append : ℕ → ℕ → ℕ → ℕ → Option HardState → RaftNode → RaftNode
reject_append from rpc_id conflict_index conflict_term stored s =
    persist_then (optional_hard stored)
      (Continuation.after_reject from rpc_id conflict_index conflict_term)
      (reject_stored from rpc_id conflict_index conflict_term) s

-- log_.resize(index - 1), after the clients of the dead suffix are answered
unfoldable pub truncate_log : ℕ → RaftNode → RaftNode
truncate_log index s =
    let t = remove_pending_from index s in
    record t { core = record t.core { log = take (index - 1) t.log } }

abbrev pub extend_log : List LogEntry → RaftNode → RaftNode
extend_log entries s = record s { core = record s.core { log = s.log ++ entries } }

-- Puts the entries from `index` on in place of what the log holds there.
unfoldable pub replace_suffix : ℕ → List LogEntry → RaftNode → RaftNode
replace_suffix index entries s =
    (if leb index (last_log_index s.log) then truncate_log index s else s)
    ▹ extend_log entries
    ▹ trace TraceKind.log_change "accepted replicated log suffix" index

abbrev pub last_index_or : ℕ → List LogEntry → ℕ
last_index_or index [] = index
last_index_or index (entry ∷ rest) = last_index_or entry.index rest

unfoldable pub learned_commit : AppendEntries → ℕ → RaftNode → Option ℕ
learned_commit request match_index s =
    let new_commit = min request.leader_commit match_index in
    if ltb s.commit_index new_commit then some new_commit else none

abbrev pub set_commit : Option ℕ → RaftNode → RaftNode
set_commit none s = s
set_commit (some index) s = record s { core = record s.core { commit_index = index } }

abbrev pub append_stored_batch :
    Option HardState → Option ℕ → List LogEntry → Option ℕ → PersistBatch
append_stored_batch stored truncate_from entries commit = record {
  hard_state = stored;
  truncate_from = truncate_from;
  entries = entries;
  commit_index = commit;
}

-- From match_index on; the batch has the hard state, the truncation and the entries so far.
unfoldable pub finish_append :
    ℕ → AppendEntries → Option HardState → Option ℕ → List LogEntry → RaftNode → RaftNode
finish_append from request stored truncate_from entries s =
    let match_index = last_index_or request.prev_log_index request.entries in
    let commit = learned_commit request match_index s in
    persist_then (append_stored_batch stored truncate_from entries commit)
      (Continuation.after_accept from request.rpc_id match_index (is_some commit))
      (accept_stored from request.rpc_id match_index (is_some commit)) (set_commit commit s)

-- `rest` are the entries that the log does not hold already.
unfoldable pub store_suffix :
    ℕ → AppendEntries → Option HardState → List LogEntry → RaftNode → RaftNode
store_suffix from request stored [] s = finish_append from request stored none [] s
store_suffix from request stored (entry ∷ rest) s =
    if leb entry.index s.commit_index
    then fail_storage "leader attempted to overwrite a committed entry" s
    else finish_append from request stored
        (if leb entry.index (last_log_index s.log) then some entry.index else none) (entry ∷ rest)
        (replace_suffix entry.index (entry ∷ rest) s)

-- After the terms are settled.
unfoldable pub check_append : ℕ → AppendEntries → Option HardState → RaftNode → RaftNode
check_append from request stored s =
    if entries_valid s.config request
    then (if ltb (last_log_index s.log) request.prev_log_index
        then reject_append from request.rpc_id (inc64 (last_log_index s.log)) 0 stored s
        else if eqb (term_at s.log request.prev_log_index) request.prev_log_term
        then store_suffix from request stored (skip_matching s.log request.entries) s
        else reject_append from request.rpc_id (first_index_of_term s.log request.prev_log_index)
            (term_at s.log request.prev_log_index) stored s)
    else reject_append from request.rpc_id (inc64 (last_log_index s.log)) 0 stored s

-- The request's term is the node's.
unfoldable pub follow_leader : ℕ → ℕ → RaftNode → RaftNode
follow_leader from term s =
    if is_follower s.role
    then record s { leader_hint = some from }
    else step_down term (some from) false s

unfoldable pub on_append_entries : ℕ → AppendEntries → RaftNode → RaftNode
on_append_entries from request s =
    if eqb request.term 0
    then s
    else if eqb request.leader_id from
    then (if ltb request.term s.hard_state.current_term
        then send_message from
            (append_response s.hard_state.current_term request.rpc_id false 0
              (inc64 (last_log_index s.log)) 0)
            s
        else if ltb s.hard_state.current_term request.term
        then (let t = step_down request.term (some from) false s in
            check_append from request (some t.hard_state) t)
        else check_append from request none (follow_leader from request.term s))
    else s
