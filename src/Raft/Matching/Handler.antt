-- ===== src/Raft/Matching/Handler.antt =====
-- on_append_entries, for a request that the follower accepts.
use det_log.Prelude.{
  ◌≡◌, refl, sym, ◌∙◌, ap, subst, ◌≤◌, ◌<◌, ◌-◌, ℕ, Bool, String, true, false, Option, none, some,
  List, [], ◌∷◌, ◌++◌, arith, inl, inr, ◌⊎◌, Bool-cases, Option-cases, length, take, take-all, ltb,
  leb, eqb, and_iff, is_some, leb→le,
}
use det_log.Model.{
  HardState, LogEntry, AppendEntries, PersistBatch, TraceKind, batch_empty, entry_eq,
}
use det_log.Raft.State.{RaftNode, Core, Continuation, is_unavailable, is_follower}
use det_log.Raft.Log.{last_log_index, term_at, append_rpc_overhead}
use det_log.Raft.Emit.{trace, emit}
use det_log.Raft.Persist.{begin_persist, step_down}
use det_log.Raft.Replicate.{apply_committed}
use det_log.Raft.Election.{persist_then}
use det_log.Raft.Append.{
  entries_valid, skip_matching, accept_stored, truncate_log, replace_suffix, last_index_or,
  learned_commit, set_commit, finish_append, store_suffix, check_append, follow_leader,
  on_append_entries,
}
use det_log.Raft.Quiet.{
  Quiet-trans, fail_storage-Quiet, schedule_election-Quiet, send_message-Quiet,
  remove_pending_from-Quiet,
}
use det_log.Raft.Entries.{entries_valid_from-Consecutive}
use det_log.Raft.Durable.Apply.{apply_committed-Kept}
use det_log.Raft.Durable.Append.{set_commit-log}
use det_log.Raft.Durable.Emits.{fail_storage-role}
use det_log.Raft.Matching.{
  Merged, spliced, Overwrites, Clash, skip_matching-Clash, skip_matching-Merged,
}

persist_then-log :
    (batch : PersistBatch) (after : Continuation) (now : RaftNode → RaftNode) (s : RaftNode)
    → (now s).log ≡ s.log
    → (persist_then batch after now s).log ≡ s.log
unfolding persist_then begin_persist trace emit
persist_then-log batch after now s h = elim (Bool-cases (batch_empty batch)) [
  | inl e ↦ rw (e, persist_then) h
  | inr full ↦ elim (Option-cases s.pending_storage) [
    | inr (p, e) ↦ rw (full, e, persist_then, begin_persist) refl
    | inl e ↦ elim (Bool-cases (eqb s.next_storage_op_id 0)) [
      | inl wrapped ↦
          rw (full, e, wrapped, persist_then, begin_persist)
            (ap (λ (c : Core). c.log) (fail_storage-Quiet "storage operation id overflow" s).core)
      | inr fresh ↦ rw (full, e, fresh, persist_then, begin_persist) refl
    ]
  ]
]

accept_stored-log :
    (from rpc_id match_index : ℕ) (apply : Bool) (s : RaftNode)
    → (accept_stored from rpc_id match_index apply s).log ≡ s.log
unfolding accept_stored trace emit
accept_stored-log from rpc_id match_index false s =
    ap (λ (c : Core). c.log)
      (Quiet-trans (schedule_election-Quiet s) (send_message-Quiet from _ _)).core
accept_stored-log from rpc_id match_index true s =
    let t = trace TraceKind.commit "learned committed prefix from leader" s.commit_index s in
    ap (λ (c : Core). c.log)
      (Quiet-trans (schedule_election-Quiet (apply_committed t)) (send_message-Quiet from _ _)).core
    ∙ (apply_committed-Kept t).log

finish_append-log :
    (from : ℕ) (request : AppendEntries) (stored : Option HardState) (truncate_from : Option ℕ)
    (entries : List LogEntry) (s : RaftNode)
    → (finish_append from request stored truncate_from entries s).log ≡ s.log
unfolding finish_append
finish_append-log from request stored truncate_from entries s =
    let match_index = last_index_or request.prev_log_index request.entries in
    let commit = learned_commit request match_index s in
    persist_then-log _ _ _ (set_commit commit s)
      (accept_stored-log from request.rpc_id match_index (is_some commit) (set_commit commit s))
    ∙ set_commit-log commit s

replace_suffix-log :
    (entry : LogEntry) (rest : List LogEntry) (s : RaftNode)
    → (replace_suffix entry.index (entry ∷ rest) s).log ≡ spliced s.log (entry ∷ rest)
unfolding replace_suffix truncate_log trace emit
replace_suffix-log entry rest s = elim (Bool-cases (leb entry.index (last_log_index s.log))) [
  | inl e ↦ rw e (
      ap (λ (c : Core). take (entry.index - 1) c.log ++ entry ∷ rest)
        (remove_pending_from-Quiet entry.index s).core)
  | inr e ↦
      rw e (ap (λ log. log ++ entry ∷ rest) (sym (take-all (entry.index - 1) s.log (ground arith))))
]

-- The log after the call: the splice, or, where the request would overwrite a committed entry, the old
-- log in a node that has failed.
abbrev pub Spliced : List LogEntry → ℕ → List LogEntry → RaftNode → Type 0
Spliced log commit rest t =
    ((t.log ≡ log) × (is_unavailable t.role ≡ true) × Overwrites commit rest)
    ⊎ (t.log ≡ spliced log rest)

store_suffix-Spliced :
    (from : ℕ) (request : AppendEntries) (stored : Option HardState) (rest : List LogEntry)
    (s : RaftNode)
    → Spliced s.log s.commit_index rest (store_suffix from request stored rest s)
unfolding store_suffix
store_suffix-Spliced from request stored [] s =
    inr (finish_append-log from request stored none [] s)
store_suffix-Spliced from request stored (entry ∷ rest) s =
    elim (Bool-cases (leb entry.index s.commit_index)) [
      | inl e ↦
          let detail : String = "leader attempted to overwrite a committed entry" in
          rw e (
            inl (
              ap (λ (c : Core). c.log) (fail_storage-Quiet detail s).core,
              ap is_unavailable (fail_storage-role detail s),
              leb→le _ _ e,
            ))
      | inr e ↦ rw e (
          inr (
            finish_append-log from request stored _ (entry ∷ rest)
              (replace_suffix entry.index (entry ∷ rest) s)
            ∙ replace_suffix-log entry rest s))
    ]

-- The request is from a leader of this term or a later one, its entries are valid, and it starts at an
-- entry that the log holds.
pub record Accepted (from : ℕ) (request : AppendEntries) (s : RaftNode) : Type 0 where
  pub real : 0 < request.term
  pub sender : request.leader_id ≡ from
  pub current : s.hard_state.current_term ≤ request.term
  pub valid : entries_valid s.config request ≡ true
  pub inside : request.prev_log_index ≤ length s.log
  pub agrees : term_at s.log request.prev_log_index ≡ request.prev_log_term

check_append-Spliced :
    (from : ℕ) (request : AppendEntries) (stored : Option HardState) (s : RaftNode)
    → entries_valid s.config request ≡ true
    → request.prev_log_index ≤ length s.log
    → term_at s.log request.prev_log_index ≡ request.prev_log_term
    → Spliced s.log s.commit_index
        (skip_matching s.log request.entries)
        (check_append from request stored s)
unfolding check_append
check_append-Spliced from request stored s valid inside agrees =
    let reaches : ltb (last_log_index s.log) request.prev_log_index ≡ false = ground arith in
    let same : eqb (term_at s.log request.prev_log_index) request.prev_log_term ≡ true =
      ground arith in
    rw (valid, reaches, same, check_append)
      (store_suffix-Spliced from request stored (skip_matching s.log request.entries) s)

step_down-log :
    (term : ℕ) (hint : Option ℕ) (s : RaftNode)
    → ((step_down term hint false s).log ≡ s.log)
      × ((step_down term hint false s).config ≡ s.config)
      × ((step_down term hint false s).commit_index ≡ s.commit_index)
unfolding step_down trace emit
step_down-log term hint s = ground arith

-- The same, after a change of role or hard state.
moved-Spliced :
    (from : ℕ) (request : AppendEntries) (stored : Option HardState) (s u : RaftNode)
    → Accepted from request s
    → u.log ≡ s.log
    → u.config ≡ s.config
    → u.commit_index ≡ s.commit_index
    → Spliced s.log s.commit_index
        (skip_matching s.log request.entries)
        (check_append from request stored u)
moved-Spliced from request stored s u a l c k =
    let valid : entries_valid u.config request ≡ true = rw c a.valid in
    let inside : request.prev_log_index ≤ length u.log = rw l a.inside in
    let agrees : term_at u.log request.prev_log_index ≡ request.prev_log_term = rw l a.agrees in
    subst
      (λ log.
        Spliced log s.commit_index (skip_matching log request.entries)
          (check_append from request stored u))
      l
      (subst
        (λ commit.
          Spliced u.log commit (skip_matching u.log request.entries)
            (check_append from request stored u))
        k (check_append-Spliced from request stored u valid inside agrees))

follow_leader-log :
    (from term : ℕ) (s : RaftNode)
    → ((follow_leader from term s).log ≡ s.log)
      × ((follow_leader from term s).config ≡ s.config)
      × ((follow_leader from term s).commit_index ≡ s.commit_index)
unfolding follow_leader
follow_leader-log from term s = elim (Bool-cases (is_follower s.role)) [
  | inl e ↦ rw e (refl, refl, refl)
  | inr e ↦ rw e (step_down-log term (some from) s)
]

on_append_entries-Spliced :
    (from : ℕ) (request : AppendEntries) (s : RaftNode)
    → Accepted from request s
    → Spliced s.log s.commit_index
        (skip_matching s.log request.entries)
        (on_append_entries from request s)
unfolding on_append_entries
on_append_entries-Spliced from request s a =
    let real : eqb request.term 0 ≡ false = ground (arith, a.real) in
    let sender : eqb request.leader_id from ≡ true = ground (arith, a.sender) in
    let current : ltb request.term s.hard_state.current_term ≡ false = ground (arith, a.current) in
    elim (Bool-cases (ltb s.hard_state.current_term request.term)) [
      | inl e ↦
          let t = step_down request.term (some from) false s in
          let same = step_down-log request.term (some from) s in
          rw (real, sender, current, e, on_append_entries)
            (moved-Spliced from request (some t.hard_state) s t a same.0 same.1 same.2)
      | inr e ↦
          let u = follow_leader from request.term s in
          let same = follow_leader-log from request.term s in
          rw (real, sender, current, e, on_append_entries)
            (moved-Spliced from request none s u a same.0 same.1 same.2)
    ]

-- A follower that accepts an AppendEntries ends up with every entry of the request in its log, keeps
-- the log up to the request's start, changes nothing if it held the entries already, and otherwise its
-- log ends with the request's last entry. The one exception is a request with an entry that differs
-- from the log's at a committed index: then the log stays, and the node becomes unavailable.
pub on_append_entries-Merged :
    (from : ℕ) (request : AppendEntries) (s : RaftNode)
    → Accepted from request s
    → Merged s.log request.prev_log_index request.entries (on_append_entries from request s).log
      ⊎ (((on_append_entries from request s).log ≡ s.log)
          × (is_unavailable (on_append_entries from request s).role ≡ true)
          × Clash s.log s.commit_index request.entries)
unfolding entries_valid
on_append_entries-Merged from request s a = elim (on_append_entries-Spliced from request s a) [
  | inl (same, gone, over) ↦
      inr (same, gone, skip_matching-Clash s.log s.commit_index request.entries over)
  | inr e ↦
      let c =
        entries_valid_from-Consecutive s.config request.term request.prev_log_index
          append_rpc_overhead request.entries ((and_iff _ _).0 a.valid).1 in
      inl (
        subst (Merged s.log request.prev_log_index request.entries) (sym e)
          (skip_matching-Merged s.log request.prev_log_index request.entries a.inside c))
]
