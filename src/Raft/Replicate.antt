-- ===== src/Raft/Replicate.antt =====
-- src/raft.cpp: sending entries to followers, advancing the commit index, applying what is committed.
use det_log.Prelude.{
  ℕ, zero, suc, ◌+◌, ◌-◌, min, max, Bool, true, false, ◌&&◌, List, [], ◌∷◌, String, Option, none,
  some, if◌then◌else◌, inc64, sub64, ltb, leb, eqb, length, is_some,
}
use det_log.Prelude.Key.{nat_key}
use det_log.Prelude.Map
use det_log.Prelude.Map.{Map}
use det_log.Model.{ClientStatus, TraceKind, PersistBatch, LogEntry, Message, ClientCommand}
use det_log.StateMachine.{apply, ApplyResult}
use det_log.Raft.State.{
  RaftNode, RaftConfig, PeerProgress, PendingClientEntry, Continuation, is_leader, is_idle,
  quorum_size,
}
use det_log.Raft.Log.{append_rpc_overhead, entry_at, term_at, entry_bytes}
use det_log.Raft.Emit.{trace, send_message, ◌▹◌}
use det_log.Raft.Persist.{begin_persist, fail_storage, finish_pending}

-- The entries of one AppendEntries: `rounds` more indexes from `index` on, `bytes` encoded so far.
unfoldable pub collect_entries : RaftConfig → List LogEntry → ℕ → ℕ → ℕ → List LogEntry
collect_entries config log zero index bytes = []
collect_entries config log (suc rounds) index bytes = elim (entry_at log index) [
  | none ↦ []
  | some entry ↦
      let rest =
        entry ∷ collect_entries config log rounds (index + 1) (bytes + entry_bytes entry) in
      if ltb (sub64 config.max_append_bytes_per_rpc bytes) (entry_bytes entry) then [] else rest
]

-- std::clamp(next_index, 1, durable_last_log_index + 1)
unfoldable pub clamped_next : RaftNode → PeerProgress → ℕ
clamped_next s progress = min (max progress.next_index 1) (inc64 s.durable_last_log_index)

unfoldable pub append_batch : RaftNode → ℕ → List LogEntry
append_batch s prev =
    collect_entries s.config s.log
      (min (s.durable_last_log_index - prev) s.config.max_append_entries_per_rpc) (prev + 1)
      append_rpc_overhead

abbrev append_request : RaftNode → ℕ → List LogEntry → Message
append_request s prev entries = Message.append_entries (record {
  term = s.hard_state.current_term;
  leader_id = s.config.node_id;
  rpc_id = s.next_rpc_id;
  prev_log_index = prev;
  prev_log_term = term_at s.log prev;
  entries = entries;
  leader_commit = s.commit_index;
})

unfoldable pub send_entries : ℕ → PeerProgress → ℕ → RaftNode → RaftNode
send_entries peer progress next s =
    let prev = next - 1 in
    let entries = append_batch s prev in
    if eqb s.next_rpc_id 0
    then fail_storage "RPC id overflow" s
    else (record s {
      next_rpc_id = inc64 s.next_rpc_id;
      peers =
          Map.put peer
            (record {
              next_index = next;
              match_index = progress.match_index;
              inflight = some (record {
                rpc_id = s.next_rpc_id;
                prev_index = prev;
                last_index = prev + length entries;
              });
              inflight_heartbeat_age = 0;
            })
            s.peers;
    }
        ▹ send_message peer (append_request s prev entries))

unfoldable pub send_append : ℕ → RaftNode → RaftNode
send_append peer s =
    if is_leader s.role && is_idle s
    then elim (Map.find peer s.peers) [
      | none ↦ s
      | some progress ↦
          if is_some progress.inflight
          then s
          else send_entries peer progress (clamped_next s progress) s
    ]
    else s

abbrev pub keys {ℓ} : {V : Type ℓ} → Map ℕ V → List ℕ
keys [] = []
keys ((k, v) ∷ m) = k ∷ keys m

unfoldable pub send_each : List ℕ → RaftNode → RaftNode
send_each [] s = s
send_each (peer ∷ rest) s = send_each rest (send_append peer s)

unfoldable pub send_all_appends : RaftNode → RaftNode
send_all_appends s = if is_leader s.role && is_idle s then send_each (keys s.peers) s else s

-- How many peers are known to hold the log through `index`.
unfoldable pub count_matching : ℕ → Map ℕ PeerProgress → ℕ
count_matching index [] = 0
count_matching index ((peer, progress) ∷ rest) =
    (if leb index progress.match_index then 1 else 0) + count_matching index rest

-- The entry at `index` is of the current term, and a quorum holds it, this node's disk included.
unfoldable pub can_commit : RaftNode → ℕ → Bool
can_commit s index = elim (entry_at s.log index) [
  | none ↦ false
  | some entry ↦
      eqb entry.term s.hard_state.current_term
      && leb (quorum_size s.config) (1 + count_matching index s.peers)
]

-- The loop from `candidate` down to the commit index.
unfoldable pub commit_target : RaftNode → ℕ → ℕ
commit_target s zero = s.commit_index
commit_target s (suc below) =
    let rest = commit_target s below in
    if ltb s.commit_index (suc below)
    then (if can_commit s (suc below) then suc below else rest)
    else s.commit_index

abbrev lookup_pending : ℕ → RaftNode → Option PendingClientEntry
lookup_pending index s = Map.find index s.pending_clients

unfoldable pub answer_pending : ℕ → ApplyResult → RaftNode → RaftNode
answer_pending index result s = elim (Map.find index s.pending_clients) [
  | none ↦ s
  | some pending ↦ finish_pending index pending result.status result.value s
]

abbrev empty_result : ApplyResult
empty_result = record { status = ClientStatus.ok; value = []; executed = false; duplicate = false }

unfoldable pub run_machine : Option ClientCommand → RaftNode → ApplyResult × RaftNode
run_machine none s = (empty_result, s)
run_machine (some command) s =
    let (result, machine) = apply command s.state_machine in
    (result, record s { core = record s.core { state_machine = machine } })

abbrev pub apply_detail : Option ClientCommand → String
apply_detail none = "applied no-op"
apply_detail (some c) = "applied client command"

abbrev pub advance_applied : RaftNode → RaftNode
advance_applied s = record s { core = record s.core { last_applied = s.last_applied + 1 } }

-- One round of the loop, once its entry is found; `s` has the new last_applied.
unfoldable pub apply_entry : LogEntry → RaftNode → RaftNode
apply_entry entry s =
    let (result, t) = run_machine entry.command s in
    t
    ▹ trace TraceKind.apply (apply_detail entry.command) s.last_applied
    ▹ answer_pending s.last_applied result

-- `rounds` is the distance from last_applied to commit_index.
unfoldable pub apply_rounds : ℕ → RaftNode → RaftNode
apply_rounds zero s = s
apply_rounds (suc rounds) s = elim (entry_at s.log (s.last_applied + 1)) [
  | none ↦ fail_storage "commit index references a missing log entry" (advance_applied s)
  | some entry ↦ apply_rounds rounds (apply_entry entry (advance_applied s))
]

unfoldable pub apply_committed : RaftNode → RaftNode
apply_committed s = apply_rounds (s.commit_index - s.last_applied) s

unfoldable pub mark_ready : RaftNode → RaftNode
mark_ready s =
    if is_leader s.role && ltb 0 s.readiness_index && leb s.readiness_index s.last_applied
    then record s { leader_ready = true }
    else s

-- The continuation of maybe_advance_commit.
unfoldable pub commit_stored : RaftNode → RaftNode
commit_stored s =
    s
    ▹ trace TraceKind.commit "leader durably advanced commit index" s.commit_index
    ▹ apply_committed
    ▹ mark_ready
    ▹ send_all_appends

abbrev pub commit_batch : ℕ → PersistBatch
commit_batch target = record {
  hard_state = none;
  truncate_from = none;
  entries = [];
  commit_index = some target;
}

unfoldable pub advance_commit : ℕ → RaftNode → RaftNode
advance_commit target s =
    if eqb target s.commit_index
    then s
    else (record s { core = record s.core { commit_index = target } }
        ▹ begin_persist (commit_batch target) Continuation.after_commit commit_stored)

unfoldable pub maybe_advance_commit : RaftNode → RaftNode
maybe_advance_commit s =
    if is_leader s.role && is_idle s
    then advance_commit (commit_target s s.durable_last_log_index) s
    else s
