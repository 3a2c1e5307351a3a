-- ===== src/Raft/Batch.antt =====
-- The entries that one AppendEntries carries.
use native.Mathlib.Numerals.{add-one}
use det_log.Prelude.{
  ◌≡◌, refl, sym, ◌∙◌, ap, ◌≤◌, ◌<◌, ◌+◌, ◌-◌, ◌^◌, ℕ, zero, suc, min, some, List, [], ◌∷◌, inl,
  inr, arith, Option-cases, Bool-cases, ltb, length, take, drop, get_elem?, drop-get_elem?, sub64,
  sub64-eq,
}
use det_log.Model.{LogEntry}
use det_log.Raft.State.{RaftNode, RaftConfig}
use det_log.Raft.Log.{append_rpc_overhead, entry_at, entry_bytes}
use det_log.Raft.Replicate.{collect_entries, append_batch}

-- The encoded size of entries, as the engine accounts for it.
abbrev pub total_bytes : List LogEntry → ℕ
total_bytes [] = 0
total_bytes (entry ∷ rest) = entry_bytes entry + total_bytes rest

-- `batch` is what the log holds from `offset` on, at most `rounds` entries, and fits in what `bytes`
-- leaves of the limit.
record Slice (log : List LogEntry) (offset rounds bytes limit : ℕ) (batch : List LogEntry)
    : Type 0 where
  pub slice : batch ≡ take (length batch) (drop offset log)
  pub count : length batch ≤ rounds
  pub size : bytes + total_bytes batch ≤ limit

nothing :
    (log : List LogEntry) (offset rounds bytes limit : ℕ)
    → bytes ≤ limit
    → Slice log offset rounds bytes limit []
nothing log offset rounds bytes limit h = record {
  slice = refl;
  count = omega arith;
  size = omega arith;
}

one_more :
    (log : List LogEntry) (offset rounds bytes limit : ℕ) (entry : LogEntry) (batch : List LogEntry)
    → get_elem? log offset ≡ some entry
    → Slice log (suc offset) rounds (bytes + entry_bytes entry) limit batch
    → Slice log offset (suc rounds) bytes limit (entry ∷ batch)
one_more log offset rounds bytes limit entry batch at s = record {
  slice =
      ap (◌∷◌ entry) s.slice ∙ ap (take (suc (length batch))) (sym (drop-get_elem? offset log at));
  count = omega (arith, s.count);
  size = omega (arith, s.size);
}

collect_entries-Slice :
    (config : RaftConfig) (log : List LogEntry) (rounds offset bytes : ℕ)
    → bytes ≤ config.max_append_bytes_per_rpc
    → config.max_append_bytes_per_rpc < 2 ^ 64
    → Slice log offset rounds bytes config.max_append_bytes_per_rpc
        (collect_entries config log rounds (suc offset) bytes)
unfolding collect_entries entry_at
collect_entries-Slice config log zero offset bytes h w =
    nothing log offset zero bytes config.max_append_bytes_per_rpc h
collect_entries-Slice config log (suc rounds) offset bytes h w =
    let limit = config.max_append_bytes_per_rpc in
    elim (Option-cases (get_elem? log offset)) [
      | inl e ↦ rw (e, collect_entries) (nothing log offset (suc rounds) bytes limit h)
      | inr (entry, e) ↦
          let room = sub64-eq limit bytes w (omega arith) in
          elim (Bool-cases (ltb (sub64 limit bytes) (entry_bytes entry))) [
            | inl full ↦
                rw (e, full, collect_entries) (nothing log offset (suc rounds) bytes limit h)
            | inr fits ↦
                let next : suc offset + 1 ≡ suc (suc offset) = add-one (suc offset) in
                let more =
                  collect_entries-Slice config log rounds (suc offset) (bytes + entry_bytes entry)
                    (ground (arith, room, fits)) w in
                rw (e, fits, next, collect_entries)
                  (one_more log offset rounds bytes limit entry _ e more)
          ]
    ]

-- The batch behind `prev` is a contiguous part of the log that starts right after `prev`, ends within
-- the durable log, and keeps both limits of an AppendEntries: the number of entries, and the encoded
-- size with the overhead of the message. The size limit is a 64-bit number not below the overhead.
pub append_batch_slice :
    (s : RaftNode) (prev : ℕ)
    → append_rpc_overhead ≤ s.config.max_append_bytes_per_rpc
    → s.config.max_append_bytes_per_rpc < 2 ^ 64
    → (append_batch s prev ≡ take (length (append_batch s prev)) (drop prev s.log))
      × (length (append_batch s prev) ≤ s.durable_last_log_index - prev)
      × (length (append_batch s prev) ≤ s.config.max_append_entries_per_rpc)
      × (append_rpc_overhead + total_bytes (append_batch s prev)
          ≤ s.config.max_append_bytes_per_rpc)
unfolding append_batch
append_batch_slice s prev h w =
    let rounds = min (s.durable_last_log_index - prev) s.config.max_append_entries_per_rpc in
    let next : prev + 1 ≡ suc prev = add-one prev in
    let b = collect_entries-Slice s.config s.log rounds prev append_rpc_overhead h w in
    rw next (b.slice, omega (arith, b.count), omega (arith, b.count), b.size)
