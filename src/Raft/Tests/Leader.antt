-- ===== src/Raft/Tests/Leader.antt =====
-- A leader of the three-node engine whose no-op a peer has matched.
use det_log.Prelude.{
  ◌≡◌, refl, ◌⊎◌, ◌+◌, ◌-◌, ◌<◌, ◌≤◌, ◌^◌, ℕ, true, none, take, drop, length, arith,
}
use det_log.Raft.Log.{append_rpc_overhead}
use det_log.Raft.Batch.{append_batch_slice, total_bytes}
use det_log.Raft.State.{RaftNode, is_leader, is_idle}
use det_log.Raft.Step.{start}
use det_log.Raft.Response.{set_progress}
use det_log.Raft.Replicate.{maybe_advance_commit, append_batch}
use det_log.Raft.Reachable.{run}
use det_log.Raft.Quorum.{Committable, maybe_advance_commit_largest}
use det_log.Raft.Tests.{fresh, election, engine}

abbrev matched : RaftNode
matched =
    set_progress 2
      (record { next_index = 2; match_index = 1; inflight = none; inflight_heartbeat_age = 0 })
      (run (take 4 election) (start fresh))

matched_leads : is_leader matched.role ≡ true
unfolding engine
matched_leads = refl

matched_idle : is_idle matched ≡ true
unfolding engine
matched_idle = refl

matched_commits : (maybe_advance_commit matched).commit_index ≡ 1
unfolding engine
matched_commits = refl

matched_room : append_rpc_overhead ≤ matched.config.max_append_bytes_per_rpc
unfolding engine
matched_room = omega arith

matched_word : matched.config.max_append_bytes_per_rpc < 2 ^ 64
unfolding engine
matched_word = omega arith

matched_batch : length (append_batch matched 0) ≡ 1
unfolding engine
matched_batch = refl

maybe_advance_commit_largest_example :
    (((maybe_advance_commit matched).commit_index ≡ matched.commit_index)
      ⊎ ((matched.commit_index < (maybe_advance_commit matched).commit_index)
          × ((maybe_advance_commit matched).commit_index ≤ matched.durable_last_log_index)
          × Committable matched (maybe_advance_commit matched).commit_index))
    × ((index : ℕ)
        → matched.commit_index < index
        → index ≤ matched.durable_last_log_index
        → Committable matched index
        → index ≤ (maybe_advance_commit matched).commit_index)
maybe_advance_commit_largest_example =
    maybe_advance_commit_largest matched matched_leads matched_idle

append_batch_slice_example :
    (append_batch matched 0 ≡ take (length (append_batch matched 0)) (drop 0 matched.log))
    × (length (append_batch matched 0) ≤ matched.durable_last_log_index - 0)
    × (length (append_batch matched 0) ≤ matched.config.max_append_entries_per_rpc)
    × (append_rpc_overhead + total_bytes (append_batch matched 0)
        ≤ matched.config.max_append_bytes_per_rpc)
append_batch_slice_example = append_batch_slice matched 0 matched_room matched_word
