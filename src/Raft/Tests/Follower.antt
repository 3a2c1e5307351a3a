-- ===== src/Raft/Tests/Follower.antt =====
-- AppendEntries at a follower of the three-node engine.
use det_log.Prelude.{◌≡◌, refl, ◌⊎◌, arith, true, none, some, [], ◌∷◌}
use det_log.Model.{AppendEntries}
use det_log.Raft.State.{is_unavailable}
use det_log.Raft.Step.{start}
use det_log.Raft.Append.{on_append_entries}
use det_log.Raft.Matching.{Merged, Clash}
use det_log.Raft.Matching.Handler.{Accepted, on_append_entries-Merged}
use det_log.Raft.Tests.{fresh, put_a, engine}

abbrev first_entries : AppendEntries
first_entries = record {
  term = 2;
  leader_id = 3;
  rpc_id = 5;
  prev_log_index = 0;
  prev_log_term = 0;
  entries =
      record { index = 1; term = 1; command = none }
      ∷ record { index = 2; term = 2; command = some put_a }
      ∷ [];
  leader_commit = 1;
}

first_entries-Accepted : Accepted 3 first_entries (start fresh)
unfolding engine
first_entries-Accepted = record {
  real = omega arith;
  sender = refl;
  current = omega arith;
  valid = refl;
  inside = omega arith;
  agrees = refl;
}

on_append_entries-Merged_example :
    Merged [] 0 first_entries.entries (on_append_entries 3 first_entries (start fresh)).log
    ⊎ (((on_append_entries 3 first_entries (start fresh)).log ≡ (start fresh).log)
        × (is_unavailable (on_append_entries 3 first_entries (start fresh)).role ≡ true)
        × Clash (start fresh).log (start fresh).commit_index first_entries.entries)
unfolding engine
on_append_entries-Merged_example =
    on_append_entries-Merged 3 first_entries (start fresh) first_entries-Accepted
