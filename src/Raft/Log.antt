-- ===== src/Raft/Log.antt =====
-- src/raft.cpp: the const helpers on the log and its admission bounds. `log` is log_, an index is
-- one-based, and std::size_t has 64 bits.
use det_log.Prelude.{
  ℕ, zero, suc, ◌+◌, ◌-◌, Bool, true, ◌&&◌, ◌||◌, Option, none, some, List, [], ◌∷◌, ltb, leb, eqb,
  if◌then◌else◌, length, get_elem?, u64_max, inc64, sub64,
}
use det_log.Model.{LogEntry, ClientCommand}
use det_log.StateMachine.{structurally_valid}
use det_log.Raft.State.{RaftConfig}

abbrev pub entry_overhead : ℕ
entry_overhead = 64

abbrev pub append_rpc_overhead : ℕ
append_rpc_overhead = 64

unfoldable pub command_size_within : ClientCommand → ℕ → ℕ → ℕ → Bool
command_size_within c maximum max_key max_value =
    leb (length c.key) max_key
    && leb (length c.value) max_value
    && leb (length c.key) maximum
    && leb (length c.value) (maximum - length c.key)

-- The test that every path makes of a client command.
unfoldable pub command_allowed : RaftConfig → ClientCommand → Bool
unfolding command_size_within
command_allowed config c =
    structurally_valid c
    && command_size_within c config.max_command_bytes config.max_key_bytes config.max_value_bytes

unfoldable pub optional_command_allowed : RaftConfig → Option ClientCommand → Bool
optional_command_allowed config none = true
optional_command_allowed config (some c) = command_allowed config c

abbrev pub last_log_index : List LogEntry → ℕ
last_log_index log = length log

unfoldable pub entry_at : List LogEntry → ℕ → Option LogEntry
entry_at log zero = none
entry_at log (suc offset) = get_elem? log offset

abbrev pub entry_term : Option LogEntry → ℕ
entry_term none = 0
entry_term (some entry) = entry.term

unfoldable pub term_at : List LogEntry → ℕ → ℕ
unfolding entry_at
term_at log index = entry_term (entry_at log index)

unfoldable pub candidate_is_up_to_date : List LogEntry → ℕ → ℕ → Bool
candidate_is_up_to_date log index term =
    let local_term = term_at log (last_log_index log) in
    ltb local_term term || (eqb term local_term && leb (last_log_index log) index)

unfoldable pub command_bytes : Option ClientCommand → ℕ
command_bytes none = entry_overhead
command_bytes (some c) =
    if ltb (u64_max - length c.value) (length c.key)
      || ltb (u64_max - length c.key - length c.value) entry_overhead
    then u64_max
    else entry_overhead + length c.key + length c.value

unfoldable pub entry_bytes : LogEntry → ℕ
unfolding command_bytes
entry_bytes entry = command_bytes entry.command

unfoldable pub uncommitted_entry_count : List LogEntry → ℕ → ℕ
uncommitted_entry_count log commit = sub64 (last_log_index log) commit

-- `rounds` counts the indexes that the loop has left.
unfoldable pub bytes_from : List LogEntry → ℕ → ℕ → ℕ → ℕ
bytes_from log zero index total = total
bytes_from log (suc rounds) index total = elim (entry_at log index) [
  | none ↦ total
  | some entry ↦
      let rest = bytes_from log rounds (index + 1) (total + entry_bytes entry) in
      if ltb (u64_max - total) (entry_bytes entry) then u64_max else rest
]

unfoldable pub uncommitted_bytes : List LogEntry → ℕ → ℕ
uncommitted_bytes log commit = bytes_from log (last_log_index log - commit) (commit + 1) 0

unfoldable pub can_append : RaftConfig → List LogEntry → ℕ → LogEntry → Bool
can_append config log commit entry =
    let current = uncommitted_bytes log commit in
    let added = entry_bytes entry in
    leb added (sub64 config.max_append_bytes_per_rpc append_rpc_overhead)
    && ltb (uncommitted_entry_count log commit) config.max_uncommitted_entries
    && leb current config.max_uncommitted_bytes
    && leb added (config.max_uncommitted_bytes - current)

unfoldable pub can_append_client : RaftConfig → List LogEntry → ℕ → LogEntry → Bool
can_append_client config log commit entry =
    let count = uncommitted_entry_count log commit in
    let current = uncommitted_bytes log commit in
    let added = entry_bytes entry in
    ltb count config.max_uncommitted_entries
    && ltb 1 (config.max_uncommitted_entries - count)
    && leb current config.max_uncommitted_bytes
    && leb added (config.max_uncommitted_bytes - current)
    && leb (current + added) config.max_uncommitted_bytes
    && leb entry_overhead (config.max_uncommitted_bytes - (current + added))

-- The loop goes from the back, so the rest of the list is looked at first.
unfoldable pub last_index_of_term : List LogEntry → ℕ → Option ℕ
last_index_of_term [] term = none
last_index_of_term (entry ∷ rest) term = elim (last_index_of_term rest term) [
  | some index ↦ some index
  | none ↦ if eqb entry.term term then some entry.index else none
]

-- `at` is suc of the argument that the recursion is on.
unfoldable pub first_index_loop : List LogEntry → ℕ → ℕ → ℕ
first_index_loop log term zero = 1
first_index_loop log term (suc below) =
    let rest = first_index_loop log term below in
    if eqb (term_at log (suc below)) term then rest else suc (suc below)

unfoldable pub first_index_of_term : List LogEntry → ℕ → ℕ
first_index_of_term log zero = inc64 (last_log_index log)
first_index_of_term log (suc below) =
    if ltb (last_log_index log) (suc below)
    then inc64 (last_log_index log)
    else first_index_loop log (term_at log (suc below)) below
