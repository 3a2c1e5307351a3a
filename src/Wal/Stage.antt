-- ===== src/Wal/Stage.antt =====
-- src/wal.cpp: ValidationView, which checks a batch against the logical state before it is written or
-- replayed, and `validate_state_summary`. The log of the view is the kept part of the base and the
-- suffix in one list.
pub mod Accepted
pub mod Ordered
pub mod Guards
pub mod Logged
use det_log.Prelude.{
  ℕ, suc, ◌+◌, ◌-◌, Bool, true, false, ◌&&◌, ◌||◌, not, Option, none, some, List, [], ◌∷◌, ◌++◌,
  ltb, leb, eqb, if◌then◌else◌, length, take, is_some,
}
use det_log.Prelude.Key.{option_beq, nat_equality}
use det_log.Model.{LogEntry, HardState, PersistBatch, ClientCommand, batch_empty}
use det_log.Wal.Types.{Result, done, error, ◌>>=◌, throw, WalErrorCode, WalOptions, WalState}

pub record ValidationView : Type 0 where
  pub hard_state : HardState
  pub commit_index : ℕ
  pub entries : List LogEntry

abbrev pub view_of : WalState → ValidationView
view_of state = record {
  hard_state = state.hard_state;
  commit_index = state.commit_index;
  entries = state.entries;
}

abbrev pub entry_count : ValidationView → ℕ
entry_count v = length v.entries

unfoldable pub last_term_from : ℕ → List LogEntry → ℕ
last_term_from term [] = term
last_term_from term (entry ∷ rest) = last_term_from entry.term rest

abbrev pub last_term : ValidationView → ℕ
last_term v = last_term_from 0 v.entries

unfoldable pub stage_hard_state : Option HardState → ValidationView → Result ValidationView
stage_hard_state none v = done v
stage_hard_state (some next) v =
    if eqb next.current_term 0 && is_some next.voted_for
    then throw WalErrorCode.invariant_violation "term-zero hard state cannot contain a vote"
    else if ltb next.current_term v.hard_state.current_term
    then throw WalErrorCode.invariant_violation "hard-state term would decrease"
    else if eqb next.current_term v.hard_state.current_term
        && is_some v.hard_state.voted_for
        && not (option_beq next.voted_for v.hard_state.voted_for)
    then throw WalErrorCode.invariant_violation "vote would change or clear within one term"
    else done (record v { hard_state = next })

unfoldable pub stage_truncate : Option ℕ → ValidationView → Result ValidationView
stage_truncate none v = done v
stage_truncate (some from) v =
    if eqb from 0
    then throw WalErrorCode.invariant_violation "truncate_from index zero is invalid"
    else if leb from v.commit_index
    then throw WalErrorCode.invariant_violation "cannot truncate a committed log entry"
    else if ltb (length v.entries + 1) from
    then throw WalErrorCode.invariant_violation "truncate_from is beyond the end of the log"
    else done (record v { entries = take (from - 1) v.entries })

unfoldable pub fields_bounded : WalOptions → Option ClientCommand → Bool
fields_bounded options none = true
fields_bounded options (some c) =
    not (ltb options.max_key_bytes (length c.key) || ltb options.max_value_bytes (length c.value))

-- The type admits no unknown command kind.
unfoldable pub stage_entry : WalOptions → LogEntry → ValidationView → Result ValidationView
unfolding last_term_from fields_bounded
stage_entry options entry v =
    if leb options.max_log_entries (length v.entries)
    then throw WalErrorCode.bounds_exceeded "logical WAL exceeds max_log_entries"
    else if not (eqb entry.index (length v.entries + 1))
    then throw WalErrorCode.invariant_violation "log entries are not consecutive"
    else if eqb entry.term 0 || ltb v.hard_state.current_term entry.term
    then throw WalErrorCode.invariant_violation "log entry term is zero or exceeds current term"
    else if ltb 1 entry.index && ltb entry.term (last_term v)
    then throw WalErrorCode.invariant_violation "log entry terms decrease with index"
    else if not (fields_bounded options entry.command)
    then throw WalErrorCode.bounds_exceeded "command field exceeds configured size bound"
    else done (record v { entries = v.entries ++ entry ∷ [] })

unfoldable pub stage_entries : WalOptions → List LogEntry → ValidationView → Result ValidationView
stage_entries options [] v = done v
stage_entries options (entry ∷ rest) v = stage_entry options entry v >>= stage_entries options rest

unfoldable pub stage_commit : Option ℕ → ValidationView → Result ValidationView
stage_commit none v = done v
stage_commit (some index) v =
    if ltb index v.commit_index
    then throw WalErrorCode.invariant_violation "commit index would decrease"
    else if ltb (length v.entries) index
    then throw WalErrorCode.invariant_violation "commit index exceeds the end of the log"
    else done (record v { commit_index = index })

unfoldable pub stage : PersistBatch → WalOptions → ValidationView → Result ValidationView
stage batch options v =
    if batch_empty batch
    then throw WalErrorCode.invariant_violation "an empty persistence batch is not a WAL frame"
    else if ltb options.max_entries_per_frame (length batch.entries)
    then throw WalErrorCode.bounds_exceeded "persistence batch has too many entries"
    else (stage_hard_state batch.hard_state v
        >>= stage_truncate batch.truncate_from
        >>= stage_entries options batch.entries
        >>= stage_commit batch.commit_index)

unfoldable pub materialize : ValidationView → WalState → WalState
materialize v state = record state {
  hard_state = v.hard_state;
  commit_index = v.commit_index;
  entries = v.entries;
}

unfoldable pub last_index_from : ℕ → List LogEntry → ℕ
last_index_from index [] = index
last_index_from index (entry ∷ rest) = last_index_from entry.index rest

-- The indexes of the first and the last entry, and the last term.
unfoldable pub ends_valid : WalState → List LogEntry → Result (Unit {0})
unfolding last_term_from last_index_from
ends_valid state [] = done tt
ends_valid state (first ∷ rest) =
    if not (eqb first.index 1)
      || not (eqb (last_index_from first.index rest) (length state.entries))
    then throw WalErrorCode.invariant_violation
        "WAL state does not use consecutive one-based indexes"
    else if ltb state.hard_state.current_term (last_term_from first.term rest)
    then throw WalErrorCode.invariant_violation "WAL state log term exceeds hard-state term"
    else done tt

unfoldable pub validate_state_summary : WalState → WalOptions → Result (Unit {0})
unfolding ends_valid
validate_state_summary state options =
    if ltb options.max_log_entries (length state.entries)
    then throw WalErrorCode.bounds_exceeded "WAL state exceeds max_log_entries"
    else if eqb state.hard_state.current_term 0 && is_some state.hard_state.voted_for
    then throw WalErrorCode.invariant_violation "term-zero WAL state cannot contain a vote"
    else (ends_valid state state.entries >>= λ _.
        if ltb (length state.entries) state.commit_index
        then throw WalErrorCode.invariant_violation "WAL state commit index exceeds its log"
        else if ltb state.last_frame_sequence state.durable_frame_sequence
        then throw WalErrorCode.invariant_violation
            "durable frame sequence exceeds last frame sequence"
        else done tt)
