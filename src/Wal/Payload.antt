-- ===== src/Wal/Payload.antt =====
-- src/wal.cpp: `encode_batch_payload` and `decode_batch_payload`.
pub mod Layout
pub mod Fields
pub mod Decoded
use det_log.Prelude.{
  ℕ, zero, suc, ◌+◌, ◌-◌, ◌*◌, ◌/◌, ◌%◌, Bool, true, false, ◌&&◌, ◌||◌, not, String, Option, none,
  some, List, [], ◌∷◌, ◌++◌, ltb, leb, eqb, if◌then◌else◌, length, is_some,
}
use det_log.Model.{
  Bytes, SessionId, ClientCommand, CommandKind, kind_code, HardState, LogEntry, PersistBatch,
  is_nil,
}
use det_log.Wal.Types.{
  Result, done, error, ◌>>=◌, throw, WalErrorCode, WalOptions, frame_header_bytes,
  frame_trailer_bytes, minimum_entry_payload_bytes,
}
use det_log.Wal.Bytes.{
  ByteWriter, new_writer, raw, le, u8, u16, u32, u64, read_u8, read_le, read_u16, read_u32,
  read_u64, read_string,
}

abbrev pub bit : Bool → ℕ → ℕ
bit true value = value
bit false value = 0

-- kHardStateFlag, kTruncateFlag and kCommitFlag
unfoldable pub flags : PersistBatch → ℕ
flags b =
    bit (is_some b.hard_state) 1 + bit (is_some b.truncate_from) 2 + bit (is_some b.commit_index) 4

unfoldable pub write_vote : Option ℕ → ByteWriter → Result ByteWriter
write_vote none w = u8 0 w
write_vote (some node) w = u8 1 w >>= u32 node

unfoldable pub write_hard_state : Option HardState → ByteWriter → Result ByteWriter
unfolding write_vote
write_hard_state none w = done w
write_hard_state (some hard) w = u64 hard.current_term w >>= write_vote hard.voted_for

unfoldable pub write_index : Option ℕ → ByteWriter → Result ByteWriter
write_index none w = done w
write_index (some index) w = u64 index w

unfoldable pub write_command : Option ClientCommand → ByteWriter → Result ByteWriter
write_command none w = u8 0 w
write_command (some c) w =
    u8 1 w
    >>= u64 c.session.high
    >>= u64 c.session.low
    >>= u64 c.sequence
    >>= u8 (kind_code c.kind)
    >>= u32 (length c.key)
    >>= u32 (length c.value)
    >>= raw c.key
    >>= raw c.value

unfoldable pub write_entry : LogEntry → ByteWriter → Result ByteWriter
unfolding write_command
write_entry entry w = u64 entry.index w >>= u64 entry.term >>= write_command entry.command

unfoldable pub write_entries : List LogEntry → ByteWriter → Result ByteWriter
write_entries [] w = done w
write_entries (entry ∷ rest) w = write_entry entry w >>= write_entries rest

unfoldable pub encode_batch_payload : PersistBatch → WalOptions → Result Bytes
unfolding flags write_hard_state write_index
encode_batch_payload batch options =
    u32 (flags batch)
      (new_writer (options.max_frame_bytes - frame_header_bytes - frame_trailer_bytes))
    >>= u32 (length batch.entries)
    >>= write_hard_state batch.hard_state
    >>= write_index batch.truncate_from
    >>= write_entries batch.entries
    >>= write_index batch.commit_index
    >>= λ w. done w.bytes

unfoldable pub read_vote : Bytes → Result (Option ℕ × Bytes)
read_vote bytes = read_u8 bytes >>= λ (has_vote, left).
    if ltb 1 has_vote
    then throw WalErrorCode.format "invalid voted-for presence marker"
    else if not (eqb has_vote 0)
    then (read_u32 left >>= λ (node, left). done (some node, left))
    else done (none, left)

unfoldable pub read_hard_state : Bool → Bytes → Result (Option HardState × Bytes)
unfolding read_vote
read_hard_state false bytes = done (none, bytes)
read_hard_state true bytes = read_u64 bytes >>= λ (term, left). read_vote left >>= λ (vote, left).
    done (some (record { current_term = term; voted_for = vote }), left)

unfoldable pub read_index : Bool → Bytes → Result (Option ℕ × Bytes)
read_index false bytes = done (none, bytes)
read_index true bytes = read_u64 bytes >>= λ (index, left). done (some index, left)

unfoldable pub kind_of : ℕ → Option CommandKind
kind_of code =
    if eqb code 1
    then some CommandKind.put
    else if eqb code 2
    then some CommandKind.erase
    else if eqb code 3
    then some CommandKind.get
    else none

unfoldable pub read_kind : Bytes → Result (CommandKind × Bytes)
unfolding kind_of
read_kind bytes = read_u8 bytes >>= λ (code, left). elim (kind_of code) [
  | none ↦ throw WalErrorCode.format "WAL frame contains unknown command kind"
  | some kind ↦ done (kind, left)
]

unfoldable pub read_fields : WalOptions → Bytes → Result ((Bytes × Bytes) × Bytes)
read_fields options bytes = read_u32 bytes >>= λ (key_size, left).
    read_u32 left >>= λ (value_size, left).
    if ltb options.max_key_bytes key_size || ltb options.max_value_bytes value_size
    then throw WalErrorCode.bounds_exceeded "WAL command field exceeds configured size bound"
    else (read_string key_size left >>= λ (key, left).
        read_string value_size left >>= λ (value, left). done ((key, value), left))

unfoldable pub read_some_command : WalOptions → Bytes → Result (ClientCommand × Bytes)
unfolding read_kind read_fields
read_some_command options bytes = read_u64 bytes >>= λ (high, left).
    read_u64 left >>= λ (low, left). read_u64 left >>= λ (sequence, left).
    read_kind left >>= λ (kind, left). read_fields options left >>= λ ((key, value), left). done (
      record {
        session = record { high = high; low = low };
        sequence = sequence;
        kind = kind;
        key = key;
        value = value;
      },
      left,
    )

unfoldable pub read_command : WalOptions → Bytes → Result (Option ClientCommand × Bytes)
unfolding read_some_command
read_command options bytes = read_u8 bytes >>= λ (has_command, left).
    if ltb 1 has_command
    then throw WalErrorCode.format "invalid command presence marker"
    else if not (eqb has_command 0)
    then (read_some_command options left >>= λ (c, left). done (some c, left))
    else done (none, left)

unfoldable pub read_entry : WalOptions → Bytes → Result (LogEntry × Bytes)
unfolding read_command
read_entry options bytes = read_u64 bytes >>= λ (index, left). read_u64 left >>= λ (term, left).
    read_command options left >>= λ (command, left).
    done (record { index = index; term = term; command = command }, left)

-- The loop over the declared number of entries.
unfoldable pub read_entries : WalOptions → ℕ → Bytes → Result (List LogEntry × Bytes)
read_entries options zero bytes = done ([], bytes)
read_entries options (suc count) bytes = read_entry options bytes >>= λ (entry, left).
    read_entries options count left >>= λ (rest, left). done (entry ∷ rest, left)

-- What follows the flags and the count.
unfoldable pub decode_fields : ℕ → ℕ → WalOptions → Bytes → Result PersistBatch
unfolding read_hard_state read_index
decode_fields declared count options bytes =
    read_hard_state (eqb (declared % 2) 1) bytes >>= λ (hard, left).
    read_index (eqb (declared / 2 % 2) 1) left >>= λ (truncate, left).
    let trailing = bit (eqb (declared / 4 % 2) 1) 8 in
    if ltb (length left) trailing
      || ltb ((length left - trailing) / minimum_entry_payload_bytes) count
    then throw WalErrorCode.format "WAL entry count exceeds the remaining frame payload"
    else (read_entries options count left >>= λ (entries, left).
        read_index (eqb (declared / 4 % 2) 1) left >>= λ (commit, left).
        if not (is_nil left)
        then throw WalErrorCode.format "WAL batch contains trailing bytes"
        else done (record {
          hard_state = hard;
          truncate_from = truncate;
          entries = entries;
          commit_index = commit;
        }))

unfoldable pub decode_batch_payload : Bytes → WalOptions → Result PersistBatch
unfolding decode_fields
decode_batch_payload payload options = read_u32 payload >>= λ (declared, left).
    if leb 8 declared
    then throw WalErrorCode.format "WAL batch contains unknown flags"
    else (read_u32 left >>= λ (count, left).
        if ltb options.max_entries_per_frame count
        then throw WalErrorCode.bounds_exceeded "WAL frame declares too many entries"
        else decode_fields declared count options left)
