-- ===== src/Codec/Message.antt =====
-- src/codec.cpp: encode_message, and the checks that decode_message shares with it.
use det_log.Prelude.{
  ℕ, ◌+◌, Bool, true, false, ◌&&◌, ◌||◌, not, List, [], ◌∷◌, if◌then◌else◌, eqb, ltb, length,
  u64_max,
}
use det_log.Model.{
  Bytes, LogEntry, Message, RequestVote, RequestVoteResponse, AppendEntries, AppendEntriesResponse,
  is_nil,
}
use det_log.Codec.{Error, Limits, Result}
use det_log.Codec.Writer
use det_log.Codec.Writer.{Writer, new_writer, put_u8, put_u32, put_u64}
use det_log.Codec.Payload.{write_entry_payload}
use det_log.Codec.Frame.{WireType, payload_limit, frame}

-- (index == 0) == (term == 0)
unfoldable pub valid_log_pointer : ℕ → ℕ → Bool
valid_log_pointer index term = if eqb index 0 then eqb term 0 else not (eqb term 0)

-- The loop of consecutive_entries.
unfoldable pub consecutive_from : ℕ → List LogEntry → Bool
consecutive_from expected [] = true
consecutive_from expected (entry ∷ rest) =
    let more = consecutive_from (expected + 1) rest in
    if eqb entry.index expected then (if eqb expected u64_max then is_nil rest else more) else false

unfoldable pub consecutive_entries : AppendEntries → Bool
consecutive_entries r =
    if is_nil r.entries
    then true
    else if eqb r.prev_log_index u64_max
    then false
    else consecutive_from (r.prev_log_index + 1) r.entries

abbrev pub bit : Bool → ℕ
bit true = 1
bit false = 0

unfoldable pub valid_request_vote : RequestVote → Bool
valid_request_vote r =
    not (eqb r.term 0)
    && not (eqb r.candidate_id 0)
    && valid_log_pointer r.last_log_index r.last_log_term

unfoldable pub write_request_vote : RequestVote → Writer → Bool × Writer
write_request_vote r w =
    if valid_request_vote r
    then (Writer.and_then (put_u64 r.term w) λ a.
        Writer.and_then (put_u32 r.candidate_id a)
          λ b. Writer.and_then (put_u64 r.last_log_index b) (put_u64 r.last_log_term))
    else (false, Writer.fail Error.invalid_value w)

unfoldable pub write_request_vote_response : RequestVoteResponse → Writer → Bool × Writer
write_request_vote_response r w =
    if eqb r.term 0
    then (false, Writer.fail Error.invalid_value w)
    else Writer.and_then (put_u64 r.term w) (put_u8 (bit r.vote_granted))

-- The loop over the entries.
unfoldable pub write_entries : List LogEntry → Limits → Writer → Bool × Writer
write_entries [] limits w = (true, w)
write_entries (entry ∷ rest) limits w =
    Writer.and_then (write_entry_payload entry limits w) (write_entries rest limits)

unfoldable pub valid_append : AppendEntries → Bool
valid_append r =
    not (eqb r.term 0)
    && not (eqb r.leader_id 0)
    && not (eqb r.rpc_id 0)
    && valid_log_pointer r.prev_log_index r.prev_log_term

unfoldable pub write_append : AppendEntries → Limits → Writer → Bool × Writer
write_append r limits w = Writer.and_then (put_u64 r.term w) λ a.
    Writer.and_then (put_u32 r.leader_id a) λ b. Writer.and_then (put_u64 r.rpc_id b) λ c.
      Writer.and_then (put_u64 r.prev_log_index c) λ d.
        Writer.and_then (put_u64 r.prev_log_term d) λ e.
          Writer.and_then (put_u32 (length r.entries) e)
            λ f. Writer.and_then (write_entries r.entries limits f) (put_u64 r.leader_commit)

unfoldable pub write_append_entries : AppendEntries → Limits → Writer → Bool × Writer
write_append_entries r limits w =
    if valid_append r
    then (if ltb limits.max_entries_per_append (length r.entries)
          || ltb 4294967295 (length r.entries)
        then (false, Writer.fail Error.limit_exceeded w)
        else if consecutive_entries r
        then write_append r limits w
        else (false, Writer.fail Error.invalid_value w))
    else (false, Writer.fail Error.invalid_value w)

unfoldable pub write_append_entries_response : AppendEntriesResponse → Writer → Bool × Writer
write_append_entries_response r w =
    if eqb r.term 0 || eqb r.rpc_id 0
    then (false, Writer.fail Error.invalid_value w)
    else Writer.and_then (put_u64 r.term w) λ a. Writer.and_then (put_u64 r.rpc_id a) λ b.
      Writer.and_then (put_u8 (bit r.success) b) λ c.
        Writer.and_then (put_u64 r.match_index c)
          λ d. Writer.and_then (put_u64 r.conflict_index d) (put_u64 r.conflict_term)

unfoldable pub message_type : Message → WireType
message_type (Message.request_vote r) = WireType.request_vote
message_type (Message.request_vote_response r) = WireType.request_vote_response
message_type (Message.append_entries r) = WireType.append_entries
message_type (Message.append_entries_response r) = WireType.append_entries_response

unfoldable pub write_message : Message → Limits → Writer → Bool × Writer
write_message (Message.request_vote r) limits w = write_request_vote r w
write_message (Message.request_vote_response r) limits w = write_request_vote_response r w
write_message (Message.append_entries r) limits w = write_append_entries r limits w
write_message (Message.append_entries_response r) limits w = write_append_entries_response r w

unfoldable pub encode_message : Message → Limits → Result Bytes
encode_message message limits =
    frame (message_type message)
      (write_message message limits (new_writer (payload_limit limits))).1 limits
