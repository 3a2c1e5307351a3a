-- ===== src/Codec/Decode.antt =====
-- src/codec.cpp: decode_message.
use det_log.Prelude.{
  ℕ, zero, suc, ◌-◌, ◌/◌, Bool, true, ◌||◌, not, List, [], ◌∷◌, Option, none, some, if◌then◌else◌,
  eqb, ltb, length,
}
use det_log.Model.{
  Bytes, LogEntry, Message, RequestVote, RequestVoteResponse, AppendEntries, AppendEntriesResponse,
}
use det_log.Codec.{Error, Limits, Result, success, failure, header_bytes}
use det_log.Codec.Reader
use det_log.Codec.Reader.{Reader, get_u32, get_u64, get_bool}
use det_log.Codec.Payload.{read_entry_payload}
use det_log.Codec.Frame.{WireType, ParsedFrame, parse_frame, decode_exact}
use det_log.Codec.Message.{consecutive_entries, valid_append, valid_request_vote}

unfoldable pub read_request_vote : Reader → Option RequestVote × Reader
read_request_vote r = Reader.and_then (get_u64 r) λ term a.
    Reader.and_then (get_u32 a) λ candidate_id b. Reader.and_then (get_u64 b) λ last_log_index c.
      Reader.and_then (get_u64 c) λ last_log_term d. (
        some (record {
          term = term;
          candidate_id = candidate_id;
          last_log_index = last_log_index;
          last_log_term = last_log_term;
        }),
        d,
      )

unfoldable pub read_request_vote_response : Reader → Option RequestVoteResponse × Reader
read_request_vote_response r = Reader.and_then (get_u64 r) λ term a.
    Reader.and_then (get_bool a)
      λ vote_granted b. (some (record { term = term; vote_granted = vote_granted }), b)

unfoldable pub read_append_entries_response : Reader → Option AppendEntriesResponse × Reader
read_append_entries_response r = Reader.and_then (get_u64 r) λ term a.
    Reader.and_then (get_u64 a) λ rpc_id b. Reader.and_then (get_bool b) λ success c.
      Reader.and_then (get_u64 c) λ match_index d. Reader.and_then (get_u64 d) λ conflict_index e.
        Reader.and_then (get_u64 e) λ conflict_term f. (
          some (record {
            term = term;
            rpc_id = rpc_id;
            success = success;
            match_index = match_index;
            conflict_index = conflict_index;
            conflict_term = conflict_term;
          }),
          f,
        )

-- The loop over the entries, `count` of them.
unfoldable pub read_entries : ℕ → Limits → Reader → Option (List LogEntry) × Reader
read_entries zero limits r = (some [], r)
read_entries (suc count) limits r =
    Reader.and_then (read_entry_payload limits r)
      λ entry s. Reader.and_then (read_entries count limits s) λ rest t. (some (entry ∷ rest), t)

-- After the entries: leader_commit, and the check of the indexes. `r` lacks the last two fields.
unfoldable pub finish_append_entries :
    AppendEntries → List LogEntry → Reader → Option AppendEntries × Reader
finish_append_entries r entries s = Reader.and_then (get_u64 s) λ leader_commit t.
    let whole = record r { entries = entries; leader_commit = leader_commit } in
    if consecutive_entries whole then (some whole, t) else (none, Reader.fail Error.invalid_value t)

-- With the count read: the checks, then the entries.
unfoldable pub read_append_body :
    AppendEntries → ℕ → Limits → Reader → Option AppendEntries × Reader
read_append_body r count limits s =
    if valid_append r
    then (if ltb limits.max_entries_per_append count
        then (none, Reader.fail Error.limit_exceeded s)
        else if ltb (length s.left) 8 || ltb ((length s.left - 8) / 17) count
        then (none, Reader.fail Error.truncated s)
        else Reader.and_then (read_entries count limits s) (finish_append_entries r))
    else (none, Reader.fail Error.invalid_value s)

unfoldable pub read_append_entries : Limits → Reader → Option AppendEntries × Reader
read_append_entries limits r = Reader.and_then (get_u64 r) λ term a.
    Reader.and_then (get_u32 a) λ leader_id b. Reader.and_then (get_u64 b) λ rpc_id c.
      Reader.and_then (get_u64 c) λ prev_log_index d. Reader.and_then (get_u64 d) λ prev_log_term e.
        Reader.and_then (get_u32 e) λ count f.
          read_append_body
            (record {
              term = term;
              leader_id = leader_id;
              rpc_id = rpc_id;
              prev_log_index = prev_log_index;
              prev_log_term = prev_log_term;
              entries = [];
              leader_commit = 0;
            })
            count limits f

-- The check that follows a decode_exact.
unfoldable pub accept_if {ℓ} : {A : Type ℓ} → (A → Bool) → (A → Message) → Result A → Result Message
accept_if valid wrap (failure error offset) = failure error offset
accept_if valid wrap (success value) =
    if valid value then success (wrap value) else failure Error.invalid_value header_bytes

unfoldable pub valid_response : RequestVoteResponse → Bool
valid_response r = not (eqb r.term 0)

unfoldable pub valid_append_response : AppendEntriesResponse → Bool
valid_append_response r = not (eqb r.term 0 || eqb r.rpc_id 0)

-- An AppendEntries is checked while it is read.
unfoldable pub decode_typed : WireType → ParsedFrame → Limits → Result Message
decode_typed WireType.request_vote parsed limits =
    accept_if valid_request_vote Message.request_vote (decode_exact parsed read_request_vote)
decode_typed WireType.request_vote_response parsed limits =
    accept_if valid_response Message.request_vote_response
      (decode_exact parsed read_request_vote_response)
decode_typed WireType.append_entries parsed limits =
    accept_if (λ r. true) Message.append_entries (decode_exact parsed (read_append_entries limits))
decode_typed WireType.append_entries_response parsed limits =
    accept_if valid_append_response Message.append_entries_response
      (decode_exact parsed read_append_entries_response)
decode_typed WireType.command parsed limits = failure Error.unexpected_type 5
decode_typed WireType.log_entry parsed limits = failure Error.unexpected_type 5

unfoldable pub decode_message : Bytes → Limits → Result Message
decode_message bytes limits = elim (parse_frame bytes limits) [
  | failure error offset ↦ failure error offset
  | success parsed ↦ decode_typed parsed.type parsed limits
]
