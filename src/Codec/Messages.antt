-- ===== src/Codec/Messages.antt =====
-- Every message through the wire format and back.
use det_log.Prelude.{◌≡◌, refl, sym, ap, Bool, true, Option, [], arith, length, append_nil}
use det_log.Model.{Bytes, Message}
use det_log.Codec.{Limits, success, header_bytes}
use det_log.Codec.Writer.{Writer, new_writer}
use det_log.Codec.Reader.{Reader, new_reader}
use det_log.Codec.Frame.{ParsedFrame, payload_limit, decode_exact}
use det_log.Codec.Framed.{
  Room, frame_bytes, frame-success, parse_frame-frame_bytes, payload_limit-Room,
}
use det_log.Codec.Message.{valid_request_vote, message_type, write_message, encode_message}
use det_log.Codec.Decode.{
  valid_response, valid_append_response, accept_if, decode_typed, decode_message, read_request_vote,
  read_request_vote_response, read_append_entries, read_append_entries_response,
}
use det_log.Codec.Written.{Writes, Reads}
use det_log.Codec.Votes.{
  VoteFits, vote_bytes, write_request_vote-Writes, read_request_vote-Reads, VoteResponseFits,
  vote_response_bytes, write_request_vote_response-Writes, read_request_vote_response-Reads,
  AppendResponseFits, append_response_bytes, write_append_entries_response-Writes,
  read_append_entries_response-Reads,
}
use det_log.Codec.Appends.{
  AppendFits, append_bytes, write_append_entries-Writes, read_append_entries-Reads,
}

-- The message's numbers have their widths, it passes the codec's checks, and its parts are within the
-- limits.
abbrev pub MessageFits : Limits → Message → Type 0
MessageFits limits (Message.request_vote r) = VoteFits r
MessageFits limits (Message.request_vote_response r) = VoteResponseFits r
MessageFits limits (Message.append_entries r) = AppendFits limits r
MessageFits limits (Message.append_entries_response r) = AppendResponseFits r

abbrev pub message_bytes : Message → Bytes
message_bytes (Message.request_vote r) = vote_bytes r
message_bytes (Message.request_vote_response r) = vote_response_bytes r
message_bytes (Message.append_entries r) = append_bytes r
message_bytes (Message.append_entries_response r) = append_response_bytes r

write_message-Writes :
    (limits : Limits) (message : Message)
    → MessageFits limits message
    → Writes (write_message message limits) (message_bytes message)
unfolding write_message
write_message-Writes limits (Message.request_vote r) f = write_request_vote-Writes r f
write_message-Writes limits (Message.request_vote_response r) f =
    write_request_vote_response-Writes r f
write_message-Writes limits (Message.append_entries r) f = write_append_entries-Writes limits r f
write_message-Writes limits (Message.append_entries_response r) f =
    write_append_entries_response-Writes r f

-- A decoder that reads the payload to its end, with the check behind it.
accept_if-Reads :
    {A : Type 0} (valid : A → Bool) (wrap : A → Message) (parsed : ParsedFrame)
    (decode : Reader → Option A × Reader) (value : A)
    → valid value ≡ true
    → Reads decode parsed.payload value
    → accept_if valid wrap (decode_exact parsed decode) ≡ success (wrap value)
unfolding accept_if decode_exact
accept_if-Reads {A = A} valid wrap parsed decode value ok reads =
    let all = reads (new_reader parsed.payload header_bytes) [] (sym (append_nil parsed.payload)) in
    let empty = ap (λ (p : Option A × Reader). p.1.left) all in
    rw (decode_exact, all, empty, accept_if, ok) refl

decode_typed-Reads :
    (limits : Limits) (message : Message)
    → MessageFits limits message
    → decode_typed
        (message_type message)
        (record { type = message_type message; payload = message_bytes message })
        limits
      ≡ success message
unfolding decode_typed message_type valid_response valid_append_response
decode_typed-Reads limits (Message.request_vote r) f =
    accept_if-Reads valid_request_vote Message.request_vote _ read_request_vote r f.valid
      (read_request_vote-Reads r f)
decode_typed-Reads limits (Message.request_vote_response r) f =
    accept_if-Reads valid_response Message.request_vote_response _ read_request_vote_response r
      (ground (arith, f.real)) (read_request_vote_response-Reads r f)
decode_typed-Reads limits (Message.append_entries r) f =
    accept_if-Reads (λ s. true) Message.append_entries _ (read_append_entries limits) r refl
      (read_append_entries-Reads limits r f)
decode_typed-Reads limits (Message.append_entries_response r) f =
    accept_if-Reads valid_append_response Message.append_entries_response _
      read_append_entries_response r (ground (arith, f.real, f.asked))
      (read_append_entries_response-Reads r f)

-- A message of any kind that fits its limits, and whose frame fits too, encodes; and decoding the
-- frame under the same limits gives the message back.
pub decode_message-encode_message :
    (message : Message) (limits : Limits)
    → MessageFits limits message
    → Room limits (length (message_bytes message))
    → (encode_message message limits
        ≡ success (frame_bytes (message_type message) (message_bytes message)))
      × (decode_message (frame_bytes (message_type message) (message_bytes message)) limits
          ≡ success message)
unfolding encode_message decode_message
decode_message-encode_message message limits f room =
    let w = new_writer (payload_limit limits) in
    let bytes = message_bytes message in
    let type = message_type message in
    let written =
      write_message-Writes limits message f w
        (omega (arith, payload_limit-Room limits (length bytes) room)) in
    (
      frame-success type bytes (write_message message limits w).1 limits
          (ap (λ (p : Bool × Writer). p.1.error) written)
          (ap (λ (p : Bool × Writer). p.1.bytes) written) room,
      rw (decode_message, parse_frame-frame_bytes type bytes limits room)
          (decode_typed-Reads limits message f),
    )
