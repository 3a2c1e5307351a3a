-- ===== src/Codec/Tests.antt =====
-- A command and an entry on the wire, and the round trips at them.
use det_log.Codec.Canonical.Commands.{
  encode_command-decode_command, encode_log_entry-decode_log_entry,
}
use det_log.Codec.Canonical.Messages.{encode_message-decode_message}
use det_log.Prelude.{
  ◌≡◌, refl, arith, some, [], ◌∷◌, ◌<◌, All, true, Bool, false, ltb, if◌then◌else◌, Bool-cases, inl,
  inr,
}
use det_log.Model.{ClientCommand, CommandKind, LogEntry, Message, Bytes}
use det_log.Codec.Reader
use det_log.Codec.Payload
use det_log.Codec.Frame
use det_log.Codec.Decode
use det_log.Codec.{Limits, success}
use det_log.Codec.Payload.{valid_command_semantics, is_put}
use det_log.Codec.Message.{
  valid_append, valid_log_pointer, consecutive_entries, consecutive_from, message_type,
  encode_message,
}
use det_log.Codec.Decode.{decode_message}
use det_log.Codec.Messages.{MessageFits, message_bytes, decode_message-encode_message}
use det_log.Codec.Frame.{
  WireType, encode_command, decode_command, encode_log_entry, decode_log_entry,
}
use det_log.Codec.Framed.{frame_bytes}
use det_log.Codec.Command.{CommandFits, command_payload, decode_command-encode_command}
use det_log.Codec.Entry.{EntryFits, entry_payload, decode_log_entry-encode_log_entry}

abbrev limits : Limits
limits = record {
  max_frame_bytes = 1048576;
  max_key_bytes = 4096;
  max_value_bytes = 65536;
  max_entries_per_append = 256;
}

abbrev put_a : ClientCommand
put_a = record {
  session = record { high = 1; low = 258 };
  sequence = 1;
  kind = CommandKind.put;
  key = b'a' ∷ [];
  value = b'x' ∷ b'y' ∷ [];
}

abbrev first_entry : LogEntry
first_entry = record { index = 1; term = 3; command = some put_a }

put_a-CommandFits : CommandFits limits put_a
unfolding valid_command_semantics is_put
put_a-CommandFits = record {
  high = omega arith;
  low = omega arith;
  sequence = omega arith;
  valid = refl;
  key = omega arith;
  key_word = omega arith;
  value = omega arith;
  value_word = omega arith;
}

decode_command-encode_command_example :
    (encode_command put_a limits ≡ success (frame_bytes WireType.command (command_payload put_a)))
    × (decode_command (frame_bytes WireType.command (command_payload put_a)) limits ≡ success put_a)
decode_command-encode_command_example =
    decode_command-encode_command put_a limits put_a-CommandFits
      (record { header = omega arith; frame = omega arith; word = omega arith })

first_entry-EntryFits : EntryFits limits first_entry
first_entry-EntryFits = record {
  index = omega arith;
  term = omega arith;
  real_index = omega arith;
  real_term = omega arith;
  command = put_a-CommandFits;
}

decode_log_entry-encode_log_entry_example :
    (encode_log_entry first_entry limits
      ≡ success (frame_bytes WireType.log_entry (entry_payload first_entry)))
    × (decode_log_entry (frame_bytes WireType.log_entry (entry_payload first_entry)) limits
        ≡ success first_entry)
decode_log_entry-encode_log_entry_example =
    decode_log_entry-encode_log_entry first_entry limits first_entry-EntryFits
      (record { header = omega arith; frame = omega arith; word = omega arith })

abbrev append : Message
append = Message.append_entries (record {
  term = 3;
  leader_id = 2;
  rpc_id = 9;
  prev_log_index = 0;
  prev_log_term = 0;
  entries = first_entry ∷ [];
  leader_commit = 1;
})

append-MessageFits : MessageFits limits append
unfolding valid_append valid_log_pointer consecutive_entries consecutive_from
append-MessageFits = record {
  term = omega arith;
  leader_id = omega arith;
  rpc_id = omega arith;
  prev_log_index = omega arith;
  prev_log_term = omega arith;
  leader_commit = omega arith;
  entries = (first_entry-EntryFits, tt);
  count = omega arith;
  count_word = omega arith;
  valid = refl;
  consecutive = refl;
}

decode_message-encode_message_example :
    (encode_message append limits
      ≡ success (frame_bytes (message_type append) (message_bytes append)))
    × (decode_message (frame_bytes (message_type append) (message_bytes append)) limits
        ≡ success append)
decode_message-encode_message_example =
    decode_message-encode_message append limits append-MessageFits
      (record { header = omega arith; frame = omega arith; word = omega arith })

-- Every byte is below 256.
abbrev below : Bytes → Bool
below [] = true
below (byte ∷ bytes) = let rest = below bytes in if ltb byte 256 then rest else false

octets : (bytes : Bytes) → below bytes ≡ true → All (λ byte. byte < 256) bytes
octets [] h = tt
octets (byte ∷ bytes) h = elim (Bool-cases (ltb byte 256)) [
  | inl small ↦ (ground (arith, small), octets bytes (rw small at h))
  | inr large ↦ let bad = rw large at h in absurd (cc (bad))
]

-- A granted vote in term 7, byte by byte.
abbrev vote_frame : Bytes
vote_frame =
    68 ∷ 76 ∷ 79 ∷ 71 ∷ 1 ∷ 17 ∷ 0 ∷ 0 ∷ 0 ∷ 0 ∷ 0 ∷ 9 ∷ 0 ∷ 0 ∷ 0 ∷ 0 ∷ 0 ∷ 0 ∷ 0 ∷ 7 ∷ 1 ∷ []

abbrev vote : Message
vote = Message.request_vote_response (record { term = 7; vote_granted = true })

vote_decoded : decode_message vote_frame limits ≡ success vote
unfolding decode_message Frame.parse_frame Frame.get_header Reader.and_then Frame.get_magic
    Reader.get_u8 Reader.get_be Frame.check_header Frame.type_of Frame.payload_limit
    Decode.decode_typed Decode.accept_if Frame.decode_exact Decode.read_request_vote_response
    Reader.get_bool Decode.valid_response
vote_decoded = refl

encode_message-decode_message_example : encode_message vote limits ≡ success vote_frame
encode_message-decode_message_example =
    encode_message-decode_message vote_frame limits vote (octets vote_frame refl) vote_decoded

-- get of the key "a" by the session (0, 2), as its first command.
abbrev get_frame : Bytes
get_frame =
    68 ∷ 76 ∷ 79 ∷ 71 ∷ 1 ∷ 1 ∷ 0 ∷ 0 ∷ 0 ∷ 0 ∷ 0 ∷ 34 ∷ 0 ∷ 0 ∷ 0 ∷ 0 ∷ 0 ∷ 0 ∷ 0 ∷ 0 ∷ 0 ∷ 0 ∷ 0
    ∷ 0 ∷ 0 ∷ 0 ∷ 0 ∷ 2 ∷ 0 ∷ 0 ∷ 0 ∷ 0 ∷ 0 ∷ 0 ∷ 0 ∷ 1 ∷ 3 ∷ 0 ∷ 0 ∷ 0 ∷ 1 ∷ 97 ∷ 0 ∷ 0 ∷ 0 ∷ 0
    ∷ []

abbrev get_a : ClientCommand
get_a = record {
  session = record { high = 0; low = 2 };
  sequence = 1;
  kind = CommandKind.get;
  key = 97 ∷ [];
  value = [];
}

get_decoded : decode_command get_frame limits ≡ success get_a
unfolding decode_command Frame.decode_as Frame.parse_frame Frame.get_header Reader.and_then
    Frame.get_magic Reader.get_u8 Reader.get_be Frame.check_header Frame.type_of Frame.payload_limit
    Frame.type_code Frame.decode_exact Payload.read_command_payload Payload.read_kind
    Payload.kind_of Reader.get_string Payload.finish_command valid_command_semantics is_put
get_decoded = refl

encode_command-decode_command_example : encode_command get_a limits ≡ success get_frame
encode_command-decode_command_example =
    encode_command-decode_command get_frame limits get_a (octets get_frame refl) get_decoded

abbrev entry_frame : Bytes
entry_frame = frame_bytes WireType.log_entry (entry_payload first_entry)

entry_octets : below entry_frame ≡ true
unfolding Frame.type_code det_log.Codec.shift_bytes det_log.Model.kind_code
entry_octets = refl

encode_log_entry-decode_log_entry_example :
    encode_log_entry first_entry limits ≡ success entry_frame
encode_log_entry-decode_log_entry_example =
    encode_log_entry-decode_log_entry entry_frame limits first_entry
      (octets entry_frame entry_octets) decode_log_entry-encode_log_entry_example.1
