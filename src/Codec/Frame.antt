-- ===== src/Codec/Frame.antt =====
-- src/codec.cpp: frames, and the encoders and decoders of commands and log entries.
use det_log.Prelude.{
  ℕ, ◌+◌, ◌-◌, min, Bool, true, false, ◌||◌, [], ◌∷◌, Option, none, some, if◌then◌else◌, eqb, ltb,
  length, take, drop,
}
use det_log.Model.{Bytes, ClientCommand, LogEntry}
use det_log.Codec.{Error, Limits, Result, success, failure, header_bytes}
use det_log.Codec.Writer
use det_log.Codec.Writer.{Writer, new_writer, put_u8, put_u16, put_u32, put_bytes}
use det_log.Codec.Reader
use det_log.Codec.Reader.{Reader, new_reader, get_u8, get_u16, get_u32, at_end, absolute_position}
use det_log.Codec.Payload.{
  write_command_payload, read_command_payload, write_entry_payload, read_entry_payload,
}

pub data WireType : Type 0 where
  command log_entry request_vote request_vote_response append_entries append_entries_response :
      WireType

unfoldable pub type_code : WireType → ℕ
type_code WireType.command = 1
type_code WireType.log_entry = 2
type_code WireType.request_vote = 16
type_code WireType.request_vote_response = 17
type_code WireType.append_entries = 18
type_code WireType.append_entries_response = 19

-- static_cast<WireType>(value), where known_wire_type holds
unfoldable pub type_of : ℕ → Option WireType
type_of value =
    if eqb value 1
    then some WireType.command
    else if eqb value 2
    then some WireType.log_entry
    else if eqb value 16
    then some WireType.request_vote
    else if eqb value 17
    then some WireType.request_vote_response
    else if eqb value 18
    then some WireType.append_entries
    else if eqb value 19
    then some WireType.append_entries_response
    else none

unfoldable pub payload_limit : Limits → ℕ
payload_limit limits =
    if ltb limits.max_frame_bytes header_bytes
    then 0
    else min (limits.max_frame_bytes - header_bytes) 4294967295

abbrev pub magic : Bytes
magic = 68 ∷ 76 ∷ 79 ∷ 71 ∷ []

abbrev pub version : ℕ
version = 1

unfoldable pub put_each : Bytes → Writer → Bool × Writer
put_each [] w = (true, w)
put_each (byte ∷ rest) w = Writer.and_then (put_u8 byte w) (put_each rest)

unfoldable pub put_frame : WireType → Bytes → Writer → Bool × Writer
put_frame type payload w = Writer.and_then (put_each magic w) λ a.
    Writer.and_then (put_u8 version a) λ b. Writer.and_then (put_u8 (type_code type) b) λ c.
      Writer.and_then (put_u16 0 c)
        λ d. Writer.and_then (put_u32 (length payload) d) (put_bytes payload)

abbrev or_none : Option Error → Error → Error
or_none none e = e
or_none (some e) d = e

abbrev framed : Bool × Writer → Result Bytes
framed (true, w) = success w.bytes
framed (false, w) = failure (or_none w.error Error.limit_exceeded) w.error_offset

unfoldable pub frame : WireType → Writer → Limits → Result Bytes
frame type payload limits = elim payload.error [
  | some error ↦ failure error (header_bytes + payload.error_offset)
  | none ↦
      if ltb limits.max_frame_bytes header_bytes
        || ltb (payload_limit limits) (length payload.bytes)
      then failure Error.limit_exceeded 0
      else framed (put_frame type payload.bytes (new_writer limits.max_frame_bytes))
]

-- The loop over the magic bytes: it stops at the first difference.
unfoldable pub get_magic : Bytes → Reader → Option (Unit {0}) × Reader
get_magic [] r = (some tt, r)
get_magic (expected ∷ rest) r = Reader.and_then (get_u8 r) λ actual s.
    if eqb actual expected
    then get_magic rest s
    else (none, record s { error = some Error.bad_magic; error_offset = absolute_position s - 1 })

pub record Header : Type 0 where
  pub version : ℕ
  pub raw_type : ℕ
  pub reserved : ℕ
  pub length : ℕ

unfoldable pub get_header : Reader → Option Header × Reader
get_header r = Reader.and_then (get_magic magic r) λ seen a. Reader.and_then (get_u8 a) λ v b.
    Reader.and_then (get_u8 b) λ raw_type c. Reader.and_then (get_u16 c) λ reserved d.
      Reader.and_then (get_u32 d) λ size e.
        (some (record { version = v; raw_type = raw_type; reserved = reserved; length = size }), e)

pub record ParsedFrame : Type 0 where
  pub type : WireType
  pub payload : Bytes

unfoldable pub check_header : Header → Bytes → Reader → Limits → Result ParsedFrame
check_header h bytes r limits =
    if eqb h.version version
    then elim (type_of h.raw_type) [
      | none ↦ failure Error.unknown_type 5
      | some type ↦
          if eqb h.reserved 0
          then (if ltb (payload_limit limits) h.length
              then failure Error.limit_exceeded 8
              else if ltb (length r.left) h.length
              then failure Error.truncated header_bytes
              else if ltb h.length (length r.left)
              then failure Error.trailing_bytes (header_bytes + h.length)
              else success
                  (record { type = type; payload = take h.length (drop header_bytes bytes) }))
          else failure Error.nonzero_reserved 6
    ]
    else failure Error.unsupported_version 4

unfoldable pub parse_frame : Bytes → Limits → Result ParsedFrame
parse_frame bytes limits =
    if ltb limits.max_frame_bytes (length bytes)
    then failure Error.limit_exceeded 0
    else (let (header, r) = get_header (new_reader bytes 0) in
        elim header [
          | none ↦ failure (or_none r.error Error.truncated) r.error_offset
          | some h ↦ check_header h bytes r limits
        ])

unfoldable pub decode_exact {ℓ} :
    {A : Type ℓ} → ParsedFrame → (Reader → Option A × Reader) → Result A
decode_exact parsed decode =
    let (value, r) = decode (new_reader parsed.payload header_bytes) in
    elim value [
      | none ↦ failure (or_none r.error Error.truncated) r.error_offset
      | some v ↦ if at_end r then success v else failure Error.trailing_bytes (absolute_position r)
    ]

unfoldable pub decode_as {ℓ} :
    {A : Type ℓ} → WireType → (Reader → Option A × Reader) → Bytes → Limits → Result A
decode_as type decode bytes limits = elim (parse_frame bytes limits) [
  | failure error offset ↦ failure error offset
  | success parsed ↦
      if eqb (type_code parsed.type) (type_code type)
      then decode_exact parsed decode
      else failure Error.unexpected_type 5
]

unfoldable pub encode_command : ClientCommand → Limits → Result Bytes
encode_command c limits =
    frame WireType.command (write_command_payload c limits (new_writer (payload_limit limits))).1
      limits

unfoldable pub decode_command : Bytes → Limits → Result ClientCommand
decode_command bytes limits = decode_as WireType.command (read_command_payload limits) bytes limits

unfoldable pub encode_log_entry : LogEntry → Limits → Result Bytes
encode_log_entry entry limits =
    frame WireType.log_entry
      (write_entry_payload entry limits (new_writer (payload_limit limits))).1 limits

unfoldable pub decode_log_entry : Bytes → Limits → Result LogEntry
decode_log_entry bytes limits =
    decode_as WireType.log_entry (read_entry_payload limits) bytes limits
