-- ===== src/Codec/Entry.antt =====
-- Log entries through the wire format and back.
use det_log.Prelude.{
  ◌≡◌, refl, sym, ap, subst, ◌<◌, ◌%◌, ◌^◌, ℕ, Bool, true, false, Option, none, some, [], ◌∷◌, ◌++◌,
  arith, length, if◌then◌else◌, append_nil, eqb, ◌||◌, is_some,
}
use det_log.Model.{Bytes, ClientCommand, LogEntry}
use det_log.Codec.{Error, Limits, success}
use det_log.Codec.Frame.{WireType, payload_limit, encode_log_entry, decode_log_entry}
use det_log.Codec.Framed.{Room, frame_bytes, frame-success, payload_limit-Room}
use det_log.Codec.Writer.{Writer, new_writer}
use det_log.Codec.Reader
use det_log.Codec.Reader.{Reader, get_u8, get_u64, get_bool}
use det_log.Codec.Payload.{
  read_command_payload, write_optional_command, presence, write_entry_payload,
  read_optional_command, read_entry_payload,
}
use det_log.Codec.Written.{
  Writes, Reads, and_then-Writes, and_then-Reads, be, put_u8-Writes, put_be-Writes, get_u8-Reads,
  get_u64-Reads, done-Reads,
}
use det_log.Codec.Command.{
  CommandFits, command_payload, write_command_payload-Writes, read_command_payload-Reads,
  decode_as-Reads,
}

abbrev pub OptionalFits : Limits → Option ClientCommand → Type 0
OptionalFits limits none = Unit {0}
OptionalFits limits (some c) = CommandFits limits c

-- The entry has a real index and term of 64 bits, and its command fits the limits.
pub record EntryFits (limits : Limits) (entry : LogEntry) : Type 0 where
  pub index : entry.index < 2 ^ 64
  pub term : entry.term < 2 ^ 64
  pub real_index : 0 < entry.index
  pub real_term : 0 < entry.term
  pub command : OptionalFits limits entry.command

abbrev pub optional_bytes : Option ClientCommand → Bytes
optional_bytes none = []
optional_bytes (some c) = command_payload c

abbrev pub entry_payload : LogEntry → Bytes
entry_payload entry =
    be 8 entry.index
    ++ (be 8 entry.term ++ ((presence entry.command % 256 ∷ []) ++ optional_bytes entry.command))

write_optional_command-Writes :
    (limits : Limits) (o : Option ClientCommand)
    → OptionalFits limits o
    → Writes (write_optional_command o limits) (optional_bytes o)
unfolding write_optional_command
write_optional_command-Writes limits none f w h =
    ap (λ out. (true, record w { bytes = out })) (sym (append_nil w.bytes))
write_optional_command-Writes limits (some c) f w h = write_command_payload-Writes limits c f w h

nonzero :
    (entry : LogEntry)
    → 0 < entry.index
    → 0 < entry.term
    → (eqb entry.index 0 || eqb entry.term 0) ≡ false
nonzero entry a b = ground (arith, a, b)

pub write_entry_payload-Writes :
    (limits : Limits) (entry : LogEntry)
    → EntryFits limits entry
    → Writes (write_entry_payload entry limits) (entry_payload entry)
unfolding write_entry_payload
write_entry_payload-Writes limits entry f w h = rw (nonzero entry f.real_index f.real_term) (
    and_then-Writes _ _ (be 8 entry.index) _ (put_be-Writes 8 entry.index)
      (and_then-Writes _ _ (be 8 entry.term) _ (put_be-Writes 8 entry.term) (
        and_then-Writes _ _ (presence entry.command % 256 ∷ []) (optional_bytes entry.command)
          (put_u8-Writes (presence entry.command))
          (write_optional_command-Writes limits entry.command f.command)))
      w h)

get_bool-Reads : (o : Option ClientCommand) → Reads get_bool (presence o % 256 ∷ []) (is_some o)
unfolding get_bool Reader.and_then
get_bool-Reads none r rest h = rw (get_u8-Reads 0 r rest h) refl
get_bool-Reads (some c) r rest h = rw (get_u8-Reads 1 r rest h) refl

read_optional_command-Reads :
    (limits : Limits) (o : Option ClientCommand)
    → OptionalFits limits o
    → Reads (read_optional_command (is_some o) limits) (optional_bytes o) o
unfolding read_optional_command
read_optional_command-Reads limits none f r rest h = done-Reads none r rest h
read_optional_command-Reads limits (some c) f r rest h =
    subst (λ out. Reads (read_optional_command true limits) out (some c))
      (append_nil (command_payload c))
      (and_then-Reads (read_command_payload limits) (λ d s. (some (some d), s)) (command_payload c)
        [] c (some c) (read_command_payload-Reads limits c f) (done-Reads (some c)))
      r rest h

-- What read_entry_payload does behind the presence byte.
abbrev pub read_command_of : Limits → ℕ → ℕ → Bool → Reader → Option LogEntry × Reader
read_command_of limits index term has_command d =
    if eqb index 0 || eqb term 0
    then (none, Reader.fail Error.invalid_value d)
    else Reader.and_then (read_optional_command has_command limits d)
        (λ command e. (some (record { index = index; term = term; command = command }), e))

read_command_of-Reads :
    (limits : Limits) (entry : LogEntry)
    → EntryFits limits entry
    → Reads
        (read_command_of limits entry.index entry.term (is_some entry.command))
        (optional_bytes entry.command ++ [])
        entry
read_command_of-Reads limits entry f r rest h = rw (nonzero entry f.real_index f.real_term) (
    and_then-Reads (read_optional_command (is_some entry.command) limits)
      (λ command e.
        (some (record { index = entry.index; term = entry.term; command = command }), e))
      (optional_bytes entry.command) [] entry.command entry
      (read_optional_command-Reads limits entry.command f.command) (done-Reads entry) r rest h)

pub read_entry_payload-Reads :
    (limits : Limits) (entry : LogEntry)
    → EntryFits limits entry
    → Reads (read_entry_payload limits) (entry_payload entry) entry
unfolding read_entry_payload
read_entry_payload-Reads limits entry f =
    let from_command = optional_bytes entry.command ++ [] in
    let from_presence = (presence entry.command % 256 ∷ []) ++ from_command in
    let from_term = be 8 entry.term ++ from_presence in
    subst
      (λ out.
        Reads (read_entry_payload limits)
          (be 8 entry.index ++ (be 8 entry.term ++ ((presence entry.command % 256 ∷ []) ++ out)))
          entry)
      (append_nil (optional_bytes entry.command))
      (and_then-Reads get_u64 _ (be 8 entry.index) from_term entry.index entry
        (get_u64-Reads entry.index f.index)
        (and_then-Reads get_u64 _ (be 8 entry.term) from_presence entry.term entry
          (get_u64-Reads entry.term f.term)
          (and_then-Reads get_bool (read_command_of limits entry.index entry.term)
            (presence entry.command % 256 ∷ []) from_command (is_some entry.command) entry
            (get_bool-Reads entry.command) (read_command_of-Reads limits entry f))))

-- A log entry that fits its limits, and whose frame fits too, encodes; and decoding the frame under
-- the same limits gives the entry back, its command or its absence included.
pub decode_log_entry-encode_log_entry :
    (entry : LogEntry) (limits : Limits)
    → EntryFits limits entry
    → Room limits (length (entry_payload entry))
    → (encode_log_entry entry limits
        ≡ success (frame_bytes WireType.log_entry (entry_payload entry)))
      × (decode_log_entry (frame_bytes WireType.log_entry (entry_payload entry)) limits
          ≡ success entry)
unfolding encode_log_entry decode_log_entry
decode_log_entry-encode_log_entry entry limits f room =
    let w = new_writer (payload_limit limits) in
    let written =
      write_entry_payload-Writes limits entry f w
        (omega (arith, payload_limit-Room limits (length (entry_payload entry)) room)) in
    (
      frame-success WireType.log_entry (entry_payload entry) (write_entry_payload entry limits w).1
          limits (ap (λ (p : Bool × Writer). p.1.error) written)
          (ap (λ (p : Bool × Writer). p.1.bytes) written) room,
      decode_as-Reads WireType.log_entry (read_entry_payload limits) (entry_payload entry) entry
          limits room (read_entry_payload-Reads limits entry f),
    )
