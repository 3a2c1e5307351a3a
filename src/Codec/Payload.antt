-- ===== src/Codec/Payload.antt =====
-- src/codec.cpp: the payloads of commands and log entries.
use det_log.Prelude.{ℕ, Bool, true, false, ◌&&◌, ◌||◌, not, Option, none, some, if◌then◌else◌, eqb}
use det_log.Model.{CommandKind, ClientCommand, LogEntry, kind_code, is_nil}
use det_log.Codec.{Error, Limits}
use det_log.Codec.Writer
use det_log.Codec.Writer.{Writer, put_u8, put_u64, put_string}
use det_log.Codec.Reader
use det_log.Codec.Reader.{Reader, get_u8, get_u64, get_string, get_bool}

-- static_cast<CommandKind>(value), where known_command_kind holds
unfoldable pub kind_of : ℕ → Option CommandKind
kind_of value =
    if eqb value 1
    then some CommandKind.put
    else if eqb value 2
    then some CommandKind.erase
    else if eqb value 3
    then some CommandKind.get
    else none

unfoldable pub is_put : CommandKind → Bool
is_put CommandKind.put = true
is_put _ = false

unfoldable pub valid_command_semantics : ClientCommand → Bool
unfolding is_put
valid_command_semantics c =
    not (eqb c.sequence 0) && not (is_nil c.key) && (is_put c.kind || is_nil c.value)

-- Every CommandKind of the model is known.
unfoldable pub write_command_payload : ClientCommand → Limits → Writer → Bool × Writer
write_command_payload c limits w =
    if valid_command_semantics c
    then (Writer.and_then (put_u64 c.session.high w) λ a.
        Writer.and_then (put_u64 c.session.low a) λ b. Writer.and_then (put_u64 c.sequence b) λ d.
          Writer.and_then (put_u8 (kind_code c.kind) d) λ e.
            Writer.and_then (put_string c.key limits.max_key_bytes e)
              (put_string c.value limits.max_value_bytes))
    else (false, Writer.fail Error.invalid_value w)

unfoldable pub finish_command : ClientCommand → Reader → Option ClientCommand × Reader
finish_command c r =
    if valid_command_semantics c then (some c, r) else (none, Reader.fail Error.invalid_value r)

unfoldable pub read_kind : Reader → Option CommandKind × Reader
read_kind r = Reader.and_then (get_u8 r) λ raw s. elim (kind_of raw) [
  | none ↦ (none, Reader.fail Error.invalid_enum s)
  | some kind ↦ (some kind, s)
]

unfoldable pub read_command_payload : Limits → Reader → Option ClientCommand × Reader
read_command_payload limits r = Reader.and_then (get_u64 r) λ high a.
    Reader.and_then (get_u64 a) λ low b. Reader.and_then (get_u64 b) λ sequence d.
      Reader.and_then (read_kind d) λ kind e.
        Reader.and_then (get_string limits.max_key_bytes e) λ key f.
          Reader.and_then (get_string limits.max_value_bytes f) λ value g.
            finish_command
              (record {
                session = record { high = high; low = low };
                sequence = sequence;
                kind = kind;
                key = key;
                value = value;
              })
              g

unfoldable pub write_optional_command : Option ClientCommand → Limits → Writer → Bool × Writer
write_optional_command none limits w = (true, w)
write_optional_command (some c) limits w = write_command_payload c limits w

abbrev pub presence : Option ClientCommand → ℕ
presence none = 0
presence (some c) = 1

unfoldable pub write_entry_payload : LogEntry → Limits → Writer → Bool × Writer
write_entry_payload entry limits w =
    if eqb entry.index 0 || eqb entry.term 0
    then (false, Writer.fail Error.invalid_value w)
    else Writer.and_then (put_u64 entry.index w) λ a. Writer.and_then (put_u64 entry.term a) λ b.
      Writer.and_then (put_u8 (presence entry.command) b)
        (write_optional_command entry.command limits)

unfoldable pub read_optional_command :
    Bool → Limits → Reader → Option (Option ClientCommand) × Reader
read_optional_command false limits r = (some none, r)
read_optional_command true limits r =
    Reader.and_then (read_command_payload limits r) (λ c s. (some (some c), s))

unfoldable pub read_entry_payload : Limits → Reader → Option LogEntry × Reader
read_entry_payload limits r = Reader.and_then (get_u64 r) λ index a.
    Reader.and_then (get_u64 a) λ term b. Reader.and_then (get_bool b) λ has_command d.
      if eqb index 0 || eqb term 0
      then (none, Reader.fail Error.invalid_value d)
      else Reader.and_then (read_optional_command has_command limits d)
          (λ command e. (some (record { index = index; term = term; command = command }), e))
