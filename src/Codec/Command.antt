-- ===== src/Codec/Command.antt =====
-- Commands through the wire format and back.
use det_log.Prelude.{
  ◌≡◌, refl, sym, ◌∙◌, ap, subst, ◌≤◌, ◌<◌, ◌+◌, ◌%◌, ◌^◌, Bool, true, Option, some, [], ◌∷◌, ◌++◌,
  arith, length, append_nil, eqb,
}
use det_log.Model.{Bytes, ClientCommand, CommandKind, kind_code}
use det_log.Codec.{Limits, success, header_bytes}
use det_log.Codec.Frame.{
  WireType, type_code, payload_limit, decode_as, decode_exact, encode_command, decode_command,
}
use det_log.Codec.Framed.{
  Room, frame_bytes, frame-success, parse_frame-frame_bytes, payload_limit-Room,
}
use det_log.Codec.Writer.{Writer, new_writer}
use det_log.Codec.Reader
use det_log.Codec.Reader.{Reader, new_reader, get_u8, get_u64, get_be, get_string, get_bool}
use det_log.Codec.Payload.{
  kind_of, valid_command_semantics, write_command_payload, finish_command, read_kind,
  read_command_payload,
}
use det_log.Codec.Written.{
  Writes, Reads, and_then-Writes, and_then-Reads, be, sized, put_u8-Writes, put_be-Writes,
  put_string-Writes, get_u8-Reads, get_u64-Reads, get_string-Reads,
}

-- The command's numbers have their widths, its strings are within the limits, and it is well formed.
pub record CommandFits (limits : Limits) (c : ClientCommand) : Type 0 where
  pub high : c.session.high < 2 ^ 64
  pub low : c.session.low < 2 ^ 64
  pub sequence : c.sequence < 2 ^ 64
  pub valid : valid_command_semantics c ≡ true
  pub key : length c.key ≤ limits.max_key_bytes
  pub key_word : length c.key < 2 ^ 32
  pub value : length c.value ≤ limits.max_value_bytes
  pub value_word : length c.value < 2 ^ 32

abbrev pub command_payload : ClientCommand → Bytes
command_payload c =
    be 8 c.session.high
    ++ (be 8 c.session.low
        ++ (be 8 c.sequence ++ ((kind_code c.kind % 256 ∷ []) ++ (sized c.key ++ sized c.value))))

pub write_command_payload-Writes :
    (limits : Limits) (c : ClientCommand)
    → CommandFits limits c
    → Writes (write_command_payload c limits) (command_payload c)
unfolding write_command_payload
write_command_payload-Writes limits c f w h = rw (f.valid) (
    and_then-Writes _ _ (be 8 c.session.high) _ (put_be-Writes 8 c.session.high)
      (and_then-Writes _ _ (be 8 c.session.low) _ (put_be-Writes 8 c.session.low) (
        and_then-Writes _ _ (be 8 c.sequence) _ (put_be-Writes 8 c.sequence) (
          and_then-Writes _ _ (kind_code c.kind % 256 ∷ []) _ (put_u8-Writes (kind_code c.kind)) (
            and_then-Writes _ _ (sized c.key) (sized c.value)
              (put_string-Writes c.key limits.max_key_bytes f.key f.key_word)
              (put_string-Writes c.value limits.max_value_bytes f.value f.value_word)))))
      w h)

read_kind-Reads : (kind : CommandKind) → Reads read_kind (kind_code kind % 256 ∷ []) kind
unfolding read_kind Reader.and_then kind_of kind_code
read_kind-Reads CommandKind.put r rest h = rw (get_u8-Reads 1 r rest h) refl
read_kind-Reads CommandKind.erase r rest h = rw (get_u8-Reads 2 r rest h) refl
read_kind-Reads CommandKind.get r rest h = rw (get_u8-Reads 3 r rest h) refl

finish_command-Reads :
    (c : ClientCommand) → valid_command_semantics c ≡ true → Reads (finish_command c) [] c
unfolding finish_command
finish_command-Reads c valid r rest h =
    let same : r.position ≡ r.position + 0 = omega arith in
    rw valid (
      ap (λ n. (some c, record r { position = n })) same
      ∙ ap (λ n. (some c, record r { left = n; position = r.position + 0 })) h)

pub read_command_payload-Reads :
    (limits : Limits) (c : ClientCommand)
    → CommandFits limits c
    → Reads (read_command_payload limits) (command_payload c) c
unfolding read_command_payload
read_command_payload-Reads limits c f r rest h =
    let from_value = sized c.value ++ [] in
    let from_key = sized c.key ++ from_value in
    let from_kind = (kind_code c.kind % 256 ∷ []) ++ from_key in
    let from_sequence = be 8 c.sequence ++ from_kind in
    let from_low = be 8 c.session.low ++ from_sequence in
    let reads =
      and_then-Reads _ _ (be 8 c.session.high) from_low c.session.high c
        (get_u64-Reads c.session.high f.high)
        (and_then-Reads _ _ (be 8 c.session.low) from_sequence c.session.low c
          (get_u64-Reads c.session.low f.low)
          (and_then-Reads _ _ (be 8 c.sequence) from_kind c.sequence c
            (get_u64-Reads c.sequence f.sequence)
            (and_then-Reads _ _ (kind_code c.kind % 256 ∷ []) from_key c.kind c
              (read_kind-Reads c.kind)
              (and_then-Reads _ _ (sized c.key) from_value c.key c
                (get_string-Reads c.key limits.max_key_bytes f.key f.key_word)
                (and_then-Reads _ _ (sized c.value) [] c.value c
                  (get_string-Reads c.value limits.max_value_bytes f.value f.value_word)
                  (finish_command-Reads c f.valid)))))) in
    subst
      (λ value.
        Reads (read_command_payload limits)
          (be 8 c.session.high
            ++ (be 8 c.session.low
                ++ (be 8 c.sequence ++ ((kind_code c.kind % 256 ∷ []) ++ (sized c.key ++ value)))))
          c)
      (append_nil (sized c.value)) reads r rest h

-- Decoding a frame whose payload the decoder reads to its end.
pub decode_as-Reads {ℓ} :
    {A : Type ℓ} (type : WireType) (decode : Reader → Option A × Reader) (payload : Bytes)
    (value : A) (limits : Limits)
    → Room limits (length payload)
    → Reads decode payload value
    → decode_as type decode (frame_bytes type payload) limits ≡ success value
unfolding decode_as decode_exact
decode_as-Reads {A = A} type decode payload value limits room reads =
    let same : eqb (type_code type) (type_code type) ≡ true = ground arith in
    let all = reads (new_reader payload header_bytes) [] (sym (append_nil payload)) in
    let empty = ap (λ (p : Option A × Reader). p.1.left) all in
    rw (decode_as, parse_frame-frame_bytes type payload limits room, same, decode_exact, all, empty)
      refl

-- A command that fits its limits, and whose frame fits too, encodes; and decoding the frame under the
-- same limits gives the command back, with no byte left over.
pub decode_command-encode_command :
    (c : ClientCommand) (limits : Limits)
    → CommandFits limits c
    → Room limits (length (command_payload c))
    → (encode_command c limits ≡ success (frame_bytes WireType.command (command_payload c)))
      × (decode_command (frame_bytes WireType.command (command_payload c)) limits ≡ success c)
unfolding encode_command decode_command
decode_command-encode_command c limits f room =
    let w = new_writer (payload_limit limits) in
    let written =
      write_command_payload-Writes limits c f w
        (omega (arith, payload_limit-Room limits (length (command_payload c)) room)) in
    (
      frame-success WireType.command (command_payload c) (write_command_payload c limits w).1 limits
          (ap (λ (p : Bool × Writer). p.1.error) written)
          (ap (λ (p : Bool × Writer). p.1.bytes) written) room,
      decode_as-Reads WireType.command (read_command_payload limits) (command_payload c) c limits
          room (read_command_payload-Reads limits c f),
    )
