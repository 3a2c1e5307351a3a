-- ===== src/Codec/Framed.antt =====
-- A frame that `frame` makes is what `parse_frame` takes apart.
use det_log.Prelude.{
  ◌≡◌, refl, ap, ◌≤◌, ◌<◌, ◌+◌, ◌%◌, ◌^◌, ℕ, true, false, Option, none, some, [], ◌∷◌, ◌++◌, arith,
  length, take-all, ltb, ◌||◌,
}
use det_log.Model.{Bytes}
use det_log.Codec.{Limits, success, header_bytes}
use det_log.Codec.Writer.{Writer, new_writer, put_u8, put_be}
use det_log.Codec.Reader.{Reader, new_reader, get_u8, get_be}
use det_log.Codec.Frame.{
  WireType, type_code, type_of, payload_limit, magic, version, put_each, put_frame, frame,
  get_magic, Header, get_header, check_header, parse_frame,
}
use det_log.Codec.Written.{
  Writes, Reads, and_then-Writes, and_then-Reads, be, put_u8-Writes, put_be-Writes,
  put_bytes-Writes, get_u8-Reads, get_u16-Reads, get_u32-Reads, done-Reads,
}

abbrev pub frame_bytes : WireType → Bytes → Bytes
frame_bytes type payload =
    magic
    ++ ((version % 256 ∷ [])
        ++ ((type_code type % 256 ∷ []) ++ (be 2 0 ++ (be 4 (length payload) ++ payload))))

magic-Writes : Writes (put_each magic) magic
unfolding put_each put_be
magic-Writes = and_then-Writes (put_u8 68) _ (68 ∷ []) (76 ∷ 79 ∷ 71 ∷ []) (put_u8-Writes 68) (
    and_then-Writes (put_u8 76) _ (76 ∷ []) (79 ∷ 71 ∷ []) (put_u8-Writes 76) (
      and_then-Writes (put_u8 79) _ (79 ∷ []) (71 ∷ []) (put_u8-Writes 79) (
        and_then-Writes (put_u8 71) (λ w. (true, w)) (71 ∷ []) [] (put_u8-Writes 71)
          (put_be-Writes 0 0))))

put_frame-Writes :
    (type : WireType) (payload : Bytes) → Writes (put_frame type payload) (frame_bytes type payload)
unfolding put_frame
put_frame-Writes type payload w h =
    and_then-Writes _ _ magic _ magic-Writes
      (and_then-Writes _ _ (version % 256 ∷ []) _ (put_u8-Writes version) (
        and_then-Writes _ _ (type_code type % 256 ∷ []) _ (put_u8-Writes (type_code type)) (
          and_then-Writes _ _ (be 2 0) _ (put_be-Writes 2 0) (
            and_then-Writes _ _ (be 4 (length payload)) payload (put_be-Writes 4 (length payload))
              (put_bytes-Writes payload)))))
      w h

-- The limits leave room for the payload.
pub record Room (limits : Limits) (size : ℕ) : Type 0 where
  pub header : header_bytes ≤ limits.max_frame_bytes
  pub frame : header_bytes + size ≤ limits.max_frame_bytes
  pub word : size < 2 ^ 32

pub payload_limit-Room :
    (limits : Limits) (size : ℕ) → Room limits size → size ≤ payload_limit limits
unfolding payload_limit
payload_limit-Room limits size r = ground (arith, r.header, r.frame, r.word)

length-frame_bytes :
    (type : WireType) (payload : Bytes) → length (frame_bytes type payload) ≡ 12 + length payload
length-frame_bytes type payload = omega arith

-- A payload without an error goes out behind its header.
pub frame-success :
    (type : WireType) (payload : Bytes) (w : Writer) (limits : Limits)
    → w.error ≡ none
    → w.bytes ≡ payload
    → Room limits (length payload)
    → frame type w limits ≡ success (frame_bytes type payload)
unfolding frame
frame-success type payload w limits none_yet same room =
    let fits : (ltb limits.max_frame_bytes header_bytes
          || ltb (payload_limit limits) (length payload))
        ≡ false =
      ground (arith, room.header, payload_limit-Room limits (length payload) room) in
    rw
      (
        none_yet,
        same,
        fits,
        put_frame-Writes type payload (new_writer limits.max_frame_bytes)
            (omega (arith, room.frame, length-frame_bytes type payload)),
      )
      refl

type_of-type_code : (type : WireType) → type_of (type_code type % 256) ≡ some type
unfolding type_of type_code
type_of-type_code WireType.command = refl
type_of-type_code WireType.log_entry = refl
type_of-type_code WireType.request_vote = refl
type_of-type_code WireType.request_vote_response = refl
type_of-type_code WireType.append_entries = refl
type_of-type_code WireType.append_entries_response = refl

magic-Reads : Reads (get_magic magic) magic tt
unfolding get_magic
magic-Reads = and_then-Reads get_u8 _ (68 ∷ []) (76 ∷ 79 ∷ 71 ∷ []) 68 tt (get_u8-Reads 68) (
    and_then-Reads get_u8 _ (76 ∷ []) (79 ∷ 71 ∷ []) 76 tt (get_u8-Reads 76) (
      and_then-Reads get_u8 _ (79 ∷ []) (71 ∷ []) 79 tt (get_u8-Reads 79)
        (and_then-Reads get_u8 _ (71 ∷ []) [] 71 tt (get_u8-Reads 71) (done-Reads tt))))

-- The header's bytes, without the magic.
abbrev rest_of_header : WireType → ℕ → Bytes
rest_of_header type size =
    (version % 256 ∷ []) ++ ((type_code type % 256 ∷ []) ++ (be 2 0 ++ (be 4 size ++ [])))

abbrev good_header : WireType → ℕ → Header
good_header type size = record {
  version = version % 256;
  raw_type = type_code type % 256;
  reserved = 0;
  length = size;
}

get_header-Reads :
    (type : WireType) (size : ℕ)
    → size < 2 ^ 32
    → Reads get_header (magic ++ rest_of_header type size) (good_header type size)
unfolding get_header
get_header-Reads type size word r rest e =
    let h = good_header type size in
    let from_size = be 4 size ++ [] in
    let from_reserved = be 2 0 ++ from_size in
    let from_type = (type_code type % 256 ∷ []) ++ from_reserved in
    and_then-Reads (get_magic magic) _ magic (rest_of_header type size) tt h magic-Reads
      (and_then-Reads get_u8 _ (version % 256 ∷ []) from_type (version % 256) h
        (get_u8-Reads (version % 256))
        (and_then-Reads get_u8 _ (type_code type % 256 ∷ []) from_reserved (type_code type % 256) h
          (get_u8-Reads (type_code type % 256))
          (and_then-Reads (get_be 16 2 0) _ (be 2 0) from_size 0 h (get_u16-Reads 0 (omega arith)) (
            and_then-Reads (get_be 32 4 0) _ (be 4 size) [] size h (get_u32-Reads size word)
              (done-Reads h)))))
      r rest e

check_header-good :
    (type : WireType) (payload : Bytes) (r : Reader) (limits : Limits)
    → Room limits (length payload)
    → r.left ≡ payload
    → check_header (good_header type (length payload)) (frame_bytes type payload) r limits
      ≡ success (record { type = type; payload = payload })
unfolding check_header
check_header-good type payload r limits room e =
    let within : ltb (payload_limit limits) (length payload) ≡ false =
      ground (arith, payload_limit-Room limits (length payload) room) in
    let exact : ltb (length payload) (length payload) ≡ false = ground arith in
    rw (type_of-type_code type, within, e, exact, take-all (length payload) payload (omega arith))
      refl

pub parse_frame-frame_bytes :
    (type : WireType) (payload : Bytes) (limits : Limits)
    → Room limits (length payload)
    → parse_frame (frame_bytes type payload) limits
      ≡ success (record { type = type; payload = payload })
unfolding parse_frame
parse_frame-frame_bytes type payload limits room =
    let within : ltb limits.max_frame_bytes (length (frame_bytes type payload)) ≡ false =
      ground (arith, room.frame, length-frame_bytes type payload) in
    let start = new_reader (frame_bytes type payload) 0 in
    let headed = get_header-Reads type (length payload) room.word start payload refl in
    rw (within, headed)
      (check_header-good type payload (get_header start).1 limits room
        (ap (λ (p : Option Header × Reader). p.1.left) headed))
