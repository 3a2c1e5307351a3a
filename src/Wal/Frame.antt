-- ===== src/Wal/Frame.antt =====
-- src/wal.cpp: the file header and the frames around the payloads.
pub mod Written
pub mod Framed
pub mod Header
use det_log.Prelude.{
  ◌≡◌, ℕ, zero, suc, ◌+◌, ◌-◌, Bool, true, false, ◌&&◌, ◌||◌, not, Option, none, some, List, [],
  ◌∷◌, ◌++◌, ltb, eqb, if◌then◌else◌, length, take, drop,
}
use det_log.Model.{Bytes, PersistBatch}
use det_log.Wal.Types.{
  Result, done, error, ◌>>=◌, throw, WalErrorCode, WalIdentity, WalOptions, file_header_bytes,
  frame_header_bytes, frame_trailer_bytes, minimum_frame_bytes,
}
use det_log.Wal.Bytes.{
  ByteWriter, new_writer, raw, le, u8, u16, u32, u64, read_le, read_u16, read_u32, read_u64,
  expect_literal, crc32c,
}
use det_log.Wal.Payload.{encode_batch_payload, decode_batch_payload}

-- "DTLGWAL1", "DTLGFRM1" and "DTLGEND1"
abbrev pub file_magic : Bytes
file_magic = b'D' ∷ b'T' ∷ b'L' ∷ b'G' ∷ b'W' ∷ b'A' ∷ b'L' ∷ b'1' ∷ []

abbrev pub frame_magic : Bytes
frame_magic = b'D' ∷ b'T' ∷ b'L' ∷ b'G' ∷ b'F' ∷ b'R' ∷ b'M' ∷ b'1' ∷ []

abbrev pub trailer_magic : Bytes
trailer_magic = b'D' ∷ b'T' ∷ b'L' ∷ b'G' ∷ b'E' ∷ b'N' ∷ b'D' ∷ b'1' ∷ []

abbrev pub format_version : ℕ
format_version = 1

abbrev pub file_header_tag : ℕ
file_header_tag = 0x31444857

abbrev pub frame_header_tag : ℕ
frame_header_tag = 0x31444846

abbrev pub frame_trailer_tag : ℕ
frame_trailer_tag = 0x31524c54

unfoldable pub make_file_header : WalIdentity → Result Bytes
make_file_header identity =
    raw file_magic (new_writer file_header_bytes)
    >>= u16 format_version
    >>= u16 file_header_bytes
    >>= u32 0
    >>= u64 identity.cluster_id_high
    >>= u64 identity.cluster_id_low
    >>= u32 identity.node_id
    >>= u32 0
    >>= (λ w. u32 (crc32c w.bytes) w)
    >>= u32 file_header_tag
    >>= λ w. done w.bytes

unfoldable pub identity_beq : WalIdentity → WalIdentity → Bool
identity_beq a b =
    eqb a.cluster_id_high b.cluster_id_high
    && eqb a.cluster_id_low b.cluster_id_low
    && eqb a.node_id b.node_id

-- The fields behind the magic and the version.
unfoldable pub check_file_header : Bytes → WalIdentity → Bytes → Result (Unit {0})
unfolding identity_beq
check_file_header bytes expected left = read_u16 left >>= λ (size, left).
    read_u32 left >>= λ (reserved, left).
    if not (eqb size file_header_bytes) || not (eqb reserved 0)
    then throw WalErrorCode.format "invalid WAL file header fields"
    else (read_u64 left >>= λ (high, left). read_u64 left >>= λ (low, left).
        read_u32 left >>= λ (node, left). read_u32 left >>= λ (spare, left).
        if not (eqb spare 0)
        then throw WalErrorCode.format "nonzero reserved WAL header field"
        else (read_u32 left >>= λ (stored, left). read_u32 left >>= λ (tag, left).
            if not (eqb tag file_header_tag)
            then throw WalErrorCode.format "invalid WAL file header trailer"
            else if not (eqb stored (crc32c (take 40 bytes)))
            then throw WalErrorCode.checksum "WAL file header checksum mismatch"
            else if not (
                identity_beq
                  (record { cluster_id_high = high; cluster_id_low = low; node_id = node })
                  expected)
            then throw WalErrorCode.identity_mismatch "WAL cluster or node identity mismatch"
            else done tt))

unfoldable pub validate_file_header : Bytes → WalIdentity → Result (Unit {0})
unfolding check_file_header
validate_file_header bytes expected =
    if not (eqb (length bytes) file_header_bytes)
    then throw WalErrorCode.format "WAL file header has the wrong size"
    else (expect_literal file_magic "invalid WAL file magic" bytes >>= λ left.
        read_u16 left >>= λ (version, left).
        if not (eqb version format_version)
        then throw WalErrorCode.format "unsupported WAL format version"
        else check_file_header bytes expected left)

-- The first forty bytes of a frame, which its header's checksum covers.
unfoldable pub write_frame_header : ℕ → Bytes → ByteWriter → Result ByteWriter
write_frame_header sequence payload w =
    raw frame_magic w
    >>= u16 format_version
    >>= u16 frame_header_bytes
    >>= u32 0
    >>= u64 (frame_header_bytes + length payload + frame_trailer_bytes)
    >>= u64 (length payload)
    >>= u64 sequence

unfoldable pub wrap_payload : ℕ → Bytes → WalOptions → Result Bytes
unfolding write_frame_header
wrap_payload sequence payload options =
    let total_size = frame_header_bytes + length payload + frame_trailer_bytes in
    if ltb options.max_frame_bytes total_size
    then throw WalErrorCode.bounds_exceeded "WAL frame exceeds configured size bound"
    else (write_frame_header sequence payload (new_writer total_size)
        >>= (λ w. u32 (crc32c w.bytes) w)
        >>= u32 frame_header_tag
        >>= raw payload
        >>= (λ w. u32 (crc32c w.bytes) w)
        >>= u32 frame_trailer_tag
        >>= u64 total_size
        >>= raw trailer_magic
        >>= λ w. done w.bytes)

unfoldable pub make_frame : ℕ → PersistBatch → WalOptions → Result Bytes
unfolding wrap_payload
make_frame sequence batch options =
    encode_batch_payload batch options >>= λ payload. wrap_payload sequence payload options

pub record ParsedFrameHeader : Type 0 where
  pub frame_size : ℕ
  pub payload_size : ℕ
  pub sequence : ℕ

unfoldable pub check_frame_header : ParsedFrameHeader → WalOptions → Result ParsedFrameHeader
check_frame_header header options =
    if ltb header.frame_size minimum_frame_bytes || ltb options.max_frame_bytes header.frame_size
    then throw WalErrorCode.bounds_exceeded "WAL frame length is outside the configured bound"
    else if ltb options.max_frame_bytes header.payload_size
        || not
            (eqb (header.payload_size + frame_header_bytes + frame_trailer_bytes) header.frame_size)
    then throw WalErrorCode.format "inconsistent WAL frame and payload lengths"
    else done header

unfoldable pub read_frame_header : Bytes → WalOptions → Bytes → Result ParsedFrameHeader
unfolding check_frame_header
read_frame_header bytes options left = read_u16 left >>= λ (size, left).
    read_u32 left >>= λ (reserved, left).
    if not (eqb size frame_header_bytes) || not (eqb reserved 0)
    then throw WalErrorCode.format "invalid WAL frame header fields"
    else (read_u64 left >>= λ (frame_size, left). read_u64 left >>= λ (payload_size, left).
        read_u64 left >>= λ (sequence, left). read_u32 left >>= λ (stored, left).
        read_u32 left >>= λ (tag, left).
        if not (eqb tag frame_header_tag)
        then throw WalErrorCode.format "invalid WAL frame header trailer"
        else if not (eqb stored (crc32c (take 40 bytes)))
        then throw WalErrorCode.checksum "WAL frame header checksum mismatch"
        else check_frame_header
            (record { frame_size = frame_size; payload_size = payload_size; sequence = sequence })
            options)

unfoldable pub parse_frame_header : Bytes → WalOptions → Result ParsedFrameHeader
unfolding read_frame_header
parse_frame_header bytes options =
    expect_literal frame_magic "invalid WAL frame magic" bytes >>= λ left.
    read_u16 left >>= λ (version, left).
    if not (eqb version format_version)
    then throw WalErrorCode.format "unsupported WAL frame version"
    else read_frame_header bytes options left

-- The trailer, its fields, and the checksum over what stands before it.
unfoldable pub check_trailer : Bytes → ParsedFrameHeader → Result (Unit {0})
check_trailer frame header =
    let trailer_offset = frame_header_bytes + header.payload_size in
    read_u32 (take frame_trailer_bytes (drop trailer_offset frame)) >>= λ (stored, left).
    read_u32 left >>= λ (tag, left).
    if not (eqb tag frame_trailer_tag)
    then throw WalErrorCode.format "invalid WAL frame trailer fields"
    else (read_u64 left >>= λ (size, left).
        if not (eqb size header.frame_size)
        then throw WalErrorCode.format "invalid WAL frame trailer fields"
        else (expect_literal trailer_magic "invalid WAL frame trailer magic" left >>= λ _.
            if not (eqb stored (crc32c (take trailer_offset frame)))
            then throw WalErrorCode.checksum "WAL frame checksum mismatch"
            else done tt))

unfoldable pub validate_complete_frame :
    Bytes → ParsedFrameHeader → WalOptions → Result PersistBatch
unfolding check_trailer
validate_complete_frame frame header options = check_trailer frame header >>= λ _.
    decode_batch_payload (take header.payload_size (drop frame_header_bytes frame)) options
