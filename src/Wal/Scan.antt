-- ===== src/Wal/Scan.antt =====
-- src/wal.cpp: `encode_wal_frame`, and `scan_source` on the bytes of a file.
pub mod Encoded
pub mod Frames
pub mod Sequence
pub mod Torn
pub mod Recovery
pub mod Rounds
pub mod Source
use det_log.Prelude.{
  ℕ, zero, suc, ◌+◌, ◌-◌, Bool, true, false, ◌||◌, not, Option, none, some, List, [], ◌∷◌, ◌++◌,
  ltb, eqb, if◌then◌else◌, length, take, drop, inc64, u64_max,
}
use det_log.Model.{Bytes, PersistBatch}
use det_log.Wal.Types.{
  Result, done, error, ◌>>=◌, throw, located, WalErrorCode, WalIdentity, WalOptions, WalState,
  empty_state, file_header_bytes, frame_header_bytes, validate_options,
}
use det_log.Wal.Stage.{ValidationView, view_of, stage, materialize, validate_state_summary}
use det_log.Wal.Frame.{
  make_frame, ParsedFrameHeader, parse_frame_header, validate_complete_frame, validate_file_header,
}

pub record WalEncodedFrame : Type 0 where
  pub bytes : Bytes
  pub state_after : WalState

pub record WalScanResult : Type 0 where
  pub state : WalState
  pub valid_bytes : ℕ
  pub has_incomplete_tail : Bool

-- The frame behind its bytes: the check of the file's length, and the state after it.
unfoldable pub place_frame : WalState → ValidationView → Bytes → Result WalEncodedFrame
place_frame before view bytes =
    if ltb (u64_max - before.file_bytes) (length bytes)
    then throw WalErrorCode.bounds_exceeded "WAL file length would overflow"
    else done (record {
      bytes = bytes;
      state_after = record (materialize view before) {
        last_frame_sequence = before.last_frame_sequence + 1;
        file_bytes = before.file_bytes + length bytes;
      };
    })

unfoldable pub encode_wal_frame : WalState → PersistBatch → WalOptions → Result WalEncodedFrame
unfolding place_frame
encode_wal_frame before batch options = validate_options options >>= λ _.
    validate_state_summary before options >>= λ _.
    if eqb before.last_frame_sequence u64_max
    then throw WalErrorCode.bounds_exceeded "WAL frame sequence is exhausted"
    else (stage batch options (view_of before) >>= λ view.
        make_frame (before.last_frame_sequence + 1) batch options >>= place_frame before view)

-- The result behind the loop, when it leaves off at `offset`.
abbrev pub cut : WalState → ℕ → Bool → WalScanResult
cut state offset incomplete = record {
  state = record state {
    durable_frame_sequence = state.last_frame_sequence;
    repaired_incomplete_tail = incomplete;
  };
  valid_bytes = offset;
  has_incomplete_tail = incomplete;
}

-- A complete frame of the scan: the state behind it.
unfoldable pub replay_frame :
    Bytes → ParsedFrameHeader → WalOptions → ℕ → WalState → Result WalState
replay_frame frame header options offset state =
    located offset (
      validate_complete_frame frame header options >>= λ batch.
      stage batch options (view_of state) >>= λ view. done (materialize view state))
    >>= λ next. done (record next {
      last_frame_sequence = header.sequence;
      file_bytes = offset + header.frame_size;
    })

-- One round of the loop at `left`, the bytes from `offset` on: the end of the scan, or the frame's
-- size and the state behind it.
pub data Round : Type 0 where
  stop : WalScanResult → Round
  next : ℕ → WalState → Round

unfoldable pub scan_round : WalOptions → ℕ → WalState → Bytes → Result Round
unfolding replay_frame
scan_round options offset state left =
    if ltb (length left) frame_header_bytes
    then done (stop (cut state offset true))
    else (located offset (parse_frame_header (take frame_header_bytes left) options) >>= λ header.
        if not (eqb header.sequence (inc64 state.last_frame_sequence))
        then located offset
            (throw WalErrorCode.invariant_violation "WAL frame sequence is not consecutive")
        else if ltb (length left) header.frame_size
        then done (stop (cut state offset true))
        else (replay_frame (take header.frame_size left) header options offset state >>= λ after.
            done (next header.frame_size after)))

-- A round takes at least the bytes of a frame header, so their number is fuel enough.
unfoldable pub scan_loop : ℕ → WalOptions → ℕ → WalState → Bytes → Result WalScanResult
scan_loop fuel options offset state [] = done (cut state offset false)
scan_loop zero options offset state (byte ∷ left) =
    throw WalErrorCode.failed "WAL scan ran out of rounds"
scan_loop (suc fuel) options offset state (byte ∷ left) =
    scan_round options offset state (byte ∷ left) >>= λ round. elim round [
      | stop result ↦ done result
      | next size after ↦ scan_loop fuel options (offset + size) after (drop size (byte ∷ left))
    ]

unfoldable pub scan_wal_bytes : Bytes → WalIdentity → WalOptions → Result WalScanResult
scan_wal_bytes bytes expected options = validate_options options >>= λ _.
    if ltb (length bytes) file_header_bytes
    then throw WalErrorCode.format "WAL is missing a complete file header"
    else (validate_file_header (take file_header_bytes bytes) expected >>= λ _.
        let left = drop file_header_bytes bytes in
        scan_loop (length left) options file_header_bytes
          (record empty_state { file_bytes = file_header_bytes }) left)
