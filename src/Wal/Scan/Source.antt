-- ===== src/Wal/Scan/Source.antt =====
-- src/wal.cpp: `scan_source` over a source that is read piece by piece, and the source of
-- `scan_wal_bytes`.
pub mod Agrees
use det_log.Prelude.{
  ℕ, zero, suc, ◌+◌, ◌-◌, Bool, true, false, ◌||◌, not, ltb, eqb, if◌then◌else◌, length, take, drop,
  inc64,
}
use det_log.Model.{Bytes}
use det_log.Wal.Types.{
  Result, done, error, throw, and_then, located, WalErrorCode, WalIdentity, WalOptions, WalState,
  empty_state, file_header_bytes, frame_header_bytes, validate_options,
}
use det_log.Wal.Frame.{ParsedFrameHeader, parse_frame_header, validate_file_header}
use det_log.Wal.Scan.{WalScanResult, cut, replay_frame, Round, stop, next}

module _ {F : Type 0} (read_exact : ℕ → ℕ → F → Result Bytes × F) where
  -- A round behind its header.
  unfoldable pub source_frame :
      WalOptions → ℕ → ℕ → WalState → ParsedFrameHeader → F → Result Round × F
  source_frame options remaining offset state header f =
      if not (eqb header.sequence (inc64 state.last_frame_sequence))
      then (
        located offset
            (throw WalErrorCode.invariant_violation "WAL frame sequence is not consecutive"),
        f,
      )
      else if ltb remaining header.frame_size
      then (done (stop (cut state offset true)), f)
      else and_then (read_exact offset header.frame_size f) (λ frame f.
        and_then (replay_frame frame header options offset state, f)
          (λ after f. (done (next header.frame_size after), f)))

  unfoldable pub source_round : WalOptions → ℕ → ℕ → WalState → F → Result Round × F
  unfolding source_frame
  source_round options byte_count offset state f =
      let remaining = byte_count - offset in
      if ltb remaining frame_header_bytes
      then (done (stop (cut state offset true)), f)
      else and_then (read_exact offset frame_header_bytes f) (λ bytes f.
        and_then (located offset (parse_frame_header bytes options), f)
          (λ header f. source_frame options remaining offset state header f))

  -- What the loop does behind a round.
  abbrev pub after_round :
      (ℕ → WalState → F → Result WalScanResult × F) → Round → F → Result WalScanResult × F
  after_round continue (stop result) f = (done result, f)
  after_round continue (next size after) f = continue size after f

  -- A round takes at least the bytes of a frame header, so the number of bytes is fuel enough.
  unfoldable pub source_loop : ℕ → WalOptions → ℕ → ℕ → WalState → F → Result WalScanResult × F
  unfolding source_round
  source_loop zero options byte_count offset state f =
      if ltb offset byte_count
      then (throw WalErrorCode.failed "WAL scan ran out of rounds", f)
      else (done (cut state offset false), f)
  source_loop (suc fuel) options byte_count offset state f =
      if ltb offset byte_count
      then and_then (source_round options byte_count offset state f) (λ round f.
        after_round (λ size after f. source_loop fuel options byte_count (offset + size) after f)
          round f)
      else (done (cut state offset false), f)

  unfoldable pub scan_source : ℕ → WalIdentity → WalOptions → F → Result WalScanResult × F
  unfolding source_loop
  scan_source byte_count expected options f =
      and_then {F = F} (validate_options options, f)
        (λ _ f.
          if ltb byte_count file_header_bytes
          then (throw WalErrorCode.format "WAL is missing a complete file header", f)
          else and_then (read_exact 0 file_header_bytes f) (λ header f.
            and_then {F = F} (validate_file_header header expected, f)
              (λ _ f.
                source_loop (byte_count - file_header_bytes) options byte_count file_header_bytes
                  (record empty_state { file_bytes = file_header_bytes }) f)))

-- The source of `scan_wal_bytes`.
unfoldable pub read_bytes : Bytes → ℕ → ℕ → Unit {0} → Result Bytes × Unit {0}
read_bytes bytes offset size f =
    if ltb (length bytes) offset || ltb (length bytes - offset) size
    then (throw WalErrorCode.format "WAL byte source ended unexpectedly", f)
    else (done (take size (drop offset bytes)), f)
