-- ===== src/Wal/Scan/Recovery.antt =====
-- What `scan_source` of src/wal.cpp makes of a file: whole frames, and the front of further ones.
use det_log.Prelude.{
  ◌≡◌, refl, sym, ◌∙◌, ap, subst, ℕ, zero, suc, ◌<◌, ◌≤◌, ◌^◌, false, List, [], ◌∷◌, ◌++◌, arith,
  ltb, length, length-append, append_assoc, append_nil, take, length-take, drop-front,
}
use det_log.Model.{Bytes, PersistBatch}
use det_log.Wal.Types.{
  done, WalIdentity, WalOptions, WalState, empty_state, file_header_bytes, validate_options,
}
use det_log.Wal.Bytes.Laws.{take-size, drop-size}
use det_log.Wal.Stage.Accepted.{BatchWidths}
use det_log.Wal.Frame.{make_file_header}
use det_log.Wal.Frame.Header.{
  IdentityFits, file_header_layout, make_file_header-layout, length-file_header_layout,
  validate_file_header-layout,
}
use det_log.Wal.Scan.{
  WalEncodedFrame, WalScanResult, encode_wal_frame, cut, scan_loop, scan_wal_bytes,
}
use det_log.Wal.Scan.Encoded.{encode_wal_frame-Encoded}
use det_log.Wal.Scan.Frames.{length-frame, scan_round-frame}
use det_log.Wal.Scan.Sequence.{Framed, nothing, frame_then, Framed-append, sequence_kept}
use det_log.Wal.Scan.Torn.{Recovered, scan_loop-next, scan_loop-Framed}

abbrev pub start : WalState
start = record empty_state { file_bytes = file_header_bytes }

-- The whole frames at the front of a scan.
scan_loop-past :
    (options : WalOptions) (fuel : ℕ) (batches : List PersistBatch) (bytes : Bytes)
    (before middle : WalState) (tail : Bytes)
    → Framed options before batches bytes middle
    → before.last_frame_sequence < 256 ^ 8
    → length (bytes ++ tail) ≤ fuel
    → (rounds : ℕ) × (length tail ≤ rounds)
      × (middle.last_frame_sequence < 256 ^ 8)
      × (scan_loop fuel options before.file_bytes before (bytes ++ tail)
          ≡ scan_loop rounds options middle.file_bytes middle tail)
scan_loop-past options fuel batches bytes before middle tail (nothing) seq enough =
    (fuel, enough, seq, refl)
scan_loop-past options zero batches bytes before middle tail
      (frame_then {batch = batch} {frame = frame} {batches = batches'} {bytes = rest} d w h) seq
      enough =
    absurd (
      omega (
        arith,
        enough,
        length-append {0} (frame.bytes ++ rest) tail,
        length-append {0} frame.bytes rest,
        length-frame before batch options frame d,
      ))
scan_loop-past options (suc fuel) batches bytes before middle tail
      (frame_then {batch = batch} {frame = frame} {batches = batches'} {bytes = rest} d w h) seq
      enough =
    let level = length-frame before batch options frame d in
    let (kept, place) = sequence_kept before batch options frame d seq in
    let grouped = append_assoc frame.bytes rest tail in
    let longer = length-append {0} frame.bytes (rest ++ tail) in
    let same = ap length grouped in
    let (rounds, room, last, ran) =
      scan_loop-past options fuel batches' rest frame.state_after middle tail h kept
        (omega (arith, enough, longer, same, level)) in
    (
      rounds,
      room,
      last,
      ap (scan_loop (suc fuel) options before.file_bytes before) grouped
          ∙ scan_loop-next fuel options before.file_bytes before (frame.bytes ++ (rest ++ tail))
              (length frame.bytes) frame.state_after (omega (arith, longer, level))
              (scan_round-frame before batch options frame (rest ++ tail) d w seq)
          ∙ rw (drop-front frame.bytes (rest ++ tail), sym place) ran,
    )

-- A scan of the file's header, whole frames, and the first `size` bytes of further frames.
pub scan_wal_bytes-Recovered :
    (identity : WalIdentity) (options : WalOptions) (batches later : List PersistBatch)
    (bytes more : Bytes) (size : ℕ) (middle after : WalState)
    → IdentityFits identity
    → validate_options options ≡ done tt
    → Framed options start batches bytes middle
    → Framed options middle later more after
    → size ≤ length more
    → (result : WalScanResult) × (scan_wal_bytes
          (file_header_layout identity ++ (bytes ++ take size more))
          identity
          options
        ≡ done result)
      × Recovered options middle later more size result
unfolding scan_wal_bytes
scan_wal_bytes-Recovered identity options batches later bytes more size middle after i o h k
      inside =
    let header = file_header_layout identity in
    let tail = take size more in
    let all = length-append {0} header (bytes ++ tail) in
    let level = length-file_header_layout identity in
    let (rounds, room, last, past) =
      scan_loop-past options (length (bytes ++ tail)) batches bytes start middle tail h
        (omega arith) (omega arith) in
    let (result, ran, r) =
      scan_loop-Framed options rounds later more size middle after k last inside
        (omega (arith, room, length-take size more, inside)) in
    let large : ltb (length (header ++ (bytes ++ tail))) file_header_bytes ≡ false =
      ground (arith, all, level) in
    (
      result,
      rw
          (
            o,
            large,
            take-size file_header_bytes header (bytes ++ tail) level,
            drop-size file_header_bytes header (bytes ++ tail) level,
            validate_file_header-layout identity i,
          )
          (past ∙ ran),
      r,
    )

-- A scan of the file's header and whole frames.
pub scan_wal_bytes-Framed :
    (identity : WalIdentity) (options : WalOptions) (batches : List PersistBatch) (bytes : Bytes)
    (after : WalState)
    → IdentityFits identity
    → validate_options options ≡ done tt
    → Framed options start batches bytes after
    → scan_wal_bytes (file_header_layout identity ++ bytes) identity options
      ≡ done (cut after after.file_bytes false)
unfolding scan_wal_bytes scan_loop
scan_wal_bytes-Framed identity options batches bytes after i o h =
    let header = file_header_layout identity in
    let all = length-append {0} header bytes in
    let level = length-file_header_layout identity in
    let whole = append_nil bytes in
    let size = ap length whole in
    let (rounds, _, _, past) =
      scan_loop-past options (length bytes) batches bytes start after [] h (omega arith)
        (omega (arith, size)) in
    let large : ltb (length (header ++ bytes)) file_header_bytes ≡ false =
      ground (arith, all, level) in
    rw
      (
        o,
        large,
        take-size file_header_bytes header bytes level,
        drop-size file_header_bytes header bytes level,
        validate_file_header-layout identity i,
      )
      (ap (scan_loop (length bytes) options file_header_bytes start) (sym whole) ∙ past)

-- With an identity and a batch of the C++ widths, and a file of whole frames: behind a frame that
-- `encode_wal_frame` has made, the scan of the file succeeds. It finds all the bytes valid and no
-- incomplete tail, and its state is the encoder's `state_after`, save that it reports the last frame as
-- durable and no tail as repaired.
pub scan_wal_bytes-encode_wal_frame :
    (identity : WalIdentity) (options : WalOptions) (batches : List PersistBatch)
    (batch : PersistBatch) (header bytes : Bytes) (before : WalState) (frame : WalEncodedFrame)
    → IdentityFits identity
    → BatchWidths batch
    → Framed options start batches bytes before
    → make_file_header identity ≡ done header
    → encode_wal_frame before batch options ≡ done frame
    → scan_wal_bytes (header ++ (bytes ++ frame.bytes)) identity options
      ≡ done (cut frame.state_after frame.state_after.file_bytes false)
scan_wal_bytes-encode_wal_frame identity options batches batch header bytes before frame i w h made
      e =
    let d = encode_wal_frame-Encoded before batch options frame e in
    let one =
      subst (λ more. Framed options before (batch ∷ []) more frame.state_after)
        (append_nil frame.bytes) (frame_then d w nothing) in
    let whole =
      Framed-append options batches (batch ∷ []) bytes frame.bytes start before frame.state_after h
        one in
    ap (λ front. scan_wal_bytes (front ++ (bytes ++ frame.bytes)) identity options)
      (make_file_header-layout identity header made)
    ∙ scan_wal_bytes-Framed identity options (batches ++ batch ∷ []) (bytes ++ frame.bytes)
        frame.state_after i d.options_valid whole
