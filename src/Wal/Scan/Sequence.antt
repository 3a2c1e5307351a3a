-- ===== src/Wal/Scan/Sequence.antt =====
-- Frames of src/wal.cpp one after another, from one logical state to another.
use det_log.Prelude.{
  ◌≡◌, sym, ◌∙◌, ap, subst, ◌+◌, ◌<◌, ◌^◌, false, List, [], ◌∷◌, ◌++◌, arith, length, length-append,
  append_assoc,
}
use det_log.Model.{Bytes, PersistBatch}
use det_log.Wal.Types.{WalOptions, WalState}
use det_log.Wal.Stage.{materialize}
use det_log.Wal.Stage.Accepted.{BatchWidths}
use det_log.Wal.Scan.{WalEncodedFrame}
use det_log.Wal.Scan.Encoded.{Encoded}

-- The bytes of encoded frames of the batches, from one state to another.
pub data Framed (options : WalOptions)
    : WalState → List PersistBatch → Bytes → WalState → Type 0 where
  nothing : {state : WalState} → Framed options state [] [] state
  frame_then :
      {before : WalState} {batch : PersistBatch} {frame : WalEncodedFrame}
      {batches : List PersistBatch} {bytes : Bytes} {after : WalState}
      → Encoded before batch options frame
      → BatchWidths batch
      → Framed options frame.state_after batches bytes after
      → Framed options before (batch ∷ batches) (frame.bytes ++ bytes) after

pub Framed-append :
    (options : WalOptions) (first second : List PersistBatch) (a b : Bytes)
    (before middle after : WalState)
    → Framed options before first a middle
    → Framed options middle second b after
    → Framed options before (first ++ second) (a ++ b) after
Framed-append options first second a b before middle after (nothing) k = k
Framed-append options first second a b before middle after
      (frame_then {frame = frame} {batches = batches} {bytes = rest} d w h) k =
    subst (λ bytes. Framed options before (first ++ second) bytes after)
      (sym (append_assoc frame.bytes rest b))
      (frame_then d w
        (Framed-append options batches second rest b frame.state_after middle after h k))

pub sequence_kept :
    (before : WalState) (batch : PersistBatch) (options : WalOptions) (frame : WalEncodedFrame)
    → Encoded before batch options frame
    → before.last_frame_sequence < 256 ^ 8
    → (frame.state_after.last_frame_sequence < 256 ^ 8)
      × (frame.state_after.file_bytes ≡ before.file_bytes + length frame.bytes)
sequence_kept before batch options frame d seq =
    let unexhausted = d.unexhausted in
    (
      subst (λ s. s.last_frame_sequence < 256 ^ 8) (sym d.after) (omega (arith, seq, unexhausted)),
      ap (λ s. s.file_bytes) d.after,
    )

pub Framed-kept :
    (options : WalOptions) (batches : List PersistBatch) (bytes : Bytes) (before after : WalState)
    → Framed options before batches bytes after
    → before.last_frame_sequence < 256 ^ 8
    → (after.last_frame_sequence < 256 ^ 8) × (after.file_bytes ≡ before.file_bytes + length bytes)
Framed-kept options batches bytes before after (nothing) seq = (seq, omega arith)
Framed-kept options batches bytes before after
      (frame_then {batch = batch} {frame = frame} {batches = batches'} {bytes = rest} d w h) seq =
    let (kept, place) = sequence_kept before batch options frame d seq in
    let (last, size) = Framed-kept options batches' rest frame.state_after after h kept in
    (last, omega (arith, place, size, length-append {0} frame.bytes rest))

-- What a scan tells of a state.
abbrev pub logical : WalState → WalState
logical state = record state { durable_frame_sequence = 0; repaired_incomplete_tail = false }

pub Framed-logical :
    (options : WalOptions) (batches : List PersistBatch) (bytes : Bytes) (before after : WalState)
    → Framed options before batches bytes after
    → logical before ≡ before
    → logical after ≡ after
unfolding materialize
Framed-logical options batches bytes before after (nothing) k = k
Framed-logical options batches bytes before after
      (frame_then {batch = batch} {frame = frame} {batches = batches'} {bytes = rest} d w h) k =
    Framed-logical options batches' rest frame.state_after after h (
      ap logical d.after
      ∙ ap
          (λ s. record (materialize d.view s) {
            last_frame_sequence = before.last_frame_sequence + 1;
            file_bytes = before.file_bytes + length frame.bytes;
          })
          k
      ∙ sym d.after)
