-- ===== src/Wal/Scan/Frames.antt =====
-- A round of `scan_source` in src/wal.cpp on an encoded frame, or on the front of one.
use det_log.Prelude.{
  ◌≡◌, refl, sym, ◌∙◌, ap, subst, inl, inr, ℕ, ◌+◌, ◌<◌, ◌≤◌, ◌^◌, true, false, ◌++◌, arith,
  Bool-cases, ltb, eqb, if◌then◌else◌, length, length-append, append_assoc, take, length-take,
  take-take, take-front, inc64, inc64-eq, u64_max,
}
use det_log.Model.{Bytes, PersistBatch}
use det_log.Wal.Types.{done, ◌>>=◌, WalOptions, WalState, frame_header_bytes}
use det_log.Wal.Bytes.{le}
use det_log.Wal.Bytes.Laws.{length-le, take-size, drop-size}
use det_log.Wal.Stage.{view_of, materialize}
use det_log.Wal.Stage.Accepted.{
  BatchWidths, stage-Staged, Staged-BatchFits, validate_options-NarrowOptions,
}
use det_log.Wal.Payload.{flags, decode_batch_payload}
use det_log.Wal.Payload.Layout.{
  payload_layout, hard_bytes, index_bytes, entries_layout, encode_batch_payload-layout,
}
use det_log.Wal.Payload.Decoded.{decode_batch_payload-encode_batch_payload}
use det_log.Wal.Frame.{validate_complete_frame}
use det_log.Wal.Frame.Written.{
  total_size, header_layout, trailer_layout, frame_layout, length-header_layout,
  length-frame_layout,
}
use det_log.Wal.Frame.Framed.{header_of, parse_frame_header-layout, check_trailer-layout}
use det_log.Wal.Scan.{WalEncodedFrame, cut, replay_frame, stop, next, scan_round}
use det_log.Wal.Scan.Encoded.{Encoded}

length-payload_layout : (b : PersistBatch) → 8 ≤ length (payload_layout b)
length-payload_layout b =
    let head = le 4 (flags b) ++ le 4 (length b.entries) in
    let a1 = head ++ hard_bytes b.hard_state in
    let a2 = a1 ++ index_bytes b.truncate_from in
    let a3 = a2 ++ entries_layout b.entries in
    omega (
      arith,
      length-append {0} a3 (index_bytes b.commit_index),
      length-append {0} a2 (entries_layout b.entries),
      length-append {0} a1 (index_bytes b.truncate_from),
      length-append {0} head (hard_bytes b.hard_state),
      length-append {0} (le 4 (flags b)) (le 4 (length b.entries)),
      length-le 4 (flags b),
      length-le 4 (length b.entries),
    )

validate_complete_frame-layout :
    (sequence : ℕ) (payload : Bytes) (options : WalOptions)
    → total_size payload < 256 ^ 8
    → validate_complete_frame (frame_layout sequence payload) (header_of sequence payload) options
      ≡ decode_batch_payload payload options
unfolding validate_complete_frame
validate_complete_frame-layout sequence payload options narrow =
    let h = header_layout sequence payload in
    let t = trailer_layout sequence payload in
    rw
      (
        check_trailer-layout sequence payload narrow,
        drop-size 48 h (payload ++ t) (length-header_layout sequence payload),
        take-front payload t,
      )
      refl

scan_round-header :
    (options : WalOptions) (offset : ℕ) (state : WalState) (left : Bytes) (sequence : ℕ)
    (payload : Bytes)
    → frame_header_bytes ≤ length left
    → take frame_header_bytes left ≡ header_layout sequence payload
    → sequence < 256 ^ 8
    → inc64 state.last_frame_sequence ≡ sequence
    → 8 ≤ length payload
    → total_size payload ≤ options.max_frame_bytes
    → options.max_frame_bytes < 256 ^ 8
    → scan_round options offset state left ≡ (
        if ltb (length left) (total_size payload)
        then done (stop (cut state offset true))
        else (replay_frame
              (take (total_size payload) left)
              (header_of sequence payload)
              options
              offset
              state
            >>= λ after. done (next (total_size payload) after)))
unfolding scan_round
scan_round-header options offset state left sequence payload room front seq follows long small
      narrow =
    let enough : ltb (length left) frame_header_bytes ≡ false = ground (arith, room) in
    let same : eqb sequence sequence ≡ true = ground arith in
    rw
      (
        enough,
        front,
        parse_frame_header-layout sequence payload options seq long small narrow,
        follows,
        same,
      )
      refl

-- The bounds that an encoded frame keeps to.
pub record Bounds (before : WalState) (options : WalOptions) (payload : Bytes) : Type 0 where
  pub wide : options.max_frame_bytes < 256 ^ 8
  pub next_sequence : before.last_frame_sequence + 1 < 256 ^ 8
  pub follows : inc64 before.last_frame_sequence ≡ before.last_frame_sequence + 1
  pub long : 8 ≤ length payload

pub Encoded-Bounds :
    (before : WalState) (batch : PersistBatch) (options : WalOptions) (frame : WalEncodedFrame)
    → (d : Encoded before batch options frame) → before.last_frame_sequence < 256 ^ 8
    → Bounds before options d.payload
Encoded-Bounds before batch options frame d seq =
    let unexhausted = d.unexhausted in
    let below : before.last_frame_sequence < u64_max = omega (arith, seq, unexhausted) in
    let layout = encode_batch_payload-layout batch options d.payload d.encoded in
    record {
      wide = (validate_options-NarrowOptions options d.options_valid).1;
      next_sequence = omega (arith, below);
      follows = inc64-eq before.last_frame_sequence below;
      long = subst (λ p. 8 ≤ length p) (sym layout) (length-payload_layout batch);
    }

pub length-frame :
    (before : WalState) (batch : PersistBatch) (options : WalOptions) (frame : WalEncodedFrame)
    → (d : Encoded before batch options frame) → length frame.bytes ≡ total_size d.payload
length-frame before batch options frame d =
    ap length d.bytes ∙ length-frame_layout (before.last_frame_sequence + 1) d.payload

-- The replay of an encoded frame is the state that the encoder returned.
replay_frame-frame :
    (before : WalState) (batch : PersistBatch) (options : WalOptions) (frame : WalEncodedFrame)
    → (d : Encoded before batch options frame) → BatchWidths batch
    → replay_frame frame.bytes
        (header_of (before.last_frame_sequence + 1) d.payload)
        options
        before.file_bytes
        before
      ≡ done frame.state_after
unfolding replay_frame
replay_frame-frame before batch options frame d widths =
    let (narrow, wide) = validate_options-NarrowOptions options d.options_valid in
    let fits =
      Staged-BatchFits batch options (view_of before) d.view
        (stage-Staged batch options (view_of before) d.view d.staged) widths in
    let small = d.small in
    let checked =
      validate_complete_frame-layout (before.last_frame_sequence + 1) d.payload options
        (omega (arith, small, wide)) in
    let decoded =
      decode_batch_payload-encode_batch_payload options batch d.payload narrow fits d.encoded in
    let level = length-frame before batch options frame d in
    rw (d.bytes, checked, decoded, d.staged)
      (ap
          (λ n. done (record (materialize d.view before) {
            last_frame_sequence = before.last_frame_sequence + 1;
            file_bytes = before.file_bytes + n;
          }))
          (sym level)
        ∙ ap done (sym d.after))

-- A round on an encoded frame, whatever follows it.
pub scan_round-frame :
    (before : WalState) (batch : PersistBatch) (options : WalOptions) (frame : WalEncodedFrame)
    (rest : Bytes)
    → (d : Encoded before batch options frame) → BatchWidths batch
    → before.last_frame_sequence < 256 ^ 8
    → scan_round options before.file_bytes before (frame.bytes ++ rest)
      ≡ done (next (length frame.bytes) frame.state_after)
scan_round-frame before batch options frame rest d widths seq =
    let n = before.last_frame_sequence + 1 in
    let b = Encoded-Bounds before batch options frame d seq in
    let level = length-frame before batch options frame d in
    let whole = length-append {0} frame.bytes rest in
    let h = header_layout n d.payload in
    let front : take 48 (frame.bytes ++ rest) ≡ h =
      ap (λ bytes. take 48 (bytes ++ rest)) d.bytes
      ∙ ap (take 48) (append_assoc h (d.payload ++ trailer_layout n d.payload) rest)
      ∙ take-size 48 h _ (length-header_layout n d.payload) in
    let complete : ltb (length (frame.bytes ++ rest)) (total_size d.payload) ≡ false =
      ground (arith, level, whole) in
    scan_round-header options before.file_bytes before (frame.bytes ++ rest) n d.payload
      (omega (arith, level, whole)) front b.next_sequence b.follows b.long d.small b.wide
    ∙ rw
        (
          complete,
          take-size (total_size d.payload) frame.bytes rest level,
          replay_frame-frame before batch options frame d widths,
        )
        (ap (λ size. done (next size frame.state_after)) (sym level))

-- A round on a part of an encoded frame.
pub scan_round-torn :
    (before : WalState) (batch : PersistBatch) (options : WalOptions) (frame : WalEncodedFrame)
    (k : ℕ)
    → (d : Encoded before batch options frame) → before.last_frame_sequence < 256 ^ 8
    → k < length frame.bytes
    → scan_round options before.file_bytes before (take k frame.bytes)
      ≡ done (stop (cut before before.file_bytes true))
unfolding scan_round
scan_round-torn before batch options frame k d seq torn =
    let n = before.last_frame_sequence + 1 in
    let level = length-frame before batch options frame d in
    let size = length-take k frame.bytes in
    elim (Bool-cases (ltb k 48)) [
      | inl short ↦
          let bare : ltb (length (take k frame.bytes)) 48 ≡ true =
            ground (arith, short, size, torn) in
          rw bare refl
      | inr header ↦
          let b = Encoded-Bounds before batch options frame d seq in
          let h = header_layout n d.payload in
          let front : take 48 (take k frame.bytes) ≡ h =
            take-take 48 k frame.bytes (ground (arith, header))
            ∙ ap (take 48) d.bytes
            ∙ take-size 48 h _ (length-header_layout n d.payload) in
          let cut_short : ltb (length (take k frame.bytes)) (total_size d.payload) ≡ true =
            ground (arith, size, torn, level) in
          scan_round-header options before.file_bytes before (take k frame.bytes) n d.payload
            (ground (arith, header, size, torn)) front b.next_sequence b.follows b.long d.small
            b.wide
          ∙ rw cut_short refl
    ]
