-- ===== src/Wal/Scan/Encoded.antt =====
-- What a frame of `encode_wal_frame` in src/wal.cpp consists of.
use det_log.Prelude.{
  ◌≡◌, sym, ◌∙◌, ap, subst, inl, inr, ◌+◌, ◌-◌, ◌≤◌, arith, Bool-cases, ltb, eqb, length, u64_max,
}
use det_log.Model.{Bytes, PersistBatch}
use det_log.Wal.Types.{done, bind-done, done_injective, WalOptions, WalState, validate_options}
use det_log.Wal.Stage.{ValidationView, view_of, stage, materialize, validate_state_summary}
use det_log.Wal.Payload.{encode_batch_payload}
use det_log.Wal.Frame.{make_frame}
use det_log.Wal.Frame.Written.{total_size, frame_layout, wrap_payload-layout}
use det_log.Wal.Scan.{WalEncodedFrame, place_frame, encode_wal_frame}

-- What an encoded frame consists of.
pub record Encoded (before : WalState) (batch : PersistBatch) (options : WalOptions)
    (frame : WalEncodedFrame) : Type 0 where
  pub payload : Bytes
  pub view : ValidationView
  pub options_valid : validate_options options ≡ done tt
  pub unexhausted : ¬ before.last_frame_sequence ≡ u64_max
  pub staged : stage batch options (view_of before) ≡ done view
  pub encoded : encode_batch_payload batch options ≡ done payload
  pub small : total_size payload ≤ options.max_frame_bytes
  pub bytes : frame.bytes ≡ frame_layout (before.last_frame_sequence + 1) payload
  pub after : frame.state_after ≡ record (materialize view before) {
    last_frame_sequence = before.last_frame_sequence + 1;
    file_bytes = before.file_bytes + length frame.bytes;
  }

place_frame-lem :
    (before : WalState) (view : ValidationView) (bytes : Bytes) (frame : WalEncodedFrame)
    → place_frame before view bytes ≡ done frame
    → (frame.bytes ≡ bytes)
      × (frame.state_after ≡ record (materialize view before) {
        last_frame_sequence = before.last_frame_sequence + 1;
        file_bytes = before.file_bytes + length frame.bytes;
      })
unfolding place_frame
place_frame-lem before view bytes frame e =
    elim (Bool-cases (ltb (u64_max - before.file_bytes) (length bytes))) [
      | inl full ↦ let bad = rw (full, place_frame) at e in absurd (cc (bad))
      | inr room ↦
          let e' = rw (room, place_frame) at e in
          let same = done_injective e' in
          let level = ap (λ f. f.bytes) same in
          (
            sym level,
            subst
                (λ out. frame.state_after ≡ record (materialize view before) {
                  last_frame_sequence = before.last_frame_sequence + 1;
                  file_bytes = before.file_bytes + length out;
                })
                level (sym (ap (λ f. f.state_after) same)),
          )
    ]

pub encode_wal_frame-Encoded :
    (before : WalState) (batch : PersistBatch) (options : WalOptions) (frame : WalEncodedFrame)
    → encode_wal_frame before batch options ≡ done frame
    → Encoded before batch options frame
unfolding encode_wal_frame make_frame
encode_wal_frame-Encoded before batch options frame e =
    let (_, valid, e1) = bind-done (validate_options options) _ e in
    let (_, summary, e2) = bind-done (validate_state_summary before options) _ e1 in
    elim (Bool-cases (eqb before.last_frame_sequence u64_max)) [
      | inl last ↦ let bad = rw last at e2 in absurd (cc (bad))
      | inr more ↦
          let e3 = rw more at e2 in
          let (view, staged, e4) = bind-done (stage batch options (view_of before)) _ e3 in
          let (bytes, made, placed) =
            bind-done (make_frame (before.last_frame_sequence + 1) batch options) _ e4 in
          let (payload, encoded, wrapped) = bind-done (encode_batch_payload batch options) _ made in
          let (layout, small) =
            wrap_payload-layout (before.last_frame_sequence + 1) payload bytes options wrapped in
          let (level, after) = place_frame-lem before view bytes frame placed in
          record {
            payload = payload;
            view = view;
            options_valid = valid;
            unexhausted = λ full. ground (arith, more, full);
            staged = staged;
            encoded = encoded;
            small = small;
            bytes = level ∙ layout;
            after = after;
          }
    ]
