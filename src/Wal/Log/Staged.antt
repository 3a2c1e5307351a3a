-- ===== src/Wal/Log/Staged.antt =====
-- The loop of `append_group` in src/wal.cpp over the batches makes frames that the scan takes apart.
use det_log.Prelude.{
  ◌≡◌, refl, sym, ◌∙◌, ap, subst, inl, inr, ℕ, ◌+◌, ◌-◌, ◌<◌, ◌≤◌, min, List, [], ◌∷◌, ◌++◌, All,
  arith, Bool-cases, ltb, length, length-append, append_assoc, append_nil, inc64, inc64-eq, u64_max,
}
use det_log.Model.{Bytes, PersistBatch}
use det_log.Wal.Types.{done, bind-done, done_injective, WalOptions, WalState, validate_options}
use det_log.Wal.Stage.{ValidationView, view_of, stage, materialize}
use det_log.Wal.Stage.Accepted.{BatchWidths}
use det_log.Wal.Payload.{encode_batch_payload}
use det_log.Wal.Frame.{make_frame}
use det_log.Wal.Frame.Written.{frame_layout, wrap_payload-layout}
use det_log.Wal.Scan.Encoded.{Encoded}
use det_log.Wal.Scan.Sequence.{logical, Framed, nothing, frame_then}
use det_log.Wal.Log.{Group, push_back, push_frame, stage_frame, stage_frames, admit_group}

-- The state that a group leaves behind `base`.
abbrev pub placed : ValidationView → ℕ → ℕ → WalState → WalState
placed view sequence bytes base = record (materialize view base) {
  last_frame_sequence = sequence;
  file_bytes = base.file_bytes + bytes;
}

abbrev pub concat : List Bytes → Bytes
concat [] = []
concat (bytes ∷ rest) = bytes ++ concat rest

-- The frames that the loop has put behind those of `g`.
pub record Grouped (options : WalOptions) (base : WalState) (batches : List PersistBatch)
    (g after : Group) : Type 0 where
  pub frames : List Bytes
  pub pushed : after.frames ≡ g.frames ++ frames
  pub size : after.group_bytes ≡ g.group_bytes + length (concat frames)
  pub framed :
      Framed options base batches
        (concat frames)
        (placed after.view after.sequence (length (concat frames)) base)
  pub sequence : after.sequence ≡ base.last_frame_sequence + length batches

-- One frame of the loop, with the state behind it.
pub record Pushed (options : WalOptions) (base : WalState) (batch : PersistBatch) (g after : Group)
    : Type 0 where
  pub bytes : Bytes
  pub encoded :
      Encoded base batch options (record {
        bytes = bytes;
        state_after = placed after.view after.sequence (length bytes) base;
      })
  pub pushed : after.frames ≡ g.frames ++ bytes ∷ []
  pub size : after.group_bytes ≡ g.group_bytes + length bytes
  pub sequence : after.sequence ≡ base.last_frame_sequence + 1

push_frame-lem :
    (options : WalOptions) (view : ValidationView) (g after : Group) (frame : Bytes)
    → push_frame options view g frame ≡ done after
    → after ≡ push_back view frame g
unfolding push_frame
push_frame-lem options view g after frame e =
    elim (Bool-cases
      (ltb (options.max_group_bytes - min options.max_group_bytes g.group_bytes) (length frame))) [
        | inl large ↦ let bad = rw (large, push_frame) at e in absurd (cc (bad))
        | inr small ↦ let e' = rw (small, push_frame) at e in sym (done_injective e')
      ]

stage_frame-Pushed :
    (options : WalOptions) (base : WalState) (batch : PersistBatch) (g after : Group)
    → validate_options options ≡ done tt
    → g.view ≡ view_of base
    → g.sequence ≡ base.last_frame_sequence
    → base.last_frame_sequence < u64_max
    → stage_frame options batch g ≡ done after
    → Pushed options base batch g after
unfolding stage_frame make_frame
stage_frame-Pushed options base batch g after o same_view same_sequence room e =
    let (view, staged, e1) = bind-done (stage batch options g.view) _ e in
    let (frame, made, e2) = bind-done (make_frame (inc64 g.sequence) batch options) _ e1 in
    let (payload, encoded, wrapped) = bind-done (encode_batch_payload batch options) _ made in
    let next : inc64 g.sequence ≡ base.last_frame_sequence + 1 =
      ap inc64 same_sequence ∙ inc64-eq base.last_frame_sequence room in
    let (layout, small) = wrap_payload-layout (inc64 g.sequence) payload frame options wrapped in
    let pushed = push_frame-lem options view g after frame e2 in
    let sequence : after.sequence ≡ base.last_frame_sequence + 1 =
      ap (λ (a : Group). a.sequence) pushed ∙ next in
    record {
      bytes = frame;
      encoded = record {
        payload = payload;
        view = view;
        options_valid = o;
        unexhausted = λ full. omega (arith, room, full);
        staged = ap (stage batch options) (sym same_view) ∙ staged;
        encoded = encoded;
        small = small;
        bytes = layout ∙ ap (λ n. frame_layout n payload) next;
        after =
            ap (λ (a : Group). placed a.view a.sequence (length frame) base) pushed
            ∙ ap (λ n. placed view n (length frame) base) next;
      };
      pushed = ap (λ (a : Group). a.frames) pushed;
      size = ap (λ (a : Group). a.group_bytes) pushed;
      sequence = sequence;
    }

-- The state behind the group, from the state behind its first frame.
placed_again :
    (first last : ValidationView) (m n a b : ℕ) (base : WalState)
    → placed last n b (placed first m a base) ≡ placed last n (a + b) base
unfolding materialize
placed_again first last m n a b base =
    ap (λ size. record (materialize last base) { last_frame_sequence = n; file_bytes = size })
      (omega arith)

pub stage_frames-Grouped :
    (options : WalOptions) (base : WalState) (batches : List PersistBatch) (g after : Group)
    → validate_options options ≡ done tt
    → All BatchWidths batches
    → g.view ≡ view_of base
    → g.sequence ≡ base.last_frame_sequence
    → base.last_frame_sequence + length batches ≤ u64_max
    → stage_frames options batches g ≡ done after
    → Grouped options base batches g after
unfolding stage_frames materialize
stage_frames-Grouped options base [] g after o w same_view same_sequence room e =
    let back : placed g.view g.sequence 0 base ≡ base =
      ap (λ v. placed v g.sequence 0 base) same_view
      ∙ ap (λ n. placed (view_of base) n 0 base) same_sequence
      ∙ ap (λ size. record base { file_bytes = size }) (omega arith) in
    subst (Grouped options base [] g) (done_injective e) (record {
      frames = [];
      pushed = sym (append_nil g.frames);
      size = omega arith;
      framed = subst (Framed options base [] []) (sym back) nothing;
      sequence = omega (arith, same_sequence);
    })
stage_frames-Grouped options base (batch ∷ rest) g after o w same_view same_sequence room e =
    let (middle, first, others) = bind-done (stage_frame options batch g) _ e in
    let p =
      stage_frame-Pushed options base batch g middle o same_view same_sequence (omega (arith, room))
        first in
    let base' = placed middle.view middle.sequence (length p.bytes) base in
    let one = p.sequence in
    let r =
      stage_frames-Grouped options base' rest middle after o w.1 refl refl
        (omega (arith, one, room)) others in
    let long = length-append {0} p.bytes (concat r.frames) in
    let size_first = p.size in
    let size_rest = r.size in
    let last = r.sequence in
    record {
      frames = p.bytes ∷ r.frames;
      pushed =
          r.pushed
          ∙ ap (λ fs. fs ++ r.frames) p.pushed
          ∙ append_assoc g.frames (p.bytes ∷ []) r.frames;
      size = omega (arith, long, size_first, size_rest);
      framed =
          subst (Framed options base (batch ∷ rest) (p.bytes ++ concat r.frames))
            (placed_again middle.view after.view middle.sequence after.sequence (length p.bytes)
                (length (concat r.frames)) base
              ∙ ap (λ n. placed after.view after.sequence n base) (sym long))
            (frame_then p.encoded w.0 r.framed);
      sequence = omega (arith, one, last);
    }

abbrev pub first_group : WalState → Group
first_group state = record {
  view = view_of state;
  frames = [];
  group_bytes = 0;
  sequence = state.last_frame_sequence;
}

-- An admitted group, from the state of the log.
pub admit_group-Grouped :
    (options : WalOptions) (state : WalState) (batches : List PersistBatch) (g : Group)
    → validate_options options ≡ done tt
    → All BatchWidths batches
    → state.last_frame_sequence ≤ u64_max
    → admit_group options state batches ≡ done g
    → Grouped options (logical state) batches (first_group state) g
unfolding admit_group
admit_group-Grouped options state [] g o w fits e = absurd (cc (e))
admit_group-Grouped options state (batch ∷ rest) g o w fits e =
    let n = length (batch ∷ rest) in
    elim (Bool-cases (ltb options.max_group_frames n)) [
      | inl many ↦ let bad = rw many at e in absurd (cc (bad))
      | inr few ↦ elim (Bool-cases (ltb (u64_max - state.last_frame_sequence) n)) [
        | inl over ↦ let bad = rw (few, over) at e in absurd (cc (bad))
        | inr room ↦
            let e1 = rw (few, room) at e in
            let (staged, ran, last) =
              bind-done (stage_frames options (batch ∷ rest) (first_group state)) _ e1 in
            let r =
              stage_frames-Grouped options (logical state) (batch ∷ rest) (first_group state) staged
                o w refl refl (ground (arith, room, fits)) ran in
            elim (Bool-cases (ltb (u64_max - state.file_bytes) staged.group_bytes)) [
              | inl large ↦ let bad = rw large at last in absurd (cc (bad))
              | inr small ↦
                  let e2 = rw small at last in
                  subst (Grouped options (logical state) (batch ∷ rest) (first_group state))
                    (done_injective e2) r
            ]
      ]
    ]
