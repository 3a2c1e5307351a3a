-- ===== src/Wal/Scan/Torn.antt =====
-- The loop of `scan_source` in src/wal.cpp on frames of which a crash left the front.
use det_log.Prelude.{
  ◌≡◌, refl, sym, ◌∙◌, ap, subst, inl, inr, ℕ, zero, suc, ◌+◌, ◌-◌, ◌<◌, ◌≤◌, ◌^◌, true, false, not,
  List, [], ◌∷◌, ◌++◌, arith, Bool-cases, ltb, eqb, length, length-append, take, drop, length-take,
  take-append, take-split, take-front, drop-front,
}
use det_log.Model.{Bytes, PersistBatch}
use det_log.Wal.Types.{done, WalOptions, WalState}
use det_log.Wal.Stage.Accepted.{BatchWidths}
use det_log.Wal.Scan.{WalEncodedFrame, WalScanResult, cut, stop, next, scan_round, scan_loop}
use det_log.Wal.Scan.Encoded.{Encoded}
use det_log.Wal.Scan.Frames.{length-frame, scan_round-frame, scan_round-torn}
use det_log.Wal.Scan.Sequence.{Framed, nothing, frame_then, sequence_kept}

pub scan_loop-next :
    (fuel : ℕ) (options : WalOptions) (offset : ℕ) (state : WalState) (left : Bytes) (size : ℕ)
    (after : WalState)
    → 0 < length left
    → scan_round options offset state left ≡ done (next size after)
    → scan_loop (suc fuel) options offset state left
      ≡ scan_loop fuel options (offset + size) after (drop size left)
unfolding scan_loop
scan_loop-next fuel options offset state [] size after some_left e = elim some_left [ ]
scan_loop-next fuel options offset state (byte ∷ left) size after some_left e = rw e refl

scan_loop-stop :
    (fuel : ℕ) (options : WalOptions) (offset : ℕ) (state : WalState) (left : Bytes)
    (result : WalScanResult)
    → 0 < length left
    → scan_round options offset state left ≡ done (stop result)
    → scan_loop (suc fuel) options offset state left ≡ done result
unfolding scan_loop
scan_loop-stop fuel options offset state [] result some_left e = elim some_left [ ]
scan_loop-stop fuel options offset state (byte ∷ left) result some_left e = rw e refl

-- Behind `state`, fewer bytes are left than the frame of the next batch takes.
abbrev pub Stops : WalOptions → WalState → List PersistBatch → ℕ → Type 0
Stops options state [] left = left ≡ 0
Stops options state (batch ∷ rest) left =
    (frame : WalEncodedFrame) × Encoded state batch options frame × (left < length frame.bytes)

-- What the scan has kept, when the first `size` bytes of the frames are in the file.
pub record Recovered (options : WalOptions) (before : WalState) (batches : List PersistBatch)
    (all : Bytes) (size : ℕ) (result : WalScanResult) : Type 0 where
  pub kept : List PersistBatch
  pub lost : List PersistBatch
  pub bytes : Bytes
  pub state : WalState
  pub split : kept ++ lost ≡ batches
  pub framed : Framed options before kept bytes state
  pub inside : length bytes ≤ size
  pub front : bytes ≡ take (length bytes) all
  pub stops : Stops options state lost (size - length bytes)
  pub level : state.file_bytes ≡ before.file_bytes + length bytes
  pub found : result ≡ cut state state.file_bytes (not (eqb (length bytes) size))

pub take_past :
    (k : ℕ) (front rest : Bytes)
    → length front ≤ k
    → take k (front ++ rest) ≡ front ++ take (k - length front) rest
take_past k front rest h =
    sym (take-split (length front) k (front ++ rest) h)
    ∙ rw (take-front front rest, drop-front front rest) refl

eqb_shift : (m a b : ℕ) → m ≤ b → eqb a (b - m) ≡ eqb (m + a) b
eqb_shift m a b h = ground (arith, h)

-- The whole frame of a batch: the rest of the scan has kept what follows.
Recovered-frame :
    (options : WalOptions) (before : WalState) (batch : PersistBatch) (frame : WalEncodedFrame)
    (batches : List PersistBatch) (rest : Bytes) (size : ℕ) (result : WalScanResult)
    → Encoded before batch options frame
    → BatchWidths batch
    → length frame.bytes ≤ size
    → frame.state_after.file_bytes ≡ before.file_bytes + length frame.bytes
    → Recovered options frame.state_after batches rest (size - length frame.bytes) result
    → Recovered options before (batch ∷ batches) (frame.bytes ++ rest) size result
Recovered-frame options before batch frame batches rest size result d w whole level r =
    let longer = length-append {0} frame.bytes r.bytes in
    let inside = r.inside in
    let further = r.level in
    let ends : (size - length frame.bytes) - length r.bytes
        ≡ size - length (frame.bytes ++ r.bytes) =
      omega (arith, longer) in
    let same : eqb (length r.bytes) (size - length frame.bytes)
        ≡ eqb (length (frame.bytes ++ r.bytes)) size =
      eqb_shift (length frame.bytes) (length r.bytes) size whole
      ∙ ap (λ n. eqb n size) (sym longer) in
    record {
      kept = batch ∷ r.kept;
      lost = r.lost;
      bytes = frame.bytes ++ r.bytes;
      state = r.state;
      split = ap (◌∷◌ batch) r.split;
      framed = frame_then d w r.framed;
      inside = omega (arith, longer, inside, whole);
      front = sym (
          take_past (length (frame.bytes ++ r.bytes)) frame.bytes rest (omega (arith, longer))
          ∙ ap (λ n. frame.bytes ++ take n rest) (omega (arith, longer))
          ∙ ap (λ part. frame.bytes ++ part) (sym r.front));
      stops = subst (Stops options r.state r.lost) ends r.stops;
      level = omega (arith, longer, further, level);
      found = r.found ∙ ap (λ torn. cut r.state r.state.file_bytes (not torn)) same;
    }

Recovered-nothing :
    (options : WalOptions) (before : WalState) (batches : List PersistBatch) (all : Bytes)
    (size : ℕ)
    → Stops options before batches size
    → Recovered options before batches all size (cut before before.file_bytes (not (eqb 0 size)))
Recovered-nothing options before batches all size h = record {
  kept = [];
  lost = batches;
  bytes = [];
  state = before;
  split = refl;
  framed = nothing;
  inside = omega arith;
  front = refl;
  stops = subst (Stops options before batches) (omega arith) h;
  level = omega arith;
  found = refl;
}

scan_loop-torn :
    (fuel size : ℕ) (options : WalOptions) (before : WalState) (batch : PersistBatch)
    (frame : WalEncodedFrame)
    → Encoded before batch options frame
    → before.last_frame_sequence < 256 ^ 8
    → size < length frame.bytes
    → size ≤ fuel
    → scan_loop fuel options before.file_bytes before (take size frame.bytes)
      ≡ done (cut before before.file_bytes (not (eqb 0 size)))
unfolding scan_loop
scan_loop-torn fuel zero options before batch frame d seq torn enough = refl
scan_loop-torn zero (suc size) options before batch frame d seq torn enough = elim enough [ ]
scan_loop-torn (suc fuel) (suc size) options before batch frame d seq torn enough =
    let some_left : eqb 0 (suc size) ≡ false = ground arith in
    scan_loop-stop fuel options before.file_bytes before (take (suc size) frame.bytes)
      (cut before before.file_bytes true) (omega (arith, length-take (suc size) frame.bytes, torn))
      (scan_round-torn before batch options frame (suc size) d seq torn)
    ∙ ap (λ at_start. done (cut before before.file_bytes (not at_start))) (sym some_left)

-- The scan of the first `size` bytes finds what a recovery has kept.
abbrev pub Recovers : ℕ → WalOptions → WalState → List PersistBatch → Bytes → ℕ → Type 0
Recovers fuel options before batches bytes size =
    (result : WalScanResult) × (scan_loop fuel options before.file_bytes before (take size bytes)
      ≡ done result)
    × Recovered options before batches bytes size result

scan_loop-whole :
    (fuel size : ℕ) (options : WalOptions) (before : WalState) (batch : PersistBatch)
    (frame : WalEncodedFrame) (batches : List PersistBatch) (rest : Bytes)
    → Encoded before batch options frame
    → BatchWidths batch
    → before.last_frame_sequence < 256 ^ 8
    → size ≤ fuel
    → length frame.bytes ≤ size
    → ((rounds : ℕ)
        → size - length frame.bytes ≤ rounds
        → Recovers rounds options frame.state_after batches rest (size - length frame.bytes))
    → Recovers fuel options before (batch ∷ batches) (frame.bytes ++ rest) size
scan_loop-whole zero size options before batch frame batches rest d w seq enough m scan =
    absurd (omega (arith, enough, m, length-frame before batch options frame d))
scan_loop-whole (suc rounds) size options before batch frame batches rest d w seq enough m scan =
    let level = length-frame before batch options frame d in
    let (_, place) = sequence_kept before batch options frame d seq in
    let (result, ran, r) = scan rounds (omega (arith, enough, level)) in
    let left = take (size - length frame.bytes) rest in
    (
      result,
      ap (scan_loop (suc rounds) options before.file_bytes before)
            (take_past size frame.bytes rest m)
          ∙ scan_loop-next rounds options before.file_bytes before (frame.bytes ++ left)
              (length frame.bytes) frame.state_after
              (omega (arith, length-append {0} frame.bytes left, level))
              (scan_round-frame before batch options frame left d w seq)
          ∙ rw (drop-front frame.bytes left, sym place) ran,
      Recovered-frame options before batch frame batches rest size result d w m place r,
    )

-- A scan of the first `size` bytes of the frames.
pub scan_loop-Framed :
    (options : WalOptions) (fuel : ℕ) (batches : List PersistBatch) (bytes : Bytes) (size : ℕ)
    (before after : WalState)
    → Framed options before batches bytes after
    → before.last_frame_sequence < 256 ^ 8
    → size ≤ length bytes
    → size ≤ fuel
    → Recovers fuel options before batches bytes size
unfolding scan_loop
scan_loop-Framed options fuel batches bytes zero before after (nothing) seq inside enough =
    (cut before before.file_bytes false, refl, Recovered-nothing options before [] [] 0 refl)
scan_loop-Framed options fuel batches bytes (suc size) before after (nothing) seq inside enough =
    elim inside [ ]
scan_loop-Framed options fuel batches bytes size before after
      (frame_then {batch = batch} {frame = frame} {batches = batches'} {bytes = rest} d w h) seq
      inside enough =
    elim (Bool-cases (ltb size (length frame.bytes))) [
      | inl torn ↦
          let short : size < length frame.bytes = ground (arith, torn) in
          (
            cut before before.file_bytes (not (eqb 0 size)),
            ap (scan_loop fuel options before.file_bytes before)
                  (take-append size frame.bytes rest (omega (arith, short)))
                ∙ scan_loop-torn fuel size options before batch frame d seq short enough,
            Recovered-nothing options before (batch ∷ batches') (frame.bytes ++ rest) size
                (frame, d, short),
          )
      | inr complete ↦
          let m : length frame.bytes ≤ size = ground (arith, complete) in
          let (kept, _) = sequence_kept before batch options frame d seq in
          scan_loop-whole fuel size options before batch frame batches' rest d w seq enough m
            (λ rounds k.
              scan_loop-Framed options rounds batches' rest (size - length frame.bytes)
                frame.state_after after h kept
                (omega (arith, inside, length-append {0} frame.bytes rest)) k)
    ]
