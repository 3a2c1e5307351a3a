-- ===== src/Wal/Scan/Source/Agrees.antt =====
-- `scan_source` of src/wal.cpp, whatever source it reads, against the scan of the bytes themselves.
use det_log.Prelude.{
  ◌≡◌, ◌⊎◌, refl, sym, ◌∙◌, ap, subst, inl, inr, ℕ, zero, suc, ◌+◌, ◌-◌, ◌≤◌, true, false, not, [],
  ◌∷◌, arith, Bool-cases, ltb, eqb, if◌then◌else◌, length, take, drop, length-drop, drop-drop,
  inc64,
}
use det_log.Model.{Bytes}
use det_log.Wal.Types.{
  Result, done, error, ◌>>=◌, throw, and_then, located, WalError, WalErrorCode, WalIdentity,
  WalOptions, WalState, empty_state, file_header_bytes, frame_header_bytes, validate_options,
}
use det_log.Wal.Frame.{ParsedFrameHeader, parse_frame_header, validate_file_header}
use det_log.Wal.Scan.{
  WalScanResult, cut, replay_frame, Round, stop, next, scan_round, scan_loop, scan_wal_bytes,
}
use det_log.Wal.Scan.Source.{
  source_frame, source_round, after_round, source_loop, scan_source, read_bytes,
}

module _ {F : Type 0} (contents : F → Bytes) (Fails : WalError → Type 0) where
  abbrev HasFailed : {A : Type 0} → Result A → Type 0
  HasFailed (done _) = ⊥
  HasFailed (error e) = Fails e

  -- A reading of the file came to `r`, or the file failed; its contents are the same.
  abbrev pub Agrees : {A : Type 0} → Bytes → Result A → Result A × F → Type 0
  Agrees bytes r p = ((p.0 ≡ r) ⊎ HasFailed p.0) × (contents p.1 ≡ bytes)

  bind-Agrees :
      {A B : Type 0} (bytes : Bytes) (r : Result A) (p : Result A × F) (k : A → Result B)
      (continue : A → F → Result B × F)
      → Agrees bytes r p
      → ((a : A) (f : F) → contents f ≡ bytes → Agrees bytes (k a) (continue a f))
      → Agrees bytes (r >>= k) (and_then p continue)
  bind-Agrees bytes r (done a, f) k continue (inl same, held) go =
      subst (λ r. Agrees bytes (r >>= k) (continue a f)) same (go a f held)
  bind-Agrees bytes r (done a, f) k continue (inr failed, held) go = absurd failed
  bind-Agrees bytes r (error e, f) k continue (inl same, held) go =
      subst (λ r. Agrees bytes (r >>= k) (error e, f)) same (inl refl, held)
  bind-Agrees bytes r (error e, f) k continue (inr failed, held) go = (inr failed, held)

  -- The part of the file is given, or the file fails.
  abbrev pub ReadsWell : (ℕ → ℕ → F → Result Bytes × F) → Type 0
  ReadsWell read_exact =
      (offset size : ℕ) (f : F)
      → offset + size ≤ length (contents f)
      → Agrees (contents f) (done (take size (drop offset (contents f)))) (read_exact offset size f)

  module _ (read_exact : ℕ → ℕ → F → Result Bytes × F) (R : ReadsWell read_exact) where
    read-Agrees :
        (bytes : Bytes) (offset size : ℕ) (f : F)
        → contents f ≡ bytes
        → offset + size ≤ length bytes
        → Agrees bytes (done (take size (drop offset bytes))) (read_exact offset size f)
    read-Agrees bytes offset size f held inside =
        subst (λ b. Agrees b (done (take size (drop offset b))) (read_exact offset size f)) held
          (R offset size f (subst (λ b. offset + size ≤ length b) (sym held) inside))

    -- A round behind its header, on the bytes themselves.
    abbrev replay_header : WalOptions → ℕ → WalState → Bytes → ParsedFrameHeader → Result Round
    replay_header options offset state left header =
        if not (eqb header.sequence (inc64 state.last_frame_sequence))
        then located offset
            (throw WalErrorCode.invariant_violation "WAL frame sequence is not consecutive")
        else if ltb (length left) header.frame_size
        then done (stop (cut state offset true))
        else (replay_frame (take header.frame_size left) header options offset state >>= λ after.
            done (next header.frame_size after))

    source_frame-Agrees :
        (bytes : Bytes) (options : WalOptions) (offset : ℕ) (state : WalState)
        (header : ParsedFrameHeader) (f : F)
        → contents f ≡ bytes
        → offset ≤ length bytes
        → Agrees bytes
            (replay_header options offset state (drop offset bytes) header)
            (source_frame read_exact options (length bytes - offset) offset state header f)
    unfolding source_frame
    source_frame-Agrees bytes options offset state header f held inside =
        let left = length-drop offset bytes in
        let continue : Bytes → Result Round = λ frame.
          replay_frame frame header options offset state >>= λ after.
          done (next header.frame_size after) in
        elim (Bool-cases (eqb header.sequence (inc64 state.last_frame_sequence))) [
          | inr skipped ↦ rw skipped (inl refl, held)
          | inl consecutive ↦ elim (Bool-cases (ltb (length bytes - offset) header.frame_size)) [
            | inl torn ↦
                let short = ap (λ n. ltb n header.frame_size) left ∙ torn in
                rw (consecutive, torn, short) (inl refl, held)
            | inr whole ↦
                let long = ap (λ n. ltb n header.frame_size) left ∙ whole in
                rw (consecutive, whole, long)
                  (bind-Agrees bytes (done (take header.frame_size (drop offset bytes)))
                    (read_exact offset header.frame_size f) continue _
                    (read-Agrees bytes offset header.frame_size f held
                      (ground (arith, whole, inside)))
                    (λ frame f held.
                      bind-Agrees bytes (replay_frame frame header options offset state)
                        (replay_frame frame header options offset state, f)
                        (λ after. done (next header.frame_size after)) _ (inl refl, held)
                        (λ after f held. (inl refl, held))))
          ]
        ]

    source_round-Agrees :
        (bytes : Bytes) (options : WalOptions) (offset : ℕ) (state : WalState) (f : F)
        → contents f ≡ bytes
        → offset ≤ length bytes
        → Agrees bytes
            (scan_round options offset state (drop offset bytes))
            (source_round read_exact options (length bytes) offset state f)
    unfolding source_round scan_round
    source_round-Agrees bytes options offset state f held inside =
        let left = length-drop offset bytes in
        let continue : ParsedFrameHeader → Result Round =
          replay_header options offset state (drop offset bytes) in
        elim (Bool-cases (ltb (length bytes - offset) frame_header_bytes)) [
          | inl torn ↦
              let short = ap (λ n. ltb n frame_header_bytes) left ∙ torn in
              rw (torn, short) (inl refl, held)
          | inr whole ↦
              let long = ap (λ n. ltb n frame_header_bytes) left ∙ whole in
              rw (whole, long)
                (bind-Agrees bytes (done (take frame_header_bytes (drop offset bytes)))
                  (read_exact offset frame_header_bytes f)
                  (λ header_bytes.
                    located offset (parse_frame_header header_bytes options) >>= continue)
                  _
                  (read-Agrees bytes offset frame_header_bytes f held
                    (ground (arith, whole, inside)))
                  (λ header_bytes f held.
                    bind-Agrees bytes (located offset (parse_frame_header header_bytes options))
                      (located offset (parse_frame_header header_bytes options), f) continue _
                      (inl refl, held)
                      (λ header f held.
                        source_frame-Agrees bytes options offset state header f held inside)))
        ]

    source_loop-Agrees :
        (bytes : Bytes) (options : WalOptions) (fuel offset : ℕ) (state : WalState) (left : Bytes)
        (f : F)
        → contents f ≡ bytes
        → left ≡ drop offset bytes
        → Agrees bytes
            (scan_loop fuel options offset state left)
            (source_loop read_exact fuel options (length bytes) offset state f)
    unfolding source_loop scan_loop
    source_loop-Agrees bytes options fuel offset state [] f held rest =
        let size = ap length rest ∙ length-drop offset bytes in
        let ended : ltb offset (length bytes) ≡ false = ground (arith, size) in stops fuel ended
      where
        stops :
            (fuel : ℕ)
            → ltb offset (length bytes) ≡ false
            → Agrees bytes
                (done (cut state offset false))
                (source_loop read_exact fuel options (length bytes) offset state f)
        stops zero ended = rw ended (inl refl, held)
        stops (suc fuel) ended = rw ended (inl refl, held)
    source_loop-Agrees bytes options zero offset state (byte ∷ left) f held rest =
        let size = ap length rest ∙ length-drop offset bytes in
        let more : ltb offset (length bytes) ≡ true = ground (arith, size) in
        rw more (inl refl, held)
    source_loop-Agrees bytes options (suc fuel) offset state (byte ∷ left) f held rest =
        let size = ap length rest ∙ length-drop offset bytes in
        let more : ltb offset (length bytes) ≡ true = ground (arith, size) in
        let continue : Round → Result WalScanResult = λ round. elim round [
          | stop result ↦ done result
          | next size after ↦ scan_loop fuel options (offset + size) after (drop size (byte ∷ left))
        ] in
        rw more (
          bind-Agrees bytes (scan_round options offset state (byte ∷ left))
            (source_round read_exact options (length bytes) offset state f) continue _
            (subst
              (λ left.
                Agrees bytes (scan_round options offset state left)
                  (source_round read_exact options (length bytes) offset state f))
              (sym rest)
              (source_round-Agrees bytes options offset state f held (ground (arith, more))))
            (λ round f held.
              elim round
                as (λ round. Agrees bytes (continue round) (
                  after_round read_exact
                    (λ size after f.
                      source_loop read_exact fuel options (length bytes) (offset + size) after f)
                    round f)) [
                      | stop result ↦ (inl refl, held)
                      | next size after ↦
                          source_loop-Agrees bytes options fuel (offset + size) after
                            (drop size (byte ∷ left)) f held
                            (ap (drop size) rest ∙ drop-drop size offset bytes)
                    ]))

    -- A scan of a file, that reads it piece by piece, gives what the scan of its bytes gives, or a
    -- failure of the file; the file stays as it is.
    pub scan_source-Agrees :
        (identity : WalIdentity) (options : WalOptions) (f : F)
        → Agrees
            (contents f)
            (scan_wal_bytes (contents f) identity options)
            (scan_source read_exact (length (contents f)) identity options f)
    unfolding scan_source scan_wal_bytes
    scan_source-Agrees identity options f =
        let bytes = contents f in
        let size = length-drop file_header_bytes bytes in
        let state = record empty_state { file_bytes = file_header_bytes } in
        let scan : Result WalScanResult =
          scan_loop (length (drop file_header_bytes bytes)) options file_header_bytes state
            (drop file_header_bytes bytes) in
        bind-Agrees bytes (validate_options options) (validate_options options, f) _ _
          (inl refl, refl)
          (λ _ f held. elim (Bool-cases (ltb (length bytes) file_header_bytes)) [
            | inl short ↦ rw short (inl refl, held)
            | inr whole ↦
                rw (whole, sym size)
                  (bind-Agrees bytes (done (take file_header_bytes bytes))
                    (read_exact 0 file_header_bytes f)
                    (λ header. validate_file_header header identity >>= λ _. scan) _
                    (read-Agrees bytes 0 file_header_bytes f held (ground (arith, whole)))
                    (λ header f held.
                      bind-Agrees bytes (validate_file_header header identity)
                        (validate_file_header header identity, f) (λ _. scan) _ (inl refl, held)
                        (λ _ f held.
                          source_loop-Agrees bytes options (length (drop file_header_bytes bytes))
                            file_header_bytes state (drop file_header_bytes bytes) f held refl)))
          ])

-- The source of `scan_wal_bytes` does not fail, so the function is the scan of its bytes.
pub scan_source-read_bytes :
    (bytes : Bytes) (identity : WalIdentity) (options : WalOptions)
    → (scan_source (read_bytes bytes) (length bytes) identity options tt).0
      ≡ scan_wal_bytes bytes identity options
unfolding read_bytes
scan_source-read_bytes bytes identity options =
    elim (scan_source-Agrees (λ _. bytes) (λ _. ⊥) (read_bytes bytes) reads identity options tt).0 [
      | inl same ↦ same
      | inr failed ↦
          absurd
            (never (scan_source (read_bytes bytes) (length bytes) identity options tt).0 failed)
    ]
  where
    reads : ReadsWell (λ (_ : Unit {0}). bytes) (λ _. ⊥) (read_bytes bytes)
    reads offset size f inside =
        let front : ltb (length bytes) offset ≡ false = ground (arith, inside) in
        let back : ltb (length bytes - offset) size ≡ false = ground (arith, inside) in
        rw (front, back) (inl refl, refl)

    never : {A : Type 0} (r : Result A) → HasFailed (λ (_ : Unit {0}). bytes) (λ _. ⊥) r → ⊥
    never (done _) h = h
    never (error e) h = h
