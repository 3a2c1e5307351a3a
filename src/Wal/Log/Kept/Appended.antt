-- ===== src/Wal/Log/Kept/Appended.antt =====
-- The outcomes of `append_group` in src/wal.cpp.
use Prim.Native.String.{◌++◌ as ◌<>◌}
use det_log.Prelude.{
  ◌≡◌, ◌⊎◌, refl, sym, ◌∙◌, ap, subst, inl, inr, ℕ, ◌+◌, true, List, ◌++◌, All, arith,
  if◌then◌else◌, length, length-append, append_assoc,
}
use det_log.Model.{Bytes, PersistBatch}
use det_log.Wal.Types.{Result, done, error, ◌>>=◌, throw, WalErrorCode, WalState}
use det_log.Wal.Stage.{materialize}
use det_log.Wal.Stage.Accepted.{BatchWidths}
use det_log.Wal.Frame.Header.{file_header_layout, length-file_header_layout}
use det_log.Wal.Scan.Sequence.{logical, Framed, Framed-append, Framed-kept}
use det_log.Wal.Scan.Recovery.{start}
use det_log.Wal.Storage.{NativeFile, Partly, IsLawful}
use det_log.Wal.Log.{
  WalAppendResult, Group, Log, ensure_live, admit_group, write_group, fail, finish_group,
  append_admitted, append_group, flushes,
}
use det_log.Wal.Log.Staged.{concat, placed, first_group, Grouped, admit_group-Grouped}
use det_log.Wal.Log.Kept.{Consistent}
use det_log.Wal.Log.Kept.Written.{Written, write_group-Written}

module _ (N : NativeFile) where
  -- A failure of the file has stopped the log, with the front of the group's frames in the file.
  pub record Stopped (log after : Log N) (batches : List PersistBatch) (before : Bytes)
      : Type 0 where
    pub failed : after.failed ≡ true
    pub state : after.state ≡ log.state
    pub options : after.options ≡ log.options
    pub identity : after.identity ≡ log.identity
    pub more : Bytes
    pub last : WalState
    pub framed : Framed log.options (logical log.state) batches more last
    pub partly : Partly before more (N.contents after.file)

  -- What a call with these batches may return.
  abbrev pub Outcome :
      Log N
      → List PersistBatch
      → Bytes
      → List PersistBatch
      → Result WalAppendResult × Log N
      → Type 0
  Outcome log batches bytes new (done result, after) =
      (more : Bytes) × (after.identity ≡ log.identity)
      × (after.options ≡ log.options)
      × Consistent N after (batches ++ new) (bytes ++ more)
      × (result.first_frame_sequence ≡ log.state.last_frame_sequence + 1)
      × (result.last_frame_sequence ≡ log.state.last_frame_sequence + length new)
      × (result.bytes_written ≡ length more)
      × (result.durable ≡ flushes log.options.flush_policy)
  Outcome log batches bytes new (error e, after) =
      (after ≡ log) ⊎ Stopped log after new (file_header_layout log.identity ++ bytes)

module _ (N : NativeFile) (L : IsLawful N) where
  finish_group-Outcome :
      (log : Log N) (batches new : List PersistBatch) (bytes : Bytes) (g : Group)
      (r : Result ℕ × N.File)
      (d : Grouped log.options (logical log.state) new (first_group log.state) g)
      → Consistent N log batches bytes
      → Written N (N.contents log.file) (concat d.frames) log.state.file_bytes r
      → Outcome N log batches bytes new (finish_group N g r log)
  unfolding finish_group fail materialize
  finish_group-Outcome log batches new bytes g (error e, file) d c (partly, code) =
      let stopped : Stopped N log
          (record log { file = file; failed = true; failure_reason = e.message }) new
          (file_header_layout log.identity ++ bytes) =
        record {
          failed = refl;
          state = refl;
          options = refl;
          identity = refl;
          more = concat d.frames;
          last = placed g.view g.sequence (length (concat d.frames)) (logical log.state);
          framed = d.framed;
          partly =
              subst (λ before. Partly before (concat d.frames) (N.contents file)) c.contents partly;
        } in
      rw code (inr stopped)
  finish_group-Outcome log batches new bytes g (done last, file) d c (contents, size) = (
    concat d.frames,
    refl,
    refl,
    record {
      identity = c.identity;
      options = c.options;
      contents =
          contents
          ∙ ap (λ before. before ++ concat d.frames) c.contents
          ∙ append_assoc (file_header_layout log.identity) bytes (concat d.frames);
      framed =
          Framed-append log.options batches new bytes (concat d.frames) start (logical log.state) _
            c.framed
            (subst
              (λ n.
                Framed log.options (logical log.state) new (concat d.frames)
                  (record (materialize g.view (logical log.state)) {
                    last_frame_sequence = g.sequence;
                    file_bytes = n;
                  }))
              (sym size) d.framed);
      live = c.live;
    },
    refl,
    d.sequence,
    d.size ∙ omega arith,
    refl,
  )

  append_admitted-Outcome :
      (log : Log N) (batches new : List PersistBatch) (bytes : Bytes) (admitted : Result Group)
      → Consistent N log batches bytes
      → All BatchWidths new
      → admit_group log.options log.state new ≡ admitted
      → Outcome N log batches bytes new (append_admitted N admitted log)
  unfolding append_admitted
  append_admitted-Outcome log batches new bytes (error e) c w h = inl refl
  append_admitted-Outcome log batches new bytes (done g) c w h =
      let (last, size) =
        Framed-kept log.options batches bytes start (logical log.state) c.framed (omega arith) in
      let d = admit_group-Grouped log.options log.state new g c.options w (omega (arith, last)) h in
      let held = ap length c.contents in
      let all = length-append {0} (file_header_layout log.identity) bytes in
      let header = length-file_header_layout log.identity in
      let at_end : log.state.file_bytes ≡ length (N.contents log.file) =
        omega (arith, held, all, header, size) in
      let pushed = d.pushed in
      finish_group-Outcome log batches new bytes g
        (write_group N log.options log.state.file_bytes g.frames log.file) d c
        (subst
          (λ frames.
            Written N (N.contents log.file) (concat frames) log.state.file_bytes
              (write_group N log.options log.state.file_bytes g.frames log.file))
          pushed
          (write_group-Written N L log.options log.state.file_bytes g.frames log.file at_end))

  -- On a lawful file and a log that is consistent with it, with batches of the C++ widths: if
  -- `append_group` succeeds, the log is consistent with the file, which holds the group's frames behind
  -- the others, and the result reports their sequence numbers, their bytes and the policy's durability.
  -- If it throws, the log is as before, or it is stopped in the state before, with the front of the
  -- group's frames in the file.
  pub append_group-Outcome :
      (log : Log N) (batches new : List PersistBatch) (bytes : Bytes)
      → Consistent N log batches bytes
      → All BatchWidths new
      → Outcome N log batches bytes new (append_group N new log)
  unfolding append_group ensure_live
  append_group-Outcome log batches new bytes c w =
      let live : ensure_live N log ≡ done tt =
        ap
          (λ stopped.
            if stopped
            then throw WalErrorCode.failed ("WAL is fail-stop: " <> log.failure_reason)
            else done tt)
          c.live in
      subst
        (λ checked.
          Outcome N log batches bytes new
            (append_admitted N (checked >>= λ _. admit_group log.options log.state new) log))
        (sym live)
        (append_admitted-Outcome log batches new bytes (admit_group log.options log.state new) c w
          refl)
