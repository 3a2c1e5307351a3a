-- ===== src/Wal/Log/Kept/Reported.antt =====
-- The frames that Wal::Impl in src/wal.cpp reports as durable, against what the medium holds.
use det_log.Prelude.{
  ◌≡◌, refl, subst, ℕ, ◌≤◌, ◌<◌, true, List, arith, Bool-cases, inl, inr, if◌then◌else◌, length,
  All,
}
use det_log.Model.{Bytes, PersistBatch}
use det_log.Wal.Types.{Result, done, error, and_then, WalOptions, ◌>>=◌}
use det_log.Wal.Storage.{NativeFile, IsLawful, Syncs}
use det_log.Wal.Stage.Accepted.{BatchWidths}
use det_log.Wal.Log.{
  Log, Group, WalAppendResult, flushes, write_frames, write_group, finish_group, append_admitted,
  append_group, admit_group, ensure_live, fail, is_io,
}
use det_log.Wal.Log.Kept.{Consistent}
use det_log.Wal.Log.Kept.Appended.{append_group-Outcome, Outcome}

module _ (N : NativeFile) (S : Syncs N) where
  -- A log that reports its last frame as durable has a file that is durable in full.
  pub record Reported (log : Log N) : Type 0 where
    pub behind : log.state.durable_frame_sequence ≤ log.state.last_frame_sequence
    pub level :
        log.state.durable_frame_sequence ≡ log.state.last_frame_sequence
        → S.durable log.file ≡ N.contents log.file

  -- What the group's writes have left behind: the file is durable where the policy flushes.
  abbrev Synced : WalOptions → Result ℕ × N.File → Type 0
  Synced options (done n, file) =
      flushes options.flush_policy ≡ true → S.durable file ≡ N.contents file
  Synced options (error e, file) = Unit {0}

  flushed :
      (options : WalOptions) (n : ℕ) (file : N.File) (r : Result (Unit {0}) × N.File)
      → N.flush file ≡ r
      → Synced options (and_then r (λ _ file. (done n, file)))
  flushed options n file (done _, after) ran = λ _. S.flush-durable file after ran
  flushed options n file (error e, after) ran = tt

  written :
      (options : WalOptions) (r : Result ℕ × N.File)
      → Synced options (
          and_then r (λ write_offset file.
            if flushes options.flush_policy
            then and_then (N.flush file) (λ _ file. (done write_offset, file))
            else (done write_offset, file)))
  written options (error e, file) = tt
  written options (done n, file) = elim (Bool-cases (flushes options.flush_policy)) [
    | inl on ↦ rw on (flushed options n file (N.flush file) refl)
    | inr off ↦ rw off (λ on. absurd (cc (on)))
  ]

  -- A call that has gone past the last frame keeps the reports true.
  abbrev Later : Log N → Result WalAppendResult × Log N → Type 0
  Later log (done result, after) =
      log.state.last_frame_sequence < result.last_frame_sequence → Reported after
  Later log (error e, after) = Unit {0}

  finish_group-Later :
      (log : Log N) (g : Group) (r : Result ℕ × N.File)
      → Reported log
      → Synced log.options r
      → Later log (finish_group N g r log)
  unfolding finish_group fail
  finish_group-Later log g (error e, file) reported synced = elim (Bool-cases (is_io e.code)) [
    | inl io ↦ rw io tt
    | inr other ↦ rw other tt
  ]
  finish_group-Later log g (done n, file) reported synced =
      elim (Bool-cases (flushes log.options.flush_policy)) [
        | inl on ↦
            let full = synced on in
            rw on (λ later. record { behind = omega arith; level = λ _. full })
        | inr off ↦
            let behind = reported.behind in
            rw off (λ later. record {
              behind = omega (arith, behind, later);
              level = λ same. absurd (omega (arith, behind, later, same));
            })
      ]

  append_admitted-Later :
      (log : Log N) (admitted : Result Group)
      → Reported log
      → Later log (append_admitted N admitted log)
  unfolding append_admitted write_group
  append_admitted-Later log (error e) reported = tt
  append_admitted-Later log (done g) reported =
      finish_group-Later log g (write_group N log.options log.state.file_bytes g.frames log.file)
        reported (written log.options (write_frames N log.state.file_bytes g.frames log.file))

module _ (N : NativeFile) (L : IsLawful N) (S : Syncs N) where
  -- An append of frames keeps the reports true, whatever the policy.
  pub append_group-Reported :
      (log after : Log N) (batches new : List PersistBatch) (bytes : Bytes)
      (result : WalAppendResult)
      → Consistent N log batches bytes
      → Reported N S log
      → All BatchWidths new
      → 0 < length new
      → append_group N new log ≡ (done result, after)
      → Reported N S after
  unfolding append_group
  append_group-Reported log after batches new bytes result c reported w some_new ran =
      let (_, _, _, _, _, last, _, _) =
        subst (Outcome N log batches bytes new) ran
          (append_group-Outcome N L log batches new bytes c w) in
      subst (Later N S log) ran
        (append_admitted-Later N S log
          (ensure_live N log >>= λ _. admit_group log.options log.state new) reported)
        (omega (arith, last, some_new))
