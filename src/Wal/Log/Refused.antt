-- ===== src/Wal/Log/Refused.antt =====
-- The fail-stop of Wal::Impl in src/wal.cpp.
use Prim.Native.String.{◌++◌ as ◌<>◌}
use det_log.Prelude.{
  ◌≡◌, ◌⊎◌, refl, sym, ◌∙◌, ap, subst, inl, inr, true, List, All, Bool-cases, eqb, if◌then◌else◌,
  eqb_iff,
}
use det_log.Model.{Bytes, PersistBatch}
use det_log.Wal.Types.{Result, done, error, ◌>>=◌, throw, WalError, WalErrorCode}
use det_log.Wal.Stage.Accepted.{BatchWidths}
use det_log.Wal.Storage.{NativeFile, IsLawful, Syncs}
use det_log.Wal.Log.{
  Log, ensure_live, admit_group, append_admitted, append_group, fail, finish_flush, flush_live,
  flush,
}
use det_log.Wal.Log.Kept.{Consistent}
use det_log.Wal.Log.Kept.Reported.{Reported}
use det_log.Wal.Log.Kept.Appended.{Outcome, append_group-Outcome}

module _ (N : NativeFile) where
  -- Every append and every flush throws, and changes nothing.
  abbrev pub Refuses : Log N → Type 0
  Refuses log =
      ((batches : List PersistBatch)
        → append_group N batches log
          ≡ (throw WalErrorCode.failed ("WAL is fail-stop: " <> log.failure_reason), log))
      × (flush N log
          ≡ (throw WalErrorCode.failed ("WAL is fail-stop: " <> log.failure_reason), log))

  failed-Refuses : (log : Log N) → log.failed ≡ true → Refuses log
  unfolding append_group flush ensure_live append_admitted
  failed-Refuses log h =
      let dead : ensure_live N log
          ≡ throw WalErrorCode.failed ("WAL is fail-stop: " <> log.failure_reason) =
        ap
          (λ stopped.
            if stopped
            then throw WalErrorCode.failed ("WAL is fail-stop: " <> log.failure_reason)
            else done tt)
          h in
      (
        λ batches.
            ap
              (λ (checked : Result (Unit {0})).
                append_admitted N (checked >>= λ _. admit_group log.options log.state batches) log)
              dead,
        ap
            (λ (checked : Result (Unit {0})). elim checked as (λ _. Result (Unit {0}) × Log N) [
              | error e ↦ (error e, log)
              | done _ ↦ flush_live N log
            ])
            dead,
      )

module _ (N : NativeFile) (S : Syncs N) where
  -- What a flush may come to: the whole file is durable, or the log is stopped.
  abbrev pub Flushed : Log N → List PersistBatch → Bytes → Result (Unit {0}) × Log N → Type 0
  Flushed log batches bytes (done _, after) =
      Consistent N after batches bytes
      × (S.durable after.file ≡ N.contents after.file)
      × (after.state.durable_frame_sequence ≡ log.state.last_frame_sequence)
      × (after.state.last_frame_sequence ≡ log.state.last_frame_sequence)
  Flushed log batches bytes (error e, after) =
      (N.contents after.file ≡ N.contents log.file) × (after.state ≡ log.state) × Refuses N after

module _ (N : NativeFile) (L : IsLawful N) where
  -- On a lawful file and a log that is consistent with it, with batches of the C++ widths: an append that
  -- throws has left the log as it was, or it has kept the state, and from then on every append and every
  -- flush throws that the log is fail-stop, and changes nothing.
  pub append_group-fail_stop :
      (log after : Log N) (batches new : List PersistBatch) (bytes : Bytes) (e : WalError)
      → Consistent N log batches bytes
      → All BatchWidths new
      → append_group N new log ≡ (error e, after)
      → (after ≡ log) ⊎ ((after.state ≡ log.state) × Refuses N after)
  append_group-fail_stop log after batches new bytes e c w ran =
      elim (subst (Outcome N log batches bytes new) ran
        (append_group-Outcome N L log batches new bytes c w)) [
          | inl same ↦ inl same
          | inr s ↦ inr (s.state, failed-Refuses N after s.failed)
        ]

module _ (N : NativeFile) (L : IsLawful N) (S : Syncs N) where
  finish_flush-Flushed :
      (log : Log N) (batches : List PersistBatch) (bytes : Bytes) (r : Result (Unit {0}) × N.File)
      → N.flush log.file ≡ r
      → Consistent N log batches bytes
      → Flushed N S log batches bytes (finish_flush N r log)
  unfolding finish_flush fail
  finish_flush-Flushed log batches bytes (done _, after) ran c = (
    record {
      identity = c.identity;
      options = c.options;
      contents = ap (λ p. N.contents p.1) (sym ran) ∙ L.flush-contents log.file ∙ c.contents;
      framed = c.framed;
      live = c.live;
    },
    S.flush-durable log.file after ran,
    refl,
    refl,
  )
  finish_flush-Flushed log batches bytes (error e, after) ran c =
      let code = L.flush-io log.file after e ran in
      let kept : N.contents after ≡ N.contents log.file =
        ap (λ p. N.contents p.1) (sym ran) ∙ L.flush-contents log.file in
      rw code (kept, refl, failed-Refuses N _ refl)

  flush_live-Flushed :
      (log : Log N) (batches : List PersistBatch) (bytes : Bytes)
      → Consistent N log batches bytes
      → Reported N S log
      → Flushed N S log batches bytes (flush_live N log)
  unfolding flush_live
  flush_live-Flushed log batches bytes c reported =
      let level = eqb log.state.durable_frame_sequence log.state.last_frame_sequence in
      elim (Bool-cases level) [
        | inl reached ↦
            let same = (eqb_iff _ _).0 reached in
            subst
              (λ t.
                Flushed N S log batches bytes
                  (if t then (done tt, log) else finish_flush N (N.flush log.file) log))
              (sym reached) (c, reported.level same, same, refl)
        | inr behind ↦
            subst
              (λ t.
                Flushed N S log batches bytes
                  (if t then (done tt, log) else finish_flush N (N.flush log.file) log))
              (sym behind) (finish_flush-Flushed log batches bytes (N.flush log.file) refl c)
      ]

  -- On a lawful file whose flush makes it durable, and a log that is consistent with it, and durable in
  -- full where it reports its last frame as durable: a flush that succeeds leaves a consistent log, and all
  -- the bytes of its file, the frames written without a flush included, are durable; the log reports its
  -- last frame as durable. A flush that throws keeps the file's contents and the state, and from then on
  -- every append and every flush throws and changes nothing.
  pub flush-Flushed :
      (log : Log N) (batches : List PersistBatch) (bytes : Bytes)
      → Consistent N log batches bytes
      → Reported N S log
      → Flushed N S log batches bytes (flush N log)
  unfolding flush ensure_live
  flush-Flushed log batches bytes c reported =
      let live : ensure_live N log ≡ done tt =
        ap
          (λ stopped.
            if stopped
            then throw WalErrorCode.failed ("WAL is fail-stop: " <> log.failure_reason)
            else done tt)
          c.live in
      subst
        (λ checked.
          Flushed N S log batches bytes (elim checked as (λ _. Result (Unit {0}) × Log N) [
            | error e ↦ (error e, log)
            | done _ ↦ flush_live N log
          ]))
        (sym live) (flush_live-Flushed log batches bytes c reported)
