-- ===== src/Wal/Log/Kept/Logged.antt =====
-- The state of a log of src/wal.cpp is one that every accepted batch has kept well-formed.
use det_log.Prelude.{sym, subst, arith, List}
use det_log.Model.{Bytes, PersistBatch}
use det_log.Wal.Types.{WalOptions, WalState}
use det_log.Wal.Stage.{view_of, materialize, last_term_from}
use det_log.Wal.Stage.Guards.{Logged}
use det_log.Wal.Stage.Logged.{stage-Logged}
use det_log.Wal.Scan.Sequence.{Framed, nothing, frame_then}
use det_log.Wal.Scan.Recovery.{start}
use det_log.Wal.Storage.{NativeFile}
use det_log.Wal.Log.{Log}
use det_log.Wal.Log.Kept.{Consistent}

Framed-Logged :
    (options : WalOptions) (batches : List PersistBatch) (bytes : Bytes) (before after : WalState)
    → Framed options before batches bytes after
    → Logged options (view_of before)
    → Logged options (view_of after)
unfolding materialize
Framed-Logged options batches bytes before after (nothing) h = h
Framed-Logged options batches bytes before after
      (frame_then {batch = batch} {frame = frame} {batches = batches'} {bytes = rest} d w later) h =
    let (kept, _) = stage-Logged options batch (view_of before) d.view h d.staged in
    Framed-Logged options batches' rest frame.state_after after later
      (subst (λ (s : WalState). Logged options (view_of s)) (sym d.after) kept)

start-Logged : (options : WalOptions) → Logged options (view_of start)
unfolding last_term_from
start-Logged options = record {
  ordered = tt;
  current = omega arith;
  committed = omega arith;
  bounded = omega arith;
}

-- A log that is consistent with its file has consecutive indexes from 1, positive terms that do not
-- fall, none above the current term, its commit index within the log and the log within its bound.
pub Consistent-Logged :
    (N : NativeFile) (log : Log N) (batches : List PersistBatch) (bytes : Bytes)
    → Consistent N log batches bytes
    → Logged log.options (view_of log.state)
Consistent-Logged N log batches bytes c =
    Framed-Logged log.options batches bytes start _ c.framed (start-Logged log.options)
