-- ===== src/Wal/Log/Kept.antt =====
-- What the operations of Wal::Impl in src/wal.cpp keep of the file and the state.
pub mod Scanned
pub mod Written
pub mod Appended
pub mod Opened
pub mod Repaired
pub mod Reopened
pub mod Created
pub mod Logged
pub mod Available
pub mod Reported
use det_log.Prelude.{◌≡◌, Bool, false, List, ◌++◌}
use det_log.Model.{Bytes, PersistBatch}
use det_log.Wal.Types.{done, WalState, validate_options}
use det_log.Wal.Frame.Header.{IdentityFits, file_header_layout}
use det_log.Wal.Scan.Sequence.{logical, Framed}
use det_log.Wal.Scan.Recovery.{start}
use det_log.Wal.Storage.{NativeFile}
use det_log.Wal.Log.{Log}

-- The file holds its header and the frames of the batches, and the state is the one behind them.
pub record Consistent (N : NativeFile) (log : Log N) (batches : List PersistBatch) (bytes : Bytes)
    : Type 0 where
  pub identity : IdentityFits log.identity
  pub options : validate_options log.options ≡ done tt
  pub contents : N.contents log.file ≡ file_header_layout log.identity ++ bytes
  pub framed : Framed log.options start batches bytes (logical log.state)
  pub live : log.failed ≡ false
