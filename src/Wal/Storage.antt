-- ===== src/Wal/Storage.antt =====
-- The file as the log of src/wal.cpp sees it, over an unknown state, and what the log assumes of it: a
-- reading inside it gives its bytes, a write at the end appends its bytes, or the front of them when it
-- fails, and an error has the code io.
pub mod Posix
pub mod Native
pub mod Memory
pub mod Alarms
pub mod Slow
mod Tests
use det_log.Prelude.{
  ◌≡◌, refl, ℕ, zero, suc, ◌+◌, ◌≤◌, Bool, true, false, List, [], ◌∷◌, ◌++◌, arith, length, take,
  drop,
}
use det_log.Model.{Bytes}
use det_log.Wal.Types.{Result, done, error, WalError, WalErrorCode}

pub record NativeFile : Type 1 where
  pub File : Type 0
  pub created : File → Bool
  pub contents : File → Bytes
  pub size : File → Result ℕ × File
  pub read_exact : ℕ → ℕ → File → Result Bytes × File
  pub write_exact : ℕ → Bytes → File → Result (Unit {0}) × File
  pub flush : File → Result (Unit {0}) × File
  pub truncate : ℕ → File → Result (Unit {0}) × File
  pub sync_parent_directory : File → Result (Unit {0}) × File

-- What of the file survives a failure of the power: after a flush that returns, all of it.
pub record Syncs (N : NativeFile) : Type 0 where
  pub durable : N.File → Bytes
  pub flush-durable :
      (f after : N.File) → N.flush f ≡ (done tt, after) → durable after ≡ N.contents after

-- The file holds the front of what was to be appended.
abbrev pub Partly : Bytes → Bytes → Bytes → Type 0
Partly before bytes after = (k : ℕ) × (k ≤ length bytes) × (after ≡ before ++ take k bytes)

pub record IsLawful (N : NativeFile) : Type 0 where
  pub size-done :
      (f after : N.File) (n : ℕ) → N.size f ≡ (done n, after) → n ≡ length (N.contents f)
  pub size-io :
      (f after : N.File) (e : WalError) → N.size f ≡ (error e, after) → e.code ≡ WalErrorCode.io
  pub size-contents : (f : N.File) → N.contents (N.size f).1 ≡ N.contents f
  pub read-done :
      (offset size : ℕ) (f after : N.File) (bytes : Bytes)
      → offset + size ≤ length (N.contents f)
      → N.read_exact offset size f ≡ (done bytes, after)
      → bytes ≡ take size (drop offset (N.contents f))
  pub read-io :
      (offset size : ℕ) (f after : N.File) (e : WalError)
      → offset + size ≤ length (N.contents f)
      → N.read_exact offset size f ≡ (error e, after)
      → e.code ≡ WalErrorCode.io
  pub read-contents :
      (offset size : ℕ) (f : N.File)
      → offset + size ≤ length (N.contents f)
      → N.contents (N.read_exact offset size f).1 ≡ N.contents f
  pub write-done :
      (bytes : Bytes) (f after : N.File)
      → N.write_exact (length (N.contents f)) bytes f ≡ (done tt, after)
      → N.contents after ≡ N.contents f ++ bytes
  pub write-torn :
      (bytes : Bytes) (f after : N.File) (e : WalError)
      → N.write_exact (length (N.contents f)) bytes f ≡ (error e, after)
      → Partly (N.contents f) bytes (N.contents after)
  pub write-io :
      (bytes : Bytes) (f after : N.File) (e : WalError)
      → N.write_exact (length (N.contents f)) bytes f ≡ (error e, after)
      → e.code ≡ WalErrorCode.io
  pub flush-contents : (f : N.File) → N.contents (N.flush f).1 ≡ N.contents f
  pub flush-io :
      (f after : N.File) (e : WalError) → N.flush f ≡ (error e, after) → e.code ≡ WalErrorCode.io
  pub truncate-contents :
      (n : ℕ) (f after : N.File)
      → n ≤ length (N.contents f)
      → N.truncate n f ≡ (done tt, after)
      → N.contents after ≡ take n (N.contents f)
  pub truncate-io :
      (n : ℕ) (f after : N.File) (e : WalError)
      → N.truncate n f ≡ (error e, after)
      → e.code ≡ WalErrorCode.io
  pub sync-contents : (f : N.File) → N.contents (N.sync_parent_directory f).1 ≡ N.contents f
