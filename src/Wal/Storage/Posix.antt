-- ===== src/Wal/Storage/Posix.antt =====
-- The calls of the operating system that NativeFile of src/wal.cpp makes on its open file, over an
-- unknown state, and what their documentation says. A call returns, or it sets errno; a transfer may
-- move fewer bytes than were asked for, or be interrupted by a signal.
use det_log.Prelude.{◌≡◌, ℕ, ◌<◌, ◌≤◌, ◌^◌, ◌-◌, Option, none, [], ◌++◌, length, take, drop, some}
use det_log.Model.{Bytes}

pub data Transfer (A : Type 0) : Type 0 where
  moved : A → Transfer A
  interrupted : Transfer A
  refused : ℕ → Transfer A

-- What fstat says of st_size, or its errno.
pub data FileSize : Type 0 where
  sized : ℕ → FileSize
  negative : FileSize
  unknown : ℕ → FileSize

pub record Posix : Type 1 where
  pub State : Type 0
  pub contents : State → Bytes
  -- the signals that will still interrupt a transfer
  pub signals : State → ℕ
  -- the errno that the last failed call has left
  pub errno : State → ℕ
  -- EEXIST
  pub exists : ℕ
  -- open with O_CREAT | O_EXCL, and without
  pub open_exclusive : State → Option ℕ × State
  pub open_existing : State → Option ℕ × State
  pub fstat : State → FileSize × State
  pub pwrite : Bytes → ℕ → State → Transfer ℕ × State
  pub pread : ℕ → ℕ → State → Transfer Bytes × State
  pub fsync : State → Option ℕ × State
  pub ftruncate : ℕ → State → Option ℕ × State
  pub open_directory : State → Option ℕ × State
  pub fsync_directory : State → Option ℕ × State

-- std::numeric_limits<off_t>::max(), also that of ssize_t
abbrev pub off_max : ℕ
off_max = 2 ^ 63 - 1

-- fsync returns when the bytes of the file are on the medium.
pub record Fsyncs (P : Posix) : Type 0 where
  pub durable : P.State → Bytes
  pub fsync-durable :
      (s after : P.State) → P.fsync s ≡ (none, after) → durable after ≡ P.contents after

pub record IsDocumented (P : Posix) : Type 0 where
  -- a file is no longer than an off_t
  pub contents-limit : (s : P.State) → length (P.contents s) ≤ off_max
  pub open_exclusive-done :
      (s after : P.State) → P.open_exclusive s ≡ (none, after) → P.contents after ≡ []
  pub open_exclusive-exists :
      (s after : P.State) (code : ℕ)
      → P.open_exclusive s ≡ (some code, after)
      → P.contents after ≡ P.contents s
  pub open_existing-contents : (s : P.State) → P.contents (P.open_existing s).1 ≡ P.contents s
  pub fstat-sized :
      (s after : P.State) (n : ℕ) → P.fstat s ≡ (sized n, after) → n ≡ length (P.contents s)
  pub fstat-contents : (s : P.State) → P.contents (P.fstat s).1 ≡ P.contents s
  pub pwrite-moved :
      (source : Bytes) (s after : P.State) (n : ℕ)
      → P.pwrite source (length (P.contents s)) s ≡ (moved n, after)
      → (n ≤ length source)
        × (P.contents after ≡ P.contents s ++ take n source)
        × (P.signals after ≤ P.signals s)
  pub pwrite-interrupted :
      (source : Bytes) (s after : P.State)
      → P.pwrite source (length (P.contents s)) s ≡ (interrupted, after)
      → (P.contents after ≡ P.contents s) × (P.signals after < P.signals s)
  pub pwrite-refused :
      (source : Bytes) (s after : P.State) (code : ℕ)
      → P.pwrite source (length (P.contents s)) s ≡ (refused code, after)
      → P.contents after ≡ P.contents s
  pub pread-moved :
      (amount position : ℕ) (bytes : Bytes) (s after : P.State)
      → P.pread amount position s ≡ (moved bytes, after)
      → (bytes ≡ take (length bytes) (drop position (P.contents s)))
        × (length bytes ≤ amount)
        × (P.contents after ≡ P.contents s)
        × (P.signals after ≤ P.signals s)
  pub pread-interrupted :
      (amount position : ℕ) (s after : P.State)
      → P.pread amount position s ≡ (interrupted, after)
      → (P.contents after ≡ P.contents s) × (P.signals after < P.signals s)
  pub pread-refused :
      (amount position : ℕ) (s after : P.State) (code : ℕ)
      → P.pread amount position s ≡ (refused code, after)
      → P.contents after ≡ P.contents s
  -- a read of no bytes is the end of the file
  pub pread-end :
      (amount position : ℕ) (s after : P.State)
      → 0 < amount
      → P.pread amount position s ≡ (moved [], after)
      → length (P.contents s) ≤ position
  pub fsync-contents : (s : P.State) → P.contents (P.fsync s).1 ≡ P.contents s
  pub ftruncate-done :
      (n : ℕ) (s after : P.State)
      → n ≤ length (P.contents s)
      → P.ftruncate n s ≡ (none, after)
      → P.contents after ≡ take n (P.contents s)
  pub open_directory-contents : (s : P.State) → P.contents (P.open_directory s).1 ≡ P.contents s
  pub fsync_directory-contents : (s : P.State) → P.contents (P.fsync_directory s).1 ≡ P.contents s
