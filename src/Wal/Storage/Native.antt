-- ===== src/Wal/Storage/Native.antt =====
-- src/wal.cpp: NativeFile on a POSIX system, over the calls of the operating system. The branches of
-- Windows are not modelled, nor is the destructor, which closes the file.
pub mod Transfers
pub mod Reads
pub mod Lawful
use Prim.Native.String
use Prim.Native.String.{◌++◌ as ◌<>◌, slice}
use det_log.Prelude.{
  ℕ, zero, suc, ◌+◌, ◌-◌, ◌/◌, ◌%◌, ◌^◌, min, Bool, true, false, not, String, Option, none, some,
  List, [], ◌∷◌, ◌++◌, ltb, leb, eqb, if◌then◌else◌, length, take, drop, add64,
}
use det_log.Model.{Bytes}
use det_log.Wal.Types.{Result, done, error, throw, WalError, WalErrorCode}
use det_log.Wal.Storage.{NativeFile}
use det_log.Wal.Storage.Posix.{
  Posix, off_max, Transfer, moved, interrupted, refused, FileSize, sized, negative, unknown,
}

-- The digits of a number, as a stream writes them; there are at most as many as its value and one.
unfoldable pub decimal : ℕ → ℕ → String
decimal zero n = ""
decimal (suc fuel) n =
    let front = decimal fuel (n / 10) in
    if ltb n 10
    then slice "0123456789" n (n + 1)
    else front <> slice "0123456789" (n % 10) (n % 10 + 1)

unfoldable pub io_message : String → String → ℕ → String
unfolding decimal
io_message operation path native_error =
    operation
    <> " '"
    <> path
    <> "' failed (error "
    <> decimal (suc native_error) native_error
    <> ")"

-- The parent of a path with no directory is the current one.
abbrev pub parent_or_here : String → String
parent_or_here String.[] = "."
parent_or_here (String.◌∷◌ c rest) = String.◌∷◌ c rest

module _ (P : Posix) where
  pub record Descriptor : Type 0 where
    pub path : String
    pub parent_path : String
    pub created : Bool
    pub system : P.State

  unfoldable pub throw_io : {A : Type 0} → String → String → ℕ → Descriptor → Result A × Descriptor
  unfolding io_message
  throw_io operation path native_error d =
      (throw WalErrorCode.io (io_message operation path native_error), d)

  abbrev pub after_call : Descriptor → P.State → Descriptor
  after_call d system = record d { system = system }

  abbrev pub descriptor : String → String → Bool → P.State → Descriptor
  descriptor path parent_path created system = record {
    path = path;
    parent_path = parent_path;
    created = created;
    system = system;
  }

  abbrev pub open_again : String → String → Option ℕ × P.State → Result Descriptor × P.State
  open_again path parent_path (none, system) =
      (done (descriptor path parent_path false system), system)
  open_again path parent_path (some code, system) =
      (throw WalErrorCode.io (io_message "open" path code), system)

  -- What the constructor does behind the first `open`.
  abbrev pub open_behind : String → String → Option ℕ × P.State → Result Descriptor × P.State
  open_behind path parent_path (none, system) =
      (done (descriptor path parent_path true system), system)
  open_behind path parent_path (some code, system) =
      if eqb code P.exists
      then open_again path parent_path (P.open_existing system)
      else (throw WalErrorCode.io (io_message "open" path code), system)

  -- The constructor; `parent_path` is that of std::filesystem.
  unfoldable pub open_file : String → String → P.State → Result Descriptor × P.State
  unfolding io_message
  open_file path parent_path system = open_behind path parent_path (P.open_exclusive system)

  abbrev pub size_of : Descriptor → FileSize × P.State → Result ℕ × Descriptor
  size_of d (sized n, system) = (done n, after_call d system)
  size_of d (negative, system) =
      (throw WalErrorCode.io (io_message "size" d.path (P.errno system)), after_call d system)
  size_of d (unknown code, system) =
      (throw WalErrorCode.io (io_message "size" d.path code), after_call d system)

  unfoldable pub file_size : Descriptor → Result ℕ × Descriptor
  unfolding io_message
  file_size d = size_of d (P.fstat d.system)

  -- What a round of write_exact does with the result of the call; `next` is the rest of the loop
  -- from a value of `done`.
  unfoldable pub write_result :
      (ℕ → Descriptor → Result (Unit {0}) × Descriptor)
      → ℕ
      → Descriptor
      → Transfer ℕ × P.State
      → Result (Unit {0}) × Descriptor
  unfolding throw_io
  write_result next done_bytes d (moved zero, system) =
      (throw WalErrorCode.io "zero-length WAL write", after_call d system)
  write_result next done_bytes d (moved (suc n), system) =
      next (done_bytes + suc n) (after_call d system)
  write_result next done_bytes d (interrupted, system) = next done_bytes (after_call d system)
  write_result next done_bytes d (refused code, system) =
      throw_io "write" d.path code (after_call d system)

  -- The loop of write_exact from a value of `done`. A round moves a byte or takes a signal.
  unfoldable pub write_rounds : ℕ → ℕ → Bytes → ℕ → Descriptor → Result (Unit {0}) × Descriptor
  unfolding write_result
  write_rounds zero offset source done_bytes d =
      (throw WalErrorCode.failed "WAL write ran out of rounds", d)
  write_rounds (suc rounds) offset source done_bytes d =
      if not (ltb done_bytes (length source))
      then (done tt, d)
      else if ltb off_max (add64 offset done_bytes)
      then (throw WalErrorCode.io "WAL write offset is too large", d)
      else write_result (λ n d. write_rounds rounds offset source n d) done_bytes d
          (P.pwrite (take (min (length source - done_bytes) off_max) (drop done_bytes source))
            (add64 offset done_bytes) d.system)

  unfoldable pub write_exact : ℕ → Bytes → Descriptor → Result (Unit {0}) × Descriptor
  unfolding write_rounds
  write_exact offset source d =
      write_rounds (suc (length source + P.signals d.system)) offset source 0 d

  -- The loop of read_exact: the destination holds `filled`, and `left` bytes are wanted.
  unfoldable pub read_result :
      (Bytes → Descriptor → Result Bytes × Descriptor)
      → Bytes
      → Descriptor
      → Transfer Bytes × P.State
      → Result Bytes × Descriptor
  unfolding throw_io
  read_result next filled d (moved [], system) =
      (throw WalErrorCode.io "unexpected EOF while reading WAL", after_call d system)
  read_result next filled d (moved (byte ∷ bytes), system) =
      next (filled ++ byte ∷ bytes) (after_call d system)
  read_result next filled d (interrupted, system) = next filled (after_call d system)
  read_result next filled d (refused code, system) =
      throw_io "read" d.path code (after_call d system)

  unfoldable pub read_rounds : ℕ → ℕ → ℕ → Bytes → Descriptor → Result Bytes × Descriptor
  unfolding read_result
  read_rounds zero offset size filled d =
      (throw WalErrorCode.failed "WAL read ran out of rounds", d)
  read_rounds (suc rounds) offset size filled d =
      if not (ltb (length filled) size)
      then (done filled, d)
      else if ltb off_max (add64 offset (length filled))
      then (throw WalErrorCode.io "WAL read offset is too large", d)
      else read_result (λ filled d. read_rounds rounds offset size filled d) filled d
          (P.pread (min (size - length filled) off_max) (add64 offset (length filled)) d.system)

  unfoldable pub read_exact : ℕ → ℕ → Descriptor → Result Bytes × Descriptor
  unfolding read_rounds
  read_exact offset size d = read_rounds (suc (size + P.signals d.system)) offset size [] d

  -- A call that sets errno, or returns.
  abbrev pub checked :
      String → String → Descriptor → Option ℕ × P.State → Result (Unit {0}) × Descriptor
  checked operation path d (none, system) = (done tt, after_call d system)
  checked operation path d (some code, system) =
      (throw WalErrorCode.io (io_message operation path code), after_call d system)

  unfoldable pub flush_file : Descriptor → Result (Unit {0}) × Descriptor
  unfolding io_message
  flush_file d = checked "flush" d.path d (P.fsync d.system)

  unfoldable pub truncate_file : ℕ → Descriptor → Result (Unit {0}) × Descriptor
  unfolding io_message throw_io
  truncate_file size d =
      if ltb off_max size
      then throw_io "truncate" d.path (P.errno d.system) d
      else checked "truncate" d.path d (P.ftruncate size d.system)

  abbrev pub parent : Descriptor → String
  parent d = parent_or_here d.parent_path

  -- The directory has been opened, and is flushed; that it is closed is not modelled.
  abbrev pub sync_opened : Result (Unit {0}) × Descriptor → Result (Unit {0}) × Descriptor
  sync_opened (error e, d) = (error e, d)
  sync_opened (done _, d) = checked "flush directory" (parent d) d (P.fsync_directory d.system)

  unfoldable pub sync_parent : Descriptor → Result (Unit {0}) × Descriptor
  unfolding io_message
  sync_parent d = sync_opened (checked "open directory" (parent d) d (P.open_directory d.system))

  abbrev pub native_file : NativeFile
  native_file = record {
    File = Descriptor;
    created = λ d. d.created;
    contents = λ d. P.contents d.system;
    size = file_size;
    read_exact = read_exact;
    write_exact = write_exact;
    flush = flush_file;
    truncate = truncate_file;
    sync_parent_directory = sync_parent;
  }
