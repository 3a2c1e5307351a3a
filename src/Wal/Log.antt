-- ===== src/Wal/Log.antt =====
-- src/wal.cpp: Wal::Impl, the log over a file. The mutex and the path are not modelled: an operation
-- is one step.
pub mod Staged
pub mod Kept
pub mod Refused
use Prim.Native.String.{◌++◌ as ◌<>◌}
use det_log.Prelude.{
  ℕ, zero, suc, ◌+◌, ◌-◌, min, Bool, true, false, ◌||◌, not, String, Option, none, some, List, [],
  ◌∷◌, ◌++◌, ltb, eqb, if◌then◌else◌, length, inc64, u64_max,
}
use det_log.Model.{Bytes, PersistBatch}
use det_log.Wal.Types.{
  Result, done, error, ◌>>=◌, throw, and_then, WalError, WalErrorCode, WalFlushPolicy, WalIdentity,
  WalOptions, WalState, empty_state, validate_options,
}
use det_log.Wal.Stage.{ValidationView, view_of, stage, materialize}
use det_log.Wal.Frame.{make_file_header, make_frame}
use det_log.Wal.Scan.{WalScanResult}
use det_log.Wal.Scan.Source.{scan_source}
use det_log.Wal.Storage.{NativeFile}

pub record WalAppendResult : Type 0 where
  pub first_frame_sequence : ℕ
  pub last_frame_sequence : ℕ
  pub durable : Bool
  pub bytes_written : ℕ

-- The locals of the loop over the batches.
pub record Group : Type 0 where
  pub view : ValidationView
  pub frames : List Bytes
  pub group_bytes : ℕ
  pub sequence : ℕ

-- The group with one frame more.
abbrev pub push_back : ValidationView → Bytes → Group → Group
push_back view frame g = record {
  view = view;
  frames = g.frames ++ frame ∷ [];
  group_bytes = g.group_bytes + length frame;
  sequence = inc64 g.sequence;
}

unfoldable pub push_frame : WalOptions → ValidationView → Group → Bytes → Result Group
push_frame options view g frame =
    if ltb (options.max_group_bytes - min options.max_group_bytes g.group_bytes) (length frame)
    then throw WalErrorCode.bounds_exceeded "WAL group exceeds configured byte bound"
    else done (push_back view frame g)

unfoldable pub stage_frame : WalOptions → PersistBatch → Group → Result Group
unfolding push_frame
stage_frame options batch g = stage batch options g.view >>= λ view.
    make_frame (inc64 g.sequence) batch options >>= push_frame options view g

unfoldable pub stage_frames : WalOptions → List PersistBatch → Group → Result Group
unfolding stage_frame
stage_frames options [] g = done g
stage_frames options (batch ∷ rest) g = stage_frame options batch g >>= stage_frames options rest

-- What `append_group` checks before it writes.
unfoldable pub admit_group : WalOptions → WalState → List PersistBatch → Result Group
unfolding stage_frames
admit_group options state [] =
    throw WalErrorCode.invariant_violation "cannot append an empty WAL group"
admit_group options state (batch ∷ rest) =
    if ltb options.max_group_frames (length (batch ∷ rest))
    then throw WalErrorCode.bounds_exceeded "WAL group has too many frames"
    else if ltb (u64_max - state.last_frame_sequence) (length (batch ∷ rest))
    then throw WalErrorCode.bounds_exceeded "WAL frame sequence is exhausted"
    else (stage_frames options (batch ∷ rest) (record {
      view = view_of state;
      frames = [];
      group_bytes = 0;
      sequence = state.last_frame_sequence;
    })
        >>= λ g.
            if ltb (u64_max - state.file_bytes) g.group_bytes
            then throw WalErrorCode.bounds_exceeded "WAL file length would overflow"
            else done g)

abbrev pub flushes : WalFlushPolicy → Bool
flushes WalFlushPolicy.flush_every_append = true
flushes WalFlushPolicy.unsafe_no_flush = false

abbrev pub is_io : WalErrorCode → Bool
is_io WalErrorCode.io = true
is_io _ = false

module _ (N : NativeFile) where
  pub record Log : Type 0 where
    pub identity : WalIdentity
    pub options : WalOptions
    pub file : N.File
    pub state : WalState
    pub failed : Bool
    pub failure_reason : String

  unfoldable pub ensure_live : Log → Result (Unit {0})
  ensure_live log =
      if log.failed
      then throw WalErrorCode.failed ("WAL is fail-stop: " <> log.failure_reason)
      else done tt

  -- The loop of the writes returns `write_offset`.
  unfoldable pub write_frames : ℕ → List Bytes → N.File → Result ℕ × N.File
  write_frames write_offset [] file = (done write_offset, file)
  write_frames write_offset (frame ∷ rest) file =
      and_then (N.write_exact write_offset frame file)
        (λ _ file. write_frames (write_offset + length frame) rest file)

  unfoldable pub write_group : WalOptions → ℕ → List Bytes → N.File → Result ℕ × N.File
  unfolding write_frames
  write_group options write_offset frames file =
      and_then (write_frames write_offset frames file) (λ write_offset file.
        if flushes options.flush_policy
        then and_then (N.flush file) (λ _ file. (done write_offset, file))
        else (done write_offset, file))

  -- A failure of the file stops the log.
  unfoldable pub fail : {A : Type 0} → WalError → N.File → Log → Result A × Log
  fail e file log =
      if is_io e.code
      then (
        throw WalErrorCode.io e.message,
        record log { file = file; failed = true; failure_reason = e.message },
      )
      else (error e, record log { file = file })

  unfoldable pub finish_group : Group → Result ℕ × N.File → Log → Result WalAppendResult × Log
  unfolding fail
  finish_group g (error e, file) log = fail e file log
  finish_group g (done write_offset, file) log =
      let should_flush = flushes log.options.flush_policy in
      (
        done (record {
          first_frame_sequence = log.state.last_frame_sequence + 1;
          last_frame_sequence = g.sequence;
          durable = should_flush;
          bytes_written = g.group_bytes;
        }),
        record log {
          file = file;
          state = record (materialize g.view log.state) {
            last_frame_sequence = g.sequence;
            file_bytes = write_offset;
            durable_frame_sequence =
                if should_flush then g.sequence else log.state.durable_frame_sequence;
          };
        },
      )

  unfoldable pub append_admitted : Result Group → Log → Result WalAppendResult × Log
  unfolding write_group finish_group
  append_admitted (error e) log = (error e, log)
  append_admitted (done g) log =
      finish_group g (write_group log.options log.state.file_bytes g.frames log.file) log

  unfoldable pub append_group : List PersistBatch → Log → Result WalAppendResult × Log
  unfolding ensure_live admit_group append_admitted
  append_group batches log =
      append_admitted (ensure_live log >>= λ _. admit_group log.options log.state batches) log

  unfoldable pub append : PersistBatch → Log → Result WalAppendResult × Log
  unfolding append_group
  append batch log = append_group (batch ∷ []) log

  unfoldable pub finish_flush : Result (Unit {0}) × N.File → Log → Result (Unit {0}) × Log
  unfolding fail
  finish_flush (error e, file) log = fail e file log
  finish_flush (done _, file) log = (
    done tt,
    record log {
      file = file;
      state = record log.state { durable_frame_sequence = log.state.last_frame_sequence };
    },
  )

  unfoldable pub flush_live : Log → Result (Unit {0}) × Log
  unfolding finish_flush
  flush_live log =
      if eqb log.state.durable_frame_sequence log.state.last_frame_sequence
      then (done tt, log)
      else finish_flush (N.flush log.file) log

  unfoldable pub flush : Log → Result (Unit {0}) × Log
  unfolding ensure_live flush_live
  flush log = elim (ensure_live log) [ error e ↦ (error e, log) | done _ ↦ flush_live log ]

  abbrev pub opened : WalIdentity → WalOptions → WalState → N.File → Log
  opened identity options state file = record {
    identity = identity;
    options = options;
    file = file;
    state = state;
    failed = false;
    failure_reason = "";
  }

  -- The constructor on an empty file.
  unfoldable pub create : WalIdentity → WalOptions → Bytes → N.File → Result Log × N.File
  create identity options header file = and_then (N.write_exact 0 header file) (λ _ file.
      and_then (N.flush file) (λ _ file.
        and_then (if N.created file then N.sync_parent_directory file else (done tt, file))
          (λ _ file. (
            done (opened identity options (record empty_state { file_bytes = length header }) file),
            file,
          ))))

  -- The constructor behind the scan.
  unfoldable pub repair : WalIdentity → WalOptions → WalScanResult → N.File → Result Log × N.File
  repair identity options recovered file =
      if recovered.has_incomplete_tail
      then and_then (N.truncate recovered.valid_bytes file) (λ _ file.
        and_then (N.flush file) (λ _ file. (
          done (
              opened identity options
                (record recovered.state {
                  file_bytes = recovered.valid_bytes;
                  repaired_incomplete_tail = true;
                })
                file),
          file,
        )))
      else (done (opened identity options recovered.state file), file)

  unfoldable pub open_log : WalIdentity → WalOptions → N.File → Result Log × N.File
  unfolding create repair
  open_log identity options file =
      and_then {F = N.File} (validate_options options, file)
        (λ _ file. and_then (N.size file) (λ byte_count file.
          if eqb byte_count 0
          then and_then {F = N.File} (make_file_header identity, file)
              (λ header file. create identity options header file)
          else and_then (scan_source N.read_exact byte_count identity options file)
              (λ recovered file. repair identity options recovered file)))
