-- ===== src/Wal/Tests/Flushes.antt =====
-- A log of src/wal.cpp that writes without a flush and is then flushed, over the slow device.
use det_log.Wal.Scan.{replay_frame}
use det_log.Wal.Scan.Source.{scan_source}
use det_log.Wal.Payload.{
  encode_batch_payload, write_entry, write_entries, decode_batch_payload, read_entries, read_entry,
}
use det_log.Wal.Stage.{
  stage, stage_hard_state, stage_truncate, stage_entry, stage_entries, stage_commit, materialize,
}
use det_log.Wal.Bytes.{raw, le, expect_literal, read_le, crc32c}
use det_log.Wal.Frame.{
  make_file_header, make_frame, validate_file_header, parse_frame_header, validate_complete_frame,
}
use det_log.Prelude.{◌≡◌, false, refl, subst, arith, [], length, add64, inc64}
use det_log.Model.{Bytes, batch_empty}
use det_log.Wal.Types.{
  Result, done, error, WalFlushPolicy, WalOptions, empty_state, validate_options,
}
use det_log.Wal.Storage.{NativeFile, Syncs, IsLawful}
use det_log.Wal.Storage.Alarms.{slow, device, pwrite_device, pread_device}
use det_log.Wal.Storage.Slow.{slow-IsDocumented, slow-Fsyncs}
use det_log.Wal.Storage.Native.{
  Descriptor, native_file, file_size, write_exact, flush_file, read_exact,
}
use det_log.Wal.Storage.Native.Lawful.{native_file-IsLawful, native_file-Syncs}
use det_log.Wal.Log.{Log, WalAppendResult, opened, open_log, append_group, flush}
use det_log.Wal.Log.Kept.{Consistent}
use det_log.Wal.Log.Kept.Created.{open_log-created}
use det_log.Wal.Log.Kept.Appended.{Outcome, append_group-Outcome}
use det_log.Wal.Log.Kept.Reported.{Reported, append_group-Reported}
use det_log.Wal.Log.Refused.{Flushed, flush-Flushed}
use det_log.Wal.Tests.{identity, options, batches, batches-BatchWidths}

abbrev disk : NativeFile
disk = native_file slow

disk-IsLawful : IsLawful disk
disk-IsLawful = native_file-IsLawful slow slow-IsDocumented

abbrev disk-Syncs : Syncs disk
disk-Syncs = native_file-Syncs slow slow-IsDocumented slow-Fsyncs

abbrev lazy_options : WalOptions
lazy_options = record options { flush_policy = WalFlushPolicy.unsafe_no_flush }

abbrev blank : Descriptor slow
blank = record {
  path = "logs/node.wal";
  parent_path = "logs";
  created = false;
  system = device [] 1 [];
}

abbrev log_or_blank : Result (Log disk) × Descriptor slow → Log disk
log_or_blank (done log, file) = log
log_or_blank (error e, file) = opened disk identity lazy_options empty_state file

abbrev new_log : Log disk
new_log = log_or_blank (open_log disk identity lazy_options blank)

new_log-opens : open_log disk identity lazy_options blank ≡ (done new_log, new_log.file)
unfolding open_log validate_options make_file_header raw le file_size write_exact pwrite_device
    add64 flush_file
new_log-opens = refl

abbrev filled : Result WalAppendResult × Log disk
filled = append_group disk batches new_log

new_log-Consistent : Consistent disk new_log [] []
new_log-Consistent =
    open_log-created disk disk-IsLawful identity lazy_options blank new_log.file new_log
      (omega arith, omega arith, omega arith) refl new_log-opens

new_log-Reported : Reported disk disk-Syncs new_log
unfolding open_log validate_options make_file_header raw le file_size write_exact pwrite_device
    add64 flush_file native_file-Syncs
new_log-Reported = record { behind = omega arith; level = λ same. refl }

abbrev result_of : Result WalAppendResult × Log disk → WalAppendResult
result_of (done result, log) = result
result_of (error e, log) = record {
  first_frame_sequence = 0;
  last_frame_sequence = 0;
  durable = false;
  bytes_written = 0;
}

filled-appends : filled ≡ (done (result_of filled), filled.1)
unfolding append_group open_log validate_options make_file_header raw le file_size write_exact
    pwrite_device add64 flush_file stage batch_empty stage_hard_state stage_truncate stage_entries
    stage_commit make_frame encode_batch_payload write_entries write_entry stage_entry
filled-appends = refl

filled-Outcome : Outcome disk new_log [] [] batches (done (result_of filled), filled.1)
filled-Outcome = subst (Outcome disk new_log [] [] batches) filled-appends (
    append_group-Outcome disk disk-IsLawful new_log [] batches [] new_log-Consistent
      batches-BatchWidths)

filled-Consistent : (more : Bytes) × Consistent disk filled.1 batches more
filled-Consistent = let (more, _, _, c, _, _, _, _) = filled-Outcome in (more, c)

filled-Reported : Reported disk disk-Syncs filled.1
filled-Reported =
    append_group-Reported disk disk-IsLawful disk-Syncs new_log filled.1 [] batches []
      (result_of filled) new_log-Consistent new_log-Reported batches-BatchWidths (omega arith)
      filled-appends

flush-Flushed_example :
    Flushed disk disk-Syncs filled.1 batches filled-Consistent.0 (flush disk filled.1)
flush-Flushed_example =
    flush-Flushed disk disk-IsLawful disk-Syncs filled.1 batches filled-Consistent.0
      filled-Consistent.1 filled-Reported

-- Before the flush only the file's header is on the medium; the flush succeeds.
synced_by_flush : (length filled.1.file.system.synced ≡ 48) × ((flush disk filled.1).0 ≡ done tt)
unfolding append_group open_log validate_options make_file_header raw le file_size write_exact
    pwrite_device add64 flush_file stage batch_empty stage_hard_state stage_truncate stage_entries
    stage_commit make_frame encode_batch_payload write_entries write_entry stage_entry flush inc64
synced_by_flush = (refl, refl)

abbrev scanned : Log disk
scanned = log_or_blank (open_log disk identity lazy_options filled.1.file)

-- A log that is opened on the same file reports its frames as durable, so that its flush does not reach
-- the file.
not_synced_by_flush :
    (scanned.state.durable_frame_sequence ≡ 2)
    × (let flushed = flush disk scanned in
        (flushed.0 ≡ done tt) × (length flushed.1.file.system.synced ≡ 48))
unfolding append_group open_log validate_options make_file_header raw le file_size write_exact
    pwrite_device add64 flush_file stage batch_empty stage_hard_state stage_truncate stage_entries
    stage_commit make_frame encode_batch_payload write_entries write_entry stage_entry flush
    scan_source read_exact pread_device replay_frame validate_file_header expect_literal read_le
    crc32c parse_frame_header inc64 validate_complete_frame decode_batch_payload read_entries
    read_entry materialize
not_synced_by_flush = (refl, (refl, refl))
