-- ===== src/Wal/Tests/Sources.antt =====
-- The constructor of Wal::Impl, the scan of a source and the recovery of src/wal.cpp at concrete files.
use det_log.Prelude.{◌≡◌, refl, [], ◌++◌, false, length}
use det_log.Wal.Scan.{scan_wal_bytes}
use det_log.Wal.Scan.Source.{scan_source, read_bytes}
use det_log.Wal.Scan.Source.Agrees.{Agrees, scan_source-Agrees, scan_source-read_bytes}
use det_log.Wal.Storage.Memory.{memory_file, memory_file-IsLawful}
use det_log.Wal.Storage.Alarms.{slow, device}
use det_log.Wal.Storage.Slow.{slow-IsDocumented}
use det_log.Wal.Storage.Native.{Descriptor, native_file, read_exact}
use det_log.Wal.Storage.Native.Lawful.{native_file-IsLawful}
use det_log.Wal.Log.{open_log}
use det_log.Wal.Log.Kept.Scanned.{IsIo, read_exact-ReadsWell}
use det_log.Wal.Log.Kept.Available.{OnlyIo, append_group-OnlyIo}
use det_log.Wal.Tests.{
  identity, options, batches, batches-BatchWidths, empty_log, appended, short_log-Consistent,
  encoded_header, encoded_vote,
}

abbrev written : Descriptor slow
written = record {
  path = "logs/node.wal";
  parent_path = "logs";
  created = false;
  system = device (encoded_header ++ encoded_vote.bytes) 2 [];
}

scan_source-Agrees_example :
    Agrees
      (native_file slow).contents
      IsIo
      written.system.held
      (scan_wal_bytes written.system.held identity options)
      (scan_source (read_exact slow) (length written.system.held) identity options written)
scan_source-Agrees_example =
    scan_source-Agrees (native_file slow).contents IsIo (read_exact slow)
      (read_exact-ReadsWell (native_file slow) (native_file-IsLawful slow slow-IsDocumented))
      identity options written

scan_source-read_bytes_example :
    (scan_source
      (read_bytes (encoded_header ++ encoded_vote.bytes))
      (length (encoded_header ++ encoded_vote.bytes))
      identity
      options
      tt).0
    ≡ scan_wal_bytes (encoded_header ++ encoded_vote.bytes) identity options
scan_source-read_bytes_example =
    scan_source-read_bytes (encoded_header ++ encoded_vote.bytes) identity options

append_group-OnlyIo_example : OnlyIo (
    open_log
      (memory_file 200)
      (empty_log 200).identity
      (empty_log 200).options
      (appended 200).1.file)
append_group-OnlyIo_example =
    append_group-OnlyIo (memory_file 200) (memory_file-IsLawful 200) (empty_log 200)
      (appended 200).1 [] batches [] (appended 200).0 short_log-Consistent batches-BatchWidths refl
