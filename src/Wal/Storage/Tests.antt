-- ===== src/Wal/Storage/Tests.antt =====
-- Runs of NativeFile of src/wal.cpp over the slow device.
use det_log.Prelude.{◌≡◌, refl, [], ◌∷◌, arith, add64, false}
use det_log.Wal.Types.{done, throw, WalErrorCode}
use det_log.Wal.Storage.{IsLawful}
use det_log.Wal.Storage.Alarms.{device, slow, pread_accepts, pread_device, pwrite_device}
use det_log.Wal.Storage.Slow.{slow-IsDocumented, slow_moves, slow_accepts}
use det_log.Wal.Storage.Native.{Descriptor, io_message, native_file, read_exact, write_exact}
use det_log.Wal.Storage.Native.Transfers.{write_exact-returns}
use det_log.Wal.Storage.Native.Reads.{Reads, read_exact-Reads, read_exact-returns}
use det_log.Wal.Storage.Native.Lawful.{native_file-IsLawful}

-- Five bytes, and three signals that are due.
abbrev sample : Descriptor slow
sample = record {
  path = "logs/node.wal";
  parent_path = "logs";
  created = false;
  system = device (10 ∷ 20 ∷ 30 ∷ 40 ∷ 50 ∷ []) 3 [];
}

message : io_message "write" "logs/node.wal" 28 ≡ "write 'logs/node.wal' failed (error 28)"
unfolding io_message
message = refl

read_past_end :
    (read_exact slow 3 4 sample).0 ≡ throw WalErrorCode.io "unexpected EOF while reading WAL"
unfolding read_exact pread_device add64
read_past_end = refl

written_after_signals :
    (write_exact slow 5 (60 ∷ 70 ∷ 80 ∷ []) sample).1.system.held
    ≡ 10 ∷ 20 ∷ 30 ∷ 40 ∷ 50 ∷ 60 ∷ 70 ∷ 80 ∷ []
unfolding write_exact pwrite_device add64
written_after_signals = refl

refused_behind_the_end :
    (write_exact slow 9 (60 ∷ []) sample).0
    ≡ throw WalErrorCode.io "write 'logs/node.wal' failed (error 22)"
unfolding write_exact pwrite_device add64
refused_behind_the_end = refl

native_file-IsLawful_example : IsLawful (native_file slow)
native_file-IsLawful_example = native_file-IsLawful slow slow-IsDocumented

read_exact-Reads_example :
    Reads slow slow-IsDocumented (10 ∷ 20 ∷ 30 ∷ 40 ∷ 50 ∷ []) 1 3 (read_exact slow 1 3 sample)
read_exact-Reads_example = read_exact-Reads slow slow-IsDocumented 1 3 sample (omega arith)

read_exact-returns_example : (read_exact slow 1 3 sample).0 ≡ done (20 ∷ 30 ∷ 40 ∷ [])
read_exact-returns_example =
    read_exact-returns slow slow-IsDocumented 1 3 sample
      (λ amount position s after code. pread_accepts amount position s.alarms s after code)
      (omega arith)

write_exact-returns_example :
    let r = write_exact slow 5 (60 ∷ 70 ∷ 80 ∷ []) sample in
    (r.0 ≡ done tt) × (r.1.system.held ≡ 10 ∷ 20 ∷ 30 ∷ 40 ∷ 50 ∷ 60 ∷ 70 ∷ 80 ∷ [])
write_exact-returns_example =
    write_exact-returns slow slow-IsDocumented (60 ∷ 70 ∷ 80 ∷ []) sample
      (λ part s after some_part room. slow_moves part s after some_part (omega (arith, room)))
      (λ part s after code some_part room. slow_accepts part s after code)
