-- ===== src/Wal/Tests.antt =====
-- A write-ahead log in memory that takes a vote and an entry, and one whose file is full in the middle
-- of the second frame.
mod Sources
mod Flushes
use det_log.Wal.Scan.Source.{scan_source}
use det_log.Prelude.{
  subst, ◌≡◌, ◌⊎◌, refl, ap, arith, All, ℕ, true, none, some, List, [], ◌∷◌, inc64, ◌++◌, false,
}
use det_log.Model.{Bytes, PersistBatch, batch_empty}
use det_log.Wal.Types.{
  Result, done, error, WalErrorCode, WalFlushPolicy, WalIdentity, WalOptions, empty_state,
  validate_options,
}
use det_log.Wal.Bytes.{raw, le, read_le, expect_literal, crc32c}
use det_log.Wal.Stage.Guards.{Logged, Grown}
use det_log.Wal.Stage.Logged.{stage-Logged}
use det_log.Wal.Log.Kept.Logged.{Consistent-Logged}
use det_log.Wal.Stage.{
  validate_state_summary, ValidationView, view_of, last_term_from, stage, stage_hard_state,
  stage_truncate, stage_entry, stage_entries, stage_commit,
}
use det_log.Wal.Payload.Decoded.{decode_batch_payload-encode_batch_payload}
use det_log.Wal.Payload.{
  flags, write_command, write_index, encode_batch_payload, write_entry, write_entries,
  decode_batch_payload, read_entries,
}
use det_log.Wal.Frame.{
  make_file_header, make_frame, validate_file_header, parse_frame_header, validate_complete_frame,
}
use det_log.Wal.Scan.{
  WalEncodedFrame, cut, encode_wal_frame, scan_round, scan_loop, scan_wal_bytes, replay_frame,
}
use det_log.Wal.Scan.Recovery.{start, scan_wal_bytes-encode_wal_frame}
use det_log.Wal.Scan.Sequence.{nothing}
use det_log.Wal.Scan.Rounds.{Scans, scan_loop-Scans}
use det_log.Wal.Stage.Accepted.{BatchWidths}
use det_log.Wal.Storage.Memory.{write_memory, memory_file, memory_file-IsLawful, read_memory}
use det_log.Wal.Log.{Log, opened, append_group, flush, open_log, WalAppendResult}
use det_log.Wal.Log.Kept.{Consistent}
use det_log.Wal.Log.Kept.Appended.{Outcome, append_group-Outcome}
use det_log.Wal.Log.Kept.Opened.{Survives, append_group-Survives}
use det_log.Wal.Log.Kept.Repaired.{Reopened}
use det_log.Wal.Log.Kept.Reopened.{Promised, append_group-Promised}
use det_log.Wal.Log.Kept.Created.{open_log-created}
use det_log.Wal.Log.Refused.{Refuses, append_group-fail_stop, Flushed, flush-Flushed}

abbrev identity : WalIdentity
identity = record { cluster_id_high = 1; cluster_id_low = 2; node_id = 3 }

abbrev options : WalOptions
options = record {
  flush_policy = WalFlushPolicy.flush_every_append;
  max_frame_bytes = 512;
  max_group_bytes = 1024;
  max_group_frames = 4;
  max_entries_per_frame = 8;
  max_key_bytes = 16;
  max_value_bytes = 16;
  max_log_entries = 64;
}

abbrev vote : PersistBatch
vote = record {
  hard_state = some (record { current_term = 1; voted_for = some 3 });
  truncate_from = none;
  entries = [];
  commit_index = none;
}

abbrev barrier : PersistBatch
barrier = record {
  hard_state = none;
  truncate_from = none;
  entries = record { index = 1; term = 1; command = none } ∷ [];
  commit_index = some 1;
}

abbrev batches : List PersistBatch
batches = vote ∷ barrier ∷ []

vote-BatchWidths : BatchWidths vote
vote-BatchWidths = record {
  hard = (omega arith, omega arith);
  truncate = tt;
  entries = tt;
  commit = tt;
}

barrier-BatchWidths : BatchWidths barrier
barrier-BatchWidths = record {
  hard = tt;
  truncate = tt;
  entries = ((omega arith, omega arith, tt), tt);
  commit = omega arith;
}

batches-BatchWidths : All BatchWidths batches
batches-BatchWidths = (vote-BatchWidths, (barrier-BatchWidths, tt))

-- The log that was opened, or one that refuses everything.
abbrev log_of :
    (capacity : ℕ) → Result (Log (memory_file capacity)) × Bytes → Log (memory_file capacity)
log_of capacity (done log, file) = log
log_of capacity (error e, file) =
    record (opened (memory_file capacity) identity options empty_state file) { failed = true }

abbrev empty_log : (capacity : ℕ) → Log (memory_file capacity)
empty_log capacity = log_of capacity (open_log (memory_file capacity) identity options [])

abbrev appended : (capacity : ℕ) → Result WalAppendResult × Log (memory_file capacity)
appended capacity = append_group (memory_file capacity) batches (empty_log capacity)

empty_log-Consistent : Consistent (memory_file 1000) (empty_log 1000) [] []
unfolding open_log validate_options make_file_header raw le write_memory
empty_log-Consistent =
    open_log-created (memory_file 1000) (memory_file-IsLawful 1000) identity options [] _
      (empty_log 1000) (omega arith, omega arith, omega arith) refl refl

short_log-Consistent : Consistent (memory_file 200) (empty_log 200) [] []
unfolding open_log validate_options make_file_header raw le write_memory
short_log-Consistent =
    open_log-created (memory_file 200) (memory_file-IsLawful 200) identity options [] _
      (empty_log 200) (omega arith, omega arith, omega arith) refl refl

append_group-Outcome_example :
    Outcome (memory_file 1000) (empty_log 1000) [] [] batches (appended 1000)
append_group-Outcome_example =
    append_group-Outcome (memory_file 1000) (memory_file-IsLawful 1000) (empty_log 1000) [] batches
      [] empty_log-Consistent batches-BatchWidths

append_group-Survives_example :
    Survives (empty_log 200).identity (empty_log 200).options [] batches (appended 200).1.file
append_group-Survives_example =
    append_group-Survives (memory_file 200) (memory_file-IsLawful 200) (empty_log 200)
      (appended 200).1 [] batches [] (appended 200).0 short_log-Consistent batches-BatchWidths refl

abbrev torn : Result WalAppendResult × Log (memory_file 200)
torn = appended 200

-- The second frame does not fit.
torn_error :
    torn.0 ≡ error (record { code = WalErrorCode.io; message = "no space left"; offset = none })
unfolding append_group open_log validate_options make_file_header raw le write_memory stage
    batch_empty stage_hard_state stage_truncate stage_entries stage_commit make_frame
    encode_batch_payload write_entries write_entry stage_entry
torn_error = refl

abbrev again : Result (Log (memory_file 200)) × Bytes
again = open_log (memory_file 200) (empty_log 200).identity (empty_log 200).options torn.1.file

again_opens : again ≡ (done (log_of 200 again), again.1)
unfolding append_group open_log validate_options make_file_header raw le write_memory stage
    batch_empty stage_hard_state stage_truncate stage_entries stage_commit make_frame
    encode_batch_payload write_entries write_entry stage_entry scan_source read_memory replay_frame
    validate_file_header expect_literal read_le crc32c parse_frame_header inc64
    validate_complete_frame decode_batch_payload read_entries
again_opens = refl

append_group-fail_stop_example :
    ((appended 200).1 ≡ empty_log 200)
    ⊎ (((appended 200).1.state ≡ (empty_log 200).state)
        × Refuses (memory_file 200) (appended 200).1)
append_group-fail_stop_example =
    append_group-fail_stop (memory_file 200) (memory_file-IsLawful 200) (empty_log 200)
      (appended 200).1 [] batches []
      (record { code = WalErrorCode.io; message = "no space left"; offset = none })
      short_log-Consistent batches-BatchWidths (ap (λ r. (r, torn.1)) torn_error)

append_group-Promised_example : Promised (memory_file 200) torn.0 (log_of 200 again) [] batches
append_group-Promised_example =
    append_group-Promised (memory_file 200) (memory_file-IsLawful 200) (empty_log 200) torn.1
      (log_of 200 again) [] batches [] torn.0 again.1 short_log-Consistent batches-BatchWidths refl
      again_opens

abbrev payload : Bytes
payload =
    4 ∷ 0 ∷ 0 ∷ 0 ∷ 1 ∷ 0 ∷ 0 ∷ 0 ∷ 1 ∷ 0 ∷ 0 ∷ 0 ∷ 0 ∷ 0 ∷ 0 ∷ 0 ∷ 1 ∷ 0 ∷ 0 ∷ 0 ∷ 0 ∷ 0 ∷ 0 ∷ 0
    ∷ 0 ∷ 1 ∷ 0 ∷ 0 ∷ 0 ∷ 0 ∷ 0 ∷ 0 ∷ 0 ∷ []

barrier-payload : encode_batch_payload barrier options ≡ done payload
unfolding encode_batch_payload raw le write_entry write_entries flags write_command write_index
barrier-payload = refl

decode_batch_payload-encode_batch_payload_example :
    decode_batch_payload payload options ≡ done barrier
decode_batch_payload-encode_batch_payload_example =
    decode_batch_payload-encode_batch_payload options barrier payload
      (record { entries = omega arith; key = omega arith; value = omega arith })
      (record {
        hard = tt;
        truncate = tt;
        entries = ((omega arith, omega arith, tt), tt);
        commit = omega arith;
        count = omega arith;
      })
      barrier-payload

scan_loop-Scans_example : Scans options 48 start payload (scan_loop 40 options 48 start payload)
scan_loop-Scans_example = scan_loop-Scans options 40 48 start payload (omega arith)

-- The log that is opened behind the torn write.
reopened : Promised (memory_file 200) torn.0 (log_of 200 again) [] batches
reopened =
    append_group-Promised (memory_file 200) (memory_file-IsLawful 200) (empty_log 200) torn.1
      (log_of 200 again) [] batches [] torn.0 again.1 short_log-Consistent batches-BatchWidths refl
      again_opens

abbrev holds : Reopened (memory_file 200) (log_of 200 again) [] batches
holds = subst (λ r. Promised (memory_file 200) r (log_of 200 again) [] batches) torn_error reopened

Consistent-Logged_example : Logged (log_of 200 again).options (view_of (log_of 200 again).state)
Consistent-Logged_example =
    Consistent-Logged (memory_file 200) (log_of 200 again) holds.kept holds.bytes holds.consistent

abbrev voted : ValidationView
voted = record {
  hard_state = record { current_term = 1; voted_for = some 3 };
  commit_index = 0;
  entries = [];
}

abbrev logged : ValidationView
logged = record voted {
  commit_index = 1;
  entries = record { index = 1; term = 1; command = none } ∷ [];
}

voted-Logged : Logged options voted
unfolding last_term_from
voted-Logged = record {
  ordered = tt;
  current = omega arith;
  committed = omega arith;
  bounded = omega arith;
}

barrier-staged : stage barrier options voted ≡ done logged
unfolding stage batch_empty stage_hard_state stage_truncate stage_entries stage_entry stage_commit
barrier-staged = refl

stage-Logged_example : Logged options logged × Grown voted logged
stage-Logged_example = stage-Logged options barrier voted logged voted-Logged barrier-staged

abbrev encoded_header : Bytes
encoded_header = elim (make_file_header identity) [ done bytes ↦ bytes | error e ↦ [] ]

abbrev encoded_vote : WalEncodedFrame
encoded_vote = elim (encode_wal_frame start vote options) [
  | done frame ↦ frame
  | error e ↦ record { bytes = []; state_after = start }
]

header_made : make_file_header identity ≡ done encoded_header
unfolding make_file_header raw le
header_made = refl

vote_encoded : encode_wal_frame start vote options ≡ done encoded_vote
unfolding encode_wal_frame validate_options validate_state_summary stage batch_empty
    stage_hard_state stage_truncate stage_entries stage_commit make_frame encode_batch_payload raw
    le write_entries
vote_encoded = refl

scan_wal_bytes-encode_wal_frame_example :
    scan_wal_bytes (encoded_header ++ ([] ++ encoded_vote.bytes)) identity options
    ≡ done (cut encoded_vote.state_after encoded_vote.state_after.file_bytes false)
scan_wal_bytes-encode_wal_frame_example =
    scan_wal_bytes-encode_wal_frame identity options [] vote encoded_header [] start encoded_vote
      (omega arith, omega arith, omega arith) vote-BatchWidths nothing header_made vote_encoded
