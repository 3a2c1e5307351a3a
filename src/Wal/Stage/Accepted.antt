-- ===== src/Wal/Stage/Accepted.antt =====
-- What `stage` of src/wal.cpp has checked of a batch that it accepts.
use det_log.Prelude.{
  ◌≡◌, inl, inr, ◌<◌, ◌≤◌, ◌^◌, true, Option, none, some, List, [], ◌∷◌, All, arith, Bool-cases,
  ltb, length,
}
use det_log.Model.{ClientCommand, LogEntry, PersistBatch, batch_empty}
use det_log.Wal.Types.{done, bind-done, WalOptions, validate_options}
use det_log.Wal.Stage.{
  ValidationView, stage_hard_state, stage_truncate, fields_bounded, stage_entry, stage_entries,
  stage_commit, stage,
}
use det_log.Wal.Payload.Fields.{
  Fits, HardFits, IndexFits, CommandFits, EntryFits, BatchFits, NarrowOptions,
}

-- The numbers of a command are of their C++ types.
abbrev pub CommandWidths : Option ClientCommand → Type 0
CommandWidths none = Unit {0}
CommandWidths (some c) = Fits 8 c.session.high × Fits 8 c.session.low × Fits 8 c.sequence

abbrev pub EntryWidths : LogEntry → Type 0
EntryWidths e = Fits 8 e.index × Fits 8 e.term × CommandWidths e.command

-- The numbers of a batch are of their C++ types.
pub record BatchWidths (b : PersistBatch) : Type 0 where
  pub hard : HardFits b.hard_state
  pub truncate : IndexFits b.truncate_from
  pub entries : All EntryWidths b.entries
  pub commit : IndexFits b.commit_index

-- The steps of a batch that `stage` accepts.
pub record Staged (b : PersistBatch) (options : WalOptions) (before after : ValidationView)
    : Type 0 where
  pub count : length b.entries ≤ options.max_entries_per_frame
  pub hard_view : ValidationView
  pub cut_view : ValidationView
  pub long_view : ValidationView
  pub hard : stage_hard_state b.hard_state before ≡ done hard_view
  pub truncated : stage_truncate b.truncate_from hard_view ≡ done cut_view
  pub appended : stage_entries options b.entries cut_view ≡ done long_view
  pub committed : stage_commit b.commit_index long_view ≡ done after

pub stage-Staged :
    (b : PersistBatch) (options : WalOptions) (before after : ValidationView)
    → stage b options before ≡ done after
    → Staged b options before after
unfolding stage
stage-Staged b options before after e = elim (Bool-cases (batch_empty b)) [
  | inl empty ↦ let bad = rw (empty, stage) at e in absurd (cc (bad))
  | inr full ↦ elim (Bool-cases (ltb options.max_entries_per_frame (length b.entries))) [
    | inl many ↦ let bad = rw (full, many, stage) at e in absurd (cc (bad))
    | inr few ↦
        let e' = rw (full, few, stage) at e in
        let (long, ran3, last) = bind-done _ (stage_commit b.commit_index) e' in
        let (cut, ran2, third) = bind-done _ (stage_entries options b.entries) ran3 in
        let (hard, first, second) = bind-done _ (stage_truncate b.truncate_from) ran2 in
        record {
          count = ground (arith, few);
          hard_view = hard;
          cut_view = cut;
          long_view = long;
          hard = first;
          truncated = second;
          appended = third;
          committed = last;
        }
  ]
]

entry-EntryFits :
    (options : WalOptions) (e : LogEntry)
    → EntryWidths e
    → fields_bounded options e.command ≡ true
    → EntryFits options e
unfolding fields_bounded
entry-EntryFits options e w b = (w.0, w.1, command e.command w.2 b)
  where
    command :
        (c : Option ClientCommand)
        → CommandWidths c
        → fields_bounded options c ≡ true
        → CommandFits options c
    command none w b = tt
    command (some c) w b =
        let (key, value) : (length c.key ≤ options.max_key_bytes)
            × (length c.value ≤ options.max_value_bytes) =
          ground (arith, b) in
        (w.0, w.1, w.2, key, value)

stage_entry-bounded :
    (options : WalOptions) (e : LogEntry) (before after : ValidationView)
    → stage_entry options e before ≡ done after
    → fields_bounded options e.command ≡ true
unfolding stage_entry
stage_entry-bounded options e before after h = ground (arith, h)

stage_entries-EntryFits :
    (options : WalOptions) (entries : List LogEntry) (before after : ValidationView)
    → stage_entries options entries before ≡ done after
    → All EntryWidths entries
    → All (EntryFits options) entries
unfolding stage_entries
stage_entries-EntryFits options [] before after h w = tt
stage_entries-EntryFits options (e ∷ rest) before after h w =
    let (middle, first, second) =
      bind-done (stage_entry options e before) (stage_entries options rest) h in
    (
      entry-EntryFits options e w.0 (stage_entry-bounded options e before middle first),
      stage_entries-EntryFits options rest middle after second w.1,
    )

-- A batch that `stage` accepts, with numbers of the C++ types, is within the bounds of the decoder.
pub Staged-BatchFits :
    (b : PersistBatch) (options : WalOptions) (before after : ValidationView)
    → Staged b options before after
    → BatchWidths b
    → BatchFits options b
Staged-BatchFits b options before after s w = record {
  hard = w.hard;
  truncate = w.truncate;
  entries = stage_entries-EntryFits options b.entries s.cut_view s.long_view s.appended w.entries;
  commit = w.commit;
  count = s.count;
}

pub validate_options-NarrowOptions :
    (options : WalOptions)
    → validate_options options ≡ done tt
    → NarrowOptions options × (options.max_frame_bytes < 256 ^ 8)
unfolding validate_options
validate_options-NarrowOptions options h = (
  record { entries = ground (arith, h); key = ground (arith, h); value = ground (arith, h) },
  ground (arith, h),
)
