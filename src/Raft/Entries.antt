-- ===== src/Raft/Entries.antt =====
-- The entries of an AppendEntries against the follower's log: validation and the matching prefix.
use native.Mathlib.Numerals.{add-one}
use det_log.Prelude.{
  ◌≡◌, ◌∙◌, ◌≤◌, ◌<◌, ◌+◌, ℕ, suc, true, some, List, [], ◌∷◌, arith, inl, inr, Bool-cases, length,
  get_elem?-lt,
}
use det_log.Prelude.Key.{◌==◌, option_eq, option_beq_iff}
use det_log.Model.{LogEntry, entry_eq}
use det_log.Raft.State.{RaftConfig}
use det_log.Raft.Log.{entry_at, entry_bytes}
use det_log.Raft.Append.{entries_valid_from, skip_matching, last_index_or}

-- Entries whose indexes follow on `before`, one by one.
abbrev pub Consecutive : ℕ → List LogEntry → Type 0
Consecutive before [] = Unit {0}
Consecutive before (entry ∷ rest) = (entry.index ≡ suc before) × Consecutive (suc before) rest

pub entries_valid_from-Consecutive :
    (config : RaftConfig) (term expected bytes : ℕ) (entries : List LogEntry)
    → entries_valid_from config term expected bytes entries ≡ true
    → Consecutive expected entries
unfolding entries_valid_from
entries_valid_from-Consecutive config term expected bytes [] h = tt
entries_valid_from-Consecutive config term expected bytes (entry ∷ rest) h =
    let next : expected + 1 ≡ suc expected = add-one expected in
    (
      ground (arith, next),
      rw (← next) (
          entries_valid_from-Consecutive config term (expected + 1) (bytes + entry_bytes entry) rest
            (ground arith)),
    )

pub last_index_or-Consecutive :
    (before : ℕ) (entries : List LogEntry)
    → Consecutive before entries
    → last_index_or before entries ≡ before + length entries
last_index_or-Consecutive before [] c = omega arith
last_index_or-Consecutive before (entry ∷ rest) c =
    rw (c.0) (last_index_or-Consecutive (suc before) rest c.1 ∙ omega arith)

-- What skip_matching leaves, for entries that end at `last`.
abbrev pub Remaining : List LogEntry → ℕ → List LogEntry → Type 0
Remaining log last [] = last ≤ length log
Remaining log last (entry ∷ rest) =
    (entry.index ≤ suc (length log)) × (0 < entry.index) × (entry.index + length rest ≡ last)

pub entry_at-in :
    (log : List LogEntry) (before : ℕ) {entry : LogEntry}
    → entry_at log (suc before) ≡ some entry
    → before < length log
unfolding entry_at
entry_at-in log before h = get_elem?-lt before log h

pub skip_matching-Remaining :
    (log : List LogEntry) (before : ℕ) (entries : List LogEntry)
    → before ≤ length log
    → Consecutive before entries
    → Remaining log (before + length entries) (skip_matching log entries)
unfolding skip_matching
skip_matching-Remaining log before [] h c = omega arith
skip_matching-Remaining log before (entry ∷ rest) h c =
    let same = entry_at log entry.index == some entry in
    elim (Bool-cases same) [
      | inl e ↦
          let at : entry_at log (suc before) ≡ some entry =
            rw (← c.0) ((option_beq_iff (entry_at log entry.index) (some entry)).0 e) in
          let total : before + suc (length rest) ≡ suc before + length rest = omega arith in
          rw (e, total)
            (skip_matching-Remaining log (suc before) rest (entry_at-in log before at) c.1)
      | inr e ↦ rw e (omega (arith, c.0), omega (arith, c.0), omega (arith, c.0))
    ]
