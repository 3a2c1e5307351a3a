-- ===== src/Raft/Matching.antt =====
-- What the entries of an accepted AppendEntries make of a follower's log.
pub mod Handler
use native.Mathlib.Numerals.{add-one}
use det_log.Prelude.{
  ◌≡◌, refl, sym, ◌∙◌, ap, subst, ◌≤◌, ◌<◌, ◌+◌, ◌-◌, ℕ, suc, zero, min, true, false, Bool, some,
  List, [], ◌∷◌, ◌++◌, arith, inl, inr, ◌⊎◌, if◌then◌else◌, Bool-cases, length, get_elem?,
  get_elem?-lt, get_elem?-take, get_elem?-behind, take, take-take, take-all, take-replace,
  length-append, append_assoc, length-take, All,
}
use det_log.Prelude.Key.{◌==◌, option_eq, option_beq_iff}
use det_log.Model.{LogEntry, entry_eq}
use det_log.Raft.Log.{entry_at}
use det_log.Raft.Append.{skip_matching}
use det_log.Raft.Entries.{Consecutive, entry_at-in}

-- Every entry stands in the log at its index.
abbrev pub Holds : List LogEntry → List LogEntry → Type 0
Holds log entries = All (λ entry. entry_at log entry.index ≡ some entry) entries

-- The log `new` is `old` with `entries` from the index after `before` on: the entries stand in it,
-- nothing up to `before` has changed, a log that held them already is not touched at all, and one that
-- did not ends with them.
pub record Merged (old : List LogEntry) (before : ℕ) (entries new : List LogEntry) : Type 0 where
  pub held : Holds new entries
  pub prefix : take before new ≡ take before old
  pub kept : Holds old entries → new ≡ old
  pub ends : (new ≡ old) ⊎ (length new ≡ before + length entries)

-- The log that store_suffix makes: `rest` replaces what stands from its first index on.
abbrev pub spliced : List LogEntry → List LogEntry → List LogEntry
spliced log [] = log
spliced log (entry ∷ rest) = take (entry.index - 1) log ++ entry ∷ rest

-- Consecutive entries behind a prefix of the right length stand at their indexes.
Holds-behind :
    (xs entries : List LogEntry) → Consecutive (length xs) entries → Holds (xs ++ entries) entries
unfolding entry_at
Holds-behind xs [] c = tt
Holds-behind xs (entry ∷ rest) c =
    let longer : length (xs ++ entry ∷ []) ≡ suc (length xs) =
      length-append xs (entry ∷ []) ∙ omega arith in
    (
      ap (entry_at (xs ++ entry ∷ rest)) (c.0) ∙ get_elem?-behind xs rest entry,
      subst (λ log. Holds log rest) (append_assoc xs (entry ∷ []) rest)
          (Holds-behind (xs ++ entry ∷ []) rest (rw longer (c.1))),
    )

-- An entry that two logs share up to its index.
entry_at-shared :
    (n : ℕ) (old new : List LogEntry)
    → take (suc n) new ≡ take (suc n) old
    → entry_at new (suc n) ≡ entry_at old (suc n)
unfolding entry_at
entry_at-shared n old new e =
    sym (get_elem?-take n (suc n) new (omega arith))
    ∙ ap (λ log. get_elem? log n) e
    ∙ get_elem?-take n (suc n) old (omega arith)

-- The first entry is not the log's: all of the entries go in.
splice-Merged :
    (log : List LogEntry) (before : ℕ) (entry : LogEntry) (rest : List LogEntry)
    → before ≤ length log
    → Consecutive before (entry ∷ rest)
    → (entry_at log entry.index == some entry) ≡ false
    → Merged log before (entry ∷ rest) (spliced log (entry ∷ rest))
splice-Merged log before entry rest h c e =
    let cut : entry.index - 1 ≡ before = omega (arith, c.0) in
    let size : length (take before log) ≡ before = length-take before log ∙ omega arith in
    let behind : Merged log before (entry ∷ rest) (take before log ++ entry ∷ rest) = record {
      held = Holds-behind (take before log) (entry ∷ rest) (rw size (c));
      prefix = take-replace before before log (entry ∷ rest) (omega arith) h;
      kept =
          λ all. absurd (cc ((option_beq_iff (entry_at log entry.index) (some entry)).1 (all.0)));
      ends = inr (length-append (take before log) (entry ∷ rest) ∙ omega (arith, size));
    } in
    subst (λ n. Merged log before (entry ∷ rest) (take n log ++ entry ∷ rest)) (sym cut) behind

-- The entries that the log does not hold already, put in their place, merge all of them.
pub skip_matching-Merged :
    (log : List LogEntry) (before : ℕ) (entries : List LogEntry)
    → before ≤ length log
    → Consecutive before entries
    → Merged log before entries (spliced log (skip_matching log entries))
unfolding skip_matching
skip_matching-Merged log before [] h c = record {
  held = tt;
  prefix = refl;
  kept = λ all. refl;
  ends = inl refl;
}
skip_matching-Merged log before (entry ∷ rest) h c =
    elim (Bool-cases (entry_at log entry.index == some entry)) [
      | inr e ↦ rw e (splice-Merged log before entry rest h c e)
      | inl e ↦
          let at : entry_at log (suc before) ≡ some entry =
            ap (entry_at log) (sym c.0)
            ∙ (option_beq_iff (entry_at log entry.index) (some entry)).0 e in
          let m = skip_matching-Merged log (suc before) rest (entry_at-in log before at) c.1 in
          let new = spliced log (skip_matching log rest) in
          rw e (record {
            held = (ap (entry_at new) (c.0) ∙ entry_at-shared before log new m.prefix ∙ at, m.held);
            prefix =
                sym (take-take before (suc before) new (omega arith))
                ∙ ap (take before) m.prefix
                ∙ take-take before (suc before) log (omega arith);
            kept = λ all. m.kept all.1;
            ends = longer (m.ends);
          })
    ]
  where
    longer :
        {new : List LogEntry}
        → (new ≡ log) ⊎ (length new ≡ suc before + length rest)
        → (new ≡ log) ⊎ (length new ≡ before + suc (length rest))
    longer (inl e) = inl e
    longer (inr e) = inr (e ∙ omega arith)

-- The first entry that goes in stands at or below the commit index.
abbrev pub Overwrites : ℕ → List LogEntry → Type 0
Overwrites commit [] = ⊥
Overwrites commit (entry ∷ rest) = entry.index ≤ commit

-- Some entry differs from what the log holds at its index, and that index is committed.
abbrev pub Clash : List LogEntry → ℕ → List LogEntry → Type 0
Clash log commit [] = ⊥
Clash log commit (entry ∷ rest) =
    ((entry.index ≤ commit) × (¬ (entry_at log entry.index ≡ some entry))) ⊎ Clash log commit rest

pub skip_matching-Clash :
    (log : List LogEntry) (commit : ℕ) (entries : List LogEntry)
    → Overwrites commit (skip_matching log entries)
    → Clash log commit entries
unfolding skip_matching
skip_matching-Clash log commit [] h = h
skip_matching-Clash log commit (entry ∷ rest) h =
    go (entry_at log entry.index == some entry) refl h (skip_matching-Clash log commit rest)
  where
    go :
        (b : Bool)
        → (entry_at log entry.index == some entry) ≡ b
        → Overwrites commit (if b then skip_matching log rest else entry ∷ rest)
        → (Overwrites commit (skip_matching log rest) → Clash log commit rest)
        → Clash log commit (entry ∷ rest)
    go true e k ih = inr (ih k)
    go false e k ih =
        inl (k, λ at. cc ((option_beq_iff (entry_at log entry.index) (some entry)).1 at))
