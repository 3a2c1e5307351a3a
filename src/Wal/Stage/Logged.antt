-- ===== src/Wal/Stage/Logged.antt =====
-- The logical state of src/wal.cpp behind a batch that `stage` accepts.
use det_log.Prelude.{
  ◌≡◌, sym, ◌∙◌, ap, subst, inl, inr, ℕ, ◌≤◌, Option, List, ◌++◌, arith, length, take, length-take,
  take-append, take-take,
}
use det_log.Model.{LogEntry, HardState, PersistBatch}
use det_log.Wal.Types.{done, WalOptions}
use det_log.Wal.Stage.{
  ValidationView, last_term_from, stage_hard_state, stage_truncate, stage_commit, stage,
}
use det_log.Wal.Stage.Accepted.{stage-Staged}
use det_log.Wal.Stage.Ordered.{Ordered, Ordered-take, Ordered-lower}
use det_log.Wal.Stage.Guards.{
  Logged, Grown, stage_entries-Logged, stage_hard_state_checks, stage_truncate_checks,
  stage_commit_checks,
}

hard_state-Logged :
    (options : WalOptions) (next : Option HardState) (before after : ValidationView)
    → Logged options before
    → stage_hard_state next before ≡ done after
    → Logged options after
hard_state-Logged options next before after h ran =
    let (up, entries, commit) = stage_hard_state_checks next before after ran in
    let current = h.current in
    let committed = h.committed in
    let size = ap length entries in
    let bounded = h.bounded in
    record {
      ordered = subst (Ordered 1 1) (sym entries) h.ordered;
      current =
          subst (λ es. last_term_from 0 es ≤ after.hard_state.current_term) (sym entries)
            (omega (arith, current, up));
      committed = omega (arith, committed, size, commit);
      bounded = omega (arith, bounded, size);
    }

truncate-Logged :
    (options : WalOptions) (from : Option ℕ) (before after : ValidationView)
    → Logged options before
    → stage_truncate from before ≡ done after
    → Logged options after × Grown before after
truncate-Logged options from before after h ran =
    let (n, same, safe) = stage_truncate_checks from before after ran in
    let bounded = h.bounded in
    let committed = h.committed in
    let current = h.current in
    let size = length-take n before.entries in
    let (ordered, _) = Ordered-take 1 1 n before.entries h.ordered in
    let (_, last) = Ordered-take 1 0 n before.entries (Ordered-lower before.entries h.ordered) in
    let kept : (before.commit_index ≤ length (take n before.entries))
        × (take before.commit_index (take n before.entries)
            ≡ take before.commit_index before.entries) =
      elim safe [
        | inl above ↦ (
          omega (arith, size, above, committed),
          take-take before.commit_index n before.entries above,
        )
        | inr whole ↦
            let all = ap (λ (v : ValidationView). v.entries) (sym same) ∙ whole in
            let level = ap length all in
            (omega (arith, level, committed), ap (take before.commit_index) all)
      ] in
    (
      subst (Logged options) (sym same) (record {
        ordered = ordered;
        current = omega (arith, last, current);
        committed = kept.0;
        bounded = omega (arith, size, bounded);
      }),
      subst (Grown before) (sym same)
          (record { term = omega arith; commit = omega arith; entries = kept.1 }),
    )

Grown-then :
    (before middle after : ValidationView)
    → Grown before middle
    → Grown middle after
    → Grown before after
Grown-then before middle after g k =
    let term1 = g.term in
    let term2 = k.term in
    let commit1 = g.commit in
    let commit2 = k.commit in
    let c = before.commit_index in
    record {
      term = omega (arith, term1, term2);
      commit = omega (arith, commit1, commit2);
      entries =
          sym (take-take c middle.commit_index after.entries commit1)
          ∙ ap (take c) k.entries
          ∙ take-take c middle.commit_index middle.entries commit1
          ∙ g.entries;
    }

entries-Grown :
    (options : WalOptions) (es : List LogEntry) (before after : ValidationView)
    → Logged options before
    → after ≡ record before { entries = before.entries ++ es }
    → Grown before after
entries-Grown options es before after h same = subst (Grown before) (sym same) (record {
  term = omega arith;
  commit = omega arith;
  entries = take-append before.commit_index before.entries es h.committed;
})

commit-Logged :
    (options : WalOptions) (index : Option ℕ) (before after : ValidationView)
    → Logged options before
    → stage_commit index before ≡ done after
    → Logged options after × Grown before after
commit-Logged options index before after h ran =
    let (same, further, within) = stage_commit_checks index before after ran in
    let committed = h.committed in
    let inside : after.commit_index ≤ length before.entries = elim within [
      | inl inner ↦ inner
      | inr as_before ↦ omega (arith, as_before, committed)
    ] in
    let entries = ap (λ (v : ValidationView). v.entries) same in
    (
      subst (Logged options) (sym same) (record {
        ordered = h.ordered;
        current = h.current;
        committed = inside;
        bounded = h.bounded;
      }),
      record {
        term = omega (arith, ap (λ (v : ValidationView). v.hard_state.current_term) same);
        commit = further;
        entries = ap (take before.commit_index) entries;
      },
    )

-- A batch that `stage` accepts on such a log leaves such a log: consecutive indexes from 1, positive terms
-- that do not fall, none above the current term, the commit index within the log and the log within
-- its bound. The term and the commit index do not go back, and the committed entries stay.
pub stage-Logged :
    (options : WalOptions) (batch : PersistBatch) (before after : ValidationView)
    → Logged options before
    → stage batch options before ≡ done after
    → Logged options after × Grown before after
stage-Logged options batch before after h ran =
    let s = stage-Staged batch options before after ran in
    let (up, entries, commit) =
      stage_hard_state_checks batch.hard_state before s.hard_view s.hard in
    let h1 = hard_state-Logged options batch.hard_state before s.hard_view h s.hard in
    let (h2, g2) =
      truncate-Logged options batch.truncate_from s.hard_view s.cut_view h1 s.truncated in
    let (h3, same3) =
      stage_entries-Logged options batch.entries s.cut_view s.long_view h2 s.appended in
    let (h4, g4) = commit-Logged options batch.commit_index s.long_view after h3 s.committed in
    let g1 : Grown before s.hard_view = record {
      term = up;
      commit = omega (arith, commit);
      entries = ap (take before.commit_index) entries;
    } in
    let g3 = entries-Grown options batch.entries s.cut_view s.long_view h2 same3 in
    (
      h4,
      Grown-then before s.hard_view after g1 (
          Grown-then s.hard_view s.cut_view after g2
            (Grown-then s.cut_view s.long_view after g3 g4)),
    )
