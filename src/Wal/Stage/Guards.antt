-- ===== src/Wal/Stage/Guards.antt =====
-- What the guards of the staging functions of src/wal.cpp establish.
use det_log.Prelude.{
  ◌≡◌, ◌⊎◌, refl, sym, ◌∙◌, ap, subst, inl, inr, ℕ, ◌+◌, ◌-◌, ◌<◌, ◌≤◌, true, false, ◌&&◌, Option,
  none, some, List, [], ◌∷◌, ◌++◌, arith, Bool-cases, ltb, length, length-append, append_assoc,
  append_nil, take, take-all,
}
use det_log.Model.{LogEntry, HardState}
use det_log.Wal.Types.{done, bind-done, done_injective, WalOptions}
use det_log.Wal.Stage.{
  ValidationView, last_term_from, last_term, stage_hard_state, stage_truncate, stage_entry,
  stage_entries, stage_commit,
}
use det_log.Wal.Stage.Ordered.{Ordered, Ordered-append, last_term-append, last_term-front}

-- The log starts at index 1 with a positive term, and lies behind the hard state and the commit index.
pub record Logged (options : WalOptions) (v : ValidationView) : Type 0 where
  pub ordered : Ordered 1 1 v.entries
  pub current : last_term_from 0 v.entries ≤ v.hard_state.current_term
  pub committed : v.commit_index ≤ length v.entries
  pub bounded : length v.entries ≤ options.max_log_entries

-- What does not go back: the term, the commit index, and the entries up to it.
pub record Grown (before after : ValidationView) : Type 0 where
  pub term : before.hard_state.current_term ≤ after.hard_state.current_term
  pub commit : before.commit_index ≤ after.commit_index
  pub entries : take before.commit_index after.entries ≡ take before.commit_index before.entries

-- What `stage_entry` has checked.
pub stage_entry_checks :
    (options : WalOptions) (e : LogEntry) (before after : ValidationView)
    → stage_entry options e before ≡ done after
    → (length before.entries < options.max_log_entries)
      × (e.index ≡ length before.entries + 1)
      × (1 ≤ e.term)
      × (e.term ≤ before.hard_state.current_term)
      × ((ltb 1 e.index && ltb e.term (last_term before)) ≡ false)
      × (after ≡ record before { entries = before.entries ++ e ∷ [] })
unfolding stage_entry
stage_entry_checks options e before after h = (
  ground (arith, h),
  ground (arith, h),
  ground (arith, h),
  ground (arith, h),
  ground (arith, h),
  ground (arith, h),
)

pub no_entry : (es : List LogEntry) → length es ≡ 0 → es ≡ []
no_entry [] h = refl
no_entry (x ∷ es) h = absurd (omega (arith, h))

pub stage_entry-Logged :
    (options : WalOptions) (e : LogEntry) (before after : ValidationView)
    → Logged options before
    → stage_entry options e before ≡ done after
    → Logged options after × (after ≡ record before { entries = before.entries ++ e ∷ [] })
unfolding last_term_from
stage_entry-Logged options e before after h ran =
    let (room, index, positive, current, up, same) =
      stage_entry_checks options e before after ran in
    let longer = length-append {0} before.entries (e ∷ []) in
    let c = h.committed in
    (
      subst (Logged options) (sym same) (record {
        ordered =
            Ordered-append 1 1 before.entries e h.ordered (omega (arith, index))
              (last_up (Bool-cases (ltb 0 (length before.entries))));
        current =
            subst (λ t. t ≤ before.hard_state.current_term)
              (sym (last_term-append 0 before.entries e)) current;
        committed = omega (arith, longer, c);
        bounded = omega (arith, longer, room);
      }),
      same,
    )
  where
    last_up :
        (ltb 0 (length before.entries) ≡ true) ⊎ (ltb 0 (length before.entries) ≡ false)
        → last_term_from 1 before.entries ≤ e.term
    last_up (inl some_entry) =
        let (_, index, _, _, up, _) = stage_entry_checks options e before after ran in
        let same = last_term-front before.entries 0 (ground (arith, some_entry)) in
        ground (arith, some_entry, index, up, same)
    last_up (inr none_yet) =
        let (_, _, positive, _, _, _) = stage_entry_checks options e before after ran in
        let bare : before.entries ≡ [] = no_entry before.entries (ground (arith, none_yet)) in
        subst (λ es. last_term_from 1 es ≤ e.term) (sym bare) positive

pub stage_entries-Logged :
    (options : WalOptions) (es : List LogEntry) (before after : ValidationView)
    → Logged options before
    → stage_entries options es before ≡ done after
    → Logged options after × (after ≡ record before { entries = before.entries ++ es })
unfolding stage_entries
stage_entries-Logged options [] before after h ran =
    let same = done_injective ran in
    (
      subst (Logged options) same h,
      sym same ∙ ap (λ es. record before { entries = es }) (sym (append_nil before.entries)),
    )
stage_entries-Logged options (e ∷ rest) before after h ran =
    let (middle, first, second) =
      bind-done (stage_entry options e before) (stage_entries options rest) ran in
    let (h1, same1) = stage_entry-Logged options e before middle h first in
    let (h2, same2) = stage_entries-Logged options rest middle after h1 second in
    (
      h2,
      same2
          ∙ ap (λ (v : ValidationView). record v { entries = v.entries ++ rest }) same1
          ∙ ap (λ es. record before { entries = es }) (append_assoc before.entries (e ∷ []) rest),
    )

-- A hard state that is accepted keeps the log and the commit index, and does not lower the term.
pub stage_hard_state_checks :
    (next : Option HardState) (before after : ValidationView)
    → stage_hard_state next before ≡ done after
    → (before.hard_state.current_term ≤ after.hard_state.current_term)
      × (after.entries ≡ before.entries)
      × (after.commit_index ≡ before.commit_index)
unfolding stage_hard_state
stage_hard_state_checks none before after h =
    subst
      (λ (v : ValidationView).
        (before.hard_state.current_term ≤ v.hard_state.current_term)
        × (v.entries ≡ before.entries)
        × (v.commit_index ≡ before.commit_index))
      (done_injective h) (omega arith, refl, refl)
stage_hard_state_checks (some next) before after h =
    (ground (arith, h), ground (arith, h), ground (arith, h))

pub stage_truncate_checks :
    (from : Option ℕ) (before after : ValidationView)
    → stage_truncate from before ≡ done after
    → (n : ℕ) × (after ≡ record before { entries = take n before.entries })
      × ((before.commit_index ≤ n) ⊎ (after.entries ≡ before.entries))
unfolding stage_truncate
stage_truncate_checks none before after h =
    let same = done_injective h in
    (
      length before.entries,
      sym same
          ∙ ap (λ es. record before { entries = es })
              (sym (take-all (length before.entries) before.entries (omega arith))),
      inr (ap (λ (v : ValidationView). v.entries) (sym same)),
    )
stage_truncate_checks (some from) before after h =
    (from - 1, ground (arith, h), inl (ground (arith, h)))

pub stage_commit_checks :
    (index : Option ℕ) (before after : ValidationView)
    → stage_commit index before ≡ done after
    → (after ≡ record before { commit_index = after.commit_index })
      × (before.commit_index ≤ after.commit_index)
      × ((after.commit_index ≤ length before.entries) ⊎ (after.commit_index ≡ before.commit_index))
unfolding stage_commit
stage_commit_checks none before after h =
    let same = done_injective h in
    subst
      (λ (v : ValidationView).
        (v ≡ record before { commit_index = v.commit_index })
        × (before.commit_index ≤ v.commit_index)
        × ((v.commit_index ≤ length before.entries) ⊎ (v.commit_index ≡ before.commit_index)))
      same (refl, omega arith, inr refl)
stage_commit_checks (some index) before after h =
    (ground (arith, h), ground (arith, h), inl (ground (arith, h)))
