-- ===== src/Raft/Quorum.antt =====
-- maybe_advance_commit: which index a leader commits.
use det_log.Prelude.{
  ◌≡◌, refl, sym, ap, ◌≤◌, ◌<◌, ◌+◌, ℕ, zero, suc, Bool, true, false, ◌&&◌, Option, none, some, inl,
  inr, ◌⊎◌, arith, Bool-cases, Option-cases, leb, ltb, eqb,
}
use det_log.Model.{LogEntry, batch_empty}
use det_log.Raft.State.{RaftNode, Core, is_leader, is_idle, quorum_size}
use det_log.Raft.Log.{entry_at}
use det_log.Raft.Emit.{trace, emit}
use det_log.Raft.Persist.{begin_persist}
use det_log.Raft.Replicate.{
  can_commit, count_matching, commit_target, advance_commit, maybe_advance_commit,
}
use det_log.Raft.Quiet.{fail_storage-Quiet}

-- The log's entry at the index is of the current term, and this node with the peers that are known to
-- match the log through the index makes a quorum.
abbrev pub Committable : RaftNode → ℕ → Type 0
Committable s index =
    ((entry : LogEntry) × (entry_at s.log index ≡ some entry)
      × (entry.term ≡ s.hard_state.current_term))
    × (quorum_size s.config ≤ 1 + count_matching index s.peers)

can_commit-Committable :
    (s : RaftNode) (index : ℕ) → can_commit s index ≡ true → Committable s index
unfolding can_commit
can_commit-Committable s index h = go (entry_at s.log index) refl h
  where
    go :
        (o : Option LogEntry)
        → entry_at s.log index ≡ o
        → (elim o as (λ _. Bool) [
          | none ↦ false
          | some entry ↦
              eqb entry.term s.hard_state.current_term
              && leb (quorum_size s.config) (1 + count_matching index s.peers)
        ])
          ≡ true
        → Committable s index
    go none e k = absurd (cc)
    go (some entry) e k = ((entry, e, ground arith), ground arith)

Committable-can_commit :
    (s : RaftNode) (index : ℕ) → Committable s index → can_commit s index ≡ true
unfolding can_commit
Committable-can_commit s index ((entry, at, same), quorum) =
    rw (at, can_commit) (ground (arith, same, quorum))

-- The commit index itself, or the largest index up to `from` that may be committed.
record Largest (s : RaftNode) (from target : ℕ) : Type 0 where
  pub raised :
      (target ≡ s.commit_index)
      ⊎ ((s.commit_index < target) × (target ≤ from) × (can_commit s target ≡ true))
  pub most :
      (index : ℕ)
      → s.commit_index < index
      → index ≤ from
      → can_commit s index ≡ true
      → index ≤ target

commit_target-Largest : (s : RaftNode) (from : ℕ) → Largest s from (commit_target s from)
unfolding commit_target
commit_target-Largest s zero = record { raised = inl refl; most = λ index a b c. omega arith }
commit_target-Largest s (suc below) = elim (Bool-cases (ltb s.commit_index (suc below))) [
  | inr e ↦ rw e (record { raised = inl refl; most = λ index a b c. ground arith })
  | inl e ↦ elim (Bool-cases (can_commit s (suc below))) [
    | inl can ↦
        rw (e, can)
          (record { raised = inr (ground arith, omega arith, can); most = λ index a b c. b })
    | inr cannot ↦
        let rest = commit_target-Largest s below in
        rw (e, cannot)
          (record {
            raised = wider (rest.raised);
            most = λ index a b c. elim (Bool-cases (eqb index (suc below))) [
              | inl same ↦ let here : index ≡ suc below = ground arith in absurd (cc (rw here at c))
              | inr other ↦ rest.most index a (ground arith) c
            ];
          })
  ]
]
  where
    wider :
        {target : ℕ}
        → (target ≡ s.commit_index)
          ⊎ ((s.commit_index < target) × (target ≤ below) × (can_commit s target ≡ true))
        → (target ≡ s.commit_index)
          ⊎ ((s.commit_index < target) × (target ≤ suc below) × (can_commit s target ≡ true))
    wider (inl same) = inl same
    wider (inr (a, b, c)) = inr (a, omega arith, c)

-- begin_persist has something to store here, so the continuation does not run in this call.
advance_commit-commit :
    (target : ℕ) (s : RaftNode) → (advance_commit target s).commit_index ≡ target
unfolding advance_commit begin_persist batch_empty trace emit
advance_commit-commit target s = elim (Bool-cases (eqb target s.commit_index)) [
  | inl e ↦ let same : target ≡ s.commit_index = ground arith in rw (e, advance_commit) (sym same)
  | inr e ↦
      let raised = record s { core = record s.core { commit_index = target } } in
      elim (Option-cases s.pending_storage) [
        | inr (p, at) ↦ rw (e, advance_commit, at, begin_persist) refl
        | inl at ↦ elim (Bool-cases (eqb s.next_storage_op_id 0)) [
          | inl wrapped ↦
              rw (e, advance_commit, at, wrapped, begin_persist)
                (ap (λ (c : Core). c.commit_index)
                  (fail_storage-Quiet "storage operation id overflow" raised).core)
          | inr fresh ↦ rw (e, advance_commit, at, fresh, begin_persist) refl
        ]
      ]
]

-- A leader with no storage pending moves its commit index to the largest index of its durable log
-- whose entry is of the current term and which a quorum is known to hold, its own disk included; if
-- there is none above the commit index, the commit index stays.
pub maybe_advance_commit_largest :
    (s : RaftNode)
    → is_leader s.role ≡ true
    → is_idle s ≡ true
    → (((maybe_advance_commit s).commit_index ≡ s.commit_index)
        ⊎ ((s.commit_index < (maybe_advance_commit s).commit_index)
            × ((maybe_advance_commit s).commit_index ≤ s.durable_last_log_index)
            × Committable s (maybe_advance_commit s).commit_index))
      × ((index : ℕ)
          → s.commit_index < index
          → index ≤ s.durable_last_log_index
          → Committable s index
          → index ≤ (maybe_advance_commit s).commit_index)
unfolding maybe_advance_commit
maybe_advance_commit_largest s leads idle =
    let target = commit_target s s.durable_last_log_index in
    let best = commit_target-Largest s s.durable_last_log_index in
    rw (leads, idle, advance_commit-commit target s)
      (
        spelled (best.raised),
        (λ index a b c. best.most index a b (Committable-can_commit s index c)),
      )
  where
    spelled :
        {target : ℕ}
        → (target ≡ s.commit_index)
          ⊎ ((s.commit_index < target)
              × (target ≤ s.durable_last_log_index)
              × (can_commit s target ≡ true))
        → (target ≡ s.commit_index)
          ⊎ ((s.commit_index < target) × (target ≤ s.durable_last_log_index) × Committable s target)
    spelled (inl same) = inl same
    spelled (inr (a, b, c)) = inr (a, b, can_commit-Committable s _ c)
