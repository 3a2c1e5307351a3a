-- ===== src/Raft/Durable/Append.antt =====
-- AppendEntries at the follower: a success is sent for what is stored.
use det_log.Prelude.{
  ◌≡◌, refl, ◌∙◌, sym, ap, ◌≤◌, ◌-◌, ℕ, Bool, true, false, ◌||◌, not, Option, none, some, List,
  ◌++◌, inl, inr, Bool-cases, leb, is_some, if◌then◌else◌, length, take, arith,
}
use det_log.Model.{HardState, LogEntry, AppendEntries, TraceKind, is_nil}
use det_log.Raft.State.{Core, RaftNode}
use det_log.Raft.Log.{last_log_index}
use det_log.Raft.Emit.{trace, emit, schedule_election}
use det_log.Raft.Persist.{remove_pending_from}
use det_log.Raft.Step.{batch_durable, or_value}
use det_log.Raft.Replicate.{apply_committed}
use det_log.Raft.Append.{
  accept_stored, truncate_log, replace_suffix, last_index_or, learned_commit, set_commit,
  finish_append, append_stored_batch, extend_log,
}
use det_log.Raft.Quiet.{remove_pending_from-Quiet}
use det_log.Raft.Durable.{Settled, Firm, Calm, Post, Post-Firm}
use det_log.Raft.Durable.Emits.{remove_pending_from-Sent}
use det_log.Raft.Durable.Sends.{trace-Firm, schedule_election-Firm, send_message-Firm}
use det_log.Raft.Durable.Begin.{persist_then-Post}
use det_log.Raft.Durable.Apply.{apply_committed-Firm, apply_committed-Kept}
use det_log.Raft.Durable.Election.{trace-Calm}

-- Applying, and what it may fail with, leaves the durable state and the terms alone.
pub accept_stored-Firm :
    (from rpc_id match_index : ℕ) (apply : Bool) (s : RaftNode)
    → match_index ≤ length s.log
    → Firm s
    → Firm (accept_stored from rpc_id match_index apply s)
unfolding accept_stored schedule_election trace emit
accept_stored-Firm from rpc_id match_index false s h f =
    send_message-Firm from _ (schedule_election s)
      (
        ap (λ (x : HardState). x.current_term) (sym f.settled.hard),
        (λ _. omega (arith, f.settled.last)),
      )
      (schedule_election-Firm s f)
accept_stored-Firm from rpc_id match_index true s h f =
    let t = trace TraceKind.commit "learned committed prefix from leader" s.commit_index s in
    let u = apply_committed t in
    let g = apply_committed-Firm t (trace-Firm TraceKind.commit _ s.commit_index s f) in
    let k = apply_committed-Kept t in
    send_message-Firm from _ (schedule_election u)
      (
        ap (λ (x : HardState). x.current_term) (sym (g.settled.hard ∙ k.hard)),
        (λ _. omega (arith, g.settled.last, ap (length {A = LogEntry}) k.log)),
      )
      (schedule_election-Firm u g)

-- The commit index of a request goes into the batch if it is new.
set_commit-durable :
    (stored : Option HardState) (truncate_from : Option ℕ) (entries : List LogEntry)
    (commit : Option ℕ) (s : RaftNode)
    → or_value stored s.durable_hard_state ≡ s.hard_state
    → (if is_some truncate_from || not (is_nil entries)
        then length s.log
        else s.durable_last_log_index)
      ≡ length s.log
    → s.durable_commit_index ≡ s.commit_index
    → Settled (
        batch_durable
          (append_stored_batch stored truncate_from entries commit)
          (set_commit commit s).core)
unfolding batch_durable
set_commit-durable stored truncate_from entries none s a b d = record {
  hard = a;
  last = b;
  commit = d;
}
set_commit-durable stored truncate_from entries (some index) s a b d = record {
  hard = a;
  last = b;
  commit = refl;
}

set_commit-Calm : (commit : Option ℕ) (s : RaftNode) → Calm s → Calm (set_commit commit s)
set_commit-Calm none s c = c
set_commit-Calm (some index) s c = record { idle = c.idle; thrown = c.thrown; sent = c.sent }

pub set_commit-log : (commit : Option ℕ) (s : RaftNode) → (set_commit commit s).log ≡ s.log
set_commit-log none s = refl
set_commit-log (some index) s = refl

pub finish_append-Post :
    (from : ℕ) (request : AppendEntries) (stored : Option HardState) (truncate_from : Option ℕ)
    (entries : List LogEntry) (s : RaftNode)
    → Calm s
    → or_value stored s.durable_hard_state ≡ s.hard_state
    → (if is_some truncate_from || not (is_nil entries)
        then length s.log
        else s.durable_last_log_index)
      ≡ length s.log
    → s.durable_commit_index ≡ s.commit_index
    → last_index_or request.prev_log_index request.entries ≤ length s.log
    → Post (finish_append from request stored truncate_from entries s)
unfolding finish_append
finish_append-Post from request stored truncate_from entries s c a b d h =
    let match_index = last_index_or request.prev_log_index request.entries in
    let commit = learned_commit request match_index s in
    let t = set_commit commit s in
    let inside : match_index ≤ length t.log = rw (set_commit-log commit s) h in
    persist_then-Post (append_stored_batch stored truncate_from entries commit) _ _ t
      (set_commit-Calm commit s c) (set_commit-durable stored truncate_from entries commit s a b d)
      inside
      (λ f.
        Post-Firm (accept_stored-Firm from request.rpc_id match_index (is_some commit) t inside f))

-- Replacing a suffix changes the log alone.
pub record Replaced (s t : RaftNode) : Type 0 where
  pub calm : Calm t
  pub core : t.core ≡ record s.core { log = t.log }

pub replace_suffix-Replaced :
    (index : ℕ) (entries : List LogEntry) (s : RaftNode)
    → Calm s
    → Replaced s (replace_suffix index entries s)
unfolding replace_suffix truncate_log trace emit
replace_suffix-Replaced index entries s c = elim (Bool-cases (leb index (last_log_index s.log))) [
  | inl e ↦
      let t = remove_pending_from index s in
      let q = remove_pending_from-Quiet index s in
      let cut = record t { core = record t.core { log = take (index - 1) t.log } } in
      rw e (record {
        calm =
            trace-Calm TraceKind.log_change "accepted replicated log suffix" index
              (extend_log entries cut)
              (record {
                idle = q.idle c.idle;
                thrown = q.thrown ∙ c.thrown;
                sent = remove_pending_from-Sent index s c.sent;
              });
        core = ap (λ (d : Core). record d { log = take (index - 1) t.log ++ entries }) q.core;
      })
  | inr e ↦ rw e (record {
    calm =
        trace-Calm TraceKind.log_change "accepted replicated log suffix" index
          (extend_log entries s) (record { idle = c.idle; thrown = c.thrown; sent = c.sent });
    core = refl;
  })
]

if-same {ℓ} : {A : Type ℓ} (b : Bool) (x : A) → (if b then x else x) ≡ x
if-same true x = refl
if-same false x = refl

pub or-true : (b : Bool) → (b || true) ≡ true
or-true true = refl
or-true false = refl
