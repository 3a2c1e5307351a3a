-- ===== src/Raft/Durable/Accept.antt =====
-- on_append_entries, from the suffix that is stored to the whole handler.
use det_log.Prelude.{
  ◌≡◌, refl, ◌∙◌, sym, ap, ℕ, false, Option, none, some, List, [], ◌∷◌, eqb, ltb, leb, is_some,
  if◌then◌else◌, length, arith,
}
use det_log.Model.{HardState, LogEntry, AppendEntries}
use det_log.Raft.State.{Core, RaftNode, is_follower}
use det_log.Raft.Log.{last_log_index, term_at}
use det_log.Raft.Emit.{trace, emit}
use det_log.Raft.Persist.{step_down}
use det_log.Raft.Step.{batch_durable, or_value}
use det_log.Raft.Election.{optional_hard}
use det_log.Raft.Append.{
  entries_valid, reject_append, replace_suffix, last_index_or, store_suffix, check_append,
  follow_leader, on_append_entries,
}
use det_log.Raft.Entries.{Remaining}
use det_log.Raft.Safety.Append.{valid-Remaining, replace_suffix-length}
use det_log.Raft.Durable.{
  Settled, Firm, Calm, Post, Calm-Firm, Post-Firm, Post-if, Firm-same, Firm-if,
}
use det_log.Raft.Durable.Emits.{fail_storage-Post}
use det_log.Raft.Durable.Sends.{send_message-Firm}
use det_log.Raft.Durable.Votes.{reject_stored-Firm}
use det_log.Raft.Durable.Begin.{persist_then-Post}
use det_log.Raft.Durable.Election.{step_down-Yielded, Yielded-Settled}
use det_log.Raft.Durable.Append.{finish_append-Post, or-true, replace_suffix-Replaced}

store_suffix-Post :
    (from : ℕ) (request : AppendEntries) (stored : Option HardState) (rest : List LogEntry)
    (s : RaftNode)
    → Calm s
    → or_value stored s.durable_hard_state ≡ s.hard_state
    → s.durable_last_log_index ≡ length s.log
    → s.durable_commit_index ≡ s.commit_index
    → Remaining s.log (last_index_or request.prev_log_index request.entries) rest
    → Post (store_suffix from request stored rest s)
unfolding store_suffix
store_suffix-Post from request stored [] s c a b d h =
    finish_append-Post from request stored none [] s c a b d h
store_suffix-Post from request stored (entry ∷ rest) s c a b d h =
    let t = replace_suffix entry.index (entry ∷ rest) s in
    let r = replace_suffix-Replaced entry.index (entry ∷ rest) s c in
    let truncate_from = if leb entry.index (last_log_index s.log) then some entry.index else none in
    Post-if (leb entry.index s.commit_index) _ _
      (λ _.
        fail_storage-Post "leader attempted to overwrite a committed entry" s c.idle c.thrown
          c.sent)
      λ above.
        finish_append-Post from request stored truncate_from (entry ∷ rest) t r.calm
          (ap (λ (x : Core). or_value stored x.durable_hard_state) r.core
            ∙ a
            ∙ ap (λ (x : Core). x.hard_state) (sym r.core))
          (rw (or-true (is_some truncate_from)) refl)
          (ap (λ (x : Core). x.durable_commit_index) r.core
            ∙ d
            ∙ ap (λ (x : Core). x.commit_index) (sym r.core))
          (omega (arith, h, replace_suffix-length entry rest s h.1 h.0))

reject_append-Post :
    (from rpc_id conflict_index conflict_term : ℕ) (stored : Option HardState) (s : RaftNode)
    → Calm s
    → Settled (batch_durable (optional_hard stored) s.core)
    → Post (reject_append from rpc_id conflict_index conflict_term stored s)
unfolding reject_append
reject_append-Post from rpc_id conflict_index conflict_term stored s c h =
    persist_then-Post (optional_hard stored) _ _ s c h tt
      (λ f. Post-Firm (reject_stored-Firm from rpc_id conflict_index conflict_term s f))

check_append-Post :
    (from : ℕ) (request : AppendEntries) (stored : Option HardState) (s : RaftNode)
    → Calm s
    → Settled (batch_durable (optional_hard stored) s.core)
    → Post (check_append from request stored s)
unfolding check_append batch_durable
check_append-Post from request stored s c h =
    Post-if (entries_valid s.config request) _ _
      (λ valid.
        Post-if (ltb (last_log_index s.log) request.prev_log_index) _ _
          (λ _. reject_append-Post from request.rpc_id _ 0 stored s c h)
          (λ inside.
            Post-if (eqb (term_at s.log request.prev_log_index) request.prev_log_term) _ _
              (λ _.
                store_suffix-Post from request stored _ s c h.hard h.last h.commit
                  (valid-Remaining request s valid (ground arith)))
              (λ _. reject_append-Post from request.rpc_id _ _ stored s c h)))
      (λ _. reject_append-Post from request.rpc_id _ 0 stored s c h)

-- With the term already known, stepping down changes nothing of the protocol state.
step_down-hard :
    (term : ℕ) (hint : Option ℕ) (s : RaftNode)
    → ltb s.hard_state.current_term term ≡ false
    → (step_down term hint false s).hard_state ≡ s.hard_state
unfolding step_down trace emit
step_down-hard term hint s known = ground (arith, known)

follow_leader-Firm :
    (from term : ℕ) (s : RaftNode)
    → Firm s
    → ltb s.hard_state.current_term term ≡ false
    → Firm (follow_leader from term s)
unfolding follow_leader
follow_leader-Firm from term s f known =
    let y = step_down-Yielded term (some from) s (Calm-Firm f) in
    let same =
      y.core
      ∙ ap (λ (h : HardState). record s.core { hard_state = h })
          (step_down-hard term (some from) s known) in
    Firm-if (is_follower s.role) (record s { leader_hint = some from }) _
      (λ _. Firm-same refl refl refl refl f)
      (λ _. record {
        idle = y.calm.idle;
        settled = rw same f.settled;
        thrown = y.calm.thrown;
        sent = y.calm.sent;
      })

pub on_append_entries-Post :
    (from : ℕ) (request : AppendEntries) (s : RaftNode)
    → Firm s
    → Post (on_append_entries from request s)
unfolding on_append_entries batch_durable
on_append_entries-Post from request s f =
    let t = step_down request.term (some from) false s in
    let u = follow_leader from request.term s in
    let y = step_down-Yielded request.term (some from) s (Calm-Firm f) in
    Post-if (eqb request.term 0) s _ (λ _. Post-Firm f)
      λ _.
        Post-if (eqb request.leader_id from) _ s
          (λ _.
            Post-if (ltb request.term s.hard_state.current_term) _ _
              (λ _. Post-Firm (
                send_message-Firm from _ s
                  (ap (λ (h : HardState). h.current_term) (sym f.settled.hard), (λ e. absurd (cc)))
                  f))
              (λ _.
                Post-if (ltb s.hard_state.current_term request.term) _ _
                  (λ _.
                    check_append-Post from request (some t.hard_state) t y.calm
                      (Yielded-Settled s t f y))
                  (λ known.
                    let g = follow_leader-Firm from request.term s f known in
                    check_append-Post from request none u (Calm-Firm g) (record {
                      hard = g.settled.hard;
                      last = g.settled.last;
                      commit = g.settled.commit;
                    }))))
          (λ _. Post-Firm f)
