-- ===== src/Raft/Durable/Election.antt =====
-- Elections and votes: what they send, they have stored.
use det_log.Prelude.{
  ◌≡◌, refl, ◌∙◌, sym, ap, ℕ, Bool, true, false, Option, none, String, eqb, ltb, if◌then◌else◌,
  length, u64_max,
}
use det_log.Model.{TraceKind}
use det_log.Raft.State.{Core, RaftNode, Continuation, is_follower}
use det_log.Raft.Emit.{trace, emit}
use det_log.Raft.Persist.{step_down, observe_term, become_follower}
use det_log.Raft.Step.{batch_durable}
use det_log.Raft.Election.{begin_election, stand, hard_batch, election_stored}
use det_log.Raft.Durable.{Settled, Firm, Calm, Post, Post-Firm, Post-if}
use det_log.Raft.Durable.Emits.{trace-Sent}
use det_log.Raft.Durable.Sends.{fail_storage-Firm}
use det_log.Raft.Durable.Votes.{election_stored-Firm}
use det_log.Raft.Durable.Begin.{begin_persist-Post}

pub trace-Calm :
    (kind : TraceKind) (detail : String) (index : ℕ) (s : RaftNode)
    → Calm s
    → Calm (trace kind detail index s)
unfolding trace emit
trace-Calm kind detail index s c = record {
  idle = c.idle;
  thrown = c.thrown;
  sent = trace-Sent kind detail index s c.sent;
}

pub begin_election-Post : (s : RaftNode) → Firm s → Post (begin_election s)
unfolding begin_election trace emit batch_durable
begin_election-Post s f =
    let t = stand s in
    let t1 = trace TraceKind.term_change "started election" 0 t in
    let t2 = trace TraceKind.role_change "became candidate" 0 t1 in
    let t3 = trace TraceKind.vote "recorded self vote" 0 t2 in
    let c : Calm t = record { idle = f.idle; thrown = f.thrown; sent = f.sent } in
    Post-if (eqb s.hard_state.current_term u64_max) _ _
      (λ _. Post-Firm (fail_storage-Firm "term counter overflow" s f))
      (λ _.
        begin_persist-Post (hard_batch t.hard_state) Continuation.after_election election_stored t3
          (trace-Calm TraceKind.vote _ 0 t2
            (trace-Calm TraceKind.role_change _ 0 t1 (trace-Calm TraceKind.term_change _ 0 t c)))
          (record { hard = refl; last = f.settled.last; commit = f.settled.commit }) refl
          (λ g. Post-Firm (election_stored-Firm t3 refl g)))

-- Stepping down may change the hard state, and nothing else of the protocol state.
pub record Yielded (s t : RaftNode) : Type 0 where
  pub calm : Calm t
  pub core : t.core ≡ record s.core { hard_state = t.hard_state }
  pub config : t.config ≡ s.config

observe_term-Yielded : (term : ℕ) (s : RaftNode) → Calm s → Yielded s (observe_term term s)
unfolding trace emit
observe_term-Yielded term s c = go (ltb s.hard_state.current_term term)
  where
    go :
        (b : Bool)
        → Yielded s (
            if b
            then trace TraceKind.term_change "observed a higher term" 0 (record s {
              core = record s.core {
                hard_state = record { current_term = term; voted_for = none };
              };
            })
            else s)
    go true = record {
      calm =
          trace-Calm TraceKind.term_change _ 0
            (record s {
              core = record s.core {
                hard_state = record { current_term = term; voted_for = none };
              };
            })
            (record { idle = c.idle; thrown = c.thrown; sent = c.sent });
      core = refl;
      config = refl;
    }
    go false = record { calm = c; core = refl; config = refl }

Yielded-if :
    (b : Bool) (s t u : RaftNode) → Yielded s t → Yielded s u → Yielded s (if b then t else u)
Yielded-if true s t u p q = p
Yielded-if false s t u p q = q

pub step_down-Yielded :
    (term : ℕ) (hint : Option ℕ) (s : RaftNode) → Calm s → Yielded s (step_down term hint false s)
unfolding step_down trace emit
step_down-Yielded term hint s c =
    let observed = observe_term-Yielded term s c in
    let t = become_follower hint (observe_term term s) in
    let y : Yielded s t = record {
      calm = record {
        idle = observed.calm.idle;
        thrown = observed.calm.thrown;
        sent = observed.calm.sent;
      };
      core = observed.core;
      config = observed.config;
    } in
    Yielded-if (is_follower s.role) s t (trace TraceKind.role_change "became follower" 0 t) y
      (record {
        calm = trace-Calm TraceKind.role_change "became follower" 0 t y.calm;
        core = y.core;
        config = y.config;
      })

-- With the hard state in the batch, the batch brings the disk up to date.
pub Yielded-Settled :
    (s t : RaftNode)
    → Firm s
    → Yielded s t
    → Settled (batch_durable (hard_batch t.hard_state) t.core)
unfolding batch_durable
Yielded-Settled s t f y = record {
  hard = refl;
  last =
      ap (λ (c : Core). c.durable_last_log_index) y.core
      ∙ f.settled.last
      ∙ ap (λ (c : Core). length c.log) (sym y.core);
  commit =
      ap (λ (c : Core). c.durable_commit_index) y.core
      ∙ f.settled.commit
      ∙ ap (λ (c : Core). c.commit_index) (sym y.core);
}
