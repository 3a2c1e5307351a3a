-- ===== src/Raft/Safety.antt =====
-- The safety relation between two protocol states of a node, and the changes that keep it.
pub mod Commit
pub mod Election
pub mod Append
pub mod Response
pub mod Step
use det_log.Prelude.{
  ◌≡◌, refl, sym, ◌∙◌, ap, ap₂, subst, ◌≤◌, ◌<◌, ◌+◌, ◌-◌, ℕ, suc, zero, Bool, true, false, Option,
  none, some, List, [], ◌∷◌, ◌++◌, arith, length, if◌then◌else◌, take, take-take, take-replace,
  take-append, take-suc, length-append, length-take, get_elem?, get_elem?-lt,
}
use det_log.Model.{HardState, LogEntry, PersistBatch}
use det_log.StateMachine.{KvStateMachine, empty_machine}
use det_log.Raft.State.{Core, RaftNode}
use det_log.Raft.Log.{entry_at}
use det_log.Raft.Step.{batch_durable}
use det_log.Raft.Recover.{apply_optional}
use det_log.Raft.Quiet.{Quiet}

-- The commands of a log, applied in order.
unfoldable pub replay_from : KvStateMachine → List LogEntry → KvStateMachine
replay_from m [] = m
replay_from m (entry ∷ rest) = replay_from (apply_optional entry.command m) rest

abbrev pub replay : List LogEntry → KvStateMachine
replay log = replay_from empty_machine log

pub replay_from-append :
    (m : KvStateMachine) (xs ys : List LogEntry)
    → replay_from m (xs ++ ys) ≡ replay_from (replay_from m xs) ys
unfolding replay_from
replay_from-append m [] ys = refl
replay_from-append m (x ∷ xs) ys = replay_from-append (apply_optional x.command m) xs ys

pub record WellFormed (c : Core) : Type 0 where
  pub applied_in : c.last_applied ≤ c.commit_index
  pub commit_in : c.commit_index ≤ length c.log
  pub machine : c.state_machine ≡ replay (take c.last_applied c.log)

-- Terms, commit and apply indexes do not fall, a vote stays for its term, and what is committed
-- stays in the log.
pub record Advances (c d : Core) : Type 0 where
  pub term : c.hard_state.current_term ≤ d.hard_state.current_term
  pub vote :
      c.hard_state.current_term ≡ d.hard_state.current_term
      → (candidate : ℕ) → c.hard_state.voted_for ≡ some candidate
      → d.hard_state.voted_for ≡ some candidate
  pub commit : c.commit_index ≤ d.commit_index
  pub applied : c.last_applied ≤ d.last_applied
  pub committed : take c.commit_index d.log ≡ take c.commit_index c.log

abbrev pub Safe : Core → Core → Type 0
Safe c d = WellFormed c → WellFormed d × Advances c d

Advances-refl : (c : Core) → Advances c c
Advances-refl c = record {
  term = omega arith;
  vote = λ e candidate h. h;
  commit = omega arith;
  applied = omega arith;
  committed = refl;
}

Advances-trans : (c d e : Core) → Advances c d → Advances d e → Advances c e
Advances-trans c d e p q = record {
  term = omega (arith, p.term, q.term);
  vote = λ same candidate h.
      q.vote (omega (arith, p.term, q.term)) candidate
        (p.vote (omega (arith, p.term, q.term)) candidate h);
  commit = omega (arith, p.commit, q.commit);
  applied = omega (arith, p.applied, q.applied);
  committed =
      sym (take-take c.commit_index d.commit_index e.log p.commit)
      ∙ ap (take c.commit_index) q.committed
      ∙ take-take c.commit_index d.commit_index d.log p.commit
      ∙ p.committed;
}

pub Safe-refl : (c : Core) → Safe c c
Safe-refl c w = (w, Advances-refl c)

pub Safe-trans : (c d e : Core) → Safe c d → Safe d e → Safe c e
Safe-trans c d e p q w = let (v, a) = p w in let (u, b) = q v in (u, Advances-trans c d e a b)

pub Safe-eq : {c d : Core} → d ≡ c → Safe c d
Safe-eq {c} h = subst (Safe c) (sym h) (Safe-refl c)

pub Safe-Quiet : {s t : RaftNode} → Quiet s t → Safe s.core t.core
Safe-Quiet q = Safe-eq q.core

pub Safe-if :
    (b : Bool) (c : Core) (s t : RaftNode)
    → (b ≡ true → Safe c s.core)
    → (b ≡ false → Safe c t.core)
    → Safe c (if b then s else t).core
Safe-if true c s t p q = p refl
Safe-if false c s t p q = q refl

-- A new term, or a first vote in this term.
pub Safe-hard :
    (c : Core) (hard : HardState)
    → c.hard_state.current_term ≤ hard.current_term
    → (c.hard_state.current_term ≡ hard.current_term → c.hard_state.voted_for ≡ none)
    → Safe c (record c { hard_state = hard })
Safe-hard c hard h fresh w = (
  record { applied_in = w.applied_in; commit_in = w.commit_in; machine = w.machine },
  record {
    term = h;
    vote = λ e candidate v. cc (fresh e);
    commit = omega arith;
    applied = omega arith;
    committed = refl;
  },
)

pub Safe-durable : (c : Core) (batch : PersistBatch) → Safe c (batch_durable batch c)
unfolding batch_durable
Safe-durable c batch w = (
  record { applied_in = w.applied_in; commit_in = w.commit_in; machine = w.machine },
  record {
    term = omega arith;
    vote = λ e candidate h. h;
    commit = omega arith;
    applied = omega arith;
    committed = refl;
  },
)

pub Safe-commit :
    (c : Core) (index : ℕ)
    → c.commit_index ≤ index
    → index ≤ length c.log
    → Safe c (record c { commit_index = index })
Safe-commit c index h l w = (
  record { applied_in = omega (arith, w.applied_in); commit_in = l; machine = w.machine },
  record {
    term = omega arith;
    vote = λ e candidate h. h;
    commit = h;
    applied = omega arith;
    committed = refl;
  },
)

-- The suffix from `keep` on is replaced, and the committed prefix lies before it.
pub Safe-replace :
    (c : Core) (keep : ℕ) (entries : List LogEntry)
    → c.commit_index ≤ keep
    → Safe c (record c { log = take keep c.log ++ entries })
Safe-replace c keep entries h w = (
  record {
    applied_in = w.applied_in;
    commit_in = omega (
      arith,
      w.commit_in,
      length-append {0} (take keep c.log) entries,
      length-take {0} keep c.log,
    );
    machine =
        w.machine
        ∙ ap replay (
            sym (
              take-replace c.last_applied keep c.log entries (omega (arith, w.applied_in))
                (omega (arith, w.applied_in, w.commit_in))));
  },
  record {
    term = omega arith;
    vote = λ e candidate h. h;
    commit = omega arith;
    applied = omega arith;
    committed = take-replace c.commit_index keep c.log entries h w.commit_in;
  },
)

pub Safe-extend :
    (c : Core) (entries : List LogEntry) → Safe c (record c { log = c.log ++ entries })
Safe-extend c entries w = (
  record {
    applied_in = w.applied_in;
    commit_in = omega (arith, w.commit_in, length-append {0} c.log entries);
    machine =
        w.machine
        ∙ ap replay (
            sym (
              take-append c.last_applied c.log entries (omega (arith, w.applied_in, w.commit_in))));
  },
  record {
    term = omega arith;
    vote = λ e candidate h. h;
    commit = omega arith;
    applied = omega arith;
    committed = take-append c.commit_index c.log entries w.commit_in;
  },
)

-- The entry behind last_applied is applied.
pub Safe-apply :
    (c : Core) (entry : LogEntry)
    → c.last_applied < c.commit_index
    → entry_at c.log (suc c.last_applied) ≡ some entry
    → Safe c (record c {
      last_applied = suc c.last_applied;
      state_machine = apply_optional entry.command c.state_machine;
    })
unfolding entry_at replay_from
Safe-apply c entry h found w = (
  record {
    applied_in = omega arith;
    commit_in = w.commit_in;
    machine =
        ap (apply_optional entry.command) w.machine
        ∙ sym (
            ap replay (take-suc c.last_applied c.log found)
            ∙ replay_from-append empty_machine (take c.last_applied c.log) (entry ∷ []));
  },
  record {
    term = omega arith;
    vote = λ e candidate h. h;
    commit = omega arith;
    applied = omega arith;
    committed = refl;
  },
)
