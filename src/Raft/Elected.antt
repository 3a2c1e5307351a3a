-- ===== src/Raft/Elected.antt =====
-- How a candidate of src/raft.cpp becomes leader: the votes of a quorum, one message after another.
pub mod Asking
pub mod Campaign
use det_log.Prelude.{
  ◌≡◌, refl, sym, ◌∙◌, ap, subst, inl, inr, ℕ, zero, suc, ◌+◌, ◌≤◌, ◌<◌, Bool, true, false, ◌&&◌,
  not, List, [], ◌∷◌, ◌++◌, Option, none, some, arith, Bool-cases, if◌then◌else◌, ltb, leb, eqb,
  length, u64_max, map,
}
use det_log.Prelude.Key.{nat_key}
use det_log.Prelude.Map
use det_log.Prelude.Map.{Map}
use det_log.Model.{Message, RequestVoteResponse, batch_empty, TraceKind}
use det_log.Raft.State.{
  RaftNode, RaftRole, RaftEvent, PendingStorage, Continuation, is_candidate, is_leader, is_idle,
  is_unavailable, quorum_size, RaftConfig,
}
use det_log.Raft.Log.{last_log_index, can_append}
use det_log.Raft.Emit.{trace, emit}
use det_log.Raft.Persist.{begin_persist}
use det_log.Raft.Election.{
  lead, no_op, no_op_stored, entry_batch, append_no_op, become_leader, record_vote, count_votes,
  on_request_vote_response,
}
use det_log.Raft.Step.{
  is_member, on_protocol_message, on_message, dispatch, drain, dispatch_all, step, is_completion,
}
use det_log.Raft.Reachable.{run}

-- The node can append its no-op and give the storage operation a number.
pub record CanLead (s : RaftNode) : Type 0 where
  pub index : eqb (last_log_index s.log) u64_max ≡ false
  pub room : can_append s.config s.log s.commit_index (no_op s) ≡ true
  pub operation : eqb s.next_storage_op_id 0 ≡ false

-- `t` leads in the term of `s`, and stores the no-op behind the log of `s`.
pub record Elected (s t : RaftNode) : Type 0 where
  pub role : t.role ≡ RaftRole.leader
  pub term : t.hard_state ≡ s.hard_state
  pub log : t.log ≡ s.log ++ no_op s ∷ []
  pub storing :
      t.pending_storage
      ≡ some (record {
        op_id = s.next_storage_op_id;
        batch = entry_batch (no_op s);
        after_success = Continuation.after_no_op;
      })
  pub deferred : t.deferred_events ≡ s.deferred_events

become_leader-Elected :
    (s : RaftNode) → s.pending_storage ≡ none → CanLead s → Elected s (become_leader s)
unfolding become_leader append_no_op trace emit begin_persist batch_empty
become_leader-Elected s idle c =
    rw (c.index, c.room, idle, c.operation)
      (record { role = refl; term = refl; log = refl; storing = refl; deferred = refl })

-- A vote for the node `self` in a term.
abbrev pub grant : ℕ → ℕ → ℕ → RaftEvent
grant self term from = RaftEvent.message_received (record {
  sender = from;
  receiver = self;
  message = Message.request_vote_response (record { term = term; vote_granted = true });
})

-- A candidate that waits for votes alone.
pub record Standing (self term : ℕ) (s : RaftNode) : Type 0 where
  pub node : s.config.node_id ≡ self
  pub current : s.hard_state.current_term ≡ term
  pub candidate : s.role ≡ RaftRole.candidate
  pub idle : s.pending_storage ≡ none
  pub none_deferred : s.deferred_events ≡ []

-- The vote of another member, that is not counted yet.
pub record NewVote (s : RaftNode) (from : ℕ) : Type 0 where
  pub other : eqb from s.config.node_id ≡ false
  pub member : is_member s.config from ≡ true
  pub uncounted : Map.find from s.votes_received ≡ none

abbrev received : RaftNode → RaftNode
received s = trace TraceKind.receive "protocol message received" 0 (record s { effects = [] })

-- The node behind a new vote, before the votes are compared with the quorum.
abbrev counted : ℕ → RaftNode → RaftNode
counted from s =
    trace TraceKind.vote "received vote" 0
      (record (received s) { votes_received = Map.put from tt s.votes_received })

record_vote-counted :
    (from : ℕ) (s : RaftNode)
    → Map.find from s.votes_received ≡ none
    → record_vote from (received s) ≡ counted from s
unfolding record_vote trace emit
record_vote-counted from s new = rw (new, record_vote) refl

dispatch-grant :
    (self term from : ℕ) (s : RaftNode)
    → Standing self term s
    → NewVote s from
    → dispatch (grant self term from) (record s { effects = [] }) ≡ count_votes (counted from s)
unfolding dispatch on_message on_protocol_message on_request_vote_response trace emit
dispatch-grant self term from s h v =
    let this : eqb self s.config.node_id ≡ true = ground (arith, h.node) in
    let low : ltb s.hard_state.current_term term ≡ false = ground (arith, h.current) in
    let same : eqb term s.hard_state.current_term ≡ true = ground (arith, h.current) in
    let stands : is_candidate s.role ≡ true = ap is_candidate h.candidate in
    rw (this, v.other, v.member, low, stands, same)
      (ap count_votes (record_vote-counted from s v.uncounted))

pub step-serves :
    (event : RaftEvent) (s : RaftNode)
    → is_completion event ≡ false
    → s.pending_storage ≡ none
    → is_unavailable s.role ≡ false
    → step event s ≡ dispatch_all event (record s { effects = [] })
unfolding step
step-serves event s message idle serves =
    let free : is_idle s ≡ true =
      ap (λ pending. elim pending [ none ↦ true | some p ↦ false ]) idle in
    rw (message, free, serves) refl

-- The vote is all that the call handles.
step-grant :
    (self term from : ℕ) (s : RaftNode)
    → Standing self term s
    → NewVote s from
    → (count_votes (counted from s)).deferred_events ≡ []
    → step (grant self term from) s ≡ count_votes (counted from s)
unfolding dispatch_all drain
step-grant self term from s h v bare =
    let handled = dispatch-grant self term from s h v in
    step-serves (grant self term from) s refl h.idle (ap is_unavailable h.candidate)
    ∙ rw (handled, bare) refl

length-put :
    (k : ℕ) (m : Map ℕ (Unit {0})) → Map.find k m ≡ none → length (Map.put k tt m) ≡ suc (length m)
unfolding Map.find Map.put
length-put k [] new = refl
length-put k ((j, v) ∷ m) new = elim (Bool-cases (nat_key.eq.equal j k)) [
  | inl same ↦ let found = rw same at new in absurd (cc (found))
  | inr other ↦
      let rest = rw other at new in
      elim (Bool-cases (nat_key.blt k j)) [
        | inl below ↦ rw (other, below) refl
        | inr above ↦ rw (other, above) (ap suc (length-put k m rest))
      ]
]

-- Each voter is another member whose vote is not counted yet.
abbrev pub NewVotes : RaftConfig → Map ℕ (Unit {0}) → List ℕ → Type 0
NewVotes config votes [] = Unit {0}
NewVotes config votes (from ∷ rest) =
    (eqb from config.node_id ≡ false)
    × (is_member config from ≡ true)
    × (Map.find from votes ≡ none)
    × NewVotes config (Map.put from tt votes) rest

counted-Standing :
    (self term from : ℕ) (s : RaftNode) → Standing self term s → Standing self term (counted from s)
unfolding trace emit
counted-Standing self term from s h = record {
  node = h.node;
  current = h.current;
  candidate = h.candidate;
  idle = h.idle;
  none_deferred = h.none_deferred;
}

counted-CanLead : (from : ℕ) (s : RaftNode) → CanLead s → CanLead (counted from s)
unfolding trace emit
counted-CanLead from s c = record { index = c.index; room = c.room; operation = c.operation }

counted-Elected : (from : ℕ) (s t : RaftNode) → Elected (counted from s) t → Elected s t
unfolding trace emit
counted-Elected from s t e = record {
  role = e.role;
  term = e.term;
  log = e.log;
  storing = e.storing;
  deferred = e.deferred;
}

-- The last vote of a quorum.
grant-Elected :
    (self term from : ℕ) (s : RaftNode)
    → Standing self term s
    → CanLead s
    → NewVote s from
    → length s.votes_received + 1 ≡ quorum_size s.config
    → Elected s (step (grant self term from) s)
unfolding count_votes trace emit
grant-Elected self term from s h c v enough =
    let size = length-put from s.votes_received v.uncounted in
    let wins : leb (quorum_size s.config) (length (Map.put from tt s.votes_received)) ≡ true =
      ground (arith, size, enough) in
    let leads = become_leader-Elected (counted from s) h.idle (counted-CanLead from s c) in
    let counts : count_votes (counted from s) ≡ become_leader (counted from s) = rw wins refl in
    let bare : (count_votes (counted from s)).deferred_events ≡ [] =
      ap (λ (t : RaftNode). t.deferred_events) counts ∙ leads.deferred ∙ h.none_deferred in
    subst (λ t. Elected s t) (sym (step-grant self term from s h v bare ∙ counts))
      (counted-Elected from s (become_leader (counted from s)) leads)

-- A vote short of a quorum.
grant-counted :
    (self term from : ℕ) (s : RaftNode)
    → Standing self term s
    → NewVote s from
    → length s.votes_received + 1 < quorum_size s.config
    → step (grant self term from) s ≡ counted from s
unfolding count_votes trace emit
grant-counted self term from s h v few =
    let size = length-put from s.votes_received v.uncounted in
    let short : leb (quorum_size s.config) (length (Map.put from tt s.votes_received)) ≡ false =
      ground (arith, size, few) in
    let counts : count_votes (counted from s) ≡ counted from s = rw short refl in
    step-grant self term from s h v
      (ap (λ (t : RaftNode). t.deferred_events) counts ∙ h.none_deferred)
    ∙ counts

-- A candidate that hears from a quorum, and could append its no-op, leads: let it wait for votes alone,
-- with its log below the last index, room for its no-op, and a number left for a storage operation. When
-- the votes of other members arrive, one message each and in any order, and with those counted before
-- they are as many as a quorum, then the node leads in its term and stores its no-op.
pub run_grants-Elected :
    (self term : ℕ) (voters : List ℕ) (s : RaftNode)
    → Standing self term s
    → CanLead s
    → NewVotes s.config s.votes_received voters
    → length s.votes_received < quorum_size s.config
    → length s.votes_received + length voters ≡ quorum_size s.config
    → Elected s (run (map (grant self term) voters) s)
unfolding run trace emit
run_grants-Elected self term [] s h c new few enough = absurd (omega (arith, few, enough))
run_grants-Elected self term (from ∷ []) s h c (other, member, uncounted, _) few enough =
    grant-Elected self term from s h c
      (record { other = other; member = member; uncounted = uncounted }) enough
run_grants-Elected self term (from ∷ (next ∷ rest)) s h c (other, member, uncounted, new) few
      enough =
    let v : NewVote s from = record { other = other; member = member; uncounted = uncounted } in
    let size = length-put from s.votes_received uncounted in
    let one_more = grant-counted self term from s h v (omega (arith, enough)) in
    subst (λ t. Elected s (run (map (grant self term) (next ∷ rest)) t)) (sym one_more)
      (counted-Elected from s (run (map (grant self term) (next ∷ rest)) (counted from s)) (
        run_grants-Elected self term (next ∷ rest) (counted from s)
          (counted-Standing self term from s h) (counted-CanLead from s c) new
          (omega (arith, size, enough)) (omega (arith, size, enough))))
