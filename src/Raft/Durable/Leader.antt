-- ===== src/Raft/Durable/Leader.antt =====
-- Timers, client requests and responses at the leader.
use det_log.Prelude.{
  ◌≡◌, refl, ℕ, true, false, ◌&&◌, Option, none, some, inl, inr, Option-cases, eqb, ltb,
  if◌then◌else◌, and_iff, max, inc64,
}
use det_log.Prelude.Key.{nat_key}
use det_log.Prelude.Map
use det_log.Model.{AppendEntriesResponse, session_key}
use det_log.Raft.State.{
  RaftNode, RaftRole, PeerProgress, InflightAppend, is_leader, is_idle, is_unavailable,
}
use det_log.Raft.Replicate.{send_append, maybe_advance_commit}
use det_log.Raft.Response.{
  send_next, set_progress, acknowledge, take_response, match_response, backed_off,
  on_append_entries_response,
}
use det_log.Raft.Durable.{
  Firm, Post, Outcome, failed, settled, waiting, Post-Firm, Post-if, Firm-same,
}
use det_log.Raft.Durable.Sends.{send_append-Firm}
use det_log.Raft.Durable.Apply.{maybe_advance_commit-Post}
use det_log.Raft.Durable.Become.{observe_response_term-Post}

-- An idle node that serves has an up-to-date disk.
pub idle-Firm :
    (s : RaftNode) → Post s → s.pending_storage ≡ none → is_unavailable s.role ≡ false → Firm s
idle-Firm s p idle serving = go p.outcome
  where
    go : Outcome s → Firm s
    go (failed _ gone) = absurd (cc)
    go (settled _ h) = record { idle = idle; settled = h; thrown = p.thrown; sent = p.sent }
    go (waiting q at h k) = absurd (cc)

pub is_idle-none : (s : RaftNode) → is_idle s ≡ true → s.pending_storage ≡ none
is_idle-none s h = elim (Option-cases s.pending_storage) [
  | inl e ↦ e
  | inr (p, e) ↦ absurd (cc (rw e at h))
]

leader-serves : (s : RaftNode) → is_leader s.role ≡ true → is_unavailable s.role ≡ false
leader-serves s h = go s.role h
  where
    go : (r : RaftRole) → is_leader r ≡ true → is_unavailable r ≡ false
    go RaftRole.leader h = refl
    go RaftRole.follower h = absurd (cc)
    go RaftRole.candidate h = absurd (cc)
    go RaftRole.unavailable h = absurd (cc)

send_next-Post : (from : ℕ) (s : RaftNode) → Post s → Post (send_next from s)
unfolding send_next
send_next-Post from s p =
    Post-if (is_leader s.role && is_idle s) _ s
      (λ ready.
        let both = (and_iff _ _).0 ready in
        found (idle-Firm s p (is_idle-none s both.1) (leader-serves s both.0))
          (Map.find from s.peers))
      (λ _. p)
  where
    found :
        Firm s
        → (o : Option PeerProgress)
        → Post (elim o as (λ _. RaftNode) [
          | none ↦ s
          | some current ↦
              if ltb current.match_index s.durable_last_log_index then send_append from s else s
        ])
    found f none = Post-Firm f
    found f (some current) =
        Post-if (ltb current.match_index s.durable_last_log_index) _ s
          (λ _. Post-Firm (send_append-Firm from s f)) (λ _. Post-Firm f)

acknowledge-Post :
    (from : ℕ) (sent : InflightAppend) (progress : PeerProgress) (s : RaftNode)
    → Firm s
    → Post (acknowledge from sent progress s)
unfolding acknowledge
acknowledge-Post from sent progress s f =
    let matched = max progress.match_index sent.last_index in
    let t =
      set_progress from
        (record {
          next_index = inc64 matched;
          match_index = matched;
          inflight = none;
          inflight_heartbeat_age = 0;
        })
        s in
    send_next-Post from (maybe_advance_commit t)
      (maybe_advance_commit-Post t (Firm-same refl refl refl refl f))

take_response-Post :
    (from : ℕ) (response : AppendEntriesResponse) (sent : InflightAppend) (progress : PeerProgress)
    (s : RaftNode)
    → Firm s
    → Post (take_response from response sent progress s)
unfolding take_response
take_response-Post from response sent progress s f =
    let cleared = record progress { inflight = none; inflight_heartbeat_age = 0 } in
    let back =
      set_progress from (record cleared { next_index = backed_off response progress s }) s in
    Post-if response.success _ _
      (λ _.
        Post-if (ltb response.match_index sent.last_index) (set_progress from cleared s) _
          (λ _. Post-Firm (Firm-same refl refl refl refl f))
          (λ _. acknowledge-Post from sent progress s f))
      (λ _. Post-Firm (send_append-Firm from back (Firm-same refl refl refl refl f)))

match_response-Post :
    (from : ℕ) (response : AppendEntriesResponse) (o : Option PeerProgress) (s : RaftNode)
    → Firm s
    → Post (match_response from response o s)
unfolding match_response
match_response-Post from response none s f = Post-Firm f
match_response-Post from response (some progress) s f = go progress.inflight
  where
    go :
        (o : Option InflightAppend)
        → Post (elim o as (λ _. RaftNode) [
          | none ↦ s
          | some sent ↦
              if eqb sent.rpc_id response.rpc_id
              then take_response from response sent progress s
              else s
        ])
    go none = Post-Firm f
    go (some sent) =
        Post-if (eqb sent.rpc_id response.rpc_id) _ s
          (λ _. take_response-Post from response sent progress s f) (λ _. Post-Firm f)

pub on_append_entries_response-Post :
    (from : ℕ) (response : AppendEntriesResponse) (s : RaftNode)
    → Firm s
    → Post (on_append_entries_response from response s)
unfolding on_append_entries_response
on_append_entries_response-Post from response s f =
    Post-if (ltb s.hard_state.current_term response.term) _ _
      (λ _. observe_response_term-Post response.term s f)
      (λ _.
        Post-if (is_leader s.role && eqb response.term s.hard_state.current_term) _ s
          (λ _. match_response-Post from response (Map.find from s.peers) s f) (λ _. Post-Firm f))
