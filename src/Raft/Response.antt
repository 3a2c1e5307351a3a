-- ===== src/Raft/Response.antt =====
-- src/raft.cpp: on_append_entries_response, at the leader.
use det_log.Prelude.{ℕ, ◌-◌, min, max, ◌&&◌, Option, none, some, if◌then◌else◌, inc64, ltb, eqb}
use det_log.Prelude.Key.{nat_key, option_eq}
use det_log.Prelude.Map
use det_log.Model.{AppendEntriesResponse, entry_eq}
use det_log.Raft.State.{RaftNode, PeerProgress, InflightAppend, is_leader, is_idle}
use det_log.Raft.Log.{last_index_of_term}
use det_log.Raft.Emit.{◌▹◌}
use det_log.Raft.Replicate.{send_append, maybe_advance_commit}
use det_log.Raft.Election.{observe_response_term}

abbrev pub set_progress : ℕ → PeerProgress → RaftNode → RaftNode
set_progress peer progress s = record s { peers = Map.put peer progress s.peers }

-- `if (role == leader && !pending_storage)` and so on, after the commit index has moved.
unfoldable pub send_next : ℕ → RaftNode → RaftNode
send_next from s =
    if is_leader s.role && is_idle s
    then elim (Map.find from s.peers) [
      | none ↦ s
      | some current ↦
          if ltb current.match_index s.durable_last_log_index then send_append from s else s
    ]
    else s

unfoldable pub acknowledge : ℕ → InflightAppend → PeerProgress → RaftNode → RaftNode
acknowledge from sent progress s =
    let matched = max progress.match_index sent.last_index in
    set_progress from
      (record {
        next_index = inc64 matched;
        match_index = matched;
        inflight = none;
        inflight_heartbeat_age = 0;
      })
      s
    ▹ maybe_advance_commit
    ▹ send_next from

-- Where to go on after a rejection.
unfoldable pub hinted_next : AppendEntriesResponse → RaftNode → ℕ
hinted_next response s =
    if eqb response.conflict_term 0
    then response.conflict_index
    else elim (last_index_of_term s.log response.conflict_term) [
      | none ↦ response.conflict_index
      | some matching ↦ inc64 matching
    ]

unfoldable pub backed_off : AppendEntriesResponse → PeerProgress → RaftNode → ℕ
backed_off response progress s =
    let hinted = hinted_next response s in
    let next =
      if eqb hinted 0
      then (if ltb 1 progress.next_index then progress.next_index - 1 else 1)
      else hinted in
    max (min next (inc64 s.durable_last_log_index)) (inc64 progress.match_index)

-- The response answers the request in flight.
unfoldable pub take_response :
    ℕ → AppendEntriesResponse → InflightAppend → PeerProgress → RaftNode → RaftNode
take_response from response sent progress s =
    let cleared = record progress { inflight = none; inflight_heartbeat_age = 0 } in
    if response.success
    then (if ltb response.match_index sent.last_index
        then set_progress from cleared s
        else acknowledge from sent progress s)
    else (set_progress from (record cleared { next_index = backed_off response progress s }) s
        ▹ send_append from)

unfoldable pub match_response :
    ℕ → AppendEntriesResponse → Option PeerProgress → RaftNode → RaftNode
match_response from response none s = s
match_response from response (some progress) s = elim progress.inflight [
  | none ↦ s
  | some sent ↦
      if eqb sent.rpc_id response.rpc_id then take_response from response sent progress s else s
]

unfoldable pub on_append_entries_response : ℕ → AppendEntriesResponse → RaftNode → RaftNode
on_append_entries_response from response s =
    if ltb s.hard_state.current_term response.term
    then observe_response_term response.term s
    else if is_leader s.role && eqb response.term s.hard_state.current_term
    then match_response from response (Map.find from s.peers) s
    else s
