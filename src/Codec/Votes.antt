-- ===== src/Codec/Votes.antt =====
-- Votes and the responses of both kinds, through the wire format and back.
use det_log.Prelude.{◌≡◌, refl, ◌<◌, ◌%◌, ◌^◌, Bool, true, false, [], ◌∷◌, ◌++◌, arith, eqb, ◌||◌}
use det_log.Model.{Bytes, RequestVote, RequestVoteResponse, AppendEntriesResponse}
use det_log.Codec.Reader
use det_log.Codec.Reader.{Reader, get_u8, get_u32, get_u64, get_bool}
use det_log.Codec.Message.{
  bit, valid_request_vote, write_request_vote, write_request_vote_response,
  write_append_entries_response,
}
use det_log.Codec.Decode.{
  read_request_vote, read_request_vote_response, read_append_entries_response,
}
use det_log.Codec.Written.{
  Writes, Reads, and_then-Writes, and_then-Reads, last-Reads, be, put_u8-Writes, put_be-Writes,
  get_u8-Reads, get_u32-Reads, get_u64-Reads,
}

pub record VoteFits (r : RequestVote) : Type 0 where
  pub term : r.term < 2 ^ 64
  pub candidate_id : r.candidate_id < 2 ^ 32
  pub last_log_index : r.last_log_index < 2 ^ 64
  pub last_log_term : r.last_log_term < 2 ^ 64
  pub valid : valid_request_vote r ≡ true

abbrev pub vote_bytes : RequestVote → Bytes
vote_bytes r =
    be 8 r.term ++ (be 4 r.candidate_id ++ (be 8 r.last_log_index ++ be 8 r.last_log_term))

pub write_request_vote-Writes :
    (r : RequestVote) → VoteFits r → Writes (write_request_vote r) (vote_bytes r)
unfolding write_request_vote
write_request_vote-Writes r f w h = rw (f.valid) (
    and_then-Writes _ _ (be 8 r.term) _ (put_be-Writes 8 r.term)
      (and_then-Writes _ _ (be 4 r.candidate_id) _ (put_be-Writes 4 r.candidate_id) (
        and_then-Writes _ _ (be 8 r.last_log_index) (be 8 r.last_log_term)
          (put_be-Writes 8 r.last_log_index) (put_be-Writes 8 r.last_log_term)))
      w h)

pub read_request_vote-Reads :
    (r : RequestVote) → VoteFits r → Reads read_request_vote (vote_bytes r) r
unfolding read_request_vote
read_request_vote-Reads r f =
    let from_index = be 8 r.last_log_index ++ be 8 r.last_log_term in
    and_then-Reads get_u64 _ (be 8 r.term) (be 4 r.candidate_id ++ from_index) r.term r
      (get_u64-Reads r.term f.term)
      (and_then-Reads get_u32 _ (be 4 r.candidate_id) from_index r.candidate_id r
        (get_u32-Reads r.candidate_id f.candidate_id)
        (and_then-Reads get_u64 _ (be 8 r.last_log_index) (be 8 r.last_log_term) r.last_log_index r
          (get_u64-Reads r.last_log_index f.last_log_index)
          (last-Reads get_u64 (λ last_log_term. record r { last_log_term = last_log_term })
            (be 8 r.last_log_term) r.last_log_term
            (get_u64-Reads r.last_log_term f.last_log_term))))

pub get_bool-bit-Reads : (b : Bool) → Reads get_bool (bit b % 256 ∷ []) b
unfolding get_bool Reader.and_then
get_bool-bit-Reads false r rest h = rw (get_u8-Reads 0 r rest h) refl
get_bool-bit-Reads true r rest h = rw (get_u8-Reads 1 r rest h) refl

pub record VoteResponseFits (r : RequestVoteResponse) : Type 0 where
  pub term : r.term < 2 ^ 64
  pub real : 0 < r.term

abbrev pub vote_response_bytes : RequestVoteResponse → Bytes
vote_response_bytes r = be 8 r.term ++ (bit r.vote_granted % 256 ∷ [])

pub write_request_vote_response-Writes :
    (r : RequestVoteResponse)
    → VoteResponseFits r
    → Writes (write_request_vote_response r) (vote_response_bytes r)
unfolding write_request_vote_response
write_request_vote_response-Writes r f w h =
    let real : eqb r.term 0 ≡ false = ground (arith, f.real) in
    rw real (
      and_then-Writes _ _ (be 8 r.term) _ (put_be-Writes 8 r.term)
        (put_u8-Writes (bit r.vote_granted)) w h)

pub read_request_vote_response-Reads :
    (r : RequestVoteResponse)
    → VoteResponseFits r
    → Reads read_request_vote_response (vote_response_bytes r) r
unfolding read_request_vote_response
read_request_vote_response-Reads r f =
    and_then-Reads get_u64 _ (be 8 r.term) (bit r.vote_granted % 256 ∷ []) r.term r
      (get_u64-Reads r.term f.term)
      (last-Reads get_bool (λ granted. record r { vote_granted = granted })
        (bit r.vote_granted % 256 ∷ []) r.vote_granted (get_bool-bit-Reads r.vote_granted))

pub record AppendResponseFits (r : AppendEntriesResponse) : Type 0 where
  pub term : r.term < 2 ^ 64
  pub rpc_id : r.rpc_id < 2 ^ 64
  pub match_index : r.match_index < 2 ^ 64
  pub conflict_index : r.conflict_index < 2 ^ 64
  pub conflict_term : r.conflict_term < 2 ^ 64
  pub real : 0 < r.term
  pub asked : 0 < r.rpc_id

abbrev pub append_response_bytes : AppendEntriesResponse → Bytes
append_response_bytes r =
    be 8 r.term
    ++ (be 8 r.rpc_id
        ++ ((bit r.success % 256 ∷ [])
            ++ (be 8 r.match_index ++ (be 8 r.conflict_index ++ be 8 r.conflict_term))))

pub write_append_entries_response-Writes :
    (r : AppendEntriesResponse)
    → AppendResponseFits r
    → Writes (write_append_entries_response r) (append_response_bytes r)
unfolding write_append_entries_response
write_append_entries_response-Writes r f w h =
    let real : (eqb r.term 0 || eqb r.rpc_id 0) ≡ false = ground (arith, f.real, f.asked) in
    rw real (
      and_then-Writes _ _ (be 8 r.term) _ (put_be-Writes 8 r.term)
        (and_then-Writes _ _ (be 8 r.rpc_id) _ (put_be-Writes 8 r.rpc_id) (
          and_then-Writes _ _ (bit r.success % 256 ∷ []) _ (put_u8-Writes (bit r.success)) (
            and_then-Writes _ _ (be 8 r.match_index) _ (put_be-Writes 8 r.match_index) (
              and_then-Writes _ _ (be 8 r.conflict_index) (be 8 r.conflict_term)
                (put_be-Writes 8 r.conflict_index) (put_be-Writes 8 r.conflict_term)))))
        w h)

pub read_append_entries_response-Reads :
    (r : AppendEntriesResponse)
    → AppendResponseFits r
    → Reads read_append_entries_response (append_response_bytes r) r
unfolding read_append_entries_response
read_append_entries_response-Reads r f =
    let from_conflict = be 8 r.conflict_index ++ be 8 r.conflict_term in
    let from_match = be 8 r.match_index ++ from_conflict in
    let from_success = (bit r.success % 256 ∷ []) ++ from_match in
    and_then-Reads get_u64 _ (be 8 r.term) (be 8 r.rpc_id ++ from_success) r.term r
      (get_u64-Reads r.term f.term)
      (and_then-Reads get_u64 _ (be 8 r.rpc_id) from_success r.rpc_id r
        (get_u64-Reads r.rpc_id f.rpc_id)
        (and_then-Reads get_bool _ (bit r.success % 256 ∷ []) from_match r.success r
          (get_bool-bit-Reads r.success)
          (and_then-Reads get_u64 _ (be 8 r.match_index) from_conflict r.match_index r
            (get_u64-Reads r.match_index f.match_index)
            (and_then-Reads get_u64 _ (be 8 r.conflict_index) (be 8 r.conflict_term)
              r.conflict_index r (get_u64-Reads r.conflict_index f.conflict_index)
              (last-Reads get_u64 (λ term. record r { conflict_term = term }) (be 8 r.conflict_term)
                r.conflict_term (get_u64-Reads r.conflict_term f.conflict_term))))))
