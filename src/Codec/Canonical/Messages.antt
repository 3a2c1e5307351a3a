-- ===== src/Codec/Canonical/Messages.antt =====
-- Messages that src/codec.cpp decodes are encoded back to the same bytes.
use det_log.Codec.Canonical.Appends.{read_append_entries-Taken}
use det_log.Prelude.{
  ◌≡◌, refl, sym, ◌∙◌, ap, subst, ◌%◌, Bool, true, false, Option, some, [], ◌∷◌, arith, length,
  if◌then◌else◌,
}
use det_log.Model.{Bytes, Message, RequestVote, RequestVoteResponse, AppendEntriesResponse}
use det_log.Codec.{Limits, Result, success, failure, header_bytes}
use det_log.Codec.Reader.{Reader, new_reader, get_be, get_bool}
use det_log.Codec.Frame.{WireType, type_code, ParsedFrame, parse_frame}
use det_log.Codec.Message.{bit, valid_request_vote, message_type, encode_message}
use det_log.Codec.Decode.{
  read_request_vote, read_request_vote_response, read_append_entries_response, read_append_entries,
  accept_if, valid_response, valid_append_response, decode_typed, decode_message,
}
use det_log.Codec.Framed.{Room, frame_bytes}
use det_log.Codec.Votes.{
  VoteFits, vote_bytes, VoteResponseFits, vote_response_bytes, AppendResponseFits,
  append_response_bytes,
}
use det_log.Codec.Messages.{MessageFits, message_bytes, decode_message-encode_message}
use det_log.Codec.Canonical.{
  Octets, Taken, Taken-trans, and_then-some, returned, get_u32-Taken, get_u64-Taken, get_bool-Taken,
}
use det_log.Codec.Canonical.Headers.{only_if, success_injective}
use det_log.Codec.Canonical.Frames.{Decoded, decode_exact-Decoded, parsed_ok, read_whole}

read_request_vote-Taken :
    (r s : Reader) (vote : RequestVote)
    → Octets r.left
    → read_request_vote r ≡ (some vote, s)
    → Taken r s (vote_bytes vote) × (valid_request_vote vote ≡ true → VoteFits vote)
unfolding read_request_vote
read_request_vote-Taken r s vote octets h =
    let (term, t1, read1, h1) = and_then-some (get_be 64 8 0 r) _ h in
    let (taken1, word1) = get_u64-Taken r t1 term octets read1 in
    let (candidate, t2, read2, h2) = and_then-some (get_be 32 4 0 t1) _ h1 in
    let (taken2, word2) = get_u32-Taken t1 t2 candidate taken1.octets read2 in
    let (index, t3, read3, h3) = and_then-some (get_be 64 8 0 t2) _ h2 in
    let (taken3, word3) = get_u64-Taken t2 t3 index taken2.octets read3 in
    let (last, t4, read4, h4) = and_then-some (get_be 64 8 0 t3) _ h3 in
    let (taken4, word4) = get_u64-Taken t3 t4 last taken3.octets read4 in
    let (same, place) = returned h4 in
    let made : RequestVote = record {
      term = term;
      candidate_id = candidate;
      last_log_index = index;
      last_log_term = last;
    } in
    let taken : Taken r t4 (vote_bytes made) =
      Taken-trans taken1 (Taken-trans taken2 (Taken-trans taken3 taken4)) in
    (
      subst (λ s. Taken r s (vote_bytes vote)) place
          (subst (λ vote. Taken r t4 (vote_bytes vote)) same taken),
      subst (λ vote. valid_request_vote vote ≡ true → VoteFits vote) same
          (λ valid. record {
            term = word1;
            candidate_id = word2;
            last_log_index = word3;
            last_log_term = word4;
            valid = valid;
          }),
    )

bit-flag : (answer : Bool) → (if answer then 1 else 0) ≡ bit answer % 256
bit-flag true = refl
bit-flag false = refl

read_request_vote_response-Taken :
    (r s : Reader) (response : RequestVoteResponse)
    → Octets r.left
    → read_request_vote_response r ≡ (some response, s)
    → Taken r s (vote_response_bytes response)
      × (valid_response response ≡ true → VoteResponseFits response)
unfolding read_request_vote_response valid_response
read_request_vote_response-Taken r s response octets h =
    let (term, t1, read1, h1) = and_then-some (get_be 64 8 0 r) _ h in
    let (taken1, word1) = get_u64-Taken r t1 term octets read1 in
    let (granted, t2, read2, h2) = and_then-some (get_bool t1) _ h1 in
    let taken2 = get_bool-Taken t1 t2 granted taken1.octets read2 in
    let (same, place) = returned h2 in
    let made : RequestVoteResponse = record { term = term; vote_granted = granted } in
    let taken : Taken r t2 (vote_response_bytes made) =
      Taken-trans taken1 (subst (λ b. Taken t1 t2 (b ∷ [])) (bit-flag granted) taken2) in
    (
      subst (λ s. Taken r s (vote_response_bytes response)) place
          (subst (λ response. Taken r t2 (vote_response_bytes response)) same taken),
      subst (λ response. valid_response response ≡ true → VoteResponseFits response) same
          (λ valid. record { term = word1; real = ground (arith, valid) }),
    )

read_append_entries_response-Taken :
    (r s : Reader) (response : AppendEntriesResponse)
    → Octets r.left
    → read_append_entries_response r ≡ (some response, s)
    → Taken r s (append_response_bytes response)
      × (valid_append_response response ≡ true → AppendResponseFits response)
unfolding read_append_entries_response valid_append_response
read_append_entries_response-Taken r s response octets h =
    let (term, t1, read1, h1) = and_then-some (get_be 64 8 0 r) _ h in
    let (taken1, word1) = get_u64-Taken r t1 term octets read1 in
    let (rpc_id, t2, read2, h2) = and_then-some (get_be 64 8 0 t1) _ h1 in
    let (taken2, word2) = get_u64-Taken t1 t2 rpc_id taken1.octets read2 in
    let (ok, t3, read3, h3) = and_then-some (get_bool t2) _ h2 in
    let taken3 = get_bool-Taken t2 t3 ok taken2.octets read3 in
    let (match, t4, read4, h4) = and_then-some (get_be 64 8 0 t3) _ h3 in
    let (taken4, word4) = get_u64-Taken t3 t4 match taken3.octets read4 in
    let (index, t5, read5, h5) = and_then-some (get_be 64 8 0 t4) _ h4 in
    let (taken5, word5) = get_u64-Taken t4 t5 index taken4.octets read5 in
    let (last, t6, read6, h6) = and_then-some (get_be 64 8 0 t5) _ h5 in
    let (taken6, word6) = get_u64-Taken t5 t6 last taken5.octets read6 in
    let (same, place) = returned h6 in
    let made : AppendEntriesResponse = record {
      term = term;
      rpc_id = rpc_id;
      success = ok;
      match_index = match;
      conflict_index = index;
      conflict_term = last;
    } in
    let taken : Taken r t6 (append_response_bytes made) = Taken-trans taken1 (
      Taken-trans taken2 (
        Taken-trans (subst (λ b. Taken t2 t3 (b ∷ [])) (bit-flag ok) taken3)
          (Taken-trans taken4 (Taken-trans taken5 taken6)))) in
    (
      subst (λ s. Taken r s (append_response_bytes response)) place
          (subst (λ response. Taken r t6 (append_response_bytes response)) same taken),
      subst (λ response. valid_append_response response ≡ true → AppendResponseFits response) same
          (λ valid. record {
            term = word1;
            rpc_id = word2;
            match_index = word4;
            conflict_index = word5;
            conflict_term = word6;
            real = ground (arith, valid);
            asked = ground (arith, valid);
          }),
    )

-- The check behind a decoder passed.
accepted :
    {A : Type 0} (valid : A → Bool) (wrap : A → Message) (r : Result A) (m : Message)
    → accept_if valid wrap r ≡ success m
    → (a : A) × (r ≡ success a) × (valid a ≡ true) × (wrap a ≡ m)
unfolding accept_if
accepted valid wrap (failure error offset) m h = absurd (cc (h))
accepted valid wrap (success a) m h =
    let (passes, same) = only_if (valid a) (success (wrap a)) _ _ h in
    (a, refl, passes, success_injective same)

-- A message that fits, in the frame of its own bytes, encodes to that frame.
encoded :
    {A : Type 0} (limits : Limits) (m : Message) (bytes : Bytes)
    (decode : Reader → Option A × Reader) (a : A)
    → (d : Decoded (message_type m) decode bytes limits a)
    → Taken (new_reader d.payload header_bytes) d.end (message_bytes m)
    → MessageFits limits m
    → encode_message m limits ≡ success bytes
encoded limits m bytes decode a d taken fits =
    let same : d.payload ≡ message_bytes m = read_whole taken d.empty in
    let room = subst (λ payload. Room limits (length payload)) same d.room in
    let whole : bytes ≡ frame_bytes (message_type m) (message_bytes m) =
      d.framed ∙ ap (frame_bytes (message_type m)) same in
    (decode_message-encode_message m limits fits room).0 ∙ ap success (sym whole)

decode_typed-encoded :
    (type : WireType) (parsed : ParsedFrame) (bytes : Bytes) (limits : Limits) (m : Message)
    → Octets bytes
    → parse_frame bytes limits ≡ success parsed
    → parsed.type ≡ type
    → decode_typed type parsed limits ≡ success m
    → encode_message m limits ≡ success bytes
unfolding decode_typed message_type
decode_typed-encoded WireType.request_vote parsed bytes limits m octets framed this h =
    let (r, ran, valid, same) = accepted valid_request_vote Message.request_vote _ m h in
    let d =
      decode_exact-Decoded WireType.request_vote read_request_vote bytes limits parsed r octets
        framed (ap type_code this) ran in
    let (taken, fits) =
      read_request_vote-Taken (new_reader d.payload header_bytes) d.end r d.octets d.ran in
    subst (λ m. encode_message m limits ≡ success bytes) same
      (encoded limits (Message.request_vote r) bytes read_request_vote r d taken (fits valid))
decode_typed-encoded WireType.request_vote_response parsed bytes limits m octets framed this h =
    let (r, ran, valid, same) = accepted valid_response Message.request_vote_response _ m h in
    let d =
      decode_exact-Decoded WireType.request_vote_response read_request_vote_response bytes limits
        parsed r octets framed (ap type_code this) ran in
    let (taken, fits) =
      read_request_vote_response-Taken (new_reader d.payload header_bytes) d.end r d.octets d.ran in
    subst (λ m. encode_message m limits ≡ success bytes) same
      (encoded limits (Message.request_vote_response r) bytes read_request_vote_response r d taken
        (fits valid))
decode_typed-encoded WireType.append_entries parsed bytes limits m octets framed this h =
    let (r, ran, _, same) = accepted (λ r. true) Message.append_entries _ m h in
    let d =
      decode_exact-Decoded WireType.append_entries (read_append_entries limits) bytes limits parsed
        r octets framed (ap type_code this) ran in
    let (taken, fits) =
      read_append_entries-Taken limits (new_reader d.payload header_bytes) d.end r d.octets d.ran in
    subst (λ m. encode_message m limits ≡ success bytes) same
      (encoded limits (Message.append_entries r) bytes (read_append_entries limits) r d taken fits)
decode_typed-encoded WireType.append_entries_response parsed bytes limits m octets framed this h =
    let (r, ran, valid, same) =
      accepted valid_append_response Message.append_entries_response _ m h in
    let d =
      decode_exact-Decoded WireType.append_entries_response read_append_entries_response bytes
        limits parsed r octets framed (ap type_code this) ran in
    let (taken, fits) =
      read_append_entries_response-Taken (new_reader d.payload header_bytes) d.end r d.octets
        d.ran in
    subst (λ m. encode_message m limits ≡ success bytes) same
      (encoded limits (Message.append_entries_response r) bytes read_append_entries_response r d
        taken (fits valid))
decode_typed-encoded WireType.command parsed bytes limits m octets framed this h = absurd (cc (h))
decode_typed-encoded WireType.log_entry parsed bytes limits m octets framed this h = absurd (cc (h))

-- A message of any kind that decode_message accepts encodes, under the same limits, to the bytes that it
-- was decoded from, provided that these are octets: no two byte sequences are accepted as one message.
pub encode_message-decode_message :
    (bytes : Bytes) (limits : Limits) (m : Message)
    → Octets bytes
    → decode_message bytes limits ≡ success m
    → encode_message m limits ≡ success bytes
unfolding decode_message
encode_message-decode_message bytes limits m octets h =
    let (parsed, framed, next) = parsed_ok (parse_frame bytes limits) _ h in
    decode_typed-encoded parsed.type parsed bytes limits m octets framed refl next
