-- ===== src/Codec/Canonical/Commands.antt =====
-- Commands and log entries that src/codec.cpp decodes are encoded back to the same bytes.
use det_log.Prelude.{
  ◌≡◌, refl, sym, ◌∙◌, ap, subst, inl, inr, ◌<◌, ◌%◌, ◌^◌, ℕ, Bool, true, false, Option, none, some,
  [], ◌∷◌, arith, Bool-cases, length, eqb, if◌then◌else◌, ◌||◌,
}
use det_log.Model.{Bytes, ClientCommand, LogEntry}
use det_log.Codec.{Limits, success, header_bytes}
use det_log.Codec.Reader.{Reader, new_reader, get_be, get_bool}
use det_log.Codec.Payload.{
  read_command_payload, presence, read_optional_command, read_entry_payload,
}
use det_log.Codec.Frame.{
  WireType, encode_command, decode_command, encode_log_entry, decode_log_entry,
}
use det_log.Codec.Written.{be}
use det_log.Codec.Framed.{Room, frame_bytes}
use det_log.Codec.Command.{CommandFits, command_payload, decode_command-encode_command}
use det_log.Codec.Entry.{
  EntryFits, OptionalFits, optional_bytes, read_command_of, entry_payload,
  decode_log_entry-encode_log_entry,
}
use det_log.Codec.Canonical.{
  Octets, Taken, Taken-trans, Taken-none, and_then-some, returned, refused, get_u64-Taken,
  get_bool-Taken,
}
use det_log.Codec.Canonical.Frames.{decode_as-Decoded, read_whole}
use det_log.Codec.Canonical.Fields.{read_command_payload-Taken}

-- A command that decode_command accepts encodes, under the same limits, to the bytes that it was decoded
-- from, provided that these are octets.
pub encode_command-decode_command :
    (bytes : Bytes) (limits : Limits) (c : ClientCommand)
    → Octets bytes
    → decode_command bytes limits ≡ success c
    → encode_command c limits ≡ success bytes
unfolding decode_command
encode_command-decode_command bytes limits c octets h =
    let read =
      decode_as-Decoded WireType.command (read_command_payload limits) bytes limits c octets h in
    let (taken, fits) =
      read_command_payload-Taken limits (new_reader read.payload header_bytes) read.end c
        read.octets read.ran in
    let same : read.payload ≡ command_payload c = read_whole taken read.empty in
    let room = subst (λ payload. Room limits (length payload)) same read.room in
    let whole : bytes ≡ frame_bytes WireType.command (command_payload c) =
      read.framed ∙ ap (frame_bytes WireType.command) same in
    (decode_command-encode_command c limits fits room).0 ∙ ap success (sym whole)

read_optional_command-Taken :
    (limits : Limits) (has_command : Bool) (r s : Reader) (o : Option ClientCommand)
    → Octets r.left
    → read_optional_command has_command limits r ≡ (some o, s)
    → Taken r s (optional_bytes o)
      × OptionalFits limits o
      × ((if has_command then 1 else 0) ≡ presence o % 256)
unfolding read_optional_command
read_optional_command-Taken limits false r s none octets h =
    let (_, place) = returned h in (subst (λ s. Taken r s []) place (Taken-none r octets), tt, refl)
read_optional_command-Taken limits false r s (some c) octets h =
    let (same, _) = returned h in absurd (cc (same))
read_optional_command-Taken limits true r s none octets h =
    let (d, t, _, more) = and_then-some (read_command_payload limits r) _ h in
    let (same, _) = returned more in absurd (cc (same))
read_optional_command-Taken limits true r s (some c) octets h =
    let (d, t, read, more) = and_then-some (read_command_payload limits r) _ h in
    let (taken, fits) = read_command_payload-Taken limits r t d octets read in
    let (same, place) = returned more in
    let commands : d ≡ c = cc (same) in
    (
      subst (λ s. Taken r s (command_payload c)) place
          (subst (λ c. Taken r t (command_payload c)) commands taken),
      subst (CommandFits limits) commands fits,
      refl,
    )

-- The command behind the entry's numbers.
read_command_of-Taken :
    (limits : Limits) (index term : ℕ) (has_command : Bool) (r s : Reader) (entry : LogEntry)
    → Octets r.left
    → read_command_of limits index term has_command r ≡ (some entry, s)
    → (entry.index ≡ index)
      × (entry.term ≡ term)
      × ((eqb index 0 || eqb term 0) ≡ false)
      × Taken r s (optional_bytes entry.command)
      × OptionalFits limits entry.command
      × ((if has_command then 1 else 0) ≡ presence entry.command % 256)
read_command_of-Taken limits index term has_command r s entry octets h =
    elim (Bool-cases (eqb index 0 || eqb term 0)) [
      | inl bad ↦ let no = rw bad at h in absurd (refused no)
      | inr real ↦
          let (o, t, read, last) =
            and_then-some (read_optional_command has_command limits r) _ (rw real at h) in
          let (taken, fits, present) =
            read_optional_command-Taken limits has_command r t o octets read in
          let (same, place) = returned last in
          let commands : o ≡ entry.command = ap (λ (entry : LogEntry). entry.command) same in
          (
            ap (λ (entry : LogEntry). entry.index) (sym same),
            ap (λ (entry : LogEntry). entry.term) (sym same),
            real,
            subst (λ s. Taken r s (optional_bytes entry.command)) place
                (subst (λ o. Taken r t (optional_bytes o)) commands taken),
            subst (OptionalFits limits) commands fits,
            subst (λ o. (if has_command then 1 else 0) ≡ presence o % 256) commands present,
          )
    ]

pub read_entry_payload-Taken :
    (limits : Limits) (r s : Reader) (entry : LogEntry)
    → Octets r.left
    → read_entry_payload limits r ≡ (some entry, s)
    → Taken r s (entry_payload entry) × EntryFits limits entry
unfolding read_entry_payload
read_entry_payload-Taken limits r s entry octets h =
    let (index, t1, read1, h1) = and_then-some (get_be 64 8 0 r) _ h in
    let (taken1, word1) = get_u64-Taken r t1 index octets read1 in
    let (term, t2, read2, h2) = and_then-some (get_be 64 8 0 t1) _ h1 in
    let (taken2, word2) = get_u64-Taken t1 t2 term taken1.octets read2 in
    let (has_command, t3, read3, h3) = and_then-some (get_bool t2) _ h2 in
    let taken3 = get_bool-Taken t2 t3 has_command taken2.octets read3 in
    let (index_same, term_same, real, taken4, fits, present) =
      read_command_of-Taken limits index term has_command t3 s entry taken3.octets h3 in
    (
      Taken-trans (subst (λ n. Taken r t1 (be 8 n)) (sym index_same) taken1) (
          Taken-trans (subst (λ n. Taken t1 t2 (be 8 n)) (sym term_same) taken2)
            (Taken-trans (subst (λ b. Taken t2 t3 (b ∷ [])) present taken3) taken4)),
      record {
        index = subst (λ n. n < 2 ^ 64) (sym index_same) word1;
        term = subst (λ n. n < 2 ^ 64) (sym term_same) word2;
        real_index = ground (arith, real, index_same);
        real_term = ground (arith, real, term_same);
        command = fits;
      },
    )

-- A log entry that decode_log_entry accepts encodes, under the same limits, to the bytes that it was
-- decoded from, provided that these are octets.
pub encode_log_entry-decode_log_entry :
    (bytes : Bytes) (limits : Limits) (entry : LogEntry)
    → Octets bytes
    → decode_log_entry bytes limits ≡ success entry
    → encode_log_entry entry limits ≡ success bytes
unfolding decode_log_entry
encode_log_entry-decode_log_entry bytes limits entry octets h =
    let read =
      decode_as-Decoded WireType.log_entry (read_entry_payload limits) bytes limits entry octets
        h in
    let (taken, fits) =
      read_entry_payload-Taken limits (new_reader read.payload header_bytes) read.end entry
        read.octets read.ran in
    let same : read.payload ≡ entry_payload entry = read_whole taken read.empty in
    let room = subst (λ payload. Room limits (length payload)) same read.room in
    let whole : bytes ≡ frame_bytes WireType.log_entry (entry_payload entry) =
      read.framed ∙ ap (frame_bytes WireType.log_entry) same in
    (decode_log_entry-encode_log_entry entry limits fits room).0 ∙ ap success (sym whole)
