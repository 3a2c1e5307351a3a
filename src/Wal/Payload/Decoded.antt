-- ===== src/Wal/Payload/Decoded.antt =====
-- `decode_batch_payload` of src/wal.cpp takes back what `encode_batch_payload` wrote.
use det_log.Prelude.{
  ◌≡◌, refl, ◌∙◌, ap, ℕ, ◌+◌, ◌-◌, ◌*◌, ◌/◌, ◌%◌, ◌<◌, ◌≤◌, Bool, true, false, ◌||◌, Option, none,
  some, List, [], ◌∷◌, ◌++◌, All, arith, ltb, leb, eqb, length, length-append, append_assoc,
  append_nil, is_some,
}
use det_log.Model.{Bytes, ClientCommand, LogEntry, PersistBatch}
use det_log.Wal.Types.{done, WalOptions, minimum_entry_payload_bytes}
use det_log.Wal.Bytes.{le}
use det_log.Wal.Bytes.Laws.{Reads, le-Reads, length-le}
use det_log.Wal.Payload.{
  bit, flags, read_entries, decode_fields, encode_batch_payload, decode_batch_payload,
}
use det_log.Wal.Payload.Layout.{
  hard_bytes, index_bytes, command_layout, entry_layout, entries_layout,
  encode_batch_payload-layout,
}
use det_log.Wal.Payload.Fields.{
  EntryFits, BatchFits, NarrowOptions, read_hard_state-Reads, read_index-Reads,
  command_layout-fields, read_entry-Reads,
}

read_entries-Reads :
    (options : WalOptions) (entries : List LogEntry)
    → NarrowOptions options
    → All (EntryFits options) entries
    → Reads (read_entries options (length entries)) (entries_layout entries) entries
unfolding read_entries
read_entries-Reads options [] n h rest = refl
read_entries-Reads options (e ∷ entries) n h rest =
    rw
      (
        append_assoc (entry_layout e) (entries_layout entries) rest,
        read_entry-Reads options e n h.0 (entries_layout entries ++ rest),
        read_entries-Reads options entries n h.1 rest,
      )
      refl

command_layout-ge : (c : Option ClientCommand) → 1 ≤ length (command_layout c)
unfolding le
command_layout-ge none = omega arith
command_layout-ge (some c) = omega (arith, ap length (command_layout-fields c))

entry_layout-ge : (e : LogEntry) → minimum_entry_payload_bytes ≤ length (entry_layout e)
entry_layout-ge e = omega (
  arith,
  length-append {0} (le 8 e.index ++ le 8 e.term) (command_layout e.command),
  length-append {0} (le 8 e.index) (le 8 e.term),
  length-le 8 e.index,
  length-le 8 e.term,
  command_layout-ge e.command,
)

entries_layout-ge :
    (entries : List LogEntry)
    → length entries * minimum_entry_payload_bytes ≤ length (entries_layout entries)
entries_layout-ge [] = omega arith
entries_layout-ge (e ∷ rest) = omega (
  arith,
  entry_layout-ge e,
  entries_layout-ge rest,
  length-append {0} (entry_layout e) (entries_layout rest),
)

three_bits :
    (x y z : Bool)
    → (bit x 1 + bit y 2 + bit z 4 < 8)
      × (eqb ((bit x 1 + bit y 2 + bit z 4) % 2) 1 ≡ x)
      × (eqb ((bit x 1 + bit y 2 + bit z 4) / 2 % 2) 1 ≡ y)
      × (eqb ((bit x 1 + bit y 2 + bit z 4) / 4 % 2) 1 ≡ z)
three_bits true true true = (omega arith, refl, refl, refl)
three_bits true true false = (omega arith, refl, refl, refl)
three_bits true false true = (omega arith, refl, refl, refl)
three_bits true false false = (omega arith, refl, refl, refl)
three_bits false true true = (omega arith, refl, refl, refl)
three_bits false true false = (omega arith, refl, refl, refl)
three_bits false false true = (omega arith, refl, refl, refl)
three_bits false false false = (omega arith, refl, refl, refl)

index_bytes-length : (index : Option ℕ) → length (index_bytes index) ≡ bit (is_some index) 8
index_bytes-length none = refl
index_bytes-length (some index) = length-le 8 index

-- The fields behind the flags and the count.
abbrev fields_layout : PersistBatch → Bytes
fields_layout b =
    hard_bytes b.hard_state
    ++ (index_bytes b.truncate_from ++ (entries_layout b.entries ++ index_bytes b.commit_index))

decode_fields-layout :
    (options : WalOptions) (b : PersistBatch)
    → NarrowOptions options
    → BatchFits options b
    → decode_fields (flags b) (length b.entries) options (fields_layout b) ≡ done b
unfolding decode_fields flags
decode_fields-layout options b n h =
    let (_, first, second, third) =
      three_bits (is_some b.hard_state) (is_some b.truncate_from) (is_some b.commit_index) in
    let behind_entries = index_bytes b.commit_index in
    let behind_index = entries_layout b.entries ++ behind_entries in
    let behind_hard = index_bytes b.truncate_from ++ behind_index in
    let size = length-append (entries_layout b.entries) behind_entries in
    let room : (ltb (length behind_index) (bit (is_some b.commit_index) 8)
          || ltb
              ((length behind_index - bit (is_some b.commit_index) 8) / minimum_entry_payload_bytes)
              (length b.entries))
        ≡ false =
      ground (arith, size, index_bytes-length b.commit_index, entries_layout-ge b.entries) in
    let last = read_index-Reads b.commit_index h.commit [] in
    rw
      (
        first,
        read_hard_state-Reads b.hard_state h.hard behind_hard,
        second,
        read_index-Reads b.truncate_from h.truncate behind_index,
        third,
        room,
        read_entries-Reads options b.entries n h.entries behind_entries,
        rw (append_nil behind_entries) at last,
      )
      refl

-- If a batch is within the bounds of the options and its numbers within the C++ widths, and the bounds
-- of the options are 32-bit numbers, decoding its payload, where it could be encoded, gives the batch.
pub decode_batch_payload-encode_batch_payload :
    (options : WalOptions) (b : PersistBatch) (payload : Bytes)
    → NarrowOptions options
    → BatchFits options b
    → encode_batch_payload b options ≡ done payload
    → decode_batch_payload payload options ≡ done b
unfolding decode_batch_payload flags
decode_batch_payload-encode_batch_payload options b payload n h e =
    let (small, _, _, _) =
      three_bits (is_some b.hard_state) (is_some b.truncate_from) (is_some b.commit_index) in
    let behind = le 4 (length b.entries) ++ fields_layout b in
    let layout : payload ≡ le 4 (flags b) ++ behind =
      encode_batch_payload-layout b options payload e ∙ simp append_assoc in
    let few : ltb options.max_entries_per_frame (length b.entries) ≡ false =
      ground (arith, h.count) in
    let known : leb 8 (flags b) ≡ false = ground (arith, small) in
    rw
      (
        layout,
        le-Reads 4 (flags b) (omega (arith, small)) behind,
        known,
        le-Reads 4 (length b.entries) (omega (arith, h.count, n.entries)) (fields_layout b),
        few,
      )
      (decode_fields-layout options b n h)
