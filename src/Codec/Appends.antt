-- ===== src/Codec/Appends.antt =====
-- AppendEntries through the wire format and back.
use det_log.Prelude.{
  ◌≡◌, refl, sym, ◌∙◌, ap, ◌≤◌, ◌<◌, ◌*◌, ◌-◌, ◌/◌, ◌^◌, ℕ, true, false, List, [], ◌∷◌, ◌++◌, arith,
  length, ltb, ◌||◌, append_nil, length-append, All,
}
use det_log.Model.{Bytes, LogEntry, AppendEntries}
use det_log.Codec.{Limits}
use det_log.Codec.Reader
use det_log.Codec.Reader.{Reader, get_u32, get_u64}
use det_log.Codec.Payload.{write_entry_payload, read_entry_payload}
use det_log.Codec.Message.{
  consecutive_entries, valid_append, write_entries, write_append, write_append_entries,
}
use det_log.Codec.Decode.{
  read_entries, finish_append_entries, read_append_body, read_append_entries,
}
use det_log.Codec.Written.{
  Writes, Reads, and_then-Writes, and_then-Reads, last-Reads, done-Reads, be, put_be-Writes,
  get_u32-Reads, get_u64-Reads,
}
use det_log.Codec.Entry.{
  EntryFits, entry_payload, write_entry_payload-Writes, read_entry_payload-Reads,
}

-- The numbers have their widths, the entries fit and follow on one another, and there are not too
-- many.
pub record AppendFits (limits : Limits) (r : AppendEntries) : Type 0 where
  pub term : r.term < 2 ^ 64
  pub leader_id : r.leader_id < 2 ^ 32
  pub rpc_id : r.rpc_id < 2 ^ 64
  pub prev_log_index : r.prev_log_index < 2 ^ 64
  pub prev_log_term : r.prev_log_term < 2 ^ 64
  pub leader_commit : r.leader_commit < 2 ^ 64
  pub entries : All (EntryFits limits) r.entries
  pub count : length r.entries ≤ limits.max_entries_per_append
  pub count_word : length r.entries < 2 ^ 32
  pub valid : valid_append r ≡ true
  pub consecutive : consecutive_entries r ≡ true

abbrev pub entries_bytes : List LogEntry → Bytes
entries_bytes [] = []
entries_bytes (entry ∷ rest) = entry_payload entry ++ entries_bytes rest

abbrev pub append_bytes : AppendEntries → Bytes
append_bytes r =
    be 8 r.term
    ++ (be 4 r.leader_id
        ++ (be 8 r.rpc_id
            ++ (be 8 r.prev_log_index
                ++ (be 8 r.prev_log_term
                    ++ (be 4 (length r.entries)
                        ++ (entries_bytes r.entries ++ be 8 r.leader_commit))))))

write_entries-Writes :
    (limits : Limits) (entries : List LogEntry)
    → All (EntryFits limits) entries
    → Writes (write_entries entries limits) (entries_bytes entries)
unfolding write_entries
write_entries-Writes limits [] f w h =
    ap (λ out. (true, record w { bytes = out })) (sym (append_nil w.bytes))
write_entries-Writes limits (entry ∷ rest) f w h =
    and_then-Writes (write_entry_payload entry limits) (write_entries rest limits)
      (entry_payload entry) (entries_bytes rest) (write_entry_payload-Writes limits entry f.0)
      (write_entries-Writes limits rest f.1) w h

write_append-Writes :
    (limits : Limits) (r : AppendEntries)
    → AppendFits limits r
    → Writes (write_append r limits) (append_bytes r)
unfolding write_append
write_append-Writes limits r f w h =
    and_then-Writes _ _ (be 8 r.term) _ (put_be-Writes 8 r.term)
      (and_then-Writes _ _ (be 4 r.leader_id) _ (put_be-Writes 4 r.leader_id) (
        and_then-Writes _ _ (be 8 r.rpc_id) _ (put_be-Writes 8 r.rpc_id) (
          and_then-Writes _ _ (be 8 r.prev_log_index) _ (put_be-Writes 8 r.prev_log_index) (
            and_then-Writes _ _ (be 8 r.prev_log_term) _ (put_be-Writes 8 r.prev_log_term) (
              and_then-Writes _ _ (be 4 (length r.entries)) _ (put_be-Writes 4 (length r.entries)) (
                and_then-Writes (write_entries r.entries limits) _ (entries_bytes r.entries)
                  (be 8 r.leader_commit) (write_entries-Writes limits r.entries f.entries)
                  (put_be-Writes 8 r.leader_commit)))))))
      w h

pub write_append_entries-Writes :
    (limits : Limits) (r : AppendEntries)
    → AppendFits limits r
    → Writes (write_append_entries r limits) (append_bytes r)
unfolding write_append_entries
write_append_entries-Writes limits r f w h =
    let few : (ltb limits.max_entries_per_append (length r.entries)
          || ltb 4294967295 (length r.entries))
        ≡ false =
      ground (arith, f.count, f.count_word) in
    rw (f.valid, few, f.consecutive) (write_append-Writes limits r f w h)

-- The decoder's bound on the count: an entry takes at least 17 bytes.
length-entries_bytes :
    (entries : List LogEntry) → 17 * length entries ≤ length (entries_bytes entries)
length-entries_bytes [] = omega arith
length-entries_bytes (entry ∷ rest) =
    omega
      (arith, length-entries_bytes rest, length-append (entry_payload entry) (entries_bytes rest))

read_entries-Reads :
    (limits : Limits) (entries : List LogEntry)
    → All (EntryFits limits) entries
    → Reads (read_entries (length entries) limits) (entries_bytes entries) entries
unfolding read_entries
read_entries-Reads limits [] f = done-Reads []
read_entries-Reads limits (entry ∷ rest) f =
    and_then-Reads (read_entry_payload limits) _ (entry_payload entry) (entries_bytes rest) entry
      (entry ∷ rest) (read_entry_payload-Reads limits entry f.0)
      (last-Reads (read_entries (length rest) limits) (λ more. entry ∷ more) (entries_bytes rest)
        rest (read_entries-Reads limits rest f.1))

-- The message as far as it is read before its entries.
abbrev header_of : AppendEntries → AppendEntries
header_of r = record r { entries = []; leader_commit = 0 }

finish_append_entries-Reads :
    (r : AppendEntries)
    → r.leader_commit < 2 ^ 64
    → consecutive_entries r ≡ true
    → Reads (finish_append_entries (header_of r) r.entries) (be 8 r.leader_commit) r
unfolding finish_append_entries Reader.and_then
finish_append_entries-Reads r h consecutive s rest e =
    rw (get_u64-Reads r.leader_commit h s rest e, consecutive) refl

-- The bytes that are left hold as many entries as the count says.
enough_left :
    (entries : List LogEntry) (commit : ℕ) (rest : Bytes)
    → (ltb (length ((entries_bytes entries ++ be 8 commit) ++ rest)) 8
        || ltb
            ((length ((entries_bytes entries ++ be 8 commit) ++ rest) - 8) / 17)
            (length entries))
      ≡ false
enough_left entries commit rest = ground (
  arith,
  length-append (entries_bytes entries ++ be 8 commit) rest,
  length-append (entries_bytes entries) (be 8 commit),
  length-entries_bytes entries,
)

read_append_body-Reads :
    (limits : Limits) (r : AppendEntries)
    → AppendFits limits r
    → Reads
        (read_append_body (header_of r) (length r.entries) limits)
        (entries_bytes r.entries ++ be 8 r.leader_commit)
        r
unfolding read_append_body valid_append
read_append_body-Reads limits r f s rest e =
    let few : ltb limits.max_entries_per_append (length r.entries) ≡ false =
      ground (arith, f.count) in
    let left =
      ap (λ bytes. ltb (length bytes) 8 || ltb ((length bytes - 8) / 17) (length r.entries)) e
      ∙ enough_left r.entries r.leader_commit rest in
    rw (f.valid, few, left)
      (and_then-Reads (read_entries (length r.entries) limits) (finish_append_entries (header_of r))
        (entries_bytes r.entries) (be 8 r.leader_commit) r.entries r
        (read_entries-Reads limits r.entries f.entries)
        (finish_append_entries-Reads r f.leader_commit f.consecutive) s rest e)

pub read_append_entries-Reads :
    (limits : Limits) (r : AppendEntries)
    → AppendFits limits r
    → Reads (read_append_entries limits) (append_bytes r) r
unfolding read_append_entries
read_append_entries-Reads limits r f =
    let from_entries = entries_bytes r.entries ++ be 8 r.leader_commit in
    let from_count = be 4 (length r.entries) ++ from_entries in
    let from_prev_term = be 8 r.prev_log_term ++ from_count in
    let from_prev = be 8 r.prev_log_index ++ from_prev_term in
    let from_rpc = be 8 r.rpc_id ++ from_prev in
    and_then-Reads get_u64 _ (be 8 r.term) (be 4 r.leader_id ++ from_rpc) r.term r
      (get_u64-Reads r.term f.term)
      (and_then-Reads get_u32 _ (be 4 r.leader_id) from_rpc r.leader_id r
        (get_u32-Reads r.leader_id f.leader_id)
        (and_then-Reads get_u64 _ (be 8 r.rpc_id) from_prev r.rpc_id r
          (get_u64-Reads r.rpc_id f.rpc_id)
          (and_then-Reads get_u64 _ (be 8 r.prev_log_index) from_prev_term r.prev_log_index r
            (get_u64-Reads r.prev_log_index f.prev_log_index)
            (and_then-Reads get_u64 _ (be 8 r.prev_log_term) from_count r.prev_log_term r
              (get_u64-Reads r.prev_log_term f.prev_log_term)
              (and_then-Reads get_u32 _ (be 4 (length r.entries)) from_entries (length r.entries) r
                (get_u32-Reads (length r.entries) f.count_word)
                (read_append_body-Reads limits r f))))))
