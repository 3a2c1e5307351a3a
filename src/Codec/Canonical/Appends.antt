-- ===== src/Codec/Canonical/Appends.antt =====
-- An AppendEntries request that src/codec.cpp reads stands in the bytes as the Writer writes it.
use det_log.Prelude.{
  ◌≡◌, refl, sym, ap, subst, inl, inr, ◌≤◌, ◌<◌, ◌-◌, ◌/◌, ◌^◌, ℕ, zero, suc, true, some, List, [],
  ◌++◌, All, arith, Bool-cases, length, ltb, ◌||◌,
}
use det_log.Model.{LogEntry, AppendEntries}
use det_log.Codec.{Limits}
use det_log.Codec.Reader
use det_log.Codec.Reader.{Reader, get_be}
use det_log.Codec.Payload.{read_entry_payload}
use det_log.Codec.Message.{consecutive_entries, valid_append}
use det_log.Codec.Decode.{
  read_entries, finish_append_entries, read_append_body, read_append_entries,
}
use det_log.Codec.Written.{be}
use det_log.Codec.Entry.{EntryFits, entry_payload}
use det_log.Codec.Appends.{AppendFits, entries_bytes, append_bytes}
use det_log.Codec.Canonical.{
  Octets, Taken, Taken-trans, Taken-none, and_then-some, returned, refused, get_u32-Taken,
  get_u64-Taken,
}
use det_log.Codec.Canonical.Commands.{read_entry_payload-Taken}

read_entries-Taken :
    (limits : Limits) (count : ℕ) (r s : Reader) (entries : List LogEntry)
    → Octets r.left
    → read_entries count limits r ≡ (some entries, s)
    → Taken r s (entries_bytes entries) × All (EntryFits limits) entries × (length entries ≡ count)
unfolding read_entries
read_entries-Taken limits zero r s entries octets h =
    let (same, place) = returned h in
    subst
      (λ entries.
        Taken r s (entries_bytes entries) × All (EntryFits limits) entries × (length entries ≡ 0))
      same (subst (λ s. Taken r s []) place (Taken-none r octets), tt, refl)
read_entries-Taken limits (suc count) r s entries octets h =
    let (entry, t, read, h1) = and_then-some (read_entry_payload limits r) _ h in
    let (taken, fits) = read_entry_payload-Taken limits r t entry octets read in
    let (rest, u, read_rest, h2) = and_then-some (read_entries count limits t) _ h1 in
    let (more, all, size) = read_entries-Taken limits count t u rest taken.octets read_rest in
    let (same, place) = returned h2 in
    subst
      (λ entries.
        Taken r s (entries_bytes entries)
        × All (EntryFits limits) entries
        × (length entries ≡ suc count))
      same
      (
        subst (λ s. Taken r s (entry_payload entry ++ entries_bytes rest)) place
            (Taken-trans taken more),
        (fits, all),
        ap suc size,
      )

-- The request `whole` is `base` with its entries and its commit index, which the bytes `out` hold.
record Completed (limits : Limits) (base whole : AppendEntries) (r s : Reader) : Type 0 where
  entries : List LogEntry
  commit : ℕ
  same : record base { entries = entries; leader_commit = commit } ≡ whole
  taken : Taken r s (entries_bytes entries ++ be 8 commit)
  fits : All (EntryFits limits) entries
  word : commit < 2 ^ 64
  consecutive : consecutive_entries whole ≡ true

completed :
    (limits : Limits) (base whole : AppendEntries) (count : ℕ) (r s : Reader)
    → Octets r.left
    → Reader.and_then (read_entries count limits r) (finish_append_entries base) ≡ (some whole, s)
    → (c : Completed limits base whole r s) × (length c.entries ≡ count)
unfolding finish_append_entries
completed limits base whole count r s octets h =
    let (entries, t, read, h1) = and_then-some (read_entries count limits r) _ h in
    let (taken, fits, size) = read_entries-Taken limits count r t entries octets read in
    let (commit, u, read_commit, h2) = and_then-some (get_be 64 8 0 t) _ h1 in
    let (last, word) = get_u64-Taken t u commit taken.octets read_commit in
    let made : AppendEntries = record base { entries = entries; leader_commit = commit } in
    elim (Bool-cases (consecutive_entries made)) [
      | inr bad ↦ let no = rw bad at h2 in absurd (refused no)
      | inl good ↦
          let (same, place) = returned (rw good at h2) in
          (
            record {
              entries = entries;
              commit = commit;
              same = same;
              taken =
                  subst (λ s. Taken r s (entries_bytes entries ++ be 8 commit)) place
                    (Taken-trans taken last);
              fits = fits;
              word = word;
              consecutive = subst (λ r. consecutive_entries r ≡ true) same good;
            },
            size,
          )
    ]

read_append_body-Completed :
    (limits : Limits) (base whole : AppendEntries) (count : ℕ) (r s : Reader)
    → Octets r.left
    → read_append_body base count limits r ≡ (some whole, s)
    → (c : Completed limits base whole r s) × (length c.entries ≡ count)
      × (count ≤ limits.max_entries_per_append)
      × (valid_append base ≡ true)
unfolding read_append_body
read_append_body-Completed limits base whole count r s octets h =
    elim (Bool-cases (valid_append base)) [
      | inr bad ↦ let no = rw bad at h in absurd (refused no)
      | inl valid ↦
          let h1 = rw valid at h in
          elim (Bool-cases (ltb limits.max_entries_per_append count)) [
            | inl many ↦ let no = rw many at h1 in absurd (refused no)
            | inr few ↦
                let h2 = rw few at h1 in
                elim (Bool-cases (ltb (length r.left) 8 || ltb ((length r.left - 8) / 17) count)) [
                  | inl short ↦ let no = rw short at h2 in absurd (refused no)
                  | inr long ↦
                      let (c, size) =
                        completed limits base whole count r s octets (rw long at h2) in
                      (c, size, ground (arith, few), valid)
                ]
          ]
    ]

pub read_append_entries-Taken :
    (limits : Limits) (r s : Reader) (request : AppendEntries)
    → Octets r.left
    → read_append_entries limits r ≡ (some request, s)
    → Taken r s (append_bytes request) × AppendFits limits request
unfolding read_append_entries valid_append
read_append_entries-Taken limits r s request octets h =
    let (term, t1, read1, h1) = and_then-some (get_be 64 8 0 r) _ h in
    let (taken1, word1) = get_u64-Taken r t1 term octets read1 in
    let (leader, t2, read2, h2) = and_then-some (get_be 32 4 0 t1) _ h1 in
    let (taken2, word2) = get_u32-Taken t1 t2 leader taken1.octets read2 in
    let (rpc_id, t3, read3, h3) = and_then-some (get_be 64 8 0 t2) _ h2 in
    let (taken3, word3) = get_u64-Taken t2 t3 rpc_id taken2.octets read3 in
    let (prev, t4, read4, h4) = and_then-some (get_be 64 8 0 t3) _ h3 in
    let (taken4, word4) = get_u64-Taken t3 t4 prev taken3.octets read4 in
    let (prev_term, t5, read5, h5) = and_then-some (get_be 64 8 0 t4) _ h4 in
    let (taken5, word5) = get_u64-Taken t4 t5 prev_term taken4.octets read5 in
    let (count, t6, read6, h6) = and_then-some (get_be 32 4 0 t5) _ h5 in
    let (taken6, word6) = get_u32-Taken t5 t6 count taken5.octets read6 in
    let (c, size, few, valid) =
      read_append_body-Completed limits
        (record {
          term = term;
          leader_id = leader;
          rpc_id = rpc_id;
          prev_log_index = prev;
          prev_log_term = prev_term;
          entries = [];
          leader_commit = 0;
        })
        request count t6 s taken6.octets h6 in
    let made : AppendEntries = record {
      term = term;
      leader_id = leader;
      rpc_id = rpc_id;
      prev_log_index = prev;
      prev_log_term = prev_term;
      entries = c.entries;
      leader_commit = c.commit;
    } in
    let taken : Taken r s (append_bytes made) = Taken-trans taken1 (
      Taken-trans taken2 (
        Taken-trans taken3 (
          Taken-trans taken4 (
            Taken-trans taken5
              (Taken-trans (subst (λ n. Taken t5 t6 (be 4 n)) (sym size) taken6) c.taken))))) in
    let fits : AppendFits limits made = record {
      term = word1;
      leader_id = word2;
      rpc_id = word3;
      prev_log_index = word4;
      prev_log_term = word5;
      leader_commit = c.word;
      entries = c.fits;
      count = subst (λ n. n ≤ limits.max_entries_per_append) (sym size) few;
      count_word = subst (λ n. n < 2 ^ 32) (sym size) word6;
      valid = valid;
      consecutive = subst (λ r. consecutive_entries r ≡ true) (sym c.same) c.consecutive;
    } in
    (
      subst (λ request. Taken r s (append_bytes request)) c.same taken,
      subst (AppendFits limits) c.same fits,
    )
