-- ===== src/Wal/Payload/Layout.antt =====
-- The bytes that `encode_batch_payload` of src/wal.cpp leaves.
use det_log.Prelude.{
  ◌≡◌, sym, ◌∙◌, ap, subst, ℕ, ◌-◌, Option, none, some, List, [], ◌∷◌, ◌++◌, length, append_assoc,
  append_nil,
}
use det_log.Model.{Bytes, ClientCommand, HardState, LogEntry, PersistBatch, kind_code}
use det_log.Wal.Types.{
  Result, done, ◌>>=◌, bind-done, done_injective, WalOptions, frame_header_bytes,
  frame_trailer_bytes,
}
use det_log.Wal.Bytes.{ByteWriter, new_writer, raw, le}
use det_log.Wal.Bytes.Laws.{Outputs, bind-Outputs, raw-Outputs}
use det_log.Wal.Payload.{
  flags, write_vote, write_hard_state, write_index, write_command, write_entry, write_entries,
  encode_batch_payload,
}

-- Where the writes go through, they append `out`.
abbrev pub Adds : (ByteWriter → Result ByteWriter) → Bytes → Type 0
Adds write out = (w : ByteWriter) → Outputs (write w) (record w { bytes = w.bytes ++ out })

pub raw-Adds : (value : Bytes) → Adds (raw value) value
raw-Adds value w = raw-Outputs value w

pub Adds-then :
    (f g : ByteWriter → Result ByteWriter) (a b : Bytes)
    → Adds f a
    → Adds g b
    → Adds (λ w. f w >>= g) (a ++ b)
Adds-then f g a b h k w =
    subst (λ out. Outputs (f w >>= g) (record w { bytes = out })) (append_assoc w.bytes a b)
      (bind-Outputs (f w) g (h w) (k (record w { bytes = w.bytes ++ a })))

Adds-nothing : Adds (λ w. done w) []
Adds-nothing w v e =
    let same : w ≡ v = done_injective e in
    sym same ∙ ap (λ out. record w { bytes = out }) (sym (append_nil w.bytes))

abbrev pub vote_bytes : Option ℕ → Bytes
vote_bytes none = le 1 0
vote_bytes (some node) = le 1 1 ++ le 4 node

abbrev pub hard_bytes : Option HardState → Bytes
hard_bytes none = []
hard_bytes (some hard) = le 8 hard.current_term ++ vote_bytes hard.voted_for

abbrev pub index_bytes : Option ℕ → Bytes
index_bytes none = []
index_bytes (some index) = le 8 index

abbrev pub command_layout : Option ClientCommand → Bytes
command_layout none = le 1 0
command_layout (some c) =
    (((((((le 1 1 ++ le 8 c.session.high) ++ le 8 c.session.low) ++ le 8 c.sequence)
            ++ le 1 (kind_code c.kind))
          ++ le 4 (length c.key))
        ++ le 4 (length c.value))
      ++ c.key)
    ++ c.value

abbrev pub entry_layout : LogEntry → Bytes
entry_layout e = (le 8 e.index ++ le 8 e.term) ++ command_layout e.command

abbrev pub entries_layout : List LogEntry → Bytes
entries_layout [] = []
entries_layout (e ∷ rest) = entry_layout e ++ entries_layout rest

abbrev pub payload_layout : PersistBatch → Bytes
payload_layout b =
    ((((le 4 (flags b) ++ le 4 (length b.entries)) ++ hard_bytes b.hard_state)
        ++ index_bytes b.truncate_from)
      ++ entries_layout b.entries)
    ++ index_bytes b.commit_index

write_vote-Adds : (vote : Option ℕ) → Adds (write_vote vote) (vote_bytes vote)
unfolding write_vote
write_vote-Adds none = raw-Adds (le 1 0)
write_vote-Adds (some node) =
    Adds-then (raw (le 1 1)) (raw (le 4 node)) (le 1 1) (le 4 node) (raw-Adds _) (raw-Adds _)

write_hard_state-Adds : (hard : Option HardState) → Adds (write_hard_state hard) (hard_bytes hard)
unfolding write_hard_state
write_hard_state-Adds none = Adds-nothing
write_hard_state-Adds (some hard) =
    Adds-then (raw (le 8 hard.current_term)) (write_vote hard.voted_for) _ _ (raw-Adds _)
      (write_vote-Adds hard.voted_for)

write_index-Adds : (index : Option ℕ) → Adds (write_index index) (index_bytes index)
unfolding write_index
write_index-Adds none = Adds-nothing
write_index-Adds (some index) = raw-Adds (le 8 index)

write_command-Adds : (c : Option ClientCommand) → Adds (write_command c) (command_layout c)
unfolding write_command
write_command-Adds none = raw-Adds (le 1 0)
write_command-Adds (some c) =
    Adds-then _ (raw c.value) _ _
      (Adds-then _ (raw c.key) _ _
        (Adds-then _ (raw (le 4 (length c.value))) _ _
          (Adds-then _ (raw (le 4 (length c.key))) _ _
            (Adds-then _ (raw (le 1 (kind_code c.kind))) _ _
              (Adds-then _ (raw (le 8 c.sequence)) _ _
                (Adds-then _ (raw (le 8 c.session.low)) _ _
                  (Adds-then (raw (le 1 1)) (raw (le 8 c.session.high)) _ _ (raw-Adds _)
                    (raw-Adds _))
                  (raw-Adds _))
                (raw-Adds _))
              (raw-Adds _))
            (raw-Adds _))
          (raw-Adds _))
        (raw-Adds _))
      (raw-Adds _)

write_entry-Adds : (e : LogEntry) → Adds (write_entry e) (entry_layout e)
unfolding write_entry
write_entry-Adds e =
    Adds-then _ (write_command e.command) _ _
      (Adds-then (raw (le 8 e.index)) (raw (le 8 e.term)) _ _ (raw-Adds _) (raw-Adds _))
      (write_command-Adds e.command)

write_entries-Adds :
    (entries : List LogEntry) → Adds (write_entries entries) (entries_layout entries)
unfolding write_entries
write_entries-Adds [] = Adds-nothing
write_entries-Adds (e ∷ rest) =
    Adds-then (write_entry e) (write_entries rest) _ _ (write_entry-Adds e)
      (write_entries-Adds rest)

-- The bytes of a chain of writes from an empty writer.
pub written :
    (chain : ByteWriter → Result ByteWriter) (limit : ℕ) (out bytes : Bytes)
    → Adds chain out
    → (chain (new_writer limit) >>= λ w. done w.bytes) ≡ done bytes
    → bytes ≡ out
written chain limit out bytes adds e =
    let (w, ran, finished) = bind-done (chain (new_writer limit)) (λ w. done w.bytes) e in
    sym (done_injective finished) ∙ ap (λ v. v.bytes) (adds (new_writer limit) w ran)

pub encode_batch_payload-layout :
    (b : PersistBatch) (options : WalOptions) (payload : Bytes)
    → encode_batch_payload b options ≡ done payload
    → payload ≡ payload_layout b
unfolding encode_batch_payload
encode_batch_payload-layout b options payload e =
    written _ (options.max_frame_bytes - frame_header_bytes - frame_trailer_bytes)
      (payload_layout b) payload
      (Adds-then _ (write_index b.commit_index) _ _
        (Adds-then _ (write_entries b.entries) _ _
          (Adds-then _ (write_index b.truncate_from) _ _
            (Adds-then _ (write_hard_state b.hard_state) _ _
              (Adds-then (raw (le 4 (flags b))) (raw (le 4 (length b.entries))) _ _ (raw-Adds _)
                (raw-Adds _))
              (write_hard_state-Adds b.hard_state))
            (write_index-Adds b.truncate_from))
          (write_entries-Adds b.entries))
        (write_index-Adds b.commit_index))
      e
