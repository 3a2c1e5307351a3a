-- ===== src/Wal/Payload/Fields.antt =====
-- The fields, commands and entries of a payload of src/wal.cpp are read back as they were written.
use det_log.Prelude.{
  ◌≡◌, refl, ap, ℕ, ◌<◌, ◌≤◌, ◌^◌, false, ◌||◌, Option, none, some, ◌++◌, All, arith, ltb, length,
  append_assoc, is_some,
}
use det_log.Model.{Bytes, ClientCommand, CommandKind, HardState, LogEntry, PersistBatch, kind_code}
use det_log.Wal.Types.{Result, done, ◌>>=◌, WalOptions}
use det_log.Wal.Bytes.{le, read_u8, read_le}
use det_log.Wal.Bytes.Laws.{Reads, le-Reads, read_string-Reads}
use det_log.Wal.Payload.{
  read_vote, read_hard_state, read_index, kind_of, read_kind, read_fields, read_some_command,
  read_command, read_entry,
}
use det_log.Wal.Payload.Layout.{vote_bytes, hard_bytes, index_bytes, command_layout, entry_layout}

abbrev pub Fits : ℕ → ℕ → Type 0
Fits count value = value < 256 ^ count

abbrev pub VoteFits : Option ℕ → Type 0
VoteFits none = Unit {0}
VoteFits (some node) = Fits 4 node

abbrev pub HardFits : Option HardState → Type 0
HardFits none = Unit {0}
HardFits (some hard) = Fits 8 hard.current_term × VoteFits hard.voted_for

abbrev pub IndexFits : Option ℕ → Type 0
IndexFits none = Unit {0}
IndexFits (some index) = Fits 8 index

-- The numbers of a command are of their C++ types, and its fields within the options' bounds.
abbrev pub CommandFits : WalOptions → Option ClientCommand → Type 0
CommandFits options none = Unit {0}
CommandFits options (some c) =
    Fits 8 c.session.high
    × Fits 8 c.session.low
    × Fits 8 c.sequence
    × (length c.key ≤ options.max_key_bytes)
    × (length c.value ≤ options.max_value_bytes)

abbrev pub EntryFits : WalOptions → LogEntry → Type 0
EntryFits options e = Fits 8 e.index × Fits 8 e.term × CommandFits options e.command

pub record BatchFits (options : WalOptions) (b : PersistBatch) : Type 0 where
  pub hard : HardFits b.hard_state
  pub truncate : IndexFits b.truncate_from
  pub entries : All (EntryFits options) b.entries
  pub commit : IndexFits b.commit_index
  pub count : length b.entries ≤ options.max_entries_per_frame

-- The bounds of the options are below those of a 32-bit number.
pub record NarrowOptions (options : WalOptions) : Type 0 where
  pub entries : options.max_entries_per_frame < 256 ^ 4
  pub key : options.max_key_bytes < 256 ^ 4
  pub value : options.max_value_bytes < 256 ^ 4

pub bind-Reads {ℓ κ} :
    {A : Type ℓ} {B : Type κ} (p : Bytes → Result (A × Bytes)) (q : A → Bytes → Result (B × Bytes))
    (a b : Bytes) (x : A) (y : B)
    → Reads p a x
    → Reads (q x) b y
    → Reads (λ bytes. p bytes >>= λ (v, left). q v left) (a ++ b) y
bind-Reads p q a b x y h k rest = rw (append_assoc a b rest, h (b ++ rest)) (k rest)

pub read_u8-Reads : (value : ℕ) → value < 256 → Reads read_u8 (le 1 value) value
unfolding read_u8 le
read_u8-Reads value h rest = ap (λ n. done (n, rest)) (omega arith)

pub read_vote-Reads : (vote : Option ℕ) → VoteFits vote → Reads read_vote (vote_bytes vote) vote
unfolding read_vote
read_vote-Reads none h rest = rw (read_u8-Reads 0 (omega arith) rest) refl
read_vote-Reads (some node) h rest =
    rw
      (
        append_assoc (le 1 1) (le 4 node) rest,
        read_u8-Reads 1 (omega arith) (le 4 node ++ rest),
        le-Reads 4 node h rest,
      )
      refl

pub read_hard_state-Reads :
    (hard : Option HardState)
    → HardFits hard
    → Reads (read_hard_state (is_some hard)) (hard_bytes hard) hard
unfolding read_hard_state
read_hard_state-Reads none h rest = refl
read_hard_state-Reads (some hard) h rest =
    rw
      (
        append_assoc (le 8 hard.current_term) (vote_bytes hard.voted_for) rest,
        le-Reads 8 hard.current_term h.0 (vote_bytes hard.voted_for ++ rest),
        read_vote-Reads hard.voted_for h.1 rest,
      )
      refl

pub read_index-Reads :
    (index : Option ℕ)
    → IndexFits index
    → Reads (read_index (is_some index)) (index_bytes index) index
unfolding read_index
read_index-Reads none h rest = refl
read_index-Reads (some index) h rest = rw (le-Reads 8 index h rest) refl

pub read_kind-Reads : (kind : CommandKind) → Reads read_kind (le 1 (kind_code kind)) kind
unfolding read_kind kind_of kind_code read_u8 le
read_kind-Reads CommandKind.put rest = refl
read_kind-Reads CommandKind.erase rest = refl
read_kind-Reads CommandKind.get rest = refl

pub read_fields-Reads :
    (options : WalOptions) (key value : Bytes)
    → NarrowOptions options
    → length key ≤ options.max_key_bytes
    → length value ≤ options.max_value_bytes
    → Reads
        (read_fields options)
        (le 4 (length key) ++ (le 4 (length value) ++ (key ++ value)))
        (key, value)
unfolding read_fields
read_fields-Reads options key value n k v rest =
    let sizes = le 4 (length value) ++ (key ++ value) in
    let within : (ltb options.max_key_bytes (length key)
          || ltb options.max_value_bytes (length value))
        ≡ false =
      ground (arith, k, v) in
    rw
      (
        append_assoc (le 4 (length key)) sizes rest,
        le-Reads 4 (length key) (omega (arith, k, n.key)) (sizes ++ rest),
        append_assoc (le 4 (length value)) (key ++ value) rest,
        le-Reads 4 (length value) (omega (arith, v, n.value)) ((key ++ value) ++ rest),
        within,
        append_assoc key value rest,
        read_string-Reads key (value ++ rest),
        read_string-Reads value rest,
      )
      refl

-- A command's fields behind its marker, grouped to the right.
abbrev pub command_fields : ClientCommand → Bytes
command_fields c =
    le 8 c.session.high
    ++ (le 8 c.session.low
        ++ (le 8 c.sequence
            ++ (le 1 (kind_code c.kind)
                ++ (le 4 (length c.key) ++ (le 4 (length c.value) ++ (c.key ++ c.value))))))

pub read_some_command-Reads :
    (options : WalOptions) (c : ClientCommand)
    → NarrowOptions options
    → CommandFits options (some c)
    → Reads (read_some_command options) (command_fields c) c
unfolding read_some_command
read_some_command-Reads options c n h =
    let (high, low, sequence, key, value) = h in
    let fields = le 4 (length c.key) ++ (le 4 (length c.value) ++ (c.key ++ c.value)) in
    bind-Reads (read_le 8 1 0) _ (le 8 c.session.high) _ c.session.high c
      (le-Reads 8 c.session.high high)
      (bind-Reads (read_le 8 1 0) _ (le 8 c.session.low) _ c.session.low c
        (le-Reads 8 c.session.low low)
        (bind-Reads (read_le 8 1 0) _ (le 8 c.sequence) _ c.sequence c
          (le-Reads 8 c.sequence sequence)
          (bind-Reads read_kind _ (le 1 (kind_code c.kind)) fields c.kind c (read_kind-Reads c.kind)
            (λ rest. rw (read_fields-Reads options c.key c.value n key value rest) refl))))

pub command_layout-fields :
    (c : ClientCommand) → command_layout (some c) ≡ le 1 1 ++ command_fields c
command_layout-fields c = simp append_assoc

pub read_command-Reads :
    (options : WalOptions) (c : Option ClientCommand)
    → NarrowOptions options
    → CommandFits options c
    → Reads (read_command options) (command_layout c) c
unfolding read_command
read_command-Reads options none n h rest = rw (read_u8-Reads 0 (omega arith) rest) refl
read_command-Reads options (some c) n h rest =
    rw
      (
        command_layout-fields c,
        append_assoc (le 1 1) (command_fields c) rest,
        read_u8-Reads 1 (omega arith) (command_fields c ++ rest),
        read_some_command-Reads options c n h rest,
      )
      refl

pub read_entry-Reads :
    (options : WalOptions) (e : LogEntry)
    → NarrowOptions options
    → EntryFits options e
    → Reads (read_entry options) (entry_layout e) e
unfolding read_entry
read_entry-Reads options e n h rest =
    let tail = command_layout e.command in
    rw
      (
        append_assoc (le 8 e.index) (le 8 e.term) tail,
        append_assoc (le 8 e.index) (le 8 e.term ++ tail) rest,
        le-Reads 8 e.index h.0 ((le 8 e.term ++ tail) ++ rest),
        append_assoc (le 8 e.term) tail rest,
        le-Reads 8 e.term h.1 (tail ++ rest),
        read_command-Reads options e.command n h.2 rest,
      )
      refl
