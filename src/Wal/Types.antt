-- ===== src/Wal/Types.antt =====
-- include/detlog/wal.hpp: options, errors and the logical state of the write-ahead log; the bounds of
-- src/wal.cpp and `validate_options`. A throw is the result `error`.
use det_log.Prelude.{
  ◌≡◌, refl, ℕ, Bool, false, ◌||◌, String, Option, none, some, List, [], ltb, eqb, if◌then◌else◌,
}
use det_log.Model.{HardState, LogEntry}

pub record WalIdentity : Type 0 where
  pub cluster_id_high : ℕ
  pub cluster_id_low : ℕ
  pub node_id : ℕ

pub data WalFlushPolicy : Type 0 where
  flush_every_append unsafe_no_flush : WalFlushPolicy

pub record WalOptions : Type 0 where
  pub flush_policy : WalFlushPolicy
  pub max_frame_bytes : ℕ
  pub max_group_bytes : ℕ
  pub max_group_frames : ℕ
  pub max_entries_per_frame : ℕ
  pub max_key_bytes : ℕ
  pub max_value_bytes : ℕ
  pub max_log_entries : ℕ

pub data WalErrorCode : Type 0 where
  io format checksum identity_mismatch invariant_violation bounds_exceeded failed : WalErrorCode

-- `offset` is the offset that `with_offset` puts behind the text.
pub record WalError : Type 0 where
  pub code : WalErrorCode
  pub message : String
  pub offset : Option ℕ

pub data Result {ℓ} (A : Type ℓ) : Type ℓ where
  done : A → Result A
  error : WalError → Result A

infixl 5 ◌>>=◌
abbrev pub ◌>>=◌ {ℓ κ} : {A : Type ℓ} {B : Type κ} → Result A → (A → Result B) → Result B
done a >>= f = f a
error e >>= f = error e

abbrev pub throw {ℓ} : {A : Type ℓ} → WalErrorCode → String → Result A
throw code message = error (record { code = code; message = message; offset = none })

-- A call that changes the file, and what follows when it did not throw.
abbrev pub and_then : {F A B : Type 0} → Result A × F → (A → F → Result B × F) → Result B × F
and_then (done a, f) next = next a f
and_then (error e, f) next = (error e, f)

-- catch (const WalError&) that throws again with the offset
abbrev pub located {ℓ} : {A : Type ℓ} → ℕ → Result A → Result A
located at (done a) = done a
located at (error e) = error (record e { offset = some at })

pub done_injective {ℓ} : {A : Type ℓ} {a b : A} → done a ≡ done b → a ≡ b
done_injective h = cc

-- The parts of a bind that went through.
pub bind-done {ℓ κ} :
    {A : Type ℓ} {B : Type κ} (m : Result A) (f : A → Result B) {b : B}
    → (m >>= f) ≡ done b
    → (a : A) × (m ≡ done a) × (f a ≡ done b)
bind-done (done a) f h = (a, refl, h)
bind-done (error e) f h = cc

pub record WalState : Type 0 where
  pub hard_state : HardState
  pub entries : List LogEntry
  pub commit_index : ℕ
  pub last_frame_sequence : ℕ
  pub durable_frame_sequence : ℕ
  pub file_bytes : ℕ
  pub repaired_incomplete_tail : Bool

abbrev pub empty_state : WalState
empty_state = record {
  hard_state = record { current_term = 0; voted_for = none };
  entries = [];
  commit_index = 0;
  last_frame_sequence = 0;
  durable_frame_sequence = 0;
  file_bytes = 0;
  repaired_incomplete_tail = false;
}

abbrev pub file_header_bytes : ℕ
file_header_bytes = 48

abbrev pub frame_header_bytes : ℕ
frame_header_bytes = 48

abbrev pub frame_trailer_bytes : ℕ
frame_trailer_bytes = 24

abbrev pub minimum_entry_payload_bytes : ℕ
minimum_entry_payload_bytes = 17

abbrev pub minimum_frame_bytes : ℕ
minimum_frame_bytes = 80

abbrev pub absolute_max_frame_bytes : ℕ
absolute_max_frame_bytes = 268435456

abbrev pub absolute_max_group_bytes : ℕ
absolute_max_group_bytes = 536870912

abbrev pub absolute_max_group_frames : ℕ
absolute_max_group_frames = 65536

abbrev pub absolute_max_entries_per_frame : ℕ
absolute_max_entries_per_frame = 1000000

abbrev pub absolute_max_log_entries : ℕ
absolute_max_log_entries = 100000000

-- The type admits no policy but the two.
unfoldable pub validate_options : WalOptions → Result (Unit {0})
validate_options o =
    if ltb o.max_frame_bytes minimum_frame_bytes || ltb absolute_max_frame_bytes o.max_frame_bytes
    then throw WalErrorCode.bounds_exceeded "max_frame_bytes is outside the supported range"
    else if ltb o.max_group_bytes o.max_frame_bytes
        || ltb absolute_max_group_bytes o.max_group_bytes
    then throw WalErrorCode.bounds_exceeded "max_group_bytes is outside the supported range"
    else if eqb o.max_group_frames 0 || ltb absolute_max_group_frames o.max_group_frames
    then throw WalErrorCode.bounds_exceeded "max_group_frames is outside the supported range"
    else if eqb o.max_entries_per_frame 0
        || ltb absolute_max_entries_per_frame o.max_entries_per_frame
    then throw WalErrorCode.bounds_exceeded "max_entries_per_frame is outside the supported range"
    else if ltb absolute_max_frame_bytes o.max_key_bytes
        || ltb absolute_max_frame_bytes o.max_value_bytes
    then throw WalErrorCode.bounds_exceeded "command field bound exceeds the absolute frame bound"
    else if eqb o.max_log_entries 0 || ltb absolute_max_log_entries o.max_log_entries
    then throw WalErrorCode.bounds_exceeded "max_log_entries is outside the supported range"
    else done tt
