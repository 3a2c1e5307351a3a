-- ===== src/Codec.antt =====
-- include/detlog/codec.hpp: the limits and the errors of the wire codec. A method that returns bool
-- returns the object with it; what a failed read leaves in its out-parameter is never looked at.
pub mod Writer
pub mod Reader
pub mod Payload
pub mod Frame
pub mod Written
pub mod Canonical
pub mod Framed
pub mod Command
pub mod Entry
pub mod Message
pub mod Decode
pub mod Votes
pub mod Appends
pub mod Messages
mod Tests
use det_log.Prelude.{ℕ, zero, suc, ◌/◌}

pub record Limits : Type 0 where
  pub max_frame_bytes : ℕ
  pub max_key_bytes : ℕ
  pub max_value_bytes : ℕ
  pub max_entries_per_append : ℕ

pub data Error : Type 0 where
  truncated bad_magic unsupported_version unknown_type nonzero_reserved : Error
  invalid_boolean invalid_enum invalid_value limit_exceeded length_overflow : Error
  trailing_bytes unexpected_type : Error

-- A value, or an error with its offset.
pub data Result {ℓ} (A : Type ℓ) : Type ℓ where
  success : A → Result A
  failure : Error → ℕ → Result A

abbrev pub header_bytes : ℕ
header_bytes = 12

-- value >> 8 * count, for an unsigned value
unfoldable pub shift_bytes : ℕ → ℕ → ℕ
shift_bytes zero value = value
shift_bytes (suc count) value = shift_bytes count value / 256
