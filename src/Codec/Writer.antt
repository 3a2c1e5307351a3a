-- ===== src/Codec/Writer.antt =====
-- src/codec.cpp: class Writer. No error is none, as Error::none.
use det_log.Prelude.{
  ℕ, zero, suc, ◌-◌, ◌%◌, Bool, true, false, ◌||◌, [], ◌∷◌, ◌++◌, Option, none, some, if◌then◌else◌,
  ltb, length,
}
use det_log.Model.{Bytes}
use det_log.Codec.{Error, shift_bytes}

pub record Writer : Type 0 where
  pub limit : ℕ
  pub bytes : Bytes
  pub error : Option Error
  pub error_offset : ℕ

abbrev pub new_writer : ℕ → Writer
new_writer limit = record { limit = limit; bytes = []; error = none; error_offset = 0 }

unfoldable pub fail : Error → Writer → Writer
fail error w = elim w.error [
  | none ↦ record w { error = some error; error_offset = length w.bytes }
  | some e ↦ w
]

-- `a && b`: the second runs if the first returned true.
unfoldable pub and_then : Bool × Writer → (Writer → Bool × Writer) → Bool × Writer
and_then (true, w) next = next w
and_then (false, w) next = (false, w)

unfoldable pub ensure : ℕ → Writer → Bool × Writer
ensure count w =
    if ltb w.limit count || ltb (w.limit - count) (length w.bytes)
    then (false, fail Error.limit_exceeded w)
    else (true, w)

unfoldable pub put_bytes : Bytes → Writer → Bool × Writer
put_bytes bytes w =
    and_then (ensure (length bytes) w) (λ v. (true, record v { bytes = v.bytes ++ bytes }))

unfoldable pub put_u8 : ℕ → Writer → Bool × Writer
put_u8 value w =
    and_then (ensure 1 w) (λ v. (true, record v { bytes = v.bytes ++ value % 256 ∷ [] }))

-- The loops over `shift`, with the number of bytes left.
unfoldable pub put_be : ℕ → ℕ → Writer → Bool × Writer
put_be zero value w = (true, w)
put_be (suc left) value w = and_then (put_u8 (shift_bytes left value) w) (put_be left value)

abbrev pub put_u16 : ℕ → Writer → Bool × Writer
put_u16 value w = put_be 2 value w

abbrev pub put_u32 : ℕ → Writer → Bool × Writer
put_u32 value w = put_be 4 value w

abbrev pub put_u64 : ℕ → Writer → Bool × Writer
put_u64 value w = put_be 8 value w

unfoldable pub put_string : Bytes → ℕ → Writer → Bool × Writer
put_string value field_limit w =
    if ltb field_limit (length value) || ltb 4294967295 (length value)
    then (false, fail Error.limit_exceeded w)
    else and_then (put_u32 (length value) w) (put_bytes value)
