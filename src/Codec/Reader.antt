-- ===== src/Codec/Reader.antt =====
-- src/codec.cpp: class Reader. `left` is bytes_ from position_ on.
use det_log.Prelude.{
  ℕ, zero, suc, ◌+◌, ◌*◌, ◌%◌, ◌^◌, Bool, [], ◌∷◌, Option, none, some, if◌then◌else◌, ltb, eqb,
  length, take, drop,
}
use det_log.Model.{Bytes, is_nil}
use det_log.Codec.{Error}

pub record Reader : Type 0 where
  pub left : Bytes
  pub base : ℕ
  pub position : ℕ
  pub error : Option Error
  pub error_offset : ℕ

abbrev pub new_reader : Bytes → ℕ → Reader
new_reader bytes base = record {
  left = bytes;
  base = base;
  position = 0;
  error = none;
  error_offset = 0;
}

abbrev pub at_end : Reader → Bool
at_end r = is_nil r.left

abbrev pub absolute_position : Reader → ℕ
absolute_position r = r.base + r.position

unfoldable pub fail : Error → Reader → Reader
fail error r = elim r.error [
  | none ↦ record r { error = some error; error_offset = absolute_position r }
  | some e ↦ r
]

-- `none` is a method's `false`; the next read runs if this one returned true.
unfoldable pub and_then {ℓ κ} :
    {A : Type ℓ} {B : Type κ}
    → Option A × Reader
    → (A → Reader → Option B × Reader)
    → Option B × Reader
and_then (some value, r) next = next value r
and_then (none, r) next = (none, r)

unfoldable pub get_u8 : Reader → Option ℕ × Reader
get_u8 r = elim r.left [
  | [] ↦ (none, fail Error.truncated r)
  | byte ∷ rest ↦ (some byte, record r { left = rest; position = r.position + 1 })
]

-- The loop of get_u32 and get_u64, and get_u16 unrolled: `value` has `width` bits.
unfoldable pub get_be : ℕ → ℕ → ℕ → Reader → Option ℕ × Reader
get_be width zero value r = (some value, r)
get_be width (suc left) value r =
    and_then (get_u8 r) (λ byte. get_be width left ((value * 256 + byte) % 2 ^ width))

abbrev pub get_u16 : Reader → Option ℕ × Reader
get_u16 r = get_be 16 2 0 r

abbrev pub get_u32 : Reader → Option ℕ × Reader
get_u32 r = get_be 32 4 0 r

abbrev pub get_u64 : Reader → Option ℕ × Reader
get_u64 r = get_be 64 8 0 r

unfoldable pub get_string : ℕ → Reader → Option Bytes × Reader
get_string field_limit r = and_then (get_u32 r) λ size s.
    if ltb field_limit size
    then (none, fail Error.limit_exceeded s)
    else if ltb (length s.left) size
    then (none, fail Error.truncated s)
    else (
      some (take size s.left),
      record s { left = drop size s.left; position = s.position + size },
    )

unfoldable pub get_bool : Reader → Option Bool × Reader
get_bool r =
    and_then (get_u8 r)
      λ raw s. if ltb 1 raw then (none, fail Error.invalid_boolean s) else (some (eqb raw 1), s)
