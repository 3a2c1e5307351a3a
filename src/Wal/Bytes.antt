-- ===== src/Wal/Bytes.antt =====
-- src/wal.cpp: ByteWriter, ByteReader and crc32c. Numbers go out with the low byte first.
pub mod Laws
use det_log.Prelude.{
  ℕ, zero, suc, ◌+◌, ◌-◌, ◌*◌, ◌/◌, ◌%◌, min, bit_xor, Bool, true, false, String, Option, none,
  some, List, [], ◌∷◌, ◌++◌, ltb, eqb, if◌then◌else◌, length, take, drop,
}
use det_log.Model.{Bytes}
use det_log.Wal.Types.{Result, done, error, ◌>>=◌, throw, WalErrorCode}

pub record ByteWriter : Type 0 where
  pub limit : ℕ
  pub bytes : Bytes

abbrev pub new_writer : ℕ → ByteWriter
new_writer limit = record { limit = limit; bytes = [] }

unfoldable pub raw : Bytes → ByteWriter → Result ByteWriter
raw value w =
    if ltb (w.limit - min w.limit (length w.bytes)) (length value)
    then throw WalErrorCode.bounds_exceeded "encoded WAL object exceeds configured size bound"
    else done (record w { bytes = w.bytes ++ value })

-- The low `count` bytes of a value.
unfoldable pub le : ℕ → ℕ → Bytes
le zero value = []
le (suc count) value = value % 256 ∷ le count (value / 256)

abbrev pub u8 : ℕ → ByteWriter → Result ByteWriter
u8 value w = raw (le 1 value) w

abbrev pub u16 : ℕ → ByteWriter → Result ByteWriter
u16 value w = raw (le 2 value) w

abbrev pub u32 : ℕ → ByteWriter → Result ByteWriter
u32 value w = raw (le 4 value) w

abbrev pub u64 : ℕ → ByteWriter → Result ByteWriter
u64 value w = raw (le 8 value) w

-- A read takes the bytes from position_ on, and returns those that are left.
unfoldable pub read_u8 : Bytes → Result (ℕ × Bytes)
read_u8 [] = throw WalErrorCode.format "declared WAL object is internally truncated"
read_u8 (byte ∷ left) = done (byte, left)

-- The loops over `shift`: `scale` is 2 ^ shift.
unfoldable pub read_le : ℕ → ℕ → ℕ → Bytes → Result (ℕ × Bytes)
unfolding read_u8
read_le zero scale value bytes = done (value, bytes)
read_le (suc count) scale value [] =
    throw WalErrorCode.format "declared WAL object is internally truncated"
read_le (suc count) scale value (byte ∷ left) =
    read_le count (scale * 256) (value + byte * scale) left

abbrev pub read_u16 : Bytes → Result (ℕ × Bytes)
read_u16 bytes = read_le 2 1 0 bytes

abbrev pub read_u32 : Bytes → Result (ℕ × Bytes)
read_u32 bytes = read_le 4 1 0 bytes

abbrev pub read_u64 : Bytes → Result (ℕ × Bytes)
read_u64 bytes = read_le 8 1 0 bytes

-- The loop of expect_literal, which has seen that the bytes are there.
unfoldable pub match_literal : Bytes → String → Bytes → Result Bytes
match_literal [] message bytes = done bytes
match_literal (c ∷ expected) message [] = throw WalErrorCode.format message
match_literal (c ∷ expected) message (byte ∷ left) = elim (eqb byte c) [
  | true ↦ match_literal expected message left
  | false ↦ throw WalErrorCode.format message
]

-- `message` is "invalid " and the name.
unfoldable pub expect_literal : Bytes → String → Bytes → Result Bytes
unfolding match_literal
expect_literal expected message bytes =
    if ltb (length bytes) (length expected)
    then throw WalErrorCode.format "declared WAL object is internally truncated"
    else match_literal expected message bytes

unfoldable pub read_string : ℕ → Bytes → Result (Bytes × Bytes)
read_string size bytes =
    if ltb (length bytes) size
    then throw WalErrorCode.format "declared WAL object is internally truncated"
    else done (take size bytes, drop size bytes)

-- One bit of the loop.
unfoldable pub crc_bit : ℕ → ℕ
crc_bit crc = if eqb (crc % 2) 1 then bit_xor (crc / 2) 0x82f63b78 else crc / 2

unfoldable pub crc_bits : ℕ → ℕ → ℕ
unfolding crc_bit
crc_bits zero crc = crc
crc_bits (suc left) crc = crc_bits left (crc_bit crc)

unfoldable pub crc_loop : ℕ → Bytes → ℕ
unfolding crc_bits
crc_loop crc [] = crc
crc_loop crc (byte ∷ rest) = crc_loop (crc_bits 8 (bit_xor crc byte)) rest

-- ~crc on 32 bits is 2 ^ 32 - 1 less crc.
unfoldable pub crc32c : Bytes → ℕ
unfolding crc_loop
crc32c bytes = 0xffffffff - crc_loop 0xffffffff bytes
