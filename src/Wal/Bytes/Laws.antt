-- ===== src/Wal/Bytes/Laws.antt =====
-- What the ByteWriter of src/wal.cpp leaves, and that the ByteReader takes it back.
use det_log.Prelude.{
  ◌≡◌, inl, inr, refl, sym, ◌∙◌, ap, subst, ℕ, zero, suc, ◌+◌, ◌*◌, ◌/◌, ◌%◌, ◌^◌, ◌<◌, true,
  String, [], ◌∷◌, ◌++◌, arith, ltb, eqb, length, length-append, take, drop, take-front, drop-front,
  Bool-cases,
}
use det_log.Model.{Bytes}
use det_log.Wal.Types.{Result, done, ◌>>=◌, bind-done}
use det_log.Wal.Bytes.{
  ByteWriter, raw, le, read_le, match_literal, expect_literal, read_string, crc32c,
}

-- If the writes went through, they left this.
abbrev pub Outputs : Result ByteWriter → ByteWriter → Type 0
Outputs r w = (v : ByteWriter) → r ≡ done v → v ≡ w

pub bind-Outputs :
    (r : Result ByteWriter) (f : ByteWriter → Result ByteWriter) {w v : ByteWriter}
    → Outputs r w
    → Outputs (f w) v
    → Outputs (r >>= f) v
bind-Outputs r f {w} h k v e =
    let (middle, first, second) = bind-done r f e in k v (ap f (sym (h middle first)) ∙ second)

pub raw-Outputs :
    (value : Bytes) (w : ByteWriter) → Outputs (raw value w) (record w { bytes = w.bytes ++ value })
unfolding raw
raw-Outputs value w v e = ground arith

pub length-le : (count value : ℕ) → length (le count value) ≡ count
unfolding le
length-le zero value = refl
length-le (suc count) value = omega (arith, length-le count (value / 256))

-- With `out` next, the read returns `value` and what follows.
abbrev pub Reads {ℓ} : {A : Type ℓ} → (Bytes → Result (A × Bytes)) → Bytes → A → Type ℓ
Reads read out value = (rest : Bytes) → read (out ++ rest) ≡ done (value, rest)

bytes_of_value :
    (value scale start : ℕ)
    → start + value % 256 * scale + value / 256 * (scale * 256) ≡ start + value * scale
bytes_of_value value scale start =
    let e : value % 256 + value / 256 * 256 ≡ value = omega arith in
    let f = ap (λ (t : ℕ). t * scale) e in grind (arith, f)

read_le-le :
    (count scale start value : ℕ) (rest : Bytes)
    → value < 256 ^ count
    → read_le count scale start (le count value ++ rest) ≡ done (start + value * scale, rest)
unfolding read_le le
read_le-le zero scale start value rest h =
    let none_left : value ≡ 0 = omega arith in rw none_left (ap (λ n. done (n, rest)) (omega arith))
read_le-le (suc count) scale start value rest h =
    let below : value / 256 < 256 ^ count = omega arith in
    read_le-le count (scale * 256) (start + value % 256 * scale) (value / 256) rest below
    ∙ ap (λ n. done (n, rest)) (bytes_of_value value scale start)

pub le-Reads :
    (count value : ℕ) → value < 256 ^ count → Reads (read_le count 1 0) (le count value) value
le-Reads count value h rest =
    read_le-le count 1 0 value rest h ∙ ap (λ n. done (n, rest)) (omega arith)

pub read_string-Reads : (value : Bytes) → Reads (read_string (length value)) value value
unfolding read_string
read_string-Reads value rest = elim (Bool-cases (ltb (length (value ++ rest)) (length value))) [
  | inl short ↦ absurd (ground (arith, short, length-append value rest))
  | inr long ↦ rw (long, take-front value rest, drop-front value rest) refl
]

match_literal-lem :
    (expected : Bytes) (message : String) (rest : Bytes)
    → match_literal expected message (expected ++ rest) ≡ done rest
unfolding match_literal
match_literal-lem [] message rest = refl
match_literal-lem (c ∷ expected) message rest =
    let same : eqb c c ≡ true = ground arith in
    rw (same, match_literal) (match_literal-lem expected message rest)

pub expect_literal-front :
    (expected : Bytes) (message : String) (rest : Bytes)
    → expect_literal expected message (expected ++ rest) ≡ done rest
unfolding expect_literal
expect_literal-front expected message rest =
    elim (Bool-cases (ltb (length (expected ++ rest)) (length expected))) [
      | inl short ↦ absurd (ground (arith, short, length-append expected rest))
      | inr long ↦ rw long (match_literal-lem expected message rest)
    ]

pub crc32c-lt : (bytes : Bytes) → crc32c bytes < 256 ^ 4
unfolding crc32c
crc32c-lt bytes = omega arith

-- The first `n` bytes, and what follows them.
pub take-size : (n : ℕ) (front rest : Bytes) → length front ≡ n → take n (front ++ rest) ≡ front
take-size n front rest h = subst (λ m. take m (front ++ rest) ≡ front) h (take-front front rest)

pub drop-size : (n : ℕ) (front rest : Bytes) → length front ≡ n → drop n (front ++ rest) ≡ rest
drop-size n front rest h = subst (λ m. drop m (front ++ rest) ≡ rest) h (drop-front front rest)
