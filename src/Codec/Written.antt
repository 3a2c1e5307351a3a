-- ===== src/Codec/Written.antt =====
-- What an operation of the Writer appends, and that the Reader takes it back.
use native.Mathlib.Nat.{mod-eq_of_lt}
use det_log.Prelude.{
  ◌≡◌, refl, sym, ◌∙◌, ap, subst, ◌≤◌, ◌<◌, ◌+◌, ◌*◌, ◌/◌, ◌%◌, ◌^◌, ℕ, zero, suc, Bool, true,
  false, Option, none, some, [], ◌∷◌, ◌++◌, arith, length, length-append, append_assoc, append_nil,
  take, drop, take-front, drop-front, ltb, if◌then◌else◌, ◌||◌,
}
use det_log.Model.{Bytes}
use det_log.Codec.{Error, shift_bytes}
use det_log.Codec.Writer
use det_log.Codec.Writer.{Writer, ensure, put_u8, put_be, put_bytes, put_string}
use det_log.Codec.Reader
use det_log.Codec.Reader.{Reader, get_u8, get_be, get_string}

-- With room for `out`, the operation returns true and appends `out`.
abbrev pub Writes : (Writer → Bool × Writer) → Bytes → Type 0
Writes op out =
    (w : Writer)
    → length w.bytes + length out ≤ w.limit
    → op w ≡ (true, record w { bytes = w.bytes ++ out })

-- With `out` next, the operation reads it all, and returns `value`.
abbrev pub Reads {ℓ} : {A : Type ℓ} → (Reader → Option A × Reader) → Bytes → A → Type ℓ
Reads op out value =
    (r : Reader) (rest : Bytes)
    → r.left ≡ out ++ rest
    → op r ≡ (some value, record r { left = rest; position = r.position + length out })

pub and_then-Writes :
    (p q : Writer → Bool × Writer) (a b : Bytes)
    → Writes p a
    → Writes q b
    → Writes (λ w. Writer.and_then (p w) q) (a ++ b)
unfolding Writer.and_then
and_then-Writes p q a b f g w h =
    let room = length-append a b in
    let first = f w (omega (arith, room)) in
    let middle = record w { bytes = w.bytes ++ a } in
    rw first (
      g middle (omega (arith, room, length-append w.bytes a))
      ∙ ap (λ out. (true, record w { bytes = out })) (append_assoc w.bytes a b))

pub and_then-Reads {ℓ κ} :
    {A : Type ℓ} {B : Type κ} (p : Reader → Option A × Reader) (q : A → Reader → Option B × Reader)
    (a b : Bytes) (x : A) (y : B)
    → Reads p a x
    → Reads (q x) b y
    → Reads (λ r. Reader.and_then (p r) q) (a ++ b) y
unfolding Reader.and_then
and_then-Reads p q a b x y f g r rest h =
    let first = f r (b ++ rest) (h ∙ append_assoc a b rest) in
    let middle = record r { left = b ++ rest; position = r.position + length a } in
    rw first (
      g middle rest refl
      ∙ ap (λ n. (some y, record r { left = rest; position = n }))
          (omega (arith, length-append a b)))

pub ensure-room :
    (count : ℕ) (w : Writer) → length w.bytes + count ≤ w.limit → ensure count w ≡ (true, w)
unfolding ensure
ensure-room count w h = ground arith

pub put_u8-Writes : (value : ℕ) → Writes (put_u8 value) (value % 256 ∷ [])
unfolding put_u8 Writer.and_then
put_u8-Writes value w h = rw (ensure-room 1 w h) refl

pub put_bytes-Writes : (bytes : Bytes) → Writes (put_bytes bytes) bytes
unfolding put_bytes Writer.and_then
put_bytes-Writes bytes w h = rw (ensure-room (length bytes) w h) refl

pub get_u8-Reads : (byte : ℕ) → Reads get_u8 (byte ∷ []) byte
unfolding get_u8
get_u8-Reads byte r rest h = rw h refl

-- The last bytes of a value, the highest first.
abbrev pub be : ℕ → ℕ → Bytes
be zero value = []
be (suc left) value = shift_bytes left value % 256 ∷ be left value

pub put_be-Writes : (left value : ℕ) → Writes (put_be left value) (be left value)
unfolding put_be
put_be-Writes zero value w h =
    ap (λ out. (true, record w { bytes = out })) (sym (append_nil w.bytes))
put_be-Writes (suc left) value w h =
    and_then-Writes (put_u8 (shift_bytes left value)) (put_be left value)
      (shift_bytes left value % 256 ∷ []) (be left value) (put_u8-Writes (shift_bytes left value))
      (put_be-Writes left value) w h

shift_bytes_le : (count value : ℕ) → shift_bytes count value ≤ value
unfolding shift_bytes
shift_bytes_le zero value = omega arith
shift_bytes_le (suc count) value = omega (arith, shift_bytes_le count value)

-- The reader's loop, at the point where `left` bytes of the value are still to come.
get_be-Reads :
    (width left value : ℕ)
    → value < 2 ^ width
    → Reads (get_be width left (shift_bytes left value)) (be left value) value
unfolding get_be shift_bytes
get_be-Reads width zero value h r rest e =
    let same : r.position ≡ r.position + 0 = omega arith in
    ap (λ n. (some value, record r { position = n })) same
    ∙ ap (λ n. (some value, record r { left = n; position = r.position + 0 })) e
get_be-Reads width (suc left) value h r rest e =
    let x = shift_bytes left value in
    let back : x / 256 * 256 + x % 256 ≡ x = omega arith in
    let small : (x / 256 * 256 + x % 256) % 2 ^ width ≡ x =
      ap (λ n. n % 2 ^ width) back ∙ mod-eq_of_lt (omega (arith, h, shift_bytes_le left value)) in
    and_then-Reads get_u8
      (λ byte. get_be width left ((shift_bytes left value / 256 * 256 + byte) % 2 ^ width))
      (shift_bytes left value % 256 ∷ []) (be left value) (shift_bytes left value % 256) value
      (get_u8-Reads (shift_bytes left value % 256))
      (subst (λ acc. Reads (get_be width left acc) (be left value) value) (sym small)
        (get_be-Reads width left value h))
      r rest e

pub length-be : (left value : ℕ) → length (be left value) ≡ left
length-be zero value = refl
length-be (suc left) value = ap suc (length-be left value)

pub get_u32-Reads : (value : ℕ) → value < 2 ^ 32 → Reads (get_be 32 4 0) (be 4 value) value
unfolding shift_bytes
get_u32-Reads value h =
    let top : shift_bytes 4 value ≡ 0 = omega arith in
    subst (λ acc. Reads (get_be 32 4 acc) (be 4 value) value) top (get_be-Reads 32 4 value h)

pub get_u64-Reads : (value : ℕ) → value < 2 ^ 64 → Reads (get_be 64 8 0) (be 8 value) value
unfolding shift_bytes
get_u64-Reads value h =
    let top : shift_bytes 8 value ≡ 0 = omega arith in
    subst (λ acc. Reads (get_be 64 8 acc) (be 8 value) value) top (get_be-Reads 64 8 value h)

-- A string goes out behind its length.
abbrev pub sized : Bytes → Bytes
sized bytes = be 4 (length bytes) ++ bytes

pub put_string-Writes :
    (bytes : Bytes) (field_limit : ℕ)
    → length bytes ≤ field_limit
    → length bytes < 2 ^ 32
    → Writes (put_string bytes field_limit) (sized bytes)
unfolding put_string
put_string-Writes bytes field_limit h k w room =
    let short : (ltb field_limit (length bytes) || ltb 4294967295 (length bytes)) ≡ false =
      ground arith in
    rw short (
      and_then-Writes (put_be 4 (length bytes)) (put_bytes bytes) (be 4 (length bytes)) bytes
        (put_be-Writes 4 (length bytes)) (put_bytes-Writes bytes) w room)

ltb-append : (xs ys : Bytes) → ltb (length (xs ++ ys)) (length xs) ≡ false
ltb-append xs ys = ground (arith, length-append xs ys)

-- What get_string does once it has the length.
abbrev read_sized : ℕ → ℕ → Reader → Option Bytes × Reader
read_sized field_limit size s =
    if ltb field_limit size
    then (none, Reader.fail Error.limit_exceeded s)
    else if ltb (length s.left) size
    then (none, Reader.fail Error.truncated s)
    else (
      some (take size s.left),
      record s { left = drop size s.left; position = s.position + size },
    )

read_sized-Reads :
    (bytes : Bytes) (field_limit : ℕ)
    → length bytes ≤ field_limit
    → Reads (read_sized field_limit (length bytes)) bytes bytes
read_sized-Reads bytes field_limit h r rest e =
    let within : ltb field_limit (length bytes) ≡ false = ground arith in
    let there : ltb (length r.left) (length bytes) ≡ false = rw e (ltb-append bytes rest) in
    rw (within, there, e, take-front bytes rest, drop-front bytes rest) refl

pub get_string-Reads :
    (bytes : Bytes) (field_limit : ℕ)
    → length bytes ≤ field_limit
    → length bytes < 2 ^ 32
    → Reads (get_string field_limit) (sized bytes) bytes
unfolding get_string
get_string-Reads bytes field_limit h k =
    and_then-Reads (get_be 32 4 0) (read_sized field_limit) (be 4 (length bytes)) bytes
      (length bytes) bytes (get_u32-Reads (length bytes) k) (read_sized-Reads bytes field_limit h)

pub get_u16-Reads : (value : ℕ) → value < 2 ^ 16 → Reads (get_be 16 2 0) (be 2 value) value
unfolding shift_bytes
get_u16-Reads value h =
    let top : shift_bytes 2 value ≡ 0 = omega arith in
    subst (λ acc. Reads (get_be 16 2 acc) (be 2 value) value) top (get_be-Reads 16 2 value h)

-- Returning a value reads nothing.
pub done-Reads {ℓ} : {A : Type ℓ} (value : A) → Reads (λ r. (some value, r)) [] value
done-Reads value r rest h =
    let same : r.position ≡ r.position + 0 = omega arith in
    ap (λ n. (some value, record r { position = n })) same
    ∙ ap (λ n. (some value, record r { left = n; position = r.position + 0 })) h

-- The last read of a chain, whose value goes into the result.
pub last-Reads {ℓ κ} :
    {A : Type ℓ} {B : Type κ} (p : Reader → Option A × Reader) (make : A → B) (out : Bytes) (x : A)
    → Reads p out x
    → Reads (λ r. Reader.and_then (p r) (λ value s. (some (make value), s))) out (make x)
last-Reads p make out x reads =
    subst
      (λ bytes.
        Reads (λ r. Reader.and_then (p r) (λ value s. (some (make value), s))) bytes (make x))
      (append_nil out)
      (and_then-Reads p (λ value s. (some (make value), s)) out [] x (make x) reads
        (done-Reads (make x)))
