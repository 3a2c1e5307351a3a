-- ===== src/Codec/Canonical.antt =====
-- What the Reader of src/codec.cpp has read when a method returns a value: the bytes that the Writer
-- writes for it.
pub mod Headers
pub mod Frames
pub mod Fields
pub mod Commands
pub mod Appends
pub mod Messages
use native.Mathlib.Nat.{mod-eq_of_lt}
use det_log.Prelude.{
  ◌≡◌, refl, sym, ◌∙◌, ap, subst, inl, inr, ◌≤◌, ◌<◌, ◌+◌, ◌*◌, ◌-◌, ◌/◌, ◌%◌, ◌^◌, ℕ, zero, suc,
  Bool, true, false, Option, none, some, [], ◌∷◌, ◌++◌, All, arith, Bool-cases, length, length-take,
  append_assoc, append_nil, take, drop, take-split, take-all, ltb, eqb, if◌then◌else◌,
  some-injective,
}
use det_log.Model.{Bytes, CommandKind, kind_code}
use det_log.Codec.{Error, shift_bytes}
use det_log.Codec.Reader
use det_log.Codec.Reader.{Reader, get_u8, get_be, get_string, get_bool}
use det_log.Codec.Written.{be, sized}

-- A std::byte is below 256.
abbrev pub Octets : Bytes → Type 0
Octets bytes = All (λ byte. byte < 256) bytes

-- Between `r` and `s` the bytes `out` were read.
pub record Taken (r s : Reader) (out : Bytes) : Type 0 where
  pub split : r.left ≡ out ++ s.left
  pub octets : Octets s.left

pub Taken-trans : {r s t : Reader} {a b : Bytes} → Taken r s a → Taken s t b → Taken r t (a ++ b)
Taken-trans {t = t} {a = a} {b = b} h k = record {
  split = h.split ∙ ap (λ rest. a ++ rest) k.split ∙ sym (append_assoc a b t.left);
  octets = k.octets;
}

pub Taken-none : (r : Reader) → Octets r.left → Taken r r []
Taken-none r h = record { split = refl; octets = h }

-- A method and the one behind it returned.
pub and_then-some {ℓ κ} :
    {A : Type ℓ} {B : Type κ} (p : Option A × Reader) (q : A → Reader → Option B × Reader) {b : B}
    {s : Reader}
    → Reader.and_then p q ≡ (some b, s)
    → (a : A) × (t : Reader) × (p ≡ (some a, t)) × (q a t ≡ (some b, s))
unfolding Reader.and_then
and_then-some (some a, t) q h = (a, t, refl, h)
and_then-some (none, t) q h = cc

-- What a method returned, and where it left the reader.
pub returned :
    {A : Type 0} {a b : A} {r s : Reader}
    → ◌≡◌ {A = Option A × Reader} (some a, r) (some b, s)
    → (a ≡ b) × (r ≡ s)
returned {A = A} h = (
  some-injective _ _ (ap (λ (p : Option A × Reader). p.0) h),
  ap (λ (p : Option A × Reader). p.1) h,
)

refused :
    {A : Type 0} {b : A} {r s : Reader} → ◌≡◌ {A = Option A × Reader} (none, r) (some b, s) → ⊥
refused {A = A} h = cc (ap (λ (p : Option A × Reader). p.0) h)

read_front :
    (left : Bytes) (r s : Reader) (byte : ℕ)
    → r.left ≡ left
    → Octets left
    → elim left as (λ _. Option ℕ × Reader) [
      | [] ↦ (none, Reader.fail Error.truncated r)
      | first ∷ rest ↦ (some first, record r { left = rest; position = r.position + 1 })
    ]
      ≡ (some byte, s)
    → Taken r s (byte ∷ []) × (byte < 256)
read_front [] r s byte same octets h = absurd (refused h)
read_front (first ∷ rest) r s byte same octets h =
    let (value, place) = returned h in
    let left = ap (λ (t : Reader). t.left) place in
    (
      record {
        split = same ∙ ap (λ b. b ∷ rest) value ∙ ap (λ rest. byte ∷ rest) left;
        octets = subst Octets left octets.1;
      },
      subst (λ b. b < 256) value octets.0,
    )

pub get_u8-Taken :
    (r s : Reader) (byte : ℕ)
    → Octets r.left
    → get_u8 r ≡ (some byte, s)
    → Taken r s (byte ∷ []) × (byte < 256)
unfolding get_u8
get_u8-Taken r s byte octets h = read_front r.left r s byte refl octets h

-- The loop of a number with `left` bytes to come never cuts its value off.
abbrev Fits : ℕ → ℕ → ℕ → Type 0
Fits width zero value = value < 2 ^ width
Fits width (suc left) value =
    (byte : ℕ)
    → byte < 256
    → (value * 256 + byte < 2 ^ width) × Fits width left (value * 256 + byte)

Fits-more :
    (width left most : ℕ)
    → 256 * most ≤ 2 ^ width
    → ((value : ℕ) → value < 256 * most → Fits width left value)
    → (value : ℕ) → value < most
    → Fits width (suc left) value
Fits-more width left most room more value few byte small =
    (omega (arith, room, few, small), more (value * 256 + byte) (omega (arith, few, small)))

get_be-Taken :
    (width left value : ℕ) (r s : Reader) (n : ℕ)
    → Fits width left value
    → Octets r.left
    → get_be width left value r ≡ (some n, s)
    → Taken r s (be left n) × (shift_bytes left n ≡ value) × (n < 2 ^ width)
unfolding get_be shift_bytes
get_be-Taken width zero value r s n fits octets h =
    let (same, place) = returned h in
    (
      subst (λ s. Taken r s []) place (Taken-none r octets),
      sym same,
      subst (λ n. n < 2 ^ width) same fits,
    )
get_be-Taken width (suc left) value r s n fits octets h =
    let (byte, t, read, more) =
      and_then-some (get_u8 r) (λ byte. get_be width left ((value * 256 + byte) % 2 ^ width)) h in
    let (first, small) = get_u8-Taken r t byte octets read in
    let (room, fits_more) = fits byte small in
    let uncut = mod-eq_of_lt room in
    let (rest, shifted, word) =
      get_be-Taken width left (value * 256 + byte) t s n fits_more first.octets
        (subst (λ v. get_be width left v t ≡ (some n, s)) uncut more) in
    let low : byte ≡ shift_bytes left n % 256 = omega (arith, shifted, small) in
    (
      subst (λ b. Taken r s (b ∷ be left n)) low (Taken-trans first rest),
      omega (arith, shifted, small),
      word,
    )

word_16 : Fits 16 2 0
word_16 =
    Fits-more 16 1 1 (omega arith)
      (Fits-more 16 0 256 (omega arith) (λ value few. omega (arith, few))) 0 (omega arith)

word_32 : Fits 32 4 0
word_32 =
    Fits-more 32 3 1 (omega arith)
      (Fits-more 32 2 256 (omega arith) (
        Fits-more 32 1 65536 (omega arith)
          (Fits-more 32 0 16777216 (omega arith) (λ value few. omega (arith, few)))))
      0 (omega arith)

word_64 : Fits 64 8 0
word_64 =
    Fits-more 64 7 1 (omega arith)
      (Fits-more 64 6 256 (omega arith) (
        Fits-more 64 5 65536 (omega arith) (
          Fits-more 64 4 16777216 (omega arith) (
            Fits-more 64 3 4294967296 (omega arith) (
              Fits-more 64 2 1099511627776 (omega arith) (
                Fits-more 64 1 281474976710656 (omega arith) (
                  Fits-more 64 0 72057594037927936 (omega arith)
                    (λ value few. omega (arith, few)))))))))
      0 (omega arith)

pub get_u16-Taken :
    (r s : Reader) (n : ℕ)
    → Octets r.left
    → get_be 16 2 0 r ≡ (some n, s)
    → Taken r s (be 2 n) × (n < 2 ^ 16)
get_u16-Taken r s n octets h =
    let (taken, _, word) = get_be-Taken 16 2 0 r s n word_16 octets h in (taken, word)

pub get_u32-Taken :
    (r s : Reader) (n : ℕ)
    → Octets r.left
    → get_be 32 4 0 r ≡ (some n, s)
    → Taken r s (be 4 n) × (n < 2 ^ 32)
get_u32-Taken r s n octets h =
    let (taken, _, word) = get_be-Taken 32 4 0 r s n word_32 octets h in (taken, word)

pub get_u64-Taken :
    (r s : Reader) (n : ℕ)
    → Octets r.left
    → get_be 64 8 0 r ≡ (some n, s)
    → Taken r s (be 8 n) × (n < 2 ^ 64)
get_u64-Taken r s n octets h =
    let (taken, _, word) = get_be-Taken 64 8 0 r s n word_64 octets h in (taken, word)

Octets-drop : (n : ℕ) (bytes : Bytes) → Octets bytes → Octets (drop n bytes)
Octets-drop zero bytes h = h
Octets-drop (suc n) [] h = tt
Octets-drop (suc n) (byte ∷ bytes) h = Octets-drop n bytes h.1

take-drop : (n : ℕ) (bytes : Bytes) → take n bytes ++ drop n bytes ≡ bytes
take-drop zero bytes = refl
take-drop (suc n) [] = refl
take-drop (suc n) (byte ∷ bytes) = ap (λ rest. byte ∷ rest) (take-drop n bytes)

pub get_string-Taken :
    (field_limit : ℕ) (r s : Reader) (bytes : Bytes)
    → Octets r.left
    → get_string field_limit r ≡ (some bytes, s)
    → Taken r s (sized bytes) × (length bytes ≤ field_limit) × (length bytes < 2 ^ 32)
unfolding get_string
get_string-Taken field_limit r s bytes octets h =
    let (size, t, read, more) = and_then-some (get_be 32 4 0 r) _ h in
    let (prefix, word) = get_u32-Taken r t size octets read in
    elim (Bool-cases (ltb field_limit size)) [
      | inl long ↦ let bad = rw long at more in absurd (refused bad)
      | inr fits ↦
          let more1 = rw fits at more in
          elim (Bool-cases (ltb (length t.left) size)) [
            | inl short ↦ let bad = rw short at more1 in absurd (refused bad)
            | inr enough ↦
                let (same, place) = returned (rw enough at more1) in
                let part = length-take size t.left in
                let level : size ≡ length bytes = ground (arith, part, enough, ap length same) in
                let left = ap (λ (u : Reader). u.left) place in
                let body : Taken t s bytes = record {
                  split =
                      sym (take-drop size t.left)
                      ∙ ap (λ front. front ++ drop size t.left) same
                      ∙ ap (λ rest. bytes ++ rest) left;
                  octets = subst Octets left (Octets-drop size t.left prefix.octets);
                } in
                (
                  Taken-trans (subst (λ n. Taken r t (be 4 n)) level prefix) body,
                  ground (arith, fits, level),
                  omega (arith, word, level),
                )
          ]
    ]

pub get_bool-Taken :
    (r s : Reader) (answer : Bool)
    → Octets r.left
    → get_bool r ≡ (some answer, s)
    → Taken r s ((if answer then 1 else 0) ∷ [])
unfolding get_bool
get_bool-Taken r s answer octets h =
    let (raw, t, read, more) = and_then-some (get_u8 r) _ h in
    let (taken, _) = get_u8-Taken r t raw octets read in
    elim (Bool-cases (ltb 1 raw)) [
      | inl large ↦ let bad = rw large at more in absurd (refused bad)
      | inr small ↦
          let (same, place) = returned (rw small at more) in
          let value : raw ≡ (if answer then 1 else 0) = ground (arith, small, same) in
          subst (λ s. Taken r s ((if answer then 1 else 0) ∷ [])) place
            (subst (λ b. Taken r t (b ∷ [])) value taken)
    ]
