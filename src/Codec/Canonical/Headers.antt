-- ===== src/Codec/Canonical/Headers.antt =====
-- The frame headers that `parse_frame` of src/codec.cpp accepts.
use det_log.Prelude.{
  ◌≡◌, refl, sym, ◌∙◌, ap, subst, inl, inr, ◌≤◌, ◌<◌, ◌%◌, ◌^◌, ℕ, Bool, true, false, Option, none,
  some, [], ◌∷◌, ◌++◌, arith, Bool-cases, length, take, drop, ltb, eqb, if◌then◌else◌,
}
use det_log.Model.{Bytes}
use det_log.Codec.{Error, Limits, Result, success, failure, header_bytes}
use det_log.Codec.Reader.{Reader, get_u8, get_be}
use det_log.Codec.Frame.{
  WireType, type_code, type_of, payload_limit, magic, version, get_magic, Header, get_header,
  ParsedFrame, check_header,
}
use det_log.Codec.Written.{be}
use det_log.Codec.Framed.{frame_bytes}
use det_log.Codec.Canonical.{
  Octets, Taken, Taken-trans, Taken-none, and_then-some, returned, refused, get_u8-Taken,
  get_u16-Taken, get_u32-Taken,
}

pub get_magic-Taken :
    (literal : Bytes) (r s : Reader) (seen : Unit {0})
    → Octets r.left
    → get_magic literal r ≡ (some seen, s)
    → Taken r s literal
unfolding get_magic
get_magic-Taken [] r s seen octets h =
    let (_, place) = returned h in subst (λ s. Taken r s []) place (Taken-none r octets)
get_magic-Taken (expected ∷ rest) r s seen octets h =
    let (actual, t, read, more) = and_then-some (get_u8 r) _ h in
    let (first, _) = get_u8-Taken r t actual octets read in
    elim (Bool-cases (eqb actual expected)) [
      | inr other ↦ let bad = rw other at more in absurd (refused bad)
      | inl same ↦
          let level : actual ≡ expected = ground (arith, same) in
          let taken = get_magic-Taken rest t s seen first.octets (rw same at more) in
          Taken-trans (subst (λ b. Taken r t (b ∷ [])) level first) taken
    ]

-- The header's bytes.
abbrev pub header_layout : Header → Bytes
header_layout h =
    magic ++ ((h.version ∷ []) ++ ((h.raw_type ∷ []) ++ (be 2 h.reserved ++ be 4 h.length)))

pub get_header-Taken :
    (r s : Reader) (h : Header)
    → Octets r.left
    → get_header r ≡ (some h, s)
    → Taken r s (header_layout h) × (h.length < 2 ^ 32)
unfolding get_header
get_header-Taken r s h octets ran =
    let (seen, a, read_a, ran_a) = and_then-some (get_magic magic r) _ ran in
    let taken_a = get_magic-Taken magic r a seen octets read_a in
    let (v, b, read_b, ran_b) = and_then-some (get_u8 a) _ ran_a in
    let (taken_b, _) = get_u8-Taken a b v taken_a.octets read_b in
    let (raw_type, c, read_c, ran_c) = and_then-some (get_u8 b) _ ran_b in
    let (taken_c, _) = get_u8-Taken b c raw_type taken_b.octets read_c in
    let (reserved, d, read_d, ran_d) = and_then-some (get_be 16 2 0 c) _ ran_c in
    let (taken_d, _) = get_u16-Taken c d reserved taken_c.octets read_d in
    let (size, e, read_e, ran_e) = and_then-some (get_be 32 4 0 d) _ ran_d in
    let (taken_e, word) = get_u32-Taken d e size taken_d.octets read_e in
    let (same, place) = returned ran_e in
    let taken : Taken r e (
        header_layout
          (record { version = v; raw_type = raw_type; reserved = reserved; length = size })) =
      Taken-trans taken_a
        (Taken-trans taken_b (Taken-trans taken_c (Taken-trans taken_d taken_e))) in
    (
      subst (λ s. Taken r s (header_layout h)) place
          (subst (λ h. Taken r e (header_layout h)) same taken),
      subst (λ (h : Header). h.length < 2 ^ 32) same word,
    )

-- The first test of a chain, or the rest of it.
pub choose :
    (value code : ℕ) (a type : WireType) (rest : Option WireType)
    → type_code a % 256 ≡ code
    → (rest ≡ some type → value ≡ type_code type % 256)
    → (if eqb value code then some a else rest) ≡ some type
    → value ≡ type_code type % 256
choose value code a type rest same other h = elim (Bool-cases (eqb value code)) [
  | inl this ↦
      let named : a ≡ type = cc (rw this at h) in
      let level : value ≡ code = ground (arith, this) in
      level ∙ sym same ∙ ap (λ type. type_code type % 256) named
  | inr that ↦ other (rw that at h)
]

pub type_of-inverse :
    (value : ℕ) (type : WireType) → type_of value ≡ some type → value ≡ type_code type % 256
unfolding type_of type_code
type_of-inverse value type h =
    choose value 1 WireType.command type _ refl
      (choose value 2 WireType.log_entry type _ refl (
        choose value 16 WireType.request_vote type _ refl (
          choose value 17 WireType.request_vote_response type _ refl (
            choose value 18 WireType.append_entries type _ refl (
              choose value 19 WireType.append_entries_response type none refl
                (λ bad. absurd (cc (bad))))))))
      h

pub success_injective : {A : Type 0} {a b : A} → success a ≡ success b → a ≡ b
success_injective h = cc

pub only_if :
    {A : Type 0} (test : Bool) (rest : Result A) (error : Error) (offset : ℕ) {a : A}
    → (if test then rest else failure error offset) ≡ success a
    → (test ≡ true) × (rest ≡ success a)
only_if true rest error offset h = (refl, h)
only_if false rest error offset h = absurd (cc (h))

pub unless :
    {A : Type 0} (test : Bool) (rest : Result A) (error : Error) (offset : ℕ) {a : A}
    → (if test then failure error offset else rest) ≡ success a
    → (test ≡ false) × (rest ≡ success a)
unless true rest error offset h = absurd (cc (h))
unless false rest error offset h = (refl, h)

pub known :
    {A : Type 0} (found : Option WireType) (next : WireType → Result A) (error : Error) (offset : ℕ)
    {a : A}
    → elim found as (λ _. Result A) [ none ↦ failure error offset | some type ↦ next type ]
      ≡ success a
    → (type : WireType) × (found ≡ some type) × (next type ≡ success a)
known none next error offset h = absurd (cc (h))
known (some type) next error offset h = (type, refl, h)

-- A header that passes its checks names the type and the size of what is left.
pub record Checked (h : Header) (left : Bytes) (limits : Limits) (bytes : Bytes)
    (parsed : ParsedFrame) : Type 0 where
  pub version : h.version ≡ 1
  pub type : h.raw_type ≡ type_code parsed.type % 256
  pub reserved : h.reserved ≡ 0
  pub limit : h.length ≤ payload_limit limits
  pub size : h.length ≡ length left
  pub payload : parsed.payload ≡ take h.length (drop header_bytes bytes)

pub check_header-Checked :
    (h : Header) (bytes : Bytes) (r : Reader) (limits : Limits) (parsed : ParsedFrame)
    → check_header h bytes r limits ≡ success parsed
    → Checked h r.left limits bytes parsed
unfolding check_header
check_header-Checked h bytes r limits parsed ran =
    let (right, ran1) = only_if (eqb h.version version) _ _ _ ran in
    let (type, named, ran2) = known (type_of h.raw_type) _ _ _ ran1 in
    let (clear, ran3) = only_if (eqb h.reserved 0) _ _ _ ran2 in
    let (within, ran4) = unless (ltb (payload_limit limits) h.length) _ _ _ ran3 in
    let (enough, ran5) = unless (ltb (length r.left) h.length) _ _ _ ran4 in
    let (exact, ran6) = unless (ltb h.length (length r.left)) _ _ _ ran5 in
    let made = success_injective ran6 in
    record {
      version = ground (arith, right);
      type =
          type_of-inverse h.raw_type type named
          ∙ ap (λ (p : ParsedFrame). type_code p.type % 256) made;
      reserved = ground (arith, clear);
      limit = ground (arith, within);
      size = ground (arith, enough, exact);
      payload = sym (ap (λ (p : ParsedFrame). p.payload) made);
    }

pub headed :
    (p : Option Header × Reader) (bytes : Bytes) (limits : Limits) (parsed : ParsedFrame)
    (error : Error)
    → elim p.0 as (λ _. Result ParsedFrame) [
      | none ↦ failure error p.1.error_offset
      | some h ↦ check_header h bytes p.1 limits
    ]
      ≡ success parsed
    → (h : Header) × (p ≡ (some h, p.1)) × (check_header h bytes p.1 limits ≡ success parsed)
headed (some h, r) bytes limits parsed error ran = (h, refl, ran)
headed (none, r) bytes limits parsed error ran = absurd (cc (ran))

pub frame_bytes-layout :
    (h : Header) (left : Bytes) (type : WireType) (payload : Bytes)
    → h.version ≡ 1
    → h.raw_type ≡ type_code type % 256
    → h.reserved ≡ 0
    → h.length ≡ length payload
    → left ≡ payload
    → header_layout h ++ left ≡ frame_bytes type payload
frame_bytes-layout h left type payload version type_same reserved size same =
    rw (version, type_same, reserved, size, same) refl
