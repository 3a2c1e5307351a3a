-- ===== src/Codec/Canonical/Frames.antt =====
-- What `parse_frame` of src/codec.cpp accepts is what `frame` makes.
use det_log.Prelude.{
  ◌≡◌, refl, sym, ◌∙◌, ap, subst, ◌<◌, ◌+◌, ◌%◌, ◌^◌, ℕ, true, Option, none, some, [], ◌∷◌, ◌++◌,
  arith, length, append_nil, take, drop, take-all, ltb, eqb, if◌then◌else◌,
}
use det_log.Model.{Bytes, is_nil}
use det_log.Codec.{Error, Limits, Result, success, failure, header_bytes}
use det_log.Codec.Reader.{Reader, new_reader, at_end}
use det_log.Codec.Frame.{
  WireType, type_code, payload_limit, magic, version, get_header, ParsedFrame, parse_frame,
  decode_exact, decode_as,
}
use det_log.Codec.Written.{be}
use det_log.Codec.Framed.{Room, frame_bytes}
use det_log.Codec.Canonical.{Octets, Taken}
use det_log.Codec.Canonical.Headers.{
  get_header-Taken, success_injective, only_if, unless, check_header-Checked, headed,
  frame_bytes-layout,
}

-- A frame that is accepted is the one of its type and payload, within the limits.
pub parse_frame-frame_bytes_back :
    (bytes : Bytes) (limits : Limits) (parsed : ParsedFrame)
    → Octets bytes
    → parse_frame bytes limits ≡ success parsed
    → (bytes ≡ frame_bytes parsed.type parsed.payload)
      × Room limits (length parsed.payload)
      × Octets parsed.payload
unfolding parse_frame payload_limit
parse_frame-frame_bytes_back bytes limits parsed octets ran =
    let (within, ran1) = unless (ltb limits.max_frame_bytes (length bytes)) _ _ _ ran in
    let start = get_header (new_reader bytes 0) in
    let (h, read, ran2) = headed start bytes limits parsed _ ran1 in
    let r = start.1 in
    let (taken, word) = get_header-Taken (new_reader bytes 0) r h octets read in
    let checked = check_header-Checked h bytes r limits parsed ran2 in
    let whole : drop header_bytes bytes ≡ r.left = ap (drop header_bytes) taken.split in
    let payload : r.left ≡ parsed.payload = sym (
      checked.payload
      ∙ ap (take h.length) whole
      ∙ take-all h.length r.left (ground (arith, checked.size))) in
    let size : h.length ≡ length parsed.payload = checked.size ∙ ap length payload in
    let long : length bytes ≡ 12 + length r.left = ap length taken.split ∙ omega arith in
    (
      taken.split
          ∙ frame_bytes-layout h r.left parsed.type parsed.payload checked.version checked.type
              checked.reserved size payload,
      record {
        header = ground (arith, within, long);
        frame = ground (arith, within, long, checked.size, size);
        word = subst (λ n. n < 2 ^ 32) size word;
      },
      subst Octets payload taken.octets,
    )

nothing_left : (bytes : Bytes) → is_nil bytes ≡ true → bytes ≡ []
nothing_left [] h = refl
nothing_left (byte ∷ bytes) h = absurd (cc (h))

finished :
    {A : Type 0} (p : Option A × Reader) (a : A) (e f : Error) (at to : ℕ)
    → elim p.0 as (λ _. Result A) [
      | none ↦ failure e at
      | some v ↦ if at_end p.1 then success v else failure f to
    ]
      ≡ success a
    → (p ≡ (some a, p.1)) × (p.1.left ≡ [])
finished (none, r) a e f at to h = absurd (cc (h))
finished (some v, r) a e f at to h =
    let (over, same) = only_if (at_end r) (success v) f to h in
    (ap (λ v. (some v, r)) (success_injective same), nothing_left r.left over)

-- The frame that was decoded: its payload, and the end of the reading.
pub record Decoded {A : Type 0} (type : WireType) (decode : Reader → Option A × Reader)
    (bytes : Bytes) (limits : Limits) (a : A) : Type 0 where
  pub payload : Bytes
  pub end : Reader
  pub framed : bytes ≡ frame_bytes type payload
  pub room : Room limits (length payload)
  pub octets : Octets payload
  pub ran : decode (new_reader payload header_bytes) ≡ (some a, end)
  pub empty : end.left ≡ []

pub parsed_ok :
    {A : Type 0} (found : Result ParsedFrame) (next : ParsedFrame → Result A) {a : A}
    → elim found as (λ _. Result A) [
      | failure error offset ↦ failure error offset
      | success parsed ↦ next parsed
    ]
      ≡ success a
    → (parsed : ParsedFrame) × (found ≡ success parsed) × (next parsed ≡ success a)
parsed_ok (failure error offset) next h = absurd (cc (h))
parsed_ok (success parsed) next h = (parsed, refl, h)

pub decode_exact-Decoded :
    {A : Type 0} (type : WireType) (decode : Reader → Option A × Reader) (bytes : Bytes)
    (limits : Limits) (parsed : ParsedFrame) (a : A)
    → Octets bytes
    → parse_frame bytes limits ≡ success parsed
    → type_code parsed.type ≡ type_code type
    → decode_exact parsed decode ≡ success a
    → Decoded type decode bytes limits a
unfolding decode_exact
decode_exact-Decoded type decode bytes limits parsed a octets framed same h =
    let (whole, room, inner) = parse_frame-frame_bytes_back bytes limits parsed octets framed in
    let p = decode (new_reader parsed.payload header_bytes) in
    let (ran, empty) = finished p a _ _ _ _ h in
    record {
      payload = parsed.payload;
      end = p.1;
      framed =
          whole
          ∙ ap
              (λ code.
                magic
                ++ ((version % 256 ∷ [])
                    ++ ((code % 256 ∷ [])
                        ++ (be 2 0 ++ (be 4 (length parsed.payload) ++ parsed.payload)))))
              same;
      room = room;
      octets = inner;
      ran = ran;
      empty = empty;
    }

pub decode_as-Decoded :
    {A : Type 0} (type : WireType) (decode : Reader → Option A × Reader) (bytes : Bytes)
    (limits : Limits) (a : A)
    → Octets bytes
    → decode_as type decode bytes limits ≡ success a
    → Decoded type decode bytes limits a
unfolding decode_as
decode_as-Decoded type decode bytes limits a octets h =
    let (parsed, framed, next) = parsed_ok (parse_frame bytes limits) _ h in
    let (same, last) = only_if (eqb (type_code parsed.type) (type_code type)) _ _ _ next in
    decode_exact-Decoded type decode bytes limits parsed a octets framed (ground (arith, same)) last

-- A reading to the end has read the payload.
pub read_whole :
    {payload out : Bytes} {s : Reader}
    → Taken (new_reader payload header_bytes) s out
    → s.left ≡ []
    → payload ≡ out
read_whole {out = out} taken empty = taken.split ∙ ap (λ rest. out ++ rest) empty ∙ append_nil out
