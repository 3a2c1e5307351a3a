-- ===== src/Codec/Canonical/Fields.antt =====
-- The commands that `read_command_payload` of src/codec.cpp reads are written back to the same bytes.
use det_log.Prelude.{
  ◌≡◌, refl, sym, ◌∙◌, ap, subst, inl, inr, ◌%◌, ℕ, true, Option, none, some, [], ◌∷◌, arith,
  Bool-cases, eqb,
}
use det_log.Model.{ClientCommand, CommandKind, kind_code}
use det_log.Codec.{Error, Limits}
use det_log.Codec.Reader
use det_log.Codec.Reader.{Reader, new_reader, get_u8, get_be, get_string, get_bool, at_end}
use det_log.Codec.Payload.{
  kind_of, valid_command_semantics, finish_command, read_kind, read_command_payload,
}
use det_log.Codec.Command.{CommandFits, command_payload}
use det_log.Codec.Canonical.{
  Octets, Taken, Taken-trans, and_then-some, returned, refused, get_u8-Taken, get_u64-Taken,
  get_string-Taken,
}

pub kind_of-inverse :
    (raw : ℕ) (kind : CommandKind) → kind_of raw ≡ some kind → raw ≡ kind_code kind % 256
unfolding kind_of kind_code
kind_of-inverse raw kind h = elim (Bool-cases (eqb raw 1)) [
  | inl one ↦ named raw 1 CommandKind.put kind refl one (rw one at h)
  | inr a ↦
      let h1 = rw a at h in
      elim (Bool-cases (eqb raw 2)) [
        | inl two ↦ named raw 2 CommandKind.erase kind refl two (rw two at h1)
        | inr b ↦
            let h2 = rw b at h1 in
            elim (Bool-cases (eqb raw 3)) [
              | inl three ↦ named raw 3 CommandKind.get kind refl three (rw three at h2)
              | inr c ↦ let bad = rw c at h2 in absurd (cc (bad))
            ]
      ]
]
  where
    named :
        (raw code : ℕ) (a kind : CommandKind)
        → kind_code a % 256 ≡ code
        → eqb raw code ≡ true
        → some a ≡ some kind
        → raw ≡ kind_code kind % 256
    named raw code a kind same this h =
        let level : raw ≡ code = ground (arith, this) in
        let kinds : a ≡ kind = cc (h) in level ∙ sym same ∙ ap (λ kind. kind_code kind % 256) kinds

pub read_kind-Taken :
    (r s : Reader) (kind : CommandKind)
    → Octets r.left
    → read_kind r ≡ (some kind, s)
    → Taken r s (kind_code kind % 256 ∷ [])
unfolding read_kind
read_kind-Taken r s kind octets h =
    let (raw, t, read, more) = and_then-some (get_u8 r) _ h in
    let (taken, _) = get_u8-Taken r t raw octets read in
    let (found, kinds, place) = picked (kind_of raw) t more in
    let same : raw ≡ kind_code kind % 256 = kind_of-inverse raw kind (found) in
    subst (λ s. Taken r s (kind_code kind % 256 ∷ [])) place
      (subst (λ b. Taken r t (b ∷ [])) same taken)
  where
    picked :
        (found : Option CommandKind) (t : Reader)
        → elim found as (λ _. Option CommandKind × Reader) [
          | none ↦ (none, Reader.fail Error.invalid_enum t)
          | some kind ↦ (some kind, t)
        ]
          ≡ (some kind, s)
        → (found ≡ some kind) × (Unit {0}) × (t ≡ s)
    picked none t h = absurd (refused h)
    picked (some other) t h = let (same, place) = returned h in (ap some same, tt, place)

pub finish_command-Taken :
    (c d : ClientCommand) (r s : Reader)
    → finish_command c r ≡ (some d, s)
    → (c ≡ d) × (r ≡ s) × (valid_command_semantics d ≡ true)
unfolding finish_command
finish_command-Taken c d r s h = elim (Bool-cases (valid_command_semantics c)) [
  | inl valid ↦
      let (same, place) = returned (rw valid at h) in
      (same, place, subst (λ c. valid_command_semantics c ≡ true) same valid)
  | inr bad ↦ let no = rw bad at h in absurd (refused no)
]

pub read_command_payload-Taken :
    (limits : Limits) (r s : Reader) (c : ClientCommand)
    → Octets r.left
    → read_command_payload limits r ≡ (some c, s)
    → Taken r s (command_payload c) × CommandFits limits c
unfolding read_command_payload
read_command_payload-Taken limits r s c octets h =
    let (high, t1, read1, h1) = and_then-some (get_be 64 8 0 r) _ h in
    let (taken1, word1) = get_u64-Taken r t1 high octets read1 in
    let (low, t2, read2, h2) = and_then-some (get_be 64 8 0 t1) _ h1 in
    let (taken2, word2) = get_u64-Taken t1 t2 low taken1.octets read2 in
    let (sequence, t3, read3, h3) = and_then-some (get_be 64 8 0 t2) _ h2 in
    let (taken3, word3) = get_u64-Taken t2 t3 sequence taken2.octets read3 in
    let (kind, t4, read4, h4) = and_then-some (read_kind t3) _ h3 in
    let taken4 = read_kind-Taken t3 t4 kind taken3.octets read4 in
    let (key, t5, read5, h5) = and_then-some (get_string limits.max_key_bytes t4) _ h4 in
    let (taken5, key_limit, key_word) =
      get_string-Taken limits.max_key_bytes t4 t5 key taken4.octets read5 in
    let (value, t6, read6, h6) = and_then-some (get_string limits.max_value_bytes t5) _ h5 in
    let (taken6, value_limit, value_word) =
      get_string-Taken limits.max_value_bytes t5 t6 value taken5.octets read6 in
    let d : ClientCommand = record {
      session = record { high = high; low = low };
      sequence = sequence;
      kind = kind;
      key = key;
      value = value;
    } in
    let (same, place, valid) = finish_command-Taken d c t6 s h6 in
    let taken : Taken r t6 (command_payload d) =
      Taken-trans taken1 (
        Taken-trans taken2 (Taken-trans taken3 (Taken-trans taken4 (Taken-trans taken5 taken6)))) in
    let fits : CommandFits limits d = record {
      high = word1;
      low = word2;
      sequence = word3;
      valid = subst (λ c. valid_command_semantics c ≡ true) (sym same) valid;
      key = key_limit;
      key_word = key_word;
      value = value_limit;
      value_word = value_word;
    } in
    (
      subst (λ s. Taken r s (command_payload c)) place
          (subst (λ c. Taken r t6 (command_payload c)) same taken),
      subst (CommandFits limits) same fits,
    )
