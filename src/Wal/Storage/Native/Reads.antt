-- ===== src/Wal/Storage/Native/Reads.antt =====
-- The loop of read_exact in src/wal.cpp, over partial and interrupted transfers.
use det_log.Prelude.{
  ◌≡◌, refl, sym, ◌∙◌, ap, subst, inl, inr, ℕ, zero, suc, ◌+◌, ◌-◌, ◌<◌, ◌≤◌, ◌^◌, min, [], ◌∷◌,
  ◌++◌, arith, Bool-cases, ltb, length, length-append, take, drop, take-split, drop-drop, add64,
}
use det_log.Model.{Bytes}
use det_log.Wal.Types.{Result, done, error, WalErrorCode}
use det_log.Wal.Storage.Posix.{Posix, off_max, Transfer, moved, interrupted, refused, IsDocumented}
use det_log.Wal.Storage.Native.{Descriptor, throw_io, read_result, read_rounds, read_exact}

add64-small : (a b : ℕ) → a + b < 2 ^ 64 → add64 a b ≡ a + b
unfolding add64
add64-small a b h = omega arith

module _ (P : Posix) (L : IsDocumented P) where
  -- Some reading of the file was refused.
  abbrev pub Refuses : Type 0
  Refuses =
      (amount : ℕ) × (position : ℕ) × (s : P.State) × (code : ℕ) × (after : P.State) × (P.pread
          amount position s
        ≡ (refused code, after))

  -- What a reading of `size` bytes from `offset` gives.
  abbrev pub Reads : Bytes → ℕ → ℕ → Result Bytes × Descriptor P → Type 0
  Reads file offset size (done bytes, d) =
      (bytes ≡ take size (drop offset file)) × (length bytes ≡ size) × (P.contents d.system ≡ file)
  Reads file offset size (error e, d) =
      (e.code ≡ WalErrorCode.io)
      × (P.contents d.system ≡ file)
      × (offset + size ≤ length file → Refuses)

  -- What the loop has read so far.
  record Filled (file : Bytes) (offset size : ℕ) (filled : Bytes) (d : Descriptor P) : Type 0 where
    front : filled ≡ take (length filled) (drop offset file)
    few : length filled ≤ size
    same : P.contents d.system ≡ file

  more-Filled :
      (file : Bytes) (offset size : ℕ) (filled bytes : Bytes) (d : Descriptor P) (system : P.State)
      → Filled file offset size filled d
      → P.pread (min (size - length filled) off_max) (offset + length filled) d.system
        ≡ (moved bytes, system)
      → Filled file offset size (filled ++ bytes) (record d { system = system })
        × (P.signals system ≤ P.signals d.system)
  more-Filled file offset size filled bytes d system p ran =
      let (part, amount, same, signals) =
        L.pread-moved (min (size - length filled) off_max) (offset + length filled) bytes d.system
          system ran in
      let long = length-append {0} filled bytes in
      let few = p.few in
      let rest : bytes ≡ take (length bytes) (drop (length filled) (drop offset file)) =
        part
        ∙ ap (λ held. take (length bytes) (drop (offset + length filled) held)) p.same
        ∙ ap (take (length bytes)) (sym (drop-drop (length filled) offset file)) in
      let size_of : (length filled + length bytes) - length filled ≡ length bytes = omega arith in
      (
        record {
          front =
              ap (λ front. front ++ bytes) p.front
              ∙ ap (λ back. take (length filled) (drop offset file) ++ back)
                  (rest ∙ ap (λ k. take k (drop (length filled) (drop offset file))) (sym size_of))
              ∙ take-split (length filled) (length filled + length bytes) (drop offset file)
                  (omega arith)
              ∙ ap (λ k. take k (drop offset file)) (sym long);
          few = omega (arith, long, few, amount);
          same = same ∙ p.same;
        },
        signals,
      )

  read_result-Reads :
      (file : Bytes) (offset size : ℕ) (filled : Bytes) (d : Descriptor P)
      (next : Bytes → Descriptor P → Result Bytes × Descriptor P) (r : Transfer Bytes × P.State)
      → Filled file offset size filled d
      → P.pread (min (size - length filled) off_max) (offset + length filled) d.system ≡ r
      → ((bytes : Bytes) (system : P.State)
          → Filled file offset size bytes (record d { system = system })
          → size - length bytes + P.signals system < size - length filled + P.signals d.system
          → Reads file offset size (next bytes (record d { system = system })))
      → length filled < size
      → Reads file offset size (read_result P next filled d r)
  unfolding read_result throw_io
  read_result-Reads file offset size filled d next (moved [], system) p ran go more =
      let amount = min (size - length filled) off_max in
      let (_, _, same, _) = L.pread-moved amount (offset + length filled) [] d.system system ran in
      let past =
        L.pread-end amount (offset + length filled) d.system system (omega (arith, more)) ran in
      let short : length file ≤ offset + length filled =
        subst (λ held. length held ≤ offset + length filled) p.same past in
      (refl, same ∙ p.same, λ inside. absurd (omega (arith, short, inside, more)))
  read_result-Reads file offset size filled d next (moved (byte ∷ bytes), system) p ran go more =
      let (q, signals) = more-Filled file offset size filled (byte ∷ bytes) d system p ran in
      let long = length-append {0} filled (byte ∷ bytes) in
      let few = q.few in
      go (filled ++ byte ∷ bytes) system q (omega (arith, signals, long, few, more))
  read_result-Reads file offset size filled d next (interrupted, system) p ran go more =
      let (same, fewer) =
        L.pread-interrupted (min (size - length filled) off_max) (offset + length filled) d.system
          system ran in
      go filled system (record { front = p.front; few = p.few; same = same ∙ p.same })
        (omega (arith, fewer))
  read_result-Reads file offset size filled d next (refused code, system) p ran go more =
      let amount = min (size - length filled) off_max in
      let same = L.pread-refused amount (offset + length filled) d.system system code ran in
      (refl, same ∙ p.same, λ _. (amount, offset + length filled, d.system, code, system, ran))

  -- With a round for each byte that is left and for each signal, the loop ends.
  read_rounds-Reads :
      (file : Bytes) (offset size rounds : ℕ) (filled : Bytes) (d : Descriptor P)
      → offset + size < 2 ^ 64
      → Filled file offset size filled d
      → size - length filled + P.signals d.system < rounds
      → Reads file offset size (read_rounds P rounds offset size filled d)
  unfolding read_rounds
  read_rounds-Reads file offset size zero filled d small p rounds = elim rounds [ ]
  read_rounds-Reads file offset size (suc rounds) filled d small p enough =
      let few = p.few in
      let position = add64-small offset (length filled) (omega (arith, few, small)) in
      elim (Bool-cases (ltb (length filled) size)) [
        | inr all ↦
            let level : length filled ≡ size = ground (arith, all, few) in
            rw all (p.front ∙ ap (λ k. take k (drop offset file)) level, level, p.same)
        | inl more ↦ elim (Bool-cases (ltb off_max (add64 offset (length filled)))) [
          | inl far ↦
              let limit = L.contents-limit d.system in
              let same = ap length p.same in
              rw (more, far)
                (
                  refl,
                  p.same,
                  λ inside. absurd (ground (arith, inside, far, position, more, limit, same)),
                )
          | inr near ↦
              rw (more, near, position)
                (read_result-Reads file offset size filled d
                  (λ filled d. read_rounds P rounds offset size filled d)
                  (P.pread (min (size - length filled) off_max) (offset + length filled) d.system) p
                  refl
                  (λ bytes system q fewer.
                    read_rounds-Reads file offset size rounds bytes (record d { system = system })
                      small q (omega (arith, enough, fewer)))
                  (ground (arith, more)))
        ]
      ]

  -- A reading whose end is a 64-bit number ends: it gives the bytes of the file from `offset`, as many
  -- as were asked for, however the transfers are split and interrupted, or it throws the code io, and
  -- then, inside the file, some transfer was refused; the file stays as it is.
  pub read_exact-Reads :
      (offset size : ℕ) (d : Descriptor P)
      → offset + size < 2 ^ 64
      → Reads (P.contents d.system) offset size (read_exact P offset size d)
  unfolding read_exact
  read_exact-Reads offset size d small =
      read_rounds-Reads (P.contents d.system) offset size (suc (size + P.signals d.system)) [] d
        small (record { front = refl; few = omega arith; same = refl }) (omega arith)

  read_through :
      (file : Bytes) (offset size : ℕ) (r : Result Bytes × Descriptor P)
      → (Refuses → ⊥)
      → offset + size ≤ length file
      → Reads file offset size r
      → r.0 ≡ done (take size (drop offset file))
  read_through file offset size (done bytes, d) never inside (front, _, _) = ap done front
  read_through file offset size (error e, d) never inside (_, _, why) = absurd (never (why inside))

  -- A reading inside the file returns its bytes when no transfer is refused, whatever the number of
  -- partial transfers and of signals.
  pub read_exact-returns :
      (offset size : ℕ) (d : Descriptor P)
      → ((amount position : ℕ) (s after : P.State) (code : ℕ)
          → ¬ (P.pread amount position s ≡ (refused code, after)))
      → offset + size ≤ length (P.contents d.system)
      → (read_exact P offset size d).0 ≡ done (take size (drop offset (P.contents d.system)))
  read_exact-returns offset size d never inside =
      let limit = L.contents-limit d.system in
      read_through (P.contents d.system) offset size (read_exact P offset size d)
        (λ (amount, position, s, code, after, ran). never amount position s after code ran) inside
        (read_exact-Reads offset size d (omega (arith, inside, limit)))
