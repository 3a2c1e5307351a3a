-- ===== src/Wal/Storage/Native/Transfers.antt =====
-- The loops of write_exact and read_exact in src/wal.cpp, over partial and interrupted transfers.
use det_log.Prelude.{
  ◌≡◌, ◌⊎◌, refl, sym, ◌∙◌, ap, inl, inr, ℕ, zero, suc, ◌+◌, ◌-◌, ◌<◌, ◌≤◌, min, false, ◌++◌, arith,
  Bool-cases, ltb, length, length-drop, length-append, length-take, take, drop, take-take, take-all,
  take-split, append_assoc, append_nil, add64,
}
use det_log.Model.{Bytes}
use det_log.Wal.Types.{Result, done, error, WalErrorCode}
use det_log.Wal.Storage.{Partly}
use det_log.Wal.Storage.Posix.{Posix, off_max, Transfer, moved, interrupted, refused, IsDocumented}
use det_log.Wal.Storage.Native.{Descriptor, throw_io, write_result, write_rounds, write_exact}

-- The bytes of a further transfer behind those of the first ones.
take-then :
    (done_bytes amount n : ℕ) (source : Bytes)
    → n ≤ amount
    → take done_bytes source ++ take n (take amount (drop done_bytes source))
      ≡ take (done_bytes + n) source
take-then done_bytes amount n source h =
    ap (λ part. take done_bytes source ++ part) (take-take n amount (drop done_bytes source) h)
    ∙ ap (λ k. take done_bytes source ++ take k (drop done_bytes source)) (omega arith)
    ∙ take-split done_bytes (done_bytes + n) source (omega arith)

add64-eq : (a b : ℕ) → a + b ≤ off_max → add64 a b ≡ a + b
unfolding add64
add64-eq a b h = omega arith

left_over :
    (done_bytes amount : ℕ) (source : Bytes)
    → done_bytes < length source
    → 0 < amount
    → 0 < length (take amount (drop done_bytes source))
left_over done_bytes amount source more some_amount =
    let left = length-drop done_bytes source in
    let part = length-take amount (drop done_bytes source) in
    omega (arith, left, part, more, some_amount)

module _ (P : Posix) (L : IsDocumented P) where
  -- Some transfer to the end of the file, of some bytes that end within `limit`, moved none of them or
  -- was refused.
  abbrev pub Stalls : ℕ → Type 0
  Stalls limit =
      (source : Bytes) × (s : P.State) × (after : P.State) × (0 < length source)
      × (length (P.contents s) + length source ≤ limit)
      × ((P.pwrite source (length (P.contents s)) s ≡ (moved 0, after))
          ⊎ (code : ℕ) × (P.pwrite source (length (P.contents s)) s ≡ (refused code, after)))

  -- What the file holds behind the writes of `source` at the end of `before`.
  abbrev pub Appends : Bytes → Bytes → Result (Unit {0}) × Descriptor P → Type 0
  Appends before source (done _, d) = P.contents d.system ≡ before ++ source
  Appends before source (error e, d) =
      Partly before source (P.contents d.system)
      × (e.code ≡ WalErrorCode.io)
      × Stalls (length before + length source)

  -- What the loop has done so far.
  record Progress (before source : Bytes) (offset done_bytes : ℕ) (d : Descriptor P) : Type 0 where
    held : P.contents d.system ≡ before ++ take done_bytes source
    inside : done_bytes ≤ length source
    end : length before ≡ offset

  Progress-position :
      (before source : Bytes) (offset done_bytes : ℕ) (d : Descriptor P)
      → Progress before source offset done_bytes d
      → (add64 offset done_bytes ≡ length (P.contents d.system))
        × (length (P.contents d.system) ≤ off_max)
  Progress-position before source offset done_bytes d p =
      let limit = L.contents-limit d.system in
      let size = ap length p.held in
      let long = length-append {0} before (take done_bytes source) in
      let part = length-take done_bytes source in
      let inside = p.inside in
      let end = p.end in
      let position : offset + done_bytes ≡ length (P.contents d.system) =
        omega (arith, size, long, part, inside, end) in
      (add64-eq offset done_bytes (omega (arith, position, limit)) ∙ position, limit)

  Progress-Partly :
      (before source : Bytes) (offset done_bytes : ℕ) (d : Descriptor P)
      → Progress before source offset done_bytes d
      → Partly before source (P.contents d.system)
  Progress-Partly before source offset done_bytes d p = (done_bytes, p.inside, p.held)

  Progress-room :
      (before source : Bytes) (offset done_bytes amount : ℕ) (d : Descriptor P)
      → Progress before source offset done_bytes d
      → length (P.contents d.system) + length (take amount (drop done_bytes source))
        ≤ length before + length source
  Progress-room before source offset done_bytes amount d p =
      let size = ap length p.held in
      let long = length-append {0} before (take done_bytes source) in
      let part = length-take done_bytes source in
      let left = length-drop done_bytes source in
      let moved = length-take amount (drop done_bytes source) in
      let inside = p.inside in omega (arith, size, long, part, left, moved, inside)

  -- The file behind a transfer of `n` more bytes.
  moved-held :
      (before source : Bytes) (offset done_bytes amount n : ℕ) (d : Descriptor P) (system : P.State)
      → Progress before source offset done_bytes d
      → P.pwrite (take amount (drop done_bytes source)) (length (P.contents d.system)) d.system
        ≡ (moved n, system)
      → Progress before source offset (done_bytes + n) (record d { system = system })
        × (P.signals system ≤ P.signals d.system)
  moved-held before source offset done_bytes amount n d system p ran =
      let (few, grown, signals) =
        L.pwrite-moved (take amount (drop done_bytes source)) d.system system n ran in
      let part = length-take amount (drop done_bytes source) in
      let left = length-drop done_bytes source in
      let inside = p.inside in
      (
        record {
          held =
              grown
              ∙ ap (λ held. held ++ take n (take amount (drop done_bytes source))) p.held
              ∙ append_assoc before (take done_bytes source)
                  (take n (take amount (drop done_bytes source)))
              ∙ ap (λ part. before ++ part)
                  (take-then done_bytes amount n source (omega (arith, few, part)));
          inside = omega (arith, few, part, left, inside);
          end = p.end;
        },
        signals,
      )

  write_result-Appends :
      (before source : Bytes) (offset done_bytes amount : ℕ) (d : Descriptor P)
      (next : ℕ → Descriptor P → Result (Unit {0}) × Descriptor P) (r : Transfer ℕ × P.State)
      → Progress before source offset done_bytes d
      → P.pwrite (take amount (drop done_bytes source)) (length (P.contents d.system)) d.system ≡ r
      → ((n : ℕ) (system : P.State)
          → Progress before source offset n (record d { system = system })
          → length source - n + P.signals system < length source - done_bytes + P.signals d.system
          → Appends before source (next n (record d { system = system })))
      → done_bytes < length source
      → 0 < amount
      → Appends before source (write_result P next done_bytes d r)
  unfolding write_result throw_io
  write_result-Appends before source offset done_bytes amount d next (moved zero, system) p ran go
        more some_amount =
      let (q, _) = moved-held before source offset done_bytes amount 0 d system p ran in
      (
        Progress-Partly before source offset (done_bytes + 0) (record d { system = system }) q,
        refl,
        (
          take amount (drop done_bytes source),
          d.system,
          system,
          left_over done_bytes amount source more some_amount,
          Progress-room before source offset done_bytes amount d p,
          inl ran,
        ),
      )
  write_result-Appends before source offset done_bytes amount d next (moved (suc n), system) p ran
        go more some_amount =
      let (q, signals) = moved-held before source offset done_bytes amount (suc n) d system p ran in
      let inside = q.inside in
      go (done_bytes + suc n) system q (omega (arith, signals, inside, more))
  write_result-Appends before source offset done_bytes amount d next (interrupted, system) p ran go
        more some_amount =
      let (same, fewer) =
        L.pwrite-interrupted (take amount (drop done_bytes source)) d.system system ran in
      go done_bytes system (record { held = same ∙ p.held; inside = p.inside; end = p.end })
        (omega (arith, fewer))
  write_result-Appends before source offset done_bytes amount d next (refused code, system) p ran go
        more some_amount =
      let same = L.pwrite-refused (take amount (drop done_bytes source)) d.system system code ran in
      (
        (done_bytes, p.inside, same ∙ p.held),
        refl,
        (
          take amount (drop done_bytes source),
          d.system,
          system,
          left_over done_bytes amount source more some_amount,
          Progress-room before source offset done_bytes amount d p,
          inr (code, ran),
        ),
      )

  -- With a round for each byte that is left and for each signal, the loop ends.
  write_rounds-Appends :
      (before source : Bytes) (offset : ℕ) (rounds done_bytes : ℕ) (d : Descriptor P)
      → Progress before source offset done_bytes d
      → length source - done_bytes + P.signals d.system < rounds
      → Appends before source (write_rounds P rounds offset source done_bytes d)
  unfolding write_rounds
  write_rounds-Appends before source offset zero done_bytes d p few = elim few [ ]
  write_rounds-Appends before source offset (suc rounds) done_bytes d p few =
      let (position, limit) = Progress-position before source offset done_bytes d p in
      let inside = p.inside in
      elim (Bool-cases (ltb done_bytes (length source))) [
        | inr all ↦
            let level : length source ≤ done_bytes = ground (arith, all) in
            rw all (p.held ∙ ap (λ part. before ++ part) (take-all done_bytes source level))
        | inl more ↦
            let small : ltb off_max (add64 offset done_bytes) ≡ false =
              ground (arith, position, limit) in
            let amount = min (length source - done_bytes) off_max in
            let next =
              write_result-Appends before source offset done_bytes amount d
                (λ n d. write_rounds P rounds offset source n d)
                (P.pwrite (take amount (drop done_bytes source)) (add64 offset done_bytes) d.system)
                p
                (ap (λ at. P.pwrite (take amount (drop done_bytes source)) at d.system)
                  (sym position))
                (λ n system q fewer.
                  write_rounds-Appends before source offset rounds n (record d { system = system })
                    q (omega (arith, few, fewer)))
                (ground (arith, more)) (ground (arith, more)) in
            rw (more, small) next
      ]

  -- A write at the end of the file appends its bytes, or the front of them when it throws.
  pub write_exact-Appends :
      (source : Bytes) (d : Descriptor P)
      → Appends (P.contents d.system) source (write_exact P (length (P.contents d.system)) source d)
  unfolding write_exact
  write_exact-Appends source d =
      write_rounds-Appends (P.contents d.system) source (length (P.contents d.system))
        (suc (length source + P.signals d.system)) 0 d
        (record { held = sym (append_nil (P.contents d.system)); inside = omega arith; end = refl })
        (omega arith)

  write_through :
      (before source : Bytes) (r : Result (Unit {0}) × Descriptor P)
      → (Stalls (length before + length source) → ⊥)
      → Appends before source r
      → (r.0 ≡ done tt) × (P.contents r.1.system ≡ before ++ source)
  write_through before source (done u, d) never held = (refl, held)
  write_through before source (error e, d) never (_, _, why) = absurd (never why)

  -- A write at the end of the file returns and has appended its bytes when no transfer of some bytes to
  -- the end, that end within the file the write is to leave, moves none of them or is refused; the
  -- number of partial transfers and of signals does not matter.
  pub write_exact-returns :
      (source : Bytes) (d : Descriptor P)
      → ((part : Bytes) (s after : P.State)
          → 0 < length part
          → length (P.contents s) + length part ≤ length (P.contents d.system) + length source
          → ¬ (P.pwrite part (length (P.contents s)) s ≡ (moved 0, after)))
      → ((part : Bytes) (s after : P.State) (code : ℕ)
          → 0 < length part
          → length (P.contents s) + length part ≤ length (P.contents d.system) + length source
          → ¬ (P.pwrite part (length (P.contents s)) s ≡ (refused code, after)))
      → let r = write_exact P (length (P.contents d.system)) source d in
        (r.0 ≡ done tt) × (P.contents r.1.system ≡ P.contents d.system ++ source)
  write_exact-returns source d moves never =
      write_through (P.contents d.system) source
        (write_exact P (length (P.contents d.system)) source d) stuck (write_exact-Appends source d)
    where
      stuck : Stalls (length (P.contents d.system) + length source) → ⊥
      stuck (part, s, after, some_part, room, inl ran) = moves part s after some_part room ran
      stuck (part, s, after, some_part, room, inr (code, ran)) =
          never part s after code some_part room ran
