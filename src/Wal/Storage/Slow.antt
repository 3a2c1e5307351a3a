-- ===== src/Wal/Storage/Slow.antt =====
-- The device of Alarms behaves as the calls of Posix are documented.
use det_log.Prelude.{
  ◌≡◌, refl, sym, ◌∙◌, ap, subst, ℕ, zero, suc, ◌+◌, ◌<◌, ◌≤◌, min, Option, none, [], ◌∷◌, ◌++◌,
  arith, eqb, length, length-take, length-drop, take, drop, some,
}
use det_log.Model.{Bytes}
use det_log.Wal.Storage.Posix.{moved, refused, IsDocumented, FileSize, sized, Fsyncs}
use det_log.Wal.Storage.Alarms.{
  Device, take_fits, open_device, slow, device_held, grown, at_end, pwrite_moves, pwrite_waits,
  pwrite_accepts, pread_moves, pread_waits, pread_accepts,
}

slow_writes :
    (source : Bytes) (s after : Device) (n : ℕ)
    → slow.pwrite source (length s.held) s ≡ (moved n, after)
    → (n ≤ length source) × (after.held ≡ s.held ++ take n source) × (after.alarms ≤ s.alarms)
slow_writes source s after n h =
    let (amount, device_after) =
      pwrite_moves source s.alarms s after n (eqb (length s.held) (length s.held)) h in
    (
      subst (λ n. n ≤ length source) amount (omega arith),
      ap (λ (d : Device). d.held) (sym device_after)
          ∙ grown source s
          ∙ ap (λ k. s.held ++ take k source) amount,
      subst (λ (d : Device). d.alarms ≤ s.alarms) device_after (omega arith),
    )

take_own : (n : ℕ) (xs : Bytes) → take (length (take n xs)) xs ≡ take n xs
take_own zero xs = refl
take_own (suc n) [] = refl
take_own (suc n) (x ∷ xs) = ap (λ front. x ∷ front) (take_own n xs)

slow_reads :
    (amount position : ℕ) (bytes : Bytes) (s after : Device)
    → slow.pread amount position s ≡ (moved bytes, after)
    → (bytes ≡ take (length bytes) (drop position s.held))
      × (length bytes ≤ amount)
      × (after.held ≡ s.held)
      × (after.alarms ≤ s.alarms)
slow_reads amount position bytes s after h =
    let (moves, held, alarms) = pread_moves amount position s.alarms s after bytes h in
    let size = ap length moves in
    let part = length-take (min 2 amount) (drop position s.held) in
    (
      sym moves
          ∙ sym (take_own (min 2 amount) (drop position s.held))
          ∙ ap (λ part. take (length part) (drop position s.held)) moves,
      omega (arith, size, part),
      held,
      omega (arith, alarms),
    )

slow_ends :
    (amount position : ℕ) (s after : Device)
    → 0 < amount
    → slow.pread amount position s ≡ (moved [], after)
    → length s.held ≤ position
slow_ends amount position s after some_amount h =
    let (moves, _, _) = pread_moves amount position s.alarms s after [] h in
    let size = ap length moves in
    let part = length-take (min 2 amount) (drop position s.held) in
    let left = length-drop position s.held in omega (arith, size, part, left, some_amount)

slow_truncates :
    (n : ℕ) (s after : Device)
    → n ≤ length s.held
    → slow.ftruncate n s ≡ (none, after)
    → after.held ≡ take n s.held
slow_truncates n s after inside h =
    let fits = s.fits in
    ap (λ (p : Option ℕ × Device). p.1.held) (sym h)
    ∙ device_held (take n s.held) s.alarms s.synced
        (take_fits s.held n (omega (arith, inside, fits)))

opens :
    (held : Bytes) (s after : Device)
    → open_device held s ≡ (none, after)
    → s.held ≡ held
    → after.held ≡ []
opens [] s after h same = ap (λ (p : Option ℕ × Device). p.1.held) (sym h) ∙ same
opens (byte ∷ held) s after h same = absurd (cc (ap (λ (p : Option ℕ × Device). p.0) h))

exists :
    (held : Bytes) (s after : Device) (code : ℕ)
    → open_device held s ≡ (some code, after)
    → after.held ≡ s.held
exists [] s after code h = absurd (cc (ap (λ (p : Option ℕ × Device). p.0) h))
exists (byte ∷ held) s after code h = ap (λ (p : Option ℕ × Device). p.1.held) (sym h)

size_injective : {a b : ℕ} → sized a ≡ sized b → a ≡ b
size_injective h = cc

abbrev pub slow-Fsyncs : Fsyncs slow
slow-Fsyncs = record {
  durable = λ s. s.synced;
  fsync-durable = λ s after h.
      ap (λ (p : Option ℕ × Device). p.1.synced) (sym h)
      ∙ ap (λ (p : Option ℕ × Device). p.1.held) h;
}

pub slow-IsDocumented : IsDocumented slow
slow-IsDocumented = record {
  contents-limit = λ s. let fits = s.fits in omega (arith, fits);
  open_exclusive-done = λ s after h. opens s.held s after h refl;
  open_exclusive-exists = λ s after code h. exists s.held s after code h;
  open_existing-contents = λ s. refl;
  fstat-sized = λ s after n h. size_injective (sym (ap (λ (p : FileSize × Device). p.0) h));
  fstat-contents = λ s. refl;
  pwrite-moved = slow_writes;
  pwrite-interrupted = λ source s after h.
      pwrite_waits source s.alarms s after (eqb (length s.held) (length s.held)) h;
  pwrite-refused = λ source s after code h. absurd (
      pwrite_accepts source s.alarms s after code (eqb (length s.held) (length s.held)) (at_end s)
        h);
  pread-moved = slow_reads;
  pread-interrupted = λ amount position s after h. pread_waits amount position s.alarms s after h;
  pread-refused = λ amount position s after code h.
      absurd (pread_accepts amount position s.alarms s after code h);
  pread-end = slow_ends;
  fsync-contents = λ s. refl;
  ftruncate-done = slow_truncates;
  open_directory-contents = λ s. refl;
  fsync_directory-contents = λ s. refl;
}

-- A device with room for the bytes moves some of them.
pub slow_moves :
    (source : Bytes) (s after : Device)
    → 0 < length source
    → length s.held + length source ≤ 512
    → ¬ (slow.pwrite source (length s.held) s ≡ (moved 0, after))
slow_moves source s after some_source free h =
    let (none_moved, _) =
      pwrite_moves source s.alarms s after 0 (eqb (length s.held) (length s.held)) h in
    omega (arith, none_moved, some_source, free)

pub slow_accepts :
    (source : Bytes) (s after : Device) (code : ℕ)
    → ¬ (slow.pwrite source (length s.held) s ≡ (refused code, after))
slow_accepts source s after code h =
    pwrite_accepts source s.alarms s after code (eqb (length s.held) (length s.held)) (at_end s) h
