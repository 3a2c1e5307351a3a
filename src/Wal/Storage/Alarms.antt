-- ===== src/Wal/Storage/Alarms.antt =====
-- A device of 512 bytes behind the calls of Posix: a transfer moves at most two bytes, and alarms interrupt.
use det_log.Prelude.{
  ◌≡◌, sym, ap, subst, ℕ, zero, suc, ◌-◌, ◌<◌, ◌≤◌, min, Bool, true, false, Option, none, [], ◌∷◌,
  ◌++◌, arith, eqb, length, length-append, length-take, take, take-all, drop, some,
}
use det_log.Model.{Bytes}
use det_log.Wal.Storage.Posix.{Posix, Transfer, moved, interrupted, refused, sized}

pub record Device : Type 0 where
  pub held : Bytes
  pub alarms : ℕ
  -- what was there at the last fsync
  pub synced : Bytes
  pub fits : length held ≤ 512

abbrev pub take_fits : (held : Bytes) (n : ℕ) → n ≤ 512 → length (take n held) ≤ 512
take_fits held n h = let part = length-take n held in omega (arith, part, h)

abbrev pub device : Bytes → ℕ → Bytes → Device
device held alarms synced = record {
  held = take 512 held;
  alarms = alarms;
  synced = synced;
  fits = take_fits held 512 (omega arith);
}

abbrev pub room : Bytes → Device → ℕ
room source s = min (min 2 (length source)) (512 - length s.held)

-- errno: EINVAL for a position that is not the end, ENOSPC for a full device
unfoldable pub pwrite_device : Bytes → ℕ → Device → Bool → Transfer ℕ × Device
pwrite_device source (suc alarms) s at_end = (interrupted, record s { alarms = alarms })
pwrite_device source zero s false = (refused 22, s)
pwrite_device source zero s true =
    (moved (room source s), device (s.held ++ take (room source s) source) 0 s.synced)

unfoldable pub pread_device : ℕ → ℕ → ℕ → Device → Transfer Bytes × Device
pread_device amount position (suc alarms) s = (interrupted, record s { alarms = alarms })
pread_device amount position zero s =
    (moved (take (min 2 amount) (drop position s.held)), record s { alarms = 0 })

-- A file of no bytes is one that does not exist yet.
abbrev pub open_device : Bytes → Device → Option ℕ × Device
open_device [] s = (none, s)
open_device (byte ∷ held) s = (some 17, s)

abbrev pub slow : Posix
slow = record {
  State = Device;
  contents = λ s. s.held;
  signals = λ s. s.alarms;
  errno = λ s. 0;
  exists = 17;
  open_exclusive = λ s. open_device s.held s;
  open_existing = λ s. (none, s);
  fstat = λ s. (sized (length s.held), s);
  pwrite = λ source position s. pwrite_device source s.alarms s (eqb position (length s.held));
  pread = λ amount position s. pread_device amount position s.alarms s;
  fsync = λ s. (none, record s { synced = s.held });
  ftruncate = λ n s. (none, device (take n s.held) s.alarms s.synced);
  open_directory = λ s. (none, s);
  fsync_directory = λ s. (none, s);
}

pub device_held :
    (held : Bytes) (alarms : ℕ) (synced : Bytes)
    → length held ≤ 512
    → (device held alarms synced).held ≡ held
device_held held alarms synced h = take-all 512 held h

pub grown :
    (source : Bytes) (s : Device)
    → (device (s.held ++ take (room source s) source) 0 s.synced).held
      ≡ s.held ++ take (room source s) source
grown source s =
    let fits = s.fits in
    let long = length-append {0} s.held (take (room source s) source) in
    let part = length-take (room source s) source in
    device_held (s.held ++ take (room source s) source) 0 s.synced (omega (arith, fits, long, part))

pub at_end : (s : Device) → eqb (length s.held) (length s.held) ≡ true
at_end s = ground arith

pub moved_injective : {A : Type 0} {a b : A} → moved a ≡ moved b → a ≡ b
moved_injective h = cc

pub pwrite_moves :
    (source : Bytes) (alarms : ℕ) (s after : Device) (n : ℕ) (test : Bool)
    → pwrite_device source alarms s test ≡ (moved n, after)
    → (room source s ≡ n) × (device (s.held ++ take (room source s) source) 0 s.synced ≡ after)
unfolding pwrite_device
pwrite_moves source zero s after n false h = absurd (cc (ap (λ (p : Transfer ℕ × Device). p.0) h))
pwrite_moves source zero s after n true h = (
  moved_injective (ap (λ (p : Transfer ℕ × Device). p.0) h),
  ap (λ (p : Transfer ℕ × Device). p.1) h,
)
pwrite_moves source (suc alarms) s after n test h =
    absurd (cc (ap (λ (p : Transfer ℕ × Device). p.0) h))

pub pwrite_waits :
    (source : Bytes) (alarms : ℕ) (s after : Device) (test : Bool)
    → pwrite_device source alarms s test ≡ (interrupted, after)
    → (after.held ≡ s.held) × (after.alarms < alarms)
unfolding pwrite_device
pwrite_waits source zero s after false h = absurd (cc (ap (λ (p : Transfer ℕ × Device). p.0) h))
pwrite_waits source zero s after true h = absurd (cc (ap (λ (p : Transfer ℕ × Device). p.0) h))
pwrite_waits source (suc alarms) s after test h = (
  ap (λ (p : Transfer ℕ × Device). p.1.held) (sym h),
  subst (λ n. n < suc alarms) (ap (λ (p : Transfer ℕ × Device). p.1.alarms) h) (omega arith),
)

pub pwrite_accepts :
    (source : Bytes) (alarms : ℕ) (s after : Device) (code : ℕ) (test : Bool)
    → test ≡ true
    → ¬ (pwrite_device source alarms s test ≡ (refused code, after))
unfolding pwrite_device
pwrite_accepts source zero s after code false t h = absurd (cc (t))
pwrite_accepts source zero s after code true t h =
    absurd (cc (ap (λ (p : Transfer ℕ × Device). p.0) h))
pwrite_accepts source (suc alarms) s after code test t h =
    absurd (cc (ap (λ (p : Transfer ℕ × Device). p.0) h))

pub pread_moves :
    (amount position alarms : ℕ) (s after : Device) (bytes : Bytes)
    → pread_device amount position alarms s ≡ (moved bytes, after)
    → (take (min 2 amount) (drop position s.held) ≡ bytes)
      × (after.held ≡ s.held)
      × (after.alarms ≡ 0)
unfolding pread_device
pread_moves amount position zero s after bytes h = (
  moved_injective (ap (λ (p : Transfer Bytes × Device). p.0) h),
  ap (λ (p : Transfer Bytes × Device). p.1.held) (sym h),
  ap (λ (p : Transfer Bytes × Device). p.1.alarms) (sym h),
)
pread_moves amount position (suc alarms) s after bytes h =
    absurd (cc (ap (λ (p : Transfer Bytes × Device). p.0) h))

pub pread_waits :
    (amount position alarms : ℕ) (s after : Device)
    → pread_device amount position alarms s ≡ (interrupted, after)
    → (after.held ≡ s.held) × (after.alarms < alarms)
unfolding pread_device
pread_waits amount position zero s after h =
    absurd (cc (ap (λ (p : Transfer Bytes × Device). p.0) h))
pread_waits amount position (suc alarms) s after h = (
  ap (λ (p : Transfer Bytes × Device). p.1.held) (sym h),
  subst (λ n. n < suc alarms) (ap (λ (p : Transfer Bytes × Device). p.1.alarms) h) (omega arith),
)

pub pread_accepts :
    (amount position alarms : ℕ) (s after : Device) (code : ℕ)
    → ¬ (pread_device amount position alarms s ≡ (refused code, after))
unfolding pread_device
pread_accepts amount position zero s after code h =
    absurd (cc (ap (λ (p : Transfer Bytes × Device). p.0) h))
pread_accepts amount position (suc alarms) s after code h =
    absurd (cc (ap (λ (p : Transfer Bytes × Device). p.0) h))
