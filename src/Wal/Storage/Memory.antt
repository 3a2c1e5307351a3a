-- ===== src/Wal/Storage/Memory.antt =====
-- A file in memory that holds at most `capacity` bytes: a NativeFile of src/wal.cpp on which a write
-- can fail.
use det_log.Prelude.{
  ◌≡◌, refl, sym, false, ◌∙◌, ap, inl, inr, ℕ, ◌+◌, ◌-◌, ◌≤◌, ◌++◌, arith, Bool-cases, ltb, eqb,
  if◌then◌else◌, length, append_nil, take, drop, drop-all, take-all,
}
use det_log.Model.{Bytes}
use det_log.Wal.Types.{Result, done, error, throw, done_injective, WalError, WalErrorCode}
use det_log.Wal.Storage.{NativeFile, Partly, IsLawful}

unfoldable pub write_memory : ℕ → ℕ → Bytes → Bytes → Result (Unit {0}) × Bytes
write_memory capacity offset bytes f =
    if ltb (capacity - offset) (length bytes)
    then (throw WalErrorCode.io "no space left", take offset f ++ take (capacity - offset) bytes)
    else (done tt, take offset f ++ (bytes ++ drop (offset + length bytes) f))

unfoldable pub read_memory : ℕ → ℕ → Bytes → Result Bytes × Bytes
read_memory offset size f =
    if ltb (length f) (offset + size)
    then (throw WalErrorCode.io "unexpected EOF while reading WAL", f)
    else (done (take size (drop offset f)), f)

abbrev pub memory_file : ℕ → NativeFile
memory_file capacity = record {
  File = Bytes;
  created = λ f. eqb (length f) 0;
  contents = λ f. f;
  size = λ f. (done (length f), f);
  read_exact = read_memory;
  write_exact = write_memory capacity;
  flush = λ f. (done tt, f);
  truncate = λ n f. (done tt, take n f);
  sync_parent_directory = λ f. (done tt, f);
}

whole :
    (bytes f : Bytes)
    → take (length f) f ++ (bytes ++ drop (length f + length bytes) f) ≡ f ++ bytes
whole bytes f =
    rw
      (
        take-all (length f) f (omega arith),
        drop-all (length f + length bytes) f (omega arith),
        append_nil bytes,
      )
      refl

write-done :
    (capacity : ℕ) (bytes f after : Bytes)
    → write_memory capacity (length f) bytes f ≡ (done tt, after)
    → after ≡ f ++ bytes
unfolding write_memory
write-done capacity bytes f after e = elim (Bool-cases (ltb (capacity - length f) (length bytes))) [
  | inl full ↦
      let e1 = rw (full, write_memory) at e in
      let bad = ap (λ (p : Result (Unit {0}) × Bytes). p.0) e1 in absurd (cc (bad))
  | inr room ↦
      let e1 = rw (room, write_memory) at e in
      sym (ap (λ (p : Result (Unit {0}) × Bytes). p.1) e1) ∙ whole bytes f
]

write-torn :
    (capacity : ℕ) (bytes f after : Bytes) (reason : WalError)
    → write_memory capacity (length f) bytes f ≡ (error reason, after)
    → Partly f bytes after × (reason.code ≡ WalErrorCode.io)
unfolding write_memory
write-torn capacity bytes f after reason e =
    elim (Bool-cases (ltb (capacity - length f) (length bytes))) [
      | inl full ↦
          let e1 = rw (full, write_memory) at e in
          (
            (
              capacity - length f,
              ground (arith, full),
              sym (ap (λ (p : Result (Unit {0}) × Bytes). p.1) e1)
                  ∙ ap (λ front. front ++ take (capacity - length f) bytes)
                      (take-all (length f) f (omega arith)),
            ),
            code (ap (λ (p : Result (Unit {0}) × Bytes). p.0) e1),
          )
      | inr room ↦
          let e1 = rw (room, write_memory) at e in
          let bad = ap (λ (p : Result (Unit {0}) × Bytes). p.0) e1 in absurd (cc (bad))
    ]
  where
    code :
        throw {A = Unit {0}} WalErrorCode.io "no space left" ≡ error reason
        → reason.code ≡ WalErrorCode.io
    code h =
        ap
          (λ (r : Result (Unit {0})). elim r as (λ _. WalErrorCode) [
            | done _ ↦ WalErrorCode.io
            | error e ↦ e.code
          ])
          (sym h)

read_inside :
    (offset size : ℕ) (f : Bytes)
    → offset + size ≤ length f
    → read_memory offset size f ≡ (done (take size (drop offset f)), f)
unfolding read_memory
read_inside offset size f inside =
    let enough : ltb (length f) (offset + size) ≡ false = ground (arith, inside) in rw enough refl

pub memory_file-IsLawful : (capacity : ℕ) → IsLawful (memory_file capacity)
memory_file-IsLawful capacity = record {
  size-done = λ f after n e. done_injective (sym (ap (λ (p : Result ℕ × Bytes). p.0) e));
  size-io = λ f after e h. cc (ap (λ (p : Result ℕ × Bytes). p.0) h);
  size-contents = λ f. refl;
  read-done = λ offset size f after bytes inside e.
      done_injective
        (sym (ap (λ (p : Result Bytes × Bytes). p.0) (sym (read_inside offset size f inside) ∙ e)));
  read-io = λ offset size f after reason inside e.
      cc (ap (λ (p : Result Bytes × Bytes). p.0) (sym (read_inside offset size f inside) ∙ e));
  read-contents = λ offset size f inside. ap (λ p. p.1) (read_inside offset size f inside);
  write-done = λ bytes f after e. write-done capacity bytes f after e;
  write-torn = λ bytes f after reason e. (write-torn capacity bytes f after reason e).0;
  write-io = λ bytes f after reason e. (write-torn capacity bytes f after reason e).1;
  flush-contents = λ f. refl;
  flush-io = λ f after reason e. cc (ap (λ (p : Result (Unit {0}) × Bytes). p.0) e);
  truncate-contents = λ n f after _ e. sym (ap (λ (p : Result (Unit {0}) × Bytes). p.1) e);
  truncate-io = λ n f after reason e. cc (ap (λ (p : Result (Unit {0}) × Bytes). p.0) e);
  sync-contents = λ f. refl;
}
