-- ===== src/Wal/Storage/Native/Lawful.antt =====
-- NativeFile of src/wal.cpp keeps what the log assumes of its file.
use det_log.Model.{Bytes}
use det_log.Prelude.{
  ◌≡◌, refl, sym, ◌∙◌, ap, subst, ℕ, ◌≤◌, false, String, Option, none, some, arith, ltb, length,
  take, ◌+◌, inl, inr, Bool-cases,
}
use det_log.Wal.Types.{Result, done, error, WalError, WalErrorCode}
use det_log.Wal.Storage.{IsLawful, Syncs}
use det_log.Wal.Storage.Posix.{
  Posix, Fsyncs, off_max, IsDocumented, FileSize, sized, negative, unknown,
}
use det_log.Wal.Storage.Native.{
  Descriptor, checked, flush_file, truncate_file, parent, sync_opened, sync_parent, native_file,
  read_exact, size_of, file_size, throw_io,
}
use det_log.Wal.Storage.Native.Reads.{Reads, read_exact-Reads}
use det_log.Wal.Storage.Native.Transfers.{Appends, write_exact-Appends}

module _ (P : Posix) (L : IsDocumented P) where
  checked-contents :
      (operation path : String) (d : Descriptor P) (r : Option ℕ × P.State)
      → P.contents (checked P operation path d r).1.system ≡ P.contents r.1
  checked-contents operation path d (none, system) = refl
  checked-contents operation path d (some code, system) = refl

  code_of : {A : Type 0} → Result A × Descriptor P → WalErrorCode
  code_of (done _, _) = WalErrorCode.io
  code_of (error e, _) = e.code

  -- The code of an error that a call has thrown.
  thrown :
      {A : Type 0} (r : Result A × Descriptor P) {e : WalError} {after : Descriptor P}
      → code_of r ≡ WalErrorCode.io
      → r ≡ (error e, after)
      → e.code ≡ WalErrorCode.io
  unfolding code_of
  thrown r io h = ap code_of (sym h) ∙ io

  checked-io :
      (operation path : String) (d after : Descriptor P) (e : WalError) (r : Option ℕ × P.State)
      → checked P operation path d r ≡ (error e, after)
      → e.code ≡ WalErrorCode.io
  unfolding code_of
  checked-io operation path d after e (none, system) h =
      absurd (cc (ap (λ (p : Result (Unit {0}) × Descriptor P). p.0) h))
  checked-io operation path d after e (some code, system) h =
      thrown (checked P operation path d (some code, system)) refl h

  pub checked-done :
      (operation path : String) (d after : Descriptor P) (r : Option ℕ × P.State)
      → checked P operation path d r ≡ (done tt, after)
      → r ≡ (none, after.system)
  checked-done operation path d after (none, system) h =
      ap (λ (p : Result (Unit {0}) × Descriptor P). (none, p.1.system)) h
  checked-done operation path d after (some code, system) h =
      absurd (cc (ap (λ (p : Result (Unit {0}) × Descriptor P). p.0) h))

  -- A flush that returns has called fsync, so that the bytes are on the medium.
  unfoldable pub native_file-Syncs : Fsyncs P → Syncs (native_file P)
  unfolding flush_file
  native_file-Syncs F = record {
    durable = λ d. F.durable d.system;
    flush-durable = λ f after e.
        F.fsync-durable f.system after.system
          (checked-done "flush" f.path f after (P.fsync f.system) e);
  }

  size_of-done :
      (d after : Descriptor P) (n : ℕ) (r : FileSize × P.State)
      → size_of P d r ≡ (done n, after)
      → r ≡ (sized n, after.system)
  size_of-done d after n (sized m, system) h =
      ap
        (λ (p : Result ℕ × Descriptor P).
          (sized (elim p.0 as (λ _. ℕ) [ done k ↦ k | error _ ↦ m ]), p.1.system))
        h
  size_of-done d after n (negative, system) h =
      absurd (cc (ap (λ (p : Result ℕ × Descriptor P). p.0) h))
  size_of-done d after n (unknown code, system) h =
      absurd (cc (ap (λ (p : Result ℕ × Descriptor P). p.0) h))

  size_of-contents :
      (d : Descriptor P) (r : FileSize × P.State)
      → P.contents (size_of P d r).1.system ≡ P.contents r.1
  size_of-contents d (sized n, system) = refl
  size_of-contents d (negative, system) = refl
  size_of-contents d (unknown code, system) = refl

  file_size-done :
      (d after : Descriptor P) (n : ℕ)
      → file_size P d ≡ (done n, after)
      → n ≡ length (P.contents d.system)
  unfolding file_size
  file_size-done d after n h =
      L.fstat-sized d.system after.system n (size_of-done d after n (P.fstat d.system) h)

  size_of-io :
      (d after : Descriptor P) (e : WalError) (r : FileSize × P.State)
      → size_of P d r ≡ (error e, after)
      → e.code ≡ WalErrorCode.io
  unfolding code_of
  size_of-io d after e (sized n, system) h =
      absurd (cc (ap (λ (p : Result ℕ × Descriptor P). p.0) h))
  size_of-io d after e (negative, system) h = thrown (size_of P d (negative, system)) refl h
  size_of-io d after e (unknown code, system) h = thrown (size_of P d (unknown code, system)) refl h

  file_size-io :
      (d after : Descriptor P) (e : WalError)
      → file_size P d ≡ (error e, after)
      → e.code ≡ WalErrorCode.io
  unfolding file_size
  file_size-io d after e h = size_of-io d after e (P.fstat d.system) h

  truncate-io :
      (n : ℕ) (d after : Descriptor P) (e : WalError)
      → truncate_file P n d ≡ (error e, after)
      → e.code ≡ WalErrorCode.io
  unfolding truncate_file throw_io code_of
  truncate-io n d after e h = elim (Bool-cases (ltb off_max n)) [
    | inl large ↦
        let h1 = rw (large, truncate_file) at h in
        thrown (throw_io P "truncate" d.path (P.errno d.system) d) refl h1
    | inr small ↦
        let h1 = rw (small, truncate_file) at h in
        checked-io "truncate" d.path d after e (P.ftruncate n d.system) h1
  ]

  file_size-contents :
      (d : Descriptor P) → P.contents (file_size P d).1.system ≡ P.contents d.system
  unfolding file_size
  file_size-contents d = size_of-contents d (P.fstat d.system) ∙ L.fstat-contents d.system

  -- A reading inside the file ends before 2 ^ 64.
  read_inside :
      (offset size : ℕ) (d : Descriptor P)
      → offset + size ≤ length (P.contents d.system)
      → Reads P L (P.contents d.system) offset size (read_exact P offset size d)
  read_inside offset size d inside =
      let limit = L.contents-limit d.system in
      read_exact-Reads P L offset size d (omega (arith, inside, limit))

  Reads-same :
      (file : Bytes) (offset size : ℕ) (r : Result Bytes × Descriptor P)
      → Reads P L file offset size r
      → P.contents r.1.system ≡ file
  Reads-same file offset size (done bytes, d) (_, _, same) = same
  Reads-same file offset size (error e, d) (_, same, _) = same

  truncate-contents :
      (n : ℕ) (d after : Descriptor P)
      → n ≤ length (P.contents d.system)
      → truncate_file P n d ≡ (done tt, after)
      → P.contents after.system ≡ take n (P.contents d.system)
  unfolding truncate_file
  truncate-contents n d after inside e =
      let limit = L.contents-limit d.system in
      let small : ltb off_max n ≡ false = ground (arith, inside, limit) in
      let e1 = rw (small, truncate_file) at e in
      let ran = checked-done "truncate" d.path d after (P.ftruncate n d.system) e1 in
      L.ftruncate-done n d.system after.system inside ran

  sync_opened-contents :
      (r : Result (Unit {0}) × Descriptor P)
      → P.contents (sync_opened P r).1.system ≡ P.contents r.1.system
  sync_opened-contents (error e, d) = refl
  sync_opened-contents (done _, d) =
      checked-contents "flush directory" (parent P d) d (P.fsync_directory d.system)
      ∙ L.fsync_directory-contents d.system

  sync-contents : (d : Descriptor P) → P.contents (sync_parent P d).1.system ≡ P.contents d.system
  unfolding sync_parent
  sync-contents d =
      let opened = checked P "open directory" (parent P d) d (P.open_directory d.system) in
      sync_opened-contents opened
      ∙ checked-contents "open directory" (parent P d) d (P.open_directory d.system)
      ∙ L.open_directory-contents d.system

  -- Over documented calls NativeFile keeps what the log assumes of a file, although every write may be
  -- split by partial transfers and interrupted by signals: a write at the end that returns has
  -- appended all its bytes, one that throws has left the front of them and the code io; a flush and a
  -- flush of the directory leave the bytes and throw io; a truncation within the file cuts it.
  pub native_file-IsLawful : IsLawful (native_file P)
  unfolding flush_file
  native_file-IsLawful = record {
    size-done = λ f after n e. file_size-done f after n e;
    size-io = λ f after e h. file_size-io f after e h;
    size-contents = λ f. file_size-contents f;
    read-done = λ offset size f after bytes inside e.
        (subst (Reads P L (P.contents f.system) offset size) e
          (read_inside offset size f inside)).0;
    read-io = λ offset size f after reason inside e.
        (subst (Reads P L (P.contents f.system) offset size) e
          (read_inside offset size f inside)).0;
    read-contents = λ offset size f inside.
        Reads-same (P.contents f.system) offset size (read_exact P offset size f)
          (read_inside offset size f inside);
    write-done = λ bytes f after e.
        subst (Appends P L (P.contents f.system) bytes) e (write_exact-Appends P L bytes f);
    write-torn = λ bytes f after reason e.
        (subst (Appends P L (P.contents f.system) bytes) e (write_exact-Appends P L bytes f)).0;
    write-io = λ bytes f after reason e.
        (subst (Appends P L (P.contents f.system) bytes) e (write_exact-Appends P L bytes f)).1;
    flush-contents =
        λ f. checked-contents "flush" f.path f (P.fsync f.system) ∙ L.fsync-contents f.system;
    flush-io = λ f after reason e. checked-io "flush" f.path f after reason (P.fsync f.system) e;
    truncate-contents = λ n f after inside e. truncate-contents n f after inside e;
    truncate-io = λ n f after reason e. truncate-io n f after reason e;
    sync-contents = λ f. sync-contents f;
  }
