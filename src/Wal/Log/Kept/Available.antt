-- ===== src/Wal/Log/Kept/Available.antt =====
-- The constructor of Wal::Impl in src/wal.cpp on a file that a log has left: only the file stops it.
use det_log.Prelude.{
  ◌≡◌, refl, sym, ◌∙◌, ap, subst, inl, inr, ◌≤◌, false, List, All, arith, Bool-cases, ltb, eqb,
  length,
}
use det_log.Model.{Bytes, PersistBatch}
use det_log.Wal.Types.{
  Result, done, error, bind-done, and_then, WalError, WalIdentity, WalOptions, file_header_bytes,
  validate_options,
}
use det_log.Wal.Stage.Accepted.{BatchWidths}
use det_log.Wal.Scan.{WalScanResult, scan_wal_bytes}
use det_log.Wal.Scan.Source.{scan_source}
use det_log.Wal.Scan.Source.Agrees.{Agrees, scan_source-Agrees}
use det_log.Wal.Storage.{NativeFile, IsLawful}
use det_log.Wal.Log.{WalAppendResult, Log, append_group, repair, open_log}
use det_log.Wal.Log.Kept.{Consistent}
use det_log.Wal.Log.Kept.Opened.{append_group-Survives}
use det_log.Wal.Log.Kept.Scanned.{IsIo, size-kept, read_exact-ReadsWell}

-- A call returns, or its error is one of the file.
abbrev pub OnlyIo : {F A : Type 0} → Result A × F → Type 0
OnlyIo (done _, _) = Unit {0}
OnlyIo (error e, _) = IsIo e

and_then-OnlyIo :
    {F A B : Type 0} (p : Result A × F) (next : A → F → Result B × F)
    → OnlyIo p
    → ((a : A) (f : F) → p ≡ (done a, f) → OnlyIo (next a f))
    → OnlyIo (and_then p next)
and_then-OnlyIo (done a, f) next h k = k a f refl
and_then-OnlyIo (error e, f) next h k = h

-- What holds of the errors of a call holds of the call.
errors-OnlyIo :
    {F A : Type 0} (p : Result A × F)
    → ((e : WalError) (f : F) → p ≡ (error e, f) → IsIo e)
    → OnlyIo p
errors-OnlyIo (done a, f) h = tt
errors-OnlyIo (error e, f) h = h e f refl

-- A scan goes through only behind a whole file header.
scanned-long :
    (bytes : Bytes) (identity : WalIdentity) (options : WalOptions) (result : WalScanResult)
    → scan_wal_bytes bytes identity options ≡ done result
    → file_header_bytes ≤ length bytes
unfolding scan_wal_bytes
scanned-long bytes identity options result h =
    let (_, _, h1) = bind-done (validate_options options) _ h in
    elim (Bool-cases (ltb (length bytes) file_header_bytes)) [
      | inl short ↦ let h2 = rw short at h1 in absurd (cc (h2))
      | inr whole ↦ ground (arith, whole)
    ]

module _ (N : NativeFile) (L : IsLawful N) where
  repair-OnlyIo :
      (identity : WalIdentity) (options : WalOptions) (recovered : WalScanResult) (file : N.File)
      → OnlyIo (repair N identity options recovered file)
  unfolding repair
  repair-OnlyIo identity options recovered file = elim (Bool-cases recovered.has_incomplete_tail) [
    | inr whole ↦ rw whole tt
    | inl torn ↦ rw torn (
        and_then-OnlyIo (N.truncate recovered.valid_bytes file) _
          (errors-OnlyIo (N.truncate recovered.valid_bytes file)
            (λ e f ran. L.truncate-io recovered.valid_bytes file f e ran))
          (λ _ f _.
            and_then-OnlyIo (N.flush f) _
              (errors-OnlyIo (N.flush f) (λ e after ran. L.flush-io f after e ran)) (λ _ _ _. tt)))
  ]

  scanned-OnlyIo :
      (bytes : Bytes) (result : WalScanResult) (p : Result WalScanResult × N.File)
      → Agrees N.contents IsIo bytes (done result) p
      → OnlyIo p
  scanned-OnlyIo bytes result (done found, f) h = tt
  scanned-OnlyIo bytes result (error e, f) (inl bad, _) = absurd (cc (bad))
  scanned-OnlyIo bytes result (error e, f) (inr failed, _) = failed

  open_log-OnlyIo :
      (identity : WalIdentity) (options : WalOptions) (file : N.File) (result : WalScanResult)
      → validate_options options ≡ done tt
      → scan_wal_bytes (N.contents file) identity options ≡ done result
      → OnlyIo (open_log N identity options file)
  unfolding open_log
  open_log-OnlyIo identity options file result o scanned =
      let long = scanned-long (N.contents file) identity options result scanned in
      rw o (
        and_then-OnlyIo (N.size file) _
          (errors-OnlyIo (N.size file) (λ e f ran. L.size-io file f e ran))
          (λ n f measured.
            let (size, kept) = size-kept N L file f n measured in
            let some_bytes : eqb n 0 ≡ false = ground (arith, size, long) in
            let whole : length (N.contents f) ≡ n = ap length kept ∙ sym size in
            rw some_bytes (
              and_then-OnlyIo (scan_source N.read_exact n identity options f) _
                (scanned-OnlyIo (N.contents f) result
                  (scan_source N.read_exact n identity options f)
                  (subst
                    (λ r.
                      Agrees N.contents IsIo (N.contents f) r
                        (scan_source N.read_exact n identity options f))
                    (ap (λ bytes. scan_wal_bytes bytes identity options) kept ∙ scanned)
                    (subst
                      (λ n.
                        Agrees N.contents IsIo (N.contents f)
                          (scan_wal_bytes (N.contents f) identity options)
                          (scan_source N.read_exact n identity options f))
                      whole
                      (scan_source-Agrees N.contents IsIo N.read_exact (read_exact-ReadsWell N L)
                        identity options f))))
                (λ found after _. repair-OnlyIo identity options found after))))

  -- On a lawful file and a log that is consistent with it, with batches of the C++ widths: whatever
  -- `append_group` returns, and wherever a write failed, a log can be opened on the file again; the
  -- constructor throws at most the error of a call of the file, never one of the format, of a checksum
  -- or of an invariant.
  pub append_group-OnlyIo :
      (log after : Log N) (batches new : List PersistBatch) (bytes : Bytes)
      (r : Result WalAppendResult)
      → Consistent N log batches bytes
      → All BatchWidths new
      → append_group N new log ≡ (r, after)
      → OnlyIo (open_log N log.identity log.options after.file)
  append_group-OnlyIo log after batches new bytes r c w ran =
      let s = append_group-Survives N L log after batches new bytes r c w ran in
      open_log-OnlyIo log.identity log.options after.file s.result c.options s.scanned
