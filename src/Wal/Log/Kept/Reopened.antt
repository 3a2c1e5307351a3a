-- ===== src/Wal/Log/Kept/Reopened.antt =====
-- The log that the constructor of Wal::Impl in src/wal.cpp makes of a file that a log has left.
use det_log.Wal.Scan.Source.{scan_source}
use det_log.Wal.Log.Kept.Scanned.{size-kept, scan_source-kept}
use det_log.Prelude.{
  ◌≡◌, refl, sym, ◌∙◌, ap, subst, inl, inr, false, List, [], ◌∷◌, ◌++◌, All, arith, eqb, length,
  length-append, append_assoc, append_nil, take, ℕ, ◌≤◌,
}
use det_log.Model.{Bytes, PersistBatch}
use det_log.Wal.Types.{
  Result, done, error, done_injective, WalIdentity, WalOptions, WalState, validate_options,
  and_then,
}
use det_log.Wal.Stage.Accepted.{BatchWidths}
use det_log.Wal.Frame.Header.{IdentityFits, file_header_layout, length-file_header_layout}
use det_log.Wal.Scan.{scan_wal_bytes, WalScanResult}
use det_log.Wal.Scan.Sequence.{Framed, nothing, logical}
use det_log.Wal.Scan.Torn.{Recovered}
use det_log.Wal.Scan.Recovery.{start, scan_wal_bytes-Recovered}
use det_log.Wal.Storage.{NativeFile, Partly, IsLawful}
use det_log.Wal.Log.{WalAppendResult, Log, append_group, open_log, repair}
use det_log.Wal.Log.Kept.{Consistent}
use det_log.Wal.Log.Kept.Appended.{Outcome, append_group-Outcome}
use det_log.Wal.Log.Kept.Repaired.{pure-done, Reopened, repair-Reopened, and_then-done}

module _ (N : NativeFile) where
  -- What a log that is opened behind the call holds: all of an acknowledged group.
  abbrev pub Promised :
      Result WalAppendResult → Log N → List PersistBatch → List PersistBatch → Type 0
  Promised (done result) log batches new = Reopened N log (batches ++ new) []
  Promised (error e) log batches new = Reopened N log batches new

module _ (N : NativeFile) (L : IsLawful N) where
  found-Recovered :
      (identity : WalIdentity) (options : WalOptions) (new : List PersistBatch)
      (more whole contents : Bytes) (size : ℕ) (middle : WalState) (result found : WalScanResult)
      → scan_wal_bytes whole identity options ≡ done result
      → contents ≡ whole
      → scan_wal_bytes contents identity options ≡ done found
      → Recovered options middle new more size result
      → Recovered options middle new more size found
  found-Recovered identity options new more whole contents size middle result found ran same scanned
        r =
      let again =
        subst (λ bytes. scan_wal_bytes bytes identity options ≡ done found) same scanned in
      subst (Recovered options middle new more size) (done_injective (sym ran ∙ again)) r

  -- The constructor behind the call of `size`, on a file of some bytes.
  scanned-Reopened :
      (identity : WalIdentity) (options : WalOptions) (batches new : List PersistBatch)
      (bytes more : Bytes) (size n : ℕ) (middle last : WalState) (file after : N.File) (log : Log N)
      → IdentityFits identity
      → validate_options options ≡ done tt
      → Framed options start batches bytes middle
      → Framed options middle new more last
      → size ≤ length more
      → n ≡ length (N.contents file)
      → N.contents file ≡ file_header_layout identity ++ (bytes ++ take size more)
      → and_then
          (scan_source N.read_exact n identity options file)
          (λ recovered file. repair N identity options recovered file)
        ≡ (done log, after)
      → Reopened N log batches new
  scanned-Reopened identity options batches new bytes more size n middle last file after log i o h k
        inside whole held e =
      let (found, f, read, e1) =
        and_then-done (scan_source N.read_exact n identity options file) _ e in
      let (scanned, same) = scan_source-kept N L identity options n file f found whole read in
      let (result, ran, r) =
        scan_wal_bytes-Recovered identity options batches new bytes more size middle last i o h k
          inside in
      repair-Reopened N L identity options batches new bytes more size middle found f after log i o
        h (same ∙ held)
        (found-Recovered identity options new more
          (file_header_layout identity ++ (bytes ++ take size more)) (N.contents file) size middle
          result found ran held scanned r)
        e1

  open_log-Reopened :
      (identity : WalIdentity) (options : WalOptions) (batches new : List PersistBatch)
      (bytes more : Bytes) (middle last : WalState) (file after : N.File) (log : Log N)
      → IdentityFits identity
      → Framed options start batches bytes middle
      → Framed options middle new more last
      → Partly (file_header_layout identity ++ bytes) more (N.contents file)
      → open_log N identity options file ≡ (done log, after)
      → Reopened N log batches new
  unfolding open_log
  open_log-Reopened identity options batches new bytes more middle last file after log i h k
        (size, inside, held) e =
      let (_, o, e1) = pure-done (validate_options options) file _ e in
      let (n, f, measured, e2) = and_then-done (N.size file) _ e1 in
      let (whole, kept) = size-kept N L file f n measured in
      let contents = held ∙ append_assoc (file_header_layout identity) bytes (take size more) in
      let some_bytes : eqb n 0 ≡ false = ground (
        arith,
        whole,
        ap length contents,
        length-append {0} (file_header_layout identity) (bytes ++ take size more),
        length-file_header_layout identity,
      ) in
      scanned-Reopened identity options batches new bytes more size n middle last f after log i o h
        k inside (whole ∙ ap length (sym kept)) (kept ∙ contents) (rw some_bytes at e2)

  -- A log that is opened on the file of a consistent one.
  Consistent-Reopened :
      (log again : Log N) (batches : List PersistBatch) (bytes : Bytes) (after : N.File)
      → Consistent N log batches bytes
      → open_log N log.identity log.options log.file ≡ (done again, after)
      → Reopened N again batches []
  Consistent-Reopened log again batches bytes after c e =
      open_log-Reopened log.identity log.options batches [] bytes [] (logical log.state)
        (logical log.state) log.file after again c.identity c.framed nothing
        (0, omega arith, c.contents ∙ sym (append_nil (file_header_layout log.identity ++ bytes))) e

  Reopened-none :
      (again : Log N) (batches new : List PersistBatch)
      → Reopened N again batches []
      → Reopened N again batches new
  Reopened-none again batches new r = record {
    kept = [];
    lost = new;
    bytes = r.bytes;
    split = refl;
    consistent =
        subst (λ kept. Consistent N again (batches ++ kept) r.bytes)
          (no_front r.kept r.lost r.split) r.consistent;
  }
    where
      no_front : (kept lost : List PersistBatch) → kept ++ lost ≡ [] → kept ≡ []
      no_front [] lost h = refl
      no_front (batch ∷ kept) lost h = cc

  outcome-Promised :
      (log again : Log N) (batches new : List PersistBatch) (bytes : Bytes)
      (r : Result WalAppendResult × Log N) (file : N.File)
      → Consistent N log batches bytes
      → Outcome N log batches bytes new r
      → open_log N log.identity log.options r.1.file ≡ (done again, file)
      → Promised N r.0 again batches new
  outcome-Promised log again batches new bytes (error e, after) file c (inl same) ran =
      Reopened-none again batches new (
        Consistent-Reopened log again batches bytes file c (
          subst (λ (l : Log N). open_log N log.identity log.options l.file ≡ (done again, file))
            same ran))
  outcome-Promised log again batches new bytes (error e, after) file c (inr s) ran =
      open_log-Reopened log.identity log.options batches new bytes s.more (logical log.state) s.last
        after.file file again c.identity c.framed s.framed s.partly ran
  outcome-Promised log again batches new bytes (done result, after) file c
        (more, identity, options, k, _, _, _, _) ran =
      Consistent-Reopened after again (batches ++ new) (bytes ++ more) file k (
        subst (λ o. open_log N after.identity o after.file ≡ (done again, file)) (sym options)
          (subst (λ i. open_log N i log.options after.file ≡ (done again, file)) (sym identity)
            ran))

  -- On a lawful file, let a log be consistent with its file, its identity be of the C++ widths, and the
  -- numbers of the new batches too. Whatever `append_group` returns, also where a write or the flush
  -- failed halfway, a log that is opened on the file is consistent with it again, and it holds the
  -- earlier batches and all the new ones, if the call succeeded, or some first ones of them, if it threw.
  pub append_group-Promised :
      (log after again : Log N) (batches new : List PersistBatch) (bytes : Bytes)
      (r : Result WalAppendResult) (file : N.File)
      → Consistent N log batches bytes
      → All BatchWidths new
      → append_group N new log ≡ (r, after)
      → open_log N log.identity log.options after.file ≡ (done again, file)
      → Promised N r again batches new
  append_group-Promised log after again batches new bytes r file c w ran opened_again =
      let outcome =
        subst (Outcome N log batches bytes new) ran
          (append_group-Outcome N L log batches new bytes c w) in
      outcome-Promised log again batches new bytes (r, after) file c outcome opened_again
