-- ===== src/Wal/Log/Kept/Opened.antt =====
-- What the constructor of Wal::Impl in src/wal.cpp finds in a file that a log has left.
use det_log.Prelude.{
  ◌≡◌, refl, sym, ◌∙◌, ap, subst, inl, inr, false, List, [], ◌++◌, All, append_assoc, append_nil,
  take,
}
use det_log.Model.{Bytes, PersistBatch}
use det_log.Wal.Types.{Result, done, error, WalIdentity, WalOptions, WalState, validate_options}
use det_log.Wal.Stage.Accepted.{BatchWidths}
use det_log.Wal.Frame.Header.{IdentityFits, file_header_layout}
use det_log.Wal.Scan.{WalScanResult, cut, scan_wal_bytes}
use det_log.Wal.Scan.Sequence.{Framed, Framed-append, Framed-logical, logical}
use det_log.Wal.Scan.Recovery.{start, scan_wal_bytes-Recovered, scan_wal_bytes-Framed}
use det_log.Wal.Storage.{NativeFile, Partly, IsLawful}
use det_log.Wal.Log.{WalAppendResult, Log, append_group}
use det_log.Wal.Log.Kept.{Consistent}
use det_log.Wal.Log.Kept.Appended.{Stopped, Outcome, append_group-Outcome}

-- A scan of these bytes finds the state behind the batches and some first ones of `new`.
pub record Survives (identity : WalIdentity) (options : WalOptions)
    (batches new : List PersistBatch) (contents : Bytes) : Type 0 where
  pub result : WalScanResult
  pub kept : List PersistBatch
  pub lost : List PersistBatch
  pub bytes : Bytes
  pub scanned : scan_wal_bytes contents identity options ≡ done result
  pub split : kept ++ lost ≡ new
  pub framed : Framed options start (batches ++ kept) bytes (logical result.state)

torn-Survives :
    (identity : WalIdentity) (options : WalOptions) (batches new : List PersistBatch)
    (bytes more contents : Bytes) (middle after : WalState)
    → IdentityFits identity
    → validate_options options ≡ done tt
    → Framed options start batches bytes middle
    → Framed options middle new more after
    → Partly (file_header_layout identity ++ bytes) more contents
    → Survives identity options batches new contents
torn-Survives identity options batches new bytes more contents middle after i o h k
      (n, inside, held) =
    let (result, ran, r) =
      scan_wal_bytes-Recovered identity options batches new bytes more n middle after i o h k
        inside in
    let whole =
      Framed-append options batches r.kept bytes r.bytes start middle r.state h r.framed in
    let plain : logical r.state ≡ r.state =
      Framed-logical options (batches ++ r.kept) (bytes ++ r.bytes) start r.state whole refl in
    record {
      result = result;
      kept = r.kept;
      lost = r.lost;
      bytes = bytes ++ r.bytes;
      scanned =
          ap (λ file. scan_wal_bytes file identity options)
            (held ∙ append_assoc (file_header_layout identity) bytes (take n more))
          ∙ ran;
      split = r.split;
      framed =
          subst (Framed options start (batches ++ r.kept) (bytes ++ r.bytes))
            (sym (ap (λ (found : WalScanResult). logical found.state) r.found ∙ plain)) whole;
    }

module _ (N : NativeFile) where
  -- The scan of the file of a log returns the log's state.
  pub Consistent-scan :
      (log : Log N) (batches : List PersistBatch) (bytes : Bytes)
      → Consistent N log batches bytes
      → scan_wal_bytes (N.contents log.file) log.identity log.options
        ≡ done (cut (logical log.state) log.state.file_bytes false)
  Consistent-scan log batches bytes c =
      ap (λ file. scan_wal_bytes file log.identity log.options) c.contents
      ∙ scan_wal_bytes-Framed log.identity log.options batches bytes (logical log.state) c.identity
          c.options c.framed

  Consistent-Survives :
      (log : Log N) (batches new : List PersistBatch) (bytes : Bytes)
      → Consistent N log batches bytes
      → Survives log.identity log.options batches new (N.contents log.file)
  Consistent-Survives log batches new bytes c = record {
    result = cut (logical log.state) log.state.file_bytes false;
    kept = [];
    lost = new;
    bytes = bytes;
    scanned = Consistent-scan log batches bytes c;
    split = refl;
    framed =
        subst (λ all. Framed log.options start all bytes (logical log.state))
          (sym (append_nil batches)) c.framed;
  }

  Stopped-Survives :
      (log after : Log N) (batches new : List PersistBatch) (bytes : Bytes)
      → Consistent N log batches bytes
      → Stopped N log after new (file_header_layout log.identity ++ bytes)
      → Survives log.identity log.options batches new (N.contents after.file)
  Stopped-Survives log after batches new bytes c s =
      torn-Survives log.identity log.options batches new bytes s.more (N.contents after.file)
        (logical log.state) s.last c.identity c.options c.framed s.framed s.partly

module _ (N : NativeFile) (L : IsLawful N) where
  outcome-Survives :
      (log : Log N) (batches new : List PersistBatch) (bytes : Bytes)
      (r : Result WalAppendResult × Log N)
      → Consistent N log batches bytes
      → Outcome N log batches bytes new r
      → Survives log.identity log.options batches new (N.contents r.1.file)
  outcome-Survives log batches new bytes (error e, after) c (inl same) =
      subst (λ (l : Log N). Survives log.identity log.options batches new (N.contents l.file))
        (sym same) (Consistent-Survives N log batches new bytes c)
  outcome-Survives log batches new bytes (error e, after) c (inr stopped) =
      Stopped-Survives N log after batches new bytes c stopped
  outcome-Survives log batches new bytes (done result, after) c
        (more, identity, options, k, _, _, _, _) =
      let scan = Consistent-scan N after (batches ++ new) (bytes ++ more) k in
      record {
        result = cut (logical after.state) after.state.file_bytes false;
        kept = new;
        lost = [];
        bytes = bytes ++ more;
        scanned =
            ap (λ i. scan_wal_bytes (N.contents after.file) i log.options) (sym identity)
            ∙ ap (λ o. scan_wal_bytes (N.contents after.file) after.identity o) (sym options)
            ∙ scan;
        split = append_nil new;
        framed =
            subst (λ o. Framed o start (batches ++ new) (bytes ++ more) (logical after.state))
              options k.framed;
      }

  -- On a lawful file and a log that is consistent with it, with batches of the C++ widths: whatever
  -- `append_group` returns, a scan of the file behind it succeeds, and finds the state behind the earlier
  -- batches and some first ones of the group.
  pub append_group-Survives :
      (log after : Log N) (batches new : List PersistBatch) (bytes : Bytes)
      (r : Result WalAppendResult)
      → Consistent N log batches bytes
      → All BatchWidths new
      → append_group N new log ≡ (r, after)
      → Survives log.identity log.options batches new (N.contents after.file)
  append_group-Survives log after batches new bytes r c w ran =
      subst
        (λ (p : Result WalAppendResult × Log N).
          Survives log.identity log.options batches new (N.contents p.1.file))
        ran
        (outcome-Survives log batches new bytes (append_group N new log) c
          (append_group-Outcome N L log batches new bytes c w))
