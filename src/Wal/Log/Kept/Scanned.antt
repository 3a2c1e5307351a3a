-- ===== src/Wal/Log/Kept/Scanned.antt =====
-- What the constructor of Wal::Impl in src/wal.cpp reads of a lawful file.
use det_log.Prelude.{◌≡◌, refl, sym, ◌∙◌, ap, subst, inl, inr, ℕ, length, take, drop}
use det_log.Model.{Bytes}
use det_log.Wal.Types.{Result, done, error, WalError, WalErrorCode, WalIdentity, WalOptions}
use det_log.Wal.Scan.{WalScanResult, scan_wal_bytes}
use det_log.Wal.Scan.Source.{scan_source}
use det_log.Wal.Scan.Source.Agrees.{Agrees, ReadsWell, scan_source-Agrees}
use det_log.Wal.Storage.{NativeFile, IsLawful}

-- The failures that a file may show.
abbrev pub IsIo : WalError → Type 0
IsIo e = e.code ≡ WalErrorCode.io

module _ (N : NativeFile) (L : IsLawful N) where
  pub size-kept :
      (file after : N.File) (n : ℕ)
      → N.size file ≡ (done n, after)
      → (n ≡ length (N.contents file)) × (N.contents after ≡ N.contents file)
  size-kept file after n ran =
      (L.size-done file after n ran, ap (λ p. N.contents p.1) (sym ran) ∙ L.size-contents file)

  pub read_exact-ReadsWell : ReadsWell N.contents IsIo N.read_exact
  read_exact-ReadsWell offset size f inside = went (N.read_exact offset size f) refl
    where
      went :
          (r : Result Bytes × N.File)
          → N.read_exact offset size f ≡ r
          → Agrees N.contents IsIo (N.contents f) (done (take size (drop offset (N.contents f)))) r
      went (done bytes, after) ran = (
        inl (ap done (L.read-done offset size f after bytes inside ran)),
        ap (λ p. N.contents p.1) (sym ran) ∙ L.read-contents offset size f inside,
      )
      went (error e, after) ran = (
        inr (L.read-io offset size f after e inside ran),
        ap (λ p. N.contents p.1) (sym ran) ∙ L.read-contents offset size f inside,
      )

  -- A scan that went through has found what its bytes hold.
  pub scan_source-kept :
      (identity : WalIdentity) (options : WalOptions) (n : ℕ) (file after : N.File)
      (found : WalScanResult)
      → n ≡ length (N.contents file)
      → scan_source N.read_exact n identity options file ≡ (done found, after)
      → (scan_wal_bytes (N.contents file) identity options ≡ done found)
        × (N.contents after ≡ N.contents file)
  scan_source-kept identity options n file after found size ran =
      let (went, held) =
        subst
          (Agrees N.contents IsIo (N.contents file)
            (scan_wal_bytes (N.contents file) identity options))
          (ap (λ n. scan_source N.read_exact n identity options file) (sym size) ∙ ran)
          (scan_source-Agrees N.contents IsIo N.read_exact read_exact-ReadsWell identity options
            file) in
      elim went [ inl same ↦ (sym same, held) | inr failed ↦ absurd failed ]
