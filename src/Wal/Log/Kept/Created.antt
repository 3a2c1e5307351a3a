-- ===== src/Wal/Log/Kept/Created.antt =====
-- The log that the constructor of Wal::Impl in src/wal.cpp makes of an empty file.
use det_log.Wal.Log.Kept.Scanned.{size-kept}
use det_log.Prelude.{
  ◌≡◌, refl, sym, ◌∙◌, ap, subst, inl, inr, true, [], ◌++◌, arith, Bool-cases, eqb, if◌then◌else◌,
  length, append_nil,
}
use det_log.Model.{Bytes}
use det_log.Wal.Types.{
  Result, done, done_injective, WalIdentity, WalOptions, empty_state, file_header_bytes,
  validate_options,
}
use det_log.Wal.Frame.{make_file_header}
use det_log.Wal.Frame.Header.{
  IdentityFits, file_header_layout, length-file_header_layout, make_file_header-layout,
}
use det_log.Wal.Scan.Sequence.{Framed, nothing}
use det_log.Wal.Scan.Recovery.{start}
use det_log.Wal.Storage.{NativeFile, IsLawful}
use det_log.Wal.Log.{Log, opened, create, open_log}
use det_log.Wal.Log.Kept.{Consistent}
use det_log.Wal.Log.Kept.Repaired.{and_then-done, pure-done, flush-kept}

module _ (N : NativeFile) (L : IsLawful N) where
  sync-kept :
      (file after : N.File)
      → (if N.created file then N.sync_parent_directory file else (done tt, file))
        ≡ (done tt, after)
      → N.contents after ≡ N.contents file
  sync-kept file after ran = elim (Bool-cases (N.created file)) [
    | inl fresh ↦
        let ran1 = rw fresh at ran in ap (λ p. N.contents p.1) (sym ran1) ∙ L.sync-contents file
    | inr old ↦ let ran1 = rw old at ran in ap (λ p. N.contents p.1) (sym ran1)
  ]

  create-contents :
      (identity : WalIdentity) (options : WalOptions) (header : Bytes) (file after : N.File)
      (log : Log N)
      → N.contents file ≡ []
      → create N identity options header file ≡ (done log, after)
      → (log
          ≡ opened N identity options (record empty_state { file_bytes = length header }) log.file)
        × (N.contents log.file ≡ header)
  unfolding create
  create-contents identity options header file after log bare e =
      let (_, f1, written, e1) = and_then-done (N.write_exact 0 header file) _ e in
      let (_, f2, flushed, e2) = and_then-done (N.flush f1) _ e1 in
      let (_, f3, synced, e3) =
        and_then-done (if N.created f2 then N.sync_parent_directory f2 else (done tt, f2)) _ e2 in
      let same = done_injective (ap (λ (p : Result (Log N) × N.File). p.0) e3) in
      let first =
        subst (λ n. N.write_exact n header file ≡ (done tt, f1)) (sym (ap length bare)) written in
      let held : N.contents f3 ≡ header =
        sync-kept f2 f3 synced
        ∙ flush-kept N L f1 f2 flushed
        ∙ L.write-done header file f1 first
        ∙ ap (λ before. before ++ header) bare in
      subst
        (λ (l : Log N).
          (l ≡ opened N identity options (record empty_state { file_bytes = length header }) l.file)
          × (N.contents l.file ≡ header))
        same (refl, held)

  -- A log that is opened on an empty lawful file is consistent with it and holds no batches.
  pub open_log-created :
      (identity : WalIdentity) (options : WalOptions) (file after : N.File) (log : Log N)
      → IdentityFits identity
      → N.contents file ≡ []
      → open_log N identity options file ≡ (done log, after)
      → Consistent N log [] []
  unfolding open_log
  open_log-created identity options file after log i bare e =
      let (_, o, e1) = pure-done (validate_options options) file _ e in
      let (n, f1, measured, e2) = and_then-done (N.size file) _ e1 in
      let (whole, kept) = size-kept N L file f1 n measured in
      let no_bytes : eqb n 0 ≡ true = ground (arith, whole, ap length bare) in
      let (header, made, e3) = pure-done (make_file_header identity) f1 _ (rw no_bytes at e2) in
      let layout = make_file_header-layout identity header made in
      let (same, held) = create-contents identity options header f1 after log (kept ∙ bare) e3 in
      let size : length header ≡ file_header_bytes =
        ap length layout ∙ length-file_header_layout identity in
      subst (λ (l : Log N). Consistent N l [] []) (sym same)
        (record {
          identity = i;
          options = o;
          contents = held ∙ layout ∙ sym (append_nil (file_header_layout identity));
          framed =
              subst (λ n. Framed options start [] [] (record start { file_bytes = n })) (sym size)
                nothing;
          live = refl;
        })
