-- ===== src/Wal/Log/Kept/Repaired.antt =====
-- The repair of an incomplete tail by the constructor of Wal::Impl in src/wal.cpp.
use det_log.Prelude.{
  ◌≡◌, refl, sym, ◌∙◌, ap, subst, inl, inr, ℕ, ◌-◌, ◌≤◌, true, false, not, List, ◌++◌, arith,
  Bool-cases, eqb, length, length-append, length-take, take, take-take,
}
use det_log.Model.{Bytes, PersistBatch}
use det_log.Wal.Types.{
  Result, done, error, done_injective, WalIdentity, WalOptions, WalState, validate_options,
}
use det_log.Wal.Frame.Header.{IdentityFits, file_header_layout, length-file_header_layout}
use det_log.Wal.Scan.{WalScanResult, cut}
use det_log.Wal.Scan.Sequence.{Framed, Framed-append, Framed-kept, Framed-logical, logical}
use det_log.Wal.Scan.Torn.{Recovered, take_past}
use det_log.Wal.Scan.Recovery.{start}
use det_log.Wal.Storage.{NativeFile, IsLawful}
use det_log.Wal.Types.{and_then}
use det_log.Wal.Log.{Log, opened, repair}
use det_log.Wal.Log.Kept.{Consistent}

-- A call and what follows it went through.
pub and_then-done :
    {F A B : Type 0} (r : Result A × F) (next : A → F → Result B × F) {b : B} {after : F}
    → and_then r next ≡ (done b, after)
    → (a : A) × (f : F) × (r ≡ (done a, f)) × (next a f ≡ (done b, after))
and_then-done (done a, f) next h = (a, f, refl, h)
and_then-done (error e, f) next h = cc

pub pure-done :
    {F A B : Type 0} (r : Result A) (f : F) (next : A → F → Result B × F) {b : B} {after : F}
    → and_then (r, f) next ≡ (done b, after)
    → (a : A) × (r ≡ done a) × (next a f ≡ (done b, after))
pure-done (done a) f next h = (a, refl, h)
pure-done (error e) f next h = cc

-- The log holds the batches and some first ones of `new`.
pub record Reopened (N : NativeFile) (log : Log N) (batches new : List PersistBatch) : Type 0 where
  pub kept : List PersistBatch
  pub lost : List PersistBatch
  pub bytes : Bytes
  pub split : kept ++ lost ≡ new
  pub consistent : Consistent N log (batches ++ kept) bytes

module _ (N : NativeFile) (L : IsLawful N) where
  pub flush-kept :
      (file after : N.File) → N.flush file ≡ (done tt, after) → N.contents after ≡ N.contents file
  flush-kept file after ran = ap (λ p. N.contents p.1) (sym ran) ∙ L.flush-contents file

  repair_torn :
      (identity : WalIdentity) (options : WalOptions) (recovered : WalScanResult)
      (file after : N.File) (log : Log N)
      → recovered.has_incomplete_tail ≡ true
      → recovered.valid_bytes ≤ length (N.contents file)
      → repair N identity options recovered file ≡ (done log, after)
      → (log
          ≡ opened N identity options
              (record recovered.state {
                file_bytes = recovered.valid_bytes;
                repaired_incomplete_tail = true;
              })
              log.file)
        × (N.contents log.file ≡ take recovered.valid_bytes (N.contents file))
  unfolding repair
  repair_torn identity options recovered file after log torn inside e =
      let e1 = rw (torn, repair) at e in
      let (_, f1, cut_off, e2) = and_then-done (N.truncate recovered.valid_bytes file) _ e1 in
      let (_, f2, flushed, e3) = and_then-done (N.flush f1) _ e2 in
      let same = done_injective (ap (λ (p : Result (Log N) × N.File). p.0) e3) in
      subst
        (λ (l : Log N).
          (l
            ≡ opened N identity options
                (record recovered.state {
                  file_bytes = recovered.valid_bytes;
                  repaired_incomplete_tail = true;
                })
                l.file)
          × (N.contents l.file ≡ take recovered.valid_bytes (N.contents file)))
        same
        (
          refl,
          flush-kept f1 f2 flushed
              ∙ L.truncate-contents recovered.valid_bytes file f1 inside cut_off,
        )

  opened-Reopened :
      (identity : WalIdentity) (options : WalOptions) (batches new : List PersistBatch)
      (bytes more : Bytes) (size : ℕ) (middle state : WalState) (result : WalScanResult)
      (file : N.File)
      → IdentityFits identity
      → validate_options options ≡ done tt
      → Framed options start batches bytes middle
      → (r : Recovered options middle new more size result) → logical state ≡ logical r.state
      → N.contents file ≡ file_header_layout identity ++ (bytes ++ r.bytes)
      → Reopened N (opened N identity options state file) batches new
  opened-Reopened identity options batches new bytes more size middle state result file i o h r same
        held =
      let whole =
        Framed-append options batches r.kept bytes r.bytes start middle r.state h r.framed in
      let plain : logical r.state ≡ r.state =
        Framed-logical options (batches ++ r.kept) (bytes ++ r.bytes) start r.state whole refl in
      record {
        kept = r.kept;
        lost = r.lost;
        bytes = bytes ++ r.bytes;
        split = r.split;
        consistent = record {
          identity = i;
          options = o;
          contents = held;
          framed =
              subst (Framed options start (batches ++ r.kept) (bytes ++ r.bytes))
                (sym (same ∙ plain)) whole;
          live = refl;
        };
      }

  -- The bytes in front of the incomplete tail.
  valid_front :
      (identity : WalIdentity) (options : WalOptions) (batches new : List PersistBatch)
      (bytes more : Bytes) (size : ℕ) (middle : WalState) (result : WalScanResult)
      → Framed options start batches bytes middle
      → (r : Recovered options middle new more size result)
      → take r.state.file_bytes (file_header_layout identity ++ (bytes ++ take size more))
        ≡ file_header_layout identity ++ (bytes ++ r.bytes)
  valid_front identity options batches new bytes more size middle result h r =
      let header = length-file_header_layout identity in
      let (_, place) = Framed-kept options batches bytes start middle h (omega arith) in
      let level = r.level in
      let n = r.state.file_bytes in
      let left : (n - length (file_header_layout identity)) - length bytes ≡ length r.bytes =
        omega (arith, header, place, level) in
      take_past n (file_header_layout identity) (bytes ++ take size more)
        (omega (arith, header, place, level))
      ∙ ap (λ part. file_header_layout identity ++ part)
          (take_past (n - length (file_header_layout identity)) bytes (take size more)
              (omega (arith, header, place, level))
            ∙ ap (λ k. bytes ++ take k (take size more)) left
            ∙ ap (λ part. bytes ++ part)
                (take-take (length r.bytes) size more r.inside ∙ sym r.front))

  valid_inside :
      (identity : WalIdentity) (options : WalOptions) (batches new : List PersistBatch)
      (bytes more : Bytes) (size : ℕ) (middle : WalState) (result : WalScanResult)
      → Framed options start batches bytes middle
      → (r : Recovered options middle new more size result)
      → r.state.file_bytes ≤ length (file_header_layout identity ++ (bytes ++ take size more))
  valid_inside identity options batches new bytes more size middle result h r =
      let header = length-file_header_layout identity in
      let (_, place) = Framed-kept options batches bytes start middle h (omega arith) in
      let level = r.level in
      let inside = r.inside in
      let front = ap length r.front in
      let kept = length-take (length r.bytes) more in
      let part = length-take size more in
      let tail = length-append {0} bytes (take size more) in
      let whole = length-append {0} (file_header_layout identity) (bytes ++ take size more) in
      omega (arith, header, place, level, inside, front, kept, part, tail, whole)

  -- The repair of a file of whole frames and the first bytes of further ones.
  pub repair-Reopened :
      (identity : WalIdentity) (options : WalOptions) (batches new : List PersistBatch)
      (bytes more : Bytes) (size : ℕ) (middle : WalState) (result : WalScanResult)
      (file after : N.File) (log : Log N)
      → IdentityFits identity
      → validate_options options ≡ done tt
      → Framed options start batches bytes middle
      → N.contents file ≡ file_header_layout identity ++ (bytes ++ take size more)
      → Recovered options middle new more size result
      → repair N identity options result file ≡ (done log, after)
      → Reopened N log batches new
  unfolding repair
  repair-Reopened identity options batches new bytes more size middle result file after log i o h
        held r e =
      elim (Bool-cases (eqb (length r.bytes) size)) [
        | inl all ↦
            let found = r.found ∙ ap (λ whole. cut r.state r.state.file_bytes (not whole)) all in
            let e1 = rw (found, repair) at e in
            let same : opened N identity options (cut r.state r.state.file_bytes false).state file
                ≡ log =
              done_injective (ap (λ (p : Result (Log N) × N.File). p.0) e1) in
            let level : length r.bytes ≡ size = ground (arith, all) in
            subst (λ (l : Log N). Reopened N l batches new) same
              (opened-Reopened identity options batches new bytes more size middle
                (cut r.state r.state.file_bytes false).state result file i o h r refl
                (held
                  ∙ ap (λ part. file_header_layout identity ++ (bytes ++ part))
                      (ap (λ n. take n more) (sym level) ∙ sym r.front)))
        | inr torn ↦
            let found = r.found ∙ ap (λ whole. cut r.state r.state.file_bytes (not whole)) torn in
            let (same, contents) =
              repair_torn identity options (cut r.state r.state.file_bytes true) file after log refl
                (subst (λ f. r.state.file_bytes ≤ length f) (sym held)
                  (valid_inside identity options batches new bytes more size middle result h r))
                (subst (λ found. repair N identity options found file ≡ (done log, after)) found
                  e) in
            subst (λ (l : Log N). Reopened N l batches new) (sym same)
              (opened-Reopened identity options batches new bytes more size middle
                (record r.state {
                  durable_frame_sequence = r.state.last_frame_sequence;
                  repaired_incomplete_tail = true;
                })
                result log.file i o h r refl
                (contents
                  ∙ ap (take r.state.file_bytes) held
                  ∙ valid_front identity options batches new bytes more size middle result h r))
      ]
