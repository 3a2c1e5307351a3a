-- ===== src/Wal/Log/Kept/Written.antt =====
-- The writes of `append_group` in src/wal.cpp.
use det_log.Prelude.{
  ◌≡◌, refl, sym, ◌∙◌, ap, subst, inl, inr, ℕ, suc, ◌+◌, List, [], ◌∷◌, ◌++◌, arith, Bool-cases,
  if◌then◌else◌, length, length-append, append_assoc, append_nil, take, take-append, take-all,
}
use det_log.Model.{Bytes}
use det_log.Wal.Types.{Result, done, error, WalErrorCode, WalOptions}
use det_log.Wal.Storage.{NativeFile, Partly, IsLawful}
use det_log.Wal.Types.{and_then}
use det_log.Wal.Log.{flushes, write_frames, write_group}
use det_log.Wal.Log.Staged.{concat}

Partly-front :
    (before first rest after : Bytes)
    → Partly before first after
    → Partly before (first ++ rest) after
Partly-front before first rest after (k, inside, e) = (
  k,
  omega (arith, inside, length-append {0} first rest),
  e ∙ ap (λ part. before ++ part) (sym (take-append k first rest inside)),
)

Partly-then :
    (before first rest after : Bytes)
    → Partly (before ++ first) rest after
    → Partly before (first ++ rest) after
Partly-then before first rest after (k, inside, e) = (
  length first + k,
  omega (arith, inside, length-append {0} first rest),
  e ∙ append_assoc before first (take k rest) ∙ ap (λ part. before ++ part) (take_past first k),
)
  where
    take_past : (xs : Bytes) (k : ℕ) → xs ++ take k rest ≡ take (length xs + k) (xs ++ rest)
    take_past [] k = ap (λ n. take n rest) (omega arith)
    take_past (x ∷ xs) k =
        let next : suc (length xs + k) ≡ length (x ∷ xs) + k = omega arith in
        ap (◌∷◌ x) (take_past xs k) ∙ ap (λ n. take n (x ∷ (xs ++ rest))) next

module _ (N : NativeFile) where
  -- What is in the file behind the writes of `more`, failed or not.
  abbrev pub Written : Bytes → Bytes → ℕ → Result ℕ × N.File → Type 0
  Written before more offset (done last, f) =
      (N.contents f ≡ before ++ more) × (last ≡ offset + length more)
  Written before more offset (error e, f) =
      Partly before more (N.contents f) × (e.code ≡ WalErrorCode.io)

  Written-then :
      (before first rest : Bytes) (offset : ℕ) (r : Result ℕ × N.File)
      → Written (before ++ first) rest (offset + length first) r
      → Written before (first ++ rest) offset r
  Written-then before first rest offset (done last, f) (h, k) =
      (h ∙ append_assoc before first rest, omega (arith, k, length-append {0} first rest))
  Written-then before first rest offset (error e, f) (h, k) =
      (Partly-then before first rest (N.contents f) h, k)

module _ (N : NativeFile) (L : IsLawful N) where
  write_frame-Written :
      (offset : ℕ) (frame : Bytes) (rest : List Bytes) (f : N.File) (r : Result (Unit {0}) × N.File)
      → offset ≡ length (N.contents f)
      → N.write_exact offset frame f ≡ r
      → ((after : N.File)
          → offset + length frame ≡ length (N.contents after)
          → Written N
              (N.contents after)
              (concat rest)
              (offset + length frame)
              (write_frames N (offset + length frame) rest after))
      → Written N
          (N.contents f)
          (frame ++ concat rest)
          offset
          (and_then r (λ _ file. write_frames N (offset + length frame) rest file))
  write_frame-Written offset frame rest f (error e, after) at_end ran next =
      let here = subst (λ n. N.write_exact n frame f ≡ (error e, after)) at_end ran in
      (
        Partly-front (N.contents f) frame (concat rest) (N.contents after)
            (L.write-torn frame f after e here),
        L.write-io frame f after e here,
      )
  write_frame-Written offset frame rest f (done tt, after) at_end ran next =
      let here = subst (λ n. N.write_exact n frame f ≡ (done tt, after)) at_end ran in
      let grown = L.write-done frame f after here in
      let size = ap length grown ∙ length-append {0} (N.contents f) frame in
      Written-then N (N.contents f) frame (concat rest) offset _ (
        subst
          (λ before.
            Written N before (concat rest) (offset + length frame)
              (write_frames N (offset + length frame) rest after))
          grown (next after (omega (arith, size, at_end))))

  write_frames-Written :
      (offset : ℕ) (frames : List Bytes) (f : N.File)
      → offset ≡ length (N.contents f)
      → Written N (N.contents f) (concat frames) offset (write_frames N offset frames f)
  unfolding write_frames
  write_frames-Written offset [] f at_end = (sym (append_nil (N.contents f)), omega arith)
  write_frames-Written offset (frame ∷ rest) f at_end =
      write_frame-Written offset frame rest f (N.write_exact offset frame f) at_end refl
        (λ after end. write_frames-Written (offset + length frame) rest after end)

  flush-Written :
      (before more : Bytes) (offset last : ℕ) (f : N.File) (r : Result (Unit {0}) × N.File)
      → N.flush f ≡ r
      → Written N before more offset (done last, f)
      → Written N before more offset (and_then r (λ _ file. (done last, file)))
  flush-Written before more offset last f (done tt, after) ran (h, k) =
      (ap (λ p. N.contents p.1) (sym ran) ∙ L.flush-contents f ∙ h, k)
  flush-Written before more offset last f (error e, after) ran (h, k) = (
    (
      length more,
      omega arith,
      ap (λ p. N.contents p.1) (sym ran)
          ∙ L.flush-contents f
          ∙ h
          ∙ ap (λ part. before ++ part) (sym (take-all (length more) more (omega arith))),
    ),
    L.flush-io f after e ran,
  )

  pub write_group-Written :
      (options : WalOptions) (offset : ℕ) (frames : List Bytes) (f : N.File)
      → offset ≡ length (N.contents f)
      → Written N (N.contents f) (concat frames) offset (write_group N options offset frames f)
  unfolding write_group
  write_group-Written options offset frames f at_end =
      settled (write_frames N offset frames f) (write_frames-Written offset frames f at_end)
    where
      settled :
          (r : Result ℕ × N.File)
          → Written N (N.contents f) (concat frames) offset r
          → Written N (N.contents f) (concat frames) offset (
              and_then r (λ write_offset file.
                if flushes options.flush_policy
                then and_then (N.flush file) (λ _ file. (done write_offset, file))
                else (done write_offset, file)))
      settled (error e, after) h = h
      settled (done last, after) h = elim (Bool-cases (flushes options.flush_policy)) [
        | inl flushed ↦
            rw flushed (
              flush-Written (N.contents f) (concat frames) offset last after (N.flush after) refl h)
        | inr unsafe ↦ rw unsafe h
      ]
