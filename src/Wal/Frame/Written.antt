-- ===== src/Wal/Frame/Written.antt =====
-- The bytes of a frame that `make_frame` of src/wal.cpp writes.
use det_log.Prelude.{
  ◌≡◌, refl, sym, ◌∙◌, ap, inl, inr, ℕ, ◌+◌, ◌≤◌, ◌++◌, arith, Bool-cases, ltb, length,
  length-append, append_assoc,
}
use det_log.Model.{Bytes}
use det_log.Wal.Types.{
  done, ◌>>=◌, bind-done, done_injective, WalOptions, frame_header_bytes, frame_trailer_bytes,
}
use det_log.Wal.Bytes.{ByteWriter, new_writer, raw, le, crc32c}
use det_log.Wal.Bytes.Laws.{Outputs, bind-Outputs, raw-Outputs}
use det_log.Wal.Payload.Layout.{Adds, Adds-then, raw-Adds}
use det_log.Wal.Frame.{
  frame_magic, trailer_magic, format_version, frame_header_tag, frame_trailer_tag,
  write_frame_header, wrap_payload,
}

abbrev pub total_size : Bytes → ℕ
total_size payload = frame_header_bytes + length payload + frame_trailer_bytes

-- What the header's checksum covers.
abbrev pub covered : ℕ → Bytes → Bytes
covered sequence payload =
    (((((frame_magic ++ le 2 format_version) ++ le 2 frame_header_bytes) ++ le 4 0)
        ++ le 8 (total_size payload))
      ++ le 8 (length payload))
    ++ le 8 sequence

abbrev pub header_layout : ℕ → Bytes → Bytes
header_layout sequence payload =
    (covered sequence payload ++ le 4 (crc32c (covered sequence payload))) ++ le 4 frame_header_tag

abbrev pub trailer_layout : ℕ → Bytes → Bytes
trailer_layout sequence payload =
    le 4 (crc32c (header_layout sequence payload ++ payload))
    ++ (le 4 frame_trailer_tag ++ (le 8 (total_size payload) ++ trailer_magic))

abbrev pub frame_layout : ℕ → Bytes → Bytes
frame_layout sequence payload =
    header_layout sequence payload ++ (payload ++ trailer_layout sequence payload)

pub write_frame_header-Adds :
    (sequence : ℕ) (payload : Bytes)
    → Adds (write_frame_header sequence payload) (covered sequence payload)
unfolding write_frame_header
write_frame_header-Adds sequence payload =
    Adds-then _ (raw (le 8 sequence)) _ _
      (Adds-then _ (raw (le 8 (length payload))) _ _
        (Adds-then _ (raw (le 8 (total_size payload))) _ _
          (Adds-then _ (raw (le 4 0)) _ _
            (Adds-then _ (raw (le 2 frame_header_bytes)) _ _
              (Adds-then (raw frame_magic) (raw (le 2 format_version)) _ _ (raw-Adds _)
                (raw-Adds _))
              (raw-Adds _))
            (raw-Adds _))
          (raw-Adds _))
        (raw-Adds _))
      (raw-Adds _)

pub wrapped-Outputs :
    (sequence : ℕ) (payload : Bytes) (limit : ℕ)
    → Outputs
        (write_frame_header sequence payload (new_writer limit)
          >>= (λ w. raw (le 4 (crc32c w.bytes)) w)
          >>= raw (le 4 frame_header_tag)
          >>= raw payload
          >>= (λ w. raw (le 4 (crc32c w.bytes)) w)
          >>= raw (le 4 frame_trailer_tag)
          >>= raw (le 8 (total_size payload))
          >>= raw trailer_magic)
        (record {
          limit = limit;
          bytes =
              ((((header_layout sequence payload ++ payload)
                    ++ le 4 (crc32c (header_layout sequence payload ++ payload)))
                  ++ le 4 frame_trailer_tag)
                ++ le 8 (total_size payload))
              ++ trailer_magic;
        })
wrapped-Outputs sequence payload limit =
    bind-Outputs _ (raw trailer_magic)
      (bind-Outputs _ (raw (le 8 (total_size payload)))
        (bind-Outputs _ (raw (le 4 frame_trailer_tag))
          (bind-Outputs _ (λ w. raw (le 4 (crc32c w.bytes)) w)
            (bind-Outputs _ (raw payload)
              (bind-Outputs _ (raw (le 4 frame_header_tag))
                (bind-Outputs _ (λ w. raw (le 4 (crc32c w.bytes)) w)
                  (write_frame_header-Adds sequence payload (new_writer limit)) (raw-Outputs _ _))
                (raw-Outputs _ _))
              (raw-Outputs _ _))
            (raw-Outputs _ _))
          (raw-Outputs _ _))
        (raw-Outputs _ _))
      (raw-Outputs _ _)

pub wrap_payload-layout :
    (sequence : ℕ) (payload frame : Bytes) (options : WalOptions)
    → wrap_payload sequence payload options ≡ done frame
    → (frame ≡ frame_layout sequence payload) × (total_size payload ≤ options.max_frame_bytes)
unfolding wrap_payload
wrap_payload-layout sequence payload frame options e =
    elim (Bool-cases (ltb options.max_frame_bytes (total_size payload))) [
      | inl large ↦ let bad = rw (large, wrap_payload) at e in absurd (cc (bad))
      | inr small ↦
          let e' = rw (small, wrap_payload) at e in
          let (w, ran, finished) = bind-done _ (λ (w : ByteWriter). done w.bytes) e' in
          (
            sym (done_injective finished)
                ∙ ap (λ v. v.bytes) (wrapped-Outputs sequence payload (total_size payload) w ran)
                ∙ simp append_assoc,
            ground (arith, small),
          )
    ]

pub length-covered : (sequence : ℕ) (payload : Bytes) → length (covered sequence payload) ≡ 40
unfolding le
length-covered sequence payload = refl

pub length-header_layout :
    (sequence : ℕ) (payload : Bytes) → length (header_layout sequence payload) ≡ 48
unfolding le
length-header_layout sequence payload = refl

pub length-trailer_layout :
    (sequence : ℕ) (payload : Bytes) → length (trailer_layout sequence payload) ≡ 24
unfolding le
length-trailer_layout sequence payload = refl

pub length-frame_layout :
    (sequence : ℕ) (payload : Bytes) → length (frame_layout sequence payload) ≡ total_size payload
length-frame_layout sequence payload =
    let h = header_layout sequence payload in
    let t = trailer_layout sequence payload in
    omega (
      arith,
      length-append {0} h (payload ++ t),
      length-append {0} payload t,
      length-header_layout sequence payload,
      length-trailer_layout sequence payload,
    )
