-- ===== src/Wal/Frame/Framed.antt =====
-- A frame of src/wal.cpp that `make_frame` wrote is what the scan takes apart.
use det_log.Prelude.{
  ◌≡◌, refl, sym, ◌∙◌, ap, subst, ℕ, ◌+◌, ◌<◌, ◌≤◌, ◌^◌, true, [], ◌++◌, arith, eqb, length,
  length-append, append_assoc, append_nil, take, drop, take-front, drop-front, take-all,
}
use det_log.Model.{Bytes}
use det_log.Wal.Types.{done, WalOptions, frame_header_bytes, frame_trailer_bytes}
use det_log.Wal.Bytes.{le, expect_literal, crc32c}
use det_log.Wal.Bytes.Laws.{le-Reads, expect_literal-front, crc32c-lt}
use det_log.Wal.Frame.{
  frame_magic, trailer_magic, format_version, frame_header_tag, frame_trailer_tag,
  ParsedFrameHeader, check_frame_header, read_frame_header, parse_frame_header, check_trailer,
}
use det_log.Wal.Frame.Written.{
  total_size, covered, header_layout, trailer_layout, frame_layout, length-covered,
  length-header_layout, length-trailer_layout,
}

abbrev pub header_of : ℕ → Bytes → ParsedFrameHeader
header_of sequence payload = record {
  frame_size = total_size payload;
  payload_size = length payload;
  sequence = sequence;
}

-- The fields of the header behind its magic and version, grouped to the right.
abbrev header_fields : ℕ → Bytes → Bytes
header_fields sequence payload =
    le 2 frame_header_bytes
    ++ (le 4 0
        ++ (le 8 (total_size payload)
            ++ (le 8 (length payload)
                ++ (le 8 sequence
                    ++ (le 4 (crc32c (covered sequence payload))
                        ++ (le 4 frame_header_tag ++ []))))))

header_layout-fields :
    (sequence : ℕ) (payload : Bytes)
    → header_layout sequence payload
      ≡ frame_magic ++ (le 2 format_version ++ header_fields sequence payload)
header_layout-fields sequence payload =
    ap (λ tag. (covered sequence payload ++ le 4 (crc32c (covered sequence payload))) ++ tag)
      (sym (append_nil (le 4 frame_header_tag)))
    ∙ simp append_assoc

check_frame_header-header_of :
    (sequence : ℕ) (payload : Bytes) (options : WalOptions)
    → 8 ≤ length payload
    → total_size payload ≤ options.max_frame_bytes
    → check_frame_header (header_of sequence payload) options ≡ done (header_of sequence payload)
unfolding check_frame_header
check_frame_header-header_of sequence payload options long small = ground (arith, long, small)

read_frame_header-layout :
    (sequence : ℕ) (payload : Bytes) (options : WalOptions)
    → sequence < 256 ^ 8
    → 8 ≤ length payload
    → total_size payload ≤ options.max_frame_bytes
    → options.max_frame_bytes < 256 ^ 8
    → read_frame_header (header_layout sequence payload) options (header_fields sequence payload)
      ≡ done (header_of sequence payload)
unfolding read_frame_header
read_frame_header-layout sequence payload options seq long small narrow =
    let c = covered sequence payload in
    let sum = crc32c c in
    let f6 = le 4 frame_header_tag ++ [] in
    let f5 = le 4 sum ++ f6 in
    let f4 = le 8 sequence ++ f5 in
    let f3 = le 8 (length payload) ++ f4 in
    let f2 = le 8 (total_size payload) ++ f3 in
    let f1 = le 4 0 ++ f2 in
    let front : take 40 (header_layout sequence payload) ≡ c =
      ap (take 40) (append_assoc c (le 4 sum) (le 4 frame_header_tag))
      ∙ subst (λ n. take n (c ++ (le 4 sum ++ le 4 frame_header_tag)) ≡ c)
          (length-covered sequence payload) (take-front c (le 4 sum ++ le 4 frame_header_tag)) in
    let same : eqb sum sum ≡ true = ground arith in
    rw
      (
        le-Reads 2 frame_header_bytes (omega arith) f1,
        le-Reads 4 0 (omega arith) f2,
        le-Reads 8 (total_size payload) (omega (arith, small, narrow)) f3,
        le-Reads 8 (length payload) (omega (arith, small, narrow)) f4,
        le-Reads 8 sequence seq f5,
        le-Reads 4 sum (crc32c-lt c) f6,
        le-Reads 4 frame_header_tag (omega arith) [],
        front,
        same,
      )
      (check_frame_header-header_of sequence payload options long small)

pub parse_frame_header-layout :
    (sequence : ℕ) (payload : Bytes) (options : WalOptions)
    → sequence < 256 ^ 8
    → 8 ≤ length payload
    → total_size payload ≤ options.max_frame_bytes
    → options.max_frame_bytes < 256 ^ 8
    → parse_frame_header (header_layout sequence payload) options
      ≡ done (header_of sequence payload)
unfolding parse_frame_header
parse_frame_header-layout sequence payload options seq long small narrow =
    let fields = header_fields sequence payload in
    let magic =
      ap (expect_literal frame_magic "invalid WAL frame magic")
        (header_layout-fields sequence payload)
      ∙ expect_literal-front frame_magic "invalid WAL frame magic"
          (le 2 format_version ++ fields) in
    rw (magic, le-Reads 2 format_version (omega arith) fields)
      (read_frame_header-layout sequence payload options seq long small narrow)

pub check_trailer-layout :
    (sequence : ℕ) (payload : Bytes)
    → total_size payload < 256 ^ 8
    → check_trailer (frame_layout sequence payload) (header_of sequence payload) ≡ done tt
unfolding check_trailer
check_trailer-layout sequence payload narrow =
    let h = header_layout sequence payload in
    let t = trailer_layout sequence payload in
    let sum = crc32c (h ++ payload) in
    let f2 = le 8 (total_size payload) ++ trailer_magic in
    let f1 = le 4 frame_trailer_tag ++ f2 in
    let before : length (h ++ payload) ≡ frame_header_bytes + length payload =
      omega (arith, length-append {0} h payload, length-header_layout sequence payload) in
    let grouped = sym (append_assoc h payload t) in
    let behind : drop (frame_header_bytes + length payload) (frame_layout sequence payload) ≡ t =
      ap (drop (frame_header_bytes + length payload)) grouped
      ∙ subst (λ n. drop n ((h ++ payload) ++ t) ≡ t) before (drop-front (h ++ payload) t) in
    let front : take (frame_header_bytes + length payload) (frame_layout sequence payload)
        ≡ h ++ payload =
      ap (take (frame_header_bytes + length payload)) grouped
      ∙ subst (λ n. take n ((h ++ payload) ++ t) ≡ h ++ payload) before
          (take-front (h ++ payload) t) in
    let whole : take frame_trailer_bytes t ≡ t =
      take-all frame_trailer_bytes t (omega (arith, length-trailer_layout sequence payload)) in
    let same : eqb sum sum ≡ true = ground arith in
    let level : eqb (total_size payload) (total_size payload) ≡ true = ground arith in
    let magic =
      ap (expect_literal trailer_magic "invalid WAL frame trailer magic")
        (sym (append_nil trailer_magic))
      ∙ expect_literal-front trailer_magic "invalid WAL frame trailer magic" [] in
    rw
      (
        behind,
        whole,
        le-Reads 4 sum (crc32c-lt (h ++ payload)) f1,
        le-Reads 4 frame_trailer_tag (omega arith) f2,
        le-Reads 8 (total_size payload) narrow trailer_magic,
        level,
        magic,
        front,
        same,
      )
      refl
