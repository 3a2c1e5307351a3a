-- ===== src/Wal/Frame/Header.antt =====
-- The file header of src/wal.cpp, written and checked.
use det_log.Prelude.{
  ◌≡◌, refl, sym, ◌∙◌, ap, subst, true, [], ◌++◌, arith, eqb, length, append_assoc, append_nil,
  take, take-front,
}
use det_log.Model.{Bytes}
use det_log.Wal.Types.{done, ◌>>=◌, bind-done, done_injective, WalIdentity, file_header_bytes}
use det_log.Wal.Bytes.{ByteWriter, new_writer, raw, le, expect_literal, crc32c}
use det_log.Wal.Bytes.Laws.{bind-Outputs, raw-Outputs, le-Reads, expect_literal-front, crc32c-lt}
use det_log.Wal.Payload.Layout.{Adds, Adds-then, raw-Adds}
use det_log.Wal.Payload.Fields.{Fits}
use det_log.Wal.Frame.{
  file_magic, format_version, file_header_tag, make_file_header, identity_beq, check_file_header,
  validate_file_header,
}

abbrev pub IdentityFits : WalIdentity → Type 0
IdentityFits i = Fits 8 i.cluster_id_high × Fits 8 i.cluster_id_low × Fits 4 i.node_id

abbrev covered : WalIdentity → Bytes
covered i =
    ((((((file_magic ++ le 2 format_version) ++ le 2 file_header_bytes) ++ le 4 0)
          ++ le 8 i.cluster_id_high)
        ++ le 8 i.cluster_id_low)
      ++ le 4 i.node_id)
    ++ le 4 0

abbrev pub file_header_layout : WalIdentity → Bytes
file_header_layout i = (covered i ++ le 4 (crc32c (covered i))) ++ le 4 file_header_tag

covered-Adds :
    (i : WalIdentity)
    → Adds
        (λ w.
          raw file_magic w
          >>= raw (le 2 format_version)
          >>= raw (le 2 file_header_bytes)
          >>= raw (le 4 0)
          >>= raw (le 8 i.cluster_id_high)
          >>= raw (le 8 i.cluster_id_low)
          >>= raw (le 4 i.node_id)
          >>= raw (le 4 0))
        (covered i)
covered-Adds i =
    Adds-then _ (raw (le 4 0)) _ _
      (Adds-then _ (raw (le 4 i.node_id)) _ _
        (Adds-then _ (raw (le 8 i.cluster_id_low)) _ _
          (Adds-then _ (raw (le 8 i.cluster_id_high)) _ _
            (Adds-then _ (raw (le 4 0)) _ _
              (Adds-then _ (raw (le 2 file_header_bytes)) _ _
                (Adds-then (raw file_magic) (raw (le 2 format_version)) _ _ (raw-Adds _)
                  (raw-Adds _))
                (raw-Adds _))
              (raw-Adds _))
            (raw-Adds _))
          (raw-Adds _))
        (raw-Adds _))
      (raw-Adds _)

pub make_file_header-layout :
    (i : WalIdentity) (bytes : Bytes)
    → make_file_header i ≡ done bytes
    → bytes ≡ file_header_layout i
unfolding make_file_header
make_file_header-layout i bytes e =
    let (w, ran, finished) = bind-done _ (λ (w : ByteWriter). done w.bytes) e in
    let out =
      bind-Outputs _ (raw (le 4 file_header_tag))
        (bind-Outputs _ (λ w. raw (le 4 (crc32c w.bytes)) w)
          (covered-Adds i (new_writer file_header_bytes)) (raw-Outputs _ _))
        (raw-Outputs _ _) in
    sym (done_injective finished) ∙ ap (λ v. v.bytes) (out w ran)

pub length-file_header_layout : (i : WalIdentity) → length (file_header_layout i) ≡ 48
unfolding le
length-file_header_layout i = refl

length-covered : (i : WalIdentity) → length (covered i) ≡ 40
unfolding le
length-covered i = refl

-- The fields behind the magic and the version, grouped to the right.
abbrev header_fields : WalIdentity → Bytes
header_fields i =
    le 2 file_header_bytes
    ++ (le 4 0
        ++ (le 8 i.cluster_id_high
            ++ (le 8 i.cluster_id_low
                ++ (le 4 i.node_id
                    ++ (le 4 0 ++ (le 4 (crc32c (covered i)) ++ (le 4 file_header_tag ++ [])))))))

file_header_layout-fields :
    (i : WalIdentity)
    → file_header_layout i ≡ file_magic ++ (le 2 format_version ++ header_fields i)
file_header_layout-fields i =
    ap (λ tag. (covered i ++ le 4 (crc32c (covered i))) ++ tag)
      (sym (append_nil (le 4 file_header_tag)))
    ∙ simp append_assoc

identity_beq_refl : (i : WalIdentity) → identity_beq i i ≡ true
unfolding identity_beq
identity_beq_refl i = ground arith

check_file_header-layout :
    (i : WalIdentity)
    → IdentityFits i
    → check_file_header (file_header_layout i) i (header_fields i) ≡ done tt
unfolding check_file_header
check_file_header-layout i h =
    let c = covered i in
    let sum = crc32c c in
    let f7 = le 4 file_header_tag ++ [] in
    let f6 = le 4 sum ++ f7 in
    let f5 = le 4 0 ++ f6 in
    let f4 = le 4 i.node_id ++ f5 in
    let f3 = le 8 i.cluster_id_low ++ f4 in
    let f2 = le 8 i.cluster_id_high ++ f3 in
    let f1 = le 4 0 ++ f2 in
    let front : take 40 (file_header_layout i) ≡ c =
      ap (take 40) (append_assoc c (le 4 sum) (le 4 file_header_tag))
      ∙ subst (λ n. take n (c ++ (le 4 sum ++ le 4 file_header_tag)) ≡ c) (length-covered i)
          (take-front c (le 4 sum ++ le 4 file_header_tag)) in
    let same : eqb sum sum ≡ true = ground arith in
    rw
      (
        le-Reads 2 file_header_bytes (omega arith) f1,
        le-Reads 4 0 (omega arith) f2,
        le-Reads 8 i.cluster_id_high h.0 f3,
        le-Reads 8 i.cluster_id_low h.1 f4,
        le-Reads 4 i.node_id h.2 f5,
        le-Reads 4 0 (omega arith) f6,
        le-Reads 4 sum (crc32c-lt c) f7,
        le-Reads 4 file_header_tag (omega arith) [],
        front,
        same,
        identity_beq_refl i,
      )
      refl

pub validate_file_header-layout :
    (i : WalIdentity) → IdentityFits i → validate_file_header (file_header_layout i) i ≡ done tt
unfolding validate_file_header
validate_file_header-layout i h =
    let fields = header_fields i in
    let magic =
      ap (expect_literal file_magic "invalid WAL file magic") (file_header_layout-fields i)
      ∙ expect_literal-front file_magic "invalid WAL file magic" (le 2 format_version ++ fields) in
    rw (length-file_header_layout i, magic, le-Reads 2 format_version (omega arith) fields)
      (check_file_header-layout i h)
