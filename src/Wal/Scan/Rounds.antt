-- ===== src/Wal/Scan/Rounds.antt =====
-- The rounds of the loop in `scan_source` of src/wal.cpp: each goes past a frame header at least.
use det_log.Prelude.{
  ◌≡◌, refl, ℕ, zero, suc, ◌+◌, ◌≤◌, Bool, true, false, not, String, [], ◌∷◌, arith, eqb,
  if◌then◌else◌, length, length-drop, take, drop, ◌<◌,
}
use det_log.Model.{Bytes}
use det_log.Wal.Types.{
  Result, done, error, ◌>>=◌, throw, located, bind-done, WalError, WalErrorCode, WalOptions,
  WalState, frame_header_bytes, minimum_frame_bytes,
}
use det_log.Wal.Bytes.{read_u16, read_u32, read_u64, crc32c, expect_literal}
use det_log.Wal.Frame.{
  frame_magic, frame_header_tag, ParsedFrameHeader, check_frame_header, read_frame_header,
  parse_frame_header,
}
use det_log.Wal.Scan.{WalScanResult, Round, stop, next, replay_frame, scan_round, scan_loop, cut}

check_frame_header-large :
    (header checked : ParsedFrameHeader) (options : WalOptions)
    → check_frame_header header options ≡ done checked
    → minimum_frame_bytes ≤ checked.frame_size
unfolding check_frame_header
check_frame_header-large header checked options e = ground (arith, e)

-- A test that must fail for the rest to go through.
passed :
    {A : Type 0} (test : Bool) (code : WalErrorCode) (message : String) (rest : Result A) {a : A}
    → (if test then throw code message else rest) ≡ done a
    → rest ≡ done a
passed true code message rest h = cc
passed false code message rest h = h

read_frame_header-large :
    (bytes left : Bytes) (options : WalOptions) (header : ParsedFrameHeader)
    → read_frame_header bytes options left ≡ done header
    → minimum_frame_bytes ≤ header.frame_size
unfolding read_frame_header
read_frame_header-large bytes left options header e =
    let (a, _, e1) = bind-done (read_u16 left) _ e in
    let (b, _, e2) = bind-done (read_u32 a.1) _ e1 in
    let (c, _, e3) = bind-done (read_u64 b.1) _ (passed _ _ _ _ e2) in
    let (d, _, e4) = bind-done (read_u64 c.1) _ e3 in
    let (f, _, e5) = bind-done (read_u64 d.1) _ e4 in
    let (g, _, e6) = bind-done (read_u32 f.1) _ e5 in
    let (h, _, e7) = bind-done (read_u32 g.1) _ e6 in
    let parsed : ParsedFrameHeader = record {
      frame_size = c.0;
      payload_size = d.0;
      sequence = f.0;
    } in
    let checked = check_frame_header parsed options in
    let summed =
      if not (eqb g.0 (crc32c (take 40 bytes)))
      then throw WalErrorCode.checksum "WAL frame header checksum mismatch"
      else checked in
    check_frame_header-large parsed header options (
      passed (not (eqb g.0 (crc32c (take 40 bytes)))) WalErrorCode.checksum
        "WAL frame header checksum mismatch" checked
        (passed (not (eqb h.0 frame_header_tag)) WalErrorCode.format
          "invalid WAL frame header trailer" summed e7))

parse_frame_header-large :
    (bytes : Bytes) (options : WalOptions) (header : ParsedFrameHeader)
    → parse_frame_header bytes options ≡ done header
    → minimum_frame_bytes ≤ header.frame_size
unfolding parse_frame_header
parse_frame_header-large bytes options header e =
    let (a, _, e1) = bind-done (expect_literal frame_magic "invalid WAL frame magic" bytes) _ e in
    let (b, _, e2) = bind-done (read_u16 a) _ e1 in
    read_frame_header-large bytes b.1 options header (passed _ _ _ _ e2)

located-done : {A : Type 0} (at : ℕ) (r : Result A) {a : A} → located at r ≡ done a → r ≡ done a
located-done at (done a) h = h
located-done at (error e) h = cc

-- A round that goes on has taken a whole frame.
data Advances : Result Round → Type 0 where
  goes :
      {size : ℕ} {after : WalState} → minimum_frame_bytes ≤ size → Advances (done (next size after))
  stops : {result : WalScanResult} → Advances (done (stop result))
  throws : {e : WalError} → Advances (error e)

Advances-bind :
    {A : Type 0} (m : Result A) (f : A → Result Round)
    → ((a : A) → m ≡ done a → Advances (f a))
    → Advances (m >>= f)
Advances-bind (done a) f h = h a refl
Advances-bind (error e) f h = throws

Advances-if :
    (test : Bool) (a b : Result Round) → Advances a → Advances b → Advances (if test then a else b)
Advances-if true a b h k = h
Advances-if false a b h k = k

scan_round-Advances :
    (options : WalOptions) (offset : ℕ) (state : WalState) (left : Bytes)
    → Advances (scan_round options offset state left)
unfolding scan_round
scan_round-Advances options offset state left =
    let front = take frame_header_bytes left in
    Advances-if _ _ _ stops (
      Advances-bind (located offset (parse_frame_header front options)) _ (λ header ran.
        let large =
          parse_frame_header-large front options header
            (located-done offset (parse_frame_header front options) ran) in
        Advances-if _ _ _ throws (
          Advances-if _ _ _ stops (
            Advances-bind (replay_frame (take header.frame_size left) header options offset state) _
              (λ after _. goes large)))))

-- The loop without a count of rounds: a derivation is finite, so this is a scan that ends with `result`.
pub data Scans (options : WalOptions) : ℕ → WalState → Bytes → Result WalScanResult → Type 0 where
  at_end :
      {offset : ℕ} {state : WalState}
      → Scans options offset state [] (done (cut state offset false))
  stopped :
      {offset : ℕ} {state : WalState} {left : Bytes} {result : WalScanResult}
      → 0 < length left
      → scan_round options offset state left ≡ done (stop result)
      → Scans options offset state left (done result)
  thrown :
      {offset : ℕ} {state : WalState} {left : Bytes} {e : WalError}
      → 0 < length left
      → scan_round options offset state left ≡ error e
      → Scans options offset state left (error e)
  then_next :
      {offset : ℕ} {state after : WalState} {left : Bytes} {size : ℕ}
      {result : Result WalScanResult}
      → 0 < length left
      → scan_round options offset state left ≡ done (next size after)
      → Scans options (offset + size) after (drop size left) result
      → Scans options offset state left result

-- Whatever a round has come to, the loop goes on as it says.
round-Scans :
    (options : WalOptions) (rounds offset : ℕ) (state : WalState) (left : Bytes) (r : Result Round)
    → 0 < length left
    → scan_round options offset state left ≡ r
    → Advances r
    → ((size : ℕ) (after : WalState)
        → minimum_frame_bytes ≤ size
        → Scans options
            (offset + size)
            after
            (drop size left)
            (scan_loop rounds options (offset + size) after (drop size left)))
    → Scans options offset state left (
        r >>= λ round. elim round as (λ _. Result WalScanResult) [
          | stop result ↦ done result
          | next size after ↦ scan_loop rounds options (offset + size) after (drop size left)
        ])
round-Scans options rounds offset state left r some_left ran
      (goes {size = size} {after = after} large) rest =
    then_next some_left ran (rest size after large)
round-Scans options rounds offset state left r some_left ran (stops) rest = stopped some_left ran
round-Scans options rounds offset state left r some_left ran (throws) rest = thrown some_left ran

-- With as many rounds as there are bytes left, or more, the count is never used up: the loop without a
-- count ends, and its result is the one of scan_loop.
pub scan_loop-Scans :
    (options : WalOptions) (rounds offset : ℕ) (state : WalState) (left : Bytes)
    → length left ≤ rounds
    → Scans options offset state left (scan_loop rounds options offset state left)
unfolding scan_loop
scan_loop-Scans options rounds offset state [] enough = at_end
scan_loop-Scans options zero offset state (byte ∷ left) enough = elim enough [ ]
scan_loop-Scans options (suc rounds) offset state (byte ∷ left) enough =
    round-Scans options rounds offset state (byte ∷ left)
      (scan_round options offset state (byte ∷ left)) (omega arith) refl
      (scan_round-Advances options offset state (byte ∷ left))
      (λ size after large.
        scan_loop-Scans options rounds (offset + size) after (drop size (byte ∷ left))
          (omega (arith, enough, large, length-drop size (byte ∷ left))))
