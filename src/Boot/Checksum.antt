-- ===== src/Boot/Checksum.antt =====
-- `qbt_fw_crc_check` reads an area in pieces: the result does not depend on the pieces.
use rt_thread_qboot.Base.{
  ℕ, ◌+◌, ◌-◌, ◌≤◌, ◌<◌, ◌≡◌, refl, sym, ap, ◌∙◌, true, false, some, List, [], ◌++◌, ◌==◌, slice,
  append-slice, add32, sub32, u32_mod, while, while_inv, arith,
}
use Prim.Native.Nat.{bit_xor}
use rt_thread_qboot.Storage.{IoOps}
use rt_thread_qboot.Stream.{StreamCfg}
use rt_thread_qboot.Boot.{
  Crc, Scan, crc_start, piece_len, crc_round, scan_test, scan_start, fw_crc_check,
}

-- A checksum of a concatenation continues the checksum of its first part.
pub record CrcLaws (crc : Crc) : Type 0 where
  pub cyc_nil : (c : ℕ) → crc.cyc_cal c [] ≡ c
  pub cyc_append :
      (c : ℕ) (xs ys : List ℕ) → crc.cyc_cal c (xs ++ ys) ≡ crc.cyc_cal (crc.cyc_cal c xs) ys

-- `content` is what the handle's area holds; reads inside of it succeed and change nothing.
pub record Readable {W H : Type 0} (io : IoOps W H) (h : H) (content : W → List ℕ) (room : ℕ)
    : Type 0 where
  pub read_gets :
      (off len : ℕ) (w : W)
      → off + len ≤ room
      → (io.read h off len w).0 ≡ some (slice off len (content w))
  pub read_content : (off len : ℕ) (w : W) → content (io.read h off len w).1 ≡ content w

module _ {W H : Type 0} {io : IoOps W H} (cfg : StreamCfg) {crc : Crc} (laws : CrcLaws crc) {h : H}
    {content : W → List ℕ} {room : ℕ} (area : Readable io h content room) (addr size : ℕ)
    (inside : addr + size ≤ room) (small : room < u32_mod) (has_buf : 0 < cfg.buf_size)
    (bytes : List ℕ) where
  -- What holds of the loop's state: the checksum is that of the bytes before the position.
  record ScanInv (s : Scan × W) : Type 0 where
    going : s.0.failed ≡ false
    bound : s.0.pos ≤ size
    sum : s.0.crc ≡ crc.cyc_cal crc_start (slice addr s.0.pos bytes)
    same : content s.1 ≡ bytes

  piece-bounds :
      (pos : ℕ)
      → pos < size
      → let len = piece_len cfg.buf_size (sub32 size pos) in (0 < len) × (pos + len ≤ size)
  piece-bounds pos h = ground arith

  crc_round-ScanInv :
      (s : Scan × W)
      → ScanInv s
      → scan_test io cfg crc size s ≡ true
      → ScanInv (crc_round io cfg crc h addr size s)
        × (size - (crc_round io cfg crc h addr size s).0.pos < size - s.0.pos)
  unfolding crc_round
  crc_round-ScanInv (s, w) inv test =
      let room_left : s.pos < size = ground arith in
      let len : ℕ = piece_len cfg.buf_size (sub32 size s.pos) in
      let (some_len, fits) = piece-bounds s.pos room_left in
      let at : add32 addr s.pos ≡ addr + s.pos = omega arith in
      let next : add32 s.pos len ≡ s.pos + len = omega arith in
      let got : (io.read h (add32 addr s.pos) len w).0 ≡ some (slice (addr + s.pos) len bytes) =
        rw (at) (
          area.read_gets (addr + s.pos) len w (omega arith)
          ∙ ap (λ b. some (slice (addr + s.pos) len b)) inv.same) in
      let kept : content (io.read h (add32 addr s.pos) len w).1 ≡ bytes =
        area.read_content (add32 addr s.pos) len w ∙ inv.same in
      let joined = append-slice addr s.pos len bytes in
      let sum : crc.cyc_cal s.crc (slice (addr + s.pos) len bytes)
          ≡ crc.cyc_cal crc_start (slice addr (s.pos + len) bytes) =
        ap (λ c. crc.cyc_cal c (slice (addr + s.pos) len bytes)) inv.sum
        ∙ sym (laws.cyc_append crc_start (slice addr s.pos bytes) (slice (addr + s.pos) len bytes))
        ∙ ap (crc.cyc_cal crc_start) joined in
      rw (got, crc_round)
        (
          record {
            going = inv.going;
            bound = omega (arith, next);
            sum = rw (next) sum;
            same = kept;
          },
          omega (arith, next),
        )

  -- If the area from `addr` on holds `size` bytes that can be read, the check succeeds exactly if
  -- their checksum is the expected one, and the area stays as it is: however long the buffer is,
  -- unless it has no byte.
  pub fw_crc_check-whole :
      (expected : ℕ) (w : W)
      → content w ≡ bytes
      → ((fw_crc_check io cfg crc h addr size expected w).0
          ≡ (bit_xor (crc.cyc_cal crc_start (slice addr size bytes)) crc_start == expected))
        × (content (fw_crc_check io cfg crc h addr size expected w).1 ≡ bytes)
  unfolding fw_crc_check
  fw_crc_check-whole expected w same =
      let s =
        while (size + 1) (scan_test io cfg crc size) (crc_round io cfg crc h addr size)
          (scan_start io cfg crc, w) in
      let (inv, ended) =
        while_inv ScanInv (λ s. size - s.0.pos) (scan_test io cfg crc size)
          (crc_round io cfg crc h addr size) crc_round-ScanInv (size + 1) (scan_start io cfg crc, w)
          (omega arith)
          (record {
            going = refl;
            bound = omega arith;
            sum = sym (laws.cyc_nil crc_start);
            same = same;
          }) in
      let full : s.0.pos ≡ size = ground (arith, inv.going, inv.bound) in
      let sum : s.0.crc ≡ crc.cyc_cal crc_start (slice addr size bytes) =
        inv.sum ∙ ap (λ n. crc.cyc_cal crc_start (slice addr n bytes)) full in
      (rw (inv.going, sum) refl, inv.same)
