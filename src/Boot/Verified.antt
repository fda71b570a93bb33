-- ===== src/Boot/Verified.antt =====
-- What the success of `qbt_dest_part_verify` and of `qbt_fw_update` (src/qboot.c) means.
use Prim.Native.Nat.{bit_and, bit_xor}
use rt_thread_qboot.Base.{
  ℕ, ◌-◌, ◌≤◌, ◌<◌, ◌≡◌, refl, true, false, Option, none, some, List, ltb, ◌==◌, slice, sub32,
  u32_mod, arith, Bool-cases, inl, inr, sub32_le,
}
use rt_thread_qboot.Storage.{IoOps, FwInfo}
use rt_thread_qboot.Storage.Header.{decode_header, fw_info_read}
use rt_thread_qboot.Algo.{Tables}
use rt_thread_qboot.Stream.{StreamCfg}
use rt_thread_qboot.Boot.{
  Crc, crc_start, verify_crc, verify_mask, fw_info_check, verify_header, dest_part_verify,
  fw_release, fw_update,
}
use rt_thread_qboot.Boot.Checksum.{CrcLaws, Readable, fw_crc_check-whole}

-- An area of `size` bytes with a valid image in front, described by the header in its last bytes.
pub record IsVerified {W H : Type 0} (io : IoOps W H) (cfg : StreamCfg) (crc : Crc) (size : ℕ)
    (bytes : List ℕ) (fw : FwInfo) : Type 0 where
  pub header : fw ≡ decode_header (slice (size - cfg.src_read_pos) cfg.src_read_pos bytes)
  pub header_valid : fw_info_check io cfg crc fw ≡ true
  pub image_valid :
      (bit_and fw.algo2 verify_mask == verify_crc) ≡ true
      → bit_xor (crc.cyc_cal crc_start (slice 0 fw.raw_size bytes)) crc_start ≡ fw.raw_crc

module _ {W H : Type 0} {io : IoOps W H} (cfg : StreamCfg) {crc : Crc} (laws : CrcLaws crc)
    (tables : Tables W) {h : H} {content : W → List ℕ} (size : ℕ)
    (area : Readable io h content size) (small : size < u32_mod) (has_buf : 0 < cfg.buf_size)
    (has_header : cfg.src_read_pos ≤ size) where
  fw_info_read-tail :
      (w : W)
      → ((fw_info_read io cfg.src_read_pos h size true w).0
          ≡ some (decode_header (slice (size - cfg.src_read_pos) cfg.src_read_pos (content w))))
        × (content (fw_info_read io cfg.src_read_pos h size true w).1 ≡ content w)
  unfolding fw_info_read
  fw_info_read-tail w =
      let enough : ltb size cfg.src_read_pos ≡ false = ground arith in
      let at : sub32 size cfg.src_read_pos ≡ size - cfg.src_read_pos =
        sub32_le size cfg.src_read_pos has_header small in
      let got = area.read_gets (size - cfg.src_read_pos) cfg.src_read_pos w (omega arith) in
      rw (enough, at, got) (refl, area.read_content (size - cfg.src_read_pos) cfg.src_read_pos w)

  verify_header-image :
      (fw : FwInfo) (w : W)
      → fw.raw_size ≤ size
      → (verify_header io cfg crc tables h fw w).0 ≡ true
      → (fw_info_check io cfg crc fw ≡ true)
        × ((bit_and fw.algo2 verify_mask == verify_crc) ≡ true
            → bit_xor (crc.cyc_cal crc_start (slice 0 fw.raw_size (content w))) crc_start
              ≡ fw.raw_crc)
        × (content (verify_header io cfg crc tables h fw w).1 ≡ content w)
  unfolding verify_header
  verify_header-image fw w fits ok =
      let (checked, kept) =
        fw_crc_check-whole cfg laws area 0 fw.raw_size (omega arith) small has_buf (content w)
          fw.raw_crc w refl in
      ground (arith, checked, kept)

  -- What the answer of the check makes of a header that was read.
  answer-IsVerified :
      (w : W) (fw : FwInfo) (answer : Option FwInfo × W)
      → answer ≡ fw_info_read io cfg.src_read_pos h size true w
      → fw.raw_size ≤ size
      → (dest_part_verify io cfg crc tables h size w).0 ≡ some fw
      → IsVerified io cfg crc size (content w) fw
        × (content (dest_part_verify io cfg crc tables h size w).1 ≡ content w)
  unfolding dest_part_verify
  answer-IsVerified w fw (none, w1) e fits ok = absurd (ground (arith, e, ok))
  answer-IsVerified w fw (some fw0, w1) e fits ok =
      let (read, kept) = fw_info_read-tail w in
      let same : fw0 ≡ fw = ground (arith, e, ok) in
      let valid : (verify_header io cfg crc tables h fw w1).0 ≡ true =
        ground (arith, e, ok, same) in
      let (header_valid, image_valid, kept2) = verify_header-image fw w1 fits valid in
      let kept1 : content w1 ≡ content w = ground (arith, e, kept) in
      (
        record {
          header = ground (arith, e, read, same);
          header_valid = header_valid;
          image_valid = λ c. rw kept1 at (image_valid c);
        },
        ground (arith, e, ok, same, kept1, kept2),
      )

  -- If the verification of an area succeeds, and the image of its header lies inside of the area, the
  -- area is that of a valid image, and the verification did not change it.
  pub dest_part_verify-IsVerified :
      (w : W) (fw : FwInfo)
      → fw.raw_size ≤ size
      → (dest_part_verify io cfg crc tables h size w).0 ≡ some fw
      → IsVerified io cfg crc size (content w) fw
        × (content (dest_part_verify io cfg crc tables h size w).1 ≡ content w)
  dest_part_verify-IsVerified w fw fits ok =
      answer-IsVerified w fw (fw_info_read io cfg.src_read_pos h size true w) refl fits ok

  -- If an update succeeds with a header whose image lies inside of the destination, then the
  -- destination ends with this header, the header is valid, and if it asks for a checksum, the bytes in
  -- front of the destination have it.
  pub fw_update-IsVerified :
      (wdt_feed : W → W) (src : H) (pkg fw : FwInfo) (w : W)
      → fw.raw_size ≤ size
      → (fw_update io cfg crc tables wdt_feed h size src pkg w).0 ≡ some fw
      → IsVerified io cfg crc size
          (content (fw_update io cfg crc tables wdt_feed h size src pkg w).1)
          fw
  unfolding fw_update
  fw_update-IsVerified wdt_feed src pkg fw w fits ok =
      let w1 = (fw_release io cfg crc tables wdt_feed h size src pkg w).1 in
      elim (Bool-cases (fw_release io cfg crc tables wdt_feed h size src pkg w).0) [
        | inl released ↦
            let done : (dest_part_verify io cfg crc tables h size w1).0 ≡ some fw =
              ground (arith, released, ok) in
            let (good, kept) = dest_part_verify-IsVerified w1 fw fits done in
            rw (released, kept) good
        | inr failed ↦ absurd (ground (arith, failed, ok))
      ]
