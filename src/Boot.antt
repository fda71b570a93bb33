-- ===== src/Boot.antt =====
-- src/qboot.c: the checks of a package, its release to a target, and the boot thread.
-- The build that is modelled has QBOOT_USING_APP_CHECK and QBOOT_USING_PRODUCT_CODE and leaves
-- HPatchLite out. Console output, the status LED and the names that only messages show are left
-- out. A message that a header passes on to the caller is the header itself: `some fw` is RT_TRUE
-- with the static `fw_info` equal to `fw`.
pub mod Release
pub mod Patched
pub mod Shell
pub mod Thread
pub mod Console
pub mod Checksum
pub mod Verified
pub mod Guarded
pub mod Balance
pub mod Keeps
pub mod Copied
use Prim.Native.Nat.{bit_and, bit_xor}
use rt_thread_qboot.Base.{
  ℕ, ◌+◌, Bool, true, false, Option, none, some, List, [], ◌∷◌, leb, ltb, ◌==◌, ◌&&◌, ◌||◌, not,
  if◌then◌else◌, take, add32, sub32, while,
}
use rt_thread_qboot.Storage.{IoOps, FwInfo, is_eok}
use rt_thread_qboot.Storage.Header.{strcmp_eq, encode_header, fw_info_read, fw_info_write}
use rt_thread_qboot.Storage.Targets.{erase_with_feed}
use rt_thread_qboot.Algo.{
  to_write, to_crc, AlgoContext, Tables, cmprs_mask, get_algo_context, algo_init, algo_deinit,
}
use rt_thread_qboot.Stream.{
  StreamCfg, int_max, stream_process, write_consumer, seek_write, crc_consumer,
}

-- crc32_cal and crc32_cyc_cal of the crc32 package.
pub record Crc : Type 0 where
  pub cal : List ℕ → ℕ
  pub cyc_cal : ℕ → List ℕ → ℕ

abbrev pub crc_start : ℕ
crc_start = 0xffffffff

abbrev pub verify_crc : ℕ
verify_crc = 1

abbrev pub verify_mask : ℕ
verify_mask = 0x0f

abbrev pub hpatchlite_id : ℕ
hpatchlite_id = 0x0400

-- "RBL"
abbrev pub header_magic : List ℕ
header_magic = b'R' ∷ b'B' ∷ b'L' ∷ []

-- The state of a loop over an area: the position, and the checksum so far.
pub record Scan : Type 0 where
  pub failed : Bool
  pub pos : ℕ
  pub crc : ℕ

-- The length of the next piece. A rest of 2^31 or more is negative as an `int`, thus the smaller,
-- and is passed on as the same `rt_uint32_t`.
abbrev pub piece_len : ℕ → ℕ → ℕ
piece_len buf_size rest = if ltb rest buf_size || leb int_max rest then rest else buf_size

module _ {W H : Type 0} (io : IoOps W H) (cfg : StreamCfg) (crc : Crc) where
  -- `qbt_fw_info_check`
  unfoldable pub fw_info_check : FwInfo → Bool
  fw_info_check fw =
      strcmp_eq fw.type header_magic
      && (crc.cal (take (sub32 cfg.src_read_pos 4) (encode_header fw)) == fw.hdr_crc)

  -- A round of the loop of `qbt_fw_crc_check`.
  unfoldable pub crc_round : H → ℕ → ℕ → Scan × W → Scan × W
  crc_round h addr size (s, w) =
      let len = piece_len cfg.buf_size (sub32 size s.pos) in
      let (got, w1) = io.read h (add32 addr s.pos) len w in
      elim got [
        | none ↦ (record s { failed = true }, w1)
        | some bytes ↦ (record s { pos = add32 s.pos len; crc = crc.cyc_cal s.crc bytes }, w1)
      ]

  abbrev pub scan_test : ℕ → Scan × W → Bool
  scan_test size (s, w) = ltb s.pos size && not s.failed

  abbrev pub scan_start : Scan
  scan_start = record { failed = false; pos = 0; crc = crc_start }

  -- `qbt_fw_crc_check`
  unfoldable pub fw_crc_check : H → ℕ → ℕ → ℕ → W → Bool × W
  fw_crc_check h addr size expected w =
      let (s, w1) = while (size + 1) (scan_test size) (crc_round h addr size) (scan_start, w) in
      (not s.failed && (bit_xor s.crc crc_start == expected), w1)

module _ {W H : Type 0} (io : IoOps W H) (cfg : StreamCfg) (crc : Crc) (tables : Tables W) where
  -- `qbt_app_crc_check` with the algorithms found and initialised.
  unfoldable pub app_crc_run : H → FwInfo → AlgoContext W → W → Bool × W
  app_crc_run src fw algo w =
      let (p, w1) =
        stream_process io cfg algo src fw.pkg_size fw.raw_size to_crc (λ pos c. c)
          (crc_consumer crc.cyc_cal) crc_start w in
      (not p.failed && (bit_xor p.sink crc_start == fw.raw_crc), algo_deinit algo w1)

  -- `qbt_app_crc_check`
  unfoldable pub app_crc_check : H → FwInfo → W → Bool × W
  app_crc_check src fw w = elim (get_algo_context fw.algo tables) [
    | none ↦ (false, w)
    | some algo ↦
        let (ready, w1) = algo_init algo w in
        if ready then app_crc_run src fw algo w1 else (false, w1)
  ]

  -- What `qbt_fw_check` does with a header that was read.
  unfoldable pub check_header : H → FwInfo → W → Bool × W
  check_header h fw w =
      if not (fw_info_check io cfg crc fw)
      then (false, w)
      else (let (ok, w1) = fw_crc_check io cfg crc h cfg.src_read_pos fw.pkg_size fw.pkg_crc w in
          if not ok
          then (false, w1)
          else (if not (bit_and fw.algo cmprs_mask == hpatchlite_id)
                && (bit_and fw.algo2 verify_mask == verify_crc)
              then app_crc_check h fw w1
              else (true, w1)))

  -- `qbt_fw_check`; `some` is RT_TRUE.
  unfoldable pub fw_check : H → ℕ → W → Option FwInfo × W
  fw_check h part_len w =
      let (got, w1) = fw_info_read io cfg.src_read_pos h part_len false w in
      elim got [
        | none ↦ (none, w1)
        | some fw ↦ let (ok, w2) = check_header h fw w1 in (if ok then some fw else none, w2)
      ]

  -- What `qbt_dest_part_verify` does with a header that was read.
  unfoldable pub verify_header : H → FwInfo → W → Bool × W
  verify_header h fw w =
      if not (fw_info_check io cfg crc fw)
      then (false, w)
      else (if bit_and fw.algo2 verify_mask == verify_crc
          then fw_crc_check io cfg crc h 0 fw.raw_size fw.raw_crc w
          else (true, w))

  -- `qbt_dest_part_verify`. `some` is RT_TRUE, with what the static `fw_info` was set to.
  unfoldable pub dest_part_verify : H → ℕ → W → Option FwInfo × W
  dest_part_verify h part_len w =
      let (got, w1) = fw_info_read io cfg.src_read_pos h part_len true w in
      elim got [
        | none ↦ (none, w1)
        | some fw ↦ let (ok, w2) = verify_header h fw w1 in (if ok then some fw else none, w2)
      ]

module _ {W H : Type 0} (io : IoOps W H) (cfg : StreamCfg) (crc : Crc) (tables : Tables W)
    (wdt_feed : W → W) where
  -- The two erasures of `qbt_fw_release`: the image, and the header at the end.
  unfoldable pub erase_for : H → ℕ → FwInfo → W → Bool × W
  erase_for dst dst_size fw w =
      let (r1, w1) = erase_with_feed io wdt_feed dst 0 fw.raw_size w in
      if not (is_eok r1)
      then (false, w1)
      else (let (r2, w2) =
            erase_with_feed io wdt_feed dst (sub32 dst_size cfg.src_read_pos) cfg.src_read_pos w1 in
          (is_eok r2, w2))

  -- `qbt_fw_release` with the algorithms found and initialised.
  unfoldable pub release_run : H → ℕ → H → FwInfo → AlgoContext W → W → Bool × W
  release_run dst dst_size src fw algo w =
      let (erased, w1) = erase_for dst dst_size fw w in
      if not erased
      then (false, algo_deinit algo w1)
      else (let (p, w2) =
            stream_process io cfg algo src fw.pkg_size fw.raw_size to_write seek_write
              (write_consumer io) (record { dst_handle = dst; raw_pos = 0 }) w1 in
          if p.failed
          then (false, algo_deinit algo w2)
          else fw_info_write io cfg.src_read_pos dst dst_size fw true (algo_deinit algo w2))

  -- `qbt_fw_release`
  unfoldable pub fw_release : H → ℕ → H → FwInfo → W → Bool × W
  fw_release dst dst_size src fw w = elim (get_algo_context fw.algo tables) [
    | none ↦ (false, w)
    | some algo ↦
        let (ready, w1) = algo_init algo w in
        if ready then release_run dst dst_size src fw algo w1 else (false, w1)
  ]

  -- `qbt_fw_update`. `some` is RT_TRUE, with what the static `fw_info` was set to.
  unfoldable pub fw_update : H → ℕ → H → FwInfo → W → Option FwInfo × W
  fw_update dst dst_size src fw w =
      let (ok, w1) = fw_release dst dst_size src fw w in
      if ok then dest_part_verify io cfg crc tables dst dst_size w1 else (none, w1)
