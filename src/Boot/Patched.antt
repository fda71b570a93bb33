-- ===== src/Boot/Patched.antt =====
-- qbt_fw_release of src/qboot.c in a build with HPatchLite.
use rt_thread_qboot.Base.{
  ℕ, ◌+◌, ◌-◌, ◌≡◌, ◌≤◌, ◌<◌, ap, sym, ◌∙◌, Bool, true, false, not, Option, none, some, List,
  length, take, length-take, take-take, take-append_before, ◌==◌, if◌then◌else◌, sub32, sub32_le,
  u32_mod, arith,
}
use rt_thread_qboot.Storage.{FwInfo, IoOps}
use rt_thread_qboot.Storage.Header.{encode_header, fw_info_write}
use rt_thread_qboot.Storage.Custom.{get_erase_align}
use rt_thread_qboot.Algo.{AlgoContext, Tables, get_algo_context, algo_init, algo_deinit}
use rt_thread_qboot.Stream.{StreamCfg}
use rt_thread_qboot.Boot.{Crc, hpatchlite_id, release_run}
use rt_thread_qboot.Patch.{Swap, SwapOps, Kernel}
use rt_thread_qboot.Patch.Release.{Patcher, hpatch_instance, hpatch_release}
use rt_thread_qboot.Patch.Laws.{Aligns, OldPart, Around, SwapLaws}
use rt_thread_qboot.Patch.Handed.{Heeds, handed_over, at_start}
use rt_thread_qboot.Patch.Deliver.{hpatch_release-delivers}

module _ {W H : Type 0} (io : IoOps W H) (cfg : StreamCfg) (crc : Crc) (tables : Tables W)
    (wdt_feed : W → W) (kernel : Kernel W) (ops : SwapOps W H) (swap_file : Option ℕ)
    (patcher : Patcher) where
  -- The differential update of the destination, and the header behind it. The swap's static state goes
  -- through.
  unfoldable pub release_patch :
      H → ℕ → H → FwInfo → AlgoContext W → Swap H → W → (Bool × Swap H) × W
  release_patch dst dst_size src fw algo sw w =
      let (patched, s) =
        hpatch_release io wdt_feed kernel ops swap_file patcher
          (hpatch_instance src dst fw.pkg_size fw.raw_size cfg.src_read_pos sw w) in
      let (ok, w') =
        fw_info_write io cfg.src_read_pos dst dst_size fw true (algo_deinit algo s.world) in
      if patched then ((ok, s.swap), w') else ((false, s.swap), s.world)

  -- `qbt_fw_release` with QBOOT_USING_HPATCHLITE.
  unfoldable pub fw_release_patched : H → ℕ → H → FwInfo → Swap H → W → (Bool × Swap H) × W
  fw_release_patched dst dst_size src fw sw w = elim (get_algo_context fw.algo tables) [
    | none ↦ ((false, sw), w)
    | some algo ↦
        let (ready, w1) = algo_init algo w in
        let (ok, w2) = release_run io cfg crc tables wdt_feed dst dst_size src fw algo w1 in
        if not ready
        then ((false, sw), w1)
        else (if algo.cmprs_ops.cmprs_id == hpatchlite_id
            then release_patch dst dst_size src fw algo sw w1
            else ((ok, sw), w2))
  ]

module _ {W H : Type 0} {io : IoOps W H} (cfg : StreamCfg) (crc : Crc) (tables : Tables W)
    {wdt_feed : W → W} {kernel : Kernel W} {ops : SwapOps W H} {dst : H} {content : W → List ℕ}
    {room sector : ℕ} {Ready : Swap H → W → Type 0} {buffered : Swap H → W → List ℕ}
    (part : OldPart io wdt_feed dst content room) (aligns : Aligns kernel sector)
    (laws : SwapLaws io wdt_feed ops dst content room Ready buffered)
    (around : Around io kernel content) (fits : room + sector ≤ u32_mod) where
  -- A header that is written behind an image leaves the image alone.
  fw_info_write-before :
      (dst_size : ℕ) (fw : FwInfo) (n : ℕ) (w : W)
      → n + cfg.src_read_pos ≤ dst_size
      → dst_size < u32_mod
      → length (take n (content w)) ≡ n
      → (fw_info_write io cfg.src_read_pos dst dst_size fw true w).0 ≡ true
      → take n (content (fw_info_write io cfg.src_read_pos dst dst_size fw true w).1)
        ≡ take n (content w)
  unfolding fw_info_write
  fw_info_write-before dst_size fw n w inside small whole ok =
      let off = sub32 dst_size cfg.src_read_pos in
      let at : off ≡ dst_size - cfg.src_read_pos =
        sub32_le dst_size cfg.src_read_pos (omega arith) small in
      let below : n ≤ off = omega (arith, at) in
      let header = take cfg.src_read_pos (encode_header fw) in
      let w' = (io.write dst off header w).1 in
      let enough : n ≤ length (take off (content w)) =
        omega (arith, length-take off (content w), length-take n (content w), whole, below) in
      sym (take-take n (off + length header) (content w') (omega (arith, below)))
      ∙ ap (λ xs. take n xs) (part.write_puts off header w ok)
      ∙ take-append_before n (take off (content w)) header enough
      ∙ take-take n off (content w) below

  -- A release of a differential package that reports success leaves in the destination exactly the
  -- image that the patcher handed over, of the size that the header of the package names. The header of
  -- the image has room behind it, and the clean-up of the algorithms leaves the destination alone.
  pub fw_release_patched-delivers :
      (swap_file : Option ℕ) (patcher : Patcher) (dst_size : ℕ) (src : H) (fw : FwInfo)
      (algo : AlgoContext W) (sw : Swap H) (w : W)
      → Heeds patcher
      → get_algo_context fw.algo tables ≡ some algo
      → algo.cmprs_ops.cmprs_id ≡ hpatchlite_id
      → ((w' : W) → content (algo_deinit algo w') ≡ content w')
      → fw.raw_size + cfg.src_read_pos ≤ dst_size
      → dst_size < u32_mod
      → (io.ioctl dst get_erase_align (algo_init algo w).1).0 ≡ some sector
      → let r =
          fw_release_patched io cfg crc tables wdt_feed kernel ops swap_file patcher dst dst_size
            src fw sw w in
        let start =
          hpatch_instance src dst fw.pkg_size fw.raw_size cfg.src_read_pos sw
            (algo_init algo w).1 in
        let bytes =
          handed_over io wdt_feed kernel ops patcher
            (at_start io wdt_feed kernel ops sector start) in
        r.0.0 ≡ true → (take fw.raw_size (content r.1) ≡ bytes) × (length bytes ≡ fw.raw_size)
  unfolding fw_release_patched release_patch
  fw_release_patched-delivers swap_file patcher dst_size src fw algo sw w heeds found is_patch
        cleans inside small answer ok =
      let w1 = (algo_init algo w).1 in
      let start = hpatch_instance src dst fw.pkg_size fw.raw_size cfg.src_read_pos sw w1 in
      let h = hpatch_release io wdt_feed kernel ops swap_file patcher start in
      let bytes =
        handed_over io wdt_feed kernel ops patcher (at_start io wdt_feed kernel ops sector start) in
      let w2 = algo_deinit algo h.1.world in
      let patch : (algo.cmprs_ops.cmprs_id == hpatchlite_id) ≡ true = ground (arith, is_patch) in
      let ready : (algo_init algo w).0 ≡ true = ground (arith, found, ok) in
      let patched : h.0 ≡ true = ground (arith, found, ready, patch, ok) in
      let written : (fw_info_write io cfg.src_read_pos dst dst_size fw true w2).0 ≡ true =
        ground (arith, found, ready, patch, patched, ok) in
      let (image, size) =
        hpatch_release-delivers part aligns laws around fits fw.raw_size swap_file patcher src
          fw.pkg_size cfg.src_read_pos sw w1 heeds answer patched in
      let there : take fw.raw_size (content w2) ≡ bytes =
        ap (λ xs. take fw.raw_size xs) (cleans h.1.world) ∙ image in
      let kept =
        fw_info_write-before dst_size fw fw.raw_size w2 inside small (ap length there ∙ size)
          written in
      rw (found, ready, patch, patched, fw_release_patched) (kept ∙ there, size)
