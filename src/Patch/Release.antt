-- ===== src/Patch/Release.antt =====
-- qbt_hpatchlite_release_from_part of algorithm/qboot_hpatchlite.c, with the patcher as a parameter.
use rt_thread_qboot.Base.{
  ℕ, Bool, ◌&&◌, Option, none, some, List, [], ltb, ◌==◌, if◌then◌else◌, ◌%◌, u32_mod,
}
use rt_thread_qboot.Storage.{IoOps, RtErr, rt_error}
use rt_thread_qboot.Storage.Custom.{get_erase_align}
use rt_thread_qboot.Algo.{CmprsOps, Step, StreamCtx, Tables, cmprs_register}
use rt_thread_qboot.Patch.{Swap, Instance, SwapOps, Kernel}
use rt_thread_qboot.Patch.Commit.{
  do_read_patch, do_read_old, do_write_new, swap_commit, erase_aligned_range,
}

-- `hpi_patch_result_t`: the codes that the code names, and the others of the package.
pub data PatchResult : Type 0 where
  success patch_error options_error filewrite_error : PatchResult
  other_error : ℕ → PatchResult

abbrev pub is_success : PatchResult → Bool
is_success success = Bool.true
is_success _ = Bool.false

-- A run of the patcher: it calls the listener, goes on with what a call returned, and ends.
pub data Patcher : Type 0 where
  finish : PatchResult → Patcher
  read_patch : ℕ → (Option (List ℕ) → Patcher) → Patcher
  read_old : ℕ → ℕ → (Option (List ℕ) → Patcher) → Patcher
  write_new : List ℕ → (Bool → Patcher) → Patcher

module _ {W H : Type 0} (io : IoOps W H) (wdt_feed : W → W) (kernel : Kernel W)
    (ops : SwapOps W H) where
  -- The patcher on the three callbacks.
  unfoldable pub hpi_patch : Patcher → Instance W H → PatchResult × Instance W H
  hpi_patch (finish r) s = (r, s)
  hpi_patch (read_patch n k) s = let (got, s') = do_read_patch io n s in hpi_patch (k got) s'
  hpi_patch (read_old addr n k) s = let (got, s') = do_read_old io addr n s in hpi_patch (k got) s'
  hpi_patch (write_new bytes k) s =
      let (ok, s') = do_write_new io wdt_feed kernel ops bytes s in hpi_patch (k ok) s'

  unfoldable pub alloc_got : Instance W H → Option (List ℕ) × W → Bool × Instance W H
  alloc_got s (none, w) =
      (Bool.false, record s { swap = record s.swap { ram_buf = none }; world = w })
  alloc_got s (some bytes, w) =
      (Bool.true, record s { swap = record s.swap { ram_buf = some bytes }; world = w })

  unfoldable pub swap_alloc_buf : Instance W H → Bool × Instance W H
  swap_alloc_buf s = alloc_got s (kernel.rt_malloc ops.ram_buf_size s.world)

  unfoldable pub swap_free_buf : Instance W H → Instance W H
  swap_free_buf s = record s {
    swap = record s.swap { ram_buf = none };
    world = kernel.rt_free s.swap.ram_buf s.world;
  }

  -- The patcher, and the commit of what is left in the buffer.
  unfoldable pub patch_and_commit : Patcher → Instance W H → PatchResult × Instance W H
  patch_and_commit patcher s =
      let (result, s1) = hpi_patch patcher s in
      let (ok, s2) = swap_commit io wdt_feed kernel ops s1 in
      if is_success result && ltb 0 s1.swap.write_pos
      then ((if ok then result else patch_error), s2)
      else (result, s1)

  unfoldable pub swap_inited : Patcher → Bool × Instance W H → PatchResult × Instance W H
  swap_inited patcher (ok, s) =
      let (result, s') = patch_and_commit patcher s in
      if ok then (result, ops.deinit s') else (patch_error, s)

  unfoldable pub buf_allocated : Patcher → Bool × Instance W H → PatchResult × Instance W H
  unfolding swap_inited
  buf_allocated patcher (ok, s) = if ok then swap_inited patcher (ops.init s) else (patch_error, s)

  -- QBOOT_HPATCH_SWAP_FILE_SIZE, in a build whose swap is a file.
  abbrev pub file_too_small : Option ℕ → ℕ → Bool
  file_too_small none sector = Bool.false
  file_too_small (some size) sector = ltb size sector

  -- The answer to the query of the erase alignment.
  unfoldable pub sector_known :
      Option ℕ → Patcher → Instance W H → Option ℕ × W → PatchResult × Instance W H
  unfolding buf_allocated
  sector_known swap_file patcher s (none, w) = (options_error, record s { world = w })
  sector_known swap_file patcher s (some sector, w) =
      let s' = record s { old_part_sector_size = sector; world = w } in
      if file_too_small swap_file sector
      then (options_error, s')
      else buf_allocated patcher (swap_alloc_buf s')

  -- The tail of the old partition, once its size is known.
  unfoldable pub tail_sized : Instance W H → Option ℕ × W → PatchResult × Instance W H
  tail_sized s (none, w) = (success, record s { world = w })
  tail_sized s (some part_len, w) =
      let s1 = record s { world = w } in
      let (ok, s2) =
        erase_aligned_range io wdt_feed kernel (s.newer_file_len % u32_mod) part_len Bool.true s1 in
      if ltb s.newer_file_len part_len
      then ((if ok then success else filewrite_error), s2)
      else (success, s1)

  unfoldable pub erase_tail : PatchResult × Instance W H → PatchResult × Instance W H
  unfolding tail_sized
  erase_tail (success, s) = tail_sized s (io.size s.old_part s.world)
  erase_tail (result, s) = (result, s)

  -- `qbt_hpatchlite_release_from_part` on the instance that it sets up.
  unfoldable pub hpatch_release : Option ℕ → Patcher → Instance W H → Bool × Instance W H
  hpatch_release swap_file patcher s =
      let (result, s1) =
        sector_known swap_file patcher s (io.ioctl s.old_part get_erase_align s.world) in
      let (result', s2) = erase_tail (result, swap_free_buf s1) in
      (is_success result' && s2.committed_len == s2.newer_file_len, s2)

-- The instance at the start. The swap's state is static: it is what the last call left.
unfoldable pub hpatch_instance : {W H : Type 0} → H → H → ℕ → ℕ → ℕ → Swap H → W → Instance W H
hpatch_instance patch_part old_part patch_file_len newer_file_len patch_file_offset swap w =
    record {
      patch_file_offset = patch_file_offset;
      patch_file_len = patch_file_len;
      patch_read_pos = 0;
      newer_file_len = newer_file_len;
      newer_write_pos = 0;
      patch_part = patch_part;
      old_part = old_part;
      swap = swap;
      committed_len = 0;
      old_part_sector_size = 0;
      old_part_erased_end = 0;
      world = w;
    }

-- `qbt_algo_hpatchlite_decompress` on buffers that are no null pointers.
unfoldable pub hpatchlite_decompress : {W : Type 0} → List ℕ → ℕ → StreamCtx → W → Step × W
hpatchlite_decompress buf out_len ctx w = (record { rst = rt_error; consumed = 0; output = [] }, w)

abbrev pub hpatchlite_cmprs_ops : {W : Type 0} → CmprsOps W
hpatchlite_cmprs_ops = record {
  has_name = Bool.true;
  has_decompress = Bool.true;
  cmprs_id = 0x400;
  init = none;
  decompress = hpatchlite_decompress;
  deinit = none;
}

unfoldable pub hpatchlite_register : {W : Type 0} → Tables W → RtErr × Tables W
hpatchlite_register t = cmprs_register (some hpatchlite_cmprs_ops) t
