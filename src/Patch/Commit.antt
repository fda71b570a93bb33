-- ===== src/Patch/Commit.antt =====
-- The listener callbacks of algorithm/qboot_hpatchlite.c and the commit of the swap buffer.
use rt_thread_qboot.Base.{
  ℕ, suc, ◌+◌, ◌*◌, ◌%◌, Bool, ◌&&◌, not, Option, none, some, List, [], length, take, drop, leb,
  ltb, ◌==◌, if◌then◌else◌, sub32, u32_mod, while,
}
use rt_thread_qboot.Storage.{IoOps, RtErr, is_eok}
use rt_thread_qboot.Storage.Targets.{erase_with_feed}
use rt_thread_qboot.Patch.{Instance, SwapOps, Kernel}

module _ {W H : Type 0} where
  -- What a read of the patch found.
  unfoldable pub patch_got : ℕ → Instance W H → Option (List ℕ) × W → Option (List ℕ) × Instance W H
  patch_got n s (none, w) = (none, record s { world = w })
  patch_got n s (some bytes, w) =
      (some bytes, record s { patch_read_pos = s.patch_read_pos + n; world = w })

  -- `_do_read_patch`: the bytes that were read, or no value for a failure.
  unfoldable pub do_read_patch : IoOps W H → ℕ → Instance W H → Option (List ℕ) × Instance W H
  do_read_patch io size s =
      let remaining_len = sub32 s.patch_file_len s.patch_read_pos in
      let n = if ltb remaining_len size then remaining_len else size in
      if leb s.patch_file_len s.patch_read_pos
      then (some [], s)
      else (if n == 0
          then (some [], s)
          else patch_got n s
              (io.read s.patch_part (s.patch_file_offset + s.patch_read_pos) n s.world))

  unfoldable pub do_read_old : IoOps W H → ℕ → ℕ → Instance W H → Option (List ℕ) × Instance W H
  do_read_old io addr size s =
      let (got, w) = io.read s.old_part addr size s.world in (got, record s { world = w })

module _ {W H : Type 0} (io : IoOps W H) (wdt_feed : W → W) (kernel : Kernel W) where
  -- `qbt_erase_aligned_range` once there is something to erase.
  unfoldable pub erased_range : ℕ → RtErr × W → Instance W H → Bool × Instance W H
  erased_range erase_end (rst, w) s =
      if is_eok rst
      then (Bool.true, record s { old_part_erased_end = erase_end; world = w })
      else (Bool.false, record s { world = w })

  unfoldable pub first_sector : ℕ → Bool → Instance W H → ℕ
  first_sector start align_start_up s =
      let first =
        if align_start_up
        then kernel.rt_align start s.old_part_sector_size
        else kernel.rt_align_down start s.old_part_sector_size in
      if ltb first s.old_part_erased_end then s.old_part_erased_end else first

  unfoldable pub erase_aligned_range : ℕ → ℕ → Bool → Instance W H → Bool × Instance W H
  erase_aligned_range start end align_start_up s =
      let erase_start = first_sector start align_start_up s in
      let erase_end = kernel.rt_align end s.old_part_sector_size in
      if leb end start
      then (Bool.true, s)
      else (if leb erase_end s.old_part_erased_end
          then (Bool.true, s)
          else (if leb erase_end erase_start
              then (Bool.true, s)
              else erased_range erase_end
                  (erase_with_feed io wdt_feed s.old_part erase_start (sub32 erase_end erase_start)
                    s.world)
                  s))

  module _ (ops : SwapOps W H) where
    unfoldable pub swap_commit : Instance W H → Bool × Instance W H
    swap_commit s =
        let used = s.swap.write_pos in
        let (erased, s1) =
          erase_aligned_range (s.committed_len % u32_mod) ((s.committed_len + used) % u32_mod)
            Bool.false s in
        let (copied, s2) = ops.copy_to_old used s1 in
        let (cleared, s3) = ops.reset (record s2 { committed_len = s2.committed_len + used }) in
        if used == 0
        then (Bool.true, s)
        else (if not erased
            then (Bool.false, s1)
            else (if not copied then (Bool.false, s2) else (cleared, s3)))

    -- The loop of `_do_write_new`; `failed` is its early return.
    pub record Writing : Type 0 where
      pub data_cur : List ℕ
      pub failed : Bool
      pub inst : Instance W H

    -- The chunk that a round takes: `free_space` is unsigned in the comparison.
    unfoldable pub chunk_len : ℕ → Instance W H → ℕ
    chunk_len remain_size s =
        let free_space = sub32 s.swap.capacity s.swap.write_pos in
        if ltb remain_size free_space then remain_size else free_space

    -- The part of a round after the append.
    unfoldable pub commit_if_full : List ℕ → ℕ → Bool × Instance W H → Writing
    commit_if_full rest capacity (appended, s) =
        let (committed, s') = swap_commit s in
        if not appended
        then record { data_cur = rest; failed = Bool.true; inst = s }
        else (if leb capacity s.swap.write_pos
            then record { data_cur = rest; failed = not committed; inst = s' }
            else record { data_cur = rest; failed = Bool.false; inst = s })

    unfoldable pub write_round : Writing → Writing
    write_round d =
        let chunk = chunk_len (length d.data_cur) d.inst in
        commit_if_full (drop chunk d.data_cur) d.inst.swap.capacity
          (if ltb 0 chunk then ops.append (take chunk d.data_cur) d.inst else (Bool.true, d.inst))

    abbrev pub write_test : Writing → Bool
    write_test d = not d.failed && ltb 0 (length d.data_cur)

    -- `_do_write_new`. A round takes a byte or empties a full buffer, so that two rounds for each byte
    -- and one more are enough for a buffer of any room.
    unfoldable pub do_write_new : List ℕ → Instance W H → Bool × Instance W H
    do_write_new bytes s =
        let end : Writing =
          while (suc (2 * length bytes)) write_test write_round
            (record { data_cur = bytes; failed = Bool.false; inst = s }) in
        if end.failed then (Bool.false, end.inst) else (
          Bool.true,
          record end.inst { newer_write_pos = end.inst.newer_write_pos + length bytes },
        )
