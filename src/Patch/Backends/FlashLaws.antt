-- ===== src/Patch/Backends/FlashLaws.antt =====
-- The swap backend in a storage target of algorithm/qboot_hpatchlite.c keeps its contract.
use rt_thread_qboot.Base.{
  ℕ, ◌+◌, ◌≡◌, ◌≤◌, ◌<◌, refl, ap, sym, ◌∙◌, true, Option, some, List, ◌++◌, length, take, drop,
  slice, length-take, length-drop, u32_mod, arith,
}
use mathlib.Core.Path.{subst}
use rt_thread_qboot.Storage.{IoOps}
use rt_thread_qboot.Storage.Custom.{get_erase_align}
use rt_thread_qboot.Patch.{Swap, Instance, Kernel}
use rt_thread_qboot.Patch.Flash.{
  FlashCfg, flash_swap_deinit, append_to, flash_swap_append, reset_to, flash_swap_reset,
  flash_copy_to_old, flash_swap_ops,
}
use rt_thread_qboot.Patch.Release.{Patcher, hpatch_release, hpatch_instance}
use rt_thread_qboot.Patch.Laws.{Aligns, OldPart, Around, Kept, SwapLaws}
use rt_thread_qboot.Patch.Handed.{Heeds, handed_over, at_start}
use rt_thread_qboot.Patch.Deliver.{hpatch_release-delivers}
use rt_thread_qboot.Patch.Backends.TwoParts.{TwoParts}
use rt_thread_qboot.Patch.Backends.FlashCopy.{flash_copy_to_old-Copied}
use rt_thread_qboot.Patch.Backends.FlashInit.{
  FlashReady, flash_buffered, flash_swap_init-Inits, unchanged,
}
use rt_thread_qboot.Patch.Backends.FlashSteps.{
  Appends, Resets, append_to-Appends, reset_to-Resets, old_erase-area, close-content, Filled-moved,
}

module _ {W H : Type 0} {io : IoOps W H} {wdt_feed : W → W} (cfg : FlashCfg) {sh old : H}
    {content area : W → List ℕ} {room swap_size : ℕ} (part : OldPart io wdt_feed old content room)
    (two : TwoParts io wdt_feed cfg.swap_id sh old content area swap_size)
    (has_buf : 0 < cfg.copy_buffer_size) where
  copies :
      (s : Instance W H)
      → FlashReady cfg sh area swap_size s.swap s.world
      → s.old_part ≡ old
      → s.committed_len ≤ room
      → (flash_copy_to_old io wdt_feed cfg s.swap.write_pos s).0 ≡ true
      → let r = (flash_copy_to_old io wdt_feed cfg s.swap.write_pos s).1 in
        FlashReady cfg sh area swap_size r.swap r.world
        × (take (s.committed_len + s.swap.write_pos) (content r.world)
            ≡ take s.committed_len (content s.world)
              ++ flash_buffered cfg sh area swap_size s.swap s.world)
        × (s.committed_len + s.swap.write_pos ≤ room)
        × Kept s r
  copies s ready is_old dst_inside ok =
      let (image, fits, same_area, same_part, same_pos, same_size, kept) =
        flash_copy_to_old-Copied cfg part two has_buf s.swap.write_pos s is_old ready.is_part
          (omega (arith, ready.is_capacity, ready.inside)) dst_inside ok in
      (
        record {
          is_part = same_part ∙ ready.is_part;
          is_capacity = omega (arith, kept.capacity_kept, ready.is_capacity);
          is_part_size = same_size ∙ ready.is_part_size ∙ sym kept.capacity_kept;
          some_room = omega (arith, kept.capacity_kept, ready.some_room);
          inside = omega (arith, kept.capacity_kept, same_pos, ready.inside);
        },
        image,
        fits,
        kept,
      )

  pub flash-laws :
      SwapLaws io wdt_feed
        (flash_swap_ops io wdt_feed cfg)
        old
        content
        room
        (FlashReady cfg sh area swap_size)
        (flash_buffered cfg sh area swap_size)
  unfolding flash_swap_append flash_swap_reset flash_swap_deinit
  flash-laws = record {
    capacity_some = λ sw w ready. ready.some_room;
    capacity_small = λ sw w ready. omega (arith, ready.is_capacity, two.size_small);
    pos_inside = λ sw w ready. ready.inside;
    buffered_length = λ sw w ready. omega (
      arith,
      length-take sw.write_pos (drop cfg.swap_offset (area w)),
      length-drop cfg.swap_offset (area w),
      two.area_size w,
      ready.is_capacity,
      ready.inside,
    );
    init_ready = λ s sized. flash_swap_init-Inits cfg part two s;
    deinit_keeps = λ s. (
      close-content cfg part two s.swap.part s.world,
      unchanged cfg part two (record s { swap = (flash_swap_deinit io wdt_feed cfg s).swap }) _ _
          refl,
    );
    append_puts = λ bytes s ready room_left.
        subst (λ o. Appends cfg part two bytes s (append_to io wdt_feed cfg bytes s o))
          (sym ready.is_part) (append_to-Appends cfg part two bytes s ready room_left);
    copy_puts = λ s ready is_old inside ok. copies s ready is_old inside ok;
    reset_clears = λ s ready.
        subst (λ o. Resets cfg part two s (reset_to io wdt_feed cfg s o)) (sym ready.is_part)
          (reset_to-Resets cfg part two s ready);
    erase_apart = λ off len sw w ready. (
      Filled-moved cfg part two sw w _ ready,
      ap (λ xs. slice cfg.swap_offset sw.write_pos xs) (old_erase-area cfg part two off len w),
    );
    read_apart = λ h off len sw w ready. (
      Filled-moved cfg part two sw w _ ready,
      ap (λ xs. slice cfg.swap_offset sw.write_pos xs) (two.read_area h off len w),
    );
  }

  -- A patch that is released with the buffer in a storage target and reports success has left in the old partition
  -- exactly the bytes that the patcher handed over, and they are as many as the new image has. The
  -- pieces may have any size, and the copy buffer any but 0; the patcher gives up after a failed write.
  pub flash_release-delivers :
      (kernel : Kernel W)
      → Around io kernel content
      → (sector : ℕ) → Aligns kernel sector
      → room + sector ≤ u32_mod
      → (swap_file : Option ℕ) (p : Patcher) (patch_part : H) (patch_len newer offset : ℕ)
        (sw : Swap H) (w : W)
      → Heeds p
      → (io.ioctl old get_erase_align w).0 ≡ some sector
      → let ops = flash_swap_ops io wdt_feed cfg in
        let s = hpatch_instance patch_part old patch_len newer offset sw w in
        let bytes =
          handed_over io wdt_feed kernel ops p (at_start io wdt_feed kernel ops sector s) in
        (hpatch_release io wdt_feed kernel ops swap_file p s).0 ≡ true
        → (take newer (content (hpatch_release io wdt_feed kernel ops swap_file p s).1.world)
            ≡ bytes)
          × (length bytes ≡ newer)
  flash_release-delivers kernel around sector aligns fits swap_file p patch_part patch_len newer
        offset sw w heeds answer ok =
      hpatch_release-delivers part aligns flash-laws around fits newer swap_file p patch_part
        patch_len offset sw w heeds answer ok
