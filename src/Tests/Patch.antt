-- ===== src/Tests/Patch.antt =====
-- The theorems on the differential update (algorithm/qboot_hpatchlite.c) on a small disk.
use rt_thread_qboot.Base.{
  ℕ, ◌≡◌, refl, false, none, List, [], ◌∷◌, take, length, if◌then◌else◌, arith, while,
}
use rt_thread_qboot.Storage.Targets.{erase_with_feed, target_open, open_with, sized, target_close}
use rt_thread_qboot.Patch.{Swap, Instance}
use rt_thread_qboot.Patch.Ram.{
  ram_swap_init, ram_copy_to_old, ram_swap_append, ram_swap_reset, ram_swap_ops,
}
use rt_thread_qboot.Patch.Flash.{
  FlashCfg, erased_swap, swap_opened, with_swap, flash_swap_init, flash_swap_deinit, chunk_size,
  put_chunk, get_chunk, copy_round, flash_copy_to_old, append_to, flash_swap_append, reset_to,
  flash_swap_reset, flash_swap_ops,
}
use rt_thread_qboot.Patch.Commit.{
  patch_got, do_read_patch, do_read_old, erased_range, first_sector, erase_aligned_range,
  swap_commit, chunk_len, commit_if_full, write_round, do_write_new,
}
use rt_thread_qboot.Patch.Release.{
  Patcher, finish, read_patch, read_old, write_new, success, patch_error, hpi_patch, alloc_got,
  swap_alloc_buf, swap_free_buf, patch_and_commit, swap_inited, buf_allocated, sector_known,
  tail_sized, erase_tail, hpatch_release, hpatch_instance,
}
use rt_thread_qboot.Patch.Erase.{Erased, erase_aligned_range-Erased}
use rt_thread_qboot.Patch.Handed.{Heeds, GivesUp, handed_over}
use rt_thread_qboot.Patch.Backends.RamLaws.{ram_release-delivers}
use rt_thread_qboot.Patch.Backends.FlashLaws.{flash_release-delivers}
use rt_thread_qboot.Tests.Disk.{
  Disk, disk_io, disk_feed, kernel, by_four, disk-Around, disk_image, disk_parts,
}

abbrev pub disk : Disk
disk = record { image = 9 ∷ 9 ∷ 9 ∷ 9 ∷ 9 ∷ 9 ∷ 9 ∷ []; swap = [] }

abbrev pub idle : Swap ℕ
idle = record { ram_buf = none; write_pos = 0; capacity = 0; part = none; part_size = 0 }

-- A patcher that reads the patch and the image, writes two pieces and heeds a failure.
abbrev pub patcher : Patcher
patcher = read_patch 2 (λ got. read_old 0 2 (λ old. write_new (1 ∷ 2 ∷ 3 ∷ []) (λ ok.
    if ok
    then write_new (4 ∷ 5 ∷ []) (λ ok'. if ok' then finish success else finish patch_error)
    else finish patch_error)))

pub patcher-Heeds : Heeds patcher
unfolding Heeds GivesUp
patcher-Heeds = λ got old. (refl, (refl, omega arith))

abbrev start : Instance Disk ℕ
start = hpatch_instance 0 0 2 5 0 idle disk

abbrev pub new_image : List ℕ
new_image = 1 ∷ 2 ∷ 3 ∷ 4 ∷ 5 ∷ []

abbrev ram_released : Instance Disk ℕ
ram_released =
    (hpatch_release disk_io disk_feed kernel (ram_swap_ops disk_io 2) none patcher start).1

ram_release-delivers_example :
    (take 5 ram_released.world.image ≡ new_image) × (length new_image ≡ 5)
unfolding hpatch_release hpatch_instance handed_over sector_known buf_allocated swap_inited
    patch_and_commit hpi_patch do_read_patch patch_got do_read_old do_write_new write_round
    chunk_len commit_if_full swap_commit erase_aligned_range first_sector erased_range
    erase_with_feed swap_alloc_buf alloc_got swap_free_buf erase_tail tail_sized while ram_swap_init
    ram_copy_to_old ram_swap_append ram_swap_reset
ram_release-delivers_example =
    ram_release-delivers disk_image 2 (omega arith) (omega arith) kernel disk-Around 4 by_four
      (omega arith) none patcher 0 2 5 0 idle disk patcher-Heeds refl refl

-- A swap of 3 bytes behind an offset of 5, and a copy buffer of 2.
abbrev flash_cfg : FlashCfg
flash_cfg = record { target_count = 4; swap_id = 3; swap_offset = 5; copy_buffer_size = 2 }

abbrev flash_released : Instance Disk ℕ
flash_released =
    (hpatch_release disk_io disk_feed kernel (flash_swap_ops disk_io disk_feed flash_cfg) none
      patcher start).1

flash_release-delivers_example :
    (take 5 flash_released.world.image ≡ new_image) × (length new_image ≡ 5)
unfolding hpatch_release hpatch_instance handed_over sector_known buf_allocated swap_inited
    patch_and_commit hpi_patch do_read_patch patch_got do_read_old do_write_new write_round
    chunk_len commit_if_full swap_commit erase_aligned_range first_sector erased_range
    erase_with_feed swap_alloc_buf alloc_got swap_free_buf erase_tail tail_sized while
    flash_swap_init with_swap swap_opened erased_swap flash_swap_deinit target_open open_with sized
    target_close flash_copy_to_old copy_round chunk_size put_chunk get_chunk flash_swap_append
    append_to flash_swap_reset reset_to
flash_release-delivers_example =
    flash_release-delivers flash_cfg disk_image disk_parts (omega arith) kernel disk-Around 4
      by_four (omega arith) none patcher 0 2 5 0 idle disk patcher-Heeds refl refl

-- Four bytes are committed, so that the erase of what follows starts behind them.
abbrev committed : Instance Disk ℕ
committed = record start { committed_len = 4; old_part_sector_size = 4; old_part_erased_end = 4 }

erase_aligned_range-Erased_example :
    Erased
      (λ d. d.image)
      committed
      (erase_aligned_range disk_io disk_feed kernel 3 7 false committed).1
unfolding hpatch_instance
erase_aligned_range-Erased_example =
    erase_aligned_range-Erased disk_image kernel 3 7 false committed refl
