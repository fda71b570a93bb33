-- ===== src/Tests/Balanced.antt =====
-- The memory and the handles of the differential update (algorithm/qboot_hpatchlite.c) on a disk that
-- counts them.
use rt_thread_qboot.Base.{ℕ, ◌+◌, ◌-◌, ◌≡◌, refl, none}
use rt_thread_qboot.Storage.{IoOps}
use rt_thread_qboot.Storage.Frame.{HandleCount}
use rt_thread_qboot.Patch.{Instance, Kernel}
use rt_thread_qboot.Patch.Ram.{ram_swap_ops}
use rt_thread_qboot.Patch.Flash.{FlashCfg, flash_swap_ops}
use rt_thread_qboot.Patch.Release.{hpatch_release, hpatch_instance}
use rt_thread_qboot.Patch.Balance.{LiveCount, block_of}
use rt_thread_qboot.Patch.Backends.Counts.{backends-live}
use rt_thread_qboot.Tests.Disk.{Disk, disk_io, kernel}
use rt_thread_qboot.Tests.Patch.{disk, idle, patcher}

record Counted : Type 0 where
  taken : ℕ
  disk : Disk

abbrev on_disk : {A : Type 0} → ℕ → A × Disk → A × Counted
on_disk n (a, d) = (a, record { taken = n; disk = d })

-- What an open handle and a block of memory add to `taken`.
abbrev weigh : ℕ → ℕ
weigh h = h + 1

abbrev block : ℕ
block = 10

abbrev counted_io : IoOps Counted ℕ
counted_io = record {
  open_target = λ id flags c. on_disk (c.taken + weigh 1) (disk_io.open_target id flags c.disk);
  close = λ h c. on_disk (c.taken - weigh h) (disk_io.close h c.disk);
  read = λ h off len c. on_disk c.taken (disk_io.read h off len c.disk);
  erase = λ h off len c. on_disk c.taken (disk_io.erase h off len c.disk);
  write = λ h off bytes c. on_disk c.taken (disk_io.write h off bytes c.disk);
  size = λ h c. on_disk c.taken (disk_io.size h c.disk);
  ioctl = λ h cmd c. on_disk c.taken (disk_io.ioctl h cmd c.disk);
}

abbrev counted_feed : Counted → Counted
counted_feed c = c

abbrev counted_kernel : Kernel Counted
counted_kernel = record {
  rt_malloc = λ n c.
      on_disk (c.taken + block_of block (kernel.rt_malloc n c.disk).0) (kernel.rt_malloc n c.disk);
  rt_free = λ p c. record c { taken = c.taken - block_of block p };
  rt_align = kernel.rt_align;
  rt_align_down = kernel.rt_align_down;
}

counted_handles : HandleCount counted_io weigh (λ c. c.taken)
counted_handles = record {
  open_counts = λ id flags c. refl;
  close_counts = λ h c le. refl;
  read_counts = λ h off len c. refl;
  erase_counts = λ h off len c. refl;
  write_counts = λ h off bytes c. refl;
  size_counts = λ h c. refl;
}

counted_live : LiveCount counted_io counted_feed counted_kernel weigh block (λ c. c.taken)
counted_live = record {
  handles = counted_handles;
  feed_counts = λ c. refl;
  ioctl_counts = λ h cmd c. refl;
  malloc_counts = λ n c. refl;
  free_counts = λ p c le. refl;
}

abbrev flash_cfg : FlashCfg
flash_cfg = record { target_count = 4; swap_id = 3; swap_offset = 5; copy_buffer_size = 2 }

-- A weight of 3 is out before.
abbrev start : Instance Counted ℕ
start = hpatch_instance 0 0 2 5 0 idle (record { taken = 3; disk = disk })

backends-live_example :
    let ram =
      (hpatch_release counted_io counted_feed counted_kernel
        (ram_swap_ops counted_io 2)
        none
        patcher
        start).1 in
    let flash =
      (hpatch_release counted_io counted_feed counted_kernel
        (flash_swap_ops counted_io counted_feed flash_cfg)
        none
        patcher
        start).1 in
    ((ram.world.taken ≡ 3) × (ram.swap.ram_buf ≡ none))
    × ((flash.world.taken ≡ 3) × (flash.swap.ram_buf ≡ none))
unfolding hpatch_instance
backends-live_example = backends-live counted_live flash_cfg 2 none patcher start refl
