-- ===== src/Patch/Laws.antt =====
-- What a swap backend of algorithm/qboot_hpatchlite.c promises to the code that collects and commits,
-- and what the storage promises of the old partition.
use rt_thread_qboot.Base.{
  ℕ, ◌+◌, ◌*◌, ◌-◌, ◌/◌, ◌≡◌, ◌≤◌, ◌<◌, true, Option, some, List, ◌++◌, length, take, u32_mod,
}
use rt_thread_qboot.Storage.{IoOps, is_eok}
use rt_thread_qboot.Storage.Targets.{erase_with_feed}
use rt_thread_qboot.Patch.{Swap, Instance, SwapOps, Kernel, pointee}

-- The kernel's alignment on one sector size, where it does not overflow. (The kernel's macros do this
-- for powers of two.)
pub record Aligns {W : Type 0} (kernel : Kernel W) (sector : ℕ) : Type 0 where
  pub sector_some : 0 < sector
  pub align_up :
      (x : ℕ) → x + sector ≤ u32_mod → kernel.rt_align x sector ≡ (x + sector - 1) / sector * sector
  pub align_small : (x : ℕ) → kernel.rt_align x sector < u32_mod
  pub align_down : (x : ℕ) → x < u32_mod → kernel.rt_align_down x sector ≡ x / sector * sector

-- The old partition holds `content` and has `room` bytes. A write that succeeds fits and puts its bytes
-- behind what stands before their place; an erase leaves alone what stands before it.
pub record OldPart {W H : Type 0} (io : IoOps W H) (wdt_feed : W → W) (old : H)
    (content : W → List ℕ) (room : ℕ) : Type 0 where
  pub write_puts :
      (off : ℕ) (bytes : List ℕ) (w : W)
      → is_eok (io.write old off bytes w).0 ≡ true
      → take (off + length bytes) (content (io.write old off bytes w).1)
        ≡ take off (content w) ++ bytes
  pub write_fits :
      (off : ℕ) (bytes : List ℕ) (w : W)
      → is_eok (io.write old off bytes w).0 ≡ true
      → off + length bytes ≤ room
  pub erase_before :
      (off len n : ℕ) (w : W)
      → n ≤ off
      → take n (content (io.erase old off len w).1) ≡ take n (content w)
  pub read_content : (h : H) (off len : ℕ) (w : W) → content (io.read h off len w).1 ≡ content w
  pub feed_content : (w : W) → content (wdt_feed w) ≡ content w

-- The rest of what a release relies on: a block of memory has the size that was asked for, and giving it
-- back or asking for the size of a partition changes no content.
pub record Around {W H : Type 0} (io : IoOps W H) (kernel : Kernel W) (content : W → List ℕ)
    : Type 0 where
  pub malloc_size :
      (n : ℕ) (block : List ℕ) (w : W) → (kernel.rt_malloc n w).0 ≡ some block → length block ≡ n
  pub free_content : (p : Option (List ℕ)) (w : W) → content (kernel.rt_free p w) ≡ content w
  pub size_content : (h : H) (w : W) → content (io.size h w).1 ≡ content w

-- What the swap backend leaves alone in an instance.
pub record Kept {W H : Type 0} (s s' : Instance W H) : Type 0 where
  pub committed_len_kept : s'.committed_len ≡ s.committed_len
  pub erased_end_kept : s'.old_part_erased_end ≡ s.old_part_erased_end
  pub sector_kept : s'.old_part_sector_size ≡ s.old_part_sector_size
  pub old_part_kept : s'.old_part ≡ s.old_part
  pub newer_len_kept : s'.newer_file_len ≡ s.newer_file_len
  pub capacity_kept : s'.swap.capacity ≡ s.swap.capacity

-- The contract of a swap backend: it is `Ready` in some of its states, in which it holds the bytes
-- `buffered`. Each function is bound where it succeeds.
pub record SwapLaws {W H : Type 0} (io : IoOps W H) (wdt_feed : W → W) (ops : SwapOps W H) (old : H)
    (content : W → List ℕ) (room : ℕ) (Ready : Swap H → W → Type 0) (buffered : Swap H → W → List ℕ)
    : Type 0 where
  pub capacity_some : (sw : Swap H) (w : W) → Ready sw w → 0 < sw.capacity
  pub capacity_small : (sw : Swap H) (w : W) → Ready sw w → sw.capacity < u32_mod
  pub pos_inside : (sw : Swap H) (w : W) → Ready sw w → sw.write_pos ≤ sw.capacity
  pub buffered_length : (sw : Swap H) (w : W) → Ready sw w → length (buffered sw w) ≡ sw.write_pos
  pub init_ready :
      (s : Instance W H)
      → length (pointee s.swap.ram_buf) ≡ ops.ram_buf_size
      → (ops.init s).0 ≡ true
      → Ready (ops.init s).1.swap (ops.init s).1.world
        × ((ops.init s).1.swap.write_pos ≡ 0)
        × Kept (record s { swap = (ops.init s).1.swap }) (ops.init s).1
  pub deinit_keeps :
      (s : Instance W H)
      → (content (ops.deinit s).world ≡ content s.world)
        × Kept (record s { swap = (ops.deinit s).swap }) (ops.deinit s)
  pub append_puts :
      (bytes : List ℕ) (s : Instance W H)
      → Ready s.swap s.world
      → s.swap.write_pos + length bytes ≤ s.swap.capacity
      → (ops.append bytes s).0 ≡ true
      → Ready (ops.append bytes s).1.swap (ops.append bytes s).1.world
        × (buffered (ops.append bytes s).1.swap (ops.append bytes s).1.world
            ≡ buffered s.swap s.world ++ bytes)
        × (content (ops.append bytes s).1.world ≡ content s.world)
        × Kept s (ops.append bytes s).1
  pub copy_puts :
      (s : Instance W H)
      → Ready s.swap s.world
      → s.old_part ≡ old
      → s.committed_len ≤ room
      → (ops.copy_to_old s.swap.write_pos s).0 ≡ true
      → Ready
          (ops.copy_to_old s.swap.write_pos s).1.swap
          (ops.copy_to_old s.swap.write_pos s).1.world
        × (take
              (s.committed_len + s.swap.write_pos)
              (content (ops.copy_to_old s.swap.write_pos s).1.world)
            ≡ take s.committed_len (content s.world) ++ buffered s.swap s.world)
        × (s.committed_len + s.swap.write_pos ≤ room)
        × Kept s (ops.copy_to_old s.swap.write_pos s).1
  pub reset_clears :
      (s : Instance W H)
      → Ready s.swap s.world
      → (ops.reset s).0 ≡ true
      → Ready (ops.reset s).1.swap (ops.reset s).1.world
        × ((ops.reset s).1.swap.write_pos ≡ 0)
        × (content (ops.reset s).1.world ≡ content s.world)
        × Kept s (ops.reset s).1
  pub erase_apart :
      (off len : ℕ) (sw : Swap H) (w : W)
      → Ready sw w
      → Ready sw (erase_with_feed io wdt_feed old off len w).1
        × (buffered sw (erase_with_feed io wdt_feed old off len w).1 ≡ buffered sw w)
  pub read_apart :
      (h : H) (off len : ℕ) (sw : Swap H) (w : W)
      → Ready sw w
      → Ready sw (io.read h off len w).1 × (buffered sw (io.read h off len w).1 ≡ buffered sw w)
