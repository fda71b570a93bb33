-- ===== src/Patch.antt =====
-- algorithm/qboot_hpatchlite.c: the update of an image in place from a patch.
-- The patcher is a package: it is a parameter, a tree of the calls that it makes of the three listener
-- callbacks. The addresses and lengths that are `int` in C are natural numbers. The log and the counter
-- `progress_percent`, which only the log shows, are left out.
pub mod Ram
pub mod Backends
pub mod Flash
pub mod Commit
pub mod Release
pub mod Laws
pub mod Erase
pub mod Collect
pub mod Write
pub mod Handed
pub mod Refine
pub mod Deliver
pub mod Balance
pub mod OnFiles
use rt_thread_qboot.Base.{ℕ, Bool, Option, none, some, List, [], ◌++◌, length, take, drop, ◌+◌}

-- The state of `qbt_swap_t`. `none` is a null pointer.
pub record Swap (H : Type 0) : Type 0 where
  pub ram_buf : Option (List ℕ)
  pub write_pos : ℕ
  pub capacity : ℕ
  pub part : Option H
  pub part_size : ℕ

-- `hpatchi_instance_t`, and the state of everything outside.
pub record Instance (W H : Type 0) : Type 0 where
  pub patch_file_offset : ℕ
  pub patch_file_len : ℕ
  pub patch_read_pos : ℕ
  pub newer_file_len : ℕ
  pub newer_write_pos : ℕ
  pub patch_part : H
  pub old_part : H
  pub swap : Swap H
  pub committed_len : ℕ
  pub old_part_sector_size : ℕ
  pub old_part_erased_end : ℕ
  pub world : W

-- The functions of `qbt_swap_t`. A call returns whether it succeeded, and the instance.
pub record SwapOps (W H : Type 0) : Type 0 where
  pub ram_buf_size : ℕ
  pub init : Instance W H → Bool × Instance W H
  pub deinit : Instance W H → Instance W H
  pub append : List ℕ → Instance W H → Bool × Instance W H
  pub copy_to_old : ℕ → Instance W H → Bool × Instance W H
  pub reset : Instance W H → Bool × Instance W H

-- The kernel's memory and alignment: `rt_malloc`, `rt_free`, `RT_ALIGN` and `RT_ALIGN_DOWN`.
pub record Kernel (W : Type 0) : Type 0 where
  pub rt_malloc : ℕ → W → Option (List ℕ) × W
  pub rt_free : Option (List ℕ) → W → W
  pub rt_align : ℕ → ℕ → ℕ
  pub rt_align_down : ℕ → ℕ → ℕ

-- The bytes behind a pointer.
abbrev pub pointee : Option (List ℕ) → List ℕ
pointee none = []
pointee (some bytes) = bytes

-- `rt_memcpy` of `bytes` to `pos` of a buffer, as long as it fits.
abbrev pub copy_in : ℕ → List ℕ → List ℕ → List ℕ
copy_in pos bytes buf = take pos buf ++ bytes ++ drop (pos + length bytes) buf
