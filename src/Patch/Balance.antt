-- ===== src/Patch/Balance.antt =====
-- The blocks of memory and the open handles of qbt_hpatchlite_release_from_part
-- (algorithm/qboot_hpatchlite.c).
pub mod Writes
pub mod Run
pub mod Release
use rt_thread_qboot.Base.{ℕ, ◌+◌, ◌-◌, ◌≡◌, ◌≤◌, Option, List, if◌then◌else◌}
use rt_thread_qboot.Storage.{IoOps}
use rt_thread_qboot.Storage.Frame.{HandleCount, weight_of}
use rt_thread_qboot.Patch.{Swap, Instance, SwapOps, Kernel}

-- The weight of a block of memory, and 0 for a null pointer.
abbrev pub block_of : ℕ → Option (List ℕ) → ℕ
block_of block = weight_of (λ bytes. block)

-- `live` counts the open handles, each with its weight, and the blocks of memory, each with the weight
-- `block`. Nothing is known of a call that frees more than there is.
pub record LiveCount {W H : Type 0} (io : IoOps W H) (wdt_feed : W → W) (kernel : Kernel W)
    (weigh : H → ℕ) (block : ℕ) (live : W → ℕ) : Type 0 where
  pub handles : HandleCount io weigh live
  pub feed_counts : (w : W) → live (wdt_feed w) ≡ live w
  pub ioctl_counts : (h : H) (cmd : ℕ) (w : W) → live (io.ioctl h cmd w).1 ≡ live w
  pub malloc_counts :
      (n : ℕ) (w : W)
      → live (kernel.rt_malloc n w).1 ≡ live w + block_of block (kernel.rt_malloc n w).0
  pub free_counts :
      (p : Option (List ℕ)) (w : W)
      → block_of block p ≤ live w
      → live (kernel.rt_free p w) ≡ live w - block_of block p

-- The state while the patcher runs: what is live, the swap's buffer, and the weight of what the swap holds.
pub record Holding {W H : Type 0} (block : ℕ) (live : W → ℕ) (held : Swap H → ℕ) (total handles : ℕ)
    (s : Instance W H) : Type 0 where
  pub is_live : live s.world ≡ total
  pub has_buf : block_of block s.swap.ram_buf ≡ block
  pub is_held : held s.swap ≡ handles

-- What a swap backend takes and gives back: `held` is the weight of the handles that it holds after an init
-- that succeeded.
pub record SwapCount {W H : Type 0} (ops : SwapOps W H) (block : ℕ) (live : W → ℕ)
    (held : Swap H → ℕ) : Type 0 where
  pub init_takes :
      (s : Instance W H)
      → live (ops.init s).1.world
        ≡ live s.world + (if (ops.init s).0 then held (ops.init s).1.swap else 0)
  pub init_buf : (s : Instance W H) → (ops.init s).1.swap.ram_buf ≡ s.swap.ram_buf
  pub deinit_gives :
      (s : Instance W H)
      → held s.swap ≤ live s.world
      → live (ops.deinit s).world ≡ live s.world - held s.swap
  pub deinit_buf : (s : Instance W H) → (ops.deinit s).swap.ram_buf ≡ s.swap.ram_buf
  pub append_holds :
      (total handles : ℕ) (bytes : List ℕ) (s : Instance W H)
      → Holding block live held total handles s
      → Holding block live held total handles (ops.append bytes s).1
  pub copy_holds :
      (total handles n : ℕ) (s : Instance W H)
      → Holding block live held total handles s
      → Holding block live held total handles (ops.copy_to_old n s).1
  pub reset_holds :
      (total handles : ℕ) (s : Instance W H)
      → Holding block live held total handles s
      → Holding block live held total handles (ops.reset s).1
