-- ===== src/Patch/Backends/TwoParts.antt =====
-- The old partition and the swap target of algorithm/qboot_hpatchlite.c side by side.
use rt_thread_qboot.Base.{ℕ, ◌+◌, ◌≡◌, ◌<◌, true, some, List, ◌++◌, length, take, slice, u32_mod}
use rt_thread_qboot.Storage.{IoOps, is_eok}

-- Two partitions: `content` is what the old one holds, `area` the swap's `swap_size` bytes. A read of
-- the swap that succeeds finds what it holds, a write that succeeds puts its bytes behind what stands
-- before their place, and what is done to one partition leaves the other alone. Only the handle `sh`
-- is given out for the swap.
pub record TwoParts {W H : Type 0} (io : IoOps W H) (wdt_feed : W → W) (swap_id : ℕ) (sh old : H)
    (content area : W → List ℕ) (swap_size : ℕ) : Type 0 where
  pub opens_swap :
      (flags : ℕ) (h : H) (w : W) → (io.open_target swap_id flags w).0 ≡ some h → h ≡ sh
  pub size_swap : (n : ℕ) (w : W) → (io.size sh w).0 ≡ some n → n ≡ swap_size
  pub size_small : swap_size < u32_mod
  pub area_size : (w : W) → length (area w) ≡ swap_size
  pub reads_swap :
      (off len : ℕ) (bytes : List ℕ) (w : W)
      → (io.read sh off len w).0 ≡ some bytes
      → bytes ≡ slice off len (area w)
  pub writes_swap :
      (off : ℕ) (bytes : List ℕ) (w : W)
      → is_eok (io.write sh off bytes w).0 ≡ true
      → take (off + length bytes) (area (io.write sh off bytes w).1) ≡ take off (area w) ++ bytes
  pub read_area : (h : H) (off len : ℕ) (w : W) → area (io.read h off len w).1 ≡ area w
  pub old_write_area :
      (off : ℕ) (bytes : List ℕ) (w : W) → area (io.write old off bytes w).1 ≡ area w
  pub old_erase_area : (off len : ℕ) (w : W) → area (io.erase old off len w).1 ≡ area w
  pub feed_area : (w : W) → area (wdt_feed w) ≡ area w
  pub swap_write_content :
      (off : ℕ) (bytes : List ℕ) (w : W) → content (io.write sh off bytes w).1 ≡ content w
  pub swap_erase_content : (off len : ℕ) (w : W) → content (io.erase sh off len w).1 ≡ content w
  pub close_content : (h : H) (w : W) → content (io.close h w).1 ≡ content w
