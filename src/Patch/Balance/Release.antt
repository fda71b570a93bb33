-- ===== src/Patch/Balance/Release.antt =====
-- The blocks of memory and the handles over qbt_hpatchlite_release_from_part
-- (algorithm/qboot_hpatchlite.c).
use rt_thread_qboot.Base.{
  ℕ, ◌+◌, ◌≡◌, refl, ap, ◌∙◌, true, Option, none, some, List, ltb, u32_mod, ◌%◌, arith, Bool-cases,
  inl, inr,
}
use rt_thread_qboot.Storage.{IoOps}
use rt_thread_qboot.Patch.Balance.{block_of}
use rt_thread_qboot.Storage.Custom.{get_erase_align}
use rt_thread_qboot.Patch.{Swap, Instance, SwapOps, Kernel}
use rt_thread_qboot.Patch.Release.{
  Patcher, PatchResult, success, alloc_got, swap_alloc_buf, swap_free_buf, patch_and_commit,
  swap_inited, buf_allocated, sector_known, file_too_small, tail_sized, erase_tail, hpatch_release,
}
use rt_thread_qboot.Patch.Balance.{LiveCount, SwapCount}
use rt_thread_qboot.Patch.Balance.Writes.{erase-live}
use rt_thread_qboot.Patch.Balance.Run.{patch_and_commit-Holds}

module _ {W H : Type 0} {io : IoOps W H} {wdt_feed : W → W} {kernel : Kernel W} {ops : SwapOps W H}
    {weigh : H → ℕ} {block : ℕ} {live : W → ℕ} {held : Swap H → ℕ}
    (count : LiveCount io wdt_feed kernel weigh block live) (swap : SwapCount ops block live held)
    (base : ℕ) where
  -- Nothing is live but what was live before, and the swap's buffer.
  abbrev Accounted : Instance W H → Type 0
  Accounted s = live s.world ≡ base + block_of block s.swap.ram_buf

  swap_inited-Accounted :
      (p : Patcher) (s : Instance W H)
      → Accounted s
      → block_of block s.swap.ram_buf ≡ block
      → Accounted (swap_inited io wdt_feed kernel ops p (ops.init s)).1
  unfolding swap_inited
  swap_inited-Accounted p s before has_buf =
      let r = ops.init s in
      let h = held r.1.swap in
      let buf : block_of block r.1.swap.ram_buf ≡ block =
        ap (block_of block) (swap.init_buf s) ∙ has_buf in
      let takes = swap.init_takes s in
      elim (Bool-cases r.0) [
        | inr bad ↦ rw (bad, swap_inited) (ground (arith, bad, takes, buf, before, has_buf))
        | inl ok ↦
            let total : live r.1.world ≡ base + block + h =
              ground (arith, ok, takes, before, has_buf) in
            let end = (patch_and_commit io wdt_feed kernel ops p r.1).1 in
            let holds =
              patch_and_commit-Holds count swap (base + block + h) h p r.1
                (record { is_live = total; has_buf = buf; is_held = refl }) in
            let gives = swap.deinit_gives end (omega (arith, holds.is_live, holds.is_held)) in
            let kept : block_of block (ops.deinit end).swap.ram_buf ≡ block =
              ap (block_of block) (swap.deinit_buf end) ∙ holds.has_buf in
            rw (ok, swap_inited) (omega (arith, gives, kept, holds.is_live, holds.is_held))
      ]

  buf_allocated-Accounted :
      (p : Patcher) (s : Instance W H) (got : Option (List ℕ)) (w : W)
      → live w ≡ base + block_of block got
      → Accounted
          (buf_allocated io wdt_feed kernel ops p (alloc_got io wdt_feed kernel ops s (got, w))).1
  unfolding buf_allocated alloc_got
  buf_allocated-Accounted p s none w counted = counted
  buf_allocated-Accounted p s (some got) w counted =
      swap_inited-Accounted p (record s { swap = record s.swap { ram_buf = some got }; world = w })
        counted refl

  sector_known-Accounted :
      (swap_file : Option ℕ) (p : Patcher) (s : Instance W H) (sector : Option ℕ) (w : W)
      → s.swap.ram_buf ≡ none
      → live w ≡ base
      → Accounted (sector_known io wdt_feed kernel ops swap_file p s (sector, w)).1
  unfolding sector_known swap_alloc_buf
  sector_known-Accounted swap_file p s none w no_buf same =
      let free : block_of block s.swap.ram_buf ≡ 0 = ap (block_of block) no_buf in
      omega (arith, free, same)
  sector_known-Accounted swap_file p s (some sector) w no_buf same =
      let free : block_of block s.swap.ram_buf ≡ 0 = ap (block_of block) no_buf in
      let asked : Instance W H = record s { old_part_sector_size = sector; world = w } in
      let got = kernel.rt_malloc ops.ram_buf_size w in
      let counted : live got.1 ≡ base + block_of block got.0 =
        omega (arith, count.malloc_counts ops.ram_buf_size w, same) in
      elim (Bool-cases (file_too_small io wdt_feed kernel ops swap_file sector)) [
        | inl small ↦ rw (small, sector_known) (omega (arith, free, same))
        | inr large ↦ rw (large, sector_known) (buf_allocated-Accounted p asked got.0 got.1 counted)
      ]

  tail_sized-live :
      (s : Instance W H) (n : Option ℕ) (w : W)
      → live w ≡ live s.world
      → let r = (tail_sized io wdt_feed kernel ops s (n, w)).1 in
        (live r.world ≡ live s.world) × (r.swap ≡ s.swap)
  unfolding tail_sized
  tail_sized-live s none w same = (same, refl)
  tail_sized-live s (some part_len) w same =
      let s1 : Instance W H = record s { world = w } in
      let (erased, same_swap) = erase-live count (s.newer_file_len % u32_mod) part_len true s1 in
      elim (Bool-cases (ltb s.newer_file_len part_len)) [
        | inr whole ↦ rw (whole, tail_sized) (same, refl)
        | inl smaller ↦ rw (smaller, tail_sized) (erased ∙ same, same_swap)
      ]

  erase_tail-live :
      (r : PatchResult) (s : Instance W H)
      → let r' = (erase_tail io wdt_feed kernel ops (r, s)).1 in
        (live r'.world ≡ live s.world) × (r'.swap ≡ s.swap)
  unfolding erase_tail
  erase_tail-live success s =
      tail_sized-live s (io.size s.old_part s.world).0 (io.size s.old_part s.world).1
        (count.handles.size_counts s.old_part s.world)
  erase_tail-live r s = (refl, refl)

module _ {W H : Type 0} {io : IoOps W H} {wdt_feed : W → W} {kernel : Kernel W} {ops : SwapOps W H}
    {weigh : H → ℕ} {block : ℕ} {live : W → ℕ} {held : Swap H → ℕ}
    (count : LiveCount io wdt_feed kernel weigh block live)
    (swap : SwapCount ops block live held) where
  -- A release gives back every block of memory and every handle that it has taken, whether it succeeds
  -- or fails at any step, whatever the patcher does, and leaves no pointer to the buffer behind. It
  -- starts without such a pointer.
  pub hpatch_release-live :
      (swap_file : Option ℕ) (p : Patcher) (s : Instance W H)
      → s.swap.ram_buf ≡ none
      → let r = (hpatch_release io wdt_feed kernel ops swap_file p s).1 in
        (live r.world ≡ live s.world) × (r.swap.ram_buf ≡ none)
  unfolding hpatch_release swap_free_buf
  hpatch_release-live swap_file p s no_buf =
      let asked = io.ioctl s.old_part get_erase_align s.world in
      let r = sector_known io wdt_feed kernel ops swap_file p s asked in
      let counted =
        sector_known-Accounted count swap (live s.world) swap_file p s asked.0 asked.1 no_buf
          (count.ioctl_counts s.old_part get_erase_align s.world) in
      let (same, same_swap) =
        erase_tail-live count swap (live s.world) r.0 (swap_free_buf io wdt_feed kernel ops r.1) in
      let freed = count.free_counts r.1.swap.ram_buf r.1.world (omega (arith, counted)) in
      (omega (arith, same, freed, counted), ap (λ sw. sw.ram_buf) same_swap)
