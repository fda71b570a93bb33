-- ===== src/Patch/Backends/RamLaws.antt =====
-- The swap backend in RAM of algorithm/qboot_hpatchlite.c keeps its contract.
use rt_thread_qboot.Base.{
  ℕ, ◌+◌, ◌≡◌, ◌≤◌, ◌<◌, refl, ap, sym, ◌∙◌, true, Option, some, List, ◌++◌, length, take, drop,
  length-append, length-take, length-drop, take-append, u32_mod, arith,
}
use mathlib.Core.Path.{subst}
use rt_thread_qboot.Storage.{IoOps}
use rt_thread_qboot.Storage.Custom.{get_erase_align}
use rt_thread_qboot.Patch.{Swap, Instance, Kernel, pointee, copy_in}
use rt_thread_qboot.Patch.Ram.{
  ram_swap_init, ram_copy_to_old, ram_swap_append, ram_swap_reset, ram_swap_ops,
}
use rt_thread_qboot.Patch.Release.{Patcher, hpatch_release, hpatch_instance}
use rt_thread_qboot.Patch.Laws.{Aligns, OldPart, Around, Kept, SwapLaws}
use rt_thread_qboot.Patch.Handed.{Heeds, handed_over, at_start}
use rt_thread_qboot.Patch.Deliver.{hpatch_release-delivers}

pub length-copy_in :
    (pos : ℕ) (bytes buf : List ℕ)
    → pos + length bytes ≤ length buf
    → length (copy_in pos bytes buf) ≡ length buf
length-copy_in pos bytes buf fits = omega (
  arith,
  length-append (take pos buf ++ bytes) (drop (pos + length bytes) buf),
  length-append (take pos buf) bytes,
  length-take pos buf,
  length-drop (pos + length bytes) buf,
)

pub take-copy_in :
    (pos : ℕ) (bytes buf : List ℕ)
    → pos + length bytes ≤ length buf
    → take (pos + length bytes) (copy_in pos bytes buf) ≡ take pos buf ++ bytes
take-copy_in pos bytes buf fits =
    take-append (pos + length bytes) (take pos buf ++ bytes) (drop (pos + length bytes) buf)
      (omega (arith, length-append (take pos buf) bytes, length-take pos buf))

module _ {W H : Type 0} (size : ℕ) where
  -- The buffer is as large as was asked for, and filled up to a position inside of it.
  pub record RamReady (sw : Swap H) (w : W) : Type 0 where
    has_size : length (pointee sw.ram_buf) ≡ size
    is_capacity : sw.capacity ≡ size
    inside : sw.write_pos ≤ size

  abbrev pub ram_buffered : Swap H → W → List ℕ
  ram_buffered sw w = take sw.write_pos (pointee sw.ram_buf)

  RamReady-moved : (sw : Swap H) (w w' : W) → RamReady sw w → RamReady sw w'
  RamReady-moved sw w w' ready = record {
    has_size = ready.has_size;
    is_capacity = ready.is_capacity;
    inside = ready.inside;
  }

  unchanged :
      (s : Instance W H) (sw : Swap H) (w : W)
      → sw.capacity ≡ s.swap.capacity
      → Kept s (record s { swap = sw; world = w })
  unchanged s sw w same = record {
    committed_len_kept = refl;
    erased_end_kept = refl;
    sector_kept = refl;
    old_part_kept = refl;
    newer_len_kept = refl;
    capacity_kept = same;
  }

module _ {W H : Type 0} {io : IoOps W H} {wdt_feed : W → W} {old : H} {content : W → List ℕ}
    {room : ℕ} (part : OldPart io wdt_feed old content room) (size : ℕ) (some_room : 0 < size)
    (small : size < u32_mod) where
  pub ram-laws :
      SwapLaws io wdt_feed
        (ram_swap_ops io size)
        old
        content
        room
        (RamReady size)
        (ram_buffered size)
  unfolding ram_swap_init ram_copy_to_old ram_swap_append ram_swap_reset
  ram-laws = record {
    capacity_some = λ sw w ready. omega (arith, ready.is_capacity);
    capacity_small = λ sw w ready. omega (arith, ready.is_capacity);
    pos_inside = λ sw w ready. omega (arith, ready.is_capacity, ready.inside);
    buffered_length = λ sw w ready.
        omega (arith, length-take sw.write_pos (pointee sw.ram_buf), ready.has_size, ready.inside);
    init_ready = λ s sized ok. (
      record { has_size = sized; is_capacity = refl; inside = omega arith },
      refl,
      unchanged size (record s { swap = (ram_swap_init size s).1.swap }) _ s.world refl,
    );
    deinit_keeps = λ s. (refl, unchanged size s s.swap s.world refl);
    append_puts = λ bytes s ready room_left ok.
        let fits : s.swap.write_pos + length bytes ≤ length (pointee s.swap.ram_buf) =
          omega (arith, room_left, ready.has_size, ready.is_capacity) in
        (
          record {
            has_size =
                length-copy_in s.swap.write_pos bytes (pointee s.swap.ram_buf) fits
                ∙ ready.has_size;
            is_capacity = ready.is_capacity;
            inside = omega (arith, fits, ready.has_size);
          },
          take-copy_in s.swap.write_pos bytes (pointee s.swap.ram_buf) fits,
          refl,
          unchanged size s _ s.world refl,
        );
    copy_puts = λ s ready is_old dst_inside ok.
        let bytes = take s.swap.write_pos (pointee s.swap.ram_buf) in
        let len : length bytes ≡ s.swap.write_pos = omega (
          arith,
          length-take s.swap.write_pos (pointee s.swap.ram_buf),
          ready.has_size,
          ready.inside,
        ) in
        let here = subst (λ h. OldPart io wdt_feed h content room) (sym is_old) part in
        let w = (io.write s.old_part s.committed_len bytes s.world).1 in
        (
          RamReady-moved size s.swap s.world w ready,
          ap (λ n. take (s.committed_len + n) (content w)) (sym len)
              ∙ here.write_puts s.committed_len bytes s.world ok,
          omega (arith, len, here.write_fits s.committed_len bytes s.world ok),
          unchanged size s s.swap w refl,
        );
    reset_clears = λ s ready ok. (
      record { has_size = ready.has_size; is_capacity = ready.is_capacity; inside = omega arith },
      refl,
      refl,
      unchanged size s _ s.world refl,
    );
    erase_apart = λ off len sw w ready. (RamReady-moved size sw w _ ready, refl);
    read_apart = λ h off len sw w ready. (RamReady-moved size sw w _ ready, refl);
  }

  -- A patch that is released with the buffer in RAM and reports success has left in the old partition
  -- exactly the bytes that the patcher handed over, and they are as many as the new image has. The
  -- buffer may have any size but 0, and the pieces any size; the patcher gives up after a failed write.
  pub ram_release-delivers :
      (kernel : Kernel W)
      → Around io kernel content
      → (sector : ℕ) → Aligns kernel sector
      → room + sector ≤ u32_mod
      → (swap_file : Option ℕ) (p : Patcher) (patch_part : H) (patch_len newer offset : ℕ)
        (sw : Swap H) (w : W)
      → Heeds p
      → (io.ioctl old get_erase_align w).0 ≡ some sector
      → let ops = ram_swap_ops io size in
        let s = hpatch_instance patch_part old patch_len newer offset sw w in
        let bytes =
          handed_over io wdt_feed kernel ops p (at_start io wdt_feed kernel ops sector s) in
        (hpatch_release io wdt_feed kernel ops swap_file p s).0 ≡ true
        → (take newer (content (hpatch_release io wdt_feed kernel ops swap_file p s).1.world)
            ≡ bytes)
          × (length bytes ≡ newer)
  ram_release-delivers kernel around sector aligns fits swap_file p patch_part patch_len newer
        offset sw w heeds answer ok =
      hpatch_release-delivers part aligns ram-laws around fits newer swap_file p patch_part
        patch_len offset sw w heeds answer ok
