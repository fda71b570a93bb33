-- ===== src/Patch/Collect.antt =====
-- qbt_swap_commit and _do_write_new of algorithm/qboot_hpatchlite.c on any swap backend that keeps its
-- contract: nothing that was collected is lost.
use rt_thread_qboot.Base.{
  ℕ, ◌+◌, ◌%◌, ◌≡◌, ◌≤◌, ◌<◌, refl, ap, sym, ◌∙◌, Bool, true, false, List, [], ◌++◌, append-nil,
  length, take, length-append, ◌==◌, u32_mod, arith, Bool-cases, inl, inr, nil_of_length,
}
use mathlib.Core.Path.{subst}
use rt_thread_qboot.Storage.{IoOps, is_eok}
use rt_thread_qboot.Storage.Targets.{erase_with_feed}
use rt_thread_qboot.Patch.{Swap, Instance, SwapOps, Kernel}
use rt_thread_qboot.Patch.Commit.{erased_range, erase_aligned_range, swap_commit}
use rt_thread_qboot.Patch.Laws.{Aligns, OldPart, SwapLaws}
use rt_thread_qboot.Patch.Erase.{
  Erased, erase_aligned_range-cases, erase_aligned_range-Erased, erase_aligned_range-covers,
}

module _ {W H : Type 0} {io : IoOps W H} {wdt_feed : W → W} {kernel : Kernel W} {ops : SwapOps W H}
    {old : H} {content : W → List ℕ} {room sector : ℕ} {Ready : Swap H → W → Type 0}
    {buffered : Swap H → W → List ℕ} (part : OldPart io wdt_feed old content room)
    (aligns : Aligns kernel sector)
    (laws : SwapLaws io wdt_feed ops old content room Ready buffered)
    (fits : room + sector ≤ u32_mod) (newer : ℕ) where
  -- The state between two calls: what was committed lies below the mark of what is erased.
  pub record Good (s : Instance W H) : Type 0 where
    pub ready : Ready s.swap s.world
    pub is_old : s.old_part ≡ old
    pub is_sector : s.old_part_sector_size ≡ sector
    pub is_newer : s.newer_file_len ≡ newer
    pub marked : s.committed_len ≤ s.old_part_erased_end
    pub inside : s.committed_len ≤ room
    pub committed_length : length (take s.committed_len (content s.world)) ≡ s.committed_len

  -- The abstract view: the new image as far as it was handed over, wherever it is kept.
  abbrev pub collected : Instance W H → List ℕ
  collected s = take s.committed_len (content s.world) ++ buffered s.swap s.world

  erased_range-Ready :
      (off len erase_end : ℕ) (s : Instance W H)
      → s.old_part ≡ old
      → Ready s.swap s.world
      → let r =
          (erased_range io wdt_feed kernel erase_end
            (erase_with_feed io wdt_feed s.old_part off len s.world)
            s).1 in
        Ready r.swap r.world × (buffered r.swap r.world ≡ buffered s.swap s.world)
  unfolding erased_range
  erased_range-Ready off len erase_end s is_old ready =
      elim (Bool-cases (is_eok (erase_with_feed io wdt_feed s.old_part off len s.world).0)) [
        | inl ok ↦ rw (ok, erased_range, is_old) (laws.erase_apart off len s.swap s.world ready)
        | inr bad ↦ rw (bad, erased_range, is_old) (laws.erase_apart off len s.swap s.world ready)
      ]

  erase-Ready :
      (start end : ℕ) (up : Bool) (s : Instance W H)
      → s.old_part ≡ old
      → Ready s.swap s.world
      → let r = (erase_aligned_range io wdt_feed kernel start end up s).1 in
        Ready r.swap r.world × (buffered r.swap r.world ≡ buffered s.swap s.world)
  erase-Ready start end up s is_old ready =
      erase_aligned_range-cases io wdt_feed kernel
        (λ r. Ready r.1.swap r.1.world × (buffered r.1.swap r.1.world ≡ buffered s.swap s.world))
        start end up s (ready, refl)
        (λ off len erase_end above grows. erased_range-Ready off len erase_end s is_old ready)

  -- The erase before a commit.
  erase-Good :
      (start end : ℕ) (up : Bool) (s : Instance W H)
      → Good s
      → let r = (erase_aligned_range io wdt_feed kernel start end up s).1 in
        Good r × (collected r ≡ collected s)
  erase-Good start end up s good =
      let r = (erase_aligned_range io wdt_feed kernel start end up s).1 in
      let e : Erased content s r =
        erase_aligned_range-Erased part kernel start end up s good.is_old in
      let (ready, same) = erase-Ready start end up s good.is_old good.ready in
      let kept : take r.committed_len (content r.world) ≡ take s.committed_len (content s.world) =
        rw (e.committed_same, e.before_mark s.committed_len good.marked) refl in
      (
        record {
          ready = ready;
          is_old = e.old_same ∙ good.is_old;
          is_sector = e.sector_same ∙ good.is_sector;
          is_newer = e.newer_same ∙ good.is_newer;
          marked = omega (arith, e.mark_grows, e.committed_same, good.marked);
          inside = omega (arith, e.committed_same, good.inside);
          committed_length = ap length kept ∙ good.committed_length ∙ sym e.committed_same;
        },
        rw (kept, same) refl,
      )

  -- The rest of a commit of `used` bytes, after the erase.
  abbrev counted : ℕ → Instance W H → Instance W H
  counted used s =
      let s2 = (ops.copy_to_old used s).1 in record s2 { committed_len = s2.committed_len + used }

  -- A copy and a reset that succeed keep what was collected.
  abbrev Commits : ℕ → Instance W H → Type 0
  Commits used s =
      (ops.copy_to_old used s).0 ≡ true
      → (ops.reset (counted used s)).0 ≡ true
      → (s.committed_len + used ≤ room → s.committed_len + used ≤ s.old_part_erased_end)
      → Good (ops.reset (counted used s)).1
        × (collected (ops.reset (counted used s)).1 ≡ collected s)
        × ((ops.reset (counted used s)).1.swap.write_pos ≡ 0)
        × ((ops.reset (counted used s)).1.swap.capacity ≡ s.swap.capacity)

  copy-Commits : (s : Instance W H) → Good s → Commits s.swap.write_pos s
  copy-Commits s good copied cleared erased =
      let s2 = (ops.copy_to_old s.swap.write_pos s).1 in
      let s3 = counted s.swap.write_pos s in
      let s4 = (ops.reset s3).1 in
      let (ready2, puts, fits_room, kept2) =
        laws.copy_puts s good.ready good.is_old good.inside copied in
      let (ready4, empty, same, kept4) = laws.reset_clears s3 ready2 cleared in
      let len : s4.committed_len ≡ s.committed_len + s.swap.write_pos =
        omega (arith, kept4.committed_len_kept, kept2.committed_len_kept) in
      let image : take s4.committed_len (content s4.world) ≡ collected s =
        rw (len, same, puts) refl in
      let no_more : buffered s4.swap s4.world ≡ [] =
        nil_of_length (buffered s4.swap s4.world)
          (laws.buffered_length s4.swap s4.world ready4 ∙ empty) in
      let buf_len = laws.buffered_length s.swap s.world good.ready in
      let image_len : length (take s4.committed_len (content s4.world)) ≡ s4.committed_len =
        ap length image
        ∙ length-append (take s.committed_len (content s.world)) (buffered s.swap s.world)
        ∙ omega (arith, good.committed_length, buf_len, len) in
      (
        record {
          ready = ready4;
          is_old = kept4.old_part_kept ∙ kept2.old_part_kept ∙ good.is_old;
          is_sector = kept4.sector_kept ∙ kept2.sector_kept ∙ good.is_sector;
          is_newer = kept4.newer_len_kept ∙ kept2.newer_len_kept ∙ good.is_newer;
          marked =
              omega (arith, erased fits_room, kept4.erased_end_kept, kept2.erased_end_kept, len);
          inside = omega (arith, len, fits_room);
          committed_length = image_len;
        },
        ap (λ xs. take s4.committed_len (content s4.world) ++ xs) no_more ∙ append-nil _ ∙ image,
        empty,
        kept4.capacity_kept ∙ kept2.capacity_kept,
      )

  -- The erase of a commit inside of the partition reaches its end.
  commit-marked :
      (s : Instance W H)
      → Good s
      → let e =
          erase_aligned_range io wdt_feed kernel
            (s.committed_len % u32_mod)
            ((s.committed_len + s.swap.write_pos) % u32_mod)
            false
            s in
        e.0 ≡ true
        → s.committed_len + s.swap.write_pos ≤ room
        → e.1.committed_len ≡ s.committed_len
        → ((s.swap.write_pos == 0) ≡ false)
        → e.1.committed_len + s.swap.write_pos ≤ e.1.old_part_erased_end
  commit-marked s good erased inside same some_bytes =
      let sector_some : 0 < sector = aligns.sector_some in
      let start : s.committed_len % u32_mod ≡ s.committed_len = omega (arith, fits) in
      let end : (s.committed_len + s.swap.write_pos) % u32_mod
          ≡ s.committed_len + s.swap.write_pos =
        omega (arith, fits) in
      let aligned = subst (λ n. Aligns kernel n) (sym good.is_sector) aligns in
      omega (
        arith,
        same,
        end,
        erase_aligned_range-covers io wdt_feed kernel (s.committed_len % u32_mod)
            ((s.committed_len + s.swap.write_pos) % u32_mod) s aligned
            (ground (arith, start, end, some_bytes)) (omega (arith, end, fits, good.is_sector))
            erased,
      )

  -- A commit that succeeds moves the buffer to the old partition: the collected bytes stay the same.
  pub swap_commit-Good :
      (s : Instance W H)
      → Good s
      → (swap_commit io wdt_feed kernel ops s).0 ≡ true
      → let r = (swap_commit io wdt_feed kernel ops s).1 in
        Good r
        × (collected r ≡ collected s)
        × (r.swap.write_pos ≡ 0)
        × (r.swap.capacity ≡ s.swap.capacity)
  unfolding swap_commit
  swap_commit-Good s good ok = elim (Bool-cases (s.swap.write_pos == 0)) [
    | inl nothing ↦ rw (nothing, swap_commit) (good, refl, ground arith, refl)
    | inr some_bytes ↦
        let used = s.swap.write_pos in
        let start = s.committed_len % u32_mod in
        let end = (s.committed_len + used) % u32_mod in
        let e = erase_aligned_range io wdt_feed kernel start end false s in
        let s1 = e.1 in
        let erased : e.0 ≡ true = ground (arith, ok, some_bytes) in
        let copied : (ops.copy_to_old used s1).0 ≡ true = ground (arith, ok, some_bytes, erased) in
        let cleared : (ops.reset (counted used s1)).0 ≡ true =
          ground (arith, ok, some_bytes, erased, copied) in
        let was : Erased content s s1 =
          erase_aligned_range-Erased part kernel start end false s good.is_old in
        let (good1, same) = erase-Good start end false s good in
        let commits : Commits used s1 =
          subst (λ sw. Commits sw.write_pos s1) was.swap_same (copy-Commits s1 good1) in
        let covers : s1.committed_len + used ≤ room
            → s1.committed_len + used ≤ s1.old_part_erased_end =
          λ inside.
            commit-marked s good erased (omega (arith, inside, was.committed_same))
              was.committed_same some_bytes in
        let (good4, view, empty, capacity) = commits copied cleared covers in
        rw (some_bytes, erased, copied, swap_commit)
          (good4, view ∙ same, empty, capacity ∙ ap (λ sw. sw.capacity) was.swap_same)
  ]
