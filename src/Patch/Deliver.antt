-- ===== src/Patch/Deliver.antt =====
-- qbt_hpatchlite_release_from_part of algorithm/qboot_hpatchlite.c: what a success promises.
use rt_thread_qboot.Base.{
  ℕ, ◌+◌, ◌%◌, ◌≡◌, ◌≤◌, refl, ap, sym, ◌∙◌, Bool, true, Option, none, some, List, [], length, take,
  ltb, u32_mod, arith, Bool-cases, inl, inr, nil_of_length,
}
use rt_thread_qboot.Storage.{IoOps}
use rt_thread_qboot.Storage.Custom.{get_erase_align}
use rt_thread_qboot.Patch.{Swap, Instance, SwapOps, Kernel, pointee}
use rt_thread_qboot.Patch.Commit.{erase_aligned_range}
use rt_thread_qboot.Patch.Release.{
  Patcher, PatchResult, success, alloc_got, swap_alloc_buf, swap_free_buf, swap_inited,
  buf_allocated, sector_known, file_too_small, tail_sized, erase_tail, hpatch_release,
  hpatch_instance,
}
use rt_thread_qboot.Patch.Laws.{Aligns, OldPart, Around, SwapLaws}
use rt_thread_qboot.Patch.Erase.{Erased, erase_aligned_range-Erased}
use rt_thread_qboot.Patch.Handed.{Heeds, handed_over, at_start}
use rt_thread_qboot.Patch.Refine.{Holds, Delivered, Waiting, view, patch_and_commit-Delivered}

module _ {W H : Type 0} {io : IoOps W H} {wdt_feed : W → W} {kernel : Kernel W} {ops : SwapOps W H}
    {old : H} {content : W → List ℕ} {room sector : ℕ} {Ready : Swap H → W → Type 0}
    {buffered : Swap H → W → List ℕ} (part : OldPart io wdt_feed old content room)
    (aligns : Aligns kernel sector)
    (laws : SwapLaws io wdt_feed ops old content room Ready buffered)
    (around : Around io kernel content) (fits : room + sector ≤ u32_mod) (newer : ℕ) where
  abbrev HasImage : List ℕ → Instance W H → Type 0
  HasImage = Holds part aligns laws fits newer

  abbrev Ends : List ℕ → PatchResult × Instance W H → Type 0
  Ends = Delivered part aligns laws fits newer

  deinit-Holds :
      (bytes : List ℕ) (s : Instance W H) → HasImage bytes s → HasImage bytes (ops.deinit s)
  deinit-Holds bytes s holds =
      let (same, kept) = laws.deinit_keeps s in
      record {
        image = rw (kept.committed_len_kept, same) holds.image;
        size = holds.size ∙ sym kept.committed_len_kept;
        marked = omega (arith, kept.committed_len_kept, kept.erased_end_kept, holds.marked);
        is_old = kept.old_part_kept ∙ holds.is_old;
        is_newer = kept.newer_len_kept ∙ holds.is_newer;
      }

  free-Holds :
      (bytes : List ℕ) (s : Instance W H)
      → HasImage bytes s
      → HasImage bytes (swap_free_buf io wdt_feed kernel ops s)
  unfolding swap_free_buf
  free-Holds bytes s holds = record {
    image = rw (around.free_content s.swap.ram_buf s.world) holds.image;
    size = holds.size;
    marked = holds.marked;
    is_old = holds.is_old;
    is_newer = holds.is_newer;
  }

  -- An erase above the mark leaves the image alone.
  erase-Holds :
      (bytes : List ℕ) (start end : ℕ) (up : Bool) (s : Instance W H)
      → HasImage bytes s
      → HasImage bytes (erase_aligned_range io wdt_feed kernel start end up s).1
  erase-Holds bytes start end up s holds =
      let e : Erased content s (erase_aligned_range io wdt_feed kernel start end up s).1 =
        erase_aligned_range-Erased part kernel start end up s holds.is_old in
      record {
        image = rw (e.committed_same, e.before_mark s.committed_len holds.marked) holds.image;
        size = holds.size ∙ sym e.committed_same;
        marked = omega (arith, e.committed_same, e.mark_grows, holds.marked);
        is_old = e.old_same ∙ holds.is_old;
        is_newer = e.newer_same ∙ holds.is_newer;
      }

  sized-Holds :
      (bytes : List ℕ) (h : H) (s : Instance W H)
      → HasImage bytes s
      → HasImage bytes (record s { world = (io.size h s.world).1 })
  sized-Holds bytes h s holds = record {
    image = rw (around.size_content h s.world) holds.image;
    size = holds.size;
    marked = holds.marked;
    is_old = holds.is_old;
    is_newer = holds.is_newer;
  }

  tail_sized-Ends :
      (bytes : List ℕ) (s : Instance W H) (n : Option ℕ) (w : W)
      → HasImage bytes (record s { world = w })
      → Ends bytes (tail_sized io wdt_feed kernel ops s (n, w))
  unfolding tail_sized
  tail_sized-Ends bytes s none w holds = inr holds
  tail_sized-Ends bytes s (some part_len) w holds =
      let e =
        erase_aligned_range io wdt_feed kernel (s.newer_file_len % u32_mod) part_len true
          (record s { world = w }) in
      elim (Bool-cases (ltb s.newer_file_len part_len)) [
        | inr whole ↦ rw (whole, tail_sized) (inr holds)
        | inl smaller ↦
            rw (smaller, tail_sized)
              (inr (
                erase-Holds bytes (s.newer_file_len % u32_mod) part_len true
                  (record s { world = w }) holds))
      ]

  erase_tail-Ends :
      (bytes : List ℕ) (r : PatchResult × Instance W H)
      → Ends bytes r
      → Ends bytes (erase_tail io wdt_feed kernel ops r)
  unfolding erase_tail
  erase_tail-Ends bytes (success, s) (inl bad) = absurd (ground (arith, bad))
  erase_tail-Ends bytes (success, s) (inr holds) =
      tail_sized-Ends bytes s (io.size s.old_part s.world).0 (io.size s.old_part s.world).1
        (sized-Holds bytes s.old_part s holds)
  erase_tail-Ends bytes (r, s) ends = ends

  -- An instance that has committed nothing yet.
  record Fresh (s : Instance W H) : Type 0 where
    nothing : s.committed_len ≡ 0
    fresh_old : s.old_part ≡ old
    fresh_sector : s.old_part_sector_size ≡ sector
    fresh_newer : s.newer_file_len ≡ newer
    buf_size : length (pointee s.swap.ram_buf) ≡ ops.ram_buf_size

  init-Waiting :
      (s : Instance W H)
      → Fresh s
      → (ops.init s).0 ≡ true
      → let r = (ops.init s).1 in
        Waiting part aligns laws fits newer r × (view part aligns laws fits newer r ≡ [])
  init-Waiting s fresh ok =
      let r = (ops.init s).1 in
      let (ready, empty, kept) = laws.init_ready s fresh.buf_size ok in
      let none_yet : r.committed_len ≡ 0 = kept.committed_len_kept ∙ fresh.nothing in
      let drained =
        nil_of_length (buffered r.swap r.world)
          (laws.buffered_length r.swap r.world ready ∙ empty) in
      (
        record {
          good = record {
            ready = ready;
            is_old = kept.old_part_kept ∙ fresh.fresh_old;
            is_sector = kept.sector_kept ∙ fresh.fresh_sector;
            is_newer = kept.newer_len_kept ∙ fresh.fresh_newer;
            marked = omega (arith, none_yet);
            inside = omega (arith, none_yet);
            committed_length = rw none_yet refl;
          };
          has_room = omega (arith, empty, laws.capacity_some r.swap r.world ready);
        },
        rw (none_yet, drained) refl,
      )

  swap_inited-Ends :
      (p : Patcher) (got : Bool × Instance W H)
      → Heeds p
      → (got.0 ≡ true
          → Waiting part aligns laws fits newer got.1
            × (view part aligns laws fits newer got.1 ≡ []))
      → Ends (handed_over io wdt_feed kernel ops p got.1) (swap_inited io wdt_feed kernel ops p got)
  unfolding swap_inited
  swap_inited-Ends p got heeds started = elim (Bool-cases got.0) [
    | inr bad ↦ rw (bad, swap_inited) (inl refl)
    | inl ok ↦
        let bytes = handed_over io wdt_feed kernel ops p got.1 in
        let (waiting, empty) = started ok in
        let ends =
          patch_and_commit-Delivered part aligns laws fits newer p got.1 heeds waiting empty in
        rw (ok, swap_inited)
          (elim ends [ inl bad ↦ inl bad | inr holds ↦ inr (deinit-Holds bytes _ holds) ])
  ]

  alloc_got-Fresh :
      (s : Instance W H) (got : Option (List ℕ)) (w : W)
      → s.committed_len ≡ 0
      → s.old_part ≡ old
      → s.old_part_sector_size ≡ sector
      → s.newer_file_len ≡ newer
      → ((block : List ℕ) → got ≡ some block → length block ≡ ops.ram_buf_size)
      → (alloc_got io wdt_feed kernel ops s (got, w)).0 ≡ true
      → Fresh (alloc_got io wdt_feed kernel ops s (got, w)).1
  unfolding alloc_got
  alloc_got-Fresh s none w nothing is_old is_sector is_newer sized ok = absurd (ground (arith, ok))
  alloc_got-Fresh s (some block) w nothing is_old is_sector is_newer sized ok = record {
    nothing = nothing;
    fresh_old = is_old;
    fresh_sector = is_sector;
    fresh_newer = is_newer;
    buf_size = sized block refl;
  }

  buf_allocated-Ends :
      (p : Patcher) (got : Bool × Instance W H)
      → Heeds p
      → (got.0 ≡ true → Fresh got.1)
      → Ends
          (handed_over io wdt_feed kernel ops p (ops.init got.1).1)
          (buf_allocated io wdt_feed kernel ops p got)
  unfolding buf_allocated
  buf_allocated-Ends p got heeds allocated = elim (Bool-cases got.0) [
    | inr bad ↦ rw (bad, buf_allocated) (inl refl)
    | inl ok ↦
        rw (ok, buf_allocated)
          (swap_inited-Ends p (ops.init got.1) heeds (init-Waiting got.1 (allocated ok)))
  ]

  sector_known-Ends :
      (swap_file : Option ℕ) (p : Patcher) (patch_part : H) (patch_len offset : ℕ) (sw : Swap H)
      (w : W)
      → Heeds p
      → (io.ioctl old get_erase_align w).0 ≡ some sector
      → let s = hpatch_instance patch_part old patch_len newer offset sw w in
        Ends (handed_over io wdt_feed kernel ops p (at_start io wdt_feed kernel ops sector s)) (
          sector_known io wdt_feed kernel ops swap_file p s
            (io.ioctl s.old_part get_erase_align s.world))
  unfolding sector_known hpatch_instance swap_alloc_buf
  sector_known-Ends swap_file p patch_part patch_len offset sw w heeds answer =
      let asked : Instance W H =
        record (hpatch_instance patch_part old patch_len newer offset sw w) {
          old_part_sector_size = sector;
          world = (io.ioctl old get_erase_align w).1;
        } in
      let got = kernel.rt_malloc ops.ram_buf_size asked.world in
      let fresh =
        alloc_got-Fresh asked got.0 got.1 refl refl refl refl
          (λ block e. around.malloc_size ops.ram_buf_size block asked.world e) in
      let runs = buf_allocated-Ends p (swap_alloc_buf io wdt_feed kernel ops asked) heeds fresh in
      elim (Bool-cases (file_too_small io wdt_feed kernel ops swap_file sector)) [
        | inl small ↦ rw (answer, small, sector_known) (inl refl)
        | inr large ↦ rw (answer, large, sector_known) runs
      ]

  -- A release that reports success has left in the old partition exactly the bytes that the patcher
  -- handed over, and they are as many as the new image has. The patcher may read what it likes and
  -- hand over pieces of any size, but ends without success once a write has failed.
  pub hpatch_release-delivers :
      (swap_file : Option ℕ) (p : Patcher) (patch_part : H) (patch_len offset : ℕ) (sw : Swap H)
      (w : W)
      → Heeds p
      → (io.ioctl old get_erase_align w).0 ≡ some sector
      → let s = hpatch_instance patch_part old patch_len newer offset sw w in
        let bytes =
          handed_over io wdt_feed kernel ops p (at_start io wdt_feed kernel ops sector s) in
        (hpatch_release io wdt_feed kernel ops swap_file p s).0 ≡ true
        → (take newer (content (hpatch_release io wdt_feed kernel ops swap_file p s).1.world)
            ≡ bytes)
          × (length bytes ≡ newer)
  unfolding hpatch_release
  hpatch_release-delivers swap_file p patch_part patch_len offset sw w heeds answer ok =
      let s = hpatch_instance patch_part old patch_len newer offset sw w in
      let bytes = handed_over io wdt_feed kernel ops p (at_start io wdt_feed kernel ops sector s) in
      let r =
        sector_known io wdt_feed kernel ops swap_file p s
          (io.ioctl s.old_part get_erase_align s.world) in
      let r2 = erase_tail io wdt_feed kernel ops (r.0, swap_free_buf io wdt_feed kernel ops r.1) in
      let freed : Ends bytes (r.0, swap_free_buf io wdt_feed kernel ops r.1) =
        elim (sector_known-Ends swap_file p patch_part patch_len offset sw w heeds answer) [
          | inl bad ↦ inl bad
          | inr holds ↦ inr (free-Holds bytes r.1 holds)
        ] in
      elim (erase_tail-Ends bytes (r.0, swap_free_buf io wdt_feed kernel ops r.1) freed) [
        | inl bad ↦ absurd (ground (arith, bad, ok))
        | inr holds ↦
            let whole : r2.1.committed_len ≡ newer = ground (arith, ok, holds.is_newer) in
            (ap (λ n. take n (content r2.1.world)) (sym whole) ∙ holds.image, holds.size ∙ whole)
      ]
