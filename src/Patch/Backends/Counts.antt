-- ===== src/Patch/Backends/Counts.antt =====
-- What the two swap backends of algorithm/qboot_hpatchlite.c take, they give back.
use rt_thread_qboot.Base.{
  ℕ, suc, ◌+◌, ◌≡◌, refl, ap, ◌∙◌, Bool, true, Option, none, some, List, leb, if◌then◌else◌, sub32,
  arith, Bool-cases, inl, inr, while_keeps,
}
use rt_thread_qboot.Storage.{IoOps, RtErr, is_eok, open_for_release}
use rt_thread_qboot.Storage.Targets.{
  Opened, refused, unsized, opened, target_open, target_close, erase_with_feed,
}
use rt_thread_qboot.Storage.Frame.{weight_of}
use rt_thread_qboot.Patch.Balance.{block_of}
use rt_thread_qboot.Storage.Counts.{Fits, target_open-Fits, target_close-count}
use rt_thread_qboot.Patch.{Swap, Instance, Kernel}
use rt_thread_qboot.Patch.Ram.{
  ram_swap_init, ram_copy_to_old, ram_swap_append, ram_swap_reset, ram_swap_ops,
}
use rt_thread_qboot.Patch.Flash.{
  FlashCfg, erased_swap, swap_opened, with_swap, flash_swap_init, flash_swap_deinit, Copying,
  chunk_size, put_chunk, get_chunk, copy_round, copy_test, flash_copy_to_old, append_to,
  flash_swap_append, reset_to, flash_swap_reset, flash_swap_ops,
}
use rt_thread_qboot.Patch.Release.{Patcher, hpatch_release}
use rt_thread_qboot.Patch.Balance.{LiveCount, Holding, SwapCount}
use rt_thread_qboot.Patch.Balance.Writes.{erase_with_feed-live}
use rt_thread_qboot.Patch.Balance.Release.{hpatch_release-live}

module _ {W H : Type 0} {io : IoOps W H} {wdt_feed : W → W} {kernel : Kernel W} {weigh : H → ℕ}
    {block : ℕ} {live : W → ℕ} (count : LiveCount io wdt_feed kernel weigh block live) where
  ram-count : (size : ℕ) → SwapCount (ram_swap_ops io size) block live (λ sw. 0)
  unfolding ram_swap_init ram_copy_to_old ram_swap_append ram_swap_reset
  ram-count size = record {
    init_takes = λ s. omega arith;
    init_buf = λ s. refl;
    deinit_gives = λ s le. omega arith;
    deinit_buf = λ s. refl;
    append_holds = λ total handles bytes s holds. record {
      is_live = holds.is_live;
      has_buf = refl;
      is_held = holds.is_held;
    };
    copy_holds = λ total handles n s holds. record {
      is_live = count.handles.write_counts s.old_part s.committed_len _ s.world ∙ holds.is_live;
      has_buf = holds.has_buf;
      is_held = holds.is_held;
    };
    reset_holds = λ total handles s holds. record {
      is_live = holds.is_live;
      has_buf = holds.has_buf;
      is_held = holds.is_held;
    };
  }

  module _ (cfg : FlashCfg) where
    abbrev held : Swap H → ℕ
    held sw = weight_of weigh sw.part

    abbrev FlashHolds : ℕ → ℕ → Instance W H → Type 0
    FlashHolds = Holding block live held

    -- What an init of the swap from `base` on does to the count.
    abbrev Takes : ℕ → Option (List ℕ) → Bool × Instance W H → Type 0
    Takes base buf r =
        (live r.1.world ≡ base + (if r.0 then held r.1.swap else 0)) × (r.1.swap.ram_buf ≡ buf)

    erased_swap-Takes :
        (base : ℕ) (h : H) (rst : RtErr) (w : W) (s : Instance W H)
        → live w ≡ base + weigh h
        → s.swap.part ≡ some h
        → Takes base s.swap.ram_buf (erased_swap io wdt_feed cfg h (rst, w) s)
    unfolding erased_swap target_close
    erased_swap-Takes base h rst w s one is_part = elim (Bool-cases (is_eok rst)) [
      | inl ok ↦
          let counts : held s.swap ≡ weigh h = ap (weight_of weigh) is_part in
          rw (ok, erased_swap) (omega (arith, one, counts), refl)
      | inr bad ↦
          rw (bad, erased_swap)
            (omega (arith, count.handles.close_counts h w (omega (arith, one)), one), refl)
    ]

    swap_opened-Takes :
        (base : ℕ) (h : H) (n : ℕ) (s : Instance W H)
        → live s.world ≡ base + weigh h
        → Takes base s.swap.ram_buf (swap_opened io wdt_feed cfg h n s)
    unfolding swap_opened target_close
    swap_opened-Takes base h n s one = elim (Bool-cases (leb n cfg.swap_offset)) [
      | inl outside ↦
          rw (outside, swap_opened)
            (omega (arith, count.handles.close_counts h s.world (omega (arith, one)), one), refl)
      | inr fits ↦
          let size = sub32 n cfg.swap_offset in
          let got = erase_with_feed io wdt_feed h cfg.swap_offset size s.world in
          let same = erase_with_feed-live count h cfg.swap_offset size s.world in
          rw (fits, swap_opened)
            (erased_swap-Takes base h got.0 got.1 _ (omega (arith, same, one)) refl)
    ]

    with_swap-Takes :
        (base : ℕ) (s : Instance W H) (o : Opened H) (w : W)
        → Fits weigh base o (live w)
        → Takes base s.swap.ram_buf (with_swap io wdt_feed cfg s (o, w))
    unfolding with_swap
    with_swap-Takes base s refused w fits = (omega (arith, fits), refl)
    with_swap-Takes base s (unsized h) w fits = (omega (arith, fits), refl)
    with_swap-Takes base s (opened h n) w fits =
        swap_opened-Takes base h n (record s { world = w }) fits

    flash_swap_init-Takes :
        (s : Instance W H) → Takes (live s.world) s.swap.ram_buf (flash_swap_init io wdt_feed cfg s)
    unfolding flash_swap_init
    flash_swap_init-Takes s = elim (Bool-cases (leb cfg.target_count cfg.swap_id)) [
      | inl no_target ↦ rw (no_target, flash_swap_init) (omega arith, refl)
      | inr is_target ↦
          let got = target_open io cfg.swap_id open_for_release true s.world in
          rw (is_target, flash_swap_init)
            (with_swap-Takes (live s.world) s got.0 got.1 (
              target_open-Fits weigh live count.handles (live s.world) cfg.swap_id open_for_release
                s.world refl))
    ]

    -- A state whose world counts alike and whose swap has the same part, and a buffer.
    counted-FlashHolds :
        (total handles : ℕ) (s s' : Instance W H)
        → live s'.world ≡ live s.world
        → block_of block s'.swap.ram_buf ≡ block
        → s'.swap.part ≡ s.swap.part
        → FlashHolds total handles s
        → FlashHolds total handles s'
    counted-FlashHolds total handles s s' same buf same_part holds = record {
      is_live = same ∙ holds.is_live;
      has_buf = buf;
      is_held = ap (weight_of weigh) same_part ∙ holds.is_held;
    }

    put_chunk-FlashHolds :
        (total handles n : ℕ) (c : Copying io wdt_feed cfg) (got : Option (List ℕ)) (w : W)
        → live w ≡ live c.inst.world
        → FlashHolds total handles c.inst
        → FlashHolds total handles (put_chunk io wdt_feed cfg c n (got, w)).inst
    unfolding put_chunk
    put_chunk-FlashHolds total handles n c none w same holds =
        counted-FlashHolds total handles c.inst _ same holds.has_buf refl holds
    put_chunk-FlashHolds total handles n c (some bytes) w same holds =
        let written = count.handles.write_counts c.inst.old_part c.dst_offset bytes w ∙ same in
        elim (Bool-cases (is_eok (io.write c.inst.old_part c.dst_offset bytes w).0)) [
          | inl ok ↦
              rw (ok, put_chunk) (counted-FlashHolds total handles c.inst _ written refl refl holds)
          | inr bad ↦
              rw (bad, put_chunk)
                (counted-FlashHolds total handles c.inst _ written refl refl holds)
        ]

    get_chunk-live :
        (c : Copying io wdt_feed cfg) (n : ℕ) (part : Option H)
        → live (get_chunk io wdt_feed cfg c n part).1 ≡ live c.inst.world
    unfolding get_chunk
    get_chunk-live c n none = refl
    get_chunk-live c n (some h) = count.handles.read_counts h c.src_offset n c.inst.world

    copy_round-FlashHolds :
        (total handles : ℕ) (c : Copying io wdt_feed cfg)
        → FlashHolds total handles c.inst
        → FlashHolds total handles (copy_round io wdt_feed cfg c).inst
    unfolding copy_round
    copy_round-FlashHolds total handles c holds =
        let n = chunk_size io wdt_feed cfg c.remaining_len in
        let got = get_chunk io wdt_feed cfg c n c.inst.swap.part in
        put_chunk-FlashHolds total handles n c got.0 got.1 (get_chunk-live c n c.inst.swap.part)
          holds

    flash_copy_to_old-FlashHolds :
        (total handles size : ℕ) (s : Instance W H)
        → FlashHolds total handles s
        → FlashHolds total handles (flash_copy_to_old io wdt_feed cfg size s).1
    unfolding flash_copy_to_old
    flash_copy_to_old-FlashHolds total handles size s holds =
        while_keeps (λ c. FlashHolds total handles c.inst) (copy_test io wdt_feed cfg)
          (copy_round io wdt_feed cfg) (λ c inv test. copy_round-FlashHolds total handles c inv)
          (suc size) _ holds

    append_to-FlashHolds :
        (total handles : ℕ) (bytes : List ℕ) (s : Instance W H) (part : Option H)
        → FlashHolds total handles s
        → FlashHolds total handles (append_to io wdt_feed cfg bytes s part).1
    unfolding append_to
    append_to-FlashHolds total handles bytes s none holds = holds
    append_to-FlashHolds total handles bytes s (some h) holds =
        let off = cfg.swap_offset + s.swap.write_pos in
        let same = count.handles.write_counts h off bytes s.world in
        elim (Bool-cases (is_eok (io.write h off bytes s.world).0)) [
          | inl ok ↦
              rw (ok, append_to)
                (counted-FlashHolds total handles s _ same holds.has_buf refl holds)
          | inr bad ↦
              rw (bad, append_to)
                (counted-FlashHolds total handles s _ same holds.has_buf refl holds)
        ]

    reset_to-FlashHolds :
        (total handles : ℕ) (s : Instance W H) (part : Option H)
        → FlashHolds total handles s
        → FlashHolds total handles (reset_to io wdt_feed cfg s part).1
    unfolding reset_to
    reset_to-FlashHolds total handles s none holds = holds
    reset_to-FlashHolds total handles s (some h) holds =
        let size = s.swap.part_size in
        let same = erase_with_feed-live count h cfg.swap_offset size s.world in
        elim (Bool-cases (is_eok (erase_with_feed io wdt_feed h cfg.swap_offset size s.world).0)) [
          | inl ok ↦
              rw (ok, reset_to) (counted-FlashHolds total handles s _ same holds.has_buf refl holds)
          | inr bad ↦
              rw (bad, reset_to)
                (counted-FlashHolds total handles s _ same holds.has_buf refl holds)
        ]

    flash-count : SwapCount (flash_swap_ops io wdt_feed cfg) block live held
    unfolding flash_swap_deinit flash_swap_append flash_swap_reset
    flash-count = record {
      init_takes = λ s. (flash_swap_init-Takes s).0;
      init_buf = λ s. (flash_swap_init-Takes s).1;
      deinit_gives = λ s le. target_close-count weigh live count.handles s.swap.part s.world le;
      deinit_buf = λ s. refl;
      append_holds = λ total handles bytes s holds.
          append_to-FlashHolds total handles bytes s s.swap.part holds;
      copy_holds = λ total handles n s holds. flash_copy_to_old-FlashHolds total handles n s holds;
      reset_holds = λ total handles s holds. reset_to-FlashHolds total handles s s.swap.part holds;
    }

    -- Let an open and an allocation add a handle and a block to those that are taken, let a close and a
    -- free of what is taken give it back, and let nothing else do either. Then with either swap backend a
    -- release that starts without a pointer to a buffer gives back each block and each handle that it has
    -- taken, once each and no other one, and leaves no such pointer behind, whether it succeeds or fails
    -- at any step, a size query included, and whatever the patcher does.
    pub backends-live :
        (size : ℕ) (swap_file : Option ℕ) (p : Patcher) (s : Instance W H)
        → s.swap.ram_buf ≡ none
        → let ram = (hpatch_release io wdt_feed kernel (ram_swap_ops io size) swap_file p s).1 in
          let flash =
            (hpatch_release io wdt_feed kernel (flash_swap_ops io wdt_feed cfg) swap_file p s).1 in
          ((live ram.world ≡ live s.world) × (ram.swap.ram_buf ≡ none))
          × ((live flash.world ≡ live s.world) × (flash.swap.ram_buf ≡ none))
    backends-live size swap_file p s no_buf = (
      hpatch_release-live count (ram-count size) swap_file p s no_buf,
      hpatch_release-live count flash-count swap_file p s no_buf,
    )
