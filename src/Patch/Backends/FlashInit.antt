-- ===== src/Patch/Backends/FlashInit.antt =====
-- qbt_flash_swap_init of algorithm/qboot_hpatchlite.c.
use rt_thread_qboot.Base.{
  ℕ, ◌+◌, ◌-◌, ◌≡◌, ◌≤◌, ◌<◌, refl, ap, sym, ◌∙◌, true, some, List, ◌++◌, length, take, drop, slice,
  length-take, leb, sub32, sub32_le, arith, Bool-cases, Option-cases, inl, inr, drop-append,
  drop-take, Bool,
}
use mathlib.Core.Path.{subst}
use rt_thread_qboot.Storage.{IoOps, RtErr, is_eok, open_for_release}
use rt_thread_qboot.Storage.Targets.{
  Opened, refused, unsized, opened, sized, open_with, target_open,
}
use rt_thread_qboot.Patch.{Swap, Instance}
use rt_thread_qboot.Patch.Flash.{FlashCfg, erased_swap, swap_opened, with_swap, flash_swap_init}
use rt_thread_qboot.Patch.Laws.{OldPart, Kept}
use rt_thread_qboot.Patch.Backends.TwoParts.{TwoParts}

module _ {W H : Type 0} (cfg : FlashCfg) (sh : H) (area : W → List ℕ) (swap_size : ℕ) where
  -- The swap is open, and its area behind the offset is filled up to a position inside of it.
  pub record FlashReady (sw : Swap H) (w : W) : Type 0 where
    pub is_part : sw.part ≡ some sh
    pub is_capacity : cfg.swap_offset + sw.capacity ≡ swap_size
    pub is_part_size : sw.part_size ≡ sw.capacity
    pub some_room : 0 < sw.capacity
    pub inside : sw.write_pos ≤ sw.capacity

  abbrev pub flash_buffered : Swap H → W → List ℕ
  flash_buffered sw w = slice cfg.swap_offset sw.write_pos (area w)

-- What a write puts behind `off + n` bytes extends what stands behind the first `off`.
pub slice-written :
    (off n : ℕ) (bytes before after : List ℕ)
    → off + n ≤ length before
    → take (off + n + length bytes) after ≡ take (off + n) before ++ bytes
    → slice off (n + length bytes) after ≡ slice off n before ++ bytes
slice-written off n bytes before after fits e =
    let assoc : off + (n + length bytes) ≡ off + n + length bytes = omega arith in
    let inside : off ≤ length (take (off + n) before) =
      omega (arith, length-take (off + n) before, fits) in
    sym (drop-take off (n + length bytes) after)
    ∙ ap (λ k. drop off (take k after)) assoc
    ∙ ap (λ xs. drop off xs) e
    ∙ drop-append off (take (off + n) before) bytes inside
    ∙ ap (λ xs. xs ++ bytes) (drop-take off n before)

-- A target that was opened was handed out by the driver, with its size.
opened-known :
    {W H : Type 0} (io : IoOps W H) (id flags : ℕ) (w : W) (h : H) (n : ℕ)
    → (target_open io id flags true w).0 ≡ opened h n
    → ((io.open_target id flags w).0 ≡ some h)
      × ((io.size h (io.open_target id flags w).1).0 ≡ some n)
unfolding target_open open_with sized
opened-known io id flags w h n e =
    let w1 = (io.open_target id flags w).1 in
    elim (Option-cases (io.open_target id flags w).0) [
      | inl refuses ↦ absurd (ground (arith, refuses, e))
      | inr (h', got) ↦ elim (Option-cases (io.size h' w1).0) [
        | inl no_size ↦ absurd (ground (arith, got, no_size, e))
        | inr (m, is_m) ↦
            let same : opened h' m ≡ opened h n =
              rw (got, is_m, target_open, open_with, sized) at e in
            let is_h : h' ≡ h = cc in
            let is_n : m ≡ n = cc in
            (got ∙ ap some is_h, subst (λ k. (io.size k w1).0 ≡ some n) is_h (is_m ∙ ap some is_n))
      ]
    ]

module _ {W H : Type 0} {io : IoOps W H} {wdt_feed : W → W} (cfg : FlashCfg) {sh old : H}
    {content area : W → List ℕ} {room swap_size : ℕ} (part : OldPart io wdt_feed old content room)
    (two : TwoParts io wdt_feed cfg.swap_id sh old content area swap_size) where
  abbrev pub Filled : Swap H → W → Type 0
  Filled = FlashReady cfg sh area swap_size

  -- What an init that succeeds has brought about.
  abbrev pub Inits : Instance W H → Bool × Instance W H → Type 0
  Inits s r =
      r.0 ≡ true
      → Filled r.1.swap r.1.world
        × (r.1.swap.write_pos ≡ 0)
        × Kept (record s { swap = r.1.swap }) r.1

  pub unchanged :
      (s : Instance W H) (sw : Swap H) (w : W)
      → sw.capacity ≡ s.swap.capacity
      → Kept s (record s { swap = sw; world = w })
  unchanged s sw w same = record {
    committed_len_kept = refl;
    erased_end_kept = refl;
    sector_kept = refl;
    old_part_kept = refl;
    newer_len_kept = refl;
    capacity_kept = same;
  }

  erased_swap-Inits :
      (got : RtErr × W) (s s' : Instance W H)
      → cfg.swap_offset + s'.swap.capacity ≡ swap_size
      → 0 < s'.swap.capacity
      → s'.swap.part ≡ some sh
      → s'.swap.part_size ≡ s'.swap.capacity
      → Kept (record s { swap = s'.swap }) s'
      → Inits s (erased_swap io wdt_feed cfg sh got s')
  unfolding erased_swap
  erased_swap-Inits got s s' capacity some_room is_part part_size kept =
      elim (Bool-cases (is_eok got.0)) [
        | inr bad ↦ rw (bad, erased_swap) (λ ok. absurd (ground arith))
        | inl good ↦
            rw (good, erased_swap)
              (λ ok. (
                record {
                  is_part = is_part;
                  is_capacity = capacity;
                  is_part_size = part_size;
                  some_room = some_room;
                  inside = omega arith;
                },
                refl,
                record {
                  committed_len_kept = kept.committed_len_kept;
                  erased_end_kept = kept.erased_end_kept;
                  sector_kept = kept.sector_kept;
                  old_part_kept = kept.old_part_kept;
                  newer_len_kept = kept.newer_len_kept;
                  capacity_kept = refl;
                },
              ))
      ]

  swap_opened-Inits :
      (s : Instance W H) (w : W)
      → Inits s (swap_opened io wdt_feed cfg sh swap_size (record s { world = w }))
  unfolding swap_opened
  swap_opened-Inits s w = elim (Bool-cases (leb swap_size cfg.swap_offset)) [
    | inl outside ↦ rw (outside, swap_opened) (λ ok. absurd (ground arith))
    | inr fits ↦
        let inside : cfg.swap_offset < swap_size = ground (arith, fits) in
        let capacity : sub32 swap_size cfg.swap_offset ≡ swap_size - cfg.swap_offset =
          sub32_le swap_size cfg.swap_offset (omega arith) two.size_small in
        rw (fits, swap_opened)
          (erased_swap-Inits _ s _ (omega (arith, capacity, inside))
            (omega (arith, capacity, inside)) refl refl
            (unchanged
              (record s {
                swap = record s.swap {
                  part = some sh;
                  part_size = sub32 swap_size cfg.swap_offset;
                  capacity = sub32 swap_size cfg.swap_offset;
                };
              })
              _ w refl))
  ]

  with_swap-Inits :
      (s : Instance W H) (o : Opened H) (w : W)
      → ((h : H) (n : ℕ) → o ≡ opened h n → (h ≡ sh) × (n ≡ swap_size))
      → Inits s (with_swap io wdt_feed cfg s (o, w))
  unfolding with_swap
  with_swap-Inits s refused w known = λ ok. absurd (ground arith)
  with_swap-Inits s (unsized h) w known = λ ok. absurd (ground arith)
  with_swap-Inits s (opened h n) w known =
      let (is_sh, is_size) = known h n refl in
      subst (λ k. Inits s (swap_opened io wdt_feed cfg k n (record s { world = w }))) (sym is_sh)
        (subst (λ m. Inits s (swap_opened io wdt_feed cfg sh m (record s { world = w })))
          (sym is_size) (swap_opened-Inits s w))

  pub flash_swap_init-Inits : (s : Instance W H) → Inits s (flash_swap_init io wdt_feed cfg s)
  unfolding flash_swap_init
  flash_swap_init-Inits s = elim (Bool-cases (leb cfg.target_count cfg.swap_id)) [
    | inl no_target ↦ rw (no_target, flash_swap_init) (λ ok. absurd (ground arith))
    | inr is_target ↦
        let got = target_open io cfg.swap_id open_for_release true s.world in
        rw (is_target, flash_swap_init)
          (with_swap-Inits s got.0 got.1 (λ h n e.
            let (opens, size) = opened-known io cfg.swap_id open_for_release s.world h n e in
            let is_sh = two.opens_swap open_for_release h s.world opens in
            (
              is_sh,
              two.size_swap n (io.open_target cfg.swap_id open_for_release s.world).1 (
                  subst
                    (λ k.
                      (io.size k (io.open_target cfg.swap_id open_for_release s.world).1).0
                      ≡ some n)
                    is_sh size),
            )))
  ]
