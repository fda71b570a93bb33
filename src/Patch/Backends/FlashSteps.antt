-- ===== src/Patch/Backends/FlashSteps.antt =====
-- The functions of the swap backend in a storage target, qbt_flash_swap_append and qbt_flash_swap_reset of
-- algorithm/qboot_hpatchlite.c.
use rt_thread_qboot.Base.{
  ℕ, ◌+◌, ◌≡◌, ◌≤◌, refl, ◌∙◌, true, Option, none, some, List, ◌++◌, length, arith, Bool-cases, inl,
  inr, Bool,
}
use rt_thread_qboot.Storage.{IoOps, is_eok}
use rt_thread_qboot.Storage.Targets.{target_close, erase_with_feed}
use rt_thread_qboot.Patch.{Swap, Instance}
use rt_thread_qboot.Patch.Flash.{FlashCfg, append_to, reset_to}
use rt_thread_qboot.Patch.Laws.{OldPart, Kept}
use rt_thread_qboot.Patch.Backends.TwoParts.{TwoParts}
use rt_thread_qboot.Patch.Backends.FlashInit.{flash_buffered, slice-written, Filled, unchanged}

module _ {W H : Type 0} {io : IoOps W H} {wdt_feed : W → W} (cfg : FlashCfg) {sh old : H}
    {content area : W → List ℕ} {room swap_size : ℕ} (part : OldPart io wdt_feed old content room)
    (two : TwoParts io wdt_feed cfg.swap_id sh old content area swap_size) where
  -- What an append that succeeds has brought about.
  abbrev pub Appends : List ℕ → Instance W H → Bool × Instance W H → Type 0
  Appends bytes s r =
      r.0 ≡ true
      → Filled cfg part two r.1.swap r.1.world
        × (flash_buffered cfg sh area swap_size r.1.swap r.1.world
            ≡ flash_buffered cfg sh area swap_size s.swap s.world ++ bytes)
        × (content r.1.world ≡ content s.world)
        × Kept s r.1

  pub append_to-Appends :
      (bytes : List ℕ) (s : Instance W H)
      → Filled cfg part two s.swap s.world
      → s.swap.write_pos + length bytes ≤ s.swap.capacity
      → Appends bytes s (append_to io wdt_feed cfg bytes s (some sh))
  unfolding append_to
  append_to-Appends bytes s ready room_left =
      let off = cfg.swap_offset + s.swap.write_pos in
      let w' = (io.write sh off bytes s.world).1 in
      elim (Bool-cases (is_eok (io.write sh off bytes s.world).0)) [
        | inr bad ↦ rw (bad, append_to) (λ ok. absurd (ground arith))
        | inl good ↦
            rw (good, append_to)
              (λ ok. (
                record {
                  is_part = ready.is_part;
                  is_capacity = ready.is_capacity;
                  is_part_size = ready.is_part_size;
                  some_room = ready.some_room;
                  inside = room_left;
                },
                slice-written cfg.swap_offset s.swap.write_pos bytes (area s.world) (area w')
                    (omega (arith, two.area_size s.world, ready.is_capacity, ready.inside))
                    (two.writes_swap off bytes s.world good),
                two.swap_write_content off bytes s.world,
                unchanged cfg part two s _ w' refl,
              ))
      ]

  -- What a reset that succeeds has brought about.
  abbrev pub Resets : Instance W H → Bool × Instance W H → Type 0
  Resets s r =
      r.0 ≡ true
      → Filled cfg part two r.1.swap r.1.world
        × (r.1.swap.write_pos ≡ 0)
        × (content r.1.world ≡ content s.world)
        × Kept s r.1

  pub swap_erase-content :
      (off len : ℕ) (w : W) → content (erase_with_feed io wdt_feed sh off len w).1 ≡ content w
  unfolding erase_with_feed
  swap_erase-content off len w =
      part.feed_content (io.erase sh off len (wdt_feed w)).1
      ∙ two.swap_erase_content off len (wdt_feed w)
      ∙ part.feed_content w

  pub reset_to-Resets :
      (s : Instance W H)
      → Filled cfg part two s.swap s.world
      → Resets s (reset_to io wdt_feed cfg s (some sh))
  unfolding reset_to
  reset_to-Resets s ready =
      let got = erase_with_feed io wdt_feed sh cfg.swap_offset s.swap.part_size s.world in
      elim (Bool-cases (is_eok got.0)) [
        | inr bad ↦ rw (bad, reset_to) (λ ok. absurd (ground arith))
        | inl good ↦
            rw (good, reset_to)
              (λ ok. (
                record {
                  is_part = ready.is_part;
                  is_capacity = ready.is_capacity;
                  is_part_size = ready.is_part_size;
                  some_room = ready.some_room;
                  inside = omega arith;
                },
                refl,
                swap_erase-content cfg.swap_offset s.swap.part_size s.world,
                unchanged cfg part two s _ got.1 refl,
              ))
      ]

  pub old_erase-area :
      (off len : ℕ) (w : W) → area (erase_with_feed io wdt_feed old off len w).1 ≡ area w
  unfolding erase_with_feed
  old_erase-area off len w =
      two.feed_area (io.erase old off len (wdt_feed w)).1
      ∙ two.old_erase_area off len (wdt_feed w)
      ∙ two.feed_area w

  pub close-content : (o : Option H) (w : W) → content (target_close io o w) ≡ content w
  unfolding target_close
  close-content none w = refl
  close-content (some h) w = two.close_content h w

  pub Filled-moved : (sw : Swap H) (w w' : W) → Filled cfg part two sw w → Filled cfg part two sw w'
  Filled-moved sw w w' ready = record {
    is_part = ready.is_part;
    is_capacity = ready.is_capacity;
    is_part_size = ready.is_part_size;
    some_room = ready.some_room;
    inside = ready.inside;
  }
