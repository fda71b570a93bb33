-- ===== src/Patch/Backends/FlashCopy.antt =====
-- The copy from the swap target to the old partition, qbt_flash_copy_to_old of
-- algorithm/qboot_hpatchlite.c.
use rt_thread_qboot.Base.{
  ℕ, suc, ◌+◌, ◌-◌, ◌≡◌, ◌≤◌, ◌<◌, ◌⊎◌, refl, ap, sym, ◌∙◌, true, false, Option, none, some, List,
  ◌++◌, append_assoc, append-nil, length, take, drop, slice, append-slice, length-take, length-drop,
  if◌then◌else◌, arith, Bool-cases, inl, inr, while, while_inv,
}
use mathlib.Core.Path.{subst}
use rt_thread_qboot.Storage.{IoOps, is_eok}
use rt_thread_qboot.Patch.{Instance}
use rt_thread_qboot.Patch.Flash.{
  FlashCfg, Copying, chunk_size, put_chunk, get_chunk, copy_round, copy_test, flash_copy_to_old,
}
use rt_thread_qboot.Patch.Laws.{OldPart, Kept}
use rt_thread_qboot.Patch.Backends.TwoParts.{TwoParts}

chunk_size-bounds :
    {W H : Type 0} (io : IoOps W H) (wdt_feed : W → W) (cfg : FlashCfg)
    → 0 < cfg.copy_buffer_size
    → (n : ℕ) → 0 < n
    → (0 < chunk_size io wdt_feed cfg n) × (chunk_size io wdt_feed cfg n ≤ n)
unfolding chunk_size
chunk_size-bounds io wdt_feed cfg has_buf n some_left = ground arith

module _ {W H : Type 0} {io : IoOps W H} {wdt_feed : W → W} (cfg : FlashCfg) {sh old : H}
    {content area : W → List ℕ} {room swap_size : ℕ} (part : OldPart io wdt_feed old content room)
    (two : TwoParts io wdt_feed cfg.swap_id sh old content area swap_size)
    (has_buf : 0 < cfg.copy_buffer_size) (size : ℕ) (s : Instance W H) (is_old : s.old_part ≡ old)
    (is_part : s.swap.part ≡ some sh) (inside : cfg.swap_offset + size ≤ swap_size)
    (dst_inside : s.committed_len ≤ room) where
  -- What was copied so far is a copy.
  record Copied (c : Copying io wdt_feed cfg) : Type 0 where
    bound : c.remaining_len ≤ size
    src_at : c.src_offset + c.remaining_len ≡ cfg.swap_offset + size
    dst_at : c.dst_offset + c.remaining_len ≡ s.committed_len + size
    copied :
        take c.dst_offset (content c.inst.world)
        ≡ take s.committed_len (content s.world)
          ++ slice cfg.swap_offset (size - c.remaining_len) (area s.world)
    fits_room : c.dst_offset ≤ room
    same_area : area c.inst.world ≡ area s.world
    same_part : c.inst.swap.part ≡ s.swap.part
    same_pos : c.inst.swap.write_pos ≡ s.swap.write_pos
    same_part_size : c.inst.swap.part_size ≡ s.swap.part_size
    kept : Kept s c.inst

  abbrev CopyInv : Copying io wdt_feed cfg → Type 0
  CopyInv c = (c.failed ≡ true) ⊎ Copied c

  abbrev to_copy : Copying io wdt_feed cfg → ℕ
  to_copy c = if c.failed then 0 else c.remaining_len

  put_chunk-Round :
      (c : Copying io wdt_feed cfg) (n : ℕ) (got : Option (List ℕ)) (w : W)
      → Copied c
      → c.failed ≡ false
      → 0 < n
      → n ≤ c.remaining_len
      → ((bytes : List ℕ) → got ≡ some bytes → bytes ≡ slice c.src_offset n (area s.world))
      → area w ≡ area s.world
      → content w ≡ content c.inst.world
      → CopyInv (put_chunk io wdt_feed cfg c n (got, w))
        × (to_copy (put_chunk io wdt_feed cfg c n (got, w)) < to_copy c)
  unfolding put_chunk
  put_chunk-Round c n none w inv live some_bytes takes reads same_area same_content =
      (inl refl, ground (arith, live))
  put_chunk-Round c n (some bytes) w inv live some_bytes takes reads same_area same_content =
      let writes_old = sym (inv.kept.old_part_kept ∙ is_old) in
      let here : OldPart io wdt_feed c.inst.old_part content room =
        subst (λ h. OldPart io wdt_feed h content room) writes_old part in
      let done = size - c.remaining_len in
      let src : c.src_offset ≡ cfg.swap_offset + done = omega (arith, inv.src_at, inv.bound) in
      let is_slice : bytes ≡ slice (cfg.swap_offset + done) n (area s.world) =
        reads bytes refl ∙ ap (λ o. slice o n (area s.world)) src in
      let len : length bytes ≡ n = omega (
        arith,
        ap length is_slice,
        length-take n (drop (cfg.swap_offset + done) (area s.world)),
        length-drop (cfg.swap_offset + done) (area s.world),
        two.area_size s.world,
        inv.bound,
        takes,
        inside,
      ) in
      let w' = (io.write c.inst.old_part c.dst_offset bytes w).1 in
      elim (Bool-cases (is_eok (io.write c.inst.old_part c.dst_offset bytes w).0)) [
        | inr bad ↦ rw (bad, put_chunk) (inl refl, ground (arith, live))
        | inl ok ↦
            let next : size - (c.remaining_len - n) ≡ done + n = omega (arith, takes, inv.bound) in
            let head = take s.committed_len (content s.world) in
            let image : take (c.dst_offset + n) (content w')
                ≡ head ++ slice cfg.swap_offset (size - (c.remaining_len - n)) (area s.world) =
              ap (λ k. take (c.dst_offset + k) (content w')) (sym len)
              ∙ here.write_puts c.dst_offset bytes w ok
              ∙ ap (λ xs. take c.dst_offset xs ++ bytes) same_content
              ∙ ap (λ xs. xs ++ bytes) inv.copied
              ∙ append_assoc head (slice cfg.swap_offset done (area s.world)) bytes
              ∙ ap (λ xs. head ++ (slice cfg.swap_offset done (area s.world) ++ xs)) is_slice
              ∙ ap (λ xs. head ++ xs) (append-slice cfg.swap_offset done n (area s.world))
              ∙ ap (λ k. head ++ slice cfg.swap_offset k (area s.world)) (sym next) in
            let k = inv.kept in
            rw (ok, put_chunk)
              (
                inr (record {
                  bound = omega (arith, inv.bound);
                  src_at = omega (arith, inv.src_at, takes);
                  dst_at = omega (arith, inv.dst_at, takes);
                  copied = image;
                  fits_room = omega (arith, len, here.write_fits c.dst_offset bytes w ok);
                  same_area =
                      subst (λ h. area (io.write h c.dst_offset bytes w).1 ≡ area w) writes_old
                        (two.old_write_area c.dst_offset bytes w)
                      ∙ same_area;
                  same_part = inv.same_part;
                  same_pos = inv.same_pos;
                  same_part_size = inv.same_part_size;
                  kept = record {
                    committed_len_kept = k.committed_len_kept;
                    erased_end_kept = k.erased_end_kept;
                    sector_kept = k.sector_kept;
                    old_part_kept = k.old_part_kept;
                    newer_len_kept = k.newer_len_kept;
                    capacity_kept = k.capacity_kept;
                  };
                }),
                ground (arith, live, some_bytes, takes),
              )
      ]

  copy_round-Round :
      (c : Copying io wdt_feed cfg)
      → CopyInv c
      → copy_test io wdt_feed cfg c ≡ true
      → CopyInv (copy_round io wdt_feed cfg c)
        × (to_copy (copy_round io wdt_feed cfg c) < to_copy c)
  unfolding copy_round get_chunk
  copy_round-Round c (inl failed) test = absurd (ground (arith, failed, test))
  copy_round-Round c (inr inv) test =
      let live : c.failed ≡ false = ground (arith, test) in
      let some_left : 0 < c.remaining_len = ground (arith, test) in
      let (positive, takes) = chunk_size-bounds io wdt_feed cfg has_buf c.remaining_len some_left in
      let n = chunk_size io wdt_feed cfg c.remaining_len in
      let got = io.read sh c.src_offset n c.inst.world in
      let round =
        put_chunk-Round c n got.0 got.1 inv live positive takes
          (λ bytes e.
            two.reads_swap c.src_offset n bytes c.inst.world e
            ∙ ap (λ xs. slice c.src_offset n xs) inv.same_area)
          (two.read_area sh c.src_offset n c.inst.world ∙ inv.same_area)
          (part.read_content sh c.src_offset n c.inst.world) in
      subst
        (λ o.
          CopyInv (put_chunk io wdt_feed cfg c n (get_chunk io wdt_feed cfg c n o))
          × (to_copy (put_chunk io wdt_feed cfg c n (get_chunk io wdt_feed cfg c n o)) < to_copy c))
        (sym (inv.same_part ∙ is_part)) round

  -- The state that the copy starts in.
  abbrev copying : Copying io wdt_feed cfg
  copying = record {
    remaining_len = size;
    src_offset = cfg.swap_offset;
    dst_offset = s.committed_len;
    failed = false;
    inst = s;
  }

  copying-Copied : Copied copying
  copying-Copied =
      let nothing_yet : 0 ≡ size - size = omega arith in
      record {
        bound = omega arith;
        src_at = refl;
        dst_at = refl;
        copied =
            sym (append-nil (take s.committed_len (content s.world)))
            ∙ ap
                (λ k.
                  take s.committed_len (content s.world) ++ slice cfg.swap_offset k (area s.world))
                nothing_yet;
        fits_room = dst_inside;
        same_area = refl;
        same_part = refl;
        same_pos = refl;
        same_part_size = refl;
        kept = record {
          committed_len_kept = refl;
          erased_end_kept = refl;
          sector_kept = refl;
          old_part_kept = refl;
          newer_len_kept = refl;
          capacity_kept = refl;
        };
      }

  -- A copy that succeeds appends the collected bytes to what was committed before.
  pub flash_copy_to_old-Copied :
      (flash_copy_to_old io wdt_feed cfg size s).0 ≡ true
      → let r = (flash_copy_to_old io wdt_feed cfg size s).1 in
        (take (s.committed_len + size) (content r.world)
          ≡ take s.committed_len (content s.world) ++ slice cfg.swap_offset size (area s.world))
        × (s.committed_len + size ≤ room)
        × (area r.world ≡ area s.world)
        × (r.swap.part ≡ s.swap.part)
        × (r.swap.write_pos ≡ s.swap.write_pos)
        × (r.swap.part_size ≡ s.swap.part_size)
        × Kept s r
  unfolding flash_copy_to_old
  flash_copy_to_old-Copied ok =
      let end = while (suc size) (copy_test io wdt_feed cfg) (copy_round io wdt_feed cfg) copying in
      let (inv, ended) =
        while_inv CopyInv to_copy (copy_test io wdt_feed cfg) (copy_round io wdt_feed cfg)
          copy_round-Round (suc size) copying (omega arith) (inr copying-Copied) in
      let live : end.failed ≡ false = ground (arith, ok) in
      elim inv [
        | inl failed ↦ absurd (ground (arith, failed, live))
        | inr c ↦
            let none_left : end.remaining_len ≡ 0 = ground (arith, ended, live) in
            let dst : s.committed_len + size ≡ end.dst_offset =
              omega (arith, c.dst_at, none_left) in
            let all : size - end.remaining_len ≡ size = omega (arith, none_left) in
            (
              ap (λ n. take n (content end.inst.world)) dst
                  ∙ c.copied
                  ∙ ap
                      (λ n.
                        take s.committed_len (content s.world)
                        ++ slice cfg.swap_offset n (area s.world))
                      all,
              omega (arith, dst, c.fits_room),
              c.same_area,
              c.same_part,
              c.same_pos,
              c.same_part_size,
              c.kept,
            )
      ]
