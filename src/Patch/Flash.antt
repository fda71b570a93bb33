-- ===== src/Patch/Flash.antt =====
-- The swap backend of algorithm/qboot_hpatchlite.c that collects in a storage target:
-- qbt_flash_swap_* and qbt_flash_copy_to_old.
use rt_thread_qboot.Base.{
  ℕ, suc, ◌+◌, ◌-◌, Bool, ◌&&◌, not, Option, none, some, List, length, leb, ltb, if◌then◌else◌,
  sub32, while,
}
use rt_thread_qboot.Storage.{IoOps, RtErr, is_eok, open_for_release}
use rt_thread_qboot.Storage.Targets.{
  Opened, refused, unsized, opened, target_open, target_close, erase_with_feed,
}
use rt_thread_qboot.Patch.{Instance, SwapOps}

-- QBOOT_TARGET_COUNT of a build with the swap target, the identifier that the swap's name has there,
-- QBOOT_HPATCH_SWAP_OFFSET and QBOOT_HPATCH_COPY_BUFFER_SIZE.
pub record FlashCfg : Type 0 where
  pub target_count : ℕ
  pub swap_id : ℕ
  pub swap_offset : ℕ
  pub copy_buffer_size : ℕ

module _ {W H : Type 0} (io : IoOps W H) (wdt_feed : W → W) (cfg : FlashCfg) where
  -- The erase of the swap area, and the rest of `qbt_flash_swap_init` after it.
  unfoldable pub erased_swap : H → RtErr × W → Instance W H → Bool × Instance W H
  erased_swap h (rst, w) s =
      if is_eok rst
      then (Bool.true, record s { swap = record s.swap { write_pos = 0 }; world = w })
      else (Bool.false, record s { world = target_close io (some h) w })

  -- `qbt_flash_swap_init` once the target is open and of a known size.
  unfoldable pub swap_opened : H → ℕ → Instance W H → Bool × Instance W H
  swap_opened h swap_part_size s =
      let size = sub32 swap_part_size cfg.swap_offset in
      if leb swap_part_size cfg.swap_offset
      then (
        Bool.false,
        record s {
          swap = record s.swap { part = some h };
          world = target_close io (some h) s.world;
        },
      )
      else erased_swap h (erase_with_feed io wdt_feed h cfg.swap_offset size s.world)
          (record s { swap = record s.swap { part = some h; part_size = size; capacity = size } })

  unfoldable pub with_swap : Instance W H → Opened H × W → Bool × Instance W H
  with_swap s (refused, w) = (Bool.false, record s { world = w })
  with_swap s (unsized h, w) =
      (Bool.false, record s { swap = record s.swap { part = some h }; world = w })
  with_swap s (opened h n, w) = swap_opened h n (record s { world = w })

  unfoldable pub flash_swap_init : Instance W H → Bool × Instance W H
  flash_swap_init s =
      if leb cfg.target_count cfg.swap_id
      then (Bool.false, s)
      else with_swap s (target_open io cfg.swap_id open_for_release Bool.true s.world)

  unfoldable pub flash_swap_deinit : Instance W H → Instance W H
  flash_swap_deinit s = record s {
    swap = record s.swap { part = none };
    world = target_close io s.swap.part s.world;
  }

  -- The loop of `qbt_flash_copy_to_old`; `failed` is its early return.
  pub record Copying : Type 0 where
    pub remaining_len : ℕ
    pub src_offset : ℕ
    pub dst_offset : ℕ
    pub failed : Bool
    pub inst : Instance W H

  unfoldable pub chunk_size : ℕ → ℕ
  chunk_size remaining =
      if ltb cfg.copy_buffer_size remaining then cfg.copy_buffer_size else remaining

  -- The write of a chunk that was read into the copy buffer.
  unfoldable pub put_chunk : Copying → ℕ → Option (List ℕ) × W → Copying
  put_chunk c n (none, w) = record c { failed = Bool.true; inst = record c.inst { world = w } }
  put_chunk c n (some bytes, w) =
      let (rst, w') = io.write c.inst.old_part c.dst_offset bytes w in
      let inst' = record c.inst {
        swap = record c.inst.swap { ram_buf = some bytes };
        world = w';
      } in
      if is_eok rst
      then record {
        remaining_len = c.remaining_len - n;
        src_offset = c.src_offset + n;
        dst_offset = c.dst_offset + n;
        failed = Bool.false;
        inst = inst';
      }
      else record c { failed = Bool.true; inst = inst' }

  -- The read of a chunk. Without a swap target there is nothing to read from.
  unfoldable pub get_chunk : Copying → ℕ → Option H → Option (List ℕ) × W
  get_chunk c n none = (none, c.inst.world)
  get_chunk c n (some h) = io.read h c.src_offset n c.inst.world

  unfoldable pub copy_round : Copying → Copying
  copy_round c =
      let n = chunk_size c.remaining_len in put_chunk c n (get_chunk c n c.inst.swap.part)

  abbrev pub copy_test : Copying → Bool
  copy_test c = not c.failed && ltb 0 c.remaining_len

  -- Each round takes at least one byte if the copy buffer has any room, so that one round more than
  -- there are bytes is enough.
  unfoldable pub flash_copy_to_old : ℕ → Instance W H → Bool × Instance W H
  flash_copy_to_old size s =
      let end : Copying = while (suc size) copy_test copy_round (record {
        remaining_len = size;
        src_offset = cfg.swap_offset;
        dst_offset = s.committed_len;
        failed = Bool.false;
        inst = s;
      }) in
      (not end.failed, end.inst)

  unfoldable pub append_to : List ℕ → Instance W H → Option H → Bool × Instance W H
  append_to bytes s none = (Bool.false, s)
  append_to bytes s (some h) =
      let (rst, w) = io.write h (cfg.swap_offset + s.swap.write_pos) bytes s.world in
      if is_eok rst
      then (
        Bool.true,
        record s {
          swap = record s.swap { write_pos = s.swap.write_pos + length bytes };
          world = w;
        },
      )
      else (Bool.false, record s { world = w })

  unfoldable pub flash_swap_append : List ℕ → Instance W H → Bool × Instance W H
  flash_swap_append bytes s = append_to bytes s s.swap.part

  unfoldable pub reset_to : Instance W H → Option H → Bool × Instance W H
  reset_to s none = (Bool.false, s)
  reset_to s (some h) =
      let (rst, w) = erase_with_feed io wdt_feed h cfg.swap_offset s.swap.part_size s.world in
      if is_eok rst
      then (Bool.true, record s { swap = record s.swap { write_pos = 0 }; world = w })
      else (Bool.false, record s { world = w })

  unfoldable pub flash_swap_reset : Instance W H → Bool × Instance W H
  flash_swap_reset s = reset_to s s.swap.part

  -- `g_qbt_swap_ops_flash`
  abbrev pub flash_swap_ops : SwapOps W H
  flash_swap_ops = record {
    ram_buf_size = cfg.copy_buffer_size;
    init = flash_swap_init;
    deinit = flash_swap_deinit;
    append = flash_swap_append;
    copy_to_old = flash_copy_to_old;
    reset = flash_swap_reset;
  }
