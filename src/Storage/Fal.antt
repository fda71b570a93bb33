-- ===== src/Storage/Fal.antt =====
-- src/qboot_fal_ops.c: a target is a partition of the FAL package, whose calls are parameters. A handle
-- is the partition.
pub mod Sign
use Prim.Native.Nat.{bit_and}
use rt_thread_qboot.Base.{
  ℕ, ◌-◌, Bool, Option, none, some, List, [], length, ◌==◌, if◌then◌else◌, add32, sub32, u32_mod,
}
use rt_thread_qboot.Storage.{RtErr, eok, rt_error, IoOps, ParserOps, FwInfo, StoreDesc}
use rt_thread_qboot.Storage.Header.{from_le, to_le32}
use rt_thread_qboot.Storage.Targets.{target_desc}
use rt_thread_qboot.Storage.Custom.{sign_word, get_erase_align}

-- fal_partition_find, fal_partition_read, fal_partition_write, fal_partition_erase, the length of a
-- partition, and the block size of its flash device. A negative result is no value or `false`.
pub record FalOps (W P : Type 0) : Type 0 where
  pub partition_find : List ℕ → Option P
  pub partition_read : P → ℕ → ℕ → W → Option (List ℕ) × W
  pub partition_write : P → ℕ → List ℕ → W → Bool × W
  pub partition_erase : P → ℕ → ℕ → W → Bool × W
  pub partition_len : P → ℕ
  pub blk_size : P → ℕ

module _ {W P : Type 0} (fal : FalOps W P) (descs : List StoreDesc) where
  unfoldable pub fal_open : ℕ → ℕ → W → Option P × W
  fal_open id flags w = elim (target_desc descs id) [
    | none ↦ (none, w)
    | some desc ↦ (fal.partition_find desc.store_name, w)
  ]

  unfoldable pub fal_read : P → ℕ → ℕ → W → Option (List ℕ) × W
  fal_read part off len w = if len == 0 then (some [], w) else fal.partition_read part off len w

  unfoldable pub fal_erase : P → ℕ → ℕ → W → RtErr × W
  fal_erase part off len w =
      let (ok, w') = fal.partition_erase part off len w in
      if len == 0 then (eok, w) else ((if ok then eok else rt_error), w')

  unfoldable pub fal_write : P → ℕ → List ℕ → W → RtErr × W
  fal_write part off bytes w =
      let (ok, w') = fal.partition_write part off bytes w in
      if length bytes == 0 then (eok, w) else ((if ok then eok else rt_error), w')

  unfoldable pub fal_size : P → W → Option ℕ × W
  fal_size part w = (some (fal.partition_len part), w)

  unfoldable pub fal_ioctl : P → ℕ → W → Option ℕ × W
  fal_ioctl part cmd w = (if cmd == get_erase_align then some (fal.blk_size part) else none, w)

  -- `g_qboot_io_fal`; `close` does nothing.
  unfoldable pub fal_io_ops : IoOps W P
  fal_io_ops = record {
    open_target = fal_open;
    close = λ part w. (eok, w);
    read = fal_read;
    erase = fal_erase;
    write = fal_write;
    size = fal_size;
    ioctl = fal_ioctl;
  }

  module _ (src_read_pos sign_align : ℕ) where
    -- Where the release sign of a package stands; the operand of `&` is `~(align - 1)`.
    unfoldable pub fal_sign_pos : FwInfo → ℕ
    fal_sign_pos fw =
        bit_and (add32 (add32 src_read_pos fw.pkg_size) (sub32 sign_align 1))
          (u32_mod - 1 - sub32 sign_align 1)

    -- A null header, which the code would read through, counts as a failure.
    unfoldable pub fal_sign_read : P → Option FwInfo → W → Option Bool × W
    fal_sign_read part none w = (none, w)
    fal_sign_read part (some fw) w =
        let (got, w') = fal.partition_read part (fal_sign_pos fw) 4 w in
        (elim got [ none ↦ none | some bytes ↦ some (from_le bytes == sign_word) ], w')

    unfoldable pub fal_sign_write : P → Option FwInfo → W → RtErr × W
    fal_sign_write part none w = (rt_error, w)
    fal_sign_write part (some fw) w =
        let (ok, w') = fal.partition_write part (fal_sign_pos fw) (to_le32 sign_word) w in
        ((if ok then eok else rt_error), w')

    -- `g_qboot_header_parser_fal`; `sign_clear` does nothing.
    unfoldable pub fal_parser_ops : ParserOps W P
    fal_parser_ops = record {
      sign_read = fal_sign_read;
      sign_write = fal_sign_write;
      sign_clear = λ part fw w. (eok, w);
    }
