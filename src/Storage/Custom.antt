-- ===== src/Storage/Custom.antt =====
-- src/qboot_custom_ops.c: the targets of a flash that the board drives itself. A handle is the
-- description of its target, which `open` never leaves null.
pub mod Range
use Prim.Native.Nat.{bit_and}
use rt_thread_qboot.Base.{
  ℕ, ◌-◌, Bool, true, false, Option, none, some, List, length, ltb, ◌==◌, if◌then◌else◌, add32,
  u32_mod, sub32,
}
use rt_thread_qboot.Storage.{
  RtErr, eok, rt_error, is_eok, IoOps, ParserOps, FwInfo, StoreDesc, Backend, custom,
}
use rt_thread_qboot.Storage.Header.{from_le, to_le32}
use rt_thread_qboot.Storage.Targets.{target_desc}

-- qbt_custom_flash_read, qbt_custom_flash_write and qbt_custom_flash_erase, which a board overrides.
pub record FlashOps (W : Type 0) : Type 0 where
  pub flash_read : ℕ → ℕ → W → Option (List ℕ) × W
  pub flash_write : ℕ → List ℕ → W → RtErr × W
  pub flash_erase : ℕ → ℕ → W → RtErr × W

-- QBOOT_RELEASE_SIGN_WORD
abbrev pub sign_word : ℕ
sign_word = 0x5555aaaa

-- QBOOT_IO_CMD_GET_ERASE_ALIGN
abbrev pub get_erase_align : ℕ
get_erase_align = 1

abbrev is_custom : Backend → Bool
is_custom custom = true
is_custom _ = false

-- `qbt_custom_find_desc`
unfoldable pub custom_find_desc : List StoreDesc → ℕ → Option StoreDesc
custom_find_desc descs id = elim (target_desc descs id) [
  | none ↦ none
  | some desc ↦ if is_custom desc.backend then some desc else none
]

-- `qbt_custom_range_check`
unfoldable pub custom_range_check : StoreDesc → ℕ → ℕ → Bool
custom_range_check desc off len =
    if desc.flash_len == 0
    then false
    else (if ltb desc.flash_len off
        then false
        else (if ltb (sub32 desc.flash_len off) len then false else true))

module _ {W : Type 0} (flash : FlashOps W) (descs : List StoreDesc) (erase_align : ℕ) where
  unfoldable pub custom_open : ℕ → ℕ → W → Option StoreDesc × W
  custom_open id flags w = elim (custom_find_desc descs id) [
    | none ↦ (none, w)
    | some desc ↦ if desc.flash_len == 0 then (none, w) else (some desc, w)
  ]

  unfoldable pub custom_read : StoreDesc → ℕ → ℕ → W → Option (List ℕ) × W
  custom_read desc off len w =
      if custom_range_check desc off len
      then flash.flash_read (add32 desc.flash_addr off) len w
      else (none, w)

  unfoldable pub custom_erase : StoreDesc → ℕ → ℕ → W → RtErr × W
  custom_erase desc off len w =
      if custom_range_check desc off len
      then flash.flash_erase (add32 desc.flash_addr off) len w
      else (rt_error, w)

  unfoldable pub custom_write : StoreDesc → ℕ → List ℕ → W → RtErr × W
  custom_write desc off bytes w =
      if custom_range_check desc off (length bytes)
      then flash.flash_write (add32 desc.flash_addr off) bytes w
      else (rt_error, w)

  -- `g_qboot_io_custom`; `close` does nothing, and `size` and `ioctl` only answer.
  unfoldable pub custom_io_ops : IoOps W StoreDesc
  custom_io_ops = record {
    open_target = custom_open;
    close = λ desc w. (eok, w);
    read = custom_read;
    erase = custom_erase;
    write = custom_write;
    size = λ desc w. (some desc.flash_len, w);
    ioctl = λ desc cmd w. (if cmd == get_erase_align then some erase_align else none, w);
  }

  module _ (src_read_pos sign_align : ℕ) where
    -- Where the release sign of a package stands; the operand of `&` is `~(align - 1)`.
    unfoldable pub custom_sign_pos : FwInfo → ℕ
    custom_sign_pos fw =
        bit_and (add32 (add32 src_read_pos fw.pkg_size) (sub32 sign_align 1))
          (u32_mod - 1 - sub32 sign_align 1)

    -- A null header, which the code would read through, counts as a failure.
    unfoldable pub custom_sign_read : StoreDesc → Option FwInfo → W → Option Bool × W
    custom_sign_read desc none w = (none, w)
    custom_sign_read desc (some fw) w =
        let (got, w1) = custom_read desc (custom_sign_pos fw) 4 w in
        (elim got [ none ↦ none | some bytes ↦ some (from_le bytes == sign_word) ], w1)

    unfoldable pub custom_sign_write : StoreDesc → Option FwInfo → W → RtErr × W
    custom_sign_write desc none w = (rt_error, w)
    custom_sign_write desc (some fw) w =
        let (rst, w1) = custom_write desc (custom_sign_pos fw) (to_le32 sign_word) w in
        (if is_eok rst then eok else rt_error, w1)

    -- `g_qboot_header_parser_custom`; `sign_clear` does nothing.
    unfoldable pub custom_parser_ops : ParserOps W StoreDesc
    custom_parser_ops = record {
      sign_read = custom_sign_read;
      sign_write = custom_sign_write;
      sign_clear = λ desc fw w. (eok, w);
    }
