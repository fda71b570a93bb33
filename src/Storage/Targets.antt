-- ===== src/Storage/Targets.antt =====
-- qbt_name_to_id, qbt_target_desc, qbt_target_open, qbt_target_close and qbt_erase_with_feed of
-- src/qboot_ops.c.
use rt_thread_qboot.Base.{ℕ, Bool, Option, none, some, List, [], ◌∷◌, leb, if◌then◌else◌, get_elem?}
use rt_thread_qboot.Storage.{
  RtErr, IoOps, StoreDesc, target_app, target_download, target_factory, target_count,
}
use rt_thread_qboot.Storage.Header.{strcmp_eq}

-- QBOOT_*_PART_NAME of inc/qboot_cfg.h.
abbrev pub app_part_name : List ℕ
app_part_name = b'a' ∷ b'p' ∷ b'p' ∷ []

abbrev pub download_part_name : List ℕ
download_part_name = b'd' ∷ b'o' ∷ b'w' ∷ b'n' ∷ b'l' ∷ b'o' ∷ b'a' ∷ b'd' ∷ []

abbrev pub factory_part_name : List ℕ
factory_part_name = b'f' ∷ b'a' ∷ b'c' ∷ b't' ∷ b'o' ∷ b'r' ∷ b'y' ∷ []

unfoldable pub name_to_id : List ℕ → ℕ
name_to_id name =
    if strcmp_eq name app_part_name
    then target_app
    else (if strcmp_eq name download_part_name
        then target_download
        else (if strcmp_eq name factory_part_name then target_factory else target_count))

-- `g_descs` is the argument.
unfoldable pub target_desc : List StoreDesc → ℕ → Option StoreDesc
target_desc descs id = if leb target_count id then none else get_elem? descs id

-- How a call of `qbt_target_open` ends: RT_FALSE with `*handle` as it was; RT_FALSE after the size
-- query failed, with `*handle` set to a handle that is closed again; RT_TRUE with `*handle` and
-- `*out_size` (0 if `out_size` is a null pointer).
pub data Opened (H : Type 0) : Type 0 where
  refused : Opened H
  unsized : H → Opened H
  opened : H → ℕ → Opened H

module _ {W H : Type 0} (io : IoOps W H) where
  -- The size query of a handle that was opened, and its answer.
  unfoldable pub sized : H → Option ℕ × W → Opened H × W
  sized h (none, w) = (unsized h, (io.close h w).1)
  sized h (some n, w) = (opened h n, w)

  unfoldable pub open_with : Bool → Option H × W → Opened H × W
  open_with want_size (none, w) = (refused, w)
  open_with want_size (some h, w) = if want_size then sized h (io.size h w) else (opened h 0, w)

  -- `want_size` tells whether `out_size` is no null pointer.
  unfoldable pub target_open : ℕ → ℕ → Bool → W → Opened H × W
  unfolding open_with sized
  target_open id flags want_size w = open_with want_size (io.open_target id flags w)

  unfoldable pub target_close : Option H → W → W
  target_close none w = w
  target_close (some h) w = (io.close h w).1

  module _ (wdt_feed : W → W) where
    unfoldable pub erase_with_feed : H → ℕ → ℕ → W → RtErr × W
    erase_with_feed h off len w =
        let (rst, w') = io.erase h off len (wdt_feed w) in (rst, wdt_feed w')
