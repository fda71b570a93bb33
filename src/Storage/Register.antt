-- ===== src/Storage/Register.antt =====
-- The registration of the operation tables in src/qboot_ops.c. A table may hold null pointers until
-- it is registered; `none` is a null pointer.
use rt_thread_qboot.Base.{ℕ, Bool, true, false, Option, none, some, List, ◌||◌, if◌then◌else◌}
use rt_thread_qboot.Storage.{RtErr, eok, rt_error, FwInfo, is_eok}

pub record IoTable (W H : Type 0) : Type 0 where
  pub open_target : Option (ℕ → ℕ → W → Option H × W)
  pub close : Option (H → W → RtErr × W)
  pub read : Option (H → ℕ → ℕ → W → Option (List ℕ) × W)
  pub erase : Option (H → ℕ → ℕ → W → RtErr × W)
  pub write : Option (H → ℕ → List ℕ → W → RtErr × W)
  pub size : Option (H → W → Option ℕ × W)
  pub ioctl : Option (H → ℕ → W → Option ℕ × W)

pub record ParserTable (W H : Type 0) : Type 0 where
  pub sign_read : Option (H → Option FwInfo → W → Option Bool × W)
  pub sign_write : Option (H → Option FwInfo → W → RtErr × W)
  pub sign_clear : Option (H → Option FwInfo → W → RtErr × W)

-- `_header_io_ops` and `_header_parser_ops`.
pub record Registry (W H : Type 0) : Type 0 where
  pub io_ops : Option (IoTable W H)
  pub parser_ops : Option (ParserTable W H)

abbrev is_null : {A : Type 0} → Option A → Bool
is_null none = true
is_null (some a) = false

module _ {W H : Type 0} where
  unfoldable pub register_header_io_ops : Option (IoTable W H) → Registry W H → RtErr × Registry W H
  register_header_io_ops none g = (rt_error, g)
  register_header_io_ops (some t) g =
      if is_null t.open_target
        || is_null t.close
        || is_null t.read
        || is_null t.erase
        || is_null t.write
        || is_null t.size
      then (rt_error, g)
      else (eok, record g { io_ops = some t })

  unfoldable pub register_header_parser_ops :
      Option (ParserTable W H) → Registry W H → RtErr × Registry W H
  register_header_parser_ops none g = (rt_error, g)
  register_header_parser_ops (some t) g =
      if is_null t.sign_read || is_null t.sign_write || is_null t.sign_clear
      then (rt_error, g)
      else (eok, record g { parser_ops = some t })

  -- `qbt_register_ops`
  unfoldable pub register_ops :
      Option (IoTable W H) → Option (ParserTable W H) → Registry W H → RtErr × Registry W H
  register_ops io parser g =
      if is_null io || is_null parser
      then (rt_error, g)
      else (let (rst, g') = register_header_io_ops io g in
          if is_eok rst then register_header_parser_ops parser g' else (rst, g'))
