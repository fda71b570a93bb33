-- ===== src/Storage.antt =====
-- inc/qboot_ops.h and src/qboot_ops.c: the header of a firmware package, the storage targets and the
-- operation tables through which all storage is reached.
-- What a storage driver does is outside of this code: `W` is the state of everything that a driver,
-- a codec or the board keeps, `H` is the type of the handles that a driver hands out, and the two
-- tables of operations are parameters. A function that fails in C returns no value here.
pub mod Header
pub mod Targets
pub mod Register
pub mod Frame
pub mod Mux
pub mod Custom
pub mod Fal
pub mod Fs
pub mod Counts
pub mod Keeps
use rt_thread_qboot.Base.{ℕ, Bool, Option, List}

-- `rt_err_t`: RT_EOK, or the negative of a code.
pub data RtErr : Type 0 where
  eok : RtErr
  err : ℕ → RtErr

abbrev pub is_eok : RtErr → Bool
is_eok eok = Bool.true
is_eok (err n) = Bool.false

-- The code of RT_ERROR.
abbrev pub rt_error : RtErr
rt_error = err 1

-- `fw_info_t`. The character arrays are lists of bytes.
pub record FwInfo : Type 0 where
  pub type : List ℕ
  pub algo : ℕ
  pub algo2 : ℕ
  pub time_stamp : ℕ
  pub part_name : List ℕ
  pub fw_ver : List ℕ
  pub prod_code : List ℕ
  pub pkg_crc : ℕ
  pub raw_crc : ℕ
  pub raw_size : ℕ
  pub pkg_size : ℕ
  pub hdr_crc : ℕ

-- `qboot_io_ops_t` after registration. The flags of `open` are QBT_OPEN_*.
pub record IoOps (W H : Type 0) : Type 0 where
  pub open_target : ℕ → ℕ → W → Option H × W
  pub close : H → W → RtErr × W
  pub read : H → ℕ → ℕ → W → Option (List ℕ) × W
  pub erase : H → ℕ → ℕ → W → RtErr × W
  pub write : H → ℕ → List ℕ → W → RtErr × W
  pub size : H → W → Option ℕ × W
  pub ioctl : H → ℕ → W → Option ℕ × W

-- `qboot_header_parser_ops_t` after registration.
pub record ParserOps (W H : Type 0) : Type 0 where
  pub sign_read : H → Option FwInfo → W → Option Bool × W
  pub sign_write : H → Option FwInfo → W → RtErr × W
  pub sign_clear : H → Option FwInfo → W → RtErr × W

-- The flags that the code opens with: QBT_OPEN_READ, QBT_OPEN_WRITE, QBT_OPEN_WRITE with
-- QBT_OPEN_CREATE, and these two with QBT_OPEN_TRUNC.
abbrev pub open_read : ℕ
open_read = 0x01

abbrev pub open_write : ℕ
open_write = 0x02

abbrev pub open_for_release : ℕ
open_for_release = 0x06

abbrev pub open_for_download : ℕ
open_for_download = 0x0e

-- `qbt_store_backend_t`.
pub data Backend : Type 0 where
  fal fs custom : Backend

-- `qboot_store_desc_t`. Names are the bytes before the NUL.
pub record StoreDesc : Type 0 where
  pub id : ℕ
  pub role_name : List ℕ
  pub store_name : List ℕ
  pub flash_addr : ℕ
  pub flash_len : ℕ
  pub backend : Backend

-- `qbt_target_id_t` of a build without a swap target.
abbrev pub target_app : ℕ
target_app = 0

abbrev pub target_download : ℕ
target_download = 1

abbrev pub target_factory : ℕ
target_factory = 2

abbrev pub target_count : ℕ
target_count = 3
