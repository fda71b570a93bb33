-- ===== src/Storage/Fs.antt =====
-- src/qboot_fs_ops.c: a target is a file. A handle is the identifier of its target (the code adds 1, so
-- that no handle is null), and `g_fs_fds` has the file's descriptor, plus 1, or 0. The calls of the
-- operating system are parameters; the descriptor -1 is no value.
pub mod Roundtrip
use Prim.Native.Nat.{bit_and}
use rt_thread_qboot.Base.{
  ◌%◌, u32_mod, ℕ, zero, suc, ◌+◌, Bool, true, false, not, Option, none, some, List, length, ◌==◌,
  if◌then◌else◌,
}
use rt_thread_qboot.Storage.{RtErr, eok, rt_error, IoOps, ParserOps, FwInfo, StoreDesc}
use rt_thread_qboot.Storage.Targets.{target_desc}

-- The flags of `open`: O_RDWR or O_WRONLY, O_CREAT and O_TRUNC.
pub record OpenFlags : Type 0 where
  pub writes : Bool
  pub creates : Bool
  pub truncates : Bool

-- open, close, lseek, read, write, ftruncate and unlink. No value is a negative result; `read` returns
-- the bytes that it got, `write` how many it took.
pub record Posix (W : Type 0) : Type 0 where
  pub open_file : List ℕ → OpenFlags → W → Option ℕ × W
  pub close_file : ℕ → W → W
  pub seek_set : Option ℕ → ℕ → W → Bool × W
  pub seek_cur : Option ℕ → W → Option ℕ × W
  pub seek_end : Option ℕ → W → Option ℕ × W
  pub read_file : Option ℕ → ℕ → W → Option (List ℕ) × W
  pub write_file : Option ℕ → List ℕ → W → Option ℕ × W
  pub truncate : Option ℕ → ℕ → W → Bool × W
  pub unlink : List ℕ → W → W

-- `g_fs_fds` with the state of the operating system.
pub record Files (W : Type 0) : Type 0 where
  pub fds : ℕ → ℕ
  pub system : W

abbrev has_flag : ℕ → ℕ → Bool
has_flag flags mask = not (bit_and flags mask == 0)

abbrev pub fd_of : ℕ → Option ℕ
fd_of zero = none
fd_of (suc fd) = some fd

abbrev pub set_slot : (ℕ → ℕ) → ℕ → ℕ → ℕ → ℕ
set_slot fds id v k = if k == id then v else fds k

-- `swap_size` gives QBOOT_HPATCH_SWAP_FILE_SIZE for the swap target of a build that has one.
module _ {W : Type 0} (posix : Posix W) (descs : List StoreDesc) (swap_size : ℕ → Option ℕ)
    (sign_path : List ℕ) where
  unfoldable pub fd_stored : ℕ → (ℕ → ℕ) → Option ℕ × W → Option ℕ × Files W
  fd_stored id fds (none, w) = (none, record { fds = fds; system = w })
  fd_stored id fds (some fd, w) = (some id, record { fds = set_slot fds id (fd + 1); system = w })

  unfoldable pub fs_open : ℕ → ℕ → Files W → Option ℕ × Files W
  fs_open id flags f = elim (target_desc descs id) [
    | none ↦ (none, f)
    | some desc ↦ fd_stored id f.fds (
        posix.open_file desc.store_name
          (record {
            writes = has_flag flags 0x02;
            creates = has_flag flags 0x04;
            truncates = has_flag flags 0x08;
          })
          f.system)
  ]

  unfoldable pub fs_close : ℕ → Files W → RtErr × Files W
  fs_close id f = (
    eok,
    record {
      fds = set_slot f.fds id 0;
      system = (elim (fd_of (f.fds id)) [
        | none ↦ f.system
        | some fd ↦ posix.close_file fd f.system
      ]);
    },
  )

  -- A read of fewer bytes than were asked for is a failure.
  abbrev pub whole : ℕ → Option (List ℕ) → Option (List ℕ)
  whole len none = none
  whole len (some bytes) = if length bytes == len then some bytes else none

  unfoldable pub fs_read : ℕ → ℕ → ℕ → Files W → Option (List ℕ) × Files W
  fs_read id off len f =
      let fd = fd_of (f.fds id) in
      let (sought, w1) = posix.seek_set fd off f.system in
      let (got, w2) = posix.read_file fd len w1 in
      if sought then (whole len got, record f { system = w2 }) else (none, record f { system = w1 })

  -- The offset and the length are not looked at.
  unfoldable pub fs_erase : ℕ → ℕ → ℕ → Files W → RtErr × Files W
  fs_erase id off len f =
      let size : ℕ = elim (swap_size id) [ none ↦ 0 | some n ↦ n ] in
      let (ok, w) = posix.truncate (fd_of (f.fds id)) size f.system in
      ((if ok then eok else rt_error), record f { system = w })

  abbrev pub all_taken : ℕ → Option ℕ → Bool
  all_taken len none = false
  all_taken len (some n) = n == len

  unfoldable pub fs_write : ℕ → ℕ → List ℕ → Files W → RtErr × Files W
  fs_write id off bytes f =
      let fd = fd_of (f.fds id) in
      let (sought, w1) = posix.seek_set fd off f.system in
      let (taken, w2) = posix.write_file fd bytes w1 in
      if sought
      then ((if all_taken (length bytes) taken then eok else rt_error), record f { system = w2 })
      else (rt_error, record f { system = w1 })

  -- Back to the position from before, if it was known.
  abbrev seek_back : Option ℕ → Option ℕ → W → W
  seek_back fd none w = w
  seek_back fd (some cur) w = (posix.seek_set fd cur w).1

  -- The cast of the end of a file to 32 bits.
  abbrev pub cast_size : Option ℕ → Option ℕ
  cast_size none = none
  cast_size (some n) = some (n % u32_mod)

  unfoldable pub fs_size : ℕ → Files W → Option ℕ × Files W
  fs_size id f =
      let fd = fd_of (f.fds id) in
      let (cur, w1) = posix.seek_cur fd f.system in
      let (end, w2) = posix.seek_end fd w1 in
      elim (swap_size id) [
        | some n ↦ (cast_size (some n), f)
        | none ↦ (cast_size end, record f { system = seek_back fd cur w2 })
      ]

  -- `g_qboot_io_fs`; `ioctl` answers nothing.
  unfoldable pub fs_io_ops : IoOps (Files W) ℕ
  fs_io_ops = record {
    open_target = fs_open;
    close = fs_close;
    read = fs_read;
    erase = fs_erase;
    write = fs_write;
    size = fs_size;
    ioctl = λ id cmd f. (none, f);
  }

  -- The release sign is a file of its own, whichever package is asked for.
  unfoldable pub fs_sign_read : ℕ → Option FwInfo → Files W → Option Bool × Files W
  fs_sign_read id fw f =
      let (got, w) =
        posix.open_file sign_path (record { writes = false; creates = false; truncates = false })
          f.system in
      elim got [
        | none ↦ (some false, record f { system = w })
        | some fd ↦ (some true, record f { system = posix.close_file fd w })
      ]

  unfoldable pub fs_sign_write : ℕ → Option FwInfo → Files W → RtErr × Files W
  fs_sign_write id fw f =
      let (got, w) =
        posix.open_file sign_path (record { writes = true; creates = true; truncates = true })
          f.system in
      elim got [
        | none ↦ (rt_error, record f { system = w })
        | some fd ↦ (eok, record f { system = posix.close_file fd w })
      ]

  unfoldable pub fs_sign_clear : ℕ → Option FwInfo → Files W → RtErr × Files W
  fs_sign_clear id fw f = (eok, record f { system = posix.unlink sign_path f.system })

  -- `g_qboot_header_parser_fs`
  unfoldable pub fs_parser_ops : ParserOps (Files W) ℕ
  fs_parser_ops = record {
    sign_read = fs_sign_read;
    sign_write = fs_sign_write;
    sign_clear = fs_sign_clear;
  }
