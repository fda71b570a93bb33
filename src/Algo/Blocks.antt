-- ===== src/Algo/Blocks.antt =====
-- algorithm/qboot_fastlz.c and algorithm/qboot_quicklz.c: a block is its size, four bytes with the
-- highest first, and what the package compressed. The packages are parameters.
pub mod Framing
use rt_thread_qboot.Base.{
  ℕ, true, Option, none, some, List, [], ◌∷◌, take, drop, slice, length, ltb, ◌==◌, if◌then◌else◌,
  add32, mul32,
}
use rt_thread_qboot.Storage.{RtErr, eok, err, rt_error}
use rt_thread_qboot.Algo.{StreamCtx, Step, CmprsOps, Tables, cmprs_register}

abbrev pub block_hdr_size : ℕ
block_hdr_size = 4

-- The loop of qbt_fastlz_get_block_size and qbt_quicklz_get_block_size, over the bytes of the header.
unfoldable pub shift_in : ℕ → List ℕ → ℕ
shift_in block_size [] = block_size
shift_in block_size (b ∷ bs) = shift_in (add32 (mul32 block_size 256) b) bs

unfoldable pub get_block_size : List ℕ → ℕ
get_block_size comp_datas = shift_in 0 (take block_hdr_size comp_datas)

-- A return without results.
abbrev pub stopped : RtErr → Step
stopped rst = record { rst = rst; consumed = 0; output = [] }

-- `fastlz_decompress` is given its input and the room for its output; no value stands for a result that
-- is not positive.
abbrev pub FastlzDecompress : Type 0
FastlzDecompress = List ℕ → ℕ → Option (List ℕ)

unfoldable pub fastlz_done : ℕ → ℕ → Option (List ℕ) → Step
fastlz_done cap need_len none = stopped rt_error
fastlz_done cap need_len (some bytes) = record {
  rst = eok;
  consumed = need_len;
  output = take cap bytes;
}

-- `qbt_algo_fastlz_decompress`; the second argument is the code of RT_ENOSPC.
unfoldable pub fastlz_handler :
    {W : Type 0} → FastlzDecompress → ℕ → List ℕ → ℕ → StreamCtx → W → Step × W
fastlz_handler lz rt_enospc buf cap ctx w =
    let block_size = get_block_size buf in
    let need_len = add32 block_size block_hdr_size in
    if ltb (length buf) block_hdr_size
    then (stopped (err rt_enospc), w)
    else (if block_size == 0
        then (stopped rt_error, w)
        else (if ltb (length buf) need_len
            then (stopped (err rt_enospc), w)
            else (fastlz_done cap need_len (lz (slice block_hdr_size block_size buf) cap), w)))

-- `qbt_algo_fastlz_cmprs_ops`
abbrev pub fastlz_cmprs_ops : {W : Type 0} → FastlzDecompress → ℕ → CmprsOps W
fastlz_cmprs_ops lz rt_enospc = record {
  has_name = true;
  has_decompress = true;
  cmprs_id = 0x300;
  init = none;
  decompress = fastlz_handler lz rt_enospc;
  deinit = none;
}

-- `qbt_algo_fastlz_register`
unfoldable pub fastlz_register : {W : Type 0} → FastlzDecompress → ℕ → Tables W → RtErr × Tables W
fastlz_register lz rt_enospc t = cmprs_register (some (fastlz_cmprs_ops lz rt_enospc)) t

-- `qlz_decompress` on its state: it is told neither the size of its input nor the room for its output.
-- `state_init` is the zeroed state.
pub record Quicklz (W : Type 0) : Type 0 where
  pub state_init : W → W
  pub decompress : List ℕ → W → List ℕ × W

unfoldable pub quicklz_done : ℕ → ℕ → List ℕ → Step
quicklz_done cap need_len bytes =
    if length bytes == 0
    then stopped rt_error
    else (if ltb cap (length bytes)
        then stopped rt_error
        else record { rst = eok; consumed = need_len; output = bytes })

-- `qbt_algo_quicklz_decompress`. The package is called where the block is there as a whole.
unfoldable pub quicklz_handler :
    {W : Type 0} → Quicklz W → ℕ → List ℕ → ℕ → StreamCtx → W → Step × W
quicklz_handler qlz rt_enospc buf cap ctx w =
    let block_size = get_block_size buf in
    let need_len = add32 block_size block_hdr_size in
    let (bytes, w') = qlz.decompress (drop block_hdr_size buf) w in
    if ltb (length buf) block_hdr_size
    then (stopped (err rt_enospc), w)
    else (if block_size == 0
        then (stopped rt_error, w)
        else (if ltb (length buf) need_len
            then (stopped (err rt_enospc), w)
            else (quicklz_done cap need_len bytes, w')))

-- `qbt_algo_quicklz_cmprs_ops`
abbrev pub quicklz_cmprs_ops : {W : Type 0} → Quicklz W → ℕ → CmprsOps W
quicklz_cmprs_ops qlz rt_enospc = record {
  has_name = true;
  has_decompress = true;
  cmprs_id = 0x200;
  init = some (λ w. (eok, qlz.state_init w));
  decompress = quicklz_handler qlz rt_enospc;
  deinit = none;
}

-- `qbt_algo_quicklz_register`
unfoldable pub quicklz_register : {W : Type 0} → Quicklz W → ℕ → Tables W → RtErr × Tables W
quicklz_register qlz rt_enospc t = cmprs_register (some (quicklz_cmprs_ops qlz rt_enospc)) t
