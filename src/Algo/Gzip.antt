-- ===== src/Algo/Gzip.antt =====
-- algorithm/qboot_gzip.c: the output of zlib in pieces of 32 bytes. The calls of zlib are parameters.
pub mod Conserves
use rt_thread_qboot.Base.{
  ℕ, zero, suc, ◌+◌, ◌-◌, ◌%◌, Bool, true, false, not, ◌&&◌, ◌||◌, some, List, [], ◌∷◌, ◌++◌, take,
  drop, length, ltb, leb, ◌==◌, if◌then◌else◌, add32, sub32,
}
use rt_thread_qboot.Storage.{RtErr, eok, err, rt_error}
use rt_thread_qboot.Algo.{Purpose, to_write, StreamCtx, Step, CmprsOps, Tables, cmprs_register}

-- The results of `inflate`.
pub data ZResult : Type 0 where
  z_need_dict z_data_error z_mem_error z_other : ZResult

-- What `inflate` leaves behind in the stream: its result, its output and the input that is left.
pub record Inflated : Type 0 where
  pub ret : ZResult
  pub produced : List ℕ
  pub avail_in : ℕ

-- inflateInit2, inflate on an input and a room, and inflateEnd.
pub record Zlib (W : Type 0) : Type 0 where
  pub inflate_init : W → W
  pub inflate : List ℕ → ℕ → W → Inflated × W
  pub inflate_end : W → W

-- The static state: the valid bytes of `qbt_gzip_remain_buf`, the field `avail_in` of `qbt_strm`, and
-- what zlib keeps.
pub record Gzip (W : Type 0) : Type 0 where
  pub remain : List ℕ
  pub avail_in : ℕ
  pub zlib : W

-- GZIP_REMAIN_BUF_SIZE
abbrev pub remain_buf_size : ℕ
remain_buf_size = 32

abbrev pub is_broken : ZResult → Bool
is_broken z_other = false
is_broken _ = true

abbrev pub is_write : Purpose → Bool
is_write to_write = true
is_write _ = false

-- `memset` with 0xFF.
abbrev pub padding : ℕ → List ℕ
padding zero = []
padding (suc n) = 0xff ∷ padding n

-- The last bytes of a stream: padded to a whole piece if there is room for it, or as they are.
unfoldable pub flush_tail : Bool → ℕ → List ℕ → List ℕ → List ℕ
flush_tail pad cap aligned rest =
    if pad && leb (length aligned + remain_buf_size) cap
    then aligned ++ rest ++ padding (remain_buf_size - length rest)
    else aligned ++ rest

-- Step 2 of `qbt_algo_gzip_decompress`, on all of the bytes in the output buffer: the output, and the
-- new remainder.
unfoldable pub align_output : Bool → Bool → ℕ → List ℕ → List ℕ × List ℕ
align_output is_end pad cap bytes =
    let len_aligned = length bytes - length bytes % remain_buf_size in
    let rest = drop len_aligned bytes in
    if is_end && ltb 0 (length rest)
    then (flush_tail pad cap (take len_aligned bytes) rest, [])
    else (take len_aligned bytes, rest)

-- Step 3: the result.
unfoldable pub gzip_result : ℕ → Bool → ℕ → ℕ → List ℕ → Step
gzip_result rt_enospc is_end in_len avail_in output =
    let consumed = sub32 in_len avail_in in
    let rst =
      if consumed == 0 && length output == 0 && not is_end
      then err rt_enospc
      else (if length output == 0
          then rt_error
          else (if consumed == 0 && ltb 0 in_len then rt_error else eok)) in
    record { rst = rst; consumed = consumed; output = output }

module _ {W : Type 0} (z : Zlib W) (rt_enospc : ℕ) where
  unfoldable pub aligned_step : Bool → Bool → ℕ → ℕ → List ℕ → Gzip W → Step × Gzip W
  aligned_step is_end pad cap in_len bytes g =
      let (output, rest) = align_output is_end pad cap bytes in
      (gzip_result rt_enospc is_end in_len g.avail_in output, record g { remain = rest })

  abbrev gzip_stopped : RtErr → Step
  gzip_stopped rst = record { rst = rst; consumed = 0; output = [] }

  -- What follows the call of `qbt_gzip_decompress`.
  unfoldable pub inflated_step : Bool → ℕ → ℕ → Inflated × W → Gzip W → Step × Gzip W
  inflated_step pad cap in_len (i, w) g =
      if is_broken i.ret
      then (gzip_stopped rt_error, record g { avail_in = i.avail_in; zlib = z.inflate_end w })
      else aligned_step (ltb (length i.produced) (cap - length g.remain)) pad cap in_len
          (g.remain ++ i.produced) (record g { avail_in = i.avail_in; zlib = w })

  -- Whether the input reaches the end of the stream.
  unfoldable pub is_last_chunk : List ℕ → StreamCtx → Bool
  is_last_chunk buf ctx = ltb 0 ctx.total && leb ctx.total (add32 ctx.consumed (length buf))

  -- `qbt_algo_gzip_decompress`
  unfoldable pub gzip_decompress : List ℕ → ℕ → StreamCtx → Gzip W → Step × Gzip W
  gzip_decompress buf cap ctx g =
      let last_chunk = is_last_chunk buf ctx in
      let pad = is_write ctx.purpose && last_chunk in
      if ltb cap (length g.remain)
      then (gzip_stopped rt_error, g)
      else (if length buf == 0
          then (if not last_chunk || length g.remain == 0
              then (gzip_stopped (err rt_enospc), g)
              else aligned_step true pad cap 0 g.remain g)
          else inflated_step pad cap (length buf) (z.inflate buf (cap - length g.remain) g.zlib) g)

  -- `qbt_gzip_init` clears the stream.
  unfoldable pub gzip_init : Gzip W → RtErr × Gzip W
  gzip_init g = (eok, record { remain = []; avail_in = 0; zlib = z.inflate_init g.zlib })

  unfoldable pub gzip_deinit : Gzip W → RtErr × Gzip W
  gzip_deinit g = (eok, record g { remain = []; zlib = z.inflate_end g.zlib })

  -- `qbt_algo_gzip_cmprs_ops`
  abbrev pub gzip_cmprs_ops : CmprsOps (Gzip W)
  gzip_cmprs_ops = record {
    has_name = true;
    has_decompress = true;
    cmprs_id = 0x100;
    init = some gzip_init;
    decompress = gzip_decompress;
    deinit = some gzip_deinit;
  }

  -- `qbt_algo_gzip_register`
  unfoldable pub gzip_register : Tables (Gzip W) → RtErr × Tables (Gzip W)
  gzip_register t = cmprs_register (some gzip_cmprs_ops) t
