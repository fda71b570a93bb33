-- ===== src/Stream.antt =====
-- src/qboot_stream.c: a package is read piece by piece, decrypted, decompressed and handed to a
-- consumer, which writes it or adds it to a checksum.
-- A buffer is the list of the bytes that it holds: `cmprs_len` is the length of the list.
pub mod Progress
pub mod Exact
pub mod Keeps
pub mod Joined
pub mod Identity
pub mod Capacity
use rt_thread_qboot.Base.{
  ℕ, ◌+◌, ◌-◌, Bool, true, false, Option, none, some, List, [], ◌++◌, ltb, ◌==◌, ◌&&◌, ◌||◌, not,
  if◌then◌else◌, length, drop, add32, sub32, while,
}
use rt_thread_qboot.Storage.{RtErr, eok, err, rt_error, is_eok, IoOps}
use rt_thread_qboot.Algo.{Purpose, StreamCtx, Step, CryptoOps, CmprsOps, AlgoContext}

-- What `qbt_decompress_with_consumer` keeps from round to round: `halted` is set by `break`.
pub record DecLoop (C : Type 0) : Type 0 where
  pub halted : Bool
  pub rst : RtErr
  pub remaining : ℕ
  pub buf : List ℕ
  pub consumed : ℕ
  pub produced : ℕ
  pub sink : C

-- A consumer of output, `qbt_cmprs_consumer_t`, with its context of type `C`.
abbrev pub Consumer : Type 0 → Type 0 → Type 0
Consumer W C = List ℕ → C → W → (RtErr × C) × W

module _ {W C : Type 0} (cmprs : CmprsOps W) (out_len : ℕ) (ctx : StreamCtx)
    (consumer : Consumer W C) where
  abbrev pub halt : RtErr → DecLoop C → DecLoop C
  halt r d = record d { halted = true; rst = r }

  -- Part (3) and (4) of a round: the output goes to the consumer, and the input is compacted.
  unfoldable pub dispatch : Step → DecLoop C × W → DecLoop C × W
  dispatch step (d, w) =
      let (res, w1) = consumer step.output d.sink w in
      if is_eok res.0
      then (
        record d {
          rst = eok;
          remaining = d.remaining - length step.output;
          buf = drop step.consumed d.buf;
          consumed = d.consumed + step.consumed;
          produced = d.produced + length step.output;
          sink = res.1;
        },
        w1,
      )
      else (record (halt res.0 d) { sink = res.1 }, w1)

  -- Part (2): what becomes of the decompressor's answer.
  unfoldable pub judge : ℕ → Step → DecLoop C × W → DecLoop C × W
  judge cap step (d, w) =
      if not (is_eok step.rst)
        || ltb (length d.buf) step.consumed
        || ltb cap (length step.output)
        || ((step.consumed == 0) && (length step.output == 0))
      then (halt step.rst d, w)
      else dispatch step (d, w)

  -- A round of the loop.
  unfoldable pub dec_body : DecLoop C × W → DecLoop C × W
  dec_body (d, w) =
      let cap : ℕ = (if ltb d.remaining out_len then d.remaining else out_len) in
      let call_consumed = add32 ctx.consumed d.consumed in
      if (length d.buf == 0) && ltb call_consumed ctx.total
      then (halt d.rst d, w)
      else (let (step, w1) =
            cmprs.decompress d.buf cap
              (record ctx { consumed = call_consumed; raw_remaining = d.remaining }) w in
          judge cap step (d, w1))

  abbrev pub dec_test : DecLoop C × W → Bool
  dec_test (d, w) = ltb 0 d.remaining && not d.halted

  abbrev pub dec_start : List ℕ → C → DecLoop C
  dec_start buf sink = record {
    halted = false;
    rst = eok;
    remaining = ctx.raw_remaining;
    buf = buf;
    consumed = 0;
    produced = 0;
    sink = sink;
  }

  -- The result is in `rst`, the remaining input in `buf`. `Progress` shows that the fuel suffices.
  unfoldable pub decompress_with_consumer : List ℕ → C → W → DecLoop C × W
  decompress_with_consumer buf sink w =
      while (ctx.raw_remaining + length buf + 2) dec_test dec_body (dec_start buf sink, w)

module _ {W H : Type 0} (io : IoOps W H) where
  -- `qbt_fw_pkg_read`
  unfoldable pub fw_pkg_read : H → ℕ → ℕ → Option (CryptoOps W) → W → Option (List ℕ) × W
  fw_pkg_read src off len none w = io.read src off len w
  fw_pkg_read src off len (some crypt) w =
      let (got, w1) = io.read src off len w in
      elim got [ none ↦ (none, w1) | some bytes ↦ crypt.decrypt bytes w1 ]

-- QBOOT_CMPRS_READ_SIZE, QBOOT_BUF_SIZE, qboot_src_read_pos() and the code of ENOSPC (errno.h).
pub record StreamCfg : Type 0 where
  pub cmprs_read_size : ℕ
  pub buf_size : ℕ
  pub src_read_pos : ℕ
  pub enospc : ℕ

-- What `qbt_fw_stream_process` keeps from round to round; `failed` is a `return RT_FALSE`.
pub record Proc (C : Type 0) : Type 0 where
  pub failed : Bool
  pub raw_pos : ℕ
  pub src_pos : ℕ
  pub buf : List ℕ
  pub sink : C

abbrev pub int_max : ℕ
int_max = 2147483648

-- `rst != RT_EOK && rst != -ENOSPC`
abbrev pub is_failure : ℕ → RtErr → Bool
is_failure enospc eok = false
is_failure enospc (err n) = not (n == enospc)

module _ {W H C : Type 0} (io : IoOps W H) (cfg : StreamCfg) (algo : AlgoContext W) (src : H)
    (pkg_size raw_size : ℕ) (purpose : Purpose) (prepare : ℕ → C → C)
    (consumer : Consumer W C) where
  abbrev pub fail : Proc C → Proc C
  fail p = record p { failed = true }

  -- Reads the next piece of the package behind the buffered input.
  unfoldable pub fetch : Proc C × W → Proc C × W
  fetch (p, w) =
      let remain = sub32 (add32 pkg_size cfg.src_read_pos) p.src_pos in
      let len : ℕ = (if ltb remain cfg.cmprs_read_size then remain else cfg.cmprs_read_size) in
      if remain == 0
      then (if length p.buf == 0 then (fail p, w) else (p, w))
      else (if ltb remain int_max
          then (let (got, w1) = fw_pkg_read io src p.src_pos len algo.crypt_ops w in
              elim got [
                | none ↦ (fail p, w1)
                | some bytes ↦
                    (record p { src_pos = add32 p.src_pos len; buf = p.buf ++ bytes }, w1)
              ])
          else (fail p, w))

  -- Decompresses what is buffered, with the rest of the image as the limit. `prepare` is the update
  -- of `raw_pos` in the context of a write.
  unfoldable pub convert : Proc C × W → Proc C × W
  convert (p, w) =
      let ctx : StreamCtx = record {
        total = pkg_size;
        consumed = sub32 (sub32 p.src_pos cfg.src_read_pos) (length p.buf);
        raw_remaining = sub32 raw_size p.raw_pos;
        purpose = purpose;
      } in
      let (d, w1) =
        decompress_with_consumer algo.cmprs_ops cfg.buf_size ctx consumer p.buf
          (prepare p.raw_pos p.sink) w in
      if is_failure cfg.enospc d.rst || (d.produced == 0)
      then (record p { failed = true; sink = d.sink }, w1)
      else (record p { raw_pos = add32 p.raw_pos d.produced; buf = d.buf; sink = d.sink }, w1)

  unfoldable pub proc_body : Proc C × W → Proc C × W
  proc_body s = let s1 = fetch s in if s1.0.failed then s1 else convert s1

  abbrev pub proc_test : Proc C × W → Bool
  proc_test (p, w) = ltb p.raw_pos raw_size && not p.failed

  abbrev pub proc_start : C → Proc C
  proc_start sink = record {
    failed = false;
    raw_pos = 0;
    src_pos = cfg.src_read_pos;
    buf = [];
    sink = sink;
  }

  -- `failed` of the result is the negation of the returned flag.
  unfoldable pub stream_process : C → W → Proc C × W
  stream_process sink w = while (raw_size + 2) proc_test proc_body (proc_start sink, w)

-- `qbt_stream_state_t` without the total that only the progress display reads.
pub record WriteState (H : Type 0) : Type 0 where
  pub dst_handle : H
  pub raw_pos : ℕ

module _ {W H : Type 0} (io : IoOps W H) where
  -- `qbt_write_chunk_consumer`
  unfoldable pub write_consumer : Consumer W (WriteState H)
  write_consumer bytes s w =
      let (rst, w1) = io.write s.dst_handle s.raw_pos bytes w in
      if is_eok rst
      then ((eok, record s { raw_pos = add32 s.raw_pos (length bytes) }), w1)
      else ((rt_error, s), w1)

-- The update of the stream state before each call for writing.
abbrev pub seek_write : {H : Type 0} → ℕ → WriteState H → WriteState H
seek_write pos s = record s { raw_pos = pos }

-- `qbt_crc_chunk_consumer`; `crc_cyc` is crc32_cyc_cal.
unfoldable pub crc_consumer : {W : Type 0} → (ℕ → List ℕ → ℕ) → Consumer W ℕ
crc_consumer crc_cyc bytes acc w = ((eok, crc_cyc acc bytes), w)
