-- ===== src/Stream/Capacity.antt =====
-- The staging buffer of src/qboot_stream.c with the codec of algorithm/qboot_none.c: in a build without
-- compression it has QBOOT_CMPRS_READ_SIZE bytes.
use rt_thread_qboot.Base.{
  ℕ, ◌+◌, ◌≤◌, ◌<◌, ◌≡◌, ◌⊎◌, inl, inr, refl, ap, ◌∙◌, Bool, true, false, some, List, [], ◌∷◌,
  arith, length, length-take, length-append, while, while_keeps, u32_mod, ltb, add32, sub32,
  if◌then◌else◌, Bool-cases, Option-cases, ◌||◌, ◌&&◌, ◌==◌,
}
use rt_thread_qboot.Storage.{IoOps, is_eok}
use rt_thread_qboot.Algo.{Purpose, StreamCtx, Step}
use rt_thread_qboot.Algo.NoneCodec.{none_decompress, none_crypt, none_cmprs_ops, none_crypt_ops}
use rt_thread_qboot.Stream.{
  Consumer, DecLoop, dispatch, judge, dec_body, dec_test, dec_start, decompress_with_consumer,
  int_max, fw_pkg_read, StreamCfg, Proc, is_failure, fetch, convert, proc_body, proc_test,
  proc_start,
}
use rt_thread_qboot.Stream.Progress.{Delivers, decompress-delivers}
use rt_thread_qboot.Stream.Identity.{none_algo}

-- The inner loop goes on until the input is used up, or a consumer fails.
abbrev Drained : {C : Type 0} → ℕ → DecLoop C → Type 0
Drained enospc d = (d.halted ≡ false) ⊎ ((length d.buf ≡ 0) ⊎ (is_failure enospc d.rst ≡ true))

module _ {W C : Type 0} (out_len rt_enospc enospc : ℕ) (ctx : StreamCtx) (consumer : Consumer W C)
    (consume_fails : (bytes : List ℕ) (c : C) (w : W)
      → is_eok (consumer bytes c w).0.0 ≡ false
      → is_failure enospc (consumer bytes c w).0.0 ≡ true)
    (has_out : 0 < out_len) where
  dispatch-Drained :
      (step : Step) (d : DecLoop C) (w : W)
      → d.halted ≡ false
      → Drained enospc (dispatch (none_cmprs_ops rt_enospc) out_len ctx consumer step (d, w)).0
  unfolding dispatch
  dispatch-Drained step d w live = elim (Bool-cases (is_eok (consumer step.output d.sink w).0.0)) [
    | inl ok ↦ rw (ok, dispatch) (inl live)
    | inr bad ↦ rw (bad, dispatch) (inr (inr (consume_fails step.output d.sink w bad)))
  ]

  judge-Drained :
      (cap : ℕ) (d : DecLoop C) (w w1 : W) (call : StreamCtx) (buf : List ℕ)
      → d.buf ≡ buf
      → 0 < cap
      → d.halted ≡ false
      → let step = (none_decompress rt_enospc buf cap call w1).0 in
        Drained enospc (judge (none_cmprs_ops rt_enospc) out_len ctx consumer cap step (d, w)).0
  unfolding none_decompress judge
  judge-Drained cap d w w1 call [] e some_room live = inr (inl (ap length e))
  judge-Drained cap d w w1 call (x ∷ xs) e some_room live =
      let step = (none_decompress rt_enospc (x ∷ xs) cap call w1).0 in
      let took = length-take cap (x ∷ xs) in
      let same = ap length e in
      let fine : (ltb (length d.buf) step.consumed
            || ltb cap (length step.output)
            || ((step.consumed == 0) && (length step.output == 0)))
          ≡ false =
        ground (arith, took, same) in
      rw (fine, judge) (dispatch-Drained step d w live)

  dec_body-Drained :
      (s : DecLoop C × W)
      → dec_test (none_cmprs_ops rt_enospc) out_len ctx consumer s ≡ true
      → Drained enospc (dec_body (none_cmprs_ops rt_enospc) out_len ctx consumer s).0
  unfolding dec_body
  dec_body-Drained (d, w) test =
      let cap : ℕ = (if ltb d.remaining out_len then d.remaining else out_len) in
      let call_consumed = add32 ctx.consumed d.consumed in
      let call = record ctx { consumed = call_consumed; raw_remaining = d.remaining } in
      let w1 = (none_decompress rt_enospc d.buf cap call w).1 in
      let some_room : 0 < cap = ground (arith, test, has_out) in
      let live : d.halted ≡ false = ground (arith, test) in
      elim (Bool-cases ((length d.buf == 0) && ltb call_consumed ctx.total)) [
        | inl empty ↦
            let no_input : length d.buf ≡ 0 = ground (arith, empty) in
            rw (empty, dec_body) (inr (inl no_input))
        | inr goes ↦ rw (goes, dec_body) (judge-Drained cap d w1 w call d.buf refl some_room live)
      ]

  decompress-Drained :
      (buf : List ℕ) (sink : C) (w : W)
      → Drained enospc
          (decompress_with_consumer (none_cmprs_ops rt_enospc) out_len ctx consumer buf sink w).0
  unfolding decompress_with_consumer
  decompress-Drained buf sink w =
      while_keeps (λ s. Drained enospc s.0)
        (dec_test (none_cmprs_ops rt_enospc) out_len ctx consumer)
        (dec_body (none_cmprs_ops rt_enospc) out_len ctx consumer)
        (λ s e test. dec_body-Drained s test) (ctx.raw_remaining + length buf + 2)
        (dec_start {W = W} (none_cmprs_ops rt_enospc) out_len ctx consumer buf sink, w) (inl refl)

-- While the process goes on, nothing is left in the buffer.
abbrev Emptied : {C : Type 0} → ℕ → Proc C → Type 0
Emptied raw_size p =
    (p.failed ≡ true) ⊎ ((p.raw_pos ≡ raw_size) ⊎ ((length p.buf ≡ 0) × (p.raw_pos ≤ raw_size)))

module _ {W H C : Type 0} (io : IoOps W H) (cfg : StreamCfg) (rt_enospc : ℕ) (src : H)
    (pkg_size raw_size : ℕ) (purpose : Purpose) (prepare : ℕ → C → C) (consumer : Consumer W C)
    (consume_fails : (bytes : List ℕ) (c : C) (w : W)
      → is_eok (consumer bytes c w).0.0 ≡ false
      → is_failure cfg.enospc (consumer bytes c w).0.0 ≡ true)
    (has_out : 0 < cfg.buf_size) (small : raw_size < u32_mod)
    (reads_fit : (off len : ℕ) (w : W) (bytes : List ℕ)
      → (io.read src off len w).0 ≡ some bytes
      → length bytes ≤ len) where
  abbrev fetching : Proc C × W → Proc C × W
  fetching = fetch io cfg (none_algo rt_enospc) src pkg_size raw_size purpose prepare consumer

  abbrev converting : Proc C × W → Proc C × W
  converting = convert io cfg (none_algo rt_enospc) src pkg_size raw_size purpose prepare consumer

  abbrev testing : Proc C × W → Bool
  testing = proc_test io cfg (none_algo rt_enospc) src pkg_size raw_size purpose prepare consumer

  delivers : Delivers (none_cmprs_ops rt_enospc) cfg.enospc consumer (λ n c w. Unit {0})
  delivers = record {
    decompress_keeps = λ buf cap ctx n c w r. tt;
    consume_moves = λ bytes n c w r e. tt;
    consume_fails = consume_fails;
  }

  converting-Emptied :
      (p : Proc C) (w : W) → p.raw_pos ≤ raw_size → Emptied raw_size (converting (p, w)).0
  unfolding convert
  converting-Emptied p w bound =
      let ctx : StreamCtx = record {
        total = pkg_size;
        consumed = sub32 (sub32 p.src_pos cfg.src_read_pos) (length p.buf);
        raw_remaining = sub32 raw_size p.raw_pos;
        purpose = purpose;
      } in
      let sink = prepare p.raw_pos p.sink in
      let (d, w1) =
        decompress_with_consumer (none_cmprs_ops rt_enospc) cfg.buf_size ctx consumer p.buf sink
          w in
      let (budget, input, ended, good) =
        decompress-delivers cfg.buf_size ctx cfg.enospc (λ n c w. Unit {0}) delivers p.raw_pos
          (length p.buf) p.buf sink w refl tt in
      let drained =
        decompress-Drained cfg.buf_size rt_enospc cfg.enospc ctx consumer consume_fails has_out
          p.buf sink w in
      elim (Bool-cases (is_failure cfg.enospc d.rst || (d.produced == 0))) [
        | inl stop ↦ rw (stop, convert) (inl refl)
        | inr go ↦
            let moved : add32 p.raw_pos d.produced ≡ p.raw_pos + d.produced = omega arith in
            let within : p.raw_pos + d.produced ≤ raw_size = omega arith in
            let is_done : ((p.raw_pos + d.produced ≡ raw_size) ⊎ (length d.buf ≡ 0)) =
              ground (arith, budget, ended, drained, go, bound, small) in
            rw (go, convert) (ground (arith, moved, within, is_done))
      ]

  fw_pkg_read-fits :
      (off len : ℕ) (w : W) (bytes : List ℕ)
      → (fw_pkg_read io src off len (some none_crypt_ops) w).0 ≡ some bytes
      → length bytes ≤ len
  unfolding fw_pkg_read none_crypt
  fw_pkg_read-fits off len w bytes e = elim (Option-cases (io.read src off len w).0) [
    | inl f ↦ absurd (ground (arith, f, e))
    | inr (got, f) ↦
        let same : got ≡ bytes = ground (arith, f, e) in
        reads_fit off len w bytes (f ∙ ap some same)
  ]

  -- A fetch into an empty buffer.
  fetching-fits :
      (p : Proc C) (w : W)
      → length p.buf ≡ 0
      → let s = fetching (p, w) in
        (length s.0.buf ≤ cfg.cmprs_read_size) × (s.0.raw_pos ≡ p.raw_pos)
  unfolding fetch
  fetching-fits p w empty =
      let remain = sub32 (add32 pkg_size cfg.src_read_pos) p.src_pos in
      let len : ℕ = (if ltb remain cfg.cmprs_read_size then remain else cfg.cmprs_read_size) in
      let short : len ≤ cfg.cmprs_read_size = ground arith in
      let got = fw_pkg_read io src p.src_pos len (some none_crypt_ops) w in
      elim (Bool-cases (remain == 0)) [
        | inl last ↦ rw (last, empty) (omega (arith, empty), refl)
        | inr more ↦ elim (Bool-cases (ltb remain int_max)) [
          | inl e ↦ elim (Option-cases got.0) [
            | inl f ↦ rw (more, e, f) (omega (arith, empty), refl)
            | inr (bytes, f) ↦
                let fits = fw_pkg_read-fits p.src_pos len w bytes f in
                rw (more, e, f) (omega (arith, length-append p.buf bytes, empty, fits, short), refl)
          ]
          | inr e ↦ rw (more, e) (omega (arith, empty), refl)
        ]
      ]

  proc_body-Emptied :
      (s : Proc C × W)
      → Emptied raw_size s.0
      → testing s ≡ true
      → Emptied raw_size
          (proc_body io cfg
            (none_algo rt_enospc)
            src
            pkg_size
            raw_size
            purpose
            prepare
            consumer
            s).0
  unfolding proc_body fetch
  proc_body-Emptied (p, w) inv test =
      let still : (length p.buf ≡ 0) × (p.raw_pos ≤ raw_size) = ground (arith, inv, test) in
      let s1 = fetching (p, w) in
      let (fits, same) = fetching-fits p w still.0 in
      elim (Bool-cases s1.0.failed) [
        | inl stop ↦ rw (stop, proc_body) (inl stop)
        | inr goes ↦
            rw (goes, proc_body) (converting-Emptied s1.0 s1.1 (omega (arith, same, still)))
      ]

  -- The stream after a number of rounds.
  abbrev reached : ℕ → C → W → Proc C × W
  reached rounds sink w =
      while rounds testing
        (proc_body io cfg (none_algo rt_enospc) src pkg_size raw_size purpose prepare consumer)
        (
          proc_start io cfg (none_algo rt_enospc) src pkg_size raw_size purpose prepare consumer
              sink,
          w,
        )

  -- Let a read give at most the bytes that are asked for, let the output buffer have room for a byte, let
  -- each failure of the consumer be one of the stream, and let the image have a 32-bit size. Then with the
  -- NONE algorithm, whatever the package holds, if another round begins after any number of rounds, the
  -- staging buffer has at most QBOOT_CMPRS_READ_SIZE bytes after its read.
  pub stream_buffer-bound :
      (rounds : ℕ) (sink : C) (w : W)
      → testing (reached rounds sink w) ≡ true
      → length (fetching (reached rounds sink w)).0.buf ≤ cfg.cmprs_read_size
  stream_buffer-bound rounds sink w test =
      let start =
        proc_start io cfg (none_algo rt_enospc) src pkg_size raw_size purpose prepare consumer
          sink in
      let s = reached rounds sink w in
      let inv =
        while_keeps (λ t. Emptied raw_size t.0) testing
          (proc_body io cfg (none_algo rt_enospc) src pkg_size raw_size purpose prepare consumer)
          proc_body-Emptied rounds (start, w) (inr (inr (refl, omega arith))) in
      let still : length s.0.buf ≡ 0 = ground (arith, inv, test) in (fetching-fits s.0 s.1 still).0
