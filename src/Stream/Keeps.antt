-- ===== src/Stream/Keeps.antt =====
-- What reads, codec and consumer leave alone, the stream (src/qboot_stream.c) leaves alone.
use rt_thread_qboot.Base.{
  ℕ, ◌≡◌, refl, ◌∙◌, Option, none, some, List, ltb, if◌then◌else◌, length, add32, sub32,
  while_keeps, arith, Option-cases, inl, inr,
}
use rt_thread_qboot.Storage.{IoOps}
use rt_thread_qboot.Algo.{Purpose, StreamCtx, Step, CryptoOps, CmprsOps, AlgoContext}
use rt_thread_qboot.Stream.{
  DecLoop, Consumer, dispatch, judge, dec_body, dec_test, dec_start, decompress_with_consumer,
  fw_pkg_read, StreamCfg, Proc, fetch, convert, proc_body, proc_test, proc_start, stream_process,
}

module _ {W C A : Type 0} (cmprs : CmprsOps W) (out_len : ℕ) (ctx : StreamCtx)
    (consumer : Consumer W C) (f : W → A)
    (decompress_keeps : (buf : List ℕ) (cap : ℕ) (ctx : StreamCtx) (w : W)
      → f (cmprs.decompress buf cap ctx w).1 ≡ f w)
    (consumer_keeps : (bytes : List ℕ) (c : C) (w : W) → f (consumer bytes c w).1 ≡ f w) where
  judge-keeps :
      (cap : ℕ) (step : Step) (d : DecLoop C) (w : W)
      → f (judge cmprs out_len ctx consumer cap step (d, w)).1 ≡ f w
  unfolding judge dispatch
  judge-keeps cap step d w = ground (arith, consumer_keeps step.output d.sink w)

  dec_body-keeps : (s : DecLoop C × W) → f (dec_body cmprs out_len ctx consumer s).1 ≡ f s.1
  unfolding dec_body
  dec_body-keeps (d, w) =
      let cap : ℕ = (if ltb d.remaining out_len then d.remaining else out_len) in
      let call = record ctx {
        consumed = add32 ctx.consumed d.consumed;
        raw_remaining = d.remaining;
      } in
      let (step, w1) = cmprs.decompress d.buf cap call w in
      ground (arith, judge-keeps cap step d w1, decompress_keeps d.buf cap call w)

  pub decompress-keeps :
      (buf : List ℕ) (c : C) (w : W)
      → f (decompress_with_consumer cmprs out_len ctx consumer buf c w).1 ≡ f w
  unfolding decompress_with_consumer
  decompress-keeps buf c w =
      while_keeps (λ s. f s.1 ≡ f w) (dec_test cmprs out_len ctx consumer)
        (dec_body cmprs out_len ctx consumer) (λ s e t. dec_body-keeps s ∙ e) _
        (dec_start cmprs out_len ctx consumer buf c, w) refl

-- The codec leaves alone what `f` observes.
pub record AlgoFrame {W A : Type 0} (algo : AlgoContext W) (f : W → A) : Type 0 where
  pub decompress_keeps :
      (buf : List ℕ) (cap : ℕ) (ctx : StreamCtx) (w : W)
      → f (algo.cmprs_ops.decompress buf cap ctx w).1 ≡ f w
  pub decrypt_keeps :
      (crypt : CryptoOps W) (bytes : List ℕ) (w : W)
      → algo.crypt_ops ≡ some crypt
      → f (crypt.decrypt bytes w).1 ≡ f w

module _ {W H C A : Type 0} (io : IoOps W H) (cfg : StreamCfg) (algo : AlgoContext W) (src : H)
    (pkg_size raw_size : ℕ) (purpose : Purpose) (prepare : ℕ → C → C) (consumer : Consumer W C)
    (f : W → A) (read_keeps : (h : H) (off len : ℕ) (w : W) → f (io.read h off len w).1 ≡ f w)
    (codec : AlgoFrame algo f)
    (consumer_keeps : (bytes : List ℕ) (c : C) (w : W) → f (consumer bytes c w).1 ≡ f w) where
  fw_pkg_read-keeps :
      (o : Option (CryptoOps W)) (off len : ℕ) (w : W)
      → algo.crypt_ops ≡ o
      → f (fw_pkg_read io src off len o w).1 ≡ f w
  unfolding fw_pkg_read
  fw_pkg_read-keeps none off len w e = read_keeps src off len w
  fw_pkg_read-keeps (some crypt) off len w e = elim (Option-cases (io.read src off len w).0) [
    | inl n ↦ rw (n, fw_pkg_read) (read_keeps src off len w)
    | inr (bytes, n) ↦
        rw (n, fw_pkg_read)
          (codec.decrypt_keeps crypt bytes (io.read src off len w).1 e ∙ read_keeps src off len w)
  ]

  fetch-keeps :
      (s : Proc C × W)
      → f (fetch io cfg algo src pkg_size raw_size purpose prepare consumer s).1 ≡ f s.1
  unfolding fetch
  fetch-keeps (p, w) =
      let remain = sub32 (add32 pkg_size cfg.src_read_pos) p.src_pos in
      let len : ℕ = (if ltb remain cfg.cmprs_read_size then remain else cfg.cmprs_read_size) in
      ground (arith, fw_pkg_read-keeps algo.crypt_ops p.src_pos len w refl)

  convert-keeps :
      (s : Proc C × W)
      → f (convert io cfg algo src pkg_size raw_size purpose prepare consumer s).1 ≡ f s.1
  unfolding convert
  convert-keeps (p, w) =
      let ctx : StreamCtx = record {
        total = pkg_size;
        consumed = sub32 (sub32 p.src_pos cfg.src_read_pos) (length p.buf);
        raw_remaining = sub32 raw_size p.raw_pos;
        purpose = purpose;
      } in
      ground (
        arith,
        decompress-keeps algo.cmprs_ops cfg.buf_size ctx consumer f codec.decompress_keeps
            consumer_keeps p.buf (prepare p.raw_pos p.sink) w,
      )

  proc_body-keeps :
      (s : Proc C × W)
      → f (proc_body io cfg algo src pkg_size raw_size purpose prepare consumer s).1 ≡ f s.1
  unfolding proc_body
  proc_body-keeps s =
      let s1 = fetch io cfg algo src pkg_size raw_size purpose prepare consumer s in
      ground (arith, fetch-keeps s, convert-keeps s1)

  pub stream_process-keeps :
      (c : C) (w : W)
      → f (stream_process io cfg algo src pkg_size raw_size purpose prepare consumer c w).1 ≡ f w
  unfolding stream_process
  stream_process-keeps c w =
      while_keeps (λ s. f s.1 ≡ f w)
        (proc_test io cfg algo src pkg_size raw_size purpose prepare consumer)
        (proc_body io cfg algo src pkg_size raw_size purpose prepare consumer)
        (λ s e t. proc_body-keeps s ∙ e) _
        (proc_start io cfg algo src pkg_size raw_size purpose prepare consumer c, w) refl
