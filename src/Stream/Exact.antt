-- ===== src/Stream/Exact.antt =====
-- `qbt_fw_stream_process` ends, and succeeds only with exactly the size of the image delivered.
use mathlib.Core.Path.{subst}
use rt_thread_qboot.Base.{
  ℕ, ◌+◌, ◌-◌, ◌≤◌, ◌<◌, ◌≡◌, ◌⊎◌, inl, inr, refl, sym, true, false, Option, none, some, List,
  arith, length, while_inv, u32_mod, ltb, add32, sub32, if◌then◌else◌, Bool-cases, Option-cases,
  ◌||◌, ◌==◌,
}
use rt_thread_qboot.Storage.{IoOps}
use rt_thread_qboot.Algo.{Purpose, StreamCtx, CryptoOps, AlgoContext}
use rt_thread_qboot.Stream.{
  Consumer, decompress_with_consumer, int_max, fw_pkg_read, StreamCfg, Proc, is_failure, fetch,
  convert, proc_body, proc_test, proc_start, stream_process,
}
use rt_thread_qboot.Stream.Progress.{Delivers, decompress-delivers}

-- What the reads of the source have to leave alone besides.
pub record SourceKeeps {W H C : Type 0} (io : IoOps W H) (algo : AlgoContext W)
    (R : ℕ → C → W → Type 0) : Type 0 where
  pub read_keeps : (h : H) (off len n : ℕ) (c : C) (w : W) → R n c w → R n c (io.read h off len w).1
  pub decrypt_keeps :
      (crypt : CryptoOps W) (bytes : List ℕ) (n : ℕ) (c : C) (w : W)
      → algo.crypt_ops ≡ some crypt
      → R n c w
      → R n c (crypt.decrypt bytes w).1

module _ {W H C : Type 0} {io : IoOps W H} (cfg : StreamCfg) (algo : AlgoContext W) (src : H)
    (pkg_size raw_size : ℕ) (purpose : Purpose) (prepare : ℕ → C → C) {consumer : Consumer W C}
    (R : ℕ → C → W → Type 0) (delivers : Delivers algo.cmprs_ops cfg.enospc consumer R)
    (source : SourceKeeps io algo R)
    (prepare_keeps : (n : ℕ) (c : C) (w : W) → R n c w → R n (prepare n c) w)
    (small : raw_size < u32_mod) where
  -- Until the process fails, its position is what was delivered.
  record ProcInv (s : Proc C × W) : Type 0 where
    bound : s.0.raw_pos ≤ raw_size
    delivered : R s.0.raw_pos s.0.sink s.1 ⊎ (s.0.failed ≡ true)

  abbrev left : Proc C → ℕ
  left p = if p.failed then 0 else 1 + raw_size - p.raw_pos

  fw_pkg_read-keeps :
      (o : Option (CryptoOps W)) (off len n : ℕ) (c : C) (w : W)
      → algo.crypt_ops ≡ o
      → R n c w
      → R n c (fw_pkg_read io src off len o w).1
  unfolding fw_pkg_read
  fw_pkg_read-keeps none off len n c w e r = source.read_keeps src off len n c w r
  fw_pkg_read-keeps (some crypt) off len n c w e r =
      let r1 = source.read_keeps src off len n c w r in
      elim (Option-cases (io.read src off len w).0) [
        | inl f ↦ rw (f, fw_pkg_read) r1
        | inr (bytes, f) ↦
            rw (f, fw_pkg_read)
              (source.decrypt_keeps crypt bytes n c (io.read src off len w).1 e r1)
      ]

  abbrev Fetched : Proc C → Proc C × W → Type 0
  Fetched p s = (s.0.raw_pos ≡ p.raw_pos) × R p.raw_pos s.0.sink s.1

  fetch-Fetched :
      (p : Proc C) (w : W)
      → R p.raw_pos p.sink w
      → Fetched p (fetch io cfg algo src pkg_size raw_size purpose prepare consumer (p, w))
  unfolding fetch
  fetch-Fetched p w r =
      let remain = sub32 (add32 pkg_size cfg.src_read_pos) p.src_pos in
      let len : ℕ = (if ltb remain cfg.cmprs_read_size then remain else cfg.cmprs_read_size) in
      let got = fw_pkg_read io src p.src_pos len algo.crypt_ops w in
      let r1 = fw_pkg_read-keeps algo.crypt_ops p.src_pos len p.raw_pos p.sink w refl r in
      elim (Bool-cases (remain == 0)) [
        | inl last ↦ elim (Bool-cases (length p.buf == 0)) [
          | inl e ↦ rw (last, e) (refl, r)
          | inr e ↦ rw (last, e) (refl, r)
        ]
        | inr more ↦ elim (Bool-cases (ltb remain int_max)) [
          | inl e ↦ elim (Option-cases got.0) [
            | inl f ↦ rw (more, e, f) (refl, r1)
            | inr (bytes, f) ↦ rw (more, e, f) (refl, r1)
          ]
          | inr e ↦ rw (more, e) (refl, r)
        ]
      ]

  -- A round keeps the invariant and comes nearer to the end.
  abbrev Advance : Proc C → Proc C × W → Type 0
  Advance p s = ProcInv s × (left s.0 < left p)

  convert-Advance :
      (p : Proc C) (w : W)
      → p.failed ≡ false
      → p.raw_pos < raw_size
      → R p.raw_pos p.sink w
      → Advance p (convert io cfg algo src pkg_size raw_size purpose prepare consumer (p, w))
  unfolding convert
  convert-Advance p w live room r =
      let ctx : StreamCtx = record {
        total = pkg_size;
        consumed = sub32 (sub32 p.src_pos cfg.src_read_pos) (length p.buf);
        raw_remaining = sub32 raw_size p.raw_pos;
        purpose = purpose;
      } in
      let start = prepare p.raw_pos p.sink in
      let (d, w1) =
        decompress_with_consumer algo.cmprs_ops cfg.buf_size ctx consumer p.buf start w in
      let (budget, input, ended, good) =
        decompress-delivers cfg.buf_size ctx cfg.enospc R delivers p.raw_pos (length p.buf) p.buf
          start w refl (prepare_keeps p.raw_pos p.sink w r) in
      elim (Bool-cases (is_failure cfg.enospc d.rst || (d.produced == 0))) [
        | inl stop ↦
            rw stop (record { bound = omega arith; delivered = inr refl }, rw live (omega arith))
        | inr go ↦
            let moved : add32 p.raw_pos d.produced ≡ p.raw_pos + d.produced = omega arith in
            let r1 : R (p.raw_pos + d.produced) d.sink w1 = elim good [
              | inl g ↦ g
              | inr bad ↦ absurd (ground arith)
            ] in
            rw go (
              record {
                bound = omega arith;
                delivered = inl (subst (λ n. R n d.sink w1) (sym moved) r1);
              },
              rw live (ground arith),
            )
      ]

  proc_body-Advance :
      (s : Proc C × W)
      → ProcInv s
      → proc_test io cfg algo src pkg_size raw_size purpose prepare consumer s ≡ true
      → Advance s.0 (proc_body io cfg algo src pkg_size raw_size purpose prepare consumer s)
  unfolding proc_body fetch
  proc_body-Advance (p, w) inv test =
      let live : p.failed ≡ false = ground arith in
      let room : p.raw_pos < raw_size = ground arith in
      let r : R p.raw_pos p.sink w = elim inv.delivered [
        | inl good ↦ good
        | inr bad ↦ absurd (cc (bad, live))
      ] in
      let s1 = fetch io cfg algo src pkg_size raw_size purpose prepare consumer (p, w) in
      let (same, r1) = fetch-Fetched p w r in
      elim (Bool-cases s1.0.failed) [
        | inl stop ↦ rw stop (
          record { bound = omega (arith, same); delivered = inr stop },
          rw (stop, live) (omega arith),
        )
        | inr go ↦
            let r2 : R s1.0.raw_pos s1.0.sink s1.1 =
              subst (λ n. R n s1.0.sink s1.1) (sym same) r1 in
            let (kept, fewer) = convert-Advance s1.0 s1.1 go (omega (arith, same)) r2 in
            rw go (kept, ground (arith, same, fewer))
      ]

  -- If the image has a 32-bit size, the process ends by itself. It fails, or it has delivered exactly
  -- `raw_size` bytes.
  pub stream_process-exact :
      (sink : C) (w : W)
      → R 0 sink w
      → let (p, w1) =
          stream_process io cfg algo src pkg_size raw_size purpose prepare consumer sink w in
        (p.failed ≡ true) ⊎ ((p.raw_pos ≡ raw_size) × R raw_size p.sink w1)
  unfolding stream_process
  stream_process-exact sink w r =
      let start = proc_start io cfg algo src pkg_size raw_size purpose prepare consumer sink in
      let s = stream_process io cfg algo src pkg_size raw_size purpose prepare consumer sink w in
      let (inv, ended) =
        while_inv ProcInv (λ s. left s.0)
          (proc_test io cfg algo src pkg_size raw_size purpose prepare consumer)
          (proc_body io cfg algo src pkg_size raw_size purpose prepare consumer) proc_body-Advance
          (raw_size + 2) (start, w) (omega arith)
          (record { bound = omega arith; delivered = inl r }) in
      elim (Bool-cases s.0.failed) [
        | inl stop ↦ inl stop
        | inr go ↦
            let full : s.0.raw_pos ≡ raw_size = ground arith in
            let good : R s.0.raw_pos s.0.sink s.1 = elim inv.delivered [
              | inl g ↦ g
              | inr bad ↦ absurd (cc (bad, go))
            ] in
            inr (full, subst (λ n. R n s.0.sink s.1) full good)
      ]
