-- ===== src/Stream/Identity.antt =====
-- A package that is neither encrypted nor compressed (algorithm/qboot_none.c) comes out of the stream
-- (src/qboot_stream.c) as it is.
use rt_thread_qboot.Base.{
  ℕ, ◌+◌, ◌-◌, ◌≡◌, ◌≤◌, ◌<◌, ◌⊎◌, inl, inr, refl, sym, ap, ◌∙◌, true, false, some, List, [], ◌∷◌,
  ◌++◌, append_assoc, ltb, ◌==◌, ◌||◌, if◌then◌else◌, length, take, drop, slice, append-slice,
  length-append, length-take, take-append, take-take, add32, sub32, u32_mod, while_keeps, arith,
  Bool-cases,
}
use rt_thread_qboot.Storage.{IoOps}
use rt_thread_qboot.Algo.{Purpose, StreamCtx, AlgoContext}
use mathlib.Core.Path.{subst}
use rt_thread_qboot.Stream.Keeps.{decompress-keeps}
use rt_thread_qboot.Stream.Progress.{Delivers}
use rt_thread_qboot.Stream.Exact.{SourceKeeps, stream_process-exact}
use rt_thread_qboot.Boot.Checksum.{Readable}
use rt_thread_qboot.Algo.NoneCodec.{none_decompress, none_crypt, none_cmprs_ops, none_crypt_ops}
use rt_thread_qboot.Stream.{
  decompress_with_consumer, fw_pkg_read, StreamCfg, Proc, int_max, is_failure, fetch, convert,
  proc_body, proc_test, proc_start, stream_process,
}
use rt_thread_qboot.Stream.Joined.{collect, decompress-joined}

none_decompress-world :
    {W A : Type 0} (f : W → A) (rt_enospc : ℕ) (buf : List ℕ) (cap : ℕ) (ctx : StreamCtx) (w : W)
    → f (none_decompress rt_enospc buf cap ctx w).1 ≡ f w
unfolding none_decompress
none_decompress-world f rt_enospc [] cap ctx w = refl
none_decompress-world f rt_enospc (x ∷ buf) cap ctx w = refl

abbrev pub none_algo : {W : Type 0} → ℕ → AlgoContext W
none_algo rt_enospc = record {
  crypt_ops = some none_crypt_ops;
  cmprs_ops = none_cmprs_ops rt_enospc;
}

module _ {W H : Type 0} {io : IoOps W H} (cfg : StreamCfg) (rt_enospc : ℕ) {src : H}
    {content : W → List ℕ} {room : ℕ} (area : Readable io src content room) (pkg_size raw_size : ℕ)
    (purpose : Purpose) (inside : cfg.src_read_pos + pkg_size ≤ room) (small : room < u32_mod)
    (bytes : List ℕ) where
  -- While nothing has failed, what was delivered and what is buffered is what was read.
  record ReadInv (s : Proc (List ℕ) × W) : Type 0 where
    same : content s.1 ≡ bytes
    above : cfg.src_read_pos ≤ s.0.src_pos
    below : s.0.src_pos ≤ cfg.src_read_pos + pkg_size
    joined :
        (s.0.failed ≡ true)
        ⊎ (s.0.sink ++ s.0.buf ≡ slice cfg.src_read_pos (s.0.src_pos - cfg.src_read_pos) bytes)

  abbrev fetching : Proc (List ℕ) × W → Proc (List ℕ) × W
  fetching = fetch io cfg (none_algo rt_enospc) src pkg_size raw_size purpose (λ n c. c) collect

  abbrev converting : Proc (List ℕ) × W → Proc (List ℕ) × W
  converting = convert io cfg (none_algo rt_enospc) src pkg_size raw_size purpose (λ n c. c) collect

  fw_pkg_read-piece :
      (off len : ℕ) (w : W)
      → content w ≡ bytes
      → off + len ≤ room
      → ((fw_pkg_read io src off len (some none_crypt_ops) w).0 ≡ some (slice off len bytes))
        × (content (fw_pkg_read io src off len (some none_crypt_ops) w).1 ≡ bytes)
  unfolding fw_pkg_read none_crypt
  fw_pkg_read-piece off len w same fits =
      let got : (io.read src off len w).0 ≡ some (slice off len bytes) =
        area.read_gets off len w fits ∙ ap (λ b. some (slice off len b)) same in
      rw (fw_pkg_read, got) (refl, area.read_content off len w ∙ same)

  fetching-ReadInv :
      (p : Proc (List ℕ)) (w : W) → ReadInv (p, w) → p.failed ≡ false → ReadInv (fetching (p, w))
  unfolding fetch
  fetching-ReadInv p w inv live =
      let base = cfg.src_read_pos in
      let remain = sub32 (add32 pkg_size cfg.src_read_pos) p.src_pos in
      let len : ℕ = (if ltb remain cfg.cmprs_read_size then remain else cfg.cmprs_read_size) in
      let above : base ≤ p.src_pos = inv.above in
      let below : p.src_pos ≤ base + pkg_size = inv.below in
      let left : remain ≡ base + pkg_size - p.src_pos = omega (arith, inv.above, inv.below) in
      let fits : p.src_pos + len ≤ base + pkg_size = ground (arith, left, above, below) in
      let next : add32 p.src_pos len ≡ p.src_pos + len = omega (arith, fits) in
      let piece = slice p.src_pos len bytes in
      let (got, kept) = fw_pkg_read-piece p.src_pos len w inv.same (omega (arith, fits)) in
      let before : p.sink ++ p.buf ≡ slice base (p.src_pos - base) bytes = elim inv.joined [
        | inl bad ↦ absurd (cc (bad, live))
        | inr good ↦ good
      ] in
      let at : base + (p.src_pos - base) ≡ p.src_pos = omega (arith, above) in
      let more : (p.src_pos - base) + len ≡ p.src_pos + len - base = omega (arith, above) in
      let joined : p.sink ++ (p.buf ++ piece) ≡ slice base (p.src_pos + len - base) bytes =
        sym (append_assoc p.sink p.buf piece)
        ∙ ap (λ xs. xs ++ piece) before
        ∙ rw (at, more) at (append-slice base (p.src_pos - base) len bytes) in
      elim (Bool-cases (remain == 0)) [
        | inl last ↦ elim (Bool-cases (length p.buf == 0)) [
          | inl e ↦
              rw (last, e)
                (record { same = inv.same; above = above; below = below; joined = inl refl })
          | inr e ↦ rw (last, e) inv
        ]
        | inr some_left ↦ elim (Bool-cases (ltb remain int_max)) [
          | inl e ↦
              rw (some_left, e, got)
                (record {
                  same = kept;
                  above = omega (arith, next, above);
                  below = omega (arith, next, fits);
                  joined = inr (rw next joined);
                })
          | inr e ↦
              rw (some_left, e)
                (record { same = inv.same; above = above; below = below; joined = inl refl })
        ]
      ]

  converting-ReadInv :
      (p : Proc (List ℕ)) (w : W) → ReadInv (p, w) → p.failed ≡ false → ReadInv (converting (p, w))
  unfolding convert
  converting-ReadInv p w inv live =
      let base = cfg.src_read_pos in
      let ctx : StreamCtx = record {
        total = pkg_size;
        consumed = sub32 (sub32 p.src_pos cfg.src_read_pos) (length p.buf);
        raw_remaining = sub32 raw_size p.raw_pos;
        purpose = purpose;
      } in
      let (d, w1) =
        decompress_with_consumer (none_cmprs_ops rt_enospc) cfg.buf_size ctx collect p.buf p.sink
          w in
      let joined : d.sink ++ d.buf ≡ p.sink ++ p.buf =
        decompress-joined cfg.buf_size rt_enospc ctx p.buf p.sink w in
      let kept : content w1 ≡ content w =
        decompress-keeps (none_cmprs_ops rt_enospc) cfg.buf_size ctx collect content
          (none_decompress-world content rt_enospc) (λ out acc w2. unfold collect in refl) p.buf
          p.sink w in
      let before : p.sink ++ p.buf ≡ slice base (p.src_pos - base) bytes = elim inv.joined [
        | inl bad ↦ absurd (cc (bad, live))
        | inr good ↦ good
      ] in
      elim (Bool-cases (is_failure cfg.enospc d.rst || (d.produced == 0))) [
        | inl stop ↦ rw stop (record {
          same = kept ∙ inv.same;
          above = inv.above;
          below = inv.below;
          joined = inl refl;
        })
        | inr go ↦ rw go (record {
          same = kept ∙ inv.same;
          above = inv.above;
          below = inv.below;
          joined = inr (joined ∙ before);
        })
      ]

  proc_body-ReadInv :
      (s : Proc (List ℕ) × W)
      → ReadInv s
      → proc_test io cfg (none_algo rt_enospc) src pkg_size raw_size purpose (λ n c. c) collect s
        ≡ true
      → ReadInv (
          proc_body io cfg (none_algo rt_enospc) src pkg_size raw_size purpose (λ n c. c) collect s)
  unfolding proc_body
  proc_body-ReadInv (p, w) inv test =
      let s1 = fetching (p, w) in
      let inv1 = fetching-ReadInv p w inv (ground arith) in
      elim (Bool-cases s1.0.failed) [
        | inl stop ↦ subst ReadInv (ground (arith, stop)) inv1
        | inr go ↦ subst ReadInv (ground (arith, go)) (converting-ReadInv s1.0 s1.1 inv1 go)
      ]

  collected : Delivers (none_cmprs_ops {W = W} rt_enospc) cfg.enospc collect (λ n c w. length c ≡ n)
  unfolding collect
  collected = record {
    decompress_keeps = λ buf cap ctx n c w r. r;
    consume_moves = λ out n c w r e. length-append c out ∙ ap (λ k. k + length out) r;
    consume_fails = λ out c w e. absurd (ground arith);
  }

  readable : SourceKeeps io (none_algo rt_enospc) (λ n (c : List ℕ) w. length c ≡ n)
  readable = record {
    read_keeps = λ h off len n c w r. r;
    decrypt_keeps = λ crypt out n c w e r. r;
  }

  -- If the package lies inside of an area that can be read, the stream of a package that is neither
  -- encrypted nor compressed fails, or it delivers exactly the first `raw_size` bytes behind the
  -- header, whatever the sizes of the buffers are.
  pub stream_process-identity :
      (w : W)
      → content w ≡ bytes
      → raw_size < u32_mod
      → let p =
          (stream_process io cfg
            (none_algo rt_enospc)
            src
            pkg_size
            raw_size
            purpose
            (λ n c. c)
            collect
            []
            w).0 in
        (p.failed ≡ true) ⊎ (p.sink ≡ slice cfg.src_read_pos raw_size bytes)
  unfolding stream_process
  stream_process-identity w same fits =
      let (p, w1) =
        stream_process io cfg (none_algo rt_enospc) src pkg_size raw_size purpose (λ n c. c) collect
          [] w in
      let test =
        proc_test io cfg (none_algo rt_enospc) src pkg_size raw_size purpose (λ n c. c) collect in
      let body =
        proc_body io cfg (none_algo rt_enospc) src pkg_size raw_size purpose (λ n c. c) collect in
      let start =
        proc_start io cfg (none_algo rt_enospc) src pkg_size raw_size purpose (λ n c. c) collect
          [] in
      let nothing : cfg.src_read_pos - cfg.src_read_pos ≡ 0 = omega arith in
      let inv : ReadInv (p, w1) =
        while_keeps ReadInv test body proc_body-ReadInv (raw_size + 2) (start, w)
          (record {
            same = same;
            above = omega arith;
            below = omega arith;
            joined = inr (rw nothing refl);
          }) in
      let exact =
        stream_process-exact cfg (none_algo rt_enospc) src pkg_size raw_size purpose (λ n c. c)
          (λ n c w. length c ≡ n) collected readable (λ n c w r. r) fits [] w refl in
      elim exact [
        | inl bad ↦ inl bad
        | inr (at_end, full) ↦ elim inv.joined [
          | inl bad ↦ inl bad
          | inr joined ↦ inr (whole p.sink p.buf (p.src_pos - cfg.src_read_pos) full joined)
        ]
      ]
    where
      whole :
          (sink buf : List ℕ) (k : ℕ)
          → length sink ≡ raw_size
          → sink ++ buf ≡ slice cfg.src_read_pos k bytes
          → sink ≡ slice cfg.src_read_pos raw_size bytes
      whole sink buf k full joined =
          let rest = drop cfg.src_read_pos bytes in
          let long : raw_size ≤ k = omega (
            arith,
            full,
            length-append sink buf,
            length-take k rest,
            ap (λ xs. length xs) joined,
          ) in
          sym (take-append raw_size sink buf full)
          ∙ ap (λ xs. take raw_size xs) joined
          ∙ take-take raw_size k rest long
