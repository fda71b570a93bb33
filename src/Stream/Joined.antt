-- ===== src/Stream/Joined.antt =====
-- The inner loop of src/qboot_stream.c with the codec of algorithm/qboot_none.c.
use rt_thread_qboot.Base.{
  ℕ, zero, suc, ◌≡◌, refl, ap, ◌∙◌, List, [], ◌∷◌, ◌++◌, append_assoc, ltb, if◌then◌else◌, length,
  take, drop, add32, while_keeps, arith,
}
use rt_thread_qboot.Storage.{eok}
use rt_thread_qboot.Algo.{StreamCtx}
use rt_thread_qboot.Algo.NoneCodec.{none_decompress, none_cmprs_ops}
use rt_thread_qboot.Stream.{
  DecLoop, Consumer, dispatch, judge, dec_body, dec_test, dec_start, decompress_with_consumer,
}

-- A consumer that collects the output.
unfoldable pub collect : {W : Type 0} → Consumer W (List ℕ)
collect bytes acc w = ((eok, acc ++ bytes), w)

take-drop_lem : (n : ℕ) (xs : List ℕ) → take n xs ++ drop (length (take n xs)) xs ≡ xs
take-drop_lem zero xs = refl
take-drop_lem (suc n) [] = refl
take-drop_lem (suc n) (x ∷ xs) = ap (λ ys. x ∷ ys) (take-drop_lem n xs)

module _ {W : Type 0} (out_len rt_enospc : ℕ) (ctx : StreamCtx) where
  judge-joined :
      (cap : ℕ) (d : DecLoop (List ℕ)) (w w1 : W) (call : StreamCtx) (buf : List ℕ)
      → d.buf ≡ buf
      → let step = (none_decompress rt_enospc buf cap call w1).0 in
        let (d1, w2) = judge (none_cmprs_ops rt_enospc) out_len ctx collect cap step (d, w) in
        d1.sink ++ d1.buf ≡ d.sink ++ d.buf
  unfolding none_decompress judge dispatch collect
  judge-joined cap d w w1 call [] e = ground arith
  judge-joined cap d w w1 call (x ∷ xs) e =
      let out = take cap (x ∷ xs) in
      let joined : (d.sink ++ out) ++ drop (length out) (x ∷ xs) ≡ d.sink ++ (x ∷ xs) =
        append_assoc d.sink out (drop (length out) (x ∷ xs))
        ∙ ap (λ ys. d.sink ++ ys) (take-drop_lem cap (x ∷ xs)) in
      ground (arith, e, joined)

  dec_body-joined :
      (s : DecLoop (List ℕ) × W)
      → let s1 = dec_body (none_cmprs_ops rt_enospc) out_len ctx collect s in
        s1.0.sink ++ s1.0.buf ≡ s.0.sink ++ s.0.buf
  unfolding dec_body
  dec_body-joined (d, w) =
      let cap : ℕ = (if ltb d.remaining out_len then d.remaining else out_len) in
      let call = record ctx {
        consumed = add32 ctx.consumed d.consumed;
        raw_remaining = d.remaining;
      } in
      let w1 = (none_decompress rt_enospc d.buf cap call w).1 in
      ground (arith, judge-joined cap d w1 w call d.buf refl)

  pub decompress-joined :
      (buf acc : List ℕ) (w : W)
      → let d =
          (decompress_with_consumer (none_cmprs_ops rt_enospc) out_len ctx collect buf acc w).0 in
        d.sink ++ d.buf ≡ acc ++ buf
  unfolding decompress_with_consumer
  decompress-joined buf acc w =
      while_keeps (λ s. s.0.sink ++ s.0.buf ≡ acc ++ buf)
        (dec_test (none_cmprs_ops rt_enospc) out_len ctx collect)
        (dec_body (none_cmprs_ops rt_enospc) out_len ctx collect) (λ s e t. dec_body-joined s ∙ e) _
        (dec_start {W = W} (none_cmprs_ops rt_enospc) out_len ctx collect buf acc, w) refl
