-- ===== src/Stream/Progress.antt =====
-- The loops of src/qboot_stream.c end, and deliver exactly the size of the image.
use rt_thread_qboot.Base.{
  ℕ, ◌+◌, ◌≤◌, ◌<◌, ◌≡◌, ◌⊎◌, inl, inr, refl, true, false, List, arith, length, length-drop,
  while_inv, ltb, not, ◌&&◌, add32, if◌then◌else◌, Bool-cases, ◌||◌, ◌==◌,
}
use mathlib.Core.Path.{subst, sym, ◌∙◌}
use rt_thread_qboot.Storage.{is_eok}
use rt_thread_qboot.Algo.{StreamCtx, Step, CmprsOps}
use rt_thread_qboot.Stream.{
  DecLoop, Consumer, dispatch, judge, dec_body, dec_test, dec_start, decompress_with_consumer,
  is_failure,
}

-- `R n c w`: after n bytes of output the consumer's context is `c`. A decompressor leaves it alone,
-- a consumer that accepts bytes moves it on by their number, and the code of a consumer that does
-- not is no code for `more input`.
pub record Delivers {W C : Type 0} (cmprs : CmprsOps W) (enospc : ℕ) (consumer : Consumer W C)
    (R : ℕ → C → W → Type 0) : Type 0 where
  pub decompress_keeps :
      (buf : List ℕ) (cap : ℕ) (ctx : StreamCtx) (n : ℕ) (c : C) (w : W)
      → R n c w
      → R n c (cmprs.decompress buf cap ctx w).1
  pub consume_moves :
      (bytes : List ℕ) (n : ℕ) (c : C) (w : W)
      → R n c w
      → is_eok (consumer bytes c w).0.0 ≡ true
      → R (n + length bytes) (consumer bytes c w).0.1 (consumer bytes c w).1
  pub consume_fails :
      (bytes : List ℕ) (c : C) (w : W)
      → is_eok (consumer bytes c w).0.0 ≡ false
      → is_failure enospc (consumer bytes c w).0.0 ≡ true

module _ {W C : Type 0} {cmprs : CmprsOps W} (out_len : ℕ) (ctx : StreamCtx)
    {consumer : Consumer W C} (enospc : ℕ) (R : ℕ → C → W → Type 0)
    (delivers : Delivers cmprs enospc consumer R) (base in_len : ℕ) where
  -- The counters add up, and what was produced was delivered, unless a consumer failed.
  record LoopInv (s : DecLoop C × W) : Type 0 where
    budget : s.0.remaining + s.0.produced ≡ ctx.raw_remaining
    input : s.0.consumed + length s.0.buf ≡ in_len
    delivered :
        R (base + s.0.produced) s.0.sink s.1
        ⊎ ((s.0.halted ≡ true) × (is_failure enospc s.0.rst ≡ true))

  abbrev rank : DecLoop C → ℕ
  rank d = if d.halted then 0 else 1 + d.remaining + length d.buf

  -- A round keeps the invariant and comes nearer to the end.
  abbrev Round : DecLoop C → DecLoop C × W → Type 0
  Round d s = LoopInv s × (rank s.0 < rank d)

  dispatch-Round :
      (step : Step) (d : DecLoop C) (w : W)
      → d.halted ≡ false
      → d.remaining + d.produced ≡ ctx.raw_remaining
      → d.consumed + length d.buf ≡ in_len
      → R (base + d.produced) d.sink w
      → step.consumed ≤ length d.buf
      → length step.output ≤ d.remaining
      → 0 < step.consumed + length step.output
      → Round d (dispatch cmprs out_len ctx consumer step (d, w))
  unfolding dispatch
  dispatch-Round step d w live b i r c p z =
      elim (Bool-cases (is_eok (consumer step.output d.sink w).0.0)) [
        | inl good ↦
            let r1 = delivers.consume_moves step.output (base + d.produced) d.sink w r good in
            let e : base + d.produced + length step.output
                ≡ base + (d.produced + length step.output) =
              omega arith in
            let r2 =
              subst (λ n. R n (consumer step.output d.sink w).0.1 (consumer step.output d.sink w).1)
                e r1 in
            rw good (
              record {
                budget = omega arith;
                input = omega (arith, length-drop step.consumed d.buf);
                delivered = inl r2;
              },
              rw live (omega (arith, length-drop step.consumed d.buf)),
            )
        | inr bad ↦ rw bad (
          record {
            budget = b;
            input = i;
            delivered = inr (refl, delivers.consume_fails step.output d.sink w bad);
          },
          rw live (omega arith),
        )
      ]

  judge-Round :
      (cap : ℕ) (step : Step) (d : DecLoop C) (w : W)
      → d.halted ≡ false
      → d.remaining + d.produced ≡ ctx.raw_remaining
      → d.consumed + length d.buf ≡ in_len
      → R (base + d.produced) d.sink w
      → cap ≤ d.remaining
      → Round d (judge cmprs out_len ctx consumer cap step (d, w))
  unfolding judge
  judge-Round cap step d w live b i r c =
      elim (Bool-cases (
        not (is_eok step.rst)
        || ltb (length d.buf) step.consumed
        || ltb cap (length step.output)
        || ((step.consumed == 0) && (length step.output == 0)))) [
          | inl stop ↦
              rw stop (record { budget = b; input = i; delivered = inl r }, rw live (omega arith))
          | inr go ↦
              rw go
                (dispatch-Round step d w live b i r (ground arith) (ground arith) (ground arith))
        ]

  dec_body-Round :
      (s : DecLoop C × W)
      → LoopInv s
      → dec_test cmprs out_len ctx consumer s ≡ true
      → Round s.0 (dec_body cmprs out_len ctx consumer s)
  unfolding dec_body
  dec_body-Round (d, w) inv test =
      let live : d.halted ≡ false = ground arith in
      let r : R (base + d.produced) d.sink w = elim inv.delivered [
        | inl good ↦ good
        | inr bad ↦ absurd (cc (bad.0, live))
      ] in
      let cap : ℕ = (if ltb d.remaining out_len then d.remaining else out_len) in
      let call_consumed = add32 ctx.consumed d.consumed in
      let call = record ctx { consumed = call_consumed; raw_remaining = d.remaining } in
      let r1 = delivers.decompress_keeps d.buf cap call (base + d.produced) d.sink w r in
      elim (Bool-cases ((length d.buf == 0) && ltb call_consumed ctx.total)) [
        | inl stop ↦ rw stop (
          record { budget = inv.budget; input = inv.input; delivered = inl r },
          rw live (omega arith),
        )
        | inr go ↦ rw go (
            judge-Round cap (cmprs.decompress d.buf cap call w).0 d
              (cmprs.decompress d.buf cap call w).1 live inv.budget inv.input r1 (ground arith))
      ]

  -- The loop ends by its own test, with the invariant.
  decompress-LoopInv :
      (buf : List ℕ) (sink : C) (w : W)
      → length buf ≡ in_len
      → R base sink w
      → let s = decompress_with_consumer cmprs out_len ctx consumer buf sink w in
        LoopInv s × (dec_test cmprs out_len ctx consumer s ≡ false)
  unfolding decompress_with_consumer
  decompress-LoopInv buf sink w e r =
      while_inv LoopInv (λ s. rank s.0) (dec_test cmprs out_len ctx consumer)
        (dec_body cmprs out_len ctx consumer) dec_body-Round (ctx.raw_remaining + length buf + 2)
        (dec_start cmprs out_len ctx consumer buf sink, w) (omega arith)
        (record {
          budget = omega arith;
          input = omega arith;
          delivered = inl (subst (λ n. R n sink w) (omega arith) r);
        })

  pub decompress-delivers :
      (buf : List ℕ) (sink : C) (w : W)
      → length buf ≡ in_len
      → R base sink w
      → let (d, w1) = decompress_with_consumer cmprs out_len ctx consumer buf sink w in
        (d.remaining + d.produced ≡ ctx.raw_remaining)
        × (d.consumed + length d.buf ≡ length buf)
        × ((d.remaining ≡ 0) ⊎ (d.halted ≡ true))
        × (R (base + d.produced) d.sink w1 ⊎ (is_failure enospc d.rst ≡ true))
  decompress-delivers buf sink w e r =
      let (inv, ended) = decompress-LoopInv buf sink w e r in
      (
        inv.budget,
        inv.input ∙ sym e,
        ground arith,
        elim inv.delivered [ inl good ↦ inl good | inr bad ↦ inr bad.1 ],
      )
