-- ===== src/Algo/Gzip/Conserves.antt =====
-- algorithm/qboot_gzip.c loses no byte of the image between two calls.
use rt_thread_qboot.Base.{
  ℕ, zero, suc, ◌+◌, ◌-◌, ◌%◌, ◌≡◌, ◌≤◌, ◌<◌, ◌⊎◌, refl, ap, ◌∙◌, Bool, true, false, ◌&&◌, ◌||◌,
  not, List, [], ◌++◌, append-nil, take, drop, length, length-append, length-take, length-drop,
  take-append-drop, ltb, leb, ◌==◌, sub32, sub32_le, u32_mod, arith, Bool-cases, inl, inr,
}
use mathlib.Core.Path.{subst}
use rt_thread_qboot.Algo.{StreamCtx, Step}
use rt_thread_qboot.Algo.Gzip.{
  Inflated, Zlib, Gzip, remain_buf_size, is_broken, is_write, padding, flush_tail, align_output,
  gzip_result, aligned_step, inflated_step, is_last_chunk, gzip_decompress,
}

length-padding : (n : ℕ) → length (padding n) ≡ n
length-padding zero = refl
length-padding (suc n) = ap suc (length-padding n)

-- The output and the remainder are the bytes; or the remainder was flushed, with a padding.
abbrev pub Conserved : Bool → List ℕ → List ℕ → List ℕ → Type 0
Conserved pad bytes output rest =
    (output ++ rest ≡ bytes)
    ⊎ ((pad ≡ true)
        × (rest ≡ [])
        × (output ≡ bytes ++ padding (remain_buf_size - length bytes % remain_buf_size)))

length-rest :
    (bytes : List ℕ)
    → length (drop (length bytes - length bytes % remain_buf_size) bytes)
      ≡ length bytes % remain_buf_size
length-rest bytes = omega (arith, length-drop (length bytes - length bytes % remain_buf_size) bytes)

align_output-Conserved :
    (is_end pad : Bool) (room : ℕ) (bytes : List ℕ)
    → let r = align_output is_end pad room bytes in Conserved pad bytes r.0 r.1
unfolding align_output flush_tail
align_output-Conserved is_end pad room bytes =
    let n = length bytes - length bytes % remain_buf_size in
    let rest = drop n bytes in
    let whole = take-append-drop n bytes in
    elim (Bool-cases (is_end && ltb 0 (length rest))) [
      | inr keeps ↦ rw (keeps, align_output) (inl whole)
      | inl flushes ↦
          elim (Bool-cases (pad && leb (length (take n bytes) + remain_buf_size) room)) [
            | inr plain ↦
                rw (flushes, plain, align_output, flush_tail)
                  (inl (append-nil (take n bytes ++ rest) ∙ whole))
            | inl padded ↦
                let is_pad : pad ≡ true = ground (arith, padded) in
                rw (flushes, padded, align_output, flush_tail)
                  (inr (
                    is_pad,
                    refl,
                    ap (λ xs. xs ++ padding (remain_buf_size - length rest)) whole
                        ∙ ap (λ k. bytes ++ padding (remain_buf_size - k)) (length-rest bytes),
                  ))
          ]
    ]

-- The output fits, and the remainder is shorter than a piece.
align_output-bounds :
    (is_end pad : Bool) (room : ℕ) (bytes : List ℕ)
    → length bytes ≤ room
    → let r = align_output is_end pad room bytes in
      (length r.0 ≤ room) × (length r.1 < remain_buf_size)
unfolding align_output flush_tail
align_output-bounds is_end pad room bytes fits =
    let n = length bytes - length bytes % remain_buf_size in
    let rest = drop n bytes in
    let aligned = take n bytes in
    let len = length-take n bytes in
    let some_rest = length-rest bytes in
    let plain_len = length-append aligned rest in
    let gap = remain_buf_size - length rest in
    let padded_len = length-append (aligned ++ rest) (padding gap) in
    let gap_len = length-padding gap in
    elim (Bool-cases (is_end && ltb 0 (length rest))) [
      | inr keeps ↦ rw (keeps, align_output) (omega (arith, len, fits), omega (arith, some_rest))
      | inl flushes ↦ elim (Bool-cases (pad && leb (length aligned + remain_buf_size) room)) [
        | inr plain ↦
            rw (flushes, plain, align_output, flush_tail)
              (omega (arith, plain_len, len, some_rest, fits), omega arith)
        | inl padded ↦
            let has_room : length aligned + remain_buf_size ≤ room = ground (arith, padded) in
            rw (flushes, padded, align_output, flush_tail)
              (omega (arith, padded_len, plain_len, gap_len, some_rest, has_room), omega arith)
      ]
    ]

module _ {W : Type 0} (z : Zlib W) (rt_enospc : ℕ) (buf : List ℕ) (room : ℕ) (ctx : StreamCtx)
    (g : Gzip W) where
  abbrev answer : Inflated
  answer = (z.inflate buf (room - length g.remain) g.zlib).0

  abbrev pads : Bool
  pads = is_write ctx.purpose && is_last_chunk z rt_enospc buf ctx

  abbrev called : Step × Gzip W
  called = gzip_decompress z rt_enospc buf room ctx g

  -- A call with input, with room for the remainder and a result of `inflate` that is no error, puts out
  -- the old remainder and what was inflated, less the new remainder. Only where the last input of a
  -- stream is written may a padding to 32 bytes follow, and then nothing remains.
  pub gzip_decompress-Conserved :
      0 < length buf
      → length g.remain ≤ room
      → is_broken answer.ret ≡ false
      → Conserved pads (g.remain ++ answer.produced) called.0.output called.1.remain
  unfolding gzip_decompress inflated_step aligned_step gzip_result
  gzip_decompress-Conserved some_input has_room sound =
      let fits : ltb room (length g.remain) ≡ false = ground arith in
      let is_some : (length buf == 0) ≡ false = ground arith in
      let is_end = ltb (length answer.produced) (room - length g.remain) in
      let aligned = align_output-Conserved is_end pads room (g.remain ++ answer.produced) in
      rw (fits, is_some, sound, gzip_decompress, inflated_step) aligned

  -- The call at the end of the input puts out the remainder.
  pub gzip_decompress-flush :
      length buf ≡ 0
      → length g.remain ≤ room
      → is_last_chunk z rt_enospc buf ctx ≡ true
      → 0 < length g.remain
      → Conserved pads g.remain called.0.output called.1.remain
  unfolding gzip_decompress aligned_step gzip_result
  gzip_decompress-flush no_input has_room last some_rest =
      let fits : ltb room (length g.remain) ≡ false = ground arith in
      let is_none : (length buf == 0) ≡ true = ground arith in
      let is_rest : (length g.remain == 0) ≡ false = ground arith in
      rw (fits, is_none, is_rest, last, gzip_decompress)
        (align_output-Conserved true (is_write ctx.purpose && true) room g.remain)

  -- What a result promises to the code that reads it.
  abbrev Bounded : Step × Gzip W → Type 0
  Bounded r =
      (length r.0.output ≤ room)
      × (r.0.consumed ≤ length buf)
      × (length r.1.remain < remain_buf_size)

  aligned_step-Bounded :
      (is_end pad : Bool) (bytes : List ℕ) (g' : Gzip W)
      → length bytes ≤ room
      → g'.avail_in ≤ length buf
      → length buf < u32_mod
      → Bounded (aligned_step z rt_enospc is_end pad room (length buf) bytes g')
  unfolding aligned_step gzip_result
  aligned_step-Bounded is_end pad bytes g' fits left small =
      let (output, rest) = align_output-bounds is_end pad room bytes fits in
      let taken : sub32 (length buf) g'.avail_in ≡ length buf - g'.avail_in =
        sub32_le (length buf) g'.avail_in left small in
      (output, omega (arith, taken), rest)

  -- A call never puts out more than there is room for, never takes more input than there is, and keeps
  -- less than 32 bytes back. This relies on a remainder below 32 bytes before the call, on `inflate`,
  -- which fills no more than its room and leaves no more input than it was given, and on the
  -- input that the last call left being in the buffer still.
  pub gzip_decompress-Bounded :
      length g.remain < remain_buf_size
      → length buf < u32_mod
      → length answer.produced ≤ room - length g.remain
      → answer.avail_in ≤ length buf
      → g.avail_in ≤ length buf
      → Bounded called
  unfolding gzip_decompress inflated_step
  gzip_decompress-Bounded small_rest small fills leaves still =
      elim (Bool-cases (ltb room (length g.remain))) [
        | inl full ↦ rw (full, gzip_decompress) (omega arith, omega arith, small_rest)
        | inr fits ↦
            let has_room : length g.remain ≤ room = ground (arith, fits) in
            elim (Bool-cases (length buf == 0)) [
              | inl no_input ↦
                  elim (Bool-cases
                    (not (is_last_chunk z rt_enospc buf ctx) || length g.remain == 0)) [
                      | inl waits ↦
                          rw (fits, no_input, waits, gzip_decompress)
                            (omega arith, omega arith, small_rest)
                      | inr flushes ↦
                          let none_in : length buf ≡ 0 = ground (arith, no_input) in
                          rw (fits, no_input, flushes, gzip_decompress)
                            (subst
                              (λ n. Bounded (aligned_step z rt_enospc true pads room n g.remain g))
                              none_in
                              (aligned_step-Bounded true pads g.remain g has_room still small))
                    ]
              | inr input ↦ elim (Bool-cases (is_broken answer.ret)) [
                | inl broken ↦
                    rw (fits, input, broken, gzip_decompress, inflated_step)
                      (omega arith, omega arith, small_rest)
                | inr sound ↦
                    let total = length-append g.remain answer.produced in
                    rw (fits, input, sound, gzip_decompress, inflated_step)
                      (aligned_step-Bounded (ltb (length answer.produced) (room - length g.remain))
                        pads (g.remain ++ answer.produced) _ (omega (arith, total, fills, has_room))
                        leaves small)
              ]
            ]
      ]
