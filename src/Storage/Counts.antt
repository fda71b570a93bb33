-- ===== src/Storage/Counts.antt =====
-- How many handles are open after `qbt_target_open` and `qbt_target_close` (src/qboot_ops.c).
use rt_thread_qboot.Base.{
  ℕ, ◌+◌, ◌≤◌, ◌-◌, true, Option, none, some, ◌≡◌, ◌≢◌, ◌∙◌, arith, Option-cases, inl, inr,
}
use rt_thread_qboot.Storage.{IoOps}
use rt_thread_qboot.Storage.Targets.{
  Opened, refused, unsized, opened, sized, open_with, target_open, target_close,
}
use rt_thread_qboot.Storage.Frame.{HandleCount, weight_of, SizesKnown}

-- The count after a call of `qbt_target_open` with a size query, from `others` on: with the handle that
-- it gives, if it succeeds.
abbrev pub Fits : {H : Type 0} → (H → ℕ) → ℕ → Opened H → ℕ → Type 0
Fits weigh others refused n = n ≡ others
Fits weigh others (unsized h) n = n ≡ others
Fits weigh others (opened h size) n = n ≡ others + weigh h

-- The size query did not fail.
abbrev pub NotUnsized : {H : Type 0} → Opened H → Type 0
NotUnsized {H = H} got = (h : H) → got ≢ unsized h

module _ {W H : Type 0} {io : IoOps W H} (weigh : H → ℕ) (live : W → ℕ)
    (count : HandleCount io weigh live) where
  sized-Fits :
      (others : ℕ) (h : H) (n : Option ℕ) (w : W)
      → live w ≡ others + weigh h
      → Fits weigh others (sized io h (n, w)).0 (live (sized io h (n, w)).1)
  unfolding sized
  sized-Fits others h none w b = omega (arith, b, count.close_counts h w (omega (arith, b)))
  sized-Fits others h (some n) w b = b

  open_with-Fits :
      (others : ℕ) (o : Option H) (w : W)
      → live w ≡ others + weight_of weigh o
      → Fits weigh others (open_with io true (o, w)).0 (live (open_with io true (o, w)).1)
  unfolding open_with
  open_with-Fits others none w b = omega (arith, b)
  open_with-Fits others (some h) w b =
      sized-Fits others h (io.size h w).0 (io.size h w).1 (count.size_counts h w ∙ b)

  pub target_open-Fits :
      (others id flags : ℕ) (w : W)
      → live w ≡ others
      → let (got, w1) = target_open io id flags true w in Fits weigh others got (live w1)
  target_open-Fits others id flags w b =
      let (o, w1) = io.open_target id flags w in
      let b1 : live w1 ≡ others + weight_of weigh o = omega (arith, count.open_counts id flags w) in
      unfold target_open in open_with-Fits others o w1 b1

  pub target_close-count :
      (o : Option H) (w : W)
      → weight_of weigh o ≤ live w
      → live (target_close io o w) ≡ live w - weight_of weigh o
  unfolding target_close
  target_close-count none w le = omega arith
  target_close-count (some h) w le = count.close_counts h w le

module _ {W H : Type 0} (io : IoOps W H) (known : SizesKnown io) where
  open_with-NotUnsized : (o : Option H) (w : W) → NotUnsized (open_with io true (o, w)).0
  unfolding open_with sized
  open_with-NotUnsized none w h e = ground arith
  open_with-NotUnsized (some k) w h e = elim (Option-cases (io.size k w).0) [
    | inl n ↦ known k w n
    | inr (size, n) ↦ absurd (ground (arith, n, e))
  ]

  pub target_open-NotUnsized :
      (id flags : ℕ) (w : W) → NotUnsized (target_open io id flags true w).0
  target_open-NotUnsized id flags w =
      let (o, w1) = io.open_target id flags w in unfold target_open in open_with-NotUnsized o w1
