-- ===== src/Boot/Copied.antt =====
-- `qbt_fw_clone` of src/qboot.c copies the package.
use rt_thread_qboot.Base.{
  ℕ, ◌+◌, ◌-◌, ◌≤◌, ◌<◌, ◌≡◌, refl, ap, ◌∙◌, true, false, some, List, ◌++◌, if◌then◌else◌, length,
  slice, append-slice, length-take, length-drop, sub32, add32, u32_mod, arith, Bool-cases, ◌⊎◌, inl,
  inr, while, while_inv, drop,
}
use rt_thread_qboot.Storage.{IoOps, is_eok}
use rt_thread_qboot.Storage.Targets.{erase_with_feed}
use rt_thread_qboot.Stream.{StreamCfg}
use rt_thread_qboot.Boot.{piece_len}
use rt_thread_qboot.Boot.Shell.{Copy, clone_round, clone_test, clone_start, fw_clone}
use rt_thread_qboot.Boot.Checksum.{Readable}

-- Two areas, of which the second is written: a write that succeeds puts its bytes behind what stands
-- before their place, and the first area stays as it is whatever happens to the second.
pub record Writable {W H : Type 0} (io : IoOps W H) (dst : H) (source target : W → List ℕ)
    (wdt_feed : W → W) : Type 0 where
  pub write_puts :
      (off : ℕ) (bytes : List ℕ) (w : W)
      → is_eok (io.write dst off bytes w).0 ≡ true
      → slice 0 (off + length bytes) (target (io.write dst off bytes w).1)
        ≡ slice 0 off (target w) ++ bytes
  pub write_source :
      (off : ℕ) (bytes : List ℕ) (w : W) → source (io.write dst off bytes w).1 ≡ source w
  pub erase_source : (off len : ℕ) (w : W) → source (io.erase dst off len w).1 ≡ source w
  pub feed_source : (w : W) → source (wdt_feed w) ≡ source w

module _ {W H : Type 0} {io : IoOps W H} (cfg : StreamCfg) {wdt_feed : W → W} {dst src : H}
    {source target : W → List ℕ} {room : ℕ} (area : Readable io src source room)
    (read_target : (off len : ℕ) (w : W) → target (io.read src off len w).1 ≡ target w)
    (other : Writable io dst source target wdt_feed) (size : ℕ) (inside : size ≤ room)
    (small : room < u32_mod) (has_buf : 0 < cfg.buf_size) (bytes : List ℕ)
    (full : length bytes ≡ room) where
  -- What holds of the loop's state: what was copied is a copy, unless a write has failed.
  record CopyInv (s : Copy io cfg × W) : Type 0 where
    bound : s.0.pos ≤ size
    source_same : source s.1 ≡ bytes
    copied : (s.0.failed ≡ true) ⊎ (slice 0 s.0.pos (target s.1) ≡ slice 0 s.0.pos bytes)

  abbrev left : Copy io cfg → ℕ
  left s = if s.failed then 0 else 1 + size - s.pos

  length-piece : (off len : ℕ) → off + len ≤ room → length (slice off len bytes) ≡ len
  length-piece off len fits =
      omega (arith, length-take len (drop off bytes), length-drop off bytes, full)

  clone_round-CopyInv :
      (s : Copy io cfg × W)
      → CopyInv s
      → clone_test io cfg size s ≡ true
      → CopyInv (clone_round io cfg dst src size s)
        × (left (clone_round io cfg dst src size s).0 < left s.0)
  unfolding clone_round
  clone_round-CopyInv (s, w) inv test =
      let room_left : s.pos < size = ground arith in
      let live : s.failed ≡ false = ground arith in
      let len : ℕ = piece_len cfg.buf_size (sub32 size s.pos) in
      let some_len : 0 < len = ground arith in
      let fits : s.pos + len ≤ size = ground arith in
      let next : add32 s.pos len ≡ s.pos + len = omega arith in
      let piece = slice s.pos len bytes in
      let got : (io.read src s.pos len w).0 ≡ some piece =
        area.read_gets s.pos len w (omega arith)
        ∙ ap (λ b. some (slice s.pos len b)) inv.source_same in
      let w1 = (io.read src s.pos len w).1 in
      let kept1 : source w1 ≡ bytes = area.read_content s.pos len w ∙ inv.source_same in
      let kept2 : source (io.write dst s.pos piece w1).1 ≡ bytes =
        other.write_source s.pos piece w1 ∙ kept1 in
      let before : slice 0 s.pos (target w1) ≡ slice 0 s.pos bytes =
        ap (λ t. slice 0 s.pos t) (read_target s.pos len w)
        ∙ elim inv.copied [ inl bad ↦ absurd (cc (bad, live)) | inr good ↦ good ] in
      elim (Bool-cases (is_eok (io.write dst s.pos piece w1).0)) [
        | inl fine ↦
            let put = other.write_puts s.pos piece w1 fine in
            let count : length piece ≡ len = length-piece s.pos len (omega arith) in
            let zero_on : 0 + s.pos ≡ s.pos = omega arith in
            let joined : slice 0 s.pos bytes ++ slice s.pos len bytes
                ≡ slice 0 (s.pos + len) bytes =
              rw zero_on at (append-slice 0 s.pos len bytes) in
            let copied : slice 0 (s.pos + len) (target (io.write dst s.pos piece w1).1)
                ≡ slice 0 (s.pos + len) bytes =
              rw count at put ∙ ap (λ xs. xs ++ piece) before ∙ joined in
            rw (got, fine, clone_round)
              (
                record {
                  bound = omega (arith, next, fits);
                  source_same = kept2;
                  copied = inr (rw next copied);
                },
                ground (arith, next, fits, live, some_len),
              )
        | inr bad ↦
            rw (got, bad, clone_round)
              (
                record { bound = omega arith; source_same = kept2; copied = inl refl },
                ground (arith, live),
              )
      ]

  erase_with_feed-source :
      (off len : ℕ) (w : W) → source (erase_with_feed io wdt_feed dst off len w).1 ≡ source w
  unfolding erase_with_feed
  erase_with_feed-source off len w =
      other.feed_source (io.erase dst off len (wdt_feed w)).1
      ∙ other.erase_source off len (wdt_feed w)
      ∙ other.feed_source w

  -- If the package lies inside of the source and the buffer has a byte, then after a clone that
  -- succeeds the first `size` bytes of the destination are those of the source.
  pub fw_clone-copies :
      (w : W)
      → source w ≡ bytes
      → (fw_clone io cfg wdt_feed dst src size w).0 ≡ true
      → slice 0 size (target (fw_clone io cfg wdt_feed dst src size w).1) ≡ slice 0 size bytes
  unfolding fw_clone
  fw_clone-copies w same ok =
      let w1 = (erase_with_feed io wdt_feed dst 0 size w).1 in
      let kept : source w1 ≡ bytes = erase_with_feed-source 0 size w ∙ same in
      let s =
        while (size + 2) (clone_test io cfg size) (clone_round io cfg dst src size)
          (clone_start io cfg, w1) in
      let (inv, ended) =
        while_inv CopyInv (λ s. left s.0) (clone_test io cfg size) (clone_round io cfg dst src size)
          clone_round-CopyInv (size + 2) (clone_start io cfg, w1) (omega arith)
          (record { bound = omega arith; source_same = kept; copied = inr refl }) in
      elim (Bool-cases (is_eok (erase_with_feed io wdt_feed dst 0 size w).0)) [
        | inl erased ↦
            let live : s.0.failed ≡ false = ground (arith, erased, ok) in
            let whole : s.0.pos ≡ size = ground (arith, live, ended, inv.bound) in
            let copied : slice 0 s.0.pos (target s.1) ≡ slice 0 s.0.pos bytes = elim inv.copied [
              | inl bad ↦ absurd (cc (bad, live))
              | inr good ↦ good
            ] in
            rw (erased, fw_clone) (rw whole at copied)
        | inr bad ↦ absurd (ground (arith, bad, ok))
      ]
